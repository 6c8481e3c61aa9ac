-- ===== src/Lib.antt =====
-- Barebones-Reverse-Proxy: a reverse proxy for HTTP and HTTPS in Rust.
--
-- The program reads a configuration (src/parser.rs into src/config.rs), accepts connections in one
-- worker for each core, reads the PROXY protocol's header in front of a connection where a trusted
-- upstream sends one (src/proxy_protocol.rs), bans and limits addresses (src/security.rs), chooses a
-- route for a request and rewrites its path (src/router.rs), and answers from a cache in memory or
-- from the upstream (src/cache.rs, src/proxy.rs). This library models the parts that carry state or
-- decide:
--
-- Prelude: Boolean tests, lists, texts, UTF-8, machine words and maps that all parts share.
-- Net: addresses of `std::net`, their grammar, and the parser of unsigned integers; Display prints
-- numbers and addresses, and Printed reads an IPv4 address back.
-- Config, Error: the records of src/config.rs, and the errors of src/error.rs.
-- Parser: src/parser.rs. The parent has the checks of one line; Parser/Comments has
-- `strip_comments`, Parser/RouteBlock, Parser/SecurityBlock and Parser/CacheBlock the blocks, and
-- Parser/TopLevel `parse_proxy_config`. The other children prove: Blocks what the blocks' loop
-- takes, BlockValues and Validity what an accepted file satisfies, Upstream where the trusted
-- upstream comes from, Blanking what stripping leaves, Garbage and Sizes the helpers of those names.
-- Security: src/security.rs, each method as a function of the time and the state under the lock, and
-- the lock with its poisoning. Security/History is the specification that forgets nothing, Window,
-- Tracking and Agreement the lemmas, Refinement the agreement for any calls, Bans the life of a ban,
-- Checks what `is_blacklisted` answers.
-- Lru: the crate `lru`, as an interface with the documented behaviour of its calls; Lru/Listed is a
-- list that meets it. Cache: src/cache.rs over that interface; Loop is the eviction loop, Accounting
-- and Insert the count of bytes, Reads what `get` gives, Runs any sequence of calls, Contents what
-- holds of every entry, StaticAssets the functions on paths and content types.
-- Router: src/router.rs; Matching is the choice of a route, Rewriting the addresses and paths.
-- ProxyProtocol: src/proxy_protocol.rs. A stream is what its reads of one byte will give, in order;
-- Header is the trusted peer's line, Replay the untrusted peer's bytes and the buffered stream.
-- Http: what the program uses of the crates `http` and `hyper`, with an interface to header maps, which
-- Http/Listed meets. Auth: src/auth.rs; Granted is what stands behind a granted access.
-- ErrorPages: src/error_pages.rs, with the whole template of the page.
-- Proxy: src/proxy.rs. The parent has what is read off a request, Screening the blacklist, the rate
-- limit and the login, Forwarding the request to the upstream, Answering what becomes of its answer,
-- and Handling `handle_request`, whose result holds the answer, the state left, the request that was
-- sent and the task that was spawned. Screened and Branches invert those steps; Sent, Forwarded,
-- Answered, Stored, Refused, Hits and ClientIp say what each outcome means, Kept what the handler
-- leaves of the shared state, Awaited which results depend on an answer that is awaited, and Runs what
-- any interleaving of requests and tasks keeps.
-- Worker: src/worker.rs, from an accepted connection to the address and flag its requests are handled
-- with; Accepting is a connection that is served, Banning one whose handshake fails.
-- Tls: src/tls.rs over an interface to the files and crates that read certificates; Resolving is the
-- certificate of a host name. Runtime: src/runtime_config.rs, `Server::new` and the reload loop of
-- src/server.rs; Reloading is what one reload does, Signals what any number of them keeps.
--
-- Times are nanoseconds of the monotone clock, given to each operation. `usize` and `u64` are of 64
-- bits; sums of the cache wrap as in a release build, and a product of a size is checked. Text is a
-- list of code points; white space is that of Unicode. Lower-casing is that of ASCII, so a path or
-- host with a capital beyond ASCII, such as the Kelvin sign, is lowered by the code and not here. The
-- parser's `index` is a count of the lines that a block takes, so its loops are by recursion on the
-- lines: `read_block` gets all lines behind a block's header, and says how many the block takes.
-- The eviction loop has the number of entries as fuel, and Cache.Loop shows that to be enough. The
-- reading of a header has the 107 bytes of the protocol as its bound, as the code does. Methods that
-- hold a lock run as one step, so an interleaving of threads is a sequence of calls.
--
-- The crates `http`, `hyper` and `rustls` and the two services are arguments: the parser of a URI, the
-- reason of a status, the collection of a body, the answers of the upstream and of the service for
-- logins, and the TLS handshake. A request reads the clock once for each of the three steps that need
-- it. A route's configuration is loaded once for each request, and a reload in the middle of one does
-- not change it, as in the code. The code awaits the upstream, the service for logins and the
-- collection of a body without a timeout. The model takes their answers as given, and says nothing of
-- a request whose answer never comes. A request is one step, and its answers are those of that step.
-- A spawned task inserts into the engine that its request was handled with; in Proxy/Runs that is the
-- engine of the one configuration, since a reload is not a step of those runs.
--
-- Not modelled: the transport on hyper and the copying of a tunnel's bytes, the log and the clock
-- readings that only the log uses, `ProxyState::new`, the sockets of src/worker.rs, the threads of
-- src/server.rs, src/log.rs, src/main.rs and src/lib.rs: they are output, or I/O around the modelled
-- parts.
pub mod Auth
pub mod Cache
pub mod Config
pub mod Error
pub mod ErrorPages
pub mod Http
pub mod Lru
pub mod Net
pub mod Parser
pub mod Prelude
pub mod Proxy
pub mod ProxyProtocol
pub mod Router
pub mod Runtime
pub mod Security
pub mod Tls
pub mod Worker
