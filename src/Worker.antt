-- ===== src/Worker.antt =====
-- src/worker.rs: what becomes of an accepted connection. The handshake of rustls is a function
-- from the stream to the encrypted one or an error; hyper's server, the sockets and the threads
-- are not modelled.
pub mod Accepting
pub mod Banning
mod Tests
use barebones_reverse_proxy.Prelude.{
  ℕ, ◌*◌, ◌%◌, ◌^◌, Bool, true, false, Option, none, some, if◌then◌else◌, Result, ok, err, Text,
}
use barebones_reverse_proxy.Net.{IpAddr, ip_eq, SocketAddr}
use barebones_reverse_proxy.Config.{SecurityConfig}
use barebones_reverse_proxy.Security.{
  SecurityManager, with_lock, is_blacklisted, record_tls_failure,
}
use barebones_reverse_proxy.ProxyProtocol.{
  TcpStream, ProxyStream, Accepted, new, handle_proxy_protocol,
}

-- What a connection is served on.
pub data Io (TlsStream : Type 0) : Type 0 where
  tls : TlsStream → Io TlsStream
  plain : ProxyStream TcpStream → Io TlsStream

-- What becomes of a connection: `served` has the address and the flag that each of its requests is
-- handled with, `panicked` is a poisoned lock.
pub data Connection (TlsStream : Type 0) : Type 0 where
  dropped_blacklisted : SocketAddr → Connection TlsStream
  security_check_failed : Text → Connection TlsStream
  tls_handshake_failed : Text → Connection TlsStream
  served : Io TlsStream → SocketAddr → Bool → Connection TlsStream
  panicked : Connection TlsStream

-- The readings of the clock, in their order.
pub record Clock : Type 0 where
  pub peer_at : ℕ
  pub resolved_at : ℕ
  pub failed_at : ℕ

abbrev pub with_flag : Bool → Accepted → Result (ProxyStream TcpStream × SocketAddr × Bool) Text
with_flag parsed (err e) = err e
with_flag parsed (ok (ps, addr)) = ok (ps, addr, parsed)

-- The stream, its address, and whether the trusted upstream opened it.
unfoldable pub resolve :
    Option SecurityConfig
    → TcpStream
    → SocketAddr
    → Result (ProxyStream TcpStream × SocketAddr × Bool) Text
resolve none stream peer_addr = ok (new stream none, peer_addr, false)
resolve (some sec) stream peer_addr =
    with_flag (ip_eq peer_addr.ip sec.trusted_upstream) (handle_proxy_protocol stream peer_addr sec)

module _ {TlsStream : Type 0} where
  abbrev pub recorded :
      Text → Option Bool × SecurityManager → Connection TlsStream × SecurityManager
  recorded e (none, manager) = (panicked, manager)
  recorded e (some banned, manager) = (tls_handshake_failed e, manager)

  abbrev pub after_handshake :
      ℕ
      → SocketAddr
      → Bool
      → SecurityManager
      → Result TlsStream Text
      → Connection TlsStream × SecurityManager
  after_handshake failed_at addr is_proxy_protocol manager (ok tls_stream) =
      (served (tls tls_stream) addr is_proxy_protocol, manager)
  after_handshake failed_at addr is_proxy_protocol manager (err e) =
      recorded e (with_lock (record_tls_failure addr.ip failed_at) manager)

  -- The handshake, if there is an acceptor.
  unfoldable pub accept :
      Option (ProxyStream TcpStream → Result TlsStream Text)
      → ℕ
      → ProxyStream TcpStream
      → SocketAddr
      → Bool
      → SecurityManager
      → Connection TlsStream × SecurityManager
  accept none failed_at stream addr is_proxy_protocol manager =
      (served (plain stream) addr is_proxy_protocol, manager)
  accept (some handshake) failed_at stream addr is_proxy_protocol manager =
      after_handshake failed_at addr is_proxy_protocol manager (handshake stream)

  -- `is_blacklisted`, before the connection goes on.
  unfoldable pub unless_blacklisted :
      SocketAddr
      → ℕ
      → (SecurityManager → Connection TlsStream × SecurityManager)
      → SecurityManager
      → Connection TlsStream × SecurityManager
  unless_blacklisted addr now go_on manager =
      let (listed, manager') = with_lock (λ s. some (is_blacklisted addr.ip now s)) manager in
      elim listed [
        | none ↦ (panicked, manager')
        | some true ↦ (dropped_blacklisted addr, manager')
        | some false ↦ go_on manager'
      ]

  -- Behind the PROXY protocol.
  unfoldable pub after_resolve :
      Option (ProxyStream TcpStream → Result TlsStream Text)
      → Clock
      → Result (ProxyStream TcpStream × SocketAddr × Bool) Text
      → SecurityManager
      → Connection TlsStream × SecurityManager
  after_resolve tls_acceptor clock (err e) manager = (security_check_failed e, manager)
  after_resolve tls_acceptor clock (ok (ps, resolved_addr, is_proxy_protocol)) manager =
      unless_blacklisted resolved_addr clock.resolved_at
        (accept tls_acceptor clock.failed_at ps resolved_addr is_proxy_protocol) manager

  -- The body of the task that is spawned for a connection.
  unfoldable pub run_connection :
      Option SecurityConfig
      → Option (ProxyStream TcpStream → Result TlsStream Text)
      → Clock
      → TcpStream
      → SocketAddr
      → SecurityManager
      → Connection TlsStream × SecurityManager
  run_connection security_config tls_acceptor clock stream peer_addr =
      unless_blacklisted peer_addr clock.peer_at
        (after_resolve tls_acceptor clock (resolve security_config stream peer_addr))

-- `max_header_size`, as HTTP/1 and HTTP/2 are given it.
unfoldable pub max_header_size : Option SecurityConfig → ℕ
max_header_size none = 64 * 1024
max_header_size (some s) = s.max_header_size

abbrev pub header_limits : Option SecurityConfig → ℕ × ℕ
header_limits security = (max_header_size security, max_header_size security % 2 ^ 32)
