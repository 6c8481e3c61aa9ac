-- ===== src/Worker/Accepting.antt =====
-- src/worker.rs: what stands behind a connection that is served, and what a failed handshake leaves.
use barebones_reverse_proxy.Prelude.{
  ℕ, ◌≤◌, ap₂, ◌≡◌, ◌⊎◌, inl, inr, refl, sym, ◌∙◌, Bool, true, false, Option, none, some,
  if◌then◌else◌, Result, ok, err, Text, arith, Bool-cases, if-cases,
}
use barebones_reverse_proxy.Net.{ip_eq, SocketAddr}
use barebones_reverse_proxy.Config.{SecurityConfig}
use barebones_reverse_proxy.Security.{
  SecurityManagerInner, SecurityManager, unlocked, with_lock, is_blacklisted,
}
use barebones_reverse_proxy.Security.Checks.{
  is_banned, is_blacklisted-is_banned, is_banned-is_blacklisted,
}
use barebones_reverse_proxy.ProxyProtocol.{TcpStream, ProxyStream, Accepted, handle_proxy_protocol}
use barebones_reverse_proxy.ProxyProtocol.Replay.{untrusted_replay}
use barebones_reverse_proxy.Worker.{
  Io, tls, plain, Connection, dropped_blacklisted, served, Clock, with_flag, resolve, recorded,
  after_handshake, accept, after_resolve, unless_blacklisted, run_connection,
}

-- Whether the peer is the upstream that is trusted.
abbrev pub from_trusted : Option SecurityConfig → SocketAddr → Bool
from_trusted none peer_addr = false
from_trusted (some sec) peer_addr = ip_eq peer_addr.ip sec.trusted_upstream

untrusted_address :
    (stream : TcpStream) (peer_addr : SocketAddr) (sec : SecurityConfig)
    {ps : ProxyStream TcpStream} {addr : SocketAddr}
    → handle_proxy_protocol stream peer_addr sec ≡ ok (ps, addr)
    → ip_eq peer_addr.ip sec.trusted_upstream ≡ false
    → addr ≡ peer_addr
unfolding handle_proxy_protocol
untrusted_address stream peer_addr sec {ps} {addr} h u = elim (Bool-cases sec.proxy_protocol) [
  | inl on ↦ (untrusted_replay peer_addr sec on u stream ps addr h).1
  | inr off ↦ ground (arith, h, off)
]

with_flag-ok :
    (r : Accepted) (trusted : Bool) (ps : ProxyStream TcpStream) (addr : SocketAddr) (flag : Bool)
    → with_flag trusted r ≡ ok (ps, addr, flag)
    → (r ≡ ok (ps, addr)) × (trusted ≡ flag)
with_flag-ok (ok (ps', addr')) trusted ps addr flag h = ground arith
with_flag-ok (err e) trusted ps addr flag h = absurd (ground arith)

resolve-own_address :
    (security : Option SecurityConfig) (stream : TcpStream) (peer_addr : SocketAddr)
    (ps : ProxyStream TcpStream) (addr : SocketAddr) (flag : Bool)
    → resolve security stream peer_addr ≡ ok (ps, addr, flag)
    → (flag ≡ from_trusted security peer_addr) × ((flag ≡ true) ⊎ (addr ≡ peer_addr))
unfolding resolve
resolve-own_address none stream peer_addr ps addr flag h = ground arith
resolve-own_address (some sec) stream peer_addr ps addr flag h =
    let (e, trusted) =
      with_flag-ok (handle_proxy_protocol stream peer_addr sec)
        (ip_eq peer_addr.ip sec.trusted_upstream) ps addr flag h in
    elim (Bool-cases (ip_eq peer_addr.ip sec.trusted_upstream)) [
      | inl t ↦ (sym trusted, inl (sym trusted ∙ t))
      | inr u ↦ (sym trusted, inr (untrusted_address stream peer_addr sec e u))
    ]

module _ {TlsStream : Type 0} where
  pub unless_blacklisted-unlocked :
      (addr : SocketAddr) (now : ℕ)
      (go_on : SecurityManager → Connection TlsStream × SecurityManager) (s : SecurityManagerInner)
      → unless_blacklisted addr now go_on (unlocked s) ≡ (
          if is_banned addr.ip now s
          then (dropped_blacklisted addr, unlocked (is_blacklisted addr.ip now s).1)
          else go_on (unlocked (is_blacklisted addr.ip now s).1))
  unfolding unless_blacklisted with_lock
  unless_blacklisted-unlocked addr now go_on s =
      let e = is_blacklisted-is_banned addr.ip now s in
      elim (Bool-cases (is_banned addr.ip now s)) [
        | inl b ↦ rw (unless_blacklisted, e, b)
        | inr b ↦ rw (unless_blacklisted, e, b)
      ]

  -- What the handshake gives, if it succeeds.
  abbrev pub io_of : Result TlsStream Text → Option (Io TlsStream)
  io_of (ok tls_stream) = some (tls tls_stream)
  io_of (err e) = none

  abbrev pub opened :
      Option (ProxyStream TcpStream → Result TlsStream Text)
      → ProxyStream TcpStream
      → Option (Io TlsStream)
  opened none stream = some (plain stream)
  opened (some handshake) stream = io_of (handshake stream)

  recorded-served :
      (e : Text) (r : Option Bool × SecurityManager) (io : Io TlsStream) (addr : SocketAddr)
      (flag : Bool) (m : SecurityManager)
      → recorded e r ≡ (served io addr flag, m)
      → ⊥
  recorded-served e (none, m') io addr flag m h = ground arith
  recorded-served e (some banned, m') io addr flag m h = ground arith

  after_handshake-served :
      (r : Result TlsStream Text) (failed_at : ℕ) (addr : SocketAddr) (is_proxy_protocol : Bool)
      (m m' : SecurityManager) (io : Io TlsStream) (addr' : SocketAddr) (flag : Bool)
      → after_handshake failed_at addr is_proxy_protocol m r ≡ (served io addr' flag, m')
      → (io_of r ≡ some io) × (addr ≡ addr') × (is_proxy_protocol ≡ flag) × (m ≡ m')
  after_handshake-served (ok t) failed_at addr is_proxy_protocol m m' io addr' flag h = ground arith
  after_handshake-served (err e) failed_at addr is_proxy_protocol m m' io addr' flag h =
      absurd (recorded-served e _ io addr' flag m' h)

  accept-served :
      (acceptor : Option (ProxyStream TcpStream → Result TlsStream Text)) (failed_at : ℕ)
      (stream : ProxyStream TcpStream) (addr : SocketAddr) (is_proxy_protocol : Bool)
      (m m' : SecurityManager) (io : Io TlsStream) (addr' : SocketAddr) (flag : Bool)
      → accept acceptor failed_at stream addr is_proxy_protocol m ≡ (served io addr' flag, m')
      → (opened acceptor stream ≡ some io) × (addr ≡ addr') × (is_proxy_protocol ≡ flag) × (m ≡ m')
  unfolding accept
  accept-served none failed_at stream addr is_proxy_protocol m m' io addr' flag h = ground arith
  accept-served (some handshake) failed_at stream addr is_proxy_protocol m m' io addr' flag h =
      after_handshake-served (handshake stream) failed_at addr is_proxy_protocol m m' io addr' flag
        h

  -- What stands behind a connection that is served.
  pub record Served (security : Option SecurityConfig)
      (acceptor : Option (ProxyStream TcpStream → Result TlsStream Text)) (clock : Clock)
      (stream : TcpStream) (peer_addr : SocketAddr) (s : SecurityManagerInner) (io : Io TlsStream)
      (addr : SocketAddr) (is_proxy_protocol : Bool) : Type 0 where
    pub checked : ProxyStream TcpStream
    pub peer_free : is_banned peer_addr.ip clock.peer_at s ≡ false
    pub addr_free : is_banned addr.ip clock.resolved_at s ≡ false
    pub resolved : resolve security stream peer_addr ≡ ok (checked, addr, is_proxy_protocol)
    pub io_opened : opened acceptor checked ≡ some io
    pub only_trusted : is_proxy_protocol ≡ from_trusted security peer_addr
    pub own_address : (is_proxy_protocol ≡ true) ⊎ (addr ≡ peer_addr)

  unless_blacklisted-served :
      (addr : SocketAddr) (now : ℕ)
      (go_on : SecurityManager → Connection TlsStream × SecurityManager) (s : SecurityManagerInner)
      (io : Io TlsStream) (addr' : SocketAddr) (flag : Bool) (m : SecurityManager)
      → unless_blacklisted addr now go_on (unlocked s) ≡ (served io addr' flag, m)
      → (is_banned addr.ip now s ≡ false)
        × (go_on (unlocked (is_blacklisted addr.ip now s).1) ≡ (served io addr' flag, m))
  unless_blacklisted-served addr now go_on s io addr' flag m h =
      elim (if-cases (is_banned addr.ip now s) _ _
        (sym (unless_blacklisted-unlocked addr now go_on s) ∙ h)) [
          | inl (b, dropped) ↦ absurd (ground arith)
          | inr (b, e) ↦ (b, e)
        ]

  after_resolve-served :
      (acceptor : Option (ProxyStream TcpStream → Result TlsStream Text)) (clock : Clock)
      (r : Result (ProxyStream TcpStream × SocketAddr × Bool) Text) (s : SecurityManagerInner)
      (io : Io TlsStream) (addr : SocketAddr) (flag : Bool) (m : SecurityManager)
      → after_resolve acceptor clock r (unlocked s) ≡ (served io addr flag, m)
      → (ps : ProxyStream TcpStream) × (addr1 : SocketAddr) × (flag1 : Bool) × (r
          ≡ ok (ps, addr1, flag1))
        × (is_banned addr1.ip clock.resolved_at s ≡ false)
        × (accept acceptor clock.failed_at ps addr1 flag1
              (unlocked (is_blacklisted addr1.ip clock.resolved_at s).1)
            ≡ (served io addr flag, m))
  unfolding after_resolve
  after_resolve-served acceptor clock (err e) s io addr flag m h = absurd (ground arith)
  after_resolve-served acceptor clock (ok (ps, addr1, flag1)) s io addr flag m h =
      let (free, h') = unless_blacklisted-served addr1 clock.resolved_at _ s io addr flag m h in
      (ps, addr1, flag1, refl, free, h')

  -- If a connection is served under a sound lock, with the checks' times in order, then neither the
  -- peer's nor the resolved address is banned, the stream and the address come from the PROXY
  -- protocol's check, the handshake succeeded if there is an acceptor, requests may name their own
  -- client exactly if the peer is the trusted upstream, and otherwise the address is the peer's
  -- own.
  pub run_connection-Served :
      (security : Option SecurityConfig)
      (acceptor : Option (ProxyStream TcpStream → Result TlsStream Text)) (clock : Clock)
      (stream : TcpStream) (peer_addr : SocketAddr) (s : SecurityManagerInner)
      → clock.peer_at ≤ clock.resolved_at
      → (io : Io TlsStream) (addr : SocketAddr) (is_proxy_protocol : Bool) (m : SecurityManager)
      → run_connection security acceptor clock stream peer_addr (unlocked s)
        ≡ (served io addr is_proxy_protocol, m)
      → Served security acceptor clock stream peer_addr s io addr is_proxy_protocol
  unfolding run_connection
  run_connection-Served security acceptor clock stream peer_addr s ordered io addr flag m h =
      let s1 = (is_blacklisted peer_addr.ip clock.peer_at s).1 in
      let (peer_free, h1) =
        unless_blacklisted-served peer_addr clock.peer_at _ s io addr flag m h in
      let (ps, addr1, flag1, r, addr_free, h2) =
        after_resolve-served acceptor clock (resolve security stream peer_addr) s1 io addr flag m
          h1 in
      let (io_opened, e, same_flag, same) =
        accept-served acceptor clock.failed_at ps addr1 flag1 _ m io addr flag h2 in
      let r' : resolve security stream peer_addr ≡ ok (ps, addr, flag) =
        r ∙ ap₂ (λ a f. ok (ps, a, f)) e same_flag in
      let (only_trusted, own) = resolve-own_address security stream peer_addr ps addr flag r' in
      record {
        checked = ps;
        peer_free = peer_free;
        addr_free =
            sym (
              is_banned-is_blacklisted peer_addr.ip addr.ip clock.peer_at clock.resolved_at s
                ordered)
            ∙ rw (← e) addr_free;
        resolved = r';
        io_opened = io_opened;
        only_trusted = only_trusted;
        own_address = own;
      }
