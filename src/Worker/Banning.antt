-- ===== src/Worker/Banning.antt =====
-- src/worker.rs: a failed handshake, from the connection it ends to the ones that it shuts out.
use barebones_reverse_proxy.Prelude.{
  ℕ, ◌+◌, ◌≤◌, ◌<◌, List, ◌≡◌, sym, ap, ◌∙◌, Bool, true, false, Option, some, Result, ok, err, Text,
}
use barebones_reverse_proxy.Net.{SocketAddr}
use barebones_reverse_proxy.Config.{SecurityConfig}
use barebones_reverse_proxy.Security.{
  SecurityManagerInner, unlocked, with_lock, is_blacklisted, record_tls_failure, Call,
}
use barebones_reverse_proxy.Security.Checks.{
  is_banned, is_blacklisted-is_banned, is_banned-is_blacklisted,
}
use barebones_reverse_proxy.Security.Bans.{after, OrderedBefore, ban_lasts}
use barebones_reverse_proxy.ProxyProtocol.{TcpStream, ProxyStream}
use barebones_reverse_proxy.Worker.{
  dropped_blacklisted, tls_handshake_failed, Clock, resolve, recorded, accept, after_resolve,
  run_connection,
}
use barebones_reverse_proxy.Worker.Accepting.{unless_blacklisted-unlocked}

-- The state behind the two checks of a connection.
abbrev pub checked_state :
    Clock → SocketAddr → SocketAddr → SecurityManagerInner → SecurityManagerInner
checked_state clock peer_addr addr s =
    (is_blacklisted addr.ip clock.resolved_at (is_blacklisted peer_addr.ip clock.peer_at s).1).1

with_lock-some :
    {A : Type 0} (body : SecurityManagerInner → Option (A × SecurityManagerInner))
    (s : SecurityManagerInner) (a : A) (s' : SecurityManagerInner)
    → body s ≡ some (a, s')
    → with_lock body (unlocked s) ≡ (some a, unlocked s')
unfolding with_lock
with_lock-some body s a s' h = rw (with_lock, h)

module _ {TlsStream : Type 0} where
  -- If a connection passes both checks, its handshake fails, and that failure gets its address
  -- banned, then the connection ends with the failure recorded, and after any calls before the
  -- ban's end that leave the lock sound, every connection from that address before the ban's end is
  -- dropped.
  pub failed_handshake_bans :
      (security : Option SecurityConfig) (handshake : ProxyStream TcpStream → Result TlsStream Text)
      (clock later : Clock) (stream next_stream : TcpStream) (peer_addr addr next : SocketAddr)
      (ps : ProxyStream TcpStream) (flag : Bool) (e : Text) (s s1 s2 : SecurityManagerInner)
      (calls : List (ℕ × Call))
      → clock.peer_at ≤ clock.resolved_at
      → is_banned peer_addr.ip clock.peer_at s ≡ false
      → resolve security stream peer_addr ≡ ok (ps, addr, flag)
      → is_banned addr.ip clock.resolved_at s ≡ false
      → handshake ps ≡ err e
      → record_tls_failure addr.ip clock.failed_at (checked_state clock peer_addr addr s)
        ≡ some (true, s1)
      → OrderedBefore
          (clock.failed_at + (checked_state clock peer_addr addr s).ban_duration)
          clock.failed_at
          calls
      → after calls (unlocked s1) ≡ unlocked s2
      → next.ip ≡ addr.ip
      → later.peer_at < clock.failed_at + (checked_state clock peer_addr addr s).ban_duration
      → (run_connection security (some handshake) clock stream peer_addr (unlocked s)
          ≡ (tls_handshake_failed e, unlocked s1))
        × ((run_connection security (some handshake) later next_stream next (unlocked s2)).0
            ≡ dropped_blacklisted next)
  unfolding run_connection after_resolve accept with_lock
  failed_handshake_bans security handshake clock later stream next_stream peer_addr addr next ps
        flag e s s1 s2 calls ordered peer_free r addr_free failed bans o run same lt =
      let still =
        is_banned-is_blacklisted peer_addr.ip addr.ip clock.peer_at clock.resolved_at s ordered in
      let banned : is_banned next.ip later.peer_at s2 ≡ true =
        ap (λ ip. is_banned ip later.peer_at s2) same
        ∙ sym (is_blacklisted-is_banned addr.ip later.peer_at s2)
        ∙ ban_lasts addr.ip clock.failed_at later.peer_at _ s1 s2 calls bans o run lt in
      (
        unless_blacklisted-unlocked peer_addr clock.peer_at _ s
            ∙ rw (peer_free, r, after_resolve)
                (unless_blacklisted-unlocked addr clock.resolved_at _ _
                  ∙ rw (still, addr_free, accept, failed)
                      (ap (recorded e) (
                        with_lock-some (record_tls_failure addr.ip clock.failed_at)
                          (checked_state clock peer_addr addr s) true s1 bans))),
        ap (λ c. c.0) (unless_blacklisted-unlocked next later.peer_at _ s2) ∙ rw banned,
      )
