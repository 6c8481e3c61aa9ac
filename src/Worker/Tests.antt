-- ===== src/Worker/Tests.antt =====
-- src/worker.rs: the theorems at concrete inputs.
use barebones_reverse_proxy.Prelude.{
  ◌≡◌, refl, false, none, some, [], Result, err, Text, lit, empty, arith, insert, retain,
}
use barebones_reverse_proxy.Net.{v4, SocketAddr, ip_addr_eq}
use barebones_reverse_proxy.Security.{
  SecurityManagerInner, unlocked, with_lock, is_blacklisted, record_tls_failure, cleanup, recent,
  instant_add,
}
use barebones_reverse_proxy.Security.Checks.{is_banned}
use barebones_reverse_proxy.Security.Bans.{after}
use barebones_reverse_proxy.ProxyProtocol.{TcpStream, ProxyStream, new}
use barebones_reverse_proxy.Worker.{
  plain, tls_handshake_failed, dropped_blacklisted, Clock, resolve, accept, after_resolve,
  unless_blacklisted, run_connection,
}
use barebones_reverse_proxy.Worker.Accepting.{Served, run_connection-Served}
use barebones_reverse_proxy.Worker.Banning.{failed_handshake_bans}

abbrev clock : Clock
clock = record { peer_at = 1; resolved_at = 2; failed_at = 3 }

abbrev later : Clock
later = record { peer_at = 50; resolved_at = 51; failed_at = 52 }

abbrev peer : SocketAddr
peer = record { ip = v4 7; port = 4000 }

abbrev next : SocketAddr
next = record { ip = v4 7; port = 4001 }

abbrev manager : SecurityManagerInner
manager = record {
  tls_failures = empty;
  request_tracker = empty;
  blacklist = empty;
  ban_duration = 100;
  max_tls_failures = 0;
  rate_limit_rpm = 60;
}

abbrev stream : ProxyStream TcpStream
stream = new [] none

-- The state behind the one failure that is too many.
abbrev banned : SecurityManagerInner
banned = elim (record_tls_failure peer.ip 3 manager) [ none ↦ manager | some (flag, s) ↦ s ]

run_connection-Served_example :
    Served {TlsStream = Unit} none none clock [] peer manager (plain stream) peer false
unfolding run_connection unless_blacklisted after_resolve resolve accept with_lock is_blacklisted
run_connection-Served_example =
    run_connection-Served none none clock [] peer manager (omega arith) (plain stream) peer false
      (unlocked manager) refl

abbrev refuses : ProxyStream TcpStream → Result {0, 0} Unit Text
refuses s = err (lit "bad certificate")

failed_handshake_bans_example :
    (run_connection none (some refuses) clock [] peer (unlocked manager)
      ≡ (tls_handshake_failed (lit "bad certificate"), unlocked banned))
    × ((run_connection none (some refuses) later [] next (unlocked banned)).0
        ≡ dropped_blacklisted next)
unfolding resolve is_blacklisted is_banned record_tls_failure cleanup recent instant_add after
    insert retain
failed_handshake_bans_example =
    failed_handshake_bans none refuses clock later [] [] peer peer next stream false
      (lit "bad certificate") manager banned banned [] (omega arith) refl refl refl refl refl tt
      refl refl (omega arith)
