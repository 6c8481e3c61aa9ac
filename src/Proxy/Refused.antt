-- ===== src/Proxy/Refused.antt =====
-- src/proxy.rs: requests that the blacklist, the rate limit or the size limit turns away.
use barebones_reverse_proxy.Prelude.{
  [], ◌∷◌, text_eq, ℕ, ◌≡◌, refl, ap, Bool, true, false, none, some, ok, err, Text, lit,
}
use barebones_reverse_proxy.Net.{IpAddr, SocketAddr, parse_ip}
use barebones_reverse_proxy.Security.{SecurityManagerInner, unlocked, check_and_record_request}
use barebones_reverse_proxy.Security.Checks.{is_banned}
use barebones_reverse_proxy.Http.{HeaderMaps, Request}
use barebones_reverse_proxy.Lru.{LruCache}
use barebones_reverse_proxy.Cache.{CachedAsset}
use barebones_reverse_proxy.Tls.{CertificateFiles}
use barebones_reverse_proxy.Runtime.{ActiveConfig}
use barebones_reverse_proxy.Proxy.{Answer, no_response_444, host_of}
use barebones_reverse_proxy.Proxy.Screening.{Clock, Outside}
use barebones_reverse_proxy.Proxy.Handling.{
  Shared, Handled, admitted, after_screen, client_ip_for, handle_request, decided,
}
use barebones_reverse_proxy.Proxy.Screened.{unlisted}
use barebones_reverse_proxy.Proxy.Screened.{rate_answer, screen-banned, screen-over}
use barebones_reverse_proxy.Proxy.Answered.{error_response-status, get_all-insert}

module _ (http : HeaderMaps) (Incoming : Type 0) (lru : LruCache (CachedAsset http.HeaderMap))
    (files : CertificateFiles) (outside : Outside http Incoming) (clock : Clock)
    (peer_addr : SocketAddr) (is_proxy_protocol : Bool) (req : Request http Incoming)
    (s : SecurityManagerInner) (active : ActiveConfig lru files) (ip : IpAddr)
    (p : parse_ip (client_ip_for http Incoming lru files peer_addr is_proxy_protocol req)
      ≡ some ip) where
  abbrev client_ip : Text
  client_ip = client_ip_for http Incoming lru files peer_addr is_proxy_protocol req

  abbrev host : Text
  host = host_of http req.uri req.headers

  abbrev start : Shared http Incoming lru files
  start = record { security_manager = unlocked s; active_config = active }

  abbrev go_on : Shared http Incoming lru files → Handled http Incoming lru files
  go_on = admitted http Incoming lru files outside clock client_ip host req

  -- If the lock is sound and the client's address parses and is banned, then the answer is 444,
  -- nothing is sent or spawned, and the configuration with its cache is unchanged.
  pub handle_request-banned :
      is_banned ip clock.blacklist_at s ≡ true
      → handle_request http Incoming lru files outside clock peer_addr is_proxy_protocol req start
        ≡ some (
            decided http Incoming lru files (ok (no_response_444 http Incoming)) (record {
              security_manager = unlocked (unlisted ip clock s);
              active_config = active;
            }))
  unfolding handle_request
  handle_request-banned banned =
      ap (after_screen http Incoming lru files go_on start)
        (screen-banned http Incoming outside clock _ _ _ ip s p banned)

  -- If the lock is sound and the client's address parses, is not banned and is over the rate limit,
  -- then the answer has status 429 and 60 for retry-after, nothing is sent or spawned, and the
  -- configuration with its cache is unchanged.
  pub handle_request-over_limit :
      (n : ℕ)
      → is_banned ip clock.blacklist_at s ≡ false
      → (check_and_record_request ip clock.recorded_at (unlisted ip clock s)).0 ≡ err n
      → (handled : Handled http Incoming lru files) × (answer : Answer http Incoming)
        × (handle_request http Incoming lru files outside clock peer_addr is_proxy_protocol req
              start
            ≡ some handled)
        × (handled.result ≡ ok answer)
        × (answer.status ≡ 429)
        × (http.get_all (lit "retry-after") answer.headers ≡ http.from_static (lit "60") ∷ [])
        × (handled.sent ≡ none)
        × (handled.spawned ≡ none)
        × (handled.shared.active_config ≡ active)
  unfolding handle_request lit text_eq
  handle_request-over_limit n free over =
      let answer = rate_answer http Incoming outside clock client_ip host req.headers in
      let s2 = (check_and_record_request ip clock.recorded_at (unlisted ip clock s)).1 in
      (
        decided http Incoming lru files (ok answer)
            (record { security_manager = unlocked s2; active_config = active }),
        answer,
        ap (after_screen http Incoming lru files go_on start)
            (screen-over http Incoming outside clock client_ip host req.headers ip s n p free over),
        refl,
        error_response-status http Incoming outside.canonical_reason 429 _ _ _ _,
        get_all-insert http (lit "retry-after") (lit "retry-after") _ _ refl,
        refl,
        refl,
        refl,
      )
