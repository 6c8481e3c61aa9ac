-- ===== src/Security/History.antt =====
-- src/security.rs, specified by a manager that forgets nothing: it keeps every failure, request and
-- ban with its time, and answers by counting.
use barebones_reverse_proxy.Prelude.{
  ℕ, ◌≡◌, true, false, Option, none, some, List, [], ◌∷◌, ◌++◌, ltb, ◌==◌, if◌then◌else◌, ◌>>=?◌,
  is_some, ok, err, length,
}
use barebones_reverse_proxy.Net.{IpAddr, ip_eq, ip_addr_eq}
use barebones_reverse_proxy.Security.{
  SecurityManagerInner, instant_add, recent, Call, tls_failure, request, blacklisted, failure_count,
  ban, Reply, flag, rate, count, done,
}
use barebones_reverse_proxy.Security.Window.{times_of, live_ban}

pub record Limits : Type 0 where
  pub ban_duration : ℕ
  pub max_tls_failures : ℕ
  pub rate_limit_rpm : ℕ

-- All that ever happened: failures and requests from the first, bans from the last.
pub record History : Type 0 where
  pub failures : List (IpAddr × ℕ)
  pub requests : List (IpAddr × ℕ)
  pub bans : List (IpAddr × ℕ)

unfoldable pub times : IpAddr → List (IpAddr × ℕ) → List ℕ
times ip [] = []
times ip ((j, t) ∷ l) = let rest = times ip l in if ip_eq j ip then t ∷ rest else rest

unfoldable pub last_ban : IpAddr → List (IpAddr × ℕ) → Option ℕ
last_ban ip [] = none
last_ban ip ((j, u) ∷ l) = if ip_eq j ip then some u else last_ban ip l

-- How many events of the address lie in the window.
abbrev pub count_recent : ℕ → IpAddr → List (IpAddr × ℕ) → ℕ
count_recent now ip l = length (recent now (times ip l))

abbrev pub noted : IpAddr → ℕ → List (IpAddr × ℕ) → List (IpAddr × ℕ)
noted ip now l = l ++ ((ip, now) ∷ [])

unfoldable pub spec_call : Limits → Call → ℕ → History → Option (Reply × History)
spec_call limits (tls_failure ip) now h =
    let h' = record h { failures = noted ip now h.failures } in
    if ltb limits.max_tls_failures (count_recent now ip h'.failures)
    then (instant_add now limits.ban_duration >>=? λ banned_until.
        some (flag true, record h' { bans = (ip, banned_until) ∷ h.bans }))
    else some (flag false, h')
spec_call limits (request ip) now h =
    let h' = record h { requests = noted ip now h.requests } in
    let n = count_recent now ip h'.requests in
    if limits.rate_limit_rpm == 0
    then some (rate (ok 0), h)
    else some (rate (if ltb limits.rate_limit_rpm n then err n else ok n), h')
spec_call limits (blacklisted ip) now h =
    some (flag (is_some (live_ban now (last_ban ip h.bans))), h)
spec_call limits (failure_count ip) now h = some (count (count_recent now ip h.failures), h)
spec_call limits (ban ip) now h = instant_add now limits.ban_duration >>=? λ banned_until.
    some (done, record h { bans = (ip, banned_until) ∷ h.bans })

-- What the manager's state knows of the history at a time.
pub record Tracks (limits : Limits) (now : ℕ) (s : SecurityManagerInner) (h : History)
    : Type 0 where
  pub ban_duration : s.ban_duration ≡ limits.ban_duration
  pub max_tls_failures : s.max_tls_failures ≡ limits.max_tls_failures
  pub rate_limit_rpm : s.rate_limit_rpm ≡ limits.rate_limit_rpm
  pub failures :
      (ip : IpAddr) → recent now (times_of s.tls_failures ip) ≡ recent now (times ip h.failures)
  pub requests :
      (ip : IpAddr) → recent now (times_of s.request_tracker ip) ≡ recent now (times ip h.requests)
  pub bans : (ip : IpAddr) → live_ban now (s.blacklist ip) ≡ live_ban now (last_ban ip h.bans)

-- The same panic, or the same reply and states that go on agreeing.
abbrev pub Agree :
    Limits → ℕ → Option (Reply × SecurityManagerInner) → Option (Reply × History) → Type 0
Agree limits now none none = Unit
Agree limits now (some (r, s)) (some (q, h)) = (r ≡ q) × Tracks limits now s h
Agree limits now _ _ = ⊥
