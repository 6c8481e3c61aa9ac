-- ===== src/Proxy/Screened.antt =====
-- src/proxy.rs: the blacklist and the rate limit in front of a request.
use barebones_reverse_proxy.Prelude.{
  ℕ, ◌≡◌, inl, inr, refl, sym, ◌∙◌, true, false, Option, none, some, if◌then◌else◌, if-cases,
  Result, ok, err, Text, lit, arith, Bool-cases, Option-cases,
}
use barebones_reverse_proxy.Net.{IpAddr, parse_ip}
use barebones_reverse_proxy.Security.{
  SecurityManagerInner, SecurityManager, unlocked, with_lock, is_blacklisted,
  check_and_record_request,
}
use barebones_reverse_proxy.Security.Checks.{is_banned, is_blacklisted-is_banned}
use barebones_reverse_proxy.Http.{HeaderMaps}
use barebones_reverse_proxy.Proxy.{Answer, no_response_444, error_response}
use barebones_reverse_proxy.Proxy.Screening.{Clock, Outside, rate_limited, unless_over, screen}

-- The state behind the check of the blacklist.
abbrev pub unlisted : IpAddr → Clock → SecurityManagerInner → SecurityManagerInner
unlisted ip clock s = (is_blacklisted ip clock.blacklist_at s).1

module _ (http : HeaderMaps) (Incoming : Type 0) (outside : Outside http Incoming) (clock : Clock)
    (client_ip host : Text) (headers : http.HeaderMap) where
  abbrev pub rate_answer : Answer http Incoming
  rate_answer = rate_limited http Incoming (
      error_response http Incoming outside.canonical_reason 429
        (lit "Request rate limit exceeded. Please wait before retrying.") client_ip host headers)

  screen-parsed :
      (ip : IpAddr) (s : SecurityManagerInner)
      → parse_ip client_ip ≡ some ip
      → screen http Incoming outside clock client_ip host headers (unlocked s) ≡ (
          if is_banned ip clock.blacklist_at s
          then some (some (no_response_444 http Incoming), unlocked (unlisted ip clock s))
          else unless_over http Incoming rate_answer (
            some (check_and_record_request ip clock.recorded_at (unlisted ip clock s)).0,
            unlocked (check_and_record_request ip clock.recorded_at (unlisted ip clock s)).1,
          ))
  unfolding screen with_lock
  screen-parsed ip s p =
      let e = is_blacklisted-is_banned ip clock.blacklist_at s in
      elim (Bool-cases (is_banned ip clock.blacklist_at s)) [
        | inl b ↦ rw (screen, p, with_lock, e, b)
        | inr b ↦ rw (screen, p, with_lock, e, b)
      ]

  pub screen-banned :
      (ip : IpAddr) (s : SecurityManagerInner)
      → parse_ip client_ip ≡ some ip
      → is_banned ip clock.blacklist_at s ≡ true
      → screen http Incoming outside clock client_ip host headers (unlocked s)
        ≡ some (some (no_response_444 http Incoming), unlocked (unlisted ip clock s))
  screen-banned ip s p b = screen-parsed ip s p ∙ rw b

  pub screen-over :
      (ip : IpAddr) (s : SecurityManagerInner) (n : ℕ)
      → parse_ip client_ip ≡ some ip
      → is_banned ip clock.blacklist_at s ≡ false
      → (check_and_record_request ip clock.recorded_at (unlisted ip clock s)).0 ≡ err n
      → screen http Incoming outside clock client_ip host headers (unlocked s)
        ≡ some (
          some rate_answer,
          unlocked (check_and_record_request ip clock.recorded_at (unlisted ip clock s)).1,
        )
  screen-over ip s n p b e = screen-parsed ip s p ∙ rw (b, e)

  unless_over-none :
      (answer : Answer http Incoming) (verdict : Result ℕ ℕ) (m m' : SecurityManager)
      → unless_over http Incoming answer (some verdict, m) ≡ some (none, m')
      → (n : ℕ) × (verdict ≡ ok n) × (m ≡ m')
  unless_over-none answer (ok n) m m' h = (n, refl, ground arith)
  unless_over-none answer (err n) m m' h = absurd (ground arith)

  unless_over-some :
      (answer : Answer http Incoming) (verdict : Result ℕ ℕ) (m : SecurityManager)
      → (early : Option (Answer http Incoming)) × (unless_over http Incoming answer
            (some verdict, m)
          ≡ some (early, m))
  unless_over-some answer (ok n) m = (none, refl)
  unless_over-some answer (err n) m = (some answer, refl)

  -- A request that passes is not banned and within the limit.
  pub screen-none :
      (ip : IpAddr) (s : SecurityManagerInner) (m : SecurityManager)
      → parse_ip client_ip ≡ some ip
      → screen http Incoming outside clock client_ip host headers (unlocked s) ≡ some (none, m)
      → (is_banned ip clock.blacklist_at s ≡ false)
        × ((n : ℕ) × ((check_and_record_request ip clock.recorded_at (unlisted ip clock s)).0
              ≡ ok n)
            × (unlocked (check_and_record_request ip clock.recorded_at (unlisted ip clock s)).1
                ≡ m))
  screen-none ip s m p h =
      elim (if-cases (is_banned ip clock.blacklist_at s) _ _ (sym (screen-parsed ip s p) ∙ h)) [
        | inl (b, e) ↦ absurd (ground arith)
        | inr (b, e) ↦ (b, unless_over-none rate_answer _ _ m e)
      ]

  -- With a sound lock the screening returns, and the lock stays sound.
  pub screen-total :
      (s : SecurityManagerInner)
      → (early : Option (Answer http Incoming)) × (s' : SecurityManagerInner) × (screen http
            Incoming outside clock client_ip host headers
            (unlocked s)
          ≡ some (early, unlocked s'))
  unfolding screen
  screen-total s = elim (Option-cases (parse_ip client_ip)) [
    | inl unparsed ↦ (none, s, rw (screen, unparsed))
    | inr (ip, p) ↦ elim (Bool-cases (is_banned ip clock.blacklist_at s)) [
      | inl b ↦
          (some (no_response_444 http Incoming), unlisted ip clock s, screen-parsed ip s p ∙ rw b)
      | inr b ↦
          let s1 = unlisted ip clock s in
          let (early, e) =
            unless_over-some rate_answer (check_and_record_request ip clock.recorded_at s1).0
              (unlocked (check_and_record_request ip clock.recorded_at s1).1) in
          (
            early,
            (check_and_record_request ip clock.recorded_at s1).1,
            screen-parsed ip s p ∙ rw b e,
          )
    ]
  ]
