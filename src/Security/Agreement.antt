-- ===== src/Security/Agreement.antt =====
-- Each method of src/security.rs, one call: it answers as the history does, and its state goes on
-- tracking the history.
use barebones_reverse_proxy.Prelude.{
  ℕ, ◌≡◌, refl, sym, ◌∙◌, true, false, none, some, List, ◌∷◌, ltb, ◌==◌, arith, if◌then◌else◌,
  ◌>>=?◌, Bool-cases, length, HashMap, insert, remove, insert_self, insert_ne, remove_self,
  remove_ne, inl, inr, Option-cases,
}
use barebones_reverse_proxy.Net.{IpAddr, ip_eq, ip_eq_iff, ip_addr_eq}
use barebones_reverse_proxy.Security.{
  SecurityManagerInner, instant_add, recent, push_recent, cleanup, ban_if_exceeded,
  record_tls_failure, check_and_record_request, is_blacklisted, get_tls_failure_count,
  add_to_blacklist, Call, tls_failure, request, blacklisted, failure_count, ban, flag, run_call,
}
use barebones_reverse_proxy.Security.Window.{recent-recent, times_of, live_ban}
use barebones_reverse_proxy.Security.History.{Limits, History, spec_call, Tracks, Agree}
use barebones_reverse_proxy.Security.Tracking.{
  push_recent-times, cleanup-Tracks, failure-Tracks, request-Tracks, ban-Tracks, length-zero,
}

module _ {limits : Limits} {now : ℕ} {s : SecurityManagerInner} {h : History}
    (k : Tracks limits now s h) where
  ban_if_exceeded-Agree :
      (ip : IpAddr) (n : ℕ)
      → Agree limits now (ban_if_exceeded ip now n s >>=? λ (banned, s'). some (flag banned, s')) (
          if ltb limits.max_tls_failures n
          then (instant_add now limits.ban_duration >>=? λ banned_until.
              some (flag true, record h { bans = (ip, banned_until) ∷ h.bans }))
          else some (flag false, h))
  ban_if_exceeded-Agree ip n =
      simp (← k.max_tls_failures, ← k.ban_duration)
        (elim (Bool-cases (ltb s.max_tls_failures n)) [
          | inr few ↦ rw few (refl, k)
          | inl many ↦ elim (Option-cases (instant_add now s.ban_duration)) [
            | inl e ↦ rw (many, e) tt
            | inr (u, e) ↦ rw (many, e) (refl, ban-Tracks k ip u)
          ]
        ])

  add_to_blacklist-Agree :
      (ip : IpAddr) → Agree limits now (run_call (ban ip) now s) (spec_call limits (ban ip) now h)
  unfolding run_call spec_call add_to_blacklist
  add_to_blacklist-Agree ip =
      simp (← k.ban_duration) (elim (Option-cases (instant_add now s.ban_duration)) [
        | inl e ↦ rw e tt
        | inr (u, e) ↦ rw e (refl, ban-Tracks k ip u)
      ])

  drop_ban-Tracks :
      (ip : IpAddr)
      → live_ban now (s.blacklist ip) ≡ none
      → Tracks limits now (record s { blacklist = remove ip s.blacklist }) h
  drop_ban-Tracks ip dead = record {
    ban_duration = k.ban_duration;
    max_tls_failures = k.max_tls_failures;
    rate_limit_rpm = k.rate_limit_rpm;
    failures = k.failures;
    requests = k.requests;
    bans = λ j. elim (Bool-cases (ip_eq ip j)) [
      | inl e ↦ rw (← (ip_eq_iff ip j).0 e, remove_self) (sym dead ∙ k.bans ip)
      | inr e ↦ rw (remove_ne ip j s.blacklist e) (k.bans j)
    ];
  }

  is_blacklisted-Agree :
      (ip : IpAddr)
      → Agree limits now (run_call (blacklisted ip) now s) (spec_call limits (blacklisted ip) now h)
  unfolding run_call spec_call is_blacklisted
  is_blacklisted-Agree ip = rw (← k.bans ip) (elim (Option-cases (s.blacklist ip)) [
    | inl e ↦ rw (e, is_blacklisted) (refl, k)
    | inr (u, e) ↦ elim (Bool-cases (ltb now u)) [
      | inl running ↦ rw (e, is_blacklisted, running) (refl, k)
      | inr over ↦ rw (e, is_blacklisted, over) (refl, drop_ban-Tracks ip (rw (e, over)))
    ]
  ])

  trim-Tracks :
      (ip : IpAddr) (f : HashMap IpAddr (List ℕ))
      → times_of f ip ≡ recent now (times_of s.tls_failures ip)
      → ((j : IpAddr) → ip_eq ip j ≡ false → f j ≡ s.tls_failures j)
      → Tracks limits now (record s { tls_failures = f }) h
  trim-Tracks ip f here there = record {
    ban_duration = k.ban_duration;
    max_tls_failures = k.max_tls_failures;
    rate_limit_rpm = k.rate_limit_rpm;
    failures = λ j. elim (Bool-cases (ip_eq ip j)) [
      | inl e ↦
          rw
            (
              ← (ip_eq_iff ip j).0 e,
              here,
              recent-recent now now (times_of s.tls_failures ip) (omega arith),
            )
            (k.failures ip)
      | inr e ↦ rw (there j e) (k.failures j)
    ];
    requests = k.requests;
    bans = k.bans;
  }

  failure_count-Agree :
      (ip : IpAddr)
      → Agree limits now
          (run_call (failure_count ip) now s)
          (spec_call limits (failure_count ip) now h)
  unfolding run_call spec_call get_tls_failure_count recent
  failure_count-Agree ip = rw (← k.failures ip) (elim (Option-cases (s.tls_failures ip)) [
    | inl e ↦ rw (e, get_tls_failure_count) (refl, k)
    | inr (ts, e) ↦ elim (Bool-cases (length (recent now ts) == 0)) [
      | inl none_left ↦
          rw (e, get_tls_failure_count, none_left)
            (
              refl,
              trim-Tracks ip (remove ip s.tls_failures)
                  (rw (remove_self, e) (sym (length-zero _ none_left)))
                  (λ j ne. remove_ne ip j s.tls_failures ne),
            )
      | inr some_left ↦
          rw (e, get_tls_failure_count, some_left)
            (
              refl,
              trim-Tracks ip (insert ip (recent now ts) s.tls_failures) (rw (insert_self, e))
                  (λ j ne. insert_ne ip j (recent now ts) s.tls_failures ne),
            )
    ]
  ])

module _ {limits : Limits} {now : ℕ} {s : SecurityManagerInner} {h : History}
    (k : Tracks limits now s h) where
  tls_failure-Agree :
      (ip : IpAddr)
      → Agree limits now (run_call (tls_failure ip) now s) (spec_call limits (tls_failure ip) now h)
  unfolding run_call spec_call record_tls_failure
  tls_failure-Agree ip =
      let clean = cleanup-Tracks k in
      rw (← push_recent-times now (cleanup now s).tls_failures h.failures clean.failures ip) (
        ban_if_exceeded-Agree (failure-Tracks clean ip) ip
          (length (push_recent now ((cleanup now s).tls_failures ip))))

  request-Agree :
      (ip : IpAddr)
      → Agree limits now (run_call (request ip) now s) (spec_call limits (request ip) now h)
  unfolding run_call spec_call check_and_record_request
  request-Agree ip =
      let clean = cleanup-Tracks k in
      simp
        (
          ← clean.rate_limit_rpm,
          ← push_recent-times now (cleanup now s).request_tracker h.requests clean.requests ip,
        )
        (elim (Bool-cases ((cleanup now s).rate_limit_rpm == 0)) [
          | inl off ↦ rw off (refl, clean)
          | inr on ↦ rw on (refl, request-Tracks clean ip)
        ])

  pub run_call-Agree : (c : Call) → Agree limits now (run_call c now s) (spec_call limits c now h)
  run_call-Agree (tls_failure ip) = tls_failure-Agree ip
  run_call-Agree (request ip) = request-Agree ip
  run_call-Agree (blacklisted ip) = is_blacklisted-Agree k ip
  run_call-Agree (failure_count ip) = failure_count-Agree k ip
  run_call-Agree (ban ip) = add_to_blacklist-Agree k ip
