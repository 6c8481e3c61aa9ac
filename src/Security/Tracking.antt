-- ===== src/Security/Tracking.antt =====
-- src/security.rs: how a change of the manager's maps keeps track of the history.
use barebones_reverse_proxy.Prelude.{
  ℕ, ◌≤◌, ◌≡◌, refl, sym, ap, ◌∙◌, true, Option, List, [], ◌∷◌, ◌++◌, ◌==◌, arith, if◌then◌else◌,
  Bool-cases, length, HashMap, insert, insert_self, insert_ne, append-nil, inl, inr,
}
use barebones_reverse_proxy.Net.{IpAddr, ip_eq, ip_eq_iff, ip_addr_eq}
use barebones_reverse_proxy.Security.{SecurityManagerInner, recent, push_recent, cleanup}
use barebones_reverse_proxy.Security.Window.{
  recent-recent, recent-append, recent_now, times_of, cleanup_failures, cleanup_requests, live_ban,
  live-live,
}
use barebones_reverse_proxy.Security.History.{Limits, History, times, last_ban, noted, Tracks}

times-noted :
    (ip j : IpAddr) (now : ℕ) (l : List (IpAddr × ℕ))
    → times j (noted ip now l) ≡ times j l ++ (if ip_eq ip j then now ∷ [] else [])
unfolding times
times-noted ip j now [] = ground arith
times-noted ip j now ((i, t) ∷ l) = ground (arith, times-noted ip j now l)

recent_later :
    {t now : ℕ} (xs ys : List ℕ)
    → t ≤ now
    → recent t xs ≡ recent t ys
    → recent now xs ≡ recent now ys
recent_later {t} {now} xs ys h e =
    sym (recent-recent t now xs h) ∙ ap (recent now) e ∙ recent-recent t now ys h

live_later :
    {t now : ℕ} (o p : Option ℕ)
    → t ≤ now
    → live_ban t o ≡ live_ban t p
    → live_ban now o ≡ live_ban now p
live_later {t} {now} o p h e = sym (live-live t now o h) ∙ ap (live_ban now) e ∙ live-live t now p h

module _ {limits : Limits} {s : SecurityManagerInner} {h : History} where
  pub Tracks-later : {t now : ℕ} → t ≤ now → Tracks limits t s h → Tracks limits now s h
  Tracks-later le k = record {
    ban_duration = k.ban_duration;
    max_tls_failures = k.max_tls_failures;
    rate_limit_rpm = k.rate_limit_rpm;
    failures =
        λ ip. recent_later (times_of s.tls_failures ip) (times ip h.failures) le (k.failures ip);
    requests =
        λ ip. recent_later (times_of s.request_tracker ip) (times ip h.requests) le (k.requests ip);
    bans = λ ip. live_later (s.blacklist ip) (last_ban ip h.bans) le (k.bans ip);
  }

module _ (now : ℕ) (m : HashMap IpAddr (List ℕ)) (l : List (IpAddr × ℕ))
    (same : (ip : IpAddr) → recent now (times_of m ip) ≡ recent now (times ip l)) where
  pub push_recent-times :
      (ip : IpAddr) → push_recent now (m ip) ≡ recent now (times ip (noted ip now l))
  push_recent-times ip =
      let self : ip_eq ip ip ≡ true = (ip_eq_iff ip ip).1 refl in
      rw (
        times-noted ip ip now l,
        self,
        recent-append now (times ip l) (now ∷ []),
        recent_now now,
        same ip,
      )

  insert-times :
      (ip j : IpAddr)
      → recent now (times_of (insert ip (push_recent now (m ip)) m) j)
        ≡ recent now (times j (noted ip now l))
  insert-times ip j = elim (Bool-cases (ip_eq ip j)) [
    | inl e ↦ rw (
      ← (ip_eq_iff ip j).0 e,
      insert_self,
      push_recent-times ip,
      recent-recent now now (times ip (noted ip now l)) (omega arith),
    )
    | inr e ↦
        rw (insert_ne ip j (push_recent now (m ip)) m e, times-noted ip j now l, e, append-nil)
          (same j)
  ]

insert-last_ban :
    (now : ℕ) (m : HashMap IpAddr ℕ) (l : List (IpAddr × ℕ)) (ip j : IpAddr) (u : ℕ)
    → live_ban now (m j) ≡ live_ban now (last_ban j l)
    → live_ban now (insert ip u m j) ≡ live_ban now (last_ban j ((ip, u) ∷ l))
unfolding insert last_ban
insert-last_ban now m l ip j u h = ground arith

module _ {limits : Limits} {now : ℕ} {s : SecurityManagerInner} {h : History}
    (k : Tracks limits now s h) where
  pub cleanup-Tracks : Tracks limits now (cleanup now s) h
  unfolding cleanup
  cleanup-Tracks = record {
    ban_duration = k.ban_duration;
    max_tls_failures = k.max_tls_failures;
    rate_limit_rpm = k.rate_limit_rpm;
    failures = λ ip.
        ap (recent now) (cleanup_failures now s ip)
        ∙ recent-recent now now (times_of s.tls_failures ip) (omega arith)
        ∙ k.failures ip;
    requests = λ ip.
        ap (recent now) (cleanup_requests now s ip)
        ∙ recent-recent now now (times_of s.request_tracker ip) (omega arith)
        ∙ k.requests ip;
    bans = λ ip. live-live now now (s.blacklist ip) (omega arith) ∙ k.bans ip;
  }

  pub failure-Tracks :
      (ip : IpAddr)
      → Tracks limits now
          (record s {
            tls_failures = insert ip (push_recent now (s.tls_failures ip)) s.tls_failures;
          })
          (record h { failures = noted ip now h.failures })
  failure-Tracks ip = record {
    ban_duration = k.ban_duration;
    max_tls_failures = k.max_tls_failures;
    rate_limit_rpm = k.rate_limit_rpm;
    failures = insert-times now s.tls_failures h.failures k.failures ip;
    requests = k.requests;
    bans = k.bans;
  }

  pub request-Tracks :
      (ip : IpAddr)
      → Tracks limits now
          (record s {
            request_tracker = insert ip (push_recent now (s.request_tracker ip)) s.request_tracker;
          })
          (record h { requests = noted ip now h.requests })
  request-Tracks ip = record {
    ban_duration = k.ban_duration;
    max_tls_failures = k.max_tls_failures;
    rate_limit_rpm = k.rate_limit_rpm;
    failures = k.failures;
    requests = insert-times now s.request_tracker h.requests k.requests ip;
    bans = k.bans;
  }

  pub ban-Tracks :
      (ip : IpAddr) (u : ℕ)
      → Tracks limits now
          (record s { blacklist = insert ip u s.blacklist })
          (record h { bans = (ip, u) ∷ h.bans })
  ban-Tracks ip u = record {
    ban_duration = k.ban_duration;
    max_tls_failures = k.max_tls_failures;
    rate_limit_rpm = k.rate_limit_rpm;
    failures = k.failures;
    requests = k.requests;
    bans = λ j. insert-last_ban now s.blacklist h.bans ip j u (k.bans j);
  }

pub length-zero : (ts : List ℕ) → (length ts == 0) ≡ true → ts ≡ []
length-zero [] h = refl
length-zero (t ∷ ts) h = ground arith
