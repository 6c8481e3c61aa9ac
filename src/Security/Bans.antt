-- ===== src/Security/Bans.antt =====
-- src/security.rs: how long a ban lasts, and what an overlong ban does.
use barebones_reverse_proxy.Prelude.{
  ℕ, ◌+◌, ◌≤◌, ◌<◌, ◌≡◌, refl, subst, ◌==◌, inl, inr, Bool, true, false, none, some, List, [], ◌∷◌,
  ltb, arith, Bool-cases, Option-cases, All, length, insert, remove, insert_self, remove_ne,
  length-append,
}
use barebones_reverse_proxy.Net.{IpAddr, ip_eq, ip_eq_iff, ip_addr_eq}
use barebones_reverse_proxy.Security.{
  SecurityManagerInner, SecurityManager, unlocked, poisoned, instant_max, instant_add, recent,
  cleanup, ban_if_exceeded, push_recent, record_tls_failure, check_and_record_request,
  is_blacklisted, get_tls_failure_count, add_to_blacklist, Call, tls_failure, request, blacklisted,
  failure_count, ban, Reply, run_call, with_lock,
}
use barebones_reverse_proxy.Security.Window.{times_of, recent-recent, cleanup_failures}
use barebones_reverse_proxy.Security.Refinement.{serve_all}

-- The manager after the calls.
unfoldable pub after : List (ℕ × Call) → SecurityManager → SecurityManager
after [] m = m
after ((now, c) ∷ calls) m = after calls (with_lock (run_call c now) m).1

-- The address is banned up to `until` at least, and every ban from `now` on ends no earlier.
pub record IsBanned (ip : IpAddr) (until now : ℕ) (s : SecurityManagerInner) : Type 0 where
  pub end : ℕ
  pub banned : s.blacklist ip ≡ some end
  pub late : until ≤ end
  pub long : until ≤ now + s.ban_duration

module _ (ip : IpAddr) (until now : ℕ) (s : SecurityManagerInner) (before : now < until)
    (b : IsBanned ip until now s) where
  cleanup-IsBanned : IsBanned ip until now (cleanup now s)
  unfolding cleanup
  cleanup-IsBanned = record {
    end = b.end;
    banned = rw b.banned (ground arith);
    late = b.late;
    long = b.long;
  }

  insert-IsBanned :
      (j : IpAddr) (u : ℕ)
      → instant_add now s.ban_duration ≡ some u
      → IsBanned ip until now (record s { blacklist = insert j u s.blacklist })
  unfolding instant_add insert
  insert-IsBanned j u e = elim (Bool-cases (ip_eq j ip)) [
    | inl same ↦ record { end = u; banned = rw same; late = ground arith; long = b.long }
    | inr other ↦ record { end = b.end; banned = rw other b.banned; late = b.late; long = b.long }
  ]

  remove-IsBanned :
      (j : IpAddr) (u : ℕ)
      → s.blacklist j ≡ some u
      → ltb now u ≡ false
      → IsBanned ip until now (record s { blacklist = remove j s.blacklist })
  remove-IsBanned j u e over = elim (Bool-cases (ip_eq j ip)) [
    | inl same ↦
        let e' : s.blacklist ip ≡ some u = rw (← (ip_eq_iff j ip).0 same) e in
        absurd (ground (arith, b.banned, b.late))
    | inr other ↦ record {
      end = b.end;
      banned = rw (remove_ne j ip s.blacklist other) b.banned;
      late = b.late;
      long = b.long;
    }
  ]

module _ (ip : IpAddr) (until now : ℕ) (s : SecurityManagerInner) (before : now < until)
    (b : IsBanned ip until now s) where
  same-IsBanned :
      {s' : SecurityManagerInner}
      → s'.blacklist ≡ s.blacklist
      → s'.ban_duration ≡ s.ban_duration
      → IsBanned ip until now s'
  same-IsBanned e d = record {
    end = b.end;
    banned = rw e b.banned;
    late = b.late;
    long = rw d b.long;
  }

module _ (ip : IpAddr) (until now : ℕ) (s : SecurityManagerInner) (before : now < until)
    (b : IsBanned ip until now s) where
  request-IsBanned : (j : IpAddr) → IsBanned ip until now (check_and_record_request j now s).1
  unfolding check_and_record_request
  request-IsBanned j =
      let clean = cleanup-IsBanned ip until now s before b in
      elim (Bool-cases ((cleanup now s).rate_limit_rpm == 0)) [
        | inl off ↦ rw off clean
        | inr on ↦ rw on (same-IsBanned ip until now (cleanup now s) before clean refl refl)
      ]

  ban_if_exceeded-IsBanned :
      (j : IpAddr) (n : ℕ) {flag : Bool} {s' : SecurityManagerInner}
      → ban_if_exceeded j now n s ≡ some (flag, s')
      → IsBanned ip until now s'
  ban_if_exceeded-IsBanned j n e = elim (Bool-cases (ltb s.max_tls_failures n)) [
    | inr few ↦ subst (IsBanned ip until now) (ground arith) b
    | inl many ↦ elim (Option-cases (instant_add now s.ban_duration)) [
      | inl h ↦ absurd (ground arith)
      | inr (u, h) ↦
          subst (IsBanned ip until now) (ground arith)
            (insert-IsBanned ip until now s before b j u h)
    ]
  ]

module _ (ip : IpAddr) (until now : ℕ) (s : SecurityManagerInner) (before : now < until)
    (b : IsBanned ip until now s) where
  call-IsBanned :
      (c : Call) (r : Reply) (s' : SecurityManagerInner)
      → run_call c now s ≡ some (r, s')
      → IsBanned ip until now s'
  unfolding run_call record_tls_failure is_blacklisted get_tls_failure_count add_to_blacklist
  call-IsBanned (tls_failure j) r s' e =
      let clean = cleanup-IsBanned ip until now s before b in
      let t = push_recent now ((cleanup now s).tls_failures j) in
      let s1 : SecurityManagerInner = record (cleanup now s) {
        tls_failures = insert j t (cleanup now s).tls_failures;
      } in
      let b1 : IsBanned ip until now s1 = record {
        end = clean.end;
        banned = clean.banned;
        late = clean.late;
        long = clean.long;
      } in
      elim (Option-cases (record_tls_failure j now s)) [
        | inl h ↦ absurd (ground arith)
        | inr ((flag, s2), h) ↦
            ground (arith, ban_if_exceeded-IsBanned ip until now s1 before b1 j (length t) h)
      ]
  call-IsBanned (request j) r s' e =
      let clean = cleanup-IsBanned ip until now s before b in
      subst (IsBanned ip until now) (ground arith) (request-IsBanned ip until now s before b j)
  call-IsBanned (blacklisted j) r s' e = elim (Option-cases (s.blacklist j)) [
    | inl h ↦ subst (IsBanned ip until now) (ground arith) b
    | inr (u, h) ↦ elim (Bool-cases (ltb now u)) [
      | inl running ↦ subst (IsBanned ip until now) (ground arith) b
      | inr over ↦
          subst (IsBanned ip until now) (ground arith)
            (remove-IsBanned ip until now s before b j u h over)
    ]
  ]
  call-IsBanned (failure_count j) r s' e =
      same-IsBanned ip until now s before b (ground arith) (ground arith)
  call-IsBanned (ban j) r s' e = elim (Option-cases (instant_add now s.ban_duration)) [
    | inl h ↦ absurd (ground arith)
    | inr (u, h) ↦ ground (arith, insert-IsBanned ip until now s before b j u h)
  ]

-- The clock does not go back, and stays below `until`.
abbrev pub OrderedBefore : ℕ → ℕ → List (ℕ × Call) → Type 0
OrderedBefore until t [] = Unit
OrderedBefore until t ((now, c) ∷ calls) = (t ≤ now) × (now < until) × OrderedBefore until now calls

module _ (ip : IpAddr) (until : ℕ) where
  after_poisoned : (calls : List (ℕ × Call)) → after calls poisoned ≡ poisoned
  unfolding after with_lock
  after_poisoned [] = refl
  after_poisoned ((now, c) ∷ calls) = after_poisoned calls

  after-IsBanned :
      (calls : List (ℕ × Call)) (t : ℕ) (s s' : SecurityManagerInner)
      → OrderedBefore until t calls
      → IsBanned ip until t s
      → after calls (unlocked s) ≡ unlocked s'
      → (u : ℕ) × (s'.blacklist ip ≡ some u) × (until ≤ u)
  unfolding after with_lock
  after-IsBanned [] t s s' o b e = (b.end, ground (arith, b.banned), b.late)
  after-IsBanned ((now, c) ∷ calls) t s s' o b e = elim (Option-cases (run_call c now s)) [
    | inl h ↦ absurd (ground (arith, after_poisoned calls))
    | inr ((r, s1), h) ↦
        let b0 : IsBanned ip until now s = record {
          end = b.end;
          banned = b.banned;
          late = b.late;
          long = omega (arith, b.long, o.0);
        } in
        after-IsBanned calls now s1 s' o.2 (call-IsBanned ip until now s o.1 b0 c r s1 h)
          (ground arith)
  ]

blacklist-record_tls_failure :
    (ip : IpAddr) (now : ℕ) (s s1 : SecurityManagerInner)
    → record_tls_failure ip now s ≡ some (true, s1)
    → (s1.blacklist ip ≡ some (now + s.ban_duration)) × (s1.ban_duration ≡ s.ban_duration)
unfolding record_tls_failure cleanup instant_add
blacklist-record_tls_failure ip now s s1 e =
    ground (arith, insert_self ip (now + s.ban_duration) (cleanup now s).blacklist)

-- If a TLS failure gets an address banned, then after any calls that are made before the ban's end,
-- at times that do not decrease and with no panic, `is_blacklisted` still answers `true` for the
-- address at every time before the ban's end.
pub ban_lasts :
    (ip : IpAddr) (now t : ℕ) (s s1 s2 : SecurityManagerInner) (calls : List (ℕ × Call))
    → record_tls_failure ip now s ≡ some (true, s1)
    → OrderedBefore (now + s.ban_duration) now calls
    → after calls (unlocked s1) ≡ unlocked s2
    → t < now + s.ban_duration
    → (is_blacklisted ip t s2).0 ≡ true
unfolding is_blacklisted
ban_lasts ip now t s s1 s2 calls e o run lt =
    let (banned, same) = blacklist-record_tls_failure ip now s s1 e in
    let start : IsBanned ip (now + s.ban_duration) now s1 = record {
      end = now + s.ban_duration;
      banned = banned;
      late = omega arith;
      long = omega arith;
    } in
    let (u, banned', late) = after-IsBanned ip (now + s.ban_duration) calls now s1 s2 o start run in
    rw (banned', is_blacklisted) (ground (arith, late))

serve_all_poisoned : (calls : List (ℕ × Call)) → All (λ r. r ≡ none) (serve_all calls poisoned)
unfolding serve_all with_lock
serve_all_poisoned [] = tt
serve_all_poisoned ((now, c) ∷ calls) = (refl, serve_all_poisoned calls)

length-push_recent :
    (now : ℕ) (s : SecurityManagerInner) (ip : IpAddr)
    → length (push_recent now ((cleanup now s).tls_failures ip))
      ≡ length (recent now (times_of s.tls_failures ip)) + 1
length-push_recent now s ip =
    rw (cleanup_failures now s ip, recent-recent now now (times_of s.tls_failures ip) (omega arith))
      (length-append (recent now (times_of s.tls_failures ip)) (now ∷ []))

overlong_ban_panics :
    (ip : IpAddr) (now : ℕ) (s : SecurityManagerInner)
    → instant_max < now + s.ban_duration
    → s.max_tls_failures ≤ length (recent now (times_of s.tls_failures ip))
    → run_call (tls_failure ip) now s ≡ none
unfolding run_call record_tls_failure cleanup instant_add
overlong_ban_panics ip now s over many = ground (arith, length-push_recent now s ip)

serve_all-panic :
    (now : ℕ) (c : Call) (s : SecurityManagerInner) (calls : List (ℕ × Call))
    → run_call c now s ≡ none
    → serve_all ((now, c) ∷ calls) (unlocked s) ≡ none ∷ serve_all calls poisoned
unfolding serve_all with_lock
serve_all-panic now c s calls e = rw (e, serve_all, with_lock)

-- If a ban from now on would end past the last instant of the clock and an address has at least the
-- limit of failures in the window, then its next TLS failure panics under the lock, and so does
-- every later call of any method.
pub overlong_ban_poisons :
    (ip : IpAddr) (now : ℕ) (s : SecurityManagerInner) (calls : List (ℕ × Call))
    → instant_max < now + s.ban_duration
    → s.max_tls_failures ≤ length (recent now (times_of s.tls_failures ip))
    → All (λ r. r ≡ none) (serve_all ((now, tls_failure ip) ∷ calls) (unlocked s))
overlong_ban_poisons ip now s calls over many =
    rw (serve_all-panic now (tls_failure ip) s calls (overlong_ban_panics ip now s over many))
      (refl, serve_all_poisoned calls)
