-- ===== src/Security/Refinement.antt =====
-- src/security.rs, all threads together: the calls in the order of the lock, against the history.
use barebones_reverse_proxy.Prelude.{ℕ, ◌≤◌, ◌≡◌, refl, ap, Option, none, some, List, [], ◌∷◌}
use barebones_reverse_proxy.Net.{ip_addr_eq}
use barebones_reverse_proxy.Security.{
  SecurityManagerInner, Call, Reply, run_call, SecurityManager, unlocked, poisoned, new, with_lock,
}
use barebones_reverse_proxy.Security.History.{
  Limits, History, times, last_ban, spec_call, Tracks, Agree,
}
use barebones_reverse_proxy.Security.Agreement.{run_call-Agree}
use barebones_reverse_proxy.Security.Tracking.{Tracks-later}

-- The calls of all threads in the order in which they get the lock, each with its time.
unfoldable pub serve_all : List (ℕ × Call) → SecurityManager → List (Option Reply)
serve_all [] m = []
serve_all ((now, c) ∷ calls) m =
    let (reply, m') = with_lock (run_call c now) m in reply ∷ serve_all calls m'

-- The same calls against the history, which a panic takes away for good.
unfoldable pub spec_all : Limits → List (ℕ × Call) → Option History → List (Option Reply)
spec_all limits [] o = []
spec_all limits ((now, c) ∷ calls) none = none ∷ spec_all limits calls none
spec_all limits ((now, c) ∷ calls) (some h) = elim (spec_call limits c now h) [
  | none ↦ none ∷ spec_all limits calls none
  | some (reply, h') ↦ some reply ∷ spec_all limits calls (some h')
]

-- The clock does not go back.
abbrev pub Ordered : ℕ → List (ℕ × Call) → Type 0
Ordered t [] = Unit
Ordered t ((now, c) ∷ calls) = (t ≤ now) × Ordered now calls

serve_all_poisoned :
    (limits : Limits) (calls : List (ℕ × Call))
    → serve_all calls poisoned ≡ spec_all limits calls none
unfolding serve_all spec_all with_lock
serve_all_poisoned limits [] = refl
serve_all_poisoned limits ((now, c) ∷ calls) = ap (◌∷◌ none) (serve_all_poisoned limits calls)

-- One call, given that the later ones agree.
serve_all-step :
    (limits : Limits) (now : ℕ) (c : Call) (calls : List (ℕ × Call)) (s : SecurityManagerInner)
    (h : History)
    → Agree limits now (run_call c now s) (spec_call limits c now h)
    → ((s' : SecurityManagerInner) (h' : History)
        → Tracks limits now s' h'
        → serve_all calls (unlocked s') ≡ spec_all limits calls (some h'))
    → serve_all ((now, c) ∷ calls) (unlocked s) ≡ spec_all limits ((now, c) ∷ calls) (some h)
unfolding serve_all spec_all with_lock
serve_all-step limits now c calls s h agree rest =
    go (run_call c now s) (spec_call limits c now h) agree
  where
    go :
        (x : Option (Reply × SecurityManagerInner)) (y : Option (Reply × History))
        → Agree limits now x y
        → (let (r, m) = with_lock (λ _. x) (unlocked s) in r ∷ serve_all calls m) ≡ elim y [
          | none ↦ none ∷ spec_all limits calls none
          | some (reply, h') ↦ some reply ∷ spec_all limits calls (some h')
        ]
    go none none a = ap (◌∷◌ none) (serve_all_poisoned limits calls)
    go (some (r, s')) (some (q, h')) (e, k) = rw e (ap (◌∷◌ (some q)) (rest s' h' k))
    go none (some _) a = absurd a
    go (some _) none a = absurd a

serve_all-Tracks :
    (limits : Limits) (calls : List (ℕ × Call)) {t : ℕ} {s : SecurityManagerInner} {h : History}
    → Tracks limits t s h
    → Ordered t calls
    → serve_all calls (unlocked s) ≡ spec_all limits calls (some h)
unfolding serve_all spec_all
serve_all-Tracks limits [] k o = refl
serve_all-Tracks limits ((now, c) ∷ calls) {s = s} {h = h} k o =
    serve_all-step limits now c calls s h (run_call-Agree (Tracks-later o.0 k) c)
      (λ s' h' k'. serve_all-Tracks limits calls k' o.1)

abbrev pub no_history : History
no_history = record { failures = []; requests = []; bans = [] }

-- For every sequence of calls whose times do not decrease from 0 on, a new manager with given
-- limits answers each call, panics included, exactly as the specification that keeps the whole
-- history of failures, requests and bans and counts the last 60 seconds at each call.
pub serve_all-spec_all :
    (limits : Limits) (calls : List (ℕ × Call))
    → Ordered 0 calls
    → serve_all calls (new limits.ban_duration limits.max_tls_failures limits.rate_limit_rpm)
      ≡ spec_all limits calls (some no_history)
unfolding new times last_ban
serve_all-spec_all limits calls o =
    serve_all-Tracks limits calls
      (record {
        ban_duration = refl;
        max_tls_failures = refl;
        rate_limit_rpm = refl;
        failures = λ ip. refl;
        requests = λ ip. refl;
        bans = λ ip. refl;
      })
      o
