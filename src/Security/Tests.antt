-- ===== src/Security/Tests.antt =====
-- src/security.rs: runs, and the theorems at concrete inputs.
use barebones_reverse_proxy.Prelude.{
  ℕ, ◌+◌, ◌*◌, ◌≡◌, refl, true, false, none, some, List, [], ◌∷◌, All, ok, err, empty, insert,
  arith,
}
use barebones_reverse_proxy.Net.{IpAddr, v4}
use barebones_reverse_proxy.Security.{
  second, instant_max, instant_add, cleanup, recent, check_and_record_request, SecurityManagerInner,
  SecurityManager, unlocked, new, record_tls_failure, is_blacklisted, Call, tls_failure, request,
  blacklisted, flag, rate, with_lock, run_call,
}
use barebones_reverse_proxy.Security.History.{Limits}
use barebones_reverse_proxy.Security.Refinement.{
  serve_all, spec_all, no_history, serve_all-spec_all,
}
use barebones_reverse_proxy.Security.Bans.{after, ban_lasts, overlong_ban_poisons}

abbrev client : IpAddr
client = v4 3_232_235_777

abbrev limits : Limits
limits = record { ban_duration = 60 * second; max_tls_failures = 1; rate_limit_rpm = 1 }

abbrev calls : List (ℕ × Call)
calls =
    (0, tls_failure client)
    ∷ (second, request client)
    ∷ (2 * second, request client)
    ∷ (3 * second, tls_failure client)
    ∷ (4 * second, blacklisted client)
    ∷ (63 * second, blacklisted client)
    ∷ []

calls_run :
    serve_all calls (new (60 * second) 1 1)
    ≡ some (flag false)
      ∷ some (rate (ok 1))
      ∷ some (rate (err 2))
      ∷ some (flag true)
      ∷ some (flag true)
      ∷ some (flag false)
      ∷ []
unfolding serve_all new with_lock run_call record_tls_failure cleanup recent
    check_and_record_request insert instant_add is_blacklisted
calls_run = refl

serve_all-spec_all_example :
    serve_all calls (new (60 * second) 1 1) ≡ spec_all limits calls (some no_history)
serve_all-spec_all_example =
    serve_all-spec_all limits calls
      (omega arith, (omega arith, (omega arith, (omega arith, (omega arith, (omega arith, tt))))))

abbrev manager : ℕ → SecurityManagerInner
manager ban_duration = record {
  tls_failures = empty;
  request_tracker = empty;
  blacklist = empty;
  ban_duration = ban_duration;
  max_tls_failures = 0;
  rate_limit_rpm = 5;
}

abbrev behind_failure : SecurityManagerInner
unfolding record_tls_failure
behind_failure = elim (record_tls_failure client second (manager (60 * second))) [
  | none ↦ manager (60 * second)
  | some (_, s) ↦ s
]

abbrev behind_calls : SecurityManager → SecurityManagerInner
behind_calls (unlocked s) = s
behind_calls _ = manager 0

abbrev later_calls : List (ℕ × Call)
later_calls = (2 * second, request client) ∷ (3 * second, blacklisted client) ∷ []

abbrev last_state : SecurityManagerInner
unfolding after with_lock run_call record_tls_failure
last_state = behind_calls (after later_calls (unlocked behind_failure))

ban_lasts_example : (is_blacklisted client (60 * second) last_state).0 ≡ true
unfolding record_tls_failure after with_lock run_call cleanup recent instant_add
ban_lasts_example =
    ban_lasts client second (60 * second) (manager (60 * second)) behind_failure last_state
      later_calls refl (omega arith, omega arith, (omega arith, omega arith, tt)) refl (omega arith)

overlong_ban_poisons_example :
    All
      (λ r. r ≡ none)
      (serve_all
        ((second, tls_failure client) ∷ (2 * second, request client) ∷ [])
        (unlocked (manager (instant_max + 1))))
overlong_ban_poisons_example =
    overlong_ban_poisons client second (manager (instant_max + 1))
      ((2 * second, request client) ∷ []) (omega arith) (omega arith)
