-- ===== src/Proxy/Screening.antt =====
-- src/proxy.rs: the steps of `handle_request` that may answer before the upstream is asked: the
-- blacklist and the rate limit, and the authentication. The crates that the program calls are the
-- record `Outside`, the instants that it reads the record `Clock`. `none` is a panic: the lock of
-- the security manager is poisoned.
use barebones_reverse_proxy.Prelude.{
  ℕ, Bool, true, false, Option, none, some, List, ◌++◌, if◌then◌else◌, Result, ok, err, Text, lit,
}
use barebones_reverse_proxy.Net.{parse_ip}
use barebones_reverse_proxy.Security.{
  SecurityManager, with_lock, is_blacklisted, check_and_record_request,
}
use barebones_reverse_proxy.Http.{HeaderMaps, Uri, Response, Request}
use barebones_reverse_proxy.Router.{MatchedRoute}
use barebones_reverse_proxy.Auth.{SubRequest, AuthResult, AuthError, success, denied, authenticate}
use barebones_reverse_proxy.Proxy.{
  BoxBody, Answer, boxed, no_response_444, error_response, with_inserted,
}

-- The three readings of the clock that the state depends on, in their order.
pub record Clock : Type 0 where
  pub blacklist_at : ℕ
  pub recorded_at : ℕ
  pub cached_at : ℕ

abbrev pub misconfigured : Text
misconfigured =
    lit "Route requires authentication ('auth on;') but no 'forward_auth' URL is configured "
    ++ lit "in security block."

module _ (http : HeaderMaps) (Incoming : Type 0) where
  -- What is awaited, `collect`, `service` and `upstream`, answers here; the code sets no timeout.
  pub record Outside : Type 0 where
    pub parse_uri : Text → Option Uri
    pub canonical_reason : ℕ → Option Text
    pub collect : Incoming → Option (List ℕ)
    pub service : SubRequest http Incoming → Result (Response http Incoming) Text
    pub upstream : Request http (BoxBody Incoming) → Result (Response http Incoming) Text

  abbrev pub rate_limited : Answer http Incoming → Answer http Incoming
  rate_limited = with_inserted http Incoming (lit "retry-after") (lit "60")

  -- What `is_blacklisted` and `check_and_record_request` gave, turned into an early answer or none.
  abbrev pub unless_listed :
      (SecurityManager → Option (Option (Answer http Incoming) × SecurityManager))
      → Option Bool × SecurityManager
      → Option (Option (Answer http Incoming) × SecurityManager)
  unless_listed go_on (none, manager) = none
  unless_listed go_on (some true, manager) = some (some (no_response_444 http Incoming), manager)
  unless_listed go_on (some false, manager) = go_on manager

  abbrev pub unless_over :
      Answer http Incoming
      → Option (Result ℕ ℕ) × SecurityManager
      → Option (Option (Answer http Incoming) × SecurityManager)
  unless_over answer (none, manager) = none
  unless_over answer (some (ok count), manager) = some (none, manager)
  unless_over answer (some (err count), manager) = some (some answer, manager)

  -- The blacklist and the rate limit: an early answer, if there is one, and the manager.
  unfoldable pub screen :
      Outside
      → Clock
      → Text
      → Text
      → http.HeaderMap
      → SecurityManager
      → Option (Option (Answer http Incoming) × SecurityManager)
  screen outside clock client_ip host headers manager = elim (parse_ip client_ip) [
    | none ↦ some (none, manager)
    | some ip ↦
        unless_listed
          (λ manager1.
            unless_over
              (rate_limited (
                error_response http Incoming outside.canonical_reason 429
                  (lit "Request rate limit exceeded. Please wait before retrying.") client_ip host
                  headers))
              (with_lock (λ s. some (check_and_record_request ip clock.recorded_at s)) manager1))
          (with_lock (λ s. some (is_blacklisted ip clock.blacklist_at s)) manager)
  ]

  -- What the authentication gave, with the answer for its failure.
  abbrev pub login_result :
      Answer http Incoming
      → Result (AuthResult http Incoming) AuthError
      → Result http.HeaderMap (Answer http Incoming)
  login_result failure (ok (success headers)) = ok headers
  login_result failure (ok (denied response)) = err (boxed http Incoming response)
  login_result failure (err e) = err failure

  -- The authentication: the headers it gives, or the answer that is returned at once.
  unfoldable pub login :
      Outside
      → Option Text
      → Text
      → Text
      → Request http Incoming
      → MatchedRoute
      → Result http.HeaderMap (Answer http Incoming)
  login outside auth_provider client_ip host req matched =
      let failure : Text → Answer http Incoming = λ message.
        error_response http Incoming outside.canonical_reason 500 message client_ip host
          req.headers in
      if matched.auth_required
      then (elim auth_provider [
        | none ↦ err (failure misconfigured)
        | some auth_url ↦
            login_result (failure (lit "An internal authentication error occurred.")) (
              authenticate http Incoming outside.parse_uri outside.service auth_url client_ip
                req.method req.uri req.headers)
      ])
      else ok http.new
