-- ===== src/Security.antt =====
-- src/security.rs: the rolling windows of TLS failures and requests, and the blacklist.
-- Times are nanoseconds of the monotone clock: each operation takes the value that
-- `Instant::now()` has in it. `none` is a panic.
pub mod Window
pub mod History
pub mod Tracking
pub mod Agreement
pub mod Refinement
pub mod Bans
pub mod Checks
mod Tests
use barebones_reverse_proxy.Prelude.{
  ℕ, ◌+◌, ◌-◌, ◌*◌, Bool, true, false, Option, none, some, List, [], ◌∷◌, ◌++◌, ltb, leb, ◌==◌,
  if◌then◌else◌, ◌>>=?◌, unwrap_or, Result, ok, err, length, retain, HashMap, empty, retain_map,
  insert, remove,
}
use barebones_reverse_proxy.Config.{SecurityConfig}
use barebones_reverse_proxy.Net.{IpAddr, ip_addr_eq}

abbrev pub second : ℕ
second = 1_000_000_000

abbrev pub rolling_window : ℕ
rolling_window = 60 * second

abbrev pub default_max_tls_failures : ℕ
default_max_tls_failures = 5

abbrev pub default_ban_duration : ℕ
default_ban_duration = 3600 * second

abbrev pub default_rate_limit_rpm : ℕ
default_rate_limit_rpm = 60

-- The last instant that the clock can name: an `i64` of seconds and its nanoseconds.
abbrev pub instant_max : ℕ
instant_max = 9_223_372_036_854_775_807 * second + 999_999_999

-- `Instant + Duration`, which panics past the last instant.
unfoldable pub instant_add : ℕ → ℕ → Option ℕ
instant_add now duration = if leb (now + duration) instant_max then some (now + duration) else none

pub record SecurityManagerInner : Type 0 where
  pub tls_failures : HashMap IpAddr (List ℕ)
  pub request_tracker : HashMap IpAddr (List ℕ)
  pub blacklist : HashMap IpAddr ℕ
  pub ban_duration : ℕ
  pub max_tls_failures : ℕ
  pub rate_limit_rpm : ℕ

-- `Mutex<SecurityManagerInner>`: a panic under the lock poisons it.
pub data SecurityManager : Type 0 where
  unlocked : SecurityManagerInner → SecurityManager
  poisoned : SecurityManager

unfoldable pub new : ℕ → ℕ → ℕ → SecurityManager
new ban_duration max_tls_failures rate_limit_rpm = unlocked (record {
  tls_failures = empty;
  request_tracker = empty;
  blacklist = empty;
  ban_duration = ban_duration;
  max_tls_failures = max_tls_failures;
  rate_limit_rpm = rate_limit_rpm;
})

unfoldable pub from_security_config : Option SecurityConfig → SecurityManager
unfolding new
from_security_config none = new default_ban_duration default_max_tls_failures default_rate_limit_rpm
from_security_config (some sec) =
    new (sec.ban_duration_sec * second) sec.max_tls_failures sec.rate_limit_rpm

-- `retain(|&t| now.duration_since(t) <= ROLLING_WINDOW)`. A time ahead of `now` is 0 away.
unfoldable pub recent : ℕ → List ℕ → List ℕ
unfolding retain
recent now = retain (λ t. leb (now - t) rolling_window)

-- The closure of the two `retain`s over the maps of times: no entry is kept empty.
abbrev pub nonempty : List ℕ → Option (List ℕ)
nonempty [] = none
nonempty (t ∷ ts) = some (t ∷ ts)

abbrev pub live : ℕ → ℕ → Option ℕ
live now banned_until = if ltb now banned_until then some banned_until else none

unfoldable pub cleanup : ℕ → SecurityManagerInner → SecurityManagerInner
cleanup now s = record s {
  blacklist = retain_map (live now) s.blacklist;
  tls_failures = retain_map (λ ts. nonempty (recent now ts)) s.tls_failures;
  request_tracker = retain_map (λ ts. nonempty (recent now ts)) s.request_tracker;
}

-- `entry(ip).or_default()`, then the retained times and the present one.
abbrev pub push_recent : ℕ → Option (List ℕ) → List ℕ
push_recent now times = recent now (unwrap_or times []) ++ (now ∷ [])

-- Behind the count: past the limit the address is banned, and the result is `true`.
abbrev pub ban_if_exceeded :
    IpAddr → ℕ → ℕ → SecurityManagerInner → Option (Bool × SecurityManagerInner)
ban_if_exceeded ip now failure_count s =
    if ltb s.max_tls_failures failure_count
    then (instant_add now s.ban_duration >>=? λ banned_until.
        some (true, record s { blacklist = insert ip banned_until s.blacklist }))
    else some (false, s)

unfoldable pub record_tls_failure :
    IpAddr → ℕ → SecurityManagerInner → Option (Bool × SecurityManagerInner)
record_tls_failure ip now s =
    let guard = cleanup now s in
    let failures = push_recent now (guard.tls_failures ip) in
    ban_if_exceeded ip now (length failures)
      (record guard { tls_failures = insert ip failures guard.tls_failures })

unfoldable pub check_and_record_request :
    IpAddr → ℕ → SecurityManagerInner → Result ℕ ℕ × SecurityManagerInner
check_and_record_request ip now s =
    let guard = cleanup now s in
    if guard.rate_limit_rpm == 0
    then (ok 0, guard)
    else (let requests = push_recent now (guard.request_tracker ip) in
        let count = length requests in
        (
          if ltb guard.rate_limit_rpm count then err count else ok count,
          record guard { request_tracker = insert ip requests guard.request_tracker },
        ))

unfoldable pub is_blacklisted : IpAddr → ℕ → SecurityManagerInner → Bool × SecurityManagerInner
is_blacklisted ip now s = elim (s.blacklist ip) [
  | none ↦ (false, s)
  | some banned_until ↦
      if ltb now banned_until
      then (true, s)
      else (false, record s { blacklist = remove ip s.blacklist })
]

unfoldable pub get_tls_failure_count : IpAddr → ℕ → SecurityManagerInner → ℕ × SecurityManagerInner
get_tls_failure_count ip now s = elim (s.tls_failures ip) [
  | none ↦ (0, s)
  | some times ↦
      let failures = recent now times in
      (
        length failures,
        (if length failures == 0
            then record s { tls_failures = remove ip s.tls_failures }
            else record s { tls_failures = insert ip failures s.tls_failures }),
      )
]

unfoldable pub add_to_blacklist : IpAddr → ℕ → SecurityManagerInner → Option SecurityManagerInner
add_to_blacklist ip now s = instant_add now s.ban_duration >>=? λ banned_until.
    some (record s { blacklist = insert ip banned_until s.blacklist })

-- A call of the manager's interface, and what it returns.
pub data Call : Type 0 where
  tls_failure request blacklisted failure_count ban : IpAddr → Call

pub data Reply : Type 0 where
  flag : Bool → Reply
  rate : Result ℕ ℕ → Reply
  count : ℕ → Reply
  done : Reply

-- The body of each method, under the lock.
unfoldable pub run_call : Call → ℕ → SecurityManagerInner → Option (Reply × SecurityManagerInner)
run_call (tls_failure ip) now s =
    record_tls_failure ip now s >>=? λ (banned, s'). some (flag banned, s')
run_call (request ip) now s =
    let (verdict, s') = check_and_record_request ip now s in some (rate verdict, s')
run_call (blacklisted ip) now s = let (b, s') = is_blacklisted ip now s in some (flag b, s')
run_call (failure_count ip) now s =
    let (n, s') = get_tls_failure_count ip now s in some (count n, s')
run_call (ban ip) now s = add_to_blacklist ip now s >>=? λ s'. some (done, s')

-- `self.inner.lock().expect(..)` and the body: a panic in it leaves the lock poisoned, and a
-- poisoned lock panics.
unfoldable pub with_lock :
    {A : Type 0}
    → (SecurityManagerInner → Option (A × SecurityManagerInner))
    → SecurityManager
    → Option A × SecurityManager
with_lock body poisoned = (none, poisoned)
with_lock body (unlocked s) = elim (body s) [
  | none ↦ (none, poisoned)
  | some (a, s') ↦ (some a, unlocked s')
]
