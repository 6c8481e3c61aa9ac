-- ===== src/Security/Window.antt =====
-- The rolling window: a look at a later time sees through every earlier clean-up.
use barebones_reverse_proxy.Prelude.{
  ℕ, ◌≤◌, ◌≡◌, refl, Option, none, some, List, [], ◌∷◌, ◌++◌, arith, ◌>>=?◌, unwrap_or, HashMap,
}
use barebones_reverse_proxy.Net.{IpAddr}
use barebones_reverse_proxy.Security.{SecurityManagerInner, recent, nonempty, live, cleanup}

-- What is out of the window at a time is out of it later.
pub recent-recent :
    (now later : ℕ) (ts : List ℕ) → now ≤ later → recent later (recent now ts) ≡ recent later ts
unfolding recent
recent-recent now later [] h = refl
recent-recent now later (t ∷ ts) h = ground (arith, recent-recent now later ts)

pub recent-append :
    (now : ℕ) (xs ys : List ℕ) → recent now (xs ++ ys) ≡ recent now xs ++ recent now ys
unfolding recent
recent-append now [] ys = refl
recent-append now (x ∷ xs) ys = ground (arith, recent-append now xs ys)

pub recent_now : (now : ℕ) → recent now (now ∷ []) ≡ now ∷ []
unfolding recent
recent_now now = ground arith

-- The times of an address, or none.
abbrev pub times_of : HashMap IpAddr (List ℕ) → IpAddr → List ℕ
times_of m ip = unwrap_or (m ip) []

nonempty_or : (ts : List ℕ) → unwrap_or (nonempty ts) [] ≡ ts
nonempty_or [] = refl
nonempty_or (t ∷ ts) = refl

kept :
    (now : ℕ) (o : Option (List ℕ))
    → unwrap_or (o >>=? λ ts. nonempty (recent now ts)) [] ≡ recent now (unwrap_or o [])
unfolding recent
kept now none = refl
kept now (some ts) = nonempty_or (recent now ts)

pub cleanup_failures :
    (now : ℕ) (s : SecurityManagerInner) (ip : IpAddr)
    → times_of (cleanup now s).tls_failures ip ≡ recent now (times_of s.tls_failures ip)
unfolding cleanup
cleanup_failures now s ip = kept now (s.tls_failures ip)

pub cleanup_requests :
    (now : ℕ) (s : SecurityManagerInner) (ip : IpAddr)
    → times_of (cleanup now s).request_tracker ip ≡ recent now (times_of s.request_tracker ip)
unfolding cleanup
cleanup_requests now s ip = kept now (s.request_tracker ip)

-- The ban of an address, if it is still running.
abbrev pub live_ban : ℕ → Option ℕ → Option ℕ
live_ban now o = o >>=? live now

pub live-live :
    (now later : ℕ) (o : Option ℕ)
    → now ≤ later
    → live_ban later (live_ban now o) ≡ live_ban later o
live-live now later none h = refl
live-live now later (some u) h = ground arith
