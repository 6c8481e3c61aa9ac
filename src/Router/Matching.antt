-- ===== src/Router/Matching.antt =====
-- src/router.rs, `match_route`: which route is chosen.
use barebones_reverse_proxy.Prelude.{
  ◌≡◌, ◌↔◌, inl, inr, refl, ap, ◌∙◌, true, false, none, some, List, [], ◌∷◌, ◌++◌, Text, lit, All,
  Bool-cases, starts_with, arith,
}
use barebones_reverse_proxy.Config.{Route}
use barebones_reverse_proxy.Router.{
  Router, MatchedRoute, matches, matched_route, match_routes, match_route,
}

-- The first route of the table whose endpoint begins the URL; those before it do not.
pub record Chosen (routes : List Route) (host path : Text) (m : MatchedRoute) : Type 0 where
  pub before : List Route
  pub route : Route
  pub after : List Route
  pub splits : routes ≡ before ++ (route ∷ after)
  pub skipped : All (λ r. matches r host path ≡ false) before
  pub fits : matches route host path ≡ true
  pub result : m ≡ matched_route route path

Chosen-cons :
    (r : Route) (routes : List Route) (host path : Text) {m : MatchedRoute}
    → matches r host path ≡ false
    → Chosen routes host path m
    → Chosen (r ∷ routes) host path m
Chosen-cons r routes host path h c = record {
  before = r ∷ c.before;
  route = c.route;
  after = c.after;
  splits = ap (◌∷◌ r) c.splits;
  skipped = (h, c.skipped);
  fits = c.fits;
  result = c.result;
}

match_routes-Chosen :
    (routes : List Route) (host path : Text) (m : MatchedRoute)
    → match_routes routes host path ≡ some m
    → Chosen routes host path m
unfolding match_routes
match_routes-Chosen [] host path m e = absurd (ground arith)
match_routes-Chosen (r ∷ routes) host path m e = elim (Bool-cases (matches r host path)) [
  | inl fits ↦ record {
    before = [];
    route = r;
    after = routes;
    splits = refl;
    skipped = tt;
    fits = fits;
    result = ground arith;
  }
  | inr other ↦
      Chosen-cons r routes host path other (match_routes-Chosen routes host path m (ground arith))
]

Chosen-match_routes :
    (routes : List Route) (host path : Text) (m : MatchedRoute)
    → Chosen routes host path m
    → match_routes routes host path ≡ some m
unfolding match_routes
Chosen-match_routes routes host path m c = rw (c.splits, c.result) (go c.before c.skipped)
  where
    go :
        (before : List Route)
        → All (λ r. matches r host path ≡ false) before
        → match_routes (before ++ (c.route ∷ c.after)) host path ≡ some (matched_route c.route path)
    go [] s = rw c.fits
    go (r ∷ before) s = rw s.0 (go before s.1)

-- `match_route` gives a route exactly if it is the result for the first route of the table whose
-- request endpoint begins the URL with the scheme http or https; no route before it does.
pub match_route-Chosen :
    (router : Router) (host path : Text) (m : MatchedRoute)
    → (match_route router host path ≡ some m) ↔ Chosen router.routes host path m
unfolding match_route
match_route-Chosen router host path m =
    (match_routes-Chosen router.routes host path m, Chosen-match_routes router.routes host path m)

-- An endpoint that begins with a slash begins no URL.
relative-matches :
    (r : Route) (s host path : Text) → r.request_endpoint ≡ b'/' ∷ s → matches r host path ≡ false
unfolding starts_with lit
relative-matches r s host path e = rw e

match_routes_skip :
    (r : Route) (routes : List Route) (host path : Text)
    → matches r host path ≡ false
    → match_routes (r ∷ routes) host path ≡ match_routes routes host path
unfolding match_routes
match_routes_skip r routes host path h = rw h

-- If every request endpoint of the table begins with a slash, no request matches a route.
pub relative_routes_never_match :
    (router : Router) (host path : Text)
    → All (λ r. (s : Text) × (r.request_endpoint ≡ b'/' ∷ s)) router.routes
    → match_route router host path ≡ none
unfolding match_route
relative_routes_never_match router host path all = go router.routes all
  where
    go :
        (routes : List Route)
        → All (λ r. (s : Text) × (r.request_endpoint ≡ b'/' ∷ s)) routes
        → match_routes routes host path ≡ none
    go [] a = unfold match_routes in refl
    go (r ∷ routes) ((s, e), a) =
        match_routes_skip r routes host path (relative-matches r s host path e) ∙ go routes a
