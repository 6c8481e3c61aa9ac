-- ===== src/Router.antt =====
-- src/router.rs: the routing table, the choice of a route and the rewriting of the path.
pub mod Matching
pub mod Rewriting
mod Tests
use barebones_reverse_proxy.Prelude.{
  ℕ, Bool, true, false, ◌||◌, Option, none, some, List, [], ◌∷◌, ◌++◌, if◌then◌else◌, unwrap_or,
  Text, lit, strip_prefix, starts_with, contains_char, before_char, from_char, drop, length,
}
use barebones_reverse_proxy.Config.{Route}

pub record Router : Type 0 where
  pub routes : List Route

pub record MatchedRoute : Type 0 where
  pub upstream_addr : Text
  pub rewritten_path : Text
  pub auth_required : Bool
  pub cache : Option Bool
  pub intercept_errors : Option Bool

-- `MatchedRoute::should_intercept_errors`.
unfoldable pub should_intercept_errors : MatchedRoute → Bool → Bool
should_intercept_errors matched global_intercept =
    unwrap_or matched.intercept_errors global_intercept

-- `strip_prefix("http://").or_else(.. "https://").unwrap_or(endpoint)`.
unfoldable pub without_scheme : Text → Text
without_scheme endpoint = elim (strip_prefix (lit "http://") endpoint) [
  | some rest ↦ rest
  | none ↦ unwrap_or (strip_prefix (lit "https://") endpoint) endpoint
]

unfoldable pub extract_host_port : Text → Text
extract_host_port endpoint =
    let host_port = before_char b'/' (without_scheme endpoint) in
    if contains_char b':' host_port
    then host_port
    else if starts_with (lit "https://") endpoint
    then host_port ++ lit ":443"
    else host_port ++ lit ":80"

unfoldable pub extract_path : Text → Text
extract_path endpoint = unwrap_or (from_char b'/' (without_scheme endpoint)) (lit "/")

abbrev pub http_url : Text → Text → Text
http_url host path = lit "http://" ++ (host ++ path)

abbrev pub https_url : Text → Text → Text
https_url host path = lit "https://" ++ (host ++ path)

-- The condition of the loop.
abbrev pub matches : Route → Text → Text → Bool
matches route host path =
    starts_with route.request_endpoint (http_url host path)
    || starts_with route.request_endpoint (https_url host path)

unfoldable pub rewrite_path : Route → Text → Text
rewrite_path route path =
    let req_path_prefix = extract_path route.request_endpoint in
    if starts_with req_path_prefix path
    then extract_path route.forward_endpoint ++ drop (length req_path_prefix) path
    else path

abbrev pub matched_route : Route → Text → MatchedRoute
matched_route route path = record {
  upstream_addr = extract_host_port route.forward_endpoint;
  rewritten_path = rewrite_path route path;
  auth_required = route.auth_required;
  cache = route.cache;
  intercept_errors = route.intercept_errors;
}

-- The loop over the routes.
unfoldable pub match_routes : List Route → Text → Text → Option MatchedRoute
match_routes [] host path = none
match_routes (route ∷ routes) host path =
    if matches route host path
    then some (matched_route route path)
    else match_routes routes host path

unfoldable pub match_route : Router → Text → Text → Option MatchedRoute
unfolding match_routes
match_route router host path = match_routes router.routes host path
