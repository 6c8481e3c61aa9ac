-- ===== src/Router/Tests.antt =====
-- src/router.rs: runs, and the theorems at concrete inputs.
use barebones_reverse_proxy.Prelude.{
  ◌≡◌, refl, ◌↔◌, false, none, some, [], ◌∷◌, ◌++◌, Text, lit, contains_char, starts_with,
  before_char, from_char,
}
use barebones_reverse_proxy.Config.{Route}
use barebones_reverse_proxy.Router.{
  Router, matched_route, match_route, match_routes, rewrite_path, extract_host_port, extract_path,
  without_scheme,
}
use barebones_reverse_proxy.Router.Matching.{
  Chosen, match_route-Chosen, relative_routes_never_match,
}
use barebones_reverse_proxy.Router.Rewriting.{http, scheme_text, rewrite_path_lem}

abbrev route_to : Text → Text → Route
route_to request_endpoint forward_endpoint = record {
  request_endpoint = request_endpoint;
  forward_endpoint = forward_endpoint;
  auth_required = false;
  cert_path = none;
  key_path = none;
  cache = none;
  intercept_errors = none;
}

abbrev api : Route
api = route_to (lit "http://home/api") (lit "http://localhost:3000/v1")

abbrev site : Route
site = route_to (lit "http://home") (lit "https://localhost")

abbrev table : Router
table = record { routes = api ∷ site ∷ [] }

api_run :
    match_route table (lit "home") (lit "/api/users")
    ≡ some (record {
      upstream_addr = lit "localhost:3000";
      rewritten_path = lit "/v1/users";
      auth_required = false;
      cache = none;
      intercept_errors = none;
    })
unfolding match_route match_routes starts_with rewrite_path lit extract_path extract_host_port
    without_scheme contains_char from_char before_char
api_run = refl

site_run : extract_host_port site.forward_endpoint ≡ lit "localhost:443"
unfolding extract_host_port without_scheme lit starts_with contains_char before_char
site_run = refl

match_route-Chosen_example :
    (match_route table (lit "home") (lit "/news") ≡ some (matched_route site (lit "/news")))
    ↔ Chosen table.routes (lit "home") (lit "/news") (matched_route site (lit "/news"))
match_route-Chosen_example =
    match_route-Chosen table (lit "home") (lit "/news") (matched_route site (lit "/news"))

abbrev relative : Router
relative = record { routes = route_to (b'/' ∷ lit "api") (lit "http://localhost:3000") ∷ [] }

relative_routes_never_match_example : match_route relative (lit "home") (lit "/api") ≡ none
relative_routes_never_match_example =
    relative_routes_never_match relative (lit "home") (lit "/api") ((lit "api", refl), tt)

rewrite_path_lem_example :
    rewrite_path
      (route_to
        (scheme_text http ++ (lit "home" ++ (b'/' ∷ lit "api")))
        (lit "http://localhost:3000/v1"))
      (b'/' ∷ (lit "api" ++ lit "/users"))
    ≡ extract_path (lit "http://localhost:3000/v1") ++ lit "/users"
unfolding contains_char lit
rewrite_path_lem_example =
    rewrite_path_lem
      (route_to (scheme_text http ++ (lit "home" ++ (b'/' ∷ lit "api")))
        (lit "http://localhost:3000/v1"))
      http (lit "home") (lit "api") (lit "/users") refl refl
