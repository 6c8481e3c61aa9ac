-- ===== src/Auth/Tests.antt =====
-- src/auth.rs: runs, and the theorem at a concrete input, over listed headers.
use barebones_reverse_proxy.Prelude.{
  ℕ, ◌≡◌, refl, Option, none, some, [], ◌∷◌, Result, ok, Text, lit, text_eq, starts_with,
  strip_prefix,
}
use barebones_reverse_proxy.Http.{values_of, Uri, Response}
use barebones_reverse_proxy.Auth.{
  is_passed_on, SubRequest, success, request_host, forward_headers, build_sub_request, collect,
  success_headers, answer, authenticate,
}
use barebones_reverse_proxy.Auth.Granted.{Granted, authenticate-Granted}
use barebones_reverse_proxy.Http.Listed.{Headers, without, listed}

abbrev page : Uri
page = record {
  authority = none;
  path = lit "/a";
  query = some (lit "b");
  path_and_query = some (lit "/a?b");
}

abbrev client_headers : Headers
client_headers = (lit "host", lit "home") ∷ (lit "cookie", lit "s=1") ∷ []

abbrev parse_uri : Text → Option Uri
parse_uri t = some (record { authority = some t; path = []; query = none; path_and_query = none })

-- A service that names the user twice.
abbrev service : ℕ → SubRequest listed Unit → Result (Response listed Unit) Text
service status sub_req = ok (record {
  status = status;
  headers =
      (lit "remote-user", lit "a") ∷ (lit "server", lit "x") ∷ (lit "remote-user", lit "b") ∷ [];
  body = tt;
})

abbrev granted : Headers
granted = (lit "remote-user", lit "b") ∷ []

granted_run :
    authenticate listed Unit parse_uri
      (service 200)
      (lit "auth")
      (lit "10.0.0.1")
      (lit "GET")
      page
      client_headers
    ≡ ok (success granted)
unfolding authenticate build_sub_request request_host forward_headers answer success_headers collect
    is_passed_on values_of without lit starts_with strip_prefix text_eq
granted_run = refl

authenticate-Granted_example :
    Granted listed Unit parse_uri
      (service 200)
      (lit "auth")
      (lit "10.0.0.1")
      (lit "GET")
      page
      client_headers
      granted
authenticate-Granted_example =
    authenticate-Granted listed Unit parse_uri (service 200) (lit "auth") (lit "10.0.0.1")
      (lit "GET") page client_headers granted granted_run
