-- ===== src/Auth.antt =====
-- src/auth.rs: the request to the service that checks credentials, and what its answer means. The
-- crate `http` is the interface `HeaderMaps`, hyper's client is a function from the request to its
-- answer or an error. The log is not modelled.
pub mod Granted
mod Tests
use barebones_reverse_proxy.Prelude.{
  ℕ, ◌≡◌, Bool, true, false, ◌&&◌, ◌||◌, Option, none, some, List, [], ◌∷◌, ◌++◌, if◌then◌else◌,
  ◌>>=?◌, unwrap_or, ltb, leb, Result, ok, err, ok_or, Text, lit, text_eq, starts_with,
}
use barebones_reverse_proxy.Prelude.{◌>>=!◌ as ◌>>=◌}
use barebones_reverse_proxy.Http.{HeaderMaps, Uri, Response, header}

-- `status.is_success()`.
abbrev pub is_success : ℕ → Bool
is_success status = leb 200 status && ltb status 300

-- The names that are passed on to the upstream.
unfoldable pub is_passed_on : Text → Bool
is_passed_on name =
    starts_with (lit "remote-") name
    || starts_with (lit "x-forwarded-user") name
    || starts_with (lit "x-auth-") name

-- The headers of the client that the service sees.
abbrev pub forwarded_names : List Text
forwarded_names = lit "cookie" ∷ lit "authorization" ∷ lit "x-api-key" ∷ lit "accept" ∷ []

pub data AuthError : Type 0 where
  bad_auth_url : Text → AuthError
  bad_request : AuthError
  network_error : Text → AuthError

module _ (http : HeaderMaps) (Body : Type 0) where
  open http use {HeaderMap, HeaderValue, to_str, from_str, get_all, insert, iter}

  pub record SubRequest : Type 0 where
    pub method : Text
    pub uri : Uri
    pub headers : List (Text × HeaderValue)

  pub data AuthResult : Type 0 where
    success : HeaderMap → AuthResult
    denied : Response http Body → AuthResult

  unfoldable pub request_host : Uri → HeaderMap → Text
  request_host uri headers = elim uri.authority [
    | some a ↦ a
    | none ↦ unwrap_or (header http (lit "host") headers >>=? to_str) []
  ]

  -- The loop over the four names.
  unfoldable pub forward_headers : List Text → HeaderMap → List (Text × HeaderValue)
  forward_headers [] headers = []
  forward_headers (name ∷ names) headers =
      let rest = forward_headers names headers in
      elim (header http name headers) [ none ↦ rest | some v ↦ (name, v) ∷ rest ]

  unfoldable pub build_sub_request : Uri → Text → Text → Uri → HeaderMap → Option SubRequest
  build_sub_request auth_uri client_ip method uri headers =
      let host = request_host uri headers in
      let path_and_query = unwrap_or uri.path_and_query (lit "/") in
      from_str method >>=? λ forwarded_method. from_str (lit "https") >>=? λ proto.
      from_str host >>=? λ forwarded_host. from_str path_and_query >>=? λ forwarded_uri.
      from_str client_ip >>=? λ forwarded_for.
      from_str (lit "https://" ++ (host ++ path_and_query)) >>=? λ original_url. some (record {
        method = method;
        uri = auth_uri;
        headers =
            (lit "x-forwarded-method", forwarded_method)
            ∷ (lit "x-forwarded-proto", proto)
            ∷ (lit "x-forwarded-host", forwarded_host)
            ∷ (lit "x-forwarded-uri", forwarded_uri)
            ∷ (lit "x-forwarded-for", forwarded_for)
            ∷ (lit "x-original-url", original_url)
            ∷ forward_headers forwarded_names headers;
      })

  -- The loop over the answer's headers.
  unfoldable pub collect : List (Text × HeaderValue) → HeaderMap → HeaderMap
  collect [] headers = headers
  collect ((name, value) ∷ entries) headers =
      collect entries (if is_passed_on name then insert name value headers else headers)

  unfoldable pub success_headers : Response http Body → HeaderMap
  success_headers resp = collect (iter resp.headers) http.new

  unfoldable pub answer : Response http Body → AuthResult
  answer resp = if is_success resp.status then success (success_headers resp) else denied resp

  -- `parse_uri` is `Uri`'s parser, `request` the client.
  unfoldable pub authenticate :
      (Text → Option Uri)
      → (SubRequest → Result (Response http Body) Text)
      → Text
      → Text
      → Text
      → Uri
      → HeaderMap
      → Result AuthResult AuthError
  authenticate parse_uri request auth_url client_ip method uri headers =
      ok_or (parse_uri auth_url) (bad_auth_url auth_url) >>= λ auth_uri.
      ok_or (build_sub_request auth_uri client_ip method uri headers) bad_request >>= λ sub_req.
      elim (request sub_req) [ ok resp ↦ ok (answer resp) | err e ↦ err (network_error e) ]
