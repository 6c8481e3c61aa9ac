-- ===== src/Proxy/Forwarding.antt =====
-- src/proxy.rs: the request that goes to the upstream.
use barebones_reverse_proxy.Prelude.{
  ℕ, Bool, not, ◌&&◌, Option, none, some, List, [], ◌∷◌, ◌++◌, if◌then◌else◌, Result, ok, ok_or,
  Text, lit, text_eq, starts_with,
}
use barebones_reverse_proxy.Prelude.{◌>>=!◌ as ◌>>=◌}
use barebones_reverse_proxy.Http.{HeaderMaps, Uri, Request, http_11, header}
use barebones_reverse_proxy.Router.{MatchedRoute}
use barebones_reverse_proxy.Proxy.{
  BoxBody, limited, BoxError, invalid_uri, invalid_header_value, to_str_error,
}

-- `upstream_uri`, before it is parsed.
unfoldable pub upstream_url : MatchedRoute → Option Text → Text
upstream_url matched query =
    lit "http://"
    ++ (matched.upstream_addr ++ (elim query [
      | none ↦ matched.rewritten_path
      | some q ↦ matched.rewritten_path ++ (b'?' ∷ q)
    ]))

-- The headers of the client that are copied.
unfoldable pub is_copied : Text → Bool
is_copied name = not (text_eq name (lit "host")) && not (starts_with (lit ":") name)

module _ (http : HeaderMaps) where
  open http use {HeaderMap, HeaderValue, to_str, from_str, from_static, insert, append, iter}

  unfoldable pub original_host : Uri → HeaderMap → Result (Option HeaderValue) BoxError
  original_host uri headers = elim (header http (lit "host") headers) [
    | some host ↦ ok (some host)
    | none ↦ elim uri.authority [
      | none ↦ ok none
      | some authority ↦
          ok_or (from_str authority) invalid_header_value >>= λ value. ok (some value)
    ]
  ]

  -- The loop over the client's headers.
  unfoldable pub copy_headers : List (Text × HeaderValue) → HeaderMap → HeaderMap
  copy_headers [] headers = headers
  copy_headers ((name, value) ∷ entries) headers =
      copy_headers entries (if is_copied name then append name value headers else headers)

  -- The loop over the headers that the authentication gives.
  unfoldable pub insert_all : List (Text × HeaderValue) → HeaderMap → HeaderMap
  insert_all [] headers = headers
  insert_all ((name, value) ∷ entries) headers = insert_all entries (insert name value headers)

  unfoldable pub insert_host : Option HeaderValue → HeaderMap → HeaderMap
  insert_host none headers = headers
  insert_host (some host) headers =
      insert (lit "x-forwarded-host") host (insert (lit "host") host headers)

  -- The value of `x-forwarded-for`.
  unfoldable pub forwarded_for : Option HeaderValue → Text → Result HeaderValue BoxError
  forwarded_for none client_ip = ok_or (from_str client_ip) invalid_header_value
  forwarded_for (some existing) client_ip = ok_or (to_str existing) to_str_error >>= λ existing_str.
      ok_or (from_str (existing_str ++ (lit ", " ++ client_ip))) invalid_header_value

  unfoldable pub forwarded_headers :
      Text → Option HeaderValue → HeaderMap → HeaderMap → Result HeaderMap BoxError
  forwarded_headers client_ip host auth_headers headers =
      let copied = insert_all (iter auth_headers) (copy_headers (iter headers) http.new) in
      let with_proto =
        insert (lit "x-forwarded-proto") (from_static (lit "https")) (insert_host host copied) in
      forwarded_for (header http (lit "x-forwarded-for") headers) client_ip >>= λ for_value.
      ok_or (from_str client_ip) invalid_header_value >>= λ real_ip.
      ok (insert (lit "x-real-ip") real_ip (insert (lit "x-forwarded-for") for_value with_proto))

  -- `parse_uri` is `Uri`'s parser.
  unfoldable pub build_forwarded :
      {Incoming : Type 0}
      → (Text → Option Uri)
      → MatchedRoute
      → Text
      → ℕ
      → HeaderMap
      → Request http Incoming
      → Result (Request http (BoxBody Incoming)) BoxError
  build_forwarded parse_uri matched client_ip max_size auth_headers req =
      ok_or (parse_uri (upstream_url matched req.uri.query)) invalid_uri >>= λ upstream_uri.
      original_host req.uri req.headers >>= λ host.
      forwarded_headers client_ip host auth_headers req.headers >>= λ headers. ok (record {
        method = req.method;
        uri = upstream_uri;
        version = http_11;
        headers = headers;
        body = limited req.body max_size;
      })
