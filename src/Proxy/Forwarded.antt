-- ===== src/Proxy/Forwarded.antt =====
-- src/proxy.rs: the headers of the request that goes to the upstream, name by name.
use barebones_reverse_proxy.Prelude.{
  ℕ, ◌≡◌, inl, inr, refl, sym, ap, ◌∙◌, Option, none, some, List, [], ◌∷◌, ◌++◌, append-nil,
  append_assoc, if◌then◌else◌, ok, ok_or, >>=!-eq-ok, Text, lit, text_eq, text_eq_iff, arith,
  Bool-cases,
}
use barebones_reverse_proxy.Http.{HeaderMaps, values_of, Uri, Request, header}
use barebones_reverse_proxy.Auth.Granted.{last_or, ok_or-eq-ok}
use barebones_reverse_proxy.Router.{MatchedRoute}
use barebones_reverse_proxy.Proxy.{BoxBody, limited, invalid_uri, invalid_header_value}
use barebones_reverse_proxy.Proxy.Forwarding.{
  upstream_url, is_copied, original_host, copy_headers, insert_all, insert_host, forwarded_for,
  forwarded_headers, build_forwarded,
}

module _ (http : HeaderMaps) where
  open http use {HeaderMap, HeaderValue, get_all, insert, append, iter, from_str, from_static}

  -- The client's headers are copied but `host` and pseudo headers, each value in its order.
  copy_headers-values :
      (name : Text) (entries : List (Text × HeaderValue)) (m : HeaderMap)
      → get_all name (copy_headers http entries m)
        ≡ (if is_copied name then get_all name m ++ values_of name entries else get_all name m)
  unfolding copy_headers values_of
  copy_headers-values name [] m = elim (Bool-cases (is_copied name)) [
    | inl b ↦ rw b (sym (append-nil (get_all name m)))
    | inr b ↦ rw b
  ]
  copy_headers-values name ((n, v) ∷ entries) m =
      let m' = if is_copied n then append n v m else m in
      let ih = copy_headers-values name entries m' in
      elim (Bool-cases (text_eq n name)) [
        | inl same ↦
            let e : is_copied n ≡ is_copied name = ap is_copied ((text_eq_iff n name).0 same) in
            elim (Bool-cases (is_copied name)) [
              | inl b ↦
                  let more : get_all name m' ≡ get_all name m ++ (v ∷ []) =
                    rw (e ∙ b) (http.append_values n name v m ∙ rw same) in
                  ih ∙ rw (b, same, more) (append_assoc (get_all name m) (v ∷ []) _)
              | inr b ↦ ih ∙ rw (e ∙ b, b)
            ]
        | inr other ↦
            let kept : get_all name m' ≡ get_all name m = elim (Bool-cases (is_copied n)) [
              | inl on ↦ rw on (http.append_values n name v m ∙ rw other)
              | inr off ↦ rw off
            ] in
            ih ∙ rw (kept, other)
      ]

  insert_all-values :
      (name : Text) (entries : List (Text × HeaderValue)) (m : HeaderMap)
      → get_all name (insert_all http entries m) ≡ last_or (get_all name m) (values_of name entries)
  unfolding insert_all values_of
  insert_all-values name [] m = refl
  insert_all-values name ((n, v) ∷ entries) m =
      let ih = insert_all-values name entries (insert n v m) in
      elim (Bool-cases (text_eq n name)) [
        | inl same ↦ ih ∙ rw (http.insert_values n name v m, same)
        | inr other ↦ ih ∙ rw (http.insert_values n name v m, other)
      ]

  -- The values of a name behind `insert_host`, from those before.
  abbrev pub hosted_values : Option HeaderValue → Text → List HeaderValue → List HeaderValue
  hosted_values none name before = before
  hosted_values (some h) name before =
      if text_eq (lit "x-forwarded-host") name
      then h ∷ []
      else if text_eq (lit "host") name
      then h ∷ []
      else before

  insert_host-values :
      (name : Text) (host : Option HeaderValue) (m : HeaderMap)
      → get_all name (insert_host http host m) ≡ hosted_values host name (get_all name m)
  unfolding insert_host
  insert_host-values name none m = refl
  insert_host-values name (some h) m =
      http.insert_values (lit "x-forwarded-host") name h _
      ∙ rw (http.insert_values (lit "host") name h m)

  -- What is copied of the client's values of a name, and the last value of the authentication.
  abbrev pub passed_on : Text → HeaderMap → HeaderMap → List HeaderValue
  passed_on name headers auth_headers =
      last_or (if is_copied name then get_all name headers else []) (get_all name auth_headers)

  -- The values of each name in the request that is sent.
  abbrev pub sent_values :
      Text
      → Option HeaderValue
      → HeaderValue
      → HeaderValue
      → HeaderMap
      → HeaderMap
      → List HeaderValue
  sent_values name host for_value real_ip headers auth_headers =
      if text_eq (lit "x-real-ip") name
      then real_ip ∷ []
      else if text_eq (lit "x-forwarded-for") name
      then for_value ∷ []
      else if text_eq (lit "x-forwarded-proto") name
      then from_static (lit "https") ∷ []
      else hosted_values host name (passed_on name headers auth_headers)

  copied-values :
      (name : Text) (headers auth_headers : HeaderMap)
      → get_all name
          (insert_all http (iter auth_headers) (copy_headers http (iter headers) http.new))
        ≡ passed_on name headers auth_headers
  copied-values name headers auth_headers =
      insert_all-values name (iter auth_headers) _
      ∙ rw (
        http.iter_values name auth_headers,
        copy_headers-values name (iter headers) http.new,
        http.new_values name,
        http.iter_values name headers,
      )

  -- What stands behind the headers of a request that is built.
  pub record HeadersOf (client_ip : Text) (host : Option HeaderValue)
      (auth_headers headers sent : HeaderMap) : Type 0 where
    pub for_value : HeaderValue
    pub real_ip : HeaderValue
    pub for_given :
        forwarded_for http (header http (lit "x-forwarded-for") headers) client_ip ≡ ok for_value
    pub real_given : from_str client_ip ≡ some real_ip
    pub values :
        (name : Text)
        → get_all name sent ≡ sent_values name host for_value real_ip headers auth_headers

  forwarded_headers-HeadersOf :
      (client_ip : Text) (host : Option HeaderValue) (auth_headers headers sent : HeaderMap)
      → forwarded_headers http client_ip host auth_headers headers ≡ ok sent
      → HeadersOf client_ip host auth_headers headers sent
  unfolding forwarded_headers
  forwarded_headers-HeadersOf client_ip host auth_headers headers sent h =
      let (for_value, e1, h1) =
        >>=!-eq-ok (forwarded_for http (header http (lit "x-forwarded-for") headers) client_ip) _
          h in
      let (real_ip, e2, h2) = >>=!-eq-ok (ok_or (from_str client_ip) invalid_header_value) _ h1 in
      let base = insert_all http (iter auth_headers) (copy_headers http (iter headers) http.new) in
      let hosted = insert_host http host base in
      let proto = insert (lit "x-forwarded-proto") (from_static (lit "https")) hosted in
      let forwarded = insert (lit "x-forwarded-for") for_value proto in
      let e : insert (lit "x-real-ip") real_ip forwarded ≡ sent = ground arith in
      record {
        for_value = for_value;
        real_ip = real_ip;
        for_given = e1;
        real_given = ok_or-eq-ok (from_str client_ip) _ real_ip e2;
        values = λ name.
            ap (get_all name) (sym e)
            ∙ http.insert_values (lit "x-real-ip") name real_ip forwarded
            ∙ rw (
              http.insert_values (lit "x-forwarded-for") name for_value proto,
              http.insert_values (lit "x-forwarded-proto") name _ hosted,
              insert_host-values name host base,
              copied-values name headers auth_headers,
            );
      }

  -- What stands behind a request that is built for the upstream.
  pub record Forwarded {Incoming : Type 0} (parse_uri : Text → Option Uri) (matched : MatchedRoute)
      (client_ip : Text) (max_size : ℕ) (auth_headers : HeaderMap) (req : Request http Incoming)
      (sent : Request http (BoxBody Incoming)) : Type 0 where
    pub host : Option HeaderValue
    pub same_method : sent.method ≡ req.method
    pub addressed : parse_uri (upstream_url matched req.uri.query) ≡ some sent.uri
    pub body_limited : sent.body ≡ limited req.body max_size
    pub host_given : original_host http req.uri req.headers ≡ ok host
    pub headers_of : HeadersOf client_ip host auth_headers req.headers sent.headers

  -- If the request for the upstream is built, then it has the client's method, the URL of the
  -- route, a body that fails past the size limit, and for each header name these values: the
  -- client's address for x-real-ip, the extended list for x-forwarded-for, https for
  -- x-forwarded-proto, the original host, if there is one, for x-forwarded-host and host, and for
  -- any other name the last value of the authentication or else the client's copied values.
  pub build_forwarded-Forwarded :
      {Incoming : Type 0} (parse_uri : Text → Option Uri) (matched : MatchedRoute)
      (client_ip : Text) (max_size : ℕ) (auth_headers : HeaderMap) (req : Request http Incoming)
      (sent : Request http (BoxBody Incoming))
      → build_forwarded http parse_uri matched client_ip max_size auth_headers req ≡ ok sent
      → Forwarded parse_uri matched client_ip max_size auth_headers req sent
  unfolding build_forwarded
  build_forwarded-Forwarded parse_uri matched client_ip max_size auth_headers req sent h =
      let url = upstream_url matched req.uri.query in
      let (uri, e1, h1) = >>=!-eq-ok (ok_or (parse_uri url) invalid_uri) _ h in
      let (host, e2, h2) = >>=!-eq-ok (original_host http req.uri req.headers) _ h1 in
      let (headers, e3, h3) =
        >>=!-eq-ok (forwarded_headers http client_ip host auth_headers req.headers) _ h2 in
      record {
        host = host;
        same_method = ground arith;
        addressed = ok_or-eq-ok (parse_uri url) _ uri e1 ∙ ground arith;
        body_limited = ground arith;
        host_given = e2;
        headers_of =
            forwarded_headers-HeadersOf client_ip host auth_headers req.headers sent.headers
              (e3 ∙ ground arith);
      }
