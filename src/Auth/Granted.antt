-- ===== src/Auth/Granted.antt =====
-- src/auth.rs: when access is granted, and with which headers.
use barebones_reverse_proxy.Prelude.{
  ◌≡◌, ◌≤◌, ◌<◌, refl, ap, ◌∙◌, true, Option, none, some, List, [], ◌∷◌, if◌then◌else◌, Result, ok,
  err, ok_or, ltb→lt, leb→le, &&-true, >>=!-eq-ok, Bool-cases, inl, inr, Text, text_eq, text_eq_iff,
  arith,
}
use barebones_reverse_proxy.Http.{HeaderMaps, values_of, Uri, Response}
use barebones_reverse_proxy.Auth.{
  is_success, is_passed_on, bad_auth_url, bad_request, network_error, SubRequest, success,
  build_sub_request, collect, success_headers, answer, authenticate,
}

-- The last of some values, or those there were before.
abbrev pub last_or : {V : Type 0} → List V → List V → List V
last_or before [] = before
last_or before (v ∷ vs) = last_or (v ∷ []) vs

pub ok_or-eq-ok :
    {A : Type 0} {E : Type 0} (o : Option A) (e : E) (a : A) → ok_or o e ≡ ok a → o ≡ some a
ok_or-eq-ok none e a h = absurd (ground arith)
ok_or-eq-ok (some b) e a h = ground arith

module _ (http : HeaderMaps) (Body : Type 0) where
  open http use {HeaderMap, HeaderValue, get_all, insert, iter}

  collect-values :
      (name : Text) (entries : List (Text × HeaderValue)) (m : HeaderMap)
      → get_all name (collect http Body entries m) ≡ (
          if is_passed_on name
          then last_or (get_all name m) (values_of name entries)
          else get_all name m)
  unfolding collect values_of
  collect-values name [] m = ground arith
  collect-values name ((n, v) ∷ entries) m =
      let m' = if is_passed_on n then insert n v m else m in
      let ih = collect-values name entries m' in
      elim (Bool-cases (text_eq n name)) [
        | inl same ↦
            let e : is_passed_on n ≡ is_passed_on name =
              ap is_passed_on ((text_eq_iff n name).0 same) in
            elim (Bool-cases (is_passed_on name)) [
              | inl allowed ↦
                  let one : get_all name m' ≡ v ∷ [] =
                    rw (e ∙ allowed) (http.insert_values n name v m ∙ rw same) in
                  ih ∙ rw (allowed, same, one)
              | inr dropped ↦ ih ∙ rw (e ∙ dropped, dropped)
            ]
        | inr other ↦
            let kept : get_all name m' ≡ get_all name m = elim (Bool-cases (is_passed_on n)) [
              | inl on ↦ rw on (http.insert_values n name v m ∙ rw other)
              | inr off ↦ rw off
            ] in
            ih ∙ rw (kept, other)
      ]

  success_headers-values :
      (name : Text) (resp : Response http Body)
      → get_all name (success_headers http Body resp)
        ≡ (if is_passed_on name then last_or [] (get_all name resp.headers) else [])
  unfolding success_headers
  success_headers-values name resp =
      collect-values name (iter resp.headers) http.new
      ∙ rw (http.new_values name, http.iter_values name resp.headers)

  -- What stands behind a granted access.
  pub record Granted (parse_uri : Text → Option Uri)
      (request : SubRequest http Body → Result (Response http Body) Text)
      (auth_url client_ip method : Text) (uri : Uri) (headers granted : HeaderMap) : Type 0 where
    pub auth_uri : Uri
    pub sub_req : SubRequest http Body
    pub resp : Response http Body
    pub addressed : parse_uri auth_url ≡ some auth_uri
    pub built : build_sub_request http Body auth_uri client_ip method uri headers ≡ some sub_req
    pub answered : request sub_req ≡ ok resp
    pub from_200 : 200 ≤ resp.status
    pub below_300 : resp.status < 300
    pub values :
        (name : Text)
        → get_all name granted
          ≡ (if is_passed_on name then last_or [] (get_all name resp.headers) else [])

  answer-success :
      (resp : Response http Body) (granted : HeaderMap)
      → answer http Body resp ≡ success granted
      → (is_success resp.status ≡ true) × (granted ≡ success_headers http Body resp)
  unfolding answer
  answer-success resp granted h = ground arith

  answer_of :
      (r : Result (Response http Body) Text) (granted : HeaderMap)
      → elim r [ ok resp ↦ ok (answer http Body resp) | err e ↦ err (network_error e) ]
        ≡ ok (success granted)
      → (resp : Response http Body) × (r ≡ ok resp) × (answer http Body resp ≡ success granted)
  answer_of (ok resp) granted h = (resp, refl, ground arith)
  answer_of (err e) granted h = absurd (ground arith)

  -- If access is granted, then the service's URL was read, the request to it was built, and it
  -- answered with a status from 200 to 299; of each header name that may be passed on the upstream
  -- gets the last value of the answer if there is one, and of every other name none.
  pub authenticate-Granted :
      (parse_uri : Text → Option Uri)
      (request : SubRequest http Body → Result (Response http Body) Text)
      (auth_url client_ip method : Text) (uri : Uri) (headers granted : HeaderMap)
      → authenticate http Body parse_uri request auth_url client_ip method uri headers
        ≡ ok (success granted)
      → Granted parse_uri request auth_url client_ip method uri headers granted
  unfolding authenticate
  authenticate-Granted parse_uri request auth_url client_ip method uri headers granted h =
      let (auth_uri, e1, h1) =
        >>=!-eq-ok (ok_or (parse_uri auth_url) (bad_auth_url auth_url)) _ h in
      let (sub_req, e2, h2) =
        >>=!-eq-ok
          (ok_or (build_sub_request http Body auth_uri client_ip method uri headers) bad_request) _
          h1 in
      let (resp, e3, a) = answer_of (request sub_req) granted h2 in
      let (ok_status, same) = answer-success resp granted a in
      record {
        auth_uri = auth_uri;
        sub_req = sub_req;
        resp = resp;
        addressed = ok_or-eq-ok (parse_uri auth_url) _ auth_uri e1;
        built =
            ok_or-eq-ok (build_sub_request http Body auth_uri client_ip method uri headers) _
              sub_req e2;
        answered = e3;
        from_200 = leb→le 200 resp.status (&&-true _ _ ok_status).0;
        below_300 = ltb→lt resp.status 300 (&&-true _ _ ok_status).1;
        values = λ name. ap (get_all name) same ∙ success_headers-values name resp;
      }
