-- ===== src/Proxy/Answered.antt =====
-- src/proxy.rs: what the client gets where the upstream was asked.
use barebones_reverse_proxy.Prelude.{
  ℕ, ◌≡◌, ◌⊎◌, inl, inr, refl, ap, ◌∙◌, Bool, true, false, ◌&&◌, Option, none, some, List, [], ◌∷◌,
  Result, ok, err, Text, lit, text_eq, Bool-cases, Option-cases, ◌==◌, &&-true,
}
use barebones_reverse_proxy.Http.{HeaderMaps, Response, Request}
use barebones_reverse_proxy.ErrorPages.{wants_json, build_error_response}
use barebones_reverse_proxy.Router.{should_intercept_errors}
use barebones_reverse_proxy.Proxy.{
  BoxBody, full, incoming, is_error, inject_security_headers, Answer, error_response,
  with_security_headers,
}
use barebones_reverse_proxy.Proxy.Answering.{
  Asked, Flow, reached, returned, is_stored, store_answer, answer_of_upstream, answer_of_client,
}
use barebones_reverse_proxy.Net.{SocketAddr}
use barebones_reverse_proxy.Lru.{LruCache}
use barebones_reverse_proxy.Cache.{CachedAsset}
use barebones_reverse_proxy.Tls.{CertificateFiles}
use barebones_reverse_proxy.Proxy.Screening.{Clock, Outside}
use barebones_reverse_proxy.Proxy.Handling.{Shared, Handled, finish, handle_request}
use barebones_reverse_proxy.Proxy.Sent.{handle_request-Forwards}

module _ (http : HeaderMaps) where
  open http use {HeaderMap, get_all, insert, from_static}

  -- The four headers, each with its one value.
  pub record Hardened (headers : HeaderMap) : Type 0 where
    pub transport :
        get_all (lit "strict-transport-security") headers
        ≡ from_static (lit "max-age=63072000; includeSubDomains; preload") ∷ []
    pub no_sniff : get_all (lit "x-content-type-options") headers ≡ from_static (lit "nosniff") ∷ []
    pub no_frame : get_all (lit "x-frame-options") headers ≡ from_static (lit "DENY") ∷ []
    pub no_filter : get_all (lit "x-xss-protection") headers ≡ from_static (lit "0") ∷ []

  pub get_all-insert :
      (name key : Text) (v : http.HeaderValue) (m : HeaderMap)
      → text_eq name key ≡ true
      → get_all key (insert name v m) ≡ v ∷ []
  get_all-insert name key v m h = http.insert_values name key v m ∙ rw h

  get_all-insert_other :
      (name key : Text) (v : http.HeaderValue) (m : HeaderMap)
      → text_eq name key ≡ false
      → get_all key (insert name v m) ≡ get_all key m
  get_all-insert_other name key v m h = http.insert_values name key v m ∙ rw h

  pub inject_security_headers-Hardened :
      (headers : HeaderMap) → Hardened (inject_security_headers http headers)
  unfolding inject_security_headers text_eq lit
  inject_security_headers-Hardened headers = record {
    transport =
        get_all-insert_other (lit "x-xss-protection") (lit "strict-transport-security") _ _ refl
        ∙ get_all-insert_other (lit "x-frame-options") (lit "strict-transport-security") _ _ refl
        ∙ get_all-insert_other (lit "x-content-type-options") (lit "strict-transport-security") _ _
            refl
        ∙ get_all-insert (lit "strict-transport-security") (lit "strict-transport-security") _ _
            refl;
    no_sniff =
        get_all-insert_other (lit "x-xss-protection") (lit "x-content-type-options") _ _ refl
        ∙ get_all-insert_other (lit "x-frame-options") (lit "x-content-type-options") _ _ refl
        ∙ get_all-insert (lit "x-content-type-options") (lit "x-content-type-options") _ _ refl;
    no_frame =
        get_all-insert_other (lit "x-xss-protection") (lit "x-frame-options") _ _ refl
        ∙ get_all-insert (lit "x-frame-options") (lit "x-frame-options") _ _ refl;
    no_filter = get_all-insert (lit "x-xss-protection") (lit "x-xss-protection") _ _ refl;
  }

  -- An error page has the status it is made for.
  pub error_response-status :
      (Incoming : Type 0) (reasons : ℕ → Option Text) (status : ℕ) (message client_ip host : Text)
      (headers : HeaderMap)
      → (error_response http Incoming reasons status message client_ip host headers).status ≡ status
  unfolding error_response build_error_response
  error_response-status Incoming reasons status message client_ip host headers =
      elim (Bool-cases (wants_json http (some headers))) [ inl b ↦ rw b | inr b ↦ rw b ]

  module _ (Incoming : Type 0) (reasons : ℕ → Option Text)
      (collect : Incoming → Option (List ℕ)) where
    -- The status that the client gets: the upstream's, or 502.
    abbrev pub status_for : Result (Response http Incoming) Text → ℕ
    status_for (ok resp) = resp.status
    status_for (err e) = 502

    -- Where the body comes from: passed on, collected and whole, or empty where the collection
    -- fails; only an error's body may be the proxy's own page.
    abbrev pub BodyKept : Result (Response http Incoming) Text → BoxBody Incoming → Type 0
    BodyKept (err e) body = Unit
    BodyKept (ok resp) body =
        (body ≡ incoming resp.body)
        ⊎ ((bytes : List ℕ) × (collect resp.body ≡ some bytes) × (body ≡ full bytes))
        ⊎ ((collect resp.body ≡ none) × (body ≡ full []))
        ⊎ (is_error resp.status ≡ true)

    -- The answer of the flow, behind the end of the handler.
    abbrev pub final : Flow http Incoming → Answer http Incoming
    final (reached answer task) = with_security_headers http Incoming answer
    final (returned answer task) = answer

    -- What stands behind the answer to a request that went to the upstream.
    pub record AnswerFor (reply : Result (Response http Incoming) Text)
        (answer : Answer http Incoming) : Type 0 where
      pub same_status : answer.status ≡ status_for reply
      pub body_kept : BodyKept reply answer.body
      pub hardened : Hardened answer.headers

    store_answer-AnswerFor :
        (key : Text) (resp : Response http Incoming)
        → AnswerFor (ok resp) (final (store_answer http Incoming collect key resp))
    unfolding store_answer
    store_answer-AnswerFor key resp = elim (Option-cases (collect resp.body)) [
      | inl e ↦
          rw (store_answer, e)
            (record {
              same_status = refl;
              body_kept = inr (inr (inl (e, refl)));
              hardened = inject_security_headers-Hardened resp.headers;
            })
      | inr (bytes, e) ↦
          rw (store_answer, e)
            (record {
              same_status = refl;
              body_kept = inr (inl (bytes, e, refl));
              hardened = inject_security_headers-Hardened _;
            })
    ]

    answer_of_client-AnswerFor :
        (asked : Asked http) (reply : Result (Response http Incoming) Text)
        → AnswerFor reply (final (answer_of_client http Incoming reasons collect asked reply))
    unfolding answer_of_client answer_of_upstream
    answer_of_client-AnswerFor asked (err e) = record {
      same_status = error_response-status Incoming reasons 502 _ _ _ _;
      body_kept = tt;
      hardened = inject_security_headers-Hardened _;
    }
    answer_of_client-AnswerFor asked (ok resp) =
        let tunnelled = resp.status == 101 && asked.upgrade_requested in
        let intercepted =
          should_intercept_errors asked.matched asked.global_intercept_errors
          && is_error resp.status in
        elim (Bool-cases tunnelled) [
          | inl t ↦ rw t (record {
            same_status = refl;
            body_kept = inl refl;
            hardened = inject_security_headers-Hardened resp.headers;
          })
          | inr t ↦ elim (Bool-cases intercepted) [
            | inl i ↦
                rw (t, i)
                  (record {
                    same_status = error_response-status Incoming reasons resp.status _ _ _ _;
                    body_kept = inr (inr (inr (&&-true _ _ i).1));
                    hardened = inject_security_headers-Hardened _;
                  })
            | inr i ↦ elim (Bool-cases (is_stored http asked resp.status resp.headers)) [
              | inl s ↦ rw (t, i, s) (store_answer-AnswerFor asked.cache_key resp)
              | inr s ↦
                  rw (t, i, s)
                    (record {
                      same_status = refl;
                      body_kept = inl refl;
                      hardened = inject_security_headers-Hardened _;
                    })
            ]
          ]
        ]

    module _ (lru : LruCache (CachedAsset HeaderMap)) (files : CertificateFiles) where
      pub finish-result :
          (sent : Request http (BoxBody Incoming)) (flow : Flow http Incoming)
          (shared : Shared http Incoming lru files)
          → (finish http Incoming lru files sent flow shared).result ≡ ok (final flow)
      unfolding finish
      finish-result sent (reached answer task) shared = refl
      finish-result sent (returned answer task) shared = refl

-- If a request was sent to the upstream, then the client gets an answer with the upstream's status,
-- or 502 if the upstream could not be reached, with each of the four security headers once; unless
-- the upstream's status is an error, the body is the upstream's, passed on or collected, or empty
-- if collecting it failed.
pub handle_request-AnswerFor :
    (http : HeaderMaps) (Incoming : Type 0) (lru : LruCache (CachedAsset http.HeaderMap))
    (files : CertificateFiles) (outside : Outside http Incoming) (clock : Clock)
    (peer_addr : SocketAddr) (is_proxy_protocol : Bool) (req : Request http Incoming)
    (shared : Shared http Incoming lru files) (handled : Handled http Incoming lru files)
    (sent : Request http (BoxBody Incoming))
    → handle_request http Incoming lru files outside clock peer_addr is_proxy_protocol req shared
      ≡ some handled
    → handled.sent ≡ some sent
    → (answer : Answer http Incoming) × (handled.result ≡ ok answer)
      × AnswerFor http Incoming outside.canonical_reason outside.collect
          (outside.upstream sent)
          answer
handle_request-AnswerFor http Incoming lru files outside clock peer_addr is_proxy_protocol req
      shared handled sent h k =
    let f =
      handle_request-Forwards http Incoming lru files outside clock peer_addr is_proxy_protocol req
        shared handled sent h k in
    let result =
      ap (λ x. x.result) f.ends
      ∙ finish-result http Incoming outside.canonical_reason outside.collect lru files sent _
          f.left in
    (
      _,
      result,
      answer_of_client-AnswerFor http Incoming outside.canonical_reason outside.collect _
          (outside.upstream sent),
    )
