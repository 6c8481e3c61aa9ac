-- ===== src/Proxy/Answering.antt =====
-- src/proxy.rs: what the upstream's answer becomes, and what of it is to be cached.
use barebones_reverse_proxy.Prelude.{
  ℕ, Bool, false, not, ◌&&◌, ◌||◌, ◌==◌, Option, none, some, List, [], ◌++◌, if◌then◌else◌,
  unwrap_or, is_some, Result, ok, err, Text, lit, contains,
}
use barebones_reverse_proxy.Http.{HeaderMaps, Response, header_text}
use barebones_reverse_proxy.Router.{MatchedRoute, should_intercept_errors}
use barebones_reverse_proxy.Cache.StaticAssets.{is_static_asset}
use barebones_reverse_proxy.Proxy.{
  full, is_error, content_length, exceeds, Answer, boxed, error_response, with_security_headers,
  with_inserted,
}

module _ (http : HeaderMaps) where
  open http use {HeaderMap}

  -- A task that is spawned: the bytes are copied between the two upgraded connections, or an entry
  -- goes into the cache.
  pub data Task : Type 0 where
    tunnel : Text → Task
    insertion : Text → ℕ → HeaderMap → List ℕ → Task

  -- What is known of a request when the upstream answers it.
  pub record Asked : Type 0 where
    pub client_ip : Text
    pub host : Text
    pub path_and_query : Text
    pub cache_key : Text
    pub headers : HeaderMap
    pub upgrade_requested : Bool
    pub matched : MatchedRoute
    pub global_intercept_errors : Bool
    pub max_file_size : Option ℕ

  -- `is_no_store`.
  unfoldable pub is_no_store : HeaderMap → Bool
  is_no_store headers =
      let cache_control = unwrap_or (header_text http (lit "cache-control") headers) [] in
      contains (lit "no-store") cache_control || contains (lit "private") cache_control

  unfoldable pub exceeds_max_file_size : Option ℕ → HeaderMap → Bool
  exceeds_max_file_size none headers = false
  exceeds_max_file_size (some limit) headers = exceeds (content_length http headers) limit

  -- The condition of the branch that stores; `max_file_size` is that of the engine, if there is
  -- one for the request.
  unfoldable pub is_stored : Asked → ℕ → HeaderMap → Bool
  is_stored asked status headers =
      is_static_asset asked.path_and_query (header_text http (lit "content-type") headers)
      && not (is_no_store headers)
      && not (exceeds_max_file_size asked.max_file_size headers)
      && status == 200
      && is_some asked.max_file_size

  module _ (Incoming : Type 0) where
    -- What the handler goes on with, or returns at once, with what is spawned.
    pub data Flow : Type 0 where
      reached returned : Answer http Incoming → Option Task → Flow

    unfoldable pub store_answer :
        (Incoming → Option (List ℕ)) → Text → Response http Incoming → Flow
    store_answer collect cache_key resp = elim (collect resp.body) [
      | none ↦
          reached (record { status = resp.status; headers = resp.headers; body = full [] }) none
      | some bytes ↦
          reached
            (with_inserted http Incoming (lit "x-proxy-cache") (lit "MISS")
              (record { status = resp.status; headers = resp.headers; body = full bytes }))
            (some (insertion cache_key resp.status resp.headers bytes))
    ]

    unfoldable pub answer_of_upstream :
        (ℕ → Option Text) → (Incoming → Option (List ℕ)) → Asked → Response http Incoming → Flow
    answer_of_upstream canonical_reason collect asked resp =
        if resp.status == 101 && asked.upgrade_requested
        then reached (boxed http Incoming resp) (some (tunnel asked.matched.upstream_addr))
        else if should_intercept_errors asked.matched asked.global_intercept_errors
            && is_error resp.status
        then (let reason = unwrap_or (canonical_reason resp.status) (lit "Error") in
            returned
              (with_security_headers http Incoming (
                error_response http Incoming canonical_reason resp.status
                  (lit "Upstream server returned error: " ++ reason) asked.client_ip asked.host
                  asked.headers))
              none)
        else if is_stored asked resp.status resp.headers
        then store_answer collect asked.cache_key resp
        else reached
            (with_inserted http Incoming (lit "x-proxy-cache") (lit "BYPASS")
              (boxed http Incoming resp))
            none

    unfoldable pub answer_of_client :
        (ℕ → Option Text)
        → (Incoming → Option (List ℕ))
        → Asked
        → Result (Response http Incoming) Text
        → Flow
    answer_of_client canonical_reason collect asked (ok resp) =
        answer_of_upstream canonical_reason collect asked resp
    answer_of_client canonical_reason collect asked (err e) =
        reached
          (error_response http Incoming canonical_reason 502
            (lit "The proxy was unable to connect to the upstream backend server.") asked.client_ip
            asked.host asked.headers)
          none
