-- ===== src/Proxy/Tests.antt =====
-- src/proxy.rs: the theorems at concrete inputs.
use barebones_reverse_proxy.Prelude.{
  ℕ, ◌≡◌, ◌⊎◌, Option, Result, refl, true, false, none, some, List, [], ◌∷◌, ok, err, Text, arith,
  is_some,
}
use barebones_reverse_proxy.Prelude.{
  lit, text_eq, ends_with, contains, starts_with, to_lowercase, trim, before_char, usize_add,
  insert,
}
use barebones_reverse_proxy.Net.{parse_ip}
use barebones_reverse_proxy.Net.Display.{digits, ipv4_to_string, ip_to_string}
use barebones_reverse_proxy.Security.{
  recent, cleanup, check_and_record_request, is_blacklisted, with_lock,
}
use barebones_reverse_proxy.Http.{values_of}
use barebones_reverse_proxy.Lru.{lookup, touch}
use barebones_reverse_proxy.Cache.{get, evict, store, insert as cache_insert}
use barebones_reverse_proxy.Cache.StaticAssets.{is_uncacheable_entrypoint, is_static_asset}
use barebones_reverse_proxy.Router.{
  should_intercept_errors, without_scheme, extract_host_port, extract_path, match_route,
}
use barebones_reverse_proxy.Proxy.{
  ip_part, exceeds, first_client_ip, client_ip_of, host_of, content_length, no_response_444,
}
use barebones_reverse_proxy.Proxy.Forwarding.{
  original_host, forwarded_for, forwarded_headers, build_forwarded,
}
use barebones_reverse_proxy.Proxy.Answering.{
  is_no_store, exceeds_max_file_size, is_stored, store_answer, answer_of_upstream, answer_of_client,
}
use barebones_reverse_proxy.Proxy.Screening.{screen, login}
use barebones_reverse_proxy.Proxy.Handling.{
  route_cache_enabled, cache_key, cache_engine_for, look_up, finish, proxied, missed, admitted,
  handle_request, run_task,
}
use barebones_reverse_proxy.Net.{v4}
use barebones_reverse_proxy.Http.Listed.{Headers, listed}
use barebones_reverse_proxy.Http.{header_text, Request, Response}
use barebones_reverse_proxy.Security.{SecurityManagerInner, unlocked}
use barebones_reverse_proxy.Security.Checks.{is_banned}
use barebones_reverse_proxy.Cache.Accounting.{IsValid}
use barebones_reverse_proxy.Cache.Insert.{new_asset}
use barebones_reverse_proxy.Auth.{SubRequest}
use barebones_reverse_proxy.Proxy.{Answer, BoxBody, ip_headers}
use barebones_reverse_proxy.Proxy.Answering.{insertion}
use barebones_reverse_proxy.Proxy.Handling.{
  Handled, Shared, decided, hit_answer, path_and_query_of, client_ip_for, is_cacheable_method,
}
use barebones_reverse_proxy.Proxy.Screened.{unlisted}
use barebones_reverse_proxy.Proxy.Sent.{Sent, handle_request-Sent}
use barebones_reverse_proxy.Proxy.Answered.{AnswerFor, handle_request-AnswerFor}
use barebones_reverse_proxy.Proxy.Stored.{handle_request-Storable}
use barebones_reverse_proxy.Proxy.Refused.{handle_request-banned, handle_request-over_limit}
use barebones_reverse_proxy.Proxy.Hits.{insertion-hit}
use barebones_reverse_proxy.Proxy.Kept.{Leaves}
use barebones_reverse_proxy.Proxy.Awaited.{Asks, answering, handle_request-answers}
use barebones_reverse_proxy.Proxy.Runs.{
  Servable, Running, Reaches, starts, steps, serves, runs, Reaches-Servable,
}
use barebones_reverse_proxy.Proxy.Forwarded.{Forwarded, build_forwarded-Forwarded}
use barebones_reverse_proxy.Proxy.ClientIp.{Outcome, client_ip_of-Outcome, client_ip_of-ipv4}
use barebones_reverse_proxy.Proxy.Samples.{
  Bytes, lru, no_files, parse_uri, style, outside, clock, peer, request, manager, busy, engine,
  active, shared, handled, sent, client_ip, style_key, stored_style, matched, built,
}

handled_run :
    handle_request listed Bytes lru no_files outside clock peer false request (shared none false [])
    ≡ some handled
unfolding parse_ip digits ipv4_to_string ip_to_string recent cleanup check_and_record_request
    is_blacklisted with_lock client_ip_of screen handle_request
handled_run = refl

sent_run : handled.sent ≡ some sent
unfolding lit text_eq ends_with contains to_lowercase parse_ip digits ipv4_to_string ip_to_string
    recent cleanup check_and_record_request is_blacklisted with_lock values_of lookup get
    is_uncacheable_entrypoint is_static_asset should_intercept_errors match_route exceeds
    client_ip_of host_of content_length original_host forwarded_for forwarded_headers
    build_forwarded is_no_store exceeds_max_file_size is_stored store_answer answer_of_upstream
    answer_of_client screen login route_cache_enabled cache_engine_for look_up finish proxied missed
    admitted handle_request
sent_run = refl

spawned_run : handled.spawned ≡ some (insertion style_key 200 style.headers style.body)
unfolding lit text_eq ends_with contains to_lowercase parse_ip digits ipv4_to_string ip_to_string
    recent cleanup check_and_record_request is_blacklisted with_lock values_of lookup get
    is_uncacheable_entrypoint is_static_asset should_intercept_errors match_route exceeds
    client_ip_of host_of content_length original_host forwarded_for forwarded_headers
    build_forwarded is_no_store exceeds_max_file_size is_stored store_answer answer_of_upstream
    answer_of_client screen login route_cache_enabled cache_key cache_engine_for look_up finish
    proxied missed admitted handle_request
spawned_run = refl

parsed_run : parse_ip (client_ip_for listed Bytes lru no_files peer false request) ≡ some peer.ip
unfolding parse_ip digits ipv4_to_string ip_to_string client_ip_of
parsed_run = refl

built_run : build_forwarded listed parse_uri matched client_ip 10 [] request ≡ ok built
unfolding lit text_eq values_of original_host forwarded_for forwarded_headers build_forwarded
built_run = refl

over_run : (check_and_record_request peer.ip 6 (unlisted peer.ip clock busy)).0 ≡ err 2
unfolding insert recent cleanup check_and_record_request is_blacklisted
over_run = refl

handle_request-Sent_example :
    Sent listed Bytes lru no_files outside clock peer.ip
      (client_ip_for listed Bytes lru no_files peer false request)
      request
      (manager none 60)
      (active false [])
      handled
      sent
handle_request-Sent_example =
    handle_request-Sent listed Bytes lru no_files outside clock peer false request (manager none 60)
      (active false []) handled sent peer.ip parsed_run handled_run sent_run

handle_request-AnswerFor_example :
    (answer : Answer listed Bytes) × (handled.result ≡ ok answer)
    × AnswerFor listed Bytes outside.canonical_reason outside.collect (outside.upstream sent) answer
handle_request-AnswerFor_example =
    handle_request-AnswerFor listed Bytes lru no_files outside clock peer false request
      (shared none false []) handled sent handled_run sent_run

handle_request-Storable_example :
    (resp : Response listed Bytes) × (outside.upstream sent ≡ ok resp)
    × (style_key
        ≡ cache_key (host_of listed request.uri request.headers) (path_and_query_of request.uri))
    × ◌≡◌ {A = ℕ} 200 200
    × (200 ≡ resp.status)
    × (style.headers ≡ resp.headers)
    × (outside.collect resp.body ≡ some style.body)
    × (is_static_asset
          (path_and_query_of request.uri)
          (header_text listed (lit "content-type") resp.headers)
        ≡ true)
    × (is_no_store listed resp.headers ≡ false)
    × (is_cacheable_method request.method ≡ true)
    × (is_some (active false []).cache_engine ≡ true)
handle_request-Storable_example =
    handle_request-Storable listed Bytes lru no_files outside clock peer false request
      (shared none false []) handled sent style_key 200 style.headers style.body handled_run
      sent_run spawned_run

handle_request-banned_example :
    handle_request listed Bytes lru no_files outside clock peer false request
      (shared (some 9) false [])
    ≡ some (
        decided listed Bytes lru no_files (ok (no_response_444 listed Bytes)) (record {
          security_manager = unlocked (unlisted peer.ip clock (manager (some 9) 60));
          active_config = active false [];
        }))
unfolding is_banned insert
handle_request-banned_example =
    handle_request-banned listed Bytes lru no_files outside clock peer false request
      (manager (some 9) 60) (active false []) peer.ip parsed_run refl

handle_request-over_limit_example :
    (handled : Handled listed Bytes lru no_files) × (answer : Answer listed Bytes) × (handle_request
        listed Bytes lru no_files outside clock peer false request
        (record { security_manager = unlocked busy; active_config = active false [] })
      ≡ some handled)
    × (handled.result ≡ ok answer)
    × (answer.status ≡ 429)
    × (values_of (lit "retry-after") answer.headers ≡ lit "60" ∷ [])
    × (handled.sent ≡ none)
    × (handled.spawned ≡ none)
    × (handled.shared.active_config ≡ active false [])
unfolding is_banned
handle_request-over_limit_example =
    handle_request-over_limit listed Bytes lru no_files outside clock peer false request busy
      (active false []) peer.ip parsed_run 2 refl over_run

-- A login service and an upstream that fail, and a body that does not arrive.
abbrev refusing_service : SubRequest listed Bytes → Result (Response listed Bytes) Text
refusing_service _ = err []

abbrev refusing_upstream : Request listed (BoxBody Bytes) → Result (Response listed Bytes) Text
refusing_upstream _ = err []

abbrev uncollected : Bytes → Option (List ℕ)
uncollected _ = none

handle_request-answers_example :
    (handled : Handled listed Bytes lru no_files) × (s : SecurityManagerInner) × (handle_request
        listed Bytes lru no_files outside clock peer false request
        (record { security_manager = unlocked busy; active_config = active false [] })
      ≡ some handled)
    × Leaves listed Bytes lru no_files
        (record { security_manager = unlocked s; active_config = active false [] })
        handled
    × (Asks listed Bytes lru no_files
          (match_route
            (active false []).router
            (host_of listed request.uri request.headers)
            request.uri.path)
          handled
        ⊎ (handle_request listed Bytes lru no_files
              (answering listed Bytes lru no_files outside refusing_service refusing_upstream
                uncollected)
              clock
              peer
              false
              request
              (record { security_manager = unlocked busy; active_config = active false [] })
            ≡ some handled))
handle_request-answers_example =
    handle_request-answers listed Bytes lru no_files outside refusing_service refusing_upstream
      uncollected clock peer false request busy (active false [])

engine-IsValid : IsValid lru 0 (engine [])
engine-IsValid = record {
  accounted = refl;
  within = omega arith;
  half = omega arith;
  capped = omega arith;
  small_cap = omega arith;
}

abbrev other_host : Text
other_host = lit "other"

abbrev dated : Headers
dated = (lit "cache-control", lit "max-age=0") ∷ style.headers

-- No route is for that host.
unrouted : match_route (active false []).router other_host request.uri.path ≡ none
unfolding lit text_eq starts_with match_route without_scheme extract_host_port extract_path
unrouted = refl

insertion-hit_example :
    (left : Shared listed Bytes lru no_files) × (admitted listed Bytes lru no_files outside clock
        client_ip other_host request
        (run_task listed Bytes lru no_files
          (insertion (cache_key other_host (path_and_query_of request.uri)) 200 dated style.body)
          5
          (shared none false []))
      ≡ decided listed Bytes lru no_files
          (ok (
            hit_answer listed Bytes lru no_files (
              new_asset lru 0
                (engine [])
                engine-IsValid
                (cache_key other_host (path_and_query_of request.uri))
                200
                dated
                style.body
                none
                5)))
          left)
unfolding lit text_eq contains values_of match_route exceeds content_length route_cache_enabled
    run_task
insertion-hit_example =
    insertion-hit listed Bytes lru no_files outside clock client_ip other_host request
      (shared none false []) 0 (engine []) engine-IsValid 200 dated style.body 5 refl (omega arith)
      (omega arith) refl refl (omega arith) (omega arith) refl refl refl

abbrev idle : Running listed Bytes lru no_files
idle = record { shared = shared none false []; pending = [] }

abbrev served : Running listed Bytes lru no_files
served = record {
  shared = handled.shared;
  pending = insertion style_key 200 style.headers style.body ∷ [];
}

abbrev filled : Running listed Bytes lru no_files
filled = record {
  shared =
      run_task listed Bytes lru no_files (insertion style_key 200 style.headers style.body) 7
        handled.shared;
  pending = [];
}

reached : Reaches listed Bytes lru no_files idle filled
unfolding lit text_eq ends_with contains to_lowercase parse_ip digits ipv4_to_string ip_to_string
    recent cleanup check_and_record_request is_blacklisted with_lock values_of lookup get
    is_uncacheable_entrypoint is_static_asset should_intercept_errors match_route exceeds
    client_ip_of host_of content_length original_host forwarded_for forwarded_headers
    build_forwarded is_no_store exceeds_max_file_size is_stored store_answer answer_of_upstream
    answer_of_client screen login route_cache_enabled cache_key cache_engine_for look_up finish
    proxied missed admitted handle_request
reached =
    steps (steps starts (serves idle outside clock peer false request handled handled_run))
      (runs served [] [] (insertion style_key 200 style.headers style.body) 7 refl)

Reaches-Servable_example : Servable listed style_key 200 style.headers
unfolding lit text_eq ends_with contains to_lowercase usize_add parse_ip digits ipv4_to_string
    ip_to_string recent cleanup check_and_record_request is_blacklisted with_lock values_of touch
    get evict store cache_insert is_uncacheable_entrypoint is_static_asset should_intercept_errors
    match_route exceeds client_ip_of host_of content_length original_host forwarded_for
    forwarded_headers build_forwarded is_no_store exceeds_max_file_size is_stored store_answer
    answer_of_upstream answer_of_client screen login route_cache_enabled cache_engine_for look_up
    finish proxied missed admitted handle_request run_task
Reaches-Servable_example =
    Reaches-Servable listed Bytes lru no_files idle filled
      (cache_insert lru (engine []) style_key 200 style.headers style.body none 7).1 style_key 8
      (record stored_style { created_at = 7 }) refl tt reached refl refl

build_forwarded-Forwarded_example : Forwarded listed parse_uri matched client_ip 10 [] request built
build_forwarded-Forwarded_example =
    build_forwarded-Forwarded listed parse_uri matched client_ip 10 [] request built built_run

abbrev claims : List (Text × Text)
claims = (lit "x-forwarded-for", lit " 10.1.2.3 , 9.9.9.9") ∷ []

client_ip_of-Outcome_example :
    Outcome listed claims client_ip ip_headers (client_ip_of listed true claims client_ip)
client_ip_of-Outcome_example = client_ip_of-Outcome listed claims client_ip

client_ip_of-ipv4_example :
    is_some (parse_ip (client_ip_of listed true claims (ip_to_string (v4 2_130_706_433)))) ≡ true
client_ip_of-ipv4_example = client_ip_of-ipv4 listed claims true 2_130_706_433 (omega arith)

client_ip_run : client_ip_of listed true claims client_ip ≡ lit "10.1.2.3"
unfolding lit text_eq trim before_char parse_ip values_of ip_part first_client_ip client_ip_of
client_ip_run = refl
