-- ===== src/Proxy.antt =====
-- src/proxy.rs: what the request handler reads off a request, and the answers it makes itself.
-- Bodies that arrive are of an abstract type `Incoming`. The log and the clock readings that only
-- the log uses are not modelled.
pub mod Forwarding
pub mod Answering
pub mod Screening
pub mod Handling
pub mod Screened
pub mod Branches
pub mod Sent
pub mod Answered
pub mod Stored
pub mod Hits
pub mod ClientIp
pub mod Kept
pub mod Awaited
pub mod Samples
mod Tests
pub mod Runs
pub mod Refused
pub mod Forwarded
use barebones_reverse_proxy.Prelude.{
  ℕ, ◌*◌, Bool, true, false, ◌&&◌, Option, none, some, List, [], ◌∷◌, ◌++◌, if◌then◌else◌, ◌>>=?◌,
  unwrap_or, is_some, any, Text, lit, text_eq, split_where, before_char, trim, to_lowercase, ◌==◌,
  ◌||◌, leb, ltb, word_mod, Result, ok, err,
}
use barebones_reverse_proxy.Net.{parse_ip, parse_uint}
use barebones_reverse_proxy.Config.{SecurityConfig}
use barebones_reverse_proxy.Http.{HeaderMaps, Uri, Response, Request, header, header_text}
use barebones_reverse_proxy.ErrorPages.{build_error_response}

-- `BoxBody`: a whole body, one that is passed on as it arrives, or one that fails past a number of
-- bytes.
pub data BoxBody (Incoming : Type 0) : Type 0 where
  full : List ℕ → BoxBody Incoming
  incoming : Incoming → BoxBody Incoming
  limited : Incoming → ℕ → BoxBody Incoming

-- The errors that end in `Err` of the handler.
pub data BoxError : Type 0 where
  invalid_uri invalid_header_value to_str_error : BoxError

-- The client's address as a header gives it.
unfoldable pub ip_part : Text → Text → Text
ip_part name value =
    if text_eq name (lit "x-forwarded-for") then trim (before_char b',' value) else trim value

abbrev pub ip_headers : List Text
ip_headers = lit "cf-connecting-ip" ∷ lit "true-client-ip" ∷ lit "x-forwarded-for" ∷ []

-- `status.is_client_error() || status.is_server_error()`.
abbrev pub is_error : ℕ → Bool
is_error status = (leb 400 status && ltb status 500) || (leb 500 status && ltb status 600)

unfoldable pub max_body_size : Option SecurityConfig → ℕ
max_body_size none = 10 * 1024 * 1024
max_body_size (some s) = s.max_body_size

unfoldable pub exceeds : Option ℕ → ℕ → Bool
exceeds none limit = false
exceeds (some cl) limit = ltb limit cl

module _ (http : HeaderMaps) where
  open http use {HeaderMap, get_all, to_str, insert, append, from_static}

  -- The loop over the three headers, behind the address of the connection.
  unfoldable pub first_client_ip : List Text → HeaderMap → Text → Text
  first_client_ip [] headers peer = peer
  first_client_ip (name ∷ names) headers peer =
      let rest = first_client_ip names headers peer in
      elim (header_text http name headers) [
        | none ↦ rest
        | some value ↦ if is_some (parse_ip (ip_part name value)) then ip_part name value else rest
      ]

  unfoldable pub client_ip_of : Bool → HeaderMap → Text → Text
  client_ip_of is_proxy_protocol headers peer =
      if is_proxy_protocol then first_client_ip ip_headers headers peer else peer

  unfoldable pub host_of : Uri → HeaderMap → Text
  host_of uri headers = elim uri.authority [
    | some authority ↦ authority
    | none ↦ unwrap_or (header_text http (lit "host") headers) []
  ]

  abbrev pub is_upgrade_token : Text → Bool
  is_upgrade_token token = text_eq (to_lowercase (trim token)) (lit "upgrade")

  abbrev pub is_comma : ℕ → Bool
  is_comma c = c == b','

  unfoldable pub is_upgrade_request : HeaderMap → Bool
  is_upgrade_request headers =
      let connection_wants_upgrade : Bool = elim (header_text http (lit "connection") headers) [
        | none ↦ false
        | some v ↦ any is_upgrade_token (split_where is_comma v)
      ] in
      is_some (header http (lit "upgrade") headers) && connection_wants_upgrade

  -- The number in a `content-length` header.
  unfoldable pub content_length : HeaderMap → Option ℕ
  content_length headers = header_text http (lit "content-length") headers >>=? parse_uint word_mod

  unfoldable pub inject_security_headers : HeaderMap → HeaderMap
  inject_security_headers headers = insert (lit "x-xss-protection") (from_static (lit "0")) (
      insert (lit "x-frame-options") (from_static (lit "DENY")) (
        insert (lit "x-content-type-options") (from_static (lit "nosniff")) (
          insert (lit "strict-transport-security")
            (from_static (lit "max-age=63072000; includeSubDomains; preload")) headers)))

  module _ (Incoming : Type 0) where
    abbrev pub Answer : Type 0
    Answer = Response http (BoxBody Incoming)

    abbrev pub boxed : Response http Incoming → Answer
    boxed resp = record { status = resp.status; headers = resp.headers; body = incoming resp.body }

    unfoldable pub no_response_444 : Answer
    no_response_444 = record {
      status = 444;
      headers = append (lit "connection") (from_static (lit "close")) http.new;
      body = full [];
    }

    unfoldable pub error_response : (ℕ → Option Text) → ℕ → Text → Text → Text → HeaderMap → Answer
    error_response canonical_reason status message client_ip host headers =
        let resp =
          build_error_response http canonical_reason status message client_ip host (some headers) in
        record { status = resp.status; headers = resp.headers; body = full resp.body }

    abbrev pub with_security_headers : Answer → Answer
    with_security_headers resp = record resp { headers = inject_security_headers resp.headers }

    -- `resp.headers_mut().insert(name, value)`.
    abbrev pub with_inserted : Text → Text → Answer → Answer
    with_inserted name value resp = record resp {
      headers = insert name (from_static value) resp.headers;
    }
