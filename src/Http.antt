-- ===== src/Http.antt =====
-- What src/auth.rs, src/error_pages.rs and src/proxy.rs use of the crates http and hyper: an interface
-- to the maps of headers with its documented behaviour, the parts of a URI, requests and responses.
-- The names of headers are in lower case, as the crate keeps them.
pub mod Listed
use barebones_reverse_proxy.Prelude.{
  ℕ, ◌≡◌, Bool, true, false, ◌&&◌, Option, none, some, List, [], ◌∷◌, ◌++◌, if◌then◌else◌, ◌>>=?◌,
  unwrap_or, Text, lit, text_eq, ltb, leb,
}

-- The values of one name among entries, in their order.
unfoldable pub values_of : {V : Type 0} → Text → List (Text × V) → List V
values_of name [] = []
values_of name ((n, v) ∷ entries) =
    let rest = values_of name entries in if text_eq n name then v ∷ rest else rest

-- What the crate documents of `HeaderMap`: a name has a list of values, `insert` replaces them all by
-- one, `append` adds one behind them, and `iter` gives every value, those of one name in their order.
pub record HeaderMaps : Type 1 where
  pub HeaderMap : Type 0
  pub HeaderValue : Type 0
  pub to_str : HeaderValue → Option Text
  pub from_str : Text → Option HeaderValue
  pub from_static : Text → HeaderValue
  pub new : HeaderMap
  pub get_all : Text → HeaderMap → List HeaderValue
  pub insert : Text → HeaderValue → HeaderMap → HeaderMap
  pub append : Text → HeaderValue → HeaderMap → HeaderMap
  pub iter : HeaderMap → List (Text × HeaderValue)
  pub new_values : (name : Text) → get_all name new ≡ []
  pub insert_values :
      (name key : Text) (v : HeaderValue) (m : HeaderMap)
      → get_all key (insert name v m) ≡ (if text_eq name key then v ∷ [] else get_all key m)
  pub append_values :
      (name key : Text) (v : HeaderValue) (m : HeaderMap)
      → get_all key (append name v m)
        ≡ (if text_eq name key then get_all key m ++ (v ∷ []) else get_all key m)
  pub iter_values : (name : Text) (m : HeaderMap) → values_of name (iter m) ≡ get_all name m

-- The parts of a `Uri` that are read.
pub record Uri : Type 0 where
  pub authority : Option Text
  pub path : Text
  pub query : Option Text
  pub path_and_query : Option Text

abbrev pub first_of : {V : Type 0} → List V → Option V
first_of [] = none
first_of (v ∷ vs) = some v

pub data Version : Type 0 where
  http_09 http_10 http_11 http_2 http_3 : Version

module _ (http : HeaderMaps) where
  open http use {HeaderMap, HeaderValue, to_str, get_all}

  pub record Response (Body : Type 0) : Type 0 where
    pub status : ℕ
    pub headers : HeaderMap
    pub body : Body

  pub record Request (Body : Type 0) : Type 0 where
    pub method : Text
    pub uri : Uri
    pub version : Version
    pub headers : HeaderMap
    pub body : Body

  -- `headers.get(name)`.
  abbrev pub header : Text → HeaderMap → Option HeaderValue
  header name headers = first_of (get_all name headers)

  -- `headers.get(name).and_then(|v| v.to_str().ok())`.
  abbrev pub header_text : Text → HeaderMap → Option Text
  header_text name headers = header name headers >>=? to_str
