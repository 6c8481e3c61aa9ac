-- ===== src/Cache/StaticAssets.antt =====
-- src/cache.rs: which paths and content types are cached, the free functions at the file's end.
use barebones_reverse_proxy.Prelude.{
  Bool, true, false, ◌||◌, Option, none, some, List, [], ◌∷◌, if◌then◌else◌, Text, lit, text_eq,
  to_lowercase, ends_with, contains,
}

abbrev pub ends_with_any : List Text → Text → Bool
ends_with_any [] s = false
ends_with_any (p ∷ ps) s = ends_with p s || ends_with_any ps s

abbrev pub contains_any : List Text → Text → Bool
contains_any [] s = false
contains_any (p ∷ ps) s = contains p s || contains_any ps s

unfoldable pub is_uncacheable_entrypoint : Text → Bool
is_uncacheable_entrypoint path =
    let lower_path = to_lowercase path in
    ends_with (lit "sw.js") lower_path
    || contains (lit "service-worker") lower_path
    || contains (lit "registersw") lower_path
    || contains (lit "workbox") lower_path
    || ends_with (lit ".webmanifest") lower_path
    || ends_with (lit ".html") lower_path
    || text_eq lower_path (lit "/")

abbrev pub static_extensions : List Text
static_extensions =
    lit ".css"
    ∷ lit ".js"
    ∷ lit ".png"
    ∷ lit ".jpg"
    ∷ lit ".jpeg"
    ∷ lit ".svg"
    ∷ lit ".ico"
    ∷ lit ".woff2"
    ∷ lit ".woff"
    ∷ lit ".ttf"
    ∷ lit ".webp"
    ∷ lit ".json"
    ∷ lit ".wasm"
    ∷ []

abbrev pub static_types : List Text
static_types =
    lit "text/css"
    ∷ lit "application/javascript"
    ∷ lit "text/javascript"
    ∷ lit "image/"
    ∷ lit "font/"
    ∷ lit "application/wasm"
    ∷ []

unfoldable pub is_static_asset : Text → Option Text → Bool
is_static_asset path content_type =
    if is_uncacheable_entrypoint path
    then false
    else if ends_with_any static_extensions (to_lowercase path)
    then true
    else elim content_type [
      | none ↦ false
      | some ct ↦
          if contains (lit "text/html") (to_lowercase ct)
          then false
          else contains_any static_types (to_lowercase ct)
    ]
