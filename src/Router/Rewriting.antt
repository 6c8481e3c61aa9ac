-- ===== src/Router/Rewriting.antt =====
-- src/router.rs, `extract_host_port`, `extract_path` and the rewritten path of a match.
use barebones_reverse_proxy.Prelude.{
  ◌≡◌, inl, inr, refl, ap, ◌∙◌, Bool, true, false, ◌||◌, ◌∷◌, ◌++◌, if◌then◌else◌, Text, lit,
  Bool-cases, strip_prefix, starts_with, contains_char, before_char, drop-append, arith,
  starts_with_iff, contains_char-append, contains_char-before_char, before_char-append,
  from_char-append,
}
use barebones_reverse_proxy.Config.{Route}
use barebones_reverse_proxy.Router.{without_scheme, extract_host_port, extract_path, rewrite_path}

-- The port that a scheme stands for.
abbrev pub default_port : Text → Text
default_port endpoint = if starts_with (lit "https://") endpoint then lit ":443" else lit ":80"

-- For every endpoint the address to connect to has a colon and no slash.
pub extract_host_port_port :
    (endpoint : Text)
    → (contains_char b':' (extract_host_port endpoint) ≡ true)
      × (contains_char b'/' (extract_host_port endpoint) ≡ false)
unfolding extract_host_port
extract_host_port_port endpoint =
    let h = before_char b'/' (without_scheme endpoint) in
    let no_slash = contains_char-before_char b'/' (without_scheme endpoint) in
    elim (Bool-cases (contains_char b':' h)) [
      | inl port ↦ rw port (port, no_slash)
      | inr no_port ↦ rw no_port (elim (Bool-cases (starts_with (lit "https://") endpoint)) [
        | inl s ↦ rw s (
            with_port h no_slash (lit ":443") (unfold contains_char lit in refl)
              (unfold contains_char lit in refl))
        | inr s ↦ rw s (
            with_port h no_slash (lit ":80") (unfold contains_char lit in refl)
              (unfold contains_char lit in refl))
      ])
    ]
  where
    with_port :
        (h : Text)
        → contains_char b'/' h ≡ false
        → (port : Text) → contains_char b':' port ≡ true
        → contains_char b'/' port ≡ false
        → (contains_char b':' (h ++ port) ≡ true) × (contains_char b'/' (h ++ port) ≡ false)
    with_port h no_slash port colon plain = (
      rw (contains_char-append b':' h port, colon) (ground arith),
      rw (contains_char-append b'/' h port, no_slash, plain),
    )

-- `http://` or `https://`.
pub data Scheme : Type 0 where
  http https : Scheme

abbrev pub scheme_text : Scheme → Text
scheme_text http = lit "http://"
scheme_text https = lit "https://"

without_scheme_lem :
    (scheme : Scheme) (rest : Text) → without_scheme (scheme_text scheme ++ rest) ≡ rest
unfolding without_scheme strip_prefix lit
without_scheme_lem http rest = refl
without_scheme_lem https rest = refl

extract_path_lem :
    (scheme : Scheme) (host path : Text)
    → contains_char b'/' host ≡ false
    → extract_path (scheme_text scheme ++ (host ++ (b'/' ∷ path))) ≡ b'/' ∷ path
unfolding extract_path
extract_path_lem scheme host path h =
    rw (without_scheme_lem scheme (host ++ (b'/' ∷ path)), from_char-append b'/' host path h)

-- For a route whose request endpoint is a scheme, a host without a slash and a path, a request path
-- that begins with that path is rewritten to the forward endpoint's path with the rest of the
-- request path behind it.
pub rewrite_path_lem :
    (route : Route) (scheme : Scheme) (host prefix rest : Text)
    → route.request_endpoint ≡ scheme_text scheme ++ (host ++ (b'/' ∷ prefix))
    → contains_char b'/' host ≡ false
    → rewrite_path route (b'/' ∷ (prefix ++ rest)) ≡ extract_path route.forward_endpoint ++ rest
unfolding rewrite_path
rewrite_path_lem route scheme host prefix rest e h =
    let p : extract_path route.request_endpoint ≡ b'/' ∷ prefix =
      ap extract_path e ∙ extract_path_lem scheme host prefix h in
    simp (
      p,
      (starts_with_iff (b'/' ∷ prefix) (b'/' ∷ (prefix ++ rest))).1 (rest, refl),
      drop-append (b'/' ∷ prefix) rest,
    )

-- An endpoint that is a scheme, a host and a port without a slash, and a path, is taken apart into
-- the host with the port and the path.
pub host_port-path :
    (scheme : Scheme) (host port path : Text)
    → contains_char b'/' host ≡ false
    → contains_char b'/' port ≡ false
    → (extract_host_port (scheme_text scheme ++ ((host ++ (b':' ∷ port)) ++ (b'/' ∷ path)))
        ≡ host ++ (b':' ∷ port))
      × (extract_path (scheme_text scheme ++ ((host ++ (b':' ∷ port)) ++ (b'/' ∷ path)))
          ≡ b'/' ∷ path)
unfolding extract_host_port
host_port-path scheme host port path h p =
    let authority = host ++ (b':' ∷ port) in
    let plain : contains_char b'/' authority ≡ false =
      rw (contains_char-append b'/' host (b':' ∷ port), h) (slash_free port p) in
    let colon : contains_char b':' authority ≡ true =
      rw (contains_char-append b':' host (b':' ∷ port))
        (colon_head (contains_char b':' host) port) in
    (
      rw (
        without_scheme_lem scheme (authority ++ (b'/' ∷ path)),
        before_char-append b'/' authority path plain,
        colon,
      ),
      extract_path_lem scheme authority path plain,
    )
  where
    slash_free :
        (t : Text) → contains_char b'/' t ≡ false → (false || contains_char b'/' (b':' ∷ t)) ≡ false
    slash_free t e = unfold contains_char in e

    colon_head : (b : Bool) (t : Text) → (b || contains_char b':' (b':' ∷ t)) ≡ true
    colon_head b t = unfold contains_char in ground arith
