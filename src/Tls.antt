-- ===== src/Tls.antt =====
-- src/tls.rs: the certificate of each host name. The files and the crates that read certificates are
-- the interface `CertificateFiles`; an acceptor is its resolver.
pub mod Resolving
mod Tests
use barebones_reverse_proxy.Prelude.{
  Bool, true, false, not, Option, none, some, List, [], ◌∷◌, ◌++◌, if◌then◌else◌, ◌>>=?◌, Result,
  ok, err, ok_or, is_empty, retain, Text, lit, text_eq, text_eq_iff, strip_prefix, starts_with,
  before_char, Eq, HashMap, empty, insert,
}
use barebones_reverse_proxy.Prelude.{◌>>=!◌ as ◌>>=◌}
use barebones_reverse_proxy.Config.{Route}
use barebones_reverse_proxy.Error.{ProxyError, tls_error}

-- `File::open`, the crate `rustls_pemfile`, and `CertifiedKey::from_der`; an error is its text.
pub record CertificateFiles : Type 1 where
  pub File : Type 0
  pub Chain : Type 0
  pub PrivateKey : Type 0
  pub CertifiedKey : Type 0
  pub open_file : Text → Result File Text
  pub certs : File → Result Chain Text
  pub private_key : File → Result (Option PrivateKey) Text
  pub from_der : Chain → PrivateKey → Result CertifiedKey Text

instance abbrev pub host_eq : Eq Text
host_eq = record { beq = text_eq; beq_iff = text_eq_iff }

-- `split(c).next()` is the text before the first `c`.
unfoldable pub extract_hostname_from_endpoint : Text → Option Text
extract_hostname_from_endpoint endpoint = strip_prefix (lit "https://") endpoint >>=? λ stripped.
    (let host = before_char b':' (before_char b'/' stripped) in
      if not (is_empty host) then some host else none)

-- `map_err` with a message in front of the error.
abbrev pub failing : {A : Type 0} → Text → Result A Text → Result A ProxyError
failing message (ok a) = ok a
failing message (err e) = err (tls_error (message ++ e))

module _ (files : CertificateFiles) where
  open files use {CertifiedKey, open_file, certs, private_key, from_der}

  pub record ExactCertResolver : Type 0 where
    pub exact_match : HashMap Text CertifiedKey

  abbrev pub new : ExactCertResolver
  new = record { exact_match = empty }

  abbrev pub add : Text → CertifiedKey → ExactCertResolver → ExactCertResolver
  add hostname key resolver = record { exact_match = insert hostname key resolver.exact_match }

  -- `server_name` is the name that the client asks for, if it does.
  unfoldable pub resolve : Option Text → ExactCertResolver → Option CertifiedKey
  resolve server_name resolver = server_name >>=? λ sni. resolver.exact_match sni

  unfoldable pub load_certified_key : Text → Text → Result CertifiedKey ProxyError
  load_certified_key cert_path key_path = do
    cert_file ←
        failing (lit "Failed to open cert file '" ++ (cert_path ++ lit "': ")) (open_file cert_path)
    key_file ←
        failing (lit "Failed to open key file '" ++ (key_path ++ lit "': ")) (open_file key_path)
    cert_chain ← failing (lit "Failed to parse certificates: ") (certs cert_file)
    found ← failing (lit "Failed to parse private key: ") (private_key key_file)
    key ← ok_or found (tls_error (lit "No private key found in key file"))
    failing (lit "TLS config error: ") (from_der cert_chain key)

  -- The body of the loop over the https routes, up to the call of `add`.
  unfoldable pub certify : Route → Result (Text × CertifiedKey) ProxyError
  certify route = do
    let endpoint = route.request_endpoint
    hostname ←
        ok_or (extract_hostname_from_endpoint endpoint)
          (tls_error (lit "Invalid HTTPS endpoint: " ++ endpoint))
    cert_path ←
        ok_or route.cert_path (tls_error (lit "Missing cert directive for route: " ++ endpoint))
    key_path ←
        ok_or route.key_path (tls_error (lit "Missing key directive for route: " ++ endpoint))
    certified_key ← load_certified_key cert_path key_path
    ok (hostname, certified_key)

  unfoldable pub add_routes : List Route → ExactCertResolver → Result ExactCertResolver ProxyError
  add_routes [] resolver = ok resolver
  add_routes (route ∷ routes) resolver =
      certify route >>= λ (hostname, key). add_routes routes (add hostname key resolver)

  abbrev pub is_https : Route → Bool
  is_https r = starts_with (lit "https://") r.request_endpoint

  unfoldable pub build_tls_acceptor : List Route → Result (Option ExactCertResolver) ProxyError
  build_tls_acceptor routes =
      let https_routes = retain is_https routes in
      if is_empty https_routes
      then ok none
      else (add_routes https_routes new >>= λ resolver. ok (some resolver))
