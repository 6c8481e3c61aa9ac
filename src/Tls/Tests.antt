-- ===== src/Tls/Tests.antt =====
-- src/tls.rs: runs, and the theorems at concrete inputs, over files that are their own text.
use barebones_reverse_proxy.Prelude.{
  ◌≡◌, refl, false, none, some, List, [], ◌∷◌, retain, ok, Text, lit, strip_prefix, before_char,
  starts_with, empty, insert,
}
use barebones_reverse_proxy.Config.{Route}
use barebones_reverse_proxy.Tls.{
  CertificateFiles, host_eq, extract_hostname_from_endpoint, ExactCertResolver, resolve,
  load_certified_key, certify, add_routes, is_https, build_tls_acceptor,
}
use barebones_reverse_proxy.Tls.Resolving.{certificate_for, build_tls_acceptor-resolve}

abbrev plain_files : CertificateFiles
plain_files = record {
  File = Text;
  Chain = Text;
  PrivateKey = Text;
  CertifiedKey = Text;
  open_file = λ path. ok path;
  certs = λ file. ok file;
  private_key = λ file. ok (some file);
  from_der = λ chain key. ok chain;
}

abbrev secure : Text → Route
secure cert = record {
  request_endpoint = lit "https://home/";
  forward_endpoint = lit "http://localhost:3000";
  auth_required = false;
  cert_path = some cert;
  key_path = some (lit "key");
  cache = none;
  intercept_errors = none;
}

abbrev routes : List Route
routes = secure (lit "a") ∷ secure (lit "b") ∷ []

abbrev resolver : ExactCertResolver plain_files
resolver = record {
  exact_match = insert (lit "home") (lit "b") (insert (lit "home") (lit "a") empty);
}

routes_run : build_tls_acceptor plain_files routes ≡ ok (some resolver)
unfolding build_tls_acceptor add_routes certify load_certified_key extract_hostname_from_endpoint
    retain lit starts_with strip_prefix before_char
routes_run = refl

build_tls_acceptor-resolve_example :
    resolve plain_files (some (lit "home")) resolver
    ≡ certificate_for plain_files (lit "home") (retain (is_https plain_files) routes)
build_tls_acceptor-resolve_example =
    build_tls_acceptor-resolve plain_files routes resolver (lit "home") routes_run
