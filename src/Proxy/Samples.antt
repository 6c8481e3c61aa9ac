-- ===== src/Proxy/Samples.antt =====
-- src/proxy.rs: the inputs of the runs, over listed headers and a listed cache. A body is its bytes.
use barebones_reverse_proxy.Prelude.{
  ℕ, Bool, true, false, Option, none, some, List, [], ◌∷◌, ok, err, unwrap_or, empty, insert, Text,
  lit,
}
use barebones_reverse_proxy.Net.{v4, SocketAddr, ip_addr_eq}
use barebones_reverse_proxy.Config.{Route}
use barebones_reverse_proxy.Security.{SecurityManagerInner, unlocked}
use barebones_reverse_proxy.Http.{Uri, Response, Request, http_11}
use barebones_reverse_proxy.Http.Listed.{Headers, listed}
use barebones_reverse_proxy.Lru.{LruCache}
use barebones_reverse_proxy.Lru.Listed
use barebones_reverse_proxy.Cache.{CachedAsset, LruCacheEngine}
use barebones_reverse_proxy.Tls.{CertificateFiles}
use barebones_reverse_proxy.Runtime.{ActiveConfig}
use barebones_reverse_proxy.Proxy.{BoxBody, invalid_uri, limited}
use barebones_reverse_proxy.Router.{MatchedRoute}
use barebones_reverse_proxy.Proxy.Forwarding.{build_forwarded}
use barebones_reverse_proxy.Proxy.Screening.{Clock, Outside}
use barebones_reverse_proxy.Proxy.Handling.{Shared, Handled, decided, handle_request}

abbrev pub Bytes : Type 0
Bytes = List ℕ

abbrev pub Asset : Type 0
Asset = CachedAsset Headers

abbrev pub lru : LruCache Asset
lru = Listed.listed Asset

abbrev pub no_files : CertificateFiles
no_files = record {
  File = Unit;
  Chain = Unit;
  PrivateKey = Unit;
  CertifiedKey = Unit;
  open_file = λ path. err (lit "not found");
  certs = λ file. ok tt;
  private_key = λ file. ok none;
  from_der = λ chain key. ok tt;
}

abbrev pub parse_uri : Text → Option Uri
parse_uri t = some (record { authority = none; path = t; query = none; path_and_query = some t })

abbrev pub style : Response listed Bytes
style = record {
  status = 200;
  headers = (lit "content-type", lit "text/css") ∷ [];
  body = 7 ∷ 8 ∷ [];
}

-- A service that denies, and an upstream that always has the same answer.
abbrev pub outside : Outside listed Bytes
outside = record {
  parse_uri = parse_uri;
  canonical_reason = λ status. none;
  collect = λ body. some body;
  service = λ sub_req. ok (record { status = 403; headers = []; body = [] });
  upstream = λ req. ok style;
}

abbrev pub clock : Clock
clock = record { blacklist_at = 5; recorded_at = 6; cached_at = 7 }

abbrev pub peer : SocketAddr
peer = record { ip = v4 2_130_706_433; port = 4000 }

abbrev pub request : Request listed Bytes
request = record {
  method = lit "GET";
  uri = record {
    authority = some (lit "home");
    path = lit "/a.css";
    query = none;
    path_and_query = some (lit "/a.css");
  };
  version = http_11;
  headers = (lit "cookie", lit "c=1") ∷ [];
  body = [];
}

abbrev pub manager : Option ℕ → ℕ → SecurityManagerInner
manager banned_until rate_limit_rpm = record {
  tls_failures = empty;
  request_tracker = empty;
  blacklist = elim banned_until [ none ↦ empty | some until ↦ insert peer.ip until empty ];
  ban_duration = 100;
  max_tls_failures = 0;
  rate_limit_rpm = rate_limit_rpm;
}

-- One request was made at time 4, and one a minute is allowed.
abbrev pub busy : SecurityManagerInner
busy = record (manager none 1) { request_tracker = insert peer.ip (4 ∷ []) empty }

abbrev pub route : Bool → Route
route auth_required = record {
  request_endpoint = lit "https://home/";
  forward_endpoint = lit "http://app:3000/";
  auth_required = auth_required;
  cert_path = none;
  key_path = none;
  cache = none;
  intercept_errors = none;
}

abbrev pub engine : List (Text × Asset) → LruCacheEngine lru
engine items = record {
  inner = record { limit = 10; items = items };
  inner_poisoned = false;
  max_capacity_bytes = 40;
  max_file_size_bytes = 30;
  default_ttl = 100;
  current_memory_bytes = 0;
  memory_poisoned = false;
}

abbrev pub active : Bool → List (Text × Asset) → ActiveConfig lru no_files
active auth_required items = record {
  generation = 0;
  router = record { routes = route auth_required ∷ [] };
  tls_acceptor = none;
  logfile = none;
  security = none;
  security_manager = 0;
  auth_provider = some (lit "http://auth");
  cache_config = none;
  cache_engine = some (engine items);
  global_intercept_errors = false;
}

abbrev pub shared : Option ℕ → Bool → List (Text × Asset) → Shared listed Bytes lru no_files
shared banned_until auth_required items = record {
  security_manager = unlocked (manager banned_until 60);
  active_config = active auth_required items;
}

-- The first request, with an empty cache.
abbrev pub handled : Handled listed Bytes lru no_files
handled =
    unwrap_or
      (handle_request listed Bytes lru no_files outside clock peer false request
        (shared none false []))
      (decided listed Bytes lru no_files (err invalid_uri) (shared none false []))

abbrev pub sent : Request listed (BoxBody Bytes)
sent = unwrap_or handled.sent (record {
  method = [];
  uri = request.uri;
  version = http_11;
  headers = [];
  body = limited [] 0;
})

abbrev pub client_ip : Text
client_ip = lit "127.0.0.1"

abbrev pub home : Text
home = lit "home"

abbrev pub style_key : Text
style_key = lit "home:/a.css"

abbrev pub stored_style : Asset
stored_style = record {
  status = 200;
  headers = style.headers;
  body = style.body;
  created_at = 3;
  ttl = 100;
  size_bytes = 2;
}

abbrev pub matched : MatchedRoute
matched = record {
  upstream_addr = lit "app:3000";
  rewritten_path = lit "/a.css";
  auth_required = true;
  cache = none;
  intercept_errors = none;
}

abbrev pub built : Request listed (BoxBody Bytes)
built = elim (build_forwarded listed parse_uri matched client_ip 10 [] request) [
  | ok forwarded ↦ forwarded
  | err e ↦ sent
]
