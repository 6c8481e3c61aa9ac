-- ===== src/Runtime.antt =====
-- src/runtime_config.rs and the reload loop of src/server.rs: the active configuration, its store,
-- and what a SIGHUP does. A security manager is an `Arc`: here an address in the list of all the
-- managers that were made. The authentication's provider is its address; its client is not
-- modelled. The text of an error message is not either: `LoadError` holds what it is made of.
pub mod Reloading
pub mod Signals
mod Tests
use barebones_reverse_proxy.Prelude.{
  usize_add, ℕ, ◌+◌, Bool, true, false, not, Option, none, some, List, [], ◌∷◌, ◌++◌, if◌then◌else◌,
  ◌>>=?◌, ◌==◌, unwrap_or, length, Result, ok, err, Text,
}
use barebones_reverse_proxy.Prelude.{◌>>=!◌ as ◌>>=◌}
use barebones_reverse_proxy.Config.{Config, SecurityConfig, CacheConfig}
use barebones_reverse_proxy.Error.{ParseError, ProxyError}
use barebones_reverse_proxy.Parser.TopLevel.{parse_proxy_config}
use barebones_reverse_proxy.Router.{Router}
use barebones_reverse_proxy.Security.{SecurityManager, from_security_config}
use barebones_reverse_proxy.Lru.{LruCache}
use barebones_reverse_proxy.Cache
use barebones_reverse_proxy.Cache.{CachedAsset, LruCacheEngine}
use barebones_reverse_proxy.Tls.{CertificateFiles, ExactCertResolver, build_tls_acceptor}

pub data LoadError : Type 0 where
  tls_failed : ProxyError → LoadError
  read_failed : Text → LoadError
  parse_failed : ParseError → LoadError
  listen_port_changed : ℕ → ℕ → LoadError
  workers_changed : ℕ → ℕ → LoadError

-- The managers by their address.
abbrev pub Managers : Type 0
Managers = List SecurityManager

-- `map_err`.
abbrev pub tls_result : {A : Type 0} → Result A ProxyError → Result A LoadError
tls_result (ok a) = ok a
tls_result (err e) = err (tls_failed e)

unfoldable pub auth_url : Option SecurityConfig → Option Text
auth_url security = security >>=? λ s. s.forward_auth

-- The address of the manager to use, a new one if none is given, with all managers.
unfoldable pub manager_for : Option SecurityConfig → Option ℕ → Managers → ℕ × Managers
manager_for security (some address) managers = (address, managers)
manager_for security none managers =
    (length managers, managers ++ (from_security_config security ∷ []))

-- `contents` is what `fs::read_to_string` gives.
unfoldable pub load_config_from_path : ℕ → Result Text Text → Result Config LoadError
load_config_from_path available_parallelism (err e) = err (read_failed e)
load_config_from_path available_parallelism (ok contents) =
    elim (parse_proxy_config available_parallelism contents) [
      | ok config ↦ ok config
      | err e ↦ err (parse_failed e)
    ]

module _ {H : Type 0} (lru : LruCache (CachedAsset H)) (files : CertificateFiles) where
  pub record ActiveConfig : Type 0 where
    pub generation : ℕ
    pub router : Router
    pub tls_acceptor : Option (ExactCertResolver files)
    pub logfile : Option Text
    pub security : Option SecurityConfig
    pub security_manager : ℕ
    pub auth_provider : Option Text
    pub cache_config : Option CacheConfig
    pub cache_engine : Option (LruCacheEngine lru)
    pub global_intercept_errors : Bool

  unfoldable pub cache_of : Option CacheConfig → Option (LruCacheEngine lru)
  cache_of none = none
  cache_of (some c) =
      if c.enabled
      then some (Cache.new lru c.max_capacity_bytes c.max_file_size_bytes c.default_ttl_sec)
      else none

  unfoldable pub build_active_config :
      Config → ℕ → Option ℕ → Managers → Result (ActiveConfig × Managers) LoadError
  build_active_config config generation security_manager managers =
      tls_result (build_tls_acceptor files config.routes) >>= λ tls_acceptor.
      (let (address, managers') = manager_for config.security security_manager managers in
        ok (
          record {
            generation = generation;
            router = record { routes = config.routes };
            tls_acceptor = tls_acceptor;
            logfile = config.logfile;
            security = config.security;
            security_manager = address;
            auth_provider = auth_url config.security;
            cache_config = config.cache;
            cache_engine = cache_of config.cache;
            global_intercept_errors = unwrap_or config.intercept_errors false;
          },
          managers',
        ))

  unfoldable pub load_active_config_from_path :
      ℕ
      → Result Text Text
      → (expected_listen_port expected_workers generation : ℕ) → Option ℕ
      → Managers
      → Result (ActiveConfig × Managers) LoadError
  load_active_config_from_path cpus contents port workers generation security_manager managers =
      load_config_from_path cpus contents >>= λ config.
      (if not (config.listen_port == port)
        then err (listen_port_changed port config.listen_port)
        else if not (config.workers == workers)
        then err (workers_changed workers config.workers)
        else build_active_config config generation security_manager managers)

  -- The store that the writer and all readers share, the reload thread's count, and the managers.
  pub record Live : Type 0 where
    pub current : ActiveConfig
    pub generation : ℕ
    pub managers : Managers
    pub log_path : Option Text

  -- `Server::new`: the port and the number of workers that stay, and the first configuration.
  pub record Server : Type 0 where
    pub listen_port : ℕ
    pub workers : ℕ
    pub live : Live

  unfoldable pub server_new : Config → Result Server LoadError
  server_new config = build_active_config config 0 none [] >>= λ (active_config, managers).
      ok (record {
        listen_port = config.listen_port;
        workers = config.workers;
        live = record {
          current = active_config;
          generation = 0;
          managers = managers;
          log_path = active_config.logfile;
        };
      })

  -- One turn of the reload loop, for the file as it is read then.
  unfoldable pub reload : ℕ → (listen_port workers : ℕ) → Result Text Text → Live → Live
  reload cpus listen_port workers contents live =
      elim (load_active_config_from_path cpus contents listen_port workers
        (usize_add live.generation 1) (some live.current.security_manager) live.managers) [
          | err e ↦ live
          | ok (active_config, managers') ↦ record {
            current = active_config;
            generation = active_config.generation;
            managers = managers';
            log_path = active_config.logfile;
          }
        ]

  -- The signals in their order.
  unfoldable pub reload_all : ℕ → (listen_port workers : ℕ) → List (Result Text Text) → Live → Live
  reload_all cpus listen_port workers [] live = live
  reload_all cpus listen_port workers (contents ∷ later) live =
      reload_all cpus listen_port workers later (reload cpus listen_port workers contents live)
