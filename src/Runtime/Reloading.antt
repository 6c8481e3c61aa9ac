-- ===== src/Runtime/Reloading.antt =====
-- src/server.rs and src/runtime_config.rs: what reloads keep and change.
use barebones_reverse_proxy.Prelude.{
  usize_add, ℕ, ◌≡◌, ◌⊎◌, inl, inr, refl, sym, ap, subst, not, Option, some, if◌then◌else◌, ◌==◌,
  if-cases, >>=!-eq-ok, Result, ok, err, Text, arith,
}
use barebones_reverse_proxy.Config.{Config}
use barebones_reverse_proxy.Error.{ParseError}
use barebones_reverse_proxy.Lru.{LruCache}
use barebones_reverse_proxy.Cache.{CachedAsset}
use barebones_reverse_proxy.Parser.TopLevel.{parse_proxy_config}
use barebones_reverse_proxy.Tls.{CertificateFiles, build_tls_acceptor}
use barebones_reverse_proxy.Runtime.{
  LoadError, parse_failed, read_failed, listen_port_changed, workers_changed, Managers,
  ActiveConfig, tls_result, cache_of, manager_for, build_active_config, load_config_from_path,
  load_active_config_from_path, Live, reload,
}

loaded :
    (cpus : ℕ) (text : Text) (config : Config)
    → parse_proxy_config cpus text ≡ ok config
    → load_config_from_path cpus (ok text) ≡ ok config
unfolding load_config_from_path
loaded cpus text config parses = rw (load_config_from_path, parses)

not_loaded :
    (cpus : ℕ) (text : Text) (e : ParseError)
    → parse_proxy_config cpus text ≡ err e
    → load_config_from_path cpus (ok text) ≡ err (parse_failed e)
unfolding load_config_from_path
not_loaded cpus text e parses = rw (load_config_from_path, parses)

module _ {H : Type 0} (lru : LruCache (CachedAsset H)) (files : CertificateFiles)
    (cpus port workers : ℕ) where
  -- What an accepted file has made of the live configuration.
  pub record Accepted (contents : Result Text Text) (before after : Live lru files) : Type 0 where
    pub text : Text
    pub config : Config
    pub readable : contents ≡ ok text
    pub parses : parse_proxy_config cpus text ≡ ok config
    pub same_port : config.listen_port ≡ port
    pub same_workers : config.workers ≡ workers
    pub routes : after.current.router.routes ≡ config.routes
    pub settings : after.current.security ≡ config.security
    pub cache : after.current.cache_engine ≡ cache_of lru files config.cache
    pub manager : after.current.security_manager ≡ before.current.security_manager
    pub managers : after.managers ≡ before.managers
    pub counted : after.generation ≡ usize_add before.generation 1
    pub named : after.current.generation ≡ after.generation

  abbrev published : ActiveConfig lru files → Managers → Live lru files
  published active managers = record {
    current = active;
    generation = active.generation;
    managers = managers;
    log_path = active.logfile;
  }

  build-Accepted :
      (text : Text) (config : Config) (live : Live lru files) (active : ActiveConfig lru files)
      (managers : Managers)
      → parse_proxy_config cpus text ≡ ok config
      → config.listen_port ≡ port
      → config.workers ≡ workers
      → build_active_config lru files config
          (usize_add live.generation 1)
          (some live.current.security_manager)
          live.managers
        ≡ ok (active, managers)
      → Accepted (ok text) live (published active managers)
  unfolding build_active_config manager_for
  build-Accepted text config live active managers parses p w h =
      let (acceptor, e, h1) =
        >>=!-eq-ok (tls_result (build_tls_acceptor files config.routes)) _ h in
      record {
        text = text;
        config = config;
        readable = refl;
        parses = parses;
        same_port = p;
        same_workers = w;
        routes = ground arith;
        settings = ground arith;
        cache = ground arith;
        manager = ground arith;
        managers = ground arith;
        counted = ground arith;
        named = refl;
      }

  -- Behind the parser.
  abbrev checked :
      Config → ℕ → Option ℕ → Managers → Result (ActiveConfig lru files × Managers) LoadError
  checked config generation security_manager managers =
      if not (config.listen_port == port)
      then err (listen_port_changed port config.listen_port)
      else if not (config.workers == workers)
      then err (workers_changed workers config.workers)
      else build_active_config lru files config generation security_manager managers

  load-checked :
      (text : Text) (config : Config) (generation : ℕ) (security_manager : Option ℕ)
      (managers : Managers)
      → parse_proxy_config cpus text ≡ ok config
      → load_active_config_from_path lru files cpus
          (ok text)
          port
          workers
          generation
          security_manager
          managers
        ≡ checked config generation security_manager managers
  unfolding load_active_config_from_path
  load-checked text config generation security_manager managers parses =
      rw (loaded cpus text config parses)

  checked-Accepted :
      (text : Text) (config : Config) (live : Live lru files) (active : ActiveConfig lru files)
      (managers : Managers)
      → parse_proxy_config cpus text ≡ ok config
      → checked config
          (usize_add live.generation 1)
          (some live.current.security_manager)
          live.managers
        ≡ ok (active, managers)
      → Accepted (ok text) live (published active managers)
  checked-Accepted text config live active managers parses h =
      elim (if-cases (not (config.listen_port == port)) _ _ h) [
        | inl (_, e) ↦ absurd (ground arith)
        | inr (p, h1) ↦ elim (if-cases (not (config.workers == workers)) _ _ h1) [
          | inl (_, e) ↦ absurd (ground arith)
          | inr (w, h2) ↦
              build-Accepted text config live active managers parses (ground arith) (ground arith)
                h2
        ]
      ]

  -- What the loop makes of the outcome of loading.
  abbrev outcome :
      Live lru files → Result (ActiveConfig lru files × Managers) LoadError → Live lru files
  outcome live (err e) = live
  outcome live (ok (active, managers)) = published active managers

  reload-outcome :
      (contents : Result Text Text) (live : Live lru files)
      → reload lru files cpus port workers contents live
        ≡ outcome live (
            load_active_config_from_path lru files cpus contents port workers
              (usize_add live.generation 1)
              (some live.current.security_manager)
              live.managers)
  unfolding reload
  reload-outcome contents live = refl

  checked-outcome :
      (text : Text) (config : Config) (live : Live lru files)
      → parse_proxy_config cpus text ≡ ok config
      → (o : Result (ActiveConfig lru files × Managers) LoadError)
      → checked config
          (usize_add live.generation 1)
          (some live.current.security_manager)
          live.managers
        ≡ o
      → (outcome live o ≡ live) ⊎ Accepted (ok text) live (outcome live o)
  checked-outcome text config live parses (err e) h = inl refl
  checked-outcome text config live parses (ok (active, managers)) h =
      inr (checked-Accepted text config live active managers parses h)

  unread :
      (e : Text) (live : Live lru files)
      → load_active_config_from_path lru files cpus
          (err e)
          port
          workers
          (usize_add live.generation 1)
          (some live.current.security_manager)
          live.managers
        ≡ err (read_failed e)
  unfolding load_active_config_from_path load_config_from_path
  unread e live = refl

  unparsed :
      (text : Text) (e : ParseError) (live : Live lru files)
      → parse_proxy_config cpus text ≡ err e
      → load_active_config_from_path lru files cpus
          (ok text)
          port
          workers
          (usize_add live.generation 1)
          (some live.current.security_manager)
          live.managers
        ≡ err (parse_failed e)
  unfolding load_active_config_from_path
  unparsed text e live parses = rw (not_loaded cpus text e parses)

  parsed-outcome :
      (text : Text) (live : Live lru files) (r : Result Config ParseError)
      → parse_proxy_config cpus text ≡ r
      → (let o =
            load_active_config_from_path lru files cpus
              (ok text)
              port
              workers
              (usize_add live.generation 1)
              (some live.current.security_manager)
              live.managers in
          (outcome live o ≡ live) ⊎ Accepted (ok text) live (outcome live o))
  parsed-outcome text live (err e) parses = inl (ap (outcome live) (unparsed text e live parses))
  parsed-outcome text live (ok config) parses =
      let o =
        load-checked text config (usize_add live.generation 1) (some live.current.security_manager)
          live.managers parses in
      checked-outcome text config live parses _ (sym o)

  loaded-outcome :
      (contents : Result Text Text) (live : Live lru files)
      → (let o =
            load_active_config_from_path lru files cpus contents port workers
              (usize_add live.generation 1)
              (some live.current.security_manager)
              live.managers in
          (outcome live o ≡ live) ⊎ Accepted contents live (outcome live o))
  loaded-outcome (err e) live = inl (ap (outcome live) (unread e live))
  loaded-outcome (ok text) live = parsed-outcome text live (parse_proxy_config cpus text) refl

  -- A reload either leaves the live configuration as it is, or the file was read and parsed and has
  -- the port and the number of workers of the start; then the new routes, security settings and
  -- cache are those of the file, the security manager is the old one, and the generation is the
  -- next.
  pub reload-Accepted :
      (contents : Result Text Text) (live : Live lru files)
      → (reload lru files cpus port workers contents live ≡ live)
        ⊎ Accepted contents live (reload lru files cpus port workers contents live)
  reload-Accepted contents live =
      subst (λ l. (l ≡ live) ⊎ Accepted contents live l) (sym (reload-outcome contents live))
        (loaded-outcome contents live)
