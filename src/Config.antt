-- ===== src/Config.antt =====
-- src/config.rs: the parsed configuration.
use barebones_reverse_proxy.Prelude.{ℕ, Bool, Option, unwrap_or, List, Text}
use barebones_reverse_proxy.Net.{IpAddr}

pub record SecurityConfig : Type 0 where
  pub proxy_protocol : Bool
  pub trusted_upstream : IpAddr
  pub timeout_ms : ℕ
  pub max_tls_failures : ℕ
  pub ban_duration_sec : ℕ
  pub rate_limit_rpm : ℕ
  pub forward_auth : Option Text
  pub max_body_size : ℕ
  pub max_header_size : ℕ

pub record CacheConfig : Type 0 where
  pub enabled : Bool
  pub max_capacity_bytes : ℕ
  pub max_file_size_bytes : ℕ
  pub default_ttl_sec : ℕ

pub record Route : Type 0 where
  pub request_endpoint : Text
  pub forward_endpoint : Text
  pub auth_required : Bool
  pub cert_path : Option Text
  pub key_path : Option Text
  pub cache : Option Bool
  pub intercept_errors : Option Bool

pub record Config : Type 0 where
  pub listen_port : ℕ
  pub routes : List Route
  pub workers : ℕ
  pub logfile : Option Text
  pub security : Option SecurityConfig
  pub cache : Option CacheConfig
  pub intercept_errors : Option Bool

-- `Route::should_intercept_errors`.
unfoldable pub should_intercept_errors : Route → Bool → Bool
should_intercept_errors route global_intercept = unwrap_or route.intercept_errors global_intercept
