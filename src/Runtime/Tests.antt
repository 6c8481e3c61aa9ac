-- ===== src/Runtime/Tests.antt =====
-- src/runtime_config.rs and src/server.rs: the theorems at concrete inputs.
use barebones_reverse_proxy.Prelude.{
  arith, usize_add, ◌≡◌, ◌⊎◌, refl, false, none, some, [], ◌∷◌, Result, ok, err, Text, lit,
}
use barebones_reverse_proxy.Prelude.{
  text_eq, contains, contains_char, starts_with, ends_with, strip_prefix, trim, trim_start,
  trim_end, is_whitespace, split_where, drop_empty, split_whitespace, before_char, to_lower,
  to_lowercase, retain,
}
use barebones_reverse_proxy.Net.{parse_uint, decimal, decimal_digits}
use barebones_reverse_proxy.Parser.{
  words, is_valid_url, validate_semicolon, validate_directive_case, get_directive,
  parse_single_value_directive, after_last_semicolon, check_trailing_garbage, is_block_terminator,
  block_directive, read_block, parse_route_block_header, parse_listen_line, parse_switch,
}
use barebones_reverse_proxy.Parser.RouteBlock.{
  route_directive, route_line, close_route, parse_route_block,
}
use barebones_reverse_proxy.Parser.CacheBlock.{
  parse_cache_block, cache_line, cache_directive, size_text,
}
use barebones_reverse_proxy.Parser.Comments.{
  strip_comments, strip_from, scan, is_boundary, only_whitespace,
}
use barebones_reverse_proxy.Parser.TopLevel.{
  config_lines, validate_known_top_level_directive, listen_line, endpoint_known, route_section,
  dispatch, top_level_line, read_lines, finish, parse_proxy_config, cache_section, workers_line,
}
use barebones_reverse_proxy.Lru.Listed.{listed}
use barebones_reverse_proxy.Cache.{CachedAsset, LruCacheEngine}
use barebones_reverse_proxy.Security
use barebones_reverse_proxy.Tls.{CertificateFiles, build_tls_acceptor}
use barebones_reverse_proxy.Runtime.{
  load_active_config_from_path, load_config_from_path, build_active_config, manager_for, cache_of,
  auth_url, Live, reload, reload_all,
}
use barebones_reverse_proxy.Runtime.Reloading.{Accepted, reload-Accepted}
use barebones_reverse_proxy.Runtime.Signals.{Kept, reload_all-Kept, reload_empties_cache}

abbrev Asset : Type 0
Asset = CachedAsset Unit

abbrev no_files : CertificateFiles
no_files = record {
  File = Unit;
  Chain = Unit;
  PrivateKey = Unit;
  CertifiedKey = Unit;
  open_file = λ path. err (lit "not found");
  certs = λ file. ok tt;
  private_key = λ file. ok none;
  from_der = λ chain key. ok tt;
}

abbrev live : Live (listed Asset) no_files
live = record {
  current = record {
    generation = 0;
    router = record { routes = [] };
    tls_acceptor = none;
    logfile = none;
    security = none;
    security_manager = 0;
    auth_provider = none;
    cache_config = none;
    cache_engine = none;
    global_intercept_errors = false;
  };
  generation = 0;
  managers = Security.new 3600 5 60 ∷ [];
  log_path = none;
}

abbrev contents : Result Text Text
contents = ok (
    lit
      "listen 80;\nroute http://home {\nupstream http://localhost:3000;\n}\ncache {\n}\nworkers 4;\n")

reload-Accepted_example :
    (reload (listed Asset) no_files 4 80 4 contents live ≡ live)
    ⊎ Accepted
        (listed Asset)
        no_files
        4
        80
        4
        contents
        live
        (reload (listed Asset) no_files 4 80 4 contents live)
reload-Accepted_example = reload-Accepted (listed Asset) no_files 4 80 4 contents live

reload_all-Kept_example :
    Kept
      (listed Asset)
      no_files
      4
      80
      4
      2
      live
      (reload_all (listed Asset) no_files 4 80 4 (contents ∷ err (lit "gone") ∷ []) live)
reload_all-Kept_example =
    reload_all-Kept (listed Asset) no_files 4 80 4 (contents ∷ err (lit "gone") ∷ []) live refl
      (omega arith)

reload_empties_cache_example :
    (reload (listed Asset) no_files 4 80 4 contents live ≡ live)
    ⊎ ((reload (listed Asset) no_files 4 80 4 contents live).current.cache_engine ≡ none)
    ⊎ ((engine : LruCacheEngine (listed Asset)) × ((reload
            (listed Asset)
            no_files
            4
            80
            4
            contents
            live).current.cache_engine
          ≡ some engine)
        × (engine.inner.items ≡ []))
reload_empties_cache_example = reload_empties_cache (listed Asset) no_files 4 80 4 contents live

accepted_run : (reload (listed Asset) no_files 4 80 4 contents live).generation ≡ 1
unfolding usize_add lit text_eq contains contains_char starts_with ends_with strip_prefix trim
    trim_start trim_end is_whitespace split_where drop_empty split_whitespace before_char to_lower
    to_lowercase words is_valid_url validate_semicolon validate_directive_case get_directive
    parse_single_value_directive after_last_semicolon check_trailing_garbage is_block_terminator
    block_directive read_block route_directive route_line close_route parse_route_block
    parse_route_block_header parse_listen_line parse_uint decimal decimal_digits retain
    strip_comments strip_from scan is_boundary only_whitespace config_lines
    validate_known_top_level_directive listen_line endpoint_known route_section dispatch
    top_level_line read_lines finish parse_proxy_config parse_cache_block cache_line cache_directive
    size_text parse_switch cache_section workers_line reload load_active_config_from_path
    load_config_from_path build_active_config manager_for build_tls_acceptor cache_of auth_url
accepted_run = refl
