-- ===== src/Net/Tests.antt =====
-- `std::net` and numbers; runs.
use barebones_reverse_proxy.Prelude.{◌≡◌, refl, lit}
use barebones_reverse_proxy.Net.{v4, v6}
use barebones_reverse_proxy.Net.Display.{
  digits, to_string, ipv4_to_string, ipv6_to_string, ip_to_string,
}

display_run :
    (ip_to_string (v4 2_130_706_433) ≡ lit "127.0.0.1")
    × (ip_to_string (v6 1) ≡ lit "::1")
    × (ip_to_string (v6 281_473_913_978_881) ≡ lit "::ffff:192.168.0.1")
unfolding ip_to_string ipv4_to_string ipv6_to_string to_string digits lit
display_run = (refl, refl, refl)
