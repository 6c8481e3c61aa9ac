-- ===== src/ErrorPages/Tests.antt =====
-- src/error_pages.rs: the runs of the source's own tests, over listed headers.
use barebones_reverse_proxy.Prelude.{
  ◌≡◌, refl, true, Option, some, [], ◌∷◌, Text, lit, ℕ, contains, text_eq, starts_with,
  strip_prefix,
}
use barebones_reverse_proxy.Http.{values_of}
use barebones_reverse_proxy.Http.Listed.{listed}
use barebones_reverse_proxy.Net.Display.{to_string, digits}
use barebones_reverse_proxy.ErrorPages.{
  render_html_error_page, joined, build_error_response, wants_json,
}

abbrev reasons : ℕ → Option Text
reasons status = some (lit "Bad Gateway")

page_run :
    contains (lit "Bad Gateway</title>") (
      render_html_error_page reasons 502
        (lit "Upstream connection failed")
        (lit "127.0.0.1")
        (lit "example.local"))
    ≡ true
unfolding render_html_error_page joined lit contains starts_with strip_prefix to_string digits
page_run = refl

json_run :
    (build_error_response listed reasons 429
      (lit "Rate limit exceeded")
      (lit "1.2.3.4")
      (lit "h")
      (some ((lit "accept", lit "application/json") ∷ []))).headers
    ≡ (lit "content-type", lit "application/json") ∷ []
unfolding build_error_response wants_json contains starts_with strip_prefix lit values_of text_eq
json_run = refl
