-- ===== src/ErrorPages.antt =====
-- src/error_pages.rs: the pages and JSON bodies of the proxy's own errors. The crate http's table of
-- reasons is a parameter. A string becomes bytes by UTF-8.
mod Tests
use barebones_reverse_proxy.Prelude.{
  ℕ, Bool, true, false, Option, none, some, List, [], ◌∷◌, ◌++◌, if◌then◌else◌, ◌>>=?◌, unwrap_or,
  is_empty, Text, lit, contains, to_utf8,
}
use barebones_reverse_proxy.Net.Display.{to_string}
use barebones_reverse_proxy.Http.{HeaderMaps, Response, header_text}

-- Lines, each with its line feed.
unfoldable pub joined : List Text → Text
joined [] = []
joined (line ∷ rest) = line ++ (10 ∷ joined rest)

-- The template above its title.
abbrev head_lines : List Text
head_lines =
    lit "<!DOCTYPE html>"
    ∷ lit "<html lang=\"en\">"
    ∷ lit "<head>"
    ∷ lit "  <meta charset=\"UTF-8\">"
    ∷ lit "  <meta name=\"viewport\" content=\"width=device-width, initial-scale=1.0\">"
    ∷ []

-- From the title to the status code.
abbrev style_lines : List Text
style_lines =
    lit "  <style>"
    ∷ lit "    * { box-sizing: border-box; margin: 0; padding: 0; }"
    ∷ lit "    body {"
    ∷ lit "      background-color: #f1f5f9;"
    ∷ lit "      background-image: linear-gradient(rgba(15, 23, 42, 0.04) 50%, transparent 50%);"
    ∷ lit "      background-size: 100% 4px;"
    ∷ lit "      color: #0f172a;"
    ∷ lit "      font-family: \"Courier New\", Courier, Monaco, \"Lucida Console\", monospace;"
    ∷ lit "      display: flex;"
    ∷ lit "      align-items: center;"
    ∷ lit "      justify-content: center;"
    ∷ lit "      min-height: 100vh;"
    ∷ lit "      padding: 20px;"
    ∷ lit "    }"
    ∷ lit "    .card {"
    ∷ lit "      background-color: #ffffff;"
    ∷ lit "      border: 4px solid #0f172a;"
    ∷ lit "      box-shadow: 8px 8px 0px #0f172a;"
    ∷ lit "      padding: 36px 32px;"
    ∷ lit "      max-width: 480px;"
    ∷ lit "      width: 100%;"
    ∷ lit "      text-align: center;"
    ∷ lit "    }"
    ∷ lit "    .banner {"
    ∷ lit "      display: inline-block;"
    ∷ lit "      background-color: #0f172a;"
    ∷ lit "      color: #38bdf8;"
    ∷ lit "      font-size: 11px;"
    ∷ lit "      font-weight: 700;"
    ∷ lit "      letter-spacing: 2px;"
    ∷ lit "      padding: 4px 12px;"
    ∷ lit "      margin-bottom: 20px;"
    ∷ lit "      text-transform: uppercase;"
    ∷ lit "      border: 2px solid #0f172a;"
    ∷ lit "    }"
    ∷ lit "    .status-code {"
    ∷ lit "      font-size: 64px;"
    ∷ lit "      font-weight: 900;"
    ∷ lit "      line-height: 1;"
    ∷ lit "      color: #dc2626;"
    ∷ lit "      text-shadow: 3px 3px 0px #0f172a;"
    ∷ lit "      margin-bottom: 12px;"
    ∷ lit "      letter-spacing: 2px;"
    ∷ lit "    }"
    ∷ lit "    .status-title {"
    ∷ lit "      font-size: 20px;"
    ∷ lit "      font-weight: 700;"
    ∷ lit "      color: #0f172a;"
    ∷ lit "      text-transform: uppercase;"
    ∷ lit "      letter-spacing: 1px;"
    ∷ lit "      margin-bottom: 16px;"
    ∷ lit "    }"
    ∷ lit "    .description {"
    ∷ lit "      font-size: 13px;"
    ∷ lit "      color: #334155;"
    ∷ lit "      line-height: 1.6;"
    ∷ lit "      margin-bottom: 28px;"
    ∷ lit "      font-weight: 600;"
    ∷ lit "    }"
    ∷ lit "    .pixel-divider {"
    ∷ lit "      border-top: 4px dashed #0f172a;"
    ∷ lit "      margin-bottom: 20px;"
    ∷ lit "    }"
    ∷ lit "    .meta {"
    ∷ lit "      display: flex;"
    ∷ lit "      justify-content: space-between;"
    ∷ lit "      gap: 12px;"
    ∷ lit "      font-size: 11px;"
    ∷ lit "    }"
    ∷ lit "    .meta-box {"
    ∷ lit "      flex: 1;"
    ∷ lit "      background-color: #f8fafc;"
    ∷ lit "      border: 2px solid #0f172a;"
    ∷ lit "      box-shadow: 3px 3px 0px #0f172a;"
    ∷ lit "      padding: 8px 6px;"
    ∷ lit "      word-break: break-all;"
    ∷ lit "      text-align: left;"
    ∷ lit "    }"
    ∷ lit "    .meta-label {"
    ∷ lit "      display: block;"
    ∷ lit "      font-weight: 700;"
    ∷ lit "      color: #64748b;"
    ∷ lit "      font-size: 9px;"
    ∷ lit "      text-transform: uppercase;"
    ∷ lit "      letter-spacing: 1px;"
    ∷ lit "      margin-bottom: 2px;"
    ∷ lit "    }"
    ∷ lit "    .meta-value {"
    ∷ lit "      font-weight: 700;"
    ∷ lit "      color: #0f172a;"
    ∷ lit "    }"
    ∷ lit "  </style>"
    ∷ lit "</head>"
    ∷ lit "<body>"
    ∷ lit "  <div class=\"card\">"
    ∷ lit "    <div class=\"banner\">[ PROXY EXCEPTION ]</div>"
    ∷ []

abbrev divider_lines : List Text
divider_lines = lit "    <div class=\"pixel-divider\"></div>" ∷ lit "    <div class=\"meta\">" ∷ []

abbrev last_lines : List Text
last_lines = lit "    </div>" ∷ lit "  </div>" ∷ lit "</body>" ∷ lit "</html>" ∷ []

-- `if host.is_empty() { "-" } else { host }`.
abbrev pub dash_if_empty : Text → Text
dash_if_empty s = if is_empty s then lit "-" else s

unfoldable pub render_html_error_page : (ℕ → Option Text) → ℕ → Text → Text → Text → Text
render_html_error_page canonical_reason status message client_ip host =
    let code = to_string status in
    let reason = unwrap_or (canonical_reason status) (lit "Error") in
    let display_host = dash_if_empty host in
    let display_ip = dash_if_empty client_ip in
    joined (
      head_lines
      ++ ((lit "  <title>" ++ code ++ lit " " ++ reason ++ lit "</title>")
          ∷ (style_lines
              ++ ((lit "    <div class=\"status-code\">" ++ code ++ lit "</div>")
                  ∷ (lit "    <div class=\"status-title\">" ++ reason ++ lit "</div>")
                  ∷ (lit "    <div class=\"description\">" ++ message ++ lit "</div>")
                  ∷ (divider_lines
                      ++ ((lit
                              "      <div class=\"meta-box\"><span class=\"meta-label\">TARGET HOST</span><span class=\"meta-value\">"
                            ++ display_host
                            ++ lit "</span></div>")
                          ∷ (lit
                                "      <div class=\"meta-box\"><span class=\"meta-label\">CLIENT IP</span><span class=\"meta-value\">"
                              ++ display_ip
                              ++ lit "</span></div>")
                          ∷ last_lines))))))

unfoldable pub json_body : (ℕ → Option Text) → ℕ → Text → Text → Text
json_body canonical_reason status message host =
    lit "{\"status\":"
    ++ (to_string status
        ++ (lit ",\"error\":\""
            ++ (unwrap_or (canonical_reason status) (lit "Error")
                ++ (lit "\",\"message\":\""
                    ++ (message
                        ++ (lit "\",\"host\":\""
                            ++ (dash_if_empty host ++ (lit "\"}" ++ (10 ∷ [])))))))))

module _ (http : HeaderMaps) where
  open http use {HeaderMap, append, from_static}

  unfoldable pub wants_json : Option HeaderMap → Bool
  wants_json none = false
  wants_json (some headers) = elim (header_text http (lit "accept") headers) [
    | none ↦ false
    | some ct ↦ contains (lit "application/json") ct
  ]

  -- `Response::builder()` with a status, one header and a whole body.
  abbrev pub with_header : ℕ → Text → Text → List ℕ → Response http (List ℕ)
  with_header status name value body = record {
    status = status;
    headers = append name (from_static value) http.new;
    body = body;
  }

  unfoldable pub build_error_response :
      (ℕ → Option Text) → ℕ → Text → Text → Text → Option HeaderMap → Response http (List ℕ)
  build_error_response canonical_reason status message client_ip host headers =
      if wants_json headers
      then with_header status (lit "content-type") (lit "application/json")
          (to_utf8 (json_body canonical_reason status message host))
      else with_header status (lit "content-type") (lit "text/html; charset=utf-8")
          (to_utf8 (render_html_error_page canonical_reason status message client_ip host))
