-- ===== src/Proxy/ClientIp.antt =====
-- src/proxy.rs: whose address a request is handled under.
use barebones_reverse_proxy.Prelude.{
  ℕ, ◌<◌, ◌≡◌, ◌⊎◌, inl, inr, refl, sym, ap, subst, ◌∙◌, Bool, true, false, some, List, [], ◌∷◌,
  ◌++◌, All, ◌>>=?◌, is_some, Text, Bool-cases, Option-cases,
}
use barebones_reverse_proxy.Net.{v4, parse_ip}
use barebones_reverse_proxy.Net.Display.{ip_to_string}
use barebones_reverse_proxy.Net.Printed.{parse_ip-ip_to_string}
use barebones_reverse_proxy.Http.{HeaderMaps, header_text}
use barebones_reverse_proxy.Proxy.{ip_part, ip_headers, first_client_ip, client_ip_of}

module _ (http : HeaderMaps) (headers : http.HeaderMap) (peer : Text) where
  -- Whether a header names an address.
  abbrev pub names_ip : Text → Bool
  names_ip name =
      is_some (header_text http name headers >>=? λ value. parse_ip (ip_part name value))

  -- The header that decides: the first of the names that gives an address.
  pub record Decides (names : List Text) (client_ip : Text) : Type 0 where
    pub before : List Text
    pub name : Text
    pub after : List Text
    pub value : Text
    pub splits : names ≡ before ++ (name ∷ after)
    pub none_before : All (λ n. names_ip n ≡ false) before
    pub given : header_text http name headers ≡ some value
    pub is_ip : is_some (parse_ip (ip_part name value)) ≡ true
    pub chosen : client_ip ≡ ip_part name value

  -- Some name decides, or none gives an address and the peer's is left.
  abbrev pub Outcome : List Text → Text → Type 0
  Outcome names client_ip =
      Decides names client_ip ⊎ (All (λ n. names_ip n ≡ false) names × (client_ip ≡ peer))

  skipped :
      (name : Text) (names : List Text) (client_ip : Text)
      → names_ip name ≡ false
      → Outcome names client_ip
      → Outcome (name ∷ names) client_ip
  skipped name names client_ip not_this (inr (others, same)) = inr ((not_this, others), same)
  skipped name names client_ip not_this (inl d) = inl (record {
    before = name ∷ d.before;
    name = d.name;
    after = d.after;
    value = d.value;
    splits = ap (λ l. name ∷ l) d.splits;
    none_before = (not_this, d.none_before);
    given = d.given;
    is_ip = d.is_ip;
    chosen = d.chosen;
  })

  first_client_ip-Outcome :
      (names : List Text) → Outcome names (first_client_ip http names headers peer)
  unfolding first_client_ip
  first_client_ip-Outcome [] = inr (tt, refl)
  first_client_ip-Outcome (name ∷ names) =
      let rest = first_client_ip http names headers peer in
      elim (Option-cases (header_text http name headers)) [
        | inl e ↦
            let same : first_client_ip http (name ∷ names) headers peer ≡ rest =
              rw (first_client_ip, e) in
            subst (Outcome (name ∷ names)) (sym same)
              (skipped name names rest (rw e) (first_client_ip-Outcome names))
        | inr (value, e) ↦ elim (Bool-cases (is_some (parse_ip (ip_part name value)))) [
          | inl b ↦ inl (record {
            before = [];
            name = name;
            after = names;
            value = value;
            splits = refl;
            none_before = tt;
            given = e;
            is_ip = b;
            chosen = rw (first_client_ip, e, b);
          })
          | inr b ↦
              let same : first_client_ip http (name ∷ names) headers peer ≡ rest =
                rw (first_client_ip, e, b) in
              subst (Outcome (name ∷ names)) (sym same)
                (skipped name names rest (rw e b) (first_client_ip-Outcome names))
        ]
      ]

  -- Over a connection that the trusted upstream opened, the client's address is what the first of
  -- the three headers that gives an address says, as the client or the upstream sent it, and the
  -- connection's own address only if none of them does.
  pub client_ip_of-Outcome : Outcome ip_headers (client_ip_of http true headers peer)
  unfolding client_ip_of
  client_ip_of-Outcome = first_client_ip-Outcome ip_headers

  Outcome-parses :
      (names : List Text) (client_ip : Text)
      → is_some (parse_ip peer) ≡ true
      → Outcome names client_ip
      → is_some (parse_ip client_ip) ≡ true
  Outcome-parses names client_ip h (inl d) = ap (λ t. is_some (parse_ip t)) d.chosen ∙ d.is_ip
  Outcome-parses names client_ip h (inr (_, same)) = ap (λ t. is_some (parse_ip t)) same ∙ h

  client_ip_of-parses :
      (is_proxy_protocol : Bool)
      → is_some (parse_ip peer) ≡ true
      → is_some (parse_ip (client_ip_of http is_proxy_protocol headers peer)) ≡ true
  unfolding client_ip_of
  client_ip_of-parses true h = Outcome-parses ip_headers _ h client_ip_of-Outcome
  client_ip_of-parses false h = h

-- Over a connection from an IPv4 address, of at most 32 bits, the text that a request is screened
-- under parses as an address, whatever its headers are and whether or not the trusted upstream
-- opened it.
pub client_ip_of-ipv4 :
    (http : HeaderMaps) (headers : http.HeaderMap) (is_proxy_protocol : Bool) (a : ℕ)
    → a < 4_294_967_296
    → is_some (parse_ip (client_ip_of http is_proxy_protocol headers (ip_to_string (v4 a)))) ≡ true
client_ip_of-ipv4 http headers is_proxy_protocol a h =
    client_ip_of-parses http headers (ip_to_string (v4 a)) is_proxy_protocol
      (ap is_some (parse_ip-ip_to_string a h))
