-- ===== src/Security/Checks.antt =====
-- src/security.rs: what `is_blacklisted` answers, and what it leaves of the bans.
use barebones_reverse_proxy.Prelude.{
  ℕ, ◌≤◌, ◌≡◌, sym, ap, ◌∙◌, inl, inr, Bool, false, none, some, ltb, arith, Bool-cases,
  Option-cases, remove, remove_ne, remove_self,
}
use barebones_reverse_proxy.Net.{IpAddr, ip_eq, ip_eq_iff, ip_addr_eq}
use barebones_reverse_proxy.Security.{SecurityManagerInner, is_blacklisted}

-- Whether a ban of the address is still running.
unfoldable pub is_banned : IpAddr → ℕ → SecurityManagerInner → Bool
is_banned ip now s = elim (s.blacklist ip) [ none ↦ false | some until ↦ ltb now until ]

pub is_blacklisted-is_banned :
    (ip : IpAddr) (now : ℕ) (s : SecurityManagerInner)
    → (is_blacklisted ip now s).0 ≡ is_banned ip now s
unfolding is_blacklisted is_banned
is_blacklisted-is_banned ip now s = elim (Option-cases (s.blacklist ip)) [
  | inl e ↦ rw (e, is_blacklisted, is_banned)
  | inr (until, e) ↦ elim (Bool-cases (ltb now until)) [
    | inl b ↦ rw (e, b, is_blacklisted, is_banned)
    | inr b ↦ rw (e, b, is_blacklisted, is_banned)
  ]
]

-- A check takes out only bans that are over.
pub is_banned-is_blacklisted :
    (ip jp : IpAddr) (now later : ℕ) (s : SecurityManagerInner)
    → now ≤ later
    → is_banned jp later (is_blacklisted ip now s).1 ≡ is_banned jp later s
unfolding is_blacklisted is_banned
is_banned-is_blacklisted ip jp now later s h = elim (Option-cases (s.blacklist ip)) [
  | inl e ↦ rw (is_blacklisted, e)
  | inr (until, e) ↦ elim (Bool-cases (ltb now until)) [
    | inl b ↦ rw (is_blacklisted, e, b)
    | inr b ↦ elim (Bool-cases (ip_eq ip jp)) [
      | inl same ↦
          let k : ip ≡ jp = (ip_eq_iff ip jp).0 same in
          let end : s.blacklist jp ≡ some until = ap s.blacklist (sym k) ∙ e in
          let gone : remove ip s.blacklist jp ≡ none =
            ap (λ i. remove i s.blacklist jp) k ∙ remove_self jp s.blacklist in
          rw (is_blacklisted, e, b, is_banned, gone, end) (ground arith)
      | inr other ↦ rw (is_blacklisted, e, b, is_banned, remove_ne ip jp s.blacklist other)
    ]
  ]
]
