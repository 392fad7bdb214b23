-- ===== src/Smtp/Access.antt =====
-- src/msgate/smtp/access.py: the allowlist of hosts and networks. Parsing is Python's `ipaddress`
-- module, which is a parameter; `none` is its ValueError.
use msgate.Prelude.{
  ℕ, ◌≡◌, ◌↔◌, refl, Bool, true, false, Option, none, some, List, [], ◌∷◌, Text, ◌==◌,
  if◌then◌else◌,
}
use msgate.Prelude.Texts.{strip, is_empty, has_char}
pub mod Allowed

pub record IpLibrary : Type 0 where
  pub ip_address : Text → Option ℕ
  -- `ip_network(text, strict=False)`, as the set of its addresses.
  pub ip_network : Text → Option (ℕ → Bool)

unfoldable pub entry_matches : IpLibrary → ℕ → Text → Bool
entry_matches ip addr raw =
    let entry = strip raw in
    if is_empty entry
    then false
    else if has_char b'/' entry
    then elim (ip.ip_network entry) [ none ↦ false | some net ↦ net addr ]
    else elim (ip.ip_address entry) [ none ↦ false | some a ↦ addr == a ]

unfoldable pub any_matches : IpLibrary → ℕ → List Text → Bool
unfolding entry_matches
any_matches ip addr [] = false
any_matches ip addr (entry ∷ rest) =
    if entry_matches ip addr entry then true else any_matches ip addr rest

unfoldable pub ip_allowed : IpLibrary → Text → List Text → Bool
unfolding any_matches
ip_allowed ip client_ip allowed = elim (ip.ip_address client_ip) [
  | none ↦ false
  | some addr ↦ any_matches ip addr allowed
]
