-- ===== src/Smtp/Access/Allowed.antt =====
-- Which addresses the allowlist of src/msgate/smtp/access.py admits.
use msgate.Prelude.{
  ℕ, ◌≡◌, ◌↔◌, ◌⊎◌, inl, inr, Bool, true, false, some, List, [], ◌∷◌, Text, Bool-cases,
  Option-cases, arith, Has, here, there,
}
use msgate.Prelude.Texts.{strip, is_empty, has_char}
use msgate.Smtp.Access.{IpLibrary, entry_matches, any_matches, ip_allowed}

-- An entry names the address, or a network that holds it; white space round it does not count.
abbrev pub Names : IpLibrary → ℕ → Text → Type 0
Names ip addr raw =
    let entry = strip raw in
    (is_empty entry ≡ false)
    × (((has_char b'/' entry ≡ true)
          × ((net : ℕ → Bool) × (ip.ip_network entry ≡ some net) × (net addr ≡ true)))
        ⊎ ((has_char b'/' entry ≡ false) × (ip.ip_address entry ≡ some addr)))

entry_matches-Names :
    (ip : IpLibrary) (addr : ℕ) (raw : Text)
    → (entry_matches ip addr raw ≡ true) ↔ Names ip addr raw
unfolding entry_matches
entry_matches-Names ip addr raw = (to, λ n. ground (arith, n.1))
  where
    entry : Text
    entry = strip raw

    to : entry_matches ip addr raw ≡ true → Names ip addr raw
    to h = elim (Bool-cases (is_empty entry)) [
      | inl e ↦ absurd (ground arith)
      | inr e ↦ elim (Bool-cases (has_char b'/' entry)) [
        | inl f ↦ elim (Option-cases (ip.ip_network entry)) [
          | inl g ↦ absurd (ground arith)
          | inr (net, g) ↦ (e, inl (f, (net, g, ground arith)))
        ]
        | inr f ↦ elim (Option-cases (ip.ip_address entry)) [
          | inl g ↦ absurd (ground arith)
          | inr (a, g) ↦ (e, inr (f, ground arith))
        ]
      ]
    ]

any_matches-Has :
    (ip : IpLibrary) (addr : ℕ) (entries : List Text)
    → any_matches ip addr entries ≡ true
    → (entry : Text) × Has entry entries × Names ip addr entry
unfolding any_matches
any_matches-Has ip addr [] h = absurd (cc)
any_matches-Has ip addr (x ∷ xs) h = elim (Bool-cases (entry_matches ip addr x)) [
  | inl e ↦ (x, here, (entry_matches-Names ip addr x).0 e)
  | inr e ↦ let r = any_matches-Has ip addr xs (rw e at h) in (r.0, there r.1, r.2)
]

Has-any_matches :
    (ip : IpLibrary) (addr : ℕ) (entry : Text) (entries : List Text)
    → Has entry entries
    → Names ip addr entry
    → any_matches ip addr entries ≡ true
unfolding any_matches
Has-any_matches ip addr entry [] m n = elim m [ ]
Has-any_matches ip addr entry (x ∷ xs) here n = rw ((entry_matches-Names ip addr x).1 n)
Has-any_matches ip addr entry (x ∷ xs) (there m) n = elim (Bool-cases (entry_matches ip addr x)) [
  | inl e ↦ rw e
  | inr e ↦ rw e (Has-any_matches ip addr entry xs m n)
]

-- A client is admitted exactly if its address can be parsed and some entry of the list, malformed
-- ones passed over, is that address or a network that holds it.
pub ip_allowed_iff :
    (ip : IpLibrary) (client_ip : Text) (allowed : List Text)
    → (ip_allowed ip client_ip allowed ≡ true) ↔ (
        (addr : ℕ) × (entry : Text) × (ip.ip_address client_ip ≡ some addr)
        × Has entry allowed
        × Names ip addr entry)
unfolding ip_allowed
ip_allowed_iff ip client_ip allowed = (to, from)
  where
    to :
        ip_allowed ip client_ip allowed ≡ true
        → (addr : ℕ) × (entry : Text) × (ip.ip_address client_ip ≡ some addr)
          × Has entry allowed
          × Names ip addr entry
    to h = elim (Option-cases (ip.ip_address client_ip)) [
      | inl e ↦ absurd (ground arith)
      | inr (addr, e) ↦
          let r = any_matches-Has ip addr allowed (rw (e, ip_allowed) at h) in
          (addr, r.0, e, r.1, r.2)
    ]

    from :
        ((addr : ℕ) × (entry : Text) × (ip.ip_address client_ip ≡ some addr)
          × Has entry allowed
          × Names ip addr entry)
        → ip_allowed ip client_ip allowed ≡ true
    from (addr, entry, e, m, n) = rw (e, ip_allowed) (Has-any_matches ip addr entry allowed m n)
