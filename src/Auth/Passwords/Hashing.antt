-- ===== src/Auth/Passwords/Hashing.antt =====
-- A password is accepted against its own hash: src/msgate/auth/passwords.py.
use msgate.Prelude.{
  ℕ, ◌+◌, ◌/◌, ◌%◌, ◌*◌, ◌<◌, true, false, Option, none, some, [], ◌∷◌, ◌++◌, ◌≡◌, refl, ap, ◌∙◌,
  Text, codes, ltb, ◌==◌, length, arith, All, Bool-cases, Option-cases, leb, text_eq_iff, ◌↔◌, inl,
  inr,
}
use msgate.Prelude.Base64.{Bytes, IsBytes}
use msgate.Prelude.Ints.{pos, parse_int, show_ℕ}
use msgate.Prelude.Results.{ok}
use msgate.Auth.Passwords.{
  hex, fromhex, split, is_ascii_space, PasswordLibrary, min_len, scrypt_n, scrypt_r, scrypt_p,
  dollar, hash_text, digest_of, hash_password, matches, verify_parts, verify_password, hex_digit,
  hex_value,
}

hex_value-digit : (n : ℕ) → n < 16 → hex_value (hex_digit n) ≡ some n
unfolding hex_value hex_digit
hex_value-digit n h = ground arith

digit_no_space : (n : ℕ) → n < 16 → is_ascii_space (hex_digit n) ≡ false
unfolding hex_digit
digit_no_space n h = ground arith

abbrev NoDollar : Text → Type 0
NoDollar = All (λ c. (dollar == c) ≡ false)

digit-NoDollar : (n : ℕ) → (dollar == hex_digit n) ≡ false
unfolding hex_digit
digit-NoDollar n = ground arith

hex-NoDollar : (bs : Bytes) → NoDollar (hex bs)
unfolding hex
hex-NoDollar [] = tt
hex-NoDollar (b ∷ bs) = (digit-NoDollar (b / 16), (digit-NoDollar (b % 16), hex-NoDollar bs))

fromhex-pair :
    (c d h l : ℕ) (s : Text) (bs : Bytes)
    → is_ascii_space c ≡ false
    → hex_value c ≡ some h
    → hex_value d ≡ some l
    → fromhex s ≡ some bs
    → fromhex (c ∷ d ∷ s) ≡ some ((h * 16 + l) ∷ bs)
unfolding fromhex
fromhex-pair c d h l s bs n e f g = rw (n, fromhex) (rw (e, f, g) refl)

fromhex-hex : (bs : Bytes) → IsBytes bs → fromhex (hex bs) ≡ some bs
unfolding hex fromhex
fromhex-hex [] h = refl
fromhex-hex (b ∷ bs) h =
    fromhex-pair (hex_digit (b / 16)) (hex_digit (b % 16)) (b / 16) (b % 16) (hex bs) bs
      (digit_no_space (b / 16) (omega arith)) (hex_value-digit (b / 16) (omega arith))
      (hex_value-digit (b % 16) (omega arith)) (fromhex-hex bs h.1)
    ∙ ap (λ c. some (c ∷ bs)) (omega arith)

split_end : (s : Text) → NoDollar s → split dollar s ≡ s ∷ []
unfolding split
split_end [] h = refl
split_end (c ∷ s) h = rw (h.0, split_end s h.1) refl

split_at : (s t : Text) → NoDollar s → split dollar (s ++ (dollar ∷ t)) ≡ s ∷ split dollar t
unfolding split
split_at [] t h = refl
split_at (c ∷ s) t h = rw (h.0, split_at s t h.1) refl

-- The first four parts are the same in every hash.
split-hash_text :
    (salt digest : Bytes)
    → split dollar (hash_text salt digest)
      ≡ codes "scrypt" ∷ codes "16384" ∷ codes "8" ∷ codes "1" ∷ hex salt ∷ hex digest ∷ []
unfolding split show_ℕ
split-hash_text salt digest =
    rw
      (
        split_at (hex salt) (hex digest) (hex-NoDollar salt),
        split_end (hex digest) (hex-NoDollar digest),
      )
      refl

module _ (lib : PasswordLibrary) where
  verify-hash_text :
      (plain : Text) (salt digest : Bytes)
      → IsBytes salt
      → IsBytes digest
      → verify_password lib plain (hash_text salt digest)
        ≡ matches lib
            (digest_of lib plain salt (pos scrypt_n) (pos scrypt_r) (pos scrypt_p) (length digest))
            digest
  unfolding verify_password verify_parts parse_int
  verify-hash_text plain salt digest hs hd =
      ap (verify_parts lib plain) (split-hash_text salt digest)
      ∙ rw (fromhex-hex salt hs, verify_parts) (rw (fromhex-hex digest hd) refl)

  -- The digest that a hash of the gateway keeps.
  abbrev pub own_digest : Text → Bytes → Option Bytes
  own_digest plain salt = digest_of lib plain salt (pos scrypt_n) (pos scrypt_r) (pos scrypt_p) 32

  hash_inv :
      (plain : Text) (salt : Bytes) (h : Text)
      → hash_password lib plain salt ≡ ok h
      → (digest : Bytes) × (own_digest plain salt ≡ some digest)
        × (h ≡ hash_text salt digest)
        × (leb min_len (length plain) ≡ true)
  unfolding hash_password
  hash_inv plain salt h e = elim (Bool-cases (ltb (length plain) min_len)) [
    | inl f ↦ absurd (let k = rw f at e in cc)
    | inr f ↦ elim (Option-cases (own_digest plain salt)) [
      | inl g ↦ absurd (let k = rw (f, g) at e in cc)
      | inr (digest, g) ↦ (digest, g, let k = rw (f, g) at e in cc, ground arith)
    ]
  ]

  scrypt-digest_of :
      (bytes : Option Bytes) (salt digest : Bytes)
      → elim bytes [
        | none ↦ none
        | some b ↦ lib.scrypt b salt (pos scrypt_n) (pos scrypt_r) (pos scrypt_p) 32
      ]
        ≡ some digest
      → IsBytes digest × (length digest ≡ 32)
  scrypt-digest_of none salt digest e = absurd (cc)
  scrypt-digest_of (some b) salt digest e =
      lib.scrypt-digest b salt (pos scrypt_n) (pos scrypt_r) (pos scrypt_p) 32 digest e

  matches_iff :
      (actual : Option Bytes) (expected : Bytes)
      → (matches lib actual expected ≡ true) ↔ (actual ≡ some expected)
  matches_iff none expected = (λ h. absurd (cc), λ e. absurd (cc))
  matches_iff (some actual) expected =
      (λ h. ap some ((text_eq_iff actual expected).0 h), λ e. (text_eq_iff actual expected).1 (cc))

  -- Against the hash of a password, made with a salt of bytes, exactly those passwords are accepted
  -- that have the same digest under that salt, and the hashed password has at least 8 characters.
  pub verify_password-hash_password :
      (plain other : Text) (salt : Bytes) (h : Text)
      → IsBytes salt
      → hash_password lib plain salt ≡ ok h
      → ((verify_password lib other h ≡ true) ↔ (own_digest other salt ≡ own_digest plain salt))
        × (leb min_len (length plain) ≡ true)
  verify_password-hash_password plain other salt h hs e =
      let (digest, g, is_hash, long) = hash_inv plain salt h e in
      let (hd, size) = scrypt-digest_of (lib.encode_utf8 plain) salt digest g in
      let same = matches_iff (own_digest other salt) digest in
      let verified = verify-hash_text other salt digest hs hd in
      (rw (is_hash, verified, size, g) same, long)
