-- ===== src/Auth/Passwords.antt =====
-- src/msgate/auth/passwords.py. Scrypt and UTF-8 are parameters, as is the salt that a call draws.
use msgate.Prelude.{
  ℕ, ◌+◌, ◌-◌, ◌/◌, ◌%◌, ◌*◌, ◌^◌, Bool, true, false, ◌&&◌, ◌||◌, Option, none, some, List, [], ◌∷◌,
  ◌++◌, Text, codes, text_eq, leb, ltb, ◌==◌, length, if◌then◌else◌,
}
use msgate.Prelude.Base64.{Bytes, IsBytes}
use msgate.Prelude.Ints.{ℤ, pos, parse_int, show_ℕ}
use msgate.Prelude.Results.{Result, ok, raise, value_error}
pub mod Hashing

-- One byte as two digits of base 16.
hex_digit : ℕ → ℕ
hex_digit n = if ltb n 10 then n + b'0' else n + 87

unfoldable pub hex : Bytes → Text
unfolding hex_digit
hex [] = []
hex (b ∷ bs) = hex_digit (b / 16) ∷ hex_digit (b % 16) ∷ hex bs

hex_value : ℕ → Option ℕ
hex_value c =
    if leb b'0' c && leb c b'9'
    then some (c - b'0')
    else if leb b'a' c && leb c b'f'
    then some (c - 87)
    else if leb b'A' c && leb c b'F'
    then some (c - 55)
    else none

-- The white space that `bytes.fromhex` skips before a byte.
abbrev pub is_ascii_space : ℕ → Bool
is_ascii_space c = c == 32 || (leb 9 c && leb c 13)

abbrev pub hex_pair : Option ℕ → Option ℕ → Option Bytes → Option Bytes
hex_pair (some h) (some l) (some bs) = some ((h * 16 + l) ∷ bs)
hex_pair _ _ _ = none

-- `bytes.fromhex`; `none` is a ValueError.
unfoldable pub fromhex : Text → Option Bytes
unfolding hex_value
fromhex [] = some []
fromhex (c ∷ []) = if is_ascii_space c then some [] else none
fromhex (c ∷ d ∷ s) = elim (is_ascii_space c) [
  | true ↦ fromhex (d ∷ s)
  | false ↦ hex_pair (hex_value c) (hex_value d) (fromhex s)
]

abbrev pub push_char : ℕ → List Text → List Text
push_char c [] = (c ∷ []) ∷ []
push_char c (part ∷ parts) = (c ∷ part) ∷ parts

-- `text.split(sep)` at a separator of one character.
unfoldable pub split : ℕ → Text → List Text
split sep [] = [] ∷ []
split sep (c ∷ s) = if sep == c then [] ∷ split sep s else push_char c (split sep s)

-- `hashlib.scrypt` over the plain text, the salt, n, r, p and dklen, and `str.encode`; `none` is a
-- ValueError. A digest has the length that was asked for.
pub record PasswordLibrary : Type 0 where
  pub encode_utf8 : Text → Option Bytes
  pub scrypt : Bytes → Bytes → ℤ → ℤ → ℤ → ℕ → Option Bytes
  pub scrypt-digest :
      (plain salt : Bytes) (n r p : ℤ) (dklen : ℕ) (digest : Bytes)
      → Path (Option Bytes) (scrypt plain salt n r p dklen) (some digest)
      → IsBytes digest × Path ℕ (length digest) dklen

abbrev pub min_len : ℕ
min_len = 8

abbrev pub scrypt_n : ℕ
scrypt_n = 2 ^ 14

abbrev pub scrypt_r : ℕ
scrypt_r = 8

abbrev pub scrypt_p : ℕ
scrypt_p = 1

abbrev pub dollar : ℕ
dollar = b'$'

-- `f"scrypt${n}${r}${p}${salt}${digest}"`
abbrev pub hash_text : Bytes → Bytes → Text
hash_text salt digest =
    codes "scrypt"
    ++ (dollar ∷ show_ℕ scrypt_n)
    ++ (dollar ∷ show_ℕ scrypt_r)
    ++ (dollar ∷ show_ℕ scrypt_p)
    ++ (dollar ∷ hex salt)
    ++ (dollar ∷ hex digest)

module _ (lib : PasswordLibrary) where
  abbrev pub digest_of : Text → Bytes → ℤ → ℤ → ℤ → ℕ → Option Bytes
  digest_of plain salt n r p dklen = elim (lib.encode_utf8 plain) [
    | none ↦ none
    | some bytes ↦ lib.scrypt bytes salt n r p dklen
  ]

  unfoldable pub hash_password : Text → Bytes → Result Text
  unfolding hex show_ℕ
  hash_password plain salt =
      if ltb (length plain) min_len
      then raise value_error
      else elim (digest_of plain salt (pos scrypt_n) (pos scrypt_r) (pos scrypt_p) 32) [
        | none ↦ raise value_error
        | some digest ↦ ok (hash_text salt digest)
      ]

  abbrev pub matches : Option Bytes → Bytes → Bool
  matches none expected = false
  matches (some actual) expected = text_eq actual expected

  abbrev pub verify_numbers : Text → Bytes → Bytes → Option ℤ → Option ℤ → Option ℤ → Bool
  verify_numbers plain salt expected (some n) (some r) (some p) =
      matches (digest_of plain salt n r p (length expected)) expected
  verify_numbers plain salt expected _ _ _ = false

  unfoldable pub verify_parts : Text → List Text → Bool
  unfolding fromhex
  verify_parts plain (algo ∷ n ∷ r ∷ p ∷ salt_hex ∷ digest_hex ∷ []) =
      if text_eq algo (codes "scrypt")
      then elim (fromhex salt_hex) [
        | none ↦ false
        | some salt ↦ elim (fromhex digest_hex) [
          | none ↦ false
          | some expected ↦
              verify_numbers plain salt expected (parse_int n) (parse_int r) (parse_int p)
        ]
      ]
      else false
  verify_parts plain _ = false

  unfoldable pub verify_password : Text → Text → Bool
  unfolding verify_parts split
  verify_password plain password_hash = verify_parts plain (split dollar password_hash)
