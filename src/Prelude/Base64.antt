-- ===== src/Prelude/Base64.antt =====
-- `base64.b64encode` and `base64.b64decode` over lists of bytes. Decoding is modelled on texts of
-- the alphabet with padding at the end, which is all that the gateway stores.
use msgate.Prelude.{
  ℕ, ◌+◌, ◌-◌, ◌*◌, ◌/◌, ◌%◌, ◌<◌, ◌≡◌, refl, ap, true, ◌&&◌, Option, none, some, List, [], ◌∷◌,
  Text, leb, ltb, ◌==◌, if◌then◌else◌, arith, All,
}
use msgate.Prelude.Texts.{is_empty}
use mathlib.Core.Option
use mathlib.Core.Path.{ap₂}

abbrev pub Bytes : Type 0
Bytes = List ℕ

abbrev pub IsBytes : Bytes → Type 0
IsBytes = All (λ b. b < 256)

abbrev pad : ℕ
pad = b'='

letter : ℕ → ℕ
letter n =
    if ltb n 26
    then n + b'A'
    else if ltb n 52
    then n + 71
    else if ltb n 62
    then n - 4
    else if n == 62
    then b'+'
    else b'/'

value : ℕ → Option ℕ
value c =
    if leb b'A' c && leb c b'Z'
    then some (c - b'A')
    else if leb b'a' c && leb c b'z'
    then some (c - 71)
    else if leb b'0' c && leb c b'9'
    then some (c + 4)
    else if c == b'+'
    then some 62
    else if c == b'/'
    then some 63
    else none

unfoldable pub b64encode : Bytes → Text
unfolding letter
b64encode [] = []
b64encode (a ∷ []) = letter (a / 4) ∷ letter (a % 4 * 16) ∷ pad ∷ pad ∷ []
b64encode (a ∷ b ∷ []) =
    letter (a / 4) ∷ letter (a % 4 * 16 + b / 16) ∷ letter (b % 16 * 4) ∷ pad ∷ []
b64encode (a ∷ b ∷ c ∷ rest) =
    letter (a / 4)
    ∷ letter (a % 4 * 16 + b / 16)
    ∷ letter (b % 16 * 4 + c / 64)
    ∷ letter (c % 64)
    ∷ b64encode rest

-- The last group of four characters, which may be padded.
abbrev last_group : ℕ → ℕ → Option ℕ → ℕ → ℕ → Option Bytes
last_group x y none r s = if r == pad && s == pad then some ((x * 4 + y / 16) ∷ []) else none
last_group x y (some z) r s =
    if s == pad then some ((x * 4 + y / 16) ∷ (y % 16 * 16 + z / 4) ∷ []) else none

abbrev full_group : ℕ → ℕ → ℕ → ℕ → Bytes → Bytes
full_group x y z w rest = (x * 4 + y / 16) ∷ (y % 16 * 16 + z / 4) ∷ (z % 4 * 64 + w) ∷ rest

abbrev group :
    Option ℕ → Option ℕ → Option ℕ → Option ℕ → Option Bytes → Option Bytes → Option Bytes
group (some x) (some y) (some z) (some w) rest tail = Option.map (full_group x y z w) rest
group (some x) (some y) _ _ rest tail = tail
group _ _ _ _ rest tail = none

abbrev or_zero : Option ℕ → ℕ
or_zero none = 0
or_zero (some n) = n

unfoldable pub b64decode : Text → Option Bytes
unfolding value
b64decode [] = some []
b64decode (p ∷ q ∷ r ∷ s ∷ rest) =
    let tail =
      if is_empty rest
      then last_group (or_zero (value p)) (or_zero (value q)) (value r) r s
      else none in
    group (value p) (value q) (value r) (value s) (b64decode rest) tail
b64decode _ = none

value-letter : (n : ℕ) → n < 64 → value (letter n) ≡ some n
unfolding value letter
value-letter n h = ground arith

value-pad : value pad ≡ none
unfolding value
value-pad = refl

-- Every list of bytes is read back from its encoding.
pub b64decode-b64encode : (bs : Bytes) → IsBytes bs → b64decode (b64encode bs) ≡ some bs
unfolding b64encode b64decode
b64decode-b64encode [] h = refl
b64decode-b64encode (a ∷ []) h =
    rw (value-letter (a / 4) (omega arith), value-letter (a % 4 * 16) (omega arith))
      (ap (λ t. some (t ∷ [])) (omega arith))
b64decode-b64encode (a ∷ b ∷ []) h =
    rw
      (
        value-letter (a / 4) (omega arith),
        value-letter (a % 4 * 16 + b / 16) (omega arith),
        value-letter (b % 16 * 4) (omega arith),
      )
      (ap₂ (λ t u. some (t ∷ u ∷ [])) (omega arith) (omega arith))
b64decode-b64encode (a ∷ b ∷ c ∷ rest) h =
    rw
      (
        value-letter (a / 4) (omega arith),
        value-letter (a % 4 * 16 + b / 16) (omega arith),
        value-letter (b % 16 * 4 + c / 64) (omega arith),
        value-letter (c % 64) (omega arith),
        b64decode-b64encode rest h.1.1.1,
      )
      (ground arith)

pub b64encode_blank : (bs : Bytes) → is_empty (b64encode bs) ≡ true → bs ≡ []
unfolding b64encode
b64encode_blank [] h = refl
b64encode_blank (a ∷ []) h = absurd (cc)
b64encode_blank (a ∷ b ∷ []) h = absurd (cc)
b64encode_blank (a ∷ b ∷ c ∷ rest) h = absurd (cc)
