-- ===== src/Prelude/Urlsafe.antt =====
-- `base64.urlsafe_b64encode` and `base64.urlsafe_b64decode`. The decoder is that of
-- `binascii.a2b_base64` without its strict mode: it skips the characters that are not of the alphabet
-- and stops at the padding that ends a group.
use msgate.Prelude.{
  ℕ, suc, ◌+◌, ◌-◌, ◌*◌, ◌/◌, ◌%◌, ◌<◌, ◌≡◌, refl, ap, true, false, Bool, ◌&&◌, ◌||◌, Option, none,
  some, [], ◌∷◌, Text, leb, ltb, ◌==◌, if◌then◌else◌, arith, All,
}
use msgate.Prelude.Base64.{Bytes, IsBytes}
use msgate.Prelude.Texts.{is_empty}
use mathlib.Core.Path.{ap₂}

url_letter : ℕ → ℕ
url_letter n =
    if ltb n 26
    then n + b'A'
    else if ltb n 52
    then n + 71
    else if ltb n 62
    then n - 4
    else if n == 62
    then b'-'
    else b'_'

-- The alphabet with `-` and `_`; `urlsafe_b64decode` leaves `+` and `/` as they are.
url_value : ℕ → Option ℕ
url_value c =
    if leb b'A' c && leb c b'Z'
    then some (c - b'A')
    else if leb b'a' c && leb c b'z'
    then some (c - 71)
    else if leb b'0' c && leb c b'9'
    then some (c + 4)
    else if c == b'-' || c == b'+'
    then some 62
    else if c == b'_' || c == b'/'
    then some 63
    else none

abbrev equals : ℕ
equals = b'='

unfoldable pub urlsafe_b64encode : Bytes → Text
unfolding url_letter
urlsafe_b64encode [] = []
urlsafe_b64encode (a ∷ []) = url_letter (a / 4) ∷ url_letter (a % 4 * 16) ∷ equals ∷ equals ∷ []
urlsafe_b64encode (a ∷ b ∷ []) =
    url_letter (a / 4) ∷ url_letter (a % 4 * 16 + b / 16) ∷ url_letter (b % 16 * 4) ∷ equals ∷ []
urlsafe_b64encode (a ∷ b ∷ c ∷ rest) =
    url_letter (a / 4)
    ∷ url_letter (a % 4 * 16 + b / 16)
    ∷ url_letter (b % 16 * 4 + c / 64)
    ∷ url_letter (c % 64)
    ∷ urlsafe_b64encode rest

-- Where the decoder stands in a group of four, with the bits that it has not put out.
pub data Place : Type 0 where
  first : Place
  second third fourth : ℕ → Place

-- What one more value of six bits gives, and the next place.
abbrev put_out : Place → ℕ → Bytes × Place
put_out first v = ([], second v)
put_out (second left) v = ((left * 4 + v / 16) ∷ [], third (v % 16))
put_out (third left) v = ((left * 16 + v / 4) ∷ [], fourth (v % 4))
put_out (fourth left) v = ((left * 64 + v) ∷ [], first)

-- Whether the padding ends the group after `pads` earlier ones.
abbrev ends_group : Place → ℕ → Bool
ends_group first pads = false
ends_group (second left) pads = false
ends_group (third left) pads = leb 1 pads
ends_group (fourth left) pads = true

abbrev pads_after : Place → ℕ → ℕ
pads_after (third left) pads = suc pads
pads_after _ pads = pads

abbrev at_first : Place → Option Bytes
at_first first = some []
at_first _ = none

abbrev push_bytes : Bytes → Option Bytes → Option Bytes
push_bytes [] rest = rest
push_bytes (b ∷ bs) none = none
push_bytes (b ∷ bs) (some rest) = some (b ∷ rest)

a2b : Place → ℕ → Text → Option Bytes
unfolding url_value
a2b place pads [] = at_first place
a2b place pads (c ∷ s) = elim (c == equals) [
  | true ↦ elim (ends_group place pads) [
    | true ↦ some []
    | false ↦ a2b place (pads_after place pads) s
  ]
  | false ↦ elim (url_value c) [
    | none ↦ a2b place pads s
    | some v ↦ push_bytes (put_out place v).0 (a2b (put_out place v).1 0 s)
  ]
]

-- `none` is a `binascii.Error`, which is a ValueError.
unfoldable pub urlsafe_b64decode : Text → Option Bytes
unfolding a2b
urlsafe_b64decode s = a2b first 0 s

url_value-letter : (n : ℕ) → n < 64 → url_value (url_letter n) ≡ some n
unfolding url_value url_letter
url_value-letter n h = ground arith

url_letter-equals : (n : ℕ) → n < 64 → (url_letter n == equals) ≡ false
unfolding url_letter
url_letter-equals n h = ground arith

a2b-letter :
    (place : Place) (n : ℕ) (s : Text)
    → n < 64
    → a2b place 0 (url_letter n ∷ s) ≡ push_bytes (put_out place n).0 (a2b (put_out place n).1 0 s)
unfolding a2b
a2b-letter place n s h = rw (url_letter-equals n h, a2b) (rw (url_value-letter n h) refl)

a2b-first : (n : ℕ) (s : Text) → n < 64 → a2b first 0 (url_letter n ∷ s) ≡ a2b (second n) 0 s
a2b-first n s h = a2b-letter first n s h

a2b-second :
    (left n : ℕ) (s : Text)
    → n < 64
    → a2b (second left) 0 (url_letter n ∷ s)
      ≡ push_bytes ((left * 4 + n / 16) ∷ []) (a2b (third (n % 16)) 0 s)
a2b-second left n s h = a2b-letter (second left) n s h

a2b-third :
    (left n : ℕ) (s : Text)
    → n < 64
    → a2b (third left) 0 (url_letter n ∷ s)
      ≡ push_bytes ((left * 16 + n / 4) ∷ []) (a2b (fourth (n % 4)) 0 s)
a2b-third left n s h = a2b-letter (third left) n s h

a2b-fourth :
    (left n : ℕ) (s : Text)
    → n < 64
    → a2b (fourth left) 0 (url_letter n ∷ s) ≡ push_bytes ((left * 64 + n) ∷ []) (a2b first 0 s)
a2b-fourth left n s h = a2b-letter (fourth left) n s h

nothing_left : a2b first 0 [] ≡ some []
unfolding a2b
nothing_left = refl

padding_of_two : (left : ℕ) → a2b (third left) 0 (equals ∷ equals ∷ []) ≡ some []
unfolding a2b
padding_of_two left = refl

padding_of_one : (left : ℕ) → a2b (fourth left) 0 (equals ∷ []) ≡ some []
unfolding a2b
padding_of_one left = refl

a2b-urlsafe_b64encode : (bs : Bytes) → IsBytes bs → a2b first 0 (urlsafe_b64encode bs) ≡ some bs
unfolding urlsafe_b64encode
a2b-urlsafe_b64encode [] h = nothing_left
a2b-urlsafe_b64encode (a ∷ []) h =
    rw
      (
        a2b-first (a / 4) (url_letter (a % 4 * 16) ∷ equals ∷ equals ∷ []) (omega arith),
        a2b-second (a / 4) (a % 4 * 16) (equals ∷ equals ∷ []) (omega arith),
        padding_of_two (a % 4 * 16 % 16),
      )
      (ap (λ t. some (t ∷ [])) (omega arith))
a2b-urlsafe_b64encode (a ∷ b ∷ []) h =
    let m = a % 4 * 16 + b / 16 in
    let n = b % 16 * 4 in
    rw
      (
        a2b-first (a / 4) (url_letter m ∷ url_letter n ∷ equals ∷ []) (omega arith),
        a2b-second (a / 4) m (url_letter n ∷ equals ∷ []) (omega arith),
        a2b-third (m % 16) n (equals ∷ []) (omega arith),
        padding_of_one (n % 4),
      )
      (ap₂ (λ t u. some (t ∷ u ∷ [])) (omega arith) (omega arith))
a2b-urlsafe_b64encode (a ∷ b ∷ c ∷ rest) h =
    let m = a % 4 * 16 + b / 16 in
    let n = b % 16 * 4 + c / 64 in
    let s = urlsafe_b64encode rest in
    rw
      (
        a2b-first (a / 4) (url_letter m ∷ url_letter n ∷ url_letter (c % 64) ∷ s) (omega arith),
        a2b-second (a / 4) m (url_letter n ∷ url_letter (c % 64) ∷ s) (omega arith),
        a2b-third (m % 16) n (url_letter (c % 64) ∷ s) (omega arith),
        a2b-fourth (n % 4) (c % 64) s (omega arith),
        a2b-urlsafe_b64encode rest h.1.1.1,
      )
      (ground arith)

-- Every list of bytes is read back from its encoding.
pub urlsafe_b64decode-encode :
    (bs : Bytes) → IsBytes bs → urlsafe_b64decode (urlsafe_b64encode bs) ≡ some bs
unfolding urlsafe_b64decode
urlsafe_b64decode-encode bs h = a2b-urlsafe_b64encode bs h

-- A character of the encoding is of ASCII, no full stop, and visible.
abbrev pub UrlChar : ℕ → Type 0
UrlChar c = (c < 128) × ((b'.' == c) ≡ false) × (32 < c)

url_letter-UrlChar : (n : ℕ) → UrlChar (url_letter n)
unfolding url_letter
url_letter-UrlChar n = (ground arith, ground arith, ground arith)

equals-UrlChar : UrlChar equals
equals-UrlChar = (ground arith, refl, ground arith)

pub urlsafe_b64encode-UrlChar : (bs : Bytes) → All UrlChar (urlsafe_b64encode bs)
unfolding urlsafe_b64encode
urlsafe_b64encode-UrlChar [] = tt
urlsafe_b64encode-UrlChar (a ∷ []) = (
  url_letter-UrlChar (a / 4),
  (url_letter-UrlChar (a % 4 * 16), (equals-UrlChar, (equals-UrlChar, tt))),
)
urlsafe_b64encode-UrlChar (a ∷ b ∷ []) = (
  url_letter-UrlChar (a / 4),
  (
    url_letter-UrlChar (a % 4 * 16 + b / 16),
    (url_letter-UrlChar (b % 16 * 4), (equals-UrlChar, tt)),
  ),
)
urlsafe_b64encode-UrlChar (a ∷ b ∷ c ∷ rest) = (
  url_letter-UrlChar (a / 4),
  (
    url_letter-UrlChar (a % 4 * 16 + b / 16),
    (
      url_letter-UrlChar (b % 16 * 4 + c / 64),
      (url_letter-UrlChar (c % 64), urlsafe_b64encode-UrlChar rest),
    ),
  ),
)

pub urlsafe_b64encode-nonempty :
    (bs : Bytes) → is_empty bs ≡ false → is_empty (urlsafe_b64encode bs) ≡ false
unfolding urlsafe_b64encode
urlsafe_b64encode-nonempty [] h = absurd (cc)
urlsafe_b64encode-nonempty (a ∷ []) h = refl
urlsafe_b64encode-nonempty (a ∷ b ∷ []) h = refl
urlsafe_b64encode-nonempty (a ∷ b ∷ c ∷ rest) h = refl
