-- ===== src/Prelude/Ints.antt =====
-- Python's `int` as far as settings are read from text: integers, and `int(text)` over ASCII digits
-- with a sign and single underscores between digits.
use msgate.Prelude.{
  ℕ, zero, suc, ◌+◌, ◌-◌, ◌*◌, ◌/◌, ◌%◌, ◌++◌, ltb, max, min, Bool, true, false, ◌&&◌, Option, none,
  some, [], ◌∷◌, Text, leb, ◌==◌, if◌then◌else◌,
}
use msgate.Prelude.Texts.{strip}
use mathlib.Core.Option

-- `negsuc n` is -(n + 1).
pub data ℤ : Type 0 where
  pos : ℕ → ℤ
  negsuc : ℕ → ℤ

pub negate : ℕ → ℤ
negate n = if n == 0 then pos 0 else negsuc (n - 1)

-- `max(floor, value)` where the floor is not negative.
abbrev pub at_least : ℕ → ℤ → ℕ
at_least floor (pos n) = max floor n
at_least floor (negsuc n) = floor

-- `min(ceiling, value)`.
abbrev pub at_most : ℕ → ℤ → ℤ
at_most ceiling (pos n) = pos (min ceiling n)
at_most ceiling (negsuc n) = negsuc n

is_digit : ℕ → Bool
is_digit c = leb b'0' c && leb c b'9'

digits_value : ℕ → Bool → Text → Option ℕ
unfolding is_digit
digits_value acc after_digit [] = if after_digit then some acc else none
digits_value acc after_digit (c ∷ s) = elim (is_digit c) [
  | true ↦ digits_value (acc * 10 + (c - 48)) true s
  | false ↦ elim (c == b'_' && after_digit) [ true ↦ digits_value acc false s | false ↦ none ]
]

signed : Text → Option ℤ
unfolding digits_value negate
signed [] = none
signed (c ∷ s) =
    if c == b'-'
    then Option.map negate (digits_value 0 false s)
    else if c == b'+'
    then Option.map pos (digits_value 0 false s)
    else Option.map pos (digits_value 0 false (c ∷ s))

-- `int(text)`; `none` is a ValueError.
unfoldable pub parse_int : Text → Option ℤ
unfolding signed strip
parse_int text = signed (strip text)

-- `os.environ`.
abbrev pub Environ : Type 0
Environ = Text → Option Text

-- `os.environ.get(name, default)`.
abbrev pub get_env : Environ → Text → Text → Text
get_env environ name default = elim (environ name) [ none ↦ default | some v ↦ v ]

-- The decimal digits of a number; a number has no more digits than its successor has units.
show_digits : ℕ → ℕ → Text
show_digits zero n = []
show_digits (suc f) n = elim (ltb n 10) [
  | true ↦ (n + b'0') ∷ []
  | false ↦ show_digits f (n / 10) ++ ((n % 10 + b'0') ∷ [])
]

-- `str(n)`
unfoldable pub show_ℕ : ℕ → Text
unfolding show_digits
show_ℕ n = show_digits (suc n) n
