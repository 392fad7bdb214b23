-- ===== src/Prelude/Texts.antt =====
-- Python's `str` as a list of code points, with the methods that the gateway calls: `in`,
-- `startswith`, `partition`, `strip`, `rstrip`, `lower`, slicing and concatenation.
use Prim.Native.Char.{code}
use Prim.Native.Nat.{ℕ, zero, suc, ◌+◌, ◌-◌}
use Prim.Native.String.{String}
use mathlib.Core.Bool.{Bool, true, false, ◌&&◌, ◌||◌}
use mathlib.Core.List.{List, [], ◌∷◌, ◌++◌}
use mathlib.Core.Logic.{◌↔◌, inl, inr}
use mathlib.Core.Path.{◌≡◌, refl}
use native.Mathlib.Omega.{arith}
use msgate.Prelude.Tests.{leb, ◌==◌, if◌then◌else◌, Bool-cases}

abbrev pub Text : Type 0
Text = List ℕ

-- A literal of the source. `String` has its own `[]` and `∷`.
abbrev pub codes : String → Text
codes String.[] = []
codes (String.◌∷◌ c s) = code c ∷ codes s

abbrev pub text_eq : Text → Text → Bool
text_eq [] [] = true
text_eq [] (y ∷ ys) = false
text_eq (x ∷ xs) [] = false
text_eq (x ∷ xs) (y ∷ ys) = if x == y then text_eq xs ys else false

pub text_eq_refl : (s : Text) → text_eq s s ≡ true
text_eq_refl [] = refl
text_eq_refl (x ∷ xs) = ground (arith, text_eq_refl xs)

pub text_eq_sound : (s t : Text) → text_eq s t ≡ true → s ≡ t
text_eq_sound [] [] h = refl
text_eq_sound [] (y ∷ ys) h = cc
text_eq_sound (x ∷ xs) [] h = cc
text_eq_sound (x ∷ xs) (y ∷ ys) h = ground (arith, text_eq_sound xs ys)

pub text_eq_iff : (s t : Text) → (text_eq s t ≡ true) ↔ (s ≡ t)
text_eq_iff s t = (text_eq_sound s t, λ e. rw e (text_eq_refl t))

pub text_eq-false : (s t : Text) → ¬ (s ≡ t) → text_eq s t ≡ false
text_eq-false s t n = elim (Bool-cases (text_eq s t)) [
  | inl e ↦ absurd (n (text_eq_sound s t e))
  | inr e ↦ e
]

abbrev pub is_empty : Text → Bool
is_empty [] = true
is_empty (c ∷ s) = false

pub is_empty_nil : (t : Text) → is_empty t ≡ true → t ≡ []
is_empty_nil [] h = refl
is_empty_nil (c ∷ t) h = cc

abbrev pub starts_with : Text → Text → Bool
starts_with [] s = true
starts_with (p ∷ ps) [] = false
starts_with (p ∷ ps) (c ∷ s) = if p == c then starts_with ps s else false

-- `needle in text`
abbrev pub contains : Text → Text → Bool
contains needle [] = is_empty needle
contains needle (c ∷ s) = if starts_with needle (c ∷ s) then true else contains needle s

abbrev pub has_char : ℕ → Text → Bool
has_char c [] = false
has_char c (d ∷ s) = if c == d then true else has_char c s

-- `text.partition(c)` at a separator of one character: the part before, whether it was found, and
-- the part after.
abbrev pub partition : ℕ → Text → Text × Bool × Text
partition c [] = ([], false, [])
partition c (d ∷ s) =
    let (before, found, after) = partition c s in
    if c == d then ([], true, s) else (d ∷ before, found, after)

abbrev text_length : Text → ℕ
text_length [] = 0
text_length (c ∷ s) = suc (text_length s)

-- `text.replace(needle, other)` for a needle that is not empty; the number counts the characters of
-- an occurrence that are still to be skipped.
abbrev pub replace_from : Text → Text → ℕ → Text → Text
replace_from needle other skip [] = []
replace_from needle other (suc skip) (c ∷ s) = replace_from needle other skip s
replace_from needle other zero (c ∷ s) =
    let found = starts_with needle (c ∷ s) in
    let rest = replace_from needle other (if found then text_length needle - 1 else 0) s in
    if found then other ++ rest else c ∷ rest

abbrev pub replace : Text → Text → Text → Text
replace needle other s = replace_from needle other 0 s

-- `str.isspace` of one character; the white space of the Unicode database.
abbrev pub is_space : ℕ → Bool
is_space c =
    (leb 9 c && leb c 13)
    || (leb 28 c && leb c 32)
    || c == 0x85
    || c == 0xa0
    || c == 0x1680
    || (leb 0x2000 c && leb c 0x200a)
    || c == 0x2028
    || c == 0x2029
    || c == 0x202f
    || c == 0x205f
    || c == 0x3000

abbrev pub drop_while : (ℕ → Bool) → Text → Text
drop_while p [] = []
drop_while p (c ∷ s) = if p c then drop_while p s else c ∷ s

-- Drops the longest suffix of characters that satisfy p.
abbrev pub drop_tail : (ℕ → Bool) → Text → Text
drop_tail p [] = []
drop_tail p (c ∷ s) = let rest = drop_tail p s in if p c && is_empty rest then [] else c ∷ rest

unfoldable pub strip : Text → Text
strip s = drop_tail is_space (drop_while is_space s)

-- `str.lower` of one character. Beyond ASCII it is exact where the result holds an ASCII letter
-- (U+0130 and U+212A); the other characters are kept.
abbrev pub lower_char : ℕ → Text
lower_char c =
    if leb b'A' c && leb c b'Z'
    then (c + 32) ∷ []
    else if c == 0x130
    then b'i' ∷ 0x307 ∷ []
    else if c == 0x212a
    then b'k' ∷ []
    else c ∷ []

abbrev pub lower : Text → Text
lower [] = []
lower (c ∷ s) = lower_char c ++ lower s
