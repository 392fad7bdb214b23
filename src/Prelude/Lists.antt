-- ===== src/Prelude/Lists.antt =====
-- Lists measured by native numbers, predicates over them and a stable sort by a numeric key.
use Prim.Native.Nat.{ℕ, zero, suc, ◌+◌, min}
use mathlib.Core.Path.{◌≡◌}
use mathlib.Core.Bool.{Bool, true, false}
use mathlib.Core.List.{List, [], ◌∷◌, ◌++◌}
use mathlib.Core.Option.{Option, none, some}
use native.Mathlib.Omega.{arith}
use msgate.Prelude.Tests.{if◌then◌else◌, Bool-cases}
use mathlib.Core.Logic.{inl, inr}

module _ {ℓ} {A : Type ℓ} where
  abbrev pub length : List A → ℕ
  length [] = 0
  length (x ∷ xs) = suc (length xs)

  abbrev pub take : ℕ → List A → List A
  take zero xs = []
  take (suc n) [] = []
  take (suc n) (x ∷ xs) = x ∷ take n xs

  abbrev pub drop : ℕ → List A → List A
  drop zero xs = xs
  drop (suc n) [] = []
  drop (suc n) (x ∷ xs) = drop n xs

  abbrev pub head? : List A → Option A
  head? [] = none
  head? (x ∷ xs) = some x

  pub length-append : (xs ys : List A) → length (xs ++ ys) ≡ length xs + length ys
  length-append [] ys = omega arith
  length-append (x ∷ xs) ys = omega (arith, length-append xs ys)

  pub length-take : (n : ℕ) (xs : List A) → length (take n xs) ≡ min n (length xs)
  length-take zero xs = omega arith
  length-take (suc n) [] = omega arith
  length-take (suc n) (x ∷ xs) = omega (arith, length-take n xs)

  -- The library's `filter` takes a decision; the gateway filters by a Boolean test.
  abbrev pub filter : (A → Bool) → List A → List A
  filter p [] = []
  filter p (x ∷ xs) = if p x then x ∷ filter p xs else filter p xs

  abbrev pub any : (A → Bool) → List A → Bool
  any p [] = false
  any p (x ∷ xs) = if p x then true else any p xs

module _ {ℓ κ} {A : Type ℓ} where
  abbrev pub All : (A → Type κ) → List A → Type κ
  All P [] = Unit
  All P (x ∷ xs) = P x × All P xs

  pub All-append : (P : A → Type κ) (xs ys : List A) → All P xs → All P ys → All P (xs ++ ys)
  All-append P [] ys hx hy = hy
  All-append P (x ∷ xs) ys hx hy = (hx.0, All-append P xs ys hx.1 hy)

  pub All-take : (P : A → Type κ) (n : ℕ) (xs : List A) → All P xs → All P (take n xs)
  All-take P zero xs h = tt
  All-take P (suc n) [] h = tt
  All-take P (suc n) (x ∷ xs) h = (h.0, All-take P n xs h.1)

  pub All-map :
      {Q : A → Type κ} (P : A → Type κ) (f : (a : A) → P a → Q a) (xs : List A)
      → All P xs
      → All Q xs
  All-map P f [] h = tt
  All-map P f (x ∷ xs) h = (f x h.0, All-map P f xs h.1)

-- `Has x xs`: x is an element of xs, with its place kept.
pub data Has {ℓ} {A : Type ℓ} (x : A) : List A → Type ℓ where
  here : {xs : List A} → Has x (x ∷ xs)
  there : {y : A} {xs : List A} → Has x xs → Has x (y ∷ xs)

pub All-Has {ℓ κ} : {A : Type ℓ} (P : A → Type κ) {x : A} {xs : List A} → Has x xs → All P xs → P x
All-Has P here h = h.0
All-Has P (there m) h = All-Has P m h.1

Has-under {ℓ} :
    {A : Type ℓ} (y : A) (p : A → Bool) (xs : List A) (zs : List A)
    → All (λ x. Has x xs × (p x ≡ true)) zs
    → All (λ x. Has x (y ∷ xs) × (p x ≡ true)) zs
Has-under y p xs [] h = tt
Has-under y p xs (z ∷ zs) h = ((there h.0.0, h.0.1), Has-under y p xs zs h.1)

-- A filtered list holds elements of the list that pass the test, and all of those.
pub filter-All {ℓ} :
    {A : Type ℓ} (p : A → Bool) (xs : List A) → All (λ x. Has x xs × (p x ≡ true)) (filter p xs)
filter-All p [] = tt
filter-All p (x ∷ xs) = elim (Bool-cases (p x)) [
  | inl e ↦ rw e ((here, e), Has-under x p xs (filter p xs) (filter-All p xs))
  | inr e ↦ rw e (Has-under x p xs (filter p xs) (filter-All p xs))
]

pub filter-All_inv {ℓ κ} :
    {A : Type ℓ} (P : A → Type κ) (p : A → Bool) (xs : List A)
    → All P (filter p xs)
    → All (λ x. p x ≡ true → P x) xs
filter-All_inv P p [] h = tt
filter-All_inv P p (x ∷ xs) h = elim (Bool-cases (p x)) [
  | inl e ↦ let k : All P (x ∷ filter p xs) = rw e at h in ((λ _. k.0), filter-All_inv P p xs k.1)
  | inr e ↦ let k : All P (filter p xs) = rw e at h in ((λ f. absurd (cc)), filter-All_inv P p xs k)
]
