-- ===== src/Prelude/Maps.antt =====
-- Python's `dict` with texts for keys, as an association list: what `get`, assignment and `pop` do.
use mathlib.Core.Path.{◌≡◌, refl}
use mathlib.Core.Option.{Option, none, some}
use mathlib.Core.List.{List, [], ◌∷◌}
use native.Mathlib.Omega.{arith}
use msgate.Prelude.Tests.{if◌then◌else◌}
use msgate.Prelude.Texts.{Text, text_eq, text_eq_iff}

abbrev pub Dict {ℓ} : Type ℓ → Type ℓ
Dict A = List (Text × A)

module _ {ℓ} {A : Type ℓ} where
  abbrev pub lookup : Text → Dict A → Option A
  lookup key [] = none
  lookup key ((k, a) ∷ m) = if text_eq key k then some a else lookup key m

  abbrev pub assign : Text → A → Dict A → Dict A
  assign key a [] = (key, a) ∷ []
  assign key a ((k, b) ∷ m) = if text_eq key k then (k, a) ∷ m else (k, b) ∷ assign key a m

  abbrev pub delete : Text → Dict A → Dict A
  delete key [] = []
  delete key ((k, b) ∷ m) = if text_eq key k then delete key m else (k, b) ∷ delete key m

  pub lookup-assign :
      (j key : Text) (a : A) (m : Dict A)
      → lookup j (assign key a m) ≡ (if text_eq j key then some a else lookup j m)
  lookup-assign j key a [] = refl
  lookup-assign j key a ((k, b) ∷ m) =
      ground (arith, text_eq_iff j key, text_eq_iff j k, text_eq_iff key k, lookup-assign j key a m)

  pub lookup-delete :
      (j key : Text) (m : Dict A)
      → lookup j (delete key m) ≡ (if text_eq j key then none else lookup j m)
  lookup-delete j key [] = ground arith
  lookup-delete j key ((k, b) ∷ m) =
      ground (arith, text_eq_iff j key, text_eq_iff j k, text_eq_iff key k, lookup-delete j key m)
