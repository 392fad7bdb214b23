-- ===== src/Prelude/Sort.antt =====
-- The order that a query's ORDER BY asks for: a stable insertion sort by a Boolean test.
use mathlib.Core.List.{Perm}
use mathlib.Core.List.Perm
use msgate.Prelude.{
  ◌≡◌, Bool, true, false, List, [], ◌∷◌, if◌then◌else◌, Bool-cases, All, All-map, inl, inr,
}

module _ {ℓ} {A : Type ℓ} (before : A → A → Bool) where
  pub insert_in_order : A → List A → List A
  insert_in_order a [] = a ∷ []
  insert_in_order a (b ∷ bs) = if before a b then a ∷ b ∷ bs else b ∷ insert_in_order a bs

  unfoldable pub sort : List A → List A
  unfolding insert_in_order
  sort [] = []
  sort (a ∷ xs) = insert_in_order a (sort xs)

module _ {ℓ} {A : Type ℓ} (before : A → A → Bool) where
  insert_in_order-perm : (a : A) (xs : List A) → Perm (insert_in_order before a xs) (a ∷ xs)
  unfolding insert_in_order
  insert_in_order-perm a [] = Perm.refl (a ∷ [])
  insert_in_order-perm a (b ∷ bs) = elim (Bool-cases (before a b)) [
    | inl e ↦ rw e (Perm.refl (a ∷ b ∷ bs))
    | inr e ↦ rw e (Perm.trans (Perm.cons b (insert_in_order-perm a bs)) (Perm.swap a b bs))
  ]

  pub sort-perm : (xs : List A) → Perm (sort before xs) xs
  unfolding sort
  sort-perm [] = Perm.refl []
  sort-perm (a ∷ xs) =
      Perm.trans (insert_in_order-perm a (sort before xs)) (Perm.cons a (sort-perm xs))

module _ {ℓ κ} {A : Type ℓ} (before : A → A → Bool) (P : A → Type κ) where
  pub insert_in_order-All :
      (a : A) (xs : List A) → P a → All P xs → All P (insert_in_order before a xs)
  unfolding insert_in_order
  insert_in_order-All a [] p h = (p, tt)
  insert_in_order-All a (b ∷ bs) p h = elim (Bool-cases (before a b)) [
    | inl e ↦ rw e (p, h)
    | inr e ↦ rw e (h.0, insert_in_order-All a bs p h.1)
  ]

  pub sort-All : (xs : List A) → All P xs → All P (sort before xs)
  unfolding sort
  sort-All [] h = tt
  sort-All (a ∷ xs) h = insert_in_order-All a (sort before xs) h.0 (sort-All xs h.1)

  insert_in_order-All_inv :
      (a : A) (xs : List A) → All P (insert_in_order before a xs) → P a × All P xs
  unfolding insert_in_order
  insert_in_order-All_inv a [] h = (h.0, tt)
  insert_in_order-All_inv a (b ∷ bs) h = elim (Bool-cases (before a b)) [
    | inl e ↦ let k : All P (a ∷ b ∷ bs) = rw e at h in k
    | inr e ↦
        let k : All P (b ∷ insert_in_order before a bs) = rw e at h in
        let r = insert_in_order-All_inv a bs k.1 in (r.0, (k.0, r.1))
  ]

  -- Sorting neither loses an element nor makes one up, xs far xs a predicate can tell.
  pub sort-All_inv : (xs : List A) → All P (sort before xs) → All P xs
  unfolding sort
  sort-All_inv [] h = tt
  sort-All_inv (a ∷ xs) h =
      let r = insert_in_order-All_inv a (sort before xs) h in (r.0, sort-All_inv xs r.1)

-- Each element is related to all that follow it.
abbrev pub Ordered {ℓ κ} : {A : Type ℓ} → (A → A → Type κ) → List A → Type (ℓ ⊔ κ)
Ordered R [] = Unit
Ordered R (a ∷ xs) = All (R a) xs × Ordered R xs

module _ {ℓ κ} {A : Type ℓ} (before : A → A → Bool) (R : A → A → Type κ)
    (first : (a b : A) → before a b ≡ true → R a b)
    (second : (a b : A) → before a b ≡ false → R b a)
    (trans : (a b c : A) → R a b → R b c → R a c) where
  insert_in_order-Ordered :
      (a : A) (xs : List A) → Ordered R xs → Ordered R (insert_in_order before a xs)
  unfolding insert_in_order
  insert_in_order-Ordered a [] h = (tt, tt)
  insert_in_order-Ordered a (b ∷ bs) h = elim (Bool-cases (before a b)) [
    | inl e ↦
        let ab = first a b e in rw e ((ab, All-map (R b) (λ c bc. trans a b c ab bc) bs h.0), h)
    | inr e ↦
        rw e (
          insert_in_order-All before (R b) a bs (second a b e) h.0,
          insert_in_order-Ordered a bs h.1,
        )
  ]

  pub sort-Ordered : (xs : List A) → Ordered R (sort before xs)
  unfolding sort
  sort-Ordered [] = tt
  sort-Ordered (a ∷ xs) = insert_in_order-Ordered a (sort before xs) (sort-Ordered xs)
