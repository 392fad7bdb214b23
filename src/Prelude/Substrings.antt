-- ===== src/Prelude/Substrings.antt =====
-- What the substring tests of Prelude/Texts decide, as splittings of the text.
use msgate.Prelude.{
  ◌≡◌, refl, ap, ◌↔◌, Bool, true, List, [], ◌∷◌, ◌++◌, arith, Bool-cases, inl, inr, Text, ◌==◌, any,
  Has, here, there,
}
use msgate.Prelude.Texts.{starts_with, contains}

abbrev pub IsPrefix : Text → Text → Type 0
IsPrefix p s = (rest : Text) × (s ≡ p ++ rest)

abbrev pub Occurs : Text → Text → Type 0
Occurs p s = (before : Text) × (after : Text) × (s ≡ before ++ (p ++ after))

pub starts_with-IsPrefix : (p s : Text) → starts_with p s ≡ true → IsPrefix p s
starts_with-IsPrefix [] s h = (s, refl)
starts_with-IsPrefix (x ∷ p) [] h = absurd (cc)
starts_with-IsPrefix (x ∷ p) (c ∷ s) h = elim (Bool-cases (x == c)) [
  | inl e ↦ let r = starts_with-IsPrefix p s (ground arith) in (r.0, ground (arith, r.1))
  | inr e ↦ absurd (ground arith)
]

pub starts_with-append : (p s : Text) → starts_with p (p ++ s) ≡ true
starts_with-append [] s = refl
starts_with-append (x ∷ p) s = ground (arith, starts_with-append p s)

contains-Occurs : (p s : Text) → contains p s ≡ true → Occurs p s
contains-Occurs [] [] h = ([], [], refl)
contains-Occurs (x ∷ p) [] h = absurd (cc)
contains-Occurs p (c ∷ s) h = elim (Bool-cases (starts_with p (c ∷ s))) [
  | inl e ↦ let r = starts_with-IsPrefix p (c ∷ s) e in ([], r.0, r.1)
  | inr e ↦ let r = contains-Occurs p s (rw e at h) in (c ∷ r.0, r.1, ap (◌∷◌ c) r.2)
]

starts_with-contains : (p s : Text) → starts_with p s ≡ true → contains p s ≡ true
starts_with-contains [] [] h = refl
starts_with-contains (x ∷ p) [] h = absurd (cc)
starts_with-contains p (c ∷ s) h = rw h

contains-append : (p before after : Text) → contains p (before ++ (p ++ after)) ≡ true
contains-append p [] after = starts_with-contains p (p ++ after) (starts_with-append p after)
contains-append p (c ∷ before) after =
    elim (Bool-cases (starts_with p (c ∷ before ++ (p ++ after)))) [
      | inl e ↦ rw e
      | inr e ↦ rw e (contains-append p before after)
    ]

-- `p in s` decides whether p occurs in s.
pub contains_iff : (p s : Text) → (contains p s ≡ true) ↔ Occurs p s
contains_iff p s = (contains-Occurs p s, λ o. rw o.2 (contains-append p o.0 o.1))

pub any_iff {ℓ} :
    {A : Type ℓ} (t : A → Bool) (xs : List A)
    → (any t xs ≡ true) ↔ ((a : A) × Has a xs × (t a ≡ true))
any_iff {A} t xs = (found xs, λ w. holds xs w.0 w.1 w.2)
  where
    found : (ys : List A) → any t ys ≡ true → (a : A) × Has a ys × (t a ≡ true)
    found [] h = absurd (cc)
    found (y ∷ ys) h = elim (Bool-cases (t y)) [
      | inl e ↦ (y, here, e)
      | inr e ↦ let r = found ys (rw e at h) in (r.0, there r.1, r.2)
    ]

    holds : (ys : List A) (a : A) → Has a ys → t a ≡ true → any t ys ≡ true
    holds [] a m e = elim m [ ]
    holds (y ∷ ys) a here e = rw e
    holds (y ∷ ys) a (there m) e = elim (Bool-cases (t y)) [
      | inl f ↦ rw f
      | inr f ↦ rw f (holds ys a m e)
    ]
