-- ===== src/Queue/Backoff/Matching.antt =====
-- What `is_retriable_error` of src/msgate/queue/backoff.py recognises.
use msgate.Prelude.{
  ℕ, ◌≡◌, ◌↔◌, ◌⊎◌, refl, ap, ◌∙◌, subst, Bool, true, false, not, List, [], ◌∷◌, ◌++◌, arith, Text,
  Bool-cases, inl, inr, drop, length, Has, &&_left, &&_right,
}
use msgate.Prelude.Substrings.{
  Occurs, contains_iff, starts_with-IsPrefix, starts_with-append, any_iff,
}
use msgate.Prelude.Texts.{contains, lower}
use msgate.Queue.Backoff.{
  is_word, starts_word, code_here, search_codes, holds_any, is_retriable_error, retriable_codes,
  retriable_words,
}

-- Whether the last character of s is a word character, `w` standing for the one before s.
abbrev pub ends_word : (ℕ → Bool) → Bool → Text → Bool
ends_word u w [] = w
ends_word u w (c ∷ s) = ends_word u (is_word u c) s

-- One of the numbers stands in s as a word of its own.
abbrev pub WholeWord : (ℕ → Bool) → List Text → Bool → Text → Type 0
WholeWord u numbers w s =
    (before : Text) × (n : Text) × (after : Text) × Has n numbers
    × (s ≡ before ++ (n ++ after))
    × (ends_word u w before ≡ false)
    × (starts_word u after ≡ false)

drop-append : (n s : Text) → drop (length n) (n ++ s) ≡ s
drop-append [] s = refl
drop-append (c ∷ n) s = drop-append n s

not-true : (b : Bool) → not b ≡ true → b ≡ false
not-true b h = ground arith

code_here-WholeWord :
    (u : ℕ → Bool) (numbers : List Text) (w : Bool) (s : Text)
    → code_here u numbers w s ≡ true
    → WholeWord u numbers w s
code_here-WholeWord u numbers true s h = absurd (cc)
code_here-WholeWord u numbers false s h =
    let (n, m, e) = (any_iff _ numbers).0 h in
    let (after, p) = starts_with-IsPrefix n s (&&_left _ _ e) in
    ([], n, after, m, p, refl, clear n after p (not-true _ (&&_right _ _ e)))
  where
    clear :
        (n after : Text)
        → s ≡ n ++ after
        → starts_word u (drop (length n) s) ≡ false
        → starts_word u after ≡ false
    clear n after p e =
        subst (λ t. starts_word u t ≡ false) (ap (drop (length n)) p ∙ drop-append n after) e

WholeWord-code_here :
    (u : ℕ → Bool) (numbers : List Text) (w : Bool) (n after : Text)
    → Has n numbers
    → w ≡ false
    → starts_word u after ≡ false
    → code_here u numbers w (n ++ after) ≡ true
WholeWord-code_here u numbers w n after m e f =
    rw e ((any_iff _ numbers).1 (n, m, rw (starts_with-append n after, drop-append n after, f)))

search_codes-WholeWord :
    (u : ℕ → Bool) (numbers : List Text) (w : Bool) (s : Text)
    → search_codes u numbers w s ≡ true
    → WholeWord u numbers w s
unfolding search_codes
search_codes-WholeWord u numbers w [] h = code_here-WholeWord u numbers w [] h
search_codes-WholeWord u numbers w (c ∷ s) h = elim (Bool-cases (code_here u numbers w (c ∷ s))) [
  | inl e ↦ code_here-WholeWord u numbers w (c ∷ s) e
  | inr e ↦
      let (before, n, after, m, p, f, g) =
        search_codes-WholeWord u numbers (is_word u c) s (rw e at h) in
      (c ∷ before, n, after, m, ap (◌∷◌ c) p, f, g)
]

code_here-search_codes :
    (u : ℕ → Bool) (numbers : List Text) (w : Bool) (s : Text)
    → code_here u numbers w s ≡ true
    → search_codes u numbers w s ≡ true
unfolding search_codes
code_here-search_codes u numbers w [] h = h
code_here-search_codes u numbers w (c ∷ s) h = rw h

WholeWord-search_codes :
    (u : ℕ → Bool) (numbers : List Text) (w : Bool) (before n after : Text)
    → Has n numbers
    → ends_word u w before ≡ false
    → starts_word u after ≡ false
    → search_codes u numbers w (before ++ (n ++ after)) ≡ true
unfolding search_codes
WholeWord-search_codes u numbers w [] n after m e f =
    code_here-search_codes u numbers w (n ++ after) (WholeWord-code_here u numbers w n after m e f)
WholeWord-search_codes u numbers w (c ∷ before) n after m e f =
    elim (Bool-cases (code_here u numbers w (c ∷ before ++ (n ++ after)))) [
      | inl h ↦ rw h
      | inr h ↦ rw h (WholeWord-search_codes u numbers (is_word u c) before n after m e f)
    ]

holds_any_iff :
    (u : ℕ → Bool) (numbers phrases : List Text) (text : Text)
    → (holds_any u numbers phrases text ≡ true) ↔ (
        WholeWord u numbers false text
        ⊎ ((phrase : Text) × Has phrase phrases × Occurs phrase text))
unfolding holds_any
holds_any_iff u numbers phrases text = (found, holds)
  where
    found :
        holds_any u numbers phrases text ≡ true
        → WholeWord u numbers false text
          ⊎ ((phrase : Text) × Has phrase phrases × Occurs phrase text)
    found h = elim (Bool-cases (search_codes u numbers false text)) [
      | inl e ↦ inl (search_codes-WholeWord u numbers false text e)
      | inr e ↦
          let (word, m, c) = (any_iff (λ w. contains w text) phrases).0 (rw e at h) in
          inr (word, m, (contains_iff word text).0 c)
    ]

    holds :
        WholeWord u numbers false text ⊎ ((phrase : Text) × Has phrase phrases × Occurs phrase text)
        → holds_any u numbers phrases text ≡ true
    holds (inl (before, n, after, m, p, f, g)) =
        rw (p, WholeWord-search_codes u numbers false before n after m f g)
    holds (inr (word, m, o)) = elim (Bool-cases (search_codes u numbers false text)) [
      | inl e ↦ rw e
      | inr e ↦
          rw e ((any_iff (λ w. contains w text) phrases).1 (word, m, (contains_iff word text).1 o))
    ]

-- An error is retriable exactly if its text, in lower case, holds one of the status codes 429, 503,
-- 502, 504 and 408 as a word of its own, or one of the phrases of the list anywhere.
pub is_retriable_error_iff :
    (u : ℕ → Bool) (error : Text)
    → (is_retriable_error u error ≡ true) ↔ (
        WholeWord u retriable_codes false (lower error)
        ⊎ ((phrase : Text) × Has phrase retriable_words × Occurs phrase (lower error)))
unfolding is_retriable_error
is_retriable_error_iff u error = holds_any_iff u retriable_codes retriable_words (lower error)
