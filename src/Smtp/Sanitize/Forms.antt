-- ===== src/Smtp/Sanitize/Forms.antt =====
-- The forms of user names that src/msgate/auth/sanitize.py brings together.
use msgate.Prelude.{
  ℕ, ◌≡◌, ◌⊎◌, refl, inl, inr, true, false, Option, none, some, [], ◌∷◌, ◌++◌, Text, ◌==◌, arith,
  All, All-append, All-map,
}
use msgate.Prelude.Texts.{strip, is_empty, is_space, has_char, partition, drop_while, drop_tail}
use msgate.Smtp.Sanitize.{
  SanitizedAuth, accepted, backslash, slash, at_sign, down_level, split_domain, sanitize_username,
}

-- A part of a name: a character that is no white space and none of the three separators.
abbrev pub IsPlain : ℕ → Type 0
IsPlain c =
    (is_space c ≡ false)
    × ((backslash == c) ≡ false)
    × ((slash == c) ≡ false)
    × ((at_sign == c) ≡ false)

drop_while-All : (s : Text) → All (λ c. is_space c ≡ false) s → drop_while is_space s ≡ s
drop_while-All [] h = refl
drop_while-All (c ∷ s) h = rw h.0

drop_tail-All : (s : Text) → All (λ c. is_space c ≡ false) s → drop_tail is_space s ≡ s
drop_tail-All [] h = refl
drop_tail-All (c ∷ s) h = rw (h.0, drop_tail-All s h.1)

strip-All : (s : Text) → All (λ c. is_space c ≡ false) s → strip s ≡ s
unfolding strip
strip-All s h = rw (drop_while-All s h) (drop_tail-All s h)

has_char-absent : (c : ℕ) (s : Text) → All (λ d. (c == d) ≡ false) s → has_char c s ≡ false
has_char-absent c [] h = refl
has_char-absent c (d ∷ s) h = rw h.0 (has_char-absent c s h.1)

has_char-append : (c : ℕ) (s t : Text) → has_char c s ≡ false → has_char c (s ++ t) ≡ has_char c t
has_char-append c [] t h = refl
has_char-append c (d ∷ s) t h = ground (arith, has_char-append c s t)

partition-append :
    (c : ℕ) (s t : Text) → has_char c s ≡ false → partition c (s ++ (c ∷ t)) ≡ (s, true, t)
partition-append c [] t h = ground arith
partition-append c (d ∷ s) t h = ground (arith, partition-append c s t)

module _ (domain user : Text) (p : All IsPlain domain) (q : All IsPlain user) where
  not_space : (s : Text) → All IsPlain s → All (λ c. is_space c ≡ false) s
  not_space s = All-map IsPlain (λ c h. h.0) s

  no_backslash : (s : Text) → All IsPlain s → has_char backslash s ≡ false
  no_backslash s h = has_char-absent backslash s (All-map IsPlain (λ c k. k.1) s h)

  no_slash : (s : Text) → All IsPlain s → has_char slash s ≡ false
  no_slash s h = has_char-absent slash s (All-map IsPlain (λ c k. k.2) s h)

  no_at : (s : Text) → All IsPlain s → has_char at_sign s ≡ false
  no_at s h = has_char-absent at_sign s (All-map IsPlain (λ c k. k.3) s h)

  split_hit :
      (sep : ℕ) (raw : Text)
      → has_char sep domain ≡ false
      → (at_sign == sep) ≡ false
      → is_empty domain ≡ false
      → is_empty user ≡ false
      → split_domain sep raw (domain ++ (sep ∷ user))
        ≡ some (record {
          raw = raw;
          username = user;
          domain = some domain;
          ews_username = down_level domain user;
        })
  unfolding split_domain
  split_hit sep raw f g e₁ e₂ = rw (partition-append sep domain user f) (
      rw (has_char-append sep domain (sep ∷ user) f) (
        rw (has_char-append at_sign domain (sep ∷ user) (no_at domain p)) (
          ground (
            arith,
            g,
            no_at user q,
            strip-All domain (not_space domain p),
            strip-All user (not_space user q),
            no_backslash user q,
            no_slash user q,
          ))))

  split_miss : (raw : Text) → split_domain backslash raw (domain ++ (slash ∷ user)) ≡ none
  unfolding split_domain
  split_miss raw =
      rw (has_char-append backslash domain (slash ∷ user) (no_backslash domain p))
        (rw (no_backslash user q))

  value_strip :
      (sep : ℕ) → is_space sep ≡ false → strip (domain ++ (sep ∷ user)) ≡ domain ++ (sep ∷ user)
  value_strip sep h =
      strip-All (domain ++ (sep ∷ user))
        (All-append _ domain (sep ∷ user) (not_space domain p) (h, not_space user q))

  filled : (s : Text) (c : ℕ) → is_empty (s ++ (c ∷ user)) ≡ false
  filled [] c = refl
  filled (d ∷ s) c = refl

  with_backslash :
      (dd : Option Text)
      → is_empty domain ≡ false
      → is_empty user ≡ false
      → sanitize_username (domain ++ (backslash ∷ user)) dd
        ≡ accepted (record {
          raw = domain ++ (backslash ∷ user);
          username = user;
          domain = some domain;
          ews_username = down_level domain user;
        })
  unfolding sanitize_username
  with_backslash dd e₁ e₂ = rw (
    value_strip backslash refl,
    filled domain backslash,
    split_hit backslash (domain ++ (backslash ∷ user)) (no_backslash domain p) refl e₁ e₂,
    sanitize_username,
  )

  with_slash :
      (dd : Option Text)
      → is_empty domain ≡ false
      → is_empty user ≡ false
      → sanitize_username (domain ++ (slash ∷ user)) dd
        ≡ accepted (record {
          raw = domain ++ (slash ∷ user);
          username = user;
          domain = some domain;
          ews_username = down_level domain user;
        })
  unfolding sanitize_username
  with_slash dd e₁ e₂ =
      rw
        (
          value_strip slash refl,
          filled domain slash,
          split_miss (domain ++ (slash ∷ user)),
          sanitize_username,
        )
        (rw (value_strip slash refl)
          (rw (split_hit slash (domain ++ (slash ∷ user)) (no_slash domain p) refl e₁ e₂)))

  -- DOMAIN\user and DOMAIN/user, with parts that are not blank and hold no white space and no further
  -- separator, are both read as this user in this domain, and become DOMAIN\user for Exchange,
  -- whatever the default domain.
  pub sanitize_down_level :
      (sep : ℕ) (default_domain : Option Text)
      → (sep ≡ backslash) ⊎ (sep ≡ slash)
      → is_empty domain ≡ false
      → is_empty user ≡ false
      → sanitize_username (domain ++ (sep ∷ user)) default_domain
        ≡ accepted (record {
          raw = domain ++ (sep ∷ user);
          username = user;
          domain = some domain;
          ews_username = down_level domain user;
        })
  sanitize_down_level sep dd (inl e) e₁ e₂ = rw e (with_backslash dd e₁ e₂)
  sanitize_down_level sep dd (inr e) e₁ e₂ = rw e (with_slash dd e₁ e₂)

  -- What comes out of the sanitizer for such a name passes through it again unchanged, under any
  -- default domain.
  pub sanitize_again :
      (sep : ℕ) (first second : Option Text)
      → (sep ≡ backslash) ⊎ (sep ≡ slash)
      → is_empty domain ≡ false
      → is_empty user ≡ false
      → (a b : SanitizedAuth) → sanitize_username (domain ++ (sep ∷ user)) first ≡ accepted a
      → sanitize_username a.ews_username second ≡ accepted b
      → (b.ews_username ≡ a.ews_username) × (b.username ≡ a.username) × (b.domain ≡ a.domain)
  sanitize_again sep first second s e₁ e₂ a b h k =
      ground (arith, sanitize_down_level sep first s e₁ e₂, with_backslash second e₁ e₂)
