-- ===== src/Ews/Mailbox/Choice.antt =====
-- Which mailbox src/msgate/ews/mailbox.py chooses.
use msgate.Prelude.{
  ℕ, ◌≡◌, ◌↔◌, refl, sym, ap, ◌∙◌, ◌⊎◌, inl, inr, true, false, ◌==◌, Option, none, some, List, [],
  ◌∷◌, ◌++◌, Text, codes, text_eq, text_eq_iff, Bool-cases, Option-cases, arith, Has, here, there,
}
use msgate.Prelude.Texts.{is_empty, has_char}
use msgate.Config.{EwsConfig}
use msgate.Ews.Mailbox.{
  AddressParser, ends_with, address_of, looks_like_email, with_at, candidates, usable, first_usable,
  resolve_primary_smtp,
}

has_char-Has : (c : ℕ) (s : Text) → has_char c s ≡ true → Has c s
has_char-Has c [] h = absurd (cc)
has_char-Has c (d ∷ s) h = elim (Bool-cases (c == d)) [
  | inl e ↦ let same : c ≡ d = ground arith in rw same here
  | inr e ↦ there (has_char-Has c s (rw e at h))
]

Has-has_char : (c : ℕ) (s : Text) → Has c s → has_char c s ≡ true
Has-has_char c [] m = elim m [ ]
Has-has_char c (d ∷ s) here = ground arith
Has-has_char c (d ∷ s) (there m) = let found = Has-has_char c s m in ground (arith, found)

-- The text ends with `p`.
abbrev pub Ends : Text → Text → Type 0
Ends p s = (front : Text) × (s ≡ front ++ p)

ends_with-Ends : (p s : Text) → ends_with p s ≡ true → Ends p s
ends_with-Ends [] [] h = ([], refl)
ends_with-Ends (d ∷ p) [] h = absurd (cc)
ends_with-Ends p (c ∷ s) h = elim (Bool-cases (text_eq p (c ∷ s))) [
  | inl e ↦ ([], sym ((text_eq_iff p (c ∷ s)).0 e))
  | inr e ↦ let (front, f) = ends_with-Ends p s (rw e at h) in (c ∷ front, ap (λ t. c ∷ t) f)
]

Ends-ends_with : (p s front : Text) → s ≡ front ++ p → ends_with p s ≡ true
Ends-ends_with [] [] front e = refl
Ends-ends_with (d ∷ p) [] [] e = absurd (cc)
Ends-ends_with (d ∷ p) [] (c ∷ front) e = absurd (cc)
Ends-ends_with p (c ∷ s) [] e = rw ((text_eq_iff p (c ∷ s)).1 (sym e)) refl
Ends-ends_with p (c ∷ s) (d ∷ front) e =
    let rest : s ≡ front ++ p = cc e in
    let found = Ends-ends_with p s front rest in ground (arith, found)

-- An address with an @ sign and no blank that is not at localhost.
abbrev pub IsEmail : Text → Type 0
IsEmail t = Has b'@' t × (¬ Has b' ' t) × (¬ Ends (codes "@localhost") t)

-- A text that is given, not blank, and has a usable address.
abbrev pub Gives : AddressParser → Option Text → Text → Type 0
Gives parse o addr =
    (raw : Text) × (o ≡ some raw)
    × (is_empty raw ≡ false)
    × (addr ≡ address_of parse raw)
    × IsEmail (address_of parse addr)

-- The same of a user name, which must hold an @ sign itself.
abbrev pub Names : AddressParser → Option Text → Text → Type 0
Names parse o addr = ((raw : Text) × (o ≡ some raw) × Has b'@' raw) × Gives parse o addr

looks_like_email-IsEmail :
    (parse : AddressParser) (t : Text)
    → (looks_like_email parse t ≡ true) ↔ IsEmail (address_of parse t)
unfolding looks_like_email
looks_like_email-IsEmail parse t =
    let addr = address_of parse t in
    (
      (λ h. (
        has_char-Has b'@' addr (ground arith),
        (λ m. let x = Has-has_char b' ' addr m in ground arith),
        λ m. let x = Ends-ends_with (codes "@localhost") addr m.0 m.1 in ground arith,
      )),
      λ (has, no_blank, not_local). elim (Bool-cases (has_char b' ' (address_of parse t))) [
        | inl e ↦ absurd (no_blank (has_char-Has b' ' addr e))
        | inr e ↦ elim (Bool-cases (ends_with (codes "@localhost") (address_of parse t))) [
          | inl f ↦ absurd (not_local (ends_with-Ends (codes "@localhost") addr f))
          | inr f ↦ let x = Has-has_char b'@' addr has in rw (x, e, f, looks_like_email) refl
        ]
      ],
    )

usable-Gives :
    (parse : AddressParser) (o : Option Text) (addr : Text)
    → (usable parse o ≡ some addr) ↔ Gives parse o addr
unfolding usable
usable-Gives parse none addr = ((λ h. absurd (cc)), λ g. absurd (let e = g.1 in cc e))
usable-Gives parse (some raw) addr = (to, from)
  where
    to : usable parse (some raw) ≡ some addr → Gives parse (some raw) addr
    to h =
        let same : addr ≡ address_of parse raw = ground arith in
        let shaped : looks_like_email parse addr ≡ true = rw same (ground arith) in
        (raw, refl, ground arith, same, (looks_like_email-IsEmail parse addr).0 shaped)

    from : Gives parse (some raw) addr → usable parse (some raw) ≡ some addr
    from (raw', e, present, same, email) =
        let shaped = (looks_like_email-IsEmail parse addr).1 email in
        let again : raw ≡ raw' = cc e in ground (arith, again, present, same, shaped)

given_first :
    (parse : AddressParser) (o : Option Text) (addr : Text) (cs : List (Option Text))
    → first_usable parse (o ∷ cs) ≡ some addr
    → (usable parse o ≡ some addr) ⊎ ((usable parse o ≡ none) × (first_usable parse cs ≡ some addr))
unfolding first_usable
given_first parse o addr cs h = elim (Option-cases (usable parse o)) [
  | inl e ↦ inr (e, rw (e, first_usable) at h)
  | inr (a, e) ↦ let same : some a ≡ some addr = rw (e, first_usable) at h in inl (e ∙ same)
]

-- A candidate stands before the others: it gives the address, or it gives none and the others do.
abbrev pub Before : (Text → Type 0) → (Text → Type 0) → Text → Type 0
Before G B addr = G addr ⊎ (((a : Text) → ¬ G a) × B addr)

tried :
    (parse : AddressParser) (o : Option Text) (cs : List (Option Text)) (G B : Text → Type 0)
    → ((a : Text) → (usable parse o ≡ some a) ↔ G a)
    → ((a : Text) → (first_usable parse cs ≡ some a) ↔ B a)
    → (addr : Text) → (first_usable parse (o ∷ cs) ≡ some addr) ↔ Before G B addr
unfolding first_usable
tried parse o cs G B mine others addr = (to, from)
  where
    to : first_usable parse (o ∷ cs) ≡ some addr → Before G B addr
    to h = elim (given_first parse o addr cs h) [
      | inl e ↦ inl ((mine addr).0 e)
      | inr (e, rest) ↦ inr ((λ a g. let x = (mine a).1 g in cc (e, x)), (others addr).0 rest)
    ]

    from : Before G B addr → first_usable parse (o ∷ cs) ≡ some addr
    from (inl g) = rw ((mine addr).1 g, first_usable) refl
    from (inr (never, b)) = elim (Option-cases (usable parse o)) [
      | inl e ↦ rw (e, first_usable) ((others addr).1 b)
      | inr (a, e) ↦ absurd (never a ((mine a).0 e))
    ]

last_tried :
    (parse : AddressParser) (o : Option Text) (addr : Text)
    → (first_usable parse (o ∷ []) ≡ some addr) ↔ (usable parse o ≡ some addr)
unfolding first_usable
last_tried parse o addr = (
  (λ h. elim (given_first parse o addr [] h) [ inl e ↦ e | inr (e, rest) ↦ absurd (cc rest) ]),
  λ e. rw (e, first_usable) refl,
)

with_at-Names :
    (parse : AddressParser) (o : Option Text) (addr : Text)
    → (usable parse (with_at o) ≡ some addr) ↔ Names parse o addr
unfolding usable
with_at-Names parse none addr = ((λ h. absurd (cc)), λ n. absurd (let e = n.1.1 in cc e))
with_at-Names parse (some raw) addr = (to, from)
  where
    to : usable parse (with_at (some raw)) ≡ some addr → Names parse (some raw) addr
    to h = elim (Bool-cases (has_char b'@' raw)) [
      | inr e ↦ absurd (let x : none ≡ some addr = rw e at h in cc x)
      | inl e ↦
          ((raw, refl, has_char-Has b'@' raw e), (usable-Gives parse (some raw) addr).0 (rw e at h))
    ]

    from : Names parse (some raw) addr → usable parse (with_at (some raw)) ≡ some addr
    from ((raw', e, m), g) =
        let same : raw ≡ raw' = cc e in
        let found : has_char b'@' raw ≡ true = rw same (Has-has_char b'@' raw' m) in
        rw found ((usable-Gives parse (some raw) addr).1 g)

-- The mailbox of a message is the address of the operator's setting; else, where that gives none, of
-- the default sender; else of the sender of the envelope; else of the user name of the message if it
-- holds an @ sign; else of the configured user name if it does. A text gives an address if it is not
-- blank and its address has an @ sign and no blank and does not end with @localhost.
pub resolve_primary_smtp_iff :
    (parse : AddressParser) (ews_username : Text) (mail_from : Option Text) (cfg : EwsConfig)
    (default_sender : Option Text) (addr : Text)
    → (resolve_primary_smtp parse ews_username mail_from cfg default_sender ≡ some addr)
      ↔ Before
          (Gives parse cfg.primary_smtp)
          (Before (Gives parse default_sender) (
            Before
              (Gives parse mail_from)
              (Before (Names parse (some ews_username)) (Names parse cfg.username))))
          addr
unfolding resolve_primary_smtp candidates
resolve_primary_smtp_iff parse ews_username mail_from cfg default_sender =
    let name = with_at (some ews_username) in
    let own = with_at cfg.username in
    tried parse cfg.primary_smtp (default_sender ∷ mail_from ∷ name ∷ own ∷ []) _ _
      (usable-Gives parse cfg.primary_smtp)
      (tried parse default_sender (mail_from ∷ name ∷ own ∷ []) _ _
        (usable-Gives parse default_sender)
        (tried parse mail_from (name ∷ own ∷ []) _ _ (usable-Gives parse mail_from) (
          tried parse name (own ∷ []) _ _ (with_at-Names parse (some ews_username)) (λ a. (
            (λ h. (with_at-Names parse cfg.username a).0 ((last_tried parse own a).0 h)),
            λ n. (last_tried parse own a).1 ((with_at-Names parse cfg.username a).1 n),
          )))))
