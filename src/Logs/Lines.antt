-- ===== src/Logs/Lines.antt =====
-- The lines that the handler of src/msgate/observability/log_retention.py writes, and their reading by
-- src/msgate/observability/log_reader.py.
use msgate.Prelude.{
  ℕ, ◌≡◌, refl, ap, ◌∙◌, Bool, true, false, some, [], ◌∷◌, ◌++◌, ◌==◌, Text, codes, All, arith,
}
use msgate.Prelude.Texts.{is_empty}
use msgate.Logs.{
  LogEntry, Unicode, stamp_form, is_capital, is_inside, span, after_literal, take_form, fits,
  rest_of_line, match_logger, match_level, match_line, parse_line,
}

-- `"%(asctime)s %(levelname)s [%(name)s] %(message)s"`
unfoldable pub format_line : Text → Text → Text → Text → Text
format_line ts level logger message =
    ts ++ (codes " " ++ (level ++ (codes " [" ++ (logger ++ (codes "] " ++ message)))))

abbrev pub HasForm : Unicode → Text → Text → Type 0
HasForm unicode [] [] = Unit
HasForm unicode (f ∷ fs) (c ∷ s) = (fits unicode f c ≡ true) × HasForm unicode fs s
HasForm unicode _ _ = ¬ Unit

after_literal-append : (p s : Text) → after_literal p (p ++ s) ≡ some s
after_literal-append [] s = refl
after_literal-append (c ∷ p) s = ground (arith, after_literal-append p s)

-- The characters pass the test up to one that does not.
span-append :
    (p : ℕ → Bool) (s : Text) (c : ℕ) (rest : Text)
    → All (λ d. p d ≡ true) s
    → p c ≡ false
    → span p (s ++ (c ∷ rest)) ≡ (s, c ∷ rest)
span-append p [] c rest h f = rw f refl
span-append p (d ∷ s) c rest h f = rw (h.0, span-append p s c rest h.1 f) refl

take_form-append :
    (unicode : Unicode) (fs s rest : Text)
    → HasForm unicode fs s
    → take_form unicode fs (s ++ rest) ≡ some (s, rest)
take_form-append unicode [] [] rest h = refl
take_form-append unicode [] (c ∷ s) rest h = absurd (h tt)
take_form-append unicode (f ∷ fs) [] rest h = absurd (h tt)
take_form-append unicode (f ∷ fs) (c ∷ s) rest h =
    rw (h.0, take_form) (rw (take_form-append unicode fs s rest h.1) refl)

whole_rest : (s : Text) → All (λ c. (c == 10) ≡ false) s → rest_of_line s ≡ some s
whole_rest [] h = refl
whole_rest (c ∷ s) h = rw (h.0, rest_of_line) (rw (whole_rest s h.1) refl)

module _ (unicode : Unicode) (ts level logger message source raw : Text) where
  abbrev entry : LogEntry
  entry = record {
    ts = ts;
    level = level;
    logger = logger;
    message = message;
    source = source;
    raw = raw;
  }

  read_logger :
      is_empty logger ≡ false
      → All (λ c. is_inside c ≡ true) logger
      → All (λ c. (c == 10) ≡ false) message
      → match_logger unicode raw source ts level (logger ++ (codes "] " ++ message)) ≡ some entry
  unfolding match_logger
  read_logger g gs ms =
      let parts = span-append is_inside logger b']' (b' ' ∷ message) gs refl in
      rw (parts, match_logger) (rw g (rw parts (rw (whole_rest message ms) refl)))

  read_level :
      (t : Text)
      → is_empty level ≡ false
      → All (λ c. is_capital c ≡ true) level
      → match_level unicode raw source ts (level ++ (codes " [" ++ t))
        ≡ match_logger unicode raw source ts level t
  unfolding match_level
  read_level t l ls =
      let parts = span-append is_capital level b' ' (b'[' ∷ t) ls refl in
      rw (parts, match_level) (rw l (ap (λ p. match_logger unicode raw source ts p.0 t) parts))

  read_stamp :
      (t : Text)
      → HasForm unicode stamp_form ts
      → raw ≡ ts ++ (codes " " ++ t)
      → match_line unicode raw source ≡ match_level unicode raw source ts t
  unfolding match_line
  read_stamp t form e =
      let taken : take_form unicode stamp_form raw ≡ some (ts, codes " " ++ t) =
        rw e (take_form-append unicode stamp_form ts (codes " " ++ t) form) in
      rw (taken, match_line) refl

-- What a line holds is read back from it, where its stamp has the form of one, its level is of
-- capital letters, its logger's name has no closing bracket, neither is empty, and its message has no
-- line break, whatever else is in the message.
pub parse_line-format_line :
    (unicode : Unicode) (ts level logger message source : Text)
    → HasForm unicode stamp_form ts
    → is_empty level ≡ false
    → All (λ c. is_capital c ≡ true) level
    → is_empty logger ≡ false
    → All (λ c. is_inside c ≡ true) logger
    → All (λ c. (c == 10) ≡ false) message
    → parse_line unicode (format_line ts level logger message) source ≡ record {
      ts = ts;
      level = level;
      logger = logger;
      message = message;
      source = source;
      raw = format_line ts level logger message;
    }
unfolding parse_line format_line
parse_line-format_line unicode ts level logger message source form l ls g gs ms =
    let raw = format_line ts level logger message in
    let t = logger ++ (codes "] " ++ message) in
    let read =
      read_stamp unicode ts level logger message source raw (level ++ (codes " [" ++ t)) form refl
      ∙ read_level unicode ts level logger message source raw t l ls
      ∙ read_logger unicode ts level logger message source raw g gs ms in
    rw (read, parse_line) refl
