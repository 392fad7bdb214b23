-- ===== src/Logs.antt =====
-- src/msgate/observability/log_reader.py: reading and searching the log files. Python's Unicode tables
-- are a parameter.
use msgate.Prelude.{
  ℕ, zero, suc, ◌+◌, min, Bool, true, false, not, ◌&&◌, ◌||◌, Option, none, some, List, [], ◌∷◌,
  ◌++◌, Text, codes, text_eq, leb, ltb, ◌==◌, filter, length, if◌then◌else◌,
}
use mathlib.Core.Option
use msgate.Prelude.Ints.{ℤ, at_least, at_most}
use msgate.Prelude.Sort.{sort}
use msgate.Prelude.Texts.{is_empty, strip, contains, starts_with}
pub mod Searching
pub mod Lines
pub mod Retention

pub record LogEntry : Type 0 where
  pub ts : Text
  pub level : Text
  pub logger : Text
  pub message : Text
  pub source : Text
  pub raw : Text

-- A file of the directory: its name, and what `read_text` gives or that it raises OSError.
pub record LogFile : Type 0 where
  pub name : Text
  pub text : Option Text

pub record Unicode : Type 0 where
  pub is_decimal : ℕ → Bool
  pub lower : Text → Text
  pub upper : Text → Text

abbrev pub reverse_onto {ℓ} : {A : Type ℓ} → List A → List A → List A
reverse_onto [] ys = ys
reverse_onto (x ∷ xs) ys = reverse_onto xs (x ∷ ys)

-- `reversed(lines)`
abbrev pub reversed {ℓ} : {A : Type ℓ} → List A → List A
reversed xs = reverse_onto xs []

-- The line breaks of `str.splitlines`, of which CR LF is one.
abbrev pub is_break : ℕ → Bool
is_break c =
    (leb 10 c && leb c 13) || (leb 28 c && leb c 30) || c == 0x85 || c == 0x2028 || c == 0x2029

-- The line begun so far is kept backwards.
unfoldable pub split_from : Text → Text → List Text
split_from line [] = if is_empty line then [] else reversed line ∷ []
split_from line (c ∷ s) = elim (is_break c) [
  | false ↦ split_from (c ∷ line) s
  | true ↦ elim (c == 13 && starts_with (10 ∷ []) s) [
    | false ↦ reversed line ∷ split_from [] s
    | true ↦ split_from line s
  ]
]

unfoldable pub splitlines : Text → List Text
unfolding split_from
splitlines text = split_from [] text

-- `glob("msgate-*.log")`
abbrev pub has_ending : Text → Text → Bool
has_ending suffix t = starts_with (reversed suffix) (reversed t)

abbrev pub is_log : LogFile → Bool
is_log f =
    starts_with (codes "msgate-") f.name
    && has_ending (codes ".log") f.name
    && leb 11 (length f.name)

abbrev pub text_geb : Text → Text → Bool
text_geb s [] = true
text_geb [] (d ∷ t) = false
text_geb (c ∷ s) (d ∷ t) = let rest = text_geb s t in if c == d then rest else ltb d c

abbrev pub name_later : LogFile → LogFile → Bool
name_later f g = text_geb f.name g.name

-- The directory may be missing.
unfoldable pub list_log_files : Option (List LogFile) → List LogFile
unfolding sort
list_log_files none = []
list_log_files (some files) = sort name_later (filter is_log files)

-- The form of a time stamp, in which `d` stands for a digit.
abbrev pub stamp_form : Text
stamp_form = codes "dddd-dd-ddTdd:dd:dd"

abbrev pub is_capital : ℕ → Bool
is_capital c = leb b'A' c && leb c b'Z'

abbrev pub is_inside : ℕ → Bool
is_inside c = not (c == b']')

-- The longest beginning whose characters pass a test, and the rest.
abbrev pub span : (ℕ → Bool) → Text → Text × Text
span p [] = ([], [])
span p (c ∷ s) = let (taken, rest) = span p s in if p c then (c ∷ taken, rest) else ([], c ∷ s)

-- What follows a literal.
abbrev pub after_literal : Text → Text → Option Text
after_literal [] s = some s
after_literal (p ∷ ps) [] = none
after_literal (p ∷ ps) (c ∷ s) = if p == c then after_literal ps s else none

-- `.*$` from the beginning of a text: no line break is taken, and one may stand at the end.
abbrev pub rest_of_line : Text → Option Text
rest_of_line [] = some []
rest_of_line (c ∷ s) =
    let rest = Option.map (λ t. c ∷ t) (rest_of_line s) in
    if c == 10 then (if is_empty s then some [] else none) else rest

abbrev pub blank_entry : Text → Text → LogEntry
blank_entry raw source = record {
  ts = [];
  level = [];
  logger = [];
  message = raw;
  source = source;
  raw = raw;
}

module _ (unicode : Unicode) where
  abbrev pub fits : ℕ → ℕ → Bool
  fits f c = if f == b'd' then unicode.is_decimal c else f == c

  -- The part of a text that has a form, and the rest.
  abbrev pub take_form : Text → Text → Option (Text × Text)
  take_form [] s = some ([], s)
  take_form (f ∷ fs) [] = none
  take_form (f ∷ fs) (c ∷ s) = elim (fits f c) [
    | false ↦ none
    | true ↦ elim (take_form fs s) [ none ↦ none | some taken ↦ some (c ∷ taken.0, taken.1) ]
  ]

  -- The groups of `_LINE_RE`, one after the other.
  unfoldable pub match_logger : Text → Text → Text → Text → Text → Option LogEntry
  match_logger raw source ts level s =
      let (logger, rest) = span is_inside s in
      if is_empty logger then none else elim (after_literal (codes "] ") rest) [
        | none ↦ none
        | some t ↦
            Option.map
              (λ message. record {
                ts = ts;
                level = level;
                logger = logger;
                message = message;
                source = source;
                raw = raw;
              })
              (rest_of_line t)
      ]

  unfoldable pub match_level : Text → Text → Text → Text → Option LogEntry
  unfolding match_logger
  match_level raw source ts s =
      let (level, rest) = span is_capital s in
      if is_empty level then none else elim (after_literal (codes " [") rest) [
        | none ↦ none
        | some t ↦ match_logger raw source ts level t
      ]

  unfoldable pub match_line : Text → Text → Option LogEntry
  unfolding match_level
  match_line raw source = elim (take_form stamp_form raw) [
    | none ↦ none
    | some taken ↦ elim (after_literal (codes " ") taken.1) [
      | none ↦ none
      | some t ↦ match_level raw source taken.0 t
    ]
  ]

  -- `_parse_line`
  unfoldable pub parse_line : Text → Text → LogEntry
  unfolding match_line
  parse_line raw source = elim (match_line raw source) [
    | none ↦ blank_entry raw source
    | some e ↦ e
  ]

-- The arguments of a search.
pub record Query : Type 0 where
  pub query : Text
  pub level : Text
  pub logger : Text
  pub day : Text
  pub limit : ℤ

module _ (unicode : Unicode) where
  -- `max(1, min(int(limit), 2000))`
  abbrev pub limit_of : Query → ℕ
  limit_of q = at_least 1 (at_most 2000 q.limit)

  -- `if wanted and …: continue`, the other way round.
  abbrev pub unless_asked : Text → Bool → Bool
  unless_asked wanted test = is_empty wanted || test

  abbrev pub is_wanted : Query → LogEntry → Bool
  is_wanted q entry =
      let level_u = unicode.upper (strip q.level) in
      let logger_q = unicode.lower (strip q.logger) in
      let needle = unicode.lower (strip q.query) in
      unless_asked level_u (text_eq entry.level level_u)
      && unless_asked logger_q (contains logger_q (unicode.lower entry.logger))
      && unless_asked needle (contains needle (unicode.lower entry.raw))

  -- What the loop makes of a line: nothing, where it continues.
  unfoldable pub entry_of : Query → Text → Text → Option LogEntry
  unfolding parse_line strip
  entry_of q source raw =
      if is_empty (strip raw)
      then none
      else (let entry = parse_line unicode raw source in
          if is_wanted q entry then some entry else none)

  -- The loop over the lines of a file, with whether the limit is reached.
  unfoldable pub scan_lines : Query → Text → List Text → List LogEntry → Bool × List LogEntry
  unfolding entry_of
  scan_lines q source [] out = (false, out)
  scan_lines q source (raw ∷ raws) out = elim (entry_of q source raw) [
    | none ↦ scan_lines q source raws out
    | some entry ↦ elim (leb (limit_of q) (length (out ++ (entry ∷ [])))) [
      | true ↦ (true, out ++ (entry ∷ []))
      | false ↦ scan_lines q source raws (out ++ (entry ∷ []))
    ]
  ]

  -- The loop over the files.
  unfoldable pub scan_files : Query → List LogFile → List LogEntry → List LogEntry
  unfolding scan_lines splitlines
  scan_files q [] out = out
  scan_files q (f ∷ files) out = elim f.text [
    | none ↦ scan_files q files out
    | some text ↦
        let (done, out') = scan_lines q f.name (reversed (splitlines text)) out in
        let rest = scan_files q files out' in if done then out' else rest
  ]

  abbrev pub is_of_day : Text → LogFile → Bool
  is_of_day day f = contains day f.name

  abbrev pub searched_files : Query → List LogFile → List LogFile
  searched_files q files =
      let day = strip q.day in if is_empty day then files else filter (is_of_day day) files

  unfoldable pub search_logs : Query → Option (List LogFile) → List LogEntry
  unfolding scan_files list_log_files
  search_logs q directory = scan_files q (searched_files q (list_log_files directory)) []
