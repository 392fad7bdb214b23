-- ===== src/Queue/Backoff.antt =====
-- src/msgate/queue/backoff.py: which send errors are tried again, and after how long.
-- Delays are whole seconds: the floats of the source are exact at these values. `str` is a list of
-- code points; which characters beyond ASCII are word characters of a regular expression is the
-- argument `unicode_word`, Python's Unicode table.
use msgate.Prelude.{
  ℕ, zero, suc, ◌+◌, ◌-◌, ◌*◌, ◌^◌, min, Bool, true, false, not, ◌&&◌, ◌||◌, List, [], ◌∷◌, Text,
  codes, leb, ltb, ◌==◌, if◌then◌else◌, any, drop, length,
}
use msgate.Prelude.Texts.{starts_with, contains, lower}
pub mod Delay
pub mod Matching

abbrev pub retriable_codes : List Text
retriable_codes = codes "429" ∷ codes "503" ∷ codes "502" ∷ codes "504" ∷ codes "408" ∷ []

abbrev pub retriable_words : List Text
retriable_words =
    codes "timeout"
    ∷ codes "timed out"
    ∷ codes "connection"
    ∷ codes "temporarily unavailable"
    ∷ codes "service unavailable"
    ∷ codes "rate limit"
    ∷ codes "too many requests"
    ∷ codes "connection reset"
    ∷ codes "connection refused"
    ∷ codes "network"
    ∷ codes "unreachable"
    ∷ []

-- The class `\w` of a regular expression.
abbrev pub is_word : (ℕ → Bool) → ℕ → Bool
is_word unicode_word c =
    if leb 128 c
    then unicode_word c
    else (leb b'a' c && leb c b'z')
      || (leb b'A' c && leb c b'Z')
      || (leb b'0' c && leb c b'9')
      || c == b'_'

abbrev pub starts_word : (ℕ → Bool) → Text → Bool
starts_word u [] = false
starts_word u (c ∷ s) = is_word u c

-- `\b(…)\b` at one position: each code consists of word characters, so the boundaries stand where
-- no word character comes before it and none after it.
abbrev pub code_here : (ℕ → Bool) → List Text → Bool → Text → Bool
code_here u numbers in_word s =
    if in_word
    then false
    else any (λ n. starts_with n s && not (starts_word u (drop (length n) s))) numbers

-- `_RETRIABLE_CODES.search`: the first position that matches; `in_word` tells whether the character
-- before it is a word character.
unfoldable pub search_codes : (ℕ → Bool) → List Text → Bool → Text → Bool
search_codes u numbers in_word [] = code_here u numbers in_word []
search_codes u numbers in_word (c ∷ s) =
    if code_here u numbers in_word (c ∷ s) then true else search_codes u numbers (is_word u c) s

-- The two tests of `is_retriable_error` over a text in lower case.
unfoldable pub holds_any : (ℕ → Bool) → List Text → List Text → Text → Bool
unfolding search_codes
holds_any u numbers phrases text =
    if search_codes u numbers false text then true else any (λ word. contains word text) phrases

unfoldable pub is_retriable_error : (ℕ → Bool) → Text → Bool
is_retriable_error unicode_word error =
    holds_any unicode_word retriable_codes retriable_words (lower error)

unfoldable pub backoff_seconds : ℕ → ℕ → ℕ → ℕ
backoff_seconds attempts base maximum =
    let attempts' : ℕ = if ltb attempts 1 then 1 else attempts in
    min (base * 2 ^ (attempts' - 1)) maximum

-- The keyword defaults `base=5.0, maximum=300.0`.
unfoldable pub default_backoff : ℕ → ℕ
unfolding backoff_seconds
default_backoff attempts = backoff_seconds attempts 5 300
