-- ===== src/Scenarios/Json.antt =====
-- A printer and a reader of sessions, and a checksum for a signature, with the laws that the session
-- cookie asks of Python's.
use msgate.Prelude.{
  ℕ, zero, suc, ◌+◌, ◌*◌, ◌/◌, ◌%◌, ◌<◌, ◌≤◌, Bool-cases, inl, inr, true, false, some, List, [],
  ◌∷◌, ◌++◌, map, ◌≡◌, refl, ap, ◌∙◌, Text, if◌then◌else◌, ◌==◌, arith,
}
use msgate.Prelude.Base64.{Bytes, IsBytes}
use msgate.Prelude.Ints.{pos, negsuc}
use msgate.Prelude.Texts.{is_empty}
use msgate.Auth.Session.{
  Json, null, boolean, integer, float, string, compound, SessionData, object, SessionLibrary,
}

-- Texts in one text: the code points moved up by one, and zero at the end of each.
pub join : List Text → Text
join [] = []
join (t ∷ ts) = map suc t ++ (0 ∷ join ts)

push : ℕ → List Text → List Text
push c [] = (c ∷ []) ∷ []
push c (t ∷ ts) = (c ∷ t) ∷ ts

pub parts : Text → List Text
unfolding push
parts [] = []
parts (zero ∷ s) = [] ∷ parts s
parts (suc c ∷ s) = push c (parts s)

parts_at : (t s : Text) → parts (map suc t ++ (0 ∷ s)) ≡ t ∷ parts s
unfolding parts push
parts_at [] s = refl
parts_at (c ∷ t) s = rw (parts_at t s) refl

parts-join : (ts : List Text) → parts (join ts) ≡ ts
unfolding join parts
parts-join [] = refl
parts-join (t ∷ ts) = parts_at t (join ts) ∙ ap (◌∷◌ t) (parts-join ts)

-- A number in base two, the lowest digit first, and 2 at its end; the fuel is the number.
bits : ℕ → ℕ → Bytes → Bytes
bits zero n s = 2 ∷ s
bits (suc f) n s = if n == 0 then 2 ∷ s else (n % 2) ∷ bits f (n / 2) s

pub to_bytes : Text → Bytes
unfolding bits
to_bytes [] = 3 ∷ []
to_bytes (c ∷ t) = bits c c (to_bytes t)

grow : ℕ → Text → Text
grow b [] = b ∷ []
grow b (n ∷ ns) = (b + 2 * n) ∷ ns

pub of_bytes : Bytes → Text
unfolding grow
of_bytes [] = []
of_bytes (b ∷ s) =
    let rest = of_bytes s in if b == 2 then 0 ∷ rest else if b == 3 then [] else grow b rest

of_bytes-digit : (b : ℕ) (s : Bytes) → b < 2 → of_bytes (b ∷ s) ≡ grow b (of_bytes s)
unfolding of_bytes
of_bytes-digit b s h = ground arith

of_bytes-bits : (f n : ℕ) (s : Bytes) → n ≤ f → of_bytes (bits f n s) ≡ n ∷ of_bytes s
unfolding of_bytes bits grow
of_bytes-bits zero n s h = ap (λ m. m ∷ of_bytes s) (omega arith)
of_bytes-bits (suc f) n s h = elim (Bool-cases (n == 0)) [
  | inl e ↦ rw e (ap (λ m. m ∷ of_bytes s) (ground arith))
  | inr e ↦
      rw (e, of_bytes-digit (n % 2) (bits f (n / 2) s) (omega arith))
        (rw (of_bytes-bits f (n / 2) s (ground arith)) (ap (λ m. m ∷ of_bytes s) (omega arith)))
]

of_bytes-to_bytes : (t : Text) → of_bytes (to_bytes t) ≡ t
unfolding of_bytes to_bytes
of_bytes-to_bytes [] = refl
of_bytes-to_bytes (c ∷ t) =
    of_bytes-bits c c (to_bytes t) (omega arith) ∙ ap (◌∷◌ c) (of_bytes-to_bytes t)

bits-IsBytes : (f n : ℕ) (s : Bytes) → IsBytes s → IsBytes (bits f n s)
unfolding bits
bits-IsBytes zero n s h = (omega arith, h)
bits-IsBytes (suc f) n s h = elim (Bool-cases (n == 0)) [
  | inl e ↦ rw e (omega arith, h)
  | inr e ↦ rw e (omega arith, bits-IsBytes f (n / 2) s h)
]

pub to_bytes-IsBytes : (t : Text) → IsBytes (to_bytes t)
unfolding to_bytes
to_bytes-IsBytes [] = (omega arith, tt)
to_bytes-IsBytes (c ∷ t) = bits-IsBytes c c (to_bytes t) (to_bytes-IsBytes t)

bits_nonempty : (f n : ℕ) (s : Bytes) → is_empty (bits f n s) ≡ false
unfolding bits
bits_nonempty zero n s = refl
bits_nonempty (suc f) n s = ground arith

pub to_bytes_nonempty : (t : Text) → is_empty (to_bytes t) ≡ false
unfolding to_bytes
to_bytes_nonempty [] = refl
to_bytes_nonempty (c ∷ t) = bits_nonempty c c (to_bytes t)

pub show : Json → Text
show null = 0 ∷ []
show (boolean true) = 1 ∷ []
show (boolean false) = 2 ∷ []
show (integer (pos n)) = 3 ∷ n ∷ []
show (integer (negsuc n)) = 4 ∷ n ∷ []
show (float (pos n) true) = 5 ∷ n ∷ []
show (float (pos n) false) = 6 ∷ n ∷ []
show (float (negsuc n) true) = 7 ∷ n ∷ []
show (float (negsuc n) false) = 8 ∷ n ∷ []
show (string s) = 9 ∷ s
show (compound true) = 10 ∷ []
show (compound false) = 11 ∷ []

first : Text → ℕ
first [] = 0
first (n ∷ s) = n

pub read : Text → Json
unfolding first
read [] = null
read (t ∷ s) =
    if t == 0
    then null
    else if t == 1
    then boolean true
    else if t == 2
    then boolean false
    else if t == 3
    then integer (pos (first s))
    else if t == 4
    then integer (negsuc (first s))
    else if t == 5
    then float (pos (first s)) true
    else if t == 6
    then float (pos (first s)) false
    else if t == 7
    then float (negsuc (first s)) true
    else if t == 8
    then float (negsuc (first s)) false
    else if t == 9
    then string s
    else compound (t == 10)

read-show : (v : Json) → read (show v) ≡ v
unfolding read show first
read-show null = refl
read-show (boolean true) = refl
read-show (boolean false) = refl
read-show (integer (pos n)) = refl
read-show (integer (negsuc n)) = refl
read-show (float (pos n) true) = refl
read-show (float (pos n) false) = refl
read-show (float (negsuc n) true) = refl
read-show (float (negsuc n) false) = refl
read-show (string s) = refl
read-show (compound true) = refl
read-show (compound false) = refl

pub entries : SessionData → List Text
entries [] = []
entries ((k, v) ∷ d) = k ∷ show v ∷ entries d

pub of_entries : List Text → SessionData
of_entries (k ∷ t ∷ ts) = (k, read t) ∷ of_entries ts
of_entries _ = []

of_entries-entries : (d : SessionData) → of_entries (entries d) ≡ d
unfolding entries of_entries
of_entries-entries [] = refl
of_entries-entries ((k, v) ∷ d) = rw (read-show v, of_entries-entries d) refl

pub print_session : SessionData → Bytes
unfolding to_bytes join entries
print_session d = to_bytes (join (entries d))

pub read_session : Bytes → SessionData
unfolding of_bytes parts of_entries
read_session s = of_entries (parts (of_bytes s))

pub read_session-print_session : (d : SessionData) → read_session (print_session d) ≡ d
unfolding read_session print_session
read_session-print_session d =
    rw (of_bytes-to_bytes (join (entries d)), parts-join (entries d)) (of_entries-entries d)

pub checksum : Bytes → ℕ
checksum [] = 7
checksum (b ∷ s) = (b + 31 * checksum s) % 256

pub checksum_below : (s : Bytes) → checksum s < 256
unfolding checksum
checksum_below [] = omega arith
checksum_below (b ∷ s) = omega arith

unfoldable pub json : SessionLibrary
unfolding read_session print_session checksum
json = record {
  dumps = print_session;
  loads = λ s. some (object (read_session s));
  hmac_sha256 = λ key payload. checksum (key ++ payload) ∷ [];
  dumps-IsBytes = λ d. to_bytes-IsBytes (join (entries d));
  hmac-IsBytes = λ key payload. (checksum_below (key ++ payload), tt);
  dumps-nonempty = λ d. to_bytes_nonempty (join (entries d));
  hmac-nonempty = λ key payload. refl;
  loads-dumps = λ d. (d, ap (λ e. some (object e)) (read_session-print_session d), λ k. refl);
}
