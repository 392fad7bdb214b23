-- ===== src/Auth/Session.antt =====
-- src/msgate/auth/session.py, with `load_session` and `save_session` of
-- src/msgate/auth/web_middleware.py. A session is a dict with texts for keys; the JSON printer and
-- reader, the HMAC and UTF-8 are parameters. Times are whole seconds.
use msgate.Prelude.{
  ℕ, ◌+◌, ◌*◌, Bool, true, false, not, ◌&&◌, ◌||◌, Option, none, some, List, [], ◌∷◌, ◌++◌, ◌≡◌,
  Text, codes, text_eq, ltb, if◌then◌else◌,
}
use msgate.Prelude.Base64.{Bytes, IsBytes}
use msgate.Prelude.Ints.{ℤ, pos, negsuc, parse_int}
use msgate.Prelude.Maps.{Dict, lookup, assign, delete}
use msgate.Prelude.Results.{Exception, value_error, raised, Result, ok, raise}
use msgate.Prelude.Texts.{is_empty, partition}
use msgate.Prelude.Urlsafe.{urlsafe_b64encode, urlsafe_b64decode}
pub mod Signing

-- A value of JSON. Of a finite float the gateway reads the integral part and whether it is zero; of
-- a list or a dict inside the session only whether it is empty.
pub data Json : Type 0 where
  null : Json
  boolean : Bool → Json
  integer : ℤ → Json
  float : ℤ → Bool → Json
  string : Text → Json
  compound : Bool → Json

abbrev pub SessionData : Type 0
SessionData = Dict Json

-- What `json.loads` gives.
pub data Document : Type 0 where
  object : SessionData → Document
  other : Document

-- Python's `json`, `hmac` with SHA-256 and UTF-8, as far as the cookie uses them. Two printed dicts
-- may differ in the order of their keys.
pub record SessionLibrary : Type 0 where
  pub dumps : SessionData → Bytes
  pub loads : Bytes → Option Document
  pub hmac_sha256 : Bytes → Bytes → Bytes
  pub dumps-IsBytes : (d : SessionData) → IsBytes (dumps d)
  pub hmac-IsBytes : (key payload : Bytes) → IsBytes (hmac_sha256 key payload)
  pub dumps-nonempty : (d : SessionData) → Path Bool (is_empty (dumps d)) false
  pub hmac-nonempty : (key payload : Bytes) → Path Bool (is_empty (hmac_sha256 key payload)) false
  pub loads-dumps :
      (d : SessionData)
      → (d' : SessionData) × Path (Option Document) (loads (dumps d)) (some (object d'))
        × ((k : Text) → Path (Option Json) (lookup k d') (lookup k d))

abbrev pub max_age : ℕ
max_age = 86400 * 7

abbrev pub exp_key : Text
exp_key = codes "exp"

abbrev pub is_ascii : Text → Bool
is_ascii [] = true
is_ascii (c ∷ s) = ltb c 128 && is_ascii s

-- `int(value)`: a ValueError is `none`, a TypeError is raised on.
unfoldable pub int_of : Json → Result (Option ℤ)
int_of null = raise (raised (codes "TypeError"))
int_of (boolean true) = ok (some (pos 1))
int_of (boolean false) = ok (some (pos 0))
int_of (integer n) = ok (some n)
int_of (float n is_zero) = ok (some n)
int_of (string s) = ok (parse_int s)
int_of (compound _) = raise (raised (codes "TypeError"))

abbrev pub expired : ℤ → ℕ → Bool
expired (pos n) now = ltb n now
expired (negsuc n) now = true

abbrev pub or_zero : Option Json → Json
or_zero none = integer (pos 0)
or_zero (some v) = v

-- The session of a body whose signature holds.
unfoldable pub session_of : Document → ℕ → Result (Option SessionData)
unfolding int_of
session_of (object data_) now = elim (int_of (or_zero (lookup exp_key data_))) [
  | raise e ↦ raise e
  | ok none ↦ ok none
  | ok (some exp) ↦ ok (if expired exp now then none else some (delete exp_key data_))
]
session_of _ now = raise (raised (codes "AttributeError"))

module _ (lib : SessionLibrary) where
  abbrev pub session_body : SessionData → ℕ → SessionData
  session_body data_ now = assign exp_key (integer (pos (now + max_age))) (delete exp_key data_)

  unfoldable pub encode_session : SessionData → Bytes → ℕ → Text
  encode_session data_ key now =
      let payload = lib.dumps (session_body data_ now) in
      urlsafe_b64encode payload ++ (b'.' ∷ urlsafe_b64encode (lib.hmac_sha256 key payload))

  unfoldable pub read_payload : Bytes → Bytes → Bytes → ℕ → Result (Option SessionData)
  unfolding session_of
  read_payload payload sig key now =
      if text_eq sig (lib.hmac_sha256 key payload)
      then elim (lib.loads payload) [ none ↦ ok none | some body ↦ session_of body now ]
      else ok none

  unfoldable pub decode_parts : Text × Bool × Text → Bytes → ℕ → Result (Option SessionData)
  unfolding read_payload
  decode_parts (payload_b64, sep, sig_b64) key now =
      if not sep
        || is_empty payload_b64
        || is_empty sig_b64
        || not (is_ascii payload_b64)
        || not (is_ascii sig_b64)
      then ok none
      else elim (urlsafe_b64decode payload_b64) [
        | none ↦ ok none
        | some payload ↦ elim (urlsafe_b64decode sig_b64) [
          | none ↦ ok none
          | some sig ↦ read_payload payload sig key now
        ]
      ]

  -- `none` is the session that is refused; an exception leaves the function.
  unfoldable pub decode_session : Text → Bytes → ℕ → Result (Option SessionData)
  unfolding decode_parts
  decode_session token key now = decode_parts (partition b'.' token) key now

  abbrev pub or_empty : Result (Option SessionData) → Result SessionData
  or_empty (raise e) = raise e
  or_empty (ok none) = ok []
  or_empty (ok (some d)) = ok d

  -- `load_session`, from the cookie on.
  unfoldable pub load_session : Option Text → Bytes → ℕ → Result SessionData
  unfolding decode_session
  load_session none key now = ok []
  load_session (some token) key now =
      if is_empty token then ok [] else or_empty (decode_session token key now)
