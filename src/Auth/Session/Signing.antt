-- ===== src/Auth/Session/Signing.antt =====
-- What the signature of src/msgate/auth/session.py is worth.
use msgate.Prelude.{
  ℕ, ◌+◌, true, false, not, ◌||◌, Option, none, some, [], ◌∷◌, ◌++◌, ◌≡◌, refl, ap, ◌∙◌, Text,
  text_eq, text_eq_refl, text_eq_iff, ltb, if◌then◌else◌, lt→ltb, All, Bool-cases, inl, inr,
}
use msgate.Prelude.Base64.{Bytes, IsBytes}
use msgate.Prelude.Ints.{ℤ, pos}
use msgate.Prelude.Maps.{lookup, delete, lookup-assign, lookup-delete}
use msgate.Prelude.Results.{Result, ok, raise}
use msgate.Prelude.Texts.{is_empty, partition}
use msgate.Prelude.Urlsafe.{
  urlsafe_b64encode, urlsafe_b64decode, urlsafe_b64decode-encode, UrlChar,
  urlsafe_b64encode-UrlChar, urlsafe_b64encode-nonempty,
}
use msgate.Auth.Session.{
  integer, SessionData, Document, object, other, SessionLibrary, max_age, exp_key, is_ascii, int_of,
  expired, or_zero, session_of, session_body, encode_session, read_payload, decode_session,
  decode_parts,
}

partition_at : (s t : Text) → All UrlChar s → partition b'.' (s ++ (b'.' ∷ t)) ≡ (s, true, t)
partition_at [] t h = refl
partition_at (c ∷ s) t h = rw (h.0.1, partition_at s t h.1) refl

is_ascii_lem : (s : Text) → All UrlChar s → is_ascii s ≡ true
is_ascii_lem [] h = refl
is_ascii_lem (c ∷ s) h = rw (lt→ltb c 128 h.0.0, is_ascii_lem s h.1) refl

module _ (lib : SessionLibrary) where
  -- A token is taken apart where it was put together.
  decode_token :
      (payload sig key : Bytes) (now : ℕ)
      → IsBytes payload
      → IsBytes sig
      → is_empty payload ≡ false
      → is_empty sig ≡ false
      → decode_session lib (urlsafe_b64encode payload ++ (b'.' ∷ urlsafe_b64encode sig)) key now
        ≡ read_payload lib payload sig key now
  unfolding decode_session decode_parts
  decode_token payload sig key now hp hs ep es =
      let p = urlsafe_b64encode payload in
      let s = urlsafe_b64encode sig in
      ap (λ parts. decode_parts lib parts key now)
        (partition_at p s (urlsafe_b64encode-UrlChar payload))
      ∙ rw
          (
            urlsafe_b64encode-nonempty payload ep,
            urlsafe_b64encode-nonempty sig es,
            is_ascii_lem p (urlsafe_b64encode-UrlChar payload),
            is_ascii_lem s (urlsafe_b64encode-UrlChar sig),
            urlsafe_b64decode-encode payload hp,
          )
          (rw (urlsafe_b64decode-encode sig hs) refl)

  -- The lookups of a session that went through the cookie.
  abbrev SameBut : SessionData → SessionData → Type 0
  SameBut d data_ = (k : Text) → lookup k d ≡ (if text_eq k exp_key then none else lookup k data_)

  read_own :
      (data_ d : SessionData) (now later : ℕ)
      → ((k : Text) → lookup k d ≡ lookup k (session_body lib data_ now))
      → session_of (object d) later
        ≡ ok (if ltb (now + max_age) later then none else some (delete exp_key d))
  unfolding session_of int_of
  read_own data_ d now later same =
      rw (same exp_key, session_of)
        (rw (lookup-assign exp_key exp_key (integer (pos (now + max_age))) (delete exp_key data_))
          refl)

  lookup_own :
      (data_ d : SessionData) (now : ℕ)
      → ((k : Text) → lookup k d ≡ lookup k (session_body lib data_ now))
      → SameBut (delete exp_key d) data_
  lookup_own data_ d now same k =
      let exp = integer (pos (now + max_age)) in
      rw (lookup-delete k exp_key d, same k, lookup-assign k exp_key exp (delete exp_key data_))
        (rw (lookup-delete k exp_key data_)
          (elim (Bool-cases (text_eq k exp_key)) [ inl e ↦ rw e refl | inr e ↦ rw e refl ]))

  -- A cookie that was encoded with the same key is read back until its seven days are
  -- over: the session has every key of the one that was stored but "exp", which
  -- it does not have. From then on the cookie is refused.
  pub decode_session-encode_session :
      (data_ : SessionData) (key : Bytes) (now later : ℕ)
      → (d : SessionData) × (decode_session lib (encode_session lib data_ key now) key later
          ≡ ok (if ltb (now + max_age) later then none else some d))
        × ((k : Text) → lookup k d ≡ (if text_eq k exp_key then none else lookup k data_))
  unfolding encode_session read_payload
  decode_session-encode_session data_ key now later =
      let payload = lib.dumps (session_body lib data_ now) in
      let sig = lib.hmac_sha256 key payload in
      let (d, loaded, same) = lib.loads-dumps (session_body lib data_ now) in
      (
        delete exp_key d,
        decode_token payload sig key later (lib.dumps-IsBytes (session_body lib data_ now))
              (lib.hmac-IsBytes key payload) (lib.dumps-nonempty (session_body lib data_ now))
              (lib.hmac-nonempty key payload)
            ∙ rw (text_eq_refl sig, loaded) (read_own data_ d now later same),
        lookup_own data_ d now same,
      )

  -- What a session rests on: the token's two parts decode to a payload and its signature under the
  -- key, and the session is what the payload holds, whose time is not over.
  pub record Signed (token : Text) (key : Bytes) (now : ℕ) (d : SessionData) : Type 0 where
    pub payload : Bytes
    pub body : SessionData
    pub exp : ℤ
    pub payload_read : urlsafe_b64decode (partition b'.' token).0 ≡ some payload
    pub signature : urlsafe_b64decode (partition b'.' token).2 ≡ some (lib.hmac_sha256 key payload)
    pub loaded : lib.loads payload ≡ some (object body)
    pub expires : int_of (or_zero (lookup exp_key body)) ≡ ok (some exp)
    pub alive : expired exp now ≡ false
    pub is_body : d ≡ delete exp_key body

  -- The payload from which a session was read.
  record Content (payload : Bytes) (now : ℕ) (d : SessionData) : Type 0 where
    body : SessionData
    exp : ℤ
    loaded : lib.loads payload ≡ some (object body)
    expires : int_of (or_zero (lookup exp_key body)) ≡ ok (some exp)
    alive : expired exp now ≡ false
    is_body : d ≡ delete exp_key body

  read_exp :
      (body : SessionData) (now : ℕ) (d : SessionData) (r : Result (Option ℤ))
      → int_of (or_zero (lookup exp_key body)) ≡ r
      → session_of (object body) now ≡ ok (some d)
      → (exp : ℤ) × (r ≡ ok (some exp)) × (expired exp now ≡ false) × (d ≡ delete exp_key body)
  unfolding session_of
  read_exp body now d (raise x) e h = absurd (cc)
  read_exp body now d (ok none) e h = absurd (cc)
  read_exp body now d (ok (some exp)) e h = elim (Bool-cases (expired exp now)) [
    | inl f ↦ absurd (cc)
    | inr f ↦ (exp, refl, f, cc)
  ]

  read_document :
      (payload : Bytes) (now : ℕ) (d : SessionData) (document : Option Document)
      → lib.loads payload ≡ document
      → elim document [ none ↦ ok none | some body ↦ session_of body now ] ≡ ok (some d)
      → Content payload now d
  unfolding session_of
  read_document payload now d none e h = absurd (cc)
  read_document payload now d (some other) e h = absurd (cc)
  read_document payload now d (some (object body)) e h =
      let (exp, expires, alive, is_body) =
        read_exp body now d (int_of (or_zero (lookup exp_key body))) refl h in
      record {
        body = body;
        exp = exp;
        loaded = e;
        expires = expires;
        alive = alive;
        is_body = is_body;
      }

  read_signed :
      (payload sig key : Bytes) (now : ℕ) (d : SessionData)
      → read_payload lib payload sig key now ≡ ok (some d)
      → (sig ≡ lib.hmac_sha256 key payload) × Content payload now d
  unfolding read_payload
  read_signed payload sig key now d h =
      elim (Bool-cases (text_eq sig (lib.hmac_sha256 key payload))) [
        | inl e ↦ (
          (text_eq_iff sig (lib.hmac_sha256 key payload)).0 e,
          read_document payload now d (lib.loads payload) refl (rw e at h),
        )
        | inr e ↦ absurd (let k = rw e at h in cc)
      ]

  read_sig :
      (payload key : Bytes) (now : ℕ) (d : SessionData) (decoded : Option Bytes)
      → elim decoded [ none ↦ ok none | some sig ↦ read_payload lib payload sig key now ]
        ≡ ok (some d)
      → (decoded ≡ some (lib.hmac_sha256 key payload)) × Content payload now d
  read_sig payload key now d none h = absurd (cc)
  read_sig payload key now d (some sig) h =
      let (e, content) = read_signed payload sig key now d h in (cc, content)

  read_both :
      (s : Text) (key : Bytes) (now : ℕ) (d : SessionData) (decoded : Option Bytes)
      → elim decoded [
        | none ↦ ok none
        | some payload ↦ elim (urlsafe_b64decode s) [
          | none ↦ ok none
          | some sig ↦ read_payload lib payload sig key now
        ]
      ]
        ≡ ok (some d)
      → (payload : Bytes) × (decoded ≡ some payload)
        × (urlsafe_b64decode s ≡ some (lib.hmac_sha256 key payload))
        × Content payload now d
  read_both s key now d none h = absurd (cc)
  read_both s key now d (some payload) h =
      let (e, content) = read_sig payload key now d (urlsafe_b64decode s) h in
      (payload, refl, e, content)

  -- A session is read from a token only if the token is signed with the key and not expired: its part
  -- expired the full stop decodes to a payload, the part after it to the payload's HMAC under the key,
  -- and the session is the payload's dict without "exp", which is not before the present.
  pub decode_session-Signed :
      (token : Text) (key : Bytes) (now : ℕ) (d : SessionData)
      → decode_session lib token key now ≡ ok (some d)
      → Signed token key now d
  unfolding decode_session decode_parts
  decode_session-Signed token key now d h =
      let p = (partition b'.' token).0 in
      let s = (partition b'.' token).2 in
      let refused =
        not (partition b'.' token).1
        || is_empty p
        || is_empty s
        || not (is_ascii p)
        || not (is_ascii s) in
      elim (Bool-cases refused) [
        | inl e ↦ absurd (let k = rw e at h in cc)
        | inr e ↦
            let (payload, payload_read, signature, content) =
              read_both s key now d (urlsafe_b64decode p) (rw e at h) in
            record {
              payload = payload;
              body = content.body;
              exp = content.exp;
              payload_read = payload_read;
              signature = signature;
              loaded = content.loaded;
              expires = content.expires;
              alive = content.alive;
              is_body = content.is_body;
            }
      ]
