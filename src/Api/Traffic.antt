-- ===== src/Api/Traffic.antt =====
-- src/msgate/api/routes/ws.py: the socket that streams the events of the hub. Sockets do not pass the
-- middleware, so that the route reads the cookie itself.
use msgate.Prelude.{
  ℕ, true, false, not, Option, none, some, List, [], map, ◌≡◌, refl, sym, ◌∙◌, Text, codes,
  Bool-cases, inl, inr, if◌then◌else◌,
}
use msgate.Prelude.Base64.{Bytes}
use msgate.Prelude.Results.{Result, ok, ◌>>=◌, Result-cases}
use msgate.Prelude.Texts.{is_empty}
use msgate.Auth.Session.{SessionData, SessionLibrary, decode_session, load_session, or_empty}
use msgate.Auth.Gate.{logged_in, must_change}
use msgate.Auth.Gate.Entry.{SignedCookie, load_session-SignedCookie}

pub data Admission : Type 0 where
  closed : ℕ → Admission
  admitted : Admission

abbrev pub admission_of : SessionData → Admission
admission_of session =
    if not (logged_in session)
    then closed 4401
    else if must_change session
    then closed 4403
    else admitted

-- What the loop sends for what it takes of its queue: a message, or nothing in time.
abbrev pub keepalive : Text
keepalive = codes "{\"kind\":\"ping\",\"message\":\"keepalive\",\"data\":{}}"

abbrev pub sent_for : Option Text → Text
sent_for none = keepalive
sent_for (some msg) = msg

unfoldable pub traffic_stream : List (Option Text) → List Text
traffic_stream taken = map sent_for taken

module _ (lib : SessionLibrary) (key : Bytes) where
  -- `_ws_session`
  unfoldable pub ws_session : Option Text → ℕ → Result SessionData
  unfolding decode_session
  ws_session none now = ok []
  ws_session (some token) now =
      if is_empty token then ok [] else or_empty lib (decode_session lib token key now)

  -- `traffic_ws` up to its loop.
  unfoldable pub traffic_ws : Option Text → ℕ → Result Admission
  unfolding ws_session logged_in must_change
  traffic_ws cookie now = ws_session cookie now >>= λ session. ok (admission_of session)

  ws_session-load_session :
      (cookie : Option Text) (now : ℕ) → ws_session cookie now ≡ load_session lib cookie key now
  unfolding ws_session load_session
  ws_session-load_session none now = refl
  ws_session-load_session (some token) now = refl

  admission_inv :
      (session : SessionData)
      → ok (admission_of session) ≡ ok admitted
      → (logged_in session ≡ true) × (must_change session ≡ false)
  admission_inv session h = elim (Bool-cases (logged_in session)) [
    | inr l ↦ absurd (let k : ok (closed 4401) ≡ ok admitted = rw l at h in cc)
    | inl l ↦ elim (Bool-cases (must_change session)) [
      | inl m ↦ absurd (let k : ok (closed 4403) ≡ ok admitted = rw (l, m) at h in cc)
      | inr m ↦ (l, m)
    ]
  ]

  -- The socket streams events only to a client whose cookie is signed with the gateway's key, has
  -- not expired and holds a session of the administrator whose password need not be changed.
  pub traffic_ws-SignedCookie :
      (cookie : Option Text) (now : ℕ)
      → traffic_ws cookie now ≡ ok admitted
      → (session : SessionData) × (logged_in session ≡ true)
        × (must_change session ≡ false)
        × SignedCookie lib key cookie now session
  unfolding traffic_ws
  traffic_ws-SignedCookie cookie now h = elim (Result-cases (ws_session cookie now)) [
    | inr (e, f) ↦ absurd (let k = rw f at h in cc)
    | inl (session, f) ↦
        let (l, m) = admission_inv session (rw f at h) in
        (
          session,
          l,
          m,
          load_session-SignedCookie lib key cookie now session
              (sym (ws_session-load_session cookie now) ∙ f) l,
        )
  ]
