-- ===== src/Auth/Gate/Entry.antt =====
-- Who gets past the gate of src/msgate/auth/web_middleware.py.
use msgate.Prelude.{
  ℕ, Bool, true, false, Option, none, some, [], ◌≡◌, refl, subst, sym, ◌⊎◌, Text, Bool-cases, inl,
  inr,
}
use msgate.Prelude.Base64.{Bytes}
use msgate.Prelude.Ints.{Environ}
use msgate.Prelude.Results.{Result, ok, raise, Result-cases}
use msgate.Prelude.Texts.{is_empty}
use msgate.Http.{Request}
use msgate.Auth.Admin.{AdminTable, admin_exists}
use msgate.Auth.Session.{SessionData, SessionLibrary, decode_session, load_session, or_empty}
use msgate.Auth.Session.Signing.{Signed, decode_session-Signed}
use msgate.Auth.Gate.{
  one_of, public_paths, docs_paths, GateAnswer, call_next, logged_in, must_change, is_setup,
  is_login, change_paths, gate, dispatch,
}

-- A session of the administrator, who need not change the password to see the path.
abbrev pub MayEnter : Text → SessionData → Type 0
MayEnter path session =
    (logged_in session ≡ true)
    × ((must_change session ≡ false)
        ⊎ ((one_of docs_paths path ≡ true) ⊎ (one_of change_paths path ≡ true)))

gate_entry :
    (environ : Environ) (has_admin : Bool) (r : Request) (session : SessionData)
    (passed : Option SessionData)
    → is_setup r.path ≡ false
    → is_login r.path ≡ false
    → gate environ has_admin r session ≡ call_next passed
    → (has_admin ≡ true) × (passed ≡ some session) × MayEnter r.path session
unfolding gate
gate_entry environ false r session passed s l h = absurd (let k = rw s at h in cc)
gate_entry environ true r session passed s l h = elim (Bool-cases (logged_in session)) [
  | inr e ↦ absurd (let k = rw (s, e, l) at h in cc)
  | inl e ↦ elim (Bool-cases (one_of docs_paths r.path)) [
    | inl d ↦ (refl, (let k = rw (s, e, d) at h in cc), (e, inr (inl d)))
    | inr d ↦ elim (Bool-cases (must_change session)) [
      | inr m ↦ (refl, (let k = rw (s, e, d, m) at h in cc), (e, inl m))
      | inl m ↦ elim (Bool-cases (one_of change_paths r.path)) [
        | inl c ↦ (refl, (let k = rw (s, e, d, m, c) at h in cc), (e, inr (inr c)))
        | inr c ↦ absurd (let k = rw (s, e, d, m, c) at h in cc)
      ]
    ]
  ]
]

answer_inj : (a b : GateAnswer) → ok a ≡ ok b → a ≡ b
answer_inj a b e = cc

ok_inj : (a b : SessionData) → ok a ≡ ok b → a ≡ b
ok_inj a b e = cc

no_session {ℓ} :
    {A : Type ℓ} (session : SessionData) → ok [] ≡ ok session → logged_in session ≡ true → A
unfolding logged_in
no_session session h e =
    let k : logged_in [] ≡ true = subst (λ s. logged_in s ≡ true) (sym (ok_inj [] session h)) e in
    absurd (cc)

module _ (lib : SessionLibrary) (key : Bytes) where
  read_or_empty :
      (decoded : Result (Option SessionData)) (session : SessionData)
      → or_empty lib decoded ≡ ok session
      → logged_in session ≡ true
      → decoded ≡ ok (some session)
  read_or_empty (raise x) session h e = absurd (cc)
  read_or_empty (ok none) session h e = no_session session h e
  read_or_empty (ok (some d)) session h e = cc

  -- The cookie from which a session was read.
  abbrev pub SignedCookie : Option Text → ℕ → SessionData → Type 0
  SignedCookie cookie now session =
      (token : Text) × (cookie ≡ some token) × Signed lib token key now session

  pub load_session-SignedCookie :
      (cookie : Option Text) (now : ℕ) (session : SessionData)
      → load_session lib cookie key now ≡ ok session
      → logged_in session ≡ true
      → SignedCookie cookie now session
  unfolding load_session
  load_session-SignedCookie none now session h e = no_session session h e
  load_session-SignedCookie (some token) now session h e = elim (Bool-cases (is_empty token)) [
    | inl f ↦ no_session session (rw f at h) e
    | inr f ↦
        let decoded = read_or_empty (decode_session lib token key now) session (rw f at h) e in
        (token, refl, decode_session-Signed lib token key now session decoded)
  ]

  -- If the gate lets a request through whose path is neither public nor of the setup or login pages,
  -- then an administrator exists, and the request's cookie is signed with the gateway's key, has not
  -- expired, and holds the session that is passed on, which is the administrator's. A session whose
  -- password has to be changed passes only to the documentation and to the pages of that change.
  pub dispatch-SignedCookie :
      (environ : Environ) (table : AdminTable) (now : ℕ) (r : Request) (passed : Option SessionData)
      → one_of public_paths r.path ≡ false
      → is_setup r.path ≡ false
      → is_login r.path ≡ false
      → dispatch environ lib key table now r ≡ ok (call_next passed)
      → (admin_exists table ≡ true)
        × ((session : SessionData) × (passed ≡ some session)
            × MayEnter r.path session
            × SignedCookie r.session_cookie now session)
  unfolding dispatch
  dispatch-SignedCookie environ table now r passed p s l h =
      elim (Result-cases (load_session lib r.session_cookie key now)) [
        | inr (x, f) ↦ absurd (let k = rw (p, f) at h in cc)
        | inl (session, f) ↦
            let (admin, same, may) = gate_entry environ (admin_exists table) r session passed s l (
              answer_inj (gate environ (admin_exists table) r session) (call_next passed)
                (rw (p, f) at h)) in
            (
              admin,
              (session, same, may, load_session-SignedCookie r.session_cookie now session f may.0),
            )
      ]
