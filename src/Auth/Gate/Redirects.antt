-- ===== src/Auth/Gate/Redirects.antt =====
-- Where the redirects of src/msgate/auth/web_middleware.py lead a browser.
use msgate.Prelude.{
  ℕ, zero, suc, Bool, true, false, not, ◌&&◌, ◌||◌, Option, none, some, [], ◌≡◌, refl, Text, codes,
  Bool-cases, inl, inr,
}
use msgate.Prelude.Ints.{Environ}
use msgate.Prelude.Texts.{starts_with}
use msgate.Http.{Request, join_root}
use msgate.Auth.Session.{SessionData}
use msgate.Auth.Gate.{
  one_of, docs_paths, wants_html, is_htmx, Response, redirect, htmx_redirect, json_detail,
  call_next, respond, logged_in, must_change, is_setup, is_login, change_paths, setup_path,
  login_path, change_path, send_to, gate, forbidden_change, unauthorized, need_setup,
}

-- The request that a browser makes next: a redirect is followed with the same headers, HX-Redirect
-- opens the page anew.
abbrev pub next_request : Request → Response → Option Request
next_request r (redirect path url) = some (record r { path = path })
next_request r (htmx_redirect path url status) =
    some (record r { path = path; hx_request = []; accept = codes "text/html" })
next_request r (json_detail detail status) = none

module _ (environ : Environ) (has_admin : Bool) (session : SessionData) where
  -- Whether a browser that follows at most n redirects gets past the gate.
  unfoldable pub lands : ℕ → Request → Bool
  unfolding gate
  lands zero r = elim (gate environ has_admin r session) [ call_next s ↦ true | respond x ↦ false ]
  lands (suc n) r = elim (gate environ has_admin r session) [
    | call_next s ↦ true
    | respond x ↦ elim (next_request r x) [ none ↦ false | some r' ↦ lands n r' ]
  ]

-- A browser: HTMX, or a client that accepts HTML.
abbrev pub is_browser : Request → Bool
is_browser r = is_htmx r || wants_html r

next-send_to :
    (environ : Environ) (r : Request) (path : Text) (status : ℕ) (detail : Text)
    → is_browser r ≡ true
    → (r' : Request) × (next_request r (send_to environ r path status detail) ≡ some r')
      × (r'.path ≡ path)
unfolding send_to
next-send_to environ r path status detail b = elim (Bool-cases (is_htmx r)) [
  | inl e ↦ (record r { path = path; hx_request = []; accept = codes "text/html" }, rw e refl, refl)
  | inr e ↦ elim (Bool-cases (wants_html r)) [
    | inl w ↦ (record r { path = path }, rw (e, w) refl, refl)
    | inr w ↦ absurd (let k = rw (e, w) at b in cc)
  ]
]

wants_html-login :
    (r : Request) → wants_html r ≡ true → wants_html (record r { path = login_path }) ≡ true
unfolding wants_html
wants_html-login r h = elim (Bool-cases (starts_with (codes "/api/") r.path)) [
  | inl e ↦ absurd (let k = rw e at h in cc)
  | inr e ↦ rw e at h
]

is_browser-login :
    (r : Request) → is_browser r ≡ true → is_browser (record r { path = login_path }) ≡ true
unfolding is_htmx
is_browser-login r b = elim (Bool-cases (is_htmx r)) [
  | inl e ↦ rw e refl
  | inr e ↦ rw (e, wants_html-login r (rw e at b)) refl
]

module _ (environ : Environ) (session : SessionData) where
  lands_through :
      (has_admin : Bool) (n : ℕ) (r : Request) (passed : Option SessionData)
      → gate environ has_admin r session ≡ call_next passed
      → lands environ has_admin session n r ≡ true
  unfolding lands
  lands_through has_admin zero r passed e = rw (e, lands) refl
  lands_through has_admin (suc n) r passed e = rw (e, lands) refl

  lands_after :
      (has_admin : Bool) (n : ℕ) (r r' : Request) (x : Response)
      → gate environ has_admin r session ≡ respond x
      → next_request r x ≡ some r'
      → lands environ has_admin session n r' ≡ true
      → lands environ has_admin session (suc n) r ≡ true
  unfolding lands
  lands_after has_admin n r r' x e f h = rw (e, lands) (rw f h)

  lands_setup : (n : ℕ) (r : Request) → r.path ≡ setup_path → lands environ false session n r ≡ true
  unfolding gate
  lands_setup n r e = lands_through false n r none (rw (e, gate) refl)

  gate_change :
      (r : Request)
      → r.path ≡ change_path
      → logged_in session ≡ true
      → gate environ true r session ≡ call_next (some session)
  unfolding gate
  gate_change r e l = elim (Bool-cases (must_change session)) [
    | inl m ↦ rw (e, gate) (rw (l, m) refl)
    | inr m ↦ rw (e, gate) (rw (l, m) refl)
  ]

  -- From the page of the login.
  lands_login :
      (n : ℕ) (r : Request)
      → r.path ≡ login_path
      → is_browser r ≡ true
      → lands environ true session (suc n) r ≡ true
  unfolding gate
  lands_login n r e b = elim (Bool-cases (logged_in session)) [
    | inr l ↦ lands_through true (suc n) r none (rw (e, gate) (rw l refl))
    | inl l ↦ elim (Bool-cases (must_change session)) [
      | inr m ↦ lands_through true (suc n) r (some session) (rw (e, gate) (rw (l, m) refl))
      | inl m ↦
          let (r', f, at) =
            next-send_to environ r change_path 403 (codes "Password change required") b in
          lands_after true n r r' (forbidden_change environ r) (rw (e, gate) (rw (l, m) refl)) f
            (lands_through true n r' (some session) (gate_change r' at l))
    ]
  ]

  lands_from_setup :
      (r : Request)
      → is_setup r.path ≡ true
      → is_browser r ≡ true
      → lands environ true session 2 r ≡ true
  unfolding gate
  lands_from_setup r s b =
      let r' : Request = record r { path = login_path } in
      lands_after true 1 r r' (redirect login_path (join_root environ (some r) login_path))
        (rw (s, gate) refl) refl (lands_login 0 r' refl (is_browser-login r b))

  lands_stranger :
      (r : Request)
      → is_setup r.path ≡ false
      → logged_in session ≡ false
      → is_browser r ≡ true
      → lands environ true session 2 r ≡ true
  unfolding gate
  lands_stranger r s l b = elim (Bool-cases (is_login r.path)) [
    | inl p ↦ lands_through true 2 r none (rw (s, gate) (rw (l, p) refl))
    | inr p ↦
        let (r', f, at) = next-send_to environ r login_path 401 (codes "Not authenticated") b in
        lands_after true 1 r r' (unauthorized environ r) (rw (s, gate) (rw (l, p) refl)) f
          (lands_through true 1 r' none (rw (at, gate) (rw l refl)))
  ]

  lands_admin :
      (r : Request)
      → is_setup r.path ≡ false
      → logged_in session ≡ true
      → is_browser r ≡ true
      → lands environ true session 2 r ≡ true
  unfolding gate
  lands_admin r s l b = elim (Bool-cases (one_of docs_paths r.path)) [
    | inl d ↦ lands_through true 2 r (some session) (rw (s, gate) (rw (l, d) refl))
    | inr d ↦ elim (Bool-cases (must_change session && not (one_of change_paths r.path))) [
      | inr m ↦ lands_through true 2 r (some session) (rw (s, gate) (rw (l, d) (rw m refl)))
      | inl m ↦
          let (r', f, at) =
            next-send_to environ r change_path 403 (codes "Password change required") b in
          lands_after true 1 r r' (forbidden_change environ r)
            (rw (s, gate) (rw (l, d) (rw m refl))) f
            (lands_through true 1 r' (some session) (gate_change r' at l))
    ]
  ]

  -- Whatever a browser asks for, whether an administrator exists and whatever its session holds, it
  -- gets past the gate after at most two redirects: they do not go round in circles. A browser is a
  -- client of HTMX or one that accepts HTML for the path.
  pub redirects_end :
      (has_admin : Bool) (r : Request)
      → is_browser r ≡ true
      → lands environ has_admin session 2 r ≡ true
  unfolding gate
  redirects_end false r b = elim (Bool-cases (is_setup r.path)) [
    | inl s ↦ lands_through false 2 r none (rw (s, gate) refl)
    | inr s ↦
        let (r', f, at) = next-send_to environ r setup_path 401 (codes "Admin setup required") b in
        lands_after false 1 r r' (need_setup environ r) (rw (s, gate) refl) f (lands_setup 1 r' at)
  ]
  redirects_end true r b = elim (Bool-cases (is_setup r.path)) [
    | inl s ↦ lands_from_setup r s b
    | inr s ↦ elim (Bool-cases (logged_in session)) [
      | inl l ↦ lands_admin r s l b
      | inr l ↦ lands_stranger r s l b
    ]
  ]
