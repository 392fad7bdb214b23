-- ===== src/Auth/Routes/Entering.antt =====
-- Who becomes the administrator by the routes of src/msgate/api/routes/auth_ui.py.
use msgate.Prelude.{
  Bool, true, false, not, List, [], ◌∷◌, ◌≡◌, refl, subst, sym, ◌∙◌, Text, text_eq, All, Bool-cases,
  inl, inr,
}
use msgate.Prelude.Base64.{Bytes}
use msgate.Prelude.Ints.{Environ}
use msgate.Http.{Request}
use msgate.Auth.Admin.{AdminTable, admin_exists, check_admin_password}
use msgate.Auth.Gate.{logged_in}
use msgate.Auth.Routes.{
  Web, RouteLibrary, auth_setup, auth_login, auth_change_password, auth_logout,
}

-- A call of one of the routes that change something, with its form and the salt that it draws.
pub data Call : Type 0 where
  setup : Text → Text → Bytes → Call
  login : Text → Call
  change : Text → Text → Text → Text → Bytes → Call
  logout : Call

module _ (environ : Environ) (lib : RouteLibrary) (r : Request) where
  unfoldable pub call : Call → Web → Web
  unfolding auth_setup auth_login auth_change_password auth_logout
  call (setup password confirm salt) w = (auth_setup environ lib r password confirm salt w).1
  call (login password) w = (auth_login environ lib r password w).1
  call (change current password confirm next salt) w =
      (auth_change_password environ lib r current password confirm next salt w).1
  call logout w = (auth_logout environ lib r w).1

  unfoldable pub calls : List Call → Web → Web
  unfolding call
  calls [] w = w
  calls (c ∷ cs) w = calls cs (call c w)

  -- A login is refused by the table.
  abbrev pub refused : AdminTable → Call → Bool
  refused table (login password) = not (check_admin_password lib.passwords table password)
  refused table _ = true

  abbrev LockedOut : AdminTable → Web → Type 0
  LockedOut table w = (w.table ≡ table) × (logged_in w.session ≡ false)

  setup_again :
      (password confirm : Text) (salt : Bytes) (w : Web)
      → admin_exists w.table ≡ true
      → (auth_setup environ lib r password confirm salt w).1 ≡ w
  unfolding auth_setup
  setup_again password confirm salt w a = elim (Bool-cases (text_eq password confirm)) [
    | inl e ↦ rw (e, auth_setup) (rw a refl)
    | inr e ↦ rw (e, auth_setup) refl
  ]

  login_refused :
      (password : Text) (w : Web)
      → admin_exists w.table ≡ true
      → refused w.table (login password) ≡ true
      → (auth_login environ lib r password w).1 ≡ w
  unfolding auth_login
  login_refused password w a f =
      elim (Bool-cases (check_admin_password lib.passwords w.table password)) [
        | inl e ↦ absurd (let k = rw e at f in cc)
        | inr e ↦ rw (a, auth_login) (rw e refl)
      ]

  change_stranger :
      (current password confirm next : Text) (salt : Bytes) (w : Web)
      → logged_in w.session ≡ false
      → (auth_change_password environ lib r current password confirm next salt w).1 ≡ w
  unfolding auth_change_password
  change_stranger current password confirm next salt w l = rw (l, auth_change_password) refl

  call-LockedOut :
      (c : Call) (w : Web)
      → admin_exists w.table ≡ true
      → logged_in w.session ≡ false
      → refused w.table c ≡ true
      → LockedOut w.table (call c w)
  unfolding call auth_logout logged_in
  call-LockedOut (setup password confirm salt) w a l f =
      subst (LockedOut w.table) (sym (setup_again password confirm salt w a)) (refl, l)
  call-LockedOut (login password) w a l f =
      subst (LockedOut w.table) (sym (login_refused password w a f)) (refl, l)
  call-LockedOut (change current password confirm next salt) w a l f =
      subst (LockedOut w.table) (sym (change_stranger current password confirm next salt w l))
        (refl, l)
  call-LockedOut logout w a l f = (refl, refl)

  calls-from :
      (cs : List Call) (w : Web) (table : AdminTable)
      → admin_exists table ≡ true
      → LockedOut table w
      → All (λ c. refused table c ≡ true) cs
      → LockedOut table (calls cs w)
  unfolding calls
  calls-from [] w table a h f = h
  calls-from (c ∷ cs) w table a (same, l) (f, fs) =
      let (same', l') = call-LockedOut c w (rw same a) l (rw same f) in
      calls-from cs (call c w) table a (same' ∙ same, l') fs

  -- Once an administrator exists, a browser that is not logged in and whose logins the table refuses
  -- stays so and leaves the table as it is, whatever calls of setup, login, change of the password and
  -- logout it makes in whatever order.
  pub calls-LockedOut :
      (cs : List Call) (w : Web)
      → admin_exists w.table ≡ true
      → logged_in w.session ≡ false
      → All (λ c. refused w.table c ≡ true) cs
      → ((calls cs w).table ≡ w.table) × (logged_in (calls cs w).session ≡ false)
  calls-LockedOut cs w a l f = calls-from cs w w.table a (refl, l) f
