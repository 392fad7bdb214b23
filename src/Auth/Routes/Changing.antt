-- ===== src/Auth/Routes/Changing.antt =====
-- The change of the password by src/msgate/api/routes/auth_ui.py.
use msgate.Prelude.{
  true, false, ◌≡◌, ◌⊎◌, refl, ◌∙◌, Text, codes, text_eq, text_eq_iff, Bool-cases, inl, inr,
}
use msgate.Prelude.Base64.{Bytes, IsBytes}
use msgate.Prelude.Ints.{Environ}
use msgate.Prelude.Maps.{assign, lookup-assign}
use msgate.Prelude.Results.{Result-cases}
use msgate.Http.{Request}
use msgate.Auth.Admin.{AdminUserRow, check_admin_password, set_admin_password}
use msgate.Auth.Admin.Passwording.{Changed, set_admin_password-Changed}
use msgate.Auth.Session.{boolean}
use msgate.Auth.Gate.{logged_in, must_change}
use msgate.Auth.Routes.{Web, RouteLibrary, auth_change_password}

module _ (environ : Environ) (lib : RouteLibrary) (r : Request) where
  -- What a successful change rests on and what it leaves.
  abbrev pub Succeeds : Text → Text → Text → Bytes → Web → Web → Type 0
  Succeeds current password confirm salt w w' =
      (logged_in w.session ≡ true)
      × (password ≡ confirm)
      × (check_admin_password lib.passwords w.table current ≡ true)
      × ((row : AdminUserRow) × Changed lib.passwords password salt false w.table (row, w'.table))
      × (logged_in w'.session ≡ true)
      × (must_change w'.session ≡ false)

  unflagged :
      (w : Web)
      → (logged_in (assign (codes "must_change_password") (boolean false) w.session)
          ≡ logged_in w.session)
        × (must_change (assign (codes "must_change_password") (boolean false) w.session) ≡ false)
  unfolding logged_in must_change
  unflagged w =
      let key = codes "must_change_password" in
      (
        rw (lookup-assign (codes "admin_user") key (boolean false) w.session) refl,
        rw (lookup-assign key key (boolean false) w.session) refl,
      )

  -- With a salt of bytes, the route either changes nothing, or the browser is logged in, gives the new
  -- password twice and the current one correctly; then the table holds the new password, the other
  -- users' rows are as before, and the session stays logged in and need not change it any more.
  pub auth_change_password-Succeeds :
      (current password confirm next : Text) (salt : Bytes) (w : Web)
      → IsBytes salt
      → ((auth_change_password environ lib r current password confirm next salt w).1 ≡ w)
        ⊎ Succeeds current password confirm salt w
            (auth_change_password environ lib r current password confirm next salt w).1
  unfolding auth_change_password
  auth_change_password-Succeeds current password confirm next salt w hs =
      elim (Bool-cases (logged_in w.session)) [
        | inr l ↦ inl (rw l refl)
        | inl l ↦ elim (Bool-cases (text_eq password confirm)) [
          | inr e ↦ inl (rw (l, e) refl)
          | inl e ↦ elim (Bool-cases (check_admin_password lib.passwords w.table current)) [
            | inr c ↦ inl (rw (l, e) (rw c refl))
            | inl c ↦
                elim (Result-cases (set_admin_password lib.passwords password salt false w.table)) [
                  | inr (x, s) ↦ inl (rw (l, e) (rw (c, s) refl))
                  | inl ((row, table), s) ↦ inr (
                      rw (l, e)
                        (rw (c, s)
                          (
                            refl,
                            (text_eq_iff password confirm).0 e,
                            refl,
                            (
                              row,
                              set_admin_password-Changed lib.passwords password salt false w.table
                                  (row, table) hs s,
                            ),
                            (unflagged w).0 ∙ l,
                            (unflagged w).1,
                          )))
                ]
          ]
        ]
      ]
