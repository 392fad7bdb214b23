-- ===== src/Auth/Routes.antt =====
-- src/msgate/api/routes/auth_ui.py: setup, login, change of the password, and logout. A route takes
-- the table and the request's session and gives them back with its page. Of a page the model has the
-- redirect's target, or the template's name, its error and the status. `quote` of urllib and the
-- texts of exceptions are parameters; the salt of a new hash is an argument.
use msgate.Prelude.{
  ℕ, Bool, true, false, not, ◌&&◌, ◌||◌, Option, none, some, [], ◌++◌, Text, codes, text_eq,
  if◌then◌else◌,
}
use msgate.Prelude.Base64.{Bytes}
use msgate.Prelude.Ints.{Environ}
use msgate.Prelude.Maps.{assign}
use msgate.Prelude.Results.{Exception, ok, raise}
use msgate.Prelude.Texts.{starts_with, is_empty}
use msgate.Http.{Request, join_root}
use msgate.Auth.Passwords.{PasswordLibrary}
use msgate.Auth.Admin.{
  AdminUserRow, AdminTable, admin_username, get_admin, admin_exists, create_admin,
  set_admin_password, check_admin_password,
}
use msgate.Auth.Session.{Json, boolean, string, SessionData}
use msgate.Auth.Gate.{login_path, setup_path, change_path, logged_in, must_change}
pub mod Entering
pub mod Changing

pub data Page : Type 0 where
  redirected : Text → Page
  template : Text → Option Text → ℕ → Page

pub record Web : Type 0 where
  pub table : AdminTable
  pub session : SessionData

pub record RouteLibrary : Type 0 where
  pub passwords : PasswordLibrary
  pub quote : Text → Text
  pub exception_text : Exception → Text

-- `_login_session`
unfoldable pub login_session : Bool → SessionData → SessionData
login_session changes session =
    assign (codes "must_change_password") (boolean changes)
      (assign (codes "admin_user") (string admin_username) session)

module _ (environ : Environ) (lib : RouteLibrary) (r : Request) where
  unfoldable pub redirect_page : Text → Page
  redirect_page path = redirected (join_root environ (some r) path)

  unfoldable pub ui_setup : Web → Page
  unfolding redirect_page
  ui_setup w =
      if admin_exists w.table
      then redirect_page login_path
      else template (codes "auth/setup.html") none 200

  abbrev pub setup_error : Text → Page
  setup_error error = template (codes "auth/setup.html") (some error) 400

  unfoldable pub auth_setup : Text → Text → Bytes → Web → Page × Web
  unfolding redirect_page login_session create_admin admin_exists
  auth_setup password password_confirm salt w =
      if not (text_eq password password_confirm)
      then (setup_error (codes "Passwords do not match"), w)
      else if admin_exists w.table
      then (redirect_page login_path, w)
      else elim (create_admin lib.passwords password salt false w.table) [
        | raise e ↦ (setup_error (lib.exception_text e), w)
        | ok (row, table) ↦ (
          redirect_page (codes "/"),
          record { table = table; session = login_session false w.session },
        )
      ]

  unfoldable pub ui_login : Web → Page
  unfolding redirect_page
  ui_login w =
      if not (admin_exists w.table)
      then redirect_page setup_path
      else if logged_in w.session
      then redirect_page (if must_change w.session then change_path else codes "/")
      else template (codes "auth/login.html") none 200

  abbrev pub flag_of : Option AdminUserRow → Bool
  flag_of none = false
  flag_of (some row) = row.must_change_password

  unfoldable pub auth_login : Text → Web → Page × Web
  unfolding redirect_page login_session check_admin_password admin_exists get_admin
  auth_login password w =
      if not (admin_exists w.table)
      then (redirect_page setup_path, w)
      else if not (check_admin_password lib.passwords w.table password)
      then (template (codes "auth/login.html") (some (codes "Invalid password")) 401, w)
      else (
        redirect_page (if flag_of (get_admin w.table) then change_path else codes "/"),
        record w { session = login_session (flag_of (get_admin w.table)) w.session },
      )

  unfoldable pub ui_change_password : Web → Page
  unfolding redirect_page
  ui_change_password w =
      if not (logged_in w.session)
      then redirect_page login_path
      else template (codes "auth/change_password.html") none 200

  abbrev pub next_url : Text → Text
  next_url next =
      if starts_with (codes "/ui/") next || text_eq next (codes "/") then next else codes "/"

  abbrev pub to_account : Text → Bool
  to_account next = starts_with (codes "/ui/account") (next_url next)

  -- `_fail`
  unfoldable pub change_error : Text → Text → ℕ → Page
  unfolding redirect_page
  change_error next msg status =
      if to_account next
      then redirect_page (codes "/ui/account?error=" ++ lib.quote msg)
      else template (codes "auth/change_password.html") (some msg) status

  unfoldable pub auth_change_password : Text → Text → Text → Text → Bytes → Web → Page × Web
  unfolding redirect_page change_error set_admin_password check_admin_password logged_in
  auth_change_password current_password password password_confirm next salt w =
      if not (logged_in w.session)
      then (redirect_page login_path, w)
      else if not (text_eq password password_confirm)
      then (change_error next (codes "New passwords do not match") 400, w)
      else if not (check_admin_password lib.passwords w.table current_password)
      then (change_error next (codes "Current password is incorrect") 401, w)
      else elim (set_admin_password lib.passwords password salt false w.table) [
        | raise e ↦ (change_error next (lib.exception_text e) 400, w)
        | ok (row, table) ↦ (
          redirect_page (if to_account next then codes "/ui/account?ok=1" else next_url next),
          record {
            table = table;
            session = assign (codes "must_change_password") (boolean false) w.session;
          },
        )
      ]

  -- The cookie is deleted as well.
  unfoldable pub auth_logout : Web → Page × Web
  unfolding redirect_page
  auth_logout w = (redirect_page login_path, record w { session = [] })
