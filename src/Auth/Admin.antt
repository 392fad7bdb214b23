-- ===== src/Auth/Admin.antt =====
-- src/msgate/auth/admin.py. The table `admin_users` is the list of its rows.
use msgate.Prelude.{
  Bool, true, false, ◌||◌, Option, none, some, List, [], ◌∷◌, Text, codes, text_eq, is_some,
  if◌then◌else◌,
}
use msgate.Prelude.Base64.{Bytes}
use msgate.Prelude.Ints.{Environ}
use msgate.Prelude.Results.{Result, ok, raise, ◌>>=◌}
use msgate.Prelude.Texts.{is_empty}
use msgate.Auth.Passwords.{PasswordLibrary, hash_password, verify_password}
pub mod Passwording

pub record AdminUserRow : Type 0 where
  pub username : Text
  pub password_hash : Text
  pub must_change_password : Bool

abbrev pub AdminTable : Type 0
AdminTable = List AdminUserRow

abbrev pub admin_username : Text
admin_username = codes "admin"

-- `session.get(AdminUserRow, key)`
unfoldable pub get_row : Text → AdminTable → Option AdminUserRow
get_row key [] = none
get_row key (r ∷ rs) = if text_eq key r.username then some r else get_row key rs

-- `session.merge(row)` and a commit.
unfoldable pub merge : AdminUserRow → AdminTable → AdminTable
merge row [] = row ∷ []
merge row (r ∷ rs) = if text_eq row.username r.username then row ∷ rs else r ∷ merge row rs

unfoldable pub get_admin : AdminTable → Option AdminUserRow
unfolding get_row
get_admin table = get_row admin_username table

unfoldable pub admin_exists : AdminTable → Bool
unfolding get_admin
admin_exists table = is_some (get_admin table)

module _ (lib : PasswordLibrary) where
  -- The salt is drawn by `hash_password`.
  unfoldable pub create_admin :
      Text → Bytes → Bool → AdminTable → Result (AdminUserRow × AdminTable)
  unfolding merge
  create_admin password salt must_change table = do
    hash ← hash_password lib password salt
    let row : AdminUserRow = record {
      username = admin_username;
      password_hash = hash;
      must_change_password = must_change;
    }
    ok (row, merge row table)

  unfoldable pub set_admin_password :
      Text → Bytes → Bool → AdminTable → Result (AdminUserRow × AdminTable)
  unfolding create_admin merge get_admin
  set_admin_password password salt must_change table = elim (get_admin table) [
    | none ↦ create_admin password salt must_change table
    | some row ↦ hash_password lib password salt >>= λ hash.
        let row' = record row { password_hash = hash; must_change_password = must_change } in
        ok (row', merge row' table)
  ]

  unfoldable pub check_admin_password : AdminTable → Text → Bool
  unfolding get_admin
  check_admin_password table password = elim (get_admin table) [
    | none ↦ false
    | some row ↦ verify_password lib password row.password_hash
  ]

  abbrev with_true : AdminUserRow × AdminTable → Bool × AdminTable
  with_true (row, table) = (true, table)

  unfoldable pub bootstrap_admin_from_env :
      Environ → Bytes → AdminTable → Result (Bool × AdminTable)
  unfolding create_admin admin_exists
  bootstrap_admin_from_env environ salt table = elim (environ (codes "MSGATE_ADMIN_PASSWORD")) [
    | none ↦ ok (false, table)
    | some password ↦
        if is_empty password || admin_exists table
        then ok (false, table)
        else create_admin password salt true table >>= λ created. ok (with_true created)
  ]
