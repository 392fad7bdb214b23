-- ===== src/Auth/Admin/Passwording.antt =====
-- Changes of the password of the administrator: src/msgate/auth/admin.py.
use msgate.Prelude.{
  ◌≡◌, refl, ◌↔◌, Bool, true, false, some, [], ◌∷◌, Text, text_eq, text_eq_refl, text_eq_iff, subst,
  sym, ap, ◌∙◌, leb, length, if◌then◌else◌, Bool-cases, Option-cases, inl, inr,
}
use msgate.Prelude.Base64.{Bytes, IsBytes}
use msgate.Prelude.Results.{ok, raise, Result-cases}
use msgate.Auth.Passwords.{PasswordLibrary, hash_password, min_len}
use msgate.Auth.Passwords.Hashing.{own_digest, verify_password-hash_password}
use msgate.Auth.Admin.{
  AdminUserRow, AdminTable, admin_username, get_row, merge, get_admin, create_admin,
  set_admin_password, check_admin_password,
}

get_row-merge :
    (row : AdminUserRow) (table : AdminTable) → get_row row.username (merge row table) ≡ some row
unfolding get_row merge
get_row-merge row [] = rw (text_eq_refl row.username) refl
get_row-merge row (r ∷ rs) = elim (Bool-cases (text_eq row.username r.username)) [
  | inl e ↦ rw e (rw (text_eq_refl row.username) refl)
  | inr e ↦ rw e (rw e (get_row-merge row rs))
]

-- Other users keep their rows.
get_row-merge_other :
    (key : Text) (row : AdminUserRow) (table : AdminTable)
    → text_eq key row.username ≡ false
    → get_row key (merge row table) ≡ get_row key table
unfolding get_row merge
get_row-merge_other key row [] n = rw n refl
get_row-merge_other key row (r ∷ rs) n = elim (Bool-cases (text_eq row.username r.username)) [
  | inl e ↦
      let other : text_eq key r.username ≡ false =
        subst (λ u. text_eq key u ≡ false) ((text_eq_iff row.username r.username).0 e) n in
      rw (e, other) (rw n refl)
  | inr e ↦ rw e (elim (Bool-cases (text_eq key r.username)) [
    | inl f ↦ rw f refl
    | inr f ↦ rw f (get_row-merge_other key row rs n)
  ])
]

some_injective : (a b : AdminUserRow) → some a ≡ some b → a ≡ b
some_injective a b e = cc

get_row-username :
    (key : Text) (table : AdminTable) (row : AdminUserRow)
    → get_row key table ≡ some row
    → key ≡ row.username
unfolding get_row
get_row-username key [] row h = absurd (cc)
get_row-username key (r ∷ rs) row h = elim (Bool-cases (text_eq key r.username)) [
  | inl e ↦
      (text_eq_iff key r.username).0 e ∙ ap (λ u. u.username) (some_injective r row (rw e at h))
  | inr e ↦ get_row-username key rs row (rw e at h)
]

get_row-admin :
    (table : AdminTable) (row : AdminUserRow)
    → get_admin table ≡ some row
    → row.username ≡ admin_username
unfolding get_admin
get_row-admin table row h = sym (get_row-username admin_username table row h)

ok_injective : (a b : AdminUserRow × AdminTable) → ok a ≡ ok b → a ≡ b
ok_injective a b e = ap (λ r. elim r [ ok x ↦ x | raise y ↦ a ]) e

module _ (lib : PasswordLibrary) where
  -- The table after a change of the password: the administrator's row carries the flag and accepts the
  -- password, and the other rows are as before.
  abbrev pub Changed : Text → Bytes → Bool → AdminTable → AdminUserRow × AdminTable → Type 0
  Changed password salt must_change table (row, table') =
      (get_admin table' ≡ some row)
      × (row.must_change_password ≡ must_change)
      × (leb min_len (length password) ≡ true)
      × ((other : Text)
          → (check_admin_password lib table' other ≡ true)
            ↔ (own_digest lib other salt ≡ own_digest lib password salt))
      × ((key : Text)
          → get_row key table'
            ≡ (if text_eq key admin_username then some row else get_row key table))

  stored_row :
      (password hash : Text) (salt : Bytes) (table : AdminTable) (row : AdminUserRow)
      → IsBytes salt
      → hash_password lib password salt ≡ ok hash
      → row.username ≡ admin_username
      → row.password_hash ≡ hash
      → Changed password salt row.must_change_password table (row, merge row table)
  unfolding get_admin check_admin_password
  stored_row password hash salt table row hs hashed name kept =
      let found : get_row admin_username (merge row table) ≡ some row =
        subst (λ u. get_row u (merge row table) ≡ some row) name (get_row-merge row table) in
      let verified =
        λ (other : Text). verify_password-hash_password lib password other salt hash hs hashed in
      (
        found,
        refl,
        (verified password).1,
        λ other. rw (found, check_admin_password) (rw kept (verified other).0),
        λ key. elim (Bool-cases (text_eq key admin_username)) [
          | inl e ↦ rw e (
              subst (λ k. get_row k (merge row table) ≡ some row)
                (sym ((text_eq_iff key admin_username).0 e)) found)
          | inr e ↦ rw e (get_row-merge_other key row table (rw name e))
        ],
      )

  create_admin-Changed :
      (password : Text) (salt : Bytes) (must_change : Bool) (table : AdminTable)
      (result : AdminUserRow × AdminTable)
      → IsBytes salt
      → create_admin lib password salt must_change table ≡ ok result
      → Changed password salt must_change table result
  unfolding create_admin
  create_admin-Changed password salt must_change table result hs h =
      elim (Result-cases (hash_password lib password salt)) [
        | inl (hash, e) ↦
            let row : AdminUserRow = record {
              username = admin_username;
              password_hash = hash;
              must_change_password = must_change;
            } in
            subst (Changed password salt must_change table)
              (ok_injective (row, merge row table) result (rw e at h))
              (stored_row password hash salt table row hs e refl refl)
        | inr (x, e) ↦ absurd (let k = rw e at h in cc)
      ]

  -- If the password is set with a salt of bytes, then the administrator's row is the one returned, it
  -- carries the flag, exactly those passwords log in that have the same digest as the new one under
  -- the salt, the new one has at least 8 characters, and every other user's row is as before.
  pub set_admin_password-Changed :
      (password : Text) (salt : Bytes) (must_change : Bool) (table : AdminTable)
      (result : AdminUserRow × AdminTable)
      → IsBytes salt
      → set_admin_password lib password salt must_change table ≡ ok result
      → Changed password salt must_change table result
  unfolding set_admin_password
  set_admin_password-Changed password salt must_change table result hs h =
      elim (Option-cases (get_admin table)) [
        | inl g ↦
            create_admin-Changed password salt must_change table result hs
              (rw (g, set_admin_password) at h)
        | inr (old, g) ↦ elim (Result-cases (hash_password lib password salt)) [
          | inl (hash, e) ↦
              let row : AdminUserRow = record old {
                password_hash = hash;
                must_change_password = must_change;
              } in
              subst (Changed password salt must_change table)
                (ok_injective (row, merge row table) result
                  (let k = rw (g, set_admin_password) at h in rw e at k))
                (stored_row password hash salt table row hs e (get_row-admin table old g) refl)
          | inr (x, e) ↦ absurd (let k = rw (g, set_admin_password) at h in let l = rw e at k in cc)
        ]
      ]
