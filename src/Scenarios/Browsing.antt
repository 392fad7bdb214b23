-- ===== src/Scenarios/Browsing.antt =====
-- An administrator with a cookie, a browser without one, and a gateway behind a proxy.
use msgate.Prelude.{
  ℕ, zero, suc, ◌+◌, ◌%◌, ◌<◌, ◌≡◌, ◌↔◌, ◌⊎◌, refl, ap, subst, true, false, not, none, some, List,
  [], ◌∷◌, Text, codes, text_eq, length, leb, ltb, if◌then◌else◌, arith,
}
use msgate.Prelude.Base64.{Bytes, IsBytes}
use msgate.Prelude.Ints.{Environ, show_ℕ, parse_int}
use msgate.Prelude.Maps.{lookup}
use msgate.Prelude.Results.{ok}
use msgate.Prelude.Urlsafe.{urlsafe_b64encode}
use msgate.Prelude.Texts.{is_empty}
use msgate.Http.{Request, join_root, cookie_path}
use msgate.Http.Paths.{Rooted, PathMatch, join_root-Covered}
use msgate.Auth.Passwords.{
  verify_parts, PasswordLibrary, hash_password, verify_password, min_len, hash_text, fromhex, hex,
  split,
}
use msgate.Auth.Passwords.Hashing.{own_digest, verify_password-hash_password}
use msgate.Auth.Admin.{
  get_row, AdminUserRow, AdminTable, admin_exists, set_admin_password, check_admin_password,
  get_admin, merge,
}
use msgate.Auth.Admin.Passwording.{Changed, set_admin_password-Changed}
use msgate.Auth.Session.{
  string, SessionData, encode_session, decode_session, exp_key, max_age, load_session,
}
use msgate.Auth.Session.Signing.{Signed, decode_session-encode_session, decode_session-Signed}
use msgate.Auth.Gate.{gate, call_next, dispatch, is_htmx, wants_html, logged_in, must_change}
use msgate.Auth.Gate.Entry.{MayEnter, SignedCookie, dispatch-SignedCookie}
use msgate.Auth.Gate.Redirects.{is_browser, lands, redirects_end}
use msgate.Auth.Routes.{Web, RouteLibrary, auth_change_password}
use msgate.Auth.Routes.Entering.{Call, setup, login, change, logout, calls, calls-LockedOut}
use msgate.Auth.Routes.Changing.{Succeeds, auth_change_password-Succeeds}
use msgate.Scenarios.Json.{json}

abbrev bare : Environ
bare = λ name. none

abbrev page : Text → Request
page path = record {
  path = path;
  forwarded_prefix = codes "/mail/";
  accept = codes "text/html";
  hx_request = [];
  session_cookie = none;
}

join_root-Covered_example :
    Rooted (join_root bare (some (page [])) (codes "ui"))
    × PathMatch (cookie_path bare (some (page []))) (join_root bare (some (page [])) (codes "ui"))
join_root-Covered_example = join_root-Covered bare (some (page [])) (codes "ui")

mounted : join_root bare (some (page [])) (codes "ui") ≡ codes "/mail/ui"
unfolding join_root
mounted = refl

abbrev admin_session : SessionData
admin_session = (codes "admin_user", string (codes "admin")) ∷ []

abbrev pub secret : Bytes
secret = 1 ∷ 2 ∷ 3 ∷ []

decode_session-encode_session_example :
    (d : SessionData) × (decode_session json
        (encode_session json admin_session secret 1000)
        secret
        2000
      ≡ ok (if ltb (1000 + max_age) 2000 then none else some d))
    × ((k : Text) → lookup k d ≡ (if text_eq k exp_key then none else lookup k admin_session))
decode_session-encode_session_example =
    decode_session-encode_session json admin_session secret 1000 2000

abbrev pub token : Text
token = encode_session json admin_session secret 1000

-- The session that is read from the token in its time.
pub session_read : SessionData
session_read = decode_session-encode_session_example.0

pub decoded : decode_session json token secret 2000 ≡ ok (some session_read)
unfolding session_read
decoded = decode_session-encode_session_example.1

pub read_name : lookup (codes "admin_user") session_read ≡ some (string (codes "admin"))
unfolding session_read
read_name = decode_session-encode_session_example.2 (codes "admin_user")

pub read_flag : lookup (codes "must_change_password") session_read ≡ none
unfolding session_read
read_flag = decode_session-encode_session_example.2 (codes "must_change_password")

decode_session-Signed_example : Signed json token secret 2000 session_read
decode_session-Signed_example = decode_session-Signed json token secret 2000 session_read decoded

abbrev inbox : Request
inbox = record (page (codes "/ui/messages")) { session_cookie = some token }

abbrev admins : AdminTable
admins =
    record { username = codes "admin"; password_hash = codes "-"; must_change_password = false }
    ∷ []

pub nonblank_token : is_empty token ≡ false
unfolding encode_session json urlsafe_b64encode
nonblank_token = refl

entered : dispatch bare json secret admins 2000 inbox ≡ ok (call_next (some session_read))
unfolding dispatch load_session logged_in must_change gate admin_exists get_admin get_row
entered = rw (nonblank_token, decoded, dispatch) (rw (read_name, gate) (rw read_flag refl))

dispatch-SignedCookie_example :
    (admin_exists admins ≡ true)
    × ((session : SessionData) × (some session_read ≡ some session)
        × MayEnter (codes "/ui/messages") session
        × SignedCookie json secret (some token) 2000 session)
dispatch-SignedCookie_example =
    dispatch-SignedCookie json secret bare admins 2000 inbox (some session_read) refl refl refl
      entered

accepts_html : is_browser (page (codes "/ui/setup")) ≡ true
unfolding is_htmx wants_html
accepts_html = refl

redirects_end_example : lands bare true admin_session 2 (page (codes "/ui/setup")) ≡ true
redirects_end_example =
    redirects_end bare admin_session true (page (codes "/ui/setup")) accepts_html

abbrev repeat : ℕ → ℕ → Bytes
repeat zero b = []
repeat (suc n) b = b ∷ repeat n b

repeat-digest : (n b : ℕ) → b < 256 → IsBytes (repeat n b) × (length (repeat n b) ≡ n)
repeat-digest zero b h = (tt, refl)
repeat-digest (suc n) b h = let (bytes, size) = repeat-digest n b h in ((h, bytes), ap suc size)

digest_inj : (a b : Bytes) → some a ≡ some b → a ≡ b
digest_inj a b e = cc

-- Stands in for scrypt: the length of the password.
abbrev passwords : PasswordLibrary
passwords = record {
  encode_utf8 = λ t. some t;
  scrypt = λ plain salt n r p dklen. some (repeat dklen (length plain % 256));
  scrypt-digest = λ plain salt n r p dklen digest e.
      subst (λ d. IsBytes d × (length d ≡ dklen))
        (digest_inj (repeat dklen (length plain % 256)) digest e)
        (repeat-digest dklen (length plain % 256) (omega arith));
}

abbrev salt : Bytes
salt = 5 ∷ 250 ∷ []

salt-IsBytes : IsBytes salt
salt-IsBytes = (omega arith, (omega arith, tt))

abbrev first_password : Text
first_password = codes "password"

abbrev new_password : Text
new_password = codes "correct horse"

abbrev hash_of : Text → Text
hash_of password = hash_text salt (repeat 32 (length password))

hashed : hash_password passwords first_password salt ≡ ok (hash_of first_password)
unfolding hash_password
hashed = refl

verify_password-hash_password_example :
    ((verify_password passwords first_password (hash_of first_password) ≡ true)
      ↔ (own_digest passwords first_password salt ≡ own_digest passwords first_password salt))
    × (leb min_len (length first_password) ≡ true)
verify_password-hash_password_example =
    verify_password-hash_password passwords first_password first_password salt
      (hash_of first_password) salt-IsBytes hashed

-- The administrator with the first password, who has to change it.
abbrev row : AdminUserRow
row = record {
  username = codes "admin";
  password_hash = hash_of first_password;
  must_change_password = true;
}

abbrev changed_row : AdminUserRow
changed_row = record row { password_hash = hash_of new_password; must_change_password = false }

changed :
    set_admin_password passwords new_password salt false (row ∷ [])
    ≡ ok (changed_row, changed_row ∷ [])
unfolding set_admin_password hash_password merge get_admin get_row
changed = refl

set_admin_password-Changed_example :
    Changed passwords new_password salt false (row ∷ []) (changed_row, changed_row ∷ [])
set_admin_password-Changed_example =
    set_admin_password-Changed passwords new_password salt false (row ∷ [])
      (changed_row, changed_row ∷ []) salt-IsBytes changed

abbrev routes : RouteLibrary
routes = record { passwords = passwords; quote = λ t. t; exception_text = λ e. codes "error" }

abbrev visitor : Web
visitor = record { table = row ∷ []; session = [] }

abbrev attempts : List Call
attempts =
    login (codes "guess")
    ∷ setup (codes "mine") (codes "mine") salt
    ∷ change (codes "guess") (codes "mine") (codes "mine") (codes "/") salt
    ∷ logout
    ∷ []

exists : admin_exists (row ∷ []) ≡ true
unfolding admin_exists get_admin get_row
exists = refl

stranger : logged_in [] ≡ false
unfolding logged_in
stranger = refl

guess_refused : check_admin_password passwords (row ∷ []) (codes "guess") ≡ false
unfolding check_admin_password get_admin get_row verify_password split verify_parts fromhex
    parse_int show_ℕ hex
guess_refused = refl

calls-LockedOut_example :
    ((calls bare routes inbox attempts visitor).table ≡ row ∷ [])
    × (logged_in (calls bare routes inbox attempts visitor).session ≡ false)
calls-LockedOut_example =
    calls-LockedOut bare routes inbox attempts visitor exists stranger
      (ap not guess_refused, (refl, (refl, (refl, tt))))

abbrev administrator : Web
administrator = record { table = row ∷ []; session = admin_session }

auth_change_password-Succeeds_example :
    ((auth_change_password bare routes inbox first_password new_password new_password
        (codes "/")
        salt
        administrator).1
      ≡ administrator)
    ⊎ Succeeds bare routes inbox first_password new_password new_password salt administrator
        (auth_change_password bare routes inbox first_password new_password new_password
          (codes "/")
          salt
          administrator).1
auth_change_password-Succeeds_example =
    auth_change_password-Succeeds bare routes inbox first_password new_password new_password
      (codes "/") salt administrator salt-IsBytes
