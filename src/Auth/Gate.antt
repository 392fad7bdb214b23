-- ===== src/Auth/Gate.antt =====
-- src/msgate/auth/web_middleware.py: the gate before the web routes, and the cookie that goes back.
-- The first part of a request's URL, its path, is what the gateway sees behind the proxy. Of a
-- response the model has the status and the headers and body that the gate sets.
use msgate.Prelude.{
  ℕ, ◌==◌, Bool, true, false, not, ◌&&◌, ◌||◌, Option, none, some, List, [], ◌∷◌, ◌++◌, Text, codes,
  text_eq, any, if◌then◌else◌,
}
use msgate.Prelude.Base64.{Bytes}
use msgate.Prelude.Ints.{ℤ, pos, negsuc, Environ}
use msgate.Prelude.Maps.{lookup}
use msgate.Prelude.Results.{Result, ok, raise, ◌>>=◌}
use msgate.Prelude.Texts.{is_empty, starts_with, contains, lower}
use msgate.Http.{Request, join_root, cookie_path}
use msgate.Auth.Admin.{AdminTable, admin_username, admin_exists}
use msgate.Auth.Session.{
  Json, null, boolean, integer, float, string, compound, SessionData, SessionLibrary, max_age,
  encode_session, load_session,
}
pub mod Entry
pub mod Redirects

abbrev pub one_of : List Text → Text → Bool
one_of texts t = any (text_eq t) texts

abbrev pub public_paths : List Text
public_paths = codes "/healthz" ∷ codes "/readyz" ∷ codes "/metrics" ∷ []

abbrev pub docs_paths : List Text
docs_paths = codes "/docs" ∷ codes "/redoc" ∷ codes "/openapi.json" ∷ []

abbrev pub setup_path : Text
setup_path = codes "/ui/setup"

abbrev pub login_path : Text
login_path = codes "/ui/login"

abbrev pub change_path : Text
change_path = codes "/ui/change-password"

unfoldable pub wants_html : Request → Bool
wants_html r =
    let accepts = λ (t : Text). contains t r.accept in
    if starts_with (codes "/api/") r.path
      || (accepts (codes "application/json") && not (accepts (codes "text/html")))
    then false
    else accepts (codes "text/html") || accepts (codes "*/*") || is_empty r.accept

unfoldable pub is_htmx : Request → Bool
is_htmx r = text_eq (lower r.hx_request) (codes "true")

pub data Response : Type 0 where
  -- A redirect with status 303 and Cache-Control: no-store, to the URL of a path.
  redirect : Text → Text → Response
  -- The header HX-Redirect with a status and Cache-Control: no-store.
  htmx_redirect : Text → Text → ℕ → Response
  json_detail : Text → ℕ → Response

-- What the gate does: it calls the rest of the application, with the session that it stores in the
-- request, or responds itself.
pub data GateAnswer : Type 0 where
  call_next : Option SessionData → GateAnswer
  respond : Response → GateAnswer

-- `bool(value)`
abbrev pub json_truthy : Json → Bool
json_truthy null = false
json_truthy (boolean b) = b
json_truthy (integer (pos n)) = not (n == 0)
json_truthy (integer (negsuc n)) = true
json_truthy (float n is_zero) = not is_zero
json_truthy (string s) = not (is_empty s)
json_truthy (compound is_blank) = not is_blank

-- `session_data.get("admin_user") == ADMIN_USERNAME`
abbrev pub is_admin_name : Option Json → Bool
is_admin_name (some (string s)) = text_eq s admin_username
is_admin_name _ = false

abbrev pub is_truthy : Option Json → Bool
is_truthy none = false
is_truthy (some v) = json_truthy v

unfoldable pub logged_in : SessionData → Bool
logged_in session = is_admin_name (lookup (codes "admin_user") session)

unfoldable pub must_change : SessionData → Bool
must_change session = is_truthy (lookup (codes "must_change_password") session)

abbrev pub is_setup : Text → Bool
is_setup path = text_eq path setup_path || starts_with (codes "/ui/auth/setup") path

abbrev pub is_login : Text → Bool
is_login path = text_eq path login_path || starts_with (codes "/ui/auth/login") path

abbrev pub change_paths : List Text
change_paths = change_path ∷ codes "/ui/auth/change-password" ∷ codes "/ui/auth/logout" ∷ []

module _ (environ : Environ) where
  -- `_unauthorized`, `_forbidden_change` and `_need_setup` differ in the page, the status and the text.
  unfoldable pub send_to : Request → Text → ℕ → Text → Response
  unfolding is_htmx wants_html
  send_to r path status detail =
      if is_htmx r
      then htmx_redirect path (join_root environ (some r) path) status
      else if wants_html r
      then redirect path (join_root environ (some r) path)
      else json_detail detail status

  abbrev pub unauthorized : Request → Response
  unauthorized r = send_to r login_path 401 (codes "Not authenticated")

  abbrev pub forbidden_change : Request → Response
  forbidden_change r = send_to r change_path 403 (codes "Password change required")

  abbrev pub need_setup : Request → Response
  need_setup r = send_to r setup_path 401 (codes "Admin setup required")

  -- The gate once the session is read.
  unfoldable pub gate : Bool → Request → SessionData → GateAnswer
  unfolding logged_in must_change
  gate false r session = if is_setup r.path then call_next none else respond (need_setup r)
  gate true r session =
      if is_setup r.path
      then respond (redirect login_path (join_root environ (some r) login_path))
      else if not (logged_in session)
      then (if is_login r.path then call_next none else respond (unauthorized r))
      else if one_of docs_paths r.path
      then call_next (some session)
      else if must_change session && not (one_of change_paths r.path)
      then respond (forbidden_change r)
      else call_next (some session)

  module _ (lib : SessionLibrary) (key : Bytes) where
    -- `AuthMiddleware.dispatch` up to the rest of the application.
    unfoldable pub dispatch : AdminTable → ℕ → Request → Result GateAnswer
    unfolding gate load_session admin_exists
    dispatch table now r =
        if one_of public_paths r.path
        then ok (call_next none)
        else elim (load_session lib r.session_cookie key now) [
          | raise e ↦ raise e
          | ok session ↦ ok (gate (admin_exists table) r session)
        ]
