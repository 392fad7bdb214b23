-- ===== src/Http.antt =====
-- src/msgate/http/root_path.py: the prefix of the paths of a gateway behind a proxy, and what the web
-- modules read of a starlette request. A header that is missing is the text of its default.
use msgate.Prelude.{
  ℕ, Bool, true, false, ◌||◌, Option, none, some, [], ◌∷◌, ◌++◌, Text, codes, text_eq, ◌==◌,
  if◌then◌else◌,
}
use msgate.Prelude.Ints.{Environ, get_env}
use msgate.Prelude.Texts.{is_empty, starts_with, drop_tail, strip}
pub mod Paths

pub record Request : Type 0 where
  pub path : Text
  pub forwarded_prefix : Text
  pub accept : Text
  pub hx_request : Text
  pub session_cookie : Option Text

abbrev pub is_slash : ℕ → Bool
is_slash c = c == b'/'

-- `p.rstrip("/")`
abbrev pub rstrip_slash : Text → Text
rstrip_slash = drop_tail is_slash

unfoldable pub normalize : Text → Text
unfolding strip
normalize prefix =
    let p = strip prefix in
    if is_empty p || text_eq p (codes "/")
    then []
    else if starts_with (codes "/") p
    then rstrip_slash p
    else rstrip_slash (codes "/" ++ p)

unfoldable pub configured_root_path : Environ → Text
unfolding normalize
configured_root_path environ = normalize (get_env environ (codes "MSGATE_ROOT_PATH") [])

unfoldable pub request_root_path : Environ → Option Request → Text
unfolding normalize configured_root_path
request_root_path environ none = configured_root_path environ
request_root_path environ (some request) =
    if is_empty request.forwarded_prefix
    then configured_root_path environ
    else normalize request.forwarded_prefix

-- `root or "/"`
abbrev pub or_slash : Text → Text
or_slash root = if is_empty root then codes "/" else root

unfoldable pub join_root : Environ → Option Request → Text → Text
unfolding request_root_path
join_root environ request path =
    let root = request_root_path environ request in
    if is_empty path
    then or_slash root
    else root ++ (if starts_with (codes "/") path then path else codes "/" ++ path)

unfoldable pub cookie_path : Environ → Option Request → Text
unfolding request_root_path
cookie_path environ request = or_slash (request_root_path environ request)
