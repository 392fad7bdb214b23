-- ===== src/Smtp/Authenticator.antt =====
-- src/msgate/smtp/authenticator.py: AUTH, and the credentials remembered for each peer address.
use msgate.Prelude.{
  ℕ, ◌≡◌, Bool, true, false, ◌&&◌, ◌||◌, not, Option, none, some, List, [], ◌∷◌, ◌++◌, Text, codes,
  text_eq, if◌then◌else◌,
}
use msgate.Events.{EventHub, announce}
use msgate.Prelude.Maps.{Dict, lookup, assign, delete}
use msgate.Smtp.Sanitize.{
  SanitizedAuth, SanitizeError, empty_username, invalid_upn, Sanitized, accepted, refused,
  sanitize_username,
}
pub mod Peers
pub mod Histories

pub record SessionAuth : Type 0 where
  pub sanitized : SanitizedAuth
  pub password : Text

pub record SmtpAuthenticator : Type 0 where
  pub default_domain : Option Text
  pub hub : Option EventHub
  pub by_peer : Dict SessionAuth

unfoldable pub remember : Text → SessionAuth → SmtpAuthenticator → SmtpAuthenticator
remember ip a s = record s { by_peer = assign ip a s.by_peer }

unfoldable pub get : Text → SmtpAuthenticator → Option SessionAuth
get ip s = lookup ip s.by_peer

unfoldable pub clear : Text → SmtpAuthenticator → SmtpAuthenticator
clear ip s = record s { by_peer = delete ip s.by_peer }

-- `auth_data`, decoded from UTF-8, where it is a `LoginPassword`.
pub record Login : Type 0 where
  pub login : Text
  pub password : Text

-- The mechanism in upper case, which aiosmtpd passes as the client sent it.
pub data Mechanism : Type 0 where
  plain login_ : Mechanism
  other : Text → Mechanism

-- The text of the ValueError; `repr` is Python's.
abbrev pub error_text : (Text → Text) → Text → SanitizeError → Text
error_text repr raw empty_username = codes "empty username"
error_text repr raw invalid_upn = codes "invalid UPN username: " ++ repr raw

unfoldable pub try_login :
    (Text → Text) → Text → Text → Login → ℕ → SmtpAuthenticator → Bool × SmtpAuthenticator
unfolding remember
try_login repr name ip data_ now s = elim (sanitize_username data_.login s.default_domain) [
  | refused e ↦ (
    false,
    record s {
      hub =
          announce (codes "auth.fail") (error_text repr data_.login e)
            ((codes "peer", ip) ∷ (codes "raw", data_.login) ∷ []) now s.hub;
    },
  )
  | accepted a ↦
      let s' = remember ip (record { sanitized = a; password = data_.password }) s in
      (
        true,
        record s' {
          hub =
              announce (codes "auth.ok")
                (codes "AUTH "
                  ++ (name ++ (codes " " ++ (a.raw ++ (codes " → " ++ a.ews_username)))))
                ((codes "peer", ip)
                  ∷ (codes "raw", a.raw)
                  ∷ (codes "ews_user", a.ews_username)
                  ∷ [])
                now s.hub;
        },
      )
]

-- `__call__`: whether AUTH succeeds.
unfoldable pub authenticate :
    (Text → Text)
    → Text
    → Mechanism
    → Option Login
    → ℕ
    → SmtpAuthenticator
    → Bool × SmtpAuthenticator
unfolding try_login
authenticate repr ip (other name) auth_data now s = (
  false,
  record s {
    hub =
        announce (codes "auth.fail") (codes "Unsupported " ++ name) ((codes "peer", ip) ∷ []) now
          s.hub;
  },
)
authenticate repr ip plain none now s = (false, s)
authenticate repr ip login_ none now s = (false, s)
authenticate repr ip plain (some d) now s = try_login repr (codes "PLAIN") ip d now s
authenticate repr ip login_ (some d) now s = try_login repr (codes "LOGIN") ip d now s
