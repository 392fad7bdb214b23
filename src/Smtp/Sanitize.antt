-- ===== src/Smtp/Sanitize.antt =====
-- src/msgate/auth/sanitize.py: user names in the forms DOMAIN\user, DOMAIN/user, user@domain and user.
use msgate.Prelude.{
  ℕ, Bool, true, false, not, ◌&&◌, ◌||◌, Option, none, some, List, [], ◌∷◌, ◌++◌, Text, codes,
  if◌then◌else◌,
}
use msgate.Prelude.Texts.{strip, is_empty, has_char, partition}
pub mod Forms

pub record SanitizedAuth : Type 0 where
  pub raw : Text
  pub username : Text
  pub domain : Option Text
  pub ews_username : Text

pub data SanitizeError : Type 0 where
  empty_username invalid_upn : SanitizeError

pub data Sanitized : Type 0 where
  accepted : SanitizedAuth → Sanitized
  refused : SanitizeError → Sanitized

abbrev pub backslash : ℕ
backslash = 0x5c

abbrev pub slash : ℕ
slash = b'/'

abbrev pub at_sign : ℕ
at_sign = b'@'

-- `f"{domain}\\{user}"`
abbrev pub down_level : Text → Text → Text
down_level domain user = domain ++ (backslash ∷ user)

-- One round of the loop over the separators.
unfoldable pub split_domain : ℕ → Text → Text → Option SanitizedAuth
split_domain sep raw value =
    let (before, found, after) = partition sep value in
    let domain = strip before in
    let user = strip after in
    if has_char sep value && not (has_char at_sign value)
    then if not (is_empty domain)
        && not (is_empty user)
        && not (has_char backslash user)
        && not (has_char slash user)
      then some (record {
        raw = raw;
        username = user;
        domain = some domain;
        ews_username = down_level domain user;
      })
      else none
    else none

unfoldable pub split_upn : Text → Text → Sanitized
split_upn raw value =
    let (before, found, after) = partition at_sign value in
    let user = strip before in
    let domain = strip after in
    if is_empty user || is_empty domain
    then refused invalid_upn
    else accepted
        (record { raw = raw; username = user; domain = some domain; ews_username = value })

-- A missing or blank default domain leaves the name plain.
unfoldable pub plain_user : Option Text → Text → Text → SanitizedAuth
plain_user none raw value = record {
  raw = raw;
  username = value;
  domain = none;
  ews_username = value;
}
plain_user (some domain) raw value =
    if is_empty domain
    then record { raw = raw; username = value; domain = none; ews_username = value }
    else record {
      raw = raw;
      username = value;
      domain = some domain;
      ews_username = down_level domain value;
    }

unfoldable pub sanitize_username : Text → Option Text → Sanitized
sanitize_username raw default_domain =
    let value = strip raw in
    if is_empty value then refused empty_username else elim (split_domain backslash raw value) [
      | some a ↦ accepted a
      | none ↦ elim (split_domain slash raw value) [
        | some a ↦ accepted a
        | none ↦
            if has_char at_sign value
            then split_upn raw value
            else accepted (plain_user default_domain raw value)
      ]
    ]
