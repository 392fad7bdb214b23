-- ===== src/Tls/Profiles.antt =====
-- src/msgate/tls/profiles.py: the profiles of a TLS client and the order in which a mode tries them.
use msgate.Prelude.{
  Bool, true, false, Option, none, some, List, [], ◌∷◌, Text, codes, text_eq, if◌then◌else◌,
}

pub data TlsMode : Type 0 where
  auto modern legacy : TlsMode

pub data TlsProfileId : Type 0 where
  modern_tls legacy_tls1_1 legacy_tls1 : TlsProfileId

abbrev pub mode_value : TlsMode → Text
mode_value auto = codes "auto"
mode_value modern = codes "modern"
mode_value legacy = codes "legacy"

abbrev pub profile_value : TlsProfileId → Text
profile_value modern_tls = codes "modern"
profile_value legacy_tls1_1 = codes "legacy_tls1_1"
profile_value legacy_tls1 = codes "legacy_tls1"

-- `TlsMode(text)` and `TlsProfileId(text)`; `none` is their ValueError.
unfoldable pub mode_of : Text → Option TlsMode
mode_of t =
    if text_eq t (mode_value auto)
    then some auto
    else if text_eq t (mode_value modern)
    then some modern
    else if text_eq t (mode_value legacy)
    then some legacy
    else none

unfoldable pub profile_of : Text → Option TlsProfileId
profile_of t =
    if text_eq t (profile_value modern_tls)
    then some modern_tls
    else if text_eq t (profile_value legacy_tls1_1)
    then some legacy_tls1_1
    else if text_eq t (profile_value legacy_tls1)
    then some legacy_tls1
    else none

-- A bound that is `none` is OpenSSL's own.
pub record TlsProfile : Type 0 where
  pub id : TlsProfileId
  pub title : Text
  pub min_tls : Option Text
  pub max_tls : Option Text
  pub ciphers : Option Text
  pub legacy_connect : Bool

-- `PROFILES`
unfoldable pub profile_by_id : TlsProfileId → TlsProfile
profile_by_id modern_tls = record {
  id = modern_tls;
  title = codes "TLS 1.2+ (modern)";
  min_tls = some (codes "TLSv1_2");
  max_tls = none;
  ciphers = none;
  legacy_connect = false;
}
profile_by_id legacy_tls1_1 = record {
  id = legacy_tls1_1;
  title = codes "TLS 1.1 (legacy)";
  min_tls = some (codes "TLSv1_1");
  max_tls = some (codes "TLSv1_1");
  ciphers = some (codes "DEFAULT:@SECLEVEL=0");
  legacy_connect = true;
}
profile_by_id legacy_tls1 = record {
  id = legacy_tls1;
  title = codes "TLS 1.0 (legacy)";
  min_tls = some (codes "TLSv1");
  max_tls = some (codes "TLSv1");
  ciphers = some (codes "DEFAULT:@SECLEVEL=0");
  legacy_connect = true;
}

unfoldable pub ladder_for_mode : TlsMode → List TlsProfileId
ladder_for_mode modern = modern_tls ∷ []
ladder_for_mode legacy = legacy_tls1_1 ∷ legacy_tls1 ∷ []
ladder_for_mode auto = modern_tls ∷ legacy_tls1_1 ∷ legacy_tls1 ∷ []
