-- ===== src/Config/Store.antt =====
-- src/msgate/config/store.py and src/msgate/config/export.py. The row of the table of settings holds
-- the configuration's dict in place of its JSON text, and so does the bundle before its encryption.
-- The nonces that encryptions draw are arguments.
use msgate.Prelude.{
  ℕ, Bool, true, false, not, ◌||◌, Option, none, some, List, [], ◌∷◌, Text, codes, text_eq,
  if◌then◌else◌,
}
use msgate.Prelude.Results.{Exception, invalid_token, value_error, Result, ok, raise, ◌>>=◌}
use msgate.Prelude.Texts.{is_empty}
use msgate.Config.{EwsConfig, GraphConfig, GatewayConfig}
use msgate.Config.Validation.{GraphDict, ConfigDict, model_dump, Pydantic, model_validate}
use msgate.Queue.Repository.{SecretBox}
use mathlib.Core.Option
pub mod Secrets
pub mod Masking

-- The nonces of the three secrets.
pub record Nonces : Type 0 where
  pub ews : Text
  pub ews_failover : Text
  pub graph : Text

-- A change of a text that is there and not empty.
abbrev pub change_given : (Text → Text) → Option Text → Option Text
change_given f none = none
change_given f (some t) = if is_empty t then some t else some (f t)

abbrev pub change_password : (Text → Text) → EwsConfig → EwsConfig
change_password f e = record e { password = change_given f e.password }

abbrev pub change_secret : (Text → Text) → GraphDict → GraphDict
change_secret f g = record g { client_secret = change_given f g.client_secret }

-- A change of the three secrets of a dict.
abbrev pub change_secrets : (Text → Text) → (Text → Text) → (Text → Text) → ConfigDict → ConfigDict
change_secrets f g h d = record d {
  ews = Option.map (change_password f) d.ews;
  ews_failover = Option.map (change_password g) d.ews_failover;
  graph = Option.map (change_secret h) d.graph;
}

-- `_decrypt_field`: a token that cannot be decrypted gives a blank.
abbrev pub decrypt_or_blank : SecretBox → Text → Text
decrypt_or_blank box token = elim (box.decrypt token) [ none ↦ [] | some t ↦ t ]

unfoldable pub encrypt_secrets : SecretBox → Nonces → ConfigDict → ConfigDict
encrypt_secrets box n d =
    change_secrets (box.encrypt n.ews) (box.encrypt n.ews_failover) (box.encrypt n.graph) d

unfoldable pub decrypt_secrets : SecretBox → ConfigDict → ConfigDict
decrypt_secrets box d =
    change_secrets (decrypt_or_blank box) (decrypt_or_blank box) (decrypt_or_blank box) d

-- The row of the table of settings under the key "gateway_config".
abbrev pub ConfigRow : Type 0
ConfigRow = Option ConfigDict

unfoldable pub save_config : SecretBox → Nonces → GatewayConfig → ConfigRow → ConfigRow
unfolding encrypt_secrets model_dump
save_config box n config row = some (encrypt_secrets box n (model_dump config))

abbrev pub mask : Text
mask = codes "***"

abbrev pub masked : Text → Text
masked secret = mask

-- `block.get(field) in (None, "", "***")`
abbrev pub is_withheld : Option Text → Bool
is_withheld none = true
is_withheld (some t) = is_empty t || text_eq t mask

-- `_merge_secret_block` on the field, with what the current block has there.
abbrev pub keep_secret : Option Text → Option Text → Option Text
keep_secret current update = if is_withheld update then current else update

abbrev pub password_of : Option EwsConfig → Option Text
password_of none = none
password_of (some e) = e.password

abbrev pub secret_of : Option GraphDict → Option Text
secret_of none = none
secret_of (some g) = g.client_secret

abbrev pub keep_password : Option EwsConfig → EwsConfig → EwsConfig
keep_password current e = record e { password = keep_secret (password_of current) e.password }

abbrev pub keep_client_secret : Option GraphDict → GraphDict → GraphDict
keep_client_secret current g = record g {
  client_secret = keep_secret (secret_of current) g.client_secret;
}

unfoldable pub merge_dicts : ConfigDict → ConfigDict → ConfigDict
merge_dicts cur d = record d {
  ews = Option.map (keep_password cur.ews) d.ews;
  ews_failover = Option.map (keep_password cur.ews_failover) d.ews_failover;
  graph = Option.map (keep_client_secret cur.graph) d.graph;
}

module _ (lib : Pydantic) where
  unfoldable pub load_config : SecretBox → ConfigRow → Result (Option GatewayConfig)
  unfolding decrypt_secrets model_validate
  load_config box none = ok none
  load_config box (some d) = model_validate lib (decrypt_secrets box d) >>= λ c. ok (some c)

  unfoldable pub redact_config : GatewayConfig → Result GatewayConfig
  unfolding model_validate model_dump
  redact_config config =
      model_validate lib (change_secrets masked masked masked (model_dump config))

  unfoldable pub merge_config_update : GatewayConfig → GatewayConfig → Result GatewayConfig
  unfolding merge_dicts model_dump model_validate
  merge_config_update current update =
      model_validate lib (merge_dicts (model_dump current) (model_dump update))

-- `ConfigBundle`
pub record ConfigBundle : Type 0 where
  pub version : ℕ
  pub exported_at : Text
  pub config : ConfigDict

-- The printing of a bundle as JSON and the reading back, which pydantic and `json` do.
pub record BundleText : Type 0 where
  pub print : ConfigBundle → Text
  pub read : Text → Option ConfigBundle

unfoldable pub export_config : BundleText → GatewayConfig → SecretBox → Text → Text → Text
unfolding model_dump
export_config json config box nonce now =
    box.encrypt nonce
      (json.print (record { version = 1; exported_at = now; config = model_dump config }))

abbrev or_raising {ℓ} : {A : Type ℓ} → Option A → Exception → Result A
or_raising none e = raise e
or_raising (some a) e = ok a

unfoldable pub import_config : Pydantic → BundleText → Text → SecretBox → Result GatewayConfig
unfolding model_validate
import_config lib json token box = do
  plaintext ← or_raising (box.decrypt token) invalid_token
  bundle ← or_raising (json.read plaintext) value_error
  model_validate lib bundle.config
