-- ===== src/Config/Environment/Starting.antt =====
-- The configuration from one start to the next: src/msgate/config/load.py.
use msgate.Prelude.{◌≡◌, refl, subst, Option, none, some, Text, codes}
use msgate.Prelude.Ints.{Environ}
use msgate.Prelude.Results.{Result, ok}
use msgate.Config.{EwsConfig, SmtpConfig, GatewayConfig}
use msgate.Config.Validation.{
  Pydantic, blank_to_none, validate_smtp, validate_option, validate_email,
}
use msgate.Config.Validation.Models.{
  ValidOption, ValidEws, Valid, ok_injective, bind_inv, validate_ews_inv, sender_inv, smtp_inv,
  blank_to_none-NotBlank,
}
use msgate.Config.Store.{Nonces, ConfigRow, save_config, load_config}
use msgate.Config.Store.Secrets.{load_config-save_config}
use msgate.Config.Environment.{
  env, env_or, port_of, smtp_settings, ews_settings, failover_settings, smtp_from_env, ews_from_env,
  failover_from_env, load_config_from_env, bootstrap_config,
}
use msgate.Queue.Repository.{SecretBox}

option_inv :
    (lib : Pydantic) (f : Text → Result EwsConfig) (t : Option Text) (e : Option EwsConfig)
    → ((url : Text) (x : EwsConfig) → f url ≡ ok x → ValidEws lib x)
    → validate_option f t ≡ ok e
    → ValidOption lib e
option_inv lib f none e valid h = subst (ValidOption lib) (ok_injective none e h) tt
option_inv lib f (some t) e valid h =
    let (x, g, k) = bind_inv (f t) (λ b. ok (some b)) e h in
    subst (ValidOption lib) (ok_injective (some x) e k) (valid t x g)

module _ (lib : Pydantic) (environ : Environ) where
  smtp_valid : (s : SmtpConfig) → smtp_from_env environ ≡ ok s → validate_smtp s ≡ ok s
  unfolding smtp_from_env
  smtp_valid s h =
      let (port, e, k) =
        bind_inv (port_of (env_or environ (codes "MSGATE_SMTP_PORT") (codes "1025"))) _ s h in
      smtp_inv lib (smtp_settings environ port) s k

  -- What the environment gives is valid.
  pub load_config_from_env-Valid :
      (c : GatewayConfig) → load_config_from_env lib environ ≡ ok c → Valid lib c
  unfolding load_config_from_env ews_from_env failover_from_env
  load_config_from_env-Valid c h =
      let (smtp, e, h1) = bind_inv (smtp_from_env environ) _ c h in
      let (ews, f, h2) =
        bind_inv (validate_option (ews_from_env lib environ) (env environ (codes "MSGATE_EWS_URL")))
          _ c h1 in
      let (other, g, h3) =
        bind_inv
          (validate_option (failover_from_env lib environ ews)
            (env environ (codes "MSGATE_EWS_FAILOVER_URL")))
          _ c h2 in
      let sender = blank_to_none (env environ (codes "MSGATE_DEFAULT_SENDER")) in
      let (t, k, h4) = bind_inv (validate_option (validate_email lib) sender) _ c h3 in
      subst (Valid lib) (ok_injective _ c h4) (record {
        smtp = smtp_valid smtp e;
        ews =
            option_inv lib (ews_from_env lib environ) (env environ (codes "MSGATE_EWS_URL")) ews
              (λ url. validate_ews_inv lib (ews_settings environ url)) f;
        ews_failover =
            option_inv lib (failover_from_env lib environ ews)
              (env environ (codes "MSGATE_EWS_FAILOVER_URL")) other
              (λ url. validate_ews_inv lib (failover_settings environ ews url)) g;
        default_sender =
            sender_inv lib sender t
              (blank_to_none-NotBlank (env environ (codes "MSGATE_DEFAULT_SENDER"))) k;
      })

-- The first start runs with the configuration of its environment and stores it. Every later start
-- with the same key runs with that configuration, whatever its own environment says, so long as this
-- can be read, and leaves the store as it is.
pub bootstrap_config-bootstrap_config :
    (lib : Pydantic) (box : SecretBox) (first later : Environ) (n n' : Nonces)
    (c other : GatewayConfig)
    → load_config_from_env lib first ≡ ok c
    → load_config_from_env lib later ≡ ok other
    → (row : ConfigRow) × (bootstrap_config lib first box n none ≡ ok (c, row))
      × (bootstrap_config lib later box n' row ≡ ok (c, row))
unfolding bootstrap_config load_config
bootstrap_config-bootstrap_config lib box first later n n' c other h k =
    let row = save_config box n c none in
    let stored =
      load_config-save_config box lib n c none (load_config_from_env-Valid lib first c h) in
    (row, rw (h, bootstrap_config) refl, rw (k, bootstrap_config) (rw (stored, load_config) refl))
