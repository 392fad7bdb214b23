-- ===== src/Config/Environment.antt =====
-- src/msgate/config_load.py and src/msgate/config/load.py: the configuration that a start finds.
use msgate.Prelude.{
  ℕ, Bool, true, false, not, ◌||◌, Option, none, some, List, [], ◌∷◌, map, Text, codes, text_eq,
  filter, if◌then◌else◌,
}
use msgate.Prelude.Ints.{ℤ, pos, negsuc, parse_int, Environ}
use msgate.Prelude.Results.{Result, ok, raise, ◌>>=◌, value_error}
use msgate.Prelude.Texts.{is_empty, strip, lower}
use msgate.Auth.Passwords.{split}
use msgate.Config.{AuthType, basic, ntlm, BackendType, EwsConfig, SmtpConfig, GatewayConfig}
use msgate.Config
use msgate.Config.Validation.{
  Pydantic, blank_to_none, validate_smtp, validate_ews, validate_option, validate_email,
}
use msgate.Config.Store.{Nonces, ConfigRow, save_config, load_config}
use msgate.Queue.Repository.{SecretBox}
pub mod Starting

-- `_env(name)`: a variable that is set to an empty text counts as missing.
unfoldable pub env : Environ → Text → Option Text
env environ name = elim (environ name) [
  | none ↦ none
  | some value ↦ if is_empty value then none else some value
]

abbrev pub or_default : Text → Option Text → Text
or_default default none = default
or_default default (some t) = t

abbrev pub env_or : Environ → Text → Text → Text
env_or environ name default = or_default default (env environ name)

-- `_env(name) or other`
abbrev pub or_other : Option Text → Option Text → Option Text
or_other none other = other
or_other (some t) other = some t

abbrev pub nonblank : Text → Bool
nonblank t = not (is_empty t)

unfoldable pub allowed_of : Text → List Text
unfolding strip split
allowed_of allowed = filter nonblank (map strip (split b',' allowed))

-- `int(text)` where a port is wanted: a negative number is refused as well.
abbrev pub port_of : Text → Result ℕ
port_of text = elim (parse_int text) [
  | none ↦ raise value_error
  | some (pos n) ↦ ok n
  | some (negsuc n) ↦ raise value_error
]

abbrev pub smtp_settings : Environ → ℕ → SmtpConfig
smtp_settings environ port = record {
  bind_address = env_or environ (codes "MSGATE_SMTP_BIND") (codes "127.0.0.1");
  port = port;
  max_message_size_mb = 25;
  allowed_ips = allowed_of (env_or environ (codes "MSGATE_SMTP_ALLOWED_IPS") (codes "127.0.0.1"));
}

unfoldable pub smtp_from_env : Environ → Result SmtpConfig
unfolding env allowed_of parse_int validate_smtp
smtp_from_env environ =
    port_of (env_or environ (codes "MSGATE_SMTP_PORT") (codes "1025")) >>= λ port.
    validate_smtp (smtp_settings environ port)

abbrev pub auth_of : Text → AuthType
auth_of raw = if text_eq (lower raw) (codes "basic") then basic else ntlm

abbrev pub is_trusting : Text → Bool
is_trusting raw =
    text_eq (lower raw) (codes "1")
    || text_eq (lower raw) (codes "true")
    || text_eq (lower raw) (codes "yes")

abbrev pub tls_mode_of : Text → Text
tls_mode_of raw =
    let mode = lower raw in
    if text_eq mode (codes "auto") || text_eq mode (codes "modern") || text_eq mode (codes "legacy")
    then mode
    else codes "auto"

abbrev pub ews_settings : Environ → Text → EwsConfig
ews_settings environ url = record {
  server_url = url;
  auth_type = auth_of (env_or environ (codes "MSGATE_EWS_AUTH_TYPE") (codes "ntlm"));
  domain = env environ (codes "MSGATE_EWS_DOMAIN");
  username = env environ (codes "MSGATE_EWS_USERNAME");
  password = env environ (codes "MSGATE_EWS_PASSWORD");
  trust_self_signed =
      is_trusting (env_or environ (codes "MSGATE_EWS_TRUST_SELF_SIGNED") (codes "false"));
  ca_file = env environ (codes "MSGATE_EWS_CA_FILE");
  tls_mode = tls_mode_of (env_or environ (codes "MSGATE_EWS_TLS_MODE") (codes "auto"));
  primary_smtp = env environ (codes "MSGATE_EWS_PRIMARY_SMTP");
}

abbrev pub of_primary {ℓ} : {A : Type ℓ} → Option EwsConfig → A → (EwsConfig → A) → A
of_primary none default f = default
of_primary (some e) default f = f e

-- `trust` and `tls_mode` are those that the primary endpoint was made with.
abbrev pub failover_settings : Environ → Option EwsConfig → Text → EwsConfig
failover_settings environ ews url = record {
  server_url = url;
  auth_type = of_primary ews ntlm (λ e. e.auth_type);
  domain =
      or_other (env environ (codes "MSGATE_EWS_FAILOVER_DOMAIN"))
        (of_primary ews none (λ e. e.domain));
  username =
      or_other (env environ (codes "MSGATE_EWS_FAILOVER_USERNAME"))
        (of_primary ews none (λ e. e.username));
  password =
      or_other (env environ (codes "MSGATE_EWS_FAILOVER_PASSWORD"))
        (of_primary ews none (λ e. e.password));
  trust_self_signed = of_primary ews false (λ e. e.trust_self_signed);
  ca_file =
      or_other (env environ (codes "MSGATE_EWS_FAILOVER_CA_FILE"))
        (of_primary ews none (λ e. e.ca_file));
  tls_mode = of_primary ews (codes "auto") (λ e. e.tls_mode);
  primary_smtp =
      or_other (env environ (codes "MSGATE_EWS_FAILOVER_PRIMARY_SMTP"))
        (of_primary ews none (λ e. e.primary_smtp));
}

module _ (lib : Pydantic) (environ : Environ) where
  unfoldable pub ews_from_env : Text → Result EwsConfig
  unfolding env validate_ews
  ews_from_env url = validate_ews lib (ews_settings environ url)

  unfoldable pub failover_from_env : Option EwsConfig → Text → Result EwsConfig
  unfolding env validate_ews
  failover_from_env ews url = validate_ews lib (failover_settings environ ews url)

  unfoldable pub load_config_from_env : Result GatewayConfig
  unfolding smtp_from_env ews_from_env failover_from_env env blank_to_none
  load_config_from_env = do
    smtp ← smtp_from_env environ
    ews ← validate_option ews_from_env (env environ (codes "MSGATE_EWS_URL"))
    other ← validate_option (failover_from_env ews) (env environ (codes "MSGATE_EWS_FAILOVER_URL"))
    sender ←
        validate_option (validate_email lib)
          (blank_to_none (env environ (codes "MSGATE_DEFAULT_SENDER")))
    ok (record {
      backend = Config.ews;
      smtp = smtp;
      ews = ews;
      ews_failover = other;
      graph = none;
      default_sender = sender;
    })

  -- `bootstrap_config`, with the row of settings that it leaves.
  unfoldable pub bootstrap_config :
      SecretBox → Nonces → ConfigRow → Result (GatewayConfig × ConfigRow)
  unfolding load_config_from_env load_config save_config
  bootstrap_config box n row = do
    env_cfg ← load_config_from_env
    stored ← load_config lib box row
    elim stored [ none ↦ ok (env_cfg, save_config box n env_cfg row) | some c ↦ ok (c, row) ]
