-- ===== src/Scenarios/Configuring.antt =====
-- A gateway that is started from its environment, restarted, and edited by a client.
use msgate.Prelude.{
  ℕ, ◌≡◌, refl, ap, subst, false, Option, none, some, [], ◌∷◌, Text, codes, text_eq, if◌then◌else◌,
  Bool-cases, inl, inr,
}
use msgate.Prelude.Ints.{Environ, parse_int}
use msgate.Prelude.Results.{ok}
use msgate.Prelude.Texts.{is_empty, strip}
use msgate.Auth.Passwords.{split}
use msgate.Config
use msgate.Config.{EwsConfig, GatewayConfig}
use msgate.Config.Validation.{Pydantic, blank_to_none, validate_smtp, validate_ews}
use msgate.Config.Store.{Nonces, ConfigRow, BundleText, load_config}
use msgate.Config.Store.Masking.{HiddenEws, HiddenGraph}
use msgate.Config.Environment.{
  env, allowed_of, smtp_from_env, ews_from_env, failover_from_env, load_config_from_env,
  bootstrap_config, or_default,
}
use msgate.Config.Environment.Starting.{
  load_config_from_env-Valid, bootstrap_config-bootstrap_config,
}
use msgate.Api.Settings.{Gateway, Libraries, Reads, get_config, put_config}
use msgate.Api.Settings.Editing.{put_config-get_config}
use msgate.Scenarios.Samples.{box, sending}
use msgate.Scenarios.Negotiating.{library, empty_cache}
use msgate.Scenarios.Alerting.{watcher, email_package, tick_at}

-- Takes every URL and every address that is not blank.
abbrev nonblank_address : Text → Option Text
nonblank_address t = if is_empty (strip t) then none else some t

nonblank_address_inv :
    (t u : Text) → nonblank_address t ≡ some u → (t ≡ u) × (is_empty (strip u) ≡ false)
nonblank_address_inv t u h = elim (Bool-cases (is_empty (strip t))) [
  | inl e ↦ absurd (let k : Path (Option Text) none (some u) = rw e at h in cc)
  | inr e ↦
      let k : Path (Option Text) (some t) (some u) = rw e at h in
      let q = ap (or_default t) k in (q, subst (λ v. is_empty (strip v) ≡ false) q e)
]

abbrev models : Pydantic
models = record {
  http_url = λ t. some t;
  email = nonblank_address;
  http_url_normal = λ t u h. refl;
  email_normal = λ t u h. rw ((nonblank_address_inv t u h).1) refl;
  email_nonblank = λ t u h. (nonblank_address_inv t u h).1;
}

abbrev first_start : Environ
first_start name =
    if text_eq name (codes "MSGATE_EWS_URL")
    then some (codes "https://mail.example.com/EWS/Exchange.asmx")
    else if text_eq name (codes "MSGATE_EWS_PASSWORD")
    then some (codes "pw")
    else none

abbrev later_start : Environ
later_start name = if text_eq name (codes "MSGATE_SMTP_PORT") then some (codes "2525") else none

abbrev nonces : Nonces
nonces = record { ews = codes "a"; ews_failover = codes "b"; graph = codes "c" }

abbrev started : GatewayConfig
started = record {
  backend = Config.ews;
  smtp = record {
    bind_address = codes "127.0.0.1";
    port = 1025;
    max_message_size_mb = 25;
    allowed_ips = codes "127.0.0.1" ∷ [];
  };
  ews = some (record {
    server_url = codes "https://mail.example.com/EWS/Exchange.asmx";
    auth_type = Config.ntlm;
    domain = none;
    username = none;
    password = some (codes "pw");
    trust_self_signed = false;
    ca_file = none;
    tls_mode = codes "auto";
    primary_smtp = none;
  });
  ews_failover = none;
  graph = none;
  default_sender = none;
}

abbrev restarted : GatewayConfig
restarted = record {
  backend = Config.ews;
  smtp = record {
    bind_address = codes "127.0.0.1";
    port = 2525;
    max_message_size_mb = 25;
    allowed_ips = codes "127.0.0.1" ∷ [];
  };
  ews = none;
  ews_failover = none;
  graph = none;
  default_sender = none;
}

first_config : load_config_from_env models first_start ≡ ok started
unfolding load_config_from_env smtp_from_env ews_from_env failover_from_env env allowed_of parse_int
    validate_smtp validate_ews blank_to_none strip split
first_config = refl

later_config : load_config_from_env models later_start ≡ ok restarted
unfolding load_config_from_env smtp_from_env ews_from_env failover_from_env env allowed_of parse_int
    validate_smtp validate_ews blank_to_none strip split
later_config = refl

bootstrap_config-bootstrap_config_example :
    (row : ConfigRow) × (bootstrap_config models first_start box nonces none ≡ ok (started, row))
    × (bootstrap_config models later_start box nonces row ≡ ok (started, row))
bootstrap_config-bootstrap_config_example =
    bootstrap_config-bootstrap_config models box first_start later_start nonces nonces started
      restarted first_config later_config

abbrev json : BundleText
json = record { print = λ b. b.exported_at; read = λ t. none }

abbrev libraries : Libraries ℕ
libraries = record {
  pydantic = models;
  json = json;
  box = box;
  tls = library;
  client = sending;
  compose = email_package;
}

abbrev reads : Reads
reads = record { nonces = nonces; inputs = tick_at 1000 }

abbrev gateway : Gateway ℕ
gateway = record { runtime = started; row = none; tls_cache = empty_cache; watch = watcher }

put_config-get_config_example :
    (seen : GatewayConfig) × (after : Gateway ℕ) × (get_config libraries gateway ≡ ok seen)
    × (put_config libraries seen reads gateway ≡ (ok seen, after))
    × (after.runtime ≡ gateway.runtime)
    × (load_config models box after.row ≡ ok (some gateway.runtime))
    × HiddenEws seen.ews
    × HiddenEws seen.ews_failover
    × HiddenGraph seen.graph
put_config-get_config_example =
    put_config-get_config libraries reads gateway
      (load_config_from_env-Valid models first_start started first_config)
