-- ===== src/Config/Validation.antt =====
-- What pydantic makes of the models of src/msgate/schemas/config.py: the dict that a model is dumped
-- to, and its validation. The checks of URLs and addresses are pydantic's and parameters.
use msgate.Prelude.{
  ℕ, Bool, true, false, not, ◌&&◌, ◌||◌, Option, none, some, List, [], ◌∷◌, ◌≡◌, refl, Text, codes,
  leb, if◌then◌else◌,
}
use msgate.Prelude.Results.{Result, ok, raise, ◌>>=◌, value_error}
use msgate.Prelude.Texts.{strip, is_empty}
use mathlib.Core.Option
use msgate.Config.{BackendType, AuthType, EwsConfig, GraphConfig, SmtpConfig, GatewayConfig}
pub mod Models

-- A dict of Graph's settings, in which the secret may be None.
pub record GraphDict : Type 0 where
  pub tenant_id : Text
  pub client_id : Text
  pub client_secret : Option Text
  pub scopes : List Text

-- The dict of a whole configuration. Dicts of the other models hold what the models hold.
pub record ConfigDict : Type 0 where
  pub backend : BackendType
  pub smtp : SmtpConfig
  pub ews : Option EwsConfig
  pub ews_failover : Option EwsConfig
  pub graph : Option GraphDict
  pub default_sender : Option Text

abbrev pub dump_graph : GraphConfig → GraphDict
dump_graph g = record {
  tenant_id = g.tenant_id;
  client_id = g.client_id;
  client_secret = some g.client_secret;
  scopes = g.scopes;
}

-- `config.model_dump(mode="json")`
unfoldable pub model_dump : GatewayConfig → ConfigDict
model_dump c = record {
  backend = c.backend;
  smtp = c.smtp;
  ews = c.ews;
  ews_failover = c.ews_failover;
  graph = Option.map dump_graph c.graph;
  default_sender = c.default_sender;
}

-- `HttpUrl` and `EmailStr` give the normal form of a text, which is one, or refuse it.
pub record Pydantic : Type 0 where
  pub http_url : Text → Option Text
  pub email : Text → Option Text
  pub http_url_normal :
      (t u : Text)
      → Path (Option Text) (http_url t) (some u)
      → Path (Option Text) (http_url u) (some u)
  pub email_normal :
      (t u : Text) → Path (Option Text) (email t) (some u) → Path (Option Text) (email u) (some u)
  pub email_nonblank :
      (t u : Text) → Path (Option Text) (email t) (some u) → Path Bool (is_empty (strip u)) false

-- `_empty_str_to_none`
unfoldable pub blank_to_none : Option Text → Option Text
unfolding strip
blank_to_none none = none
blank_to_none (some t) = if is_empty (strip t) then none else some t

abbrev pub within : ℕ → ℕ → ℕ → Bool
within low high n = leb low n && leb n high

abbrev pub or_invalid {ℓ} : {A : Type ℓ} → Option A → Result A
or_invalid none = raise value_error
or_invalid (some a) = ok a

-- A model that may be None.
abbrev pub validate_option {ℓ κ} :
    {A : Type ℓ} {B : Type κ} → (A → Result B) → Option A → Result (Option B)
validate_option f none = ok none
validate_option f (some a) = f a >>= λ b. ok (some b)

unfoldable pub validate_smtp : SmtpConfig → Result SmtpConfig
validate_smtp s =
    if within 1 65535 s.port && within 1 100 s.max_message_size_mb then ok s else raise value_error

unfoldable pub validate_graph : GraphDict → Result GraphConfig
validate_graph g = or_invalid g.client_secret >>= λ secret. ok (record {
  tenant_id = g.tenant_id;
  client_id = g.client_id;
  client_secret = secret;
  scopes = g.scopes;
})

module _ (lib : Pydantic) where
  unfoldable pub validate_ews : EwsConfig → Result EwsConfig
  unfolding blank_to_none
  validate_ews e = or_invalid (lib.http_url e.server_url) >>= λ url. ok (record {
    server_url = url;
    auth_type = e.auth_type;
    domain = blank_to_none e.domain;
    username = blank_to_none e.username;
    password = blank_to_none e.password;
    trust_self_signed = e.trust_self_signed;
    ca_file = blank_to_none e.ca_file;
    tls_mode = e.tls_mode;
    primary_smtp = blank_to_none e.primary_smtp;
  })

  abbrev pub validate_email : Text → Result Text
  validate_email t = or_invalid (lib.email t)

  -- `GatewayConfig.model_validate`
  unfoldable pub model_validate : ConfigDict → Result GatewayConfig
  unfolding validate_smtp validate_graph validate_ews blank_to_none
  model_validate d = do
    smtp ← validate_smtp d.smtp
    ews ← validate_option validate_ews d.ews
    ews_failover ← validate_option validate_ews d.ews_failover
    graph ← validate_option validate_graph d.graph
    default_sender ← validate_option validate_email (blank_to_none d.default_sender)
    ok (record {
      backend = d.backend;
      smtp = smtp;
      ews = ews;
      ews_failover = ews_failover;
      graph = graph;
      default_sender = default_sender;
    })
