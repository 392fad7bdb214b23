-- ===== src/Config.antt =====
-- src/msgate/schemas/config.py and src/msgate/schemas/enums.py: the gateway's configuration, after
-- validation. Addresses and URLs are texts.
use msgate.Prelude.{ℕ, Bool, Option, List, Text, codes}
pub mod Validation
pub mod Store
pub mod Environment

pub data BackendType : Type 0 where
  ews graph gmail : BackendType

abbrev pub backend_value : BackendType → Text
backend_value ews = codes "ews"
backend_value graph = codes "graph"
backend_value gmail = codes "gmail"

pub data AuthType : Type 0 where
  basic ntlm oauth2 : AuthType

pub record EwsConfig : Type 0 where
  pub server_url : Text
  pub auth_type : AuthType
  pub domain : Option Text
  pub username : Option Text
  pub password : Option Text
  pub trust_self_signed : Bool
  pub ca_file : Option Text
  pub tls_mode : Text
  pub primary_smtp : Option Text

pub record GraphConfig : Type 0 where
  pub tenant_id : Text
  pub client_id : Text
  pub client_secret : Text
  pub scopes : List Text

pub record SmtpConfig : Type 0 where
  pub bind_address : Text
  pub port : ℕ
  pub max_message_size_mb : ℕ
  pub allowed_ips : List Text

pub record GatewayConfig : Type 0 where
  pub backend : BackendType
  pub smtp : SmtpConfig
  pub ews : Option EwsConfig
  pub ews_failover : Option EwsConfig
  pub graph : Option GraphConfig
  pub default_sender : Option Text
