-- ===== src/Drivers.antt =====
-- src/msgate/drivers: the contract of a mail driver, the drivers, and their registry.
-- A send reads and changes the world outside (`W`: the Exchange server, the TLS caches), which is
-- passed along. What a failed call raises is the text of the exception. The driver's value of a
-- latency is whole milliseconds.
use msgate.Prelude.{
  ℕ, Bool, true, false, ◌||◌, not, Option, none, some, List, [], ◌∷◌, ◌++◌, Text, codes,
  if◌then◌else◌, is_some,
}
use msgate.Prelude.Base64.{Bytes}
use msgate.Prelude.Texts.{is_empty}
use msgate.Config.{BackendType, ews, graph, gmail, backend_value, EwsConfig, GatewayConfig}
pub mod Outcomes

pub record SendResult : Type 0 where
  pub message_id : Option Text
  pub changekey : Option Text
  pub driver : Option Text

pub record SendRequest : Type 0 where
  pub auth_username : Text
  pub password : Text
  pub mail_from : Text
  pub rcpt_tos : List Text
  pub mime_bytes : Bytes
  pub default_sender : Option Text

pub record HealthResult : Type 0 where
  pub healthy : Bool
  pub latency_ms : ℕ
  pub detail : Text
  pub error : Option Text
  pub driver : Text
  pub extra : List (Text × Text)

pub data Sending : Type 0 where
  sent : SendResult → Sending
  failing : Text → Sending

pub record MailDriver (W : Type 0) : Type 0 where
  pub backend : BackendType
  pub is_configured : GatewayConfig → Bool
  pub send : SendRequest → GatewayConfig → W → Sending × W
  pub health : GatewayConfig → W → HealthResult × W

-- `self.backend.value.upper()`
abbrev pub label_of : BackendType → Text
label_of ews = codes "EWS"
label_of graph = codes "GRAPH"
label_of gmail = codes "GMAIL"

abbrev pub label : {W : Type 0} → MailDriver W → Text
label d = label_of d.backend

unfoldable pub unhealthy : BackendType → Text → HealthResult
unhealthy backend error = record {
  healthy = false;
  latency_ms = 0;
  detail = [];
  error = some error;
  driver = backend_value backend;
  extra = [];
}

-- What the EWS driver calls in src/msgate/ews and src/msgate/tls.
pub record EwsClient (W : Type 0) : Type 0 where
  pub send_mime : EwsConfig → SendRequest → Option Text → W → Sending × W
  pub check : EwsConfig → Text → Text → W → HealthResult × W

-- `_send_via`: the driver's name is put in place of the client's.
abbrev pub named : Text → Sending → Sending
named name (sent r) = sent (record r { driver = some name })
named name (failing e) = failing e

-- `not ews.username or not ews.password`
abbrev pub blank : Option Text → Bool
blank none = true
blank (some t) = is_empty t

abbrev pub text_or : Option Text → Text
text_or none = []
text_or (some t) = t

-- `_StubDriver`, with the attribute of the configuration that it looks for.
abbrev pub phase : BackendType → Text
phase graph = codes "4b"
phase _ = codes "4c"

abbrev pub not_implemented : BackendType → Text
not_implemented backend =
    label_of backend ++ (codes " driver not implemented (Phase " ++ (phase backend ++ codes ")"))

module _ {W : Type 0} where
  unfoldable pub send_via : EwsClient W → EwsConfig → SendRequest → Option Text → W → Sending × W
  send_via client cfg request default_sender w =
      let (r, w') = client.send_mime cfg request default_sender w in
      (named (backend_value ews) r, w')

  -- The handler of `EwsDriver.send`.
  unfoldable pub fail_over : EwsClient W → SendRequest → GatewayConfig → Sending → W → Sending × W
  unfolding send_via
  fail_over client request config (sent r) w = (sent r, w)
  fail_over client request config (failing e) w = elim config.ews_failover [
    | none ↦ (failing e, w)
    | some failover ↦
        let (r, w') = send_via client failover request config.default_sender w in
        (named (codes "ews+failover") r, w')
  ]

  unfoldable pub ews_send : EwsClient W → SendRequest → GatewayConfig → W → Sending × W
  unfolding fail_over send_via
  ews_send client request config w = elim config.ews [
    | none ↦ (failing (codes "EWS not configured"), w)
    | some cfg ↦
        let (r, w') = send_via client cfg request config.default_sender w in
        fail_over client request config r w'
  ]

  unfoldable pub ews_health : EwsClient W → GatewayConfig → W → HealthResult × W
  unfolding unhealthy
  ews_health client config w = elim config.ews [
    | none ↦ (unhealthy ews (codes "EWS not configured"), w)
    | some cfg ↦
        if blank cfg.username || blank cfg.password
        then (unhealthy ews (codes "EWS username/password required"), w)
        else client.check cfg (text_or cfg.username) (text_or cfg.password) w
  ]

  unfoldable pub ews_driver : EwsClient W → MailDriver W
  unfolding ews_send ews_health
  ews_driver client = record {
    backend = ews;
    is_configured = λ config. is_some config.ews;
    send = ews_send client;
    health = ews_health client;
  }

  unfoldable pub stub_driver : BackendType → (GatewayConfig → Bool) → MailDriver W
  unfolding unhealthy
  stub_driver backend has_config = record {
    backend = backend;
    is_configured = has_config;
    send = λ request config w. (failing (not_implemented backend), w);
    health = λ config w.
        if has_config config
        then (unhealthy backend (not_implemented backend), w)
        else (unhealthy backend (label_of backend ++ codes " not configured"), w);
  }

  unfoldable pub graph_driver : MailDriver W
  unfolding stub_driver
  graph_driver = stub_driver graph (λ config. is_some config.graph)

  unfoldable pub gmail_driver : MailDriver W
  unfolding unhealthy
  gmail_driver = record {
    backend = gmail;
    is_configured = λ config. false;
    send = λ request config w. (failing (codes "Gmail driver not implemented (Phase 4c)"), w);
    health = λ config w. (unhealthy gmail (codes "Gmail driver not implemented (Phase 4c)"), w);
  }

  -- `_DRIVERS`
  unfoldable pub get_driver : EwsClient W → BackendType → MailDriver W
  unfolding ews_driver graph_driver gmail_driver
  get_driver client ews = ews_driver client
  get_driver client graph = graph_driver
  get_driver client gmail = gmail_driver

  unfoldable pub resolve_driver : EwsClient W → GatewayConfig → MailDriver W
  unfolding get_driver
  resolve_driver client config = get_driver client config.backend

  unfoldable pub health_of : EwsClient W → BackendType → GatewayConfig → W → HealthResult × W
  unfolding get_driver unhealthy
  health_of client backend config w =
      let driver = get_driver client backend in
      if not (driver.is_configured config)
      then (unhealthy driver.backend (label driver ++ codes " not configured"), w)
      else driver.health config w

  unfoldable pub check_backend_health : EwsClient W → GatewayConfig → W → HealthResult × W
  unfolding health_of
  check_backend_health client config w = health_of client config.backend config w
