-- ===== src/Api/Settings.antt =====
-- src/msgate/api/routes/config.py with src/msgate/config/runtime.py: reading, changing, exporting and
-- importing the configuration. pydantic, the JSON of a bundle, the mail client and the TLS library
-- are parameters; what a request draws or reads of clocks is an argument.
use msgate.Prelude.{false, Option, none, some, Text}
use msgate.Prelude.Results.{Exception, Result, ok, raise, ◌>>=◌}
use msgate.Config.{GatewayConfig}
use msgate.Config.Validation.{Pydantic}
use msgate.Config.Store.{
  Nonces, ConfigRow, save_config, redact_config, merge_config_update, BundleText, export_config,
  import_config,
}
use msgate.Drivers.{EwsClient}
use msgate.Ops.AlertMail.{Composer}
use msgate.Ops.Watcher.{Watcher, Inputs, refresh_metrics}
use msgate.Queue.Repository.{SecretBox}
use msgate.Tls.Cache.{TlsCache}
use msgate.Tls.Negotiate.{TlsLibrary, prepare_ews_tls}
pub mod Editing

-- What the routes of the configuration see of the gateway. The world is that of the metrics.
pub record Gateway (W : Type 0) : Type 0 where
  pub runtime : GatewayConfig
  pub row : ConfigRow
  pub tls_cache : TlsCache
  pub watch : Watcher W

pub record Libraries (W : Type 0) : Type 0 where
  pub pydantic : Pydantic
  pub json : BundleText
  pub box : SecretBox
  pub tls : TlsLibrary W
  pub client : EwsClient W
  pub compose : Composer

-- What a request draws, and what it reads when it refreshes the metrics.
pub record Reads : Type 0 where
  pub nonces : Nonces
  pub inputs : Inputs

module _ {W : Type 0} (lib : Libraries W) where
  -- `prepare_ews_tls`, whose exceptions are caught.
  unfoldable pub try_tls : GatewayConfig → Gateway W → Gateway W
  unfolding prepare_ews_tls
  try_tls config s = elim config.ews [
    | none ↦ s
    | some ews ↦
        let n = prepare_ews_tls lib.tls ews false s.tls_cache s.watch.world in
        record s { tls_cache = n.cache; watch = record s.watch { world = n.world } }
  ]

  -- `runtime.replace`, `save_config` and `refresh_metrics`.
  unfoldable pub install : GatewayConfig → Reads → Gateway W → Gateway W
  unfolding save_config refresh_metrics
  install config reads s = record s {
    runtime = config;
    row = save_config lib.box reads.nonces config s.row;
    watch =
        refresh_metrics lib.client lib.compose (record reads.inputs { config = config }) s.watch;
  }

  unfoldable pub get_config : Gateway W → Result GatewayConfig
  unfolding redact_config
  get_config s = redact_config lib.pydantic s.runtime

  -- What is answered is redacted after the gateway has changed.
  unfoldable pub put_config : GatewayConfig → Reads → Gateway W → Result GatewayConfig × Gateway W
  unfolding merge_config_update try_tls install redact_config
  put_config update reads s = elim (merge_config_update lib.pydantic s.runtime update) [
    | raise e ↦ (raise e, s)
    | ok merged ↦ (redact_config lib.pydantic merged, install merged reads (try_tls merged s))
  ]

  unfoldable pub export_gateway_config : Text → Text → Gateway W → Text
  unfolding export_config
  export_gateway_config nonce now s = export_config lib.json s.runtime lib.box nonce now

  -- An exception of `import_config` is answered with status 400.
  unfoldable pub import_gateway_config : Text → Reads → Gateway W → Result GatewayConfig × Gateway W
  unfolding import_config install redact_config
  import_gateway_config bundle reads s = elim (import_config lib.pydantic lib.json bundle lib.box) [
    | raise e ↦ (raise e, s)
    | ok config ↦ (redact_config lib.pydantic config, install config reads s)
  ]
