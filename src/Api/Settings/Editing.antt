-- ===== src/Api/Settings/Editing.antt =====
-- A client that edits the configuration by src/msgate/api/routes/config.py.
use msgate.Prelude.{◌≡◌, refl, some}
use msgate.Prelude.Results.{ok}
use msgate.Config.{GatewayConfig}
use msgate.Config.Validation.Models.{Valid}
use msgate.Config.Store.{load_config}
use msgate.Config.Store.Masking.{HiddenEws, HiddenGraph, merge_config_update-redact_config}
use msgate.Config.Store.Secrets.{load_config-save_config}
use msgate.Api.Settings.{Gateway, Libraries, Reads, try_tls, install, get_config, put_config}

module _ {W : Type 0} (lib : Libraries W) where
  -- A client that reads a valid configuration and sends it back unchanged sees no secret and changes
  -- none: the gateway runs on with the configuration that it had, and stores it so that a restart
  -- loads it, whatever was stored before.
  pub put_config-get_config :
      (reads : Reads) (s : Gateway W)
      → Valid lib.pydantic s.runtime
      → (seen : GatewayConfig) × (after : Gateway W) × (get_config lib s ≡ ok seen)
        × (put_config lib seen reads s ≡ (ok seen, after))
        × (after.runtime ≡ s.runtime)
        × (load_config lib.pydantic lib.box after.row ≡ ok (some s.runtime))
        × HiddenEws seen.ews
        × HiddenEws seen.ews_failover
        × HiddenGraph seen.graph
  unfolding get_config put_config install
  put_config-get_config reads s v =
      let (seen, read, merged, h1, h2, h3) =
        merge_config_update-redact_config lib.pydantic s.runtime v in
      let after = install lib s.runtime reads (try_tls lib s.runtime s) in
      (
        seen,
        after,
        read,
        rw (merged, put_config) (rw read refl),
        refl,
        load_config-save_config lib.box lib.pydantic reads.nonces s.runtime
            (try_tls lib s.runtime s).row v,
        h1,
        h2,
        h3,
      )
