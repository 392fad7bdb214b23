-- ===== src/Drivers/Outcomes.antt =====
-- What a send or a health check that succeeds shows of the configuration (src/msgate/drivers).
use msgate.Prelude.{◌≡◌, refl, true, false, some, arith, is_some}
use msgate.Config.{BackendType, ews, graph, gmail, EwsConfig, GatewayConfig}
use msgate.Drivers.{
  SendResult, SendRequest, sent, EwsClient, get_driver, resolve_driver, health_of,
  check_backend_health, blank,
}

module _ {W : Type 0} (client : EwsClient W) where
  send_ok :
      (b : BackendType) (request : SendRequest) (config : GatewayConfig) (w : W) (r : SendResult)
      → ((get_driver client b).send request config w).0 ≡ sent r
      → (b ≡ ews) × (is_some config.ews ≡ true)
  unfolding get_driver
  send_ok ews request config w r h = (refl, ground arith)
  send_ok graph request config w r h = absurd (cc)
  send_ok gmail request config w r h = absurd (cc)

  health_ok :
      (b : BackendType) (config : GatewayConfig) (w : W)
      → (health_of client b config w).0.healthy ≡ true
      → (b ≡ ews)
        × (cfg : EwsConfig) × (config.ews ≡ some cfg)
        × (blank cfg.username ≡ false)
        × (blank cfg.password ≡ false)
  unfolding health_of get_driver
  health_ok ews config w h = ground arith
  health_ok graph config w h = absurd (ground arith)
  health_ok gmail config w h = absurd (ground arith)

  -- Only the EWS backend sends: a send of the configured driver that succeeds shows that the backend
  -- is EWS and that an EWS endpoint is configured.
  pub sent_needs_ews :
      (request : SendRequest) (config : GatewayConfig) (w : W) (r : SendResult)
      → ((resolve_driver client config).send request config w).0 ≡ sent r
      → (config.backend ≡ ews) × (is_some config.ews ≡ true)
  unfolding resolve_driver
  sent_needs_ews request config w r h = send_ok config.backend request config w r h

  -- A health check that reports health shows that the backend is EWS, that an endpoint is configured
  -- and that it has a user name and a password.
  pub healthy_needs_ews :
      (config : GatewayConfig) (w : W)
      → (check_backend_health client config w).0.healthy ≡ true
      → (config.backend ≡ ews)
        × (cfg : EwsConfig) × (config.ews ≡ some cfg)
        × (blank cfg.username ≡ false)
        × (blank cfg.password ≡ false)
  unfolding check_backend_health
  healthy_needs_ews config w h = health_ok config.backend config w h
