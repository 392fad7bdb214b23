-- ===== src/Ops.antt =====
-- src/msgate/ops: how loaded the gateway is, and who is told.
use msgate.Prelude.{Bool, Text}
use msgate.Prelude.Ints.{ℤ}
pub mod Capacity
pub mod AlertMail
pub mod Watcher
pub mod Digest

-- src/msgate/ops/alerts_config.py
pub record OpsAlertsConfig : Type 0 where
  pub admin_email : Text
  pub webhook_url : Text
  pub email_alerts_enabled : Bool
  pub queue_warn_pending : ℤ
  pub queue_critical_pending : ℤ
  pub queue_warn_age_seconds : ℤ
  pub alert_cooldown_seconds : ℤ
  pub digest_daily_enabled : Bool
  pub digest_weekly_enabled : Bool
  pub digest_subject : Text
  pub digest_include_body : Bool
  pub digest_hour_utc : ℤ
  pub digest_weekday : ℤ
