-- ===== src/Ops/Watcher.antt =====
-- src/msgate/ops/watcher.py: one tick of the watcher. The mail drivers' client and the email package
-- are parameters; the clocks are arguments, in microseconds. The rows, the configuration and the
-- settings are those of the tick.
use msgate.Prelude.{
  ℕ, zero, suc, ◌+◌, max, Bool, true, false, not, ◌&&◌, ◌||◌, Option, none, some, List, [], ◌∷◌,
  ◌++◌, map, Text, codes, leb, is_some, if◌then◌else◌,
}
use msgate.Prelude.Base64.{Bytes}
use msgate.Prelude.Ints.{ℤ, pos, negsuc, at_least, show_ℕ}
use msgate.Prelude.Texts.{strip, is_empty}
use msgate.Config.{EwsConfig, GatewayConfig}
use msgate.Drivers.{
  SendRequest, Sending, sent, failing, EwsClient, resolve_driver, check_backend_health,
}
use msgate.Events.{EventHub, TrafficEvent, publish_sync}
use msgate.Metrics.{MetricsRegistry, set_queue_pending, set_circuit_open, set_backend_up}
use msgate.Queue.Breaker.{CircuitBreaker, is_open, read_state}
use msgate.Queue.Repository.{Table, count_pending, microseconds}
use msgate.Ops.{OpsAlertsConfig}
use msgate.Ops.Capacity.{
  Level, fine, warn, critical, CapacityStatus, reason_text, evaluate_capacity, is_fine,
}
use msgate.Ops.AlertMail.{Composer, level_text, given_or, send_capacity_alert}
pub mod Spacing

pub record Watcher (W : Type 0) : Type 0 where
  pub last_email_at : ℕ
  pub last_level : Level
  pub capacity_status : Option CapacityStatus
  pub circuit : CircuitBreaker
  pub metrics : MetricsRegistry
  pub events : EventHub
  pub world : W

-- What a tick reads: the clocks (the wall clock, and the monotonic one when the circuit is read, when
-- the metrics are refreshed, before and after an alert), the table, the configuration and the
-- settings.
pub record Inputs : Type 0 where
  pub now : ℕ
  pub clock : ℕ
  pub clock_metrics : ℕ
  pub asked_at : ℕ
  pub sent_at : ℕ
  pub table : Table
  pub config : GatewayConfig
  pub ops : OpsAlertsConfig

abbrev pub level_eq : Level → Level → Bool
level_eq fine fine = true
level_eq warn warn = true
level_eq critical critical = true
level_eq _ _ = false

abbrev pub join_reasons : List Text → Text
join_reasons [] = []
join_reasons (t ∷ []) = t
join_reasons (t ∷ u ∷ ts) = t ++ codes "; " ++ join_reasons (u ∷ ts)

-- `max(60, cooldown)`, in microseconds.
abbrev pub cooldown_of : OpsAlertsConfig → ℕ
cooldown_of ops = microseconds (at_least 60 ops.alert_cooldown_seconds)

module _ {W : Type 0} where
  -- `_events_needed` and what it guards.
  unfoldable pub announce_level : Inputs → CapacityStatus → Watcher W → Watcher W
  unfolding publish_sync reason_text
  announce_level i status s = if level_eq status.level s.last_level then s else record s {
    events =
        publish_sync
          (record {
            kind =
                if level_eq status.level warn
                then codes "capacity.warn"
                else codes "capacity.critical";
            message =
                given_or (some (join_reasons (map reason_text status.reasons)))
                  (level_text status.level);
            fields =
                (codes "level", level_text status.level)
                ∷ (codes "pending", show_ℕ status.pending)
                ∷ [];
            ts = i.now;
          })
          s.events;
  }

  -- `_email_allowed`; the comparison is written without the difference.
  abbrev pub email_allowed : Inputs → Watcher W → Bool
  email_allowed i s = leb (s.last_email_at + cooldown_of i.ops) i.asked_at

  abbrev pub wants_email : Inputs → CapacityStatus → Watcher W → Bool
  wants_email i status s =
      i.ops.email_alerts_enabled
      && not (is_empty (strip i.ops.admin_email))
      && level_eq status.level critical
      && email_allowed i s

module _ {W : Type 0} (client : EwsClient W) (compose : Composer) where
  -- `AppState.refresh_metrics` of src/msgate/app/state.py.
  unfoldable pub refresh_metrics : Inputs → Watcher W → Watcher W
  unfolding check_backend_health count_pending read_state
  refresh_metrics i s =
      let (state, circuit) = read_state i.clock_metrics s.circuit in
      let (health, w) = check_backend_health client i.config s.world in
      record s {
        circuit = circuit;
        world = w;
        metrics = set_backend_up health.healthy (
            set_circuit_open (is_open state) (set_queue_pending (count_pending i.table) s.metrics));
      }

  -- Whether the alert was sent, too.
  unfoldable pub email_alert : Inputs → CapacityStatus → Watcher W → Bool × Watcher W
  unfolding send_capacity_alert
  email_alert i status s =
      if wants_email i status s
      then (let (done, w) =
            send_capacity_alert client compose i.config status (strip i.ops.admin_email) s.world in
          (
            done,
            record s { world = w; last_email_at = if done then i.sent_at else s.last_email_at },
          ))
      else (false, s)

  -- `_tick` from the refreshed metrics on.
  unfoldable pub report_level : Inputs → CapacityStatus → Watcher W → Bool × Watcher W
  unfolding announce_level email_alert
  report_level i status s =
      if is_fine status.level
      then (false, record s { last_level = fine })
      else (let (done, s') = email_alert i status (announce_level i status s) in
          (done, record s' { last_level = status.level }))

  -- `_tick`, with whether it sent an alert.
  unfoldable pub tick : Inputs → Watcher W → Bool × Watcher W
  unfolding evaluate_capacity refresh_metrics report_level
  tick i s =
      let (status, circuit) =
        evaluate_capacity i.now i.clock i.table (count_pending i.table) s.circuit i.ops in
      report_level i status
        (refresh_metrics i (record s { capacity_status = some status; circuit = circuit }))
