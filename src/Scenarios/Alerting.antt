-- ===== src/Scenarios/Alerting.antt =====
-- A queue that stands still for a quarter of an hour, and the watcher that sees it.
use msgate.Prelude.{ℕ, ◌+◌, ◌*◌, ◌≡◌, refl, true, none, some, List, [], ◌∷◌, codes, length}
use msgate.Prelude.Ints.{pos}
use msgate.Prelude.Sort.{sort}
use msgate.Prelude.Texts.{strip}
use msgate.Events.{EventHub}
use msgate.Metrics.{new_metrics}
use msgate.Queue.Breaker.{CircuitBreaker, new_breaker, read_state, is_open}
use msgate.Ops.{OpsAlertsConfig}
use msgate.Ops.Capacity.{fine, critical, evaluate_capacity, oldest_pending_age, is_fine}
use msgate.Ops.Capacity.Levels.{level_of, null, evaluate_capacity-level_of}
use msgate.Ops.Watcher.{Watcher, Inputs}
use msgate.Ops.AlertMail.{Composer}
use msgate.Ops.Watcher.Spacing.{alerts, Spaced, alerts-Spaced}
use msgate.Scenarios.Samples.{config, sending, table}

abbrev closed_circuit : CircuitBreaker
closed_circuit = new_breaker (λ name. none) (some 5) 60000000

abbrev pub settings : OpsAlertsConfig
settings = record {
  admin_email = codes "ops@example.com";
  email_alerts_enabled = true;
  queue_warn_pending = pos 100;
  queue_critical_pending = pos 500;
  queue_warn_age_seconds = pos 300;
  alert_cooldown_seconds = pos 900;
  webhook_url = [];
  digest_daily_enabled = true;
  digest_weekly_enabled = true;
  digest_subject = codes "[msgate] {period} digest";
  digest_include_body = true;
  digest_hour_utc = pos 6;
  digest_weekday = pos 0;
}

evaluate_capacity-level_of_example :
    ((evaluate_capacity 1000000000 0 table 2 closed_circuit settings).0.level
      ≡ level_of
          (is_open (read_state 0 closed_circuit).0)
          2
          (oldest_pending_age 1000000000 table)
          settings)
    × (null (evaluate_capacity 1000000000 0 table 2 closed_circuit settings).0.reasons
        ≡ is_fine (evaluate_capacity 1000000000 0 table 2 closed_circuit settings).0.level)
evaluate_capacity-level_of_example =
    evaluate_capacity-level_of 1000000000 0 table 2 closed_circuit settings

old_mail : (evaluate_capacity 1000000000 0 table 2 closed_circuit settings).0.level ≡ critical
unfolding evaluate_capacity oldest_pending_age new_breaker read_state sort
old_mail = refl

abbrev quiet_hub : EventHub
quiet_hub = record {
  history_size = 10;
  history = [];
  subscribers = [];
  auth_errors = 0;
  metrics = none;
  webhook_urls = [];
  posted = [];
}

abbrev pub watcher : Watcher ℕ
watcher = record {
  last_email_at = 0;
  last_level = fine;
  capacity_status = none;
  circuit = closed_circuit;
  metrics = new_metrics;
  events = quiet_hub;
  world = 0;
}

abbrev pub email_package : Composer
email_package = record {
  as_bytes = λ sender recipient subject body. subject;
  show_age = λ age. codes "-";
}

-- A tick at a second of the monotonic clock.
abbrev pub tick_at : ℕ → Inputs
tick_at second = record {
  now = 2000000000 + second * 1000000;
  clock = second * 1000000;
  clock_metrics = second * 1000000;
  asked_at = second * 1000000;
  sent_at = second * 1000000 + 5;
  table = table;
  config = config;
  ops = settings;
}

abbrev ticks : List Inputs
ticks = tick_at 1000 ∷ tick_at 1030 ∷ tick_at 1899 ∷ tick_at 1901 ∷ []

alerts-Spaced_example : Spaced 0 (alerts sending email_package ticks watcher)
alerts-Spaced_example = alerts-Spaced sending email_package ticks watcher

two_alerts : length (alerts sending email_package ticks watcher) ≡ 2
unfolding alerts sort strip
two_alerts = refl
