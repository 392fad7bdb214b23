-- ===== src/Metrics.antt =====
-- src/msgate/observability/metrics.py: the counters and gauges. Each method runs under the
-- registry's lock, so a call is one step. Latencies are whole microseconds.
use msgate.Prelude.{ℕ, ◌+◌, ◌-◌, Bool, Text, codes, text_eq, ltb, if◌then◌else◌}

pub record MetricsRegistry : Type 0 where
  pub messages_sent : ℕ
  pub messages_failed : ℕ
  pub messages_retried : ℕ
  pub smtp_connections : ℕ
  pub smtp_deferred : ℕ
  pub auth_failures : ℕ
  pub queue_pending : ℕ
  pub in_flight : ℕ
  pub send_latency_sum : ℕ
  pub send_latency_count : ℕ
  pub send_latency_max : ℕ
  pub backend_up : ℕ
  pub circuit_open : ℕ

unfoldable pub new_metrics : MetricsRegistry
new_metrics = record {
  messages_sent = 0;
  messages_failed = 0;
  messages_retried = 0;
  smtp_connections = 0;
  smtp_deferred = 0;
  auth_failures = 0;
  queue_pending = 0;
  in_flight = 0;
  send_latency_sum = 0;
  send_latency_count = 0;
  send_latency_max = 0;
  backend_up = 1;
  circuit_open = 0;
}

unfoldable pub inc_sent : MetricsRegistry → MetricsRegistry
inc_sent m = record m { messages_sent = m.messages_sent + 1 }

unfoldable pub inc_failed : MetricsRegistry → MetricsRegistry
inc_failed m = record m { messages_failed = m.messages_failed + 1 }

unfoldable pub inc_retried : MetricsRegistry → MetricsRegistry
inc_retried m = record m { messages_retried = m.messages_retried + 1 }

unfoldable pub inc_auth_failure : MetricsRegistry → MetricsRegistry
inc_auth_failure m = record m { auth_failures = m.auth_failures + 1 }

unfoldable pub inc_smtp_deferred : MetricsRegistry → MetricsRegistry
inc_smtp_deferred m = record m { smtp_deferred = m.smtp_deferred + 1 }

unfoldable pub inc_in_flight : MetricsRegistry → MetricsRegistry
inc_in_flight m = record m { in_flight = m.in_flight + 1 }

-- `max(0, self.in_flight - 1)`; subtraction on ℕ stops at zero by itself.
unfoldable pub dec_in_flight : MetricsRegistry → MetricsRegistry
dec_in_flight m = record m { in_flight = m.in_flight - 1 }

unfoldable pub observe_send_latency : ℕ → MetricsRegistry → MetricsRegistry
observe_send_latency t m = record m {
  send_latency_sum = m.send_latency_sum + t;
  send_latency_count = m.send_latency_count + 1;
  send_latency_max = if ltb m.send_latency_max t then t else m.send_latency_max;
}

unfoldable pub set_queue_pending : ℕ → MetricsRegistry → MetricsRegistry
set_queue_pending count m = record m { queue_pending = count }

unfoldable pub set_backend_up : Bool → MetricsRegistry → MetricsRegistry
set_backend_up up m = record m { backend_up = if up then 1 else 0 }

unfoldable pub set_circuit_open : Bool → MetricsRegistry → MetricsRegistry
set_circuit_open tripped m = record m { circuit_open = if tripped then 1 else 0 }

unfoldable pub on_event : Text → MetricsRegistry → MetricsRegistry
unfolding inc_sent inc_failed inc_retried inc_auth_failure
on_event kind m =
    if text_eq kind (codes "auth.fail")
    then inc_auth_failure m
    else if text_eq kind (codes "queue.sent")
    then inc_sent m
    else if text_eq kind (codes "queue.failed")
    then inc_failed m
    else if text_eq kind (codes "queue.retry")
    then inc_retried m
    else m
