-- ===== src/Api/Dashboard.antt =====
-- The figures of the dashboard and the readiness of the gateway: src/msgate/api/stats.py and
-- src/msgate/api/routes/health.py.
use msgate.Prelude.{
  ℕ, ◌-◌, ◌*◌, ◌<◌, ◌≡◌, refl, Bool, true, false, ◌&&◌, Option, some, [], ◌∷◌, Text, codes, leb,
  filter, length, All, arith, if◌then◌else◌,
}
use msgate.Prelude.Texts.{is_empty}
use msgate.Config.{GatewayConfig}
use msgate.Drivers.{EwsClient, HealthResult, label, resolve_driver, check_backend_health}
use msgate.Ops.AlertMail.{given_or}
use msgate.Ops.Digest.{day_length, day_of}
use msgate.Ops.Digest.Report.{count_status, collect_digest}
use msgate.Ops.Digest.Schedule.{daily, build, window_for}
use msgate.Queue.Repository.{
  MessageStatus, sent, failed, MessageRow, Table, status_eq, count_pending,
}

pub record DashboardStats : Type 0 where
  pub sent_today : ℕ
  pub queue_pending : ℕ
  pub failed_24h : ℕ
  pub auth_errors_24h : ℕ
  pub backend_latency_ms : ℕ
  pub smtp_port : ℕ
  pub backend_name : Text
  pub backend_connected : Bool
  pub ews_connected : Bool

-- `status = … AND updated_at >= start`
abbrev pub is_since : MessageStatus → ℕ → MessageRow → Bool
is_since status start r = status_eq r.status status && leb start r.updated_at

unfoldable pub count_since : MessageStatus → ℕ → Table → ℕ
count_since status start table = length (filter (is_since status start) table)

-- The keyword arguments of `compute_stats`.
pub record StatsInput : Type 0 where
  pub pending : ℕ
  pub auth_errors : ℕ
  pub backend_latency_ms : ℕ
  pub smtp_port : ℕ
  pub backend_name : Text
  pub backend_connected : Bool

-- The clock is read twice: for the beginning of the day, and for the last 24 hours.
unfoldable pub compute_stats : ℕ → ℕ → StatsInput → Table → DashboardStats
unfolding count_since
compute_stats now now' i table = record {
  sent_today = count_since sent (day_of now * day_length) table;
  queue_pending = i.pending;
  failed_24h = count_since failed (now' - day_length) table;
  auth_errors_24h = i.auth_errors;
  backend_latency_ms = i.backend_latency_ms;
  smtp_port = i.smtp_port;
  backend_name = i.backend_name;
  backend_connected = i.backend_connected;
  ews_connected = i.backend_connected;
}

pub record HealthStatus : Type 0 where
  pub status : Text
  pub smtp_server : Bool
  pub exchange_backend : Bool
  pub backend : Text
  pub backend_ok : Bool
  pub backend_latency_ms : ℕ
  pub backend_detail : Option Text
  pub queue_pending : ℕ

abbrev pub healthy_text : Bool → Text
healthy_text true = codes "healthy"
healthy_text false = codes "degraded"

unfoldable pub healthz : Bool → Text
healthz smtp_ok = if smtp_ok then codes "ok" else codes "degraded"

abbrev pub detail_or_error : HealthResult → Option Text
detail_or_error h = if is_empty h.detail then h.error else some h.detail

-- `readyz`: the status code and the body, with the drivers' world.
unfoldable pub readyz :
    {W : Type 0} → EwsClient W → GatewayConfig → Bool → Table → W → ℕ × HealthStatus × W
unfolding check_backend_health resolve_driver count_pending
readyz client cfg smtp_ok table w =
    let (health, w') = check_backend_health client cfg w in
    let fine = smtp_ok && health.healthy in
    (
      if fine then 200 else 503,
      record {
        status = healthy_text fine;
        smtp_server = smtp_ok;
        exchange_backend = health.healthy;
        backend = given_or (some health.driver) (label (resolve_driver client cfg));
        backend_ok = health.healthy;
        backend_latency_ms = health.latency_ms;
        backend_detail = detail_or_error health;
        queue_pending = count_pending table;
      },
      w',
    )

abbrev pub Before : ℕ → MessageRow → Type 0
Before end r = r.updated_at < end

count_since-count_status :
    (status : MessageStatus) (start end : ℕ) (table : Table)
    → All (Before end) table
    → count_since status start table ≡ count_status status start end table
unfolding count_since count_status
count_since-count_status status start end [] h = refl
count_since-count_status status start end (r ∷ rs) h =
    let rest = count_since-count_status status start end rs h.1 in ground (arith, rest, h.0)

-- The dashboard and the digest that is made at the same time agree, where the table holds no change
-- of that instant or later: both count the same failures of the last day, and the deliveries of today
-- on the dashboard are those of a digest of today.
pub compute_stats-build :
    (now : ℕ) (i : StatsInput) (table : Table) (period : Text)
    → All (Before now) table
    → ((compute_stats now now i table).failed_24h ≡ (build daily now table).failed_count)
      × ((compute_stats now now i table).sent_today
          ≡ (collect_digest period (day_of now * day_length) now table).sent_count)
unfolding compute_stats build collect_digest window_for
compute_stats-build now i table period h = (
  count_since-count_status failed (now - day_length) now table h,
  count_since-count_status sent (day_of now * day_length) now table h,
)
