-- ===== src/Ops/Digest/Schedule.antt =====
-- src/msgate/ops/digest_state.py and src/msgate/ops/digest_scheduler.py: when digests are due, and
-- the markers of the last ones in the table of settings.
use msgate.Prelude.{
  ℕ, ◌-◌, ◌*◌, Bool, true, false, not, ◌&&◌, Option, none, some, List, [], ◌∷◌, ◌++◌, Text, codes,
  text_eq, ltb, ◌==◌, if◌then◌else◌,
}
use msgate.Prelude.Ints.{ℤ, at_least, at_most}
use msgate.Prelude.Results.{Exception, Result, ok, raise}
use msgate.Prelude.Texts.{is_empty, strip}
use msgate.Config.{GatewayConfig}
use msgate.Drivers.{EwsClient}
use msgate.Ops.{OpsAlertsConfig}
use msgate.Ops.AlertMail.{given_or}
use msgate.Ops.Digest.{Calendar, day_length, day_of, weekday_of, week_of, hour_of}
use msgate.Ops.Digest.Mail.{DigestSendResult, Attaching, send_digest}
use msgate.Ops.Digest.Report.{DigestReport, collect_digest}
use msgate.Queue.Repository.{Table}
pub mod Once

pub record DigestState : Type 0 where
  pub last_daily : Text
  pub last_weekly : Text

-- The fields of a JSON object that are there and hold a text.
pub record StateFields : Type 0 where
  pub last_daily : Option Text
  pub last_weekly : Option Text

-- The JSON of the row under the key "ops_digest_state". A text that is not JSON is not read.
pub record StateJson : Type 0 where
  pub print : DigestState → Text
  pub read : Text → Option StateFields
  pub print_nonblank : (s : DigestState) → Path Bool (is_empty (strip (print s))) false
  pub read-print :
      (s : DigestState)
      → Path
          (Option StateFields)
          (read (print s))
          (some (record { last_daily = some s.last_daily; last_weekly = some s.last_weekly }))

abbrev pub new_state : DigestState
new_state = record { last_daily = []; last_weekly = [] }

abbrev pub of_field : Option Text → Text
of_field none = []
of_field (some t) = t

unfoldable pub load_digest_state : StateJson → Option Text → DigestState
load_digest_state json none = new_state
load_digest_state json (some value) =
    if is_empty (strip value) then new_state else elim (json.read value) [
      | none ↦ new_state
      | some f ↦ record { last_daily = of_field f.last_daily; last_weekly = of_field f.last_weekly }
    ]

unfoldable pub save_digest_state : StateJson → DigestState → Option Text
save_digest_state json state = some (json.print state)

pub data Period : Type 0 where
  daily : Period
  weekly : Period
  manual : Period

abbrev pub period_text : Period → Text
period_text daily = codes "daily"
period_text weekly = codes "weekly"
period_text manual = codes "manual"

-- `window_for`
unfoldable pub window_for : Period → ℕ → ℕ × ℕ
window_for weekly now = (now - 7 * day_length, now)
window_for daily now = (now - day_length, now)
window_for manual now = (now - day_length, now)

-- `max(0, min(23, int(ops.digest_hour_utc)))`, and the weekday in the same way.
abbrev pub due_hour : OpsAlertsConfig → ℕ
due_hour ops = at_least 0 (at_most 23 ops.digest_hour_utc)

abbrev pub due_weekday : OpsAlertsConfig → ℕ
due_weekday ops = at_least 0 (at_most 6 ops.digest_weekday)

-- What a tick reads: the clock, the rows when each digest is made, the configuration, the settings.
pub record Reading : Type 0 where
  pub now : ℕ
  pub daily_table : Table
  pub weekly_table : Table
  pub config : GatewayConfig
  pub ops : OpsAlertsConfig

-- The row of the markers, and the drivers' world.
pub record Scheduler (W : Type 0) : Type 0 where
  pub row : Option Text
  pub world : W

-- What a tick leaves: the periods sent, the exception that ended it, and the state.
pub record Ticked (W : Type 0) : Type 0 where
  pub periods : List Period
  pub exception : Option Exception
  pub next : Scheduler W

module _ (calendar : Calendar) where
  unfoldable pub daily_due : OpsAlertsConfig → DigestState → ℕ → Bool
  daily_due ops st now =
      if ltb (hour_of now) (due_hour ops)
      then false
      else not (text_eq st.last_daily (calendar.date_text (day_of now)))

  unfoldable pub weekly_due : OpsAlertsConfig → DigestState → ℕ → Bool
  weekly_due ops st now =
      if not (weekday_of now == due_weekday ops)
      then false
      else if ltb (hour_of now) (due_hour ops)
      then false
      else not (text_eq st.last_weekly (calendar.week_text (week_of now)))

  -- The markers after a digest.
  abbrev pub marked : Period → ℕ → DigestState → DigestState
  marked daily now st = record st { last_daily = calendar.date_text (day_of now) }
  marked weekly now st = record st { last_weekly = calendar.week_text (week_of now) }
  marked manual now st = st

-- `_build`
unfoldable pub build : Period → ℕ → Table → DigestReport
unfolding window_for collect_digest
build period now table =
    let (start, end) = window_for period now in collect_digest (period_text period) start end table

abbrev pub is_done : Result DigestSendResult → Bool
is_done (raise e) = false
is_done (ok r) = r.done

abbrev pub exception_of : Result DigestSendResult → Option Exception
exception_of (raise e) = some e
exception_of (ok r) = none

module _ {W : Type 0} where
  abbrev pub nothing_due : Scheduler W → Ticked W
  nothing_due s = record { periods = []; exception = none; next = s }

  -- The digest of the week follows unless that of the day has raised.
  abbrev pub followed : Option Exception → Ticked W → Ticked W → Ticked W
  followed (some e) first second = first
  followed none first second = record second { periods = first.periods ++ second.periods }

module _ (calendar : Calendar) where
  -- The state that the weekly test reads: the daily branch sets its marker in it where it succeeds.
  abbrev pub state_after : List Period → ℕ → DigestState → DigestState
  state_after [] now st = st
  state_after (p ∷ ps) now st = marked calendar p now st

module _ {W : Type 0} (calendar : Calendar) (attach : Attaching) (client : EwsClient W)
    (json : StateJson) where
  -- `_dispatch`
  unfoldable pub dispatch_digest :
      GatewayConfig → OpsAlertsConfig → DigestReport → W → Result DigestSendResult × W
  unfolding send_digest
  dispatch_digest config ops report w =
      send_digest calendar attach client config report (strip ops.admin_email)
        (given_or (some ops.digest_subject) (codes "[msgate] {period} digest"))
        ops.digest_include_body w

  -- The body of each `if` of `tick`.
  unfoldable pub send_due : Period → Table → Reading → Scheduler W → Ticked W
  unfolding dispatch_digest build load_digest_state save_digest_state
  send_due period table i s =
      let (answer, w) = dispatch_digest i.config i.ops (build period i.now table) s.world in
      let row' =
        save_digest_state json (marked calendar period i.now (load_digest_state json s.row)) in
      record {
        periods = if is_done answer then period ∷ [] else [];
        exception = exception_of answer;
        next = record { row = if is_done answer then row' else s.row; world = w };
      }

  unfoldable pub try_daily : Reading → Scheduler W → Ticked W
  unfolding send_due daily_due
  try_daily i s =
      if i.ops.digest_daily_enabled && daily_due calendar i.ops (load_digest_state json s.row) i.now
      then send_due daily i.daily_table i s
      else nothing_due s

  unfoldable pub try_weekly : DigestState → Reading → Scheduler W → Ticked W
  unfolding send_due weekly_due
  try_weekly st i s =
      if i.ops.digest_weekly_enabled && weekly_due calendar i.ops st i.now
      then send_due weekly i.weekly_table i s
      else nothing_due s

  unfoldable pub tick_digests : Reading → Scheduler W → Ticked W
  unfolding try_daily try_weekly
  tick_digests i s =
      if is_empty (strip i.ops.admin_email)
      then nothing_due s
      else (let first = try_daily i s in
          let st = state_after calendar first.periods i.now (load_digest_state json s.row) in
          followed first.exception first (try_weekly st i first.next))

  -- `send_manual`
  unfoldable pub send_manual : Period → Reading → W → Result DigestSendResult × W
  unfolding dispatch_digest build
  send_manual period i w =
      if is_empty (strip i.ops.admin_email)
      then (
        ok (record {
          done = false;
          error = codes "Admin alert email is empty — save it under Capacity alerts first.";
        }),
        w,
      )
      else dispatch_digest i.config i.ops (build period i.now i.daily_table) w
