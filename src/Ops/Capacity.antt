-- ===== src/Ops/Capacity.antt =====
-- src/msgate/ops/capacity.py. Ages are whole microseconds, thresholds whole numbers of any sign.
use msgate.Prelude.{
  ℕ, suc, ◌+◌, ◌-◌, ◌*◌, ◌/◌, ◌%◌, Bool, true, false, ◌&&◌, ◌||◌, Option, none, some, List, [], ◌∷◌,
  ◌++◌, Text, codes, leb, ltb, ◌==◌, if◌then◌else◌, filter, head?,
}
use msgate.Prelude.Ints.{ℤ, pos, negsuc, show_ℕ}
use msgate.Prelude.Sort.{sort}
use msgate.Queue.Breaker.{CircuitBreaker, is_open, read_state}
use msgate.Queue.Repository.{MessageRow, Table, is_pending, older, microseconds}
use msgate.Ops.{OpsAlertsConfig}
use mathlib.Core.Option
pub mod Levels

pub data Level : Type 0 where
  fine warn critical : Level

-- The texts that the status lists.
pub data Reason : Type 0 where
  circuit_is_open : Reason
  depth_critical depth_warn : ℕ → ℤ → Reason
  oldest_age : ℕ → Reason

pub record CapacityStatus : Type 0 where
  pub level : Level
  pub pending : ℕ
  pub oldest_age_seconds : Option ℕ
  pub circuit_open : Bool
  pub reasons : List Reason
  pub hint : Text

abbrev pub waits : MessageRow → Bool
waits r = is_pending r.status

abbrev pub age_at : ℕ → MessageRow → ℕ
age_at now r = now - r.created_at

-- `oldest_pending_age_seconds`
unfoldable pub oldest_pending_age : ℕ → Table → Option ℕ
oldest_pending_age now table = Option.map (age_at now) (head? (sort older (filter waits table)))

-- `count >= threshold`
abbrev pub reaches : ℕ → ℤ → Bool
reaches count (pos n) = leb n count
reaches count (negsuc n) = true

-- `age >= factor * seconds`
abbrev pub reaches_age : ℕ → ℕ → ℤ → Bool
reaches_age age factor (pos n) = leb (microseconds (factor * n)) age
reaches_age age factor (negsuc n) = true

unfoldable pub hint_text : Text
hint_text =
    codes "If this persists after the storm drains: raise MSGATE_QUEUE_WORKERS, "
    ++ codes "or switch to Postgres (MSGATE_DATABASE_URL). See AI-14 docs."

-- The level so far with the reasons so far.
abbrev pub Findings : Type 0
Findings = Level × List Reason

-- `if level == "ok": level = "warn"`
abbrev pub at_least_warn : Level → Level
at_least_warn fine = warn
at_least_warn l = l

unfoldable pub check_circuit : Bool → Findings
check_circuit tripped = if tripped then (critical, circuit_is_open ∷ []) else (fine, [])

unfoldable pub check_depth : ℕ → OpsAlertsConfig → Findings → Findings
check_depth pending ops (level, reasons) =
    if reaches pending ops.queue_critical_pending
    then (critical, reasons ++ (depth_critical pending ops.queue_critical_pending ∷ []))
    else if reaches pending ops.queue_warn_pending
    then (at_least_warn level, reasons ++ (depth_warn pending ops.queue_warn_pending ∷ []))
    else (level, reasons)

unfoldable pub check_age : Option ℕ → OpsAlertsConfig → Findings → Findings
check_age none ops findings = findings
check_age (some age) ops (level, reasons) =
    if reaches_age age 1 ops.queue_warn_age_seconds
    then (
      if reaches_age age 3 ops.queue_warn_age_seconds then critical else at_least_warn level,
      reasons ++ (oldest_age age ∷ []),
    )
    else (level, reasons)

abbrev pub is_fine : Level → Bool
is_fine fine = true
is_fine _ = false

-- The breaker's state is read at `clock`, the oldest age at `now`. Reading may change the breaker.
unfoldable pub evaluate_capacity :
    ℕ → ℕ → Table → ℕ → CircuitBreaker → OpsAlertsConfig → CapacityStatus × CircuitBreaker
unfolding oldest_pending_age check_circuit check_depth check_age read_state hint_text
evaluate_capacity now clock table pending circuit ops =
    let age = oldest_pending_age now table in
    let (state, circuit') = read_state clock circuit in
    let (level, reasons) =
      check_age age ops (check_depth pending ops (check_circuit (is_open state))) in
    (
      record {
        level = level;
        pending = pending;
        oldest_age_seconds = age;
        circuit_open = is_open state;
        reasons = reasons;
        hint = if is_fine level then [] else hint_text;
      },
      circuit',
    )

-- `f"{age:.0f}"` rounds to the nearest whole second, a half to the even one.
unfoldable pub rounded : ℕ → ℕ
rounded age =
    let q = age / 1000000 in
    let r = age % 1000000 in
    if ltb (2 * r) 1000000 then q else if ltb 1000000 (2 * r) then q + 1 else q + q % 2

abbrev pub show_ℤ : ℤ → Text
show_ℤ (pos n) = show_ℕ n
show_ℤ (negsuc n) = b'-' ∷ show_ℕ (suc n)

unfoldable pub reason_text : Reason → Text
unfolding rounded
reason_text circuit_is_open = codes "Outbound circuit breaker is open (Exchange send failures)"
reason_text (depth_critical pending threshold) =
    codes "Queue depth " ++ show_ℕ pending ++ codes " ≥ critical threshold " ++ show_ℤ threshold
reason_text (depth_warn pending threshold) =
    codes "Queue depth " ++ show_ℕ pending ++ codes " ≥ warn threshold " ++ show_ℤ threshold
reason_text (oldest_age age) =
    codes "Oldest queued message age " ++ show_ℕ (rounded age) ++ codes "s"
