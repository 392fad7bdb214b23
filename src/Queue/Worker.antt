-- ===== src/Queue/Worker.antt =====
-- src/msgate/queue/worker.py: a worker that claims messages and delivers them until it is idle, the
-- circuit is open, or it is told to stop. What the environment decides in a round of the loop (the
-- stop flag, the configuration, the readings of the clocks) is a record; `drain` takes one for each
-- round, and fuel for the rounds.
use msgate.Prelude.{
  ℕ, zero, suc, Bool, true, false, not, Option, none, some, Text, codes, if◌then◌else◌, min, max,
}
use msgate.Prelude.Ints.{ℤ, pos, at_least, at_most, parse_int, Environ, get_env}
use msgate.Prelude.Results.{Exception, Result, ok, raise}
use msgate.Prelude.Texts.{strip, is_empty}
use msgate.Config.{GatewayConfig}
use msgate.Drivers.{SendResult, EwsClient}
use msgate.Events.{EventHub}
use msgate.Metrics.{MetricsRegistry, inc_in_flight, dec_in_flight, observe_send_latency}
use msgate.Queue.Breaker.{CircuitBreaker, allow, record_success, record_failure}
use msgate.Queue.Processor.{Readings, SendFn, Attempt, process_row}
use msgate.Queue.Repository.{
  MessageStatus, queued, processing, sent, failed, retrying, MessageRow, Table, SecretBox,
  claim_next,
}
use msgate.Queue.Processor.{reload}
use mathlib.Core.Option
pub mod Progress
pub mod Crashes
pub mod Termination

-- `_worker_count`: between 1 and 32, and 2 where the setting is blank or malformed.
unfoldable pub worker_count : Environ → ℕ
worker_count environ =
    let stripped = strip (get_env environ (codes "MSGATE_QUEUE_WORKERS") (codes "2")) in
    let raw = if is_empty stripped then codes "2" else stripped in
    let n : ℤ = elim (parse_int raw) [ none ↦ pos 2 | some k ↦ k ] in at_least 1 (at_most 32 n)

-- What a worker is made with.
pub record WorkerContext (W : Type 0) : Type 0 where
  pub unicode_word : ℕ → Bool
  pub box : SecretBox
  pub client : EwsClient W
  pub send_fn : Option (SendFn W)

-- What the workers share.
pub record WorkerState (W : Type 0) : Type 0 where
  pub table : Table
  pub world : W
  pub hub : Option EventHub
  pub circuit : CircuitBreaker
  pub metrics : Option MetricsRegistry

pub record Round : Type 0 where
  pub stopping : Bool
  pub config : GatewayConfig
  pub allow_at : ℕ
  pub select_at : ℕ
  pub claim_at : ℕ
  pub readings : Readings
  pub latency : ℕ
  pub failure_at : ℕ

pub data RoundResult (W : Type 0) : Type 0 where
  idle : WorkerState W → RoundResult W
  worked : WorkerState W → RoundResult W
  crashed : Exception → WorkerState W → RoundResult W

-- The breaker hears of the status in which the row is left.
unfoldable pub report : MessageStatus → ℕ → CircuitBreaker → CircuitBreaker
report sent now b = record_success b
report failed now b = record_failure now b
report retrying now b = record_failure now b
report _ now b = b

-- The `finally` block, and what follows it unless the attempt raised.
unfoldable pub conclude :
    {W : Type 0} → MessageRow → Round → WorkerState W → Attempt W → RoundResult W
unfolding report reload
conclude row r s a =
    let s' = record s {
      table = a.table;
      world = a.world;
      hub = a.hub;
      metrics = Option.map (λ m. observe_send_latency r.latency (dec_in_flight m)) s.metrics;
    } in
    elim a.result [
      | raise e ↦ crashed e s'
      | ok _ ↦
          worked (record s' { circuit = report (reload row a.table).status r.failure_at s.circuit })
    ]

-- One round of the loop of `_drain`, after the stop flag.
unfoldable pub drain_round : {W : Type 0} → WorkerContext W → Round → WorkerState W → RoundResult W
unfolding conclude
drain_round c r s =
    let (allowed, circuit) = allow r.allow_at s.circuit in
    let s₁ = record s { circuit = circuit } in
    if not allowed
    then idle s₁
    else let (claimed, table) = claim_next r.select_at r.claim_at s.table in
      elim claimed [
        | none ↦ idle (record s₁ { table = table })
        | some row ↦
            let s₂ = record s₁ { table = table; metrics = Option.map inc_in_flight s.metrics } in
            conclude row r s₂ (
              process_row c.unicode_word c.box c.client c.send_fn r.config true row r.readings table
                s₂.world s₂.hub)
      ]

pub data Drained (W : Type 0) : Type 0 where
  done : Bool → WorkerState W → Drained W
  failed_with : Exception → WorkerState W → Drained W

-- `_drain`; `none` where the fuel runs out.
unfoldable pub drain :
    {W : Type 0} → WorkerContext W → ℕ → (ℕ → Round) → ℕ → Bool → WorkerState W → Option (Drained W)
drain c zero rounds k did_work s = none
drain c (suc fuel) rounds k did_work s = elim (rounds k).stopping [
  | true ↦ some (done did_work s)
  | false ↦ elim (drain_round c (rounds k) s) [
    | idle s' ↦ some (done did_work s')
    | crashed e s' ↦ some (failed_with e s')
    | worked s' ↦ drain c fuel rounds (suc k) true s'
  ]
]
