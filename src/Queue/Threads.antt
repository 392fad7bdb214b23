-- ===== src/Queue/Threads.antt =====
-- The threads of src/msgate/queue/worker.py and of the SMTP server over one table, interleaved in
-- any order. A statement with its commit is one step, and so is a call of the driver. There may be
-- any number of workers; which of them the circuit breaker lets go on is left open, so that every
-- schedule it allows is one of these. The gateway may be killed and started again at any moment.
use msgate.Prelude.{
  ℕ, ◌≡◌, true, false, ◌==◌, Option, none, some, [], ◌∷◌, Text, codes, ◌++◌, if◌then◌else◌,
}
use msgate.Prelude.Results.{Exception, ok, raise}
use msgate.Config.{GatewayConfig}
use msgate.Drivers.{SendRequest, Sending, MailDriver, resolve_driver, label}
use msgate.Events.{EventHub}
use msgate.Queue.Processor.{Readings, Attempt, make_request, call_driver, settle}
use msgate.Queue.Repository.{
  MessageRow, Table, NewMessage, Draw, pending_messages, claim, insert_message, mark_failed,
}
use msgate.Queue.Worker.{WorkerContext}
pub mod Ownership
pub mod Moves
pub mod Safety
pub mod Orphans
pub mod Calls

-- Where a worker stands, with the local variables that are live there.
pub data Pc : Type 0 where
  waiting : Pc
  -- In `claim_next`, after the query and before the update.
  choosing : (id : Text) → Pc
  -- In `process_row`, before the driver is called and after.
  delivering : (row : MessageRow) → Pc
  settling : (row : MessageRow) → (outcome : Sending) → Pc

-- The row that a worker has claimed and not let go.
abbrev pub holds : Pc → Option MessageRow
holds (delivering row) = some row
holds (settling row outcome) = some row
holds _ = none

pub record Shared (W : Type 0) : Type 0 where
  pub table : Table
  pub world : W
  pub hub : Option EventHub

-- One step of one worker.
pub data Move {W : Type 0} (c : WorkerContext W) (s : Shared W) : Pc → Shared W → Pc → Type 0 where
  choose :
      {row : MessageRow} (now : ℕ)
      → pending_messages now 1 s.table ≡ row ∷ []
      → Move c s waiting s (choosing row.id)
  take :
      {id : Text} {row : MessageRow} {table : Table} (now : ℕ)
      → claim id now s.table ≡ (some row, table)
      → Move c s (choosing id) (record s { table = table }) (delivering row)
  lose :
      {id : Text} {table : Table} (now : ℕ)
      → claim id now s.table ≡ (none, table)
      → Move c s (choosing id) (record s { table = table }) waiting
  call :
      {row : MessageRow} {request : SendRequest} (config : GatewayConfig)
      → (resolve_driver c.client config).is_configured config ≡ true
      → make_request c.box config row ≡ ok request
      → Move c s
          (delivering row)
          (record s { world = (call_driver c.client c.send_fn config request s.world).1 })
          (settling row (call_driver c.client c.send_fn config request s.world).0)
  finish :
      {row : MessageRow} {outcome : Sending} (t : Readings)
      → Move c s
          (settling row outcome)
          (record s {
            table = (settle c.unicode_word row t outcome s.table s.world s.hub).table;
            hub = (settle c.unicode_word row t outcome s.table s.world s.hub).hub;
          })
          waiting
  -- An exception before the driver's call ends the tick of the worker.
  crash :
      {row : MessageRow} {e : Exception} (config : GatewayConfig)
      → (resolve_driver c.client config).is_configured config ≡ true
      → make_request c.box config row ≡ raise e
      → Move c s (delivering row) s waiting
  refuse :
      {row : MessageRow} (config : GatewayConfig) (now : ℕ)
      → (resolve_driver c.client config).is_configured config ≡ false
      → Move c s
          (delivering row)
          (record s {
            table =
                mark_failed row
                  (label (resolve_driver c.client config) ++ codes " not configured")
                  now
                  s.table;
          })
          waiting

pub record System (W : Type 0) : Type 0 where
  pub shared : Shared W
  pub pc : ℕ → Pc

abbrev pub update : (ℕ → Pc) → ℕ → Pc → ℕ → Pc
update pc i p j = if i == j then p else pc j

pub data Step {W : Type 0} (c : WorkerContext W) (s : System W) : System W → Type 0 where
  works :
      (i : ℕ) {m : Shared W} {p : Pc}
      → Move c s.shared (s.pc i) m p
      → Step c s (record { shared = m; pc = update s.pc i p })
  accepts :
      {row : MessageRow} {table : Table} (m : NewMessage) (d : Draw)
      → insert_message c.box m d s.shared.table ≡ ok (row, table)
      → Step c s (record { shared = record s.shared { table = table }; pc = s.pc })
  restarts : Step c s (record { shared = s.shared; pc = λ i. waiting })

-- A new gateway: no messages, and every worker waits.
abbrev pub start : {W : Type 0} → W → Option EventHub → System W
start w hub = record { shared = record { table = []; world = w; hub = hub }; pc = λ i. waiting }

-- Any number of steps.
pub data Steps {W : Type 0} (c : WorkerContext W) (s : System W) : System W → Type 0 where
  none_yet : Steps c s s
  then_one : {t u : System W} → Steps c s t → Step c t u → Steps c s u

abbrev pub Reach : {W : Type 0} → WorkerContext W → System W → Type 0
Reach {W} c s = (w : W) × (hub : Option EventHub) × Steps c (start w hub) s
