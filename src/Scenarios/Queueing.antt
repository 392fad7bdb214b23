-- ===== src/Scenarios/Queueing.antt =====
-- Runs of the queue.
use msgate.Prelude.{
  ℕ, ◌≤◌, ◌<◌, ◌≡◌, ◌⊎◌, refl, true, false, none, some, [], ◌∷◌, codes, All, arith, Has,
}
use msgate.Prelude.Results.{invalid_base64, raise}
use msgate.Prelude.Base64.{b64decode}
use mathlib.Core.Option
use msgate.Config.{GatewayConfig}
use msgate.Drivers.{SendRequest, resolve_driver}
use msgate.Queue.Breaker.{CircuitBreaker, closed, allow, record_success}
use msgate.Events.{announce}
use msgate.Prelude.Sort.{sort}
use msgate.Queue.Backoff.{is_retriable_error, holds_any, default_backoff}
use msgate.Queue.Worker.{
  WorkerContext, WorkerState, Round, Drained, worked, idle, drain, drain_round,
}
use msgate.Queue.Worker.Progress.{work_left, drain_round_progress, drain_round_idle}
use msgate.Queue.Worker.Termination.{Finished, drain_ends}
use msgate.Queue.Repository.Rewriting.{Rewrites}
use msgate.Queue.Processor.{process_row, make_request, call_driver}
use msgate.Queue.Processor.Attempts.{attempt-Settles, attempt_raises, attempt_unconfigured}
use msgate.Queue.Repository.{
  MessageRow, Table, get_message, claim, claim_next, claimed_at, processing, sent, is_ready,
  mark_retry, mark_sent, get_password, get_mime_bytes,
}
use msgate.Queue.Repository.Claims.{claim_exclusive, claim_next_cases}
use msgate.Queue.Repository.Lookup.{DistinctIds}
use msgate.Scenarios.Samples.{
  unicode_word, box, config, sending, timing_out, no_override, delivered, waiting, again, table,
  readings, row_of,
}

table-DistinctIds : DistinctIds table
unfolding get_message
table-DistinctIds = (refl, (refl, (refl, tt)))

claimed_once :
    claim (codes "msg_b") 60 (claim (codes "msg_b") 50 table).1
    ≡ (none, (claim (codes "msg_b") 50 table).1)
unfolding claim get_message
claimed_once =
    claim_exclusive (codes "msg_b") 50 60 table (claim (codes "msg_b") 50 table).1
      (claimed_at 50 waiting) table-DistinctIds (refl, (refl, (refl, tt))) refl refl

-- The oldest of the two pending rows is claimed.
claims_oldest : (claim_next 50 51 table).0 ≡ some (claimed_at 51 again)
unfolding claim_next sort
claims_oldest = refl

claim_next_cases_example :
    (All (λ r. ¬ (is_ready 50 r ≡ true)) table × (claim_next 50 51 table ≡ (none, table)))
    ⊎ ((r : MessageRow) × Has r table
        × (is_ready 50 r ≡ true)
        × All (λ s. is_ready 50 s ≡ true → r.created_at ≤ s.created_at) table
        × ((claim_next 50 51 table).0 ≡ some (claimed_at 51 r))
        × Rewrites r.id (claimed_at 51 r) table (claim_next 50 51 table).1)
claim_next_cases_example = claim_next_cases 50 51 table table-DistinctIds

abbrev taken : MessageRow
taken = row_of (codes "msg_b") processing 1 20

abbrev taken_table : Table
taken_table = delivered ∷ taken ∷ again ∷ []

taken_table-DistinctIds : DistinctIds taken_table
unfolding get_message
taken_table-DistinctIds = (refl, (refl, (refl, tt)))

abbrev request : SendRequest
request = record {
  auth_username = codes "svc";
  password = codes "pw";
  mail_from = codes "a@example.com";
  rcpt_tos = codes "b@example.com" ∷ [];
  mime_bytes = codes "hi";
  default_sender = none;
}

-- After a time-out the message waits for its second attempt, due five seconds later.
attempt-Settles_example :
    (process_row unicode_word box timing_out no_override config true taken readings taken_table 7
      none).world
    ≡ 8
unfolding get_message resolve_driver make_request get_password get_mime_bytes b64decode call_driver
attempt-Settles_example =
    (attempt-Settles unicode_word box timing_out no_override config taken readings taken_table 7
      none request taken_table-DistinctIds refl refl refl).1

times_out :
    Option.map
      (λ r. r.next_retry_at)
      (get_message
        (codes "msg_b")
        (process_row unicode_word box timing_out no_override config true taken readings taken_table
          7 none).table)
    ≡ some (some 5000040)
unfolding get_message process_row make_request get_password get_mime_bytes b64decode mark_retry
    holds_any default_backoff is_retriable_error announce resolve_driver
times_out = refl

abbrev broken : MessageRow
broken = record taken { mime_payload = some (codes "a") }

undecodable_run :
    (process_row unicode_word box sending no_override config true broken readings
      (broken ∷ [])
      7
      none).result
    ≡ raise invalid_base64
unfolding resolve_driver make_request get_password get_mime_bytes b64decode
undecodable_run =
    (attempt_raises unicode_word box sending no_override config broken readings (broken ∷ []) 7 none
      invalid_base64 refl refl).0

abbrev unconfigured : GatewayConfig
unconfigured = record config { ews = none }

no_backend_run :
    (process_row unicode_word box sending no_override unconfigured true taken readings taken_table 7
      none).world
    ≡ 7
unfolding get_message resolve_driver
no_backend_run =
    (attempt_unconfigured unicode_word box sending no_override unconfigured taken readings
      taken_table 7 none taken_table-DistinctIds refl refl).1

abbrev circuit : CircuitBreaker
circuit = record {
  failure_threshold = 5;
  cooldown = 60;
  failures = 0;
  opened_at = 0;
  state = closed;
}

abbrev context : WorkerContext ℕ
context = record { unicode_word = unicode_word; box = box; client = sending; send_fn = no_override }

abbrev state : WorkerState ℕ
state = record { table = table; world = 0; hub = none; circuit = circuit; metrics = none }

abbrev round : Round
round = record {
  stopping = false;
  config = config;
  allow_at = 50;
  select_at = 50;
  claim_at = 51;
  readings = readings;
  latency = 9;
  failure_at = 52;
}

work_left_sample : work_left table ≡ 16
unfolding work_left
work_left_sample = refl

drain_ends_example :
    (x : Drained ℕ) × (drain context 17 (λ k. round) 0 false state ≡ some x)
    × Finished context (λ k. round) false 0 state x
unfolding work_left
drain_ends_example =
    drain_ends context 17 (λ k. round) 0 false state table-DistinctIds (omega arith)

abbrev after_round : WorkerState ℕ
after_round = record state {
  table =
      delivered
      ∷ waiting
      ∷ record again {
        status = sent;
        attempts = 3;
        last_error = none;
        next_retry_at = none;
        updated_at = 40;
      }
      ∷ [];
  world = 1;
}

round_works : drain_round context round state ≡ worked after_round
unfolding drain_round process_row make_request get_password get_mime_bytes b64decode claim_next
    resolve_driver allow sort mark_sent announce record_success
round_works = refl

round_uses_work : work_left after_round.table < work_left table
round_uses_work =
    (drain_round_progress context round state after_round table-DistinctIds round_works).1

abbrev idle_state : WorkerState ℕ
idle_state = record state { table = delivered ∷ [] }

idle_state-DistinctIds : DistinctIds (delivered ∷ [])
unfolding get_message
idle_state-DistinctIds = (refl, tt)

round_idles : drain_round context round idle_state ≡ idle idle_state
unfolding drain_round allow claim_next sort
round_idles = refl

round_finds_nothing : idle_state.table ≡ delivered ∷ []
round_finds_nothing =
    (drain_round_idle context round idle_state idle_state idle_state-DistinctIds round_idles).0
