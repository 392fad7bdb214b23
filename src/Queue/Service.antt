-- ===== src/Queue/Service.antt =====
-- src/msgate/queue/service.py: what SMTP and the API ask of the queue. The environment of the
-- process, the subject that Python's `email` package reads from a message, and the draw of an
-- identifier, a nonce and the time are arguments.
use msgate.Prelude.{
  ℕ, zero, suc, Bool, true, false, ◌&&◌, Option, none, some, List, [], ◌∷◌, ◌++◌, map, Text, codes,
  text_eq, leb, if◌then◌else◌, any,
}
use msgate.Prelude.Base64.{Bytes}
use msgate.Prelude.Ints.{Environ, get_env, show_ℕ}
use msgate.Prelude.Results.{Exception, Result, ok, raise, ◌>>=◌}
use msgate.Prelude.Texts.{strip, lower}
use msgate.Events.{EventHub, announce}
use msgate.Metrics.{MetricsRegistry, inc_smtp_deferred}
use msgate.Queue.Breaker.{CircuitBreaker, CircuitState, is_open, read_state}
use msgate.Queue.Repository.{
  MessageStatus, MessageRow, Table, SecretBox, NewMessage, Draw, insert_message, count_pending,
  list_messages,
}
use mathlib.Core.Option
pub mod Acceptance

-- What the service shares with the workers and the SMTP server.
pub record ServiceState : Type 0 where
  pub table : Table
  pub hub : Option EventHub
  pub metrics : Option MetricsRegistry
  pub circuit : Option CircuitBreaker
  pub woken : Bool

pub data Deferral : Type 0 where
  circuit_tripped : Deferral
  queue_full : ℕ → ℕ → Deferral

-- The SMTP reply; the dash is U+2014.
unfoldable pub deferral_text : Deferral → Text
deferral_text circuit_tripped = codes "451 temporary failure: outbound circuit open — try later"
deferral_text (queue_full pending limit) =
    codes "452 insufficient storage: queue full ("
    ++ (show_ℕ pending ++ (codes "/" ++ (show_ℕ limit ++ codes ") — try later")))

abbrev pub truthy : List Text
truthy = codes "1" ∷ codes "true" ∷ codes "yes" ∷ codes "on" ∷ []

unfoldable pub reject_circuit : Environ → Bool
reject_circuit environ =
    let setting =
      lower (strip (get_env environ (codes "MSGATE_SMTP_REJECT_ON_CIRCUIT") (codes "true"))) in
    any (text_eq setting) truthy

-- The test of the circuit, whose state is read only if the setting asks for it.
unfoldable pub circuit_blocks : Bool → ℕ → Option CircuitBreaker → Bool × Option CircuitBreaker
circuit_blocks reject now none = (false, none)
circuit_blocks reject now (some b) =
    let (state, b') = read_state now b in
    if reject then (is_open state, some b') else (false, some b)

unfoldable pub check_backpressure : Bool → ℕ → ℕ → ServiceState → Option Deferral × ServiceState
unfolding circuit_blocks
check_backpressure reject now max_pending s =
    let (blocked, circuit) = circuit_blocks reject now s.circuit in
    let s' = record s { circuit = circuit } in
    let deferred = record s' { metrics = Option.map inc_smtp_deferred s.metrics } in
    let pending = count_pending s.table in
    if blocked
    then (some circuit_tripped, deferred)
    else if leb max_pending pending
    then (some (queue_full pending max_pending), deferred)
    else (none, s')

pub record AcceptResult : Type 0 where
  pub message_id : Text
  pub status : MessageStatus
  pub delivered : Bool

abbrev pub accept_result : MessageRow → AcceptResult
accept_result row = record { message_id = row.id; status = row.status; delivered = false }

-- The state once the row is committed: the event is out and the workers are woken.
abbrev pub announced : MessageRow → Table → NewMessage → Draw → ServiceState → ServiceState
announced row table m d s = record s {
  table = table;
  hub =
      announce (codes "smtp.data") (codes "SMTP accepted " ++ (row.id ++ codes " → queued"))
        ((codes "message_id", row.id)
          ∷ (codes "mail_from", m.sender)
          ∷ (codes "subject", m.subject)
          ∷ [])
        d.now s.hub;
  woken = true;
}

unfoldable pub accept_smtp :
    SecretBox → NewMessage → Draw → ServiceState → Result (AcceptResult × ServiceState)
accept_smtp box m d s = do
  (row, table) ← insert_message box m d s.table
  ok (accept_result row, announced row table m d s)

-- A test message of the API; `mime` is what `build_mime_from_test` makes of the form.
unfoldable pub submit_test :
    SecretBox
    → Text
    → List Text
    → Text
    → Bytes
    → Text
    → Text
    → Draw
    → ServiceState
    → Result (AcceptResult × ServiceState)
unfolding accept_smtp
submit_test box sender recipients subject mime ews_username password d s =
    accept_smtp box
      (record {
        client_ip = codes "api";
        raw_auth_user = ews_username;
        sanitized_user = ews_username;
        sender = sender;
        recipients = recipients;
        subject = subject;
        mime_bytes = mime;
        ews_username = ews_username;
        password = password;
      })
      d s

-- `row_to_record` of src/msgate/queue/repository.py.
pub record MessageRecord : Type 0 where
  pub id : Text
  pub client_ip : Text
  pub raw_auth_user : Text
  pub sanitized_user : Text
  pub sender : Text
  pub recipients : List Text
  pub subject : Text
  pub status : MessageStatus
  pub attempts : ℕ
  pub last_error : Option Text
  pub created_at : ℕ
  pub updated_at : ℕ

unfoldable pub row_to_record : MessageRow → MessageRecord
row_to_record row = record {
  id = row.id;
  client_ip = row.client_ip;
  raw_auth_user = row.raw_auth_user;
  sanitized_user = row.sanitized_user;
  sender = row.sender;
  recipients = row.recipients;
  subject = row.subject;
  status = row.status;
  attempts = row.attempts;
  last_error = row.last_error;
  created_at = row.created_at;
  updated_at = row.updated_at;
}

unfoldable pub list_queue : Option MessageStatus → ℕ → ServiceState → List MessageRecord
unfolding row_to_record
list_queue status limit s = map row_to_record (list_messages status limit s.table)

unfoldable pub pending_count : ServiceState → ℕ
pending_count s = count_pending s.table
