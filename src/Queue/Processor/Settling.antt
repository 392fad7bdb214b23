-- ===== src/Queue/Processor/Settling.antt =====
-- What one attempt of src/msgate/queue/processor.py leaves in the table.
use msgate.Prelude.{
  ℕ, ◌+◌, ◌≡◌, refl, inl, inr, Bool, ◌&&◌, Option, none, some, if◌then◌else◌, Bool-cases, take, ltb,
}
use msgate.Drivers.{Sending, sent, failing}
use msgate.Events.{EventHub}
use msgate.Queue.Backoff.{is_retriable_error, default_backoff}
use msgate.Queue.Repository.{
  MessageStatus, queued, processing, retrying, failed, MessageRow, Table, SecretBox, get_message,
  update_where, always, mark_processing, mark_sent, mark_retry, mark_failed, microseconds,
  can_claim,
}
use msgate.Queue.Repository
use msgate.Queue.Repository.Lookup.{DistinctIds}
use msgate.Queue.Repository.Rewriting.{Rewrites, update-Rewrites}
use msgate.Queue.Processor.{Readings, settle, max_attempts}

-- What becomes of a row that is being processed, by the outcome of the driver's call.
abbrev pub settled : (ℕ → Bool) → Readings → Sending → MessageRow → MessageRow
settled u t (sent r) row = record row {
  status = Repository.sent;
  last_error = none;
  next_retry_at = none;
  updated_at = t.finished;
}
settled u t (failing err) row =
    if is_retriable_error u err && ltb row.attempts max_attempts
    then record row {
      status = retrying;
      last_error = some (take 2000 err);
      next_retry_at = some (t.finished + microseconds (default_backoff row.attempts));
      updated_at = t.stamped;
    }
    else record row {
      status = failed;
      last_error = some (take 2000 err);
      next_retry_at = none;
      updated_at = t.finished;
    }

pub settle-Rewrites :
    {W : Type 0} (u : ℕ → Bool) (row : MessageRow) (t : Readings) (outcome : Sending)
    (table : Table) (w : W) (hub : Option EventHub)
    → DistinctIds table
    → get_message row.id table ≡ some row
    → Rewrites row.id (settled u t outcome row) table (settle u row t outcome table w hub).table
unfolding settle mark_sent mark_retry mark_failed
settle-Rewrites u row t (sent r) table w hub d h =
    update-Rewrites always _ row table (λ x. refl) d h refl
settle-Rewrites u row t (failing err) table w hub d h =
    elim (Bool-cases (is_retriable_error u err && ltb row.attempts max_attempts)) [
      | inl e ↦ rw e (update-Rewrites always _ row table (λ x. refl) d h refl)
      | inr e ↦ rw e (update-Rewrites always _ row table (λ x. refl) d h refl)
    ]
