-- ===== src/Queue/Processor/Attempts.antt =====
-- What one attempt of src/msgate/queue/processor.py does to its message, stated by the outcome.
use msgate.Prelude.{
  ℕ, ◌+◌, ◌≤◌, ◌<◌, ◌≡◌, ◌≢◌, ◌↔◌, refl, subst, ◌⊎◌, inl, inr, Bool, true, false, ◌&&◌, Option,
  none, some, Text, Bool-cases, arith, length, take, length-take, ltb,
}
use mathlib.Core.Option.{some-injective}
use msgate.Prelude.Results.{Exception, ok, raise}
use msgate.Config.{GatewayConfig}
use msgate.Drivers.{
  SendResult, SendRequest, Sending, failing, EwsClient, MailDriver, resolve_driver, label,
}
use msgate.Drivers
use msgate.Events.{EventHub}
use msgate.Queue.Backoff.{is_retriable_error, default_backoff}
use msgate.Queue.Backoff.Delay.{default_backoff_bounds}
use msgate.Queue.Repository.{
  sent, retrying, failed, MessageRow, Table, SecretBox, get_message, microseconds, always,
  mark_failed,
}
use msgate.Queue.Repository.Lookup.{DistinctIds}
use msgate.Queue.Processor.{
  Readings, SendFn, Attempt, settle, deliver, process_row, make_request, call_driver, max_attempts,
}
use msgate.Queue.Processor.Settling.{settled, settle-Rewrites}
use msgate.Queue.Repository.Rewriting.{Rewrites, update-Rewrites}

-- The row after an attempt whose driver call had the given outcome.
pub record Settles (u : ℕ → Bool) (t : Readings) (outcome : Sending) (old new : MessageRow)
    : Type 0 where
  -- Sent exactly if the driver sent it.
  pub sent_iff : (new.status ≡ sent) ↔ ((r : SendResult) × (outcome ≡ Drivers.sent r))
  -- To be tried again exactly if the error is a passing one and attempts are left.
  pub retrying_iff : (new.status ≡ retrying) ↔ (
      (err : Text) × (outcome ≡ failing err)
      × (is_retriable_error u err ≡ true)
      × (old.attempts < max_attempts))
  pub failed_iff : (new.status ≡ failed) ↔ (
      (err : Text) × (outcome ≡ failing err)
      × ((is_retriable_error u err ≡ false) ⊎ (max_attempts ≤ old.attempts)))
  -- A retry is due after 5 to 300 seconds, and only a retry is due at all.
  pub due_later :
      new.status ≡ retrying
      → (due : ℕ) × (new.next_retry_at ≡ some due)
        × (t.finished + microseconds 5 ≤ due)
        × (due ≤ t.finished + microseconds 300)
  pub not_due : new.status ≢ retrying → new.next_retry_at ≡ none
  pub error_capped : (e : Text) → new.last_error ≡ some e → length e ≤ 2000
  pub same_attempts : new.attempts ≡ old.attempts
  pub same_mail :
      (new.id ≡ old.id)
      × (new.sender ≡ old.sender)
      × (new.recipients ≡ old.recipients)
      × (new.mime_payload ≡ old.mime_payload)
      × (new.ews_username ≡ old.ews_username)
      × (new.ews_password_enc ≡ old.ews_password_enc)
      × (new.created_at ≡ old.created_at)

capped : (n : ℕ) (err e : Text) → some (take n err) ≡ some e → length e ≤ n
capped n err e h =
    subst (λ x. length x ≤ n) (some-injective _ _ h) (omega (arith, length-take n err))

pub settled-Settles :
    (u : ℕ → Bool) (t : Readings) (outcome : Sending) (old : MessageRow)
    → Settles u t outcome old (settled u t outcome old)
settled-Settles u t (Drivers.sent r) old = record {
  sent_iff = ((λ _. (r, refl)), λ _. refl);
  retrying_iff = ((λ e. absurd (cc)), λ x. absurd (ground (arith, x.1)));
  failed_iff = ((λ e. absurd (cc)), λ x. absurd (ground (arith, x.1)));
  due_later = λ e. absurd (cc);
  not_due = λ _. refl;
  error_capped = λ e h. absurd (cc);
  same_attempts = refl;
  same_mail = (refl, refl, refl, refl, refl, refl, refl);
}
settled-Settles u t (failing err) old =
    elim (Bool-cases (is_retriable_error u err && ltb old.attempts max_attempts)) [
      | inl e ↦ rw e (record {
        sent_iff = ((λ f. absurd (cc)), λ x. absurd (ground (arith, x.1)));
        retrying_iff = ((λ _. (err, refl, ground arith, ground arith)), λ _. refl);
        failed_iff = ((λ f. absurd (cc)), λ x. absurd (ground (arith, x.1, x.2)));
        due_later = λ _.
            let b = default_backoff_bounds old.attempts in
            (
              t.finished + microseconds (default_backoff old.attempts),
              refl,
              omega arith,
              omega arith,
            );
        not_due = λ n. absurd (n refl);
        error_capped = capped 2000 err;
        same_attempts = refl;
        same_mail = (refl, refl, refl, refl, refl, refl, refl);
      })
      | inr e ↦ rw e (record {
        sent_iff = ((λ f. absurd (cc)), λ x. absurd (ground (arith, x.1)));
        retrying_iff = ((λ f. absurd (cc)), λ x. absurd (ground (arith, x.1, x.2, x.3)));
        failed_iff = ((λ _. (err, refl, ground arith)), λ _. refl);
        due_later = λ f. absurd (cc);
        not_due = λ _. refl;
        error_capped = capped 2000 err;
        same_attempts = refl;
        same_mail = (refl, refl, refl, refl, refl, refl, refl);
      })
    ]

module _ {W : Type 0} (u : ℕ → Bool) (box : SecretBox) (client : EwsClient W)
    (send_fn : Option (SendFn W)) (config : GatewayConfig) (row : MessageRow) (t : Readings)
    (table : Table) (w : W) (hub : Option EventHub) where
  abbrev attempt : Attempt W
  attempt = process_row u box client send_fn config true row t table w hub

  settle_world : (r : Sending) (v : W) → (settle u row t r table v hub).world ≡ v
  unfolding settle
  settle_world (Drivers.sent r) v = refl
  settle_world (failing e) v = ground arith

  settle_sent :
      (s : Sending) (v : W) (r : SendResult)
      → s ≡ Drivers.sent r
      → (settle u row t s table v hub).result ≡ ok (some r)
  unfolding settle
  settle_sent s v r e = ground arith

  settle_failing :
      (s : Sending) (v : W) (err : Text)
      → s ≡ failing err
      → (settle u row t s table v hub).result ≡ ok none
  unfolding settle
  settle_failing s v err e = ground arith

  attempt-ok :
      (request : SendRequest)
      → (resolve_driver client config).is_configured config ≡ true
      → make_request box config row ≡ ok request
      → let called = call_driver client send_fn config request w in
        attempt ≡ settle u row t called.0 table called.1 hub
  unfolding process_row
  attempt-ok request c q = rw (c, q, deliver)

  -- An attempt on a claimed row that is stored under a key of its own, by a configured driver, where
  -- the password and the payload can be read. The row then is what `Settles` says of the outcome of
  -- the driver's call, every other row is as it was, the keys stay distinct, the world is the one
  -- that the call leaves, and the result is that of the call, or none after an error.
  pub attempt-Settles :
      (request : SendRequest)
      → DistinctIds table
      → get_message row.id table ≡ some row
      → (resolve_driver client config).is_configured config ≡ true
      → make_request box config row ≡ ok request
      → let called = call_driver client send_fn config request w in
        ((new : MessageRow) × Settles u t called.0 row new
          × Rewrites row.id new table attempt.table)
        × (attempt.world ≡ called.1)
        × ((r : SendResult) → called.0 ≡ Drivers.sent r → attempt.result ≡ ok (some r))
        × ((e : Text) → called.0 ≡ failing e → attempt.result ≡ ok none)
  attempt-Settles request d h c q = rw (attempt-ok request c q) (
    (
      settled u t (call_driver client send_fn config request w).0 row,
      settled-Settles u t _ row,
      settle-Rewrites u row t _ table _ hub d h,
    ),
    settle_world _ _,
    (λ r e. settle_sent _ _ r e),
    λ e f. settle_failing _ _ e f,
  )

  -- Where the password or the payload cannot be read, the attempt raises, sends nothing and leaves
  -- the table as it was: the row stays in the state in which it was claimed.
  pub attempt_raises :
      (e : Exception)
      → (resolve_driver client config).is_configured config ≡ true
      → make_request box config row ≡ raise e
      → (attempt.result ≡ raise e)
        × (attempt.table ≡ table)
        × (attempt.world ≡ w)
        × (attempt.hub ≡ hub)
  unfolding process_row
  attempt_raises e c q = rw (c, q, deliver) (refl, refl, refl, refl)

  -- Without a configured driver the message fails at once, with the world untouched.
  pub attempt_unconfigured :
      DistinctIds table
      → get_message row.id table ≡ some row
      → (resolve_driver client config).is_configured config ≡ false
      → ((new : MessageRow) × (new.status ≡ failed)
          × (new.next_retry_at ≡ none)
          × (new.attempts ≡ row.attempts)
          × Rewrites row.id new table attempt.table)
        × (attempt.world ≡ w)
        × (attempt.result ≡ ok none)
  unfolding process_row mark_failed
  attempt_unconfigured d h c =
      rw c
        ((_, refl, refl, refl, update-Rewrites always _ row table (λ x. refl) d h refl), refl, refl)
