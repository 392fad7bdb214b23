-- ===== src/Queue/Worker/Progress.antt =====
-- One round of the loop of src/msgate/queue/worker.py brings the queue nearer to its end.
use msgate.Prelude.{
  ℕ, suc, ◌+◌, ◌-◌, ◌≤◌, ◌<◌, ◌≡◌, refl, ◌⊎◌, inl, inr, Bool, true, Option, some, if◌then◌else◌,
  Bool-cases, arith, All, ltb, ltb→lt, &&_left,
}
use msgate.Config.{GatewayConfig}
use msgate.Prelude.Results.{Result-cases}
use msgate.Drivers.{Sending, failing, EwsClient, MailDriver, resolve_driver}
use msgate.Drivers
use msgate.Queue.Breaker.{allow, is_open, maybe_half_open}
use msgate.Queue.Processor.{Attempt, Readings, SendFn, process_row, make_request, max_attempts}
use msgate.Queue.Processor.Attempts.{attempt-Settles, attempt_raises, attempt_unconfigured, Settles}
use msgate.Queue.Backoff.{is_retriable_error}
use msgate.Events.{EventHub}
use msgate.Queue.Repository.{
  MessageRow, Table, SecretBox, get_message, can_claim, claimed_at, claim_next, is_ready, failed,
}
use msgate.Queue.Repository.Claims.{claim_next_cases}
use msgate.Queue.Repository.Lookup.{DistinctIds, Has-get_message}
use msgate.Queue.Repository.Rewriting.{Rewrites}
use msgate.Queue.Repository.Totals.{total}
use msgate.Metrics.{inc_in_flight}
use mathlib.Core.Option
use msgate.Queue.Worker.{WorkerContext, WorkerState, Round, idle, worked, conclude, drain_round}

-- How many more attempts a row may see: a pending row at least one.
abbrev pub attempts_left : MessageRow → ℕ
attempts_left r = if can_claim r then suc (max_attempts - r.attempts) else 0

unfoldable pub work_left : Table → ℕ
unfolding total
work_left table = total attempts_left table

Settles-left :
    (u : ℕ → Bool) (t : Readings) (o : Sending) (old new : MessageRow)
    → Settles u t o old new
    → attempts_left new ≤ 9 - old.attempts
Settles-left u t (Drivers.sent r) old new s = let e = s.sent_iff.1 (r, refl) in ground arith
Settles-left u t (failing err) old new s = elim (Bool-cases (is_retriable_error u err)) [
  | inl e ↦ elim (Bool-cases (ltb old.attempts max_attempts)) [
    | inl f ↦
        let h = s.retrying_iff.1 (err, refl, e, ltb→lt old.attempts max_attempts f) in
        let g = s.same_attempts in ground arith
    | inr f ↦ let h = s.failed_iff.1 (err, refl, inr (ground arith)) in ground arith
  ]
  | inr e ↦ let h = s.failed_iff.1 (err, refl, inl e) in ground arith
]

Rewrites-left :
    (row new : MessageRow) (table table' : Table)
    → get_message row.id table ≡ some row
    → Rewrites row.id new table table'
    → work_left table' + attempts_left row ≡ work_left table + attempts_left new
unfolding work_left
Rewrites-left row new table table' h r = r.sum_moved attempts_left row h

module _ {W : Type 0} (u : ℕ → Bool) (box : SecretBox) (client : EwsClient W)
    (send_fn : Option (SendFn W)) (config : GatewayConfig) (row : MessageRow) (t : Readings)
    (table : Table) (w : W) (hub : Option EventHub) where
  abbrev after : Table
  after = (process_row u box client send_fn config true row t table w hub).table

  rewritten_left :
      (new : MessageRow)
      → get_message row.id table ≡ some row
      → attempts_left new ≤ 9 - row.attempts
      → Rewrites row.id new table after
      → DistinctIds after × (work_left after ≤ work_left table + (9 - row.attempts))
  rewritten_left new h b r = (r.keys_kept, omega (arith, Rewrites-left row new table after h r))

  attempt_left :
      DistinctIds table
      → get_message row.id table ≡ some row
      → DistinctIds after × (work_left after ≤ work_left table + (9 - row.attempts))
  attempt_left d h = elim (Bool-cases ((resolve_driver client config).is_configured config)) [
    | inl c ↦ elim (Result-cases (make_request box config row)) [
      | inl (request, q) ↦
          let s = attempt-Settles u box client send_fn config row t table w hub request d h c q in
          rewritten_left s.0.0 h (Settles-left u t _ row s.0.0 s.0.1) s.0.2
      | inr (e, q) ↦
          let s = attempt_raises u box client send_fn config row t table w hub e c q in
          (rw s.1 d, rw s.1 (omega arith))
    ]
    | inr c ↦
        let s = attempt_unconfigured u box client send_fn config row t table w hub d h c in
        rewritten_left s.0.0 h (failed_left s.0.0 s.0.1) s.0.4
  ]
    where
      failed_left : (new : MessageRow) → new.status ≡ failed → attempts_left new ≤ 9 - row.attempts
      failed_left new e = ground arith

conclude_table :
    {W : Type 0} (row : MessageRow) (r : Round) (s s' : WorkerState W) (a : Attempt W)
    → conclude row r s a ≡ worked s'
    → s'.table ≡ a.table
unfolding conclude
conclude_table row r s s' a h = ground arith

not_idle :
    {W : Type 0} (row : MessageRow) (r : Round) (s s' : WorkerState W) (a : Attempt W)
    → ¬ (conclude row r s a ≡ idle s')
unfolding conclude
not_idle row r s s' a h = ground arith

claimed_left :
    (now : ℕ) (r : MessageRow)
    → can_claim r ≡ true
    → 9 - (claimed_at now r).attempts < attempts_left r
claimed_left now r h = ground arith

falls :
    (final middle start used left : ℕ)
    → final ≤ middle + used
    → middle + left ≡ start + 0
    → used < left
    → final < start
falls final middle start used left a b c = omega arith

module _ {W : Type 0} (c : WorkerContext W) (r : Round) (s : WorkerState W) where
  abbrev taken : Table
  taken = (claim_next r.select_at r.claim_at s.table).1

  abbrev claiming : WorkerState W
  claiming = record s {
    table = taken;
    circuit = (allow r.allow_at s.circuit).1;
    metrics = Option.map inc_in_flight s.metrics;
  }

  -- A round that works keeps the keys distinct and uses up some of the work; a round that finds
  -- nothing to do leaves the table as it was.
  pub drain_round_progress :
      (s' : WorkerState W)
      → DistinctIds s.table
      → drain_round c r s ≡ worked s'
      → DistinctIds s'.table × (work_left s'.table < work_left s.table)
  unfolding drain_round
  drain_round_progress s' d h = elim (Bool-cases (allow r.allow_at s.circuit).0) [
    | inr no_way ↦ absurd (ground arith)
    | inl open_way ↦ elim (claim_next_cases r.select_at r.claim_at s.table d) [
      | inl (none_ready, e) ↦ absurd (ground arith)
      | inr (row, m, ready, oldest, e, w) ↦
          let same =
            conclude_table (claimed_at r.claim_at row) r claiming s'
              (process_row c.unicode_word c.box c.client c.send_fn r.config true
                (claimed_at r.claim_at row) r.readings taken s.world s.hub)
              (rw (open_way, e) at h) in
          let left =
            attempt_left c.unicode_word c.box c.client c.send_fn r.config
              (claimed_at r.claim_at row) r.readings taken s.world s.hub w.keys_kept w.at_key in
          let moved = Rewrites-left row _ s.table taken (Has-get_message m d) w in
          let fewer = claimed_left r.claim_at row (&&_left (can_claim row) _ ready) in
          rw same (left.0, falls _ _ _ _ _ left.1 moved fewer)
    ]
  ]

  -- A round ends idle because the circuit is open or because no row is pending and due.
  pub drain_round_idle :
      (s' : WorkerState W)
      → DistinctIds s.table
      → drain_round c r s ≡ idle s'
      → (s'.table ≡ s.table)
        × ((is_open s'.circuit.state ≡ true)
            ⊎ All (λ x. ¬ (is_ready r.select_at x ≡ true)) s'.table)
  unfolding drain_round allow
  drain_round_idle s' d h =
      elim (Bool-cases (is_open (maybe_half_open r.allow_at s.circuit).state)) [
        | inl shut ↦ ground arith
        | inr open_way ↦ elim (claim_next_cases r.select_at r.claim_at s.table d) [
          | inl (none_ready, e) ↦
              let same : s'.table ≡ s.table = ground arith in (same, inr (rw same none_ready))
          | inr (row, m, ready, oldest, e, w) ↦ absurd (
              not_idle (claimed_at r.claim_at row) r claiming s'
                (process_row c.unicode_word c.box c.client c.send_fn r.config true
                  (claimed_at r.claim_at row) r.readings taken s.world s.hub)
                (rw (open_way, e) at h))
        ]
      ]
