-- ===== src/Queue/Worker/Crashes.antt =====
-- What stands behind an exception in a round of the loop of src/msgate/queue/worker.py.
use msgate.Prelude.{
  ℕ, ◌≡◌, refl, sym, inl, inr, Bool, true, Option, none, some, Text, Bool-cases, arith,
}
use msgate.Config.{GatewayConfig}
use msgate.Prelude.Results.{Exception, Result, ok, raise, Result-cases}
use msgate.Drivers.{EwsClient, MailDriver, resolve_driver, Sending, SendResult, failing}
use msgate.Drivers
use msgate.Queue.Breaker.{allow}
use msgate.Queue.Processor.{Attempt, Readings, SendFn, process_row, make_request, call_driver}
use msgate.Queue.Processor.Attempts.{attempt-Settles, attempt_raises, attempt_unconfigured}
use msgate.Events.{EventHub}
use msgate.Queue.Repository.{
  MessageRow, Table, SecretBox, processing, get_message, claimed_at, claim_next,
}
use msgate.Queue.Repository.Claims.{claim_next_cases}
use msgate.Queue.Repository.Lookup.{DistinctIds}
use msgate.Metrics.{inc_in_flight}
use mathlib.Core.Option
use msgate.Queue.Worker.{WorkerContext, WorkerState, Round, crashed, conclude, drain_round}

-- A call of the driver that ends, either way, returns.
returns :
    (o : Sending) (x : Result (Option SendResult))
    → ((r : SendResult) → o ≡ Drivers.sent r → x ≡ ok (some r))
    → ((e : Text) → o ≡ failing e → x ≡ ok none)
    → (v : Option SendResult) × (x ≡ ok v)
returns (Drivers.sent r) x a b = (some r, a r refl)
returns (failing e) x a b = (none, b e refl)

module _ {W : Type 0} (u : ℕ → Bool) (box : SecretBox) (client : EwsClient W)
    (send_fn : Option (SendFn W)) (config : GatewayConfig) (row : MessageRow) (t : Readings)
    (table : Table) (w : W) (hub : Option EventHub) where
  abbrev attempt : Attempt W
  attempt = process_row u box client send_fn config true row t table w hub

  -- An attempt raises only where its request cannot be made, and then leaves the table as it was.
  raising_attempt :
      (e : Exception)
      → DistinctIds table
      → get_message row.id table ≡ some row
      → attempt.result ≡ raise e
      → ((resolve_driver client config).is_configured config ≡ true)
        × (make_request box config row ≡ raise e)
        × (attempt.table ≡ table)
  raising_attempt e d h x =
      elim (Bool-cases ((resolve_driver client config).is_configured config)) [
        | inr c ↦
            let s = attempt_unconfigured u box client send_fn config row t table w hub d h c in
            absurd (cc (s.2, x))
        | inl c ↦ elim (Result-cases (make_request box config row)) [
          | inr (f, q) ↦
              let s = attempt_raises u box client send_fn config row t table w hub f c q in
              let same : ◌≡◌ {A = Exception} f e = cc (s.0, x) in (c, rw (sym same) q, s.1)
          | inl (request, q) ↦
              let s =
                attempt-Settles u box client send_fn config row t table w hub request d h c q in
              let (v, g) = returns (call_driver client send_fn config request w).0 _ s.2 s.3 in
              absurd (cc (g, x))
        ]
      ]

conclude_crashed :
    {W : Type 0} (row : MessageRow) (r : Round) (s s' : WorkerState W) (a : Attempt W)
    (e : Exception)
    → conclude row r s a ≡ crashed e s'
    → (a.result ≡ raise e) × (s'.table ≡ a.table)
unfolding conclude
conclude_crashed row r s s' a e h = elim (Result-cases a.result) [
  | inl (v, f) ↦ absurd (ground (arith, f, h))
  | inr (x, f) ↦ (ground (arith, f, h), ground (arith, f, h))
]

module _ {W : Type 0} (c : WorkerContext W) (r : Round) (s : WorkerState W) where
  abbrev taken : Table
  taken = (claim_next r.select_at r.claim_at s.table).1

  abbrev claiming : WorkerState W
  claiming = record s {
    table = taken;
    circuit = (allow r.allow_at s.circuit).1;
    metrics = Option.map inc_in_flight s.metrics;
  }

  -- A round crashes only where it claimed a row for which no request can be made, and leaves that row
  -- in process.
  pub drain_round_crashes :
      (e : Exception) (s' : WorkerState W)
      → DistinctIds s.table
      → drain_round c r s ≡ crashed e s'
      → (row : MessageRow) × ((claim_next r.select_at r.claim_at s.table).0 ≡ some row)
        × ((resolve_driver c.client r.config).is_configured r.config ≡ true)
        × (make_request c.box r.config row ≡ raise e)
        × (get_message row.id s'.table ≡ some row)
        × (row.status ≡ processing)
  unfolding drain_round
  drain_round_crashes e s' d h = elim (Bool-cases (allow r.allow_at s.circuit).0) [
    | inr no_way ↦ absurd (ground arith)
    | inl open_way ↦ elim (claim_next_cases r.select_at r.claim_at s.table d) [
      | inl (none_ready, f) ↦ absurd (ground arith)
      | inr (old, m, ready, oldest, f, w) ↦
          let row = claimed_at r.claim_at old in
          let (raised, same) =
            conclude_crashed row r claiming s'
              (process_row c.unicode_word c.box c.client c.send_fn r.config true row r.readings
                taken s.world s.hub)
              e (rw (open_way, f) at h) in
          let (configured, unmade, kept) =
            raising_attempt c.unicode_word c.box c.client c.send_fn r.config row r.readings taken
              s.world s.hub e w.keys_kept w.at_key raised in
          (row, f, configured, unmade, rw same (rw kept w.at_key), refl)
    ]
  ]
