-- ===== src/Queue/Worker/Termination.antt =====
-- The loop of src/msgate/queue/worker.py comes to an end, whatever the clocks, the configuration and
-- the driver do.
use msgate.Prelude.{
  ℕ, zero, suc, ◌+◌, ◌≤◌, ◌<◌, ◌≡◌, refl, ◌⊎◌, inl, inr, Bool, true, false, ◌||◌, ltb, some,
  Bool-cases, arith, All,
}
use msgate.Prelude.Results.{Exception, raise}
use msgate.Queue.Breaker.{is_open}
use msgate.Queue.Processor.{make_request}
use msgate.Queue.Repository.{MessageRow, processing, get_message, claim_next, is_ready}
use msgate.Queue.Repository.Lookup.{DistinctIds}
use msgate.Queue.Worker.{
  WorkerContext, WorkerState, Round, RoundResult, idle, worked, crashed, drain_round, Drained, done,
  failed_with, drain,
}
use msgate.Queue.Worker.Crashes.{drain_round_crashes}
use msgate.Queue.Worker.Progress.{work_left, drain_round_progress, drain_round_idle}

RoundResult-cases :
    {W : Type 0} (x : RoundResult W)
    → ((s : WorkerState W) × (x ≡ idle s))
      ⊎ ((s : WorkerState W) × (x ≡ worked s))
      ⊎ ((e : Exception) × (s : WorkerState W) × (x ≡ crashed e s))
RoundResult-cases (idle s) = inl (s, refl)
RoundResult-cases (worked s) = inr (inl (s, refl))
RoundResult-cases (crashed e s) = inr (inr (e, s, refl))

module _ {W : Type 0} (c : WorkerContext W) (rounds : ℕ → Round) where
  -- The loop gets from a state before one round to another state before a later round, by rounds none
  -- of which was told to stop and each of which delivered or failed one message.
  pub data Runs : ℕ → WorkerState W → ℕ → WorkerState W → Type 0 where
    arrived : {k : ℕ} {s : WorkerState W} → Runs k s k s
    worked_on :
        {k j : ℕ} {s s' t : WorkerState W}
        → (rounds k).stopping ≡ false
        → drain_round c (rounds k) s ≡ worked s'
        → Runs (suc k) s' j t
        → Runs k s j t

  -- Why the loop ends in the round `j`, with `t` before it. It was told to stop, or the circuit was
  -- open, or no row was pending and due, and the rows are as they were; `did` is whether it had worked
  -- before. Or it raised, as the row that it claimed has a password or a payload that cannot be read,
  -- and that row is left in process.
  abbrev pub EndsIn : Bool → ℕ → ℕ → WorkerState W → Drained W → Type 0
  EndsIn did k j t (done b s') =
      (b ≡ (did || ltb k j))
      × ((((rounds j).stopping ≡ true) × (s' ≡ t))
          ⊎ (((rounds j).stopping ≡ false)
              × (s'.table ≡ t.table)
              × ((is_open s'.circuit.state ≡ true)
                  ⊎ All (λ r. ¬ (is_ready (rounds j).select_at r ≡ true)) t.table)))
  EndsIn did k j t (failed_with e s') =
      ((rounds j).stopping ≡ false)
      × (row : MessageRow) × ((claim_next (rounds j).select_at (rounds j).claim_at t.table).0
          ≡ some row)
      × (make_request c.box (rounds j).config row ≡ raise e)
      × (get_message row.id s'.table ≡ some row)
      × (row.status ≡ processing)

  abbrev pub Finished : Bool → ℕ → WorkerState W → Drained W → Type 0
  Finished did k s x =
      (j : ℕ) × (t : WorkerState W) × Runs k s j t
      × (j + work_left t.table ≤ k + work_left s.table)
      × EndsIn did k j t x

  Runs-le : {k j : ℕ} {s t : WorkerState W} → Runs k s j t → k ≤ j
  Runs-le arrived = omega arith
  Runs-le (worked_on e f rest) = let h = Runs-le rest in omega (arith, h)

  did_work_then :
      (did : Bool) (k j : ℕ) (t : WorkerState W) (x : Drained W)
      → suc k ≤ j
      → EndsIn true (suc k) j t x
      → EndsIn did k j t x
  did_work_then did k j t (done b s') h (e, why) = (ground (arith, e), why)
  did_work_then did k j t (failed_with e s') h why = why

-- With distinct keys, fuel for one round more than the attempts that the pending rows have left is
-- enough: the loop ends, after at most as many rounds that worked. It ends only in the round after
-- these, and only where it was told to stop, the circuit was open, no row was ready, or the request
-- for the row that it claimed could not be made, which leaves that row in process.
pub drain_ends :
    {W : Type 0} (c : WorkerContext W) (fuel : ℕ) (rounds : ℕ → Round) (k : ℕ) (did_work : Bool)
    (s : WorkerState W)
    → DistinctIds s.table
    → work_left s.table < fuel
    → (x : Drained W) × (drain c fuel rounds k did_work s ≡ some x)
      × Finished c rounds did_work k s x
unfolding drain
drain_ends c zero rounds k did_work s d h = absurd (omega arith)
drain_ends c (suc fuel) rounds k did_work s d h = elim (Bool-cases (rounds k).stopping) [
  | inl e ↦ (
    done did_work s,
    rw (e, drain) refl,
    (k, s, arrived, omega arith, (same_work did_work k, inl (e, refl))),
  )
  | inr e ↦ elim (RoundResult-cases (drain_round c (rounds k) s)) [
    | inl (s', f) ↦
        let (same, why) = drain_round_idle c (rounds k) s s' d f in
        (
          done did_work s',
          rw (e, f, drain) refl,
          (k, s, arrived, omega arith, (same_work did_work k, inr (e, same, rw same at why))),
        )
    | inr (inl (s', f)) ↦
        let (kept, fewer) = drain_round_progress c (rounds k) s s' d f in
        let (x, run, (j, t, later, bound, why)) =
          drain_ends c fuel rounds (suc k) true s' kept (omega arith) in
        (
          x,
          rw (e, f, drain) run,
          (
            j,
            t,
            worked_on e f later,
            omega (arith, bound, fewer),
            did_work_then c rounds did_work k j t x (Runs-le c rounds later) why,
          ),
        )
    | inr (inr (x, s', f)) ↦
        let (row, claimed, configured, unmade, left, busy) =
          drain_round_crashes c (rounds k) s x s' d f in
        (
          failed_with x s',
          rw (e, f, drain) refl,
          (k, s, arrived, omega arith, (e, row, claimed, unmade, left, busy)),
        )
  ]
]
  where
    same_work : (did : Bool) (k : ℕ) → did ≡ (did || ltb k k)
    same_work did k = ground arith
