-- ===== src/Queue/Threads/Calls.antt =====
-- How often the threads over the table of src/msgate/queue/worker.py call the driver for a message.
use msgate.Prelude.{
  ℕ, Option, [], ◌∷◌, ◌++◌, Bool, ◌+◌, ◌≤◌, ◌≡◌, refl, sym, ap, ◌∙◌, inl, inr, ◌==◌, none, some,
  Text, text_eq, text_eq_iff, if◌then◌else◌, Bool-cases, Option-cases, arith,
}
use msgate.Drivers.{Sending, failing}
use msgate.Drivers
use msgate.Events.{EventHub}
use msgate.Queue.Processor.{Readings, max_attempts}
use msgate.Queue.Processor.Settling.{settled, settle-Rewrites}
use msgate.Queue.Repository.{MessageRow, Table, get_message, mark_failed, always, claim}
use msgate.Queue.Repository.Lookup.{get_message-append_old, get_message-id}
use msgate.Queue.Repository.Rewriting.{Rewrites, update-Rewrites}
use msgate.Queue.Worker.{WorkerContext}
use msgate.Queue.Threads.{
  Pc, delivering, settling, holds, Shared, System, update, Move, choose, take, lose, call, finish,
  crash, refuse, Step, works, accepts, restarts, Steps, none_yet, then_one, start,
}
use msgate.Queue.Threads.Ownership.{Inv, start-Inv}
use msgate.Queue.Threads.Moves.{claim_won, claim_lost, insert_won, Steps-Inv}

-- The calls of the driver for the message with the key `k` in a worker's step, in a step of the
-- system, and in all the steps of a run.
abbrev pub move_calls :
    {W : Type 0} {c : WorkerContext W} {s m : Shared W} {o p : Pc} → Text → Move c s o m p → ℕ
move_calls k (call {row} config a e) = if text_eq row.id k then 1 else 0
move_calls k _ = 0

abbrev pub step_calls : {W : Type 0} {c : WorkerContext W} {s t : System W} → Text → Step c s t → ℕ
step_calls k (works i mv) = move_calls k mv
step_calls k _ = 0

abbrev pub calls : {W : Type 0} {c : WorkerContext W} {s t : System W} → Text → Steps c s t → ℕ
calls k none_yet = 0
calls k (then_one steps step) = calls k steps + step_calls k step

-- The attempts that the row of a key counts.
unfoldable pub attempts_of : Text → Table → ℕ
attempts_of k table = elim (get_message k table) [ none ↦ 0 | some r ↦ r.attempts ]

attempts_at :
    (k : Text) (table : Table) (r : MessageRow)
    → get_message k table ≡ some r
    → attempts_of k table ≡ r.attempts
unfolding attempts_of
attempts_at k table r h = rw (h, attempts_of) refl

attempts_without : (k : Text) (table : Table) → get_message k table ≡ none → attempts_of k table ≡ 0
unfolding attempts_of
attempts_without k table h = rw (h, attempts_of) refl

-- The calls so far are counted, and a worker about to call has one to spare.
record Tally {W : Type 0} (k : Text) (n : ℕ) (s : System W) : Type 0 where
  counted : n ≤ attempts_of k s.shared.table
  spare :
      (i : ℕ) (r : MessageRow)
      → s.pc i ≡ delivering r
      → r.id ≡ k
      → n + 1 ≤ attempts_of k s.shared.table

rewritten_grows :
    (k j : Text) (row new : MessageRow) (table table' : Table)
    → get_message j table ≡ some row
    → row.attempts ≤ new.attempts
    → Rewrites j new table table'
    → attempts_of k table ≤ attempts_of k table'
rewritten_grows k j row new table table' h more w = elim (Bool-cases (text_eq j k)) [
  | inl e ↦
      let x : j ≡ k = (text_eq_iff j k).0 e in
      let before = attempts_at k table row (ap (λ y. get_message y table) (sym x) ∙ h) in
      let after = attempts_at k table' new (ap (λ y. get_message y table') (sym x) ∙ w.at_key) in
      omega (arith, before, after)
  | inr e ↦ elim (Option-cases (get_message k table)) [
    | inl g ↦ let zero_before = attempts_without k table g in omega (arith, zero_before)
    | inr (r, g) ↦
        let before = attempts_at k table r g in
        let after =
          attempts_at k table' r (w.elsewhere k (λ x. ground (arith, text_eq_iff j k)) ∙ g) in
        omega (arith, before, after)
  ]
]

settled_grows :
    (u : ℕ → Bool) (t : Readings) (o : Sending) (row : MessageRow)
    → row.attempts ≤ (settled u t o row).attempts
settled_grows u t (Drivers.sent r) row = omega arith
settled_grows u t (failing err) row = ground arith

moves_counted :
    {W : Type 0} (k : Text) (n : ℕ) (s : System W) (i : ℕ) (m : Shared W) (p : Pc)
    → Tally k n s
    → attempts_of k s.shared.table ≤ attempts_of k m.table
    → ((r : MessageRow) → p ≡ delivering r → r.id ≡ k → n + 1 ≤ attempts_of k m.table)
    → Tally k (n + 0) (record { shared = m; pc = update s.pc i p })
moves_counted k n s i m p tally more own = record {
  counted = omega (arith, tally.counted, more);
  spare = λ j r at mine. elim (Bool-cases (i == j)) [
    | inl e ↦ let mine_ = own r (rw e at at) mine in omega (arith, mine_)
    | inr e ↦ let before = tally.spare j r (rw e at at) mine in omega (arith, before, more)
  ];
}

module _ {W : Type 0} (c : WorkerContext W) (k : Text) (n : ℕ) (s : System W) (inv : Inv s)
    (tally : Tally k n s) where
  taking :
      (i : ℕ) (id : Text) (now : ℕ) (row : MessageRow) (table : Table)
      → claim id now s.shared.table ≡ (some row, table)
      → Tally k (n + 0) (record {
        shared = record s.shared { table = table };
        pc = update s.pc i (delivering row);
      })
  taking i id now row table e =
      let (old, h, free, same, w) = claim_won id now s.shared.table table row inv.keys e in
      let one_more : row.attempts ≡ old.attempts + 1 = ap (λ r. r.attempts) same in
      let key : row.id ≡ id = ap (λ r. r.id) same ∙ get_message-id id s.shared.table old h in
      moves_counted k n s i (record s.shared { table = table }) (delivering row) tally
        (rewritten_grows k id old row s.shared.table table h (omega (arith, one_more)) w)
        (λ r own mine.
          let x : row ≡ r = cc own in
          let y : id ≡ k = sym key ∙ (ap (λ q. q.id) x ∙ mine) in
          let before =
            attempts_at k s.shared.table old (ap (λ z. get_message z s.shared.table) (sym y) ∙ h) in
          let after = attempts_at k table row (ap (λ z. get_message z table) (sym y) ∙ w.at_key) in
          omega (arith, tally.counted, before, after, one_more))

  calling :
      (i : ℕ) (row : MessageRow) (m : Shared W) (o : Sending)
      → s.pc i ≡ delivering row
      → m.table ≡ s.shared.table
      → Tally k
          (n + (if text_eq row.id k then 1 else 0))
          (record { shared = m; pc = update s.pc i (settling row o) })
  calling i row m o at e = elim (Bool-cases (text_eq row.id k)) [
    | inl f ↦
        let mine = (text_eq_iff row.id k).0 f in
        let before = tally.spare i row at mine in
        rw f (record {
          counted = rw e before;
          spare = λ j r there_ same. elim (Bool-cases (i == j)) [
            | inl g ↦ absurd (let x : settling row o ≡ delivering r = rw g at there_ in cc)
            | inr g ↦
                let x : s.pc j ≡ delivering r = rw g at there_ in
                let clash = inv.alone i j row r (ap holds at) (ap holds x) (mine ∙ sym same) in
                absurd (ground (arith, clash))
          ];
        })
    | inr f ↦
        rw f
          (moves_counted k n s i m (settling row o) tally (rw e (omega arith)) (λ r x. absurd (cc)))
  ]

  Move-Tally :
      (i : ℕ) (m : Shared W) (p o : Pc) (at : s.pc i ≡ o) (mv : Move c s.shared o m p)
      → Tally k (n + move_calls k mv) (record { shared = m; pc = update s.pc i p })
  unfolding mark_failed
  Move-Tally i m p o at (choose now e) =
      moves_counted k n s i _ _ tally (omega arith) (λ r x. absurd (cc))
  Move-Tally i m p o at (take {id} {row} {table} now e) = taking i id now row table e
  Move-Tally i m p o at (lose {id} {table} now e) =
      let same = claim_lost id now s.shared.table table inv.keys e in
      moves_counted k n s i _ _ tally (rw same (omega arith)) (λ r x. absurd (cc))
  Move-Tally i m p o at (call {row} config a e) = calling i row _ _ at refl
  Move-Tally i m p o at (finish {row} {outcome} t) =
      let mine = inv.held i row (ap holds at) in
      let kept =
        settle-Rewrites c.unicode_word row t outcome s.shared.table s.shared.world s.shared.hub
          inv.keys mine.0 in
      moves_counted k n s i _ _ tally
        (rewritten_grows k row.id row _ s.shared.table _ mine.0
          (settled_grows c.unicode_word t outcome row) kept)
        (λ r x. absurd (cc))
  Move-Tally i m p o at (crash config a e) =
      moves_counted k n s i _ _ tally (omega arith) (λ r x. absurd (cc))
  Move-Tally i m p o at (refuse {row} config now e) =
      let mine = inv.held i row (ap holds at) in
      let kept = update-Rewrites always _ row s.shared.table (λ x. refl) inv.keys mine.0 refl in
      moves_counted k n s i _ _ tally
        (rewritten_grows k row.id row _ s.shared.table _ mine.0 (omega arith) kept)
        (λ r x. absurd (cc))

appended_grows :
    (k : Text) (table : Table) (row : MessageRow)
    → attempts_of k table ≤ attempts_of k (table ++ (row ∷ []))
appended_grows k table row = elim (Option-cases (get_message k table)) [
  | inl g ↦ let none_before = attempts_without k table g in omega (arith, none_before)
  | inr (r, g) ↦
      let before = attempts_at k table r g in
      let after = attempts_at k (table ++ (row ∷ [])) r (get_message-append_old k table row r g) in
      omega (arith, before, after)
]

Step-Tally :
    {W : Type 0} {c : WorkerContext W} {s t : System W} (k : Text) (n : ℕ) (step : Step c s t)
    → Inv s
    → Tally k n s
    → Tally k (n + step_calls k step) t
Step-Tally {c} {s} k n (works i mv) inv tally = Move-Tally c k n s inv tally i _ _ (s.pc i) refl mv
Step-Tally {c} {s} k n (accepts {row} {table} m d e) inv tally =
    let added = (insert_won c.box m d s.shared.table table row e).1 in
    let more : attempts_of k s.shared.table ≤ attempts_of k table =
      rw added (appended_grows k s.shared.table row) in
    record {
      counted = omega (arith, tally.counted, more);
      spare = λ i r at mine. let x = tally.spare i r at mine in omega (arith, x, more);
    }
Step-Tally k n restarts inv tally = record {
  counted = omega (arith, tally.counted);
  spare = λ i r at. absurd (cc);
}

Steps-Tally :
    {W : Type 0} {c : WorkerContext W} {w : W} {hub : Option EventHub} {s : System W} (k : Text)
    (steps : Steps c (start w hub) s)
    → Tally k (calls k steps) s
Steps-Tally k none_yet = record { counted = omega arith; spare = λ i r at. absurd (cc) }
Steps-Tally {w} {hub} k (then_one steps step) =
    Step-Tally k _ step (Steps-Inv steps (start-Inv w hub)) (Steps-Tally k steps)

-- However the threads are scheduled and however often the gateway is started again, the driver is
-- never called more often for a message than the attempts that its row counts, and these are at most
-- eight.
pub calls_bounded :
    {W : Type 0} {c : WorkerContext W} {w : W} {hub : Option EventHub} {s : System W} (k : Text)
    (steps : Steps c (start w hub) s)
    → (calls k steps ≤ attempts_of k s.shared.table) × (attempts_of k s.shared.table ≤ max_attempts)
calls_bounded {w} {hub} {s} k steps = (
  (Steps-Tally k steps).counted,
  elim (Option-cases (get_message k s.shared.table)) [
    | inl g ↦ let none_there = attempts_without k s.shared.table g in omega (arith, none_there)
    | inr (r, g) ↦
        let there_ = attempts_at k s.shared.table r g in
        let n = (Steps-Inv steps (start-Inv w hub)).counted k r g in ground (arith, there_)
  ],
)
