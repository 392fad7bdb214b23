-- ===== src/Queue/Threads/Orphans.antt =====
-- Rows that no thread touches any more: those that are done, and those that a killed or failed
-- worker left in process.
use msgate.Prelude.{
  ℕ, ◌≡◌, refl, sym, ap, ◌∙◌, ◌⊎◌, inl, inr, false, ◌==◌, some, Text, Bool-cases, arith,
}
use msgate.Queue.Processor.Settling.{settle-Rewrites}
use msgate.Queue.Repository.{
  MessageRow, sent, failed, processing, Table, get_message, can_claim, mark_failed, always,
}
use msgate.Queue.Repository.Lookup.{get_message-id, get_message-append_old}
use msgate.Queue.Repository.Rewriting.{Rewrites, update-Rewrites}
use msgate.Queue.Worker.{WorkerContext}
use msgate.Queue.Threads.{
  Pc, holds, Shared, System, update, Move, choose, take, lose, call, finish, crash, refuse, Step,
  works, accepts, restarts, Steps, none_yet, then_one, Reach,
}
use msgate.Queue.Threads.Ownership.{Inv}
use msgate.Queue.Threads.Moves.{claim_won, claim_lost, insert_won, Steps-Inv, Reach-Inv}

-- The row stands under the key, cannot be claimed, and no worker holds it.
pub record Rests {W : Type 0} (k : Text) (r : MessageRow) (s : System W) : Type 0 where
  pub stored : get_message k s.shared.table ≡ some r
  pub not_pending : can_claim r ≡ false
  pub unheld : (i : ℕ) (q : MessageRow) → holds (s.pc i) ≡ some q → ¬ (q.id ≡ k)

module _ {W : Type 0} (k : Text) (r : MessageRow) (s : System W) (inv : Inv s)
    (rest : Rests k r s) where
  stays :
      (i : ℕ) (m : Shared W) (p : Pc)
      → get_message k m.table ≡ some r
      → ((q : MessageRow) → holds p ≡ some q → ¬ (q.id ≡ k))
      → Rests k r (record { shared = m; pc = update s.pc i p })
  stays i m p h own = record {
    stored = h;
    not_pending = rest.not_pending;
    unheld = λ j q g. elim (Bool-cases (i == j)) [
      | inl e ↦ own q (rw e at g)
      | inr e ↦ rest.unheld j q (rw e at g)
    ];
  }

  beside :
      (j : Text) (new : MessageRow) (table : Table)
      → ¬ (j ≡ k)
      → Rewrites j new s.shared.table table
      → get_message k table ≡ some r
  beside j new table apart w = w.elsewhere k apart ∙ rest.stored

  Move-Rests :
      (c : WorkerContext W) (i : ℕ) (m : Shared W) (p : Pc) (o : Pc)
      → s.pc i ≡ o
      → Move c s.shared o m p
      → Rests k r (record { shared = m; pc = update s.pc i p })
  unfolding mark_failed
  Move-Rests c i m p o at (choose now e) = stays i _ _ rest.stored (λ q h. absurd (cc))
  Move-Rests c i m p o at (take {id} {row} {table} now e) =
      let (old, h, free, same, w) = claim_won id now s.shared.table table row inv.keys e in
      let old_key = get_message-id id s.shared.table old h in
      let apart : ¬ (id ≡ k) = λ x.
        let again = ap (λ y. get_message y s.shared.table) x ∙ rest.stored in
        let clash : old ≡ r = cc (h, again) in
        let blocked = rest.not_pending in
        let y = ap (λ z. can_claim z) clash in cc (y, blocked, free) in
      stays i _ _ (beside id row table apart w) (λ q g x.
        let mine : row ≡ q = cc g in
        apart (sym (ap (λ z. z.id) same ∙ old_key) ∙ (ap (λ z. z.id) mine ∙ x)))
  Move-Rests c i m p o at (lose {id} {table} now e) =
      stays i _ _
        (ap (get_message k) (claim_lost id now s.shared.table table inv.keys e) ∙ rest.stored)
        (λ q h. absurd (cc))
  Move-Rests c i m p o at (call config a e) =
      stays i _ _ rest.stored (λ q h. rest.unheld i q (ap holds at ∙ h))
  Move-Rests c i m p o at (finish {row} {outcome} t) =
      stays i _ _
        (beside row.id _ _ (rest.unheld i row (ap holds at)) (
          settle-Rewrites c.unicode_word row t outcome s.shared.table s.shared.world s.shared.hub
            inv.keys (inv.held i row (ap holds at)).0))
        (λ q h. absurd (cc))
  Move-Rests c i m p o at (crash config a e) = stays i _ _ rest.stored (λ q h. absurd (cc))
  Move-Rests c i m p o at (refuse {row} config now e) =
      stays i _ _
        (beside row.id _ _ (rest.unheld i row (ap holds at)) (
          update-Rewrites always _ row s.shared.table (λ x. refl) inv.keys
            (inv.held i row (ap holds at)).0 refl))
        (λ q h. absurd (cc))

Step-Rests :
    {W : Type 0} {c : WorkerContext W} (k : Text) (r : MessageRow) {s s' : System W}
    → Step c s s'
    → Inv s
    → Rests k r s
    → Rests k r s'
Step-Rests {c} k r {s} (works i mv) inv rest = Move-Rests k r s inv rest c i _ _ (s.pc i) refl mv
Step-Rests {c} k r {s} (accepts {row} {table} m d e) inv rest =
    let won = insert_won c.box m d s.shared.table table row e in
    record {
      stored = ap (get_message k) won.1 ∙ get_message-append_old k s.shared.table row r rest.stored;
      not_pending = rest.not_pending;
      unheld = rest.unheld;
    }
Step-Rests k r restarts inv rest = record {
  stored = rest.stored;
  not_pending = rest.not_pending;
  unheld = λ i q h. absurd (cc);
}

Steps-Rests :
    {W : Type 0} {c : WorkerContext W} (k : Text) (r : MessageRow) {s s' : System W}
    → Steps c s s'
    → Inv s
    → Rests k r s
    → Rests k r s'
Steps-Rests k r none_yet inv rest = rest
Steps-Rests k r (then_one steps step) inv rest =
    Step-Rests k r step (Steps-Inv steps inv) (Steps-Rests k r steps inv rest)

-- A message that is sent or failed in a reachable state is never touched again, whatever the threads
-- do and however often the gateway is started again: in every later state its row is the same.
pub done_stays :
    {W : Type 0} {c : WorkerContext W} {s s' : System W} (k : Text) (r : MessageRow)
    → Reach c s
    → get_message k s.shared.table ≡ some r
    → (r.status ≡ sent) ⊎ (r.status ≡ failed)
    → Steps c s s'
    → get_message k s'.shared.table ≡ some r
done_stays {s} k r reach h done steps =
    let inv = Reach-Inv reach in
    let rest : Rests k r s = record {
      stored = h;
      not_pending = ground arith;
      unheld = λ i q g x.
          let mine = inv.held i q g in
          let found = ap (λ y. get_message y s.shared.table) x ∙ h in
          let same : q ≡ r = cc (mine.0, found) in
          let clash = ap (λ y. y.status) same in let busy = mine.1 in ground arith;
    } in
    (Steps-Rests k r steps inv rest).stored

-- A message that is in process in a reachable state while no worker holds it is lost: in every later
-- state its row is the same, so that it is neither delivered nor marked as failed.
pub orphan_stays :
    {W : Type 0} {c : WorkerContext W} {s s' : System W} (k : Text) (r : MessageRow)
    → Reach c s
    → get_message k s.shared.table ≡ some r
    → r.status ≡ processing
    → ((i : ℕ) (q : MessageRow) → holds (s.pc i) ≡ some q → ¬ (q.id ≡ k))
    → Steps c s s'
    → get_message k s'.shared.table ≡ some r
orphan_stays k r reach h busy free steps =
    (Steps-Rests k r steps (Reach-Inv reach)
      (record { stored = h; not_pending = ground arith; unheld = free })).stored
