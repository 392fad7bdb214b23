-- ===== src/Queue/Threads/Moves.antt =====
-- Every step of the threads keeps their invariant.
use msgate.Prelude.{
  ℕ, ◌≡◌, refl, sym, ap, ◌∙◌, subst, inl, inr, Bool, true, ◌&&◌, none, some, [], ◌∷◌, ◌++◌, Text,
  Bool-cases, Option-cases, arith, ltb, ltb→lt, &&_right,
}
use msgate.Prelude.Results.{ok}
use msgate.Drivers.{Sending, failing}
use msgate.Drivers
use msgate.Queue.Backoff.{is_retriable_error}
use msgate.Queue.Processor.{Readings, max_attempts}
use msgate.Queue.Processor.Settling.{settled, settle-Rewrites}
use msgate.Queue.Repository.{
  MessageRow, processing, Table, NewMessage, Draw, SecretBox, get_message, can_claim, claim,
  claimed_at, mark_failed, always, insert_message, new_row, update_where,
}
use msgate.Queue.Repository.Lookup.{
  DistinctIds, get_message-id, get_message-append, DistinctIds-append, get_message-append_old,
}
use msgate.Queue.Repository.Claims.{claim_missing, claim_taken, claim_free}
use msgate.Queue.Repository.Rewriting.{Rewrites, update-Rewrites}
use msgate.Queue.Worker.{WorkerContext}
use msgate.Queue.Threads.{
  Pc, waiting, delivering, holds, Shared, System, update, Move, choose, take, lose, call, finish,
  crash, refuse, Step, works, accepts, restarts, Steps, none_yet, then_one, Reach,
}
use msgate.Queue.Threads.Ownership.{Inv, Counted, moved-Inv, start-Inv, Rewrites-Counted}

claimed-Rewrites :
    (id : Text) (now : ℕ) (table : Table) (old : MessageRow)
    → DistinctIds table
    → get_message id table ≡ some old
    → can_claim old ≡ true
    → Rewrites id (claimed_at now old) table (claim id now table).1
claimed-Rewrites id now table old d h f =
    let same = get_message-id id table old h in
    let w =
      update-Rewrites can_claim (claimed_at now) old table (λ r. refl) d
        (ap (λ k. get_message k table) same ∙ h) f in
    rw (ap (λ x. x.1) (claim_free id now table old d h f)) (
      subst
        (λ k.
          Rewrites k (claimed_at now old) table (update_where k can_claim (claimed_at now) table))
        same w)

-- A claim that succeeds took a row that was pending, and one that fails changed nothing.
pub claim_won :
    (id : Text) (now : ℕ) (table table' : Table) (row : MessageRow)
    → DistinctIds table
    → claim id now table ≡ (some row, table')
    → (old : MessageRow) × (get_message id table ≡ some old)
      × (can_claim old ≡ true)
      × (row ≡ claimed_at now old)
      × Rewrites id row table table'
claim_won id now table table' row d h = elim (Option-cases (get_message id table)) [
  | inl e ↦ absurd (cc (h, claim_missing id now table e))
  | inr (old, e) ↦ elim (Bool-cases (can_claim old)) [
    | inr f ↦ absurd (cc (h, claim_taken id now table old d e f))
    | inl f ↦
        let same : row ≡ claimed_at now old = cc (h, claim_free id now table old d e f) in
        (
          old,
          e,
          f,
          same,
          rw same (rw (sym (ap (λ x. x.1) h)) (claimed-Rewrites id now table old d e f)),
        )
  ]
]

pub claim_lost :
    (id : Text) (now : ℕ) (table table' : Table)
    → DistinctIds table
    → claim id now table ≡ (none, table')
    → table' ≡ table
claim_lost id now table table' d h = elim (Option-cases (get_message id table)) [
  | inl e ↦ cc (h, claim_missing id now table e)
  | inr (old, e) ↦ elim (Bool-cases (can_claim old)) [
    | inr f ↦ cc (h, claim_taken id now table old d e f)
    | inl f ↦ absurd (cc (h, claim_free id now table old d e f))
  ]
]

settled-Counted :
    (u : ℕ → Bool) (t : Readings) (o : Sending) (row : MessageRow)
    → Counted row
    → Counted (settled u t o row)
settled-Counted u t (Drivers.sent r) row h = ground arith
settled-Counted u t (failing err) row h =
    elim (Bool-cases (is_retriable_error u err && ltb row.attempts max_attempts)) [
      | inl e ↦
          let left = ltb→lt row.attempts max_attempts (&&_right (is_retriable_error u err) _ e) in
          rw e (omega arith)
      | inr e ↦ rw e (omega arith)
    ]

pub insert_won :
    (box : SecretBox) (m : NewMessage) (d : Draw) (table table' : Table) (row : MessageRow)
    → insert_message box m d table ≡ ok (row, table')
    → (get_message row.id table ≡ none) × (table' ≡ table ++ (row ∷ [])) × Counted row
unfolding insert_message new_row
insert_won box m d table table' row h =
    elim (Option-cases (get_message (new_row box m d).id table)) [
      | inr (old, e) ↦ absurd (ground (arith, e, h))
      | inl e ↦
          let same : row ≡ new_row box m d = ground (arith, e, h) in
          let added : table' ≡ table ++ (new_row box m d ∷ []) = ground (arith, e, h) in
          (ap (λ r. get_message r.id table) same ∙ e, rw same added, rw same (ground arith))
    ]

module _ {W : Type 0} (s : System W) (inv : Inv s) where
  -- A worker that holds nothing any more, with the rows of the others as they were.
  let_go :
      (i : ℕ) (row new : MessageRow) (m : Shared W)
      → holds (s.pc i) ≡ some row
      → Rewrites row.id new s.shared.table m.table
      → Counted new
      → Inv (record { shared = m; pc = update s.pc i waiting })
  let_go i row new m h w n =
      moved-Inv s i m waiting inv w.keys_kept
        (Rewrites-Counted row.id new s.shared.table m.table w n inv.counted) (λ r e. absurd (cc))
        (λ j q apart e.
          w.elsewhere q.id (λ same. apart (inv.alone i j row q h e same)) ∙ (inv.held j q e).0)

  -- A worker whose step leaves the table as it is.
  same_table :
      (i : ℕ) (m : Shared W) (p : Pc)
      → m.table ≡ s.shared.table
      → ((r : MessageRow) → holds p ≡ some r → holds (s.pc i) ≡ some r)
      → Inv (record { shared = m; pc = update s.pc i p })
  same_table i m p e own =
      moved-Inv s i m p inv (rw e inv.keys) (λ k r h. inv.counted k r (rw e at h))
        (λ r h.
          let mine = own r h in
          let at_key = inv.held i r mine in
          (rw e at_key.0, at_key.1, λ j q apart g same. apart (inv.alone i j r q mine g same)))
        (λ j q apart g. rw e (inv.held j q g).0)

  taken_free :
      (id : Text) (old q : MessageRow)
      → get_message id s.shared.table ≡ some old
      → can_claim old ≡ true
      → get_message q.id s.shared.table ≡ some q
      → q.status ≡ processing
      → ¬ (id ≡ q.id)
  taken_free id old q h free g busy same =
      let again : get_message id s.shared.table ≡ some q =
        ap (λ k. get_message k s.shared.table) same ∙ g in
      let x : old ≡ q = cc (h, again) in
      let y : can_claim q ≡ true = subst (λ r. can_claim r ≡ true) x free in ground arith

  taken_over :
      (i : ℕ) (id : Text) (now : ℕ) (row : MessageRow) (table : Table)
      → claim id now s.shared.table ≡ (some row, table)
      → Inv (record {
        shared = record s.shared { table = table };
        pc = update s.pc i (delivering row);
      })
  taken_over i id now row table e =
      let (old, h, free, same, w) = claim_won id now s.shared.table table row inv.keys e in
      let old_key = get_message-id id s.shared.table old h in
      let key : row.id ≡ id = ap (λ r. r.id) same ∙ old_key in
      let count = inv.counted id old h in
      let busy : row.status ≡ processing = ap (λ r. r.status) same in
      let fewer : Counted row = subst Counted (sym same) (ground arith) in
      moved-Inv s i (record s.shared { table = table }) (delivering row) inv w.keys_kept
        (Rewrites-Counted id row s.shared.table table w fewer inv.counted)
        (λ r g.
          let mine : row ≡ r = cc g in
          subst
            (λ x.
              (get_message x.id table ≡ some x)
              × (x.status ≡ processing)
              × ((j : ℕ) (q : MessageRow) → ¬ (i ≡ j) → holds (s.pc j) ≡ some q → ¬ (x.id ≡ q.id)))
            mine
            (
              ap (λ k. get_message k table) key ∙ w.at_key,
              busy,
              λ j q apart f clash.
                  taken_free id old q h free (inv.held j q f).0 (inv.held j q f).1
                    (sym key ∙ clash),
            ))
        (λ j q apart f.
          w.elsewhere q.id (taken_free id old q h free (inv.held j q f).0 (inv.held j q f).1)
          ∙ (inv.held j q f).0)

  Move-Inv :
      (c : WorkerContext W) (i : ℕ) (m : Shared W) (p : Pc) (o : Pc)
      → s.pc i ≡ o
      → Move c s.shared o m p
      → Inv (record { shared = m; pc = update s.pc i p })
  unfolding mark_failed
  Move-Inv c i m p o at (choose now e) = same_table i _ _ refl (λ r h. absurd (cc))
  Move-Inv c i m p o at (take {id} {row} {table} now e) = taken_over i id now row table e
  Move-Inv c i m p o at (lose {id} {table} now e) =
      same_table i _ _ (claim_lost id now s.shared.table table inv.keys e) (λ r h. absurd (cc))
  Move-Inv c i m p o at (call config a e) = same_table i _ _ refl (λ r h. ap holds at ∙ h)
  Move-Inv c i m p o at (finish {row} {outcome} t) =
      let mine = inv.held i row (ap holds at) in
      let_go i row (settled c.unicode_word t outcome row) _ (ap holds at)
        (settle-Rewrites c.unicode_word row t outcome s.shared.table s.shared.world s.shared.hub
          inv.keys mine.0)
        (settled-Counted c.unicode_word t outcome row (inv.counted row.id row mine.0))
  Move-Inv c i m p o at (crash config a e) = same_table i _ _ refl (λ r h. absurd (cc))
  Move-Inv c i m p o at (refuse {row} config now e) =
      let mine = inv.held i row (ap holds at) in
      let count = inv.counted row.id row mine.0 in
      let_go i row _ _ (ap holds at)
        (update-Rewrites always _ row s.shared.table (λ x. refl) inv.keys mine.0 refl)
        (ground arith)

  accepted :
      (box : SecretBox) (m : NewMessage) (d : Draw) (row : MessageRow) (table : Table)
      → insert_message box m d s.shared.table ≡ ok (row, table)
      → Inv (record { shared = record s.shared { table = table }; pc = s.pc })
  accepted box m d row table e =
      let (free, added, fresh) = insert_won box m d s.shared.table table row e in
      record {
        keys = rw added (DistinctIds-append s.shared.table row free inv.keys);
        counted = λ k r h. elim (Option-cases (get_message k s.shared.table)) [
          | inr (old, g) ↦
              let kept = get_message-append_old k s.shared.table row old g in
              let same : old ≡ r = cc (kept, added, h) in subst Counted same (inv.counted k old g)
          | inl g ↦
              let new = get_message-append k s.shared.table row g in
              let found : get_message k (s.shared.table ++ (row ∷ [])) ≡ some r = cc (added, h) in
              let same : row ≡ r = ground (arith, new, found) in subst Counted same fresh
        ];
        held = λ i r h.
            let mine = inv.held i r h in
            (rw added (get_message-append_old r.id s.shared.table row r mine.0), mine.1);
        alone = inv.alone;
      }

-- Every step keeps the invariant, a restart included.
pub Step-Inv : {W : Type 0} {c : WorkerContext W} {s s' : System W} → Step c s s' → Inv s → Inv s'
Step-Inv {c} {s} (works i mv) inv = Move-Inv s inv c i _ _ (s.pc i) refl mv
Step-Inv {c} {s} (accepts {row} {table} m d e) inv = accepted s inv c.box m d row table e
Step-Inv {s} restarts inv = record {
  keys = inv.keys;
  counted = inv.counted;
  held = λ i r h. absurd (cc);
  alone = λ i j r q h. absurd (cc);
}

pub Steps-Inv : {W : Type 0} {c : WorkerContext W} {s s' : System W} → Steps c s s' → Inv s → Inv s'
Steps-Inv none_yet inv = inv
Steps-Inv (then_one steps step) inv = Step-Inv step (Steps-Inv steps inv)

pub Reach-Inv : {W : Type 0} {c : WorkerContext W} {s : System W} → Reach c s → Inv s
Reach-Inv (w, hub, steps) = Steps-Inv steps (start-Inv w hub)
