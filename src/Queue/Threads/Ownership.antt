-- ===== src/Queue/Threads/Ownership.antt =====
-- The invariant of the threads that share the table: who holds which row.
use msgate.Prelude.{
  ℕ, ◌+◌, ◌≤◌, ◌≡◌, sym, ◌∙◌, subst, inl, inr, ◌==◌, Option, some, Text, text_eq, text_eq_iff,
  if◌then◌else◌, Bool-cases, arith,
}
use msgate.Queue.Processor.{max_attempts}
use msgate.Queue.Repository.{MessageRow, processing, Table, get_message, can_claim}
use msgate.Queue.Repository.Lookup.{DistinctIds}
use msgate.Queue.Repository.Rewriting.{Rewrites}
use msgate.Queue.Threads.{Pc, holds, Shared, System, update, start}
use msgate.Events.{EventHub}

-- No row is attempted too often: a row that may be claimed has an attempt left.
abbrev pub Counted : MessageRow → Type 0
Counted r = r.attempts + (if can_claim r then 1 else 0) ≤ max_attempts

pub record Inv {W : Type 0} (s : System W) : Type 0 where
  pub keys : DistinctIds s.shared.table
  pub counted : (k : Text) (r : MessageRow) → get_message k s.shared.table ≡ some r → Counted r
  -- A row that a worker holds is in the table as the worker knows it, and in process.
  pub held :
      (i : ℕ) (r : MessageRow)
      → holds (s.pc i) ≡ some r
      → (get_message r.id s.shared.table ≡ some r) × (r.status ≡ processing)
  pub alone :
      (i j : ℕ) (r q : MessageRow)
      → holds (s.pc i) ≡ some r
      → holds (s.pc j) ≡ some q
      → r.id ≡ q.id
      → i ≡ j

pub start-Inv : {W : Type 0} (w : W) (hub : Option EventHub) → Inv (start w hub)
unfolding get_message
start-Inv w hub = record {
  keys = tt;
  counted = λ k r h. absurd (cc);
  held = λ i r h. absurd (cc);
  alone = λ i j r q h. absurd (cc);
}

-- What a worker's step owes: its own row, if it holds one now, and the rows of the others.
pub moved-Inv :
    {W : Type 0} (s : System W) (i : ℕ) (m : Shared W) (p : Pc)
    → Inv s
    → DistinctIds m.table
    → ((k : Text) (r : MessageRow) → get_message k m.table ≡ some r → Counted r)
    → ((r : MessageRow)
        → holds p ≡ some r
        → (get_message r.id m.table ≡ some r)
          × (r.status ≡ processing)
          × ((j : ℕ) (q : MessageRow) → ¬ (i ≡ j) → holds (s.pc j) ≡ some q → ¬ (r.id ≡ q.id)))
    → ((j : ℕ) (q : MessageRow)
        → ¬ (i ≡ j)
        → holds (s.pc j) ≡ some q
        → get_message q.id m.table ≡ some q)
    → Inv (record { shared = m; pc = update s.pc i p })
moved-Inv s i m p inv keys counted own rest = record {
  keys = keys;
  counted = counted;
  held = λ j r h. elim (Bool-cases (i == j)) [
    | inl e ↦ let o = own r (rw e at h) in (o.0, o.1)
    | inr e ↦
        let other : holds (s.pc j) ≡ some r = rw e at h in
        (rest j r (λ x. ground arith) other, (inv.held j r other).1)
  ];
  alone = λ j l r q h g same. elim (Bool-cases (i == j)) [
    | inl e ↦ elim (Bool-cases (i == l)) [
      | inl f ↦ ground arith
      | inr f ↦ absurd ((own r (rw e at h)).2 l q (λ x. ground arith) (rw f at g) same)
    ]
    | inr e ↦ elim (Bool-cases (i == l)) [
      | inl f ↦ absurd ((own q (rw f at g)).2 j r (λ x. ground arith) (rw e at h) (sym same))
      | inr f ↦ inv.alone j l r q (rw e at h) (rw f at g) same
    ]
  ];
}

-- The counts of a table in which one row was changed.
pub Rewrites-Counted :
    (k : Text) (new : MessageRow) (table table' : Table)
    → Rewrites k new table table'
    → Counted new
    → ((j : Text) (r : MessageRow) → get_message j table ≡ some r → Counted r)
    → (j : Text) (r : MessageRow) → get_message j table' ≡ some r
    → Counted r
Rewrites-Counted k new table table' w n c j r h = elim (Bool-cases (text_eq k j)) [
  | inl e ↦
      let same : k ≡ j = (text_eq_iff k j).0 e in
      let found : get_message k table' ≡ some r = rw same h in
      let x : new ≡ r = cc (w.at_key, found) in subst Counted x n
  | inr e ↦ c j r (sym (w.elsewhere j (λ x. ground (arith, text_eq_iff k j))) ∙ h)
]
