-- ===== src/Queue/Repository/Lookup.antt =====
-- Reading the table of src/msgate/queue/repository.py after a change of it.
use mathlib.Core.Option
use msgate.Prelude.{
  suc, ◌+◌, ◌≡◌, refl, ap, inl, inr, Bool, true, false, ◌&&◌, none, some, [], ◌∷◌, ◌++◌, Text,
  text_eq, text_eq_iff, text_eq_refl, if◌then◌else◌, Bool-cases, arith, length, Has, here, there,
}
use msgate.Queue.Repository.{MessageRow, Table, get_message, update_where, count_pending, can_claim}

-- A change that keeps the primary key.
abbrev pub KeepsId : (MessageRow → MessageRow) → Type 0
KeepsId change = (r : MessageRow) → (change r).id ≡ r.id

module _ (k : Text) (cond : MessageRow → Bool) (change : MessageRow → MessageRow)
    (keeps : KeepsId change) where
  -- A read by key sees exactly the updated row changed.
  pub get_message-update_where :
      (j : Text) (table : Table)
      → get_message j (update_where k cond change table)
        ≡ Option.map (λ r. if text_eq k j && cond r then change r else r) (get_message j table)
  unfolding get_message update_where
  get_message-update_where j [] = refl
  get_message-update_where j (r ∷ rs) =
      ground (arith, keeps r, text_eq_iff j r.id, get_message-update_where j rs)

  pub length-update_where :
      (table : Table) → length (update_where k cond change table) ≡ length table
  unfolding update_where
  length-update_where [] = refl
  length-update_where (r ∷ rs) = ap suc (length-update_where rs)

pub get_message-id :
    (j : Text) (table : Table) (r : MessageRow) → get_message j table ≡ some r → r.id ≡ j
unfolding get_message
get_message-id j [] r h = absurd (cc)
get_message-id j (x ∷ xs) r h = ground (arith, text_eq_iff j x.id, get_message-id j xs r)

pub get_message-append :
    (j : Text) (table : Table) (r : MessageRow)
    → get_message j table ≡ none
    → get_message j (table ++ (r ∷ [])) ≡ (if text_eq j r.id then some r else none)
unfolding get_message
get_message-append j [] r h = refl
get_message-append j (x ∷ xs) r h = ground (arith, get_message-append j xs r)

pub get_message-append_old :
    (j : Text) (table : Table) (r old : MessageRow)
    → get_message j table ≡ some old
    → get_message j (table ++ (r ∷ [])) ≡ some old
unfolding get_message
get_message-append_old j [] r old h = absurd (cc)
get_message-append_old j (x ∷ xs) r old h = ground (arith, get_message-append_old j xs r old)

-- No two rows share a primary key.
abbrev pub DistinctIds : Table → Type 0
DistinctIds [] = Unit
DistinctIds (r ∷ rs) = (get_message r.id rs ≡ none) × DistinctIds rs

pub Has-get_message :
    {r : MessageRow} {table : Table}
    → Has r table
    → DistinctIds table
    → get_message r.id table ≡ some r
unfolding get_message
Has-get_message {r} here d = rw (text_eq_refl r.id)
Has-get_message {r} (there {y = x} {xs = xs} m) d = elim (Bool-cases (text_eq r.id x.id)) [
  | inl e ↦
      let clash = d.0 in
      let found = Has-get_message m d.1 in absurd (ground (arith, text_eq_iff r.id x.id))
  | inr e ↦ rw e (Has-get_message m d.1)
]

kept_id :
    (b : Bool) (change : MessageRow → MessageRow) (r : MessageRow)
    → KeepsId change
    → (if b then change r else r).id ≡ r.id
kept_id true change r keeps = keeps r
kept_id false change r keeps = refl

pub DistinctIds-update_where :
    (k : Text) (cond : MessageRow → Bool) (change : MessageRow → MessageRow)
    → KeepsId change
    → (table : Table) → DistinctIds table
    → DistinctIds (update_where k cond change table)
unfolding update_where
DistinctIds-update_where k cond change keeps [] d = tt
DistinctIds-update_where k cond change keeps (r ∷ rs) d = (
  rw (
    kept_id (text_eq k r.id && cond r) change r keeps,
    get_message-update_where k cond change keeps r.id rs,
    d.0,
  ),
  DistinctIds-update_where k cond change keeps rs d.1,
)

pub DistinctIds-append :
    (table : Table) (r : MessageRow)
    → get_message r.id table ≡ none
    → DistinctIds table
    → DistinctIds (table ++ (r ∷ []))
unfolding get_message
DistinctIds-append [] r h d = (refl, tt)
DistinctIds-append (x ∷ xs) r h d = (
  ground (arith, get_message-append x.id xs r d.0, text_eq_iff r.id x.id, text_eq_iff x.id r.id),
  DistinctIds-append xs r (ground arith) d.1,
)

-- The rows that wait for a worker, counted after one row changes.
pub count_pending-append :
    (table : Table) (r : MessageRow)
    → can_claim r ≡ true
    → count_pending (table ++ (r ∷ [])) ≡ count_pending table + 1
unfolding count_pending
count_pending-append [] r h = ground arith
count_pending-append (x ∷ xs) r h = ground (arith, count_pending-append xs r h)
