-- ===== src/Queue/Repository/Totals.antt =====
-- Sums over the table of src/msgate/queue/repository.py, and how an update by key moves them.
use msgate.Prelude.{
  ℕ, ◌+◌, ◌≡◌, refl, inl, inr, Bool, false, none, some, [], ◌∷◌, ◌++◌, Text, text_eq, text_eq_iff,
  if◌then◌else◌, Bool-cases, arith,
}
use msgate.Queue.Repository.{
  MessageRow, Table, get_message, update_where, row_count, count_pending, can_claim,
}
use msgate.Queue.Repository.Lookup.{DistinctIds}

unfoldable pub total : (MessageRow → ℕ) → Table → ℕ
total f [] = 0
total f (r ∷ rs) = f r + total f rs

abbrev pub pending_weight : MessageRow → ℕ
pending_weight r = if can_claim r then 1 else 0

pub count_pending-total : (table : Table) → count_pending table ≡ total pending_weight table
unfolding count_pending total
count_pending-total [] = refl
count_pending-total (r ∷ rs) = ground (arith, count_pending-total rs)

pub total-append :
    (f : MessageRow → ℕ) (table : Table) (r : MessageRow)
    → total f (table ++ (r ∷ [])) ≡ total f table + f r
unfolding total
total-append f [] r = omega arith
total-append f (x ∷ xs) r = omega (arith, total-append f xs r)

module _ (k : Text) (cond : MessageRow → Bool) (change : MessageRow → MessageRow) where
  -- An update of a key that is not there.
  pub update_where_absent :
      (table : Table) → get_message k table ≡ none → update_where k cond change table ≡ table
  unfolding get_message update_where
  update_where_absent [] h = refl
  update_where_absent (x ∷ xs) h = ground (arith, update_where_absent xs)

  pub row_count_absent : (table : Table) → get_message k table ≡ none → row_count k cond table ≡ 0
  unfolding get_message row_count
  row_count_absent [] h = refl
  row_count_absent (x ∷ xs) h = ground (arith, row_count_absent xs)

  pub total-update_where :
      (f : MessageRow → ℕ) (table : Table) (r : MessageRow)
      → DistinctIds table
      → get_message k table ≡ some r
      → total f (update_where k cond change table) + f r
        ≡ total f table + f (if cond r then change r else r)
  unfolding get_message update_where total
  total-update_where f [] r d h = absurd (cc)
  total-update_where f (x ∷ xs) r d h = elim (Bool-cases (text_eq k x.id)) [
    | inl e ↦ ground (arith, update_where_absent xs, text_eq_iff k x.id)
    | inr e ↦ ground (arith, total-update_where f xs r d.1)
  ]

  pub row_count_present :
      (table : Table) (r : MessageRow)
      → DistinctIds table
      → get_message k table ≡ some r
      → row_count k cond table ≡ (if cond r then 1 else 0)
  unfolding get_message row_count
  row_count_present [] r d h = absurd (cc)
  row_count_present (x ∷ xs) r d h = elim (Bool-cases (text_eq k x.id)) [
    | inl e ↦ ground (arith, row_count_absent xs, text_eq_iff k x.id)
    | inr e ↦ ground (arith, row_count_present xs r d.1)
  ]

  -- An update whose row does not meet the condition.
  pub update_where_blocked :
      (table : Table) (r : MessageRow)
      → DistinctIds table
      → get_message k table ≡ some r
      → cond r ≡ false
      → update_where k cond change table ≡ table
  unfolding get_message update_where
  update_where_blocked [] r d h e = refl
  update_where_blocked (x ∷ xs) r d h e =
      ground (arith, update_where_absent xs, text_eq_iff k x.id, update_where_blocked xs r d.1)
