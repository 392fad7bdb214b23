-- ===== src/Queue/Repository/Rewriting.antt =====
-- The effect of an update by key on the table of src/msgate/queue/repository.py, in one record.
use mathlib.Core.Option
use msgate.Prelude.{
  ℕ, ◌+◌, ◌≡◌, refl, ◌∙◌, Bool, true, ◌&&◌, Option, none, some, Text, text_eq, text_eq_refl,
  text_eq-false, if◌then◌else◌, arith,
}
use msgate.Queue.Repository.{MessageRow, Table, get_message, update_where}
use msgate.Queue.Repository.Lookup.{
  KeepsId, DistinctIds, get_message-update_where, DistinctIds-update_where,
}
use msgate.Queue.Repository.Totals.{total, total-update_where}

-- The second table is the first but for the row under k, which is now the given one.
pub record Rewrites (k : Text) (new : MessageRow) (table table' : Table) : Type 0 where
  pub at_key : get_message k table' ≡ some new
  pub elsewhere : (j : Text) → ¬ (k ≡ j) → get_message j table' ≡ get_message j table
  pub keys_kept : DistinctIds table'
  pub sum_moved :
      (f : MessageRow → ℕ) (old : MessageRow)
      → get_message k table ≡ some old
      → total f table' + f old ≡ total f table + f new

pub update-Rewrites :
    (cond : MessageRow → Bool) (change : MessageRow → MessageRow) (row : MessageRow) (table : Table)
    → KeepsId change
    → DistinctIds table
    → get_message row.id table ≡ some row
    → cond row ≡ true
    → Rewrites row.id (change row) table (update_where row.id cond change table)
update-Rewrites cond change row table keeps d h c = record {
  at_key =
      rw (get_message-update_where row.id cond change keeps row.id table)
        (rw (h, text_eq_refl row.id, c));
  elsewhere = λ j n.
      get_message-update_where row.id cond change keeps j table ∙ other j (get_message j table) n;
  keys_kept = DistinctIds-update_where row.id cond change keeps table d;
  sum_moved = λ f old e. total-update_where row.id cond change f table old d e ∙ same f old e;
}
  where
    other :
        (j : Text) (o : Option MessageRow)
        → ¬ (row.id ≡ j)
        → Option.map (λ r. if text_eq row.id j && cond r then change r else r) o ≡ o
    other j none n = refl
    other j (some r) n = rw (text_eq-false row.id j n)

    same :
        (f : MessageRow → ℕ) (old : MessageRow)
        → get_message row.id table ≡ some old
        → total f table + f (if cond old then change old else old) ≡ total f table + f (change row)
    same f old e = ground (arith, h, e, c)
