-- ===== src/Queue/Repository/Claims.antt =====
-- Claiming a message: `claim_next` of src/msgate/queue/repository.py, alone and in a race.
use msgate.Prelude.{
  ℕ, ◌≤◌, ◌≡◌, refl, ap, ◌∙◌, subst, ◌⊎◌, inl, inr, true, false, none, some, List, [], ◌∷◌, Text,
  text_eq_refl, Bool-cases, Option-cases, arith, filter, take, All, Has, leb→le, leb_false→lt,
  filter-All, filter-All_inv, &&_left,
}
use msgate.Prelude.Sort.{sort, sort-All, sort-All_inv, sort-Ordered, Ordered}
use msgate.Queue.Repository.{
  MessageRow, Table, get_message, update_where, can_claim, claimed_at, claim, claim_next,
  pending_messages, is_ready, older,
}
use msgate.Queue.Repository.Lookup.{KeepsId, DistinctIds, get_message-update_where, Has-get_message}
use msgate.Queue.Repository.Rewriting.{Rewrites, update-Rewrites}
use msgate.Queue.Repository.Totals.{
  update_where_blocked, update_where_absent, row_count_absent, row_count_present,
}

claimed-KeepsId : (now : ℕ) → KeepsId (claimed_at now)
claimed-KeepsId now r = refl

-- What `claim` does, by the row that it finds under the key.
pub claim_missing :
    (k : Text) (now : ℕ) (table : Table)
    → get_message k table ≡ none
    → claim k now table ≡ (none, table)
unfolding claim
claim_missing k now table h =
    rw (row_count_absent k can_claim (claimed_at now) table h)
      (rw (update_where_absent k can_claim (claimed_at now) table h))

pub claim_taken :
    (k : Text) (now : ℕ) (table : Table) (r : MessageRow)
    → DistinctIds table
    → get_message k table ≡ some r
    → can_claim r ≡ false
    → claim k now table ≡ (none, table)
unfolding claim
claim_taken k now table r d h e =
    rw (update_where_blocked k can_claim (claimed_at now) table r d h e)
      (rw (row_count_present k can_claim (claimed_at now) table r d h) (rw e))

pub claim_free :
    (k : Text) (now : ℕ) (table : Table) (r : MessageRow)
    → DistinctIds table
    → get_message k table ≡ some r
    → can_claim r ≡ true
    → claim k now table ≡ (some (claimed_at now r), update_where k can_claim (claimed_at now) table)
unfolding claim
claim_free k now table r d h e = ground (
  arith,
  row_count_present k can_claim (claimed_at now) table r d h,
  get_message-update_where k can_claim (claimed_at now) (claimed-KeepsId now) k table,
  text_eq_refl k,
)

claimed_row :
    (k : Text) (now : ℕ) (table : Table) (r : MessageRow)
    → DistinctIds table
    → get_message k table ≡ some r
    → can_claim r ≡ true
    → get_message k (claim k now table).1 ≡ some (claimed_at now r)
claimed_row k now table r d h e = rw (claim_free k now table r d h e) (
    rw (get_message-update_where k can_claim (claimed_at now) (claimed-KeepsId now) k table)
      (rw (h, text_eq_refl k, e)))

-- Two workers that chose the same message: once the update of one has gone through, the update of
-- the other finds nothing to claim and changes nothing, whatever was done to other rows in between.
pub claim_exclusive :
    (k : Text) (now later : ℕ) (table between : Table) (r : MessageRow)
    → DistinctIds table
    → DistinctIds between
    → (claim k now table).0 ≡ some r
    → get_message k between ≡ get_message k (claim k now table).1
    → claim k later between ≡ (none, between)
claim_exclusive k now later table between r d d' h same =
    elim (Option-cases (get_message k table)) [
      | inl e ↦ absurd (ground (arith, claim_missing k now table e))
      | inr (old, e) ↦ elim (Bool-cases (can_claim old)) [
        | inl f ↦
            claim_taken k later between (claimed_at now old) d'
              (same ∙ claimed_row k now table old d e f) refl
        | inr f ↦ absurd (ground (arith, claim_taken k now table old d e f))
      ]
    ]

abbrev Older : MessageRow → MessageRow → Type 0
Older a b = a.created_at ≤ b.created_at

pending_cases :
    (now : ℕ) (table : Table)
    → (All (λ r. ¬ (is_ready now r ≡ true)) table × (pending_messages now 1 table ≡ []))
      ⊎ ((r : MessageRow) × Has r table
          × (is_ready now r ≡ true)
          × All (λ s. is_ready now s ≡ true → r.created_at ≤ s.created_at) table
          × (pending_messages now 1 table ≡ r ∷ []))
unfolding pending_messages
pending_cases now table = go (sort older (filter (is_ready now) table)) refl
  where
    ready : List MessageRow
    ready = filter (is_ready now) table

    Ready : MessageRow → Type 0
    Ready s = Has s table × (is_ready now s ≡ true)

    ordered : Ordered Older (sort older ready)
    ordered =
        sort-Ordered older Older (λ a b h. leb→le a.created_at b.created_at h)
          (λ a b h. ground (arith, leb_false→lt a.created_at b.created_at h))
          (λ a b c h g. omega arith) ready

    go :
        (l : List MessageRow)
        → sort older ready ≡ l
        → (All (λ r. ¬ (is_ready now r ≡ true)) table × (take 1 (sort older ready) ≡ []))
          ⊎ ((r : MessageRow) × Has r table
              × (is_ready now r ≡ true)
              × All (λ s. is_ready now s ≡ true → r.created_at ≤ s.created_at) table
              × (take 1 (sort older ready) ≡ r ∷ []))
    go [] e = inl (
      filter-All_inv (λ _. ⊥) (is_ready now) table (sort-All_inv older (λ _. ⊥) ready (rw e tt)),
      rw e,
    )
    go (r ∷ rest) e =
        let least : All (λ s. r.created_at ≤ s.created_at) (r ∷ rest) =
          (omega arith, (subst (Ordered Older) e ordered).0) in
        let member : Has r table × (is_ready now r ≡ true) =
          (subst (All Ready) e (sort-All older Ready ready (filter-All (is_ready now) table))).0 in
        inr (
          r,
          member.0,
          member.1,
          filter-All_inv (λ s. r.created_at ≤ s.created_at) (is_ready now) table
              (sort-All_inv older (λ s. r.created_at ≤ s.created_at) ready (rw e least)),
          rw e,
        )

-- With distinct keys `claim_next` either finds no row that is pending and due, and changes nothing;
-- or it returns such a row of the table, none of which was created earlier, now processing and with
-- one attempt more, and the table holds that row under its key and every other row as it was.
pub claim_next_cases :
    (now now' : ℕ) (table : Table)
    → DistinctIds table
    → (All (λ r. ¬ (is_ready now r ≡ true)) table × (claim_next now now' table ≡ (none, table)))
      ⊎ ((r : MessageRow) × Has r table
          × (is_ready now r ≡ true)
          × All (λ s. is_ready now s ≡ true → r.created_at ≤ s.created_at) table
          × ((claim_next now now' table).0 ≡ some (claimed_at now' r))
          × Rewrites r.id (claimed_at now' r) table (claim_next now now' table).1)
unfolding claim_next
claim_next_cases now now' table d = elim (pending_cases now table) [
  | inl (idle, e) ↦ inl (idle, rw (e, claim_next))
  | inr (r, m, ready, oldest, e) ↦
      let at_key = Has-get_message m d in
      let free = &&_left (can_claim r) _ ready in
      let done = claim_free r.id now' table r d at_key free in
      inr (
        r,
        m,
        ready,
        oldest,
        rw (e, claim_next) (ap (λ p. p.0) done),
        rw (e, claim_next)
            (rw done (
              update-Rewrites can_claim (claimed_at now') r table (claimed-KeepsId now') d at_key
                free)),
      )
]
