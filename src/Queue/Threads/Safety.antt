-- ===== src/Queue/Threads/Safety.antt =====
-- What holds of the threads in every reachable state.
use msgate.Prelude.{
  ℕ, ◌≡◌, refl, sym, ap, ◌∙◌, subst, inl, inr, Bool, some, Text, text_eq, text_eq_iff, Bool-cases,
  arith,
}
use msgate.Drivers.{Sending, failing}
use msgate.Drivers
use msgate.Queue.Processor.{Readings, settle}
use msgate.Queue.Processor.Settling.{settled, settle-Rewrites}
use msgate.Queue.Processor.Attempts.{Settles, settled-Settles}
use msgate.Queue.Repository.{MessageRow, processing, Table, get_message, mark_failed, always}
use msgate.Queue.Repository.Lookup.{get_message-append_old}
use msgate.Queue.Repository.Rewriting.{Rewrites, update-Rewrites}
use msgate.Queue.Worker.{WorkerContext}
use msgate.Queue.Threads.{
  Pc, holds, settling, Shared, System, Move, choose, take, lose, call, finish, crash, refuse, Step,
  works, accepts, restarts, Steps, none_yet, then_one, Reach,
}
use msgate.Queue.Threads.Ownership.{Inv}
use msgate.Queue.Threads.Moves.{claim_won, claim_lost, insert_won, Steps-Inv, Reach-Inv}

-- No message is delivered twice at the same time: in every reachable state, two workers that hold
-- rows with the same key are one worker, and its row is in process and in the table as it holds it.
pub exclusive_delivery :
    {W : Type 0} {c : WorkerContext W} {s : System W} (i j : ℕ) (r q : MessageRow)
    → Reach c s
    → holds (s.pc i) ≡ some r
    → holds (s.pc j) ≡ some q
    → r.id ≡ q.id
    → (i ≡ j) × (get_message r.id s.shared.table ≡ some r) × (r.status ≡ processing)
exclusive_delivery i j r q reach h g same =
    let inv = Reach-Inv reach in
    let mine = inv.held i r h in (inv.alone i j r q h g same, mine.0, mine.1)

-- Whatever the other threads do to the table while the driver is called, in every reachable state the
-- commit that ends a delivery changes the row of its message as `Settles` says of the outcome, and no
-- other row.
pub finish-Settles :
    {W : Type 0} {c : WorkerContext W} {s : System W} (i : ℕ) (row : MessageRow) (outcome : Sending)
    (t : Readings)
    → Reach c s
    → s.pc i ≡ settling row outcome
    → (new : MessageRow) × Settles c.unicode_word t outcome row new
      × Rewrites row.id new s.shared.table
          (settle c.unicode_word row t outcome s.shared.table s.shared.world s.shared.hub).table
finish-Settles {c} {s} i row outcome t reach at =
    let inv = Reach-Inv reach in
    (
      settled c.unicode_word t outcome row,
      settled-Settles c.unicode_word t outcome row,
      settle-Rewrites c.unicode_word row t outcome s.shared.table s.shared.world s.shared.hub
          inv.keys (inv.held i row (ap holds at)).0,
    )

-- The message that a row stands for.
abbrev pub SameMail : MessageRow → MessageRow → Type 0
SameMail old new =
    (new.id ≡ old.id)
    × (new.sender ≡ old.sender)
    × (new.recipients ≡ old.recipients)
    × (new.subject ≡ old.subject)
    × (new.mime_payload ≡ old.mime_payload)
    × (new.ews_username ≡ old.ews_username)
    × (new.ews_password_enc ≡ old.ews_password_enc)
    × (new.created_at ≡ old.created_at)

SameMail-refl : (r : MessageRow) → SameMail r r
SameMail-refl r = (refl, refl, refl, refl, refl, refl, refl, refl)

SameMail-trans : (a b c : MessageRow) → SameMail a b → SameMail b c → SameMail a c
SameMail-trans a b c h g =
    (g.0 ∙ h.0, g.1 ∙ h.1, g.2 ∙ h.2, g.3 ∙ h.3, g.4 ∙ h.4, g.5 ∙ h.5, g.6 ∙ h.6, g.7 ∙ h.7)

settled-SameMail :
    (u : ℕ → Bool) (t : Readings) (o : Sending) (row : MessageRow)
    → SameMail row (settled u t o row)
settled-SameMail u t (Drivers.sent r) row = SameMail-refl row
settled-SameMail u t (failing err) row = ground arith

abbrev Keeps : Text → MessageRow → Table → Type 0
Keeps k r table = (new : MessageRow) × (get_message k table ≡ some new) × SameMail r new

rewritten :
    (k j : Text) (r row new : MessageRow) (table table' : Table)
    → get_message k table ≡ some r
    → get_message j table ≡ some row
    → SameMail row new
    → Rewrites j new table table'
    → Keeps k r table'
rewritten k j r row new table table' h g same w = elim (Bool-cases (text_eq j k)) [
  | inl e ↦
      let x : j ≡ k = (text_eq_iff j k).0 e in
      let again = ap (λ y. get_message y table) x ∙ h in
      let old : row ≡ r = cc (g, again) in
      (new, sym (ap (λ y. get_message y table') x) ∙ w.at_key, rw (sym old) same)
  | inr e ↦ (r, w.elsewhere k (λ x. ground (arith, text_eq_iff j k)) ∙ h, SameMail-refl r)
]

Move-Keeps :
    {W : Type 0} (c : WorkerContext W) (s : System W) (inv : Inv s) (k : Text) (r : MessageRow)
    (i : ℕ) (m : Shared W) (p : Pc) (o : Pc)
    → get_message k s.shared.table ≡ some r
    → s.pc i ≡ o
    → Move c s.shared o m p
    → Keeps k r m.table
unfolding mark_failed
Move-Keeps c s inv k r i m p o h at (choose now e) = (r, h, SameMail-refl r)
Move-Keeps c s inv k r i m p o h at (take {id} {row} {table} now e) =
    let (old, g, free, same, w) = claim_won id now s.shared.table table row inv.keys e in
    rewritten k id r old row s.shared.table table h g
      (subst (SameMail old) (sym same) (SameMail-refl old)) w
Move-Keeps c s inv k r i m p o h at (lose {id} {table} now e) =
    (r, ap (get_message k) (claim_lost id now s.shared.table table inv.keys e) ∙ h, SameMail-refl r)
Move-Keeps c s inv k r i m p o h at (call config a e) = (r, h, SameMail-refl r)
Move-Keeps c s inv k r i m p o h at (finish {row} {outcome} t) =
    let mine = inv.held i row (ap holds at) in
    rewritten k row.id r row _ s.shared.table _ h mine.0
      (settled-SameMail c.unicode_word t outcome row)
      (settle-Rewrites c.unicode_word row t outcome s.shared.table s.shared.world s.shared.hub
        inv.keys mine.0)
Move-Keeps c s inv k r i m p o h at (crash config a e) = (r, h, SameMail-refl r)
Move-Keeps c s inv k r i m p o h at (refuse {row} config now e) =
    let mine = inv.held i row (ap holds at) in
    rewritten k row.id r row _ s.shared.table _ h mine.0 (SameMail-refl row)
      (update-Rewrites always _ row s.shared.table (λ x. refl) inv.keys mine.0 refl)

Step-Keeps :
    {W : Type 0} {c : WorkerContext W} {s s' : System W} (k : Text) (r : MessageRow)
    → Step c s s'
    → Inv s
    → get_message k s.shared.table ≡ some r
    → Keeps k r s'.shared.table
Step-Keeps {c} {s} k r (works i mv) inv h = Move-Keeps c s inv k r i _ _ (s.pc i) h refl mv
Step-Keeps {c} {s} k r (accepts {row} {table} m d e) inv h =
    let won = insert_won c.box m d s.shared.table table row e in
    (r, ap (get_message k) won.1 ∙ get_message-append_old k s.shared.table row r h, SameMail-refl r)
Step-Keeps k r restarts inv h = (r, h, SameMail-refl r)

-- No row leaves the table, and none is altered in what it holds of its message: a row of a reachable
-- state is in every later state, in whatever status, with the same key, sender, recipients, subject,
-- payload, credentials and time of acceptance.
pub mail_kept :
    {W : Type 0} {c : WorkerContext W} {s s' : System W} (k : Text) (r : MessageRow)
    → Reach c s
    → get_message k s.shared.table ≡ some r
    → Steps c s s'
    → (new : MessageRow) × (get_message k s'.shared.table ≡ some new) × SameMail r new
mail_kept k r reach h none_yet = (r, h, SameMail-refl r)
mail_kept k r reach h (then_one steps step) =
    let (mid, g, same) = mail_kept k r reach h steps in
    let (new, f, more) = Step-Keeps k mid step (Steps-Inv steps (Reach-Inv reach)) g in
    (new, f, SameMail-trans r mid new same more)
