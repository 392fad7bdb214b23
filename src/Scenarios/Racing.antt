-- ===== src/Scenarios/Racing.antt =====
-- Two workers that choose the same message, and one that is killed during a delivery.
use msgate.Prelude.{ℕ, ◌≤◌, ◌≡◌, refl, inl, none, some, [], ◌∷◌, codes, Text}
use msgate.Prelude.Base64.{b64encode, b64decode}
use msgate.Drivers.{Sending, resolve_driver}
use msgate.Drivers
use msgate.Events.{announce}
use msgate.Prelude.Sort.{sort}
use msgate.Queue.Processor.{make_request, call_driver, settle, max_attempts}
use msgate.Queue.Processor.Attempts.{Settles}
use msgate.Queue.Repository.{
  MessageRow, sent, new_row, claimed_at, get_message, insert_message, pending_messages, claim,
  get_password, get_mime_bytes, mark_sent,
}
use msgate.Queue.Repository.Rewriting.{Rewrites}
use msgate.Queue.Worker.{WorkerContext}
use msgate.Queue.Threads.{
  waiting, choosing, delivering, settling, Shared, System, update, works, accepts, restarts, Steps,
  none_yet, then_one, start, choose, take, lose, call, finish,
}
use msgate.Queue.Threads.Safety.{exclusive_delivery, finish-Settles, mail_kept, SameMail}
use msgate.Queue.Threads.Calls.{calls, attempts_of, calls_bounded}
use msgate.Queue.Threads.Orphans.{done_stays, orphan_stays}
use msgate.Scenarios.Samples.{
  unicode_word, box, config, sending, no_override, message, draw, receipt, readings,
}

abbrev context : WorkerContext ℕ
context = record { unicode_word = unicode_word; box = box; client = sending; send_fn = no_override }

abbrev row : MessageRow
row = new_row box message draw

abbrev id : Text
id = codes "msg_d0d0d0d0d0d0"

abbrev taken : MessageRow
taken = claimed_at 51 row

abbrev queued_up : Shared ℕ
queued_up = record { table = row ∷ []; world = 0; hub = none }

abbrev claimed : Shared ℕ
claimed = record queued_up { table = taken ∷ [] }

abbrev both_chose : System ℕ
both_chose = record {
  shared = queued_up;
  pc = update (update (λ i. waiting) 0 (choosing id)) 1 (choosing id);
}

both_chose-Steps : Steps context (start 0 none) both_chose
unfolding insert_message pending_messages new_row sort get_message
both_chose-Steps =
    then_one (then_one (then_one none_yet (accepts message draw refl)) (works 0 (choose 50 refl)))
      (works 1 (choose 50 refl))

-- Worker 0 claims the message, worker 1 finds it taken, and worker 0 calls the driver.
abbrev called : System ℕ
called = record {
  shared = record claimed { world = 1 };
  pc =
      update (update (update both_chose.pc 0 (delivering taken)) 1 waiting) 0
        (settling taken (Drivers.sent (record receipt { driver = some (codes "ews") })));
}

called-Steps : Steps context (start 0 none) called
unfolding claim new_row b64encode get_message make_request get_password get_mime_bytes b64decode
    call_driver resolve_driver
called-Steps =
    then_one
      (then_one (then_one both_chose-Steps (works 0 (take 51 refl))) (works 1 (lose 51 refl)))
      (works 0 (call config refl refl))

exclusive_delivery_example : ◌≡◌ {A = ℕ} 0 0 × (get_message taken.id (taken ∷ []) ≡ some taken)
exclusive_delivery_example =
    let x = exclusive_delivery 0 0 taken taken (0, none, called-Steps) refl refl refl in (x.0, x.1)

calls_bounded_example :
    (calls id called-Steps ≤ attempts_of id called.shared.table)
    × (attempts_of id called.shared.table ≤ max_attempts)
calls_bounded_example = calls_bounded id called-Steps

called_once : attempts_of id called.shared.table ≡ 1
unfolding attempts_of get_message new_row
called_once = refl

finish-Settles_example :
    (new : MessageRow) × Settles unicode_word readings
      (Drivers.sent (record receipt { driver = some (codes "ews") }))
      taken
      new
    × Rewrites taken.id new
        (taken ∷ [])
        (settle {W = ℕ} unicode_word taken readings
          (Drivers.sent (record receipt { driver = some (codes "ews") }))
          (taken ∷ [])
          1
          none).table
finish-Settles_example =
    finish-Settles 0 taken (Drivers.sent (record receipt { driver = some (codes "ews") })) readings
      (0, none, called-Steps) refl

-- The gateway is killed before the commit.
abbrev killed : System ℕ
killed = record { shared = called.shared; pc = λ i. waiting }

killed-Steps : Steps context (start 0 none) killed
killed-Steps = then_one called-Steps restarts

orphan_stays_example : get_message id killed.shared.table ≡ some taken
unfolding get_message new_row
orphan_stays_example =
    orphan_stays id taken (0, none, killed-Steps) refl refl (λ i q h. absurd (cc))
      (then_one none_yet restarts)

abbrev done : MessageRow
done = record taken { status = sent; last_error = none; next_retry_at = none; updated_at = 40 }

abbrev finished : System ℕ
finished = record {
  shared = record called.shared { table = done ∷ [] };
  pc = update called.pc 0 waiting;
}

finished-Steps : Steps context (start 0 none) finished
unfolding settle mark_sent new_row announce
finished-Steps = then_one called-Steps (works 0 (finish readings))

both_later : Steps context both_chose finished
unfolding claim new_row b64encode get_message make_request get_password get_mime_bytes b64decode
    call_driver resolve_driver settle mark_sent announce
both_later =
    then_one
      (then_one (then_one (then_one none_yet (works 0 (take 51 refl))) (works 1 (lose 51 refl)))
        (works 0 (call config refl refl)))
      (works 0 (finish readings))

done_stays_example : get_message id finished.shared.table ≡ some done
unfolding get_message new_row
done_stays_example =
    done_stays id done (0, none, finished-Steps) refl (inl refl) (then_one none_yet restarts)

mail_kept_example : (new : MessageRow) × (get_message id (done ∷ []) ≡ some new) × SameMail row new
unfolding get_message settle mark_sent new_row
mail_kept_example = mail_kept id row (0, none, both_chose-Steps) refl both_later
