-- ===== src/Ops/Digest/Schedule/Once.antt =====
-- How often the scheduler of src/msgate/ops/digest_scheduler.py sends a digest.
use msgate.Prelude.{
  ℕ, ◌≤◌, ◌<◌, Bool, true, false, ◌&&◌, Option, none, some, List, [], ◌∷◌, ◌++◌, append-nil, Text,
  ◌≡◌, refl, sym, ap, ◌∙◌, subst, text_eq_iff, Bool-cases, inl, inr, arith, if◌then◌else◌,
}
use msgate.Prelude.Results.{Exception}
use msgate.Prelude.Texts.{is_empty, strip}
use msgate.Drivers.{EwsClient}
use msgate.Ops.{OpsAlertsConfig}
use msgate.Ops.Digest.{Calendar, day_of, week_of}
use msgate.Ops.Digest.Mail.{Attaching}
use msgate.Ops.Digest.Schedule.{
  DigestState, StateJson, load_digest_state, save_digest_state, Period, daily, weekly, manual,
  Reading, Scheduler, Ticked, daily_due, weekly_due, marked, is_done, build, dispatch_digest,
  send_due, state_after, try_daily, try_weekly, followed, tick_digests,
}
use msgate.Queue.Repository.{Table}

pub load_digest_state-save_digest_state :
    (json : StateJson) (st : DigestState) → load_digest_state json (save_digest_state json st) ≡ st
unfolding load_digest_state save_digest_state
load_digest_state-save_digest_state json st = rw (json.print_nonblank st, json.read-print st) refl

-- The day, or the week, that a digest's marker names.
abbrev pub stamp : Period → ℕ → ℕ
stamp daily now = day_of now
stamp weekly now = week_of now
stamp manual now = 0

abbrev stamp_text : Calendar → Period → ℕ → Text
stamp_text calendar daily n = calendar.date_text n
stamp_text calendar weekly n = calendar.week_text n
stamp_text calendar manual n = []

abbrev marker : Period → DigestState → Text
marker daily st = st.last_daily
marker weekly st = st.last_weekly
marker manual st = []

abbrev pub same_period : Period → Period → Bool
same_period daily daily = true
same_period weekly weekly = true
same_period manual manual = true
same_period _ _ = false

abbrev pub has_period : Period → List Period → Bool
has_period p [] = false
has_period p (q ∷ qs) = if same_period p q then true else has_period p qs

module _ (calendar : Calendar) where
  -- The marker does not name the period of this time yet.
  abbrev Due : Period → ℕ → DigestState → Type 0
  Due p now st = ¬ (marker p st ≡ stamp_text calendar p (stamp p now))

  -- One of the two branches of a tick: what it sends, and what it makes of the markers.
  data Try (p : Period) (now : ℕ) (st : DigestState) : List Period → DigestState → Type 0 where
    skip : Try p now st [] st
    send : Due p now st → Try p now st (p ∷ []) (marked calendar p now st)

  -- What a tick did to the marker of one period.
  abbrev Moved : Period → ℕ → DigestState → List Period → DigestState → Type 0
  Moved p now st ps st' =
      if has_period p ps
      then Due p now st × (marker p st' ≡ stamp_text calendar p (stamp p now))
      else marker p st' ≡ marker p st

  Try-Moved :
      (p : Period) (now : ℕ) (st st1 st2 : DigestState) (ps qs : List Period)
      → Try daily now st ps st1
      → Try weekly now st1 qs st2
      → Moved p now st (ps ++ qs) st2
  Try-Moved p now st st1 st2 ps qs skip skip = refl
  Try-Moved daily now st st1 st2 ps qs (send d) skip = (d, refl)
  Try-Moved weekly now st st1 st2 ps qs (send d) skip = refl
  Try-Moved manual now st st1 st2 ps qs (send d) skip = refl
  Try-Moved daily now st st1 st2 ps qs skip (send w) = refl
  Try-Moved weekly now st st1 st2 ps qs skip (send w) = (w, refl)
  Try-Moved manual now st st1 st2 ps qs skip (send w) = refl
  Try-Moved daily now st st1 st2 ps qs (send d) (send w) = (d, refl)
  Try-Moved weekly now st st1 st2 ps qs (send d) (send w) = (w, refl)
  Try-Moved manual now st st1 st2 ps qs (send d) (send w) = refl

  state_after-Try :
      (now : ℕ) (st st' : DigestState) (ps : List Period)
      → Try daily now st ps st'
      → state_after calendar ps now st ≡ st'
  state_after-Try now st st' ps skip = refl
  state_after-Try now st st' ps (send d) = refl

  daily_due-Due :
      (ops : OpsAlertsConfig) (st : DigestState) (now : ℕ)
      → daily_due calendar ops st now ≡ true
      → Due daily now st
  unfolding daily_due
  daily_due-Due ops st now h =
      ground (arith, text_eq_iff st.last_daily (calendar.date_text (day_of now)))

  weekly_due-Due :
      (ops : OpsAlertsConfig) (st : DigestState) (now : ℕ)
      → weekly_due calendar ops st now ≡ true
      → Due weekly now st
  unfolding weekly_due
  weekly_due-Due ops st now h =
      ground (arith, text_eq_iff st.last_weekly (calendar.week_text (week_of now)))

module _ {W : Type 0} (calendar : Calendar) (attach : Attaching) (client : EwsClient W)
    (json : StateJson) where
  abbrev markers : Scheduler W → DigestState
  markers s = load_digest_state json s.row

  -- What a branch did, by what it left.
  abbrev Tried : Period → ℕ → DigestState → Ticked W → Type 0
  Tried p now st t = Try calendar p now st t.periods (markers t.next)

  send_due-Tried :
      (p : Period) (table : Table) (i : Reading) (s : Scheduler W)
      → Due calendar p i.now (markers s)
      → Tried p i.now (markers s) (send_due calendar attach client json p table i s)
  unfolding send_due
  send_due-Tried p table i s d =
      let answer =
        (dispatch_digest calendar attach client json i.config i.ops (build p i.now table)
          s.world).0 in
      elim (Bool-cases (is_done answer)) [
        | inl e ↦
            rw
              (
                e,
                send_due,
                load_digest_state-save_digest_state json (marked calendar p i.now (markers s)),
              )
              (send d)
        | inr e ↦ rw (e, send_due) skip
      ]

  try_daily-Tried :
      (i : Reading) (s : Scheduler W)
      → Tried daily i.now (markers s) (try_daily calendar attach client json i s)
  unfolding try_daily
  try_daily-Tried i s =
      let due = daily_due calendar i.ops (markers s) i.now in
      elim (Bool-cases (i.ops.digest_daily_enabled && due)) [
        | inl e ↦
            rw (e, try_daily)
              (send_due-Tried daily i.daily_table i s
                (daily_due-Due calendar i.ops (markers s) i.now (ground arith)))
        | inr e ↦ rw (e, try_daily) skip
      ]

  try_weekly-Tried :
      (i : Reading) (s : Scheduler W)
      → Tried weekly i.now (markers s) (try_weekly calendar attach client json (markers s) i s)
  unfolding try_weekly
  try_weekly-Tried i s =
      let due = weekly_due calendar i.ops (markers s) i.now in
      elim (Bool-cases (i.ops.digest_weekly_enabled && due)) [
        | inl e ↦
            rw (e, try_weekly)
              (send_due-Tried weekly i.weekly_table i s
                (weekly_due-Due calendar i.ops (markers s) i.now (ground arith)))
        | inr e ↦ rw (e, try_weekly) skip
      ]

  followed-Moved :
      (p : Period) (now : ℕ) (st : DigestState) (first second : Ticked W) (e : Option Exception)
      → Tried daily now st first
      → Tried weekly now (markers first.next) second
      → let t = followed e first second in Moved calendar p now st t.periods (markers t.next)
  followed-Moved p now st first second none h k =
      Try-Moved calendar p now st (markers first.next) (markers second.next) first.periods
        second.periods h k
  followed-Moved p now st first second (some e) h k =
      subst (λ ps. Moved calendar p now st ps (markers first.next)) (append-nil first.periods)
        (Try-Moved calendar p now st (markers first.next) (markers first.next) first.periods [] h
          skip)

  tick_digests-Moved :
      (p : Period) (i : Reading) (s : Scheduler W)
      → let t = tick_digests calendar attach client json i s in
        Moved calendar p i.now (markers s) t.periods (markers t.next)
  unfolding tick_digests
  tick_digests-Moved p i s =
      let first = try_daily calendar attach client json i s in
      let tried = try_daily-Tried i s in
      let weekly_try =
        subst
          (λ st.
            Tried weekly i.now (markers first.next)
              (try_weekly calendar attach client json st i first.next))
          (sym
            (state_after-Try calendar i.now (markers s) (markers first.next) first.periods tried))
          (try_weekly-Tried i first.next) in
      elim (Bool-cases (is_empty (strip i.ops.admin_email))) [
        | inl e ↦ rw (e, tick_digests) refl
        | inr e ↦
            rw (e, tick_digests)
              (followed-Moved p i.now (markers s) first
                (try_weekly calendar attach client json
                  (state_after calendar first.periods i.now (markers s)) i first.next)
                first.exception tried weekly_try)
      ]

  -- The days, or the weeks, in which a digest is sent.
  unfoldable pub sent_stamps : Period → List Reading → Scheduler W → List ℕ
  unfolding tick_digests
  sent_stamps p [] s = []
  sent_stamps p (i ∷ is) s =
      let t = tick_digests calendar attach client json i s in
      let rest = sent_stamps p is t.next in
      if has_period p t.periods then stamp p i.now ∷ rest else rest

-- The clock does not run backwards.
abbrev pub Onward : ℕ → List Reading → Type 0
Onward t [] = Unit
Onward t (i ∷ is) = (t ≤ i.now) × Onward i.now is

-- Strictly increasing, from above a bound.
abbrev pub RisesFrom : ℕ → List ℕ → Type 0
RisesFrom d [] = Unit
RisesFrom d (e ∷ es) = (d < e) × RisesFrom e es

abbrev pub Rising : List ℕ → Type 0
Rising [] = Unit
Rising (d ∷ ds) = RisesFrom d ds

Onward-earlier : (t u : ℕ) (is : List Reading) → t ≤ u → Onward u is → Onward t is
Onward-earlier t u [] le o = tt
Onward-earlier t u (i ∷ is) le o = (omega (arith, le, o.0), o.1)

stamp_le : (p : Period) (t u : ℕ) → t ≤ u → stamp p t ≤ stamp p u
stamp_le daily t u le = omega arith
stamp_le weekly t u le = omega arith
stamp_le manual t u le = omega arith

module _ {W : Type 0} (calendar : Calendar) (attach : Attaching) (client : EwsClient W)
    (json : StateJson) where
  later_stamp :
      (p : Period) (t now : ℕ) (st : DigestState)
      → t ≤ now
      → marker p st ≡ stamp_text calendar p (stamp p t)
      → Due calendar p now st
      → stamp p t < stamp p now
  later_stamp p t now st le m d =
      let ne : ¬ (stamp p t ≡ stamp p now) = λ e. d (m ∙ ap (stamp_text calendar p) e) in
      omega (arith, stamp_le p t now le, ne)

  sent_stamps-RisesFrom :
      (p : Period) (t : ℕ) (is : List Reading) (s : Scheduler W)
      → Onward t is
      → marker p (load_digest_state json s.row) ≡ stamp_text calendar p (stamp p t)
      → RisesFrom (stamp p t) (sent_stamps calendar attach client json p is s)
  unfolding sent_stamps
  sent_stamps-RisesFrom p t [] s o m = tt
  sent_stamps-RisesFrom p t (i ∷ is) s o m =
      let moved = tick_digests-Moved calendar attach client json p i s in
      let after = (tick_digests calendar attach client json i s).next in
      let st = load_digest_state json s.row in
      let st' = load_digest_state json after.row in
      elim (Bool-cases (has_period p (tick_digests calendar attach client json i s).periods)) [
        | inl e ↦
            let sent : Due calendar p i.now st
                × (marker p st' ≡ stamp_text calendar p (stamp p i.now)) =
              rw e at moved in
            rw (e, sent_stamps)
              (
                later_stamp p t i.now st o.0 m sent.0,
                sent_stamps-RisesFrom p i.now is after o.1 sent.1,
              )
        | inr e ↦
            let kept : marker p st' ≡ marker p st = rw e at moved in
            rw (e, sent_stamps)
              (sent_stamps-RisesFrom p t is after (Onward-earlier t i.now is o.0 o.1) (kept ∙ m))
      ]

  -- While the clock does not run backwards, the days on which the daily digest is sent strictly
  -- increase, and so do the weeks of the weekly one: at most one of each goes out in its period,
  -- however often the scheduler ticks, whatever the drivers answer, and also where a restart or a
  -- change of the settings comes in between.
  pub sent_stamps-Rising :
      (p : Period) (t : ℕ) (is : List Reading) (s : Scheduler W)
      → Onward t is
      → Rising (sent_stamps calendar attach client json p is s)
  unfolding sent_stamps
  sent_stamps-Rising p t [] s o = tt
  sent_stamps-Rising p t (i ∷ is) s o =
      let moved = tick_digests-Moved calendar attach client json p i s in
      let after = (tick_digests calendar attach client json i s).next in
      let st = load_digest_state json s.row in
      let st' = load_digest_state json after.row in
      elim (Bool-cases (has_period p (tick_digests calendar attach client json i s).periods)) [
        | inl e ↦
            let sent : Due calendar p i.now st
                × (marker p st' ≡ stamp_text calendar p (stamp p i.now)) =
              rw e at moved in
            rw (e, sent_stamps) (sent_stamps-RisesFrom p i.now is after o.1 sent.1)
        | inr e ↦ rw (e, sent_stamps) (sent_stamps-Rising p i.now is after o.1)
      ]
