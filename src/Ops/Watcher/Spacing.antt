-- ===== src/Ops/Watcher/Spacing.antt =====
-- How often the watcher of src/msgate/ops/watcher.py sends an alert.
use msgate.Prelude.{
  ℕ, ◌+◌, ◌≤◌, Bool, true, some, List, [], ◌∷◌, ◌≡◌, refl, subst, leb→le, arith, Bool-cases, inl,
  inr, if◌then◌else◌,
}
use msgate.Prelude.Texts.{strip}
use msgate.Queue.Repository.{count_pending}
use msgate.Drivers.{EwsClient}
use msgate.Ops.Capacity.{CapacityStatus, evaluate_capacity, is_fine}
use msgate.Ops.AlertMail.{Composer, send_capacity_alert}
use msgate.Ops.Watcher.{
  Watcher, Inputs, cooldown_of, email_allowed, wants_email, level_eq, announce_level, email_alert,
  report_level, tick, send_capacity_alert, refresh_metrics,
}

-- Each alert is asked for when at least its tick's cooldown has passed since the last one.
abbrev pub Spaced : ℕ → List Inputs → Type 0
Spaced last [] = Unit
Spaced last (i ∷ is) = (last + cooldown_of i.ops ≤ i.asked_at) × Spaced i.sent_at is

module _ {W : Type 0} (client : EwsClient W) (compose : Composer) where
  -- The ticks that send an alert.
  unfoldable pub alerts : List Inputs → Watcher W → List Inputs
  unfolding tick
  alerts [] s = []
  alerts (i ∷ is) s =
      let (done, s') = tick client compose i s in
      let rest = alerts is s' in if done then i ∷ rest else rest

  announce_quiet :
      (i : Inputs) (status : CapacityStatus) (s : Watcher W)
      → (announce_level i status s).last_email_at ≡ s.last_email_at
  unfolding announce_level
  announce_quiet i status s = elim (Bool-cases (level_eq status.level s.last_level)) [
    | inl e ↦ rw (e, announce_level) refl
    | inr e ↦ rw (e, announce_level) refl
  ]

  -- What an alert, or none, leaves of the time of the last one.
  abbrev Timed : Inputs → ℕ → Bool × Watcher W → Type 0
  Timed i last (done, s') =
      if done
      then (last + cooldown_of i.ops ≤ i.asked_at) × (s'.last_email_at ≡ i.sent_at)
      else s'.last_email_at ≡ last

  wanted :
      (i : Inputs) (status : CapacityStatus) (s : Watcher W)
      → wants_email i status s ≡ true
      → email_allowed i s ≡ true
  wanted i status s h = ground arith

  email_alert-Timed :
      (i : Inputs) (status : CapacityStatus) (s : Watcher W)
      → Timed i s.last_email_at (email_alert client compose i status s)
  unfolding email_alert
  email_alert-Timed i status s = elim (Bool-cases (wants_email i status s)) [
    | inr e ↦ rw (e, email_alert) refl
    | inl e ↦
        let asked = leb→le (s.last_email_at + cooldown_of i.ops) i.asked_at (wanted i status s e) in
        let answer =
          send_capacity_alert client compose i.config status (strip i.ops.admin_email) s.world in
        elim (Bool-cases answer.0) [
          | inl f ↦ rw (e, email_alert) (rw f (asked, refl))
          | inr f ↦ rw (e, email_alert) (rw f refl)
        ]
  ]

  same_time :
      (i : Inputs) (last last' : ℕ) (result : Bool × Watcher W)
      → last ≡ last'
      → Timed i last result
      → Timed i last' result
  same_time i last last' result e h = subst (λ t. Timed i t result) e h

  refresh_quiet :
      (i : Inputs) (s : Watcher W)
      → (refresh_metrics client compose i s).last_email_at ≡ s.last_email_at
  unfolding refresh_metrics
  refresh_quiet i s = refl

  report_level-Timed :
      (i : Inputs) (status : CapacityStatus) (s : Watcher W)
      → Timed i s.last_email_at (report_level client compose i status s)
  unfolding report_level
  report_level-Timed i status s = elim (Bool-cases (is_fine status.level)) [
    | inl e ↦ rw (e, report_level) refl
    | inr e ↦
        rw (e, report_level)
          (same_time i (announce_level i status s).last_email_at s.last_email_at
            (email_alert client compose i status (announce_level i status s))
            (announce_quiet i status s) (email_alert-Timed i status (announce_level i status s)))
  ]

  tick-Timed : (i : Inputs) (s : Watcher W) → Timed i s.last_email_at (tick client compose i s)
  unfolding tick
  tick-Timed i s =
      let evaluated =
        evaluate_capacity i.now i.clock i.table (count_pending i.table) s.circuit i.ops in
      let s' =
        refresh_metrics client compose i
          (record s { capacity_status = some evaluated.0; circuit = evaluated.1 }) in
      report_level-Timed i evaluated.0 s'

  -- Whatever the watcher reads and however its level changes, each alert that it sends is asked for
  -- when the cooldown set at that tick, and at least a minute, has passed since the last alert was
  -- sent.
  pub alerts-Spaced :
      (inputs : List Inputs) (s : Watcher W) → Spaced s.last_email_at (alerts inputs s)
  unfolding alerts
  alerts-Spaced [] s = tt
  alerts-Spaced (i ∷ is) s =
      let timed = tick-Timed i s in
      let later = (tick client compose i s).1 in
      elim (Bool-cases (tick client compose i s).0) [
        | inl e ↦
            let t : (s.last_email_at + cooldown_of i.ops ≤ i.asked_at)
                × (later.last_email_at ≡ i.sent_at) =
              rw e at timed in
            rw (e, alerts)
              (t.0, subst (λ l. Spaced l (alerts is later)) t.1 (alerts-Spaced is later))
        | inr e ↦
            let t : later.last_email_at ≡ s.last_email_at = rw e at timed in
            rw (e, alerts) (subst (λ l. Spaced l (alerts is later)) t (alerts-Spaced is later))
      ]
