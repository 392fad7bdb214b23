-- ===== src/Ops/Capacity/Levels.antt =====
-- What the level of src/msgate/ops/capacity.py means.
use msgate.Prelude.{
  ℕ, Bool, true, false, ◌||◌, Option, none, some, List, [], ◌∷◌, ◌++◌, ◌≡◌, refl, arith, Bool-cases,
  inl, inr, if◌then◌else◌,
}
use msgate.Prelude.Ints.{ℤ, pos, negsuc}
use msgate.Queue.Breaker.{CircuitBreaker, is_open, read_state}
use msgate.Queue.Repository.{Table}
use msgate.Ops.{OpsAlertsConfig}
use msgate.Ops.Capacity.{
  Level, fine, warn, critical, Reason, depth_critical, depth_warn, oldest_age, Findings, reaches,
  reaches_age, at_least_warn, check_circuit, check_depth, check_age, evaluate_capacity,
  oldest_pending_age, is_fine,
}

-- An age reaches a multiple of the threshold.
abbrev pub old_enough : Option ℕ → ℕ → ℤ → Bool
old_enough none factor threshold = false
old_enough (some age) factor threshold = reaches_age age factor threshold

-- The conditions in the gateway's configuration, told independently of the order of the checks.
abbrev pub is_critical : Bool → ℕ → Option ℕ → OpsAlertsConfig → Bool
is_critical tripped pending age ops =
    tripped
    || reaches pending ops.queue_critical_pending
    || old_enough age 3 ops.queue_warn_age_seconds

abbrev pub is_warned : ℕ → Option ℕ → OpsAlertsConfig → Bool
is_warned pending age ops =
    reaches pending ops.queue_warn_pending || old_enough age 1 ops.queue_warn_age_seconds

abbrev pub level_of : Bool → ℕ → Option ℕ → OpsAlertsConfig → Level
level_of tripped pending age ops =
    if is_critical tripped pending age ops
    then critical
    else if is_warned pending age ops
    then warn
    else fine

reaches_age_more :
    (age : ℕ) (threshold : ℤ)
    → reaches_age age 1 threshold ≡ false
    → reaches_age age 3 threshold ≡ false
reaches_age_more age (pos n) h = ground arith
reaches_age_more age (negsuc n) h = absurd (cc)

findings_level :
    (tripped : Bool) (pending : ℕ) (age : Option ℕ) (ops : OpsAlertsConfig)
    → (check_age age ops (check_depth pending ops (check_circuit tripped))).0
      ≡ level_of tripped pending age ops
unfolding check_age check_depth check_circuit
findings_level tripped pending none ops = ground arith
findings_level tripped pending (some age) ops =
    ground (arith, reaches_age_more age ops.queue_warn_age_seconds)

abbrev pub null : List Reason → Bool
null [] = true
null (x ∷ xs) = false

null-append : (xs : List Reason) (x : Reason) → null (xs ++ (x ∷ [])) ≡ false
null-append [] x = refl
null-append (y ∷ ys) x = refl

abbrev Explained : Findings → Type 0
Explained (level, reasons) = null reasons ≡ is_fine level

circuit-Explained : (tripped : Bool) → Explained (check_circuit tripped)
unfolding check_circuit
circuit-Explained true = refl
circuit-Explained false = refl

at_least_warn_fine : (l : Level) → is_fine (at_least_warn l) ≡ false
at_least_warn_fine fine = refl
at_least_warn_fine warn = refl
at_least_warn_fine critical = refl

depth-Explained :
    (pending : ℕ) (ops : OpsAlertsConfig) (level : Level) (reasons : List Reason)
    → null reasons ≡ is_fine level
    → Explained (check_depth pending ops (level, reasons))
unfolding check_depth
depth-Explained pending ops level reasons h =
    elim (Bool-cases (reaches pending ops.queue_critical_pending)) [
      | inl e ↦
          rw (e, check_depth)
            (null-append reasons (depth_critical pending ops.queue_critical_pending))
      | inr e ↦ elim (Bool-cases (reaches pending ops.queue_warn_pending)) [
        | inl f ↦
            rw (e, check_depth)
              (rw
                (
                  f,
                  null-append reasons (depth_warn pending ops.queue_warn_pending),
                  at_least_warn_fine level,
                )
                refl)
        | inr f ↦ rw (e, check_depth) (rw f h)
      ]
    ]

age-Explained :
    (age : Option ℕ) (ops : OpsAlertsConfig) (level : Level) (reasons : List Reason)
    → null reasons ≡ is_fine level
    → Explained (check_age age ops (level, reasons))
unfolding check_age
age-Explained none ops level reasons h = h
age-Explained (some age) ops level reasons h =
    elim (Bool-cases (reaches_age age 1 ops.queue_warn_age_seconds)) [
      | inr e ↦ rw (e, check_age) h
      | inl e ↦ elim (Bool-cases (reaches_age age 3 ops.queue_warn_age_seconds)) [
        | inl f ↦ rw (e, check_age) (rw (f, null-append reasons (oldest_age age)) refl)
        | inr f ↦
            rw (e, check_age)
              (rw (f, null-append reasons (oldest_age age), at_least_warn_fine level) refl)
      ]
    ]

-- The level is critical exactly if the circuit breaker is open, the queue is as deep as its critical
-- threshold or the oldest waiting message has reached three times its age threshold; otherwise it is
-- a warning exactly if the queue has reached the lower threshold or the oldest message its age
-- threshold, and else ok. Reasons are given exactly where the level is not ok.
pub evaluate_capacity-level_of :
    (now clock : ℕ) (table : Table) (pending : ℕ) (circuit : CircuitBreaker) (ops : OpsAlertsConfig)
    → ((evaluate_capacity now clock table pending circuit ops).0.level
        ≡ level_of
            (is_open (read_state clock circuit).0)
            pending
            (oldest_pending_age now table)
            ops)
      × (null (evaluate_capacity now clock table pending circuit ops).0.reasons
          ≡ is_fine (evaluate_capacity now clock table pending circuit ops).0.level)
unfolding evaluate_capacity
evaluate_capacity-level_of now clock table pending circuit ops =
    let tripped = is_open (read_state clock circuit).0 in
    let age = oldest_pending_age now table in
    let first = check_circuit tripped in
    let second = check_depth pending ops first in
    (
      findings_level tripped pending age ops,
      age-Explained age ops second.0 second.1
          (depth-Explained pending ops first.0 first.1 (circuit-Explained tripped)),
    )
