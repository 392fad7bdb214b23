-- ===== src/Queue/Breaker/History.antt =====
-- The circuit breaker (src/msgate/queue/circuit_breaker.py) against its history of calls.
use msgate.Prelude.{
  ℕ, suc, ◌+◌, ◌≤◌, ◌<◌, ◌≡◌, ◌↔◌, refl, Bool, false, ◌||◌, List, [], ◌∷◌, arith, leb,
  if◌then◌else◌, ◌⊎◌, Option, none,
}
use msgate.Prelude.Ints.{Environ, ℤ, pos, negsuc, at_least}
use msgate.Queue.Breaker.{
  CircuitState, closed, open_, half_open, CircuitBreaker, allow, record_success, record_failure,
  new_breaker,
}

-- The calls that change a breaker. Reading `state` and asking `allow` both poll the clock.
pub data Call : Type 0 where
  success : Call
  failure : ℕ → Call
  poll : ℕ → Call

-- A history, the latest call first.
abbrev pub History : Type 0
History = List Call

unfoldable pub apply : Call → CircuitBreaker → CircuitBreaker
apply success b = record_success b
apply (failure now) b = record_failure now b
apply (poll now) b = (allow now b).1

unfoldable pub run : CircuitBreaker → History → CircuitBreaker
unfolding apply
run b [] = b
run b (c ∷ h) = apply c (run b h)

-- The failures since the latest success.
abbrev pub consecutive : History → ℕ
consecutive [] = 0
consecutive (success ∷ h) = 0
consecutive (failure t ∷ h) = suc (consecutive h)
consecutive (poll t ∷ h) = consecutive h

-- The clock at the latest failure, unless a success came later.
abbrev pub last_failure : History → ℕ
last_failure [] = 0
last_failure (success ∷ h) = 0
last_failure (failure t ∷ h) = t
last_failure (poll t ∷ h) = last_failure h

-- Since the latest failure the breaker was polled once the cooldown was over.
abbrev pub probed : ℕ → History → Bool
probed cooldown [] = false
probed cooldown (success ∷ h) = false
probed cooldown (failure t ∷ h) = false
probed cooldown (poll t ∷ h) = probed cooldown h || leb (last_failure h + cooldown) t

-- The state that a history calls for: closed below the threshold of consecutive failures, and from
-- there open until it is polled after the cooldown.
abbrev pub expected : ℕ → ℕ → History → CircuitState
expected threshold cooldown h =
    if leb threshold (consecutive h) then if probed cooldown h then half_open else open_ else closed

pub record Tracks (threshold cooldown : ℕ) (h : History) (b : CircuitBreaker) : Type 0 where
  pub same_threshold : b.failure_threshold ≡ threshold
  pub same_cooldown : b.cooldown ≡ cooldown
  pub counted : b.failures ≡ consecutive h
  pub stamped : (consecutive h < threshold) ⊎ (b.opened_at ≡ last_failure h)
  pub stated : b.state ≡ expected threshold cooldown h

apply-Tracks :
    (threshold cooldown : ℕ) (c : Call) (h : History) (b : CircuitBreaker)
    → 1 ≤ threshold
    → Tracks threshold cooldown h b
    → Tracks threshold cooldown (c ∷ h) (apply c b)
unfolding apply allow record_success record_failure
apply-Tracks threshold cooldown success h b p k = ground arith
apply-Tracks threshold cooldown (failure t) h b p k = ground arith
apply-Tracks threshold cooldown (poll t) h b p k = ground arith

run-Tracks :
    (b : CircuitBreaker) (h : History)
    → 1 ≤ b.failure_threshold
    → Tracks b.failure_threshold b.cooldown [] b
    → Tracks b.failure_threshold b.cooldown h (run b h)
unfolding run
run-Tracks b [] p k = k
run-Tracks b (c ∷ h) p k =
    apply-Tracks b.failure_threshold b.cooldown c h (run b h) p (run-Tracks b h p k)

-- A new breaker with a threshold of at least one, after any history of calls: the failure counter is
-- the number of failures since the latest success; the state is closed below the threshold, and from
-- there open until a poll after the cooldown makes it half-open; the time of opening is that of the
-- latest failure.
pub run-new :
    (environ : Environ) (threshold : Option ℕ) (cooldown : ℕ) (h : History)
    → 1 ≤ (new_breaker environ threshold cooldown).failure_threshold
    → Tracks
        (new_breaker environ threshold cooldown).failure_threshold
        cooldown
        h
        (run (new_breaker environ threshold cooldown) h)
unfolding new_breaker
run-new environ threshold cooldown h p =
    run-Tracks (new_breaker environ threshold cooldown) h p (ground arith)

at_least-ge : (n : ℕ) (z : ℤ) → n ≤ at_least n z
at_least-ge n (pos m) = omega arith
at_least-ge n (negsuc m) = omega arith

-- Without an explicit threshold the breaker reads it from the environment, where no setting gives
-- less than one.
pub new_breaker_positive :
    (environ : Environ) (cooldown : ℕ) → 1 ≤ (new_breaker environ none cooldown).failure_threshold
unfolding new_breaker
new_breaker_positive environ cooldown = at_least-ge 1 _

refused :
    (threshold cooldown now : ℕ) (h : History) (b : CircuitBreaker)
    → Tracks threshold cooldown h b
    → ((allow now b).0 ≡ false) ↔ (
        (threshold ≤ consecutive h)
        × (probed cooldown h ≡ false)
        × (now < last_failure h + cooldown))
unfolding allow
refused threshold cooldown now h b k = (λ e. ground arith, λ e. ground arith)

-- After any history a new breaker with a threshold of at least one refuses a send exactly if the
-- failures in a row have reached the threshold, no poll after the cooldown came since, and the
-- cooldown since the latest failure is not over.
pub allow_refused :
    (environ : Environ) (threshold : Option ℕ) (cooldown now : ℕ) (h : History)
    → 1 ≤ (new_breaker environ threshold cooldown).failure_threshold
    → ((allow now (run (new_breaker environ threshold cooldown) h)).0 ≡ false) ↔ (
        ((new_breaker environ threshold cooldown).failure_threshold ≤ consecutive h)
        × (probed cooldown h ≡ false)
        × (now < last_failure h + cooldown))
allow_refused environ threshold cooldown now h p =
    refused _ cooldown now h _ (run-new environ threshold cooldown h p)

half_open_reached :
    (threshold cooldown : ℕ) (h : History) (b : CircuitBreaker)
    → Tracks threshold cooldown h b
    → b.state ≡ half_open
    → b.failure_threshold ≤ b.failures
half_open_reached threshold cooldown h b k e = ground arith

reopens :
    (now later cooldown : ℕ) (b : CircuitBreaker)
    → b.failure_threshold ≤ b.failures
    → b.cooldown ≡ cooldown
    → ((record_failure now b).state ≡ open_)
      × ((later < now + cooldown) ↔ ((allow later (record_failure now b)).0 ≡ false))
unfolding record_failure allow
reopens now later cooldown b p q = (ground arith, (λ h. ground arith, λ h. ground arith))

-- The probe: a half-open breaker that a history has led to opens again at one failure, for a whole
-- cooldown, and closes at one success, with the counter at zero.
pub half_open_probe :
    (environ : Environ) (threshold : Option ℕ) (cooldown now later : ℕ) (h : History)
    → 1 ≤ (new_breaker environ threshold cooldown).failure_threshold
    → (run (new_breaker environ threshold cooldown) h).state ≡ half_open
    → let b = new_breaker environ threshold cooldown in
      ((record_failure now (run b h)).state ≡ open_)
      × ((later < now + cooldown) ↔ ((allow later (record_failure now (run b h))).0 ≡ false))
      × ((record_success (run b h)).state ≡ closed)
      × ((record_success (run b h)).failures ≡ 0)
unfolding record_success
half_open_probe environ threshold cooldown now later h p e =
    let b = run (new_breaker environ threshold cooldown) h in
    let k = run-new environ threshold cooldown h p in
    let r = reopens now later cooldown b (half_open_reached _ cooldown h b k e) k.same_cooldown in
    (r.0, r.1, refl, refl)
