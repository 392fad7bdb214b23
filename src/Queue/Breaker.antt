-- ===== src/Queue/Breaker.antt =====
-- src/msgate/queue/circuit_breaker.py. Readings of `time.monotonic` and the cooldown are whole
-- microseconds and arguments of the calls; each method runs under the breaker's lock, so a call is
-- one step. The cooldown of the environment (a float) is read before the breaker is made.
use msgate.Prelude.{
  ℕ, zero, suc, ◌+◌, max, Bool, true, false, not, Option, none, some, Text, codes, leb,
  if◌then◌else◌,
}
use msgate.Prelude.Ints.{ℤ, pos, negsuc, at_least, parse_int, Environ, get_env}
use msgate.Prelude.Texts.{strip, is_empty}
pub mod History

pub data CircuitState : Type 0 where
  closed open_ half_open : CircuitState

-- `_env_int`: blank and malformed settings give the default.
unfoldable pub env_int : Environ → Text → ℤ → ℤ
unfolding strip
env_int environ name default =
    let raw = strip (get_env environ name (codes "")) in
    if is_empty raw then default else elim (parse_int raw) [ none ↦ default | some n ↦ n ]

pub record CircuitBreaker : Type 0 where
  pub failure_threshold : ℕ
  pub cooldown : ℕ
  pub failures : ℕ
  pub opened_at : ℕ
  pub state : CircuitState

-- `CircuitBreaker.__init__`
unfoldable pub new_breaker : Environ → Option ℕ → ℕ → CircuitBreaker
new_breaker environ threshold cooldown = record {
  failure_threshold = elim threshold [
    | some t ↦ t
    | none ↦ at_least 1 (env_int environ (codes "MSGATE_CIRCUIT_FAILURE_THRESHOLD") (pos 5))
  ];
  cooldown = cooldown;
  failures = 0;
  opened_at = 0;
  state = closed;
}

abbrev pub is_open : CircuitState → Bool
is_open open_ = true
is_open _ = false

-- `_maybe_half_open_unlocked`; `now - opened_at >= cooldown` is written without the difference.
unfoldable pub maybe_half_open : ℕ → CircuitBreaker → CircuitBreaker
maybe_half_open now b =
    if is_open b.state
    then if leb (b.opened_at + b.cooldown) now then record b { state = half_open } else b
    else b

-- The property `state`, which may change the state that it reads.
unfoldable pub read_state : ℕ → CircuitBreaker → CircuitState × CircuitBreaker
unfolding maybe_half_open
read_state now b = let b' = maybe_half_open now b in (b'.state, b')

unfoldable pub allow : ℕ → CircuitBreaker → Bool × CircuitBreaker
unfolding maybe_half_open
allow now b = let b' = maybe_half_open now b in (not (is_open b'.state), b')

unfoldable pub record_success : CircuitBreaker → CircuitBreaker
record_success b = record b { failures = 0; state = closed; opened_at = 0 }

unfoldable pub record_failure : ℕ → CircuitBreaker → CircuitBreaker
record_failure now b =
    let b' = record b { failures = b.failures + 1 } in
    if leb b'.failure_threshold b'.failures
    then record b' { state = open_; opened_at = now }
    else b'

unfoldable pub queue_max_pending : Environ → ℕ
queue_max_pending environ =
    at_least 1 (env_int environ (codes "MSGATE_QUEUE_MAX_PENDING") (pos 5000))
