-- ===== src/Scenarios/Breaking.antt =====
-- Runs of the circuit breaker, of the delays and of the drivers.
use msgate.Prelude.{
  ◌+◌, ◌*◌, ◌≤◌, ◌<◌, ◌≡◌, ◌↔◌, inl, refl, min, true, false, none, some, [], ◌∷◌, codes, arith,
  here, there, is_some,
}
use msgate.Prelude.Ints.{Environ}
use msgate.Config.{ews}
use msgate.Drivers.{SendRequest, resolve_driver, check_backend_health}
use msgate.Drivers.Outcomes.{sent_needs_ews, healthy_needs_ews}
use msgate.Queue.Backoff.{backoff_seconds, default_backoff, is_retriable_error}
use msgate.Queue.Backoff.Delay.{backoff_bounds, backoff_doubles, default_backoff_capped}
use msgate.Queue.Backoff.Matching.{is_retriable_error_iff}
use msgate.Queue.Breaker.{CircuitBreaker, new_breaker, allow, record_failure, record_success, open_}
use msgate.Queue.Breaker.History.{
  apply, success, failure, poll, History, Tracks, run, run-new, allow_refused, half_open_probe,
}
use msgate.Scenarios.Samples.{unicode_word, config, sending, receipt}

abbrev empty_environ : Environ
empty_environ name = none

abbrev breaker : CircuitBreaker
breaker = new_breaker empty_environ (some 2) 60

-- The latest call first: two failures, and a poll after the cooldown.
abbrev storm : History
storm = failure 20 ∷ failure 10 ∷ success ∷ failure 5 ∷ []

abbrev cooled : History
cooled = poll 90 ∷ storm

run-new_example : Tracks 2 60 storm (run breaker storm)
unfolding new_breaker
run-new_example = run-new empty_environ (some 2) 60 storm (omega arith)

allow_refused_example :
    ((allow 70 (run breaker storm)).0 ≡ false) ↔ ((2 ≤ 2) × (false ≡ false) × (70 < 20 + 60))
unfolding new_breaker
allow_refused_example = allow_refused empty_environ (some 2) 60 70 storm (omega arith)

probe_fails : (record_failure 91 (run breaker cooled)).state ≡ open_
unfolding new_breaker run apply allow record_failure record_success
probe_fails = (half_open_probe empty_environ (some 2) 60 91 100 cooled (omega arith) refl).0

delays_grow :
    (5 ≤ backoff_seconds 2 5 300)
    × (backoff_seconds 2 5 300 ≤ backoff_seconds 4 5 300)
    × (backoff_seconds 4 5 300 ≤ 300)
delays_grow = backoff_bounds 2 4 5 300 (omega arith) (omega arith)

delay_doubled :
    (backoff_seconds 1 5 300 ≡ min 5 300)
    × (backoff_seconds 4 5 300 ≡ min (2 * backoff_seconds 3 5 300) 300)
delay_doubled = backoff_doubles 2 5 300

seventh_delay : (default_backoff 7 ≡ 300) ↔ (7 ≤ 7)
seventh_delay = default_backoff_capped 7

is_retriable_error_iff_example :
    is_retriable_error unicode_word (codes "HTTP 503 from upstream") ≡ true
is_retriable_error_iff_example =
    (is_retriable_error_iff unicode_word (codes "HTTP 503 from upstream")).1
      (inl (codes "http ", codes "503", codes " from upstream", there here, refl, refl, refl))

abbrev any_request : SendRequest
any_request = record {
  auth_username = codes "svc";
  password = codes "pw";
  mail_from = codes "a@example.com";
  rcpt_tos = codes "b@example.com" ∷ [];
  mime_bytes = codes "hi";
  default_sender = none;
}

sent_by_ews : (config.backend ≡ ews) × (is_some config.ews ≡ true)
unfolding resolve_driver
sent_by_ews =
    sent_needs_ews sending any_request config 3 (record receipt { driver = some (codes "ews") })
      refl

healthy_ews : config.backend ≡ ews
unfolding check_backend_health
healthy_ews = (healthy_needs_ews sending config 3 refl).0
