-- ===== src/Witnesses/RetryWitness.antt =====
-- A policy and failures at which the theorems on dbosify/_internal/activities.py apply.
use dbosify_py.Prelude.{ℕ, ◌+◌, ◌≡◌, ◌≤◌, ◌*◌, refl, Option, none, some, arith, false, min}
use dbosify_py.Failure.{Fields, bare, application_error, in_progress}
use dbosify_py.Prelude.Result.{ok, err}
use dbosify_py.Retry.{
  RetryPolicy, default_policy, retry_decision, backoff, activity_cap, workflow_retry_delay,
  validate, is_non_retryable_type, delay_with_cap, workflow_cap, effective_deadline,
  attempts_exhausted, is_budget_timeout, budget_exhausted, is_terminal_timeout, never_retried,
  overflows, Span, overflow_error,
}
use dbosify_py.Retry.Bounds.{
  IsValid, retry_delay_bounds, backoff_mono, effective_deadline-IsLeast, IsLeast,
}
use dbosify_py.Retry.Agreement.{
  delay_of, workflow_retry_delay-eq-retry_decision, zero_maximum_interval,
}

abbrev crash : Fields ℕ
crash = bare application_error "crash" none

default-IsValid : IsValid default_policy
unfolding validate
default-IsValid = (refl, λ e. cc, omega arith)

abbrev half_second : Option Span
half_second = some (record { since = 0; until = 500 })

abbrev eager : RetryPolicy
eager = record default_policy { maximum_interval = some 0 }

third_retried :
    retry_decision default_policy 3 crash half_second (some 60000) ≡ ok (some 4000, in_progress)
unfolding retry_decision is_non_retryable_type is_budget_timeout attempts_exhausted budget_exhausted
    delay_with_cap backoff overflows activity_cap
third_retried = refl

delay_bounds_example :
    (default_policy.initial_interval ≤ 4000) × (4000 ≤ activity_cap default_policy)
delay_bounds_example =
    retry_delay_bounds default_policy 3 crash half_second (some 60000) 4000 in_progress
      default-IsValid (omega arith) refl third_retried

abbrev third_backoff : ℕ
third_backoff = 4000

abbrev fourth_backoff : ℕ
fourth_backoff = 8000

third_finite : backoff default_policy 3 ≡ ok third_backoff
unfolding backoff overflows
third_finite = refl

fourth_finite : backoff default_policy (3 + 1) ≡ ok fourth_backoff
unfolding backoff overflows
fourth_finite = refl

-- The power of two overflows at attempt 1025.
last_raises : backoff default_policy 1025 ≡ err overflow_error
unfolding backoff overflows
last_raises = refl

backoff_example :
    (backoff default_policy 1 ≡ ok default_policy.initial_interval)
    × (default_policy.initial_interval ≤ third_backoff)
    × (third_backoff ≤ fourth_backoff)
backoff_example =
    backoff_mono default_policy 3 third_backoff fourth_backoff default-IsValid (omega arith)
      third_finite fourth_finite

abbrev nine_seconds : Option ℕ
nine_seconds = some 9000

abbrev seven_seconds : Option ℕ
seven_seconds = some 7000

deadline_example :
    IsLeast nine_seconds seven_seconds (effective_deadline nine_seconds seven_seconds)
deadline_example = effective_deadline-IsLeast nine_seconds seven_seconds

crash_not_terminal : is_terminal_timeout default_policy 3 crash ≡ false
unfolding is_terminal_timeout
crash_not_terminal = refl

agreement_example :
    workflow_retry_delay default_policy 3 crash
    ≡ delay_of (retry_decision default_policy 3 crash none none)
unfolding never_retried
agreement_example =
    workflow_retry_delay-eq-retry_decision default_policy 3 crash refl crash_not_terminal (λ e. cc)

workflow_at_once : workflow_retry_delay eager 3 crash ≡ ok (some 0)
unfolding workflow_retry_delay never_retried is_terminal_timeout is_non_retryable_type
    attempts_exhausted delay_with_cap backoff overflows workflow_cap
workflow_at_once = refl

activity_backs_off : retry_decision eager 3 crash none none ≡ ok (some 4000, in_progress)
unfolding retry_decision is_non_retryable_type is_budget_timeout attempts_exhausted budget_exhausted
    delay_with_cap backoff overflows activity_cap
activity_backs_off = refl

abbrev no_delay : ℕ
no_delay = 0

abbrev four_seconds : ℕ
four_seconds = 4000

zero_interval_example :
    (no_delay ≡ 0)
    × (b : ℕ) × (backoff eager 3 ≡ ok b)
    × (four_seconds ≡ min b (eager.initial_interval * 100))
zero_interval_example =
    zero_maximum_interval eager 3 crash no_delay four_seconds in_progress refl refl workflow_at_once
      activity_backs_off
