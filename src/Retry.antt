-- ===== src/Retry.antt =====
-- Retry decisions: `RetryPolicy` of dbosify/common.py, `retry_decision` and `effective_deadline` of
-- dbosify/_internal/activities.py, and `_workflow_retry_delay` of dbosify/_internal/dispatcher.py.
-- Seconds are ticks, 1000 to the second; the backoff coefficient is a fraction, and a delay is rounded
-- down to a tick. The one failure of a float's power is modelled: OverflowError.
pub mod Bounds
pub mod Agreement
use text.Mathlib.Text.{◌==◌ as str_eq}
use dbosify_py.Prelude.{
  ℕ, ◌+◌, ◌-◌, ◌*◌, ◌/◌, ◌^◌, String, Bool, true, false, not, ◌&&◌, ◌||◌, Option, none, some, List,
  [], ◌∷◌, ◌==◌, ltb, leb, if◌then◌else◌, min,
}
use dbosify_py.Prelude.Result.{Result, ok, err}
use dbosify_py.Failure.{
  Cls, cancelled_error, terminated_error, timeout_error, Fields, RetryState, in_progress,
  non_retryable_failure, timeout, maximum_attempts_reached, timeout_type_int, start_to_close,
  schedule_to_close, heartbeat,
}

pub record Fraction : Type 0 where
  pub num : ℕ
  pub den : ℕ

pub record RetryPolicy : Type 0 where
  pub initial_interval : ℕ
  pub backoff_coefficient : Fraction
  pub maximum_interval : Option ℕ
  pub maximum_attempts : ℕ
  pub non_retryable_error_types : Option (List String)

abbrev pub default_policy : RetryPolicy
default_policy = record {
  initial_interval = 1000;
  backoff_coefficient = record { num = 2; den = 1 };
  maximum_interval = none;
  maximum_attempts = 0;
  non_retryable_error_types = none;
}

pub data PolicyError : Type 0 where
  coefficient_below_one maximum_below_initial : PolicyError

-- `_validate`. A time span of 0 is falsy, as None is. The tests for negative spans and attempts
-- cannot fail on natural numbers.
check_maximum : ℕ → Option ℕ → Result PolicyError Unit
check_maximum initial none = ok tt
check_maximum initial (some m) =
    if not (m == 0) && ltb m initial then err maximum_below_initial else ok tt

unfoldable pub validate : RetryPolicy → Result PolicyError Unit
unfolding check_maximum
validate p =
    if p.maximum_attempts == 1
    then ok tt
    else if ltb p.backoff_coefficient.num p.backoff_coefficient.den
    then err coefficient_below_one
    else check_maximum p.initial_interval p.maximum_interval

unfoldable pub mem_string : String → List String → Bool
mem_string s [] = false
mem_string s (t ∷ ts) = str_eq t s || mem_string s ts

-- failure_type is not None and failure_type in set(types or ())
unfoldable pub is_non_retryable_type : Option String → Option (List String) → Bool
unfolding mem_string
is_non_retryable_type none types = false
is_non_retryable_type (some t) none = false
is_non_retryable_type (some t) (some ts) = mem_string t ts

-- `**` of a float raises OverflowError.
pub data RetryError : Type 0 where
  overflow_error : RetryError

-- coefficient ** (attempt - 1) is past the greatest float, to which it would be rounded.
unfoldable pub overflows : RetryPolicy → ℕ → Bool
overflows p attempt =
    leb ((2 ^ 1024 - 2 ^ 970) * p.backoff_coefficient.den ^ (attempt - 1))
      (p.backoff_coefficient.num ^ (attempt - 1))

-- initial * coefficient ** (attempt - 1)
unfoldable pub backoff : RetryPolicy → ℕ → Result RetryError ℕ
backoff p attempt =
    if overflows p attempt
    then err overflow_error
    else ok (
        (p.initial_interval * p.backoff_coefficient.num ^ (attempt - 1))
        / p.backoff_coefficient.den ^ (attempt - 1))

-- The time from one clock reading to another, which may be negative: the clocks may differ.
pub record Span : Type 0 where
  pub since : ℕ
  pub until : ℕ

-- The cap of the activity decision: a maximum of 0 is falsy, and the default of 100 times the
-- initial interval holds.
unfoldable pub activity_cap : RetryPolicy → ℕ
activity_cap p = elim p.maximum_interval [
  | none ↦ p.initial_interval * 100
  | some m ↦ if m == 0 then p.initial_interval * 100 else m
]

-- The cap of the workflow decision: it tests `is not None`.
unfoldable pub workflow_cap : RetryPolicy → ℕ
workflow_cap p = elim p.maximum_interval [ none ↦ p.initial_interval * 100 | some m ↦ m ]

unfoldable pub delay_with_cap : RetryPolicy → ℕ → Option ℕ → ℕ → Result RetryError ℕ
delay_with_cap p attempt (some override) cap = ok override
delay_with_cap p attempt none cap = elim (backoff p attempt) [
  | err e ↦ err e
  | ok delay ↦ ok (min delay cap)
]

-- maximum_attempts and attempt >= maximum_attempts
unfoldable pub attempts_exhausted : RetryPolicy → ℕ → Bool
attempts_exhausted p attempt = not (p.maximum_attempts == 0) && leb p.maximum_attempts attempt

-- schedule_to_close is not None and elapsed is not None and elapsed + delay >= schedule_to_close
unfoldable pub budget_exhausted : Option ℕ → Option Span → ℕ → Bool
budget_exhausted none elapsed delay = false
budget_exhausted (some budget) none delay = false
budget_exhausted (some budget) (some elapsed) delay =
    leb (budget + elapsed.since) (elapsed.until + delay)

has_timeout_type : Option ℕ → ℕ → Bool
has_timeout_type none n = false
has_timeout_type (some t) n = t == n

is_timeout : Cls → Bool
is_timeout timeout_error = true
is_timeout _ = false

unfoldable pub is_budget_timeout : {P : Type 0} → Fields P → Bool
unfolding is_timeout has_timeout_type timeout_type_int
is_budget_timeout f =
    is_timeout f.cls && has_timeout_type f.timeout_type (timeout_type_int schedule_to_close)

-- cls_name in ("CancelledError", "TerminatedError")
unfoldable pub never_retried : Cls → Bool
never_retried cancelled_error = true
never_retried terminated_error = true
never_retried _ = false

module _ {P : Type 0} (p : RetryPolicy) (attempt : ℕ) (f : Fields P) where
  unfoldable pub retry_decision : Option Span → Option ℕ → Result RetryError (Option ℕ × RetryState)
  retry_decision elapsed budget =
      if f.non_retryable
      then ok (none, non_retryable_failure)
      else if is_non_retryable_type f.type_name p.non_retryable_error_types
      then ok (none, non_retryable_failure)
      else if is_budget_timeout f
      then ok (none, timeout)
      else if attempts_exhausted p attempt
      then ok (none, maximum_attempts_reached)
      else elim (delay_with_cap p attempt f.next_retry_delay (activity_cap p)) [
        | err e ↦ err e
        | ok delay ↦
            if budget_exhausted budget elapsed delay
            then ok (none, timeout)
            else ok (some delay, in_progress)
      ]

  -- Of the timeouts only start-to-close and heartbeat are retried.
  unfoldable pub is_terminal_timeout : Bool
  unfolding is_timeout has_timeout_type timeout_type_int
  is_terminal_timeout =
      is_timeout f.cls
      && not (
          has_timeout_type f.timeout_type (timeout_type_int start_to_close)
          || has_timeout_type f.timeout_type (timeout_type_int heartbeat))

  unfoldable pub workflow_retry_delay : Result RetryError (Option ℕ)
  workflow_retry_delay =
      if never_retried f.cls
      then ok none
      else if is_terminal_timeout
      then ok none
      else if f.non_retryable
      then ok none
      else if is_non_retryable_type f.type_name p.non_retryable_error_types
      then ok none
      else if attempts_exhausted p attempt
      then ok none
      else elim (delay_with_cap p attempt f.next_retry_delay (workflow_cap p)) [
        | err e ↦ err e
        | ok delay ↦ ok (some delay)
      ]

-- The bound that binds an attempt, with its label; spans below 0 are 0 as subtractions stop there.
-- Of equal bounds `min` takes the first, start-to-close.
pub data Bound : Type 0 where
  by_start_to_close by_schedule_to_close : Bound

unfoldable pub effective_deadline : Option ℕ → Option ℕ → Option ℕ × Bound
effective_deadline none none = (none, by_start_to_close)
effective_deadline (some a) none = (some a, by_start_to_close)
effective_deadline none (some b) = (some b, by_schedule_to_close)
effective_deadline (some a) (some b) =
    if leb a b then (some a, by_start_to_close) else (some b, by_schedule_to_close)
