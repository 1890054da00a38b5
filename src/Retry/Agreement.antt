-- ===== src/Retry/Agreement.antt =====
-- The workflow's retry decision (`_workflow_retry_delay` of dbosify/_internal/dispatcher.py) beside
-- the activity's (`retry_decision` of dbosify/_internal/activities.py).
use dbosify_py.Prelude.{ℕ, ◌*◌, ◌≡◌, ◌≢◌, false, none, some, arith, min, inl, inr, Option}
use dbosify_py.Prelude.Result.{Result, ok, err, Result-cases}
use dbosify_py.Failure.{Fields, RetryState}
use dbosify_py.Retry.{
  RetryPolicy, RetryError, backoff, activity_cap, workflow_cap, delay_with_cap, budget_exhausted,
  is_budget_timeout, retry_decision, never_retried, is_terminal_timeout, workflow_retry_delay,
}

abbrev pub delay_of : Result RetryError (Option ℕ × RetryState) → Result RetryError (Option ℕ)
delay_of (err e) = err e
delay_of (ok (delay, state)) = ok delay

module _ {P : Type 0} (p : RetryPolicy) (attempt : ℕ) (f : Fields P) where
  budget_timeout_is_terminal : is_terminal_timeout p attempt f ≡ false → is_budget_timeout f ≡ false
  unfolding is_terminal_timeout is_budget_timeout
  budget_timeout_is_terminal h = ground arith

  same_cap : p.maximum_interval ≢ some 0 → workflow_cap p ≡ activity_cap p
  unfolding workflow_cap activity_cap
  same_cap h = ground arith

  -- On a failure that is neither a cancellation, a termination nor a terminal timeout, a workflow
  -- waits as an activity with no schedule-to-close budget does, and gives up where that does; the
  -- policy's maximum interval is not 0.
  pub workflow_retry_delay-eq-retry_decision :
      never_retried f.cls ≡ false
      → is_terminal_timeout p attempt f ≡ false
      → p.maximum_interval ≢ some 0
      → workflow_retry_delay p attempt f ≡ delay_of (retry_decision p attempt f none none)
  unfolding workflow_retry_delay retry_decision budget_exhausted
  workflow_retry_delay-eq-retry_decision r t m =
      ground (arith, budget_timeout_is_terminal t, same_cap m)

  -- Under a maximum interval of 0 a workflow retries at once, where an activity waits for its
  -- backoff, capped at 100 times the initial interval.
  pub zero_maximum_interval :
      (d e : ℕ) (state : RetryState)
      → p.maximum_interval ≡ some 0
      → f.next_retry_delay ≡ none
      → workflow_retry_delay p attempt f ≡ ok (some d)
      → retry_decision p attempt f none none ≡ ok (some e, state)
      → (d ≡ 0) × (b : ℕ) × (backoff p attempt ≡ ok b) × (e ≡ min b (p.initial_interval * 100))
  unfolding workflow_retry_delay retry_decision budget_exhausted delay_with_cap workflow_cap
      activity_cap
  zero_maximum_interval d e state m own w a = elim (Result-cases (backoff p attempt)) [
    | inl (x, raised) ↦ absurd (ground arith)
    | inr (b, is) ↦ (ground arith, b, is, ground arith)
  ]
