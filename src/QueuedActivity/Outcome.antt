-- ===== src/QueuedActivity/Outcome.antt =====
-- How a cross-queue activity ends (dbosify/_internal/activity_workflow.py).
use dbosify_py.Prelude.{
  ℕ, zero, suc, ◌+◌, ◌≤◌, ◌≡◌, ◌≢◌, ◌⊎◌, refl, true, Option, none, some, List, [], ◌∷◌, ◌++◌, arith,
  Bool-cases, Option-cases, inl, inr, subst,
}
use dbosify_py.Prelude.Result.{Result, ok, err, Result-cases}
use dbosify_py.Failure.{
  Envelope, RetryState, timeout, non_retryable_failure, maximum_attempts_reached,
}
use dbosify_py.Retry.{
  RetryError, Span, retry_decision, effective_deadline, Bound, is_non_retryable_type,
  is_budget_timeout, delay_with_cap, activity_cap, budget_exhausted, attempts_exhausted,
}
use dbosify_py.QueuedActivity.{
  Ran, Ending, success, failure, Report, Inbox, Payload, Final, Effect, run_attempt, sleep, settle,
  is_cancelled, fields_of, policy, remaining, act_on, conclude, attempts, queued_too_long,
  run_queued_activity, first,
}
use dbosify_py.QueuedActivity.Attempts.{runs, runs-append, settle_quiet, sleep_after}

module _ {V P : Type 0} (payload : Payload V P) (started_at : ℕ) where
  -- Why a failure of attempt number `attempt`, which ended at `at`, is not retried.
  abbrev pub IsReason : ℕ → ℕ → Envelope P → RetryState → Type 0
  IsReason attempt at e non_retryable_failure =
      ((fields_of e).non_retryable ≡ true)
      ⊎ (is_non_retryable_type (fields_of e).type_name
            (policy payload started_at).non_retryable_error_types
          ≡ true)
  IsReason attempt at e timeout =
      (is_budget_timeout (fields_of e) ≡ true)
      ⊎ ((budget : ℕ) × (delay : ℕ) × (payload.schedule_to_close ≡ some budget)
          × (delay_with_cap (policy payload started_at) attempt (fields_of e).next_retry_delay
                (activity_cap (policy payload started_at))
              ≡ ok delay)
          × (budget + started_at ≤ at + delay))
  IsReason attempt at e maximum_attempts_reached =
      ((policy payload started_at).maximum_attempts ≢ 0)
      × ((policy payload started_at).maximum_attempts ≤ attempt)
  IsReason attempt at e _ = ⊥

  -- The last attempt of a trace; they are counted from the first one's number.
  abbrev pub IsLast : List Effect → ℕ → Type 0
  IsLast trace attempt = runs trace + first payload started_at ≡ suc attempt

  -- A success and a cancellation carry no retry state; any other failure carries the reason for which
  -- the last attempt was not retried, or it was queued for too long and no attempt was made.
  abbrev pub IsTerminal : Option ℕ → Final V P → List Effect → Type 0
  IsTerminal created_at final trace = AtEnding final.ending
    where
      AtEnding : Ending V P → Type 0
      AtEnding (success r) = final.retry_state ≡ none
      AtEnding (failure e) =
          ((is_cancelled e ≡ true) × (final.retry_state ≡ none))
          ⊎ (((state : RetryState) × (attempt : ℕ) × (final.retry_state ≡ some state)
                × IsLast trace attempt
                × IsReason attempt final.ended_at e state)
              ⊎ ((queued_too_long payload started_at created_at ≡ true)
                  × (trace ≡ [])
                  × (final.retry_state ≡ some timeout)))

  abbrev Terminates : Option ℕ → Ran V P → Type 0
  Terminates created_at none = Unit
  Terminates created_at (some (err raises, trace)) = Unit
  Terminates created_at (some (ok final, trace)) = IsTerminal created_at final trace

  timed_out-IsReason :
      (attempt at : ℕ) (e : Envelope P) (delay : ℕ)
      → delay_with_cap
          (policy payload started_at)
          attempt
          (fields_of e).next_retry_delay
          (activity_cap (policy payload started_at))
        ≡ ok delay
      → budget_exhausted payload.schedule_to_close
          (some (record { since = started_at; until = at }))
          delay
        ≡ true
      → IsReason attempt at e timeout
  unfolding budget_exhausted
  timed_out-IsReason attempt at e delay known spent =
      elim (Option-cases payload.schedule_to_close) [
        | inl unlimited ↦ absurd (ground arith)
        | inr (budget, is) ↦ inr (budget, delay, is, known, ground arith)
      ]

  given_up-IsReason :
      (attempt at : ℕ) (e : Envelope P) (state : RetryState)
      → retry_decision
          (policy payload started_at)
          attempt
          (fields_of e)
          (some (record { since = started_at; until = at }))
          payload.schedule_to_close
        ≡ ok (none, state)
      → IsReason attempt at e state
  unfolding retry_decision attempts_exhausted
  given_up-IsReason attempt at e state h = elim (Bool-cases (fields_of e).non_retryable) [
    | inl fixed ↦
        (let known : non_retryable_failure ≡ state = ground arith in
          subst (IsReason attempt at e) known (inl fixed))
    | inr free ↦
        elim (Bool-cases (
          is_non_retryable_type (fields_of e).type_name
            (policy payload started_at).non_retryable_error_types)) [
              | inl typed ↦
                  (let known : non_retryable_failure ≡ state = ground arith in
                    subst (IsReason attempt at e) known (inr typed))
              | inr untyped ↦ elim (Bool-cases (is_budget_timeout (fields_of e))) [
                | inl budget ↦
                    (let known : timeout ≡ state = ground arith in
                      subst (IsReason attempt at e) known (inl budget))
                | inr other ↦
                    elim (Bool-cases (attempts_exhausted (policy payload started_at) attempt)) [
                      | inl exhausted ↦
                          let used : IsReason attempt at e maximum_attempts_reached =
                            (ground arith, ground arith) in
                          let known : maximum_attempts_reached ≡ state = ground arith in
                          subst (IsReason attempt at e) known used
                      | inr left ↦
                          elim (Result-cases (
                            delay_with_cap (policy payload started_at) attempt
                              (fields_of e).next_retry_delay
                              (activity_cap (policy payload started_at)))) [
                                | inl (x, raises) ↦ absurd (ground arith)
                                | inr (delay, known) ↦
                                    (let expired : timeout ≡ state = ground arith in
                                      subst (IsReason attempt at e) expired (
                                        timed_out-IsReason attempt at e delay known (ground arith)))
                              ]
                    ]
              ]
            ]
  ]

  act_on_terminal :
      (created_at : Option ℕ) (retry : ℕ → Ran V P) (attempt at : ℕ) (e : Envelope P)
      (trace : List Effect) (decision : Result RetryError (Option ℕ × RetryState))
      → IsLast trace attempt
      → ((state : RetryState) → decision ≡ ok (none, state) → IsReason attempt at e state)
      → ((delay : ℕ) → Terminates created_at (retry delay))
      → Terminates created_at (act_on retry e at trace decision)
  unfolding act_on
  act_on_terminal created_at retry attempt at e trace (err raises) c stop again = tt
  act_on_terminal created_at retry attempt at e trace (ok (none, state)) c stop again =
      inr (inl (state, attempt, refl, c, stop state refl))
  act_on_terminal created_at retry attempt at e trace (ok (some delay, state)) c stop again =
      again delay

  conclude_terminal :
      (created_at : Option ℕ) (attempt at : ℕ) (retry : ℕ → Ran V P) (ending : Ending V P)
      (trace : List Effect)
      → IsLast trace attempt
      → ((delay : ℕ) → Terminates created_at (retry delay))
      → Terminates created_at (conclude payload started_at retry attempt ending at trace)
  unfolding conclude
  conclude_terminal created_at attempt at retry (success r) trace c again = refl
  conclude_terminal created_at attempt at retry (failure e) trace c again =
      elim (Bool-cases (is_cancelled e)) [
        | inl stopped ↦ rw stopped (inl (stopped, refl))
        | inr other ↦ rw other (
            act_on_terminal created_at retry attempt at e trace
              (retry_decision (policy payload started_at) attempt (fields_of e)
                (some (record { since = started_at; until = at })) payload.schedule_to_close)
              c (given_up-IsReason attempt at e) again)
      ]

module _ {V P : Type 0} (encode : V → P) (payload : Payload V P)
    (step : ℕ → Option ℕ → Bound → Report V P) (inbox : ℕ → Inbox V P) (started_at : ℕ) where
  attempts_terminal :
      (created_at : Option ℕ) (fuel attempt : ℕ) (elapsed_before : Span) (trace : List Effect)
      → runs trace + first payload started_at ≡ attempt
      → Terminates payload started_at created_at
          (attempts encode payload step inbox started_at fuel attempt elapsed_before trace)
  unfolding attempts
  attempts_terminal created_at zero attempt elapsed_before trace c = tt
  attempts_terminal created_at (suc fuel) attempt elapsed_before trace c =
      let d =
        effective_deadline payload.start_to_close (remaining payload started_at elapsed_before) in
      let outcome =
        settle encode payload.activity_id d.0 d.1 (inbox attempt) (step attempt d.0 d.1) in
      let trace' = trace ++ (run_attempt attempt d.0 d.1 ∷ outcome.2) in
      let quiet =
        settle_quiet encode payload step inbox started_at payload.activity_id d.0 d.1
          (inbox attempt) (step attempt d.0 d.1) in
      let count = runs-append trace (run_attempt attempt d.0 d.1 ∷ outcome.2) in
      conclude_terminal payload started_at created_at attempt outcome.1
        (λ delay.
          attempts encode payload step inbox started_at fuel (attempt + 1)
            (record { since = started_at; until = outcome.1 + delay }) (trace' ++ sleep delay ∷ []))
        outcome.0 trace' (omega (arith, count, quiet.0, c))
        (λ delay.
          attempts_terminal created_at fuel (attempt + 1)
            (record { since = started_at; until = outcome.1 + delay }) (trace' ++ sleep delay ∷ [])
            (sleep_after payload started_at attempt 0 (first payload started_at) delay trace
              outcome.2 d.0 d.1 c quiet.0))

  run_terminal :
      (fuel : ℕ) (created_at : Option ℕ)
      → Terminates payload started_at created_at
          (run_queued_activity encode payload step inbox started_at fuel created_at)
  unfolding run_queued_activity
  run_terminal fuel created_at = elim (Bool-cases (queued_too_long payload started_at created_at)) [
    | inl late ↦ rw late (inr (inr (late, refl, refl)))
    | inr started ↦ rw started (
        attempts_terminal created_at fuel (first payload started_at)
          (record { since = started_at; until = started_at }) [] (omega arith))
  ]

  -- Whatever the attempts and the completers report, a returned envelope is a success or a
  -- cancellation without a retry state, or a failure with the reason why its last attempt was not
  -- retried: a failure that is not retryable, no attempts left, or no time left for the delay. A
  -- timeout also stands for an activity that was queued for too long, of which no attempt was made.
  pub run_queued_activity-IsTerminal :
      (fuel : ℕ) (created_at : Option ℕ) (final : Final V P) (trace : List Effect)
      → run_queued_activity encode payload step inbox started_at fuel created_at
        ≡ some (ok final, trace)
      → IsTerminal payload started_at created_at final trace
  run_queued_activity-IsTerminal fuel created_at final trace e =
      subst (Terminates payload started_at created_at) e (run_terminal fuel created_at)
