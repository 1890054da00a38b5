-- ===== src/Witnesses/ActivityWitness.antt =====
-- A cross-queue activity at which the theorems on dbosify/_internal/activity_workflow.py apply.
use dbosify_py.Prelude.{ℕ, ◌≡◌, refl, Option, none, some, List, [], ◌∷◌, ltb, if◌then◌else◌}
use dbosify_py.Failure.{Envelope, envelope, no_cause, bare, application_error}
use dbosify_py.Retry.{
  default_policy, Bound, by_start_to_close, retry_decision, effective_deadline,
  is_non_retryable_type, is_budget_timeout, attempts_exhausted, budget_exhausted, delay_with_cap,
  backoff, overflows, activity_cap,
}
use dbosify_py.Prelude.Result.{ok}
use dbosify_py.QueuedActivity.{
  success, failure, Report, ended, parked, Inbox, heartbeat_message, complete_message, Payload,
  Final, Effect, run_attempt, sleep, park, set_gone, policy, first, attempts, settle, conclude,
  act_on, give_up, remaining, queued_too_long, is_cancelled, fields_of, await_async_completion,
  wait_timeout, run_queued_activity,
}
use dbosify_py.QueuedActivity.Outcome.{IsTerminal, run_queued_activity-IsTerminal}

abbrev crashed : Envelope ℕ
crashed = envelope (bare application_error "crash" none) no_cause

abbrev payload : Payload ℕ ℕ
payload = record {
  activity_name = "charge";
  activity_id = "3";
  start_to_close = some 5000;
  schedule_to_close = some 60000;
  schedule_to_start = none;
  retry_policy = some (record default_policy { maximum_attempts = 4 });
  first_attempt = none;
}

-- Two attempts crash, and the third is completed from outside.
abbrev step : ℕ → Option ℕ → Bound → Report ℕ ℕ
step attempt deadline bound = if ltb attempt 3 then ended (failure crashed) 1000 else parked 0 1000

abbrev inbox : ℕ → Inbox ℕ ℕ
inbox attempt = some heartbeat_message ∷ some (complete_message 8 9000) ∷ []

abbrev charged : Final ℕ ℕ
charged = record { ending = success 8; ended_at = 9000; retry_state = none }

abbrev charged_trace : List Effect
charged_trace =
    run_attempt 1 (some 5000) by_start_to_close
    ∷ sleep 1000
    ∷ run_attempt 2 (some 5000) by_start_to_close
    ∷ sleep 2000
    ∷ run_attempt 3 (some 5000) by_start_to_close
    ∷ park 4000
    ∷ set_gone "3"
    ∷ []

returned :
    run_queued_activity (λ v. v) payload step inbox 0 10 none ≡ some (ok charged, charged_trace)
unfolding run_queued_activity attempts settle conclude act_on give_up policy first remaining
    queued_too_long is_cancelled fields_of await_async_completion wait_timeout retry_decision
    effective_deadline is_non_retryable_type is_budget_timeout attempts_exhausted budget_exhausted
    delay_with_cap backoff overflows activity_cap
returned = refl

final_example : IsTerminal payload 0 none charged charged_trace
final_example =
    run_queued_activity-IsTerminal (λ v. v) payload step inbox 0 10 none charged charged_trace
      returned
