-- ===== src/QueuedActivity.antt =====
-- dbosify/_internal/activity_workflow.py: a cross-queue activity runs as its own workflow, which
-- retries it on the worker that dequeued it. One attempt (the step `act:{type}`) and the inbox of
-- external completions are parameters; what the workflow does to the outside is its trace.
pub mod Attempts
pub mod Outcome
use text.Mathlib.Text.{◌==◌ as str_eq}
use dbosify_py.Prelude.{
  ℕ, zero, suc, ◌+◌, ◌-◌, String, Bool, true, false, Option, none, some, List, [], ◌∷◌, ◌++◌, ltb,
  if◌then◌else◌,
}
use dbosify_py.Prelude.Result.{Result, ok, err}
use dbosify_py.Failure.{
  Exc, exc, Kind, timed_out, cancelled, no_link, Envelope, envelope, Fields, Cls, cancelled_error,
  RetryState, timeout, TimeoutType, start_to_close, schedule_to_start, schedule_to_close,
  serialize_failure,
}
use dbosify_py.Retry.{
  RetryPolicy, RetryError, Span, default_policy, retry_decision, effective_deadline, Bound,
  by_start_to_close, by_schedule_to_close,
}

-- `RECV_TIMEOUT_SECONDS` of dbosify/_internal/inbox.py, in ticks.
abbrev pub recv_timeout : ℕ
recv_timeout = 3600000

-- `attempt_step_for`: the registered step, else the dynamic one, else KeyError.
pub data Step : Type 0 where
  own_step : String → Step
  dynamic_step : Step

unfoldable pub attempt_step_for : List String → Bool → String → Result String Step
attempt_step_for [] true name = ok dynamic_step
attempt_step_for [] false name = err name
attempt_step_for (step ∷ steps) dynamic name =
    if str_eq step name then ok (own_step step) else attempt_step_for steps dynamic name

module _ (V P : Type 0) where
  -- How an attempt or a park ends: the keys "ok", "result" and "failure" of its envelope.
  pub data Ending : Type 0 where
    success : P → Ending
    failure : Envelope P → Ending

  -- What the attempt step returns: an ending with its "ended_at", or a park with "started_at" too.
  pub data Report : Type 0 where
    ended : Ending → (ended_at : ℕ) → Report
    parked : (started_at ended_at : ℕ) → Report

  -- A message to a parked activity. A heartbeat is no completion.
  pub data Completion : Type 0 where
    heartbeat_message : Completion
    cancel_message : (sent_at : ℕ) → Completion
    complete_message : P → (sent_at : ℕ) → Completion
    fail_message : Envelope P → (sent_at : ℕ) → Completion

  pub record Payload : Type 0 where
    pub activity_name : String
    pub activity_id : String
    pub start_to_close : Option ℕ
    pub schedule_to_close : Option ℕ
    pub schedule_to_start : Option ℕ
    pub retry_policy : Option RetryPolicy
    pub first_attempt : Option ℕ

-- What the workflow does: runs an attempt under a deadline, parks, sleeps, tells later completers
-- that the activity is gone.
pub data Effect : Type 0 where
  run_attempt : (attempt : ℕ) → (deadline : Option ℕ) → Bound → Effect
  park : (wait : ℕ) → Effect
  sleep : (delay : ℕ) → Effect
  set_gone : String → Effect

unfoldable pub raised : {V : Type 0} → Kind V → Exc V
raised k = exc k none no_link no_link false

-- The envelope that the workflow returns, with the retry state where it gave up.
pub record Final (V P : Type 0) : Type 0 where
  pub ending : Ending V P
  pub ended_at : ℕ
  pub retry_state : Option RetryState

-- What is left of the deliveries of one park, `none` for a recv that timed out.
abbrev pub Inbox : Type 0 → Type 0 → Type 0
Inbox V P = List (Option (Completion V P))

-- deadline minus the time that the body took, at least 0; without a deadline the recv timeout.
unfoldable pub wait_timeout : Option ℕ → ℕ → ℕ → ℕ
wait_timeout none started_at ended_at = recv_timeout
wait_timeout (some deadline) started_at ended_at = deadline - (ended_at - started_at)

-- What the workflow returned or raised, with its trace; `none` while the fuel ran out.
abbrev pub Ran : Type 0 → Type 0 → Type 0
Ran V P = Option (Result RetryError (Final V P) × List Effect)

gone_effect : Bool → String → List Effect
gone_effect true id = set_gone id ∷ []
gone_effect false id = []

unfoldable pub is_cancelled : {P : Type 0} → Envelope P → Bool
is_cancelled (envelope f cause) = elim f.cls [ cancelled_error ↦ true | _ ↦ false ]

unfoldable pub fields_of : {P : Type 0} → Envelope P → Fields P
fields_of (envelope f cause) = f

module _ {V P : Type 0} where
  unfoldable pub give_up : Envelope P → ℕ → Option RetryState → List Effect → Ran V P
  give_up e at state trace =
      some (ok (record { ending = failure e; ended_at = at; retry_state = state }), trace)

  unfoldable pub act_on :
      (ℕ → Ran V P)
      → Envelope P
      → ℕ
      → List Effect
      → Result RetryError (Option ℕ × RetryState)
      → Ran V P
  unfolding give_up
  act_on retry e at trace (err raises) = some (err raises, trace)
  act_on retry e at trace (ok (none, state)) = give_up e at (some state) trace
  act_on retry e at trace (ok (some delay, state)) = retry delay

module _ {V P : Type 0} (payload : Payload V P) (started_at : ℕ) where
  unfoldable pub policy : RetryPolicy
  policy = elim payload.retry_policy [ none ↦ default_policy | some p ↦ p ]

  -- schedule_to_close - elapsed_before, where a budget is set; `effective_deadline` takes at least 0.
  unfoldable pub remaining : Span → Option ℕ
  remaining elapsed_before = elim payload.schedule_to_close [
    | none ↦ none
    | some b ↦ some ((b + elapsed_before.since) - elapsed_before.until)
  ]

  -- What follows an attempt's ending: a success and a cancellation are terminal, and any other
  -- failure goes to the retry decision.
  unfoldable pub conclude : (ℕ → Ran V P) → ℕ → Ending V P → ℕ → List Effect → Ran V P
  unfolding policy act_on
  conclude retry attempt (success r) at trace =
      some (ok (record { ending = success r; ended_at = at; retry_state = none }), trace)
  conclude retry attempt (failure e) at trace =
      if is_cancelled e
      then give_up e at none trace
      else act_on retry e at trace (
          retry_decision policy attempt (fields_of e)
            (some (record { since = started_at; until = at })) payload.schedule_to_close)

  -- schedule_to_start is set, the creation time is known and the dwell passed the budget.
  unfoldable pub queued_too_long : Option ℕ → Bool
  queued_too_long none = false
  queued_too_long (some created_at) = elim payload.schedule_to_start [
    | none ↦ false
    | some budget ↦ ltb budget (started_at - created_at)
  ]

  unfoldable pub first : ℕ
  first = elim payload.first_attempt [ none ↦ 1 | some n ↦ n ]

module _ {V P : Type 0} (encode : V → P) where
  park_timeout : Bound → Envelope P
  unfolding raised
  park_timeout by_start_to_close =
      serialize_failure encode
        (raised (timed_out "activity Start-To-Close timeout" (some start_to_close) []))
  park_timeout by_schedule_to_close =
      serialize_failure encode
        (raised (timed_out "activity Schedule-To-Close timeout" (some schedule_to_close) []))

  -- `_await_async_completion`: the ending, its time, and whether the gone-event was set. When the
  -- deliveries are used up, the next recv times out.
  unfoldable pub await_async_completion : ℕ → Bound → Inbox V P → Ending V P × ℕ × Bool
  unfolding park_timeout
  await_async_completion ended_at bound [] = (failure (park_timeout bound), ended_at, false)
  await_async_completion ended_at bound (none ∷ inbox) =
      (failure (park_timeout bound), ended_at, false)
  await_async_completion ended_at bound (some heartbeat_message ∷ inbox) =
      await_async_completion ended_at bound inbox
  await_async_completion ended_at bound (some (cancel_message sent_at) ∷ inbox) = (
    failure (serialize_failure encode (raised (cancelled "Activity cancelled" []))),
    sent_at,
    true,
  )
  await_async_completion ended_at bound (some (complete_message r sent_at) ∷ inbox) =
      (success r, sent_at, true)
  await_async_completion ended_at bound (some (fail_message e sent_at) ∷ inbox) =
      (failure e, sent_at, false)

  -- The ending of an attempt, after its park where it has one, with the effects.
  unfoldable pub settle :
      String → Option ℕ → Bound → Inbox V P → Report V P → Ending V P × ℕ × List Effect
  unfolding gone_effect
  settle id deadline bound inbox (ended e at) = (e, at, [])
  settle id deadline bound inbox (parked started at) =
      let (e, at', gone) = await_async_completion at bound inbox in
      (e, at', park (wait_timeout deadline started at) ∷ gone_effect gone id)

  module _ (payload : Payload V P) (step : ℕ → Option ℕ → Bound → Report V P)
      (inbox : ℕ → Inbox V P) (started_at : ℕ) where
    -- `while True`: `none` when the fuel runs out.
    unfoldable pub attempts : ℕ → ℕ → Span → List Effect → Ran V P
    unfolding remaining conclude
    attempts zero attempt elapsed_before trace = none
    attempts (suc fuel) attempt elapsed_before trace =
        let (deadline, bound) =
          effective_deadline payload.start_to_close (remaining payload started_at elapsed_before) in
        let (ending, at, effects) =
          settle payload.activity_id deadline bound (inbox attempt) (step attempt deadline bound) in
        let trace' = trace ++ (run_attempt attempt deadline bound ∷ effects) in
        let retry : ℕ → Ran V P = λ delay.
          attempts fuel (attempt + 1) (record { since = started_at; until = at + delay })
            (trace' ++ sleep delay ∷ []) in
        conclude payload started_at retry attempt ending at trace'

    -- `_run_queued_activity` on a worker that has the step.
    unfoldable pub run_queued_activity : ℕ → Option ℕ → Ran V P
    unfolding give_up first
    run_queued_activity fuel created_at =
        let loop =
          attempts fuel (first payload started_at)
            (record { since = started_at; until = started_at }) [] in
        if queued_too_long payload started_at created_at
        then give_up
            (serialize_failure encode
              (raised (timed_out "activity Schedule-To-Start timeout" (some schedule_to_start) [])))
            started_at (some timeout) []
        else loop
