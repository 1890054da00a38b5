-- ===== src/Interpreter/Activities/Attempts.antt =====
-- Attempts of activities (dbosify/_internal/interpreter.py): their launch, their end, the backoff
-- behind a failure, the park of an activity that an external completer ends, and queued runs.
use dbosify_py.Prelude.{
  ℕ, ◌+◌, ◌-◌, Bool, true, false, not, ◌&&◌, ◌||◌, Option, none, some, List, [], ◌∷◌, keep, ◌==◌,
  ltb, if◌then◌else◌, max,
}
use dbosify_py.Prelude.Text.{Text, text_eq}
use dbosify_py.Failure.{
  Envelope, timeout_error, RetryState, in_progress, timeout, TimeoutType, start_to_close,
  schedule_to_close,
}
use dbosify_py.Prelude.Result.{Result, ok, err}
use dbosify_py.Retry.{
  RetryError, retry_decision, effective_deadline, Bound, by_start_to_close, by_schedule_to_close,
}
use dbosify_py.QueuedActivity.{
  Ending, success, failure, Report, ended, parked, Final, is_cancelled, fields_of,
}
use dbosify_py.Interpreter.Activities.{
  activity, act_s2c, act_hb, kind_eq, ActivityExec, Resolution, result, cancelled, activity_error,
  run_attempt, ActivityState, find, update, delete, resolve, launch_waiter, perform,
}

unfoldable pub timeout_type_of_bound : Bound → TimeoutType
timeout_type_of_bound by_start_to_close = start_to_close
timeout_type_of_bound by_schedule_to_close = schedule_to_close

unfoldable pub less : Option ℕ → ℕ → Option ℕ
less none spent = none
less (some bound) spent = some (bound - spent)

-- The decision, or any where it raises: the state is then not read.
unfoldable pub taken : Result RetryError (Option ℕ × RetryState) → Option ℕ × RetryState
taken (err raises) = (none, in_progress)
taken (ok decision) = decision

unfoldable pub is_raised : Result RetryError (Option ℕ × RetryState) → Bool
is_raised (err raises) = true
is_raised (ok decision) = false

module _ {P : Type 0} where
  -- `_advance_time`
  unfoldable pub advance_time : ℕ → ActivityState P → ActivityState P
  advance_time to st = record st { time = if ltb st.time to then to else st.time }

  -- What is left of the schedule-to-close budget, in virtual time.
  unfoldable pub remaining : ActivityExec P → ℕ → Option ℕ
  remaining e time = elim e.schedule_to_close [
    | none ↦ none
    | some budget ↦ some (budget - (time - e.scheduled_at))
  ]

  -- `_launch_attempt`
  unfoldable pub launch_attempt : ActivityExec P → ActivityState P → ActivityState P
  unfolding remaining
  launch_attempt e st =
      let (deadline, bound) = effective_deadline e.start_to_close (remaining e st.time) in
      launch_waiter activity e.seq (
        perform (run_attempt e.seq e.attempt deadline bound ∷ [])
          (update (record e { in_backoff = false }) st))

  -- `_retry_decision`
  unfoldable pub activity_retry_decision :
      ActivityExec P → Envelope P → ℕ → Result RetryError (Option ℕ × RetryState)
  activity_retry_decision e failed time =
      retry_decision e.retry_policy e.attempt (fields_of failed)
        (elim e.schedule_to_close [
          | none ↦ none
          | some _ ↦ some (record { since = e.scheduled_at; until = time })
        ])
        e.schedule_to_close

  -- `_activity_failure_cause`: whether the cause is put inside a schedule-to-close timeout.
  unfoldable pub is_wrapped : Envelope P → Option RetryState → Bool
  is_wrapped failed (some timeout) = elim (fields_of failed).cls [
    | timeout_error ↦ false
    | _ ↦ true
  ]
  is_wrapped failed _ = false

  abbrev pub close_with : ActivityExec P → Resolution P → ActivityState P → ActivityState P
  close_with e r st = resolve e.seq r (delete e.seq st)

  -- A failure of an attempt goes through the retry policy: a backoff, or the ActivityError.
  unfoldable pub retry_or_fail : ActivityExec P → Envelope P → ActivityState P → ActivityState P
  unfolding activity_retry_decision is_wrapped
  retry_or_fail e failed st =
      let decision = activity_retry_decision e failed st.time in
      let (delay, state) = taken decision in
      let next : ActivityState P = elim delay [
        | some wait ↦ launch_waiter activity e.seq (
            update (record e { last_failure = some failed; in_backoff = true; pending_wait = wait })
              st)
        | none ↦
            close_with e (activity_error failed (some state) (is_wrapped failed (some state))) st
      ] in
      record next { raised = st.raised || is_raised decision }

  -- `_retire_parked_timers`
  unfoldable pub retire_parked_timers : ℕ → ActivityState P → ActivityState P
  retire_parked_timers seq st = record st {
    waiters =
        keep (λ w. not ((kind_eq w.kind act_s2c || kind_eq w.kind act_hb) && w.seq == seq))
          st.waiters;
  }

  -- `_fail_async_attempt`
  unfoldable pub fail_async_attempt :
      ActivityExec P → Envelope P → ActivityState P → ActivityState P
  unfolding retry_or_fail
  fail_async_attempt e failed st = retry_or_fail (record e { async_pending = false }) failed st

  -- The park's timer, when a bound is set; it lasts 50 ms at least.
  unfoldable pub arm_park : ActivityExec P → Option ℕ × Bound → ActivityState P → ActivityState P
  unfolding timeout_type_of_bound
  arm_park e (none, bound) st = update e st
  arm_park e (some wait, bound) st = launch_waiter act_s2c e.seq (
      update
        (record e {
          async_park_timeout_type = timeout_type_of_bound bound;
          pending_wait = max 50 wait;
        })
        st)

  unfoldable pub arm_heartbeat : ActivityExec P → ActivityState P → ActivityState P
  arm_heartbeat e st = elim e.heartbeat_timeout [
    | none ↦ st
    | some _ ↦ launch_waiter act_hb e.seq st
  ]

  -- An attempt that leaves its activity to an external completer. `async_hb_seen` is reset only
  -- where there is a heartbeat timeout.
  unfoldable pub park_activity : ActivityExec P → (spent : ℕ) → ActivityState P → ActivityState P
  unfolding arm_park arm_heartbeat remaining less
  park_activity e spent st =
      let e' = record e {
        async_pending = true;
        async_hb_seen = elim e.heartbeat_timeout [ none ↦ e.async_hb_seen | some _ ↦ false ];
      } in
      arm_heartbeat e'
        (arm_park e' (effective_deadline (less e.start_to_close spent) (remaining e st.time)) st)

  -- Backoff done: the next attempt.
  unfoldable pub next_attempt : ActivityExec P → ActivityState P → ActivityState P
  unfolding advance_time launch_attempt
  next_attempt e st =
      launch_attempt (record e { pending_wait = 0; attempt = e.attempt + 1 })
        (advance_time (st.time + e.pending_wait) st)

  -- `_async_pending_by_id`
  unfoldable pub async_pending_by_id : Text → List (ActivityExec P) → Option (ActivityExec P)
  async_pending_by_id id [] = none
  async_pending_by_id id (e ∷ es) =
      if text_eq e.activity_id id && e.async_pending then some e else async_pending_by_id id es

module _ {V P : Type 0} where
  -- A terminal ending: the result, a confirmed cancellation, or what `otherwise` does.
  unfoldable pub end_attempt :
      (Envelope P → ActivityState P → ActivityState P)
      → ActivityExec P
      → Ending V P
      → ActivityState P
      → ActivityState P
  end_attempt otherwise e (success r) st = close_with e (result r) st
  end_attempt otherwise e (failure failed) st =
      if e.cancel_requested && is_cancelled failed
      then close_with e cancelled st
      else otherwise failed st

  unfoldable pub apply_report : ActivityExec P → Report V P → ActivityState P → ActivityState P
  unfolding advance_time end_attempt retry_or_fail park_activity
  apply_report e (ended ending ended_at) st =
      end_attempt (retry_or_fail e) e ending (advance_time ended_at st)
  apply_report e (parked started_at ended_at) st =
      park_activity e (ended_at - started_at) (advance_time ended_at st)

  -- `_deliver_activity_event`
  unfoldable pub deliver_activity_event : ℕ → Report V P → ActivityState P → ActivityState P
  unfolding apply_report next_attempt
  deliver_activity_event seq report st = elim (find seq st.pending_activities) [
    | none ↦ st
    | some e ↦
        if e.future_cancelled
        then delete seq st
        else if e.in_backoff
        then next_attempt e st
        else apply_report e report st
  ]

  unfoldable pub apply_final : ActivityExec P → Final V P → ActivityState P → ActivityState P
  unfolding advance_time end_attempt is_wrapped
  apply_final e final st =
      end_attempt
        (λ failed st'.
          close_with e
            (activity_error failed final.retry_state (is_wrapped failed final.retry_state)) st')
        e final.ending (advance_time final.ended_at st)

  -- `_deliver_queued_activity_event`
  unfoldable pub deliver_queued_activity_event : ℕ → Final V P → ActivityState P → ActivityState P
  unfolding apply_final
  deliver_queued_activity_event seq final st = elim (find seq st.pending_activities) [
    | none ↦ st
    | some e ↦ if e.future_cancelled then delete seq st else apply_final e final st
  ]
