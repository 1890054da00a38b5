-- ===== src/Interpreter/Activities/Loop.antt =====
-- What the loop of `Interpreter.run` does with activities (dbosify/_internal/interpreter.py): commands
-- become waiters, cancelled activities are swept, and done waiters are delivered. A child's or a
-- timer's command, the encoding of arguments and the horizon of a replay are left out. `dispatches`
-- tells the queues on which the enqueue of `__temporal_activity` succeeds.
use dbosify_py.Prelude.{
  ℕ, Bool, true, false, not, String, Option, none, some, List, [], ◌∷◌, ◌++◌, keep, ◌==◌,
  if◌then◌else◌, ◌≡◌,
}
use dbosify_py.Prelude.Result.{ok, err}
use dbosify_py.Prelude.Text.{Text}
use dbosify_py.Ids.{activity_dbos_id}
use dbosify_py.Interpreter.Activities.{
  Waiter, inbox, q_activity, ActivityExec, schedule_error, Effect, enqueue_activity, request_cancel,
  set_cancel_event, send_cancelled, set_gone, ActivityState, find, update, delete, launch_waiter,
  perform, Start, StartError, start_activity, request_activity_cancel, cancel_await,
}
use dbosify_py.Interpreter.Activities.Attempts.{launch_attempt, close_with}
use dbosify_py.Interpreter.Activities.Delivery.{Delivery, deliver}
use text.Mathlib.Text.{◌==◌ as str_eq}

-- task_queue is None, or the worker's own queue
unfoldable pub is_local : Option String → Option String → Bool
is_local own none = true
is_local none (some queue) = false
is_local (some own) (some queue) = str_eq queue own

unfoldable pub is_attempt_waiter : ℕ → Waiter → Bool
is_attempt_waiter seq w = elim w.kind [ inbox ↦ false | _ ↦ w.seq == seq ]

module _ {P : Type 0} where
  -- `_signal_queued_activity_cancel`
  signal_effects : ActivityExec P → Text → List Effect
  signal_effects e dbos_id = set_cancel_event e.activity_id ∷ send_cancelled dbos_id ∷ []

  -- One activity of `_sweep_cancellations` that waits for its confirmation.
  unfoldable pub sweep_wait : ℕ → ActivityState P → ActivityState P
  unfolding signal_effects
  sweep_wait seq st = elim (find seq st.pending_activities) [
    | none ↦ st
    | some e ↦ elim e.queued_dbos_id [
      | none ↦ st
      | some dbos_id ↦ perform (signal_effects e dbos_id) st
    ]
  ]

  unfoldable pub sweep_waits : List ℕ → ActivityState P → ActivityState P
  unfolding sweep_wait
  sweep_waits [] st = st
  sweep_waits (k ∷ ks) st = sweep_waits ks (sweep_wait k st)

  -- An abandoned activity is not told.
  request_effects : ActivityExec P → List Effect
  unfolding signal_effects
  request_effects e = if e.cancellation_type == 2 then [] else elim e.queued_dbos_id [
    | none ↦ request_cancel e.seq ∷ []
    | some dbos_id ↦ signal_effects e dbos_id
  ]

  gone_effects : ActivityExec P → List Effect
  gone_effects e = if e.async_pending then set_gone e.activity_id ∷ [] else []

  unfoldable pub sweep_cancelled : ℕ → ActivityState P → ActivityState P
  unfolding request_effects gone_effects is_attempt_waiter
  sweep_cancelled seq st = elim (find seq st.pending_activities) [
    | none ↦ st
    | some e ↦ record (perform (request_effects e ++ gone_effects e) (delete seq st)) {
      waiters = keep (λ w. not (is_attempt_waiter seq w)) st.waiters;
    }
  ]

  unfoldable pub sweep_all : List ℕ → ActivityState P → ActivityState P
  unfolding sweep_cancelled
  sweep_all [] st = st
  sweep_all (k ∷ ks) st = sweep_all ks (sweep_cancelled k st)

  -- `_sweep_cancellations`, its part for activities.
  unfoldable pub sweep_cancellations : ActivityState P → ActivityState P
  unfolding sweep_waits sweep_all
  sweep_cancellations st =
      let st' =
        sweep_waits st.queued_wait_cancel_seqs (record st { queued_wait_cancel_seqs = [] }) in
      sweep_all st'.cancelled_activity_seqs (record st' { cancelled_activity_seqs = [] })

module _ {P : Type 0} (run_id : Text) (own_queue : Option String) (dispatches : String → Bool) where
  -- A cancellation that was asked for before the dispatch is sent after it.
  unfoldable pub dispatched : ActivityExec P → String → ActivityState P → ActivityState P
  unfolding signal_effects
  dispatched e queue st =
      let dbos_id = activity_dbos_id run_id e.seq in
      launch_waiter q_activity e.seq (
        perform
          (enqueue_activity queue dbos_id
            ∷ (if e.cancel_requested then signal_effects e dbos_id else []))
          (update (record e { queued_dbos_id = some dbos_id }) st))

  -- `_launch_queued_activity`
  unfoldable pub launch_queued_activity :
      ActivityExec P → String → ActivityState P → ActivityState P
  unfolding dispatched
  launch_queued_activity e queue st =
      if dispatches queue
      then dispatched e queue st
      else if e.future_cancelled
      then delete e.seq st
      else close_with e schedule_error st

  -- As a step of this worker, or on another worker's queue.
  unfoldable pub launch : ActivityExec P → ActivityState P → ActivityState P
  unfolding launch_attempt launch_queued_activity is_local
  launch e st = elim e.task_queue [
    | none ↦ launch_attempt e st
    | some queue ↦
        if is_local own_queue (some queue)
        then launch_attempt e st
        else launch_queued_activity e queue st
  ]

  -- `_process_commands`, for one activity.
  unfoldable pub process_command : ℕ → ActivityState P → ActivityState P
  unfolding launch
  process_command seq st = elim (find seq st.pending_activities) [
    | none ↦ st
    | some e ↦ launch e st
  ]

  unfoldable pub process_list : List ℕ → ActivityState P → ActivityState P
  unfolding process_command
  process_list [] st = st
  process_list (k ∷ ks) st = process_list ks (process_command k st)

  unfoldable pub process_commands : ActivityState P → ActivityState P
  unfolding process_list
  process_commands st = process_list st.commands (record st { commands = [] })

abbrev pub initial : {P : Type 0} → ℕ → ActivityState P
initial time = record {
  time = time;
  last_seq = 0;
  pending_activities = [];
  commands = [];
  waiters = [];
  cancelled_activity_seqs = [];
  queued_wait_cancel_seqs = [];
  resolved = [];
  effects = [];
  raised = false;
}

-- What happens to the activities of a run besides a start: cancellations while the coroutines run,
-- and a pass of the loop, which goes on at once or waits for `DBOS.asyncio_wait`.
pub data Event (V P : Type 0) : Type 0 where
  cancel_asked : (seq : ℕ) → Event V P
  await_cancelled : (seq : ℕ) → Event V P
  passed : Event V P
  waited : List (Delivery V P) → Event V P

unfoldable pub has_inbox : List Waiter → Bool
has_inbox [] = false
has_inbox (w ∷ ws) = elim w.kind [ inbox ↦ true | _ ↦ has_inbox ws ]

unfoldable pub ensure_inbox_waiter : {P : Type 0} → ActivityState P → ActivityState P
unfolding has_inbox
ensure_inbox_waiter st = if has_inbox st.waiters then st else launch_waiter inbox 0 st

module _ {V P : Type 0} (run_id : Text) (own_queue : Option String) (dispatches : String → Bool)
    (encode : V → P) where
  unfoldable pub pass : ActivityState P → ActivityState P
  unfolding sweep_cancellations process_commands
  pass st = process_commands run_id own_queue dispatches (sweep_cancellations st)

  -- `none` where an exception leaves the loop.
  unfoldable pub step : Event V P → ActivityState P → Option (ActivityState P)
  unfolding request_activity_cancel cancel_await pass ensure_inbox_waiter deliver
  step (cancel_asked k) st = some (request_activity_cancel k st)
  step (await_cancelled k) st = some (cancel_await k st)
  step passed st = some (pass st)
  step (waited done) st = deliver encode done (ensure_inbox_waiter (pass st))

  -- The states of a run, with the activities that it started, last first. Any order is allowed.
  pub data Reachable : List ℕ → ActivityState P → Type 0 where
    initially : (time : ℕ) → Reachable [] (initial time)
    started :
        {ks : List ℕ} {st st' : ActivityState P} {k : ℕ} (read_only : Bool) (s : Start)
        → Reachable ks st
        → start_activity read_only s st ≡ (ok k, st')
        → Reachable (k ∷ ks) st'
    refused :
        {ks : List ℕ} {st st' : ActivityState P} {why : StartError} (read_only : Bool) (s : Start)
        → Reachable ks st
        → start_activity read_only s st ≡ (err why, st')
        → Reachable ks st'
    stepped :
        {ks : List ℕ} {st st' : ActivityState P} (event : Event V P)
        → Reachable ks st
        → step event st ≡ some st'
        → Reachable ks st'
