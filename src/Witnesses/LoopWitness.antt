-- ===== src/Witnesses/LoopWitness.antt =====
-- Runs of activities to which the theorems on the loop are applied.
use dbosify_py.Prelude.{
  ℕ, ◌+◌, ◌≡◌, refl, Bool, true, false, String, Option, none, some, List, [], ◌∷◌, if◌then◌else◌,
  ◌≤◌, arith,
}
use dbosify_py.Prelude.Text.{Text, text, digits_onto}
use dbosify_py.Failure.{start_to_close}
use dbosify_py.Retry.{validate, default_policy}
use dbosify_py.Interpreter.Activities.Races.{done_together, charged_in_turn}
use dbosify_py.Interpreter.Activities.Attempts.{deliver_activity_event}
use dbosify_py.QueuedActivity.{Report, ended, success}
use dbosify_py.Interpreter.Activities.{
  ActivityExec, ActivityState, Start, start_activity, find, put, kind_eq, activity, q_activity,
  act_s2c, act_hb, Waiter, inbox,
}
use dbosify_py.Interpreter.Activities.Delivery.{
  attempt_done, park_done, window_done, brought, deliver_walk, deliver, deliver_one,
}
use dbosify_py.Interpreter.Activities.Loop.{
  Event, waited, step, initial, Reachable, initially, started, stepped, pass, ensure_inbox_waiter,
}
use dbosify_py.Interpreter.Activities.Tracked.{count, waits, is_armed}
use dbosify_py.Interpreter.Activities.Tracked.Started.{given, is_open}
use dbosify_py.Interpreter.Activities.Tracked.Reached.{resolved_once, armed_while_waiting, waiting}

abbrev run_id : Text
run_id = text "order--r1"

abbrev no_queue : String → Bool
no_queue queue = false

abbrev encode : ℕ → ℕ
encode v = v

abbrev watched : Start
watched = record {
  activity_name = "charge";
  is_known = true;
  retry_policy = none;
  activity_id = none;
  start_to_close = some 10000;
  schedule_to_close = none;
  heartbeat_timeout = some 2000;
  cancellation_type = 0;
  task_queue = none;
}

unfoldable begun : ActivityState ℕ
unfolding start_activity
begun = (start_activity false watched (initial 0)).1

unfoldable state_of : Option (ActivityState ℕ) → ActivityState ℕ
state_of none = initial 0
state_of (some st) = st

abbrev success_at : Event ℕ ℕ
success_at = waited (attempt_done 1 (ended (success 7) 500) ∷ [])

unfoldable finished : ActivityState ℕ
unfolding state_of begun step
finished = state_of (step run_id none no_queue encode success_at begun)

reached : Reachable run_id none no_queue encode (1 ∷ []) begun
unfolding begun validate
reached = started false watched (initially 0) refl

ended_well : Reachable run_id none no_queue encode (1 ∷ []) finished
unfolding finished begun state_of deliver_one brought deliver_walk deliver validate find kind_eq put
ended_well = stepped success_at reached refl

resolved_once_example :
    (given 1 (1 ∷ []) ≡ count 1 finished.resolved + (if is_open 1 finished then 1 else 0))
    × (given 1 (1 ∷ []) ≤ 1)
resolved_once_example = resolved_once run_id none no_queue encode (1 ∷ []) finished ended_well 1

unfoldable first_of : List (ActivityExec ℕ) → Option (ActivityExec ℕ)
first_of [] = none
first_of (e ∷ es) = some e

abbrev running : ActivityExec ℕ
running = record {
  seq = 1;
  activity_name = "charge";
  activity_id = text "1";
  retry_policy = default_policy;
  start_to_close = some 10000;
  schedule_to_close = none;
  heartbeat_timeout = some 2000;
  scheduled_at = 0;
  cancellation_type = 0;
  attempt = 1;
  in_backoff = false;
  pending_wait = 0;
  last_failure = none;
  cancel_requested = false;
  async_pending = false;
  async_park_timeout_type = start_to_close;
  async_hb_seen = false;
  task_queue = none;
  queued_dbos_id = none;
  future_cancelled = false;
}

running_found : find 1 (waiting run_id none no_queue encode begun).pending_activities ≡ some running
unfolding begun validate find pass ensure_inbox_waiter put digits_onto
running_found = refl

armed_example :
    (running.future_cancelled ≡ false)
    × (is_armed running
          (waits activity 1 (waiting run_id none no_queue encode begun).waiters)
          (waits q_activity 1 (waiting run_id none no_queue encode begun).waiters)
          (waits act_s2c 1 (waiting run_id none no_queue encode begun).waiters)
          (waits act_hb 1 (waiting run_id none no_queue encode begun).waiters)
        ≡ true)
armed_example =
    armed_while_waiting run_id none no_queue encode (1 ∷ []) begun reached 1 running running_found

abbrev inbox_waiter : Waiter
inbox_waiter = record { kind = inbox; seq = 0 }

-- The activity is parked, and both its timers have ended.
abbrev parked_state : ActivityState ℕ
parked_state = record (initial 300) {
  last_seq = 1;
  pending_activities = (record running { async_pending = true; pending_wait = 9700 }) ∷ [];
  waiters =
      inbox_waiter
      ∷ (record { kind = act_s2c; seq = 1 })
      ∷ (record { kind = act_hb; seq = 1 })
      ∷ [];
}

together_example : deliver encode (window_done 1 ∷ park_done 1 ∷ []) parked_state ≡ none
unfolding find brought kind_eq
together_example =
    done_together encode 1 (record running { async_pending = true; pending_wait = 9700 })
      (window_done 1 ∷ park_done 1 ∷ []) (inbox_waiter ∷ []) [] [] parked_state refl refl refl refl
      refl (refl, tt) tt

-- Two activities back off for a second each, since the same moment.
abbrev retrying_state : ActivityState ℕ
retrying_state = record (initial 300) {
  last_seq = 2;
  pending_activities =
      (record running { in_backoff = true; pending_wait = 1000 })
      ∷ (record running { seq = 2; in_backoff = true; pending_wait = 1000 })
      ∷ [];
}

abbrev late : Report ℕ ℕ
late = ended (success 7) 500

charged_example :
    (deliver_activity_event 2 late (deliver_activity_event 1 late retrying_state)).time ≡ 2300
unfolding find
charged_example =
    charged_in_turn 1 2 (record running { in_backoff = true; pending_wait = 1000 })
      (record running { seq = 2; in_backoff = true; pending_wait = 1000 }) late late retrying_state
      (λ h. absurd (omega (arith, h))) refl refl refl refl refl refl
