-- ===== src/Interpreter/Activities/Delivery.antt =====
-- The delivery of what activities wait for (dbosify/_internal/interpreter.py): a park, a heartbeat
-- window, the inbox's messages to a parked activity, and the done waiters in their order. Heartbeat
-- details are left out. A waiter is told by its kind and number.
use dbosify_py.Prelude.{
  ℕ, ◌+◌, true, false, not, String, Option, none, some, List, [], ◌∷◌, if◌then◌else◌,
}
use dbosify_py.Prelude.Text.{Text}
use dbosify_py.Failure.{
  Envelope, TimeoutType, start_to_close, schedule_to_close, heartbeat, timed_out, serialize_failure,
}
use dbosify_py.QueuedActivity.{Ending, success, failure, Report, Final, raised}
use dbosify_py.Interpreter.Activities.{
  inbox, activity, q_activity, act_s2c, act_hb, Waiter, waiter_eq, ActivityExec, result, cancelled,
  ActivityState, find, update, launch_waiter,
}
use dbosify_py.Interpreter.Activities.Attempts.{
  advance_time, close_with, retire_parked_timers, fail_async_attempt, async_pending_by_id,
  deliver_activity_event, deliver_queued_activity_event,
}

-- The inbox's messages to a parked activity.
pub data Message (V P : Type 0) : Type 0 where
  activity_result : (activity_id : Text) → Ending V P → Message V P
  activity_cancelled : (activity_id : Text) → Message V P
  activity_heartbeat : (activity_id : Text) → Message V P

module _ {V P : Type 0} where
  unfoldable pub complete : ActivityExec P → Ending V P → ActivityState P → ActivityState P
  unfolding fail_async_attempt
  complete e (success r) st = close_with e (result r) st
  complete e (failure failed) st = fail_async_attempt e failed st

  -- `_apply_activity_result` and `_apply_activity_heartbeat`
  unfoldable pub apply_message : Message V P → ActivityState P → ActivityState P
  unfolding retire_parked_timers complete
  apply_message (activity_result id ending) st =
      elim (async_pending_by_id id st.pending_activities) [
        | none ↦ st
        | some e ↦ complete e ending (retire_parked_timers e.seq st)
      ]
  apply_message (activity_cancelled id) st = elim (async_pending_by_id id st.pending_activities) [
    | none ↦ st
    | some e ↦ close_with e cancelled (retire_parked_timers e.seq st)
  ]
  apply_message (activity_heartbeat id) st = elim (async_pending_by_id id st.pending_activities) [
    | none ↦ st
    | some e ↦ update (record e { async_hb_seen = true }) st
  ]

timeout_message : TimeoutType → String
timeout_message start_to_close = "activity Start-To-Close timeout"
timeout_message schedule_to_close = "activity Schedule-To-Close timeout"
timeout_message _ = "activity Heartbeat timeout"

-- What a done task brings, by the kind of its waiter. The inbox's other messages are elsewhere.
pub data Delivery (V P : Type 0) : Type 0 where
  inbox_done : Option (Message V P) → Delivery V P
  attempt_done : (seq : ℕ) → Report V P → Delivery V P
  queued_done : (seq : ℕ) → Final V P → Delivery V P
  park_done : (seq : ℕ) → Delivery V P
  window_done : (seq : ℕ) → Delivery V P

abbrev pub waiter_of : {V P : Type 0} → Delivery V P → Waiter
waiter_of (inbox_done m) = record { kind = inbox; seq = 0 }
waiter_of (attempt_done k r) = record { kind = activity; seq = k }
waiter_of (queued_done k r) = record { kind = q_activity; seq = k }
waiter_of (park_done k) = record { kind = act_s2c; seq = k }
waiter_of (window_done k) = record { kind = act_hb; seq = k }

-- `waiter.task in done`: what the task of a waiter brings, if it is done.
unfoldable pub brought : {V P : Type 0} → List (Delivery V P) → Waiter → Option (Delivery V P)
brought [] w = none
brought (d ∷ done) w = if waiter_eq (waiter_of d) w then some d else brought done w

-- `list.remove`: `none` stands for its ValueError.
unfoldable pub remove : Waiter → List Waiter → Option (List Waiter)
remove w [] = none
remove w (v ∷ vs) =
    if waiter_eq v w
    then some vs
    else elim (remove w vs) [ none ↦ none | some rest ↦ some (v ∷ rest) ]

module _ {V P : Type 0} (encode : V → P) where
  unfoldable pub timeout_failure : TimeoutType → Envelope P
  unfolding raised timeout_message
  timeout_failure ty =
      serialize_failure encode (raised (timed_out (timeout_message ty) (some ty) []))

  -- `_async_parked_timeout`
  unfoldable pub async_parked_timeout : ℕ → TimeoutType → ActivityState P → ActivityState P
  unfolding retire_parked_timers fail_async_attempt timeout_failure
  async_parked_timeout seq ty st = elim (find seq st.pending_activities) [
    | none ↦ st
    | some e ↦
        if e.async_pending
        then fail_async_attempt e (timeout_failure ty) (retire_parked_timers seq st)
        else st
  ]

  -- The park's timer fires: the park is charged to virtual time first.
  unfoldable pub deliver_park : ℕ → ActivityState P → ActivityState P
  unfolding advance_time async_parked_timeout
  deliver_park seq st = elim (find seq st.pending_activities) [
    | none ↦ st
    | some e ↦
        async_parked_timeout seq e.async_park_timeout_type
          (update (record e { pending_wait = 0 }) (advance_time (st.time + e.pending_wait) st))
  ]

  -- `_async_heartbeat_check`
  unfoldable pub async_heartbeat_check : ℕ → ActivityState P → ActivityState P
  unfolding async_parked_timeout
  async_heartbeat_check seq st = elim (find seq st.pending_activities) [
    | none ↦ st
    | some e ↦
        if not e.async_pending
        then st
        else if not e.async_hb_seen
        then async_parked_timeout seq heartbeat st
        else launch_waiter act_hb seq (update (record e { async_hb_seen = false }) st)
  ]

  unfoldable pub handle : Delivery V P → ActivityState P → ActivityState P
  unfolding apply_message deliver_activity_event deliver_queued_activity_event deliver_park
      async_heartbeat_check
  handle (inbox_done none) st = st
  handle (inbox_done (some m)) st = apply_message m st
  handle (attempt_done k r) st = deliver_activity_event k r st
  handle (queued_done k f) st = deliver_queued_activity_event k f st
  handle (park_done k) st = deliver_park k st
  handle (window_done k) st = async_heartbeat_check k st

  -- An exception leaves `_deliver`.
  unfoldable pub unless_raised : ActivityState P → Option (ActivityState P)
  unless_raised st = if st.raised then none else some st

  -- One done waiter of `_deliver`; `none` stands for the ValueError of `list.remove`, too.
  unfoldable pub deliver_one : Delivery V P → ActivityState P → Option (ActivityState P)
  unfolding remove handle unless_raised
  deliver_one d st = elim (remove (waiter_of d) st.waiters) [
    | none ↦ none
    | some rest ↦ unless_raised (handle d (record st { waiters = rest }))
  ]

  -- The walk over a copy of the list of waiters; a waiter whose task is not done is skipped.
  unfoldable pub deliver_walk :
      List (Delivery V P) → List Waiter → ActivityState P → Option (ActivityState P)
  unfolding brought
  deliver_walk done [] st = some st
  deliver_walk done (w ∷ ws) st = elim (brought done w) [
    | none ↦ deliver_walk done ws st
    | some d ↦ elim (deliver_one d st) [ none ↦ none | some st' ↦ deliver_walk done ws st' ]
  ]

  -- `_deliver`, with what the done tasks bring.
  unfoldable pub deliver : List (Delivery V P) → ActivityState P → Option (ActivityState P)
  unfolding deliver_walk
  deliver done st = deliver_walk done st.waiters st
