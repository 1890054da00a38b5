-- ===== src/Interpreter/Activities/Tracked/Completed.antt =====
-- Messages to a parked activity keep every activity tracked (dbosify/_internal/interpreter.py).
use dbosify_py.Prelude.{
  ℕ, ◌≡◌, Bool, true, false, none, some, List, [], ◌∷◌, ◌==◌, arith, Bool-cases, Option-cases, inl,
  inr, ==_iff, subst, sym,
}
use dbosify_py.Prelude.Text.{Text}
use dbosify_py.QueuedActivity.{success, failure}
use dbosify_py.Interpreter.Activities.{
  activity, ActivityExec, result, cancelled, ActivityState, find, update,
}
use dbosify_py.Interpreter.Activities.Attempts.{
  close_with, retire_parked_timers, async_pending_by_id,
}
use dbosify_py.Interpreter.Activities.Delivery.{
  complete, Message, activity_result, activity_cancelled, activity_heartbeat, apply_message,
}
use dbosify_py.Interpreter.Activities.Tracked.{
  at, mem, tracked, is_armed, Calm, never, single, find-async_pending_by_id,
}
use dbosify_py.Interpreter.Activities.Tracked.Parts.{
  Open, opened_when_swept, close_with-Tracked_own, close_with-Tracked_other, update-Tracked_own,
  update-Tracked_other,
}
use dbosify_py.Interpreter.Activities.Tracked.Timed.{
  retire-Open, retire-Tracked_other, fail_async-Tracked_own, fail_async-Tracked_other,
}

module _ {P : Type 0} (calm : List ℕ → ℕ → Bool) (n : ℕ) where
  -- The parked activity that an id finds is the one under its number.
  by_id-Open :
      (id : Text) (e : ActivityExec P) (st : ActivityState P)
      → async_pending_by_id id st.pending_activities ≡ some e
      → Calm [] calm n e.seq st
      → Open calm n e.seq [] e st
  unfolding tracked
  by_id-Open id e st found h =
      let only : single e.seq st.pending_activities ≡ true =
        elim (Option-cases (find e.seq st.pending_activities)) [
          | inl gone ↦ ground arith
          | inr (x, present) ↦ ground arith
        ] in
      opened_when_swept calm n e.seq [] e st
        (find-async_pending_by_id id e st.pending_activities found only) h

module _ {V P : Type 0} (calm : List ℕ → ℕ → Bool) (n : ℕ) where
  -- What a message does to the parked activity that it names.
  abbrev effect_of : Message V P → ActivityExec P → ActivityState P → ActivityState P
  effect_of (activity_result id ending) e st = complete e ending (retire_parked_timers e.seq st)
  effect_of (activity_cancelled id) e st = close_with e cancelled (retire_parked_timers e.seq st)
  effect_of (activity_heartbeat id) e st = update (record e { async_hb_seen = true }) st

  abbrev id_of : Message V P → Text
  id_of (activity_result id ending) = id
  id_of (activity_cancelled id) = id
  id_of (activity_heartbeat id) = id

  message_applied :
      (m : Message V P) (e : ActivityExec P) (st : ActivityState P)
      → async_pending_by_id (id_of m) st.pending_activities ≡ some e
      → apply_message m st ≡ effect_of m e st
  unfolding apply_message
  message_applied (activity_result id ending) e st found = ground arith
  message_applied (activity_cancelled id) e st found = ground arith
  message_applied (activity_heartbeat id) e st found = ground arith

  message_dropped :
      (m : Message V P) (st : ActivityState P)
      → async_pending_by_id (id_of m) st.pending_activities ≡ none
      → apply_message m st ≡ st
  unfolding apply_message
  message_dropped (activity_result id ending) st gone = ground arith
  message_dropped (activity_cancelled id) st gone = ground arith
  message_dropped (activity_heartbeat id) st gone = ground arith

  effect-Tracked_own :
      (m : Message V P) (e : ActivityExec P) (st : ActivityState P)
      → Open calm n e.seq [] e st
      → Calm [] calm n e.seq (effect_of m e st)
  unfolding complete tracked is_armed
  effect-Tracked_own (activity_result id (success r)) e st o =
      close_with-Tracked_own never calm (mem e.seq) n e.seq (at e.seq activity ∷ [])
        (record e { async_pending = false }) (result r) (retire_parked_timers e.seq st)
        (retire-Open calm n e.seq [] e st o)
  effect-Tracked_own (activity_result id (failure failed)) e st o =
      fail_async-Tracked_own calm n e.seq [] e failed st o
  effect-Tracked_own (activity_cancelled id) e st o =
      close_with-Tracked_own never calm (mem e.seq) n e.seq (at e.seq activity ∷ [])
        (record e { async_pending = false }) cancelled (retire_parked_timers e.seq st)
        (retire-Open calm n e.seq [] e st o)
  effect-Tracked_own (activity_heartbeat id) e st o =
      update-Tracked_own never calm (mem e.seq) n e.seq [] (record e { async_hb_seen = true }) st o

  effect-Tracked_other :
      (k : ℕ) (m : Message V P) (e : ActivityExec P) (st : ActivityState P)
      → (e.seq == k) ≡ false
      → Calm [] calm n k st
      → Calm [] calm n k (effect_of m e st)
  unfolding complete
  effect-Tracked_other k (activity_result id (success r)) e st other h =
      close_with-Tracked_other never calm (mem k) n k e (result r) (retire_parked_timers e.seq st)
        other (retire-Tracked_other calm n k e.seq st other h)
  effect-Tracked_other k (activity_result id (failure failed)) e st other h =
      fail_async-Tracked_other calm n k e failed (retire_parked_timers e.seq st) other
        (retire-Tracked_other calm n k e.seq st other h)
  effect-Tracked_other k (activity_cancelled id) e st other h =
      close_with-Tracked_other never calm (mem k) n k e cancelled (retire_parked_timers e.seq st)
        other (retire-Tracked_other calm n k e.seq st other h)
  effect-Tracked_other k (activity_heartbeat id) e st other h =
      update-Tracked_other never calm (mem k) n k (record e { async_hb_seen = true }) st other h

  pub apply_message-Tracked :
      (k : ℕ) (m : Message V P) (st : ActivityState P)
      → Calm [] calm n k st
      → Calm [] calm n k (apply_message m st)
  apply_message-Tracked k m st h =
      elim (Option-cases (async_pending_by_id (id_of m) st.pending_activities)) [
        | inl gone ↦ subst (λ s. Calm [] calm n k s) (sym (message_dropped m st gone)) h
        | inr (e, found) ↦
            subst (λ s. Calm [] calm n k s) (sym (message_applied m e st found))
              (elim (Bool-cases (e.seq == k)) [
                | inr other ↦ effect-Tracked_other k m e st other h
                | inl same ↦
                    let here : e.seq ≡ k = (==_iff e.seq k).0 same in
                    subst (λ i. Calm [] calm n i (effect_of m e st)) here
                      (effect-Tracked_own m e st (
                        by_id-Open calm n (id_of m) e st found
                          (subst (λ i. Calm [] calm n i st) (sym here) h)))
              ])
      ]
