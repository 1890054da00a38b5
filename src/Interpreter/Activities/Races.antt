-- ===== src/Interpreter/Activities/Races.antt =====
-- Waits of activities that end together (dbosify/_internal/interpreter.py).
use dbosify_py.Prelude.{
  ℕ, ◌+◌, ◌≡◌, true, false, none, some, List, [], ◌∷◌, ◌++◌, All, ap, ◌==◌, ◌≢◌, arith,
  Option-cases, inl, inr, sym, subst, refl, ◌∙◌, keep, not, ◌&&◌, ◌||◌,
}
use dbosify_py.QueuedActivity.{Report}
use dbosify_py.Interpreter.Activities.{
  ActivityExec, ActivityState, find, Waiter, activity, act_s2c, act_hb, kind_eq,
}
use dbosify_py.Interpreter.Activities.Attempts.{
  deliver_activity_event, next_attempt, launch_attempt, advance_time, retry_or_fail,
  activity_retry_decision, taken, fail_async_attempt, retire_parked_timers,
}
use dbosify_py.Interpreter.Activities.Delivery.{
  brought, deliver_walk, deliver, deliver_one, Delivery, park_done, window_done, handle, remove,
  deliver_park, timeout_failure,
}
use dbosify_py.Interpreter.Activities.Tracked.{at, waits, waits_launch, find-put, find-seq}
use dbosify_py.Interpreter.Activities.Tracked.Timed.{charged, park_charged, timeout_parked}
use dbosify_py.Failure.{Envelope}
use dbosify_py.Interpreter.Activities.Tracked.Ended.{event_waiting}

module _ {P : Type 0} where
  next_attempt-time :
      (e : ActivityExec P) (st : ActivityState P)
      → (next_attempt e st).time ≡ st.time + e.pending_wait
  unfolding next_attempt launch_attempt advance_time
  next_attempt-time e st = ground arith

  find-next_attempt :
      (k : ℕ) (e : ActivityExec P) (st : ActivityState P)
      → (e.seq == k) ≡ false
      → find k (next_attempt e st).pending_activities ≡ find k st.pending_activities
  unfolding next_attempt launch_attempt advance_time
  find-next_attempt k e st other =
      rw
        (
          find-put k (record e { in_backoff = false; pending_wait = 0; attempt = e.attempt + 1 })
              st.pending_activities,
          other,
        )
        refl

-- Neither retired timer of an activity is left, nor can it be taken out again.
retired_window :
    (k : ℕ) (ws : List Waiter)
    → waits act_hb k
        (keep (λ w. not ((kind_eq w.kind act_s2c || kind_eq w.kind act_hb) && w.seq == k)) ws)
      ≡ false
unfolding waits kind_eq
retired_window k [] = refl
retired_window k (w ∷ ws) = ground (arith, retired_window k ws)

no_waiter : (k : ℕ) (ws : List Waiter) → waits act_hb k ws ≡ false → remove (at k act_hb) ws ≡ none
unfolding remove waits
no_waiter k [] h = refl
no_waiter k (v ∷ ws) h = ground (arith, no_waiter k ws)

module _ {P : Type 0} where
  retry_or_fail-waits :
      (k : ℕ) (e : ActivityExec P) (failed : Envelope P) (st : ActivityState P)
      → waits act_hb k (retry_or_fail e failed st).waiters ≡ waits act_hb k st.waiters
  unfolding retry_or_fail kind_eq
  retry_or_fail-waits k e failed st =
      elim (Option-cases (taken (activity_retry_decision e failed st.time)).0) [
        | inl no_delay ↦ rw (no_delay, retry_or_fail) refl
        | inr (wait, delayed) ↦
            rw (delayed, retry_or_fail, waits_launch act_hb activity k e.seq st.waiters)
              (ground arith)
      ]

  fail_async-window :
      (k : ℕ) (e : ActivityExec P) (failed : Envelope P) (st : ActivityState P)
      → waits act_hb k (fail_async_attempt e failed (retire_parked_timers k st)).waiters ≡ false
  unfolding fail_async_attempt retire_parked_timers
  fail_async-window k e failed st =
      retry_or_fail-waits k (record e { async_pending = false }) failed (retire_parked_timers k st)
      ∙ retired_window k st.waiters

module _ {V P : Type 0} (encode : V → P) where
  deliver_park-window :
      (k : ℕ) (e : ActivityExec P) (st : ActivityState P)
      → find k st.pending_activities ≡ some e
      → e.async_pending ≡ true
      → waits act_hb k (deliver_park encode k st).waiters ≡ false
  unfolding advance_time
  deliver_park-window k e st found pending =
      let here = find-seq k st.pending_activities e found in
      let e' : ActivityExec P = record e { pending_wait = 0 } in
      let same : (e'.seq == k) ≡ true = ground (arith, here) in
      let found' : find k (charged e st).pending_activities ≡ some e' =
        rw (find-put k e' st.pending_activities, same, found) refl in
      subst (λ s. waits act_hb k s.waiters ≡ false)
        (sym (
          park_charged encode k e st found
          ∙ timeout_parked encode k e' e.async_park_timeout_type (charged e st) found' pending))
        (fail_async-window k e' (timeout_failure encode e.async_park_timeout_type) (charged e st))

  -- Waiters whose tasks are not done are skipped.
  walk_skipped :
      (done : List (Delivery V P)) (before ws : List Waiter) (st : ActivityState P)
      → All (λ w. brought done w ≡ none) before
      → deliver_walk encode done (before ++ ws) st ≡ deliver_walk encode done ws st
  unfolding deliver_walk
  walk_skipped done [] ws st h = refl
  walk_skipped done (w ∷ before) ws st h =
      rw (h.0, deliver_walk) (walk_skipped done before ws st h.1)

  walk_window :
      (k : ℕ) (done : List (Delivery V P)) (ws : List Waiter) (st : ActivityState P)
      → brought done (at k act_hb) ≡ some (window_done k)
      → waits act_hb k st.waiters ≡ false
      → deliver_walk encode done (at k act_hb ∷ ws) st ≡ none
  unfolding deliver_walk deliver_one
  walk_window k done ws st window gone = let lost = no_waiter k st.waiters gone in ground arith

  walk_together :
      (k : ℕ) (e : ActivityExec P) (done : List (Delivery V P)) (between after : List Waiter)
      (st : ActivityState P)
      → find k st.pending_activities ≡ some e
      → e.async_pending ≡ true
      → brought done (at k act_s2c) ≡ some (park_done k)
      → brought done (at k act_hb) ≡ some (window_done k)
      → All (λ w. brought done w ≡ none) between
      → deliver_walk encode done (at k act_s2c ∷ (between ++ at k act_hb ∷ after)) st ≡ none
  unfolding deliver_walk deliver_one handle
  walk_together k e done between after st found pending park window quiet =
      elim (Option-cases (remove (at k act_s2c) st.waiters)) [
        | inl missing ↦ ground arith
        | inr (rest, taken) ↦
            let st1 : ActivityState P = record st { waiters = rest } in
            let st2 = deliver_park encode k st1 in
            let skipped = walk_skipped done between (at k act_hb ∷ after) st2 quiet in
            let raises =
              walk_window k done after st2 window (deliver_park-window k e st1 found pending) in
            ground arith
      ]

  -- Both the park and the heartbeat window of one parked activity are done, the park's waiter before
  -- the window's in the list and no other done one before or between them: the park's delivery, where
  -- it does not raise itself, retires the window's waiter, and taking that one out of the list raises.
  pub done_together :
      (k : ℕ) (e : ActivityExec P) (done : List (Delivery V P)) (before between after : List Waiter)
      (st : ActivityState P)
      → find k st.pending_activities ≡ some e
      → e.async_pending ≡ true
      → st.waiters ≡ before ++ at k act_s2c ∷ (between ++ at k act_hb ∷ after)
      → brought done (at k act_s2c) ≡ some (park_done k)
      → brought done (at k act_hb) ≡ some (window_done k)
      → All (λ w. brought done w ≡ none) before
      → All (λ w. brought done w ≡ none) between
      → deliver encode done st ≡ none
  unfolding deliver
  done_together k e done before between after st found pending waiting park window first then =
      ap (λ ws. deliver_walk encode done ws st) waiting
      ∙ walk_skipped done before (at k act_s2c ∷ (between ++ at k act_hb ∷ after)) st first
      ∙ walk_together k e done between after st found pending park window then

module _ {V P : Type 0} where
  -- Two different activities with open futures back off, and their waits' ends are delivered one after
  -- the other: each wait is added in full to the virtual time.
  pub charged_in_turn :
      (j k : ℕ) (d e : ActivityExec P) (q r : Report V P) (st : ActivityState P)
      → j ≢ k
      → find j st.pending_activities ≡ some d
      → find k st.pending_activities ≡ some e
      → d.future_cancelled ≡ false
      → e.future_cancelled ≡ false
      → d.in_backoff ≡ true
      → e.in_backoff ≡ true
      → (deliver_activity_event k r (deliver_activity_event j q st)).time
        ≡ st.time + d.pending_wait + e.pending_wait
  charged_in_turn j k d e q r st apart at_j at_k open_j open_k waits_j waits_k =
      let first = event_waiting j d q st at_j open_j waits_j in
      let away : (d.seq == k) ≡ false =
        ground (arith, apart, find-seq j st.pending_activities d at_j) in
      let at_k' = find-next_attempt k d st away ∙ at_k in
      let second = event_waiting k e r (next_attempt d st) at_k' open_k waits_k in
      subst (λ s. (deliver_activity_event k r s).time ≡ st.time + d.pending_wait + e.pending_wait)
        (sym first)
        (subst (λ s. s.time ≡ st.time + d.pending_wait + e.pending_wait) (sym second)
          (omega (arith, next_attempt-time e (next_attempt d st), next_attempt-time d st)))
