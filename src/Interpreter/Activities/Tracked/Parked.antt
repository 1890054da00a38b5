-- ===== src/Interpreter/Activities/Tracked/Parked.antt =====
-- A park arms its timers, and keeps every activity tracked (dbosify/_internal/interpreter.py).
use dbosify_py.Prelude.{
  ℕ, ◌≡◌, Bool, true, false, not, ◌&&◌, ◌||◌, Option, none, some, List, [], ◌∷◌, ◌++◌, ◌==◌,
  if◌then◌else◌, is_some, arith, Option-cases, inl, inr, subst, max,
}
use dbosify_py.Retry.{Bound, effective_deadline}
use dbosify_py.Interpreter.Activities.{
  activity, act_s2c, act_hb, Waiter, kind_eq, ActivityExec, ActivityState, update,
}
use dbosify_py.Interpreter.Activities.Attempts.{
  arm_park, arm_heartbeat, park_activity, remaining, timeout_type_of_bound, less,
}
use dbosify_py.Interpreter.Activities.Tracked.{at, waits, is_armed, tracked, TrackedBy}
use dbosify_py.Interpreter.Activities.Tracked.Parts.{
  Replaces, update-Tracked_own, launch-Tracked_own, launch-Tracked_other, update-Tracked_other,
  alone-Tracked_other,
}

-- The heartbeat window of an activity that parks, when it has one.
abbrev window_of : ℕ → Option ℕ → List Waiter
window_of k none = []
window_of k (some t) = at k act_hb ∷ []

park_armed :
    (k : ℕ) (window : Option ℕ) (bounded : Bool) (ws : List Waiter)
    → ((not bounded
          || waits act_s2c k
              ((if bounded then at k act_s2c ∷ window_of k window else window_of k window) ++ ws))
        && (not (is_some window)
            || waits act_hb k (
                (if bounded then at k act_s2c ∷ window_of k window else window_of k window) ++ ws)))
      ≡ true
unfolding waits kind_eq
park_armed k none true ws = ground arith
park_armed k none false ws = ground arith
park_armed k (some t) true ws = ground arith
park_armed k (some t) false ws = ground arith

module _ {P : Type 0} (due : List ℕ → Bool) (calm : List ℕ → ℕ → Bool) (cmd : List ℕ → Bool)
    (n k : ℕ) where
  pub arm_park-Tracked_own :
      (extra : List Waiter) (e : ActivityExec P) (deadline : Option ℕ × Bound)
      (st : ActivityState P)
      → Replaces due calm cmd n k (if is_some deadline.0 then at k act_s2c ∷ extra else extra) e st
      → TrackedBy due calm cmd extra n k (arm_park e deadline st)
  unfolding arm_park tracked is_armed
  arm_park-Tracked_own extra e (none, bound) st h = update-Tracked_own due calm cmd n k extra e st h
  arm_park-Tracked_own extra e (some wait, bound) st h =
      let e' : ActivityExec P = record e {
        async_park_timeout_type = timeout_type_of_bound bound;
        pending_wait = max 50 wait;
      } in
      launch-Tracked_own due calm cmd n k act_s2c e.seq extra (update e' st) h.0
        (update-Tracked_own due calm cmd n k (at k act_s2c ∷ extra) e' st h)

  -- A park has its timer as soon as one of its bounds is set.
  park_deadline :
      (e : ActivityExec P) (spent time : ℕ)
      → is_some (effective_deadline (less e.start_to_close spent) (remaining e time)).0
        ≡ (is_some e.start_to_close || is_some e.schedule_to_close)
  unfolding effective_deadline remaining less
  park_deadline e spent time = ground arith

  pub arm_heartbeat-Tracked_own :
      (e : ActivityExec P) (st : ActivityState P)
      → (e.seq == k) ≡ true
      → TrackedBy due calm cmd (window_of k e.heartbeat_timeout) n k st
      → TrackedBy due calm cmd [] n k (arm_heartbeat e st)
  unfolding arm_heartbeat
  arm_heartbeat-Tracked_own e st same h = elim (Option-cases e.heartbeat_timeout) [
    | inl unwatched ↦
        rw (unwatched, arm_heartbeat)
          (subst (λ o. TrackedBy due calm cmd (window_of k o) n k st) unwatched h)
    | inr (t, watched) ↦
        rw (watched, arm_heartbeat)
          (launch-Tracked_own due calm cmd n k act_hb e.seq [] st same
            (subst (λ o. TrackedBy due calm cmd (window_of k o) n k st) watched h))
  ]

  pub park_activity-Tracked_own :
      (e : ActivityExec P) (spent : ℕ) (st : ActivityState P)
      → Replaces due calm cmd n k (at k activity ∷ []) e st
      → TrackedBy due calm cmd [] n k (park_activity e spent st)
  unfolding park_activity tracked is_armed
  park_activity-Tracked_own e spent st h =
      let e' : ActivityExec P = record e {
        async_pending = true;
        async_hb_seen = elim e.heartbeat_timeout [ none ↦ e.async_hb_seen | some _ ↦ false ];
      } in
      let deadline = effective_deadline (less e.start_to_close spent) (remaining e st.time) in
      arm_heartbeat-Tracked_own e' (arm_park e' deadline st) h.0 (
        arm_park-Tracked_own (window_of k e.heartbeat_timeout) e' deadline st (
          h.0,
          h.1,
          h.2,
          rw (park_deadline e spent st.time) (
              let (same, open_future, found, t) = h in
              ground (
                arith,
                park_armed k e.heartbeat_timeout
                    (is_some e.start_to_close || is_some e.schedule_to_close) st.waiters,
              )),
        ))

  arm_heartbeat-Tracked_other :
      (e : ActivityExec P) (st : ActivityState P)
      → (e.seq == k) ≡ false
      → TrackedBy due calm cmd [] n k st
      → TrackedBy due calm cmd [] n k (arm_heartbeat e st)
  unfolding arm_heartbeat
  arm_heartbeat-Tracked_other e st other h = elim (Option-cases e.heartbeat_timeout) [
    | inl unwatched ↦ rw (unwatched, arm_heartbeat) h
    | inr (t, watched) ↦
        rw (watched, arm_heartbeat) (alone-Tracked_other due calm cmd n k act_hb e.seq st other h)
  ]

  arm_park-Tracked_other :
      (e : ActivityExec P) (deadline : Option ℕ × Bound) (st : ActivityState P)
      → (e.seq == k) ≡ false
      → TrackedBy due calm cmd [] n k st
      → TrackedBy due calm cmd [] n k (arm_park e deadline st)
  unfolding arm_park
  arm_park-Tracked_other e (none, bound) st other h =
      update-Tracked_other due calm cmd n k e st other h
  arm_park-Tracked_other e (some wait, bound) st other h =
      launch-Tracked_other due calm cmd n k act_s2c
        (record e {
          async_park_timeout_type = timeout_type_of_bound bound;
          pending_wait = max 50 wait;
        })
        st other h

  pub park_activity-Tracked_other :
      (e : ActivityExec P) (spent : ℕ) (st : ActivityState P)
      → (e.seq == k) ≡ false
      → TrackedBy due calm cmd [] n k st
      → TrackedBy due calm cmd [] n k (park_activity e spent st)
  unfolding park_activity
  park_activity-Tracked_other e spent st other h =
      let e' : ActivityExec P = record e {
        async_pending = true;
        async_hb_seen = elim e.heartbeat_timeout [ none ↦ e.async_hb_seen | some _ ↦ false ];
      } in
      let deadline = effective_deadline (less e.start_to_close spent) (remaining e st.time) in
      arm_heartbeat-Tracked_other e' (arm_park e' deadline st) other
        (arm_park-Tracked_other e' deadline st other h)
