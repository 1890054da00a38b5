-- ===== src/Interpreter/Activities/Tracked/Parts.antt =====
-- The parts of which deliveries are made keep every activity tracked (dbosify/_internal/interpreter.py).
use dbosify_py.Prelude.{
  ℕ, ◌≡◌, Bool, true, false, ◌&&◌, none, some, List, [], ◌∷◌, ◌++◌, ◌==◌, arith, Option-cases, inl,
  inr, subst,
}
use dbosify_py.Failure.{Envelope}
use dbosify_py.Interpreter.Activities.{
  WaiterKind, activity, q_activity, act_s2c, act_hb, Waiter, kind_eq, ActivityExec, Resolution,
  ActivityState, find, update, delete, launch_waiter,
}
use dbosify_py.Interpreter.Activities.Attempts.{
  close_with, retry_or_fail, activity_retry_decision, taken, launch_attempt,
}
use dbosify_py.Interpreter.Activities.Tracked.{
  at, mem, count, waits, is_armed, tracked, TrackedBy, Calm, never, waits_launch, waits_moved,
  count-append, find-seq, find-without_seq, find-put, single, single-put, single-without_seq,
}

module _ {P : Type 0} (due : List ℕ → Bool) (calm : List ℕ → ℕ → Bool) (cmd : List ℕ → Bool)
    (n k : ℕ) where
  -- An open execution is put in the place of the one under its number, while `extra` is still counted.
  abbrev pub Replaces : List Waiter → ActivityExec P → ActivityState P → Type 0
  Replaces extra e st =
      ((e.seq == k) ≡ true)
      × (e.future_cancelled ≡ false)
      × ((x : ActivityExec P) × (find k st.pending_activities ≡ some x))
      × (tracked n (calm st.cancelled_activity_seqs st.last_seq && single k st.pending_activities)
            (some e) (count k st.resolved) (cmd st.commands) (due st.cancelled_activity_seqs)
            (waits activity k (extra ++ st.waiters)) (waits q_activity k (extra ++ st.waiters))
            (waits act_s2c k (extra ++ st.waiters)) (waits act_hb k (extra ++ st.waiters))
          ≡ true)

  pub close_with-Tracked_own :
      (extra : List Waiter) (e : ActivityExec P) (r : Resolution P) (st : ActivityState P)
      → Replaces extra e st
      → TrackedBy due calm cmd [] n k (close_with e r st)
  unfolding tracked
  close_with-Tracked_own extra e r st h =
      let (same, opened, found, t) = h in
      rw
        (
          single-without_seq k e.seq st.pending_activities,
          find-without_seq k e.seq st.pending_activities,
          same,
          count-append k st.resolved,
        )
        (ground arith)

  pub close_with-Tracked_other :
      (e : ActivityExec P) (r : Resolution P) (st : ActivityState P)
      → (e.seq == k) ≡ false
      → TrackedBy due calm cmd [] n k st
      → TrackedBy due calm cmd [] n k (close_with e r st)
  close_with-Tracked_other e r st other h =
      rw
        (
          single-without_seq k e.seq st.pending_activities,
          find-without_seq k e.seq st.pending_activities,
          other,
          count-append k st.resolved,
        )
        (ground arith)

  pub update-Tracked_own :
      (extra : List Waiter) (e : ActivityExec P) (st : ActivityState P)
      → Replaces extra e st
      → TrackedBy due calm cmd extra n k (update e st)
  update-Tracked_own extra e st h =
      let (same, opened, (x, found), t) = h in
      rw (single-put k e st.pending_activities, find-put k e st.pending_activities, same, found) t

  pub launch-Tracked_own :
      (kind : WaiterKind) (j : ℕ) (extra : List Waiter) (st : ActivityState P)
      → (j == k) ≡ true
      → TrackedBy due calm cmd (at k kind ∷ extra) n k st
      → TrackedBy due calm cmd extra n k (launch_waiter kind j st)
  launch-Tracked_own kind j extra st same h =
      rw
        (
          waits_moved activity kind k j extra st.waiters same,
          waits_moved q_activity kind k j extra st.waiters same,
          waits_moved act_s2c kind k j extra st.waiters same,
          waits_moved act_hb kind k j extra st.waiters same,
        )
        h

  pub drop-Tracked :
      (w : Waiter) (st : ActivityState P)
      → (w.seq == k) ≡ false
      → TrackedBy due calm cmd (w ∷ []) n k st
      → TrackedBy due calm cmd [] n k st
  unfolding waits kind_eq
  drop-Tracked w st other h = ground arith

  pub launch-Tracked_other :
      (kind : WaiterKind) (e : ActivityExec P) (st : ActivityState P)
      → (e.seq == k) ≡ false
      → TrackedBy due calm cmd [] n k st
      → TrackedBy due calm cmd [] n k (launch_waiter kind e.seq (update e st))
  unfolding waits kind_eq
  launch-Tracked_other kind e st other h =
      rw (single-put k e st.pending_activities, find-put k e st.pending_activities, other)
        (ground (
          arith,
          waits_launch activity kind k e.seq st.waiters,
          waits_launch q_activity kind k e.seq st.waiters,
          waits_launch act_s2c kind k e.seq st.waiters,
          waits_launch act_hb kind k e.seq st.waiters,
        ))

  pub update-Tracked_other :
      (e : ActivityExec P) (st : ActivityState P)
      → (e.seq == k) ≡ false
      → TrackedBy due calm cmd [] n k st
      → TrackedBy due calm cmd [] n k (update e st)
  update-Tracked_other e st other h =
      rw (single-put k e st.pending_activities, find-put k e st.pending_activities, other) h

  pub retry_or_fail-Tracked_own :
      (e : ActivityExec P) (failed : Envelope P) (st : ActivityState P)
      → Replaces (at k activity ∷ []) e st
      → TrackedBy due calm cmd [] n k (retry_or_fail e failed st)
  unfolding retry_or_fail tracked is_armed
  retry_or_fail-Tracked_own e failed st h =
      elim (Option-cases (taken (activity_retry_decision e failed st.time)).0) [
        | inl no_delay ↦
            rw (no_delay, retry_or_fail) (close_with-Tracked_own (at k activity ∷ []) e _ st h)
        | inr (wait, delayed) ↦
            let e' : ActivityExec P = record e {
              last_failure = some failed;
              in_backoff = true;
              pending_wait = wait;
            } in
            rw (delayed, retry_or_fail)
              (launch-Tracked_own activity e.seq [] (update e' st) h.0
                (update-Tracked_own (at k activity ∷ []) e' st h))
      ]

  pub retry_or_fail-Tracked_other :
      (e : ActivityExec P) (failed : Envelope P) (st : ActivityState P)
      → (e.seq == k) ≡ false
      → TrackedBy due calm cmd [] n k st
      → TrackedBy due calm cmd [] n k (retry_or_fail e failed st)
  unfolding retry_or_fail
  retry_or_fail-Tracked_other e failed st other h =
      elim (Option-cases (taken (activity_retry_decision e failed st.time)).0) [
        | inl no_delay ↦ rw (no_delay, retry_or_fail) (close_with-Tracked_other e _ st other h)
        | inr (wait, delayed) ↦
            rw (delayed, retry_or_fail)
              (launch-Tracked_other activity
                (record e { last_failure = some failed; in_backoff = true; pending_wait = wait }) st
                other h)
      ]

  pub opened :
      (extra : List Waiter) (e : ActivityExec P) (st : ActivityState P)
      → find k st.pending_activities ≡ some e
      → e.future_cancelled ≡ false
      → TrackedBy due calm cmd extra n k st
      → Replaces extra e st
  opened extra e st found open_future h = (
    ground (arith, find-seq k st.pending_activities e found),
    open_future,
    (e, found),
    subst
        (λ o.
          tracked n (calm st.cancelled_activity_seqs st.last_seq && single k st.pending_activities)
            o (count k st.resolved) (cmd st.commands) (due st.cancelled_activity_seqs)
            (waits activity k (extra ++ st.waiters)) (waits q_activity k (extra ++ st.waiters))
            (waits act_s2c k (extra ++ st.waiters)) (waits act_hb k (extra ++ st.waiters))
          ≡ true)
        found h,
  )

  pub gone-Tracked :
      (extra : List Waiter) (st : ActivityState P)
      → find k st.pending_activities ≡ none
      → TrackedBy due calm cmd extra n k st
      → TrackedBy due calm cmd [] n k st
  unfolding tracked
  gone-Tracked extra st gone h = ground arith

  pub delete-Tracked_own :
      (extra : List Waiter) (e : ActivityExec P) (st : ActivityState P)
      → find k st.pending_activities ≡ some e
      → e.future_cancelled ≡ true
      → TrackedBy due calm cmd extra n k st
      → TrackedBy due calm cmd [] n k (delete k st)
  unfolding tracked
  delete-Tracked_own extra e st found ended h =
      rw (single-without_seq k k st.pending_activities, find-without_seq k k st.pending_activities)
        (ground arith)

  pub launch_attempt-Tracked_own :
      (e : ActivityExec P) (st : ActivityState P)
      → Replaces (at k activity ∷ []) e st
      → TrackedBy due calm cmd [] n k (launch_attempt e st)
  unfolding launch_attempt tracked is_armed
  launch_attempt-Tracked_own e st h =
      let e' : ActivityExec P = record e { in_backoff = false } in
      launch-Tracked_own activity e.seq [] (update e' st) h.0
        (update-Tracked_own (at k activity ∷ []) e' st h)

  pub delete-Tracked_other :
      (j : ℕ) (st : ActivityState P)
      → (j == k) ≡ false
      → TrackedBy due calm cmd [] n k st
      → TrackedBy due calm cmd [] n k (delete j st)
  delete-Tracked_other j st other h =
      rw
        (
          single-without_seq k j st.pending_activities,
          find-without_seq k j st.pending_activities,
          other,
        )
        h

  pub launch_attempt-Tracked_other :
      (e : ActivityExec P) (st : ActivityState P)
      → (e.seq == k) ≡ false
      → TrackedBy due calm cmd [] n k st
      → TrackedBy due calm cmd [] n k (launch_attempt e st)
  unfolding launch_attempt
  launch_attempt-Tracked_other e st other h =
      launch-Tracked_other activity (record e { in_backoff = false }) st other h

  pub alone-Tracked_other :
      (kind : WaiterKind) (j : ℕ) (st : ActivityState P)
      → (j == k) ≡ false
      → TrackedBy due calm cmd [] n k st
      → TrackedBy due calm cmd [] n k (launch_waiter kind j st)
  unfolding kind_eq
  alone-Tracked_other kind j st other h = ground (
    arith,
    waits_launch activity kind k j st.waiters,
    waits_launch q_activity kind k j st.waiters,
    waits_launch act_s2c kind k j st.waiters,
    waits_launch act_hb kind k j st.waiters,
  )

abbrev pub Open :
    {P : Type 0}
    → (calm : List ℕ → ℕ → Bool) (n k : ℕ) → List Waiter
    → ActivityExec P
    → ActivityState P
    → Type 0
Open calm n k extra e st = Replaces never calm (mem k) n k extra e st

module _ {P : Type 0} (calm : List ℕ → ℕ → Bool) (n k : ℕ) where
  pub opened_when_swept :
      (extra : List Waiter) (e : ActivityExec P) (st : ActivityState P)
      → find k st.pending_activities ≡ some e
      → Calm extra calm n k st
      → Open calm n k extra e st
  unfolding tracked
  opened_when_swept extra e st found h =
      opened never calm (mem k) n k extra e st found (ground arith) h

  pub other_seq :
      (j : ℕ) (e : ActivityExec P) (es : List (ActivityExec P))
      → (j == k) ≡ false
      → find j es ≡ some e
      → (e.seq == k) ≡ false
  other_seq j e es other found = ground (arith, find-seq j es e found)
