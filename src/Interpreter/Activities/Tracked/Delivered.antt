-- ===== src/Interpreter/Activities/Tracked/Delivered.antt =====
-- Deliveries keep every activity tracked (dbosify/_internal/interpreter.py).
use dbosify_py.Prelude.{
  ℕ, ◌≡◌, Bool, true, false, none, some, List, [], ◌∷◌, ◌==◌, arith, Bool-cases, Option-cases, inl,
  inr, ==_iff, subst, sym,
}
use dbosify_py.Interpreter.Activities.{
  activity, q_activity, act_s2c, act_hb, Waiter, kind_eq, ActivityState,
}
use dbosify_py.Interpreter.Activities.Attempts.{
  deliver_activity_event, deliver_queued_activity_event,
}
use dbosify_py.Interpreter.Activities.Delivery.{
  remove, deliver_park, async_heartbeat_check, handle, Delivery, inbox_done, attempt_done,
  queued_done, park_done, window_done, waiter_of, brought, deliver_one, deliver_walk, deliver,
}
use dbosify_py.Interpreter.Activities.Tracked.{at, mem, waits, Calm, never, waits-remove}
use dbosify_py.Interpreter.Activities.Tracked.Parts.{drop-Tracked}
use dbosify_py.Interpreter.Activities.Tracked.Timed.{
  deliver_park-Tracked_own, deliver_park-Tracked_other,
}
use dbosify_py.Interpreter.Activities.Tracked.Windows.{
  heartbeat_check-Tracked_own, heartbeat_check-Tracked_other,
}
use dbosify_py.Interpreter.Activities.Tracked.Completed.{apply_message-Tracked}
use dbosify_py.Interpreter.Activities.Tracked.Ended.{
  deliver_activity_event-Tracked_own, deliver_activity_event-Tracked_other,
  deliver_queued_activity_event-Tracked_own, deliver_queued_activity_event-Tracked_other,
}

module _ {V P : Type 0} (encode : V → P) (calm : List ℕ → ℕ → Bool) (n k : ℕ) where
  -- What a done waiter brings to its own activity, or to another one.
  handle-Tracked_own :
      (d : Delivery V P) (st : ActivityState P)
      → ((waiter_of d).seq == k) ≡ true
      → Calm (waiter_of d ∷ []) calm n k st
      → Calm [] calm n k (handle encode d st)
  unfolding handle waits kind_eq
  handle-Tracked_own (inbox_done none) st same h = h
  handle-Tracked_own (inbox_done (some m)) st same h = apply_message-Tracked calm n k m st h
  handle-Tracked_own (attempt_done j r) st same h =
      let here = (==_iff j k).0 same in
      subst (λ i. Calm [] calm n k (deliver_activity_event i r st)) (sym here)
        (deliver_activity_event-Tracked_own calm n k r st
          (subst (λ i. Calm (at i activity ∷ []) calm n k st) here h))
  handle-Tracked_own (queued_done j f) st same h =
      let here = (==_iff j k).0 same in
      subst (λ i. Calm [] calm n k (deliver_queued_activity_event i f st)) (sym here)
        (deliver_queued_activity_event-Tracked_own calm n k f st
          (subst (λ i. Calm (at i q_activity ∷ []) calm n k st) here h))
  handle-Tracked_own (park_done j) st same h =
      let here = (==_iff j k).0 same in
      subst (λ i. Calm [] calm n k (deliver_park encode i st)) (sym here)
        (deliver_park-Tracked_own encode calm n k st
          (subst (λ i. Calm (at i act_s2c ∷ []) calm n k st) here h))
  handle-Tracked_own (window_done j) st same h =
      let here = (==_iff j k).0 same in
      subst (λ i. Calm [] calm n k (async_heartbeat_check encode i st)) (sym here)
        (heartbeat_check-Tracked_own encode calm n k st
          (subst (λ i. Calm (at i act_hb ∷ []) calm n k st) here h))

  handle-Tracked_other :
      (d : Delivery V P) (st : ActivityState P)
      → ((waiter_of d).seq == k) ≡ false
      → Calm [] calm n k st
      → Calm [] calm n k (handle encode d st)
  unfolding handle
  handle-Tracked_other (inbox_done none) st other h = h
  handle-Tracked_other (inbox_done (some m)) st other h = apply_message-Tracked calm n k m st h
  handle-Tracked_other (attempt_done j r) st other h =
      deliver_activity_event-Tracked_other calm n k j r st other h
  handle-Tracked_other (queued_done j f) st other h =
      deliver_queued_activity_event-Tracked_other calm n k j f st other h
  handle-Tracked_other (park_done j) st other h =
      deliver_park-Tracked_other encode calm n k j st other h
  handle-Tracked_other (window_done j) st other h =
      heartbeat_check-Tracked_other encode calm n k j st other h

  removed-Tracked :
      (w : Waiter) (st : ActivityState P) (rest : List Waiter)
      → remove w st.waiters ≡ some rest
      → Calm [] calm n k st
      → Calm (w ∷ []) calm n k (record st { waiters = rest })
  removed-Tracked w st rest found h =
      rw
        (
          waits-remove activity k w st.waiters rest found,
          waits-remove q_activity k w st.waiters rest found,
          waits-remove act_s2c k w st.waiters rest found,
          waits-remove act_hb k w st.waiters rest found,
        )
        h

  handled :
      (d : Delivery V P) (st : ActivityState P) (rest : List Waiter) (st' : ActivityState P)
      → remove (waiter_of d) st.waiters ≡ some rest
      → deliver_one encode d st ≡ some st'
      → handle encode d (record st { waiters = rest }) ≡ st'
  unfolding deliver_one
  handled d st rest st' found run = ground arith

  deliver_one-Tracked :
      (d : Delivery V P) (st st' : ActivityState P)
      → deliver_one encode d st ≡ some st'
      → Calm [] calm n k st
      → Calm [] calm n k st'
  unfolding deliver_one
  deliver_one-Tracked d st st' run h = elim (Option-cases (remove (waiter_of d) st.waiters)) [
    | inl missing ↦ absurd (ground arith)
    | inr (rest, found) ↦
        let st1 : ActivityState P = record st { waiters = rest } in
        let h1 = removed-Tracked (waiter_of d) st rest found h in
        subst (λ s. Calm [] calm n k s) (handled d st rest st' found run)
          (elim (Bool-cases ((waiter_of d).seq == k)) [
            | inl same ↦ handle-Tracked_own d st1 same h1
            | inr other ↦
                handle-Tracked_other d st1 other
                  (drop-Tracked never calm (mem k) n k (waiter_of d) st1 other h1)
          ])
  ]

  walk-Tracked :
      (done : List (Delivery V P)) (ws : List Waiter) (st st' : ActivityState P)
      → deliver_walk encode done ws st ≡ some st'
      → Calm [] calm n k st
      → Calm [] calm n k st'
  unfolding deliver_walk
  walk-Tracked done [] st st' run h =
      let same : st ≡ st' = ground arith in subst (λ s. Calm [] calm n k s) same h
  walk-Tracked done (w ∷ ws) st st' run h = elim (Option-cases (brought done w)) [
    | inl waits_on ↦ walk-Tracked done ws st st' (ground arith) h
    | inr (d, is) ↦ elim (Option-cases (deliver_one encode d st)) [
      | inl missing ↦ absurd (ground arith)
      | inr (mid, one) ↦
          walk-Tracked done ws mid st' (ground arith) (deliver_one-Tracked d st mid one h)
    ]
  ]

  pub deliver-Tracked :
      (done : List (Delivery V P)) (st st' : ActivityState P)
      → deliver encode done st ≡ some st'
      → Calm [] calm n k st
      → Calm [] calm n k st'
  unfolding deliver
  deliver-Tracked done st st' run h = walk-Tracked done st.waiters st st' run h
