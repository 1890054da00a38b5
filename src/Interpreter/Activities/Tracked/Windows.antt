-- ===== src/Interpreter/Activities/Tracked/Windows.antt =====
-- The heartbeat windows of parked activities keep every activity tracked
-- (dbosify/_internal/interpreter.py).
use dbosify_py.Prelude.{
  ℕ, ◌≡◌, refl, Bool, true, false, some, List, [], ◌∷◌, ◌==◌, arith, Bool-cases, Option-cases, inl,
  inr, subst, sym,
}
use dbosify_py.Failure.{heartbeat}
use dbosify_py.Interpreter.Activities.{
  act_hb, ActivityExec, ActivityState, find, update, launch_waiter,
}
use dbosify_py.Interpreter.Activities.Delivery.{async_parked_timeout, async_heartbeat_check}
use dbosify_py.Interpreter.Activities.Tracked.{at, mem, is_armed, tracked, Calm, never}
use dbosify_py.Interpreter.Activities.Tracked.Parts.{
  update-Tracked_own, update-Tracked_other, launch-Tracked_own, gone-Tracked, opened_when_swept,
  other_seq, alone-Tracked_other,
}
use dbosify_py.Interpreter.Activities.Tracked.Timed.{
  async_parked_timeout-Tracked_own, async_parked_timeout-Tracked_other, unparked-Tracked,
}

module _ {V P : Type 0} (encode : V → P) (calm : List ℕ → ℕ → Bool) (n k : ℕ) where
  window_unparked :
      (j : ℕ) (e : ActivityExec P) (st : ActivityState P)
      → find j st.pending_activities ≡ some e
      → e.async_pending ≡ false
      → async_heartbeat_check encode j st ≡ st
  unfolding async_heartbeat_check
  window_unparked j e st found plain = ground arith

  window_missed :
      (j : ℕ) (e : ActivityExec P) (st : ActivityState P)
      → find j st.pending_activities ≡ some e
      → e.async_pending ≡ true
      → e.async_hb_seen ≡ false
      → async_heartbeat_check encode j st ≡ async_parked_timeout encode j heartbeat st
  unfolding async_heartbeat_check
  window_missed j e st found pending missed = ground arith

  window_kept :
      (j : ℕ) (e : ActivityExec P) (st : ActivityState P)
      → find j st.pending_activities ≡ some e
      → e.async_pending ≡ true
      → e.async_hb_seen ≡ true
      → async_heartbeat_check encode j st
        ≡ launch_waiter act_hb j (update (record e { async_hb_seen = false }) st)
  unfolding async_heartbeat_check
  window_kept j e st found pending seen = ground arith

  pub heartbeat_check-Tracked_own :
      (st : ActivityState P)
      → Calm (at k act_hb ∷ []) calm n k st
      → Calm [] calm n k (async_heartbeat_check encode k st)
  unfolding async_heartbeat_check tracked is_armed
  heartbeat_check-Tracked_own st h = elim (Option-cases (find k st.pending_activities)) [
    | inl gone ↦
        rw (gone, async_heartbeat_check)
          (gone-Tracked never calm (mem k) n k (at k act_hb ∷ []) st gone h)
    | inr (e, found) ↦
        let o = opened_when_swept calm n k (at k act_hb ∷ []) e st found h in
        elim (Bool-cases e.async_pending) [
          | inr plain ↦
              subst (λ s. Calm [] calm n k s) (sym (window_unparked k e st found plain))
                (unparked-Tracked calm n k act_hb e st refl plain o found)
          | inl pending ↦ elim (Bool-cases e.async_hb_seen) [
            | inr missed ↦
                subst (λ s. Calm [] calm n k s) (sym (window_missed k e st found pending missed))
                  (async_parked_timeout-Tracked_own encode calm n k act_hb heartbeat st refl h)
            | inl seen ↦
                subst (λ s. Calm [] calm n k s) (sym (window_kept k e st found pending seen))
                  (launch-Tracked_own never calm (mem k) n k act_hb k []
                    (update (record e { async_hb_seen = false }) st) (ground arith)
                    (update-Tracked_own never calm (mem k) n k (at k act_hb ∷ [])
                      (record e { async_hb_seen = false }) st o))
          ]
        ]
  ]

  pub heartbeat_check-Tracked_other :
      (j : ℕ) (st : ActivityState P)
      → (j == k) ≡ false
      → Calm [] calm n k st
      → Calm [] calm n k (async_heartbeat_check encode j st)
  unfolding async_heartbeat_check
  heartbeat_check-Tracked_other j st other h = elim (Option-cases (find j st.pending_activities)) [
    | inl gone ↦ rw (gone, async_heartbeat_check) h
    | inr (e, found) ↦ elim (Bool-cases e.async_pending) [
      | inr plain ↦ subst (λ s. Calm [] calm n k s) (sym (window_unparked j e st found plain)) h
      | inl pending ↦ elim (Bool-cases e.async_hb_seen) [
        | inr missed ↦
            subst (λ s. Calm [] calm n k s) (sym (window_missed j e st found pending missed))
              (async_parked_timeout-Tracked_other encode calm n k j heartbeat st other h)
        | inl seen ↦
            subst (λ s. Calm [] calm n k s) (sym (window_kept j e st found pending seen))
              (alone-Tracked_other never calm (mem k) n k act_hb j
                (update (record e { async_hb_seen = false }) st) other
                (update-Tracked_other never calm (mem k) n k (record e { async_hb_seen = false }) st
                  (other_seq calm n k j e st.pending_activities other found) h))
      ]
    ]
  ]
