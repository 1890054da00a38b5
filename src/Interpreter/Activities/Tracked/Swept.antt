-- ===== src/Interpreter/Activities/Tracked/Swept.antt =====
-- The sweep keeps every activity tracked (dbosify/_internal/interpreter.py).
use dbosify_py.Prelude.{
  ℕ, ◌≡◌, refl, Bool, false, not, List, [], ◌∷◌, keep, ◌==◌, arith, Bool-cases, Option-cases, inl,
  inr,
}
use dbosify_py.Interpreter.Activities.{
  WaiterKind, activity, q_activity, act_s2c, act_hb, Waiter, kind_eq, ActivityState, find,
}
use dbosify_py.Interpreter.Activities.Loop.{
  sweep_wait, sweep_waits, is_attempt_waiter, sweep_cancelled, sweep_all, sweep_cancellations,
}
use dbosify_py.Interpreter.Activities.Tracked.{
  mem, waits, tracked, TrackedBy, Tracked, Calm, never, swept_at, last_is, find-without_seq,
  single-without_seq,
}

waits_swept :
    (kind : WaiterKind) (k j : ℕ) (ws : List Waiter)
    → (j == k) ≡ false
    → waits kind k (keep (λ w. not (is_attempt_waiter j w)) ws) ≡ waits kind k ws
unfolding waits kind_eq is_attempt_waiter
waits_swept kind k j [] other = refl
waits_swept kind k j (w ∷ ws) other = ground (arith, waits_swept kind k j ws other)

module _ {P : Type 0} (due : List ℕ → Bool) (calm : List ℕ → ℕ → Bool) (cmd : List ℕ → Bool)
    (n k : ℕ) where
  sweep_wait-Tracked :
      (j : ℕ) (st : ActivityState P)
      → TrackedBy due calm cmd [] n k st
      → TrackedBy due calm cmd [] n k (sweep_wait j st)
  unfolding sweep_wait
  sweep_wait-Tracked j st h = elim (Option-cases (find j st.pending_activities)) [
    | inl gone ↦ rw (gone, sweep_wait) h
    | inr (e, found) ↦ elim (Option-cases e.queued_dbos_id) [
      | inl undispatched ↦ rw (found, undispatched, sweep_wait) h
      | inr (id, queued) ↦ rw (found, queued, sweep_wait) h
    ]
  ]

  sweep_waits-Tracked :
      (ks : List ℕ) (st : ActivityState P)
      → TrackedBy due calm cmd [] n k st
      → TrackedBy due calm cmd [] n k (sweep_waits ks st)
  unfolding sweep_waits
  sweep_waits-Tracked [] st h = h
  sweep_waits-Tracked (j ∷ ks) st h =
      sweep_waits-Tracked ks (sweep_wait j st) (sweep_wait-Tracked j st h)

module _ {P : Type 0} (calm : List ℕ → ℕ → Bool) (cmd : List ℕ → Bool) (n k : ℕ) where
  -- What is left to sweep is due.
  sweep_cancelled-Tracked :
      (j : ℕ) (ks : List ℕ) (st : ActivityState P)
      → TrackedBy (λ _. mem k (j ∷ ks)) calm cmd [] n k st
      → TrackedBy (λ _. mem k ks) calm cmd [] n k (sweep_cancelled j st)
  unfolding sweep_cancelled tracked mem
  sweep_cancelled-Tracked j ks st h = elim (Bool-cases (j == k)) [
    | inl same ↦ elim (Option-cases (find j st.pending_activities)) [
      | inl gone ↦ rw (gone, sweep_cancelled) (ground arith)
      | inr (e, found) ↦
          rw
            (
              found,
              sweep_cancelled,
              single-without_seq k j st.pending_activities,
              find-without_seq k j st.pending_activities,
              same,
            )
            (ground arith)
    ]
    | inr other ↦ elim (Option-cases (find j st.pending_activities)) [
      | inl gone ↦ rw (gone, sweep_cancelled) (ground arith)
      | inr (e, found) ↦
          rw
            (
              found,
              sweep_cancelled,
              single-without_seq k j st.pending_activities,
              find-without_seq k j st.pending_activities,
              other,
              waits_swept activity k j st.waiters other,
              waits_swept q_activity k j st.waiters other,
              waits_swept act_s2c k j st.waiters other,
              waits_swept act_hb k j st.waiters other,
            )
            (ground arith)
    ]
  ]

  sweep_all-Tracked :
      (ks : List ℕ) (st : ActivityState P)
      → TrackedBy (λ _. mem k ks) calm cmd [] n k st
      → TrackedBy never calm cmd [] n k (sweep_all ks st)
  unfolding sweep_all mem
  sweep_all-Tracked [] st h = h
  sweep_all-Tracked (j ∷ ks) st h =
      sweep_all-Tracked ks (sweep_cancelled j st) (sweep_cancelled-Tracked j ks st h)

-- A sweep leaves no cancelled activity open.
pub sweep-Tracked :
    {P : Type 0} (last n k : ℕ) (st : ActivityState P)
    → Tracked last n k st
    → Calm [] (swept_at last) n k (sweep_cancellations st)
unfolding sweep_cancellations tracked
sweep-Tracked last n k st h =
    let st' = sweep_waits st.queued_wait_cancel_seqs (record st { queued_wait_cancel_seqs = [] }) in
    sweep_all-Tracked (swept_at last) (mem k) n k st'.cancelled_activity_seqs
      (record st' { cancelled_activity_seqs = [] })
      (sweep_waits-Tracked (mem k) (last_is last) (mem k) n k st.queued_wait_cancel_seqs
        (record st { queued_wait_cancel_seqs = [] }) h)
