-- ===== src/Interpreter/Activities/Tracked/Looped.antt =====
-- The sweep and the commands of a pass of the loop keep every activity tracked
-- (dbosify/_internal/interpreter.py).
use dbosify_py.Prelude.{
  ℕ, ◌≡◌, refl, Bool, true, false, ◌||◌, String, Option, none, some, List, [], ◌∷◌, ◌==◌, arith,
  Bool-cases, Option-cases, inl, inr, ==_iff, subst, sym, ◌⊎◌,
}
use dbosify_py.Prelude.Text.{Text}
use dbosify_py.Ids.{activity_dbos_id}
use dbosify_py.Interpreter.Activities.{
  WaiterKind, inbox, activity, q_activity, act_s2c, act_hb, kind_eq, ActivityExec, schedule_error,
  ActivityState, find, update, delete,
}
use dbosify_py.Interpreter.Activities.Attempts.{close_with, launch_attempt}
use dbosify_py.Interpreter.Activities.Loop.{
  is_local, launch, has_inbox, dispatched, launch_queued_activity, process_command, process_list,
  process_commands, ensure_inbox_waiter,
}
use dbosify_py.Interpreter.Activities.Tracked.{
  at, mem, waits, waits_launch, is_armed, tracked, TrackedBy, Calm, never, find-seq,
}
use dbosify_py.Interpreter.Activities.Tracked.Parts.{
  Replaces, update-Tracked_own, launch-Tracked_own, launch-Tracked_other, close_with-Tracked_own,
  close_with-Tracked_other, launch_attempt-Tracked_own, launch_attempt-Tracked_other, other_seq,
  delete-Tracked_other,
}

module _ {P : Type 0} (run_id : Text) (own_queue : Option String) (dispatches : String → Bool)
    (calm : List ℕ → ℕ → Bool) (n k : ℕ) where
  -- The commands that are left, and the one under way.
  abbrev Commanded : List ℕ → ActivityState P → Type 0
  Commanded ks st = TrackedBy never calm (λ _. mem k ks) [] n k st

  -- A command finds its activity open, and not parked.
  opened_by_command :
      (kind : WaiterKind) (ks : List ℕ) (e : ActivityExec P) (st : ActivityState P)
      → kind_eq kind activity || kind_eq kind q_activity ≡ true
      → find k st.pending_activities ≡ some e
      → Commanded (k ∷ ks) st
      → Replaces never calm (λ _. mem k ks) n k (at k kind ∷ []) e st
  unfolding tracked is_armed waits kind_eq mem
  opened_by_command activity ks e st fits found h = (
    ground (arith, find-seq k st.pending_activities e found),
    ground arith,
    (e, found),
    ground arith,
  )
  opened_by_command q_activity ks e st fits found h = (
    ground (arith, find-seq k st.pending_activities e found),
    ground arith,
    (e, found),
    ground arith,
  )
  opened_by_command inbox ks e st fits found h = ground arith
  opened_by_command act_s2c ks e st fits found h = ground arith
  opened_by_command act_hb ks e st fits found h = ground arith

  idle-Commanded :
      (j : ℕ) (ks : List ℕ) (st : ActivityState P)
      → find j st.pending_activities ≡ none
      → Commanded (j ∷ ks) st
      → Commanded ks st
  unfolding tracked mem
  idle-Commanded j ks st gone h = elim (Bool-cases (j == k)) [
    | inl same ↦
        let here = (==_iff j k).0 same in
        let gone' : find k st.pending_activities ≡ none =
          subst (λ i. find i st.pending_activities ≡ none) here gone in
        ground arith
    | inr other ↦ ground arith
  ]

  skip-Commanded :
      (j : ℕ) (ks : List ℕ) (st : ActivityState P)
      → (j == k) ≡ false
      → Commanded (j ∷ ks) st
      → Commanded ks st
  unfolding mem
  skip-Commanded j ks st other h =
      subst (λ b. TrackedBy never calm (λ _. b || mem k ks) [] n k st) other h

  accepted_by :
      (e : ActivityExec P) (queue : String) (st : ActivityState P)
      → dispatches queue ≡ true
      → launch_queued_activity run_id own_queue dispatches e queue st
        ≡ dispatched run_id own_queue dispatches e queue st
  unfolding launch_queued_activity
  accepted_by e queue st good = ground arith

  refused_by :
      (e : ActivityExec P) (queue : String) (st : ActivityState P)
      → dispatches queue ≡ false
      → e.future_cancelled ≡ false
      → launch_queued_activity run_id own_queue dispatches e queue st
        ≡ close_with e schedule_error st
  unfolding launch_queued_activity
  refused_by e queue st bad open_future = ground arith

  dropped_by :
      (e : ActivityExec P) (queue : String) (st : ActivityState P)
      → dispatches queue ≡ false
      → e.future_cancelled ≡ true
      → launch_queued_activity run_id own_queue dispatches e queue st ≡ delete e.seq st
  unfolding launch_queued_activity
  dropped_by e queue st bad over = ground arith

  abbrev queued_as : ActivityExec P → ActivityExec P
  queued_as e = record e { queued_dbos_id = some (activity_dbos_id run_id e.seq) }

  launch_queued-Commanded_own :
      (e : ActivityExec P) (queue : String) (ks : List ℕ) (st : ActivityState P)
      → Replaces never calm (λ _. mem k ks) n k (at k q_activity ∷ []) e st
      → Commanded ks (launch_queued_activity run_id own_queue dispatches e queue st)
  unfolding dispatched tracked is_armed
  launch_queued-Commanded_own e queue ks st o = elim (Bool-cases (dispatches queue)) [
    | inl good ↦
        subst (λ s. Commanded ks s) (sym (accepted_by e queue st good))
          (launch-Tracked_own never calm (λ _. mem k ks) n k q_activity e.seq []
            (update (queued_as e) st) o.0
            (update-Tracked_own never calm (λ _. mem k ks) n k (at k q_activity ∷ []) (queued_as e)
              st o))
    | inr bad ↦
        subst (λ s. Commanded ks s) (sym (refused_by e queue st bad o.1))
          (close_with-Tracked_own never calm (λ _. mem k ks) n k (at k q_activity ∷ []) e
            schedule_error st o)
  ]

  launch_queued-Commanded_other :
      (e : ActivityExec P) (queue : String) (ks : List ℕ) (st : ActivityState P)
      → (e.seq == k) ≡ false
      → Commanded ks st
      → Commanded ks (launch_queued_activity run_id own_queue dispatches e queue st)
  unfolding dispatched
  launch_queued-Commanded_other e queue ks st other h = elim (Bool-cases (dispatches queue)) [
    | inl good ↦
        subst (λ s. Commanded ks s) (sym (accepted_by e queue st good))
          (launch-Tracked_other never calm (λ _. mem k ks) n k q_activity (queued_as e) st other h)
    | inr bad ↦ elim (Bool-cases e.future_cancelled) [
      | inl over ↦
          subst (λ s. Commanded ks s) (sym (dropped_by e queue st bad over))
            (delete-Tracked_other never calm (λ _. mem k ks) n k e.seq st other h)
      | inr open_future ↦
          subst (λ s. Commanded ks s) (sym (refused_by e queue st bad open_future))
            (close_with-Tracked_other never calm (λ _. mem k ks) n k e schedule_error st other h)
    ]
  ]

  launch-cases :
      (e : ActivityExec P) (st : ActivityState P)
      → (launch run_id own_queue dispatches e st ≡ launch_attempt e st)
        ⊎ ((queue : String) × (launch run_id own_queue dispatches e st
              ≡ launch_queued_activity run_id own_queue dispatches e queue st))
  unfolding launch
  launch-cases e st = elim (Option-cases e.task_queue) [
    | inl own ↦ inl (ground arith)
    | inr (queue, given) ↦ elim (Bool-cases (is_local own_queue (some queue))) [
      | inl good ↦ inl (ground arith)
      | inr bad ↦ inr (queue, ground arith)
    ]
  ]

  launched :
      (j : ℕ) (e : ActivityExec P) (st : ActivityState P)
      → find j st.pending_activities ≡ some e
      → process_command run_id own_queue dispatches j st ≡ launch run_id own_queue dispatches e st
  unfolding process_command
  launched j e st found = ground arith

  process-Commanded_own :
      (ks : List ℕ) (st : ActivityState P)
      → Commanded (k ∷ ks) st
      → Commanded ks (process_command run_id own_queue dispatches k st)
  unfolding process_command kind_eq
  process-Commanded_own ks st h = elim (Option-cases (find k st.pending_activities)) [
    | inl gone ↦ rw (gone, process_command) (idle-Commanded k ks st gone h)
    | inr (e, found) ↦
        subst (λ s. Commanded ks s) (sym (launched k e st found))
          (elim (launch-cases e st) [
            | inl here ↦
                subst (λ s. Commanded ks s) (sym here)
                  (launch_attempt-Tracked_own never calm (λ _. mem k ks) n k e st
                    (opened_by_command activity ks e st refl found h))
            | inr (queue, there) ↦
                subst (λ s. Commanded ks s) (sym there)
                  (launch_queued-Commanded_own e queue ks st
                    (opened_by_command q_activity ks e st refl found h))
          ])
  ]

  process-Commanded_other :
      (j : ℕ) (ks : List ℕ) (st : ActivityState P)
      → (j == k) ≡ false
      → Commanded ks st
      → Commanded ks (process_command run_id own_queue dispatches j st)
  unfolding process_command
  process-Commanded_other j ks st other h = elim (Option-cases (find j st.pending_activities)) [
    | inl gone ↦ rw (gone, process_command) h
    | inr (e, found) ↦
        let away = other_seq calm n k j e st.pending_activities other found in
        subst (λ s. Commanded ks s) (sym (launched j e st found))
          (elim (launch-cases e st) [
            | inl here ↦
                subst (λ s. Commanded ks s) (sym here)
                  (launch_attempt-Tracked_other never calm (λ _. mem k ks) n k e st away h)
            | inr (queue, there) ↦
                subst (λ s. Commanded ks s) (sym there)
                  (launch_queued-Commanded_other e queue ks st away h)
          ])
  ]

  process_list-Commanded :
      (ks : List ℕ) (st : ActivityState P)
      → Commanded ks st
      → Commanded [] (process_list run_id own_queue dispatches ks st)
  unfolding process_list
  process_list-Commanded [] st h = h
  process_list-Commanded (j ∷ ks) st h =
      process_list-Commanded ks (process_command run_id own_queue dispatches j st)
        (elim (Bool-cases (j == k)) [
          | inl same ↦
              let here = (==_iff j k).0 same in
              subst (λ i. Commanded ks (process_command run_id own_queue dispatches i st))
                (sym here) (process-Commanded_own ks st (subst (λ i. Commanded (i ∷ ks) st) here h))
          | inr other ↦ process-Commanded_other j ks st other (skip-Commanded j ks st other h)
        ])

  -- No command is left behind.
  pub process-armed :
      (st : ActivityState P)
      → Calm [] calm n k st
      → TrackedBy never calm never [] n k (process_commands run_id own_queue dispatches st)
  unfolding process_commands mem
  process-armed st h = process_list-Commanded st.commands (record st { commands = [] }) h

  pub process-Tracked :
      (st : ActivityState P)
      → Calm [] calm n k st
      → Calm [] calm n k (process_commands run_id own_queue dispatches st)
  unfolding tracked
  process-Tracked st h =
      let t = process-armed st h in
      let st' = process_commands run_id own_queue dispatches st in
      elim (Option-cases (find k st'.pending_activities)) [
        | inl gone ↦ ground arith
        | inr (e, found) ↦ ground arith
      ]

pub inbox-Tracked :
    {P : Type 0} (calm : List ℕ → ℕ → Bool) (cmd : List ℕ → Bool) (n k : ℕ) (st : ActivityState P)
    → TrackedBy never calm cmd [] n k st
    → TrackedBy never calm cmd [] n k (ensure_inbox_waiter st)
unfolding ensure_inbox_waiter kind_eq
inbox-Tracked calm cmd n k st h = elim (Bool-cases (has_inbox st.waiters)) [
  | inl there ↦ rw (there, ensure_inbox_waiter) h
  | inr missing ↦
      rw (missing, ensure_inbox_waiter)
        (ground (
          arith,
          waits_launch activity inbox k 0 st.waiters,
          waits_launch q_activity inbox k 0 st.waiters,
          waits_launch act_s2c inbox k 0 st.waiters,
          waits_launch act_hb inbox k 0 st.waiters,
        ))
]
