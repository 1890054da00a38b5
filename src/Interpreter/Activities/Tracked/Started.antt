-- ===== src/Interpreter/Activities/Tracked/Started.antt =====
-- Starts and cancellations keep every activity tracked (dbosify/_internal/interpreter.py).
use dbosify_py.Prelude.{
  ℕ, ◌+◌, ◌<◌, ◌≤◌, ◌≡◌, refl, Bool, true, false, not, ◌&&◌, none, some, List, [], ◌∷◌, ◌==◌,
  if◌then◌else◌, is_some, arith, Bool-cases, Option-cases, inl, inr, ==_iff, subst, sym, ◌⊎◌,
}
use dbosify_py.Prelude.Result.{ok, err}
use dbosify_py.Interpreter.Activities.{
  ActivityExec, ActivityState, find, update, Start, StartError, new_exec, admit, register,
  start_activity, cancel_future, mark_cancel_requested, request_activity_cancel, cancel_await,
}
use dbosify_py.Interpreter.Activities.Tracked.{
  mem, mem-append, count-append, is_armed, tracked, single-put, single-append, find-append,
  find-put, find-seq, Tracked, Calm, swept_at, is_nil,
}

-- How often a number was given to an activity.
abbrev pub given : ℕ → List ℕ → ℕ
given k [] = 0
given k (j ∷ ks) = (if j == k then 1 else 0) + given k ks

none_due : (k : ℕ) (ks : List ℕ) → is_nil ks ≡ true → mem k ks ≡ false
unfolding mem
none_due k [] h = refl
none_due k (j ∷ ks) h = ground arith

module _ {P : Type 0} where
  marked :
      (j : ℕ) (e : ActivityExec P) (st : ActivityState P)
      → find j st.pending_activities ≡ some e
      → (e.cancellation_type == 1 && not e.async_pending) ≡ true
      → request_activity_cancel j st ≡ mark_cancel_requested e st
  unfolding request_activity_cancel
  marked j e st found asked = ground arith

  cancelled_at_once :
      (j : ℕ) (e : ActivityExec P) (st : ActivityState P)
      → find j st.pending_activities ≡ some e
      → (e.cancellation_type == 1 && not e.async_pending) ≡ false
      → request_activity_cancel j st ≡ cancel_future e st
  unfolding request_activity_cancel
  cancelled_at_once j e st found asked = ground arith

module _ {P : Type 0} (last n k : ℕ) where
  pub Calm-Tracked : (st : ActivityState P) → Calm [] (swept_at last) n k st → Tracked last n k st
  unfolding tracked
  Calm-Tracked st h = elim (Option-cases (find k st.pending_activities)) [
    | inl gone ↦ ground (arith, none_due k st.cancelled_activity_seqs)
    | inr (e, found) ↦ ground (arith, none_due k st.cancelled_activity_seqs)
  ]

  cancel_future-Tracked :
      (e : ActivityExec P) (j : ℕ) (st : ActivityState P)
      → find j st.pending_activities ≡ some e
      → Tracked last n k st
      → Tracked last n k (cancel_future e st)
  unfolding cancel_future tracked mem
  cancel_future-Tracked e j st found h = elim (Bool-cases e.future_cancelled) [
    | inl over ↦ rw (over, cancel_future) h
    | inr open_future ↦
        let e' : ActivityExec P = record e { future_cancelled = true } in
        let here = find-seq j st.pending_activities e found in
        rw
          (
            open_future,
            cancel_future,
            single-put k e' st.pending_activities,
            find-put k e' st.pending_activities,
            count-append k st.resolved,
            mem-append k st.cancelled_activity_seqs,
          )
          (elim (Bool-cases (e.seq == k)) [
            | inl same ↦
                let found' : find k st.pending_activities ≡ some e =
                  subst (λ i. find i st.pending_activities ≡ some e)
                    (omega (arith, here, (==_iff e.seq k).0 same)) found in
                ground arith
            | inr other ↦ ground arith
          ])
  ]

  mark-Tracked :
      (e : ActivityExec P) (j : ℕ) (st : ActivityState P)
      → find j st.pending_activities ≡ some e
      → Tracked last n k st
      → Tracked last n k (mark_cancel_requested e st)
  unfolding mark_cancel_requested tracked is_armed
  mark-Tracked e j st found h =
      let e' : ActivityExec P = record e { cancel_requested = true } in
      let here = find-seq j st.pending_activities e found in
      let t : Tracked last n k (update e' st) =
        rw (single-put k e' st.pending_activities, find-put k e' st.pending_activities)
          (elim (Bool-cases (e.seq == k)) [
            | inl same ↦
                let found' : find k st.pending_activities ≡ some e =
                  subst (λ i. find i st.pending_activities ≡ some e)
                    (omega (arith, here, (==_iff e.seq k).0 same)) found in
                ground arith
            | inr other ↦ ground arith
          ]) in
      elim (Bool-cases (is_some e.queued_dbos_id)) [
        | inl queued ↦ rw (queued, mark_cancel_requested) t
        | inr here ↦ rw (here, mark_cancel_requested) t
      ]

  pub cancel_await-Tracked :
      (j : ℕ) (st : ActivityState P) → Tracked last n k st → Tracked last n k (cancel_await j st)
  unfolding cancel_await
  cancel_await-Tracked j st h = elim (Option-cases (find j st.pending_activities)) [
    | inl gone ↦ rw (gone, cancel_await) h
    | inr (e, found) ↦ rw (found, cancel_await) (cancel_future-Tracked e j st found h)
  ]

  pub request_cancel-Tracked :
      (j : ℕ) (st : ActivityState P)
      → Tracked last n k st
      → Tracked last n k (request_activity_cancel j st)
  unfolding request_activity_cancel
  request_cancel-Tracked j st h = elim (Option-cases (find j st.pending_activities)) [
    | inl gone ↦ rw (gone, request_activity_cancel) h
    | inr (e, found) ↦ elim (Bool-cases (e.cancellation_type == 1 && not e.async_pending)) [
      | inl waits_for_it ↦
          subst (λ s. Tracked last n k s) (sym (marked j e st found waits_for_it))
            (mark-Tracked e j st found h)
      | inr at_once ↦
          subst (λ s. Tracked last n k s) (sym (cancelled_at_once j e st found at_once))
            (cancel_future-Tracked e j st found h)
    ]
  ]

  register-Tracked_other :
      (e : ActivityExec P) (st : ActivityState P)
      → (e.seq == k) ≡ false
      → Tracked last n k st
      → Tracked last n k (register e st)
  unfolding tracked find mem
  register-Tracked_other e st other h =
      rw
        (
          single-append k e st.pending_activities,
          find-append k st.pending_activities (e ∷ []),
          mem-append k st.commands (e.seq ∷ []),
        )
        (elim (Option-cases (find k st.pending_activities)) [
          | inl gone ↦ ground arith
          | inr (x, found) ↦ ground arith
        ])

  -- A number that was not given has no trace.
  register-Tracked_own :
      (e : ActivityExec P) (st : ActivityState P)
      → (e.seq == k) ≡ true
      → e.future_cancelled ≡ false
      → e.async_pending ≡ false
      → n ≡ 0
      → Tracked last n k st
      → Tracked last 1 k (register e st)
  unfolding tracked find mem
  register-Tracked_own e st same open_future plain none_given h =
      rw
        (
          single-append k e st.pending_activities,
          find-append k st.pending_activities (e ∷ []),
          mem-append k st.commands (e.seq ∷ []),
        )
        (elim (Option-cases (find k st.pending_activities)) [
          | inl gone ↦ ground arith
          | inr (x, found) ↦ ground arith
        ])

pub same_state : {A : Type 0} {a b : A} → some a ≡ some b → a ≡ b
same_state h = ground arith

module _ {P : Type 0} where
  renumbered-Tracked :
      (l m n k : ℕ) (st : ActivityState P)
      → Tracked l n k st
      → Tracked m n k (record st { last_seq = m })
  unfolding tracked
  renumbered-Tracked l m n k st h = elim (Option-cases (find k st.pending_activities)) [
    | inl gone ↦ ground arith
    | inr (e, found) ↦ ground arith
  ]

  abbrev claimed : ActivityState P → ActivityState P
  claimed st = record st { last_seq = st.last_seq + 1 }

  admitted_as :
      (e : ActivityExec P) (st st' : ActivityState P) (k : ℕ)
      → admit e st ≡ (ok k, st')
      → (k ≡ e.seq) × (register e st ≡ st')
  unfolding admit
  admitted_as e st st' k run = ground arith

  turned_down :
      (e : ActivityExec P) (why : StartError) (st st' : ActivityState P)
      → admit e st ≡ (err why, st')
      → st ≡ st'
  unfolding admit
  turned_down e why st st' run = ground arith

  started_as :
      (read_only : Bool) (s : Start) (st st' : ActivityState P) (k : ℕ)
      → start_activity read_only s st ≡ (ok k, st')
      → (k ≡ st.last_seq + 1) × (register (new_exec s (st.last_seq + 1) st.time) (claimed st) ≡ st')
  unfolding start_activity admit
  started_as read_only s st st' k run = ground arith

  refused_as :
      (read_only : Bool) (s : Start) (why : StartError) (st st' : ActivityState P)
      → start_activity read_only s st ≡ (err why, st')
      → (st ≡ st') ⊎ (claimed st ≡ st')
  unfolding start_activity admit
  refused_as read_only s why st st' run = ground arith

  -- Every number that was given is tracked once, and the numbers above the last are not given.
  abbrev pub AllTracked : List ℕ → ActivityState P → Type 0
  AllTracked ks st =
      (k : ℕ)
      → Tracked st.last_seq (given k ks) k st
        × (st.last_seq < k → given k ks ≡ 0)
        × (given k ks ≤ 1)

  pub refused-Tracked :
      (ks : List ℕ) (read_only : Bool) (s : Start) (why : StartError) (st st' : ActivityState P)
      → start_activity read_only s st ≡ (err why, st')
      → AllTracked ks st
      → AllTracked ks st'
  refused-Tracked ks read_only s why st st' run h = elim (refused_as read_only s why st st' run) [
    | inl same ↦ subst (λ x. AllTracked ks x) same h
    | inr skipped ↦
        subst (λ x. AllTracked ks x) skipped
          (λ k.
            let (t, above, once) = h k in
            (
              renumbered-Tracked st.last_seq (st.last_seq + 1) (given k ks) k st t,
              λ lt. above (omega arith),
              once,
            ))
  ]

  pub started-Tracked :
      (ks : List ℕ) (read_only : Bool) (s : Start) (j : ℕ) (st st' : ActivityState P)
      → start_activity read_only s st ≡ (ok j, st')
      → AllTracked ks st
      → AllTracked (j ∷ ks) st'
  unfolding new_exec
  started-Tracked ks read_only s j st st' run h =
      let (number, result) = started_as read_only s st st' j run in
      let e : ActivityExec P = new_exec s (st.last_seq + 1) st.time in
      subst (λ x. AllTracked (j ∷ ks) x) result
        (λ k.
          let (t, above, once) = h k in
          let t' = renumbered-Tracked st.last_seq (st.last_seq + 1) (given k ks) k st t in
          elim (Bool-cases (e.seq == k)) [
            | inl same ↦
                let fresh : given k ks ≡ 0 = above (ground arith) in
                let one : given k (j ∷ ks) ≡ 1 = ground arith in
                (
                  subst (λ n. Tracked (st.last_seq + 1) n k (register e (claimed st))) (sym one)
                      (register-Tracked_own (st.last_seq + 1) (given k ks) k e (claimed st) same
                        refl refl fresh t'),
                  ground arith,
                  omega (arith, one),
                )
            | inr other ↦
                let more : given k (j ∷ ks) ≡ given k ks = ground arith in
                (
                  subst (λ n. Tracked (st.last_seq + 1) n k (register e (claimed st))) (sym more)
                      (register-Tracked_other (st.last_seq + 1) (given k ks) k e (claimed st) other
                        t'),
                  ground arith,
                  omega (arith, more, once),
                )
          ])

pub Tracked-last_seq :
    {P : Type 0} (last n k : ℕ) (st : ActivityState P) → Tracked last n k st → st.last_seq ≡ last
unfolding tracked
Tracked-last_seq last n k st h = elim (Option-cases (find k st.pending_activities)) [
  | inl gone ↦ ground arith
  | inr (e, found) ↦ ground arith
]

abbrev pub is_open : {P : Type 0} → ℕ → ActivityState P → Bool
is_open k st = elim (find k st.pending_activities) [
  | none ↦ false
  | some e ↦ not e.future_cancelled
]
