-- ===== src/Interpreter/Activities/Tracked/Ended.antt =====
-- The ends of attempts and of queued runs keep every activity tracked (dbosify/_internal/interpreter.py).
use dbosify_py.Prelude.{
  ℕ, ◌+◌, ◌-◌, ◌≡◌, Bool, true, false, ◌&&◌, some, List, [], ◌∷◌, ◌==◌, arith, Bool-cases,
  Option-cases, inl, inr, subst, sym,
}
use dbosify_py.Failure.{Envelope}
use dbosify_py.QueuedActivity.{Ending, success, failure, Report, ended, parked, Final, is_cancelled}
use dbosify_py.Interpreter.Activities.{
  activity, q_activity, Waiter, ActivityExec, result, cancelled, activity_error, ActivityState,
  find,
}
use dbosify_py.Interpreter.Activities.Attempts.{
  retry_or_fail, end_attempt, apply_report, apply_final, next_attempt, advance_time,
  deliver_activity_event, deliver_queued_activity_event, is_wrapped,
}
use dbosify_py.Interpreter.Activities.Tracked.{at, mem, is_armed, tracked, Calm, never}
use dbosify_py.Interpreter.Activities.Tracked.Parts.{
  Open, opened_when_swept, other_seq, close_with-Tracked_own, close_with-Tracked_other,
  retry_or_fail-Tracked_own, retry_or_fail-Tracked_other, gone-Tracked, launch_attempt-Tracked_own,
  launch_attempt-Tracked_other, delete-Tracked_other,
}
use dbosify_py.Interpreter.Activities.Tracked.Parked.{
  park_activity-Tracked_own, park_activity-Tracked_other,
}

module _ {P : Type 0} (calm : List ℕ → ℕ → Bool) (n k : ℕ) where
  next_attempt-Tracked_own :
      (e : ActivityExec P) (st : ActivityState P)
      → Open calm n k (at k activity ∷ []) e st
      → Calm [] calm n k (next_attempt e st)
  unfolding next_attempt advance_time tracked is_armed
  next_attempt-Tracked_own e st h =
      launch_attempt-Tracked_own never calm (mem k) n k
        (record e { pending_wait = 0; attempt = e.attempt + 1 })
        (advance_time (st.time + e.pending_wait) st) h

  next_attempt-Tracked_other :
      (e : ActivityExec P) (st : ActivityState P)
      → (e.seq == k) ≡ false
      → Calm [] calm n k st
      → Calm [] calm n k (next_attempt e st)
  unfolding next_attempt advance_time
  next_attempt-Tracked_other e st other h =
      launch_attempt-Tracked_other never calm (mem k) n k
        (record e { pending_wait = 0; attempt = e.attempt + 1 })
        (advance_time (st.time + e.pending_wait) st) other h

module _ {V P : Type 0} where
  pub event_waiting :
      (j : ℕ) (e : ActivityExec P) (report : Report V P) (st : ActivityState P)
      → find j st.pending_activities ≡ some e
      → e.future_cancelled ≡ false
      → e.in_backoff ≡ true
      → deliver_activity_event j report st ≡ next_attempt e st
  unfolding deliver_activity_event
  event_waiting j e report st found open_future waiting = ground arith

  event_running :
      (j : ℕ) (e : ActivityExec P) (report : Report V P) (st : ActivityState P)
      → find j st.pending_activities ≡ some e
      → e.future_cancelled ≡ false
      → e.in_backoff ≡ false
      → deliver_activity_event j report st ≡ apply_report e report st
  unfolding deliver_activity_event
  event_running j e report st found open_future running = ground arith

module _ {V P : Type 0} (calm : List ℕ → ℕ → Bool) (n k : ℕ) where
  end_attempt-Tracked_own :
      (otherwise : Envelope P → ActivityState P → ActivityState P) (e : ActivityExec P)
      (ending : Ending V P) (extra : List Waiter) (st : ActivityState P)
      → ((failed : Envelope P) → Calm [] calm n k (otherwise failed st))
      → Open calm n k extra e st
      → Calm [] calm n k (end_attempt otherwise e ending st)
  unfolding end_attempt
  end_attempt-Tracked_own otherwise e (success r) extra st kept h =
      close_with-Tracked_own never calm (mem k) n k extra e (result r) st h
  end_attempt-Tracked_own otherwise e (failure failed) extra st kept h =
      elim (Bool-cases (e.cancel_requested && is_cancelled failed)) [
        | inl confirmed ↦
            rw (confirmed, end_attempt)
              (close_with-Tracked_own never calm (mem k) n k extra e cancelled st h)
        | inr plain ↦ rw (plain, end_attempt) (kept failed)
      ]

  end_attempt-Tracked_other :
      (otherwise : Envelope P → ActivityState P → ActivityState P) (e : ActivityExec P)
      (ending : Ending V P) (st : ActivityState P)
      → ((failed : Envelope P) → Calm [] calm n k (otherwise failed st))
      → (e.seq == k) ≡ false
      → Calm [] calm n k st
      → Calm [] calm n k (end_attempt otherwise e ending st)
  unfolding end_attempt
  end_attempt-Tracked_other otherwise e (success r) st kept other h =
      close_with-Tracked_other never calm (mem k) n k e (result r) st other h
  end_attempt-Tracked_other otherwise e (failure failed) st kept other h =
      elim (Bool-cases (e.cancel_requested && is_cancelled failed)) [
        | inl confirmed ↦
            rw (confirmed, end_attempt)
              (close_with-Tracked_other never calm (mem k) n k e cancelled st other h)
        | inr plain ↦ rw (plain, end_attempt) (kept failed)
      ]

  apply_report-Tracked_own :
      (e : ActivityExec P) (report : Report V P) (st : ActivityState P)
      → Open calm n k (at k activity ∷ []) e st
      → Calm [] calm n k (apply_report e report st)
  unfolding apply_report advance_time
  apply_report-Tracked_own e (ended ending ended_at) st h =
      end_attempt-Tracked_own (retry_or_fail e) e ending (at k activity ∷ [])
        (advance_time ended_at st)
        (λ failed.
          retry_or_fail-Tracked_own never calm (mem k) n k e failed (advance_time ended_at st) h)
        h
  apply_report-Tracked_own e (parked started_at ended_at) st h =
      park_activity-Tracked_own never calm (mem k) n k e (ended_at - started_at)
        (advance_time ended_at st) h

  apply_report-Tracked_other :
      (e : ActivityExec P) (report : Report V P) (st : ActivityState P)
      → (e.seq == k) ≡ false
      → Calm [] calm n k st
      → Calm [] calm n k (apply_report e report st)
  unfolding apply_report advance_time
  apply_report-Tracked_other e (ended ending ended_at) st other h =
      end_attempt-Tracked_other (retry_or_fail e) e ending (advance_time ended_at st)
        (λ failed.
          retry_or_fail-Tracked_other never calm (mem k) n k e failed (advance_time ended_at st)
            other h)
        other h
  apply_report-Tracked_other e (parked started_at ended_at) st other h =
      park_activity-Tracked_other never calm (mem k) n k e (ended_at - started_at)
        (advance_time ended_at st) other h

  pub deliver_activity_event-Tracked_own :
      (report : Report V P) (st : ActivityState P)
      → Calm (at k activity ∷ []) calm n k st
      → Calm [] calm n k (deliver_activity_event k report st)
  unfolding deliver_activity_event
  deliver_activity_event-Tracked_own report st h =
      elim (Option-cases (find k st.pending_activities)) [
        | inl gone ↦
            rw (gone, deliver_activity_event)
              (gone-Tracked never calm (mem k) n k (at k activity ∷ []) st gone h)
        | inr (e, found) ↦
            let o = opened_when_swept calm n k (at k activity ∷ []) e st found h in
            elim (Bool-cases e.in_backoff) [
              | inl waiting ↦
                  subst (λ s. Calm [] calm n k s)
                    (sym (event_waiting k e report st found o.1 waiting))
                    (next_attempt-Tracked_own calm n k e st o)
              | inr running ↦
                  subst (λ s. Calm [] calm n k s)
                    (sym (event_running k e report st found o.1 running))
                    (apply_report-Tracked_own e report st o)
            ]
      ]

  pub deliver_activity_event-Tracked_other :
      (j : ℕ) (report : Report V P) (st : ActivityState P)
      → (j == k) ≡ false
      → Calm [] calm n k st
      → Calm [] calm n k (deliver_activity_event j report st)
  unfolding deliver_activity_event
  deliver_activity_event-Tracked_other j report st other h =
      elim (Option-cases (find j st.pending_activities)) [
        | inl gone ↦ rw (gone, deliver_activity_event) h
        | inr (e, found) ↦
            let away = other_seq calm n k j e st.pending_activities other found in
            elim (Bool-cases e.future_cancelled) [
              | inl over ↦
                  rw (found, over, deliver_activity_event)
                    (delete-Tracked_other never calm (mem k) n k j st other h)
              | inr open_future ↦ elim (Bool-cases e.in_backoff) [
                | inl waiting ↦
                    subst (λ s. Calm [] calm n k s)
                      (sym (event_waiting j e report st found open_future waiting))
                      (next_attempt-Tracked_other calm n k e st away h)
                | inr running ↦
                    subst (λ s. Calm [] calm n k s)
                      (sym (event_running j e report st found open_future running))
                      (apply_report-Tracked_other e report st away h)
              ]
            ]
      ]

  apply_final-Tracked_own :
      (e : ActivityExec P) (final : Final V P) (st : ActivityState P)
      → Open calm n k (at k q_activity ∷ []) e st
      → Calm [] calm n k (apply_final e final st)
  unfolding apply_final advance_time
  apply_final-Tracked_own e final st h =
      end_attempt-Tracked_own _ e final.ending (at k q_activity ∷ [])
        (advance_time final.ended_at st)
        (λ failed.
          close_with-Tracked_own never calm (mem k) n k (at k q_activity ∷ []) e
            (activity_error failed final.retry_state (is_wrapped failed final.retry_state))
            (advance_time final.ended_at st) h)
        h

  apply_final-Tracked_other :
      (e : ActivityExec P) (final : Final V P) (st : ActivityState P)
      → (e.seq == k) ≡ false
      → Calm [] calm n k st
      → Calm [] calm n k (apply_final e final st)
  unfolding apply_final advance_time
  apply_final-Tracked_other e final st other h =
      end_attempt-Tracked_other _ e final.ending (advance_time final.ended_at st)
        (λ failed.
          close_with-Tracked_other never calm (mem k) n k e
            (activity_error failed final.retry_state (is_wrapped failed final.retry_state))
            (advance_time final.ended_at st) other h)
        other h

  final_applied :
      (j : ℕ) (e : ActivityExec P) (final : Final V P) (st : ActivityState P)
      → find j st.pending_activities ≡ some e
      → e.future_cancelled ≡ false
      → deliver_queued_activity_event j final st ≡ apply_final e final st
  unfolding deliver_queued_activity_event
  final_applied j e final st found open_future = ground arith

  pub deliver_queued_activity_event-Tracked_own :
      (final : Final V P) (st : ActivityState P)
      → Calm (at k q_activity ∷ []) calm n k st
      → Calm [] calm n k (deliver_queued_activity_event k final st)
  unfolding deliver_queued_activity_event
  deliver_queued_activity_event-Tracked_own final st h =
      elim (Option-cases (find k st.pending_activities)) [
        | inl gone ↦
            rw (gone, deliver_queued_activity_event)
              (gone-Tracked never calm (mem k) n k (at k q_activity ∷ []) st gone h)
        | inr (e, found) ↦
            let o = opened_when_swept calm n k (at k q_activity ∷ []) e st found h in
            subst (λ s. Calm [] calm n k s) (sym (final_applied k e final st found o.1))
              (apply_final-Tracked_own e final st o)
      ]

  pub deliver_queued_activity_event-Tracked_other :
      (j : ℕ) (final : Final V P) (st : ActivityState P)
      → (j == k) ≡ false
      → Calm [] calm n k st
      → Calm [] calm n k (deliver_queued_activity_event j final st)
  unfolding deliver_queued_activity_event
  deliver_queued_activity_event-Tracked_other j final st other h =
      elim (Option-cases (find j st.pending_activities)) [
        | inl gone ↦ rw (gone, deliver_queued_activity_event) h
        | inr (e, found) ↦ elim (Bool-cases e.future_cancelled) [
          | inl over ↦
              rw (found, over, deliver_queued_activity_event)
                (delete-Tracked_other never calm (mem k) n k j st other h)
          | inr open_future ↦
              subst (λ s. Calm [] calm n k s) (sym (final_applied j e final st found open_future))
                (apply_final-Tracked_other e final st
                  (other_seq calm n k j e st.pending_activities other found) h)
        ]
      ]
