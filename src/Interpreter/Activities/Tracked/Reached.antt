-- ===== src/Interpreter/Activities/Tracked/Reached.antt =====
-- Every reachable state keeps every activity tracked (dbosify/_internal/interpreter.py).
use dbosify_py.Prelude.{
  ℕ, ◌+◌, ◌≤◌, ◌≡◌, refl, Bool, true, false, String, Option, some, List, [], if◌then◌else◌, arith,
  Option-cases, inl, inr, subst, sym,
}
use dbosify_py.Prelude.Text.{Text}
use dbosify_py.Interpreter.Activities.{
  activity, q_activity, act_s2c, act_hb, ActivityExec, ActivityState, find,
}
use dbosify_py.Interpreter.Activities.Loop.{
  pass, sweep_cancellations, ensure_inbox_waiter, Event, cancel_asked, await_cancelled, passed,
  waited, step, Reachable, initially, started, refused, stepped,
}
use dbosify_py.Interpreter.Activities.Tracked.{
  mem, count, waits, is_armed, tracked, single, Tracked, Calm, swept_at, never,
}
use dbosify_py.Interpreter.Activities.Tracked.Swept.{sweep-Tracked}
use dbosify_py.Interpreter.Activities.Tracked.Looped.{process-armed, process-Tracked, inbox-Tracked}
use dbosify_py.Interpreter.Activities.Tracked.Delivered.{deliver-Tracked}
use dbosify_py.Interpreter.Activities.Tracked.Started.{
  given, Calm-Tracked, cancel_await-Tracked, request_cancel-Tracked, same_state, AllTracked,
  refused-Tracked, started-Tracked, Tracked-last_seq, is_open,
}

module _ {V P : Type 0} (run_id : Text) (own_queue : Option String) (dispatches : String → Bool)
    (encode : V → P) where
  -- The state in which the loop waits for `DBOS.asyncio_wait`.
  abbrev pub waiting : ActivityState P → ActivityState P
  waiting st = ensure_inbox_waiter (pass run_id own_queue dispatches encode st)

  pass-Tracked :
      (last n k : ℕ) (st : ActivityState P)
      → Tracked last n k st
      → Calm [] (swept_at last) n k (pass run_id own_queue dispatches encode st)
  unfolding pass
  pass-Tracked last n k st h =
      process-Tracked run_id own_queue dispatches (swept_at last) n k (sweep_cancellations st)
        (sweep-Tracked last n k st h)

  step-Tracked :
      (last n k : ℕ) (event : Event V P) (st st' : ActivityState P)
      → step run_id own_queue dispatches encode event st ≡ some st'
      → Tracked last n k st
      → Tracked last n k st'
  unfolding step
  step-Tracked last n k (cancel_asked j) st st' run h =
      subst (λ x. Tracked last n k x) (same_state run) (request_cancel-Tracked last n k j st h)
  step-Tracked last n k (await_cancelled j) st st' run h =
      subst (λ x. Tracked last n k x) (same_state run) (cancel_await-Tracked last n k j st h)
  step-Tracked last n k passed st st' run h =
      subst (λ x. Tracked last n k x) (same_state run)
        (Calm-Tracked last n k (pass run_id own_queue dispatches encode st)
          (pass-Tracked last n k st h))
  step-Tracked last n k (waited done) st st' run h = Calm-Tracked last n k st' (
      deliver-Tracked encode (swept_at last) n k done
        (ensure_inbox_waiter (pass run_id own_queue dispatches encode st)) st' run
        (inbox-Tracked (swept_at last) (mem k) n k (pass run_id own_queue dispatches encode st)
          (pass-Tracked last n k st h)))

  kept-Reachable :
      (ks : List ℕ) (st : ActivityState P)
      → Reachable run_id own_queue dispatches encode ks st
      → AllTracked ks st
  unfolding tracked single find mem
  kept-Reachable _ _ (initially time) = λ k. (ground arith, λ lt. refl, omega arith)
  kept-Reachable _ _ (started {ks} {st} {st'} {k} read_only s r run) =
      started-Tracked ks read_only s k st st' run (kept-Reachable ks st r)
  kept-Reachable _ _ (refused {ks} {st} {st'} {why} read_only s r run) =
      refused-Tracked ks read_only s why st st' run (kept-Reachable ks st r)
  kept-Reachable _ _ (stepped {ks} {st} {st'} event r run) = λ k.
      let (t, above, once) = kept-Reachable ks st r k in
      let t' = step-Tracked st.last_seq (given k ks) k event st st' run t in
      let same = Tracked-last_seq st.last_seq (given k ks) k st' t' in
      (
        subst (λ l. Tracked l (given k ks) k st') (sym same) t',
        λ lt. above (omega (arith, same, lt)),
        once,
      )

  -- In every state that a run reaches, an activity's future, under the number that its start returned,
  -- is resolved once or is still open, and never both; a number that no start returned has no
  -- resolution and no open future. No start returns a number twice.
  pub resolved_once :
      (ks : List ℕ) (st : ActivityState P)
      → Reachable run_id own_queue dispatches encode ks st
      → (k : ℕ)
      → (given k ks ≡ count k st.resolved + (if is_open k st then 1 else 0)) × (given k ks ≤ 1)
  unfolding tracked
  resolved_once ks st r k =
      let (t, above, once) = kept-Reachable ks st r k in
      elim (Option-cases (find k st.pending_activities)) [
        | inl gone ↦ ground arith
        | inr (e, found) ↦ ground arith
      ]

  -- When the loop waits, in a state that a run reached, every activity that is pending has an open future and something that will
  -- move it on: an attempt, a backoff or a queued run; or, once it is parked, the timer of its park
  -- where a bound is set and that of its heartbeat window where there is a heartbeat timeout.
  pub armed_while_waiting :
      (ks : List ℕ) (st : ActivityState P)
      → Reachable run_id own_queue dispatches encode ks st
      → (k : ℕ) (e : ActivityExec P) → find k (waiting st).pending_activities ≡ some e
      → (e.future_cancelled ≡ false)
        × (is_armed e
              (waits activity k (waiting st).waiters)
              (waits q_activity k (waiting st).waiters)
              (waits act_s2c k (waiting st).waiters)
              (waits act_hb k (waiting st).waiters)
            ≡ true)
  unfolding tracked pass
  armed_while_waiting ks st r k e found =
      let (t, above, once) = kept-Reachable ks st r k in
      let h =
        inbox-Tracked (swept_at st.last_seq) never (given k ks) k
          (pass run_id own_queue dispatches encode st)
          (process-armed run_id own_queue dispatches (swept_at st.last_seq) (given k ks) k
            (sweep_cancellations st) (sweep-Tracked st.last_seq (given k ks) k st t)) in
      ground arith
