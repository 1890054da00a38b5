-- ===== src/Interpreter/Activities/Tracked/Timed.antt =====
-- Completions and timers of a parked activity keep every activity tracked
-- (dbosify/_internal/interpreter.py).
use dbosify_py.Prelude.{
  ℕ, ◌+◌, ◌≡◌, refl, Bool, true, false, not, ◌&&◌, ◌||◌, some, List, [], ◌∷◌, keep, ◌==◌, arith,
  Bool-cases, Option-cases, inl, inr, subst, sym,
}
use dbosify_py.Failure.{Envelope, TimeoutType}
use dbosify_py.Interpreter.Activities.{
  WaiterKind, inbox, activity, q_activity, act_s2c, act_hb, Waiter, kind_eq, ActivityExec,
  ActivityState, find, update,
}
use dbosify_py.Interpreter.Activities.Attempts.{
  advance_time, retire_parked_timers, fail_async_attempt,
}
use dbosify_py.Interpreter.Activities.Delivery.{timeout_failure, async_parked_timeout, deliver_park}
use dbosify_py.Interpreter.Activities.Tracked.{at, mem, waits, is_armed, tracked, Calm, never}
use dbosify_py.Interpreter.Activities.Tracked.Parts.{
  update-Tracked_own, update-Tracked_other, retry_or_fail-Tracked_own, retry_or_fail-Tracked_other,
  gone-Tracked, Open, opened_when_swept, other_seq,
}

abbrev pub is_timer : WaiterKind → Bool
is_timer act_s2c = true
is_timer act_hb = true
is_timer _ = false

-- Timers of another activity are not retired.
waits_retired :
    (kind : WaiterKind) (k j : ℕ) (ws : List Waiter)
    → (j == k) ≡ false
    → waits kind k
        (keep (λ w. not ((kind_eq w.kind act_s2c || kind_eq w.kind act_hb) && w.seq == j)) ws)
      ≡ waits kind k ws
unfolding waits kind_eq
waits_retired kind k j [] other = refl
waits_retired kind k j (w ∷ ws) other = ground (arith, waits_retired kind k j ws other)

module _ {P : Type 0} (calm : List ℕ → ℕ → Bool) (n k : ℕ) where
  pub retire-Tracked_other :
      (j : ℕ) (st : ActivityState P)
      → (j == k) ≡ false
      → Calm [] calm n k st
      → Calm [] calm n k (retire_parked_timers j st)
  unfolding retire_parked_timers
  retire-Tracked_other j st other h =
      rw
        (
          waits_retired activity k j st.waiters other,
          waits_retired q_activity k j st.waiters other,
          waits_retired act_s2c k j st.waiters other,
          waits_retired act_hb k j st.waiters other,
        )
        h

  -- Of an open activity, whatever it waits for.
  pub retire-Open :
      (extra : List Waiter) (e : ActivityExec P) (st : ActivityState P)
      → Open calm n k extra e st
      → Open calm n k
          (at k activity ∷ [])
          (record e { async_pending = false })
          (retire_parked_timers k st)
  unfolding retire_parked_timers tracked is_armed waits kind_eq
  retire-Open extra e st (same, open_future, found, t) = (same, open_future, found, ground arith)

  pub fail_async-Tracked_own :
      (extra : List Waiter) (e : ActivityExec P) (failed : Envelope P) (st : ActivityState P)
      → Open calm n k extra e st
      → Calm [] calm n k (fail_async_attempt e failed (retire_parked_timers k st))
  unfolding fail_async_attempt
  fail_async-Tracked_own extra e failed st h =
      retry_or_fail-Tracked_own never calm (mem k) n k (record e { async_pending = false }) failed
        (retire_parked_timers k st) (retire-Open extra e st h)

  pub fail_async-Tracked_other :
      (e : ActivityExec P) (failed : Envelope P) (st : ActivityState P)
      → (e.seq == k) ≡ false
      → Calm [] calm n k st
      → Calm [] calm n k (fail_async_attempt e failed st)
  unfolding fail_async_attempt
  fail_async-Tracked_other e failed st other h =
      retry_or_fail-Tracked_other never calm (mem k) n k (record e { async_pending = false }) failed
        st other h

  -- An activity that is not parked does not need the timer that fired.
  pub unparked-Tracked :
      (kind : WaiterKind) (e : ActivityExec P) (st : ActivityState P)
      → is_timer kind ≡ true
      → e.async_pending ≡ false
      → Open calm n k (at k kind ∷ []) e st
      → find k st.pending_activities ≡ some e
      → Calm [] calm n k st
  unfolding tracked is_armed waits kind_eq
  unparked-Tracked act_s2c e st timer plain (same, open_future, x, t) found =
      rw found (ground arith)
  unparked-Tracked act_hb e st timer plain (same, open_future, x, t) found = rw found (ground arith)
  unparked-Tracked inbox e st timer plain o found = ground arith
  unparked-Tracked activity e st timer plain o found = ground arith
  unparked-Tracked q_activity e st timer plain o found = ground arith

-- A park is charged to virtual time before it times out.
abbrev pub charged : {P : Type 0} → ActivityExec P → ActivityState P → ActivityState P
charged e st = update (record e { pending_wait = 0 }) (advance_time (st.time + e.pending_wait) st)

module _ {V P : Type 0} (encode : V → P) where
  pub timeout_parked :
      (j : ℕ) (e : ActivityExec P) (ty : TimeoutType) (st : ActivityState P)
      → find j st.pending_activities ≡ some e
      → e.async_pending ≡ true
      → async_parked_timeout encode j ty st
        ≡ fail_async_attempt e (timeout_failure encode ty) (retire_parked_timers j st)
  unfolding async_parked_timeout
  timeout_parked j e ty st found pending = ground arith

  pub park_charged :
      (j : ℕ) (e : ActivityExec P) (st : ActivityState P)
      → find j st.pending_activities ≡ some e
      → deliver_park encode j st
        ≡ async_parked_timeout encode j e.async_park_timeout_type (charged e st)
  unfolding deliver_park
  park_charged j e st found = ground arith

module _ {V P : Type 0} (encode : V → P) (calm : List ℕ → ℕ → Bool) (n k : ℕ) where
  timeout_unparked :
      (j : ℕ) (e : ActivityExec P) (ty : TimeoutType) (st : ActivityState P)
      → find j st.pending_activities ≡ some e
      → e.async_pending ≡ false
      → async_parked_timeout encode j ty st ≡ st
  unfolding async_parked_timeout
  timeout_unparked j e ty st found plain = ground arith

  pub async_parked_timeout-Tracked_own :
      (kind : WaiterKind) (ty : TimeoutType) (st : ActivityState P)
      → is_timer kind ≡ true
      → Calm (at k kind ∷ []) calm n k st
      → Calm [] calm n k (async_parked_timeout encode k ty st)
  unfolding async_parked_timeout
  async_parked_timeout-Tracked_own kind ty st timer h =
      elim (Option-cases (find k st.pending_activities)) [
        | inl gone ↦
            rw (gone, async_parked_timeout)
              (gone-Tracked never calm (mem k) n k (at k kind ∷ []) st gone h)
        | inr (e, found) ↦
            let o = opened_when_swept calm n k (at k kind ∷ []) e st found h in
            elim (Bool-cases e.async_pending) [
              | inl pending ↦
                  subst (λ s. Calm [] calm n k s)
                    (sym (timeout_parked encode k e ty st found pending))
                    (fail_async-Tracked_own calm n k (at k kind ∷ []) e (timeout_failure encode ty)
                      st o)
              | inr plain ↦
                  subst (λ s. Calm [] calm n k s) (sym (timeout_unparked k e ty st found plain))
                    (unparked-Tracked calm n k kind e st timer plain o found)
            ]
      ]

  pub async_parked_timeout-Tracked_other :
      (j : ℕ) (ty : TimeoutType) (st : ActivityState P)
      → (j == k) ≡ false
      → Calm [] calm n k st
      → Calm [] calm n k (async_parked_timeout encode j ty st)
  unfolding async_parked_timeout
  async_parked_timeout-Tracked_other j ty st other h =
      elim (Option-cases (find j st.pending_activities)) [
        | inl gone ↦ rw (gone, async_parked_timeout) h
        | inr (e, found) ↦ elim (Bool-cases e.async_pending) [
          | inl pending ↦
              subst (λ s. Calm [] calm n k s) (sym (timeout_parked encode j e ty st found pending))
                (fail_async-Tracked_other calm n k e (timeout_failure encode ty)
                  (retire_parked_timers j st)
                  (other_seq calm n k j e st.pending_activities other found)
                  (retire-Tracked_other calm n k j st other h))
          | inr plain ↦
              subst (λ s. Calm [] calm n k s) (sym (timeout_unparked j e ty st found plain)) h
        ]
      ]

  pub deliver_park-Tracked_own :
      (st : ActivityState P)
      → Calm (at k act_s2c ∷ []) calm n k st
      → Calm [] calm n k (deliver_park encode k st)
  unfolding deliver_park advance_time tracked is_armed
  deliver_park-Tracked_own st h = elim (Option-cases (find k st.pending_activities)) [
    | inl gone ↦
        rw (gone, deliver_park) (gone-Tracked never calm (mem k) n k (at k act_s2c ∷ []) st gone h)
    | inr (e, found) ↦
        subst (λ s. Calm [] calm n k s) (sym (park_charged encode k e st found))
          (async_parked_timeout-Tracked_own act_s2c e.async_park_timeout_type (charged e st) refl (
            update-Tracked_own never calm (mem k) n k (at k act_s2c ∷ [])
              (record e { pending_wait = 0 }) (advance_time (st.time + e.pending_wait) st)
              (opened_when_swept calm n k (at k act_s2c ∷ []) e st found h)))
  ]

  pub deliver_park-Tracked_other :
      (j : ℕ) (st : ActivityState P)
      → (j == k) ≡ false
      → Calm [] calm n k st
      → Calm [] calm n k (deliver_park encode j st)
  unfolding deliver_park advance_time
  deliver_park-Tracked_other j st other h = elim (Option-cases (find j st.pending_activities)) [
    | inl gone ↦ rw (gone, deliver_park) h
    | inr (e, found) ↦
        subst (λ s. Calm [] calm n k s) (sym (park_charged encode j e st found))
          (async_parked_timeout-Tracked_other j e.async_park_timeout_type (charged e st) other (
            update-Tracked_other never calm (mem k) n k (record e { pending_wait = 0 })
              (advance_time (st.time + e.pending_wait) st)
              (other_seq calm n k j e st.pending_activities other found) h))
  ]
