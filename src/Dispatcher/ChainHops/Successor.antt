-- ===== src/Dispatcher/ChainHops/Successor.antt =====
-- What closing a run does to its chain (dbosify/_internal/dispatcher.py).
use dbosify_py.Prelude.{
  ℕ, ◌+◌, ◌≡◌, ◌⊎◌, refl, true, not, Option, none, some, List, [], ◌∷◌, arith, map, keep,
  Bool-cases, Option-cases, inl, inr, any,
}
use dbosify_py.Prelude.Result.{Result, ok, err}
use dbosify_py.Prelude.Text.{Text}
use dbosify_py.Failure.{Envelope, serialize_failure}
use dbosify_py.Ids.{validate_workflow_id, run_dbos_id}
use dbosify_py.Ids.RunIds.{parse_run-run_dbos_id}
use dbosify_py.Retry.{RetryError}
use dbosify_py.RunInput.{RunMeta, wrap_input}
use dbosify_py.Inbox.{Message, is_cancel, is_run_scoped}
use dbosify_py.Dispatcher.ChainHops.{
  Closing, completed_meta, drain_unconsumed_inbox, RunOutcome, completed, continued_as_new,
  cancelled, nondeterminism, failed, Effect, enqueue, send, forward_carryover, next_run_id, hop,
  retry_meta, cron_meta, retry_delay, next_after_failure, cancel_requested, contains_cancel,
  continue_chain_after_failure, hop_args, hop_after_failure, close_failed,
  continue_chain_after_success, dispatch,
}

-- The run behind run `n` of a validated workflow id is its run `n + 1`.
pub next_run_id-run_dbos_id :
    (w : Text) (n : ℕ)
    → validate_workflow_id w ≡ ok tt
    → next_run_id (run_dbos_id w n) ≡ run_dbos_id w (n + 1)
unfolding next_run_id
next_run_id-run_dbos_id w n h = rw (parse_run-run_dbos_id w n h)

-- The messages that follow the chain.
abbrev pub carried : {P : Type 0} → List (Message P) → List (Message P)
carried messages = keep (λ m. not (is_run_scoped m)) messages

forward_carryover_lem :
    {P A : Type 0} (run : Text) (messages : List (Message P))
    → forward_carryover {A = A} run messages ≡ map (send run) (carried messages)
unfolding forward_carryover
forward_carryover_lem run [] = refl
forward_carryover_lem {A} run (m ∷ messages) =
    ground (arith, forward_carryover_lem {A = A} run messages)

module _ {P A : Type 0} (c : Closing P A) where
  -- Nothing, or one enqueue of the chain's next run followed by the messages that were left.
  abbrev pub IsHop : List (Effect P A) → Type 0
  IsHop effects =
      (effects ≡ [])
      ⊎ ((args : List P) × (next_meta : RunMeta P A) × (delay : ℕ) × (effects
            ≡ enqueue (next_run_id c.workflow_id) c.type_name (wrap_input args (some next_meta))
                delay
              ∷ map (send (next_run_id c.workflow_id))
                  (carried (drain_unconsumed_inbox c.deliveries))))

  hop-IsHop :
      (args : List P) (next_meta : RunMeta P A) (delay : ℕ) → IsHop (hop c args next_meta delay)
  unfolding hop
  hop-IsHop args next_meta delay = inr (args, next_meta, delay, rw forward_carryover_lem)

  next_after_failure-IsHop :
      (args : List P) (failure : Envelope P) (delay : Option ℕ)
      → IsHop (next_after_failure c args failure delay)
  unfolding next_after_failure
  next_after_failure-IsHop args failure (some delay) = hop-IsHop args (retry_meta c failure) delay
  next_after_failure-IsHop args failure none = elim (Option-cases c.meta.cron) [
    | inl never ↦ rw (never, next_after_failure) (inl refl)
    | inr (cron, e) ↦
        rw (e, next_after_failure) (hop-IsHop args (cron_meta c failure) (c.cron_delay cron))
  ]

  close_failed-IsHop :
      (V : Type 0) (args : List P) (failure : Envelope P) (delay : Result RetryError (Option ℕ))
      → IsHop (close_failed {V = V} failure (hop_after_failure c args failure delay)).1
  unfolding close_failed hop_after_failure
  close_failed-IsHop V args failure (err e) = inl refl
  close_failed-IsHop V args failure (ok delay) = next_after_failure-IsHop args failure delay

  after_failure-IsHop :
      (V : Type 0) (kept : Option (List P)) (failure : Envelope P)
      → IsHop (close_failed {V = V} failure (continue_chain_after_failure c kept failure)).1
  unfolding continue_chain_after_failure close_failed
  after_failure-IsHop V none failure = inl refl
  after_failure-IsHop V (some args) failure = elim (Bool-cases (cancel_requested c)) [
    | inl stopped ↦ rw stopped (inl refl)
    | inr free ↦ rw free (close_failed-IsHop V args failure (retry_delay c failure))
  ]

  after_success-IsHop :
      (args : List P) (result : P) → IsHop (continue_chain_after_success c args result)
  unfolding continue_chain_after_success
  after_success-IsHop args result = elim (Option-cases c.meta.cron) [
    | inl never ↦ rw (never, continue_chain_after_success) (inl refl)
    | inr (cron, e) ↦ elim (Bool-cases (cancel_requested c)) [
      | inl stopped ↦ rw (e, continue_chain_after_success, stopped) (inl refl)
      | inr free ↦
          rw (e, continue_chain_after_success, free)
            (hop-IsHop args (completed_meta c result) (c.cron_delay cron))
    ]
  ]

  -- After a requested cancel, nothing is done for the chain.
  after_failure-cancel :
      (kept : Option (List P)) (failure : Envelope P)
      → cancel_requested c ≡ true
      → continue_chain_after_failure c kept failure ≡ ok []
  unfolding continue_chain_after_failure
  after_failure-cancel none failure h = refl
  after_failure-cancel (some args) failure h = rw h

  after_success-cancel :
      (args : List P) (result : P)
      → cancel_requested c ≡ true
      → continue_chain_after_success c args result ≡ []
  unfolding continue_chain_after_success
  after_success-cancel args result h = ground arith

module _ {V P A : Type 0} (encode : V → P) (c : Closing P A) (args : List P) where
  -- However a run closes, the dispatcher enqueues at most one run, the next of its chain, and sends nothing
  -- but the unconsumed messages, in their order and without those for its own activities, to that
  -- run after enqueueing it.
  pub dispatch-IsHop : (outcome : RunOutcome V P) → IsHop c (dispatch encode c args outcome).1
  unfolding dispatch
  dispatch-IsHop (completed result) = after_success-IsHop c args result
  dispatch-IsHop (continued_as_new run) = inl refl
  dispatch-IsHop (cancelled e) = inl refl
  dispatch-IsHop (nondeterminism e) = ground arith
  dispatch-IsHop (failed e) = after_failure-IsHop c V (hop_args c args) (serialize_failure encode e)

  requested_cancel :
      (outcome : RunOutcome V P)
      → cancel_requested c ≡ true
      → (dispatch encode c args outcome).1 ≡ []
  unfolding dispatch close_failed
  requested_cancel (completed result) h = after_success-cancel c args result h
  requested_cancel (continued_as_new run) h = refl
  requested_cancel (cancelled e) h = refl
  requested_cancel (nondeterminism e) h = ground arith
  requested_cancel (failed e) h =
      rw (after_failure-cancel c (hop_args c args) (serialize_failure encode e) h)

  -- Where the interpreter saw a cancel, or one waits among the unconsumed messages, the dispatcher
  -- enqueues no run and forwards no message, however the run closes. (A run that continues as new has
  -- had its next run enqueued by the interpreter before.)
  pub dispatch-cancel :
      (outcome : RunOutcome V P)
      → (c.cancel_observed ≡ true) ⊎ (any is_cancel (drain_unconsumed_inbox c.deliveries) ≡ true)
      → (dispatch encode c args outcome).1 ≡ []
  unfolding cancel_requested contains_cancel
  dispatch-cancel outcome h = requested_cancel outcome (ground arith)
