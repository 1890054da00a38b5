-- ===== src/Dispatcher/ChainHops.antt =====
-- dbosify/_internal/dispatcher.py: `dispatch`, which closes a run, and the chain's next run after a
-- workflow retry or by cron. The interpreter's outcome, the messages left in the inbox and the
-- delay to the next cron occurrence are parameters; enqueued runs and sent messages are the trace.
pub mod Successor
use dbosify_py.Prelude.{
  ℕ, ◌+◌, String, Bool, true, false, not, ◌&&◌, ◌||◌, Option, none, some, List, [], ◌∷◌, ◌++◌,
  if◌then◌else◌, any, keep, map, is_some,
}
use dbosify_py.Prelude.Text.{Text}
use dbosify_py.Failure.{Exc, Envelope, envelope, Fields, serialize_failure}
use dbosify_py.Retry.{RetryPolicy, RetryError, workflow_retry_delay}
use dbosify_py.Prelude.Result.{Result, ok, err}
use dbosify_py.Ids.{run_dbos_id, parse_run, replay_scratch_mode}
use dbosify_py.RunInput.{RunMeta, carried_forward, Input, wrap_input}
use dbosify_py.Inbox.{Message, is_cancel, is_run_scoped}

-- `_drain_unconsumed_inbox`: the deliveries up to the first recv that finds nothing.
unfoldable pub drain_unconsumed_inbox : {M : Type 0} → List (Option M) → List M
drain_unconsumed_inbox [] = []
drain_unconsumed_inbox (none ∷ deliveries) = []
drain_unconsumed_inbox (some m ∷ deliveries) = m ∷ drain_unconsumed_inbox deliveries

unfoldable pub contains_cancel : {P : Type 0} → List (Message P) → Bool
contains_cancel messages = any is_cancel messages

-- How `execute` of the interpreter ends, where its task did not fail: the result, or the exception.
pub data RunOutcome (V P : Type 0) : Type 0 where
  completed : P → RunOutcome V P
  continued_as_new : (new_run_id : Text) → RunOutcome V P
  cancelled : Exc V → RunOutcome V P
  nondeterminism : Exc V → RunOutcome V P
  failed : Exc V → RunOutcome V P

-- What DBOS records of the run; a failure may name the run that follows it.
pub data Closed (V P : Type 0) : Type 0 where
  output : P → Closed V P
  as_continued : (new_run_id : Text) → Closed V P
  as_cancelled : Envelope P → Closed V P
  as_nondeterminism : Exc V → Closed V P
  as_failed : Envelope P → (new_run_id : Option Text) → Closed V P
  reraised : Exc V → Closed V P
  as_raised : RetryError → Closed V P

-- `_enqueue_next_run`: the id of the next run of the chain of `workflow_id`.
unfoldable pub next_run_id : Text → Text
next_run_id workflow_id = let (base, index) = parse_run workflow_id in run_dbos_id base (index + 1)

module _ (P A : Type 0) where
  pub data Effect : Type 0 where
    enqueue : (run_id : Text) → (type_name : String) → Input P A → (delay : ℕ) → Effect
    send : (run_id : Text) → Message P → Effect

module _ {P A : Type 0} where
  -- `_forward_carryover`
  unfoldable pub forward_carryover : Text → List (Message P) → List (Effect P A)
  forward_carryover run [] = []
  forward_carryover run (m ∷ messages) = elim (is_run_scoped m) [
    | true ↦ forward_carryover run messages
    | false ↦ send run m ∷ forward_carryover run messages
  ]

-- A run that closes: its DBOS id, type and metadata, the seconds to a cron schedule's next
-- occurrence, whether the interpreter saw a cancel, and what its inbox still delivers.
pub record Closing (P A : Type 0) : Type 0 where
  pub workflow_id : Text
  pub type_name : String
  pub meta : RunMeta P A
  pub cron_delay : String → ℕ
  pub cancel_observed : Bool
  pub deliveries : List (Option (Message P))

module _ {P A : Type 0} where
  unfoldable pub enqueued_run : List (Effect P A) → Option Text
  enqueued_run [] = none
  enqueued_run (enqueue run t i d ∷ effects) = some run
  enqueued_run (send run m ∷ effects) = enqueued_run effects

module _ {P A : Type 0} (c : Closing P A) where
  -- One chain hop: the next run is enqueued, then what is left in the inbox follows it.
  unfoldable pub hop : List P → RunMeta P A → ℕ → List (Effect P A)
  hop args next_meta delay =
      enqueue (next_run_id c.workflow_id) c.type_name (wrap_input args (some next_meta)) delay
      ∷ forward_carryover (next_run_id c.workflow_id) (drain_unconsumed_inbox c.deliveries)

  unfoldable pub retry_meta : Envelope P → RunMeta P A
  retry_meta failure = record (carried_forward c.meta) {
    attempt = c.meta.attempt + 1;
    last_failure = some failure;
  }

  unfoldable pub cron_meta : Envelope P → RunMeta P A
  cron_meta failure = record (carried_forward c.meta) { last_failure = some failure }

  unfoldable pub retry_delay : Envelope P → Result RetryError (Option ℕ)
  retry_delay (envelope f cause) = elim c.meta.retry_policy [
    | none ↦ ok none
    | some policy ↦ workflow_retry_delay policy c.meta.attempt f
  ]

  -- A retry wins over the cron schedule.
  unfoldable pub next_after_failure : List P → Envelope P → Option ℕ → List (Effect P A)
  next_after_failure args failure (some delay) = hop args (retry_meta failure) delay
  next_after_failure args failure none = elim c.meta.cron [
    | none ↦ []
    | some cron ↦ hop args (cron_meta failure) (c.cron_delay cron)
  ]

  unfoldable pub cancel_requested : Bool
  cancel_requested = c.cancel_observed || contains_cancel (drain_unconsumed_inbox c.deliveries)

  unfoldable pub hop_after_failure :
      List P → Envelope P → Result RetryError (Option ℕ) → Result RetryError (List (Effect P A))
  hop_after_failure args failure (err e) = err e
  hop_after_failure args failure (ok delay) = ok (next_after_failure args failure delay)

  -- `_continue_chain_after_failure`: it returns the next run's id where it enqueued one.
  unfoldable pub continue_chain_after_failure :
      Option (List P) → Envelope P → Result RetryError (List (Effect P A))
  unfolding hop_after_failure
  continue_chain_after_failure none failure = ok []
  continue_chain_after_failure (some args) failure =
      if cancel_requested then ok [] else hop_after_failure args failure (retry_delay failure)

  -- The arguments are kept for a hop where the run is part of a chain.
  unfoldable pub hop_args : List P → Option (List P)
  hop_args args = if is_some c.meta.cron || is_some c.meta.retry_policy then some args else none

  unfoldable pub completed_meta : P → RunMeta P A
  completed_meta result = record (carried_forward c.meta) {
    last_completion = some result;
    last_failure = none;
  }

  -- The hop after a run that completed: only by cron, and not after a cancel.
  unfoldable pub continue_chain_after_success : List P → P → List (Effect P A)
  unfolding completed_meta
  continue_chain_after_success args result = elim c.meta.cron [
    | none ↦ []
    | some cron ↦
        if cancel_requested then [] else hop args (completed_meta result) (c.cron_delay cron)
  ]

-- How a failed run is recorded, and what is done for its chain.
unfoldable pub close_failed :
    {V P A : Type 0}
    → Envelope P
    → Result RetryError (List (Effect P A))
    → Closed V P × List (Effect P A)
close_failed failure (err e) = (as_raised e, [])
close_failed failure (ok effects) = (as_failed failure (enqueued_run effects), effects)

module _ {V P A : Type 0} (encode : V → P) (c : Closing P A) where
  -- `dispatch` behind the task loop.
  unfoldable pub dispatch : List P → RunOutcome V P → Closed V P × List (Effect P A)
  dispatch args (completed result) = (output result, continue_chain_after_success c args result)
  dispatch args (continued_as_new run) = (as_continued run, [])
  dispatch args (cancelled e) = (as_cancelled (serialize_failure encode e), [])
  dispatch args (nondeterminism e) = elim (replay_scratch_mode c.workflow_id) [
    | none ↦ (reraised e, [])
    | some mode ↦ (as_nondeterminism e, [])
  ]
  dispatch args (failed e) =
      let failure = serialize_failure encode e in
      close_failed failure (continue_chain_after_failure c (hop_args c args) failure)
