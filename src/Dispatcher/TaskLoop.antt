-- ===== src/Dispatcher/TaskLoop.antt =====
-- dbosify/_internal/dispatcher.py: `_run_workflow_task_loop`, which runs a workflow's interpreter
-- again after a task failure. A fresh interpreter's execution is a parameter: its number, and the
-- function id from which it replays the checkpoints. Delays are ticks, 1000 to the second.
pub mod Backoff
use dbosify_py.Prelude.{
  ℕ, zero, suc, ◌+◌, ◌*◌, Bool, true, false, Option, none, some, List, [], ◌∷◌, ◌++◌, min,
  if◌then◌else◌,
}

-- `TASK_RETRY_MAX_SECONDS`
abbrev pub task_retry_max : ℕ
task_retry_max = 60000

-- How `execute` ends: it returns or raises (an outcome), or its task fails with a cause.
pub data Execution (R C : Type 0) : Type 0 where
  outcome : R → (cancel_requested : Bool) → Execution R C
  task_failure : (cause : C) → (cancel_requested : Bool) → Execution R C

-- How the loop ends, and the cancel flag that the last interpreter left.
pub data LoopResult (R C : Type 0) : Type 0 where
  loop_outcome : R → (cancel_observed : Bool) → LoopResult R C
  loop_raised : (cause : C) → (cancel_observed : Bool) → LoopResult R C

module _ {R C : Type 0} (execute : ℕ → ℕ → Execution R C) (fail_fast : Bool)
    (start_function_id : ℕ) where
  -- `while True` from execution `n`, with the delays slept; `none` when the fuel runs out.
  unfoldable pub task_loop : ℕ → ℕ → ℕ → List ℕ → Option (LoopResult R C × List ℕ)
  task_loop zero n backoff slept = none
  task_loop (suc fuel) n backoff slept =
      let again =
        task_loop fuel (n + 1) (min (backoff * 2) task_retry_max) (slept ++ backoff ∷ []) in
      elim (execute n start_function_id) [
        | outcome r cancelled ↦ some (loop_outcome r cancelled, slept)
        | task_failure cause cancelled ↦
            if fail_fast then some (loop_raised cause cancelled, slept) else again
      ]

  -- `initial` is the value of the environment variable, 1 second where it is not set.
  unfoldable pub run_workflow_task_loop : ℕ → Option ℕ → Option (LoopResult R C × List ℕ)
  run_workflow_task_loop fuel initial =
      task_loop fuel 0 (elim initial [ none ↦ 1000 | some b ↦ b ]) []
