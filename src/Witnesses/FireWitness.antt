-- ===== src/Witnesses/FireWitness.antt =====
-- Schedule fires and task loops at which the theorems on dbosify/_internal/dispatcher.py apply.
use dbosify_py.Prelude.{
  ℕ, ◌≡◌, ◌⊎◌, refl, true, false, Option, none, some, [], ◌∷◌, arith, All, ltb, if◌then◌else◌,
}
use dbosify_py.Prelude.Text.{Text, text, text_eq}
use dbosify_py.Status.{DbosStatus, pending, is_open}
use dbosify_py.Dispatcher.Schedule.{
  Context, epoch, occurrence_id, schedule_fire, running_prior_occurrence,
}
use dbosify_py.Dispatcher.Schedule.Overlap.{
  started, IsWithin, IsSkipped, started-schedule_fire, IsLatest, has_row,
  running_prior_occurrence_lem,
}
use dbosify_py.Dispatcher.TaskLoop.{
  Execution, outcome, task_failure, loop_outcome, run_workflow_task_loop,
}
use dbosify_py.Dispatcher.TaskLoop.Backoff.{Fails, backoffs, run_workflow_task_loop_lem}

abbrev context : Context ℕ ℕ
context = record {
  action = record {
    id = text "nightly";
    workflow = "Report";
    args = 1 ∷ [];
    retry_policy = none;
    run_timeout = none;
    attributes = none;
    task_queue = "main";
  };
  start_at = some 50000000;
  end_at = none;
  jitter = some 10;
  overlap = none;
  has_cron = true;
}

-- The fire at 100 left an action that is still pending.
abbrev rows : Text → Option DbosStatus
rows id = if text_eq id (text "nightly-100") then some pending else none

fire_example :
    ((started (schedule_fire context rows (100 ∷ 160 ∷ []) 4 220500000)
        ≡ occurrence_id (text "nightly") (epoch 220500000) ∷ [])
      × IsWithin context rows (100 ∷ 160 ∷ []) 220500000
      × (IsSkipped context rows (100 ∷ 160 ∷ []) → ⊥))
    ⊎ ((started (schedule_fire context rows (100 ∷ 160 ∷ []) 4 220500000) ≡ [])
        × (IsWithin context rows (100 ∷ 160 ∷ []) 220500000
            → IsSkipped context rows (100 ∷ 160 ∷ [])))
fire_example = started-schedule_fire context rows (100 ∷ 160 ∷ []) 4 220500000

prior_example :
    ((prior : Text)
      → running_prior_occurrence rows (text "nightly") (100 ∷ 160 ∷ []) ≡ some prior
      → (at : ℕ) × (s : DbosStatus) × (prior ≡ occurrence_id (text "nightly") at)
        × (is_open s ≡ true)
        × IsLatest rows (text "nightly") (100 ∷ 160 ∷ []) (at, s))
    × (running_prior_occurrence rows (text "nightly") (100 ∷ 160 ∷ []) ≡ none
        → All (λ t. has_row rows (text "nightly") t ≡ false) (100 ∷ 160 ∷ [])
          ⊎ ((at : ℕ) × (s : DbosStatus) × (is_open s ≡ false)
              × IsLatest rows (text "nightly") (100 ∷ 160 ∷ []) (at, s)))
prior_example = running_prior_occurrence_lem rows (text "nightly") (100 ∷ 160 ∷ [])

-- The third execution ends.
abbrev execute : ℕ → ℕ → Execution ℕ ℕ
execute n start = if ltb n 2 then task_failure n false else outcome 8 false

two_fail : (m : ℕ) → ltb m 2 ≡ true → Fails execute 5 m
two_fail m h = (m, false, rw h refl)

loop_example :
    run_workflow_task_loop execute false 5 9 (some 40000)
    ≡ some (loop_outcome 8 false, backoffs 40000 0 2)
loop_example =
    run_workflow_task_loop_lem execute 5 2 9 40000 8 false (λ m h. two_fail m (ground arith)) refl
      (omega arith)
