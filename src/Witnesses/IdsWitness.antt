-- ===== src/Witnesses/IdsWitness.antt =====
-- Workflow ids and chains at which the theorems on dbosify/_internal/ids.py apply.
use dbosify_py.Prelude.{ℕ, ◌≡◌, refl, Option, none, some, false, if◌then◌else◌, arith}
use dbosify_py.Prelude.Result.{ok}
use dbosify_py.Prelude.Text.{Text, text, contains, starts_with}
use dbosify_py.Ids.{
  validate_workflow_id, run_dbos_id, activity_dbos_id, parse_run, run_index_of, rehydrate,
  replay_scratch_id, replay_scratch_mode, is_replay_scratch,
}
use dbosify_py.Ids.RunIds.{parse_run-run_dbos_id, run_index_of-run_dbos_id}
use dbosify_py.Ids.Scratch.{replay_scratch_mode-replay_scratch_id, run_not_scratch}
use dbosify_py.Ids.Chain.{resolve_latest_run}
use dbosify_py.Ids.Chain.Probe.{alive, ServesChain}
use dbosify_py.Ids.Chain.Latest.{resolve_latest_run-newest}
use dbosify_py.Dispatcher.ChainHops.{next_run_id}
use dbosify_py.Dispatcher.ChainHops.Successor.{next_run_id-run_dbos_id}

abbrev order : Text
order = text "order-7"

order_valid : validate_workflow_id order ≡ ok tt
unfolding validate_workflow_id contains starts_with
order_valid = refl

parse_run_example : parse_run (run_dbos_id order 12) ≡ (order, 12)
parse_run_example = parse_run-run_dbos_id order 12 order_valid

run_index_example : run_index_of order (run_dbos_id order 12) ≡ some 12
run_index_example = run_index_of-run_dbos_id order 12

next_run_example : next_run_id (run_dbos_id order 12) ≡ run_dbos_id order 13
next_run_example = next_run_id-run_dbos_id order 12 order_valid

scratch_example :
    replay_scratch_mode (replay_scratch_id (text "order-7--r2") rehydrate (text "k3"))
    ≡ some rehydrate
unfolding contains starts_with
scratch_example =
    replay_scratch_mode-replay_scratch_id (text "order-7--r2") (text "k3") rehydrate refl refl

not_scratch_example :
    (is_replay_scratch (run_dbos_id order 2) ≡ false)
    × (is_replay_scratch (activity_dbos_id (run_dbos_id order 2) 5) ≡ false)
not_scratch_example = run_not_scratch order 2 5 order_valid

-- The chain of `order` from run 3 to run 40, whose statuses are their indexes.
abbrev table : Option ℕ → Option ℕ
table none = none
table (some i) = if alive 3 40 i then some i else none

abbrev chain : Text → Option ℕ
chain id = table (run_index_of order id)

chain_serves : ServesChain chain order 3 40 (λ i. i)
chain_serves i = rw (run_index_of-run_dbos_id order i)

latest_example : resolve_latest_run chain order 100 ≡ some (some (40, 40))
latest_example =
    resolve_latest_run-newest chain order 3 40 (λ i. i) chain_serves 100 (omega arith) (omega arith)
      (omega arith)
