-- ===== src/Interpreter/Children.antt =====
-- What becomes of the children of a run that closes: `_sweep_children_on_close` and
-- `_terminate_child_tree` of dbosify/_internal/interpreter.py. The newest run of a chain, the status of
-- a run before the sweep, and the children that a run recorded (the event CHILDREN_EVENT_KEY) are
-- parameters. A run that the sweep has cancelled is running no more.
pub mod Swept
pub mod Exact
pub mod Returns
use dbosify_py.Prelude.{
  ℕ, zero, suc, Bool, true, false, not, ◌&&◌, ◌||◌, Option, none, some, List, [], ◌∷◌, ◌++◌, ◌==◌,
  if◌then◌else◌,
}
use dbosify_py.Prelude.Text.{Text, text_eq}

unfoldable pub mem_id : Text → List Text → Bool
mem_id id [] = false
mem_id id (x ∷ xs) = text_eq x id || mem_id id xs

-- ParentClosePolicy: 2 is ABANDON and 3 is REQUEST_CANCEL; any other number terminates, and so does
-- a record without one.
pub data ClosePolicy : Type 0 where
  terminate abandon request_cancel : ClosePolicy

unfoldable pub close_policy : ℕ → ClosePolicy
close_policy n = if n == 2 then abandon else if n == 3 then request_cancel else terminate

unfoldable pub recorded_policy : Option ℕ → ClosePolicy
unfolding close_policy
recorded_policy none = close_policy 1
recorded_policy (some n) = close_policy n

-- A row of CHILDREN_EVENT_KEY.
pub record ChildRow : Type 0 where
  pub id : Text
  pub policy : Option ℕ

-- The parts of `_ChildExec` that the sweep reads.
pub record ChildExec : Type 0 where
  pub child_id : Text
  pub started : Bool
  pub parent_close_policy : ℕ

-- The ids that were visited, the runs that were cancelled and the runs that got a cancel envelope, in
-- their order.
pub record CloseState : Type 0 where
  pub visited : List Text
  pub cancelled_runs : List Text
  pub requested : List Text

abbrev pub visit : Text → CloseState → CloseState
visit id st = record st { visited = id ∷ st.visited }

abbrev pub cancel_workflow : Text → CloseState → CloseState
cancel_workflow run st = record st { cancelled_runs = st.cancelled_runs ++ run ∷ [] }

abbrev pub send_cancel : Text → CloseState → CloseState
send_cancel run st = record st { requested = st.requested ++ run ∷ [] }

-- The rows of a run that was cancelled, with the recursive call as a parameter.
unfoldable pub sweep_rows :
    (Text → CloseState → Option CloseState) → List ChildRow → CloseState → Option CloseState
sweep_rows recur [] st = some st
sweep_rows recur (row ∷ rows) st = elim (recorded_policy row.policy) [
  | abandon ↦ sweep_rows recur rows st
  | request_cancel ↦ sweep_rows recur rows (send_cancel row.id st)
  | terminate ↦ elim (recur row.id st) [ none ↦ none | some st' ↦ sweep_rows recur rows st' ]
]

module _ (current : Text → Text) (running : Text → Bool) (children_of : Text → List ChildRow) where
  unfoldable pub is_running : Text → CloseState → Bool
  is_running run st = running run && not (mem_id run st.cancelled_runs)

  -- `none` when the fuel runs out.
  unfoldable pub terminate_child_tree : ℕ → Text → CloseState → Option CloseState
  unfolding is_running
  terminate_child_tree zero id st = none
  terminate_child_tree (suc fuel) id st =
      if mem_id id st.visited
      then some st
      else if is_running (current id) st
      then sweep_rows (terminate_child_tree fuel) (children_of (current id))
          (cancel_workflow (current id) (visit id st))
      else some (visit id st)

  -- Each child's tree has its own set of visited ids.
  unfoldable pub sweep_children_on_close : ℕ → List ChildExec → CloseState → Option CloseState
  unfolding terminate_child_tree
  sweep_children_on_close fuel [] st = some st
  sweep_children_on_close fuel (child ∷ children) st =
      if not child.started
      then sweep_children_on_close fuel children st
      else elim (close_policy child.parent_close_policy) [
        | abandon ↦ sweep_children_on_close fuel children st
        | request_cancel ↦
            sweep_children_on_close fuel children (send_cancel (current child.child_id) st)
        | terminate ↦ elim (terminate_child_tree fuel child.child_id (record st { visited = [] })) [
          | none ↦ none
          | some st' ↦ sweep_children_on_close fuel children st'
        ]
      ]
