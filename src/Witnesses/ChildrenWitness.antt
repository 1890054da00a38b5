-- ===== src/Witnesses/ChildrenWitness.antt =====
-- A tree of children at which the theorems on the close of a run apply.
use dbosify_py.Prelude.{
  ◌≤◌, ◌≡◌, refl, Bool, true, none, some, List, [], ◌∷◌, arith, if◌then◌else◌, Bool-cases, inl, inr,
}
use dbosify_py.Prelude.Text.{Text, text, text_eq}
use dbosify_py.Interpreter.Children.{
  mem_id, ChildRow, CloseState, terminate_child_tree, sweep_rows, is_running, recorded_policy,
  close_policy,
}
use dbosify_py.Interpreter.Children.Swept.{times}
use dbosify_py.Interpreter.Children.Exact.{Doomed, untouched, tree_exact, is_terminated}
use dbosify_py.Interpreter.Children.Returns.{IsClosed, tree_returns}

abbrev current : Text → Text
current id = id

abbrev running : Text → Bool
running run = true

-- The child "a" recorded "b", which it terminates, and "c", which it leaves; "b" recorded "a" again.
abbrev children_of : Text → List ChildRow
children_of run =
    if text_eq run (text "a")
    then (record { id = text "b"; policy = none })
      ∷ (record { id = text "c"; policy = some 2 })
      ∷ []
    else if text_eq run (text "b")
    then (record { id = text "a"; policy = some 1 }) ∷ []
    else []

abbrev swept : CloseState
swept = record {
  visited = text "b" ∷ text "a" ∷ [];
  cancelled_runs = text "a" ∷ text "b" ∷ [];
  requested = [];
}

swept_run : terminate_child_tree current running children_of 3 (text "a") untouched ≡ some swept
unfolding terminate_child_tree mem_id text_eq sweep_rows recorded_policy is_running
swept_run = refl

tree_example :
    ((v : Text)
      → Doomed current running children_of (text "a") v
      → running (current v) ≡ true
      → mem_id (current v) swept.cancelled_runs ≡ true)
    × ((r : Text)
        → mem_id r swept.cancelled_runs ≡ true
        → (v : Text) × Doomed current running children_of (text "a") v
          × (current v ≡ r)
          × (running r ≡ true))
    × ((r : Text) → times r swept.cancelled_runs ≤ 1)
tree_example = tree_exact current running children_of 3 (text "a") swept swept_run

closed : IsClosed current running children_of (text "a" ∷ text "b" ∷ [])
unfolding mem_id is_terminated recorded_policy close_policy
closed v w inside ends = elim (Bool-cases (text_eq v (text "a"))) [
  | inl first ↦ ground arith
  | inr other ↦ elim (Bool-cases (text_eq v (text "b"))) [
    | inl second ↦ ground arith
    | inr neither ↦ absurd (ground arith)
  ]
]

close_example :
    (st' : CloseState) × (terminate_child_tree current running children_of 3 (text "a") untouched
      ≡ some st')
unfolding mem_id text_eq
close_example =
    tree_returns current running children_of (text "a" ∷ text "b" ∷ []) 3 (text "a") untouched
      closed refl (omega arith)
