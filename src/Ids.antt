-- ===== src/Ids.antt =====
-- dbosify/_internal/ids.py: workflow ids, run ids and the ids derived from them.
pub mod RunIds
pub mod Scratch
pub mod Chain
use dbosify_py.Prelude.{
  ℕ, ◌+◌, Bool, ◌||◌, Option, none, some, List, [], ◌∷◌, ◌++◌, ◌==◌, if◌then◌else◌, length, drop,
  is_some, any,
}
use dbosify_py.Prelude.Result.{Result, ok, err}
use dbosify_py.Prelude.Text.{
  Text, text, text_eq, contains, starts_with, isdigit, int, str, rpartition, read_from, digits_onto,
}

abbrev pub run_separator : Text
run_separator = text "--r"

abbrev pub activity_separator : Text
activity_separator = text "--a"

abbrev pub verify_separator : Text
verify_separator = text "--v"

abbrev pub rehydrate_separator : Text
rehydrate_separator = text "--q"

abbrev pub dense_probe_limit : ℕ
dense_probe_limit = 16

abbrev pub max_probe_exponent : ℕ
max_probe_exponent = 20

abbrev pub refine_batch : ℕ
refine_batch = 16

-- The two messages of the ValueError.
pub data IdError : Type 0 where
  empty_id : IdError
  reserved : Text → IdError

-- The `for` loop over the separators.
pub check_separators : Text → List Text → Result IdError Unit
check_separators w [] = ok tt
check_separators w (sep ∷ rest) =
    if contains sep w then err (reserved sep) else check_separators w rest

unfoldable pub validate_workflow_id : Text → Result IdError Unit
unfolding check_separators
validate_workflow_id [] = err empty_id
validate_workflow_id (c ∷ w) =
    check_separators (c ∷ w)
      (run_separator ∷ activity_separator ∷ verify_separator ∷ rehydrate_separator ∷ [])

unfoldable pub run_dbos_id : Text → ℕ → Text
run_dbos_id w n = if n == 0 then w else w ++ (run_separator ++ str n)

unfoldable pub activity_dbos_id : Text → ℕ → Text
activity_dbos_id run seq = run ++ (activity_separator ++ str seq)

pub data ReplayMode : Type 0 where
  verify rehydrate : ReplayMode

-- `verify` or any other mode: the source tests for "verify" alone.
unfoldable pub replay_scratch_id : Text → ReplayMode → Text → Text
replay_scratch_id run verify suffix = run ++ (verify_separator ++ suffix)
replay_scratch_id run rehydrate suffix = run ++ (rehydrate_separator ++ suffix)

unfoldable pub replay_scratch_mode : Text → Option ReplayMode
replay_scratch_mode id =
    if contains verify_separator id
    then some verify
    else if contains rehydrate_separator id
    then some rehydrate
    else none

unfoldable pub is_replay_scratch : Text → Bool
is_replay_scratch id = is_some (replay_scratch_mode id)

unfoldable pub parse_run : Text → Text × ℕ
parse_run id =
    if contains run_separator id
    then elim (rpartition run_separator id) [
      | none ↦ (id, 0)
      | some (base, suffix) ↦ if isdigit suffix then (base, int suffix) else (id, 0)
    ]
    else (id, 0)

unfoldable pub run_index_of : Text → Text → Option ℕ
run_index_of w id =
    if text_eq id w
    then some 0
    else if starts_with (w ++ run_separator) id
    then (let suffix = drop (length w + length run_separator) id in
        if isdigit suffix then some (int suffix) else none)
    else none
