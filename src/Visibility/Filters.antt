-- ===== src/Visibility/Filters.antt =====
-- `to_dbos_filters`, `post_filter` and `aggregate_eligible` of dbosify/_internal/visibility.py.
pub mod Exact
use dbosify_py.Prelude.{
  ℕ, Bool, true, false, not, ◌&&◌, ◌||◌, Option, none, some, List, [], ◌∷◌, ◌++◌, any, map, drop,
  if◌then◌else◌, is_none,
}
use dbosify_py.Prelude.Result.{Result, ok, err}
use dbosify_py.Prelude.Text.{Text, text, text_eq, starts_with}
use dbosify_py.Ids.{run_separator}
use dbosify_py.Status.{
  WorkflowExecutionStatus, DbosStatus, pending, enqueued, delayed, success, error, cancelled,
  max_recovery_attempts_exceeded, unknown_status, RecordedError, UnknownStatus, to_execution_status,
}
use dbosify_py.Visibility.{Query, Scalar, temporal_to_dbos, mem_text, mem_status}

unfoldable pub dbos_eq : DbosStatus → DbosStatus → Bool
dbos_eq pending pending = true
dbos_eq enqueued enqueued = true
dbos_eq delayed delayed = true
dbos_eq success success = true
dbos_eq error error = true
dbos_eq cancelled cancelled = true
dbos_eq max_recovery_attempts_exceeded max_recovery_attempts_exceeded = true
dbos_eq (unknown_status s) (unknown_status t) = text_eq s t
dbos_eq _ _ = false

abbrev pub mem_dbos : DbosStatus → List DbosStatus → Bool
mem_dbos d ds = any (dbos_eq d) ds

-- if ds not in dbos_statuses: dbos_statuses.append(ds)
unfoldable pub add_new : List DbosStatus → List DbosStatus → List DbosStatus
add_new acc [] = acc
add_new acc (d ∷ ds) = if mem_dbos d acc then add_new acc ds else add_new (acc ++ d ∷ []) ds

unfoldable pub dbos_statuses : List DbosStatus → List WorkflowExecutionStatus → List DbosStatus
dbos_statuses acc [] = acc
dbos_statuses acc (s ∷ ss) = dbos_statuses (add_new acc (temporal_to_dbos s)) ss

-- The keyword arguments of DBOS's listing; datetimes stand for their ISO text.
pub record DbosFilters (N : Type 0) : Type 0 where
  pub name : Option (List Text)
  pub workflow_ids : Option (List Text)
  pub workflow_id_prefix : Option (List Text)
  pub status : Option (List DbosStatus)
  pub start_time : Option ℕ
  pub end_time : Option ℕ
  pub completed_after : Option ℕ
  pub completed_before : Option ℕ
  pub attributes : Option (List (Text × Scalar N))

-- What the row predicate reads of a `WorkflowStatus`.
pub record Row : Type 0 where
  pub workflow_id : Text
  pub status : DbosStatus
  pub recorded_error : RecordedError
  pub name : Option Text

-- The stated prefix, else the base id of the chain.
id_prefix : Option Text → Option Text → Option (List Text)
id_prefix (some p) chain = some (p ∷ [])
id_prefix none (some x) = some (x ∷ [])
id_prefix none none = none

unfoldable pub is_error_family : WorkflowExecutionStatus → Bool
is_error_family s = elim (temporal_to_dbos s) [ error ∷ [] ↦ true | _ ↦ false ]

unfoldable pub needs_status : Option (List WorkflowExecutionStatus) → Bool
needs_status none = false
needs_status (some ss) = any is_error_family ss

-- The row is the base run or a run whose id goes on with the separator.
unfoldable pub in_chain : Option Text → Row → Bool
in_chain none row = true
in_chain (some x) row =
    text_eq row.workflow_id x || starts_with (x ++ run_separator) row.workflow_id

-- The row's name without its "wf:".
unfoldable pub type_of : Row → Text
type_of row = elim row.name [
  | none ↦ []
  | some n ↦ if starts_with (text "wf:") n then drop 3 n else n
]

abbrev pub no_items : {A : Type 0} → List A → Bool
no_items [] = true
no_items (x ∷ xs) = false

unfoldable pub check_status :
    Option (List WorkflowExecutionStatus)
    → Result UnknownStatus WorkflowExecutionStatus
    → Bool
    → Result UnknownStatus Bool
check_status none actual rest = ok rest
check_status (some ss) (err e) rest = err e
check_status (some ss) (ok s) rest = ok (if mem_status s ss then rest else false)

module _ {N : Type 0} where
  unfoldable pub to_dbos_filters : Query N → DbosFilters N
  unfolding id_prefix
  to_dbos_filters q = record {
    name = elim q.type_in [ none ↦ none | some ts ↦ some (map (λ t. text "wf:" ++ t) ts) ];
    workflow_ids = q.workflow_ids;
    workflow_id_prefix = id_prefix q.workflow_id_prefix q.workflow_id_chain;
    status = elim q.statuses [ none ↦ none | some ss ↦ some (dbos_statuses [] ss) ];
    start_time = q.start_time_lo;
    end_time = q.start_time_hi;
    completed_after = q.close_time_lo;
    completed_before = q.close_time_hi;
    attributes = elim q.search_attributes [ [] ↦ none | a ∷ rest ↦ some (a ∷ rest) ];
  }

  -- `predicate`
  unfoldable pub predicate : Query N → Row → Result UnknownStatus Bool
  predicate q row =
      if not (in_chain q.workflow_id_chain row)
      then ok false
      else check_status q.statuses (to_execution_status row.status row.recorded_error)
          (not (mem_text (type_of row) q.type_not_in))

  unfoldable pub post_filter : Query N → Option (Row → Result UnknownStatus Bool)
  post_filter q =
      if not (needs_status q.statuses) && (no_items q.type_not_in && is_none q.workflow_id_chain)
      then none
      else some (predicate q)

  unfoldable pub aggregate_eligible : Query N → Bool
  aggregate_eligible q =
      no_items q.search_attributes
      && (is_none q.workflow_ids && (is_none q.workflow_id_chain && no_items q.type_not_in))
