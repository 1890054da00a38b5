-- ===== src/Visibility.antt =====
-- dbosify/_internal/visibility.py: a visibility query's clauses, the filters that DBOS applies and
-- the test of the rows that come back. Numbers are a parameter with their text, datetimes are
-- natural numbers that a parameter reads, and case folding is that of ASCII.
pub mod Parser
pub mod Filters
pub mod Clauses
use dbosify_py.Prelude.{
  ℕ, ◌+◌, String, Bool, true, false, not, ◌&&◌, ◌||◌, Option, none, some, List, [], ◌∷◌, ◌++◌, map,
  any, keep, if◌then◌else◌, leb, max, min, is_some, is_none,
}
use dbosify_py.Prelude.Result.{Result, ok, err}
use dbosify_py.Prelude.Text.{Text, text, text_eq, starts_with}
use dbosify_py.Ids.{run_separator}
use dbosify_py.Status.{
  WorkflowExecutionStatus, running, completed, failed, canceled, terminated, continued_as_new,
  timed_out, DbosStatus, pending, enqueued, delayed, success, error, cancelled,
  max_recovery_attempts_exceeded, RecordedError, UnknownStatus, to_execution_status,
}

abbrev pub lower_code : ℕ → ℕ
lower_code c = if leb 65 c && leb c 90 then c + 32 else c

unfoldable pub lower : Text → Text
lower s = map lower_code s

pub data SystemField : Type 0 where
  workflow_type workflow_id execution_status start_time close_time : SystemField

unfoldable pub system_field : Text → Option SystemField
system_field name =
    let key = lower name in
    if text_eq key (text "workflowtype")
    then some workflow_type
    else if text_eq key (text "workflowid")
    then some workflow_id
    else if text_eq key (text "executionstatus")
    then some execution_status
    else if text_eq key (text "starttime")
    then some start_time
    else if text_eq key (text "closetime")
    then some close_time
    else none

unfoldable pub status_by_name : Text → Option WorkflowExecutionStatus
status_by_name key =
    if text_eq key (text "running")
    then some running
    else if text_eq key (text "completed")
    then some completed
    else if text_eq key (text "failed")
    then some failed
    else if text_eq key (text "canceled") || text_eq key (text "cancelled")
    then some canceled
    else if text_eq key (text "terminated")
    then some terminated
    else if text_eq key (text "continuedasnew") || text_eq key (text "continued_as_new")
    then some continued_as_new
    else if text_eq key (text "timedout") || text_eq key (text "timed_out")
    then some timed_out
    else none

unfoldable pub temporal_to_dbos : WorkflowExecutionStatus → List DbosStatus
temporal_to_dbos running = pending ∷ enqueued ∷ delayed ∷ max_recovery_attempts_exceeded ∷ []
temporal_to_dbos completed = success ∷ []
temporal_to_dbos terminated = cancelled ∷ []
temporal_to_dbos failed = error ∷ []
temporal_to_dbos canceled = error ∷ []
temporal_to_dbos timed_out = error ∷ []
temporal_to_dbos continued_as_new = error ∷ []

pub data Op : Type 0 where
  equal not_equal less less_equal greater greater_equal in_list begins_with : Op

-- A scalar of the query: a string or bare word, a number, or a Boolean word.
pub data Scalar (N : Type 0) : Type 0 where
  literal : Text → Scalar N
  number : N → Scalar N
  boolean : Bool → Scalar N

pub data Value (N : Type 0) : Type 0 where
  scalar : Scalar N → Value N
  listed : List (Scalar N) → Value N

pub data GroupField : Type 0 where
  by_execution_status by_workflow_type : GroupField

-- `VisibilityQuery`; the set of statuses and the dictionary of attributes are lists.
pub record Query (N : Type 0) : Type 0 where
  pub type_in : Option (List Text)
  pub type_not_in : List Text
  pub workflow_ids : Option (List Text)
  pub workflow_id_prefix : Option Text
  pub workflow_id_chain : Option Text
  pub statuses : Option (List WorkflowExecutionStatus)
  pub start_time_lo : Option ℕ
  pub start_time_hi : Option ℕ
  pub close_time_lo : Option ℕ
  pub close_time_hi : Option ℕ
  pub search_attributes : List (Text × Scalar N)
  pub group_by : Option GroupField

abbrev pub new_query : {N : Type 0} → Query N
new_query = record {
  type_in = none;
  type_not_in = [];
  workflow_ids = none;
  workflow_id_prefix = none;
  workflow_id_chain = none;
  statuses = none;
  start_time_lo = none;
  start_time_hi = none;
  close_time_lo = none;
  close_time_hi = none;
  search_attributes = [];
  group_by = none;
}

-- The refusals, by what the message names.
pub data QueryError : Type 0 where
  unsupported_operator : (field_name : Text) → Op → QueryError
  unsupported_list : (field_name : Text) → QueryError
  unknown_execution_status : Text → QueryError
  not_a_datetime : (field_name : Text) → QueryError
  syntax_error : String → QueryError

abbrev pub mem_text : Text → List Text → Bool
mem_text t ts = any (text_eq t) ts

unfoldable pub status_eq : WorkflowExecutionStatus → WorkflowExecutionStatus → Bool
status_eq running running = true
status_eq completed completed = true
status_eq failed failed = true
status_eq canceled canceled = true
status_eq terminated terminated = true
status_eq continued_as_new continued_as_new = true
status_eq timed_out timed_out = true
status_eq _ _ = false

abbrev pub mem_status : WorkflowExecutionStatus → List WorkflowExecutionStatus → Bool
mem_status s ss = any (status_eq s) ss
