-- ===== src/Status.antt =====
-- dbosify/_internal/status.py: the Temporal status of a DBOS workflow. `error_family` says which
-- class of dbosify/_internal/payloads.py the recorded error has.
use dbosify_py.Prelude.{Bool, true, false}
use dbosify_py.Prelude.Text.{Text}
use dbosify_py.Prelude.Result.{Result, ok, err}

pub data WorkflowExecutionStatus : Type 0 where
  running completed failed canceled terminated continued_as_new timed_out : WorkflowExecutionStatus

-- The status strings that the source knows; `unknown_status` is any other, or None.
pub data DbosStatus : Type 0 where
  pending enqueued delayed success error cancelled : DbosStatus
  max_recovery_attempts_exceeded : DbosStatus
  unknown_status : Text → DbosStatus

-- `isinstance(error, ...)`
pub data RecordedError : Type 0 where
  serialized_continue_as_new serialized_workflow_cancellation any_other : RecordedError

pub data UnknownStatus : Type 0 where
  unknown_dbos_status : Text → UnknownStatus

unfoldable pub of_error : RecordedError → WorkflowExecutionStatus
of_error serialized_continue_as_new = continued_as_new
of_error serialized_workflow_cancellation = canceled
of_error any_other = failed

unfoldable pub to_execution_status :
    DbosStatus → RecordedError → Result UnknownStatus WorkflowExecutionStatus
to_execution_status pending e = ok running
to_execution_status enqueued e = ok running
to_execution_status delayed e = ok running
to_execution_status success e = ok completed
to_execution_status error e = ok (of_error e)
to_execution_status cancelled e = ok terminated
to_execution_status max_recovery_attempts_exceeded e = ok running
to_execution_status (unknown_status s) e = err (unknown_dbos_status s)

unfoldable pub is_open : DbosStatus → Bool
is_open pending = true
is_open enqueued = true
is_open delayed = true
is_open _ = false
