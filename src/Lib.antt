-- ===== src/Lib.antt =====
-- A verification library for dbosify, which runs Temporal-style workflows on DBOS. Paths are from
-- the repository's root.
--
-- A client writes an input envelope and starts a workflow, which DBOS runs through a dispatcher.
-- The dispatcher runs the interpreter of the workflow's code in a loop, records its outcome, and may
-- enqueue the chain's next run, a workflow retry or a cron occurrence. Runs get messages through an
-- inbox. Activities on other queues run as workflows of their own. Lists of workflows are selected
-- by a query that is split into DBOS filters and a test of the rows.
--
-- Ids, Ids/Chain: dbosify/_internal/ids.py. Text is a list of code points. Run ids and their parsing;
--   `resolve_latest_run` with its batched lookup as a parameter. Its doubling loop has fuel, and fuel
--   above the newest index is enough; the refinement loop's fuel is the bracket's width.
-- Failure: dbosify/exceptions.py with `serialize_failure` and `deserialize_failure` of
--   dbosify/_internal/payloads.py. The payload converter is a parameter.
-- RunInput: `RunMeta`, `wrap_input`, `unwrap_input` and the stored retry policy of
--   dbosify/_internal/payloads.py.
-- Retry: `RetryPolicy` of dbosify/common.py, `retry_decision` and `effective_deadline` of
--   dbosify/_internal/activities.py, `_workflow_retry_delay` of dbosify/_internal/dispatcher.py.
-- QueuedActivity: dbosify/_internal/activity_workflow.py. The attempt step and the deliveries to a
--   parked activity are parameters; fuel above the policy's maximum of attempts is enough.
-- Inbox: dbosify/_internal/inbox.py, the messages and the event keys.
-- Status: dbosify/_internal/status.py.
-- Dispatcher/ChainHops: `dispatch`, `_continue_chain_after_failure`, `_drain_unconsumed_inbox`,
--   `_forward_carryover` and `_enqueue_next_run` of dbosify/_internal/dispatcher.py. Effects are a
--   list in their order.
-- Dispatcher/TaskLoop: `_run_workflow_task_loop` there; fuel above the number of failing executions
--   is enough.
-- Dispatcher/Schedule: `_schedule_fire`, `_apply_overlap_policy`, `_running_prior_occurrence` and
--   `_start_scheduled_action` there.
-- Visibility: dbosify/_internal/visibility.py: the tables and the query (Visibility), `_apply_clause`
--   (Clauses), `parse_query` from the tokens on (Parser, its fuel is the number of tokens and one),
--   `to_dbos_filters` and `post_filter` (Filters).
-- Interpreter/Signals: `_resolve`, `_apply_signal`, `runtime_set_handler` for signals and
--   `_flush_pending_handler_signals` of dbosify/_internal/interpreter.py, as steps on one state.
-- Interpreter/Updates: `_apply_update`, the replies of `_run_update_handler` and
--   `_fail_abandoned_updates` there.
-- Interpreter/Activities: the activities of dbosify/_internal/interpreter.py as one state with the
--   effects on the outside. The module has the start and the request to cancel, Attempts the
--   launch, retry and park of an attempt, Delivery the done waiters, the inbox's messages and the
--   timers of a park, and Loop the commands, the sweep and the pass of the loop. Reachable there
--   relates the states of a run to the numbers that its starts returned; it allows starts and
--   cancellations in any order between passes. Tracked and its children carry one test of an
--   activity's part of the state through every operation, and Races has the waits that end
--   together. An exception that leaves the loop has no state behind it.
-- Interpreter/Children: what a run that closes does to its children, `_sweep_children_on_close` and
--   `_terminate_child_tree` there. The recursion runs on fuel; one more than the ids that can be
--   reached is enough.
-- Cron: `interval_to_cron`, `calendar_to_cron` and `_ranges_to_field` of
--   dbosify/_internal/schedules.py. A field is a list of tokens; what croniter lets pass a token
--   is a parameter with the documented meaning of the forms that the code writes. Calendar, Interval
--   and Valid have the theorems on them.
-- Cron/Spec: the spec types of dbosify/_schedule.py, the document of a spec in a schedule's row, and
--   `compile_spec`. `parse_cron` and the text of a datetime are parameters.
-- Prelude: the shared names, Boolean tests, lists, text and results.
-- Witnesses: inputs at which the theorems apply.
--
-- Numbers are natural; durations are ticks of a millisecond, microseconds or seconds, as each file
-- says, and a fractional delay is rounded down. Not modelled: input and output through DBOS, the
-- conversion of Python values, reflection over decorated code, the client's and worker's facades, the
-- cron engine, the tokenizer's regular expression, and what the files above do not name.
pub mod Prelude
pub mod Ids
pub mod Failure
pub mod Retry
pub mod QueuedActivity
pub mod Status
pub mod RunInput
pub mod Inbox
pub mod Visibility
pub mod Interpreter
pub mod Dispatcher
pub mod Cron
pub mod Witnesses
