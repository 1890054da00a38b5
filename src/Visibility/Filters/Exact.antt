-- ===== src/Visibility/Filters/Exact.antt =====
-- The DBOS status filter and the row test of dbosify/_internal/visibility.py together select the
-- rows that a query means.
use dbosify_py.Prelude.{◌⊎◌, Bool, true, false, not, ◌&&◌, ◌≡◌, Option, none, some, List, [], ◌++◌}
use dbosify_py.Prelude.Result.{Result, ok}
use dbosify_py.Prelude.Text.{Text, text}
use dbosify_py.Status.{WorkflowExecutionStatus, DbosStatus, UnknownStatus}
use dbosify_py.Visibility.{Query, temporal_to_dbos, mem_status, mem_text}
use dbosify_py.Visibility.Filters.{
  mem_dbos, dbos_statuses, Row, in_chain, type_of, to_dbos_filters, post_filter,
}

abbrev covers : DbosStatus → WorkflowExecutionStatus → Bool
covers d s = mem_dbos d (temporal_to_dbos s)

-- The query's statuses, as a reader means them.
abbrev pub in_statuses : Option (List WorkflowExecutionStatus) → WorkflowExecutionStatus → Bool
in_statuses none s = true
in_statuses (some ss) s = mem_status s ss

-- A row that DBOS's status filter lets through.
abbrev pub passes_status : Option (List DbosStatus) → DbosStatus → Bool
passes_status none d = true
passes_status (some ds) d = mem_dbos d ds

abbrev as_filter : Option (List WorkflowExecutionStatus) → Option (List DbosStatus)
as_filter statuses = elim statuses [ none ↦ none | some ss ↦ some (dbos_statuses [] ss) ]

-- The row is the base run, or its id goes on from the base id with "--r".
abbrev pub IsInChain : Option Text → Row → Type 0
IsInChain none row = Unit
IsInChain (some x) row =
    (row.workflow_id ≡ x) ⊎ ((rest : Text) × (row.workflow_id ≡ (x ++ text "--r") ++ rest))

-- The workflow type that the row's name stands for: what follows its "wf:", else the whole name.
abbrev pub IsTypeName : Option Text → Text → Type 0
IsTypeName none ty = ty ≡ []
IsTypeName (some n) ty =
    (n ≡ text "wf:" ++ ty) ⊎ (((rest : Text) → n ≡ text "wf:" ++ rest → ⊥) × (ty ≡ n))

module _ {N : Type 0} (q : Query N) (row : Row) where
  abbrev pub listed_by_dbos : Bool
  listed_by_dbos = passes_status (to_dbos_filters q).status row.status

  abbrev pub kept : Result UnknownStatus Bool
  kept = elim (post_filter q) [ none ↦ ok true | some p ↦ p row ]

  -- What the code tests of a row whose Temporal status is `s`.
  abbrev tested : WorkflowExecutionStatus → Bool
  tested s =
      in_chain q.workflow_id_chain row
      && (in_statuses q.statuses s && not (mem_text (type_of row) q.type_not_in))

  -- What the query asks of a row whose Temporal status is `s`, as to its chain, status and type.
  abbrev pub IsMeant : WorkflowExecutionStatus → Type 0
  IsMeant s =
      IsInChain q.workflow_id_chain row
      × (in_statuses q.statuses s ≡ true)
      × (ty : Text) × IsTypeName row.name ty
      × (mem_text ty q.type_not_in ≡ false)
