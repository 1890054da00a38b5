-- ===== src/Visibility/Clauses.antt =====
-- `_apply_clause` of dbosify/_internal/visibility.py.
pub mod Meaning
use dbosify_py.Prelude.{
  ℕ, String, Bool, true, false, ◌||◌, Option, none, some, List, [], ◌∷◌, ◌++◌, keep, map,
  if◌then◌else◌, max, min,
}
use dbosify_py.Prelude.Result.{Result, ok, err}
use dbosify_py.Prelude.Text.{Text, text, text_eq}
use dbosify_py.Status.{WorkflowExecutionStatus}
use dbosify_py.Visibility.{
  lower, SystemField, workflow_type, workflow_id, execution_status, start_time, close_time,
  system_field, status_by_name, Op, equal, not_equal, less, less_equal, greater, greater_equal,
  in_list, begins_with, Scalar, literal, number, boolean, Value, scalar, listed, Query, QueryError,
  unsupported_operator, unsupported_list, unknown_execution_status, not_a_datetime, mem_text,
  mem_status,
}

abbrev pub tighten_lo : Option ℕ → ℕ → Option ℕ
tighten_lo none dt = some dt
tighten_lo (some cur) dt = some (max cur dt)

abbrev pub tighten_hi : Option ℕ → ℕ → Option ℕ
tighten_hi none dt = some dt
tighten_hi (some cur) dt = some (min cur dt)

module _ {N : Type 0} where
  -- The values of a clause: a list's items, or the one value.
  unfoldable pub values : Value N → List (Scalar N)
  values (scalar v) = v ∷ []
  values (listed vs) = vs

  abbrev pub is_list : Value N → Bool
  is_list (scalar v) = false
  is_list (listed vs) = true

  -- `q.search_attributes[name] = value`
  unfoldable pub set_attribute : Text → Scalar N → List (Text × Scalar N) → List (Text × Scalar N)
  set_attribute name value [] = (name, value) ∷ []
  set_attribute name value ((n, v) ∷ rest) =
      if text_eq n name then (n, value) ∷ rest else (n, v) ∷ set_attribute name value rest

module _ {N : Type 0} (show : N → Text) where
  -- `str(v)`
  unfoldable pub str_of : Scalar N → Text
  str_of (literal t) = t
  str_of (number n) = show n
  str_of (boolean true) = text "True"
  str_of (boolean false) = text "False"

  -- The `for` loop over the values of an ExecutionStatus clause.
  unfoldable pub parse_statuses : List (Scalar N) → Result QueryError (List WorkflowExecutionStatus)
  parse_statuses [] = ok []
  parse_statuses (v ∷ vs) = elim (status_by_name (lower (str_of v))) [
    | none ↦ err (unknown_execution_status (str_of v))
    | some s ↦ elim (parse_statuses vs) [ err e ↦ err e | ok ss ↦ ok (s ∷ ss) ]
  ]

-- Repeated positive clauses intersect; a first one sets the list.
abbrev pub narrowed : {A : Type 0} → (A → Bool) → List A → Option (List A) → List A
narrowed kept items none = items
narrowed kept items (some old) = keep kept old

module _ {N : Type 0} where
  unfoldable pub apply_type : Query N → Text → Op → List Text → Result QueryError (Query N)
  apply_type q name equal names =
      ok (record q { type_in = some (narrowed (λ t. mem_text t names) names q.type_in) })
  apply_type q name in_list names =
      ok (record q { type_in = some (narrowed (λ t. mem_text t names) names q.type_in) })
  apply_type q name not_equal names = ok (record q { type_not_in = q.type_not_in ++ names })
  apply_type q name op names = err (unsupported_operator name op)

  unfoldable pub apply_id : Query N → Text → Op → Text → Result QueryError (Query N)
  apply_id q name equal id = ok (record q { workflow_id_chain = some id })
  apply_id q name begins_with id = ok (record q { workflow_id_prefix = some id })
  apply_id q name op id = err (unsupported_operator name op)

  -- The statuses that are already there are kept where the clause names them too.
  unfoldable pub apply_status :
      Query N → Result QueryError (List WorkflowExecutionStatus) → Result QueryError (Query N)
  apply_status q (err e) = err e
  apply_status q (ok parsed) =
      ok (record q { statuses = some (narrowed (λ s. mem_status s parsed) parsed q.statuses) })

  unfoldable pub apply_start : Query N → Text → Op → ℕ → Result QueryError (Query N)
  apply_start q name greater dt = ok (record q { start_time_lo = tighten_lo q.start_time_lo dt })
  apply_start q name greater_equal dt =
      ok (record q { start_time_lo = tighten_lo q.start_time_lo dt })
  apply_start q name less dt = ok (record q { start_time_hi = tighten_hi q.start_time_hi dt })
  apply_start q name less_equal dt = ok (record q { start_time_hi = tighten_hi q.start_time_hi dt })
  apply_start q name equal dt = ok (record q {
    start_time_lo = tighten_lo q.start_time_lo dt;
    start_time_hi = tighten_hi q.start_time_hi dt;
  })
  apply_start q name op dt = err (unsupported_operator name op)

  unfoldable pub apply_close : Query N → Text → Op → ℕ → Result QueryError (Query N)
  apply_close q name greater dt = ok (record q { close_time_lo = tighten_lo q.close_time_lo dt })
  apply_close q name greater_equal dt =
      ok (record q { close_time_lo = tighten_lo q.close_time_lo dt })
  apply_close q name less dt = ok (record q { close_time_hi = tighten_hi q.close_time_hi dt })
  apply_close q name less_equal dt = ok (record q { close_time_hi = tighten_hi q.close_time_hi dt })
  apply_close q name equal dt = ok (record q {
    close_time_lo = tighten_lo q.close_time_lo dt;
    close_time_hi = tighten_hi q.close_time_hi dt;
  })
  apply_close q name op dt = err (unsupported_operator name op)

  unfoldable pub at_datetime :
      Result QueryError ℕ → (ℕ → Result QueryError (Query N)) → Result QueryError (Query N)
  at_datetime (err e) k = err e
  at_datetime (ok dt) k = k dt

  unfoldable pub apply_attribute : Query N → Text → Op → Value N → Result QueryError (Query N)
  apply_attribute q name equal (scalar v) =
      ok (record q { search_attributes = set_attribute name v q.search_attributes })
  apply_attribute q name equal (listed vs) = err (unsupported_list name)
  apply_attribute q name op v = err (unsupported_operator name op)

module _ {N : Type 0} (show : N → Text) (fromisoformat : Text → Option ℕ) where
  -- `_parse_datetime`: only a string is read.
  unfoldable pub parse_datetime : Scalar N → Text → Result QueryError ℕ
  parse_datetime (literal t) name = elim (fromisoformat t) [
    | none ↦ err (not_a_datetime name)
    | some dt ↦ ok dt
  ]
  parse_datetime (number n) name = err (not_a_datetime name)
  parse_datetime (boolean b) name = err (not_a_datetime name)

  -- The branch of a system field; `none` is a search attribute.
  unfoldable pub apply_field :
      Option SystemField → Query N → Text → Op → Value N → Result QueryError (Query N)
  apply_field (some workflow_type) q name op v = apply_type q name op (map (str_of show) (values v))
  apply_field (some workflow_id) q name op (scalar v) = apply_id q name op (str_of show v)
  apply_field (some workflow_id) q name op (listed vs) = err (unsupported_list name)
  apply_field (some execution_status) q name equal v =
      apply_status q (parse_statuses show (values v))
  apply_field (some execution_status) q name in_list v =
      apply_status q (parse_statuses show (values v))
  apply_field (some execution_status) q name op v = err (unsupported_operator name op)
  apply_field (some start_time) q name op (scalar v) =
      at_datetime (parse_datetime v name) (apply_start q name op)
  apply_field (some start_time) q name op (listed vs) = err (unsupported_list name)
  apply_field (some close_time) q name op (scalar v) =
      at_datetime (parse_datetime v name) (apply_close q name op)
  apply_field (some close_time) q name op (listed vs) = err (unsupported_list name)
  apply_field none q name op v = apply_attribute q name op v

  unfoldable pub apply_clause : Query N → Text → Op → Value N → Result QueryError (Query N)
  apply_clause q name op v = apply_field (system_field name) q name op v
