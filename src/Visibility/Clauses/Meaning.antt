-- ===== src/Visibility/Clauses/Meaning.antt =====
-- What the clauses of a query ask of a run (dbosify/_internal/visibility.py).
use dbosify_py.Prelude.{
  ℕ, Bool, true, false, not, ◌&&◌, ◌||◌, ◌≡◌, refl, subst, Option, none, some, List, [], ◌∷◌, ◌++◌,
  map, keep, arith, leb, Bool-cases, inl, inr, ◌==◌,
}
use dbosify_py.Prelude.Result.{Result, ok, err}
use dbosify_py.Prelude.Text.{Text, text_eq→eq}
use dbosify_py.Status.{WorkflowExecutionStatus}
use dbosify_py.Visibility.{
  SystemField, workflow_type, workflow_id, execution_status, start_time, close_time, system_field,
  Op, equal, not_equal, less, less_equal, greater, greater_equal, in_list, begins_with, Value,
  scalar, listed, Query, QueryError, mem_text, mem_status, status_eq,
}
use dbosify_py.Visibility.Clauses.{
  tighten_lo, tighten_hi, values, str_of, parse_statuses, parse_datetime, at_datetime, narrowed,
  apply_type, apply_id, apply_status, apply_start, apply_close, apply_attribute, apply_field,
  apply_clause,
}

-- A run, as the clauses on its type, its status and its times see it.
pub record Facts : Type 0 where
  pub type_name : Text
  pub status : WorkflowExecutionStatus
  pub started : ℕ
  pub closed : ℕ

abbrev pub within : Option ℕ → Option ℕ → ℕ → Bool
within none none t = true
within none (some hi) t = leb t hi
within (some lo) none t = leb lo t
within (some lo) (some hi) t = leb lo t && leb t hi

abbrev pub one_of : Option (List Text) → Text → Bool
one_of none t = true
one_of (some ts) t = mem_text t ts

abbrev pub status_in : Option (List WorkflowExecutionStatus) → WorkflowExecutionStatus → Bool
status_in none s = true
status_in (some ss) s = mem_status s ss

-- The constraints that a query holds.
abbrev pub selects : {N : Type 0} → Query N → Facts → Bool
selects q f =
    one_of q.type_in f.type_name
    && (not (mem_text f.type_name q.type_not_in)
        && (status_in q.statuses f.status
            && (within q.start_time_lo q.start_time_hi f.started
                && within q.close_time_lo q.close_time_hi f.closed)))

-- A comparison with a time; a strict one is as its bound.
abbrev pub compares : Op → ℕ → ℕ → Bool
compares greater dt t = leb dt t
compares greater_equal dt t = leb dt t
compares less dt t = leb t dt
compares less_equal dt t = leb t dt
compares op dt t = t == dt

abbrev pub names_type : Op → List Text → Text → Bool
names_type not_equal names t = not (mem_text t names)
names_type op names t = mem_text t names

abbrev on_ok : {A : Type 0} → Result QueryError A → (A → Bool) → Bool
on_ok (err e) p = false
on_ok (ok a) p = p a

module _ {N : Type 0} (show : N → Text) (fromisoformat : Text → Option ℕ) where
  on_time : Op → Value N → Text → ℕ → Bool
  on_time op (listed vs) name t = false
  on_time op (scalar v) name t =
      on_ok (parse_datetime show fromisoformat v name) (λ dt. compares op dt t)

  -- What one clause asks; the clauses on ids and attributes ask nothing of these facts.
  unfoldable pub asks : Option SystemField → Text → Op → Value N → Facts → Bool
  unfolding on_time
  asks none name op v f = true
  asks (some workflow_id) name op v f = true
  asks (some workflow_type) name op v f = names_type op (map (str_of show) (values v)) f.type_name
  asks (some execution_status) name op v f =
      on_ok (parse_statuses show (values v)) (λ ss. mem_status f.status ss)
  asks (some start_time) name op v f = on_time op v name f.started
  asks (some close_time) name op v f = on_time op v name f.closed

mem-keep :
    (t : Text) (names ts : List Text)
    → mem_text t (keep (λ u. mem_text u names) ts) ≡ (mem_text t ts && mem_text t names)
mem-keep t names [] = refl
mem-keep t names (u ∷ ts) = elim (Bool-cases (mem_text u names)) [
  | inl there ↦ rw (there, keep) (ground (arith, mem-keep t names ts, text_eq→eq t u))
  | inr gone ↦ rw (gone, keep) (ground (arith, mem-keep t names ts, text_eq→eq t u))
]

status_eq→eq : (s t : WorkflowExecutionStatus) → status_eq s t ≡ true → s ≡ t
unfolding status_eq
status_eq→eq s t h = ground arith

mem_status-keep :
    (s : WorkflowExecutionStatus) (parsed ss : List WorkflowExecutionStatus)
    → mem_status s (keep (λ u. mem_status u parsed) ss) ≡ (mem_status s ss && mem_status s parsed)
mem_status-keep s parsed [] = refl
mem_status-keep s parsed (u ∷ ss) = elim (Bool-cases (mem_status u parsed)) [
  | inl there ↦ rw (there, keep) (ground (arith, mem_status-keep s parsed ss, status_eq→eq s u))
  | inr gone ↦ rw (gone, keep) (ground (arith, mem_status-keep s parsed ss, status_eq→eq s u))
]

mem-append_lem :
    (t : Text) (xs ys : List Text) → mem_text t (xs ++ ys) ≡ (mem_text t xs || mem_text t ys)
mem-append_lem t [] ys = refl
mem-append_lem t (x ∷ xs) ys = ground (arith, mem-append_lem t xs ys)

type_narrowed :
    (names : List Text) (old : Option (List Text)) (t : Text)
    → mem_text t (narrowed (λ u. mem_text u names) names old) ≡ (one_of old t && mem_text t names)
type_narrowed names none t = refl
type_narrowed names (some ts) t = mem-keep t names ts

status_narrowed :
    (parsed : List WorkflowExecutionStatus) (old : Option (List WorkflowExecutionStatus))
    (s : WorkflowExecutionStatus)
    → mem_status s (narrowed (λ u. mem_status u parsed) parsed old)
      ≡ (status_in old s && mem_status s parsed)
status_narrowed parsed none s = refl
status_narrowed parsed (some ss) s = mem_status-keep s parsed ss

within-tighten_lo :
    (lo hi : Option ℕ) (dt t : ℕ) → within (tighten_lo lo dt) hi t ≡ (within lo hi t && leb dt t)
within-tighten_lo none none dt t = refl
within-tighten_lo none (some h) dt t = ground arith
within-tighten_lo (some l) none dt t = ground arith
within-tighten_lo (some l) (some h) dt t = ground arith

within-tighten_hi :
    (lo hi : Option ℕ) (dt t : ℕ) → within lo (tighten_hi hi dt) t ≡ (within lo hi t && leb t dt)
within-tighten_hi none none dt t = refl
within-tighten_hi none (some h) dt t = ground arith
within-tighten_hi (some l) none dt t = ground arith
within-tighten_hi (some l) (some h) dt t = ground arith

within_equal :
    (lo hi : Option ℕ) (dt t : ℕ)
    → within (tighten_lo lo dt) (tighten_hi hi dt) t ≡ (within lo hi t && (t == dt))
within_equal lo hi dt t =
    ground (arith, within-tighten_lo lo (tighten_hi hi dt) dt t, within-tighten_hi lo hi dt t)

module _ {N : Type 0} (f : Facts) (q : Query N) where
  -- The query that comes out selects what the old one did and the clause asks.
  abbrev Narrows : Result QueryError (Query N) → Bool → Type 0
  Narrows (err e) b = Unit
  Narrows (ok q') b = selects q' f ≡ (selects q f && b)

  type_step :
      (name : Text) (op : Op) (names : List Text)
      → Narrows (apply_type q name op names) (names_type op names f.type_name)
  unfolding apply_type
  type_step name equal names = ground (arith, type_narrowed names q.type_in f.type_name)
  type_step name in_list names = ground (arith, type_narrowed names q.type_in f.type_name)
  type_step name not_equal names = ground (arith, mem-append_lem f.type_name q.type_not_in names)
  type_step name op names = tt

  id_step : (name : Text) (op : Op) (id : Text) → Narrows (apply_id q name op id) true
  unfolding apply_id
  id_step name equal id = ground arith
  id_step name begins_with id = ground arith
  id_step name op id = tt

  status_step :
      (parsed : Result QueryError (List WorkflowExecutionStatus))
      → Narrows (apply_status q parsed) (on_ok parsed (λ ss. mem_status f.status ss))
  unfolding apply_status
  status_step (err e) = tt
  status_step (ok ss) = ground (arith, status_narrowed ss q.statuses f.status)

  start_step :
      (name : Text) (op : Op) (dt : ℕ)
      → Narrows (apply_start q name op dt) (compares op dt f.started)
  unfolding apply_start
  start_step name op dt = ground (
    arith,
    within-tighten_lo q.start_time_lo q.start_time_hi dt f.started,
    within-tighten_hi q.start_time_lo q.start_time_hi dt f.started,
    within_equal q.start_time_lo q.start_time_hi dt f.started,
  )

  close_step :
      (name : Text) (op : Op) (dt : ℕ)
      → Narrows (apply_close q name op dt) (compares op dt f.closed)
  unfolding apply_close
  close_step name op dt = ground (
    arith,
    within-tighten_lo q.close_time_lo q.close_time_hi dt f.closed,
    within-tighten_hi q.close_time_lo q.close_time_hi dt f.closed,
    within_equal q.close_time_lo q.close_time_hi dt f.closed,
  )

  attribute_step :
      (name : Text) (op : Op) (v : Value N) → Narrows (apply_attribute q name op v) true
  unfolding apply_attribute
  attribute_step name equal (scalar v) = ground arith
  attribute_step name equal (listed vs) = tt
  attribute_step name op v = tt

  on_datetime :
      (read : Result QueryError ℕ) (next : ℕ → Result QueryError (Query N)) (holds : ℕ → Bool)
      → ((dt : ℕ) → Narrows (next dt) (holds dt))
      → Narrows (at_datetime read next) (on_ok read holds)
  unfolding at_datetime
  on_datetime (err e) next holds h = tt
  on_datetime (ok dt) next holds h = h dt

module _ {N : Type 0} (show : N → Text) (fromisoformat : Text → Option ℕ) (f : Facts)
    (q : Query N) where
  field_step :
      (field : Option SystemField) (name : Text) (op : Op) (v : Value N)
      → Narrows f q
          (apply_field show fromisoformat field q name op v)
          (asks show fromisoformat field name op v f)
  unfolding apply_field asks
  field_step none name op v = attribute_step f q name op v
  field_step (some workflow_type) name op v = type_step f q name op _
  field_step (some workflow_id) name op (scalar v) = id_step f q name op _
  field_step (some workflow_id) name op (listed vs) = tt
  field_step (some execution_status) name equal v = status_step f q _
  field_step (some execution_status) name in_list v = status_step f q _
  field_step (some execution_status) name op v = tt
  field_step (some start_time) name op (scalar v) = on_datetime f q _ _ _ (start_step f q name op)
  field_step (some start_time) name op (listed vs) = tt
  field_step (some close_time) name op (scalar v) = on_datetime f q _ _ _ (close_step f q name op)
  field_step (some close_time) name op (listed vs) = tt

  -- A clause that is accepted narrows the query: what comes out selects a run exactly where the
  -- query did before and the clause asks for the run's type, status or time. A strict comparison
  -- with a time counts as its bound does.
  pub selects-apply_clause :
      (name : Text) (op : Op) (v : Value N) (q' : Query N)
      → apply_clause show fromisoformat q name op v ≡ ok q'
      → selects q' f ≡ (selects q f && asks show fromisoformat (system_field name) name op v f)
  unfolding apply_clause
  selects-apply_clause name op v q' e =
      subst (λ r. Narrows f q r (asks show fromisoformat (system_field name) name op v f)) e
        (field_step (system_field name) name op v)
