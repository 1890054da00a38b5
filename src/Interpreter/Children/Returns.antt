-- ===== src/Interpreter/Children/Returns.antt =====
-- `_terminate_child_tree` of dbosify/_internal/interpreter.py returns, also where the recorded children
-- form a cycle.
use dbosify_py.Prelude.{
  ℕ, zero, suc, ◌+◌, ◌≤◌, ◌<◌, ◌≡◌, refl, sym, subst, inl, inr, Bool, true, false, Option, some,
  List, [], ◌∷◌, if◌then◌else◌, arith, Bool-cases, length,
}
use dbosify_py.Prelude.Text.{Text, text_eq, text_eq_refl, text_eq→eq, text_eq_sym}
use dbosify_py.Interpreter.Children.{
  mem_id, recorded_policy, ChildRow, CloseState, visit, cancel_workflow, send_cancel, sweep_rows,
  is_running, terminate_child_tree,
}
use dbosify_py.Interpreter.Children.Swept.{Grows, policy-cases, tree-Sweeps}
use dbosify_py.Interpreter.Children.Exact.{is_terminated}

-- How many of the known ids are not visited.
unfoldable left : List Text → List Text → ℕ
left [] ids = 0
left (x ∷ xs) ids = (if mem_id x ids then 0 else 1) + left xs ids

left_bounded : (known ids : List Text) → left known ids ≤ length known
unfolding left
left_bounded [] ids = omega arith
left_bounded (x ∷ xs) ids = ground (arith, left_bounded xs ids)

left-Grows : (known xs ys : List Text) → Grows xs ys → left known ys ≤ left known xs
unfolding left
left-Grows [] xs ys g = omega arith
left-Grows (k ∷ known) xs ys g = elim (Bool-cases (mem_id k xs)) [
  | inl there ↦ ground (arith, g k there, left-Grows known xs ys g)
  | inr missing ↦ ground (arith, left-Grows known xs ys g)
]

left_visit :
    (known : List Text) (id : Text) (ids : List Text)
    → mem_id id known ≡ true
    → mem_id id ids ≡ false
    → left known (id ∷ ids) < left known ids
unfolding left mem_id
left_visit [] id ids h new = absurd (ground arith)
left_visit (k ∷ known) id ids h new = elim (Bool-cases (text_eq k id)) [
  | inl same ↦
      let here : k ≡ id = text_eq→eq k id same in
      let seen : text_eq id k ≡ true =
        subst (λ x. text_eq id x ≡ true) (sym here) (text_eq_refl id) in
      let new' : mem_id k ids ≡ false = subst (λ x. mem_id x ids ≡ false) (sym here) new in
      let rest = left-Grows known ids (id ∷ ids) (λ v h. ground (arith, h)) in ground (arith, rest)
  | inr other ↦ ground (arith, left_visit known id ids, text_eq_sym k id other)
]

module _ (current : Text → Text) (running : Text → Bool) (children_of : Text → List ChildRow) where
  -- The known ids have, with the id of a chain, those that its newest run recorded to be terminated.
  abbrev pub IsClosed : List Text → Type 0
  IsClosed known =
      (v w : Text)
      → mem_id v known ≡ true
      → is_terminated w (children_of (current v)) ≡ true
      → mem_id w known ≡ true

  abbrev Returned : Option CloseState → Type 0
  Returned o = (st' : CloseState) × (o ≡ some st')

  grown :
      (fuel : ℕ) (id : Text) (st st' : CloseState)
      → terminate_child_tree current running children_of (suc fuel) id st ≡ some st'
      → (st' : CloseState) × (terminate_child_tree current running children_of (suc fuel) id st
          ≡ some st')
        × Grows st.visited st'.visited
  grown fuel id st st' h =
      (st', h, (tree-Sweeps current running children_of (suc fuel) id st st' h).0.0)

  sweep_rows-Returned :
      (known : List Text) (bound : ℕ) (recur : Text → CloseState → Option CloseState)
      → ((id : Text) (st : CloseState)
          → mem_id id known ≡ true
          → left known st.visited < bound
          → (st' : CloseState) × (recur id st ≡ some st') × Grows st.visited st'.visited)
      → (rows : List ChildRow) (st : CloseState)
      → ((w : Text) → is_terminated w rows ≡ true → mem_id w known ≡ true)
      → left known st.visited < bound
      → Returned (sweep_rows recur rows st)
  unfolding sweep_rows is_terminated
  sweep_rows-Returned known bound recur returns [] st inside small = (st, refl)
  sweep_rows-Returned known bound recur returns (row ∷ rows) st inside small =
      elim (policy-cases (recorded_policy row.policy)) [
        | inr (inl left_alone) ↦
            let (st', h) =
              sweep_rows-Returned known bound recur returns rows st
                (λ w t. inside w (ground (arith, t))) small in
            (st', ground (arith, h))
        | inr (inr asked) ↦
            let (st', h) =
              sweep_rows-Returned known bound recur returns rows (send_cancel row.id st)
                (λ w t. inside w (ground (arith, t))) small in
            (st', ground (arith, h))
        | inl ends ↦
            let (mid, called, grown) =
              returns row.id st (inside row.id (ground (arith, text_eq_refl row.id))) small in
            let (st', h) =
              sweep_rows-Returned known bound recur returns rows mid
                (λ w t. inside w (ground (arith, t)))
                (omega (arith, small, left-Grows known st.visited mid.visited grown)) in
            (st', ground (arith, h, called))
      ]

  tree-Returned :
      (known : List Text)
      → IsClosed known
      → (fuel : ℕ) (id : Text) (st : CloseState) → mem_id id known ≡ true
      → left known st.visited < fuel
      → (st' : CloseState) × (terminate_child_tree current running children_of fuel id st
          ≡ some st')
        × Grows st.visited st'.visited
  unfolding terminate_child_tree
  tree-Returned known closed zero id st inside small = absurd (omega arith)
  tree-Returned known closed (suc fuel) id st inside small =
      elim (Bool-cases (mem_id id st.visited)) [
        | inl seen ↦ grown fuel id st st (ground arith)
        | inr new ↦ elim (Bool-cases (is_running current running children_of (current id) st)) [
          | inr stopped ↦ grown fuel id st (visit id st) (ground arith)
          | inl runs ↦
              let (st', h) =
                sweep_rows-Returned known fuel
                  (terminate_child_tree current running children_of fuel)
                  (tree-Returned known closed fuel) (children_of (current id))
                  (cancel_workflow (current id) (visit id st)) (λ w t. closed id w inside t)
                  (omega (arith, small, left_visit known id st.visited inside new)) in
              grown fuel id st st' (ground (arith, h))
        ]
      ]

  -- With more fuel than there are known ids the sweep of a child's tree returns, whatever was visited
  -- before and also where the recorded children form a cycle, provided that the known ids have the
  -- child and are closed under the rows that are to be terminated.
  pub tree_returns :
      (known : List Text) (fuel : ℕ) (id : Text) (st : CloseState)
      → IsClosed known
      → mem_id id known ≡ true
      → length known < fuel
      → (st' : CloseState) × (terminate_child_tree current running children_of fuel id st
          ≡ some st')
  tree_returns known fuel id st closed inside enough =
      let (st', h, g) =
        tree-Returned known closed fuel id st inside
          (omega (arith, enough, left_bounded known st.visited)) in
      (st', h)
