-- ===== src/Interpreter/Children/Exact.antt =====
-- `_terminate_child_tree` of dbosify/_internal/interpreter.py cancels what it should, and nothing else.
use dbosify_py.Prelude.{
  ℕ, zero, suc, ◌≤◌, ◌≡◌, subst, ◌⊎◌, inl, inr, Bool, true, false, ◌||◌, Option, some, List, [],
  ◌∷◌, arith, Bool-cases, Option-cases,
}
use dbosify_py.Prelude.Text.{Text, text_eq, text_eq_refl, text_eq→eq}
use dbosify_py.Interpreter.Children.{
  mem_id, terminate, recorded_policy, ChildRow, CloseState, visit, cancel_workflow, send_cancel,
  sweep_rows, is_running, terminate_child_tree,
}
use dbosify_py.Interpreter.Children.Swept.{
  rows_visited, times, policy-cases, tree-Sweeps, mem_id-append,
}

-- A row of an id that is to be terminated.
unfoldable pub is_terminated : Text → List ChildRow → Bool
is_terminated w [] = false
is_terminated w (row ∷ rows) = elim (recorded_policy row.policy) [
  | terminate ↦ text_eq row.id w || is_terminated w rows
  | _ ↦ is_terminated w rows
]

visited_row :
    (w : Text) (rows : List ChildRow) (ids : List Text)
    → rows_visited rows ids ≡ true
    → is_terminated w rows ≡ true
    → mem_id w ids ≡ true
unfolding rows_visited is_terminated
visited_row w [] ids h t = absurd (ground arith)
visited_row w (row ∷ rows) ids h t = elim (policy-cases (recorded_policy row.policy)) [
  | inr (inl left) ↦ visited_row w rows ids (ground arith) (ground arith)
  | inr (inr asked) ↦ visited_row w rows ids (ground arith) (ground arith)
  | inl ends ↦ elim (Bool-cases (text_eq row.id w)) [
    | inl same ↦ subst (λ x. mem_id x ids ≡ true) (text_eq→eq row.id w same) (ground arith)
    | inr other ↦ visited_row w rows ids (ground arith) (ground arith)
  ]
]

abbrev pub untouched : CloseState
untouched = record { visited = []; cancelled_runs = []; requested = [] }

module _ (current : Text → Text) (running : Text → Bool) (children_of : Text → List ChildRow) where
  -- The ids to terminate: the root's, and those that the running run of one of them recorded.
  pub data Doomed (root : Text) : Text → Type 0 where
    itself : Doomed root root
    below :
        {v w : Text}
        → Doomed root v
        → running (current v) ≡ true
        → is_terminated w (children_of (current v)) ≡ true
        → Doomed root w

  -- Whatever is visited or cancelled was so before, or is doomed.
  abbrev Within : Text → CloseState → CloseState → Type 0
  Within root st st' =
      ((v : Text) → mem_id v st'.visited ≡ true → (mem_id v st.visited ≡ true) ⊎ Doomed root v)
      × ((r : Text)
          → mem_id r st'.cancelled_runs ≡ true
          → (mem_id r st.cancelled_runs ≡ true)
            ⊎ ((v : Text) × Doomed root v × (current v ≡ r) × (running r ≡ true)))

  then-Within :
      (root : Text) (a b c : CloseState) → Within root a b → Within root b c → Within root a c
  then-Within root a b c (va, ra) (vb, rb) = (
    λ v h. elim (vb v h) [ inr d ↦ inr d | inl before ↦ va v before ],
    λ r h. elim (rb r h) [ inr d ↦ inr d | inl before ↦ ra r before ],
  )

  sweep_rows-Within :
      (root : Text) (recur : Text → CloseState → Option CloseState)
      → ((id : Text) (st st' : CloseState)
          → Doomed root id
          → recur id st ≡ some st'
          → Within root st st')
      → (rows : List ChildRow) (st st' : CloseState)
      → ((w : Text) → is_terminated w rows ≡ true → Doomed root w)
      → sweep_rows recur rows st ≡ some st'
      → Within root st st'
  unfolding sweep_rows is_terminated
  sweep_rows-Within root recur kept [] st st' doomed h =
      let same : st ≡ st' = ground arith in
      subst (λ s. Within root st s) same (λ v h. inl h, λ r h. inl h)
  sweep_rows-Within root recur kept (row ∷ rows) st st' doomed h =
      elim (policy-cases (recorded_policy row.policy)) [
        | inr (inl left) ↦
            sweep_rows-Within root recur kept rows st st' (λ w t. doomed w (ground (arith, t)))
              (ground arith)
        | inr (inr asked) ↦
            sweep_rows-Within root recur kept rows (send_cancel row.id st) st'
              (λ w t. doomed w (ground (arith, t))) (ground arith)
        | inl ends ↦ elim (Option-cases (recur row.id st)) [
          | inl missing ↦ absurd (ground arith)
          | inr (mid, called) ↦
              then-Within root st mid st'
                (kept row.id st mid (doomed row.id (ground (arith, text_eq_refl row.id))) called)
                (sweep_rows-Within root recur kept rows mid st'
                  (λ w t. doomed w (ground (arith, t))) (ground arith))
        ]
      ]

  tree-Within :
      (root : Text) (fuel : ℕ) (id : Text) (st st' : CloseState)
      → Doomed root id
      → terminate_child_tree current running children_of fuel id st ≡ some st'
      → Within root st st'
  unfolding terminate_child_tree mem_id is_running
  tree-Within root zero id st st' d h = absurd (ground arith)
  tree-Within root (suc fuel) id st st' d h = elim (Bool-cases (mem_id id st.visited)) [
    | inl seen ↦
        let same : st ≡ st' = ground arith in
        subst (λ s. Within root st s) same (λ v h. inl h, λ r h. inl h)
    | inr new ↦ elim (Bool-cases (is_running current running children_of (current id) st)) [
      | inl runs ↦
          let run = current id in
          let ran : running run ≡ true = ground arith in
          then-Within root st (cancel_workflow run (visit id st)) st'
            (
              λ v h. elim (Bool-cases (text_eq id v)) [
                | inl same ↦ inr (subst (λ x. Doomed root x) (text_eq→eq id v same) d)
                | inr other ↦ inl (ground (arith, h))
              ],
              λ r h. elim (Bool-cases (text_eq run r)) [
                | inl same ↦ inr (
                  id,
                  d,
                  text_eq→eq run r same,
                  subst (λ x. running x ≡ true) (text_eq→eq run r same) ran,
                )
                | inr other ↦ inl (ground (arith, h, mem_id-append r st.cancelled_runs (run ∷ [])))
              ],
            )
            (sweep_rows-Within root (terminate_child_tree current running children_of fuel)
              (tree-Within root fuel) (children_of run) (cancel_workflow run (visit id st)) st'
              (λ w t. below d ran t) (ground arith))
      | inr stopped ↦
          let same : visit id st ≡ st' = ground arith in
          subst (λ s. Within root st s) same
            (
              λ v h. elim (Bool-cases (text_eq id v)) [
                | inl same' ↦ inr (subst (λ x. Doomed root x) (text_eq→eq id v same') d)
                | inr other ↦ inl (ground (arith, h))
              ],
              λ r h. inl h,
            )
    ]
  ]

  Doomed-visited :
      (root : Text) (st' : CloseState)
      → mem_id root st'.visited ≡ true
      → ((v : Text)
          → mem_id v st'.visited ≡ true
          → running (current v) ≡ true
          → rows_visited (children_of (current v)) st'.visited ≡ true)
      → (v : Text) → Doomed root v
      → mem_id v st'.visited ≡ true
  Doomed-visited root st' first rows _ itself = first
  Doomed-visited root st' first rows _ (below {v} {w} d ran t) =
      visited_row w (children_of (current v)) st'.visited
        (rows v (Doomed-visited root st' first rows v d) ran) t

  -- A sweep of a child's tree that returns has cancelled, each once, exactly the runs that were running
  -- and are the newest of a doomed chain: the child's, and those that the cancelled runs recorded with
  -- a policy that terminates.
  pub tree_exact :
      (fuel : ℕ) (root : Text) (st' : CloseState)
      → terminate_child_tree current running children_of fuel root untouched ≡ some st'
      → ((v : Text)
          → Doomed root v
          → running (current v) ≡ true
          → mem_id (current v) st'.cancelled_runs ≡ true)
        × ((r : Text)
            → mem_id r st'.cancelled_runs ≡ true
            → (v : Text) × Doomed root v × (current v ≡ r) × (running r ≡ true))
        × ((r : Text) → times r st'.cancelled_runs ≤ 1)
  unfolding mem_id times is_running
  tree_exact fuel root st' h =
      let ((v1, c1, s1, d1, t1), first) =
        tree-Sweeps current running children_of fuel root untouched st' h in
      let (w1, r1) = tree-Within root fuel root untouched st' itself h in
      let cancelled_one : (v : Text)
          → mem_id v st'.visited ≡ true
          → running (current v) ≡ true
          → mem_id (current v) st'.cancelled_runs ≡ true =
        λ v seen ran. elim (s1 v seen) [
          | inl never ↦ absurd (ground arith)
          | inr stopped ↦ ground arith
        ] in
      let rows : (v : Text)
          → mem_id v st'.visited ≡ true
          → running (current v) ≡ true
          → rows_visited (children_of (current v)) st'.visited ≡ true =
        λ v seen ran. elim (d1 (current v) (cancelled_one v seen ran)) [
          | inl never ↦ absurd (ground arith)
          | inr (was, done) ↦ done
        ] in
      (
        λ v d ran. cancelled_one v (Doomed-visited root st' first rows v d) ran,
        λ r there. elim (r1 r there) [ inl never ↦ absurd (ground arith) | inr d ↦ d ],
        λ r. t1 r (omega arith),
      )
