-- ===== src/Interpreter/Children/Swept.antt =====
-- What `_terminate_child_tree` of dbosify/_internal/interpreter.py leaves behind.
use dbosify_py.Prelude.{
  ℕ, zero, suc, ◌+◌, ◌≤◌, ◌≡◌, refl, subst, ◌⊎◌, inl, inr, Bool, true, false, ◌&&◌, ◌||◌, Option,
  some, List, [], ◌∷◌, ◌++◌, if◌then◌else◌, arith, Bool-cases, Option-cases,
}
use dbosify_py.Prelude.Text.{Text, text_eq, text_eq_refl, text_eq→eq}
use dbosify_py.Interpreter.Children.{
  mem_id, ClosePolicy, terminate, abandon, request_cancel, recorded_policy, ChildRow, CloseState,
  visit, cancel_workflow, send_cancel, sweep_rows, is_running, terminate_child_tree,
}

-- The rows that are to be terminated are among the visited.
unfoldable pub rows_visited : List ChildRow → List Text → Bool
rows_visited [] ids = true
rows_visited (row ∷ rows) ids = elim (recorded_policy row.policy) [
  | terminate ↦ mem_id row.id ids && rows_visited rows ids
  | _ ↦ rows_visited rows ids
]

unfoldable pub times : Text → List Text → ℕ
times r [] = 0
times r (x ∷ xs) = (if text_eq x r then 1 else 0) + times r xs

pub mem_id-append :
    (r : Text) (xs ys : List Text) → mem_id r (xs ++ ys) ≡ (mem_id r xs || mem_id r ys)
unfolding mem_id
mem_id-append r [] ys = refl
mem_id-append r (x ∷ xs) ys = ground (arith, mem_id-append r xs ys)

times_absent : (r : Text) (xs : List Text) → mem_id r xs ≡ false → times r xs ≡ 0
unfolding mem_id times
times_absent r [] h = refl
times_absent r (x ∷ xs) h = ground (arith, times_absent r xs)

times-append : (r : Text) (xs ys : List Text) → times r (xs ++ ys) ≡ times r xs + times r ys
unfolding times
times-append r [] ys = omega arith
times-append r (x ∷ xs) ys = omega (arith, times-append r xs ys)

pub policy-cases : (p : ClosePolicy) → (p ≡ terminate) ⊎ ((p ≡ abandon) ⊎ (p ≡ request_cancel))
policy-cases terminate = inl refl
policy-cases abandon = inr (inl refl)
policy-cases request_cancel = inr (inr refl)

abbrev pub Grows : List Text → List Text → Type 0
Grows xs ys = (v : Text) → mem_id v xs ≡ true → mem_id v ys ≡ true

rows_visited-Grows :
    (rows : List ChildRow) (xs ys : List Text)
    → Grows xs ys
    → rows_visited rows xs ≡ true
    → rows_visited rows ys ≡ true
unfolding rows_visited
rows_visited-Grows [] xs ys g h = refl
rows_visited-Grows (row ∷ rows) xs ys g h = elim (policy-cases (recorded_policy row.policy)) [
  | inl ends ↦ ground (arith, g row.id, rows_visited-Grows rows xs ys g)
  | inr (inl left) ↦ rw (left, rows_visited) (rows_visited-Grows rows xs ys g (ground arith))
  | inr (inr asked) ↦ rw (asked, rows_visited) (rows_visited-Grows rows xs ys g (ground arith))
]

module _ (current : Text → Text) (running : Text → Bool) (children_of : Text → List ChildRow) where
  -- What a call may do: it forgets nothing; what it visits is not running behind it; what it cancels
  -- was running, with the rows that are to be terminated visited; and it cancels no run twice.
  abbrev pub Sweeps : CloseState → CloseState → Type 0
  Sweeps st st' =
      Grows st.visited st'.visited
      × Grows st.cancelled_runs st'.cancelled_runs
      × ((v : Text)
          → mem_id v st'.visited ≡ true
          → (mem_id v st.visited ≡ true)
            ⊎ (is_running current running children_of (current v) st' ≡ false))
      × ((r : Text)
          → mem_id r st'.cancelled_runs ≡ true
          → (mem_id r st.cancelled_runs ≡ true)
            ⊎ ((running r ≡ true) × (rows_visited (children_of r) st'.visited ≡ true)))
      × ((r : Text) → times r st.cancelled_runs ≤ 1 → times r st'.cancelled_runs ≤ 1)

  still_stopped :
      (run : Text) (st st' : CloseState)
      → Grows st.cancelled_runs st'.cancelled_runs
      → is_running current running children_of run st ≡ false
      → is_running current running children_of run st' ≡ false
  unfolding is_running
  still_stopped run st st' g h = elim (Bool-cases (mem_id run st.cancelled_runs)) [
    | inl there ↦ ground (arith, g run there)
    | inr missing ↦ ground arith
  ]

  unchanged : (st : CloseState) → Sweeps st st
  unchanged st = (λ v h. h, λ v h. h, λ v h. inl h, λ r h. inl h, λ r h. h)

  then_also : (a b c : CloseState) → Sweeps a b → Sweeps b c → Sweeps a c
  then_also a b c (va, ca, sa, da, ta) (vb, cb, sb, db, tb) = (
    λ v h. vb v (va v h),
    λ r h. cb r (ca r h),
    λ v h. elim (sb v h) [
      | inr stopped ↦ inr stopped
      | inl before ↦ elim (sa v before) [
        | inl first ↦ inl first
        | inr stopped ↦ inr (still_stopped (current v) b c cb stopped)
      ]
    ],
    λ r h. elim (db r h) [
      | inr done ↦ inr done
      | inl before ↦ elim (da r before) [
        | inl first ↦ inl first
        | inr (ran, rows) ↦
            inr (ran, rows_visited-Grows (children_of r) b.visited c.visited vb rows)
      ]
    ],
    λ r h. tb r (ta r h),
  )

  pub sweep_rows-Sweeps :
      (recur : Text → CloseState → Option CloseState)
      → ((id : Text) (st st' : CloseState)
          → recur id st ≡ some st'
          → Sweeps st st' × (mem_id id st'.visited ≡ true))
      → (rows : List ChildRow) (st st' : CloseState) → sweep_rows recur rows st ≡ some st'
      → Sweeps st st' × (rows_visited rows st'.visited ≡ true)
  unfolding sweep_rows rows_visited
  sweep_rows-Sweeps recur kept [] st st' h =
      let same : st ≡ st' = ground arith in (subst (λ s. Sweeps st s) same (unchanged st), refl)
  sweep_rows-Sweeps recur kept (row ∷ rows) st st' h =
      elim (policy-cases (recorded_policy row.policy)) [
        | inr (inl left) ↦
            let (swept, rest) = sweep_rows-Sweeps recur kept rows st st' (ground arith) in
            (swept, rw (left, rows_visited) rest)
        | inr (inr asked) ↦
            let (swept, rest) =
              sweep_rows-Sweeps recur kept rows (send_cancel row.id st) st' (ground arith) in
            (swept, rw (asked, rows_visited) rest)
        | inl ends ↦ elim (Option-cases (recur row.id st)) [
          | inl missing ↦ absurd (ground arith)
          | inr (mid, called) ↦
              let (first, there) = kept row.id st mid called in
              let (swept, rest) = sweep_rows-Sweeps recur kept rows mid st' (ground arith) in
              (then_also st mid st' first swept, rw (ends, rows_visited, swept.0 row.id there) rest)
        ]
      ]

  -- A visit of an id whose run is not running.
  visited_only :
      (id : Text) (st : CloseState)
      → is_running current running children_of (current id) st ≡ false
      → Sweeps st (visit id st)
  unfolding mem_id is_running
  visited_only id st stopped = (
    λ v h. ground (arith, h),
    λ r h. h,
    λ v h. elim (Bool-cases (text_eq id v)) [
      | inl same ↦ inr (
          subst (λ x. is_running current running children_of (current x) (visit id st) ≡ false)
            (text_eq→eq id v same) stopped)
      | inr other ↦ inl (ground (arith, h))
    ],
    λ r h. inl h,
    λ r h. h,
  )

  -- A visit of an id whose run is cancelled, with what the sweep of its rows does.
  cancelled_and_swept :
      (id : Text) (st st' : CloseState)
      → mem_id id st.visited ≡ false
      → is_running current running children_of (current id) st ≡ true
      → Sweeps (cancel_workflow (current id) (visit id st)) st'
      → rows_visited (children_of (current id)) st'.visited ≡ true
      → Sweeps st st'
  unfolding mem_id times is_running
  cancelled_and_swept id st st' new runs (v1, c1, s1, d1, t1) rows =
      let run = current id in
      let gone : mem_id run st'.cancelled_runs ≡ true =
        c1 run (ground (arith, mem_id-append run st.cancelled_runs (run ∷ []), text_eq_refl run)) in
      (
        λ v h. v1 v (ground (arith, h)),
        λ r h. c1 r (ground (arith, h, mem_id-append r st.cancelled_runs (run ∷ []))),
        λ v h. elim (s1 v h) [
          | inr stopped ↦ inr stopped
          | inl before ↦ elim (Bool-cases (text_eq id v)) [
            | inl same ↦ inr (
                subst (λ x. is_running current running children_of (current x) st' ≡ false)
                  (text_eq→eq id v same) (ground (arith, gone)))
            | inr other ↦ inl (ground (arith, before))
          ]
        ],
        λ r h. elim (d1 r h) [
          | inr done ↦ inr done
          | inl before ↦ elim (Bool-cases (text_eq run r)) [
            | inl same ↦ inr (
                subst (λ x. (running x ≡ true) × (rows_visited (children_of x) st'.visited ≡ true))
                  (text_eq→eq run r same) (ground arith, rows))
            | inr other ↦ inl (ground (arith, before, mem_id-append r st.cancelled_runs (run ∷ [])))
          ]
        ],
        λ r h. t1 r (elim (Bool-cases (text_eq run r)) [
          | inl same ↦
              let absent : mem_id r st.cancelled_runs ≡ false =
                subst (λ x. mem_id x st.cancelled_runs ≡ false) (text_eq→eq run r same)
                  (ground arith) in
              ground (
                arith,
                times-append r st.cancelled_runs (run ∷ []),
                times_absent r st.cancelled_runs absent,
              )
          | inr other ↦ ground (arith, h, times-append r st.cancelled_runs (run ∷ []))
        ]),
      )

  pub tree-Sweeps :
      (fuel : ℕ) (id : Text) (st st' : CloseState)
      → terminate_child_tree current running children_of fuel id st ≡ some st'
      → Sweeps st st' × (mem_id id st'.visited ≡ true)
  unfolding terminate_child_tree mem_id
  tree-Sweeps zero id st st' h = absurd (ground arith)
  tree-Sweeps (suc fuel) id st st' h = elim (Bool-cases (mem_id id st.visited)) [
    | inl seen ↦
        let same : st ≡ st' = ground arith in
        (
          subst (λ s. Sweeps st s) same (unchanged st),
          subst (λ s. mem_id id s.visited ≡ true) same seen,
        )
    | inr new ↦ elim (Bool-cases (is_running current running children_of (current id) st)) [
      | inl runs ↦
          let (swept, rows) =
            sweep_rows-Sweeps (terminate_child_tree current running children_of fuel)
              (tree-Sweeps fuel) (children_of (current id))
              (cancel_workflow (current id) (visit id st)) st' (ground arith) in
          (
            cancelled_and_swept id st st' new runs swept rows,
            swept.0 id (ground (arith, text_eq_refl id)),
          )
      | inr stopped ↦
          let same : visit id st ≡ st' = ground arith in
          (
            subst (λ s. Sweeps st s) same (visited_only id st stopped),
            subst (λ s. mem_id id s.visited ≡ true) same (ground (arith, text_eq_refl id)),
          )
    ]
  ]
