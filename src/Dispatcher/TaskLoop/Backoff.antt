-- ===== src/Dispatcher/TaskLoop/Backoff.antt =====
-- How often a failing workflow task runs again, and after which delays
-- (dbosify/_internal/dispatcher.py).
use dbosify_py.Prelude.{
  ℕ, zero, suc, ◌+◌, ◌*◌, ◌^◌, ◌<◌, ◌≡◌, Bool, false, some, List, [], ◌∷◌, ◌++◌, arith, min, ap,
  sym, ◌∙◌, subst,
}
use mathlib.Core.List.{append_assoc, append-nil}
use dbosify_py.Dispatcher.TaskLoop.{
  Execution, outcome, task_failure, loop_outcome, task_loop, run_workflow_task_loop, task_retry_max,
}

-- The delay after the `k`-th failure: the initial one, then its doublings up to the maximum.
abbrev pub nth_backoff : ℕ → ℕ → ℕ
nth_backoff initial zero = initial
nth_backoff initial (suc k) = min (initial * 2 ^ suc k) task_retry_max

abbrev pub backoffs : ℕ → ℕ → ℕ → List ℕ
backoffs initial k zero = []
backoffs initial k (suc n) = nth_backoff initial k ∷ backoffs initial (k + 1) n

next_backoff :
    (initial k : ℕ) → min (nth_backoff initial k * 2) task_retry_max ≡ nth_backoff initial (k + 1)
next_backoff initial zero = ground arith
next_backoff initial (suc k) =
    let p = 2 ^ suc k in
    let q : initial * (2 ^ suc k * 2) ≡ initial * 2 ^ suc k * 2 = grind arith in ground arith

module _ {R C : Type 0} (execute : ℕ → ℕ → Execution R C) (start_function_id : ℕ) where
  abbrev pub Fails : ℕ → Type 0
  Fails n =
      (cause : C) × (cancelled : Bool) × (execute n start_function_id
        ≡ task_failure cause cancelled)

  loop_from :
      (n k fuel initial : ℕ) (r : R) (cancelled : Bool) (slept : List ℕ)
      → ((m : ℕ) → m < k + n → Fails m)
      → execute (k + n) start_function_id ≡ outcome r cancelled
      → n < fuel
      → task_loop execute false start_function_id fuel k (nth_backoff initial k) slept
        ≡ some (loop_outcome r cancelled, slept ++ backoffs initial k n)
  unfolding task_loop
  loop_from n k zero initial r cancelled slept fails ends f = absurd (omega arith)
  loop_from zero k (suc fuel) initial r cancelled slept fails ends f =
      let same : k + 0 ≡ k = omega arith in
      let e : execute k start_function_id ≡ outcome r cancelled =
        subst (λ j. execute j start_function_id ≡ outcome r cancelled) same ends in
      rw (e, task_loop) (ap (λ l. some (loop_outcome r cancelled, l)) (sym (append-nil slept)))
  loop_from (suc n) k (suc fuel) initial r cancelled slept fails ends f =
      let (cause, seen, e) = fails k (omega arith) in
      let same : k + suc n ≡ k + 1 + n = omega arith in
      let ends' : execute (k + 1 + n) start_function_id ≡ outcome r cancelled =
        subst (λ j. execute j start_function_id ≡ outcome r cancelled) same ends in
      let rest =
        loop_from n (k + 1) fuel initial r cancelled (slept ++ nth_backoff initial k ∷ [])
          (λ m h. fails m (omega arith)) ends' (omega arith) in
      rw (e, task_loop, next_backoff initial k)
        (rest ∙ ap (λ l. some (loop_outcome r cancelled, l)) (append_assoc slept _ _))

  -- Where the first `n` executions fail and the next one ends, the loop returns that outcome: each
  -- execution replays from the same function id, and the delays are the initial one and its
  -- doublings, each at most the maximum. Any fuel above `n` is enough.
  pub run_workflow_task_loop_lem :
      (n fuel initial : ℕ) (r : R) (cancelled : Bool)
      → ((m : ℕ) → m < n → Fails m)
      → execute n start_function_id ≡ outcome r cancelled
      → n < fuel
      → run_workflow_task_loop execute false start_function_id fuel (some initial)
        ≡ some (loop_outcome r cancelled, backoffs initial 0 n)
  unfolding run_workflow_task_loop
  run_workflow_task_loop_lem n fuel initial r cancelled fails ends f =
      let same : n ≡ 0 + n = omega arith in
      loop_from n 0 fuel initial r cancelled [] (λ m h. fails m (omega arith))
        (subst (λ j. execute j start_function_id ≡ outcome r cancelled) same ends) f
