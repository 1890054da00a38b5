-- ===== src/Retry/Bounds.antt =====
-- When an activity is retried, and after which delay (dbosify/_internal/activities.py).
use native.Mathlib.Nat.{
  pow-le-pow_left, one-le-pow, le-div_iff_mul-le, mul-div-mul_right, pow-suc, mul-le-mul_left,
  div-mul-le_self, le_trans, pow-zero,
}
use dbosify_py.Prelude.{
  ℕ, zero, suc, ◌+◌, ◌-◌, ◌*◌, ◌/◌, ◌^◌, ◌≤◌, ◌<◌, ◌≡◌, ◌≢◌, refl, ap, false, Option, none, some,
  arith, min, leb, Bool-cases, inl, inr,
}
use dbosify_py.Prelude.Result.{ok, Result-cases}
use dbosify_py.Failure.{Fields, RetryState}
use dbosify_py.Retry.{
  RetryPolicy, Span, overflows, validate, is_non_retryable_type, backoff, activity_cap,
  delay_with_cap, attempts_exhausted, budget_exhausted, is_budget_timeout, retry_decision,
  effective_deadline, Bound, by_start_to_close, by_schedule_to_close,
}

-- A policy that `_validate` accepts where it allows retries.
abbrev pub IsValid : RetryPolicy → Type 0
IsValid p = (validate p ≡ ok tt) × (p.maximum_attempts ≢ 1) × (0 < p.backoff_coefficient.den)

num-le : (p : RetryPolicy) → IsValid p → p.backoff_coefficient.den ≤ p.backoff_coefficient.num
unfolding validate
num-le p v = ground arith

div_mono : (x y d e : ℕ) → 0 < e → d ≡ e → x ≤ y → x / d ≤ y / e
div_mono x y d e pos same le =
    (le-div_iff_mul-le pos).1 (rw (← same) (le_trans (div-mul-le_self x d) le))

module _ (a num den : ℕ) (pos : 0 < den) (le : den ≤ num) where
  scaled_up : (k : ℕ) → a ≤ (a * num ^ k) / den ^ k
  scaled_up k = (le-div_iff_mul-le (one-le-pow k den pos)).1 (grind (arith, pow-le-pow_left le k))

  scaled_mono : (k : ℕ) → (a * num ^ k) / den ^ k ≤ (a * num ^ suc k) / den ^ suc k
  scaled_mono k = rw (← mul-div-mul_right (a * num ^ k) (den ^ k) pos) (
      div_mono (a * num ^ k * den) (a * num ^ suc k) (den ^ k * den) (den ^ suc k)
        (one-le-pow (suc k) den pos) (rw pow-suc refl)
        (rw pow-suc (grind (arith, mul-le-mul_left (a * num ^ k) le))))

backoff_ok :
    (p : RetryPolicy) (attempt k b : ℕ)
    → attempt - 1 ≡ k
    → backoff p attempt ≡ ok b
    → b ≡ (p.initial_interval * p.backoff_coefficient.num ^ k) / p.backoff_coefficient.den ^ k
unfolding backoff
backoff_ok p attempt k b e h = rw (← e) (ground arith)

first_finite : (p : RetryPolicy) → overflows p 1 ≡ false
unfolding overflows
first_finite p = rw (pow-zero p.backoff_coefficient.num, pow-zero p.backoff_coefficient.den) refl

backoff_first : (p : RetryPolicy) → backoff p 1 ≡ ok p.initial_interval
unfolding backoff
backoff_first p =
    rw (first_finite p, pow-zero p.backoff_coefficient.num, pow-zero p.backoff_coefficient.den)
      (ap ok (omega arith))

-- For a policy that `_validate` accepts, the backoff after the first attempt is the initial interval,
-- and while it does not overflow it never falls from one attempt to the next.
pub backoff_mono :
    (p : RetryPolicy) (attempt b c : ℕ)
    → IsValid p
    → 1 ≤ attempt
    → backoff p attempt ≡ ok b
    → backoff p (attempt + 1) ≡ ok c
    → (backoff p 1 ≡ ok p.initial_interval) × (p.initial_interval ≤ b) × (b ≤ c)
backoff_mono p zero b c v h eb ec = absurd (omega arith)
backoff_mono p (suc k) b c v h eb ec =
    let a = p.initial_interval in
    let num = p.backoff_coefficient.num in
    let den = p.backoff_coefficient.den in
    (
      backoff_first p,
      rw (backoff_ok p (suc k) k b (omega arith) eb) (scaled_up a num den v.2 (num-le p v) k),
      rw
          (
            backoff_ok p (suc k) k b (omega arith) eb,
            backoff_ok p (suc k + 1) (suc k) c (omega arith) ec,
          )
          (scaled_mono a num den v.2 (num-le p v) k),
    )

backoff_from :
    (p : RetryPolicy) (attempt b : ℕ)
    → IsValid p
    → 1 ≤ attempt
    → backoff p attempt ≡ ok b
    → p.initial_interval ≤ b
backoff_from p zero b v h eb = absurd (omega arith)
backoff_from p (suc k) b v h eb = rw (backoff_ok p (suc k) k b (omega arith) eb) (
    scaled_up p.initial_interval p.backoff_coefficient.num p.backoff_coefficient.den v.2
      (num-le p v) k)

initial-le-activity_cap : (p : RetryPolicy) → IsValid p → p.initial_interval ≤ activity_cap p
unfolding validate activity_cap
initial-le-activity_cap p v = ground arith

-- What a retry after `delay` rests on.
pub record MayRetry {P : Type 0} (p : RetryPolicy) (attempt : ℕ) (f : Fields P)
    (elapsed : Option Span) (budget : Option ℕ) (delay : ℕ) : Type 0 where
  pub retryable : f.non_retryable ≡ false
  pub type_allowed : is_non_retryable_type f.type_name p.non_retryable_error_types ≡ false
  pub not_budget_timeout : is_budget_timeout f ≡ false
  pub attempts_left : p.maximum_attempts ≢ 0 → attempt < p.maximum_attempts
  pub in_budget :
      (spent : Span) (b : ℕ)
      → elapsed ≡ some spent
      → budget ≡ some b
      → spent.until + delay < b + spent.since
  pub delay_lem : delay_with_cap p attempt f.next_retry_delay (activity_cap p) ≡ ok delay

module _ {P : Type 0} (p : RetryPolicy) (attempt : ℕ) (f : Fields P) (elapsed : Option Span)
    (budget : Option ℕ) (delay : ℕ) where
  retry_sound :
      (state : RetryState)
      → retry_decision p attempt f elapsed budget ≡ ok (some delay, state)
      → MayRetry p attempt f elapsed budget delay
  unfolding retry_decision attempts_exhausted budget_exhausted
  retry_sound state h = ground arith

  capped :
      (b : ℕ)
      → f.next_retry_delay ≡ none
      → delay_with_cap p attempt f.next_retry_delay (activity_cap p) ≡ ok delay
      → backoff p attempt ≡ ok b
      → delay ≡ min b (activity_cap p)
  unfolding delay_with_cap
  capped b own h e = ground arith

  -- Under a policy that `_validate` accepts, a delay that the failure does not choose lies between
  -- the initial interval and the cap.
  pub retry_delay_bounds :
      (state : RetryState)
      → IsValid p
      → 1 ≤ attempt
      → f.next_retry_delay ≡ none
      → retry_decision p attempt f elapsed budget ≡ ok (some delay, state)
      → (p.initial_interval ≤ delay) × (delay ≤ activity_cap p)
  unfolding delay_with_cap
  retry_delay_bounds state v h own e =
      let known = (retry_sound state e).delay_lem in
      elim (Result-cases (backoff p attempt)) [
        | inl (x, raised) ↦ absurd (ground arith)
        | inr (b, is) ↦ ground (
          arith,
          capped b own known is,
          backoff_from p attempt b v h is,
          initial-le-activity_cap p v,
        )
      ]

-- `d` is the deadline that the bounds set: none where no bound is set, else the least of them, and the
-- label names the bound that it is, of equal ones start-to-close.
abbrev pub IsLeast : Option ℕ → Option ℕ → Option ℕ × Bound → Type 0
IsLeast start_to_close remaining (none, bound) = (start_to_close ≡ none) × (remaining ≡ none)
IsLeast start_to_close remaining (some d, by_start_to_close) =
    (start_to_close ≡ some d) × ((b : ℕ) → remaining ≡ some b → d ≤ b)
IsLeast start_to_close remaining (some d, by_schedule_to_close) =
    (remaining ≡ some d) × ((a : ℕ) → start_to_close ≡ some a → d < a)

-- An attempt has no deadline just when no bound is set; else its deadline is the lesser of the bounds
-- that are set, and its label names the bound that it is: start-to-close where both are equal.
pub effective_deadline-IsLeast :
    (start_to_close remaining : Option ℕ)
    → IsLeast start_to_close remaining (effective_deadline start_to_close remaining)
unfolding effective_deadline
effective_deadline-IsLeast none none = (refl, refl)
effective_deadline-IsLeast (some a) none = (refl, λ b h. absurd (cc))
effective_deadline-IsLeast none (some b) = (refl, λ a h. absurd (cc))
effective_deadline-IsLeast (some a) (some b) = elim (Bool-cases (leb a b)) [
  | inl first ↦ rw first (refl, λ c h. ground arith)
  | inr second ↦ rw second (refl, λ c h. ground arith)
]
