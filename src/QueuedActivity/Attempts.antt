-- ===== src/QueuedActivity/Attempts.antt =====
-- The attempts that a cross-queue activity makes (dbosify/_internal/activity_workflow.py): how many,
-- and under which deadlines.
use dbosify_py.Prelude.{
  ℕ, suc, ◌+◌, ◌≤◌, ◌≡◌, refl, Bool, true, false, Option, none, some, List, [], ◌∷◌, ◌++◌, arith,
  All, String,
}
use dbosify_py.Prelude.Result.{Result}
use dbosify_py.Retry.{RetryError, Bound}
use dbosify_py.QueuedActivity.{
  Report, ended, parked, Inbox, Payload, Final, Effect, run_attempt, park, sleep, set_gone, settle,
  gone_effect, await_async_completion,
}

abbrev pub Ends : {A : Type 0} → (A → Type 0) → Option A → Type 0
Ends Good none = ⊥
Ends Good (some a) = Good a

abbrev pub runs : List Effect → ℕ
runs [] = 0
runs (run_attempt n d b ∷ trace) = suc (runs trace)
runs (park w ∷ trace) = runs trace
runs (sleep d ∷ trace) = runs trace
runs (set_gone id ∷ trace) = runs trace

-- A deadline keeps a limit, where there is one.
abbrev pub Within : Option ℕ → Option ℕ → Type 0
Within none deadline = Unit
Within (some limit) none = ⊥
Within (some limit) (some d) = d ≤ limit

abbrev pub KeepsLimits : {V P : Type 0} → Payload V P → Effect → Type 0
KeepsLimits payload (run_attempt n d b) =
    Within payload.start_to_close d × Within payload.schedule_to_close d
KeepsLimits payload (park w) = Unit
KeepsLimits payload (sleep d) = Unit
KeepsLimits payload (set_gone id) = Unit

-- At most the policy's attempts, each within the activity's limits.
abbrev pub IsBounded :
    {V P : Type 0} → Payload V P → ℕ → ℕ → Result RetryError (Final V P) × List Effect → Type 0
IsBounded payload start maximum (result, trace) =
    (runs trace + start ≤ suc maximum) × All (KeepsLimits payload) trace

pub runs-append : (xs ys : List Effect) → runs (xs ++ ys) ≡ runs xs + runs ys
runs-append [] ys = omega arith
runs-append (run_attempt n d b ∷ xs) ys = omega (arith, runs-append xs ys)
runs-append (park w ∷ xs) ys = omega (arith, runs-append xs ys)
runs-append (sleep d ∷ xs) ys = omega (arith, runs-append xs ys)
runs-append (set_gone id ∷ xs) ys = omega (arith, runs-append xs ys)

module _ {V P : Type 0} (payload : Payload V P) (started_at : ℕ) where
  pub sleep_after :
      (attempt maximum start delay : ℕ) (trace effects : List Effect) (deadline : Option ℕ)
      (bound : Bound)
      → runs trace + start ≡ attempt
      → runs effects ≡ 0
      → runs ((trace ++ (run_attempt attempt deadline bound ∷ effects)) ++ sleep delay ∷ []) + start
        ≡ attempt + 1
  sleep_after attempt maximum start delay trace effects deadline bound c z = omega (
    arith,
    runs-append (trace ++ (run_attempt attempt deadline bound ∷ effects)) (sleep delay ∷ []),
    runs-append trace (run_attempt attempt deadline bound ∷ effects),
  )

module _ {V P : Type 0} (encode : V → P) (payload : Payload V P)
    (step : ℕ → Option ℕ → Bound → Report V P) (inbox : ℕ → Inbox V P) (started_at : ℕ) where
  gone_quiet :
      (gone : Bool) (id : String)
      → (runs (gone_effect gone id) ≡ 0) × All (KeepsLimits payload) (gone_effect gone id)
  unfolding gone_effect
  gone_quiet true id = (refl, (tt, tt))
  gone_quiet false id = (refl, tt)

  pub settle_quiet :
      (id : String) (deadline : Option ℕ) (bound : Bound) (messages : Inbox V P)
      (report : Report V P)
      → (runs (settle encode id deadline bound messages report).2 ≡ 0)
        × All (KeepsLimits payload) (settle encode id deadline bound messages report).2
  unfolding settle
  settle_quiet id deadline bound messages (ended e at) = (refl, tt)
  settle_quiet id deadline bound messages (parked started at) =
      let quiet = gone_quiet (await_async_completion encode at bound messages).2 id in
      (quiet.0, (tt, quiet.1))

  -- No attempt and no completer reports an end before the activity's start.
  abbrev pub IsForward : Type 0
  IsForward =
      (attempt : ℕ) (deadline : Option ℕ) (bound : Bound)
      → started_at
        ≤ (settle encode payload.activity_id deadline bound (inbox attempt)
            (step attempt deadline bound)).1
