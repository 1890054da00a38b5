-- ===== src/Dispatcher/Schedule.antt =====
-- dbosify/_internal/dispatcher.py: one fire of a schedule. The time of the fire and the bounds are
-- microseconds, earlier fires are seconds; the random jitter delay, the schedule's earlier fires and the statuses of its actions are what the fire reads.
pub mod Overlap
use dbosify_py.Prelude.{
  ℕ, ◌+◌, ◌/◌, Bool, true, false, not, ◌||◌, Option, none, some, List, [], ◌∷◌, ◌++◌, if◌then◌else◌,
  ltb, ◌==◌, String,
}
use dbosify_py.Prelude.Text.{Text, text, str}
use dbosify_py.Status.{DbosStatus, is_open}
use dbosify_py.RunInput.{RunMeta, new_meta, Input, wrap_input}
use dbosify_py.Retry.{RetryPolicy}

abbrev pub overlap_skip : ℕ
overlap_skip = 1

abbrev pub overlap_cancel_other : ℕ
overlap_cancel_other = 4

abbrev pub overlap_terminate_other : ℕ
overlap_terminate_other = 5

abbrev pub overlap_allow_all : ℕ
overlap_allow_all = 6

pub record Action (P A : Type 0) : Type 0 where
  pub id : Text
  pub workflow : String
  pub args : List P
  pub retry_policy : Option RetryPolicy
  pub run_timeout : Option ℕ
  pub attributes : Option A
  pub task_queue : String

-- The schedule's context. An overlap policy that is missing is SKIP.
pub record Context (P A : Type 0) : Type 0 where
  pub action : Action P A
  pub start_at : Option ℕ
  pub end_at : Option ℕ
  pub jitter : Option ℕ
  pub overlap : Option ℕ
  pub has_cron : Bool

module _ (P A : Type 0) where
  pub data Effect : Type 0 where
    sleep : (delay : ℕ) → Effect
    terminate : (run : Text) → Effect
    send_cancel : (run : Text) → (reason : String) → Effect
    start : (run_id : Text) → (workflow : String) → Input P A → (queue : String) → Effect

-- `int(fired_at.timestamp())`
unfoldable pub epoch : ℕ → ℕ
epoch fired_at = fired_at / 1000000

-- `f"{base}-{ts}"`
unfoldable pub occurrence_id : Text → ℕ → Text
occurrence_id base at = base ++ (text "-" ++ str at)

-- `max` of the fires whose action has a row, with its status; of equal times the first.
unfoldable pub most_recent : (Text → Option DbosStatus) → Text → List ℕ → Option (ℕ × DbosStatus)
most_recent statuses base [] = none
most_recent statuses base (at ∷ occurrences) = elim (statuses (occurrence_id base at)) [
  | none ↦ most_recent statuses base occurrences
  | some s ↦ elim (most_recent statuses base occurrences) [
    | none ↦ some (at, s)
    | some (later, t) ↦ if ltb at later then some (later, t) else some (at, s)
  ]
]

unfoldable pub running_prior_occurrence : (Text → Option DbosStatus) → Text → List ℕ → Option Text
running_prior_occurrence statuses base occurrences = elim (most_recent statuses base occurrences) [
  | none ↦ none
  | some (at, s) ↦ if is_open s then some (occurrence_id base at) else none
]

-- `start_at` is not None and `fired_at` is before it.
unfoldable pub too_early : Option ℕ → ℕ → Bool
too_early none fired_at = false
too_early (some at) fired_at = ltb fired_at at

unfoldable pub too_late : Option ℕ → ℕ → Bool
too_late none fired_at = false
too_late (some at) fired_at = ltb at fired_at

module _ {P A : Type 0} where
  unfoldable pub overlap_of : Context P A → ℕ
  overlap_of c = elim c.overlap [ none ↦ overlap_skip | some n ↦ n ]

  -- What is done about a prior occurrence that is still open, and whether the fire goes on.
  unfoldable pub meet_prior : ℕ → Text → Bool × List (Effect P A)
  meet_prior overlap prior =
      if overlap == overlap_skip
      then (false, [])
      else if overlap == overlap_terminate_other
      then (true, terminate prior ∷ [])
      else if overlap == overlap_cancel_other
      then (true, send_cancel prior "schedule overlap" ∷ [])
      else (true, [])

  unfoldable pub apply_overlap_policy :
      Context P A → (Text → Option DbosStatus) → List ℕ → Bool × List (Effect P A)
  apply_overlap_policy c statuses occurrences =
      if overlap_of c == overlap_allow_all || not c.has_cron
      then (true, [])
      else elim (running_prior_occurrence statuses c.action.id occurrences) [
        | none ↦ (true, [])
        | some prior ↦ meet_prior (overlap_of c) prior
      ]

  abbrev pub action_meta : Action P A → RunMeta P A
  action_meta a = record new_meta {
    retry_policy = a.retry_policy;
    run_timeout = a.run_timeout;
    attributes = a.attributes;
  }

  unfoldable pub start_scheduled_action : Action P A → ℕ → Effect P A
  unfolding epoch
  start_scheduled_action a fired_at =
      start (occurrence_id a.id (epoch fired_at)) a.workflow
        (wrap_input a.args (some (action_meta a))) a.task_queue

  -- `jitter` is falsy when it is missing or 0.
  unfoldable pub jitter_effect : Option ℕ → ℕ → List (Effect P A)
  jitter_effect none delay = []
  jitter_effect (some j) delay = if j == 0 then [] else sleep delay ∷ []

  unfoldable pub start_after : Bool × List (Effect P A) → Effect P A → List (Effect P A)
  start_after (go, effects) action = if go then effects ++ (action ∷ []) else effects

  -- `_schedule_fire`, with the delay that the seeded jitter draws.
  unfoldable pub schedule_fire :
      Context P A → (Text → Option DbosStatus) → List ℕ → (drawn : ℕ) → ℕ → List (Effect P A)
  schedule_fire c statuses occurrences drawn fired_at =
      if too_early c.start_at fired_at
      then []
      else if too_late c.end_at fired_at
      then []
      else jitter_effect c.jitter drawn
        ++ start_after (apply_overlap_policy c statuses occurrences)
            (start_scheduled_action c.action fired_at)
