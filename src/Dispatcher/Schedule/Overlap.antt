-- ===== src/Dispatcher/Schedule/Overlap.antt =====
-- What one fire of a schedule starts (dbosify/_internal/dispatcher.py), and which earlier
-- occurrence its overlap policy looks at.
use dbosify_py.Prelude.{
  ℕ, ◌≤◌, ◌≡◌, ◌⊎◌, inl, inr, Bool, true, false, not, ◌&&◌, Option, none, some, List, [], ◌∷◌,
  arith, if◌then◌else◌, ltb, ◌==◌, is_some, All, Bool-cases, Option-cases,
}
use dbosify_py.Prelude.Text.{Text}
use dbosify_py.Status.{DbosStatus, is_open}
use dbosify_py.Dispatcher.Schedule.{
  Context, Effect, sleep, terminate, send_cancel, start, overlap_skip, overlap_of, occurrence_id,
  most_recent, running_prior_occurrence, too_early, too_late, meet_prior, apply_overlap_policy,
  epoch, start_scheduled_action, jitter_effect, start_after, schedule_fire,
}

module _ (statuses : Text → Option DbosStatus) (base : Text) where
  abbrev pub has_row : ℕ → Bool
  has_row at = is_some (statuses (occurrence_id base at))

  -- The latest of the fires whose action has a row.
  abbrev pub IsLatest : List ℕ → ℕ × DbosStatus → Type 0
  IsLatest occurrences (at, s) =
      (statuses (occurrence_id base at) ≡ some s) × All (λ t. has_row t ≡ true → t ≤ at) occurrences

  abbrev Latest : List ℕ → Option (ℕ × DbosStatus) → Type 0
  Latest occurrences none = All (λ t. has_row t ≡ false) occurrences
  Latest occurrences (some r) = IsLatest occurrences r

  All-map : (P Q : ℕ → Type 0) (xs : List ℕ) → ((x : ℕ) → P x → Q x) → All P xs → All Q xs
  All-map P Q [] f h = tt
  All-map P Q (x ∷ xs) f h = (f x h.0, All-map P Q xs f h.1)

  most_recent-Latest :
      (occurrences : List ℕ) → Latest occurrences (most_recent statuses base occurrences)
  unfolding most_recent
  most_recent-Latest [] = tt
  most_recent-Latest (at ∷ occurrences) =
      let rest = most_recent-Latest occurrences in
      elim (Option-cases (statuses (occurrence_id base at))) [
        | inl missing ↦
            rw (missing, most_recent) (skipped (most_recent statuses base occurrences) missing rest)
        | inr (s, e) ↦ rw (e, most_recent) (joined s e (most_recent statuses base occurrences) rest)
      ]
    where
      skipped :
          (r : Option (ℕ × DbosStatus))
          → statuses (occurrence_id base at) ≡ none
          → Latest occurrences r
          → Latest (at ∷ occurrences) r
      skipped none missing rest = (ground arith, rest)
      skipped (some (later, t)) missing rest = (rest.0, (λ h. absurd (ground arith), rest.1))

      joined :
          (s : DbosStatus)
          → statuses (occurrence_id base at) ≡ some s
          → (r : Option (ℕ × DbosStatus)) → Latest occurrences r
          → Latest (at ∷ occurrences) (elim r [
            | none ↦ some (at, s)
            | some (later, t) ↦ if ltb at later then some (later, t) else some (at, s)
          ])
      joined s e none rest = (
        e,
        (
          λ h. omega arith,
          All-map (λ t. has_row t ≡ false) (λ t. has_row t ≡ true → t ≤ at) occurrences
              (λ x no h. absurd (ground arith)) rest,
        ),
      )
      joined s e (some (later, t)) rest = elim (Bool-cases (ltb at later)) [
        | inl before ↦ rw before (rest.0, (λ h. ground arith, rest.1))
        | inr after ↦ rw after (
          e,
          (
            λ h. omega arith,
            All-map (λ t. has_row t ≡ true → t ≤ later) (λ t. has_row t ≡ true → t ≤ at) occurrences
                (λ x le h. ground (arith, le h)) rest.1,
          ),
        )
      ]

  -- The prior occurrence that counts as running is open and is the latest fire that has a row;
  -- where none counts, no fire has a row or the latest that has one is closed.
  pub running_prior_occurrence_lem :
      (occurrences : List ℕ)
      → ((prior : Text)
          → running_prior_occurrence statuses base occurrences ≡ some prior
          → (at : ℕ) × (s : DbosStatus) × (prior ≡ occurrence_id base at)
            × (is_open s ≡ true)
            × IsLatest occurrences (at, s))
        × (running_prior_occurrence statuses base occurrences ≡ none
            → All (λ t. has_row t ≡ false) occurrences
              ⊎ ((at : ℕ) × (s : DbosStatus) × (is_open s ≡ false) × IsLatest occurrences (at, s)))
  unfolding running_prior_occurrence
  running_prior_occurrence_lem occurrences =
      by_latest (most_recent statuses base occurrences) (most_recent-Latest occurrences)
    where
      by_latest :
          (r : Option (ℕ × DbosStatus))
          → Latest occurrences r
          → ((prior : Text)
              → elim r [
                | none ↦ none
                | some (at, s) ↦ if is_open s then some (occurrence_id base at) else none
              ]
                ≡ some prior
              → (at : ℕ) × (s : DbosStatus) × (prior ≡ occurrence_id base at)
                × (is_open s ≡ true)
                × IsLatest occurrences (at, s))
            × (elim r [
              | none ↦ none
              | some (at, s) ↦ if is_open s then some (occurrence_id base at) else none
            ]
                  ≡ none
                → All (λ t. has_row t ≡ false) occurrences
                  ⊎ ((at : ℕ) × (s : DbosStatus) × (is_open s ≡ false)
                      × IsLatest occurrences (at, s)))
      by_latest none h = (λ prior e. absurd (cc), λ e. inl h)
      by_latest (some (at, s)) h = elim (Bool-cases (is_open s)) [
        | inl alive ↦ rw alive (λ prior e. (at, s, cc, alive, h), λ e. absurd (cc))
        | inr closed ↦ rw closed (λ prior e. absurd (cc), λ e. inr (at, s, closed, h))
      ]

module _ {P A : Type 0} where
  -- The runs that a fire starts.
  abbrev pub started : List (Effect P A) → List Text
  started [] = []
  started (sleep d ∷ effects) = started effects
  started (terminate run ∷ effects) = started effects
  started (send_cancel run reason ∷ effects) = started effects
  started (start run w i q ∷ effects) = run ∷ started effects

module _ {P A : Type 0} (c : Context P A) (statuses : Text → Option DbosStatus)
    (occurrences : List ℕ) where
  -- The fire is neither before the schedule's start nor after its end, where these are set.
  abbrev pub IsWithin : ℕ → Type 0
  IsWithin fired_at =
      ((at : ℕ) → c.start_at ≡ some at → at ≤ fired_at)
      × ((at : ℕ) → c.end_at ≡ some at → fired_at ≤ at)

  -- The policy is SKIP and a prior occurrence of the cron schedule is running.
  abbrev pub IsSkipped : Type 0
  IsSkipped =
      (overlap_of c ≡ overlap_skip)
      × (c.has_cron ≡ true)
      × (prior : Text) × (running_prior_occurrence statuses c.action.id occurrences ≡ some prior)

  abbrev in_bounds : ℕ → Bool
  in_bounds fired_at = not (too_early c.start_at fired_at) && not (too_late c.end_at fired_at)

  abbrev is_skipped : Bool
  is_skipped =
      (overlap_of c == overlap_skip)
      && c.has_cron
      && is_some (running_prior_occurrence statuses c.action.id occurrences)

  started_if :
      (drawn fired_at : ℕ)
      → started (schedule_fire c statuses occurrences drawn fired_at) ≡ (
          if in_bounds fired_at && not is_skipped
          then occurrence_id c.action.id (epoch fired_at) ∷ []
          else [])
  unfolding schedule_fire apply_overlap_policy start_after meet_prior jitter_effect
      start_scheduled_action
  started_if drawn fired_at = ground arith

  bounds-IsWithin : (fired_at : ℕ) → in_bounds fired_at ≡ true → IsWithin fired_at
  unfolding too_early too_late
  bounds-IsWithin fired_at h = (λ at e. ground arith, λ at e. ground arith)

  IsWithin-bounds : (fired_at : ℕ) → IsWithin fired_at → in_bounds fired_at ≡ true
  unfolding too_early too_late
  IsWithin-bounds fired_at w = elim (Option-cases c.start_at) [
    | inl no_start ↦ elim (Option-cases c.end_at) [
      | inl no_end ↦ ground arith
      | inr (b, eb) ↦ ground (arith, w.1 b eb)
    ]
    | inr (a, ea) ↦ elim (Option-cases c.end_at) [
      | inl no_end ↦ ground (arith, w.0 a ea)
      | inr (b, eb) ↦ ground (arith, w.0 a ea, w.1 b eb)
    ]
  ]

  skipped-IsSkipped : is_skipped ≡ true → IsSkipped
  skipped-IsSkipped h =
      elim (Option-cases (running_prior_occurrence statuses c.action.id occurrences)) [
        | inl nothing ↦ absurd (ground arith)
        | inr (prior, e) ↦ (ground arith, ground arith, prior, e)
      ]

  IsSkipped-skipped : IsSkipped → is_skipped ≡ true
  IsSkipped-skipped (policy, cron, prior, e) = ground arith

  -- A fire starts its own occurrence, once and nothing else, or starts nothing; it starts nothing
  -- exactly when it lies outside the schedule's bounds, which are inclusive, or is skipped; it is
  -- skipped where the overlap policy is SKIP and a prior occurrence of the cron schedule is running.
  pub started-schedule_fire :
      (drawn fired_at : ℕ)
      → ((started (schedule_fire c statuses occurrences drawn fired_at)
            ≡ occurrence_id c.action.id (epoch fired_at) ∷ [])
          × IsWithin fired_at
          × (IsSkipped → ⊥))
        ⊎ ((started (schedule_fire c statuses occurrences drawn fired_at) ≡ [])
            × (IsWithin fired_at → IsSkipped))
  started-schedule_fire drawn fired_at = elim (Bool-cases (in_bounds fired_at)) [
    | inl inside ↦ elim (Bool-cases is_skipped) [
      | inl skipped ↦
          inr (ground (arith, started_if drawn fired_at), λ w. skipped-IsSkipped skipped)
      | inr free ↦ inl (
        ground (arith, started_if drawn fired_at),
        bounds-IsWithin fired_at inside,
        λ k. absurd (ground (arith, IsSkipped-skipped k)),
      )
    ]
    | inr outside ↦ inr (
      ground (arith, started_if drawn fired_at),
      λ w. absurd (ground (arith, IsWithin-bounds fired_at w)),
    )
  ]
