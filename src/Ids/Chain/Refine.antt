-- ===== src/Ids/Chain/Refine.antt =====
-- The refinement loop of `resolve_latest_run` (dbosify/_internal/ids.py): the bracket tightens
-- round its newest run until nothing is left between its ends.
use dbosify_py.Prelude.{
  ℕ, zero, suc, ◌+◌, ◌-◌, ◌/◌, ◌≤◌, ◌<◌, ◌≡◌, true, Option, none, some, List, ◌∷◌, arith, ltb, ap,
  ◌∙◌, max, All, Bool-cases, inl, inr,
}
use dbosify_py.Prelude.Text.{Text}
use dbosify_py.Ids.{refine_batch}
use dbosify_py.Ids.Chain.{
  range, max_found, first_missing, raise_to, probe, points_between, lowered, refine,
}
use dbosify_py.Ids.Chain.Probe.{
  alive, ServesChain, IsGreatest, IsFirstMissing, max_found-probe, first_missing-probe,
}

range_between :
    (low count start stop step : ℕ)
    → low < start
    → All (λ p. (low < p) × (p < stop)) (range count start stop step)
unfolding range
range_between low zero start stop step h = tt
range_between low (suc count) start stop step h = elim (Bool-cases (ltb start stop)) [
  | inl inside ↦
      rw inside ((h, ground arith), range_between low count (start + step) stop step (omega arith))
  | inr outside ↦ rw outside tt
]

points_between_cons :
    (lo hi : ℕ) → lo + 1 < hi → (p : ℕ) × (points : List ℕ) × (points_between lo hi ≡ p ∷ points)
unfolding range
points_between_cons lo hi h =
    let step = max 1 ((hi - lo) / (refine_batch + 1)) in
    (lo + step, range 15 (lo + step + step) hi step, ground arith)

points_inside : (lo hi : ℕ) → All (λ p. (lo < p) × (p < hi)) (points_between lo hi)
points_inside lo hi =
    let step = max 1 ((hi - lo) / (refine_batch + 1)) in
    range_between lo refine_batch (lo + step) hi step (omega arith)

module _ {S : Type 0} (lookup : Text → Option S) (w : Text) (oldest newest : ℕ) (status : ℕ → S)
    (serves : ServesChain lookup w oldest newest status) where
  -- The newest run lies in the bracket, and its lower end is a run.
  abbrev pub IsBracket : ℕ × S → ℕ → Type 0
  IsBracket lo hi = (oldest ≤ lo.0) × (lo.0 ≤ newest) × (newest < hi) × (lo.1 ≡ status lo.0)

  module _ (l hi : ℕ) (s : S) (bracket : IsBracket (l, s) hi) where
    abbrev pub Inside : ℕ → Type 0
    Inside p = (l < p) × (p < hi)

    abbrev pub IsTighter : ℕ × S → ℕ → Type 0
    IsTighter lo hi' = IsBracket lo hi' × (hi' - lo.0 < hi - l)

    found_round :
        (m : ℕ) (t : S) (points : List ℕ) (missing : Option ℕ)
        → Inside m
        → alive oldest newest m ≡ true
        → t ≡ status m
        → IsFirstMissing lookup w oldest newest status serves Inside m points missing
        → IsTighter (m, t) (elim missing [ some p ↦ p | none ↦ hi ])
    found_round m t points none i a e h = ((ground arith, ground arith, bracket.2, e), ground arith)
    found_round m t points (some c) i a e h =
        ((ground arith, ground arith, ground arith, e), ground arith)

    round :
        (p : ℕ) (points : List ℕ) (r : Option (ℕ × S))
        → All Inside (p ∷ points)
        → IsGreatest lookup w oldest newest status serves Inside (p ∷ points) r
        → IsTighter (raise_to (l, s) r) (lowered l hi (p ∷ points) (probe lookup w (p ∷ points)) r)
    unfolding lowered
    round p points none i h = ((bracket.0, bracket.1, ground arith, bracket.3), ground arith)
    round p points (some (m, t)) i h =
        found_round m t (p ∷ points) (first_missing m (probe lookup w (p ∷ points)) (p ∷ points))
          h.0 h.1 h.2
          (first_missing-probe lookup w oldest newest status serves Inside m (p ∷ points) i)

  settled : (lo : ℕ × S) → lo.0 ≡ newest → lo.1 ≡ status lo.0 → lo ≡ (newest, status newest)
  settled lo e h = λ i. (e i, (h ∙ ap status e) i)

  pub refine_newest :
      (fuel : ℕ) (lo : ℕ × S) (hi : ℕ)
      → hi - lo.0 ≤ fuel
      → IsBracket lo hi
      → refine lookup w fuel lo hi ≡ (newest, status newest)
  unfolding refine
  refine_newest zero lo hi f b = absurd (omega arith)
  refine_newest (suc fuel) lo hi f b = elim (Bool-cases (ltb 1 (hi - lo.0))) [
    | inl wide ↦
        let (p, points, e) = points_between_cons lo.0 hi (ground arith) in
        let tighter =
          round lo.0 hi lo.1 b p points (max_found (probe lookup w (p ∷ points)))
            (rw e at (points_inside lo.0 hi))
            (max_found-probe lookup w oldest newest status serves (Inside lo.0 hi lo.1 b)
              (p ∷ points) (rw e at (points_inside lo.0 hi))) in
        rw (wide, e)
          (refine_newest fuel (raise_to lo (max_found (probe lookup w (p ∷ points))))
            (lowered lo.0 hi (p ∷ points) (probe lookup w (p ∷ points))
              (max_found (probe lookup w (p ∷ points))))
            (omega (arith, tighter.1)) tighter.0)
    | inr closed ↦ rw closed (settled lo (ground arith) b.3)
  ]
