-- ===== src/Ids/Chain/Probe.antt =====
-- What a probe of `resolve_latest_run` (dbosify/_internal/ids.py) tells about the chain, where the
-- runs that exist are those from `oldest` to `newest`.
use dbosify_py.Prelude.{
  ℕ, ◌≤◌, ◌<◌, ◌≡◌, refl, Bool, true, false, not, ◌&&◌, ◌||◌, Option, none, some, List, [], ◌∷◌,
  arith, ◌==◌, ltb, leb, if◌then◌else◌, All, Bool-cases, inl, inr,
}
use dbosify_py.Prelude.Text.{Text}
use dbosify_py.Ids.{run_dbos_id}
use dbosify_py.Ids.Chain.{max_found, has_index, first_missing, probe}

-- `run i` of the chain exists.
abbrev pub alive : ℕ → ℕ → ℕ → Bool
alive oldest newest i = leb oldest i && leb i newest

-- What a lookup by exact id finds of the chain of `w`.
abbrev pub ServesChain : {S : Type 0} → (Text → Option S) → Text → ℕ → ℕ → (ℕ → S) → Type 0
ServesChain lookup w oldest newest status =
    (i : ℕ) → lookup (run_dbos_id w i) ≡ (if alive oldest newest i then some (status i) else none)

abbrev pub among : ℕ → List ℕ → Bool
among c [] = false
among c (i ∷ indexes) = i == c || among c indexes

pub All-map :
    {P Q : ℕ → Type 0} (indexes : List ℕ) → ((i : ℕ) → P i → Q i) → All P indexes → All Q indexes
All-map [] f h = tt
All-map (i ∷ indexes) f h = (f i h.0, All-map indexes f h.1)

pub among_self : (indexes : List ℕ) → All (λ c. among c indexes ≡ true) indexes
among_self [] = tt
among_self (i ∷ indexes) =
    (ground arith, All-map indexes (λ c h. ground arith) (among_self indexes))

module _ {S : Type 0} (lookup : Text → Option S) (w : Text) (oldest newest : ℕ) (status : ℕ → S)
    (serves : ServesChain lookup w oldest newest status) where
  -- The greatest index found, or that nothing was there.
  abbrev pub IsGreatest : (ℕ → Type 0) → List ℕ → Option (ℕ × S) → Type 0
  IsGreatest P indexes none = All (λ i. alive oldest newest i ≡ false) indexes
  IsGreatest P indexes (some (m, s)) =
      P m
      × (alive oldest newest m ≡ true)
      × (s ≡ status m)
      × All (λ i. alive oldest newest i ≡ true → i ≤ m) indexes

  IsGreatest-cons :
      (P : ℕ → Type 0) (i : ℕ) (indexes : List ℕ) (r : Option (ℕ × S))
      → alive oldest newest i ≡ true
      → P i
      → IsGreatest P indexes r
      → IsGreatest P (i ∷ indexes) (elim r [
        | none ↦ some (i, status i)
        | some (j, t) ↦ if ltb j i then some (i, status i) else some (j, t)
      ])
  IsGreatest-cons P i indexes none a p h =
      (p, a, refl, ((λ _. omega arith), All-map indexes (λ k dead k_alive. ground arith) h))
  IsGreatest-cons P i indexes (some (j, t)) a p h = elim (Bool-cases (ltb j i)) [
    | inl later ↦ rw later (
      p,
      a,
      refl,
      ((λ _. omega arith), All-map indexes (λ k le k_alive. ground (arith, le k_alive)) h.3),
    )
    | inr earlier ↦ rw earlier (h.0, h.1, h.2, ((λ _. ground arith), h.3))
  ]

  IsGreatest-skip :
      (P : ℕ → Type 0) (i : ℕ) (indexes : List ℕ) (r : Option (ℕ × S))
      → alive oldest newest i ≡ false
      → IsGreatest P indexes r
      → IsGreatest P (i ∷ indexes) r
  IsGreatest-skip P i indexes none dead h = (dead, h)
  IsGreatest-skip P i indexes (some (j, t)) dead h = (h.0, h.1, h.2, ((λ a. ground arith), h.3))

  probe-alive :
      (i : ℕ) (indexes : List ℕ)
      → alive oldest newest i ≡ true
      → probe lookup w (i ∷ indexes) ≡ (i, status i) ∷ probe lookup w indexes
  unfolding probe
  probe-alive i indexes a = ground (arith, serves i)

  probe_dead :
      (i : ℕ) (indexes : List ℕ)
      → alive oldest newest i ≡ false
      → probe lookup w (i ∷ indexes) ≡ probe lookup w indexes
  unfolding probe
  probe_dead i indexes a = ground (arith, serves i)

  pub max_found-probe :
      (P : ℕ → Type 0) (indexes : List ℕ)
      → All P indexes
      → IsGreatest P indexes (max_found (probe lookup w indexes))
  unfolding max_found
  max_found-probe P [] h = unfold probe in tt
  max_found-probe P (i ∷ indexes) h = elim (Bool-cases (alive oldest newest i)) [
    | inl a ↦ rw (probe-alive i indexes a) (
        IsGreatest-cons P i indexes (max_found (probe lookup w indexes)) a h.0
          (max_found-probe P indexes h.1))
    | inr dead ↦ rw (probe_dead i indexes dead) (
        IsGreatest-skip P i indexes (max_found (probe lookup w indexes)) dead
          (max_found-probe P indexes h.1))
  ]

  pub has_index-probe :
      (c : ℕ) (indexes : List ℕ)
      → has_index c (probe lookup w indexes) ≡ (among c indexes && alive oldest newest c)
  unfolding has_index probe
  has_index-probe c [] = refl
  has_index-probe c (i ∷ indexes) = ground (arith, serves i, has_index-probe c indexes)

  -- Where the first missing index above `lo` is found, it has no run; where none is, all above
  -- `lo` have one.
  abbrev pub IsFirstMissing : (ℕ → Type 0) → ℕ → List ℕ → Option ℕ → Type 0
  IsFirstMissing P lo points none = All (λ c. lo < c → alive oldest newest c ≡ true) points
  IsFirstMissing P lo points (some c) = P c × (lo < c) × (alive oldest newest c ≡ false)

  IsFirstMissing-skip :
      (P : ℕ → Type 0) (lo c : ℕ) (points : List ℕ) (r : Option ℕ)
      → (lo < c → alive oldest newest c ≡ true)
      → IsFirstMissing P lo points r
      → IsFirstMissing P lo (c ∷ points) r
  IsFirstMissing-skip P lo c points none a h = (a, h)
  IsFirstMissing-skip P lo c points (some d) a h = h

  first_missing-among :
      (P : ℕ → Type 0) (lo : ℕ) (indexes points : List ℕ)
      → All P points
      → All (λ c. among c indexes ≡ true) points
      → IsFirstMissing P lo points (first_missing lo (probe lookup w indexes) points)
  unfolding first_missing
  first_missing-among P lo indexes [] h a = tt
  first_missing-among P lo indexes (c ∷ points) h a =
      elim (Bool-cases (ltb lo c && not (has_index c (probe lookup w indexes)))) [
        | inl missing ↦
            rw missing (h.0, ground arith, ground (arith, has_index-probe c indexes, a.0))
        | inr other ↦ rw other (
            IsFirstMissing-skip P lo c points (first_missing lo (probe lookup w indexes) points)
              (λ above. ground (arith, has_index-probe c indexes, a.0))
              (first_missing-among P lo indexes points h.1 a.1))
      ]

  pub first_missing-probe :
      (P : ℕ → Type 0) (lo : ℕ) (points : List ℕ)
      → All P points
      → IsFirstMissing P lo points (first_missing lo (probe lookup w points) points)
  first_missing-probe P lo points h = first_missing-among P lo points points h (among_self points)
