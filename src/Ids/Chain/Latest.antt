-- ===== src/Ids/Chain/Latest.antt =====
-- `resolve_latest_run` of dbosify/_internal/ids.py finds the newest run of a chain of any length.
use dbosify_py.Prelude.{
  ℕ, zero, suc, ◌-◌, ◌≤◌, ◌<◌, ◌≡◌, refl, true, false, Option, none, some, List, [], ◌∷◌, arith,
  ◌^◌, subst, ◌==◌, ==_iff, ap, All, Bool-cases, inl, inr,
}
use dbosify_py.Prelude.Text.{Text}
use dbosify_py.Ids.{dense_probe_limit}
use dbosify_py.Ids.Chain.{
  range, powers, ladder, extension, max_found, first_missing, raise_to, probe, extend,
  refine_bracket, resolve_latest_run,
}
use dbosify_py.Ids.Chain.Refine.{IsBracket, refine_newest}
use dbosify_py.Ids.Chain.Probe.{
  alive, among, ServesChain, IsGreatest, IsFirstMissing, max_found-probe, first_missing-probe,
}

All-among :
    (P : ℕ → Type 0) (indexes : List ℕ) → All P indexes → (i : ℕ) → among i indexes ≡ true → P i
All-among P [] h i a = cc
All-among P (c ∷ indexes) h i a = elim (Bool-cases (c == i)) [
  | inl here ↦ subst P ((==_iff c i).0 here) h.0
  | inr there ↦ All-among P indexes h.1 i (ground arith)
]

All-units : (indexes : List ℕ) → All {0, 0} (λ _. Unit) indexes
All-units [] = tt
All-units (i ∷ indexes) = (tt, All-units indexes)

among-ladder : (i : ℕ) → i ≤ dense_probe_limit → among i ladder ≡ true
unfolding range powers
among-ladder i h = ground arith

among-ladder_top : among (2 ^ 20) ladder ≡ true
unfolding range powers
among-ladder_top = refl

module _ {S : Type 0} (lookup : Text → Option S) (w : Text) (oldest newest : ℕ) (status : ℕ → S)
    (serves : ServesChain lookup w oldest newest status) where
  -- What a doubling round starts from: a run that is not the first.
  abbrev IsStart : ℕ × S → Type 0
  IsStart lo = (0 < lo.0) × (oldest ≤ lo.0) × (lo.0 ≤ newest) × (lo.1 ≡ status lo.0)

  abbrev Extended : Option ((ℕ × S) × ℕ) → Type 0
  Extended r =
      (lo : ℕ × S) × (hi : ℕ) × (r ≡ some (lo, hi))
      × IsBracket lookup w oldest newest status serves lo hi

  raised :
      (l : ℕ) (s : S) (r : Option (ℕ × S))
      → IsStart (l, s)
      → IsGreatest lookup w oldest newest status serves (λ p. l < p) (extension l) r
      → IsStart (raise_to (l, s) r)
  raised l s none start h = start
  raised l s (some (m, t)) start h = (omega arith, omega arith, ground arith, h.2)

  -- Where no point of the extension is missing, the last one is a run.
  doubled :
      (l : ℕ) (s : S) (r : Option (ℕ × S))
      → IsStart (l, s)
      → IsGreatest lookup w oldest newest status serves (λ p. l < p) (extension l) r
      → All (λ c. (raise_to (l, s) r).0 < c → alive oldest newest c ≡ true) (extension l)
      → l < (raise_to (l, s) r).0
  doubled l s none start h a = let run = a.0 (omega arith) in cc
  doubled l s (some (m, t)) start h a = h.0

  IsBracket-of_missing :
      (lo : ℕ × S) (c : ℕ)
      → IsStart lo
      → (lo.0 < c) × (alive oldest newest c ≡ false)
      → IsBracket lookup w oldest newest status serves lo c
  IsBracket-of_missing lo c start h = (start.1, start.2, ground arith, start.3)

  extend_step :
      (l : ℕ) (lo : ℕ × S) (missing : Option ℕ) (rest : Option ((ℕ × S) × ℕ))
      → IsStart lo
      → IsFirstMissing lookup w oldest newest status serves (λ _. Unit) lo.0 (extension l) missing
      → (All (λ c. lo.0 < c → alive oldest newest c ≡ true) (extension l) → Extended rest)
      → Extended (elim missing [ some hi ↦ some (lo, hi) | none ↦ rest ])
  extend_step l lo none rest start h next = next h
  extend_step l lo (some c) rest start h next =
      (lo, c, refl, IsBracket-of_missing lo c start (h.1, h.2))

  extend_bracket :
      (fuel l : ℕ) (s : S)
      → newest - l < fuel
      → IsStart (l, s)
      → Extended (extend lookup w fuel (l, s))
  unfolding extend
  extend_bracket zero l s f start = absurd (omega arith)
  extend_bracket (suc fuel) l s f start =
      let r = max_found (probe lookup w (extension l)) in
      let greatest =
        max_found-probe lookup w oldest newest status serves (λ p. l < p) (extension l)
          (omega arith) in
      let lo = raise_to (l, s) r in
      let start' = raised l s r start greatest in
      extend_step l lo (first_missing lo.0 (probe lookup w (extension l)) (extension l))
        (extend lookup w fuel lo) start'
        (first_missing-probe lookup w oldest newest status serves (λ _. Unit) lo.0 (extension l)
          (tt, (tt, (tt, (tt, tt)))))
        (λ all.
          extend_bracket fuel lo.0 lo.1 (omega (arith, doubled l s r start greatest all)) start')

  refine_from :
      (lo : ℕ × S) (hi : ℕ)
      → IsBracket lookup w oldest newest status serves lo hi
      → refine_bracket lookup w (some (lo, hi)) ≡ some (some (newest, status newest))
  unfolding refine_bracket
  refine_from lo hi b =
      ap (λ r. some (some r))
        (refine_newest lookup w oldest newest status serves (hi - lo.0) lo hi (omega arith) b)

  from_Extended :
      (r : Option ((ℕ × S) × ℕ))
      → Extended r
      → refine_bracket lookup w r ≡ some (some (newest, status newest))
  from_Extended r (lo, hi, e, b) = rw e (refine_from lo hi b)

  -- A chain that holds the whole ladder has a run behind index 0.
  start_of_ladder :
      (m : ℕ) (t : S)
      → IsGreatest lookup w oldest newest status serves (λ _. Unit) ladder (some (m, t))
      → All (λ c. m < c → alive oldest newest c ≡ true) ladder
      → IsStart (m, t)
  start_of_ladder m t h a =
      let top : ℕ = 2 ^ 20 in
      let above =
        All-among (λ c. m < c → alive oldest newest c ≡ true) ladder a top among-ladder_top in
      let below =
        All-among (λ c. alive oldest newest c ≡ true → c ≤ m) ladder h.3 top among-ladder_top in
      (ground (arith, above, below), ground arith, ground arith, h.2)

  from_missing :
      (fuel m : ℕ) (t : S) (missing : Option ℕ)
      → newest < fuel
      → IsGreatest lookup w oldest newest status serves (λ _. Unit) ladder (some (m, t))
      → IsFirstMissing lookup w oldest newest status serves (λ _. Unit) m ladder missing
      → elim missing [
        | some hi ↦ refine_bracket lookup w (some ((m, t), hi))
        | none ↦ refine_bracket lookup w (extend lookup w fuel (m, t))
      ]
        ≡ some (some (newest, status newest))
  from_missing fuel m t (some hi) f h i =
      refine_from (m, t) hi (ground arith, ground arith, ground arith, h.2)
  from_missing fuel m t none f h i =
      from_Extended (extend lookup w fuel (m, t))
        (extend_bracket fuel m t (omega arith) (start_of_ladder m t h i))

  from_ladder :
      (fuel : ℕ) (r : Option (ℕ × S))
      → oldest ≤ dense_probe_limit
      → oldest ≤ newest
      → newest < fuel
      → IsGreatest lookup w oldest newest status serves (λ _. Unit) ladder r
      → elim r [
        | none ↦ some none
        | some lo ↦ elim (first_missing lo.0 (probe lookup w ladder) ladder) [
          | some hi ↦ refine_bracket lookup w (some (lo, hi))
          | none ↦ refine_bracket lookup w (extend lookup w fuel lo)
        ]
      ]
        ≡ some (some (newest, status newest))
  from_ladder fuel none gap some_run f h =
      let dead =
        All-among (λ c. alive oldest newest c ≡ false) ladder h oldest (among-ladder oldest gap) in
      ground arith
  from_ladder fuel (some (m, t)) gap some_run f h =
      from_missing fuel m t (first_missing m (probe lookup w ladder) ladder) f h (
        first_missing-probe lookup w oldest newest status serves (λ _. Unit) m ladder
          (All-units ladder))

  -- Where the runs of a chain are those from `oldest` to `newest`, and the oldest is among the
  -- indexes that the first probe asks for densely, the newest run and its status are found, with
  -- any fuel above the newest index.
  pub resolve_latest_run-newest :
      (fuel : ℕ)
      → oldest ≤ dense_probe_limit
      → oldest ≤ newest
      → newest < fuel
      → resolve_latest_run lookup w fuel ≡ some (some (newest, status newest))
  unfolding resolve_latest_run
  resolve_latest_run-newest fuel gap some_run f =
      from_ladder fuel (max_found (probe lookup w ladder)) gap some_run f
        (max_found-probe lookup w oldest newest status serves (λ _. Unit) ladder (All-units ladder))
