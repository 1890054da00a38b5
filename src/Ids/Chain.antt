-- ===== src/Ids/Chain.antt =====
-- `resolve_latest_run` of dbosify/_internal/ids.py: the newest run of a chain by exact-id probes.
-- The batched lookup is a parameter, a dictionary from DBOS ids to statuses; a probe asks it for
-- each index's run id.
pub mod Probe
pub mod Refine
pub mod Latest
use dbosify_py.Prelude.{
  ℕ, zero, suc, ◌+◌, ◌-◌, ◌*◌, ◌/◌, ◌^◌, Bool, true, false, not, ◌&&◌, ◌||◌, Option, none, some,
  List, [], ◌∷◌, ◌++◌, map, ◌==◌, ltb, leb, if◌then◌else◌, max, keep,
}
use dbosify_py.Prelude.Text.{Text}
use dbosify_py.Ids.{run_dbos_id, dense_probe_limit, max_probe_exponent, refine_batch}

-- `range(start, stop, step)`, cut after `count` items.
unfoldable pub range : ℕ → ℕ → ℕ → ℕ → List ℕ
range zero start stop step = []
range (suc count) start stop step =
    if ltb start stop then start ∷ range count (start + step) stop step else []

-- [1 << e for e in range(e, e + count)]
powers : ℕ → ℕ → List ℕ
powers zero e = []
powers (suc count) e = 2 ^ e ∷ powers count (e + 1)

abbrev pub ladder : List ℕ
unfolding range powers
ladder =
    range (dense_probe_limit + 1) 0 (dense_probe_limit + 1) 1 ++ powers (max_probe_exponent - 4) 5

-- [lo << k for k in range(1, 5)]
abbrev pub extension : ℕ → List ℕ
extension lo = lo * 2 ∷ lo * 4 ∷ lo * 8 ∷ lo * 16 ∷ []

abbrev pub points_between : ℕ → ℕ → List ℕ
points_between lo hi =
    let step = max 1 ((hi - lo) / (refine_batch + 1)) in range refine_batch (lo + step) hi step

module _ {S : Type 0} where
  -- `max(found)` with its status.
  unfoldable pub max_found : List (ℕ × S) → Option (ℕ × S)
  max_found [] = none
  max_found ((i, s) ∷ found) = elim (max_found found) [
    | none ↦ some (i, s)
    | some (j, t) ↦ if ltb j i then some (i, s) else some (j, t)
  ]

  -- `c in found`
  unfoldable pub has_index : ℕ → List (ℕ × S) → Bool
  has_index c [] = false
  has_index c ((i, s) ∷ found) = i == c || has_index c found

  -- next((c for c in points if c > lo and c not in found), None)
  unfoldable pub first_missing : ℕ → List (ℕ × S) → List ℕ → Option ℕ
  first_missing lo found [] = none
  first_missing lo found (c ∷ points) =
      if ltb lo c && not (has_index c found) then some c else first_missing lo found points

  -- `lo` and `lo_status` after a probe: unchanged where nothing was found.
  abbrev pub raise_to : ℕ × S → Option (ℕ × S) → ℕ × S
  raise_to old none = old
  raise_to old (some new) = new

  -- The upper bound after a refinement round.
  unfoldable pub lowered : ℕ → ℕ → List ℕ → List (ℕ × S) → Option (ℕ × S) → ℕ
  lowered lo hi points found (some new) = elim (first_missing new.0 found points) [
    | some p ↦ p
    | none ↦ hi
  ]
  lowered lo hi [] found none = hi
  lowered lo hi (p ∷ points) found none = p

module _ {S : Type 0} (lookup : Text → Option S) (w : Text) where
  unfoldable pub probe : List ℕ → List (ℕ × S)
  probe [] = []
  probe (i ∷ indexes) = elim (lookup (run_dbos_id w i)) [
    | some s ↦ (i, s) ∷ probe indexes
    | none ↦ probe indexes
  ]

  -- `while hi is None`: double until the bracket closes. `none` when the fuel runs out.
  unfoldable pub extend : ℕ → ℕ × S → Option ((ℕ × S) × ℕ)
  extend zero lo = none
  extend (suc fuel) lo =
      let found = probe (extension lo.0) in
      let lo' = raise_to lo (max_found found) in
      let rest = extend fuel lo' in
      elim (first_missing lo'.0 found (extension lo.0)) [ some hi ↦ some (lo', hi) | none ↦ rest ]

  -- `while hi - lo > 1`: the bracket shrinks in every round, so `hi - lo` rounds suffice.
  unfoldable pub refine : ℕ → ℕ × S → ℕ → ℕ × S
  refine zero lo hi = lo
  refine (suc fuel) lo hi =
      let points = points_between lo.0 hi in
      let found = probe points in
      let newest = max_found found in
      let rest = refine fuel (raise_to lo newest) (lowered lo.0 hi points found newest) in
      if ltb 1 (hi - lo.0) then rest else lo

  refine_bracket : Option ((ℕ × S) × ℕ) → Option (Option (ℕ × S))
  unfolding refine
  refine_bracket none = none
  refine_bracket (some (lo, hi)) = some (some (refine (hi - lo.0) lo hi))

  -- `none`: out of fuel; `some none`: no run exists.
  unfoldable pub resolve_latest_run : ℕ → Option (Option (ℕ × S))
  unfolding refine_bracket
  resolve_latest_run fuel =
      let found = probe ladder in
      elim (max_found found) [
        | none ↦ some none
        | some lo ↦ elim (first_missing lo.0 found ladder) [
          | some hi ↦ refine_bracket (some (lo, hi))
          | none ↦ refine_bracket (extend fuel lo)
        ]
      ]
