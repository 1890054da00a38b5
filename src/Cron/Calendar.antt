-- ===== src/Cron/Calendar.antt =====
-- The fields of a calendar spec let the spec's values pass (dbosify/_internal/schedules.py).
use native.Mathlib.Nat.{zero-mod, mod-one}
use dbosify_py.Prelude.{
  ℕ, ◌-◌, ◌%◌, ◌≤◌, ◌≡◌, refl, ap, Bool, true, false, ◌&&◌, ◌||◌, List, [], ◌∷◌, ◌==◌, leb, any,
  map, max, ◌∙◌, ==_iff, arith, Bool-cases, inl, inr,
}
use dbosify_py.Cron.{
  Token, star, every, single, span, stepped, Range, range_token, is_star, is_empty, ranges_to_field,
}

-- The values of a range: an end before the start counts as the start, and a step of 0 as 1.
abbrev pub includes : ℕ → Range → Bool
includes v r = leb r.start v && leb v (max r.start r.end) && (v - r.start) % max 1 r.step == 0

abbrev pub passes : (Token → ℕ → Bool) → List Token → ℕ → Bool
passes reads [] v = false
passes reads (t ∷ ts) v = reads t v || passes reads ts v

abbrev pub any_includes : ℕ → List Range → Bool
any_includes v [] = false
any_includes v (r ∷ rs) = includes v r || any_includes v rs

mod_unit : (x n : ℕ) → (n == 1) ≡ true → x % n ≡ 0
mod_unit x n h = ap (λ m. x % m) ((==_iff n 1).0 h) ∙ mod-one x

-- A range of one value.
single_value : (v a last n : ℕ) → a ≡ last → (v == a) ≡ (leb a v && leb v last && (v - a) % n == 0)
single_value v a last n same = elim (Bool-cases (v == a)) [
  | inl here ↦
      let none_over : v - a ≡ 0 = ground arith in
      let whole : (v - a) % n ≡ 0 = ap (λ x. x % n) none_over ∙ zero-mod n in ground arith
  | inr there ↦ ground arith
]

module _ (reads : Token → ℕ → Bool) (lo hi : ℕ) (reads_star : (v : ℕ) → reads star v ≡ true)
    (reads_single : (n v : ℕ) → reads (single n) v ≡ (v == n))
    (reads_span : (a b v : ℕ) → reads (span a b) v ≡ (leb a v && leb v b))
    (reads_stepped : (a b n v : ℕ)
      → reads (stepped a b n) v ≡ (leb a v && leb v b && (v - a) % n == 0)) where
  reads-range_token :
      (r : Range) (v : ℕ) → lo ≤ v → v ≤ hi → reads (range_token lo hi r) v ≡ includes v r
  unfolding range_token
  reads-range_token r v above below =
      let last = max r.start r.end in
      let step = max 1 r.step in
      elim (Bool-cases (leb r.start lo && leb hi last && step == 1)) [
        | inl all ↦
            rw (all, range_token, reads_star v) (ground (arith, mod_unit (v - r.start) step))
        | inr part ↦ elim (Bool-cases (r.start == last)) [
          | inl alone ↦
              rw (part, alone, range_token, reads_single r.start v)
                (single_value v r.start last step (ground arith))
          | inr more ↦ elim (Bool-cases (step == 1)) [
            | inl unit ↦
                rw (part, more, unit, range_token, reads_span r.start last v)
                  (ground (arith, mod_unit (v - r.start) step))
            | inr steps ↦
                rw (part, more, steps, range_token, reads_stepped r.start last step v) refl
          ]
        ]
      ]

  star_passes : (t : Token) (v : ℕ) → is_star t ≡ true → reads t v ≡ true
  unfolding is_star
  star_passes star v h = reads_star v
  star_passes (every n) v h = ground arith
  star_passes (single n) v h = ground arith
  star_passes (span a b) v h = ground arith
  star_passes (stepped a b n) v h = ground arith

  passes-map :
      (rs : List Range) (v : ℕ)
      → lo ≤ v
      → v ≤ hi
      → passes reads (map (range_token lo hi) rs) v ≡ any_includes v rs
  passes-map [] v above below = refl
  passes-map (r ∷ rs) v above below =
      ground (arith, reads-range_token r v above below, passes-map rs v above below)

  starred :
      (rs : List Range) (v : ℕ)
      → lo ≤ v
      → v ≤ hi
      → any is_star (map (range_token lo hi) rs) ≡ true
      → any_includes v rs ≡ true
  unfolding is_star
  starred [] v above below h = absurd (ground arith)
  starred (r ∷ rs) v above below h = elim (Bool-cases (is_star (range_token lo hi r))) [
    | inl all ↦
        let t = star_passes (range_token lo hi r) v all in
        ground (arith, reads-range_token r v above below)
    | inr part ↦ ground (arith, starred rs v above below)
  ]

  -- A field passes just the values of the field's domain that one of its ranges includes, and all of
  -- them when it has no range. What croniter lets pass a token is a parameter, with the documented
  -- meaning of the four forms that are used.
  pub field_exact :
      (ranges : List Range) (v : ℕ)
      → lo ≤ v
      → v ≤ hi
      → passes reads (ranges_to_field lo hi ranges) v ≡ (is_empty ranges || any_includes v ranges)
  unfolding ranges_to_field is_empty
  field_exact [] v above below = ground (arith, reads_star v)
  field_exact (r ∷ rs) v above below =
      elim (Bool-cases (any is_star (map (range_token lo hi) (r ∷ rs)))) [
        | inl all ↦
            rw (all, ranges_to_field)
              (ground (arith, reads_star v, starred (r ∷ rs) v above below all))
        | inr part ↦ rw (part, ranges_to_field) (passes-map (r ∷ rs) v above below)
      ]
