-- ===== src/Cron/Valid.antt =====
-- An interval is compiled to an expression whose numbers are in range (dbosify/_internal/schedules.py).
use dbosify_py.Prelude.{
  ℕ, ◌/◌, ◌%◌, ◌≤◌, ◌<◌, ◌≡◌, refl, Bool, true, false, ◌&&◌, Option, none, some, List, [], ◌∷◌,
  ◌==◌, ltb, leb, max, arith, Bool-cases, inl, inr,
}
use dbosify_py.Prelude.Result.{ok}
use dbosify_py.Cron.{
  Token, star, every, single, span, stepped, CronFields, daily, by_minutes, by_hours, approximated,
  of_seconds, interval_to_cron, round_div,
}

-- A number of a field whose values go from lo to hi; a step is from 1 to hi.
unfoldable pub in_range : ℕ → ℕ → Token → Bool
in_range lo hi star = true
in_range lo hi (every n) = leb 1 n && leb n hi
in_range lo hi (single n) = leb lo n && leb n hi
in_range lo hi (span a b) = leb lo a && leb a b && leb b hi
in_range lo hi (stepped a b n) = leb lo a && leb a b && leb b hi && leb 1 n

abbrev pub all_in_range : ℕ → ℕ → List Token → Bool
all_in_range lo hi [] = true
all_in_range lo hi (t ∷ ts) = in_range lo hi t && all_in_range lo hi ts

-- A field that is not empty and whose numbers are in range.
abbrev pub field_in_range : ℕ → ℕ → List Token → Bool
field_in_range lo hi [] = false
field_in_range lo hi (t ∷ ts) = all_in_range lo hi (t ∷ ts)

abbrev pub seconds_in_range : Option (List Token) → Bool
seconds_in_range none = true
seconds_in_range (some ts) = field_in_range 0 59 ts

abbrev pub IsValid : CronFields → Type 0
IsValid c =
    (seconds_in_range c.second ≡ true)
    × (field_in_range 0 59 c.minute ≡ true)
    × (field_in_range 0 23 c.hour ≡ true)
    × (field_in_range 1 31 c.day_of_month ≡ true)
    × (field_in_range 1 12 c.month ≡ true)
    × (field_in_range 0 6 c.day_of_week ≡ true)

approximated-IsValid : (secs : ℕ) → 0 < secs → IsValid (approximated secs)
unfolding approximated in_range
approximated-IsValid secs pos = elim (Bool-cases (secs % 86400 == 0)) [
  | inl days ↦ rw (days, approximated) (ground arith)
  | inr other ↦ elim (Bool-cases (ltb (max 1 (round_div secs 60)) 60)) [
    | inl minutes ↦ rw (other, minutes, approximated) (ground arith)
    | inr hour ↦ rw (other, hour, approximated) (ground arith)
  ]
]

by_hours-IsValid : (secs : ℕ) → 60 ≤ secs → IsValid (by_hours secs)
unfolding by_hours in_range
by_hours-IsValid secs large = elim (Bool-cases (secs % 3600 == 0 && secs / 3600 == 24)) [
  | inl day ↦ rw (day, by_hours) (ground arith)
  | inr other ↦
      elim (Bool-cases (secs % 3600 == 0 && ltb (secs / 3600) 24 && 24 % (secs / 3600) == 0)) [
        | inl hours ↦ rw (other, hours, by_hours) (ground arith)
        | inr rest ↦ rw (other, rest, by_hours) (approximated-IsValid secs (omega arith))
      ]
]

by_minutes-IsValid : (secs : ℕ) → 60 ≤ secs → IsValid (by_minutes secs)
unfolding by_minutes in_range
by_minutes-IsValid secs large = elim (Bool-cases (secs % 60 == 0 && secs / 60 == 60)) [
  | inl hour ↦ rw (hour, by_minutes) (ground arith)
  | inr other ↦ elim (Bool-cases (secs % 60 == 0 && ltb (secs / 60) 60 && 60 % (secs / 60) == 0)) [
    | inl minutes ↦ rw (other, minutes, by_minutes) (ground arith)
    | inr rest ↦ rw (other, rest, by_minutes) (by_hours-IsValid secs large)
  ]
]

of_seconds-IsValid : (secs : ℕ) → 0 < secs → (c : CronFields) × (of_seconds secs ≡ ok c) × IsValid c
unfolding of_seconds in_range
of_seconds-IsValid secs pos =
    let some_seconds : (secs == 0) ≡ false = ground arith in
    elim (Bool-cases (ltb secs 60)) [
      | inl seconds ↦ (
        daily (some (every secs ∷ [])) (star ∷ []) (star ∷ []),
        rw (some_seconds, seconds, of_seconds) refl,
        ground arith,
      )
      | inr more ↦ (
        by_minutes secs,
        rw (some_seconds, more, of_seconds) refl,
        by_minutes-IsValid secs (ground arith),
      )
    ]

round_up : (total : ℕ) → 500 < total → 0 < round_div total 1000
unfolding round_div
round_up total h = ground arith

-- An interval of more than half a second is compiled, no field of the expression is empty, and every
-- number of it is one that its field can have: no step is zero, and nothing is beyond the field's
-- greatest value.
pub interval_to_cron-IsValid :
    (total : ℕ) → 500 < total → (c : CronFields) × (interval_to_cron total ≡ ok c) × IsValid c
unfolding interval_to_cron
interval_to_cron-IsValid total h =
    let some_ticks : (total == 0) ≡ false = ground arith in
    let (c, compiled, valid) = of_seconds-IsValid (round_div total 1000) (round_up total h) in
    (c, rw (some_ticks, interval_to_cron) compiled, valid)
