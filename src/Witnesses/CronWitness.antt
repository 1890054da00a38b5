-- ===== src/Witnesses/CronWitness.antt =====
-- A schedule's interval and a calendar field to which the theorems on cron expressions are applied.
use dbosify_py.Prelude.{
  ℕ, none, some, ◌-◌, ◌%◌, ◌*◌, ◌<◌, ◌≡◌, ◌↔◌, refl, inr, Bool, true, ◌&&◌, List, [], ◌∷◌, ◌==◌,
  leb, arith,
}
use dbosify_py.Prelude.Result.{ok}
use dbosify_py.Cron.{
  Token, star, every, single, span, stepped, CronFields, interval_to_cron, Range, ranges_to_field,
  is_empty,
}
use dbosify_py.Cron.Valid.{IsValid, interval_to_cron-IsValid}
use dbosify_py.Cron.Calendar.{passes, field_exact}
use dbosify_py.Cron.Interval.{Day, fires_at, interval_exact}
use dbosify_py.Prelude.Text.{Text, text}
use dbosify_py.Cron.Spec.{ScheduleSpec, serialize_spec, deserialize_spec}
use dbosify_py.Cron.Spec.RoundTrip.{IsMadeSpec, deserialize_spec-serialize_spec}

abbrev reads : Token → ℕ → Bool
reads star v = true
reads (every n) v = v % n == 0
reads (single n) v = v == n
reads (span a b) v = leb a v && leb v b
reads (stepped a b n) v = leb a v && leb v b && (v - a) % n == 0

-- Every two hours.
interval_example :
    (c : CronFields) × (interval_to_cron (7200 * 1000) ≡ ok c)
    × ((d : Day) (t : ℕ) → t < 86400 → (fires_at reads c d t ≡ true) ↔ (t % 7200 ≡ 0))
interval_example =
    interval_exact reads (λ v. refl) (λ n v. refl) (λ n v pos. refl) 7200 (omega arith)
      (inr (inr (2, refl, omega arith, refl)))

-- Twenty-five hours, which no cron expression says exactly.
compiled_example : (c : CronFields) × (interval_to_cron (90000 * 1000) ≡ ok c) × IsValid c
compiled_example = interval_to_cron-IsValid (90000 * 1000) (omega arith)

-- The hours 8 to 18, every second one, and 23.
abbrev office : List Range
office =
    (record { start = 8; end = 18; step = 2 }) ∷ (record { start = 23; end = 0; step = 1 }) ∷ []

field_example : passes reads (ranges_to_field 0 23 office) 12 ≡ true
unfolding is_empty
field_example =
    field_exact reads 0 23 (λ v. refl) (λ n v. refl) (λ a b v. refl) (λ a b n v. refl) office 12
      (omega arith) (omega arith)

abbrev isoformat : ℕ → Text
isoformat d = d ∷ []

abbrev fromisoformat : Text → ℕ
fromisoformat [] = 0
fromisoformat (d ∷ t) = d

-- Two intervals, of which the first is used, and a calendar in the office hours.
abbrev spec : ScheduleSpec ℕ
spec = record {
  calendars =
      (record {
        fields = record {
          second = [];
          minute = [];
          hour = (record { start = 8; end = 18; step = 2 }) ∷ [];
          day_of_month = [];
          month = [];
          day_of_week = [];
        };
        year = [];
        comment = none;
      })
      ∷ [];
  intervals =
      (record { every = 7200000; offset = none })
      ∷ (record { every = 60000; offset = some 5 })
      ∷ [];
  cron_expressions = [];
  skip = [];
  start_at = some 2026;
  end_at = none;
  jitter = none;
  time_zone_name = some (text "Europe/Berlin");
}

spec_made : IsMadeSpec spec
spec_made = ground arith

spec_example : deserialize_spec fromisoformat (serialize_spec isoformat spec) ≡ ok spec
spec_example =
    deserialize_spec-serialize_spec isoformat fromisoformat (λ d h. ground arith) (λ d. refl) spec
      spec_made
