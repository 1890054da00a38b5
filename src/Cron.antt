-- ===== src/Cron.antt =====
-- Cron expressions for schedules: `interval_to_cron`, `calendar_to_cron` and `_ranges_to_field` of
-- dbosify/_internal/schedules.py. A field is the list of its tokens, which commas join; time spans are
-- ticks, 1000 to the second. The log lines are left out.
pub mod Interval
pub mod Valid
pub mod Calendar
pub mod Spec
use dbosify_py.Prelude.{
  ℕ, suc, ◌+◌, ◌*◌, ◌/◌, ◌%◌, Bool, true, false, not, ◌&&◌, ◌||◌, Option, none, some, List, [], ◌∷◌,
  ◌++◌, ◌==◌, ltb, leb, any, map, if◌then◌else◌, max, min, is_none,
}
use dbosify_py.Prelude.Result.{Result, ok, err}
use dbosify_py.Prelude.Text.{Text, text, str}

-- `*`, `*/n`, `n`, `a-b` and `a-b/n`
pub data Token : Type 0 where
  star : Token
  every : ℕ → Token
  single : ℕ → Token
  span : ℕ → ℕ → Token
  stepped : ℕ → ℕ → ℕ → Token

-- Without a field for seconds, the expression has five fields.
pub record CronFields : Type 0 where
  pub second : Option (List Token)
  pub minute : List Token
  pub hour : List Token
  pub day_of_month : List Token
  pub month : List Token
  pub day_of_week : List Token

print_token : Token → Text
print_token star = text "*"
print_token (every n) = text "*/" ++ str n
print_token (single n) = str n
print_token (span a b) = str a ++ (text "-" ++ str b)
print_token (stepped a b n) = str a ++ (text "-" ++ (str b ++ (text "/" ++ str n)))

-- `sep.join`
join : Text → List Text → Text
join sep [] = []
join sep (t ∷ []) = t
join sep (t ∷ (u ∷ ts)) = t ++ (sep ++ join sep (u ∷ ts))

unfoldable pub print_field : List Token → Text
unfolding join print_token
print_field tokens = join (text ",") (map print_token tokens)

unfoldable pub print_cron : CronFields → Text
unfolding join print_field
print_cron c =
    let fields =
      print_field c.minute
      ∷ print_field c.hour
      ∷ print_field c.day_of_month
      ∷ print_field c.month
      ∷ print_field c.day_of_week
      ∷ [] in
    elim c.second [
      | none ↦ join (text " ") fields
      | some field ↦ join (text " ") (print_field field ∷ fields)
    ]

pub data IntervalError : Type 0 where
  not_positive zero_division : IntervalError

-- `round(n / d)`: to the nearest, and of two equally near ones to the even one.
unfoldable pub round_div : ℕ → ℕ → ℕ
round_div n d =
    if ltb (n % d * 2) d then n / d else if ltb d (n % d * 2) then n / d + 1 else n / d + n / d % 2

abbrev pub daily : Option (List Token) → List Token → List Token → CronFields
daily second minute hour = record {
  second = second;
  minute = minute;
  hour = hour;
  day_of_month = star ∷ [];
  month = star ∷ [];
  day_of_week = star ∷ [];
}

abbrev pub every_days : ℕ → CronFields
every_days n = record {
  second = none;
  minute = single 0 ∷ [];
  hour = single 0 ∷ [];
  day_of_month = every n ∷ [];
  month = star ∷ [];
  day_of_week = star ∷ [];
}

-- An interval that divides no boundary.
unfoldable pub approximated : ℕ → CronFields
unfolding round_div
approximated secs =
    if secs % 86400 == 0
    then every_days (min (secs / 86400) 31)
    else (let mins = max 1 (round_div secs 60) in
        if ltb mins 60
        then daily none (every mins ∷ []) (star ∷ [])
        else daily none (single 0 ∷ []) (star ∷ []))

unfoldable pub by_hours : ℕ → CronFields
unfolding approximated
by_hours secs =
    if secs % 3600 == 0 && secs / 3600 == 24
    then daily none (single 0 ∷ []) (single 0 ∷ [])
    else if secs % 3600 == 0 && ltb (secs / 3600) 24 && 24 % (secs / 3600) == 0
    then daily none (single 0 ∷ []) (every (secs / 3600) ∷ [])
    else approximated secs

unfoldable pub by_minutes : ℕ → CronFields
unfolding by_hours
by_minutes secs =
    if secs % 60 == 0 && secs / 60 == 60
    then daily none (single 0 ∷ []) (star ∷ [])
    else if secs % 60 == 0 && ltb (secs / 60) 60 && 60 % (secs / 60) == 0
    then daily none (every (secs / 60) ∷ []) (star ∷ [])
    else by_hours secs

-- The whole seconds of an interval that is not empty; below 60, `60 % secs` raises for 0.
unfoldable pub of_seconds : ℕ → Result IntervalError CronFields
unfolding by_minutes
of_seconds secs =
    if secs == 0
    then err zero_division
    else if ltb secs 60
    then ok (daily (some (every secs ∷ [])) (star ∷ []) (star ∷ []))
    else ok (by_minutes secs)

-- `interval_to_cron`; the offset is ignored.
unfoldable pub interval_to_cron : ℕ → Result IntervalError CronFields
unfolding of_seconds round_div
interval_to_cron total = if total == 0 then err not_positive else of_seconds (round_div total 1000)

-- (start, end, step)
pub record Range : Type 0 where
  pub start : ℕ
  pub end : ℕ
  pub step : ℕ

-- One range of `_ranges_to_field`; a step of 0 counts as 1.
unfoldable pub range_token : ℕ → ℕ → Range → Token
range_token lo hi r =
    let last = max r.start r.end in
    let step = max 1 r.step in
    if leb r.start lo && leb hi last && step == 1
    then star
    else if r.start == last
    then single r.start
    else if step == 1
    then span r.start last
    else stepped r.start last step

unfoldable pub is_star : Token → Bool
is_star star = true
is_star _ = false

unfoldable pub is_empty : List Range → Bool
is_empty [] = true
is_empty (r ∷ rs) = false

unfoldable pub ranges_to_field : ℕ → ℕ → List Range → List Token
unfolding range_token is_star is_empty
ranges_to_field lo hi ranges =
    if is_empty ranges || any is_star (map (range_token lo hi) ranges)
    then star ∷ []
    else map (range_token lo hi) ranges

pub record CalendarSpec : Type 0 where
  pub second : List Range
  pub minute : List Range
  pub hour : List Range
  pub day_of_month : List Range
  pub month : List Range
  pub day_of_week : List Range

-- sec_field != "0"
unfoldable pub is_zero_field : List Token → Bool
is_zero_field (single n ∷ []) = n == 0
is_zero_field _ = false

unfoldable pub calendar_to_cron : CalendarSpec → CronFields
unfolding ranges_to_field is_zero_field
calendar_to_cron spec = record {
  second =
      if is_zero_field (ranges_to_field 0 59 spec.second)
      then none
      else some (ranges_to_field 0 59 spec.second);
  minute = ranges_to_field 0 59 spec.minute;
  hour = ranges_to_field 0 23 spec.hour;
  day_of_month = ranges_to_field 1 31 spec.day_of_month;
  month = ranges_to_field 1 12 spec.month;
  day_of_week = ranges_to_field 0 6 spec.day_of_week;
}
