-- ===== src/Cron/Spec.antt =====
-- Schedule specs in dbosify/_schedule.py: the document that a schedule's row keeps of its spec, and the
-- cron expression that is compiled from it. Time spans are ticks, so that the rounding of floating-point
-- seconds is left out; the text of a datetime and `parse_cron` are parameters.
pub mod RoundTrip
use dbosify_py.Prelude.{
  ℕ, Bool, true, false, Option, none, some, List, [], ◌∷◌, map, String, ◌==◌, ltb, if◌then◌else◌,
  is_none,
}
use dbosify_py.Prelude.Result.{Result, ok, err, ◌>>=◌}
use dbosify_py.Prelude.Text.{Text, text, text_eq}
use dbosify_py.Cron.{
  Range, CronFields, IntervalError, interval_to_cron, CalendarSpec, calendar_to_cron, print_cron,
}

-- `ScheduleRange(start, end, step)` with its defaults and its `__post_init__`.
unfoldable pub make_range : ℕ → ℕ → ℕ → Range
make_range start end step = record {
  start = start;
  end = if ltb end start then start else end;
  step = if step == 0 then 1 else step;
}

pub record ScheduleCalendarSpec : Type 0 where
  pub fields : CalendarSpec
  pub year : List Range
  pub comment : Option String

pub record ScheduleIntervalSpec : Type 0 where
  pub every : ℕ
  pub offset : Option ℕ

pub record ScheduleSpec (D : Type 0) : Type 0 where
  pub calendars : List ScheduleCalendarSpec
  pub intervals : List ScheduleIntervalSpec
  pub cron_expressions : List Text
  pub skip : List ScheduleCalendarSpec
  pub start_at : Option D
  pub end_at : Option D
  pub jitter : Option ℕ
  pub time_zone_name : Option Text

-- The JSON documents, a row of a range as the list of its numbers.
pub record CalendarDoc : Type 0 where
  pub second : List (List ℕ)
  pub minute : List (List ℕ)
  pub hour : List (List ℕ)
  pub day_of_month : List (List ℕ)
  pub month : List (List ℕ)
  pub year : List (List ℕ)
  pub day_of_week : List (List ℕ)
  pub comment : Option String

pub record SpecDoc : Type 0 where
  pub intervals : List (ℕ × Option ℕ)
  pub calendars : List CalendarDoc
  pub cron_expressions : List Text
  pub skip : List CalendarDoc
  pub start_at : Option Text
  pub end_at : Option Text
  pub jitter : Option ℕ
  pub time_zone_name : Option Text

unfoldable pub row_of_range : Range → List ℕ
row_of_range r = r.start ∷ r.end ∷ r.step ∷ []

unfoldable pub serialize_calendar : ScheduleCalendarSpec → CalendarDoc
unfolding row_of_range
serialize_calendar cal = record {
  second = map row_of_range cal.fields.second;
  minute = map row_of_range cal.fields.minute;
  hour = map row_of_range cal.fields.hour;
  day_of_month = map row_of_range cal.fields.day_of_month;
  month = map row_of_range cal.fields.month;
  year = map row_of_range cal.year;
  day_of_week = map row_of_range cal.fields.day_of_week;
  comment = cal.comment;
}

pub data SpecError : Type 0 where
  wrong_arity no_times : SpecError
  bad_interval : IntervalError → SpecError
  bad_cron : Text → SpecError

-- `ScheduleRange(*row)`
unfoldable pub range_of_row : List ℕ → Result SpecError Range
unfolding make_range
range_of_row (a ∷ []) = ok (make_range a 0 0)
range_of_row (a ∷ (b ∷ [])) = ok (make_range a b 0)
range_of_row (a ∷ (b ∷ (s ∷ []))) = ok (make_range a b s)
range_of_row _ = err wrong_arity

-- A comprehension whose items may raise.
unfoldable pub each : {A B : Type 0} → (A → Result SpecError B) → List A → Result SpecError (List B)
each f [] = ok []
each f (x ∷ xs) = do y ← f x; ys ← each f xs; ok (y ∷ ys)

unfoldable pub deserialize_calendar : CalendarDoc → Result SpecError ScheduleCalendarSpec
unfolding each range_of_row
deserialize_calendar doc = do
  second ← each range_of_row doc.second
  minute ← each range_of_row doc.minute
  hour ← each range_of_row doc.hour
  day_of_month ← each range_of_row doc.day_of_month
  month ← each range_of_row doc.month
  year ← each range_of_row doc.year
  day_of_week ← each range_of_row doc.day_of_week
  ok (record {
    fields = record {
      second = second;
      minute = minute;
      hour = hour;
      day_of_month = day_of_month;
      month = month;
      day_of_week = day_of_week;
    };
    year = year;
    comment = doc.comment;
  })

unfoldable pub interval_doc : ScheduleIntervalSpec → ℕ × Option ℕ
interval_doc i = (i.every, i.offset)

unfoldable pub interval_of_doc : ℕ × Option ℕ → ScheduleIntervalSpec
interval_of_doc (every, offset) = record { every = every; offset = offset }

module _ {D : Type 0} (isoformat : D → Text) where
  unfoldable pub stamp : Option D → Option Text
  stamp none = none
  stamp (some at) = some (isoformat at)

  unfoldable pub serialize_spec : ScheduleSpec D → SpecDoc
  unfolding serialize_calendar interval_doc stamp
  serialize_spec spec = record {
    intervals = map interval_doc spec.intervals;
    calendars = map serialize_calendar spec.calendars;
    cron_expressions = spec.cron_expressions;
    skip = map serialize_calendar spec.skip;
    start_at = stamp spec.start_at;
    end_at = stamp spec.end_at;
    jitter = spec.jitter;
    time_zone_name = spec.time_zone_name;
  }

module _ {D : Type 0} (fromisoformat : Text → D) where
  -- `_parse_dt`: the empty text is falsy.
  unfoldable pub parse_dt : Option Text → Option D
  parse_dt none = none
  parse_dt (some []) = none
  parse_dt (some (c ∷ t)) = some (fromisoformat (c ∷ t))

  unfoldable pub deserialize_spec : SpecDoc → Result SpecError (ScheduleSpec D)
  unfolding deserialize_calendar interval_of_doc parse_dt each
  deserialize_spec doc = do
    calendars ← each deserialize_calendar doc.calendars
    skip ← each deserialize_calendar doc.skip
    ok (record {
      calendars = calendars;
      intervals = map interval_of_doc doc.intervals;
      cron_expressions = doc.cron_expressions;
      skip = skip;
      start_at = parse_dt doc.start_at;
      end_at = parse_dt doc.end_at;
      jitter = doc.jitter;
      time_zone_name = doc.time_zone_name;
    })

-- `a or b`, where the empty text is falsy.
or_text : Option Text → Option Text → Option Text
or_text none b = b
or_text (some []) b = b
or_text (some (c ∷ t)) b = some (c ∷ t)

-- None if str(tz) == "UTC" else str(tz)
named_zone : Text → Option Text
named_zone tz = if text_eq tz (text "UTC") then none else some tz

of_interval : ScheduleIntervalSpec → Option Text → Result SpecError (Text × Option Text)
of_interval i tz = elim (interval_to_cron i.every) [
  | ok cron ↦ ok (print_cron cron, tz)
  | err why ↦ err (bad_interval why)
]

of_expression :
    (Text → Result Text (Text × Text)) → Text → Option Text → Result SpecError (Text × Option Text)
unfolding or_text named_zone
of_expression parse_cron expression tz = elim (parse_cron expression) [
  | ok (fields, zone) ↦ ok (fields, or_text tz (named_zone zone))
  | err why ↦ err (bad_cron why)
]

of_calendars : List ScheduleCalendarSpec → Option Text → Result SpecError (Text × Option Text)
of_calendars [] tz = err no_times
of_calendars (c ∷ cs) tz = ok (print_cron (calendar_to_cron c.fields), tz)

of_intervals :
    List ScheduleIntervalSpec
    → List ScheduleCalendarSpec
    → Option Text
    → Result SpecError (Text × Option Text)
unfolding of_interval of_calendars
of_intervals [] calendars tz = of_calendars calendars tz
of_intervals (i ∷ is) calendars tz = of_interval i tz

module _ {D : Type 0} (parse_cron : Text → Result Text (Text × Text)) where
  -- `compile_spec`: an expression, else an interval, else a calendar, and of each the first.
  unfoldable pub compile_spec : ScheduleSpec D → Result SpecError (Text × Option Text)
  unfolding of_intervals of_expression
  compile_spec spec = elim spec.cron_expressions [
    | [] ↦ of_intervals spec.intervals spec.calendars spec.time_zone_name
    | expression ∷ rest ↦ of_expression parse_cron expression spec.time_zone_name
  ]

  -- The parts of `create_schedule_row` and `_next_action_times` that treat the spec: what the new row
  -- gets as its expression, its zone and its document, and what is compiled from the document.
  unfoldable pub created_row :
      (isoformat : D → Text) → ScheduleSpec D → Result SpecError ((Text × Option Text) × SpecDoc)
  unfolding compile_spec serialize_spec
  created_row isoformat spec = do cron ← compile_spec spec; ok (cron, serialize_spec isoformat spec)

  unfoldable pub described_cron :
      (fromisoformat : Text → D) → SpecDoc → Result SpecError (Text × Option Text)
  unfolding compile_spec deserialize_spec
  described_cron fromisoformat doc = do spec ← deserialize_spec fromisoformat doc; compile_spec spec
