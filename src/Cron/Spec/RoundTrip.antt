-- ===== src/Cron/Spec/RoundTrip.antt =====
-- A schedule's spec survives the document in its row (dbosify/_schedule.py).
use dbosify_py.Prelude.{
  ◌≤◌, ◌<◌, ◌≡◌, ◌≢◌, refl, ap, ◌∙◌, Option, none, some, List, [], ◌∷◌, map, All, arith,
}
use dbosify_py.Prelude.Result.{ok}
use dbosify_py.Prelude.Text.{Text}
use dbosify_py.Cron.{Range}
use dbosify_py.Cron.Spec.{
  make_range, ScheduleCalendarSpec, ScheduleIntervalSpec, ScheduleSpec, row_of_range,
  serialize_calendar, range_of_row, each, deserialize_calendar, interval_doc, interval_of_doc,
  stamp, parse_dt, serialize_spec, deserialize_spec,
}

-- What the constructor of a range ensures.
abbrev pub IsMade : Range → Type 0
IsMade r = (r.start ≤ r.end) × (0 < r.step)

abbrev pub IsMadeCalendar : ScheduleCalendarSpec → Type 0
IsMadeCalendar c =
    All IsMade c.fields.second
    × All IsMade c.fields.minute
    × All IsMade c.fields.hour
    × All IsMade c.fields.day_of_month
    × All IsMade c.fields.month
    × All IsMade c.fields.day_of_week
    × All IsMade c.year

abbrev pub IsMadeSpec : {D : Type 0} → ScheduleSpec D → Type 0
IsMadeSpec spec = All IsMadeCalendar spec.calendars × All IsMadeCalendar spec.skip

each-rows : (rs : List Range) → All IsMade rs → each range_of_row (map row_of_range rs) ≡ ok rs
unfolding each range_of_row row_of_range make_range
each-rows [] made = refl
each-rows (r ∷ rs) made = ground (arith, each-rows rs)

deserialize-serialize_calendar :
    (c : ScheduleCalendarSpec)
    → IsMadeCalendar c
    → deserialize_calendar (serialize_calendar c) ≡ ok c
unfolding deserialize_calendar serialize_calendar
deserialize-serialize_calendar c (s, m, h, d, mo, w, y) =
    rw
      (
        each-rows c.fields.second s,
        each-rows c.fields.minute m,
        each-rows c.fields.hour h,
        each-rows c.fields.day_of_month d,
        each-rows c.fields.month mo,
        each-rows c.year y,
        each-rows c.fields.day_of_week w,
      )
      refl

each-calendars :
    (cs : List ScheduleCalendarSpec)
    → All IsMadeCalendar cs
    → each deserialize_calendar (map serialize_calendar cs) ≡ ok cs
unfolding each
each-calendars [] made = refl
each-calendars (c ∷ cs) (made, rest) =
    rw (deserialize-serialize_calendar c made, each-calendars cs rest) refl

map-intervals : (is : List ScheduleIntervalSpec) → map interval_of_doc (map interval_doc is) ≡ is
unfolding interval_of_doc interval_doc
map-intervals [] = refl
map-intervals (i ∷ is) = ap (λ rest. i ∷ rest) (map-intervals is)

module _ {D : Type 0} (isoformat : D → Text) (fromisoformat : Text → D)
    (is_text : (d : D) → isoformat d ≢ [])
    (reads_back : (d : D) → fromisoformat (isoformat d) ≡ d) where
  parse-text : (t : Text) → t ≢ [] → parse_dt fromisoformat (some t) ≡ some (fromisoformat t)
  unfolding parse_dt
  parse-text [] full = absurd (full refl)
  parse-text (c ∷ t) full = refl

  parse-stamp : (at : Option D) → parse_dt fromisoformat (stamp isoformat at) ≡ at
  unfolding parse_dt stamp
  parse-stamp none = refl
  parse-stamp (some d) = parse-text (isoformat d) (is_text d) ∙ ap some (reads_back d)

  -- The document of a spec is read back as the spec, when its ranges are made by the constructor, which
  -- puts the end at the start or behind it and the step above 0. The text of a datetime is a parameter
  -- that is not empty and is read back.
  pub deserialize_spec-serialize_spec :
      (spec : ScheduleSpec D)
      → IsMadeSpec spec
      → deserialize_spec fromisoformat (serialize_spec isoformat spec) ≡ ok spec
  unfolding deserialize_spec serialize_spec
  deserialize_spec-serialize_spec spec (calendars, skip) =
      rw
        (
          each-calendars spec.calendars calendars,
          each-calendars spec.skip skip,
          map-intervals spec.intervals,
          parse-stamp spec.start_at,
          parse-stamp spec.end_at,
        )
        refl
