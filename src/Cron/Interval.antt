-- ===== src/Cron/Interval.antt =====
-- An interval that divides a cron boundary is compiled to an expression that fires at its multiples
-- (dbosify/_internal/schedules.py).
use Prim.Native.Nat.{◌∣◌}
use native.Mathlib.Nat.{
  mod-mod_of_dvd, dvd_of_mod-eq-zero, mod-eq-zero_of_dvd, dvd-mul_right, dvd_trans, mul-div_cancel',
  mul-dvd-mul_left, dvd_of_mul-dvd-mul_left,
}
use dbosify_py.Prelude.{
  ℕ, ◌*◌, ◌/◌, ◌%◌, ◌≤◌, ◌<◌, ◌≡◌, refl, sym, ap, subst, ◌∙◌, ◌↔◌, ◌⊎◌, inl, inr, Bool, true, false,
  ◌&&◌, ◌||◌, if◌then◌else◌, Option, none, some, List, [], ◌∷◌, ◌==◌, ltb, arith, Bool-cases,
}
use dbosify_py.Prelude.Result.{ok}
use dbosify_py.Cron.{
  Token, star, every, single, CronFields, daily, by_minutes, by_hours, of_seconds, interval_to_cron,
  round_div,
}
use dbosify_py.Cron.Calendar.{passes}

abbrev passes_second : (Token → ℕ → Bool) → Option (List Token) → ℕ → Bool
passes_second reads none v = v == 0
passes_second reads (some field) v = passes reads field v

-- A day as the fields name it.
pub record Day : Type 0 where
  pub day_of_month : ℕ
  pub month : ℕ
  pub day_of_week : ℕ

abbrev is_any : List Token → Bool
is_any (star ∷ []) = true
is_any _ = false

-- Of two restricted fields for days, one is enough.
abbrev passes_day : (Token → ℕ → Bool) → CronFields → Day → Bool
passes_day reads c d =
    passes reads c.month d.month
    && (if is_any c.day_of_month || is_any c.day_of_week
        then passes reads c.day_of_month d.day_of_month && passes reads c.day_of_week d.day_of_week
        else passes reads c.day_of_month d.day_of_month || passes reads c.day_of_week d.day_of_week)

-- Whether an expression fires at a second of a day; without a field for seconds, at second 0.
abbrev pub fires_at : (Token → ℕ → Bool) → CronFields → Day → ℕ → Bool
fires_at reads c d t =
    passes_second reads c.second (t % 60)
    && passes reads c.minute (t / 60 % 60)
    && passes reads c.hour (t / 3600 % 24)
    && passes_day reads c d

-- A period of m units of a seconds each.
units : (a m t : ℕ) → 0 < a → (t % (a * m) ≡ 0) ↔ ((t % a ≡ 0) × (t / a % m ≡ 0))
units a m t pos = (
  λ h.
      let whole = dvd_of_mod-eq-zero (a * m) h in
      let part = dvd_trans a (dvd-mul_right a m) whole in
      let split = subst (λ x. a * m ∣ x) (sym (mul-div_cancel' a part)) whole in
      (mod-eq-zero_of_dvd a part, mod-eq-zero_of_dvd m (dvd_of_mul-dvd-mul_left m pos split)),
  λ h.
      let part = dvd_of_mod-eq-zero a h.0 in
      let rest = mul-dvd-mul_left m a (dvd_of_mod-eq-zero m h.1) in
      mod-eq-zero_of_dvd (a * m) (subst (λ x. a * m ∣ x) (mul-div_cancel' a part) rest),
)

round_seconds : (secs : ℕ) → round_div (secs * 1000) 1000 ≡ secs
unfolding round_div
round_seconds secs = ground arith

-- A number of seconds that divides a minute, of minutes that divides an hour, or of hours that divides
-- a day.
abbrev pub IsBoundary : ℕ → Type 0
IsBoundary secs =
    ((secs < 60) × (60 % secs ≡ 0))
    ⊎ (((m : ℕ) × (secs ≡ 60 * m) × (m ≤ 60) × (60 % m ≡ 0))
        ⊎ ((h : ℕ) × (secs ≡ 3600 * h) × (h ≤ 24) × (24 % h ≡ 0)))

module _ (reads : Token → ℕ → Bool) (reads_star : (v : ℕ) → reads star v ≡ true)
    (reads_single : (n v : ℕ) → reads (single n) v ≡ (v == n))
    (reads_every : (n v : ℕ) → 0 < n → reads (every n) v ≡ (v % n == 0)) where
  abbrev Fires : CronFields → ℕ → Type 0
  Fires c secs = (d : Day) (t : ℕ) → t < 86400 → (fires_at reads c d t ≡ true) ↔ (t % secs ≡ 0)

  any_day :
      (second : Option (List Token)) (minute hour : List Token) (d : Day)
      → passes_day reads (daily second minute hour) d ≡ true
  any_day second minute hour d =
      ground (arith, reads_star d.day_of_month, reads_star d.month, reads_star d.day_of_week)

  seconds-Fires :
      (secs : ℕ)
      → 0 < secs
      → 60 % secs ≡ 0
      → Fires (daily (some (every secs ∷ [])) (star ∷ []) (star ∷ [])) secs
  seconds-Fires secs pos whole d t day =
      let same = mod-mod_of_dvd secs t (dvd_of_mod-eq-zero secs whole) in
      ground (
        arith,
        any_day (some (every secs ∷ [])) (star ∷ []) (star ∷ []) d,
        reads_star (t / 60 % 60),
        reads_star (t / 3600 % 24),
        reads_every secs (t % 60),
      )

  minutes-Fires :
      (m : ℕ) → 0 < m → 60 % m ≡ 0 → Fires (daily none (every m ∷ []) (star ∷ [])) (60 * m)
  minutes-Fires m pos whole d t day =
      let same = mod-mod_of_dvd m (t / 60) (dvd_of_mod-eq-zero m whole) in
      ground (
        arith,
        any_day none (every m ∷ []) (star ∷ []) d,
        reads_star (t / 3600 % 24),
        reads_every m (t / 60 % 60),
        units 60 m t (omega arith),
      )

  hour-Fires : Fires (daily none (single 0 ∷ []) (star ∷ [])) 3600
  hour-Fires d t day = ground (
    arith,
    any_day none (single 0 ∷ []) (star ∷ []) d,
    reads_star (t / 3600 % 24),
    reads_single 0 (t / 60 % 60),
  )

  hours-Fires :
      (h : ℕ) → 0 < h → 24 % h ≡ 0 → Fires (daily none (single 0 ∷ []) (every h ∷ [])) (3600 * h)
  hours-Fires h pos whole d t day =
      let same = mod-mod_of_dvd h (t / 3600) (dvd_of_mod-eq-zero h whole) in
      ground (
        arith,
        any_day none (single 0 ∷ []) (every h ∷ []) d,
        reads_single 0 (t / 60 % 60),
        reads_every h (t / 3600 % 24),
        units 3600 h t (omega arith),
      )

  day-Fires : Fires (daily none (single 0 ∷ []) (single 0 ∷ [])) 86400
  day-Fires d t day = ground (
    arith,
    any_day none (single 0 ∷ []) (single 0 ∷ []) d,
    reads_single 0 (t / 60 % 60),
    reads_single 0 (t / 3600 % 24),
  )

  compiled : (secs : ℕ) → 0 < secs → interval_to_cron (secs * 1000) ≡ of_seconds secs
  unfolding interval_to_cron
  compiled secs pos = ground (arith, round_seconds secs)

  compiled_seconds :
      (secs : ℕ)
      → 0 < secs
      → secs < 60
      → of_seconds secs ≡ ok (daily (some (every secs ∷ [])) (star ∷ []) (star ∷ []))
  unfolding of_seconds
  compiled_seconds secs pos small = ground arith

  compiled_minutes :
      (m : ℕ)
      → 0 < m
      → m < 60
      → 60 % m ≡ 0
      → of_seconds (60 * m) ≡ ok (daily none (every m ∷ []) (star ∷ []))
  unfolding of_seconds by_minutes
  compiled_minutes m pos small whole =
      let number : 60 * m / 60 ≡ m = omega arith in
      let exact : 60 * m % 60 ≡ 0 = omega arith in
      let first : ltb (60 * m) 60 ≡ false = ground arith in
      let nonzero : (60 * m == 0) ≡ false = ground arith in
      rw (nonzero, first, of_seconds, exact, number) (ground (arith, small, whole))

  compiled_hours :
      (h : ℕ)
      → 1 < h
      → h < 24
      → 24 % h ≡ 0
      → of_seconds (3600 * h) ≡ ok (daily none (single 0 ∷ []) (every h ∷ []))
  unfolding of_seconds by_minutes by_hours
  compiled_hours h pos small whole =
      let number : 3600 * h / 3600 ≡ h = omega arith in
      let exact : 3600 * h % 3600 ≡ 0 = omega arith in
      let minutes : 3600 * h / 60 ≡ 60 * h = omega arith in
      let first : ltb (3600 * h) 60 ≡ false = ground arith in
      let nonzero : (3600 * h == 0) ≡ false = ground arith in
      let not_hour : (60 * h == 60) ≡ false = ground arith in
      let not_below : ltb (60 * h) 60 ≡ false = ground arith in
      rw (nonzero, first, of_seconds, minutes, number, exact)
        (ground (arith, small, whole, not_hour, not_below))

  -- An interval of seconds that divide a minute, of minutes that divide an hour or of hours that divide
  -- a day is compiled, and the expression fires on every day, at a second of it just when the interval
  -- divides it. What croniter lets pass a token is a parameter, with the documented meaning of `*`, `n` and `*/n`.
  pub interval_exact :
      (secs : ℕ)
      → 0 < secs
      → IsBoundary secs
      → (c : CronFields) × (interval_to_cron (secs * 1000) ≡ ok c)
        × ((d : Day) (t : ℕ) → t < 86400 → (fires_at reads c d t ≡ true) ↔ (t % secs ≡ 0))
  unfolding of_seconds
  interval_exact secs pos (inl (small, whole)) =
      (_, compiled secs pos ∙ compiled_seconds secs pos small, seconds-Fires secs pos whole)
  interval_exact secs pos (inr (inl (m, is, small, whole))) = elim (Bool-cases (m == 60)) [
    | inl full ↦
        let hour : secs ≡ 3600 = ground arith in
        (
          _,
          compiled secs pos ∙ ap of_seconds hour ∙ refl,
          subst (λ x. Fires (daily none (single 0 ∷ []) (star ∷ [])) x) (sym hour) hour-Fires,
        )
    | inr part ↦
        let some_minutes : 0 < m = omega (arith, is, pos) in
        (
          _,
          compiled secs pos
              ∙ ap of_seconds is
              ∙ compiled_minutes m some_minutes (ground arith) whole,
          subst (λ x. Fires (daily none (every m ∷ []) (star ∷ [])) x) (sym is)
              (minutes-Fires m some_minutes whole),
        )
  ]
  interval_exact secs pos (inr (inr (h, is, small, whole))) = elim (Bool-cases (h == 1)) [
    | inl one_hour ↦
        let hour : secs ≡ 3600 = ground arith in
        (
          _,
          compiled secs pos ∙ ap of_seconds hour ∙ refl,
          subst (λ x. Fires (daily none (single 0 ∷ []) (star ∷ [])) x) (sym hour) hour-Fires,
        )
    | inr more ↦ elim (Bool-cases (h == 24)) [
      | inl full ↦
          let day : secs ≡ 86400 = ground arith in
          (
            _,
            compiled secs pos ∙ ap of_seconds day ∙ refl,
            subst (λ x. Fires (daily none (single 0 ∷ []) (single 0 ∷ [])) x) (sym day) day-Fires,
          )
      | inr part ↦
          let some_hours : 0 < h = omega (arith, is, pos) in
          (
            _,
            compiled secs pos
                ∙ ap of_seconds is
                ∙ compiled_hours h (ground arith) (ground arith) whole,
            subst (λ x. Fires (daily none (single 0 ∷ []) (every h ∷ [])) x) (sym is)
                (hours-Fires h some_hours whole),
          )
    ]
  ]
