-- ===== src/C/Time/Zone.antt =====
-- Broken-down time: `gmtime_r` and `timegm`, one behind the other.
use dbabstract.Prelude.{ℕ, ◌+◌, ◌/◌, ◌%◌, ◌≤◌, ◌≡◌, refl, ap, arith, ◌≡⟨◌⟩◌, ◌∎}
use dbabstract.Prelude.Int.{ℤ, pos, pos_part, neg_part, ◌+ℤ◌, ◌-ℤ◌, ◌*ℤ◌, div_ℤ, mod_ℤ, int_laws}
use dbabstract.Prelude.Int.Division.{mod_ℤ-lt, div_ℤ-mod_ℤ, div_ℤ_unique, mod_ℤ_unique}
use dbabstract.C.Time.{
  days_before_year, days_before_month, find_year, find_month, era_days, epoch_day, civil, gmtime,
  timegm,
}
use dbabstract.C.Time.Days.{IsYearDay, IsMonthDay, find_year-first, find_month-first}

-- The day number of a date that stands in era `e` at year `y` of the era, and the time of that day.
module _ (e : ℤ) (y m : ℕ) (yin : y ≤ 399) (min : m ≤ 11) where
  months_eq :
      (e *ℤ 400 +ℤ pos y -ℤ pos 1900 +ℤ pos 1900) *ℤ 12 +ℤ pos m
      ≡ (e *ℤ 400 +ℤ pos y) *ℤ 12 +ℤ pos m
  months_eq = ap (λ w. w *ℤ 12 +ℤ pos m) (omega int_laws)

  pub timegm_fields :
      (day h mi s : ℤ)
      → timegm (record {
        tm_year = e *ℤ 400 +ℤ pos y -ℤ pos 1900;
        tm_mon = pos m;
        tm_mday = day;
        tm_hour = h;
        tm_min = mi;
        tm_sec = s;
      })
        ≡ (e *ℤ era_days
              +ℤ pos (days_before_year y + days_before_month y m)
              +ℤ day
              -ℤ pos (epoch_day + 1))
            *ℤ 86400
          +ℤ h *ℤ 3600
          +ℤ mi *ℤ 60
          +ℤ s
  unfolding timegm
  timegm_fields day h mi s = rw (
    months_eq,
    div_ℤ_unique (e *ℤ 400 +ℤ pos y) 12 m (omega arith),
    mod_ℤ_unique (e *ℤ 400 +ℤ pos y) 12 m (omega arith),
    div_ℤ_unique e 400 y (omega arith),
    mod_ℤ_unique e 400 y (omega arith),
  )

-- The sum that `timegm_fields` gives is the time again, once the parts are what `gmtime_r` found.
reassemble :
    (t z e : ℤ) (doe doy days s : ℕ)
    → div_ℤ t 86400 *ℤ 86400 +ℤ pos s ≡ t
    → z ≡ div_ℤ t 86400 +ℤ pos epoch_day
    → e *ℤ era_days +ℤ pos doe ≡ z
    → days + doy ≡ doe
    → (e *ℤ era_days +ℤ pos days +ℤ pos (doy + 1) -ℤ pos (epoch_day + 1)) *ℤ 86400
        +ℤ pos (s / 3600) *ℤ 3600
        +ℤ pos (s % 3600 / 60) *ℤ 60
        +ℤ pos (s % 60)
      ≡ t
reassemble t z e doe doy days s ht hz he hd = omega (
  int_laws,
  ap pos_part ht,
  ap neg_part ht,
  ap pos_part hz,
  ap neg_part hz,
  ap pos_part he,
  ap neg_part he,
)

-- Broken-down UTC time goes back to the time that it was made from.
pub timegm-gmtime : (t : ℤ) → timegm (gmtime t) ≡ t
unfolding gmtime civil
timegm-gmtime t =
    timegm (gmtime t)
    ≡⟨ timegm_fields e yd.0 md.0 year.in_era month.in_year _ _ _ _ ⟩ _
    ≡⟨ reassemble t z e doe md.1 (days_before_year yd.0 + days_before_month yd.0 md.0) _
        (div_ℤ-mod_ℤ t 86400 (omega arith)) refl (div_ℤ-mod_ℤ z era_days (omega arith))
        (omega (arith, year.same_day, month.same_day)) ⟩
      t ∎
  where
    z : ℤ
    z = div_ℤ t 86400 +ℤ pos epoch_day

    e : ℤ
    e = div_ℤ z era_days

    doe : ℕ
    doe = mod_ℤ z era_days

    yd : ℕ × ℕ
    yd = find_year 399 0 doe

    year : IsYearDay doe yd
    year = find_year-first doe (mod_ℤ-lt z era_days (omega arith))

    md : ℕ × ℕ
    md = find_month yd.0 11 0 yd.1

    month : IsMonthDay yd.0 yd.1 md
    month = find_month-first yd.0 yd.1 year.in_year
