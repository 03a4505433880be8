-- ===== src/C/Time/Days.antt =====
-- Day numbers and dates: the searches of `gmtime_r` and the sums of `timegm`.
use Prim.Native.Nat.add
use dbabstract.Prelude.{ℕ, zero, suc, ◌+◌, ◌-◌, ◌≤◌, ◌<◌, ◌≡◌, refl, arith}
use dbabstract.C.Time.{
  days_in_year, days_in_month, days_before_month, days_before_year, find_year, find_month, era_days,
}

pub days_before_year-suc : (y : ℕ) → days_before_year (suc y) ≡ days_before_year y + days_in_year y
unfolding days_before_year days_in_year
days_before_year-suc zero = refl
days_before_year-suc (suc p) = ground arith

-- A search from year `y` keeps the day number, and ends within the year that it answers.
pub record IsYearDay (day : ℕ) (r : ℕ × ℕ) : Type 0 where
  pub same_day : days_before_year r.0 + r.1 ≡ day
  pub in_year : r.1 < days_in_year r.0
  pub in_era : r.0 ≤ 399

find_year-IsYearDay :
    (left y d : ℕ)
    → y + left ≡ 399
    → days_before_year y + d < days_before_year 400
    → IsYearDay (days_before_year y + d) (find_year left y d)
unfolding find_year
find_year-IsYearDay zero y d h lt =
    let e : y ≡ 399 = omega arith in
    rw e (record {
      same_day = refl;
      in_year = omega (arith, days_before_year-suc 399, rw e at lt);
      in_era = omega arith;
    })
find_year-IsYearDay (suc left) y d h lt =
    ground (arith, days_before_year-suc y, find_year-IsYearDay left (y + 1) (d - days_in_year y))

pub find_year-first : (d : ℕ) → d < era_days → IsYearDay d (find_year 399 0 d)
unfolding days_before_year
find_year-first d lt = rw (add.zero d) at (find_year-IsYearDay 399 0 d refl (rw (add.zero d) lt))

pub twelve_months : (y : ℕ) → days_before_month y 12 ≡ days_in_year y
unfolding days_before_month days_in_year
twelve_months y = ground arith

pub record IsMonthDay (y doy : ℕ) (r : ℕ × ℕ) : Type 0 where
  pub same_day : days_before_month y r.0 + r.1 ≡ doy
  pub in_month : r.1 < days_in_month y r.0
  pub in_year : r.0 ≤ 11

days_before_month-suc :
    (y m : ℕ) → days_before_month y (m + 1) ≡ days_before_month y m + days_in_month y m
unfolding days_before_month
days_before_month-suc y m = ground arith

find_month-IsMonthDay :
    (y left m d : ℕ)
    → m + left ≡ 11
    → days_before_month y m + d < days_in_year y
    → IsMonthDay y (days_before_month y m + d) (find_month y left m d)
unfolding find_month
find_month-IsMonthDay y zero m d h lt =
    let e : m ≡ 11 = omega arith in
    rw e (record {
      same_day = refl;
      in_month = omega (arith, days_before_month-suc y 11, twelve_months y, rw e at lt);
      in_year = omega arith;
    })
find_month-IsMonthDay y (suc left) m d h lt =
    ground (
      arith,
      days_before_month-suc y m,
      find_month-IsMonthDay y left (m + 1) (d - days_in_month y m),
    )

pub find_month-first : (y doy : ℕ) → doy < days_in_year y → IsMonthDay y doy (find_month y 11 0 doy)
unfolding days_before_month
find_month-first y doy lt =
    rw (add.zero doy) at (find_month-IsMonthDay y 11 0 doy refl (rw (add.zero doy) lt))
