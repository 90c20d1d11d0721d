-- ===== src/Workflow/Deadlines/NewYear.antt =====
-- The day on which a New Year's Day on a Saturday is observed (tandem/workflow/deadlines.py).
use tandem_interface_ai.Prelude.{ℕ, suc, ◌+◌, ◌≤◌, ◌≡◌, ap, arith, true, false, map, nat_beq}
use tandem_interface_ai.Workflow.Calendar.{
  date, weekday, year_of, days_before_year, days_before_month, leap_day, is_leap,
}
use tandem_interface_ai.Workflow.Calendar.Years.{days_before_year-suc, leap_day-le}
use tandem_interface_ai.Workflow.Deadlines.Window.{any_of-append, floating_weekdays}
use tandem_interface_ai.Workflow.Deadlines.{
  observed, fixed_holidays, floating_holidays, federal_holidays, is_among, is_business_day,
}

year_of_last_day : (y : ℕ) → 1 ≤ y → year_of (date y 12 31) ≡ y
unfolding year_of date days_before_year days_before_month leap_day is_leap
year_of_last_day y h = ground arith

next_new_year : (y : ℕ) → 1 ≤ y → date (y + 1) 1 1 ≡ date y 12 31 + 1
unfolding date days_before_month
next_new_year y h = omega (arith, days_before_year-suc y h, ap days_before_year add_one)
  where
    add_one : y + 1 ≡ suc y
    add_one = omega arith

-- New Year's Day of the next year is a Saturday, so this Friday is its observed holiday.
observed_on_friday :
    (y : ℕ) → 1 ≤ y → weekday (date y 12 31) ≡ 4 → observed (date (y + 1) 1 1) ≡ date y 12 31
unfolding observed weekday
observed_on_friday y h f = ground (arith, f, next_new_year y h)

new_year_observed :
    (y : ℕ)
    → 1 ≤ y
    → weekday (date y 12 31) ≡ 4
    → is_among (date y 12 31) (federal_holidays (y + 1)) ≡ true
unfolding federal_holidays fixed_holidays
new_year_observed y h f = ground (arith, observed_on_friday y h f)

observed-le : (h : ℕ) → observed h ≤ h + 1
unfolding observed
observed-le h = ground arith

fixed_before : (y : ℕ) → is_among (date y 12 31) (map observed (fixed_holidays y)) ≡ false
unfolding fixed_holidays date days_before_month
fixed_before y = ground (
  arith,
  leap_day-le y,
  observed-le (date y 1 1),
  observed-le (date y 6 19),
  observed-le (date y 7 4),
  observed-le (date y 11 11),
  observed-le (date y 12 25),
)

floating-friday : (y day : ℕ) → weekday day ≡ 4 → is_among day (floating_holidays y) ≡ false
unfolding floating_holidays
floating-friday y day h = ground (arith, floating_weekdays y, h)

last_day_open :
    (y : ℕ) → weekday (date y 12 31) ≡ 4 → is_among (date y 12 31) (federal_holidays y) ≡ false
unfolding federal_holidays
last_day_open y f = ground (
  arith,
  fixed_before y,
  floating-friday y (date y 12 31) f,
  any_of-append (λ x. nat_beq x (date y 12 31)) (map observed (fixed_holidays y))
      (floating_holidays y),
)

-- In a year that ends on a Friday, the last day is the observed holiday of the next New Year's Day, which is in the next year's holidays, and it is a business day all the same, since only the holidays of the day's own year are asked for.
pub new_year_missed :
    (y : ℕ)
    → 1 ≤ y
    → weekday (date y 12 31) ≡ 4
    → (observed (date (y + 1) 1 1) ≡ date y 12 31)
      × (is_among (date y 12 31) (federal_holidays (y + 1)) ≡ true)
      × (is_business_day (date y 12 31) ≡ true)
unfolding is_business_day
new_year_missed y h f = (
  observed_on_friday y h f,
  new_year_observed y h f,
  ground (arith, f, year_of_last_day y h, last_day_open y f),
)
