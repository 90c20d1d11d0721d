-- ===== src/Workflow/Calendar.antt =====
-- What the deadline rules use of Python's `datetime.date`: a day is its proleptic Gregorian ordinal
-- (`toordinal`; 1 is 0001-01-01, a Monday). Years run to 9999 there, which nothing here checks.
pub mod Years
use tandem_interface_ai.Prelude.{
  ℕ, zero, suc, ◌+◌, ◌-◌, ◌*◌, ◌/◌, ◌%◌, Bool, true, false, not, ◌||◌, nat_beq, if◌then◌else◌,
}

unfoldable pub is_leap : ℕ → Bool
is_leap y =
    if not (nat_beq (y % 4) 0)
    then false
    else if not (nat_beq (y % 100) 0)
    then true
    else nat_beq (y % 400) 0

-- The days before January 1 of a year.
unfoldable pub days_before_year : ℕ → ℕ
days_before_year y = let p = y - 1 in p * 365 + p / 4 - p / 100 + p / 400

-- The extra day of a leap year.
unfoldable pub leap_day : ℕ → ℕ
unfolding is_leap
leap_day y = if is_leap y then 1 else 0

-- The days before a month of its year (`_DAYS_BEFORE_MONTH`, and the leap day after February).
unfoldable pub days_before_month : ℕ → ℕ → ℕ
unfolding leap_day
days_before_month y m =
    if nat_beq m 1
    then 0
    else if nat_beq m 2
    then 31
    else (leap_day y
        + (if nat_beq m 3
            then 59
            else if nat_beq m 4
            then 90
            else if nat_beq m 5
            then 120
            else if nat_beq m 6
            then 151
            else if nat_beq m 7
            then 181
            else if nat_beq m 8
            then 212
            else if nat_beq m 9
            then 243
            else if nat_beq m 10
            then 273
            else if nat_beq m 11
            then 304
            else 334))

-- `date(year, month, day)`
unfoldable pub date : ℕ → ℕ → ℕ → ℕ
unfolding days_before_year days_before_month
date y m d = days_before_year y + days_before_month y m + d

-- `day.weekday()`: Monday is 0.
unfoldable pub weekday : ℕ → ℕ
weekday n = (n + 6) % 7

-- `day.year`, as `_ord2ymd` computes it: cycles of 400, 100, 4 and 1 years.
unfoldable pub year_of : ℕ → ℕ
year_of n =
    let n400 = (n - 1) / 146097 in
    let r400 = (n - 1) % 146097 in
    let n100 = r400 / 36524 in
    let r100 = r400 % 36524 in
    let n4 = r100 / 1461 in
    let n1 = (r100 % 1461) / 365 in
    let year = n400 * 400 + n100 * 100 + n4 * 4 + n1 in
    if nat_beq n1 4 || nat_beq n100 4 then year else year + 1
