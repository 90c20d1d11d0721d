-- ===== src/Workflow/Deadlines.antt =====
-- Statutory and business-day deadlines (tandem/workflow/deadlines.py, but for `evaluate_deadlines`,
-- which stands with the ledger's deadlines). Days are ordinals, instants microseconds; the time
-- zone is a parameter. The loop over the days takes fuel, seven rounds for a business day.
pub mod Window
pub mod Count
pub mod NewYear
use tandem_interface_ai.Prelude.{
  ℕ, zero, suc, ◌+◌, ◌-◌, ◌*◌, ◌%◌, String, Bool, true, false, not, ◌&&◌, Option, none, some, List,
  [], ◌∷◌, ◌++◌, map, any_of, ltb, nat_beq, if◌then◌else◌,
}
use tandem_interface_ai.Workflow.Calendar.{date, weekday, year_of}

-- `_nth_weekday_of_month`; the offset is the least that reaches the weekday.
unfoldable pub nth_weekday_of_month : ℕ → ℕ → ℕ → ℕ → ℕ
unfolding weekday
nth_weekday_of_month year month day occurrence =
    let first = date year month 1 in
    let offset = (day + 7 - weekday first) % 7 in first + (offset + 7 * (occurrence - 1))

-- `_last_weekday_of_month`
unfoldable pub last_weekday_of_month : ℕ → ℕ → ℕ → ℕ
unfolding weekday
last_weekday_of_month year month day =
    let next_month = if nat_beq month 12 then date (year + 1) 1 1 else date year (month + 1) 1 in
    let last_day = next_month - 1 in
    let offset = (weekday last_day + 7 - day) % 7 in last_day - offset

-- `_observed`: a Saturday holiday on Friday, a Sunday holiday on Monday.
unfoldable pub observed : ℕ → ℕ
unfolding weekday
observed holiday =
    if nat_beq (weekday holiday) 5
    then holiday - 1
    else if nat_beq (weekday holiday) 6
    then holiday + 1
    else holiday

-- New Year, Juneteenth, Independence Day, Veterans Day, Christmas.
unfoldable pub fixed_holidays : ℕ → List ℕ
fixed_holidays year =
    date year 1 1 ∷ date year 6 19 ∷ date year 7 4 ∷ date year 11 11 ∷ date year 12 25 ∷ []

-- Martin Luther King, Washington, Memorial Day, Labor Day, Columbus, Thanksgiving.
unfoldable pub floating_holidays : ℕ → List ℕ
unfolding nth_weekday_of_month last_weekday_of_month
floating_holidays year =
    nth_weekday_of_month year 1 0 3
    ∷ nth_weekday_of_month year 2 0 3
    ∷ last_weekday_of_month year 5 0
    ∷ nth_weekday_of_month year 9 0 1
    ∷ nth_weekday_of_month year 10 0 2
    ∷ nth_weekday_of_month year 11 3 4
    ∷ []

-- The set of a year's holidays, as a list.
unfoldable pub federal_holidays : ℕ → List ℕ
unfolding fixed_holidays floating_holidays observed
federal_holidays year = map observed (fixed_holidays year) ++ floating_holidays year

-- `day in holidays`
abbrev pub is_among : ℕ → List ℕ → Bool
is_among day = any_of (λ h. nat_beq h day)

unfoldable pub is_business_day : ℕ → Bool
unfolding federal_holidays
is_business_day day = ltb (weekday day) 5 && not (is_among day (federal_holidays (year_of day)))

-- The loop of `add_business_days`; `none` when the fuel runs out.
unfoldable pub walk : ℕ → ℕ → ℕ → ℕ → Option ℕ
walk zero cursor added business_days = none
walk (suc fuel) cursor added business_days =
    let next = cursor + 1 in
    let rest = walk fuel next (if is_business_day next then added + 1 else added) business_days in
    if ltb added business_days then rest else some cursor

-- The day on which `business_days` business days after `start` have passed.
unfoldable pub business_day_after : ℕ → ℕ → Option ℕ
unfolding walk
business_day_after start business_days = walk (7 * business_days + 1) start 0 business_days

-- What the rules take from their time zone: the local day of an instant, the instant of an hour of a
-- local day, and the instant a number of local days after another.
pub record Zone : Type 0 where
  pub local_date : ℕ → ℕ
  pub at_hour : ℕ → ℕ → ℕ
  pub plus_days : ℕ → ℕ → ℕ

-- The zone and the cut-off hour of an institution.
pub record DeadlineRuleSet : Type 0 where
  pub zone : Zone
  pub cutoff_hour : ℕ

unfoldable pub add_business_days : DeadlineRuleSet → ℕ → ℕ → Option ℕ
unfolding business_day_after
add_business_days rules start business_days =
    elim (business_day_after (rules.zone.local_date start) business_days) [
      | none ↦ none
      | some day ↦ some (rules.zone.at_hour day rules.cutoff_hour)
    ]

abbrev pub or_else : Option ℕ → ℕ → ℕ
or_else none now = now
or_else (some t) now = t

-- The business days of the investigation.
abbrev pub investigation_days : Bool → ℕ
investigation_days true = 20
investigation_days false = 10

-- `calculate`, at the clock's reading `now`: the name and the instant of each deadline.
unfoldable pub calculate : DeadlineRuleSet → Option ℕ → ℕ → Bool → Option (List (String × ℕ))
calculate rules opened_at now extended_case =
    let base = or_else opened_at now in
    let days = investigation_days extended_case in
    elim (add_business_days rules base 2) [
      | none ↦ none
      | some notice ↦ elim (add_business_days rules base days) [
        | none ↦ none
        | some investigation ↦ some (
            if extended_case
            then ("NOTICE_2_DAY", notice)
              ∷ ("INVESTIGATION_20_DAY", investigation)
              ∷ ("FINAL_RESOLUTION_90_DAY", rules.zone.plus_days base 90)
              ∷ []
            else ("NOTICE_2_DAY", notice)
              ∷ ("INVESTIGATION_10_DAY", investigation)
              ∷ ("FINAL_RESOLUTION_45_DAY", rules.zone.plus_days base 45)
              ∷ [])
      ]
    ]
