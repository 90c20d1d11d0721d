-- ===== src/Workflow/Tests.antt =====
-- Runs of the Reg E state machine, of the procedure's steps and of the deadline rules.
use tandem_interface_ai.Prelude.{
  ℕ, ◌≡◌, refl, arith, true, false, ◌||◌, some, none, List, [], ◌∷◌, ◌+◌, ◌*◌, ◌/◌, ◌≤◌, ◌<◌, ◌⊎◌,
}
use tandem_interface_ai.Workflow.StateMachine.{
  RegEState, received, member_verified, transaction_verified, duplicate_checked, chargeback_filed,
  provisional_credit_posted, notice_sent, needs_human, uncertain_effect, state_eq, can_transition,
  valid_transitions,
}
use tandem_interface_ai.Workflow.StateMachine.Paths.{
  Run, here, move, visits, is_parked, notice_needs_credit, uncertain_needs_human,
}
use tandem_interface_ai.Workflow.Calendar.{date, weekday, year_of}
use tandem_interface_ai.Workflow.Deadlines.{
  Zone, DeadlineRuleSet, observed, federal_holidays, is_among, is_business_day, business_day_after,
  calculate,
}
use tandem_interface_ai.Workflow.Deadlines.Count.{
  open_days, business_day_after_counts, calculate_returns,
}
use tandem_interface_ai.Workflow.Deadlines.NewYear.{new_year_missed}
use tandem_interface_ai.Ledger.Session.{World}
use tandem_interface_ai.Ledger.Tests.{start}
use tandem_interface_ai.Workflow.Progress.{Step, reach, ensure, take_all}

abbrev path : List RegEState
path =
    member_verified ∷ transaction_verified ∷ duplicate_checked ∷ chargeback_filed
    ∷ provisional_credit_posted ∷ notice_sent ∷ []

path-Run : Run received path notice_sent
unfolding can_transition valid_transitions
path-Run = move refl (move refl (move refl (move refl (move refl (move refl here)))))

notice_needs_credit_example :
    visits provisional_credit_posted path || visits needs_human path ≡ true
notice_needs_credit_example = notice_needs_credit path-Run

park-Run : Run uncertain_effect [] uncertain_effect
park-Run = here

uncertain_needs_human_example : is_parked uncertain_effect ≡ true
uncertain_needs_human_example = uncertain_needs_human park-Run refl refl

abbrev thanksgiving : ℕ
unfolding date
thanksgiving = 739946

thanksgiving_closed : (date 2026 11 26 ≡ thanksgiving) × (is_business_day thanksgiving ≡ false)
unfolding date is_business_day year_of
thanksgiving_closed = (refl, refl)

-- Over Thanksgiving and a weekend.
two_business_days : business_day_after thanksgiving 2 ≡ some (thanksgiving + 4)
unfolding business_day_after is_business_day thanksgiving year_of
two_business_days = refl

business_day_after_counts_example :
    (d : ℕ) × (business_day_after thanksgiving 2 ≡ some d)
    × (thanksgiving ≤ d)
    × (d ≤ thanksgiving + 7 * 2)
    × (open_days d ≡ open_days thanksgiving + 2)
    × ((d ≡ thanksgiving) ⊎ (is_business_day d ≡ true))
business_day_after_counts_example = business_day_after_counts thanksgiving 2

-- Days of 24 hours, as in Universal Time.
abbrev utc : Zone
utc = record {
  local_date = λ t. t / 24;
  at_hour = λ day hour. day * 24 + hour;
  plus_days = λ t days. t + days * 24;
}

abbrev rules_utc : DeadlineRuleSet
rules_utc = record { zone = utc; cutoff_hour = 17 }

calculate_returns_example :
    (c : ℕ) × (d : ℕ) × (is_business_day c ≡ true)
    × (open_days c ≡ open_days thanksgiving + 2)
    × (thanksgiving < c)
    × (c ≤ thanksgiving + 14)
    × (is_business_day d ≡ true)
    × (open_days d ≡ open_days thanksgiving + 10)
    × (c < d)
    × (d ≤ thanksgiving + 7 * 10)
    × (calculate rules_utc (some (thanksgiving * 24)) 0 false
        ≡ some (
            ("NOTICE_2_DAY", c * 24 + 17)
            ∷ ("INVESTIGATION_10_DAY", d * 24 + 17)
            ∷ ("FINAL_RESOLUTION_45_DAY", thanksgiving * 24 + 45 * 24)
            ∷ []))
unfolding thanksgiving
calculate_returns_example = calculate_returns rules_utc (some (thanksgiving * 24)) 0 false

friday_2021 : weekday (date 2021 12 31) ≡ 4
unfolding weekday date
friday_2021 = refl

new_year_missed_example :
    (observed (date 2022 1 1) ≡ date 2021 12 31)
    × (is_among (date 2021 12 31) (federal_holidays 2022) ≡ true)
    × (is_business_day (date 2021 12 31) ≡ true)
new_year_missed_example = new_year_missed 2021 (omega arith) friday_2021

abbrev two_steps : List Step
two_steps = reach member_verified none ∷ ensure received none ∷ []

abbrev advanced : World
advanced = (take_all "DSP-1" two_steps start).1
