-- ===== src/Workflow/Calendar/Years.antt =====
-- Years follow one another without gap or overlap.
use native.Mathlib.Decide.{le_ind}
use native.Mathlib.Nat.{le_trans}
use tandem_interface_ai.Prelude.{ℕ, suc, ◌+◌, ◌≤◌, ◌<◌, ◌≡◌, arith}
use tandem_interface_ai.Workflow.Calendar.{is_leap, leap_day, days_before_year, year_of}

pub days_before_year-suc :
    (y : ℕ) → 1 ≤ y → days_before_year (suc y) ≡ days_before_year y + 365 + leap_day y
unfolding days_before_year leap_day is_leap
days_before_year-suc y h = ground arith

-- A later year starts after the end of an earlier one.
pub days_before_year-lt :
    (y z : ℕ) → 1 ≤ y → y < z → days_before_year y + 365 + leap_day y ≤ days_before_year z
days_before_year-lt y z h lt =
    le_ind (λ m. days_before_year y + 365 + leap_day y ≤ days_before_year m)
      (omega (arith, days_before_year-suc y h))
      (λ m le ih. omega (arith, days_before_year-suc m (le_trans h (omega arith)))) z lt

pub year_of_pos : (n : ℕ) → 1 ≤ year_of n
unfolding year_of
year_of_pos n = ground arith

pub leap_day-le : (y : ℕ) → leap_day y ≤ 1
unfolding leap_day is_leap
leap_day-le y = ground arith
