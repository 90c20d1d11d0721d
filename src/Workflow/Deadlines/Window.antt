-- ===== src/Workflow/Deadlines/Window.antt =====
-- Every seven days in a row hold a business day: a Tuesday or a Wednesday that is no holiday.
use tandem_interface_ai.Prelude.{
  ℕ, ◌+◌, ◌-◌, ◌%◌, ◌≤◌, ◌<◌, ◌≡◌, ◌⊎◌, inl, inr, refl, ap, arith, Bool, true, false, ◌||◌, List,
  [], ◌∷◌, ◌++◌, map, any_of, nat_beq, Bool-cases,
}
use tandem_interface_ai.Workflow.Calendar.{
  date, weekday, year_of, days_before_year, days_before_month, leap_day,
}
use tandem_interface_ai.Workflow.Calendar.Years.{days_before_year-lt, leap_day-le, year_of_pos}
use tandem_interface_ai.Workflow.Deadlines.{
  nth_weekday_of_month, last_weekday_of_month, observed, fixed_holidays, floating_holidays,
  federal_holidays, is_among, is_business_day,
}

abbrev is_midweek : ℕ → Bool
is_midweek day = nat_beq (weekday day) 1 || nat_beq (weekday day) 2

weekday-nth_weekday_of_month : (y m d k : ℕ) → d < 7 → weekday (nth_weekday_of_month y m d k) ≡ d
unfolding nth_weekday_of_month weekday
weekday-nth_weekday_of_month y m d k h = omega arith

weekday-memorial_day : (y : ℕ) → weekday (last_weekday_of_month y 5 0) ≡ 0
unfolding last_weekday_of_month weekday date days_before_month
weekday-memorial_day y = omega arith

-- Floating holidays are Mondays and a Thursday.
pub floating_weekdays :
    (y : ℕ)
    → (weekday (nth_weekday_of_month y 1 0 3) ≡ 0)
      × (weekday (nth_weekday_of_month y 2 0 3) ≡ 0)
      × (weekday (last_weekday_of_month y 5 0) ≡ 0)
      × (weekday (nth_weekday_of_month y 9 0 1) ≡ 0)
      × (weekday (nth_weekday_of_month y 10 0 2) ≡ 0)
      × (weekday (nth_weekday_of_month y 11 3 4) ≡ 3)
floating_weekdays y = (
  weekday-nth_weekday_of_month y 1 0 3 (omega arith),
  weekday-nth_weekday_of_month y 2 0 3 (omega arith),
  weekday-memorial_day y,
  weekday-nth_weekday_of_month y 9 0 1 (omega arith),
  weekday-nth_weekday_of_month y 10 0 2 (omega arith),
  weekday-nth_weekday_of_month y 11 3 4 (omega arith),
)

-- A day in the middle of the week is no floating holiday.
floating-midweek : (y day : ℕ) → is_midweek day ≡ true → is_among day (floating_holidays y) ≡ false
unfolding floating_holidays
floating-midweek y day h = ground (arith, floating_weekdays y)

-- An observed holiday in the middle of the week is not shifted.
observed-midweek : (h day : ℕ) → is_midweek day ≡ true → observed h ≡ day → h ≡ day
unfolding observed weekday
observed-midweek h day m e = ground arith

pub any_of-append :
    (p : ℕ → Bool) (xs ys : List ℕ) → any_of p (xs ++ ys) ≡ any_of p xs || any_of p ys
any_of-append p [] ys = refl
any_of-append p (x ∷ xs) ys = ground (arith, any_of-append p xs ys)

among-observed :
    (day : ℕ) (hs : List ℕ)
    → is_midweek day ≡ true
    → is_among day (map observed hs) ≡ true
    → is_among day hs ≡ true
among-observed day [] m h = ground (arith, h)
among-observed day (x ∷ xs) m h =
    ground (arith, h, observed-midweek x day m, among-observed day xs m)

-- In the middle of the week only the holidays of a fixed date stand in the way.
holiday-midweek :
    (y day : ℕ)
    → is_midweek day ≡ true
    → is_among day (federal_holidays y) ≡ true
    → is_among day (fixed_holidays y) ≡ true
unfolding federal_holidays
holiday-midweek y day m h = among-observed day (fixed_holidays y) m (
    ground (
      arith,
      h,
      any_of-append (λ x. nat_beq x day) (map observed (fixed_holidays y)) (floating_holidays y),
      floating-midweek y day m,
    ))

-- Where the fixed holidays stand in their year.
fixed-bounds :
    (y day : ℕ)
    → is_among day (fixed_holidays y) ≡ true
    → (day ≡ days_before_year y + 1)
      ⊎ (day ≡ days_before_year y + leap_day y + 170)
      ⊎ (day ≡ days_before_year y + leap_day y + 185)
      ⊎ (day ≡ days_before_year y + leap_day y + 315)
      ⊎ (day ≡ days_before_year y + leap_day y + 359)
unfolding fixed_holidays date days_before_month
fixed-bounds y day h = ground arith

order_cases : (y z : ℕ) → (y < z) ⊎ (y ≡ z) ⊎ (z < y)
order_cases y z = omega arith

-- No two fixed holidays are one day or six days apart.
apart :
    (y z t w : ℕ)
    → 1 ≤ y
    → 1 ≤ z
    → is_among t (fixed_holidays y) ≡ true
    → is_among w (fixed_holidays z) ≡ true
    → (w ≡ t + 1) ⊎ (t ≡ w + 6)
    → ⊥
apart y z t w hy hz ht hw c = elim (order_cases y z) [
  | inl lt ↦ omega (
    arith,
    fixed-bounds y t ht,
    fixed-bounds z w hw,
    days_before_year-lt y z hy lt,
    leap_day-le y,
    leap_day-le z,
    c,
  )
  | inr (inl e) ↦
      omega
        (arith, fixed-bounds y t ht, fixed-bounds z w hw, ap days_before_year e, ap leap_day e, c)
  | inr (inr gt) ↦ omega (
    arith,
    fixed-bounds y t ht,
    fixed-bounds z w hw,
    days_before_year-lt z y hz gt,
    leap_day-le y,
    leap_day-le z,
    c,
  )
]

midweek_open :
    (day : ℕ)
    → is_midweek day ≡ true
    → is_among day (fixed_holidays (year_of day)) ≡ false
    → is_business_day day ≡ true
unfolding is_business_day
midweek_open day m h = elim (Bool-cases (is_among day (federal_holidays (year_of day)))) [
  | inl e ↦ ground (arith, m, h, holiday-midweek (year_of day) day m e)
  | inr e ↦ ground (arith, m, e)
]

-- Of a Tuesday and a Wednesday a day or six days apart, one is a business day.
one_open :
    (t w : ℕ)
    → weekday t ≡ 1
    → weekday w ≡ 2
    → (w ≡ t + 1) ⊎ (t ≡ w + 6)
    → (is_business_day t ≡ true) ⊎ (is_business_day w ≡ true)
one_open t w ht hw c = elim (Bool-cases (is_among t (fixed_holidays (year_of t)))) [
  | inl e ↦ elim (Bool-cases (is_among w (fixed_holidays (year_of w)))) [
    | inl f ↦ absurd (apart (year_of t) (year_of w) t w (year_of_pos t) (year_of_pos w) e f c)
    | inr f ↦ inr (midweek_open w (ground (arith, hw)) f)
  ]
  | inr e ↦ inl (midweek_open t (ground (arith, ht)) e)
]

-- The days until the first Tuesday, and until the first Wednesday, from `c`.
pub window : (c : ℕ) → (k : ℕ) × (k < 7) × (is_business_day (c + k) ≡ true)
unfolding weekday
window c =
    let t = (8 - weekday c) % 7 in
    let w = (9 - weekday c) % 7 in
    elim (one_open (c + t) (c + w) (omega arith) (omega arith) (omega arith)) [
      | inl h ↦ (t, omega arith, h)
      | inr h ↦ (w, omega arith, h)
    ]
