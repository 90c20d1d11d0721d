-- ===== src/Workflow/Deadlines/Count.antt =====
-- The loop of `DeadlineRuleSet.add_business_days` (tandem/workflow/deadlines.py) counts business days.
use native.Mathlib.Decide.{le_ind}
use tandem_interface_ai.Prelude.{
  ℕ, zero, suc, ◌+◌, ◌-◌, ◌*◌, ◌≤◌, ◌<◌, ◌≡◌, ◌⊎◌, inl, inr, refl, sym, ap, ◌∙◌, arith, Bool, true,
  false, Option, some, [], ◌∷◌, ltb, ltb→lt, lt→ltb, if◌then◌else◌, Bool-cases,
}
use tandem_interface_ai.Workflow.Deadlines.{
  is_business_day, walk, business_day_after, DeadlineRuleSet, add_business_days, or_else,
  investigation_days, calculate,
}
use tandem_interface_ai.Workflow.Deadlines.Window.{window}

-- The business days up to and with a day.
unfoldable pub open_days : ℕ → ℕ
open_days zero = 0
open_days (suc day) = open_days day + (if is_business_day (suc day) then 1 else 0)

add_one : (c : ℕ) → c + 1 ≡ suc c
add_one c = omega arith

add_zero : (c : ℕ) → c + 0 ≡ c
add_zero c = omega arith

open_days_open : (c : ℕ) → is_business_day (c + 1) ≡ true → open_days (c + 1) ≡ open_days c + 1
unfolding open_days
open_days_open c h =
    ap open_days (add_one c)
    ∙ ap (λ b. open_days c + (if b then 1 else 0)) (ap is_business_day (sym (add_one c)) ∙ h)

open_days_shut : (c : ℕ) → is_business_day (c + 1) ≡ false → open_days (c + 1) ≡ open_days c
unfolding open_days
open_days_shut c h =
    ap open_days (add_one c)
    ∙ ap (λ b. open_days c + (if b then 1 else 0)) (ap is_business_day (sym (add_one c)) ∙ h)
    ∙ add_zero (open_days c)

walk_open :
    (f c a n : ℕ)
    → ltb a n ≡ true
    → is_business_day (c + 1) ≡ true
    → walk (suc f) c a n ≡ walk f (c + 1) (a + 1) n
unfolding walk
walk_open f c a n h b = ground (arith, h, b)

walk_shut :
    (f c a n : ℕ)
    → ltb a n ≡ true
    → is_business_day (c + 1) ≡ false
    → walk (suc f) c a n ≡ walk f (c + 1) a n
unfolding walk
walk_shut f c a n h b = ground (arith, h, b)

walk_done : (f c a n : ℕ) → ltb a n ≡ false → walk (suc f) c a n ≡ some c
unfolding walk
walk_done f c a n h = ground (arith, h)

-- What the loop returns, when it returns.
walk_counts :
    (fuel cursor added n d : ℕ)
    → walk fuel cursor added n ≡ some d
    → added ≤ n
    → (cursor ≤ d)
      × (open_days d + added ≡ open_days cursor + n)
      × ((d ≡ cursor) ⊎ (is_business_day d ≡ true))
unfolding walk
walk_counts zero c a n d e h = ground (arith, e)
walk_counts (suc f) c a n d e h = elim (Bool-cases (ltb a n)) [
  | inl lt ↦ elim (Bool-cases (is_business_day (c + 1))) [
    | inl b ↦ ground (
      arith,
      b,
      open_days_open c b,
      walk_counts f (c + 1) (a + 1) n d (sym (walk_open f c a n lt b) ∙ e)
          (omega (arith, ltb→lt a n lt)),
    )
    | inr b ↦ ground (
      arith,
      b,
      open_days_shut c b,
      walk_counts f (c + 1) a n d (sym (walk_shut f c a n lt b) ∙ e) h,
    )
  ]
  | inr ge ↦ ground (arith, ge, sym (walk_done f c a n ge) ∙ e)
]

-- Counting the last business day ends the loop, one round later.
last_day :
    (f c a n k : ℕ)
    → a < n
    → is_business_day (c + 1) ≡ true
    → ltb (a + 1) n ≡ false
    → 1 ≤ f
    → (d : ℕ) × (walk (suc f) c a n ≡ some d) × (d ≤ c + 1 + k + 7 * (n - (a + 1)))
last_day zero c a n k lt y last enough = absurd (omega (arith, enough))
last_day (suc f) c a n k lt y last enough = (
  c + 1,
  walk_open (suc f) c a n (lt→ltb a n lt) y ∙ walk_done f (c + 1) (a + 1) n last,
  omega arith,
)

-- A day that does not count brings the next business day one day nearer.
later_day :
    (f c a n k : ℕ)
    → a < n
    → is_business_day (c + 1 + k) ≡ true
    → is_business_day (c + 1) ≡ false
    → k < 7
    → k + 7 * (n - (a + 1)) + 1 ≤ f
    → ((j : ℕ)
        → is_business_day (c + 1 + 1 + j) ≡ true
        → j < 7
        → j + 7 * (n - (a + 1)) + 2 ≤ f
        → (d : ℕ) × (walk f (c + 1) a n ≡ some d) × (d ≤ c + 1 + 1 + j + 7 * (n - (a + 1))))
    → (d : ℕ) × (walk (suc f) c a n ≡ some d) × (d ≤ c + 1 + k + 7 * (n - (a + 1)))
later_day f c a n zero lt b shut small enough rest =
    absurd (ground (arith, ap is_business_day (add_zero (c + 1)), b, shut))
later_day f c a n (suc j) lt b shut small enough rest =
    let (d, hd, bd) =
      rest j (ap is_business_day (omega arith) ∙ b) (omega (arith, small))
        (omega (arith, enough)) in
    (d, walk_shut f c a n (lt→ltb a n lt) shut ∙ hd, omega (arith, bd))

-- A business day within a week, and a week for each further one, is fuel enough.
walk_returns :
    (fuel cursor added n k : ℕ)
    → added < n
    → is_business_day (cursor + 1 + k) ≡ true
    → k < 7
    → k + 7 * (n - (added + 1)) + 2 ≤ fuel
    → (d : ℕ) × (walk fuel cursor added n ≡ some d) × (d ≤ cursor + 1 + k + 7 * (n - (added + 1)))
walk_returns zero c a n k lt b small enough = absurd (omega (arith, enough))
walk_returns (suc f) c a n k lt b small enough = elim (Bool-cases (is_business_day (c + 1))) [
  | inl y ↦ elim (Bool-cases (ltb (a + 1) n)) [
    | inl more ↦
        let (j, small_j, hj) = window (c + 1 + 1) in
        let (d, hd, bd) =
          walk_returns f (c + 1) (a + 1) n j (ltb→lt (a + 1) n more) hj small_j
            (omega (arith, enough, small_j, ltb→lt (a + 1) n more)) in
        (
          d,
          walk_open f c a n (lt→ltb a n lt) y ∙ hd,
          omega (arith, bd, small_j, ltb→lt (a + 1) n more),
        )
    | inr last ↦ last_day f c a n k lt y last (omega (arith, enough))
  ]
  | inr shut ↦
      later_day f c a n k lt b shut small (omega (arith, enough))
        (λ j hj sj ej. walk_returns f (c + 1) a n j lt hj sj ej)
]

-- Business days take at most a week each: `business_day_after start n` always returns a day, at most 7 * n days after `start`, with exactly n business days after `start` and up to it, and this day is a business day unless it is `start` itself.
pub business_day_after_counts :
    (start n : ℕ)
    → (d : ℕ) × (business_day_after start n ≡ some d)
      × (start ≤ d)
      × (d ≤ start + 7 * n)
      × (open_days d ≡ open_days start + n)
      × ((d ≡ start) ⊎ (is_business_day d ≡ true))
unfolding business_day_after
business_day_after_counts start zero =
    (start, walk_done 0 start 0 0 refl, omega arith, omega arith, omega arith, inl refl)
business_day_after_counts start (suc n) =
    let (k, small, hk) = window (start + 1) in
    let (d, hd, bd) =
      walk_returns (7 * suc n + 1) start 0 (suc n) k (omega arith) hk small
        (omega (arith, small)) in
    let (ge, count, last) = walk_counts (7 * suc n + 1) start 0 (suc n) d hd (omega arith) in
    (d, hd, ge, omega (arith, bd, small), omega (arith, count), last)

open_days-le : (a b : ℕ) → a ≤ b → open_days a ≤ open_days b
open_days-le a b h =
    le_ind (λ m. open_days a ≤ open_days m) (omega arith)
      (λ m le ih. elim (Bool-cases (is_business_day (m + 1))) [
        | inl y ↦ omega (arith, ih, open_days_open m y, ap open_days (add_one m))
        | inr x ↦ omega (arith, ih, open_days_shut m x, ap open_days (add_one m))
      ])
      b h

-- More business days end strictly later.
pub later_after_more :
    (start m n c d : ℕ)
    → business_day_after start m ≡ some c
    → business_day_after start n ≡ some d
    → m < n
    → c < d
later_after_more start m n c d hc hd lt =
    let (c', hc', _, _, ec, _) = business_day_after_counts start m in
    let (d', hd', _, _, ed, _) = business_day_after_counts start n in
    ground (arith, hc, hd, hc', hd', ec, ed, lt, open_days-le d c)

later_if_more : (a b n : ℕ) → open_days b ≡ open_days a + suc n → a < b
later_if_more a b n h = ground (arith, h, open_days-le b a)

-- The day that the loop returns for a number of business days, one at least, is a later day and a business day.
returned_day :
    (start n : ℕ)
    → (d : ℕ) × (business_day_after start (suc n) ≡ some d)
      × (start < d)
      × (d ≤ start + 7 * suc n)
      × (open_days d ≡ open_days start + suc n)
      × (is_business_day d ≡ true)
returned_day start n =
    let (d, hd, ge, bd, count, last) = business_day_after_counts start (suc n) in
    elim last [
      | inl same ↦ absurd (omega (arith, count, ap open_days same))
      | inr y ↦ (d, hd, later_if_more start d n count, bd, count, y)
    ]

-- Where days do not run out (Python's do, after the year 9999), `DeadlineRuleSet.calculate` always returns its three deadlines: the notice at the cut-off hour of the second business day after the start, which is a business day at most 14 days away, the investigation at that of the tenth (twentieth in an extended case), which is a business day too, strictly later and at most 70 (140) days away, and the final resolution 45 (90) days after the start.
pub calculate_returns :
    (rules : DeadlineRuleSet) (opened_at : Option ℕ) (now : ℕ) (extended : Bool)
    → let base = or_else opened_at now in
      let start = rules.zone.local_date base in
      let days = investigation_days extended in
      (c : ℕ) × (d : ℕ) × (is_business_day c ≡ true)
      × (open_days c ≡ open_days start + 2)
      × (start < c)
      × (c ≤ start + 14)
      × (is_business_day d ≡ true)
      × (open_days d ≡ open_days start + days)
      × (c < d)
      × (d ≤ start + 7 * days)
      × (calculate rules opened_at now extended
          ≡ some (
              if extended
              then ("NOTICE_2_DAY", rules.zone.at_hour c rules.cutoff_hour)
                ∷ ("INVESTIGATION_20_DAY", rules.zone.at_hour d rules.cutoff_hour)
                ∷ ("FINAL_RESOLUTION_90_DAY", rules.zone.plus_days base 90)
                ∷ []
              else ("NOTICE_2_DAY", rules.zone.at_hour c rules.cutoff_hour)
                ∷ ("INVESTIGATION_10_DAY", rules.zone.at_hour d rules.cutoff_hour)
                ∷ ("FINAL_RESOLUTION_45_DAY", rules.zone.plus_days base 45)
                ∷ []))
unfolding calculate add_business_days
calculate_returns rules opened_at now true =
    let start = rules.zone.local_date (or_else opened_at now) in
    let (c, hc, after, bc, ec, yc) = returned_day start 1 in
    let (d, hd, _, bd, ed, yd) = returned_day start 19 in
    (
      c,
      d,
      yc,
      ec,
      after,
      bc,
      yd,
      ed,
      later_after_more start 2 20 c d hc hd (omega arith),
      bd,
      ground (arith, hc, hd),
    )
calculate_returns rules opened_at now false =
    let start = rules.zone.local_date (or_else opened_at now) in
    let (c, hc, after, bc, ec, yc) = returned_day start 1 in
    let (d, hd, _, bd, ed, yd) = returned_day start 9 in
    (
      c,
      d,
      yc,
      ec,
      after,
      bc,
      yd,
      ed,
      later_after_more start 2 10 c d hc hd (omega arith),
      bd,
      ground (arith, hc, hd),
    )
