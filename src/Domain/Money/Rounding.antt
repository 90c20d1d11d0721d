-- ===== src/Domain/Money/Rounding.antt =====
-- The rounding of amounts to the cent.
use tandem_interface_ai.Prelude.{
  ℕ, zero, suc, ◌+◌, ◌*◌, ◌/◌, ◌%◌, ◌^◌, ◌≤◌, ◌<◌, ◌≡◌, ◌≢◌, ◌⊎◌, inl, inr, Bool, some, arith, ltb,
  if◌then◌else◌, Bool-cases,
}
use native.Mathlib.Nat.{div-add-mod', mod-lt, pow-suc}
use tandem_interface_ai.Domain.Money.{
  finite, decimal, max_money, round_half_even, signed, parse_money,
}

-- `m` is a quotient of `n` by `d`, rounded to nearest, ties to even.
pub record IsNearest (n d m : ℕ) : Type 0 where
  pub above : 2 * n ≤ 2 * (m * d) + d
  pub below : 2 * (m * d) ≤ 2 * n + d
  pub even_at_tie : (m % 2 ≡ 0) ⊎ ((2 * n + d ≢ 2 * (m * d)) × (2 * n ≢ 2 * (m * d) + d))

abbrev choose : ℕ → ℕ → ℕ → ℕ
choose q r d = if ltb (2 * r) d then q else if ltb d (2 * r) then q + 1 else q + q % 2

dec_tie : (a b : ℕ) → (a ≡ b) ⊎ (a ≢ b)
dec_tie a b = omega arith

choose-down :
    (n d q r : ℕ) → q * d + r ≡ n → 2 * r ≤ d → (2 * r ≡ d → q % 2 ≡ 0) → r < d → IsNearest n d q
choose-down n d q r e l t s = record {
  above = omega arith;
  below = omega arith;
  even_at_tie = elim (dec_tie (2 * r) d) [
    | inl tie ↦ inl (t tie)
    | inr no_tie ↦ inr (omega arith, omega arith)
  ];
}

choose-up :
    (n d q r : ℕ)
    → q * d + r ≡ n
    → d ≤ 2 * r
    → (2 * r ≡ d → (q + 1) % 2 ≡ 0)
    → r < d
    → IsNearest n d (q + 1)
choose-up n d q r e l t s = record {
  above = omega arith;
  below = omega arith;
  even_at_tie = elim (dec_tie (2 * r) d) [
    | inl tie ↦ inl (t tie)
    | inr no_tie ↦ inr (omega arith, omega arith)
  ];
}

choose-cases :
    (q r d : ℕ)
    → ((choose q r d ≡ q) × (2 * r ≤ d) × (2 * r ≡ d → q % 2 ≡ 0))
      ⊎ ((choose q r d ≡ q + 1) × (d ≤ 2 * r) × (2 * r ≡ d → (q + 1) % 2 ≡ 0))
choose-cases q r d = elim (parity q) [
  | inl even ↦ elim (Bool-cases (ltb d (2 * r))) [
    | inl up ↦ inr (ground arith, ground arith, λ x. absurd (ground arith))
    | inr down ↦ inl (ground arith, ground arith, λ x. even)
  ]
  | inr odd ↦ elim (Bool-cases (ltb (2 * r) d)) [
    | inl down ↦ inl (ground arith, ground arith, λ x. absurd (ground arith))
    | inr up ↦ inr (ground arith, ground arith, λ x. omega arith)
  ]
]
  where
    parity : (x : ℕ) → (x % 2 ≡ 0) ⊎ (x % 2 ≡ 1)
    parity x = omega arith

choose-IsNearest : (n d q r : ℕ) → q * d + r ≡ n → r < d → IsNearest n d (choose q r d)
choose-IsNearest n d q r e l = elim (choose-cases q r d) [
  | inl (v, h, t) ↦ rw v (choose-down n d q r e h t l)
  | inr (v, h, t) ↦ rw v (choose-up n d q r e h t l)
]

round_half_even-IsNearest : (n d : ℕ) → 0 < d → IsNearest n d (round_half_even n d)
unfolding round_half_even
round_half_even-IsNearest n d h =
    choose-IsNearest n d (n / d) (n % d) (div-add-mod' n d) (mod-lt n h)

pow-pos : (p : ℕ) → 0 < 10 ^ p
pow-pos zero = omega arith
pow-pos (suc p) = omega (arith, pow-pos p, pow-suc 10 p)

-- A finite amount in the supported range is accepted, with its sign, as its nearest number of
-- cents, ties to even.
pub parse_money_near :
    (negative : Bool) (coefficient places : ℕ)
    → coefficient * 100 ≤ max_money * 10 ^ places
    → (m : ℕ) × (parse_money (decimal (finite negative coefficient places))
        ≡ some (signed negative m))
      × IsNearest (coefficient * 100) (10 ^ places) m
unfolding parse_money
parse_money_near negative coefficient places h = (
  round_half_even (coefficient * 100) (10 ^ places),
  ground (arith, h),
  round_half_even-IsNearest (coefficient * 100) (10 ^ places) (pow-pos places),
)
