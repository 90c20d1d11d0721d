-- ===== src/Workflow/StateMachine/Paths.antt =====
-- What holds along every sequence of permitted transitions.
use tandem_interface_ai.Prelude.{
  ◌≡◌, refl, ◌⊎◌, inl, inr, Bool, true, false, ◌||◌, List, [], ◌∷◌, arith, any_of,
}
use tandem_interface_ai.Prelude.Eq.{◌==◌}
use tandem_interface_ai.Workflow.StateMachine.{
  RegEState, received, member_verified, transaction_verified, duplicate_checked, chargeback_filed,
  provisional_credit_posted, notice_sent, resolved, needs_human, uncertain_effect, failed, state_eq,
  can_transition,
}

-- The states that a run visits after `s`, each reached by a permitted transition, ending in `t`.
pub data Run : RegEState → List RegEState → RegEState → Type 0 where
  here : {s : RegEState} → Run s [] s
  move :
      {s u t : RegEState} {visited : List RegEState}
      → can_transition s u ≡ true
      → Run u visited t
      → Run s (u ∷ visited) t

abbrev pub visits : RegEState → List RegEState → Bool
visits s = any_of (λ x. x == s)

abbrev pub is_terminal : RegEState → Bool
is_terminal s = s == resolved || s == failed

step-terminal : (s u : RegEState) → is_terminal s ≡ true → can_transition s u ≡ true → u ≡ s
unfolding can_transition
step-terminal s u h p = ground arith

-- RESOLVED and FAILED are absorbing: a run from either of them never leaves it.
pub terminal_absorbs :
    {s t : RegEState} {visited : List RegEState} → Run s visited t → is_terminal s ≡ true → t ≡ s
terminal_absorbs here h = refl
terminal_absorbs (move {s} {u} p r) h =
    cc (step-terminal s u h p, terminal_absorbs r (ground (arith, step-terminal s u h p)))

-- No provisional credit yet, or stopped for good or for a human.
abbrev is_before_credit : RegEState → Bool
is_before_credit s =
    s == received
    || s == member_verified
    || s == transaction_verified
    || s == duplicate_checked
    || s == chargeback_filed
    || s == uncertain_effect
    || is_terminal s

step-before_credit :
    (s u : RegEState)
    → is_before_credit s ≡ true
    → can_transition s u ≡ true
    → (u == provisional_credit_posted || u == needs_human) || is_before_credit u ≡ true
unfolding can_transition
step-before_credit s u h p = ground arith

Run-before_credit :
    {s t : RegEState} {visited : List RegEState}
    → Run s visited t
    → is_before_credit s ≡ true
    → (visits provisional_credit_posted visited || visits needs_human visited) || is_before_credit t
      ≡ true
Run-before_credit here h = h
Run-before_credit (move {s} {u} {visited = vs} p r) h = elim (step_on p) [
  | inl now ↦ ground arith
  | inr later ↦ ground (arith, Run-before_credit r later)
]
  where
    step_on :
        can_transition s u ≡ true
        → ((u == provisional_credit_posted || u == needs_human) ≡ true)
          ⊎ (is_before_credit u ≡ true)
    step_on q = ground (arith, step-before_credit s u h q)

-- The notice follows the credit: a run of a new case that ends in NOTICE_SENT has visited
-- PROVISIONAL_CREDIT_POSTED, or a human has had the case.
pub notice_needs_credit :
    {visited : List RegEState}
    → Run received visited notice_sent
    → visits provisional_credit_posted visited || visits needs_human visited ≡ true
notice_needs_credit r = ground (arith, Run-before_credit r refl)

abbrev pub is_parked : RegEState → Bool
is_parked s = s == uncertain_effect || is_terminal s

step-parked :
    (s u : RegEState)
    → is_parked s ≡ true
    → can_transition s u ≡ true
    → u == needs_human || is_parked u ≡ true
unfolding can_transition
step-parked s u h p = ground arith

-- An uncertain effect is never carried on without a human: a run from UNCERTAIN_EFFECT, RESOLVED
-- or FAILED that does not visit NEEDS_HUMAN ends in one of these three.
pub uncertain_needs_human :
    {s t : RegEState} {visited : List RegEState}
    → Run s visited t
    → is_parked s ≡ true
    → visits needs_human visited ≡ false
    → is_parked t ≡ true
uncertain_needs_human here h n = h
uncertain_needs_human (move {s} {u} p r) h n =
    uncertain_needs_human r (ground (arith, step-parked s u h p)) (ground arith)
