-- ===== src/Replay/Checks/Reconciled.antt =====
-- The reconciliation of an interrupted COMMIT: what its verdict rests on, and when it lets the
-- effect be tried again.
use tandem_interface_ai.Prelude.{
  ℕ, zero, suc, ◌+◌, ◌-◌, ◌<◌, ◌≤◌, String, ◌≡◌, ◌≢◌, ◌⊎◌, inl, inr, refl, arith, Option,
  Bool-cases,
}
use tandem_interface_ai.Prelude.Eq.{◌==◌, nat_eq, string_eq}
use tandem_interface_ai.Domain.Effects.{ReconciliationSpec, failed_retryable, applied, uncertain}
use tandem_interface_ai.Domain.Outcomes.{
  ExecutionOutcome, OutcomeCode, success, business_outcome, confirmed_applied,
  confirmed_not_applied, postcheck_unavailable, category_eq, code_eq, is_success, code_beq_iff,
  category_beq_iff, phase_eq,
}
use tandem_interface_ai.Ledger.Session.{Result, ok, raised}
use tandem_interface_ai.Replay.Inquiry.{Fields, Response, Url, CapabilityDefinition}
use tandem_interface_ai.Replay.Settlement.{settle_claim_status}
use tandem_interface_ai.Replay.Checks.{
  execute_postcheck, max_attempts, inquire_again, conclude, concluded, reconcile_commit_execution,
}
use tandem_interface_ai.Replay.Checks.Asks.{Asks}
use tandem_interface_ai.Replay.Checks.Answers.{Shows, Denies}
use tandem_interface_ai.Replay.Checks.Evidence.{
  postcheck_success_has_evidence, postcheck_absence_has_evidence, postcheck_absence_is_business,
}

max_attempts_pos : (s : Option ReconciliationSpec) → 1 ≤ max_attempts s
unfolding max_attempts
max_attempts_pos s = ground arith

concluded-ok :
    (r : Result ExecutionOutcome) (o : ExecutionOutcome)
    → concluded r ≡ ok o
    → (x : ExecutionOutcome) × (r ≡ ok x) × (o ≡ conclude x)
concluded-ok (ok x) o h = (x, refl, ground (arith, h))
concluded-ok (raised e) o h = absurd (ground (arith, h))

-- How the conclusion from an inquiry settles the claim.
concludes :
    (x o : ExecutionOutcome)
    → o ≡ conclude x
    → (x.code ≡ confirmed_not_applied → x.category ≡ business_outcome)
    → ((x.category ≡ success) × (o.code ≡ confirmed_applied) × (settle_claim_status o ≡ applied))
      ⊎ ((x.code ≡ confirmed_not_applied)
          × (o.code ≡ confirmed_not_applied)
          × (settle_claim_status o ≡ failed_retryable))
      ⊎ ((x.category ≢ success)
          × (x.code ≢ confirmed_not_applied)
          × (o.code ≡ OutcomeCode.uncertain_effect)
          × (settle_claim_status o ≡ uncertain))
unfolding conclude settle_claim_status is_success
concludes x o e absence = ground (
  arith,
  e,
  absence,
  category_beq_iff x.category success,
  code_beq_iff x.code confirmed_not_applied,
)

module _ (lower : String → String) (fetch : Url → ℕ → Response) (c : CapabilityDefinition)
    (inputs : Fields) where
  abbrev ask : ℕ → Result ExecutionOutcome
  ask = execute_postcheck lower fetch c inputs

  -- The loop ends with one of its inquiries.
  inquire_again-asked :
      (left n : ℕ) (r : Result ExecutionOutcome) (o : ExecutionOutcome)
      → inquire_again lower fetch c inputs n left r ≡ ok o
      → (r ≡ ok o) ⊎ ((m : ℕ) × (n ≤ m) × (m < n + left) × (ask m ≡ ok o))
  unfolding inquire_again
  inquire_again-asked left n (raised e) o h = absurd (ground (arith, h))
  inquire_again-asked zero n (ok x) o h = inl h
  inquire_again-asked (suc left) n (ok x) o h =
      elim (Bool-cases (x.code == postcheck_unavailable)) [
        | inr done ↦ inl (ground (arith, h, done))
        | inl again ↦ elim (inquire_again-asked left (suc n) (ask n) o (ground (arith, h, again))) [
          | inl first ↦ inr (n, omega arith, omega arith, first)
          | inr (m, ge, lt, later) ↦ inr (m, omega arith, omega arith, later)
        ]
      ]

  -- A verdict is the conclusion from one of the allowed inquiries.
  reconcile-asked :
      (n : ℕ) (o : ExecutionOutcome)
      → reconcile_commit_execution lower fetch c inputs n ≡ ok o
      → (m : ℕ) × (n ≤ m)
        × (m < n + max_attempts c.effect.reconciliation)
        × (x : ExecutionOutcome) × (ask m ≡ ok x)
        × (o ≡ conclude x)
  unfolding reconcile_commit_execution
  reconcile-asked n o h =
      let most = max_attempts c.effect.reconciliation in
      let (x, last, e) =
        concluded-ok (inquire_again lower fetch c inputs (suc n) (most - 1) (ask n)) o h in
      elim (inquire_again-asked (most - 1) (suc n) (ask n) x last) [
        | inl first ↦
            (n, omega arith, omega (arith, max_attempts_pos c.effect.reconciliation), x, first, e)
        | inr (m, ge, lt, later) ↦ (m, omega arith, omega arith, x, later, e)
      ]

  -- An interrupted COMMIT is confirmed by its reconciliation only if the target answered one of the
  -- allowed inquiries, which all ask the capability's target system for the case of the inputs,
  -- with the effect that was asked for.
  pub reconcile_confirmed_has_evidence :
      (n : ℕ) (o : ExecutionOutcome)
      → reconcile_commit_execution lower fetch c inputs n ≡ ok o
      → o.category ≡ success
      → (m : ℕ) × (n ≤ m)
        × (m < n + max_attempts c.effect.reconciliation)
        × (url : Url) × Asks lower c inputs url
        × Shows c inputs (fetch url m)
  unfolding conclude is_success
  reconcile_confirmed_has_evidence n o h k =
      let (m, ge, lt, x, asked, e) = reconcile-asked n o h in
      let (url, asks, answer) =
        postcheck_success_has_evidence c inputs lower fetch m x asked
          (ground (arith, e, k, category_beq_iff x.category success)) in
      (m, ge, lt, url, asks, answer)

  -- An interrupted COMMIT is never retried blindly: its reconciliation lets the claim be settled as
  -- retryable only if the target answered 404 to one of the allowed inquiries, which all ask the
  -- capability's target system for the case of the inputs.
  pub never_blindly_retried :
      (n : ℕ) (o : ExecutionOutcome)
      → reconcile_commit_execution lower fetch c inputs n ≡ ok o
      → settle_claim_status o ≡ failed_retryable
      → (m : ℕ) × (n ≤ m)
        × (m < n + max_attempts c.effect.reconciliation)
        × (url : Url) × Asks lower c inputs url
        × Denies (fetch url m)
  unfolding conclude settle_claim_status is_success
  never_blindly_retried n o h k =
      let (m, ge, lt, x, asked, e) = reconcile-asked n o h in
      let (url, asks, answer) =
        postcheck_absence_has_evidence c inputs lower fetch m x asked
          (ground (arith, e, k, code_beq_iff x.code confirmed_not_applied)) in
      (m, ge, lt, url, asks, answer)

  -- The verdict of a reconciliation that returns follows one of its allowed inquiries: when that
  -- confirmed the effect, the claim is settled as APPLIED; when it reported absence, as
  -- FAILED_RETRYABLE; when it did neither, as UNCERTAIN.
  pub reconcile_settles :
      (n : ℕ) (o : ExecutionOutcome)
      → reconcile_commit_execution lower fetch c inputs n ≡ ok o
      → (m : ℕ) × (n ≤ m)
        × (m < n + max_attempts c.effect.reconciliation)
        × (x : ExecutionOutcome) × (execute_postcheck lower fetch c inputs m ≡ ok x)
        × (((x.category ≡ success)
              × (o.code ≡ confirmed_applied)
              × (settle_claim_status o ≡ applied))
            ⊎ ((x.code ≡ confirmed_not_applied)
                × (o.code ≡ confirmed_not_applied)
                × (settle_claim_status o ≡ failed_retryable))
            ⊎ ((x.category ≢ success)
                × (x.code ≢ confirmed_not_applied)
                × (o.code ≡ OutcomeCode.uncertain_effect)
                × (settle_claim_status o ≡ uncertain)))
  reconcile_settles n o h =
      let (m, ge, lt, x, asked, e) = reconcile-asked n o h in
      (
        m,
        ge,
        lt,
        x,
        asked,
        concludes x o e (postcheck_absence_is_business c inputs lower fetch m x asked),
      )
