-- ===== src/Replay/Checks/Landed.antt =====
-- The reconciliation of an interrupted COMMIT outlasts an outage of the target
-- (reconcile_commit_execution of tandem/replay/reconciliation.py).
use tandem_interface_ai.Prelude.{
  ℕ, zero, suc, ◌+◌, ◌-◌, ◌<◌, ◌≤◌, String, ◌≡◌, ◌≢◌, refl, ap, ◌∙◌, arith, Bool, true, some,
}
use tandem_interface_ai.Prelude.Eq.{nat_eq, string_eq}
use tandem_interface_ai.Domain.Effects.{applied}
use tandem_interface_ai.Domain.Outcomes.{
  ExecutionOutcome, success, completed, confirmed_applied, postcheck_unavailable, code_eq,
  code_beq_iff, category_eq, is_success, outcome,
}
use tandem_interface_ai.Ledger.Session.{Result, ok}
use tandem_interface_ai.Replay.Inquiry.{
  Dynamic, Fields, get, if_true, fields, Response, answered, unreachable, Url, CapabilityDefinition,
  postcheck_response, postcheck_fields, identity_matches,
}
use tandem_interface_ai.Replay.Settlement.{settle_claim_status}
use tandem_interface_ai.Replay.Checks.{
  at, route_of, execute_postcheck, postcheck_case, postcheck_at, max_attempts, inquire_again,
  conclude, concluded, reconcile_commit_execution,
}

-- What the postcheck says of an effect that is there.
abbrev landed_outcome : Bool → Dynamic → ExecutionOutcome
landed_outcome moves v = record (outcome success completed "") {
  money_moved = moves;
  audit_ref = some v.shown;
}

module _ (lower : String → String) (fetch : Url → ℕ → Response) (c : CapabilityDefinition)
    (inputs : Fields) (case : Dynamic) (url : Url) (moves : Bool) (field : String)
    (known : if_true (get "case_id" inputs) ≡ some case)
    (route : route_of lower c inputs case.shown ≡ at url moves field) where
  asked :
      (m : ℕ)
      → execute_postcheck lower fetch c inputs m
        ≡ ok (postcheck_response moves field c inputs (fetch url m))
  unfolding execute_postcheck postcheck_case postcheck_at
  asked m = ground (arith, known, route)

  abbrev loop : ℕ → ℕ → Result ExecutionOutcome → Result ExecutionOutcome
  loop = inquire_again lower fetch c inputs

  stops :
      (n left : ℕ) (x : ExecutionOutcome)
      → x.code ≢ postcheck_unavailable
      → loop n left (ok x) ≡ ok x
  unfolding inquire_again
  stops n zero x h = refl
  stops n (suc left) x h = ground (arith, h, code_beq_iff x.code postcheck_unavailable)

  goes_on :
      (m left : ℕ)
      → fetch url m ≡ unreachable
      → loop (suc m) (suc left) (execute_postcheck lower fetch c inputs m)
        ≡ loop (suc (suc m)) left (execute_postcheck lower fetch c inputs (suc m))
  unfolding inquire_again postcheck_response
  goes_on m left h =
      ap (loop (suc m) (suc left))
        (asked m ∙ ap (λ r. ok (postcheck_response moves field c inputs r)) h)

  -- The loop goes on through an outage, and ends with the first answer.
  inquire_again-outlasts :
      (k left m : ℕ) (x : ExecutionOutcome)
      → k ≤ left
      → ((j : ℕ) → j < k → fetch url (m + j) ≡ unreachable)
      → postcheck_response moves field c inputs (fetch url (m + k)) ≡ x
      → x.code ≢ postcheck_unavailable
      → inquire_again lower fetch c inputs (suc m) left (execute_postcheck lower fetch c inputs m)
        ≡ ok x
  inquire_again-outlasts zero left m x le out e stop =
      ap (loop (suc m) left) (
        asked m
        ∙ ap (λ j. ok (postcheck_response moves field c inputs (fetch url j))) (omega arith)
        ∙ ap ok e)
      ∙ stops (suc m) left x stop
  inquire_again-outlasts (suc k) zero m x le out e stop = absurd (omega arith)
  inquire_again-outlasts (suc k) (suc left) m x le out e stop =
      goes_on m left (ap (fetch url) (omega arith) ∙ out 0 (omega arith))
      ∙ inquire_again-outlasts k left (suc m) x (omega arith)
          (λ j lt. ap (fetch url) (omega arith) ∙ out (suc j) (omega arith))
          (ap (λ j. postcheck_response moves field c inputs (fetch url j)) (omega arith) ∙ e) stop

  found_landed :
      (d : Fields) (v status : Dynamic)
      → identity_matches c inputs d ≡ true
      → if_true (get field d) ≡ some v
      → if_true (get "status" d) ≡ some status
      → postcheck_response moves field c inputs (answered 200 (fields d)) ≡ landed_outcome moves v
  unfolding postcheck_response postcheck_fields
  found_landed d v status same ref there = ground (arith, same, ref, there)

  -- An interrupted COMMIT that landed is found out, although the target is out of reach at first:
  -- when it cannot be reached for fewer inquiries than the capability allows, and then answers 200
  -- to the request for the case of the inputs, with the effect that was asked for, its reference and
  -- a status, then the reconciliation returns the confirmed effect with this reference, and the
  -- claim is settled as APPLIED.
  pub landed_is_settled :
      (n k : ℕ) (d : Fields) (v status : Dynamic)
      → k < max_attempts c.effect.reconciliation
      → ((j : ℕ) → j < k → fetch url (n + j) ≡ unreachable)
      → fetch url (n + k) ≡ answered 200 (fields d)
      → identity_matches c inputs d ≡ true
      → if_true (get field d) ≡ some v
      → if_true (get "status" d) ≡ some status
      → (o : ExecutionOutcome) × (reconcile_commit_execution lower fetch c inputs n ≡ ok o)
        × (o.code ≡ confirmed_applied)
        × (o.audit_ref ≡ some v.shown)
        × (settle_claim_status o ≡ applied)
  unfolding reconcile_commit_execution conclude settle_claim_status is_success
  landed_is_settled n k d v status lt out answer same ref there = (
    conclude (landed_outcome moves v),
    ap concluded (
        inquire_again-outlasts k (max_attempts c.effect.reconciliation - 1) n
          (landed_outcome moves v) (omega arith) out
          (ap (postcheck_response moves field c inputs) answer
            ∙ found_landed d v status same ref there)
          (λ q. ground (arith, q))),
    refl,
    refl,
    refl,
  )
