-- ===== src/Ledger/Service/Human.antt =====
-- When a reconstructed case asks for a human.
use tandem_interface_ai.Prelude.{
  String, ◌≡◌, refl, arith, false, not, ◌||◌, ◌&&◌, Option, none, some, List, [], ◌∷◌, ◌++◌, map,
  any_of, Bool-cases, inl, inr, ap, ◌∙◌,
}
use tandem_interface_ai.Prelude.Eq.{◌==◌, string_eq}
use tandem_interface_ai.Domain.Outcomes.{
  OutcomeCode, code_value, code_eq, completed, confirmed_applied, not_applied,
  confirmed_not_applied, member_not_found, already_applied, already_claimed, duplicate_dispute,
  transaction_not_found, policy_denied, session_expired, page_drift, network_timeout,
  temporary_unavailable, entity_binding_mismatch, amount_mismatch, precheck_unavailable,
  precheck_ambiguous, precheck_invalid_response, postcheck_uncertain, postcheck_unavailable,
  postcheck_ambiguous, postcheck_invalid_response, policy_violation, target_ledger_divergence,
  target_reconciliation_unavailable, lease_fenced, possibly_applied, compliance_interstitial,
  human_intervention_required,
}
use tandem_interface_ai.Ledger.Models.{CapabilityExecutionRecord}
use tandem_interface_ai.Ledger.Service.{
  Progress, is_successful, asks_for_human, note_audit, note_reference, fold_execution,
  fold_executions,
}

abbrev pub status_of : CapabilityExecutionRecord → String
status_of e = e.status

-- Of the statuses that the engine writes, only UNCERTAIN_EFFECT asks for a human.
asks_for_human-code :
    (c : OutcomeCode) → asks_for_human (code_value c) ≡ (c == OutcomeCode.uncertain_effect)
unfolding code_value
asks_for_human-code completed = refl
asks_for_human-code confirmed_applied = refl
asks_for_human-code not_applied = refl
asks_for_human-code confirmed_not_applied = refl
asks_for_human-code member_not_found = refl
asks_for_human-code already_applied = refl
asks_for_human-code already_claimed = refl
asks_for_human-code duplicate_dispute = refl
asks_for_human-code transaction_not_found = refl
asks_for_human-code policy_denied = refl
asks_for_human-code session_expired = refl
asks_for_human-code page_drift = refl
asks_for_human-code network_timeout = refl
asks_for_human-code temporary_unavailable = refl
asks_for_human-code entity_binding_mismatch = refl
asks_for_human-code amount_mismatch = refl
asks_for_human-code precheck_unavailable = refl
asks_for_human-code precheck_ambiguous = refl
asks_for_human-code precheck_invalid_response = refl
asks_for_human-code postcheck_uncertain = refl
asks_for_human-code postcheck_unavailable = refl
asks_for_human-code postcheck_ambiguous = refl
asks_for_human-code postcheck_invalid_response = refl
asks_for_human-code policy_violation = refl
asks_for_human-code target_ledger_divergence = refl
asks_for_human-code target_reconciliation_unavailable = refl
asks_for_human-code lease_fenced = refl
asks_for_human-code possibly_applied = refl
asks_for_human-code OutcomeCode.uncertain_effect = refl
asks_for_human-code compliance_interstitial = refl
asks_for_human-code human_intervention_required = refl

is_successful-code :
    (c : OutcomeCode) → is_successful (code_value c) && asks_for_human (code_value c) ≡ false
unfolding code_value
is_successful-code completed = refl
is_successful-code confirmed_applied = refl
is_successful-code not_applied = refl
is_successful-code confirmed_not_applied = refl
is_successful-code member_not_found = refl
is_successful-code already_applied = refl
is_successful-code already_claimed = refl
is_successful-code duplicate_dispute = refl
is_successful-code transaction_not_found = refl
is_successful-code policy_denied = refl
is_successful-code session_expired = refl
is_successful-code page_drift = refl
is_successful-code network_timeout = refl
is_successful-code temporary_unavailable = refl
is_successful-code entity_binding_mismatch = refl
is_successful-code amount_mismatch = refl
is_successful-code precheck_unavailable = refl
is_successful-code precheck_ambiguous = refl
is_successful-code precheck_invalid_response = refl
is_successful-code postcheck_uncertain = refl
is_successful-code postcheck_unavailable = refl
is_successful-code postcheck_ambiguous = refl
is_successful-code postcheck_invalid_response = refl
is_successful-code policy_violation = refl
is_successful-code target_ledger_divergence = refl
is_successful-code target_reconciliation_unavailable = refl
is_successful-code lease_fenced = refl
is_successful-code possibly_applied = refl
is_successful-code OutcomeCode.uncertain_effect = refl
is_successful-code compliance_interstitial = refl
is_successful-code human_intervention_required = refl

note_reference-requires_human :
    (ref : String) (p : Progress) → (note_reference ref p).requires_human ≡ p.requires_human
note_reference-requires_human ref p = ground arith

note_audit-requires_human :
    (r : Option String) (p : Progress) → (note_audit r p).requires_human ≡ p.requires_human
note_audit-requires_human none p = refl
note_audit-requires_human (some String.[]) p = refl
note_audit-requires_human (some (String.◌∷◌ c s)) p =
    note_reference-requires_human (String.◌∷◌ c s) p

fold_execution-requires_human :
    (e : CapabilityExecutionRecord) (p : Progress)
    → (fold_execution e p).requires_human
      ≡ p.requires_human || (not (is_successful e.status) && asks_for_human e.status)
unfolding fold_execution
fold_execution-requires_human e p = elim (Bool-cases (is_successful e.status)) [
  | inl done ↦ ground (
    arith,
    done,
    note_audit-requires_human e.audit_ref (record p {
      completed_caps = p.completed_caps ++ e.capability_id ∷ [];
      successful_execs = p.successful_execs ++ e ∷ [];
      money_moved = p.money_moved || e.money_moved;
    }),
  )
  | inr other ↦ ground (arith, other)
]

fold_execution-code :
    (c : OutcomeCode) (e : CapabilityExecutionRecord) (p : Progress)
    → e.status ≡ code_value c
    → (fold_execution e p).requires_human ≡ p.requires_human || (c == OutcomeCode.uncertain_effect)
fold_execution-code c e p h =
    fold_execution-requires_human e p
    ∙ ap (λ s. p.requires_human || (not (is_successful s) && asks_for_human s)) h
    ∙ ground (arith, asks_for_human-code c, is_successful-code c)

-- When every execution was completed with the value of an outcome code, which is what the engine
-- writes, the loop asks for a human exactly if it did before or one of the codes is
-- UNCERTAIN_EFFECT: an execution that failed hard does not count.
pub hard_failures_do_not_count :
    (cs : List OutcomeCode) (es : List CapabilityExecutionRecord) (p : Progress)
    → map status_of es ≡ map code_value cs
    → (fold_executions es p).requires_human
      ≡ p.requires_human || any_of (λ c. c == OutcomeCode.uncertain_effect) cs
unfolding fold_executions
hard_failures_do_not_count [] [] p h = ground arith
hard_failures_do_not_count [] (e ∷ es) p h = absurd (ground (arith, h))
hard_failures_do_not_count (c ∷ cs) [] p h = absurd (ground (arith, h))
hard_failures_do_not_count (c ∷ cs) (e ∷ es) p h =
    hard_failures_do_not_count cs es (fold_execution e p) (ground (arith, h))
    ∙ ground (arith, fold_execution-code c e p (ground (arith, h)))
