-- ===== src/Replay/Engine/Settled.antt =====
-- How a run that acts leaves its claim: settled by its outcome, whatever the action did.
use tandem_interface_ai.Prelude.{
  ℕ, String, ◌≡◌, refl, sym, ap, ◌∙◌, arith, Bool, true, not, ◌&&◌, Option, none, some, List, [],
  ◌∷◌, inl, inr, Bool-cases, any_of, if◌then◌else◌,
}
use tandem_interface_ai.Prelude.Eq.{◌==◌, string_eq, nat_eq, ==_refl}
use tandem_interface_ai.Prelude.Int.{ℤ}
use tandem_interface_ai.Prelude.Table.{KeysUnique, select_one}
use tandem_interface_ai.Domain.Values.{Dict}
use tandem_interface_ai.Domain.Errors.{runtime_error}
use tandem_interface_ai.Domain.Effects.{
  EffectClaimStatus, claimed, applying, class_eq, claim_status_eq,
}
use tandem_interface_ai.Domain.Capability.{CapabilityDefinition}
use tandem_interface_ai.Domain.Fields.{Fields}
use tandem_interface_ai.Domain.Outcomes.{
  ExecutionOutcome, OutcomeCategory, confirmed_applied, needs_human, hard_failure, code_eq,
  category_eq, is_success,
}
use tandem_interface_ai.Workflow.StateMachine.{RegEState}
use tandem_interface_ai.Ledger.Models.{EffectClaimRecord}
use tandem_interface_ai.Ledger.Session.{World, Result, ok, M, raise_if}
use tandem_interface_ai.Ledger.Session.Bind.{>>=-eq-ok}
use tandem_interface_ai.Ledger.Cases.{update_case_status}
use tandem_interface_ai.Ledger.Claims.{
  claim_key, get_effect_claim, transition_effect_claim, moved_to,
}
use tandem_interface_ai.Ledger.Claims.Transition.{may_move, move_if, transition_effect_claim-Moved}
use tandem_interface_ai.Ledger.Claims.Forms.{time_of}
use tandem_interface_ai.Ledger.Claims.Kept.{
  KeepsClaims, kept_log, kept_update_case_status, kept_mark_intent_committed,
  kept_complete_execution, kept_start_execution,
}
use tandem_interface_ai.Ledger.Leases.{acquire_lease, release_lease}
use tandem_interface_ai.Ledger.Leases.Kept.{kept_acquire_lease, kept_release_lease}
use tandem_interface_ai.Ledger.Executions.{start_execution, complete_execution}
use tandem_interface_ai.Replay.Settlement.{settle_claim_status}
use tandem_interface_ai.Replay.Engine.{Platform, EffectEngine, fenced}
use tandem_interface_ai.Replay.Engine.Quiet.{Quiet, execute-Quiet}
use tandem_interface_ai.Replay.Engine.Act.{
  execute, record_money, record_reconciled, record_escalation, commit_intent, settle, escalate,
  enter_applying, conclude_run, act,
}

-- The claim `k` is this engine's, with its token, and in this status.
abbrev pub Stands : EffectEngine → String → ℕ → EffectClaimStatus → World → Type 0
Stands e k t status w =
    (r : EffectClaimRecord) × (get_effect_claim k w.db ≡ some r)
    × (r.status ≡ status)
    × (r.owner_id ≡ e.owner_id)
    × (r.fencing_token ≡ t)

Stands-kept :
    (e : EffectEngine) (k : String) (t : ℕ) (status : EffectClaimStatus) (v w : World)
    → w.db.claims ≡ v.db.claims
    → Stands e k t status v
    → Stands e k t status w
Stands-kept e k t status v w same (r, there, is, owner, token) =
    (r, ap (select_one claim_key k) same ∙ there, is, owner, token)

first_two : (a b c : Bool) → (a && b && c) ≡ true → (a ≡ true) × (b ≡ true)
first_two a b c h = ground (arith, h)

moved_row :
    (e : EffectEngine) (k : String) (t : ℕ) (from : List EffectClaimStatus) (to : EffectClaimStatus)
    (at : ℕ) (before : Option EffectClaimRecord)
    → may_move e.owner_id t from before ≡ true
    → (r : EffectClaimRecord) × (move_if true to at before ≡ some r)
      × (r.status ≡ to)
      × (r.owner_id ≡ e.owner_id)
      × (r.fencing_token ≡ t)
moved_row e k t from to at none h = absurd (ground (arith, h))
moved_row e k t from to at (some r) h =
    let (owns, tokens) = first_two _ _ (any_of (λ s. s == r.status) from) h in
    (moved_to to at r, refl, refl, (string_eq.beq_iff _ _).0 owns, (nat_eq.beq_iff _ _).0 tokens)

-- A transition that is required to succeed, by the claim's fenced owner.
required_move :
    (e : EffectEngine) (k : String) (t : ℕ) (from : List EffectClaimStatus) (to : EffectClaimStatus)
    (w : World) (b : Bool) (v : World) (u : Unit {0}) (w' : World)
    → KeysUnique claim_key w.db.claims
    → transition_effect_claim k e.owner_id t from to none w ≡ (ok b, v)
    → raise_if (not b) runtime_error v ≡ (ok u, w')
    → Stands e k t to w' × KeysUnique claim_key w'.db.claims
required_move e k t from to w b v u w' unique moved last =
    let done = transition_effect_claim-Moved k e.owner_id t from to none w unique moved in
    elim (Bool-cases b) [
      | inr no_row ↦ absurd (ground (arith, no_row, last))
      | inl yes_row ↦
          let (r, row, is, owner, token) =
            moved_row e k t from to (time_of none w) (get_effect_claim k w.db)
              (sym done.allowed ∙ yes_row) in
          let same : v ≡ w' = ground (arith, yes_row, last) in
          let there : get_effect_claim k v.db ≡ some r =
            done.written k
            ∙ ap
                (λ x.
                  if x
                  then move_if b to (time_of none w) (get_effect_claim k w.db)
                  else get_effect_claim k w.db)
                (==_refl k)
            ∙ ap (λ x. move_if x to (time_of none w) (get_effect_claim k w.db)) yes_row
            ∙ row in
          (
            (r, ap (λ (x : World). get_effect_claim k x.db) (sym same) ∙ there, is, owner, token),
            rw same at done.unique,
          )
    ]

module _ (p : Platform) (e : EffectEngine) (c : CapabilityDefinition) (case_id : String)
    (inputs : Fields) where
  kept_record_money :
      (cents : ℤ) (o : ExecutionOutcome) → KeepsClaims (record_money p e c case_id inputs cents o)
  unfolding record_money
  kept_record_money cents o w b w' h = elim (Bool-cases o.money_moved) [
    | inr y ↦ ground (arith, y, h)
    | inl y ↦
        let (u, v, updated, next) = >>=-eq-ok (update_case_status _ _ _) _ w (rw y at h) in
        kept_log _ _ _ _ _ v b w' next ∙ kept_update_case_status _ _ _ w u v updated
  ]

  kept_record_reconciled :
      (o : ExecutionOutcome) → KeepsClaims (record_reconciled p e c case_id inputs o)
  unfolding record_reconciled
  kept_record_reconciled o w b w' h = elim (Bool-cases (o.code == confirmed_applied)) [
    | inr y ↦ ground (arith, y, h)
    | inl y ↦ kept_log _ _ _ _ _ w b w' (rw y at h)
  ]

  kept_escalate :
      (status : RegEState) (event_type : String) (payload : Dict)
      → KeepsClaims (escalate p e c case_id inputs status event_type payload)
  kept_escalate status event_type payload w b w' h =
      let (u, v, updated, next) = >>=-eq-ok (update_case_status _ _ _) _ w h in
      kept_log _ _ _ _ _ v b w' next ∙ kept_update_case_status _ _ _ w u v updated

  kept_record_escalation :
      (o : ExecutionOutcome) → KeepsClaims (record_escalation p e c case_id inputs o)
  unfolding record_escalation
  kept_record_escalation o w b w' h =
      elim (Bool-cases (o.category == OutcomeCategory.uncertain_effect)) [
        | inl y ↦ kept_escalate _ _ _ w b w' (rw y at h)
        | inr y ↦ elim (Bool-cases (o.category == needs_human)) [
          | inl z ↦ kept_escalate _ _ _ w b w' (rw z at (rw y at h))
          | inr z ↦ elim (Bool-cases (o.category == hard_failure)) [
            | inl x ↦ kept_escalate _ _ _ w b w' (rw x at (rw z at (rw y at h)))
            | inr x ↦ ground (arith, x, z, y, h)
          ]
        ]
      ]

  kept_commit_intent :
      (k : String) (o : ExecutionOutcome) → KeepsClaims (commit_intent p e c case_id inputs k o)
  unfolding commit_intent
  kept_commit_intent k o w b w' h = elim (Bool-cases (is_success o)) [
    | inl y ↦ kept_mark_intent_committed k w b w' (rw y at h)
    | inr y ↦ ground (arith, y, h)
  ]

  settle-Stands :
      (k : String) (t : ℕ) (o : ExecutionOutcome) (w w' : World)
      → KeysUnique claim_key w.db.claims
      → settle p e c case_id inputs (fenced k t) o w ≡ (ok tt, w')
      → Stands e k t (settle_claim_status o) w'
  unfolding settle
  settle-Stands k t o w w' unique h =
      let (b, v, moved, next) =
        >>=-eq-ok
          (transition_effect_claim k e.owner_id t (applying ∷ []) (settle_claim_status o) none) _ w
          h in
      let (u, x, passed, last) = >>=-eq-ok (raise_if (not b) runtime_error) _ v next in
      Stands-kept e k t _ x w' (kept_commit_intent k o x tt w' last)
        (required_move e k t (applying ∷ []) (settle_claim_status o) w b v u x unique moved
          passed).0

  enter_applying-Stands :
      (k : String) (t : ℕ) (w : World) (u : Unit {0}) (w' : World)
      → KeysUnique claim_key w.db.claims
      → enter_applying p e c case_id inputs (fenced k t) w ≡ (ok u, w')
      → Stands e k t applying w' × KeysUnique claim_key w'.db.claims
  unfolding enter_applying
  enter_applying-Stands k t w u w' unique h =
      let (b, v, moved, last) =
        >>=-eq-ok (transition_effect_claim k e.owner_id t (claimed ∷ []) applying none) _ w h in
      required_move e k t (claimed ∷ []) applying w b v u w' unique moved last

  conclude_run-Stands :
      (id lease_token : ℕ) (cents : ℤ) (k : String) (t : ℕ) (o : ExecutionOutcome) (w : World)
      (o' : ExecutionOutcome) (w' : World)
      → KeysUnique claim_key w.db.claims
      → conclude_run p e c case_id inputs id lease_token cents (fenced k t) o w ≡ (ok o', w')
      → (o' ≡ o) × Stands e k t (settle_claim_status o) w' × (w'.durable ≡ w'.db)
  unfolding conclude_run
  conclude_run-Stands id lease_token cents k t o w o' w' unique h =
      let (_, w1, completed, h1) = >>=-eq-ok (complete_execution _ _ _ _ _ _ _) _ w h in
      let (_, w2, money, h2) = >>=-eq-ok (record_money p e c case_id inputs cents o) _ w1 h1 in
      let (_, w3, reconciled, h3) = >>=-eq-ok (record_reconciled p e c case_id inputs o) _ w2 h2 in
      let (_, w4, escalated, h4) = >>=-eq-ok (record_escalation p e c case_id inputs o) _ w3 h3 in
      let (_, w5, settled, h5) = >>=-eq-ok (settle p e c case_id inputs (fenced k t) o) _ w4 h4 in
      let (_, w6, released, h6) =
        >>=-eq-ok (release_lease case_id (some e.owner_id) (some lease_token) none) _ w5 h5 in
      let same : w4.db.claims ≡ w.db.claims =
        kept_record_escalation o w3 _ w4 escalated
        ∙ kept_record_reconciled o w2 _ w3 reconciled
        ∙ kept_record_money cents o w1 _ w2 money
        ∙ kept_complete_execution _ _ _ _ _ _ _ w _ w1 completed in
      let stands = settle-Stands k t o w4 w5 (rw (sym same) at unique) settled in
      (
        ground (arith, h6),
        Stands-kept e k t _ w5 w'
            (ground (arith, h6)
              ∙ kept_release_lease case_id (some e.owner_id) (some lease_token) none w5 _ w6
                  released)
            stands,
        ground (arith, h6),
      )

  module _ (browser_quiet : (m : M (Unit {0})) → Quiet m → Quiet (p.browser m c inputs)) where
    -- Where claims have unique keys and the browser leaves the claims alone: a run that acts under a claim and returns leaves the claim with this engine and its token, in the status that settles the outcome returned, whatever the target and the browser did, and commits it.
    pub act_settles :
        (member_id : String) (cents : ℤ) (k : String) (t : ℕ) (w : World) (o : ExecutionOutcome)
        (w' : World)
        → KeysUnique claim_key w.db.claims
        → act p e c case_id inputs member_id cents (fenced k t) w ≡ (ok o, w')
        → Stands e k t (settle_claim_status o) w' × (w'.durable ≡ w'.db)
    unfolding act
    act_settles member_id cents k t w o w' unique h =
        let (lease, w1, acquired, h1) = >>=-eq-ok (acquire_lease _ _ _ _ _ _) _ w h in
        let (u, w2, entered, h2) =
          >>=-eq-ok (enter_applying p e c case_id inputs (fenced k t)) _ w1 h1 in
        let (run, w3, started, h3) = >>=-eq-ok (start_execution _ _ _ _ _ _ _ _ _) _ w2 h2 in
        let (x, w4, acted, h4) =
          >>=-eq-ok (execute p e c case_id inputs lease.fencing_token) _
            (record w3 { durable = w3.db }) h3 in
        let unique1 = rw (sym (kept_acquire_lease _ _ _ _ _ _ w lease w1 acquired)) at unique in
        let (_, unique2) = enter_applying-Stands k t w1 u w2 unique1 entered in
        let same : w4.db.claims ≡ w2.db.claims =
          ap (λ (y : Result ExecutionOutcome × World). y.1.db.claims) (sym acted)
          ∙ execute-Quiet p e c case_id inputs browser_quiet lease.fencing_token
              (record w3 { durable = w3.db })
          ∙ kept_start_execution _ _ _ _ _ _ _ _ _ w2 run w3 started in
        let (is, stands, saved) =
          conclude_run-Stands run.id lease.fencing_token cents k t x w4 o w'
            (rw (sym same) at unique2) h4 in
        (rw (sym is) at stands, saved)
