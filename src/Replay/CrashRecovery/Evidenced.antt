-- ===== src/Replay/CrashRecovery/Evidenced.antt =====
-- A recovery settles a claim only of a dead worker, and only by what the target answered.
use tandem_interface_ai.Prelude.{
  ℕ, String, ◌≡◌, ◌⊎◌, refl, sym, ap, ◌∙◌, arith, Bool, true, false, not, Option, none, some, List,
  [], ◌∷◌, inl, inr, Bool-cases, if◌then◌else◌,
}
use tandem_interface_ai.Prelude.Eq.{◌==◌, string_eq, nat_eq, ==_refl}
use tandem_interface_ai.Prelude.Table.{KeysUnique, select_one}
use tandem_interface_ai.Domain.Effects.{
  EffectClaimStatus, claimed, applying, applied, failed_retryable, class_eq, class_beq_iff,
  claim_status_eq, commit as commit_class,
}
use tandem_interface_ai.Domain.Capability.{CapabilityDefinition}
use tandem_interface_ai.Domain.Errors.{ok}
use tandem_interface_ai.Domain.Outcomes.{
  ExecutionOutcome, already_claimed, already_applied, not_applied,
  target_reconciliation_unavailable, code_eq, code_beq_iff,
}
use tandem_interface_ai.Ledger.Models.{EffectClaimRecord}
use tandem_interface_ai.Ledger.Session.{World, M, pure, lift}
use tandem_interface_ai.Ledger.Session.Bind.{>>=-eq-ok}
use tandem_interface_ai.Ledger.Cases.{update_case_status}
use tandem_interface_ai.Ledger.Events.{record_event}
use tandem_interface_ai.Ledger.Intents.{stage_intent, mark_intent_committed}
use tandem_interface_ai.Ledger.Executions.{start_execution, complete_execution}
use tandem_interface_ai.Ledger.Claims.{
  claim_key, get_effect_claim, transition_effect_claim, moved_to,
}
use tandem_interface_ai.Ledger.Claims.Transition.{may_move, move_if, transition_effect_claim-Moved}
use tandem_interface_ai.Ledger.Claims.Forms.{time_of}
use tandem_interface_ai.Ledger.Claims.Kept.{
  KeepsClaims, kept_pure, kept_event, kept_update_case_status, kept_stage_intent,
  kept_mark_intent_committed, kept_complete_execution, kept_start_execution,
}
use tandem_interface_ai.Replay.Inquiry.{Url}
use tandem_interface_ai.Replay.Checks.{execute_precheck}
use tandem_interface_ai.Replay.Checks.Answers.{Shows, Denies}
use tandem_interface_ai.Replay.Checks.Asks.{Asks}
use tandem_interface_ai.Replay.Checks.Evidence.{
  precheck_applied_has_identity, precheck_authorizes_only_absent,
}
use tandem_interface_ai.Replay.CrashRecovery.Owner.{
  local_owner_is_dead, DeadOwner, local_owner_is_dead-DeadOwner,
}
use tandem_interface_ai.Replay.CrashRecovery.{
  Outside, in_progress, has_file, for_human, inputs_of, report_execution, report_credit,
  report_applied, confirm_applied, report_absent, confirm_absent, resolve, recover_claim,
}

module _ (x : Outside) (case_id : String) (r : EffectClaimRecord) where
  kept_report_execution :
      (b : Bool) (ref : Option String) → KeepsClaims (report_execution x case_id r b ref)
  unfolding report_execution
  kept_report_execution true ref w b w' h = ground (arith, h)
  kept_report_execution false ref w b w' h =
      let (run, v, started, next) = >>=-eq-ok (start_execution _ _ _ _ _ _ _ _ _) _ w h in
      let (done, u, completed, last) = >>=-eq-ok (complete_execution _ _ _ _ _ _ _) _ v next in
      kept_pure tt u b w' last
      ∙ kept_complete_execution _ _ _ _ _ _ _ v done u completed
      ∙ kept_start_execution _ _ _ _ _ _ _ _ _ w run v started

  kept_report_credit : (b : Bool) → KeepsClaims (report_credit x case_id r b)
  unfolding report_credit
  kept_report_credit false w b w' h = ground (arith, h)
  kept_report_credit true w b w' h =
      let (c, v, updated, last) = >>=-eq-ok (update_case_status _ _ _) _ w h in
      kept_pure tt v b w' last ∙ kept_update_case_status _ _ _ w c v updated

  report_applied-kept :
      (ref : Option String) (w : World) (o : Option ExecutionOutcome) (w' : World)
      → report_applied x case_id r ref w ≡ (ok o, w')
      → (w'.db.claims ≡ w.db.claims) × (o ≡ none)
  unfolding report_applied
  report_applied-kept ref w o w' h =
      let (_, w1, reported, h1) = >>=-eq-ok (report_execution x case_id r _ ref) _ w h in
      let (_, w2, staged, h2) = >>=-eq-ok (stage_intent _ _ _) _ w1 h1 in
      let (_, w3, committed, h3) = >>=-eq-ok (mark_intent_committed _) _ w2 h2 in
      let (_, w4, credited, h4) = >>=-eq-ok (report_credit x case_id r _) _ w3 h3 in
      let (_, w5, recorded, h5) = >>=-eq-ok (record_event _ _ _ _ _) _ w4 h4 in
      (
        kept_pure none w5 o w' h5
            ∙ kept_event _ _ _ _ _ w4 _ w5 recorded
            ∙ kept_report_credit _ w3 _ w4 credited
            ∙ kept_mark_intent_committed _ w2 _ w3 committed
            ∙ kept_stage_intent _ _ _ w1 _ w2 staged
            ∙ kept_report_execution _ ref w _ w1 reported,
        ground (arith, h5),
      )

moved_status :
    (owner : String) (t : ℕ) (from : List EffectClaimStatus) (to : EffectClaimStatus) (at : ℕ)
    (before : Option EffectClaimRecord)
    → may_move owner t from before ≡ true
    → (row : EffectClaimRecord) × (move_if true to at before ≡ some row) × (row.status ≡ to)
moved_status owner t from to at none h = absurd (ground (arith, h))
moved_status owner t from to at (some r) h = (moved_to to at r, refl, refl)

-- The claim with this key is in this status.
abbrev pub Settled : String → EffectClaimStatus → World → Type 0
Settled key status w =
    (row : EffectClaimRecord) × (get_effect_claim key w.db ≡ some row) × (row.status ≡ status)

moved-Settled :
    (key owner : String) (t : ℕ) (from : List EffectClaimStatus) (to : EffectClaimStatus)
    (w : World) (b : Bool) (v w' : World)
    → KeysUnique claim_key w.db.claims
    → transition_effect_claim key owner t from to none w ≡ (ok b, v)
    → b ≡ true
    → w'.db.claims ≡ v.db.claims
    → Settled key to w'
moved-Settled key owner t from to w b v w' unique moved yes_row same =
    let done = transition_effect_claim-Moved key owner t from to none w unique moved in
    let (row, is_row, status) =
      moved_status owner t from to (time_of none w) (get_effect_claim key w.db)
        (sym done.allowed ∙ yes_row) in
    (
      row,
      ap (select_one claim_key key) same
          ∙ done.written key
          ∙ ap
              (λ x.
                if x
                then move_if b to (time_of none w) (get_effect_claim key w.db)
                else get_effect_claim key w.db)
              (==_refl key)
          ∙ ap (λ x. move_if x to (time_of none w) (get_effect_claim key w.db)) yes_row
          ∙ is_row,
      status,
    )

go_on :
    {A : Type 0} (a b c : Bool) (first second third : A) (m : M A) (w : World) (o : A) (w' : World)
    → (if not a then pure first else if not b then pure second else if not c then pure third else m)
        w
      ≡ (ok o, w')
    → a ≡ true
    → (second ≡ o → ⊥)
    → (third ≡ o → ⊥)
    → (b ≡ true) × (m w ≡ (ok o, w'))
go_on false b c first second third m w o w' h a x y = absurd (ground (arith, a))
go_on true false c first second third m w o w' h a x y = absurd (x (ground (arith, h)))
go_on true true false first second third m w o w' h a x y = absurd (y (ground (arith, h)))
go_on true true true first second third m w o w' h a x y = (refl, h)

module _ (x : Outside) (case_id : String) (r : EffectClaimRecord) where
  confirm_applied-Settled :
      (ref : Option String) (w w' : World)
      → KeysUnique claim_key w.db.claims
      → confirm_applied x case_id r ref w ≡ (ok none, w')
      → Settled r.idempotency_key applied w'
  unfolding confirm_applied
  confirm_applied-Settled ref w w' unique h =
      let (b, v, moved, next) =
        >>=-eq-ok
          (transition_effect_claim r.idempotency_key r.owner_id r.fencing_token
            (claimed ∷ applying ∷ []) applied none)
          _ w h in
      elim (Bool-cases b) [
        | inr lost ↦ absurd (ground (arith, lost, next))
        | inl won ↦
            moved-Settled _ _ _ _ applied w b v w' unique moved won
              (report_applied-kept x case_id r ref v none w' (rw won at next)).0
      ]

  confirm_absent-Settled :
      (w w' : World)
      → KeysUnique claim_key w.db.claims
      → confirm_absent x case_id r w ≡ (ok none, w')
      → Settled r.idempotency_key failed_retryable w'
  unfolding confirm_absent report_absent
  confirm_absent-Settled w w' unique h =
      let (b, v, moved, next) =
        >>=-eq-ok
          (transition_effect_claim r.idempotency_key r.owner_id r.fencing_token
            (claimed ∷ applying ∷ []) failed_retryable none)
          _ w h in
      elim (Bool-cases b) [
        | inr lost ↦ absurd (ground (arith, lost, next))
        | inl won ↦
            let (_, u, recorded, last) = >>=-eq-ok (record_event _ _ _ _ _) _ v (rw won at next) in
            moved-Settled _ _ _ _ failed_retryable w b v w' unique moved won
              (kept_pure none u none w' last ∙ kept_event _ _ _ _ _ v _ u recorded)
      ]

  resolve-Settled :
      (o : ExecutionOutcome) (w w' : World)
      → KeysUnique claim_key w.db.claims
      → resolve x case_id r o w ≡ (ok none, w')
      → ((o.code ≡ already_applied) × Settled r.idempotency_key applied w')
        ⊎ ((o.code ≡ not_applied) × Settled r.idempotency_key failed_retryable w')
  unfolding resolve
  resolve-Settled o w w' unique h = elim (Bool-cases (o.code == already_applied)) [
    | inl y ↦
        inl ((code_beq_iff _ _).0 y, confirm_applied-Settled o.audit_ref w w' unique (rw y at h))
    | inr y ↦ elim (Bool-cases (o.code == not_applied)) [
      | inl z ↦
          inr ((code_beq_iff _ _).0 z, confirm_absent-Settled w w' unique (rw z at (rw y at h)))
      | inr z ↦ absurd (ground (arith, h, y, z))
    ]
  ]

  -- Where claims have unique keys and the capabilities that are loaded are COMMITs: a round of the recovery that goes on past a claim in progress found its owner to be an automation worker of another process that is dead, and leaves it APPLIED, when the target system, asked for the claim's own case, showed the effect with its identity, or FAILED_RETRYABLE, when it answered 404 to that request.
  pub recovered_by_evidence :
      (n : ℕ) (w w' : World)
      → KeysUnique claim_key w.db.claims
      → ((id : String) (c : CapabilityDefinition)
          → x.load id ≡ ok c
          → c.effect.effect_class ≡ commit_class)
      → in_progress r ≡ true
      → recover_claim x case_id r n w ≡ (ok none, w')
      → DeadOwner x.processes r.owner_id
        × ((c : CapabilityDefinition) × (x.load r.capability_id ≡ ok c)
            × ((((url : Url) × Asks x.lower c (inputs_of x r) url
                    × Shows c (inputs_of x r) (x.fetch url n))
                  × Settled r.idempotency_key applied w')
                ⊎ (((url : Url) × Asks x.lower c (inputs_of x r) url × Denies (x.fetch url n))
                    × Settled r.idempotency_key failed_retryable w')))
  unfolding recover_claim
  recovered_by_evidence n w w' unique commits busy h =
      let (dead, rest) =
        go_on (in_progress r) (local_owner_is_dead x.processes r.owner_id)
          (has_file r.capability_id) none (some (for_human already_claimed))
          (some (for_human target_reconciliation_unavailable)) _ w none w' h busy
          (λ e. ground (arith, e)) (λ e. ground (arith, e)) in
      let (c, v, loaded, next) = >>=-eq-ok (lift (x.load r.capability_id)) _ w rest in
      let (o, u, asked, last) =
        >>=-eq-ok (lift (execute_precheck x.lower x.fetch c (inputs_of x r) n)) _ v next in
      let is_loaded : x.load r.capability_id ≡ ok c = ground (arith, loaded) in
      let is_asked : execute_precheck x.lower x.fetch c (inputs_of x r) n ≡ ok o =
        ground (arith, asked) in
      let v_same : v ≡ w = ground (arith, loaded) in
      let u_same : u ≡ v = ground (arith, asked) in
      let same : u.db.claims ≡ w.db.claims = ap (λ (y : World). y.db.claims) (u_same ∙ v_same) in
      (
        local_owner_is_dead-DeadOwner x.processes r.owner_id dead,
        (
          c,
          is_loaded,
          elim (resolve-Settled o u w' (rw (sym same) at unique) last) [
            | inl (code, settled) ↦ inl (
              precheck_applied_has_identity c (inputs_of x r) x.lower x.fetch n o is_asked code,
              settled,
            )
            | inr (code, settled) ↦ inr (
              precheck_authorizes_only_absent c (inputs_of x r) x.lower x.fetch n o
                  ((class_beq_iff _ _).1 (commits r.capability_id c is_loaded)) is_asked code,
              settled,
            )
          ],
        ),
      )
