-- ===== src/Replay/Engine/Untouched.antt =====
-- An effect that somebody holds, or that is settled for good, is not acted on again.
use tandem_interface_ai.Prelude.{
  String, ◌≡◌, refl, sym, ap, ◌∙◌, arith, false, none, some, inl, inr, Option-cases,
}
use tandem_interface_ai.Prelude.Eq.{string_eq}
use tandem_interface_ai.Prelude.Int.{ℤ}
use tandem_interface_ai.Prelude.Table.{KeysUnique}
use tandem_interface_ai.Domain.Values.{Dict}
use tandem_interface_ai.Domain.Capability.{CapabilityDefinition}
use tandem_interface_ai.Domain.Identity.{EffectIdentity}
use tandem_interface_ai.Domain.Fields.{Fields}
use tandem_interface_ai.Domain.Outcomes.{ExecutionOutcome}
use tandem_interface_ai.Policy.{evaluate}
use tandem_interface_ai.Ledger.Session.{World, Result, ok, raised, M, ◌>>=◌, pure, continue}
use tandem_interface_ai.Ledger.Session.Bind.{>>=-eq-ok}
use tandem_interface_ai.Ledger.Events.{record_event}
use tandem_interface_ai.Ledger.Claims.{
  EffectClaim, claim_key, get_effect_claim, key_of, claim_effect,
}
use tandem_interface_ai.Ledger.Claims.Exclusive.{is_claimable, claim_effect-Attempt}
use tandem_interface_ai.Replay.Inquiry.{Response}
use tandem_interface_ai.Replay.Http.{PostUrl}
use tandem_interface_ai.Replay.Engine.{Platform, EffectEngine, Admitted, finished}
use tandem_interface_ai.Replay.Engine.Admit.{
  default_ttl, record_rejection, rejected_outcome, settle_found, halt_unproved, stage_and_commit,
  after_precheck, after_claim, admit_commit, deny, admit,
}
use tandem_interface_ai.Replay.Engine.Act.{act_if_admitted}

module _ {A B : Type 0} where
  continue_cong :
      (x : Result A × World) (f g : A → M B)
      → ((a : A) (v : World) → x ≡ (ok a, v) → f a v ≡ g a v)
      → continue x.0 f x.1 ≡ continue x.0 g x.1
  continue_cong (ok a, v) f g h = h a v refl
  continue_cong (raised e, v) f g h = refl

  bind_cong :
      (m : M A) (f g : A → M B) (w : World)
      → ((a : A) (v : World) → m w ≡ (ok a, v) → f a v ≡ g a v)
      → (m >>= f) w ≡ (m >>= g) w
  bind_cong m f g w h = continue_cong (m w) f g h

-- The same platform with other executors.
abbrev pub with_executors :
    (PostUrl → Dict → Response)
    → (M (Unit {0}) → CapabilityDefinition → Fields → M ExecutionOutcome)
    → Platform
    → Platform
with_executors post browser p = record p { post = post; browser = browser }

module _ (p : Platform) (e : EffectEngine) (c : CapabilityDefinition) (case_id : String)
    (inputs : Fields) where
  finishes :
      {A : Type 0} (m : M A) (o : A → ExecutionOutcome) (w : World) (a : Admitted) (w' : World)
      → (m >>= λ x. pure (finished (o x))) w ≡ (ok a, w')
      → (y : ExecutionOutcome) × (a ≡ finished y)
  finishes m o w a w' h =
      let (x, v, first, second) = >>=-eq-ok m (λ x. pure (finished (o x))) w h in
      (o x, ground (arith, second))

  rejected-finished :
      (key : String) (claim : EffectClaim) (w : World) (a : Admitted) (w' : World)
      → claim.acquired ≡ false
      → after_claim p e c case_id inputs key claim w ≡ (ok a, w')
      → (o : ExecutionOutcome) × (a ≡ finished o)
  unfolding after_claim
  rejected-finished key claim w a w' lost h =
      finishes (rejected_outcome p e c case_id inputs claim.status) (λ o. o) w a w' (rw lost at h)

  busy_commit-finished :
      (i : EffectIdentity) (w : World) (a : Admitted) (w' : World)
      → KeysUnique claim_key w.db.claims
      → is_claimable (get_effect_claim (key_of w.env i) w.db) ≡ false
      → admit_commit p e c case_id inputs i w ≡ (ok a, w')
      → (o : ExecutionOutcome) × (a ≡ finished o)
  unfolding admit_commit
  busy_commit-finished i w a w' unique busy h =
      let (claim, v, taken, next) = >>=-eq-ok (claim_effect i e.owner_id none default_ttl) _ w h in
      let (u, x, noted, last) =
        >>=-eq-ok (record_rejection p e c case_id inputs _ claim) _ v next in
      let tried = claim_effect-Attempt i e.owner_id none default_ttl w unique taken in
      rejected-finished _ claim _ a w' (tried.acquired ∙ busy) last

  busy-finished :
      (i : EffectIdentity) (w : World) (a : Admitted) (w' : World)
      → KeysUnique claim_key w.db.claims
      → is_claimable (get_effect_claim (key_of w.env i) w.db) ≡ false
      → admit p e c case_id inputs (some i) w ≡ (ok a, w')
      → (o : ExecutionOutcome) × (a ≡ finished o)
  unfolding admit deny
  busy-finished i w a w' unique busy h = elim (Option-cases (evaluate c inputs)) [
    | inr (o, y) ↦ finishes (record_event _ _ _ _ _) (λ _. o) w a w' (rw (y, admit) at h)
    | inl y ↦ busy_commit-finished i w a w' unique busy (rw (y, admit) at h)
  ]

  -- Where claims have unique keys: if the effect of a COMMIT is claimed by somebody, or settled other than as retryable, the run gives the same result and leaves the same world whatever the executors would do, so that it never reaches them.
  pub busy_effect_untouched :
      (post : PostUrl → Dict → Response)
      (browser : M (Unit {0}) → CapabilityDefinition → Fields → M ExecutionOutcome)
      (member_id : String) (cents : ℤ) (i : EffectIdentity) (w : World)
      → KeysUnique claim_key w.db.claims
      → is_claimable (get_effect_claim (key_of w.env i) w.db) ≡ false
      → (admit p e c case_id inputs (some i)
            >>= act_if_admitted p e c case_id inputs member_id cents)
          w
        ≡ (admit (with_executors post browser p) e c case_id inputs (some i)
              >>= act_if_admitted
                  (with_executors post browser p)
                  e
                  c
                  case_id
                  inputs
                  member_id
                  cents)
            w
  unfolding act_if_admitted admit admit_commit after_claim after_precheck settle_found halt_unproved
      stage_and_commit rejected_outcome record_rejection deny
  busy_effect_untouched post browser member_id cents i w unique busy =
      bind_cong (admit p e c case_id inputs (some i))
        (act_if_admitted p e c case_id inputs member_id cents)
        (act_if_admitted (with_executors post browser p) e c case_id inputs member_id cents) w
        (λ a v h.
          let (o, is) = busy-finished i w a v unique busy h in
          ap (λ x. act_if_admitted p e c case_id inputs member_id cents x v) is
          ∙ sym (
              ap
                (λ x.
                  act_if_admitted (with_executors post browser p) e c case_id inputs member_id cents
                    x v)
                is))
