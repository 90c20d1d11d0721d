-- ===== src/Replay/Engine/Fenced.antt =====
-- What the engine knows when it goes on to act: the policy, the claim and the target's answer.
use tandem_interface_ai.Prelude.{
  ℕ, String, ◌≡◌, refl, sym, ap, ◌∙◌, arith, true, Option, none, some, inl, inr, Bool-cases,
  Option-cases, if◌then◌else◌,
}
use tandem_interface_ai.Prelude.Eq.{◌==◌, string_eq, ==_refl}
use tandem_interface_ai.Prelude.Table.{KeysUnique, select_one}
use tandem_interface_ai.Domain.Effects.{
  commit as commit_class, claimed, class_eq, class_beq_iff, claim_status_eq,
}
use tandem_interface_ai.Domain.Capability.{CapabilityDefinition}
use tandem_interface_ai.Domain.Identity.{EffectIdentity}
use tandem_interface_ai.Domain.Fields.{Fields}
use tandem_interface_ai.Domain.Outcomes.{
  ExecutionOutcome, already_applied, not_applied, code_eq, code_beq_iff,
}
use tandem_interface_ai.Policy.{evaluate}
use tandem_interface_ai.Ledger.Models.{EffectClaimRecord}
use tandem_interface_ai.Ledger.Session.{World, ok, M, ◌>>=◌, pure}
use tandem_interface_ai.Ledger.Session.Bind.{>>=-eq-ok}
use tandem_interface_ai.Ledger.Claims.{
  EffectClaim, claim_key, get_effect_claim, key_of, claim_effect, transition_effect_claim,
}
use tandem_interface_ai.Ledger.Claims.Exclusive.{is_claimable, row_after, claim_effect-Attempt}
use tandem_interface_ai.Ledger.Claims.Forms.{time_of}
use tandem_interface_ai.Ledger.Claims.Kept.{KeepsClaims, kept_event, kept_log, kept_stage_intent}
use tandem_interface_ai.Ledger.Events.{record_event}
use tandem_interface_ai.Ledger.Intents.{stage_intent}
use tandem_interface_ai.Ledger.Executions.{start_execution, complete_execution}
use tandem_interface_ai.Replay.Inquiry.{Url}
use tandem_interface_ai.Replay.Checks.{execute_precheck}
use tandem_interface_ai.Replay.Checks.Answers.{Denies}
use tandem_interface_ai.Replay.Checks.Asks.{Asks}
use tandem_interface_ai.Replay.Checks.Evidence.{precheck_authorizes_only_absent}
use tandem_interface_ai.Replay.Engine.{Platform, EffectEngine, finished, fenced}
use tandem_interface_ai.Replay.Engine.Admit.{
  default_ttl, target_precheck, record_rejection, rejected_outcome, settle_found, halt_unproved,
  stage_and_commit, after_precheck, after_claim, admit_commit, deny, admit,
}

module _ (p : Platform) (e : EffectEngine) (c : CapabilityDefinition) (case_id : String)
    (inputs : Fields) where
  kept_record_rejection :
      (key : String) (claim : EffectClaim)
      → KeepsClaims (record_rejection p e c case_id inputs key claim)
  unfolding record_rejection
  kept_record_rejection key claim w b w' h = elim (Bool-cases claim.acquired) [
    | inl y ↦ ground (arith, y, h)
    | inr y ↦ kept_log _ _ _ _ _ w b w' (rw y at h)
  ]

  -- An action that ends the run does not go on to act.
  ends :
      {A : Type 0} (m : M A) (o : A → ExecutionOutcome) (w : World) (k : String) (t : ℕ)
      (w' : World)
      → (m >>= λ a. pure (finished (o a))) w ≡ (ok (fenced k t), w')
      → ⊥
  ends m o w k t w' h =
      let (a, v, first, second) = >>=-eq-ok m (λ a. pure (finished (o a))) w h in
      ground (arith, second)

  stage-fenced :
      (key : String) (token : ℕ) (w : World) (k : String) (t : ℕ) (w' : World)
      → stage_and_commit p e c case_id inputs key token w ≡ (ok (fenced k t), w')
      → (k ≡ key) × (t ≡ token) × (w'.db.claims ≡ w.db.claims) × (w'.durable ≡ w'.db)
  unfolding stage_and_commit
  stage-fenced key token w k t w' h =
      let (i, v, staged, next) = >>=-eq-ok (stage_intent case_id key c.id) _ w h in
      let (x, u, recorded, last) = >>=-eq-ok (record_event _ _ _ _ _) _ v next in
      (
        ground (arith, last),
        ground (arith, last),
        ground (arith, last)
            ∙ kept_event _ _ _ _ _ v x u recorded
            ∙ kept_stage_intent case_id key c.id w i v staged,
        ground (arith, last),
      )

  settle_found-ends :
      (key : String) (token : ℕ) (o : ExecutionOutcome) (w : World) (k : String) (t : ℕ)
      (w' : World)
      → settle_found p e c case_id inputs key token o w ≡ (ok (fenced k t), w')
      → ⊥
  unfolding settle_found
  settle_found-ends key token o w k t w' h =
      let (x, v, _, next) = >>=-eq-ok (record_event _ _ _ _ _) _ w h in
      let (r, u, _, more) = >>=-eq-ok (start_execution _ _ _ _ _ _ _ _ _) _ v next in
      let (r', u', _, rest) = >>=-eq-ok (complete_execution _ _ _ _ _ _ _) _ u more in
      let (b, x', _, last) = >>=-eq-ok (transition_effect_claim _ _ _ _ _ _) _ u' rest in
      ground (arith, last)

  halt_unproved-ends :
      (key : String) (token : ℕ) (o : ExecutionOutcome) (w : World) (k : String) (t : ℕ)
      (w' : World)
      → halt_unproved p e c case_id inputs key token o w ≡ (ok (fenced k t), w')
      → ⊥
  unfolding halt_unproved
  halt_unproved-ends key token o w k t w' h =
      let (b, v, _, next) = >>=-eq-ok (transition_effect_claim _ _ _ _ _ _) _ w h in
      let (x, u, _, last) = >>=-eq-ok (record_event _ _ _ _ _) _ v next in ground (arith, last)

  after_precheck-fenced :
      (key : String) (token : ℕ) (o : ExecutionOutcome) (w : World) (k : String) (t : ℕ)
      (w' : World)
      → after_precheck p e c case_id inputs key token o w ≡ (ok (fenced k t), w')
      → (o.code ≡ not_applied)
        × (k ≡ key)
        × (t ≡ token)
        × (w'.db.claims ≡ w.db.claims)
        × (w'.durable ≡ w'.db)
  unfolding after_precheck
  after_precheck-fenced key token o w k t w' h = elim (Bool-cases (o.code == already_applied)) [
    | inl y ↦ absurd (settle_found-ends key token o w k t w' (rw y at h))
    | inr y ↦ elim (Bool-cases (o.code == not_applied)) [
      | inr z ↦ absurd (halt_unproved-ends key token o w k t w' (rw z at (rw y at h)))
      | inl z ↦
          let (ek, et, kept, saved) = stage-fenced key token w k t w' (rw z at (rw y at h)) in
          ((code_beq_iff o.code not_applied).0 z, ek, et, kept, saved)
    ]
  ]

  after_claim-fenced :
      (key : String) (claim : EffectClaim) (w : World) (k : String) (t : ℕ) (w' : World)
      → after_claim p e c case_id inputs key claim w ≡ (ok (fenced k t), w')
      → (claim.acquired ≡ true)
        × ((o : ExecutionOutcome) × (execute_precheck p.lower p.fetch c inputs 0 ≡ ok o)
            × (o.code ≡ not_applied))
        × (k ≡ key)
        × (t ≡ claim.fencing_token)
        × (w'.db.claims ≡ w.db.claims)
        × (w'.durable ≡ w'.db)
  unfolding after_claim
  after_claim-fenced key claim w k t w' h = elim (Bool-cases claim.acquired) [
    | inr y ↦
        absurd
          (ends (rejected_outcome p e c case_id inputs claim.status) (λ o. o) w k t w' (rw y at h))
    | inl y ↦
        let (o, v, asked, next) =
          >>=-eq-ok (target_precheck p e c case_id inputs) _ w (rw y at h) in
        let (code, ek, et, kept, saved) =
          after_precheck-fenced key claim.fencing_token o v k t w' next in
        let same : v ≡ w = ground (arith, asked) in
        (
          y,
          (o, ground (arith, asked), code),
          ek,
          et,
          kept ∙ ap (λ (x : World). x.db.claims) same,
          saved,
        )
  ]

-- What holds when the run of a COMMIT goes on to act with the key `k` and the token `t`.
pub record Authorized (p : Platform) (e : EffectEngine) (c : CapabilityDefinition) (inputs : Fields)
    (i : EffectIdentity) (k : String) (t : ℕ) (w w' : World) : Type 0 where
  pub policy : evaluate c inputs ≡ none
  pub key : k ≡ key_of w.env i
  pub free : is_claimable (get_effect_claim k w.db) ≡ true
  pub claim :
      (r : EffectClaimRecord) × (get_effect_claim k w'.db ≡ some r)
      × (r.status ≡ claimed)
      × (r.owner_id ≡ e.owner_id)
      × (r.fencing_token ≡ t)
  pub absent : (url : Url) × Asks p.lower c inputs url × Denies (p.fetch url 0)
  pub durable : w'.durable ≡ w'.db
  pub unique : KeysUnique claim_key w'.db.claims

claimed_row :
    (key k : String) (v w' : World) (row : EffectClaimRecord) (before : Option EffectClaimRecord)
    → k ≡ key
    → w'.db.claims ≡ v.db.claims
    → get_effect_claim key v.db ≡ (if key == key then some row else before)
    → get_effect_claim k w'.db ≡ some row
claimed_row key k v w' row before ek same written =
    ap (λ j. select_one claim_key j w'.db.claims) ek
    ∙ ap (select_one claim_key key) same
    ∙ written
    ∙ ap (λ b. if b then some row else before) (==_refl key)

row_after-claimable :
    (i : EffectIdentity) (key owner : String) (at ttl : ℕ) (found : Option EffectClaimRecord)
    → is_claimable found ≡ true
    → ((row_after i key owner at ttl found).status ≡ claimed)
      × ((row_after i key owner at ttl found).owner_id ≡ owner)
row_after-claimable i key owner at ttl none h = (refl, refl)
row_after-claimable i key owner at ttl (some r) h = (ground (arith, h), ground (arith, h))

module _ (p : Platform) (e : EffectEngine) (c : CapabilityDefinition) (case_id : String)
    (inputs : Fields) where
  admit_commit-Authorized :
      (i : EffectIdentity) (w : World) (k : String) (t : ℕ) (w' : World)
      → KeysUnique claim_key w.db.claims
      → c.effect.effect_class ≡ commit_class
      → evaluate c inputs ≡ none
      → admit_commit p e c case_id inputs i w ≡ (ok (fenced k t), w')
      → Authorized p e c inputs i k t w w'
  unfolding admit_commit
  admit_commit-Authorized i w k t w' unique isc allowed h =
      let key = key_of w.env i in
      let (claim, v, taken, next) = >>=-eq-ok (claim_effect i e.owner_id none default_ttl) _ w h in
      let (u, x, noted, last) =
        >>=-eq-ok (record_rejection p e c case_id inputs key claim) _ v next in
      let (won, (o, asked, code), ek, et, kept, saved) =
        after_claim-fenced p e c case_id inputs key claim _ k t w' last in
      let tried = claim_effect-Attempt i e.owner_id none default_ttl w unique taken in
      let same : w'.db.claims ≡ v.db.claims =
        kept ∙ kept_record_rejection p e c case_id inputs key claim v u x noted in
      let free : is_claimable (get_effect_claim key w.db) ≡ true = sym tried.acquired ∙ won in
      let (status, owner) =
        row_after-claimable i key e.owner_id (time_of none w) default_ttl
          (get_effect_claim key w.db) free in
      let row =
        row_after i key e.owner_id (time_of none w) default_ttl (get_effect_claim key w.db) in
      record {
        policy = allowed;
        key = ek;
        free = rw (sym ek) at free;
        claim = (
          row,
          claimed_row key k v w' row _ ek same (tried.written key),
          status,
          owner,
          sym tried.token ∙ sym et,
        );
        absent =
            precheck_authorizes_only_absent c inputs p.lower p.fetch 0 o ((class_beq_iff _ _).1 isc)
              asked code;
        durable = saved;
        unique = rw (sym same) at tried.unique;
      }

  admit-fenced :
      (identity : Option EffectIdentity) (w : World) (k : String) (t : ℕ) (w' : World)
      → admit p e c case_id inputs identity w ≡ (ok (fenced k t), w')
      → (i : EffectIdentity) × (identity ≡ some i)
        × (evaluate c inputs ≡ none)
        × (admit_commit p e c case_id inputs i w ≡ (ok (fenced k t), w'))
  unfolding admit deny
  admit-fenced none w k t w' h = elim (Option-cases (evaluate c inputs)) [
    | inl y ↦ absurd (ground (arith, y, h))
    | inr (o, y) ↦
        absurd (
          ends p e c case_id inputs (record_event _ _ _ _ _) (λ _. o) w k t w' (rw (y, admit) at h))
  ]
  admit-fenced (some i) w k t w' h = elim (Option-cases (evaluate c inputs)) [
    | inl y ↦ (i, refl, y, rw (y, admit) at h)
    | inr (o, y) ↦
        absurd (
          ends p e c case_id inputs (record_event _ _ _ _ _) (λ _. o) w k t w' (rw (y, admit) at h))
  ]

  pub admit-Authorized :
      (identity : Option EffectIdentity) (w : World) (k : String) (t : ℕ) (w' : World)
      → KeysUnique claim_key w.db.claims
      → c.effect.effect_class ≡ commit_class
      → admit p e c case_id inputs identity w ≡ (ok (fenced k t), w')
      → (i : EffectIdentity) × (identity ≡ some i) × Authorized p e c inputs i k t w w'
  admit-Authorized identity w k t w' unique isc h =
      let (i, is, allowed, admitted) = admit-fenced identity w k t w' h in
      (i, is, admit_commit-Authorized i w k t w' unique isc allowed admitted)
