-- ===== src/Domain/Effects.antt =====
-- Effect typing and the safety contract of a COMMIT capability (tandem/domain/effects.py).
pub mod Contract
use tandem_interface_ai.Prelude.{
  ℕ, String, ◌≡◌, refl, ◌↔◌, Bool, true, false, ◌&&◌, not, Option, none, some, List, [], ◌∷◌, ◌++◌,
  nat_beq, get_elem?, is_some, if◌then◌else◌,
}
use tandem_interface_ai.Prelude.Eq.{Eq, ◌==◌, by_index}
use tandem_interface_ai.Prelude.Int.{ℤ}
use tandem_interface_ai.Domain.Values.{Dict}

pub data EffectClass : Type 0 where
  read stage commit : EffectClass

pub data EffectClaimStatus : Type 0 where
  claimed applying applied uncertain failed_retryable failed_permanent : EffectClaimStatus

-- A number for each constructor, by which constructors are compared.
abbrev class_index : EffectClass → ℕ
class_index read = 0
class_index stage = 1
class_index commit = 2

class_of : ℕ → Option EffectClass
class_of n = get_elem? (read ∷ stage ∷ commit ∷ []) n

class_of-index : (a : EffectClass) → class_of (class_index a) ≡ some a
unfolding class_of
class_of-index read = refl
class_of-index stage = refl
class_of-index commit = refl

pub class_beq_iff : (a b : EffectClass) → (nat_beq (class_index a) (class_index b) ≡ true) ↔ (a ≡ b)
class_beq_iff = by_index class_index class_of class_of-index

instance abbrev pub class_eq : Eq EffectClass
class_eq = record { beq = λ a b. nat_beq (class_index a) (class_index b); beq_iff = class_beq_iff }

-- A number for each constructor, by which constructors are compared.
abbrev claim_status_index : EffectClaimStatus → ℕ
claim_status_index claimed = 0
claim_status_index applying = 1
claim_status_index applied = 2
claim_status_index uncertain = 3
claim_status_index failed_retryable = 4
claim_status_index failed_permanent = 5

claim_status_of : ℕ → Option EffectClaimStatus
claim_status_of n =
    get_elem? (claimed ∷ applying ∷ applied ∷ uncertain ∷ failed_retryable ∷ failed_permanent ∷ [])
      n

claim_status_of-index : (a : EffectClaimStatus) → claim_status_of (claim_status_index a) ≡ some a
unfolding claim_status_of
claim_status_of-index claimed = refl
claim_status_of-index applying = refl
claim_status_of-index applied = refl
claim_status_of-index uncertain = refl
claim_status_of-index failed_retryable = refl
claim_status_of-index failed_permanent = refl

pub claim_status_beq_iff :
    (a b : EffectClaimStatus)
    → (nat_beq (claim_status_index a) (claim_status_index b) ≡ true) ↔ (a ≡ b)
claim_status_beq_iff = by_index claim_status_index claim_status_of claim_status_of-index

instance abbrev pub claim_status_eq : Eq EffectClaimStatus
claim_status_eq = record {
  beq = λ a b. nat_beq (claim_status_index a) (claim_status_index b);
  beq_iff = claim_status_beq_iff;
}

-- The text that is stored for each.
unfoldable pub class_value : EffectClass → String
class_value read = "READ"
class_value stage = "STAGE"
class_value commit = "COMMIT"

-- The text that is stored for each.
unfoldable pub claim_status_value : EffectClaimStatus → String
claim_status_value claimed = "CLAIMED"
claim_status_value applying = "APPLYING"
claim_status_value applied = "APPLIED"
claim_status_value uncertain = "UNCERTAIN"
claim_status_value failed_retryable = "FAILED_RETRYABLE"
claim_status_value failed_permanent = "FAILED_PERMANENT"

pub record PrecheckSpec : Type 0 where
  pub capability : String
  pub params : Dict
  pub if_found : String

pub record PostcheckSpec : Type 0 where
  pub capability : String
  pub params : Dict
  pub expected_status : String

-- `max_inquiry_attempts` is an integer, which may be negative.
pub record ReconciliationSpec : Type 0 where
  pub strategy : String
  pub max_inquiry_attempts : ℤ

-- Templates of the immutable business identity of a COMMIT.
pub record EffectIdentitySpec : Type 0 where
  pub institution_id : String
  pub procedure_id : String
  pub case_id : String
  pub capability_id : String
  pub member_id : String
  pub account_id : String
  pub amount : String
  pub currency : String
  pub business_reference : String

pub record BoundsSpec : Type 0 where
  pub max_amount : ℤ
  pub currency : String

pub record EffectSpec : Type 0 where
  pub effect_class : EffectClass
  pub identity : Option EffectIdentitySpec
  pub idempotency_key : Option String
  pub precheck : Option PrecheckSpec
  pub postcheck : Option PostcheckSpec
  pub reconciliation : Option ReconciliationSpec
  pub compensation : Option String
  pub bounds : Option BoundsSpec

-- A text that is `None` or empty counts as missing.
abbrev pub is_text : Option String → Bool
is_text none = false
is_text (some String.[]) = false
is_text (some s) = true

-- `missing.append(name)` unless the metadata is there.
abbrev pub note_missing : Bool → String → List String → List String
note_missing there name rest = if there then rest else name ∷ rest

unfoldable pub missing_metadata : EffectSpec → List String
missing_metadata e = note_missing (is_text e.idempotency_key) "idempotency_key" (
    note_missing (is_some e.identity) "identity" (
      note_missing (is_some e.precheck) "precheck" (
        note_missing (is_some e.postcheck) "postcheck" (
          note_missing (is_some e.reconciliation) "reconciliation"
            (note_missing (is_some e.bounds) "bounds" [])))))

-- `none` stands for the `ValueError`.
unfoldable pub validate_commit_safety_contract : EffectSpec → Option EffectSpec
unfolding missing_metadata
validate_commit_safety_contract e =
    if e.effect_class == commit
    then elim (missing_metadata e) [ [] ↦ some e | _ ∷ _ ↦ none ]
    else some e
