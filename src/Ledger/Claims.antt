-- ===== src/Ledger/Claims.antt =====
-- Effect claims: the atomic, fenced reservation of one external effect (claim_effect,
-- transition_effect_claim, validate_effect_token and the queries of tandem/ledger/repository.py).
pub mod Forms
pub mod Exclusive
pub mod Transition
pub mod History
pub mod Kept
use tandem_interface_ai.Prelude.{
  ℕ, ◌+◌, String, Bool, true, false, not, ◌&&◌, ◌||◌, Option, none, some, List, is_some, keep_if,
  any_of, if◌then◌else◌,
}
use tandem_interface_ai.Prelude.Eq.{◌==◌, nat_eq, string_eq}
use tandem_interface_ai.Prelude.Table.{select_one, insert_or_ignore, update_where, rowcount}
use tandem_interface_ai.Domain.Values.{text, int, amount, instant, Dict, end, entry}
use tandem_interface_ai.Domain.Errors.{runtime_error}
use tandem_interface_ai.Domain.Effects.{
  EffectClaimStatus, claimed, applying, applied, failed_retryable, claim_status_eq,
  claim_status_value,
}
use tandem_interface_ai.Domain.Outcomes.{OutcomeCode, already_applied, already_claimed}
use tandem_interface_ai.Domain.Identity.{EffectIdentity, idempotency_key}
use tandem_interface_ai.Ledger.Models.{EffectClaimRecord}
use tandem_interface_ai.Ledger.Session.{
  Db, Env, M, ◌>>=◌, ◌>>◌, pure, gets, get_env, modify_db, or_now, or_raise,
}
use tandem_interface_ai.Ledger.Events.{record_event}
use tandem_interface_ai.Ledger.Cases.{find_case}

-- The status text of an `EffectClaim`: the claim's own, or the outcome of an existing claim.
pub data ClaimAnswer : Type 0 where
  held : EffectClaimStatus → ClaimAnswer
  rejected : OutcomeCode → ClaimAnswer

pub record EffectClaim : Type 0 where
  pub acquired : Bool
  pub status : ClaimAnswer
  pub fencing_token : ℕ
  pub owner_id : String

abbrev pub claim_key : EffectClaimRecord → String
claim_key c = c.idempotency_key

abbrev pub get_effect_claim : String → Db → Option EffectClaimRecord
get_effect_claim key d = select_one claim_key key d.claims

abbrev pub key_of : Env → EffectIdentity → String
key_of env i = idempotency_key env.dumps env.sha256 i

-- The row that a first claim inserts.
abbrev pub new_claim : String → EffectIdentity → String → ℕ → ℕ → EffectClaimRecord
new_claim key i owner_id at ttl = record {
  idempotency_key = key;
  institution_id = i.institution_id;
  procedure_id = i.procedure_id;
  case_id = i.case_id;
  capability_id = i.capability_id;
  member_id = i.member_id;
  account_id = i.account_id;
  amount = i.amount;
  currency = i.currency;
  business_reference = i.business_reference;
  status = claimed;
  owner_id = owner_id;
  fencing_token = 1;
  claimed_at = at;
  heartbeat_at = at;
  expires_at = at + ttl;
  updated_at = at;
}

-- What a claim of a retryable effect writes over the row, from the token that it read.
abbrev pub reclaim_row : ℕ → String → ℕ → ℕ → EffectClaimRecord → EffectClaimRecord
reclaim_row token owner_id at ttl r = record r {
  status = claimed;
  owner_id = owner_id;
  fencing_token = token + 1;
  claimed_at = at;
  heartbeat_at = at;
  expires_at = at + ttl;
  updated_at = at;
}

unfoldable pub existing_claim_outcome : EffectClaimStatus → OutcomeCode
existing_claim_outcome status = if status == applied then already_applied else already_claimed

-- `UPDATE ... WHERE status = FAILED_RETRYABLE AND fencing_token = token`, tried only when the
-- insert lost and the row read is retryable. The value is whether the row was taken.
unfoldable pub try_reclaim : Bool → EffectClaimRecord → String → String → ℕ → ℕ → M Bool
try_reclaim inserted seen key owner_id at ttl =
    if not inserted && seen.status == failed_retryable
    then (do
      let retryable = λ (r : EffectClaimRecord).
          r.status == failed_retryable && r.fencing_token == seen.fencing_token
      count ← gets (λ w. rowcount claim_key key retryable w.db.claims)
      modify_db (λ d. record d {
        claims =
            update_where claim_key key retryable (reclaim_row seen.fencing_token owner_id at ttl)
              d.claims;
      })
      pure (count == 1))
    else pure inserted

-- The audit event of an acquired claim, for a case that is in the ledger.
unfoldable pub record_claimed : Bool → EffectIdentity → EffectClaimRecord → M (Unit {0})
record_claimed due i r =
    if due
    then (do
      record_event i.case_id "EFFECT_CLAIMED" i.capability_id "AUTOMATION" (
          some (
            entry "idempotency_key" (text r.idempotency_key) (
              entry "owner_id" (text r.owner_id) (
                entry "fencing_token" (int r.fencing_token) (
                  entry "institution_id" (text r.institution_id) (
                    entry "procedure_id" (text r.procedure_id) (
                      entry "case_id" (text r.case_id) (
                        entry "capability_id" (text r.capability_id) (
                          entry "member_id" (text r.member_id) (
                            entry "account_id" (text r.account_id) (
                              entry "amount" (amount r.amount) (
                                entry "currency" (text r.currency) (
                                  entry "business_reference" (text r.business_reference) (
                                    entry "status" (text (claim_status_value r.status)) (
                                      entry "claimed_at" (instant r.claimed_at) (
                                        entry "heartbeat_at" (instant r.heartbeat_at) (
                                          entry "expires_at" (instant r.expires_at) (
                                            entry "updated_at" (instant r.updated_at)
                                              end))))))))))))))))))
      pure tt)
    else pure tt

-- The end of `claim_effect`: the audit event and the value.
unfoldable pub finish_claim : Bool → EffectIdentity → EffectClaimRecord → M EffectClaim
finish_claim acquired i row = do
  known ← gets (λ w. is_some (find_case i.case_id w.db))
  record_claimed (acquired && known) i row
  pure (record {
    acquired = acquired;
    status = if acquired then held row.status else rejected (existing_claim_outcome row.status);
    fencing_token = row.fencing_token;
    owner_id = row.owner_id;
  })

unfoldable pub claim_effect : EffectIdentity → String → Option ℕ → ℕ → M EffectClaim
claim_effect i owner_id now ttl = do
  at ← or_now now
  env ← get_env
  let key = key_of env i
  before ← gets (λ w. get_effect_claim key w.db)
  modify_db (λ d. record d {
    claims = insert_or_ignore claim_key (new_claim key i owner_id at ttl) d.claims;
  })
  found ← gets (λ w. get_effect_claim key w.db)
  seen ← or_raise found runtime_error
  acquired ← try_reclaim (not (is_some before)) seen key owner_id at ttl
  refreshed ← gets (λ w. get_effect_claim key w.db)
  row ← or_raise refreshed runtime_error
  finish_claim acquired i row

unfoldable pub get_effect_claims_for_case : String → Db → List EffectClaimRecord
get_effect_claims_for_case case_id d = keep_if (λ c. c.case_id == case_id) d.claims

-- The rows that a transition may touch: the current fenced owner's, in one of the given statuses.
abbrev pub is_fenced_owner : String → ℕ → List EffectClaimStatus → EffectClaimRecord → Bool
is_fenced_owner owner_id fencing_token from_statuses r =
    r.owner_id == owner_id
    && r.fencing_token == fencing_token
    && any_of (λ s. s == r.status) from_statuses

-- What a transition writes.
abbrev pub moved_to : EffectClaimStatus → ℕ → EffectClaimRecord → EffectClaimRecord
moved_to status at r = record r { status = status; updated_at = at; heartbeat_at = at }

unfoldable pub record_transitioned : Bool → String → M (Unit {0})
record_transitioned transitioned key =
    if transitioned
    then (do
      found ← gets (λ w. get_effect_claim key w.db)
      r ← or_raise found runtime_error
      record_event r.case_id "EFFECT_CLAIM_TRANSITIONED" r.capability_id "AUTOMATION" (
          some (
            entry "idempotency_key" (text key) (
              entry "status" (text (claim_status_value r.status)) (
                entry "owner_id" (text r.owner_id) (
                  entry "fencing_token" (int r.fencing_token) (
                    entry "heartbeat_at" (instant r.heartbeat_at)
                      (entry "updated_at" (instant r.updated_at) end)))))))
      pure tt)
    else pure tt

unfoldable pub transition_effect_claim :
    String → String → ℕ → List EffectClaimStatus → EffectClaimStatus → Option ℕ → M Bool
transition_effect_claim key owner_id fencing_token from_statuses to_status now = do
  at ← or_now now
  count ← gets (λ w.
      rowcount claim_key key (is_fenced_owner owner_id fencing_token from_statuses) w.db.claims)
  modify_db (λ d. record d {
    claims =
        update_where claim_key key (is_fenced_owner owner_id fencing_token from_statuses)
          (moved_to to_status at) d.claims;
  })
  record_transitioned (count == 1) key
  pure (count == 1)

unfoldable pub validate_effect_token : String → String → ℕ → Db → Bool
validate_effect_token key owner_id fencing_token d = elim (get_effect_claim key d) [
  | none ↦ false
  | some r ↦
      r.owner_id == owner_id
      && r.fencing_token == fencing_token
      && (r.status == claimed || r.status == applying)
]
