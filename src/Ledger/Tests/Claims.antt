-- ===== src/Ledger/Tests/Claims.antt =====
-- Claims of one effect by two workers.
use tandem_interface_ai.Prelude.{ℕ, ◌<◌, String, ◌≡◌, refl, arith, true, false, some, [], ◌∷◌}
use tandem_interface_ai.Prelude.Table.{select_one, insert_or_ignore, update_where, rowcount}
use tandem_interface_ai.Domain.Effects.{claimed, applying, applied, failed_retryable}
use tandem_interface_ai.Domain.Outcomes.{already_applied}
use tandem_interface_ai.Domain.Identity.{idempotency_key, canonical_payload}
use tandem_interface_ai.Ledger.Session.{World, ok}
use tandem_interface_ai.Ledger.Events.{record_event}
use tandem_interface_ai.Ledger.Claims.{
  EffectClaim, held, rejected, claim_effect, try_reclaim, finish_claim, record_claimed,
  existing_claim_outcome, transition_effect_claim, record_transitioned, get_effect_claim, key_of,
}
use tandem_interface_ai.Ledger.Claims.Exclusive.{Attempt, claim_effect-Attempt}
use tandem_interface_ai.Ledger.Claims.Transition.{Moved, transition_effect_claim-Moved}
use tandem_interface_ai.Ledger.Claims.History.{
  Reach, here, next, transition, UniqueClaims, is_settled, token_of, settled_never_acquired,
  acquisitions_are_fenced, stale_owner_fenced,
}
use tandem_interface_ai.Ledger.Tests.{start, effect, with_claim}

abbrev won : ℕ → EffectClaim
won token = record { acquired = true; status = held claimed; fencing_token = token; owner_id = "A" }

abbrev first : World
first = (claim_effect effect "A" (some 100) 50 start).1

claim_runs : claim_effect effect "A" (some 100) 50 start ≡ (ok (won 1), first)
unfolding claim_effect try_reclaim finish_claim record_claimed record_event select_one
    insert_or_ignore idempotency_key canonical_payload rowcount
claim_runs = refl

claim_effect-Attempt_example : Attempt effect "A" 100 50 start first (won 1)
claim_effect-Attempt_example = claim_effect-Attempt effect "A" (some 100) 50 start tt claim_runs

abbrev key : String
key = "CHK-8830142-01"

abbrev moved : World
moved =
    (transition_effect_claim key "A" 1 (claimed ∷ []) applying (some 120) (with_claim claimed)).1

transition_runs :
    transition_effect_claim key "A" 1 (claimed ∷ []) applying (some 120) (with_claim claimed)
    ≡ (ok true, moved)
unfolding transition_effect_claim record_transitioned record_event select_one insert_or_ignore
    update_where rowcount
transition_runs = refl

unique_claimed : UniqueClaims (with_claim claimed)
unfolding select_one
unique_claimed = (refl, tt)

transition_effect_claim-Moved_example :
    Moved key "A" 1 (claimed ∷ []) applying 120 (with_claim claimed) moved true
transition_effect_claim-Moved_example =
    transition_effect_claim-Moved key "A" 1 (claimed ∷ []) applying (some 120) (with_claim claimed)
      unique_claimed transition_runs

-- "B" meets the settled claim of "A".
abbrev lost : EffectClaim
lost = record {
  acquired = false;
  status = rejected already_applied;
  fencing_token = 1;
  owner_id = "A";
}

abbrev after_lost : World
after_lost = (claim_effect effect "B" (some 200) 50 (with_claim applied)).1

loss_runs : claim_effect effect "B" (some 200) 50 (with_claim applied) ≡ (ok lost, after_lost)
unfolding claim_effect try_reclaim finish_claim record_claimed record_event select_one
    insert_or_ignore update_where idempotency_key canonical_payload rowcount existing_claim_outcome
loss_runs = refl

unique_applied : UniqueClaims (with_claim applied)
unfolding select_one
unique_applied = (refl, tt)

settled_applied : is_settled (get_effect_claim key (with_claim applied).db) ≡ true
unfolding select_one
settled_applied = refl

settled_key :
    is_settled (get_effect_claim (key_of (with_claim applied).env effect) (with_claim applied).db)
    ≡ true
unfolding select_one idempotency_key canonical_payload
settled_key = refl

stay_applied : Reach (with_claim applied) (with_claim applied)
stay_applied = here

settled_never_acquired_example : lost.acquired ≡ false
settled_never_acquired_example =
    settled_never_acquired effect "B" (some 200) 50 unique_applied settled_key stay_applied
      loss_runs

-- "A" claims the effect and fails retryably; "B" claims it again.
abbrev failed_once : World
failed_once = (transition_effect_claim key "A" 1 (claimed ∷ []) failed_retryable (some 120) first).1

failure_runs :
    transition_effect_claim key "A" 1 (claimed ∷ []) failed_retryable (some 120) first
    ≡ (ok true, failed_once)
unfolding transition_effect_claim record_transitioned record_event select_one insert_or_ignore
    update_where rowcount claim_effect try_reclaim finish_claim record_claimed idempotency_key
    canonical_payload
failure_runs = refl

abbrev won_again : EffectClaim
won_again = record { acquired = true; status = held claimed; fencing_token = 2; owner_id = "B" }

abbrev second : World
second = (claim_effect effect "B" (some 300) 50 failed_once).1

second_runs : claim_effect effect "B" (some 300) 50 failed_once ≡ (ok won_again, second)
unfolding claim_effect try_reclaim finish_claim record_claimed record_event select_one
    insert_or_ignore update_where idempotency_key canonical_payload rowcount existing_claim_outcome
    transition_effect_claim record_transitioned
second_runs = refl

same_key : key_of start.env effect ≡ key_of failed_once.env effect
unfolding claim_effect try_reclaim finish_claim record_claimed record_event select_one
    insert_or_ignore update_where idempotency_key canonical_payload rowcount existing_claim_outcome
    transition_effect_claim record_transitioned
same_key = refl

acquisitions_are_fenced_example : (won 1).fencing_token < won_again.fencing_token
acquisitions_are_fenced_example =
    acquisitions_are_fenced effect effect "A" "B" (some 100) (some 300) 50 50 start first
      failed_once second tt claim_runs
      (next here
        (transition key "A" 1 (claimed ∷ []) failed_retryable (some 120) true refl failure_runs))
      second_runs same_key refl

-- "A" comes back with its old token.
abbrev after_stale : World
after_stale = (transition_effect_claim key "A" 1 (applying ∷ []) applied (some 400) second).1

stale_runs :
    transition_effect_claim key "A" 1 (applying ∷ []) applied (some 400) second
    ≡ (ok false, after_stale)
unfolding claim_effect try_reclaim finish_claim record_claimed record_event select_one
    insert_or_ignore update_where idempotency_key canonical_payload rowcount existing_claim_outcome
    transition_effect_claim record_transitioned
stale_runs = refl

unique_second : UniqueClaims second
unfolding claim_effect try_reclaim finish_claim record_claimed record_event select_one
    insert_or_ignore update_where idempotency_key canonical_payload rowcount existing_claim_outcome
    transition_effect_claim record_transitioned
unique_second = (refl, tt)

old_token : 1 < token_of (get_effect_claim key second.db)
unfolding claim_effect try_reclaim finish_claim record_claimed record_event select_one
    insert_or_ignore update_where idempotency_key canonical_payload rowcount existing_claim_outcome
    transition_effect_claim record_transitioned
old_token = omega arith

stay_second : Reach second second
stay_second = here

stale_owner_fenced_example :
    (false ≡ false) × (get_effect_claim key after_stale.db ≡ get_effect_claim key second.db)
stale_owner_fenced_example =
    stale_owner_fenced key "A" 1 (applying ∷ []) applied (some 400) unique_second old_token
      stay_second stale_runs key
