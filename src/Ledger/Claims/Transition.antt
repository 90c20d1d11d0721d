-- ===== src/Ledger/Claims/Transition.antt =====
-- Transitions of a claim: only the current fenced owner, from the statuses that it names.
use tandem_interface_ai.Prelude.{
  ℕ, String, ◌≡◌, refl, ap, Bool, true, false, Option, none, some, List, arith, inl, inr,
  Option-cases, nat_beq, if◌then◌else◌,
}
use tandem_interface_ai.Prelude.Eq.{◌==◌, string_eq, nat_eq}
use tandem_interface_ai.Prelude.Table.{
  update_where, rowcount, KeysUnique, key-select_one, select_one-update_where,
  update_where-KeysUnique, rowcount-KeysUnique,
}
use tandem_interface_ai.Domain.Effects.{EffectClaimStatus}
use tandem_interface_ai.Ledger.Models.{EffectClaimRecord}
use tandem_interface_ai.Ledger.Session.{World, Result, ok, ◌>>=◌, or_raise, pure}
use tandem_interface_ai.Ledger.Session.Bind.{>>=-eq-ok}
use tandem_interface_ai.Ledger.Events.Frame.{SameTables, log-SameTables}
use tandem_interface_ai.Ledger.Claims.{
  claim_key, get_effect_claim, is_fenced_owner, moved_to, record_transitioned,
  transition_effect_claim,
}
use tandem_interface_ai.Ledger.Claims.Forms.{time_of, after_now, with_claims}

-- Whether the caller is the current fenced owner of the claim, in one of the statuses.
abbrev pub may_move : String → ℕ → List EffectClaimStatus → Option EffectClaimRecord → Bool
may_move owner_id fencing_token from none = false
may_move owner_id fencing_token from (some r) = is_fenced_owner owner_id fencing_token from r

abbrev pub move_if :
    Bool → EffectClaimStatus → ℕ → Option EffectClaimRecord → Option EffectClaimRecord
move_if b status at none = none
move_if b status at (some r) = if b then some (moved_to status at r) else some r

record_transitioned-SameTables :
    (b : Bool) (key : String) (w : World) {w' : World}
    → record_transitioned b key w ≡ (ok tt, w')
    → SameTables w w'
unfolding record_transitioned
record_transitioned-SameTables false key w h = ground arith
record_transitioned-SameTables true key w h = elim (Option-cases (get_effect_claim key w.db)) [
  | inl nothing ↦ absurd (ground (arith, nothing))
  | inr (r, there) ↦ log-SameTables _ _ _ _ _ w (rw (there, or_raise) at h)
]

-- The outcome of a call of `transition_effect_claim` in `w` that left `w'`.
pub record Moved (key owner_id : String) (fencing_token : ℕ) (from : List EffectClaimStatus)
    (to : EffectClaimStatus) (at : ℕ) (w w' : World) (b : Bool) : Type 0 where
  pub allowed : b ≡ may_move owner_id fencing_token from (get_effect_claim key w.db)
  pub written :
      (j : String)
      → get_effect_claim j w'.db
        ≡ (if key == j then move_if b to at (get_effect_claim j w.db) else get_effect_claim j w.db)
  pub unique : KeysUnique claim_key w'.db.claims

module _ (key owner_id : String) (fencing_token : ℕ) (from : List EffectClaimStatus)
    (to : EffectClaimStatus) (now : Option ℕ) (w : World) {b : Bool} {w' : World}
    (unique : KeysUnique claim_key w.db.claims)
    (done : transition_effect_claim key owner_id fencing_token from to now w ≡ (ok b, w')) where
  abbrev owns : EffectClaimRecord → Bool
  owns = is_fenced_owner owner_id fencing_token from

  abbrev moves : EffectClaimRecord → EffectClaimRecord
  moves = moved_to to (time_of now w)

  -- The world before the audit event.
  abbrev updated : World
  updated = with_claims (update_where claim_key key owns moves w.db.claims) (after_now now w)

  abbrev count : ℕ
  count = rowcount claim_key key owns w.db.claims

  -- The call is an update, and then the audit event.
  form :
      transition_effect_claim key owner_id fencing_token from to now w
      ≡ (record_transitioned (nat_beq count 1) key >>= λ _. pure (nat_beq count 1)) updated
  unfolding transition_effect_claim
  form = ground arith

  ended : SameTables updated w' × (b ≡ nat_beq count 1)
  ended =
      let (u, v, called, last) =
        >>=-eq-ok (record_transitioned (nat_beq count 1) key) (λ _. pure (nat_beq count 1)) updated
          (rw form at done) in
      let same : v ≡ w' = ap (λ (x : Result Bool × World). x.1) last in
      (rw same at (record_transitioned-SameTables _ key updated called), ground (arith, last))

  -- Where claims have unique keys: a call of `transition_effect_claim` that returns reports whether the caller is the current
  -- fenced owner in one of the statuses given. Only then does it write the new status, and only to
  -- this claim.
  pub transition_effect_claim-Moved :
      Moved key owner_id fencing_token from to (time_of now w) w w' b
  transition_effect_claim-Moved = record {
    allowed = ground (arith, ended.1, rowcount-KeysUnique claim_key key owns w.db.claims unique);
    written = λ j. elim (Option-cases (get_effect_claim j w.db)) [
      | inl nothing ↦ ground (
        arith,
        nothing,
        ended.0.claims,
        select_one-update_where claim_key moves (λ x. refl) j key owns w.db.claims,
      )
      | inr (x, there) ↦ ground (
        arith,
        there,
        ended.0.claims,
        ended.1,
        rowcount-KeysUnique claim_key key owns w.db.claims unique,
        key-select_one claim_key j w.db.claims there,
        string_eq.beq_iff x.idempotency_key key,
        string_eq.beq_iff key j,
        select_one-update_where claim_key moves (λ x. refl) j key owns w.db.claims,
      )
    ];
    unique =
        rw (ended.0.claims)
          (update_where-KeysUnique claim_key moves (λ x. refl) key owns w.db.claims unique);
  }
