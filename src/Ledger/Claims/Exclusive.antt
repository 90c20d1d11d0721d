-- ===== src/Ledger/Claims/Exclusive.antt =====
-- Claims are exclusive: who acquires an effect, and what the claim writes.
use tandem_interface_ai.Prelude.{
  ℕ, String, ◌≡◌, refl, Bool, true, false, Option, none, some, arith, inl, inr, Option-cases,
  Bool-cases, if◌then◌else◌,
}
use tandem_interface_ai.Prelude.Eq.{◌==◌, string_eq}
use tandem_interface_ai.Prelude.Table.{
  insert_or_ignore, update_where, KeysUnique, select_one-insert_or_ignore, key-select_one,
  select_one-update_where, insert_or_ignore-KeysUnique, update_where-KeysUnique,
}
use tandem_interface_ai.Domain.Effects.{failed_retryable, claim_status_eq}
use tandem_interface_ai.Domain.Identity.{EffectIdentity}
use tandem_interface_ai.Ledger.Models.{EffectClaimRecord}
use tandem_interface_ai.Ledger.Session.{World, ok}
use tandem_interface_ai.Ledger.Claims.{
  EffectClaim, claim_key, get_effect_claim, key_of, new_claim, reclaim_row, claim_effect,
}
use tandem_interface_ai.Ledger.Claims.Forms.{
  time_of, after_now, with_claims, is_retryable, finish_claim-SameTables, claim_effect_new,
  claim_effect_again, claim_effect_busy,
}

-- An effect can be claimed when nobody has claimed it, or its last claim is retryable.
abbrev pub is_claimable : Option EffectClaimRecord → Bool
is_claimable none = true
is_claimable (some r) = r.status == failed_retryable

-- The row after an attempt, from the row before.
abbrev pub row_after :
    EffectIdentity → String → String → ℕ → ℕ → Option EffectClaimRecord → EffectClaimRecord
row_after i key owner_id at ttl none = new_claim key i owner_id at ttl
row_after i key owner_id at ttl (some r) =
    if r.status == failed_retryable then reclaim_row r.fencing_token owner_id at ttl r else r

-- The outcome of an attempt to claim the effect `i` in `w` that left `w'`.
pub record Attempt (i : EffectIdentity) (owner_id : String) (at ttl : ℕ) (w w' : World)
    (c : EffectClaim) : Type 0 where
  pub acquired : c.acquired ≡ is_claimable (get_effect_claim (key_of w.env i) w.db)
  pub written :
      (j : String)
      → get_effect_claim j w'.db ≡ (
          if key_of w.env i == j
          then some (
              row_after i (key_of w.env i) owner_id at ttl (get_effect_claim (key_of w.env i) w.db))
          else get_effect_claim j w.db)
  pub token :
      c.fencing_token
      ≡ (row_after i
          (key_of w.env i)
          owner_id
          at
          ttl
          (get_effect_claim (key_of w.env i) w.db)).fencing_token
  pub unique : KeysUnique claim_key w'.db.claims

module _ (i : EffectIdentity) (owner_id : String) (now : Option ℕ) (ttl : ℕ) (w : World)
    {c : EffectClaim} {w' : World} (unique : KeysUnique claim_key w.db.claims)
    (done : claim_effect i owner_id now ttl w ≡ (ok c, w')) where
  abbrev key : String
  key = key_of w.env i

  abbrev fresh : EffectClaimRecord
  fresh = new_claim key i owner_id (time_of now w) ttl

  Attempt-new : get_effect_claim key w.db ≡ none → Attempt i owner_id (time_of now w) ttl w w' c
  Attempt-new h =
      let (same, took, token) =
        finish_claim-SameTables true i fresh
          (with_claims (insert_or_ignore claim_key fresh w.db.claims) (after_now now w))
          (rw (claim_effect_new i owner_id now ttl w h) at done) in
      record {
        acquired = ground (arith, h, took);
        written = λ j. ground (
          arith,
          h,
          same.claims,
          string_eq.beq_iff key j,
          select_one-insert_or_ignore claim_key j fresh w.db.claims,
        );
        token = ground (arith, h, token);
        unique = rw same.claims (insert_or_ignore-KeysUnique claim_key fresh w.db.claims unique);
      }

  Attempt-again :
      (r : EffectClaimRecord)
      → get_effect_claim key w.db ≡ some r
      → (r.status == failed_retryable) ≡ true
      → Attempt i owner_id (time_of now w) ttl w w' c
  Attempt-again r h s =
      let taken : EffectClaimRecord → EffectClaimRecord =
        reclaim_row r.fencing_token owner_id (time_of now w) ttl in
      let (same, took, token) =
        finish_claim-SameTables true i (taken r)
          (with_claims (update_where claim_key key (is_retryable r) taken w.db.claims)
            (after_now now w))
          (rw (claim_effect_again i owner_id now ttl w r unique h s) at done) in
      record {
        acquired = ground (arith, h, s, took);
        written = λ j. elim (Option-cases (get_effect_claim j w.db)) [
          | inl nothing ↦ ground (
            arith,
            h,
            nothing,
            same.claims,
            string_eq.beq_iff key j,
            select_one-update_where claim_key taken (λ x. refl) j key (is_retryable r) w.db.claims,
          )
          | inr (x, there) ↦ ground (
            arith,
            h,
            s,
            there,
            same.claims,
            key-select_one claim_key j w.db.claims there,
            string_eq.beq_iff x.idempotency_key key,
            string_eq.beq_iff key j,
            select_one-update_where claim_key taken (λ x. refl) j key (is_retryable r) w.db.claims,
          )
        ];
        token = ground (arith, h, s, token);
        unique = rw same.claims (
            update_where-KeysUnique claim_key taken (λ x. refl) key (is_retryable r) w.db.claims
              unique);
      }

  Attempt-busy :
      (r : EffectClaimRecord)
      → get_effect_claim key w.db ≡ some r
      → (r.status == failed_retryable) ≡ false
      → Attempt i owner_id (time_of now w) ttl w w' c
  Attempt-busy r h s =
      let (same, took, token) =
        finish_claim-SameTables false i r (after_now now w)
          (rw (claim_effect_busy i owner_id now ttl w r h s) at done) in
      let kept : w'.db.claims ≡ w.db.claims = ground (arith, same.claims) in
      record {
        acquired = ground (arith, h, s, took);
        written = λ j. ground (arith, h, s, kept, string_eq.beq_iff key j);
        token = ground (arith, h, s, token);
        unique = rw kept unique;
      }

  -- Where claims have unique keys: an attempt to claim an effect that returns acquires it exactly when it is claimable; it then
  -- writes the claimant's row, with fencing token 1 or the next token after a retryable failure,
  -- and else leaves the row alone. Claims of other effects are untouched, and keys stay unique.
  pub claim_effect-Attempt : Attempt i owner_id (time_of now w) ttl w w' c
  claim_effect-Attempt = elim (Option-cases (get_effect_claim key w.db)) [
    | inl h ↦ Attempt-new h
    | inr (r, h) ↦ elim (Bool-cases (r.status == failed_retryable)) [
      | inl s ↦ Attempt-again r h s
      | inr s ↦ Attempt-busy r h s
    ]
  ]
