-- ===== src/Ledger/Claims/Forms.antt =====
-- What one call of `claim_effect` does, in closed form: the three cases of the row that it finds.
use tandem_interface_ai.Prelude.{
  ℕ, suc, String, ◌≡◌, refl, Bool, true, false, Option, none, some, List, arith, is_some, ap, ◌&&◌,
}
use tandem_interface_ai.Prelude.Eq.{◌==◌, nat_eq, string_eq, ==_refl}
use tandem_interface_ai.Prelude.Table.{
  insert_or_ignore, update_where, KeysUnique, select_one-insert_or_ignore, select_one-update_where,
  rowcount-KeysUnique, key-select_one,
}
use tandem_interface_ai.Domain.Effects.{failed_retryable, claim_status_eq}
use tandem_interface_ai.Domain.Identity.{EffectIdentity}
use tandem_interface_ai.Ledger.Models.{EffectClaimRecord}
use tandem_interface_ai.Ledger.Session.{World, ok, Result}
use tandem_interface_ai.Ledger.Session.Bind.{>>=-eq-ok}
use tandem_interface_ai.Ledger.Cases.{find_case}
use tandem_interface_ai.Ledger.Events.Frame.{SameTables, log-SameTables}
use tandem_interface_ai.Ledger.Claims.{
  EffectClaim, claim_key, get_effect_claim, key_of, new_claim, reclaim_row, try_reclaim,
  record_claimed, finish_claim, claim_effect,
}

record_claimed-SameTables :
    (due : Bool) (i : EffectIdentity) (row : EffectClaimRecord) (w : World) {w' : World}
    → record_claimed due i row w ≡ (ok tt, w')
    → SameTables w w'
unfolding record_claimed
record_claimed-SameTables true i row w h = log-SameTables _ _ _ _ _ w h
record_claimed-SameTables false i row w h = ground arith

-- The end of a claim leaves the tables alone.
pub finish_claim-SameTables :
    (acquired : Bool) (i : EffectIdentity) (row : EffectClaimRecord) (w : World) {c : EffectClaim}
    {w' : World}
    → finish_claim acquired i row w ≡ (ok c, w')
    → SameTables w w' × (c.acquired ≡ acquired) × (c.fencing_token ≡ row.fencing_token)
unfolding finish_claim
finish_claim-SameTables acquired i row w {c} {w'} h =
    let (u, v, called, ended) =
      >>=-eq-ok (record_claimed (acquired && is_some (find_case i.case_id w.db)) i row) _ w h in
    let same : v ≡ w' = ap (λ (x : Result EffectClaim × World). x.1) ended in
    (
      rw same at (record_claimed-SameTables _ i row w called),
      ground (arith, ended),
      ground (arith, ended),
    )

abbrev pub time_of : Option ℕ → World → ℕ
time_of none w = w.env.clock w.readings
time_of (some t) w = t

abbrev pub after_now : Option ℕ → World → World
after_now none w = record w { readings = suc w.readings }
after_now (some t) w = w

-- The condition of the second UPDATE.
abbrev pub is_retryable : EffectClaimRecord → EffectClaimRecord → Bool
is_retryable seen r = r.status == failed_retryable && r.fencing_token == seen.fencing_token

abbrev pub with_claims : List EffectClaimRecord → World → World
with_claims t w = record w { db = record w.db { claims = t } }

module _ (i : EffectIdentity) (owner_id : String) (now : Option ℕ) (ttl : ℕ) (w : World) where
  abbrev key : String
  key = key_of w.env i

  abbrev at : ℕ
  at = time_of now w

  abbrev fresh : EffectClaimRecord
  fresh = new_claim key i owner_id at ttl

  -- The first claim of an effect inserts its row.
  pub claim_effect_new :
      get_effect_claim key w.db ≡ none
      → claim_effect i owner_id now ttl w
        ≡ finish_claim true i fresh
            (with_claims (insert_or_ignore claim_key fresh w.db.claims) (after_now now w))
  unfolding claim_effect try_reclaim
  claim_effect_new h =
      ground (arith, h, ==_refl key, select_one-insert_or_ignore claim_key key fresh w.db.claims)

  -- A retryable effect is claimed again, with the next fencing token.
  pub claim_effect_again :
      (r : EffectClaimRecord)
      → KeysUnique claim_key w.db.claims
      → get_effect_claim key w.db ≡ some r
      → (r.status == failed_retryable) ≡ true
      → claim_effect i owner_id now ttl w
        ≡ finish_claim true i (reclaim_row r.fencing_token owner_id at ttl r) (
            with_claims
              (update_where claim_key key
                (is_retryable r)
                (reclaim_row r.fencing_token owner_id at ttl)
                w.db.claims)
              (after_now now w))
  unfolding claim_effect try_reclaim insert_or_ignore
  claim_effect_again r unique h s = ground (
    arith,
    h,
    key-select_one claim_key key w.db.claims h,
    ==_refl key,
    rowcount-KeysUnique claim_key key (is_retryable r) w.db.claims unique,
    select_one-update_where claim_key (reclaim_row r.fencing_token owner_id at ttl) (λ x. refl) key
        key (is_retryable r) w.db.claims,
  )

  -- Any other claim stands in the way.
  pub claim_effect_busy :
      (r : EffectClaimRecord)
      → get_effect_claim key w.db ≡ some r
      → (r.status == failed_retryable) ≡ false
      → claim_effect i owner_id now ttl w ≡ finish_claim false i r (after_now now w)
  unfolding claim_effect try_reclaim insert_or_ignore
  claim_effect_busy r h s = ground (arith, h)
