-- ===== src/Ledger/Leases/Forms.antt =====
-- What the lease operations do, by the cases of the row that they find.
use tandem_interface_ai.Prelude.{
  ℕ, ◌+◌, String, ◌≡◌, Bool, true, false, not, Option, none, some, List, arith, ◌&&◌, ◌||◌,
}
use tandem_interface_ai.Prelude.Eq.{◌==◌, nat_eq, string_eq}
use tandem_interface_ai.Prelude.Table.{insert_or_ignore}
use tandem_interface_ai.Domain.Errors.{value_error, runtime_error}
use tandem_interface_ai.Ledger.Models.{LeaseRecord}
use tandem_interface_ai.Ledger.Session.{World, ok, raised, gets, or_raise, ◌>>=◌}
use tandem_interface_ai.Ledger.Session.Bind.{>>=-eq-ok}
use tandem_interface_ai.Ledger.Events.Frame.{SameTables, log-SameTables}
use tandem_interface_ai.Ledger.Claims.Forms.{time_of, after_now}
use tandem_interface_ai.Ledger.Leases.{
  lease_key, get_lease, normalized_type, or_text, record_acquired, announce, contend, new_lease,
  insert_or_contend, acquire_lease,
}

pub announce-SameTables :
    (case_id owner_type owner : String) (token : ℕ) (resource : String) (expires_at : ℕ) (w : World)
    {r : LeaseRecord} {w' : World}
    → announce case_id owner_type owner token resource expires_at w ≡ (ok r, w')
    → SameTables w w' × (get_lease case_id w.db ≡ some r)
unfolding announce record_acquired
announce-SameTables case_id kind owner token resource expires w {r} {w'} h =
    let (u, v, called, ended) =
      >>=-eq-ok (record_acquired case_id kind owner token resource expires)
        (λ _. gets (λ x. get_lease case_id x.db) >>= (λ f. or_raise f runtime_error)) w h in
    let same = log-SameTables _ _ _ _ _ w called in
    (ground (arith, same, ended), ground (arith, same.leases, ended))

abbrev pub with_leases : World → List LeaseRecord → World
with_leases w t = record w { db = record w.db { leases = t } }

-- The owner type and the duration that `acquire_lease` accepts.
abbrev pub is_valid_request : Option String → String → ℕ → Bool
is_valid_request owner_type owner ttl =
    (normalized_type owner_type owner == "AUTOMATION"
      || normalized_type owner_type owner == "HUMAN")
    && not (ttl == 0)

module _ (case_id owner : String) (owner_type : Option String) (now : Option ℕ) (ttl : ℕ)
    (resource_id : Option String) (w : World) where
  abbrev kind : String
  kind = normalized_type owner_type owner

  abbrev at : ℕ
  at = time_of now w

  abbrev resource : String
  resource = or_text resource_id case_id

  abbrev fresh : LeaseRecord
  fresh = new_lease case_id resource kind owner at ttl

  pub acquire_lease_invalid :
      is_valid_request owner_type owner ttl ≡ false
      → acquire_lease case_id owner owner_type now ttl resource_id w
        ≡ (raised value_error, after_now now w)
  unfolding acquire_lease
  acquire_lease_invalid h = ground (arith, h)

  pub acquire_lease_new :
      is_valid_request owner_type owner ttl ≡ true
      → get_lease case_id w.db ≡ none
      → acquire_lease case_id owner owner_type now ttl resource_id w
        ≡ announce case_id kind owner 1 resource
            (at + ttl)
            (with_leases (after_now now w) (insert_or_ignore lease_key fresh w.db.leases))
  unfolding acquire_lease insert_or_contend
  acquire_lease_new v h = ground (arith, h, v)

  pub acquire_lease_there :
      (l : LeaseRecord)
      → is_valid_request owner_type owner ttl ≡ true
      → get_lease case_id w.db ≡ some l
      → acquire_lease case_id owner owner_type now ttl resource_id w
        ≡ contend l case_id resource kind owner at ttl (after_now now w)
  unfolding acquire_lease insert_or_contend insert_or_ignore
  acquire_lease_there l v h = ground (arith, h, v)
