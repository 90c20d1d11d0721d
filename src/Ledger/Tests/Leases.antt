-- ===== src/Ledger/Tests/Leases.antt =====
-- A lease of one case, wanted by an automation worker and a human operator.
use tandem_interface_ai.Prelude.{
  ℕ, ◌+◌, String, ◌≡◌, ◌≢◌, refl, true, false, Option, none, some, [], ◌∷◌, if◌then◌else◌,
}
use tandem_interface_ai.Prelude.Table.{select_one, insert_or_ignore, update_where, rowcount}
use tandem_interface_ai.Domain.Errors.{lease_conflict, value_error}
use tandem_interface_ai.Ledger.Models.{LeaseRecord}
use tandem_interface_ai.Ledger.Session.{World, ok, raised}
use tandem_interface_ai.Ledger.Events.{record_event}
use tandem_interface_ai.Ledger.Leases.{
  get_lease, lease_is_active, normalized_type, acquire_lease, heartbeat_lease, validate_lease_token,
  announce, record_acquired, contend, take_over, insert_or_contend,
}
use tandem_interface_ai.Ledger.Leases.Exclusive.{
  Acquired, is_available, acquire_lease_refused, acquire_lease-Acquired,
}
use tandem_interface_ai.Ledger.Leases.Forms.{is_valid_request}
use tandem_interface_ai.Ledger.Leases.History.{
  Reach, here, UniqueLeases, is_over, over_stays_fenced, former_owner_fenced,
}
use tandem_interface_ai.Ledger.Tests.{start}

abbrev worker_lease : LeaseRecord
worker_lease = record {
  case_id = "DSP-1";
  resource_id = "DSP-1";
  owner_type = "AUTOMATION";
  owner_id = "AUTOMATION:1";
  fencing_token = 1;
  version = 1;
  acquired_at = 100;
  heartbeat_at = 100;
  expires_at = 160;
  released_at = none;
}

-- The worker holds the case until 160.
abbrev held : World
held = record start { db = record start.db { leases = worker_lease ∷ [] } }

held_there : get_lease "DSP-1" held.db ≡ some worker_lease
unfolding select_one
held_there = refl

unique_held : UniqueLeases held
unfolding select_one
unique_held = (refl, tt)

busy : is_available (normalized_type none "alice") "alice" 120 (some worker_lease) ≡ false
unfolding lease_is_active normalized_type
busy = refl

acquire_lease_refused_example :
    acquire_lease "DSP-1" "alice" none (some 120) 60 none held
    ≡ (raised (if is_valid_request none "alice" 60 then lease_conflict else value_error), held)
acquire_lease_refused_example =
    acquire_lease_refused "DSP-1" "alice" none (some 120) 60 none held worker_lease held_there busy

-- At 200 the worker's lease has lapsed.
abbrev human_lease : LeaseRecord
human_lease = record {
  case_id = "DSP-1";
  resource_id = "DSP-1";
  owner_type = "HUMAN";
  owner_id = "alice";
  fencing_token = 2;
  version = 2;
  acquired_at = 200;
  heartbeat_at = 200;
  expires_at = 260;
  released_at = none;
}

abbrev taken : World
taken = (acquire_lease "DSP-1" "alice" none (some 200) 60 none held).1

takeover_runs : acquire_lease "DSP-1" "alice" none (some 200) 60 none held ≡ (ok human_lease, taken)
unfolding acquire_lease normalized_type insert_or_contend contend take_over lease_is_active announce
    record_acquired record_event select_one insert_or_ignore update_where rowcount
takeover_runs = refl

acquire_lease-Acquired_example :
    Acquired "DSP-1" "alice" none (some 200) 60 none held human_lease taken
acquire_lease-Acquired_example =
    acquire_lease-Acquired "DSP-1" "alice" none (some 200) 60 none held unique_held takeover_runs

lapsed : lease_is_active worker_lease 200 ≡ false
unfolding lease_is_active
lapsed = refl

stay_taken : Reach taken taken
stay_taken = here

former_owner_fenced_example :
    (human_lease.fencing_token ≡ worker_lease.fencing_token + 1)
    × ((holder : String) (at : ℕ) → validate_lease_token "DSP-1" holder 1 at taken.db ≡ false)
former_owner_fenced_example =
    former_owner_fenced "DSP-1" "alice" none (some 200) 60 none worker_lease held taken taken
      unique_held held_there lapsed takeover_runs stay_taken

-- The worker's lease after its release at 150.
abbrev given_back : World
given_back = record start {
  db = record start.db {
    leases = record worker_lease { released_at = some 150; expires_at = 150 } ∷ [];
  };
}

unique_given_back : UniqueLeases given_back
unfolding select_one
unique_given_back = (refl, tt)

over : is_over 1 (get_lease "DSP-1" given_back.db) ≡ true
unfolding select_one
over = refl

stay_given_back : Reach given_back given_back
stay_given_back = here

over_stays_fenced_example :
    ((at : ℕ) → validate_lease_token "DSP-1" "AUTOMATION:1" 1 at given_back.db ≡ false)
    × ((now : Option ℕ) (ttl : ℕ) (r : LeaseRecord) (u : World)
        → heartbeat_lease "DSP-1" "AUTOMATION:1" 1 now ttl given_back ≢ (ok r, u))
over_stays_fenced_example =
    over_stays_fenced "DSP-1" "AUTOMATION:1" 1 unique_given_back over stay_given_back
