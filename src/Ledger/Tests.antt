-- ===== src/Ledger/Tests.antt =====
-- Runs of the ledger on small concrete worlds.
pub mod Claims
pub mod Events
pub mod Leases
pub mod Obligations
pub mod Service
use tandem_interface_ai.Prelude.{
  ℕ, zero, suc, ◌+◌, String, Bool, true, false, Option, none, some, List, [], ◌∷◌,
}
use tandem_interface_ai.Prelude.Int.{pos}
use tandem_interface_ai.Domain.Values.{Dict, text, end, entry}
use tandem_interface_ai.Domain.Effects.{EffectClaimStatus, claimed}
use tandem_interface_ai.Domain.Identity.{EffectIdentity}
use tandem_interface_ai.Workflow.StateMachine.{received}
use tandem_interface_ai.Ledger.Models.{ProcedureCaseRecord, EffectClaimRecord}
use tandem_interface_ai.Ledger.Session.{Db, Env, Envelope, World, empty_db}

abbrev first_text : Dict → String
first_text (entry _ (text s) _) = s
first_text _ = "{}"

abbrev some_uuid : ℕ → String
some_uuid zero = "event-0"
some_uuid (suc zero) = "event-1"
some_uuid _ = "event-n"

abbrev pub env : Env
env = record {
  clock = λ n. 1000 + n;
  uuid = some_uuid;
  isoformat = λ _. "2026-01-01T00:00:00+00:00";
  dumps = first_text;
  dumps_envelope = λ e. e.event_id;
  sha256 = λ s. s;
}

abbrev pub case_one : ProcedureCaseRecord
case_one = record {
  case_id = "DSP-1";
  member_id = "8830142";
  procedure_name = "reg_e_dispute";
  amount = pos 34000;
  currency = "USD";
  status = received;
  money_moved = false;
  opened_at = 0;
  updated_at = 0;
}

-- One new case, and nothing else.
abbrev pub start : World
start = record {
  env = env;
  db = record empty_db { cases = case_one ∷ [] };
  durable = record empty_db { cases = case_one ∷ [] };
  readings = 0;
  uuids = 0;
}

abbrev pub effect : EffectIdentity
effect = record {
  institution_id = "alpha";
  procedure_id = "reg_e_dispute";
  case_id = "DSP-1";
  capability_id = "core.post_provisional_credit";
  member_id = "8830142";
  account_id = "CHK-8830142-01";
  amount = pos 34000;
  currency = "USD";
  business_reference = "DSP-1";
}

-- The claim of that effect by "A" at 100, in a given status.
abbrev pub claim_row : EffectClaimStatus → EffectClaimRecord
claim_row status = record {
  idempotency_key = "CHK-8830142-01";
  institution_id = "alpha";
  procedure_id = "reg_e_dispute";
  case_id = "DSP-1";
  capability_id = "core.post_provisional_credit";
  member_id = "8830142";
  account_id = "CHK-8830142-01";
  amount = pos 34000;
  currency = "USD";
  business_reference = "DSP-1";
  status = status;
  owner_id = "A";
  fencing_token = 1;
  claimed_at = 100;
  heartbeat_at = 100;
  expires_at = 150;
  updated_at = 100;
}

abbrev pub with_claim : EffectClaimStatus → World
with_claim status = record start {
  db = record empty_db { cases = case_one ∷ []; claims = claim_row status ∷ [] };
}
