-- ===== src/Ledger/Events.antt =====
-- The append-only, hash-chained event log (tandem/ledger/events.py; record_event,
-- get_events_for_case and verify_event_chain of tandem/ledger/repository.py).
pub mod Append
pub mod Chain
pub mod Intact
pub mod Tamper
pub mod Frame
use tandem_interface_ai.Prelude.{
  ℕ, ◌+◌, String, Bool, true, false, not, ◌&&◌, ◌||◌, Option, none, some, List, [], ◌∷◌, ◌++◌,
  any_of, keep_if, leb, if◌then◌else◌,
}
use tandem_interface_ai.Prelude.Eq.{◌==◌, nat_eq, string_eq}
use tandem_interface_ai.Prelude.Table.{select_one, insert_or_ignore, update_where}
use tandem_interface_ai.Domain.Values.{Dict}
use tandem_interface_ai.Domain.Errors.{runtime_error}
use tandem_interface_ai.Ledger.Models.{ProcedureEventRecord, EventStreamHeadRecord}
use tandem_interface_ai.Ledger.Session.{
  Db, Env, Envelope, World, M, ◌>>=◌, ◌>>◌, pure, gets, get_env, modify_db, now_utc, new_uuid,
  constrain, or_raise,
}

abbrev pub genesis_hash : String
genesis_hash = "0000000000000000000000000000000000000000000000000000000000000000"

pub record ChainVerification : Type 0 where
  pub valid : Bool
  pub broken_sequence : Option ℕ
  pub message : String

abbrev pub canonical_payload : Env → Option Dict → Option String
canonical_payload env none = none
canonical_payload env (some p) = some (env.dumps p)

abbrev pub compute_event_hash : Env → Envelope → String
compute_event_hash env e = env.sha256 (env.dumps_envelope e)

-- The envelope of a stored event: what `verify_event_chain` hashes again.
abbrev pub envelope_of : ProcedureEventRecord → Envelope
envelope_of e = record {
  actor = e.actor;
  case_id = e.case_id;
  created_at = e.created_at;
  event_id = e.event_id;
  event_type = e.event_type;
  payload = e.payload;
  previous_event_hash = e.previous_event_hash;
  sequence = e.sequence;
  step_name = e.step_name;
}

abbrev pub head_key : EventStreamHeadRecord → String
head_key h = h.case_id

-- The constraints on a new event: its case exists, and its identifier, its digest and its place in
-- the stream are new.
abbrev pub is_admissible : Db → ProcedureEventRecord → Bool
is_admissible d e =
    any_of (λ c. c.case_id == e.case_id) d.cases
    && not (
        any_of
          (λ x.
            x.event_id == e.event_id
            || x.event_hash == e.event_hash
            || (x.case_id == e.case_id && x.sequence == e.sequence))
          d.events)

-- Appends one event to the stream of its case, and moves the stream's head.
unfoldable pub record_event :
    String → String → String → String → Option Dict → M ProcedureEventRecord
record_event case_id event_type step_name actor payload = do
  modify_db (λ d. record d {
    heads =
        insert_or_ignore head_key
          (record { case_id = case_id; last_sequence = 0; last_event_hash = genesis_hash }) d.heads;
  })
  found ← gets (λ w. select_one head_key case_id w.db.heads)
  head ← or_raise found runtime_error
  let sequence = head.last_sequence + 1
  let previous_hash = head.last_event_hash
  event_id ← new_uuid
  timestamp ← now_utc
  env ← get_env
  let created_at = env.isoformat timestamp
  let serialized_payload = canonical_payload env payload
  let event_hash = compute_event_hash env (record {
    actor = actor;
    case_id = case_id;
    created_at = created_at;
    event_id = event_id;
    event_type = event_type;
    payload = serialized_payload;
    previous_event_hash = previous_hash;
    sequence = sequence;
    step_name = step_name;
  })
  let event : ProcedureEventRecord = record {
    event_id = event_id;
    case_id = case_id;
    sequence = sequence;
    event_type = event_type;
    step_name = step_name;
    actor = actor;
    payload = serialized_payload;
    timestamp = timestamp;
    created_at = created_at;
    previous_event_hash = previous_hash;
    event_hash = event_hash;
  }
  admissible ← gets (λ w. is_admissible w.db event)
  constrain admissible
  modify_db (λ d. record d {
    events = d.events ++ event ∷ [];
    heads =
        update_where head_key case_id (λ _. true)
          (λ h. record h { last_sequence = sequence; last_event_hash = event_hash }) d.heads;
  })
  pure event

-- `ORDER BY sequence ASC`
abbrev pub insert_by_sequence :
    ProcedureEventRecord → List ProcedureEventRecord → List ProcedureEventRecord
insert_by_sequence e [] = e ∷ []
insert_by_sequence e (x ∷ xs) =
    if leb e.sequence x.sequence then e ∷ x ∷ xs else x ∷ insert_by_sequence e xs

abbrev pub sort_by_sequence : List ProcedureEventRecord → List ProcedureEventRecord
sort_by_sequence [] = []
sort_by_sequence (e ∷ es) = insert_by_sequence e (sort_by_sequence es)

unfoldable pub get_events_for_case : String → Db → List ProcedureEventRecord
get_events_for_case case_id d = sort_by_sequence (keep_if (λ e. e.case_id == case_id) d.events)

-- The loop of `verify_event_chain`, from an expected sequence number and a previous digest.
unfoldable pub verify_from : Env → ℕ → String → List ProcedureEventRecord → ChainVerification
verify_from env expected previous [] = record { valid = true; broken_sequence = none; message = "" }
verify_from env expected previous (e ∷ es) =
    let rest = verify_from env (expected + 1) e.event_hash es in
    if not (e.sequence == expected) || not (e.previous_event_hash == previous)
    then record {
      valid = false;
      broken_sequence = some expected;
      message = "Event sequence or previous hash is discontinuous";
    }
    else if not (compute_event_hash env (envelope_of e) == e.event_hash)
    then record {
      valid = false;
      broken_sequence = some e.sequence;
      message = "Event digest does not match its immutable content";
    }
    else rest

unfoldable pub verify_event_chain : String → World → ChainVerification
unfolding verify_from get_events_for_case
verify_event_chain case_id w = verify_from w.env 1 genesis_hash (get_events_for_case case_id w.db)
