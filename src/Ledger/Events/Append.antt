-- ===== src/Ledger/Events/Append.antt =====
-- What one call of `record_event` does, in closed form.
use tandem_interface_ai.Prelude.{
  suc, ◌+◌, String, ◌≡◌, true, Option, none, some, List, [], ◌∷◌, ◌++◌, arith, if◌then◌else◌,
}
use tandem_interface_ai.Prelude.Eq.{string_eq, ==_refl}
use tandem_interface_ai.Prelude.Table.{
  select_one, insert_or_ignore, update_where, select_one-insert_or_ignore,
}
use tandem_interface_ai.Domain.Values.{Dict}
use tandem_interface_ai.Domain.Errors.{integrity_error}
use tandem_interface_ai.Ledger.Models.{ProcedureEventRecord, EventStreamHeadRecord}
use tandem_interface_ai.Ledger.Session.{World, ok, raised}
use tandem_interface_ai.Ledger.Events.{
  genesis_hash, canonical_payload, compute_event_hash, head_key, is_admissible, record_event,
}

abbrev pub genesis_head : String → EventStreamHeadRecord
genesis_head case_id = record {
  case_id = case_id;
  last_sequence = 0;
  last_event_hash = genesis_hash;
}

-- The head of a case's stream, which is created when it is not there.
abbrev pub or_genesis : String → Option EventStreamHeadRecord → EventStreamHeadRecord
or_genesis case_id none = genesis_head case_id
or_genesis case_id (some h) = h

-- The head of a case's stream before an append.
abbrev pub head_before : String → World → EventStreamHeadRecord
head_before case_id w = or_genesis case_id (select_one head_key case_id w.db.heads)

-- The heads once the case has one.
unfoldable pub heads_with : String → World → List EventStreamHeadRecord
heads_with case_id w = insert_or_ignore head_key (genesis_head case_id) w.db.heads

module _ (case_id event_type step_name actor : String) (payload : Option Dict) (w : World) where
  -- The event that the call builds.
  unfoldable pub next_event : ProcedureEventRecord
  next_event =
      let timestamp = w.env.clock w.readings in
      let created_at = w.env.isoformat timestamp in
      let serialized = canonical_payload w.env payload in
      let hash = compute_event_hash w.env (record {
        actor = actor;
        case_id = case_id;
        created_at = created_at;
        event_id = w.env.uuid w.uuids;
        event_type = event_type;
        payload = serialized;
        previous_event_hash = (head_before case_id w).last_event_hash;
        sequence = (head_before case_id w).last_sequence + 1;
        step_name = step_name;
      }) in
      record {
        event_id = w.env.uuid w.uuids;
        case_id = case_id;
        sequence = (head_before case_id w).last_sequence + 1;
        event_type = event_type;
        step_name = step_name;
        actor = actor;
        payload = serialized;
        timestamp = timestamp;
        created_at = created_at;
        previous_event_hash = (head_before case_id w).last_event_hash;
        event_hash = hash;
      }

  -- The world after an append.
  unfoldable pub appended : World
  appended = record w {
    db = record w.db {
      events = w.db.events ++ next_event ∷ [];
      heads =
          update_where head_key case_id (λ _. true)
            (λ h. record h {
              last_sequence = (head_before case_id w).last_sequence + 1;
              last_event_hash = next_event.event_hash;
            })
            (heads_with case_id w);
    };
    readings = suc w.readings;
    uuids = suc w.uuids;
  }

  -- The world after a flush that breaks a constraint.
  unfoldable pub refused : World
  refused = record w { db = w.durable; readings = suc w.readings; uuids = suc w.uuids }

  pub record_event_lem : record_event case_id event_type step_name actor payload w ≡ (
      if is_admissible (record w.db { heads = (heads_with case_id w) }) next_event
      then (ok next_event, appended)
      else (raised integrity_error, refused))
  unfolding record_event appended refused next_event heads_with
  record_event_lem = ground (
    arith,
    select_one-insert_or_ignore head_key case_id (genesis_head case_id) w.db.heads,
    ==_refl case_id,
  )
