-- ===== src/Ledger/Tests/Events.antt =====
-- The event log of one case.
use tandem_interface_ai.Prelude.{◌≡◌, refl, ◌⊎◌, true, none, [], ◌∷◌, map}
use tandem_interface_ai.Prelude.Table.{select_one}
use tandem_interface_ai.Ledger.Models.{ProcedureEventRecord, EventStreamHeadRecord}
use tandem_interface_ai.Ledger.Session.{World}
use tandem_interface_ai.Ledger.Events.{
  genesis_hash, record_event, envelope_of, verify_from, get_events_for_case, verify_event_chain,
}
use tandem_interface_ai.Ledger.Events.Chain.{IsIntact, is_chain, IsIntact-verifies}
use tandem_interface_ai.Ledger.Events.Intact.{record_event-IsIntact}
use tandem_interface_ai.Ledger.Events.Tamper.{Collision, same_head_same_history, truncated_verifies}
use tandem_interface_ai.Ledger.Tests.{env, start}

start-IsIntact : IsIntact start.env start.db "DSP-1"
unfolding verify_from select_one
start-IsIntact = record { chained = refl; ended = refl }

abbrev logged : World
logged = (record_event "DSP-1" "NOTE" "orchestrator" "AUTOMATION" none start).1

record_event-IsIntact_example : IsIntact start.env logged.db "DSP-1"
record_event-IsIntact_example =
    record_event-IsIntact "DSP-1" "NOTE" "orchestrator" "AUTOMATION" none start "DSP-1"
      start-IsIntact start-IsIntact

-- Two events of the case, as `record_event` writes them.
abbrev event_one : ProcedureEventRecord
event_one = record {
  event_id = "event-0";
  case_id = "DSP-1";
  sequence = 1;
  event_type = "NOTE";
  step_name = "orchestrator";
  actor = "AUTOMATION";
  payload = none;
  timestamp = 1000;
  created_at = "2026-01-01T00:00:00+00:00";
  previous_event_hash = genesis_hash;
  event_hash = "event-0";
}

abbrev event_two : ProcedureEventRecord
event_two = record event_one {
  event_id = "event-1";
  sequence = 2;
  previous_event_hash = "event-0";
  event_hash = "event-1";
}

abbrev head_two : EventStreamHeadRecord
head_two = record { case_id = "DSP-1"; last_sequence = 2; last_event_hash = "event-1" }

abbrev two_events : World
two_events = record start {
  db = record start.db { events = event_one ∷ event_two ∷ []; heads = head_two ∷ [] };
}

two_events-IsIntact : IsIntact two_events.env two_events.db "DSP-1"
unfolding verify_from select_one
two_events-IsIntact = record { chained = refl; ended = refl }

two_is_chain : is_chain env 1 genesis_hash (event_one ∷ event_two ∷ []) ≡ true
unfolding verify_from
two_is_chain = refl

same_head_same_history_example :
    (map envelope_of (event_one ∷ event_two ∷ []) ≡ map envelope_of (event_one ∷ event_two ∷ []))
    ⊎ Collision env
same_head_same_history_example =
    same_head_same_history env (event_one ∷ event_two ∷ []) (event_one ∷ event_two ∷ [])
      two_is_chain two_is_chain refl refl

-- The second event is gone, and the head still counts it.
abbrev truncated : World
truncated = record two_events { db = record two_events.db { events = event_one ∷ [] } }

truncated_verifies_example : (verify_event_chain "DSP-1" truncated).valid ≡ true
unfolding get_events_for_case
truncated_verifies_example =
    truncated_verifies "DSP-1" two_events truncated (event_two ∷ []) refl refl
      (IsIntact-verifies "DSP-1" two_events two_events-IsIntact)
