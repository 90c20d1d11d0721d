-- ===== src/Ledger/Events/Frame.antt =====
-- What `record_event` leaves alone: when it returns, every table but the log and its heads.
use tandem_interface_ai.Prelude.{String, ◌≡◌, ap, Option, arith}
use tandem_interface_ai.Prelude.Eq.{string_eq}
use tandem_interface_ai.Domain.Values.{Dict}
use tandem_interface_ai.Ledger.Models.{ProcedureEventRecord}
use tandem_interface_ai.Ledger.Session.{World, Result, ok, ◌>>◌, pure}
use tandem_interface_ai.Ledger.Session.Bind.{>>=-eq-ok}
use tandem_interface_ai.Ledger.Events.{record_event}
use tandem_interface_ai.Ledger.Events.Append.{appended, record_event_lem}

-- Everything but the event log is as before.
pub record SameTables (w w' : World) : Type 0 where
  pub env : w'.env ≡ w.env
  pub durable : w'.durable ≡ w.durable
  pub cases : w'.db.cases ≡ w.db.cases
  pub executions : w'.db.executions ≡ w.db.executions
  pub intents : w'.db.intents ≡ w.db.intents
  pub claims : w'.db.claims ≡ w.db.claims
  pub deadlines : w'.db.deadlines ≡ w.db.deadlines
  pub obligations : w'.db.obligations ≡ w.db.obligations
  pub leases : w'.db.leases ≡ w.db.leases
  pub sessions : w'.db.sessions ≡ w.db.sessions
  pub handoffs : w'.db.handoffs ≡ w.db.handoffs

pub record_event-SameTables :
    (case_id event_type step_name actor : String) (payload : Option Dict) (w : World)
    {e : ProcedureEventRecord} {w' : World}
    → record_event case_id event_type step_name actor payload w ≡ (ok e, w')
    → SameTables w w'
unfolding appended
record_event-SameTables case_id event_type step_name actor payload w h =
    ground (arith, h, record_event_lem case_id event_type step_name actor payload w)

-- An action that only records an event.
pub log-SameTables :
    (case_id event_type step_name actor : String) (payload : Option Dict) (w : World) {w' : World}
    → (record_event case_id event_type step_name actor payload >> pure tt) w ≡ (ok tt, w')
    → SameTables w w'
log-SameTables case_id event_type step_name actor payload w {w'} h =
    let (e, v, called, ended) =
      >>=-eq-ok (record_event case_id event_type step_name actor payload) (λ _. pure tt) w h in
    let same : v ≡ w' = ap (λ (x : Result (Unit {0}) × World). x.1) ended in
    rw same at (record_event-SameTables case_id event_type step_name actor payload w called)
