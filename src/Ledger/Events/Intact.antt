-- ===== src/Ledger/Events/Intact.antt =====
-- `record_event` keeps every stream of the log intact.
use tandem_interface_ai.Prelude.{
  String, ◌≡◌, refl, inl, inr, true, Option, none, some, arith, if◌then◌else◌, Bool-cases,
  Option-cases, is_some, ◌&&◌,
}
use tandem_interface_ai.Prelude.Eq.{◌==◌, string_eq}
use tandem_interface_ai.Prelude.Table.{
  select_one, select_one-insert_or_ignore, select_one-update_where, key-select_one,
}
use tandem_interface_ai.Domain.Values.{Dict}
use tandem_interface_ai.Ledger.Models.{ProcedureEventRecord}
use tandem_interface_ai.Ledger.Session.{World}
use tandem_interface_ai.Ledger.Events.{head_key, is_admissible, record_event}
use tandem_interface_ai.Ledger.Events.Append.{
  genesis_head, or_genesis, next_event, heads_with, appended, refused, record_event_lem,
}
use tandem_interface_ai.Ledger.Events.Chain.{IsIntact, Continues, head_after, extend-IsIntact}

module _ (case_id event_type step_name actor : String) (payload : Option Dict) (w : World) where
  abbrev ev : ProcedureEventRecord
  ev = next_event case_id event_type step_name actor payload w

  next_event-Continues : Continues w.env w.db ev
  unfolding next_event
  next_event-Continues = record { numbered = refl; linked = refl; hashed = refl }

  head-appended :
      (c : String)
      → or_genesis c
          (select_one head_key c (appended case_id event_type step_name actor payload w).db.heads)
        ≡ head_after c ev w.db
  unfolding appended heads_with next_event
  head-appended c = elim (Option-cases (select_one head_key c w.db.heads)) [
    | inl nothing ↦ ground (arith, string_eq.beq_iff case_id c, found, inserted)
    | inr (x, there) ↦ ground (
      arith,
      string_eq.beq_iff case_id c,
      string_eq.beq_iff x.case_id case_id,
      key-select_one head_key c w.db.heads there,
      found,
      inserted,
    )
  ]
    where
      found :
          select_one head_key c (appended case_id event_type step_name actor payload w).db.heads
          ≡ (elim (select_one head_key c (heads_with case_id w)) [
            | none ↦ none
            | some r ↦ some (
                if r.case_id == case_id && true
                then record r { last_sequence = ev.sequence; last_event_hash = ev.event_hash }
                else r)
          ])
      found =
          select_one-update_where head_key
            (λ h. record h { last_sequence = ev.sequence; last_event_hash = ev.event_hash })
            (λ r. refl) c case_id (λ _. true) (heads_with case_id w)

      inserted : select_one head_key c (heads_with case_id w) ≡ (
          if is_some (select_one head_key c w.db.heads)
          then select_one head_key c w.db.heads
          else if case_id == c
          then some (genesis_head case_id)
          else none)
      inserted = select_one-insert_or_ignore head_key c (genesis_head case_id) w.db.heads

  appended-IsIntact :
      (c : String)
      → IsIntact w.env w.db c
      → IsIntact w.env (appended case_id event_type step_name actor payload w).db c
  unfolding appended
  appended-IsIntact c h =
      extend-IsIntact w.env c ev w.db (appended case_id event_type step_name actor payload w).db h
        next_event-Continues refl (head-appended c)

  -- A call of `record_event`, whether it returns or raises, leaves every stream intact that was
  -- intact in the open transaction and in the committed state.
  pub record_event-IsIntact :
      (c : String)
      → IsIntact w.env w.db c
      → IsIntact w.env w.durable c
      → IsIntact w.env (record_event case_id event_type step_name actor payload w).1.db c
  unfolding refused
  record_event-IsIntact c h hd =
      rw (record_event_lem case_id event_type step_name actor payload w)
        (elim (Bool-cases (is_admissible (record w.db { heads = heads_with case_id w }) ev)) [
          | inl good ↦ rw good (appended-IsIntact c h)
          | inr bad ↦ rw bad hd
        ])
