-- ===== src/Ledger/Obligations/History.antt =====
-- Histories of the obligations table: obligations are created, activated and satisfied in any order.
use tandem_interface_ai.Prelude.{
  ℕ, suc, String, ◌≡◌, ◌≢◌, refl, ap, ◌∙◌, ◌⊎◌, Bool, true, false, Option, none, some, List, [],
  ◌∷◌, ◌++◌, arith, is_some, inl, inr, Option-cases, Bool-cases,
}
use tandem_interface_ai.Prelude.Eq.{string_eq, pair_eq}
use tandem_interface_ai.Prelude.Table.{
  select_one, update_where, select_one-append, select_one-update_where, key-select_one,
}
use tandem_interface_ai.Domain.Values.{Dict}
use tandem_interface_ai.Ledger.Models.{
  ObligationRecord, ObligationStatus, planned, active, satisfied,
}
use tandem_interface_ai.Ledger.Session.{World, Result, ok, ◌>>◌, pure}
use tandem_interface_ai.Ledger.Session.Bind.{>>=-eq-ok}
use tandem_interface_ai.Ledger.Cases.{find_case}
use tandem_interface_ai.Ledger.Events.{record_event}
use tandem_interface_ai.Ledger.Events.Frame.{SameTables, record_event-SameTables}
use tandem_interface_ai.Ledger.Obligations.{
  obligation_key, find_obligation, create_missing, create_obligation, activated, fulfilled,
  activate_found, activate_obligation, satisfy_found, satisfy_obligation, write_obligation,
}

-- An action that records an event and gives a value.
logged-SameTables :
    {A : Type 0} (a : A) (case_id event_type step_name actor : String) (payload : Option Dict)
    (w : World) {b : A} {w' : World}
    → (record_event case_id event_type step_name actor payload >> pure a) w ≡ (ok b, w')
    → SameTables w w'
logged-SameTables {A} a case_id event_type step_name actor payload w {b} {w'} h =
    let (e, v, called, ended) =
      >>=-eq-ok (record_event case_id event_type step_name actor payload) (λ _. pure a) w h in
    let same : v ≡ w' = ap (λ (x : Result A × World). x.1) ended in
    rw same at (record_event-SameTables case_id event_type step_name actor payload w called)

abbrev pub is_satisfied : Option ObligationRecord → Bool
is_satisfied none = false
is_satisfied (some o) = elim o.status [ satisfied ↦ true | _ ↦ false ]

abbrev with_obligations : List ObligationRecord → World → World
with_obligations t w = record w { db = record w.db { obligations = t }; readings = suc w.readings }

create_missing-append :
    (case_id kind : String) (due_at : ℕ) (w : World) {r : ObligationRecord} {w' : World}
    → create_missing none case_id kind due_at w ≡ (ok r, w')
    → (x : ObligationRecord) × (w'.db.obligations ≡ w.db.obligations ++ x ∷ [])
unfolding create_missing
create_missing-append case_id kind due_at w h =
    elim (Bool-cases (is_some (find_case case_id w.db))) [
      | inr unknown ↦ absurd (ground (arith, unknown, h))
      | inl known ↦
          let x : ObligationRecord = record {
            case_id = case_id;
            obligation_type = kind;
            due_at = due_at;
            status = planned;
            created_at = w.env.clock w.readings;
            activated_at = none;
            satisfied_at = none;
          } in
          (
            x,
            (logged-SameTables x case_id "OBLIGATION_CREATED" "orchestrator" "AUTOMATION" _
                (with_obligations (w.db.obligations ++ x ∷ []) w) (rw known at h)).obligations,
          )
    ]

create_obligation-satisfied :
    (case_id kind : String) (due_at : ℕ) (j : String × String) (w : World) {r : ObligationRecord}
    {w' : World}
    → create_obligation case_id kind due_at w ≡ (ok r, w')
    → is_satisfied (select_one obligation_key j w.db.obligations) ≡ true
    → select_one obligation_key j w'.db.obligations ≡ select_one obligation_key j w.db.obligations
unfolding create_obligation
create_obligation-satisfied case_id kind due_at j w h s =
    elim (Option-cases (find_obligation case_id kind w.db)) [
      | inr (x, there) ↦ ground (arith, rw there at h)
      | inl nothing ↦
          let (x, table) = create_missing-append case_id kind due_at w (rw nothing at h) in
          ground (arith, s, table, select_one-append obligation_key j w.db.obligations x)
    ]

-- An update of an unsatisfied obligation leaves the satisfied ones alone.
update-satisfied :
    (c k : String) (f : ObligationRecord → ObligationRecord)
    (keeps : (r : ObligationRecord) → obligation_key (f r) ≡ obligation_key r) (j : String × String)
    (t : List ObligationRecord)
    → is_satisfied (select_one obligation_key (c, k) t) ≡ false
    → is_satisfied (select_one obligation_key j t) ≡ true
    → select_one obligation_key j (update_where obligation_key (c, k) (λ _. true) f t)
      ≡ select_one obligation_key j t
update-satisfied c k f keeps (a, b) t n s =
    elim (Option-cases (select_one obligation_key (a, b) t)) [
      | inl nothing ↦ absurd (ground (arith, nothing, s))
      | inr (x, there) ↦ ground (
        arith,
        there,
        n,
        s,
        key-select_one obligation_key (a, b) t there,
        string_eq.beq_iff x.case_id c,
        string_eq.beq_iff x.obligation_type k,
        select_one-update_where obligation_key f keeps (a, b) (c, k) (λ _. true) t,
      )
    ]

activate_found-table :
    (o : ObligationRecord) (st : ObligationStatus) (case_id kind : String) (w : World)
    {r : ObligationRecord} {w' : World}
    → activate_found o st case_id kind w ≡ (ok r, w')
    → (w'.db.obligations ≡ w.db.obligations)
      ⊎ ((st ≢ satisfied)
          × (w'.db.obligations
              ≡ update_where obligation_key
                  (case_id, kind)
                  (λ _. true)
                  (activated (w.env.clock w.readings))
                  w.db.obligations))
unfolding activate_found write_obligation
activate_found-table o planned case_id kind w h =
    let at = w.env.clock w.readings in
    inr (
      λ q. cc q,
      (logged-SameTables (activated at o) case_id "OBLIGATION_ACTIVATED" "orchestrator" "AUTOMATION"
          _
          (with_obligations
            (update_where obligation_key (case_id, kind) (λ _. true) (activated at)
              w.db.obligations)
            w)
          h).obligations,
    )
activate_found-table o active case_id kind w h = inl (ground (arith, h))
activate_found-table o satisfied case_id kind w h = inl (ground (arith, h))

activate_obligation-satisfied :
    (case_id kind : String) (j : String × String) (w : World) {r : ObligationRecord} {w' : World}
    → activate_obligation case_id kind w ≡ (ok r, w')
    → is_satisfied (select_one obligation_key j w.db.obligations) ≡ true
    → select_one obligation_key j w'.db.obligations ≡ select_one obligation_key j w.db.obligations
unfolding activate_obligation
activate_obligation-satisfied case_id kind j w h s =
    elim (Option-cases (find_obligation case_id kind w.db)) [
      | inl nothing ↦ absurd (ground (arith, nothing, h))
      | inr (x, there) ↦ elim (activate_found-table x x.status case_id kind w (rw there at h)) [
        | inl kept ↦ ap (select_one obligation_key j) kept
        | inr (unsatisfied, table) ↦
            ap (select_one obligation_key j) table
            ∙ update-satisfied case_id kind (activated (w.env.clock w.readings)) (λ y. refl) j
                w.db.obligations (ground (arith, there, unsatisfied)) s
      ]
    ]

satisfy_found-table :
    (o : ObligationRecord) (st : ObligationStatus) (case_id kind : String) (w : World)
    {r : ObligationRecord} {w' : World}
    → satisfy_found o st case_id kind w ≡ (ok r, w')
    → (w'.db.obligations ≡ w.db.obligations)
      ⊎ ((st ≢ satisfied)
          × (w'.db.obligations
              ≡ update_where obligation_key
                  (case_id, kind)
                  (λ _. true)
                  (fulfilled (w.env.clock w.readings))
                  w.db.obligations))
unfolding satisfy_found write_obligation
satisfy_found-table o planned case_id kind w h =
    let at = w.env.clock w.readings in
    inr (
      λ q. cc q,
      (logged-SameTables (fulfilled at o) case_id "OBLIGATION_SATISFIED" "orchestrator" "AUTOMATION"
          _
          (with_obligations
            (update_where obligation_key (case_id, kind) (λ _. true) (fulfilled at)
              w.db.obligations)
            w)
          h).obligations,
    )
satisfy_found-table o active case_id kind w h =
    let at = w.env.clock w.readings in
    inr (
      λ q. cc q,
      (logged-SameTables (fulfilled at o) case_id "OBLIGATION_SATISFIED" "orchestrator" "AUTOMATION"
          _
          (with_obligations
            (update_where obligation_key (case_id, kind) (λ _. true) (fulfilled at)
              w.db.obligations)
            w)
          h).obligations,
    )
satisfy_found-table o satisfied case_id kind w h = inl (ground (arith, h))

satisfy_obligation-satisfied :
    (case_id kind : String) (j : String × String) (w : World) {r : ObligationRecord} {w' : World}
    → satisfy_obligation case_id kind w ≡ (ok r, w')
    → is_satisfied (select_one obligation_key j w.db.obligations) ≡ true
    → select_one obligation_key j w'.db.obligations ≡ select_one obligation_key j w.db.obligations
unfolding satisfy_obligation
satisfy_obligation-satisfied case_id kind j w h s =
    elim (Option-cases (find_obligation case_id kind w.db)) [
      | inl nothing ↦ absurd (ground (arith, nothing, h))
      | inr (x, there) ↦ elim (satisfy_found-table x x.status case_id kind w (rw there at h)) [
        | inl kept ↦ ap (select_one obligation_key j) kept
        | inr (unsatisfied, table) ↦
            ap (select_one obligation_key j) table
            ∙ update-satisfied case_id kind (fulfilled (w.env.clock w.readings)) (λ y. refl) j
                w.db.obligations (ground (arith, there, unsatisfied)) s
      ]
    ]

-- One step of a history: an operation that returned, or work that leaves the obligations alone.
pub data Step (w w' : World) : Type 0 where
  create :
      (case_id kind : String) (due_at : ℕ) (r : ObligationRecord)
      → create_obligation case_id kind due_at w ≡ (ok r, w')
      → Step w w'
  activate :
      (case_id kind : String) (r : ObligationRecord)
      → activate_obligation case_id kind w ≡ (ok r, w')
      → Step w w'
  satisfy :
      (case_id kind : String) (r : ObligationRecord)
      → satisfy_obligation case_id kind w ≡ (ok r, w')
      → Step w w'
  other : w'.db.obligations ≡ w.db.obligations → Step w w'

pub data Reach (w : World) : World → Type 0 where
  here : Reach w w
  next : {v u : World} → Reach w v → Step v u → Reach w u

Step-satisfied :
    (j : String × String) {w w' : World}
    → Step w w'
    → is_satisfied (select_one obligation_key j w.db.obligations) ≡ true
    → select_one obligation_key j w'.db.obligations ≡ select_one obligation_key j w.db.obligations
Step-satisfied j {w} (create c k due r h) s = create_obligation-satisfied c k due j w h s
Step-satisfied j {w} (activate c k r h) s = activate_obligation-satisfied c k j w h s
Step-satisfied j {w} (satisfy c k r h) s = satisfy_obligation-satisfied c k j w h s
Step-satisfied j (other h) s = ap (select_one obligation_key j) h

-- A satisfied obligation is final: in every history of creations, activations and satisfactions the
-- row of an obligation that is SATISFIED stays as it is, with the time of its first satisfaction.
pub satisfied_is_final :
    (case_id kind : String) {w w' : World}
    → Reach w w'
    → is_satisfied (find_obligation case_id kind w.db) ≡ true
    → find_obligation case_id kind w'.db ≡ find_obligation case_id kind w.db
satisfied_is_final c k here s = refl
satisfied_is_final c k (next r st) s =
    let before = satisfied_is_final c k r s in Step-satisfied (c, k) st (rw before s) ∙ before
