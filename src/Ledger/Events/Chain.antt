-- ===== src/Ledger/Events/Chain.antt =====
-- The invariant of the event log: the events of each case form one unbroken chain of digests that
-- ends at the head of its stream. Every append keeps it, and a log that has it verifies.
use tandem_interface_ai.Prelude.{
  ℕ, ◌+◌, String, ◌≡◌, refl, inl, inr, Bool, true, List, [], ◌∷◌, ◌++◌, ap, ◌∙◌, arith, keep_if,
  if◌then◌else◌, Bool-cases,
}
use tandem_interface_ai.Prelude.Eq.{◌==◌, nat_eq, string_eq, nat_beq_iff}
use tandem_interface_ai.Prelude.Table.{select_one}
use tandem_interface_ai.Ledger.Models.{ProcedureEventRecord, EventStreamHeadRecord}
use tandem_interface_ai.Ledger.Session.{Db, Env, World}
use tandem_interface_ai.Ledger.Events.{
  genesis_hash, compute_event_hash, envelope_of, head_key, insert_by_sequence, sort_by_sequence,
  verify_from, verify_event_chain,
}
use tandem_interface_ai.Ledger.Events.Append.{or_genesis}

-- The number and the previous digest that the next event of a chain must have.
abbrev pub chain_end : ℕ → String → List ProcedureEventRecord → ℕ × String
chain_end k p [] = (k, p)
chain_end k p (e ∷ es) = chain_end (k + 1) e.event_hash es

abbrev pub is_chain : Env → ℕ → String → List ProcedureEventRecord → Bool
is_chain env k p es = (verify_from env k p es).valid

-- The events of a case, in the order in which they were written.
abbrev pub stream : String → Db → List ProcedureEventRecord
stream case_id d = keep_if (λ e. e.case_id == case_id) d.events

pub record IsIntact (env : Env) (d : Db) (case_id : String) : Type 0 where
  pub chained : is_chain env 1 genesis_hash (stream case_id d) ≡ true
  pub ended : chain_end 1 genesis_hash (stream case_id d) ≡ (
      let h = or_genesis case_id (select_one head_key case_id d.heads) in
      (h.last_sequence + 1, h.last_event_hash))

is_chain-append :
    (env : Env) (k : ℕ) (p : String) (es : List ProcedureEventRecord) (e : ProcedureEventRecord)
    → is_chain env k p es ≡ true
    → e.sequence ≡ (chain_end k p es).0
    → e.previous_event_hash ≡ (chain_end k p es).1
    → e.event_hash ≡ compute_event_hash env (envelope_of e)
    → is_chain env k p (es ++ e ∷ []) ≡ true
unfolding verify_from
is_chain-append env k p [] e h s q d = ground (
  arith,
  nat_beq_iff e.sequence k,
  string_eq.beq_iff e.previous_event_hash p,
  string_eq.beq_iff (compute_event_hash env (envelope_of e)) e.event_hash,
)
is_chain-append env k p (x ∷ es) e h s q d =
    ground (arith, is_chain-append env (k + 1) x.event_hash es e)

chain_end-append :
    (k : ℕ) (p : String) (es : List ProcedureEventRecord) (e : ProcedureEventRecord)
    → chain_end k p (es ++ e ∷ []) ≡ ((chain_end k p es).0 + 1, e.event_hash)
chain_end-append k p [] e = refl
chain_end-append k p (x ∷ es) e = chain_end-append (k + 1) x.event_hash es e

keep_if-append :
    (p : ProcedureEventRecord → Bool) (es : List ProcedureEventRecord) (e : ProcedureEventRecord)
    → keep_if p (es ++ e ∷ []) ≡ (if p e then keep_if p es ++ e ∷ [] else keep_if p es)
keep_if-append p [] e = refl
keep_if-append p (x ∷ es) e = ground (arith, keep_if-append p es e)

-- A chain is already in the order of its sequence numbers.
sort-is_chain :
    (env : Env) (k : ℕ) (p : String) (es : List ProcedureEventRecord)
    → is_chain env k p es ≡ true
    → sort_by_sequence es ≡ es
unfolding verify_from
sort-is_chain env k p [] h = refl
sort-is_chain env k p (x ∷ []) h = refl
sort-is_chain env k p (x ∷ y ∷ es) h =
    ap (insert_by_sequence x) (sort-is_chain env (k + 1) x.event_hash (y ∷ es) (ground arith))
    ∙ ground (arith, nat_beq_iff x.sequence k, nat_beq_iff y.sequence (k + 1))

pub IsIntact-verifies :
    (case_id : String) (w : World)
    → IsIntact w.env w.db case_id
    → (verify_event_chain case_id w).valid ≡ true
unfolding verify_event_chain
IsIntact-verifies case_id w h =
    ap (is_chain w.env 1 genesis_hash)
      (sort-is_chain w.env 1 genesis_hash (stream case_id w.db) h.chained)
    ∙ h.chained

-- The event `e` continues the stream of its case.
pub record Continues (env : Env) (d : Db) (e : ProcedureEventRecord) : Type 0 where
  pub numbered :
      e.sequence ≡ (or_genesis e.case_id (select_one head_key e.case_id d.heads)).last_sequence + 1
  pub linked :
      e.previous_event_hash
      ≡ (or_genesis e.case_id (select_one head_key e.case_id d.heads)).last_event_hash
  pub hashed : e.event_hash ≡ compute_event_hash env (envelope_of e)

-- The head of the stream of `c` once `e` is written.
abbrev pub head_after : String → ProcedureEventRecord → Db → EventStreamHeadRecord
head_after c e d =
    if e.case_id == c
    then record { case_id = c; last_sequence = e.sequence; last_event_hash = e.event_hash }
    else or_genesis c (select_one head_key c d.heads)

pub extend-IsIntact :
    (env : Env) (c : String) (e : ProcedureEventRecord) (d d' : Db)
    → IsIntact env d c
    → Continues env d e
    → d'.events ≡ d.events ++ e ∷ []
    → or_genesis c (select_one head_key c d'.heads) ≡ head_after c e d
    → IsIntact env d' c
extend-IsIntact env c e d d' h next written moved = elim (Bool-cases (e.case_id == c)) [
  | inl own ↦
      let same : e.case_id ≡ c = (string_eq.beq_iff e.case_id c).0 own in
      let grown : stream c d' ≡ stream c d ++ e ∷ [] =
        ground (arith, written, own, keep_if-append (λ x. x.case_id == c) d.events e) in
      record {
        chained = rw grown (
            is_chain-append env 1 genesis_hash (stream c d) e h.chained
              (ground (arith, same, next.numbered, h.ended))
              (ground (arith, same, next.linked, h.ended)) next.hashed);
        ended = rw grown (
            ground (
              arith,
              own,
              moved,
              chain_end-append 1 genesis_hash (stream c d) e,
              h.ended,
              next.numbered,
            ));
      }
  | inr other ↦
      let kept : stream c d' ≡ stream c d =
        ground (arith, written, other, keep_if-append (λ x. x.case_id == c) d.events e) in
      record {
        chained = rw kept h.chained;
        ended = rw kept (ground (arith, other, moved, h.ended));
      }
]
