-- ===== src/Ledger/Events/Tamper.antt =====
-- What the chain of digests protects, and what it does not.
use tandem_interface_ai.Prelude.{
  ℕ, ◌+◌, String, ◌≡◌, ◌≢◌, refl, sym, ap, ◌∙◌, ◌⊎◌, inl, inr, Bool, true, List, [], ◌∷◌, ◌++◌,
  ◌&&◌, map, arith, length, Bool-cases,
}
use tandem_interface_ai.Prelude.Eq.{◌==◌, string_eq, nat_eq, option_eq}
use tandem_interface_ai.Ledger.Models.{ProcedureEventRecord}
use tandem_interface_ai.Ledger.Session.{Env, Envelope, World}
use tandem_interface_ai.Ledger.Events.{
  genesis_hash, compute_event_hash, envelope_of, verify_from, get_events_for_case,
  verify_event_chain,
}
use tandem_interface_ai.Ledger.Events.Chain.{chain_end, is_chain}

-- Two different envelopes with one digest.
abbrev pub Collision : Env → Type 0
Collision env = (a b : Envelope) × (a ≢ b) × (compute_event_hash env a ≡ compute_event_hash env b)

abbrev envelope_beq : Envelope → Envelope → Bool
envelope_beq a b =
    a.actor == b.actor
    && a.case_id == b.case_id
    && a.created_at == b.created_at
    && a.event_id == b.event_id
    && a.event_type == b.event_type
    && a.payload == b.payload
    && a.previous_event_hash == b.previous_event_hash
    && a.sequence == b.sequence
    && a.step_name == b.step_name

envelope_beq-eq : (a b : Envelope) → envelope_beq a b ≡ true → a ≡ b
envelope_beq-eq a b h = ground (
  arith,
  string_eq.beq_iff a.actor b.actor,
  string_eq.beq_iff a.case_id b.case_id,
  string_eq.beq_iff a.created_at b.created_at,
  string_eq.beq_iff a.event_id b.event_id,
  string_eq.beq_iff a.event_type b.event_type,
  (option_eq {A = String}).beq_iff a.payload b.payload,
  string_eq.beq_iff a.previous_event_hash b.previous_event_hash,
  string_eq.beq_iff a.step_name b.step_name,
)

envelope_beq_refl : (a : Envelope) → envelope_beq a a ≡ true
envelope_beq_refl a = ground (
  arith,
  string_eq.beq_iff a.actor a.actor,
  string_eq.beq_iff a.case_id a.case_id,
  string_eq.beq_iff a.created_at a.created_at,
  string_eq.beq_iff a.event_id a.event_id,
  string_eq.beq_iff a.event_type a.event_type,
  (option_eq {A = String}).beq_iff a.payload a.payload,
  string_eq.beq_iff a.previous_event_hash a.previous_event_hash,
  string_eq.beq_iff a.step_name a.step_name,
)

-- Equal digests come from equal envelopes, or from a collision.
hash_injective_or_Collision :
    (env : Env) (a b : Envelope)
    → compute_event_hash env a ≡ compute_event_hash env b
    → (a ≡ b) ⊎ Collision env
hash_injective_or_Collision env a b h = elim (Bool-cases (envelope_beq a b)) [
  | inl same ↦ inl (envelope_beq-eq a b same)
  | inr differ ↦ inr (a, b, (λ q. cc (ap (envelope_beq a) q, envelope_beq_refl a, differ)), h)
]

is_chain-head :
    (env : Env) (k : ℕ) (p : String) (e : ProcedureEventRecord) (es : List ProcedureEventRecord)
    → is_chain env k p (e ∷ es) ≡ true
    → (e.previous_event_hash ≡ p)
      × (e.event_hash ≡ compute_event_hash env (envelope_of e))
      × (is_chain env (k + 1) e.event_hash es ≡ true)
unfolding verify_from
is_chain-head env k p e es h = ground (
  arith,
  string_eq.beq_iff e.previous_event_hash p,
  string_eq.beq_iff (compute_event_hash env (envelope_of e)) e.event_hash,
)

chains_agree :
    (env : Env) (k : ℕ) (p q : String) (es fs : List ProcedureEventRecord)
    → is_chain env k p es ≡ true
    → is_chain env k q fs ≡ true
    → length es ≡ length fs
    → (chain_end k p es).1 ≡ (chain_end k q fs).1
    → ((map envelope_of es ≡ map envelope_of fs) × (p ≡ q)) ⊎ Collision env
chains_agree env k p q [] [] ve vf n h = inl (refl, h)
chains_agree env k p q [] (f ∷ fs) ve vf n h = absurd (omega arith)
chains_agree env k p q (e ∷ es) [] ve vf n h = absurd (omega arith)
chains_agree env k p q (e ∷ es) (f ∷ fs) ve vf n h =
    elim (chains_agree env (k + 1) e.event_hash f.event_hash es fs (is_chain-head env k p e es ve).2
      (is_chain-head env k q f fs vf).2 (omega arith) h) [
        | inr c ↦ inr c
        | inl (rest, digests) ↦
            elim (hash_injective_or_Collision env (envelope_of e) (envelope_of f) (
              cc (digests, (is_chain-head env k p e es ve).1, (is_chain-head env k q f fs vf).1))) [
                | inr c ↦ inr c
                | inl same ↦ inl (
                  cc (same, rest),
                  cc (
                    ap (λ (x : Envelope). x.previous_event_hash) same,
                    (is_chain-head env k p e es ve).0,
                    (is_chain-head env k q f fs vf).0,
                  ),
                )
              ]
      ]

-- Tamper evidence. Two streams that both verify, with equally many events and the same last
-- digest, agree in every hashed field of every event, or two different envelopes with the same
-- digest have been found.
pub same_head_same_history :
    (env : Env) (es fs : List ProcedureEventRecord)
    → is_chain env 1 genesis_hash es ≡ true
    → is_chain env 1 genesis_hash fs ≡ true
    → length es ≡ length fs
    → (chain_end 1 genesis_hash es).1 ≡ (chain_end 1 genesis_hash fs).1
    → (map envelope_of es ≡ map envelope_of fs) ⊎ Collision env
same_head_same_history env es fs ve vf n h =
    elim (chains_agree env 1 genesis_hash genesis_hash es fs ve vf n h) [
      | inl (same, _) ↦ inl same
      | inr c ↦ inr c
    ]

-- What a chain begins with is a chain.
prefix_verifies :
    (env : Env) (k : ℕ) (p : String) (es deleted : List ProcedureEventRecord)
    → (verify_from env k p (es ++ deleted)).valid ≡ true
    → (verify_from env k p es).valid ≡ true
unfolding verify_from
prefix_verifies env k p [] deleted h = refl
prefix_verifies env k p (e ∷ es) deleted h =
    ground (arith, prefix_verifies env (k + 1) e.event_hash es deleted)

-- `verify_event_chain` does not look at the stream's head: when a case's events verify, then they
-- still verify in every ledger in which the last of them are missing, whatever heads, and whatever
-- else, that ledger holds.
pub truncated_verifies :
    (case_id : String) (before after : World) (deleted : List ProcedureEventRecord)
    → after.env ≡ before.env
    → get_events_for_case case_id before.db ≡ get_events_for_case case_id after.db ++ deleted
    → (verify_event_chain case_id before).valid ≡ true
    → (verify_event_chain case_id after).valid ≡ true
unfolding verify_event_chain
truncated_verifies case_id before after deleted same cut h =
    ap (λ env. is_chain env 1 genesis_hash (get_events_for_case case_id after.db)) same
    ∙ prefix_verifies before.env 1 genesis_hash (get_events_for_case case_id after.db) deleted
        (ap (is_chain before.env 1 genesis_hash) (sym cut) ∙ h)
