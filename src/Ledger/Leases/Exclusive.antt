-- ===== src/Ledger/Leases/Exclusive.antt =====
-- Leases are exclusive: what an acquisition and a heartbeat write, and whom they refuse.
use tandem_interface_ai.Prelude.{
  ℕ, ◌+◌, String, ◌≡◌, ◌≢◌, refl, Bool, true, false, not, Option, none, some, arith, ◌&&◌, ◌||◌,
  if◌then◌else◌, inl, inr, Option-cases, Bool-cases,
}
use tandem_interface_ai.Prelude.Eq.{◌==◌, nat_eq, string_eq, ==_refl}
use tandem_interface_ai.Prelude.Table.{
  insert_or_ignore, update_where, KeysUnique, select_one-insert_or_ignore, select_one-update_where,
  rowcount-KeysUnique, key-select_one, insert_or_ignore-KeysUnique, update_where-KeysUnique,
}
use tandem_interface_ai.Domain.Errors.{value_error, lease_conflict}
use tandem_interface_ai.Ledger.Models.{LeaseRecord}
use tandem_interface_ai.Ledger.Session.{World, ok, raised}
use tandem_interface_ai.Ledger.Claims.Forms.{time_of, after_now}
use tandem_interface_ai.Ledger.Leases.{
  lease_key, get_lease, lease_is_active, normalized_type, or_text, announce, is_live_holder,
  extended, heartbeat_lease, is_abandoned, taken_over, take_over, contend, new_lease, acquire_lease,
}
use tandem_interface_ai.Ledger.Leases.Forms.{
  announce-SameTables, with_leases, is_valid_request, acquire_lease_invalid, acquire_lease_new,
  acquire_lease_there,
}

-- The case's row is now `row`; every other lease is as before, and keys are still unique.
pub record Held (case_id : String) (row : LeaseRecord) (w w' : World) : Type 0 where
  pub written :
      (j : String) → get_lease j w'.db ≡ (if case_id == j then some row else get_lease j w.db)
  pub unique : KeysUnique lease_key w'.db.leases

-- An update of the found row that keeps its case.
pub update-Held :
    (case_id : String) (p : LeaseRecord → Bool) (f : LeaseRecord → LeaseRecord)
    (keeps : (r : LeaseRecord) → (f r).case_id ≡ r.case_id) (l : LeaseRecord) (w w' : World)
    → KeysUnique lease_key w.db.leases
    → get_lease case_id w.db ≡ some l
    → p l ≡ true
    → w'.db.leases ≡ update_where lease_key case_id p f w.db.leases
    → Held case_id (f l) w w'
update-Held case_id p f keeps l w w' u h q t = record {
  written = λ j. elim (Option-cases (get_lease j w.db)) [
    | inl nothing ↦ ground (
      arith,
      h,
      nothing,
      t,
      string_eq.beq_iff case_id j,
      select_one-update_where lease_key f keeps j case_id p w.db.leases,
    )
    | inr (x, there) ↦ ground (
      arith,
      h,
      q,
      there,
      t,
      key-select_one lease_key j w.db.leases there,
      string_eq.beq_iff x.case_id case_id,
      string_eq.beq_iff case_id j,
      select_one-update_where lease_key f keeps j case_id p w.db.leases,
    )
  ];
  unique = rw t (update_where-KeysUnique lease_key f keeps case_id p w.db.leases u);
}

module _ (case_id : String) (w : World) (unique : KeysUnique lease_key w.db.leases) where
  -- The heartbeat of a lease that is there.
  pub heartbeat_lease_there :
      (owner_id : String) (token : ℕ) (now : Option ℕ) (ttl : ℕ) (l : LeaseRecord) {r : LeaseRecord}
      {w' : World}
      → get_lease case_id w.db ≡ some l
      → heartbeat_lease case_id owner_id token now ttl w ≡ (ok r, w')
      → (is_live_holder owner_id token (time_of now w) l ≡ true)
        × (r ≡ extended (time_of now w) ttl l)
        × Held case_id (extended (time_of now w) ttl l) w w'
  unfolding heartbeat_lease
  heartbeat_lease_there owner_id token now ttl l h done =
      let at = time_of now w in
      let live = is_live_holder owner_id token at in
      let counted = rowcount-KeysUnique lease_key case_id live w.db.leases unique in
      let holds : live l ≡ true = ground (arith, h, done, counted) in
      let found =
        select_one-update_where lease_key (extended at ttl) (λ x. refl) case_id case_id live
          w.db.leases in
      (
        holds,
        ground (
          arith,
          h,
          done,
          holds,
          found,
          counted,
          ==_refl case_id,
          key-select_one lease_key case_id w.db.leases h,
        ),
        update-Held case_id live (extended at ttl) (λ x. refl) l w _ unique h holds
            (ground (arith, done, counted, h)),
      )

  pub heartbeat_lease-none :
      (owner_id : String) (token : ℕ) (now : Option ℕ) (ttl : ℕ)
      → get_lease case_id w.db ≡ none
      → {r : LeaseRecord} {w' : World}
      → heartbeat_lease case_id owner_id token now ttl w ≢ (ok r, w')
  unfolding heartbeat_lease
  heartbeat_lease-none owner_id token now ttl h done = ground (
    arith,
    h,
    done,
    rowcount-KeysUnique lease_key case_id (is_live_holder owner_id token (time_of now w))
        w.db.leases unique,
  )

  take_over-Held :
      (resource kind owner : String) (at ttl : ℕ) (l : LeaseRecord) {r : LeaseRecord} {w' : World}
      → get_lease case_id w.db ≡ some l
      → lease_is_active l at ≡ false
      → take_over l case_id resource kind owner at ttl w ≡ (ok r, w')
      → (r ≡ taken_over l resource kind owner at ttl l)
        × Held case_id (taken_over l resource kind owner at ttl l) w w'
  unfolding take_over lease_is_active
  take_over-Held resource kind owner at ttl l {r} {w'} h idle done =
      let f = taken_over l resource kind owner at ttl in
      let p = is_abandoned l.version at in
      let gone : p l ≡ true = ground (arith, idle) in
      let counted = rowcount-KeysUnique lease_key case_id p w.db.leases unique in
      let v = with_leases w (update_where lease_key case_id p f w.db.leases) in
      let ended : announce case_id kind owner (l.fencing_token + 1) resource (at + ttl) v
          ≡ (ok r, w') =
        ground (arith, h, gone, counted, done) in
      let (same, found) =
        announce-SameTables case_id kind owner (l.fencing_token + 1) resource (at + ttl) v ended in
      (
        ground (
          arith,
          h,
          gone,
          found,
          ==_refl case_id,
          key-select_one lease_key case_id w.db.leases h,
          select_one-update_where lease_key f (λ x. refl) case_id case_id p w.db.leases,
        ),
        update-Held case_id p f (λ x. refl) l w w' unique h gone same.leases,
      )

-- The row after an acquisition, from the row before: a new one with token 1, the owner's active
-- lease extended, or an inactive one taken over with the next token.
abbrev pub lease_after :
    String → String → String → String → ℕ → ℕ → Option LeaseRecord → LeaseRecord
lease_after case_id resource kind owner at ttl none = new_lease case_id resource kind owner at ttl
lease_after case_id resource kind owner at ttl (some l) =
    if lease_is_active l at then extended at ttl l else taken_over l resource kind owner at ttl l

-- May this owner have the lease at this instant?
abbrev pub is_available : String → String → ℕ → Option LeaseRecord → Bool
is_available kind owner at none = true
is_available kind owner at (some l) =
    not (lease_is_active l at) || (l.owner_id == owner && l.owner_type == kind)

module _ (case_id owner : String) (owner_type : Option String) (now : Option ℕ) (ttl : ℕ)
    (resource_id : Option String) (w : World) where
  abbrev kind : String
  kind = normalized_type owner_type owner

  abbrev at : ℕ
  at = time_of now w

  abbrev resource : String
  resource = or_text resource_id case_id

  -- While a lease is active, every other owner's request for it is refused, and it changes nothing
  -- but the reading of the clock: with LeaseConflict, or with ValueError where the owner type or
  -- the duration is not valid.
  pub acquire_lease_refused :
      (l : LeaseRecord)
      → get_lease case_id w.db ≡ some l
      → is_available kind owner at (some l) ≡ false
      → acquire_lease case_id owner owner_type now ttl resource_id w ≡ (
        raised (if is_valid_request owner_type owner ttl then lease_conflict else value_error),
        after_now now w,
      )
  unfolding contend
  acquire_lease_refused l h busy = elim (Bool-cases (is_valid_request owner_type owner ttl)) [
    | inl v ↦
        ground
          (arith, v, busy, acquire_lease_there case_id owner owner_type now ttl resource_id w l v h)
    | inr v ↦
        ground (arith, v, acquire_lease_invalid case_id owner owner_type now ttl resource_id w v)
  ]

  -- The outcome of an acquisition that left `w'`.
  abbrev pub Acquired : LeaseRecord → World → Type 0
  Acquired r w' =
      (is_available kind owner at (get_lease case_id w.db) ≡ true)
      × (r ≡ lease_after case_id resource kind owner at ttl (get_lease case_id w.db))
      × Held case_id r w w'

  module _ {r : LeaseRecord} {w' : World} (unique : KeysUnique lease_key w.db.leases)
      (done : acquire_lease case_id owner owner_type now ttl resource_id w ≡ (ok r, w')) where
    valid : is_valid_request owner_type owner ttl ≡ true
    valid = elim (Bool-cases (is_valid_request owner_type owner ttl)) [
      | inl v ↦ v
      | inr v ↦ absurd (
          ground
            (arith, done, acquire_lease_invalid case_id owner owner_type now ttl resource_id w v))
    ]

    Acquired-new : get_lease case_id w.db ≡ none → Acquired r w'
    Acquired-new h =
        let fresh = new_lease case_id resource kind owner at ttl in
        let v = with_leases (after_now now w) (insert_or_ignore lease_key fresh w.db.leases) in
        let (same, found) =
          announce-SameTables case_id kind owner 1 resource (at + ttl) v (
            rw (acquire_lease_new case_id owner owner_type now ttl resource_id w valid h) at
              done) in
        let row : r ≡ fresh = ground (
          arith,
          h,
          found,
          ==_refl case_id,
          select_one-insert_or_ignore lease_key case_id fresh w.db.leases,
        ) in
        (
          ground (arith, h),
          ground (arith, h, row),
          record {
            written = λ j. ground (
              arith,
              h,
              row,
              same.leases,
              string_eq.beq_iff case_id j,
              select_one-insert_or_ignore lease_key j fresh w.db.leases,
            );
            unique =
                rw same.leases (insert_or_ignore-KeysUnique lease_key fresh w.db.leases unique);
          },
        )

    Acquired-again :
        (l : LeaseRecord)
        → get_lease case_id w.db ≡ some l
        → is_available kind owner at (some l) ≡ true
        → lease_is_active l at ≡ true
        → Acquired r w'
    unfolding contend
    Acquired-again l h free act =
        let renewed : heartbeat_lease case_id owner l.fencing_token (some at) ttl (after_now now w)
            ≡ (ok r, w') =
          ground (
            arith,
            h,
            free,
            act,
            done,
            acquire_lease_there case_id owner owner_type now ttl resource_id w l valid h,
          ) in
        let (live, row, held) =
          heartbeat_lease_there case_id (after_now now w) (ground (arith, unique)) owner
            l.fencing_token (some at) ttl l (ground (arith, h)) renewed in
        (
          ground (arith, h, free),
          ground (arith, h, act, row),
          record { written = λ j. ground (arith, row, held.written j); unique = held.unique },
        )

    Acquired-idle :
        (l : LeaseRecord)
        → get_lease case_id w.db ≡ some l
        → lease_is_active l at ≡ false
        → Acquired r w'
    unfolding contend
    Acquired-idle l h act =
        let taken : take_over l case_id resource kind owner at ttl (after_now now w) ≡ (ok r, w') =
          ground (
            arith,
            h,
            act,
            done,
            acquire_lease_there case_id owner owner_type now ttl resource_id w l valid h,
          ) in
        let (row, held) =
          take_over-Held case_id (after_now now w) (ground (arith, unique)) resource kind owner at
            ttl l (ground (arith, h)) act taken in
        (
          ground (arith, h, act),
          ground (arith, h, act, row),
          record { written = λ j. ground (arith, row, held.written j); unique = held.unique },
        )

    -- Where leases have unique keys: an acquisition that returns was entitled to the lease: nobody held it, or it had lapsed or
    -- been released, or the owner itself held it. The row that it returns is the one in the table:
    -- new with token 1, extended with its token, or taken over with the next token. Every other
    -- lease is as before, and keys stay unique.
    pub acquire_lease-Acquired : Acquired r w'
    acquire_lease-Acquired = elim (Option-cases (get_lease case_id w.db)) [
      | inl h ↦ Acquired-new h
      | inr (l, h) ↦ elim (Bool-cases (lease_is_active l at)) [
        | inr idle ↦ Acquired-idle l h idle
        | inl act ↦ elim (Bool-cases (is_available kind owner at (some l))) [
          | inl free ↦ Acquired-again l h free act
          | inr busy ↦ absurd (ground (arith, done, acquire_lease_refused l h busy))
        ]
      ]
    ]
