-- ===== src/Ledger/Leases/History.antt =====
-- Histories of the leases table: automation workers and human operators acquire, extend and release
-- leases in any order.
use tandem_interface_ai.Prelude.{
  ℕ, ◌+◌, String, ◌≡◌, ◌≢◌, refl, ap, Bool, true, false, Option, none, some, arith, is_some, ◌&&◌,
  ◌||◌, ltb, inl, inr, Option-cases, Bool-cases,
}
use tandem_interface_ai.Prelude.Eq.{◌==◌, nat_eq, string_eq, ==_refl}
use tandem_interface_ai.Prelude.Table.{
  update_where, KeysUnique, select_one-update_where, rowcount-KeysUnique, update_where-KeysUnique,
  key-select_one,
}
use tandem_interface_ai.Ledger.Models.{LeaseRecord}
use tandem_interface_ai.Ledger.Session.{World, Result, ok, ◌>>◌, gets}
use tandem_interface_ai.Ledger.Session.Bind.{>>=-eq-ok}
use tandem_interface_ai.Ledger.Events.Frame.{SameTables, log-SameTables}
use tandem_interface_ai.Ledger.Claims.Forms.{time_of, after_now}
use tandem_interface_ai.Ledger.Leases.{
  lease_key, get_lease, lease_is_active, extended, heartbeat_lease, acquire_lease, is_releasable,
  released, record_released, release_found, release_lease, validate_lease_token,
}
use tandem_interface_ai.Ledger.Leases.Forms.{with_leases}
use tandem_interface_ai.Ledger.Leases.Exclusive.{
  Held, update-Held, heartbeat_lease_there, heartbeat_lease-none, acquire_lease-Acquired,
}

record_released-SameTables :
    (b : Bool) (case_id : String) (l : LeaseRecord) (at : ℕ) (w : World) {w' : World}
    → record_released b case_id l at w ≡ (ok tt, w')
    → SameTables w w'
unfolding record_released
record_released-SameTables true case_id l at w h = log-SameTables _ _ _ _ _ w h
record_released-SameTables false case_id l at w h = ground arith

finish-SameTables :
    (case_id : String) (l : LeaseRecord) (at : ℕ) (v : World) {o : Option LeaseRecord} {w' : World}
    → (record_released true case_id l at >> gets (λ x. get_lease case_id x.db)) v ≡ (ok o, w')
    → SameTables v w' × (o ≡ get_lease case_id v.db)
finish-SameTables case_id l at v {o} {w'} done =
    let (x, u, called, ended) =
      >>=-eq-ok (record_released true case_id l at) (λ _. gets (λ y. get_lease case_id y.db)) v
        done in
    let same = record_released-SameTables true case_id l at v called in
    let ends : u ≡ w' = ap (λ (y : Result (Option LeaseRecord) × World). y.1) ended in
    (rw ends at same, ground (arith, ended, same.leases))

module _ (case_id : String) (owner_id : Option String) (token now : Option ℕ) (w : World) where
  abbrev at : ℕ
  at = time_of now w

  abbrev gone : LeaseRecord → Bool
  gone = is_releasable owner_id token

  abbrev after : World
  after =
      with_leases (after_now now w) (update_where lease_key case_id gone (released at) w.db.leases)

  release_lease_found :
      (l : LeaseRecord)
      → KeysUnique lease_key w.db.leases
      → get_lease case_id w.db ≡ some l
      → gone l ≡ true
      → release_lease case_id owner_id token now w
        ≡ (record_released true case_id l at >> gets (λ x. get_lease case_id x.db)) after
  unfolding release_lease release_found
  release_lease_found l u h p =
      ground (arith, h, p, rowcount-KeysUnique lease_key case_id gone w.db.leases u)

  -- A release that returns, of a lease that the request names, sets its release time.
  pub release_lease-Held :
      (l : LeaseRecord) {o : Option LeaseRecord} {w' : World}
      → KeysUnique lease_key w.db.leases
      → get_lease case_id w.db ≡ some l
      → gone l ≡ true
      → release_lease case_id owner_id token now w ≡ (ok o, w')
      → (o ≡ some (released at l)) × Held case_id (released at l) w w'
  release_lease-Held l {o} {w'} u h p done =
      let (same, found) =
        finish-SameTables case_id l at after (rw (release_lease_found l u h p) at done) in
      (
        ground (
          arith,
          p,
          h,
          found,
          ==_refl case_id,
          key-select_one lease_key case_id w.db.leases h,
          select_one-update_where lease_key (released at) (λ x. refl) case_id case_id gone
              w.db.leases,
        ),
        update-Held case_id gone (released at) (λ x. refl) l w w' u h p same.leases,
      )

  -- A release of a lease that the request does not name leaves the table alone.
  pub release_lease_other :
      (l : LeaseRecord) {o : Option LeaseRecord} {w' : World}
      → KeysUnique lease_key w.db.leases
      → get_lease case_id w.db ≡ some l
      → gone l ≡ false
      → release_lease case_id owner_id token now w ≡ (ok o, w')
      → Held case_id l w w'
  unfolding release_lease release_found record_released
  release_lease_other l {o} {w'} u h p done =
      let counted = rowcount-KeysUnique lease_key case_id gone w.db.leases u in
      let table : w'.db.leases ≡ update_where lease_key case_id gone (released at) w.db.leases =
        ground (arith, h, p, counted, done) in
      record {
        written = λ j. elim (Option-cases (get_lease j w.db)) [
          | inl nothing ↦ ground (
            arith,
            h,
            nothing,
            table,
            string_eq.beq_iff case_id j,
            select_one-update_where lease_key (released at) (λ x. refl) j case_id gone w.db.leases,
          )
          | inr (x, there) ↦ ground (
            arith,
            h,
            p,
            there,
            table,
            key-select_one lease_key j w.db.leases there,
            string_eq.beq_iff x.case_id case_id,
            string_eq.beq_iff case_id j,
            select_one-update_where lease_key (released at) (λ x. refl) j case_id gone w.db.leases,
          )
        ];
        unique = rw table (
            update_where-KeysUnique lease_key (released at) (λ x. refl) case_id gone w.db.leases u);
      }

  pub release_lease-none :
      {o : Option LeaseRecord} {w' : World}
      → get_lease case_id w.db ≡ none
      → release_lease case_id owner_id token now w ≡ (ok o, w')
      → w'.db.leases ≡ w.db.leases
  unfolding release_lease release_found
  release_lease-none h done = ground (arith, h, done)

-- One step of a history: a lease operation that returned, or work that leaves the leases alone.
pub data Step (w w' : World) : Type 0 where
  acquire :
      (case_id owner : String) (owner_type : Option String) (now : Option ℕ) (ttl : ℕ)
      (resource_id : Option String) (r : LeaseRecord)
      → acquire_lease case_id owner owner_type now ttl resource_id w ≡ (ok r, w')
      → Step w w'
  heartbeat :
      (case_id owner : String) (token : ℕ) (now : Option ℕ) (ttl : ℕ) (r : LeaseRecord)
      → heartbeat_lease case_id owner token now ttl w ≡ (ok r, w')
      → Step w w'
  release :
      (case_id : String) (owner : Option String) (token now : Option ℕ) (o : Option LeaseRecord)
      → release_lease case_id owner token now w ≡ (ok o, w')
      → Step w w'
  other : w'.db.leases ≡ w.db.leases → Step w w'

pub data Reach (w : World) : World → Type 0 where
  here : Reach w w
  next : {v u : World} → Reach w v → Step v u → Reach w u

abbrev pub UniqueLeases : World → Type 0
UniqueLeases w = KeysUnique lease_key w.db.leases

-- A token that is over: a later one has been given out, or its lease has been released.
abbrev pub is_over : ℕ → Option LeaseRecord → Bool
is_over t none = false
is_over t (some l) = ltb t l.fencing_token || (l.fencing_token == t && is_some l.released_at)

-- What one step does to the leases: it writes one row, which keeps the tokens that are over, or none.
record Written (w w' : World) : Type 0 where
  pub stays :
      (j : String) (t : ℕ)
      → is_over t (get_lease j w.db) ≡ true
      → is_over t (get_lease j w'.db) ≡ true
  pub unique : UniqueLeases w'

Held-Written :
    (c : String) (row : LeaseRecord) {w w' : World}
    → ((t : ℕ) → is_over t (get_lease c w.db) ≡ true → is_over t (some row) ≡ true)
    → Held c row w w'
    → Written w w'
Held-Written c row k h = record {
  stays = λ j t o. ground (arith, h.written j, k t, string_eq.beq_iff c j);
  unique = h.unique;
}

Same-Written : {w w' : World} → UniqueLeases w → w'.db.leases ≡ w.db.leases → Written w w'
Same-Written u h = record { stays = λ j t o. ground (arith, h, o); unique = rw h u }

heartbeat-Written :
    (c owner : String) (token : ℕ) (now : Option ℕ) (ttl : ℕ) {w w' : World} {r : LeaseRecord}
    → UniqueLeases w
    → heartbeat_lease c owner token now ttl w ≡ (ok r, w')
    → Written w w'
heartbeat-Written c owner token now ttl {w} u h = elim (Option-cases (get_lease c w.db)) [
  | inl nothing ↦ absurd (heartbeat_lease-none c w u owner token now ttl nothing h)
  | inr (l, there) ↦
      let (live, row, held) = heartbeat_lease_there c w u owner token now ttl l there h in
      Held-Written c (extended (time_of now w) ttl l) (λ t o. ground (arith, there, o)) held
]

acquire-Written :
    (c owner : String) (kind : Option String) (now : Option ℕ) (ttl : ℕ) (res : Option String)
    {w w' : World} {r : LeaseRecord}
    → UniqueLeases w
    → acquire_lease c owner kind now ttl res w ≡ (ok r, w')
    → Written w w'
unfolding lease_is_active
acquire-Written c owner kind now ttl res {w} {w'} {r} u h =
    let (free, row, held) = acquire_lease-Acquired c owner kind now ttl res w u h in
    Held-Written c r
      (λ t o. elim (Option-cases (get_lease c w.db)) [
        | inl nothing ↦ absurd (ground (arith, nothing, o))
        | inr (l, there) ↦ elim (Bool-cases (lease_is_active l (time_of now w))) [
          | inl act ↦ ground (arith, there, act, row, o)
          | inr idle ↦ ground (arith, there, idle, row, o)
        ]
      ])
      held

release-Written :
    (c : String) (owner : Option String) (token now : Option ℕ) {w w' : World}
    {o : Option LeaseRecord}
    → UniqueLeases w
    → release_lease c owner token now w ≡ (ok o, w')
    → Written w w'
release-Written c owner token now {w} u h = elim (Option-cases (get_lease c w.db)) [
  | inl nothing ↦ Same-Written u (release_lease-none c owner token now w nothing h)
  | inr (l, there) ↦ elim (Bool-cases (is_releasable owner token l)) [
    | inl p ↦
        Held-Written c (released (time_of now w) l) (λ t over. ground (arith, there, over))
          (release_lease-Held c owner token now w l u there p h).1
    | inr p ↦
        Held-Written c l (λ t over. ground (arith, there, over))
          (release_lease_other c owner token now w l u there p h)
  ]
]

Step-Written : {w w' : World} → UniqueLeases w → Step w w' → Written w w'
Step-Written u (acquire c owner kind now ttl res r h) = acquire-Written c owner kind now ttl res u h
Step-Written u (heartbeat c owner token now ttl r h) = heartbeat-Written c owner token now ttl u h
Step-Written u (release c owner token now o h) = release-Written c owner token now u h
Step-Written u (other h) = Same-Written u h

Reach-Written : {w w' : World} → UniqueLeases w → Reach w w' → Written w w'
Reach-Written u here = record { stays = λ j t o. o; unique = u }
Reach-Written {w} unique (next {v} {u} r st) =
    let before : Written w v = Reach-Written unique r in
    let step : Written v u = Step-Written before.unique st in
    record { stays = λ j t o. step.stays j t (before.stays j t o); unique = step.unique }

-- Where leases have unique keys: once a lease's token is over (a later one has been given out, or the lease has been released), it
-- stays over, whatever the workers and operators do: it never validates again, for any owner at any
-- instant, and no heartbeat with it returns.
pub over_stays_fenced :
    (case_id owner : String) (token : ℕ) {w v : World}
    → UniqueLeases w
    → is_over token (get_lease case_id w.db) ≡ true
    → Reach w v
    → ((at : ℕ) → validate_lease_token case_id owner token at v.db ≡ false)
      × ((now : Option ℕ) (ttl : ℕ) (r : LeaseRecord) (u : World)
          → heartbeat_lease case_id owner token now ttl v ≢ (ok r, u))
unfolding validate_lease_token lease_is_active
over_stays_fenced c owner token {w} {v} unique over r =
    let held = Reach-Written unique r in
    let still = held.stays c token over in
    elim (Option-cases (get_lease c v.db)) [
      | inl nothing ↦ absurd (ground (arith, nothing, still))
      | inr (l, there) ↦ (
        (λ at. ground (arith, there, still)),
        (λ now ttl x u h. ground (
          arith,
          there,
          still,
          (heartbeat_lease_there c v held.unique owner token now ttl l there h).0,
        )),
      )
    ]

-- Where leases have unique keys: when a lapsed or released lease is taken over, the next token is given out, and the former
-- holder's token never validates again, in any later history.
pub former_owner_fenced :
    (case_id owner : String) (owner_type : Option String) (now : Option ℕ) (ttl : ℕ)
    (resource_id : Option String) (l : LeaseRecord) (w w' v : World) {r : LeaseRecord}
    → UniqueLeases w
    → get_lease case_id w.db ≡ some l
    → lease_is_active l (time_of now w) ≡ false
    → acquire_lease case_id owner owner_type now ttl resource_id w ≡ (ok r, w')
    → Reach w' v
    → (r.fencing_token ≡ l.fencing_token + 1)
      × ((holder : String) (at : ℕ)
          → validate_lease_token case_id holder l.fencing_token at v.db ≡ false)
former_owner_fenced c owner kind now ttl res l w w' v {r} unique there idle h reach =
    let (free, row, held) = acquire_lease-Acquired c owner kind now ttl res w unique h in
    let next : r.fencing_token ≡ l.fencing_token + 1 = ground (arith, there, idle, row) in
    let over : is_over l.fencing_token (get_lease c w'.db) ≡ true =
      ground (arith, next, held.written c, string_eq.beq_iff c c) in
    (next, λ holder at. (over_stays_fenced c holder l.fencing_token held.unique over reach).0 at)
