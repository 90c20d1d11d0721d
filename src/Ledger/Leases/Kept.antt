-- ===== src/Ledger/Leases/Kept.antt =====
-- The operations on leases leave the claims alone when they return.
use tandem_interface_ai.Prelude.{
  ℕ, String, ◌≡◌, refl, ◌∙◌, Bool, true, false, not, ◌&&◌, ◌||◌, Option, none, some, arith, inl,
  inr, is_some, Option-cases, Bool-cases,
}
use tandem_interface_ai.Prelude.Eq.{nat_eq, string_eq, ◌==◌}
use tandem_interface_ai.Prelude.Table.{rowcount}
use tandem_interface_ai.Ledger.Models.{LeaseRecord}
use tandem_interface_ai.Ledger.Session.{World, or_raise, or_now, raise_if}
use tandem_interface_ai.Ledger.Session.Bind.{>>=-eq-ok}
use tandem_interface_ai.Ledger.Claims.Kept.{
  KeepsClaims, kept_log, kept_or_raise, kept_gets, kept_or_now,
}
use tandem_interface_ai.Ledger.Leases.Forms.{
  acquire_lease_new, acquire_lease_there, acquire_lease_invalid, is_valid_request,
}
use tandem_interface_ai.Ledger.Claims.Forms.{after_now}
use tandem_interface_ai.Ledger.Leases.{
  lease_key, get_lease, lease_is_active, is_releasable, is_abandoned, acquire_lease,
  heartbeat_lease, release_lease, release_found, record_released, record_acquired, announce,
  take_over, contend, insert_or_contend,
}

after_now-claims : (now : Option ℕ) (w : World) → (after_now now w).db.claims ≡ w.db.claims
after_now-claims none w = refl
after_now-claims (some t) w = refl

kept_announce :
    (case_id kind owner : String) (token : ℕ) (resource : String) (until : ℕ)
    → KeepsClaims (announce case_id kind owner token resource until)
unfolding announce record_acquired
kept_announce case_id kind owner token resource until w b w' h =
    let (u, v, logged, next) =
      >>=-eq-ok (record_acquired case_id kind owner token resource until) _ w h in
    kept_or_raise _ _ v b w' next ∙ kept_log _ _ _ _ _ w u v logged

pub kept_heartbeat_lease :
    (case_id owner : String) (token : ℕ) (now : Option ℕ) (ttl : ℕ)
    → KeepsClaims (heartbeat_lease case_id owner token now ttl)
unfolding heartbeat_lease
kept_heartbeat_lease case_id owner token none ttl w b w' h = ground (arith, h)
kept_heartbeat_lease case_id owner token (some t) ttl w b w' h = ground (arith, h)

kept_take_over :
    (l : LeaseRecord) (case_id resource kind owner : String) (at ttl : ℕ)
    → KeepsClaims (take_over l case_id resource kind owner at ttl)
unfolding take_over
kept_take_over l case_id resource kind owner at ttl w b w' h =
    elim (Bool-cases
      (not (rowcount lease_key case_id (is_abandoned l.version at) w.db.leases == 1))) [
        | inl lost ↦ absurd (ground (arith, lost, h))
        | inr won ↦ kept_announce _ _ _ _ _ _ _ b w' (rw (won, raise_if) at h)
      ]

kept_contend :
    (l : LeaseRecord) (case_id resource kind owner : String) (at ttl : ℕ)
    → KeepsClaims (contend l case_id resource kind owner at ttl)
unfolding contend
kept_contend l case_id resource kind owner at ttl w b w' h =
    elim (Bool-cases (lease_is_active l at)) [
      | inr idle ↦ kept_take_over l case_id resource kind owner at ttl w b w' (rw idle at h)
      | inl act ↦ elim (Bool-cases (not (l.owner_id == owner) || not (l.owner_type == kind))) [
        | inl other ↦ absurd (ground (arith, act, other, h))
        | inr own ↦
            kept_heartbeat_lease case_id owner l.fencing_token (some at) ttl w b w'
              (rw own at (rw act at h))
      ]
    ]

kept_insert_or_contend :
    (inserted : Bool) (case_id resource kind owner : String) (at ttl : ℕ)
    → KeepsClaims (insert_or_contend inserted case_id resource kind owner at ttl)
unfolding insert_or_contend
kept_insert_or_contend true case_id resource kind owner at ttl w b w' h =
    kept_announce _ _ _ _ _ _ w b w' h
kept_insert_or_contend false case_id resource kind owner at ttl w b w' h =
    elim (Option-cases (get_lease case_id w.db)) [
      | inl nothing ↦ absurd (ground (arith, nothing, h))
      | inr (l, there) ↦
          kept_contend l case_id resource kind owner at ttl w b w' (rw (there, or_raise) at h)
    ]

pub kept_acquire_lease :
    (case_id owner : String) (kind : Option String) (now : Option ℕ) (ttl : ℕ)
    (resource : Option String)
    → KeepsClaims (acquire_lease case_id owner kind now ttl resource)
kept_acquire_lease case_id owner kind now ttl resource w b w' h =
    elim (Bool-cases (is_valid_request kind owner ttl)) [
      | inr bad ↦
          absurd
            (ground (arith, h, acquire_lease_invalid case_id owner kind now ttl resource w bad))
      | inl good ↦ elim (Option-cases (get_lease case_id w.db)) [
        | inl nothing ↦
            kept_announce _ _ _ _ _ _ _ b w'
              (rw (acquire_lease_new case_id owner kind now ttl resource w good nothing) at h)
            ∙ after_now-claims now w
        | inr (l, there) ↦
            kept_contend l _ _ _ _ _ _ _ b w'
              (rw (acquire_lease_there case_id owner kind now ttl resource w l good there) at h)
            ∙ after_now-claims now w
      ]
    ]

kept_record_released :
    (b : Bool) (case_id : String) (l : LeaseRecord) (at : ℕ)
    → KeepsClaims (record_released b case_id l at)
unfolding record_released
kept_record_released true case_id l at w b w' h = kept_log _ _ _ _ _ w b w' h
kept_record_released false case_id l at w b w' h = ground (arith, h)

kept_release_found :
    (found : Option LeaseRecord) (case_id : String) (owner : Option String) (token : Option ℕ)
    (at : ℕ)
    → KeepsClaims (release_found found case_id owner token at)
unfolding release_found
kept_release_found none case_id owner token at w b w' h = ground (arith, h)
kept_release_found (some l) case_id owner token at w b w' h =
    let count = rowcount lease_key case_id (is_releasable owner token) w.db.leases in
    elim (Bool-cases (not (count == 1) && (is_some owner || is_some token))) [
      | inl lost ↦ absurd (ground (arith, lost, h))
      | inr won ↦
          let (t, y, logged, last) =
            >>=-eq-ok (record_released (count == 1) case_id l at) _ _ (rw (won, raise_if) at h) in
          kept_gets (λ x. get_lease case_id x.db) y b w' last
          ∙ kept_record_released _ case_id l at _ t y logged
    ]

pub kept_release_lease :
    (case_id : String) (owner : Option String) (token now : Option ℕ)
    → KeepsClaims (release_lease case_id owner token now)
unfolding release_lease
kept_release_lease case_id owner token now w b w' h =
    let (at, v, read, next) = >>=-eq-ok (or_now now) _ w h in
    kept_release_found _ case_id owner token at v b w' next ∙ kept_or_now now w at v read
