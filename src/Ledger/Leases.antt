-- ===== src/Ledger/Leases.antt =====
-- Single-owner leases (acquire_lease, get_lease, validate_lease_token, heartbeat_lease,
-- release_lease and _lease_is_active of tandem/ledger/repository.py). Durations are microseconds,
-- and not negative.
pub mod Forms
pub mod Exclusive
pub mod History
pub mod Kept
use tandem_interface_ai.Prelude.{
  ℕ, ◌+◌, String, Bool, true, false, not, ◌&&◌, ◌||◌, Option, none, some, is_some, ltb, leb,
  nat_beq, if◌then◌else◌,
}
use tandem_interface_ai.Prelude.Eq.{◌==◌, nat_eq, string_eq}
use tandem_interface_ai.Prelude.Table.{select_one, insert_or_ignore, update_where, rowcount}
use package.text.Mathlib.Text.{starts_with}
use tandem_interface_ai.Domain.Values.{Dict, text, int, instant, end, entry}
use tandem_interface_ai.Domain.Errors.{value_error, runtime_error, lease_conflict}
use tandem_interface_ai.Ledger.Models.{LeaseRecord}
use tandem_interface_ai.Ledger.Session.{
  Db, M, ◌>>=◌, ◌>>◌, pure, raise, gets, modify_db, or_now, or_raise, raise_if,
}
use tandem_interface_ai.Ledger.Events.{record_event}

abbrev pub lease_key : LeaseRecord → String
lease_key l = l.case_id

abbrev pub get_lease : String → Db → Option LeaseRecord
get_lease case_id d = select_one lease_key case_id d.leases

unfoldable pub lease_is_active : LeaseRecord → ℕ → Bool
lease_is_active l now = not (is_some l.released_at) && ltb now l.expires_at

-- `owner_type or ("AUTOMATION" if owner.startswith("AUTOMATION") else "HUMAN")`
unfoldable pub normalized_type : Option String → String → String
normalized_type (some String.[]) owner =
    if starts_with owner "AUTOMATION" then "AUTOMATION" else "HUMAN"
normalized_type (some t) owner = t
normalized_type none owner = if starts_with owner "AUTOMATION" then "AUTOMATION" else "HUMAN"

-- `resource_id or case_id`
abbrev pub or_text : Option String → String → String
or_text none d = d
or_text (some String.[]) d = d
or_text (some s) d = s

unfoldable pub record_acquired : String → String → String → ℕ → String → ℕ → M (Unit {0})
record_acquired case_id owner_type owner token resource expires_at = do
  record_event case_id "CONTROL_LEASE_ACQUIRED" "ownership" owner_type (
      some (
        entry "owner_type" (text owner_type) (
          entry "owner_id" (text owner) (
            entry "fencing_token" (int token) (
              entry "resource_id" (text resource) (entry "expires_at" (instant expires_at) end))))))
  pure tt

-- The end of an acquisition: its audit event and the row as it now is.
unfoldable pub announce : String → String → String → ℕ → String → ℕ → M LeaseRecord
announce case_id owner_type owner token resource expires_at = do
  record_acquired case_id owner_type owner token resource expires_at
  found ← gets (λ w. get_lease case_id w.db)
  or_raise found runtime_error

-- The rows that a heartbeat may extend: the owner's live lease, with its token.
abbrev pub is_live_holder : String → ℕ → ℕ → LeaseRecord → Bool
is_live_holder owner_id fencing_token at l =
    l.owner_id == owner_id
    && l.fencing_token == fencing_token
    && not (is_some l.released_at)
    && ltb at l.expires_at

abbrev pub extended : ℕ → ℕ → LeaseRecord → LeaseRecord
extended at ttl l = record l { heartbeat_at = at; expires_at = at + ttl; version = l.version + 1 }

unfoldable pub heartbeat_lease : String → String → ℕ → Option ℕ → ℕ → M LeaseRecord
heartbeat_lease case_id owner_id fencing_token now ttl = do
  at ← or_now now
  count ←
      gets (λ w. rowcount lease_key case_id (is_live_holder owner_id fencing_token at) w.db.leases)
  modify_db (λ d. record d {
    leases =
        update_where lease_key case_id (is_live_holder owner_id fencing_token at) (extended at ttl)
          d.leases;
  })
  raise_if (not (count == 1)) lease_conflict
  found ← gets (λ w. get_lease case_id w.db)
  or_raise found runtime_error

-- The rows that a takeover may write: the version that was read, released or expired.
abbrev pub is_abandoned : ℕ → ℕ → LeaseRecord → Bool
is_abandoned version at l = l.version == version && (is_some l.released_at || leb l.expires_at at)

-- What a takeover writes.
abbrev pub taken_over : LeaseRecord → String → String → String → ℕ → ℕ → LeaseRecord → LeaseRecord
taken_over seen resource owner_type owner at ttl l = record l {
  resource_id = resource;
  owner_type = owner_type;
  owner_id = owner;
  fencing_token = seen.fencing_token + 1;
  version = seen.version + 1;
  acquired_at = at;
  heartbeat_at = at;
  expires_at = at + ttl;
  released_at = none;
}

unfoldable pub take_over : LeaseRecord → String → String → String → String → ℕ → ℕ → M LeaseRecord
take_over seen case_id resource owner_type owner at ttl = do
  count ← gets (λ w. rowcount lease_key case_id (is_abandoned seen.version at) w.db.leases)
  modify_db (λ d. record d {
    leases =
        update_where lease_key case_id (is_abandoned seen.version at)
          (taken_over seen resource owner_type owner at ttl) d.leases;
  })
  raise_if (not (count == 1)) lease_conflict
  announce case_id owner_type owner (seen.fencing_token + 1) resource (at + ttl)

-- A lease that is there: renewed by its own owner, refused to others while it is active, taken over
-- once it is not.
unfoldable pub contend : LeaseRecord → String → String → String → String → ℕ → ℕ → M LeaseRecord
contend l case_id resource owner_type owner at ttl =
    if lease_is_active l at
    then (if not (l.owner_id == owner) || not (l.owner_type == owner_type)
        then raise lease_conflict
        else heartbeat_lease case_id owner l.fencing_token (some at) ttl)
    else take_over l case_id resource owner_type owner at ttl

-- The row that a first acquisition inserts.
abbrev pub new_lease : String → String → String → String → ℕ → ℕ → LeaseRecord
new_lease case_id resource owner_type owner at ttl = record {
  case_id = case_id;
  resource_id = resource;
  owner_type = owner_type;
  owner_id = owner;
  fencing_token = 1;
  version = 1;
  acquired_at = at;
  heartbeat_at = at;
  expires_at = at + ttl;
  released_at = none;
}

unfoldable pub insert_or_contend : Bool → String → String → String → String → ℕ → ℕ → M LeaseRecord
insert_or_contend inserted case_id resource owner_type owner at ttl =
    if inserted then announce case_id owner_type owner 1 resource (at + ttl) else (do
      found ← gets (λ w. get_lease case_id w.db)
      l ← or_raise found runtime_error
      contend l case_id resource owner_type owner at ttl)

unfoldable pub acquire_lease :
    String → String → Option String → Option ℕ → ℕ → Option String → M LeaseRecord
acquire_lease case_id owner owner_type now ttl resource_id = do
  at ← or_now now
  let kind = normalized_type owner_type owner
  raise_if (not (kind == "AUTOMATION" || kind == "HUMAN")) value_error
  raise_if (ttl == 0) value_error
  before ← gets (λ w. get_lease case_id w.db)
  modify_db (λ d. record d {
    leases =
        insert_or_ignore lease_key
          (new_lease case_id (or_text resource_id case_id) kind owner at ttl) d.leases;
  })
  insert_or_contend (not (is_some before)) case_id (or_text resource_id case_id) kind owner at ttl

unfoldable pub validate_lease_token : String → String → ℕ → ℕ → Db → Bool
unfolding lease_is_active
validate_lease_token case_id owner_id fencing_token now d = elim (get_lease case_id d) [
  | none ↦ false
  | some l ↦ l.owner_id == owner_id && l.fencing_token == fencing_token && lease_is_active l now
]

abbrev matches_optional : Option String → String → Bool
matches_optional none s = true
matches_optional (some t) s = s == t

abbrev matches_token : Option ℕ → ℕ → Bool
matches_token none n = true
matches_token (some m) n = n == m

-- The rows that a release may touch.
abbrev pub is_releasable : Option String → Option ℕ → LeaseRecord → Bool
is_releasable owner_id fencing_token l =
    not (is_some l.released_at)
    && matches_optional owner_id l.owner_id
    && matches_token fencing_token l.fencing_token

abbrev pub released : ℕ → LeaseRecord → LeaseRecord
released at l = record l {
  released_at = some at;
  expires_at = at;
  heartbeat_at = at;
  version = l.version + 1;
}

unfoldable pub record_released : Bool → String → LeaseRecord → ℕ → M (Unit {0})
record_released false case_id l at = pure tt
record_released true case_id l at = do
  record_event case_id "CONTROL_LEASE_RELEASED" "ownership" l.owner_type (
      some (
        entry "owner_type" (text l.owner_type) (
          entry "owner_id" (text l.owner_id)
            (entry "fencing_token" (int l.fencing_token) (entry "released_at" (instant at) end)))))
  pure tt

unfoldable pub release_found :
    Option LeaseRecord → String → Option String → Option ℕ → ℕ → M (Option LeaseRecord)
release_found none case_id owner_id fencing_token at = pure none
release_found (some l) case_id owner_id fencing_token at = do
  count ← gets (λ w. rowcount lease_key case_id (is_releasable owner_id fencing_token) w.db.leases)
  modify_db (λ d. record d {
    leases =
        update_where lease_key case_id (is_releasable owner_id fencing_token) (released at)
          d.leases;
  })
  raise_if (not (count == 1) && (is_some owner_id || is_some fencing_token)) lease_conflict
  record_released (count == 1) case_id l at
  gets (λ w. get_lease case_id w.db)

unfoldable pub release_lease : String → Option String → Option ℕ → Option ℕ → M (Option LeaseRecord)
release_lease case_id owner_id fencing_token now = do
  at ← or_now now
  found ← gets (λ w. get_lease case_id w.db)
  release_found found case_id owner_id fencing_token at
