-- ===== src/Ledger/Session.antt =====
-- The database session: the tables as the open transaction sees them, the last committed state,
-- and the readings of the world (the clock, fresh identifiers, JSON text, SHA-256), which are
-- parameters. An action returns its value or raises, and keeps what it has written either way.
pub mod Bind
use tandem_interface_ai.Prelude.{ℕ, suc, String, Bool, true, false, Option, none, some, List, []}
use tandem_interface_ai.Domain.Values.{Dict}
pub use tandem_interface_ai.Domain.Errors.{Result, ok, raised}
use tandem_interface_ai.Domain.Errors.{Error, integrity_error}
use tandem_interface_ai.Ledger.Models.{
  ProcedureCaseRecord, ProcedureEventRecord, EventStreamHeadRecord, CapabilityExecutionRecord,
  EffectIntentRecord, EffectClaimRecord, DeadlineRecord, ObligationRecord, LeaseRecord,
  BrowserSessionRecord, HumanHandoffRecord,
}

pub record Db : Type 0 where
  pub cases : List ProcedureCaseRecord
  pub events : List ProcedureEventRecord
  pub heads : List EventStreamHeadRecord
  pub executions : List CapabilityExecutionRecord
  pub intents : List EffectIntentRecord
  pub claims : List EffectClaimRecord
  pub deadlines : List DeadlineRecord
  pub obligations : List ObligationRecord
  pub leases : List LeaseRecord
  pub sessions : List BrowserSessionRecord
  pub handoffs : List HumanHandoffRecord

abbrev pub empty_db : Db
empty_db = record {
  cases = [];
  events = [];
  heads = [];
  executions = [];
  intents = [];
  claims = [];
  deadlines = [];
  obligations = [];
  leases = [];
  sessions = [];
  handoffs = [];
}

-- The fields of an event that its digest covers.
pub record Envelope : Type 0 where
  pub actor : String
  pub case_id : String
  pub created_at : String
  pub event_id : String
  pub event_type : String
  pub payload : Option String
  pub previous_event_hash : String
  pub sequence : ℕ
  pub step_name : String

-- What the program takes from its platform: the n-th reading of the clock, the n-th fresh UUID, the
-- ISO text of an instant, the canonical JSON text of a payload and of an envelope, and SHA-256.
pub record Env : Type 0 where
  pub clock : ℕ → ℕ
  pub uuid : ℕ → String
  pub isoformat : ℕ → String
  pub dumps : Dict → String
  pub dumps_envelope : Envelope → String
  pub sha256 : String → String

pub record World : Type 0 where
  pub env : Env
  pub db : Db
  pub durable : Db
  pub readings : ℕ
  pub uuids : ℕ

abbrev pub M : Type 0 → Type 0
M A = World → Result A × World

abbrev pub continue : {A B : Type 0} → Result A → (A → M B) → M B
continue (ok a) f w = f a w
continue (raised e) f w = (raised e, w)

infixl 5 ◌>>=◌ ◌>>◌
abbrev pub ◌>>=◌ : {A B : Type 0} → M A → (A → M B) → M B
◌>>=◌ m f w = let (r, w') = m w in continue r f w'

abbrev pub ◌>>◌ : {A B : Type 0} → M A → M B → M B
m >> k = m >>= λ _. k

abbrev pub pure : {A : Type 0} → A → M A
pure a w = (ok a, w)

abbrev pub raise : {A : Type 0} → Error → M A
raise e w = (raised e, w)

abbrev pub gets : {A : Type 0} → (World → A) → M A
gets f w = (ok (f w), w)

abbrev pub get_db : M Db
get_db w = (ok w.db, w)

abbrev pub get_env : M Env
get_env w = (ok w.env, w)

abbrev pub modify_db : (Db → Db) → M (Unit {0})
modify_db f w = (ok tt, record w { db = f w.db })

-- `datetime.now(timezone.utc)`
abbrev pub now_utc : M ℕ
now_utc w = (ok (w.env.clock w.readings), record w { readings = suc w.readings })

-- `now or datetime.now(timezone.utc)`
abbrev pub or_now : Option ℕ → M ℕ
or_now none = now_utc
or_now (some t) = pure t

-- `str(uuid4())`
abbrev pub new_uuid : M String
new_uuid w = (ok (w.env.uuid w.uuids), record w { uuids = suc w.uuids })

-- `session.commit()`
abbrev pub commit : M (Unit {0})
commit w = (ok tt, record w { durable = w.db })

-- A flush that breaks a constraint rolls the transaction back and raises.
abbrev pub constrain : Bool → M (Unit {0})
constrain true w = (ok tt, w)
constrain false w = (raised integrity_error, record w { db = w.durable })

abbrev pub or_raise : {A : Type 0} → Option A → Error → M A
or_raise none e = raise e
or_raise (some a) e = pure a

abbrev pub raise_if : Bool → Error → M (Unit {0})
raise_if true e = raise e
raise_if false e = pure tt

-- A result of pure code.
abbrev pub lift : {A : Type 0} → Result A → M A
lift r w = (r, w)

abbrev pub handle : {A : Type 0} → (Error → M A) → Result A × World → Result A × World
handle h (ok a, w) = (ok a, w)
handle h (raised e, w) = h e w

-- `try: ... except Exception: ...`
abbrev pub attempt : {A : Type 0} → M A → (Error → M A) → M A
attempt m h w = handle h (m w)
