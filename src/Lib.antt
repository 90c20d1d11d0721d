-- ===== src/Lib.antt =====
-- Tandem: a durable, effect-aware runner of regulated procedures (Reg E disputes), which acts on
-- external banking systems and must not move money twice, nor claim an effect that is not there.
--
-- The parts and their files (source paths are from the repository's root):
--
-- - Prelude: shared helpers. Eq is Boolean equality as an instance, Int the signed cents, Lists
--   and Tests the list and Boolean functions over the native numbers, Substring `sub in s`
--   and `s.replace`, and Table a database table as the list of its rows, with the four statements that the program issues.
-- - Domain: tandem/domain. Outcomes (outcomes.py; Results is result_contract.py), Effects
--   (effects.py), Money (money.py), Identity (identity.py), Capability (capability.py; Safety is about
--   the artifacts that are loaded), Errors (errors.py), Fields, the inputs of a run and the answers of
--   a target, and Values, the dynamic values of event payloads.
-- - Workflow: tandem/workflow. StateMachine is state_machine.py, and Paths is about its runs.
--   Deadlines is deadlines.py over Calendar, which is Python's `datetime.date`: a day is its ordinal.
--   Progress is the part of reg_e.py that moves a case.
-- - Policy: tandem/policy/rules.py and engine.py.
-- - Ledger: tandem/ledger. Models are the tables (models.py). Session is what the operations use
--   of a database session: the tables of the open transaction, the last commit, and the readings of
--   the clock, of fresh identifiers, of JSON texts and of SHA-256. Each of Events, Cases,
--   Executions, Intents, Claims, Deadlines, Obligations, Leases and Sessions has the methods of
--   LedgerRepository (repository.py) for its tables, under their names; Service is service.py.
-- - Replay: tandem/replay. Inquiry and Checks are precheck.py, postcheck.py, reconciliation.py and
--   tandem/surfaces/routing.py (Asks says which request asks after an effect, Answers what a verdict
--   says of the answer); Settlement is settle_claim_status of engine.py, and Http is
--   http_executor.py. Engine is EffectEngine.execute_capability: Admit is its first half, up to the
--   staged intent, and Act its second, from the lease to the settlement, with the whole run.
--   CrashRecovery is crash_recovery.py; Owner is its test of a dead worker.
-- - Simulators: simulators/core_bank/state.py, the target that the tests post credits to.
--
-- How they interact: the engine (Engine) asks the policy, claims an effect in the ledger (Claims), asks
-- the target whether the effect is there (Checks), takes the control lease (Leases), performs the
-- effect over HTTP (Http) or through a browser, and settles the claim by the outcome (Settlement),
-- which a reconciliation decides where the run was interrupted. Most
-- changes of the ledger append to the event log (Events).
--
-- Conventions. An action of the ledger takes a world and gives a value or an exception, and a world;
-- what was written before an exception stays, as in the session, except that a broken constraint
-- goes back to the last commit. Calls follow one another: the statements of the program are atomic,
-- and a history is any sequence of calls by any workers. Instants are microseconds in UTC, and not
-- negative, and neither they nor days run out at the year 9999, where Python's raise OverflowError; amounts are whole cents. A keyword argument that may be None is an Option. The loop of
-- the reconciliation is a recursion on the number of inquiries that are left, which the capability
-- declares. The loop over the days has fuel, seven rounds for each business day and one more, which
-- is enough since every week has a business day. The other loops are structural recursions.
--
-- Parameters: the clock, UUIDs, JSON texts, SHA-256 (Session.Env), the answers of the targets
-- (Checks, Http), the run of a page in a browser, whether a process is dead, the time zone, the digest of an artifact, and what
-- Python's texts and numbers give: stripping, case, and the reading and printing of decimals. No property of SHA-256 is assumed: where one would be, the
-- theorem has a collision as its other case.
--
-- Not modelled: the browser and its surfaces, discovery, the web applications, the command line,
-- security and telemetry, which are I/O through other libraries; nor the procedure's run,
-- the comparison of targets with the ledger, the rebuild of the ledger and handoff. Crash injection, which tests use, is left
-- out of the engine, and so are messages for people.
pub mod Prelude
pub mod Domain
pub mod Workflow
pub mod Ledger
pub mod Policy
pub mod Replay
pub mod Simulators
