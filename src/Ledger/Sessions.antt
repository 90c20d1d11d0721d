-- ===== src/Ledger/Sessions.antt =====
-- Browser sessions and human handoffs (register_browser_session, get_browser_session,
-- update_browser_session and record_handoff of tandem/ledger/repository.py).
use tandem_interface_ai.Prelude.{
  String, true, not, Option, none, some, [], ◌∷◌, ◌++◌, is_some, if◌then◌else◌,
}
use tandem_interface_ai.Prelude.Eq.{◌==◌, string_eq}
use tandem_interface_ai.Prelude.Table.{select_one, update_where}
use tandem_interface_ai.Domain.Values.{text, instant, end, entry}
use tandem_interface_ai.Domain.Errors.{value_error}
use tandem_interface_ai.Ledger.Models.{BrowserSessionRecord, HumanHandoffRecord}
use tandem_interface_ai.Ledger.Session.{
  Db, M, ◌>>=◌, ◌>>◌, pure, gets, modify_db, now_utc, or_raise, constrain,
}
use tandem_interface_ai.Ledger.Events.{record_event}

abbrev pub session_key : BrowserSessionRecord → String
session_key s = s.session_id

abbrev pub get_browser_session : String → Db → Option BrowserSessionRecord
get_browser_session session_id d = select_one session_key session_id d.sessions

-- The session identifier is the primary key: a second row with it breaks the constraint.
unfoldable pub register_browser_session : String → String → String → M BrowserSessionRecord
register_browser_session case_id session_id current_url = do
  at ← now_utc
  let session : BrowserSessionRecord = record {
    session_id = session_id;
    case_id = case_id;
    status = "ACTIVE";
    current_url = current_url;
    created_at = at;
    updated_at = at;
    closed_at = none;
  }
  unused ← gets (λ w. not (is_some (get_browser_session session_id w.db)))
  constrain unused
  modify_db (λ d. record d { sessions = d.sessions ++ session ∷ [] })
  record_event case_id "BROWSER_SESSION_OPENED" "browser_session" "AUTOMATION" (
      some (
        entry "session_id" (text session_id) (
          entry "status" (text "ACTIVE")
            (entry "current_url" (text current_url) (entry "created_at" (instant at) end)))))
  pure session

unfoldable pub update_browser_session : String → String → String → M BrowserSessionRecord
update_browser_session session_id current_url status = do
  found ← gets (λ w. get_browser_session session_id w.db)
  s ← or_raise found value_error
  at ← now_utc
  let change = λ (x : BrowserSessionRecord). record x {
    current_url = current_url;
    status = status;
    updated_at = at;
    closed_at = if status == "CLOSED" then some at else x.closed_at;
  }
  modify_db (λ d. record d {
    sessions = update_where session_key session_id (λ _. true) change d.sessions;
  })
  pure (change s)

unfoldable pub record_handoff : String → String → String → String → M HumanHandoffRecord
record_handoff case_id reason operator_id action_taken = do
  started ← now_utc
  completed ← now_utc
  let handoff : HumanHandoffRecord = record {
    case_id = case_id;
    reason = reason;
    operator_id = operator_id;
    action_taken = action_taken;
    started_at = started;
    completed_at = some completed;
  }
  modify_db (λ d. record d { handoffs = d.handoffs ++ handoff ∷ [] })
  pure handoff
