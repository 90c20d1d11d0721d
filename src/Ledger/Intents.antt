-- ===== src/Ledger/Intents.antt =====
-- Effect intents (stage_intent, find_intent and mark_intent_committed of
-- tandem/ledger/repository.py).
use tandem_interface_ai.Prelude.{String, true, Option, none, some, [], ◌∷◌, ◌++◌}
use tandem_interface_ai.Prelude.Eq.{string_eq}
use tandem_interface_ai.Prelude.Table.{select_one, update_where}
use tandem_interface_ai.Domain.Values.{text, instant, end, entry}
use tandem_interface_ai.Ledger.Models.{EffectIntentRecord, staged, committed}
use tandem_interface_ai.Ledger.Session.{Db, M, ◌>>=◌, ◌>>◌, pure, gets, modify_db, now_utc}
use tandem_interface_ai.Ledger.Events.{record_event}

abbrev pub intent_key : EffectIntentRecord → String
intent_key i = i.idempotency_key

abbrev pub find_intent : String → Db → Option EffectIntentRecord
find_intent idempotency_key d = select_one intent_key idempotency_key d.intents

unfoldable pub stage_new :
    Option EffectIntentRecord → String → String → String → M EffectIntentRecord
stage_new (some intent) case_id idempotency_key capability_id = pure intent
stage_new none case_id idempotency_key capability_id = do
  now ← now_utc
  let intent : EffectIntentRecord = record {
    case_id = case_id;
    idempotency_key = idempotency_key;
    capability_id = capability_id;
    intent_status = staged;
    created_at = now;
  }
  modify_db (λ d. record d { intents = d.intents ++ intent ∷ [] })
  record_event case_id "INTENT_STAGED" capability_id "AUTOMATION" (
      some (
        entry "idempotency_key" (text idempotency_key) (
          entry "capability_id" (text capability_id)
            (entry "intent_status" (text "STAGED") (entry "created_at" (instant now) end)))))
  pure intent

unfoldable pub stage_intent : String → String → String → M EffectIntentRecord
unfolding stage_new
stage_intent case_id idempotency_key capability_id = do
  found ← gets (λ w. find_intent idempotency_key w.db)
  stage_new found case_id idempotency_key capability_id

unfoldable pub commit_staged : Option EffectIntentRecord → String → M (Unit {0})
commit_staged none idempotency_key = pure tt
commit_staged (some intent) idempotency_key = elim intent.intent_status [
  | committed ↦ pure tt
  | staged ↦ do
    modify_db (λ d. record d {
      intents =
          update_where intent_key idempotency_key (λ _. true)
            (λ i. record i { intent_status = committed }) d.intents;
    })
    record_event intent.case_id "INTENT_COMMITTED" intent.capability_id "AUTOMATION"
        (some (entry "idempotency_key" (text idempotency_key) end))
    pure tt
]

unfoldable pub mark_intent_committed : String → M (Unit {0})
unfolding commit_staged
mark_intent_committed idempotency_key = do
  found ← gets (λ w. find_intent idempotency_key w.db)
  commit_staged found idempotency_key
