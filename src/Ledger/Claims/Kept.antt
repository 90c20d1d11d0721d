-- ===== src/Ledger/Claims/Kept.antt =====
-- Actions that leave the claims alone when they return.
use tandem_interface_ai.Prelude.{
  ℕ, String, ◌≡◌, refl, ◌∙◌, Bool, true, false, Option, none, some, arith, inl, inr, Option-cases,
  Bool-cases, if◌then◌else◌,
}
use tandem_interface_ai.Prelude.Eq.{nat_eq, string_eq}
use tandem_interface_ai.Prelude.Table.{select_one}
use tandem_interface_ai.Prelude.Int.{ℤ}
use tandem_interface_ai.Domain.Errors.{Error}
use tandem_interface_ai.Domain.Money.{MoneyInput, parse_money}
use tandem_interface_ai.Domain.Values.{Dict}
use tandem_interface_ai.Workflow.StateMachine.{RegEState}
use tandem_interface_ai.Ledger.Models.{EffectIntentRecord, IntentStatus, committed, staged}
use tandem_interface_ai.Ledger.Session.{
  Db, World, Result, ok, M, ◌>>=◌, ◌>>◌, pure, gets, modify_db, now_utc, or_now, or_raise, raise_if,
  constrain, commit, lift,
}
use tandem_interface_ai.Ledger.Session.Bind.{>>=-eq-ok}
use tandem_interface_ai.Ledger.Events.{record_event}
use tandem_interface_ai.Ledger.Events.Frame.{record_event-SameTables}
use tandem_interface_ai.Ledger.Cases.{find_case, get_case, update_case_status}
use tandem_interface_ai.Ledger.Executions.{
  start_execution, complete_execution, execution_key, is_some_case, parse_optional,
}
use tandem_interface_ai.Ledger.Intents.{
  stage_intent, mark_intent_committed, find_intent, stage_new, commit_staged,
}

abbrev pub KeepsClaims : {A : Type 0} → M A → Type 0
KeepsClaims {A} m = (w : World) (a : A) (w' : World) → m w ≡ (ok a, w') → w'.db.claims ≡ w.db.claims

module _ {A : Type 0} where
  pub kept_bind :
      {B : Type 0} (m : M A) (f : A → M B)
      → KeepsClaims m
      → ((a : A) → KeepsClaims (f a))
      → KeepsClaims (m >>= f)
  kept_bind m f keeps then_keeps w b w' h =
      let (a, v, first, second) = >>=-eq-ok m f w h in
      then_keeps a v b w' second ∙ keeps w a v first

  pub kept_pure : (a : A) → KeepsClaims (pure a)
  kept_pure a w x w' h = ground (arith, h)

  pub kept_lift : (r : Result A) → KeepsClaims (lift r)
  kept_lift r w x w' h = ground (arith, h)

  pub kept_gets : (f : World → A) → KeepsClaims (gets f)
  kept_gets f w x w' h = ground (arith, h)

  pub kept_or_raise : (o : Option A) (e : Error) → KeepsClaims (or_raise o e)
  kept_or_raise none e w x w' h = absurd (ground (arith, h))
  kept_or_raise (some a) e w x w' h = ground (arith, h)

  pub kept_if :
      (b : Bool) (m n : M A) → KeepsClaims m → KeepsClaims n → KeepsClaims (if b then m else n)
  kept_if true m n hm hn = hm
  kept_if false m n hm hn = hn

pub kept_now : KeepsClaims now_utc
kept_now w x w' h = ground (arith, h)

pub kept_or_now : (t : Option ℕ) → KeepsClaims (or_now t)
kept_or_now none w x w' h = kept_now w x w' h
kept_or_now (some t) w x w' h = ground (arith, h)

pub kept_commit : KeepsClaims commit
kept_commit w x w' h = ground (arith, h)

pub kept_raise_if : (b : Bool) (e : Error) → KeepsClaims (raise_if b e)
kept_raise_if true e w x w' h = absurd (ground (arith, h))
kept_raise_if false e w x w' h = ground (arith, h)

kept_constrain : (b : Bool) → KeepsClaims (constrain b)
kept_constrain true w x w' h = ground (arith, h)
kept_constrain false w x w' h = absurd (ground (arith, h))

kept_modify : (f : Db → Db) → ((d : Db) → (f d).claims ≡ d.claims) → KeepsClaims (modify_db f)
kept_modify f same w x w' h = ground (arith, h, same w.db)

pub kept_event :
    (case_id event_type step_name actor : String) (payload : Option Dict)
    → KeepsClaims (record_event case_id event_type step_name actor payload)
kept_event case_id event_type step_name actor payload w x w' h =
    (record_event-SameTables case_id event_type step_name actor payload w h).claims

-- An action that only records an event.
pub kept_log :
    (case_id event_type step_name actor : String) (payload : Option Dict)
    → KeepsClaims (record_event case_id event_type step_name actor payload >> pure tt)
kept_log case_id event_type step_name actor payload =
    kept_bind _ _ (kept_event case_id event_type step_name actor payload) (λ _. kept_pure tt)

-- The end of most actions: an event, and a value.
kept_event_pure :
    {B : Type 0} (case_id event_type step_name actor : String) (payload : Option Dict) (y : B)
    (v : World) (b : B) (w' : World)
    → (record_event case_id event_type step_name actor payload >> pure y) v ≡ (ok b, w')
    → w'.db.claims ≡ v.db.claims
kept_event_pure case_id event_type step_name actor payload y v b w' h =
    kept_bind (record_event case_id event_type step_name actor payload) (λ _. pure y)
      (kept_event case_id event_type step_name actor payload) (λ _. kept_pure y) v b w' h

pub kept_update_case_status :
    (case_id : String) (status : RegEState) (moved : Option Bool)
    → KeepsClaims (update_case_status case_id status moved)
unfolding update_case_status get_case
kept_update_case_status case_id status moved w b w' h =
    elim (Option-cases (find_case case_id w.db)) [
      | inl nothing ↦ absurd (ground (arith, nothing, h))
      | inr (c, there) ↦ kept_event_pure _ _ _ _ _ _ _ b w' (rw (there, or_raise) at h)
    ]

kept_parse_optional : (given : Option MoneyInput) → KeepsClaims (parse_optional given)
kept_parse_optional none w b w' h = ground (arith, h)
kept_parse_optional (some given) w b w' h = elim (Option-cases (parse_money given)) [
  | inl p ↦ absurd (ground (arith, p, h))
  | inr (a, p) ↦ ground (arith, p, h)
]

pub kept_start_execution :
    (case_id capability_id version class : String) (key entity : Option String)
    (given : Option MoneyInput) (actor : String) (session : Option String)
    → KeepsClaims
        (start_execution case_id capability_id version class key entity given actor session)
unfolding start_execution
kept_start_execution case_id capability_id version class key entity given actor session w b w' h =
    let (cents, v, parsed, next) = >>=-eq-ok (parse_optional given) _ w h in
    elim (Bool-cases (is_some_case case_id v.db)) [
      | inl y ↦
          kept_event_pure _ _ _ _ _ _ _ b w' (rw y at next)
          ∙ kept_parse_optional given w cents v parsed
      | inr y ↦ absurd (ground (arith, y, next))
    ]

complete_claims :
    (given : Option MoneyInput) (w : World) (cents : Option ℤ) (v w' : World)
    → parse_optional given w ≡ (ok cents, v)
    → w'.db.claims ≡ v.db.claims
    → w'.db.claims ≡ w.db.claims
complete_claims given w cents v w' parsed same = same ∙ kept_parse_optional given w cents v parsed

pub kept_complete_execution :
    (id : ℕ) (status : String) (entity : Option String) (given : Option MoneyInput)
    (category ref : Option String) (money_moved : Bool)
    → KeepsClaims (complete_execution id status entity given category ref money_moved)
unfolding complete_execution
kept_complete_execution id status entity given category ref money_moved w b w' h =
    elim (Option-cases (select_one execution_key id w.db.executions)) [
      | inl nothing ↦ absurd (ground (arith, nothing, h))
      | inr (r, there) ↦
          let (cents, v, parsed, next) =
            >>=-eq-ok (parse_optional given) _ w (rw (there, or_raise) at h) in
          complete_claims given w cents v w' parsed (kept_event_pure _ _ _ _ _ _ _ b w' next)
    ]

kept_stage_new :
    (found : Option EffectIntentRecord) (case_id key capability_id : String)
    → KeepsClaims (stage_new found case_id key capability_id)
unfolding stage_new
kept_stage_new (some i) case_id key capability_id w b w' h = ground (arith, h)
kept_stage_new none case_id key capability_id w b w' h = kept_event_pure _ _ _ _ _ _ _ b w' h

pub kept_stage_intent :
    (case_id key capability_id : String) → KeepsClaims (stage_intent case_id key capability_id)
unfolding stage_intent
kept_stage_intent case_id key capability_id w b w' h =
    kept_stage_new (find_intent key w.db) case_id key capability_id w b w' h

kept_commit_found :
    (status : IntentStatus) (i : EffectIntentRecord) (key : String)
    → i.intent_status ≡ status
    → KeepsClaims (commit_staged (some i) key)
unfolding commit_staged
kept_commit_found committed i key s w b w' h = ground (arith, s, h)
kept_commit_found staged i key s w b w' h = kept_event_pure _ _ _ _ _ _ _ b w' (rw s at h)

kept_commit_staged :
    (found : Option EffectIntentRecord) (key : String) → KeepsClaims (commit_staged found key)
unfolding commit_staged
kept_commit_staged none key w b w' h = ground (arith, h)
kept_commit_staged (some i) key w b w' h = kept_commit_found i.intent_status i key refl w b w' h

pub kept_mark_intent_committed : (key : String) → KeepsClaims (mark_intent_committed key)
unfolding mark_intent_committed
kept_mark_intent_committed key w b w' h = kept_commit_staged (find_intent key w.db) key w b w' h
