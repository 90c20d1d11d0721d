-- ===== src/Replay/Http.antt =====
-- The HTTP executor of a COMMIT (tandem/replay/http_executor.py): one guarded request, and then the
-- postcheck. The answer to a request is a parameter; an amount in a payload stands for its text,
-- which parses to the amount again.
pub mod Guarded
use tandem_interface_ai.Prelude.{
  ℕ, String, Bool, true, false, not, ◌&&◌, ◌||◌, Option, none, some, List, [], ◌∷◌, is_some,
  keep_if, leb, if◌then◌else◌,
}
use tandem_interface_ai.Prelude.Eq.{◌==◌, nat_eq, string_eq, option_eq}
use tandem_interface_ai.Prelude.Int.{ℤ, int_eq}
use tandem_interface_ai.Domain.Values.{
  get as lookup, Value, null, boolean, text, int, amount, instant, object, Dict, end, entry,
}
use tandem_interface_ai.Domain.Errors.{
  Error, Result, ok, raised, entity_binding_mismatch, amount_mismatch,
}
use tandem_interface_ai.Domain.Capability.{
  CapabilityDefinition, StepDefinition, ScopedGuardSpec, http_post, action_eq,
}
use tandem_interface_ai.Domain.Identity.{EffectIdentity, Texts, canonical_payload, from_capability}
use tandem_interface_ai.Domain.Fields.{Fields, Dynamic, get, shown_or}
use tandem_interface_ai.Domain.Money.{other}
use tandem_interface_ai.Domain.Outcomes.{
  ExecutionOutcome, OutcomeCategory, OutcomeCode, hard_failure, recoverable_failure,
  session_expired, possibly_applied, policy_violation, submit_confirmed, after_submit_unknown,
  is_success, outcome,
}
use tandem_interface_ai.Replay.Inquiry.{Response, unreachable, answered, Url}
use tandem_interface_ai.Replay.Checks.{execute_postcheck}

-- The route of a request.
pub data PostUrl : Type 0 where
  chargeback_file notices_send : PostUrl

abbrev pub identity_field_names : List String
identity_field_names =
    "institution_id" ∷ "procedure_id" ∷ "capability_id" ∷ "case_id" ∷ "member_id" ∷ "account_id"
    ∷ "currency" ∷ "business_reference" ∷ []

-- A submitted text; `none` where it is missing.
abbrev pub submitted_text : Option Value → Option String
submitted_text (some (text s)) = some s
submitted_text _ = none

abbrev pub submitted_amount : Option Value → Option ℤ
submitted_amount (some (amount a)) = some a
submitted_amount _ = none

-- A field is there, not empty, and the expected one.
abbrev pub is_bound : Option String → Option String → Bool
is_bound none expected = false
is_bound (some s) expected = not (s == "") && some s == expected

unfoldable pub all_bound : List String → Dict → Dict → Bool
all_bound [] payload expected = true
all_bound (field ∷ rest) payload expected =
    is_bound (submitted_text (lookup field payload)) (submitted_text (lookup field expected))
    && all_bound rest payload expected

unfoldable pub verify_request_identity_guard : Dict → EffectIdentity → Result (Unit {0})
unfolding all_bound
verify_request_identity_guard payload i =
    if not (all_bound identity_field_names payload (canonical_payload i))
    then raised entity_binding_mismatch
    else if not (submitted_amount (lookup "amount" payload) == some i.amount)
    then raised amount_mismatch
    else ok tt

-- `{**common, ...}`
abbrev pub extend : Dict → Dict → Dict
extend end more = more
extend (entry k v d) more = entry k v (extend d more)

-- Two inputs that must be there.
abbrev pub both : (String → String → Dict) → Option Dynamic → Option Dynamic → Option Dict
both f (some a) (some b) = some (f a.shown b.shown)
both f _ _ = none

abbrev pub to_route : PostUrl → Option Dict → Option (PostUrl × Dict)
to_route url none = none
to_route url (some payload) = some (url, payload)

-- `none` stands for the `KeyError` or the `ValueError`.
unfoldable pub build_request :
    CapabilityDefinition → Fields → EffectIdentity → Option (PostUrl × Dict)
build_request c inputs i =
    let common = canonical_payload i in
    if c.system == "processor"
    then to_route chargeback_file (
        both
          (λ last4 reason.
            extend common
              (entry "card_last4" (text last4) (entry "dispute_reason" (text reason) end)))
          (get "card_last4" inputs)
          (some (record {
            shown = shown_or "Unauthorized Transaction" (get "dispute_reason" inputs);
            truthy = true;
            money = other none;
          })))
    else if c.system == "documents"
    then to_route notices_send (
        both
          (λ kind due.
            extend common
              (entry "notice_type" (text kind) (entry "deadline_due_at" (text due) end)))
          (get "notice_type" inputs) (get "deadline_due_at" inputs))
    else none

abbrev pub hard_failed : OutcomeCode → ExecutionOutcome
hard_failed code = outcome hard_failure code ""

abbrev pub possibly : ExecutionOutcome
possibly = record (outcome OutcomeCategory.uncertain_effect possibly_applied "") {
  execution_phase = after_submit_unknown;
}

-- One HTTP step, which names the guard.
unfoldable pub is_guarded_post : Option ScopedGuardSpec → List StepDefinition → Bool
is_guarded_post none steps = false
is_guarded_post (some guard) [] = false
is_guarded_post (some guard) (step ∷ []) = step.guard_ref == some guard.guard_id
is_guarded_post (some guard) (step ∷ next ∷ rest) = false

-- Where the executor stands before the request: it halts, or it sends this payload.
pub data Prepared : Type 0 where
  halted : ExecutionOutcome → Prepared
  send : PostUrl → Dict → Prepared

abbrev pub guard_outcome : PostUrl → Dict → Result (Unit {0}) → Result Prepared
guard_outcome url payload (ok _) = ok (send url payload)
guard_outcome url payload (raised entity_binding_mismatch) =
    ok (halted (hard_failed OutcomeCode.entity_binding_mismatch))
guard_outcome url payload (raised amount_mismatch) =
    ok (halted (hard_failed OutcomeCode.amount_mismatch))
guard_outcome url payload (raised e) = raised e

abbrev pub guard_request : EffectIdentity → Option (PostUrl × Dict) → Result Prepared
guard_request i none = ok (halted (hard_failed policy_violation))
guard_request i (some (url, payload)) =
    guard_outcome url payload (verify_request_identity_guard payload i)

-- The part of `execute_http_commit` before the request.
unfoldable pub prepare_request : Texts → CapabilityDefinition → Fields → Result Prepared
unfolding build_request verify_request_identity_guard
prepare_request texts c inputs =
    if not (is_guarded_post c.scoped_guard (keep_if (λ s. s.action == http_post) c.steps))
    then ok (halted (hard_failed policy_violation))
    else elim (from_capability texts c inputs) [
      | raised e ↦ raised e
      | ok i ↦ guard_request i (build_request c inputs i)
    ]

-- How the postcheck's outcome is passed on.
unfoldable pub after_postcheck : Result ExecutionOutcome → Result ExecutionOutcome
unfolding is_success
after_postcheck (raised e) = raised e
after_postcheck (ok o) =
    if is_success o
    then ok (record o { execution_phase = submit_confirmed })
    else ok (record o { execution_phase = after_submit_unknown })

-- The answer to the request, and the postcheck where it was accepted.
unfoldable pub after_response : Response → Result ExecutionOutcome → Result ExecutionOutcome
unfolding after_postcheck
after_response unreachable postcheck = ok possibly
after_response (answered status body) postcheck =
    if status == 401
    then ok (outcome recoverable_failure session_expired "")
    else if leb 400 status
    then ok possibly
    else after_postcheck postcheck

module _ (texts : Texts) (lower : String → String) (post : PostUrl → Dict → Response)
    (fetch : Url → ℕ → Response) (c : CapabilityDefinition) (inputs : Fields) where
  -- The postcheck makes the n-th request of the checks.
  unfoldable pub execute_http_commit : ℕ → Result ExecutionOutcome
  unfolding prepare_request after_response
  execute_http_commit n = elim (prepare_request texts c inputs) [
    | raised e ↦ raised e
    | ok (halted o) ↦ ok o
    | ok (send url payload) ↦
        after_response (post url payload) (execute_postcheck lower fetch c inputs n)
  ]
