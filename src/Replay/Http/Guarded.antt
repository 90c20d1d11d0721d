-- ===== src/Replay/Http/Guarded.antt =====
-- What leaves the HTTP executor, and when its result lets a claim be taken again.
use tandem_interface_ai.Prelude.{
  ℕ, String, ◌≡◌, ◌⊎◌, refl, sym, inl, inr, arith, Bool, true, not, ◌&&◌, Option, none, some, List,
  ◌∷◌, Bool-cases, keep_if, leb, nat_beq, if◌then◌else◌,
}
use tandem_interface_ai.Prelude.Eq.{◌==◌, nat_eq, string_eq, option_eq}
use tandem_interface_ai.Prelude.Int.{int_eq}
use tandem_interface_ai.Domain.Values.{get as lookup, Dict}
use tandem_interface_ai.Domain.Errors.{Error, Result, ok, raised}
use tandem_interface_ai.Domain.Effects.{failed_retryable}
use tandem_interface_ai.Domain.Capability.{CapabilityDefinition, http_post, action_eq}
use tandem_interface_ai.Domain.Identity.{EffectIdentity, Texts, canonical_payload, from_capability}
use tandem_interface_ai.Domain.Fields.{Fields}
use tandem_interface_ai.Domain.Outcomes.{
  ExecutionOutcome, confirmed_not_applied, is_success, code_eq, category_eq, phase_eq, code_beq_iff,
}
use tandem_interface_ai.Replay.Inquiry.{Response, Body, unreachable, answered, Url}
use tandem_interface_ai.Replay.Checks.{execute_postcheck}
use tandem_interface_ai.Replay.Checks.Answers.{Denies}
use tandem_interface_ai.Replay.Checks.Asks.{Asks}
use tandem_interface_ai.Replay.Checks.Evidence.{postcheck_absence_has_evidence}
use tandem_interface_ai.Replay.Settlement.{settle_claim_status}
use tandem_interface_ai.Replay.Http.{
  PostUrl, submitted_text, submitted_amount, is_bound, all_bound, identity_field_names,
  verify_request_identity_guard, build_request, guard_outcome, guard_request, possibly,
  is_guarded_post, Prepared, send, prepare_request, after_postcheck, after_response,
  execute_http_commit,
}

-- A payload in which every field of an identity is there, not empty, and the identity's own.
pub record Carries (i : EffectIdentity) (payload : Dict) : Type 0 where
  pub institution_id :
      is_bound (submitted_text (lookup "institution_id" payload)) (some i.institution_id) ≡ true
  pub procedure_id :
      is_bound (submitted_text (lookup "procedure_id" payload)) (some i.procedure_id) ≡ true
  pub capability_id :
      is_bound (submitted_text (lookup "capability_id" payload)) (some i.capability_id) ≡ true
  pub case_id : is_bound (submitted_text (lookup "case_id" payload)) (some i.case_id) ≡ true
  pub member_id : is_bound (submitted_text (lookup "member_id" payload)) (some i.member_id) ≡ true
  pub account_id :
      is_bound (submitted_text (lookup "account_id" payload)) (some i.account_id) ≡ true
  pub currency : is_bound (submitted_text (lookup "currency" payload)) (some i.currency) ≡ true
  pub business_reference :
      is_bound (submitted_text (lookup "business_reference" payload)) (some i.business_reference)
      ≡ true
  pub cents : submitted_amount (lookup "amount" payload) ≡ some i.amount

both_true : (a b : Bool) → (a && b) ≡ true → (a ≡ true) × (b ≡ true)
both_true a b h = ground (arith, h)

bound_first :
    (name : String) (rest : List String) (payload expected : Dict)
    → all_bound (name ∷ rest) payload expected ≡ true
    → (is_bound (submitted_text (lookup name payload)) (submitted_text (lookup name expected))
        ≡ true)
      × (all_bound rest payload expected ≡ true)
unfolding all_bound
bound_first name rest payload expected h = both_true _ _ h

two_tests :
    (a b : Bool) (x y : Error)
    → (if not a then raised x else if not b then raised y else ok (tt {0})) ≡ ok tt
    → (a ≡ true) × (b ≡ true)
two_tests a b x y h = ground (arith, h)

guard_tests :
    (i : EffectIdentity) (payload : Dict)
    → verify_request_identity_guard payload i ≡ ok tt
    → (all_bound identity_field_names payload (canonical_payload i) ≡ true)
      × ((submitted_amount (lookup "amount" payload) == some i.amount) ≡ true)
unfolding verify_request_identity_guard
guard_tests i payload h = two_tests _ _ _ _ h

-- The guard lets only such payloads pass.
guard_Carries :
    (i : EffectIdentity) (payload : Dict)
    → verify_request_identity_guard payload i ≡ ok tt
    → Carries i payload
unfolding canonical_payload lookup
guard_Carries i payload h =
    let (bound, cents) = guard_tests i payload h in
    let (a, r1) = bound_first _ _ payload (canonical_payload i) bound in
    let (b, r2) = bound_first _ _ payload (canonical_payload i) r1 in
    let (c, r3) = bound_first _ _ payload (canonical_payload i) r2 in
    let (d, r4) = bound_first _ _ payload (canonical_payload i) r3 in
    let (e, r5) = bound_first _ _ payload (canonical_payload i) r4 in
    let (f, r6) = bound_first _ _ payload (canonical_payload i) r5 in
    let (g, r7) = bound_first _ _ payload (canonical_payload i) r6 in
    let (k, r8) = bound_first _ _ payload (canonical_payload i) r7 in
    record {
      institution_id = a;
      procedure_id = b;
      capability_id = c;
      case_id = d;
      member_id = e;
      account_id = f;
      currency = g;
      business_reference = k;
      cents = (option_eq.beq_iff _ _).0 cents;
    }

guard_outcome-send :
    (url to : PostUrl) (payload sent : Dict) (r : Result (Unit {0}))
    → guard_outcome url payload r ≡ ok (send to sent)
    → (r ≡ ok tt) × (sent ≡ payload)
guard_outcome-send url to payload sent r h = ground (arith, h)

guard_request-send :
    (i : EffectIdentity) (request : Option (PostUrl × Dict)) (to : PostUrl) (sent : Dict)
    → guard_request i request ≡ ok (send to sent)
    → Carries i sent
guard_request-send i none to sent h = absurd (ground (arith, h))
guard_request-send i (some (url, payload)) to sent h =
    let (passed, same) = guard_outcome-send url to payload sent _ h in
    rw (sym same) at (guard_Carries i payload passed)

prepared_from :
    (r : Result EffectIdentity) (c : CapabilityDefinition) (inputs : Fields) (to : PostUrl)
    (sent : Dict)
    → (elim r as (λ _. Result Prepared) [
      | raised e ↦ raised e
      | ok i ↦ guard_request i (build_request c inputs i)
    ])
      ≡ ok (send to sent)
    → (i : EffectIdentity) × (r ≡ ok i) × Carries i sent
prepared_from (raised e) c inputs to sent h = absurd (ground (arith, h))
prepared_from (ok i) c inputs to sent h = (i, refl, guard_request-send i _ to sent h)

-- The HTTP executor sends a request only for a capability with a single HTTP step that names its guard, and only with a payload that carries the complete identity of the effect.
pub sent_request-Carries :
    (texts : Texts) (c : CapabilityDefinition) (inputs : Fields) (to : PostUrl) (sent : Dict)
    → prepare_request texts c inputs ≡ ok (send to sent)
    → (is_guarded_post c.scoped_guard (keep_if (λ s. s.action == http_post) c.steps) ≡ true)
      × ((i : EffectIdentity) × (from_capability texts c inputs ≡ ok i) × Carries i sent)
unfolding prepare_request
sent_request-Carries texts c inputs to sent h =
    elim (Bool-cases
      (is_guarded_post c.scoped_guard (keep_if (λ s. s.action == http_post) c.steps))) [
        | inl g ↦ (
          g,
          prepared_from (from_capability texts c inputs) c inputs to sent (ground (arith, h, g)),
        )
        | inr g ↦ absurd (ground (arith, h, g))
      ]

after_postcheck-retryable :
    (check : Result ExecutionOutcome) (o : ExecutionOutcome)
    → after_postcheck check ≡ ok o
    → settle_claim_status o ≡ failed_retryable
    → (x : ExecutionOutcome) × (check ≡ ok x) × (x.code ≡ confirmed_not_applied)
unfolding after_postcheck settle_claim_status is_success
after_postcheck-retryable (raised e) o h k = absurd (ground (arith, h))
after_postcheck-retryable (ok x) o h k =
    (x, refl, ground (arith, h, k, code_beq_iff x.code confirmed_not_applied))

possibly_stays :
    (o : ExecutionOutcome) → ok possibly ≡ ok o → settle_claim_status o ≡ failed_retryable → ⊥
unfolding settle_claim_status is_success
possibly_stays o h k = ground (arith, h, k)

after_response-retryable :
    (r : Response) (check : Result ExecutionOutcome) (o : ExecutionOutcome)
    → after_response r check ≡ ok o
    → settle_claim_status o ≡ failed_retryable
    → ((b : Body) × (r ≡ answered 401 b))
      ⊎ ((x : ExecutionOutcome) × (check ≡ ok x) × (x.code ≡ confirmed_not_applied))
unfolding after_response
after_response-retryable unreachable check o h k = absurd (possibly_stays o h k)
after_response-retryable (answered s b) check o h k = elim (Bool-cases (nat_beq s 401)) [
  | inl y ↦ inl (b, ground (arith, y))
  | inr y ↦ elim (Bool-cases (leb 400 s)) [
    | inl z ↦ absurd (possibly_stays o (ground (arith, h, y, z)) k)
    | inr z ↦ inr (after_postcheck-retryable check o (ground (arith, h, y, z)) k)
  ]
]

-- A result of the HTTP executor that follows a request lets the claim be settled as retryable only if the target answered the request with 401, or answered 404 to the postcheck's request for the case of the inputs; no failure of the transport or of the server does.
pub sent_retryable_only_if_refused :
    (texts : Texts) (lower : String → String) (post : PostUrl → Dict → Response)
    (fetch : Url → ℕ → Response) (c : CapabilityDefinition) (inputs : Fields) (n : ℕ) (to : PostUrl)
    (sent : Dict) (o : ExecutionOutcome)
    → prepare_request texts c inputs ≡ ok (send to sent)
    → execute_http_commit texts lower post fetch c inputs n ≡ ok o
    → settle_claim_status o ≡ failed_retryable
    → ((b : Body) × (post to sent ≡ answered 401 b))
      ⊎ ((url : Url) × Asks lower c inputs url × Denies (fetch url n))
unfolding execute_http_commit
sent_retryable_only_if_refused texts lower post fetch c inputs n to sent o p h k =
    elim (after_response-retryable (post to sent) (execute_postcheck lower fetch c inputs n) o
      (ground (arith, h, p)) k) [
        | inl refused ↦ inl refused
        | inr (x, asked, absent) ↦
            inr (postcheck_absence_has_evidence c inputs lower fetch n x asked absent)
      ]
