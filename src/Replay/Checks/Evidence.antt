-- ===== src/Replay/Checks/Evidence.antt =====
-- What a verdict on an external effect rests on: the target's own answer.
use tandem_interface_ai.Prelude.{
  ℕ, String, ◌≡◌, ◌⊎◌, refl, sym, ap, ◌∙◌, inl, inr, arith, Bool, true, some, is_some, Option-cases,
  Bool-cases,
}
use tandem_interface_ai.Prelude.Eq.{◌==◌, nat_eq, string_eq}
use tandem_interface_ai.Domain.Effects.{commit, class_eq}
use tandem_interface_ai.Domain.Outcomes.{
  ExecutionOutcome, success, business_outcome, precheck_invalid_response,
  postcheck_invalid_response, not_applied, already_applied, confirmed_not_applied, category_eq,
  code_eq,
}
use tandem_interface_ai.Ledger.Session.{ok}
use tandem_interface_ai.Replay.Inquiry.{
  Dynamic, failure, uncertain, Fields, get, if_true, Response, Url, CapabilityDefinition,
  precheck_response, postcheck_response,
}
use tandem_interface_ai.Replay.Checks.Asks.{Asks, route_of-Asks}
use tandem_interface_ai.Replay.Checks.{
  precheck_at, precheck_case, postcheck_at, postcheck_case, Route, at, unsupported, unregistered,
  route_of, execute_precheck, execute_postcheck,
}
use tandem_interface_ai.Replay.Checks.Answers.{
  Shows, Denies, precheck_denied, precheck_shown, postcheck_denied, postcheck_shown,
  postcheck_absent_category,
}

module _ (c : CapabilityDefinition) (inputs : Fields) where
  module _ (lower : String → String) (fetch : Url → ℕ → Response) (n : ℕ) where
    precheck_at-asked :
        (case : Dynamic) (x : Route) (o : ExecutionOutcome)
        → if_true (get "case_id" inputs) ≡ some case
        → route_of lower c inputs case.shown ≡ x
        → precheck_at lower fetch c inputs n x ≡ ok o
        → (o ≡ failure precheck_invalid_response)
          ⊎ ((url : Url) × Asks lower c inputs url × (o ≡ precheck_response c inputs (fetch url n)))
    unfolding precheck_at
    precheck_at-asked case (at url moves field) o known r h =
        inr (url, route_of-Asks lower c inputs case url moves field known r, ground (arith, h))
    precheck_at-asked case unsupported o known r h = absurd (ground (arith, h))
    precheck_at-asked case unregistered o known r h = inl (ground (arith, h))

    -- The precheck of a COMMIT that returns reads the answer to its request, or asks nothing.
    precheck-asked :
        (o : ExecutionOutcome)
        → (c.effect.effect_class == commit) ≡ true
        → execute_precheck lower fetch c inputs n ≡ ok o
        → (o ≡ failure precheck_invalid_response)
          ⊎ ((url : Url) × Asks lower c inputs url × (o ≡ precheck_response c inputs (fetch url n)))
    unfolding execute_precheck precheck_case
    precheck-asked o isc h = elim (Bool-cases (is_some c.effect.precheck)) [
      | inr missing ↦ inl (ground (arith, isc, h, missing))
      | inl there ↦ elim (Option-cases (if_true (get "case_id" inputs))) [
        | inl nothing ↦ inl (ground (arith, isc, h, there, nothing))
        | inr (v, known) ↦
            precheck_at-asked v (route_of lower c inputs v.shown) o known refl
              (ground (arith, isc, h, there, known))
      ]
    ]

    -- A COMMIT is let through (NOT_APPLIED) only if the target system of the capability answered 404
    -- to the precheck's request, which asks for the case of the inputs: no failure of the network,
    -- of the server or of the answer is taken for absence.
    pub precheck_authorizes_only_absent :
        (o : ExecutionOutcome)
        → (c.effect.effect_class == commit) ≡ true
        → execute_precheck lower fetch c inputs n ≡ ok o
        → o.code ≡ not_applied
        → (url : Url) × Asks lower c inputs url × Denies (fetch url n)
    precheck_authorizes_only_absent o isc h k = elim (precheck-asked o isc h) [
      | inl none_asked ↦ absurd (ground (arith, none_asked, k))
      | inr (url, asks, e) ↦ (
        url,
        asks,
        precheck_denied c inputs (fetch url n) (ap (λ (x : ExecutionOutcome). x.code) (sym e) ∙ k),
      )
    ]

    precheck-is_commit :
        (o : ExecutionOutcome)
        → execute_precheck lower fetch c inputs n ≡ ok o
        → o.code ≡ already_applied
        → (c.effect.effect_class == commit) ≡ true
    unfolding execute_precheck
    precheck-is_commit o h k = elim (Bool-cases (c.effect.effect_class == commit)) [
      | inl isc ↦ isc
      | inr other ↦ absurd (ground (arith, other, h, k))
    ]

    -- A precheck says ALREADY_APPLIED only if the target system of the capability answered 200 to
    -- the request for the case of the inputs, with an effect whose identity and amount are the ones
    -- that were asked for.
    pub precheck_applied_has_identity :
        (o : ExecutionOutcome)
        → execute_precheck lower fetch c inputs n ≡ ok o
        → o.code ≡ already_applied
        → (url : Url) × Asks lower c inputs url × Shows c inputs (fetch url n)
    precheck_applied_has_identity o h k = elim (precheck-asked o (precheck-is_commit o h k) h) [
      | inl none_asked ↦ absurd (ground (arith, none_asked, k))
      | inr (url, asks, e) ↦ (
        url,
        asks,
        precheck_shown c inputs (fetch url n) (ap (λ (x : ExecutionOutcome). x.code) (sym e) ∙ k),
      )
    ]

    postcheck_at-asked :
        (case : Dynamic) (x : Route) (o : ExecutionOutcome)
        → if_true (get "case_id" inputs) ≡ some case
        → route_of lower c inputs case.shown ≡ x
        → postcheck_at lower fetch c inputs n x ≡ ok o
        → (o ≡ uncertain postcheck_invalid_response)
          ⊎ ((url : Url) × (moves : Bool) × (field : String) × Asks lower c inputs url
              × (o ≡ postcheck_response moves field c inputs (fetch url n)))
    unfolding postcheck_at
    postcheck_at-asked case (at url moves field) o known r h = inr (
      url,
      moves,
      field,
      route_of-Asks lower c inputs case url moves field known r,
      ground (arith, h),
    )
    postcheck_at-asked case unsupported o known r h = absurd (ground (arith, h))
    postcheck_at-asked case unregistered o known r h = inl (ground (arith, h))

    -- A postcheck that returns reads the answer to its request, or asks nothing.
    postcheck-asked :
        (o : ExecutionOutcome)
        → execute_postcheck lower fetch c inputs n ≡ ok o
        → (o ≡ uncertain postcheck_invalid_response)
          ⊎ ((url : Url) × (moves : Bool) × (field : String) × Asks lower c inputs url
              × (o ≡ postcheck_response moves field c inputs (fetch url n)))
    unfolding execute_postcheck postcheck_case
    postcheck-asked o h = elim (Option-cases (if_true (get "case_id" inputs))) [
      | inl nothing ↦ inl (ground (arith, h, nothing))
      | inr (v, known) ↦
          postcheck_at-asked v (route_of lower c inputs v.shown) o known refl
            (ground (arith, h, known))
    ]

    -- A postcheck confirms an effect (category SUCCESS) only if the target answered 200 to the
    -- request for the case of the inputs, with the effect that was asked for.
    pub postcheck_success_has_evidence :
        (o : ExecutionOutcome)
        → execute_postcheck lower fetch c inputs n ≡ ok o
        → o.category ≡ success
        → (url : Url) × Asks lower c inputs url × Shows c inputs (fetch url n)
    postcheck_success_has_evidence o h k = elim (postcheck-asked o h) [
      | inl none_asked ↦ absurd (ground (arith, none_asked, k))
      | inr (url, moves, field, asks, e) ↦ (
        url,
        asks,
        postcheck_shown c inputs moves field (fetch url n)
            (ap (λ (x : ExecutionOutcome). x.category) (sym e) ∙ k),
      )
    ]

    -- A postcheck reports absence (CONFIRMED_NOT_APPLIED) only if the target answered 404 to the
    -- request for the case of the inputs.
    pub postcheck_absence_has_evidence :
        (o : ExecutionOutcome)
        → execute_postcheck lower fetch c inputs n ≡ ok o
        → o.code ≡ confirmed_not_applied
        → (url : Url) × Asks lower c inputs url × Denies (fetch url n)
    postcheck_absence_has_evidence o h k = elim (postcheck-asked o h) [
      | inl none_asked ↦ absurd (ground (arith, none_asked, k))
      | inr (url, moves, field, asks, e) ↦ (
        url,
        asks,
        postcheck_denied c inputs moves field (fetch url n)
            (ap (λ (x : ExecutionOutcome). x.code) (sym e) ∙ k),
      )
    ]

    -- Absence is a business outcome.
    pub postcheck_absence_is_business :
        (o : ExecutionOutcome)
        → execute_postcheck lower fetch c inputs n ≡ ok o
        → o.code ≡ confirmed_not_applied
        → o.category ≡ business_outcome
    postcheck_absence_is_business o h k = elim (postcheck-asked o h) [
      | inl none_asked ↦ absurd (ground (arith, none_asked, k))
      | inr (url, moves, field, asks, e) ↦
          ap (λ (x : ExecutionOutcome). x.category) e
          ∙ postcheck_absent_category c inputs moves field (fetch url n)
              (ap (λ (x : ExecutionOutcome). x.code) (sym e) ∙ k)
    ]
