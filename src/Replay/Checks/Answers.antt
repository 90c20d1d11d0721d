-- ===== src/Replay/Checks/Answers.antt =====
-- What the verdicts of a precheck and a postcheck say of the answer that they read
-- (tandem/replay/precheck.py, postcheck.py).
use tandem_interface_ai.Prelude.{String, ◌≡◌, inl, inr, arith, Bool, true, Bool-cases}
use tandem_interface_ai.Prelude.Eq.{nat_eq, string_eq}
use tandem_interface_ai.Domain.Effects.{class_eq}
use tandem_interface_ai.Domain.Outcomes.{
  success, business_outcome, not_applied, already_applied, confirmed_not_applied, category_eq,
  code_eq,
}
use tandem_interface_ai.Replay.Inquiry.{
  Fields, Body, fields, malformed, not_object, Response, answered, unreachable,
  CapabilityDefinition, precheck_response, postcheck_response, precheck_fields, postcheck_fields,
  identity_matches,
}

-- A target's answer in which the effect is there, with the identity that was asked for.
pub record Shows (c : CapabilityDefinition) (inputs : Fields) (r : Response) : Type 0 where
  pub observed : Fields
  pub answer : r ≡ answered 200 (fields observed)
  pub identity : identity_matches c inputs observed ≡ true

-- A target's answer that the effect is absent.
pub record Denies (r : Response) : Type 0 where
  pub body : Body
  pub answer : r ≡ answered 404 body

module _ (c : CapabilityDefinition) (inputs : Fields) where
  pub precheck_denied :
      (r : Response) → (precheck_response c inputs r).code ≡ not_applied → Denies r
  unfolding precheck_response precheck_fields
  precheck_denied unreachable h = absurd (ground (arith, h))
  precheck_denied (answered s malformed) h = record { body = malformed; answer = ground (arith, h) }
  precheck_denied (answered s not_object) h = record {
    body = not_object;
    answer = ground (arith, h);
  }
  precheck_denied (answered s (fields d)) h = record {
    body = fields d;
    answer = elim (Bool-cases (identity_matches c inputs d)) [
      | inl y ↦ ground (arith, h, y)
      | inr y ↦ ground (arith, h, y)
    ];
  }

  pub precheck_shown :
      (r : Response) → (precheck_response c inputs r).code ≡ already_applied → Shows c inputs r
  unfolding precheck_response precheck_fields
  precheck_shown unreachable h = absurd (ground (arith, h))
  precheck_shown (answered s malformed) h = absurd (ground (arith, h))
  precheck_shown (answered s not_object) h = absurd (ground (arith, h))
  precheck_shown (answered s (fields d)) h = elim (Bool-cases (identity_matches c inputs d)) [
    | inl y ↦ record { observed = d; answer = ground (arith, h, y); identity = y }
    | inr y ↦ absurd (ground (arith, h, y))
  ]

  module _ (moves : Bool) (field : String) where
    pub postcheck_denied :
        (r : Response)
        → (postcheck_response moves field c inputs r).code ≡ confirmed_not_applied
        → Denies r
    unfolding postcheck_response postcheck_fields
    postcheck_denied unreachable h = absurd (ground (arith, h))
    postcheck_denied (answered s malformed) h = record {
      body = malformed;
      answer = ground (arith, h);
    }
    postcheck_denied (answered s not_object) h = record {
      body = not_object;
      answer = ground (arith, h);
    }
    postcheck_denied (answered s (fields d)) h = record {
      body = fields d;
      answer = elim (Bool-cases (identity_matches c inputs d)) [
        | inl y ↦ ground (arith, h, y)
        | inr y ↦ ground (arith, h, y)
      ];
    }

    pub postcheck_shown :
        (r : Response)
        → (postcheck_response moves field c inputs r).category ≡ success
        → Shows c inputs r
    unfolding postcheck_response postcheck_fields
    postcheck_shown unreachable h = absurd (ground (arith, h))
    postcheck_shown (answered s malformed) h = absurd (ground (arith, h))
    postcheck_shown (answered s not_object) h = absurd (ground (arith, h))
    postcheck_shown (answered s (fields d)) h = elim (Bool-cases (identity_matches c inputs d)) [
      | inl y ↦ record { observed = d; answer = ground (arith, h, y); identity = y }
      | inr y ↦ absurd (ground (arith, h, y))
    ]

  -- An answer that the effect is absent gives a business outcome.
  pub postcheck_absent_category :
      (moves : Bool) (field : String) (r : Response)
      → (postcheck_response moves field c inputs r).code ≡ confirmed_not_applied
      → (postcheck_response moves field c inputs r).category ≡ business_outcome
  unfolding postcheck_response postcheck_fields
  postcheck_absent_category moves field unreachable h = ground (arith, h)
  postcheck_absent_category moves field (answered s malformed) h = ground (arith, h)
  postcheck_absent_category moves field (answered s not_object) h = ground (arith, h)
  postcheck_absent_category moves field (answered s (fields d)) h =
      elim (Bool-cases (identity_matches c inputs d)) [
        | inl y ↦ ground (arith, h, y)
        | inr y ↦ ground (arith, h, y)
      ]
