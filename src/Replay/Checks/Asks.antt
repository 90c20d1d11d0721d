-- ===== src/Replay/Checks/Asks.antt =====
-- The request that asks after an effect (tandem/replay/precheck.py, postcheck.py): which case it
-- names, and which of the target systems it goes to.
use tandem_interface_ai.Prelude.{
  String, ◌≡◌, inl, inr, arith, Bool, true, false, ◌||◌, some, Bool-cases, if◌then◌else◌,
}
use tandem_interface_ai.Prelude.Eq.{◌==◌, string_eq}
use tandem_interface_ai.Prelude.Substring.{contains}
use tandem_interface_ai.Replay.Inquiry.{
  Dynamic, Fields, get, if_true, Url, alpha_credits, beta_credits, chargebacks, notices,
  CapabilityDefinition,
}
use tandem_interface_ai.Replay.Checks.{
  Route, at, normalize_institution_id, core_bank_url_for, route_of,
}

-- The case that a request names.
abbrev pub case_in : Url → String
case_in (alpha_credits case_id) = case_id
case_in (beta_credits case_id) = case_id
case_in (chargebacks case_id) = case_id
case_in (notices case_id) = case_id

abbrev pub is_credit : CapabilityDefinition → Bool
is_credit c = c.system == "core_bank" || contains c.id "provisional_credit"

abbrev pub is_chargeback : CapabilityDefinition → Bool
is_chargeback c = c.system == "processor" || contains c.id "chargeback"

abbrev pub is_notice : CapabilityDefinition → Bool
is_notice c = c.system == "documents" || contains c.id "notice"

module _ (lower : String → String) (c : CapabilityDefinition) (inputs : Fields) where
  -- The request goes to the system that keeps the capability's effects: the core bank of the
  -- inputs' institution, the processor or the documents.
  abbrev pub Serves : Url → Type 0
  Serves (alpha_credits case_id) =
      (is_credit c ≡ true)
      × (normalize_institution_id lower (get "institution_id" inputs) ≡ "alpha")
  Serves (beta_credits case_id) =
      (is_credit c ≡ true) × (normalize_institution_id lower (get "institution_id" inputs) ≡ "beta")
  Serves (chargebacks case_id) = (is_credit c ≡ false) × (is_chargeback c ≡ true)
  Serves (notices case_id) =
      (is_credit c ≡ false) × (is_chargeback c ≡ false) × (is_notice c ≡ true)

-- A request that asks after the effect of a capability with these inputs: it names the case of the
-- inputs, at the system that keeps such effects.
pub record Asks (lower : String → String) (c : CapabilityDefinition) (inputs : Fields) (url : Url)
    : Type 0 where
  pub case : Dynamic
  pub known : if_true (get "case_id" inputs) ≡ some case
  pub named : case_in url ≡ case.shown
  pub served : Serves lower c inputs url

module _ (lower : String → String) (c : CapabilityDefinition) (inputs : Fields) where
  core_bank-Serves :
      (case_id : String) (url : Url) (moves : Bool) (field : String)
      → is_credit c ≡ true
      → core_bank_url_for lower (get "institution_id" inputs) case_id ≡ at url moves field
      → (case_in url ≡ case_id) × Serves lower c inputs url
  unfolding core_bank_url_for
  core_bank-Serves case_id (alpha_credits x) moves field k h =
      (ground (arith, h), (k, (string_eq.beq_iff _ _).0 (ground (arith, h))))
  core_bank-Serves case_id (beta_credits x) moves field k h =
      (ground (arith, h), (k, (string_eq.beq_iff _ _).0 (ground (arith, h))))
  core_bank-Serves case_id (chargebacks x) moves field k h = absurd (ground (arith, h))
  core_bank-Serves case_id (notices x) moves field k h = absurd (ground (arith, h))

  elsewhere :
      (case_id : String) (url : Url) (moves : Bool) (field : String)
      → is_credit c ≡ false
      → (if is_chargeback c
          then at (chargebacks case_id) false "network_ref"
          else if is_notice c
          then at (notices case_id) false "notice_id"
          else Route.unregistered)
        ≡ at url moves field
      → (case_in url ≡ case_id) × Serves lower c inputs url
  elsewhere case_id (alpha_credits x) moves field k h = absurd (ground (arith, h))
  elsewhere case_id (beta_credits x) moves field k h = absurd (ground (arith, h))
  elsewhere case_id (chargebacks x) moves field k h = (ground (arith, h), (k, ground (arith, h)))
  elsewhere case_id (notices x) moves field k h =
      (ground (arith, h), (k, ground (arith, h), ground (arith, h)))

  route_of-Serves :
      (case_id : String) (url : Url) (moves : Bool) (field : String)
      → route_of lower c inputs case_id ≡ at url moves field
      → (case_in url ≡ case_id) × Serves lower c inputs url
  unfolding route_of
  route_of-Serves case_id url moves field h = elim (Bool-cases (is_credit c)) [
    | inl k ↦ core_bank-Serves case_id url moves field k (rw k at h)
    | inr k ↦ elsewhere case_id url moves field k (rw k at h)
  ]

  -- The route that a check takes for the case of its inputs.
  pub route_of-Asks :
      (case : Dynamic) (url : Url) (moves : Bool) (field : String)
      → if_true (get "case_id" inputs) ≡ some case
      → route_of lower c inputs case.shown ≡ at url moves field
      → Asks lower c inputs url
  route_of-Asks case url moves field known h =
      let (named, served) = route_of-Serves case.shown url moves field h in
      record { case = case; known = known; named = named; served = served }
