-- ===== src/Replay/Engine.antt =====
-- The engine's run of a capability: `EffectEngine.execute_capability` (tandem/replay/engine.py). The
-- platform is a parameter: texts, the targets' answers, and the browser's run of a page, which may
-- renew the lease before each of its actions. Crash injection, which only tests use, is left out.
pub mod Admit
pub mod Act
pub mod Fenced
pub mod Quiet
pub mod Settled
pub mod Untouched
use tandem_interface_ai.Prelude.{
  ℕ, String, Bool, true, false, not, ◌&&◌, ◌||◌, Option, none, some, List, [], ◌∷◌, any_of, ltb,
  leb, zero, suc, if◌then◌else◌,
}
use tandem_interface_ai.Prelude.Eq.{◌==◌, string_eq, nat_eq}
use tandem_interface_ai.Prelude.Int.{ℤ, pos, negsuc}
use tandem_interface_ai.Domain.Values.{Dict}
use tandem_interface_ai.Domain.Errors.{Result, ok, raised}
use tandem_interface_ai.Domain.Money.{MoneyInput, Decimal, finite, decimal, parse_money}
use tandem_interface_ai.Domain.Effects.{BoundsSpec, commit, class_eq}
use tandem_interface_ai.Domain.Capability.{
  CapabilityDefinition, StepDefinition, http_post, action_eq,
}
use tandem_interface_ai.Domain.Identity.{EffectIdentity, Texts, from_capability}
use tandem_interface_ai.Domain.Fields.{Dynamic, Fields, get, set, set_default, shown_or, text_value}
use tandem_interface_ai.Domain.Outcomes.{
  ExecutionOutcome, OutcomeCode, hard_failure, precheck_unavailable, outcome,
}
use tandem_interface_ai.Ledger.Session.{M}
use tandem_interface_ai.Replay.Inquiry.{
  Response, Body, malformed, not_object, fields, unreachable, answered, Url,
}
use tandem_interface_ai.Replay.Checks.{normalize_institution_id}
use tandem_interface_ai.Replay.Http.{PostUrl, execute_http_commit}

-- `member` answers a request for a member at an institution's core bank.
pub record Platform : Type 0 where
  pub texts : Texts
  pub lower : String → String
  pub show_decimal : ℤ → String
  pub fetch : Url → ℕ → Response
  pub member : String → String → Response
  pub post : PostUrl → Dict → Response
  pub browser : M (Unit {0}) → CapabilityDefinition → Fields → M ExecutionOutcome

-- An engine: its owner identifier, its surface's institution, its browser session.
pub record EffectEngine : Type 0 where
  pub owner_id : String
  pub institution : Option String
  pub browser_session_id : Option String

-- A parsed amount, as the `Decimal` with two places that it is.
abbrev pub decimal_of : ℤ → Decimal
decimal_of (pos n) = finite false n 2
decimal_of (negsuc n) = finite true (suc n) 2

abbrev is_zero : ℤ → Bool
is_zero (pos zero) = true
is_zero _ = false

abbrev pub amount_value : (ℤ → String) → ℤ → Dynamic
amount_value show a = record {
  shown = show a;
  truthy = not (is_zero a);
  money = decimal (decimal_of a);
}

-- `inputs.get("amount", "0.00")`
abbrev pub amount_input : Option Dynamic → MoneyInput
amount_input none = decimal (finite false 0 2)
amount_input (some v) = v.money

abbrev pub bound_currency : Option BoundsSpec → String
bound_currency none = "USD"
bound_currency (some bounds) = bounds.currency

abbrev pub institution_or : Option String → String
institution_or none = "alpha"
institution_or (some i) = i

-- The inputs with their amount parsed, an institution and a currency.
unfoldable pub complete_inputs :
    Platform → EffectEngine → CapabilityDefinition → ℤ → Fields → Fields
unfolding set set_default
complete_inputs p e c amount inputs =
    set_default "currency" (text_value (bound_currency c.effect.bounds) none) (
      set_default "institution_id" (text_value (institution_or e.institution) none)
        (set "amount" (amount_value p.show_decimal amount) inputs))

-- The member's account, from the answer of the core bank.
abbrev pub account_in : String → Option Dynamic → Option Dynamic → Option String
account_in member_id shown_id none = none
account_in member_id shown_id (some account) =
    if shown_or "" shown_id == member_id then some account.shown else none

abbrev pub account_of_body : String → Body → Option String
account_of_body member_id malformed = none
account_of_body member_id not_object = none
account_of_body member_id (fields d) = account_in member_id (get "member_id" d) (get "account_id" d)

unfoldable pub account_of : String → Response → Option String
account_of member_id unreachable = none
account_of member_id (answered status body) =
    if leb 200 status && ltb status 300 then account_of_body member_id body else none

-- The inputs with the account that they need, or how the run ends without one.
pub data Bound : Type 0 where
  unbound : ExecutionOutcome → Bound
  bound : Fields → Bound

abbrev pub bind_with : Fields → Option String → Bound
bind_with inputs none = unbound (outcome hard_failure precheck_unavailable "")
bind_with inputs (some account) = bound (set "account_id" (text_value account none) inputs)

-- `core_bank_url_for` of an institution that has a core bank.
abbrev pub is_routed : String → Bool
is_routed institution = institution == "alpha" || institution == "beta"

abbrev pub is_true : Option Dynamic → Bool
is_true none = false
is_true (some v) = v.truthy

unfoldable pub bind_account : Platform → CapabilityDefinition → String → Fields → Bound
unfolding account_of
bind_account p c member_id inputs =
    let institution = normalize_institution_id p.lower (get "institution_id" inputs) in
    if c.effect.effect_class == commit && not (is_true (get "account_id" inputs))
    then (if not (c.system == "core_bank")
        then unbound (outcome hard_failure OutcomeCode.entity_binding_mismatch "")
        else bind_with inputs (
            if is_routed institution
            then account_of member_id (p.member institution member_id)
            else none))
    else bound inputs

-- Only a COMMIT has an identity.
unfoldable pub identity_of :
    Platform → CapabilityDefinition → Fields → Result (Option EffectIdentity)
identity_of p c inputs =
    if c.effect.effect_class == commit
    then elim (from_capability p.texts c inputs) [ raised e ↦ raised e | ok i ↦ ok (some i) ]
    else ok none

abbrev pub is_http : CapabilityDefinition → Bool
is_http c = any_of (λ s. s.action == http_post) c.steps

-- How a run continues after its admission: it is over, it acts under a claim, or, without a COMMIT,
-- it acts with at most a key.
pub data Admitted : Type 0 where
  finished : ExecutionOutcome → Admitted
  fenced : String → ℕ → Admitted
  unfenced : Option String → Admitted
