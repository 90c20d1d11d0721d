-- ===== src/Domain/Outcomes/Results.antt =====
-- tandem/domain/result_contract.py: the discriminated result of a call.
use tandem_interface_ai.Prelude.{
  ◌||◌, String, ◌≡◌, Bool, true, false, Option, none, some, arith, if◌then◌else◌,
}
use tandem_interface_ai.Domain.Values.{Dict}
use tandem_interface_ai.Domain.Outcomes.{
  OutcomeCategory, OutcomeCode, ExecutionOutcome, is_success, is_business_terminal, is_retryable,
  requires_human,
}

pub record Failure : Type 0 where
  pub classification : OutcomeCategory
  pub code : OutcomeCode
  pub step : Option String
  pub expected : String
  pub observed : String
  pub evidence : Option String
  pub requires_human : Bool

pub data CallResult : Type 0 where
  success : Dict → CallResult
  business_outcome : OutcomeCode → Dict → CallResult
  failure : Failure → CallResult

-- `x or default`, where an empty text is false too.
abbrev or_text : Option String → String → String
or_text none d = d
or_text (some String.[]) d = d
or_text (some s) d = s

unfoldable pub to_result : ExecutionOutcome → CallResult
to_result o =
    if is_success o
    then success o.outputs
    else if is_business_terminal o
    then business_outcome o.code o.details
    else failure (record {
      classification = o.category;
      code = o.code;
      step = o.failed_step;
      expected = or_text o.expected "Declared capability checkpoint";
      observed = or_text o.observed o.message;
      evidence = o.evidence;
      requires_human = requires_human o;
    })

abbrev pub is_failure : CallResult → Bool
is_failure (failure _) = true
is_failure _ = false

abbrev pub failure_requires_human : CallResult → Bool
failure_requires_human (failure f) = f.requires_human
failure_requires_human _ = false

-- A caller sees a failure exactly when the outcome requires a human or may be retried, and the
-- failure asks for a human exactly when the outcome requires one.
pub to_result_partition :
    (o : ExecutionOutcome)
    → (failure_requires_human (to_result o) ≡ requires_human o)
      × (is_failure (to_result o) ≡ requires_human o || is_retryable o)
unfolding to_result is_success is_business_terminal is_retryable requires_human
to_result_partition o = (ground arith, ground arith)
