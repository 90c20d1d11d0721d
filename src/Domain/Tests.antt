-- ===== src/Domain/Tests.antt =====
-- The domain's contracts on concrete values.
use tandem_interface_ai.Prelude.{
  ℕ, ◌^◌, ◌*◌, ◌≤◌, ◌≡◌, arith, false, not, ◌&&◌, ◌||◌, none, some, if◌then◌else◌,
}
use tandem_interface_ai.Prelude.Eq.{◌==◌}
use tandem_interface_ai.Domain.Effects.{
  EffectSpec, commit, class_eq, validate_commit_safety_contract,
}
use tandem_interface_ai.Domain.Effects.Contract.{declares_all, validate_commit_safety_contract_lem}
use tandem_interface_ai.Domain.Outcomes.{
  ExecutionOutcome, recoverable_failure, network_timeout, outcome, requires_human, is_retryable,
}
use tandem_interface_ai.Domain.Outcomes.Results.{
  to_result, is_failure, failure_requires_human, to_result_partition,
}
use tandem_interface_ai.Domain.Money.{finite, decimal, max_money, signed, parse_money}
use tandem_interface_ai.Domain.Money.Rounding.{IsNearest, parse_money_near}

abbrev bare : EffectSpec
bare = record {
  effect_class = commit;
  identity = none;
  idempotency_key = some "key";
  precheck = none;
  postcheck = none;
  reconciliation = none;
  compensation = none;
  bounds = none;
}

validate_commit_safety_contract_lem_example :
    validate_commit_safety_contract bare
    ≡ (if bare.effect_class == commit && not (declares_all bare) then none else some bare)
validate_commit_safety_contract_lem_example = validate_commit_safety_contract_lem bare

abbrev timed_out : ExecutionOutcome
timed_out = outcome recoverable_failure network_timeout ""

to_result_partition_example :
    (failure_requires_human (to_result timed_out) ≡ requires_human timed_out)
    × (is_failure (to_result timed_out) ≡ requires_human timed_out || is_retryable timed_out)
to_result_partition_example = to_result_partition timed_out

in_range : 12345 * 100 ≤ max_money * 10 ^ 3
in_range = omega arith

-- 12.345
parse_money_near_example :
    (m : ℕ) × (parse_money (decimal (finite false 12345 3)) ≡ some (signed false m))
    × IsNearest (12345 * 100) (10 ^ 3) m
parse_money_near_example = parse_money_near false 12345 3 in_range
