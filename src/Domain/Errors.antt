-- ===== src/Domain/Errors.antt =====
-- What a call may raise: the exception hierarchy of tandem/domain/errors.py, the built-in
-- exceptions that the modelled code raises, and the database's integrity error.

pub data Error : Type 0 where
  schema_validation : Error
  policy_violation : Error
  entity_binding_mismatch : Error
  amount_mismatch : Error
  uncertain_effect : Error
  precheck : Error
  postcheck : Error
  page_drift : Error
  session_expired : Error
  compliance_interstitial : Error
  lease_conflict : Error
  ledger_integrity : Error
  value_error : Error
  runtime_error : Error
  integrity_error : Error
  invalid_operation : Error

-- What a call returns, or raises.
pub data Result (A : Type 0) : Type 0 where
  ok : A → Result A
  raised : Error → Result A
