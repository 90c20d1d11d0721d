-- ===== src/Replay/CrashRecovery/Owner.antt =====
-- Whether the worker that owns a claim is dead: `_local_owner_is_dead` of
-- tandem/replay/crash_recovery.py. What Python reads as an integer and what the operating system
-- says of a process are parameters.
use tandem_interface_ai.Prelude.{
  String, ◌≡◌, ◌≢◌, arith, Bool, true, false, Option, none, some, Bool-cases, Option-cases, inl,
  inr, if◌then◌else◌,
}
use tandem_interface_ai.Prelude.Eq.{◌==◌, string_eq}
use tandem_interface_ai.Prelude.Int.{ℤ, int_eq}
use package.text.Mathlib.Text.{starts_with}

-- `process_is_dead` is the failure of `os.kill(pid, 0)`, or on Windows what the process's exit code
-- says.
pub record Processes : Type 0 where
  pub own_pid : ℤ
  pub read_int : String → Option ℤ
  pub process_is_dead : ℤ → Bool

-- The text before the first colon: the first part of `split(":", 2)`.
unfoldable pub until_colon : String → String
until_colon String.[] = String.[]
until_colon (String.◌∷◌ c s) =
    let rest = until_colon s in
    if starts_with (String.◌∷◌ c s) ":" then String.[] else String.◌∷◌ c rest

-- The text after the first colon, if there is one.
unfoldable pub after_colon : String → Option String
after_colon String.[] = none
after_colon (String.◌∷◌ c s) =
    let rest = after_colon s in if starts_with (String.◌∷◌ c s) ":" then some s else rest

-- The process of an owner, where its name has one.
unfoldable pub owner_pid : Processes → String → Option ℤ
unfolding until_colon after_colon
owner_pid x owner_id = elim (after_colon owner_id) [
  | none ↦ none
  | some rest ↦ if until_colon owner_id == "AUTOMATION" then x.read_int (until_colon rest) else none
]

unfoldable pub local_owner_is_dead : Processes → String → Bool
unfolding owner_pid
local_owner_is_dead x owner_id = elim (owner_pid x owner_id) [
  | none ↦ false
  | some pid ↦ if pid == x.own_pid then false else x.process_is_dead pid
]

-- An owner that is an automation worker of another process, which is dead.
pub record DeadOwner (x : Processes) (owner_id : String) : Type 0 where
  pub pid : ℤ
  pub rest : String
  pub kind : until_colon owner_id ≡ "AUTOMATION"
  pub numbered : after_colon owner_id ≡ some rest
  pub process : x.read_int (until_colon rest) ≡ some pid
  pub foreign : pid ≢ x.own_pid
  pub gone : x.process_is_dead pid ≡ true

pub local_owner_is_dead-DeadOwner :
    (x : Processes) (owner_id : String)
    → local_owner_is_dead x owner_id ≡ true
    → DeadOwner x owner_id
unfolding local_owner_is_dead owner_pid
local_owner_is_dead-DeadOwner x owner_id h = elim (Option-cases (after_colon owner_id)) [
  | inl alone ↦ absurd (ground (arith, h, alone))
  | inr (rest, numbered) ↦ elim (Bool-cases (until_colon owner_id == "AUTOMATION")) [
    | inr other ↦ absurd (ground (arith, h, numbered, other))
    | inl kind ↦ elim (Option-cases (x.read_int (until_colon rest))) [
      | inl unread ↦ absurd (ground (arith, h, numbered, kind, unread))
      | inr (pid, process) ↦ record {
        pid = pid;
        rest = rest;
        kind = (string_eq.beq_iff _ _).0 kind;
        numbered = numbered;
        process = process;
        foreign =
            λ own. ground (arith, h, numbered, kind, process, (int_eq.beq_iff pid x.own_pid).1 own);
        gone = ground (arith, h, numbered, kind, process);
      }
    ]
  ]
]
