-- ===== src/Replay/Tests/Recovery.antt =====
-- A claim whose worker died before the target had the effect.
use tandem_interface_ai.Prelude.{
  String, ◌≡◌, ◌⊎◌, refl, arith, true, none, some, [], ◌∷◌, if◌then◌else◌,
}
use tandem_interface_ai.Prelude.Int.{pos}
use tandem_interface_ai.Ledger.Models.{EffectClaimRecord}
use tandem_interface_ai.Prelude.Eq.{◌==◌, string_eq}
use tandem_interface_ai.Prelude.Substring.{contains}
use tandem_interface_ai.Prelude.Table.{
  KeysUnique, select_one, insert_or_ignore, update_where, rowcount,
}
use tandem_interface_ai.Domain.Effects.{applied, claimed, failed_retryable, commit}
use tandem_interface_ai.Domain.Capability.{CapabilityDefinition}
use tandem_interface_ai.Domain.Errors.{ok}
use tandem_interface_ai.Ledger.Session.{World}
use tandem_interface_ai.Ledger.Events.{record_event}
use tandem_interface_ai.Ledger.Claims.{claim_key, transition_effect_claim, record_transitioned}
use tandem_interface_ai.Ledger.Tests.{with_claim, claim_row}
use tandem_interface_ai.Replay.Inquiry.{Url, get, precheck_response}
use tandem_interface_ai.Replay.Checks.{
  execute_precheck, route_of, core_bank_url_for, normalize_institution_id,
}
use tandem_interface_ai.Replay.Checks.Answers.{Shows, Denies}
use tandem_interface_ai.Replay.Checks.Asks.{Asks}
use tandem_interface_ai.Replay.CrashRecovery.Owner.{
  Processes, DeadOwner, local_owner_is_dead, owner_pid, until_colon, after_colon,
}
use tandem_interface_ai.Replay.CrashRecovery.{
  Outside, inputs_of, recover_claim, resolve, confirm_absent, report_absent,
}
use tandem_interface_ai.Replay.CrashRecovery.Evidenced.{Settled, recovered_by_evidence}
use tandem_interface_ai.Replay.Tests.{credit, absent, same}

-- A claim of another process's worker.
abbrev dead_row : EffectClaimRecord
dead_row = record (claim_row claimed) { owner_id = "AUTOMATION:7:f0" }

abbrev with_dead_row : World
with_dead_row = record (with_claim claimed) {
  db = record (with_claim claimed).db { claims = dead_row ∷ [] };
}

abbrev processes : Processes
processes = record {
  own_pid = pos 8;
  read_int = λ s. if s == "7" then some (pos 7) else none;
  process_is_dead = λ _. true;
}

abbrev outside : Outside
outside = record {
  processes = processes;
  load = λ _. ok credit;
  show_decimal = λ _. "340.00";
  lower = same;
  fetch = absent;
}

abbrev recovered : World
recovered = (recover_claim outside "DSP-1" dead_row 0 with_dead_row).1

recovers : recover_claim outside "DSP-1" dead_row 0 with_dead_row ≡ (ok none, recovered)
unfolding recover_claim local_owner_is_dead owner_pid until_colon after_colon execute_precheck
    inputs_of get route_of core_bank_url_for normalize_institution_id contains precheck_response
    resolve confirm_absent report_absent transition_effect_claim record_transitioned record_event
    select_one insert_or_ignore update_where rowcount
recovers = refl

unique_claim : KeysUnique claim_key with_dead_row.db.claims
unfolding select_one
unique_claim = (refl, tt)

all_commits :
    (id : String) (c : CapabilityDefinition) → ok credit ≡ ok c → c.effect.effect_class ≡ commit
all_commits id c h = ground (arith, h)

recovered_by_evidence_example :
    DeadOwner processes "AUTOMATION:7:f0"
    × ((c : CapabilityDefinition) × (ok credit ≡ ok c)
        × ((((url : Url) × Asks same c (inputs_of outside dead_row) url
                × Shows c (inputs_of outside dead_row) (absent url 0))
              × Settled "CHK-8830142-01" applied recovered)
            ⊎ (((url : Url) × Asks same c (inputs_of outside dead_row) url × Denies (absent url 0))
                × Settled "CHK-8830142-01" failed_retryable recovered)))
recovered_by_evidence_example =
    recovered_by_evidence outside "DSP-1" dead_row 0 with_dead_row recovered unique_claim
      all_commits refl recovers
