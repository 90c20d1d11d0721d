-- ===== src/Ledger/Tests/Obligations.antt =====
-- An obligation that is satisfied, and then asked for again.
use tandem_interface_ai.Prelude.{◌≡◌, refl, true, some, [], ◌∷◌}
use tandem_interface_ai.Prelude.Table.{select_one}
use tandem_interface_ai.Ledger.Models.{ObligationRecord, satisfied}
use tandem_interface_ai.Ledger.Session.{World, ok}
use tandem_interface_ai.Ledger.Obligations.{find_obligation, create_obligation, activate_obligation}
use tandem_interface_ai.Ledger.Obligations.History.{
  Reach, here, next, create, activate, is_satisfied, satisfied_is_final,
}
use tandem_interface_ai.Ledger.Tests.{start}

abbrev notice : ObligationRecord
notice = record {
  case_id = "DSP-1";
  obligation_type = "NOTICE";
  due_at = 500;
  status = satisfied;
  created_at = 0;
  activated_at = some 1;
  satisfied_at = some 2;
}

abbrev done : World
done = record start { db = record start.db { obligations = notice ∷ [] } }

create_runs : create_obligation "DSP-1" "NOTICE" 900 done ≡ (ok notice, done)
unfolding create_obligation select_one
create_runs = refl

activate_runs : activate_obligation "DSP-1" "NOTICE" done ≡ (ok notice, done)
unfolding activate_obligation select_one
activate_runs = refl

history : Reach done done
history =
    next (next here (create "DSP-1" "NOTICE" 900 notice create_runs))
      (activate "DSP-1" "NOTICE" notice activate_runs)

satisfied_notice : is_satisfied (find_obligation "DSP-1" "NOTICE" done.db) ≡ true
unfolding select_one
satisfied_notice = refl

satisfied_is_final_example :
    find_obligation "DSP-1" "NOTICE" done.db ≡ find_obligation "DSP-1" "NOTICE" done.db
satisfied_is_final_example = satisfied_is_final "DSP-1" "NOTICE" history satisfied_notice
