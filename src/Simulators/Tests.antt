-- ===== src/Simulators/Tests.antt =====
-- Postings to a core bank with one member.
use tandem_interface_ai.Prelude.{
  ◌≤◌, sym, String, ◌≡◌, refl, none, List, [], ◌∷◌, is_some, if◌then◌else◌,
}
use tandem_interface_ai.Prelude.Eq.{string_eq, pair_eq}
use tandem_interface_ai.Prelude.Int.{ℤ, pos, ◌+ℤ◌}
use tandem_interface_ai.Prelude.Table.{select_one, update_where, rowcount}
use tandem_interface_ai.Ledger.Session.{ok}
use tandem_interface_ai.Simulators.CoreBank.{
  Member, ProvisionalCredit, CoreBankState, Draws, Posting, post_credit, post_new,
  find_credit_by_case, effect_count,
}
use tandem_interface_ai.Simulators.CoreBank.Once.{run, OncePerCase, posted_at_most_once}
use tandem_interface_ai.Simulators.CoreBank.Balance.{
  balance_of, credited, Explained, run-Explained, +ℤ_zero,
}

abbrev jane : Member
jane = record {
  institution_id = "alpha";
  member_id = "8830142";
  account_id = "CHK-1";
  balance = pos 124050;
}

abbrev bank : CoreBankState
bank = record { institution_id = "alpha"; members = jane ∷ []; credits = []; effect_history = [] }

abbrev drawn : Draws
drawn = record { credit_id = "CRD-10001"; memo_code = "MC-7001"; posted_at = "2026-01-01" }

abbrev drawn_later : Draws
drawn_later = record { credit_id = "CRD-20002"; memo_code = "MC-7002"; posted_at = "2026-01-02" }

abbrev posting : Posting
posting = record {
  case_id = "DSP-1";
  member_id = "8830142";
  amount = pos 34000;
  currency = "USD";
  business_reference = none;
  institution_id = none;
}

abbrev credit : ProvisionalCredit
credit = record {
  credit_id = "CRD-10001";
  case_id = "DSP-1";
  member_id = "8830142";
  account_id = "CHK-1";
  amount = pos 34000;
  memo_code = "MC-7001";
  posted_at = "2026-01-01";
  status = "POSTED";
  currency = "USD";
  business_reference = "DSP-1";
  institution_id = "alpha";
}

abbrev after : CoreBankState
after = (post_credit drawn posting bank).1

posting_runs : post_credit drawn posting bank ≡ (ok credit, after)
unfolding post_credit post_new select_one update_where
posting_runs = refl

abbrev calls : List (Draws × Posting)
calls = (drawn, posting) ∷ (drawn_later, posting) ∷ []

bank-OncePerCase : OncePerCase bank
unfolding select_one rowcount
bank-OncePerCase k = refl

posted_at_most_once_example :
    (effect_count "DSP-1" (run calls bank) ≤ 1)
    × (effect_count "DSP-1" (run calls bank)
        ≡ (if is_some (find_credit_by_case "DSP-1" (run calls bank)) then 1 else 0))
posted_at_most_once_example = posted_at_most_once calls bank "DSP-1" bank-OncePerCase

abbrev opening : String × String → ℤ
opening k = balance_of k bank

bank-Explained : Explained opening bank
unfolding credited
bank-Explained k = sym (+ℤ_zero (balance_of k bank))

run-Explained_example :
    balance_of ("alpha", "8830142") (run calls bank)
    ≡ opening ("alpha", "8830142") +ℤ credited ("alpha", "8830142") (run calls bank).credits
run-Explained_example = run-Explained opening calls bank bank-Explained ("alpha", "8830142")
