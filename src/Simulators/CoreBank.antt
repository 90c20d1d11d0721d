-- ===== src/Simulators/CoreBank.antt =====
-- The core-banking simulator's durable state and its posting of a provisional credit (post_credit,
-- find_credit_by_case and effect_count of simulators/core_bank/state.py). A call runs in one
-- BEGIN IMMEDIATE transaction, so calls follow one another. Balances and amounts are cents: the
-- texts that are stored are read back by `parse_money`. Of a member's row, what posting reads.
pub mod Once
pub mod Balance
use tandem_interface_ai.Prelude.{
  ℕ, String, Bool, true, false, not, ◌||◌, Option, none, some, List, [], ◌∷◌, ◌++◌, if◌then◌else◌,
}
use tandem_interface_ai.Prelude.Eq.{◌==◌, string_eq, pair_eq}
use tandem_interface_ai.Prelude.Int.{ℤ, ◌+ℤ◌, int_eq}
use tandem_interface_ai.Prelude.Table.{select_one, update_where, rowcount}
use tandem_interface_ai.Domain.Errors.{value_error}
use tandem_interface_ai.Ledger.Session.{Result, ok, raised}

pub record Member : Type 0 where
  pub institution_id : String
  pub member_id : String
  pub account_id : String
  pub balance : ℤ

pub record ProvisionalCredit : Type 0 where
  pub credit_id : String
  pub case_id : String
  pub member_id : String
  pub account_id : String
  pub amount : ℤ
  pub memo_code : String
  pub posted_at : String
  pub status : String
  pub currency : String
  pub business_reference : String
  pub institution_id : String

-- The history's payload is read by nobody.
pub record EffectHistory : Type 0 where
  pub institution_id : String
  pub case_id : String
  pub business_reference : String
  pub effect_type : String
  pub recorded_at : String

pub record CoreBankState : Type 0 where
  pub institution_id : String
  pub members : List Member
  pub credits : List ProvisionalCredit
  pub effect_history : List EffectHistory

abbrev pub member_key : Member → String × String
member_key m = (m.institution_id, m.member_id)

abbrev pub credit_key : ProvisionalCredit → String × String
credit_key c = (c.institution_id, c.case_id)

abbrev pub history_key : EffectHistory → String × String
history_key h = (h.institution_id, h.case_id)

-- What one call draws: the random parts of its identifiers and the text of the time.
pub record Draws : Type 0 where
  pub credit_id : String
  pub memo_code : String
  pub posted_at : String

-- `value or default`
abbrev pub or_default : Option String → String → String
or_default none d = d
or_default (some String.[]) d = d
or_default (some s) d = s

pub record Posting : Type 0 where
  pub case_id : String
  pub member_id : String
  pub amount : ℤ
  pub currency : String
  pub business_reference : Option String
  pub institution_id : Option String

abbrev pub target_institution : Posting → CoreBankState → String
target_institution p s = or_default p.institution_id s.institution_id

abbrev pub reference_of : Posting → String
reference_of p = or_default p.business_reference p.case_id

abbrev pub differs : Posting → ProvisionalCredit → Bool
differs p c =
    not (c.member_id == p.member_id)
    || not (c.amount == p.amount)
    || not (c.currency == p.currency)
    || not (c.business_reference == reference_of p)

abbrev pub new_credit : Draws → Posting → Member → CoreBankState → ProvisionalCredit
new_credit d p m s = record {
  credit_id = d.credit_id;
  case_id = p.case_id;
  member_id = p.member_id;
  account_id = m.account_id;
  amount = p.amount;
  memo_code = d.memo_code;
  posted_at = d.posted_at;
  status = "POSTED";
  currency = p.currency;
  business_reference = reference_of p;
  institution_id = target_institution p s;
}

abbrev pub new_history : Draws → Posting → CoreBankState → EffectHistory
new_history d p s = record {
  institution_id = target_institution p s;
  case_id = p.case_id;
  business_reference = reference_of p;
  effect_type = "PROVISIONAL_CREDIT_POSTED";
  recorded_at = d.posted_at;
}

-- The three writes of a posting.
abbrev pub posted : Draws → Posting → Member → CoreBankState → CoreBankState
posted d p m s = record s {
  credits = s.credits ++ new_credit d p m s ∷ [];
  members =
      update_where member_key (target_institution p s, p.member_id) (λ _. true)
        (λ x. record x { balance = m.balance +ℤ p.amount }) s.members;
  effect_history = s.effect_history ++ new_history d p s ∷ [];
}

unfoldable pub post_new :
    Draws → Posting → Option Member → CoreBankState → Result ProvisionalCredit × CoreBankState
post_new d p none s = (raised value_error, s)
post_new d p (some m) s = (ok (new_credit d p m s), posted d p m s)

unfoldable pub post_credit :
    Draws → Posting → CoreBankState → Result ProvisionalCredit × CoreBankState
post_credit d p s = elim (select_one credit_key (target_institution p s, p.case_id) s.credits) [
  | some c ↦ if differs p c then (raised value_error, s) else (ok c, s)
  | none ↦ post_new d p (select_one member_key (target_institution p s, p.member_id) s.members) s
]

unfoldable pub find_credit_by_case : String → CoreBankState → Option ProvisionalCredit
find_credit_by_case case_id s = select_one credit_key (s.institution_id, case_id) s.credits

unfoldable pub effect_count : String → CoreBankState → ℕ
effect_count case_id s =
    rowcount history_key (s.institution_id, case_id) (λ _. true) s.effect_history
