-- ===== src/Simulators/CoreBank/Balance.antt =====
-- Balances are explained by the credits in the table: no credit moves money twice or none.
use tandem_interface_ai.Prelude.{
  String, ◌≡◌, refl, arith, true, Option, none, some, List, [], ◌∷◌, ◌++◌, inl, inr, Option-cases,
  if◌then◌else◌,
}
use tandem_interface_ai.Prelude.Eq.{◌==◌, string_eq, pair_eq}
use tandem_interface_ai.Prelude.Int.{ℤ, pos, ◌+ℤ◌, int_eq}
use tandem_interface_ai.Prelude.Table.{select_one, select_one-update_where, key-select_one}
use tandem_interface_ai.Simulators.CoreBank.{
  Member, ProvisionalCredit, CoreBankState, member_key, credit_key, Draws, Posting,
  target_institution, new_credit, posted, post_new, post_credit,
}
use tandem_interface_ai.Simulators.CoreBank.Once.{target, run}

abbrev pub balance_in : Option Member → ℤ
balance_in none = pos 0
balance_in (some m) = m.balance

-- A member's balance; a member that is not there has none.
abbrev pub balance_of : String × String → CoreBankState → ℤ
balance_of k s = balance_in (select_one member_key k s.members)

abbrev pub credited_key : ProvisionalCredit → String × String
credited_key c = (c.institution_id, c.member_id)

-- The sum of the credits of a member.
unfoldable pub credited : String × String → List ProvisionalCredit → ℤ
credited k [] = pos 0
credited k (c ∷ t) = (if credited_key c == k then c.amount else pos 0) +ℤ credited k t

+ℤ_assoc : (a b c : ℤ) → (a +ℤ b) +ℤ c ≡ a +ℤ (b +ℤ c)
unfolding ◌+ℤ◌
+ℤ_assoc a b c = ground arith

pub +ℤ_zero : (a : ℤ) → a +ℤ pos 0 ≡ a
unfolding ◌+ℤ◌
+ℤ_zero a = ground arith

zero_+ℤ : (a : ℤ) → pos 0 +ℤ a ≡ a
unfolding ◌+ℤ◌
zero_+ℤ a = ground arith

credited-append :
    (k : String × String) (t : List ProvisionalCredit) (c : ProvisionalCredit)
    → credited k (t ++ c ∷ []) ≡ credited k t +ℤ (if credited_key c == k then c.amount else pos 0)
unfolding credited
credited-append k [] c = ground (
  arith,
  +ℤ_zero (if credited_key c == k then c.amount else pos 0),
  zero_+ℤ (if credited_key c == k then c.amount else pos 0),
)
credited-append k (x ∷ t) c = ground (
  arith,
  credited-append k t c,
  +ℤ_assoc (if credited_key x == k then x.amount else pos 0) (credited k t)
      (if credited_key c == k then c.amount else pos 0),
)

-- Every balance is the opening one and the member's credits.
abbrev pub Explained : (String × String → ℤ) → CoreBankState → Type 0
Explained opening s = (k : String × String) → balance_of k s ≡ opening k +ℤ credited k s.credits

posted_balance :
    (d : Draws) (p : Posting) (m : Member) (s : CoreBankState) (k : String × String)
    → select_one member_key (target_institution p s, p.member_id) s.members ≡ some m
    → balance_of k (posted d p m s)
      ≡ balance_of k s +ℤ (if credited_key (new_credit d p m s) == k then p.amount else pos 0)
posted_balance d p m s (i, j) known =
    let f : Member → Member = λ x. record x { balance = m.balance +ℤ p.amount } in
    let updated =
      select_one-update_where member_key f (λ x. refl) (i, j) (target_institution p s, p.member_id)
        (λ _. true) s.members in
    elim (Option-cases (select_one member_key (i, j) s.members)) [
      | inl nothing ↦ ground (
        arith,
        known,
        nothing,
        updated,
        string_eq.beq_iff (target_institution p s) i,
        string_eq.beq_iff p.member_id j,
        +ℤ_zero (pos 0),
      )
      | inr (x, there) ↦ ground (
        arith,
        known,
        there,
        updated,
        string_eq.beq_iff (target_institution p s) i,
        string_eq.beq_iff p.member_id j,
        key-select_one member_key (i, j) s.members there,
        string_eq.beq_iff x.institution_id (target_institution p s),
        string_eq.beq_iff x.member_id p.member_id,
        +ℤ_zero x.balance,
      )
    ]

post_credit-Explained :
    (opening : String × String → ℤ) (d : Draws) (p : Posting) (s : CoreBankState)
    → Explained opening s
    → Explained opening (post_credit d p s).1
unfolding post_credit post_new
post_credit-Explained opening d p s h k =
    elim (Option-cases (select_one credit_key (target p s) s.credits)) [
      | inr (x, there) ↦ ground (arith, h k, there)
      | inl nothing ↦
          elim (Option-cases
            (select_one member_key (target_institution p s, p.member_id) s.members)) [
              | inl unknown ↦ ground (arith, h k, nothing, unknown)
              | inr (m, known) ↦
                  let moved =
                    (if credited_key (new_credit d p m s) == k then p.amount else pos 0) in
                  ground (
                    arith,
                    h k,
                    nothing,
                    known,
                    posted_balance d p m s k known,
                    credited-append k s.credits (new_credit d p m s),
                    +ℤ_assoc (opening k) (credited k s.credits) moved,
                  )
            ]
    ]

-- From a state where it is so: whatever credits are requested, in whatever order and however often,
-- every member's balance stays
-- the opening balance and the member's credits in the table, each counted once.
pub run-Explained :
    (opening : String × String → ℤ) (calls : List (Draws × Posting)) (s : CoreBankState)
    → Explained opening s
    → (k : String × String)
    → balance_of k (run calls s) ≡ opening k +ℤ credited k (run calls s).credits
unfolding run
run-Explained opening [] s h k = h k
run-Explained opening ((d, p) ∷ rest) s h k =
    run-Explained opening rest (post_credit d p s).1 (post_credit-Explained opening d p s h) k
