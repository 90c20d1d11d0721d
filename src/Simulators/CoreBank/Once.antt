-- ===== src/Simulators/CoreBank/Once.antt =====
-- A provisional credit is posted at most once for a case, whatever calls are repeated.
use tandem_interface_ai.Prelude.{
  ℕ, ◌+◌, ◌≤◌, String, ◌≡◌, arith, true, List, [], ◌∷◌, ◌++◌, is_some, inl, inr, Option-cases,
  if◌then◌else◌,
}
use tandem_interface_ai.Prelude.Eq.{◌==◌, string_eq, pair_eq, ==_refl}
use tandem_interface_ai.Prelude.Int.{int_eq}
use tandem_interface_ai.Prelude.Table.{select_one, rowcount, select_one-append}
use tandem_interface_ai.Ledger.Session.{ok}
use tandem_interface_ai.Simulators.CoreBank.{
  ProvisionalCredit, EffectHistory, CoreBankState, member_key, credit_key, history_key, Draws,
  Posting, target_institution, reference_of, new_credit, new_history, post_new, post_credit,
  find_credit_by_case, effect_count,
}

abbrev pub target : Posting → CoreBankState → String × String
target p s = (target_institution p s, p.case_id)

-- A repeated posting, with whatever new draws, returns the credit of the first and changes nothing.
pub post_credit_again :
    (d d' : Draws) (p : Posting) (s : CoreBankState) {c : ProvisionalCredit} {s' : CoreBankState}
    → post_credit d p s ≡ (ok c, s')
    → post_credit d' p s' ≡ (ok c, s')
unfolding post_credit post_new
post_credit_again d d' p s {c} {s'} h =
    elim (Option-cases (select_one credit_key (target p s) s.credits)) [
      | inr (x, there) ↦ ground (arith, h, there)
      | inl nothing ↦
          elim (Option-cases
            (select_one member_key (target_institution p s, p.member_id) s.members)) [
              | inl unknown ↦ absurd (ground (arith, h, nothing, unknown))
              | inr (m, known) ↦ ground (
                arith,
                h,
                nothing,
                known,
                ==_refl p.case_id,
                ==_refl (target_institution p s),
                ==_refl p.member_id,
                ==_refl p.amount,
                ==_refl p.currency,
                ==_refl (reference_of p),
                select_one-append credit_key (target p s) s.credits (new_credit d p m s),
              )
            ]
    ]

-- The calls that a history makes, in order, each with what it draws; a refused call changes nothing.
unfoldable pub run : List (Draws × Posting) → CoreBankState → CoreBankState
run [] s = s
run ((d, p) ∷ rest) s = run rest (post_credit d p s).1

abbrev pub effects_at : String × String → CoreBankState → ℕ
effects_at k s = rowcount history_key k (λ _. true) s.effect_history

abbrev pub credits_at : String × String → CoreBankState → ℕ
credits_at k s = if is_some (select_one credit_key k s.credits) then 1 else 0

-- The effect history has one entry for each case that has a credit, and none for the others.
abbrev pub OncePerCase : CoreBankState → Type 0
OncePerCase s = (k : String × String) → effects_at k s ≡ credits_at k s

rowcount-append :
    (k : String × String) (t : List EffectHistory) (r : EffectHistory)
    → rowcount history_key k (λ _. true) (t ++ r ∷ [])
      ≡ rowcount history_key k (λ _. true) t + (if history_key r == k then 1 else 0)
unfolding rowcount
rowcount-append k [] r = ground arith
rowcount-append k (x ∷ t) r = ground (arith, rowcount-append k t r)

post_credit-OncePerCase :
    (d : Draws) (p : Posting) (s : CoreBankState)
    → OncePerCase s
    → OncePerCase (post_credit d p s).1
unfolding post_credit post_new
post_credit-OncePerCase d p s h (i, c) =
    elim (Option-cases (select_one credit_key (target p s) s.credits)) [
      | inr (x, there) ↦ ground (arith, h (i, c), there)
      | inl nothing ↦
          elim (Option-cases
            (select_one member_key (target_institution p s, p.member_id) s.members)) [
              | inl unknown ↦ ground (arith, h (i, c), nothing, unknown)
              | inr (m, known) ↦ ground (
                arith,
                h (i, c),
                nothing,
                known,
                string_eq.beq_iff (target_institution p s) i,
                string_eq.beq_iff p.case_id c,
                rowcount-append (i, c) s.effect_history (new_history d p s),
                select_one-append credit_key (i, c) s.credits (new_credit d p m s),
              )
            ]
    ]

pub run-OncePerCase :
    (calls : List (Draws × Posting)) (s : CoreBankState) → OncePerCase s → OncePerCase (run calls s)
unfolding run
run-OncePerCase [] s h = h
run-OncePerCase ((d, p) ∷ rest) s h =
    run-OncePerCase rest (post_credit d p s).1 (post_credit-OncePerCase d p s h)

-- From a state where the effect history has one entry for each case with a credit and none for the
-- others: whatever credits are requested, in whatever order and however often, the effect history has at
-- most one posting for each case, and exactly one if the case has a credit.
pub posted_at_most_once :
    (calls : List (Draws × Posting)) (s : CoreBankState) (case_id : String)
    → OncePerCase s
    → (effect_count case_id (run calls s) ≤ 1)
      × (effect_count case_id (run calls s)
          ≡ (if is_some (find_credit_by_case case_id (run calls s)) then 1 else 0))
unfolding effect_count find_credit_by_case
posted_at_most_once calls s case_id h =
    let once = run-OncePerCase calls s h ((run calls s).institution_id, case_id) in
    (ground (arith, once), ground (arith, once))
