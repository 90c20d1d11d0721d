-- ===== src/Ledger/Claims/History.antt =====
-- Histories of the claims table: any workers, in any order, claim and transition effects. The
-- program names only CLAIMED and APPLYING as the statuses that a transition starts from.
use tandem_interface_ai.Prelude.{
  ℕ, ◌≤◌, ◌<◌, String, ◌≡◌, refl, ◌∙◌, Bool, true, false, Option, none, some, List, [], ◌∷◌, arith,
  inl, inr, Option-cases, ◌&&◌, ◌||◌, any_of,
}
use tandem_interface_ai.Prelude.Eq.{◌==◌, string_eq, nat_eq}
use tandem_interface_ai.Prelude.Table.{KeysUnique}
use tandem_interface_ai.Domain.Effects.{
  EffectClaimStatus, claimed, applying, applied, uncertain, failed_permanent, claim_status_eq,
}
use tandem_interface_ai.Domain.Identity.{EffectIdentity}
use tandem_interface_ai.Ledger.Models.{EffectClaimRecord}
use tandem_interface_ai.Ledger.Session.{World, ok}
use tandem_interface_ai.Ledger.Claims.{
  EffectClaim, claim_key, get_effect_claim, key_of, claim_effect, transition_effect_claim,
}
use tandem_interface_ai.Ledger.Claims.Exclusive.{claim_effect-Attempt}
use tandem_interface_ai.Ledger.Claims.Transition.{may_move, transition_effect_claim-Moved}

-- Every status in the list is CLAIMED or APPLYING.
abbrev pub all_live : List EffectClaimStatus → Bool
all_live [] = true
all_live (s ∷ l) = (s == claimed || s == applying) && all_live l

-- One step of a history: a claim or a transition that returned, or work that leaves the claims
-- alone.
pub data Step (w w' : World) : Type 0 where
  claim :
      (i : EffectIdentity) (owner_id : String) (now : Option ℕ) (ttl : ℕ) (c : EffectClaim)
      → claim_effect i owner_id now ttl w ≡ (ok c, w')
      → Step w w'
  transition :
      (key owner_id : String) (token : ℕ) (from : List EffectClaimStatus) (to : EffectClaimStatus)
      (now : Option ℕ) (b : Bool)
      → all_live from ≡ true
      → transition_effect_claim key owner_id token from to now w ≡ (ok b, w')
      → Step w w'
  other : w'.db.claims ≡ w.db.claims → Step w w'

pub data Reach (w : World) : World → Type 0 where
  here : Reach w w
  next : {v u : World} → Reach w v → Step v u → Reach w u

abbrev pub UniqueClaims : World → Type 0
UniqueClaims w = KeysUnique claim_key w.db.claims

-- The fencing token of an effect; 0 before its first claim.
abbrev pub token_of : Option EffectClaimRecord → ℕ
token_of none = 0
token_of (some r) = r.fencing_token

-- A settled claim: the effect is there, may be there, or must not be tried again.
abbrev pub is_settled : Option EffectClaimRecord → Bool
is_settled none = false
is_settled (some r) = r.status == applied || r.status == uncertain || r.status == failed_permanent

Step-unique : {w w' : World} → UniqueClaims w → Step w w' → UniqueClaims w'
Step-unique {w} u (claim i o now ttl c h) = (claim_effect-Attempt i o now ttl w u h).unique
Step-unique {w} u (transition k o t f s now b l h) =
    (transition_effect_claim-Moved k o t f s now w u h).unique
Step-unique u (other h) = rw h u

Step-token-le :
    (j : String) {w w' : World}
    → UniqueClaims w
    → Step w w'
    → token_of (get_effect_claim j w.db) ≤ token_of (get_effect_claim j w'.db)
Step-token-le j {w} u (claim i o now ttl c h) = ground (
  arith,
  (claim_effect-Attempt i o now ttl w u h).written j,
  string_eq.beq_iff (key_of w.env i) j,
)
Step-token-le j {w} u (transition k o t f s now b l h) =
    ground (arith, (transition_effect_claim-Moved k o t f s now w u h).written j)
Step-token-le j u (other h) = ground (arith, h)

-- A transition from live statuses does not start at another status.
any_of-all_live :
    (l : List EffectClaimStatus) (s : EffectClaimStatus)
    → all_live l ≡ true
    → (s == claimed || s == applying) ≡ false
    → any_of (λ x. x == s) l ≡ false
any_of-all_live [] s h n = refl
any_of-all_live (x ∷ l) s h n = ground (arith, any_of-all_live l s)

Step-settled :
    (j : String) {w w' : World}
    → UniqueClaims w
    → Step w w'
    → is_settled (get_effect_claim j w.db) ≡ true
    → get_effect_claim j w'.db ≡ get_effect_claim j w.db
Step-settled j {w} u (claim i o now ttl c h) s = ground (
  arith,
  (claim_effect-Attempt i o now ttl w u h).written j,
  string_eq.beq_iff (key_of w.env i) j,
)
Step-settled j {w} u (transition k o t f to now b l h) s =
    elim (Option-cases (get_effect_claim j w.db)) [
      | inl nothing ↦ absurd (ground (arith, nothing))
      | inr (r, there) ↦ ground (
        arith,
        there,
        string_eq.beq_iff k j,
        any_of-all_live f r.status,
        (transition_effect_claim-Moved k o t f to now w u h).allowed,
        (transition_effect_claim-Moved k o t f to now w u h).written j,
      )
    ]
Step-settled j u (other h) s = ground (arith, h)

pub Reach-unique : {w w' : World} → UniqueClaims w → Reach w w' → UniqueClaims w'
Reach-unique u here = u
Reach-unique u (next r st) = Step-unique (Reach-unique u r) st

-- The fencing token of an effect never falls, whatever the workers do.
pub Reach-token-le :
    (j : String) {w w' : World}
    → UniqueClaims w
    → Reach w w'
    → token_of (get_effect_claim j w.db) ≤ token_of (get_effect_claim j w'.db)
Reach-token-le j u here = omega arith
Reach-token-le j u (next r st) =
    omega (arith, Reach-token-le j u r, Step-token-le j (Reach-unique u r) st)

-- Where claims have unique keys: a claim that is APPLIED, UNCERTAIN or FAILED_PERMANENT is never changed again, by any history of
-- claims and transitions of any workers.
pub Reach-settled :
    (j : String) {w w' : World}
    → UniqueClaims w
    → Reach w w'
    → is_settled (get_effect_claim j w.db) ≡ true
    → get_effect_claim j w'.db ≡ get_effect_claim j w.db
Reach-settled j u here s = refl
Reach-settled j u (next r st) s =
    let before = Reach-settled j u r s in
    Step-settled j (Reach-unique u r) st (rw before s) ∙ before

-- Where claims have unique keys: after an effect has been settled, no attempt to claim it succeeds.
pub settled_never_acquired :
    (i : EffectIdentity) (owner_id : String) (now : Option ℕ) (ttl : ℕ) {w v u : World}
    {c : EffectClaim}
    → UniqueClaims w
    → is_settled (get_effect_claim (key_of v.env i) w.db) ≡ true
    → Reach w v
    → claim_effect i owner_id now ttl v ≡ (ok c, u)
    → c.acquired ≡ false
settled_never_acquired i o now ttl {w} {v} {u} unique s r h = ground (
  arith,
  Reach-settled (key_of v.env i) unique r s,
  (claim_effect-Attempt i o now ttl v (Reach-unique unique r) h).acquired,
)

-- Where claims have unique keys: in one history, a claim that succeeds gets a larger fencing token than every earlier attempt on
-- the same effect reported.
pub acquisitions_are_fenced :
    (i j : EffectIdentity) (p q : String) (now now' : Option ℕ) (ttl ttl' : ℕ) (w v u x : World)
    {c d : EffectClaim}
    → UniqueClaims w
    → claim_effect i p now ttl w ≡ (ok c, v)
    → Reach v u
    → claim_effect j q now' ttl' u ≡ (ok d, x)
    → key_of w.env i ≡ key_of u.env j
    → d.acquired ≡ true
    → c.fencing_token < d.fencing_token
acquisitions_are_fenced i j p q now now' ttl ttl' w v u x unique h r k same got =
    let first = claim_effect-Attempt i p now ttl w unique h in
    let second = claim_effect-Attempt j q now' ttl' u (Reach-unique first.unique r) k in
    ground (
      arith,
      same,
      first.token,
      first.written (key_of w.env i),
      second.acquired,
      second.token,
      Reach-token-le (key_of w.env i) first.unique r,
      string_eq.beq_iff (key_of w.env i) (key_of w.env i),
    )

-- Where claims have unique keys: a worker whose token has been superseded stays fenced out: its transitions report failure and
-- change no claim.
pub stale_owner_fenced :
    (key owner_id : String) (token : ℕ) (from : List EffectClaimStatus) (to : EffectClaimStatus)
    (now : Option ℕ) {w v u : World} {b : Bool}
    → UniqueClaims w
    → token < token_of (get_effect_claim key w.db)
    → Reach w v
    → transition_effect_claim key owner_id token from to now v ≡ (ok b, u)
    → (j : String) → (b ≡ false) × (get_effect_claim j u.db ≡ get_effect_claim j v.db)
stale_owner_fenced key o t f to now {w} {v} {u} unique old r h j =
    let moved = transition_effect_claim-Moved key o t f to now v (Reach-unique unique r) h in
    let refused : may_move o t f (get_effect_claim key v.db) ≡ false =
      ground (arith, Reach-token-le key unique r) in
    (
      ground (arith, refused, moved.allowed),
      elim (Option-cases (get_effect_claim j v.db)) [
        | inl nothing ↦ ground (arith, nothing, moved.written j)
        | inr (x, there) ↦ ground (arith, refused, moved.allowed, there, moved.written j)
      ],
    )
