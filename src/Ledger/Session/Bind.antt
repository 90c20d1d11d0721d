-- ===== src/Ledger/Session/Bind.antt =====
-- How a chain of actions returned: each of its parts did.
use tandem_interface_ai.Prelude.{◌≡◌, refl, ap}
use tandem_interface_ai.Ledger.Session.{World, Result, ok, raised, M, ◌>>=◌, continue}

module _ {A B : Type 0} where
  continue-eq-ok :
      (x : Result A × World) (f : A → M B) {b : B} {w' : World}
      → continue x.0 f x.1 ≡ (ok b, w')
      → (a : A) × (v : World) × (x ≡ (ok a, v)) × (f a v ≡ (ok b, w'))
  continue-eq-ok (ok a, v) f h = (a, v, refl, h)
  continue-eq-ok (raised e, v) f h = absurd (raised_ne_ok (ap (λ (x : Result B × World). x.0) h))
    where
      raised_ne_ok : {b : B} → raised e ≡ ok b → ⊥
      raised_ne_ok q = cc

  pub >>=-eq-ok :
      (m : M A) (f : A → M B) (w : World) {b : B} {w' : World}
      → (m >>= f) w ≡ (ok b, w')
      → (a : A) × (v : World) × (m w ≡ (ok a, v)) × (f a v ≡ (ok b, w'))
  >>=-eq-ok m f w h = continue-eq-ok (m w) f h
