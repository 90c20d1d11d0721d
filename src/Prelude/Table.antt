-- ===== src/Prelude/Table.antt =====
-- A database table as the list of its rows, oldest first, with a key column: the four statements
-- that the program issues (SELECT one, INSERT OR IGNORE, UPDATE WHERE with its row count) and
-- their laws.
use Prim.Native.Nat.{ℕ, ◌+◌}
use mathlib.Core.Path.{◌≡◌, refl}
use mathlib.Core.Bool.{Bool, ◌&&◌}
use mathlib.Core.Option.{Option, none, some}
use mathlib.Core.List.{List, [], ◌∷◌, ◌++◌}
use native.Mathlib.Omega.{arith}
use tandem_interface_ai.Prelude.Tests.{if◌then◌else◌, is_some}
use tandem_interface_ai.Prelude.Eq.{Eq, ◌==◌}

module _ {ℓ} {K V : Type ℓ} ⦃e : Eq K⦄ (key : V → K) where
  -- `SELECT ... WHERE key = k`: the first such row.
  unfoldable pub select_one : K → List V → Option V
  select_one k [] = none
  select_one k (r ∷ t) = if key r == k then some r else select_one k t

  -- `INSERT ... ON CONFLICT DO NOTHING` on the key column; the row count is 1 when it inserts.
  unfoldable pub insert_or_ignore : V → List V → List V
  insert_or_ignore r t = if is_some (select_one (key r) t) then t else t ++ r ∷ []

  -- `UPDATE ... SET f WHERE key = k AND p`
  unfoldable pub update_where : K → (V → Bool) → (V → V) → List V → List V
  update_where k p f [] = []
  update_where k p f (r ∷ t) = (if key r == k && p r then f r else r) ∷ update_where k p f t

  -- The row count of that statement.
  unfoldable pub rowcount : K → (V → Bool) → List V → ℕ
  rowcount k p [] = 0
  rowcount k p (r ∷ t) = (if key r == k && p r then 1 else 0) + rowcount k p t

  -- The unique constraint on the key column.
  abbrev pub KeysUnique : List V → Type ℓ
  KeysUnique [] = Unit
  KeysUnique (r ∷ t) = (select_one (key r) t ≡ none) × KeysUnique t

  pub key-select_one : (k : K) (t : List V) {r : V} → select_one k t ≡ some r → key r ≡ k
  unfolding select_one
  key-select_one k [] h = absurd (ground arith)
  key-select_one k (x ∷ t) {r} h =
      ground (arith, e.beq_iff (key x) k, λ (q : select_one k t ≡ some r). key-select_one k t q)

  pub select_one-append :
      (k : K) (t : List V) (r : V)
      → select_one k (t ++ r ∷ [])
        ≡ (if is_some (select_one k t) then select_one k t else if key r == k then some r else none)
  unfolding select_one
  select_one-append k [] r = refl
  select_one-append k (x ∷ t) r = ground (arith, select_one-append k t r)

  -- What is found after an insert: the old row if there was one, else the new row.
  pub select_one-insert_or_ignore :
      (k : K) (r : V) (t : List V)
      → select_one k (insert_or_ignore r t)
        ≡ (if is_some (select_one k t) then select_one k t else if key r == k then some r else none)
  unfolding insert_or_ignore
  select_one-insert_or_ignore k r t = ground (arith, select_one-append k t r, e.beq_iff (key r) k)

  module _ (f : V → V) (keeps : (r : V) → key (f r) ≡ key r) where
    pub select_one-update_where :
        (j k : K) (p : V → Bool) (t : List V)
        → select_one j (update_where k p f t) ≡ (elim (select_one j t) [
          | none ↦ none
          | some r ↦ some (if key r == k && p r then f r else r)
        ])
    unfolding select_one update_where
    select_one-update_where j k p [] = refl
    select_one-update_where j k p (x ∷ t) = ground (arith, keeps x, select_one-update_where j k p t)

    pub update_where-KeysUnique :
        (k : K) (p : V → Bool) (t : List V) → KeysUnique t → KeysUnique (update_where k p f t)
    unfolding update_where
    update_where-KeysUnique k p [] h = tt
    update_where-KeysUnique k p (x ∷ t) h = (
      ground (arith, keeps x, h.0, select_one-update_where (key x) k p t),
      update_where-KeysUnique k p t h.1,
    )

  pub rowcount-none :
      (k : K) (p : V → Bool) (t : List V) → select_one k t ≡ none → rowcount k p t ≡ 0
  unfolding select_one rowcount
  rowcount-none k p [] h = refl
  rowcount-none k p (x ∷ t) h = ground (arith, rowcount-none k p t)

  -- Under the unique constraint an update by key touches at most the row that a select finds.
  pub rowcount-KeysUnique :
      (k : K) (p : V → Bool) (t : List V)
      → KeysUnique t
      → rowcount k p t ≡ (elim (select_one k t) [ none ↦ 0 | some r ↦ if p r then 1 else 0 ])
  unfolding select_one rowcount
  rowcount-KeysUnique k p [] h = refl
  rowcount-KeysUnique k p (x ∷ t) h =
      ground (arith, e.beq_iff (key x) k, rowcount-none (key x) p t, rowcount-KeysUnique k p t h.1)

  append-KeysUnique :
      (r : V) (t : List V) → select_one (key r) t ≡ none → KeysUnique t → KeysUnique (t ++ r ∷ [])
  unfolding select_one
  append-KeysUnique r [] n h = (refl, tt)
  append-KeysUnique r (x ∷ t) n h = (
    ground (
      arith,
      h.0,
      e.beq_iff (key x) (key r),
      e.beq_iff (key r) (key x),
      select_one-append (key x) t r,
    ),
    append-KeysUnique r t (ground arith) h.1,
  )

  pub insert_or_ignore-KeysUnique :
      (r : V) (t : List V) → KeysUnique t → KeysUnique (insert_or_ignore r t)
  unfolding insert_or_ignore
  insert_or_ignore-KeysUnique r t h =
      elim (select_one (key r) t)
          as (λ o. select_one (key r) t ≡ o → KeysUnique (if is_some o then t else t ++ r ∷ [])) [
            | none ↦ λ q. append-KeysUnique r t q h
            | some x ↦ λ q. h
          ]
        refl
