-- ===== src/Shared/Table.antt =====
-- A table with a unique key, as the rows that the services read and write by that key.
use food_flow.Prelude.{
  ℕ, ◌≡◌, refl, Bool, true, false, Option, none, some, List, [], ◌∷◌, arith, ◌==◌, if◌then◌else◌,
}

abbrev pub Table {ℓ} : Type ℓ → Type ℓ
Table V = List (ℕ × V)

abbrev pub is_some {ℓ} : {A : Type ℓ} → Option A → Bool
is_some none = false
is_some (some _) = true

-- What an UPDATE leaves at its key: the new row where there was one.
abbrev pub overwrite {ℓ} : {V : Type ℓ} → V → Option V → Option V
overwrite v none = none
overwrite v (some _) = some v

module _ {ℓ} {V : Type ℓ} where
  -- SELECT … WHERE key = k
  unfoldable pub lookup : ℕ → Table V → Option V
  lookup k [] = none
  lookup k ((j, v) ∷ t) = if j == k then some v else lookup k t

  -- UPDATE … WHERE key = k; no row, no change
  unfoldable pub set_row : ℕ → V → Table V → Table V
  set_row k v [] = []
  set_row k v ((j, w) ∷ t) = if j == k then (j, v) ∷ t else (j, w) ∷ set_row k v t

  -- DELETE … WHERE key = k
  unfoldable pub delete_row : ℕ → Table V → Table V
  delete_row k [] = []
  delete_row k ((j, w) ∷ t) = let rest = delete_row k t in if j == k then rest else (j, w) ∷ rest

  -- The key's UNIQUE constraint.
  abbrev pub HasUniqueKeys : Table V → Type ℓ
  HasUniqueKeys [] = Unit
  HasUniqueKeys ((k, _) ∷ t) = (lookup k t ≡ none) × HasUniqueKeys t

  pub lookup-nil : (k : ℕ) → lookup k [] ≡ none
  unfolding lookup
  lookup-nil k = refl

  pub lookup-cons :
      (k j : ℕ) (v : V) (t : Table V)
      → lookup k ((j, v) ∷ t) ≡ (if j == k then some v else lookup k t)
  unfolding lookup
  lookup-cons k j v t = refl

  pub lookup-set_row :
      (j k : ℕ) (v : V) (t : Table V)
      → lookup j (set_row k v t) ≡ (if k == j then overwrite v (lookup k t) else lookup j t)
  unfolding lookup set_row
  lookup-set_row j k v [] = ground arith
  lookup-set_row j k v ((i, w) ∷ t) = ground (arith, lookup-set_row j k v t)

  pub lookup-delete_row :
      (j k : ℕ) (t : Table V) → lookup j (delete_row k t) ≡ (if k == j then none else lookup j t)
  unfolding lookup delete_row
  lookup-delete_row j k [] = ground arith
  lookup-delete_row j k ((i, w) ∷ t) = ground (arith, lookup-delete_row j k t)

  pub delete_row-HasUniqueKeys :
      (k : ℕ) (t : Table V) → HasUniqueKeys t → HasUniqueKeys (delete_row k t)
  unfolding delete_row
  delete_row-HasUniqueKeys k [] h = tt
  delete_row-HasUniqueKeys k ((j, w) ∷ t) h =
      ground (arith, delete_row-HasUniqueKeys k t h.1, lookup-delete_row j k t)

  pub set_row-HasUniqueKeys :
      (k : ℕ) (v : V) (t : Table V) → HasUniqueKeys t → HasUniqueKeys (set_row k v t)
  unfolding set_row
  set_row-HasUniqueKeys k v [] h = tt
  set_row-HasUniqueKeys k v ((j, w) ∷ t) h =
      ground (arith, set_row-HasUniqueKeys k v t h.1, lookup-set_row j k v t)

  -- Deleting a key that no row has changes nothing.
  pub delete_row_absent : (k : ℕ) (t : Table V) → lookup k t ≡ none → delete_row k t ≡ t
  unfolding lookup delete_row
  delete_row_absent k [] h = refl
  delete_row_absent k ((j, w) ∷ t) h = ground (arith, delete_row_absent k t)
