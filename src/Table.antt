-- ===== src/Table.antt =====
-- SQL tables as lists of keyed rows, with the statements that the program runs on them.
pub mod Laws
use qt_data_sync.Common.{
  ℕ, zero, suc, ◌+◌, Bool, true, false, not, Option, none, some, List, [], ◌∷◌, ◌≡◌, if◌then◌else◌,
}
use qt_data_sync.Common.Equality.{Keyed, ◌==◌}

abbrev pub Table {ℓ κ} : Type ℓ → Type κ → Type (ℓ ⊔ κ)
Table K V = List (K × V)

module _ {ℓ κ} {K : Type ℓ} {V : Type κ} where
  -- UPDATE t SET ... WHERE p
  unfoldable pub update_where : (K → V → Bool) → (V → V) → Table K V → Table K V
  update_where p f [] = []
  update_where p f ((j, v) ∷ t) = (j, if p j v then f v else v) ∷ update_where p f t

  -- DELETE FROM t WHERE p
  unfoldable pub delete_where : (K → V → Bool) → Table K V → Table K V
  delete_where p [] = []
  delete_where p ((j, v) ∷ t) = let rest = delete_where p t in if p j v then rest else (j, v) ∷ rest

  -- SELECT * FROM t WHERE p
  unfoldable pub select_where : (K → V → Bool) → Table K V → Table K V
  select_where p [] = []
  select_where p ((j, v) ∷ t) = let rest = select_where p t in if p j v then (j, v) ∷ rest else rest

module _ {ℓ κ} {K : Type ℓ} {V : Type κ} ⦃e : Keyed K⦄ where
  -- The row of a primary key.
  unfoldable pub get : K → Table K V → Option V
  get k [] = none
  get k ((j, v) ∷ t) = if j == k then some v else get k t

  -- The primary key: no two rows share one.
  abbrev pub IsUnique : Table K V → Type κ
  IsUnique [] = Unit
  IsUnique ((j, v) ∷ t) = (get j t ≡ none) × IsUnique t
