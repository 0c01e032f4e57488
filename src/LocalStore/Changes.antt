-- ===== src/LocalStore/Changes.antt =====
-- LocalStore::loadChanges with its visitor, a closure that changes an object of its own beside the store.
use qt_data_sync.Common.{ℕ, zero, suc, ◌-◌, Bool, true, false, List, [], ◌∷◌, length, take}
use qt_data_sync.Exec.{Exec, Result, pure, throw, ◌>>=◌, ◌>>◌, try_catch}
use qt_data_sync.LocalStore.State.{
  Store, Failure, Method, query, begin_transaction, commit, rollback,
}
use qt_data_sync.LocalStore.Sync.{Change, data_changes, device_changes}

-- `X` is the visitor's object.
abbrev pub Visit : Type 0 → Type 0 → Type 0 → Type 0
Visit C X A = Exec Failure (X × Store C) A

module _ {C X : Type 0} where
  abbrev pub beside :
      {A : Type 0} → X → Result Failure A × Store C → Result Failure A × (X × Store C)
  beside x (r, s) = (r, (x, s))

  -- A method of the store leaves the visitor's object.
  unfoldable pub in_store : {A : Type 0} → Method C A → Visit C X A
  in_store m v = beside v.0 (m v.1)

  -- The loop over the rows of a query; the visitor says whether to go on.
  unfoldable pub visit_rows : (Change → Visit C X Bool) → List Change → Visit C X Bool
  visit_rows visitor [] = pure true
  visit_rows visitor (c ∷ cs) = do
    more ← visitor c
    elim more [ true ↦ visit_rows visitor cs | false ↦ pure false ]

  unfoldable pub visit_devices : ℕ → (Change → Visit C X Bool) → Bool → Visit C X (Unit {0})
  visit_devices limit visitor false = pure tt
  visit_devices zero visitor true = pure tt
  visit_devices (suc limit) visitor true = do
    changes ← in_store (query (λ db. take (suc limit) (device_changes db db.uploads)))
    visit_rows visitor changes
    pure tt

  -- The second query is made if no visit said stop and the first left room.
  unfoldable pub load_changes : ℕ → (Change → Visit C X Bool) → Visit C X (Unit {0})
  load_changes limit visitor = do
    in_store begin_transaction
    try_catch
        (do
          changes ← in_store (query (λ db. take limit (data_changes db.index)))
          more ← visit_rows visitor changes
          visit_devices (limit - length changes) visitor more
          in_store commit)
        (λ e. do in_store rollback; throw e)
