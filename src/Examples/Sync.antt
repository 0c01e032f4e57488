-- ===== src/Examples/Sync.antt =====
-- Downloads applied to concrete stores.
use qt_data_sync.Common.{ℕ, true, false, none, some, [], ◌∷◌, ◌≡◌, refl, arith}
use qt_data_sync.Json.{bool, end, field, json_hash, hash_next, array, cons, nil}
use qt_data_sync.Json.Collisions.{json_hash_wrapped}
use qt_data_sync.Exec.{ok}
use qt_data_sync.LocalStore.State.{Store, type_directory}
use qt_data_sync.LocalStore.Access.{save, remove, clear, reset}
use qt_data_sync.LocalStore.Coherent.{Entry, present, view}
use qt_data_sync.Environment.{Env, IsLawful}
use qt_data_sync.LocalStore.Writes.{Sound, entry, Becomes, Becomes-Sound}
use qt_data_sync.LocalStore.Atomicity.{data_methods-Restores, Restores}
use qt_data_sync.SyncController.{deleted, changed, sync_store}
use qt_data_sync.SyncController.Policy.{choose}
use qt_data_sync.SyncController.Refinement.{sync_store-follows, sync_store-returns}
use qt_data_sync.SyncController.Atomicity.{sync_store-Restores}
use qt_data_sync.SyncController.Convergence.{
  conflict_converges, delete_converges, redelivery, Agree, Meet, content,
}
use qt_data_sync.Examples.Setting.{env, lawful, qt}
use qt_data_sync.Examples.Stores.{
  key, store_with, short, long, holding, deleted_at, holding-Sound, deleted_at-Sound, holding-entry,
  deleted_at-entry, differ,
}

abbrev holder : ℕ → Store (Unit {0})
holder v = holding v short false

-- A newer change for an object that is there.
sync_store-returns_example :
    (t : Store (Unit {0})) × (sync_store env key (changed 2 long) (holder 1) ≡ (ok tt, t))
    × Becomes env key (present 2 long false) (holder 1).db (holder 1).files t.db t.files
unfolding choose
sync_store-returns_example =
    sync_store-returns env lawful key (changed 2 long) (omega arith) (holder 1)
      (holding-Sound 1 short false) (present 2 long false) (rw (holding-entry 1 short false) refl)
      refl

abbrev First : Store (Unit {0}) → Type 0
First s =
    (t : Store (Unit {0})) × (sync_store env key (changed 2 long) s ≡ (ok tt, t))
    × Becomes env key (present 2 long false) s.db s.files t.db t.files

accepted : First (holder 1)
unfolding choose
accepted =
    sync_store-returns env lawful key (changed 2 long) (omega arith) (holder 1)
      (holding-Sound 1 short false) (present 2 long false) (rw (holding-entry 1 short false) refl)
      refl

sync_store-follows_example :
    (e : Entry) × (choose env key.type_name
        (entry env (holder 1).db (holder 1).files key)
        (changed 2 long)
      ≡ some e)
    × Becomes env key e (holder 1).db (holder 1).files accepted.0.db accepted.0.files
sync_store-follows_example =
    sync_store-follows env lawful key (changed 2 long) (omega arith) (holder 1)
      (holding-Sound 1 short false) accepted.0 accepted.1

conflict_converges_example :
    Agree env lawful key (changed 3 long) (holder 3) (changed 3 short) (holding 3 long true)
unfolding env
conflict_converges_example =
    conflict_converges env lawful key 3 short long false true (holder 3) (holding 3 long true) none
      (omega arith) (holding-Sound 3 short false) (holding-Sound 3 long true) refl refl
      (holding-entry 3 short false) (holding-entry 3 long true) differ refl refl

-- A device that differs in its resolver.
abbrev other : Env (Unit {0})
other = record env { conflict_resolver = some (λ type_name d1 d2. none) }

other_lawful : IsLawful other
other_lawful = record {
  object-insert = lawful.object-insert;
  object-remove = lawful.object-remove;
  object-clear = lawful.object-clear;
  temporary_new = lawful.temporary_new;
}

other_sound : Sound other (deleted_at 3 true).db (deleted_at 3 true).files
unfolding env type_directory
other_sound =
    let s = deleted_at-Sound 3 true in
    record {
      unique = s.unique;
      coherent = record { matched = s.coherent.matched; distinct = s.coherent.distinct };
    }

delete_converges_example :
    Meet env other lawful other_lawful key
      (deleted 3)
      (holder 3)
      (changed 3 short)
      (deleted_at 3 true)
unfolding env view type_directory
delete_converges_example =
    delete_converges env other lawful other_lawful key 3 short false true (holder 3)
      (deleted_at 3 true) refl (omega arith) (holding-Sound 3 short false) other_sound refl refl
      (holding-entry 3 short false) (deleted_at-entry 3 true)

-- The change comes a second time.
abbrev later : Store (Unit {0})
later = store_with accepted.0.db accepted.0.files

accepted_again : First later
unfolding choose json_hash env qt hash_next
accepted_again =
    sync_store-returns env lawful key (changed 2 long) (omega arith) later
      (Becomes-Sound env key _ _ _ _ _ accepted.2) (present 2 long false)
      (rw accepted.2.sets.here refl) refl

redelivery_example :
    content env key.type_name (entry env accepted_again.0.db accepted_again.0.files key)
    ≡ content env key.type_name (entry env accepted.0.db accepted.0.files key)
redelivery_example =
    redelivery env lawful key (changed 2 long) (holder 1) accepted.0 later accepted_again.0
      (omega arith) (holding-Sound 1 short false) accepted.1 refl refl accepted_again.1

-- The first three outside steps succeed and the fourth fails.
abbrev failing : Store (Unit {0})
failing = record (holder 1) { outcomes = true ∷ true ∷ true ∷ false ∷ [] }

data_methods-Restores_example :
    Restores (save env key long) failing
    × Restores (remove env key) failing
    × Restores (clear env key.type_name) failing
    × Restores (reset env false) failing
data_methods-Restores_example = data_methods-Restores env key long false failing

sync_store-Restores_example : Restores (sync_store env key (deleted 5)) failing
sync_store-Restores_example = sync_store-Restores env key (deleted 5) failing

json_hash_wrapped_example :
    json_hash env.text (field "a" (array (cons (bool true) nil)) end) ≡ json_hash env.text short
json_hash_wrapped_example = json_hash_wrapped env.text "a" (bool true) end
