-- ===== src/Examples/Local.antt =====
-- Saving, loading and removing on concrete stores.
use qt_data_sync.Common.{Bool, false, ◌≡◌, refl, inl}
use qt_data_sync.Exec.{ok}
use qt_data_sync.Emitter.{get_cached}
use qt_data_sync.LocalStore.State.{Store}
use qt_data_sync.LocalStore.Access.{save, remove}
use qt_data_sync.LocalStore.Writes.{entry}
use qt_data_sync.LocalStore.Saving.{SavedEntry, save-follows, save-returns}
use qt_data_sync.LocalStore.Removing.{Removed, remove-returns}
use qt_data_sync.LocalStore.Loading.{Loads, load-returns}
use qt_data_sync.Examples.Setting.{env, lawful, qt}
use qt_data_sync.Examples.Stores.{key, short, long, holding, holding-Sound, holding-entry}

abbrev here : Store (Unit {0})
here = holding 1 short false

saved :
    (t : Store (Unit {0})) × (save env key long here ≡ (ok tt, t))
    × SavedEntry env lawful key long here (holding-Sound 1 short false) t
saved = save-returns env lawful key long here (holding-Sound 1 short false) refl

save-returns_example :
    (t : Store (Unit {0})) × (save env key long here ≡ (ok tt, t))
    × SavedEntry env lawful key long here (holding-Sound 1 short false) t
save-returns_example = save-returns env lawful key long here (holding-Sound 1 short false) refl

save-follows_example : SavedEntry env lawful key long here (holding-Sound 1 short false) saved.0
save-follows_example =
    save-follows env lawful key long here (holding-Sound 1 short false) saved.0 saved.1

gone :
    (found : Bool) × (t : Store (Unit {0})) × (remove env key here ≡ (ok found, t))
    × Removed env key here.db here.files
        (holding-Sound 1 short false)
        (entry env here.db here.files key)
        found
        t
gone = remove-returns env key here (holding-Sound 1 short false) refl

remove-returns_example :
    (found : Bool) × (t : Store (Unit {0})) × (remove env key here ≡ (ok found, t))
    × Removed env key here.db here.files
        (holding-Sound 1 short false)
        (entry env here.db here.files key)
        found
        t
remove-returns_example = remove-returns env key here (holding-Sound 1 short false) refl

load-returns_example : Loads env key here (holding-Sound 1 short false) short
unfolding get_cached env qt
load-returns_example =
    load-returns env key here (holding-Sound 1 short false) 1 short false
      (holding-entry 1 short false) (inl refl) refl
