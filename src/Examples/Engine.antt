-- ===== src/Examples/Engine.antt =====
-- An engine that connects, exchanges data and fails.
use qt_data_sync.Common.{◌≡◌, refl, true, false, none, some, List, [], ◌∷◌}
use qt_data_sync.SyncController.{changed}
use qt_data_sync.ChangeController.{Uploads}
use qt_data_sync.ExchangeEngine.{
  Engine, initializing, error, remote_connecting, remote_ready, remote_ready_with_changes,
  remote_disconnected, Event, remote_event, connector_error, upload_limit, upload_needed,
  queued_call, download, reset_requested, run_all,
}
use qt_data_sync.ExchangeEngine.Consistency.{IsConsistent}
use qt_data_sync.ExchangeEngine.Latch.{run_all-IsConsistent, run_all-Latched}
use qt_data_sync.Examples.Setting.{env}
use qt_data_sync.Examples.Stores.{key, short, long, holding}

abbrev uploads : Uploads
uploads = record {
  enabled = false;
  limit = 0;
  active = [];
  estimate = 0;
  starting = false;
  timing = false;
  queued = [];
  emitted = [];
}

abbrev engine : Engine (Unit {0})
engine = record {
  state = initializing;
  has_error = false;
  progress_current = 0;
  progress_max = 0;
  progress_allowed = none;
  uploads = uploads;
  sync = record { enabled = false; store = holding 3 short true; emitted = [] };
  asked = [];
  notices = [];
}

abbrev events : List Event
events =
    remote_event remote_connecting
    ∷ upload_limit 5
    ∷ remote_event remote_ready_with_changes
    ∷ download 1 (some (key, changed 4 long))
    ∷ remote_event remote_ready
    ∷ upload_needed
    ∷ connector_error
    ∷ queued_call
    ∷ reset_requested true false
    ∷ []

run_all-IsConsistent_example : IsConsistent (run_all env events engine)
run_all-IsConsistent_example = run_all-IsConsistent env events engine (refl, refl, refl, refl)

abbrev failed : Engine (Unit {0})
failed = record engine { state = error; has_error = true }

abbrev later : List Event
later = remote_event remote_disconnected ∷ upload_needed ∷ remote_event remote_ready ∷ []

run_all-Latched_example :
    ((run_all env later failed).state ≡ error)
    × ((run_all env later failed).has_error ≡ true)
    × ((run_all env later failed).uploads.enabled ≡ false)
run_all-Latched_example =
    run_all-Latched env later failed (refl, tt, refl, tt) refl (refl, (tt, (refl, tt)))
