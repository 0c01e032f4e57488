-- ===== src/ExchangeEngine.antt =====
-- src/datasync/exchangeengine.cpp: the engine tells the controllers when to upload and when to
-- download, and what they and the connector report makes the state that the user sees. Signals within
-- the engine's thread are direct calls; those of a call of the ChangeController or the SyncController
-- are handled in their order at its end, where nothing follows that they could change. What
-- the connector is asked is recorded in `asked`; what it reports comes as events.
pub mod View
pub mod Consistency
pub mod Latch
use qt_data_sync.Common.{
  ℕ, ◌+◌, ◌%◌, ◌^◌, Bool, true, false, not, Option, none, some, List, [], ◌∷◌, ◌++◌, ◌&&◌,
  if◌then◌else◌,
}
use qt_data_sync.Common.Equality.{◌==◌, nat_eq}
use qt_data_sync.Environment.{ObjectKey, Env}
use qt_data_sync.Exec.{Result, ok, err}
use qt_data_sync.LocalStore.State.{Store, Failure}
use qt_data_sync.LocalStore.Access.{reset}
use qt_data_sync.LocalStore.Sync.{prepare_account_added}
use qt_data_sync.SyncController.{
  Remote, SyncSignal, Controller, sync_done, sync_change, set_sync_enabled,
}
use qt_data_sync.ChangeController.{
  UploadKey, Combined, Signal, Queued, Uploads, Call, enable, clear, triggered, queued_next,
  plain_done, device_done, next, done, perform, update_upload_limit,
}

-- SyncManager::SyncState
pub data SyncState : Type 0 where
  initializing downloading uploading synchronized error disconnected : SyncState

-- RemoteConnector::RemoteEvent
pub data RemoteEvent : Type 0 where
  remote_disconnected remote_connecting remote_ready remote_ready_with_changes : RemoteEvent

-- The controllers that may report progress.
pub data Source : Type 0 where
  changes remote : Source

-- The calls of the connector's slots.
pub data Ask : Type 0 where
  disconnect_remote reconnect : Ask
  reset_account : Bool → Ask
  upload : UploadKey → Combined → Ask
  download_done : ℕ → Ask

pub data Notice : Type 0 where
  state_changed : SyncState → Notice
  -- whether there is an error
  last_error_changed : Bool → Notice
  -- the progress made and the one to make
  progress_changed : ℕ → ℕ → Notice

-- The members of the ExchangeEngine; `sync` has the store that the controllers share.
pub record Engine (C : Type 0) : Type 0 where
  pub state : SyncState
  pub has_error : Bool
  pub progress_current : ℕ
  pub progress_max : ℕ
  pub progress_allowed : Option Source
  pub uploads : Uploads
  pub sync : Controller C
  pub asked : List Ask
  pub notices : List Notice

pub data Event : Type 0 where
  remote_event : RemoteEvent → Event
  connector_error operation_timeout connector_progress : Event
  connector_estimate : ℕ → Event
  upload_limit upload_done granted : ℕ → Event
  device_upload_done : ℕ → ℕ → Event
  download : ℕ → Option (ObjectKey × Remote) → Event
  -- uploadNeeded of the emitter, and the first of the queued calls
  upload_needed queued_call : Event
  reset_requested : Bool → Bool → Event

-- The values of the enumeration.
abbrev pub state_value : SyncState → ℕ
state_value initializing = 0
state_value downloading = 1
state_value uploading = 2
state_value synchronized = 3
state_value error = 4
state_value disconnected = 5

abbrev pub state_beq : SyncState → SyncState → Bool
state_beq a b = state_value a == state_value b

abbrev pub source_beq : Source → Option Source → Bool
source_beq changes (some changes) = true
source_beq remote (some remote) = true
source_beq _ _ = false

abbrev is_connecting : RemoteEvent → Bool
is_connecting remote_connecting = true
is_connecting _ = false

module _ {C : Type 0} where
  abbrev pub notify : Notice → Engine C → Engine C
  notify n e = record e { notices = e.notices ++ n ∷ [] }

  abbrev pub ask : Ask → Engine C → Engine C
  ask a e = record e { asked = e.asked ++ a ∷ [] }

  -- upstate, without its result.
  unfoldable pub upstate : SyncState → Engine C → Engine C
  upstate state e =
      if state_beq e.state state
      then e
      else notify (state_changed state) (record e { state = state })

  unfoldable pub clear_error : Engine C → Engine C
  clear_error e =
      if e.has_error then notify (last_error_changed false) (record e { has_error = false }) else e

  unfoldable pub reset_progress : Option Source → Engine C → Engine C
  reset_progress source e =
      let zeroed = record e { progress_current = 0; progress_max = 0 } in
      let told = if e.progress_max == 0 then zeroed else notify (progress_changed 0 0) zeroed in
      record told { progress_allowed = source }

  -- if(upstate(state)) resetProgress(source)
  abbrev pub upstate_with : SyncState → Option Source → Engine C → Engine C
  upstate_with state source e =
      if state_beq e.state state then e else reset_progress source (upstate state e)

  unfoldable pub uploading_changed : Bool → Engine C → Engine C
  uploading_changed true e =
      if state_beq e.state error then e else upstate_with uploading (some changes) e
  uploading_changed false e =
      if state_beq e.state uploading then reset_progress none (upstate synchronized e) else e

  unfoldable pub add_progress : Source → ℕ → Engine C → Engine C
  add_progress source estimate e =
      let most = (e.progress_max + estimate) % 2 ^ 32 in
      if source_beq source e.progress_allowed
      then notify (progress_changed e.progress_current most) (record e { progress_max = most })
      else e

  unfoldable pub increment_progress : Source → Engine C → Engine C
  increment_progress source e =
      let current = (e.progress_current + 1) % 2 ^ 32 in
      if source_beq source e.progress_allowed
      then notify (progress_changed current e.progress_max)
          (record e { progress_current = current })
      else e

  unfoldable pub controller_timeout : Engine C → Engine C
  controller_timeout e = ask reconnect e

module _ {C : Type 0} (env : Env C) where
  abbrev pub enable_sync : Bool → Engine C → Engine C
  enable_sync enabled e = record e { sync = set_sync_enabled env enabled e.sync }

  -- A call of the ChangeController, whose `emitted` has the signals of this call.
  unfoldable pub call_uploads : Call → Engine C → Engine C
  call_uploads c e =
      let v = (perform env c (record e.uploads { emitted = [] }, e.sync.store)).1 in
      record e { uploads = v.0; sync = record e.sync { store = v.1 } }

  -- clearUploads emits uploadingChanged(false), and nothing else.
  unfoldable pub clear_uploads : Engine C → Engine C
  clear_uploads e = uploading_changed false (call_uploads clear e)

  unfoldable pub controller_error : Engine C → Engine C
  controller_error e = clear_uploads (
      ask disconnect_remote
        (upstate error (notify (last_error_changed true) (record e { has_error = true }))))

  abbrev pub react : Signal → Engine C → Engine C
  react (Signal.uploading_changed b) e = uploading_changed b e
  react (Signal.upload key content) e = ask (upload key content) e
  react (Signal.progress_added n) e = add_progress changes n e
  react Signal.progress_increment e = increment_progress changes e
  react Signal.controller_error e = controller_error e

  unfoldable pub react_all : List Signal → Engine C → Engine C
  react_all [] e = e
  react_all (m ∷ ms) e = react_all ms (react m e)

  -- A call of the ChangeController with all that it causes.
  unfoldable pub run_uploads : Call → Engine C → Engine C
  run_uploads c e = let e' = call_uploads c e in react_all e'.uploads.emitted e'

  abbrev pub handle_remote : RemoteEvent → Engine C → Engine C
  handle_remote remote_disconnected e =
      clear_uploads (enable_sync false (reset_progress none (upstate disconnected e)))
  handle_remote remote_connecting e =
      clear_uploads (enable_sync false (clear_error (reset_progress none (upstate initializing e))))
  handle_remote remote_ready e =
      run_uploads (enable true)
        (enable_sync true (reset_progress (some changes) (upstate uploading e)))
  handle_remote remote_ready_with_changes e =
      run_uploads (enable false) (enable_sync true (upstate_with downloading (some remote) e))

  unfoldable pub on_remote_event : RemoteEvent → Engine C → Engine C
  on_remote_event r e =
      if state_beq e.state error && not (is_connecting r) then e else handle_remote r e

  abbrev pub react_sync : List SyncSignal → Engine C → Engine C
  react_sync [] e = e
  react_sync (sync_done id ∷ ms) e = react_sync ms (ask (download_done id) e)
  react_sync (SyncSignal.controller_error ∷ ms) e = react_sync ms (controller_error e)

  unfoldable pub run_download : ℕ → Option (ObjectKey × Remote) → Engine C → Engine C
  run_download id content e =
      let c = sync_change env id content (record e.sync { emitted = [] }) in
      react_sync c.emitted (record e { sync = c })

  -- An exception of the store leaves the account of the connector.
  abbrev pub finish_reset : Bool → Result Failure (Unit {0}) × Store C → Engine C → Engine C
  finish_reset clear_config (ok a, s) e =
      ask (reset_account clear_config) (record e { sync = record e.sync { store = s } })
  finish_reset clear_config (err x, s) e = record e { sync = record e.sync { store = s } }

  unfoldable pub reset_engine : Bool → Bool → Engine C → Engine C
  reset_engine keep_data clear_config e =
      let e' = clear_uploads (enable_sync false e) in
      finish_reset clear_config (reset env keep_data e'.sync.store) e'

  abbrev pub drop_call : List Queued → Engine C → Engine C
  drop_call queue e = record e { uploads = record e.uploads { queued = queue } }

  abbrev pub run_queued : List Queued → Engine C → Engine C
  run_queued [] e = e
  run_queued (next ∷ rest) e = run_uploads queued_next (drop_call rest e)
  run_queued (done hash ∷ rest) e = run_uploads (plain_done hash) (drop_call rest e)

  unfoldable pub set_limit : ℕ → Engine C → Engine C
  set_limit limit e =
      let v = (update_upload_limit env limit (e.uploads, e.sync.store)).1 in
      record e { uploads = v.0 }

  unfoldable pub grant_account : ℕ → Engine C → Engine C
  grant_account device e = record e {
    sync = record e.sync { store = (prepare_account_added env device e.sync.store).1 };
  }

  unfoldable pub run : Event → Engine C → Engine C
  run (remote_event r) e = on_remote_event r e
  run connector_error e = controller_error e
  run operation_timeout e = controller_timeout e
  run connector_progress e = increment_progress remote e
  run (connector_estimate n) e = add_progress remote n e
  run (upload_limit n) e = set_limit n e
  run (upload_done hash) e = run_uploads (plain_done hash) e
  run (device_upload_done hash device) e = run_uploads (device_done hash device) e
  run (granted device) e = grant_account device e
  run (download id content) e = run_download id content e
  run upload_needed e = run_uploads triggered e
  run queued_call e = run_queued e.uploads.queued e
  run (reset_requested keep_data clear_config) e = reset_engine keep_data clear_config e

  unfoldable pub run_all : List Event → Engine C → Engine C
  run_all [] e = e
  run_all (x ∷ xs) e = run_all xs (run x e)
