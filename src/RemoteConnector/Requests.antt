-- ===== src/RemoteConnector/Requests.antt =====
-- src/datasync/remoteconnector.cpp: what the engine and the user ask of the connector. Most requests
-- are only served in the state Idle and ignored in all others.
use qt_data_sync.Common.{ℕ, ◌+◌, ◌%◌, ◌^◌, Bool, false, not, Option, none, some, [], if◌then◌else◌}
use qt_data_sync.Json.{Bytes}
use qt_data_sync.Exec.{pure, gets, modify, ◌>>=◌, ◌>>◌, try_catch}
use qt_data_sync.RemoteConnector.{
  on_reconnect, sync_message, list_devices_message, remove_message, changed_ack_message,
  change_message, device_change_message, key_change, remote_ready_with_changes, progress_increment,
  ImportData, clear_caches,
}
use qt_data_sync.RemoteConnector.Proofs.{is_idle, login_reply}
use qt_data_sync.RemoteConnector.Session.{
  Session, Crypto, Handler, on_connection, notify, submit, send_message, change_stored, compute,
  in_keys,
}
use qt_data_sync.RemoteConnector.Handlers.{on_error, is_own}

pub data Request : Type 0 where
  resync list_devices update_key : Request
  remove_device download_done : ℕ → Request
  upload_data : ℕ → Bytes → Request
  upload_device_data : ℕ → ℕ → Bytes → Request
  reply_login : ℕ → Bool → Request
  prepare_import : Bool → ImportData → Request
  -- whether the configuration goes too, and whether the state machine runs
  reset_account : Bool → Bool → Request

abbrev or_stored : Option ℕ → Option ℕ → Option ℕ
or_stored none stored = stored
or_stored (some id) stored = some id

module _ {K : Type 0} where
  unfoldable pub when_idle : Handler K (Unit {0}) → Handler K (Unit {0})
  when_idle m = do ready ← gets (λ s. is_idle s.connection.mode); if ready then m else pure tt

  -- An exception is an error that cannot be recovered from.
  abbrev pub or_error : Handler K (Unit {0}) → Handler K (Unit {0})
  or_error m = try_catch m (λ e. on_error false)

module _ {K : Type 0} (crypto : Crypto K) where
  unfoldable pub send_upload : ℕ → Bytes → Handler K (Unit {0})
  send_upload hash content = when_idle (
      or_error (do
        cipher ← in_keys (crypto.encrypt_data content)
        send_message (change_message hash cipher.0 cipher.1 cipher.2)))

  unfoldable pub send_device_upload : ℕ → ℕ → Bytes → Handler K (Unit {0})
  send_device_upload hash device content = when_idle (
      or_error (do
        cipher ← in_keys (crypto.encrypt_data content)
        send_message (device_change_message hash device cipher.0 cipher.1 cipher.2)))

  unfoldable pub acknowledge_download : ℕ → Handler K (Unit {0})
  acknowledge_download key =
      when_idle (do send_message (changed_ack_message key); notify progress_increment)

  unfoldable pub init_key_change : Handler K (Unit {0})
  init_key_change = when_idle (
      or_error
        (do index ← compute crypto.key_index; send_message (key_change ((index + 1) % 2 ^ 32))))

  unfoldable pub ask_removal : ℕ → Handler K (Unit {0})
  ask_removal id = when_idle (do
    own ← gets (λ s. is_own id s.connection.device)
    if own then pure tt else send_message (remove_message id))

  abbrev pub forget_account : ℕ → Bool → Handler K (Unit {0})
  forget_account id running = do
    on_connection (λ c. record (clear_caches c) { exports = [] })
    change_stored (λ s. record s { device_id = none })
    modify (λ s. record s { keys = crypto.delete_key_material id s.keys })
    ready ← gets (λ s. is_idle s.connection.mode)
    if not running
        then pure tt
        else if ready
        then send_message (remove_message id)
        else (do on_connection (λ c. record c { device = none }); submit on_reconnect)

  abbrev pub forget_any : Option ℕ → Bool → Handler K (Unit {0})
  forget_any none running = if running then submit on_reconnect else pure tt
  forget_any (some id) running = forget_account id running

  unfoldable pub reset : Bool → Bool → Handler K (Unit {0})
  reset clear_config running = do
    if clear_config
        then change_stored (λ s. record s { config = false; import_data = none })
        else pure tt
    device ← gets (λ s. or_stored s.connection.device s.stored.device_id)
    forget_any device running

  unfoldable pub serve : Request → Handler K (Unit {0})
  serve resync = when_idle (do notify remote_ready_with_changes; send_message sync_message)
  serve list_devices = when_idle (send_message list_devices_message)
  serve update_key = init_key_change
  serve (remove_device id) = ask_removal id
  serve (download_done key) = acknowledge_download key
  serve (upload_data hash content) = send_upload hash content
  serve (upload_device_data hash device content) = send_device_upload hash device content
  serve (reply_login device accepted) = modify (λ s. record s {
    connection = login_reply (crypto.proofs s.keys) device accepted s.connection;
  })
  serve (prepare_import with_config i) =
      change_stored (λ s. record s { config = with_config; import_data = some i })
  serve (reset_account clear_config running) = reset clear_config running

  unfoldable pub after_request : Request → Session K → Session K
  after_request r s = (serve r s).1
