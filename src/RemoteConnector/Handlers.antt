-- ===== src/RemoteConnector/Handlers.antt =====
-- src/datasync/remoteconnector.cpp: the handlers of the server's messages.
use qt_data_sync.Common.{
  ℕ, Bool, true, false, Option, none, some, List, [], ◌∷◌, ◌||◌, if◌then◌else◌,
}
use qt_data_sync.Common.Equality.{◌==◌, nat_eq}
use qt_data_sync.Json.{Bytes}
use qt_data_sync.Exec.{pure, gets, modify, ◌>>=◌, ◌>>◌, try_catch}
use qt_data_sync.RemoteConnector.{
  Mode, registering, logging_in, granting, on_await_login, on_await_register, on_await_granted,
  on_account, on_reconnect, login_message, register_message, access_message, new_key_message,
  remote_ready, remote_ready_with_changes, controller_error, update_upload_limit, upload_done,
  device_upload_done, download_data, devices_listed, import_completed, account_access_granted,
  progress_added, ImportData, DeviceInfo, submit_event, trigger_error,
}
use qt_data_sync.RemoteConnector.Proofs.{ProofMessage, is_idle, on_proof}
use qt_data_sync.RemoteConnector.Session.{
  Session, DeviceKey, KeyUpdate, Crypto, Handler, can_identify, on_connection, notify, submit,
  change_stored, compute, in_keys, in_mode, send_signed, send_key_update,
}

-- What the server sends. `unreadable` stands for what cannot be read and for a server of another
-- version, `unknown` for a message of an unknown name.
pub data Message : Type 0 where
  error_message : Bool → Message
  identify : ℕ → Bytes → Message
  account : ℕ → Message
  welcome : Bool → Option KeyUpdate → Message
  grant : ℕ → ℕ → Bytes → Bytes → Message
  change_ack : ℕ → Message
  device_change_ack : ℕ → ℕ → Message
  changed : ℕ → ℕ → Bytes → Bytes → Message
  changed_info : ℕ → ℕ → ℕ → Bytes → Bytes → Message
  last_changed : Message
  device_list : List DeviceInfo → Message
  remove_ack : ℕ → Message
  proof_request : ProofMessage → Message
  accept_ack : ℕ → Message
  mac_update_ack : Message
  device_keys : Bool → ℕ → List DeviceKey → Message
  new_key_ack : ℕ → Message
  unknown unreadable : Message

abbrev pub is_registering : Mode → Bool
is_registering registering = true
is_registering _ = false

abbrev pub is_logging_in : Mode → Bool
is_logging_in logging_in = true
is_logging_in _ = false

abbrev pub is_granting : Mode → Bool
is_granting granting = true
is_granting _ = false

abbrev pub has_content : Option ImportData → Option ImportData
has_content none = none
has_content (some i) = elim i.nonce [ [] ↦ none | b ∷ bs ↦ some i ]

-- The list without the device, if it is in it.
abbrev pub without : ℕ → List DeviceInfo → Option (List DeviceInfo)
without id [] = none
without id (d ∷ ds) =
    let rest = without id ds in
    if d.0 == id then some ds else elim rest [ none ↦ none | some r ↦ some (d ∷ r) ]

abbrev pub is_own : ℕ → Option ℕ → Bool
is_own id none = false
is_own id (some own) = own == id

module _ {K : Type 0} where
  -- onError: an error that cannot be recovered from is shown to the user.
  unfoldable pub on_error : Bool → Handler K (Unit {0})
  on_error can_recover = do
    on_connection (trigger_error can_recover)
    if can_recover then pure tt else notify controller_error

  unfoldable pub on_change_ack : ℕ → Handler K (Unit {0})
  on_change_ack data_id = in_mode is_idle (notify (upload_done data_id))

  unfoldable pub on_device_change_ack : ℕ → ℕ → Handler K (Unit {0})
  on_device_change_ack data_id device = in_mode is_idle (notify (device_upload_done data_id device))

  unfoldable pub on_last_changed : Handler K (Unit {0})
  on_last_changed = in_mode is_idle (notify remote_ready)

  unfoldable pub on_devices : List DeviceInfo → Handler K (Unit {0})
  on_devices devices =
      in_mode is_idle
        (do on_connection (λ c. record c { devices = devices }); notify (devices_listed devices))

  abbrev pub list_rest : Option (List DeviceInfo) → Handler K (Unit {0})
  list_rest none = pure tt
  list_rest (some devices) = do
    on_connection (λ c. record c { devices = devices })
    notify (devices_listed devices)

  abbrev pub forget_device : ℕ → Bool → Handler K (Unit {0})
  forget_device id true = do on_connection (λ c. record c { device = none }); submit on_reconnect
  forget_device id false = do rest ← gets (λ s. without id s.connection.devices); list_rest rest

  unfoldable pub on_remove_ack : ℕ → Handler K (Unit {0})
  on_remove_ack id =
      in_mode is_idle (do own ← gets (λ s. is_own id s.connection.device); forget_device id own)

  unfoldable pub on_accept_ack : ℕ → Handler K (Unit {0})
  on_accept_ack device = in_mode is_idle (notify (account_access_granted device))

  unfoldable pub on_mac_update_ack : Handler K (Unit {0})
  on_mac_update_ack = in_mode is_idle (change_stored (λ s. record s { send_cmac = false }))

module _ {K : Type 0} (crypto : Crypto K) where
  abbrev pub trust_mac : ImportData → Handler K (Option Bytes)
  trust_mac i = elim i.key [
    | [] ↦ pure none
    | b ∷ bs ↦ (do mac ← compute (crypto.export_cmac_for_crypto i.scheme (b ∷ bs)); pure (some mac))
  ]

  -- A new device: a new account, or the one that an import is of.
  abbrev pub join : Bytes → Option ImportData → Handler K (Unit {0})
  join nonce none = do
    cmac ← in_keys (crypto.encryption_key_cmac none)
    send_signed crypto (register_message nonce cmac)
    submit on_await_register
  join nonce (some i) = do
    mac ← trust_mac i
    send_signed crypto (access_message nonce i mac)
    submit on_await_granted

  abbrev pub identify_device : Bytes → Option ℕ → Handler K (Unit {0})
  identify_device nonce (some device) = do
    send_signed crypto (login_message device nonce)
    submit on_await_login
  identify_device nonce none = do
    in_keys (crypto.create_private_keys nonce)
    i ← gets (λ s. has_content s.stored.import_data)
    join nonce i

  unfoldable pub on_identify : ℕ → Bytes → Handler K (Unit {0})
  on_identify limit nonce = in_mode can_identify (do
    notify (update_upload_limit limit)
    device ← gets (λ s. s.connection.device)
    identify_device nonce device)

  abbrev pub take_account : ℕ → Handler K (Unit {0})
  take_account id = do
    on_connection (λ c. record c { device = some id })
    change_stored (λ s. record s { device_id = some id; config = true })
    in_keys (crypto.store_private_keys id)
    on_connection (λ c. submit_event on_account (record c { expect_changes = false }))

  unfoldable pub on_account_message : ℕ → Handler K (Unit {0})
  on_account_message id = in_mode is_registering (take_account id)

  -- The new key must have the cmac of the one in use.
  abbrev pub update_key_by : Option KeyUpdate → Handler K Bool
  update_key_by none = pure false
  update_key_by (some u) = do
    device ← gets (λ s. s.connection.device)
    in_keys (crypto.verify_cmac u device)
    in_keys (crypto.decrypt_secret_key u.index u.scheme u.key false)
    pure true

  unfoldable pub on_welcome : Bool → Option KeyUpdate → Handler K (Unit {0})
  on_welcome has_changes update = in_mode is_logging_in (do
    on_connection (λ c. submit_event on_account (record c { expect_changes = has_changes }))
    updated ← update_key_by update
    pending ← gets (λ s. s.stored.send_cmac)
    if updated || pending then send_key_update crypto else pure tt)

  unfoldable pub on_grant : ℕ → ℕ → Bytes → Bytes → Handler K (Unit {0})
  on_grant id index scheme secret = in_mode is_granting (do
    in_keys (crypto.decrypt_secret_key index scheme secret true)
    take_account id
    change_stored (λ s. record s { import_data = none })
    send_key_update crypto
    notify import_completed)

  unfoldable pub on_changed : ℕ → ℕ → Bytes → Bytes → Handler K (Unit {0})
  on_changed data_index index salt content = in_mode is_idle (do
    plain ← in_keys (crypto.decrypt_data index salt content)
    notify (download_data data_index plain))

  unfoldable pub on_changed_info : ℕ → ℕ → ℕ → Bytes → Bytes → Handler K (Unit {0})
  on_changed_info estimate data_index index salt content = in_mode is_idle (do
    notify remote_ready_with_changes
    notify (progress_added estimate)
    on_changed data_index index salt content)

  unfoldable pub on_proof_message : ProofMessage → Handler K (Unit {0})
  on_proof_message p =
      modify (λ s. record s { connection = on_proof (crypto.proofs s.keys) p s.connection })

  abbrev with_key : DeviceKey → Option Bytes → List (ℕ × Bytes) → List (ℕ × Bytes)
  with_key d none rest = rest
  with_key d (some key) rest = (d.0, key) ∷ rest

  abbrev key_or_none : ℕ → DeviceKey → Handler K (Option Bytes)
  key_or_none index d =
      try_catch (do key ← in_keys (crypto.key_for_device index d); pure (some key)) (λ e. pure none)

  -- A device whose cmac is wrong is left out.
  abbrev pub keys_for : ℕ → List DeviceKey → Handler K (List (ℕ × Bytes))
  keys_for index [] = pure []
  keys_for index (d ∷ ds) = do
    key ← key_or_none index d
    rest ← keys_for index ds
    pure (with_key d key rest)

  abbrev pub send_new_key : List DeviceKey → Handler K (Unit {0})
  send_new_key devices = do
    next ← in_keys crypto.generate_next_key
    cmac ← in_keys (crypto.encryption_key_cmac (some next.0))
    updates ← keys_for next.0 devices
    send_signed crypto (new_key_message next.0 next.1 updates cmac)

  unfoldable pub on_device_keys : Bool → ℕ → List DeviceKey → Handler K (Unit {0})
  on_device_keys duplicated index devices =
      in_mode is_idle
        (if duplicated then in_keys (crypto.activate_next_key index) else send_new_key devices)

  unfoldable pub on_new_key_ack : ℕ → Handler K (Unit {0})
  on_new_key_ack index = in_mode is_idle (in_keys (crypto.activate_next_key index))

  unfoldable pub dispatch : Message → Handler K (Unit {0})
  dispatch (error_message can_recover) = on_error can_recover
  dispatch (identify limit nonce) = on_identify limit nonce
  dispatch (account id) = on_account_message id
  dispatch (welcome has_changes update) = on_welcome has_changes update
  dispatch (grant id index scheme secret) = on_grant id index scheme secret
  dispatch (change_ack data_id) = on_change_ack data_id
  dispatch (device_change_ack data_id device) = on_device_change_ack data_id device
  dispatch (changed data_index index salt content) = on_changed data_index index salt content
  dispatch (changed_info estimate data_index index salt content) =
      on_changed_info estimate data_index index salt content
  dispatch last_changed = on_last_changed
  dispatch (device_list devices) = on_devices devices
  dispatch (remove_ack id) = on_remove_ack id
  dispatch (proof_request p) = on_proof_message p
  dispatch (accept_ack device) = on_accept_ack device
  dispatch mac_update_ack = on_mac_update_ack
  dispatch (device_keys duplicated index devices) = on_device_keys duplicated index devices
  dispatch (new_key_ack index) = on_new_key_ack index
  dispatch unknown = on_connection (trigger_error true)
  dispatch unreadable = on_error false

  -- binaryMessageReceived: an exception counts as an error of the client.
  unfoldable pub handle_message : Message → Session K → Session K
  handle_message m s = (try_catch (dispatch m) (λ e. on_error false) s).1
