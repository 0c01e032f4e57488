-- ===== src/Server/Client/Handlers.antt =====
-- The handlers of the messages, Client::onRegister to onNewKey. `fresh` is the id that
-- QUuid::createUuid gives, `raw` the message with its signature.
use qt_data_sync.Common.{
  ℕ, Bool, true, false, String, Option, none, some, List, [], ◌∷◌, if◌then◌else◌, ltb,
}
use qt_data_sync.Common.Equality.{◌==◌, nat_eq, bytes_eq}
use qt_data_sync.Json.{Bytes}
use qt_data_sync.Exec.{pure, throw, gets, modify, ◌>>=◌, ◌>>◌}
use qt_data_sync.Server.Database.{Crypto, DataChange, KeyChange, Db}
use qt_data_sync.Server.Database as Tables
use qt_data_sync.Server.Database.Methods.{
  add_new_device, load_crypto, update_login, update_cmac, list_devices, remove_device, add_change,
  add_device_change, change_count, complete_change, KeyOffer, accepted, duplicate, pending,
  bad_index, try_key_change, update_exchange_key, load_key_changes,
}
use qt_data_sync.Server.Client.{
  authenticating, awaiting_grant, idle, error, ErrorType, authentication_error, quota_hit,
  key_index_error, key_pending_error, Access, Reply, account, welcome, change_ack,
  device_change_ack, devices, remove_ack, mac_update_ack, device_keys, new_key_ack, connected,
  proof_requested, proof_done, force_disconnect, database_failed, other_failure, failed, Handler,
  Server, query, update, call, send, emit, set_state, send_error, expect,
}
use qt_data_sync.Server.Client.Downloads.{trigger_download}

-- The nonce of the message must be the one that was sent, and is used up.
unfoldable pub use_nonce : Bytes → Handler (Unit {0})
use_nonce n = do
  sent ← gets (λ s. s.nonce)
  if sent == n then modify (λ s. record s { nonce = [] }) else throw other_failure

module _ (server : Server) where
  abbrev pub check_signature : Crypto → Bytes → Handler (Unit {0})
  check_signature crypto raw =
      if server.verify crypto raw then pure tt else throw (failed authentication_error false)

  -- The keys of a message; malformed ones throw.
  abbrev pub read_keys : Option Bytes → Handler Bytes
  read_keys none = throw other_failure
  read_keys (some fingerprint) = pure fingerprint

  unfoldable pub verify_own : Crypto → Bytes → Handler Bytes
  verify_own crypto raw = do
    fingerprint ← read_keys (server.fingerprint_of crypto)
    check_signature crypto raw
    pure fingerprint

  abbrev pub verify_known : Option Crypto → Bytes → Handler Bytes
  verify_known none raw = throw (failed authentication_error false)
  verify_known (some crypto) raw = verify_own crypto raw

  -- The signature against the keys in the tables.
  unfoldable pub verify_stored : ℕ → Bytes → Handler Bytes
  verify_stored device raw = do crypto ← query (load_crypto device); verify_known crypto raw

  unfoldable pub on_register : ℕ → ℕ → Bytes → Bytes → String → Crypto → Bytes → Handler (Unit {0})
  on_register fresh today raw nonce name crypto cmac = do
    expect authenticating
    use_nonce nonce
    fingerprint ← verify_own crypto raw
    device ← call (add_new_device server.quota_limit fresh today name crypto fingerprint cmac)
    modify (λ s. record s { device = device })
    send (account device)
    set_state idle
    emit (connected device)

  unfoldable pub on_login : ℕ → Bytes → Bytes → ℕ → String → Handler (Unit {0})
  on_login today raw nonce device name = do
    expect authenticating
    use_nonce nonce
    verify_stored device raw
    modify (λ s. record s { device = device })
    update (update_login today device name)
    count ← query (change_count device)
    modify (λ s. record s { cached_changes = count })
    keys ← query (load_key_changes device)
    send (welcome (ltb 0 count) keys)
    set_state idle
    emit (connected device)
    trigger_download server true (count == 0)

  unfoldable pub on_access : ℕ → Bytes → Bytes → Access → Handler (Unit {0})
  on_access fresh raw nonce request = do
    expect authenticating
    use_nonce nonce
    fingerprint ← verify_own request.crypto raw
    modify (λ s. record s { fingerprint = fingerprint; device = fresh; request = request })
    set_state awaiting_grant
    emit (proof_requested request.partner fresh)

  unfoldable pub on_sync : Handler (Unit {0})
  on_sync = do expect idle; trigger_download server false false

  abbrev pub answer : Reply → ErrorType → Bool → Handler (Unit {0})
  answer m e true = send m
  answer m e false = send_error e false

  unfoldable pub on_change : Bytes → ℕ → Bytes → Bytes → Handler (Unit {0})
  on_change data_id index salt payload = do
    expect idle
    device ← gets (λ s. s.device)
    stored ← call (add_change device data_id index salt payload)
    answer (change_ack data_id) quota_hit stored

  unfoldable pub on_device_change : ℕ → Bytes → ℕ → Bytes → Bytes → Handler (Unit {0})
  on_device_change target data_id index salt payload = do
    expect idle
    device ← gets (λ s. s.device)
    stored ← call (add_device_change device target data_id index salt payload)
    answer (device_change_ack target data_id) quota_hit stored

  abbrev pub remove_one : ℕ → List ℕ → List ℕ
  remove_one x [] = []
  remove_one x (y ∷ ys) = if y == x then ys else y ∷ remove_one x ys

  unfoldable pub on_changed_ack : ℕ → Handler (Unit {0})
  on_changed_ack id = do
    expect idle
    device ← gets (λ s. s.device)
    update (complete_change device id)
    modify (λ s. record s { active = remove_one id s.active })
    trigger_download server false false

  unfoldable pub on_list_devices : Handler (Unit {0})
  on_list_devices = do
    expect idle
    device ← gets (λ s. s.device)
    found ← query (list_devices device)
    send (devices found)

  unfoldable pub on_remove : ℕ → Handler (Unit {0})
  on_remove target = do
    expect idle
    device ← gets (λ s. s.device)
    update (remove_device device target)
    send (remove_ack target)
    if device == target then set_state error else emit (force_disconnect target)

  unfoldable pub on_accept : Bytes → ℕ → Handler (Unit {0})
  on_accept raw partner = do
    expect idle
    device ← gets (λ s. s.device)
    verify_stored device raw
    emit (proof_done partner true)

  unfoldable pub on_deny : ℕ → Handler (Unit {0})
  on_deny partner = do expect idle; emit (proof_done partner false)

  unfoldable pub on_mac_update : ℕ → Bytes → Handler (Unit {0})
  on_mac_update index cmac = do
    expect idle
    device ← gets (λ s. s.device)
    updated ← call (λ db. Tables.ok (update_cmac device index cmac db))
    answer mac_update_ack key_index_error updated

  abbrev pub answer_offer : ℕ → Tables.Result KeyOffer → Handler (Unit {0})
  answer_offer index (Tables.ok (accepted keys)) = send (device_keys index keys)
  answer_offer index (Tables.ok duplicate) = send (device_keys index [])
  answer_offer index (Tables.ok pending) = send_error key_pending_error false
  answer_offer index (Tables.ok bad_index) = send_error key_index_error false
  answer_offer index (Tables.err e) = throw database_failed

  unfoldable pub on_key_change : ℕ → Handler (Unit {0})
  on_key_change index = do
    expect idle
    device ← gets (λ s. s.device)
    offer ← query (try_key_change device index)
    answer_offer index offer

  abbrev pub disconnect_all : List (ℕ × Bytes × Bytes) → Handler (Unit {0})
  disconnect_all [] = pure tt
  disconnect_all ((d, key, mac) ∷ rest) = do emit (force_disconnect d); disconnect_all rest

  abbrev pub answer_key : ℕ → List (ℕ × Bytes × Bytes) → Bool → Handler (Unit {0})
  answer_key index keys true = do disconnect_all keys; send (new_key_ack index)
  answer_key index keys false = send_error key_index_error false

  unfoldable pub on_new_key :
      Bytes → ℕ → Bytes → Bytes → List (ℕ × Bytes × Bytes) → Handler (Unit {0})
  on_new_key raw index scheme cmac keys = do
    expect idle
    device ← gets (λ s. s.device)
    verify_stored device raw
    updated ← call (update_exchange_key device index scheme cmac keys)
    answer_key index keys updated
