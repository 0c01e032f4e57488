-- ===== src/RemoteConnector/Session.antt =====
-- src/datasync/remoteconnector.cpp: what the handlers of messages work on, and their common steps. A
-- handler may throw; what it did before stays. The CryptoController is an interface, since its work is
-- done by the Crypto++ library.
use qt_data_sync.Common.{ℕ, Bool, true, false, Option, none, some, [], ◌∷◌, ◌++◌, if◌then◌else◌}
use qt_data_sync.Json.{Bytes}
use qt_data_sync.Exec.{Result, Exec, pure, throw, gets, modify, ◌>>=◌, ◌>>◌}
use qt_data_sync.RemoteConnector.{
  Mode, connecting, connected, MachineEvent, Sent, mac_update_message, Signal, ImportData,
  Connection, emit, submit_event, trigger_error,
}
use qt_data_sync.RemoteConnector.Proofs.{CryptoController}

-- The settings that messages change.
pub record Stored : Type 0 where
  pub device_id : Option ℕ
  pub send_cmac : Bool
  pub import_data : Option ImportData
  -- whether the remote configuration has been written
  pub config : Bool

-- The connection, the keys of the CryptoController, and the settings.
pub record Session (K : Type 0) : Type 0 where
  pub connection : Connection
  pub keys : K
  pub stored : Stored

-- A DeviceKeysMessage's entry: the device, its algorithms and key, and the cmac of it.
abbrev pub DeviceKey : Type 0
DeviceKey = ℕ × Bytes × Bytes

-- The index, scheme, key and cmac of a WelcomeMessage with a key update.
pub record KeyUpdate : Type 0 where
  pub index : ℕ
  pub scheme : Bytes
  pub key : Bytes
  pub cmac : Bytes

-- What is thrown; all that matters is that it is.
pub data Thrown : Type 0 where
  failed : Thrown

-- What the CryptoController does with its keys; it may throw.
abbrev pub KeyCall : Type 0 → Type 0 → Type 0
KeyCall K A = Exec Thrown K A

-- CryptoController; where a method leaves the keys as they are, `none` is an exception.
pub record Crypto (K : Type 0) : Type 0 where
  pub key_index : K → Option ℕ
  pub can_sign : K → Bool
  pub create_private_keys : Bytes → KeyCall K (Unit {0})
  pub store_private_keys : ℕ → KeyCall K (Unit {0})
  pub encryption_key_cmac : Option ℕ → KeyCall K Bytes
  pub export_cmac_for_crypto : Bytes → Bytes → K → Option Bytes
  pub verify_cmac : KeyUpdate → Option ℕ → KeyCall K (Unit {0})
  pub decrypt_secret_key : ℕ → Bytes → Bytes → Bool → KeyCall K (Unit {0})
  -- the index of the key, the salt and the data
  pub encrypt_data : Bytes → KeyCall K (ℕ × Bytes × Bytes)
  pub decrypt_data : ℕ → Bytes → Bytes → KeyCall K Bytes
  pub activate_next_key : ℕ → KeyCall K (Unit {0})
  -- the index and the scheme
  pub generate_next_key : KeyCall K (ℕ × Bytes)
  -- the new key for a device, after its cmac was checked
  pub key_for_device : ℕ → DeviceKey → KeyCall K Bytes
  pub delete_key_material : ℕ → K → K
  -- what the handler of proofs takes from it
  pub proofs : K → CryptoController

abbrev pub Handler : Type 0 → Type 0 → Type 0
Handler K A = Exec Thrown (Session K) A

abbrev pub can_identify : Mode → Bool
can_identify connecting = true
can_identify connected = true
can_identify _ = false

module _ {K : Type 0} where
  unfoldable pub on_connection : (Connection → Connection) → Handler K (Unit {0})
  on_connection f = modify (λ s. record s { connection = f s.connection })

  abbrev pub notify : Signal → Handler K (Unit {0})
  notify x = on_connection (emit x)

  abbrev pub submit : MachineEvent → Handler K (Unit {0})
  submit e = on_connection (submit_event e)

  unfoldable pub send_message : Sent → Handler K (Unit {0})
  send_message m = on_connection (λ c. record c { sent = c.sent ++ m ∷ [] })

  unfoldable pub change_stored : (Stored → Stored) → Handler K (Unit {0})
  change_stored f = modify (λ s. record s { stored = f s.stored })

  abbrev pub from_option : {A : Type 0} → Option A → Handler K A
  from_option none = throw failed
  from_option (some a) = pure a

  -- What the controller computes, or its exception.
  unfoldable pub compute : {A : Type 0} → (K → Option A) → Handler K A
  compute f = do r ← gets (λ s. f s.keys); from_option r

  abbrev pub beside_keys :
      {A : Type 0} → Session K → Result Thrown A × K → Result Thrown A × Session K
  beside_keys s (r, keys) = (r, record s { keys = keys })

  unfoldable pub in_keys : {A : Type 0} → KeyCall K A → Handler K A
  in_keys m s = beside_keys s (m s.keys)

  -- checkIdle and its like: in another state the message is an error that the connection recovers from.
  unfoldable pub in_mode : (Mode → Bool) → Handler K (Unit {0}) → Handler K (Unit {0})
  in_mode allowed m = do
    ready ← gets (λ s. allowed s.connection.mode)
    if ready then m else on_connection (trigger_error true)

module _ {K : Type 0} (crypto : Crypto K) where
  unfoldable pub send_signed : Sent → Handler K (Unit {0})
  send_signed m = do
    signs ← gets (λ s. crypto.can_sign s.keys)
    if signs then send_message m else throw failed

  unfoldable pub send_key_update : Handler K (Unit {0})
  send_key_update = do
    change_stored (λ s. record s { send_cmac = true })
    cmac ← in_keys (crypto.encryption_key_cmac none)
    index ← compute crypto.key_index
    send_message (mac_update_message index cmac)
