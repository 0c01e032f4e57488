-- ===== src/RemoteConnector.antt =====
-- src/datasync/remoteconnector.cpp and connectorstatemachine.scxml: how the connection to the server
-- is made, lost, tried again and closed.
pub mod Frame
pub mod Machine
pub mod Retries
pub mod Proofs
pub mod Accepts
pub mod Replay
pub mod Session
pub mod Handlers
pub mod Requests
pub mod Buffer
pub mod Refusals
pub mod Blocked
pub mod Transfers
pub mod Order
use qt_data_sync.Common.{
  ℕ, zero, suc, ◌+◌, Bool, String, true, false, not, Option, none, some, List, [], ◌∷◌, ◌++◌, ◌&&◌,
  ◌||◌, ◌%◌, ◌^◌, if◌then◌else◌, ltb,
}
use qt_data_sync.Common.Equality.{◌==◌, nat_eq}
use qt_data_sync.Json.{Bytes}
use qt_data_sync.Table.{Table}

-- The states of the machine; the first six are within Active.
pub data Mode : Type 0 where
  connecting connected registering logging_in granting idle : Mode
  disconnected reconnecting retrying basic_error fatal_error closing final : Mode

pub data MachineEvent : Type 0 where
  on_connected on_no_connect on_reconnect on_disconnected on_basic_error on_fatal_error :
      MachineEvent
  on_await_register on_await_login on_await_granted on_account on_close on_do_disconnect :
      MachineEvent

-- QAbstractSocket::SocketState
pub data SocketState : Type 0 where
  unconnected host_lookup socket_connecting socket_connected socket_closing : SocketState

-- DeviceInfo: id, name and fingerprint
abbrev pub DeviceInfo : Type 0
DeviceInfo = ℕ × String × Bytes

-- What prepareImport stores for the next connection.
pub record ImportData : Type 0 where
  pub nonce : Bytes
  pub partner : ℕ
  pub scheme : Bytes
  pub cmac : Bytes
  pub key : Bytes

-- RemoteEvent, and the signals of RemoteConnector and Controller
pub data Signal : Type 0 where
  remote_disconnected remote_connecting remote_ready remote_ready_with_changes controller_error :
      Signal
  login_requested account_access_granted : ℕ → Signal
  update_upload_limit progress_added : ℕ → Signal
  upload_done : ℕ → Signal
  device_upload_done : ℕ → ℕ → Signal
  download_data : ℕ → Bytes → Signal
  devices_listed : List DeviceInfo → Signal
  import_completed progress_increment : Signal

pub data Sent : Type 0 where
  ping_message : Sent
  key_change : ℕ → Sent
  -- the device, and the secret key encrypted for it
  accept : ℕ → Bytes → Sent
  deny : ℕ → Sent
  -- a device or none yet: the nonce of the server, and what the new device needs
  login_message : ℕ → Bytes → Sent
  register_message : Bytes → Bytes → Sent
  access_message : Bytes → ImportData → Option Bytes → Sent
  mac_update_message : ℕ → Bytes → Sent
  new_key_message : ℕ → Bytes → List (ℕ × Bytes) → Bytes → Sent
  sync_message list_devices_message : Sent
  remove_message changed_ack_message : ℕ → Sent
  -- the hash of the key, a device, the index of the exchange key, the salt, and the encrypted data
  change_message : ℕ → ℕ → Bytes → Bytes → Sent
  device_change_message : ℕ → ℕ → ℕ → Bytes → Bytes → Sent

-- What the settings, the defaults and the CryptoController say.
pub record Settings : Type 0 where
  pub stored_device : Option ℕ
  pub enabled : Bool
  pub url_valid : Bool
  -- whether the key store opens and has the keys of the device
  pub keys_load : Bool
  pub has_key_update : Bool
  -- keyIndex(), if it does not throw
  pub key_index : Option ℕ

-- The state machine with the events submitted to it, and the members of RemoteConnector; `opened`
-- counts the sockets opened, `timers` has the delays of the retries in seconds, oldest first.
pub record Connection : Type 0 where
  pub mode : Mode
  pub is_closing : Bool
  pub events : List MachineEvent
  pub socket : Option SocketState
  pub opened : ℕ
  pub blocked : Bool
  pub retry_index : ℕ
  pub timers : List ℕ
  pub awaiting_ping : Bool
  pub expect_changes : Bool
  pub device : Option ℕ
  -- the device list; the keys of exports by nonce; the keys of the devices that wait for an answer
  pub devices : List DeviceInfo
  pub exports : Table Bytes Bytes
  pub active_proofs : Table ℕ Bytes
  pub sent : List Sent
  pub signals : List Signal

abbrev pub is_active : Mode → Bool
is_active connecting = true
is_active connected = true
is_active registering = true
is_active logging_in = true
is_active granting = true
is_active idle = true
is_active disconnected = false
is_active reconnecting = false
is_active retrying = false
is_active basic_error = false
is_active fatal_error = false
is_active closing = false
is_active final = false

-- The transitions that Active has for all its states.
unfoldable pub active_target : MachineEvent → Option Mode
active_target on_reconnect = some reconnecting
active_target on_disconnected = some retrying
active_target on_basic_error = some basic_error
active_target on_fatal_error = some fatal_error
active_target _ = none

-- The transitions of the states.
unfoldable pub target : Mode → MachineEvent → Option Mode
target connecting on_connected = some connected
target connecting on_no_connect = some disconnected
target connecting e = active_target e
target connected on_await_register = some registering
target connected on_await_login = some logging_in
target connected on_await_granted = some granting
target connected e = active_target e
target registering on_account = some idle
target registering e = active_target e
target logging_in on_account = some idle
target logging_in e = active_target e
target granting on_account = some idle
target granting e = active_target e
target idle e = active_target e
target disconnected on_reconnect = some connecting
target reconnecting on_disconnected = some connecting
target retrying on_reconnect = some connecting
target basic_error on_disconnected = some retrying
target basic_error on_reconnect = some reconnecting
target fatal_error on_disconnected = some disconnected
target fatal_error on_reconnect = some reconnecting
target closing on_disconnected = some final
target _ _ = none

-- The transitions without an event, when isClosing is set.
unfoldable pub closing_target : Mode → Option Mode
closing_target disconnected = some final
closing_target retrying = some final
closing_target m = if is_active m then some closing else none

abbrev pub emit : Signal → Connection → Connection
emit x s = record s { signals = s.signals ++ x ∷ [] }

abbrev pub enqueue_event : MachineEvent → Connection → Connection
enqueue_event e s = record s { events = s.events ++ e ∷ [] }

-- submitEventSync: messages wait until the machine is stable again.
unfoldable pub submit_event : MachineEvent → Connection → Connection
submit_event e s = enqueue_event e (record s { blocked = true })

unfoldable pub trigger_error : Bool → Connection → Connection
trigger_error true s = submit_event on_basic_error s
trigger_error false s = submit_event on_fatal_error s

-- In seconds.
abbrev pub timeouts : List ℕ
timeouts = 5 ∷ 10 ∷ 30 ∷ 60 ∷ 300 ∷ []

-- Timeouts[index], and the last one beyond the end.
abbrev pub timeout_at : ℕ → List ℕ → ℕ → ℕ
timeout_at i [] last = last
timeout_at zero (d ∷ ds) last = d
timeout_at (suc i) (d ∷ ds) last = timeout_at i ds d

unfoldable pub retry : Connection → Connection
retry s =
    let s' = record s { timers = s.timers ++ timeout_at s.retry_index timeouts 0 ∷ [] } in
    if ltb s.retry_index 5 then record s' { retry_index = s.retry_index + 1 } else s'

unfoldable pub clear_caches : Connection → Connection
clear_caches s = record s { devices = []; active_proofs = [] }

module _ (settings : Settings) where
  abbrev pub same_device : Option ℕ → Option ℕ → Bool
  same_device none d = false
  same_device (some a) none = false
  same_device (some a) (some b) = a == b

  -- A new or missing identity is loaded.
  unfoldable pub load_identity : Connection → Bool × Connection
  load_identity s =
      if same_device settings.stored_device s.device
      then (true, s)
      else (let s' = record s { device = settings.stored_device } in
          if settings.keys_load then (true, s') else (false, emit controller_error s'))

  abbrev pub may_sync : Bool → Bool
  may_sync loaded = loaded && settings.enabled && settings.url_valid

  unfoldable pub check_can_sync : Connection → Bool × Connection
  check_can_sync s =
      if s.is_closing then (false, s) else (let r = load_identity s in (may_sync r.0, r.1))

  -- Opening a socket drops the old one.
  abbrev pub open_if : Bool × Connection → Connection
  open_if (true, s) = record s {
    socket = some socket_connecting;
    opened = s.opened + 1;
    awaiting_ping = false;
  }
  open_if (false, s) = submit_event on_no_connect s

  unfoldable pub do_connect : Connection → Connection
  do_connect s = open_if (check_can_sync (emit remote_connecting s))

  -- An unconnected or connecting socket is dropped.
  abbrev pub disconnect_socket : Option SocketState → Connection → Connection
  disconnect_socket (some socket_closing) s = s
  disconnect_socket (some socket_connected) s = record s { socket = some socket_closing }
  disconnect_socket (some _) s = submit_event on_disconnected (record s { socket = none })
  disconnect_socket none s = submit_event on_disconnected s

  unfoldable pub do_disconnect : Connection → Connection
  do_disconnect s = disconnect_socket s.socket s

  -- initKeyUpdate in the state Idle; the index is a quint32.
  abbrev pub init_key_update : Option ℕ → Connection → Connection
  init_key_update none s = emit controller_error (trigger_error false s)
  init_key_update (some i) s = record s { sent = s.sent ++ key_change ((i + 1) % 2 ^ 32) ∷ [] }

  abbrev pub report_ready : Connection → Connection
  report_ready s =
      if s.expect_changes
      then emit remote_ready_with_changes (record s { expect_changes = false })
      else emit remote_ready s

  abbrev pub update_key : Connection → Connection
  update_key s = if settings.has_key_update then init_key_update settings.key_index s else s

  unfoldable pub on_entry_idle_state : Connection → Connection
  on_entry_idle_state s = report_ready (update_key (record s { retry_index = 0 }))

  unfoldable pub on_exit_active_state : Connection → Connection
  on_exit_active_state s = emit remote_disconnected (clear_caches s)

  -- What is done on the entry of a state.
  unfoldable pub enter : Mode → Connection → Connection
  enter connecting s = do_connect s
  enter retrying s = retry s
  enter idle s = on_entry_idle_state s
  enter basic_error s = enqueue_event on_do_disconnect s
  enter fatal_error s = enqueue_event on_do_disconnect s
  enter closing s = enqueue_event on_do_disconnect s
  enter _ s = s

  abbrev pub is_reconnecting : Mode → Bool
  is_reconnecting reconnecting = true
  is_reconnecting _ = false

  -- What is done when a state is left; the transition of Active on reconnect sends doDisconnect.
  abbrev pub leave : Mode → Connection → Connection
  leave m s =
      let t = if is_active s.mode && not (is_active m) then on_exit_active_state s else s in
      if is_active s.mode && is_reconnecting m then enqueue_event on_do_disconnect t else t

  unfoldable pub change_mode : Mode → Connection → Connection
  change_mode m s = enter m (record (leave m s) { mode = m })

  abbrev pub follow : Option Mode → Connection → Connection
  follow none s = s
  follow (some m) s = change_mode m s

  unfoldable pub close_if : Connection → Connection
  close_if s = if s.is_closing then follow (closing_target s.mode) s else s

  abbrev pub external_action : MachineEvent → Connection → Connection
  external_action on_do_disconnect s = do_disconnect s
  external_action _ s = s

  -- One event of the machine's queue.
  unfoldable pub process : MachineEvent → Connection → Connection
  process e s = close_if (follow (target s.mode e) (external_action e s))

  -- machineReady, once the queue is empty; the messages that wait are not modelled.
  abbrev pub next_event : List MachineEvent → Connection → Connection
  next_event [] s = record s { blocked = false }
  next_event (e ∷ es) s = process e (record s { events = es })

  -- Active is entered at Connecting.
  unfoldable pub start : Connection → Connection
  start s = close_if (enter connecting (record s { mode = connecting }))

-- What happens to the connector.
pub data Input : Type 0 where
  machine_step socket_opened socket_lost socket_error ping_timeout retry_timeout special_timeout :
      Input
  reconnect disconnect_remote finalize : Input
  handler_event : MachineEvent → Input

abbrev pub is_final : Mode → Bool
is_final final = true
is_final _ = false

unfoldable pub ping : Connection → Connection
ping s =
    if s.awaiting_ping
    then submit_event on_reconnect (record s { awaiting_ping = false })
    else record s { awaiting_ping = true; sent = s.sent ++ ping_message ∷ [] }

abbrev pub close_socket : Option SocketState → Connection → Connection
close_socket (some socket_connected) s = record s { socket = some socket_closing }
close_socket _ s = s

module _ (settings : Settings) where
  unfoldable pub connector_step : Input → Connection → Connection
  connector_step machine_step s = next_event settings s.events s
  connector_step socket_opened s =
      submit_event on_connected (record s { socket = some socket_connected })
  connector_step socket_lost s = submit_event on_disconnected (record s { socket = none })
  -- tryClose
  connector_step socket_error s = close_socket s.socket s
  connector_step ping_timeout s = ping s
  connector_step retry_timeout s = if s.retry_index == 0 then s else submit_event on_reconnect s
  connector_step special_timeout s = trigger_error true s
  connector_step reconnect s = submit_event on_reconnect s
  connector_step disconnect_remote s = trigger_error false s
  connector_step finalize s =
      if is_final s.mode then s else submit_event on_close (record s { is_closing = true })
  connector_step (handler_event e) s = submit_event e s
