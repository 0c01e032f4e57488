-- ===== src/Server/Client/Events.antt =====
-- tools/appserver/client.cpp: what happens to a client. Messages (Client::binaryMessageReceived) and calls
-- from outside are tasks of the client's queue, which `run` guards. A ping, an error of the socket and
-- the timeout are handled at once, on the main thread; here they come between two tasks, so one that
-- comes while a task runs, and the state that both write, is not modelled. A session is a list of
-- events; `fresh` and `today` are the new id and the date that an event gets.
use qt_data_sync.Common.{
  ℕ, true, false, String, Option, none, some, List, [], ◌∷◌, ◌++◌, if◌then◌else◌,
}
use qt_data_sync.Common.Equality.{◌==◌, nat_eq}
use qt_data_sync.Json.{Bytes}
use qt_data_sync.Exec.{pure, throw, gets, modify, ◌>>=◌, ◌>>◌, try_catch}
use qt_data_sync.Server.Database.{Crypto}
use qt_data_sync.Server.Database.Methods.{add_new_device_to_user}
use qt_data_sync.Server.Client.{
  State, awaiting_grant, idle, error, state_beq, client_error, server_error, incompatible_version,
  access_error, Access, grant, proof, accept_ack, ping, connected, proof_done, Client, Thrown,
  database_failed, other_failure, failed, Handler, Server, call, send, emit, set_state, send_error,
}
use qt_data_sync.Server.Client.Downloads.{trigger_download}
use qt_data_sync.Server.Client.Handlers.{
  on_register, on_login, on_access, on_sync, on_change, on_device_change, on_changed_ack,
  on_list_devices, on_remove, on_accept, on_deny, on_mac_update, on_key_change, on_new_key,
}

-- A message, as it is deserialized.
pub data Message : Type 0 where
  register : Bytes → String → Crypto → Bytes → Message
  login : Bytes → ℕ → String → Message
  access : Bytes → Access → Message
  sync : Message
  change : Bytes → ℕ → Bytes → Bytes → Message
  device_change : ℕ → Bytes → ℕ → Bytes → Bytes → Message
  changed_ack : ℕ → Message
  list_devices : Message
  remove : ℕ → Message
  accept : ℕ → Message
  deny : ℕ → Message
  mac_update : ℕ → Bytes → Message
  key_change : ℕ → Message
  new_key : ℕ → Bytes → Bytes → List (ℕ × Bytes × Bytes) → Message
  -- of an unknown type, of another version, or not readable
  unknown wrong_version unreadable : Message

-- The date, and the id that a new device gets.
pub record Call : Type 0 where
  pub fresh : ℕ
  pub today : ℕ

pub data Task : Type 0 where
  received : Bytes → Message → Task
  notify_changed : Task
  -- the answer of a partner: the id that it names, if it accepts
  proof_result : Option ℕ → Task
  send_proof accept_done : ℕ → Task

pub data Event : Type 0 where
  -- the queue's next task runs
  queued : Task → Event
  received_ping socket_error timeout : Event

-- AccessMessage()
abbrev pub no_access : Access
no_access = record {
  device_name = "";
  partner = 0;
  crypto = record { sign_scheme = []; sign_key = []; crypt_scheme = []; crypt_key = [] };
}

-- Client::run
abbrev pub caught : Thrown → Handler (Unit {0})
caught database_failed = send_error server_error true
caught other_failure = send_error client_error false
caught (failed e recover) = send_error e recover

-- Client::error and Client::sslErrors; the socket is closed.
abbrev pub on_socket_error : Client → Client
on_socket_error s = record s { state = error }

-- Client::timeout, likewise.
abbrev pub on_timeout : Client → Client
on_timeout s = record s { state = error }

module _ (server : Server) where
  unfoldable pub dispatch : Call → Bytes → Message → Handler (Unit {0})
  dispatch c raw (register n name crypto cmac) =
      on_register server c.fresh c.today raw n name crypto cmac
  dispatch c raw (login n device name) = on_login server c.today raw n device name
  dispatch c raw (access n request) = on_access server c.fresh raw n request
  dispatch c raw sync = on_sync server
  dispatch c raw (change i k s d) = on_change server i k s d
  dispatch c raw (device_change t i k s d) = on_device_change server t i k s d
  dispatch c raw (changed_ack i) = on_changed_ack server i
  dispatch c raw list_devices = on_list_devices server
  dispatch c raw (remove t) = on_remove server t
  dispatch c raw (accept p) = on_accept server raw p
  dispatch c raw (deny p) = on_deny server p
  dispatch c raw (mac_update i m) = on_mac_update server i m
  dispatch c raw (key_change i) = on_key_change server i
  dispatch c raw (new_key i s m keys) = on_new_key server raw i s m keys
  dispatch c raw unknown = send_error incompatible_version false
  dispatch c raw wrong_version = send_error incompatible_version false
  dispatch c raw unreadable = throw other_failure

  abbrev pub when_in : State → Handler (Unit {0}) → Handler (Unit {0}) → Handler (Unit {0})
  when_in x task other = do now ← gets (λ s. s.state); if state_beq now x then task else other

  abbrev pub add_granted : ℕ → Client → Handler (Unit {0})
  add_granted today s = do
    call (
        add_new_device_to_user today s.device s.request.partner s.request.device_name
          s.request.crypto s.fingerprint)
    modify (λ t. record t { request = no_access; fingerprint = [] })
    send (grant s.device)
    set_state idle
    emit (connected s.device)

  abbrev pub granted : ℕ → Option ℕ → Handler (Unit {0})
  granted today none = send_error access_error false
  granted today (some named) = do
    s ← gets (λ s. s)
    if named == s.device then add_granted today s else pure tt

  unfoldable pub task : Call → Task → Handler (Unit {0})
  task c (received raw m) = when_in error (pure tt) (dispatch c raw m)
  task c notify_changed = when_in idle (trigger_download server false false) (pure tt)
  task c (proof_result answer) = when_in awaiting_grant (granted c.today answer) (pure tt)
  task c (send_proof d) = when_in idle (send (proof d)) (emit (proof_done d false))
  task c (accept_done d) = when_in idle (send (accept_ack d)) (pure tt)

  unfoldable pub run : Call → Task → Handler (Unit {0})
  run c t = try_catch (task c t) caught

  unfoldable pub after_event : Call → Event → Client → Client
  after_event c (queued t) s = (run c t s).1
  after_event c received_ping s = record s { sent = s.sent ++ ping ∷ [] }
  after_event c socket_error s = on_socket_error s
  after_event c timeout s = on_timeout s

  unfoldable pub session : List (Call × Event) → Client → Client
  session [] s = s
  session ((c, e) ∷ rest) s = session rest (after_event c e s)
