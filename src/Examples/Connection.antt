-- ===== src/Examples/Connection.antt =====
-- A connection to a server that is tried and closed.
use qt_data_sync.Common.{List, ◌≡◌, refl, ◌≤◌, Bool, true, false, none, some, [], ◌∷◌}
use qt_data_sync.RemoteConnector.{
  Mode, logging_in, reconnecting, retrying, final, on_disconnected, on_account, Settings,
  Connection, process, machine_step, connector_step,
}
use qt_data_sync.RemoteConnector.Machine.{stage, connector_step-stage, process-Finishes}
use qt_data_sync.RemoteConnector.Retries.{retries, retries-delays}
use qt_data_sync.Common.{All, ◌++◌}
use qt_data_sync.RemoteConnector.{deny, idle}
use qt_data_sync.RemoteConnector.Proofs.{
  ProofMessage, CryptoController, ProofEvent, proof_received, reply, proof_expired, on_proof,
  proof_steps, send,
}
use qt_data_sync.RemoteConnector.Accepts.{Granted, proof_steps-Granted}
use qt_data_sync.RemoteConnector.Replay.{on_proof-Once}
use qt_data_sync.RemoteConnector.{basic_error, on_basic_error}
use qt_data_sync.Exec.{ok}
use qt_data_sync.RemoteConnector.Session.{Session, Crypto}
use qt_data_sync.RemoteConnector.Handlers.{account, last_changed, change_ack, handle_message}
use qt_data_sync.RemoteConnector.Requests.{resync}
use qt_data_sync.RemoteConnector.Buffer.{Remote, Arrival, message, input, request, arrive_all}
use qt_data_sync.RemoteConnector.Refusals.{handle_message-Refused}
use qt_data_sync.RemoteConnector.Order.{received, arrive_all-Order}

abbrev settings : Settings
settings = record {
  stored_device = some 7;
  enabled = true;
  url_valid = true;
  keys_load = true;
  has_key_update = false;
  key_index = some 0;
}

abbrev pub at_mode : Mode → Bool → Connection
at_mode m closes = record {
  mode = m;
  is_closing = closes;
  events = on_account ∷ [];
  socket = none;
  opened = 0;
  blocked = false;
  retry_index = 0;
  timers = [];
  awaiting_ping = false;
  expect_changes = false;
  device = none;
  devices = [];
  exports = (1 ∷ [], 2 ∷ []) ∷ [];
  active_proofs = [];
  sent = [];
  signals = [];
}

connector_step-stage_example :
    stage (connector_step settings machine_step (at_mode logging_in false)).mode ≤ 4
connector_step-stage_example = connector_step-stage settings machine_step (at_mode logging_in false)

process-Finishes_example :
    (process settings on_disconnected
      (process settings on_disconnected (at_mode reconnecting true))).mode
    ≡ final
process-Finishes_example = process-Finishes settings (at_mode reconnecting true) refl

retries-delays_example :
    ((retries 6 (at_mode retrying false)).timers ≡ 5 ∷ 10 ∷ 30 ∷ 60 ∷ 300 ∷ 300 ∷ [])
    × ((retries 6 (at_mode retrying false)).retry_index ≡ 5)
retries-delays_example = retries-delays 6 0 (at_mode retrying false) refl

-- Every mac is right, and a secret key is encrypted as the keys that it is for.
abbrev pub crypto : CryptoController
crypto = record {
  to_rfc4122 = λ d. [];
  verify_import_cmac = λ scheme key content mac. true;
  verify_import_cmac_for_crypto = λ scheme key keys mac. true;
  read_keys = λ keys. some keys;
  encrypt_secret_key = λ keys. some keys;
}

abbrev proof : ProofMessage
proof = record {
  nonce = 1 ∷ [];
  device = 9;
  mac_scheme = [];
  cmac = [];
  keys = 3 ∷ [];
  trustmac = some [];
}

abbrev proof_events : List ProofEvent
proof_events = proof_received proof ∷ proof_received proof ∷ reply 9 true ∷ proof_expired 9 ∷ []

proof_steps-Granted_example :
    All
      (Granted crypto none ((1 ∷ [], 2 ∷ []) ∷ []))
      (proof_steps crypto proof_events (at_mode idle false)).sent
proof_steps-Granted_example = proof_steps-Granted crypto proof_events (at_mode idle false) refl refl

-- The proof is followed by the user's answer and by the timeout of another device.
abbrev between : List ProofEvent
between = reply 9 true ∷ proof_expired 4 ∷ []

on_proof-Once_example :
    on_proof crypto proof (proof_steps crypto between (on_proof crypto proof (at_mode idle false)))
    ≡ send (deny 9) (proof_steps crypto between (on_proof crypto proof (at_mode idle false)))
on_proof-Once_example = on_proof-Once crypto proof proof between (at_mode idle false) refl refl

-- A controller that never fails and whose keys are all one.
abbrev controller : Crypto (Unit {0})
controller = record {
  key_index = λ k. some 0;
  can_sign = λ k. true;
  create_private_keys = λ nonce k. (ok tt, k);
  store_private_keys = λ id k. (ok tt, k);
  encryption_key_cmac = λ i k. (ok [], k);
  export_cmac_for_crypto = λ scheme key k. some [];
  verify_cmac = λ u d k. (ok tt, k);
  decrypt_secret_key = λ i scheme key grant k. (ok tt, k);
  encrypt_data = λ d k. (ok (0, [], d), k);
  decrypt_data = λ i salt d k. (ok d, k);
  activate_next_key = λ i k. (ok tt, k);
  generate_next_key = λ k. (ok (1, []), k);
  key_for_device = λ i d k. (ok [], k);
  delete_key_material = λ id k. k;
  proofs = λ k. crypto;
}

abbrev session : Session (Unit {0})
session = record {
  connection = at_mode idle false;
  keys = tt;
  stored = record { device_id = some 7; send_cmac = false; import_data = none; config = true };
}

handle_message-Refused_example :
    (handle_message controller (account 8) session ≡ record session {
      connection = record session.connection {
        blocked = true;
        events = on_account ∷ on_basic_error ∷ [];
      };
    })
    × ((process settings on_basic_error
          (handle_message controller (account 8) session).connection).mode
        ≡ basic_error)
handle_message-Refused_example = handle_message-Refused controller settings (account 8) session refl

abbrev remote : Remote (Unit {0})
remote = record { session = session; buffer = []; handled = [] }

-- The account message makes the second wait, and the first step of the machine leaves it waiting.
abbrev arrivals : List Arrival
arrivals =
    message (account 8)
    ∷ message last_changed
    ∷ input machine_step
    ∷ request resync
    ∷ message (change_ack 3)
    ∷ []

arrive_all-Order_example :
    ((arrive_all controller settings arrivals remote).handled
        ++ (arrive_all controller settings arrivals remote).buffer
      ≡ (remote.handled ++ remote.buffer) ++ received arrivals)
    × ((arrive_all controller settings arrivals remote).session.connection.blocked ≡ false
        → (arrive_all controller settings arrivals remote).buffer ≡ [])
arrive_all-Order_example = arrive_all-Order controller settings arrivals remote (λ e. refl)
