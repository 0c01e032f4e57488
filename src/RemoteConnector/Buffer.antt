-- ===== src/RemoteConnector/Buffer.antt =====
-- src/datasync/remoteconnector.cpp: while the state machine is about to change, messages wait in a
-- buffer. `handled` has the messages that were given to their handlers, oldest first.
use qt_data_sync.Common.{false, List, [], ◌∷◌, ◌++◌, if◌then◌else◌}
use qt_data_sync.RemoteConnector.{MachineEvent, Settings, Input, machine_step, connector_step}
use qt_data_sync.RemoteConnector.Session.{Session, Crypto}
use qt_data_sync.RemoteConnector.Handlers.{Message, handle_message}
use qt_data_sync.RemoteConnector.Requests.{Request, after_request}

pub record Remote (K : Type 0) : Type 0 where
  pub session : Session K
  pub buffer : List Message
  pub handled : List Message

pub data Arrival : Type 0 where
  message : Message → Arrival
  ping_answer : Arrival
  input : Input → Arrival
  request : Request → Arrival

module _ {K : Type 0} (crypto : Crypto K) (settings : Settings) where
  -- The settings as the handlers have left them.
  abbrev pub settings_of : Session K → Settings
  settings_of s = record settings {
    stored_device = s.stored.device_id;
    key_index = crypto.key_index s.keys;
  }

  unfoldable pub take_message : Message → Remote K → Remote K
  take_message m r = record r {
    session = handle_message crypto m r.session;
    handled = r.handled ++ m ∷ [];
  }

  unfoldable pub receive : Message → Remote K → Remote K
  receive m r =
      if r.session.connection.blocked
      then record r { buffer = r.buffer ++ m ∷ [] }
      else take_message m r

  -- The loop of machineReady over the buffer, until a handler makes messages wait again.
  unfoldable pub drain : List Message → Remote K → Remote K
  drain [] r = record r { buffer = [] }
  drain (m ∷ ms) r =
      let rest = drain ms (take_message m r) in
      if r.session.connection.blocked then record r { buffer = m ∷ ms } else rest

  abbrev pub connect_input : Input → Remote K → Remote K
  connect_input i r = record r {
    session = record r.session {
      connection = connector_step (settings_of r.session) i r.session.connection;
    };
  }

  -- A machine without events is stable.
  abbrev pub step_machine : List MachineEvent → Remote K → Remote K
  step_machine [] r = drain r.buffer (connect_input machine_step r)
  step_machine (e ∷ es) r = connect_input machine_step r

  unfoldable pub arrive : Arrival → Remote K → Remote K
  arrive (message m) r = receive m r
  arrive ping_answer r = record r {
    session = record r.session {
      connection = record r.session.connection { awaiting_ping = false };
    };
  }
  arrive (input machine_step) r = step_machine r.session.connection.events r
  arrive (input i) r = connect_input i r
  arrive (request q) r = record r { session = after_request crypto q r.session }

  unfoldable pub arrive_all : List Arrival → Remote K → Remote K
  arrive_all [] r = r
  arrive_all (a ∷ more) r = arrive_all more (arrive a r)
