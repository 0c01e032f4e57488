-- ===== src/Examples/Session.antt =====
-- Sessions of a client at a server without users.
use qt_data_sync.Common.{true, some, List, [], ◌∷◌, ◌≡◌, refl, arith}
use qt_data_sync.Table.{get}
use qt_data_sync.Exec.{pure, throw, gets, modify, ◌>>=◌, ◌>>◌, try_catch}
use qt_data_sync.Server.Database.{Db}
use qt_data_sync.Server.Database.Methods.{add_new_device}
use qt_data_sync.Server.Client.{
  State, authenticating, awaiting_grant, idle, error, error_reply, unexpected_message, Client,
  Server, call, reach_database, send, emit, set_state, expect,
}
use qt_data_sync.Server.Client.Handlers.{on_register, use_nonce, verify_own}
use qt_data_sync.Server.Client.Events.{
  register, change, Call, queued, Event, received, notify_changed, timeout, dispatch, task, run,
  after_event, session, no_access,
}
use qt_data_sync.Server.Client.Bounds.{Bounded, session-Bounded}
use qt_data_sync.Server.Client.Refusals.{needed, received-refused}
use qt_data_sync.Server.Client.Login.{SignedIn, event-SignedIn}

abbrev server : Server
server = record {
  quota_limit = 100;
  down_limit = 20;
  down_threshold = 10;
  fingerprint_of = λ c. some [];
  verify = λ c raw. true;
}

abbrev nobody : Db
nobody = record {
  users = [];
  devices = [];
  changes = [];
  device_changes = [];
  key_changes = [];
  next_user = 1;
  next_change = 1;
  notified = [];
}

abbrev joining : State → Client
joining x = record {
  state = x;
  device = 0;
  nonce = 7 ∷ [];
  cached_changes = 0;
  active = [];
  request = no_access;
  fingerprint = [];
  db = nobody;
  outcomes = [];
  sent = [];
  emitted = [];
}

abbrev now : Call
now = record { fresh = 5; today = 1 }

abbrev registration : Event
registration = queued (received [] (register (7 ∷ []) "pc" no_access.crypto []))

abbrev upload : Event
upload = queued (received [] (change (1 ∷ []) 0 [] (1 ∷ 2 ∷ [])))

abbrev events : List (Call × Event)
events = (now, registration) ∷ (now, upload) ∷ (now, queued notify_changed) ∷ (now, timeout) ∷ []

session-Bounded_example :
    Bounded server (omega arith) (session server events (joining authenticating))
session-Bounded_example =
    session-Bounded server (omega arith) events (joining authenticating) (omega arith)

received-refused_example :
    after_event server now upload (joining awaiting_grant) ≡ record (joining awaiting_grant) {
      state = error;
      sent = error_reply unexpected_message true ∷ [];
    }
unfolding needed
received-refused_example =
    received-refused server now [] (change (1 ∷ []) 0 [] (1 ∷ 2 ∷ [])) idle (joining awaiting_grant)
      refl (λ e. cc) (λ e. cc)

event-SignedIn_example : SignedIn server (joining authenticating) registration
unfolding after_event run task dispatch on_register use_nonce verify_own call reach_database expect
    set_state send emit pure throw gets modify ◌>>=◌ ◌>>◌ try_catch add_new_device get
event-SignedIn_example = event-SignedIn server now (joining authenticating) refl registration refl
