-- ===== src/Examples/Traffic.antt =====
-- Uploads, signals between adapters, and the server's queues.
use qt_data_sync.Common.{ℕ, true, false, none, some, List, [], ◌∷◌, ◌≡◌, refl, arith, map}
use qt_data_sync.Table.{get}
use qt_data_sync.Table.Laws.{get-cons_self}
use qt_data_sync.Common.Equality.{nat_eq, ==_refl}
use qt_data_sync.Json.{json_hash}
use qt_data_sync.Environment.{key_eq}
use qt_data_sync.Emitter.{Emitter}
use qt_data_sync.Emitter.Backend.{
  Backend, Trigger, store_changed, type_cleared, all_resetted, trigger_all, deliver_all,
}
use qt_data_sync.Emitter.Hearing.{all_announced}
use qt_data_sync.Emitter.Delivery.{sent_for, deliver_all-Once}
use qt_data_sync.LocalStore.State.{Store, Row}
use qt_data_sync.ChangeController.{
  Uploads, Call, enable, triggered, plain_done, perform_all, upload_done, key_hash,
}
use qt_data_sync.ChangeController.Bounds.{Held, perform_all-Held}
use qt_data_sync.ChangeController.Acknowledge.{upload_done-Newer}
use qt_data_sync.Server.Connector.{
  Connector, Event, new_connection, client_connected, destroyed, notify_changed, proof_requested,
  handle_all,
}
use qt_data_sync.Server.Connector.Routing.{Routed, handle_all-Routed, reconnect-Lost}
use qt_data_sync.Server.TaskQueue.{
  Action, enqueue, finish, clear, serving, act_all, all_served, act_all-served, act_all-Drains,
}
use qt_data_sync.Examples.Setting.{env}
use qt_data_sync.Examples.Stores.{key, short, holding, row_of, emitter}

abbrev uploads : Uploads
uploads = record {
  enabled = false;
  limit = 2;
  active = [];
  estimate = 0;
  starting = false;
  timing = false;
  queued = [];
  emitted = [];
}

abbrev calls : List Call
calls = enable true ∷ triggered ∷ plain_done (key_hash env.text key) ∷ []

perform_all-Held_example : Held 2 (perform_all env calls (uploads, holding 3 short true))
perform_all-Held_example =
    perform_all-Held env 2 calls (uploads, holding 3 short true) (refl, omega arith, tt)

-- Version 3 is being uploaded and version 4 has been saved since.
abbrev uploading : Uploads
uploading = record uploads {
  active =
      (record { hash = 5; device = none }, record { key = key; version = 3; is_delete = false })
      ∷ [];
}

abbrev newer : Store (Unit {0})
newer = holding 4 short true

abbrev newer_row : Row
newer_row = row_of (some "f") (some (json_hash env.text short)) 4 true

upload_done-Newer_example :
    get key (upload_done env 5 (uploading, newer)).1.1.db.index ≡ some newer_row
unfolding get
upload_done-Newer_example =
    upload_done-Newer key newer_row env 5 uploading newer (refl, tt)
      (get-cons_self key [] newer_row) (rw (==_refl key) refl)

abbrev other_emitter : Emitter (Unit {0})
other_emitter = record emitter { origin = 2 }

abbrev backend : Backend (Unit {0})
backend = record { cache = some tt; emitted = [] }

abbrev triggers : List Trigger
triggers =
    store_changed key false true ∷ type_cleared key.type_name ("a" ∷ "b" ∷ []) ∷ all_resetted ∷ []

deliver_all-Once_example :
    (deliver_all env (sent_for env backend (trigger_all triggers emitter)) other_emitter).signals
    ≡ all_announced triggers
deliver_all-Once_example =
    deliver_all-Once env backend refl triggers emitter other_emitter refl refl

abbrev quiet : List ℕ → Connector (Unit {0})
quiet live = record {
  clients = [];
  live = live;
  watched = [];
  links = [];
  accepts = [];
  orders = [];
}

abbrev events : List (Event (Unit {0}))
events =
    new_connection 1
    ∷ client_connected 1 8
    ∷ new_connection 2
    ∷ proof_requested 2 8 9
    ∷ destroyed 1
    ∷ notify_changed 8
    ∷ []

handle_all-Routed_example : Routed (handle_all events (quiet []))
unfolding get
handle_all-Routed_example =
    handle_all-Routed events (quiet [])
      ((λ d c e. absurd (ground arith)), (λ d c e. absurd (ground arith)))

reconnect-Lost_example :
    get 8
      (handle_all
        (client_connected 1 8 ∷ client_connected 2 8 ∷ destroyed 1 ∷ [])
        (quiet (1 ∷ 2 ∷ []))).clients
    ≡ none
reconnect-Lost_example = reconnect-Lost 1 2 8 (quiet (1 ∷ 2 ∷ [])) refl refl

abbrev actions : List Action
actions = enqueue 3 ∷ enqueue 4 ∷ finish 4 ∷ finish 3 ∷ clear ∷ []

act_all-served_example :
    act_all actions (serving [] [])
    ≡ serving (all_served actions ([], [])).0 (all_served actions ([], [])).1
act_all-served_example = act_all-served actions [] []

act_all-Drains_example :
    act_all (map finish (3 ∷ 4 ∷ [])) (serving (3 ∷ 4 ∷ []) (1 ∷ [])) ≡ serving [] (1 ∷ 3 ∷ 4 ∷ [])
act_all-Drains_example = act_all-Drains (3 ∷ 4 ∷ []) (1 ∷ [])
