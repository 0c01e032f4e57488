-- ===== src/Server/Client.antt =====
-- tools/appserver/client.cpp: the session of one connected client. Tasks of one client run one after
-- the other, so that a handler is a function on the session and the tables.
pub mod Downloads
pub mod Handlers
pub mod Events
pub mod Calls
pub mod Frame
pub mod Bounds
pub mod Refusals
pub mod Login
use qt_data_sync.Common.{
  ℕ, ◌+◌, ◌-◌, ◌%◌, ◌^◌, Bool, true, false, String, Option, none, some, List, [], ◌∷◌, ◌++◌,
  if◌then◌else◌,
}
use qt_data_sync.Common.Equality.{◌==◌, nat_eq, bytes_eq}
use qt_data_sync.Json.{Bytes}
use qt_data_sync.Exec.{Exec, pure, throw, gets, modify, ◌>>=◌, ◌>>◌}
use qt_data_sync.Server.Database.{Crypto, DataChange, KeyChange, Db}
use qt_data_sync.Server.Database as Tables

pub data State : Type 0 where
  authenticating awaiting_grant idle error : State

-- ErrorMessage::ErrorType, as far as the server sends it.
pub data ErrorType : Type 0 where
  incompatible_version client_error unexpected_message server_error authentication_error
        access_error quota_hit key_index_error key_pending_error :
      ErrorType

-- AccessMessage without its nonce.
pub record Access : Type 0 where
  pub device_name : String
  pub crypto : Crypto
  pub partner : ℕ

pub data Reply : Type 0 where
  account : ℕ → Reply
  welcome : Bool → Option KeyChange → Reply
  grant : ℕ → Reply
  proof : ℕ → Reply
  accept_ack : ℕ → Reply
  change_ack : Bytes → Reply
  device_change_ack : ℕ → Bytes → Reply
  changed_info : ℕ → ℕ → DataChange → Reply
  changed : ℕ → DataChange → Reply
  last_changed : Reply
  devices : List (ℕ × String × Bytes) → Reply
  remove_ack : ℕ → Reply
  mac_update_ack : Reply
  device_keys : ℕ → List (ℕ × Bytes × Bytes × Option Bytes) → Reply
  new_key_ack : ℕ → Reply
  ping : Reply
  -- the type, and whether the client may try again
  error_reply : ErrorType → Bool → Reply

pub data Signal : Type 0 where
  connected : ℕ → Signal
  proof_requested : ℕ → ℕ → Signal
  proof_done : ℕ → Bool → Signal
  force_disconnect : ℕ → Signal

-- The members of Client that tasks use, the tables, what was sent and emitted, oldest first, and the
-- outcomes of the next calls of the database; once these are used up, the calls reach the tables.
-- The device's id is 0 until it is set.
pub record Client : Type 0 where
  pub state : State
  pub device : ℕ
  pub nonce : Bytes
  pub cached_changes : ℕ
  pub active : List ℕ
  pub request : Access
  pub fingerprint : Bytes
  pub db : Db
  pub outcomes : List Bool
  pub sent : List Reply
  pub emitted : List Signal

-- What a handler may throw: DatabaseException, ClientErrorException and any other exception.
pub data Thrown : Type 0 where
  database_failed other_failure : Thrown
  failed : ErrorType → Bool → Thrown

abbrev pub Handler : Type 0 → Type 0
Handler = Exec Thrown Client

-- The limits of the configuration, and what comes from the Crypto++ library: the fingerprint of keys,
-- unless they are malformed, and the check of the signature at the end of a message.
pub record Server : Type 0 where
  pub quota_limit : ℕ
  pub down_limit : ℕ
  pub down_threshold : ℕ
  pub fingerprint_of : Crypto → Option Bytes
  pub verify : Crypto → Bytes → Bool

abbrev next_outcome : List Bool → Bool
next_outcome [] = true
next_outcome (b ∷ bs) = b

abbrev later_outcomes : List Bool → List Bool
later_outcomes [] = []
later_outcomes (b ∷ bs) = bs

-- A call of the database may fail before it does anything.
unfoldable pub reach_database : Handler (Unit {0})
reach_database = do
  reached ← gets (λ s. next_outcome s.outcomes)
  modify (λ s. record s { outcomes = later_outcomes s.outcomes })
  if reached then pure tt else throw database_failed

unfoldable pub query : {A : Type 0} → (Db → A) → Handler A
query f = do reach_database; gets (λ s. f s.db)

unfoldable pub update : (Db → Db) → Handler (Unit {0})
update f = do reach_database; modify (λ s. record s { db = f s.db })

-- A method's exception leaves the tables as they were.
abbrev store_result : {A : Type 0} → Tables.Result (A × Db) → Handler A
store_result (Tables.ok (a, db)) = do modify (λ s. record s { db = db }); pure a
store_result (Tables.err e) = throw database_failed

unfoldable pub call : {A : Type 0} → (Db → Tables.Result (A × Db)) → Handler A
call f = do reach_database; r ← gets (λ s. f s.db); store_result r

unfoldable pub send : Reply → Handler (Unit {0})
send m = modify (λ s. record s { sent = s.sent ++ m ∷ [] })

unfoldable pub emit : Signal → Handler (Unit {0})
emit m = modify (λ s. record s { emitted = s.emitted ++ m ∷ [] })

unfoldable pub set_state : State → Handler (Unit {0})
set_state x = modify (λ s. record s { state = x })

-- The connection is closed some seconds later.
unfoldable pub send_error : ErrorType → Bool → Handler (Unit {0})
send_error e recover = do set_state error; send (error_reply e recover)

abbrev pub state_beq : State → State → Bool
state_beq authenticating authenticating = true
state_beq awaiting_grant awaiting_grant = true
state_beq idle idle = true
state_beq error error = true
state_beq _ _ = false

-- UnexpectedException in all states but this one
unfoldable pub expect : State → Handler (Unit {0})
expect x = do
  now ← gets (λ s. s.state)
  if state_beq now x then pure tt else throw (failed unexpected_message true)
