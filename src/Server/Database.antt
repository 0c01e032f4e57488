-- ===== src/Server/Database.antt =====
-- tools/appserver/databasecontroller.cpp: the tables, their triggers and the queries on them.
-- The statements of one method run in a transaction: a method that throws changes nothing. A
-- failure of a commit or of a connection changes nothing either, and is left out.
pub mod Balance
pub mod Quota
pub mod Removal
pub mod Methods
use qt_data_sync.Common.{
  ℕ, suc, ◌+◌, ◌-◌, Bool, true, false, not, String, Option, none, some, List, [], ◌∷◌, ◌++◌, ◌&&◌,
  ◌||◌, map, if◌then◌else◌, length, ltb,
}
use qt_data_sync.Common.Equality.{◌==◌, nat_eq, bytes_eq}
use qt_data_sync.Table.{Table, get, update_where, delete_where, select_where}
use qt_data_sync.Json.{Bytes}

-- A row of users without its id.
pub record User : Type 0 where
  pub key_count : ℕ
  pub quota : ℕ
  pub quota_limit : ℕ

-- The keys and schemes that a device registers.
pub record Crypto : Type 0 where
  pub sign_scheme : Bytes
  pub sign_key : Bytes
  pub crypt_scheme : Bytes
  pub crypt_key : Bytes

-- A row of devices without its id; the key's MAC is NULL for a device that was granted access.
pub record Device : Type 0 where
  pub user : ℕ
  pub name : String
  pub crypto : Crypto
  pub fingerprint : Bytes
  pub key_mac : Option Bytes
  pub last_login : ℕ

-- A row of datachanges without its id.
pub record DataChange : Type 0 where
  pub device : ℕ
  pub data_id : Bytes
  pub key_index : ℕ
  pub salt : Bytes
  pub payload : Bytes

-- A row of keychanges without the device.
pub record KeyChange : Type 0 where
  pub key_index : ℕ
  pub scheme : Bytes
  pub key : Bytes
  pub verify_mac : Bytes

-- The tables; `device_changes` pairs a device with the id of a data change. `notified` is what the
-- trigger on devicechanges has sent to the listeners, newest first.
pub record Db : Type 0 where
  pub users : Table ℕ User
  pub devices : Table ℕ Device
  pub changes : Table ℕ DataChange
  pub device_changes : List (ℕ × ℕ)
  pub key_changes : Table ℕ KeyChange
  pub next_user : ℕ
  pub next_change : ℕ
  pub notified : List ℕ

-- DatabaseException: error 23514, the quota's CHECK, and all others.
pub data DbError : Type 0 where
  check_violation other_error : DbError

pub data Result {ℓ} (A : Type ℓ) : Type ℓ where
  ok : A → Result A
  err : DbError → Result A

infixl 5 ◌>>=◌
abbrev pub ◌>>=◌ {ℓ κ} : {A : Type ℓ} {B : Type κ} → Result A → (A → Result B) → Result B
ok a >>= f = f a
err e >>= f = err e

-- The function deviceUserId.
unfoldable pub user_of : ℕ → Table ℕ Device → Option ℕ
user_of d devices = elim (get d devices) [ none ↦ none | some row ↦ some row.user ]

abbrev pub same_user : ℕ → Option ℕ → Bool
same_user u none = false
same_user u (some v) = v == u

-- WHERE id = deviceUserId(?)
abbrev pub is_user : Option ℕ → ℕ → User → Bool
is_user o u row = same_user u o

-- The trigger upquota; its CHECK is made by `raise_quota`.
abbrev pub add_quota : ℕ → User → User
add_quota n u = record u { quota = u.quota + n }

-- The trigger downquota: GREATEST(quota - length, 0).
abbrev pub sub_quota : ℕ → User → User
sub_quota n u = record u { quota = u.quota - n }

-- CHECK(quota < quotalimit) on the row of a user that was updated.
unfoldable pub passes_check : ℕ → Table ℕ User → Bool
passes_check user [] = true
passes_check user ((id, u) ∷ rest) =
    (if id == user then ltb u.quota u.quota_limit else true) && passes_check user rest

abbrev pub change_at : ℕ → Bytes → ℕ → DataChange → Bool
change_at device data_id id c = c.device == device && c.data_id == data_id

-- The id of the first row, for a key that is unique.
abbrev pub first_id {ℓ} : {A : Type ℓ} → Table ℕ A → Option ℕ
first_id [] = none
first_id ((id, row) ∷ rest) = some id

abbrev pub find_change : ℕ → Bytes → Db → Option ℕ
find_change device data_id db = first_id (select_where (change_at device data_id) db.changes)

-- INSERT INTO datachanges, with the trigger and the CHECK; the device must exist.
unfoldable pub insert_change : DataChange → Db → Result (ℕ × Db)
insert_change c db = elim (get c.device db.devices) [
  | none ↦ err other_error
  | some row ↦
      let users = update_where (λ u _. u == row.user) (add_quota (length c.payload)) db.users in
      if passes_check row.user users
      then ok (
        db.next_change,
        record db {
          users = users;
          changes = (db.next_change, c) ∷ db.changes;
          next_change = suc db.next_change;
        },
      )
      else err check_violation
]

-- The trigger downquota, for each deleted row in turn.
unfoldable pub refund : Table ℕ Device → Table ℕ DataChange → Table ℕ User → Table ℕ User
refund devices [] users = users
refund devices ((id, c) ∷ gone) users =
    refund devices gone
      (update_where (is_user (user_of c.device devices)) (sub_quota (length c.payload)) users)

abbrev pub refers : Table ℕ DataChange → List (ℕ × ℕ) → List (ℕ × ℕ)
refers changes [] = []
refers changes ((device, id) ∷ rest) =
    let kept = refers changes rest in
    elim (get id changes) [ none ↦ kept | some c ↦ (device, id) ∷ kept ]

-- DELETE FROM datachanges WHERE p, with the trigger and the cascade.
unfoldable pub delete_changes : (ℕ → DataChange → Bool) → Db → Db
delete_changes p db =
    let kept = delete_where p db.changes in
    record db {
      users = refund db.devices (select_where p db.changes) db.users;
      changes = kept;
      device_changes = refers kept db.device_changes;
    }

abbrev pub with_device : Table ℕ Device → List (ℕ × ℕ) → List (ℕ × ℕ)
with_device devices [] = []
with_device devices ((device, id) ∷ rest) =
    let kept = with_device devices rest in
    elim (get device devices) [ none ↦ kept | some row ↦ (device, id) ∷ kept ]

abbrev pub is_none {ℓ} : {A : Type ℓ} → Option A → Bool
is_none none = true
is_none (some a) = false

-- DELETE FROM devices WHERE p. The cascade deletes the changes of the devices after the devices, so
-- that deviceUserId is NULL in the trigger downquota.
unfoldable pub delete_devices : (ℕ → Device → Bool) → Db → Db
delete_devices p db =
    let left = delete_where p db.devices in
    let db' = delete_changes (λ id c. is_none (get c.device left)) (record db { devices = left }) in
    record db' {
      device_changes = with_device left db'.device_changes;
      key_changes = delete_where (λ d _. is_none (get d left)) db'.key_changes;
    }

-- Does a row of devicechanges refer to the change?
unfoldable pub is_pending : ℕ → List (ℕ × ℕ) → Bool
is_pending id [] = false
is_pending id ((device, j) ∷ rest) = j == id || is_pending id rest

-- The other devices of a device's user.
unfoldable pub partners : ℕ → Table ℕ Device → List ℕ
partners d devices =
    map (λ row. row.0)
      (select_where (λ id row. not (id == d) && same_user row.user (user_of d devices)) devices)

-- INSERT INTO devicechanges, with the trigger that notifies.
abbrev pub insert_device_changes : ℕ → List ℕ → Db → Db
insert_device_changes id devices db = record db {
  device_changes = map (λ d. (d, id)) devices ++ db.device_changes;
  notified = devices ++ db.notified;
}
