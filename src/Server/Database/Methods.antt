-- ===== src/Server/Database/Methods.antt =====
-- The methods of DatabaseController. Each returns the tables that it leaves and its result; of a
-- method that throws the transaction is rolled back.
use qt_data_sync.Common.{
  ℕ, suc, ◌+◌, ◌-◌, Bool, true, false, not, String, Option, none, some, List, [], ◌∷◌, ◌&&◌, ◌||◌,
  map, if◌then◌else◌, length, ltb, leb, take, drop, ◌^◌,
}
use qt_data_sync.Common.Equality.{◌==◌, nat_eq, bytes_eq}
use qt_data_sync.Table.{Table, get, update_where, delete_where, select_where}
use qt_data_sync.Json.{Bytes}
use qt_data_sync.Server.Database.{
  User, Crypto, Device, DataChange, KeyChange, Db, check_violation, other_error, Result, ok, err,
  ◌>>=◌, user_of, same_user, find_change, insert_change, delete_changes, delete_devices, is_pending,
  partners, insert_device_changes, change_at, is_none,
}

-- The new user has the default quota limit of the table.
unfoldable pub add_new_device : ℕ → ℕ → ℕ → String → Crypto → Bytes → Bytes → Db → Result (ℕ × Db)
add_new_device limit uuid today name crypto fingerprint mac db =
    if is_none (get uuid db.devices)
    then ok (
      uuid,
      record db {
        users = (db.next_user, record { key_count = 0; quota = 0; quota_limit = limit }) ∷ db.users;
        devices =
            (
              uuid,
              record {
                user = db.next_user;
                name = name;
                crypto = crypto;
                fingerprint = fingerprint;
                key_mac = some mac;
                last_login = today;
              },
            )
            ∷ db.devices;
        next_user = suc db.next_user;
      },
    )
    else err other_error

-- The column userid is NOT NULL, so the partner must exist.
unfoldable pub add_new_device_to_user :
    ℕ → ℕ → ℕ → String → Crypto → Bytes → Db → Result (Unit {0} × Db)
add_new_device_to_user today uuid partner name crypto fingerprint db =
    elim (user_of partner db.devices) [
      | none ↦ err other_error
      | some u ↦
          if is_none (get uuid db.devices)
          then ok (
            tt,
            record db {
              devices =
                  (
                    uuid,
                    record {
                      user = u;
                      name = name;
                      crypto = crypto;
                      fingerprint = fingerprint;
                      key_mac = none;
                      last_login = today;
                    },
                  )
                  ∷ db.devices;
            },
          )
          else err other_error
    ]

unfoldable pub load_crypto : ℕ → Db → Option Crypto
load_crypto d db = elim (get d db.devices) [ none ↦ none | some row ↦ some row.crypto ]

unfoldable pub update_login : ℕ → ℕ → String → Db → Db
update_login today d name db = record db {
  devices =
      update_where (λ id _. id == d) (λ row. record row { name = name; last_login = today })
        db.devices;
}

-- SELECT keycount FROM users WHERE id = deviceUserId(?)
unfoldable pub key_count_of : ℕ → Db → Option ℕ
key_count_of d db = elim (user_of d db.devices) [
  | none ↦ none
  | some u ↦ elim (get u db.users) [ none ↦ none | some row ↦ some row.key_count ]
]

abbrev pub is_index : Option ℕ → ℕ → Bool
is_index none i = false
is_index (some k) i = k == i

unfoldable pub update_cmac : ℕ → ℕ → Bytes → Db → Bool × Db
update_cmac d index mac db =
    if is_index (key_count_of d db) index
    then (
      true,
      record db {
        devices =
            update_where (λ id _. id == d) (λ row. record row { key_mac = some mac }) db.devices;
        key_changes = delete_where (λ id k. id == d && k.key_index == index) db.key_changes;
      },
    )
    else (false, db)

unfoldable pub list_devices : ℕ → Db → List (ℕ × String × Bytes)
list_devices d db =
    map (λ row. (row.0, row.1.name, row.1.fingerprint))
      (select_where (λ id row. not (id == d) && same_user row.user (user_of d db.devices))
        db.devices)

abbrev pub has_device : ℕ → Table ℕ Device → Bool
has_device u [] = false
has_device u ((id, row) ∷ rest) = row.user == u || has_device u rest

-- deviceUserId returns a row with NULL for an unknown device; no device or user has that id.
unfoldable pub remove_device : ℕ → ℕ → Db → Db
remove_device d target db = elim (user_of d db.devices) [
  | none ↦ db
  | some u ↦
      let db' = delete_devices (λ id row. id == target && row.user == u) db in
      record db' {
        users = delete_where (λ id _. id == u && not (has_device u db'.devices)) db'.users;
      }
]

abbrev pub drop_unwanted : ℕ → List ℕ → Db → Db
drop_unwanted id [] db = delete_changes (λ j _. j == id) db
drop_unwanted id (d ∷ ds) db = db

abbrev pub quota_hit : Db → Result Db → Result (Bool × Db)
quota_hit db (ok db') = ok (true, db')
quota_hit db (err check_violation) = ok (false, db)
quota_hit db (err other_error) = err other_error

-- A violated quota is the result `false`.
unfoldable pub add_change : ℕ → Bytes → ℕ → Bytes → Bytes → Db → Result (Bool × Db)
add_change d data_id index salt payload db = quota_hit db (do
  let cleared = delete_changes (change_at d data_id) db
  (id, added) ←
      insert_change
        (record {
          device = d;
          data_id = data_id;
          key_index = index;
          salt = salt;
          payload = payload;
        })
        cleared
  let others = partners d added.devices
  ok (drop_unwanted id others (insert_device_changes id others added)))

abbrev pub has_pair : ℕ → ℕ → List (ℕ × ℕ) → Bool
has_pair d id [] = false
has_pair d id ((e, j) ∷ rest) = (e == d && j == id) || has_pair d id rest

-- ON CONFLICT DO NOTHING; the target must exist.
abbrev pub add_for : ℕ → ℕ → Db → Result Db
add_for target id db =
    if has_pair target id db.device_changes
    then ok db
    else if is_none (get target db.devices)
    then err other_error
    else ok (insert_device_changes id (target ∷ []) db)

abbrev pub find_or_insert : Option ℕ → DataChange → Db → Result (ℕ × Db)
find_or_insert none c db = insert_change c db
find_or_insert (some id) c db = ok (id, db)

unfoldable pub add_device_change : ℕ → ℕ → Bytes → ℕ → Bytes → Bytes → Db → Result (Bool × Db)
add_device_change d target data_id index salt payload db = quota_hit db (do
  (id, added) ←
      find_or_insert (find_change d data_id db)
        (record {
          device = d;
          data_id = data_id;
          key_index = index;
          salt = salt;
          payload = payload;
        })
        db
  add_for target id added)

abbrev pub of_device : ℕ → List (ℕ × ℕ) → List ℕ
of_device d [] = []
of_device d ((e, id) ∷ rest) = let ids = of_device d rest in if e == d then id ∷ ids else ids

unfoldable pub change_count : ℕ → Db → ℕ
change_count d db = length (of_device d db.device_changes)

-- ORDER BY datachanges.id
abbrev pub insert_sorted : ℕ → List ℕ → List ℕ
insert_sorted x [] = x ∷ []
insert_sorted x (y ∷ ys) = if leb x y then x ∷ y ∷ ys else y ∷ insert_sorted x ys

abbrev pub sorted : List ℕ → List ℕ
sorted [] = []
sorted (x ∷ xs) = insert_sorted x (sorted xs)

-- The rows of the join with datachanges.
abbrev pub rows_of : Table ℕ DataChange → List ℕ → Table ℕ DataChange
rows_of changes [] = []
rows_of changes (id ∷ ids) =
    let rest = rows_of changes ids in
    elim (get id changes) [ none ↦ rest | some c ↦ (id, c) ∷ rest ]

-- LIMIT count OFFSET skip
unfoldable pub load_next_changes : ℕ → ℕ → ℕ → Db → Table ℕ DataChange
load_next_changes d count skip db =
    take count (drop skip (rows_of db.changes (sorted (of_device d db.device_changes))))

abbrev pub without_pair : ℕ → ℕ → List (ℕ × ℕ) → List (ℕ × ℕ)
without_pair d id [] = []
without_pair d id ((e, j) ∷ rest) =
    let kept = without_pair d id rest in if e == d && j == id then kept else (e, j) ∷ kept

unfoldable pub complete_change : ℕ → ℕ → Db → Db
complete_change d id db =
    let left = without_pair d id db.device_changes in
    delete_changes (λ j _. j == id && not (is_pending id left))
      (record db { device_changes = left })

-- The devices of the user that still have to read a key change.
abbrev pub any_key_change : ℕ → Table ℕ Device → Table ℕ KeyChange → Bool
any_key_change u devices [] = false
any_key_change u devices ((d, k) ∷ rest) =
    same_user u (user_of d devices) || any_key_change u devices rest

-- What tryKeyChange reports: `offset` 1 with the devices, 0, -1 or another value.
pub data KeyOffer : Type 0 where
  accepted : List (ℕ × Bytes × Bytes × Option Bytes) → KeyOffer
  duplicate pending bad_index : KeyOffer

abbrev pub device_keys : ℕ → ℕ → Table ℕ Device → List (ℕ × Bytes × Bytes × Option Bytes)
device_keys d u devices =
    map (λ row. (row.0, row.1.crypto.crypt_scheme, row.1.crypto.crypt_key, row.1.key_mac))
      (select_where (λ id row. not (id == d) && row.user == u) devices)

-- int(proposed) - int(current)
unfoldable pub try_key_change : ℕ → ℕ → Db → Result KeyOffer
try_key_change d proposed db = elim (user_of d db.devices) [
  | none ↦ err other_error
  | some u ↦ elim (get u db.users) [
    | none ↦ err other_error
    | some row ↦
        if proposed == row.key_count + 1
        then (if any_key_change u db.devices db.key_changes
            then ok pending
            else ok (accepted (device_keys d u db.devices)))
        else if proposed == row.key_count
        then ok duplicate
        else if proposed + 1 == row.key_count
        then ok pending
        else ok bad_index
  ]
]

-- The loop over the device keys; a foreign device and a device that has a key change throw.
unfoldable pub add_key_changes : ℕ → ℕ → Bytes → List (ℕ × Bytes × Bytes) → Db → Result Db
add_key_changes u index scheme [] db = ok db
add_key_changes u index scheme ((d, key, mac) ∷ rest) db =
    if same_user u (user_of d db.devices) && is_none (get d db.key_changes)
    then add_key_changes u index scheme rest (record db {
      key_changes =
          (d, record { key_index = index; scheme = scheme; key = key; verify_mac = mac })
          ∷ db.key_changes;
    })
    else err other_error

-- The key count is an INT, so keycount + 1 fails where it would pass 2 ^ 31 - 1.
unfoldable pub update_exchange_key :
    ℕ → ℕ → Bytes → Bytes → List (ℕ × Bytes × Bytes) → Db → Result (Bool × Db)
update_exchange_key d index scheme mac keys db = elim (user_of d db.devices) [
  | none ↦ ok (false, db)
  | some u ↦ elim (get u db.users) [
    | none ↦ ok (false, db)
    | some row ↦
        if leb (2 ^ 31) (row.key_count + 1)
        then err other_error
        else if row.key_count + 1 == index
        then (do
          added ← add_key_changes u index scheme keys (record db {
            users =
                update_where (λ id _. id == u) (λ r. record r { key_count = r.key_count + 1 })
                  db.users;
          })
          ok (
            true,
            record added {
              devices =
                  update_where (λ id _. id == d) (λ r. record r { key_mac = some mac })
                    added.devices;
            },
          ))
        else ok (false, db)
  ]
]

unfoldable pub load_key_changes : ℕ → Db → Option KeyChange
load_key_changes d db = get d db.key_changes

-- The devices that were offline for too long, and the users that have none left.
unfoldable pub cleanup_devices : ℕ → ℕ → Db → Db
cleanup_devices today days db =
    let db' = delete_devices (λ id row. ltb days (today - row.last_login)) db in
    record db' { users = delete_where (λ id _. not (has_device id db'.devices)) db'.users }

abbrev pub over_quota : ℕ → ℕ → User → Bool
over_quota limit id u = not (u.quota_limit == limit) && leb limit u.quota

abbrev pub drop_over_quota : Bool → ℕ → Db → Db
drop_over_quota false limit db = db
drop_over_quota true limit db =
    let db' =
      delete_devices
        (λ id row. not (is_none (get row.user (select_where (over_quota limit) db.users)))) db in
    record db' { users = delete_where (over_quota limit) db'.users }

unfoldable pub update_quota_limit : ℕ → Bool → Db → Db
update_quota_limit limit force db =
    let db' = drop_over_quota force limit db in
    record db' {
      users =
          update_where (λ id u. not (u.quota_limit == limit) && ltb u.quota limit)
            (λ u. record u { quota_limit = limit }) db'.users;
    }
