-- ===== src/Examples/Exchange.antt =====
-- The server's tables with one user that has two devices, and methods on them.
use qt_data_sync.Common.{List, Bool, true, none, [], ◌∷◌, ◌≡◌, refl, arith}
use qt_data_sync.Common.Equality.{◌==◌, nat_eq}
use qt_data_sync.Table.{get, update_where}
use qt_data_sync.Server.Database.{
  Device, Crypto, DataChange, Db, Result, ok, err, user_of, delete_devices,
}
use qt_data_sync.Server.Database.Methods.{update_exchange_key, add_key_changes}
use qt_data_sync.Server.Database.Balance.{Balanced, used, within_quota}
use qt_data_sync.Server.Database.Quota.{
  Transfer, upload, device_upload, completion, transfer_all, transfer_all-Balanced,
}
use qt_data_sync.Server.Database.Removal.{delete_devices_lem, update_exchange_key-Counted, Counted}

abbrev crypto : Crypto
crypto = record { sign_scheme = []; sign_key = []; crypt_scheme = []; crypt_key = [] }

abbrev device : Device
device = record {
  user = 1;
  name = "pc";
  crypto = crypto;
  fingerprint = [];
  key_mac = none;
  last_login = 0;
}

abbrev change : DataChange
change = record { device = 10; data_id = 7 ∷ []; key_index = 0; salt = []; payload = 1 ∷ 2 ∷ [] }

-- Device 10 has stored a change of two bytes, which device 11 still has to read.
abbrev tables : Db
tables = record {
  users = (1, record { key_count = 0; quota = 2; quota_limit = 5 }) ∷ [];
  devices = (10, device) ∷ (11, device) ∷ [];
  changes = (1, change) ∷ [];
  device_changes = (11, 1) ∷ [];
  key_changes = [];
  next_user = 2;
  next_change = 2;
  notified = [];
}

tables-Balanced : Balanced tables
unfolding used user_of get within_quota
tables-Balanced = record { exact = λ u row e. ground arith; within = refl }

abbrev tables_of : Result (Bool × Db) → Db
tables_of (ok (b, db)) = db
tables_of (err e) = tables

-- A change of three bytes replaces the one of two, one more hits the quota, and the first is completed.
abbrev transfers : List Transfer
transfers =
    upload 10 (7 ∷ []) 0 [] (1 ∷ 2 ∷ 3 ∷ [])
    ∷ device_upload 10 11 (8 ∷ []) 0 [] (1 ∷ 2 ∷ 3 ∷ [])
    ∷ completion 11 1
    ∷ []

transfer_all-Balanced_example : Balanced (transfer_all transfers tables)
transfer_all-Balanced_example = transfer_all-Balanced transfers tables tables-Balanced

delete_devices_lem_example :
    ((delete_devices (λ id row. id == 10) tables).users ≡ tables.users)
    × (get 1 (delete_devices (λ id row. id == 10) tables).changes ≡ none)
unfolding get
delete_devices_lem_example =
    delete_devices_lem (λ id row. id == 10) tables 1 change device (refl, (refl, tt)) (refl, tt)
      refl refl

abbrev exchanged : Result (Bool × Db)
exchanged = update_exchange_key 10 1 [] [] ((11, [], []) ∷ []) tables

update_exchange_key-Counted_example : Counted 10 1 tables true (tables_of exchanged)
unfolding update_exchange_key add_key_changes user_of get update_where
update_exchange_key-Counted_example =
    update_exchange_key-Counted 10 1 [] [] ((11, [], []) ∷ []) tables (tables_of exchanged) true
      refl
