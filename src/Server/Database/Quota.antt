-- ===== src/Server/Database/Quota.antt =====
-- tools/appserver/databasecontroller.cpp: what the methods that store and complete changes leave of the
-- balance of quotas and payloads.
use qt_data_sync.Common.{
  ℕ, Bool, Option, none, some, List, [], ◌∷◌, ◌≡◌, refl, sym, arith, Bool-cases, inl, inr,
}
use qt_data_sync.Common.Equality.{nat_eq}
use qt_data_sync.Json.{Bytes}
use qt_data_sync.Table.{get}
use qt_data_sync.Server.Database.{
  DataChange, Db, check_violation, other_error, Result, ok, err, ◌>>=◌, insert_change,
  delete_changes, partners, insert_device_changes, change_at, find_change, is_none,
}
use qt_data_sync.Server.Database.Methods.{
  add_change, add_device_change, complete_change, quota_hit, drop_unwanted, add_for, find_or_insert,
  has_pair,
}
use qt_data_sync.Server.Database.Balance.{
  Balanced, delete_changes-Balanced, ok_db, insert_change-Balanced,
}

module _ {A B : Type 0} where
  bound :
      (m : Result A) (f : A → Result B) (b : B)
      → (m >>= f) ≡ ok b
      → (a : A) × (m ≡ ok a) × (f a ≡ ok b)
  bound (ok a) f b e = (a, refl, e)
  bound (err x) f b e = absurd (ground arith)

quota_hit-Balanced :
    (db db' : Db) (r : Result Db) (stored : Bool)
    → Balanced db
    → ((x : Db) → r ≡ ok x → Balanced x)
    → quota_hit db r ≡ ok (stored, db')
    → Balanced db'
quota_hit-Balanced db db' (ok x) stored h g e = rw (sym (ok_db _ _ _ _ e)) (g x refl)
quota_hit-Balanced db db' (err check_violation) stored h g e = rw (sym (ok_db _ _ _ _ e)) h
quota_hit-Balanced db db' (err other_error) stored h g e = absurd (ground arith)

-- The tables of the quota are as they were.
same_quota :
    (db db' : Db)
    → db'.users ≡ db.users
    → db'.devices ≡ db.devices
    → db'.changes ≡ db.changes
    → Balanced db
    → Balanced db'
same_quota db db' u d c h = record { exact = rw (u, d, c) h.exact; within = rw u h.within }

ok_self : (a b : Db) → ◌≡◌ {A = Result Db} (ok a) (ok b) → a ≡ b
ok_self a b e = cc

add_for-Balanced :
    (target id : ℕ) (db db' : Db) → Balanced db → add_for target id db ≡ ok db' → Balanced db'
add_for-Balanced target id db db' h e = elim (Bool-cases (has_pair target id db.device_changes)) [
  | inl t ↦ rw (sym (ok_self _ _ (rw t at e))) h
  | inr f ↦ elim (Bool-cases (is_none (get target db.devices))) [
    | inl n ↦ absurd (ground (arith, f, n, e))
    | inr s ↦ rw (sym (ok_self _ _ (rw (f, s) at e))) (same_quota db _ refl refl refl h)
  ]
]

drop_unwanted-Balanced :
    (id : ℕ) (ds : List ℕ) (db : Db) → Balanced db → Balanced (drop_unwanted id ds db)
drop_unwanted-Balanced id [] db h = delete_changes-Balanced _ db h
drop_unwanted-Balanced id (d ∷ ds) db h = h

find_or_insert-Balanced :
    (o : Option ℕ) (c : DataChange) (db db' : Db) (id : ℕ)
    → Balanced db
    → find_or_insert o c db ≡ ok (id, db')
    → Balanced db'
find_or_insert-Balanced none c db db' id h e = insert_change-Balanced c db db' id h e
find_or_insert-Balanced (some i) c db db' id h e = rw (sym (ok_db _ _ _ _ e)) h

abbrev notify_partners : ℕ → ℕ × Db → Db
notify_partners d (id, added) =
    drop_unwanted id (partners d added.devices)
      (insert_device_changes id (partners d added.devices) added)

notify_partners-Balanced :
    (d id : ℕ) (added : Db) → Balanced added → Balanced (notify_partners d (id, added))
notify_partners-Balanced d id added h =
    drop_unwanted-Balanced id _ _ (same_quota added _ refl refl refl h)

-- Storing a change for all other devices, whether it is stored or refused for the quota, leaves
-- quotas that are exact and below their limits, if they were so.
add_change-Balanced :
    (d : ℕ) (data_id : Bytes) (index : ℕ) (salt payload : Bytes) (db db' : Db) (stored : Bool)
    → Balanced db
    → add_change d data_id index salt payload db ≡ ok (stored, db')
    → Balanced db'
unfolding add_change
add_change-Balanced d data_id index salt payload db db' stored h e =
    quota_hit-Balanced db db' _ stored h
      (λ x g.
        let ((id, added), i, r) =
          bound {A = ℕ × Db} (insert_change _ (delete_changes (change_at d data_id) db))
            (λ p. ok (notify_partners d p)) x g in
        rw (sym (ok_self _ x r)) (
          notify_partners-Balanced d id added
            (insert_change-Balanced _ _ added id (delete_changes-Balanced _ db h) i)))
      e

-- Storing a change for one device, whether it is stored, there already or refused for the quota,
-- leaves quotas that are exact and below their limits, if they were so.
add_device_change-Balanced :
    (d target : ℕ) (data_id : Bytes) (index : ℕ) (salt payload : Bytes) (db db' : Db)
    (stored : Bool)
    → Balanced db
    → add_device_change d target data_id index salt payload db ≡ ok (stored, db')
    → Balanced db'
unfolding add_device_change
add_device_change-Balanced d target data_id index salt payload db db' stored h e =
    quota_hit-Balanced db db' _ stored h
      (λ x g.
        let ((id, added), i, r) =
          bound {A = ℕ × Db}
            (find_or_insert (find_change d data_id db)
              (record {
                device = d;
                data_id = data_id;
                key_index = index;
                salt = salt;
                payload = payload;
              })
              db)
            (λ p. add_for target p.0 p.1) x g in
        add_for-Balanced target id added x
          (find_or_insert-Balanced (find_change d data_id db) _ db added id h i) r)
      e

-- Completing a change, which deletes it when no device waits for it, leaves quotas that are exact
-- and below their limits, if they were so.
complete_change-Balanced : (d id : ℕ) (db : Db) → Balanced db → Balanced (complete_change d id db)
unfolding complete_change
complete_change-Balanced d id db h = delete_changes-Balanced _ _ (same_quota db _ refl refl refl h)

-- The calls that change what is stored: addChange, addDeviceChange and completeChange.
pub data Transfer : Type 0 where
  upload : ℕ → Bytes → ℕ → Bytes → Bytes → Transfer
  device_upload : ℕ → ℕ → Bytes → ℕ → Bytes → Bytes → Transfer
  completion : ℕ → ℕ → Transfer

-- A call that throws leaves the tables.
abbrev pub kept_tables : Result (Bool × Db) → Db → Db
kept_tables (ok (stored, db')) db = db'
kept_tables (err e) db = db

abbrev pub transfer : Transfer → Db → Db
transfer (upload d data_id index salt payload) db =
    kept_tables (add_change d data_id index salt payload db) db
transfer (device_upload d target data_id index salt payload) db =
    kept_tables (add_device_change d target data_id index salt payload db) db
transfer (completion d id) db = complete_change d id db

unfoldable pub transfer_all : List Transfer → Db → Db
transfer_all [] db = db
transfer_all (t ∷ ts) db = transfer_all ts (transfer t db)

kept_tables-Balanced :
    (r : Result (Bool × Db)) (db : Db)
    → ((stored : Bool) (db' : Db) → r ≡ ok (stored, db') → Balanced db')
    → Balanced db
    → Balanced (kept_tables r db)
kept_tables-Balanced (ok (stored, db')) db f h = f stored db' refl
kept_tables-Balanced (err e) db f h = h

transfer-Balanced : (t : Transfer) (db : Db) → Balanced db → Balanced (transfer t db)
transfer-Balanced (upload d data_id index salt payload) db h =
    kept_tables-Balanced _ db
      (λ b db' e. add_change-Balanced d data_id index salt payload db db' b h e) h
transfer-Balanced (device_upload d target data_id index salt payload) db h =
    kept_tables-Balanced _ db
      (λ b db' e. add_device_change-Balanced d target data_id index salt payload db db' b h e) h
transfer-Balanced (completion d id) db h = complete_change-Balanced d id db h

-- Whatever changes are stored for all devices or for one and completed, in any order, whether they are
-- stored, refused for the quota or throw, the quotas stay exact and below their limits, if they were so.
pub transfer_all-Balanced :
    (ts : List Transfer) (db : Db) → Balanced db → Balanced (transfer_all ts db)
unfolding transfer_all
transfer_all-Balanced [] db h = h
transfer_all-Balanced (t ∷ ts) db h =
    transfer_all-Balanced ts (transfer t db) (transfer-Balanced t db h)
