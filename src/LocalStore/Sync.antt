-- ===== src/LocalStore/Sync.antt =====
-- The change and synchronization methods of src/datasync/localstore.cpp. Inside a SyncScope the
-- methods run in the transaction that `start_sync` opened; each returns the scope that it leaves.
use qt_data_sync.Common.{
  ℕ, ◌+◌, Bool, true, false, not, String, Option, none, some, List, [], ◌∷◌, ◌++◌, ◌&&◌, map,
  if◌then◌else◌, length,
}
use qt_data_sync.Common.Equality.{◌==◌, nat_eq}
use qt_data_sync.Table.{Table, get, delete_where}
use qt_data_sync.Json.{Fields}
use qt_data_sync.Environment.{ObjectKey, key_eq, Env}
use qt_data_sync.Exec.{pure, throw, modify, ◌>>=◌, ◌>>◌, try_catch}
use qt_data_sync.Emitter.{Emitter, trigger_upload, drop_cached}
use qt_data_sync.LocalStore.State.{
  Row, Db, Method, AfterCommit, nothing, notify_change, notify_upload, attempt, exec, query,
  begin_transaction, commit, rollback, on_emitter, after_commit, remove_file, is_some, delete_rows,
  update_rows, file_path,
}
use qt_data_sync.LocalStore.Access.{
  stored_file, deleted_row, insert_row, update_row, store_changed_impl,
}

-- LocalStore::ChangeType
pub data ChangeType : Type 0 where
  exists exists_deleted no_exists : ChangeType

-- What loadChangeInfo returns.
pub record ChangeInfo : Type 0 where
  pub state : ChangeType
  pub version : ℕ
  pub file_name : Option String
  pub checksum : Option ℕ

-- LocalStore::SyncScope::Private; a commit of the scope may also drop a cached entry first.
pub record Scope : Type 0 where
  pub key : ObjectKey
  pub after : AfterCommit
  pub drop : Bool

-- An entry that loadChanges hands to its visitor; the device is `none` for the null id.
pub record Change : Type 0 where
  pub key : ObjectKey
  pub version : ℕ
  pub file : Option String
  pub device : Option ℕ

abbrev pub is_changed : ObjectKey → Row → Bool
is_changed k r = r.changed

-- Changed = 1 AND File IS NULL
abbrev pub is_changed_delete : Row → Bool
is_changed_delete r = r.changed && not (is_some r.file)

abbrev device_change : Db → ObjectKey × ℕ → Option Row → List Change → List Change
device_change db (key, device) none rest = rest
device_change db (key, device) (some r) rest =
    if is_changed_delete r
    then rest
    else record { key = key; version = r.version; file = r.file; device = some device } ∷ rest

-- The join of DeviceUploads with DataIndex.
unfoldable pub device_changes : Db → Table ObjectKey ℕ → List Change
device_changes db [] = []
device_changes db ((key, device) ∷ uploads) =
    device_change db (key, device) (get key db.index) (device_changes db uploads)

unfoldable pub data_changes : Table ObjectKey Row → List Change
data_changes [] = []
data_changes ((key, r) ∷ rows) =
    let rest = data_changes rows in
    if r.changed
    then record { key = key; version = r.version; file = r.file; device = none } ∷ rest
    else rest

abbrev pub info_of : Option Row → ChangeInfo
info_of none = record { state = no_exists; version = 0; file_name = none; checksum = none }
info_of (some r) = elim r.file [
  | none ↦ record { state = exists_deleted; version = r.version; file_name = none; checksum = none }
  | some name ↦ record {
    state = exists;
    version = r.version;
    file_name = some name;
    checksum = r.checksum;
  }
]

abbrev pub at_version : ObjectKey → ℕ → ObjectKey → Row → Bool
at_version key version k r = k == key && r.version == version

abbrev pub is_existing : ChangeType → Bool
is_existing exists = true
is_existing exists_deleted = true
is_existing no_exists = false

abbrev deleted_scope : Scope → ChangeType → Bool → Scope
deleted_scope scope exists changed = record scope {
  after = notify_change scope.key true changed;
  drop = true;
}
deleted_scope scope exists_deleted changed =
    if changed then record scope { after = notify_upload } else scope
deleted_scope scope no_exists changed =
    if changed then record scope { after = notify_upload } else scope

module _ {C : Type 0} where
  unfoldable pub change_count : Method C ℕ
  change_count =
      query (λ db. length (data_changes db.index) + length (device_changes db db.uploads))

  unfoldable pub remove_device_change : ObjectKey → ℕ → Method C (Unit {0})
  remove_device_change key device =
      exec (λ db. record db { uploads = delete_where (λ k d. k == key && d == device) db.uploads })

  -- The destructor of the scope: what was not committed is rolled back.
  unfoldable pub in_scope : ObjectKey → (Scope → Method C (Unit {0})) → Method C (Unit {0})
  in_scope key body = do
    begin_transaction
    try_catch (body (record { key = key; after = nothing; drop = false }))
        (λ e. do rollback; throw e)

  unfoldable pub load_change_info : Scope → Method C ChangeInfo
  load_change_info scope = query (λ db. info_of (get scope.key db.index))

  unfoldable pub update_version : Scope → ℕ → ℕ → Bool → Method C Scope
  update_version scope old new changed = do
    exec (
        update_rows (at_version scope.key old) (λ r. record r { version = new; changed = changed }))
    pure (if changed then record scope { after = notify_upload } else scope)

  -- QFile::remove of the row's file; `none` if there was no file.
  unfoldable pub delete_file_of : Env C → ObjectKey → Option String → Method C (Unit {0})
  delete_file_of env key none = pure tt
  delete_file_of env key (some name) = remove_file (file_path env key name)

  -- The file of the row, looked up again; the path makes the directory.
  unfoldable pub stored_path : ObjectKey → ChangeType → Method C (Option String)
  stored_path key exists = do
    name ← query (λ db. stored_file (get key db.index))
    elim name [ none ↦ pure none | some n ↦ (do attempt; pure (some n)) ]
  stored_path key exists_deleted = pure none
  stored_path key no_exists = pure none

  abbrev pub write_deleted : ObjectKey → Bool → Row → Method C (Unit {0})
  write_deleted key true r = update_row key (λ _. r)
  write_deleted key false r = insert_row key r

module _ {C : Type 0} (env : Env C) where
  -- markUnchangedImpl, which both markUnchanged methods call
  unfoldable pub mark_unchanged : ObjectKey → ℕ → Bool → Method C (Unit {0})
  mark_unchanged key version is_delete =
      if is_delete && not env.persist_deleted
      then exec (delete_rows (λ k r. at_version key version k r && not (is_some r.file)))
      else exec (update_rows (at_version key version) (λ r. record r { changed = false }))

  unfoldable pub store_changed :
      Scope → ℕ → Option String → Fields → Bool → ChangeType → Method C Scope
  store_changed scope version file_name d changed state = do
    after ← store_changed_impl env scope.key version file_name d changed (is_existing state)
    pure (record scope { after = after })

  unfoldable pub store_deleted : Scope → ℕ → Bool → ChangeType → Method C Scope
  unfolding stored_path delete_file_of
  store_deleted scope version changed state = do
    name ← stored_path scope.key state
    write_deleted scope.key (is_existing state) (deleted_row version changed)
    delete_file_of env scope.key name
    pure (deleted_scope scope state changed)

  unfoldable pub commit_sync : Scope → Method C (Unit {0})
  commit_sync scope = do
    commit
    on_emitter
        (λ e. after_commit scope.after (if scope.drop then drop_cached env scope.key e else e))

  abbrev pub all_keys : Table ObjectKey Row → ℕ → Table ObjectKey ℕ
  all_keys rows device = map (λ entry. (entry.0, device)) rows

  abbrev upload_if_any : List (ObjectKey × ℕ) → Emitter C → Emitter C
  upload_if_any [] e = e
  upload_if_any (row ∷ rows) e = trigger_upload e

  -- INSERT OR REPLACE: a row that is there already is replaced. Failures are logged.
  unfoldable pub prepare_account_added : ℕ → Method C (Unit {0})
  prepare_account_added device =
      try_catch
        (do
          rows ← query (λ db. all_keys db.index device)
          modify (λ s. record s {
            db = record s.db {
              uploads =
                  rows
                  ++ delete_where (λ k d. d == device && is_some (get k s.db.index)) s.db.uploads;
            };
          })
          on_emitter (upload_if_any rows))
        (λ _. pure tt)
