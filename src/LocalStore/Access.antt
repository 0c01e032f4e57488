-- ===== src/LocalStore/Access.antt =====
-- The access methods of src/datasync/localstore.cpp: reading, saving, removing and clearing data.
-- A failed removal of a directory is taken to remove nothing.
use qt_data_sync.Common.{
  ℕ, suc, Bool, true, false, String, Option, none, some, List, [], ◌∷◌, ◌&&◌, map, length,
}
use qt_data_sync.Common.Equality.{◌==◌, bytes_eq}
use qt_data_sync.Table.{Table, get, delete_where, select_where}
use qt_data_sync.Json.{Bytes, Fields, json_hash}
use qt_data_sync.Environment.{ObjectKey, key_eq, FilePath, path_eq, Files, Env, next_version}
use qt_data_sync.Exec.{pure, throw, gets, modify, ◌>>=◌, ◌>>◌, try_catch}
use qt_data_sync.Emitter.{
  Emitter, trigger_change, trigger_clear, trigger_reset, put_cached, put_all, get_cached,
  drop_cached, drop_cached_ids, clear_cached,
}
use qt_data_sync.LocalStore.State.{
  Row, local_store, no_data, Method, AfterCommit, notify_change, attempt, exec, query,
  begin_transaction, commit, rollback, on_emitter, after_commit, remove_file, is_some, delete_rows,
  update_rows, type_directory, file_path,
}

-- Rows of one type, and those among them that hold data.
abbrev pub of_type : Bytes → ObjectKey → Row → Bool
of_type t k r = k.type_name == t

abbrev pub stored : Bytes → ObjectKey → Row → Bool
stored t k r = k.type_name == t && is_some r.file

abbrev pub at_key : ObjectKey → ObjectKey → Row → Bool
at_key key k r = k == key

abbrev pub ids : Table ObjectKey Row → List String
ids = map (λ entry. entry.0.id)

-- The file of a row that holds data.
abbrev pub stored_file : Option Row → Option String
stored_file none = none
stored_file (some r) = r.file

-- A row that is marked for upload and holds no data.
abbrev pub deleted_row : ℕ → Bool → Row
deleted_row version changed = record {
  version = version;
  file = none;
  checksum = none;
  changed = changed;
}

module _ {C : Type 0} where
  -- INSERT INTO DataIndex; the primary key refuses a second row.
  unfoldable pub insert_row : ObjectKey → Row → Method C (Unit {0})
  insert_row key r = do
    attempt
    found ← gets (λ s. get key s.db.index)
    elim found [
      | some old ↦ throw local_store
      | none ↦ modify (λ s. record s { db = record s.db { index = (key, r) ∷ s.db.index } })
    ]

  -- UPDATE DataIndex SET ... WHERE Type = ? AND Id = ?
  unfoldable pub update_row : ObjectKey → (Row → Row) → Method C (Unit {0})
  update_row key f = exec (update_rows (at_key key) f)

module _ {C : Type 0} (env : Env C) where
  unfoldable pub read_json : ObjectKey → String → Method C Fields
  read_json key name = do
    attempt
    attempt
    found ← gets (λ s. get (file_path env key name) s.files)
    elim found [ none ↦ throw local_store | some d ↦ pure d ]

  -- LocalStore::count
  unfoldable pub count : Bytes → Method C ℕ
  count t = query (λ db. length (select_where (stored t) db.index))

  unfoldable pub keys : Bytes → Method C (List String)
  keys t = query (λ db. ids (select_where (stored t) db.index))

  -- The loop of loadAll over the rows of its query.
  unfoldable pub read_rows : Table ObjectKey Row → Method C (List (ObjectKey × Fields × ℕ))
  read_rows [] = pure []
  read_rows ((key, r) ∷ rows) = elim r.file [
    | none ↦ read_rows rows
    | some name ↦ do
      d ← read_json key name
      rest ← read_rows rows
      pure ((key, d, env.file_size d) ∷ rest)
  ]

  unfoldable pub load_all : Bytes → Method C (List Fields)
  load_all t = do
    begin_transaction
    try_catch
        (do
          rows ← query (λ db. select_where (stored t) db.index)
          entries ← read_rows rows
          on_emitter (put_all env entries)
          commit
          pure (map (λ entry. entry.1) entries))
        (λ e. do rollback; throw e)

  -- LocalStore::contains
  unfoldable pub contains : ObjectKey → Method C Bool
  contains key = query (λ db. is_some (get key db.index))

  unfoldable pub load_stored : ObjectKey → Option String → Method C Fields
  load_stored key none = throw (no_data key)
  load_stored key (some name) = do
    d ← read_json key name
    on_emitter (put_cached env key d (env.file_size d))
    commit
    pure d

  unfoldable pub load_uncached : ObjectKey → Method C Fields
  unfolding load_stored
  load_uncached key = do
    begin_transaction
    try_catch (do name ← query (λ db. stored_file (get key db.index)); load_stored key name)
        (λ e. do rollback; throw e)

  unfoldable pub load : ObjectKey → Method C Fields
  unfolding load_uncached
  load key = do
    cached ← gets (λ s. get_cached env key s.emitter)
    elim cached [ some d ↦ pure d | none ↦ load_uncached key ]

  -- The name that the data is written under: that of the existing file, or that of a new one.
  abbrev pub target_name : ObjectKey → Bool → Option String → Files → String
  target_name key existing none files = env.temporary_name files (type_directory env key.type_name)
  target_name key false (some name) files =
      env.temporary_name files (type_directory env key.type_name)
  target_name key true (some name) files = name

  abbrev pub changed_row : ℕ → String → Fields → Bool → Row
  changed_row version name d changed = record {
    version = version;
    file = some name;
    checksum = some (json_hash env.text d);
    changed = changed;
  }

  abbrev pub write_row : ObjectKey → Bool → Row → Method C (Unit {0})
  write_row key true r = update_row key (λ _. r)
  write_row key false r = insert_row key r

  abbrev pub write_file : FilePath → Fields → Files → Files
  write_file p d files = (p, d) ∷ delete_where (λ q _. q == p) files

  -- The failing steps: the directory, opening the file, writing it, the query, committing the file.
  unfoldable pub store_changed_impl :
      ObjectKey → ℕ → Option String → Fields → Bool → Bool → Method C AfterCommit
  store_changed_impl key version file_name d changed existing = do
    attempt
    name ← gets (λ s. target_name key existing file_name s.files)
    attempt
    attempt
    write_row key existing (changed_row version name d changed)
    attempt
    modify (λ s. record s { files = write_file (file_path env key name) d s.files })
    on_emitter (put_cached env key d (env.file_size d))
    pure (notify_change key false changed)

  abbrev pub version_after : Option Row → ℕ
  version_after none = 1
  version_after (some r) = next_version r.version

  unfoldable pub save : ObjectKey → Fields → Method C (Unit {0})
  save key d = do
    begin_transaction
    try_catch
        (do
          found ← query (λ db. get key db.index)
          after ←
              store_changed_impl key (version_after found) (stored_file found) d true
                (is_some found)
          commit
          on_emitter (after_commit after))
        (λ e. do on_emitter (drop_cached env key); rollback; throw e)

  unfoldable pub remove_stored : ObjectKey → Option Row → Method C Bool
  remove_stored key none = do commit; pure false
  remove_stored key (some r) = elim r.file [
    | none ↦ do commit; pure false
    | some name ↦ do
      update_row key (λ _. deleted_row (next_version r.version) true)
      attempt
      remove_file (file_path env key name)
      commit
      on_emitter (drop_cached env key)
      on_emitter (trigger_change key true true)
      pure true
  ]

  unfoldable pub remove : ObjectKey → Method C Bool
  unfolding remove_stored
  remove key = do
    begin_transaction
    try_catch (do found ← query (λ db. get key db.index); remove_stored key found)
        (λ e. do rollback; throw e)

  -- A failure of this step is logged and ignored.
  abbrev pub ignore_failure : Method C (Unit {0}) → Method C (Unit {0})
  ignore_failure m = try_catch m (λ _. pure tt)

  abbrev pub remove_directory : Bytes → Method C (Unit {0})
  remove_directory dir = do
    attempt
    modify (λ s. record s { files = delete_where (λ q _. q.directory == dir) s.files })

  unfoldable pub clear : Bytes → Method C (Unit {0})
  clear t = do
    begin_transaction
    try_catch
        (do
          cleared ← query (λ db. ids (select_where (stored t) db.index))
          exec (update_rows (stored t) (λ r. deleted_row (suc r.version) true))
          attempt
          ignore_failure (remove_directory (type_directory env t))
          commit
          on_emitter (drop_cached_ids env t cleared)
          on_emitter (trigger_clear t cleared))
        (λ e. do rollback; throw e)

  abbrev pub reset_tables : Bool → Method C (Unit {0})
  reset_tables true = do
    exec (update_rows (λ _ _. true) (λ r. record r { changed = true }))
    exec (λ db. record db { uploads = [] })
  reset_tables false = do
    exec (delete_rows (λ _ _. true))
    attempt
    ignore_failure (do attempt; modify (λ s. record s { files = [] }))

  abbrev pub reset_signals : Bool → Emitter C → Emitter C
  reset_signals true e = e
  reset_signals false e = trigger_reset (clear_cached env e)

  unfoldable pub reset : Bool → Method C (Unit {0})
  reset keep_data = do
    begin_transaction
    try_catch (do reset_tables keep_data; commit; on_emitter (reset_signals keep_data))
        (λ e. do rollback; throw e)
