-- ===== src/SyncController/Atomicity.antt =====
-- A synchronization that throws rolls its scope back.
use qt_data_sync.Common.{ℕ, Bool, true, false, String, Option, none, some, if◌then◌else◌, ltb}
use qt_data_sync.Common.Equality.{◌==◌, nat_eq}
use qt_data_sync.Json.{Bytes, Fields, json_hash}
use qt_data_sync.Environment.{ObjectKey, Env, SyncPolicy, prefer_changed, prefer_deleted}
use qt_data_sync.Exec.{pure, ◌>>◌}
use qt_data_sync.Exec.Triple.{Keeps, seq-Keeps, bind-Keeps, pure-Keeps, throw-Keeps, gets-Keeps}
use qt_data_sync.LocalStore.State.{Db, Store, Method, attempt}
use qt_data_sync.LocalStore.Access.{read_json}
use qt_data_sync.LocalStore.Sync.{
  Scope, ChangeInfo, ChangeType, exists, exists_deleted, no_exists, load_change_info,
  update_version, mark_unchanged, store_changed, store_deleted, stored_path, delete_file_of,
  is_existing, commit_sync, in_scope,
}
use qt_data_sync.LocalStore.Atomicity.{
  Saved, Restores, attempt-Keeps, exec-Keeps, query-Keeps, on_emitter-Quiet, remove_file-Keeps,
  store_changed_impl-Keeps, commit-Safe, bind-Safe, end-Safe, transaction-Restores,
  rollback-Restores, option-Keeps, write_deleted-Keeps,
}
use qt_data_sync.SyncController.{
  Remote, deleted, changed, act, settle, same_checksum, resolve, resolve_with, sync_scope,
  sync_store,
}

module _ {C : Type 0} (env : Env C) {db : Db} where
  if-Keeps :
      {A : Type 0} (b : Bool) (m n : Method C A)
      → Keeps (Saved db) m
      → Keeps (Saved db) n
      → Keeps (Saved db) (if b then m else n)
  if-Keeps true m n hm hn = hm
  if-Keeps false m n hm hn = hn

  policy-Keeps :
      {A : Type 0} (p : SyncPolicy) (m n : Method C A)
      → Keeps (Saved db) m
      → Keeps (Saved db) n
      → Keeps (Saved db) (elim p [ prefer_changed ↦ m | prefer_deleted ↦ n ])
  policy-Keeps prefer_changed m n hm hn = hm
  policy-Keeps prefer_deleted m n hm hn = hn

  update_version-Keeps :
      (scope : Scope) (v new : ℕ) (flag : Bool)
      → Keeps (Saved {C = C} db) (update_version scope v new flag)
  unfolding update_version
  update_version-Keeps scope v new flag = seq-Keeps _ _ (exec-Keeps _) (pure-Keeps _)

  mark_unchanged-Keeps :
      (scope : Scope) (v : ℕ) (is_delete : Bool)
      → Keeps (Saved db) (do mark_unchanged env scope.key v is_delete; pure scope)
  unfolding mark_unchanged
  mark_unchanged-Keeps scope v is_delete =
      seq-Keeps _ _ (if-Keeps _ _ _ (exec-Keeps _) (exec-Keeps _)) (pure-Keeps _)

  store_changed-Keeps :
      (scope : Scope) (v : ℕ) (name : Option String) (d : Fields) (c : Bool) (state : ChangeType)
      → Keeps (Saved db) (store_changed env scope v name d c state)
  unfolding store_changed
  store_changed-Keeps scope v name d c state =
      bind-Keeps _ _ (store_changed_impl-Keeps env _ v name d c _) (λ a. pure-Keeps _)

  stored_path-Keeps :
      (key : ObjectKey) (state : ChangeType) → Keeps (Saved {C = C} db) (stored_path key state)
  unfolding stored_path
  stored_path-Keeps key exists = bind-Keeps _ _ (query-Keeps _) (λ o.
      option-Keeps o _ _ (pure-Keeps _) (λ n. seq-Keeps attempt _ attempt-Keeps (pure-Keeps _)))
  stored_path-Keeps key exists_deleted = pure-Keeps _
  stored_path-Keeps key no_exists = pure-Keeps _

  delete_file_of-Keeps :
      (key : ObjectKey) (name : Option String) → Keeps (Saved db) (delete_file_of env key name)
  unfolding delete_file_of
  delete_file_of-Keeps key none = pure-Keeps _
  delete_file_of-Keeps key (some n) = remove_file-Keeps _

  store_deleted-Keeps :
      (scope : Scope) (v : ℕ) (c : Bool) (state : ChangeType)
      → Keeps (Saved db) (store_deleted env scope v c state)
  unfolding store_deleted
  store_deleted-Keeps scope v c state = bind-Keeps _ _ (stored_path-Keeps _ state) (λ n.
      seq-Keeps _ _ (write_deleted-Keeps env _ (is_existing state) _)
        (seq-Keeps _ _ (delete_file_of-Keeps scope.key n) (pure-Keeps _)))

  resolve-Keeps :
      (g : Option (Bytes → Fields → Fields → Option Fields)) (key : ObjectKey)
      (name : Option String) (d : Fields)
      → Keeps (Saved db) (resolve_with env g key name d)
  unfolding resolve_with read_json
  resolve-Keeps none key name d = pure-Keeps _
  resolve-Keeps (some g) key none d = pure-Keeps _
  resolve-Keeps (some g) key (some n) d =
      bind-Keeps _ _
        (seq-Keeps attempt _ attempt-Keeps (
          seq-Keeps attempt _ attempt-Keeps (
            bind-Keeps _ _ (gets-Keeps _)
              (λ o. option-Keeps o _ _ (throw-Keeps _) (λ x. pure-Keeps _)))))
        (λ x. option-Keeps (g key.type_name x d) _ _ (throw-Keeps _) (λ r. pure-Keeps _))

  settle-Keeps :
      (scope : Scope) (info : ChangeInfo) (v : ℕ) (d : Fields) (merged : Option Fields)
      → Keeps (Saved db) (settle env scope info v d merged)
  unfolding settle
  settle-Keeps scope info v d (some m) = store_changed-Keeps scope _ _ m true exists
  settle-Keeps scope info v d none =
      option-Keeps info.checksum _ _ (store_changed-Keeps scope _ _ d true exists) (λ c.
        if-Keeps _ _ _ (update_version-Keeps scope _ _ true)
          (store_changed-Keeps scope _ _ d true exists))

  act-Keeps :
      (scope : Scope) (info : ChangeInfo) (state : ChangeType) (remote : Remote)
      → Keeps (Saved db) (act env scope info state remote)
  unfolding act resolve
  act-Keeps scope info exists (deleted v) = if-Keeps _ _ _ (store_deleted-Keeps scope v _ exists) (
      if-Keeps _ _ _
        (policy-Keeps env.conflict_policy _ _ (update_version-Keeps scope _ _ true)
          (store_deleted-Keeps scope _ true exists))
        (pure-Keeps _))
  act-Keeps scope info exists (changed v d) =
      if-Keeps (ltb info.version v) _ _ (store_changed-Keeps scope v info.file_name d false exists)
        (if-Keeps (info.version == v) _ _
          (if-Keeps (same_checksum env info.checksum (json_hash env.text d)) _ _
            (mark_unchanged-Keeps scope info.version false)
            (bind-Keeps _ _ (resolve-Keeps env.conflict_resolver scope.key info.file_name d)
              (settle-Keeps scope info v d)))
          (pure-Keeps scope))
  act-Keeps scope info exists_deleted (deleted v) =
      if-Keeps _ _ _ (pure-Keeps _)
        (if-Keeps _ _ _ (update_version-Keeps scope _ _ false) (mark_unchanged-Keeps scope _ true))
  act-Keeps scope info exists_deleted (changed v d) =
      if-Keeps _ _ _ (store_changed-Keeps scope v _ d false exists_deleted) (
        if-Keeps _ _ _
          (policy-Keeps env.conflict_policy _ _
            (store_changed-Keeps scope _ _ d true exists_deleted)
            (update_version-Keeps scope _ _ true))
          (pure-Keeps _))
  act-Keeps scope info no_exists (deleted v) =
      if-Keeps _ _ _ (store_deleted-Keeps scope v false no_exists) (pure-Keeps _)
  act-Keeps scope info no_exists (changed v d) = store_changed-Keeps scope v _ d false no_exists

module _ {C : Type 0} (env : Env C) where
  -- Whatever fails while a change is applied, the tables are as they were.
  pub sync_store-Restores :
      (key : ObjectKey) (remote : Remote) → (s : Store C) → Restores (sync_store env key remote) s
  unfolding sync_store in_scope sync_scope load_change_info commit_sync
  sync_store-Restores key remote =
      transaction-Restores _ _
        (λ db. bind-Safe _ _ (query-Keeps _) (λ info.
          bind-Safe _ _ (act-Keeps env _ info info.state remote)
            (λ done. end-Safe _ _ commit-Safe (on_emitter-Quiet _))))
        (λ db e. rollback-Restores e)
