-- ===== src/SyncController.antt =====
-- src/datasync/synccontroller.cpp: what a downloaded change does to the local store.
pub mod Policy
pub mod Actions
pub mod Absence
pub mod Refinement
pub mod Atomicity
pub mod Convergence
use qt_data_sync.Common.{
  ℕ, Bool, true, false, not, String, Option, none, some, List, [], ◌∷◌, ◌++◌, if◌then◌else◌, ltb,
}
use qt_data_sync.Common.Equality.{◌==◌, nat_eq}
use qt_data_sync.Json.{Bytes, Fields, json_hash, is_empty}
use qt_data_sync.Environment.{
  ObjectKey, Env, SyncPolicy, prefer_changed, prefer_deleted, next_version,
}
use qt_data_sync.Exec.{Exec, Result, ok, err, pure, throw, ◌>>=◌, ◌>>◌}
use qt_data_sync.LocalStore.State.{Store, Failure, resolver_failed, Method}
use qt_data_sync.LocalStore.Access.{read_json}
use qt_data_sync.LocalStore.Sync.{
  ChangeType, exists, exists_deleted, no_exists, ChangeInfo, Scope, in_scope, load_change_info,
  update_version, mark_unchanged, store_changed, store_deleted, commit_sync,
}

-- What SyncHelper::extract reads from the data of a download.
pub data Remote : Type 0 where
  deleted : ℕ → Remote
  changed : ℕ → Fields → Remote

pub data SyncSignal : Type 0 where
  sync_done : ℕ → SyncSignal
  controller_error : SyncSignal

pub record Controller (C : Type 0) : Type 0 where
  pub enabled : Bool
  pub store : Store C
  pub emitted : List SyncSignal

module _ {C : Type 0} (env : Env C) where
  resolve_with :
      Option (Bytes → Fields → Fields → Option Fields)
      → ObjectKey
      → Option String
      → Fields
      → Method C (Option Fields)
  resolve_with none key name remote = pure none
  resolve_with (some f) key none remote = pure none
  resolve_with (some f) key (some name) remote = do
    d ← read_json env key name
    elim (f key.type_name d remote) [
      | none ↦ throw resolver_failed
      | some r ↦ pure (if is_empty r then none else some r)
    ]

  -- The resolver's data, unless there is no resolver or it gives an empty object.
  resolve : ObjectKey → Option String → Fields → Method C (Option Fields)
  unfolding resolve_with
  resolve key name remote = resolve_with env.conflict_resolver key name remote

  -- Two datasets of one version that differ.
  settle : Scope → ChangeInfo → ℕ → Fields → Option Fields → Method C Scope
  settle scope info v d (some merged) =
      store_changed env scope (next_version info.version) info.file_name merged true exists
  settle scope info v d none = elim info.checksum [
    | none ↦ store_changed env scope (next_version v) info.file_name d true exists
    | some local ↦
        if ltb (json_hash env.text d) local
        then update_version scope info.version (next_version info.version) true
        else store_changed env scope (next_version v) info.file_name d true exists
  ]

  abbrev pub same_checksum : Option ℕ → ℕ → Bool
  same_checksum none h = false
  same_checksum (some c) h = c == h

  exists_changed : Scope → ChangeInfo → ℕ → Fields → Method C Scope
  unfolding settle resolve
  exists_changed scope info v d =
      if ltb info.version v
      then store_changed env scope v info.file_name d false exists
      else if info.version == v
      then (if same_checksum info.checksum (json_hash env.text d)
          then (do mark_unchanged env scope.key info.version false; pure scope)
          else (do merged ← resolve scope.key info.file_name d; settle scope info v d merged))
      else pure scope

  exists_deleted_now : Scope → ChangeInfo → ℕ → Method C Scope
  exists_deleted_now scope info v =
      if ltb info.version v
      then store_deleted env scope v (not env.persist_deleted) exists
      else if info.version == v
      then elim env.conflict_policy [
        | prefer_changed ↦ update_version scope info.version (next_version info.version) true
        | prefer_deleted ↦ store_deleted env scope (next_version v) true exists
      ]
      else pure scope

  cached_delete_deleted : Scope → ChangeInfo → ℕ → Method C Scope
  cached_delete_deleted scope info v =
      if ltb v info.version
      then pure scope
      else if env.persist_deleted
      then update_version scope info.version v false
      else (do mark_unchanged env scope.key info.version true; pure scope)

  cached_delete_changed : Scope → ChangeInfo → ℕ → Fields → Method C Scope
  cached_delete_changed scope info v d =
      if ltb info.version v
      then store_changed env scope v info.file_name d false exists_deleted
      else if info.version == v
      then elim env.conflict_policy [
        | prefer_changed ↦
            store_changed env scope (next_version v) info.file_name d true exists_deleted
        | prefer_deleted ↦ update_version scope info.version (next_version info.version) true
      ]
      else pure scope

  -- The switch over the local state.
  unfoldable pub act : Scope → ChangeInfo → ChangeType → Remote → Method C Scope
  unfolding exists_changed exists_deleted_now cached_delete_deleted cached_delete_changed
  act scope info exists (deleted v) = exists_deleted_now scope info v
  act scope info exists (changed v d) = exists_changed scope info v d
  act scope info exists_deleted (deleted v) = cached_delete_deleted scope info v
  act scope info exists_deleted (changed v d) = cached_delete_changed scope info v d
  act scope info no_exists (deleted v) =
      if env.persist_deleted then store_deleted env scope v false no_exists else pure scope
  act scope info no_exists (changed v d) =
      store_changed env scope v info.file_name d false no_exists

  -- The body of syncChange from startSync to commitSync.
  unfoldable pub sync_scope : Remote → Scope → Method C (Unit {0})
  sync_scope remote scope = do
    info ← load_change_info scope
    done ← act scope info info.state remote
    commit_sync env done

  unfoldable pub sync_store : ObjectKey → Remote → Method C (Unit {0})
  sync_store key remote = in_scope key (sync_scope remote)

  abbrev pub report : ℕ → Controller C → Result Failure (Unit {0}) × Store C → Controller C
  report id c (ok a, s) = record c { store = s; emitted = c.emitted ++ sync_done id ∷ [] }
  report id c (err e, s) = record c { store = s; emitted = c.emitted ++ controller_error ∷ [] }

  -- `none` is data that SyncHelper::extract refuses.
  abbrev pub apply_change : ℕ → Option (ObjectKey × Remote) → Controller C → Controller C
  apply_change id none c = record c { emitted = c.emitted ++ controller_error ∷ [] }
  apply_change id (some (key, remote)) c = report id c (sync_store key remote c.store)

  unfoldable pub sync_change : ℕ → Option (ObjectKey × Remote) → Controller C → Controller C
  sync_change id received c = if c.enabled then apply_change id received c else c

  unfoldable pub set_sync_enabled : Bool → Controller C → Controller C
  set_sync_enabled enabled c = record c { enabled = enabled }
