-- ===== src/LocalStore/Outcomes.antt =====
-- What each write of the local store makes of the entry of its key, when it returns.
use qt_data_sync.Common.{ℕ, Bool, true, false, String, [], Option, none, some, ◌≡◌, refl}
use qt_data_sync.Table.{get}
use qt_data_sync.Json.{Fields}
use qt_data_sync.Environment.{ObjectKey, key_eq, path_eq, Files, Env, IsLawful}
use qt_data_sync.Exec.Triple.{Triple, seq-Triple, bind_eq-Triple, weaken-Triple, pure-Triple}
use qt_data_sync.LocalStore.State.{Row, Db, Store, file_path, type_directory}
use qt_data_sync.LocalStore.Access.{target_name, store_changed_impl, update_row, stored_file}
use qt_data_sync.LocalStore.Sync.{
  Scope, exists, no_exists, update_version, mark_unchanged, store_deleted, stored_path,
  delete_file_of,
}
use qt_data_sync.LocalStore.Coherent.{Entry, absent, tombstone, present, Rows, view}
use qt_data_sync.LocalStore.Updates.{Away, own_file, new_file}
use qt_data_sync.LocalStore.Writes.{
  row_at, doc_at, Sound, Becomes, update_written, insert_written, update_deleted, insert_deleted,
  update_kept, row_removed,
}
use qt_data_sync.LocalStore.Effects.{
  World, Data, Blames, attempt-Data, exec-Data, query_eq-Data, insert_row-Data, remove_file-Data,
  store_changed_impl-Data, pure-Data,
}

module _ {C : Type 0} (env : Env C) (w : World) where
  -- The entry of `key` is now `e`, and nothing else has changed since `db` and `files`.
  abbrev pub Became : ObjectKey → Entry → Db → Files → Store C → Type 0
  Became key e db files s = Becomes env key e db files s.db s.files × (w.calm → s.outcomes ≡ [])

  Data-Became :
      (key : ObjectKey) (e : Entry) (db db' : Db) (files files' : Files) (s : Store C)
      → Becomes env key e db files db' files'
      → Data w db' files' s
      → Became key e db files s
  Data-Became key e db db' files files' s b q = (rw (q.0, q.1) b, q.2)

  module _ (key : ObjectKey) (db : Db) (files : Files) (h : Sound env db files) where
    module _ (law : IsLawful env) where
      -- The file that a write goes to is named by no other row.
      pub target-Away :
          (existing : Bool) (name : Option String)
          → ((n : String)
              → existing ≡ true
              → name ≡ some n
              → Away env key (row_at db) (file_path env key n))
          → Away env key (row_at db) (file_path env key (target_name env key existing name files))
      target-Away true none own =
          new_file env key (row_at db) (doc_at files) h.coherent _
            (law.temporary_new files (type_directory env key.type_name))
      target-Away false none own =
          new_file env key (row_at db) (doc_at files) h.coherent _
            (law.temporary_new files (type_directory env key.type_name))
      target-Away false (some n) own =
          new_file env key (row_at db) (doc_at files) h.coherent _
            (law.temporary_new files (type_directory env key.type_name))
      target-Away true (some n) own = own n refl refl

      pub impl_existing :
          (r : Row) (v : ℕ) (d : Fields) (changed : Bool)
          → get key db.index ≡ some r
          → Triple
              (Data w db files)
              (store_changed_impl env key v r.file d changed true)
              (λ _. Became key (present v d changed) db files)
              (Blames w)
      unfolding update_row
      impl_existing r v d changed e =
          weaken-Triple (λ s x. x)
            (λ a s x.
              Data-Became key _ db _ files _ s
                (update_written env key db files h r v _ d changed e (
                  target-Away true r.file
                    (λ n _ f. own_file env key (row_at db) (doc_at files) h.coherent r n e f)))
                x.1)
            (store_changed_impl-Data env w db _ files key v r.file d changed true
              (exec-Data w db files _))

      pub impl_missing :
          (v : ℕ) (name : Option String) (d : Fields) (changed : Bool)
          → get key db.index ≡ none
          → Triple
              (Data w db files)
              (store_changed_impl env key v name d changed false)
              (λ _. Became key (present v d changed) db files)
              (Blames w)
      impl_missing v name d changed e =
          weaken-Triple (λ s x. x)
            (λ a s x.
              Data-Became key _ db _ files _ s
                (insert_written env key db files h v _ d changed e
                  (target-Away false name (λ n f. cc)))
                x.1)
            (store_changed_impl-Data env w db _ files key v name d changed false
              (insert_row-Data w db files key _ e))

    pub update_version-Became :
        (scope : Scope) (r : Row) (v new : ℕ) (changed : Bool) (x : Entry)
        → scope.key ≡ key
        → get key db.index ≡ some r
        → r.version ≡ v
        → ((rows : Rows)
            → rows key ≡ some (record r { version = new; changed = changed })
            → view env rows (doc_at files) key ≡ x)
        → Triple
            (Data w db files)
            (update_version scope v new changed)
            (λ _. Became key x db files)
            (Blames w)
    unfolding update_version
    update_version-Became scope r v new changed x k e is_v ex = rw k (
        seq-Triple (exec-Data w db files _) (
          weaken-Triple (λ s q. q)
            (λ a s q.
              Data-Became key x db _ files files s
                (update_kept env key db files h r v e is_v _ x refl refl ex) q.1)
            (pure-Data w _ files _)))

    pub mark_unchanged-Became :
        (r : Row) (v : ℕ) (x : Entry)
        → get key db.index ≡ some r
        → r.version ≡ v
        → ((rows : Rows)
            → rows key ≡ some (record r { changed = false })
            → view env rows (doc_at files) key ≡ x)
        → Triple
            (Data w db files)
            (mark_unchanged env key v false)
            (λ _. Became key x db files)
            (Blames w)
    unfolding mark_unchanged
    mark_unchanged-Became r v x e is_v ex =
        weaken-Triple (λ s q. q)
          (λ a s q.
            Data-Became key x db _ files files s
              (update_kept env key db files h r v e is_v _ x refl refl ex) q)
          (exec-Data w db files _)

    -- Without persisted deletes a deleted row goes.
    pub mark_unchanged_removes :
        (r : Row) (v : ℕ)
        → env.persist_deleted ≡ false
        → get key db.index ≡ some r
        → r.version ≡ v
        → r.file ≡ none
        → Triple
            (Data w db files)
            (mark_unchanged env key v true)
            (λ _. Became key absent db files)
            (Blames w)
    unfolding mark_unchanged
    mark_unchanged_removes r v p e is_v f = simp p (
        weaken-Triple (λ s q. q)
          (λ a s q.
            Data-Became key absent db _ files files s (row_removed env key db files h r v e is_v f)
              q)
          (exec-Data w db files _))

    pub store_deleted_existing :
        (scope : Scope) (r : Row) (n : String) (d : Fields) (v : ℕ) (changed : Bool)
        → scope.key ≡ key
        → get key db.index ≡ some r
        → r.file ≡ some n
        → get (file_path env key n) files ≡ some d
        → Triple
            (Data w db files)
            (store_deleted env scope v changed exists)
            (λ _. Became key (tombstone v changed) db files)
            (Blames w)
    unfolding store_deleted stored_path delete_file_of update_row
    store_deleted_existing scope r n d v changed k e f g = rw k (
        bind_eq-Triple _ {a = some n}
          (bind_eq-Triple _ {a = some n}
            (query_eq-Data w db files (λ x. stored_file (get key x.index)) (rw (e, f)))
            (seq-Triple (attempt-Data w db files) (pure-Data w db files (some n))))
          (seq-Triple (exec-Data w db files _) (
            seq-Triple (remove_file-Data w _ files (file_path env key n) g) (
              weaken-Triple (λ s q. q)
                (λ a s q.
                  Data-Became key _ db _ files _ s
                    (update_deleted env key db files h r n v changed e f) q.1)
                (pure-Data w _ _ _)))))

    pub store_deleted_missing :
        (scope : Scope) (v : ℕ) (changed : Bool)
        → scope.key ≡ key
        → get key db.index ≡ none
        → Triple
            (Data w db files)
            (store_deleted env scope v changed no_exists)
            (λ _. Became key (tombstone v changed) db files)
            (Blames w)
    unfolding store_deleted stored_path delete_file_of
    store_deleted_missing scope v changed k e = rw k (
        bind_eq-Triple _ (pure-Data w db files none) (
          seq-Triple (insert_row-Data w db files key _ e) (
            seq-Triple (pure-Triple tt (λ s q. q)) (
              weaken-Triple (λ s q. q)
                (λ a s q.
                  Data-Became key _ db _ files _ s (insert_deleted env key db files h v changed e)
                    q.1)
                (pure-Data w _ _ _)))))
