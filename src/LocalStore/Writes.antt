-- ===== src/LocalStore/Writes.antt =====
-- The queries and file operations of the local store, as changes of one entry.
use qt_data_sync.Common.{
  ℕ, Bool, not, String, ◌∷◌, none, some, ◌≡◌, ◌≢◌, refl, sym, ◌&&◌, inl, inr, Option-cases, ◌∙◌,
}
use qt_data_sync.Common.Equality.{◌==◌, ==_refl, ne→false, nat_eq, nat_beq_refl}
use qt_data_sync.Table.{get, update_where, delete_where, IsUnique}
use qt_data_sync.Table.Laws.{
  get-update_where, get-delete_where, update_where-IsUnique, delete_where-IsUnique, get-update_self,
  get-update_other, get-delete_other, get-cons_self, get-cons_other,
}
use qt_data_sync.Json.{Fields}
use qt_data_sync.Environment.{ObjectKey, key_eq, FilePath, path_eq, Files, Env}
use qt_data_sync.LocalStore.State.{Row, Db, file_path, update_rows, delete_rows, is_some}
use qt_data_sync.LocalStore.Access.{changed_row, deleted_row, at_key, write_file}
use qt_data_sync.LocalStore.Sync.{at_version}
use qt_data_sync.LocalStore.Coherent.{Entry, absent, tombstone, present, Rows, Docs, view, Coherent}
use qt_data_sync.LocalStore.Updates.{
  Sets, Away, written-Sets, dropped-Sets, kept-Sets, same_docs-Differs, one_doc-Differs, own_file,
}

abbrev pub row_at : Db → Rows
row_at db k = get k db.index

abbrev pub doc_at : Files → Docs
doc_at files p = get p files

module _ {C : Type 0} (env : Env C) where
  -- The primary key of the index, and a coherent view.
  pub record Sound (db : Db) (files : Files) : Type 0 where
    pub unique : IsUnique db.index
    pub coherent : Coherent env (row_at db) (doc_at files)

  -- The entry of one key in the tables and files.
  abbrev pub entry : Db → Files → ObjectKey → Entry
  entry db files = view env (row_at db) (doc_at files)

  -- The entry of `key` becomes `e` and all other entries stay.
  pub record Becomes (key : ObjectKey) (e : Entry) (db : Db) (files : Files) (db' : Db)
      (files' : Files) : Type 0 where
    pub unique : IsUnique db'.index
    pub sets : Sets env key e (row_at db) (row_at db') (doc_at files) (doc_at files')

  pub Becomes-Sound :
      (key : ObjectKey) (e : Entry) (db db' : Db) (files files' : Files)
      → Becomes key e db files db' files'
      → Sound db' files'
  Becomes-Sound key e db db' files files' b = record {
    unique = b.unique;
    coherent = b.sets.coherent;
  }

  module _ (key : ObjectKey) (db : Db) (files : Files) (h : Sound db files) where
    write_file_other :
        (p : FilePath) (d : Fields) (q : FilePath)
        → p ≢ q
        → get q (write_file env p d files) ≡ get q files
    write_file_other p d q other =
        get-cons_other p (delete_where (λ x _. x == p) files) d q other
        ∙ get-delete_other p files q other

    pub update_written :
        (r : Row) (v : ℕ) (n : String) (d : Fields) (changed : Bool)
        → get key db.index ≡ some r
        → Away env key (row_at db) (file_path env key n)
        → Becomes key
            (present v d changed)
            db
            files
            (update_rows (at_key key) (λ _. changed_row env v n d changed) db)
            (write_file env (file_path env key n) d files)
    unfolding update_rows
    update_written r v n d changed e away = record {
      unique = update_where-IsUnique _ _ db.index h.unique;
      sets =
          written-Sets env key (row_at db) (doc_at files) h.coherent _ _
            (λ j other. get-update_other key _ db.index j other) v n d changed away
            (get-update_self key _ db.index r e) (get-cons_self _ _ d)
            (write_file_other (file_path env key n) d);
    }

    pub insert_written :
        (v : ℕ) (n : String) (d : Fields) (changed : Bool)
        → get key db.index ≡ none
        → Away env key (row_at db) (file_path env key n)
        → Becomes key
            (present v d changed)
            db
            files
            (record db { index = (key, changed_row env v n d changed) ∷ db.index })
            (write_file env (file_path env key n) d files)
    insert_written v n d changed e away = record {
      unique = (e, h.unique);
      sets =
          written-Sets env key (row_at db) (doc_at files) h.coherent _ _
            (λ j other. get-cons_other key db.index _ j other) v n d changed away
            (get-cons_self key db.index _) (get-cons_self _ _ d)
            (write_file_other (file_path env key n) d);
    }

    -- A row that had a file loses it.
    pub update_deleted :
        (r : Row) (n : String) (v : ℕ) (changed : Bool)
        → get key db.index ≡ some r
        → r.file ≡ some n
        → Becomes key
            (tombstone v changed)
            db
            files
            (update_rows (at_key key) (λ _. deleted_row v changed) db)
            (delete_where (λ q _. q == file_path env key n) files)
    unfolding update_rows view
    update_deleted r n v changed e f = record {
      unique = update_where-IsUnique _ _ db.index h.unique;
      sets =
          dropped-Sets env key (row_at db) (doc_at files) h.coherent _ _
            (λ j other. get-update_other key _ db.index j other) _
            (one_doc-Differs env key (row_at db) (doc_at files) h.coherent _ _
              (λ j other. get-update_other key _ db.index j other) (file_path env key n)
              (own_file env key (row_at db) (doc_at files) h.coherent r n e f)
              (λ q other. get-delete_other (file_path env key n) files q other))
            (λ q g. cc (g, get-update_self key (λ _. deleted_row v changed) db.index r e))
            (rw (get-update_self key (λ _. deleted_row v changed) db.index r e));
    }

    pub insert_deleted :
        (v : ℕ) (changed : Bool)
        → get key db.index ≡ none
        → Becomes key
            (tombstone v changed)
            db
            files
            (record db { index = (key, deleted_row v changed) ∷ db.index })
            files
    unfolding view
    insert_deleted v changed e = record {
      unique = (e, h.unique);
      sets =
          dropped-Sets env key (row_at db) (doc_at files) h.coherent _ _
            (λ j other. get-cons_other key db.index _ j other) _
            (same_docs-Differs env key (row_at db) (doc_at files) h.coherent _ _
              (λ j other. get-cons_other key db.index _ j other) (λ q. refl))
            (λ q g. cc (g, get-cons_self key db.index (deleted_row v changed)))
            (rw (get-cons_self key db.index (deleted_row v changed)));
    }

    module _ (r : Row) (v : ℕ) (e : get key db.index ≡ some r) (is_v : r.version ≡ v) where
      versioned_self :
          (f : Row → Row) → get key (update_where (at_version key v) f db.index) ≡ some (f r)
      versioned_self f =
          rw (
            get-update_where key (at_version key v) f db.index,
            e,
            ==_refl key,
            is_v,
            nat_beq_refl v,
          )

      versioned_other :
          (f : Row → Row) (j : ObjectKey)
          → key ≢ j
          → get j (update_where (at_version key v) f db.index) ≡ get j db.index
      versioned_other f j other = elim (Option-cases (get j db.index)) [
        | inl o ↦ rw (get-update_where j (at_version key v) f db.index, o)
        | inr (q, o) ↦ rw (
          get-update_where j (at_version key v) f db.index,
          o,
          ne→false j key (λ x. other (sym x)),
        )
      ]

      -- An update that leaves the file and the checksum alone.
      pub update_kept :
          (f : Row → Row) (x : Entry)
          → (f r).file ≡ r.file
          → (f r).checksum ≡ r.checksum
          → ((rows : Rows) → rows key ≡ some (f r) → view env rows (doc_at files) key ≡ x)
          → Becomes key x db files (update_rows (at_version key v) f db) files
      unfolding update_rows
      update_kept f x same_file same_sum ex = record {
        unique = update_where-IsUnique _ _ db.index h.unique;
        sets =
            kept-Sets env key (row_at db) (doc_at files) h.coherent _ _
              (λ j other. versioned_other f j other) r (f r) e (versioned_self f) same_file same_sum
              (λ q. refl) x (ex _ (versioned_self f));
      }

      -- A deleted row goes.
      pub row_removed :
          r.file ≡ none
          → Becomes key absent db files
              (delete_rows (λ k q. at_version key v k q && not (is_some q.file)) db)
              files
      unfolding delete_rows view
      row_removed no_file = record {
        unique = delete_where-IsUnique _ db.index h.unique;
        sets =
            dropped-Sets env key (row_at db) (doc_at files) h.coherent _ _ others _
              (same_docs-Differs env key (row_at db) (doc_at files) h.coherent _ _ others
                (λ q. refl))
              (λ q g. cc (g, gone)) (rw gone);
      }
        where
          gone :
              get key (delete_where (λ k q. at_version key v k q && not (is_some q.file)) db.index)
              ≡ none
          gone = rw (
            get-delete_where key (λ k q. at_version key v k q && not (is_some q.file)) db.index
                h.unique,
            e,
            ==_refl key,
            is_v,
            nat_beq_refl v,
            no_file,
          )

          others :
              (j : ObjectKey)
              → key ≢ j
              → get j (delete_where (λ k q. at_version key v k q && not (is_some q.file)) db.index)
                ≡ get j db.index
          others j other = elim (Option-cases (get j db.index)) [
            | inl o ↦ rw (
              get-delete_where j (λ k q. at_version key v k q && not (is_some q.file)) db.index
                  h.unique,
              o,
            )
            | inr (q, o) ↦ rw (
              get-delete_where j (λ k q. at_version key v k q && not (is_some q.file)) db.index
                  h.unique,
              o,
              ne→false j key (λ x. other (sym x)),
            )
          ]
