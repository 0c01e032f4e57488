-- ===== src/LocalStore/Effects.antt =====
-- What the methods do to the tables and the files when they return: one rule for each step.
use qt_data_sync.Common.{ℕ, Bool, false, String, Option, none, some, [], ◌∷◌, ◌≡◌, ◌∙◌, refl, arith}
use qt_data_sync.Table.{get, delete_where}
use qt_data_sync.Json.{Fields}
use qt_data_sync.Environment.{ObjectKey, key_eq, Files, path_eq, FilePath, Env}
use qt_data_sync.Common.Equality.{◌==◌}
use qt_data_sync.Exec.{pure, gets, modify, ◌>>=◌, ◌>>◌}
use qt_data_sync.Exec.Triple.{
  Triple, seq-Triple, bind_eq-Triple, gets-Triple, weaken-Triple, modify-Triple, pure-Triple,
}
use qt_data_sync.Emitter.{Emitter}
use qt_data_sync.LocalStore.State.{
  Row, Db, Store, Failure, notify_change, attempt, exec, query, begin_transaction, commit,
  on_emitter, remove_file, file_path,
}
use qt_data_sync.LocalStore.Access.{
  read_json, insert_row, write_row, write_file, target_name, changed_row, store_changed_impl,
}

-- The circumstances of a call: where nothing outside fails (`calm`), a method throws only for a
-- reason of its own (`blame`).
pub record World : Type 1 where
  pub calm : Type 0
  pub blame : Type 0

module _ {C : Type 0} (w : World) where
  -- The tables and the files are these, and in a calm world all later steps succeed.
  abbrev pub Data : Db → Files → Store C → Type 0
  Data db files s = (s.db ≡ db) × (s.files ≡ files) × (w.calm → s.outcomes ≡ [])

  abbrev pub Blames : Failure → Store C → Type 0
  Blames e s = w.calm → w.blame

module _ {C : Type 0} (w : World) (db : Db) (files : Files) where
  pub attempt-Data :
      Triple {S = Store C} (Data w db files) attempt (λ _. Data w db files) (Blames w)
  unfolding attempt
  attempt-Data = record { at = λ s h. ground arith }

  pub exec-Data :
      (f : Db → Db)
      → Triple {S = Store C} (Data w db files) (exec f) (λ _. Data w (f db) files) (Blames w)
  unfolding attempt exec ◌>>=◌ ◌>>◌ modify
  exec-Data f = record { at = λ s h. ground arith }

  pub query-Data :
      {A : Type 0} (f : Db → A)
      → Triple {S = Store C}
          (Data w db files)
          (query f)
          (λ a s. (a ≡ f db) × Data w db files s)
          (Blames w)
  unfolding attempt query ◌>>=◌ ◌>>◌ gets
  query-Data f = record { at = λ s h. ground arith }

  pub gets_files-Data :
      {A : Type 0} (f : Files → A)
      → Triple {E = Failure} {S = Store C}
          (Data w db files)
          (gets (λ s. f s.files))
          (λ a s. (a ≡ f files) × Data w db files s)
          (Blames w)
  gets_files-Data f = gets-Triple (λ s. f s.files) (λ s h. ground arith)

  pub set_files-Data :
      (f : Files → Files)
      → Triple {E = Failure} {S = Store C}
          (Data w db files)
          (modify (λ s. record s { files = f s.files }))
          (λ _. Data w db (f files))
          (Blames w)
  set_files-Data f = modify-Triple (λ s. record s { files = f s.files }) (λ s h. ground arith)

  pub on_emitter-Data :
      (f : Emitter C → Emitter C)
      → Triple {S = Store C} (Data w db files) (on_emitter f) (λ _. Data w db files) (Blames w)
  unfolding on_emitter
  on_emitter-Data f = modify-Triple (λ s. record s { emitter = f s.emitter }) (λ s h. h)

  pub begin-Data :
      Triple {S = Store C} (Data w db files) begin_transaction (λ _. Data w db files) (Blames w)
  unfolding begin_transaction
  begin-Data = seq-Triple attempt-Data (modify-Triple _ (λ s h. h))

  pub commit-Data : Triple {S = Store C} (Data w db files) commit (λ _. Data w db files) (Blames w)
  unfolding commit
  commit-Data = seq-Triple attempt-Data (modify-Triple _ (λ s h. h))

  pub pure-Data :
      {A : Type 0} (a : A)
      → Triple {E = Failure} {S = Store C}
          (Data w db files)
          (pure a)
          (λ b s. (b ≡ a) × Data w db files s)
          (Blames w)
  pure-Data a = pure-Triple a (λ s h. (refl, h))

  pub gets_db-Data :
      {A : Type 0} (f : Db → A) {v : A}
      → f db ≡ v
      → Triple {E = Failure} {S = Store C}
          (Data w db files)
          (gets (λ s. f s.db))
          (λ a s. (a ≡ v) × Data w db files s)
          (Blames w)
  gets_db-Data f e = gets-Triple (λ s. f s.db) (λ s h. ground arith)

  pub query_eq-Data :
      {A : Type 0} (f : Db → A) {v : A}
      → f db ≡ v
      → Triple {S = Store C}
          (Data w db files)
          (query f)
          (λ a s. (a ≡ v) × Data w db files s)
          (Blames w)
  unfolding query
  query_eq-Data f e = seq-Triple attempt-Data (gets_db-Data f e)

  pub insert_row-Data :
      (key : ObjectKey) (r : Row)
      → get key db.index ≡ none
      → Triple {S = Store C}
          (Data w db files)
          (insert_row key r)
          (λ _. Data w (record db { index = (key, r) ∷ db.index }) files)
          (Blames w)
  unfolding insert_row
  insert_row-Data key r e = seq-Triple attempt-Data (
      bind_eq-Triple _ (gets_db-Data (λ x. get key x.index) e)
        (modify-Triple _ (λ s h. ground arith)))

  pub remove_file-Data :
      (p : FilePath) {d : Fields}
      → get p files ≡ some d
      → Triple {S = Store C}
          (Data w db files)
          (remove_file p)
          (λ _. Data w db (delete_where (λ q _. q == p) files))
          (Blames w)
  unfolding remove_file
  remove_file-Data p e = seq-Triple attempt-Data (
      bind_eq-Triple _
        (weaken-Triple (λ s h. h) (λ a s h. (h.0 ∙ e, h.1)) (gets_files-Data (get p)))
        (set_files-Data (delete_where (λ q _. q == p))))

module _ {C : Type 0} (env : Env C) (w : World) (db : Db) (files : Files) where
  pub read_json-Data :
      (key : ObjectKey) (name : String) {d : Fields}
      → get (file_path env key name) files ≡ some d
      → Triple {S = Store C}
          (Data w db files)
          (read_json env key name)
          (λ a s. (a ≡ d) × Data w db files s)
          (Blames w)
  unfolding read_json
  read_json-Data key name e = seq-Triple (attempt-Data w db files) (
      seq-Triple (attempt-Data w db files) (
        bind_eq-Triple _
          (weaken-Triple (λ s h. h) (λ a s h. (h.0 ∙ e, h.1))
            (gets_files-Data w db files (get (file_path env key name))))
          (pure-Data w db files _)))

module _ {C : Type 0} (env : Env C) (w : World) (db db' : Db) (files : Files) where
  -- A write of data, by the query that the row needs.
  pub store_changed_impl-Data :
      (key : ObjectKey) (version : ℕ) (file_name : Option String) (d : Fields)
      (changed existing : Bool)
      → let name = target_name env key existing file_name files in
        Triple
          (Data w db files)
          (write_row env key existing (changed_row env version name d changed))
          (λ _. Data w db' files)
          (Blames w)
        → Triple
            (Data w db files)
            (store_changed_impl env key version file_name d changed existing)
            (λ a s.
              (a ≡ notify_change key false changed)
              × Data w db' (write_file env (file_path env key name) d files) s)
            (Blames w)
  unfolding store_changed_impl
  store_changed_impl-Data key version file_name d changed existing write =
      seq-Triple (attempt-Data w db files) (
        bind_eq-Triple _ (gets_files-Data w db files (target_name env key existing file_name)) (
          seq-Triple (attempt-Data w db files) (
            seq-Triple (attempt-Data w db files) (
              seq-Triple write (
                seq-Triple (attempt-Data w db' files) (
                  seq-Triple (set_files-Data w db' files _)
                    (seq-Triple (on_emitter-Data w db' _ _) (pure-Data w db' _ _))))))))
