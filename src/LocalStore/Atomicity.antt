-- ===== src/LocalStore/Atomicity.antt =====
-- A method that throws leaves the tables as it found them: whatever step fails, the rollback
-- restores what the transaction began with.
use qt_data_sync.Common.{ℕ, Bool, true, false, String, ◌∷◌, Option, none, some, ◌≡◌, refl, arith}
use qt_data_sync.Json.{Bytes, Fields}
use qt_data_sync.Environment.{ObjectKey, FilePath, Env}
use qt_data_sync.Exec.{pure, throw, modify, ◌>>=◌, ◌>>◌, try_catch}
use qt_data_sync.Exec.Triple.{
  Triple, Post, Keeps, bind-Triple, seq-Triple, pure-Triple, modify-Triple, modify-Keeps,
  throw-Triple, catch-Triple, weaken-Triple, bind-Keeps, seq-Keeps, gets-Keeps, pure-Keeps,
  throw-Keeps,
}
use qt_data_sync.Emitter.{Emitter}
use qt_data_sync.LocalStore.State.{
  Row, Db, Store, Failure, local_store, Method, attempt, exec, query, begin_transaction, commit,
  rollback, on_emitter, remove_file,
}
use qt_data_sync.LocalStore.Sync.{write_deleted}
use qt_data_sync.LocalStore.Access.{
  save, remove, clear, reset, store_changed_impl, write_row, update_row, insert_row, remove_stored,
  reset_tables, ignore_failure,
}

module _ {C : Type 0} (db : Db) where
  -- A transaction is open that a rollback takes back to `db`.
  abbrev pub Saved : Store C → Type 0
  Saved s = s.saved ≡ some db

  -- The method keeps the transaction open, or ends it, and throws only while it is open.
  abbrev pub Safe : {A : Type 0} → Method C A → Type 0
  Safe m = Triple Saved m (λ _ _. Unit {0}) (λ _. Saved)

  -- What follows a commit does not throw.
  abbrev pub Quiet : {A : Type 0} → Method C A → Type 0
  Quiet m = Triple (λ _. Unit {0}) m (λ _ _. Unit {0}) (λ _. Saved)

module _ {C : Type 0} {db : Db} where
  pub attempt-Keeps : Keeps (Saved {C = C} db) attempt
  unfolding attempt
  attempt-Keeps = record { at = λ s h. ground arith }

  pub files-Keeps :
      (f : Store C → Store C)
      → ((s : Store C) → (f s).saved ≡ s.saved)
      → Keeps {E = Failure} (Saved db) (modify f)
  files-Keeps f e = modify-Keeps f (λ s h. rw (e s) h)

  pub exec-Keeps : (f : Db → Db) → Keeps (Saved {C = C} db) (exec f)
  unfolding exec
  exec-Keeps f = seq-Keeps attempt _ attempt-Keeps (files-Keeps _ (λ s. refl))

  pub query-Keeps : {A : Type 0} (f : Db → A) → Keeps (Saved {C = C} db) (query f)
  unfolding query
  query-Keeps f = seq-Keeps attempt _ attempt-Keeps (gets-Keeps _)

  pub on_emitter-Keeps : (f : Emitter C → Emitter C) → Keeps (Saved db) (on_emitter f)
  unfolding on_emitter
  on_emitter-Keeps f = files-Keeps _ (λ s. refl)

  pub option-Keeps :
      {A B : Type 0} (o : Option A) (m : Method C B) (f : A → Method C B)
      → Keeps (Saved db) m
      → ((a : A) → Keeps (Saved db) (f a))
      → Keeps (Saved db) (elim o [ none ↦ m | some a ↦ f a ])
  option-Keeps none m f hm hf = hm
  option-Keeps (some a) m f hm hf = hf a

  pub remove_file-Keeps : (p : FilePath) → Keeps (Saved {C = C} db) (remove_file p)
  unfolding remove_file
  remove_file-Keeps p = seq-Keeps attempt _ attempt-Keeps (
      bind-Keeps _ _ (gets-Keeps _)
        (λ o. option-Keeps o _ _ (throw-Keeps _) (λ d. files-Keeps _ (λ s. refl))))

  pub commit-Safe : Safe {C = C} db commit
  unfolding commit attempt ◌>>◌ ◌>>=◌ modify
  commit-Safe = record { at = λ s h. ground arith }

  pub keeps→safe : {A : Type 0} {m : Method C A} → Keeps (Saved db) m → Safe db m
  keeps→safe h = weaken-Triple (λ s x. x) (λ a s x. tt) h

  pub bind-Safe :
      {A B : Type 0} (m : Method C A) (f : A → Method C B)
      → Keeps (Saved db) m
      → ((a : A) → Safe db (f a))
      → Safe db (m >>= f)
  bind-Safe m f hm hf = bind-Triple m f hm hf

  pub seq-Safe :
      {A B : Type 0} (m : Method C A) (k : Method C B)
      → Keeps (Saved db) m
      → Safe db k
      → Safe db (m >> k)
  seq-Safe m k hm hk = seq-Triple hm hk

  pub end-Safe :
      {A B : Type 0} (m : Method C A) (k : Method C B) → Safe db m → Quiet db k → Safe db (m >> k)
  end-Safe m k hm hk = seq-Triple hm hk

  pub on_emitter-Quiet : (f : Emitter C → Emitter C) → Quiet db (on_emitter f)
  unfolding on_emitter
  on_emitter-Quiet f = modify-Triple _ (λ s h. tt)

  pub pure-Quiet : {A : Type 0} (a : A) → Quiet {C = C} db (pure a)
  pure-Quiet a = pure-Triple a (λ s h. tt)

  pub seq-Quiet :
      {A B : Type 0} (m : Method C A) (k : Method C B) → Quiet db m → Quiet db k → Quiet db (m >> k)
  seq-Quiet m k hm hk = seq-Triple hm hk

  pub ignore-Keeps :
      (env : Env C) (m : Method C (Unit {0}))
      → Keeps (Saved db) m
      → Keeps (Saved db) (ignore_failure env m)
  ignore-Keeps env m h = catch-Triple m _ h (λ e. pure-Keeps tt)

module _ {C : Type 0} where
  -- The tables are those of `s` if the method throws.
  abbrev pub Restores : {A : Type 0} → Method C A → Store C → Type 0
  Restores m s = Post (λ _ _. Unit {0}) (λ _ t. t.db ≡ s.db) (m s)

  pub rollback-Restores :
      {A : Type 0} {db : Db} (e : Failure)
      → Triple
          (Saved {C = C} db)
          (do rollback; throw {A = A} e)
          (λ _ _. Unit {0})
          (λ _ t. t.db ≡ db)
  unfolding rollback
  rollback-Restores e =
      seq-Triple (modify-Triple _ {Q = λ _ t. t.db ≡ _} (λ s h. ground arith))
        (throw-Triple e (λ s h. h))

  begin-Saved :
      (s : Store C) → Triple (λ t. t ≡ s) begin_transaction (λ _. Saved s.db) (λ _ t. t.db ≡ s.db)
  unfolding begin_transaction attempt ◌>>◌ ◌>>=◌ modify
  begin-Saved s = record { at = λ t h. ground arith }

  dropping-Restores :
      {A : Type 0} {db : Db} (f : Emitter C → Emitter C) (e : Failure)
      → Triple
          (Saved {C = C} db)
          (do on_emitter f; rollback; throw {A = A} e)
          (λ _ _. Unit {0})
          (λ _ t. t.db ≡ db)
  unfolding on_emitter
  dropping-Restores f e =
      seq-Triple (modify-Triple _ {Q = λ _. Saved _} (λ s h. h)) (rollback-Restores e)

  -- The shape of every writing method.
  pub transaction-Restores :
      {A : Type 0} (body : Method C A) (handler : Failure → Method C A)
      → ((db : Db) → Safe db body)
      → ((db : Db) (e : Failure)
          → Triple (Saved {C = C} db) (handler e) (λ _ _. Unit {0}) (λ _ t. t.db ≡ db))
      → (s : Store C) → Restores (do begin_transaction; try_catch body handler) s
  transaction-Restores body handler safe back s =
      (seq-Triple (begin-Saved s) (catch-Triple body handler (safe s.db) (back s.db))).at s refl

module _ {C : Type 0} (env : Env C) {db : Db} where
  pub write_row-Keeps :
      (key : ObjectKey) (existing : Bool) (r : Row)
      → Keeps (Saved {C = C} db) (write_row env key existing r)
  unfolding update_row insert_row
  write_row-Keeps key true r = exec-Keeps _
  write_row-Keeps key false r =
      seq-Keeps attempt _ attempt-Keeps (bind-Keeps _ _ (gets-Keeps _) (λ o. option-Keeps' o))
    where
      option-Keeps' :
          (o : Option Row)
          → Keeps {E = Failure} {A = Unit {0}} (Saved {C = C} db) (elim o [
            | some old ↦ throw local_store
            | none ↦ modify (λ s. record s { db = record s.db { index = (key, r) ∷ s.db.index } })
          ])
      option-Keeps' none = files-Keeps _ (λ s. refl)
      option-Keeps' (some old) = throw-Keeps _

  pub write_deleted-Keeps :
      (key : ObjectKey) (existing : Bool) (r : Row)
      → Keeps (Saved {C = C} db) (write_deleted key existing r)
  write_deleted-Keeps key true r = write_row-Keeps key true r
  write_deleted-Keeps key false r = write_row-Keeps key false r

  pub store_changed_impl-Keeps :
      (key : ObjectKey) (v : ℕ) (name : Option String) (d : Fields) (changed existing : Bool)
      → Keeps (Saved db) (store_changed_impl env key v name d changed existing)
  unfolding store_changed_impl
  store_changed_impl-Keeps key v name d changed existing = seq-Keeps attempt _ attempt-Keeps (
      bind-Keeps _ _ (gets-Keeps _) (λ n. seq-Keeps attempt _ attempt-Keeps (
        seq-Keeps attempt _ attempt-Keeps (
          seq-Keeps _ _ (write_row-Keeps key existing _) (
            seq-Keeps attempt _ attempt-Keeps (
              seq-Keeps _ _ (files-Keeps _ (λ s. refl))
                (seq-Keeps _ _ (on_emitter-Keeps _) (pure-Keeps _))))))))

  remove_stored-Safe :
      (key : ObjectKey) (found : Option Row) → Safe db (remove_stored env key found)
  unfolding remove_stored update_row
  remove_stored-Safe key none = end-Safe commit _ commit-Safe (pure-Quiet _)
  remove_stored-Safe key (some r) = with_file r.file
    where
      with_file :
          (o : Option String) → Safe db (remove_stored env key (some (record r { file = o })))
      with_file none = end-Safe commit _ commit-Safe (pure-Quiet _)
      with_file (some name) = seq-Safe _ _ (exec-Keeps _) (
          seq-Safe attempt _ attempt-Keeps (
            seq-Safe _ _ (remove_file-Keeps _) (
              end-Safe commit _ commit-Safe (
                seq-Quiet _ _ (on_emitter-Quiet _)
                  (seq-Quiet _ _ (on_emitter-Quiet _) (pure-Quiet _))))))

  reset_tables-Keeps : (keep : Bool) → Keeps (Saved {C = C} db) (reset_tables env keep)
  reset_tables-Keeps true = seq-Keeps _ _ (exec-Keeps _) (exec-Keeps _)
  reset_tables-Keeps false = seq-Keeps _ _ (exec-Keeps _) (
      seq-Keeps attempt _ attempt-Keeps
        (ignore-Keeps env _ (seq-Keeps attempt _ attempt-Keeps (files-Keeps _ (λ s. refl)))))

module _ {C : Type 0} (env : Env C) where
  -- A save that throws leaves both tables as they were.
  save-Restores : (key : ObjectKey) (d : Fields) → (s : Store C) → Restores (save env key d) s
  unfolding save
  save-Restores key d =
      transaction-Restores _ _
        (λ db. bind-Safe _ _ (query-Keeps _) (λ found.
          bind-Safe _ _ (store_changed_impl-Keeps env key _ _ d true _)
            (λ after. end-Safe commit _ commit-Safe (on_emitter-Quiet _))))
        (λ db e. dropping-Restores _ e)

  -- A remove that throws leaves both tables as they were.
  remove-Restores : (key : ObjectKey) → (s : Store C) → Restores (remove env key) s
  unfolding remove
  remove-Restores key =
      transaction-Restores _ _ (λ db. bind-Safe _ _ (query-Keeps _) (remove_stored-Safe env key))
        (λ db e. rollback-Restores e)

  -- A clear that throws leaves both tables as they were.
  clear-Restores : (t : Bytes) → (s : Store C) → Restores (clear env t) s
  unfolding clear
  clear-Restores t =
      transaction-Restores _ _
        (λ db. bind-Safe _ _ (query-Keeps _) (λ cleared. seq-Safe _ _ (exec-Keeps _) (
          seq-Safe attempt _ attempt-Keeps (
            seq-Safe _ _
              (ignore-Keeps env _ (seq-Keeps attempt _ attempt-Keeps (files-Keeps _ (λ s. refl))))
              (end-Safe commit _ commit-Safe
                (seq-Quiet _ _ (on_emitter-Quiet _) (on_emitter-Quiet _)))))))
        (λ db e. rollback-Restores e)

  -- A reset that throws, with or without keeping the data, leaves both tables as they were.
  reset-Restores : (keep : Bool) → (s : Store C) → Restores (reset env keep) s
  unfolding reset
  reset-Restores keep =
      transaction-Restores _ _
        (λ db.
          seq-Safe _ _ (reset_tables-Keeps env keep)
            (end-Safe commit _ commit-Safe (on_emitter-Quiet _)))
        (λ db e. rollback-Restores e)

  -- A save, a remove, a clear or a reset, with or without keeping the data, that throws leaves both tables as they were.
  pub data_methods-Restores :
      (key : ObjectKey) (d : Fields) (keep : Bool) (s : Store C)
      → Restores (save env key d) s
        × Restores (remove env key) s
        × Restores (clear env key.type_name) s
        × Restores (reset env keep) s
  data_methods-Restores key d keep s = (
    save-Restores key d s,
    remove-Restores key s,
    clear-Restores key.type_name s,
    reset-Restores keep s,
  )
