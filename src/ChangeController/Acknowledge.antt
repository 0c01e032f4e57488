-- ===== src/ChangeController/Acknowledge.antt =====
-- What uploadDone does to the store: only the version that was uploaded counts as synchronized.
use qt_data_sync.Common.{ℕ, ◌≡◌, refl, arith, Bool, false, not, Option, none, some, ◌&&◌}
use qt_data_sync.Common.Equality.{nat_eq}
use qt_data_sync.Table.{get, IsUnique}
use qt_data_sync.Table.Laws.{get-update_where, get-delete_where}
use qt_data_sync.Environment.{ObjectKey, key_eq, Env}
use qt_data_sync.Exec.{Result, ok, err, gets, ◌>>=◌}
use qt_data_sync.Exec.Triple.{
  Triple, Post, Keeps, pure-Keeps, gets-Keeps, bind-Keeps, seq-Keeps, modify-Keeps, catch-Triple,
  seq-Triple, pure-Triple, modify-Triple, if-Triple,
}
use qt_data_sync.LocalStore.State.{
  Row, Db, Store, Failure, Method, attempt, exec, delete_rows, update_rows,
}
use qt_data_sync.LocalStore.Sync.{at_version, mark_unchanged}
use qt_data_sync.LocalStore.Changes.{beside, in_store}
use qt_data_sync.ChangeController.{
  UploadKey, UploadInfo, upload_eq, controller_error, Uploads, emit, enqueue, complete,
  finish_upload, upload_done, set_uploads,
}

-- The row that an upload was of.
abbrev pub uploaded : Option UploadInfo → ObjectKey → Row → Bool
uploaded none k r = false
uploaded (some i) k r = at_version i.key i.version k r

module _ {C : Type 0} (k : ObjectKey) (r : Row) where
  abbrev Has : Uploads × Store C → Type 0
  Has v = get k v.1.db.index ≡ some r

  abbrev RowIn : Store C → Type 0
  RowIn s = IsUnique s.db.index × (get k s.db.index ≡ some r)

  set-Keeps : (f : Uploads → Uploads) → Keeps {E = Failure} Has (set_uploads f)
  set-Keeps f = modify-Keeps _ (λ v p. p)

  attempt-Row : Triple RowIn (attempt {C = C}) (λ _. RowIn) (λ _ s. get k s.db.index ≡ some r)
  unfolding attempt
  attempt-Row = record { at = λ s h. ground arith }

  exec-Triple :
      (f : Db → Db)
      → ((db : Db) → IsUnique db.index → get k db.index ≡ some r → get k (f db).index ≡ some r)
      → Triple RowIn (exec f) (λ _ s. get k s.db.index ≡ some r) (λ _ s. get k s.db.index ≡ some r)
  unfolding exec
  exec-Triple f h = seq-Triple {R = RowIn} attempt-Row (modify-Triple _ (λ s p. h s.db p.0 p.1))

  complete-Has : Keeps Has complete
  unfolding complete emit enqueue
  complete-Has = seq-Keeps _ _ (set-Keeps _) (
      seq-Keeps _ _ (set-Keeps _) (
        bind-Keeps _ _ (gets-Keeps _)
          (λ more. if-Triple more (λ _. set-Keeps _) (λ _. pure-Keeps tt))))

  emit-Has : Keeps Has (emit controller_error)
  unfolding emit
  emit-Has = set-Keeps _

  module _ (env : Env C) where
    not_deleted :
        (p : Row → Bool) (i : UploadInfo) (db : Db)
        → at_version i.key i.version k r ≡ false
        → IsUnique db.index
        → get k db.index ≡ some r
        → get k (delete_rows (λ j q. at_version i.key i.version j q && p q) db).index ≡ some r
    unfolding delete_rows
    not_deleted p i db other u e =
        rw (get-delete_where k (λ j q. at_version i.key i.version j q && p q) db.index u, e)
          (rw other refl)

    not_updated :
        (f : Row → Row) (i : UploadInfo) (db : Db)
        → at_version i.key i.version k r ≡ false
        → get k db.index ≡ some r
        → get k (update_rows (at_version i.key i.version) f db).index ≡ some r
    unfolding update_rows
    not_updated f i db other e =
        rw (get-update_where k (at_version i.key i.version) f db.index, e) (rw other refl)

    mark-Triple :
        (i : UploadInfo)
        → at_version i.key i.version k r ≡ false
        → Triple RowIn
            (mark_unchanged env i.key i.version i.is_delete)
            (λ _ s. get k s.db.index ≡ some r)
            (λ _ s. get k s.db.index ≡ some r)
    unfolding mark_unchanged
    mark-Triple i other =
        if-Triple (i.is_delete && not env.persist_deleted)
          (λ _. exec-Triple _ (λ db u e. not_deleted _ i db other u e))
          (λ _. exec-Triple _ (λ db u e. not_updated _ i db other e))

    beside-Post :
        (u : Uploads) (q : Result Failure Unit × Store C)
        → Post (λ _ s. get k s.db.index ≡ some r) (λ _ s. get k s.db.index ≡ some r) q
        → Post (λ _. Has) (λ _. Has) (beside u q)
    beside-Post u (ok a, s) p = p
    beside-Post u (err e, s) p = p

    in_store-Triple :
        (m : Method C Unit)
        → Triple RowIn m (λ _ s. get k s.db.index ≡ some r) (λ _ s. get k s.db.index ≡ some r)
        → Triple (λ v. RowIn v.1) (in_store {X = Uploads} m) (λ _. Has) (λ _. Has)
    unfolding in_store
    in_store-Triple m t = record { at = λ v p. beside-Post v.0 (m v.1) (t.at v.1 p) }

    finish-Triple :
        (key : UploadKey) (info : Option UploadInfo)
        → uploaded info k r ≡ false
        → Triple
            (λ v. RowIn v.1)
            (finish_upload env key info (λ i. mark_unchanged env i.key i.version i.is_delete))
            (λ _. Has)
            (λ _. Has)
    finish-Triple key none other = pure-Triple tt (λ v p. p.1)
    finish-Triple key (some i) other =
        catch-Triple _ _
          (seq-Triple {R = λ v. RowIn v.1} (modify-Triple _ (λ v p. p))
            (seq-Triple (in_store-Triple _ (mark-Triple i other)) complete-Has))
          (λ e. emit-Has)

    left : (q : Result Failure Unit × (Uploads × Store C)) → Post (λ _. Has) (λ _. Has) q → Has q.1
    left (ok a, v) p = p
    left (err e, v) p = p

    -- uploadDone of a hash leaves each row as it is that is not the object and the version that were
    -- being uploaded under this hash, whatever the store throws: a change made after the upload
    -- began stays marked. The index has one row for a key.
    pub upload_done-Newer :
        (hash : ℕ) (u : Uploads) (s : Store C)
        → IsUnique s.db.index
        → get k s.db.index ≡ some r
        → uploaded (get (record { hash = hash; device = none }) u.active) k r ≡ false
        → get k (upload_done env hash (u, s)).1.1.db.index ≡ some r
    unfolding upload_done ◌>>=◌ gets
    upload_done-Newer hash u s unique e other =
        left _ ((finish-Triple _ _ other).at (u, s) (unique, e))
