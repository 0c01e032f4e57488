-- ===== src/LocalStore/Removing.antt =====
-- LocalStore::remove and load on the entry of their key.
use qt_data_sync.Common.{
  Bool, true, false, [], Option, none, some, ◌≡◌, refl, Option-cases, inl, inr,
}
use qt_data_sync.Table.{get}
use qt_data_sync.Environment.{ObjectKey, key_eq, path_eq, Files, Env, next_version}
use qt_data_sync.Exec.{ok, ◌>>◌, throw, pure}
use qt_data_sync.Exec.Triple.{
  Triple, seq-Triple, bind_eq-Triple, pure-Triple, throw-Triple, modify-Triple, catch-Triple,
}
use qt_data_sync.LocalStore.State.{Row, Db, Store, Failure, commit, rollback, file_path}
use qt_data_sync.LocalStore.Access.{remove, remove_stored, update_row}
use qt_data_sync.LocalStore.Coherent.{Entry, absent, tombstone, present, broken, view}
use qt_data_sync.LocalStore.Writes.{Sound, entry, Becomes, update_deleted}
use qt_data_sync.LocalStore.Effects.{
  World, Data, Blames, attempt-Data, exec-Data, begin-Data, commit-Data, on_emitter-Data,
  query_eq-Data, remove_file-Data,
}
use qt_data_sync.LocalStore.Saving.{returned, returns}

-- The entry after a removal, and whether there was data to remove.
abbrev pub removed : Entry → Entry × Bool
removed absent = (absent, false)
removed (tombstone v c) = (tombstone v c, false)
removed (present v d c) = (tombstone (next_version v) true, true)
removed broken = (broken, false)

module _ {C : Type 0} (env : Env C) (key : ObjectKey) (db : Db) (files : Files)
    (h : Sound env db files) where
  abbrev pub Removed : Entry → Bool → Store C → Type 0
  Removed e b s = (b ≡ (removed e).1) × Becomes env key (removed e).0 db files s.db s.files

  unchanged :
      (e : Entry) (s : Store C)
      → entry env db files key ≡ e
      → s.db ≡ db
      → s.files ≡ files
      → Becomes env key e db files s.db s.files
  unchanged e s v p q =
      rw (p, q)
        (record {
          unique = h.unique;
          sets = record { coherent = h.coherent; here = v; others = λ j _. refl };
        })

  module _ (w : World) where
    nothing_stored :
        (e : Entry)
        → entry env db files key ≡ e
        → removed e ≡ (e, false)
        → Triple (Data w db files) (do commit; pure false) (Removed e) (Blames w)
    nothing_stored e v r =
        seq-Triple (commit-Data w db files)
          (pure-Triple false (λ s p. rw r (refl, unchanged e s v p.0 p.1)))

    removes_stored :
        (o : Option Row)
        → get key db.index ≡ o
        → Triple
            (Data w db files)
            (remove_stored env key o)
            (Removed (entry env db files key))
            (Blames w)
    unfolding remove_stored view update_row
    removes_stored none e = rw e (nothing_stored absent (rw e refl) refl)
    removes_stored (some r) e = elim (Option-cases r.file) [
      | inl f ↦ rw (e, f) (nothing_stored (tombstone r.version r.changed) (rw (e, f) refl) refl)
      | inr (n, f) ↦
          let (d, there, sum) = h.coherent.matched key r n e f in
          rw (e, f, there)
            (seq-Triple (exec-Data w db files _) (
              seq-Triple (attempt-Data w _ files) (
                seq-Triple (remove_file-Data w _ files (file_path env key n) there) (
                  seq-Triple (commit-Data w _ _) (
                    seq-Triple (on_emitter-Data w _ _ _) (
                      seq-Triple (on_emitter-Data w _ _ _) (
                        pure-Triple true (λ s p. (
                          refl,
                          rw (p.0, p.1)
                              (update_deleted env key db files h r n (next_version r.version) true e
                                f),
                        )))))))))
    ]

    back :
        (e : Failure)
        → Triple {A = Bool}
            (Blames w e)
            (do rollback; throw e)
            (Removed (entry env db files key))
            (Blames w)
    unfolding rollback
    back e = seq-Triple {R = Blames w e} (modify-Triple _ (λ s x. x)) (throw-Triple e (λ s x. x))

    pub remove-Triple :
        Triple (Data w db files) (remove env key) (Removed (entry env db files key)) (Blames w)
    unfolding remove
    remove-Triple = seq-Triple (begin-Data w db files) (
        catch-Triple _ _
          (bind_eq-Triple _ (query_eq-Data w db files (λ x. get key x.index) refl)
            (removes_stored (get key db.index) refl))
          back)

module _ {C : Type 0} (env : Env C) (key : ObjectKey) (s : Store C)
    (h : Sound env s.db s.files) where
  -- On sound tables and files, a remove that returns says whether there was data, has made a tombstone of it that has the next
  -- version and is marked for upload, and left the entries of all other keys; without data it has
  -- changed no entry.
  pub remove-follows :
      (found : Bool) (t : Store C)
      → remove env key s ≡ (ok found, t)
      → Removed env key s.db s.files h (entry env s.db s.files key) found t
  remove-follows found t run =
      returned (remove env key) s _ (remove-Triple env key s.db s.files h) found t run

  -- On sound tables and files, if nothing outside fails, a remove returns and says whether there was
  -- data. Where there was, the entry is a tombstone of the next version that is marked for upload;
  -- where there was none, it is as it was. All other entries are as they were.
  pub remove-returns :
      s.outcomes ≡ []
      → (found : Bool) × (t : Store C) × (remove env key s ≡ (ok found, t))
        × Removed env key s.db s.files h (entry env s.db s.files key) found t
  remove-returns o = returns (remove env key) s _ (remove-Triple env key s.db s.files h) o
