-- ===== src/SyncController/Absence.antt =====
-- The cases of the switch in syncChange for a key without data follow modeling/exchange.txt.
use qt_data_sync.Common.{
  ℕ, ◌+◌, ◌<◌, ◌^◌, Bool, true, false, none, some, ◌≡◌, refl, sym, inl, inr, Bool-cases, ltb,
}
use qt_data_sync.Common.Equality.{◌==◌, nat_eq, ==_iff}
use qt_data_sync.Table.{get}
use qt_data_sync.Json.{Fields}
use qt_data_sync.Environment.{key_eq, path_eq, Files, Env, IsLawful, next_version, next_version-eq}
use qt_data_sync.Exec.Triple.{Triple, seq-Triple, pure-Triple}
use qt_data_sync.LocalStore.State.{Row, Db}
use qt_data_sync.LocalStore.Sync.{Scope, ChangeType, exists_deleted, no_exists, ChangeInfo}
use qt_data_sync.LocalStore.Coherent.{Entry, absent, tombstone, Rows, view}
use qt_data_sync.LocalStore.Writes.{row_at, doc_at, Sound}
use qt_data_sync.LocalStore.Effects.{World, Data, Blames}
use qt_data_sync.LocalStore.Outcomes.{
  update_version-Became, mark_unchanged_removes, store_deleted_missing,
}
use qt_data_sync.SyncController.{Remote, deleted, changed, act}
use qt_data_sync.SyncController.Policy.{choose}
use qt_data_sync.SyncController.Actions.{SyncPolicy-cases, Chosen, stays, write_new, write_over}

module _ {C : Type 0} (env : Env C) (w : World) (law : IsLawful env) (scope : Scope) (db : Db)
    (files : Files) (h : Sound env db files) where
  abbrev Goal : Entry → Remote → ChangeInfo → ChangeType → Type 0
  Goal e remote info state =
      Triple (Data w db files) (act env scope info state remote)
        (Chosen env w law scope db files h (choose env scope.key.type_name e remote)) (Blames w)

  -- There is no row.
  module _ (e : get scope.key db.index ≡ none) where
    absent_view : view env (row_at db) (doc_at files) scope.key ≡ absent
    unfolding view
    absent_view = rw e

    pub remote-absent :
        (remote : Remote)
        → Goal absent remote
            (record { state = no_exists; version = 0; file_name = none; checksum = none })
            no_exists
    unfolding act choose
    remote-absent (deleted v) = elim (Bool-cases env.persist_deleted) [
      | inl p ↦ simp p (store_deleted_missing env w scope.key db files h scope v false refl e)
      | inr p ↦ simp p (pure-Triple _ (stays env w law scope db files h _ absent_view))
    ]
    remote-absent (changed v d) = write_new env w law scope db files h v none d false e

  -- The row holds no data.
  module _ (r : Row) (e : get scope.key db.index ≡ some r) (f : r.file ≡ none) where
    abbrev tombstone_info : ChangeInfo
    tombstone_info = record {
      state = exists_deleted;
      version = r.version;
      file_name = none;
      checksum = none;
    }

    here : view env (row_at db) (doc_at files) scope.key ≡ tombstone r.version r.changed
    unfolding view
    here = rw (e, f)

    retag :
        (v : ℕ) (c : Bool) (rows : Rows)
        → rows scope.key ≡ some (record r { version = v; changed = c })
        → view env rows (doc_at files) scope.key ≡ tombstone v c
    unfolding view
    retag v c rows g = rw (g, f)

    pub deleted-tombstone :
        (v : ℕ) → Goal (tombstone r.version r.changed) (deleted v) tombstone_info exists_deleted
    unfolding act choose
    deleted-tombstone v = elim (Bool-cases (ltb v r.version)) [
      | inl older ↦ simp older (pure-Triple _ (stays env w law scope db files h _ here))
      | inr not_older ↦ elim (Bool-cases env.persist_deleted) [
        | inl p ↦
            simp (not_older, p)
              (update_version-Became env w scope.key db files h scope r r.version v false _ refl e
                refl (retag v false))
        | inr p ↦
            simp (not_older, p)
              (seq-Triple (mark_unchanged_removes env w scope.key db files h r r.version p e refl f)
                (pure-Triple _ (λ s x. x)))
      ]
    ]

    next_here :
        (v : ℕ) → v + 1 < 2 ^ 64 → (r.version == v) ≡ true → next_version r.version ≡ r.version + 1
    next_here v small same = rw ((==_iff r.version v).0 same) (next_version-eq v small)

    pub changed-tombstone :
        (v : ℕ) (d : Fields)
        → v + 1 < 2 ^ 64
        → Goal (tombstone r.version r.changed) (changed v d) tombstone_info exists_deleted
    unfolding act choose
    changed-tombstone v d small = elim (Bool-cases (ltb r.version v)) [
      | inl newer ↦ simp newer (
          write_over env w law scope db files h r e v none d false exists_deleted (sym f) (λ q. cc))
      | inr not_newer ↦ elim (Bool-cases (r.version == v)) [
        | inl same ↦ elim (SyncPolicy-cases env.conflict_policy) [
          | inl p ↦
              simp (not_newer, same, p, next_version-eq v small)
                (write_over env w law scope db files h r e (v + 1) none d true exists_deleted
                  (sym f) (λ q. cc))
          | inr p ↦
              simp (not_newer, same, p, next_here v small same)
                (update_version-Became env w scope.key db files h scope r r.version (r.version + 1)
                  true _ refl e refl (retag (r.version + 1) true))
        ]
        | inr other ↦
            simp (not_newer, other) (pure-Triple _ (stays env w law scope db files h _ here))
      ]
    ]
