-- ===== src/SyncController/Actions.antt =====
-- Each case of the switch in syncChange does what the rules of modeling/exchange.txt say.
use qt_data_sync.Common.{
  ℕ, ◌+◌, ◌<◌, ◌^◌, Bool, true, false, not, String, Option, none, some, ◌≡◌, ◌≢◌, refl, sym, ◌⊎◌,
  inl, inr, Bool-cases, if◌then◌else◌, ltb,
}
use qt_data_sync.Common.Equality.{◌==◌, nat_eq, ==_iff}
use qt_data_sync.Table.{get}
use qt_data_sync.Json.{Bytes, Fields, json_hash, is_empty}
use qt_data_sync.Environment.{
  key_eq, path_eq, Files, Env, IsLawful, SyncPolicy, prefer_changed, prefer_deleted, next_version,
  next_version-eq,
}
use qt_data_sync.Exec.{pure, throw}
use qt_data_sync.Exec.Triple.{
  Triple, seq-Triple, bind_eq-Triple, bind-Triple, pure-Triple, throw-Triple, fact-Triple,
}
use qt_data_sync.LocalStore.State.{Row, Db, Store, resolver_failed, file_path}
use qt_data_sync.LocalStore.Sync.{
  Scope, ChangeType, exists, exists_deleted, no_exists, ChangeInfo, store_changed,
}
use qt_data_sync.LocalStore.Coherent.{Entry, present, Rows, view}
use qt_data_sync.LocalStore.Writes.{row_at, doc_at, Sound}
use qt_data_sync.LocalStore.Effects.{World, Data, Blames, read_json-Data}
use qt_data_sync.LocalStore.Outcomes.{
  Became, impl_existing, impl_missing, update_version-Became, mark_unchanged-Became,
  store_deleted_existing,
}
use qt_data_sync.SyncController.{Remote, deleted, changed, act, settle, resolve, resolve_with}
use qt_data_sync.SyncController.Policy.{choose, ask, choose_data}

pub SyncPolicy-cases : (p : SyncPolicy) → (p ≡ prefer_changed) ⊎ (p ≡ prefer_deleted)
SyncPolicy-cases prefer_changed = inl refl
SyncPolicy-cases prefer_deleted = inr refl

-- The version of a change.
abbrev pub remote_version : Remote → ℕ
remote_version (deleted v) = v
remote_version (changed v d) = v

module _ {C : Type 0} (env : Env C) (w : World) (law : IsLawful env) (scope : Scope) (db : Db)
    (files : Files) (h : Sound env db files) where
  -- The entry of the scope's key is what the rules give, if they give one.
  abbrev pub Chosen : Option Entry → Scope → Store C → Type 0
  Chosen none a s = ⊥
  Chosen (some e) a s = Became env w scope.key e db files s

  pub stays :
      (e : Entry)
      → view env (row_at db) (doc_at files) scope.key ≡ e
      → (s : Store C) → Data w db files s
      → Became env w scope.key e db files s
  stays e v s q = (
    rw (q.0, q.1)
        (record {
          unique = h.unique;
          sets = record { coherent = h.coherent; here = v; others = λ j _. refl };
        }),
    q.2,
  )

  pub write_new :
      (v : ℕ) (name : Option String) (d : Fields) (c : Bool)
      → get scope.key db.index ≡ none
      → Triple
          (Data w db files)
          (store_changed env scope v name d c no_exists)
          (Chosen (some (present v d c)))
          (Blames w)
  unfolding store_changed
  write_new v name d c e =
      bind-Triple _ _ (impl_missing env w scope.key db files h law v name d c e)
        (λ a. pure-Triple _ (λ s x. x))

  module _ (r : Row) (e : get scope.key db.index ≡ some r) where
    -- A write of data over a row.
    pub write_over :
        (v : ℕ) (name : Option String) (d : Fields) (c : Bool) (state : ChangeType)
        → name ≡ r.file
        → state ≢ no_exists
        → Triple
            (Data w db files)
            (store_changed env scope v name d c state)
            (Chosen (some (present v d c)))
            (Blames w)
    unfolding store_changed
    write_over v name d c exists n ne = rw n (
        bind-Triple _ _ (impl_existing env w scope.key db files h law r v d c e)
          (λ a. pure-Triple _ (λ s x. x)))
    write_over v name d c exists_deleted n ne = rw n (
        bind-Triple _ _ (impl_existing env w scope.key db files h law r v d c e)
          (λ a. pure-Triple _ (λ s x. x)))
    write_over v name d c no_exists n ne = absurd (ne refl)

    -- The row holds data.
    module _ (n : String) (f : r.file ≡ some n) (d1 : Fields)
        (there : get (file_path env scope.key n) files ≡ some d1) where
      abbrev pub info : ChangeInfo
      info = record {
        state = exists;
        version = r.version;
        file_name = some n;
        checksum = some (json_hash env.text d1);
      }

      here : view env (row_at db) (doc_at files) scope.key ≡ present r.version d1 r.changed
      unfolding view
      here = rw (e, f, there)

      retag :
          (v : ℕ) (c : Bool) (rows : Rows)
          → rows scope.key ≡ some (record r { version = v; changed = c })
          → view env rows (doc_at files) scope.key ≡ present v d1 c
      unfolding view
      retag v c rows g = rw (g, f, there)

      next_here :
          (v : ℕ)
          → v + 1 < 2 ^ 64
          → (r.version == v) ≡ true
          → next_version r.version ≡ r.version + 1
      next_here v small same = rw ((==_iff r.version v).0 same) (next_version-eq v small)

      deleted_same :
          (v : ℕ)
          → v + 1 < 2 ^ 64
          → ltb r.version v ≡ false
          → (r.version == v) ≡ true
          → Triple
              (Data w db files)
              (act env scope info exists (deleted v))
              (Chosen (choose env scope.key.type_name (present r.version d1 r.changed) (deleted v)))
              (Blames w)
      unfolding act choose
      deleted_same v small not_newer same = elim (SyncPolicy-cases env.conflict_policy) [
        | inl p ↦
            simp (not_newer, same, p, next_here v small same)
              (update_version-Became env w scope.key db files h scope r r.version (r.version + 1)
                true _ refl e refl (retag (r.version + 1) true))
        | inr p ↦
            simp (not_newer, same, p, next_version-eq v small)
              (store_deleted_existing env w scope.key db files h scope r n d1 (v + 1) true refl e f
                there)
      ]

      pub deleted-exists :
          (v : ℕ)
          → v + 1 < 2 ^ 64
          → Triple
              (Data w db files)
              (act env scope info exists (deleted v))
              (Chosen (choose env scope.key.type_name (present r.version d1 r.changed) (deleted v)))
              (Blames w)
      unfolding act choose
      deleted-exists v small = elim (Bool-cases (ltb r.version v)) [
        | inl newer ↦ rw newer (
            store_deleted_existing env w scope.key db files h scope r n d1 v
              (not env.persist_deleted) refl e f there)
        | inr not_newer ↦ elim (Bool-cases (r.version == v)) [
          | inl same ↦ deleted_same v small not_newer same
          | inr other ↦ rw (not_newer, other) (pure-Triple _ (stays _ here))
        ]
      ]

      resolved :
          (d2 : Fields) (g : Option (Bytes → Fields → Fields → Option Fields))
          → (ask g scope.key.type_name d1 d2 ≡ none → w.blame)
          → Triple
              (Data w db files)
              (resolve_with env g scope.key (some n) d2)
              (λ a s. (ask g scope.key.type_name d1 d2 ≡ some a) × Data w db files s)
              (Blames w)
      unfolding resolve_with
      resolved d2 none bl = pure-Triple none (λ s x. (refl, x))
      resolved d2 (some g) bl =
          bind_eq-Triple _ (read_json-Data env w db files scope.key n there)
            (answered (g scope.key.type_name d1 d2) refl)
        where
          answered :
              (o : Option Fields)
              → g scope.key.type_name d1 d2 ≡ o
              → Triple
                  (Data {C = C} w db files)
                  (elim (g scope.key.type_name d1 d2) [
                    | none ↦ throw resolver_failed
                    | some r ↦ pure (if is_empty r then none else some r)
                  ])
                  (λ a s.
                    (ask (some g) scope.key.type_name d1 d2 ≡ some a) × Data {C = C} w db files s)
                  (Blames {C = C} w)
          answered none o = rw o (throw-Triple resolver_failed (λ s x _. bl (rw o)))
          answered (some m) o = rw o (pure-Triple _ (λ s x. (refl, x)))

      settled :
          (v : ℕ) (d2 : Fields)
          → v + 1 < 2 ^ 64
          → (r.version == v) ≡ true
          → (a : Option Fields)
          → Triple
              (Data w db files)
              (settle env scope info v d2 a)
              (Chosen (choose_data env scope.key.type_name r.version d1 d2 (some a)))
              (Blames w)
      unfolding settle choose_data
      settled v d2 small same (some merged) =
          rw (next_here v small same)
            (write_over (r.version + 1) (some n) merged true exists (sym f) (λ q. cc))
      settled v d2 small same none =
          elim (Bool-cases (ltb (json_hash env.text d2) (json_hash env.text d1))) [
            | inl less ↦
                simp (less, next_here v small same)
                  (update_version-Became env w scope.key db files h scope r r.version
                    (r.version + 1) true _ refl e refl (retag (r.version + 1) true))
            | inr more ↦
                simp (more, next_version-eq v small, (==_iff r.version v).0 same)
                  (write_over (v + 1) (some n) d2 true exists (sym f) (λ q. cc))
          ]

      changed_same :
          (v : ℕ) (d2 : Fields)
          → v + 1 < 2 ^ 64
          → ltb r.version v ≡ false
          → (r.version == v) ≡ true
          → (choose env scope.key.type_name (present r.version d1 r.changed) (changed v d2) ≡ none
              → w.blame)
          → Triple
              (Data w db files)
              (act env scope info exists (changed v d2))
              (Chosen
                (choose env scope.key.type_name (present r.version d1 r.changed) (changed v d2)))
              (Blames w)
      unfolding act choose resolve
      changed_same v d2 small not_newer same bl =
          elim (Bool-cases (json_hash env.text d1 == json_hash env.text d2)) [
            | inl equal ↦
                simp (not_newer, same, equal)
                  (seq-Triple
                    (mark_unchanged-Became env w scope.key db files h r r.version _ e refl
                      (retag r.version false))
                    (pure-Triple _ (λ s x. x)))
            | inr differ ↦
                simp (not_newer, same, differ)
                  (bind-Triple _ _
                    (resolved d2 env.conflict_resolver
                      (λ q. bl (simp (not_newer, same, differ, q))))
                    (λ a. fact-Triple (λ q. rw q (settled v d2 small same a))))
          ]

      pub changed-exists :
          (v : ℕ) (d2 : Fields)
          → v + 1 < 2 ^ 64
          → (choose env scope.key.type_name (present r.version d1 r.changed) (changed v d2) ≡ none
              → w.blame)
          → Triple
              (Data w db files)
              (act env scope info exists (changed v d2))
              (Chosen
                (choose env scope.key.type_name (present r.version d1 r.changed) (changed v d2)))
              (Blames w)
      unfolding act choose
      changed-exists v d2 small bl = elim (Bool-cases (ltb r.version v)) [
        | inl newer ↦ rw newer (write_over v (some n) d2 false exists (sym f) (λ q. cc))
        | inr not_newer ↦ elim (Bool-cases (r.version == v)) [
          | inl same ↦ changed_same v d2 small not_newer same bl
          | inr other ↦ rw (not_newer, other) (pure-Triple _ (stays _ here))
        ]
      ]
