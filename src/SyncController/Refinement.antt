-- ===== src/SyncController/Refinement.antt =====
-- syncChange as a whole: a downloaded change makes of the local data what modeling/exchange.txt
-- says, and a failure leaves the tables as they were.
use qt_data_sync.Common.{
  [], ◌+◌, ◌<◌, ◌^◌, false, String, Option, none, some, ◌≡◌, refl, inl, inr, Option-cases,
}
use qt_data_sync.Common.Equality.{nat_eq}
use qt_data_sync.Table.{get}
use qt_data_sync.Json.{Fields, json_hash}
use qt_data_sync.Environment.{ObjectKey, key_eq, path_eq, Files, Env, IsLawful}
use qt_data_sync.Emitter.{Emitter}
use qt_data_sync.Exec.{Result, ok, err, throw, ◌>>◌}
use qt_data_sync.Exec.Triple.{
  Triple, seq-Triple, bind_eq-Triple, bind-Triple, weaken-Triple, modify-Triple, throw-Triple,
}
use qt_data_sync.LocalStore.State.{
  commit, rollback, on_emitter, nothing, Row, Db, Store, Failure, file_path,
}
use qt_data_sync.LocalStore.Sync.{Scope, exists, exists_deleted, ChangeInfo, info_of}
use qt_data_sync.LocalStore.Coherent.{Entry, tombstone, present, view}
use qt_data_sync.LocalStore.Writes.{Sound, entry, Becomes}
use qt_data_sync.LocalStore.Effects.{World, Data, Blames}
use qt_data_sync.LocalStore.Outcomes.{Became}
use qt_data_sync.SyncController.{Remote, deleted, changed, act}
use qt_data_sync.SyncController.Policy.{choose}
use qt_data_sync.SyncController.Actions.{Chosen, remote_version, deleted-exists, changed-exists}
use qt_data_sync.SyncController.Absence.{remote-absent, deleted-tombstone, changed-tombstone}
use qt_data_sync.SyncController.{sync_scope, sync_store}
use qt_data_sync.LocalStore.Sync.{in_scope, load_change_info, commit_sync}
use qt_data_sync.LocalStore.Effects.{begin-Data, commit-Data, on_emitter-Data, query_eq-Data}
use qt_data_sync.Exec.Triple.{Post, catch-Triple}

module _ {C : Type 0} (env : Env C) (w : World) (law : IsLawful env) (db : Db) (files : Files)
    (h : Sound env db files) where
  module _ (scope : Scope) where
    abbrev Follows : Entry → ChangeInfo → Remote → Type 0
    Follows e info remote =
        Triple (Data w db files) (act env scope info info.state remote)
          (Chosen env w law scope db files h (choose env scope.key.type_name e remote)) (Blames w)

    exists-Follows :
        (r : Row) (n : String) (d : Fields) (remote : Remote)
        → remote_version remote + 1 < 2 ^ 64
        → get scope.key db.index ≡ some r
        → r.file ≡ some n
        → get (file_path env scope.key n) files ≡ some d
        → (choose env scope.key.type_name (present r.version d r.changed) remote ≡ none → w.blame)
        → Follows
            (present r.version d r.changed)
            (record {
              state = exists;
              version = r.version;
              file_name = some n;
              checksum = some (json_hash env.text d);
            })
            remote
    exists-Follows r n d (deleted v) small e f there bl =
        deleted-exists env w law scope db files h r e n f d there v small
    exists-Follows r n d (changed v d2) small e f there bl =
        changed-exists env w law scope db files h r e n f d there v d2 small bl

    tombstone-Follows :
        (r : Row) (remote : Remote)
        → remote_version remote + 1 < 2 ^ 64
        → get scope.key db.index ≡ some r
        → r.file ≡ none
        → Follows
            (tombstone r.version r.changed)
            (record {
              state = exists_deleted;
              version = r.version;
              file_name = none;
              checksum = none;
            })
            remote
    tombstone-Follows r (deleted v) small e f = deleted-tombstone env w law scope db files h r e f v
    tombstone-Follows r (changed v d) small e f =
        changed-tombstone env w law scope db files h r e f v d small

    act-Follows :
        (remote : Remote)
        → remote_version remote + 1 < 2 ^ 64
        → (choose env scope.key.type_name (entry env db files scope.key) remote ≡ none → w.blame)
        → Follows (entry env db files scope.key) (info_of (get scope.key db.index)) remote
    unfolding view
    act-Follows remote small bl = elim (Option-cases (get scope.key db.index)) [
      | inl e ↦ rw e (remote-absent env w law scope db files h e remote)
      | inr (r, e) ↦ elim (Option-cases r.file) [
        | inl f ↦ rw (e, f) (tombstone-Follows r remote small e f)
        | inr (n, f) ↦
            let (d, there, sum) = h.coherent.matched scope.key r n e f in
            rw (e, f, there, sum)
              (exists-Follows r n d remote small e f there (λ q. bl (rw (e, f, there) q)))
      ]
    ]

module _ {C : Type 0} (env : Env C) (w : World) (law : IsLawful env) (key : ObjectKey)
    (remote : Remote) (small : remote_version remote + 1 < 2 ^ 64) (db : Db) (files : Files)
    (h : Sound env db files)
    (bl : choose env key.type_name (entry env db files key) remote ≡ none → w.blame) where
  -- The entry of `key` is what the rules give.
  abbrev pub FollowsRules : Store C → Type 0
  FollowsRules s =
      (e : Entry) × (choose env key.type_name (entry env db files key) remote ≡ some e)
      × Became env w key e db files s

  chosen :
      (o : Option Entry) (scope a : Scope) (s : Store C)
      → scope.key ≡ key
      → choose env key.type_name (entry env db files key) remote ≡ o
      → Chosen env w law scope db files h o a s
      → FollowsRules s
  chosen none scope a s k q c = absurd c
  chosen (some e) scope a s k q c = (e, q, rw k at c)

  commits :
      (f : Emitter C → Emitter C)
      → Triple FollowsRules (commit >> on_emitter f) (λ _. FollowsRules) (Blames w)
  commits f = record {
    at = λ s p.
        (weaken-Triple (λ t x. x) (λ a t x. (p.0, p.1, (rw (x.0, x.1) p.2.0, x.2)))
            (seq-Triple (commit-Data w s.db s.files) (on_emitter-Data w s.db s.files f))).at
          s (refl, refl, p.2.1);
  }

  abbrev opened : Scope
  opened = record { key = key; after = nothing; drop = false }

  sync_scope-Triple :
      Triple (Data w db files) (sync_scope env remote opened) (λ _. FollowsRules) (Blames w)
  unfolding sync_scope load_change_info commit_sync
  sync_scope-Triple =
      bind_eq-Triple _ (query_eq-Data w db files (λ x. info_of (get key x.index)) refl) (
        bind-Triple _ _
          (weaken-Triple (λ s x. x) (λ a s x. chosen _ opened a s refl refl x)
            (act-Follows env w law db files h opened remote small bl))
          (λ a. commits _))

  rethrows :
      (e : Failure)
      → Triple {A = Unit {0}} (Blames w e) (do rollback; throw e) (λ _. FollowsRules) (Blames w)
  unfolding rollback
  rethrows e = seq-Triple {R = Blames w e} (modify-Triple _ (λ s x. x)) (throw-Triple e (λ s x. x))

  pub sync_store-Triple :
      Triple (Data w db files) (sync_store env key remote) (λ _. FollowsRules) (Blames w)
  unfolding sync_store in_scope
  sync_store-Triple =
      seq-Triple (begin-Data w db files) (catch-Triple _ _ sync_scope-Triple rethrows)

module _ {C : Type 0} (env : Env C) (law : IsLawful env) (key : ObjectKey) (remote : Remote)
    (small : remote_version remote + 1 < 2 ^ 64) (s : Store C) (h : Sound env s.db s.files) where
  -- For sound tables and files and a version that can be raised, whatever fails outside: if the
  -- change is accepted, the rules of modeling/exchange.txt give an
  -- entry, that is the entry of `key` now, and all other entries are as they were.
  pub sync_store-follows :
      (t : Store C)
      → sync_store env key remote s ≡ (ok tt, t)
      → (e : Entry) × (choose env key.type_name (entry env s.db s.files key) remote ≡ some e)
        × Becomes env key e s.db s.files t.db t.files
  sync_store-follows t run =
      let (e, q, b) = rw run at (
        (sync_store-Triple env world law key remote small s.db s.files h (λ n. n)).at s
          (refl, refl, λ o. absurd o)) in
      (e, q, b.0)
    where
      world : World
      world = record {
        calm = ⊥;
        blame = choose env key.type_name (entry env s.db s.files key) remote ≡ none;
      }

  -- For sound tables and files and a version that can be raised: if nothing outside fails and the
  -- rules give an entry, which they do unless the resolver throws,
  -- the change is accepted, that is the entry of `key` now, and all other entries are as they were.
  pub sync_store-returns :
      (e : Entry)
      → choose env key.type_name (entry env s.db s.files key) remote ≡ some e
      → s.outcomes ≡ []
      → (t : Store C) × (sync_store env key remote s ≡ (ok tt, t))
        × Becomes env key e s.db s.files t.db t.files
  sync_store-returns e q o = go (sync_store env key remote s) refl (
      (sync_store-Triple env world law key remote small s.db s.files h (λ n. cc (n, q))).at s
        (refl, refl, λ _. o))
    where
      world : World
      world = record { calm = Unit {0}; blame = ⊥ }

      go :
          (r : Result Failure Unit × Store C)
          → sync_store env key remote s ≡ r
          → Post
              (λ _. FollowsRules env world law key remote small s.db s.files h (λ n. cc (n, q)))
              (Blames world)
              r
          → (t : Store C) × (sync_store env key remote s ≡ (ok tt, t))
            × Becomes env key e s.db s.files t.db t.files
      go (ok a, t) run (e', q', b) = (t, run, let same : e' ≡ e = cc (q, q') in rw same at b.0)
      go (err x, t) run bad = absurd (bad tt)
