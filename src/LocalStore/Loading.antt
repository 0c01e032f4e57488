-- ===== src/LocalStore/Loading.antt =====
-- LocalStore::load on a key that has data.
use qt_data_sync.Common.{
  ℕ, Bool, String, [], Option, none, some, ◌≡◌, refl, sym, ◌⊎◌, inl, inr, Option-cases, arith,
}
use qt_data_sync.Table.{get}
use qt_data_sync.Json.{Fields}
use qt_data_sync.Environment.{ObjectKey, key_eq, path_eq, Files, Env}
use qt_data_sync.Emitter.{get_cached}
use qt_data_sync.Exec.{ok, ◌>>=◌, ◌>>◌, throw, pure, gets}
use qt_data_sync.Exec.Triple.{
  Triple, seq-Triple, bind_eq-Triple, pure-Triple, throw-Triple, modify-Triple, catch-Triple,
}
use qt_data_sync.LocalStore.State.{Row, Db, Store, Failure, rollback, file_path}
use qt_data_sync.LocalStore.Access.{load, load_uncached, load_stored, stored_file}
use qt_data_sync.LocalStore.Coherent.{present, view}
use qt_data_sync.LocalStore.Writes.{Sound, entry}
use qt_data_sync.LocalStore.Effects.{
  World, Data, Blames, begin-Data, commit-Data, on_emitter-Data, query_eq-Data, read_json-Data,
}
use qt_data_sync.LocalStore.Saving.{returns}

module _ {C : Type 0} (env : Env C) (key : ObjectKey) (db : Db) (files : Files) (r : Row)
    (n : String) (d : Fields) (row : get key db.index ≡ some r) (name : r.file ≡ some n)
    (there : get (file_path env key n) files ≡ some d) where
  abbrev Loaded : Fields → Store C → Type 0
  Loaded x t = (x ≡ d) × (t.db ≡ db) × (t.files ≡ files)

  back :
      (w : World) (e : Failure)
      → Triple {A = Fields} (Blames w e) (do rollback; throw e) Loaded (Blames w)
  unfolding rollback
  back w e = seq-Triple {R = Blames w e} (modify-Triple _ (λ s x. x)) (throw-Triple e (λ s x. x))

  uncached-Triple : (w : World) → Triple (Data w db files) (load_uncached env key) Loaded (Blames w)
  unfolding load_uncached load_stored
  uncached-Triple w = seq-Triple (begin-Data w db files) (
      catch-Triple _ _
        (bind_eq-Triple _ {a = some n}
          (query_eq-Data w db files (λ x. stored_file (get key x.index)) (rw (row, name) refl))
          (bind_eq-Triple _ {a = d} (read_json-Data env w db files key n there) (
            seq-Triple (on_emitter-Data w db files _)
              (seq-Triple (commit-Data w db files) (pure-Triple d (λ s p. (refl, p.0, p.1)))))))
        (back w))

module _ {C : Type 0} (env : Env C) (key : ObjectKey) (s : Store C)
    (h : Sound env s.db s.files) where
  abbrev pub Loads : Fields → Type 0
  Loads d = (t : Store C) × (load env key s ≡ (ok d, t)) × (t.db ≡ s.db) × (t.files ≡ s.files)

  from_file :
      (r : Row) (n : String) (d : Fields)
      → get key s.db.index ≡ some r
      → r.file ≡ some n
      → get (file_path env key n) s.files ≡ some d
      → get_cached env key s.emitter ≡ none
      → s.outcomes ≡ []
      → Loads d
  unfolding load ◌>>=◌ gets
  from_file r n d e f there c o =
      let (a, t, run, (same, p, q)) =
        returns (load_uncached env key) s _ (uncached-Triple env key s.db s.files r n d e f there)
          o in
      (t, rw (c, sym same) run, p, q)

  same_data : (v w : ℕ) (d x : Fields) (b c : Bool) → present v d b ≡ present w x c → d ≡ x
  same_data v w d x b c e = cc

  stored_data :
      (v : ℕ) (d : Fields) (c : Bool) (o : Option Row)
      → get key s.db.index ≡ o
      → entry env s.db s.files key ≡ present v d c
      → get_cached env key s.emitter ≡ none
      → s.outcomes ≡ []
      → Loads d
  unfolding view
  stored_data v d c none e p q o = absurd (ground (arith, e, p))
  stored_data v d c (some r) e p q o = elim (Option-cases r.file) [
    | inl f ↦ absurd (ground (arith, e, f, p))
    | inr (n, f) ↦
        let (x, there, sum) = h.coherent.matched key r n e f in
        let same : x ≡ d = same_data _ _ _ _ _ _ (rw (e, f, there, view) at p) in
        rw (sym same) (from_file r n x e f there q o)
  ]

  -- On sound tables and files, if nothing outside fails, a key has data, and the cache has that data for it or none, then loading
  -- returns the data, and leaves the tables and files as they were.
  pub load-returns :
      (v : ℕ) (d : Fields) (c : Bool)
      → entry env s.db s.files key ≡ present v d c
      → (get_cached env key s.emitter ≡ none) ⊎ (get_cached env key s.emitter ≡ some d)
      → s.outcomes ≡ []
      → Loads d
  unfolding load ◌>>=◌ gets pure
  load-returns v d c e (inl q) o = stored_data v d c _ refl e q o
  load-returns v d c e (inr q) o = (s, rw q refl, refl, refl)
