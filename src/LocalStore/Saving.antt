-- ===== src/LocalStore/Saving.antt =====
-- LocalStore::save and remove as changes of the entry of their key.
use qt_data_sync.Common.{ℕ, true, [], Option, none, some, ◌≡◌, refl, subst, Option-cases, inl, inr}
use qt_data_sync.Table.{get}
use qt_data_sync.Json.{Fields}
use qt_data_sync.Environment.{ObjectKey, key_eq, path_eq, Files, Env, IsLawful, next_version}
use qt_data_sync.Emitter.{Emitter}
use qt_data_sync.Exec.{Result, ok, err, ◌>>◌, throw}
use qt_data_sync.Exec.Triple.{
  Triple, Post, seq-Triple, bind-Triple, bind_eq-Triple, weaken-Triple, throw-Triple, modify-Triple,
  catch-Triple,
}
use qt_data_sync.LocalStore.State.{Row, Db, Store, Failure, Method, commit, rollback, on_emitter}
use qt_data_sync.LocalStore.Access.{save, store_changed_impl, version_after, stored_file}
use qt_data_sync.LocalStore.State.{is_some}
use qt_data_sync.LocalStore.Coherent.{Entry, absent, tombstone, present, broken, view}
use qt_data_sync.LocalStore.Writes.{Sound, entry, Becomes}
use qt_data_sync.LocalStore.Effects.{
  World, Data, Blames, begin-Data, commit-Data, on_emitter-Data, query_eq-Data,
}
use qt_data_sync.LocalStore.Outcomes.{Became, impl_existing, impl_missing}

-- A method that throws for outside reasons only.
module _ {C A : Type 0} (m : Method C A) (s : Store C) (Q : A → Store C → Type 0)
    (h : (w : World) → Triple (Data w s.db s.files) m Q (Blames w)) where
  pub returned : (a : A) (t : Store C) → m s ≡ (ok a, t) → Q a t
  returned a t run =
      rw run at ((h (record { calm = ⊥; blame = ⊥ })).at s (refl, refl, λ o. absurd o))

  settled :
      (r : Result Failure A × Store C)
      → m s ≡ r
      → Post Q (Blames (record { calm = Unit {0}; blame = ⊥ })) r
      → (a : A) × (t : Store C) × (m s ≡ (ok a, t)) × Q a t
  settled (ok a, t) run q = (a, t, run, q)
  settled (err e, t) run bad = absurd (bad tt)

  pub returns : s.outcomes ≡ [] → (a : A) × (t : Store C) × (m s ≡ (ok a, t)) × Q a t
  returns o =
      settled (m s) refl ((h (record { calm = Unit {0}; blame = ⊥ })).at s (refl, refl, λ _. o))

module _ {C : Type 0} (env : Env C) (law : IsLawful env) (key : ObjectKey) (d : Fields) (db : Db)
    (files : Files) (h : Sound env db files) where
  abbrev pub Written : Store C → Type 0
  Written s =
      Becomes env key (present (version_after env (get key db.index)) d true) db files s.db s.files

  module _ (w : World) where
    impl_saves :
        Triple
          (Data w db files)
          (store_changed_impl env key
            (version_after env (get key db.index))
            (stored_file (get key db.index))
            d
            true
            (is_some (get key db.index)))
          (λ _. Became env w key (present (version_after env (get key db.index)) d true) db files)
          (Blames w)
    impl_saves = elim (Option-cases (get key db.index)) [
      | inl e ↦ rw e (impl_missing env w key db files h law 1 none d true e)
      | inr (r, e) ↦
          rw e (impl_existing env w key db files h law r (next_version r.version) d true e)
    ]

    commits :
        (f : Emitter C → Emitter C)
        → Triple
            (Became env w key (present (version_after env (get key db.index)) d true) db files)
            (commit >> on_emitter f)
            (λ _. Written)
            (Blames w)
    commits f = record {
      at = λ s p.
          (weaken-Triple (λ t x. x) (λ a t x. rw (x.0, x.1) p.0)
              (seq-Triple (commit-Data w s.db s.files) (on_emitter-Data w s.db s.files f))).at
            s (refl, refl, p.1);
    }

    rethrows :
        (f : Emitter C → Emitter C) (e : Failure)
        → Triple {A = Unit {0}}
            (Blames w e)
            (do on_emitter f; rollback; throw e)
            (λ _. Written)
            (Blames w)
    unfolding rollback on_emitter
    rethrows f e =
        seq-Triple {R = Blames w e} (modify-Triple _ (λ s x. x))
          (seq-Triple {R = Blames w e} (modify-Triple _ (λ s x. x)) (throw-Triple e (λ s x. x)))

    save-Triple : Triple (Data w db files) (save env key d) (λ _. Written) (Blames w)
    unfolding save
    save-Triple = seq-Triple (begin-Data w db files) (
        catch-Triple _ _
          (bind_eq-Triple _ (query_eq-Data w db files (λ x. get key x.index) refl)
            (bind-Triple _ _ impl_saves (λ after. commits _)))
          (rethrows _))

-- The version that new data gets.
abbrev pub next_of : Entry → ℕ
next_of absent = 1
next_of (tombstone v c) = next_version v
next_of (present v d c) = next_version v
next_of broken = 0

module _ {C : Type 0} (env : Env C) (law : IsLawful env) (key : ObjectKey) (d : Fields)
    (s : Store C) (h : Sound env s.db s.files) where
  abbrev pub SavedEntry : Store C → Type 0
  SavedEntry t =
      Becomes env key (present (next_of (entry env s.db s.files key)) d true) s.db s.files t.db
        t.files

  next_of-version :
      (o : Option Row)
      → get key s.db.index ≡ o
      → version_after env o ≡ next_of (entry env s.db s.files key)
  unfolding view
  next_of-version none e = rw e refl
  next_of-version (some r) e = elim (Option-cases r.file) [
    | inl f ↦ rw (e, f) refl
    | inr (n, f) ↦ let (x, there, sum) = h.coherent.matched key r n e f in rw (e, f, there) refl
  ]

  as_saved : (t : Store C) → Written env law key d s.db s.files h t → SavedEntry t
  as_saved t q =
      subst (λ v. Becomes env key (present v d true) s.db s.files t.db t.files)
        (next_of-version (get key s.db.index) refl) q

  -- On sound tables and files, a save that returns has stored the data under the next version, marked for upload, and left the
  -- entries of all other keys as they were.
  pub save-follows : (t : Store C) → save env key d s ≡ (ok tt, t) → SavedEntry t
  save-follows t run = as_saved t (
      returned (save env key d) s (λ _. Written env law key d s.db s.files h)
        (save-Triple env law key d s.db s.files h) tt t run)

  -- On sound tables and files, if nothing outside fails, a save returns, has stored the data under the next version, marked for
  -- upload, and left the entries of all other keys as they were.
  pub save-returns :
      s.outcomes ≡ [] → (t : Store C) × (save env key d s ≡ (ok tt, t)) × SavedEntry t
  save-returns o =
      let (a, t, run, q) =
        returns (save env key d) s (λ _. Written env law key d s.db s.files h)
          (save-Triple env law key d s.db s.files h) o in
      (t, run, as_saved t q)
