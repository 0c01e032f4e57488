-- ===== src/SyncController/Convergence.antt =====
-- Two devices that changed one object at the same version, and exchange their changes.
use qt_data_sync.Common.{
  ℕ, [], ◌+◌, ◌<◌, ◌^◌, Bool, true, Option, none, some, ◌≡◌, ◌≢◌, refl, sym, arith, inl, inr,
  Bool-cases, ltb, ◌∙◌,
}
use qt_data_sync.Common.Equality.{nat_eq}
use qt_data_sync.Json.{Bytes, Fields, json_hash}
use qt_data_sync.Environment.{ObjectKey, Env, IsLawful}
use qt_data_sync.Exec.{ok}
use qt_data_sync.LocalStore.State.{Store}
use qt_data_sync.LocalStore.Coherent.{Entry, absent, tombstone, present, broken}
use qt_data_sync.LocalStore.Writes.{Sound, entry, Becomes-Sound}
use qt_data_sync.SyncController.{Remote, deleted, changed, sync_store}
use qt_data_sync.SyncController.Policy.{choose, ask, choose_data}
use qt_data_sync.SyncController.Actions.{SyncPolicy-cases, remote_version}
use qt_data_sync.SyncController.Refinement.{sync_store-returns, sync_store-follows}

module _ {C : Type 0} (env : Env C) (t : Bytes) where
  choose_data_comm :
      (v : ℕ) (d1 d2 : Fields) (a : Option (Option Fields))
      → json_hash env.text d1 ≢ json_hash env.text d2
      → choose_data env t v d1 d2 a ≡ choose_data env t v d2 d1 a
  unfolding choose_data
  choose_data_comm v d1 d2 none h = refl
  choose_data_comm v d1 d2 (some none) h = ground arith
  choose_data_comm v d1 d2 (some (some m)) h = refl

  choose_conflict :
      (v : ℕ) (d1 d2 : Fields) (c1 c2 : Bool)
      → json_hash env.text d1 ≢ json_hash env.text d2
      → ask env.conflict_resolver t d1 d2 ≡ ask env.conflict_resolver t d2 d1
      → choose env t (present v d1 c1) (changed v d2)
        ≡ choose env t (present v d2 c2) (changed v d1)
  unfolding choose
  choose_conflict v d1 d2 c1 c2 h s =
      ground (arith, s, choose_data_comm v d1 d2 (ask env.conflict_resolver t d1 d2) h)

  -- What a client sees of an entry.
  abbrev pub content : Entry → Option Fields
  content absent = none
  content (tombstone v c) = none
  content (present v d c) = some d
  content broken = none

  again_data :
      (v : ℕ) (d1 d2 : Fields) (a : Option (Option Fields)) (e : Entry)
      → choose_data env t v d1 d2 a ≡ some e
      → choose env t e (changed v d2) ≡ some e
  unfolding choose choose_data
  again_data v d1 d2 none e h = cc
  again_data v d1 d2 (some none) e h = ground arith
  again_data v d1 d2 (some (some m)) e h = ground arith

  choose_again :
      (e e1 e2 : Entry) (remote : Remote)
      → choose env t e remote ≡ some e1
      → choose env t e1 remote ≡ some e2
      → content e2 ≡ content e1
  unfolding choose
  choose_again absent e1 e2 (deleted v) h k = ground arith
  choose_again absent e1 e2 (changed v d) h k = ground arith
  choose_again broken e1 e2 remote h k = ground arith
  choose_again (tombstone v1 c) e1 e2 (deleted v) h k = ground arith
  choose_again (tombstone v1 c) e1 e2 (changed v d) h k = ground arith
  choose_again (present v1 d1 c) e1 e2 (deleted v) h k = ground arith
  choose_again (present v1 d1 c) e1 e2 (changed v d2) h k =
      ground (arith, again_data v1 d1 d2 (ask env.conflict_resolver t d1 d2) e1)

  conflict_settled :
      (v : ℕ) (d1 d2 : Fields) (c : Bool) (answer : Option Fields)
      → json_hash env.text d1 ≢ json_hash env.text d2
      → ask env.conflict_resolver t d1 d2 ≡ some answer
      → (e : Entry) × (choose env t (present v d1 c) (changed v d2) ≡ some e)
  unfolding choose choose_data
  conflict_settled v d1 d2 c (some m) differ a = (present (v + 1) m true, ground arith)
  conflict_settled v d1 d2 c none differ a =
      elim (Bool-cases (ltb (json_hash env.text d2) (json_hash env.text d1))) [
        | inl less ↦ (present (v + 1) d1 true, ground arith)
        | inr more ↦ (present (v + 1) d2 true, ground arith)
      ]

module _ {C : Type 0} (env other : Env C) (t : Bytes) where
  choose_delete :
      (v : ℕ) (d : Fields) (c1 c2 : Bool)
      → other.conflict_policy ≡ env.conflict_policy
      → (e : Entry) × (choose env t (present v d c1) (deleted v) ≡ some e)
        × (choose other t (tombstone v c2) (changed v d) ≡ some e)
  unfolding choose
  choose_delete v d c1 c2 same = elim (SyncPolicy-cases env.conflict_policy) [
    | inl p ↦ let q = same ∙ p in (present (v + 1) d true, ground (arith, p), ground (arith, q))
    | inr p ↦ let q = same ∙ p in (tombstone (v + 1) true, ground (arith, p), ground (arith, q))
  ]

-- Two devices, each with its own settings.
module _ {C : Type 0} (env other : Env C) (law : IsLawful env) (other_law : IsLawful other)
    (key : ObjectKey) where
  -- Both devices return, and end up with one entry for `key`.
  abbrev pub Meet : Remote → Store C → Remote → Store C → Type 0
  Meet r1 s1 r2 s2 =
      (t1 : Store C) × (t2 : Store C) × (sync_store env key r1 s1 ≡ (ok tt, t1))
      × (sync_store other key r2 s2 ≡ (ok tt, t2))
      × (entry env t1.db t1.files key ≡ entry other t2.db t2.files key)

  on-Meet :
      (r1 r2 : Remote) (s1 s2 : Store C) (e : Entry)
      → remote_version r1 + 1 < 2 ^ 64
      → remote_version r2 + 1 < 2 ^ 64
      → Sound env s1.db s1.files
      → Sound other s2.db s2.files
      → s1.outcomes ≡ []
      → s2.outcomes ≡ []
      → choose env key.type_name (entry env s1.db s1.files key) r1 ≡ some e
      → choose other key.type_name (entry other s2.db s2.files key) r2 ≡ some e
      → Meet r1 s1 r2 s2
  on-Meet r1 r2 s1 s2 e b1 b2 h1 h2 o1 o2 c1 c2 =
      let (t1, run1, n1) = sync_store-returns env law key r1 b1 s1 h1 e c1 o1 in
      let (t2, run2, n2) = sync_store-returns other other_law key r2 b2 s2 h2 e c2 o2 in
      (t1, t2, run1, run2, n1.sets.here ∙ sym n2.sets.here)

  -- Of two devices with sound tables and files, whose settings may differ but for the conflict policy,
  -- the second deleted an object and the first changed it, both to the same version, which can be
  -- raised, and each receives the other's change. If nothing outside fails, both accept, and both
  -- hold the same entry.
  pub delete_converges :
      (v : ℕ) (d : Fields) (c1 c2 : Bool) (s1 s2 : Store C)
      → other.conflict_policy ≡ env.conflict_policy
      → v + 1 < 2 ^ 64
      → Sound env s1.db s1.files
      → Sound other s2.db s2.files
      → s1.outcomes ≡ []
      → s2.outcomes ≡ []
      → entry env s1.db s1.files key ≡ present v d c1
      → entry other s2.db s2.files key ≡ tombstone v c2
      → Meet (deleted v) s1 (changed v d) s2
  delete_converges v d c1 c2 s1 s2 same b h1 h2 o1 o2 e1 e2 =
      let (e, p, q) = choose_delete env other key.type_name v d c1 c2 same in
      on-Meet _ _ s1 s2 e b b h1 h2 o1 o2 (rw e1 p) (rw e2 q)

module _ {C : Type 0} (env : Env C) (law : IsLawful env) (key : ObjectKey) where
  -- Both devices return, and end up with one entry for `key`.
  abbrev pub Agree : Remote → Store C → Remote → Store C → Type 0
  Agree r1 s1 r2 s2 =
      (t1 : Store C) × (t2 : Store C) × (sync_store env key r1 s1 ≡ (ok tt, t1))
      × (sync_store env key r2 s2 ≡ (ok tt, t2))
      × (entry env t1.db t1.files key ≡ entry env t2.db t2.files key)

  -- Two devices with the same settings and with sound tables and files hold data of different checksums for an object at the
  -- same version, which can be raised, and each receives the other's
  -- change, nothing outside fails, and the resolver, if there is one, does not throw and gives the
  -- same answer for both orders. Then both accept, and both hold the same entry.
  pub conflict_converges :
      (v : ℕ) (d1 d2 : Fields) (c1 c2 : Bool) (s1 s2 : Store C) (answer : Option Fields)
      → v + 1 < 2 ^ 64
      → Sound env s1.db s1.files
      → Sound env s2.db s2.files
      → s1.outcomes ≡ []
      → s2.outcomes ≡ []
      → entry env s1.db s1.files key ≡ present v d1 c1
      → entry env s2.db s2.files key ≡ present v d2 c2
      → json_hash env.text d1 ≢ json_hash env.text d2
      → ask env.conflict_resolver key.type_name d1 d2 ≡ some answer
      → ask env.conflict_resolver key.type_name d2 d1 ≡ some answer
      → Agree (changed v d2) s1 (changed v d1) s2
  conflict_converges v d1 d2 c1 c2 s1 s2 answer b h1 h2 o1 o2 e1 e2 differ a1 a2 =
      let (e, c) = conflict_settled env key.type_name v d1 d2 c1 answer differ a1 in
      on-Meet env env law law key _ _ s1 s2 e b b h1 h2 o1 o2 (rw e1 c)
        (rw e2 (sym (choose_conflict env key.type_name v d1 d2 c1 c2 differ (a1 ∙ sym a2)) ∙ c))

  -- A change whose version can be raised is accepted by a store with sound tables and files, and comes
  -- once more to a store with the tables and files that this left. If it is accepted again, the data
  -- of the object is as after the first time.
  pub redelivery :
      (remote : Remote) (s t later u : Store C)
      → remote_version remote + 1 < 2 ^ 64
      → Sound env s.db s.files
      → sync_store env key remote s ≡ (ok tt, t)
      → later.db ≡ t.db
      → later.files ≡ t.files
      → sync_store env key remote later ≡ (ok tt, u)
      → content env key.type_name (entry env u.db u.files key)
        ≡ content env key.type_name (entry env t.db t.files key)
  redelivery remote s t later u b h run same_db same_files again =
      let (e1, c1, n1) = sync_store-follows env law key remote b s h t run in
      let here : entry env later.db later.files key ≡ e1 = rw (same_db, same_files) n1.sets.here in
      let sound : Sound env later.db later.files =
        rw (same_db, same_files) (Becomes-Sound env key e1 _ _ _ _ n1) in
      let (e2, c2, n2) = sync_store-follows env law key remote b later sound u again in
      rw (n2.sets.here, n1.sets.here)
        (choose_again env key.type_name _ e1 e2 remote c1 (rw here at c2))
