-- ===== src/ChangeController/Frame.antt =====
-- Properties of the controller that depend on the running uploads alone: what keeps them.
use qt_data_sync.Common.{ℕ, ◌≡◌, refl, Bool, true, false, Option, none, some}
use qt_data_sync.Common.Equality.{◌==◌, nat_eq}
use qt_data_sync.Environment.{Env}
use qt_data_sync.Exec.{Result, ok, err}
use qt_data_sync.Exec.Triple.{
  Post, Keeps, pure-Keeps, gets-Keeps, bind-Keeps, seq-Keeps, modify-Keeps, catch-Triple, if-Triple,
}
use qt_data_sync.LocalStore.State.{Store, Failure, Method}
use qt_data_sync.LocalStore.Access.{read_json}
use qt_data_sync.LocalStore.Sync.{Change, change_count}
use qt_data_sync.LocalStore.Changes.{beside, in_store}
use qt_data_sync.ChangeController.{
  upload_eq, Signal, Queued, Uploads, set_uploads, emit, enqueue, set_timing, announce, send_change,
  report_count, estimate_changes, finish_uploads,
}

-- `P` depends on the running uploads and the limit alone.
pub record OfActive {C : Type 0} (P : Uploads × Store C → Type 0) : Type 0 where
  pub carries :
      (v w : Uploads × Store C) → w.0.active ≡ v.0.active → w.0.limit ≡ v.0.limit → P v → P w

module _ {C : Type 0} {P : Uploads × Store C → Type 0} (h : OfActive P) where
  pub set-Keeps :
      (f : Uploads → Uploads)
      → ((u : Uploads) → (f u).active ≡ u.active)
      → ((u : Uploads) → (f u).limit ≡ u.limit)
      → Keeps {E = Failure} P (set_uploads f)
  set-Keeps f a l = modify-Keeps _ (λ v. h.carries v _ (a v.0) (l v.0))

  pub emit-Keeps : (m : Signal) → Keeps P (emit m)
  unfolding emit
  emit-Keeps m = set-Keeps _ (λ u. refl) (λ u. refl)

  pub enqueue-Keeps : (q : Queued) → Keeps P (enqueue q)
  unfolding enqueue
  enqueue-Keeps q = set-Keeps _ (λ u. refl) (λ u. refl)

  pub set_timing-Keeps : (b : Bool) → Keeps P (set_timing b)
  unfolding set_timing
  set_timing-Keeps b = set-Keeps _ (λ u. refl) (λ u. refl)

  stored :
      {A : Type 0} (u : Uploads) (s : Store C) (r : Result Failure A × Store C)
      → P (u, s)
      → Post (λ _. P) (λ _. P) (beside u r)
  stored u s (ok a, t) p = h.carries (u, s) (u, t) refl refl p
  stored u s (err e, t) p = h.carries (u, s) (u, t) refl refl p

  pub in_store-Keeps : {A : Type 0} (m : Method C A) → Keeps P (in_store m)
  unfolding in_store
  in_store-Keeps m = record { at = λ v p. stored v.0 v.1 (m v.1) p }

  pub announce-Keeps : Keeps P announce
  unfolding announce
  announce-Keeps = bind-Keeps _ _ (gets-Keeps _) (λ first.
      if-Triple first
        (λ t.
          seq-Keeps _ _ (set-Keeps _ (λ u. refl) (λ u. refl))
            (seq-Keeps _ _ (emit-Keeps _) (pure-Keeps true)))
        (λ f. pure-Keeps false))

  module _ (env : Env C) where
    pub send_change-Keeps : (c : Change) (file : Option _) → Keeps P (send_change env c file)
    unfolding send_change
    send_change-Keeps c none = emit-Keeps _
    send_change-Keeps c (some file) =
        catch-Triple _ _
          (bind-Keeps _ _ (in_store-Keeps (read_json env c.key file)) (λ d. emit-Keeps _))
          (λ e. enqueue-Keeps _)

    report_count-Keeps : (starting : Bool) (count : ℕ) → Keeps P (report_count env starting count)
    report_count-Keeps starting count =
        if-Triple (count == 0) (λ _. pure-Keeps false)
          (λ _.
            if-Triple starting (λ _. pure-Keeps true)
              (λ _. seq-Keeps _ _ (emit-Keeps _) (pure-Keeps false)))

    pub estimate_changes-Keeps : Keeps P (estimate_changes env)
    unfolding estimate_changes
    estimate_changes-Keeps = bind-Keeps _ _ (gets-Keeps _) (λ known.
        if-Triple known (λ _. pure-Keeps false)
          (λ _. bind-Keeps _ _ (in_store-Keeps change_count) (λ count.
            seq-Keeps _ _ (set-Keeps _ (λ u. refl) (λ u. refl))
              (bind-Keeps _ _ (gets-Keeps _) (λ s. report_count-Keeps s count)))))

    pub finish_uploads-Keeps : (b : Bool) → Keeps P (finish_uploads env b)
    finish_uploads-Keeps true = seq-Keeps _ _ (set_timing-Keeps false) (emit-Keeps _)
    finish_uploads-Keeps false = pure-Keeps tt
