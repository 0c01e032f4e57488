-- ===== src/ChangeController/Signals.antt =====
-- What the calls of the controller do to its flag, and when they say that uploads have started.
use qt_data_sync.Common.{ℕ, ◌≡◌, refl, Bool, true, false, String, Option, none, some, All, All-snoc}
use qt_data_sync.Common.Equality.{◌==◌, nat_eq}
use qt_data_sync.Environment.{Env}
use qt_data_sync.Exec.{Result, ok, err}
use qt_data_sync.Exec.Triple.{
  Post, Keeps, pure-Keeps, gets-Keeps, bind-Keeps, seq-Keeps, modify-Keeps, catch-Triple, if-Triple,
}
use qt_data_sync.LocalStore.State.{Store, Failure, Method}
use qt_data_sync.LocalStore.Access.{read_json}
use qt_data_sync.LocalStore.Sync.{Change, change_count}
use qt_data_sync.LocalStore.Changes.{beside, in_store}
use qt_data_sync.ChangeController.{
  UploadKey, UploadInfo, Signal, uploading_changed, upload, progress_added, progress_increment,
  controller_error, Queued, Uploads, set_uploads, emit, enqueue, set_timing, complete, send_change,
  report_count, estimate_changes, finish_uploads, finish_upload, upload_done, device_upload_done,
  Call, enable, clear, triggered,
}

-- The flag after a call, and whether the call may say that uploads have started.
abbrev pub enabled_after : Call → Bool → Bool
enabled_after (enable b) old = b
enabled_after clear old = false
enabled_after _ old = old

abbrev pub may_start : Call → Bool → Bool
may_start (enable b) old = b
may_start triggered old = old
may_start _ old = false

abbrev pub Fits : Bool → Signal → Type 0
Fits allowed (uploading_changed true) = allowed ≡ true
Fits allowed (uploading_changed false) = Unit
Fits allowed (upload key content) = Unit
Fits allowed (progress_added n) = Unit
Fits allowed progress_increment = Unit
Fits allowed controller_error = Unit

module _ {C : Type 0} (flag running allowed : Bool) where
  -- The flag, what was said, and, in uploadNext, what may be said.
  pub record Speaks (v : Uploads × Store C) : Type 0 where
    pub enabled : v.0.enabled ≡ flag
    pub said : All (Fits allowed) v.0.emitted
    pub starts : running ≡ true → v.0.starting ≡ true → allowed ≡ true

  pub set-Keeps :
      (f : Uploads → Uploads)
      → ((u : Uploads) → (f u).enabled ≡ u.enabled)
      → ((u : Uploads) → (f u).emitted ≡ u.emitted)
      → ((u : Uploads) → (f u).starting ≡ u.starting)
      → Keeps {E = Failure} Speaks (set_uploads f)
  set-Keeps f a b c = modify-Keeps _ (λ v h. record {
    enabled = rw (a v.0) h.enabled;
    said = rw (b v.0) h.said;
    starts = rw (c v.0) h.starts;
  })

  pub emit-Keeps : (m : Signal) → Fits allowed m → Keeps Speaks (emit m)
  unfolding emit
  emit-Keeps m p = modify-Keeps _ (λ v h. record {
    enabled = h.enabled;
    said = All-snoc (Fits allowed) v.0.emitted m h.said p;
    starts = h.starts;
  })

  pub enqueue-Keeps : (q : Queued) → Keeps Speaks (enqueue q)
  unfolding enqueue
  enqueue-Keeps q = set-Keeps _ (λ u. refl) (λ u. refl) (λ u. refl)

  pub set_timing-Keeps : (b : Bool) → Keeps Speaks (set_timing b)
  unfolding set_timing
  set_timing-Keeps b = set-Keeps _ (λ u. refl) (λ u. refl) (λ u. refl)

  stored :
      {A : Type 0} (u : Uploads) (s : Store C) (r : Result Failure A × Store C)
      → Speaks (u, s)
      → Post (λ _. Speaks) (λ _. Speaks) (beside u r)
  stored u s (ok a, t) p = record { enabled = p.enabled; said = p.said; starts = p.starts }
  stored u s (err e, t) p = record { enabled = p.enabled; said = p.said; starts = p.starts }

  pub in_store-Keeps : {A : Type 0} (m : Method C A) → Keeps Speaks (in_store m)
  unfolding in_store
  in_store-Keeps m = record { at = λ v p. stored v.0 v.1 (m v.1) p }

  complete-Keeps : Keeps Speaks (complete {C = C})
  unfolding complete
  complete-Keeps = seq-Keeps _ _ (set-Keeps _ (λ u. refl) (λ u. refl) (λ u. refl)) (
      seq-Keeps _ _ (emit-Keeps _ tt) (
        bind-Keeps _ _ (gets-Keeps _)
          (λ more. if-Triple more (λ _. enqueue-Keeps _) (λ _. pure-Keeps tt))))

  module _ (env : Env C) where
    finish_upload-Keeps :
        (key : UploadKey) (info : Option UploadInfo) (store : UploadInfo → Method C Unit)
        → Keeps Speaks (finish_upload env key info store)
    finish_upload-Keeps key none store = pure-Keeps tt
    finish_upload-Keeps key (some i) store =
        catch-Triple _ _
          (seq-Keeps _ _ (set-Keeps _ (λ u. refl) (λ u. refl) (λ u. refl))
            (seq-Keeps _ _ (in_store-Keeps (store i)) complete-Keeps))
          (λ e. emit-Keeps _ tt)

    pub upload_done-Keeps : (hash : ℕ) → Keeps Speaks (upload_done env hash)
    unfolding upload_done
    upload_done-Keeps hash = bind-Keeps _ _ (gets-Keeps _) (λ i. finish_upload-Keeps _ i _)

    pub device_upload_done-Keeps :
        (hash device : ℕ) → Keeps Speaks (device_upload_done env hash device)
    unfolding device_upload_done
    device_upload_done-Keeps hash device =
        bind-Keeps _ _ (gets-Keeps _) (λ i. finish_upload-Keeps _ i _)

    pub send_change-Keeps :
        (c : Change) (file : Option String) → Keeps Speaks (send_change env c file)
    unfolding send_change
    send_change-Keeps c none = emit-Keeps _ tt
    send_change-Keeps c (some file) =
        catch-Triple _ _
          (bind-Keeps _ _ (in_store-Keeps (read_json env c.key file)) (λ d. emit-Keeps _ tt))
          (λ e. enqueue-Keeps _)

    report_count-Keeps :
        (starting : Bool) (count : ℕ) → Keeps Speaks (report_count env starting count)
    report_count-Keeps starting count =
        if-Triple (count == 0) (λ _. pure-Keeps false)
          (λ _.
            if-Triple starting (λ _. pure-Keeps true)
              (λ _. seq-Keeps _ _ (emit-Keeps _ tt) (pure-Keeps false)))

    pub estimate_changes-Keeps : Keeps Speaks (estimate_changes env)
    unfolding estimate_changes
    estimate_changes-Keeps = bind-Keeps _ _ (gets-Keeps _) (λ known.
        if-Triple known (λ _. pure-Keeps false)
          (λ _. bind-Keeps _ _ (in_store-Keeps change_count) (λ count.
            seq-Keeps _ _ (set-Keeps _ (λ u. refl) (λ u. refl) (λ u. refl))
              (bind-Keeps _ _ (gets-Keeps _) (λ s. report_count-Keeps s count)))))

    pub finish_uploads-Keeps : (b : Bool) → Keeps Speaks (finish_uploads env b)
    finish_uploads-Keeps true = seq-Keeps _ _ (set_timing-Keeps false) (emit-Keeps _ tt)
    finish_uploads-Keeps false = pure-Keeps tt
