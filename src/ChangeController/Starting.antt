-- ===== src/ChangeController/Starting.antt =====
-- Uploads are said to start by uploadNext(true) alone.
use qt_data_sync.Common.{
  ℕ, zero, suc, ◌≡◌, refl, sym, ◌∙◌, arith, Bool, true, false, List, [], ◌∷◌, ◌&&◌,
}
use qt_data_sync.Environment.{Env}
use qt_data_sync.Exec.{Result, ok, err, pure}
use qt_data_sync.Exec.Triple.{
  Triple, Post, Keeps, pure-Keeps, throw-Keeps, gets-Keeps, bind-Keeps, seq-Keeps, modify-Triple,
  catch-Triple, if-Triple, bind-Triple, seq-Triple, gets-Triple, weaken-Triple,
}
use qt_data_sync.LocalStore.State.{Store, Failure}
use qt_data_sync.LocalStore.Sync.{Change}
use qt_data_sync.LocalStore.Changes.{visit_rows, visit_devices, load_changes}
use qt_data_sync.ChangeController.{
  Uploads, emit, uploading_changed, announce, start_upload, visit, load_uploads, upload_next, Step,
  set_uploading_enabled, clear_uploads, change_triggered, Call, enable, clear, triggered,
  queued_next, plain_done, device_done, perform,
}
use qt_data_sync.ChangeController.Signals.{
  enabled_after, may_start, Speaks, set-Keeps, emit-Keeps, set_timing-Keeps, in_store-Keeps,
  upload_done-Keeps, device_upload_done-Keeps, send_change-Keeps, estimate_changes-Keeps,
  finish_uploads-Keeps,
}

-- Within uploadNext.
module _ {C : Type 0} (env : Env C) (flag allowed : Bool) where
  abbrev Loud : Uploads × Store C → Type 0
  Loud v = Speaks flag true allowed v

  -- announce says it when `starting` is set.
  announce-Keeps : Keeps Loud announce
  unfolding announce emit
  announce-Keeps =
      bind-Triple _ _
        (gets-Triple _ {Q = λ first v. Loud v × (v.0.starting ≡ first)} (λ v h. (h, refl)))
        (λ first.
          if-Triple first
            (λ t.
              seq-Triple
                (modify-Triple _ {Q = λ _ v. Loud v × (allowed ≡ true)} (λ v h. (
                  record {
                    enabled = h.0.enabled;
                    said = h.0.said;
                    starts = λ r e. absurd (ground arith);
                  },
                  h.0.starts refl (h.1 ∙ t),
                )))
                (seq-Triple (weaken-Triple (λ v h. h) (λ a v h. h) (fits)) (pure-Keeps true)))
            (λ f. weaken-Triple (λ v h. h.0) (λ a v h. h) (pure-Keeps false)))
    where
      fits :
          Triple
            (λ v. Loud v × (allowed ≡ true))
            (emit (uploading_changed true))
            (λ _. Loud)
            (λ _. Loud)
      fits = record { at = λ v h. (emit-Keeps flag true allowed _ h.1).at v h.0 }

  start_upload-Keeps : (progress : Bool) (c : Change) → Keeps Loud (start_upload env progress c)
  unfolding start_upload
  start_upload-Keeps progress c = bind-Keeps _ _ announce-Keeps (λ first.
      bind-Keeps _ _ (gets-Keeps _) (λ estimate.
        seq-Keeps _ _
          (if-Triple (first && progress) (λ _. emit-Keeps flag true allowed _ tt)
            (λ _. pure-Keeps tt))
          (seq-Keeps _ _ (set-Keeps flag true allowed _ (λ u. refl) (λ u. refl) (λ u. refl)) (
            seq-Keeps _ _ (set_timing-Keeps flag true allowed true)
              (seq-Keeps _ _ (send_change-Keeps flag true allowed env c c.file) (gets-Keeps _))))))

  visit-Keeps : (progress : Bool) (c : Change) → Keeps Loud (visit env progress c)
  unfolding visit
  visit-Keeps progress c =
      bind-Keeps _ _ (gets-Keeps _)
        (λ known. if-Triple known (λ _. pure-Keeps true) (λ _. start_upload-Keeps progress c))

  go_on :
      {m : Step C Bool} (more : Bool)
      → Keeps Loud m
      → Keeps Loud (elim more as (λ _. Step C Bool) [ true ↦ m | false ↦ pure false ])
  go_on true k = k
  go_on false k = pure-Keeps false

  visit_rows-Keeps :
      (progress : Bool) (rows : List Change) → Keeps Loud (visit_rows (visit env progress) rows)
  unfolding visit_rows
  visit_rows-Keeps progress [] = pure-Keeps true
  visit_rows-Keeps progress (c ∷ cs) =
      bind-Keeps _ _ (visit-Keeps progress c) (λ more. go_on more (visit_rows-Keeps progress cs))

  visit_devices-Keeps :
      (n : ℕ) (progress more : Bool) → Keeps Loud (visit_devices n (visit env progress) more)
  unfolding visit_devices
  visit_devices-Keeps n progress false = pure-Keeps tt
  visit_devices-Keeps zero progress true = pure-Keeps tt
  visit_devices-Keeps (suc n) progress true =
      bind-Keeps _ _ (in_store-Keeps flag true allowed _)
        (λ changes. seq-Keeps _ _ (visit_rows-Keeps progress changes) (pure-Keeps tt))

  load_changes-Keeps : (n : ℕ) (progress : Bool) → Keeps Loud (load_changes n (visit env progress))
  unfolding load_changes
  load_changes-Keeps n progress = seq-Keeps _ _ (in_store-Keeps flag true allowed _) (
      catch-Triple _ _
        (bind-Keeps _ _ (in_store-Keeps flag true allowed _) (λ changes.
          bind-Keeps _ _ (visit_rows-Keeps progress changes) (λ more.
            seq-Keeps _ _ (visit_devices-Keeps _ progress more)
              (in_store-Keeps flag true allowed _))))
        (λ e. seq-Keeps _ _ (in_store-Keeps flag true allowed _) (throw-Keeps e)))

  load_uploads-Keeps : Keeps Loud (load_uploads env)
  unfolding load_uploads
  load_uploads-Keeps =
      catch-Triple _ _
        (bind-Keeps _ _ (estimate_changes-Keeps flag true allowed env) (λ progress.
          bind-Keeps _ _ (gets-Keeps _) (λ n. seq-Keeps _ _ (load_changes-Keeps n progress) (
            bind-Keeps _ _ (gets-Keeps _)
              (λ idle. finish_uploads-Keeps flag true allowed env idle)))))
        (λ e. emit-Keeps flag true allowed _ tt)

-- Between the calls.
module _ {C : Type 0} (env : Env C) (flag allowed : Bool) where
  abbrev Quiet : Uploads × Store C → Type 0
  Quiet v = Speaks flag false allowed v

  quiet : (v : Uploads × Store C) → Speaks flag true allowed v → Quiet v
  quiet v h = record { enabled = h.enabled; said = h.said; starts = λ e. absurd (ground arith) }

  quiet-Post :
      {A : Type 0} (r : Result Failure A × (Uploads × Store C))
      → Post (λ _. Speaks flag true allowed) (λ _. Speaks flag true allowed) r
      → Post (λ _. Quiet) (λ _. Quiet) r
  quiet-Post (ok a, v) h = quiet v h
  quiet-Post (err e, v) h = quiet v h

  left :
      (r : Result Failure Unit × (Uploads × Store C)) → Post (λ _. Quiet) (λ _. Quiet) r → Quiet r.1
  left (ok a, v) h = h
  left (err e, v) h = h

  next-Triple :
      (starting : Bool)
      → (starting ≡ true → allowed ≡ true)
      → Triple Quiet
          (upload_next env starting)
          (λ _. Speaks flag true allowed)
          (λ _. Speaks flag true allowed)
  unfolding upload_next
  next-Triple starting may =
      seq-Triple
        (modify-Triple _ {Q = λ _. Speaks flag true allowed}
          (λ v h. record { enabled = h.enabled; said = h.said; starts = λ r e. may e }))
        (bind-Keeps _ _ (gets-Keeps _) (λ running.
          seq-Keeps _ _
            (if-Triple running
              (λ _. seq-Keeps _ _ (announce-Keeps env flag allowed) (pure-Keeps tt))
              (λ _. pure-Keeps tt))
            (bind-Keeps _ _ (gets-Keeps _) (λ full.
              if-Triple full (λ _. pure-Keeps tt) (λ _. load_uploads-Keeps env flag allowed)))))

  upload_next-Keeps :
      (starting : Bool)
      → (starting ≡ true → allowed ≡ true)
      → Keeps Quiet (upload_next env starting)
  upload_next-Keeps starting may = record {
    at = λ v h. quiet-Post (upload_next env starting v) ((next-Triple starting may).at v h);
  }

module _ {C : Type 0} (env : Env C) where
  abbrev Silent : Uploads × Store C → Type 0
  Silent v = v.0.emitted ≡ []

  silent :
      (flag allowed : Bool) (v : Uploads × Store C)
      → v.0.enabled ≡ flag
      → v.0.emitted ≡ []
      → Speaks flag false allowed v
  silent flag allowed v e n = record {
    enabled = e;
    said = rw n tt;
    starts = λ r. absurd (ground arith);
  }

  enable-Triple :
      (b : Bool)
      → Triple Silent (set_uploading_enabled env b) (λ _. Speaks b false b) (λ _. Speaks b false b)
  unfolding set_uploading_enabled
  enable-Triple true =
      seq-Triple
        (modify-Triple _ {Q = λ _. Speaks true false true} (λ v n. silent true true _ refl n))
        (upload_next-Keeps env true true true (λ e. e))
  enable-Triple false =
      seq-Triple
        (modify-Triple _ {Q = λ _. Speaks false false false} (λ v n. silent false false _ refl n))
        (seq-Keeps _ _ (set_timing-Keeps false false false false)
          (emit-Keeps false false false _ tt))

  clear-Triple :
      Triple Silent
        (clear_uploads env)
        (λ _. Speaks false false false)
        (λ _. Speaks false false false)
  unfolding clear_uploads
  clear-Triple =
      seq-Triple (enable-Triple false)
        (set-Keeps false false false _ (λ u. refl) (λ u. refl) (λ u. refl))

  change_triggered-Keeps : (flag : Bool) → Keeps (Speaks flag false flag) (change_triggered env)
  unfolding change_triggered
  change_triggered-Keeps flag =
      bind-Triple _ _
        (gets-Triple _ {Q = λ enabled v. Speaks flag false flag v × (v.0.enabled ≡ enabled)}
          (λ v h. (h, refl)))
        (λ enabled.
          bind-Triple _ _
            (gets-Triple _ {Q = λ _ v. Speaks flag false flag v × (v.0.enabled ≡ enabled)}
              (λ v h. h))
            (λ idle.
              if-Triple enabled (λ t. go idle enabled t)
                (λ _. weaken-Triple (λ v h. h.0) (λ a v h. h) (pure-Keeps tt))))
    where
      go :
          (idle enabled : Bool)
          → enabled ≡ true
          → Triple
              (λ v. Speaks flag false flag v × (v.0.enabled ≡ enabled))
              (upload_next env idle)
              (λ _. Speaks flag false flag)
              (λ _. Speaks flag false flag)
      go idle enabled t = record {
        at =
            λ v h. (upload_next-Keeps env flag flag idle (λ _. sym h.0.enabled ∙ h.1 ∙ t)).at v h.0;
      }

  -- A call sets the flag as it should, and says that uploads have started only if it may.
  pub perform-Speaks :
      (c : Call) (v : Uploads × Store C)
      → v.0.emitted ≡ []
      → Speaks (enabled_after c v.0.enabled) false (may_start c v.0.enabled) (perform env c v).1
  perform-Speaks (enable b) v n = left env b b _ ((enable-Triple b).at v n)
  perform-Speaks clear v n = left env false false _ (clear-Triple.at v n)
  perform-Speaks triggered v n =
      left env v.0.enabled v.0.enabled _
        ((change_triggered-Keeps v.0.enabled).at v (silent _ _ v refl n))
  perform-Speaks queued_next v n =
      left env v.0.enabled false _
        ((upload_next-Keeps env v.0.enabled false false (λ e. e)).at v (silent _ _ v refl n))
  perform-Speaks (plain_done hash) v n =
      left env v.0.enabled false _
        ((upload_done-Keeps v.0.enabled false false env hash).at v (silent _ _ v refl n))
  perform-Speaks (device_done hash device) v n = left env v.0.enabled false _ (
      (device_upload_done-Keeps v.0.enabled false false env hash device).at v (silent _ _ v refl n))
