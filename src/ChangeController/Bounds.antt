-- ===== src/ChangeController/Bounds.antt =====
-- No more uploads run than the limit allows, and none of them twice.
use qt_data_sync.Common.{
  ℕ, zero, suc, ◌≤◌, ◌<◌, ◌≡◌, refl, arith, Bool, true, false, Option, none, some, List, [], ◌∷◌,
  ◌&&◌, length, leb, ltb→lt,
}
use qt_data_sync.Common.Equality.{◌==◌, nat_eq}
use qt_data_sync.Table.{get, delete_where, IsUnique}
use qt_data_sync.Table.Laws.{delete_where-IsUnique, length-delete_where}
use qt_data_sync.Environment.{Env}
use qt_data_sync.Exec.{Result, ok, err, pure}
use qt_data_sync.Exec.Triple.{
  Triple, Post, Keeps, pure-Keeps, throw-Keeps, gets-Keeps, bind-Keeps, seq-Keeps, modify-Keeps,
  catch-Triple, seq-Triple, bind-Triple, pure-Triple, gets-Triple, modify-Triple, if-Triple,
  relax-Triple, weaken-Triple,
}
use qt_data_sync.LocalStore.State.{Store, Failure, Method, is_some}
use qt_data_sync.LocalStore.Sync.{Change}
use qt_data_sync.LocalStore.Changes.{visit_rows, visit_devices, load_changes}
use qt_data_sync.ChangeController.{
  UploadKey, UploadInfo, upload_eq, Uploads, Step, complete, upload_key, start_upload, visit,
  load_uploads, upload_next, finish_upload, upload_done, device_upload_done, Call, enable, clear,
  plain_done, device_done, triggered, queued_next, perform, perform_all, set_uploading_enabled,
  clear_uploads, change_triggered,
}
use qt_data_sync.ChangeController.Frame.{
  OfActive, set-Keeps, emit-Keeps, enqueue-Keeps, set_timing-Keeps, in_store-Keeps, announce-Keeps,
  send_change-Keeps, estimate_changes-Keeps, finish_uploads-Keeps,
}

module _ {C : Type 0} (limit : ℕ) where
  -- The uploads have different keys and are at most as many as the limit.
  abbrev pub Held : Uploads × Store C → Type 0
  Held v = (v.0.limit ≡ limit) × (length v.0.active ≤ limit) × IsUnique v.0.active

  -- There is room for one more.
  abbrev pub Free : Uploads × Store C → Type 0
  Free v = (v.0.limit ≡ limit) × (length v.0.active < limit) × IsUnique v.0.active

  held : (v : Uploads × Store C) → Free v → Held v
  held v p = (p.0, omega arith, p.2)

module _ {C : Type 0} (env : Env C) (limit : ℕ) where
  held_only : OfActive (Held {C = C} limit)
  held_only = record { carries = λ v w a l p. rw (a, l) p }

  abbrev FreeFor : UploadKey → Uploads × Store C → Type 0
  FreeFor key v = Free limit v × (get key v.0.active ≡ none)

  free_for : (key : UploadKey) → OfActive (FreeFor key)
  free_for key = record { carries = λ v w a l p. rw (a, l) p }

  -- A step before the upload is entered.
  early :
      {A : Type 0} (key : UploadKey) {m : Step C A}
      → Keeps (FreeFor key) m
      → Triple (FreeFor key) m (λ _. FreeFor key) (λ _. Held limit)
  early key k = relax-Triple (FreeFor key) (Held limit) (λ v p. held limit v p.0) k

  -- What a visit leaves: room for one more, if it says to go on.
  abbrev Visited : Bool → Uploads × Store C → Type 0
  Visited more v = Held limit v × (more ≡ true → length v.0.active < limit)

  start_upload-Triple :
      (progress : Bool) (c : Change)
      → Triple (FreeFor (upload_key env c)) (start_upload env progress c) Visited (λ _. Held limit)
  unfolding start_upload
  start_upload-Triple progress c =
      bind-Triple _ _ (early key (announce-Keeps (free_for key))) (λ first.
        bind-Triple _ _ (early key (gets-Keeps _)) (λ estimate.
          seq-Triple
            (early key (
              if-Triple (first && progress) (λ _. emit-Keeps (free_for key) _)
                (λ _. pure-Keeps tt)))
            (seq-Triple
              (modify-Triple _ {Q = λ _. Held limit} (λ v p. (p.0.0, omega arith, (p.1, p.0.2))))
              (seq-Triple (set_timing-Keeps held_only true) (
                seq-Triple (send_change-Keeps held_only env c c.file) (
                  gets-Triple _
                    (λ v p. (p, λ t. rw p.0 at (ltb→lt (length v.0.active) v.0.limit t)))))))))
    where
      key : UploadKey
      key = upload_key env c

  unknown : {A : Type 0} (o : Option A) → is_some o ≡ false → o ≡ none
  unknown none e = refl
  unknown (some a) e = absurd (ground arith)

  visit-Triple :
      (progress : Bool) (c : Change)
      → Triple (Free limit) (visit env progress c) Visited (λ _. Held limit)
  unfolding visit
  visit-Triple progress c =
      bind-Triple _ _
        (gets-Triple _
          {Q = λ known v. Free limit v × (is_some (get (upload_key env c) v.0.active) ≡ known)}
          (λ v p. (p, refl)))
        (λ known.
          if-Triple known (λ _. pure-Triple true (λ v p. (held limit v p.0, λ _. p.0.1)))
            (λ f.
              weaken-Triple (λ v p. (p.0, unknown _ (rw f at p.1))) (λ a v q. q)
                (start_upload-Triple progress c)))

  abbrev free_only : OfActive (Free {C = C} limit)
  free_only = record { carries = λ v w a l p. rw (a, l) p }

  room :
      {A : Type 0} {m : Step C A}
      → Keeps (Free limit) m
      → Triple (Free limit) m (λ _. Free limit) (λ _. Held limit)
  room k = relax-Triple (Free limit) (Held limit) (held limit) k

  resume : (v : Uploads × Store C) → Visited true v → Free limit v
  resume v p = (p.0.0, p.1 refl, p.0.2)

  go_on :
      {m : Step C Bool} (more : Bool)
      → Triple (Free limit) m Visited (λ _. Held limit)
      → Triple
          (Visited more)
          (elim more as (λ _. Step C Bool) [ true ↦ m | false ↦ pure false ])
          Visited
          (λ _. Held limit)
  go_on true t = weaken-Triple resume (λ a v q. q) t
  go_on false t = pure-Triple false (λ v p. p)

  visit_rows-Triple :
      (progress : Bool) (rows : List Change)
      → Triple (Free limit) (visit_rows (visit env progress) rows) Visited (λ _. Held limit)
  unfolding visit_rows
  visit_rows-Triple progress [] = pure-Triple true (λ v p. (held limit v p, λ _. p.1))
  visit_rows-Triple progress (c ∷ cs) =
      bind-Triple _ _ (visit-Triple progress c) (λ more. go_on more (visit_rows-Triple progress cs))

  visit_devices-Triple :
      (n : ℕ) (progress more : Bool)
      → Triple
          (Visited more)
          (visit_devices n (visit env progress) more)
          (λ _. Held limit)
          (λ _. Held limit)
  unfolding visit_devices
  visit_devices-Triple n progress false = pure-Triple tt (λ v p. p.0)
  visit_devices-Triple zero progress true = pure-Triple tt (λ v p. p.0)
  visit_devices-Triple (suc n) progress true =
      weaken-Triple resume (λ a v q. q)
        (bind-Triple _ _ (room (in_store-Keeps free_only _)) (λ changes.
          seq-Triple (weaken-Triple (λ v p. p) (λ a v q. q.0) (visit_rows-Triple progress changes))
            (pure-Keeps tt)))

  load_changes-Triple :
      (n : ℕ) (progress : Bool)
      → Triple
          (Free limit)
          (load_changes n (visit env progress))
          (λ _. Held limit)
          (λ _. Held limit)
  unfolding load_changes
  load_changes-Triple n progress = seq-Triple (room (in_store-Keeps free_only _)) (
      catch-Triple _ _
        (bind-Triple _ _ (room (in_store-Keeps free_only _)) (λ changes.
          bind-Triple _ _ (visit_rows-Triple progress changes) (λ more.
            seq-Triple (visit_devices-Triple _ progress more) (in_store-Keeps held_only _))))
        (λ e. seq-Triple (in_store-Keeps held_only _) (throw-Keeps e)))

  load_uploads-Triple : Triple (Free limit) (load_uploads env) (λ _. Held limit) (λ _. Held limit)
  unfolding load_uploads
  load_uploads-Triple =
      catch-Triple _ _
        (bind-Triple _ _ (room (estimate_changes-Keeps free_only env)) (λ progress.
          bind-Triple _ _ (room (gets-Keeps _)) (λ n.
            seq-Triple (load_changes-Triple n progress)
              (bind-Triple _ _ (gets-Keeps _) (λ idle. finish_uploads-Keeps held_only env idle)))))
        (λ e. emit-Keeps held_only _)

  -- uploadNext, whatever it throws, runs at most `limit` uploads if it did before, each once.
  pub upload_next-Held : (starting : Bool) → Keeps (Held limit) (upload_next env starting)
  unfolding upload_next
  upload_next-Held starting = seq-Triple (set-Keeps held_only _ (λ u. refl) (λ u. refl)) (
      bind-Triple _ _ (gets-Keeps _) (λ running.
        seq-Triple
          (if-Triple running (λ _. seq-Keeps _ _ (announce-Keeps held_only) (pure-Keeps tt))
            (λ _. pure-Keeps tt))
          (bind-Triple _ _
            (gets-Triple _ {Q = λ full v. Held limit v × (leb v.0.limit (length v.0.active) ≡ full)}
              (λ v p. (p, refl)))
            (λ full.
              if-Triple full (λ _. pure-Triple tt (λ v p. p.0))
                (λ f.
                  weaken-Triple
                    (λ v p. (
                      p.0.0,
                      rw p.0.0 at (below v.0.limit (length v.0.active) (rw f at p.1)),
                      p.0.2,
                    ))
                    (λ a v q. q) load_uploads-Triple)))))
    where
      below : (l n : ℕ) → leb l n ≡ false → n < l
      below l n e = ground arith

  fewer :
      (key : UploadKey) (v : Uploads × Store C)
      → Held limit v
      → Held limit (record v.0 { active = delete_where (λ k i. k == key) v.0.active }, v.1)
  fewer key v p = (
    p.0,
    (let n = length-delete_where (λ k i. k == key) v.0.active in omega arith),
    delete_where-IsUnique _ _ p.2,
  )

  complete-Keeps : Keeps (Held {C = C} limit) complete
  unfolding complete
  complete-Keeps = seq-Keeps _ _ (set-Keeps held_only _ (λ u. refl) (λ u. refl)) (
      seq-Keeps _ _ (emit-Keeps held_only _) (
        bind-Keeps _ _ (gets-Keeps _)
          (λ more. if-Triple more (λ _. enqueue-Keeps held_only _) (λ _. pure-Keeps tt))))

  finish_upload-Keeps :
      (key : UploadKey) (info : Option UploadInfo) (store : UploadInfo → Method C Unit)
      → Keeps (Held limit) (finish_upload env key info store)
  finish_upload-Keeps key none store = pure-Keeps tt
  finish_upload-Keeps key (some i) store =
      catch-Triple _ _
        (seq-Keeps _ _ (modify-Keeps _ (fewer key))
          (seq-Keeps _ _ (in_store-Keeps held_only (store i)) complete-Keeps))
        (λ e. emit-Keeps held_only _)

  upload_done-Keeps : (hash : ℕ) → Keeps (Held limit) (upload_done env hash)
  unfolding upload_done
  upload_done-Keeps hash = bind-Keeps _ _ (gets-Keeps _) (λ i. finish_upload-Keeps _ i _)

  device_upload_done-Keeps :
      (hash device : ℕ) → Keeps (Held limit) (device_upload_done env hash device)
  unfolding device_upload_done
  device_upload_done-Keeps hash device =
      bind-Keeps _ _ (gets-Keeps _) (λ i. finish_upload-Keeps _ i _)

  set_uploading_enabled-Keeps : (b : Bool) → Keeps (Held limit) (set_uploading_enabled env b)
  unfolding set_uploading_enabled
  set_uploading_enabled-Keeps true =
      seq-Keeps _ _ (set-Keeps held_only _ (λ u. refl) (λ u. refl)) (upload_next-Held true)
  set_uploading_enabled-Keeps false =
      seq-Keeps _ _ (set-Keeps held_only _ (λ u. refl) (λ u. refl))
        (seq-Keeps _ _ (set_timing-Keeps held_only false) (emit-Keeps held_only _))

  clear_uploads-Keeps : Keeps (Held limit) (clear_uploads env)
  unfolding clear_uploads
  clear_uploads-Keeps =
      seq-Keeps _ _ (set_uploading_enabled-Keeps false)
        (modify-Keeps _ (λ v p. (p.0, omega arith, tt)))

  change_triggered-Keeps : Keeps (Held limit) (change_triggered env)
  unfolding change_triggered
  change_triggered-Keeps = bind-Keeps _ _ (gets-Keeps _) (λ enabled.
      bind-Keeps _ _ (gets-Keeps _)
        (λ idle. if-Triple enabled (λ _. upload_next-Held idle) (λ _. pure-Keeps tt)))

  perform-Keeps : (c : Call) → Keeps (Held limit) (perform env c)
  perform-Keeps (enable b) = set_uploading_enabled-Keeps b
  perform-Keeps clear = clear_uploads-Keeps
  perform-Keeps (plain_done hash) = upload_done-Keeps hash
  perform-Keeps (device_done hash device) = device_upload_done-Keeps hash device
  perform-Keeps triggered = change_triggered-Keeps
  perform-Keeps queued_next = upload_next-Held false

  left :
      {A : Type 0} (r : Result Failure A × (Uploads × Store C))
      → Post (λ _. Held limit) (λ _. Held limit) r
      → Held limit r.1
  left (ok a, s) p = p
  left (err e, s) p = p

  -- Any calls of the controller's methods but updateUploadLimit, in any order and whether or not the
  -- store throws, leave at most `limit` running uploads, each of a key and device of its own, if
  -- it was so before.
  pub perform_all-Held :
      (calls : List Call) (v : Uploads × Store C)
      → Held limit v
      → Held limit (perform_all env calls v)
  unfolding perform_all
  perform_all-Held [] v p = p
  perform_all-Held (c ∷ cs) v p =
      perform_all-Held cs (perform env c v).1 (left (perform env c v) ((perform-Keeps c).at v p))
