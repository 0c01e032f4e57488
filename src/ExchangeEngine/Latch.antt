-- ===== src/ExchangeEngine/Latch.antt =====
-- The events of the engine, one by one and in a row.
use qt_data_sync.Common.{
  ◌≡◌, refl, sym, ap, subst, ◌∙◌, arith, inl, Bool, true, false, Option, none, some, List, [], ◌∷◌,
  ◌&&◌, not, if◌then◌else◌, All,
}
use qt_data_sync.Environment.{Env}
use qt_data_sync.Exec.{modify}
use qt_data_sync.SyncController.{set_sync_enabled}
use qt_data_sync.ChangeController.{enable, triggered, plain_done, device_done, update_upload_limit}
use qt_data_sync.ExchangeEngine.{
  SyncState, initializing, downloading, uploading, synchronized, error, disconnected, RemoteEvent,
  remote_disconnected, remote_connecting, remote_ready, remote_ready_with_changes, Source, changes,
  remote, Engine, Event, remote_event, connector_error, operation_timeout, connector_progress,
  connector_estimate, upload_limit, upload_done, granted, device_upload_done, download,
  upload_needed, queued_call, reset_requested, state_beq, is_connecting, upstate, clear_error,
  reset_progress, upstate_with, enable_sync, clear_uploads, handle_remote, on_remote_event,
  set_limit, controller_timeout, grant_account, run, run_all,
}
use qt_data_sync.ExchangeEngine.View.{
  View, view_of, see, view-upstate, view-clear_error, view-reset_progress, view-upstate_with,
  view-add_progress, view-increment_progress, view-clear_uploads, view-controller_error,
  view-enable_sync,
}
use qt_data_sync.ExchangeEngine.Consistency.{
  Fitting, Good, IsConsistent, Keeps, run_uploads-Keeps, run_download-Keeps, run_queued-Keeps,
  cleared, cleared-Good, view-reset_engine,
}

-- Nothing but a new attempt to connect.
abbrev pub IsOther : Event → Type 0
IsOther (remote_event r) = is_connecting r ≡ false
IsOther _ = Unit

record Step {C : Type 0} (x : Event) (e t : Engine C) : Type 0 where
  good : IsConsistent t
  latched : IsOther x → e.state ≡ error → t.state ≡ error

healthy :
    (x : SyncState) (h : Bool) (a : Option Source) (u d : Bool)
    → Fitting x h a u d
    → state_beq x error ≡ false
    → h ≡ false
healthy initializing h a u d g q = g.0
healthy disconnected h a u d g q = g.0
healthy downloading h a u d g q = g.0
healthy uploading h a u d g q = g.0
healthy synchronized h a u d g q = g.0
healthy error h a u d g q = absurd (ground (arith, q))

-- RemoteReadyWithChanges.
abbrev downloads : View → View
downloads v =
    if state_beq v.state downloading
    then v
    else record v { state = downloading; allowed = some remote }

downloads-Good :
    (v : View)
    → Good v
    → v.has_error ≡ false
    → Good (record (downloads v) { down = true; up = false })
downloads-Good v g h = at v.state v.has_error v.allowed v.up v.down g h
  where
    at :
        (x : SyncState) (h : Bool) (a : Option Source) (u d : Bool)
        → Fitting x h a u d
        → h ≡ false
        → Good
            (record (downloads
              (record { state = x; has_error = h; allowed = a; up = u; down = d })) {
                down = true;
                up = false;
              })
    at initializing h a u d g q = (q, refl, refl, tt)
    at disconnected h a u d g q = (q, refl, refl, tt)
    at downloading h a u d g q = (q, g.1, refl, tt)
    at uploading h a u d g q = (q, refl, refl, tt)
    at synchronized h a u d g q = (q, refl, refl, tt)
    at error h a u d g q = (q, refl, refl, tt)

module _ {C : Type 0} (env : Env C) where
  stays : (x : Event) (e t : Engine C) → Keeps (view_of e) (view_of t) → Step x e t
  stays x e t k = record { good = k.good; latched = λ o h. k.latched h }

  same : (x : Event) (e t : Engine C) → view_of t ≡ view_of e → IsConsistent e → Step x e t
  same x e t q g = record {
    good = subst Good (sym q) g;
    latched = λ o h. ap {A = View} (λ v. v.state) q ∙ h;
  }

  -- Without a connection.
  off :
      (e : Engine C) {v : View}
      → view_of e ≡ v
      → view_of (clear_uploads env (enable_sync env false e)) ≡ cleared env v
  off e q =
      view-clear_uploads env (enable_sync env false e)
      ∙ ap (λ v. see false (record v { up = false })) (view-enable_sync env false e)
      ∙ ap (cleared env) q

  handle_remote-Good :
      (r : RemoteEvent) (e : Engine C)
      → IsConsistent e
      → (is_connecting r ≡ false → e.has_error ≡ false)
      → IsConsistent (handle_remote env r e)
  unfolding set_sync_enabled
  handle_remote-Good remote_disconnected e g h =
      subst Good
        (sym (
          off (reset_progress none (upstate disconnected e)) (
            view-reset_progress none (upstate disconnected e)
            ∙ ap {A = View} (λ v. record v { allowed = none }) (view-upstate disconnected e))))
        (h refl, refl, refl, refl)
  handle_remote-Good remote_connecting e g h =
      let e' = reset_progress none (upstate initializing e) in
      subst Good
        (sym (
          off (clear_error e') (
            view-clear_error e'
            ∙ ap {A = View} (λ v. record v { has_error = false })
                (view-reset_progress none (upstate initializing e)
                  ∙ ap {A = View} (λ v. record v { allowed = none })
                      (view-upstate initializing e)))))
        (refl, refl, refl, refl)
  handle_remote-Good remote_ready e g h =
      let q =
        view-reset_progress (some changes) (upstate uploading e)
        ∙ ap {A = View} (λ v. record v { allowed = some changes }) (view-upstate uploading e) in
      (run_uploads-Keeps env (enable true)
        (enable_sync env true (reset_progress (some changes) (upstate uploading e)))
        (subst (λ (v : View). Good (record v { down = true; up = true })) (sym q)
          (h refl, refl, refl, tt))
        (λ t. inl refl)).good
  handle_remote-Good remote_ready_with_changes e g h =
      (run_uploads-Keeps env (enable false)
        (enable_sync env true (upstate_with downloading (some remote) e))
        (subst (λ (v : View). Good (record v { down = true; up = false }))
          (sym (view-upstate_with downloading (some remote) e))
          (downloads-Good (view_of e) g (h refl)))
        (λ t. absurd (ground (arith, t)))).good

  on_remote_event-Step :
      (r : RemoteEvent) (e : Engine C)
      → IsConsistent e
      → Step (remote_event r) e (on_remote_event env r e)
  unfolding on_remote_event
  on_remote_event-Step r e g = handled (state_beq e.state error) (is_connecting r) refl refl
    where
      handled :
          (a b : Bool)
          → state_beq e.state error ≡ a
          → is_connecting r ≡ b
          → Step (remote_event r) e (if a && not b then e else handle_remote env r e)
      handled true false p q = record { good = g; latched = λ o h. h }
      handled true true p q = record {
        good = handle_remote-Good r e g (λ t. absurd (ground (arith, q, t)));
        latched = λ o h. absurd (ground (arith, q, o));
      }
      handled false b p q = record {
        good = handle_remote-Good r e g (λ t.
            healthy e.state e.has_error e.progress_allowed e.uploads.enabled e.sync.enabled g p);
        latched = λ o h. absurd (ground (arith, rw h at p));
      }

  run-Step : (x : Event) (e : Engine C) → IsConsistent e → Step x e (run env x e)
  unfolding run set_limit update_upload_limit controller_timeout grant_account modify
  run-Step (remote_event r) e g = on_remote_event-Step r e g
  run-Step connector_error e g = record {
    good = subst Good (sym (view-controller_error env e)) (refl, tt, refl, tt);
    latched = λ o h. ap {A = View} (λ v. v.state) (view-controller_error env e);
  }
  run-Step operation_timeout e g = same operation_timeout e _ refl g
  run-Step connector_progress e g = same connector_progress e _ (view-increment_progress remote e) g
  run-Step (connector_estimate n) e g =
      same (connector_estimate n) e _ (view-add_progress remote n e) g
  run-Step (upload_limit n) e g = same (upload_limit n) e _ refl g
  run-Step (upload_done hash) e g =
      stays _ e _ (run_uploads-Keeps env (plain_done hash) e g (λ t. absurd (ground (arith, t))))
  run-Step (device_upload_done hash device) e g =
      stays _ e _
        (run_uploads-Keeps env (device_done hash device) e g (λ t. absurd (ground (arith, t))))
  run-Step (granted device) e g = same (granted device) e _ refl g
  run-Step (download id content) e g = stays _ e _ (run_download-Keeps env id content e g)
  run-Step upload_needed e g = stays _ e _ (run_uploads-Keeps env triggered e g (λ t. inl t))
  run-Step queued_call e g = stays _ e _ (run_queued-Keeps env e.uploads.queued e g)
  run-Step (reset_requested keep_data clear_config) e g = record {
    good =
        subst Good (sym (view-reset_engine env keep_data clear_config e))
          (cleared-Good env (view_of e) g);
    latched = λ o h.
        ap {A = View} (λ v. v.state) (view-reset_engine env keep_data clear_config e) ∙ kept h;
  }
    where
      kept : e.state ≡ error → (cleared env (view_of e)).state ≡ error
      kept h = rw h refl

  -- If the last error, the uploads, the downloads and the reporter of progress fit the state of the
  -- engine, then they do so after any events, whatever the store and the settings do. Uploads are on
  -- in Uploading, may be on in Synchronized and are off in all other states; there is a last error in
  -- Error alone; nothing is downloaded in Initializing and Disconnected; only the ChangeController may
  -- report progress in Uploading, only the connector in Downloading, and nobody in the other states but Error.
  pub run_all-IsConsistent :
      (events : List Event) (e : Engine C) → IsConsistent e → IsConsistent (run_all env events e)
  unfolding run_all
  run_all-IsConsistent [] e g = g
  run_all-IsConsistent (x ∷ xs) e g = run_all-IsConsistent xs (run env x e) (run-Step x e g).good

  -- From a consistent engine in the state Error, no events but a new attempt to connect lead out of it:
  -- the error stays shown, and uploads stay switched off.
  pub run_all-Latched :
      (events : List Event) (e : Engine C)
      → IsConsistent e
      → e.state ≡ error
      → All IsOther events
      → let t = run_all env events e in
        (t.state ≡ error) × (t.has_error ≡ true) × (t.uploads.enabled ≡ false)
  unfolding run_all
  run_all-Latched [] e g h o =
      let x = shown e.state e.has_error e.progress_allowed e.uploads.enabled e.sync.enabled g h in
      (h, x.0, x.1)
    where
      shown :
          (x : SyncState) (h : Bool) (a : Option Source) (u d : Bool)
          → Fitting x h a u d
          → x ≡ error
          → (h ≡ true) × (u ≡ false)
      shown x h a u d g q = let f = rw q at g in (f.0, f.2)
  run_all-Latched (x ∷ xs) e g h o =
      let one = run-Step x e g in run_all-Latched xs (run env x e) one.good (one.latched o.0 h) o.1
