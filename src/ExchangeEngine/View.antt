-- ===== src/ExchangeEngine/View.antt =====
-- What the engine shows and has switched on, apart from the progress and the store.
use qt_data_sync.Common.{
  ℕ, ◌≡◌, refl, sym, ap, ◌∙◌, inl, inr, Bool, true, false, Option, none, some, [], if◌then◌else◌,
  All, Bool-cases,
}
use qt_data_sync.Common.Equality.{◌==◌, ==_iff, nat_eq}
use qt_data_sync.Environment.{ObjectKey, Env}
use qt_data_sync.Exec.{Result, ok, err}
use qt_data_sync.LocalStore.State.{Store, Failure}
use qt_data_sync.SyncController.{
  Remote, Controller, report, apply_change, sync_store, sync_change, set_sync_enabled,
}
use qt_data_sync.ChangeController.{Call, clear, perform}
use qt_data_sync.ChangeController.Signals.{enabled_after, may_start, Fits, Speaks}
use qt_data_sync.ChangeController.Starting.{perform-Speaks}
use qt_data_sync.ExchangeEngine.{
  SyncState, initializing, downloading, uploading, synchronized, error, disconnected, Source,
  changes, Engine, state_value, state_beq, source_beq, upstate, clear_error, reset_progress,
  upstate_with, uploading_changed, add_progress, increment_progress, enable_sync, call_uploads,
  clear_uploads, controller_error,
}

pub record View : Type 0 where
  pub state : SyncState
  pub has_error : Bool
  pub allowed : Option Source
  pub up : Bool
  pub down : Bool

abbrev pub view_of : {C : Type 0} → Engine C → View
view_of e = record {
  state = e.state;
  has_error = e.has_error;
  allowed = e.progress_allowed;
  up = e.uploads.enabled;
  down = e.sync.enabled;
}

-- uploadingChanged.
abbrev pub see : Bool → View → View
see true v =
    if state_beq v.state error
    then v
    else if state_beq v.state uploading
    then v
    else record v { state = uploading; allowed = some changes }
see false v =
    if state_beq v.state uploading then record v { state = synchronized; allowed = none } else v

state_at : ℕ → SyncState
state_at n =
    if n == 0
    then initializing
    else if n == 1
    then downloading
    else if n == 2
    then uploading
    else if n == 3
    then synchronized
    else if n == 4
    then error
    else disconnected

state_at-value : (x : SyncState) → state_at (state_value x) ≡ x
unfolding state_at
state_at-value initializing = refl
state_at-value downloading = refl
state_at-value uploading = refl
state_at-value synchronized = refl
state_at-value error = refl
state_at-value disconnected = refl

pub state_beq_eq : (a b : SyncState) → state_beq a b ≡ true → a ≡ b
state_beq_eq a b h =
    sym (state_at-value a)
    ∙ ap state_at ((==_iff (state_value a) (state_value b)).0 h)
    ∙ state_at-value b

module _ {C : Type 0} where
  if_lem :
      (b : Bool) (x y : Engine C) {v w : View}
      → (b ≡ true → view_of x ≡ v)
      → view_of y ≡ w
      → view_of (if b then x else y) ≡ (if b then v else w)
  if_lem true x y h k = h refl
  if_lem false x y h k = k

  both :
      (b : Bool) (x y : Engine C) (v : View)
      → (b ≡ true → view_of x ≡ v)
      → (b ≡ false → view_of y ≡ v)
      → view_of (if b then x else y) ≡ v
  both true x y v h k = h refl
  both false x y v h k = k refl

  pub view-upstate :
      (x : SyncState) (e : Engine C) → view_of (upstate x e) ≡ record (view_of e) { state = x }
  unfolding upstate
  view-upstate x e =
      both (state_beq e.state x) _ _ _
        (λ h. ap (λ y. record (view_of e) { state = y }) (state_beq_eq e.state x h)) (λ h. refl)

  pub view-clear_error :
      (e : Engine C) → view_of (clear_error e) ≡ record (view_of e) { has_error = false }
  unfolding clear_error
  view-clear_error e =
      both e.has_error _ _ _ (λ h. refl)
        (λ h. ap {A = Bool} (λ b. record (view_of e) { has_error = b }) h)

  pub view-reset_progress :
      (source : Option Source) (e : Engine C)
      → view_of (reset_progress source e) ≡ record (view_of e) { allowed = source }
  unfolding reset_progress
  view-reset_progress source e = elim (Bool-cases (e.progress_max == 0)) [
    | inl q ↦ rw q refl
    | inr q ↦ rw q refl
  ]

  pub view-upstate_with :
      (x : SyncState) (source : Option Source) (e : Engine C)
      → view_of (upstate_with x source e) ≡ (
          if state_beq e.state x
          then view_of e
          else record (view_of e) { state = x; allowed = source })
  view-upstate_with x source e =
      if_lem (state_beq e.state x) _ _ (λ h. refl)
        (view-reset_progress source (upstate x e)
          ∙ ap {A = View} (λ v. record v { allowed = source }) (view-upstate x e))

  pub view-uploading_changed :
      (b : Bool) (e : Engine C) → view_of (uploading_changed b e) ≡ see b (view_of e)
  unfolding uploading_changed
  view-uploading_changed true e =
      if_lem (state_beq e.state error) _ _ (λ h. refl)
        (view-upstate_with uploading (some changes) e)
  view-uploading_changed false e =
      if_lem (state_beq e.state uploading) _ _
        (λ h.
          view-reset_progress none (upstate synchronized e)
          ∙ ap {A = View} (λ v. record v { allowed = none }) (view-upstate synchronized e))
        refl

  pub view-add_progress :
      (source : Source) (n : ℕ) (e : Engine C) → view_of (add_progress source n e) ≡ view_of e
  unfolding add_progress
  view-add_progress source n e =
      both (source_beq source e.progress_allowed) _ _ _ (λ h. refl) (λ h. refl)

  pub view-increment_progress :
      (source : Source) (e : Engine C) → view_of (increment_progress source e) ≡ view_of e
  unfolding increment_progress
  view-increment_progress source e =
      both (source_beq source e.progress_allowed) _ _ _ (λ h. refl) (λ h. refl)

module _ {C : Type 0} (env : Env C) where
  pub view-enable_sync :
      (b : Bool) (e : Engine C) → view_of (enable_sync env b e) ≡ record (view_of e) { down = b }
  unfolding set_sync_enabled
  view-enable_sync b e = refl

  spoken :
      (c : Call) (e : Engine C)
      → Speaks
          (enabled_after c e.uploads.enabled)
          false
          (may_start c e.uploads.enabled)
          (perform env c (record e.uploads { emitted = [] }, e.sync.store)).1
  spoken c e = perform-Speaks env c (record e.uploads { emitted = [] }, e.sync.store) refl

  pub view-call_uploads :
      (c : Call) (e : Engine C)
      → view_of (call_uploads env c e)
        ≡ record (view_of e) { up = enabled_after c e.uploads.enabled }
  unfolding call_uploads
  view-call_uploads c e = ap (λ b. record (view_of e) { up = b }) (spoken c e).enabled

  pub said-call_uploads :
      (c : Call) (e : Engine C)
      → All (Fits (may_start c e.uploads.enabled)) (call_uploads env c e).uploads.emitted
  unfolding call_uploads
  said-call_uploads c e = (spoken c e).said

  pub view-clear_uploads :
      (e : Engine C) → view_of (clear_uploads env e) ≡ see false (record (view_of e) { up = false })
  unfolding clear_uploads
  view-clear_uploads e =
      view-uploading_changed false (call_uploads env clear e)
      ∙ ap (see false) (view-call_uploads clear e)

  pub view-controller_error :
      (e : Engine C)
      → view_of (controller_error env e)
        ≡ record (view_of e) { state = error; has_error = true; up = false }
  unfolding controller_error
  view-controller_error e =
      view-clear_uploads _
      ∙ ap {A = View} (λ v. see false (record v { up = false })) (view-upstate error _)

  reported :
      (id : ℕ) (c : Controller C) (r : Result Failure Unit × Store C)
      → (report env id c r).enabled ≡ c.enabled
  reported id c (ok a, s) = refl
  reported id c (err x, s) = refl

  applied :
      (id : ℕ) (content : Option (ObjectKey × Remote)) (c : Controller C)
      → (apply_change env id content c).enabled ≡ c.enabled
  applied id none c = refl
  applied id (some (key, change)) c = reported id c (sync_store env key change c.store)

  pub sync_change-enabled :
      (id : ℕ) (content : Option (ObjectKey × Remote)) (c : Controller C)
      → (sync_change env id content c).enabled ≡ c.enabled
  unfolding sync_change
  sync_change-enabled id content c =
      unchanged c.enabled (apply_change env id content c) (applied id content c)
    where
      unchanged :
          (b : Bool) (d : Controller C)
          → d.enabled ≡ c.enabled
          → (if b then d else c).enabled ≡ c.enabled
      unchanged true d h = h
      unchanged false d h = refl
