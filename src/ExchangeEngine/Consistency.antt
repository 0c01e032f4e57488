-- ===== src/ExchangeEngine/Consistency.antt =====
-- What the engine shows fits what it has switched on, whatever happens.
use qt_data_sync.Common.{
  ℕ, ◌≡◌, refl, sym, ap, subst, ◌∙◌, arith, inl, inr, ◌⊎◌, Bool, true, false, Option, none, some,
  List, [], ◌∷◌, if◌then◌else◌, All,
}
use qt_data_sync.Common.Equality.{nat_eq}
use qt_data_sync.Environment.{Env}
use qt_data_sync.Exec.{Result, ok, err}
use qt_data_sync.LocalStore.State.{Store, Failure}
use qt_data_sync.LocalStore.Access.{reset}
use qt_data_sync.SyncController.{SyncSignal, sync_done, sync_change}
use qt_data_sync.ChangeController.{Signal, Queued, Call, queued_next, plain_done, next, done}
use qt_data_sync.ChangeController.Signals.{enabled_after, may_start, Fits}
use qt_data_sync.ExchangeEngine.{
  SyncState, initializing, downloading, uploading, synchronized, error, disconnected, Source,
  changes, remote, Engine, state_beq, enable_sync, call_uploads, clear_uploads, controller_error,
  react, react_all, run_uploads, react_sync, run_download, finish_reset, reset_engine, run_queued,
}
use qt_data_sync.ExchangeEngine.View.{
  View, view_of, see, view-uploading_changed, view-add_progress, view-increment_progress,
  view-enable_sync, view-call_uploads, said-call_uploads, view-clear_uploads, view-controller_error,
  sync_change-enabled,
}

-- The last error is there in the state Error alone. Uploads are switched on in Uploading, may be so
-- in Synchronized and are off in all other states; the ChangeController may report progress in
-- Uploading, the connector in Downloading, and in Error whoever did before. Without a
-- connection nothing is downloaded.
abbrev pub Fitting : SyncState → Bool → Option Source → Bool → Bool → Type 0
Fitting initializing has_error allowed up down =
    (has_error ≡ false) × (allowed ≡ none) × (up ≡ false) × (down ≡ false)
Fitting disconnected has_error allowed up down =
    (has_error ≡ false) × (allowed ≡ none) × (up ≡ false) × (down ≡ false)
Fitting downloading has_error allowed up down =
    (has_error ≡ false) × (allowed ≡ some remote) × (up ≡ false) × Unit
Fitting uploading has_error allowed up down =
    (has_error ≡ false) × (allowed ≡ some changes) × (up ≡ true) × Unit
Fitting synchronized has_error allowed up down =
    (has_error ≡ false) × (allowed ≡ none) × Unit × Unit
Fitting error has_error allowed up down = (has_error ≡ true) × Unit × (up ≡ false) × Unit

abbrev pub Good : View → Type 0
Good v = Fitting v.state v.has_error v.allowed v.up v.down

abbrev pub IsConsistent : {C : Type 0} → Engine C → Type 0
IsConsistent e = Good (view_of e)

-- Where the state is Error it stays so, and what is to come that says that uploads have started fits.
pub record Keeps (v w : View) : Type 0 where
  pub good : Good w
  pub up : (w.up ≡ v.up) ⊎ (w.state ≡ error)
  pub latched : v.state ≡ error → w.state ≡ error

seen-Fitting :
    (x : SyncState) (h : Bool) (a : Option Source) (u d : Bool)
    → Fitting x h a u d
    → (u ≡ true) ⊎ (x ≡ error)
    → Good (see true (record { state = x; has_error = h; allowed = a; up = u; down = d }))
seen-Fitting initializing h a u d g (inl t) = absurd (ground (arith, g, t))
seen-Fitting disconnected h a u d g (inl t) = absurd (ground (arith, g, t))
seen-Fitting downloading h a u d g (inl t) = absurd (ground (arith, g, t))
seen-Fitting initializing h a u d g (inr t) = absurd (ground (arith, t))
seen-Fitting disconnected h a u d g (inr t) = absurd (ground (arith, t))
seen-Fitting downloading h a u d g (inr t) = absurd (ground (arith, t))
seen-Fitting synchronized h a u d g (inr t) = absurd (ground (arith, t))
seen-Fitting synchronized h a u d g (inl t) = (g.0, refl, t, tt)
seen-Fitting uploading h a u d g t = g
seen-Fitting error h a u d g t = g

-- Also when uploads have just been switched off.
ended-Fitting :
    (x : SyncState) (h : Bool) (a : Option Source) (u w d : Bool)
    → Fitting x h a u d
    → (w ≡ u) ⊎ (w ≡ false)
    → Good (see false (record { state = x; has_error = h; allowed = a; up = w; down = d }))
ended-Fitting initializing h a u w d g t = (g.0, g.1, ground (arith, g, t), g.3)
ended-Fitting disconnected h a u w d g t = (g.0, g.1, ground (arith, g, t), g.3)
ended-Fitting downloading h a u w d g t = (g.0, g.1, ground (arith, g, t), tt)
ended-Fitting uploading h a u w d g t = (g.0, refl, tt, tt)
ended-Fitting synchronized h a u w d g t = (g.0, g.1, tt, tt)
ended-Fitting error h a u w d g t = (g.0, tt, ground (arith, g, t), tt)

abbrev MayStart : Bool → View → Type 0
MayStart allowed v = allowed ≡ true → (v.up ≡ true) ⊎ (v.state ≡ error)

see-Keeps : (b : Bool) (v : View) → Good v → MayStart b v → Keeps v (see b v)
see-Keeps true v g may = record {
  good = seen-Fitting v.state v.has_error v.allowed v.up v.down g (may refl);
  up = inl (same (state_beq v.state error) (state_beq v.state uploading));
  latched = λ h. rw h refl;
}
  where
    same :
        (b c : Bool)
        → (if b
            then v
            else if c
            then v
            else record v { state = uploading; allowed = some changes }).up
          ≡ v.up
    same true c = refl
    same false true = refl
    same false false = refl
see-Keeps false v g may = record {
  good = ended-Fitting v.state v.has_error v.allowed v.up v.up v.down g (inl refl);
  up = inl (same (state_beq v.state uploading));
  latched = λ h. rw h refl;
}
  where
    same :
        (b : Bool) → (if b then record v { state = synchronized; allowed = none } else v).up ≡ v.up
    same true = refl
    same false = refl

stay : (v : View) → Good v → Keeps v v
stay v g = record { good = g; up = inl refl; latched = λ h. h }

pub Keeps-trans : (u v w : View) → Keeps u v → Keeps v w → Keeps u w
Keeps-trans u v w a b = record {
  good = b.good;
  up = elim b.up [
    | inl q ↦ elim a.up [ inl p ↦ inl (q ∙ p) | inr p ↦ inr (b.latched p) ]
    | inr q ↦ inr q
  ];
  latched = λ h. b.latched (a.latched h);
}

may_still : (allowed : Bool) (v w : View) → Keeps v w → MayStart allowed v → MayStart allowed w
may_still allowed v w k may t = elim (may t) [
  | inl p ↦ elim k.up [ inl q ↦ inl (q ∙ p) | inr q ↦ inr q ]
  | inr p ↦ inr (k.latched p)
]

failed-Keeps : (v : View) → Keeps v (record v { state = error; has_error = true; up = false })
failed-Keeps v = record { good = (refl, tt, refl, tt); up = inr refl; latched = λ h. refl }

module _ {C : Type 0} (env : Env C) where
  react-Keeps :
      (allowed : Bool) (m : Signal) (e : Engine C)
      → Fits allowed m
      → IsConsistent e
      → MayStart allowed (view_of e)
      → Keeps (view_of e) (view_of (react env m e))
  react-Keeps allowed (Signal.uploading_changed true) e f g may =
      rw (view-uploading_changed true e) (see-Keeps true (view_of e) g (λ _. may f))
  react-Keeps allowed (Signal.uploading_changed false) e f g may =
      rw (view-uploading_changed false e)
        (see-Keeps false (view_of e) g (λ t. absurd (ground (arith, t))))
  react-Keeps allowed (Signal.upload key content) e f g may = stay (view_of e) g
  react-Keeps allowed (Signal.progress_added n) e f g may =
      rw (view-add_progress changes n e) (stay (view_of e) g)
  react-Keeps allowed Signal.progress_increment e f g may =
      rw (view-increment_progress changes e) (stay (view_of e) g)
  react-Keeps allowed Signal.controller_error e f g may =
      rw (view-controller_error env e) (failed-Keeps (view_of e))

  react_all-Keeps :
      (allowed : Bool) (ms : List Signal) (e : Engine C)
      → All (Fits allowed) ms
      → IsConsistent e
      → MayStart allowed (view_of e)
      → Keeps (view_of e) (view_of (react_all env ms e))
  unfolding react_all
  react_all-Keeps allowed [] e f g may = stay (view_of e) g
  react_all-Keeps allowed (m ∷ ms) e f g may =
      let one = react-Keeps allowed m e f.0 g may in
      Keeps-trans _ (view_of (react env m e)) _ one (
        react_all-Keeps allowed ms (react env m e) f.1 one.good
          (may_still allowed (view_of e) (view_of (react env m e)) one may))

  -- A call of the ChangeController, with what it causes.
  pub run_uploads-Keeps :
      (c : Call) (e : Engine C)
      → let v = record (view_of e) { up = enabled_after c e.uploads.enabled } in
        Good v
        → MayStart (may_start c e.uploads.enabled) v
        → Keeps v (view_of (run_uploads env c e))
  unfolding run_uploads
  run_uploads-Keeps c e g may =
      let q = view-call_uploads env c e in
      subst
        (λ v.
          Keeps v
            (view_of (react_all env (call_uploads env c e).uploads.emitted (call_uploads env c e))))
        q
        (react_all-Keeps (may_start c e.uploads.enabled) (call_uploads env c e).uploads.emitted
          (call_uploads env c e) (said-call_uploads env c e) (subst Good (sym q) g)
          (subst (λ v. MayStart (may_start c e.uploads.enabled) v) (sym q) may))

  react_sync-Keeps :
      (ms : List SyncSignal) (e : Engine C)
      → IsConsistent e
      → Keeps (view_of e) (view_of (react_sync env ms e))
  react_sync-Keeps [] e g = stay (view_of e) g
  react_sync-Keeps (sync_done id ∷ ms) e g = react_sync-Keeps ms _ g
  react_sync-Keeps (SyncSignal.controller_error ∷ ms) e g =
      let one : Keeps (view_of e) (view_of (controller_error env e)) =
        rw (view-controller_error env e) (failed-Keeps (view_of e)) in
      Keeps-trans _ (view_of (controller_error env e)) _ one
        (react_sync-Keeps ms (controller_error env e) one.good)

  pub run_download-Keeps :
      (id : ℕ) (content : Option _) (e : Engine C)
      → IsConsistent e
      → Keeps (view_of e) (view_of (run_download env id content e))
  unfolding run_download
  run_download-Keeps id content e g =
      let c = sync_change env id content (record e.sync { emitted = [] }) in
      let q : view_of (record e { sync = c }) ≡ view_of e =
        ap {A = Bool} (λ b. record (view_of e) { down = b })
          (sync_change-enabled env id content (record e.sync { emitted = [] })) in
      subst (λ v. Keeps v (view_of (react_sync env c.emitted (record e { sync = c })))) q
        (react_sync-Keeps c.emitted (record e { sync = c }) (subst Good (sym q) g))

  pub run_queued-Keeps :
      (queue : List Queued) (e : Engine C)
      → IsConsistent e
      → Keeps (view_of e) (view_of (run_queued env queue e))
  run_queued-Keeps [] e g = stay (view_of e) g
  run_queued-Keeps (next ∷ rest) e g =
      run_uploads-Keeps queued_next _ g (λ t. absurd (ground (arith, t)))
  run_queued-Keeps (done hash ∷ rest) e g =
      run_uploads-Keeps (plain_done hash) _ g (λ t. absurd (ground (arith, t)))

  silenced :
      (x : SyncState) (h : Bool) (a : Option Source) (u d : Bool)
      → Fitting x h a u d
      → Fitting x h a u false
  silenced initializing h a u d g = (g.0, g.1, g.2, refl)
  silenced disconnected h a u d g = (g.0, g.1, g.2, refl)
  silenced downloading h a u d g = g
  silenced uploading h a u d g = g
  silenced synchronized h a u d g = g
  silenced error h a u d g = g

  pub finish_reset-view :
      (b : Bool) (r : Result Failure Unit × Store C) (e : Engine C)
      → view_of (finish_reset env b r e) ≡ view_of e
  finish_reset-view b (ok a, s) e = refl
  finish_reset-view b (err x, s) e = refl

  -- After clearUploads, without downloads.
  abbrev pub cleared : View → View
  cleared v = see false (record v { down = false; up = false })

  pub cleared-Good : (v : View) → Good v → Good (cleared v)
  cleared-Good v g =
      ended-Fitting v.state v.has_error v.allowed v.up false false
        (silenced v.state v.has_error v.allowed v.up v.down g) (inr refl)

  pub view-reset_engine :
      (keep_data clear_config : Bool) (e : Engine C)
      → view_of (reset_engine env keep_data clear_config e) ≡ cleared (view_of e)
  unfolding reset_engine
  view-reset_engine keep_data clear_config e =
      let e' = clear_uploads env (enable_sync env false e) in
      finish_reset-view clear_config (reset env keep_data e'.sync.store) e'
      ∙ view-clear_uploads env (enable_sync env false e)
      ∙ ap (λ v. see false (record v { up = false })) (view-enable_sync env false e)
