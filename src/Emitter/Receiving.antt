-- ===== src/Emitter/Receiving.antt =====
-- What the emitter sends for the calls it receives, and what an adapter emits for these signals.
use qt_data_sync.Common.{
  ℕ, ◌≡◌, refl, arith, sym, ap, ◌∙◌, Bool, true, false, List, [], ◌∷◌, ◌++◌, if◌then◌else◌,
  append_assoc, append-nil, Option-cases, inl, inr,
}
use qt_data_sync.Common.Equality.{nat_eq}
use qt_data_sync.Environment.{ObjectKey, Env}
use qt_data_sync.Emitter.{
  Emitter, Signal, BackendCall, change, clears, resets, upload, remote_change, remote_clears,
  remote_resets, emit_signals, drop_cached, clear_cached,
}
use qt_data_sync.Emitter.Backend.{
  BackendSignal, upload_needed, emitter_changed, emitter_resetted, remote_changed, remote_resetted,
  Backend, on_cache, receive_call, receive_calls, data_changed_impl, data_resetted_impl, to_primary,
  to_passive, remote_data_changed_impl, remote_data_resetted_impl, deliver, deliver_all,
}
use qt_data_sync.Emitter.Hearing.{published, all_published, hears, all_heard}

module _ {C : Type 0} (env : Env C) where
  on_cache-emitted : (f : C → C) (b : Backend C) → (on_cache f b).emitted ≡ b.emitted
  on_cache-emitted f b = elim (Option-cases b.cache) [ inl h ↦ rw h refl | inr h ↦ rw h.1 refl ]

  receive_call-emitted :
      (c : BackendCall) (b : Backend C) → (receive_call env c b).emitted ≡ b.emitted ++ published c
  unfolding receive_call published
  receive_call-emitted (change origin key deleted changed) b = refl
  receive_call-emitted (clears origin t ids) b = refl
  receive_call-emitted (resets origin) b = refl
  receive_call-emitted upload b = refl
  receive_call-emitted (remote_change key deleted changed) b =
      ap (λ e. e ++ published (remote_change key deleted changed)) (on_cache-emitted _ b)
  receive_call-emitted (remote_clears t ids) b =
      ap (λ e. e ++ published (remote_clears t ids)) (on_cache-emitted _ b)
  receive_call-emitted remote_resets b =
      ap (λ e. e ++ published remote_resets) (on_cache-emitted _ b)

  pub receive_calls-emitted :
      (cs : List BackendCall) (b : Backend C)
      → (receive_calls env cs b).emitted ≡ b.emitted ++ all_published cs
  unfolding receive_calls all_published
  receive_calls-emitted [] b = sym (append-nil b.emitted)
  receive_calls-emitted (c ∷ cs) b =
      receive_calls-emitted cs (receive_call env c b)
      ∙ ap (λ e. e ++ all_published cs) (receive_call-emitted c b)
      ∙ append_assoc b.emitted (published c) (all_published cs)

  -- An adapter that keeps its kind and its store and emits `l` more.
  record Emits (l : List Signal) (e e' : Emitter C) : Type 0 where
    kind : e'.is_primary ≡ e.is_primary
    parent : e'.origin ≡ e.origin
    emits : e'.signals ≡ e.signals ++ l

  none-Emits : (e : Emitter C) → Emits [] e e
  none-Emits e = record { kind = refl; parent = refl; emits = sym (append-nil e.signals) }

  if-Emits :
      (b : Bool) (l : List Signal) (e : Emitter C)
      → Emits (if b then l else []) e (if b then emit_signals l e else e)
  if-Emits true l e = record { kind = refl; parent = refl; emits = refl }
  if-Emits false l e = none-Emits e

  drop_cached-Emits :
      (key : ObjectKey) (l : List Signal) (e : Emitter C)
      → Emits l e (emit_signals l (drop_cached env key e))
  unfolding drop_cached
  drop_cached-Emits key l e = record {
    kind = ground arith;
    parent = ground arith;
    emits = ground arith;
  }

  clear_cached-Emits :
      (l : List Signal) (e : Emitter C) → Emits l e (emit_signals l (clear_cached env e))
  unfolding clear_cached
  clear_cached-Emits l e = elim (Option-cases e.cache) [
    | inl h ↦ rw h (record { kind = refl; parent = refl; emits = refl })
    | inr h ↦ rw h.1 (record { kind = refl; parent = refl; emits = refl })
  ]

  to_primary-Emits :
      (s : BackendSignal) (e : Emitter C) → Emits (hears true e.origin s) e (to_primary env s e)
  unfolding hears data_changed_impl data_resetted_impl
  to_primary-Emits (emitter_changed origin key deleted) e = if-Emits _ _ e
  to_primary-Emits (emitter_resetted origin) e = if-Emits _ _ e
  to_primary-Emits upload_needed e = none-Emits e
  to_primary-Emits (remote_changed key deleted) e = none-Emits e
  to_primary-Emits remote_resetted e = none-Emits e

  to_passive-Emits :
      (s : BackendSignal) (e : Emitter C) → Emits (hears false e.origin s) e (to_passive env s e)
  unfolding hears remote_data_changed_impl remote_data_resetted_impl
  to_passive-Emits (remote_changed key deleted) e = drop_cached-Emits key _ e
  to_passive-Emits remote_resetted e = clear_cached-Emits _ e
  to_passive-Emits upload_needed e = none-Emits e
  to_passive-Emits (emitter_changed origin key deleted) e = none-Emits e
  to_passive-Emits (emitter_resetted origin) e = none-Emits e

  first-Emits :
      (b : Bool) {l : List Signal} {e x : Emitter C} (y : Emitter C)
      → b ≡ true
      → Emits l e x
      → Emits l e (if b then x else y)
  first-Emits b y h k = rw h k

  second-Emits :
      (b : Bool) {l : List Signal} {e y : Emitter C} (x : Emitter C)
      → b ≡ false
      → Emits l e y
      → Emits l e (if b then x else y)
  second-Emits b x h k = rw h k

  deliver-Emits :
      (p : Bool) (s : BackendSignal) (e : Emitter C)
      → e.is_primary ≡ p
      → Emits (hears p e.origin s) e (deliver env s e)
  unfolding deliver
  deliver-Emits true s e h = first-Emits e.is_primary _ h (to_primary-Emits s e)
  deliver-Emits false s e h = second-Emits e.is_primary _ h (to_passive-Emits s e)

  pub deliver_all-Emits :
      (p : Bool) (parent : ℕ) (ss : List BackendSignal) (e : Emitter C)
      → e.is_primary ≡ p
      → e.origin ≡ parent
      → (deliver_all env ss e).signals ≡ e.signals ++ all_heard p parent ss
  unfolding deliver_all all_heard
  deliver_all-Emits p parent [] e h o = sym (append-nil e.signals)
  deliver_all-Emits p parent (s ∷ ss) e h o =
      let d = deliver-Emits p s e h in
      deliver_all-Emits p parent ss (deliver env s e) (d.kind ∙ h) (d.parent ∙ o)
      ∙ ap (λ x. x ++ all_heard p parent ss) d.emits
      ∙ append_assoc e.signals (hears p e.origin s) (all_heard p parent ss)
      ∙ rw o refl
