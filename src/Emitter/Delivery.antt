-- ===== src/Emitter/Delivery.antt =====
-- Every adapter hears of every change once.
use qt_data_sync.Common.{
  ℕ, ◌≡◌, refl, sym, ap, ◌∙◌, Bool, true, false, Option, List, [], ◌∷◌, ◌++◌, map, if◌then◌else◌,
  append_assoc, append-nil,
}
use qt_data_sync.Common.Equality.{nat_eq}
use qt_data_sync.Environment.{Env}
use qt_data_sync.Emitter.{
  Emitter, Signal, BackendCall, upload, remote_change, remote_clears, remote_resets, trigger_change,
  trigger_clear, trigger_reset, trigger_upload,
}
use qt_data_sync.Emitter.Backend.{
  BackendSignal, Backend, receive_calls, deliver_all, Trigger, store_changed, type_cleared,
  all_resetted, upload_wanted, trigger, trigger_all,
}
use qt_data_sync.Emitter.Receiving.{receive_calls-emitted, deliver_all-Emits}
use qt_data_sync.Emitter.Hearing.{
  announced, all_announced, all_published, call_of, reaches, all_heard, heard-calls, heard-own,
}

own :
    (p : Bool) (t : Trigger) (ts : List Trigger)
    → (if p then announced t else []) ++ (if p then all_announced ts else [])
      ≡ (if p then all_announced (t ∷ ts) else [])
unfolding all_announced
own true t ts = refl
own false t ts = refl

module _ {C : Type 0} where
  emitter_of : Bool → ℕ → Option C → List BackendCall → List Signal → Emitter C
  emitter_of p o c q s = record { origin = o; is_primary = p; cache = c; queued = q; signals = s }

  -- What a trigger does to the adapter itself.
  triggered :
      (p : Bool) (o : ℕ) (t : Trigger) (c : Option C) (q : List BackendCall) (s : List Signal)
      → trigger t (emitter_of p o c q s)
        ≡ emitter_of p o c (q ++ call_of p o t ∷ []) (s ++ (if p then announced t else []))
  unfolding emitter_of trigger_change trigger_clear trigger_reset trigger_upload call_of announced
  triggered true o (store_changed key deleted changed) c q s = refl
  triggered true o (type_cleared t ids) c q s = refl
  triggered true o all_resetted c q s = refl
  triggered true o upload_wanted c q s =
      ap (emitter_of true o c (q ++ upload ∷ [])) (sym (append-nil s))
  triggered false o (store_changed key deleted changed) c q s =
      ap (emitter_of false o c (q ++ remote_change key deleted changed ∷ [])) (sym (append-nil s))
  triggered false o (type_cleared t ids) c q s =
      ap (emitter_of false o c (q ++ remote_clears t ids ∷ [])) (sym (append-nil s))
  triggered false o all_resetted c q s =
      ap (emitter_of false o c (q ++ remote_resets ∷ [])) (sym (append-nil s))
  triggered false o upload_wanted c q s =
      ap (emitter_of false o c (q ++ upload ∷ [])) (sym (append-nil s))

  all_triggered :
      (p : Bool) (o : ℕ) (ts : List Trigger) (c : Option C) (q : List BackendCall) (s : List Signal)
      → trigger_all ts (emitter_of p o c q s)
        ≡ emitter_of p o c (q ++ map (call_of p o) ts) (s ++ (if p then all_announced ts else []))
  unfolding trigger_all all_announced
  all_triggered true o [] c q s = rw (append-nil q, append-nil s) refl
  all_triggered false o [] c q s = rw (append-nil q, append-nil s) refl
  all_triggered p o (t ∷ ts) c q s =
      ap (trigger_all ts) (triggered p o t c q s)
      ∙ all_triggered p o ts c (q ++ call_of p o t ∷ []) (s ++ (if p then announced t else []))
      ∙ rw
          (
            append_assoc q (call_of p o t ∷ []) (map (call_of p o) ts),
            append_assoc s (if p then announced t else []) (if p then all_announced ts else []),
            own p t ts,
          )
          refl

  after_all :
      (ts : List Trigger) (a : Emitter C)
      → trigger_all ts a
        ≡ emitter_of a.is_primary a.origin a.cache
            (a.queued ++ map (call_of a.is_primary a.origin) ts)
            (a.signals ++ (if a.is_primary then all_announced ts else []))
  unfolding emitter_of
  after_all ts a = all_triggered a.is_primary a.origin ts a.cache a.queued a.signals

  -- The signals that the emitter sends for the calls of an adapter, when it sends nothing else.
  unfoldable pub sent_for : Env C → Backend C → Emitter C → List BackendSignal
  sent_for env backend a = (receive_calls env a.queued backend).emitted

  module _ (env : Env C) (backend : Backend C) (silent : backend.emitted ≡ []) where
    sent_for-published :
        (ts : List Trigger) (a : Emitter C)
        → a.queued ≡ []
        → sent_for env backend (trigger_all ts a)
          ≡ all_published (map (call_of a.is_primary a.origin) ts)
    unfolding sent_for emitter_of
    sent_for-published ts a idle =
        receive_calls-emitted env (trigger_all ts a).queued backend
        ∙ ap (λ e. e ++ all_published (trigger_all ts a).queued) silent
        ∙ ap (λ x. all_published x.queued) (after_all ts a)
        ∙ ap (λ q. all_published (q ++ map (call_of a.is_primary a.origin) ts)) idle

    -- Whatever an adapter triggers, each other adapter emits the signals of it once and in order:
    -- an adapter of another store in the emitter's process, and each adapter of a passive setup. The
    -- adapter has no calls queued before, and the emitter has sent nothing.
    pub deliver_all-Once :
        (ts : List Trigger) (a b : Emitter C)
        → a.queued ≡ []
        → reaches a.is_primary a.origin b.is_primary b.origin ≡ true
        → (deliver_all env (sent_for env backend (trigger_all ts a)) b).signals
          ≡ b.signals ++ all_announced ts
    deliver_all-Once ts a b idle other =
        deliver_all-Emits env b.is_primary b.origin _ b refl refl
        ∙ rw
            (
              sent_for-published ts a idle,
              heard-calls a.is_primary a.origin b.is_primary b.origin ts other,
            )
            refl

    -- An adapter of the emitter's process emits the signals of its own triggers once: it emits them
    -- itself and none of those that come back. It has no calls queued before, and the emitter has sent
    -- nothing.
    pub deliver_all-Own :
        (ts : List Trigger) (a : Emitter C)
        → a.queued ≡ []
        → a.is_primary ≡ true
        → (deliver_all env (sent_for env backend (trigger_all ts a)) (trigger_all ts a)).signals
          ≡ a.signals ++ all_announced ts
    unfolding emitter_of
    deliver_all-Own ts a idle primary =
        deliver_all-Emits env true a.origin _ (trigger_all ts a)
          (ap (λ x. x.is_primary) (after_all ts a) ∙ primary) (ap (λ x. x.origin) (after_all ts a))
        ∙ ap (λ ss. (trigger_all ts a).signals ++ all_heard true a.origin ss)
            (sent_for-published ts a idle)
        ∙ ap
            (λ p.
              (trigger_all ts a).signals
              ++ all_heard true a.origin (all_published (map (call_of p a.origin) ts)))
            primary
        ∙ ap (λ l. (trigger_all ts a).signals ++ l) (heard-own a.origin ts)
        ∙ append-nil (trigger_all ts a).signals
        ∙ ap (λ x. x.signals) (after_all ts a)
        ∙ ap (λ p. a.signals ++ (if p then all_announced ts else [])) primary
