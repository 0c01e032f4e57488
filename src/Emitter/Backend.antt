-- ===== src/Emitter/Backend.antt =====
-- src/datasync/changeemitter.cpp, the object that the adapters' queued calls reach, and the slots
-- of src/datasync/emitteradapter.cpp that receive its signals.
use qt_data_sync.Common.{
  ℕ, Bool, true, not, String, Option, none, some, List, [], ◌∷◌, ◌++◌, if◌then◌else◌,
}
use qt_data_sync.Common.Equality.{◌==◌, nat_eq}
use qt_data_sync.Json.{Bytes}
use qt_data_sync.Environment.{ObjectKey, Env}
use qt_data_sync.Emitter.{
  Emitter, data_changed, data_resetted, BackendCall, change, clears, resets, upload, remote_change,
  remote_clears, remote_resets, key_of, remove_ids, emit_signals, drop_cached, clear_cached,
  trigger_change, trigger_clear, trigger_reset, trigger_upload,
}

-- The signals of the emitter; an origin of `none` is nullptr.
pub data BackendSignal : Type 0 where
  upload_needed : BackendSignal
  emitter_changed : Option ℕ → ObjectKey → Bool → BackendSignal
  emitter_resetted : Option ℕ → BackendSignal
  remote_changed : ObjectKey → Bool → BackendSignal
  remote_resetted : BackendSignal

-- ChangeEmitter: the cache that it shares with the adapters of its process, and what it has emitted.
pub record Backend (C : Type 0) : Type 0 where
  pub cache : Option C
  pub emitted : List BackendSignal

abbrev pub both_changed : Option ℕ → Bool → ObjectKey → List BackendSignal
both_changed origin deleted key =
    emitter_changed origin key deleted ∷ remote_changed key deleted ∷ []

-- The loops of triggerClear and triggerRemoteClear.
unfoldable pub all_cleared : Option ℕ → Bytes → List String → List BackendSignal
all_cleared origin t [] = []
all_cleared origin t (id ∷ ids) = both_changed origin true (key_of t id) ++ all_cleared origin t ids

abbrev pub both_resetted : Option ℕ → List BackendSignal
both_resetted origin = emitter_resetted origin ∷ remote_resetted ∷ []

abbrev pub upload_if : Bool → List BackendSignal
upload_if changed = if changed then upload_needed ∷ [] else []

module _ {C : Type 0} where
  abbrev pub publish : List BackendSignal → Backend C → Backend C
  publish signals b = record b { emitted = b.emitted ++ signals }

  abbrev pub on_cache : (C → C) → Backend C → Backend C
  on_cache f b = elim b.cache [ none ↦ b | some c ↦ record b { cache = some (f c) } ]

-- The slots: an adapter of the emitter's process hears what others did, all others hear all.
abbrev pub is_other : Option ℕ → ℕ → Bool
is_other none parent = true
is_other (some origin) parent = not (origin == parent)

module _ {C : Type 0} where
  unfoldable pub data_changed_impl : Option ℕ → ObjectKey → Bool → Emitter C → Emitter C
  data_changed_impl origin key deleted e =
      if is_other origin e.origin then emit_signals (data_changed key deleted ∷ []) e else e

  unfoldable pub data_resetted_impl : Option ℕ → Emitter C → Emitter C
  data_resetted_impl origin e =
      if is_other origin e.origin then emit_signals (data_resetted ∷ []) e else e

module _ {C : Type 0} (env : Env C) where
  -- The entry goes if there is one.
  abbrev pub remove_contained : ObjectKey → C → C
  remove_contained key c = elim (env.cache_object key c) [
    | none ↦ c
    | some d ↦ env.cache_remove key c
  ]

  unfoldable pub receive_call : BackendCall → Backend C → Backend C
  receive_call (change origin key deleted changed) b =
      publish (upload_if changed ++ both_changed (some origin) deleted key) b
  receive_call (clears origin t ids) b = publish (upload_needed ∷ all_cleared (some origin) t ids) b
  receive_call (resets origin) b = publish (upload_needed ∷ both_resetted (some origin)) b
  receive_call upload b = publish (upload_needed ∷ []) b
  receive_call (remote_change key deleted changed) b =
      publish (upload_if changed ++ both_changed none deleted key)
        (on_cache (remove_contained key) b)
  receive_call (remote_clears t ids) b =
      publish (upload_needed ∷ all_cleared none t ids) (on_cache (remove_ids env t ids) b)
  receive_call remote_resets b =
      publish (upload_needed ∷ both_resetted none) (on_cache env.cache_clear b)

  unfoldable pub receive_calls : List BackendCall → Backend C → Backend C
  receive_calls [] b = b
  receive_calls (c ∷ cs) b = receive_calls cs (receive_call c b)

  unfoldable pub remote_data_changed_impl : ObjectKey → Bool → Emitter C → Emitter C
  remote_data_changed_impl key deleted e =
      emit_signals (data_changed key deleted ∷ []) (drop_cached env key e)

  unfoldable pub remote_data_resetted_impl : Emitter C → Emitter C
  remote_data_resetted_impl e = emit_signals (data_resetted ∷ []) (clear_cached env e)

  -- The connections that the constructor of an adapter makes.
  abbrev pub to_primary : BackendSignal → Emitter C → Emitter C
  to_primary (emitter_changed origin key deleted) e = data_changed_impl origin key deleted e
  to_primary (emitter_resetted origin) e = data_resetted_impl origin e
  to_primary upload_needed e = e
  to_primary (remote_changed key deleted) e = e
  to_primary remote_resetted e = e

  abbrev pub to_passive : BackendSignal → Emitter C → Emitter C
  to_passive (remote_changed key deleted) e = remote_data_changed_impl key deleted e
  to_passive remote_resetted e = remote_data_resetted_impl e
  to_passive upload_needed e = e
  to_passive (emitter_changed origin key deleted) e = e
  to_passive (emitter_resetted origin) e = e

  unfoldable pub deliver : BackendSignal → Emitter C → Emitter C
  deliver s e = if e.is_primary then to_primary s e else to_passive s e

  unfoldable pub deliver_all : List BackendSignal → Emitter C → Emitter C
  deliver_all [] e = e
  deliver_all (s ∷ ss) e = deliver_all ss (deliver s e)

-- What a store does through its adapter.
pub data Trigger : Type 0 where
  store_changed : ObjectKey → Bool → Bool → Trigger
  type_cleared : Bytes → List String → Trigger
  all_resetted upload_wanted : Trigger

module _ {C : Type 0} where
  abbrev pub trigger : Trigger → Emitter C → Emitter C
  trigger (store_changed key deleted changed) e = trigger_change key deleted changed e
  trigger (type_cleared t ids) e = trigger_clear t ids e
  trigger all_resetted e = trigger_reset e
  trigger upload_wanted e = trigger_upload e

  unfoldable pub trigger_all : List Trigger → Emitter C → Emitter C
  trigger_all [] e = e
  trigger_all (t ∷ ts) e = trigger_all ts (trigger t e)
