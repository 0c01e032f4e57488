-- ===== src/Emitter.antt =====
-- src/datasync/emitteradapter.cpp and changeemitter.cpp: the shared cache, and how a change of the
-- local data becomes signals. An adapter queues calls for the emitter's thread; the emitter sends
-- signals, which each adapter receives in turn.
pub mod Backend
pub mod Hearing
pub mod Receiving
pub mod Delivery
use qt_data_sync.Common.{
  ℕ, Bool, true, String, Option, none, some, List, [], ◌∷◌, ◌++◌, map, if◌then◌else◌,
}
use qt_data_sync.Common.Equality.{nat_eq}
use qt_data_sync.Json.{Bytes, Fields}
use qt_data_sync.Environment.{ObjectKey, Env}

-- The signals of an adapter.
pub data Signal : Type 0 where
  data_changed : ObjectKey → Bool → Signal
  data_resetted : Signal

-- The calls that an adapter queues: those of the primary with the store that they come from, and
-- those of an adapter in a passive setup.
pub data BackendCall : Type 0 where
  change : ℕ → ObjectKey → Bool → Bool → BackendCall
  clears : ℕ → Bytes → List String → BackendCall
  resets : ℕ → BackendCall
  upload : BackendCall
  remote_change : ObjectKey → Bool → Bool → BackendCall
  remote_clears : Bytes → List String → BackendCall
  remote_resets : BackendCall

-- EmitterAdapter, with the calls it has queued and the signals it has emitted, oldest first.
pub record Emitter (C : Type 0) : Type 0 where
  pub origin : ℕ
  pub is_primary : Bool
  pub cache : Option C
  pub queued : List BackendCall
  pub signals : List Signal

abbrev pub key_of : Bytes → String → ObjectKey
key_of t id = record { type_name = t; id = id }

module _ {C : Type 0} where
  abbrev pub enqueue : BackendCall → Emitter C → Emitter C
  enqueue call e = record e { queued = e.queued ++ call ∷ [] }

  abbrev pub emit_signals : List Signal → Emitter C → Emitter C
  emit_signals s e = record e { signals = e.signals ++ s }

  unfoldable pub trigger_change : ObjectKey → Bool → Bool → Emitter C → Emitter C
  trigger_change key deleted changed e =
      if e.is_primary
      then emit_signals (data_changed key deleted ∷ [])
          (enqueue (change e.origin key deleted changed) e)
      else enqueue (remote_change key deleted changed) e

  unfoldable pub trigger_clear : Bytes → List String → Emitter C → Emitter C
  trigger_clear t ids e =
      if e.is_primary
      then emit_signals (map (λ id. data_changed (key_of t id) true) ids)
          (enqueue (clears e.origin t ids) e)
      else enqueue (remote_clears t ids) e

  unfoldable pub trigger_reset : Emitter C → Emitter C
  trigger_reset e =
      if e.is_primary
      then emit_signals (data_resetted ∷ []) (enqueue (resets e.origin) e)
      else enqueue remote_resets e

  unfoldable pub trigger_upload : Emitter C → Emitter C
  trigger_upload e = enqueue upload e

module _ {C : Type 0} (env : Env C) where
  unfoldable pub put_cached : ObjectKey → Fields → ℕ → Emitter C → Emitter C
  put_cached key d cost e = elim e.cache [
    | none ↦ e
    | some c ↦ record e { cache = some (env.cache_insert key d cost c) }
  ]

  abbrev pub put_all : List (ObjectKey × Fields × ℕ) → Emitter C → Emitter C
  put_all [] e = e
  put_all ((key, d, cost) ∷ rest) e = put_all rest (put_cached key d cost e)

  unfoldable pub get_cached : ObjectKey → Emitter C → Option Fields
  get_cached key e = elim e.cache [ none ↦ none | some c ↦ env.cache_object key c ]

  -- The entry goes if there is one.
  unfoldable pub drop_cached : ObjectKey → Emitter C → Emitter C
  drop_cached key e = elim e.cache [
    | none ↦ e
    | some c ↦ elim (env.cache_object key c) [
      | none ↦ e
      | some d ↦ record e { cache = some (env.cache_remove key c) }
    ]
  ]

  abbrev pub remove_ids : Bytes → List String → C → C
  remove_ids t [] c = c
  remove_ids t (id ∷ ids) c = remove_ids t ids (env.cache_remove (key_of t id) c)

  unfoldable pub drop_cached_ids : Bytes → List String → Emitter C → Emitter C
  drop_cached_ids t ids e = elim e.cache [
    | none ↦ e
    | some c ↦ record e { cache = some (remove_ids t ids c) }
  ]

  unfoldable pub clear_cached : Emitter C → Emitter C
  clear_cached e = elim e.cache [
    | none ↦ e
    | some c ↦ record e { cache = some (env.cache_clear c) }
  ]
