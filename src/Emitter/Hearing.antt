-- ===== src/Emitter/Hearing.antt =====
-- The signals that reach an adapter, in terms of the calls that made the emitter send them.
use qt_data_sync.Common.{
  ℕ, ◌≡◌, refl, arith, sym, ap, ◌∙◌, Bool, true, false, String, Option, none, some, List, [], ◌∷◌,
  ◌++◌, map, if◌then◌else◌, append_assoc,
}
use qt_data_sync.Common.Equality.{nat_eq, ==_refl}
use qt_data_sync.Json.{Bytes}
use qt_data_sync.Emitter.{
  Signal, data_changed, data_resetted, BackendCall, change, clears, resets, upload, remote_change,
  remote_clears, remote_resets, key_of,
}
use qt_data_sync.Emitter.Backend.{
  BackendSignal, upload_needed, emitter_changed, emitter_resetted, remote_changed, remote_resetted,
  both_changed, both_resetted, upload_if, all_cleared, is_other, Trigger, store_changed,
  type_cleared, all_resetted, upload_wanted,
}

-- The signals that one trigger stands for.
unfoldable pub announced : Trigger → List Signal
announced (store_changed key deleted changed) = data_changed key deleted ∷ []
announced (type_cleared t ids) = map (λ id. data_changed (key_of t id) true) ids
announced all_resetted = data_resetted ∷ []
announced upload_wanted = []

unfoldable pub all_announced : List Trigger → List Signal
all_announced [] = []
all_announced (t ∷ ts) = announced t ++ all_announced ts

-- The signals that a call makes the emitter send.
unfoldable pub published : BackendCall → List BackendSignal
published (change origin key deleted changed) =
    upload_if changed ++ both_changed (some origin) deleted key
published (clears origin t ids) = upload_needed ∷ all_cleared (some origin) t ids
published (resets origin) = upload_needed ∷ both_resetted (some origin)
published upload = upload_needed ∷ []
published (remote_change key deleted changed) = upload_if changed ++ both_changed none deleted key
published (remote_clears t ids) = upload_needed ∷ all_cleared none t ids
published remote_resets = upload_needed ∷ both_resetted none

unfoldable pub all_published : List BackendCall → List BackendSignal
all_published [] = []
all_published (c ∷ cs) = published c ++ all_published cs

-- What an adapter emits when it receives a signal.
unfoldable pub hears : Bool → ℕ → BackendSignal → List Signal
hears true parent (emitter_changed origin key deleted) =
    if is_other origin parent then data_changed key deleted ∷ [] else []
hears true parent (emitter_resetted origin) =
    if is_other origin parent then data_resetted ∷ [] else []
hears true parent upload_needed = []
hears true parent (remote_changed key deleted) = []
hears true parent remote_resetted = []
hears false parent (remote_changed key deleted) = data_changed key deleted ∷ []
hears false parent remote_resetted = data_resetted ∷ []
hears false parent upload_needed = []
hears false parent (emitter_changed origin key deleted) = []
hears false parent (emitter_resetted origin) = []

unfoldable pub all_heard : Bool → ℕ → List BackendSignal → List Signal
all_heard p parent [] = []
all_heard p parent (s ∷ ss) = hears p parent s ++ all_heard p parent ss

pub all_heard-append :
    (p : Bool) (parent : ℕ) (xs ys : List BackendSignal)
    → all_heard p parent (xs ++ ys) ≡ all_heard p parent xs ++ all_heard p parent ys
unfolding all_heard
all_heard-append p parent [] ys = refl
all_heard-append p parent (x ∷ xs) ys =
    ap (λ r. hears p parent x ++ r) (all_heard-append p parent xs ys)
    ∙ sym (append_assoc (hears p parent x) (all_heard p parent xs) (all_heard p parent ys))

-- The call that a trigger queues.
unfoldable pub call_of : Bool → ℕ → Trigger → BackendCall
call_of true o (store_changed key deleted changed) = change o key deleted changed
call_of true o (type_cleared t ids) = clears o t ids
call_of true o all_resetted = resets o
call_of true o upload_wanted = upload
call_of false o (store_changed key deleted changed) = remote_change key deleted changed
call_of false o (type_cleared t ids) = remote_clears t ids
call_of false o all_resetted = remote_resets
call_of false o upload_wanted = upload

abbrev pub origin_of : Bool → ℕ → Option ℕ
origin_of true o = some o
origin_of false o = none

-- Whether what an adapter does comes to another by way of the emitter.
abbrev pub reaches : Bool → ℕ → Bool → ℕ → Bool
reaches a o p parent = if p then is_other (origin_of a o) parent else true

unfoldable signals_of : Option ℕ → Trigger → List BackendSignal
signals_of o (store_changed key deleted changed) = upload_if changed ++ both_changed o deleted key
signals_of o (type_cleared t ids) = upload_needed ∷ all_cleared o t ids
signals_of o all_resetted = upload_needed ∷ both_resetted o
signals_of o upload_wanted = upload_needed ∷ []

published-call_of :
    (a : Bool) (o : ℕ) (t : Trigger) → published (call_of a o t) ≡ signals_of (origin_of a o) t
unfolding published call_of signals_of
published-call_of true o (store_changed key deleted changed) = refl
published-call_of true o (type_cleared t ids) = refl
published-call_of true o all_resetted = refl
published-call_of true o upload_wanted = refl
published-call_of false o (store_changed key deleted changed) = refl
published-call_of false o (type_cleared t ids) = refl
published-call_of false o all_resetted = refl
published-call_of false o upload_wanted = refl

heard-upload_if :
    (p : Bool) (parent : ℕ) (b : Bool) (ss : List BackendSignal)
    → all_heard p parent (upload_if b ++ ss) ≡ all_heard p parent ss
unfolding all_heard hears
heard-upload_if true parent true ss = refl
heard-upload_if false parent true ss = refl
heard-upload_if p parent false ss = refl

heard-cleared-all :
    (origin : Option ℕ) (p : Bool) (parent : ℕ) (t : Bytes) (ids : List String)
    → (p ≡ true → is_other origin parent ≡ true)
    → all_heard p parent (all_cleared origin t ids)
      ≡ map (λ id. data_changed (key_of t id) true) ids
unfolding all_heard hears all_cleared
heard-cleared-all origin p parent t [] h = refl
heard-cleared-all origin true parent t (id ∷ ids) h =
    rw (h refl)
      (ap (λ r. data_changed (key_of t id) true ∷ r) (heard-cleared-all origin true parent t ids h))
heard-cleared-all origin false parent t (id ∷ ids) h =
    ap (λ r. data_changed (key_of t id) true ∷ r) (heard-cleared-all origin false parent t ids h)

heard-cleared-none :
    (origin : Option ℕ) (parent : ℕ) (t : Bytes) (ids : List String)
    → is_other origin parent ≡ false
    → all_heard true parent (all_cleared origin t ids) ≡ []
unfolding all_heard hears all_cleared
heard-cleared-none origin parent t [] h = refl
heard-cleared-none origin parent t (id ∷ ids) h = rw h (heard-cleared-none origin parent t ids h)

heard-all :
    (o : Option ℕ) (p : Bool) (parent : ℕ) (t : Trigger)
    → (p ≡ true → is_other o parent ≡ true)
    → all_heard p parent (signals_of o t) ≡ announced t
unfolding all_heard hears signals_of announced
heard-all o true parent (store_changed key deleted changed) h =
    heard-upload_if true parent changed (both_changed o deleted key) ∙ rw (h refl) refl
heard-all o false parent (store_changed key deleted changed) h =
    heard-upload_if false parent changed (both_changed o deleted key)
heard-all o true parent (type_cleared t ids) h = heard-cleared-all o true parent t ids h
heard-all o false parent (type_cleared t ids) h = heard-cleared-all o false parent t ids h
heard-all o true parent all_resetted h = rw (h refl) refl
heard-all o false parent all_resetted h = refl
heard-all o true parent upload_wanted h = refl
heard-all o false parent upload_wanted h = refl

heard-none :
    (o : Option ℕ) (parent : ℕ) (t : Trigger)
    → is_other o parent ≡ false
    → all_heard true parent (signals_of o t) ≡ []
unfolding all_heard hears signals_of
heard-none o parent (store_changed key deleted changed) h =
    heard-upload_if true parent changed (both_changed o deleted key) ∙ rw h refl
heard-none o parent (type_cleared t ids) h = heard-cleared-none o parent t ids h
heard-none o parent all_resetted h = rw h refl
heard-none o parent upload_wanted h = refl

pub heard-calls :
    (a : Bool) (o : ℕ) (p : Bool) (parent : ℕ) (ts : List Trigger)
    → reaches a o p parent ≡ true
    → all_heard p parent (all_published (map (call_of a o) ts)) ≡ all_announced ts
unfolding all_published all_announced all_heard
heard-calls a o p parent [] h = refl
heard-calls a o p parent (t ∷ ts) h =
    all_heard-append p parent (published (call_of a o t)) (all_published (map (call_of a o) ts))
    ∙ rw
        (
          published-call_of a o t,
          heard-all (origin_of a o) p parent t (heard_by p h),
          heard-calls a o p parent ts h,
        )
        refl
  where
    heard_by :
        (p : Bool) → reaches a o p parent ≡ true → p ≡ true → is_other (origin_of a o) parent ≡ true
    heard_by true h e = h
    heard_by false h e = absurd (ground arith)

pub heard-own :
    (o : ℕ) (ts : List Trigger) → all_heard true o (all_published (map (call_of true o) ts)) ≡ []
unfolding all_published all_heard
heard-own o [] = refl
heard-own o (t ∷ ts) =
    all_heard-append true o (published (call_of true o t)) (all_published (map (call_of true o) ts))
    ∙ rw (published-call_of true o t, heard-none (some o) o t (rw (==_refl o) refl), heard-own o ts)
        refl
