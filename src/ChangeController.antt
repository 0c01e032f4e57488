-- ===== src/ChangeController.antt =====
-- src/datasync/changecontroller.cpp: the uploads of local changes. At most `limit` run at a time; an
-- upload is known by the hash of its key and the device that it is for.
pub mod Acknowledge
pub mod Frame
pub mod Signals
pub mod Starting
pub mod Bounds
use qt_data_sync.Common.{
  ◌≡◌, refl, arith, ◌↔◌, ℕ, ◌+◌, ◌-◌, ◌%◌, ◌^◌, Bool, true, false, not, String, Option, none, some,
  List, [], ◌∷◌, ◌++◌, ◌&&◌, if◌then◌else◌, length, ltb, leb, sub32,
}
use qt_data_sync.Common.Equality.{Keyed, ◌==◌, ==_iff, nat_eq}
use qt_data_sync.Json.{Bytes, Fields, Text}
use qt_data_sync.Table.{Table, get, delete_where}
use qt_data_sync.Environment.{ObjectKey, Env}
use qt_data_sync.Exec.{Exec, Result, ok, err, pure, throw, gets, modify, ◌>>=◌, ◌>>◌, try_catch}
use qt_data_sync.LocalStore.State.{Store, Failure, Method, is_some}
use qt_data_sync.LocalStore.Access.{read_json}
use qt_data_sync.LocalStore.Sync.{Change, change_count, mark_unchanged, remove_device_change}
use qt_data_sync.LocalStore.Changes.{Visit, in_store, load_changes}

-- ObjectKey::hashed
unfoldable pub key_hash : Text → ObjectKey → ℕ
key_hash t key = t.sha3_256 (key.type_name ++ t.to_utf8 key.id)

-- CachedObjectKey: its hash, and the device for an upload to one device.
pub record UploadKey : Type 0 where
  pub hash : ℕ
  pub device : Option ℕ

pub record UploadInfo : Type 0 where
  pub key : ObjectKey
  pub version : ℕ
  pub is_delete : Bool

-- What SyncHelper::combine makes of a change.
pub record Combined : Type 0 where
  pub key : ObjectKey
  pub version : ℕ
  pub fields : Option Fields

pub data Signal : Type 0 where
  uploading_changed : Bool → Signal
  upload : UploadKey → Combined → Signal
  progress_added : ℕ → Signal
  progress_increment controller_error : Signal

-- Calls that are queued for later: uploadNext(false), and uploadDone.
pub data Queued : Type 0 where
  next : Queued
  done : ℕ → Queued

-- The members of ChangeController; `timing` says whether the operation timer runs.
pub record Uploads : Type 0 where
  pub enabled : Bool
  pub limit : ℕ
  pub active : Table UploadKey UploadInfo
  pub estimate : ℕ
  -- the emitStarted of the running uploadNext
  pub starting : Bool
  pub timing : Bool
  pub queued : List Queued
  pub emitted : List Signal

abbrev pub device_beq : Option ℕ → Option ℕ → Bool
device_beq none none = true
device_beq none (some d) = false
device_beq (some c) none = false
device_beq (some c) (some d) = c == d

device_beq_iff : (a b : Option ℕ) → (device_beq a b ≡ true) ↔ (a ≡ b)
device_beq_iff none none = (λ h. refl, λ h. refl)
device_beq_iff none (some d) = (λ h. cc, λ h. cc)
device_beq_iff (some c) none = (λ h. cc, λ h. cc)
device_beq_iff (some c) (some d) = ground (arith, ==_iff c d)

abbrev pub upload_beq : UploadKey → UploadKey → Bool
upload_beq a b = a.hash == b.hash && device_beq a.device b.device

pub upload_beq_iff : (a b : UploadKey) → (upload_beq a b ≡ true) ↔ (a ≡ b)
upload_beq_iff a b = ground (arith, ==_iff a.hash b.hash, device_beq_iff a.device b.device)

instance abbrev pub upload_eq : Keyed UploadKey
upload_eq = record { same = upload_beq; same_iff = upload_beq_iff }

abbrev pub Step : Type 0 → Type 0 → Type 0
Step C A = Visit C Uploads A

abbrev pub is_none_active : Table UploadKey UploadInfo → Bool
is_none_active [] = true
is_none_active (row ∷ rows) = false

module _ {C : Type 0} where
  abbrev pub of_uploads : {A : Type 0} → (Uploads → A) → Step C A
  of_uploads f = gets (λ v. f v.0)

  abbrev pub set_uploads : (Uploads → Uploads) → Step C (Unit {0})
  set_uploads f = modify (λ v. (f v.0, v.1))

  unfoldable pub emit : Signal → Step C (Unit {0})
  emit m = set_uploads (λ u. record u { emitted = u.emitted ++ m ∷ [] })

  unfoldable pub enqueue : Queued → Step C (Unit {0})
  enqueue q = set_uploads (λ u. record u { queued = u.queued ++ q ∷ [] })

  unfoldable pub set_timing : Bool → Step C (Unit {0})
  set_timing b = set_uploads (λ u. record u { timing = b })

  -- What both uploadDone methods do at the end.
  unfoldable pub complete : Step C (Unit {0})
  complete = do
    set_uploads (λ u. record u { estimate = sub32 u.estimate 1 })
    emit progress_increment
    room ← of_uploads (λ u. u.enabled && ltb (length u.active) u.limit)
    if room then enqueue next else pure tt

  abbrev pub take_active : UploadKey → Step C (Unit {0})
  take_active key = set_uploads (λ u. record u { active = delete_where (λ k i. k == key) u.active })

  -- uploadingChanged(true), once for each uploadNext.
  unfoldable pub announce : Step C Bool
  announce = do
    first ← of_uploads (λ u. u.starting)
    if first
        then (do
          set_uploads (λ u. record u { starting = false })
          emit (uploading_changed true)
          pure true)
        else pure false

module _ {C : Type 0} (env : Env C) where
  abbrev pub upload_key : Change → UploadKey
  upload_key c = record { hash = key_hash env.text c.key; device = c.device }

  abbrev pub combined : Change → Option Fields → Combined
  combined c d = record { key = c.key; version = c.version; fields = d }

  -- The data of a change is read; if that fails it is taken to be unchanged, by the queued
  -- uploadDone of its hash, whatever the device.
  unfoldable pub send_change : Change → Option String → Step C (Unit {0})
  send_change c none = emit (upload (upload_key c) (combined c none))
  send_change c (some file) =
      try_catch
        (do
          d ← in_store (read_json env c.key file)
          emit (upload (upload_key c) (combined c (some d))))
        (λ e. enqueue (done (key_hash env.text c.key)))

  unfoldable pub start_upload : Bool → Change → Step C Bool
  start_upload progress c = do
    first ← announce
    estimate ← of_uploads (λ u. u.estimate)
    if first && progress then emit (progress_added estimate) else pure tt
    set_uploads (λ u. record u {
      active =
          (
            upload_key c,
            record { key = c.key; version = c.version; is_delete = not (is_some c.file) },
          )
          ∷ u.active;
    })
    set_timing true
    send_change c c.file
    of_uploads (λ u. ltb (length u.active) u.limit)

  -- The visitor of uploadNext: what is being uploaded already is skipped.
  unfoldable pub visit : Bool → Change → Step C Bool
  visit progress c = do
    known ← of_uploads (λ u. is_some (get (upload_key c) u.active))
    if known then pure true else start_upload progress c

  -- The estimate is loaded when it is 0; the result says whether the visitor reports it.
  abbrev pub report_count : Bool → ℕ → Step C Bool
  report_count starting count =
      if count == 0
      then pure false
      else if starting
      then pure true
      else (do emit (progress_added count); pure false)

  unfoldable pub estimate_changes : Step C Bool
  estimate_changes = do
    known ← of_uploads (λ u. not (u.estimate == 0))
    if known then pure false else (do
      count ← in_store change_count
      set_uploads (λ u. record u { estimate = count })
      starting ← of_uploads (λ u. u.starting)
      report_count starting count)

  abbrev pub finish_uploads : Bool → Step C (Unit {0})
  finish_uploads true = do set_timing false; emit (uploading_changed false)
  finish_uploads false = pure tt

  unfoldable pub load_uploads : Step C (Unit {0})
  load_uploads =
      try_catch
        (do
          progress ← estimate_changes
          limit ← of_uploads (λ u. u.limit)
          load_changes limit (visit progress)
          idle ← of_uploads (λ u. is_none_active u.active)
          finish_uploads idle)
        (λ e. emit controller_error)

  unfoldable pub upload_next : Bool → Step C (Unit {0})
  upload_next starting = do
    set_uploads (λ u. record u { starting = starting })
    running ← of_uploads (λ u. not (is_none_active u.active))
    if running then (do announce; pure tt) else pure tt
    full ← of_uploads (λ u. leb u.limit (length u.active))
    if full then pure tt else load_uploads

  abbrev pub finish_upload :
      UploadKey → Option UploadInfo → (UploadInfo → Method C (Unit {0})) → Step C (Unit {0})
  finish_upload key none store = pure tt
  finish_upload key (some info) store =
      try_catch (do take_active key; in_store (store info); complete) (λ e. emit controller_error)

  unfoldable pub upload_done : ℕ → Step C (Unit {0})
  upload_done hash = do
    info ← of_uploads (λ u. get (record { hash = hash; device = none }) u.active)
    finish_upload (record { hash = hash; device = none }) info
        (λ i. mark_unchanged env i.key i.version i.is_delete)

  unfoldable pub device_upload_done : ℕ → ℕ → Step C (Unit {0})
  device_upload_done hash device = do
    info ← of_uploads (λ u. get (record { hash = hash; device = some device }) u.active)
    finish_upload (record { hash = hash; device = some device }) info
        (λ i. remove_device_change i.key device)

  unfoldable pub set_uploading_enabled : Bool → Step C (Unit {0})
  set_uploading_enabled true = do set_uploads (λ u. record u { enabled = true }); upload_next true
  set_uploading_enabled false = do
    set_uploads (λ u. record u { enabled = false })
    set_timing false
    emit (uploading_changed false)

  unfoldable pub clear_uploads : Step C (Unit {0})
  clear_uploads = do
    set_uploading_enabled false
    set_uploads (λ u. record u { active = []; estimate = 0 })

  -- static_cast<int>: a negative limit is as good as none.
  unfoldable pub update_upload_limit : ℕ → Step C (Unit {0})
  update_upload_limit limit =
      set_uploads (λ u. record u { limit = if ltb limit (2 ^ 31) then limit else 0 })

  unfoldable pub change_triggered : Step C (Unit {0})
  change_triggered = do
    enabled ← of_uploads (λ u. u.enabled)
    idle ← of_uploads (λ u. is_none_active u.active)
    if enabled then upload_next idle else pure tt

-- The calls that the other objects, and the queued calls, make.
pub data Call : Type 0 where
  enable : Bool → Call
  clear triggered queued_next : Call
  plain_done : ℕ → Call
  device_done : ℕ → ℕ → Call

module _ {C : Type 0} (env : Env C) where
  abbrev pub perform : Call → Step C (Unit {0})
  perform (enable b) = set_uploading_enabled env b
  perform clear = clear_uploads env
  perform triggered = change_triggered env
  perform queued_next = upload_next env false
  perform (plain_done hash) = upload_done env hash
  perform (device_done hash device) = device_upload_done env hash device

  unfoldable pub perform_all : List Call → Uploads × Store C → Uploads × Store C
  perform_all [] v = v
  perform_all (c ∷ cs) v = perform_all cs (perform c v).1
