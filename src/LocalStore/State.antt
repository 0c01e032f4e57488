-- ===== src/LocalStore/State.antt =====
-- The state of a LocalStore (src/datasync/localstore_p.h) and the primitive steps of its methods.
-- Each step that can fail outside the program (a query, a file, a commit) takes its outcome from
-- `outcomes`; when that list is used up, the steps succeed.
use qt_data_sync.Common.{
  ℕ, Bool, true, false, not, String, Option, none, some, List, [], ◌∷◌, ◌++◌, if◌then◌else◌,
}
use qt_data_sync.Common.Equality.{◌==◌, bytes_eq, nat_eq}
use qt_data_sync.Table.{Table, get, update_where, delete_where}
use qt_data_sync.Json.{Bytes}
use qt_data_sync.Environment.{ObjectKey, key_eq, FilePath, path_eq, Files, Env}
use qt_data_sync.Exec.{Exec, ok, err, throw, gets, modify, ◌>>=◌, ◌>>◌}
use qt_data_sync.Emitter.{Emitter, trigger_change, trigger_upload}

-- A row of DataIndex without its primary key (Type, Id); NULL is `none`.
pub record Row : Type 0 where
  pub version : ℕ
  pub file : Option String
  pub checksum : Option ℕ
  pub changed : Bool

-- The tables DataIndex and DeviceUploads; the latter pairs a key with a device.
pub record Db : Type 0 where
  pub index : Table ObjectKey Row
  pub uploads : Table ObjectKey ℕ

pub record Store (C : Type 0) : Type 0 where
  pub db : Db
  -- what a rollback restores, while a transaction is open
  pub saved : Option Db
  pub files : Files
  pub emitter : Emitter C
  pub outcomes : List Bool

-- LocalStoreException and NoDataException; a conflict resolver may throw its own.
pub data Failure : Type 0 where
  local_store : Failure
  no_data : ObjectKey → Failure
  resolver_failed : Failure

abbrev pub Method : Type 0 → Type 0 → Type 0
Method C A = Exec Failure (Store C) A

-- The function that storeChangedImpl returns, and SyncScope::afterCommit.
pub data AfterCommit : Type 0 where
  nothing : AfterCommit
  notify_change : ObjectKey → Bool → Bool → AfterCommit
  notify_upload : AfterCommit

module _ {C : Type 0} where
  unfoldable pub attempt : Method C (Unit {0})
  attempt s = elim s.outcomes [
    | [] ↦ (ok tt, s)
    | outcome ∷ rest ↦ (if outcome then ok tt else err local_store, record s { outcomes = rest })
  ]

  -- A query that changes the tables.
  unfoldable pub exec : (Db → Db) → Method C (Unit {0})
  exec f = do attempt; modify (λ s. record s { db = f s.db })

  -- A query that reads them.
  unfoldable pub query : {A : Type 0} → (Db → A) → Method C A
  query f = do attempt; gets (λ s. f s.db)

  unfoldable pub begin_transaction : Method C (Unit {0})
  begin_transaction = do attempt; modify (λ s. record s { saved = some s.db })

  unfoldable pub commit : Method C (Unit {0})
  commit = do attempt; modify (λ s. record s { saved = none })

  abbrev restore : Option Db → Store C → Store C
  restore none s = s
  restore (some db) s = record s { db = db; saved = none }

  unfoldable pub rollback : Method C (Unit {0})
  rollback = modify (λ s. restore s.saved s)

  unfoldable pub on_emitter : (Emitter C → Emitter C) → Method C (Unit {0})
  on_emitter f = modify (λ s. record s { emitter = f s.emitter })

  abbrev pub after_commit : AfterCommit → Emitter C → Emitter C
  after_commit nothing e = e
  after_commit (notify_change key deleted changed) e = trigger_change key deleted changed e
  after_commit notify_upload e = trigger_upload e

  -- QFile::remove fails for a file that is not there.
  unfoldable pub remove_file : FilePath → Method C (Unit {0})
  remove_file p = do
    attempt
    found ← gets (λ s. get p s.files)
    elim found [
      | none ↦ throw local_store
      | some d ↦ modify (λ s. record s { files = delete_where (λ q _. q == p) s.files })
    ]

-- Rows of DeviceUploads go with the row that they refer to (ON DELETE CASCADE).
abbrev pub is_some {ℓ} : {A : Type ℓ} → Option A → Bool
is_some none = false
is_some (some a) = true

unfoldable pub delete_rows : (ObjectKey → Row → Bool) → Db → Db
delete_rows p db =
    let rows = delete_where p db.index in
    record { index = rows; uploads = delete_where (λ k _. not (is_some (get k rows))) db.uploads }

unfoldable pub update_rows : (ObjectKey → Row → Bool) → (Row → Row) → Db → Db
update_rows p f db = record db { index = update_where p f db.index }

-- LocalStore::typeDirectory: the percent sign of the encoded name becomes an underscore.
abbrev replace_percent : Bytes → Bytes
replace_percent [] = []
replace_percent (c ∷ cs) = (if c == b'%' then b'_' else c) ∷ replace_percent cs

-- store/data_
abbrev data_prefix : Bytes
data_prefix = b's' ∷ b't' ∷ b'o' ∷ b'r' ∷ b'e' ∷ b'/' ∷ b'd' ∷ b'a' ∷ b't' ∷ b'a' ∷ b'_' ∷ []

module _ {C : Type 0} (env : Env C) where
  unfoldable pub type_directory : Bytes → Bytes
  type_directory t = data_prefix ++ replace_percent (env.percent_encode t)

  abbrev pub file_path : ObjectKey → String → FilePath
  file_path key name = record { directory = type_directory key.type_name; base_name = name }
