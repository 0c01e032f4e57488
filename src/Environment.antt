-- ===== src/Environment.antt =====
-- What the local engine takes from outside: Qt's cache, file names and conversions (parameters with
-- the documented behaviour as laws), and the settings of a setup (src/datasync/defaults.h).
use qt_data_sync.Common.{
  ℕ, ◌+◌, ◌%◌, ◌^◌, ◌<◌, Bool, true, ◌&&◌, String, Option, none, some, ◌≡◌, ◌↔◌, ◌⊎◌, if◌then◌else◌,
  arith,
}
use qt_data_sync.Common.Equality.{Keyed, ◌==◌, ==_iff, string_eq, bytes_eq}
use qt_data_sync.Json.{Bytes, Fields, Text}
use qt_data_sync.Table.{Table, get}

-- ObjectKey (src/datasync/objectkey.h): the type's name and the object's id.
pub record ObjectKey : Type 0 where
  pub type_name : Bytes
  pub id : String

pub key_beq : ObjectKey → ObjectKey → Bool
key_beq a b = a.type_name == b.type_name && a.id == b.id

pub key_beq_iff : (a b : ObjectKey) → (key_beq a b ≡ true) ↔ (a ≡ b)
unfolding key_beq
key_beq_iff a b = ground (arith, ==_iff a.type_name b.type_name, ==_iff a.id b.id)

instance abbrev pub key_eq : Keyed ObjectKey
key_eq = record { same = key_beq; same_iff = key_beq_iff }

-- A data file: the directory of its type, and its name without the suffix.
pub record FilePath : Type 0 where
  pub directory : Bytes
  pub base_name : String

pub path_beq : FilePath → FilePath → Bool
path_beq a b = a.directory == b.directory && a.base_name == b.base_name

pub path_beq_iff : (a b : FilePath) → (path_beq a b ≡ true) ↔ (a ≡ b)
unfolding path_beq
path_beq_iff a b = ground (arith, ==_iff a.directory b.directory, ==_iff a.base_name b.base_name)

instance abbrev pub path_eq : Keyed FilePath
path_eq = record { same = path_beq; same_iff = path_beq_iff }

-- The documents on disk.
abbrev pub Files : Type 0
Files = Table FilePath Fields

-- Setup::SyncPolicy (src/datasync/setup.h).
pub data SyncPolicy : Type 0 where
  prefer_changed prefer_deleted : SyncPolicy

-- What is not under src/. `C` is QCache<ObjectKey, QJsonObject>.
pub record Qt (C : Type 0) : Type 0 where
  pub text : Text
  -- QUrl::toPercentEncoding of a type's name
  pub percent_encode : Bytes → Bytes
  -- the name that QTemporaryFile finds for a new file in a directory
  pub temporary_name : Files → Bytes → String
  -- the size of a document in Qt's binary format
  pub file_size : Fields → ℕ
  pub cache_insert : ObjectKey → Fields → ℕ → C → C
  pub cache_object : ObjectKey → C → Option Fields
  pub cache_remove : ObjectKey → C → C
  pub cache_clear : C → C

-- The settings, and the conflict resolver that the setup was given; `none` from the resolver is an
-- exception that it throws.
pub record Env (C : Type 0) : Type 0 where
  pub qt : Qt C
  pub open qt use *
  pub persist_deleted : Bool
  pub conflict_policy : SyncPolicy
  pub conflict_resolver : Option (Bytes → Fields → Fields → Option Fields)

-- Qt's documentation: a cache may evict any entry on an insertion, a temporary file is a new one.
pub record IsLawful {C : Type 0} (env : Env C) : Type 0 where
  pub object-insert :
      (k j : ObjectKey) (d : Fields) (cost : ℕ) (c : C)
      → (env.cache_object k (env.cache_insert j d cost c) ≡ none)
        ⊎ (env.cache_object k (env.cache_insert j d cost c)
            ≡ (if j == k then some d else env.cache_object k c))
  pub object-remove :
      (k j : ObjectKey) (c : C)
      → env.cache_object k (env.cache_remove j c) ≡ (if j == k then none else env.cache_object k c)
  pub object-clear : (k : ObjectKey) (c : C) → env.cache_object k (env.cache_clear c) ≡ none
  pub temporary_new :
      (files : Files) (d : Bytes)
      → get (record { directory = d; base_name = env.temporary_name files d }) files ≡ none

-- `version + 1ull`, in a quint64.
unfoldable pub next_version : ℕ → ℕ
next_version v = (v + 1) % 2 ^ 64

pub next_version-eq : (v : ℕ) → v + 1 < 2 ^ 64 → next_version v ≡ v + 1
unfolding next_version
next_version-eq v h = omega arith
