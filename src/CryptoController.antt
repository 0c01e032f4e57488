-- ===== src/CryptoController.antt =====
-- src/datasync/cryptocontroller.cpp: the keys of a device. Data is encrypted with the exchange key of an
-- index, which all devices of an account share; the key of an index is kept in a file that is
-- encrypted for the device, and its scheme in the settings. The Crypto++ library is a parameter; a failure
-- of a file is an outcome from a list, and an empty list means success from there on.
pub mod Exchange
pub mod Renewal
pub mod Leftovers
pub mod Service
pub mod Passage
use qt_data_sync.Common.{
  ℕ, ◌+◌, ◌%◌, ◌^◌, Bool, true, false, not, Option, none, some, List, [], ◌∷◌, ◌++◌, ◌&&◌,
  if◌then◌else◌, length, ltb,
}
use qt_data_sync.Common.Equality.{◌==◌, nat_eq, bytes_eq}
use qt_data_sync.Json.{Bytes}
use qt_data_sync.Table.{Table, get, delete_where}
use qt_data_sync.Exec.{Exec, Result, ok, err, pure, throw, gets, modify, ◌>>=◌, ◌>>◌}

-- The symmetric schemes that are supported, and Setup::CipherScheme.
pub data Scheme : Type 0 where
  aes_eax aes_gcm twofish_eax twofish_gcm serpent_eax serpent_gcm idea_eax : Scheme

pub record CipherInfo : Type 0 where
  pub scheme : Scheme
  pub key : Bytes

-- What is not under src/; `P` has the private keys of a device.
pub record Library (P : Type 0) : Type 0 where
  -- StaticAlgorithmName, CipherScheme::defaultKeyLength and toKeyLength
  pub algorithm_name : Scheme → Bytes
  pub default_length : Scheme → ℕ
  pub to_key_length : Scheme → ℕ → ℕ
  -- the random block of a length; the first number counts the blocks
  pub block : ℕ → ℕ → Bytes
  pub generate : Bytes → ℕ → P
  pub encrypt : P → Bytes → Bytes
  pub decrypt : P → Bytes → Option Bytes
  -- the authenticated ciphers and the cmac, with the scheme and the key
  pub iv_length : Scheme → ℕ
  pub seal : CipherInfo → Bytes → Bytes → Bytes
  pub unseal : CipherInfo → Bytes → Bytes → Option Bytes
  pub cmac : CipherInfo → Bytes → Bytes
  -- encryptionScheme and writeCryptKey
  pub crypt_key : P → Bytes

-- The members of CryptoController, its settings, and the files of keys. `draws` counts the random blocks.
pub record Keyring (P : Type 0) : Type 0 where
  pub pair : P
  pub local_cipher : ℕ
  pub loaded : Table ℕ CipherInfo
  pub files : Table ℕ Bytes
  pub schemes : Table ℕ Bytes
  pub stored_index : Option ℕ
  pub next_key : Option ℕ
  pub draws : ℕ
  pub outcomes : List Bool

pub data Failure : Type 0 where
  crypto_failed : Failure

-- Defaults::SymScheme and SymKeyParam
pub record Preferences : Type 0 where
  pub scheme : Scheme
  pub key_size : ℕ

-- createScheme of a setting: what Setup calls a scheme is not always what is made.
abbrev pub preferred_scheme : Scheme → Scheme
preferred_scheme twofish_gcm = twofish_eax
preferred_scheme serpent_gcm = serpent_eax
preferred_scheme s = s

abbrev pub all_schemes : List Scheme
all_schemes =
    aes_eax ∷ aes_gcm ∷ twofish_eax ∷ twofish_gcm ∷ serpent_eax ∷ serpent_gcm ∷ idea_eax ∷ []

abbrev pub set {ℓ} : {V : Type ℓ} → ℕ → V → Table ℕ V → Table ℕ V
set i v t = (i, v) ∷ delete_where (λ j _. j == i) t

abbrev pub or_empty : Option Bytes → Bytes
or_empty none = []
or_empty (some b) = b

abbrev pub Method : Type 0 → Type 0 → Type 0
Method P A = Exec Failure (Keyring P) A

module _ {P : Type 0} where
  abbrev pub from_option : {A : Type 0} → Option A → Method P A
  from_option none = throw crypto_failed
  from_option (some a) = pure a

  abbrev take_outcome : List Bool → Method P (Unit {0})
  take_outcome [] = pure tt
  take_outcome (true ∷ rest) = modify (λ r. record r { outcomes = rest })
  take_outcome (false ∷ rest) = do modify (λ r. record r { outcomes = rest }); throw crypto_failed

  -- A directory is made or a file opened.
  unfoldable pub attempt : Method P (Unit {0})
  attempt = do outcomes ← gets (λ r. r.outcomes); take_outcome outcomes

  abbrev pub insert_loaded : ℕ → CipherInfo → Method P (Unit {0})
  insert_loaded i info = modify (λ r. record r { loaded = set i info r.loaded })

module _ {P : Type 0} (lib : Library P) where
  abbrev pub scheme_named : Bytes → List Scheme → Option Scheme
  scheme_named name [] = none
  scheme_named name (s ∷ ss) =
      let rest = scheme_named name ss in if lib.algorithm_name s == name then some s else rest

  -- createScheme of a name
  abbrev pub create_scheme : Bytes → Option Scheme
  create_scheme name = scheme_named name all_schemes

  -- The length of the key must be one of the scheme.
  abbrev pub checked_key : Scheme → Option Bytes → Option CipherInfo
  checked_key s none = none
  checked_key s (some key) =
      if length key == lib.to_key_length s (length key)
      then some (record { scheme = s; key = key })
      else none

  abbrev pub opened : P → Option Scheme → Option Bytes → Option CipherInfo
  opened p none file = none
  opened p (some s) none = none
  opened p (some s) (some content) = checked_key s (lib.decrypt p content)

  -- The key as the files and settings have it.
  abbrev pub on_disk : ℕ → Keyring P → Option CipherInfo
  on_disk i r = opened r.pair (create_scheme (or_empty (get i r.schemes))) (get i r.files)

  unfoldable pub load_info : ℕ → Method P CipherInfo
  load_info i = do
    attempt
    attempt
    read ← gets (on_disk i)
    info ← from_option read
    insert_loaded i info
    pure info

  abbrev known_or : Option CipherInfo → Method P CipherInfo → Method P CipherInfo
  known_or none m = m
  known_or (some info) m = pure info

  unfoldable pub get_info : ℕ → Method P CipherInfo
  get_info i = do known ← gets (λ r. get i r.loaded); known_or known (load_info i)

  unfoldable pub store_cipher_key : ℕ → Method P (Unit {0})
  store_cipher_key i = do
    attempt
    info ← get_info i
    attempt
    modify (λ r. record r {
      files = set i (lib.encrypt r.pair info.key) r.files;
      schemes = set i (lib.algorithm_name info.scheme) r.schemes;
    })

  -- A key older than five updates goes.
  abbrev pub is_old : ℕ → ℕ → Bool
  is_old local i = ltb ((i + 5) % 2 ^ 32) local

  abbrev pub has_scheme : ℕ → Keyring P → Bool
  has_scheme i r = elim (get i r.schemes) [ none ↦ false | some s ↦ true ]

  unfoldable pub clean_ciphers : Method P (Unit {0})
  clean_ciphers = do
    attempt
    modify (λ r. record r {
      files = delete_where (λ i _. is_old r.local_cipher i && has_scheme i r) r.files;
      loaded = delete_where (λ i _. is_old r.local_cipher i && has_scheme i r) r.loaded;
      schemes = delete_where (λ i _. is_old r.local_cipher i) r.schemes;
    })

  module _ (prefer : Preferences) where
    abbrev pub key_length : ℕ
    key_length =
        let s = preferred_scheme prefer.scheme in
        if prefer.key_size == 0 then lib.default_length s else lib.to_key_length s prefer.key_size

    unfoldable pub create_info : Method P CipherInfo
    create_info = do
      draws ← gets (λ r. r.draws)
      modify (λ r. record r { draws = draws + 1 })
      pure (record { scheme = preferred_scheme prefer.scheme; key = lib.block draws key_length })

    unfoldable pub create_private_keys : Bytes → Method P (Unit {0})
    create_private_keys nonce = do
      modify (λ r. record r { pair = lib.generate nonce r.draws; draws = r.draws + 1 })
      info ← create_info
      modify (λ r. record r { local_cipher = 0; loaded = set 0 info r.loaded })

    abbrev pub is_pending : ℕ → Option ℕ → Bool
    is_pending i none = false
    is_pending i (some n) = n == i

    abbrev make_key : ℕ → Method P CipherInfo
    make_key i = do
      info ← create_info
      insert_loaded i info
      store_cipher_key i
      modify (λ r. record r { next_key = some i })
      pure info

    -- The index and the scheme of the next key; one that was made before is used.
    unfoldable pub generate_next_key : Method P (ℕ × Bytes)
    generate_next_key = do
      i ← gets (λ r. (r.local_cipher + 1) % 2 ^ 32)
      pending ← gets (λ r. is_pending i r.next_key)
      info ← (if pending then get_info i else make_key i)
      pure (i, lib.algorithm_name info.scheme)

  abbrev pub stored_number : Option ℕ → ℕ
  stored_number none = 0
  stored_number (some n) = n

  abbrev activate : ℕ → Method P (Unit {0})
  activate i = do
    get_info i
    modify (λ r. record r { local_cipher = i; stored_index = some i; next_key = none })
    clean_ciphers

  unfoldable pub activate_next_key : ℕ → Method P (Unit {0})
  activate_next_key i = do
    fits ← gets (λ r. (r.local_cipher + 1) % 2 ^ 32 == i && stored_number r.next_key == i)
    if fits then activate i else pure tt

  abbrev adopt : ℕ → Method P (Unit {0})
  adopt i = do
    store_cipher_key i
    newer ← gets (λ r. ltb r.local_cipher i)
    if newer
        then (do modify (λ r. record r { local_cipher = i; stored_index = some i }); clean_ciphers)
        else pure tt

  unfoldable pub decrypt_secret_key : ℕ → Bytes → Bytes → Bool → Method P (Unit {0})
  decrypt_secret_key i scheme content grant_init = do
    key ← gets (λ r. lib.decrypt r.pair content)
    plain ← from_option key
    made ← from_option (create_scheme scheme)
    insert_loaded i (record { scheme = made; key = plain })
    if grant_init then modify (λ r. record r { local_cipher = i }) else adopt i

  -- The index, the salt and the data.
  unfoldable pub encrypt_data : Bytes → Method P (ℕ × Bytes × Bytes)
  encrypt_data plain = do
    i ← gets (λ r. r.local_cipher)
    info ← get_info i
    draws ← gets (λ r. r.draws)
    modify (λ r. record r { draws = draws + 1 })
    let salt = lib.block draws (lib.iv_length info.scheme)
    pure (i, salt, lib.seal info salt plain)

  unfoldable pub decrypt_data : ℕ → Bytes → Bytes → Method P Bytes
  decrypt_data i salt content = do info ← get_info i; from_option (lib.unseal info salt content)

  unfoldable pub encryption_key_cmac : ℕ → Method P Bytes
  encryption_key_cmac i = do
    info ← get_info i
    message ← gets (λ r. lib.crypt_key r.pair)
    pure (lib.cmac info message)

  unfoldable pub create_cmac : ℕ → Bytes → Method P Bytes
  create_cmac i content = do info ← get_info i; pure (lib.cmac info content)

  unfoldable pub verify_cmac : ℕ → Bytes → Bytes → Method P (Unit {0})
  verify_cmac i content mac = do
    info ← get_info i
    if lib.cmac info content == mac then pure tt else throw crypto_failed

  -- The private keys go to the key store.
  unfoldable pub store_private_keys : Method P (Unit {0})
  store_private_keys = do
    local ← gets (λ r. r.local_cipher)
    store_cipher_key local
    modify (λ r. record r { stored_index = some local })

  unfoldable pub clear_key_material : P → Method P (Unit {0})
  clear_key_material blank = modify (λ r. record r { pair = blank; loaded = []; local_cipher = 0 })

  -- The files go; of the settings, the schemes of the keys and the next key stay.
  unfoldable pub delete_key_material : P → Method P (Unit {0})
  delete_key_material blank = do
    attempt
    modify (λ r. record r { files = []; stored_index = none })
    clear_key_material blank
