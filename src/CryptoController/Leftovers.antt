-- ===== src/CryptoController/Leftovers.antt =====
-- What a reset of the account leaves behind.
use qt_data_sync.Common.{◌≡◌, refl, Option, none, some}
use qt_data_sync.Common.Equality.{nat_eq}
use qt_data_sync.Json.{Bytes}
use qt_data_sync.Table.{get, delete_where}
use qt_data_sync.Exec.{err, pure, throw, gets, modify, ◌>>=◌, ◌>>◌}
use qt_data_sync.CryptoController.{
  Scheme, Library, Keyring, crypto_failed, Preferences, opened, attempt, load_info, get_info,
  store_cipher_key, create_info, create_private_keys, store_private_keys, generate_next_key,
  clear_key_material, delete_key_material,
}
use qt_data_sync.CryptoController.Exchange.{calm}

module _ {P : Type 0} (lib : Library P) (prefer : Preferences) where
  no_file : (p : P) (o : Option Scheme) → opened lib p o none ≡ none
  no_file p none = refl
  no_file p (some s) = refl

  -- The keys of an account are deleted, and those of a new account made and stored.
  abbrev pub renewed : P → Bytes → Keyring P → Keyring P
  renewed blank nonce r =
      (store_private_keys lib
        (create_private_keys lib prefer nonce (delete_key_material lib blank r).1).1).1

  -- When no file fails and the first key update of an account is prepared but not done, then after the
  -- account is reset and a new one is made, generateNextKey throws.
  pub generate_next_key-Fails :
      (blank : P) (nonce : Bytes) (r : Keyring P)
      → r.next_key ≡ some 1
      → (generate_next_key lib prefer (renewed blank nonce (calm r))).0 ≡ err crypto_failed
  unfolding generate_next_key get_info load_info store_cipher_key create_info create_private_keys
      store_private_keys clear_key_material delete_key_material attempt gets modify pure throw get
      delete_where ◌>>=◌ ◌>>◌
  generate_next_key-Fails blank nonce r n = rw (n, no_file) refl
