-- ===== src/CryptoController/Service.antt =====
-- The controller of the exchange keys as the connector uses it.
use qt_data_sync.Common.{ℕ, Bool, Option, none, some}
use qt_data_sync.Common.Equality.{bytes_eq}
use qt_data_sync.Json.{Bytes}
use qt_data_sync.Exec.{Result, ok, err, gets, ◌>>=◌, ◌>>◌}
use qt_data_sync.RemoteConnector.Proofs.{CryptoController as Proofs}
use qt_data_sync.RemoteConnector.Session.{Crypto, DeviceKey, KeyUpdate, KeyCall, Thrown, failed}
use qt_data_sync.CryptoController.{
  Library, Keyring, Preferences, Failure, Method, from_option, get_info, create_private_keys,
  store_private_keys, generate_next_key, activate_next_key, decrypt_secret_key, encrypt_data,
  decrypt_data, encryption_key_cmac, verify_cmac, delete_key_material,
}

-- What the connector takes from the Crypto++ library beside the exchange keys.
pub record Outside (P : Type 0) : Type 0 where
  -- private keys that have been reset
  pub blank : P
  pub can_sign : P → Bool
  pub export_cmac : Bytes → Bytes → P → Option Bytes
  -- WelcomeMessage::signatureData
  pub signature_data : KeyUpdate → Option ℕ → Bytes
  -- a key encrypted for the keys of another device, if these can be read
  pub encrypt_for : Bytes → Bytes → Option Bytes
  pub proofs : P → Proofs

abbrev pub as_thrown : {K A : Type 0} → Result Failure A × K → Result Thrown A × K
as_thrown (ok a, k) = (ok a, k)
as_thrown (err e, k) = (err failed, k)

abbrev pub call : {P A : Type 0} → Method P A → KeyCall (Keyring P) A
call m k = as_thrown (m k)

module _ {P : Type 0} (lib : Library P) (prefer : Preferences) (outside : Outside P) where
  abbrev index_or : Option ℕ → ℕ → ℕ
  index_or none local = local
  index_or (some i) local = i

  abbrev pub own_cmac : Option ℕ → Method P Bytes
  own_cmac i = do local ← gets (λ r. r.local_cipher); encryption_key_cmac lib (index_or i local)

  -- The device must know the current key; it gets the new one.
  abbrev pub key_for_device : ℕ → DeviceKey → Method P Bytes
  key_for_device i d = do
    local ← gets (λ r. r.local_cipher)
    verify_cmac lib local d.1 d.2
    info ← get_info lib i
    from_option (outside.encrypt_for d.1 info.key)

  abbrev kept_keys : {A : Type 0} → Result Failure A × Keyring P → Keyring P
  kept_keys (r, k) = k

  unfoldable pub service : Crypto (Keyring P)
  service = record {
    key_index = λ k. some k.local_cipher;
    can_sign = λ k. outside.can_sign k.pair;
    create_private_keys = λ nonce. call (create_private_keys lib prefer nonce);
    store_private_keys = λ id. call (store_private_keys lib);
    encryption_key_cmac = λ i. call (own_cmac i);
    export_cmac_for_crypto = λ scheme key k. outside.export_cmac scheme key k.pair;
    verify_cmac = λ u device. call (do
      local ← gets (λ r. r.local_cipher)
      verify_cmac lib local (outside.signature_data u device) u.cmac);
    decrypt_secret_key = λ i scheme key grant. call (decrypt_secret_key lib i scheme key grant);
    encrypt_data = λ plain. call (encrypt_data lib plain);
    decrypt_data = λ i salt content. call (decrypt_data lib i salt content);
    activate_next_key = λ i. call (activate_next_key lib i);
    generate_next_key = call (generate_next_key lib prefer);
    key_for_device = λ i d. call (key_for_device i d);
    delete_key_material = λ id k. kept_keys (delete_key_material lib outside.blank k);
    proofs = λ k. outside.proofs k.pair;
  }
