-- ===== src/CryptoController/Exchange.antt =====
-- src/datasync/cryptocontroller.cpp: the key of an index, and what encryptData and decryptData return.
use qt_data_sync.Common.{ℕ, ◌≡◌, ◌+◌, refl, ap, Option, none, some, [], length}
use qt_data_sync.Common.Equality.{nat_eq}
use qt_data_sync.Json.{Bytes}
use qt_data_sync.Table.{get}
use qt_data_sync.Exec.{ok, err, pure, throw, gets, modify, ◌>>=◌, ◌>>◌}
use qt_data_sync.CryptoController.{
  Scheme, CipherInfo, Library, Keyring, crypto_failed, set, attempt, create_scheme, on_disk,
  load_info, get_info, encrypt_data, decrypt_data,
}

-- What the Crypto++ library promises.
pub record IsLawful {P : Type 0} (lib : Library P) : Type 0 where
  pub unseal-seal :
      (info : CipherInfo) (salt plain : Bytes)
      → lib.unseal info salt (lib.seal info salt plain) ≡ some plain
  pub decrypt-encrypt : (p : P) (b : Bytes) → lib.decrypt p (lib.encrypt p b) ≡ some b
  -- the names of the schemes differ
  pub named : (s : Scheme) → create_scheme lib (lib.algorithm_name s) ≡ some s
  pub length-block : (n m : ℕ) → length (lib.block n m) ≡ m
  pub default_fits :
      (s : Scheme) → lib.to_key_length s (lib.default_length s) ≡ lib.default_length s
  pub made_fits :
      (s : Scheme) (n : ℕ) → lib.to_key_length s (lib.to_key_length s n) ≡ lib.to_key_length s n

-- No file fails.
abbrev pub calm : {P : Type 0} → Keyring P → Keyring P
calm r = record r { outcomes = [] }

module _ {P : Type 0} (lib : Library P) where
  abbrev or_disk : Option CipherInfo → Option CipherInfo → Option CipherInfo
  or_disk none disk = disk
  or_disk (some info) disk = some info

  -- The key of an index that getInfo finds.
  abbrev pub key_at : ℕ → Keyring P → Option CipherInfo
  key_at i r = or_disk (get i r.loaded) (on_disk lib i r)

  -- A key that fits its scheme.
  abbrev pub IsSized : CipherInfo → Type 0
  IsSized info = lib.to_key_length info.scheme (length info.key) ≡ length info.key

  -- getInfo gives the key, and leaves all but the loaded keys.
  abbrev pub found : Option CipherInfo → ℕ → CipherInfo → Keyring P → Keyring P
  found none i info r = record r { loaded = set i info r.loaded }
  found (some known) i info r = r

  pub get_info_lem :
      (i : ℕ) (info : CipherInfo) (r : Keyring P)
      → key_at i r ≡ some info
      → get_info lib i (calm r) ≡ (ok info, found (get i r.loaded) i info (calm r))
  unfolding get_info load_info attempt gets modify pure throw ◌>>=◌ ◌>>◌
  get_info_lem i info r h = by_loaded (get i r.loaded) refl
    where
      by_loaded :
          (o : Option CipherInfo)
          → get i r.loaded ≡ o
          → get_info lib i (calm r) ≡ (ok info, found o i info (calm r))
      by_loaded none q = let d : on_disk lib i r ≡ some info = rw q at h in rw (q, d) refl
      by_loaded (some known) q =
          let e : some known ≡ some info = rw q at h in
          rw q (ap (λ o. elim o [ none ↦ (err crypto_failed, calm r) | some k ↦ (ok k, calm r) ]) e)

  pub decrypt_lem :
      (i : ℕ) (info : CipherInfo) (salt plain : Bytes) (q : Keyring P)
      → IsLawful lib
      → key_at i q ≡ some info
      → decrypt_data lib i salt (lib.seal info salt plain) (calm q)
        ≡ (ok plain, found (get i q.loaded) i info (calm q))
  unfolding decrypt_data pure ◌>>=◌
  decrypt_lem i info salt plain q l h =
      rw (get_info_lem i info q h, l.unseal-seal info salt plain) refl

  -- The state with the key found.
  abbrev pub using : CipherInfo → Keyring P → Keyring P
  using info r = found (get r.local_cipher r.loaded) r.local_cipher info (calm r)

  -- The salt is the next random block.
  abbrev pub next_salt : CipherInfo → Keyring P → Bytes
  next_salt info r = lib.block (using info r).draws (lib.iv_length info.scheme)

  abbrev pub drawn : Keyring P → Keyring P
  drawn r = record r { draws = r.draws + 1 }

  pub encrypt_lem :
      (plain : Bytes) (info : CipherInfo) (r : Keyring P)
      → key_at r.local_cipher r ≡ some info
      → encrypt_data lib plain (calm r) ≡ (
        ok (r.local_cipher, next_salt info r, lib.seal info (next_salt info r) plain),
        drawn (using info r),
      )
  unfolding encrypt_data gets modify pure ◌>>=◌ ◌>>◌
  encrypt_lem plain info r h = rw (get_info_lem r.local_cipher info r h) refl
