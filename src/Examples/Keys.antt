-- ===== src/Examples/Keys.antt =====
-- Keys with ciphers that leave the text as it is.
use qt_data_sync.Common.{
  ℕ, zero, suc, ◌≡◌, refl, ap, arith, true, false, none, some, [], ◌∷◌, length,
}
use qt_data_sync.Json.{Bytes}
use qt_data_sync.Table.{get}
use qt_data_sync.CryptoController.{
  Scheme, aes_eax, aes_gcm, twofish_eax, twofish_gcm, serpent_eax, serpent_gcm, idea_eax,
  CipherInfo, Library, Keyring, crypto_failed, Preferences, create_scheme, generate_next_key,
  activate_next_key, decrypt_secret_key,
}
use qt_data_sync.Exec.{ok, err}
use qt_data_sync.CryptoController.Exchange.{IsLawful, calm}
use qt_data_sync.CryptoController.Service.{Outside, service}
use qt_data_sync.CryptoController.Passage.{upload-Arrives}
use qt_data_sync.RemoteConnector.{idle, change_message, download_data}
use qt_data_sync.RemoteConnector.Session.{Session}
use qt_data_sync.RemoteConnector.Handlers.{changed, handle_message}
use qt_data_sync.RemoteConnector.Requests.{upload_data, after_request}
use qt_data_sync.Examples.Connection.{crypto, at_mode}
use qt_data_sync.CryptoController.Renewal.{Uses, fresh, renewal-Uses}
use qt_data_sync.CryptoController.Leftovers.{renewed, generate_next_key-Fails}

abbrev ones : ℕ → Bytes
ones zero = []
ones (suc n) = 1 ∷ ones n

length-ones : (n : ℕ) → length (ones n) ≡ n
length-ones zero = refl
length-ones (suc n) = ap suc (length-ones n)

abbrev name : Scheme → Bytes
name aes_eax = 0 ∷ []
name aes_gcm = 1 ∷ []
name twofish_eax = 2 ∷ []
name twofish_gcm = 3 ∷ []
name serpent_eax = 4 ∷ []
name serpent_gcm = 5 ∷ []
name idea_eax = 6 ∷ []

abbrev library : Library (Unit {0})
library = record {
  algorithm_name = name;
  default_length = λ s. 2;
  to_key_length = λ s n. 2;
  block = λ n m. ones m;
  generate = λ nonce n. tt;
  encrypt = λ p b. b;
  decrypt = λ p b. some b;
  iv_length = λ s. 1;
  seal = λ info salt plain. plain;
  unseal = λ info salt content. some content;
  cmac = λ info content. content;
  crypt_key = λ p. [];
}

named : (s : Scheme) → create_scheme library (name s) ≡ some s
named aes_eax = refl
named aes_gcm = refl
named twofish_eax = refl
named twofish_gcm = refl
named serpent_eax = refl
named serpent_gcm = refl
named idea_eax = refl

library-IsLawful : IsLawful library
library-IsLawful = record {
  unseal-seal = λ info salt plain. refl;
  decrypt-encrypt = λ p b. refl;
  named = named;
  length-block = λ n m. length-ones m;
  default_fits = λ s. refl;
  made_fits = λ s n. refl;
}

abbrev prefer : Preferences
prefer = record { scheme = twofish_gcm; key_size = 0 }

abbrev info : CipherInfo
info = record { scheme = aes_gcm; key = 8 ∷ 9 ∷ [] }

-- One device has the key 3 loaded, the other in a file.
abbrev loaded_ring : Keyring (Unit {0})
loaded_ring = record {
  pair = tt;
  local_cipher = 3;
  loaded = (3, info) ∷ [];
  files = [];
  schemes = [];
  stored_index = some 3;
  next_key = none;
  draws = 0;
  outcomes = [];
}

abbrev filed_ring : Keyring (Unit {0})
filed_ring = record loaded_ring {
  loaded = [];
  files = (3, 8 ∷ 9 ∷ []) ∷ [];
  schemes = (3, 1 ∷ []) ∷ [];
}

abbrev outside : Outside (Unit {0})
outside = record {
  blank = tt;
  can_sign = λ p. true;
  export_cmac = λ scheme key p. some [];
  signature_data = λ u d. u.key;
  encrypt_for = λ keys key. some key;
  proofs = λ p. crypto;
}

abbrev session_of : Keyring (Unit {0}) → Session (Keyring (Unit {0}))
session_of r = record {
  connection = at_mode idle false;
  keys = r;
  stored = record { device_id = some 7; send_cmac = false; import_data = none; config = true };
}

upload-Arrives_example :
    (salt : Bytes) × (content : Bytes) × ((after_request
        (service library prefer outside)
        (upload_data 5 (7 ∷ []))
        (session_of (calm loaded_ring))).connection.sent
      ≡ change_message 5 3 salt content ∷ [])
    × ((handle_message
          (service library prefer outside)
          (changed 6 3 salt content)
          (session_of (calm filed_ring))).connection.signals
        ≡ download_data 6 (7 ∷ []) ∷ [])
unfolding get
upload-Arrives_example =
    upload-Arrives library prefer outside 5 6 (7 ∷ []) info (session_of loaded_ring)
      (session_of filed_ring) loaded_ring filed_ring library-IsLawful refl refl refl refl

renewal-Uses_example :
    ((generate_next_key library prefer (calm loaded_ring)).0 ≡ ok (4, 2 ∷ []))
    × ((activate_next_key library 4 (generate_next_key library prefer (calm loaded_ring)).1).0
        ≡ ok tt)
    × ((decrypt_secret_key library 4
          (2 ∷ [])
          (fresh library prefer loaded_ring).key
          false
          (calm filed_ring)).0
        ≡ ok tt)
    × Uses library 4
        (fresh library prefer loaded_ring)
        (activate_next_key library 4 (generate_next_key library prefer (calm loaded_ring)).1).1
    × Uses library 4
        (fresh library prefer loaded_ring)
        (decrypt_secret_key library 4
          (2 ∷ [])
          (fresh library prefer loaded_ring).key
          false
          (calm filed_ring)).1
renewal-Uses_example =
    renewal-Uses library prefer loaded_ring filed_ring library-IsLawful refl (omega arith) refl

generate_next_key-Fails_example :
    (generate_next_key library prefer
      (renewed library prefer tt [] (calm (record loaded_ring { next_key = some 1 })))).0
    ≡ err crypto_failed
generate_next_key-Fails_example =
    generate_next_key-Fails library prefer tt [] (record loaded_ring { next_key = some 1 }) refl
