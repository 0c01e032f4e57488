-- ===== src/CryptoController/Passage.antt =====
-- src/datasync/remoteconnector.cpp with cryptocontroller.cpp: from the upload of one device to the
-- download of another.
use qt_data_sync.Common.{ℕ, ◌≡◌, ap, true, some, [], ◌∷◌, ◌++◌}
use qt_data_sync.Json.{Bytes}
use qt_data_sync.RemoteConnector.{change_message, download_data}
use qt_data_sync.RemoteConnector.Proofs.{is_idle}
use qt_data_sync.RemoteConnector.Session.{Session}
use qt_data_sync.RemoteConnector.Transfers.{upload_lem, download_lem}
use qt_data_sync.RemoteConnector.Handlers.{changed, handle_message}
use qt_data_sync.RemoteConnector.Requests.{upload_data, after_request}
use qt_data_sync.CryptoController.{CipherInfo, Library, Keyring, Preferences}
use qt_data_sync.CryptoController.Exchange.{
  IsLawful, calm, key_at, next_salt, encrypt_lem, decrypt_lem,
}
use qt_data_sync.CryptoController.Service.{Outside, service, as_thrown}

module _ {P : Type 0} (lib : Library P) (prefer : Preferences) (outside : Outside P) where
  uploaded :
      (hash : ℕ) (plain : Bytes) (info : CipherInfo) (s : Session (Keyring P)) (r : Keyring P)
      → is_idle s.connection.mode ≡ true
      → key_at lib r.local_cipher r ≡ some info
      → (after_request
          (service lib prefer outside)
          (upload_data hash plain)
          (record s { keys = calm r })).connection.sent
        ≡ s.connection.sent
          ++ change_message hash r.local_cipher
              (next_salt lib info r)
              (lib.seal info (next_salt lib info r) plain)
            ∷ []
  unfolding service
  uploaded hash plain info s r m h =
      upload_lem (service lib prefer outside) hash r.local_cipher plain (next_salt lib info r)
        (lib.seal info (next_salt lib info r) plain) (record s { keys = calm r }) _ m
        (ap as_thrown (encrypt_lem lib plain info r h))

  downloaded :
      (n i : ℕ) (salt plain : Bytes) (info : CipherInfo) (t : Session (Keyring P)) (q : Keyring P)
      → IsLawful lib
      → is_idle t.connection.mode ≡ true
      → key_at lib i q ≡ some info
      → (handle_message
          (service lib prefer outside)
          (changed n i salt (lib.seal info salt plain))
          (record t { keys = calm q })).connection.signals
        ≡ t.connection.signals ++ download_data n plain ∷ []
  unfolding service
  downloaded n i salt plain info t q l m h =
      download_lem (service lib prefer outside) n i salt (lib.seal info salt plain) plain
        (record t { keys = calm q }) _ m (ap as_thrown (decrypt_lem lib i info salt plain q l h))

  -- When both connections are idle, no file fails, and both devices have the same key for the index that
  -- the first uses, the first uploads the data of a change in one message, and the second reports the same
  -- data as a download when the index, the salt and the content of that message reach it as a change.
  pub upload-Arrives :
      (hash n : ℕ) (plain : Bytes) (info : CipherInfo) (s t : Session (Keyring P)) (r q : Keyring P)
      → IsLawful lib
      → is_idle s.connection.mode ≡ true
      → is_idle t.connection.mode ≡ true
      → key_at lib r.local_cipher r ≡ some info
      → key_at lib r.local_cipher q ≡ some info
      → (salt : Bytes) × (content : Bytes) × ((after_request
            (service lib prefer outside)
            (upload_data hash plain)
            (record s { keys = calm r })).connection.sent
          ≡ s.connection.sent ++ change_message hash r.local_cipher salt content ∷ [])
        × ((handle_message
              (service lib prefer outside)
              (changed n r.local_cipher salt content)
              (record t { keys = calm q })).connection.signals
            ≡ t.connection.signals ++ download_data n plain ∷ [])
  upload-Arrives hash n plain info s t r q l m k h g =
      let salt = next_salt lib info r in
      (
        salt,
        lib.seal info salt plain,
        uploaded hash plain info s r m h,
        downloaded n r.local_cipher salt plain info t q l k g,
      )
