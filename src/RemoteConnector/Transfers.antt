-- ===== src/RemoteConnector/Transfers.antt =====
-- src/datasync/remoteconnector.cpp: what an upload sends and a download reports, in terms of what the
-- CryptoController makes of the data.
use qt_data_sync.Common.{ℕ, ◌≡◌, refl, ap, ◌∙◌, true, [], ◌∷◌, ◌++◌}
use qt_data_sync.Json.{Bytes}
use qt_data_sync.Exec.{ok, gets, modify, continue, ◌>>=◌, catch_ok}
use qt_data_sync.RemoteConnector.{change_message, download_data}
use qt_data_sync.RemoteConnector.Proofs.{is_idle}
use qt_data_sync.RemoteConnector.Session.{
  Session, Crypto, Handler, KeyCall, in_keys, send_message, on_connection, in_mode,
}
use qt_data_sync.RemoteConnector.Handlers.{changed, on_changed, dispatch, handle_message}
use qt_data_sync.RemoteConnector.Requests.{
  upload_data, when_idle, send_upload, serve, after_request,
}

module _ {K : Type 0} where
  when_idle-runs :
      (m : Handler K Unit) (s : Session K) → is_idle s.connection.mode ≡ true → when_idle m s ≡ m s
  unfolding when_idle gets ◌>>=◌
  when_idle-runs m s h = rw h refl

  in_mode-runs :
      (m : Handler K Unit) (s : Session K)
      → is_idle s.connection.mode ≡ true
      → in_mode is_idle m s ≡ m s
  unfolding in_mode gets ◌>>=◌
  in_mode-runs m s h = rw h refl

  keys_then :
      {A : Type 0} (m : KeyCall K A) (f : A → Handler K Unit) (s : Session K) (a : A) (k : K)
      → m s.keys ≡ (ok a, k)
      → (in_keys m >>= f) s ≡ f a (record s { keys = k })
  unfolding in_keys ◌>>=◌
  keys_then m f s a k e = ap (λ p. continue p.0 f (record s { keys = p.1 })) e

module _ {K : Type 0} (crypto : Crypto K) where
  pub upload_lem :
      (hash i : ℕ) (plain salt content : Bytes) (s : Session K) (k : K)
      → is_idle s.connection.mode ≡ true
      → crypto.encrypt_data plain s.keys ≡ (ok (i, salt, content), k)
      → (after_request crypto (upload_data hash plain) s).connection.sent
        ≡ s.connection.sent ++ change_message hash i salt content ∷ []
  unfolding after_request serve send_upload send_message on_connection modify
  upload_lem hash i plain salt content s k h e =
      ap (λ p. p.1.connection.sent)
        (when_idle-runs _ s h
          ∙ catch_ok _ _ s _ tt (keys_then (crypto.encrypt_data plain) _ s _ k e))

  pub download_lem :
      (n i : ℕ) (salt content plain : Bytes) (t : Session K) (k : K)
      → is_idle t.connection.mode ≡ true
      → crypto.decrypt_data i salt content t.keys ≡ (ok plain, k)
      → (handle_message crypto (changed n i salt content) t).connection.signals
        ≡ t.connection.signals ++ download_data n plain ∷ []
  unfolding handle_message dispatch on_changed on_connection modify
  download_lem n i salt content plain t k h e =
      ap (λ p. p.1.connection.signals)
        (catch_ok _ _ t _ tt
          (in_mode-runs _ t h ∙ keys_then (crypto.decrypt_data i salt content) _ t plain k e))
