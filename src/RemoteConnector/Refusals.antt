-- ===== src/RemoteConnector/Refusals.antt =====
-- A message that comes in a state where it does not belong.
use qt_data_sync.Common.{◌≡◌, arith, refl, ap, ◌∙◌, [], ◌∷◌, ◌++◌, if◌then◌else◌, Bool, true, false}
use qt_data_sync.Exec.{ok, gets, modify, ◌>>=◌, catch_ok}
use qt_data_sync.RemoteConnector.{
  Mode, disconnected, retrying, final, connecting, basic_error, on_basic_error, is_active, target,
  active_target, closing_target, submit_event, process, Settings, Connection, trigger_error,
}
use qt_data_sync.RemoteConnector.Frame.{after, after_closing, process_lem}
use qt_data_sync.RemoteConnector.Proofs.{ProofMessage, CryptoController, is_idle, on_proof}
use qt_data_sync.RemoteConnector.Session.{
  Session, Crypto, Handler, can_identify, on_connection, in_mode,
}
use qt_data_sync.RemoteConnector.Handlers.{
  Message, error_message, identify, account, welcome, grant, change_ack, device_change_ack, changed,
  changed_info, last_changed, device_list, remove_ack, proof_request, accept_ack, mac_update_ack,
  device_keys, new_key_ack, unknown, unreadable, is_registering, is_logging_in, is_granting,
  on_change_ack, on_device_change_ack, on_last_changed, on_devices, on_remove_ack, on_accept_ack,
  on_mac_update_ack, on_identify, on_account_message, on_welcome, on_grant, on_changed,
  on_changed_info, on_proof_message, on_device_keys, on_new_key_ack, dispatch, handle_message,
}

-- The states in which a message is expected; an error may come in any.
abbrev pub expected : Message → Mode → Bool
expected (error_message can_recover) m = true
expected unreadable m = true
expected unknown m = false
expected (identify limit nonce) m = can_identify m
expected (account id) m = is_registering m
expected (welcome has_changes update) m = is_logging_in m
expected (grant id index scheme secret) m = is_granting m
expected _ m = is_idle m

abbrev recovering : {K : Type 0} → Session K → Session K
recovering s = record s { connection = trigger_error true s.connection }

on_proof-refuses :
    (c : CryptoController) (p : ProofMessage) (s : Connection)
    → is_idle s.mode ≡ false
    → on_proof c p s ≡ trigger_error true s
unfolding on_proof
on_proof-refuses c p s h = rw h refl

-- Where an error takes the machine, if the connector is to close or not.
abbrev pub error_target : Bool → Mode → Mode
error_target true disconnected = final
error_target true retrying = final
error_target closes m = if is_active m then basic_error else m

error_modes :
    (closes : Bool) (m : Mode)
    → after_closing closes (after m (target m on_basic_error)) ≡ error_target closes m
unfolding target active_target closing_target
error_modes false connecting = refl
error_modes false disconnected = refl
error_modes false retrying = refl
error_modes false _ = refl
error_modes true connecting = refl
error_modes true disconnected = refl
error_modes true retrying = refl
error_modes true _ = refl

error_taken :
    (settings : Settings) (s : Connection)
    → (process settings on_basic_error (trigger_error true s)).mode
      ≡ error_target s.is_closing s.mode
unfolding trigger_error submit_event
error_taken settings s =
    (process_lem settings on_basic_error (trigger_error true s)).mode
    ∙ error_modes s.is_closing s.mode

module _ {K : Type 0} (crypto : Crypto K) where
  in_mode-refuses :
      (allowed : Mode → Bool) (m : Handler K Unit) (s : Session K)
      → allowed s.connection.mode ≡ false
      → in_mode allowed m s ≡ (ok tt, recovering s)
  unfolding in_mode on_connection gets modify ◌>>=◌
  in_mode-refuses allowed m s h = rw h refl

  unknown-refuses : (s : Session K) → on_connection (trigger_error true) s ≡ (ok tt, recovering s)
  unfolding on_connection modify
  unknown-refuses s = refl

  proof-refuses :
      (p : ProofMessage) (s : Session K)
      → is_idle s.connection.mode ≡ false
      → on_proof_message crypto p s ≡ (ok tt, recovering s)
  unfolding on_proof_message modify
  proof-refuses p s h =
      ap (λ c. (ok tt, record s { connection = c }))
        (on_proof-refuses (crypto.proofs s.keys) p s.connection h)

  dispatch-refuses :
      (m : Message) (s : Session K)
      → expected m s.connection.mode ≡ false
      → dispatch crypto m s ≡ (ok tt, recovering s)
  unfolding dispatch on_change_ack on_device_change_ack on_last_changed on_devices on_remove_ack
      on_accept_ack on_mac_update_ack on_identify on_account_message on_welcome on_grant on_changed
      on_changed_info on_device_keys on_new_key_ack
  dispatch-refuses (error_message can_recover) s h = absurd (ground arith)
  dispatch-refuses unreadable s h = absurd (ground arith)
  dispatch-refuses unknown s h = unknown-refuses s
  dispatch-refuses (proof_request p) s h = proof-refuses p s h
  dispatch-refuses (identify limit nonce) s h = in_mode-refuses can_identify _ s h
  dispatch-refuses (account id) s h = in_mode-refuses is_registering _ s h
  dispatch-refuses (welcome has_changes update) s h = in_mode-refuses is_logging_in _ s h
  dispatch-refuses (grant id index scheme secret) s h = in_mode-refuses is_granting _ s h
  dispatch-refuses (change_ack data_id) s h = in_mode-refuses is_idle _ s h
  dispatch-refuses (device_change_ack data_id device) s h = in_mode-refuses is_idle _ s h
  dispatch-refuses (changed data_index index salt content) s h = in_mode-refuses is_idle _ s h
  dispatch-refuses (changed_info estimate data_index index salt content) s h =
      in_mode-refuses is_idle _ s h
  dispatch-refuses last_changed s h = in_mode-refuses is_idle _ s h
  dispatch-refuses (device_list devices) s h = in_mode-refuses is_idle _ s h
  dispatch-refuses (remove_ack id) s h = in_mode-refuses is_idle _ s h
  dispatch-refuses (accept_ack device) s h = in_mode-refuses is_idle _ s h
  dispatch-refuses mac_update_ack s h = in_mode-refuses is_idle _ s h
  dispatch-refuses (device_keys duplicated index devices) s h = in_mode-refuses is_idle _ s h
  dispatch-refuses (new_key_ack index) s h = in_mode-refuses is_idle _ s h

  -- A message that does not belong to the state of the connection, or that has an unknown name, is not
  -- carried out: the connector queues an error for its state machine, and the messages wait; nothing
  -- else changes. When the machine takes up the error in the same state, it leaves each state within
  -- Active for BasicError, ends if it is to close and is disconnected or retrying, and stays otherwise.
  pub handle_message-Refused :
      (settings : Settings) (m : Message) (s : Session K)
      → expected m s.connection.mode ≡ false
      → (handle_message crypto m s ≡ record s {
        connection = record s.connection {
          blocked = true;
          events = s.connection.events ++ on_basic_error ∷ [];
        };
      })
        × ((process settings on_basic_error (handle_message crypto m s).connection).mode
            ≡ error_target s.connection.is_closing s.connection.mode)
  unfolding handle_message trigger_error submit_event
  handle_message-Refused settings m s h =
      let e = ap (λ r. r.1) (catch_ok (dispatch crypto m) _ s _ tt (dispatch-refuses m s h)) in
      (
        e,
        ap (λ x. (process settings on_basic_error x.connection).mode) e
            ∙ error_taken settings s.connection,
      )
