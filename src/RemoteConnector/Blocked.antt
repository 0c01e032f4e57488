-- ===== src/RemoteConnector/Blocked.antt =====
-- Nothing but a stable machine lets the messages through again.
use qt_data_sync.Common.{
  ◌≡◌, arith, refl, ◌∙◌, ℕ, Bool, true, false, not, Option, none, some, List, ◌∷◌, if◌then◌else◌,
}
use qt_data_sync.Common.Equality.{◌==◌, nat_eq}
use qt_data_sync.Exec.{Result, ok, err}
use qt_data_sync.Exec.Triple.{
  Post, Keeps, pure-Keeps, throw-Keeps, gets-Keeps, bind-Keeps, seq-Keeps, modify-Keeps,
  catch-Triple, if-Triple,
}
use qt_data_sync.RemoteConnector.{
  MachineEvent, SocketState, Settings, Connection, Input, Sent, Signal, machine_step, socket_opened,
  socket_lost, socket_error, ping_timeout, retry_timeout, special_timeout, reconnect,
  disconnect_remote, finalize, handler_event, close_socket, ping, process, is_final, submit_event,
  trigger_error, connector_step, clear_caches, unconnected, host_lookup, socket_connecting,
  socket_connected, socket_closing,
}
use qt_data_sync.RemoteConnector.Frame.{process_lem}
use qt_data_sync.RemoteConnector.Replay.{login_reply-Same}
use qt_data_sync.RemoteConnector.Session.{
  KeyCall, in_keys, beside_keys, Stored, Session, notify, submit, Crypto, Handler, Thrown,
  on_connection, send_message, change_stored, from_option, compute,
}
use qt_data_sync.RemoteConnector.Handlers.{on_error}
use qt_data_sync.RemoteConnector.Requests.{
  Request, resync, list_devices, update_key, remove_device, download_done, upload_data,
  upload_device_data, reply_login, prepare_import, reset_account, when_idle, or_error, send_upload,
  send_device_upload, acknowledge_download, init_key_change, ask_removal, forget_account,
  forget_any, reset, serve, after_request,
}

-- Where messages wait before, they wait after.
abbrev pub StaysBlocked : (Connection → Connection) → Type 0
StaysBlocked f = (s : Connection) → s.blocked ≡ true → (f s).blocked ≡ true

if-StaysBlocked :
    (b : Bool) (s t : Connection)
    → s.blocked ≡ true
    → t.blocked ≡ true
    → (if b then s else t).blocked ≡ true
if-StaysBlocked true s t h k = h
if-StaysBlocked false s t h k = k

trigger_error-StaysBlocked : (b : Bool) → StaysBlocked (trigger_error b)
unfolding trigger_error submit_event
trigger_error-StaysBlocked true s h = refl
trigger_error-StaysBlocked false s h = refl

close_socket-StaysBlocked : (o : Option SocketState) → StaysBlocked (close_socket o)
close_socket-StaysBlocked none s h = h
close_socket-StaysBlocked (some unconnected) s h = h
close_socket-StaysBlocked (some host_lookup) s h = h
close_socket-StaysBlocked (some socket_connecting) s h = h
close_socket-StaysBlocked (some socket_connected) s h = h
close_socket-StaysBlocked (some socket_closing) s h = h

ping-StaysBlocked : StaysBlocked ping
unfolding ping submit_event
ping-StaysBlocked s h = if-StaysBlocked s.awaiting_ping _ _ refl h

module _ (settings : Settings) where
  -- An event of the machine.
  pub process-StaysBlocked : (e : MachineEvent) → StaysBlocked (process settings e)
  process-StaysBlocked e s h = (process_lem settings e s).blocks h

  pub next_event-StaysBlocked :
      (e : MachineEvent) (es : List MachineEvent) (s : Connection)
      → s.events ≡ e ∷ es
      → s.blocked ≡ true
      → (connector_step settings machine_step s).blocked ≡ true
  unfolding connector_step
  next_event-StaysBlocked e es s q h = rw q (process-StaysBlocked e (record s { events = es }) h)

  abbrev pub is_step : Input → Bool
  is_step machine_step = true
  is_step _ = false

  pub outside-StaysBlocked :
      (i : Input) → is_step i ≡ false → StaysBlocked (connector_step settings i)
  unfolding connector_step submit_event
  outside-StaysBlocked machine_step e s h = absurd (ground arith)
  outside-StaysBlocked socket_opened e s h = refl
  outside-StaysBlocked socket_lost e s h = refl
  outside-StaysBlocked socket_error e s h = close_socket-StaysBlocked s.socket s h
  outside-StaysBlocked ping_timeout e s h = ping-StaysBlocked s h
  outside-StaysBlocked retry_timeout e s h = if-StaysBlocked (s.retry_index == 0) _ _ h refl
  outside-StaysBlocked special_timeout e s h = trigger_error-StaysBlocked true s h
  outside-StaysBlocked reconnect e s h = refl
  outside-StaysBlocked disconnect_remote e s h = trigger_error-StaysBlocked false s h
  outside-StaysBlocked finalize e s h = if-StaysBlocked (is_final s.mode) _ _ h refl
  outside-StaysBlocked (handler_event x) e s h = refl

module _ {K : Type 0} where
  abbrev pub Waits : Session K → Type 0
  Waits s = s.connection.blocked ≡ true

  connection-Keeps : (f : Connection → Connection) → StaysBlocked f → Keeps Waits (on_connection f)
  unfolding on_connection
  connection-Keeps f h = modify-Keeps _ (λ s w. h s.connection w)

  send-Keeps : (m : Sent) → Keeps Waits (send_message m)
  unfolding send_message
  send-Keeps m = connection-Keeps _ (λ s w. w)

  notify-Keeps : (m : Signal) → Keeps Waits (notify m)
  notify-Keeps m = connection-Keeps _ (λ s w. w)

  submit-Keeps : (e : MachineEvent) → Keeps Waits (submit e)
  unfolding submit_event
  submit-Keeps e = connection-Keeps _ (λ s w. refl)

  stored-Keeps : (f : Stored → Stored) → Keeps Waits (change_stored f)
  unfolding change_stored
  stored-Keeps f = modify-Keeps _ (λ s w. w)

  option-Keeps : {A : Type 0} (o : Option A) → Keeps Waits (from_option o)
  option-Keeps none = throw-Keeps _
  option-Keeps (some a) = pure-Keeps a

  compute-Keeps : {A : Type 0} (f : K → Option A) → Keeps Waits (compute f)
  unfolding compute
  compute-Keeps f = bind-Keeps _ _ (gets-Keeps _) (λ o. option-Keeps o)

  beside :
      {A : Type 0} (s : Session K) (r : Result Thrown A × K)
      → Waits s
      → Post (λ _. Waits) (λ _. Waits) (beside_keys s r)
  beside s (ok a, keys) w = w
  beside s (err e, keys) w = w

  keys-Keeps : {A : Type 0} (m : KeyCall K A) → Keeps Waits (in_keys m)
  unfolding in_keys
  keys-Keeps m = record { at = λ s w. beside s (m s.keys) w }

  idle-Keeps : (m : Handler K Unit) → Keeps Waits m → Keeps Waits (when_idle m)
  unfolding when_idle
  idle-Keeps m k =
      bind-Keeps _ _ (gets-Keeps _) (λ ready. if-Triple ready (λ _. k) (λ _. pure-Keeps tt))

  on_error-Keeps : (b : Bool) → Keeps Waits (on_error b)
  unfolding on_error
  on_error-Keeps b =
      seq-Keeps _ _ (connection-Keeps _ (trigger_error-StaysBlocked b))
        (if-Triple b (λ _. pure-Keeps tt) (λ _. notify-Keeps _))

  error-Keeps : (m : Handler K Unit) → Keeps Waits m → Keeps Waits (or_error m)
  error-Keeps m k = catch-Triple _ _ k (λ e. on_error-Keeps false)

module _ {K : Type 0} (crypto : Crypto K) where
  forget_account-Keeps : (id : ℕ) (running : Bool) → Keeps Waits (forget_account crypto id running)
  unfolding clear_caches
  forget_account-Keeps id running = seq-Keeps _ _ (connection-Keeps _ (λ s w. w)) (
      seq-Keeps _ _ (stored-Keeps _) (
        seq-Keeps _ _ (modify-Keeps _ (λ s w. w)) (
          bind-Keeps _ _ (gets-Keeps _) (λ ready.
            if-Triple (not running) (λ _. pure-Keeps tt)
              (λ _.
                if-Triple ready (λ _. send-Keeps _)
                  (λ _. seq-Keeps _ _ (connection-Keeps _ (λ s w. w)) (submit-Keeps _)))))))

  forget_any-Keeps : (o : Option ℕ) (running : Bool) → Keeps Waits (forget_any crypto o running)
  forget_any-Keeps none running = if-Triple running (λ _. submit-Keeps _) (λ _. pure-Keeps tt)
  forget_any-Keeps (some id) running = forget_account-Keeps id running

  serve-Keeps : (q : Request) → Keeps Waits (serve crypto q)
  unfolding serve send_upload send_device_upload acknowledge_download init_key_change ask_removal
      reset
  serve-Keeps resync = idle-Keeps _ (seq-Keeps _ _ (notify-Keeps _) (send-Keeps _))
  serve-Keeps list_devices = idle-Keeps _ (send-Keeps _)
  serve-Keeps update_key =
      idle-Keeps _ (error-Keeps _ (bind-Keeps _ _ (compute-Keeps _) (λ i. send-Keeps _)))
  serve-Keeps (remove_device id) = idle-Keeps _ (
      bind-Keeps _ _ (gets-Keeps _) (λ own. if-Triple own (λ _. pure-Keeps tt) (λ _. send-Keeps _)))
  serve-Keeps (download_done key) = idle-Keeps _ (seq-Keeps _ _ (send-Keeps _) (notify-Keeps _))
  serve-Keeps (upload_data hash content) =
      idle-Keeps _ (error-Keeps _ (bind-Keeps _ _ (keys-Keeps _) (λ i. send-Keeps _)))
  serve-Keeps (upload_device_data hash device content) =
      idle-Keeps _ (error-Keeps _ (bind-Keeps _ _ (keys-Keeps _) (λ i. send-Keeps _)))
  serve-Keeps (reply_login device accepted) =
      modify-Keeps _
        (λ s w. (login_reply-Same (crypto.proofs s.keys) device accepted s.connection).blocks ∙ w)
  serve-Keeps (prepare_import with_config i) = stored-Keeps _
  serve-Keeps (reset_account clear_config running) =
      seq-Keeps _ _ (if-Triple clear_config (λ _. stored-Keeps _) (λ _. pure-Keeps tt))
        (bind-Keeps _ _ (gets-Keeps _) (λ d. forget_any-Keeps d running))

  left : (r : Result Thrown Unit × Session K) → Post (λ _. Waits) (λ _. Waits) r → Waits r.1
  left (ok a, s) p = p
  left (err e, s) p = p

  pub after_request-StaysBlocked :
      (q : Request) (s : Session K) → Waits s → Waits (after_request crypto q s)
  unfolding after_request
  after_request-StaysBlocked q s w = left (serve crypto q s) ((serve-Keeps q).at s w)
