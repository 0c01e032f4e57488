-- ===== src/RemoteConnector/Machine.antt =====
-- The way of the state machine from a lost connection to the state Idle, and to its end.
use qt_data_sync.Common.{
  ◌≡◌, refl, ap, ◌∙◌, arith, ℕ, suc, ◌≤◌, Bool, true, false, Option, none, some, List, [], ◌∷◌,
  if◌then◌else◌,
}
use qt_data_sync.Common.Equality.{◌==◌, nat_eq}
use qt_data_sync.RemoteConnector.{
  Mode, MachineEvent, SocketState, Settings, Connection, connecting, connected, registering,
  logging_in, granting, idle, disconnected, reconnecting, retrying, basic_error, fatal_error,
  closing, final, on_connected, on_no_connect, on_reconnect, on_disconnected, on_basic_error,
  on_fatal_error, on_await_register, on_await_login, on_await_granted, on_account, is_active,
  active_target, target, closing_target, submit_event, trigger_error, process, next_event, Input,
  machine_step, socket_opened, socket_lost, socket_error, ping_timeout, retry_timeout,
  special_timeout, reconnect, disconnect_remote, finalize, handler_event, close_socket, is_final,
  connector_step, ping, socket_connected,
}
use qt_data_sync.RemoteConnector.Frame.{after, after_closing, process_lem}

-- How far the handshake has come.
abbrev pub stage : Mode → ℕ
stage connecting = 1
stage connected = 2
stage registering = 3
stage logging_in = 3
stage granting = 3
stage idle = 4
stage _ = 0

-- No step of the handshake is skipped.
active-stage : (m : Mode) (e : MachineEvent) → stage (after m (active_target e)) ≤ suc (stage m)
unfolding active_target
active-stage m on_reconnect = omega arith
active-stage m on_disconnected = omega arith
active-stage m on_basic_error = omega arith
active-stage m on_fatal_error = omega arith
active-stage m _ = omega arith

target-stage : (m : Mode) (e : MachineEvent) → stage (after m (target m e)) ≤ suc (stage m)
unfolding target
target-stage connecting on_connected = omega arith
target-stage connecting on_no_connect = omega arith
target-stage connecting e = active-stage connecting e
target-stage connected on_await_register = omega arith
target-stage connected on_await_login = omega arith
target-stage connected on_await_granted = omega arith
target-stage connected e = active-stage connected e
target-stage registering on_account = omega arith
target-stage registering e = active-stage registering e
target-stage logging_in on_account = omega arith
target-stage logging_in e = active-stage logging_in e
target-stage granting on_account = omega arith
target-stage granting e = active-stage granting e
target-stage idle e = active-stage idle e
target-stage disconnected on_reconnect = omega arith
target-stage disconnected _ = omega arith
target-stage reconnecting on_disconnected = omega arith
target-stage reconnecting _ = omega arith
target-stage retrying on_reconnect = omega arith
target-stage retrying _ = omega arith
target-stage basic_error on_disconnected = omega arith
target-stage basic_error on_reconnect = omega arith
target-stage basic_error _ = omega arith
target-stage fatal_error on_disconnected = omega arith
target-stage fatal_error on_reconnect = omega arith
target-stage fatal_error _ = omega arith
target-stage closing on_disconnected = omega arith
target-stage closing _ = omega arith
target-stage final _ = omega arith

closing-stage : (closes : Bool) (m : Mode) → stage (after_closing closes m) ≤ stage m
unfolding closing_target
closing-stage false m = omega arith
closing-stage true disconnected = omega arith
closing-stage true retrying = omega arith
closing-stage true _ = omega arith

module _ (settings : Settings) where
  process-stage :
      (e : MachineEvent) (s : Connection) → stage (process settings e s).mode ≤ suc (stage s.mode)
  process-stage e s =
      let c = closing-stage s.is_closing (after s.mode (target s.mode e)) in
      let t = target-stage s.mode e in rw ((process_lem settings e s).mode) (omega arith)

  next-stage :
      (es : List MachineEvent) (s : Connection)
      → stage (next_event settings es s).mode ≤ suc (stage s.mode)
  next-stage [] s = omega arith
  next-stage (e ∷ es) s = process-stage e (record s { events = es })

  stays : (m n : Mode) → n ≡ m → stage n ≤ suc (stage m)
  stays m n h = rw h (omega arith)

  if-stage :
      (b : Bool) (m : Mode) (t u : Connection)
      → t.mode ≡ m
      → u.mode ≡ m
      → stage (if b then t else u).mode ≤ suc (stage m)
  if-stage true m t u h k = stays m t.mode h
  if-stage false m t u h k = stays m u.mode k

  close_socket-mode : (o : Option SocketState) (s : Connection) → (close_socket o s).mode ≡ s.mode
  close_socket-mode none s = refl
  close_socket-mode (some socket_connected) s = refl
  close_socket-mode (some _) s = refl

  -- Whatever happens, a step of the connector takes the handshake at most one stage further: from no
  -- connection over Connecting, Connected, and the wait for the account, to Idle.
  pub connector_step-stage :
      (i : Input) (s : Connection) → stage (connector_step settings i s).mode ≤ suc (stage s.mode)
  unfolding connector_step submit_event trigger_error ping
  connector_step-stage machine_step s = next-stage s.events s
  connector_step-stage socket_opened s = stays s.mode s.mode refl
  connector_step-stage socket_lost s = stays s.mode s.mode refl
  connector_step-stage socket_error s =
      stays s.mode (close_socket s.socket s).mode (close_socket-mode s.socket s)
  connector_step-stage ping_timeout s = if-stage s.awaiting_ping s.mode _ _ refl refl
  connector_step-stage retry_timeout s = if-stage (s.retry_index == 0) s.mode _ _ refl refl
  connector_step-stage special_timeout s = stays s.mode s.mode refl
  connector_step-stage reconnect s = stays s.mode s.mode refl
  connector_step-stage disconnect_remote s = stays s.mode s.mode refl
  connector_step-stage finalize s = if-stage (is_final s.mode) s.mode _ _ refl refl
  connector_step-stage (handler_event e) s = stays s.mode s.mode refl

  twice : Mode → Mode
  twice m = after_closing true (after m (target m on_disconnected))

  finishes : (m : Mode) → twice (twice m) ≡ final
  unfolding twice target active_target closing_target
  finishes connecting = refl
  finishes _ = refl

  ends :
      (e : MachineEvent) (s : Connection)
      → s.is_closing ≡ true
      → (process settings e s).mode ≡ after_closing true (after s.mode (target s.mode e))
  ends e s h =
      (process_lem settings e s).mode ∙ ap (λ b. after_closing b (after s.mode (target s.mode e))) h

  -- When the connector is to close, whatever its state is, two reports that the connection is lost
  -- take the state machine to its end.
  pub process-Finishes :
      (s : Connection)
      → s.is_closing ≡ true
      → (process settings on_disconnected (process settings on_disconnected s)).mode ≡ final
  unfolding twice
  process-Finishes s h =
      ends on_disconnected (process settings on_disconnected s)
        ((process_lem settings on_disconnected s).closes ∙ h)
      ∙ ap twice (ends on_disconnected s h)
      ∙ finishes s.mode

  inactive : (m : Mode) → is_active (after_closing true m) ≡ false
  unfolding closing_target
  inactive connecting = refl
  inactive _ = refl

  -- When it is to close, no event makes or leaves it active.
  pub process-Inactive :
      (e : MachineEvent) (s : Connection)
      → s.is_closing ≡ true
      → is_active (process settings e s).mode ≡ false
  process-Inactive e s h = ap is_active (ends e s h) ∙ inactive (after s.mode (target s.mode e))
