-- ===== src/RemoteConnector/Frame.antt =====
-- The state of the machine after an event, in terms of the transitions.
use qt_data_sync.Common.{
  ◌≡◌, refl, ap, ◌∙◌, ℕ, Bool, true, false, not, Option, none, some, ◌&&◌, if◌then◌else◌,
}
use qt_data_sync.Common.Equality.{nat_eq}
use qt_data_sync.RemoteConnector.{
  Mode, MachineEvent, SocketState, Settings, Connection, connecting, connected, registering,
  logging_in, granting, idle, disconnected, reconnecting, retrying, basic_error, fatal_error,
  closing, final, on_connected, on_no_connect, on_reconnect, on_disconnected, on_basic_error,
  on_fatal_error, on_await_register, on_await_login, on_await_granted, on_account, on_close,
  on_do_disconnect, is_active, target, closing_target, emit, submit_event, trigger_error, retry,
  clear_caches, same_device, load_identity, check_can_sync, open_if, do_connect, disconnect_socket,
  do_disconnect, init_key_update, update_key, remote_connecting, on_entry_idle_state,
  on_exit_active_state, enter, leave, is_reconnecting, change_mode, follow, close_if,
  external_action, process, unconnected, host_lookup, socket_connecting, socket_connected,
  socket_closing,
}

-- The state after the transitions with and without an event.
abbrev pub after : Mode → Option Mode → Mode
after m none = m
after m (some n) = n

abbrev pub after_closing : Bool → Mode → Mode
after_closing closes m = if closes then after m (closing_target m) else m

-- What changes neither the state of the machine nor its wish to close, and lets no message through.
record Same (s t : Connection) : Type 0 where
  mode : t.mode ≡ s.mode
  closes : t.is_closing ≡ s.is_closing
  blocks : s.blocked ≡ true → t.blocked ≡ true

same : (s : Connection) → Same s s
same s = record { mode = refl; closes = refl; blocks = λ h. h }

same-trans : {s u : Connection} (t : Connection) → Same s t → Same t u → Same s u
same-trans t a b = record {
  mode = b.mode ∙ a.mode;
  closes = b.closes ∙ a.closes;
  blocks = λ h. b.blocks (a.blocks h);
}

if-Same :
    (b : Bool) {s : Connection} (t u : Connection)
    → Same s t
    → Same s u
    → Same s (if b then t else u)
if-Same true t u h k = h
if-Same false t u h k = k

submit-Same : (e : MachineEvent) (s : Connection) → Same s (submit_event e s)
unfolding submit_event
submit-Same e s = record { mode = refl; closes = refl; blocks = λ h. refl }

trigger_error-Same : (b : Bool) (s : Connection) → Same s (trigger_error b s)
unfolding trigger_error
trigger_error-Same true s = submit-Same _ s
trigger_error-Same false s = submit-Same _ s

second-Same :
    (b : Bool) {s : Connection} (p q : Bool × Connection)
    → Same s p.1
    → Same s q.1
    → Same s (if b then p else q).1
second-Same true p q h k = h
second-Same false p q h k = k

retry-Same : (s : Connection) → Same s (retry s)
unfolding retry
retry-Same s =
    if-Same _ _ _ (record { mode = refl; closes = refl; blocks = λ h. h })
      (record { mode = refl; closes = refl; blocks = λ h. h })

module _ (settings : Settings) where
  load_identity-Same : (s : Connection) → Same s (load_identity settings s).1
  unfolding load_identity
  load_identity-Same s =
      second-Same (same_device settings settings.stored_device s.device) _ _ (same s) (
        second-Same settings.keys_load _ _ (record { mode = refl; closes = refl; blocks = λ h. h })
          (record { mode = refl; closes = refl; blocks = λ h. h }))

  check_can_sync-Same : (s : Connection) → Same s (check_can_sync settings s).1
  unfolding check_can_sync
  check_can_sync-Same s = second-Same s.is_closing _ _ (same s) (load_identity-Same s)

  open_if-Same : (b : Bool) (s : Connection) → Same s (open_if settings (b, s))
  open_if-Same true s = record { mode = refl; closes = refl; blocks = λ h. h }
  open_if-Same false s = submit-Same _ s

  do_connect-Same : (s : Connection) → Same s (do_connect settings s)
  unfolding do_connect
  do_connect-Same s =
      same-trans (check_can_sync settings (emit remote_connecting s)).1
        (same-trans (emit remote_connecting s)
          (record { mode = refl; closes = refl; blocks = λ h. h })
          (check_can_sync-Same (emit remote_connecting s)))
        (open_if-Same (check_can_sync settings (emit remote_connecting s)).0
          (check_can_sync settings (emit remote_connecting s)).1)

  disconnect_socket-Same :
      (o : Option SocketState) (s : Connection) → Same s (disconnect_socket settings o s)
  unfolding submit_event
  disconnect_socket-Same none s = record { mode = refl; closes = refl; blocks = λ h. refl }
  disconnect_socket-Same (some unconnected) s = record {
    mode = refl;
    closes = refl;
    blocks = λ h. refl;
  }
  disconnect_socket-Same (some host_lookup) s = record {
    mode = refl;
    closes = refl;
    blocks = λ h. refl;
  }
  disconnect_socket-Same (some socket_connecting) s = record {
    mode = refl;
    closes = refl;
    blocks = λ h. refl;
  }
  disconnect_socket-Same (some socket_connected) s = record {
    mode = refl;
    closes = refl;
    blocks = λ h. h;
  }
  disconnect_socket-Same (some socket_closing) s = same s

  update_key-Same : (o : Option ℕ) (s : Connection) → Same s (init_key_update settings o s)
  unfolding trigger_error submit_event
  update_key-Same none s = record { mode = refl; closes = refl; blocks = λ h. refl }
  update_key-Same (some i) s = record { mode = refl; closes = refl; blocks = λ h. h }

  idle-Same : (s : Connection) → Same s (on_entry_idle_state settings s)
  unfolding on_entry_idle_state
  idle-Same s =
      same-trans (update_key settings (record s { retry_index = 0 }))
        (same-trans (record s { retry_index = 0 })
          (record { mode = refl; closes = refl; blocks = λ h. h })
          (if-Same settings.has_key_update _ _ (update_key-Same settings.key_index _) (same _)))
        (if-Same _ _ _ (record { mode = refl; closes = refl; blocks = λ h. h })
          (record { mode = refl; closes = refl; blocks = λ h. h }))

  enter-Same : (m : Mode) (s : Connection) → Same s (enter settings m s)
  unfolding enter
  enter-Same connecting s = do_connect-Same s
  enter-Same retrying s = retry-Same s
  enter-Same idle s = idle-Same s
  enter-Same basic_error s = record { mode = refl; closes = refl; blocks = λ h. h }
  enter-Same fatal_error s = record { mode = refl; closes = refl; blocks = λ h. h }
  enter-Same closing s = record { mode = refl; closes = refl; blocks = λ h. h }
  enter-Same connected s = same s
  enter-Same registering s = same s
  enter-Same logging_in s = same s
  enter-Same granting s = same s
  enter-Same disconnected s = same s
  enter-Same reconnecting s = same s
  enter-Same final s = same s

  external-Same : (e : MachineEvent) (s : Connection) → Same s (external_action settings e s)
  unfolding do_disconnect
  external-Same on_do_disconnect s = disconnect_socket-Same s.socket s
  external-Same on_connected s = same s
  external-Same on_no_connect s = same s
  external-Same on_reconnect s = same s
  external-Same on_disconnected s = same s
  external-Same on_basic_error s = same s
  external-Same on_fatal_error s = same s
  external-Same on_await_register s = same s
  external-Same on_await_login s = same s
  external-Same on_await_granted s = same s
  external-Same on_account s = same s
  external-Same on_close s = same s

  leave-Same : (m : Mode) (s : Connection) → Same s (leave settings m s)
  unfolding on_exit_active_state clear_caches
  leave-Same m s =
      let t =
        if-Same (is_active s.mode && not (is_active m)) _ _
          (record { mode = refl; closes = refl; blocks = λ h. h }) (same s) in
      if-Same (is_active s.mode && is_reconnecting settings m) _ _
        (same-trans _ t (record { mode = refl; closes = refl; blocks = λ h. h })) t

  -- A transition ends in its target and leaves the wish to close.
  pub record Arrives (m : Mode) (s t : Connection) : Type 0 where
    pub mode : t.mode ≡ m
    pub closes : t.is_closing ≡ s.is_closing
    pub blocks : s.blocked ≡ true → t.blocked ≡ true

  change_mode_lem : (m : Mode) (s : Connection) → Arrives m s (change_mode settings m s)
  unfolding change_mode
  change_mode_lem m s =
      let e = enter-Same m (record (leave settings m s) { mode = m }) in
      record {
        mode = e.mode;
        closes = e.closes ∙ (leave-Same m s).closes;
        blocks = λ h. e.blocks ((leave-Same m s).blocks h);
      }

  follow_lem : (o : Option Mode) (s : Connection) → Arrives (after s.mode o) s (follow settings o s)
  follow_lem none s = record { mode = refl; closes = refl; blocks = λ h. h }
  follow_lem (some m) s = change_mode_lem m s

  close_if_lem :
      (s : Connection) → Arrives (after_closing s.is_closing s.mode) s (close_if settings s)
  unfolding close_if
  close_if_lem s = closed s.is_closing
    where
      closed :
          (b : Bool)
          → Arrives
              (after_closing b s.mode)
              s
              (if b then follow settings (closing_target s.mode) s else s)
      closed true = follow_lem (closing_target s.mode) s
      closed false = record { mode = refl; closes = refl; blocks = λ h. h }

  -- The machine's state after an event depends on its state, the event and isClosing alone.
  pub process_lem :
      (e : MachineEvent) (s : Connection)
      → Arrives
          (after_closing s.is_closing (after s.mode (target s.mode e)))
          s
          (process settings e s)
  unfolding process
  process_lem e s =
      let x = external-Same e s in
      let f = follow_lem (target s.mode e) (external_action settings e s) in
      let c = close_if_lem (follow settings (target s.mode e) (external_action settings e s)) in
      record {
        mode =
            c.mode
            ∙ ap
                (λ b.
                  after_closing b
                    (follow settings (target s.mode e) (external_action settings e s)).mode)
                (f.closes ∙ x.closes)
            ∙ ap (after_closing s.is_closing) (f.mode ∙ ap (λ m. after m (target s.mode e)) x.mode);
        closes = c.closes ∙ f.closes ∙ x.closes;
        blocks = λ h. c.blocks (f.blocks (x.blocks h));
      }
