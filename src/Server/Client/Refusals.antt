-- ===== src/Server/Client/Refusals.antt =====
-- tools/appserver/client.cpp: messages that come in the wrong state.
use qt_data_sync.Common.{
  true, false, Option, none, some, [], ◌∷◌, ◌++◌, ◌≡◌, ◌≢◌, refl, sym, ap, ◌∙◌, arith,
}
use qt_data_sync.Json.{Bytes}
use qt_data_sync.Exec.{ok, err, pure, throw, gets, modify, ◌>>=◌, ◌>>◌, catch_ok, catch_err}
use qt_data_sync.Server.Client.{
  State, authenticating, awaiting_grant, idle, error, state_beq, unexpected_message, error_reply,
  Client, Thrown, failed, Handler, Server, send, set_state, send_error, expect,
}
use qt_data_sync.Server.Client.Handlers.{
  on_register, on_login, on_access, on_sync, on_change, on_device_change, on_changed_ack,
  on_list_devices, on_remove, on_accept, on_deny, on_mac_update, on_key_change, on_new_key,
}
use qt_data_sync.Server.Client.Events.{
  Message, register, login, access, sync, change, device_change, changed_ack, list_devices, remove,
  accept, deny, mac_update, key_change, new_key, unknown, wrong_version, unreadable, Call, Task,
  queued, received, dispatch, task, run, after_event, caught, when_in,
}

-- The state that a message belongs to.
unfoldable pub needed : Message → Option State
needed (register n name crypto cmac) = some authenticating
needed (login n device name) = some authenticating
needed (access n request) = some authenticating
needed unknown = none
needed wrong_version = none
needed unreadable = none
needed _ = some idle

seq_err :
    {A B : Type 0} (m : Handler A) (k : Handler B) (s : Client) (e : Thrown)
    → m s ≡ (err e, s)
    → (m >> k) s ≡ (err e, s)
unfolding ◌>>◌ ◌>>=◌
seq_err m k s e h = rw h refl

pub other_state : (a b : State) → a ≢ b → state_beq a b ≡ false
other_state authenticating authenticating h = absurd (h refl)
other_state awaiting_grant awaiting_grant h = absurd (h refl)
other_state idle idle h = absurd (h refl)
other_state error error h = absurd (h refl)
other_state authenticating awaiting_grant h = refl
other_state authenticating idle h = refl
other_state authenticating error h = refl
other_state awaiting_grant authenticating h = refl
other_state awaiting_grant idle h = refl
other_state awaiting_grant error h = refl
other_state idle authenticating h = refl
other_state idle awaiting_grant h = refl
other_state idle error h = refl
other_state error authenticating h = refl
other_state error awaiting_grant h = refl
other_state error idle h = refl

same_state : (x y : State) → some x ≡ some y → x ≡ y
same_state x y e = cc

expect-refuses :
    (x y : State) (s : Client)
    → s.state ≢ x
    → some x ≡ some y
    → expect y s ≡ (err (failed unexpected_message true), s)
unfolding expect ◌>>=◌ gets throw
expect-refuses x y s h e =
    let o : state_beq s.state y ≡ false =
      other_state s.state y (λ q. h (q ∙ sym (same_state x y e))) in
    rw o refl

module _ (server : Server) where
  dispatch-refuses :
      (c : Call) (raw : Bytes) (m : Message) (x : State) (s : Client)
      → needed m ≡ some x
      → s.state ≢ x
      → dispatch server c raw m s ≡ (err (failed unexpected_message true), s)
  unfolding needed dispatch on_register on_login on_access on_sync on_change on_device_change
      on_changed_ack on_list_devices on_remove on_accept on_deny on_mac_update on_key_change
      on_new_key
  dispatch-refuses c raw (register n name crypto cmac) x s e h =
      seq_err _ _ s _ (expect-refuses x _ s h (sym e))
  dispatch-refuses c raw (login n device name) x s e h =
      seq_err _ _ s _ (expect-refuses x _ s h (sym e))
  dispatch-refuses c raw (access n request) x s e h =
      seq_err _ _ s _ (expect-refuses x _ s h (sym e))
  dispatch-refuses c raw sync x s e h = seq_err _ _ s _ (expect-refuses x _ s h (sym e))
  dispatch-refuses c raw (change i k t d) x s e h = seq_err _ _ s _ (expect-refuses x _ s h (sym e))
  dispatch-refuses c raw (device_change t i k u d) x s e h =
      seq_err _ _ s _ (expect-refuses x _ s h (sym e))
  dispatch-refuses c raw (changed_ack i) x s e h = seq_err _ _ s _ (expect-refuses x _ s h (sym e))
  dispatch-refuses c raw list_devices x s e h = seq_err _ _ s _ (expect-refuses x _ s h (sym e))
  dispatch-refuses c raw (remove t) x s e h = seq_err _ _ s _ (expect-refuses x _ s h (sym e))
  dispatch-refuses c raw (accept p) x s e h = seq_err _ _ s _ (expect-refuses x _ s h (sym e))
  dispatch-refuses c raw (deny p) x s e h = seq_err _ _ s _ (expect-refuses x _ s h (sym e))
  dispatch-refuses c raw (mac_update i m) x s e h = seq_err _ _ s _ (expect-refuses x _ s h (sym e))
  dispatch-refuses c raw (key_change i) x s e h = seq_err _ _ s _ (expect-refuses x _ s h (sym e))
  dispatch-refuses c raw (new_key i t m keys) x s e h =
      seq_err _ _ s _ (expect-refuses x _ s h (sym e))
  dispatch-refuses c raw unknown x s e h = absurd (ground arith)
  dispatch-refuses c raw wrong_version x s e h = absurd (ground arith)
  dispatch-refuses c raw unreadable x s e h = absurd (ground arith)

  pub passes :
      (x : State) (m k : Handler (Unit {0})) (s : Client)
      → state_beq s.state x ≡ false
      → when_in server x m k s ≡ k s
  unfolding ◌>>=◌ gets
  passes x m k s h = rw h refl

  pub after_ok :
      (c : Call) (e : Task) (s t : Client)
      → task server c e s ≡ (ok tt, t)
      → after_event server c (queued e) s ≡ t
  unfolding after_event run
  after_ok c e s t h = ap (λ p. p.1) (catch_ok (task server c e) caught s t tt h)

  pub after_err :
      (c : Call) (e : Task) (s t : Client) (x : Thrown)
      → task server c e s ≡ (err x, t)
      → after_event server c (queued e) s ≡ (caught x t).1
  unfolding after_event run
  after_err c e s t x h = ap (λ p. p.1) (catch_err (task server c e) caught s t x h)

  -- A message that does not belong to the client's state, which is not error, is answered with an
  -- error that stops the session, and changes nothing else, the tables included.
  pub received-refused :
      (c : Call) (raw : Bytes) (m : Message) (x : State) (s : Client)
      → needed m ≡ some x
      → s.state ≢ x
      → s.state ≢ error
      → after_event server c (queued (received raw m)) s
        ≡ record s { state = error; sent = s.sent ++ error_reply unexpected_message true ∷ [] }
  unfolding task send_error set_state send modify ◌>>◌ ◌>>=◌
  received-refused c raw m x s e h alive =
      after_err c (received raw m) s s (failed unexpected_message true) (
        passes error (pure tt) (dispatch server c raw m) s (other_state s.state error alive)
        ∙ dispatch-refuses c raw m x s e h)
