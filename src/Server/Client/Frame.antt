-- ===== src/Server/Client/Frame.antt =====
-- tools/appserver/client.cpp: the handlers and a property that depends on the running downloads alone.
use qt_data_sync.Common.{ℕ, refl, Bool, true, false, String, Option, none, some, List, [], ◌∷◌}
use qt_data_sync.Common.Equality.{◌==◌, bytes_eq, nat_eq}
use qt_data_sync.Json.{Bytes}
use qt_data_sync.Exec.{modify}
use qt_data_sync.Exec.Triple.{
  catch-Triple, Keeps, pure-Keeps, throw-Keeps, gets-Keeps, bind-Keeps, seq-Keeps, keeps_rules,
}
use qt_data_sync.Server.Database.{Crypto}
use qt_data_sync.Server.Client.{
  Client, Handler, Server, State, Access, state_beq, Thrown, idle, error, awaiting_grant,
  database_failed, other_failure, failed,
}
use qt_data_sync.Server.Client.Downloads.{trigger_download}
use qt_data_sync.Server.Client.Handlers.{
  verify_own, verify_known, verify_stored, read_keys, on_register, on_login, on_access, on_sync,
  on_change, on_device_change, on_changed_ack, on_list_devices, on_remove, on_accept, on_deny,
  on_mac_update, on_key_change, on_new_key, answer, remove_one,
}
use qt_data_sync.Server.Client.Events.{
  Message, Call, Task, queued, Event, register, login, access, sync, change, device_change,
  changed_ack, list_devices, remove, accept, deny, mac_update, key_change, new_key, unknown,
  wrong_version, unreadable, received, received_ping, notify_changed, proof_result, send_proof,
  accept_done, socket_error, timeout, dispatch, task, run, after_event, session, caught, when_in,
  granted,
}
use qt_data_sync.Server.Client.Calls.{
  OfDownloads, left, if-Keeps, query-Keeps, update-Keeps, call-Keeps, send-Keeps, emit-Keeps,
  set_state-Keeps, send_error-Keeps, expect-Keeps, answer-Keeps, modify-Same, use_nonce-Keeps,
  answer_key-Keeps, answer_offer-Keeps,
}

module _ {P : Client → Type 0} (h : OfDownloads P) where
  module _ (server : Server) where
    read_keys-Keeps : (o : Option Bytes) → Keeps P (read_keys server o)
    read_keys-Keeps none = throw-Keeps _
    read_keys-Keeps (some x) = pure-Keeps x

    verify_own-Keeps : (crypto : Crypto) (raw : Bytes) → Keeps P (verify_own server crypto raw)
    unfolding verify_own
    verify_own-Keeps crypto raw =
        bind-Keeps _ _ (read_keys-Keeps (server.fingerprint_of crypto)) (λ x.
          seq-Keeps _ _ (if-Keeps (server.verify crypto raw) (pure-Keeps tt) (throw-Keeps _))
            (pure-Keeps x))

    verify_known-Keeps : (o : Option Crypto) (raw : Bytes) → Keeps P (verify_known server o raw)
    verify_known-Keeps none raw = throw-Keeps _
    verify_known-Keeps (some crypto) raw = verify_own-Keeps crypto raw

    verify_stored-Keeps : (d : ℕ) (raw : Bytes) → Keeps P (verify_stored server d raw)
    unfolding verify_stored
    verify_stored-Keeps d raw = bind-Keeps _ _ (query-Keeps h _) (λ o. verify_known-Keeps o raw)

    module _ (triggers : (update skip : Bool) → Keeps P (trigger_download server update skip))
        (removes : (id : ℕ)
          → Keeps {E = Thrown} P
              (modify (λ s. record s { active = remove_one server id s.active }))) where
      on_register-Keeps :
          (fresh today : ℕ) (raw n : Bytes) (name : String) (crypto : Crypto) (cmac : Bytes)
          → Keeps P (on_register server fresh today raw n name crypto cmac)
      unfolding on_register
      on_register-Keeps fresh today raw n name crypto cmac =
          search
            (
              keeps_rules,
              call-Keeps h,
              send-Keeps h,
              emit-Keeps h,
              set_state-Keeps h,
              expect-Keeps h,
              use_nonce-Keeps h,
              verify_own-Keeps,
              modify-Same h,
            )
            depth 24

      on_login-Keeps :
          (today : ℕ) (raw n : Bytes) (d : ℕ) (name : String)
          → Keeps P (on_login server today raw n d name)
      unfolding on_login
      on_login-Keeps today raw n d name =
          search
            (
              keeps_rules,
              query-Keeps h,
              update-Keeps h,
              send-Keeps h,
              emit-Keeps h,
              set_state-Keeps h,
              expect-Keeps h,
              use_nonce-Keeps h,
              verify_stored-Keeps,
              modify-Same h,
              triggers,
            )
            depth 24

      on_access-Keeps :
          (fresh : ℕ) (raw n : Bytes) (request : Access)
          → Keeps P (on_access server fresh raw n request)
      unfolding on_access
      on_access-Keeps fresh raw n request =
          search
            (
              keeps_rules,
              emit-Keeps h,
              set_state-Keeps h,
              expect-Keeps h,
              use_nonce-Keeps h,
              verify_own-Keeps,
              modify-Same h,
            )
            depth 24

      on_sync-Keeps : Keeps P (on_sync server)
      unfolding on_sync
      on_sync-Keeps = search (keeps_rules, expect-Keeps h, triggers)

      on_change-Keeps : (i : Bytes) (k : ℕ) (s p : Bytes) → Keeps P (on_change server i k s p)
      unfolding on_change
      on_change-Keeps i k s p = search (keeps_rules, call-Keeps h, expect-Keeps h, answer-Keeps h)

      on_device_change-Keeps :
          (t : ℕ) (i : Bytes) (k : ℕ) (s p : Bytes) → Keeps P (on_device_change server t i k s p)
      unfolding on_device_change
      on_device_change-Keeps t i k s p =
          search (keeps_rules, call-Keeps h, expect-Keeps h, answer-Keeps h)

      on_changed_ack-Keeps : (i : ℕ) → Keeps P (on_changed_ack server i)
      unfolding on_changed_ack
      on_changed_ack-Keeps i =
          search (keeps_rules, update-Keeps h, expect-Keeps h, modify-Same h, triggers, removes)

      on_list_devices-Keeps : Keeps P (on_list_devices server)
      unfolding on_list_devices
      on_list_devices-Keeps = search (keeps_rules, query-Keeps h, send-Keeps h, expect-Keeps h)

      on_remove-Keeps : (t : ℕ) → Keeps P (on_remove server t)
      unfolding on_remove
      on_remove-Keeps t =
          search
            (
              keeps_rules,
              update-Keeps h,
              send-Keeps h,
              emit-Keeps h,
              set_state-Keeps h,
              expect-Keeps h,
              if-Keeps,
            )
            depth 24

      on_accept-Keeps : (raw : Bytes) (p : ℕ) → Keeps P (on_accept server raw p)
      unfolding on_accept
      on_accept-Keeps raw p =
          search (keeps_rules, emit-Keeps h, expect-Keeps h, verify_stored-Keeps)

      on_deny-Keeps : (p : ℕ) → Keeps P (on_deny server p)
      unfolding on_deny
      on_deny-Keeps p = search (keeps_rules, emit-Keeps h, expect-Keeps h)

      on_mac_update-Keeps : (i : ℕ) (m : Bytes) → Keeps P (on_mac_update server i m)
      unfolding on_mac_update
      on_mac_update-Keeps i m = search (keeps_rules, call-Keeps h, expect-Keeps h, answer-Keeps h)

      on_key_change-Keeps : (i : ℕ) → Keeps P (on_key_change server i)
      unfolding on_key_change
      on_key_change-Keeps i =
          search (keeps_rules, query-Keeps h, expect-Keeps h, answer_offer-Keeps h)

      on_new_key-Keeps :
          (raw : Bytes) (i : ℕ) (s m : Bytes) (keys : List (ℕ × Bytes × Bytes))
          → Keeps P (on_new_key server raw i s m keys)
      unfolding on_new_key
      on_new_key-Keeps raw i s m keys =
          search
            (keeps_rules, call-Keeps h, expect-Keeps h, verify_stored-Keeps, answer_key-Keeps h)

      dispatch-Keeps : (c : Call) (raw : Bytes) (m : Message) → Keeps P (dispatch server c raw m)
      unfolding dispatch
      dispatch-Keeps c raw (register n name crypto cmac) =
          on_register-Keeps c.fresh c.today raw n name crypto cmac
      dispatch-Keeps c raw (login n device name) = on_login-Keeps c.today raw n device name
      dispatch-Keeps c raw (access n request) = on_access-Keeps c.fresh raw n request
      dispatch-Keeps c raw sync = on_sync-Keeps
      dispatch-Keeps c raw (change i k s d) = on_change-Keeps i k s d
      dispatch-Keeps c raw (device_change t i k s d) = on_device_change-Keeps t i k s d
      dispatch-Keeps c raw (changed_ack i) = on_changed_ack-Keeps i
      dispatch-Keeps c raw list_devices = on_list_devices-Keeps
      dispatch-Keeps c raw (remove t) = on_remove-Keeps t
      dispatch-Keeps c raw (accept p) = on_accept-Keeps raw p
      dispatch-Keeps c raw (deny p) = on_deny-Keeps p
      dispatch-Keeps c raw (mac_update i m) = on_mac_update-Keeps i m
      dispatch-Keeps c raw (key_change i) = on_key_change-Keeps i
      dispatch-Keeps c raw (new_key i s m keys) = on_new_key-Keeps raw i s m keys
      dispatch-Keeps c raw unknown = send_error-Keeps h _ false
      dispatch-Keeps c raw wrong_version = send_error-Keeps h _ false
      dispatch-Keeps c raw unreadable = throw-Keeps _

      when_in-Keeps :
          (x : State) (m k : Handler (Unit {0}))
          → Keeps P m
          → Keeps P k
          → Keeps P (when_in server x m k)
      when_in-Keeps x m k hm hk =
          bind-Keeps _ _ (gets-Keeps _) (λ now. if-Keeps (state_beq now x) hm hk)

      granted-Keeps : (today : ℕ) (o : Option ℕ) → Keeps P (granted server today o)
      granted-Keeps today none = send_error-Keeps h _ false
      granted-Keeps today (some named) = bind-Keeps _ _ (gets-Keeps _) (λ s.
          if-Keeps (named == s.device)
            (seq-Keeps _ _ (call-Keeps h _) (
              seq-Keeps _ _ (modify-Same h _ (λ t. refl)) (
                seq-Keeps _ _ (send-Keeps h _)
                  (seq-Keeps _ _ (set_state-Keeps h _) (emit-Keeps h _)))))
            (pure-Keeps tt))

      task-Keeps : (c : Call) (e : Task) → Keeps P (task server c e)
      unfolding task
      task-Keeps c (received raw m) =
          when_in-Keeps error _ _ (pure-Keeps tt) (dispatch-Keeps c raw m)
      task-Keeps c notify_changed = when_in-Keeps idle _ _ (triggers false false) (pure-Keeps tt)
      task-Keeps c (proof_result answer) =
          when_in-Keeps awaiting_grant _ _ (granted-Keeps c.today answer) (pure-Keeps tt)
      task-Keeps c (send_proof d) = when_in-Keeps idle _ _ (send-Keeps h _) (emit-Keeps h _)
      task-Keeps c (accept_done d) = when_in-Keeps idle _ _ (send-Keeps h _) (pure-Keeps tt)

      caught-Keeps : (x : Thrown) → Keeps P (caught x)
      caught-Keeps database_failed = send_error-Keeps h _ true
      caught-Keeps other_failure = send_error-Keeps h _ false
      caught-Keeps (failed e r) = send_error-Keeps h e r

      run-Keeps : (c : Call) (e : Task) → Keeps P (run server c e)
      unfolding run
      run-Keeps c e = catch-Triple (task server c e) caught (task-Keeps c e) caught-Keeps

      pub after_event-Keeps :
          (c : Call) (e : Event) (s : Client) → P s → P (after_event server c e s)
      unfolding after_event
      after_event-Keeps c (queued e) s p = left P (run server c e s) ((run-Keeps c e).at s p)
      after_event-Keeps c received_ping s p = h.carries s _ refl p
      after_event-Keeps c socket_error s p = h.carries s _ refl p
      after_event-Keeps c timeout s p = h.carries s _ refl p

      pub session-Keeps : (es : List (Call × Event)) (s : Client) → P s → P (session server es s)
      unfolding session
      session-Keeps [] s p = p
      session-Keeps ((c, e) ∷ rest) s p = session-Keeps rest _ (after_event-Keeps c e s p)
