-- ===== src/Server/Client/Login.antt =====
-- tools/appserver/client.cpp: how a client that is authenticating becomes idle.
use qt_data_sync.Common.{ℕ, true, String, Option, none, some, ◌≡◌, ◌≢◌, refl, sym, ap, ◌∙◌}
use qt_data_sync.Common.Equality.{◌==◌, bytes_eq, ==_iff}
use qt_data_sync.Json.{Bytes}
use qt_data_sync.Exec.{Result, ok, err, pure, throw, modify, ◌>>=◌, ◌>>◌}
use qt_data_sync.Exec.Triple.{
  Triple, Post, known-Triple, seq-Triple, bind-Triple, pure-Triple, throw-Triple, gets-Triple,
  modify-Triple, weaken-Triple, if-Triple, given-Triple, fact-Triple,
}
use qt_data_sync.Server.Database.{Crypto, Db}
use qt_data_sync.Server.Database.Methods.{load_crypto}
use qt_data_sync.Server.Client.{
  State, authenticating, awaiting_grant, idle, error, state_beq, Access, Client, Thrown, failed,
  database_failed, other_failure, Handler, Server, expect, reach_database, query, set_state, emit,
  send, send_error,
}
use qt_data_sync.Server.Client.Handlers.{
  use_nonce, verify_own, verify_known, verify_stored, on_register, on_login, on_access,
}
use qt_data_sync.Server.Client.Events.{
  Message, register, login, access, sync, change, device_change, changed_ack, list_devices, remove,
  accept, deny, mac_update, key_change, new_key, unknown, wrong_version, unreadable, Call, Task,
  queued, Event, received, received_ping, notify_changed, proof_result, send_proof, accept_done,
  socket_error, timeout, dispatch, task, after_event, caught, when_in, run,
}
use qt_data_sync.Server.Client.Refusals.{
  passes, other_state, after_ok, after_err, received-refused, needed,
}

module _ (server : Server) (nonce : Bytes) (db : Db) where
  -- What was checked of a message that logs in, at a client with this nonce.
  abbrev pub Signed : Bytes → Message → Type 0
  Signed raw (register n name crypto cmac) = (n ≡ nonce) × (server.verify crypto raw ≡ true)
  Signed raw (login n device name) =
      (n ≡ nonce)
      × ((crypto : Crypto) × (load_crypto device db ≡ some crypto)
          × (server.verify crypto raw ≡ true))
  Signed raw _ = ⊥

  abbrev Begin : Client → Type 0
  Begin s = (s.nonce ≡ nonce) × (s.db ≡ db)

  -- The state does not matter where a method throws.
  abbrev Any : Thrown → Client → Type 0
  Any e s = Unit

  expect-Begin : (x : State) → Triple Begin (expect x) (λ _. Begin) Any
  unfolding expect
  expect-Begin x = bind-Triple _ _ (gets-Triple _ {Q = λ _. Begin} (λ s p. p)) (λ now.
      if-Triple (state_beq now x) (λ _. pure-Triple tt (λ s p. p))
        (λ _. throw-Triple _ (λ s p. tt)))

  use_nonce-Begin : (n : Bytes) → Triple Begin (use_nonce n) (λ _ s. (n ≡ nonce) × (s.db ≡ db)) Any
  unfolding use_nonce
  use_nonce-Begin n =
      bind-Triple _ _ (gets-Triple _ {Q = λ sent s. (sent ≡ nonce) × (s.db ≡ db)} (λ s p. p))
        (λ sent.
          if-Triple (sent == n)
            (λ e. modify-Triple _ (λ s p. (sym ((==_iff sent n).0 e) ∙ p.0, p.1)))
            (λ _. throw-Triple _ (λ s p. tt)))

  anything : {A : Type 0} {P : Client → Type 0} (m : Handler A) → Triple P m (λ _ _. Unit) Any
  anything m = known-Triple tt

  verify_own-Checks :
      (crypto : Crypto) (raw : Bytes) (P : Client → Type 0)
      → Triple P (verify_own server crypto raw) (λ _ _. server.verify crypto raw ≡ true) Any
  unfolding verify_own
  verify_own-Checks crypto raw P = bind-Triple _ _ (anything _) (λ x.
      seq-Triple
        (if-Triple (server.verify crypto raw) (λ v. pure-Triple tt (λ s p. v))
          (λ _. throw-Triple _ (λ s p. tt)))
        (pure-Triple x (λ s v. v)))

  reach-Same : Triple (λ s. s.db ≡ db) reach_database (λ _ s. s.db ≡ db) Any
  unfolding reach_database
  reach-Same = bind-Triple _ _ (gets-Triple _ {Q = λ _ s. s.db ≡ db} (λ s p. p)) (λ reached.
      seq-Triple (modify-Triple _ {Q = λ _ s. s.db ≡ db} (λ s p. p))
        (if-Triple reached (λ _. pure-Triple tt (λ s p. p)) (λ _. throw-Triple _ (λ s p. tt))))

  query-Reads : {A : Type 0} (f : Db → A) → Triple (λ s. s.db ≡ db) (query f) (λ a _. f db ≡ a) Any
  unfolding query
  query-Reads f = seq-Triple reach-Same (gets-Triple _ (λ s p. ap f (sym p)))

  abbrev Verified : ℕ → Bytes → Type 0
  Verified device raw =
      (crypto : Crypto) × (load_crypto device db ≡ some crypto) × (server.verify crypto raw ≡ true)

  verify_known-Checks :
      (device : ℕ) (raw : Bytes) (o : Option Crypto)
      → Triple
          (λ _. load_crypto device db ≡ o)
          (verify_known server o raw)
          (λ _ _. Verified device raw)
          Any
  verify_known-Checks device raw none = throw-Triple _ (λ s p. tt)
  verify_known-Checks device raw (some crypto) =
      given-Triple {P = λ _. Unit}
        (λ e.
          weaken-Triple (λ s p. p) (λ a s v. (crypto, e, v))
            (verify_own-Checks crypto raw (λ _. Unit)))
        (λ s e. tt)

  verify_stored-Checks :
      (device : ℕ) (raw : Bytes)
      → Triple (λ s. s.db ≡ db) (verify_stored server device raw) (λ _ _. Verified device raw) Any
  unfolding verify_stored
  verify_stored-Checks device raw =
      bind-Triple _ _ (query-Reads (load_crypto device)) (verify_known-Checks device raw)

  on_register-Signed :
      (fresh today : ℕ) (raw n : Bytes) (name : String) (crypto : Crypto) (cmac : Bytes)
      → Triple Begin
          (on_register server fresh today raw n name crypto cmac)
          (λ _ _. Signed raw (register n name crypto cmac))
          Any
  unfolding on_register
  on_register-Signed fresh today raw n name crypto cmac = seq-Triple (expect-Begin authenticating) (
      seq-Triple (use_nonce-Begin n) (
        fact-Triple (λ e.
          bind-Triple _ _ (verify_own-Checks crypto raw _)
            (λ x. given-Triple {P = λ _. Unit} (λ v. known-Triple (e, v)) (λ s v. tt)))))

  on_login-Signed :
      (today : ℕ) (raw n : Bytes) (device : ℕ) (name : String)
      → Triple Begin
          (on_login server today raw n device name)
          (λ _ _. Signed raw (login n device name))
          Any
  unfolding on_login ◌>>◌ ◌>>=◌
  on_login-Signed today raw n device name = seq-Triple (expect-Begin authenticating) (
      seq-Triple (use_nonce-Begin n) (
        fact-Triple (λ e.
          bind-Triple _ _ (verify_stored-Checks device raw)
            (λ x. given-Triple {P = λ _. Unit} (λ v. known-Triple (e, v)) (λ s v. tt)))))

  -- An access request leaves the client waiting.
  on_access-Waits :
      (fresh : ℕ) (raw n : Bytes) (request : Access)
      → Triple Begin (on_access server fresh raw n request) (λ _ s. s.state ≡ awaiting_grant) Any
  unfolding on_access set_state emit
  on_access-Waits fresh raw n request = seq-Triple (anything _) (
      seq-Triple (anything _) (
        bind-Triple _ _ (anything _) (λ x. seq-Triple (anything _) (
          seq-Triple (modify-Triple _ {Q = λ _ s. s.state ≡ awaiting_grant} (λ s p. refl))
            (modify-Triple _ (λ s p. p))))))

abbrev pub SignedIn : Server → Client → Event → Type 0
SignedIn server s (queued (received raw m)) = Signed server s.nonce s.db raw m
SignedIn server s _ = ⊥

module _ (server : Server) (c : Call) (s : Client) where
  idle_ne_error : idle ≢ error
  idle_ne_error e = cc

  caught_state : (x : Thrown) (t : Client) → (caught x t).1.state ≡ error
  unfolding send_error set_state send modify ◌>>◌ ◌>>=◌
  caught_state database_failed t = refl
  caught_state other_failure t = refl
  caught_state (failed e r) t = refl

  -- If a task ends in the idle state, it returned.
  ended :
      (e : Task) (r : Result Thrown (Unit {0}) × Client) (Q : Client → Type 0)
      → task server c e s ≡ r
      → Post (λ _. Q) (λ _ _. Unit {0}) r
      → (after_event server c (queued e) s).state ≡ idle
      → (t : Client) × Q t × (t.state ≡ idle)
  ended e (ok a, t) Q run p i = (t, p, sym (ap (λ x. x.state) (after_ok server c e s t run)) ∙ i)
  ended e (err x, t) Q run p i = absurd (
      idle_ne_error (sym i ∙ ap (λ x. x.state) (after_err server c e s t x run) ∙ caught_state x t))

  module _ (h : s.state ≡ authenticating) where
    alive : s.state ≢ error
    alive e = elim_state (sym h ∙ e)
      where
        elim_state : authenticating ≢ error
        elim_state q = cc

    handled :
        (raw : Bytes) (m : Message) → task server c (received raw m) s ≡ dispatch server c raw m s
    unfolding task
    handled raw m =
        passes server error (pure tt) (dispatch server c raw m) s (other_state s.state error alive)

    -- What the handler establishes when it returns.
    reached :
        (raw : Bytes) (m : Message) (Q : Client → Type 0)
        → Triple (Begin server s.nonce s.db) (dispatch server c raw m) (λ _. Q) (λ _ _. Unit {0})
        → (after_event server c (queued (received raw m)) s).state ≡ idle
        → (t : Client) × Q t × (t.state ≡ idle)
    reached raw m Q t i =
        ended (received raw m) (dispatch server c raw m s) Q (handled raw m) (t.at s (refl, refl)) i

    refused :
        (raw : Bytes) (m : Message)
        → needed m ≡ some idle
        → (after_event server c (queued (received raw m)) s).state ≡ idle
        → ⊥
    refused raw m n i = idle_ne_error (
        sym i
        ∙ ap (λ x. x.state) (received-refused server c raw m idle s n (λ e. ne (sym h ∙ e)) alive))
      where
        ne : authenticating ≢ idle
        ne q = cc

    waits_ne_idle : awaiting_grant ≢ idle
    waits_ne_idle e = cc

    -- A task that returns in another state.
    elsewhere :
        (e : Task) (t : Client)
        → task server c e s ≡ (ok tt, t)
        → t.state ≢ idle
        → (after_event server c (queued e) s).state ≡ idle
        → ⊥
    elsewhere e t run ne i = ne (sym (ap (λ x. x.state) (after_ok server c e s t run)) ∙ i)

    not_idle : s.state ≢ idle
    not_idle e = absurd (ne (sym h ∙ e))
      where
        ne : authenticating ≢ idle
        ne q = cc

    ignored :
        (x : State) (m k : Handler (Unit {0})) → authenticating ≢ x → when_in server x m k s ≡ k s
    ignored x m k ne = passes server x m k s (other_state s.state x (λ e. ne (sym h ∙ e)))

    -- A client that is authenticating becomes idle only by a registration, with the nonce that was
    -- sent and a signature of the key that it registers, or by a login with that nonce and a
    -- signature of the key that the tables have for its device.
    pub event-SignedIn : (e : Event) → (after_event server c e s).state ≡ idle → SignedIn server s e
    unfolding after_event dispatch needed task send_error set_state send emit modify pure throw ◌>>◌
        ◌>>=◌
    event-SignedIn (queued (received raw (register n name crypto cmac))) i =
        (reached raw (register n name crypto cmac) _
          (on_register-Signed server s.nonce s.db c.fresh c.today raw n name crypto cmac) i).1
    event-SignedIn (queued (received raw (login n device name))) i =
        (reached raw (login n device name) _
          (on_login-Signed server s.nonce s.db c.today raw n device name) i).1
    event-SignedIn (queued (received raw (access n request))) i =
        let (t, w, x) =
          reached raw (access n request) _
            (on_access-Waits server s.nonce s.db c.fresh raw n request) i in
        absurd (waits_ne_idle (sym w ∙ x))
    event-SignedIn (queued (received raw sync)) i = refused raw sync refl i
    event-SignedIn (queued (received raw (change a b d x))) i = refused raw (change a b d x) refl i
    event-SignedIn (queued (received raw (device_change t a b d x))) i =
        refused raw (device_change t a b d x) refl i
    event-SignedIn (queued (received raw (changed_ack a))) i = refused raw (changed_ack a) refl i
    event-SignedIn (queued (received raw list_devices)) i = refused raw list_devices refl i
    event-SignedIn (queued (received raw (remove a))) i = refused raw (remove a) refl i
    event-SignedIn (queued (received raw (accept a))) i = refused raw (accept a) refl i
    event-SignedIn (queued (received raw (deny a))) i = refused raw (deny a) refl i
    event-SignedIn (queued (received raw (mac_update a b))) i = refused raw (mac_update a b) refl i
    event-SignedIn (queued (received raw (key_change a))) i = refused raw (key_change a) refl i
    event-SignedIn (queued (received raw (new_key a b d x))) i =
        refused raw (new_key a b d x) refl i
    event-SignedIn (queued (received raw unknown)) i =
        elsewhere (received raw unknown) _ (handled raw unknown) (λ e. cc) i
    event-SignedIn (queued (received raw wrong_version)) i =
        elsewhere (received raw wrong_version) _ (handled raw wrong_version) (λ e. cc) i
    event-SignedIn (queued (received raw unreadable)) i = cc (
      ap (λ x. x.state)
          (after_err server c (received raw unreadable) s s other_failure (handled raw unreadable)),
      i,
    )
    event-SignedIn received_ping i = not_idle i
    event-SignedIn (queued notify_changed) i =
        elsewhere notify_changed s (ignored idle _ _ (λ q. cc)) not_idle i
    event-SignedIn (queued (proof_result o)) i =
        elsewhere (proof_result o) s (ignored awaiting_grant _ _ (λ q. cc)) not_idle i
    event-SignedIn (queued (send_proof d)) i =
        elsewhere (send_proof d) _ (ignored idle _ _ (λ q. cc)) not_idle i
    event-SignedIn (queued (accept_done d)) i =
        elsewhere (accept_done d) s (ignored idle _ _ (λ q. cc)) not_idle i
    event-SignedIn socket_error i = cc
    event-SignedIn timeout i = cc
