-- ===== src/RemoteConnector/Order.antt =====
-- Messages are handled in the order in which they come, whether or not they had to wait.
use qt_data_sync.Common.{
  ◌≡◌, arith, refl, sym, ap, ◌∙◌, inl, inr, Bool, true, false, List, [], ◌∷◌, ◌++◌, append_assoc,
  append-nil, if◌then◌else◌, Bool-cases,
}
use qt_data_sync.RemoteConnector.{
  MachineEvent, Settings, Input, machine_step, socket_opened, socket_lost, socket_error,
  ping_timeout, retry_timeout, special_timeout, reconnect, disconnect_remote, finalize,
  handler_event, connector_step,
}
use qt_data_sync.RemoteConnector.Session.{Session, Crypto}
use qt_data_sync.RemoteConnector.Handlers.{Message}
use qt_data_sync.RemoteConnector.Buffer.{
  Remote, Arrival, message, ping_answer, input, request, settings_of, take_message, receive, drain,
  connect_input, step_machine, arrive, arrive_all,
}
use qt_data_sync.RemoteConnector.Blocked.{
  next_event-StaysBlocked, is_step, outside-StaysBlocked, after_request-StaysBlocked,
}

clash : (b : Bool) → b ≡ true → b ≡ false → ⊥
clash b p q = ground arith

-- The messages that come, in order.
abbrev pub received : List Arrival → List Message
received [] = []
received (message m ∷ more) = m ∷ received more
received (ping_answer ∷ more) = received more
received (input i ∷ more) = received more
received (request q ∷ more) = received more

module _ {K : Type 0} where
  -- Nothing waits while messages are let through.
  abbrev pub Open : Remote K → Type 0
  Open r = r.session.connection.blocked ≡ false → r.buffer ≡ []

  abbrev pub in_order : Remote K → List Message
  in_order r = r.handled ++ r.buffer

  -- The messages `ms` have come, after those of `r`.
  record Taken (ms : List Message) (r t : Remote K) : Type 0 where
    order : in_order t ≡ in_order r ++ ms
    opens : Open t

  unblocked :
      (s t : Session K)
      → (s.connection.blocked ≡ true → t.connection.blocked ≡ true)
      → t.connection.blocked ≡ false
      → s.connection.blocked ≡ false
  unblocked s t h e = elim (Bool-cases s.connection.blocked) [
    | inl w ↦ absurd (clash t.connection.blocked (h w) e)
    | inr w ↦ w
  ]

  -- A change of the session that does not unblock.
  session-Taken :
      (r : Remote K) (t : Session K)
      → Open r
      → (r.session.connection.blocked ≡ true → t.connection.blocked ≡ true)
      → Taken [] r (record r { session = t })
  session-Taken r t o h = record {
    order = sym (append-nil (in_order r));
    opens = λ e. o (unblocked r.session t h e);
  }

  if-Taken :
      (b : Bool) (ms : List Message) (r t u : Remote K)
      → (b ≡ true → Taken ms r t)
      → (b ≡ false → Taken ms r u)
      → Taken ms r (if b then t else u)
  if-Taken true ms r t u h k = h refl
  if-Taken false ms r t u h k = k refl

module _ {K : Type 0} (crypto : Crypto K) (settings : Settings) where
  -- The loop takes the messages in order until one must wait.
  drain-Taken :
      (ms : List Message) (r : Remote K)
      → Taken [] (record r { buffer = ms }) (drain crypto settings ms r)
  unfolding drain take_message
  drain-Taken [] r = record { order = sym (append-nil (r.handled ++ [])); opens = λ e. refl }
  drain-Taken (m ∷ ms) r =
      let rest = drain-Taken ms (take_message crypto settings m r) in
      if-Taken r.session.connection.blocked [] (record r { buffer = m ∷ ms }) _ _
        (λ b. record {
          order = sym (append-nil (r.handled ++ m ∷ ms));
          opens = λ e. absurd (clash r.session.connection.blocked b e);
        })
        (λ b. record {
          order = rest.order ∙ ap (λ x. x ++ []) (append_assoc r.handled (m ∷ []) ms);
          opens = rest.opens;
        })

  receive-Taken :
      (m : Message) (r : Remote K) → Open r → Taken (m ∷ []) r (receive crypto settings m r)
  unfolding receive take_message
  receive-Taken m r o =
      if-Taken r.session.connection.blocked (m ∷ []) r _ _
        (λ b. record {
          order = sym (append_assoc r.handled r.buffer (m ∷ []));
          opens = λ e. absurd (clash r.session.connection.blocked b e);
        })
        (λ b. record {
          order = rw (o b) (append-nil _ ∙ sym (ap (λ x. x ++ m ∷ []) (append-nil r.handled)));
          opens = λ e. o b;
        })

  connect-Taken :
      (i : Input) (r : Remote K)
      → Open r
      → (r.session.connection.blocked ≡ true
          → (connector_step (settings_of crypto settings r.session) i r.session.connection).blocked
            ≡ true)
      → Taken [] r (connect_input crypto settings i r)
  connect-Taken i r o h = session-Taken r _ o h

  outside-Taken :
      (i : Input) (r : Remote K)
      → is_step (settings_of crypto settings r.session) i ≡ false
      → Open r
      → Taken [] r (connect_input crypto settings i r)
  outside-Taken i r e o =
      connect-Taken i r o
        (outside-StaysBlocked (settings_of crypto settings r.session) i e r.session.connection)

  step-Taken :
      (es : List MachineEvent) (r : Remote K)
      → r.session.connection.events ≡ es
      → Open r
      → Taken [] r (step_machine crypto settings es r)
  step-Taken [] r e o =
      let d = drain-Taken r.buffer (connect_input crypto settings machine_step r) in
      record { order = d.order; opens = d.opens }
  step-Taken (x ∷ es) r e o =
      connect-Taken machine_step r o (
        next_event-StaysBlocked (settings_of crypto settings r.session) x es r.session.connection e)

  arrive-Taken :
      (a : Arrival) (r : Remote K)
      → Open r
      → Taken (received (a ∷ [])) r (arrive crypto settings a r)
  unfolding arrive
  arrive-Taken (message m) r o = receive-Taken m r o
  arrive-Taken ping_answer r o = session-Taken r _ o (λ b. b)
  arrive-Taken (request q) r o = session-Taken r _ o (after_request-StaysBlocked crypto q r.session)
  arrive-Taken (input machine_step) r o = step-Taken r.session.connection.events r refl o
  arrive-Taken (input socket_opened) r o = outside-Taken socket_opened r refl o
  arrive-Taken (input socket_lost) r o = outside-Taken socket_lost r refl o
  arrive-Taken (input socket_error) r o = outside-Taken socket_error r refl o
  arrive-Taken (input ping_timeout) r o = outside-Taken ping_timeout r refl o
  arrive-Taken (input retry_timeout) r o = outside-Taken retry_timeout r refl o
  arrive-Taken (input special_timeout) r o = outside-Taken special_timeout r refl o
  arrive-Taken (input reconnect) r o = outside-Taken reconnect r refl o
  arrive-Taken (input disconnect_remote) r o = outside-Taken disconnect_remote r refl o
  arrive-Taken (input finalize) r o = outside-Taken finalize r refl o
  arrive-Taken (input (handler_event e)) r o = outside-Taken (handler_event e) r refl o

  received-snoc :
      (a : Arrival) (more : List Arrival) → received (a ∷ more) ≡ received (a ∷ []) ++ received more
  received-snoc (message m) more = refl
  received-snoc ping_answer more = refl
  received-snoc (input i) more = refl
  received-snoc (request q) more = refl

  -- If no messages wait while they are let through, then, whatever happens to the connector, the
  -- messages that have been handled and then those that wait are all that came, in the order in which
  -- they came, and again none wait while they are let through.
  pub arrive_all-Order :
      (arrivals : List Arrival) (r : Remote K)
      → (r.session.connection.blocked ≡ false → r.buffer ≡ [])
      → let t = arrive_all crypto settings arrivals r in
        (t.handled ++ t.buffer ≡ (r.handled ++ r.buffer) ++ received arrivals)
        × (t.session.connection.blocked ≡ false → t.buffer ≡ [])
  unfolding arrive_all
  arrive_all-Order [] r o = (sym (append-nil (in_order r)), o)
  arrive_all-Order (a ∷ more) r o =
      let one = arrive-Taken a r o in
      let rest = arrive_all-Order more (arrive crypto settings a r) one.opens in
      (
        rest.0
            ∙ ap (λ x. x ++ received more) one.order
            ∙ append_assoc (in_order r) (received (a ∷ [])) (received more)
            ∙ ap (λ x. in_order r ++ x) (sym (received-snoc a more)),
        rest.1,
      )
