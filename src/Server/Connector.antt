-- ===== src/Server/Connector.antt =====
-- tools/appserver/clientconnector.cpp: which client object belongs to which device, and the
-- messages between clients that the connector passes on. Client objects are numbers, a new one for
-- each connection, and a signal of a client is handled when it is emitted. Setting up the web
-- socket server is left out.
pub mod Routing
use qt_data_sync.Common.{
  ◌≡◌, refl, arith, ℕ, Bool, true, false, not, String, Option, none, some, List, [], ◌∷◌, ◌++◌,
  ◌&&◌, ◌||◌, if◌then◌else◌,
}
use qt_data_sync.Common.Equality.{◌==◌, nat_eq, string_eq}
use qt_data_sync.Table.{Table, get, delete_where}

-- A connection of a partner's proofDone to the client that asked for the proof.
pub record Link : Type 0 where
  pub partner : ℕ
  pub client : ℕ
  pub device : ℕ

-- The calls that the connector makes on client objects; `M` is an AcceptMessage.
pub data Order (M : Type 0) : Type 0 where
  notify drop : ℕ → Order M
  proof_result : ℕ → Bool → Option M → Order M
  send_proof : ℕ → ℕ → Order M
  accept_done : ℕ → ℕ → Order M

-- QHash clients; the client objects that there are; the connections of their signals `destroyed`
-- (a client and the device of the lambda), `proofDone`, and `connected` (a client, and the partner
-- that is told); and the calls made, oldest first.
pub record Connector (M : Type 0) : Type 0 where
  pub clients : Table ℕ ℕ
  pub live : List ℕ
  pub watched : List (ℕ × ℕ)
  pub links : List Link
  pub accepts : List (ℕ × ℕ)
  pub orders : List (Order M)

-- The signals of the clients and of the service.
pub data Event (M : Type 0) : Type 0 where
  new_connection destroyed : ℕ → Event M
  client_connected : ℕ → ℕ → Event M
  -- the client, the partner's device, and the device in the message
  proof_requested : ℕ → ℕ → ℕ → Event M
  proof_done : ℕ → ℕ → Bool → Option M → Event M
  force_disconnect notify_changed : ℕ → Event M
  disconnect_all : Event M

-- ClientConnector::verifySecret
pub verify_secret : Option String → String → Bool
verify_secret none origin = true
verify_secret (some secret) origin = origin == secret

-- QHash::insert
abbrev pub set_client : ℕ → ℕ → Table ℕ ℕ → Table ℕ ℕ
set_client device client t = (device, client) ∷ delete_where (λ d _. d == device) t

-- The lambdas that are connected to `destroyed` of a client.
unfoldable pub forget : ℕ → List (ℕ × ℕ) → Table ℕ ℕ → Table ℕ ℕ
forget client [] t = t
forget client ((c, device) ∷ rest) t =
    let removed = forget client rest (delete_where (λ d _. d == device) t) in
    let kept = forget client rest t in if c == client then removed else kept

abbrev pub contains : ℕ → List ℕ → Bool
contains c [] = false
contains c (x ∷ xs) = if x == c then true else contains c xs

-- What is left of connections when one that `gone` describes goes.
abbrev pub disconnect {ℓ} : {A : Type ℓ} → (A → Bool) → List A → List A
disconnect gone [] = []
disconnect gone (x ∷ xs) = let rest = disconnect gone xs in if gone x then rest else x ∷ rest

module _ {M : Type 0} where
  abbrev pub add_order : Order M → Connector M → Connector M
  add_order o s = record s { orders = s.orders ++ o ∷ [] }

  -- The client has connections only while it is there.
  abbrev pub of_live : ℕ → (Connector M → Connector M) → Connector M → Connector M
  of_live client f s = if contains client s.live then f s else s

  unfoldable pub tell_partners : List (ℕ × ℕ) → ℕ → ℕ → Connector M → Connector M
  tell_partners [] client device s = s
  tell_partners ((c, partner) ∷ rest) client device s =
      tell_partners rest client device
        (if c == client then add_order (accept_done partner device) s else s)

  abbrev pub connect_client : ℕ → ℕ → Connector M → Connector M
  connect_client client device s = tell_partners s.accepts client device (record s {
    clients = set_client device client s.clients;
    watched = (client, device) ∷ s.watched;
  })

  abbrev pub request_proof : Option ℕ → ℕ → ℕ → Connector M → Connector M
  request_proof none client device s = add_order (proof_result client false none) s
  request_proof (some partner) client device s = add_order (send_proof partner device) (record s {
    links = s.links ++ record { partner = partner; client = client; device = device } ∷ [];
  })

  -- The lambda of one connection of the partner's proofDone: it ends all connections of the partner
  -- to the client.
  abbrev pub pass_proof : Link → Bool → Option M → Connector M → Connector M
  pass_proof l success m s = add_order (proof_result l.client success m) (record s {
    links = disconnect (λ k. k.partner == l.partner && k.client == l.client) s.links;
    accepts =
        disconnect (λ a. a.0 == l.partner && a.1 == l.client) s.accepts
        ++ (l.client, l.partner) ∷ [];
  })

  -- All connections that were there when the partner emitted proofDone are served.
  unfoldable pub pass_proofs : List Link → ℕ → ℕ → Bool → Option M → Connector M → Connector M
  pass_proofs [] partner device success m s = s
  pass_proofs (l ∷ ls) partner device success m s =
      pass_proofs ls partner device success m
        (if l.partner == partner && l.device == device then pass_proof l success m s else s)

  abbrev pub order_client : (ℕ → Order M) → Option ℕ → Connector M → Connector M
  order_client o none s = s
  order_client o (some client) s = add_order (o client) s

  unfoldable pub drop_all : List ℕ → Connector M → Connector M
  drop_all [] s = s
  drop_all (c ∷ cs) s = drop_all cs (add_order (drop c) s)

  -- The destructor of a client: its connections go, after the lambdas of `destroyed` have run.
  unfoldable pub destroy : ℕ → Connector M → Connector M
  destroy client s = record s {
    clients = forget client s.watched s.clients;
    live = disconnect (λ c. c == client) s.live;
    watched = disconnect (λ w. w.0 == client) s.watched;
    links = disconnect (λ l. l.partner == client || l.client == client) s.links;
    accepts = disconnect (λ a. a.0 == client || a.1 == client) s.accepts;
  }

  unfoldable pub handle : Event M → Connector M → Connector M
  handle (new_connection client) s = record s { live = client ∷ s.live }
  handle (destroyed client) s = destroy client s
  handle (client_connected client device) s = of_live client (connect_client client device) s
  handle (proof_requested client partner device) s =
      of_live client (request_proof (get partner s.clients) client device) s
  handle (proof_done partner device success m) s = pass_proofs s.links partner device success m s
  handle (force_disconnect device) s = order_client drop (get device s.clients) s
  handle (notify_changed device) s = order_client notify (get device s.clients) s
  handle disconnect_all s = drop_all s.live s

  unfoldable pub handle_all : List (Event M) → Connector M → Connector M
  handle_all [] s = s
  handle_all (e ∷ es) s = handle_all es (handle e s)
