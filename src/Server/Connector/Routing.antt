-- ===== src/Server/Connector/Routing.antt =====
-- The table of clients never holds a client object that was destroyed.
use qt_data_sync.Common.{
  ◌≡◌, ◌⊎◌, inl, inr, refl, sym, subst, ◌∙◌, arith, ℕ, Bool, true, false, Option, none, some, List,
  [], ◌∷◌, ◌&&◌, if◌then◌else◌, Bool-cases, Option-cases,
}
use qt_data_sync.Common.Equality.{◌==◌, ==_iff, nat_eq, false→ne}
use qt_data_sync.Table.{Table, get, delete_where}
use qt_data_sync.Table.Laws.{get-deleted, get-delete_other, get-cons_self, get-cons_other}
use qt_data_sync.Server.Connector.{
  Link, Order, Connector, Event, new_connection, destroyed, client_connected, proof_requested,
  proof_done, force_disconnect, notify_changed, disconnect_all, set_client, forget, contains,
  disconnect, add_order, of_live, tell_partners, connect_client, request_proof, pass_proof,
  pass_proofs, order_client, drop_all, destroy, handle, handle_all, drop, notify, accept_done,
}

-- The connector hears of the end of the client, as one that was connected as the device.
abbrev Watches : ℕ → ℕ → List (ℕ × ℕ) → Type 0
Watches client device [] = ⊥
Watches client device ((c, d) ∷ rest) = ((c ≡ client) × (d ≡ device)) ⊎ Watches client device rest

abbrev Watched : Table ℕ ℕ → List (ℕ × ℕ) → Type 0
Watched t w = (device client : ℕ) → get device t ≡ some client → Watches client device w

get-forget :
    (client : ℕ) (w : List (ℕ × ℕ)) (t : Table ℕ ℕ) (d c : ℕ)
    → get d (forget client w t) ≡ some c
    → (get d t ≡ some c) × (Watches client d w → ⊥)
unfolding forget
get-forget client [] t d c h = (h, λ x. x)
get-forget client ((k, device) ∷ w) t d c h = elim (Bool-cases (k == client)) [
  | inl e ↦
      let i = get-forget client w (delete_where (λ x _. x == device) t) d c (rw e at h) in
      let n = get-deleted t device d c i.0 in (n.0, λ x. elim x [ inl y ↦ n.1 y.1 | inr y ↦ i.1 y ])
  | inr e ↦
      let i = get-forget client w t d c (rw e at h) in
      (i.0, λ x. elim x [ inl y ↦ false→ne k client e y.0 | inr y ↦ i.1 y ])
]

Watches-disconnect :
    (gone c d : ℕ) (w : List (ℕ × ℕ))
    → (c ≡ gone → ⊥)
    → Watches c d w
    → Watches c d (disconnect (λ x. x.0 == gone) w)
Watches-disconnect gone c d [] n x = x
Watches-disconnect gone c d ((k, device) ∷ w) n x = elim (Bool-cases (k == gone)) [
  | inl e ↦ rw e (elim x [
    | inl y ↦ absurd (n (sym y.0 ∙ (==_iff k gone).0 e))
    | inr y ↦ Watches-disconnect gone c d w n y
  ])
  | inr e ↦ rw e (elim x [ inl y ↦ inl y | inr y ↦ inr (Watches-disconnect gone c d w n y) ])
]

destroy-Watched :
    (client : ℕ) (t : Table ℕ ℕ) (w : List (ℕ × ℕ))
    → Watched t w
    → Watched (forget client w t) (disconnect (λ x. x.0 == client) w)
destroy-Watched client t w h device c e =
    let f = get-forget client w t device c e in
    let x = h device c f.0 in
    Watches-disconnect client c device w (λ q. f.1 (subst (λ y. Watches y device w) q x)) x

set_client-Watched :
    (client device : ℕ) (t : Table ℕ ℕ) (w : List (ℕ × ℕ))
    → Watched t w
    → Watched (set_client device client t) ((client, device) ∷ w)
set_client-Watched client device t w h d c e = elim (Bool-cases (device == d)) [
  | inl q ↦
      let r : device ≡ d = (==_iff device d).0 q in
      let i : get d (set_client device client t) ≡ some client =
        subst (λ x. get x (set_client device client t) ≡ some client) r
          (get-cons_self device (delete_where (λ x _. x == device) t) client) in
      inl (ground (arith, i, e), r)
  | inr q ↦
      let n = false→ne device d q in
      inr (
        h d c (
          sym (
            get-cons_other device (delete_where (λ x _. x == device) t) client d n
            ∙ get-delete_other device t d n)
          ∙ e))
]

-- Every client of the table is there.
abbrev Alive : Table ℕ ℕ → List ℕ → Type 0
Alive t live = (device client : ℕ) → get device t ≡ some client → contains client live ≡ true

contains-disconnect :
    (gone c : ℕ) (l : List ℕ)
    → (c ≡ gone → ⊥)
    → contains c l ≡ true
    → contains c (disconnect (λ x. x == gone) l) ≡ true
contains-disconnect gone c [] n h = h
contains-disconnect gone c (x ∷ xs) n h = elim (Bool-cases (x == gone)) [
  | inl e ↦ elim (Bool-cases (x == c)) [
    | inl k ↦ absurd (n (sym ((==_iff x c).0 k) ∙ (==_iff x gone).0 e))
    | inr k ↦ rw e (contains-disconnect gone c xs n (rw k at h))
  ]
  | inr e ↦ elim (Bool-cases (x == c)) [
    | inl k ↦ rw (e, k) refl
    | inr k ↦ rw (e, k) (contains-disconnect gone c xs n (rw k at h))
  ]
]

destroy-Alive :
    (client : ℕ) (t : Table ℕ ℕ) (w : List (ℕ × ℕ)) (live : List ℕ)
    → Watched t w
    → Alive t live
    → Alive (forget client w t) (disconnect (λ x. x == client) live)
destroy-Alive client t w live h a device c e =
    let f = get-forget client w t device c e in
    contains-disconnect client c live
      (λ q. f.1 (subst (λ y. Watches y device w) q (h device c f.0))) (a device c f.0)

set_client-Alive :
    (client device : ℕ) (t : Table ℕ ℕ) (live : List ℕ)
    → contains client live ≡ true
    → Alive t live
    → Alive (set_client device client t) live
set_client-Alive client device t live l a d c e = elim (Bool-cases (device == d)) [
  | inl q ↦
      let r : device ≡ d = (==_iff device d).0 q in
      let i : get d (set_client device client t) ≡ some client =
        subst (λ x. get x (set_client device client t) ≡ some client) r
          (get-cons_self device (delete_where (λ x _. x == device) t) client) in
      let k : client ≡ c = ground (arith, i, e) in subst (λ x. contains x live ≡ true) k l
  | inr q ↦
      let n = false→ne device d q in
      a d c (
        sym (
          get-cons_other device (delete_where (λ x _. x == device) t) client d n
          ∙ get-delete_other device t d n)
        ∙ e)
]

new-Alive : (client : ℕ) (t : Table ℕ ℕ) (live : List ℕ) → Alive t live → Alive t (client ∷ live)
new-Alive client t live a d c e = ground (arith, a d c e)

module _ {M : Type 0} where
  -- Each client of the table is there and its end will be heard of.
  abbrev pub Routed : Connector M → Type 0
  Routed s = Watched s.clients s.watched × Alive s.clients s.live

  if-Routed : (b : Bool) (x y : Connector M) → Routed x → Routed y → Routed (if b then x else y)
  if-Routed true x y h k = h
  if-Routed false x y h k = k

  tell_partners-Routed :
      (a : List (ℕ × ℕ)) (client device : ℕ) (s : Connector M)
      → Routed s
      → Routed (tell_partners a client device s)
  unfolding tell_partners
  tell_partners-Routed [] client device s h = h
  tell_partners-Routed ((c, partner) ∷ a) client device s h =
      tell_partners-Routed a client device _
        (if-Routed (c == client) (add_order (accept_done partner device) s) s h h)

  pass_proofs-Routed :
      (ls : List Link) (partner device : ℕ) (success : Bool) (m : Option M) (s : Connector M)
      → Routed s
      → Routed (pass_proofs ls partner device success m s)
  unfolding pass_proofs
  pass_proofs-Routed [] partner device success m s h = h
  pass_proofs-Routed (l ∷ ls) partner device success m s h =
      pass_proofs-Routed ls partner device success m _
        (if-Routed (l.partner == partner && l.device == device) (pass_proof l success m s) s h h)

  drop_all-Routed : (cs : List ℕ) (s : Connector M) → Routed s → Routed (drop_all cs s)
  unfolding drop_all
  drop_all-Routed [] s h = h
  drop_all-Routed (c ∷ cs) s h = drop_all-Routed cs (add_order (drop c) s) h

  order_client-Routed :
      (o : ℕ → Order M) (c : Option ℕ) (s : Connector M) → Routed s → Routed (order_client o c s)
  order_client-Routed o none s h = h
  order_client-Routed o (some c) s h = h

  request_proof-Routed :
      (partner : Option ℕ) (client device : ℕ) (s : Connector M)
      → Routed s
      → Routed (request_proof partner client device s)
  request_proof-Routed none client device s h = h
  request_proof-Routed (some partner) client device s h = h

  of_live-Routed :
      (client : ℕ) (f : Connector M → Connector M) (s : Connector M)
      → (contains client s.live ≡ true → Routed (f s))
      → Routed s
      → Routed (of_live client f s)
  of_live-Routed client f s k h = elim (Bool-cases (contains client s.live)) [
    | inl e ↦ subst (λ b. Routed (if b then f s else s)) (sym e) (k e)
    | inr e ↦ subst (λ b. Routed (if b then f s else s)) (sym e) h
  ]

  handle-Routed : (e : Event M) (s : Connector M) → Routed s → Routed (handle e s)
  unfolding handle destroy
  handle-Routed (new_connection client) s h = (h.0, new-Alive client s.clients s.live h.1)
  handle-Routed (destroyed client) s h = (
    destroy-Watched client s.clients s.watched h.0,
    destroy-Alive client s.clients s.watched s.live h.0 h.1,
  )
  handle-Routed (client_connected client device) s h =
      of_live-Routed client (connect_client client device) s
        (λ l. tell_partners-Routed s.accepts client device _ (
          set_client-Watched client device s.clients s.watched h.0,
          set_client-Alive client device s.clients s.live l h.1,
        ))
        h
  handle-Routed (proof_requested client partner device) s h =
      of_live-Routed client (request_proof (get partner s.clients) client device) s
        (λ l. request_proof-Routed (get partner s.clients) client device s h) h
  handle-Routed (proof_done partner device success m) s h =
      pass_proofs-Routed s.links partner device success m s h
  handle-Routed (force_disconnect device) s h = order_client-Routed drop (get device s.clients) s h
  handle-Routed (notify_changed device) s h = order_client-Routed notify (get device s.clients) s h
  handle-Routed disconnect_all s h = drop_all-Routed s.live s h

  -- Whatever happens in whatever order, each client object in the table of the connector is one
  -- that has not been destroyed, and its destruction will be heard of, if it was so before.
  pub handle_all-Routed :
      (es : List (Event M)) (s : Connector M) → Routed s → Routed (handle_all es s)
  unfolding handle_all
  handle_all-Routed [] s h = h
  handle_all-Routed (e ∷ es) s h = handle_all-Routed es (handle e s) (handle-Routed e s h)

  tell_partners-watched :
      (a : List (ℕ × ℕ)) (client device : ℕ) (s : Connector M)
      → ((tell_partners a client device s).watched ≡ s.watched)
        × ((tell_partners a client device s).live ≡ s.live)
  unfolding tell_partners
  tell_partners-watched [] client device s = (refl, refl)
  tell_partners-watched ((c, partner) ∷ a) client device s =
      let r =
        tell_partners-watched a client device
          (if c == client then add_order (accept_done partner device) s else s) in
      (r.0 ∙ add_if-watched (c == client), r.1 ∙ add_if-live (c == client))
    where
      add_if-watched :
          (b : Bool)
          → (if b then add_order (accept_done partner device) s else s).watched ≡ s.watched
      add_if-watched true = refl
      add_if-watched false = refl

      add_if-live :
          (b : Bool) → (if b then add_order (accept_done partner device) s else s).live ≡ s.live
      add_if-live true = refl
      add_if-live false = refl

  connected-watched :
      (client device : ℕ) (s : Connector M)
      → contains client s.live ≡ true
      → ((handle (client_connected client device) s).watched ≡ (client, device) ∷ s.watched)
        × ((handle (client_connected client device) s).live ≡ s.live)
  unfolding handle
  connected-watched client device s l = rw l (tell_partners-watched s.accepts client device _)

  destroyed-none :
      (client device : ℕ) (s : Connector M)
      → Watches client device s.watched
      → get device (handle (destroyed client) s).clients ≡ none
  unfolding handle destroy
  destroyed-none client device s w =
      elim (Option-cases (get device (forget client s.watched s.clients))) [
        | inl n ↦ n
        | inr c ↦ absurd ((get-forget client s.watched s.clients device c.0 c.1).1 w)
      ]

  -- When the client that was connected as a device before is destroyed after a new client has
  -- connected as the device, both being there, the table loses the new client.
  pub reconnect-Lost :
      (old new device : ℕ) (s : Connector M)
      → contains old s.live ≡ true
      → contains new s.live ≡ true
      → get device
          (handle_all
            (client_connected old device ∷ client_connected new device ∷ destroyed old ∷ [])
            s).clients
        ≡ none
  unfolding handle_all
  reconnect-Lost old new device s l k =
      let one = connected-watched old device s l in
      let two =
        connected-watched new device (handle (client_connected old device) s)
          (subst (λ x. contains new x ≡ true) (sym one.1) k) in
      destroyed-none old device _ (
        subst (Watches old device) (sym two.0)
          (inr (subst (Watches old device) (sym one.0) (inl (refl, refl)))))
