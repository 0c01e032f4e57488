-- ===== src/Server/Client/Calls.antt =====
-- tools/appserver/client.cpp: what keeps a property of a session that depends on the running downloads
-- alone: the calls of the database, the replies, the signals and the parts of the handlers.
use qt_data_sync.Common.{ℕ, ◌≡◌, refl, Bool, true, false, List, [], ◌∷◌, if◌then◌else◌}
use qt_data_sync.Common.Equality.{◌==◌, bytes_eq, nat_eq}
use qt_data_sync.Json.{Bytes}
use qt_data_sync.Exec.{Exec, Result, ok, err, modify}
use qt_data_sync.Exec.Triple.{
  Post, Keeps, pure-Keeps, throw-Keeps, gets-Keeps, bind-Keeps, seq-Keeps, modify-Keeps,
}
use qt_data_sync.Server.Database.{Crypto, Db}
use qt_data_sync.Server.Database as Tables
use qt_data_sync.Server.Client.{
  Client, Server, State, Reply, Signal, reach_database, query, update, call, store_result, send,
  emit, set_state, send_error, expect, ErrorType, state_beq, Thrown,
}
use qt_data_sync.Server.Database.Methods.{KeyOffer, accepted, duplicate, pending, bad_index}
use qt_data_sync.Server.Client.Handlers.{
  use_nonce, answer, answer_offer, answer_key, disconnect_all,
}

-- `P` depends on the running downloads alone.
pub record OfDownloads (P : Client → Type 0) : Type 0 where
  pub carries : (s t : Client) → t.active ≡ s.active → P s → P t

pub left :
    {E S : Type 0} (P : S → Type 0) (r : Result E (Unit {0}) × S) → Post (λ _. P) (λ _. P) r → P r.1
left P (ok a, s) p = p
left P (err e, s) p = p

pub if-Keeps :
    {S E A : Type 0} {P : S → Type 0} (b : Bool) {m k : Exec E S A}
    → Keeps P m
    → Keeps P k
    → Keeps P (if b then m else k)
if-Keeps true hm hk = hm
if-Keeps false hm hk = hk

module _ {P : Client → Type 0} (h : OfDownloads P) where
  pub reach_database-Keeps : Keeps P reach_database
  unfolding reach_database
  reach_database-Keeps = bind-Keeps _ _ (gets-Keeps _) (λ r.
      seq-Keeps _ _ (modify-Keeps _ (λ s. h.carries s _ refl))
        (if-Keeps r (pure-Keeps tt) (throw-Keeps _)))

  pub query-Keeps : {A : Type 0} (f : Db → A) → Keeps P (query f)
  unfolding query
  query-Keeps f = seq-Keeps _ _ reach_database-Keeps (gets-Keeps _)

  pub update-Keeps : (f : Db → Db) → Keeps P (update f)
  unfolding update
  update-Keeps f = seq-Keeps _ _ reach_database-Keeps (modify-Keeps _ (λ s. h.carries s _ refl))

  pub result-Keeps : {A : Type 0} (r : Tables.Result (A × Db)) → Keeps P (store_result r)
  result-Keeps (Tables.ok (a, db)) =
      seq-Keeps _ _ (modify-Keeps _ (λ s. h.carries s _ refl)) (pure-Keeps a)
  result-Keeps (Tables.err e) = throw-Keeps _

  pub call-Keeps : {A : Type 0} (f : Db → Tables.Result (A × Db)) → Keeps P (call f)
  unfolding call
  call-Keeps f =
      seq-Keeps _ _ reach_database-Keeps (bind-Keeps _ _ (gets-Keeps _) (λ r. result-Keeps r))

  pub send-Keeps : (m : Reply) → Keeps P (send m)
  unfolding send
  send-Keeps m = modify-Keeps _ (λ s. h.carries s _ refl)

  pub emit-Keeps : (m : Signal) → Keeps P (emit m)
  unfolding emit
  emit-Keeps m = modify-Keeps _ (λ s. h.carries s _ refl)

  pub set_state-Keeps : (x : State) → Keeps P (set_state x)
  unfolding set_state
  set_state-Keeps x = modify-Keeps _ (λ s. h.carries s _ refl)

  pub send_error-Keeps : (e : ErrorType) (b : Bool) → Keeps P (send_error e b)
  unfolding send_error
  send_error-Keeps e b = seq-Keeps _ _ (set_state-Keeps _) (send-Keeps _)

  pub expect-Keeps : (x : State) → Keeps P (expect x)
  unfolding expect
  expect-Keeps x =
      bind-Keeps _ _ (gets-Keeps _)
        (λ now. if-Keeps (state_beq now x) (pure-Keeps tt) (throw-Keeps _))

  pub answer-Keeps :
      (server : Server) (m : Reply) (e : ErrorType) (b : Bool) → Keeps P (answer server m e b)
  answer-Keeps server m e true = send-Keeps m
  answer-Keeps server m e false = send_error-Keeps e false

  pub modify-Same :
      (f : Client → Client)
      → ((s : Client) → (f s).active ≡ s.active)
      → Keeps {E = Thrown} P (modify f)
  modify-Same f e = modify-Keeps f (λ s. h.carries s _ (e s))

  pub use_nonce-Keeps : (n : Bytes) → Keeps P (use_nonce n)
  unfolding use_nonce
  use_nonce-Keeps n =
      bind-Keeps _ _ (gets-Keeps _)
        (λ sent. if-Keeps (sent == n) (modify-Same _ (λ s. refl)) (throw-Keeps _))

  pub disconnect_all-Keeps :
      (server : Server) (keys : List (ℕ × Bytes × Bytes)) → Keeps P (disconnect_all server keys)
  disconnect_all-Keeps server [] = pure-Keeps tt
  disconnect_all-Keeps server ((d, key, mac) ∷ rest) =
      seq-Keeps _ _ (emit-Keeps _) (disconnect_all-Keeps server rest)

  pub answer_key-Keeps :
      (server : Server) (i : ℕ) (keys : List (ℕ × Bytes × Bytes)) (b : Bool)
      → Keeps P (answer_key server i keys b)
  answer_key-Keeps server i keys true =
      seq-Keeps _ _ (disconnect_all-Keeps server keys) (send-Keeps _)
  answer_key-Keeps server i keys false = send_error-Keeps _ false

  pub answer_offer-Keeps :
      (server : Server) (i : ℕ) (r : Tables.Result KeyOffer) → Keeps P (answer_offer server i r)
  answer_offer-Keeps server i (Tables.ok (accepted keys)) = send-Keeps _
  answer_offer-Keeps server i (Tables.ok duplicate) = send-Keeps _
  answer_offer-Keeps server i (Tables.ok pending) = send_error-Keeps _ false
  answer_offer-Keeps server i (Tables.ok bad_index) = send_error-Keeps _ false
  answer_offer-Keeps server i (Tables.err e) = throw-Keeps _
