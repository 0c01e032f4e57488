-- ===== src/RemoteConnector/Replay.antt =====
-- src/datasync/remoteconnector.cpp: proofs of one export that come again.
use qt_data_sync.Common.{
  ◌≡◌, refl, ap, ◌∙◌, sym, subst, List, ℕ, Bool, true, false, Option, none, some, [], ◌∷◌,
  if◌then◌else◌,
}
use qt_data_sync.Common.Equality.{◌==◌, bytes_eq, nat_eq}
use qt_data_sync.Json.{Bytes}
use qt_data_sync.Table.{get}
use qt_data_sync.Table.Laws.{get-delete_self, get-delete_where-none, delete-missing}
use qt_data_sync.RemoteConnector.{deny, Connection}
use qt_data_sync.RemoteConnector.Proofs.{
  ProofMessage, CryptoController, is_idle, take_proof, take_export, has_key, send_accept,
  answer_proof, login_reply, proven, insert_proof, decide, settle_proof, on_proof, ProofEvent,
  proof_received, reply, proof_expired, send, reject_late, proof_timeout, proof_step, proof_steps,
}

-- What changes neither the machine's state nor the exports, and blocks or lets through as before.
pub record Same (s t : Connection) : Type 0 where
  mode : t.mode ≡ s.mode
  exports : t.exports ≡ s.exports
  pub blocks : t.blocked ≡ s.blocked

module _ (crypto : CryptoController) where
  same-trans : {s u : Connection} (t : Connection) → Same s t → Same t u → Same s u
  same-trans t a b = record {
    mode = b.mode ∙ a.mode;
    exports = b.exports ∙ a.exports;
    blocks = b.blocks ∙ a.blocks;
  }

  send_accept-Same : (d : ℕ) (o : Option Bytes) (s : Connection) → Same s (send_accept crypto d o s)
  send_accept-Same d none s = record { mode = refl; exports = refl; blocks = refl }
  send_accept-Same d (some secret) s = record { mode = refl; exports = refl; blocks = refl }

  answer-Same :
      (d : ℕ) (accepted : Bool) (o : Option Bytes) (s : Connection)
      → Same s (answer_proof crypto d accepted o s)
  answer-Same d accepted none s = record { mode = refl; exports = refl; blocks = refl }
  answer-Same d true (some keys) s =
      same-trans (take_proof d s) (record { mode = refl; exports = refl; blocks = refl })
        (send_accept-Same d (crypto.encrypt_secret_key keys) (take_proof d s))
  answer-Same d false (some keys) s = record { mode = refl; exports = refl; blocks = refl }

  if-Same :
      (b : Bool) {s : Connection} (t u : Connection)
      → Same s t
      → Same s u
      → Same s (if b then t else u)
  if-Same true t u h k = h
  if-Same false t u h k = k

  pub login_reply-Same :
      (d : ℕ) (accepted : Bool) (s : Connection) → Same s (login_reply crypto d accepted s)
  unfolding login_reply
  login_reply-Same d accepted s =
      if-Same (is_idle s.mode) _ _ (answer-Same d accepted (get d s.active_proofs) s)
        (record { mode = refl; exports = refl; blocks = refl })

  decide-Same : (o : Option Bytes) (d : ℕ) (s : Connection) → Same s (decide crypto o d s)
  decide-Same none d s = record { mode = refl; exports = refl; blocks = refl }
  decide-Same (some mac) d s = login_reply-Same d true s

  settle-Same :
      (p : ProofMessage) (o : Option Bytes) (s : Connection) → Same s (settle_proof crypto p o s)
  settle-Same p none s = record { mode = refl; exports = refl; blocks = refl }
  settle-Same p (some keys) s =
      same-trans (insert_proof crypto p.device keys s)
        (record { mode = refl; exports = refl; blocks = refl }) (decide-Same p.trustmac p.device _)

  on_proof-Same :
      (p : ProofMessage) (s : Connection)
      → is_idle s.mode ≡ true
      → Same (take_export p.nonce s) (on_proof crypto p s)
  unfolding on_proof
  on_proof-Same p s h = rw h (
      settle-Same p (proven crypto s.device p (has_key (get p.nonce s.exports)))
        (take_export p.nonce s))

  -- The connector is idle, and the export with the nonce is not there.
  abbrev Spent : Bytes → Connection → Type 0
  Spent n s = (is_idle s.mode ≡ true) × (get n s.exports ≡ none)

  same-Spent : (n : Bytes) (s t : Connection) → Same s t → Spent n s → Spent n t
  same-Spent n s t f (h, e) = (ap is_idle f.mode ∙ h, ap (get n) f.exports ∙ e)

  take-Spent : (n m : Bytes) (s : Connection) → Spent n s → Spent n (take_export m s)
  take-Spent n m s (h, e) = (h, get-delete_where-none n (λ k _. k == m) s.exports e)

  timeout-Same : (d : ℕ) (s : Connection) → Same s (proof_timeout crypto d s)
  unfolding proof_timeout
  timeout-Same d s = late (get d s.active_proofs)
    where
      late : (o : Option Bytes) → Same s (reject_late crypto d o s)
      late none = record { mode = refl; exports = refl; blocks = refl }
      late (some keys) = record { mode = refl; exports = refl; blocks = refl }

  step-Spent :
      (n : Bytes) (e : ProofEvent) (s : Connection) → Spent n s → Spent n (proof_step crypto e s)
  step-Spent n (proof_received p) s x =
      same-Spent n (take_export p.nonce s) _ (on_proof-Same p s x.0) (take-Spent n p.nonce s x)
  step-Spent n (reply d accepted) s x = same-Spent n s _ (login_reply-Same d accepted s) x
  step-Spent n (proof_expired d) s x = same-Spent n s _ (timeout-Same d s) x

  steps-Spent :
      (n : Bytes) (es : List ProofEvent) (s : Connection)
      → Spent n s
      → Spent n (proof_steps crypto es s)
  unfolding proof_steps
  steps-Spent n [] s x = x
  steps-Spent n (e ∷ es) s x = steps-Spent n es (proof_step crypto e s) (step-Spent n e s x)

  used-Spent :
      (p : ProofMessage) (s : Connection)
      → is_idle s.mode ≡ true
      → Spent p.nonce (on_proof crypto p s)
  used-Spent p s h =
      same-Spent p.nonce (take_export p.nonce s) _ (on_proof-Same p s h)
        (h, get-delete_self p.nonce s.exports)

  denied :
      (q : ProofMessage) (s : Connection)
      → Spent q.nonce s
      → on_proof crypto q s ≡ send (deny q.device) s
  unfolding on_proof
  denied q s (h, e) =
      rw (h, e)
        (ap (λ x. send (deny q.device) (record s { exports = x }))
          (delete-missing q.nonce s.exports e))

  -- When the connector is idle and has received a proof, whatever became of it and whatever proofs,
  -- answers and timeouts come after it, a further proof with its nonce is answered with a denial, and
  -- that is all that it changes.
  pub on_proof-Once :
      (p q : ProofMessage) (es : List ProofEvent) (s : Connection)
      → is_idle s.mode ≡ true
      → q.nonce ≡ p.nonce
      → on_proof crypto q (proof_steps crypto es (on_proof crypto p s))
        ≡ send (deny q.device) (proof_steps crypto es (on_proof crypto p s))
  on_proof-Once p q es s h e = denied q _ (
      subst (λ n. Spent n (proof_steps crypto es (on_proof crypto p s))) (sym e)
        (steps-Spent p.nonce es (on_proof crypto p s) (used-Spent p s h)))
