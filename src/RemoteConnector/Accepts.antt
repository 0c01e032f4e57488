-- ===== src/RemoteConnector/Accepts.antt =====
-- Only a device that has proven to have an export is let into the account.
use qt_data_sync.Common.{
  ◌≡◌, refl, sym, ap, subst, ◌∙◌, arith, inl, inr, ℕ, Bool, true, false, Option, none, some, List,
  [], ◌∷◌, ◌++◌, if◌then◌else◌, Bool-cases, All, All-snoc,
}
use qt_data_sync.Common.Equality.{◌==◌, ==_iff, bytes_eq, nat_eq, false→ne}
use qt_data_sync.Json.{Bytes}
use qt_data_sync.Table.{Table, get, delete_where}
use qt_data_sync.Table.Laws.{get-deleted, get-cons_self, get-cons_other}
use qt_data_sync.RemoteConnector.{Sent, accept, deny, Connection, trigger_error, submit_event}
use qt_data_sync.RemoteConnector.Proofs.{
  ProofMessage, CryptoController, is_idle, take_proof, take_export, send, has_key, send_accept,
  answer_proof, login_reply, is_trusted, checked_keys, proven, insert_proof, decide, settle_proof,
  on_proof, reject_late, proof_timeout, ProofEvent, proof_received, reply, proof_expired,
  proof_step, proof_steps,
}

some_eq : (a b : Bytes) → some a ≡ some b → a ≡ b
some_eq a b h = ground (arith, h)

none_eq : (b : Bytes) → none ≡ some b → ⊥
none_eq b h = cc

known-key :
    (o q : Option Bytes) (key : Bytes)
    → ((k : Bytes) → o ≡ some k → q ≡ some k)
    → has_key o ≡ some key
    → has_key q ≡ some key
known-key none q key f h = absurd (none_eq key h)
known-key (some []) q key f h = absurd (none_eq key h)
known-key (some (b ∷ bs)) q key f h = ap has_key (f (b ∷ bs) refl) ∙ h

module _ (crypto : CryptoController) (own : Option ℕ) (exports : Table Bytes Bytes) where
  -- A message from the device has a mac with the key of an export for the nonce in it, for this
  -- device and the scheme; the keys are those in it, and if it has a mac of the keys, that is right too.
  pub record Proven (device : ℕ) (keys : Bytes) : Type 0 where
    pub message : ProofMessage
    pub key : Bytes
    pub from_device : message.device ≡ device
    pub exported : has_key (get message.nonce exports) ≡ some key
    pub mac :
        crypto.verify_import_cmac message.mac_scheme key
          (message.nonce ++ crypto.to_rfc4122 own ++ message.mac_scheme)
          message.cmac
        ≡ true
    pub keys_read : crypto.read_keys message.keys ≡ some keys
    pub trusted : is_trusted crypto message.mac_scheme key keys message.trustmac ≡ true

  -- An account is only granted with the secret key encrypted for proven keys.
  abbrev pub Granted : Sent → Type 0
  Granted (accept device secret) =
      (keys : Bytes) × Proven device keys × (crypto.encrypt_secret_key keys ≡ some secret)
  Granted _ = Unit

  -- The exports are of those at the start, and who waits for an answer has proven.
  record Sound (s : Connection) : Type 0 where
    device : s.device ≡ own
    known : (n k : Bytes) → get n s.exports ≡ some k → get n exports ≡ some k
    waiting : (d : ℕ) (keys : Bytes) → get d s.active_proofs ≡ some keys → Proven d keys
    sent : All Granted s.sent

  deny-Sound : (d : ℕ) (s : Connection) → Sound s → Sound (send (deny d) s)
  deny-Sound d s h = record {
    device = h.device;
    known = h.known;
    waiting = h.waiting;
    sent = All-snoc Granted s.sent (deny d) h.sent tt;
  }

  take-Sound : (d : ℕ) (s : Connection) → Sound s → Sound (take_proof d s)
  take-Sound d s h = record {
    device = h.device;
    known = h.known;
    waiting = λ c keys e. h.waiting c keys (get-deleted s.active_proofs d c keys e).0;
    sent = h.sent;
  }

  send_accept-Sound :
      (d : ℕ) (keys : Bytes) (o : Option Bytes) (s : Connection)
      → Proven d keys
      → crypto.encrypt_secret_key keys ≡ o
      → Sound s
      → Sound (send_accept crypto d o s)
  send_accept-Sound d keys none s p e h = deny-Sound d s h
  send_accept-Sound d keys (some secret) s p e h = record {
    device = h.device;
    known = h.known;
    waiting = h.waiting;
    sent = All-snoc Granted s.sent (accept d secret) h.sent (keys, p, e);
  }

  answer-Sound :
      (d : ℕ) (accepted : Bool) (o : Option Bytes) (s : Connection)
      → get d s.active_proofs ≡ o
      → Sound s
      → Sound (answer_proof crypto d accepted o s)
  answer-Sound d accepted none s e h = h
  answer-Sound d true (some keys) s e h =
      send_accept-Sound d keys _ (take_proof d s) (h.waiting d keys e) refl (take-Sound d s h)
  answer-Sound d false (some keys) s e h = deny-Sound d _ (take-Sound d s h)

  if-Sound : (b : Bool) (s t : Connection) → Sound s → Sound t → Sound (if b then s else t)
  if-Sound true s t h k = h
  if-Sound false s t h k = k

  login_reply-Sound :
      (d : ℕ) (accepted : Bool) (s : Connection) → Sound s → Sound (login_reply crypto d accepted s)
  unfolding login_reply
  login_reply-Sound d accepted s h =
      if-Sound (is_idle s.mode) _ _ (answer-Sound d accepted _ s refl h) h

  insert-Sound :
      (d : ℕ) (keys : Bytes) (s : Connection)
      → Proven d keys
      → Sound s
      → Sound (insert_proof crypto d keys s)
  insert-Sound d keys s p h = record {
    device = h.device;
    known = h.known;
    waiting = waits;
    sent = h.sent;
  }
    where
      waits :
          (c : ℕ) (other : Bytes)
          → get c ((d, keys) ∷ delete_where (λ x _. x == d) s.active_proofs) ≡ some other
          → Proven c other
      waits c other e = elim (Bool-cases (d == c)) [
        | inl q ↦
            let r : d ≡ c = (==_iff d c).0 q in
            let i : get c ((d, keys) ∷ delete_where (λ x _. x == d) s.active_proofs) ≡ some keys =
              subst
                (λ x. get x ((d, keys) ∷ delete_where (λ y _. y == d) s.active_proofs) ≡ some keys)
                r (get-cons_self d (delete_where (λ y _. y == d) s.active_proofs) keys) in
            let k : keys ≡ other = some_eq keys other (sym i ∙ e) in
            subst (λ x. Proven c x) k (subst (λ x. Proven x keys) r p)
        | inr q ↦
            h.waiting c other
              (get-deleted s.active_proofs d c other (
                sym (
                  get-cons_other d (delete_where (λ x _. x == d) s.active_proofs) keys c
                    (false→ne d c q))
                ∙ e)).0
      ]

  decide-Sound : (o : Option Bytes) (d : ℕ) (s : Connection) → Sound s → Sound (decide crypto o d s)
  decide-Sound none d s h = record {
    device = h.device;
    known = h.known;
    waiting = h.waiting;
    sent = h.sent;
  }
  decide-Sound (some mac) d s h = login_reply-Sound d true s h

  checked_lem :
      (b : Bool) (o : Option Bytes) (t : Bytes → Bool) (keys : Bytes)
      → checked_keys crypto b o t ≡ some keys
      → (b ≡ true) × (o ≡ some keys) × (t keys ≡ true)
  checked_lem false o t keys h = absurd (ground arith)
  checked_lem true none t keys h = absurd (ground arith)
  checked_lem true (some k) t keys h = elim (Bool-cases (t k)) [
    | inl e ↦ let i = some_eq k keys (rw e at h) in (refl, ap some i, subst (λ x. t x ≡ true) i e)
    | inr e ↦ absurd (none_eq keys (rw e at h))
  ]

  proven_lem :
      (p : ProofMessage) (o : Option Bytes) (keys : Bytes)
      → ((key : Bytes) → o ≡ some key → has_key (get p.nonce exports) ≡ some key)
      → proven crypto own p o ≡ some keys
      → Proven p.device keys
  proven_lem p none keys e h = absurd (ground arith)
  proven_lem p (some key) keys e h =
      let c =
        checked_lem _ (crypto.read_keys p.keys)
          (λ k. is_trusted crypto p.mac_scheme key k p.trustmac) keys h in
      record {
        message = p;
        key = key;
        from_device = refl;
        exported = e key refl;
        mac = c.0;
        keys_read = c.1;
        trusted = c.2;
      }

  settle-Sound :
      (p : ProofMessage) (o : Option Bytes) (s : Connection)
      → ((keys : Bytes) → o ≡ some keys → Proven p.device keys)
      → Sound s
      → Sound (settle_proof crypto p o s)
  settle-Sound p none s k h = deny-Sound p.device s h
  settle-Sound p (some keys) s k h =
      decide-Sound p.trustmac p.device _ (insert-Sound p.device keys s (k keys refl) h)

  take_export-Sound : (n : Bytes) (s : Connection) → Sound s → Sound (take_export n s)
  take_export-Sound n s h = record {
    device = h.device;
    known = λ m k e. h.known m k (get-deleted s.exports n m k e).0;
    waiting = h.waiting;
    sent = h.sent;
  }

  error-Sound : (s : Connection) → Sound s → Sound (trigger_error true s)
  unfolding trigger_error submit_event
  error-Sound s h = record {
    device = h.device;
    known = h.known;
    waiting = h.waiting;
    sent = h.sent;
  }

  on_proof-Sound : (p : ProofMessage) (s : Connection) → Sound s → Sound (on_proof crypto p s)
  unfolding on_proof
  on_proof-Sound p s h =
      if-Sound (is_idle s.mode) _ _
        (settle-Sound p _ (take_export p.nonce s)
          (λ keys e.
            proven_lem p _ keys
              (λ key. known-key (get p.nonce s.exports) (get p.nonce exports) key (h.known p.nonce))
              (ap (λ d. proven crypto d p (has_key (get p.nonce s.exports))) (sym h.device) ∙ e))
          (take_export-Sound p.nonce s h))
        (error-Sound s h)

  late-Sound :
      (d : ℕ) (o : Option Bytes) (s : Connection) → Sound s → Sound (reject_late crypto d o s)
  late-Sound d none s h = h
  late-Sound d (some keys) s h = deny-Sound d _ (take-Sound d s h)

  step-Sound : (e : ProofEvent) (s : Connection) → Sound s → Sound (proof_step crypto e s)
  unfolding proof_timeout
  step-Sound (proof_received p) s h = on_proof-Sound p s h
  step-Sound (reply d accepted) s h = login_reply-Sound d accepted s h
  step-Sound (proof_expired d) s h = late-Sound d (get d s.active_proofs) s h

  steps-Sound : (es : List ProofEvent) (s : Connection) → Sound s → Sound (proof_steps crypto es s)
  unfolding proof_steps
  steps-Sound [] s h = h
  steps-Sound (e ∷ es) s h = steps-Sound es (proof_step crypto e s) (step-Sound e s h)

module _ (crypto : CryptoController) where
  -- From a connection that has sent nothing and that no device waits for, whatever proofs, answers and
  -- timeouts come, the secret key goes only to devices that have proven to know an export, and it
  -- is encrypted for the keys that were proven.
  pub proof_steps-Granted :
      (es : List ProofEvent) (s : Connection)
      → s.active_proofs ≡ []
      → s.sent ≡ []
      → All (Granted crypto s.device s.exports) (proof_steps crypto es s).sent
  unfolding get
  proof_steps-Granted es s a b =
      (steps-Sound crypto s.device s.exports es s (record {
        device = refl;
        known = λ n k e. e;
        waiting = λ d keys e. absurd (none_eq keys (rw a at e));
        sent = rw b tt;
      })).sent
