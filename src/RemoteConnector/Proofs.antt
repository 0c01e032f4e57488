-- ===== src/RemoteConnector/Proofs.antt =====
-- src/datasync/remoteconnector.cpp: a new device asks to be let into the account with a proof that it
-- has an export of it; the user, or a password, decides. The Crypto++ library and the
-- CryptoController are parameters.
use qt_data_sync.Common.{
  ℕ, Bool, true, false, Option, none, some, List, [], ◌∷◌, ◌++◌, if◌then◌else◌,
}
use qt_data_sync.Common.Equality.{◌==◌, bytes_eq, nat_eq}
use qt_data_sync.Json.{Bytes}
use qt_data_sync.Table.{get, delete_where}
use qt_data_sync.RemoteConnector.{
  Mode, idle, Sent, accept, deny, login_requested, Connection, emit, trigger_error,
}

-- ProofMessage; `keys` are its algorithms and public keys.
pub record ProofMessage : Type 0 where
  pub nonce : Bytes
  pub device : ℕ
  pub mac_scheme : Bytes
  pub cmac : Bytes
  pub keys : Bytes
  pub trustmac : Option Bytes

pub record CryptoController : Type 0 where
  -- QUuid::toRfc4122, of the null id for none
  pub to_rfc4122 : Option ℕ → Bytes
  -- the scheme, the key, the data and the mac
  pub verify_import_cmac : Bytes → Bytes → Bytes → Bytes → Bool
  pub verify_import_cmac_for_crypto : Bytes → Bytes → Bytes → Bytes → Bool
  -- AsymmetricCryptoInfo, if the keys can be read
  pub read_keys : Bytes → Option Bytes
  -- the secret key, if it can be encrypted for the keys and the message be signed
  pub encrypt_secret_key : Bytes → Option Bytes

abbrev pub is_idle : Mode → Bool
is_idle idle = true
is_idle _ = false

-- QHash::take
abbrev pub take_proof : ℕ → Connection → Connection
take_proof device s = record s { active_proofs = delete_where (λ d _. d == device) s.active_proofs }

abbrev pub take_export : Bytes → Connection → Connection
take_export nonce s = record s { exports = delete_where (λ n _. n == nonce) s.exports }

abbrev pub send : Sent → Connection → Connection
send m s = record s { sent = s.sent ++ m ∷ [] }

-- A key block without content is as good as none.
abbrev pub has_key : Option Bytes → Option Bytes
has_key none = none
has_key (some []) = none
has_key (some (b ∷ bs)) = some (b ∷ bs)

pub data ProofEvent : Type 0 where
  proof_received : ProofMessage → ProofEvent
  reply : ℕ → Bool → ProofEvent
  proof_expired : ℕ → ProofEvent

module _ (crypto : CryptoController) where
  abbrev pub send_accept : ℕ → Option Bytes → Connection → Connection
  send_accept device none s = send (deny device) s
  send_accept device (some secret) s = send (accept device secret) s

  abbrev pub answer_proof : ℕ → Bool → Option Bytes → Connection → Connection
  answer_proof device accepted none s = s
  answer_proof device true (some keys) s =
      send_accept device (crypto.encrypt_secret_key keys) (take_proof device s)
  answer_proof device false (some keys) s = send (deny device) (take_proof device s)

  unfoldable pub login_reply : ℕ → Bool → Connection → Connection
  login_reply device accepted s =
      if is_idle s.mode then answer_proof device accepted (get device s.active_proofs) s else s

  abbrev pub is_trusted : Bytes → Bytes → Bytes → Option Bytes → Bool
  is_trusted scheme key keys none = true
  is_trusted scheme key keys (some mac) = crypto.verify_import_cmac_for_crypto scheme key keys mac

  -- What a proof is checked for; the keys of the device if all is well.
  abbrev pub checked_keys : Bool → Option Bytes → (Bytes → Bool) → Option Bytes
  checked_keys false keys trusted = none
  checked_keys true none trusted = none
  checked_keys true (some keys) trusted = if trusted keys then some keys else none

  abbrev pub proven : Option ℕ → ProofMessage → Option Bytes → Option Bytes
  proven own p none = none
  proven own p (some key) =
      checked_keys
        (crypto.verify_import_cmac p.mac_scheme key
          (p.nonce ++ crypto.to_rfc4122 own ++ p.mac_scheme) p.cmac)
        (crypto.read_keys p.keys) (λ keys. is_trusted p.mac_scheme key keys p.trustmac)

  abbrev pub insert_proof : ℕ → Bytes → Connection → Connection
  insert_proof device keys s = record s {
    active_proofs = (device, keys) ∷ delete_where (λ d _. d == device) s.active_proofs;
  }

  -- With a trustmac nobody is asked.
  abbrev pub decide : Option Bytes → ℕ → Connection → Connection
  decide none device s = emit (login_requested device) s
  decide (some mac) device s = login_reply device true s

  abbrev pub settle_proof : ProofMessage → Option Bytes → Connection → Connection
  settle_proof p none s = send (deny p.device) s
  settle_proof p (some keys) s = decide p.trustmac p.device (insert_proof p.device keys s)

  unfoldable pub on_proof : ProofMessage → Connection → Connection
  on_proof p s =
      if is_idle s.mode
      then settle_proof p (proven s.device p (has_key (get p.nonce s.exports)))
          (take_export p.nonce s)
      else trigger_error true s

  -- The timer that on_proof starts.
  abbrev pub reject_late : ℕ → Option Bytes → Connection → Connection
  reject_late device none s = s
  reject_late device (some keys) s = send (deny device) (take_proof device s)

  unfoldable pub proof_timeout : ℕ → Connection → Connection
  proof_timeout device s = reject_late device (get device s.active_proofs) s

  abbrev pub proof_step : ProofEvent → Connection → Connection
  proof_step (proof_received p) s = on_proof p s
  proof_step (reply device accepted) s = login_reply device accepted s
  proof_step (proof_expired device) s = proof_timeout device s

  unfoldable pub proof_steps : List ProofEvent → Connection → Connection
  proof_steps [] s = s
  proof_steps (e ∷ es) s = proof_steps es (proof_step e s)
