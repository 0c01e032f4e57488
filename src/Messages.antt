-- ===== src/Messages.antt =====
-- src/messages/message.cpp: a message is sent as the name of its class and then its properties in their
-- order, without their types; a signed message is followed by the signature of all that.
pub mod Stream
pub mod Classes
pub mod RoundTrip
pub mod Signed
use qt_data_sync.Common.{
  ℕ, ◌-◌, Bool, true, false, String, Option, none, some, List, [], ◌∷◌, ◌++◌, if◌then◌else◌, length,
  take, leb,
}
use qt_data_sync.Common.Equality.{◌==◌, bytes_eq}
use qt_data_sync.Json.{Bytes}
use qt_data_sync.Messages.Stream.{Codec, DataStream, pair, utf8}
use qt_data_sync.Messages.Classes.{
  Kind, Value, Class, message_name, properties, all_classes, version, bytes, uint32, uint64,
  boolean, uuid, text, error_type, device_infos, device_key_list, key_updates, identify, login,
  register, access, error,
}

-- The values of the properties of a message.
abbrev pub Values : List Kind → Type 0
Values [] = Unit
Values (k ∷ ks) = Value k × Values ks

abbrev pub Message : Type 0
Message = (c : Class) × Values (properties c)

-- What is not under src/: the comparison of a version with InitMessage::CompatVersion, and the AsymmetricCrypto.
pub record Peer : Type 0 where
  pub is_older : List ℕ → Bool
  pub sign : Bytes → Bytes
  pub verify : Bytes → Bytes → Bool

-- InitMessage::NonceSize
abbrev nonce_size : ℕ
nonce_size = 16

-- QMetaEnum::valueToKey of an ErrorType; else it becomes UnknownError.
abbrev pub known_type : ℕ → ℕ
known_type n = if leb n 9 then n else 0

module _ (s : DataStream) where
  abbrev pub codec : (k : Kind) → Codec (Value k)
  codec bytes = s.bytes
  codec uint32 = s.uint32
  codec uint64 = s.uint64
  codec boolean = s.boolean
  codec uuid = s.uuid
  codec text = s.text
  codec Kind.utf8 = utf8 s
  codec version = s.version
  codec error_type = s.integer
  codec device_infos = s.list (pair s.uuid (pair (utf8 s) s.bytes))
  codec device_key_list = s.list (pair s.uuid (pair s.bytes (pair s.bytes s.bytes)))
  codec key_updates = s.list (pair s.uuid (pair s.bytes s.bytes))

  unfoldable pub write_values : (ks : List Kind) → Values ks → Bytes
  write_values [] vs = []
  write_values (k ∷ ks) vs = (codec k).write vs.0 ++ write_values ks vs.1

  abbrev pub with_rest :
      (k : Kind) (ks : List Kind)
      → Option (Value k × Bytes)
      → (Bytes → Option (Values ks × Bytes))
      → Option (Values (k ∷ ks) × Bytes)
  with_rest k ks none f = none
  with_rest k ks (some (v, rest)) f = elim (f rest) [ none ↦ none | some r ↦ some ((v, r.0), r.1) ]

  unfoldable pub read_values : (ks : List Kind) → Bytes → Option (Values ks × Bytes)
  read_values [] b = some (tt, b)
  read_values (k ∷ ks) b = with_rest k ks ((codec k).read b) (read_values ks)

  abbrev pub write_name : Class → Bytes
  write_name c = s.bytes.write (s.to_utf8 (message_name c))

  unfoldable pub serialize : Message → Bytes
  serialize m = write_name m.0 ++ write_values (properties m.0) m.1

  -- isType, tried one after the other.
  abbrev pub class_named : Bytes → List Class → Option Class
  class_named name [] = none
  class_named name (c ∷ cs) =
      let rest = class_named name cs in if s.to_utf8 (message_name c) == name then some c else rest

  module _ (p : Peer) where
    -- A version that is too old is an exception, a short nonce invalid.
    abbrev pub valid_start : List ℕ → Bytes → Bool
    valid_start v nonce = if p.is_older v then false else leb nonce_size (length nonce)

    abbrev pub validate : (c : Class) → Values (properties c) → Option (Values (properties c))
    validate identify vs = if valid_start vs.0 vs.1.0 then some vs else none
    validate login vs = if valid_start vs.0 vs.1.0 then some vs else none
    validate register vs = if valid_start vs.0 vs.1.0 then some vs else none
    validate access vs = if valid_start vs.0 vs.1.0 then some vs else none
    validate error vs = some (known_type vs.0, vs.1)
    validate _ vs = some vs

    abbrev pub finish_read :
        (c : Class) → Option (Values (properties c) × Bytes) → Option (Message × Bytes)
    finish_read c none = none
    finish_read c (some (vs, rest)) = elim (validate c vs) [
      | none ↦ none
      | some ws ↦ some ((c, ws), rest)
    ]

    -- An exception is `none`.
    unfoldable pub deserialize_message : Class → Bytes → Option (Message × Bytes)
    deserialize_message c b = finish_read c (read_values (properties c) b)

    abbrev pub of_class : Option Class → Bytes → Option (Message × Bytes)
    of_class none b = none
    of_class (some c) b = deserialize_message c b

    abbrev pub after_name : Option (Bytes × Bytes) → Option (Message × Bytes)
    after_name none = none
    after_name (some (name, rest)) = of_class (class_named name all_classes) rest

    -- What both ends do with a message that comes: its name says its class.
    unfoldable pub read_message : Bytes → Option (Message × Bytes)
    read_message b = after_name (s.bytes.read b)

    unfoldable pub serialize_signed : Message → Bytes
    serialize_signed m = serialize m ++ s.bytes.write (p.sign (serialize m))

    abbrev pub check_signature : Bytes → Option (Bytes × Bytes) → Option Bool
    check_signature content none = none
    check_signature content (some (signature, rest)) = some (p.verify content signature)

    -- The signature stands at `rest` of the message; what was read before it is what it signs.
    unfoldable pub verify_signature : Bytes → Bytes → Option Bool
    verify_signature whole rest =
        check_signature (take (length whole - length rest) whole) (s.bytes.read rest)
