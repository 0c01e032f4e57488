-- ===== src/Examples/Wire.antt =====
-- A stream that writes numbers as they are and puts the length before a list, and messages on it.
use qt_data_sync.Common.{
  ℕ, zero, suc, ◌+◌, ◌≡◌, refl, ap, ◌∙◌, arith, Bool, true, false, String, Option, none, some, List,
  [], ◌∷◌, ◌++◌, length, All, append_assoc, if◌then◌else◌,
}
use qt_data_sync.Common.Equality.{◌==◌, bytes_eq, string_eq}
use qt_data_sync.Json.{Bytes}
use qt_data_sync.Messages.Stream.{Codec, Reads, DataStream, IsLawful}
use qt_data_sync.Messages.Classes.{
  Class, properties, message_name, all_classes, identify, login, register, access, account, grant,
  welcome, sync, change, change_ack, device_change, device_change_ack, changed, changed_info,
  last_changed, changed_ack, list_devices, devices, remove, remove_ack, proof, deny, accept,
  accept_ack, mac_update, mac_update_ack, key_change, device_keys, new_key, new_key_ack, error,
}
use qt_data_sync.Messages.{
  Peer, Values, serialize, read_message, serialize_signed, verify_signature,
}
use qt_data_sync.Messages.RoundTrip.{HasNames, read-serialize}
use qt_data_sync.Messages.Signed.{read-serialize_signed}

abbrev read_number : Bytes → Option (ℕ × Bytes)
read_number [] = none
read_number (n ∷ rest) = some (n, rest)

abbrev number : Codec ℕ
number = record { write = λ n. n ∷ []; read = read_number }

abbrev read_flag : Bytes → Option (Bool × Bytes)
read_flag [] = none
read_flag (zero ∷ rest) = some (false, rest)
read_flag (suc n ∷ rest) = some (true, rest)

abbrev write_flag : Bool → Bytes
write_flag true = 1 ∷ []
write_flag false = 0 ∷ []

flag-Reads : (b : Bool) (rest : Bytes) → read_flag (write_flag b ++ rest) ≡ some (b, rest)
flag-Reads true rest = refl
flag-Reads false rest = refl

module _ {A : Type 0} (c : Codec A) where
  abbrev write_all : List A → Bytes
  write_all [] = []
  write_all (x ∷ xs) = c.write x ++ write_all xs

  abbrev and_rest : Option (A × Bytes) → (Bytes → Option (List A × Bytes)) → Option (List A × Bytes)
  and_rest none f = none
  and_rest (some (x, rest)) f = elim (f rest) [ none ↦ none | some r ↦ some (x ∷ r.0, r.1) ]

  abbrev read_all : ℕ → Bytes → Option (List A × Bytes)
  read_all zero b = some ([], b)
  read_all (suc n) b = and_rest (c.read b) (read_all n)

  abbrev read_counted : Bytes → Option (List A × Bytes)
  read_counted [] = none
  read_counted (n ∷ rest) = read_all n rest

  abbrev counted : Codec (List A)
  counted = record { write = λ xs. length xs ∷ write_all xs; read = read_counted }

  counted-Reads :
      (xs : List A) (rest : Bytes)
      → All (Reads c) xs
      → read_all (length xs) (write_all xs ++ rest) ≡ some (xs, rest)
  counted-Reads [] rest h = refl
  counted-Reads (x ∷ xs) rest h =
      ap (λ b. and_rest (c.read b) (read_all (length xs)))
        (append_assoc (c.write x) (write_all xs) rest)
      ∙ ap (λ r. and_rest r (read_all (length xs))) (h.0 (write_all xs ++ rest))
      ∙ ap (λ o. elim o [ none ↦ none | some r ↦ some (x ∷ r.0, r.1) ]) (counted-Reads xs rest h.1)

numbers-Reads : (xs : Bytes) → Reads (counted number) xs
numbers-Reads xs rest = counted-Reads number xs rest (each xs)
  where
    each : (ys : Bytes) → All (Reads number) ys
    each [] = tt
    each (y ∷ ys) = (λ r. refl, each ys)

-- A text is the place of the class with that name.
abbrev place : String → List Class → ℕ
place t [] = 0
place t (c ∷ cs) = let rest = place t cs in if message_name c == t then 0 else rest + 1

abbrev name_at : ℕ → List Class → String
name_at n [] = ""
name_at zero (c ∷ cs) = message_name c
name_at (suc n) (c ∷ cs) = name_at n cs

abbrev from_places : Bytes → String
from_places [] = ""
from_places (n ∷ rest) = name_at n all_classes

abbrev text_codec : Codec String
text_codec = record {
  write = λ t. place t all_classes ∷ [];
  read = λ b. elim (read_number b) [ none ↦ none | some r ↦ some (name_at r.0 all_classes, r.1) ];
}

abbrev stream : DataStream
stream = record {
  bytes = counted number;
  uint32 = number;
  uint64 = number;
  boolean = record { write = write_flag; read = read_flag };
  uuid = number;
  text = text_codec;
  version = counted number;
  integer = number;
  list = λ c. counted c;
  to_utf8 = λ t. place t all_classes ∷ [];
  from_utf8 = from_places;
}

stream-IsLawful : IsLawful stream
stream-IsLawful = record {
  bytes = λ b h. numbers-Reads b;
  uint32 = λ n h rest. refl;
  uint64 = λ n h rest. refl;
  boolean = flag-Reads;
  uuid = λ n h rest. refl;
  text = λ t h e rest. ap (λ x. some (x, rest)) e;
  version = λ v h. numbers-Reads v;
  integer = λ n h rest. refl;
  list = λ c xs h r rest. counted-Reads c xs rest r;
}

stream-HasNames : HasNames stream
stream-HasNames identify = (omega arith, refl)
stream-HasNames login = (omega arith, refl)
stream-HasNames register = (omega arith, refl)
stream-HasNames access = (omega arith, refl)
stream-HasNames account = (omega arith, refl)
stream-HasNames grant = (omega arith, refl)
stream-HasNames welcome = (omega arith, refl)
stream-HasNames sync = (omega arith, refl)
stream-HasNames change = (omega arith, refl)
stream-HasNames change_ack = (omega arith, refl)
stream-HasNames device_change = (omega arith, refl)
stream-HasNames device_change_ack = (omega arith, refl)
stream-HasNames changed = (omega arith, refl)
stream-HasNames changed_info = (omega arith, refl)
stream-HasNames last_changed = (omega arith, refl)
stream-HasNames changed_ack = (omega arith, refl)
stream-HasNames list_devices = (omega arith, refl)
stream-HasNames devices = (omega arith, refl)
stream-HasNames remove = (omega arith, refl)
stream-HasNames remove_ack = (omega arith, refl)
stream-HasNames proof = (omega arith, refl)
stream-HasNames deny = (omega arith, refl)
stream-HasNames accept = (omega arith, refl)
stream-HasNames accept_ack = (omega arith, refl)
stream-HasNames mac_update = (omega arith, refl)
stream-HasNames mac_update_ack = (omega arith, refl)
stream-HasNames key_change = (omega arith, refl)
stream-HasNames device_keys = (omega arith, refl)
stream-HasNames new_key = (omega arith, refl)
stream-HasNames new_key_ack = (omega arith, refl)
stream-HasNames error = (omega arith, refl)

abbrev peer : Peer
peer = record {
  is_older = λ v. false;
  sign = λ b. length b ∷ [];
  verify = λ content signature. signature == length content ∷ [];
}

abbrev change_values : Values (properties change)
change_values = (1 ∷ 2 ∷ [], (7, (3 ∷ [], (4 ∷ 5 ∷ [], tt))))

read-serialize_example :
    read_message stream peer (serialize stream (change, change_values) ++ 9 ∷ [])
    ≡ some ((change, change_values), 9 ∷ [])
read-serialize_example =
    read-serialize stream stream-IsLawful peer change change_values (9 ∷ []) stream-HasNames
      (omega arith, (omega arith, (omega arith, (omega arith, tt)))) refl

read-serialize_signed_example :
    (read_message stream peer (serialize_signed stream peer (change, change_values))
      ≡ some (
        (change, change_values),
        stream.bytes.write (peer.sign (serialize stream (change, change_values))),
      ))
    × (verify_signature stream peer
          (serialize_signed stream peer (change, change_values))
          (stream.bytes.write (peer.sign (serialize stream (change, change_values))))
        ≡ some (
            peer.verify
              (serialize stream (change, change_values))
              (peer.sign (serialize stream (change, change_values)))))
read-serialize_signed_example =
    read-serialize_signed stream stream-IsLawful peer change change_values stream-HasNames
      (omega arith, (omega arith, (omega arith, (omega arith, tt)))) refl (omega arith)
