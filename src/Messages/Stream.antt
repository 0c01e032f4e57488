-- ===== src/Messages/Stream.antt =====
-- QDataStream as the messages use it (src/messages/message.cpp, message_p.h). What Qt writes and reads for its own types is
-- a parameter; an operator that fails makes the transaction fail, so that nothing is read.
use qt_data_sync.Common.{
  ℕ, ◌<◌, ◌^◌, ◌≡◌, refl, ap, ◌∙◌, Bool, String, Option, none, some, List, ◌++◌, append_assoc,
  length, All, if◌then◌else◌,
}
use qt_data_sync.Common.Equality.{◌==◌, bytes_eq, ==_refl}
use qt_data_sync.Json.{Bytes}

-- The operators << and >> for a type.
pub record Codec (A : Type 0) : Type 0 where
  pub write : A → Bytes
  pub read : Bytes → Option (A × Bytes)

-- What was written is read, and nothing of what follows.
abbrev pub Reads : {A : Type 0} → Codec A → A → Type 0
Reads c a = (rest : Bytes) → c.read (c.write a ++ rest) ≡ some (a, rest)

pub record DataStream : Type 1 where
  pub bytes : Codec Bytes
  pub uint32 : Codec ℕ
  pub uint64 : Codec ℕ
  pub boolean : Codec Bool
  pub uuid : Codec ℕ
  pub text : Codec String
  pub version : Codec (List ℕ)
  pub integer : Codec ℕ
  pub list : {A : Type 0} → Codec A → Codec (List A)
  -- QString::toUtf8 and QString::fromUtf8
  pub to_utf8 : String → Bytes
  pub from_utf8 : Bytes → String

-- Qt's documentation: what fits is read as it was written.
pub record IsLawful (s : DataStream) : Type 1 where
  pub bytes : (b : Bytes) → length b < 2 ^ 32 → Reads s.bytes b
  pub uint32 : (n : ℕ) → n < 2 ^ 32 → Reads s.uint32 n
  pub uint64 : (n : ℕ) → n < 2 ^ 64 → Reads s.uint64 n
  pub boolean : (b : Bool) → Reads s.boolean b
  pub uuid : (n : ℕ) → n < 2 ^ 128 → Reads s.uuid n
  pub text :
      (t : String) → length (s.to_utf8 t) < 2 ^ 32 → s.from_utf8 (s.to_utf8 t) ≡ t → Reads s.text t
  pub version : (v : List ℕ) → length v < 2 ^ 32 → Reads s.version v
  pub integer : (n : ℕ) → n < 2 ^ 31 → Reads s.integer n
  pub list :
      {A : Type 0} (c : Codec A) (xs : List A)
      → length xs < 2 ^ 32
      → All (Reads c) xs
      → Reads (s.list c) xs

abbrev then_read :
    {A B : Type 0} → Option (A × Bytes) → (Bytes → Option (B × Bytes)) → Option ((A × B) × Bytes)
then_read none f = none
then_read (some (a, rest)) f = elim (f rest) [ none ↦ none | some r ↦ some ((a, r.0), r.1) ]

-- One after the other, as writeTuple and readTuple.
unfoldable pub pair : {A B : Type 0} → Codec A → Codec B → Codec (A × B)
pair c d = record {
  write = λ p. c.write p.0 ++ d.write p.1;
  read = λ b. then_read (c.read b) d.read;
}

pub pair-Reads :
    {A B : Type 0} (c : Codec A) (d : Codec B) (p : A × B)
    → Reads c p.0
    → Reads d p.1
    → Reads (pair c d) p
unfolding pair
pair-Reads c d p h k rest =
    ap (λ b. then_read (c.read b) d.read) (append_assoc (c.write p.0) (d.write p.1) rest)
    ∙ ap (λ r. then_read r d.read) (h (d.write p.1 ++ rest))
    ∙ ap (λ r. elim r [ none ↦ none | some x ↦ some ((p.0, x.0), x.1) ]) (k rest)

module _ (s : DataStream) where
  abbrev checked : Option (Bytes × Bytes) → Option (String × Bytes)
  checked none = none
  checked (some (b, rest)) =
      let t = s.from_utf8 b in if s.to_utf8 t == b then some (t, rest) else none

  -- Utf8String: bytes that are no UTF-8 are refused.
  unfoldable pub utf8 : Codec String
  utf8 = record { write = λ t. s.bytes.write (s.to_utf8 t); read = λ b. checked (s.bytes.read b) }

  pub utf8-Reads :
      IsLawful s
      → (t : String) → length (s.to_utf8 t) < 2 ^ 32
      → s.from_utf8 (s.to_utf8 t) ≡ t
      → Reads utf8 t
  unfolding utf8
  utf8-Reads l t n h rest =
      ap checked (l.bytes (s.to_utf8 t) n rest) ∙ rw (h, ==_refl (s.to_utf8 t)) refl
