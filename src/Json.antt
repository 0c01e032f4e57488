-- ===== src/Json.antt =====
-- The documents of src/datasync/synchelper.cpp: Qt's QJsonValue, and what `hashNext` feeds to the
-- hash. A double is its 64-bit pattern; texts are read through the functions of `Text`.
pub mod Collisions
use qt_data_sync.Common.{ℕ, Bool, true, false, String, List, [], ◌∷◌, ◌++◌}

-- An array of bytes, as QByteArray.
abbrev pub Bytes : Type 0
Bytes = List ℕ

mutual
  pub data Value : Type 0 where
    null undefined : Value
    bool : Bool → Value
    double : ℕ → Value
    string : String → Value
    array : Items → Value
    object : Fields → Value

  pub data Items : Type 0 where
    nil : Items
    cons : Value → Items → Items

  pub data Fields : Type 0 where
    end : Fields
    field : String → Value → Fields → Fields

-- Qt's conversions to bytes: QString::toUtf8 and QByteArray::number, and the hash function.
pub record Text : Type 0 where
  pub to_utf8 : String → Bytes
  pub number : ℕ → Bytes
  -- The 32 bytes of a SHA3-256 hash, read as a number with the first byte leading.
  pub sha3_256 : Bytes → ℕ

abbrev pub null_text : Bytes
null_text = b'n' ∷ b'u' ∷ b'l' ∷ b'l' ∷ []

abbrev pub true_text : Bytes
true_text = b't' ∷ b'r' ∷ b'u' ∷ b'e' ∷ []

abbrev pub false_text : Bytes
false_text = b'f' ∷ b'a' ∷ b'l' ∷ b's' ∷ b'e' ∷ []

-- The bytes that `hashNext` adds, in order.
unfoldable mutual
  pub hash_next : Text → Value → Bytes
  hash_next t null = null_text
  hash_next t undefined = []
  hash_next t (bool true) = true_text
  hash_next t (bool false) = false_text
  hash_next t (double d) = t.number d
  hash_next t (string s) = t.to_utf8 s
  hash_next t (array items) = hash_items t items
  hash_next t (object fields) = hash_fields t fields

  pub hash_items : Text → Items → Bytes
  hash_items t nil = []
  hash_items t (cons v items) = hash_next t v ++ hash_items t items

  pub hash_fields : Text → Fields → Bytes
  hash_fields t end = []
  hash_fields t (field key v fields) = t.to_utf8 key ++ (hash_next t v ++ hash_fields t fields)

unfoldable pub json_hash : Text → Fields → ℕ
json_hash t fields = t.sha3_256 (hash_next t (object fields))

unfoldable pub is_empty : Fields → Bool
is_empty end = true
is_empty (field key v fields) = false
