-- ===== src/Json/Collisions.antt =====
-- What `jsonHash` cannot tell apart: `hashNext` adds no marks between values and no type tags.
use qt_data_sync.Common.{String, ◌++◌, ◌≡◌}
use qt_data_sync.Json.{
  Value, Fields, Text, string, array, nil, cons, field, hash_next, hash_items, hash_fields,
  json_hash,
}
use mathlib.Core.List.{append-nil, append_assoc}

-- A value in an array hashes as the value itself, so a field that holds `v` and a field that holds
-- `[v]` give equal checksums, whatever the hash function is and whatever follows.
pub json_hash_wrapped :
    (t : Text) (key : String) (v : Value) (rest : Fields)
    → json_hash t (field key (array (cons v nil)) rest) ≡ json_hash t (field key v rest)
unfolding json_hash hash_next hash_items hash_fields
json_hash_wrapped t key v rest = simp (json_hash, append-nil)

-- Two strings in an array hash as one string, if the UTF-8 text of that one is theirs joined:
-- such documents give equal checksums.
pub json_hash_split :
    (t : Text) (key a b c : String) (rest : Fields)
    → t.to_utf8 c ≡ t.to_utf8 a ++ t.to_utf8 b
    → json_hash t (field key (array (cons (string a) (cons (string b) nil))) rest)
      ≡ json_hash t (field key (string c) rest)
unfolding json_hash hash_next hash_items hash_fields
json_hash_split t key a b c rest h = simp (json_hash, h, append-nil, append_assoc)
