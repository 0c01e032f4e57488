-- ===== src/Examples/Stores.antt =====
-- Two documents of one object, and stores that hold a single row.
use qt_data_sync.Common.{
  ℕ, Bool, true, String, Option, none, some, [], ◌∷◌, ◌≡◌, ◌≢◌, refl, sym, ap, subst, ◌∙◌, inl, inr,
  Bool-cases, arith,
}
use qt_data_sync.Common.Equality.{◌==◌, ==_iff, ==_refl}
use qt_data_sync.Json.{Fields, end, field, bool, string, json_hash, hash_next, hash_fields}
use qt_data_sync.Table.{get}
use qt_data_sync.Environment.{ObjectKey, key_eq, path_eq, Files}
use qt_data_sync.Emitter.{Emitter}
use qt_data_sync.LocalStore.State.{Row, Db, Store, file_path}
use qt_data_sync.LocalStore.Writes.{Sound, entry}
use qt_data_sync.LocalStore.Coherent.{present, tombstone, view}
use qt_data_sync.Examples.Setting.{env, qt}

abbrev pub key : ObjectKey
key = record { type_name = b'T' ∷ []; id = "id" }

abbrev pub short : Fields
short = field "a" (bool true) end

abbrev pub long : Fields
long = field "a" (string "longer") end

abbrev pub emitter : Emitter (Unit {0})
emitter = record { origin = 1; is_primary = true; cache = some tt; queued = []; signals = [] }

abbrev pub store_with : Db → Files → Store (Unit {0})
store_with db files = record {
  db = db;
  saved = none;
  files = files;
  emitter = emitter;
  outcomes = [];
}

abbrev pub row_of : Option String → Option ℕ → ℕ → Bool → Row
row_of name sum v c = record { version = v; file = name; checksum = sum; changed = c }

abbrev pub one_row : Row → Db
one_row r = record { index = (key, r) ∷ []; uploads = [] }

-- The object is there at a version, with its document.
abbrev pub holding : ℕ → Fields → Bool → Store (Unit {0})
holding v d c =
    store_with (one_row (row_of (some "f") (some (json_hash env.text d)) v c))
      ((file_path env key "f", d) ∷ [])

-- The object was deleted at a version.
abbrev pub deleted_at : ℕ → Bool → Store (Unit {0})
deleted_at v c = store_with (one_row (row_of none none v c)) []

only : (r : Row) (k : ObjectKey) (q : Row) → get k ((key, r) ∷ []) ≡ some q → (key ≡ k) × (r ≡ q)
unfolding get
only r k q e = elim (Bool-cases (key == k)) [
  | inl h ↦ ((==_iff key k).0 h, ground arith)
  | inr h ↦ absurd (ground arith)
]

some_eq : (a b : String) → some a ≡ some b → a ≡ b
some_eq a b e = cc

pair : {a b : ObjectKey} {m n : String} → a ≡ b → m ≡ n → ◌≡◌ {A = ObjectKey × String} (a, m) (b, n)
pair p q = cc (p, q)

found : (d : Fields) → get (file_path env key "f") ((file_path env key "f", d) ∷ []) ≡ some d
unfolding get
found d = rw (==_refl (file_path env key "f")) refl

pub holding-Sound :
    (v : ℕ) (d : Fields) (c : Bool) → Sound env (holding v d c).db (holding v d c).files
unfolding get
holding-Sound v d c = record {
  unique = (refl, tt);
  coherent = record {
    matched = λ k r n e f.
        let (same, row) = only _ k r e in
        let name : n ≡ "f" = some_eq n "f" (sym f ∙ sym (ap (λ x. x.file) row)) in
        (
          d,
          subst (λ x. get (file_path env x.0 x.1) ((file_path env key "f", d) ∷ []) ≡ some d)
              (pair same (sym name)) (found d),
          sym (ap (λ x. x.checksum) row),
        );
    distinct = λ k j r q n m e f g h p. sym (only _ k r e).0 ∙ (only _ j q g).0;
  };
}

none-some : (n : String) → none ≡ some n → ⊥
none-some n e = cc

pub deleted_at-Sound : (v : ℕ) (c : Bool) → Sound env (deleted_at v c).db (deleted_at v c).files
unfolding get
deleted_at-Sound v c = record {
  unique = (refl, tt);
  coherent = record {
    matched = λ k r n e f.
        let (same, row) = only _ k r e in absurd (none-some n (ap (λ x. x.file) row ∙ f));
    distinct = λ k j r q n m e f g h p. sym (only _ k r e).0 ∙ (only _ j q g).0;
  };
}

pub holding-entry :
    (v : ℕ) (d : Fields) (c : Bool)
    → entry env (holding v d c).db (holding v d c).files key ≡ present v d c
unfolding view get
holding-entry v d c = rw (==_refl key, found d) refl

pub deleted_at-entry :
    (v : ℕ) (c : Bool) → entry env (deleted_at v c).db (deleted_at v c).files key ≡ tombstone v c
unfolding view get
deleted_at-entry v c = rw (==_refl key) refl

-- Their checksums differ.
pub differ : json_hash env.text short ≢ json_hash env.text long
unfolding env qt json_hash hash_next hash_fields
differ e =
    let a : json_hash env.text short ≡ 5 = refl in
    let b : json_hash env.text long ≡ 7 = refl in cc (a, b, e)
