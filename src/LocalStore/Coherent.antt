-- ===== src/LocalStore/Coherent.antt =====
-- The local data seen as one entry for each key, and what the tables and files must have in common
-- for that view: a row that names a file has the checksum of the document in it, and no two keys
-- share a file.
use qt_data_sync.Common.{
  ℕ, Bool, String, Option, none, some, ◌≡◌, ◌≢◌, sym, ◌⊎◌, inl, inr, Option-cases, Bool-cases,
  subst, ◌∙◌,
}
use qt_data_sync.Common.Equality.{◌==◌, ==_iff}
use qt_data_sync.Json.{Fields, json_hash}
use qt_data_sync.Environment.{ObjectKey, key_eq, FilePath, path_eq, Env}
use qt_data_sync.LocalStore.State.{Row, file_path}

pub data Entry : Type 0 where
  absent : Entry
  -- version, marked for upload
  tombstone : ℕ → Bool → Entry
  present : ℕ → Fields → Bool → Entry
  -- a row whose file is missing
  broken : Entry

abbrev pub read_row : Row → Option Fields → Entry
read_row r none = broken
read_row r (some d) = present r.version d r.changed

abbrev pub entry_of : Option Row → (String → Option Fields) → Entry
entry_of none read = absent
entry_of (some r) read = elim r.file [
  | none ↦ tombstone r.version r.changed
  | some n ↦ read_row r (read n)
]

abbrev pub Rows : Type 0
Rows = ObjectKey → Option Row

abbrev pub Docs : Type 0
Docs = FilePath → Option Fields

module _ {C : Type 0} (env : Env C) where
  unfoldable pub view : Rows → Docs → ObjectKey → Entry
  view rows docs k = entry_of (rows k) (λ n. docs (file_path env k n))

  pub record Coherent (rows : Rows) (docs : Docs) : Type 0 where
    pub matched :
        (k : ObjectKey) (r : Row) (n : String)
        → rows k ≡ some r
        → r.file ≡ some n
        → (d : Fields) × (docs (file_path env k n) ≡ some d)
          × (r.checksum ≡ some (json_hash env.text d))
    pub distinct :
        (k j : ObjectKey) (r q : Row) (n m : String)
        → rows k ≡ some r
        → r.file ≡ some n
        → rows j ≡ some q
        → q.file ≡ some m
        → file_path env k n ≡ file_path env j m
        → k ≡ j

  -- Only the row of `key` differs, and the documents of the other rows are as before.
  pub record Differs (key : ObjectKey) (rows rows' : Rows) (docs docs' : Docs) : Type 0 where
    pub same_row : (j : ObjectKey) → key ≢ j → rows' j ≡ rows j
    pub same_doc :
        (j : ObjectKey) (r : Row) (n : String)
        → key ≢ j
        → rows j ≡ some r
        → r.file ≡ some n
        → docs' (file_path env j n) ≡ docs (file_path env j n)

  -- The new row of `key`, if it names a file, is matched by a file that no other row names.
  pub record Fits (key : ObjectKey) (rows rows' : Rows) (docs' : Docs) : Type 0 where
    pub fits :
        (r : Row) (n : String)
        → rows' key ≡ some r
        → r.file ≡ some n
        → (d : Fields) × (docs' (file_path env key n) ≡ some d)
          × (r.checksum ≡ some (json_hash env.text d))
    pub alone :
        (r : Row) (n : String) (j : ObjectKey) (q : Row) (m : String)
        → rows' key ≡ some r
        → r.file ≡ some n
        → key ≢ j
        → rows j ≡ some q
        → q.file ≡ some m
        → file_path env key n ≢ file_path env j m

  key-cases : (k j : ObjectKey) → (k ≡ j) ⊎ (k ≢ j)
  key-cases k j = elim (Bool-cases (k == j)) [
    | inl h ↦ inl ((==_iff k j).0 h)
    | inr h ↦ inr (λ e. cc (h, (==_iff k j).1 e))
  ]

  module _ (key : ObjectKey) (rows rows' : Rows) (docs docs' : Docs) (c : Coherent rows docs)
      (d : Differs key rows rows' docs docs') where
    pub view-Differs : (j : ObjectKey) → key ≢ j → view rows' docs' j ≡ view rows docs j
    unfolding view
    view-Differs j h = elim (Option-cases (rows j)) [
      | inl e ↦ rw (d.same_row j h, e)
      | inr (r, e) ↦ elim (Option-cases r.file) [
        | inl f ↦ rw (d.same_row j h, e, f)
        | inr (n, f) ↦ rw (d.same_row j h, e, f, d.same_doc j r n h e f)
      ]
    ]

    module _ (f : Fits key rows rows' docs') where
      old_row : (k : ObjectKey) (r : Row) → key ≢ k → rows' k ≡ some r → rows k ≡ some r
      old_row k r other e = sym (d.same_row k other) ∙ e

      clash :
          (k j : ObjectKey) (r q : Row) (n m : String)
          → key ≡ k
          → key ≢ j
          → rows' k ≡ some r
          → r.file ≡ some n
          → rows' j ≡ some q
          → q.file ≡ some m
          → file_path env k n ≢ file_path env j m
      clash k j r q n m same other ek fk ej fj =
          subst (λ x. rows' x ≡ some r → file_path env x n ≢ file_path env j m) same
            (λ ex. f.alone r n j q m ex fk other (old_row j q other ej) fj) ek

      new_matched :
          (k : ObjectKey) (r : Row) (n : String)
          → rows' k ≡ some r
          → r.file ≡ some n
          → (x : Fields) × (docs' (file_path env k n) ≡ some x)
            × (r.checksum ≡ some (json_hash env.text x))
      new_matched k r n e g = elim (key-cases key k) [
        | inl same ↦
            subst
              (λ y.
                rows' y ≡ some r
                → (x : Fields) × (docs' (file_path env y n) ≡ some x)
                  × (r.checksum ≡ some (json_hash env.text x)))
              same (λ ey. f.fits r n ey g) e
        | inr other ↦
            rw (d.same_doc k r n other (old_row k r other e) g)
              (c.matched k r n (old_row k r other e) g)
      ]

      new_distinct :
          (k j : ObjectKey) (r q : Row) (n m : String)
          → rows' k ≡ some r
          → r.file ≡ some n
          → rows' j ≡ some q
          → q.file ≡ some m
          → file_path env k n ≡ file_path env j m
          → k ≡ j
      new_distinct k j r q n m ek fk ej fj p = elim (key-cases key k) [
        | inl a ↦ elim (key-cases key j) [
          | inl b ↦ sym a ∙ b
          | inr b ↦ absurd (clash k j r q n m a b ek fk ej fj p)
        ]
        | inr a ↦ elim (key-cases key j) [
          | inl b ↦ absurd (clash j k q r m n b a ej fj ek fk (sym p))
          | inr b ↦ c.distinct k j r q n m (old_row k r a ek) fk (old_row j q b ej) fj p
        ]
      ]

      pub Differs-Coherent : Coherent rows' docs'
      Differs-Coherent = record { matched = new_matched; distinct = new_distinct }
