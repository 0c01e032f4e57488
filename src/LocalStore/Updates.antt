-- ===== src/LocalStore/Updates.antt =====
-- One entry changes and the others stay: what each kind of write does to the view of the data.
use qt_data_sync.Common.{ℕ, Bool, String, none, some, ◌≡◌, ◌≢◌, arith, ap, ◌∙◌}
use qt_data_sync.Json.{Fields}
use qt_data_sync.Environment.{ObjectKey, FilePath, Env}
use qt_data_sync.LocalStore.State.{Row, file_path}
use qt_data_sync.LocalStore.Access.{changed_row}
use qt_data_sync.LocalStore.Coherent.{
  Entry, present, Rows, Docs, view, Coherent, Differs, Fits, view-Differs, Differs-Coherent,
}

module _ {C : Type 0} (env : Env C) where
  -- The entry of `key` becomes `e`, the others stay, and the view stays coherent.
  pub record Sets (key : ObjectKey) (e : Entry) (rows rows' : Rows) (docs docs' : Docs)
      : Type 0 where
    pub coherent : Coherent env rows' docs'
    pub here : view env rows' docs' key ≡ e
    pub others : (j : ObjectKey) → key ≢ j → view env rows' docs' j ≡ view env rows docs j

  -- No row but that of `key` names the file.
  abbrev pub Away : ObjectKey → Rows → FilePath → Type 0
  Away key rows p =
      (j : ObjectKey) (q : Row) (m : String)
      → key ≢ j
      → rows j ≡ some q
      → q.file ≡ some m
      → p ≢ file_path env j m

  module _ (key : ObjectKey) (rows : Rows) (docs : Docs) (c : Coherent env rows docs) where
    pub own_file :
        (r : Row) (n : String)
        → rows key ≡ some r
        → r.file ≡ some n
        → Away key rows (file_path env key n)
    own_file r n e f j q m other ej fj p = other (c.distinct key j r q n m e f ej fj p)

    pub new_file : (p : FilePath) → docs p ≡ none → Away key rows p
    new_file p h j q m other ej fj e =
        let (x, there, _) = c.matched j q m ej fj in cc (h, there, ap docs e)

    module _ (rows' : Rows) (docs' : Docs)
        (same : (j : ObjectKey) → key ≢ j → rows' j ≡ rows j) where
      pub same_docs-Differs :
          ((q : FilePath) → docs' q ≡ docs q) → Differs env key rows rows' docs docs'
      same_docs-Differs h = record {
        same_row = same;
        same_doc = λ j r n _ _ _. h (file_path env j n);
      }

      pub one_doc-Differs :
          (p : FilePath)
          → Away key rows p
          → ((q : FilePath) → p ≢ q → docs' q ≡ docs q)
          → Differs env key rows rows' docs docs'
      one_doc-Differs p away h = record {
        same_row = same;
        same_doc = λ j r n other e f. h (file_path env j n) (away j r n other e f);
      }

      finish :
          (e : Entry)
          → Differs env key rows rows' docs docs'
          → Fits env key rows rows' docs'
          → view env rows' docs' key ≡ e
          → Sets key e rows rows' docs docs'
      finish e d f h = record {
        coherent = Differs-Coherent env key rows rows' docs docs' c d f;
        here = h;
        others = view-Differs env key rows rows' docs docs' c d;
      }

      -- The data is written to a file of its own.
      pub written-Sets :
          (v : ℕ) (n : String) (d : Fields) (changed : Bool)
          → Away key rows (file_path env key n)
          → rows' key ≡ some (changed_row env v n d changed)
          → docs' (file_path env key n) ≡ some d
          → ((q : FilePath) → file_path env key n ≢ q → docs' q ≡ docs q)
          → Sets key (present v d changed) rows rows' docs docs'
      unfolding view
      written-Sets v n d changed away row doc rest =
          finish _ (one_doc-Differs _ away rest)
            (record {
              fits = λ r m e f.
                  let same_name : n ≡ m = ground arith in (d, rw (← same_name) doc, ground arith);
              alone = λ r m j q l e f.
                  let same_name : n ≡ m = ground arith in rw (← same_name) (away j q l);
            })
            (rw (row, doc))

      -- The row goes, or no longer names a file.
      pub dropped-Sets :
          (e : Entry)
          → Differs env key rows rows' docs docs'
          → ((r : Row) → rows' key ≡ some r → r.file ≡ none)
          → view env rows' docs' key ≡ e
          → Sets key e rows rows' docs docs'
      dropped-Sets e d h v =
          finish e d
            (record { fits = λ r m a f. cc (h r a, f); alone = λ r m j q l a f. cc (h r a, f) }) v

      -- The row names the file that it named, with the same checksum.
      pub kept-Sets :
          (r r' : Row)
          → rows key ≡ some r
          → rows' key ≡ some r'
          → r'.file ≡ r.file
          → r'.checksum ≡ r.checksum
          → ((q : FilePath) → docs' q ≡ docs q)
          → (e : Entry) → view env rows' docs' key ≡ e
          → Sets key e rows rows' docs docs'
      kept-Sets r r' old new file sum docs_same e v =
          finish e (same_docs-Differs docs_same)
            (record {
              fits = λ q m a f.
                  let (x, there, hash) = c.matched key r m old (ground arith) in
                  (x, docs_same (file_path env key m) ∙ there, ground arith);
              alone = λ q m j p l a f. own_file r m old (ground arith) j p l;
            })
            v
