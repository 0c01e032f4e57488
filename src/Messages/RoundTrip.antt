-- ===== src/Messages/RoundTrip.antt =====
-- What one end sends the other end reads.
use qt_data_sync.Common.{
  ℕ, ◌<◌, ◌^◌, ◌≡◌, refl, sym, ap, ◌∙◌, inl, inr, String, none, some, List, [], ◌∷◌, ◌++◌,
  append_assoc, if◌then◌else◌, length, All, Bool-cases,
}
use qt_data_sync.Common.Equality.{◌==◌, ==_iff, ==_refl, ne→false, false→ne, bytes_eq, string_eq}
use qt_data_sync.Json.{Bytes}
use qt_data_sync.Messages.Stream.{Reads, DataStream, IsLawful, pair-Reads, utf8-Reads}
use qt_data_sync.Messages.Classes.{
  Kind, Value, Class, message_name, properties, all_classes, find_class, found, version, bytes,
  uint32, uint64, boolean, uuid, text, error_type, device_infos, device_key_list, key_updates,
}
use qt_data_sync.Messages.{
  Values, Peer, codec, write_values, with_rest, read_values, serialize, class_named, validate,
  finish_read, deserialize_message, of_class, after_name, read_message,
}

module _ (s : DataStream) where
  abbrev pub FitsBytes : Bytes → Type 0
  FitsBytes b = length b < 2 ^ 32

  abbrev pub FitsUtf8 : String → Type 0
  FitsUtf8 t = (length (s.to_utf8 t) < 2 ^ 32) × (s.from_utf8 (s.to_utf8 t) ≡ t)

  abbrev pub FitsUuid : ℕ → Type 0
  FitsUuid n = n < 2 ^ 128

  -- The values that the C++ types of the properties can have.
  abbrev pub Fits : (k : Kind) → Value k → Type 0
  Fits bytes v = FitsBytes v
  Fits uint32 v = v < 2 ^ 32
  Fits uint64 v = v < 2 ^ 64
  Fits boolean v = Unit
  Fits uuid v = FitsUuid v
  Fits text v = FitsUtf8 v
  Fits Kind.utf8 v = FitsUtf8 v
  Fits version v = length v < 2 ^ 32
  Fits error_type v = v < 2 ^ 31
  Fits device_infos v =
      (length v < 2 ^ 32) × All (λ d. FitsUuid d.0 × FitsUtf8 d.1.0 × FitsBytes d.1.1) v
  Fits device_key_list v =
      (length v < 2 ^ 32)
      × All (λ d. FitsUuid d.0 × FitsBytes d.1.0 × FitsBytes d.1.1.0 × FitsBytes d.1.1.1) v
  Fits key_updates v =
      (length v < 2 ^ 32) × All (λ d. FitsUuid d.0 × FitsBytes d.1.0 × FitsBytes d.1.1) v

  abbrev pub AllFit : (ks : List Kind) → Values ks → Type 0
  AllFit [] vs = Unit
  AllFit (k ∷ ks) vs = Fits k vs.0 × AllFit ks vs.1

  -- The names of the classes are read as they were written.
  abbrev pub HasNames : Type 0
  HasNames = (c : Class) → FitsUtf8 (message_name c)

All-map :
    {A : Type 0} (P Q : A → Type 0) (f : (a : A) → P a → Q a) (xs : List A) → All P xs → All Q xs
All-map P Q f [] h = tt
All-map P Q f (x ∷ xs) h = (f x h.0, All-map P Q f xs h.1)

module _ (s : DataStream) (l : IsLawful s) where
  codec-Reads : (k : Kind) (v : Value k) → Fits s k v → Reads (codec s k) v
  codec-Reads bytes v h = l.bytes v h
  codec-Reads uint32 v h = l.uint32 v h
  codec-Reads uint64 v h = l.uint64 v h
  codec-Reads boolean v h = l.boolean v
  codec-Reads uuid v h = l.uuid v h
  codec-Reads text v h = l.text v h.0 h.1
  codec-Reads Kind.utf8 v h = utf8-Reads s l v h.0 h.1
  codec-Reads version v h = l.version v h
  codec-Reads error_type v h = l.integer v h
  codec-Reads device_infos v h = l.list _ v h.0 (
      All-map _ _
        (λ d f.
          pair-Reads _ _ d (l.uuid d.0 f.0)
            (pair-Reads _ _ d.1 (utf8-Reads s l d.1.0 f.1.0 f.1.1) (l.bytes d.1.1 f.2)))
        v h.1)
  codec-Reads device_key_list v h = l.list _ v h.0 (
      All-map _ _
        (λ d f. pair-Reads _ _ d (l.uuid d.0 f.0) (
          pair-Reads _ _ d.1 (l.bytes d.1.0 f.1)
            (pair-Reads _ _ d.1.1 (l.bytes d.1.1.0 f.2) (l.bytes d.1.1.1 f.3))))
        v h.1)
  codec-Reads key_updates v h = l.list _ v h.0 (
      All-map _ _
        (λ d f.
          pair-Reads _ _ d (l.uuid d.0 f.0)
            (pair-Reads _ _ d.1 (l.bytes d.1.0 f.1) (l.bytes d.1.1 f.2)))
        v h.1)

  values-Reads :
      (ks : List Kind) (vs : Values ks) (rest : Bytes)
      → AllFit s ks vs
      → read_values s ks (write_values s ks vs ++ rest) ≡ some (vs, rest)
  unfolding read_values write_values
  values-Reads [] vs rest h = refl
  values-Reads (k ∷ ks) vs rest h =
      ap (λ b. with_rest s k ks ((codec s k).read b) (read_values s ks))
        (append_assoc ((codec s k).write vs.0) (write_values s ks vs.1) rest)
      ∙ ap (λ r. with_rest s k ks r (read_values s ks))
          (codec-Reads k vs.0 h.0 (write_values s ks vs.1 ++ rest))
      ∙ ap (λ r. elim r [ none ↦ none | some x ↦ some ((vs.0, x.0), x.1) ])
          (values-Reads ks vs.1 rest h.1)

  -- The names are told apart by their bytes.
  same-name : (a b : String) → FitsUtf8 s a → FitsUtf8 s b → (s.to_utf8 a == s.to_utf8 b) ≡ (a == b)
  same-name a b h k = elim (Bool-cases (a == b)) [
    | inl q ↦ rw ((==_iff a b).0 q) (==_refl (s.to_utf8 b) ∙ sym (==_refl b))
    | inr q ↦
        ne→false (s.to_utf8 a) (s.to_utf8 b)
          (λ e. false→ne a b q (sym h.1 ∙ ap s.from_utf8 e ∙ k.1))
        ∙ sym q
  ]

  named :
      HasNames s
      → (c : Class) (cs : List Class)
      → class_named s (s.to_utf8 (message_name c)) cs ≡ find_class (message_name c) cs
  named n c [] = refl
  named n c (d ∷ ds) =
      rw (same-name (message_name d) (message_name c) (n d) (n c))
        (ap (λ r. if message_name d == message_name c then some d else r) (named n c ds))

  module _ (p : Peer) where
    of_class-reads :
        (c : Class) (vs : Values (properties c)) (rest : Bytes)
        → AllFit s (properties c) vs
        → validate s p c vs ≡ some vs
        → of_class s p (some c) (write_values s (properties c) vs ++ rest) ≡ some ((c, vs), rest)
    unfolding deserialize_message
    of_class-reads c vs rest h v =
        ap (finish_read s p c) (values-Reads (properties c) vs rest h)
        ∙ ap (λ o. elim o [ none ↦ none | some ws ↦ some ((c, ws), rest) ]) v

    -- What is serialized from values that the types of the properties can have, and is valid, is read as
    -- the same message of the same class, and nothing of what follows is read, if Qt reads what it writes
    -- and the names of the classes too.
    pub read-serialize :
        (c : Class) (vs : Values (properties c)) (rest : Bytes)
        → HasNames s
        → AllFit s (properties c) vs
        → validate s p c vs ≡ some vs
        → read_message s p (serialize s (c, vs) ++ rest) ≡ some ((c, vs), rest)
    unfolding read_message serialize
    read-serialize c vs rest n h v =
        let name = s.to_utf8 (message_name c) in
        ap (λ b. after_name s p (s.bytes.read b))
          (append_assoc (s.bytes.write name) (write_values s (properties c) vs) rest)
        ∙ ap (after_name s p) (l.bytes name (n c).0 (write_values s (properties c) vs ++ rest))
        ∙ ap (λ o. of_class s p o (write_values s (properties c) vs ++ rest))
            (named n c all_classes ∙ found c)
        ∙ of_class-reads c vs rest h v
