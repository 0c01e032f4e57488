-- ===== src/Messages/Signed.antt =====
-- What the signature of a message is checked against.
use qt_data_sync.Common.{
  ◌-◌, ◌<◌, ◌^◌, ◌≡◌, refl, sym, ap, ◌∙◌, arith, some, [], ◌∷◌, ◌++◌, append-nil, length,
  length-append, take,
}
use qt_data_sync.Json.{Bytes}
use qt_data_sync.Messages.Stream.{DataStream, IsLawful}
use qt_data_sync.Messages.Classes.{Class, properties}
use qt_data_sync.Messages.{
  Values, Peer, serialize, validate, read_message, serialize_signed, check_signature,
  verify_signature,
}
use qt_data_sync.Messages.RoundTrip.{AllFit, HasNames, read-serialize}

take-append : (xs ys : Bytes) → take (length xs) (xs ++ ys) ≡ xs
take-append [] ys = refl
take-append (x ∷ xs) ys = ap (λ zs. x ∷ zs) (take-append xs ys)

rest_length : (xs ys : Bytes) → length (xs ++ ys) - length ys ≡ length xs
rest_length xs ys = omega (arith, length-append xs ys)

module _ (s : DataStream) (l : IsLawful s) (p : Peer) where
  -- A signed message is read as the message that was sent, and its signature is checked against all the
  -- bytes that were signed and nothing else, if Qt reads what it writes and the names of the classes too,
  -- the values are of the properties' types and valid, and the signature is not too long.
  pub read-serialize_signed :
      (c : Class) (vs : Values (properties c))
      → HasNames s
      → AllFit s (properties c) vs
      → validate s p c vs ≡ some vs
      → length (p.sign (serialize s (c, vs))) < 2 ^ 32
      → let whole = serialize_signed s p (c, vs) in
        let rest = s.bytes.write (p.sign (serialize s (c, vs))) in
        (read_message s p whole ≡ some ((c, vs), rest))
        × (verify_signature s p whole rest
            ≡ some (p.verify (serialize s (c, vs)) (p.sign (serialize s (c, vs)))))
  unfolding serialize_signed verify_signature
  read-serialize_signed c vs n h v k =
      let content = serialize s (c, vs) in
      let signature = p.sign content in
      let rest = s.bytes.write signature in
      (
        read-serialize s l p c vs rest n h v,
        ap (λ b. check_signature s p b (s.bytes.read rest))
              (ap (λ m. take m (content ++ rest)) (rest_length content rest)
                ∙ take-append content rest)
            ∙ ap (check_signature s p content)
                (ap s.bytes.read (sym (append-nil rest)) ∙ l.bytes signature k []),
      )
