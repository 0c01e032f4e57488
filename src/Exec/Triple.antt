-- ===== src/Exec/Triple.antt =====
-- What a method establishes from a precondition, whether it returns or throws: one rule for each
-- way to build a method.
use qt_data_sync.Common.{◌≡◌, refl, Bool, true, false, if◌then◌else◌}
use qt_data_sync.Exec.{Result, ok, err, Exec, ◌>>=◌, ◌>>◌, pure, throw, gets, modify, try_catch}

module _ {E S A : Type 0} where
  abbrev pub Post : (A → S → Type 0) → (E → S → Type 0) → Result E A × S → Type 0
  Post Q X (ok a, s) = Q a s
  Post Q X (err e, s) = X e s

  pub record Triple (P : S → Type 0) (m : Exec E S A) (Q : A → S → Type 0) (X : E → S → Type 0)
      : Type 0 where
    pub at : (s : S) → P s → Post Q X (m s)

  -- `P` holds before, and after, whether the method returns or throws.
  abbrev pub Keeps : (S → Type 0) → Exec E S A → Type 0
  Keeps P m = Triple P m (λ _. P) (λ _. P)

module _ {E S A : Type 0} {P : S → Type 0} where
  pub pure-Triple :
      (a : A) {Q : A → S → Type 0} {X : E → S → Type 0}
      → ((s : S) → P s → Q a s)
      → Triple P (pure a) Q X
  unfolding pure
  pure-Triple a h = record { at = h }

  pub throw-Triple :
      (e : E) {Q : A → S → Type 0} {X : E → S → Type 0}
      → ((s : S) → P s → X e s)
      → Triple P (throw e) Q X
  unfolding throw
  throw-Triple e h = record { at = h }

  pub gets-Triple :
      (f : S → A) {Q : A → S → Type 0} {X : E → S → Type 0}
      → ((s : S) → P s → Q (f s) s)
      → Triple P (gets f) Q X
  unfolding gets
  gets-Triple f h = record { at = h }

  pub pure-Keeps : (a : A) → Keeps {E = E} P (pure a)
  pure-Keeps a = pure-Triple a (λ s h. h)

  pub throw-Keeps : (e : E) → Keeps {A = A} P (throw e)
  throw-Keeps e = throw-Triple e (λ s h. h)

  pub gets-Keeps : (f : S → A) → Keeps {E = E} P (gets f)
  gets-Keeps f = gets-Triple f (λ s h. h)

module _ {E S : Type 0} {P : S → Type 0} where
  pub modify-Triple :
      (f : S → S) {Q : Unit → S → Type 0} {X : E → S → Type 0}
      → ((s : S) → P s → Q tt (f s))
      → Triple P (modify f) Q X
  unfolding modify
  modify-Triple f h = record { at = h }

  pub modify-Keeps : (f : S → S) → ((s : S) → P s → P (f s)) → Keeps {E = E} P (modify f)
  modify-Keeps f h = modify-Triple f h

module _ {E S A B : Type 0} {R : A → S → Type 0} {Q : B → S → Type 0} {X : E → S → Type 0} where
  continue-Post :
      (f : A → Exec E S B) (r : Result E A × S)
      → ((a : A) → Triple (R a) (f a) Q X)
      → Post R X r
      → Post Q X (◌>>=◌ (λ _. r) f r.1)
  unfolding ◌>>=◌
  continue-Post f (ok a, s) h p = (h a).at s p
  continue-Post f (err e, s) h p = p

  pub bind-Triple :
      {P : S → Type 0} (m : Exec E S A) (f : A → Exec E S B)
      → Triple P m R X
      → ((a : A) → Triple (R a) (f a) Q X)
      → Triple P (m >>= f) Q X
  unfolding ◌>>=◌
  bind-Triple m f hm hf = record { at = λ s h. continue-Post f (m s) hf (hm.at s h) }

module _ {E S A : Type 0} {Y : E → S → Type 0} {Q : A → S → Type 0} {X : E → S → Type 0} where
  recover-Post :
      (h : E → Exec E S A) (r : Result E A × S)
      → ((e : E) → Triple (Y e) (h e) Q X)
      → Post Q Y r
      → Post Q X (try_catch (λ _. r) h r.1)
  unfolding try_catch
  recover-Post h (ok a, s) t p = p
  recover-Post h (err e, s) t p = (t e).at s p

  pub catch-Triple :
      {P : S → Type 0} (m : Exec E S A) (h : E → Exec E S A)
      → Triple P m Q Y
      → ((e : E) → Triple (Y e) (h e) Q X)
      → Triple P (try_catch m h) Q X
  unfolding try_catch
  catch-Triple m h hm hh = record { at = λ s p. recover-Post h (m s) hh (hm.at s p) }

module _ {E S A B : Type 0} {P : S → Type 0} where
  pub bind-Keeps :
      (m : Exec E S A) (f : A → Exec E S B)
      → Keeps P m
      → ((a : A) → Keeps P (f a))
      → Keeps P (m >>= f)
  bind-Keeps m f hm hf = bind-Triple m f hm hf

  pub seq-Keeps : (m : Exec E S A) (k : Exec E S B) → Keeps P m → Keeps P k → Keeps P (m >> k)
  unfolding ◌>>◌
  seq-Keeps m k hm hk = bind-Triple m (λ _. k) hm (λ _. hk)

-- The rules for a `do` block, step by step.
module _ {E S A B : Type 0} {P R : S → Type 0} {Q : B → S → Type 0} {X : E → S → Type 0} where
  pub seq-Triple :
      {m : Exec E S A} {k : Exec E S B}
      → Triple P m (λ _. R) X
      → Triple R k Q X
      → Triple P (m >> k) Q X
  unfolding ◌>>◌
  seq-Triple {m} {k} hm hk = bind-Triple m (λ _. k) hm (λ _. hk)

  -- A step whose result is known.
  pub bind_eq-Triple :
      {m : Exec E S A} (f : A → Exec E S B) {a : A}
      → Triple P m (λ b s. (b ≡ a) × R s) X
      → Triple R (f a) Q X
      → Triple P (m >>= f) Q X
  bind_eq-Triple {m} f {a} hm hf =
      bind-Triple m f hm (λ b. record { at = λ s h. rw (h.0) (hf.at s h.1) })

module _ {E S A : Type 0} {Q Q' : A → S → Type 0} where
  consequence :
      (X : E → S → Type 0) (r : Result E A × S)
      → ((a : A) (s : S) → Q a s → Q' a s)
      → Post Q X r
      → Post Q' X r
  consequence X (ok a, s) h p = h a s p
  consequence X (err e, s) h p = p

  pub weaken-Triple :
      {P P' : S → Type 0} {X : E → S → Type 0} {m : Exec E S A}
      → ((s : S) → P' s → P s)
      → ((a : A) (s : S) → Q a s → Q' a s)
      → Triple P m Q X
      → Triple P' m Q' X
  weaken-Triple {m} pre post t = record { at = λ s h. consequence _ (m s) post (t.at s (pre s h)) }

module _ {E S A : Type 0} {P : S → Type 0} {Q : A → S → Type 0} {X : E → S → Type 0} where
  -- What does not depend on the state may be used from outside.
  pub fact-Triple :
      {F : Type 0} {m : Exec E S A} → (F → Triple P m Q X) → Triple (λ s. F × P s) m Q X
  fact-Triple h = record { at = λ s p. (h p.0).at s p.1 }

pub ruleset keeps_rules = (pure-Keeps, throw-Keeps, gets-Keeps, bind-Keeps, seq-Keeps)

-- What is kept implies something weaker where the method throws.
module _ {E S A : Type 0} (P R : S → Type 0) (weaker : (s : S) → P s → R s) where
  relaxed : (r : Result E A × S) → Post (λ _. P) (λ _. P) r → Post (λ _. P) (λ _. R) r
  relaxed (ok a, s) p = p
  relaxed (err e, s) p = weaker s p

  pub relax-Triple : {m : Exec E S A} → Keeps P m → Triple P m (λ _. P) (λ _. R)
  relax-Triple {m} k = record { at = λ s p. relaxed (m s) (k.at s p) }

-- A fact stays a fact.
module _ {E S A : Type 0} {K : Type 0} (k : K) where
  always : (r : Result E A × S) → Post (λ _ _. K) (λ _ _. Unit {0}) r
  always (ok a, s) = k
  always (err e, s) = tt

  pub known-Triple : {P : S → Type 0} {m : Exec E S A} → Triple P m (λ _ _. K) (λ _ _. Unit {0})
  known-Triple {m} = record { at = λ s p. always (m s) }

module _ {E S A : Type 0} {P : S → Type 0} {Q : A → S → Type 0} {X : E → S → Type 0} where
  -- Each branch may use what the test says.
  pub if-Triple :
      (b : Bool) {m k : Exec E S A}
      → (b ≡ true → Triple P m Q X)
      → (b ≡ false → Triple P k Q X)
      → Triple P (if b then m else k) Q X
  if-Triple true hm hk = hm refl
  if-Triple false hm hk = hk refl

  -- A precondition that is a fact.
  pub given-Triple :
      {F : Type 0} {m : Exec E S A}
      → (F → Triple P m Q X)
      → ((s : S) → F → P s)
      → Triple (λ _. F) m Q X
  given-Triple h p = record { at = λ s f. (h f).at s (p s f) }
