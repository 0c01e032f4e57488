-- ===== src/Exec.antt =====
-- Methods that change an object and may throw. What was written before a throw stays written, so
-- the state comes back beside the exception too.
pub mod Triple
use qt_data_sync.Common.{◌≡◌, ap}

pub data Result {ℓ} (E A : Type ℓ) : Type ℓ where
  ok : A → Result E A
  err : E → Result E A

abbrev pub Exec : Type 0 → Type 0 → Type 0 → Type 0
Exec E S A = S → Result E A × S

module _ {E S : Type 0} where
  abbrev pub continue : {A B : Type 0} → Result E A → (A → Exec E S B) → Exec E S B
  continue (ok a) f s = f a s
  continue (err e) f s = (err e, s)

  infixl 5 ◌>>=◌ ◌>>◌
  unfoldable pub ◌>>=◌ : {A B : Type 0} → Exec E S A → (A → Exec E S B) → Exec E S B
  ◌>>=◌ m f s = let (r, s') = m s in continue r f s'

  unfoldable pub ◌>>◌ : {A B : Type 0} → Exec E S A → Exec E S B → Exec E S B
  unfolding ◌>>=◌
  m >> k = m >>= λ _. k

  unfoldable pub pure : {A : Type 0} → A → Exec E S A
  pure a s = (ok a, s)

  unfoldable pub throw : {A : Type 0} → E → Exec E S A
  throw e s = (err e, s)

  unfoldable pub gets : {A : Type 0} → (S → A) → Exec E S A
  gets f s = (ok (f s), s)

  unfoldable pub modify : (S → S) → Exec E S (Unit {0})
  modify f s = (ok tt, f s)

  abbrev recover : {A : Type 0} → Result E A → (E → Exec E S A) → Exec E S A
  recover (ok a) h s = (ok a, s)
  recover (err e) h s = h e s

  -- try { m } catch(e) { h }
  unfoldable pub try_catch : {A : Type 0} → Exec E S A → (E → Exec E S A) → Exec E S A
  try_catch m h s = let (r, s') = m s in recover r h s'

  pub catch_ok :
      {A : Type 0} (m : Exec E S A) (h : E → Exec E S A) (s t : S) (a : A)
      → m s ≡ (ok a, t)
      → try_catch m h s ≡ (ok a, t)
  unfolding try_catch
  catch_ok m h s t a e = ap (λ p. recover p.0 h p.1) e

  pub catch_err :
      {A : Type 0} (m : Exec E S A) (h : E → Exec E S A) (s t : S) (x : E)
      → m s ≡ (err x, t)
      → try_catch m h s ≡ h x t
  unfolding try_catch
  catch_err m h s t x e = ap (λ p. recover p.0 h p.1) e
