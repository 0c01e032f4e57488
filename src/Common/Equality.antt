-- ===== src/Common/Equality.antt =====
-- Equality tests of keys, as an interface with one operator.
use text.Mathlib.Text.{◌==◌ as str_eq}
use text.Mathlib.TextEquality.{eq_iff}
use qt_data_sync.Common.Tests.{nat_beq, nat_beq_iff, Bool-cases}
use Prim.Native.Nat.{ℕ}
use Prim.Native.String.{String}
use mathlib.Core.Path.{◌≡◌, refl}
use mathlib.Core.Logic.{◌↔◌, inl, inr}
use mathlib.Core.Bool.{Bool, true, false, ◌&&◌}
use mathlib.Core.List.{List, [], ◌∷◌}
use native.Mathlib.Omega.{arith}

pub record Keyed {ℓ} (K : Type ℓ) : Type ℓ where
  pub same : K → K → Bool
  pub same_iff : (j k : K) → (same j k ≡ true) ↔ (j ≡ k)

-- The instances compute to the tests that they are made of.
abbrev pub ◌==◌ {ℓ} : {K : Type ℓ} ⦃t : Keyed K⦄ → K → K → Bool
◌==◌ ⦃t⦄ = t.same

infix 50 ◌==◌
pub ==_iff {ℓ} : {K : Type ℓ} ⦃t : Keyed K⦄ (j k : K) → ((j == k) ≡ true) ↔ (j ≡ k)
==_iff ⦃t⦄ j k = t.same_iff j k

pub ==_refl {ℓ} : {K : Type ℓ} ⦃t : Keyed K⦄ (k : K) → (k == k) ≡ true
==_refl k = (==_iff k k).1 refl

instance abbrev pub nat_eq : Keyed ℕ
nat_eq = record { same = nat_beq; same_iff = nat_beq_iff }

abbrev pub bytes_beq : List ℕ → List ℕ → Bool
bytes_beq [] [] = true
bytes_beq [] (y ∷ ys) = false
bytes_beq (x ∷ xs) [] = false
bytes_beq (x ∷ xs) (y ∷ ys) = nat_beq x y && bytes_beq xs ys

pub bytes_beq_iff : (xs ys : List ℕ) → (bytes_beq xs ys ≡ true) ↔ (xs ≡ ys)
bytes_beq_iff [] [] = (λ h. refl, λ h. refl)
bytes_beq_iff [] (y ∷ ys) = (λ h. cc, λ h. cc)
bytes_beq_iff (x ∷ xs) [] = (λ h. cc, λ h. cc)
bytes_beq_iff (x ∷ xs) (y ∷ ys) =
    (λ h. ground (arith, bytes_beq_iff xs ys), λ h. ground (arith, bytes_beq_iff xs ys))

instance abbrev pub string_eq : Keyed String
string_eq = record { same = str_eq; same_iff = eq_iff }

instance abbrev pub bytes_eq : Keyed (List ℕ)
bytes_eq = record { same = bytes_beq; same_iff = bytes_beq_iff }

pub ne→false {ℓ} : {A : Type ℓ} ⦃e : Keyed A⦄ (a b : A) → (a ≡ b → ⊥) → (a == b) ≡ false
ne→false a b h = elim (Bool-cases (a == b)) [ inl t ↦ absurd (h ((==_iff a b).0 t)) | inr f ↦ f ]

pub false→ne {ℓ} : {A : Type ℓ} ⦃e : Keyed A⦄ (a b : A) → (a == b) ≡ false → a ≡ b → ⊥
false→ne a b h e = cc (h, (==_iff a b).1 e)

pub nat_beq_refl : (n : ℕ) → nat_beq n n ≡ true
nat_beq_refl n = ground arith

pub nat_beq_comm : (a b : ℕ) → nat_beq a b ≡ nat_beq b a
nat_beq_comm a b = ground arith
