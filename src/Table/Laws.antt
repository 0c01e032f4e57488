-- ===== src/Table/Laws.antt =====
-- What a table holds under a key after each statement.
use qt_data_sync.Common.{
  Bool, Option, none, some, [], ◌∷◌, ◌≡◌, refl, arith, inl, inr, Bool-cases, if◌then◌else◌, subst,
  sym, ◌∙◌, Option-cases, ◌≤◌, length,
}
use qt_data_sync.Common.Equality.{Keyed, ◌==◌, ==_iff, ==_refl, ne→false, false→ne}
use qt_data_sync.Table.{Table, update_where, delete_where, get, IsUnique}

module _ {ℓ} {V : Type ℓ} where
  abbrev pub map_if : (V → Bool) → (V → V) → Option V → Option V
  map_if p f none = none
  map_if p f (some v) = some (if p v then f v else v)

  abbrev pub drop_if : (V → Bool) → Option V → Option V
  drop_if p none = none
  drop_if p (some v) = if p v then none else some v

module _ {ℓ κ} {K : Type ℓ} {V : Type κ} ⦃e : Keyed K⦄ where
  pub get-update_where :
      (k : K) (p : K → V → Bool) (f : V → V) (t : Table K V)
      → get k (update_where p f t) ≡ map_if (p k) f (get k t)
  unfolding get update_where
  get-update_where k p f [] = refl
  get-update_where k p f ((j, v) ∷ t) = elim (Bool-cases (j == k)) [
    | inl h ↦ rw (h, (==_iff j k).0 h)
    | inr h ↦ rw h (get-update_where k p f t)
  ]

  pub get-delete_where-none :
      (k : K) (p : K → V → Bool) (t : Table K V) → get k t ≡ none → get k (delete_where p t) ≡ none
  unfolding get delete_where
  get-delete_where-none k p [] h = refl
  get-delete_where-none k p ((j, v) ∷ t) h = ground (arith, get-delete_where-none k p t)

  pub get-delete_where :
      (k : K) (p : K → V → Bool) (t : Table K V)
      → IsUnique t
      → get k (delete_where p t) ≡ drop_if (p k) (get k t)
  unfolding get delete_where
  get-delete_where k p [] u = refl
  get-delete_where k p ((j, v) ∷ t) u = elim (Bool-cases (j == k)) [
    | inl h ↦
        let e : j ≡ k = (==_iff j k).0 h in
        let n : get k t ≡ none = subst (λ x. get x t ≡ none) e u.0 in
        rw (h, ← e) (ground (arith, get-delete_where-none j p t u.0))
    | inr h ↦ ground (arith, h, get-delete_where k p t u.1)
  ]

  pub update_where-IsUnique :
      (p : K → V → Bool) (f : V → V) (t : Table K V) → IsUnique t → IsUnique (update_where p f t)
  unfolding update_where
  update_where-IsUnique p f [] u = tt
  update_where-IsUnique p f ((j, v) ∷ t) u =
      (rw (get-update_where j p f t, u.0), update_where-IsUnique p f t u.1)

  pub delete_where-IsUnique :
      (p : K → V → Bool) (t : Table K V) → IsUnique t → IsUnique (delete_where p t)
  unfolding delete_where
  delete_where-IsUnique p [] u = tt
  delete_where-IsUnique p ((j, v) ∷ t) u =
      ground (arith, delete_where-IsUnique p t u.1, get-delete_where-none j p t u.0)

module _ {ℓ κ} {K : Type ℓ} {V : Type κ} ⦃e : Keyed K⦄ (p : K) where
  pub get-update_self :
      (f : V → V) (t : Table K V) (v : V)
      → get p t ≡ some v
      → get p (update_where (λ k _. k == p) f t) ≡ some (f v)
  get-update_self f t v h = rw (get-update_where p (λ k _. k == p) f t, h, ==_refl p)

  pub get-update_other :
      (f : V → V) (t : Table K V) (k : K)
      → (p ≡ k → ⊥)
      → get k (update_where (λ k _. k == p) f t) ≡ get k t
  get-update_other f t k h = elim (Option-cases (get k t)) [
    | inl o ↦ rw (get-update_where k (λ k _. k == p) f t, o)
    | inr (v, o) ↦ rw (get-update_where k (λ k _. k == p) f t, o, ne→false k p (λ x. h (sym x)))
  ]

  pub delete-missing : (t : Table K V) → get p t ≡ none → delete_where (λ k _. k == p) t ≡ t
  unfolding get delete_where
  delete-missing [] h = refl
  delete-missing ((j, v) ∷ t) h = elim (Bool-cases (j == p)) [
    | inl q ↦ absurd (ground (arith, q, h))
    | inr q ↦ let n : get p t ≡ none = rw q at h in rw (q, delete-missing t n) refl
  ]

  pub get-delete_self : (t : Table K V) → get p (delete_where (λ k _. k == p) t) ≡ none
  unfolding get delete_where
  get-delete_self [] = refl
  get-delete_self ((j, v) ∷ t) = ground (arith, get-delete_self t)

  pub get-delete_other :
      (t : Table K V) (k : K) → (p ≡ k → ⊥) → get k (delete_where (λ k _. k == p) t) ≡ get k t
  unfolding get delete_where
  get-delete_other [] k h = refl
  get-delete_other ((j, v) ∷ t) k h = elim (Bool-cases (j == p)) [
    | inl q ↦ rw (q, ne→false j k (λ x. h (sym ((==_iff j p).0 q) ∙ x))) (get-delete_other t k h)
    | inr q ↦ ground (arith, q, get-delete_other t k h)
  ]

  pub get-cons_self : (t : Table K V) (v : V) → get p ((p, v) ∷ t) ≡ some v
  unfolding get
  get-cons_self t v = rw (==_refl p)

  pub get-cons_other : (t : Table K V) (v : V) (k : K) → (p ≡ k → ⊥) → get k ((p, v) ∷ t) ≡ get k t
  unfolding get
  get-cons_other t v k h = rw (ne→false p k h)

module _ {ℓ κ} {K : Type ℓ} {V : Type κ} where
  pub length-delete_where :
      (p : K → V → Bool) (t : Table K V) → length (delete_where p t) ≤ length t
  unfolding delete_where
  length-delete_where p [] = omega arith
  length-delete_where p ((j, v) ∷ t) = ground (arith, length-delete_where p t)

module _ {ℓ κ} {K : Type ℓ} {V : Type κ} ⦃e : Keyed K⦄ where
  -- What is left after a row was deleted was there before, under another key.
  pub get-deleted :
      (t : Table K V) (p k : K) (v : V)
      → get k (delete_where (λ j _. j == p) t) ≡ some v
      → (get k t ≡ some v) × (p ≡ k → ⊥)
  get-deleted t p k v h = elim (Bool-cases (p == k)) [
    | inl q ↦
        let n : get k (delete_where (λ j _. j == p) t) ≡ none =
          subst (λ x. get x (delete_where (λ j _. j == p) t) ≡ none) ((==_iff p k).0 q)
            (get-delete_self p t) in
        absurd (ground (arith, h, n))
    | inr q ↦ let n = false→ne p k q in (sym (get-delete_other p t k n) ∙ h, n)
  ]
