-- ===== src/CryptoController/Renewal.antt =====
-- A new exchange key: one device makes it and gives it to another, and both change over to it.
use qt_data_sync.Common.{
  ℕ, ◌+◌, ◌%◌, ◌^◌, ◌<◌, ◌≡◌, refl, arith, inl, inr, Bool, true, false, none, some, [], ◌∷◌, ◌&&◌,
  if◌then◌else◌, length, ltb, Bool-cases,
}
use qt_data_sync.Common.Equality.{◌==◌, ==_iff, nat_eq, ==_refl}
use qt_data_sync.Table.{Table, get, delete_where}
use qt_data_sync.Table.Laws.{get-cons_self}
use qt_data_sync.Exec.{ok, pure, gets, modify, ◌>>=◌, ◌>>◌}
use qt_data_sync.CryptoController.{
  CipherInfo, Library, Keyring, Preferences, preferred_scheme, set, attempt, on_disk, get_info,
  store_cipher_key, is_old, has_scheme, clean_ciphers, key_length, create_info, is_pending,
  generate_next_key, activate_next_key, decrypt_secret_key,
}
use qt_data_sync.CryptoController.Exchange.{IsLawful, calm, key_at, IsSized}

get-delete_where_kept :
    {V : Type 0} (p : ℕ → V → Bool) (k : ℕ) (t : Table ℕ V)
    → ((v : V) → p k v ≡ false)
    → get k (delete_where p t) ≡ get k t
unfolding get delete_where
get-delete_where_kept p k [] h = refl
get-delete_where_kept p k ((j, v) ∷ t) h =
    by_key (get-delete_where_kept p k t h) (j == k) (p j v) refl refl
  where
    by_key :
        (get k (delete_where p t) ≡ get k t)
        → (b c : Bool) → (j == k) ≡ b
        → p j v ≡ c
        → get k (if c then delete_where p t else (j, v) ∷ delete_where p t)
          ≡ (if b then some v else get k t)
    by_key rest true true q e = absurd (
        let s : j ≡ k = (==_iff j k).0 q in
        let f : p j v ≡ false = rw s (h v) in ground (arith, e, f))
    by_key rest true false q e = rw q refl
    by_key rest false true q e = rest
    by_key rest false false q e = rw q rest

module _ {P : Type 0} (lib : Library P) where
  -- The device uses the key for the index, and would read the same from its files.
  pub record Uses (i : ℕ) (info : CipherInfo) (r : Keyring P) : Type 0 where
    pub local : r.local_cipher ≡ i
    pub known : key_at lib i r ≡ some info
    pub stored : on_disk lib i r ≡ some info

  abbrev stored_state : ℕ → CipherInfo → Keyring P → Keyring P
  stored_state i info r = record r {
    files = set i (lib.encrypt r.pair info.key) r.files;
    schemes = set i (lib.algorithm_name info.scheme) r.schemes;
  }

  store_lem :
      (i : ℕ) (info : CipherInfo) (r : Keyring P)
      → get i r.loaded ≡ some info
      → store_cipher_key lib i (calm r) ≡ (ok tt, stored_state i info (calm r))
  unfolding store_cipher_key get_info attempt gets modify pure ◌>>=◌ ◌>>◌
  store_lem i info r h = rw h refl

  -- The file and the scheme that are written give the key back.
  stored_disk :
      (i : ℕ) (info : CipherInfo) (r : Keyring P)
      → IsLawful lib
      → IsSized lib info
      → on_disk lib i (stored_state i info r) ≡ some info
  stored_disk i info r l z =
      rw
        (
          get-cons_self i _ (lib.algorithm_name info.scheme),
          get-cons_self i _ (lib.encrypt r.pair info.key),
          l.named info.scheme,
          l.decrypt-encrypt r.pair info.key,
          z,
          ==_refl (length info.key),
        )
        refl

  cleaned : Keyring P → Keyring P
  cleaned r = record r {
    files = delete_where (λ i _. is_old lib r.local_cipher i && has_scheme lib i r) r.files;
    loaded = delete_where (λ i _. is_old lib r.local_cipher i && has_scheme lib i r) r.loaded;
    schemes = delete_where (λ i _. is_old lib r.local_cipher i) r.schemes;
  }

  clean_lem : (r : Keyring P) → clean_ciphers lib (calm r) ≡ (ok tt, cleaned (calm r))
  unfolding clean_ciphers attempt gets modify pure ◌>>=◌ ◌>>◌ cleaned
  clean_lem r = refl

  young : (i : ℕ) → i + 5 < 2 ^ 32 → ltb ((i + 5) % 2 ^ 32) i ≡ false
  young i h = ground arith

  -- The key in use is never cleaned up.
  cleaned-Uses :
      (i : ℕ) (info : CipherInfo) (r : Keyring P)
      → i + 5 < 2 ^ 32
      → Uses i info r
      → Uses i info (cleaned r)
  unfolding cleaned
  cleaned-Uses i info r h u =
      let o : is_old lib r.local_cipher i ≡ false = rw u.local (young i h) in
      let a =
        get-delete_where_kept (λ j _. is_old lib r.local_cipher j && has_scheme lib j r) i r.files
          (λ v. rw o refl) in
      let b =
        get-delete_where_kept (λ j _. is_old lib r.local_cipher j && has_scheme lib j r) i r.loaded
          (λ v. rw o refl) in
      let c = get-delete_where_kept (λ j _. is_old lib r.local_cipher j) i r.schemes (λ v. o) in
      record { local = u.local; known = rw (a, b, c) u.known; stored = rw (a, c) u.stored }

  abbrev using : ℕ → Keyring P → Keyring P
  using i r = record r { local_cipher = i; stored_index = some i }

  activate_lem :
      (i : ℕ) (info : CipherInfo) (r : Keyring P)
      → get i r.loaded ≡ some info
      → (r.local_cipher + 1) % 2 ^ 32 ≡ i
      → r.next_key ≡ some i
      → activate_next_key lib i (calm r)
        ≡ (ok tt, cleaned (record (using i (calm r)) { next_key = none }))
  unfolding activate_next_key get_info gets modify pure ◌>>=◌ ◌>>◌
  activate_lem i info r h e n =
      rw (e, n, ==_refl i, h, clean_lem (record (using i r) { next_key = none })) refl

  adopted : ℕ → CipherInfo → Keyring P → Keyring P
  adopted i info r = using i (stored_state i info (record r { loaded = set i info r.loaded }))

  adopt_lem :
      (i : ℕ) (info : CipherInfo) (r : Keyring P)
      → IsLawful lib
      → ltb r.local_cipher i ≡ true
      → decrypt_secret_key lib i
          (lib.algorithm_name info.scheme)
          (lib.encrypt r.pair info.key)
          false
          (calm r)
        ≡ (ok tt, cleaned (adopted i info (calm r)))
  unfolding decrypt_secret_key gets modify pure ◌>>=◌ ◌>>◌ adopted
  adopt_lem i info r l h =
      let r' = record r { loaded = set i info r.loaded } in
      rw
        (
          l.decrypt-encrypt r.pair info.key,
          l.named info.scheme,
          store_lem i info r' (get-cons_self i (delete_where (λ j _. j == i) r.loaded) info),
          h,
          clean_lem (using i (stored_state i info r')),
        )
        refl

  adopted-Uses :
      (i : ℕ) (info : CipherInfo) (r : Keyring P)
      → IsLawful lib
      → IsSized lib info
      → Uses i info (adopted i info r)
  unfolding adopted
  adopted-Uses i info r l z = record {
    local = refl;
    known = rw (get-cons_self i (delete_where (λ j _. j == i) r.loaded) info) refl;
    stored = stored_disk i info (record r { loaded = set i info r.loaded }) l z;
  }

  module _ (prefer : Preferences) where
    -- The key that createInfo makes.
    abbrev pub fresh : Keyring P → CipherInfo
    fresh r = record {
      scheme = preferred_scheme prefer.scheme;
      key = lib.block r.draws (key_length lib prefer);
    }

    fresh-IsSized : (r : Keyring P) → IsLawful lib → IsSized lib (fresh r)
    fresh-IsSized r l =
        rw (l.length-block r.draws (key_length lib prefer))
          (elim (Bool-cases (prefer.key_size == 0)) [
            | inl q ↦ rw q (l.default_fits (preferred_scheme prefer.scheme))
            | inr q ↦ rw q (l.made_fits (preferred_scheme prefer.scheme) prefer.key_size)
          ])

    abbrev loaded_state : ℕ → Keyring P → Keyring P
    loaded_state i r = record r { draws = r.draws + 1; loaded = set i (fresh r) r.loaded }

    abbrev made_state : ℕ → Keyring P → Keyring P
    made_state i r = record (stored_state i (fresh r) (loaded_state i r)) { next_key = some i }

    generate_lem :
        (r : Keyring P)
        → is_pending lib prefer ((r.local_cipher + 1) % 2 ^ 32) r.next_key ≡ false
        → generate_next_key lib prefer (calm r) ≡ (
          ok ((r.local_cipher + 1) % 2 ^ 32, lib.algorithm_name (fresh r).scheme),
          made_state ((r.local_cipher + 1) % 2 ^ 32) (calm r),
        )
    unfolding generate_next_key create_info gets modify pure ◌>>=◌ ◌>>◌
    generate_lem r h =
        let i = (r.local_cipher + 1) % 2 ^ 32 in
        rw
          (
            h,
            store_lem i (fresh r) (loaded_state i r)
                (get-cons_self i (delete_where (λ j _. j == i) r.loaded) (fresh r)),
          )
          refl

    made-Uses :
        (i : ℕ) (r : Keyring P)
        → IsLawful lib
        → Uses i
            (fresh r)
            (record (made_state i r) { local_cipher = i; stored_index = some i; next_key = none })
    made-Uses i r l = record {
      local = refl;
      known = rw (get-cons_self i (delete_where (λ j _. j == i) r.loaded) (fresh r)) refl;
      stored = stored_disk i (fresh r) (loaded_state i r) l (fresh-IsSized r l);
    }

    -- When no file fails, two devices use the keys of one index that is not close to its limit, and the
    -- first has no key prepared: generateNextKey gives the next index; when the key is encrypted for the
    -- second device and that device decrypts it, and the first activates it, both have returned, use that
    -- key under the next index, and would read it from their files.
    pub renewal-Uses :
        (a b : Keyring P)
        → IsLawful lib
        → b.local_cipher ≡ a.local_cipher
        → a.local_cipher + 6 < 2 ^ 32
        → is_pending lib prefer (a.local_cipher + 1) a.next_key ≡ false
        → let i = a.local_cipher + 1 in
          let made = generate_next_key lib prefer (calm a) in
          let name = lib.algorithm_name (fresh a).scheme in
          let first = activate_next_key lib i made.1 in
          let second =
            decrypt_secret_key lib i name (lib.encrypt b.pair (fresh a).key) false (calm b) in
          (made.0 ≡ ok (i, name))
          × (first.0 ≡ ok tt)
          × (second.0 ≡ ok tt)
          × Uses i (fresh a) first.1
          × Uses i (fresh a) second.1
    renewal-Uses a b l e n p =
        let i = a.local_cipher + 1 in
        let small : i % 2 ^ 32 ≡ i = omega arith in
        let g : generate_next_key lib prefer (calm a)
            ≡ (ok (i, lib.algorithm_name (fresh a).scheme), made_state i (calm a)) =
          rw small at (generate_lem a (rw small p)) in
        let f =
          activate_lem i (fresh a) (made_state i (calm a))
            (get-cons_self i (delete_where (λ j _. j == i) a.loaded) (fresh a)) small refl in
        let newer : ltb b.local_cipher i ≡ true = ground (arith, e) in
        let s = adopt_lem i (fresh a) b l newer in
        (
          rw g refl,
          rw (g, f) refl,
          rw s refl,
          rw (g, f) (cleaned-Uses i (fresh a) _ (omega arith) (made-Uses i (calm a) l)),
          rw s (
              cleaned-Uses i (fresh a) _ (omega arith)
                (adopted-Uses i (fresh a) (calm b) l (fresh-IsSized a l))),
        )
