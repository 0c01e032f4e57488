-- ===== src/Server/Database/Removal.antt =====
-- What removing devices does to the users' quotas, and what a key exchange does to the key counts.
use qt_data_sync.Common.{
  ℕ, ◌+◌, Bool, true, false, none, some, List, [], ◌∷◌, ◌≡◌, refl, sym, ap, ◌∙◌, arith, ◌&&◌,
  length, Option-cases, Bool-cases, if◌then◌else◌, inl, inr, leb, ◌^◌,
}
use qt_data_sync.Common.Equality.{◌==◌, nat_eq, ==_iff, ==_refl}
use qt_data_sync.Json.{Bytes}
use qt_data_sync.Table.{Table, get, update_where, delete_where, select_where, IsUnique}
use qt_data_sync.Table.Laws.{get-update_where, get-delete_where, drop_if}
use qt_data_sync.Server.Database.{
  User, Device, DataChange, Db, Result, ok, err, other_error, ◌>>=◌, user_of, is_user, sub_quota,
  refund, delete_changes, delete_devices, is_none, same_user,
}
use qt_data_sync.Server.Database.Methods.{key_count_of, add_key_changes, update_exchange_key}

nobody : (n : ℕ) (users : Table ℕ User) → update_where (is_user none) (sub_quota n) users ≡ users
unfolding update_where
nobody n [] = refl
nobody n ((u, row) ∷ rest) = rw (nobody n rest) refl

abbrev orphan : Table ℕ Device → ℕ → DataChange → Bool
orphan left id c = is_none (get c.device left)

charges_nobody :
    (left : Table ℕ Device) (c : DataChange) (n : ℕ) (users : Table ℕ User)
    → get c.device left ≡ none
    → update_where (is_user (user_of c.device left)) (sub_quota n) users ≡ users
unfolding user_of
charges_nobody left c n users e = rw (e, user_of) (nobody n users)

orphans-refund :
    (left : Table ℕ Device) (changes : Table ℕ DataChange) (users : Table ℕ User)
    → refund left (select_where (orphan left) changes) users ≡ users
unfolding refund select_where user_of
orphans-refund left [] users = refl
orphans-refund left ((id, c) ∷ rest) users = elim (Option-cases (get c.device left)) [
  | inl n ↦ rw n (
      ap (refund left (select_where (orphan left) rest))
        (charges_nobody left c (length c.payload) users n)
      ∙ orphans-refund left rest users)
  | inr (row, o) ↦ rw o (orphans-refund left rest users)
]

dropped :
    (p : ℕ → Device → Bool) (left : Table ℕ Device) (id : ℕ) (c : DataChange) (row : Device)
    → get c.device left ≡ drop_if (p c.device) (some row)
    → drop_if (orphan left id) (some c) ≡ (if p c.device row then none else some c)
dropped p left id c row e = elim (Bool-cases (p c.device row)) [
  | inl t ↦ rw (e, t) refl
  | inr f ↦ rw (e, f) refl
]

-- When the tables of devices and of changes have unique keys, removing devices deletes the changes of
-- the devices that are removed and keeps those of the others, but leaves every user's row as it was:
-- what the deleted changes took from the quota is not given back.
pub delete_devices_lem :
    (p : ℕ → Device → Bool) (db : Db) (id : ℕ) (c : DataChange) (row : Device)
    → IsUnique db.devices
    → IsUnique db.changes
    → get id db.changes ≡ some c
    → get c.device db.devices ≡ some row
    → ((delete_devices p db).users ≡ db.users)
      × (get id (delete_devices p db).changes ≡ (if p c.device row then none else some c))
unfolding delete_devices delete_changes
delete_devices_lem p db id c row u v h o =
    let left = delete_where p db.devices in
    (
      orphans-refund left db.changes db.users,
      get-delete_where id (orphan left) db.changes v
          ∙ ap (drop_if (orphan left id)) h
          ∙ dropped p left id c row
              (get-delete_where c.device p db.devices u ∙ ap (drop_if (p c.device)) o),
    )

ok_self : (a b : Db) → ◌≡◌ {A = Result Db} (ok a) (ok b) → a ≡ b
ok_self a b e = cc

add_key_changes-users :
    (u index : ℕ) (scheme : Bytes) (keys : List (ℕ × Bytes × Bytes)) (db db' : Db)
    → add_key_changes u index scheme keys db ≡ ok db'
    → (db'.users ≡ db.users) × (db'.devices ≡ db.devices)
unfolding add_key_changes
add_key_changes-users u index scheme [] db db' e =
    (ap (λ x. x.users) (sym (ok_self db db' e)), ap (λ x. x.devices) (sym (ok_self db db' e)))
add_key_changes-users u index scheme ((d, key, mac) ∷ rest) db db' e =
    elim (Bool-cases (same_user u (user_of d db.devices) && is_none (get d db.key_changes))) [
      | inl t ↦ add_key_changes-users u index scheme rest _ db' (rw (t, add_key_changes) at e)
      | inr f ↦ absurd (ground (arith, f, e))
    ]

abbrev counted : ℕ → Table ℕ User → Table ℕ User
counted u users =
    update_where (λ id _. id == u) (λ r. record r { key_count = r.key_count + 1 }) users

abbrev sealed : ℕ → Bytes → Db → Db
sealed d mac db = record db {
  devices = update_where (λ id _. id == d) (λ row. record row { key_mac = some mac }) db.devices;
}

user_of-sealed :
    (d : ℕ) (mac : Bytes) (db : Db) (row : Device)
    → get d db.devices ≡ some row
    → user_of d (sealed d mac db).devices ≡ some row.user
unfolding user_of
user_of-sealed d mac db row o =
    let g =
      get-update_where d (λ id _. id == d) (λ x. record x { key_mac = some mac }) db.devices in
    rw (g, user_of, o, ==_refl d) refl

abbrev offered : ℕ → ℕ → ℕ → Bytes → Bytes → List (ℕ × Bytes × Bytes) → Db → Result (Bool × Db)
offered d u index scheme mac keys db = do
  added ← add_key_changes u index scheme keys (record db { users = counted u db.users })
  ok (true, sealed d mac added)

pair_eq :
    (a b : Bool) (s t : Db)
    → ◌≡◌ {A = Result (Bool × Db)} (ok (a, s)) (ok (b, t))
    → (a ≡ b) × (s ≡ t)
pair_eq a b s t e = (cc, cc)

abbrev pub Counted : ℕ → ℕ → Db → Bool → Db → Type 0
Counted d index db done db' =
    (done ≡ true
      → (k : ℕ) × (key_count_of d db ≡ some k)
        × (index ≡ k + 1)
        × (key_count_of d db' ≡ some index))
    × (done ≡ false → db' ≡ db)

refused :
    (d index : ℕ) (db db' : Db) (done : Bool)
    → ◌≡◌ {A = Result (Bool × Db)} (ok (false, db)) (ok (done, db'))
    → Counted d index db done db'
refused d index db db' done e =
    let (a, b) = pair_eq _ _ _ _ e in (λ t. absurd (cc (a, t)), λ f. sym b)

module _ (d index : ℕ) (mac : Bytes) (db db' : Db) (row : Device) (user : User)
    (o : get d db.devices ≡ some row) (g : get row.user db.users ≡ some user)
    (next : user.key_count + 1 ≡ index) where
  count_before : key_count_of d db ≡ some user.key_count
  unfolding key_count_of user_of
  count_before = rw (o, g, key_count_of, user_of) refl

  count_after :
      (added : Db)
      → added.users ≡ counted row.user db.users
      → added.devices ≡ db.devices
      → key_count_of d (sealed d mac added) ≡ some index
  unfolding key_count_of
  count_after added us ds =
      let w = user_of-sealed d mac added row (rw ds o) in
      let v =
        get-update_where row.user (λ id _. id == row.user)
          (λ r. record r { key_count = r.key_count + 1 }) db.users in
      rw (w, us, v, g, ==_refl row.user, next, key_count_of) refl

  offered-Counted :
      (scheme : Bytes) (keys : List (ℕ × Bytes × Bytes)) (done : Bool) (r : Result Db)
      → add_key_changes row.user index scheme keys (record db { users = counted row.user db.users })
        ≡ r
      → ◌>>=◌ {B = Bool × Db} r (λ added. ok (true, sealed d mac added)) ≡ ok (done, db')
      → Counted d index db done db'
  offered-Counted scheme keys done (err x) run e = absurd (ground arith)
  offered-Counted scheme keys done (ok added) run e =
      let (us, ds) = add_key_changes-users row.user index scheme keys _ added run in
      let (a, b) = pair_eq _ _ _ _ e in
      (
        λ t. (user.key_count, count_before, sym next, rw (sym b) (count_after added us ds)),
        λ f. absurd (cc (a, f)),
      )

err_ok : {a : Bool} {s : Db} → ◌≡◌ {A = Result (Bool × Db)} (err other_error) (ok (a, s)) → ⊥
err_ok e = cc

-- A key exchange that is done raises the key count of the device's user by one, to the new index;
-- one that is refused without an error leaves the tables as they were.
pub update_exchange_key-Counted :
    (d index : ℕ) (scheme mac : Bytes) (keys : List (ℕ × Bytes × Bytes)) (db db' : Db) (done : Bool)
    → update_exchange_key d index scheme mac keys db ≡ ok (done, db')
    → Counted d index db done db'
unfolding update_exchange_key user_of
update_exchange_key-Counted d index scheme mac keys db db' done e =
    elim (Option-cases (get d db.devices)) [
      | inl n ↦ refused d index db db' done (rw (n, user_of, update_exchange_key) at e)
      | inr (row, o) ↦ elim (Option-cases (get row.user db.users)) [
        | inl n ↦ refused d index db db' done (rw (o, n, user_of, update_exchange_key) at e)
        | inr (user, g) ↦ elim (Bool-cases (leb (2 ^ 31) (user.key_count + 1))) [
          | inl big ↦ absurd (err_ok (rw (o, g, big, user_of, update_exchange_key) at e))
          | inr small ↦ elim (Bool-cases (user.key_count + 1 == index)) [
            | inl t ↦
                offered-Counted d index mac db db' row user o g ((==_iff _ _).0 t) scheme keys done
                  _ refl (rw (o, g, small, t, user_of, update_exchange_key) at e)
            | inr f ↦
                refused d index db db' done (rw (o, g, small, f, user_of, update_exchange_key) at e)
          ]
        ]
      ]
    ]
