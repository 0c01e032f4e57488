-- ===== src/Server/Database/Balance.antt =====
-- tools/appserver/databasecontroller.cpp: the quota of a user against the payloads that are stored for
-- the user's devices, and the statements that store and delete changes.
use qt_data_sync.Common.{
  ℕ, suc, ◌+◌, ◌-◌, Bool, true, false, Option, none, some, [], ◌∷◌, ◌≡◌, refl, sym, ap, ◌∙◌, arith,
  if◌then◌else◌, length, ltb, ◌&&◌, Option-cases, Bool-cases, inl, inr,
}
use qt_data_sync.Common.Equality.{◌==◌, nat_eq, nat_beq_comm}
use qt_data_sync.Table.{Table, get, update_where, delete_where, select_where}
use qt_data_sync.Table.Laws.{get-update_where, map_if}
use qt_data_sync.Server.Database.{
  User, Device, DataChange, Db, check_violation, Result, ok, err, user_of, same_user, is_user,
  add_quota, sub_quota, passes_check, insert_change, refund, delete_changes,
}

-- The size of the payloads of a user's devices.
unfoldable pub used : ℕ → Table ℕ Device → Table ℕ DataChange → ℕ
used u devices [] = 0
used u devices ((id, c) ∷ rest) =
    (if same_user u (user_of c.device devices) then length c.payload else 0) + used u devices rest

used-split :
    (u : ℕ) (devices : Table ℕ Device) (p : ℕ → DataChange → Bool) (changes : Table ℕ DataChange)
    → used u devices changes
      ≡ used u devices (select_where p changes) + used u devices (delete_where p changes)
unfolding used select_where delete_where
used-split u devices p [] = refl
used-split u devices p ((id, c) ∷ rest) =
    let h = used-split u devices p rest in
    elim (Bool-cases (p id c)) [ inl t ↦ rw t (omega arith) | inr f ↦ rw f (omega arith) ]

abbrev lowered : ℕ → Option User → Option User
lowered n none = none
lowered n (some row) = some (record row { quota = row.quota - n })

lowered-+ : (o : Option User) (a b : ℕ) → lowered b (lowered a o) ≡ lowered (a + b) o
lowered-+ none a b = refl
lowered-+ (some row) a b =
    let h : (row.quota - a) - b ≡ row.quota - (a + b) = omega arith in rw h refl

lowered-0 : (o : Option User) → lowered 0 o ≡ o
lowered-0 none = refl
lowered-0 (some row) = let h : row.quota - 0 ≡ row.quota = omega arith in rw h refl

map_if-lowered :
    (b : Bool) (n : ℕ) (o : Option User)
    → map_if (λ _. b) (sub_quota n) o ≡ lowered (if b then n else 0) o
map_if-lowered b n none = refl
map_if-lowered true n (some row) = refl
map_if-lowered false n (some row) = sym (lowered-0 (some row))

get-refund :
    (u : ℕ) (devices : Table ℕ Device) (gone : Table ℕ DataChange) (users : Table ℕ User)
    → get u (refund devices gone users) ≡ lowered (used u devices gone) (get u users)
unfolding refund used
get-refund u devices [] users = sym (lowered-0 (get u users))
get-refund u devices ((id, c) ∷ gone) users =
    get-refund u devices gone _
    ∙ ap (lowered (used u devices gone)) (
        get-update_where u (is_user (user_of c.device devices)) (sub_quota (length c.payload)) users
        ∙ map_if-lowered (same_user u (user_of c.device devices)) (length c.payload) (get u users))
    ∙ lowered-+ (get u users) _ (used u devices gone)

-- The quotas of all users are below their limits.
unfoldable pub within_quota : Table ℕ User → Bool
within_quota [] = true
within_quota ((id, u) ∷ rest) = ltb u.quota u.quota_limit && within_quota rest

checked-within :
    (user n : ℕ) (users : Table ℕ User)
    → within_quota users ≡ true
    → passes_check user (update_where (λ id _. id == user) (add_quota n) users) ≡ true
    → within_quota (update_where (λ id _. id == user) (add_quota n) users) ≡ true
unfolding within_quota passes_check update_where
checked-within user n [] h k = refl
checked-within user n ((id, row) ∷ rest) h k = ground (arith, checked-within user n rest)

lower :
    (p : ℕ → User → Bool) (n : ℕ) (users : Table ℕ User)
    → within_quota users ≡ true
    → within_quota (update_where p (sub_quota n) users) ≡ true
unfolding within_quota update_where
lower p n [] h = refl
lower p n ((u, row) ∷ rest) h = ground (arith, lower p n rest)

refund-within :
    (devices : Table ℕ Device) (gone : Table ℕ DataChange) (users : Table ℕ User)
    → within_quota users ≡ true
    → within_quota (refund devices gone users) ≡ true
unfolding refund
refund-within devices [] users h = h
refund-within devices ((id, c) ∷ gone) users h = refund-within devices gone _ (lower _ _ users h)

-- The quota of each user is the size of what the user's devices have stored, and below the limit.
pub record Balanced (db : Db) : Type 0 where
  pub exact :
      (u : ℕ) (row : User) → get u db.users ≡ some row → row.quota ≡ used u db.devices db.changes
  pub within : within_quota db.users ≡ true

lowered-exact :
    (o : Option User) (n total : ℕ) (row : User)
    → lowered n o ≡ some row
    → ((old : User) → o ≡ some old → old.quota ≡ total)
    → row.quota ≡ total - n
lowered-exact none n total row e h = absurd (ground arith)
lowered-exact (some old) n total row e h = let q = h old refl in ground arith

pub delete_changes-Balanced :
    (p : ℕ → DataChange → Bool) (db : Db) → Balanced db → Balanced (delete_changes p db)
unfolding delete_changes
delete_changes-Balanced p db h = record {
  exact = λ u row e.
      let gone = used u db.devices (select_where p db.changes) in
      let q : row.quota ≡ used u db.devices db.changes - gone =
        lowered-exact (get u db.users) gone _ row
          (sym (get-refund u db.devices (select_where p db.changes) db.users) ∙ e) (h.exact u) in
      let s = used-split u db.devices p db.changes in omega arith;
  within = refund-within db.devices (select_where p db.changes) db.users h.within;
}

abbrev charged : DataChange → Device → Db → Db
charged c row db = record db {
  users = update_where (λ u _. u == row.user) (add_quota (length c.payload)) db.users;
  changes = (db.next_change, c) ∷ db.changes;
  next_change = suc db.next_change;
}

abbrev checked : DataChange → Device → Db → Result (ℕ × Db)
checked c row db =
    if passes_check row.user (charged c row db).users
    then ok (db.next_change, charged c row db)
    else err check_violation

pub ok_db :
    {A : Type 0} (a b : A) (s t : Db) → ◌≡◌ {A = Result (A × Db)} (ok (a, s)) (ok (b, t)) → s ≡ t
ok_db a b s t e = cc

passed :
    (c : DataChange) (row : Device) (db db' : Db) (id : ℕ)
    → checked c row db ≡ ok (id, db')
    → (charged c row db ≡ db') × (passes_check row.user (charged c row db).users ≡ true)
passed c row db db' id e = elim (Bool-cases (passes_check row.user (charged c row db).users)) [
  | inl t ↦ (ok_db _ _ _ _ (rw t at e), t)
  | inr f ↦ absurd (ground (arith, f, e))
]

raised-exact :
    (o : Option User) (b : Bool) (n total : ℕ) (row : User)
    → map_if (λ _. b) (add_quota n) o ≡ some row
    → ((old : User) → o ≡ some old → old.quota ≡ total)
    → row.quota ≡ (if b then n else 0) + total
raised-exact none b n total row e h = absurd (ground arith)
raised-exact (some old) b n total row e h = let q = h old refl in ground arith

charged-Balanced :
    (c : DataChange) (row : Device) (db : Db)
    → Balanced db
    → get c.device db.devices ≡ some row
    → passes_check row.user (charged c row db).users ≡ true
    → Balanced (charged c row db)
unfolding used user_of
charged-Balanced c row db h o w = record {
  exact = λ u r g.
      let q =
        raised-exact (get u db.users) (u == row.user) (length c.payload) _ r
          (sym (get-update_where u (λ u _. u == row.user) (add_quota (length c.payload)) db.users)
            ∙ g)
          (h.exact u) in
      rw (o, user_of)
        (q
          ∙ ap (λ b. (if b then length c.payload else 0) + used u db.devices db.changes)
              (nat_beq_comm u row.user));
  within = checked-within row.user (length c.payload) db.users h.within w;
}

pub insert_change-Balanced :
    (c : DataChange) (db db' : Db) (id : ℕ)
    → Balanced db
    → insert_change c db ≡ ok (id, db')
    → Balanced db'
unfolding insert_change
insert_change-Balanced c db db' id h e = elim (Option-cases (get c.device db.devices)) [
  | inl n ↦ absurd (ground (arith, n, e))
  | inr (row, o) ↦
      let (s, w) = passed c row db db' id (rw (o, insert_change) at e) in
      rw (sym s) (charged-Balanced c row db h o w)
]
