-- ===== src/DbWorker/Statements.antt =====
-- What each statement of a settlement does to the sums of balances and of shares.
use predix_go_backend.Base.{
  ℕ, ◌+◌, ◌≡◌, refl, sym, ap, ◌∙◌, subst, String, true, false, some, [], ◌∷◌, ◌++◌, arith, ◌==◌,
  string_eq, ℤ, pos, negsuc, pos_part, neg_part, Nat64, sub64, wrap64, leb_ℤ, Bool-cases,
  Option-cases, inl, inr,
}
use predix_go_backend.Dict.{Dict, lookup, insert, lookup-insert}
use predix_go_backend.Engine.Ledger.{or_zero}
use predix_go_backend.Engine.Ledger.Totals.{total, total-insert}
use predix_go_backend.DbWorker.Database.{
  Db, Query, Faults, plus, minus, exists, shares_of, apply_order_fill, deduct_balance, add_balance,
  upsert_position, insert_transaction, increment_event_volume, fill_row, TransactionRow,
}

-- The exact sum of a column grew by `x` and fell by `y`.
abbrev pub Changed : ℕ → ℕ → Dict ℤ → Dict ℤ → Type 0
Changed x y d d' =
    total pos_part d' + total neg_part d + y ≡ total pos_part d + total neg_part d' + x

pub plus_lem :
    (a b : ℤ)
    → pos_part (plus a b) + neg_part a + neg_part b ≡ pos_part a + pos_part b + neg_part (plus a b)
unfolding plus
plus_lem a b = ground arith

pub minus_lem :
    (a b : ℤ)
    → pos_part (minus a b) + neg_part a + pos_part b
      ≡ pos_part a + neg_part b + neg_part (minus a b)
unfolding minus
minus_lem a b = ground arith

pub opposite_lem :
    (q : ℤ) → Nat64 q → neg_part (sub64 (pos 0) q) ≡ pos_part (sub64 (pos 0) q) + pos_part q
unfolding sub64 wrap64
opposite_lem (pos q) n = ground arith
opposite_lem (negsuc q) n = absurd (omega arith)

pub insert-Changed :
    (k : String) (v : ℤ) (d : Dict ℤ) (x y : ℕ)
    → pos_part v + neg_part (or_zero (pos 0) (lookup k d)) + y
      ≡ pos_part (or_zero (pos 0) (lookup k d)) + neg_part v + x
    → Changed x y d (insert k v d)
insert-Changed k v d x y e =
    omega
      (arith, e, total-insert pos_part (pos 0) k v d refl, total-insert neg_part (pos 0) k v d refl)

pub deduct-Changed :
    (fails : Faults) (id : String) (c : ℤ) (db db' : Db)
    → deduct_balance fails id c db ≡ some db'
    → Changed (neg_part c) (pos_part c) db.users db'.users
      × ((k : String) → exists (lookup k db.users) ≡ true → exists (lookup k db'.users) ≡ true)
      × (db'.trades ≡ db.trades)
      × (db'.positions ≡ db.positions)
unfolding deduct_balance
deduct-Changed fails id c db db' e = elim (Bool-cases (fails Query.deduct)) [
  | inl down ↦ absurd (ground arith)
  | inr up ↦ elim (Option-cases (lookup id db.users)) [
    | inl missing ↦ absurd (ground arith)
    | inr (b, found) ↦ elim (Bool-cases (leb_ℤ c b)) [
      | inr short ↦ absurd (ground arith)
      | inl enough ↦
          let done : record db { users = insert id (minus b c) db.users } ≡ db' = ground arith in
          subst
            (λ (x : Db).
              Changed (neg_part c) (pos_part c) db.users x.users
              × ((k : String)
                  → exists (lookup k db.users) ≡ true
                  → exists (lookup k x.users) ≡ true)
              × (x.trades ≡ db.trades)
              × (x.positions ≡ db.positions))
            done
            (
              insert-Changed id (minus b c) db.users (neg_part c) (pos_part c)
                  (rw found (omega (arith, minus_lem b c))),
              λ k there. rw (lookup-insert id k (minus b c) db.users) (elim (Bool-cases (id == k)) [
                | inl hit ↦ rw hit refl
                | inr miss ↦ rw miss there
              ]),
              refl,
              refl,
            )
    ]
  ]
]

pub add-Changed :
    (fails : Faults) (id : String) (c : ℤ) (db db' : Db)
    → exists (lookup id db.users) ≡ true
    → add_balance fails id c db ≡ some db'
    → Changed (pos_part c) (neg_part c) db.users db'.users
      × (db'.trades ≡ db.trades)
      × (db'.positions ≡ db.positions)
unfolding add_balance
add-Changed fails id c db db' there e = elim (Bool-cases (fails Query.credit)) [
  | inl down ↦ absurd (ground arith)
  | inr up ↦ elim (Option-cases (lookup id db.users)) [
    | inl missing ↦ absurd (ground arith)
    | inr (b, found) ↦
        let done : record db { users = insert id (plus b c) db.users } ≡ db' = ground arith in
        subst
          (λ (x : Db).
            Changed (pos_part c) (neg_part c) db.users x.users
            × (x.trades ≡ db.trades)
            × (x.positions ≡ db.positions))
          done
          (
            insert-Changed id (plus b c) db.users (pos_part c) (neg_part c)
                (rw found (omega (arith, plus_lem b c))),
            refl,
            refl,
          )
  ]
]

pub add_balance-missing :
    (fails : Faults) (id : String) (c : ℤ) (db db' : Db)
    → exists (lookup id db.users) ≡ false
    → add_balance fails id c db ≡ some db'
    → db'.trades ≡ db.trades
unfolding add_balance
add_balance-missing fails id c db db' missing e = elim (Bool-cases (fails Query.credit)) [
  | inl down ↦ absurd (ground arith)
  | inr up ↦ elim (Option-cases (lookup id db.users)) [
    | inl none_there ↦ let done : db ≡ db' = ground arith in ap (λ (x : Db). x.trades) (sym done)
    | inr (b, found) ↦ absurd (ground arith)
  ]
]

pub trades-add_balance :
    (fails : Faults) (id : String) (c : ℤ) (db db' : Db)
    → add_balance fails id c db ≡ some db'
    → db'.trades ≡ db.trades
trades-add_balance fails id c db db' e = elim (Bool-cases (exists (lookup id db.users))) [
  | inl there ↦ (add-Changed fails id c db db' there e).1
  | inr missing ↦ add_balance-missing fails id c db db' missing e
]

pub upsert-Changed :
    (fails : Faults) (query : Query) (key : String) (n : ℤ) (db db' : Db)
    → upsert_position fails query key n db ≡ some db'
    → Changed (pos_part n) (neg_part n) db.positions db'.positions
      × (db'.trades ≡ db.trades)
      × (db'.users ≡ db.users)
unfolding upsert_position
upsert-Changed fails query key n db db' e = elim (Bool-cases (fails query)) [
  | inl down ↦ absurd (ground arith)
  | inr up ↦
      let v : ℤ = plus (shares_of (lookup key db.positions)) n in
      let done : record db { positions = insert key v db.positions } ≡ db' = ground arith in
      subst
        (λ (x : Db).
          Changed (pos_part n) (neg_part n) db.positions x.positions
          × (x.trades ≡ db.trades)
          × (x.users ≡ db.users))
        done
        (
          insert-Changed key v db.positions (pos_part n) (neg_part n)
              (elim (Option-cases (lookup key db.positions)) [
                | inl missing ↦ rw missing (omega (arith, plus_lem (pos 0) n))
                | inr (b, found) ↦ rw found (omega (arith, plus_lem b n))
              ]),
          refl,
          refl,
        )
]

-- The tables of users, trades and positions are as they were.
abbrev pub SameMoney : Db → Db → Type 0
SameMoney db db' =
    (db'.users ≡ db.users) × (db'.trades ≡ db.trades) × (db'.positions ≡ db.positions)

pub SameMoney-trans : (a b c : Db) → SameMoney a b → SameMoney b c → SameMoney a c
SameMoney-trans a b c p q = (q.0 ∙ p.0, q.1 ∙ p.1, q.2 ∙ p.2)

pub fill-SameMoney :
    (fails : Faults) (query : Query) (id : String) (n : ℤ) (db db' : Db)
    → apply_order_fill fails query id n db ≡ some db'
    → SameMoney db db'
unfolding apply_order_fill
fill-SameMoney fails query id n db db' e = elim (Bool-cases (fails query)) [
  | inl down ↦ absurd (ground arith)
  | inr up ↦ elim (Option-cases (lookup id db.orders)) [
    | inl missing ↦ absurd (ground arith)
    | inr (o, found) ↦
        let done : record db { orders = insert id (fill_row n o) db.orders } ≡ db' = ground arith in
        subst (SameMoney db) done (refl, refl, refl)
  ]
]

pub transaction-SameMoney :
    (fails : Faults) (query : Query) (row : TransactionRow) (db db' : Db)
    → insert_transaction fails query row db ≡ some db'
    → SameMoney db db'
unfolding insert_transaction
transaction-SameMoney fails query row db db' e = elim (Bool-cases (fails query)) [
  | inl down ↦ absurd (ground arith)
  | inr up ↦
      let done : record db { transactions = db.transactions ++ row ∷ [] } ≡ db' = ground arith in
      subst (SameMoney db) done (refl, refl, refl)
]

pub volume-SameMoney :
    (fails : Faults) (id : String) (amount : ℤ) (db db' : Db)
    → increment_event_volume fails id amount db ≡ some db'
    → SameMoney db db'
unfolding increment_event_volume
volume-SameMoney fails id amount db db' e = elim (Bool-cases (fails Query.event_volume)) [
  | inl down ↦ absurd (ground arith)
  | inr up ↦ elim (Option-cases (lookup id db.volumes)) [
    | inl missing ↦
        let done : db ≡ db' = ground arith in subst (SameMoney db) done (refl, refl, refl)
    | inr (v, found) ↦
        let done : record db { volumes = insert id (plus v amount) db.volumes } ≡ db' =
          ground arith in
        subst (SameMoney db) done (refl, refl, refl)
  ]
]
