-- ===== src/DbWorker/Settlement.antt =====
-- The settlement of a trade in the database: a transaction that moves cash and shares between the
-- two users and creates none, and that redelivery does not repeat.
use predix_go_backend.DbWorker.Statements.{
  opposite_lem, deduct-Changed, add-Changed, trades-add_balance, upsert-Changed, SameMoney,
  SameMoney-trans, fill-SameMoney, transaction-SameMoney, volume-SameMoney,
}
use predix_go_backend.Base.{
  ◌+◌, ◌≡◌, refl, sym, ap, ◌∙◌, subst, String, Bool, true, false, Option, none, some, arith,
  string_eq, ℤ, pos, pos_part, neg_part, Nat64, mul64, sub64, Bool-cases, Option-cases, inl, inr,
  ◌⊎◌,
}
use predix_go_backend.Dict.{Dict, lookup, insert}
use predix_go_backend.Engine.Types.{Trade}
use predix_go_backend.Engine.Ledger.Totals.{total}
use predix_go_backend.DbWorker.Database.{
  ◌>>=◌, Db, Query, Faults, TradeIds, exists, insert_trade, apply_order_fill, deduct_balance,
  upsert_position, insert_transaction, increment_event_volume, Insertion, inserted,
  unique_violation, insert_error,
}
use predix_go_backend.DbWorker.{
  parse_ids, settle_fills, settle_cash, settle_positions, settle_records, settle_writes,
  settle_trade,
}

bind-some {ℓ κ} :
    {A : Type ℓ} {B : Type κ} (o : Option A) (f : A → Option B) (b : B)
    → (o >>= f) ≡ some b
    → (a : A) × (o ≡ some a) × (f a ≡ some b)
bind-some none f b e = absurd (ground arith)
bind-some (some a) f b e = (a, refl, e)

settle_fills-SameMoney :
    (fails : Faults) (ids : TradeIds) (t : Trade) (db db' : Db)
    → settle_fills fails ids t db ≡ some db'
    → SameMoney db db'
unfolding settle_fills
settle_fills-SameMoney fails ids t db db' e =
    let (db₁, first, second) =
      bind-some (apply_order_fill fails Query.fill_taker ids.taker t.quantity db) _ db' e in
    SameMoney-trans db db₁ db'
      (fill-SameMoney fails Query.fill_taker ids.taker t.quantity db db₁ first)
      (fill-SameMoney fails Query.fill_maker ids.maker t.quantity db₁ db' second)

settle_records-SameMoney :
    (fails : Faults) (ids : TradeIds) (t : Trade) (db db' : Db)
    → settle_records fails ids t db ≡ some db'
    → SameMoney db db'
unfolding settle_records
settle_records-SameMoney fails ids t db db' e =
    let (db₁, first, rest₁) =
      bind-some (insert_transaction fails Query.buyer_transaction _ db) _ db' e in
    let (db₂, second, rest₂) =
      bind-some (insert_transaction fails Query.seller_transaction _ db₁) _ db' rest₁ in
    let (db₃, third, last) =
      bind-some (increment_event_volume fails ids.event (mul64 t.quantity t.price) db₂) _ db'
        rest₂ in
    let done : db₃ ≡ db' = ground arith in
    SameMoney-trans db db₁ db' (transaction-SameMoney fails Query.buyer_transaction _ db db₁ first)
      (SameMoney-trans db₁ db₂ db'
        (transaction-SameMoney fails Query.seller_transaction _ db₁ db₂ second)
        (subst (SameMoney db₂) done (volume-SameMoney fails ids.event _ db₂ db₃ third)))

-- The sum of a column is what it was.
abbrev pub Balanced : Dict ℤ → Dict ℤ → Type 0
Balanced d d' = total pos_part d' + total neg_part d ≡ total pos_part d + total neg_part d'

-- The rest of a settlement leaves the table of trades alone.
pub settle_writes-trades :
    (fails : Faults) (ids : TradeIds) (t : Trade) (db db' : Db)
    → settle_writes fails ids t db ≡ some db'
    → db'.trades ≡ db.trades
unfolding settle_writes settle_cash settle_positions
settle_writes-trades fails ids t db db' e =
    let c : ℤ = mul64 t.quantity t.price in
    let (db₁, first, rest₁) = bind-some (settle_fills fails ids t db) _ db' e in
    let (db₂, second, rest₂) = bind-some (settle_cash fails ids t db₁) _ db' rest₁ in
    let (db₃, third, fourth) = bind-some (settle_positions fails ids t db₂) _ db' rest₂ in
    let (mid, taken, paid) = bind-some (deduct_balance fails ids.buyer c db₁) _ db₂ second in
    let (half, got, given) =
      bind-some (upsert_position fails Query.buyer_position _ t.quantity db₂) _ db₃ third in
    (settle_records-SameMoney fails ids t db₃ db' fourth).1
    ∙ (upsert-Changed fails Query.seller_position _ (sub64 (pos 0) t.quantity) half db₃ given).1
    ∙ (upsert-Changed fails Query.buyer_position _ t.quantity db₂ half got).1
    ∙ trades-add_balance fails ids.seller c mid db₂ paid
    ∙ (deduct-Changed fails ids.buyer c db₁ mid taken).2
    ∙ (settle_fills-SameMoney fails ids t db db₁ first).1

settle_writes-Balanced :
    (fails : Faults) (ids : TradeIds) (t : Trade) (db db' : Db)
    → exists (lookup ids.seller db.users) ≡ true
    → Nat64 t.quantity
    → settle_writes fails ids t db ≡ some db'
    → Balanced db.users db'.users × Balanced db.positions db'.positions × (db'.trades ≡ db.trades)
unfolding settle_writes settle_cash settle_positions
settle_writes-Balanced fails ids t db db' seller n e =
    let c : ℤ = mul64 t.quantity t.price in
    let (db₁, first, rest₁) = bind-some (settle_fills fails ids t db) _ db' e in
    let (db₂, second, rest₂) = bind-some (settle_cash fails ids t db₁) _ db' rest₁ in
    let (db₃, third, fourth) = bind-some (settle_positions fails ids t db₂) _ db' rest₂ in
    let a = settle_fills-SameMoney fails ids t db db₁ first in
    let (mid, taken, paid) = bind-some (deduct_balance fails ids.buyer c db₁) _ db₂ second in
    let (less, still, trades₁, positions₁) = deduct-Changed fails ids.buyer c db₁ mid taken in
    let there : exists (lookup ids.seller mid.users) ≡ true = still ids.seller (rw (a.0) seller) in
    let (more, trades₂, positions₂) = add-Changed fails ids.seller c mid db₂ there paid in
    let (half, got, given) =
      bind-some (upsert_position fails Query.buyer_position _ t.quantity db₂) _ db₃ third in
    let (up, trades₃, users₃) =
      upsert-Changed fails Query.buyer_position _ t.quantity db₂ half got in
    let (down, trades₄, users₄) =
      upsert-Changed fails Query.seller_position _ (sub64 (pos 0) t.quantity) half db₃ given in
    let z = settle_records-SameMoney fails ids t db₃ db' fourth in
    let users : db'.users ≡ db₂.users = z.0 ∙ users₄ ∙ users₃ in
    let positions : db₂.positions ≡ db.positions = positions₂ ∙ positions₁ ∙ a.2 in
    (
      subst (λ (d : Dict ℤ). Balanced d db'.users) a.0
          (subst (λ (d : Dict ℤ). Balanced db₁.users d) (sym users) (omega (arith, less, more))),
      subst (λ (d : Dict ℤ). Balanced d db'.positions) positions
          (subst (λ (d : Dict ℤ). Balanced db₂.positions d) (sym z.2)
            (omega (arith, up, down, opposite_lem t.quantity n))),
      z.1 ∙ trades₄ ∙ trades₃ ∙ trades₂ ∙ trades₁ ∙ a.1,
    )

-- What a settlement keeps: the sum of all balances, the sum of all shares, and, where it reports a
-- failure, the whole database.
abbrev pub Conserves : Db → Bool × Db → Type 0
Conserves db r =
    Balanced db.users r.1.users × Balanced db.positions r.1.positions × ((r.0 ≡ false) → r.1 ≡ db)

unchanged-Conserves : (ok : Bool) (db : Db) → Conserves db (ok, db)
unchanged-Conserves ok db = (omega arith, omega arith, λ failed. refl)

-- A trade that is inserted refers to users that exist, and nothing but the trades changes.
pub insert_trade-inserted :
    (fails : Faults) (ids : TradeIds) (t : Trade) (db db' : Db)
    → insert_trade fails ids t db ≡ inserted db'
    → (exists (lookup ids.seller db.users) ≡ true)
      × (record db { trades = insert ids.trade t db.trades } ≡ db')
unfolding insert_trade
insert_trade-inserted fails ids t db db' e = ground arith

pub Insertion-cases :
    (r : Insertion)
    → ((db : Db) × (r ≡ inserted db)) ⊎ ((r ≡ unique_violation) ⊎ (r ≡ insert_error))
Insertion-cases (inserted db) = inl (db, refl)
Insertion-cases unique_violation = inr (inl refl)
Insertion-cases insert_error = inr (inr refl)

-- Settling a trade of a quantity that is a non-negative int64 keeps the sum of all balances and the
-- sum of all shares; where it fails, in whichever statement, the database is as it was.
pub settle_trade-Conserves :
    (parse : String → Option String) (fails : Faults) (t : Trade) (db : Db)
    → Nat64 t.quantity
    → Conserves db (settle_trade parse fails t db)
unfolding settle_trade
settle_trade-Conserves parse fails t db n = elim (Bool-cases (fails Query.begin)) [
  | inl down ↦ rw down (unchanged-Conserves false db)
  | inr up ↦ elim (Option-cases (parse_ids parse t)) [
    | inl bad ↦ rw (up, bad) (unchanged-Conserves false db)
    | inr (ids, good) ↦ elim (Insertion-cases (insert_trade fails ids t db)) [
      | inr (inl again) ↦ rw (up, good, again) (unchanged-Conserves true db)
      | inr (inr failed) ↦ rw (up, good, failed) (unchanged-Conserves false db)
      | inl (db₁, fresh) ↦ elim (Option-cases (settle_writes fails ids t db₁)) [
        | inl rolled_back ↦ rw (up, good, fresh, rolled_back) (unchanged-Conserves false db)
        | inr (db₂, done) ↦
            let (seller, same) = insert_trade-inserted fails ids t db db₁ fresh in
            let users : db.users ≡ db₁.users = ap (λ (x : Db). x.users) same in
            let positions : db.positions ≡ db₁.positions = ap (λ (x : Db). x.positions) same in
            let b = settle_writes-Balanced fails ids t db₁ db₂ (rw users at seller) n done in
            rw (up, good, fresh, done)
              (
                subst (λ (d : Dict ℤ). Balanced d db₂.users) (sym users) b.0,
                subst (λ (d : Dict ℤ). Balanced d db₂.positions) (sym positions) b.1,
                λ failed. absurd (ground arith),
              )
      ]
    ]
  ]
]
