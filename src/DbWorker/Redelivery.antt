-- ===== src/DbWorker/Redelivery.antt =====
-- An event that is delivered again, after a crash between the commit and the acknowledgement.
use predix_go_backend.Base.{
  ◌≡◌, refl, sym, ap, ◌∙◌, String, true, Option, some, arith, string_eq, Bool-cases, Option-cases,
  inl, inr, ◌⊎◌, beq_refl,
}
use predix_go_backend.Dict.{Dict, lookup, insert, lookup-insert}
use predix_go_backend.Engine.Types.{Trade, Order}
use predix_go_backend.DbWorker.Database.{
  Db, Query, Faults, TradeIds, OrderRow, exists, insert_trade, insert_order, inserted,
  unique_violation, insert_error,
}
use predix_go_backend.DbWorker.{
  parse_ids, parse_order, settle_writes, settle_trade, handle_order_created,
}
use predix_go_backend.DbWorker.Settlement.{
  insert_trade-inserted, Insertion-cases, settle_writes-trades,
}

-- Once its id is in the table, a trade changes nothing any more.
settle_trade_known :
    (parse : String → Option String) (fails : Faults) (t : Trade) (db : Db) (ids : TradeIds)
    → parse_ids parse t ≡ some ids
    → exists (lookup ids.trade db.trades) ≡ true
    → (settle_trade parse fails t db).1 ≡ db
unfolding settle_trade insert_trade
settle_trade_known parse fails t db ids good old = elim (Bool-cases (fails Query.begin)) [
  | inl down ↦ rw down refl
  | inr up ↦ elim (Bool-cases (fails Query.insert_the_trade)) [
    | inl failed ↦ rw (up, good, failed) refl
    | inr runs ↦ rw (up, good, runs, old) refl
  ]
]

insert_trade-violation :
    (fails : Faults) (ids : TradeIds) (t : Trade) (db : Db)
    → insert_trade fails ids t db ≡ unique_violation
    → exists (lookup ids.trade db.trades) ≡ true
unfolding insert_trade
insert_trade-violation fails ids t db e = ground arith

-- Settling a trade again, after a settlement of it that succeeded, leaves the database as it is,
-- whether or not it then succeeds.
pub settle_trade_again :
    (parse : String → Option String) (fails fails' : Faults) (t : Trade) (db db' : Db)
    → settle_trade parse fails t db ≡ (true, db')
    → (settle_trade parse fails' t db').1 ≡ db'
unfolding settle_trade
settle_trade_again parse fails fails' t db db' e = elim (Bool-cases (fails Query.begin)) [
  | inl down ↦ absurd (ground arith)
  | inr up ↦ elim (Option-cases (parse_ids parse t)) [
    | inl bad ↦ absurd (ground arith)
    | inr (ids, good) ↦ elim (Insertion-cases (insert_trade fails ids t db)) [
      | inr (inr failed) ↦ absurd (ground arith)
      | inr (inl again) ↦
          let same : db ≡ db' = ground arith in
          settle_trade_known parse fails' t db' ids good (
            ap (λ (x : Db). exists (lookup ids.trade x.trades)) (sym same)
            ∙ insert_trade-violation fails ids t db again)
      | inl (db₁, fresh) ↦ elim (Option-cases (settle_writes fails ids t db₁)) [
        | inl rolled_back ↦ absurd (ground arith)
        | inr (db₂, done) ↦
            let same : db₂ ≡ db' = ground arith in
            let (seller, row) = insert_trade-inserted fails ids t db db₁ fresh in
            let kept = settle_writes-trades fails ids t db₁ db₂ done in
            settle_trade_known parse fails' t db' ids good (
              ap (λ (x : Db). exists (lookup ids.trade x.trades)) (sym same)
              ∙ ap (λ (d : Dict Trade). exists (lookup ids.trade d)) kept
              ∙ ap (λ (x : Db). exists (lookup ids.trade x.trades)) (sym row)
              ∙ ap exists (lookup-insert ids.trade ids.trade t db.trades)
              ∙ rw (beq_refl ids.trade) refl)
      ]
    ]
  ]
]

handle_order_created_known :
    (parse : String → Option String) (fails : Faults) (o : Order) (db : Db) (id : String)
    (row : OrderRow)
    → parse_order parse o ≡ some (id, row)
    → exists (lookup id db.orders) ≡ true
    → (handle_order_created parse fails o db).1 ≡ db
unfolding handle_order_created insert_order
handle_order_created_known parse fails o db id row good old =
    elim (Bool-cases (fails Query.insert_the_order)) [
      | inl failed ↦ rw (handle_order_created, good, insert_order, failed) refl
      | inr runs ↦ rw (handle_order_created, good, insert_order, runs, old) refl
    ]

insert_order-cases :
    (fails : Faults) (id : String) (row : OrderRow) (db : Db)
    → ((insert_order fails id row db ≡ unique_violation) × (exists (lookup id db.orders) ≡ true))
      ⊎ ((insert_order fails id row db ≡ insert_error)
          ⊎ (insert_order fails id row db
              ≡ inserted (record db { orders = insert id row db.orders })))
unfolding insert_order
insert_order-cases fails id row db = ground arith

-- An order that is announced again, after an announcement of it that succeeded, leaves the database
-- as it is, whether or not it then succeeds.
pub handle_order_created_again :
    (parse : String → Option String) (fails fails' : Faults) (o : Order) (db db' : Db)
    → handle_order_created parse fails o db ≡ (true, db')
    → (handle_order_created parse fails' o db').1 ≡ db'
unfolding handle_order_created
handle_order_created_again parse fails fails' o db db' e =
    elim (Option-cases (parse_order parse o)) [
      | inl bad ↦ absurd (ground arith)
      | inr ((id, row), good) ↦ elim (insert_order-cases fails id row db) [
        | inl (again, old) ↦
            let same : db ≡ db' = ground arith in
            handle_order_created_known parse fails' o db' id row good
              (ap (λ (x : Db). exists (lookup id x.orders)) (sym same) ∙ old)
        | inr (inl failed) ↦ absurd (ground arith)
        | inr (inr fresh) ↦
            let same : record db { orders = insert id row db.orders } ≡ db' = ground arith in
            handle_order_created_known parse fails' o db' id row good (
              ap (λ (x : Db). exists (lookup id x.orders)) (sym same)
              ∙ ap exists (lookup-insert id id row db.orders)
              ∙ rw (beq_refl id) refl)
      ]
    ]
