-- ===== src/DbWorker.antt =====
-- The database worker, internal/dbworker/worker.go, on the tables that the queries of db/queries
-- write. A DECIMAL of prices counts units of 1/10000, as numericFromScaled does, and one of
-- quantities whole shares. Left out are time stamps, titles and the average price of a position.
-- uuid.Parse is a parameter; what else can make a query fail (the connection, a check, a column's
-- range) is a `Faults`.
pub mod Database
pub mod Statements
pub mod Settlement
pub mod Redelivery
pub mod Fills
pub mod Fencing
pub mod Run
pub mod Examples
use predix_go_backend.Base.{
  ℕ, String, Bool, true, false, not, ◌&&◌, ◌||◌, Option, none, some, List, [], ◌∷◌, ◌==◌,
  if◌then◌else◌, string_eq, nat_eq, ltb, ltb_ℤ, leb_ℤ, ℤ, pos, mul64, sub64,
}
use predix_go_backend.Dict.{lookup}
use predix_go_backend.Engine.Types.{Order, Trade, Status, outcome_yes, outcome_no}
use predix_go_backend.Engine.Ledger.{position_key}
use predix_go_backend.Engine.Emit.{
  Envelope, EventType, EventData, trade_data, order_data, cancel_data,
}
use predix_go_backend.DbWorker.Database.{
  ◌>>=◌, Db, Query, OrderRow, TransactionRow, Faults, TradeIds, insert_trade, apply_order_fill,
  deduct_balance, add_balance, upsert_position, insert_transaction, increment_event_volume,
  insert_order, update_order_status, Insertion, inserted, unique_violation, insert_error,
}

-- Whether the stale engine's envelope is turned away: a token of 0 is from before there were any.
unfoldable pub fencing_stale : ℕ → ℕ → Bool
fencing_stale token current = not (token == 0) && ltb token current

-- `none` is a valid trade.
unfoldable pub validate_trade : Trade → Option String
validate_trade t =
    if t.id == ""
    then some "trade id is required"
    else if t.event_id == ""
    then some "event id is required"
    else if t.order_id == ""
    then some "taker order id is required"
    else if t.match_order_id == ""
    then some "maker order id is required"
    else if t.buyer_id == ""
    then some "buyer id is required"
    else if t.seller_id == ""
    then some "seller id is required"
    else if not ((t.outcome == outcome_yes) || (t.outcome == outcome_no))
    then some "invalid outcome"
    else if leb_ℤ t.quantity (pos 0)
    then some "quantity must be greater than zero"
    else if ltb_ℤ t.price (pos 0)
    then some "price cannot be negative"
    else none

-- The ids of a trade; `none` if one of them is no UUID.
unfoldable pub parse_ids : (String → Option String) → Trade → Option TradeIds
parse_ids parse t = do
  trade ← parse t.id
  event ← parse t.event_id
  buyer ← parse t.buyer_id
  seller ← parse t.seller_id
  taker ← parse t.order_id
  maker ← parse t.match_order_id
  some (record {
    trade = trade;
    event = event;
    buyer = buyer;
    seller = seller;
    taker = taker;
    maker = maker;
  })

-- The statements that follow the insertion of the trade, by what they write: both orders' fills,
-- the two balances, the two positions, and the records. `none` rolls the transaction back.
unfoldable pub settle_fills : Faults → TradeIds → Trade → Db → Option Db
settle_fills fails ids t db = do
  db₁ ← apply_order_fill fails Query.fill_taker ids.taker t.quantity db
  apply_order_fill fails Query.fill_maker ids.maker t.quantity db₁

unfoldable pub settle_cash : Faults → TradeIds → Trade → Db → Option Db
settle_cash fails ids t db = do
  db₁ ← deduct_balance fails ids.buyer (mul64 t.quantity t.price) db
  add_balance fails ids.seller (mul64 t.quantity t.price) db₁

unfoldable pub settle_positions : Faults → TradeIds → Trade → Db → Option Db
settle_positions fails ids t db = do
  db₁ ←
      upsert_position fails Query.buyer_position (position_key ids.buyer ids.event t.outcome)
        t.quantity db
  upsert_position fails Query.seller_position (position_key ids.seller ids.event t.outcome)
      (sub64 (pos 0) t.quantity) db₁

abbrev pub transaction_row : String → String → String → TradeIds → Trade → TransactionRow
transaction_row kind user order ids t = record {
  user_id = user;
  order_id = order;
  trade_id = ids.trade;
  kind = kind;
  outcome = t.outcome;
  quantity = t.quantity;
  price = t.price;
  amount = mul64 t.quantity t.price;
}

unfoldable pub settle_records : Faults → TradeIds → Trade → Db → Option Db
settle_records fails ids t db = do
  db₁ ←
      insert_transaction fails Query.buyer_transaction
        (transaction_row "BUY" ids.buyer ids.taker ids t) db
  db₂ ←
      insert_transaction fails Query.seller_transaction
        (transaction_row "SELL" ids.seller ids.maker ids t) db₁
  db₃ ← increment_event_volume fails ids.event (mul64 t.quantity t.price) db₂
  if fails Query.commit then none else some db₃

unfoldable pub settle_writes : Faults → TradeIds → Trade → Db → Option Db
unfolding settle_fills settle_cash settle_positions settle_records
settle_writes fails ids t db = do
  db₁ ← settle_fills fails ids t db
  db₂ ← settle_cash fails ids t db₁
  db₃ ← settle_positions fails ids t db₂
  settle_records fails ids t db₃

-- Whether the settlement succeeded, and the database after its transaction.
unfoldable pub settle_trade : (String → Option String) → Faults → Trade → Db → Bool × Db
unfolding parse_ids settle_writes
settle_trade parse fails t db =
    if fails Query.begin then (false, db) else elim (parse_ids parse t) [
      | none ↦ (false, db)
      | some ids ↦ elim (insert_trade fails ids t db) [
        | insert_error ↦ (false, db)
        | unique_violation ↦ (true, db)
        | inserted db₁ ↦ elim (settle_writes fails ids t db₁) [
          | none ↦ (false, db)
          | some db₂ ↦ (true, db₂)
        ]
      ]
    ]

unfoldable pub handle_trade_executed : (String → Option String) → Faults → Trade → Db → Bool × Db
unfolding validate_trade settle_trade
handle_trade_executed parse fails t db = elim (validate_trade t) [
  | none ↦ settle_trade parse fails t db
  | some message ↦ (false, db)
]

abbrev pub order_row : String → String → Order → OrderRow
order_row event user o = record {
  event_id = event;
  user_id = user;
  order_type = o.order_type;
  outcome = o.outcome;
  side = o.side;
  quantity = o.quantity;
  price = o.price;
  status = o.status;
  filled_quantity = o.filled_quantity;
  remaining_quantity = o.remaining_quantity;
}

unfoldable pub parse_order : (String → Option String) → Order → Option (String × OrderRow)
parse_order parse o = do
  id ← parse o.id
  event ← parse o.event_id
  user ← parse o.user_id
  some (id, order_row event user o)

unfoldable pub handle_order_created : (String → Option String) → Faults → Order → Db → Bool × Db
unfolding parse_order
handle_order_created parse fails o db = elim (parse_order parse o) [
  | none ↦ (false, db)
  | some (id, row) ↦ elim (insert_order fails id row db) [
    | inserted db₁ ↦ (true, db₁)
    | unique_violation ↦ (true, db)
    | insert_error ↦ (false, db)
  ]
]

unfoldable pub handle_order_canceled : (String → Option String) → Faults → String → Db → Bool × Db
handle_order_canceled parse fails order_id db = elim (parse order_id) [
  | none ↦ (false, db)
  | some id ↦ elim (update_order_status fails id Status.canceled db) [
    | none ↦ (false, db)
    | some db₁ ↦ (true, db₁)
  ]
]

-- What reading the partition's fencing token gave: it could not be read, or there is none, or it is
-- the one of the engine that last took the partition.
pub data Token : Type 0 where
  unread missing : Token
  held : ℕ → Token

unfoldable pub fencing_decision : Token → Envelope → Option Bool
unfolding fencing_stale
fencing_decision unread env = none
fencing_decision missing env = some false
fencing_decision (held current) env = some (fencing_stale env.fencing_token current)

-- An event by its type and its data. An event that carries the data of another type, which the
-- engine does not send, is taken to fail.
unfoldable pub handle_event :
    (String → Option String) → Faults → EventType → EventData → Db → Bool × Db
handle_event parse fails EventType.trade_executed (trade_data t) db =
    handle_trade_executed parse fails t db
handle_event parse fails EventType.order_created (order_data o) db =
    handle_order_created parse fails o db
handle_event parse fails EventType.order_canceled (cancel_data id) db =
    handle_order_canceled parse fails id db
handle_event parse fails EventType.order_status x db = (true, db)
handle_event parse fails EventType.depth_updated x db = (true, db)
handle_event parse fails _ x db = (false, db)

-- A stale envelope is dropped and acknowledged.
unfoldable pub handle_envelope :
    (String → Option String) → Faults → Token → Envelope → Db → Bool × Db
unfolding fencing_decision handle_event
handle_envelope parse fails token env db = elim (fencing_decision token env) [
  | none ↦ (false, db)
  | some true ↦ (true, db)
  | some false ↦ handle_event parse fails env.event_type env.payload db
]
