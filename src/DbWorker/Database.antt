-- ===== src/DbWorker/Database.antt =====
-- The tables that the database worker writes, and its queries, of db/queries.
use predix_go_backend.Base.{
  ◌+◌, String, Bool, true, false, ◌&&◌, Option, none, some, List, [], ◌∷◌, ◌++◌, if◌then◌else◌,
  string_eq, ℤ, pos, pos_part, neg_part, sub_ℕ, add64, ltb_ℤ, leb_ℤ,
}
use predix_go_backend.Dict.{Dict, lookup, insert}
use predix_go_backend.Engine.Types.{Trade, Status}

infixl 15 ◌>>=◌
abbrev pub ◌>>=◌ {ℓ κ} : {A : Type ℓ} {B : Type κ} → Option A → (A → Option B) → Option B
none >>= f = none
some a >>= f = f a

-- Exact sums, as DECIMAL has them.
unfoldable pub plus : ℤ → ℤ → ℤ
plus a b = sub_ℕ (pos_part a + pos_part b) (neg_part a + neg_part b)

unfoldable pub minus : ℤ → ℤ → ℤ
minus a b = sub_ℕ (pos_part a + neg_part b) (neg_part a + pos_part b)

pub record OrderRow : Type 0 where
  pub event_id : String
  pub user_id : String
  pub order_type : String
  pub outcome : String
  pub side : String
  pub quantity : ℤ
  pub price : ℤ
  pub status : Status
  pub filled_quantity : ℤ
  pub remaining_quantity : ℤ

pub record TradeIds : Type 0 where
  pub trade : String
  pub event : String
  pub buyer : String
  pub seller : String
  pub taker : String
  pub maker : String

pub record TransactionRow : Type 0 where
  pub user_id : String
  pub order_id : String
  pub trade_id : String
  pub kind : String
  pub outcome : String
  pub quantity : ℤ
  pub price : ℤ
  pub amount : ℤ

-- Users' balances, orders, trades, positions' shares, transactions, events' volumes.
pub record Db : Type 0 where
  pub users : Dict ℤ
  pub orders : Dict OrderRow
  pub trades : Dict Trade
  pub positions : Dict ℤ
  pub transactions : List TransactionRow
  pub volumes : Dict ℤ

-- The statements that can fail.
pub data Query : Type 0 where
  begin insert_the_trade fill_taker fill_maker deduct credit buyer_position seller_position
        buyer_transaction seller_transaction event_volume commit insert_the_order update_status :
      Query

abbrev pub Faults : Type 0
Faults = Query → Bool

pub data Insertion : Type 0 where
  inserted : Db → Insertion
  unique_violation insert_error : Insertion

abbrev pub exists {ℓ} : {A : Type ℓ} → Option A → Bool
exists none = false
exists (some a) = true

-- The primary key and the references of the trades table.
unfoldable pub insert_trade : Faults → TradeIds → Trade → Db → Insertion
insert_trade fails ids t db =
    if fails Query.insert_the_trade
    then insert_error
    else if exists (lookup ids.trade db.trades)
    then unique_violation
    else if exists (lookup ids.event db.volumes)
        && (exists (lookup ids.taker db.orders)
            && (exists (lookup ids.maker db.orders)
                && (exists (lookup ids.buyer db.users) && exists (lookup ids.seller db.users))))
    then inserted (record db { trades = insert ids.trade t db.trades })
    else insert_error

-- UpdateOrderFill, with the status that the worker computes.
unfoldable pub fill_row : ℤ → OrderRow → OrderRow
fill_row n o =
    let filled = plus o.filled_quantity n in
    let left = minus o.quantity filled in
    record o {
      filled_quantity = filled;
      remaining_quantity = if ltb_ℤ left (pos 0) then pos 0 else left;
      status =
          if leb_ℤ o.quantity (add64 o.filled_quantity n) then Status.filled else Status.partial;
    }

unfoldable pub apply_order_fill : Faults → Query → String → ℤ → Db → Option Db
unfolding fill_row
apply_order_fill fails query id n db = if fails query then none else elim (lookup id db.orders) [
  | none ↦ none
  | some o ↦ some (record db { orders = insert id (fill_row n o) db.orders })
]

-- DeductBalance; no row is changed where the user has less, and the worker gives up.
unfoldable pub deduct_balance : Faults → String → ℤ → Db → Option Db
deduct_balance fails id amount db = if fails Query.deduct then none else elim (lookup id db.users) [
  | none ↦ none
  | some balance ↦
      if leb_ℤ amount balance
      then some (record db { users = insert id (minus balance amount) db.users })
      else none
]

-- AddBalance, which changes no row where there is none.
unfoldable pub add_balance : Faults → String → ℤ → Db → Option Db
add_balance fails id amount db = if fails Query.credit then none else elim (lookup id db.users) [
  | none ↦ some db
  | some balance ↦ some (record db { users = insert id (plus balance amount) db.users })
]

abbrev pub shares_of : Option ℤ → ℤ
shares_of none = pos 0
shares_of (some n) = n

unfoldable pub upsert_position : Faults → Query → String → ℤ → Db → Option Db
upsert_position fails query key n db =
    if fails query
    then none
    else some (record db {
      positions = insert key (plus (shares_of (lookup key db.positions)) n) db.positions;
    })

unfoldable pub insert_transaction : Faults → Query → TransactionRow → Db → Option Db
insert_transaction fails query row db =
    if fails query then none else some (record db { transactions = db.transactions ++ row ∷ [] })

unfoldable pub increment_event_volume : Faults → String → ℤ → Db → Option Db
increment_event_volume fails id amount db =
    if fails Query.event_volume then none else elim (lookup id db.volumes) [
      | none ↦ some db
      | some volume ↦ some (record db { volumes = insert id (plus volume amount) db.volumes })
    ]

unfoldable pub insert_order : Faults → String → OrderRow → Db → Insertion
insert_order fails id row db =
    if fails Query.insert_the_order
    then insert_error
    else if exists (lookup id db.orders)
    then unique_violation
    else if exists (lookup row.event_id db.volumes) && exists (lookup row.user_id db.users)
    then inserted (record db { orders = insert id row db.orders })
    else insert_error

unfoldable pub update_order_status : Faults → String → Status → Db → Option Db
update_order_status fails id status db =
    if fails Query.update_status then none else elim (lookup id db.orders) [
      | none ↦ some db
      | some o ↦ some (record db { orders = insert id (record o { status = status }) db.orders })
    ]
