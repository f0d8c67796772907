-- ===== src/Engine/Types.antt =====
-- internal/engine/types.go. An `*Order` is an address in a heap, since books and the order map
-- share the order objects and matching updates them in place. Identifiers and the request's words
-- are strings as in the source; a status, which only the engine assigns, is a data type; times are
-- numbers.
use predix_go_backend.Base.{
  ℕ, ◌*◌, ◌≡◌, ◌↔◌, String, Bool, true, false, List, [], arith, ◌==◌, if◌then◌else◌, Comparable, ℤ,
  pos, Option, none, some, string_eq, nat_eq,
}

abbrev pub side_buy : String
side_buy = "BUY"

abbrev pub side_sell : String
side_sell = "SELL"

abbrev pub outcome_yes : String
outcome_yes = "YES"

abbrev pub outcome_no : String
outcome_no = "NO"

abbrev pub order_type_limit : String
order_type_limit = "LIMIT"

abbrev pub order_type_market : String
order_type_market = "MARKET"

pub data Status : Type 0 where
  pending partial filled canceled rejected : Status

abbrev pub status_beq : Status → Status → Bool
status_beq Status.pending Status.pending = true
status_beq Status.partial Status.partial = true
status_beq Status.filled Status.filled = true
status_beq Status.canceled Status.canceled = true
status_beq Status.rejected Status.rejected = true
status_beq _ _ = false

pub status_beq_iff : (a b : Status) → (status_beq a b ≡ true) ↔ (a ≡ b)
status_beq_iff a b = ground arith

instance abbrev pub status_eq : Comparable Status
status_eq = record { beq = status_beq; beq_iff = status_beq_iff }

-- Prices are in units of 1/10000.
abbrev pub price_scale : ℕ
price_scale = 10000

abbrev pub default_starting_balance : ℤ
default_starting_balance = pos (100 * price_scale)

pub record Balance : Type 0 where
  pub available : ℤ
  pub reserved : ℤ

pub record Position : Type 0 where
  pub available : ℤ
  pub reserved : ℤ

pub record Order : Type 0 where
  pub id : String
  pub event_id : String
  pub user_id : String
  pub order_type : String
  pub outcome : String
  pub side : String
  pub quantity : ℤ
  pub filled_quantity : ℤ
  pub remaining_quantity : ℤ
  pub price : ℤ
  pub status : Status
  pub locked_funds : ℤ
  pub created_at : ℕ

pub record Trade : Type 0 where
  pub id : String
  pub order_id : String
  pub match_order_id : String
  pub event_id : String
  pub outcome : String
  pub buyer_id : String
  pub seller_id : String
  pub taker_side : String
  pub quantity : ℤ
  pub price : ℤ
  pub created_at : ℕ

-- Addresses of orders, in Go a slice of pointers.
pub record OrderBook : Type 0 where
  pub bids : List ℕ
  pub asks : List ℕ

pub record Market : Type 0 where
  pub yes_book : OrderBook
  pub no_book : OrderBook

abbrev pub empty_book : OrderBook
empty_book = record { bids = []; asks = [] }

unfoldable pub new_market : Market
new_market = record { yes_book = empty_book; no_book = empty_book }

unfoldable pub book_of : Market → String → Option OrderBook
book_of m outcome =
    if outcome == outcome_yes
    then some m.yes_book
    else if outcome == outcome_no
    then some m.no_book
    else none

-- The write through the pointer that `book_of` returned.
unfoldable pub set_book : String → OrderBook → Market → Market
set_book outcome b m =
    if outcome == outcome_yes then record m { yes_book = b } else record m { no_book = b }

pub record OrderBookEntry : Type 0 where
  pub price : ℤ
  pub quantity : ℤ
  pub total : ℤ
  pub order_count : ℤ

-- The order objects, by address.
abbrev pub Heap : Type 0
Heap = ℕ → Order

-- `*p = o`
abbrev pub store : ℕ → Order → Heap → Heap
store p o h q = if q == p then o else h q
