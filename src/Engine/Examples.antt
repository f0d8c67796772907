-- ===== src/Engine/Examples.antt =====
-- Test data: two sellers' orders in a book, a buyer's order, and an engine that has one event.
pub mod Books
pub mod Holdings
pub mod Runs
pub mod Streams
pub mod Workers
pub mod Funds
use predix_go_backend.Base.{ℕ, zero, suc, String, [], ◌∷◌, ℤ, pos, false}
use predix_go_backend.Engine.Types.{
  Order, OrderBook, Trade, Heap, Status, side_buy, side_sell, outcome_yes, order_type_limit,
}
use predix_go_backend.Engine.Matching.{Source}

abbrev pub sample_order : String → String → String → ℕ → ℕ → Order
sample_order id user side quantity price = record {
  id = id;
  event_id = "E";
  user_id = user;
  order_type = order_type_limit;
  outcome = outcome_yes;
  side = side;
  quantity = pos quantity;
  filled_quantity = pos 0;
  remaining_quantity = pos quantity;
  price = pos price;
  status = Status.pending;
  locked_funds = pos 0;
  created_at = 0;
}

-- Bob asks 10 for 6, Carol asks 8 for 4; Alice bids 10 for 7.
abbrev pub sample_heap : Heap
sample_heap zero = sample_order "s1" "bob" side_sell 6 10
sample_heap (suc zero) = sample_order "s2" "carol" side_sell 4 8
sample_heap (suc (suc p)) = sample_order "b1" "alice" side_buy 7 10

abbrev pub sample_book : OrderBook
sample_book = record { bids = []; asks = 1 ∷ 0 ∷ [] }

abbrev pub sample_source : Source
sample_source = record { trade_id = λ k. "t"; traded_at = λ k. k }

-- Alice takes a seller's order.
abbrev pub sample_trade : String → String → ℕ → ℕ → ℕ → Trade
sample_trade maker seller quantity price k = record {
  id = "t";
  order_id = "b1";
  match_order_id = maker;
  event_id = "E";
  outcome = outcome_yes;
  buyer_id = "alice";
  seller_id = seller;
  taker_side = side_buy;
  quantity = pos quantity;
  price = pos price;
  created_at = k;
}
