-- ===== src/Engine/Matching.antt =====
-- Matching in internal/engine/engine.go: `buildTrade`, `executePair`, `matchAgainstBook`. The trade
-- ids and times that the source takes from uuid.NewString and the clock come from a `Source`.
pub mod Rounds
pub mod Quantities
pub mod Termination
pub mod Trades
pub mod Addresses
pub mod Completeness
pub mod Terms
pub mod Presence
pub mod Contract
use predix_go_backend.Base.{
  ℕ, zero, suc, ◌≡◌, String, Bool, true, false, Option, none, some, List, [], ◌∷◌, ◌++◌, arith,
  ◌==◌, if◌then◌else◌, string_eq, nat_eq, ltb_ℤ, leb_ℤ, ℤ, pos, add64, sub64, length, get_elem?,
}
use predix_go_backend.Engine.Types.{Order, OrderBook, Heap, Status, Trade, side_buy, store}
use predix_go_backend.Engine.Book.{
  find_counterparty, remove_invalid, remove_order_index, opposite, set_opposite,
}

-- The id and the time of the k-th trade of a command.
pub record Source : Type 0 where
  pub trade_id : ℕ → String
  pub traded_at : ℕ → ℕ

pub record MatchState : Type 0 where
  pub heap : Heap
  pub book : OrderBook
  pub trades : List Trade

unfoldable pub min64 : ℤ → ℤ → ℤ
min64 a b = if ltb_ℤ a b then a else b

unfoldable pub build_trade : Source → ℕ → Order → Order → ℤ → Trade
build_trade src k taker maker quantity = record {
  id = src.trade_id k;
  order_id = taker.id;
  match_order_id = maker.id;
  event_id = taker.event_id;
  outcome = taker.outcome;
  buyer_id = if taker.side == side_buy then taker.user_id else maker.user_id;
  seller_id = if taker.side == side_buy then maker.user_id else taker.user_id;
  taker_side = taker.side;
  quantity = quantity;
  price = maker.price;
  created_at = src.traded_at k;
}

-- `o.RemainingQuantity -= q; o.FilledQuantity += q`
unfoldable pub take_fill : ℤ → Order → Order
take_fill q o = record o {
  remaining_quantity = sub64 o.remaining_quantity q;
  filled_quantity = add64 o.filled_quantity q;
}

-- The status of a resting order after a fill.
unfoldable pub close_fill : Order → Order
close_fill o =
    if leb_ℤ o.remaining_quantity (pos 0)
    then record o { remaining_quantity = pos 0; status = Status.filled }
    else record o { status = Status.partial }

-- The two orders after a fill: first the incoming one is written, then the resting one.
unfoldable pub fill_pair : ℕ → ℕ → ℤ → Heap → Heap
unfolding take_fill close_fill
fill_pair incoming resting q h =
    let h' : Heap = store incoming (take_fill q (h incoming)) h in
    store resting (close_fill (take_fill q (h' resting))) h'

-- `ps` is the slice that `resting` stands in at index `i`.
unfoldable pub execute_pair : Source → ℕ → ℕ → List ℕ → ℕ → MatchState → MatchState
execute_pair src incoming resting ps i s =
    let q = min64 (s.heap incoming).remaining_quantity (s.heap resting).remaining_quantity in
    let h' = fill_pair incoming resting q s.heap in
    let side = (s.heap incoming).side in
    if leb_ℤ q (pos 0) then s else record {
      heap = h';
      book =
          if leb_ℤ (h' resting).remaining_quantity (pos 0)
          then set_opposite side (remove_order_index ps i) s.book
          else s.book;
      trades =
          s.trades ++ build_trade src (length s.trades) (s.heap incoming) (s.heap resting) q ∷ [];
    }

-- One round of the loop: it stops, goes on, or (which is shown not to happen) indexes out of range.
pub data Round : Type 0 where
  stop next : MatchState → Round
  panic : Round

-- The slice is first cut at its front, also when the loop then breaks.
unfoldable pub cut_front : ℕ → MatchState → MatchState
cut_front incoming s =
    let side = (s.heap incoming).side in
    record s { book = set_opposite side (remove_invalid s.heap (opposite side s.book)) s.book }

unfoldable pub match_round : Source → ℕ → MatchState → Round
unfolding cut_front
match_round src incoming s =
    let s' = cut_front incoming s in
    let ps = opposite (s.heap incoming).side s'.book in
    elim (find_counterparty s'.heap ps (s.heap incoming)) [
      | none ↦ stop s'
      | some i ↦ elim (get_elem? ps i) [
        | none ↦ panic
        | some p ↦ next (execute_pair src incoming p ps i s')
      ]
    ]

pub data Outcome : Type 0 where
  finished : MatchState → Outcome
  out_of_fuel index_panic : Outcome

-- `for incoming.RemainingQuantity > 0`, with fuel.
unfoldable pub match_loop : Source → ℕ → ℕ → MatchState → Outcome
match_loop src incoming zero s = out_of_fuel
match_loop src incoming (suc fuel) s = elim (ltb_ℤ (pos 0) (s.heap incoming).remaining_quantity) [
  | false ↦ finished s
  | true ↦ elim (match_round src incoming s) [
    | stop s' ↦ finished s'
    | next s' ↦ match_loop src incoming fuel s'
    | panic ↦ index_panic
  ]
]

-- Every round removes an order or fills the incoming one, so one round more than there are orders
-- is enough.
unfoldable pub match_against_book : Source → ℕ → Heap → OrderBook → Outcome
match_against_book src incoming h book =
    match_loop src incoming (suc (suc (length (opposite (h incoming).side book))))
      (record { heap = h; book = book; trades = [] })
