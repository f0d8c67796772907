-- ===== src/Engine/Core.antt =====
-- The engine's state behind its mutex, without the event bus, and `matchOrder` of
-- internal/engine/engine.go on it. The order objects live in `heap`; `orders` maps an id to the
-- address of its object, which books share.
pub mod Invariant
pub mod Gentle
pub mod Settle
use predix_go_backend.Base.{
  ℕ, ◌≡◌, String, Bool, true, false, ◌||◌, Option, none, some, List, [], ◌∷◌, foldl, ◌==◌,
  if◌then◌else◌, string_eq, nat_eq, int_eq, ltb_ℤ, ℤ, pos,
}
use predix_go_backend.Dict.{Dict, lookup, insert}
use predix_go_backend.Engine.Types.{
  Order, OrderBook, Market, Heap, Status, status_eq, Trade, book_of, set_book, order_type_limit,
  order_type_market, store,
}
use predix_go_backend.Engine.Book.{add_to_book}
use predix_go_backend.Engine.Matching.{
  Source, MatchState, Outcome, finished, out_of_fuel, index_panic, match_against_book,
}
use predix_go_backend.Engine.Ledger.{Ledger, settle_holdings, settle_orders, release_order}

pub record Core : Type 0 where
  pub markets : Dict Market
  pub orders : Dict ℕ
  pub ledger : Ledger
  pub heap : Heap
  -- The address that the next order object gets.
  pub next_address : ℕ

-- The status of an order that has been matched.
unfoldable pub matched_status : Order → Status
matched_status o =
    if o.remaining_quantity == pos 0
    then Status.filled
    else if ltb_ℤ (pos 0) o.filled_quantity
    then if o.order_type == order_type_limit then Status.partial else Status.canceled
    else if o.order_type == order_type_market
    then Status.canceled
    else Status.pending

abbrev pub rests : Status → Bool
rests Status.pending = true
rests Status.partial = true
rests _ = false

-- The order gets its status, and an order that stays open goes on the book.
unfoldable pub rest_order : ℕ → MatchState → MatchState
unfolding matched_status
rest_order p s =
    let status = matched_status (s.heap p) in
    let h = store p (record (s.heap p) { status = status }) s.heap in
    record s { heap = h; book = if rests status then add_to_book h s.book p else s.book }

unfoldable pub settle_trade_locked : Core → Trade → Core
settle_trade_locked c t = record c {
  ledger = settle_holdings t c.ledger;
  heap = settle_orders c.orders t c.heap;
}

unfoldable pub release_at : ℕ → Core → Core
release_at p c =
    let (o, l) = release_order (c.heap p) c.ledger in
    record c { heap = store p o c.heap; ledger = l }

abbrev pub set_status : ℕ → Status → Core → Core
set_status p status c = record c { heap = store p (record (c.heap p) { status = status }) c.heap }

-- What follows the matching loop: the status, the book, the ledger, and the release of an order
-- that does not rest.
unfoldable pub close_match : ℕ → Order → Market → MatchState → Core → Core
unfolding rest_order settle_trade_locked release_at
close_match p o m s c =
    let s' = rest_order p s in
    let booked = record c {
      heap = s'.heap;
      markets = insert o.event_id (set_book o.outcome s'.book m) c.markets;
    } in
    let settled = foldl settle_trade_locked booked s.trades in
    let status = (settled.heap p).status in
    if (status == Status.filled) || (status == Status.canceled)
    then release_at p settled
    else settled

-- `none` stands for a loop that does not end or indexes out of range.
unfoldable pub match_order : Source → ℕ → Core → Option (Core × List Trade)
unfolding close_match
match_order src p c =
    let o = c.heap p in
    if o.status == Status.canceled then some (c, []) else elim (lookup o.event_id c.markets) [
      | none ↦ some (set_status p Status.rejected c, [])
      | some m ↦ elim (book_of m o.outcome) [
        | none ↦ some (set_status p Status.rejected c, [])
        | some book ↦ elim (match_against_book src p c.heap book) [
          | finished s ↦ some (close_match p o m s c, s.trades)
          | out_of_fuel ↦ none
          | index_panic ↦ none
        ]
      ]
    ]
