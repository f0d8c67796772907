-- ===== src/Engine/Book.antt =====
-- The order book of internal/engine/engine.go: insertion by price and time, removal, the scan for a
-- counterparty. An incoming order is matched against the opposite side of its book.
pub mod Priority
pub mod Scan
use predix_go_backend.Base.{
  ℕ, zero, suc, ◌≡◌, String, Bool, true, false, not, ◌&&◌, ◌||◌, Option, none, some, List, [], ◌∷◌,
  ◌++◌, arith, ◌==◌, if◌then◌else◌, string_eq, ltb_ℤ, leb_ℤ, pos,
}
use predix_go_backend.Sort.{slice_stable}
use predix_go_backend.Engine.Types.{
  Order, OrderBook, Heap, Status, status_eq, side_buy, side_sell, order_type_market,
}

unfoldable pub can_match : Order → Order → Bool
can_match incoming resting =
    if not (incoming.outcome == resting.outcome)
    then false
    else if incoming.order_type == order_type_market
    then true
    else if incoming.side == side_buy
    then leb_ℤ resting.price incoming.price
    else if incoming.side == side_sell
    then leb_ℤ incoming.price resting.price
    else false

-- The order has been filled, canceled or rejected, or has nothing left.
unfoldable pub is_dead : Order → Bool
is_dead o =
    (o.status == Status.filled)
    || ((o.status == Status.canceled)
        || ((o.status == Status.rejected) || leb_ℤ o.remaining_quantity (pos 0)))

-- What `findCounterparty` asks of a resting order: the three tests of its loop.
unfoldable pub is_tradable : Order → Order → Bool
unfolding can_match is_dead
is_tradable incoming resting =
    if is_dead resting
    then false
    else if resting.user_id == incoming.user_id
    then false
    else can_match incoming resting

-- The index of the first tradable order; `none` is the -1 of the source.
unfoldable pub find_counterparty : Heap → List ℕ → Order → Option ℕ
find_counterparty h [] incoming = none
find_counterparty h (p ∷ ps) incoming =
    let later = find_counterparty h ps incoming in
    if is_tradable incoming (h p)
    then some 0
    else elim later [ none ↦ none | some i ↦ some (suc i) ]

-- `removeInvalidBids` and `removeInvalidAsks`, which have one body, on the slice that each cuts.
unfoldable pub remove_invalid : Heap → List ℕ → List ℕ
remove_invalid h [] = []
remove_invalid h (p ∷ ps) =
    let later = remove_invalid h ps in
    if ((h p).status == Status.filled)
      || (((h p).status == Status.canceled) || leb_ℤ (h p).remaining_quantity (pos 0))
    then later
    else p ∷ ps

unfoldable pub remove_order_index : List ℕ → ℕ → List ℕ
remove_order_index [] i = []
remove_order_index (p ∷ ps) zero = ps
remove_order_index (p ∷ ps) (suc i) = p ∷ remove_order_index ps i

-- The first order of that id leaves the slice.
unfoldable pub remove_order_from_slice : Heap → List ℕ → String → List ℕ
remove_order_from_slice h [] order_id = []
remove_order_from_slice h (p ∷ ps) order_id =
    if (h p).id == order_id then ps else p ∷ remove_order_from_slice h ps order_id

-- The comparisons that `addToBook` sorts by: dearer bids first, cheaper asks first.
abbrev pub bid_less : Heap → ℕ → ℕ → Bool
bid_less h p q = ltb_ℤ (h q).price (h p).price

abbrev pub ask_less : Heap → ℕ → ℕ → Bool
ask_less h p q = ltb_ℤ (h p).price (h q).price

unfoldable pub add_to_book : Heap → OrderBook → ℕ → OrderBook
add_to_book h book p =
    if (h p).side == side_buy
    then record book { bids = slice_stable (bid_less h) (book.bids ++ p ∷ []) }
    else record book { asks = slice_stable (ask_less h) (book.asks ++ p ∷ []) }

-- The side of the book that an order of the given side trades against, and a write to it.
unfoldable pub opposite : String → OrderBook → List ℕ
opposite side book = if side == side_buy then book.asks else book.bids

unfoldable pub set_opposite : String → List ℕ → OrderBook → OrderBook
set_opposite side ps book =
    if side == side_buy then record book { asks = ps } else record book { bids = ps }

pub opposite-set_opposite :
    (side : String) (ps : List ℕ) (book : OrderBook)
    → opposite side (set_opposite side ps book) ≡ ps
unfolding opposite set_opposite
opposite-set_opposite side ps book = ground arith
