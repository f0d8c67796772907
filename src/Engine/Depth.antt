-- ===== src/Engine/Depth.antt =====
-- `aggregateBids` and `aggregateAsks` of internal/engine/engine.go: the open quantity per price.
-- The Go map of levels is a list with one entry a price, whose order the final sort hides.
pub mod Levels
pub mod Quantities
use predix_go_backend.Base.{
  ℕ, String, Bool, true, false, not, ◌||◌, List, [], ◌∷◌, map, foldl, ◌==◌, if◌then◌else◌, int_eq,
  leb_ℤ, ltb_ℤ, ℤ, pos, add64, mul64,
}
use predix_go_backend.Sort.{slice_stable}
use predix_go_backend.Engine.Types.{Order, Heap, Status, status_eq, OrderBookEntry}

pub record Level : Type 0 where
  pub price : ℤ
  pub quantity : ℤ
  pub count : ℤ

-- The statuses of an order that is open.
unfoldable pub is_open : Order → Bool
is_open o = (o.status == Status.pending) || (o.status == Status.partial)

unfoldable pub add_level : ℤ → ℤ → List Level → List Level
add_level price q [] =
    record { price = price; quantity = add64 (pos 0) q; count = add64 (pos 0) (pos 1) } ∷ []
add_level price q (l ∷ ls) =
    if l.price == price
    then record l { quantity = add64 l.quantity q; count = add64 l.count (pos 1) } ∷ ls
    else l ∷ add_level price q ls

unfoldable pub count_order : List Level → Order → List Level
unfolding is_open add_level
count_order levels o =
    if not (is_open o)
    then levels
    else if leb_ℤ o.remaining_quantity (pos 0)
    then levels
    else add_level o.price o.remaining_quantity levels

unfoldable pub collect_levels : Heap → List ℕ → List Level → List Level
unfolding count_order
collect_levels h [] levels = levels
collect_levels h (p ∷ ps) levels = collect_levels h ps (count_order levels (h p))

unfoldable pub level_entry : Level → OrderBookEntry
level_entry l = record {
  price = l.price;
  quantity = l.quantity;
  total = mul64 l.price l.quantity;
  order_count = l.count;
}

abbrev pub dearer : OrderBookEntry → OrderBookEntry → Bool
dearer a b = ltb_ℤ b.price a.price

abbrev pub cheaper : OrderBookEntry → OrderBookEntry → Bool
cheaper a b = ltb_ℤ a.price b.price

unfoldable pub aggregate_bids : Heap → List ℕ → List OrderBookEntry
unfolding collect_levels level_entry
aggregate_bids h ps = slice_stable dearer (map level_entry (collect_levels h ps []))

unfoldable pub aggregate_asks : Heap → List ℕ → List OrderBookEntry
unfolding collect_levels level_entry
aggregate_asks h ps = slice_stable cheaper (map level_entry (collect_levels h ps []))
