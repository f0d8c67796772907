-- ===== src/Engine/Examples/Books.antt =====
-- The book and matching on the sample orders.
use predix_go_backend.Base.{
  ℕ, zero, suc, ◌≡◌, refl, [], ◌∷◌, pos, false, true, some, ◌≤◌, get_elem?, ◌<◌, ◌^◌, arith, String,
  sub64,
}
use predix_go_backend.Sort.{keep}
use predix_go_backend.Engine.Types.{Heap, Trade, side_buy, side_sell}
use predix_go_backend.Engine.Book.{
  set_opposite, remove_invalid, remove_order_index, add_to_book, find_counterparty, opposite,
  is_tradable, is_dead, can_match,
}
use predix_go_backend.Engine.Book.Priority.{IsOrdered, add_to_book_priority}
use predix_go_backend.Engine.Book.Scan.{find_counterparty_best, is_better}
use predix_go_backend.Engine.Matching.{
  MatchState, finished, match_loop, match_round, execute_pair, match_against_book, fill_pair, min64,
  build_trade,
}
use predix_go_backend.Engine.Matching.Quantities.{IsConserved, HeapIsConserved}
use predix_go_backend.Engine.Matching.Termination.{match_against_book_ends}
use predix_go_backend.Engine.Matching.Contract.{IsMatched, match_against_book_contract}
use predix_go_backend.Engine.Examples.{
  sample_trade, sample_order, sample_heap, sample_book, sample_source,
}

pub sample_order-IsConserved :
    (id user side : String) (quantity price : ℕ)
    → quantity < 2 ^ 63
    → IsConserved (sample_order id user side quantity price)
sample_order-IsConserved id user side quantity price fits = record {
  whole = (refl, fits);
  filled = (refl, omega arith);
  remaining = (refl, fits);
  total = omega arith;
}

pub sample_heap-IsConserved : HeapIsConserved sample_heap
sample_heap-IsConserved zero = sample_order-IsConserved "s1" "bob" side_sell 6 10 (omega arith)
sample_heap-IsConserved (suc zero) =
    sample_order-IsConserved "s2" "carol" side_sell 4 8 (omega arith)
sample_heap-IsConserved (suc (suc p)) =
    sample_order-IsConserved "b1" "alice" side_buy 7 10 (omega arith)

sample_book-IsOrdered : IsOrdered sample_heap sample_book
sample_book-IsOrdered = record { bids = tt; asks = ((refl, tt), (tt, tt)) }

add_to_book_priority_example :
    IsOrdered sample_heap (add_to_book sample_heap sample_book 0)
    × (add_to_book sample_heap sample_book 0 ≡ record { bids = []; asks = 1 ∷ 0 ∷ 0 ∷ [] })
unfolding keep
add_to_book_priority_example = add_to_book_priority sample_heap sample_book 0 sample_book-IsOrdered

find_counterparty_best_example :
    (p : ℕ) × (get_elem? (1 ∷ 0 ∷ []) 0 ≡ some p)
    × (is_tradable (sample_heap 2) (sample_heap p) ≡ true)
    × (is_better sample_heap side_buy 0 p ≡ false)
    × (0 ≤ 1)
unfolding find_counterparty opposite is_tradable is_dead can_match
find_counterparty_best_example =
    find_counterparty_best sample_heap (sample_heap 2) sample_book 0 1 0 sample_book-IsOrdered refl
      refl refl

-- Alice buys Carol's 4 and 3 of Bob's.
abbrev pub matched_heap : Heap
matched_heap = fill_pair 2 0 (pos 3) (fill_pair 2 1 (pos 4) sample_heap)

abbrev start : MatchState
start = record { heap = sample_heap; book = sample_book; trades = [] }

abbrev first_trade : Trade
first_trade = sample_trade "s2" "carol" 4 8 0

abbrev second_trade : Trade
second_trade = sample_trade "s1" "bob" 3 10 1

abbrev matched : MatchState
matched = record {
  heap = matched_heap;
  book = record { bids = []; asks = 0 ∷ [] };
  trades = first_trade ∷ second_trade ∷ [];
}

matched_run : match_loop sample_source 2 4 start ≡ finished matched
unfolding match_loop match_round execute_pair fill_pair find_counterparty opposite set_opposite
    remove_invalid is_tradable min64 sub64 remove_order_index build_trade
matched_run = refl

match_against_book_contract_example :
    (s : MatchState) × (match_against_book sample_source 2 sample_heap sample_book ≡ finished s)
    × IsMatched 2 sample_heap sample_book s
match_against_book_contract_example =
    match_against_book_contract sample_source 2 sample_heap sample_book sample_heap-IsConserved
      sample_book-IsOrdered

match_against_book_ends_example :
    (s : MatchState) × (match_against_book sample_source 2 sample_heap sample_book ≡ finished s)
match_against_book_ends_example =
    match_against_book_ends sample_source 2 sample_heap sample_book sample_heap-IsConserved
