-- ===== src/Engine/Matching/Contract.antt =====
-- What `matchAgainstBook` promises to `matchOrder`: the laws of one whole run, for the modules that
-- follow it. The laws of its loop are in the modules beside this one.
use predix_go_backend.Base.{
  ℕ, suc, ◌+◌, ◌≡◌, false, pos, ◌⊎◌, All, ltb_ℤ, pos_part, arith, length, [],
}
use predix_go_backend.Engine.Types.{Heap, OrderBook}
use predix_go_backend.Engine.Book.{opposite}
use predix_go_backend.Engine.Book.Priority.{IsOrdered}
use predix_go_backend.Engine.Matching.{Source, MatchState, finished, match_against_book}
use predix_go_backend.Engine.Matching.Quantities.{HeapIsConserved, traded, match_loop_accounts}
use predix_go_backend.Engine.Matching.Termination.{match_against_book_ends}
use predix_go_backend.Engine.Matching.Terms.{SameTerms, match_loop_order}
use predix_go_backend.Engine.Matching.Trades.{IsLegal, match_loop-IsLegal}
use predix_go_backend.Engine.Matching.Presence.{Keeps, match_loop-Keeps}
use predix_go_backend.Engine.Matching.Completeness.{Exhausted, match_loop_complete}

-- The end of a run of the order at `incoming` against a book.
pub record IsMatched (incoming : ℕ) (h : Heap) (book : OrderBook) (s : MatchState) : Type 0 where
  -- Every order's filled and remaining quantity still add up.
  pub conserved : HeapIsConserved s.heap
  -- What was traded is what the order lost of its remainder.
  pub accounts :
      traded s.trades + pos_part (s.heap incoming).remaining_quantity
      ≡ pos_part (h incoming).remaining_quantity
  pub legal : All (IsLegal (h incoming)) s.trades
  -- The order has nothing left, or nobody is left that it could trade with.
  pub exhausted :
      (ltb_ℤ (pos 0) (s.heap incoming).remaining_quantity ≡ false) ⊎ Exhausted incoming s
  -- No live order has left the other side, and the order's own side is as it was.
  pub keeps : Keeps incoming (h incoming).side book s
  pub terms : SameTerms h s.heap
  pub ordered : IsOrdered s.heap s.book

-- Matching an order against a book in price order, of orders whose quantities add up, ends with all
-- of this: quantities still add up, the traded quantity is what the order lost of its remainder,
-- every trade is legal for the order, the order has nothing left or finds no tradable order on the
-- other side, no live order has left that side and the order's own side is as it was, no order's
-- terms have changed, and the book is in price order.
pub match_against_book_contract :
    (src : Source) (incoming : ℕ) (h : Heap) (book : OrderBook)
    → HeapIsConserved h
    → IsOrdered h book
    → (s : MatchState) × (match_against_book src incoming h book ≡ finished s)
      × IsMatched incoming h book s
unfolding match_against_book
match_against_book_contract src incoming h book k o =
    let fuel : ℕ = suc (suc (length (opposite (h incoming).side book))) in
    let start : MatchState = record { heap = h; book = book; trades = [] } in
    let (s, e) = match_against_book_ends src incoming h book k in
    let (kept, accounts) = match_loop_accounts src incoming fuel start s k e in
    let (same, ordered) = match_loop_order src incoming fuel start s o e in
    (
      s,
      e,
      record {
        conserved = kept;
        accounts = omega (arith, accounts);
        legal = match_loop-IsLegal src incoming fuel start s tt e;
        exhausted = match_loop_complete src incoming fuel start s e;
        keeps = match_loop-Keeps src incoming fuel start s e;
        terms = same;
        ordered = ordered;
      },
    )
