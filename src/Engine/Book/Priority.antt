-- ===== src/Engine/Book/Priority.antt =====
-- Price-time priority of `addToBook`: dearer bids and cheaper asks stand first, and an order goes
-- behind those that were at its price before it.
use predix_go_backend.Base.{
  ℕ, ◌≡◌, Bool, true, false, not, List, ◌∷◌, ◌++◌, arith, ◌==◌, if◌then◌else◌, string_eq,
  Bool-cases, inl, inr,
}
use predix_go_backend.Sort.{keep, IsSorted}
use predix_go_backend.Sort.Laws
use predix_go_backend.Engine.Types.{OrderBook, Heap, side_buy}
use predix_go_backend.Engine.Book.{add_to_book, bid_less, ask_less}

-- Both sides stand in price order.
pub record IsOrdered (h : Heap) (book : OrderBook) : Type 0 where
  pub bids : IsSorted (bid_less h) book.bids
  pub asks : IsSorted (ask_less h) book.asks

module _ (h : Heap) where
  pub bid_trans :
      (x y z : ℕ) → bid_less h y x ≡ false → bid_less h z y ≡ false → bid_less h z x ≡ false
  bid_trans x y z p q = ground arith

  pub bid_asym : (x y : ℕ) → bid_less h x y ≡ true → bid_less h y x ≡ false
  bid_asym x y p = ground arith

  pub ask_trans :
      (x y z : ℕ) → ask_less h y x ≡ false → ask_less h z y ≡ false → ask_less h z x ≡ false
  ask_trans x y z p q = ground arith

  pub ask_asym : (x y : ℕ) → ask_less h x y ≡ true → ask_less h y x ≡ false
  ask_asym x y p = ground arith

  -- The order that `add_to_book` puts `p` in: behind all that are not worse, before all that are.
  abbrev pub placed : (ℕ → ℕ → Bool) → List ℕ → ℕ → List ℕ
  placed less ps p = keep (λ q. not (less p q)) ps ++ p ∷ keep (less p) ps

  -- Adding an order to a book in price order keeps it so, leaves the other side alone, and puts
  -- the order behind every order of its side that is at least as good and before every worse one,
  -- with no other order moved.
  pub add_to_book_priority :
      (book : OrderBook) (p : ℕ)
      → IsOrdered h book
      → IsOrdered h (add_to_book h book p)
        × (add_to_book h book p ≡ (
            if (h p).side == side_buy
            then record { bids = placed (bid_less h) book.bids p; asks = book.asks }
            else record { bids = book.bids; asks = placed (ask_less h) book.asks p }))
  unfolding add_to_book
  add_to_book_priority book p o = elim (Bool-cases ((h p).side == side_buy)) [
    | inl e ↦ rw e (
      record { bids = Laws.slice_stable-IsSorted (bid_less h) bid_trans bid_asym _; asks = o.asks },
      λ i. record {
        bids = Laws.slice_stable-snoc (bid_less h) bid_trans bid_asym p book.bids o.bids i;
        asks = book.asks;
      },
    )
    | inr e ↦ rw e (
      record { bids = o.bids; asks = Laws.slice_stable-IsSorted (ask_less h) ask_trans ask_asym _ },
      λ i. record {
        bids = book.bids;
        asks = Laws.slice_stable-snoc (ask_less h) ask_trans ask_asym p book.asks o.asks i;
      },
    )
  ]
