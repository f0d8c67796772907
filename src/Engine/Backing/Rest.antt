-- ===== src/Engine/Backing/Rest.antt =====
-- A write of an order's status, and the order's place on the book after a match.
use predix_go_backend.Base.{
  ℕ, ◌≤◌, ◌≡◌, refl, ap, sym, subst, String, true, false, some, List, [], ◌∷◌, ◌++◌, arith, ◌==◌,
  string_eq, nat_eq, Bool-cases, inl, inr, All-append,
}
use predix_go_backend.Dict.{Dict}
use predix_go_backend.Sort.{All-map}
use predix_go_backend.Sort.Laws.{slice_stable-All}
use predix_go_backend.Engine.Types.{
  status_eq, Order, OrderBook, Market, Trade, Heap, Status, store, side_buy, book_of, set_book,
  outcome_yes, outcome_no,
}
use predix_go_backend.Engine.Book.{add_to_book, bid_less, ask_less}
use predix_go_backend.Engine.Matching.Terms.{SameTerms}
use predix_go_backend.Engine.Ledger.Totals.{cash, shares}
use predix_go_backend.Engine.Core.{Core, set_status}
use predix_go_backend.Engine.Core.Gentle.{set_status-Gentle}
use predix_go_backend.Engine.Backing.{due, is_closed, due-closed, IsCovered}
use predix_go_backend.Engine.Backing.Funded.{
  Covered, Stands, BookStands, MarketStands, IsFunded, markets-moved, IsBacked-same,
}

-- The state after a step that moves no cash and no share out of the ledger.
pub record IsKept (c c' : Core) : Type 0 where
  pub funded : IsFunded c'
  pub cash_kept : cash c'.ledger ≡ cash c.ledger
  pub shares_kept : shares c'.ledger ≡ shares c.ledger

module _ (p : ℕ) (st : Status) (h : Heap) where
  abbrev pub marked : Heap
  marked = store p (record (h p) { status = st }) h

  pub marked-terms : SameTerms h marked
  marked-terms = (set_status-Gentle p st h).0

  pub marked-locks : (q : ℕ) → (marked q).locked_funds ≡ (h q).locked_funds
  marked-locks q = elim (Bool-cases (q == p)) [
    | inl hit ↦ rw hit (ap (λ (x : ℕ). (h x).locked_funds) (sym ((nat_eq.beq_iff q p).0 hit)))
    | inr miss ↦ rw miss refl
  ]

  pub marked-IsCovered :
      (orders : Dict ℕ) (n : ℕ) (ts : List Trade) (q : ℕ)
      → due (record (h p) { status = st }) ≤ due (h p)
      → IsCovered orders n ts q (h q)
      → IsCovered orders n ts q (marked q)
  marked-IsCovered orders n ts q less k = elim (Bool-cases (q == p)) [
    | inr miss ↦ rw miss k
    | inl hit ↦
        let same : q ≡ p = (nat_eq.beq_iff q p).0 hit in
        let k' : IsCovered orders n ts q (h p) =
          subst (λ (x : ℕ). IsCovered orders n ts q (h x)) same k in
        rw hit (record {
          allocated = k'.allocated;
          registered = k'.registered;
          price = k'.price;
          lock = k'.lock;
          covered = omega (arith, less, k'.covered);
        })
  ]

-- Closing an order.
pub set_status-IsKept :
    (p : ℕ) (st : Status) (c : Core)
    → is_closed (record (c.heap p) { status = st }) ≡ true
    → IsFunded c
    → IsKept c (set_status p st c)
set_status-IsKept p st c closed f =
    let o : Order = record (c.heap p) { status = st } in
    let keeps = λ (q : ℕ) (k : Covered c q).
      marked-IsCovered p st c.heap c.orders c.next_address [] q (omega (arith, due-closed o closed))
        k in
    record {
      funded = record {
        backed =
            IsBacked-same c.heap (marked p st c.heap) c.next_address c.ledger
              (marked-terms p st c.heap) (marked-locks p st c.heap) f.backed;
        markets =
            markets-moved (Covered c) (Covered (set_status p st c)) c.heap (marked p st c.heap)
              (marked-terms p st c.heap) keeps c.markets f.markets;
        known = All-map _ _ c.orders (λ e. keeps e.1) f.known;
      };
      cash_kept = refl;
      shares_kept = refl;
    }

module _ (E : ℕ → Type 0) (h : Heap) (event : String) where
  -- The order goes on its own side.
  pub add_to_book-Stands :
      (book : OrderBook) (p : ℕ)
      → E p
      → (h p).event_id ≡ event
      → BookStands E h event book
      → BookStands E h event (add_to_book h book p)
  unfolding add_to_book
  add_to_book-Stands book p e ev b = elim (Bool-cases ((h p).side == side_buy)) [
    | inl buy ↦ rw buy (
      slice_stable-All (bid_less h) (Stands E h event true) (book.bids ++ p ∷ [])
          (All-append (Stands E h event true) book.bids _ b.0 ((e, buy, ev), tt)),
      b.1,
    )
    | inr sell ↦ rw sell (
      b.0,
      slice_stable-All (ask_less h) (Stands E h event false) (book.asks ++ p ∷ [])
          (All-append (Stands E h event false) book.asks _ b.1 ((e, sell, ev), tt)),
    )
  ]

  pub set_book-Stands :
      (m : Market) (outcome : String) (book : OrderBook)
      → MarketStands E h (event, m)
      → BookStands E h event book
      → MarketStands E h (event, set_book outcome book m)
  unfolding set_book
  set_book-Stands m outcome book a b = elim (Bool-cases (outcome == outcome_yes)) [
    | inl e ↦ rw e (b, a.1)
    | inr e ↦ rw e (a.0, b)
  ]

  pub book_of-Stands :
      (m : Market) (outcome : String) (book : OrderBook)
      → MarketStands E h (event, m)
      → book_of m outcome ≡ some book
      → BookStands E h event book
  unfolding book_of
  book_of-Stands m outcome book a e = elim (Bool-cases (outcome == outcome_yes)) [
    | inl y ↦ let same : m.yes_book ≡ book = ground arith in subst (BookStands E h event) same a.0
    | inr y ↦ elim (Bool-cases (outcome == outcome_no)) [
      | inl z ↦ let same : m.no_book ≡ book = ground arith in subst (BookStands E h event) same a.1
      | inr z ↦ absurd (ground arith)
    ]
  ]
