-- ===== src/Engine/Backing/Match.antt =====
-- `matchOrder` on a limit order: every lock stays backed, every order on a book covered, and the
-- ledger holds the cash and the shares that it held.
use predix_go_backend.Base.{
  arith, false, ℕ, ◌^◌, ◌<◌, ◌≤◌, ◌≡◌, refl, ap, ◌∙◌, sym, subst, String, true, not, ◌||◌, Option,
  none, some, List, [], foldl, ◌==◌, string_eq, nat_eq, Bool-cases, Option-cases, inl, inr, All,
}
use predix_go_backend.Sort.{All-map}
use predix_go_backend.Dict.{lookup, insert}
use predix_go_backend.Engine.Types.{
  Order, OrderBook, Market, Trade, Heap, Status, status_eq, book_of, set_book, order_type_limit,
}
use predix_go_backend.Engine.Book.{opposite}
use predix_go_backend.Engine.Ledger.Totals.{cash, shares}
use predix_go_backend.Engine.Matching.{MatchState, Source, finished, match_against_book}
use predix_go_backend.Engine.Matching.Quantities.{HeapIsConserved}
use predix_go_backend.Engine.Matching.Presence.{own_side, match_loop-Keeps}
use predix_go_backend.Engine.Matching.Terms.{terms, SameTerms}
use predix_go_backend.Engine.Core.{
  Core, matched_status, rest_order, rests, settle_trade_locked, release_at, close_match,
  match_order,
}
use predix_go_backend.Engine.Commands.Known.{Outcome-cases}
use predix_go_backend.Engine.Backing.{is_closed, due, gross, is_buy, IsCovered, IsGenuine}
use predix_go_backend.Engine.Backing.Charging.{IsGenuine-terms}
use predix_go_backend.Engine.Backing.Settled.{IsSettled, settle_all-IsSettled}
use predix_go_backend.Engine.Backing.Loop.{Rests, IsTrading, match_loop-IsTrading}
use predix_go_backend.Engine.Backing.Funded.{
  Covered, BookStands, MarketStands, IsFunded, All-found, All-put, BookStands-moved, markets-moved,
  IsBacked-same,
}
use predix_go_backend.Engine.Backing.Rest.{
  IsKept, marked, marked-terms, marked-locks, marked-IsCovered, set_status-IsKept,
  add_to_book-Stands, set_book-Stands, book_of-Stands,
}
use predix_go_backend.Engine.Backing.Close.{
  settled-frame, release_at-IsKept, limit-no_market, settled-due, left-Stands,
}

event-terms : (a b : Order) → terms a ≡ terms b → a.event_id ≡ b.event_id
unfolding terms
event-terms a b e = ap (λ (o : Order). o.event_id) e

pub IsKept-trans : (a b c : Core) → IsKept a b → IsKept b c → IsKept a c
IsKept-trans a b c x y = record {
  funded = y.funded;
  cash_kept = y.cash_kept ∙ x.cash_kept;
  shares_kept = y.shares_kept ∙ x.shares_kept;
}

module _ (src : Source) (p : ℕ) (c : Core) (v : HeapIsConserved c.heap) (f : IsFunded c)
    (small : cash c.ledger < 2 ^ 62) (few : shares c.ledger < 2 ^ 62) (in_play : Covered c p)
    (limit : ((c.heap p).order_type == order_type_limit) ≡ true)
    (live : is_closed (c.heap p) ≡ false) where
  abbrev event : String
  event = (c.heap p).event_id

  -- The opposite side of the book is made of makers.
  against_book :
      (book : OrderBook)
      → BookStands (Covered c) c.heap event book
      → All
          (Rests src c.orders c.next_address c.heap
            (Covered c)
            p
            in_play
            (limit-no_market (c.heap p) limit))
          (opposite (c.heap p).side book)
  unfolding opposite
  against_book book b = elim (Bool-cases (is_buy (c.heap p))) [
    | inl buy ↦ rw buy (All-map _ _ book.asks (λ q x. (x.0, (x.1 ∙ ap not (sym buy), x.2))) b.1)
    | inr sell ↦ rw sell (All-map _ _ book.bids (λ q x. (x.0, (x.1 ∙ ap not (sym sell), x.2))) b.0)
  ]

  module _ (m : Market) (book : OrderBook) (s : MatchState)
      (market : lookup event c.markets ≡ some m) (has : book_of m (c.heap p).outcome ≡ some book)
      (done : match_against_book src p c.heap book ≡ finished s) where
    m_stands : MarketStands (Covered c) c.heap (event, m)
    m_stands = All-found (MarketStands (Covered c) c.heap) event m c.markets f.markets market

    book_stands : BookStands (Covered c) c.heap event book
    book_stands = book_of-Stands (Covered c) c.heap event m (c.heap p).outcome book m_stands has

    traded :
        IsTrading src c.orders c.next_address c.heap
          (Covered c)
          p
          in_play
          (limit-no_market (c.heap p) limit)
          s
    unfolding match_against_book
    traded =
        match_loop-IsTrading src c.orders c.next_address c.heap (Covered c) p in_play
          (limit-no_market (c.heap p) limit) _ (record { heap = c.heap; book = book; trades = [] })
          s
          (record {
            same = λ q. refl;
            locks = λ q. refl;
            live = live;
            conserved = v;
            against = against_book book book_stands;
            covered = λ q e. e;
            genuine = tt;
          })
          done

    own_kept : own_side (c.heap p).side s.book ≡ own_side (c.heap p).side book
    unfolding match_against_book
    own_kept =
        (match_loop-Keeps src p _ (record { heap = c.heap; book = book; trades = [] }) s done).1

    abbrev status : Status
    status = matched_status (s.heap p)

    abbrev resting : Heap
    resting = marked p status s.heap

    -- Closing the order leaves it nothing to give, and any other status what it had.
    less : due (record (s.heap p) { status = status }) ≤ due (s.heap p)
    unfolding due gross
    less = elim (Bool-cases (is_closed (record (s.heap p) { status = status }))) [
      | inl closed ↦ rw closed (omega arith)
      | inr open_still ↦ rw (open_still, traded.live) (omega arith)
    ]

    resting_terms : SameTerms c.heap resting
    resting_terms q = marked-terms p status s.heap q ∙ traded.same q

    rested_stands : BookStands (Covered c) resting event (rest_order p s).book
    unfolding rest_order
    rested_stands =
        let left =
          BookStands-moved (Covered c) (Covered c) c.heap resting resting_terms (λ q e. e) event
            s.book
            (left-Stands (Covered c) c.heap (c.heap p) book s.book book_stands own_kept
              traded.against) in
        elim (Bool-cases (rests status)) [
          | inl open_still ↦ rw open_still (
              add_to_book-Stands (Covered c) resting event s.book p in_play
                (event-terms (resting p) (c.heap p) (resting_terms p)) left)
          | inr closed ↦ rw closed left
        ]

    abbrev booked : Core
    booked = record c {
      heap = (rest_order p s).heap;
      markets = insert event (set_book (c.heap p).outcome (rest_order p s).book m) c.markets;
    }

    abbrev settled : Core
    settled = foldl settle_trade_locked booked s.trades

    settled_lem : IsSettled (Covered c) booked [] settled.heap settled.ledger
    unfolding rest_order
    settled_lem =
        settle_all-IsSettled (Covered c) s.trades booked small few
          (IsBacked-same c.heap resting c.next_address c.ledger resting_terms
            (λ q. marked-locks p status s.heap q ∙ traded.locks q) f.backed)
          (λ q e.
            marked-IsCovered p status s.heap c.orders c.next_address s.trades q less
              (traded.covered q e))
          (All-map (IsGenuine c.orders c.heap (Covered c)) (IsGenuine c.orders resting (Covered c))
            s.trades (λ t. IsGenuine-terms c.orders c.heap resting (Covered c) t resting_terms)
            traded.genuine)

    -- The settled state, with what settling does not write as it was.
    framed : Core
    framed = record booked { heap = settled.heap; ledger = settled.ledger }

    framed-IsKept : IsKept c framed
    unfolding framed rest_order
    framed-IsKept = record {
      funded = record {
        backed = settled_lem.backed;
        markets =
            markets-moved (Covered c) (λ q. IsCovered c.orders c.next_address [] q (settled.heap q))
              resting settled.heap settled_lem.same settled_lem.covered booked.markets
              (All-put (MarketStands (Covered c) resting) event _ c.markets
                (set_book-Stands (Covered c) resting event m (c.heap p).outcome
                  (rest_order p s).book
                  (
                    BookStands-moved (Covered c) (Covered c) c.heap resting resting_terms (λ q e. e)
                        event m.yes_book m_stands.0,
                    BookStands-moved (Covered c) (Covered c) c.heap resting resting_terms (λ q e. e)
                        event m.no_book m_stands.1,
                  )
                  rested_stands)
                (markets-moved (Covered c) (Covered c) c.heap resting resting_terms (λ q e. e)
                  c.markets f.markets));
        known = All-map _ _ c.orders (λ e. settled_lem.covered e.1) f.known;
      };
      cash_kept = settled_lem.cash_kept;
      shares_kept = settled_lem.shares_kept;
    }

    close_match-IsKept : IsKept c (close_match p (c.heap p) m s c)
    unfolding close_match framed
    close_match-IsKept =
        let frame : settled ≡ framed = settled-frame s.trades booked in
        elim (Bool-cases (
          ((settled.heap p).status == Status.filled)
          || ((settled.heap p).status == Status.canceled))) [
            | inr open_still ↦
                rw open_still (subst (λ (x : Core). IsKept c x) (sym frame) framed-IsKept)
            | inl closed ↦
                let gone = settled-due (settled.heap p) closed in
                rw closed (
                  subst (λ (x : Core). IsKept c (release_at p x)) (sym frame)
                    (IsKept-trans c framed (release_at p framed) framed-IsKept (
                      release_at-IsKept p framed framed-IsKept.funded
                        (settled_lem.covered p in_play) gone)))
          ]

  abbrev KeptAfter : Option (Core × List Trade) → Type 0
  KeptAfter none = Unit
  KeptAfter (some r) = IsKept c r.0

  kept_after : KeptAfter (match_order src p c)
  unfolding match_order
  kept_after =
      let o : Order = c.heap p in
      let nothing : IsKept c c = record { funded = f; cash_kept = refl; shares_kept = refl } in
      elim (Bool-cases (o.status == Status.canceled)) [
        | inl gone ↦ rw (match_order, gone) nothing
        | inr live ↦ elim (Option-cases (lookup o.event_id c.markets)) [
          | inl no_market ↦
              rw (match_order, live, no_market) (set_status-IsKept p Status.rejected c refl f)
          | inr (m, market) ↦ elim (Option-cases (book_of m o.outcome)) [
            | inl no_book ↦
                rw (match_order, live, market, no_book)
                  (set_status-IsKept p Status.rejected c refl f)
            | inr (book, has) ↦ elim (Outcome-cases (match_against_book src p c.heap book)) [
              | inl (s, done) ↦
                  rw (match_order, live, market, has, done)
                    (close_match-IsKept m book s market has done)
              | inr (inl e) ↦ rw (match_order, live, market, has, e) tt
              | inr (inr e) ↦ rw (match_order, live, market, has, e) tt
            ]
          ]
        ]
      ]

  -- Matching a limit order keeps the state funded and creates and loses no cash and no share: where
  -- every reserved amount is what the orders have locked of it, and the orders on the books and the
  -- order itself have locked what they may have to give, all of that is so afterwards.
  pub match_order-IsKept : (r : Core × List Trade) → match_order src p c ≡ some r → IsKept c r.0
  match_order-IsKept r e = subst KeptAfter e kept_after
