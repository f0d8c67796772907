-- ===== src/Engine/Core/Settle.antt =====
-- Settling, releasing and closing a match keep the engine's state valid.
use predix_go_backend.Engine.Core.Gentle.{
  Gentle, Gentle-trans, set_status-Gentle, release_at-IsValid, set_status-IsValid,
  settle_all-IsValid,
}
use predix_go_backend.Base.{
  ℕ, ◌<◌, ◌≡◌, refl, String, ◌||◌, some, List, [], arith, ◌==◌, foldl, string_eq, nat_eq,
  Bool-cases, Option-cases, inl, inr, subst,
}
use predix_go_backend.Dict.{lookup, insert}
use predix_go_backend.Engine.Types.{
  Order, OrderBook, Market, Heap, Status, Trade, status_eq, book_of, set_book, store, outcome_yes,
  outcome_no,
}
use predix_go_backend.Engine.Book.Priority.{add_to_book_priority}
use predix_go_backend.Engine.Matching.{Source, MatchState, finished, match_against_book}
use predix_go_backend.Engine.Matching.Quantities.{HeapIsConserved, match_loop_accounts}
use predix_go_backend.Engine.Matching.Terms.{SameTerms-IsOrdered, match_loop_order}
use predix_go_backend.Engine.Matching.Termination.{match_against_book_ends}
use predix_go_backend.Engine.Matching.Addresses.{match_loop-BookAll, add_to_book-BookAll}
use predix_go_backend.Engine.Core.{
  Core, rest_order, rests, matched_status, settle_trade_locked, set_status, close_match,
  match_order,
}
use predix_go_backend.Engine.Core.Invariant.{
  IsValid, IsPlaced, MarketIsPlaced, IsValid-same, IsPlaced-same, All-lookup, All-insert,
}

pub book_of-IsPlaced :
    (h : Heap) (n : ℕ) (m : Market) (outcome : String) (book : OrderBook)
    → MarketIsPlaced h n m
    → book_of m outcome ≡ some book
    → IsPlaced h n book
unfolding book_of
book_of-IsPlaced h n m outcome book p e = elim (Bool-cases (outcome == outcome_yes)) [
  | inl y ↦ let same : m.yes_book ≡ book = ground arith in subst (IsPlaced h n) same p.0
  | inr y ↦ elim (Bool-cases (outcome == outcome_no)) [
    | inl z ↦ let same : m.no_book ≡ book = ground arith in subst (IsPlaced h n) same p.1
    | inr z ↦ absurd (ground arith)
  ]
]

pub set_book-IsPlaced :
    (h : Heap) (n : ℕ) (m : Market) (outcome : String) (book : OrderBook)
    → MarketIsPlaced h n m
    → IsPlaced h n book
    → MarketIsPlaced h n (set_book outcome book m)
unfolding set_book
set_book-IsPlaced h n m outcome book p b = elim (Bool-cases (outcome == outcome_yes)) [
  | inl e ↦ rw e (b, p.1)
  | inr e ↦ rw e (p.0, b)
]

-- Giving the matched order its status and, if it stays open, its place on the book.
rest_order-IsPlaced :
    (p n : ℕ) (s : MatchState)
    → p < n
    → IsPlaced s.heap n s.book
    → Gentle s.heap (rest_order p s).heap × IsPlaced (rest_order p s).heap n (rest_order p s).book
unfolding rest_order
rest_order-IsPlaced p n s lt placed =
    let status : Status = matched_status (s.heap p) in
    let h : Heap = store p (record (s.heap p) { status = status }) s.heap in
    let gentle = set_status-Gentle p status s.heap in
    let ordered = SameTerms-IsOrdered s.heap h s.book gentle.0 placed.0 in
    elim (Bool-cases (rests status)) [
      | inl open_still ↦ rw open_still (
        gentle,
        (
          (add_to_book_priority h s.book p ordered).0,
          add_to_book-BookAll (λ q. q < n) h s.book p lt placed.1,
        ),
      )
      | inr closed ↦ rw closed (gentle, (ordered, placed.1))
    ]

-- The state in which matching has been booked, before the ledger follows.
booked-IsValid :
    (c : Core) (m : Market) (event outcome : String) (h : Heap) (book : OrderBook)
    → IsValid c
    → Gentle c.heap h
    → MarketIsPlaced c.heap c.next_address m
    → IsPlaced h c.next_address book
    → IsValid (record c { heap = h; markets = insert event (set_book outcome book m) c.markets })
booked-IsValid c m event outcome h book v g mp placed =
    let n : ℕ = c.next_address in
    let moved = IsValid-same c h n (omega arith) (λ p lt. g.0 p) (g.1 v.conserved) v in
    let yes_placed = IsPlaced-same c.heap h n n (omega arith) (λ p lt. g.0 p) m.yes_book mp.0 in
    let no_placed = IsPlaced-same c.heap h n n (omega arith) (λ p lt. g.0 p) m.no_book mp.1 in
    record {
      conserved = moved.conserved;
      markets =
          All-insert (λ m'. MarketIsPlaced h n m') event (set_book outcome book m) c.markets
            (set_book-IsPlaced h n m outcome book (yes_placed, no_placed) placed) moved.markets;
      orders = moved.orders;
    }

close_match-IsValid :
    (p : ℕ) (o : Order) (m : Market) (s : MatchState) (c : Core)
    → p < c.next_address
    → IsValid c
    → MarketIsPlaced c.heap c.next_address m
    → Gentle c.heap s.heap
    → IsPlaced s.heap c.next_address s.book
    → IsValid (close_match p o m s c)
unfolding close_match
close_match-IsValid p o m s c lt v mp g placed =
    let s' : MatchState = rest_order p s in
    let rested = rest_order-IsPlaced p c.next_address s lt placed in
    let booked : Core = record c {
      heap = s'.heap;
      markets = insert o.event_id (set_book o.outcome s'.book m) c.markets;
    } in
    let settled : Core = foldl settle_trade_locked booked s.trades in
    let valid = settle_all-IsValid s.trades booked (
      booked-IsValid c m o.event_id o.outcome s'.heap s'.book v
        (Gentle-trans c.heap s.heap s'.heap g rested.0) mp rested.1) in
    let status : Status = (settled.heap p).status in
    elim (Bool-cases ((status == Status.filled) || (status == Status.canceled))) [
      | inl closed ↦ rw closed (release_at-IsValid p settled valid)
      | inr open_still ↦ rw open_still valid
    ]

-- What the loop of `match_against_book` does to the heap and the book that it is given.
match_against_book-IsPlaced :
    (src : Source) (p n : ℕ) (h : Heap) (book : OrderBook) (s : MatchState)
    → HeapIsConserved h
    → IsPlaced h n book
    → match_against_book src p h book ≡ finished s
    → Gentle h s.heap × IsPlaced s.heap n s.book
unfolding match_against_book
match_against_book-IsPlaced src p n h book s k placed e =
    let start : MatchState = record { heap = h; book = book; trades = [] } in
    let kept = match_loop_accounts src p _ start s k e in
    let order = match_loop_order src p _ start s placed.0 e in
    ((order.0, λ c. kept.0), (order.1, match_loop-BookAll (λ q. q < n) src p _ start s placed.1 e))

-- Matching an allocated order of a valid state gives a result, and a valid state.
pub match_order-IsValid :
    (src : Source) (p : ℕ) (c : Core)
    → p < c.next_address
    → IsValid c
    → (r : Core × List Trade) × (match_order src p c ≡ some r) × IsValid r.0
unfolding match_order
match_order-IsValid src p c lt v =
    let o : Order = c.heap p in
    elim (Bool-cases (o.status == Status.canceled)) [
      | inl gone ↦ ((c, []), rw gone refl, v)
      | inr live ↦ elim (Option-cases (lookup o.event_id c.markets)) [
        | inl no_market ↦ (
          (set_status p Status.rejected c, []),
          ground arith,
          set_status-IsValid p Status.rejected c v,
        )
        | inr (m, market) ↦
            let mp =
              All-lookup (λ m'. MarketIsPlaced c.heap c.next_address m') o.event_id m c.markets
                v.markets market in
            elim (Option-cases (book_of m o.outcome)) [
              | inl no_book ↦ (
                (set_status p Status.rejected c, []),
                ground arith,
                set_status-IsValid p Status.rejected c v,
              )
              | inr (book, found) ↦
                  let (s, ends) = match_against_book_ends src p c.heap book v.conserved in
                  let moved =
                    match_against_book-IsPlaced src p c.next_address c.heap book s v.conserved
                      (book_of-IsPlaced c.heap c.next_address m o.outcome book mp found) ends in
                  (
                    (close_match p o m s c, s.trades),
                    ground arith,
                    close_match-IsValid p o m s c lt v mp moved.0 moved.1,
                  )
            ]
      ]
    ]
