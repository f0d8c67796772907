-- ===== src/Engine/Commands/Withdrawal.antt =====
-- Canceling an order of a valid state gives a response and a valid state.
use predix_go_backend.Engine.Commands.Placement.{Served}
use predix_go_backend.Base.{
  ℕ, ◌<◌, ◌≡◌, refl, String, Bool, true, false, not, ◌&&◌, some, List, [], ◌∷◌, arith, ◌==◌,
  string_eq, nat_eq, Bool-cases, Option-cases, inl, inr,
}
use predix_go_backend.Dict.{lookup}
use predix_go_backend.Sort.{IsSorted}
use predix_go_backend.Engine.Types.{
  Order, OrderBook, Market, Heap, Status, status_eq, book_of, outcome_yes, side_buy,
}
use predix_go_backend.Engine.Book.{remove_order_from_slice, bid_less, ask_less}
use predix_go_backend.Engine.Matching.Addresses.{All-remove_order_from_slice}
use predix_go_backend.Engine.Emit.{EventType, cancel_data, emit_event}
use predix_go_backend.Engine.Core.{Core}
use predix_go_backend.Engine.Core.Invariant.{
  IsValid, IsPlaced, MarketIsPlaced, IsKnown, has_book, All-lookup, All-insert,
}
use predix_go_backend.Engine.Core.Gentle.{set_status-IsValid, release_at-IsValid}
use predix_go_backend.Engine.Core.Settle.{book_of-IsPlaced, set_book-IsPlaced}
use predix_go_backend.Engine.Commands.{
  Engine, World, success, failure, canceled, CancelRequest, handle_cancel_order, unbook, cancel_at,
  not_cancelable,
}

remove_order_from_slice-IsSorted :
    (less : ℕ → ℕ → Bool) (h : Heap) (ps : List ℕ) (id : String)
    → IsSorted less ps
    → IsSorted less (remove_order_from_slice h ps id)
unfolding remove_order_from_slice
remove_order_from_slice-IsSorted less h [] id s = tt
remove_order_from_slice-IsSorted less h (p ∷ ps) id s = elim (Bool-cases ((h p).id == id)) [
  | inl hit ↦ rw hit s.1
  | inr miss ↦ rw miss (
    All-remove_order_from_slice (λ q. less q p ≡ false) h ps id s.0,
    remove_order_from_slice-IsSorted less h ps id s.1,
  )
]

unbook-IsPlaced :
    (h : Heap) (n : ℕ) (o : Order) (book : OrderBook)
    → IsPlaced h n book
    → IsPlaced h n (unbook h o book)
unfolding unbook
unbook-IsPlaced h n o book (s, b) = elim (Bool-cases (o.side == side_buy)) [
  | inl e ↦ rw e (
    record {
      bids = remove_order_from_slice-IsSorted (bid_less h) h book.bids o.id s.bids;
      asks = s.asks;
    },
    (All-remove_order_from_slice (λ p. p < n) h book.bids o.id b.0, b.1),
  )
  | inr e ↦ rw e (
    record {
      bids = s.bids;
      asks = remove_order_from_slice-IsSorted (ask_less h) h book.asks o.id s.asks;
    },
    (b.0, All-remove_order_from_slice (λ p. p < n) h book.asks o.id b.1),
  )
]

cancel_at-IsValid :
    (p : ℕ) (m : Market) (book : OrderBook) (c : Core)
    → IsValid c
    → MarketIsPlaced c.heap c.next_address m
    → IsPlaced c.heap c.next_address book
    → IsValid (cancel_at p m book c)
unfolding cancel_at
cancel_at-IsValid p m book c v mp on_book =
    let o : Order = c.heap p in
    release_at-IsValid p _ (
      set_status-IsValid p Status.canceled _ (record {
        conserved = v.conserved;
        markets =
            All-insert (MarketIsPlaced c.heap c.next_address) o.event_id _ c.markets
              (set_book-IsPlaced c.heap c.next_address m o.outcome _ mp
                (unbook-IsPlaced c.heap c.next_address o book on_book))
              v.markets;
        orders = v.orders;
      }))

book_of-found :
    (m : Market) (o : Order)
    → has_book o ≡ true
    → (book : OrderBook) × (book_of m o.outcome ≡ some book)
unfolding book_of
book_of-found m o e = elim (Bool-cases (o.outcome == outcome_yes)) [
  | inl y ↦ (m.yes_book, ground arith)
  | inr n ↦ (m.no_book, ground arith)
]

pub handle_cancel_order-Served :
    (w : World) (pid : ℕ) (r : CancelRequest) (e : Engine)
    → IsValid e.core
    → Served (handle_cancel_order w pid (some r) e)
unfolding handle_cancel_order
handle_cancel_order-Served w pid r e v = elim (Bool-cases (r.order_id == "")) [
  | inl no_id ↦ ((failure "orderId is required", e), rw no_id refl, v)
  | inr id ↦ elim (Option-cases (lookup r.order_id e.core.orders)) [
    | inl missing ↦ ((failure "order not found", e), rw (id, missing) refl, v)
    | inr (p, found) ↦
        let o : Order = e.core.heap p in
        let is_known =
          All-lookup (IsKnown e.core.heap e.core.next_address) r.order_id p e.core.orders v.orders
            found in
        elim (Bool-cases (not (r.event_id == "") && not (o.event_id == r.event_id))) [
          | inl other ↦
              ((failure "order does not belong to event", e), rw (id, found, other) refl, v)
          | inr own ↦ elim (Bool-cases (not_cancelable o.status)) [
            | inl closed ↦
                ((failure "order cannot be canceled", e), rw (id, found, own, closed) refl, v)
            | inr live ↦ elim (Option-cases (lookup o.event_id e.core.markets)) [
              | inl no_market ↦
                  ((failure "event not found", e), rw (id, found, own, live, no_market) refl, v)
              | inr (m, market) ↦
                  let mp =
                    All-lookup (MarketIsPlaced e.core.heap e.core.next_address) o.event_id m
                      e.core.markets v.markets market in
                  let (book, has) = book_of-found m o is_known.1 in
                  (
                    (
                      success (canceled o.id),
                      record {
                        core = cancel_at p m book e.core;
                        bus =
                            (emit_event w.delivery pid EventType.order_canceled (cancel_data o.id)
                              false e.bus).1;
                      },
                    ),
                    rw (id, found, own, live, market, has) refl,
                    cancel_at-IsValid p m book e.core v mp
                        (book_of-IsPlaced e.core.heap e.core.next_address m o.outcome book mp has),
                  )
            ]
          ]
        ]
  ]
]
