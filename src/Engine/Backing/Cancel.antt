-- ===== src/Engine/Backing/Cancel.antt =====
-- `handleCancelOrderP`: what a canceled order has locked goes back, and nothing else moves.
use predix_go_backend.Base.{
  ℕ, ◌≡◌, refl, subst, String, true, false, not, ◌&&◌, Option, none, some, [], arith, ◌==◌,
  string_eq, nat_eq, Bool-cases, Option-cases, inl, inr, beq_refl,
}
use predix_go_backend.Dict.{lookup, insert}
use predix_go_backend.Engine.Types.{
  Order, OrderBook, Market, Heap, Status, status_eq, side_buy, book_of, set_book,
}
use predix_go_backend.Engine.Matching.Addresses.{All-remove_order_from_slice}
use predix_go_backend.Engine.Core.{Core, set_status}
use predix_go_backend.Engine.Core.Invariant.{All-lookup}
use predix_go_backend.Engine.Commands.{
  Engine, World, Response, CancelRequest, unbook, cancel_at, not_cancelable, handle_cancel_order,
}
use predix_go_backend.Engine.Backing.{due, due-closed}
use predix_go_backend.Engine.Backing.Close.{release_at-IsKept}
use predix_go_backend.Engine.Backing.Funded.{
  Covered, Stands, BookStands, MarketStands, IsFunded, All-found, All-put,
}
use predix_go_backend.Engine.Backing.Rest.{
  IsKept, set_status-IsKept, marked-IsCovered, book_of-Stands, set_book-Stands,
}

unbook-Stands :
    (E : ℕ → Type 0) (h : Heap) (event : String) (o : Order) (book : OrderBook)
    → BookStands E h event book
    → BookStands E h event (unbook h o book)
unfolding unbook
unbook-Stands E h event o book b = elim (Bool-cases (o.side == side_buy)) [
  | inl buy ↦ rw buy (All-remove_order_from_slice (Stands E h event true) h book.bids o.id b.0, b.1)
  | inr sell ↦
      rw sell (b.0, All-remove_order_from_slice (Stands E h event false) h book.asks o.id b.1)
]

cancel_at-IsKept :
    (p : ℕ) (m : Market) (book : OrderBook) (c : Core)
    → IsFunded c
    → Covered c p
    → lookup (c.heap p).event_id c.markets ≡ some m
    → book_of m (c.heap p).outcome ≡ some book
    → IsKept c (cancel_at p m book c)
unfolding cancel_at
cancel_at-IsKept p m book c f k market has =
    let o : Order = c.heap p in
    let stands =
      All-found (MarketStands (Covered c) c.heap) o.event_id m c.markets f.markets market in
    let c' : Core = record c {
      markets = insert o.event_id (set_book o.outcome (unbook c.heap o book) m) c.markets;
    } in
    let funded : IsFunded c' = record {
      backed = f.backed;
      markets =
          All-put (MarketStands (Covered c) c.heap) o.event_id _ c.markets
            (set_book-Stands (Covered c) c.heap o.event_id m o.outcome _ stands (
              unbook-Stands (Covered c) c.heap o.event_id o book
                (book_of-Stands (Covered c) c.heap o.event_id m o.outcome book stands has)))
            f.markets;
      known = f.known;
    } in
    let c'' : Core = set_status p Status.canceled c' in
    let closed = set_status-IsKept p Status.canceled c' refl funded in
    let gone : due (c''.heap p) ≡ 0 = due-closed (c''.heap p) (rw (beq_refl p) refl) in
    let zero = due-closed (record o { status = Status.canceled }) refl in
    let freed =
      release_at-IsKept p c'' closed.funded
        (marked-IsCovered p Status.canceled c.heap c.orders c.next_address [] p
          (omega (arith, zero)) k)
        gone in
    record { funded = freed.funded; cash_kept = freed.cash_kept; shares_kept = freed.shares_kept }

abbrev CanceledBy : Core → Option (Response × Engine) → Type 0
CanceledBy c none = Unit
CanceledBy c (some x) = IsKept c x.1.core

handle_cancel_order-CanceledBy :
    (w : World) (pid : ℕ) (r : CancelRequest) (e : Engine)
    → IsFunded e.core
    → CanceledBy e.core (handle_cancel_order w pid (some r) e)
unfolding handle_cancel_order
handle_cancel_order-CanceledBy w pid r e f =
    let nothing : IsKept e.core e.core = record {
      funded = f;
      cash_kept = refl;
      shares_kept = refl;
    } in
    elim (Bool-cases (r.order_id == "")) [
      | inl no_id ↦ rw (handle_cancel_order, no_id) nothing
      | inr id ↦ elim (Option-cases (lookup r.order_id e.core.orders)) [
        | inl missing ↦ rw (handle_cancel_order, id, missing) nothing
        | inr (p, found) ↦
            let o : Order = e.core.heap p in
            elim (Bool-cases (not (r.event_id == "") && not (o.event_id == r.event_id))) [
              | inl other ↦ rw (handle_cancel_order, id, found, other) nothing
              | inr own ↦ elim (Bool-cases (not_cancelable o.status)) [
                | inl closed ↦ rw (handle_cancel_order, id, found, own, closed) nothing
                | inr live ↦ elim (Option-cases (lookup o.event_id e.core.markets)) [
                  | inl no_market ↦
                      rw (handle_cancel_order, id, found, own, live, no_market) nothing
                  | inr (m, market) ↦ elim (Option-cases (book_of m o.outcome)) [
                    | inl no_book ↦
                        rw (handle_cancel_order, id, found, own, live, market, no_book) tt
                    | inr (book, has) ↦
                        rw (handle_cancel_order, id, found, own, live, market, has)
                          (cancel_at-IsKept p m book e.core f
                            (All-lookup (Covered e.core) r.order_id p e.core.orders f.known found)
                            market has)
                  ]
                ]
              ]
            ]
      ]
    ]

-- A request to cancel, however it ends, creates and loses no cash and no share, and keeps the state
-- funded.
pub handle_cancel_order-IsKept :
    (w : World) (pid : ℕ) (r : CancelRequest) (e : Engine) (x : Response × Engine)
    → IsFunded e.core
    → handle_cancel_order w pid (some r) e ≡ some x
    → IsKept e.core x.1.core
handle_cancel_order-IsKept w pid r e x f done =
    subst (CanceledBy e.core) done (handle_cancel_order-CanceledBy w pid r e f)
