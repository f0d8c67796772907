-- ===== src/Engine/Commands.antt =====
-- The command handlers of internal/engine: create an event, create and cancel an order, create a
-- user. A payload is what json.Unmarshal gives for it, `none` where it fails; the id, the time and
-- the deliveries of a command come from a `World`. Metrics and logs are left out.
pub mod Idempotence
pub mod Known
pub mod Cancellation
pub mod Placement
pub mod Withdrawal
use predix_go_backend.Base.{
  ℕ, suc, ◌+◌, String, Bool, true, false, not, ◌&&◌, ◌||◌, Option, none, some, List, [], ◌∷◌, ◌==◌,
  if◌then◌else◌, string_eq, leb_ℤ, ℤ, pos, ◌≡◌, refl, inl, inr, ◌⊎◌,
}
use predix_go_backend.Dict.{Dict, lookup, insert, erase}
use predix_go_backend.Engine.Types.{
  Order, Market, Trade, Status, status_eq, OrderBook, new_market, book_of, set_book, store,
  side_buy, side_sell, outcome_yes, outcome_no, order_type_limit, order_type_market, OrderBookEntry,
  Heap,
}
use predix_go_backend.Engine.Book.{remove_order_from_slice}
use predix_go_backend.Engine.Matching.{Source}
use predix_go_backend.Engine.Ledger.{
  Ledger, Reserve, reserved, refused, reserve_order, grant_balance,
}
use predix_go_backend.Engine.Emit.{
  Bus, Delivery, EventType, EventData, trade_data, order_data, cancel_data, emit_event,
}
use predix_go_backend.Engine.Core.{Core, match_order, set_status, release_at}

pub record Engine : Type 0 where
  pub core : Core
  pub bus : Bus

pub record World : Type 0 where
  pub source : Source
  -- The id that is made for an order without one, and the time.
  pub new_order_id : String
  pub now : ℕ
  -- The emission of the command's own event, and of its i-th trade.
  pub delivery : Delivery
  pub trade_delivery : ℕ → Delivery

-- What a successful response carries.
pub data Reply : Type 0 where
  already_exists created user_ok : Reply
  existing : String → Status → Reply
  placed : String → Status → ℤ → ℤ → Reply
  canceled : String → Reply
  depth :
      String
      → List OrderBookEntry
      → List OrderBookEntry
      → List OrderBookEntry
      → List OrderBookEntry
      → Reply
  open_orders : List Order → Reply

pub data Response : Type 0 where
  success : Reply → Response
  failure : String → Response

pub record CreateRequest : Type 0 where
  pub order_id : String
  pub event_id : String
  pub user_id : String
  pub order_type : String
  pub outcome : String
  pub side : String
  pub quantity : ℤ
  pub price : ℤ

pub record CancelRequest : Type 0 where
  pub order_id : String
  pub event_id : String

unfoldable pub handle_create_event : Option String → Engine → Response × Engine
handle_create_event none e = (failure "invalid payload", e)
handle_create_event (some event_id) e =
    if event_id == ""
    then (failure "eventId is required", e)
    else elim (lookup event_id e.core.markets) [
      | some m ↦ (success already_exists, e)
      | none ↦ (
        success created,
        record e { core = record (e.core) { markets = insert event_id new_market e.core.markets } },
      )
    ]

unfoldable pub handle_user_created : Option String → Engine → Response × Engine
handle_user_created none e = (failure "invalid payload", e)
handle_user_created (some user_id) e =
    if user_id == "" then (failure "userId is required", e) else (
      success user_ok,
      record e { core = record (e.core) { ledger = grant_balance user_id e.core.ledger } },
    )

unfoldable pub new_order : World → CreateRequest → Order
new_order w r = record {
  id = if r.order_id == "" then w.new_order_id else r.order_id;
  event_id = r.event_id;
  user_id = r.user_id;
  order_type = r.order_type;
  outcome = r.outcome;
  side = r.side;
  quantity = r.quantity;
  filled_quantity = pos 0;
  remaining_quantity = r.quantity;
  price = r.price;
  status = Status.pending;
  locked_funds = pos 0;
  created_at = w.now;
}

-- `none` is an order that may be placed.
unfoldable pub validate_order : Order → Option String
validate_order o =
    if o.event_id == ""
    then some "eventId is required"
    else if o.user_id == ""
    then some "userId is required"
    else if leb_ℤ o.quantity (pos 0)
    then some "quantity must be greater than zero"
    else if not ((o.side == side_buy) || (o.side == side_sell))
    then some "invalid side"
    else if not ((o.outcome == outcome_yes) || (o.outcome == outcome_no))
    then some "invalid outcome"
    else if o.order_type == order_type_limit
    then if leb_ℤ o.price (pos 0) then some "limit order price must be greater than zero" else none
    else if o.order_type == order_type_market
    then none
    else some "invalid order type"

-- The first critical section of `handleCreateOrderCore`.
pub data Admission : Type 0 where
  known : ℕ → Admission
  turned_away : String → Core → Admission
  admitted : ℕ → Core → Admission

unfoldable pub admit_order : Order → Core → Admission
admit_order o c = elim (lookup o.id c.orders) [
  | some p ↦ known p
  | none ↦ elim (lookup o.event_id c.markets) [
    | none ↦ turned_away "event not found" c
    | some m ↦ elim (reserve_order o c.ledger) [
      | refused message l ↦ turned_away message (record c { ledger = l })
      | reserved o' l ↦ admitted c.next_address (record c {
        ledger = l;
        heap = store c.next_address o' c.heap;
        orders = insert o.id c.next_address c.orders;
        next_address = suc c.next_address;
      })
    ]
  ]
]

-- To split on how an admission or a reservation ended.
pub Reserve-cases :
    (r : Reserve)
    → ((message : String) × (l : Ledger) × (r ≡ refused message l))
      ⊎ ((o : Order) × (l : Ledger) × (r ≡ reserved o l))
Reserve-cases (refused message l) = inl (message, l, refl)
Reserve-cases (reserved o l) = inr (o, l, refl)

pub Admission-cases :
    (a : Admission)
    → ((p : ℕ) × (a ≡ known p))
      ⊎ (((message : String) × (c : Core) × (a ≡ turned_away message c))
          ⊎ ((p : ℕ) × (c : Core) × (a ≡ admitted p c)))
Admission-cases (known p) = inl (p, refl)
Admission-cases (turned_away message c) = inr (inl (message, c, refl))
Admission-cases (admitted p c) = inr (inr (p, c, refl))

-- The events of the trades go out in order; a failure is only logged.
unfoldable pub publish_trades : (ℕ → Delivery) → ℕ → ℕ → List Trade → Bus → Bus
publish_trades d pid i [] bus = bus
publish_trades d pid i (t ∷ ts) bus =
    publish_trades d pid (suc i) ts
      (emit_event (d i) pid EventType.trade_executed (trade_data t) true bus).1

-- An order whose event did not go out is taken off the order map.
unfoldable pub drop_order : ℕ → Core → Core
drop_order p c = set_status p Status.rejected (record c { orders = erase (c.heap p).id c.orders })

-- The order is announced, matched, and answered for.
unfoldable pub place_order : World → ℕ → ℕ → Engine → Option (Response × Engine)
unfolding drop_order
place_order w pid p e =
    let announced =
      emit_event w.delivery pid EventType.order_created (order_data (e.core.heap p)) false e.bus in
    if not announced.0
    then some (
      failure "failed to stream order creation",
      record { core = drop_order p e.core; bus = announced.1 },
    )
    else elim (match_order w.source p e.core) [
      | none ↦ none
      | some (c, trades) ↦ some (
        success (
            placed (c.heap p).id (c.heap p).status (c.heap p).filled_quantity
              (c.heap p).remaining_quantity),
        record { core = c; bus = publish_trades w.trade_delivery pid 0 trades announced.1 },
      )
    ]

-- `none` only if matching does not end.
unfoldable pub handle_create_order :
    World → ℕ → Option CreateRequest → Engine → Option (Response × Engine)
unfolding new_order admit_order place_order
handle_create_order w pid none e = some (failure "invalid payload", e)
handle_create_order w pid (some r) e =
    let o = new_order w r in
    if leb_ℤ r.quantity (pos 0)
    then some (failure "quantity must be greater than zero", e)
    else elim (validate_order o) [
      | some message ↦ some (failure message, e)
      | none ↦ elim (admit_order o e.core) [
        | known p ↦ some (success (existing (e.core.heap p).id (e.core.heap p).status), e)
        | turned_away message c ↦ some (failure message, record e { core = c })
        | admitted p c ↦ place_order w pid p (record e { core = c })
      ]
    ]

-- Takes the order off its side of its book.
unfoldable pub unbook : Heap → Order → OrderBook → OrderBook
unbook h o book =
    if o.side == side_buy
    then record book { bids = remove_order_from_slice h book.bids o.id }
    else record book { asks = remove_order_from_slice h book.asks o.id }

-- The critical section of a cancellation that passed its tests.
unfoldable pub cancel_at : ℕ → Market → OrderBook → Core → Core
unfolding unbook release_at
cancel_at p m book c =
    let o = c.heap p in
    release_at p (
      set_status p Status.canceled (record c {
        markets = insert o.event_id (set_book o.outcome (unbook c.heap o book) m) c.markets;
      }))

unfoldable pub not_cancelable : Status → Bool
not_cancelable s = (s == Status.filled) || ((s == Status.canceled) || (s == Status.rejected))

-- `none` is the nil dereference of an order whose outcome has no book.
unfoldable pub handle_cancel_order :
    World → ℕ → Option CancelRequest → Engine → Option (Response × Engine)
unfolding cancel_at not_cancelable
handle_cancel_order w pid none e = some (failure "invalid payload", e)
handle_cancel_order w pid (some r) e =
    if r.order_id == ""
    then some (failure "orderId is required", e)
    else elim (lookup r.order_id e.core.orders) [
      | none ↦ some (failure "order not found", e)
      | some p ↦
          let o = e.core.heap p in
          if not (r.event_id == "") && not (o.event_id == r.event_id)
          then some (failure "order does not belong to event", e)
          else if not_cancelable o.status
          then some (failure "order cannot be canceled", e)
          else elim (lookup o.event_id e.core.markets) [
            | none ↦ some (failure "event not found", e)
            | some m ↦ elim (book_of m o.outcome) [
              | none ↦ none
              | some book ↦ some (
                success (canceled o.id),
                record {
                  core = cancel_at p m book e.core;
                  bus =
                      (emit_event w.delivery pid EventType.order_canceled (cancel_data o.id) false
                        e.bus).1;
                },
              )
            ]
          ]
    ]
