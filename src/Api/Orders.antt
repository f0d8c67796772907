-- ===== src/Api/Orders.antt =====
-- Who may place and cancel an order through the API, and what then reaches the engine.
use predix_go_backend.Base.{
  ℕ, ◌≡◌, refl, sym, ap, ◌∙◌, subst, String, Bool, true, false, not, ◌&&◌, ◌⊎◌, Option, none, some,
  arith, ◌==◌, string_eq, pos, leb_ℤ, Bool-cases, Option-cases, inl, inr,
}
use predix_go_backend.Dict.{lookup}
use predix_go_backend.Partition.Router.{Router}
use predix_go_backend.Engine.Types.{order_type_limit}
use predix_go_backend.Engine.Commands.{World, CreateRequest, new_order, validate_order}
use predix_go_backend.DbWorker.Database.{OrderRow}
use predix_go_backend.Api.Queries.{Tables, EventRow, get_event_by_id, get_order_by_id}
use predix_go_backend.Api.{
  HttpResponse, refused, Backend, CreateOrderRequest, binds_order, bind_order, ask_engine, Outside,
  order_id_of, order_payload, active, create_order, cancel_payload, delete_order,
}
use predix_go_backend.Api.Asking.{IsAsked, ask_engine-IsAsked}

-- The request was turned away, and neither the tables nor the streams have changed.
abbrev pub TurnedAway : Backend → HttpResponse × Backend → Type 0
TurnedAway b r = (code : ℕ) × (message : String) × (r ≡ (refused code message, b))

-- The fields of the order request that the engine gets.
abbrev pub fields : Outside → String → CreateOrderRequest → CreateRequest
fields o user r = record {
  order_id = order_id_of o r;
  event_id = r.event_id;
  user_id = user;
  order_type = r.order_type;
  outcome = r.outcome;
  side = r.side;
  quantity = r.quantity;
  price = r.price.scaled;
}

-- An order was asked for: by a user who is logged in, in that user's name, with fields that the tags
-- allow, for an event that is active; and the engine finds no fault with it, if its scaled price is
-- positive where it has one.
pub record IsOrdered (router : Option Router) (o : Outside) (user : Option String)
    (body : Option CreateOrderRequest) (b : Backend) (r : HttpResponse × Backend) : Type 0 where
  pub user_id : String
  pub logged_in : user ≡ some user_id
  pub request : CreateOrderRequest
  pub sent : body ≡ some request
  pub bound : binds_order request ≡ true
  pub priced : (request.order_type == order_type_limit) ≡ true → request.price.is_positive ≡ true
  pub event_id : String
  pub parsed : o.parse request.event_id ≡ some event_id
  pub row : EventRow
  pub found : lookup event_id b.tables.events ≡ some row
  pub is_active : row.is_active ≡ some true
  pub faultless :
      (w : World)
      → (user_id == "") ≡ false
      → ((request.order_type == order_type_limit) ≡ true
          → leb_ℤ request.price.scaled (pos 0) ≡ false)
      → validate_order (new_order w (fields o user_id request)) ≡ none
  pub asked :
      IsAsked router o.exchange request.event_id
        (record { kind = "CREATE_ORDER"; payload = order_payload o user_id request })
        b
        r

validate_order-bound :
    (w : World) (o : Outside) (user : String) (r : CreateOrderRequest)
    → binds_order r ≡ true
    → (user == "") ≡ false
    → ((r.order_type == order_type_limit) ≡ true → leb_ℤ r.price.scaled (pos 0) ≡ false)
    → validate_order (new_order w (fields o user r)) ≡ none
unfolding validate_order new_order binds_order
validate_order-bound w o user r bound named priced = ground arith

bind_order-some :
    (body : Option CreateOrderRequest) (r : CreateOrderRequest)
    → bind_order body ≡ some r
    → (body ≡ some r) × (binds_order r ≡ true)
unfolding bind_order
bind_order-some none r e = absurd (ground arith)
bind_order-some (some q) r e = elim (Bool-cases (binds_order q)) [
  | inl bound ↦ let same : q ≡ r = ground arith in (ap some same, ap binds_order (sym same) ∙ bound)
  | inr broken ↦ absurd (ground arith)
]

get_event_by_id-some :
    (fails : Bool) (id : String) (t : Tables) (row : EventRow)
    → get_event_by_id fails id t ≡ some row
    → lookup id t.events ≡ some row
unfolding get_event_by_id
get_event_by_id-some true id t row e = absurd (ground arith)
get_event_by_id-some false id t row e = e

active-true : (row : EventRow) → not (active row) ≡ false → row.is_active ≡ some true
active-true row e = ground arith

priced-positive :
    (limit positive : Bool) → (limit && not positive) ≡ false → limit ≡ true → positive ≡ true
priced-positive limit positive e l = ground arith

-- An order request is turned away, or it is of a logged-in user, is bound by the tags, is for an
-- active event and goes to the engine in that user's name.
pub create_order-IsOrdered :
    (router : Option Router) (o : Outside) (user : Option String) (body : Option CreateOrderRequest)
    (b : Backend)
    → TurnedAway b (create_order router o user body b)
      ⊎ IsOrdered router o user body b (create_order router o user body b)
unfolding create_order
create_order-IsOrdered router o none body b = inl (401, "unauthorized", refl)
create_order-IsOrdered router o (some u) body b = elim (Option-cases (bind_order body)) [
  | inl unbound ↦ inl (400, "invalid request", rw (create_order, unbound) refl)
  | inr (r, bound) ↦
      elim (Bool-cases ((r.order_type == order_type_limit) && not r.price.is_positive)) [
        | inl free ↦
            inl (400, "price is required for LIMIT orders", rw (create_order, bound, free) refl)
        | inr priced ↦ elim (Option-cases (o.parse r.event_id)) [
          | inl no_id ↦ inl (400, "invalid event ID", rw (create_order, bound, priced, no_id) refl)
          | inr (id, parsed) ↦ elim (Option-cases (get_event_by_id o.query_fails id b.tables)) [
            | inl no_event ↦ inl (
              400,
              "event not found or not active",
              rw (create_order, bound, priced, parsed, no_event) refl,
            )
            | inr (row, found) ↦ elim (Bool-cases (not (active row))) [
              | inl over ↦ inl (
                400,
                "event is not active",
                rw (create_order, bound, priced, parsed, found, over) refl,
              )
              | inr live ↦
                  let (sent, valid) = bind_order-some body r bound in
                  let went : create_order router o (some u) body b
                      ≡ ask_engine router o.exchange r.event_id
                          (record { kind = "CREATE_ORDER"; payload = order_payload o u r }) b =
                    rw (create_order, bound, priced, parsed, found, live) refl in
                  inr (record {
                    user_id = u;
                    logged_in = refl;
                    request = r;
                    sent = sent;
                    bound = valid;
                    priced = priced-positive _ _ priced;
                    event_id = id;
                    parsed = parsed;
                    row = row;
                    found = get_event_by_id-some o.query_fails id b.tables row found;
                    is_active = active-true row live;
                    faultless = λ w. validate_order-bound w o u r valid;
                    asked =
                        subst
                          (IsAsked router o.exchange r.event_id
                            (record { kind = "CREATE_ORDER"; payload = order_payload o u r }) b)
                          (sym went)
                          (ask_engine-IsAsked router o.exchange r.event_id
                            (record { kind = "CREATE_ORDER"; payload = order_payload o u r }) b);
                  })
            ]
          ]
        ]
      ]
]

-- A cancellation was asked for, by the user whose order it is.
pub record IsWithdrawn (router : Option Router) (o : Outside) (user : Option String)
    (order_id : String) (b : Backend) (r : HttpResponse × Backend) : Type 0 where
  pub id : String
  pub parsed : o.parse order_id ≡ some id
  pub row : OrderRow
  pub found : lookup id b.tables.db.orders ≡ some row
  pub own : user ≡ some row.user_id
  pub asked :
      IsAsked router o.exchange row.event_id
        (record { kind = "CANCEL_ORDER"; payload = cancel_payload order_id row.event_id })
        b
        r

get_order_by_id-some :
    (fails : Bool) (id : String) (t : Tables) (row : OrderRow)
    → get_order_by_id fails id t ≡ some row
    → lookup id t.db.orders ≡ some row
unfolding get_order_by_id
get_order_by_id-some true id t row e = absurd (ground arith)
get_order_by_id-some false id t row e = e

-- A cancellation is turned away, or it is of an order in the tables, by the user whose order that is,
-- and goes to the engine.
pub delete_order-IsWithdrawn :
    (router : Option Router) (o : Outside) (user : Option String) (order_id : String) (b : Backend)
    → TurnedAway b (delete_order router o user order_id b)
      ⊎ IsWithdrawn router o user order_id b (delete_order router o user order_id b)
unfolding delete_order
delete_order-IsWithdrawn router o none order_id b = inl (401, "unauthorized", refl)
delete_order-IsWithdrawn router o (some u) order_id b = elim (Option-cases (o.parse order_id)) [
  | inl no_id ↦ inl (400, "invalid order ID", rw (delete_order, no_id) refl)
  | inr (id, parsed) ↦ elim (Option-cases (get_order_by_id o.query_fails id b.tables)) [
    | inl no_order ↦ inl (404, "order not found", rw (delete_order, parsed, no_order) refl)
    | inr (row, found) ↦ elim (Bool-cases (row.user_id == u)) [
      | inr other ↦ inl (
        403,
        "you are not authorized to cancel this order",
        rw (delete_order, parsed, found, other) refl,
      )
      | inl own ↦
          let went : delete_order router o (some u) order_id b
              ≡ ask_engine router o.exchange row.event_id
                  (record { kind = "CANCEL_ORDER"; payload = cancel_payload order_id row.event_id })
                  b =
            rw (delete_order, parsed, found, own) refl in
          inr (record {
            id = id;
            parsed = parsed;
            row = row;
            found = get_order_by_id-some o.query_fails id b.tables row found;
            own = ap some (sym ((string_eq.beq_iff row.user_id u).0 own));
            asked =
                subst
                  (IsAsked router o.exchange row.event_id
                    (record {
                      kind = "CANCEL_ORDER";
                      payload = cancel_payload order_id row.event_id;
                    })
                    b)
                  (sym went)
                  (ask_engine-IsAsked router o.exchange row.event_id
                    (record {
                      kind = "CANCEL_ORDER";
                      payload = cancel_payload order_id row.event_id;
                    })
                    b);
          })
    ]
  ]
]
