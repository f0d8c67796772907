-- ===== src/Api.antt =====
-- The handlers of internal/handler, the tags of internal/dto and internal/middleware/auth.go. What
-- gin decodes from a request is an argument, as are uuid.Parse, time.Parse, the JWT and bcrypt
-- libraries, and which queries fail; a float64 price is of a type with what the handlers ask of it.
pub mod Queries
pub mod Auth
pub mod Sessions
pub mod Asking
pub mod Orders
pub mod Events
pub mod Examples
use predix_go_backend.Base.{
  ℕ, String, Bool, true, false, not, ◌&&◌, ◌||◌, Option, none, some, List, [], ◌∷◌, ◌==◌, string_eq,
  if◌then◌else◌, ℤ, pos, leb_ℤ, ltb_ℤ,
}
use predix_go_backend.Partition.Router.{Router}
use predix_go_backend.Engine.Types.{
  order_type_limit, order_type_market, outcome_yes, outcome_no, side_buy, side_sell,
}
use predix_go_backend.Engine.Commands.{
  Response, Reply, success, failure, CreateRequest, CancelRequest,
}
use predix_go_backend.Rpc.{
  Payload, MessageToEngine, Store, Exchange, Awaited, answered, unanswered, send_and_await,
  EngineResponse,
}
use predix_go_backend.Api.Queries.{
  Tables, EventRow, UserRow, get_event_by_id, get_order_by_id, create_event_row, delete_event,
}

-- What a response carries: what the engine answered, an event, or events.
pub data Body : Type 0 where
  engine_reply : Reply → Body
  event_body : String → EventRow → Body

pub data HttpResponse : Type 0 where
  refused : ℕ → String → HttpResponse
  granted : ℕ → Body → HttpResponse

-- The database and Redis.
pub record Backend : Type 0 where
  pub tables : Tables
  pub store : Store

-- A float64: whether it is 0 or positive, and ScalePrice of it.
pub record Float : Type 0 where
  pub is_zero : Bool
  pub is_positive : Bool
  pub scaled : ℤ

pub record CreateOrderRequest : Type 0 where
  pub order_id : String
  pub event_id : String
  pub order_type : String
  pub outcome : String
  pub side : String
  pub quantity : ℤ
  pub price : Float

-- The binding tags of CreateOrderRequest.
unfoldable pub binds_order : CreateOrderRequest → Bool
binds_order r =
    not (r.event_id == "")
    && (((r.order_type == order_type_limit) || (r.order_type == order_type_market))
        && (((r.outcome == outcome_yes) || (r.outcome == outcome_no))
            && (((r.side == side_buy) || (r.side == side_sell))
                && (ltb_ℤ (pos 0) r.quantity && (r.price.is_zero || r.price.is_positive)))))

-- ShouldBindJSON: `none` where the body is no JSON of a request, or breaks a tag.
unfoldable pub bind_order : Option CreateOrderRequest → Option CreateOrderRequest
unfolding binds_order
bind_order none = none
bind_order (some r) = if binds_order r then some r else none

-- The last part of a handler: the engine is asked, and its reply is given, or an error.
unfoldable pub ask_engine :
    Option Router → Exchange → String → MessageToEngine → Backend → HttpResponse × Backend
ask_engine router x event msg b =
    let (answer, store) = send_and_await router x event msg b.store in
    let b' = record b { store = store } in
    elim answer [
      | unanswered message ↦ (refused 400 "orderbook not responding", b')
      | answered r ↦ elim r.body [
        | success reply ↦ (granted 200 (engine_reply reply), b')
        | failure message ↦ (refused 400 "orderbook not responding", b')
      ]
    ]

-- What one request meets outside: the failing query, the id that is made, the exchange.
pub record Outside : Type 0 where
  pub parse : String → Option String
  pub query_fails : Bool
  pub new_id : String
  pub exchange : Exchange

abbrev pub order_id_of : Outside → CreateOrderRequest → String
order_id_of o r = if r.order_id == "" then o.new_id else r.order_id

-- The payload of CREATE_ORDER, as each handler of the engine would read it.
abbrev pub order_payload : Outside → String → CreateOrderRequest → Payload
order_payload o user r = record {
  create_fields = some (record {
    order_id = order_id_of o r;
    event_id = r.event_id;
    user_id = user;
    order_type = r.order_type;
    outcome = r.outcome;
    side = r.side;
    quantity = r.quantity;
    price = r.price.scaled;
  });
  cancel_fields = some (record { order_id = order_id_of o r; event_id = r.event_id });
  event_field = some r.event_id;
  event_user_fields = some (r.event_id, user);
  user_field = some user;
}

-- pgtype.Bool's value, which is false for NULL.
abbrev pub active : EventRow → Bool
active e = elim e.is_active [ none ↦ false | some b ↦ b ]

-- The user is the one that the middleware has put into the context.
unfoldable pub create_order :
    Option Router
    → Outside
    → Option String
    → Option CreateOrderRequest
    → Backend
    → HttpResponse × Backend
unfolding bind_order ask_engine
create_order router o user body b = elim user [
  | none ↦ (refused 401 "unauthorized", b)
  | some u ↦ elim (bind_order body) [
    | none ↦ (refused 400 "invalid request", b)
    | some r ↦
        if (r.order_type == order_type_limit) && not r.price.is_positive
        then (refused 400 "price is required for LIMIT orders", b)
        else elim (o.parse r.event_id) [
          | none ↦ (refused 400 "invalid event ID", b)
          | some id ↦ elim (get_event_by_id o.query_fails id b.tables) [
            | none ↦ (refused 400 "event not found or not active", b)
            | some row ↦
                if not (active row)
                then (refused 400 "event is not active", b)
                else ask_engine router o.exchange r.event_id
                    (record { kind = "CREATE_ORDER"; payload = order_payload o u r }) b
          ]
        ]
  ]
]

-- What a handler of orders would read where these two fields stand alone.
abbrev pub blank_request : String → String → CreateRequest
blank_request order event = record {
  order_id = order;
  event_id = event;
  user_id = "";
  order_type = "";
  outcome = "";
  side = "";
  quantity = pos 0;
  price = pos 0;
}

abbrev pub cancel_payload : String → String → Payload
cancel_payload order event = record {
  create_fields = some (blank_request order event);
  cancel_fields = some (record { order_id = order; event_id = event });
  event_field = some event;
  event_user_fields = some (event, "");
  user_field = some "";
}

unfoldable pub delete_order :
    Option Router → Outside → Option String → String → Backend → HttpResponse × Backend
unfolding ask_engine
delete_order router o user order_id b = elim user [
  | none ↦ (refused 401 "unauthorized", b)
  | some u ↦ elim (o.parse order_id) [
    | none ↦ (refused 400 "invalid order ID", b)
    | some id ↦ elim (get_order_by_id o.query_fails id b.tables) [
      | none ↦ (refused 404 "order not found", b)
      | some row ↦
          if not (row.user_id == u)
          then (refused 403 "you are not authorized to cancel this order", b)
          else ask_engine router o.exchange row.event_id
              (record { kind = "CANCEL_ORDER"; payload = cancel_payload order_id row.event_id }) b
    ]
  ]
]

abbrev pub event_payload : String → Payload
event_payload event = record {
  create_fields = some (blank_request "" event);
  cancel_fields = some (record { order_id = ""; event_id = event });
  event_field = some event;
  event_user_fields = some (event, "");
  user_field = some "";
}

-- GetOrderbook and GetOrderbookDepth, which do the same.
unfoldable pub get_orderbook : Option Router → Outside → String → Backend → HttpResponse × Backend
unfolding ask_engine
get_orderbook router o event_id b = elim (o.parse event_id) [
  | none ↦ (refused 400 "invalid event ID", b)
  | some id ↦ elim (get_event_by_id o.query_fails id b.tables) [
    | none ↦ (refused 404 "event not found", b)
    | some row ↦
        ask_engine router o.exchange event_id
          (record { kind = "GET_DEPTH"; payload = event_payload event_id }) b
  ]
]

unfoldable pub get_event : Outside → String → Backend → HttpResponse
get_event o event_id b = elim (o.parse event_id) [
  | none ↦ refused 400 "invalid event ID"
  | some id ↦ elim (get_event_by_id o.query_fails id b.tables) [
    | none ↦ refused 404 "event not found"
    | some row ↦ granted 200 (event_body id row)
  ]
]

pub record CreateEventRequest : Type 0 where
  pub title : String
  pub description : String
  pub question : String
  pub image_url : String
  pub expires_at : String

-- The binding tags; `is_url` is the validator's test of a URL.
unfoldable pub binds_event : (String → Bool) → CreateEventRequest → Bool
binds_event is_url r =
    not (r.title == "")
    && (not (r.description == "")
        && (not (r.question == "")
            && (not (r.image_url == "") && (is_url r.image_url && not (r.expires_at == "")))))

unfoldable pub bind_event : (String → Bool) → Option CreateEventRequest → Option CreateEventRequest
unfolding binds_event
bind_event is_url none = none
bind_event is_url (some r) = if binds_event is_url r then some r else none

abbrev pub row_of : CreateEventRequest → ℕ → EventRow
row_of r expires = record {
  title = r.title;
  description = r.description;
  question = r.question;
  thumbnail = r.image_url;
  is_active = some true;
  expires_at = expires;
}

-- After the row is created: the engine is told, and where it does not answer the row is deleted,
-- whether or not that works.
unfoldable pub announce_event :
    Option Router → Outside → Bool → EventRow → Backend → HttpResponse × Backend
unfolding ask_engine
announce_event router o delete_fails row b =
    let (answer, b') =
      ask_engine router o.exchange o.new_id
        (record { kind = "CREATE_EVENT"; payload = event_payload o.new_id }) b in
    elim answer [
      | granted code body ↦ (granted 201 (event_body o.new_id row), b')
      | refused code message ↦ (
        refused code message,
        record b' { tables = delete_event delete_fails o.new_id b'.tables },
      )
    ]

unfoldable pub create_event :
    Option Router
    → Outside
    → (String → Bool)
    → (String → Option ℕ)
    → Bool
    → Option CreateEventRequest
    → Backend
    → HttpResponse × Backend
unfolding bind_event announce_event
create_event router o is_url parse_time delete_fails body b = elim (bind_event is_url body) [
  | none ↦ (refused 400 "invalid request", b)
  | some r ↦ elim (parse_time r.expires_at) [
    | none ↦ (refused 400 "invalid expiresAt format, use RFC3339", b)
    | some expires ↦ elim (create_event_row o.query_fails o.new_id (row_of r expires) b.tables) [
      | none ↦ (refused 500 "failed to create event", b)
      | some tables ↦
          announce_event router o delete_fails (row_of r expires) (record b { tables = tables })
    ]
  ]
]
