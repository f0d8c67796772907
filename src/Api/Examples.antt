-- ===== src/Api/Examples.antt =====
-- A user who is signed up, an event that is active, and the user's order.
use predix_go_backend.Base.{
  ◌≡◌, refl, ◌⊎◌, arith, String, true, false, Option, none, some, [], ◌∷◌, ◌==◌, string_eq,
  if◌then◌else◌, pos,
}
use predix_go_backend.Dict.{lookup, insert}
use predix_go_backend.Engine.Types.{Status, order_type_limit, outcome_yes, side_buy}
use predix_go_backend.Engine.Commands.{success, placed}
use predix_go_backend.Rpc.{
  counted, stored, reply, send_and_await, create_envelope, append_command, append_from,
  await_response, partition_for, key_for,
}
use predix_go_backend.Api.Queries.{
  Tables, default_balance, has_trade, get_event_by_id, get_user_by_email, create_user,
}
use predix_go_backend.Api.{
  Backend, CreateOrderRequest, Outside, create_order, delete_order, CreateEventRequest,
  create_event, granted, engine_reply, bind_order, binds_order, ask_engine,
}
use predix_go_backend.Api.Auth as Auth
use predix_go_backend.Api.Auth.{
  Libraries, split_space, auth_middleware, let_through, signup, signin, signed_up, signed_in,
}
use predix_go_backend.Api.Sessions.{signup-signin_passes}
use predix_go_backend.Api.Orders.{
  TurnedAway, IsOrdered, IsWithdrawn, create_order-IsOrdered, delete_order-IsWithdrawn,
}
use predix_go_backend.Api.Events.{IsProposed, create_event-IsProposed}

abbrev sample_tables : Tables
sample_tables = record {
  events =
      (
        "E",
        record {
          title = "t";
          description = "d";
          question = "q";
          thumbnail = "u";
          is_active = some true;
          expires_at = 9;
        },
      )
      ∷ [];
  users = [];
  db = record {
    users = ("alice", pos 1000000) ∷ [];
    orders =
        (
          "b1",
          record {
            event_id = "E";
            user_id = "alice";
            order_type = order_type_limit;
            outcome = outcome_yes;
            side = side_buy;
            quantity = pos 7;
            price = pos 10;
            status = Status.pending;
            filled_quantity = pos 0;
            remaining_quantity = pos 7;
          },
        )
        ∷ [];
    trades = [];
    positions = [];
    transactions = [];
    volumes = ("E", pos 0) ∷ [];
  };
}

abbrev sample_backend : Backend
sample_backend = record {
  tables = sample_tables;
  store = record { counter = λ k. 0; stream = λ k. [] };
}

abbrev outside : Outside
outside = record {
  parse = some;
  query_fails = false;
  new_id = "F";
  exchange = record {
    subscribed = true;
    client_id = "c";
    stamp = record { count = counted; request_id = "r"; now = 1 };
    added = λ k. stored;
    heard =
        reply
          (record { request_id = "r"; body = success (placed "b2" Status.pending (pos 0) (pos 3)) })
        ∷ [];
  };
}

abbrev order_request : CreateOrderRequest
order_request = record {
  order_id = "";
  event_id = "E";
  order_type = order_type_limit;
  outcome = outcome_yes;
  side = side_buy;
  quantity = pos 3;
  price = record { is_zero = false; is_positive = true; scaled = pos 5000 };
}

create_order-IsOrdered_example :
    TurnedAway sample_backend
      (create_order none outside (some "alice") (some order_request) sample_backend)
    ⊎ IsOrdered none outside
        (some "alice")
        (some order_request)
        sample_backend
        (create_order none outside (some "alice") (some order_request) sample_backend)
create_order-IsOrdered_example =
    create_order-IsOrdered none outside (some "alice") (some order_request) sample_backend

delete_order-IsWithdrawn_example :
    TurnedAway sample_backend (delete_order none outside (some "alice") "b1" sample_backend)
    ⊎ IsWithdrawn none outside
        (some "alice")
        "b1"
        sample_backend
        (delete_order none outside (some "alice") "b1" sample_backend)
delete_order-IsWithdrawn_example =
    delete_order-IsWithdrawn none outside (some "alice") "b1" sample_backend

abbrev event_request : CreateEventRequest
event_request = record {
  title = "rain";
  description = "d";
  question = "will it rain?";
  image_url = "https://x";
  expires_at = "2030-01-01T00:00:00Z";
}

create_event-IsProposed_example :
    TurnedAway sample_backend (
      create_event none outside (λ u. true) (λ t. some 5) false (some event_request) sample_backend)
    ⊎ IsProposed none outside
        (λ u. true)
        (λ t. some 5)
        (some event_request)
        sample_backend
        (create_event none outside
          (λ u. true)
          (λ t. some 5)
          false
          (some event_request)
          sample_backend)
unfolding lookup has_trade
create_event-IsProposed_example =
    create_event-IsProposed none outside (λ u. true) (λ t. some 5) (some event_request)
      sample_backend refl refl

order_test :
    (create_order none outside (some "alice") (some order_request) sample_backend).0
    ≡ granted 200 (engine_reply (placed "b2" Status.pending (pos 0) (pos 3)))
unfolding create_order bind_order binds_order ask_engine get_event_by_id lookup send_and_await
    create_envelope append_command append_from await_response partition_for key_for
order_test = refl

-- A hash is the password itself, a token the user's id.
abbrev libraries : Libraries
libraries = record {
  is_email = λ e. true;
  hash = some;
  matches = λ h p. h == p;
  generate = λ id email. some id;
  validate = λ t. if t == "u1" then some ("u1", "a@x") else none;
}

abbrev sign_up : Auth.Outside
sign_up = record {
  find_fails = false;
  create_fails = false;
  new_id = "u1";
  stamps = λ k. record { count = counted; request_id = "r"; now = 1 };
  added = λ k. stored;
}

abbrev signed : Backend
signed = (signup libraries none sign_up (some ("a@x", "secret")) sample_backend).1

signup_run :
    signup libraries none sign_up (some ("a@x", "secret")) sample_backend
    ≡ (signed_up "u1" "a@x", signed)
unfolding signup get_user_by_email create_user lookup insert
signup_run = refl

own_hash :
    (hashed : String)
    → ◌≡◌ {A = Option String} (some "secret") (some hashed)
    → (hashed == "secret") ≡ true
own_hash hashed e = ground (arith, string_eq.beq_iff hashed "secret")

header_test : split_space "Bearer u1" ≡ "Bearer" ∷ "u1" ∷ []
unfolding split_space
header_test = refl

signup-signin_passes_example :
    (signin libraries false (some ("a@x", "secret")) signed ≡ signed_in "u1" "u1" "a@x")
    × (auth_middleware libraries.validate "Bearer u1" ≡ let_through ("u1", "a@x"))
    × (lookup "u1" signed.tables.db.users ≡ some default_balance)
signup-signin_passes_example =
    signup-signin_passes libraries none sign_up "a@x" "secret" "u1" "Bearer u1" "u1" sample_backend
      signed signup_run own_hash refl refl header_test
