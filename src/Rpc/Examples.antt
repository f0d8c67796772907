-- ===== src/Rpc/Examples.antt =====
-- A request whose first append gets no reply, and a fan-out to two partitions that ends at the second.
use predix_go_backend.Base.{
  ℕ, zero, suc, ◌≡◌, refl, String, true, none, some, [], ◌∷◌, pos, pos_part,
}
use predix_go_backend.Partition.Router.{Router, new_router}
use predix_go_backend.Engine.Commands.{success, created}
use predix_go_backend.Rpc.{
  Payload, MessageToEngine, EngineResponse, Store, Stamp, counted, uncertain, Added, stored,
  lost_reply, refused, reply, Exchange, answered, send_and_await, send_command_fanout,
  create_envelope, append_command, append_from, await_response,
}
use predix_go_backend.Rpc.Requests.{IsRequested, send_and_await-IsRequested}
use predix_go_backend.Rpc.Fanout.{IsFanned, send_command_fanout-IsFanned}

abbrev router : Router
router = new_router (pos 2) ""

abbrev payload : Payload
payload = record {
  create_fields = none;
  cancel_fields = none;
  event_field = some "E";
  event_user_fields = none;
  user_field = some "dave";
}

abbrev empty_store : Store
empty_store = record { counter = λ k. 0; stream = λ k. [] }

abbrev second_time : ℕ → Added
second_time zero = lost_reply
second_time (suc n) = stored

abbrev response : String → EngineResponse
response id = record { request_id = id; body = success created }

abbrev exchange : Exchange
exchange = record {
  subscribed = true;
  client_id = "c";
  stamp = record { count = uncertain; request_id = "r1"; now = 7 };
  added = second_time;
  heard = reply (response "r0") ∷ reply (response "r1") ∷ [];
}

abbrev create_event : MessageToEngine
create_event = record { kind = "CREATE_EVENT"; payload = payload }

send_and_await-IsRequested_example :
    IsRequested
      (some router)
      exchange
      "E"
      create_event
      empty_store
      (send_and_await (some router) exchange "E" create_event empty_store)
send_and_await-IsRequested_example =
    send_and_await-IsRequested (some router) exchange "E" create_event empty_store

-- The second attempt is acknowledged, the stray reply passed over.
answer_test :
    (send_and_await (some router) exchange "E" create_event empty_store).0
    ≡ answered (response "r1")
unfolding send_and_await create_envelope append_command append_from await_response
answer_test = refl

abbrev stamps : ℕ → Stamp
stamps p = record { count = counted; request_id = "r"; now = p }

abbrev until_second : ℕ → Added
until_second zero = stored
until_second (suc n) = refused

send_command_fanout-IsFanned_example :
    IsFanned stamps "USER_CREATED" payload 0
      (pos_part router.partitions)
      empty_store
      (send_command_fanout (some router) stamps until_second "USER_CREATED" payload empty_store)
send_command_fanout-IsFanned_example =
    send_command_fanout-IsFanned router stamps until_second "USER_CREATED" payload empty_store
