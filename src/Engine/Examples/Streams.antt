-- ===== src/Engine/Examples/Streams.antt =====
-- A partition's stream with an order request of a waiting client and an entry that cannot be read.
use predix_go_backend.Base.{
  ◌≡◌, refl, String, true, Option, none, some, List, [], ◌∷◌, arith, pos, mul64,
}
use predix_go_backend.Dict.{lookup, insert}
use predix_go_backend.Engine.Types.{Status, book_of}
use predix_go_backend.Engine.Commands.{
  Engine, Response, success, placed, handle_create_order, handle_user_created, new_order,
  validate_order, admit_order, place_order,
}
use predix_go_backend.Engine.Ledger.{reserve_order, grant_balance, balance_of, reserve_cost}
use predix_go_backend.Engine.Book.{find_counterparty, opposite, set_opposite, remove_invalid}
use predix_go_backend.Engine.Core.{match_order}
use predix_go_backend.Engine.Emit.{emit_event}
use predix_go_backend.Engine.Matching.{match_against_book, match_loop, match_round}
use predix_go_backend.Engine.Dispatch.{Command, handle_message, run_commands, set_replaying}
use predix_go_backend.Engine.Consumer.{
  Consumer, Link, delivered, failed, stopped, command_of, consume_messages, process_stream_entry,
}
use predix_go_backend.Engine.Consumer.Entries.{
  engine_after, commands_of, consume_messages-run_commands,
}
use predix_go_backend.Engine.Consumer.Replies.{request_entry, IsAnswered, request-IsAnswered}
use predix_go_backend.Engine.Consumer.Backlog.{IsSilenced, replayed_order-IsSilenced}
use predix_go_backend.Engine.Examples.Runs.{
  sample_world, sample_engine, sample_request, sample_core-IsValid,
}
use predix_go_backend.Rpc.{
  Payload, CommandEnvelope, garbled, Entry, Store, Stamp, counted, create_envelope,
}

abbrev order_payload : Payload
order_payload = record {
  create_fields = some sample_request;
  cancel_fields = none;
  event_field = some "E";
  event_user_fields = none;
  user_field = none;
}

abbrev stamp : Stamp
stamp = record { count = counted; request_id = "r1"; now = 5 }

abbrev no_commands : Store
no_commands = record { counter = λ k. 0; stream = λ k. [] }

abbrev sample_envelope : CommandEnvelope
unfolding create_envelope
sample_envelope = (create_envelope none stamp "CREATE_ORDER" "E" order_payload 0 no_commands).0

abbrev healthy : Link
healthy = record { ack_ok = true; publish_ok = true }

abbrev sample_consumer : Consumer
sample_consumer = record { engine = sample_engine; acked = []; published = [] }

abbrev sample_entries : List (String × Entry)
sample_entries =
    ("1-0", record { client_id = "c"; command = garbled })
    ∷ ("2-0", request_entry "c" sample_envelope)
    ∷ []

consume_messages-run_commands_example :
    engine_after (
      consume_messages
        (λ i. sample_world)
        0
        (λ i. healthy)
        true
        []
        (failed ∷ delivered sample_entries ∷ stopped ∷ [])
        sample_consumer)
    ≡ run_commands (λ i. sample_world) 0 0 (commands_of sample_entries) sample_engine
consume_messages-run_commands_example =
    consume_messages-run_commands (λ i. sample_world) 0 (λ i. healthy) []
      (failed ∷ delivered sample_entries ∷ stopped ∷ []) sample_consumer

request-IsAnswered_example :
    (c' : Consumer) × (process_stream_entry sample_world 0 healthy "2-0"
        (request_entry "c"
          (create_envelope none stamp "CREATE_ORDER" "E" order_payload 0 no_commands).0)
        sample_consumer
      ≡ some c')
    × IsAnswered sample_world 0 healthy "2-0" "c" "r1"
        (command_of "CREATE_ORDER" order_payload)
        sample_consumer
        c'
unfolding command_of
request-IsAnswered_example =
    request-IsAnswered sample_world 0 healthy "2-0" "c" none stamp "E" "CREATE_ORDER" order_payload
      0 no_commands sample_consumer refl refl refl (omega arith, omega arith) sample_core-IsValid

-- Dave is announced, and then Alice's order b2 waits in the stream for an engine.
abbrev dave_first : List (Option Command)
dave_first = some (Command.user_created (some "dave")) ∷ []

abbrev engine_of : Engine → Option (Response × Engine) → Engine
engine_of e none = e
engine_of e (some x) = x.1

abbrev dave_known : Engine
dave_known = (handle_user_created (some "dave") (set_replaying 0 true sample_engine)).1

abbrev order_replayed : Engine
order_replayed =
    engine_of sample_engine
      (handle_message sample_world 0 (Command.create_order (some sample_request)) dave_known)

dave_run :
    run_commands (λ i. sample_world) 0 0 dave_first (set_replaying 0 true sample_engine)
    ≡ some dave_known
unfolding run_commands handle_message
dave_run = refl

order_run :
    handle_message sample_world 0 (Command.create_order (some sample_request)) dave_known
    ≡ some (success (placed "b2" Status.pending (pos 0) (pos 3)), order_replayed)
unfolding handle_message handle_create_order new_order validate_order admit_order reserve_order
    place_order emit_event match_order match_against_book match_loop handle_user_created
    grant_balance set_replaying lookup insert balance_of reserve_cost mul64 book_of match_round
    find_counterparty opposite set_opposite remove_invalid
order_run = refl

replayed_order-IsSilenced_example :
    IsSilenced (λ i. sample_world) 0 dave_first sample_world sample_request sample_engine
replayed_order-IsSilenced_example =
    replayed_order-IsSilenced (λ i. sample_world) 0 dave_first sample_world sample_request
      sample_engine dave_known order_replayed (placed "b2" Status.pending (pos 0) (pos 3)) refl
      dave_run order_run
