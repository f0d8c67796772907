-- ===== src/Engine/Examples/Runs.antt =====
-- An engine that has one event, and the commands that it gets.
use predix_go_backend.Base.{
  ◌≡◌, refl, String, true, false, Option, none, some, List, [], ◌∷◌, arith, pos, ◌⊎◌,
}
use predix_go_backend.Dict.{lookup}
use predix_go_backend.Engine.Types.{
  Status, book_of, empty_book, side_buy, outcome_yes, order_type_limit,
}
use predix_go_backend.Engine.Emit.{
  Bus, Delivery, Envelope, EventType, cancel_data, new_envelope, emit_event, recover,
}
use predix_go_backend.Engine.Emit.Outbox.{
  Kept, Recovered, emit_event-Kept, emit_event_drops_pending, recover-Recovered,
}
use predix_go_backend.Engine.Core.{Core}
use predix_go_backend.Engine.Core.Invariant.{IsValid}
use predix_go_backend.Engine.Commands.{
  Engine, World, success, failure, canceled, existing, cancel_at, not_cancelable, CreateRequest,
  CancelRequest, handle_create_order, handle_cancel_order, handle_user_created,
}
use predix_go_backend.Engine.Commands.Idempotence.{handle_create_order_known}
use predix_go_backend.Engine.Commands.Cancellation.{
  IsCancellation, handle_cancel_order-IsCancellation,
}
use predix_go_backend.Engine.Commands.Placement.{Served}
use predix_go_backend.Engine.Dispatch.{
  Command, handle_message, run_commands, replay_command_log, set_replaying,
}
use predix_go_backend.Engine.Dispatch.Totality.{handle_message-Served}
use predix_go_backend.Engine.Dispatch.Replay.{replay_command_log_silent}
use predix_go_backend.Engine.Dispatch.Reconstruction.{state_after, replay_command_log_rebuilds}
use predix_go_backend.Engine.Examples.{sample_order, sample_source}

abbrev pub all_ok : Delivery
all_ok = record {
  envelope_id = "e";
  stamped_at = 1;
  append_ok = true;
  xadd_ok = true;
  publish_ok = true;
  reset_ok = true;
}

abbrev no_stream : Delivery
no_stream = record all_ok { xadd_ok = false }

abbrev pub sample_world : World
sample_world = record {
  source = sample_source;
  new_order_id = "o";
  now = 1;
  delivery = all_ok;
  trade_delivery = λ k. all_ok;
}

abbrev old_envelope : Envelope
old_envelope = record {
  id = "old";
  event_type = EventType.order_canceled;
  partition_id = 0;
  fencing_token = 1;
  sequence = 1;
  created_at = 0;
  payload = cancel_data "s9";
}

-- One envelope is left over from an earlier failure.
abbrev pub sample_bus : Bus
sample_bus = record {
  replaying = λ q. false;
  partition_token = λ q. 1;
  partition_seq = λ q. 1;
  journal = old_envelope ∷ [];
  stream = [];
  channel = [];
}

-- Alice's order b1 rests in the book of its event.
abbrev pub sample_core : Core
sample_core = record {
  markets =
      ("E", record { yes_book = record { bids = 0 ∷ []; asks = [] }; no_book = empty_book }) ∷ [];
  orders = ("b1", 0) ∷ [];
  ledger = record {
    balances = ("alice", record { available = pos 100; reserved = pos 70 }) ∷ [];
    positions = [];
  };
  heap = λ p. record (sample_order "b1" "alice" side_buy 7 10) { locked_funds = pos 70 };
  next_address = 1;
}

abbrev pub sample_engine : Engine
sample_engine = record { core = sample_core; bus = sample_bus }

pub sample_core-IsValid : IsValid sample_core
sample_core-IsValid = record {
  conserved = λ p. record {
    whole = (refl, omega arith);
    filled = (refl, omega arith);
    remaining = (refl, omega arith);
    total = omega arith;
  };
  markets = (
    (
      (record { bids = (tt, tt); asks = tt }, ((omega arith, tt), tt)),
      (record { bids = tt; asks = tt }, (tt, tt)),
    ),
    tt,
  );
  orders = ((omega arith, refl), tt);
}

abbrev pub sample_request : CreateRequest
sample_request = record {
  order_id = "b2";
  event_id = "E";
  user_id = "alice";
  order_type = order_type_limit;
  outcome = outcome_yes;
  side = side_buy;
  quantity = pos 3;
  price = pos 10;
}

abbrev pub cancel_b1 : CancelRequest
cancel_b1 = record { order_id = "b1"; event_id = "E" }

abbrev pub sample_log : List (Option Command)
sample_log =
    some (Command.create_order (some sample_request))
    ∷ none
    ∷ some (Command.cancel_order (some cancel_b1))
    ∷ []

handle_message-Served_example :
    Served
      (handle_message sample_world 0 (Command.create_order (some sample_request)) sample_engine)
handle_message-Served_example =
    handle_message-Served sample_world 0 (Command.create_order (some sample_request)) sample_engine
      (omega arith, omega arith) sample_core-IsValid

emit_event-Kept_example :
    Kept
      (new_envelope no_stream sample_bus 0 EventType.order_canceled (cancel_data "b1"))
      sample_bus
      (emit_event no_stream 0 EventType.order_canceled (cancel_data "b1") false sample_bus)
emit_event-Kept_example =
    emit_event-Kept no_stream 0 EventType.order_canceled (cancel_data "b1") false sample_bus refl
      refl

emit_event_drops_pending_example :
    ((emit_event all_ok 0 EventType.order_canceled (cancel_data "b1") false sample_bus).1.journal
      ≡ [])
    × ((emit_event all_ok 0 EventType.order_canceled (cancel_data "b1") false sample_bus).1.stream
        ≡ new_envelope all_ok sample_bus 0 EventType.order_canceled (cancel_data "b1") ∷ [])
unfolding emit_event
emit_event_drops_pending_example =
    emit_event_drops_pending all_ok 0 EventType.order_canceled (cancel_data "b1") false sample_bus
      refl refl refl

recover-Recovered_example : Recovered sample_bus (recover (λ i. all_ok) all_ok sample_bus)
recover-Recovered_example = recover-Recovered (λ i. all_ok) all_ok sample_bus

handle_create_order_known_example :
    (handle_create_order sample_world 0
        (some (record sample_request { order_id = "b1" }))
        sample_engine
      ≡ some (success (existing "b1" Status.pending), sample_engine))
    ⊎ ((message : String) × (handle_create_order sample_world 0
            (some (record sample_request { order_id = "b1" }))
            sample_engine
          ≡ some (failure message, sample_engine)))
unfolding lookup
handle_create_order_known_example =
    handle_create_order_known sample_world 0 0 (record sample_request { order_id = "b1" })
      sample_engine refl refl

handle_cancel_order-IsCancellation_example :
    IsCancellation cancel_b1 sample_engine
      (handle_cancel_order sample_world 0 (some cancel_b1) sample_engine)
handle_cancel_order-IsCancellation_example =
    handle_cancel_order-IsCancellation sample_world 0 cancel_b1 sample_engine

abbrev pub canceled_engine : Engine
canceled_engine = record {
  core =
      cancel_at 0 (record { yes_book = record { bids = 0 ∷ []; asks = [] }; no_book = empty_book })
        (record { bids = 0 ∷ []; asks = [] }) sample_core;
  bus = (emit_event all_ok 0 EventType.order_canceled (cancel_data "b1") false sample_bus).1;
}

pub canceled_run :
    handle_cancel_order sample_world 0 (some cancel_b1) sample_engine
    ≡ some (success (canceled "b1"), canceled_engine)
unfolding handle_cancel_order lookup not_cancelable book_of
canceled_run = refl

abbrev dave_log : List (Option Command)
dave_log = none ∷ some (Command.user_created (some "dave")) ∷ []

abbrev dave_engine : Engine
dave_engine =
    set_replaying 0 false (handle_user_created (some "dave") (set_replaying 0 true sample_engine)).1

dave_run : replay_command_log (λ i. sample_world) 0 dave_log sample_engine ≡ some dave_engine
unfolding replay_command_log run_commands handle_message
dave_run = refl

replay_command_log_silent_example :
    (dave_engine.bus.journal ≡ old_envelope ∷ [])
    × (dave_engine.bus.stream ≡ [])
    × (dave_engine.bus.channel ≡ [])
    × (dave_engine.bus.partition_seq ≡ sample_bus.partition_seq)
    × (dave_engine.bus.partition_token ≡ sample_bus.partition_token)
    × (dave_engine.bus.replaying 0 ≡ false)
replay_command_log_silent_example =
    replay_command_log_silent (λ i. sample_world) 0 dave_log sample_engine dave_engine dave_run

replay_command_log_rebuilds_example :
    state_after (
      replay_command_log
        (λ i. sample_world)
        0
        sample_log
        (record { core = sample_core; bus = record sample_bus { journal = [] } }))
    ≡ state_after (run_commands (λ i. sample_world) 0 0 sample_log sample_engine)
replay_command_log_rebuilds_example =
    replay_command_log_rebuilds (λ i. sample_world) 0 sample_log sample_core sample_bus
      (record sample_bus { journal = [] }) (λ i. (refl, refl))
