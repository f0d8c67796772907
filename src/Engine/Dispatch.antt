-- ===== src/Engine/Dispatch.antt =====
-- Queries, `handleMessage` and `replayCommandLog` of internal/engine. The worlds of a run of
-- commands are indexed by the place of the command in it.
pub mod Totality
pub mod Runs
pub mod Replay
pub mod Reconstruction
use predix_go_backend.Base.{
  ℕ, suc, String, Bool, true, false, ◌&&◌, ◌||◌, Option, none, some, List, [], ◌∷◌, ◌==◌,
  if◌then◌else◌, string_eq, nat_eq, ltb,
}
use predix_go_backend.Dict.{Dict, lookup}
use predix_go_backend.Sort.{keep, slice_stable}
use predix_go_backend.Engine.Types.{Order, Heap, Market}
use predix_go_backend.Engine.Depth.{aggregate_bids, aggregate_asks, is_open}
use predix_go_backend.Engine.Emit.{Bus}
use predix_go_backend.Engine.Commands.{
  Engine, World, Response, success, failure, depth, open_orders, CreateRequest, CancelRequest,
  handle_create_event, handle_user_created, handle_create_order, handle_cancel_order,
}

unfoldable pub handle_get_depth : Option String → Engine → Response
handle_get_depth none e = failure "invalid payload"
handle_get_depth (some event_id) e = elim (lookup event_id e.core.markets) [
  | none ↦ failure "event not found"
  | some m ↦ success (
      depth event_id (aggregate_bids e.core.heap m.yes_book.bids)
        (aggregate_asks e.core.heap m.yes_book.asks) (aggregate_bids e.core.heap m.no_book.bids)
        (aggregate_asks e.core.heap m.no_book.asks))
]

-- The order objects that the order map names.
unfoldable pub objects : Heap → Dict ℕ → List Order
objects h [] = []
objects h ((id, p) ∷ ps) = h p ∷ objects h ps

abbrev pub earlier : Order → Order → Bool
earlier a b = ltb a.created_at b.created_at

-- Go leaves the order in which it walks the map open; the sort by time settles it but for ties.
unfoldable pub handle_get_open_orders : Option (String × String) → Engine → Response
unfolding objects
handle_get_open_orders none e = failure "invalid payload"
handle_get_open_orders (some (event_id, user_id)) e = success (
    open_orders (
      slice_stable earlier (
        keep (λ o. (o.event_id == event_id) && ((o.user_id == user_id) && is_open o))
          (objects e.core.heap e.core.orders))))

-- A command with its payload, as `handleMessage` reads its type.
pub data Command : Type 0 where
  create_order : Option CreateRequest → Command
  cancel_order : Option CancelRequest → Command
  get_depth : Option String → Command
  get_open_orders : Option (String × String) → Command
  create_event : Option String → Command
  user_created : Option String → Command
  unknown : Command

unfoldable pub handle_message : World → ℕ → Command → Engine → Option (Response × Engine)
handle_message w pid (create_order r) e = handle_create_order w pid r e
handle_message w pid (cancel_order r) e = handle_cancel_order w pid r e
handle_message w pid (get_depth r) e = some (handle_get_depth r e, e)
handle_message w pid (get_open_orders r) e = some (handle_get_open_orders r e, e)
handle_message w pid (create_event r) e = some (handle_create_event r e)
handle_message w pid (user_created r) e = some (handle_user_created r e)
handle_message w pid unknown e = some (failure "unknown message type", e)

-- The commands of a stream in order; an entry that cannot be read, or has no type, is skipped.
unfoldable pub run_commands : (ℕ → World) → ℕ → ℕ → List (Option Command) → Engine → Option Engine
run_commands ws pid i [] e = some e
run_commands ws pid i (none ∷ cs) e = run_commands ws pid (suc i) cs e
run_commands ws pid i (some c ∷ cs) e = elim (handle_message (ws i) pid c e) [
  | none ↦ none
  | some (response, e') ↦ run_commands ws pid (suc i) cs e'
]

unfoldable pub set_replaying : ℕ → Bool → Engine → Engine
set_replaying pid flag e = record e {
  bus = record (e.bus) { replaying = λ q. if q == pid then flag else e.bus.replaying q };
}

-- The log is executed with the partition marked, so that nothing is emitted again.
unfoldable pub replay_command_log : (ℕ → World) → ℕ → List (Option Command) → Engine → Option Engine
unfolding run_commands set_replaying
replay_command_log ws pid log e = elim (run_commands ws pid 0 log (set_replaying pid true e)) [
  | none ↦ none
  | some e' ↦ some (set_replaying pid false e')
]
