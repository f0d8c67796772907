-- ===== src/Engine/Consumer.antt =====
-- `consumeMessages`, `processStreamEntry` and the switch of `handleMessage` of
-- internal/engine/engine.go: the entries of a partition's command stream, handled in order, answered
-- and acknowledged. Reads of the stream are an argument; `applyCommand` of replay.go meets the same
-- entries.
pub mod Entries
pub mod Replies
pub mod Backlog
use predix_go_backend.Base.{
  ℕ, suc, ◌+◌, String, Bool, true, false, not, Option, none, some, List, [], ◌∷◌, ◌++◌, ◌==◌,
  if◌then◌else◌, string_eq, length,
}
use predix_go_backend.Engine.Commands.{Engine, World, Response}
use predix_go_backend.Engine.Dispatch.{Command, handle_message}
use predix_go_backend.Rpc.{
  Payload, CommandEnvelope, EngineResponse, RawCommand, absent, garbled, written, Entry,
}

-- The switch of `handleMessage`: the command that a type and a payload are.
unfoldable pub command_of : String → Payload → Command
command_of kind x =
    if kind == "CREATE_ORDER"
    then Command.create_order x.create_fields
    else if kind == "CANCEL_ORDER"
    then Command.cancel_order x.cancel_fields
    else if kind == "GET_DEPTH"
    then Command.get_depth x.event_field
    else if kind == "GET_OPEN_ORDERS"
    then Command.get_open_orders x.event_user_fields
    else if kind == "CREATE_EVENT"
    then Command.create_event x.event_field
    else if kind == "USER_CREATED"
    then Command.user_created x.user_field
    else Command.unknown

-- `applyCommand`, before it: what an entry asks for, if it can be read and has a type.
unfoldable pub read_entry : Entry → Option Command
unfolding command_of
read_entry entry = elim entry.command [
  | absent ↦ none
  | garbled ↦ none
  | written env ↦ if env.kind == "" then none else some (command_of env.kind env.payload)
]

-- The engine, the entries that are acknowledged, and the responses that were published, each on its
-- channel, oldest first.
pub record Consumer : Type 0 where
  pub engine : Engine
  pub acked : List String
  pub published : List (String × EngineResponse)

-- Whether an acknowledgement and a publication reach Redis.
pub record Link : Type 0 where
  pub ack_ok : Bool
  pub publish_ok : Bool

-- The deferred acknowledgement.
abbrev pub acknowledge : Link → String → Consumer → Consumer
acknowledge link id c = if link.ack_ok then record c { acked = c.acked ++ id ∷ [] } else c

-- A response goes to the client that waits for one, with the id of its request if that has one.
unfoldable pub respond : Link → Entry → String → Response → Consumer → Consumer
respond link entry request body c =
    if entry.client_id == ""
    then c
    else if link.publish_ok
    then record c {
      published =
          c.published ++ (entry.client_id, record { request_id = request; body = body }) ∷ [];
    }
    else c

-- The request's id, which a response echoes.
abbrev pub request_of : Entry → String
request_of entry = elim entry.command [ absent ↦ "" | garbled ↦ "" | written env ↦ env.request_id ]

-- `none` only if a handler does not return.
unfoldable pub process_stream_entry : World → ℕ → Link → String → Entry → Consumer → Option Consumer
unfolding read_entry respond
process_stream_entry w pid link id entry c = elim (read_entry entry) [
  | none ↦ some (acknowledge link id c)
  | some command ↦ elim (handle_message w pid command c.engine) [
    | none ↦ none
    | some (body, engine) ↦ some (
        acknowledge link id
          (respond link entry (request_of entry) body (record c { engine = engine })))
  ]
]

-- The entries in order, with the i-th world and link for the i-th.
unfoldable pub process_entries :
    (ℕ → World) → ℕ → (ℕ → Link) → ℕ → List (String × Entry) → Consumer → Option Consumer
process_entries ws pid links i [] c = some c
process_entries ws pid links i ((id, entry) ∷ entries) c =
    elim (process_stream_entry (ws i) pid (links i) id entry c) [
      | none ↦ none
      | some c' ↦ process_entries ws pid links (suc i) entries c'
    ]

-- What one blocking read of the group gives: entries, or an error after which it is tried again, or
-- the end of the consumer's context.
pub data Read : Type 0 where
  delivered : List (String × Entry) → Read
  failed stopped : Read

unfoldable pub consume_reads :
    (ℕ → World) → ℕ → (ℕ → Link) → ℕ → List Read → Consumer → Option Consumer
unfolding process_entries
consume_reads ws pid links i [] c = some c
consume_reads ws pid links i (stopped ∷ reads) c = some c
consume_reads ws pid links i (failed ∷ reads) c = consume_reads ws pid links i reads c
consume_reads ws pid links i (delivered entries ∷ reads) c =
    elim (process_entries ws pid links i entries c) [
      | none ↦ none
      | some c' ↦ consume_reads ws pid links (i + length entries) reads c'
    ]

-- Entries that a crashed engine left pending come first. Without its group the consumer ends at once.
unfoldable pub consume_messages :
    (ℕ → World)
    → ℕ
    → (ℕ → Link)
    → Bool
    → List (String × Entry)
    → List Read
    → Consumer
    → Option Consumer
unfolding consume_reads
consume_messages ws pid links group_ok claimed reads c =
    if group_ok then consume_reads ws pid links 0 (delivered claimed ∷ reads) c else some c
