-- ===== src/Rpc.antt =====
-- pkg/redis/manager.go: the client of the engine. A command is appended to the stream of its event's
-- partition, and its reply is awaited on a channel of its own. Redis, uuid.NewString, the clock and
-- generateClientID are arguments. A payload is what the engine's handlers read from its JSON.
pub mod Append
pub mod Requests
pub mod Fanout
pub mod Examples
use predix_go_backend.Base.{
  ℕ, zero, suc, ◌+◌, ◌%◌, ◌^◌, String, Bool, true, false, not, ◌&&◌, Option, none, some, List, [],
  ◌∷◌, ◌++◌, ◌==◌, if◌then◌else◌, string_eq, nat_eq, bytes, pos_part,
}
use predix_go_backend.Partition.Router.{Router, partition}
use predix_go_backend.Engine.Commands.{Response, CreateRequest, CancelRequest}

-- What json.Unmarshal gives for the fields of each handler, `none` where it fails.
pub record Payload : Type 0 where
  pub create_fields : Option CreateRequest
  pub cancel_fields : Option CancelRequest
  pub event_field : Option String
  pub event_user_fields : Option (String × String)
  pub user_field : Option String

pub record MessageToEngine : Type 0 where
  pub kind : String
  pub payload : Payload

pub record CommandEnvelope : Type 0 where
  pub command_id : String
  pub kind : String
  pub event_id : String
  pub request_id : String
  pub sequence : ℕ
  pub timestamp : ℕ
  pub payload : Payload

-- `Success`, `Error` and `Data` are the body.
pub record EngineResponse : Type 0 where
  pub request_id : String
  pub body : Response

-- The `command` of an entry: missing or empty, or no JSON of an envelope, or an envelope.
pub data RawCommand : Type 0 where
  absent garbled : RawCommand
  written : CommandEnvelope → RawCommand

pub record Entry : Type 0 where
  pub client_id : String
  pub command : RawCommand

-- The key of a partition, or the one from before there were partitions. The names are formatted
-- with the partition's number, and differ for different partitions.
pub data Key : Type 0 where
  legacy : Key
  of_partition : ℕ → Key

abbrev pub same_key : Key → Key → Bool
same_key legacy legacy = true
same_key (of_partition p) (of_partition q) = p == q
same_key _ _ = false

-- The counters and the streams, oldest entry first.
pub record Store : Type 0 where
  pub counter : Key → ℕ
  pub stream : Key → List Entry

-- streamFor, groupFor and seqKeyFor: the key is of the partition exactly if there is a router.
unfoldable pub key_for : Option Router → ℕ → Key
key_for none p = legacy
key_for (some r) p = of_partition p

unfoldable pub partition_for : Option Router → String → ℕ
partition_for none event = 0
partition_for (some r) event = if event == "" then 0 else partition r (bytes event)

-- A counter was incremented and said so; or it was, and the reply was lost; or it was not.
pub data Count : Type 0 where
  counted uncertain uncounted : Count

abbrev pub increment : Key → Store → Store
increment k s = record s {
  counter = λ j. if same_key j k then (s.counter k + 1) % 2 ^ 64 else s.counter j;
}

-- What one command finds outside: the outcome of its count, its id and time.
pub record Stamp : Type 0 where
  pub count : Count
  pub request_id : String
  pub now : ℕ

unfoldable pub create_envelope :
    Option Router → Stamp → String → String → Payload → ℕ → Store → CommandEnvelope × Store
unfolding key_for
create_envelope router stamp kind event payload p s =
    let key = key_for router p in
    let counted_store = increment key s in
    let envelope : ℕ → CommandEnvelope = λ n. record {
      command_id = stamp.request_id;
      kind = kind;
      event_id = event;
      request_id = stamp.request_id;
      sequence = n;
      timestamp = stamp.now;
      payload = payload;
    } in
    elim stamp.count [
      | counted ↦ (envelope (counted_store.counter key), counted_store)
      | uncertain ↦ (envelope 0, counted_store)
      | uncounted ↦ (envelope 0, s)
    ]

-- An XADD was stored and said so; or it was, and the reply was lost; or it was not.
pub data Added : Type 0 where
  stored lost_reply refused : Added

abbrev pub append_entry : Key → Entry → Store → Store
append_entry k e s = record s {
  stream = λ j. if same_key j k then s.stream k ++ e ∷ [] else s.stream j;
}

abbrev pub max_append_retries : ℕ
max_append_retries = 3

-- The loop of appendCommand, with so many attempts left. Its context is never done: the one caller
-- passes context.Background().
unfoldable pub append_from : (ℕ → Added) → ℕ → ℕ → Key → Entry → Store → Bool × Store
append_from added attempt zero k e s = (false, s)
append_from added attempt (suc left) k e s = elim (added attempt) [
  | stored ↦ (true, append_entry k e s)
  | lost_reply ↦ append_from added (suc attempt) left k e (append_entry k e s)
  | refused ↦ append_from added (suc attempt) left k e s
]

unfoldable pub append_command :
    Option Router → (ℕ → Added) → String → CommandEnvelope → ℕ → Store → Bool × Store
unfolding append_from key_for
append_command router added client env p s =
    append_from added 0 max_append_retries (key_for router p)
      (record { client_id = client; command = written env }) s

-- What the wait for a reply sees: the channel closes, a message is no response or is one, the caller
-- gives up. A list of these ends when the timer fires.
pub data Heard : Type 0 where
  closed unreadable canceled : Heard
  reply : EngineResponse → Heard

pub data Awaited : Type 0 where
  answered : EngineResponse → Awaited
  unanswered : String → Awaited

unfoldable pub await_response : String → List Heard → Awaited
await_response request [] = unanswered "timeout waiting for engine response"
await_response request (closed ∷ hs) = unanswered "response channel closed"
await_response request (unreadable ∷ hs) = unanswered "unreadable response"
await_response request (canceled ∷ hs) = unanswered "context canceled"
await_response request (reply r ∷ hs) = elim (r.request_id == request) [
  | true ↦ answered r
  | false ↦ await_response request hs
]

-- What one request meets: whether its subscription is confirmed, its channel, the attempts to append
-- it, and what its channel then hears.
pub record Exchange : Type 0 where
  pub subscribed : Bool
  pub client_id : String
  pub stamp : Stamp
  pub added : ℕ → Added
  pub heard : List Heard

unfoldable pub send_and_await :
    Option Router → Exchange → String → MessageToEngine → Store → Awaited × Store
unfolding partition_for create_envelope append_command await_response
send_and_await router x event msg s =
    let p = partition_for router event in
    let (env, s₁) = create_envelope router x.stamp msg.kind event msg.payload p s in
    let (appended, s₂) = append_command router x.added x.client_id env p s₁ in
    if not x.subscribed
    then (unanswered "subscription failed", s)
    else if appended
    then (await_response env.request_id x.heard, s₂)
    else (unanswered "append failed", s₂)

-- One XADD without a retry and without a reply.
abbrev pub add_once : Added → Key → Entry → Store → Bool × Store
add_once stored k e s = (true, append_entry k e s)
add_once lost_reply k e s = (false, append_entry k e s)
add_once refused k e s = (false, s)

unfoldable pub send_command :
    Option Router → Stamp → Added → String → String → Payload → Store → Bool × Store
unfolding partition_for create_envelope key_for
send_command router stamp added event kind payload s =
    let p = partition_for router event in
    let (env, s₁) = create_envelope router stamp kind event payload p s in
    add_once added (key_for router p) (record { client_id = ""; command = written env }) s₁

-- The loop of SendCommandFanout from a partition on, over so many that are left.
unfoldable pub fanout_from :
    Router → (ℕ → Stamp) → (ℕ → Added) → String → Payload → ℕ → ℕ → Store → Bool × Store
unfolding create_envelope
fanout_from r stamps added kind payload p zero s = (true, s)
fanout_from r stamps added kind payload p (suc left) s =
    let (env, s₁) = create_envelope (some r) (stamps p) kind "" payload p s in
    let (ok, s₂) =
      add_once (added p) (of_partition p) (record { client_id = ""; command = written env }) s₁ in
    let later = fanout_from r stamps added kind payload (suc p) left s₂ in
    if ok then later else (false, s₂)

unfoldable pub send_command_fanout :
    Option Router → (ℕ → Stamp) → (ℕ → Added) → String → Payload → Store → Bool × Store
unfolding send_command fanout_from
send_command_fanout none stamps added kind payload s =
    send_command none (stamps 0) (added 0) "" kind payload s
send_command_fanout (some r) stamps added kind payload s =
    fanout_from r stamps added kind payload 0 (pos_part r.partitions) s
