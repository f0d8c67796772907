-- ===== src/Engine/Emit.antt =====
-- Event emission: `emitEventP` of internal/engine/engine.go, the envelope of internal/events and
-- the outbox of internal/engine/outbox.go. What Redis, the disk, uuid.NewString and the clock do to
-- one emission is an argument, a `Delivery`. Go's JSON encoding of these structures cannot fail.
pub mod Outbox
use predix_go_backend.Base.{
  ℕ, suc, ◌+◌, ◌%◌, ◌^◌, String, Bool, true, false, not, ◌&&◌, List, [], ◌∷◌, ◌++◌, ◌==◌, nat_eq,
  if◌then◌else◌,
}
use predix_go_backend.Engine.Types.{Order, Trade}

pub data EventType : Type 0 where
  trade_executed order_created order_status order_canceled depth_updated : EventType

pub data EventData : Type 0 where
  trade_data : Trade → EventData
  order_data : Order → EventData
  cancel_data : String → EventData

pub record Envelope : Type 0 where
  pub id : String
  pub event_type : EventType
  pub partition_id : ℕ
  pub fencing_token : ℕ
  pub sequence : ℕ
  pub created_at : ℕ
  pub payload : EventData

-- Which of the steps outside the engine succeed during one emission.
pub record Delivery : Type 0 where
  pub envelope_id : String
  pub stamped_at : ℕ
  pub append_ok : Bool
  pub xadd_ok : Bool
  pub publish_ok : Bool
  pub reset_ok : Bool

-- The state that emission reads and writes: which partitions replay, their fencing tokens and
-- event counters, the outbox file, the durable event stream and the fan-out channel, oldest first.
pub record Bus : Type 0 where
  pub replaying : ℕ → Bool
  pub partition_token : ℕ → ℕ
  pub partition_seq : ℕ → ℕ
  pub journal : List Envelope
  pub stream : List Envelope
  pub channel : List Envelope

unfoldable pub new_envelope : Delivery → Bus → ℕ → EventType → EventData → Envelope
new_envelope d bus pid kind payload = record {
  id = d.envelope_id;
  event_type = kind;
  partition_id = pid;
  fencing_token = bus.partition_token pid;
  sequence = (bus.partition_seq pid + 1) % 2 ^ 64;
  created_at = d.stamped_at;
  payload = payload;
}

-- `partitionSeq[pid].Add(1)` on a uint64.
unfoldable pub bump_seq : ℕ → Bus → Bus
bump_seq pid bus = record bus {
  partition_seq =
      λ q. if q == pid then (bus.partition_seq pid + 1) % 2 ^ 64 else bus.partition_seq q;
}

unfoldable pub append_journal : Envelope → Bus → Bus
append_journal env bus = record bus { journal = bus.journal ++ env ∷ [] }

unfoldable pub xadd : Envelope → Bus → Bus
xadd env bus = record bus { stream = bus.stream ++ env ∷ [] }

unfoldable pub publish : Bool → Envelope → Bus → Bus
publish broadcast env bus =
    if broadcast then record bus { channel = bus.channel ++ env ∷ [] } else bus

-- `Outbox.Reset`, whose error the emission ignores.
unfoldable pub reset_journal : Delivery → Bus → Bus
reset_journal d bus = if d.reset_ok then record bus { journal = [] } else bus

-- Whether the event went out, and the state after it.
unfoldable pub emit_event : Delivery → ℕ → EventType → EventData → Bool → Bus → Bool × Bus
unfolding bump_seq append_journal xadd publish reset_journal new_envelope
emit_event d pid kind payload broadcast bus =
    let env = new_envelope d bus pid kind payload in
    let counted = bump_seq pid bus in
    let journaled = append_journal env counted in
    let streamed = xadd env journaled in
    let published = publish broadcast env streamed in
    if bus.replaying pid
    then (true, bus)
    else if not d.append_ok
    then (false, counted)
    else if not d.xadd_ok
    then (false, journaled)
    else if broadcast && not d.publish_ok
    then (false, streamed)
    else (true, reset_journal d published)

-- `republishEnvelope` on a decoded line: a trade is broadcast again, all else only streamed.
abbrev pub is_trade : EventType → Bool
is_trade EventType.trade_executed = true
is_trade _ = false

unfoldable pub republish : Delivery → Envelope → Bus → Bool × Bus
unfolding xadd publish
republish d env bus =
    let broadcast = is_trade env.event_type in
    let streamed = xadd env bus in
    if not d.xadd_ok
    then (false, bus)
    else if broadcast && not d.publish_ok
    then (false, streamed)
    else (true, publish broadcast env streamed)

-- The loop of `Outbox.Recover` over the lines that were read, with the i-th delivery for the i-th.
unfoldable pub republish_all : (ℕ → Delivery) → ℕ → List Envelope → Bus → Bool × Bus
republish_all d i [] bus = (true, bus)
republish_all d i (env ∷ envs) bus =
    let later = republish_all d (suc i) envs (republish (d i) env bus).1 in
    if (republish (d i) env bus).0 then later else (false, (republish (d i) env bus).1)

-- `Outbox.Recover` on the lines that `ReadAll` gave.
unfoldable pub recover_lines : (ℕ → Delivery) → Delivery → List Envelope → Bus → Bool × Bus
unfolding reset_journal
recover_lines d last [] bus = (true, bus)
recover_lines d last (env ∷ envs) bus =
    let (done, bus') = republish_all d 0 (env ∷ envs) bus in
    if done then (last.reset_ok, reset_journal last bus') else (false, bus')

unfoldable pub recover : (ℕ → Delivery) → Delivery → Bus → Bool × Bus
unfolding recover_lines
recover d last bus = recover_lines d last bus.journal bus
