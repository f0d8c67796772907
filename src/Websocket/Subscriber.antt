-- ===== src/Websocket/Subscriber.antt =====
-- internal/websocket/redis.go: the engine's events, as the WebSocket clients get them. json.Marshal of
-- an outgoing message is an argument; a time counts nanoseconds.
pub mod Trades
use predix_go_backend.Base.{
  ℕ, ◌/◌, String, Bool, true, false, Option, none, some, List, [], ◌∷◌, ◌==◌, string_eq,
  if◌then◌else◌, ℤ,
}
use predix_go_backend.Engine.Types.{Trade, side_buy}
use predix_go_backend.Engine.Emit.{Envelope, EventType, EventData, trade_data}
use predix_go_backend.Websocket.{Hub, broadcast_event}

pub record TradeData : Type 0 where
  pub price : ℤ
  pub quantity : ℤ
  pub timestamp : ℕ
  pub event_id : String
  pub user_id : String
  pub outcome : String
  pub side : String

pub record DepthEntry : Type 0 where
  pub price : ℤ
  pub quantity : ℤ
  pub total : ℤ

pub record DepthData : Type 0 where
  pub yes_asks : List DepthEntry
  pub yes_bids : List DepthEntry
  pub no_asks : List DepthEntry
  pub no_bids : List DepthEntry

-- `TradeMessage` and `DepthMessage`, whose type is "trade" and "depth".
pub data Outgoing : Type 0 where
  trade_message : TradeData → Outgoing
  depth_message : DepthData → Outgoing

-- The data of an envelope on the channel: a trade, or a depth with its event, or neither.
pub data ChannelData : Type 0 where
  trade_of : Trade → ChannelData
  depth_of : String → DepthData → ChannelData
  unreadable : ChannelData

pub record ChannelMessage : Type 0 where
  pub event_type : EventType
  pub payload : ChannelData

-- An envelope of the engine on the channel.
abbrev pub carried : EventData → ChannelData
carried (trade_data t) = trade_of t
carried _ = unreadable

abbrev pub on_channel : Envelope → ChannelMessage
on_channel env = record { event_type = env.event_type; payload = carried env.payload }

-- The actor is the taker that initiated the trade.
unfoldable pub trade_message_of : Trade → Outgoing
trade_message_of t = trade_message (record {
  price = t.price;
  quantity = t.quantity;
  timestamp = t.created_at / 1000000;
  event_id = t.event_id;
  user_id = if t.taker_side == side_buy then t.buyer_id else t.seller_id;
  outcome = t.outcome;
  side = t.taker_side;
})

-- Whether the message was handled, and the hub after it; `none` is a panic of the broadcast.
abbrev pub handled : Option Hub → Option (Bool × Hub)
handled none = none
handled (some h) = some (true, h)

unfoldable pub handle_trade : (Outgoing → String) → ChannelData → Hub → Option (Bool × Hub)
unfolding trade_message_of
handle_trade marshal (trade_of t) h =
    handled (broadcast_event t.event_id (marshal (trade_message_of t)) h)
handle_trade marshal _ h = some (false, h)

unfoldable pub handle_depth : (Outgoing → String) → ChannelData → Hub → Option (Bool × Hub)
handle_depth marshal (depth_of event d) h =
    handled (broadcast_event event (marshal (depth_message d)) h)
handle_depth marshal _ h = some (false, h)

-- `handle` on a message of the channel, `none` where it is no JSON of an envelope.
unfoldable pub handle_channel :
    (Outgoing → String) → Option ChannelMessage → Hub → Option (Bool × Hub)
unfolding handle_trade handle_depth
handle_channel marshal none h = some (false, h)
handle_channel marshal (some m) h = elim m.event_type [
  | EventType.trade_executed ↦ handle_trade marshal m.payload h
  | EventType.depth_updated ↦ handle_depth marshal m.payload h
  | _ ↦ some (true, h)
]

-- The loop of `Run` over the messages of the channel, until it closes or the context ends. An error
-- is only logged.
unfoldable pub run_subscriber :
    (Outgoing → String) → List (Option ChannelMessage) → Hub → Option Hub
unfolding handle_channel
run_subscriber marshal [] h = some h
run_subscriber marshal (m ∷ ms) h = elim (handle_channel marshal m h) [
  | none ↦ none
  | some (ok, h') ↦ run_subscriber marshal ms h'
]
