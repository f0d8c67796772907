-- ===== src/Websocket/Examples.antt =====
-- A hub with two clients: client 0 is idle, client 1 follows an event and has a full channel.
use predix_go_backend.Base.{
  ℕ, zero, suc, ltb, length, ◌≡◌, refl, ap, String, false, none, some, List, [], ◌∷◌, ◌==◌, nat_eq,
  if◌then◌else◌,
}
use predix_go_backend.Dict.{lookup}
use predix_go_backend.Websocket.Sets.{member}
use predix_go_backend.Websocket.{
  Client, Hub, subscribers, send_buffer_size, broadcast_event, handle_incoming,
}
use predix_go_backend.Websocket.Subscriptions.{Agrees}
use predix_go_backend.Websocket.Messages.{Served, handle_incoming-Agrees}
use predix_go_backend.Base.{pos, true}
use predix_go_backend.Engine.Types.{Order, side_buy, side_sell}
use predix_go_backend.Engine.Matching.{build_trade}
use predix_go_backend.Engine.Emit.{Envelope, EventType, trade_data}
use predix_go_backend.Engine.Examples.{sample_order, sample_source}
use predix_go_backend.Websocket.Subscriber.{
  Outgoing, trade_message, depth_message, on_channel, handle_channel,
}
use predix_go_backend.Websocket.Subscriber.Trades.{AllGiven, trade-AllGiven}
use predix_go_backend.Websocket.Delivery.{broadcast_twice-panics}

abbrev ticks : ℕ → List String
ticks zero = []
ticks (suc n) = "tick" ∷ ticks n

length-ticks : (n : ℕ) → length (ticks n) ≡ n
length-ticks zero = refl
length-ticks (suc n) = ap suc (length-ticks n)

abbrev idle_client : Client
idle_client = record { send = []; closed = false; subscriptions = [] }

abbrev full_client : Client
full_client = record { send = ticks send_buffer_size; closed = false; subscriptions = "rain" ∷ [] }

abbrev quiet : Hub
quiet = record { clients = 0 ∷ 1 ∷ []; subscriptions = []; heap = λ c. idle_client }

abbrev busy : Hub
busy = record {
  clients = 0 ∷ 1 ∷ [];
  subscriptions = ("rain", 1 ∷ []) ∷ [];
  heap = λ c. if c == 1 then full_client else idle_client;
}

quiet-Agrees : Agrees quiet
unfolding subscribers member lookup
quiet-Agrees c event = refl

handle_incoming-Agrees_example :
    Served (handle_incoming 0 (some ("SUBSCRIBE", "rain" ∷ "" ∷ "snow" ∷ [])) quiet)
handle_incoming-Agrees_example =
    handle_incoming-Agrees 0 (some ("SUBSCRIBE", "rain" ∷ "" ∷ "snow" ∷ [])) quiet refl quiet-Agrees

broadcast_twice-panics_example :
    (elim (broadcast_event "rain" "a trade" busy) [
      | none ↦ none
      | some g ↦ broadcast_event "rain" "another" g
    ])
    ≡ none
unfolding subscribers lookup
broadcast_twice-panics_example =
    broadcast_twice-panics 1 "rain" "a trade" "another" busy refl refl
      (ap (λ (n : ℕ). ltb n send_buffer_size) (length-ticks send_buffer_size))

abbrev follower : ℕ → Client
follower c = record { send = []; closed = false; subscriptions = "E" ∷ [] }

-- Clients 0 and 1 follow the event of a trade.
abbrev followed : Hub
followed = record {
  clients = 0 ∷ 1 ∷ 2 ∷ [];
  subscriptions = ("E", 1 ∷ 0 ∷ []) ∷ [];
  heap = follower;
}

abbrev seller : Order
seller = sample_order "s1" "bob" side_sell 6 10

abbrev buyer : Order
buyer = sample_order "b1" "alice" side_buy 7 10

abbrev trade_envelope : Envelope
trade_envelope = record {
  id = "e";
  event_type = EventType.trade_executed;
  partition_id = 0;
  fencing_token = 1;
  sequence = 1;
  created_at = 0;
  payload = trade_data (build_trade sample_source 0 buyer seller (pos 6));
}

abbrev marshal : Outgoing → String
marshal (trade_message t) = t.user_id
marshal (depth_message d) = "depth"

trade-AllGiven_example :
    (h' : Hub) × (handle_channel marshal (some (on_channel trade_envelope)) followed
      ≡ some (true, h'))
    × (h'.subscriptions ≡ followed.subscriptions)
    × AllGiven "alice" (subscribers "E" followed.subscriptions) follower h'.heap
unfolding subscribers lookup member
trade-AllGiven_example =
    trade-AllGiven marshal sample_source 0 buyer seller (pos 6) trade_envelope followed refl refl
      (refl, (refl, tt)) ((refl, refl), ((refl, refl), tt))
