-- ===== src/Websocket/Subscriber/Trades.antt =====
-- A trade on its way from the engine to the clients that follow its event.
use predix_go_backend.Base.{
  ℕ, ◌≡◌, refl, sym, ap, ◌∙◌, subst, String, true, false, ◌/◌, some, List, [], ◌∷◌, ◌++◌, All, ℤ,
  arith, ◌==◌, string_eq, nat_eq, if◌then◌else◌, Bool-cases, inl, inr, length, ltb,
}
use predix_go_backend.Engine.Types.{Order, Trade, side_buy}
use predix_go_backend.Engine.Matching.{Source, build_trade}
use predix_go_backend.Engine.Emit.{Envelope, EventType, trade_data}
use predix_go_backend.Websocket.{
  Client, Hub, modify, subscribers, send_to, send_all, broadcast_event, send_buffer_size,
}
use predix_go_backend.Websocket.Sets.{member}
use predix_go_backend.Websocket.Subscriber.{
  Outgoing, trade_message, TradeData, on_channel, trade_message_of, handle_trade, handle_channel,
  handled,
}

-- The client is open and its channel has room.
abbrev pub CanTake : Client → Type 0
CanTake c = (c.closed ≡ false) × (ltb (length c.send) send_buffer_size ≡ true)

abbrev pub Distinct : List ℕ → Type 0
Distinct [] = Unit
Distinct (c ∷ cs) = (member c cs ≡ false) × Distinct cs

abbrev pub given : String → Client → Client
given message c = record c { send = c.send ++ message ∷ [] }

send_to-given :
    (message : String) (c : Client) → CanTake c → send_to message c ≡ some (given message c)
unfolding send_to
send_to-given message c (fresh, room) = rw (fresh, room) refl

modify-other :
    (c d : ℕ) (x : Client) (heap : ℕ → Client)
    → (d == c) ≡ false
    → modify c (λ old. x) heap d ≡ heap d
modify-other c d x heap other = rw other refl

modify-same :
    (c d : ℕ) (x : Client) (heap : ℕ → Client) → (d == c) ≡ true → modify c (λ old. x) heap d ≡ x
modify-same c d x heap same = rw same refl

CanTake-modify :
    (c : ℕ) (x : Client) (heap : ℕ → Client) (cs : List ℕ)
    → member c cs ≡ false
    → All (λ (d : ℕ). CanTake (heap d)) cs
    → All (λ (d : ℕ). CanTake (modify c (λ old. x) heap d)) cs
unfolding member
CanTake-modify c x heap [] new all = tt
CanTake-modify c x heap (d ∷ cs) new (first, rest) =
    let other : (d == c) ≡ false = ground arith in
    let later : member c cs ≡ false = ground arith in
    (
      subst CanTake (sym (modify-other c d x heap other)) first,
      CanTake-modify c x heap cs later rest,
    )

-- Each of the clients has got the message once, and no other client has changed.
abbrev pub AllGiven : String → List ℕ → (ℕ → Client) → (ℕ → Client) → Type 0
AllGiven message cs heap heap' =
    (d : ℕ) → heap' d ≡ (if member d cs then given message (heap d) else heap d)

send_all-next :
    (message : String) (c : ℕ) (cs : List ℕ) (heap : ℕ → Client)
    → CanTake (heap c)
    → send_all message (c ∷ cs) heap
      ≡ send_all message cs (modify c (λ old. given message (heap c)) heap)
unfolding send_all
send_all-next message c cs heap can = rw (send_all, send_to-given message (heap c) can) refl

AllGiven-next :
    (message : String) (c : ℕ) (cs : List ℕ) (heap heap' : ℕ → Client)
    → member c cs ≡ false
    → AllGiven message cs (modify c (λ old. given message (heap c)) heap) heap'
    → AllGiven message (c ∷ cs) heap heap'
unfolding member
AllGiven-next message c cs heap heap' new g d = elim (Bool-cases (d == c)) [
  | inl same ↦
      let e : d ≡ c = (nat_eq.beq_iff d c).0 same in
      let back : (c == d) ≡ true = (nat_eq.beq_iff c d).1 (sym e) in
      let gone : member d cs ≡ false = ap (λ (k : ℕ). member k cs) e ∙ new in
      g d ∙ rw (gone, same, member, back) (ap (λ (k : ℕ). given message (heap k)) (sym e))
  | inr other ↦
      let back : (c == d) ≡ false = ground (arith, nat_eq.beq_iff c d, nat_eq.beq_iff d c) in
      g d ∙ rw (other, member, back) refl
]

send_all-AllGiven :
    (message : String) (cs : List ℕ) (heap : ℕ → Client)
    → Distinct cs
    → All (λ (d : ℕ). CanTake (heap d)) cs
    → (heap' : ℕ → Client) × (send_all message cs heap ≡ some heap')
      × AllGiven message cs heap heap'
unfolding send_all member
send_all-AllGiven message [] heap distinct all = (heap, refl, λ d. refl)
send_all-AllGiven message (c ∷ cs) heap (new, distinct) (first, rest) =
    let x = given message (heap c) in
    let (heap', sent, g) =
      send_all-AllGiven message cs (modify c (λ old. x) heap) distinct
        (CanTake-modify c x heap cs new rest) in
    (
      heap',
      send_all-next message c cs heap first ∙ sent,
      AllGiven-next message c cs heap heap' new g,
    )

-- What the clients are told of a trade: its price and quantity, and the taker as its actor.
abbrev pub told : Source → ℕ → Order → Order → ℤ → TradeData
told src k taker maker q = record {
  price = maker.price;
  quantity = q;
  timestamp = src.traded_at k / 1000000;
  event_id = taker.event_id;
  user_id = taker.user_id;
  outcome = taker.outcome;
  side = taker.side;
}

trade_message_of-build_trade :
    (src : Source) (k : ℕ) (taker maker : Order) (q : ℤ)
    → trade_message_of (build_trade src k taker maker q) ≡ trade_message (told src k taker maker q)
unfolding trade_message_of build_trade
trade_message_of-build_trade src k taker maker q = elim (Bool-cases (taker.side == side_buy)) [
  | inl buys ↦ rw (trade_message_of, build_trade, buys) refl
  | inr sells ↦ rw (trade_message_of, build_trade, sells) refl
]

event_id-build_trade :
    (src : Source) (k : ℕ) (taker maker : Order) (q : ℤ)
    → (build_trade src k taker maker q).event_id ≡ taker.event_id
unfolding build_trade
event_id-build_trade src k taker maker q = refl

broadcast_event-sent :
    (event message : String) (h : Hub) (heap : ℕ → Client)
    → send_all message (subscribers event h.subscriptions) h.heap ≡ some heap
    → broadcast_event event message h ≡ some (record h { heap = heap })
unfolding broadcast_event
broadcast_event-sent event message h heap e = rw (broadcast_event, e) refl

handle_channel-trade :
    (marshal : Outgoing → String) (env : Envelope) (t : Trade) (h : Hub)
    → env.event_type ≡ EventType.trade_executed
    → env.payload ≡ trade_data t
    → handle_channel marshal (some (on_channel env)) h
      ≡ handled (broadcast_event t.event_id (marshal (trade_message_of t)) h)
unfolding handle_channel handle_trade
handle_channel-trade marshal env t h kind data_eq =
    rw (handle_channel, kind, data_eq, handle_trade) refl

-- A trade that the engine has made, once its envelope is on the channel, reaches every client that
-- follows its event exactly once, with the taker as its actor, and no other client; the subscribers
-- are distinct, open and have room.
pub trade-AllGiven :
    (marshal : Outgoing → String) (src : Source) (k : ℕ) (taker maker : Order) (q : ℤ)
    (env : Envelope) (h : Hub)
    → env.event_type ≡ EventType.trade_executed
    → env.payload ≡ trade_data (build_trade src k taker maker q)
    → Distinct (subscribers taker.event_id h.subscriptions)
    → All (λ (d : ℕ). CanTake (h.heap d)) (subscribers taker.event_id h.subscriptions)
    → (h' : Hub) × (handle_channel marshal (some (on_channel env)) h ≡ some (true, h'))
      × (h'.subscriptions ≡ h.subscriptions)
      × AllGiven
          (marshal (trade_message (told src k taker maker q)))
          (subscribers taker.event_id h.subscriptions)
          h.heap
          h'.heap
trade-AllGiven marshal src k taker maker q env h kind carries distinct all =
    let message : String = marshal (trade_message (told src k taker maker q)) in
    let (heap, sent, given_all) =
      send_all-AllGiven message (subscribers taker.event_id h.subscriptions) h.heap distinct all in
    let t : Trade = build_trade src k taker maker q in
    (
      record h { heap = heap },
      handle_channel-trade marshal env t h kind carries
          ∙ ap
              (λ (event : String). handled (broadcast_event event (marshal (trade_message_of t)) h))
              (event_id-build_trade src k taker maker q)
          ∙ ap (λ (m : Outgoing). handled (broadcast_event taker.event_id (marshal m) h))
              (trade_message_of-build_trade src k taker maker q)
          ∙ ap handled (broadcast_event-sent taker.event_id message h heap sent),
      refl,
      given_all,
    )
