-- ===== src/Websocket.antt =====
-- internal/websocket: the hub and its clients. A client is an address, as clients are shared by
-- pointer; a message is a text. Each operation is under the hub's mutex or on one client; the
-- goroutine that drains a client's channel is left out, so a channel only fills.
pub mod Sets
pub mod Subscriptions
pub mod Messages
pub mod Delivery
pub mod Subscriber
pub mod Examples
use predix_go_backend.Base.{
  ℕ, String, Bool, true, false, Option, none, some, List, [], ◌∷◌, ◌++◌, ◌==◌, if◌then◌else◌,
  string_eq, nat_eq, length, ltb,
}
use Prim.Native.String.{◌++◌ as ◌<>◌}
use predix_go_backend.Dict.{Dict, lookup, insert, erase}
use predix_go_backend.Websocket.Sets.{member, add, remove}

abbrev pub send_buffer_size : ℕ
send_buffer_size = 256

-- The channel's messages, oldest first, whether it is closed, and the events subscribed to.
pub record Client : Type 0 where
  pub send : List String
  pub closed : Bool
  pub subscriptions : List String

pub record Hub : Type 0 where
  pub clients : List ℕ
  pub subscriptions : Dict (List ℕ)
  pub heap : ℕ → Client

abbrev pub modify : ℕ → (Client → Client) → (ℕ → Client) → ℕ → Client
modify c f h d = if d == c then f (h d) else h d

unfoldable pub register : ℕ → Hub → Hub
register c h = record h { clients = add c h.clients }

-- The subscribers of an event.
unfoldable pub subscribers : String → Dict (List ℕ) → List ℕ
subscribers event d = elim (lookup event d) [ none ↦ [] | some cs ↦ cs ]

-- A client leaves every event, and an event that nobody is left for goes.
unfoldable pub drop_client : ℕ → Dict (List ℕ) → Dict (List ℕ)
drop_client c [] = []
drop_client c ((event, cs) ∷ d) =
    let rest = drop_client c d in
    if length (remove c cs) == 0 then rest else (event, remove c cs) ∷ rest

unfoldable pub unregister : ℕ → Hub → Hub
unfolding drop_client
unregister c h = record h {
  clients = remove c h.clients;
  subscriptions = drop_client c h.subscriptions;
}

unfoldable pub client_subscribe : String → Client → Client
client_subscribe event c =
    if event == "" then c else record c { subscriptions = add event c.subscriptions }

unfoldable pub client_unsubscribe : String → Client → Client
client_unsubscribe event c = record c { subscriptions = remove event c.subscriptions }

unfoldable pub subscribe : ℕ → String → Hub → Hub
unfolding subscribers client_subscribe
subscribe c event h = record h {
  subscriptions = insert event (add c (subscribers event h.subscriptions)) h.subscriptions;
  heap = modify c (client_subscribe event) h.heap;
}

unfoldable pub unsubscribe : ℕ → String → Hub → Hub
unfolding client_unsubscribe
unsubscribe c event h = elim (lookup event h.subscriptions) [
  | none ↦ h
  | some cs ↦ record h {
    subscriptions =
        if length (remove c cs) == 0
        then erase event h.subscriptions
        else insert event (remove c cs) h.subscriptions;
    heap = modify c (client_unsubscribe event) h.heap;
  }
]

-- `none` is the panic of a send on a closed channel. A client whose channel is full is closed.
unfoldable pub send_to : String → Client → Option Client
send_to message c =
    if c.closed
    then none
    else if ltb (length c.send) send_buffer_size
    then some (record c { send = c.send ++ message ∷ [] })
    else some (record c { closed = true })

unfoldable pub send_all : String → List ℕ → (ℕ → Client) → Option (ℕ → Client)
unfolding send_to
send_all message [] heap = some heap
send_all message (c ∷ cs) heap = elim (send_to message (heap c)) [
  | none ↦ none
  | some x ↦ send_all message cs (modify c (λ old. x) heap)
]

unfoldable pub broadcast_event : String → String → Hub → Option Hub
unfolding send_all subscribers
broadcast_event event message h =
    elim (send_all message (subscribers event h.subscriptions) h.heap) [
      | none ↦ none
      | some heap ↦ some (record h { heap = heap })
    ]

-- A message of a client: its method and params, or `none` where it is not JSON of that form.
abbrev pub Incoming : Type 0
Incoming = Option (String × List String)

unfoldable pub handle_subscribe : ℕ → List String → Hub → Hub
unfolding subscribe
handle_subscribe c [] h = h
handle_subscribe c (event ∷ params) h =
    handle_subscribe c params (if event == "" then h else subscribe c event h)

unfoldable pub handle_unsubscribe : ℕ → List String → Hub → Hub
unfolding unsubscribe
handle_unsubscribe c [] h = h
handle_unsubscribe c (event ∷ params) h =
    handle_unsubscribe c params (if event == "" then h else unsubscribe c event h)

-- json.Marshal gives the keys in order.
abbrev pub error_payload : String → String
error_payload text = "{\"data\":{\"error\":\"" <> text <> "\"},\"type\":\"error\"}"

unfoldable pub send_error : ℕ → String → Hub → Option Hub
unfolding send_to
send_error c text h = elim (send_to (error_payload text) (h.heap c)) [
  | none ↦ none
  | some x ↦ some (record h { heap = modify c (λ old. x) h.heap })
]

unfoldable pub handle_incoming : ℕ → Incoming → Hub → Option Hub
unfolding handle_subscribe handle_unsubscribe send_error
handle_incoming c none h = send_error c "invalid message" h
handle_incoming c (some (method, params)) h =
    if method == "SUBSCRIBE"
    then if length params == 0
      then send_error c "subscription is required" h
      else some (handle_subscribe c params h)
    else if method == "UNSUBSCRIBE"
    then if length params == 0
      then send_error c "subscription is required" h
      else some (handle_unsubscribe c params h)
    else send_error c "unknown method" h
