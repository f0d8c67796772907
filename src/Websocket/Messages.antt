-- ===== src/Websocket/Messages.antt =====
-- The messages of a client, subscriptions and errors, and the hub's and the clients' records.
use predix_go_backend.Base.{
  ℕ, ◌≡◌, refl, sym, ap, ◌∙◌, String, true, false, Option, none, some, List, [], ◌∷◌, ◌++◌, ◌==◌,
  string_eq, nat_eq, Bool-cases, inl, inr, length, ltb,
}
use predix_go_backend.Websocket.Sets.{member}
use predix_go_backend.Websocket.Subscriptions.{Agrees, subscribe-Agrees, unsubscribe-Agrees}
use predix_go_backend.Websocket.{
  Client, Hub, modify, subscribe, unsubscribe, Incoming, handle_subscribe, handle_unsubscribe,
  error_payload, send_error, send_to, handle_incoming, send_buffer_size,
}

handle_subscribe-Agrees :
    (c : ℕ) (params : List String) (h : Hub) → Agrees h → Agrees (handle_subscribe c params h)
unfolding handle_subscribe
handle_subscribe-Agrees c [] h v = v
handle_subscribe-Agrees c (event ∷ params) h v = elim (Bool-cases (event == "")) [
  | inl unnamed ↦ rw (handle_subscribe, unnamed) (handle_subscribe-Agrees c params h v)
  | inr named ↦
      rw (handle_subscribe, named)
        (handle_subscribe-Agrees c params (subscribe c event h)
          (subscribe-Agrees c event h named v))
]

handle_unsubscribe-Agrees :
    (c : ℕ) (params : List String) (h : Hub) → Agrees h → Agrees (handle_unsubscribe c params h)
unfolding handle_unsubscribe
handle_unsubscribe-Agrees c [] h v = v
handle_unsubscribe-Agrees c (event ∷ params) h v = elim (Bool-cases (event == "")) [
  | inl unnamed ↦ rw (handle_unsubscribe, unnamed) (handle_unsubscribe-Agrees c params h v)
  | inr named ↦
      rw (handle_unsubscribe, named)
        (handle_unsubscribe-Agrees c params (unsubscribe c event h)
          (unsubscribe-Agrees c event h v))
]

-- An operation that returns a hub whose two records agree.
abbrev pub Served : Option Hub → Type 0
Served r = (g : Hub) × (r ≡ some g) × Agrees g

send_to-subscriptions :
    (text : String) (x : Client)
    → x.closed ≡ false
    → (y : Client) × (send_to text x ≡ some y) × (y.subscriptions ≡ x.subscriptions)
unfolding send_to
send_to-subscriptions text x fresh = elim (Bool-cases (ltb (length x.send) send_buffer_size)) [
  | inl room ↦ (record x { send = x.send ++ text ∷ [] }, rw (fresh, room) refl, refl)
  | inr full ↦ (record x { closed = true }, rw (fresh, full) refl, refl)
]

send_error-Agrees :
    (c : ℕ) (text : String) (h : Hub)
    → (h.heap c).closed ≡ false
    → Agrees h
    → Served (send_error c text h)
unfolding send_error
send_error-Agrees c text h fresh v =
    let (y, sent, kept) = send_to-subscriptions (error_payload text) (h.heap c) fresh in
    (
      record h { heap = modify c (λ old. y) h.heap },
      rw (send_error, sent) refl,
      λ d k. elim (Bool-cases (d == c)) [
        | inl me ↦ rw me (
            v d k
            ∙ ap (λ (i : ℕ). member k (h.heap i).subscriptions) ((nat_eq.beq_iff d c).0 me)
            ∙ ap (λ (l : List String). member k l) (sym kept))
        | inr you ↦ rw you (v d k)
      ],
    )

-- Whatever an open client sends, a message that is no JSON or has an unknown method or no params
-- included, is served without a panic, and the two records still agree.
pub handle_incoming-Agrees :
    (c : ℕ) (message : Incoming) (h : Hub)
    → (h.heap c).closed ≡ false
    → Agrees h
    → Served (handle_incoming c message h)
unfolding handle_incoming
handle_incoming-Agrees c none h fresh v = send_error-Agrees c "invalid message" h fresh v
handle_incoming-Agrees c (some (method, params)) h fresh v =
    elim (Bool-cases (method == "SUBSCRIBE")) [
      | inl subscribes ↦ elim (Bool-cases (length params == 0)) [
        | inl nothing ↦
            rw (subscribes, nothing) (send_error-Agrees c "subscription is required" h fresh v)
        | inr events ↦ rw (subscribes, events) (_, refl, handle_subscribe-Agrees c params h v)
      ]
      | inr other ↦ elim (Bool-cases (method == "UNSUBSCRIBE")) [
        | inl unsubscribes ↦ elim (Bool-cases (length params == 0)) [
          | inl nothing ↦
              rw (other, unsubscribes, nothing)
                (send_error-Agrees c "subscription is required" h fresh v)
          | inr events ↦
              rw (other, unsubscribes, events) (_, refl, handle_unsubscribe-Agrees c params h v)
        ]
        | inr unknown ↦ rw (other, unknown) (send_error-Agrees c "unknown method" h fresh v)
      ]
    ]
