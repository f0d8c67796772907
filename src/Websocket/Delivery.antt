-- ===== src/Websocket/Delivery.antt =====
-- Who a broadcast reaches, and what it does to a client that does not keep up.
use predix_go_backend.Base.{
  ℕ, ◌≡◌, refl, ◌∙◌, String, true, false, none, some, List, [], ◌∷◌, ◌==◌, string_eq, nat_eq,
  Bool-cases, inl, inr, length, ltb, beq_refl,
}
use predix_go_backend.Dict.{Dict, lookup}
use predix_go_backend.Websocket.Sets.{member, remove, member-remove}
use predix_go_backend.Websocket.{
  Client, Hub, modify, subscribers, drop_client, unregister, send_to, send_all, broadcast_event,
  send_buffer_size,
}

member-remove_same : (c : ℕ) (cs : List ℕ) → member c (remove c cs) ≡ false
member-remove_same c cs = member-remove c c cs ∙ rw (beq_refl c) refl

subscribers-drop_client :
    (c : ℕ) (event : String) (d : Dict (List ℕ))
    → member c (subscribers event (drop_client c d)) ≡ false
unfolding subscribers drop_client lookup member
subscribers-drop_client c event [] = refl
subscribers-drop_client c event ((k, cs) ∷ d) = elim (Bool-cases (length (remove c cs) == 0)) [
  | inl nobody ↦ rw nobody (subscribers-drop_client c event d)
  | inr somebody ↦ elim (Bool-cases (k == event)) [
    | inl hit ↦ rw (somebody, subscribers, hit) (member-remove_same c cs)
    | inr miss ↦ rw (somebody, subscribers, miss) (subscribers-drop_client c event d)
  ]
]

-- A client that is unregistered is neither among the clients nor among any event's subscribers.
pub unregister_leaves :
    (c : ℕ) (h : Hub)
    → (member c (unregister c h).clients ≡ false)
      × ((event : String) → member c (subscribers event (unregister c h).subscriptions) ≡ false)
unfolding unregister
unregister_leaves c h =
    (member-remove_same c h.clients, λ event. subscribers-drop_client c event h.subscriptions)

full_client-closes :
    (message : String) (c : Client)
    → c.closed ≡ false
    → ltb (length c.send) send_buffer_size ≡ false
    → send_to message c ≡ some (record c { closed = true })
unfolding send_to
full_client-closes message c fresh full = rw (fresh, full) refl

broadcast_one-full :
    (c : ℕ) (event message : String) (h : Hub)
    → subscribers event h.subscriptions ≡ c ∷ []
    → (h.heap c).closed ≡ false
    → ltb (length (h.heap c).send) send_buffer_size ≡ false
    → broadcast_event event message h
      ≡ some (record h { heap = modify c (λ old. record (h.heap c) { closed = true }) h.heap })
unfolding broadcast_event send_all
broadcast_one-full c event message h one fresh full =
    rw (broadcast_event, one, full_client-closes message (h.heap c) fresh full) refl

broadcast_one-closed :
    (c : ℕ) (event message : String) (h : Hub)
    → subscribers event h.subscriptions ≡ c ∷ []
    → (h.heap c).closed ≡ true
    → broadcast_event event message h ≡ none
unfolding broadcast_event send_all send_to
broadcast_one-closed c event message h one shut = rw (broadcast_event, one, shut) refl

pub broadcast_twice-panics :
    (c : ℕ) (event first second : String) (h : Hub)
    → subscribers event h.subscriptions ≡ c ∷ []
    → (h.heap c).closed ≡ false
    → ltb (length (h.heap c).send) send_buffer_size ≡ false
    → (elim (broadcast_event event first h) [
      | none ↦ none
      | some g ↦ broadcast_event event second g
    ])
      ≡ none
broadcast_twice-panics c event first second h one fresh full =
    rw (broadcast_one-full c event first h one fresh full)
      (broadcast_one-closed c event second _ one (rw (beq_refl c) refl))
