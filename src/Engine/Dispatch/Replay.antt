-- ===== src/Engine/Dispatch/Replay.antt =====
-- Replay of a partition's command log: it emits nothing, and where every order's announcement went
-- out it rebuilds the state that the live run had.
use predix_go_backend.Base.{
  ℕ, suc, ◌≡◌, refl, sym, ap, ◌∙◌, String, Bool, true, false, not, ◌&&◌, Option, none, some, List,
  [], ◌∷◌, arith, ◌==◌, nat_eq, string_eq, Bool-cases, Option-cases, inl, inr, subst, pos, leb_ℤ,
  beq_refl,
}
use predix_go_backend.Dict.{lookup}
use predix_go_backend.Engine.Types.{Order, Trade, book_of}
use predix_go_backend.Engine.Emit.{
  Bus, Delivery, EventType, EventData, trade_data, order_data, cancel_data, emit_event,
}
use predix_go_backend.Engine.Core.{match_order}
use predix_go_backend.Engine.Commands.{
  Engine, World, Response, CreateRequest, CancelRequest, new_order, validate_order, admit_order,
  place_order, publish_trades, handle_create_order, handle_cancel_order, handle_create_event,
  handle_user_created, not_cancelable, Admission-cases,
}
use predix_go_backend.Engine.Dispatch.{
  Command, handle_message, run_commands, set_replaying, replay_command_log,
}

-- A replaying partition emits nothing and reports success.
emit_event-replaying :
    (d : Delivery) (pid : ℕ) (kind : EventType) (x : EventData) (broadcast : Bool) (bus : Bus)
    → bus.replaying pid ≡ true
    → emit_event d pid kind x broadcast bus ≡ (true, bus)
unfolding emit_event
emit_event-replaying d pid kind x broadcast bus e = rw e refl

publish_trades-replaying :
    (d : ℕ → Delivery) (pid i : ℕ) (ts : List Trade) (bus : Bus)
    → bus.replaying pid ≡ true
    → publish_trades d pid i ts bus ≡ bus
unfolding publish_trades
publish_trades-replaying d pid i [] bus e = refl
publish_trades-replaying d pid i (t ∷ ts) bus e =
    rw (emit_event-replaying (d i) pid EventType.trade_executed (trade_data t) true bus e)
      (publish_trades-replaying d pid (suc i) ts bus e)

-- The bus after an outcome, or the one given where there is none.
abbrev bus_after : Bus → Option (Response × Engine) → Bus
bus_after b none = b
bus_after b (some x) = x.1.bus

place_order-replaying :
    (w : World) (pid p : ℕ) (e : Engine)
    → e.bus.replaying pid ≡ true
    → bus_after e.bus (place_order w pid p e) ≡ e.bus
unfolding place_order
place_order-replaying w pid p e r =
    let silent =
      emit_event-replaying w.delivery pid EventType.order_created (order_data (e.core.heap p)) false
        e.bus r in
    elim (Option-cases (match_order w.source p e.core)) [
      | inl stuck ↦ rw (silent, stuck) refl
      | inr (x, found) ↦
          rw (found, silent) (publish_trades-replaying w.trade_delivery pid 0 x.1 e.bus r)
    ]

handle_create_order-replaying :
    (w : World) (pid : ℕ) (q : Option CreateRequest) (e : Engine)
    → e.bus.replaying pid ≡ true
    → bus_after e.bus (handle_create_order w pid q e) ≡ e.bus
unfolding handle_create_order
handle_create_order-replaying w pid none e r = refl
handle_create_order-replaying w pid (some q) e r =
    let o : Order = new_order w q in
    elim (Bool-cases (leb_ℤ q.quantity (pos 0))) [
      | inl nothing ↦ rw nothing refl
      | inr some_quantity ↦ elim (Option-cases (validate_order o)) [
        | inr (message, bad) ↦ rw (some_quantity, bad) refl
        | inl good ↦ elim (Admission-cases (admit_order o e.core)) [
          | inl (p, a) ↦ rw (some_quantity, good, a) refl
          | inr (inl (message, c, a)) ↦ rw (some_quantity, good, a) refl
          | inr (inr (p, c, a)) ↦
              rw (some_quantity, good, a) (place_order-replaying w pid p (record e { core = c }) r)
        ]
      ]
    ]

handle_cancel_order-replaying :
    (w : World) (pid : ℕ) (q : Option CancelRequest) (e : Engine)
    → e.bus.replaying pid ≡ true
    → bus_after e.bus (handle_cancel_order w pid q e) ≡ e.bus
unfolding handle_cancel_order
handle_cancel_order-replaying w pid none e r = refl
handle_cancel_order-replaying w pid (some q) e r = elim (Bool-cases (q.order_id == "")) [
  | inl no_id ↦ rw no_id refl
  | inr id ↦ elim (Option-cases (lookup q.order_id e.core.orders)) [
    | inl missing ↦ rw (id, missing) refl
    | inr (p, found) ↦
        let o : Order = e.core.heap p in
        elim (Bool-cases (not (q.event_id == "") && not (o.event_id == q.event_id))) [
          | inl other ↦ rw (id, found, other) refl
          | inr own ↦ elim (Bool-cases (not_cancelable o.status)) [
            | inl closed ↦ rw (id, found, own, closed) refl
            | inr live ↦ elim (Option-cases (lookup o.event_id e.core.markets)) [
              | inl no_market ↦ rw (id, found, own, live, no_market) refl
              | inr (m, market) ↦ elim (Option-cases (book_of m o.outcome)) [
                | inl no_book ↦ rw (id, found, own, live, market, no_book) refl
                | inr (book, has) ↦
                    rw (id, found, own, live, market, has)
                      (ap (λ (x : Bool × Bus). x.1)
                        (emit_event-replaying w.delivery pid EventType.order_canceled
                          (cancel_data o.id) false e.bus r))
              ]
            ]
          ]
        ]
  ]
]

handle_create_event-bus : (q : Option String) (e : Engine) → (handle_create_event q e).1.bus ≡ e.bus
unfolding handle_create_event
handle_create_event-bus none e = refl
handle_create_event-bus (some id) e = ground arith

handle_user_created-bus : (q : Option String) (e : Engine) → (handle_user_created q e).1.bus ≡ e.bus
unfolding handle_user_created
handle_user_created-bus none e = refl
handle_user_created-bus (some id) e = ground arith

-- A command of a replaying partition leaves the bus as it is.
handle_message-replaying :
    (w : World) (pid : ℕ) (c : Command) (e : Engine)
    → e.bus.replaying pid ≡ true
    → bus_after e.bus (handle_message w pid c e) ≡ e.bus
unfolding handle_message
handle_message-replaying w pid (Command.create_order q) e r =
    handle_create_order-replaying w pid q e r
handle_message-replaying w pid (Command.cancel_order q) e r =
    handle_cancel_order-replaying w pid q e r
handle_message-replaying w pid (Command.get_depth q) e r = refl
handle_message-replaying w pid (Command.get_open_orders q) e r = refl
handle_message-replaying w pid (Command.create_event q) e r = handle_create_event-bus q e
handle_message-replaying w pid (Command.user_created q) e r = handle_user_created-bus q e
handle_message-replaying w pid Command.unknown e r = refl

run_commands-replaying :
    (ws : ℕ → World) (pid i : ℕ) (cs : List (Option Command)) (e e' : Engine)
    → e.bus.replaying pid ≡ true
    → run_commands ws pid i cs e ≡ some e'
    → e'.bus ≡ e.bus
unfolding run_commands
run_commands-replaying ws pid i [] e e' r h = ground arith
run_commands-replaying ws pid i (none ∷ cs) e e' r h =
    run_commands-replaying ws pid (suc i) cs e e' r h
run_commands-replaying ws pid i (some c ∷ cs) e e' r h =
    elim (Option-cases (handle_message (ws i) pid c e)) [
      | inl stuck ↦ absurd (ground arith)
      | inr (x, done) ↦
          let same : x.1.bus ≡ e.bus =
            subst (λ o. bus_after e.bus o ≡ e.bus) done
              (handle_message-replaying (ws i) pid c e r) in
          run_commands-replaying ws pid (suc i) cs x.1 e'
            (ap (λ (b : Bus). b.replaying pid) same ∙ r) (ground arith)
          ∙ same
    ]

pub replaying-set_replaying :
    (pid : ℕ) (flag : Bool) (e : Engine) → (set_replaying pid flag e).bus.replaying pid ≡ flag
unfolding set_replaying
replaying-set_replaying pid flag e = rw (beq_refl pid)

-- A replay emits nothing: the outbox, the stream, the channel, the counters and the tokens are as
-- they were, and the partition is live again after it.
pub replay_command_log_silent :
    (ws : ℕ → World) (pid : ℕ) (log : List (Option Command)) (e e' : Engine)
    → replay_command_log ws pid log e ≡ some e'
    → (e'.bus.journal ≡ e.bus.journal)
      × (e'.bus.stream ≡ e.bus.stream)
      × (e'.bus.channel ≡ e.bus.channel)
      × (e'.bus.partition_seq ≡ e.bus.partition_seq)
      × (e'.bus.partition_token ≡ e.bus.partition_token)
      × (e'.bus.replaying pid ≡ false)
unfolding replay_command_log
replay_command_log_silent ws pid log e e' h =
    elim (Option-cases (run_commands ws pid 0 log (set_replaying pid true e))) [
      | inl stuck ↦ absurd (ground arith)
      | inr (x, done) ↦
          let last : set_replaying pid false x ≡ e' = ground arith in
          let same : x.bus ≡ (set_replaying pid true e).bus =
            run_commands-replaying ws pid 0 log (set_replaying pid true e) x
              (replaying-set_replaying pid true e) done in
          (
            sym (ap (λ (y : Engine). y.bus.journal) last) ∙ ap (λ (b : Bus). b.journal) same,
            sym (ap (λ (y : Engine). y.bus.stream) last) ∙ ap (λ (b : Bus). b.stream) same,
            sym (ap (λ (y : Engine). y.bus.channel) last) ∙ ap (λ (b : Bus). b.channel) same,
            sym (ap (λ (y : Engine). y.bus.partition_seq) last)
                ∙ ap (λ (b : Bus). b.partition_seq) same,
            sym (ap (λ (y : Engine). y.bus.partition_token) last)
                ∙ ap (λ (b : Bus). b.partition_token) same,
            sym (ap (λ (y : Engine). y.bus.replaying pid) last)
                ∙ replaying-set_replaying pid false x,
          )
    ]
