-- ===== src/Engine/Dispatch/Reconstruction.antt =====
-- The state behind the mutex does not depend on the bus, so long as the announcements of orders go
-- out: a replay of the log rebuilds what the live run had.
use predix_go_backend.Base.{
  ℕ, suc, ◌≡◌, refl, sym, ap, ◌∙◌, String, Bool, true, false, not, ◌&&◌, Option, none, some, List,
  [], ◌∷◌, arith, ◌==◌, nat_eq, string_eq, Bool-cases, Option-cases, inl, inr, ◌⊎◌, subst, pos,
  leb_ℤ,
}
use predix_go_backend.Dict.{lookup}
use predix_go_backend.Engine.Types.{Order, book_of}
use predix_go_backend.Engine.Emit.{Bus, Delivery, EventType, EventData, order_data, emit_event}
use predix_go_backend.Engine.Core.{Core, match_order}
use predix_go_backend.Engine.Commands.{
  Engine, World, Response, CreateRequest, CancelRequest, new_order, validate_order, admit_order,
  place_order, handle_create_order, handle_cancel_order, handle_create_event, handle_user_created,
  not_cancelable, Admission-cases,
}
use predix_go_backend.Engine.Dispatch.{
  Command, handle_message, handle_get_depth, handle_get_open_orders, run_commands, set_replaying,
  replay_command_log,
}

-- The announcement of the command's order goes out: the disk and the stream take it, or the
-- partition is replaying.
abbrev pub Sent : Delivery → ℕ → Bus → Type 0
Sent d pid b = (b.replaying pid ≡ true) ⊎ ((d.append_ok ≡ true) × (d.xadd_ok ≡ true))

emit_event-Sent :
    (d : Delivery) (pid : ℕ) (x : EventData) (b : Bus)
    → Sent d pid b
    → (emit_event d pid EventType.order_created x false b).0 ≡ true
unfolding emit_event
emit_event-Sent d pid x b s = ground arith

-- What an outcome says and the state behind the mutex, without the bus.
abbrev core_after : Option (Response × Engine) → Option (Response × Core)
core_after none = none
core_after (some x) = some (x.0, x.1.core)

place_order-core :
    (w : World) (pid p : ℕ) (c : Core) (b b' : Bus)
    → Sent w.delivery pid b
    → Sent w.delivery pid b'
    → core_after (place_order w pid p (record { core = c; bus = b }))
      ≡ core_after (place_order w pid p (record { core = c; bus = b' }))
unfolding place_order
place_order-core w pid p c b b' s s' =
    let x = order_data (c.heap p) in
    elim (Option-cases (match_order w.source p c)) [
      | inl stuck ↦
          rw (emit_event-Sent w.delivery pid x b s, emit_event-Sent w.delivery pid x b' s', stuck)
            refl
      | inr (y, found) ↦
          rw (emit_event-Sent w.delivery pid x b s, emit_event-Sent w.delivery pid x b' s', found)
            refl
    ]

handle_create_order-core :
    (w : World) (pid : ℕ) (q : Option CreateRequest) (c : Core) (b b' : Bus)
    → Sent w.delivery pid b
    → Sent w.delivery pid b'
    → core_after (handle_create_order w pid q (record { core = c; bus = b }))
      ≡ core_after (handle_create_order w pid q (record { core = c; bus = b' }))
unfolding handle_create_order
handle_create_order-core w pid none c b b' s s' = refl
handle_create_order-core w pid (some q) c b b' s s' =
    let o : Order = new_order w q in
    elim (Bool-cases (leb_ℤ q.quantity (pos 0))) [
      | inl nothing ↦ rw nothing refl
      | inr some_quantity ↦ elim (Option-cases (validate_order o)) [
        | inr (message, bad) ↦ rw (some_quantity, bad) refl
        | inl good ↦ elim (Admission-cases (admit_order o c)) [
          | inl (p, a) ↦ rw (some_quantity, good, a) refl
          | inr (inl (message, d, a)) ↦ rw (some_quantity, good, a) refl
          | inr (inr (p, d, a)) ↦ rw (some_quantity, good, a) (place_order-core w pid p d b b' s s')
        ]
      ]
    ]

handle_cancel_order-core :
    (w : World) (pid : ℕ) (q : Option CancelRequest) (c : Core) (b b' : Bus)
    → core_after (handle_cancel_order w pid q (record { core = c; bus = b }))
      ≡ core_after (handle_cancel_order w pid q (record { core = c; bus = b' }))
unfolding handle_cancel_order
handle_cancel_order-core w pid none c b b' = refl
handle_cancel_order-core w pid (some q) c b b' = elim (Bool-cases (q.order_id == "")) [
  | inl no_id ↦ rw no_id refl
  | inr id ↦ elim (Option-cases (lookup q.order_id c.orders)) [
    | inl missing ↦ rw (id, missing) refl
    | inr (p, found) ↦
        let o : Order = c.heap p in
        elim (Bool-cases (not (q.event_id == "") && not (o.event_id == q.event_id))) [
          | inl other ↦ rw (id, found, other) refl
          | inr own ↦ elim (Bool-cases (not_cancelable o.status)) [
            | inl closed ↦ rw (id, found, own, closed) refl
            | inr live ↦ elim (Option-cases (lookup o.event_id c.markets)) [
              | inl no_market ↦ rw (id, found, own, live, no_market) refl
              | inr (m, market) ↦ elim (Option-cases (book_of m o.outcome)) [
                | inl no_book ↦ rw (id, found, own, live, market, no_book) refl
                | inr (book, has) ↦ rw (id, found, own, live, market, has) refl
              ]
            ]
          ]
        ]
  ]
]

handle_create_event-core :
    (q : Option String) (c : Core) (b b' : Bus)
    → core_after (some (handle_create_event q (record { core = c; bus = b })))
      ≡ core_after (some (handle_create_event q (record { core = c; bus = b' })))
unfolding handle_create_event
handle_create_event-core none c b b' = refl
handle_create_event-core (some id) c b b' = elim (Bool-cases (id == "")) [
  | inl no_id ↦ rw no_id refl
  | inr has_id ↦ elim (Option-cases (lookup id c.markets)) [
    | inl fresh ↦ rw (has_id, fresh, handle_create_event) refl
    | inr (m, old) ↦ rw (has_id, old, handle_create_event) refl
  ]
]

handle_user_created-core :
    (q : Option String) (c : Core) (b b' : Bus)
    → core_after (some (handle_user_created q (record { core = c; bus = b })))
      ≡ core_after (some (handle_user_created q (record { core = c; bus = b' })))
unfolding handle_user_created
handle_user_created-core none c b b' = refl
handle_user_created-core (some id) c b b' = elim (Bool-cases (id == "")) [
  | inl no_id ↦ rw no_id refl
  | inr has_id ↦ rw has_id refl
]

handle_message-core :
    (w : World) (pid : ℕ) (q : Command) (c : Core) (b b' : Bus)
    → Sent w.delivery pid b
    → Sent w.delivery pid b'
    → core_after (handle_message w pid q (record { core = c; bus = b }))
      ≡ core_after (handle_message w pid q (record { core = c; bus = b' }))
unfolding handle_message
handle_message-core w pid (Command.create_order q) c b b' s s' =
    handle_create_order-core w pid q c b b' s s'
handle_message-core w pid (Command.cancel_order q) c b b' s s' =
    handle_cancel_order-core w pid q c b b'
handle_message-core w pid (Command.get_depth none) c b b' s s' = unfold handle_get_depth in refl
handle_message-core w pid (Command.get_depth (some id)) c b b' s s' =
    unfold handle_get_depth in refl
handle_message-core w pid (Command.get_open_orders none) c b b' s s' =
    unfold handle_get_open_orders in refl
handle_message-core w pid (Command.get_open_orders (some q)) c b b' s s' =
    unfold handle_get_open_orders in refl
handle_message-core w pid (Command.create_event q) c b b' s s' = handle_create_event-core q c b b'
handle_message-core w pid (Command.user_created q) c b b' s s' = handle_user_created-core q c b b'
handle_message-core w pid Command.unknown c b b' s s' = refl

-- Every announcement of the run goes out.
abbrev pub AllSent : (ℕ → World) → Type 0
AllSent ws = (i : ℕ) → ((ws i).delivery.append_ok ≡ true) × ((ws i).delivery.xadd_ok ≡ true)

abbrev pub state_after : Option Engine → Option Core
state_after none = none
state_after (some e) = some e.core

run_commands-core :
    (ws : ℕ → World) (pid i : ℕ) (cs : List (Option Command)) (c : Core) (b b' : Bus)
    → AllSent ws
    → state_after (run_commands ws pid i cs (record { core = c; bus = b }))
      ≡ state_after (run_commands ws pid i cs (record { core = c; bus = b' }))
unfolding run_commands
run_commands-core ws pid i [] c b b' s = refl
run_commands-core ws pid i (none ∷ cs) c b b' s = run_commands-core ws pid (suc i) cs c b b' s
run_commands-core ws pid i (some q ∷ cs) c b b' s =
    let e : Engine = record { core = c; bus = b } in
    let e' : Engine = record { core = c; bus = b' } in
    let same = handle_message-core (ws i) pid q c b b' (inr (s i)) (inr (s i)) in
    elim (Option-cases (handle_message (ws i) pid q e)) [
      | inl stuck ↦ elim (Option-cases (handle_message (ws i) pid q e')) [
        | inl stuck' ↦ rw (stuck, stuck', run_commands) refl
        | inr (y, done') ↦ absurd (ground arith)
      ]
      | inr (x, done) ↦ elim (Option-cases (handle_message (ws i) pid q e')) [
        | inl stuck' ↦ absurd (ground arith)
        | inr (y, done') ↦
            let cores : x.1.core ≡ y.1.core = ground arith in
            rw (done, done', run_commands)
              (subst
                (λ (d : Core).
                  state_after (run_commands ws pid (suc i) cs x.1)
                  ≡ state_after
                      (run_commands ws pid (suc i) cs (record { core = d; bus = y.1.bus })))
                cores (run_commands-core ws pid (suc i) cs x.1.core x.1.bus y.1.bus s))
      ]
    ]

core-set_replaying : (pid : ℕ) (flag : Bool) (e : Engine) → (set_replaying pid flag e).core ≡ e.core
unfolding set_replaying
core-set_replaying pid flag e = refl

replay_command_log-none :
    (ws : ℕ → World) (pid : ℕ) (log : List (Option Command)) (e : Engine)
    → run_commands ws pid 0 log (set_replaying pid true e) ≡ none
    → replay_command_log ws pid log e ≡ none
unfolding replay_command_log
replay_command_log-none ws pid log e stuck = rw (stuck, replay_command_log) refl

pub replay_command_log-some :
    (ws : ℕ → World) (pid : ℕ) (log : List (Option Command)) (e x : Engine)
    → run_commands ws pid 0 log (set_replaying pid true e) ≡ some x
    → replay_command_log ws pid log e ≡ some (set_replaying pid false x)
unfolding replay_command_log
replay_command_log-some ws pid log e x done = rw (done, replay_command_log) refl

-- Where every order's announcement went out, executing a log live and replaying it from the same
-- state, with the same ids and times, reach the same markets, orders, order objects and ledger,
-- whatever the bus was in either run.
pub replay_command_log_rebuilds :
    (ws : ℕ → World) (pid : ℕ) (log : List (Option Command)) (c : Core) (b b' : Bus)
    → AllSent ws
    → state_after (replay_command_log ws pid log (record { core = c; bus = b' }))
      ≡ state_after (run_commands ws pid 0 log (record { core = c; bus = b }))
unfolding set_replaying
replay_command_log_rebuilds ws pid log c b b' s =
    let e : Engine = record { core = c; bus = b' } in
    let marked : Engine = set_replaying pid true e in
    let same = run_commands-core ws pid 0 log c marked.bus b s in
    elim (Option-cases (run_commands ws pid 0 log marked)) [
      | inl stuck ↦
          ap state_after (replay_command_log-none ws pid log e stuck)
          ∙ ap state_after (sym stuck)
          ∙ same
      | inr (x, done) ↦
          ap state_after (replay_command_log-some ws pid log e x done)
          ∙ ap some (core-set_replaying pid false x)
          ∙ ap state_after (sym done)
          ∙ same
    ]
