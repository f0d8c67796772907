-- ===== src/Engine/Dispatch/Totality.antt =====
-- Every command of any kind, on a valid state, gets a response and leaves a valid state: matching
-- ends, nothing is indexed out of range and no missing book is dereferenced.
use predix_go_backend.Engine.Commands.Placement.{ledger-IsValid, Served, handle_create_order-Served}
use predix_go_backend.Engine.Commands.Withdrawal.{handle_cancel_order-Served}
use predix_go_backend.Base.{
  ℕ, suc, ◌≡◌, refl, String, Option, none, some, List, [], ◌∷◌, arith, ◌==◌, string_eq, nat_eq,
  Bool-cases, Option-cases, inl, inr, IsInt64,
}
use predix_go_backend.Dict.{lookup}
use predix_go_backend.Engine.Types.{Heap, status_eq, empty_book, new_market}
use predix_go_backend.Engine.Core.Invariant.{IsValid, IsPlaced, MarketIsPlaced, All-insert}
use predix_go_backend.Engine.Commands.{
  Engine, World, failure, handle_create_order, handle_cancel_order, handle_create_event,
  handle_user_created,
}
use predix_go_backend.Engine.Dispatch.{Command, handle_message, run_commands}

-- The record field that int64 decoding bounds.
abbrev pub CommandFits : Command → Type 0
CommandFits (Command.create_order (some r)) = IsInt64 r.quantity
CommandFits _ = Unit

new_market-IsPlaced : (h : Heap) (n : ℕ) → MarketIsPlaced h n new_market
unfolding new_market
new_market-IsPlaced h n =
    let empty_placed : IsPlaced h n empty_book = (record { bids = tt; asks = tt }, (tt, tt)) in
    (empty_placed, empty_placed)

pub handle_create_event-IsValid :
    (r : Option String) (e : Engine) → IsValid e.core → IsValid (handle_create_event r e).1.core
unfolding handle_create_event
handle_create_event-IsValid none e v = v
handle_create_event-IsValid (some id) e v = elim (Bool-cases (id == "")) [
  | inl no_id ↦ rw no_id v
  | inr has_id ↦ elim (Option-cases (lookup id e.core.markets)) [
    | inr (m, old) ↦ rw (has_id, old, handle_create_event) v
    | inl fresh ↦
        rw (has_id, fresh, handle_create_event)
          (record {
            conserved = v.conserved;
            markets =
                All-insert (MarketIsPlaced e.core.heap e.core.next_address) id new_market
                  e.core.markets (new_market-IsPlaced e.core.heap e.core.next_address) v.markets;
            orders = v.orders;
          })
  ]
]

pub handle_user_created-IsValid :
    (r : Option String) (e : Engine) → IsValid e.core → IsValid (handle_user_created r e).1.core
unfolding handle_user_created
handle_user_created-IsValid none e v = v
handle_user_created-IsValid (some id) e v = elim (Bool-cases (id == "")) [
  | inl no_id ↦ rw no_id v
  | inr has_id ↦ rw has_id (ledger-IsValid e.core _ v)
]

-- Every command, from a valid state and with a quantity that is an int64, gets a response, and the
-- state after it is valid: quantities add up, books are in price order and hold only orders that
-- exist.
pub handle_message-Served :
    (w : World) (pid : ℕ) (c : Command) (e : Engine)
    → CommandFits c
    → IsValid e.core
    → Served (handle_message w pid c e)
unfolding handle_message
handle_message-Served w pid (Command.create_order none) e f v =
    ((failure "invalid payload", e), unfold handle_create_order in refl, v)
handle_message-Served w pid (Command.create_order (some r)) e f v =
    handle_create_order-Served w pid r e f v
handle_message-Served w pid (Command.cancel_order none) e f v =
    ((failure "invalid payload", e), unfold handle_cancel_order in refl, v)
handle_message-Served w pid (Command.cancel_order (some r)) e f v =
    handle_cancel_order-Served w pid r e v
handle_message-Served w pid (Command.get_depth r) e f v = (_, refl, v)
handle_message-Served w pid (Command.get_open_orders r) e f v = (_, refl, v)
handle_message-Served w pid (Command.create_event r) e f v =
    (_, refl, handle_create_event-IsValid r e v)
handle_message-Served w pid (Command.user_created r) e f v =
    (_, refl, handle_user_created-IsValid r e v)
handle_message-Served w pid Command.unknown e f v = (_, refl, v)

-- The commands of a run that can be read fit.
abbrev pub RunFits : List (Option Command) → Type 0
RunFits [] = Unit
RunFits (none ∷ cs) = RunFits cs
RunFits (some c ∷ cs) = CommandFits c × RunFits cs

-- Any run of commands from a valid state goes through to its end and leaves a valid state.
pub run_commands_served :
    (ws : ℕ → World) (pid i : ℕ) (cs : List (Option Command)) (e : Engine)
    → RunFits cs
    → IsValid e.core
    → (e' : Engine) × (run_commands ws pid i cs e ≡ some e') × IsValid e'.core
unfolding run_commands
run_commands_served ws pid i [] e f v = (e, refl, v)
run_commands_served ws pid i (none ∷ cs) e f v = run_commands_served ws pid (suc i) cs e f v
run_commands_served ws pid i (some c ∷ cs) e f v =
    let (x, served, valid) = handle_message-Served (ws i) pid c e f.0 v in
    let (e', done, after) = run_commands_served ws pid (suc i) cs x.1 f.1 valid in
    (e', ground arith, after)
