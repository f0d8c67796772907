-- ===== src/Engine/Consumer/Backlog.antt =====
-- Commands that wait in the stream when an engine takes the partition over: the replay of the whole
-- log handles them in silence, and the consumer then finds their orders known.
use predix_go_backend.Base.{
  ℕ, suc, ◌+◌, ◌≡◌, refl, ap, ◌∙◌, Bool, true, false, Option, some, List, [], ◌∷◌, ◌++◌, arith,
  ◌==◌, string_eq, inl, inr, length,
}
use predix_go_backend.Dict.{Dict, lookup}
use predix_go_backend.Engine.Types.{status_eq}
use predix_go_backend.Engine.Commands.{
  Engine, World, Response, Reply, success, failure, CreateRequest,
}
use predix_go_backend.Engine.Commands.Known.{handle_create_order-known_after}
use predix_go_backend.Engine.Commands.Idempotence.{handle_create_order_known}
use predix_go_backend.Engine.Dispatch.{
  Command, handle_message, run_commands, set_replaying, replay_command_log,
}
use predix_go_backend.Engine.Dispatch.Replay.{replay_command_log_silent}
use predix_go_backend.Engine.Dispatch.Reconstruction.{replay_command_log-some}
use predix_go_backend.Engine.Dispatch.Runs.{go_on, run_commands-append, run_commands-next}

-- The engine after a replay whose last command was an order request, and what the consumer makes of
-- the same request then: an answer, and not a change. No event has gone out in between.
pub record IsSilenced (ws : ℕ → World) (pid : ℕ) (log : List (Option Command)) (w : World)
    (q : CreateRequest) (e : Engine) : Type 0 where
  pub taken_over : Engine
  pub answer : Response
  pub replayed :
      replay_command_log ws pid (log ++ some (Command.create_order (some q)) ∷ []) e
      ≡ some taken_over
  pub consumed :
      handle_message w pid (Command.create_order (some q)) taken_over ≡ some (answer, taken_over)
  pub journal : taken_over.bus.journal ≡ e.bus.journal
  pub stream : taken_over.bus.stream ≡ e.bus.stream
  pub channel : taken_over.bus.channel ≡ e.bus.channel

consumed_known :
    (w : World) (pid p : ℕ) (q : CreateRequest) (e : Engine)
    → (q.order_id == "") ≡ false
    → lookup q.order_id e.core.orders ≡ some p
    → (r : Response) × (handle_message w pid (Command.create_order (some q)) e ≡ some (r, e))
unfolding handle_message
consumed_known w pid p q e named stored =
    elim (handle_create_order_known w pid p q e named stored) [
      | inl old ↦ (_, old)
      | inr (message, bad) ↦ (failure message, bad)
    ]

orders-set_replaying :
    (pid : ℕ) (flag : Bool) (e : Engine) → (set_replaying pid flag e).core.orders ≡ e.core.orders
unfolding set_replaying
orders-set_replaying pid flag e = refl

order_succeeded :
    (w : World) (pid : ℕ) (q : CreateRequest) (e e' : Engine) (x : Reply)
    → (q.order_id == "") ≡ false
    → handle_message w pid (Command.create_order (some q)) e ≡ some (success x, e')
    → (p : ℕ) × (lookup q.order_id e'.core.orders ≡ some p)
unfolding handle_message
order_succeeded w pid q e e' x named h = handle_create_order-known_after w pid q e e' x named h

from_zero : (n : ℕ) → 0 + n ≡ n
from_zero n = omega arith

run_commands-nil : (ws : ℕ → World) (pid i : ℕ) (e : Engine) → run_commands ws pid i [] e ≡ some e
unfolding run_commands
run_commands-nil ws pid i e = refl

-- An order request with an id that is the last of the log when an engine takes the partition over,
-- and that succeeds in the replay, is never announced: the replay emits nothing, and when the
-- request is consumed its order is known, and nothing changes.
pub replayed_order-IsSilenced :
    (ws : ℕ → World) (pid : ℕ) (log : List (Option Command)) (w : World) (q : CreateRequest)
    (e e₁ e₂ : Engine) (x : Reply)
    → (q.order_id == "") ≡ false
    → run_commands ws pid 0 log (set_replaying pid true e) ≡ some e₁
    → handle_message (ws (length log)) pid (Command.create_order (some q)) e₁ ≡ some (success x, e₂)
    → IsSilenced ws pid log w q e
replayed_order-IsSilenced ws pid log w q e e₁ e₂ x named first last =
    let asked : Command = Command.create_order (some q) in
    let e₃ : Engine = set_replaying pid false e₂ in
    let whole : run_commands ws pid 0 (log ++ some asked ∷ []) (set_replaying pid true e)
        ≡ some e₂ =
      run_commands-append ws pid 0 log (some asked ∷ []) (set_replaying pid true e)
      ∙ ap
          (λ (n : ℕ).
            go_on ws pid n (some asked ∷ []) (run_commands ws pid 0 log (set_replaying pid true e)))
          (from_zero (length log))
      ∙ ap (go_on ws pid (length log) (some asked ∷ [])) first
      ∙ run_commands-next ws pid (length log) [] e₁ asked (success x, e₂) last
      ∙ run_commands-nil ws pid (suc (length log)) e₂ in
    let replayed : replay_command_log ws pid (log ++ some asked ∷ []) e ≡ some e₃ =
      replay_command_log-some ws pid (log ++ some asked ∷ []) e e₂ whole in
    let (p, stored) = order_succeeded (ws (length log)) pid q e₁ e₂ x named last in
    let (r, consumed) =
      consumed_known w pid p q e₃ named
        (ap (λ (d : Dict ℕ). lookup q.order_id d) (orders-set_replaying pid false e₂) ∙ stored) in
    let silent = replay_command_log_silent ws pid (log ++ some asked ∷ []) e e₃ replayed in
    record {
      taken_over = e₃;
      answer = r;
      replayed = replayed;
      consumed = consumed;
      journal = silent.0;
      stream = silent.1;
      channel = silent.2;
    }
