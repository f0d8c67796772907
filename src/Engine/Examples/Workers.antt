-- ===== src/Engine/Examples/Workers.antt =====
-- Two workers of one engine: while one announces an order, the other gets a user.
use predix_go_backend.Base.{◌≡◌, refl, true, none, some, arith, nat_eq, mul64}
use predix_go_backend.Dict.{lookup}
use predix_go_backend.Engine.Ledger.{reserve_order, balance_of, reserve_cost}
use predix_go_backend.Engine.Core.{Core}
use predix_go_backend.Engine.Core.Invariant.{IsValid}
use predix_go_backend.Engine.Commands.{
  success, canceled, handle_user_created, Admission, known, turned_away, admitted, new_order,
  validate_order, admit_order,
}
use predix_go_backend.Engine.Dispatch.{Command, handle_message}
use predix_go_backend.Engine.Interleaving.{
  Stage, Shared, turn, user, admit, Sections, here, next, at_rest, seen,
}
use predix_go_backend.Engine.Interleaving.Drain.{Drained, Sections-IsDrained}
use predix_go_backend.Engine.Interleaving.Sequential.{Leads, handle_message-Leads}
use predix_go_backend.Engine.Examples.{sample_source}
use predix_go_backend.Engine.Examples.Runs.{
  sample_world, sample_bus, sample_core, sample_core-IsValid, sample_request, cancel_b1,
  canceled_engine, canceled_run,
}

abbrev core_of : Admission → Core
core_of (admitted p c) = c
core_of (turned_away message c) = c
core_of (known p) = sample_core

abbrev admitted_core : Core
admitted_core = core_of (admit_order (new_order sample_world sample_request) sample_core)

admitted_run :
    admit_order (new_order sample_world sample_request) sample_core ≡ admitted 1 admitted_core
unfolding admit_order new_order lookup reserve_order balance_of reserve_cost mul64
admitted_run = refl

abbrev announced : Shared
announced = turn 0 (Stage.announcing 1) admitted_core (at_rest sample_core)

valid_request : validate_order (new_order sample_world sample_request) ≡ none
unfolding validate_order new_order
valid_request = refl

two_workers : Sections (at_rest sample_core) announced
two_workers = next here (
    admit 0 sample_world sample_request 1 admitted_core refl (omega arith, omega arith) refl
      valid_request admitted_run)

abbrev interleaved : Shared
interleaved =
    turn 1 Stage.outside (handle_user_created (some "dave") (seen announced sample_bus)).1.core
      announced

interleaved_run : Sections (at_rest sample_core) interleaved
interleaved_run = next two_workers (user 1 (some "dave") sample_bus refl)

Sections-IsDrained_example : IsValid interleaved.core × Drained 0 interleaved
Sections-IsDrained_example =
    Sections-IsDrained 0 sample_source true sample_core interleaved sample_core-IsValid
      interleaved_run

handle_message-Leads_example : Leads (at_rest sample_core) canceled_engine.core
unfolding handle_message
handle_message-Leads_example =
    handle_message-Leads 3 (at_rest sample_core) sample_bus refl sample_world 0
      (Command.cancel_order (some cancel_b1)) (success (canceled "b1"), canceled_engine) tt
      canceled_run
