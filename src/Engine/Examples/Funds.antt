-- ===== src/Engine/Examples/Funds.antt =====
-- The engine with one event, whose one order has locked what it may have to pay.
use predix_go_backend.Base.{refl, arith, ◌==◌, string_eq, nat_eq, Bool-cases, inl, inr}
use predix_go_backend.Dict.{lookup}
use predix_go_backend.Engine.Ledger.{balance_of, position_of}
use predix_go_backend.Engine.Ledger.Totals.{IsSound}
use predix_go_backend.Engine.Commands.Placement.{handle_create_order-Served}
use predix_go_backend.Engine.Backing.{tally, cash_lock, share_lock, due, gross, owed, IsBacked}
use predix_go_backend.Engine.Backing.Funded.{Covered, IsFunded}
use predix_go_backend.Engine.Backing.Rest.{IsKept}
use predix_go_backend.Engine.Commands.{success, canceled}
use predix_go_backend.Engine.Backing.Cancel.{handle_cancel_order-IsKept}
use predix_go_backend.Engine.Backing.Orders.{handle_create_order-IsKept}
use predix_go_backend.Engine.Examples.Runs.{
  sample_world, sample_core, sample_core-IsValid, sample_engine, sample_request, cancel_b1,
  canceled_engine, canceled_run,
}

sample-IsSound : IsSound sample_core.ledger
unfolding balance_of position_of lookup
sample-IsSound = record {
  balances = λ user. elim (Bool-cases ("alice" == user)) [
    | inl hit ↦ rw hit ((refl, omega arith), (refl, omega arith))
    | inr miss ↦ rw miss ((refl, omega arith), (refl, omega arith))
  ];
  positions = λ key. ((refl, omega arith), (refl, omega arith));
  cash_fits = omega arith;
  shares_fit = omega arith;
}

sample-IsBacked : IsBacked sample_core.heap 1 sample_core.ledger
unfolding balance_of position_of lookup tally cash_lock share_lock
sample-IsBacked = record {
  sound = sample-IsSound;
  balances = λ user. elim (Bool-cases ("alice" == user)) [
    | inl hit ↦ rw hit refl
    | inr miss ↦ rw miss refl
  ];
  positions = λ key. refl;
}

sample-IsCovered : Covered sample_core 0
unfolding lookup due gross owed
sample-IsCovered = record {
  allocated = omega arith;
  registered = refl;
  price = (refl, omega arith);
  lock = (refl, omega arith);
  covered = omega arith;
}

sample-IsFunded : IsFunded sample_core
sample-IsFunded = record {
  backed = sample-IsBacked;
  markets = (((((sample-IsCovered, refl, refl), tt), tt), (tt, tt)), tt);
  known = (sample-IsCovered, tt);
}

handle_create_order-IsKept_example :
    IsKept sample_core
      (handle_create_order-Served sample_world 0 sample_request sample_engine
        (omega arith, omega arith)
        sample_core-IsValid).0.1.core
handle_create_order-IsKept_example =
    let served =
      handle_create_order-Served sample_world 0 sample_request sample_engine
        (omega arith, omega arith) sample_core-IsValid in
    handle_create_order-IsKept sample_world 0 sample_request sample_engine served.0
      (omega arith, omega arith) (omega arith, omega arith) refl (omega arith) sample_core-IsValid
      sample-IsFunded (omega arith) (omega arith) served.1

handle_cancel_order-IsKept_example : IsKept sample_core canceled_engine.core
handle_cancel_order-IsKept_example =
    handle_cancel_order-IsKept sample_world 0 cancel_b1 sample_engine
      (success (canceled "b1"), canceled_engine) sample-IsFunded canceled_run
