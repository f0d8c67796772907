-- ===== src/Engine/Examples/Holdings.antt =====
-- The ledger and the depth report on the sample orders.
use predix_go_backend.Base.{
  ℕ, ◌+◌, ◌^◌, ◌<◌, ◌≡◌, refl, [], ◌∷◌, arith, ◌==◌, string_eq, pos, Nat64, mul64, Bool-cases, inl,
  inr,
}
use predix_go_backend.Dict.{lookup}
use predix_go_backend.Sort.{IsSorted}
use predix_go_backend.Engine.Types.{Order}
use predix_go_backend.Engine.Depth.{dearer, cheaper, aggregate_bids, aggregate_asks}
use predix_go_backend.Engine.Depth.Levels.{quantity_at, count_at}
use predix_go_backend.Engine.Depth.Quantities.{aggregate_reports, open_quantity, open_count}
use predix_go_backend.Engine.Ledger.{
  Ledger, reserved, reserve_order, reserve_cost, settle_holdings, balance_of, position_of,
  modify_balance, freeze_cash, position_key,
}
use predix_go_backend.Engine.Ledger.Totals.{cash, shares, IsSound}
use predix_go_backend.Engine.Ledger.Reservation.{ReserveMoves, reserve_order-Moves}
use predix_go_backend.Engine.Ledger.Settlement.{settle_holdings_totals}
use predix_go_backend.Engine.Ledger.Overflow.{reserve_order_wraps}
use predix_go_backend.Engine.Examples.{sample_heap, sample_trade}
use predix_go_backend.Engine.Examples.Books.{sample_heap-IsConserved}

-- Alice has 100 and 32 more reserved, Carol has 4 shares reserved.
abbrev pub sample_ledger : Ledger
sample_ledger = record {
  balances = ("alice", record { available = pos 100; reserved = pos 32 }) ∷ [];
  positions = ("carol:E:YES", record { available = pos 0; reserved = pos 4 }) ∷ [];
}

small : (n : ℕ) → n < 1000 → Nat64 (pos n)
small n lt = (refl, omega arith)

sample_ledger-IsSound : IsSound sample_ledger
unfolding balance_of position_of lookup
sample_ledger-IsSound = record {
  balances = λ user. elim (Bool-cases ("alice" == user)) [
    | inl hit ↦ rw hit (small 100 (omega arith), small 32 (omega arith))
    | inr miss ↦ rw miss (small 0 (omega arith), small 0 (omega arith))
  ];
  positions = λ key. elim (Bool-cases ("carol:E:YES" == key)) [
    | inl hit ↦ rw hit (small 0 (omega arith), small 4 (omega arith))
    | inr miss ↦ rw miss (small 0 (omega arith), small 0 (omega arith))
  ];
  cash_fits = omega arith;
  shares_fit = omega arith;
}

settle_holdings_totals_example :
    IsSound (settle_holdings (sample_trade "s2" "carol" 4 8 0) sample_ledger)
    × (cash (settle_holdings (sample_trade "s2" "carol" 4 8 0) sample_ledger) + 32 ≡ 132 + 0 + 32)
    × (shares (settle_holdings (sample_trade "s2" "carol" 4 8 0) sample_ledger) + 4 ≡ 4 + 0 + 4)
unfolding balance_of position_of lookup position_key
settle_holdings_totals_example =
    settle_holdings_totals (sample_trade "s2" "carol" 4 8 0) sample_ledger sample_ledger-IsSound
      (record {
        quantity = small 4 (omega arith);
        price = small 8 (omega arith);
        cash_room = omega arith;
        shares_room = omega arith;
      })

reserve_order-Moves_example :
    ReserveMoves (sample_heap 2) sample_ledger (reserve_order (sample_heap 2) sample_ledger)
unfolding reserve_cost mul64
reserve_order-Moves_example =
    reserve_order-Moves (sample_heap 2) sample_ledger sample_ledger-IsSound (small 70 (omega arith))
      (small 7 (omega arith))

abbrev no_ledger : Ledger
no_ledger = record { balances = []; positions = [] }

abbrev huge_order : Order
huge_order = record (sample_heap 2) { remaining_quantity = pos (2 ^ 32); price = pos (2 ^ 32) }

-- Nothing is frozen for an order of 2 ^ 64, from a user who has nothing.
reserve_order_wraps_example :
    reserve_order huge_order no_ledger
    ≡ reserved
        (record huge_order { locked_funds = pos 0 })
        (modify_balance "alice" (freeze_cash (pos 0)) no_ledger)
unfolding balance_of lookup
reserve_order_wraps_example =
    reserve_order_wraps huge_order no_ledger (2 ^ 32) (2 ^ 32) 1 0 refl refl refl refl refl
      (omega arith) refl

aggregate_reports_example :
    IsSorted dearer (aggregate_bids sample_heap (1 ∷ 0 ∷ []))
    × IsSorted cheaper (aggregate_asks sample_heap (1 ∷ 0 ∷ []))
    × (quantity_at (pos 8) (aggregate_bids sample_heap (1 ∷ 0 ∷ []))
        ≡ open_quantity sample_heap (pos 8) (1 ∷ 0 ∷ []))
    × (quantity_at (pos 8) (aggregate_asks sample_heap (1 ∷ 0 ∷ []))
        ≡ open_quantity sample_heap (pos 8) (1 ∷ 0 ∷ []))
    × (count_at (pos 8) (aggregate_bids sample_heap (1 ∷ 0 ∷ []))
        ≡ open_count sample_heap (pos 8) (1 ∷ 0 ∷ []))
    × (count_at (pos 8) (aggregate_asks sample_heap (1 ∷ 0 ∷ []))
        ≡ open_count sample_heap (pos 8) (1 ∷ 0 ∷ []))
aggregate_reports_example =
    aggregate_reports sample_heap (1 ∷ 0 ∷ []) (pos 8) sample_heap-IsConserved (ground arith)
