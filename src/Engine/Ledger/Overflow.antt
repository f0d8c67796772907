-- ===== src/Engine/Ledger/Overflow.antt =====
-- The frozen cost of a limit order is a product of int64 numbers, which wraps around.
use predix_go_backend.Base.{
  ℕ, ◌+◌, ◌*◌, ◌^◌, ◌<◌, ◌≡◌, refl, ap, ◌∙◌, true, false, arith, ◌==◌, string_eq, ℤ, pos, mul64,
  wrap64, ltb_ℤ,
}
use predix_go_backend.Engine.Types.{Order, side_buy, order_type_market}
use predix_go_backend.Engine.Ledger.{
  Ledger, reserved, balance_of, modify_balance, freeze_cash, reserve_cost, reserve_order,
}

mul64_wraps :
    (n p k rest : ℕ) → n * p ≡ k * 2 ^ 64 + rest → rest < 2 ^ 63 → mul64 (pos n) (pos p) ≡ pos rest
unfolding mul64 wrap64
mul64_wraps n p k rest product fits = ground (arith, product, fits)

-- A limit BUY whose quantity times price is `rest` above a multiple of 2 ^ 64, where `rest` fits
-- an int64 and is available, is accepted and freezes only `rest`.
pub reserve_order_wraps :
    (o : Order) (l : Ledger) (n p k rest : ℕ)
    → (o.side == side_buy) ≡ true
    → (o.order_type == order_type_market) ≡ false
    → o.remaining_quantity ≡ pos n
    → o.price ≡ pos p
    → n * p ≡ k * 2 ^ 64 + rest
    → rest < 2 ^ 63
    → ltb_ℤ (balance_of o.user_id l).available (pos rest) ≡ false
    → reserve_order o l
      ≡ reserved
          (record o { locked_funds = pos rest })
          (modify_balance o.user_id (freeze_cash (pos rest)) l)
unfolding reserve_order reserve_cost
reserve_order_wraps o l n p k rest buy limit quantity price product fits enough =
    let cost : mul64 o.remaining_quantity o.price ≡ pos rest =
      ap (λ (a : ℤ). mul64 a o.price) quantity
      ∙ ap (λ (b : ℤ). mul64 (pos n) b) price
      ∙ mul64_wraps n p k rest product fits in
    rw (buy, limit, cost, enough) refl
