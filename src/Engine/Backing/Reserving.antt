-- ===== src/Engine/Backing/Reserving.antt =====
-- `reserveOrderLocked` for a limit order: what the new order locks is what is reserved for it.
use predix_go_backend.Base.{
  ℕ, suc, ◌*◌, ◌^◌, ◌≤◌, ◌<◌, ◌≡◌, refl, ap, ◌∙◌, sym, String, true, false, arith, ◌==◌, string_eq,
  nat_eq, ℤ, pos_part, Nat64, ltb_ℤ, mul64, mul64_nat, Bool-cases, inl, inr,
}
use predix_go_backend.Engine.Types.{
  Order, Heap, Balance, Position, store, side_buy, order_type_market,
}
use predix_go_backend.Engine.Ledger.{
  Ledger, Reserve, reserved, refused, balance_of, position_of, modify_balance, modify_position,
  order_key, reserve_cost, reserve_order,
}
use predix_go_backend.Engine.Ledger.Totals.{
  cash, shares, balance_of-modify_position, position_of-modify_balance, cash-modify_balance,
  cash-modify_position, shares-modify_balance, shares-modify_position, modify_balance-IsSound,
  modify_position-IsSound,
}
use predix_go_backend.Engine.Ledger.Reservation.{ReserveMoves, reserve_order-Moves}
use predix_go_backend.Engine.Backing.{is_buy, due, gross, due-le-gross, IsBacked}
use predix_go_backend.Engine.Backing.Holdings.{
  reserved_cash, reserved_shares, reserved_cash-modify, reserved_shares-modify,
}
use predix_go_backend.Engine.Backing.Freezing.{holding, back_buy, back_sell}

-- A refusal writes an entry as it reads.
module _ (h : Heap) (n : ℕ) (l : Ledger) (b : IsBacked h n l) where
  back_no_cash :
      (user : String)
      → let l' = modify_balance user (λ x. x) l in
        IsBacked h n l' × (cash l' ≡ cash l) × (shares l' ≡ shares l)
  back_no_cash user =
      let f = λ (x : Balance). x in
      let moved = cash-modify_balance l user f in
      let same : cash (modify_balance user f l) ≡ cash l = omega (arith, moved) in
      (
        record {
          sound =
              modify_balance-IsSound user f l (b.sound.balances user)
                (omega (arith, same, b.sound.cash_fits)) b.sound;
          balances = λ other.
              b.balances other
              ∙ sym (
                  reserved_cash-modify l user other f ∙ elim (Bool-cases (user == other)) [
                    | inl hit ↦ rw hit (
                        ap (λ (u : String). reserved_cash u l)
                          ((string_eq.beq_iff user other).0 hit))
                    | inr miss ↦ rw miss refl
                  ]);
          positions = λ key.
              b.positions key
              ∙ ap (λ (r : Position). pos_part r.reserved)
                  (sym (position_of-modify_balance l key user f));
        },
        same,
        shares-modify_balance l user f,
      )

  back_no_shares :
      (key : String)
      → let l' = modify_position key (λ x. x) l in
        IsBacked h n l' × (cash l' ≡ cash l) × (shares l' ≡ shares l)
  back_no_shares key =
      let f = λ (x : Position). x in
      let moved = shares-modify_position l key f in
      let same : shares (modify_position key f l) ≡ shares l = omega (arith, moved) in
      (
        record {
          sound =
              modify_position-IsSound key f l (b.sound.positions key)
                (omega (arith, same, b.sound.shares_fit)) b.sound;
          balances = λ user.
              b.balances user
              ∙ ap (λ (r : Balance). pos_part r.reserved)
                  (sym (balance_of-modify_position l user key f));
          positions = λ other.
              b.positions other
              ∙ sym (
                  reserved_shares-modify l key other f ∙ elim (Bool-cases (key == other)) [
                    | inl hit ↦ rw hit (
                        ap (λ (u : String). reserved_shares u l)
                          ((string_eq.beq_iff key other).0 hit))
                    | inr miss ↦ rw miss refl
                  ]);
        },
        cash-modify_position l key f,
        same,
      )

-- What a reservation from a backed ledger must have done.
abbrev pub Funds : Order → Heap → ℕ → Ledger → Reserve → Type 0
Funds o h n l (refused message l') = IsBacked h n l' × (cash l' ≡ cash l) × (shares l' ≡ shares l)
Funds o h n l (reserved o' l') =
    IsBacked (store n o' h) (suc n) l'
    × (cash l' ≡ cash l)
    × (shares l' ≡ shares l)
    × ((z : ℤ) × (o' ≡ holding z o) × Nat64 z × (due o ≤ pos_part z))

gross-buy :
    (o : Order) → is_buy o ≡ true → gross o ≡ pos_part o.remaining_quantity * pos_part o.price
unfolding gross
gross-buy o buy = rw buy refl

gross-sell : (o : Order) → is_buy o ≡ false → gross o ≡ pos_part o.remaining_quantity
unfolding gross
gross-sell o sell = rw sell refl

due-buy : (o : Order) → is_buy o ≡ true → due o ≤ pos_part o.remaining_quantity * pos_part o.price
due-buy o buy = omega (arith, due-le-gross o, gross-buy o buy)

due-sell : (o : Order) → is_buy o ≡ false → due o ≤ pos_part o.remaining_quantity
due-sell o sell = omega (arith, due-le-gross o, gross-sell o sell)

no_less : (a c : ℤ) → Nat64 a → Nat64 c → ltb_ℤ a c ≡ false → pos_part c ≤ pos_part a
no_less a c p q e = ground arith

pub reserve_order-Funds :
    (o : Order) (h : Heap) (n : ℕ) (l : Ledger)
    → IsBacked h n l
    → (o.order_type == order_type_market) ≡ false
    → Nat64 o.remaining_quantity
    → Nat64 o.price
    → pos_part o.remaining_quantity * pos_part o.price < 2 ^ 63
    → Funds o h n l (reserve_order o l)
unfolding reserve_order reserve_cost
reserve_order-Funds o h n l b limit r p fits =
    let z : ℤ = mul64 o.remaining_quantity o.price in
    let m = mul64_nat o.remaining_quantity o.price r p fits in
    let nz : Nat64 z = (m.0, omega (arith, m.1, fits)) in
    let have : ℤ = (balance_of o.user_id l).available in
    let held : ℤ = (position_of (order_key o) l).available in
    let cost_is : reserve_cost o l ≡ z = rw limit refl in
    let moves : ReserveMoves o l (reserve_order o l) =
      reserve_order-Moves o l b.sound (rw cost_is nz) r in
    elim (Bool-cases (o.side == side_buy)) [
      | inl buy ↦ elim (Bool-cases (ltb_ℤ have z)) [
        | inl short ↦ rw (limit, buy, short) (back_no_cash h n l b o.user_id)
        | inr enough ↦
            let moves' = rw (reserve_order, limit, buy, enough) at moves in
            rw (limit, buy, enough)
              (
                back_buy o h n l b z nz buy
                    (no_less have z (b.sound.balances o.user_id).0 nz enough) moves'.0,
                moves'.1,
                moves'.2,
                (z, refl, nz, omega (arith, due-buy o buy, m.1)),
              )
      ]
      | inr sell ↦ elim (Bool-cases (ltb_ℤ held o.remaining_quantity)) [
        | inl short ↦ rw (limit, sell, short) (back_no_shares h n l b (order_key o))
        | inr enough ↦
            let moves' = rw (reserve_order, limit, sell, enough) at moves in
            rw (limit, sell, enough)
              (
                back_sell o h n l b o.remaining_quantity r sell
                    (no_less held o.remaining_quantity (b.sound.positions (order_key o)).0 r enough)
                    moves'.0,
                moves'.1,
                moves'.2,
                (o.remaining_quantity, refl, r, omega (arith, due-sell o sell)),
              )
      ]
    ]
