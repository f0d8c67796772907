-- ===== src/Engine/Ledger/Reservation.antt =====
-- Reserving for an order and giving the reservation back.
use predix_go_backend.Engine.Ledger.Freezing.{
  nat_ext, Unchanged, freeze_cash_lem, freeze_shares_lem, modify_balance_back, modify_position_back,
  modify_balance_same, modify_position_same,
}
use predix_go_backend.Base.{
  ◌^◌, ◌≤◌, ◌<◌, ◌≡◌, refl, true, false, arith, ◌==◌, string_eq, ℤ, pos, pos_part, Nat64, sub64,
  add64, sub64_nat, add64_nat, leb_ℤ, ltb_ℤ, Bool-cases, inl, inr,
}
use predix_go_backend.Engine.Types.{Order, Balance, Position, side_buy}
use predix_go_backend.Engine.Ledger.{
  Ledger, Reserve, reserved, refused, balance_of, modify_balance, position_of, modify_position,
  order_key, freeze_cash, freeze_shares, thaw_cash, thaw_shares, reserve_cost, reserve_order,
  release_order,
}
use predix_go_backend.Engine.Ledger.Totals.{
  cash, shares, held_cash, held_shares, BalanceIsSound, PositionIsSound, IsSound,
  cash-modify_balance, cash-modify_position, shares-modify_balance, shares-modify_position,
  held_cash-le, held_shares-le, modify_balance-IsSound, modify_position-IsSound,
}

-- What a reservation of an order from `l` must have done, by how it ended.
abbrev pub ReserveMoves : Order → Ledger → Reserve → Type 0
ReserveMoves o l (refused message l') = Unchanged l l'
ReserveMoves o l (reserved o' l') =
    IsSound l'
    × (cash l' ≡ cash l)
    × (shares l' ≡ shares l)
    × Nat64 o'.locked_funds
    × Unchanged l (release_order o' l').1

module _ (c : ℤ) (n : Nat64 c) (none_left : leb_ℤ c (pos 0) ≡ true) where
  freeze_cash_zero : (b : Balance) → BalanceIsSound b → held_cash b < 2 ^ 63 → freeze_cash c b ≡ b
  unfolding freeze_cash
  freeze_cash_zero b s fits =
      let z : pos_part c ≡ 0 = ground arith in
      let a = sub64_nat b.available c s.0 n (omega arith) in
      let r = add64_nat b.reserved c s.1 n (omega arith) in
      let ea = nat_ext (sub64 b.available c) b.available a.0 s.0.0 (omega arith) in
      let er = nat_ext (add64 b.reserved c) b.reserved r.0 s.1.0 (omega arith) in
      λ i. record { available = ea i; reserved = er i }

  freeze_shares_zero :
      (p : Position) → PositionIsSound p → held_shares p < 2 ^ 63 → freeze_shares c p ≡ p
  unfolding freeze_shares
  freeze_shares_zero p s fits =
      let z : pos_part c ≡ 0 = ground arith in
      let a = sub64_nat p.available c s.0 n (omega arith) in
      let r = add64_nat p.reserved c s.1 n (omega arith) in
      let ea = nat_ext (sub64 p.available c) p.available a.0 s.0.0 (omega arith) in
      let er = nat_ext (add64 p.reserved c) p.reserved r.0 s.1.0 (omega arith) in
      λ i. record { available = ea i; reserved = er i }

module _ (o : Order) (c : ℤ) (l : Ledger) (s : IsSound l) (n : Nat64 c) where
  release_buy :
      (o.side == side_buy) ≡ true
      → pos_part c ≤ pos_part (balance_of o.user_id l).available
      → Unchanged l
          (release_order
            (record o { locked_funds = c })
            (modify_balance o.user_id (freeze_cash c) l)).1
  unfolding release_order
  release_buy e le =
      let sound = s.balances o.user_id in
      let fits : held_cash (balance_of o.user_id l) < 2 ^ 63 =
        omega (arith, held_cash-le l o.user_id, s.cash_fits) in
      elim (Bool-cases (leb_ℤ c (pos 0))) [
        | inl zero_locked ↦ rw zero_locked (
            modify_balance_same o.user_id (freeze_cash c) l
              (freeze_cash_zero c n zero_locked (balance_of o.user_id l) sound fits))
        | inr locked ↦
            rw (locked, e)
              (modify_balance_back o.user_id (freeze_cash c) (thaw_cash c) l
                (freeze_cash_lem c n (balance_of o.user_id l) sound fits le).2)
      ]

  release_sell :
      (o.side == side_buy) ≡ false
      → pos_part c ≤ pos_part (position_of (order_key o) l).available
      → Unchanged l
          (release_order
            (record o { locked_funds = c })
            (modify_position (order_key o) (freeze_shares c) l)).1
  unfolding release_order
  release_sell e le =
      let sound = s.positions (order_key o) in
      let fits : held_shares (position_of (order_key o) l) < 2 ^ 63 =
        omega (arith, held_shares-le l (order_key o), s.shares_fit) in
      elim (Bool-cases (leb_ℤ c (pos 0))) [
        | inl zero_locked ↦ rw zero_locked (
            modify_position_same (order_key o) (freeze_shares c) l
              (freeze_shares_zero c n zero_locked (position_of (order_key o) l) sound fits))
        | inr locked ↦
            rw (locked, e)
              (modify_position_back (order_key o) (freeze_shares c) (thaw_shares c) l
                (freeze_shares_lem c n (position_of (order_key o) l) sound fits le).2)
      ]

  reserve_buy :
      (o.side == side_buy) ≡ true
      → pos_part c ≤ pos_part (balance_of o.user_id l).available
      → ReserveMoves o l
          (reserved (record o { locked_funds = c }) (modify_balance o.user_id (freeze_cash c) l))
  reserve_buy e le =
      let fits : held_cash (balance_of o.user_id l) < 2 ^ 63 =
        omega (arith, held_cash-le l o.user_id, s.cash_fits) in
      let f = freeze_cash_lem c n (balance_of o.user_id l) (s.balances o.user_id) fits le in
      let moved = cash-modify_balance l o.user_id (freeze_cash c) in
      let same : cash (modify_balance o.user_id (freeze_cash c) l) ≡ cash l =
        omega (arith, moved, f.1) in
      (
        modify_balance-IsSound o.user_id (freeze_cash c) l f.0 (omega (arith, same, s.cash_fits)) s,
        same,
        shares-modify_balance l o.user_id (freeze_cash c),
        n,
        release_buy e le,
      )

  reserve_sell :
      (o.side == side_buy) ≡ false
      → pos_part c ≤ pos_part (position_of (order_key o) l).available
      → ReserveMoves o l (
          reserved
            (record o { locked_funds = c })
            (modify_position (order_key o) (freeze_shares c) l))
  reserve_sell e le =
      let fits : held_shares (position_of (order_key o) l) < 2 ^ 63 =
        omega (arith, held_shares-le l (order_key o), s.shares_fit) in
      let f =
        freeze_shares_lem c n (position_of (order_key o) l) (s.positions (order_key o)) fits le in
      let moved = shares-modify_position l (order_key o) (freeze_shares c) in
      let same : shares (modify_position (order_key o) (freeze_shares c) l) ≡ shares l =
        omega (arith, moved, f.1) in
      (
        modify_position-IsSound (order_key o) (freeze_shares c) l f.0
            (omega (arith, same, s.shares_fit)) s,
        cash-modify_position l (order_key o) (freeze_shares c),
        same,
        n,
        release_sell e le,
      )

not_short : (a c : ℤ) → Nat64 a → Nat64 c → ltb_ℤ a c ≡ false → pos_part c ≤ pos_part a
not_short a c p q e = ground arith

-- A reservation either refuses and leaves every holding as it was, or moves no cash and no share
-- out of the ledger, keeps it sound, and is taken back exactly by a release. The cost that the
-- order has must be a non-negative int64, as it is where the product does not wrap.
pub reserve_order-Moves :
    (o : Order) (l : Ledger)
    → IsSound l
    → Nat64 (reserve_cost o l)
    → Nat64 o.remaining_quantity
    → ReserveMoves o l (reserve_order o l)
unfolding reserve_order
reserve_order-Moves o l s n r =
    let have : ℤ = (balance_of o.user_id l).available in
    let held : ℤ = (position_of (order_key o) l).available in
    elim (Bool-cases (o.side == side_buy)) [
      | inl buy ↦ elim (Bool-cases (ltb_ℤ have (reserve_cost o l))) [
        | inl short ↦ rw (buy, short) (modify_balance_same o.user_id (λ b. b) l refl)
        | inr enough ↦
            rw (buy, enough)
              (reserve_buy o (reserve_cost o l) l s n buy
                (not_short have (reserve_cost o l) (s.balances o.user_id).0 n enough))
      ]
      | inr sell ↦ elim (Bool-cases (ltb_ℤ held o.remaining_quantity)) [
        | inl short ↦ rw (sell, short) (modify_position_same (order_key o) (λ p. p) l refl)
        | inr enough ↦
            rw (sell, enough)
              (reserve_sell o o.remaining_quantity l s r sell
                (not_short held o.remaining_quantity (s.positions (order_key o)).0 r enough))
      ]
    ]
