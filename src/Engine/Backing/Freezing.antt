-- ===== src/Engine/Backing/Freezing.antt =====
-- Freezing an amount of a holding for a new order, as the reserved amounts and the locks see it.
use predix_go_backend.Base.{
  ℕ, suc, ◌+◌, ◌≤◌, ◌≡◌, ap, ◌∙◌, String, true, false, arith, ◌==◌, if◌then◌else◌, string_eq,
  nat_eq, ℤ, pos_part, Nat64, add64_nat, Bool-cases, inl, inr, beq_refl,
}
use predix_go_backend.Engine.Types.{Order, Heap, Balance, Position, store}
use predix_go_backend.Engine.Ledger.{
  Ledger, balance_of, position_of, modify_balance, modify_position, order_key, freeze_cash,
  freeze_shares,
}
use predix_go_backend.Engine.Ledger.Totals.{
  IsSound, held_cash-le, held_shares-le, balance_of-modify_position, position_of-modify_balance,
}
use predix_go_backend.Engine.Backing.{is_buy, tally, cash_lock, share_lock, IsBacked}
use predix_go_backend.Engine.Backing.Tallies.{
  tally-store_above, cash_lock-buy, cash_lock-sell, share_lock-buy, share_lock-sell,
}
use predix_go_backend.Engine.Backing.Holdings.{
  reserved_cash, reserved_shares, reserved_cash-modify, reserved_shares-modify,
}

-- The sum with one more order.
pub tally-more :
    (g : Order → ℕ) (o : Order) (h : Heap) (n : ℕ)
    → tally (λ q. g (store n o h q)) (suc n) ≡ g o + tally (λ q. g (h q)) n
unfolding tally
tally-more g o h n =
    rw (beq_refl n) (ap (λ (x : ℕ). g o + x) (tally-store_above g n o h n (omega arith)))

-- A write that reads as before in its reserved parts, or adds to one of them.
module _ (c : ℤ) (n : Nat64 c) (l : Ledger) (s : IsSound l) where
  pub frozen_cash :
      (user other : String)
      → pos_part c ≤ pos_part (balance_of user l).available
      → reserved_cash other (modify_balance user (freeze_cash c) l)
        ≡ reserved_cash other l + (if user == other then pos_part c else 0)
  unfolding freeze_cash
  frozen_cash user other le =
      let fits = held_cash-le l user in
      let r =
        add64_nat (balance_of user l).reserved c (s.balances user).1 n
          (omega (arith, fits, s.cash_fits, le)) in
      reserved_cash-modify l user other (freeze_cash c) ∙ elim (Bool-cases (user == other)) [
        | inl hit ↦ rw hit (
            r.1
            ∙ ap (λ (u : String). reserved_cash u l + pos_part c)
                ((string_eq.beq_iff user other).0 hit))
        | inr miss ↦ rw miss (omega arith)
      ]

  pub frozen_shares :
      (key other : String)
      → pos_part c ≤ pos_part (position_of key l).available
      → reserved_shares other (modify_position key (freeze_shares c) l)
        ≡ reserved_shares other l + (if key == other then pos_part c else 0)
  unfolding freeze_shares
  frozen_shares key other le =
      let fits = held_shares-le l key in
      let r =
        add64_nat (position_of key l).reserved c (s.positions key).1 n
          (omega (arith, fits, s.shares_fit, le)) in
      reserved_shares-modify l key other (freeze_shares c) ∙ elim (Bool-cases (key == other)) [
        | inl hit ↦ rw hit (
            r.1
            ∙ ap (λ (u : String). reserved_shares u l + pos_part c)
                ((string_eq.beq_iff key other).0 hit))
        | inr miss ↦ rw miss (omega arith)
      ]

-- The order with what it has locked.
abbrev pub holding : ℤ → Order → Order
holding z o = record o { locked_funds = z }

module _ (o : Order) (h : Heap) (n : ℕ) (l : Ledger) (b : IsBacked h n l) (z : ℤ)
    (nz : Nat64 z) where
  pub back_buy :
      is_buy o ≡ true
      → pos_part z ≤ pos_part (balance_of o.user_id l).available
      → IsSound (modify_balance o.user_id (freeze_cash z) l)
      → IsBacked (store n (holding z o) h) (suc n) (modify_balance o.user_id (freeze_cash z) l)
  back_buy buy le sound = record {
    sound = sound;
    balances = λ user.
        let sum = tally-more (cash_lock user) (holding z o) h n in
        let own = cash_lock-buy (holding z o) user buy in
        let after = frozen_cash z nz l b.sound o.user_id user le in
        omega (arith, sum, own, after, b.balances user);
    positions = λ key.
        let sum = tally-more (share_lock key) (holding z o) h n in
        let own = share_lock-buy (holding z o) key buy in
        let after =
          ap (λ (r : Position). pos_part r.reserved)
            (position_of-modify_balance l key o.user_id (freeze_cash z)) in
        omega (arith, sum, own, after, b.positions key);
  }

  pub back_sell :
      is_buy o ≡ false
      → pos_part z ≤ pos_part (position_of (order_key o) l).available
      → IsSound (modify_position (order_key o) (freeze_shares z) l)
      → IsBacked
          (store n (holding z o) h)
          (suc n)
          (modify_position (order_key o) (freeze_shares z) l)
  back_sell sell le sound = record {
    sound = sound;
    balances = λ user.
        let sum = tally-more (cash_lock user) (holding z o) h n in
        let own = cash_lock-sell (holding z o) user sell in
        let after =
          ap (λ (r : Balance). pos_part r.reserved)
            (balance_of-modify_position l user (order_key o) (freeze_shares z)) in
        omega (arith, sum, own, after, b.balances user);
    positions = λ key.
        let sum = tally-more (share_lock key) (holding z o) h n in
        let own = share_lock-sell (holding z o) key sell in
        let after = frozen_shares z nz l b.sound (order_key o) key le in
        omega (arith, sum, own, after, b.positions key);
  }
