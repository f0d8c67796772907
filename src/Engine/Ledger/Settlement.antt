-- ===== src/Engine/Ledger/Settlement.antt =====
-- What settling a trade does to the totals: it conserves cash and shares where the two sides have
-- reserved what they give, and otherwise creates exactly what was missing.
use predix_go_backend.Base.{
  ℕ, ◌+◌, ◌-◌, ◌*◌, ◌^◌, ◌<◌, ◌≡◌, ap, ◌∙◌, String, arith, string_eq, ℤ, pos, negsuc, pos_part,
  neg_part, Nat64, sub64, mul64, add64_nat, mul64_nat,
}
use predix_go_backend.Engine.Types.{Balance, Position, Trade}
use predix_go_backend.Engine.Ledger.{
  Ledger, balance_of, modify_balance, position_of, modify_position, position_key, clamp, pay_cash,
  get_cash, get_shares, give_shares, settle_holdings,
}
use predix_go_backend.Engine.Ledger.Totals.{
  cash, shares, IsSound, position_of-modify_balance, position_of-modify_position,
  cash-modify_balance, cash-modify_position, shares-modify_balance, shares-modify_position,
  held_cash-le, held_shares-le, modify_balance-IsSound, modify_position-IsSound,
}

pub clamp_sub :
    (a b : ℤ)
    → Nat64 a
    → Nat64 b
    → (neg_part (clamp (sub64 a b)) ≡ 0) × (pos_part (clamp (sub64 a b)) ≡ pos_part a - pos_part b)
unfolding clamp sub64
clamp_sub (pos a) (pos b) p q = ground arith
clamp_sub (negsuc a) b p q = absurd (omega arith)
clamp_sub (pos a) (negsuc b) p q = absurd (omega arith)

module _ (user : String) (c : ℤ) (l : Ledger) (n : Nat64 c) (s : IsSound l) where
  -- Paying takes the amount off the reserved cash, or all of it where that is less.
  pub pay_cash_lem :
      let l' = modify_balance user (pay_cash c) l in
      IsSound l'
      × (cash l' + pos_part (balance_of user l).reserved
          ≡ cash l + (pos_part (balance_of user l).reserved - pos_part c))
  unfolding pay_cash
  pay_cash_lem =
      let b : Balance = balance_of user l in
      let r = clamp_sub b.reserved c (s.balances user).1 n in
      let moved = cash-modify_balance l user (pay_cash c) in
      (
        modify_balance-IsSound user (pay_cash c) l
            ((s.balances user).0, omega (arith, r.0, r.1, (s.balances user).1))
            (omega (arith, moved, r.0, r.1, s.cash_fits)) s,
        omega (arith, moved, r.0, r.1),
      )

  -- Receiving adds it to the available cash.
  pub get_cash_lem :
      cash l + pos_part c < 2 ^ 63
      → let l' = modify_balance user (get_cash c) l in IsSound l' × (cash l' ≡ cash l + pos_part c)
  unfolding get_cash
  get_cash_lem fits =
      let b : Balance = balance_of user l in
      let le = held_cash-le l user in
      let r = add64_nat b.available c (s.balances user).0 n (omega arith) in
      let moved = cash-modify_balance l user (get_cash c) in
      (
        modify_balance-IsSound user (get_cash c) l (omega arith, (s.balances user).1) (omega arith)
            s,
        omega arith,
      )

module _ (key : String) (c : ℤ) (l : Ledger) (n : Nat64 c) (s : IsSound l) where
  pub give_shares_lem :
      let l' = modify_position key (give_shares c) l in
      IsSound l'
      × (shares l' + pos_part (position_of key l).reserved
          ≡ shares l + (pos_part (position_of key l).reserved - pos_part c))
  unfolding give_shares
  give_shares_lem =
      let b : Position = position_of key l in
      let r = clamp_sub b.reserved c (s.positions key).1 n in
      let moved = shares-modify_position l key (give_shares c) in
      (
        modify_position-IsSound key (give_shares c) l
            ((s.positions key).0, omega (arith, r.0, r.1, (s.positions key).1))
            (omega (arith, moved, r.0, r.1, s.shares_fit)) s,
        omega (arith, moved, r.0, r.1),
      )

  pub get_shares_lem :
      shares l + pos_part c < 2 ^ 63
      → let l' = modify_position key (get_shares c) l in
        IsSound l' × (shares l' ≡ shares l + pos_part c)
  unfolding get_shares
  get_shares_lem fits =
      let b : Position = position_of key l in
      let le = held_shares-le l key in
      let r = add64_nat b.available c (s.positions key).0 n (omega arith) in
      let moved = shares-modify_position l key (get_shares c) in
      (
        modify_position-IsSound key (get_shares c) l (omega arith, (s.positions key).1)
            (omega arith) s,
        omega arith,
      )

-- The buyer's reserved cash stands behind the trade, and the seller's reserved shares.
abbrev pub cash_behind : Trade → Ledger → ℕ
cash_behind t l = pos_part (balance_of t.buyer_id l).reserved

abbrev pub shares_behind : Trade → Ledger → ℕ
shares_behind t l =
    pos_part (position_of (position_key t.seller_id t.event_id t.outcome) l).reserved

-- The trade's numbers fit an int64, also on top of all that there is.
pub record Fits (t : Trade) (l : Ledger) : Type 0 where
  pub quantity : Nat64 t.quantity
  pub price : Nat64 t.price
  pub cash_room : cash l + pos_part t.quantity * pos_part t.price < 2 ^ 63
  pub shares_room : shares l + pos_part t.quantity < 2 ^ 63

-- The reserved shares of a key are not touched by the cash writes or by an arrival of shares.
pub reserved-get_shares :
    (key other : String) (n : ℤ) (l : Ledger)
    → (position_of other (modify_position key (get_shares n) l)).reserved
      ≡ (position_of other l).reserved
unfolding get_shares
reserved-get_shares key other n l =
    ground
      (arith, position_of-modify_position l key other (get_shares n), string_eq.beq_iff key other)

-- What settling a trade does to all cash and all shares: each total grows by what the receiver
-- gets and falls by what the giver had reserved of it.
pub settle_holdings_totals :
    (t : Trade) (l : Ledger)
    → IsSound l
    → Fits t l
    → let l' = settle_holdings t l in
      let cost = pos_part t.quantity * pos_part t.price in
      IsSound l'
      × (cash l' + cash_behind t l ≡ cash l + (cash_behind t l - cost) + cost)
      × (shares l' + shares_behind t l
          ≡ shares l + (shares_behind t l - pos_part t.quantity) + pos_part t.quantity)
unfolding settle_holdings
settle_holdings_totals t l s f =
    let c : ℤ = mul64 t.quantity t.price in
    let m = mul64_nat t.quantity t.price f.quantity f.price (omega (arith, f.cash_room)) in
    let n : Nat64 c = (m.0, omega (arith, m.1, f.cash_room)) in
    let l₁ : Ledger = modify_balance t.buyer_id (pay_cash c) l in
    let k : String = position_key t.buyer_id t.event_id t.outcome in
    let k' : String = position_key t.seller_id t.event_id t.outcome in
    let l₂ : Ledger = modify_position k (get_shares t.quantity) l₁ in
    let l₃ : Ledger = modify_balance t.seller_id (get_cash c) l₂ in
    let r₁ = pay_cash_lem t.buyer_id c l n s in
    let same_shares = shares-modify_balance l t.buyer_id (pay_cash c) in
    let r₂ =
      get_shares_lem k t.quantity l₁ f.quantity r₁.0 (omega (arith, same_shares, f.shares_room)) in
    let same_cash = cash-modify_position l₁ k (get_shares t.quantity) in
    let r₃ =
      get_cash_lem t.seller_id c l₂ n r₂.0 (omega (arith, same_cash, r₁.1, m.1, f.cash_room)) in
    let r₄ = give_shares_lem k' t.quantity l₃ f.quantity r₃.0 in
    let behind : (position_of k' l₃).reserved ≡ (position_of k' l).reserved =
      ap (λ (p : Position). p.reserved) (position_of-modify_balance l₂ k' t.seller_id (get_cash c))
      ∙ reserved-get_shares k k' t.quantity l₁
      ∙ ap (λ (p : Position). p.reserved)
          (position_of-modify_balance l k' t.buyer_id (pay_cash c)) in
    (
      r₄.0,
      omega
          (arith, cash-modify_position l₃ k' (give_shares t.quantity), r₃.1, same_cash, r₁.1, m.1),
      omega (
        arith,
        r₄.1,
        ap pos_part behind,
        shares-modify_balance l₂ t.seller_id (get_cash c),
        r₂.1,
        same_shares,
      ),
    )
