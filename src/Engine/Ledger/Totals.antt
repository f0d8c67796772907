-- ===== src/Engine/Ledger/Totals.antt =====
-- All the cash and all the shares that the ledger holds, and how one write changes them.
use predix_go_backend.Base.{
  ℕ, ◌+◌, ◌^◌, ◌≤◌, ◌<◌, ◌≡◌, refl, String, [], ◌∷◌, arith, ◌==◌, if◌then◌else◌, string_eq,
  pos_part, Nat64, Bool-cases, inl, inr,
}
use predix_go_backend.Dict.{Dict, lookup, insert, lookup-insert}
use predix_go_backend.Engine.Types.{Balance, Position}
use predix_go_backend.Engine.Ledger.{
  Ledger, or_zero, zero_balance, zero_position, balance_of, modify_balance, position_of,
  modify_position,
}

module _ {V : Type 0} (held : V → ℕ) where
  abbrev pub total : Dict V → ℕ
  total [] = 0
  total ((k, v) ∷ d) = held v + total d

  pub total-insert :
      (z : V) (k : String) (v : V) (d : Dict V)
      → held z ≡ 0
      → total (insert k v d) + held (or_zero z (lookup k d)) ≡ total d + held v
  unfolding lookup insert
  total-insert z k v [] e = omega arith
  total-insert z k v ((j, w) ∷ d) e = ground (arith, total-insert z k v d e)

  pub held-le-total :
      (z : V) (k : String) (d : Dict V) → held z ≡ 0 → held (or_zero z (lookup k d)) ≤ total d
  unfolding lookup
  held-le-total z k [] e = omega arith
  held-le-total z k ((j, w) ∷ d) e = ground (arith, held-le-total z k d e)

abbrev pub held_cash : Balance → ℕ
held_cash b = pos_part b.available + pos_part b.reserved

abbrev pub held_shares : Position → ℕ
held_shares p = pos_part p.available + pos_part p.reserved

-- All cash, and all shares of all outcomes.
abbrev pub cash : Ledger → ℕ
cash l = total held_cash l.balances

abbrev pub shares : Ledger → ℕ
shares l = total held_shares l.positions

abbrev pub BalanceIsSound : Balance → Type 0
BalanceIsSound b = Nat64 b.available × Nat64 b.reserved

abbrev pub PositionIsSound : Position → Type 0
PositionIsSound p = Nat64 p.available × Nat64 p.reserved

-- No holding is negative, and what there is in all fits an int64.
pub record IsSound (l : Ledger) : Type 0 where
  pub balances : (user : String) → BalanceIsSound (balance_of user l)
  pub positions : (key : String) → PositionIsSound (position_of key l)
  pub cash_fits : cash l < 2 ^ 63
  pub shares_fit : shares l < 2 ^ 63

module _ (l : Ledger) where
  pub balance_of-modify_balance :
      (user other : String) (f : Balance → Balance)
      → balance_of other (modify_balance user f l)
        ≡ (if user == other then f (balance_of user l) else balance_of other l)
  unfolding balance_of modify_balance
  balance_of-modify_balance user other f =
      ground (arith, lookup-insert user other (f (balance_of user l)) l.balances)

  pub position_of-modify_balance :
      (key user : String) (f : Balance → Balance)
      → position_of key (modify_balance user f l) ≡ position_of key l
  unfolding position_of modify_balance
  position_of-modify_balance key user f = refl

  pub position_of-modify_position :
      (key other : String) (f : Position → Position)
      → position_of other (modify_position key f l)
        ≡ (if key == other then f (position_of key l) else position_of other l)
  unfolding position_of modify_position
  position_of-modify_position key other f =
      ground (arith, lookup-insert key other (f (position_of key l)) l.positions)

  pub balance_of-modify_position :
      (user key : String) (f : Position → Position)
      → balance_of user (modify_position key f l) ≡ balance_of user l
  unfolding balance_of modify_position
  balance_of-modify_position user key f = refl

  pub cash-modify_balance :
      (user : String) (f : Balance → Balance)
      → cash (modify_balance user f l) + held_cash (balance_of user l)
        ≡ cash l + held_cash (f (balance_of user l))
  unfolding balance_of modify_balance
  cash-modify_balance user f = total-insert held_cash zero_balance user _ l.balances refl

  pub shares-modify_balance :
      (user : String) (f : Balance → Balance) → shares (modify_balance user f l) ≡ shares l
  unfolding modify_balance
  shares-modify_balance user f = refl

  pub shares-modify_position :
      (key : String) (f : Position → Position)
      → shares (modify_position key f l) + held_shares (position_of key l)
        ≡ shares l + held_shares (f (position_of key l))
  unfolding position_of modify_position
  shares-modify_position key f = total-insert held_shares zero_position key _ l.positions refl

  pub cash-modify_position :
      (key : String) (f : Position → Position) → cash (modify_position key f l) ≡ cash l
  unfolding modify_position
  cash-modify_position key f = refl

  pub held_cash-le : (user : String) → held_cash (balance_of user l) ≤ cash l
  unfolding balance_of
  held_cash-le user = held-le-total held_cash zero_balance user l.balances refl

  pub held_shares-le : (key : String) → held_shares (position_of key l) ≤ shares l
  unfolding position_of
  held_shares-le key = held-le-total held_shares zero_position key l.positions refl

-- A write of a sound entry that keeps the total within an int64 keeps the ledger sound.
pub modify_balance-IsSound :
    (user : String) (f : Balance → Balance) (l : Ledger)
    → BalanceIsSound (f (balance_of user l))
    → cash (modify_balance user f l) < 2 ^ 63
    → IsSound l
    → IsSound (modify_balance user f l)
modify_balance-IsSound user f l good fits s = record {
  balances = λ other. elim (Bool-cases (user == other)) [
    | inl e ↦ rw (balance_of-modify_balance l user other f, e) good
    | inr e ↦ rw (balance_of-modify_balance l user other f, e) (s.balances other)
  ];
  positions = λ key. rw (position_of-modify_balance l key user f) (s.positions key);
  cash_fits = fits;
  shares_fit = rw (shares-modify_balance l user f) s.shares_fit;
}

pub modify_position-IsSound :
    (key : String) (f : Position → Position) (l : Ledger)
    → PositionIsSound (f (position_of key l))
    → shares (modify_position key f l) < 2 ^ 63
    → IsSound l
    → IsSound (modify_position key f l)
modify_position-IsSound key f l good fits s = record {
  balances = λ user. rw (balance_of-modify_position l user key f) (s.balances user);
  positions = λ other. elim (Bool-cases (key == other)) [
    | inl e ↦ rw (position_of-modify_position l key other f, e) good
    | inr e ↦ rw (position_of-modify_position l key other f, e) (s.positions other)
  ];
  cash_fits = rw (cash-modify_position l key f) s.cash_fits;
  shares_fit = fits;
}
