-- ===== src/Engine/Backing/Release.antt =====
-- `releaseOrderLocked`: what an order has left locked goes back, and its lock is gone.
use predix_go_backend.Base.{
  ℕ, ◌+◌, ◌-◌, ◌^◌, ◌≤◌, ◌<◌, ◌≡◌, refl, ap, ◌∙◌, sym, String, true, false, arith, ◌==◌, string_eq,
  nat_eq, ℤ, pos, pos_part, Nat64, leb_ℤ, add64_nat, Bool-cases, inl, inr, beq_refl,
}
use predix_go_backend.Engine.Types.{Order, Heap, Balance, Position, store, side_buy}
use predix_go_backend.Engine.Ledger.{
  Ledger, balance_of, position_of, modify_balance, modify_position, order_key, thaw_cash,
  thaw_shares, release_order,
}
use predix_go_backend.Engine.Ledger.Totals.{
  cash, shares, held_cash, held_shares, BalanceIsSound, PositionIsSound, held_cash-le,
  held_shares-le, cash-modify_balance, cash-modify_position, shares-modify_balance,
  shares-modify_position, modify_balance-IsSound, modify_position-IsSound,
  balance_of-modify_position, position_of-modify_balance,
}
use predix_go_backend.Engine.Ledger.Settlement.{clamp_sub}
use predix_go_backend.Engine.Backing.{is_buy, tally, cash_lock, share_lock, IsBacked}
use predix_go_backend.Engine.Matching.Terms.{terms, SameTerms}
use predix_go_backend.Engine.Backing.Tallies.{
  tally-store, cash_lock-buy, cash_lock-sell, share_lock-buy, share_lock-sell,
}
use predix_go_backend.Engine.Backing.Funded.{IsBacked-same}
use predix_go_backend.Engine.Backing.Holdings.{
  reserved_cash, reserved_shares, reserved_cash-modify, reserved_shares-modify,
}

module _ (c : ℤ) (n : Nat64 c) where
  thaw_cash_lem :
      (b : Balance)
      → BalanceIsSound b
      → held_cash b < 2 ^ 63
      → pos_part c ≤ pos_part b.reserved
      → BalanceIsSound (thaw_cash c b)
        × (held_cash (thaw_cash c b) ≡ held_cash b)
        × (pos_part (thaw_cash c b).reserved ≡ pos_part b.reserved - pos_part c)
  unfolding thaw_cash
  thaw_cash_lem b s fits le =
      let a = add64_nat b.available c s.0 n (omega arith) in
      let r = clamp_sub b.reserved c s.1 n in
      (((a.0, omega arith), (r.0, omega arith)), omega arith, r.1)

  thaw_shares_lem :
      (b : Position)
      → PositionIsSound b
      → held_shares b < 2 ^ 63
      → pos_part c ≤ pos_part b.reserved
      → PositionIsSound (thaw_shares c b)
        × (held_shares (thaw_shares c b) ≡ held_shares b)
        × (pos_part (thaw_shares c b).reserved ≡ pos_part b.reserved - pos_part c)
  unfolding thaw_shares
  thaw_shares_lem b s fits le =
      let a = add64_nat b.available c s.0 n (omega arith) in
      let r = clamp_sub b.reserved c s.1 n in
      (((a.0, omega arith), (r.0, omega arith)), omega arith, r.1)

-- What a release must have done to the state it is taken from.
pub record IsReleased (h : Heap) (n : ℕ) (l : Ledger) (h' : Heap) (l' : Ledger) : Type 0 where
  pub backed : IsBacked h' n l'
  pub cash_kept : cash l' ≡ cash l
  pub shares_kept : shares l' ≡ shares l

-- An order whose lock is gone.
abbrev pub unlocked : Order → Order
unlocked o = record o { locked_funds = pos 0 }

cash_lock-unlocked : (user : String) (o : Order) → cash_lock user (unlocked o) ≡ 0
unfolding cash_lock
cash_lock-unlocked user o = ground arith

share_lock-unlocked : (key : String) (o : Order) → share_lock key (unlocked o) ≡ 0
unfolding share_lock
share_lock-unlocked key o = ground arith

same_at : (h : Heap) (p q : ℕ) → store p (h p) h q ≡ h q
same_at h p q = elim (Bool-cases (q == p)) [
  | inl hit ↦ rw hit (ap h (sym ((nat_eq.beq_iff q p).0 hit)))
  | inr miss ↦ rw miss refl
]

same_terms : (h : Heap) (p : ℕ) → SameTerms h (store p (h p) h)
same_terms h p q = ap terms (same_at h p q)

same_locks : (h : Heap) (p q : ℕ) → (store p (h p) h q).locked_funds ≡ (h q).locked_funds
same_locks h p q = ap (λ (o : Order). o.locked_funds) (same_at h p q)

module _ (h : Heap) (n : ℕ) (l : Ledger) (p : ℕ) (lt : p < n) (lock : Nat64 (h p).locked_funds)
    (b : IsBacked h n l) where
  abbrev o : Order
  o = h p

  cash_left :
      (user : String)
      → tally (λ q. cash_lock user (store p (unlocked o) h q)) n + cash_lock user o
        ≡ reserved_cash user l
  cash_left user =
      let t = tally-store (cash_lock user) p (unlocked o) h n lt in
      omega (arith, t, cash_lock-unlocked user o, b.balances user)

  shares_left :
      (key : String)
      → tally (λ q. share_lock key (store p (unlocked o) h q)) n + share_lock key o
        ≡ reserved_shares key l
  shares_left key =
      let t = tally-store (share_lock key) p (unlocked o) h n lt in
      omega (arith, t, share_lock-unlocked key o, b.positions key)

  release_buy :
      is_buy o ≡ true
      → IsReleased h n l
          (store p (unlocked o) h)
          (modify_balance o.user_id (thaw_cash o.locked_funds) l)
  release_buy buy =
      let f = thaw_cash o.locked_funds in
      let lock_of = λ (user : String). cash_lock-buy o user buy in
      let own : cash_lock o.user_id o ≡ pos_part o.locked_funds =
        lock_of o.user_id ∙ rw (beq_refl o.user_id) refl in
      let fits = held_cash-le l o.user_id in
      let x =
        thaw_cash_lem o.locked_funds lock (balance_of o.user_id l) (b.sound.balances o.user_id)
          (omega (arith, fits, b.sound.cash_fits)) (omega (arith, own, cash_left o.user_id)) in
      let moved = cash-modify_balance l o.user_id f in
      let same : cash (modify_balance o.user_id f l) ≡ cash l = omega (arith, moved, x.1) in
      record {
        backed = record {
          sound =
              modify_balance-IsSound o.user_id f l x.0 (omega (arith, same, b.sound.cash_fits))
                b.sound;
          balances = λ user. elim (Bool-cases (o.user_id == user)) [
            | inl hit ↦
                let e : reserved_cash o.user_id l ≡ reserved_cash user l =
                  ap (λ (u : String). reserved_cash u l)
                    ((string_eq.beq_iff o.user_id user).0 hit) in
                let after = rw hit at (reserved_cash-modify l o.user_id user f) in
                let locked = rw hit at (lock_of user) in
                omega (arith, e, after, locked, x.2, cash_left user)
            | inr miss ↦
                let after = rw miss at (reserved_cash-modify l o.user_id user f) in
                let locked = rw miss at (lock_of user) in
                omega (arith, after, locked, cash_left user)
          ];
          positions = λ key.
              let after =
                ap (λ (r : Position). pos_part r.reserved)
                  (position_of-modify_balance l key o.user_id f) in
              omega (arith, after, share_lock-buy o key buy, shares_left key);
        };
        cash_kept = same;
        shares_kept = shares-modify_balance l o.user_id f;
      }

  release_sell :
      is_buy o ≡ false
      → IsReleased h n l
          (store p (unlocked o) h)
          (modify_position (order_key o) (thaw_shares o.locked_funds) l)
  release_sell sell =
      let f = thaw_shares o.locked_funds in
      let k : String = order_key o in
      let lock_of = λ (key : String). share_lock-sell o key sell in
      let own : share_lock k o ≡ pos_part o.locked_funds = lock_of k ∙ rw (beq_refl k) refl in
      let fits = held_shares-le l k in
      let x =
        thaw_shares_lem o.locked_funds lock (position_of k l) (b.sound.positions k)
          (omega (arith, fits, b.sound.shares_fit)) (omega (arith, own, shares_left k)) in
      let moved = shares-modify_position l k f in
      let same : shares (modify_position k f l) ≡ shares l = omega (arith, moved, x.1) in
      record {
        backed = record {
          sound =
              modify_position-IsSound k f l x.0 (omega (arith, same, b.sound.shares_fit)) b.sound;
          balances = λ user.
              let after =
                ap (λ (r : Balance). pos_part r.reserved) (balance_of-modify_position l user k f) in
              omega (arith, after, cash_lock-sell o user sell, cash_left user);
          positions = λ key. elim (Bool-cases (k == key)) [
            | inl hit ↦
                let e : reserved_shares k l ≡ reserved_shares key l =
                  ap (λ (u : String). reserved_shares u l) ((string_eq.beq_iff k key).0 hit) in
                let after = rw hit at (reserved_shares-modify l k key f) in
                let locked = rw hit at (lock_of key) in
                omega (arith, e, after, locked, x.2, shares_left key)
            | inr miss ↦
                let after = rw miss at (reserved_shares-modify l k key f) in
                let locked = rw miss at (lock_of key) in
                omega (arith, after, locked, shares_left key)
          ];
        };
        cash_kept = cash-modify_position l k f;
        shares_kept = same;
      }

  -- A release keeps the books, whatever the order has left.
  pub release_order-IsReleased :
      IsReleased h n l (store p (release_order o l).0 h) (release_order o l).1
  unfolding release_order
  release_order-IsReleased = elim (Bool-cases (leb_ℤ o.locked_funds (pos 0))) [
    | inl none_left ↦ rw none_left (record {
      backed = IsBacked-same h (store p o h) n l (same_terms h p) (same_locks h p) b;
      cash_kept = refl;
      shares_kept = refl;
    })
    | inr some_left ↦ elim (Bool-cases (o.side == side_buy)) [
      | inl buy ↦ rw (some_left, buy) (release_buy buy)
      | inr sell ↦ rw (some_left, sell) (release_sell sell)
    ]
  ]
