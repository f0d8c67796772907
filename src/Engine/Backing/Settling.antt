-- ===== src/Engine/Backing/Settling.antt =====
-- Settling the trades of a match keeps every reserved amount equal to the locks behind it, and all
-- cash and all shares as they were.
use predix_go_backend.Base.{
  ℕ, ◌+◌, ◌^◌, ◌≤◌, ◌<◌, ◌≡◌, refl, ◌∙◌, subst, String, true, false, ◌||◌, List, ◌∷◌, arith, ◌==◌,
  if◌then◌else◌, string_eq, nat_eq, pos_part, Nat64, Bool-cases, inl, inr, beq_refl,
}
use predix_go_backend.Dict.{Dict}
use predix_go_backend.Engine.Types.{Trade, Heap}
use predix_go_backend.Engine.Ledger.{Ledger, order_key, position_key, unlock, settle_holdings}
use predix_go_backend.Engine.Ledger.Totals.{cash, shares, held_cash-le, held_shares-le}
use predix_go_backend.Engine.Ledger.Settlement.{Fits, settle_holdings_totals}
use predix_go_backend.Engine.Backing.{
  is_buy, tally, cash_lock, share_lock, amount, charge, IsCovered, IsBacked, IsGenuine,
}
use predix_go_backend.Engine.Backing.Holdings.{
  reserved_cash, reserved_shares, settle_holdings-reserved,
}
use predix_go_backend.Engine.Backing.Unlocking.{
  cost, cash_lock-unlock, share_lock-unlock, unlock_pair, tally-unlock_pair,
}
use predix_go_backend.Engine.Backing.Charging.{charge-at, IsCovered-settled, IsCovered-other}

-- One trade of orders that cover it.
module _ (orders : Dict ℕ) (h : Heap) (n : ℕ) (l : Ledger) (E : ℕ → Type 0) (t : Trade)
    (ts : List Trade) (g : IsGenuine orders h E t)
    (cover : (p : ℕ) → E p → IsCovered orders n (t ∷ ts) p (h p)) (backed : IsBacked h n l) where
  charged :
      (p : ℕ)
      → (g.taker == p) || (g.maker == p) ≡ true
      → charge orders (is_buy (h p)) p t ≡ amount (is_buy (h p)) t
  charged p e =
      charge-at orders t g.taker g.maker g.taker_named g.maker_named g.distinct (is_buy (h p)) p
      ∙ rw e refl

  uncharged :
      (p : ℕ) → (g.taker == p) || (g.maker == p) ≡ false → charge orders (is_buy (h p)) p t ≡ 0
  uncharged p e =
      charge-at orders t g.taker g.maker g.taker_named g.maker_named g.distinct (is_buy (h p)) p
      ∙ rw e refl

  party :
      (p : ℕ)
      → E p
      → (g.taker == p) || (g.maker == p) ≡ true
      → (amount (is_buy (h p)) t ≤ pos_part (h p).locked_funds)
        × IsCovered orders n ts p (unlock t (h p))
  party p e is_party =
      IsCovered-settled orders n t ts p (h p) g.quantity g.price (charged p is_party) (cover p e)

  pub covers : (p : ℕ) → E p → IsCovered orders n ts p (unlock_pair g.taker g.maker t h p)
  covers p e = elim (Bool-cases (p == g.maker)) [
    | inl hit ↦
        let same : p ≡ g.maker = (nat_eq.beq_iff p g.maker).0 hit in
        rw hit (
          subst (λ (x : ℕ). IsCovered orders n ts p (unlock t (h x))) same
            (party p e (ground (arith, same))).1)
    | inr miss ↦ elim (Bool-cases (p == g.taker)) [
      | inl hit ↦
          let same : p ≡ g.taker = (nat_eq.beq_iff p g.taker).0 hit in
          rw (miss, hit)
            (subst (λ (x : ℕ). IsCovered orders n ts p (unlock t (h x))) same
              (party p e (ground (arith, same))).1)
      | inr other ↦
          rw (miss, other)
            (IsCovered-other orders n t ts p (h p) (uncharged p (ground arith)) (cover p e))
    ]
  ]

  taker_party : amount (is_buy (h g.taker)) t ≤ pos_part (h g.taker).locked_funds
  taker_party = (party g.taker g.engaged.0 (rw (beq_refl g.taker) refl)).0

  maker_party : amount (is_buy (h g.maker)) t ≤ pos_part (h g.maker).locked_funds
  maker_party = (party g.maker g.engaged.1 (rw (beq_refl g.maker) (ground arith))).0

  taker_lock : Nat64 (h g.taker).locked_funds
  taker_lock = (cover g.taker g.engaged.0).lock

  maker_lock : Nat64 (h g.maker).locked_funds
  maker_lock = (cover g.maker g.engaged.1).lock

  -- The buyer's order pays the cost, and the seller's order gives the shares.
  cash_parts :
      (user : String)
      → (if is_buy (h g.taker) then (if (h g.taker).user_id == user then cost t else 0) else 0)
          + (if is_buy (h g.maker) then (if (h g.maker).user_id == user then cost t else 0) else 0)
        ≡ (if t.buyer_id == user then cost t else 0)
  cash_parts user = elim (Bool-cases (is_buy (h g.taker))) [
    | inl buy ↦ rw (g.buyer, g.sides, buy) (omega arith)
    | inr sell ↦ rw (g.buyer, g.sides, sell) (omega arith)
  ]

  share_parts :
      (key : String)
      → (if is_buy (h g.taker)
            then 0
            else (if order_key (h g.taker) == key then pos_part t.quantity else 0))
          + (if is_buy (h g.maker)
              then 0
              else (if order_key (h g.maker) == key then pos_part t.quantity else 0))
        ≡ (if position_key t.seller_id t.event_id t.outcome == key then pos_part t.quantity else 0)
  share_parts key = elim (Bool-cases (is_buy (h g.taker))) [
    | inl buy ↦ rw (g.seller, g.sides, buy) (omega arith)
    | inr sell ↦ rw (g.seller, g.sides, sell) (omega arith)
  ]

  cash_tally :
      (user : String)
      → tally (λ p. cash_lock user (unlock_pair g.taker g.maker t h p)) n
          + (if t.buyer_id == user then cost t else 0)
        ≡ reserved_cash user l
  cash_tally user =
      let whole =
        tally-unlock_pair (cash_lock user) g.taker g.maker t h n
          (cover g.taker g.engaged.0).allocated (cover g.maker g.engaged.1).allocated g.distinct in
      let a = cash_lock-unlock t g.quantity g.price (h g.taker) user taker_lock taker_party in
      let b = cash_lock-unlock t g.quantity g.price (h g.maker) user maker_lock maker_party in
      omega (arith, whole, a, b, cash_parts user, backed.balances user)

  share_tally :
      (key : String)
      → tally (λ p. share_lock key (unlock_pair g.taker g.maker t h p)) n
          + (if position_key t.seller_id t.event_id t.outcome == key
              then pos_part t.quantity
              else 0)
        ≡ reserved_shares key l
  share_tally key =
      let whole =
        tally-unlock_pair (share_lock key) g.taker g.maker t h n
          (cover g.taker g.engaged.0).allocated (cover g.maker g.engaged.1).allocated g.distinct in
      let a = share_lock-unlock t g.quantity g.price (h g.taker) key taker_lock taker_party in
      let b = share_lock-unlock t g.quantity g.price (h g.maker) key maker_lock maker_party in
      omega (arith, whole, a, b, share_parts key, backed.positions key)

  -- What is reserved is enough for the trade.
  cash_enough : cost t ≤ reserved_cash t.buyer_id l
  cash_enough = let e = rw (beq_refl t.buyer_id) at (cash_tally t.buyer_id) in omega (arith, e)

  shares_enough :
      pos_part t.quantity ≤ reserved_shares (position_key t.seller_id t.event_id t.outcome) l
  shares_enough =
      let key : String = position_key t.seller_id t.event_id t.outcome in
      let e = rw (beq_refl key) at (share_tally key) in omega (arith, e)

  pub settled_one :
      cash l < 2 ^ 62
      → shares l < 2 ^ 62
      → IsBacked (unlock_pair g.taker g.maker t h) n (settle_holdings t l)
        × (cash (settle_holdings t l) ≡ cash l)
        × (shares (settle_holdings t l) ≡ shares l)
  settled_one small few =
      let key : String = position_key t.seller_id t.event_id t.outcome in
      let in_cash = held_cash-le l t.buyer_id in
      let in_shares = held_shares-le l key in
      let fits : Fits t l = record {
        quantity = g.quantity;
        price = g.price;
        cash_room = omega (arith, cash_enough, in_cash, small);
        shares_room = omega (arith, shares_enough, in_shares, few);
      } in
      let all = settle_holdings_totals t l backed.sound fits in
      let reads =
        settle_holdings-reserved t l backed.sound g.quantity g.price
          (omega (arith, fits.cash_room)) in
      (
        record {
          sound = all.0;
          balances = λ user. omega (arith, reads.0 user, cash_tally user);
          positions = λ k. omega (arith, reads.1 k, share_tally k);
        },
        omega (arith, all.1, cash_enough),
        omega (arith, all.2, shares_enough),
      )
