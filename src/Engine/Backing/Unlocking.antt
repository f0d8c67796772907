-- ===== src/Engine/Backing/Unlocking.antt =====
-- What settling a trade takes off the locks of its two orders, as settleOrderLocked of
-- internal/engine/ledger.go does it.
use predix_go_backend.Base.{
  ℕ, ◌+◌, ◌-◌, ◌*◌, ◌≤◌, ◌<◌, ◌≡◌, refl, ap, ◌∙◌, sym, String, false, some, arith, ◌==◌,
  if◌then◌else◌, string_eq, nat_eq, pos_part, Nat64, mul64, mul64_nat, Bool-cases, inl, inr,
}
use predix_go_backend.Dict.{Dict, lookup}
use predix_go_backend.Engine.Types.{Order, Trade, Heap, store, side_buy}
use predix_go_backend.Engine.Ledger.{order_key, unlock, unlock_order, settle_orders}
use predix_go_backend.Engine.Ledger.Settlement.{clamp_sub}
use predix_go_backend.Engine.Matching.Terms.{terms, SameTerms, store-SameTerms}
use predix_go_backend.Engine.Backing.{is_buy, tally, cash_lock, share_lock, due, gross, amount}
use predix_go_backend.Engine.Backing.Tallies.{tally-store}

abbrev pub cost : Trade → ℕ
cost t = pos_part t.quantity * pos_part t.price

-- The lock is all that is written.
pub unlock-parties :
    (t : Trade) (o : Order)
    → (is_buy (unlock t o) ≡ is_buy o)
      × ((unlock t o).user_id ≡ o.user_id)
      × (order_key (unlock t o) ≡ order_key o)
      × ((unlock t o).id ≡ o.id)
      × ((unlock t o).price ≡ o.price)
      × (due (unlock t o) ≡ due o)
unfolding unlock due gross
unlock-parties t o = (refl, refl, refl, refl, refl, refl)

module _ (t : Trade) (q : Nat64 t.quantity) (r : Nat64 t.price) (o : Order) where
  -- The lock falls by the amount of the trade.
  pub unlock_lem :
      Nat64 o.locked_funds
      → amount (is_buy o) t ≤ pos_part o.locked_funds
      → Nat64 (unlock t o).locked_funds
        × (pos_part (unlock t o).locked_funds ≡ pos_part o.locked_funds - amount (is_buy o) t)
  unfolding unlock
  unlock_lem lock le = elim (Bool-cases (o.side == side_buy)) [
    | inl buy ↦
        let le' : cost t ≤ pos_part o.locked_funds = rw buy at le in
        let m = mul64_nat t.quantity t.price q r (omega arith) in
        let c = clamp_sub o.locked_funds (mul64 t.quantity t.price) lock (m.0, omega arith) in
        rw buy ((c.0, omega arith), c.1 ∙ ap (λ (x : ℕ). pos_part o.locked_funds - x) m.1)
    | inr sell ↦
        let c = clamp_sub o.locked_funds t.quantity lock q in rw sell ((c.0, omega arith), c.1)
  ]

  pub cash_lock-unlock :
      (user : String)
      → Nat64 o.locked_funds
      → amount (is_buy o) t ≤ pos_part o.locked_funds
      → cash_lock user (unlock t o)
          + (if is_buy o then (if o.user_id == user then cost t else 0) else 0)
        ≡ cash_lock user o
  unfolding cash_lock
  cash_lock-unlock user lock le =
      let u = unlock_lem lock le in
      let same = unlock-parties t o in
      elim (Bool-cases (o.side == side_buy)) [
        | inr sell ↦ rw (same.0, sell) refl
        | inl buy ↦ elim (Bool-cases (o.user_id == user)) [
          | inr other ↦ rw (same.0, same.1, buy, other) refl
          | inl own ↦
              let le' : cost t ≤ pos_part o.locked_funds = rw buy at le in
              let less : pos_part (unlock t o).locked_funds ≡ pos_part o.locked_funds - cost t =
                rw buy at u.1 in
              rw (same.0, same.1, buy, own) (omega (arith, less, le'))
        ]
      ]

  pub share_lock-unlock :
      (key : String)
      → Nat64 o.locked_funds
      → amount (is_buy o) t ≤ pos_part o.locked_funds
      → share_lock key (unlock t o)
          + (if is_buy o then 0 else (if order_key o == key then pos_part t.quantity else 0))
        ≡ share_lock key o
  unfolding share_lock
  share_lock-unlock key lock le =
      let u = unlock_lem lock le in
      let same = unlock-parties t o in
      elim (Bool-cases (o.side == side_buy)) [
        | inl buy ↦ rw (same.0, buy) refl
        | inr sell ↦ elim (Bool-cases (order_key o == key)) [
          | inr other ↦ rw (same.0, same.2, sell, other) refl
          | inl own ↦
              let le' : pos_part t.quantity ≤ pos_part o.locked_funds = rw sell at le in
              let less : pos_part (unlock t o).locked_funds
                  ≡ pos_part o.locked_funds - pos_part t.quantity =
                rw sell at u.1 in
              rw (same.0, same.2, sell, own) (omega (arith, less, le'))
        ]
      ]

terms-unlock : (t : Trade) (o : Order) → terms (unlock t o) ≡ terms o
unfolding terms unlock
terms-unlock t o = refl

-- The heap after both orders of a trade.
abbrev pub unlock_pair : ℕ → ℕ → Trade → Heap → Heap
unlock_pair a b t h = store b (unlock t (h b)) (store a (unlock t (h a)) h)

pub unlock_pair-SameTerms :
    (a b : ℕ) (t : Trade) (h : Heap) → (b == a) ≡ false → SameTerms h (unlock_pair a b t h)
unlock_pair-SameTerms a b t h ne p =
    let h' : Heap = store a (unlock t (h a)) h in
    let at_b : h' b ≡ h b = rw ne refl in
    store-SameTerms b (unlock t (h b)) h' (terms-unlock t (h b) ∙ ap terms (sym at_b)) p
    ∙ store-SameTerms a (unlock t (h a)) h (terms-unlock t (h a)) p

unlock_order-named :
    (orders : Dict ℕ) (t : Trade) (id : String) (h : Heap) (p : ℕ)
    → lookup id orders ≡ some p
    → unlock_order orders t id h ≡ store p (unlock t (h p)) h
unfolding unlock_order
unlock_order-named orders t id h p e = rw (unlock_order, e) refl

pub settle_orders-named :
    (orders : Dict ℕ) (t : Trade) (h : Heap) (a b : ℕ)
    → lookup t.order_id orders ≡ some a
    → lookup t.match_order_id orders ≡ some b
    → (b == a) ≡ false
    → settle_orders orders t h ≡ unlock_pair a b t h
unfolding settle_orders
settle_orders-named orders t h a b at_a at_b ne =
    let h' : Heap = store a (unlock t (h a)) h in
    let same : h' b ≡ h b = rw ne refl in
    ap (unlock_order orders t t.match_order_id) (unlock_order-named orders t t.order_id h a at_a)
    ∙ unlock_order-named orders t t.match_order_id h' b at_b
    ∙ ap (λ (o : Order). store b (unlock t o) h') same

-- A sum over the heap after both orders of a trade.
pub tally-unlock_pair :
    (g : Order → ℕ) (a b : ℕ) (t : Trade) (h : Heap) (n : ℕ)
    → a < n
    → b < n
    → (b == a) ≡ false
    → tally (λ p. g (unlock_pair a b t h p)) n + (g (h a) + g (h b))
      ≡ tally (λ p. g (h p)) n + (g (unlock t (h a)) + g (unlock t (h b)))
tally-unlock_pair g a b t h n la lb ne =
    let h' : Heap = store a (unlock t (h a)) h in
    let at_b : h' b ≡ h b = rw ne refl in
    let first = tally-store g a (unlock t (h a)) h n la in
    let second : tally (λ p. g (unlock_pair a b t h p)) n + g (h b)
        ≡ tally (λ p. g (h' p)) n + g (unlock t (h b)) =
      ap (λ (x : Order). tally (λ p. g (unlock_pair a b t h p)) n + g x) (sym at_b)
      ∙ tally-store g b (unlock t (h b)) h' n lb in
    omega (arith, first, second)
