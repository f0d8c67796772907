-- ===== src/Engine/Backing/Charging.antt =====
-- What an order owes for a trade, and that its lock covers the rest once the trade is settled.
use predix_go_backend.Base.{
  ℕ, ◌≤◌, ◌≡◌, refl, ap, ◌∙◌, sym, String, Bool, false, ◌||◌, some, List, ◌∷◌, arith, ◌==◌,
  if◌then◌else◌, string_eq, nat_eq, pos_part, Nat64, Bool-cases, inl, inr,
}
use predix_go_backend.Dict.{Dict, lookup}
use predix_go_backend.Engine.Types.{Order, Trade, Heap}
use predix_go_backend.Engine.Ledger.{order_key, unlock}
use predix_go_backend.Engine.Matching.Terms.{terms, SameTerms}
use predix_go_backend.Engine.Backing.{is_buy, names, amount, charge, owed, IsCovered, IsGenuine}
use predix_go_backend.Engine.Backing.Unlocking.{unlock-parties, unlock_lem}

names-at :
    (orders : Dict ℕ) (id : String) (a p : ℕ)
    → lookup id orders ≡ some a
    → names orders id p ≡ (a == p)
unfolding names
names-at orders id a p e = rw (names, e) refl

-- What an order owes for a trade of which it is no party, and for one of which it is.
module _ (orders : Dict ℕ) (t : Trade) (a b : ℕ) (at_a : lookup t.order_id orders ≡ some a)
    (at_b : lookup t.match_order_id orders ≡ some b) (ne : (b == a) ≡ false) where
  pub charge-at :
      (buy : Bool) (p : ℕ)
      → charge orders buy p t ≡ (if (a == p) || (b == p) then amount buy t else 0)
  charge-at buy p =
      rw (names-at orders t.order_id a p at_a, names-at orders t.match_order_id b p at_b)
        (elim (Bool-cases (a == p)) [
          | inr other ↦ rw other (omega arith)
          | inl hit ↦
              let same : a ≡ p = (nat_eq.beq_iff a p).0 hit in
              let miss : (b == p) ≡ false = ap (λ (x : ℕ). b == x) (sym same) ∙ ne in
              rw (hit, miss) (omega arith)
        ])

-- An order that covered the trade, too, still covers the others once the trade is settled.
pub IsCovered-settled :
    (orders : Dict ℕ) (n : ℕ) (t : Trade) (ts : List Trade) (p : ℕ) (o : Order)
    → Nat64 t.quantity
    → Nat64 t.price
    → charge orders (is_buy o) p t ≡ amount (is_buy o) t
    → IsCovered orders n (t ∷ ts) p o
    → (amount (is_buy o) t ≤ pos_part o.locked_funds) × IsCovered orders n ts p (unlock t o)
unfolding owed
IsCovered-settled orders n t ts p o q r charged k =
    let same = unlock-parties t o in
    let le : amount (is_buy o) t ≤ pos_part o.locked_funds = omega (arith, k.covered, charged) in
    let u = unlock_lem t q r o k.lock le in
    (
      le,
      record {
        allocated = k.allocated;
        registered = rw same.3 k.registered;
        price = rw same.4 k.price;
        lock = u.0;
        covered = rw same.0 (omega (arith, same.5, u.1, k.covered, charged));
      },
    )

pub IsCovered-other :
    (orders : Dict ℕ) (n : ℕ) (t : Trade) (ts : List Trade) (p : ℕ) (o : Order)
    → charge orders (is_buy o) p t ≡ 0
    → IsCovered orders n (t ∷ ts) p o
    → IsCovered orders n ts p o
unfolding owed
IsCovered-other orders n t ts p o free k = record {
  allocated = k.allocated;
  registered = k.registered;
  price = k.price;
  lock = k.lock;
  covered = omega (arith, k.covered, free);
}

-- What the orders have in common with what they were before matching.
parties-terms :
    (a b : Order)
    → terms a ≡ terms b
    → (is_buy a ≡ is_buy b) × (a.user_id ≡ b.user_id) × (order_key a ≡ order_key b)
unfolding terms
parties-terms a b e = (
  ap (λ (o : Order). is_buy o) e,
  ap (λ (o : Order). o.user_id) e,
  ap (λ (o : Order). order_key o) e,
)

-- A genuine trade stays one when the orders change in their quantities and locks only.
pub IsGenuine-terms :
    (orders : Dict ℕ) (h h' : Heap) (E : ℕ → Type 0) (t : Trade)
    → SameTerms h h'
    → IsGenuine orders h E t
    → IsGenuine orders h' E t
IsGenuine-terms orders h h' E t same g =
    let x = parties-terms (h' g.taker) (h g.taker) (same g.taker) in
    let y = parties-terms (h' g.maker) (h g.maker) (same g.maker) in
    record {
      taker = g.taker;
      maker = g.maker;
      taker_named = g.taker_named;
      maker_named = g.maker_named;
      distinct = g.distinct;
      engaged = g.engaged;
      quantity = g.quantity;
      price = g.price;
      sides = rw (x.0, y.0) g.sides;
      buyer = rw (x.0, x.1, y.1) g.buyer;
      seller = rw (x.0, x.2, y.2) g.seller;
    }
