-- ===== src/Engine/Backing/Filling.antt =====
-- A fill moves what an order may still have to give to what it owes for a trade: the lock covers
-- the order as before.
use predix_go_backend.Base.{
  ℕ, ◌+◌, ◌-◌, ◌*◌, ◌≤◌, ◌≡◌, refl, ap, ◌∙◌, Bool, true, false, List, [], ◌∷◌, ◌++◌, arith,
  string_eq, ℤ, pos_part, Nat64, sub64_nat, Bool-cases, inl, inr,
}
use predix_go_backend.Dict.{Dict}
use predix_go_backend.Engine.Types.{Order, Trade, status_eq}
use predix_go_backend.Engine.Matching.{take_fill, close_fill}
use predix_go_backend.Engine.Matching.Terms.{terms, terms-take_fill, terms-close_fill}
use predix_go_backend.Engine.Backing.{
  is_buy, is_closed, gross, amount, charge, owed, IsCovered, due-le-gross, due-open,
}

owed-append :
    (orders : Dict ℕ) (buy : Bool) (p : ℕ) (ts : List Trade) (t : Trade)
    → owed orders buy p (ts ++ t ∷ []) ≡ owed orders buy p ts + charge orders buy p t
unfolding owed
owed-append orders buy p [] t = omega arith
owed-append orders buy p (u ∷ ts) t = omega (arith, owed-append orders buy p ts t)

-- A part of the remainder at a price that is no worse, and the rest at the limit.
split_cost : (r q a b : ℕ) → q ≤ r → b ≤ a → (r - q) * a + q * b ≤ r * a
split_cost r q a b le better = grind arith

gross-less :
    (o o' : Order) (t : Trade)
    → pos_part t.quantity ≤ pos_part o.remaining_quantity
    → (is_buy o ≡ true → pos_part t.price ≤ pos_part o.price)
    → is_buy o' ≡ is_buy o
    → o'.price ≡ o.price
    → pos_part o'.remaining_quantity ≡ pos_part o.remaining_quantity - pos_part t.quantity
    → gross o' + amount (is_buy o) t ≤ gross o
unfolding gross
gross-less o o' t le better side price rest = elim (Bool-cases (is_buy o)) [
  | inl buy ↦
      let split =
        split_cost (pos_part o.remaining_quantity) (pos_part t.quantity) (pos_part o.price)
          (pos_part t.price) le (better buy) in
      rw (side, buy, price, rest) split
  | inr sell ↦ rw (side, sell, rest) (omega (arith, le))
]

deal-terms :
    (a b : Order) → terms a ≡ terms b → (is_buy a ≡ is_buy b) × (a.id ≡ b.id) × (a.price ≡ b.price)
unfolding terms
deal-terms a b e =
    (ap (λ (o : Order). is_buy o) e, ap (λ (o : Order). o.id) e, ap (λ (o : Order). o.price) e)

module _ (orders : Dict ℕ) (n : ℕ) (ts : List Trade) (t : Trade) (p : ℕ) (o o' : Order) where
  -- A party to the trade, after its fill.
  pub IsCovered-filled :
      terms o' ≡ terms o
      → o'.locked_funds ≡ o.locked_funds
      → pos_part o'.remaining_quantity ≡ pos_part o.remaining_quantity - pos_part t.quantity
      → pos_part t.quantity ≤ pos_part o.remaining_quantity
      → (is_buy o ≡ true → pos_part t.price ≤ pos_part o.price)
      → is_closed o ≡ false
      → charge orders (is_buy o) p t ≡ amount (is_buy o) t
      → IsCovered orders n ts p o
      → IsCovered orders n (ts ++ t ∷ []) p o'
  IsCovered-filled same lock rest le better live charged k =
      let d = deal-terms o' o same in
      let less = gross-less o o' t le better d.0 d.2 rest in
      let sum = owed-append orders (is_buy o) p ts t in
      record {
        allocated = k.allocated;
        registered = rw d.1 k.registered;
        price = rw d.2 k.price;
        lock = rw lock k.lock;
        covered = rw d.0 (
            omega (
              arith,
              less,
              sum,
              charged,
              k.covered,
              ap pos_part lock,
              due-le-gross o',
              due-open o live,
            ));
      }

  -- An order that the trade does not concern.
  pub IsCovered-kept :
      charge orders (is_buy o) p t ≡ 0
      → IsCovered orders n ts p o
      → IsCovered orders n (ts ++ t ∷ []) p o
  IsCovered-kept free k =
      let sum = owed-append orders (is_buy o) p ts t in
      record {
        allocated = k.allocated;
        registered = k.registered;
        price = k.price;
        lock = k.lock;
        covered = omega (arith, sum, free, k.covered);
      }

-- What a fill does to an order, taker or maker.
pub take_fill_lem :
    (q : ℤ) (o : Order)
    → Nat64 o.remaining_quantity
    → Nat64 q
    → pos_part q ≤ pos_part o.remaining_quantity
    → (terms (take_fill q o) ≡ terms o)
      × ((take_fill q o).locked_funds ≡ o.locked_funds)
      × (pos_part (take_fill q o).remaining_quantity ≡ pos_part o.remaining_quantity - pos_part q)
unfolding take_fill
take_fill_lem q o r n le =
    (unfold take_fill in terms-take_fill q o, refl, (sub64_nat o.remaining_quantity q r n le).1)

close_fill_lem :
    (o : Order)
    → ((close_fill o).locked_funds ≡ o.locked_funds)
      × (pos_part (close_fill o).remaining_quantity ≡ pos_part o.remaining_quantity)
unfolding close_fill
close_fill_lem o = ground arith

pub close_take_fill_lem :
    (q : ℤ) (o : Order)
    → Nat64 o.remaining_quantity
    → Nat64 q
    → pos_part q ≤ pos_part o.remaining_quantity
    → (terms (close_fill (take_fill q o)) ≡ terms o)
      × ((close_fill (take_fill q o)).locked_funds ≡ o.locked_funds)
      × (pos_part (close_fill (take_fill q o)).remaining_quantity
          ≡ pos_part o.remaining_quantity - pos_part q)
close_take_fill_lem q o r n le =
    let x = take_fill_lem q o r n le in
    let y = close_fill_lem (take_fill q o) in
    (terms-close_fill (take_fill q o) ∙ x.0, y.0 ∙ x.1, y.1 ∙ x.2)
