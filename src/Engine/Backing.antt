-- ===== src/Engine/Backing.antt =====
-- What stands behind the orders of internal/engine/ledger.go: the reserved part of each holding is
-- the sum of what the orders have locked of it, and an order on a book has locked what it may
-- still have to give.
pub mod Tallies
pub mod Holdings
pub mod Unlocking
pub mod Charging
pub mod Settling
pub mod Settled
pub mod Filling
pub mod Trading
pub mod Loop
pub mod Funded
pub mod Release
pub mod Rest
pub mod Close
pub mod Match
pub mod Freezing
pub mod Reserving
pub mod Placing
pub mod Orders
pub mod Cancel
use predix_go_backend.Base.{
  ℕ, zero, suc, ◌+◌, ◌*◌, ◌≤◌, ◌<◌, ◌≡◌, refl, String, Bool, true, false, not, ◌||◌, Option, none,
  some, List, [], ◌∷◌, ◌==◌, if◌then◌else◌, string_eq, nat_eq, pos_part, Nat64, All, Bool-cases,
  inl, inr, arith,
}
use predix_go_backend.Dict.{Dict, lookup}
use predix_go_backend.Engine.Types.{Order, Trade, Heap, Status, status_eq, side_buy}
use predix_go_backend.Engine.Ledger.{Ledger, balance_of, position_of, order_key, position_key}
use predix_go_backend.Engine.Ledger.Totals.{IsSound, cash, shares}
use predix_go_backend.Engine.Core.{Core}

abbrev pub is_buy : Order → Bool
is_buy o = o.side == side_buy

-- The sum over the addresses below a bound.
unfoldable pub tally : (ℕ → ℕ) → ℕ → ℕ
tally f zero = 0
tally f (suc n) = f n + tally f n

-- What an order has locked of a user's cash, and of the shares under a key.
unfoldable pub cash_lock : String → Order → ℕ
cash_lock user o =
    if is_buy o then (if o.user_id == user then pos_part o.locked_funds else 0) else 0

unfoldable pub share_lock : String → Order → ℕ
share_lock key o =
    if is_buy o then 0 else (if order_key o == key then pos_part o.locked_funds else 0)

-- What the remainder of an order is worth: shares, at the order's limit for a BUY.
unfoldable pub gross : Order → ℕ
gross o =
    if is_buy o
    then pos_part o.remaining_quantity * pos_part o.price
    else pos_part o.remaining_quantity

abbrev pub is_closed : Order → Bool
is_closed o =
    (o.status == Status.filled) || ((o.status == Status.canceled) || (o.status == Status.rejected))

-- What an order may still have to give: nothing once it is closed.
unfoldable pub due : Order → ℕ
due o = if is_closed o then 0 else gross o

pub due-le-gross : (o : Order) → due o ≤ gross o
unfolding due
due-le-gross o = elim (Bool-cases (is_closed o)) [
  | inl closed ↦ rw closed (omega arith)
  | inr live ↦ rw live (omega arith)
]

pub due-open : (o : Order) → is_closed o ≡ false → due o ≡ gross o
unfolding due
due-open o live = rw live refl

pub due-closed : (o : Order) → is_closed o ≡ true → due o ≡ 0
unfolding due
due-closed o closed = rw closed refl

-- What trades that are not settled yet will take off an order's lock. The orders of a trade are
-- found by their ids, as the settlement finds them.
unfoldable pub names : Dict ℕ → String → ℕ → Bool
names orders id p = elim (lookup id orders) [ none ↦ false | some q ↦ q == p ]

abbrev pub amount : Bool → Trade → ℕ
amount buy t = if buy then pos_part t.quantity * pos_part t.price else pos_part t.quantity

abbrev pub charge : Dict ℕ → Bool → ℕ → Trade → ℕ
charge orders buy p t =
    (if names orders t.order_id p then amount buy t else 0)
    + (if names orders t.match_order_id p then amount buy t else 0)

unfoldable pub owed : Dict ℕ → Bool → ℕ → List Trade → ℕ
owed orders buy p [] = 0
owed orders buy p (t ∷ ts) = charge orders buy p t + owed orders buy p ts

-- The order is in the order map under its id, and its lock covers the unsettled trades and what it
-- may still have to give.
pub record IsCovered (orders : Dict ℕ) (n : ℕ) (ts : List Trade) (p : ℕ) (o : Order) : Type 0 where
  pub allocated : p < n
  pub registered : lookup o.id orders ≡ some p
  pub price : Nat64 o.price
  pub lock : Nat64 o.locked_funds
  pub covered : due o + owed orders (is_buy o) p ts ≤ pos_part o.locked_funds

-- Every reserved amount is what the orders have locked of it.
pub record IsBacked (h : Heap) (n : ℕ) (l : Ledger) : Type 0 where
  pub sound : IsSound l
  pub balances :
      (user : String) → tally (λ p. cash_lock user (h p)) n ≡ pos_part (balance_of user l).reserved
  pub positions :
      (key : String) → tally (λ p. share_lock key (h p)) n ≡ pos_part (position_of key l).reserved

-- A trade of two orders of the heap: they are found under its ids, stand on different sides, and
-- are its buyer's and its seller's.
pub record IsGenuine (orders : Dict ℕ) (h : Heap) (E : ℕ → Type 0) (t : Trade) : Type 0 where
  pub taker : ℕ
  pub maker : ℕ
  pub taker_named : lookup t.order_id orders ≡ some taker
  pub maker_named : lookup t.match_order_id orders ≡ some maker
  pub distinct : (maker == taker) ≡ false
  pub engaged : E taker × E maker
  pub quantity : Nat64 t.quantity
  pub price : Nat64 t.price
  pub sides : is_buy (h maker) ≡ not (is_buy (h taker))
  pub buyer : t.buyer_id ≡ (if is_buy (h taker) then (h taker).user_id else (h maker).user_id)
  pub seller :
      position_key t.seller_id t.event_id t.outcome
      ≡ (if is_buy (h taker) then order_key (h maker) else order_key (h taker))
