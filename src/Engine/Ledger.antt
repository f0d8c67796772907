-- ===== src/Engine/Ledger.antt =====
-- internal/engine/ledger.go: users' cash and shares, what an order freezes of them, what a trade
-- moves, what a closed order gives back. A `*Balance` that `getOrCreateBalance` hands out is read
-- and written at once, so it is modelled by `modify_balance` on the user's entry.
pub mod Totals
pub mod Freezing
pub mod Reservation
pub mod Settlement
pub mod Overflow
use Prim.Native.String.{◌++◌ as ◌<>◌}
use predix_go_backend.Base.{
  ℕ, ◌≡◌, String, Bool, true, false, Option, none, some, List, [], ◌∷◌, arith, ◌==◌, if◌then◌else◌,
  string_eq, ltb_ℤ, leb_ℤ, ℤ, pos, add64, sub64, mul64,
}
use predix_go_backend.Dict.{Dict, lookup, insert}
use predix_go_backend.Engine.Types.{
  Order, Balance, Position, Trade, Heap, side_buy, order_type_market, store,
  default_starting_balance,
}

pub record Ledger : Type 0 where
  pub balances : Dict Balance
  pub positions : Dict Position

abbrev pub zero_balance : Balance
zero_balance = record { available = pos 0; reserved = pos 0 }

abbrev pub zero_position : Position
zero_position = record { available = pos 0; reserved = pos 0 }

abbrev pub err_insufficient_funds : String
err_insufficient_funds = "insufficient balance for order"

abbrev pub err_insufficient_shares : String
err_insufficient_shares = "insufficient shares for order"

abbrev pub or_zero {ℓ} : {A : Type ℓ} → A → Option A → A
or_zero z none = z
or_zero z (some a) = a

-- What `getOrCreateBalance` finds or makes for the user.
unfoldable pub balance_of : String → Ledger → Balance
balance_of user l = or_zero zero_balance (lookup user l.balances)

unfoldable pub modify_balance : String → (Balance → Balance) → Ledger → Ledger
modify_balance user f l = record l { balances = insert user (f (balance_of user l)) l.balances }

unfoldable pub position_key : String → String → String → String
position_key user event outcome = user <> (":" <> (event <> (":" <> outcome)))

unfoldable pub position_of : String → Ledger → Position
position_of key l = or_zero zero_position (lookup key l.positions)

unfoldable pub modify_position : String → (Position → Position) → Ledger → Ledger
modify_position key f l = record l { positions = insert key (f (position_of key l)) l.positions }

abbrev pub order_key : Order → String
order_key o = position_key o.user_id o.event_id o.outcome

-- `if x < 0 { x = 0 }`
unfoldable pub clamp : ℤ → ℤ
clamp x = if ltb_ℤ x (pos 0) then pos 0 else x

-- Moving an amount between the available and the reserved part of a holding.
unfoldable pub freeze_cash : ℤ → Balance → Balance
freeze_cash c b = record { available = sub64 b.available c; reserved = add64 b.reserved c }

unfoldable pub freeze_shares : ℤ → Position → Position
freeze_shares n p = record { available = sub64 p.available n; reserved = add64 p.reserved n }

pub data Reserve : Type 0 where
  reserved : Order → Ledger → Reserve
  refused : String → Ledger → Reserve

-- The cash that a BUY freezes: all that is available for a market order, else quantity times limit.
unfoldable pub reserve_cost : Order → Ledger → ℤ
reserve_cost o l =
    if o.order_type == order_type_market
    then (balance_of o.user_id l).available
    else mul64 o.remaining_quantity o.price

-- A refusal leaves the entry that the look-up has made.
unfoldable pub reserve_order : Order → Ledger → Reserve
reserve_order o l =
    let cost = reserve_cost o l in
    if o.side == side_buy
    then if ltb_ℤ (balance_of o.user_id l).available cost
      then refused err_insufficient_funds (modify_balance o.user_id (λ b. b) l)
      else reserved (record o { locked_funds = cost })
          (modify_balance o.user_id (freeze_cash cost) l)
    else if ltb_ℤ (position_of (order_key o) l).available o.remaining_quantity
    then refused err_insufficient_shares (modify_position (order_key o) (λ p. p) l)
    else reserved (record o { locked_funds = o.remaining_quantity })
        (modify_position (order_key o) (freeze_shares o.remaining_quantity) l)

-- The buyer's reserved cash falls and the shares arrive; the seller's reserved shares fall and the
-- cash arrives.
unfoldable pub pay_cash : ℤ → Balance → Balance
pay_cash c b = record b { reserved = clamp (sub64 b.reserved c) }

unfoldable pub get_shares : ℤ → Position → Position
get_shares n p = record p { available = add64 p.available n }

unfoldable pub get_cash : ℤ → Balance → Balance
get_cash c b = record b { available = add64 b.available c }

unfoldable pub give_shares : ℤ → Position → Position
give_shares n p = record p { reserved = clamp (sub64 p.reserved n) }

unfoldable pub settle_holdings : Trade → Ledger → Ledger
settle_holdings t l =
    let cost = mul64 t.quantity t.price in
    let l₁ = modify_balance t.buyer_id (pay_cash cost) l in
    let l₂ =
      modify_position (position_key t.buyer_id t.event_id t.outcome) (get_shares t.quantity) l₁ in
    let l₃ = modify_balance t.seller_id (get_cash cost) l₂ in
    modify_position (position_key t.seller_id t.event_id t.outcome) (give_shares t.quantity) l₃

-- What a trade takes off the amount that one of its orders has locked.
unfoldable pub unlock : Trade → Order → Order
unlock t o = record o {
  locked_funds =
      clamp (
        sub64 o.locked_funds (if o.side == side_buy then mul64 t.quantity t.price else t.quantity));
}

unfoldable pub unlock_order : Dict ℕ → Trade → String → Heap → Heap
unlock_order orders t order_id h = elim (lookup order_id orders) [
  | none ↦ h
  | some p ↦ store p (unlock t (h p)) h
]

unfoldable pub settle_orders : Dict ℕ → Trade → Heap → Heap
settle_orders orders t h =
    unlock_order orders t t.match_order_id (unlock_order orders t t.order_id h)

-- What is left locked goes back to the available part.
unfoldable pub thaw_cash : ℤ → Balance → Balance
thaw_cash c b = record { available = add64 b.available c; reserved = clamp (sub64 b.reserved c) }

unfoldable pub thaw_shares : ℤ → Position → Position
thaw_shares n p = record { available = add64 p.available n; reserved = clamp (sub64 p.reserved n) }

unfoldable pub release_order : Order → Ledger → Order × Ledger
release_order o l = if leb_ℤ o.locked_funds (pos 0) then (o, l) else (
  record o { locked_funds = pos 0 },
  if o.side == side_buy
      then modify_balance o.user_id (thaw_cash o.locked_funds) l
      else modify_position (order_key o) (thaw_shares o.locked_funds) l,
)

-- USER_CREATED: the starting balance, for a user who has no entry.
unfoldable pub grant_balance : String → Ledger → Ledger
grant_balance user l = elim (lookup user l.balances) [
  | none ↦ record l {
    balances =
        insert user (record { available = default_starting_balance; reserved = pos 0 }) l.balances;
  }
  | some b ↦ l
]

-- `GetBalances` and `GetPosition`; `none` is the `ok = false` of the source.
unfoldable pub get_balances : String → Ledger → Option (ℤ × ℤ)
get_balances user l = elim (lookup user l.balances) [
  | none ↦ none
  | some b ↦ some (b.available, b.reserved)
]

unfoldable pub get_position : String → String → String → Ledger → Option (ℤ × ℤ)
get_position user event outcome l = elim (lookup (position_key user event outcome) l.positions) [
  | none ↦ none
  | some p ↦ some (p.available, p.reserved)
]
