-- ===== src/Engine/Book/Scan.antt =====
-- What `findCounterparty` finds: the first tradable order, which in a side in price order has the
-- best price of all that are tradable.
use predix_go_backend.Base.{
  ℕ, zero, suc, ◌≤◌, ◌≡◌, refl, Bool, true, false, none, some, List, [], ◌∷◌, arith, get_elem?, All,
  Bool-cases, inl, inr, if◌then◌else◌, ◌==◌, string_eq, String, leb_ℤ, pos, ◌≢◌, subst, sym, ◌∙◌,
  beq_refl,
}
use mathlib.Core.Bool.{false≢true}
use predix_go_backend.Sort.{IsSorted}
use predix_go_backend.Engine.Types.{Order, Heap, OrderBook, side_buy}
use predix_go_backend.Engine.Book.{
  is_tradable, find_counterparty, opposite, ask_less, bid_less, can_match,
}
use predix_go_backend.Engine.Book.Priority.{IsOrdered, ask_asym, bid_asym}

pub get_elem?-All {ℓ} :
    (P : ℕ → Type ℓ) (ps : List ℕ) (j q : ℕ) → All P ps → get_elem? ps j ≡ some q → P q
get_elem?-All P [] j q h e = ground arith
get_elem?-All P (p ∷ ps) zero q h e = ground arith
get_elem?-All P (p ∷ ps) (suc j) q h e = get_elem?-All P ps j q h.1 e

module _ (h : Heap) (incoming : Order) where
  -- An index that is found is in range and names a tradable order.
  pub find_counterparty-found :
      (ps : List ℕ) (i : ℕ)
      → find_counterparty h ps incoming ≡ some i
      → (p : ℕ) × (get_elem? ps i ≡ some p) × (is_tradable incoming (h p) ≡ true)
  unfolding find_counterparty
  find_counterparty-found [] i e = ground arith
  find_counterparty-found (p ∷ ps) zero e = (p, refl, ground arith)
  find_counterparty-found (p ∷ ps) (suc i) e = find_counterparty-found ps i (ground arith)

  -- No order in front of it is tradable.
  pub find_counterparty-first :
      (ps : List ℕ) (i j q : ℕ)
      → find_counterparty h ps incoming ≡ some i
      → get_elem? ps j ≡ some q
      → is_tradable incoming (h q) ≡ true
      → i ≤ j
  unfolding find_counterparty
  find_counterparty-first [] i j q e f t = ground arith
  find_counterparty-first (p ∷ ps) i zero q e f t = ground arith
  find_counterparty-first (p ∷ ps) zero (suc j) q e f t = omega arith
  find_counterparty-first (p ∷ ps) (suc i) (suc j) q e f t =
      omega (arith, find_counterparty-first ps i j q (ground arith) f t)

  -- When nothing is found no order is tradable.
  pub find_counterparty-none :
      (ps : List ℕ)
      → find_counterparty h ps incoming ≡ none
      → All (λ q. is_tradable incoming (h q) ≡ false) ps
  unfolding find_counterparty
  find_counterparty-none [] e = tt
  find_counterparty-none (p ∷ ps) e = (ground arith, find_counterparty-none ps (ground arith))

module _ (less : ℕ → ℕ → Bool) (asym : (x y : ℕ) → less x y ≡ true → less y x ≡ false) where
  irreflexive : (x : ℕ) → less x x ≡ false
  irreflexive x = ground (arith, asym x x)

  -- In a sorted list no later element is less than an earlier one.
  sorted_le :
      (ps : List ℕ) (i j p q : ℕ)
      → IsSorted less ps
      → i ≤ j
      → get_elem? ps i ≡ some p
      → get_elem? ps j ≡ some q
      → less q p ≡ false
  sorted_le [] i j p q s h e f = ground arith
  sorted_le (x ∷ ps) zero zero p q s h e f = ground (arith, irreflexive x)
  sorted_le (x ∷ ps) zero (suc j) p q s h e f =
      get_elem?-All (λ y. less y p ≡ false) ps j q (ground arith) f
  sorted_le (x ∷ ps) (suc i) zero p q s h e f = absurd (omega arith)
  sorted_le (x ∷ ps) (suc i) (suc j) p q s h e f = sorted_le ps i j p q s.1 (omega arith) e f

-- Whether the order `q` has a strictly better price than `p` for an incoming order of that side.
abbrev pub is_better : Heap → String → ℕ → ℕ → Bool
is_better h side q p = if side == side_buy then ask_less h q p else bid_less h q p

opposite_le :
    (h : Heap) (side : String) (book : OrderBook) (i j p q : ℕ)
    → IsOrdered h book
    → i ≤ j
    → get_elem? (opposite side book) i ≡ some p
    → get_elem? (opposite side book) j ≡ some q
    → is_better h side q p ≡ false
unfolding opposite
opposite_le h side book i j p q o le e f = elim (Bool-cases (side == side_buy)) [
  | inl b ↦
      rw b (sorted_le (ask_less h) (ask_asym h) book.asks i j p q o.asks le (rw b at e) (rw b at f))
  | inr b ↦
      rw b (sorted_le (bid_less h) (bid_asym h) book.bids i j p q o.bids le (rw b at e) (rw b at f))
]

-- In a book in price order the counterparty that is found is tradable, and every other tradable
-- order of that side has no better price and does not stand in front of it.
pub find_counterparty_best :
    (h : Heap) (incoming : Order) (book : OrderBook) (i j q : ℕ)
    → IsOrdered h book
    → find_counterparty h (opposite incoming.side book) incoming ≡ some i
    → get_elem? (opposite incoming.side book) j ≡ some q
    → is_tradable incoming (h q) ≡ true
    → (p : ℕ) × (get_elem? (opposite incoming.side book) i ≡ some p)
      × (is_tradable incoming (h p) ≡ true)
      × (is_better h incoming.side q p ≡ false)
      × (i ≤ j)
find_counterparty_best h incoming book i j q o e f t =
    let ps : List ℕ = opposite incoming.side book in
    let (p, at, good) = find_counterparty-found h incoming ps i e in
    let first = find_counterparty-first h incoming ps i j q e f t in
    (p, at, good, opposite_le h incoming.side book i j p q o first at f, first)

-- The facts that `is_tradable` stands for.
pub tradable_user : (a b : Order) → is_tradable a b ≡ true → (b.user_id == a.user_id) ≡ false
unfolding is_tradable
tradable_user a b e = ground arith

pub tradable_live :
    (a b : Order) → is_tradable a b ≡ true → leb_ℤ b.remaining_quantity (pos 0) ≡ false
unfolding is_tradable
tradable_live a b e = ground arith

pub tradable_match : (a b : Order) → is_tradable a b ≡ true → can_match a b ≡ true
unfolding is_tradable
tradable_match a b e = ground arith

-- No order is tradable against itself, so the two of a pair stand at different addresses.
pub tradable_ne : (h : Heap) (p q : ℕ) → is_tradable (h p) (h q) ≡ true → p ≢ q
tradable_ne h p q e same =
    let d : ((h q).user_id == (h p).user_id) ≡ false = tradable_user (h p) (h q) e in
    let r : ((h q).user_id == (h q).user_id) ≡ false =
      subst (λ x. ((h q).user_id == (h x).user_id) ≡ false) same d in
    false≢true (sym r ∙ beq_refl (h q).user_id)
