-- ===== src/Engine/Core/Invariant.antt =====
-- The invariant of the engine's state, and what it survives: writes that keep an order's terms and
-- its quantities in balance, and the allocation of a new order.
use predix_go_backend.Base.{
  ℕ, ◌<◌, ◌≤◌, ◌≡◌, refl, ap, String, Bool, true, ◌||◌, some, [], ◌∷◌, arith, ◌==◌, string_eq,
  nat_eq, Bool-cases, inl, inr, All, subst,
}
use predix_go_backend.Dict.{Dict, lookup, insert, erase}
use predix_go_backend.Sort.{All-map}
use predix_go_backend.Sort.Laws.{IsSorted-congr}
use predix_go_backend.Engine.Types.{Order, OrderBook, Market, Heap, outcome_yes, outcome_no}
use predix_go_backend.Engine.Book.{bid_less, ask_less}
use predix_go_backend.Engine.Book.Priority.{IsOrdered}
use predix_go_backend.Engine.Matching.Quantities.{HeapIsConserved}
use predix_go_backend.Engine.Matching.Terms.{terms, price-terms}
use predix_go_backend.Engine.Matching.Addresses.{BookAll}
use predix_go_backend.Engine.Core.{Core}

-- The two heaps agree on the terms of the orders below `n`.
abbrev pub SameBelow : ℕ → Heap → Heap → Type 0
SameBelow n h h' = (p : ℕ) → p < n → terms (h' p) ≡ terms (h p)

abbrev pub has_book : Order → Bool
has_book o = (o.outcome == outcome_yes) || (o.outcome == outcome_no)

-- A book in price order whose orders have all been allocated.
abbrev pub IsPlaced : Heap → ℕ → OrderBook → Type 0
IsPlaced h n book = IsOrdered h book × BookAll (λ p. p < n) book

abbrev pub MarketIsPlaced : Heap → ℕ → Market → Type 0
MarketIsPlaced h n m = IsPlaced h n m.yes_book × IsPlaced h n m.no_book

-- An address that the order map may hold.
abbrev pub IsKnown : Heap → ℕ → ℕ → Type 0
IsKnown h n p = (p < n) × (has_book (h p) ≡ true)

-- Every order's quantities add up, both books of every market are in price order, and the books
-- and the order map hold orders that exist, the order map only such as have a book.
pub record IsValid (c : Core) : Type 0 where
  pub conserved : HeapIsConserved c.heap
  pub markets : All (λ (e : String × Market). MarketIsPlaced c.heap c.next_address e.1) c.markets
  pub orders : All (λ (e : String × ℕ). IsKnown c.heap c.next_address e.1) c.orders

module _ {ℓ κ} {V : Type ℓ} (P : V → Type κ) where
  pub All-lookup :
      (k : String) (v : V) (d : Dict V)
      → All (λ (e : String × V). P e.1) d
      → lookup k d ≡ some v
      → P v
  unfolding lookup
  All-lookup k v [] a e = ground arith
  All-lookup k v ((j, w) ∷ d) a e = elim (Bool-cases (j == k)) [
    | inl hit ↦ let same : w ≡ v = ground arith in subst P same a.0
    | inr miss ↦ All-lookup k v d a.1 (rw miss at e)
  ]

  pub All-insert :
      (k : String) (v : V) (d : Dict V)
      → P v
      → All (λ (e : String × V). P e.1) d
      → All (λ (e : String × V). P e.1) (insert k v d)
  unfolding insert
  All-insert k v [] p a = (p, tt)
  All-insert k v ((j, w) ∷ d) p a = elim (Bool-cases (j == k)) [
    | inl hit ↦ rw hit (p, a.1)
    | inr miss ↦ rw miss (a.0, All-insert k v d p a.1)
  ]

  pub All-erase :
      (k : String) (d : Dict V)
      → All (λ (e : String × V). P e.1) d
      → All (λ (e : String × V). P e.1) (erase k d)
  unfolding erase
  All-erase k [] a = tt
  All-erase k ((j, w) ∷ d) a = elim (Bool-cases (j == k)) [
    | inl hit ↦ rw hit (All-erase k d a.1)
    | inr miss ↦ rw miss (a.0, All-erase k d a.1)
  ]

outcome-terms : (a b : Order) → terms a ≡ terms b → a.outcome ≡ b.outcome
unfolding terms
outcome-terms a b e = ap (λ (o : Order). o.outcome) e

module _ (h h' : Heap) (n n' : ℕ) (le : n ≤ n') (same : SameBelow n h h') where
  bid_less-same : (x y : ℕ) → x < n → y < n → bid_less h' x y ≡ bid_less h x y
  bid_less-same x y p q =
      rw (price-terms (h' x) (h x) (same x p), price-terms (h' y) (h y) (same y q)) refl

  ask_less-same : (x y : ℕ) → x < n → y < n → ask_less h' x y ≡ ask_less h x y
  ask_less-same x y p q =
      rw (price-terms (h' x) (h x) (same x p), price-terms (h' y) (h y) (same y q)) refl

  pub IsPlaced-same : (book : OrderBook) → IsPlaced h n book → IsPlaced h' n' book
  IsPlaced-same book (o, b) = (
    record {
      bids =
          IsSorted-congr (λ p. p < n) (bid_less h) (bid_less h') bid_less-same book.bids b.0 o.bids;
      asks =
          IsSorted-congr (λ p. p < n) (ask_less h) (ask_less h') ask_less-same book.asks b.1 o.asks;
    },
    (
      All-map (λ p. p < n) (λ p. p < n') book.bids (λ p lt. omega arith) b.0,
      All-map (λ p. p < n) (λ p. p < n') book.asks (λ p lt. omega arith) b.1,
    ),
  )

  pub IsKnown-same : (p : ℕ) → IsKnown h n p → IsKnown h' n' p
  IsKnown-same p (lt, e) = (omega arith, rw (outcome-terms (h' p) (h p) (same p lt)) e)

-- A heap that evolves in this way keeps the state valid.
pub IsValid-same :
    (c : Core) (h' : Heap) (n' : ℕ)
    → c.next_address ≤ n'
    → SameBelow c.next_address c.heap h'
    → HeapIsConserved h'
    → IsValid c
    → IsValid (record c { heap = h'; next_address = n' })
IsValid-same c h' n' le same k v = record {
  conserved = k;
  markets =
      All-map _ _ c.markets
        (λ e m. (
          IsPlaced-same c.heap h' c.next_address n' le same e.1.yes_book m.0,
          IsPlaced-same c.heap h' c.next_address n' le same e.1.no_book m.1,
        ))
        v.markets;
  orders =
      All-map _ _ c.orders (λ e m. IsKnown-same c.heap h' c.next_address n' le same e.1 m) v.orders;
}
