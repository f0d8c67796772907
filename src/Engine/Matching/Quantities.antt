-- ===== src/Engine/Matching/Quantities.antt =====
-- Quantities under matching: of every order what is filled and what remains add up to what was
-- asked, and the trades of a run add up to what the incoming order was filled by.
use predix_go_backend.Base.{
  ℕ, ◌+◌, ◌≤◌, ◌≡◌, refl, ◌≢◌, List, [], ◌∷◌, ◌++◌, arith, leb_ℤ, ℤ, pos, pos_part, Nat64,
  sub64_nat, add64_nat, Bool-cases, inl, inr, ◌==◌, nat_eq, sym, length,
}
use predix_go_backend.Engine.Types.{Heap, Order, Trade, store}
use predix_go_backend.Engine.Book.Scan.{tradable_ne}
use predix_go_backend.Engine.Matching.{
  Source, MatchState, finished, cut_front, execute_pair, match_loop, min64, take_fill, close_fill,
  fill_pair, build_trade,
}
use predix_go_backend.Engine.Matching.Rounds.{IsFill, match_loop_rule, scanned}

-- The quantities of an order are non-negative and add up.
pub record IsConserved (o : Order) : Type 0 where
  pub whole : Nat64 o.quantity
  pub filled : Nat64 o.filled_quantity
  pub remaining : Nat64 o.remaining_quantity
  pub total : pos_part o.filled_quantity + pos_part o.remaining_quantity ≡ pos_part o.quantity

abbrev pub HeapIsConserved : Heap → Type 0
HeapIsConserved h = (p : ℕ) → IsConserved (h p)

pub min64_nat :
    (a b : ℤ)
    → Nat64 a
    → Nat64 b
    → Nat64 (min64 a b) × (pos_part (min64 a b) ≤ pos_part a) × (pos_part (min64 a b) ≤ pos_part b)
unfolding min64
min64_nat a b p q = ground arith

pub take_fill-IsConserved :
    (q : ℤ) (o : Order)
    → Nat64 q
    → pos_part q ≤ pos_part o.remaining_quantity
    → IsConserved o
    → IsConserved (take_fill q o)
unfolding take_fill
take_fill-IsConserved q o n le w =
    let s = sub64_nat o.remaining_quantity q w.remaining n le in
    let a = add64_nat o.filled_quantity q w.filled n (omega arith) in
    record { whole = w.whole; filled = omega arith; remaining = omega arith; total = omega arith }

pub close_fill-IsConserved : (o : Order) → IsConserved o → IsConserved (close_fill o)
unfolding close_fill
close_fill-IsConserved o w = ground arith

pub store-IsConserved :
    (p : ℕ) (o : Order) (h : Heap)
    → IsConserved o
    → HeapIsConserved h
    → HeapIsConserved (store p o h)
store-IsConserved p o h w k r = elim (Bool-cases (r == p)) [ inl e ↦ rw e w | inr e ↦ rw e (k r) ]

store_ne : (p r : ℕ) (o : Order) (h : Heap) → r ≢ p → store p o h r ≡ h r
store_ne p r o h ne = ground arith

module _ (h : Heap) (incoming resting : ℕ) (q : ℤ) (ne : incoming ≢ resting) where
  pub fill_pair-IsConserved :
      Nat64 q
      → pos_part q ≤ pos_part (h incoming).remaining_quantity
      → pos_part q ≤ pos_part (h resting).remaining_quantity
      → HeapIsConserved h
      → HeapIsConserved (fill_pair incoming resting q h)
  unfolding fill_pair
  fill_pair-IsConserved n le le' k =
      rw (store_ne incoming resting (take_fill q (h incoming)) h (λ e. ne (sym e))) (
        store-IsConserved resting _ _
          (close_fill-IsConserved _ (take_fill-IsConserved q (h resting) n le' (k resting)))
          (store-IsConserved incoming _ h (take_fill-IsConserved q (h incoming) n le (k incoming))
            k))

  pub fill_pair-incoming : fill_pair incoming resting q h incoming ≡ take_fill q (h incoming)
  unfolding fill_pair
  fill_pair-incoming = ground arith

  pub fill_pair-resting :
      fill_pair incoming resting q h resting ≡ close_fill (take_fill q (h resting))
  unfolding fill_pair
  fill_pair-resting = ground arith

-- The shares that a list of trades moves.
abbrev pub traded : List Trade → ℕ
traded [] = 0
traded (t ∷ ts) = pos_part t.quantity + traded ts

traded-append : (ts us : List Trade) → traded (ts ++ us) ≡ traded ts + traded us
traded-append [] us = omega arith
traded-append (t ∷ ts) us = omega (arith, traded-append ts us)

quantity-build_trade :
    (src : Source) (k : ℕ) (a b : Order) (q : ℤ) → (build_trade src k a b q).quantity ≡ q
unfolding build_trade
quantity-build_trade src k a b q = refl

module _ (src : Source) (incoming : ℕ) where
  -- What is kept: quantities add up everywhere, and `total` is still to trade or traded.
  abbrev pub Accounts : ℕ → MatchState → Type 0
  Accounts total s =
      HeapIsConserved s.heap
      × (traded s.trades + pos_part (s.heap incoming).remaining_quantity ≡ total)

  remaining-Accounts :
      (total : ℕ) (s : MatchState) (q : ℤ)
      → Nat64 q
      → pos_part q ≤ pos_part (s.heap incoming).remaining_quantity
      → Accounts total s
      → traded s.trades
          + (pos_part q + 0)
          + pos_part (take_fill q (s.heap incoming)).remaining_quantity
        ≡ total
  unfolding take_fill
  remaining-Accounts total s q n le k =
      let r = sub64_nat (s.heap incoming).remaining_quantity q (k.0 incoming).remaining n le in
      omega (arith, r.1, k.1)

  fill-Accounts :
      (total : ℕ) (s : MatchState) (p : ℕ) (q : ℤ) (t : Trade)
      → incoming ≢ p
      → Nat64 q
      → pos_part q ≤ pos_part (s.heap incoming).remaining_quantity
      → t.quantity ≡ q
      → Accounts total s
      → traded (s.trades ++ t ∷ [])
          + pos_part (fill_pair incoming p q s.heap incoming).remaining_quantity
        ≡ total
  fill-Accounts total s p q t ne n le tq k =
      rw (fill_pair-incoming s.heap incoming p q ne, traded-append s.trades (t ∷ []), tq)
        (remaining-Accounts total s q n le k)

  pub cut_front-Accounts :
      (total : ℕ) (s : MatchState) → Accounts total s → Accounts total (cut_front incoming s)
  unfolding cut_front
  cut_front-Accounts total s k = k

  pub execute_pair-Accounts :
      (total : ℕ) (s : MatchState) (p i : ℕ) (ps : List ℕ)
      → incoming ≢ p
      → Accounts total s
      → Accounts total (execute_pair src incoming p ps i s)
  unfolding execute_pair
  execute_pair-Accounts total s p i ps ne k =
      let q : ℤ = min64 (s.heap incoming).remaining_quantity (s.heap p).remaining_quantity in
      let m = min64_nat _ _ (k.0 incoming).remaining (k.0 p).remaining in
      let t : Trade = build_trade src (length s.trades) (s.heap incoming) (s.heap p) q in
      elim (Bool-cases (leb_ℤ q (pos 0))) [
        | inl e ↦ rw e k
        | inr e ↦ rw e (
          fill_pair-IsConserved s.heap incoming p q ne m.0 m.1 m.2 k.0,
          fill-Accounts total s p q t ne m.0 m.1 (quantity-build_trade _ _ _ _ q) k,
        )
      ]

  -- The loop keeps every order's quantities in balance, and the trades that it adds are exactly
  -- what the incoming order loses of its remainder.
  pub match_loop_accounts :
      (fuel : ℕ) (s s' : MatchState)
      → HeapIsConserved s.heap
      → match_loop src incoming fuel s ≡ finished s'
      → HeapIsConserved s'.heap
        × (traded s'.trades + pos_part (s'.heap incoming).remaining_quantity
            ≡ traded s.trades + pos_part (s.heap incoming).remaining_quantity)
  match_loop_accounts fuel s s' k e =
      match_loop_rule src incoming (Accounts _)
        (λ t t' a more f. rw f.result (
          execute_pair-Accounts _ (cut_front incoming t) f.resting f.index (scanned incoming t)
            (tradable_ne t.heap incoming f.resting f.tradable) (cut_front-Accounts _ t a)))
        (λ t a. cut_front-Accounts _ t a) fuel s s' (k, refl) e

  pub IsFill-IsConserved :
      (s s' : MatchState)
      → HeapIsConserved s.heap
      → IsFill src incoming s s'
      → HeapIsConserved s'.heap
  IsFill-IsConserved s s' k f =
      rw f.result
        (execute_pair-Accounts _ (cut_front incoming s) f.resting f.index (scanned incoming s)
          (tradable_ne s.heap incoming f.resting f.tradable) (cut_front-Accounts _ s (k, refl))).0
