-- ===== src/Engine/Matching/Termination.antt =====
-- The loop of `matchAgainstBook` ends: each round fills the incoming order or takes a resting order
-- off the book, so the fuel that the model gives is enough.
use predix_go_backend.Base.{
  ℕ, zero, suc, ◌≤◌, ◌<◌, ◌≡◌, ◌≢◌, refl, sym, ap, subst, true, false, some, List, [], ◌∷◌, arith,
  ltb_ℤ, leb_ℤ, ℤ, pos, pos_part, Nat64, sub64_nat, Bool-cases, inl, inr, ◌⊎◌, length, get_elem?,
}
use predix_go_backend.Engine.Types.{Heap, Order, OrderBook}
use predix_go_backend.Engine.Book.{
  opposite, opposite-set_opposite, remove_invalid, remove_order_index,
}
use predix_go_backend.Engine.Book.Scan.{tradable_ne, tradable_live}
use predix_go_backend.Engine.Matching.{
  Source, MatchState, finished, cut_front, execute_pair, match_round, match_loop, min64, take_fill,
  close_fill, match_against_book,
}
use predix_go_backend.Engine.Matching.Rounds.{
  IsFill, scanned, match_round-IsFill, match_round-ne-panic, Round-cases, heap-cut_front,
}
use predix_go_backend.Engine.Matching.Quantities.{
  HeapIsConserved, IsConserved, min64_nat, fill_pair-incoming, fill_pair-resting,
  IsFill-IsConserved,
}

length-remove_order_index :
    (ps : List ℕ) (i p : ℕ)
    → get_elem? ps i ≡ some p
    → suc (length (remove_order_index ps i)) ≡ length ps
unfolding remove_order_index
length-remove_order_index [] i p e = ground arith
length-remove_order_index (x ∷ ps) zero p e = refl
length-remove_order_index (x ∷ ps) (suc i) p e = ap suc (length-remove_order_index ps i p e)

length-remove_invalid-le : (h : Heap) (ps : List ℕ) → length (remove_invalid h ps) ≤ length ps
unfolding remove_invalid
length-remove_invalid-le h [] = omega arith
length-remove_invalid-le h (p ∷ ps) = ground (arith, length-remove_invalid-le h ps)

-- The orders that the incoming order still stands against.
abbrev pub against : ℕ → MatchState → ℕ
against incoming s = length (opposite (s.heap incoming).side s.book)

min64_choice :
    (a b : ℤ)
    → Nat64 a
    → Nat64 b
    → (pos_part (min64 a b) ≡ pos_part a) ⊎ (pos_part (min64 a b) ≡ pos_part b)
unfolding min64
min64_choice a b p q = ground arith

ltb_pos : (a : ℤ) → ltb_ℤ (pos 0) a ≡ true → 0 < pos_part a
ltb_pos a e = ground arith

leb_pos : (a : ℤ) → leb_ℤ a (pos 0) ≡ false → 0 < pos_part a
leb_pos a e = ground arith

min64_pos :
    (a b : ℤ)
    → Nat64 a
    → Nat64 b
    → 0 < pos_part a
    → 0 < pos_part b
    → leb_ℤ (min64 a b) (pos 0) ≡ false
unfolding min64
min64_pos a b p q h k = ground arith

-- What is filled by all that remains has nothing left.
take_fill_all :
    (o : Order) (q : ℤ)
    → IsConserved o
    → Nat64 q
    → pos_part q ≡ pos_part o.remaining_quantity
    → pos_part (take_fill q o).remaining_quantity ≡ 0
unfolding take_fill
take_fill_all o q w n e =
    omega (arith, sub64_nat o.remaining_quantity q w.remaining n (omega arith))

close_fill_all :
    (o : Order)
    → pos_part o.remaining_quantity ≡ 0
    → leb_ℤ (close_fill o).remaining_quantity (pos 0) ≡ true
unfolding close_fill
close_fill_all o e = ground arith

side-take_fill : (q : ℤ) (o : Order) → (take_fill q o).side ≡ o.side
unfolding take_fill
side-take_fill q o = refl

module _ (src : Source) (incoming : ℕ) where
  cut_front-le : (s : MatchState) → length (scanned incoming s) ≤ against incoming s
  unfolding cut_front
  cut_front-le s =
      rw
        (opposite-set_opposite (s.heap incoming).side
          (remove_invalid s.heap (opposite (s.heap incoming).side s.book)) s.book)
        (length-remove_invalid-le s.heap (opposite (s.heap incoming).side s.book))

  -- A pair with something to trade fills the incoming order or takes the resting one off.
  execute_pair_progress :
      (s : MatchState) (p i : ℕ) (ps : List ℕ)
      → incoming ≢ p
      → HeapIsConserved s.heap
      → 0 < pos_part (s.heap incoming).remaining_quantity
      → 0 < pos_part (s.heap p).remaining_quantity
      → get_elem? ps i ≡ some p
      → let s' = execute_pair src incoming p ps i s in
        (pos_part (s'.heap incoming).remaining_quantity ≡ 0)
        ⊎ (suc (against incoming s') ≡ length ps)
  unfolding execute_pair
  execute_pair_progress s p i ps ne k live live' at =
      let a : ℤ = (s.heap incoming).remaining_quantity in
      let b : ℤ = (s.heap p).remaining_quantity in
      let m = min64_nat a b (k incoming).remaining (k p).remaining in
      let choice = min64_choice a b (k incoming).remaining (k p).remaining in
      let some_q = min64_pos a b (k incoming).remaining (k p).remaining live live' in
      elim choice [
        | inl e ↦ inl (
            rw (some_q, fill_pair-incoming s.heap incoming p (min64 a b) ne)
              (take_fill_all (s.heap incoming) (min64 a b) (k incoming) m.0 e))
        | inr e ↦ inr (
            rw
              (
                some_q,
                fill_pair-resting s.heap incoming p (min64 a b) ne,
                close_fill_all (take_fill (min64 a b) (s.heap p))
                    (take_fill_all (s.heap p) (min64 a b) (k p) m.0 e),
                fill_pair-incoming s.heap incoming p (min64 a b) ne,
                side-take_fill (min64 a b) (s.heap incoming),
                opposite-set_opposite (s.heap incoming).side (remove_order_index ps i) s.book,
              )
              (length-remove_order_index ps i p at))
      ]

  -- A fill leaves fewer rounds.
  IsFill-progress :
      (s s' : MatchState)
      → HeapIsConserved s.heap
      → ltb_ℤ (pos 0) (s.heap incoming).remaining_quantity ≡ true
      → IsFill src incoming s s'
      → (pos_part (s'.heap incoming).remaining_quantity ≡ 0)
        ⊎ (against incoming s' < against incoming s)
  IsFill-progress s s' k more f =
      let heap_same = heap-cut_front src incoming s in
      rw f.result
        (elim (execute_pair_progress (cut_front incoming s) f.resting f.index (scanned incoming s)
          (tradable_ne s.heap incoming f.resting f.tradable)
          (subst HeapIsConserved (sym heap_same) k)
          (subst (λ (h : Heap). 0 < pos_part (h incoming).remaining_quantity) (sym heap_same)
            (ltb_pos (s.heap incoming).remaining_quantity more))
          (subst (λ (h : Heap). 0 < pos_part (h f.resting).remaining_quantity) (sym heap_same)
            (leb_pos (s.heap f.resting).remaining_quantity (tradable_live _ _ f.tradable)))
          f.found) [ inl e ↦ inl e | inr e ↦ inr (omega (arith, e, cut_front-le s)) ])

  match_loop_filled :
      (fuel : ℕ) (s : MatchState)
      → 0 < fuel
      → pos_part (s.heap incoming).remaining_quantity ≡ 0
      → match_loop src incoming fuel s ≡ finished s
  unfolding match_loop
  match_loop_filled zero s h e = absurd (omega arith)
  match_loop_filled (suc fuel) s h e = ground arith

  after_fill :
      (fuel : ℕ) (s t : MatchState)
      → HeapIsConserved s.heap
      → ltb_ℤ (pos 0) (s.heap incoming).remaining_quantity ≡ true
      → IsFill src incoming s t
      → suc (against incoming s) < suc fuel
      → (HeapIsConserved t.heap
          → suc (against incoming t) < fuel
          → (s' : MatchState) × (match_loop src incoming fuel t ≡ finished s'))
      → (s' : MatchState) × (match_loop src incoming fuel t ≡ finished s')
  after_fill fuel s t k more f h rest = elim (IsFill-progress s t k more f) [
    | inl e ↦ (t, match_loop_filled fuel t (omega arith) e)
    | inr e ↦ rest (IsFill-IsConserved src incoming s t k f) (omega arith)
  ]

  -- With more fuel than rounds can follow, the loop ends by its own tests.
  match_loop_ends :
      (fuel : ℕ) (s : MatchState)
      → HeapIsConserved s.heap
      → suc (against incoming s) < fuel
      → (s' : MatchState) × (match_loop src incoming fuel s ≡ finished s')
  unfolding match_loop
  match_loop_ends zero s k h = absurd (omega arith)
  match_loop_ends (suc fuel) s k h =
      elim (Bool-cases (ltb_ℤ (pos 0) (s.heap incoming).remaining_quantity)) [
        | inr done ↦ (s, ground arith)
        | inl more ↦ elim (Round-cases (match_round src incoming s)) [
          | inl (t, r) ↦ (t, ground arith)
          | inr (inl (t, r)) ↦
              let f = match_round-IsFill src incoming s t r in
              let (s', e) = after_fill fuel s t k more f h (match_loop_ends fuel t) in
              (s', ground arith)
          | inr (inr r) ↦ absurd (match_round-ne-panic src incoming s r)
        ]
      ]

-- Matching an order against a book of consistent orders always produces a result: it neither runs
-- out of rounds nor indexes out of range.
pub match_against_book_ends :
    (src : Source) (incoming : ℕ) (h : Heap) (book : OrderBook)
    → HeapIsConserved h
    → (s : MatchState) × (match_against_book src incoming h book ≡ finished s)
unfolding match_against_book
match_against_book_ends src incoming h book k = match_loop_ends src incoming _ _ k (omega arith)
