-- ===== src/Engine/Matching/Addresses.antt =====
-- Which orders stand on a book: matching takes addresses off it and adds none.
use predix_go_backend.Base.{
  ℕ, zero, suc, ◌≡◌, String, List, [], ◌∷◌, ◌++◌, arith, ◌==◌, string_eq, ℤ, pos, leb_ℤ, Bool-cases,
  inl, inr, All, All-append,
}
use predix_go_backend.Sort.Laws.{slice_stable-All}
use predix_go_backend.Engine.Types.{Heap, OrderBook, side_buy}
use predix_go_backend.Engine.Book.{
  remove_invalid, remove_order_index, remove_order_from_slice, opposite, set_opposite, add_to_book,
  bid_less, ask_less,
}
use predix_go_backend.Engine.Matching.{
  Source, MatchState, finished, cut_front, execute_pair, match_loop, min64, fill_pair,
}
use predix_go_backend.Engine.Matching.Rounds.{match_loop_rule, scanned}

module _ {ℓ} (P : ℕ → Type ℓ) where
  pub All-remove_order_index : (ps : List ℕ) (i : ℕ) → All P ps → All P (remove_order_index ps i)
  unfolding remove_order_index
  All-remove_order_index [] i h = tt
  All-remove_order_index (p ∷ ps) zero h = h.1
  All-remove_order_index (p ∷ ps) (suc i) h = (h.0, All-remove_order_index ps i h.1)

  pub All-remove_invalid : (h : Heap) (ps : List ℕ) → All P ps → All P (remove_invalid h ps)
  unfolding remove_invalid
  All-remove_invalid h [] a = tt
  All-remove_invalid h (p ∷ ps) a = ground (arith, All-remove_invalid h ps a.1)

  pub All-remove_order_from_slice :
      (h : Heap) (ps : List ℕ) (id : String) → All P ps → All P (remove_order_from_slice h ps id)
  unfolding remove_order_from_slice
  All-remove_order_from_slice h [] id a = tt
  All-remove_order_from_slice h (p ∷ ps) id a =
      ground (arith, All-remove_order_from_slice h ps id a.1)

-- Every order on the book satisfies `P`.
abbrev pub BookAll {ℓ} : (ℕ → Type ℓ) → OrderBook → Type ℓ
BookAll P book = All P book.bids × All P book.asks

module _ {ℓ} (P : ℕ → Type ℓ) where
  set_opposite-BookAll :
      (side : String) (ps : List ℕ) (book : OrderBook)
      → All P ps
      → BookAll P book
      → BookAll P (set_opposite side ps book)
  unfolding set_opposite
  set_opposite-BookAll side ps book a b = elim (Bool-cases (side == side_buy)) [
    | inl e ↦ rw e (b.0, a)
    | inr e ↦ rw e (a, b.1)
  ]

  opposite-All : (side : String) (book : OrderBook) → BookAll P book → All P (opposite side book)
  unfolding opposite
  opposite-All side book b = elim (Bool-cases (side == side_buy)) [
    | inl e ↦ rw e b.1
    | inr e ↦ rw e b.0
  ]

  cut_front-BookAll :
      (incoming : ℕ) (s : MatchState) → BookAll P s.book → BookAll P (cut_front incoming s).book
  unfolding cut_front
  cut_front-BookAll incoming s b =
      set_opposite-BookAll (s.heap incoming).side _ s.book
        (All-remove_invalid P s.heap _ (opposite-All (s.heap incoming).side s.book b)) b

  execute_pair-BookAll :
      (src : Source) (incoming p i : ℕ) (ps : List ℕ) (s : MatchState)
      → All P ps
      → BookAll P s.book
      → BookAll P (execute_pair src incoming p ps i s).book
  unfolding execute_pair
  execute_pair-BookAll src incoming p i ps s a b =
      let q : ℤ = min64 (s.heap incoming).remaining_quantity (s.heap p).remaining_quantity in
      let h' : Heap = fill_pair incoming p q s.heap in
      elim (Bool-cases (leb_ℤ q (pos 0))) [
        | inl e ↦ rw e b
        | inr e ↦ elim (Bool-cases (leb_ℤ (h' p).remaining_quantity (pos 0))) [
          | inl gone ↦
              rw (e, gone)
                (set_opposite-BookAll (s.heap incoming).side _ s.book
                  (All-remove_order_index P ps i a) b)
          | inr left ↦ rw (e, left) b
        ]
      ]

  pub match_loop-BookAll :
      (src : Source) (incoming fuel : ℕ) (s s' : MatchState)
      → BookAll P s.book
      → match_loop src incoming fuel s ≡ finished s'
      → BookAll P s'.book
  match_loop-BookAll src incoming fuel s s' b e =
      match_loop_rule src incoming (λ t. BookAll P t.book)
        (λ t t' a more f. rw f.result (
          execute_pair-BookAll src incoming f.resting f.index (scanned incoming t)
            (cut_front incoming t)
            (opposite-All (t.heap incoming).side (cut_front incoming t).book
              (cut_front-BookAll incoming t a))
            (cut_front-BookAll incoming t a)))
        (λ t a. cut_front-BookAll incoming t a) fuel s s' b e

  pub add_to_book-BookAll :
      (h : Heap) (book : OrderBook) (p : ℕ)
      → P p
      → BookAll P book
      → BookAll P (add_to_book h book p)
  unfolding add_to_book
  add_to_book-BookAll h book p x b = elim (Bool-cases ((h p).side == side_buy)) [
    | inl e ↦ rw e (
      slice_stable-All (bid_less h) P (book.bids ++ p ∷ []) (All-append P book.bids _ b.0 (x, tt)),
      b.1,
    )
    | inr e ↦ rw e (
      b.0,
      slice_stable-All (ask_less h) P (book.asks ++ p ∷ []) (All-append P book.asks _ b.1 (x, tt)),
    )
  ]
