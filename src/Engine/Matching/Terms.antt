-- ===== src/Engine/Matching/Terms.antt =====
-- Matching never changes what an order was placed for: only its quantities left and filled and its
-- status. So price order, which reads the prices, survives it.
use predix_go_backend.Base.{
  ℕ, zero, suc, ◌≡◌, refl, sym, ap, ◌∙◌, Bool, false, List, [], ◌∷◌, arith, ◌==◌, nat_eq, string_eq,
  String, ℤ, pos, Bool-cases, inl, inr, subst, leb_ℤ,
}
use mathlib.Core.Path.{fun_ext}
use predix_go_backend.Sort.{IsSorted}
use predix_go_backend.Engine.Types.{Heap, Order, OrderBook, Status, store, side_buy}
use predix_go_backend.Engine.Book.{
  remove_invalid, remove_order_index, opposite, set_opposite, bid_less, ask_less,
}
use predix_go_backend.Engine.Book.Priority.{IsOrdered}
use predix_go_backend.Engine.Matching.{
  Source, MatchState, finished, cut_front, execute_pair, match_loop, min64, take_fill, close_fill,
  fill_pair,
}
use predix_go_backend.Engine.Matching.Addresses.{All-remove_order_index}
use predix_go_backend.Engine.Matching.Rounds.{match_loop_rule, scanned, heap-cut_front}

-- An order with what matching and the ledger may write blanked out.
unfoldable pub terms : Order → Order
terms o = record o {
  filled_quantity = pos 0;
  remaining_quantity = pos 0;
  status = Status.pending;
  locked_funds = pos 0;
}

abbrev pub SameTerms : Heap → Heap → Type 0
SameTerms h h' = (p : ℕ) → terms (h' p) ≡ terms (h p)

pub price-terms : (a b : Order) → terms a ≡ terms b → a.price ≡ b.price
unfolding terms
price-terms a b e = ap (λ (o : Order). o.price) e

pub terms-take_fill : (q : ℤ) (o : Order) → terms (take_fill q o) ≡ terms o
unfolding terms take_fill
terms-take_fill q o = refl

pub terms-close_fill : (o : Order) → terms (close_fill o) ≡ terms o
unfolding terms close_fill
terms-close_fill o = ground arith

pub store-SameTerms :
    (p : ℕ) (o : Order) (h : Heap) → terms o ≡ terms (h p) → SameTerms h (store p o h)
store-SameTerms p o h e r = elim (Bool-cases (r == p)) [
  | inl hit ↦ rw hit (e ∙ ap (λ (x : ℕ). terms (h x)) (sym ((nat_eq.beq_iff r p).0 hit)))
  | inr miss ↦ rw miss refl
]

pub fill_pair-SameTerms :
    (incoming resting : ℕ) (q : ℤ) (h : Heap) → SameTerms h (fill_pair incoming resting q h)
unfolding fill_pair
fill_pair-SameTerms incoming resting q h r =
    let h' : Heap = store incoming (take_fill q (h incoming)) h in
    store-SameTerms resting (close_fill (take_fill q (h' resting))) h'
      (terms-close_fill _ ∙ terms-take_fill q (h' resting)) r
    ∙ store-SameTerms incoming (take_fill q (h incoming)) h (terms-take_fill q (h incoming)) r

pub execute_pair-SameTerms :
    (src : Source) (incoming p i : ℕ) (ps : List ℕ) (s : MatchState)
    → SameTerms s.heap (execute_pair src incoming p ps i s).heap
unfolding execute_pair
execute_pair-SameTerms src incoming p i ps s r =
    let q : ℤ = min64 (s.heap incoming).remaining_quantity (s.heap p).remaining_quantity in
    elim (Bool-cases (leb_ℤ q (pos 0))) [
      | inl e ↦ rw e refl
      | inr e ↦ rw e (fill_pair-SameTerms incoming p q s.heap r)
    ]

-- Sorting reads prices only.
bid_less-terms : (h h' : Heap) (p q : ℕ) → SameTerms h h' → bid_less h' p q ≡ bid_less h p q
bid_less-terms h h' p q t = rw (price-terms _ _ (t p), price-terms _ _ (t q)) refl

ask_less-terms : (h h' : Heap) (p q : ℕ) → SameTerms h h' → ask_less h' p q ≡ ask_less h p q
ask_less-terms h h' p q t = rw (price-terms _ _ (t p), price-terms _ _ (t q)) refl

pub SameTerms-IsOrdered :
    (h h' : Heap) (book : OrderBook) → SameTerms h h' → IsOrdered h book → IsOrdered h' book
SameTerms-IsOrdered h h' book t o = record {
  bids =
      subst (λ less. IsSorted less book.bids)
        (fun_ext (λ p. fun_ext (λ q. sym (bid_less-terms h h' p q t)))) o.bids;
  asks =
      subst (λ less. IsSorted less book.asks)
        (fun_ext (λ p. fun_ext (λ q. sym (ask_less-terms h h' p q t)))) o.asks;
}

module _ (less : ℕ → ℕ → Bool) where
  remove_order_index-IsSorted :
      (ps : List ℕ) (i : ℕ) → IsSorted less ps → IsSorted less (remove_order_index ps i)
  unfolding remove_order_index
  remove_order_index-IsSorted [] i h = tt
  remove_order_index-IsSorted (p ∷ ps) zero h = h.1
  remove_order_index-IsSorted (p ∷ ps) (suc i) h = (
    All-remove_order_index (λ q. less q p ≡ false) ps i h.0,
    remove_order_index-IsSorted ps i h.1,
  )

  remove_invalid-IsSorted :
      (h : Heap) (ps : List ℕ) → IsSorted less ps → IsSorted less (remove_invalid h ps)
  unfolding remove_invalid
  remove_invalid-IsSorted h [] s = tt
  remove_invalid-IsSorted h (p ∷ ps) s = ground (arith, remove_invalid-IsSorted h ps s.1)

-- A book whose opposite side is shortened in a way that keeps sorted lists sorted stays ordered.
set_opposite-IsOrdered :
    (h : Heap) (side : String) (shorten : List ℕ → List ℕ) (book : OrderBook)
    → ((less : ℕ → ℕ → Bool) (ps : List ℕ) → IsSorted less ps → IsSorted less (shorten ps))
    → IsOrdered h book
    → IsOrdered h (set_opposite side (shorten (opposite side book)) book)
unfolding set_opposite opposite
set_opposite-IsOrdered h side shorten book keeps o = elim (Bool-cases (side == side_buy)) [
  | inl e ↦ rw e (record { bids = o.bids; asks = keeps (ask_less h) book.asks o.asks })
  | inr e ↦ rw e (record { bids = keeps (bid_less h) book.bids o.bids; asks = o.asks })
]

pub cut_front-IsOrdered :
    (incoming : ℕ) (s : MatchState)
    → IsOrdered s.heap s.book
    → IsOrdered (cut_front incoming s).heap (cut_front incoming s).book
unfolding cut_front
cut_front-IsOrdered incoming s o =
    set_opposite-IsOrdered s.heap (s.heap incoming).side (remove_invalid s.heap) s.book
      (λ less ps. remove_invalid-IsSorted less s.heap ps) o

pub execute_pair-IsOrdered :
    (src : Source) (incoming p i : ℕ) (s : MatchState)
    → IsOrdered s.heap s.book
    → let s' = execute_pair src incoming p (opposite (s.heap incoming).side s.book) i s in
      IsOrdered s'.heap s'.book
unfolding execute_pair
execute_pair-IsOrdered src incoming p i s o =
    let q : ℤ = min64 (s.heap incoming).remaining_quantity (s.heap p).remaining_quantity in
    let h' : Heap = fill_pair incoming p q s.heap in
    let same = fill_pair-SameTerms incoming p q s.heap in
    elim (Bool-cases (leb_ℤ q (pos 0))) [
      | inl e ↦ rw e o
      | inr e ↦ elim (Bool-cases (leb_ℤ (h' p).remaining_quantity (pos 0))) [
        | inl gone ↦
            rw (e, gone)
              (SameTerms-IsOrdered s.heap h' _ same (
                set_opposite-IsOrdered s.heap (s.heap incoming).side (λ ps. remove_order_index ps i)
                  s.book (λ less ps. remove_order_index-IsSorted less ps i) o))
        | inr left ↦ rw (e, left) (SameTerms-IsOrdered s.heap h' s.book same o)
      ]
    ]

pub cut_front-SameTerms :
    (h : Heap) (incoming : ℕ) (s : MatchState)
    → SameTerms h s.heap
    → SameTerms h (cut_front incoming s).heap
unfolding cut_front
cut_front-SameTerms h incoming s t = t

-- The loop changes no order's terms, and a book in price order stays in price order.
pub match_loop_order :
    (src : Source) (incoming fuel : ℕ) (s s' : MatchState)
    → IsOrdered s.heap s.book
    → match_loop src incoming fuel s ≡ finished s'
    → SameTerms s.heap s'.heap × IsOrdered s'.heap s'.book
match_loop_order src incoming fuel s s' o e =
    match_loop_rule src incoming (λ t. SameTerms s.heap t.heap × IsOrdered t.heap t.book)
      (λ t t' a more f. rw f.result (
        λ r.
            execute_pair-SameTerms src incoming f.resting f.index (scanned incoming t)
              (cut_front incoming t) r
            ∙ cut_front-SameTerms s.heap incoming t a.0 r,
        subst
            (λ (h : Heap).
              let u =
                execute_pair src incoming f.resting
                  (opposite (h incoming).side (cut_front incoming t).book) f.index
                  (cut_front incoming t) in
              IsOrdered u.heap u.book)
            (heap-cut_front src incoming t)
            (execute_pair-IsOrdered src incoming f.resting f.index (cut_front incoming t)
              (cut_front-IsOrdered incoming t a.1)),
      ))
      (λ t a. (cut_front-SameTerms s.heap incoming t a.0, cut_front-IsOrdered incoming t a.1)) fuel
      s s' (λ p. refl, o) e
