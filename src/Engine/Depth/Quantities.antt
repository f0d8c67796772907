-- ===== src/Engine/Depth/Quantities.antt =====
-- The depth that is reported: levels in price order, each with exactly the open quantity and the
-- number of open orders at its price.
use predix_go_backend.Engine.Depth.Levels.{
  Room, quantity_at, count_at, add_level-Room, quantity_at-add_level, count_at-add_level,
}
use predix_go_backend.Base.{
  ℕ, ◌+◌, ◌^◌, ◌<◌, ◌≡◌, refl, ◌∙◌, Bool, true, false, List, [], ◌∷◌, map, ◌==◌, if◌then◌else◌,
  int_eq, leb_ℤ, ℤ, pos, pos_part, Bool-cases, inl, inr, arith, subst, not, ◌&&◌,
}
use predix_go_backend.Sort.{insert_by, slice_stable, IsSorted}
use predix_go_backend.Sort.Laws.{slice_stable-IsSorted}
use predix_go_backend.Engine.Types.{Order, Heap, OrderBookEntry}
use predix_go_backend.Engine.Matching.Quantities.{HeapIsConserved}
use predix_go_backend.Engine.Depth.{
  Level, is_open, add_level, count_order, collect_levels, level_entry, dearer, cheaper,
  aggregate_bids, aggregate_asks,
}

-- An order counts where it is open and has something left.
abbrev pub counts : Order → Bool
counts o = is_open o && not (leb_ℤ o.remaining_quantity (pos 0))

-- The open quantity, and the number of open orders, at price `k` among the orders of a slice.
abbrev pub open_quantity : Heap → ℤ → List ℕ → ℕ
open_quantity h k [] = 0
open_quantity h k (p ∷ ps) =
    (if counts (h p) && ((h p).price == k) then pos_part (h p).remaining_quantity else 0)
    + open_quantity h k ps

abbrev pub open_count : Heap → ℤ → List ℕ → ℕ
open_count h k [] = 0
open_count h k (p ∷ ps) = (if counts (h p) && ((h p).price == k) then 1 else 0) + open_count h k ps

module _ (less : OrderBookEntry → OrderBookEntry → Bool) (k : ℤ) where
  quantity_at-insert_by :
      (e : OrderBookEntry) (es : List OrderBookEntry)
      → quantity_at k (insert_by less e es) ≡ quantity_at k (e ∷ es)
  unfolding insert_by
  quantity_at-insert_by e [] = refl
  quantity_at-insert_by e (x ∷ es) = ground (arith, quantity_at-insert_by e es)

  quantity_at-slice_stable :
      (es : List OrderBookEntry) → quantity_at k (slice_stable less es) ≡ quantity_at k es
  unfolding slice_stable
  quantity_at-slice_stable [] = refl
  quantity_at-slice_stable (e ∷ es) =
      quantity_at-insert_by e (slice_stable less es) ∙ omega (arith, quantity_at-slice_stable es)

  count_at-insert_by :
      (e : OrderBookEntry) (es : List OrderBookEntry)
      → count_at k (insert_by less e es) ≡ count_at k (e ∷ es)
  unfolding insert_by
  count_at-insert_by e [] = refl
  count_at-insert_by e (x ∷ es) = ground (arith, count_at-insert_by e es)

  count_at-slice_stable :
      (es : List OrderBookEntry) → count_at k (slice_stable less es) ≡ count_at k es
  unfolding slice_stable
  count_at-slice_stable [] = refl
  count_at-slice_stable (e ∷ es) =
      count_at-insert_by e (slice_stable less es) ∙ omega (arith, count_at-slice_stable es)

-- All that is open in a slice.
abbrev pub open_total : Heap → List ℕ → ℕ
open_total h [] = 0
open_total h (p ∷ ps) =
    (if counts (h p) then pos_part (h p).remaining_quantity else 0) + open_total h ps

-- What the levels report at a price.
abbrev Reports : Heap → ℤ → List ℕ → List Level → List Level → Type 0
Reports h k ps before after =
    (quantity_at k (map level_entry after)
      ≡ open_quantity h k ps + quantity_at k (map level_entry before))
    × (count_at k (map level_entry after) ≡ open_count h k ps + count_at k (map level_entry before))

count_order_taken :
    (o : Order) (ls : List Level)
    → counts o ≡ true
    → count_order ls o ≡ add_level o.price o.remaining_quantity ls
unfolding count_order
count_order_taken o ls e = ground arith

count_order_skipped : (o : Order) (ls : List Level) → counts o ≡ false → count_order ls o ≡ ls
unfolding count_order
count_order_skipped o ls e = ground arith

counts-pos : (o : Order) → counts o ≡ true → 0 < pos_part o.remaining_quantity
counts-pos o e = ground arith

collect_levels-Reports :
    (h : Heap) (k : ℤ) (ps : List ℕ) (ls : List Level)
    → HeapIsConserved h
    → open_total h ps < 2 ^ 63
    → Room (open_total h ps) ls
    → Reports h k ps ls (collect_levels h ps ls)
unfolding collect_levels
collect_levels-Reports h k [] ls c f r = (omega arith, omega arith)
collect_levels-Reports h k (p ∷ ps) ls c f r = elim (Bool-cases (counts (h p))) [
  | inl e ↦
      let o : Order = h p in
      let q : ℤ = o.remaining_quantity in
      let z = (c p).remaining.0 in
      let live = counts-pos o e in
      let n : ℕ = open_total h ps in
      let more : open_total h (p ∷ ps) ≡ pos_part q + n = rw e refl in
      let fits : pos_part q + n < 2 ^ 63 = omega (arith, more, f) in
      let room : Room (pos_part q + n) ls = subst (λ (m : ℕ). Room m ls) more r in
      let rest =
        collect_levels-Reports h k ps (add_level o.price q ls) c (omega (arith, fits))
          (add_level-Room n o.price q z live fits ls room) in
      rw (count_order_taken o ls e, e)
        (
          omega (arith, rest.0, quantity_at-add_level n o.price q z live fits k ls room),
          omega (arith, rest.1, count_at-add_level n o.price q z live fits k ls room),
        )
  | inr e ↦
      let none_more : open_total h (p ∷ ps) ≡ open_total h ps = rw e (omega arith) in
      let rest =
        collect_levels-Reports h k ps ls c (omega (arith, none_more, f))
          (subst (λ (m : ℕ). Room m ls) none_more r) in
      rw (count_order_skipped (h p) ls e, e) (omega (arith, rest.0), omega (arith, rest.1))
]

dearer_trans :
    (x y z : OrderBookEntry) → dearer y x ≡ false → dearer z y ≡ false → dearer z x ≡ false
dearer_trans x y z p q = ground arith

dearer_asym : (x y : OrderBookEntry) → dearer x y ≡ true → dearer y x ≡ false
dearer_asym x y p = ground arith

cheaper_trans :
    (x y z : OrderBookEntry) → cheaper y x ≡ false → cheaper z y ≡ false → cheaper z x ≡ false
cheaper_trans x y z p q = ground arith

cheaper_asym : (x y : OrderBookEntry) → cheaper x y ≡ true → cheaper y x ≡ false
cheaper_asym x y p = ground arith

pub aggregate_reports :
    (h : Heap) (ps : List ℕ) (k : ℤ)
    → HeapIsConserved h
    → open_total h ps < 2 ^ 63
    → IsSorted dearer (aggregate_bids h ps)
      × IsSorted cheaper (aggregate_asks h ps)
      × (quantity_at k (aggregate_bids h ps) ≡ open_quantity h k ps)
      × (quantity_at k (aggregate_asks h ps) ≡ open_quantity h k ps)
      × (count_at k (aggregate_bids h ps) ≡ open_count h k ps)
      × (count_at k (aggregate_asks h ps) ≡ open_count h k ps)
unfolding aggregate_bids aggregate_asks
aggregate_reports h ps k c f =
    let es : List OrderBookEntry = map level_entry (collect_levels h ps []) in
    let (quantities, counted) = collect_levels-Reports h k ps [] c f tt in
    (
      slice_stable-IsSorted dearer dearer_trans dearer_asym es,
      slice_stable-IsSorted cheaper cheaper_trans cheaper_asym es,
      omega (arith, quantity_at-slice_stable dearer k es, quantities),
      omega (arith, quantity_at-slice_stable cheaper k es, quantities),
      omega (arith, count_at-slice_stable dearer k es, counted),
      omega (arith, count_at-slice_stable cheaper k es, counted),
    )
