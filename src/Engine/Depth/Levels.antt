-- ===== src/Engine/Depth/Levels.antt =====
-- Adding one order to the levels of a depth report.
use predix_go_backend.Base.{
  ℕ, ◌+◌, ◌^◌, ◌<◌, ◌≤◌, ◌≡◌, refl, List, [], ◌∷◌, map, ◌==◌, if◌then◌else◌, int_eq, ℤ, pos,
  pos_part, neg_part, add64_nat, Bool-cases, inl, inr, arith,
}
use predix_go_backend.Engine.Types.{OrderBookEntry}
use predix_go_backend.Engine.Depth.{Level, add_level, level_entry}

-- What a list of entries reports at a price.
abbrev pub quantity_at : ℤ → List OrderBookEntry → ℕ
quantity_at k [] = 0
quantity_at k (e ∷ es) = (if e.price == k then pos_part e.quantity else 0) + quantity_at k es

abbrev pub count_at : ℤ → List OrderBookEntry → ℕ
count_at k [] = 0
count_at k (e ∷ es) = (if e.price == k then pos_part e.order_count else 0) + count_at k es

-- Levels whose numbers are non-negative and have room for more.
abbrev pub Room : ℕ → List Level → Type 0
Room n [] = Unit
Room n (l ∷ ls) =
    (neg_part l.quantity ≡ 0)
    × (pos_part l.quantity + n < 2 ^ 63)
    × (neg_part l.count ≡ 0)
    × (pos_part l.count + n < 2 ^ 63)
    × Room n ls

pub Room-mono : (m n : ℕ) (ls : List Level) → m ≤ n → Room n ls → Room m ls
Room-mono m n [] le r = tt
Room-mono m n (l ∷ ls) le r = (r.0, omega arith, r.2, omega arith, Room-mono m n ls le r.4)

module _ (n : ℕ) (price q : ℤ) (z : neg_part q ≡ 0) (s : 0 < pos_part q)
    (f : pos_part q + n < 2 ^ 63) where
  pub add_level-Room : (ls : List Level) → Room (pos_part q + n) ls → Room n (add_level price q ls)
  unfolding add_level
  add_level-Room [] r =
      let a = add64_nat (pos 0) q (refl, omega arith) (z, omega arith) (omega arith) in
      let b = add64_nat (pos 0) (pos 1) (refl, omega arith) (refl, omega arith) (omega arith) in
      (a.0, omega (arith, a.1), b.0, omega (arith, b.1), tt)
  add_level-Room (l ∷ ls) r =
      let a = add64_nat l.quantity q (r.0, omega arith) (z, omega arith) (omega arith) in
      let b = add64_nat l.count (pos 1) (r.2, omega arith) (refl, omega arith) (omega arith) in
      elim (Bool-cases (l.price == price)) [
        | inl e ↦ rw e (
          a.0,
          omega (arith, a.1),
          b.0,
          omega (arith, b.1),
          Room-mono n (pos_part q + n) ls (omega arith) r.4,
        )
        | inr e ↦ rw e (r.0, omega arith, r.2, omega arith, add_level-Room ls r.4)
      ]

  -- A level takes the order in at its price, and no other level changes.
  pub quantity_at-add_level :
      (k : ℤ) (ls : List Level)
      → Room (pos_part q + n) ls
      → quantity_at k (map level_entry (add_level price q ls))
        ≡ (if price == k then pos_part q else 0) + quantity_at k (map level_entry ls)
  unfolding add_level level_entry
  quantity_at-add_level k [] r =
      let a = add64_nat (pos 0) q (refl, omega arith) (z, omega arith) (omega arith) in
      ground (arith, a)
  quantity_at-add_level k (l ∷ ls) r =
      let a = add64_nat l.quantity q (r.0, omega arith) (z, omega arith) (omega arith) in
      elim (Bool-cases (l.price == price)) [
        | inl e ↦ rw (e, (int_eq.beq_iff l.price price).0 e) (ground (arith, a.1))
        | inr e ↦ rw (e, quantity_at-add_level k ls r.4) (omega arith)
      ]

  pub count_at-add_level :
      (k : ℤ) (ls : List Level)
      → Room (pos_part q + n) ls
      → count_at k (map level_entry (add_level price q ls))
        ≡ (if price == k then 1 else 0) + count_at k (map level_entry ls)
  unfolding add_level level_entry
  count_at-add_level k [] r =
      let a = add64_nat (pos 0) (pos 1) (refl, omega arith) (refl, omega arith) (omega arith) in
      ground (arith, a)
  count_at-add_level k (l ∷ ls) r =
      let a = add64_nat l.count (pos 1) (r.2, omega arith) (refl, omega arith) (omega arith) in
      elim (Bool-cases (l.price == price)) [
        | inl e ↦ rw (e, (int_eq.beq_iff l.price price).0 e) (ground (arith, a.1))
        | inr e ↦ rw (e, count_at-add_level k ls r.4) (omega arith)
      ]
