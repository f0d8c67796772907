-- ===== src/Sort/Laws.antt =====
-- Stable sorting: sortedness, and what it does to a sorted list with one more element at its end.
use predix_go_backend.Base.{
  ◌≡◌, refl, ap, ◌∙◌, Bool, true, false, not, List, [], ◌∷◌, ◌++◌, arith, All, All-append,
  Bool-cases, inl, inr,
}
use predix_go_backend.Sort.{keep, All-keep, All-map, insert_by, slice_stable, IsSorted}

module _ {ℓ} {A : Type ℓ} (less : A → A → Bool)
    (trans : (x y z : A) → less y x ≡ false → less z y ≡ false → less z x ≡ false)
    (asym : (x y : A) → less x y ≡ true → less y x ≡ false) where
  All-insert_by {κ} :
      (P : A → Type κ) (x : A) (ys : List A) → P x → All P ys → All P (insert_by less x ys)
  unfolding insert_by
  All-insert_by P x [] p h = (p, tt)
  All-insert_by P x (y ∷ ys) p h = ground (arith, All-insert_by P x ys p h.1)

  -- What is not less than `y` is not less than what stands before `y`.
  All-trans :
      (x y : A) (ys : List A)
      → less y x ≡ false
      → All (λ z. less z y ≡ false) ys
      → All (λ z. less z x ≡ false) ys
  All-trans x y ys e h =
      All-map (λ z. less z y ≡ false) (λ z. less z x ≡ false) ys (λ z d. trans x y z e d) h

  insert_by-IsSorted :
      (x : A) (ys : List A) → IsSorted less ys → IsSorted less (insert_by less x ys)
  unfolding insert_by
  insert_by-IsSorted x [] h = (tt, tt)
  insert_by-IsSorted x (y ∷ ys) h = elim (Bool-cases (less y x)) [
    | inl e ↦ rw e (All-insert_by _ x ys (asym y x e) h.0, insert_by-IsSorted x ys h.1)
    | inr e ↦ rw e ((e, All-trans x y ys e h.0), h)
  ]

  pub slice_stable-IsSorted : (xs : List A) → IsSorted less (slice_stable less xs)
  unfolding slice_stable
  slice_stable-IsSorted [] = tt
  slice_stable-IsSorted (x ∷ xs) = insert_by-IsSorted x _ (slice_stable-IsSorted xs)

  -- A list that nothing in is less than `x` takes `x` at its front.
  insert_by_front :
      (x : A) (ys : List A) → All (λ y. less y x ≡ false) ys → insert_by less x ys ≡ x ∷ ys
  unfolding insert_by
  insert_by_front x [] h = refl
  insert_by_front x (y ∷ ys) h = rw h.0

  -- Where the last element is less than the first of a sorted list, it is less than each.
  keep_none :
      (p x : A) (xs : List A)
      → less p x ≡ true
      → All (λ y. less y x ≡ false) xs
      → (keep (λ y. not (less p y)) xs ≡ []) × (keep (less p) xs ≡ xs)
  unfolding keep
  keep_none p x [] e h = (refl, refl)
  keep_none p x (y ∷ ys) e h = ground (arith, keep_none p x ys e h.1, trans x y p h.0)

  pub slice_stable-snoc :
      (p : A) (xs : List A)
      → IsSorted less xs
      → slice_stable less (xs ++ p ∷ []) ≡ keep (λ y. not (less p y)) xs ++ p ∷ keep (less p) xs
  unfolding slice_stable keep insert_by
  slice_stable-snoc p [] h = refl
  slice_stable-snoc p (x ∷ xs) h = elim (Bool-cases (less p x)) [
    | inl e ↦
        let none_kept = keep_none p x xs e h.0 in
        rw (slice_stable-snoc p xs h.1, e, none_kept.0, none_kept.1)
          (rw e (ap (◌∷◌ p) (insert_by_front x xs h.0)))
    | inr e ↦
        rw (slice_stable-snoc p xs h.1, e)
          (insert_by_front x _ (
            All-append _ (keep (λ y. not (less p y)) xs) _ (All-keep _ _ xs h.0)
              (e, All-keep _ (less p) xs h.0)))
  ]

-- Sorting adds no element.
module _ {ℓ} {A : Type ℓ} (less : A → A → Bool) where
  insert_by-All {κ} :
      (P : A → Type κ) (x : A) (ys : List A) → P x → All P ys → All P (insert_by less x ys)
  unfolding insert_by
  insert_by-All P x [] p h = (p, tt)
  insert_by-All P x (y ∷ ys) p h = ground (arith, insert_by-All P x ys p h.1)

  pub slice_stable-All {κ} :
      (P : A → Type κ) (xs : List A) → All P xs → All P (slice_stable less xs)
  unfolding slice_stable
  slice_stable-All P [] h = tt
  slice_stable-All P (x ∷ xs) h =
      insert_by-All P x (slice_stable less xs) h.0 (slice_stable-All P xs h.1)

-- Two comparisons that agree on the elements of a list sort it alike.
pub IsSorted-congr {ℓ κ} :
    {A : Type ℓ} (P : A → Type κ) (less less' : A → A → Bool)
    → ((x y : A) → P x → P y → less' x y ≡ less x y)
    → (xs : List A) → All P xs
    → IsSorted less xs
    → IsSorted less' xs
IsSorted-congr {A} P less less' same [] h s = tt
IsSorted-congr {A} P less less' same (x ∷ xs) h s =
    (all_congr xs h.1 s.0, IsSorted-congr P less less' same xs h.1 s.1)
  where
    all_congr :
        (ys : List A) → All P ys → All (λ y. less y x ≡ false) ys → All (λ y. less' y x ≡ false) ys
    all_congr [] k t = tt
    all_congr (y ∷ ys) k t = (same y x k.0 h.0 ∙ t.0, all_congr ys k.1 t.1)
