-- ===== src/Websocket/Sets.antt =====
-- Go's maps with empty values, as sets: lists that name an element once.
use predix_go_backend.Base.{
  ◌≡◌, refl, sym, ap, ◌∙◌, Bool, false, not, ◌&&◌, ◌||◌, List, [], ◌∷◌, arith, ◌==◌, Comparable,
  if◌then◌else◌, sym, ap, ◌∙◌, Bool-cases, inl, inr,
}

module _ {A : Type 0} ⦃e : Comparable A⦄ where
  unfoldable pub member : A → List A → Bool
  member a [] = false
  member a (x ∷ xs) = (x == a) || member a xs

  unfoldable pub add : A → List A → List A
  unfolding member
  add a xs = if member a xs then xs else a ∷ xs

  unfoldable pub remove : A → List A → List A
  remove a [] = []
  remove a (x ∷ xs) = if x == a then remove a xs else x ∷ remove a xs

  pub member-add : (a b : A) (xs : List A) → member b (add a xs) ≡ ((a == b) || member b xs)
  unfolding member add
  member-add a b xs = elim (Bool-cases (member a xs)) [
    | inr new ↦ rw new refl
    | inl old ↦ elim (Bool-cases (e.beq a b)) [
      | inl hit ↦ rw (old, hit) (ap (λ (y : A). member y xs) (sym ((e.beq_iff a b).0 hit)) ∙ old)
      | inr miss ↦ rw (old, miss) refl
    ]
  ]

  pub member-remove :
      (a b : A) (xs : List A) → member b (remove a xs) ≡ (not (a == b) && member b xs)
  unfolding member remove
  member-remove a b [] = elim (Bool-cases (e.beq a b)) [
    | inl hit ↦ rw hit refl
    | inr miss ↦ rw miss refl
  ]
  member-remove a b (x ∷ xs) =
      ground (arith, member-remove a b xs, e.beq_iff x a, e.beq_iff a b, e.beq_iff x b)
