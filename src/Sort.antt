-- ===== src/Sort.antt =====
-- Go's sort.SliceStable, which the engine calls on order books, as a stable insertion sort: the
-- result of a stable sort by a strict weak order does not depend on the algorithm.
pub mod Laws
use predix_go_backend.Base.{
  ◌≡◌, refl, Bool, true, false, not, List, [], ◌∷◌, ◌++◌, arith, if◌then◌else◌, All, Bool-cases,
  inl, inr,
}

module _ {ℓ} {A : Type ℓ} where
  -- The elements that pass a test, in order.
  unfoldable pub keep : (A → Bool) → List A → List A
  keep test [] = []
  keep test (x ∷ xs) = if test x then x ∷ keep test xs else keep test xs

  pub All-keep {κ} :
      (P : A → Type κ) (test : A → Bool) (xs : List A) → All P xs → All P (keep test xs)
  unfolding keep
  All-keep P test [] h = tt
  All-keep P test (x ∷ xs) h = ground (arith, All-keep P test xs h.1)

  pub All-map {κ μ} :
      (P : A → Type κ) (Q : A → Type μ) (xs : List A) → ((a : A) → P a → Q a) → All P xs → All Q xs
  All-map P Q [] f h = tt
  All-map P Q (x ∷ xs) f h = (f x h.0, All-map P Q xs f h.1)

-- `less` is the comparison that the caller passes.
module _ {ℓ} {A : Type ℓ} (less : A → A → Bool) where
  -- An element that stood in front of `ys` goes behind those that are less, and behind no other.
  unfoldable pub insert_by : A → List A → List A
  insert_by x [] = x ∷ []
  insert_by x (y ∷ ys) = if less y x then y ∷ insert_by x ys else x ∷ y ∷ ys

  unfoldable pub slice_stable : List A → List A
  slice_stable [] = []
  slice_stable (x ∷ xs) = insert_by x (slice_stable xs)

  -- No element is less than one in front of it.
  abbrev pub IsSorted : List A → Type 0
  IsSorted [] = Unit
  IsSorted (x ∷ xs) = All (λ y. less y x ≡ false) xs × IsSorted xs
