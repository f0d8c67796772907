-- ===== src/Dict.antt =====
-- A Go map with string keys: an association list that an assignment overwrites in place, so that a
-- key is never listed twice. Iteration order, which Go leaves open, is never observed through it.
use predix_go_backend.Base.{
  ◌≡◌, refl, String, Option, none, some, List, [], ◌∷◌, arith, ◌==◌, if◌then◌else◌, string_eq,
  Bool-cases, inl, inr,
}

abbrev pub Dict {ℓ} : Type ℓ → Type ℓ
Dict V = List (String × V)

module _ {ℓ} {V : Type ℓ} where
  -- `m[k]` with the `ok` flag.
  unfoldable pub lookup : String → Dict V → Option V
  lookup k [] = none
  lookup k ((j, v) ∷ d) = if j == k then some v else lookup k d

  -- `m[k] = v`
  unfoldable pub insert : String → V → Dict V → Dict V
  insert k v [] = (k, v) ∷ []
  insert k v ((j, w) ∷ d) = if j == k then (j, v) ∷ d else (j, w) ∷ insert k v d

  -- `delete(m, k)`
  unfoldable pub erase : String → Dict V → Dict V
  erase k [] = []
  erase k ((j, w) ∷ d) = if j == k then erase k d else (j, w) ∷ erase k d

  pub lookup-insert :
      (k j : String) (v : V) (d : Dict V)
      → lookup j (insert k v d) ≡ (if k == j then some v else lookup j d)
  unfolding lookup insert
  lookup-insert k j v [] = refl
  lookup-insert k j v ((i, w) ∷ d) = ground (
    arith,
    string_eq.beq_iff k j,
    string_eq.beq_iff i k,
    string_eq.beq_iff i j,
    lookup-insert k j v d,
  )

  pub lookup-erase :
      (k j : String) (d : Dict V) → lookup j (erase k d) ≡ (if k == j then none else lookup j d)
  unfolding lookup erase
  lookup-erase k j [] = elim (Bool-cases (k == j)) [
    | inl hit ↦ rw hit refl
    | inr miss ↦ rw miss refl
  ]
  lookup-erase k j ((i, w) ∷ d) = ground (
    arith,
    string_eq.beq_iff k j,
    string_eq.beq_iff i k,
    string_eq.beq_iff i j,
    lookup-erase k j d,
  )
