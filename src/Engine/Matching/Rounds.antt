-- ===== src/Engine/Matching/Rounds.antt =====
-- What one round of `matchAgainstBook` does, and the rule for an invariant of the loop.
use predix_go_backend.Base.{
  ℕ, zero, suc, ◌≡◌, ◌≢◌, refl, sym, true, none, some, List, arith, get_elem?, ltb_ℤ, pos,
  Bool-cases, Option-cases, inl, inr, ◌⊎◌, subst, ◌∙◌,
}
use predix_go_backend.Engine.Book.{find_counterparty, opposite, is_tradable}
use predix_go_backend.Engine.Book.Scan.{find_counterparty-found}
use predix_go_backend.Engine.Matching.{
  Source, MatchState, Round, stop, next, panic, finished, cut_front, execute_pair, match_round,
  match_loop,
}

-- The slice that a round scans.
abbrev pub scanned : ℕ → MatchState → List ℕ
scanned incoming s = opposite (s.heap incoming).side (cut_front incoming s).book

-- The round found the order at address `p`, index `i`, and executed the pair.
pub record IsFill (src : Source) (incoming : ℕ) (s s' : MatchState) : Type 0 where
  pub index : ℕ
  pub resting : ℕ
  pub found : get_elem? (scanned incoming s) index ≡ some resting
  pub tradable : is_tradable (s.heap incoming) (s.heap resting) ≡ true
  pub result :
      s' ≡ execute_pair src incoming resting (scanned incoming s) index (cut_front incoming s)

pub Round-cases :
    (r : Round)
    → ((s : MatchState) × (r ≡ stop s)) ⊎ (((s : MatchState) × (r ≡ next s)) ⊎ (r ≡ panic))
Round-cases (stop s) = inl (s, refl)
Round-cases (next s) = inr (inl (s, refl))
Round-cases panic = inr (inr refl)

module _ (src : Source) (incoming : ℕ) where
  pub heap-cut_front : (s : MatchState) → (cut_front incoming s).heap ≡ s.heap
  unfolding cut_front
  heap-cut_front s = refl

  -- A round goes on by a fill only.
  pub match_round-IsFill :
      (s s' : MatchState) → match_round src incoming s ≡ next s' → IsFill src incoming s s'
  unfolding match_round
  match_round-IsFill s s' e =
      elim (Option-cases (find_counterparty s.heap (scanned incoming s) (s.heap incoming))) [
        | inl missing ↦ ground arith
        | inr (i, hit) ↦
            let (p, at, good) =
              find_counterparty-found s.heap (s.heap incoming) (scanned incoming s) i hit in
            record { index = i; resting = p; found = at; tradable = good; result = ground arith }
      ]

  -- It stops when there is no counterparty, and has then only cut the slice at its front.
  pub match_round-stop :
      (s s' : MatchState)
      → match_round src incoming s ≡ stop s'
      → (s' ≡ cut_front incoming s)
        × (find_counterparty s.heap (scanned incoming s) (s.heap incoming) ≡ none)
  unfolding match_round
  match_round-stop s s' e =
      elim (Option-cases (find_counterparty s.heap (scanned incoming s) (s.heap incoming))) [
        | inl missing ↦ (ground arith, missing)
        | inr (i, hit) ↦
            let (p, at, good) =
              find_counterparty-found s.heap (s.heap incoming) (scanned incoming s) i hit in
            absurd (ground arith)
      ]

  -- It never indexes out of range.
  pub match_round-ne-panic : (s : MatchState) → match_round src incoming s ≢ panic
  unfolding match_round
  match_round-ne-panic s e =
      elim (Option-cases (find_counterparty s.heap (scanned incoming s) (s.heap incoming))) [
        | inl missing ↦ ground arith
        | inr (i, hit) ↦
            let (p, at, good) =
              find_counterparty-found s.heap (s.heap incoming) (scanned incoming s) i hit in
            ground arith
      ]

  -- What a fill keeps and cutting the slice keeps, the loop keeps.
  pub match_loop_rule {ℓ} :
      (P : MatchState → Type ℓ)
      → ((s s' : MatchState)
          → P s
          → ltb_ℤ (pos 0) (s.heap incoming).remaining_quantity ≡ true
          → IsFill src incoming s s'
          → P s')
      → ((s : MatchState) → P s → P (cut_front incoming s))
      → (fuel : ℕ) (s s' : MatchState) → P s
      → match_loop src incoming fuel s ≡ finished s'
      → P s'
  unfolding match_loop
  match_loop_rule P fill cut zero s s' h e = ground arith
  match_loop_rule P fill cut (suc fuel) s s' h e =
      elim (Bool-cases (ltb_ℤ (pos 0) (s.heap incoming).remaining_quantity)) [
        | inr done ↦ subst P (ground arith) h
        | inl more ↦ elim (Round-cases (match_round src incoming s)) [
          | inl (t, r) ↦
              let q : t ≡ s' = ground arith in
              subst P (sym (match_round-stop s t r).0 ∙ q) (cut s h)
          | inr (inl (t, r)) ↦
              match_loop_rule P fill cut fuel t s' (fill s t h more (match_round-IsFill s t r))
                (ground arith)
          | inr (inr r) ↦ absurd (match_round-ne-panic s r)
        ]
      ]
