-- ===== src/Engine/Matching/Completeness.antt =====
-- The loop of `matchAgainstBook` does not stop early: an order that it leaves with a remainder has
-- nobody left to trade with.
use predix_go_backend.Base.{
  ℕ, zero, suc, ◌≡◌, sym, false, arith, pos, ◌⊎◌, inl, inr, All, subst, ltb_ℤ, Bool-cases,
}
use predix_go_backend.Engine.Book.{is_tradable, opposite}
use predix_go_backend.Engine.Book.Scan.{find_counterparty-none}
use predix_go_backend.Engine.Matching.{
  Source, MatchState, stop, finished, cut_front, match_round, match_loop,
}
use predix_go_backend.Engine.Matching.Rounds.{
  match_round-stop, match_round-ne-panic, Round-cases, scanned,
}

-- No order of the side that the incoming order trades against is tradable for it.
abbrev pub Exhausted : ℕ → MatchState → Type 0
Exhausted incoming s =
    All (λ q. is_tradable (s.heap incoming) (s.heap q) ≡ false)
      (opposite (s.heap incoming).side s.book)

module _ (src : Source) (incoming : ℕ) where
  stop-Exhausted : (s t : MatchState) → match_round src incoming s ≡ stop t → Exhausted incoming t
  unfolding cut_front
  stop-Exhausted s t e =
      let (same, nobody) = match_round-stop src incoming s t e in
      subst (Exhausted incoming) (sym same)
        (find_counterparty-none s.heap (s.heap incoming) (scanned incoming s) nobody)

  -- When the loop has ended, the incoming order has nothing left, or no order that stands on the
  -- other side of the book is tradable for it.
  pub match_loop_complete :
      (fuel : ℕ) (s s' : MatchState)
      → match_loop src incoming fuel s ≡ finished s'
      → (ltb_ℤ (pos 0) (s'.heap incoming).remaining_quantity ≡ false) ⊎ Exhausted incoming s'
  unfolding match_loop
  match_loop_complete zero s s' e = ground arith
  match_loop_complete (suc fuel) s s' e =
      elim (Bool-cases (ltb_ℤ (pos 0) (s.heap incoming).remaining_quantity)) [
        | inr done ↦
            let same : s ≡ s' = ground arith in
            inl (
              subst (λ (t : MatchState). ltb_ℤ (pos 0) (t.heap incoming).remaining_quantity ≡ false)
                same done)
        | inl more ↦ elim (Round-cases (match_round src incoming s)) [
          | inl (t, r) ↦
              let same : t ≡ s' = ground arith in
              inr (subst (Exhausted incoming) same (stop-Exhausted s t r))
          | inr (inl (t, r)) ↦ match_loop_complete fuel t s' (ground arith)
          | inr (inr r) ↦ absurd (match_round-ne-panic src incoming s r)
        ]
      ]
