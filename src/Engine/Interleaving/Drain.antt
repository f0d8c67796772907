-- ===== src/Engine/Interleaving/Drain.antt =====
-- No worker is kept from finishing its command, whatever the others have done in the meantime.
use predix_go_backend.Base.{
  ℕ, ◌<◌, ◌≡◌, refl, subst, Bool, true, false, arith, ◌==◌, if◌then◌else◌, nat_eq, Bool-cases, inl,
  inr, beq_refl, ◌⊎◌,
}
use predix_go_backend.Engine.Matching.{Source}
use predix_go_backend.Engine.Core.{Core}
use predix_go_backend.Engine.Core.Invariant.{IsValid}
use predix_go_backend.Engine.Core.Settle.{match_order-IsValid}
use predix_go_backend.Engine.Commands.{drop_order}
use predix_go_backend.Engine.Commands.Placement.{drop_order-IsValid}
use predix_go_backend.Engine.Interleaving.{
  Stage, outside, announcing, matching, Shared, turn, sent, lost, match, Sections, here, next,
  at_rest,
}
use predix_go_backend.Engine.Interleaving.Soundness.{
  Holds, IsSound, Sections-IsSound, at_rest-IsSound,
}

-- Sections that take the worker out, and leave every other worker where it is.
abbrev pub Drained : ℕ → Shared → Type 0
Drained i s =
    (t : Shared) × Sections s t
    × ((j : ℕ) → t.stage j ≡ (if j == i then outside else s.stage j))
    × IsValid t.core

Stage-cases :
    (t : Stage) → (t ≡ outside) ⊎ (((p : ℕ) × (t ≡ announcing p)) ⊎ ((p : ℕ) × (t ≡ matching p)))
Stage-cases outside = inl refl
Stage-cases (announcing p) = inr (inl (p, refl))
Stage-cases (matching p) = inr (inr (p, refl))

same_stage :
    (i : ℕ) (s : Shared)
    → s.stage i ≡ outside
    → (j : ℕ) → s.stage j ≡ (if j == i then outside else s.stage j)
same_stage i s e j = elim (Bool-cases (j == i)) [
  | inl own ↦ let same : j ≡ i = ground arith in rw (own, same) e
  | inr other ↦ rw other refl
]

drain_matching :
    (i p : ℕ) (src : Source) (s : Shared) → IsSound s → s.stage i ≡ matching p → Drained i s
drain_matching i p src s v at =
    let held : p < s.core.next_address = subst (Holds s.core.next_address) at (v.holds i) in
    let (r, found, valid) = match_order-IsValid src p s.core held v.valid in
    (turn i outside r.0 s, next here (match i p src r.0 r.1 at found), λ j. refl, valid)

-- Two turns of one worker leave it where the second has.
turn_turn :
    (i j : ℕ) (t u : Stage) (f : ℕ → Stage)
    → (if j == i then u else (if j == i then t else f j)) ≡ (if j == i then u else f j)
turn_turn i j t u f = ground arith

own_stage : (i : ℕ) (t : Stage) (c : Core) (s : Shared) → (turn i t c s).stage i ≡ t
own_stage i t c s = rw (beq_refl i) refl

drain_announcing :
    (i p : ℕ) (src : Source) (delivered : Bool) (s : Shared)
    → IsSound s
    → s.stage i ≡ announcing p
    → Drained i s
drain_announcing i p src false s v at = (
  turn i outside (drop_order p s.core) s,
  next here (lost i p at),
  λ j. refl,
  drop_order-IsValid p s.core v.valid,
)
drain_announcing i p src true s v at =
    let held : p < s.core.next_address = subst (Holds s.core.next_address) at (v.holds i) in
    let (r, found, valid) = match_order-IsValid src p s.core held v.valid in
    let s' : Shared = turn i (matching p) s.core s in
    (
      turn i outside r.0 s',
      next (next here (sent i p at))
          (match i p src r.0 r.1 (own_stage i (matching p) s.core s) found),
      λ j. turn_turn i j (matching p) outside s.stage,
      valid,
    )

pub Sections-IsDrained :
    (i : ℕ) (src : Source) (delivered : Bool) (c : Core) (s : Shared)
    → IsValid c
    → Sections (at_rest c) s
    → IsValid s.core × Drained i s
Sections-IsDrained i src delivered c s v run =
    let sound : IsSound s = Sections-IsSound run (at_rest-IsSound c v) in
    (
      sound.valid,
      elim (Stage-cases (s.stage i)) [
        | inl at ↦ (s, here, same_stage i s at, sound.valid)
        | inr (inl (p, at)) ↦ drain_announcing i p src delivered s sound at
        | inr (inr (p, at)) ↦ drain_matching i p src s sound at
      ],
    )
