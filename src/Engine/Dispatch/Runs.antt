-- ===== src/Engine/Dispatch/Runs.antt =====
-- Runs of commands, taken apart.
use predix_go_backend.Base.{
  ℕ, suc, ◌+◌, ◌≡◌, refl, sym, ap, ◌∙◌, Option, none, some, List, [], ◌∷◌, ◌++◌, arith, string_eq,
  Option-cases, inl, inr, length,
}
use predix_go_backend.Engine.Commands.{Engine, World, Response}
use predix_go_backend.Engine.Dispatch.{Command, handle_message, run_commands}

module _ (ws : ℕ → World) (pid i : ℕ) (qs : List (Option Command)) (e : Engine) where
  pub run_commands-next :
      (q : Command) (x : Response × Engine)
      → handle_message (ws i) pid q e ≡ some x
      → run_commands ws pid i (some q ∷ qs) e ≡ run_commands ws pid (suc i) qs x.1
  unfolding run_commands
  run_commands-next q x h = rw (run_commands, h) refl

  pub run_commands-stuck :
      (q : Command)
      → handle_message (ws i) pid q e ≡ none
      → run_commands ws pid i (some q ∷ qs) e ≡ none
  unfolding run_commands
  run_commands-stuck q h = rw (run_commands, h) refl

shift : (i n : ℕ) → suc i + n ≡ i + suc n
shift i n = omega arith

-- What follows a first part of a run.
abbrev pub go_on : (ℕ → World) → ℕ → ℕ → List (Option Command) → Option Engine → Option Engine
go_on ws pid i qs none = none
go_on ws pid i qs (some e) = run_commands ws pid i qs e

pub run_commands-append :
    (ws : ℕ → World) (pid i : ℕ) (xs ys : List (Option Command)) (e : Engine)
    → run_commands ws pid i (xs ++ ys) e
      ≡ go_on ws pid (i + length xs) ys (run_commands ws pid i xs e)
unfolding run_commands
run_commands-append ws pid i [] ys e = ap (λ (n : ℕ). run_commands ws pid n ys e) (omega arith)
run_commands-append ws pid i (none ∷ xs) ys e =
    run_commands-append ws pid (suc i) xs ys e
    ∙ ap (λ (n : ℕ). go_on ws pid n ys (run_commands ws pid (suc i) xs e)) (shift i (length xs))
run_commands-append ws pid i (some q ∷ xs) ys e =
    elim (Option-cases (handle_message (ws i) pid q e)) [
      | inl stuck ↦
          run_commands-stuck ws pid i (xs ++ ys) e q stuck
          ∙ sym (
              ap (go_on ws pid (i + suc (length xs)) ys) (run_commands-stuck ws pid i xs e q stuck))
      | inr (x, done) ↦
          run_commands-next ws pid i (xs ++ ys) e q x done
          ∙ run_commands-append ws pid (suc i) xs ys x.1
          ∙ ap (λ (n : ℕ). go_on ws pid n ys (run_commands ws pid (suc i) xs x.1))
              (shift i (length xs))
          ∙ sym (
              ap (go_on ws pid (i + suc (length xs)) ys) (run_commands-next ws pid i xs e q x done))
    ]
