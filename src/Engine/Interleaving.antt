-- ===== src/Engine/Interleaving.antt =====
-- The critical sections of the command handlers of internal/engine/engine.go, for the workers of
-- several partitions that share one engine. A section is what a handler does while it holds the
-- engine's mutex; between the sections of one worker come those of the others, in any order.
-- Emissions and replies lie outside the mutex, so that a section may find any event bus.
pub mod Soundness
pub mod Drain
pub mod Sequential
use predix_go_backend.Base.{
  ℕ, ◌≡◌, String, Bool, false, Option, none, some, List, ◌==◌, if◌then◌else◌, nat_eq, IsInt64, pos,
  leb_ℤ,
}
use predix_go_backend.Engine.Types.{Trade}
use predix_go_backend.Engine.Matching.{Source}
use predix_go_backend.Engine.Emit.{Bus}
use predix_go_backend.Engine.Core.{Core, match_order}
use predix_go_backend.Engine.Commands.{
  Engine, World, Response, CreateRequest, CancelRequest, turned_away, admitted, new_order,
  validate_order, admit_order, drop_order, handle_create_event, handle_user_created,
  handle_cancel_order,
}

-- Where a worker is: between commands, or with an order that is in the order map and is being
-- announced, or that is announced and is to be matched.
pub data Stage : Type 0 where
  outside : Stage
  announcing matching : ℕ → Stage

pub record Shared : Type 0 where
  pub core : Core
  pub stage : ℕ → Stage

abbrev pub turn : ℕ → Stage → Core → Shared → Shared
turn i t c s = record { core = c; stage = λ j. if j == i then t else s.stage j }

-- The engine as a section finds it.
abbrev pub seen : Shared → Bus → Engine
seen s bus = record { core = s.core; bus = bus }

pub data Section (s : Shared) : Shared → Type 0 where
  event :
      (i : ℕ) (r : Option String) (bus : Bus)
      → s.stage i ≡ Stage.outside
      → Section s (turn i Stage.outside (handle_create_event r (seen s bus)).1.core s)
  user :
      (i : ℕ) (r : Option String) (bus : Bus)
      → s.stage i ≡ Stage.outside
      → Section s (turn i Stage.outside (handle_user_created r (seen s bus)).1.core s)
  cancel :
      (i : ℕ) (w : World) (pid : ℕ) (r : CancelRequest) (bus : Bus) (x : Response × Engine)
      → s.stage i ≡ Stage.outside
      → handle_cancel_order w pid (some r) (seen s bus) ≡ some x
      → Section s (turn i Stage.outside x.1.core s)
  refuse :
      (i : ℕ) (w : World) (r : CreateRequest) (message : String) (c : Core)
      → s.stage i ≡ Stage.outside
      → IsInt64 r.quantity
      → leb_ℤ r.quantity (pos 0) ≡ false
      → validate_order (new_order w r) ≡ none
      → admit_order (new_order w r) s.core ≡ turned_away message c
      → Section s (turn i Stage.outside c s)
  admit :
      (i : ℕ) (w : World) (r : CreateRequest) (p : ℕ) (c : Core)
      → s.stage i ≡ Stage.outside
      → IsInt64 r.quantity
      → leb_ℤ r.quantity (pos 0) ≡ false
      → validate_order (new_order w r) ≡ none
      → admit_order (new_order w r) s.core ≡ admitted p c
      → Section s (turn i (Stage.announcing p) c s)
  sent : (i p : ℕ) → s.stage i ≡ Stage.announcing p → Section s (turn i (Stage.matching p) s.core s)
  lost :
      (i p : ℕ)
      → s.stage i ≡ Stage.announcing p
      → Section s (turn i Stage.outside (drop_order p s.core) s)
  match :
      (i p : ℕ) (src : Source) (c : Core) (ts : List Trade)
      → s.stage i ≡ Stage.matching p
      → match_order src p s.core ≡ some (c, ts)
      → Section s (turn i Stage.outside c s)

-- Sections of any workers, one after the other.
pub data Sections (s : Shared) : Shared → Type 0 where
  here : Sections s s
  next : {t u : Shared} → Sections s t → Section t u → Sections s u

-- All workers are between commands.
abbrev pub at_rest : Core → Shared
at_rest c = record { core = c; stage = λ i. Stage.outside }
