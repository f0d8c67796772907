-- ===== src/Engine/Interleaving/Sequential.antt =====
-- A command that no other worker comes between is a run of its worker's critical sections: the
-- sections are those of the handlers.
use predix_go_backend.Base.{
  ℕ, ◌≡◌, refl, ap, subst, false, Option, none, some, ◌==◌, if◌then◌else◌, nat_eq, Bool-cases,
  Option-cases, inl, inr, beq_refl, arith, pos, leb_ℤ, IsInt64,
}
use mathlib.Core.Option.{some-injective}
use predix_go_backend.Engine.Emit.{Bus, EventType, order_data, emit_event}
use predix_go_backend.Engine.Core.{Core, match_order}
use predix_go_backend.Engine.Commands.{
  Engine, World, Response, CreateRequest, CancelRequest, admitted, new_order, validate_order,
  admit_order, place_order, drop_order, handle_create_order, handle_cancel_order, Admission-cases,
}
use predix_go_backend.Engine.Dispatch.{Command, handle_message}
use predix_go_backend.Engine.Dispatch.Totality.{CommandFits}
use predix_go_backend.Engine.Interleaving.{
  Stage, announcing, matching, Shared, turn, seen, event, user, cancel, refuse, admit, sent, lost,
  match, Sections, here, next,
}

-- Sections that lead to the given state, with every worker where it was.
abbrev pub Leads : Shared → Core → Type 0
Leads s c = (t : Shared) × Sections s t × (t.core ≡ c) × ((j : ℕ) → t.stage j ≡ s.stage j)

abbrev LeadsTo : Shared → Option (Response × Engine) → Type 0
LeadsTo s none = Unit
LeadsTo s (some x) = Leads s x.1.core

module _ (i : ℕ) (s : Shared) (bus : Bus) (idle : s.stage i ≡ Stage.outside) where
  -- The last turn of the worker takes it back.
  back :
      (j : ℕ) (t : Stage)
      → ((j == i) ≡ false → t ≡ s.stage j)
      → (if j == i then Stage.outside else t) ≡ s.stage j
  back j t others = elim (Bool-cases (j == i)) [
    | inl own ↦ let same : j ≡ i = ground arith in rw own (rw same (rw idle refl))
    | inr other ↦ rw other (others other)
  ]

  place_order-Leads :
      (w : World) (pid p : ℕ) (r : CreateRequest) (c : Core)
      → IsInt64 r.quantity
      → leb_ℤ r.quantity (pos 0) ≡ false
      → validate_order (new_order w r) ≡ none
      → admit_order (new_order w r) s.core ≡ admitted p c
      → LeadsTo s (place_order w pid p (record (seen s bus) { core = c }))
  unfolding place_order
  place_order-Leads w pid p r c fits quantity good taken =
      let s1 : Shared = turn i (announcing p) c s in
      let at1 : s1.stage i ≡ announcing p = rw (beq_refl i) refl in
      let s2 : Shared = turn i (matching p) c s1 in
      let at2 : s2.stage i ≡ matching p = rw (beq_refl i) refl in
      let before = next here (admit i w r p c idle fits quantity good taken) in
      elim (Bool-cases
        (emit_event w.delivery pid EventType.order_created (order_data (c.heap p)) false bus).0) [
          | inr failed ↦
              rw (place_order, failed)
                (
                  turn i Stage.outside (drop_order p c) s1,
                  next before (lost i p at1),
                  refl,
                  λ j. back j _ (λ other. rw other refl),
                )
          | inl reached ↦ elim (Option-cases (match_order w.source p c)) [
            | inl stuck ↦ rw (place_order, reached, stuck) tt
            | inr (m, found) ↦
                rw (place_order, reached, found)
                  (
                    turn i Stage.outside m.0 s2,
                    next (next before (sent i p at1)) (match i p w.source m.0 m.1 at2 found),
                    refl,
                    λ j. back j _ (λ other. rw other refl),
                  )
          ]
        ]

  handle_create_order-Leads :
      (w : World) (pid : ℕ) (q : Option CreateRequest)
      → CommandFits (Command.create_order q)
      → LeadsTo s (handle_create_order w pid q (seen s bus))
  unfolding handle_create_order
  handle_create_order-Leads w pid none fits = (s, here, refl, λ j. refl)
  handle_create_order-Leads w pid (some r) fits =
      let nothing_done : Leads s s.core = (s, here, refl, λ j. refl) in
      elim (Bool-cases (leb_ℤ r.quantity (pos 0))) [
        | inl no_quantity ↦ rw (handle_create_order, no_quantity) nothing_done
        | inr quantity ↦ elim (Option-cases (validate_order (new_order w r))) [
          | inr (message, bad) ↦ rw (handle_create_order, quantity, bad) nothing_done
          | inl good ↦ elim (Admission-cases (admit_order (new_order w r) s.core)) [
            | inl (p, a) ↦ rw (handle_create_order, quantity, good, a) nothing_done
            | inr (inl (message, c, a)) ↦
                rw (handle_create_order, quantity, good, a)
                  (
                    turn i Stage.outside c s,
                    next here (refuse i w r message c idle fits quantity good a),
                    refl,
                    λ j. back j _ (λ other. refl),
                  )
            | inr (inr (p, c, a)) ↦
                rw (handle_create_order, quantity, good, a)
                  (place_order-Leads w pid p r c fits quantity good a)
          ]
        ]
      ]

  handle_cancel_order-Leads :
      (w : World) (pid : ℕ) (q : Option CancelRequest) (x : Response × Engine)
      → handle_cancel_order w pid q (seen s bus) ≡ some x
      → Leads s x.1.core
  unfolding handle_cancel_order
  handle_cancel_order-Leads w pid none x done =
      let same = some-injective _ x done in
      (s, here, ap (λ (y : Response × Engine). y.1.core) same, λ j. refl)
  handle_cancel_order-Leads w pid (some r) x done = (
    turn i Stage.outside x.1.core s,
    next here (cancel i w pid r bus x idle done),
    refl,
    λ j. back j _ (λ other. refl),
  )

  pub handle_message-Leads :
      (w : World) (pid : ℕ) (cmd : Command) (x : Response × Engine)
      → CommandFits cmd
      → handle_message w pid cmd (seen s bus) ≡ some x
      → Leads s x.1.core
  unfolding handle_message
  handle_message-Leads w pid (Command.create_order q) x fits done =
      subst (LeadsTo s) done (handle_create_order-Leads w pid q fits)
  handle_message-Leads w pid (Command.cancel_order q) x fits done =
      handle_cancel_order-Leads w pid q x done
  handle_message-Leads w pid (Command.get_depth q) x fits done =
      (s, here, ap (λ (y : Response × Engine). y.1.core) (some-injective _ x done), λ j. refl)
  handle_message-Leads w pid (Command.get_open_orders q) x fits done =
      (s, here, ap (λ (y : Response × Engine). y.1.core) (some-injective _ x done), λ j. refl)
  handle_message-Leads w pid (Command.create_event q) x fits done = (
    turn i Stage.outside _ s,
    next here (event i q bus idle),
    ap (λ (y : Response × Engine). y.1.core) (some-injective _ x done),
    λ j. back j _ (λ other. refl),
  )
  handle_message-Leads w pid (Command.user_created q) x fits done = (
    turn i Stage.outside _ s,
    next here (user i q bus idle),
    ap (λ (y : Response × Engine). y.1.core) (some-injective _ x done),
    λ j. back j _ (λ other. refl),
  )
  handle_message-Leads w pid Command.unknown x fits done =
      (s, here, ap (λ (y : Response × Engine). y.1.core) (some-injective _ x done), λ j. refl)
