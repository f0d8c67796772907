-- ===== src/Engine/Commands/Known.antt =====
-- An order request that succeeds leaves its order in the order map, where matching does not touch it.
use predix_go_backend.Base.{
  ℕ, ◌≡◌, refl, sym, ap, ◌∙◌, subst, String, Bool, true, false, ◌||◌, Option, none, some, List, [],
  ◌∷◌, foldl, arith, ◌==◌, if◌then◌else◌, string_eq, Bool-cases, Option-cases, inl, inr, ◌⊎◌,
  beq_refl, leb_ℤ, pos,
}
use predix_go_backend.Dict.{Dict, lookup, insert, lookup-insert}
use predix_go_backend.Engine.Types.{Order, Market, Trade, Status, status_eq, book_of, set_book}
use predix_go_backend.Engine.Matching.{
  Source, MatchState, Outcome, finished, out_of_fuel, index_panic, match_against_book,
}
use predix_go_backend.Engine.Ledger.{reserve_order}
use predix_go_backend.Engine.Core.{
  Core, match_order, close_match, settle_trade_locked, release_at, rest_order,
}
use predix_go_backend.Engine.Emit.{EventType, order_data, emit_event}
use predix_go_backend.Engine.Commands.{
  Engine, World, Response, Reply, success, failure, CreateRequest, known, turned_away, admitted,
  admit_order, new_order, validate_order, place_order, handle_create_order, Reserve-cases,
  Admission-cases,
}

-- What matching leaves alone: the order map and the next address.
abbrev pub register : Core → Dict ℕ × ℕ
register c = (c.orders, c.next_address)

pub settled-register :
    (ts : List Trade) (c : Core) → register (foldl settle_trade_locked c ts) ≡ register c
unfolding settle_trade_locked
settled-register [] c = refl
settled-register (t ∷ ts) c = settled-register ts (settle_trade_locked c t)

release_if-register :
    (b : Bool) (p : ℕ) (c : Core) → register (if b then release_at p c else c) ≡ register c
unfolding release_at
release_if-register true p c = refl
release_if-register false p c = refl

close_match-register :
    (p : ℕ) (o : Order) (m : Market) (s : MatchState) (c : Core)
    → register (close_match p o m s c) ≡ register c
unfolding close_match
close_match-register p o m s c =
    let s' : MatchState = rest_order p s in
    let booked : Core = record c {
      heap = s'.heap;
      markets = insert o.event_id (set_book o.outcome s'.book m) c.markets;
    } in
    let settled : Core = foldl settle_trade_locked booked s.trades in
    let status = (settled.heap p).status in
    release_if-register ((status == Status.filled) || (status == Status.canceled)) p settled
    ∙ settled-register s.trades booked

abbrev pub register_after : Core → Option (Core × List Trade) → Dict ℕ × ℕ
register_after c none = register c
register_after c (some x) = register x.0

pub Outcome-cases :
    (o : Outcome) → ((s : MatchState) × (o ≡ finished s)) ⊎ ((o ≡ out_of_fuel) ⊎ (o ≡ index_panic))
Outcome-cases (finished s) = inl (s, refl)
Outcome-cases out_of_fuel = inr (inl refl)
Outcome-cases index_panic = inr (inr refl)

pub match_order-register :
    (src : Source) (p : ℕ) (c : Core) → register_after c (match_order src p c) ≡ register c
unfolding match_order
match_order-register src p c =
    let o : Order = c.heap p in
    elim (Bool-cases (o.status == Status.canceled)) [
      | inl gone ↦ rw (match_order, gone) refl
      | inr live ↦ elim (Option-cases (lookup o.event_id c.markets)) [
        | inl no_market ↦ rw (match_order, live, no_market) refl
        | inr (m, market) ↦ elim (Option-cases (book_of m o.outcome)) [
          | inl no_book ↦ rw (match_order, live, market, no_book) refl
          | inr (book, has) ↦ elim (Outcome-cases (match_against_book src p c.heap book)) [
            | inl (s, done) ↦
                rw (match_order, live, market, has, done) (close_match-register p o m s c)
            | inr (inl e) ↦ rw (match_order, live, market, has, e) refl
            | inr (inr e) ↦ rw (match_order, live, market, has, e) refl
          ]
        ]
      ]
    ]

known-injective : (p q : ℕ) → known p ≡ known q → p ≡ q
known-injective p q e = ground arith

turned_away-known : (message : String) (c : Core) (p : ℕ) → ¬ (turned_away message c ≡ known p)
turned_away-known message c p e = cc

admitted-known : (q : ℕ) (c : Core) (p : ℕ) → ¬ (admitted q c ≡ known p)
admitted-known q c p e = cc

turned_away-admitted :
    (message : String) (c : Core) (p : ℕ) (c' : Core) → ¬ (turned_away message c ≡ admitted p c')
turned_away-admitted message c p c' e = cc

admitted-injective :
    (p : ℕ) (c : Core) (q : ℕ) (d : Core) → admitted p c ≡ admitted q d → (p ≡ q) × (c ≡ d)
admitted-injective p c q d e = ground arith

-- After an admission the order map knows the order.
module _ (o : Order) (c : Core) where
  lookup-known : (p : ℕ) → admit_order o c ≡ known p → lookup o.id c.orders ≡ some p
  unfolding admit_order
  lookup-known p e = elim (Option-cases (lookup o.id c.orders)) [
    | inr (q, found) ↦ found ∙ ap some (known-injective q p (rw (admit_order, found) at e))
    | inl fresh ↦ elim (Option-cases (lookup o.event_id c.markets)) [
      | inl no_market ↦ absurd (turned_away-known _ _ p (rw (admit_order, fresh, no_market) at e))
      | inr (m, market) ↦ elim (Reserve-cases (reserve_order o c.ledger)) [
        | inl (message, l, no_funds) ↦
            absurd (turned_away-known _ _ p (rw (admit_order, fresh, market, no_funds) at e))
        | inr (o', l, funds) ↦
            absurd (admitted-known _ _ p (rw (admit_order, fresh, market, funds) at e))
      ]
    ]
  ]

  lookup-admitted :
      (p : ℕ) (c' : Core) → admit_order o c ≡ admitted p c' → lookup o.id c'.orders ≡ some p
  unfolding admit_order
  lookup-admitted p c' e = elim (Option-cases (lookup o.id c.orders)) [
    | inr (q, found) ↦ absurd (admitted-known _ _ q (sym (rw (admit_order, found) at e)))
    | inl fresh ↦ elim (Option-cases (lookup o.event_id c.markets)) [
      | inl no_market ↦
          absurd (turned_away-admitted _ _ p c' (rw (admit_order, fresh, no_market) at e))
      | inr (m, market) ↦ elim (Reserve-cases (reserve_order o c.ledger)) [
        | inl (message, l, no_funds) ↦
            absurd (turned_away-admitted _ _ p c' (rw (admit_order, fresh, market, no_funds) at e))
        | inr (o', l, funds) ↦
            let same = admitted-injective _ _ p c' (rw (admit_order, fresh, market, funds) at e) in
            ap (λ (x : Core). lookup o.id x.orders) (sym same.1)
            ∙ lookup-insert o.id o.id c.next_address c.orders
            ∙ rw (beq_refl o.id) (ap some same.0)
      ]
    ]
  ]

failure-success :
    (message : String) (x : Reply) (e e' : Engine)
    → ¬ (◌≡◌ {A = Option (Response × Engine)} (some (failure message, e)) (some (success x, e')))
failure-success message x e e' h = cc

answered-engine :
    (r r' : Response) (e e' : Engine)
    → ◌≡◌ {A = Option (Response × Engine)} (some (r, e)) (some (r', e'))
    → e ≡ e'
answered-engine r r' e e' h = ground arith

none-answered :
    (r : Response) (e : Engine) → ¬ (◌≡◌ {A = Option (Response × Engine)} none (some (r, e)))
none-answered r e h = cc

place_order-orders :
    (w : World) (pid p : ℕ) (e e' : Engine) (x : Reply)
    → place_order w pid p e ≡ some (success x, e')
    → e'.core.orders ≡ e.core.orders
unfolding place_order
place_order-orders w pid p e e' x h =
    elim (Bool-cases
      (emit_event w.delivery pid EventType.order_created (order_data (e.core.heap p)) false
        e.bus).0) [
          | inr failed ↦ absurd (failure-success _ x _ e' (rw (place_order, failed) at h))
          | inl sent ↦ elim (Option-cases (match_order w.source p e.core)) [
            | inl stuck ↦ absurd (none-answered _ e' (rw (place_order, sent, stuck) at h))
            | inr (m, found) ↦
                sym (
                  ap (λ (d : Engine). d.core.orders)
                    (answered-engine _ _ _ e' (rw (place_order, sent, found) at h)))
                ∙ ap (λ (r : Dict ℕ × ℕ). r.0)
                    (subst
                      (λ (r : Option (Core × List Trade)).
                        register_after e.core r ≡ register e.core)
                      found (match_order-register w.source p e.core))
          ]
        ]

-- An order request with an id that succeeds leaves its order known.
pub handle_create_order-known_after :
    (w : World) (pid : ℕ) (q : CreateRequest) (e e' : Engine) (x : Reply)
    → (q.order_id == "") ≡ false
    → handle_create_order w pid (some q) e ≡ some (success x, e')
    → (p : ℕ) × (lookup q.order_id e'.core.orders ≡ some p)
unfolding handle_create_order
handle_create_order-known_after w pid q e e' x named h =
    let o : Order = new_order w q in
    let own : o.id ≡ q.order_id = rw (new_order, named) refl in
    elim (Bool-cases (leb_ℤ q.quantity (pos 0))) [
      | inl nothing ↦ absurd (failure-success _ x _ e' (rw (handle_create_order, nothing) at h))
      | inr some_quantity ↦ elim (Option-cases (validate_order o)) [
        | inr (message, bad) ↦
            absurd (failure-success _ x _ e' (rw (handle_create_order, some_quantity, bad) at h))
        | inl good ↦ elim (Admission-cases (admit_order o e.core)) [
          | inl (p, a) ↦ (
            p,
            ap (λ (d : Engine). lookup q.order_id d.core.orders)
                  (sym (
                    answered-engine _ _ _ e'
                      (rw (handle_create_order, some_quantity, good, a) at h)))
                ∙ ap (λ (id : String). lookup id e.core.orders) (sym own)
                ∙ lookup-known o e.core p a,
          )
          | inr (inl (message, c, a)) ↦
              absurd
                (failure-success _ x _ e' (rw (handle_create_order, some_quantity, good, a) at h))
          | inr (inr (p, c, a)) ↦ (
            p,
            ap (λ (d : Dict ℕ). lookup q.order_id d)
                  (place_order-orders w pid p (record e { core = c }) e' x
                    (rw (handle_create_order, some_quantity, good, a) at h))
                ∙ ap (λ (id : String). lookup id c.orders) (sym own)
                ∙ lookup-admitted o e.core p c a,
          )
        ]
      ]
    ]
