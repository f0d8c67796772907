-- ===== src/Engine/Interleaving/Soundness.antt =====
-- Whatever the order of the workers' critical sections, the engine's state stays valid and no
-- worker loses the order that it is placing.
use predix_go_backend.Base.{
  ℕ, ◌≤◌, ◌<◌, ◌≡◌, refl, sym, ap, ◌∙◌, subst, String, not, ◌&&◌, Option, none, some, List, arith,
  ◌==◌, string_eq, nat_eq, Bool-cases, Option-cases, inl, inr,
}
use mathlib.Core.Option.{some-injective}
use predix_go_backend.Dict.{Dict, lookup}
use predix_go_backend.Engine.Types.{Order, Trade, status_eq, book_of}
use predix_go_backend.Engine.Ledger.{reserve_order}
use predix_go_backend.Engine.Matching.{Source}
use predix_go_backend.Engine.Core.{Core, match_order}
use predix_go_backend.Engine.Core.Invariant.{IsValid}
use predix_go_backend.Engine.Core.Settle.{match_order-IsValid}
use predix_go_backend.Engine.Commands.{
  Engine, World, Response, CancelRequest, Admission, known, turned_away, admitted, new_order,
  admit_order, drop_order, cancel_at, not_cancelable, handle_create_event, handle_user_created,
  handle_cancel_order, Reserve-cases,
}
use predix_go_backend.Engine.Commands.Placement.{
  AdmissionIsValid, admit_order-IsValid, drop_order-IsValid, new_order-IsConserved,
  validate_order-has_book,
}
use predix_go_backend.Engine.Commands.Withdrawal.{handle_cancel_order-Served}
use predix_go_backend.Engine.Commands.Known.{register, register_after, match_order-register}
use predix_go_backend.Engine.Dispatch.Totality.{
  handle_create_event-IsValid, handle_user_created-IsValid,
}
use predix_go_backend.Engine.Interleaving.{
  Stage, outside, announcing, matching, Shared, turn, seen, Section, event, user, cancel, refuse,
  admit, sent, lost, match, Sections, here, next, at_rest,
}

-- The order that a worker is placing has been allocated.
abbrev pub Holds : ℕ → Stage → Type 0
Holds n outside = Unit
Holds n (announcing p) = p < n
Holds n (matching p) = p < n

pub record IsSound (s : Shared) : Type 0 where
  pub valid : IsValid s.core
  pub holds : (i : ℕ) → Holds s.core.next_address (s.stage i)

Holds-le : (n m : ℕ) (t : Stage) → n ≤ m → Holds n t → Holds m t
Holds-le n m outside le h = tt
Holds-le n m (announcing p) le h = omega arith
Holds-le n m (matching p) le h = omega arith

turn-IsSound :
    (i : ℕ) (t : Stage) (c : Core) (s : Shared)
    → IsSound s
    → s.core.next_address ≤ c.next_address
    → IsValid c
    → Holds c.next_address t
    → IsSound (turn i t c s)
turn-IsSound i t c s sound le v h = record {
  valid = v;
  holds = λ j. elim (Bool-cases (j == i)) [
    | inl own ↦ rw own h
    | inr other ↦
        rw other (Holds-le s.core.next_address c.next_address (s.stage j) le (sound.holds j))
  ];
}

-- The sections only ever allocate.
create_event-next_address :
    (r : Option String) (e : Engine)
    → (handle_create_event r e).1.core.next_address ≡ e.core.next_address
unfolding handle_create_event
create_event-next_address none e = refl
create_event-next_address (some id) e = elim (Bool-cases (id == "")) [
  | inl no_id ↦ rw no_id refl
  | inr has_id ↦ elim (Option-cases (lookup id e.core.markets)) [
    | inl fresh ↦ rw (has_id, fresh, handle_create_event) refl
    | inr (m, old) ↦ rw (has_id, old, handle_create_event) refl
  ]
]

user_created-next_address :
    (r : Option String) (e : Engine)
    → (handle_user_created r e).1.core.next_address ≡ e.core.next_address
unfolding handle_user_created
user_created-next_address none e = refl
user_created-next_address (some id) e = elim (Bool-cases (id == "")) [
  | inl no_id ↦ rw no_id refl
  | inr has_id ↦ rw has_id refl
]

abbrev next_after : Engine → Option (Response × Engine) → ℕ
next_after e none = e.core.next_address
next_after e (some x) = x.1.core.next_address

cancel_order-next_address :
    (w : World) (pid : ℕ) (r : CancelRequest) (e : Engine)
    → next_after e (handle_cancel_order w pid (some r) e) ≡ e.core.next_address
unfolding handle_cancel_order cancel_at
cancel_order-next_address w pid r e = elim (Bool-cases (r.order_id == "")) [
  | inl no_id ↦ rw (handle_cancel_order, no_id) refl
  | inr id ↦ elim (Option-cases (lookup r.order_id e.core.orders)) [
    | inl missing ↦ rw (handle_cancel_order, id, missing) refl
    | inr (p, found) ↦
        let o : Order = e.core.heap p in
        elim (Bool-cases (not (r.event_id == "") && not (o.event_id == r.event_id))) [
          | inl other ↦ rw (handle_cancel_order, id, found, other) refl
          | inr own ↦ elim (Bool-cases (not_cancelable o.status)) [
            | inl closed ↦ rw (handle_cancel_order, id, found, own, closed) refl
            | inr live ↦ elim (Option-cases (lookup o.event_id e.core.markets)) [
              | inl no_market ↦ rw (handle_cancel_order, id, found, own, live, no_market) refl
              | inr (m, market) ↦ elim (Option-cases (book_of m o.outcome)) [
                | inl no_book ↦ rw (handle_cancel_order, id, found, own, live, market, no_book) refl
                | inr (book, has) ↦ rw (handle_cancel_order, id, found, own, live, market, has) refl
              ]
            ]
          ]
        ]
  ]
]

abbrev AdmissionGrows : ℕ → Admission → Type 0
AdmissionGrows n (known p) = Unit
AdmissionGrows n (turned_away message c) = n ≤ c.next_address
AdmissionGrows n (admitted p c) = n ≤ c.next_address

admit_order-grows : (o : Order) (c : Core) → AdmissionGrows c.next_address (admit_order o c)
unfolding admit_order
admit_order-grows o c = elim (Option-cases (lookup o.id c.orders)) [
  | inr (p, old) ↦ rw (old, admit_order) tt
  | inl fresh ↦ elim (Option-cases (lookup o.event_id c.markets)) [
    | inl no_market ↦ rw (fresh, admit_order, no_market) (omega arith)
    | inr (m, market) ↦ elim (Reserve-cases (reserve_order o c.ledger)) [
      | inl (message, l, r) ↦ rw (fresh, admit_order, market, r) (omega arith)
      | inr (o', l, r) ↦ rw (fresh, admit_order, market, r) (omega arith)
    ]
  ]
]

match_order-next_address :
    (src : Source) (p : ℕ) (c c' : Core) (ts : List Trade)
    → match_order src p c ≡ some (c', ts)
    → c'.next_address ≡ c.next_address
match_order-next_address src p c c' ts e =
    ap (λ (r : Dict ℕ × ℕ). r.1)
      (subst (λ (r : Option (Core × List Trade)). register_after c r ≡ register c) e
        (match_order-register src p c))

-- Each section keeps the state sound, whichever worker takes it.
Section-IsSound : {s t : Shared} → Section s t → IsSound s → IsSound t
unfolding drop_order
Section-IsSound {s} (event i r bus idle) v =
    turn-IsSound i outside _ s v
      (let e = create_event-next_address r (seen s bus) in omega (arith, e))
      (handle_create_event-IsValid r (seen s bus) v.valid) tt
Section-IsSound {s} (user i r bus idle) v =
    turn-IsSound i outside _ s v
      (let e = user_created-next_address r (seen s bus) in omega (arith, e))
      (handle_user_created-IsValid r (seen s bus) v.valid) tt
Section-IsSound {s} (cancel i w pid r bus x idle done) v =
    let kept : x.1.core.next_address ≡ s.core.next_address =
      subst (λ a. next_after (seen s bus) a ≡ s.core.next_address) done
        (cancel_order-next_address w pid r (seen s bus)) in
    let (y, served, valid) = handle_cancel_order-Served w pid r (seen s bus) v.valid in
    let same : y ≡ x = some-injective y x (sym served ∙ done) in
    turn-IsSound i outside _ s v (omega (arith, kept)) (subst (λ z. IsValid z.1.core) same valid) tt
Section-IsSound {s} (refuse i w r message c idle fits quantity good turned) v =
    turn-IsSound i outside c s v
      (subst (AdmissionGrows s.core.next_address) turned (admit_order-grows (new_order w r) s.core))
      (subst AdmissionIsValid turned (
        admit_order-IsValid (new_order w r) s.core v.valid (new_order-IsConserved w r fits quantity)
          (validate_order-has_book (new_order w r) good)))
      tt
Section-IsSound {s} (admit i w r p c idle fits quantity good taken) v =
    let admission = subst AdmissionIsValid taken (
      admit_order-IsValid (new_order w r) s.core v.valid (new_order-IsConserved w r fits quantity)
        (validate_order-has_book (new_order w r) good)) in
    turn-IsSound i (announcing p) c s v
      (subst (AdmissionGrows s.core.next_address) taken (admit_order-grows (new_order w r) s.core))
      admission.0 admission.1
Section-IsSound {s} (sent i p placing) v =
    turn-IsSound i (matching p) s.core s v (omega arith) v.valid
      (subst (Holds s.core.next_address) placing (v.holds i))
Section-IsSound {s} (lost i p placing) v =
    turn-IsSound i outside _ s v (omega arith) (drop_order-IsValid p s.core v.valid) tt
Section-IsSound {s} (match i p src c ts placing done) v =
    let held : p < s.core.next_address = subst (Holds s.core.next_address) placing (v.holds i) in
    let (y, found, valid) = match_order-IsValid src p s.core held v.valid in
    let same : y ≡ (c, ts) = some-injective y (c, ts) (sym found ∙ done) in
    turn-IsSound i outside c s v (omega (arith, match_order-next_address src p s.core c ts done))
      (subst (λ z. IsValid z.0) same valid) tt

pub Sections-IsSound : {s t : Shared} → Sections s t → IsSound s → IsSound t
Sections-IsSound here v = v
Sections-IsSound (next before step) v = Section-IsSound step (Sections-IsSound before v)

pub at_rest-IsSound : (c : Core) → IsValid c → IsSound (at_rest c)
at_rest-IsSound c v = record { valid = v; holds = λ i. tt }
