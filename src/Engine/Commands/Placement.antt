-- ===== src/Engine/Commands/Placement.antt =====
-- Placing an order in a valid state gives a response and a valid state, whichever way it ends.
use predix_go_backend.Base.{
  ℕ, suc, ◌<◌, ◌≡◌, refl, String, true, false, not, Option, none, some, arith, ◌==◌, string_eq,
  nat_eq, Bool-cases, Option-cases, inl, inr, subst, pos, IsInt64, leb_ℤ, beq_refl,
}
use predix_go_backend.Dict.{lookup, insert}
use predix_go_backend.Engine.Types.{Order, Heap, Status, status_eq, store}
use predix_go_backend.Engine.Ledger.{Ledger, reserved, reserve_order}
use predix_go_backend.Engine.Matching.Quantities.{IsConserved, store-IsConserved}
use predix_go_backend.Engine.Matching.Terms.{terms}
use predix_go_backend.Engine.Emit.{EventType, order_data, emit_event}
use predix_go_backend.Engine.Core.{Core}
use predix_go_backend.Engine.Core.Invariant.{
  IsValid, IsKnown, has_book, IsValid-same, All-insert, All-erase,
}
use predix_go_backend.Engine.Core.Gentle.{set_status-IsValid}
use predix_go_backend.Engine.Core.Settle.{match_order-IsValid}
use predix_go_backend.Engine.Commands.{
  Engine, World, Response, success, failure, placed, existing, publish_trades, CreateRequest,
  Admission, known, turned_away, admitted, new_order, validate_order, admit_order, place_order,
  drop_order, handle_create_order, Admission-cases, Reserve-cases,
}

-- The ledger is not part of what the invariant reads.
pub ledger-IsValid : (c : Core) (l : Ledger) → IsValid c → IsValid (record c { ledger = l })
ledger-IsValid c l v = record { conserved = v.conserved; markets = v.markets; orders = v.orders }

pub new_order-IsConserved :
    (w : World) (r : CreateRequest)
    → IsInt64 r.quantity
    → leb_ℤ r.quantity (pos 0) ≡ false
    → IsConserved (new_order w r)
unfolding new_order
new_order-IsConserved w r i e = ground arith

pub validate_order-has_book : (o : Order) → validate_order o ≡ none → has_book o ≡ true
unfolding validate_order
validate_order-has_book o e = ground arith

reserve_order-keeps :
    (o o' : Order) (l l' : Ledger)
    → reserve_order o l ≡ reserved o' l'
    → IsConserved o
    → has_book o ≡ true
    → IsConserved o' × (has_book o' ≡ true)
unfolding reserve_order
reserve_order-keeps o o' l l' e k b = ground arith

store_below : (n : ℕ) (o : Order) (h : Heap) (p : ℕ) → p < n → terms (store n o h p) ≡ terms (h p)
store_below n o h p lt = let ne : (p == n) ≡ false = ground arith in rw ne refl

-- What an admission must have kept.
abbrev pub AdmissionIsValid : Admission → Type 0
AdmissionIsValid (known p) = Unit
AdmissionIsValid (turned_away message c) = IsValid c
AdmissionIsValid (admitted p c) = IsValid c × (p < c.next_address)

fresh-IsValid :
    (c : Core) (o : Order) (id : String) (l : Ledger)
    → IsValid c
    → IsConserved o
    → has_book o ≡ true
    → IsValid (record c {
      ledger = l;
      heap = store c.next_address o c.heap;
      orders = insert id c.next_address c.orders;
      next_address = suc c.next_address;
    })
fresh-IsValid c o id l v k b =
    let n : ℕ = c.next_address in
    let h : Heap = store n o c.heap in
    let moved =
      IsValid-same c h (suc n) (omega arith) (store_below n o c.heap)
        (store-IsConserved n o c.heap k v.conserved) v in
    record {
      conserved = moved.conserved;
      markets = moved.markets;
      orders =
          All-insert (IsKnown h (suc n)) id n c.orders (omega arith, rw (beq_refl n) b)
            moved.orders;
    }

pub admit_order-IsValid :
    (o : Order) (c : Core)
    → IsValid c
    → IsConserved o
    → has_book o ≡ true
    → AdmissionIsValid (admit_order o c)
unfolding admit_order
admit_order-IsValid o c v k b = elim (Option-cases (lookup o.id c.orders)) [
  | inr (p, old) ↦ rw (old, admit_order) tt
  | inl fresh ↦ elim (Option-cases (lookup o.event_id c.markets)) [
    | inl no_market ↦ rw (fresh, admit_order, no_market) v
    | inr (m, market) ↦ elim (Reserve-cases (reserve_order o c.ledger)) [
      | inl (message, l, r) ↦ rw (fresh, admit_order, market, r) (ledger-IsValid c l v)
      | inr (o', l, r) ↦
          let keeps = reserve_order-keeps o o' c.ledger l r k b in
          rw (fresh, admit_order, market, r)
            (fresh-IsValid c o' o.id l v keeps.0 keeps.1, omega arith)
    ]
  ]
]

-- A response is given, and the state is valid after it.
abbrev pub Served : Option (Response × Engine) → Type 0
Served r = (x : Response × Engine) × (r ≡ some x) × IsValid x.1.core

pub drop_order-IsValid : (p : ℕ) (c : Core) → IsValid c → IsValid (drop_order p c)
unfolding drop_order
drop_order-IsValid p c v = set_status-IsValid p Status.rejected _ (record {
  conserved = v.conserved;
  markets = v.markets;
  orders = All-erase (IsKnown c.heap c.next_address) (c.heap p).id c.orders v.orders;
})

place_order-Served :
    (w : World) (pid p : ℕ) (e : Engine)
    → IsValid e.core
    → p < e.core.next_address
    → Served (place_order w pid p e)
unfolding place_order
place_order-Served w pid p e v lt =
    let announced =
      emit_event w.delivery pid EventType.order_created (order_data (e.core.heap p)) false e.bus in
    let (matched, found, valid) = match_order-IsValid w.source p e.core lt v in
    elim (Bool-cases (not announced.0)) [
      | inl lost ↦ (
        (
          failure "failed to stream order creation",
          record { core = drop_order p e.core; bus = announced.1 },
        ),
        rw lost refl,
        drop_order-IsValid p e.core v,
      )
      | inr sent ↦
          let c : Core = matched.0 in
          (
            (
              success (
                  placed (c.heap p).id (c.heap p).status (c.heap p).filled_quantity
                    (c.heap p).remaining_quantity),
              record {
                core = c;
                bus = publish_trades w.trade_delivery pid 0 matched.1 announced.1;
              },
            ),
            rw (sent, found) refl,
            valid,
          )
    ]

pub handle_create_order-Served :
    (w : World) (pid : ℕ) (r : CreateRequest) (e : Engine)
    → IsInt64 r.quantity
    → IsValid e.core
    → Served (handle_create_order w pid (some r) e)
unfolding handle_create_order
handle_create_order-Served w pid r e i v =
    let o : Order = new_order w r in
    elim (Bool-cases (leb_ℤ r.quantity (pos 0))) [
      | inl nothing ↦ ((failure "quantity must be greater than zero", e), rw nothing refl, v)
      | inr some_quantity ↦ elim (Option-cases (validate_order o)) [
        | inr (message, bad) ↦ ((failure message, e), ground arith, v)
        | inl good ↦
            let ok =
              admit_order-IsValid o e.core v (new_order-IsConserved w r i some_quantity)
                (validate_order-has_book o good) in
            elim (Admission-cases (admit_order o e.core)) [
              | inl (p, a) ↦ (
                (success (existing (e.core.heap p).id (e.core.heap p).status), e),
                rw (some_quantity, good, a) refl,
                v,
              )
              | inr (inl (message, c, a)) ↦ (
                (failure message, record e { core = c }),
                rw (some_quantity, good, a) refl,
                subst AdmissionIsValid a ok,
              )
              | inr (inr (p, c, a)) ↦
                  let valid = subst AdmissionIsValid a ok in
                  let (x, done, after) =
                    place_order-Served w pid p (record e { core = c }) valid.0 valid.1 in
                  (x, rw (some_quantity, good, a) done, after)
            ]
      ]
    ]
