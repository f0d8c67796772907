-- ===== src/Engine/Backing/Orders.antt =====
-- The whole of `handleCreateOrderCore` for a limit order, from its payload to its response.
use predix_go_backend.Base.{
  ℕ, suc, ◌*◌, ◌^◌, ◌<◌, ◌≡◌, refl, ap, ◌∙◌, subst, true, false, not, Option, none, some, arith,
  ◌==◌, string_eq, nat_eq, pos, pos_part, Nat64, IsInt64, leb_ℤ, Bool-cases, Option-cases, inl, inr,
}
use predix_go_backend.Dict.{lookup}
use predix_go_backend.Engine.Types.{status_eq, Order, order_type_limit, store}
use predix_go_backend.Engine.Ledger.{Ledger, reserve_order}
use predix_go_backend.Engine.Ledger.Totals.{cash, shares}
use predix_go_backend.Engine.Emit.{EventType, order_data, emit_event}
use predix_go_backend.Engine.Core.{Core, match_order}
use predix_go_backend.Engine.Core.Invariant.{IsValid}
use predix_go_backend.Engine.Commands.{
  Engine, World, Response, CreateRequest, new_order, validate_order, admit_order, drop_order,
  place_order, handle_create_order, Reserve-cases, Admission-cases,
}
use predix_go_backend.Engine.Commands.Placement.{
  AdmissionIsValid, admit_order-IsValid, new_order-IsConserved, validate_order-has_book,
}
use predix_go_backend.Engine.Backing.{is_closed, IsBacked}
use predix_go_backend.Engine.Backing.Close.{limit-no_market}
use predix_go_backend.Engine.Backing.Funded.{Covered, IsFunded}
use predix_go_backend.Engine.Backing.Rest.{IsKept}
use predix_go_backend.Engine.Backing.Match.{IsKept-trans, match_order-IsKept}
use predix_go_backend.Engine.Backing.Reserving.{Funds, reserve_order-Funds}
use predix_go_backend.Engine.Backing.Placing.{
  AdmissionFunds, placed-IsKept, placed-Covered, dropped-IsKept, at_new,
}

-- The numbers of a limit order: what it may cost fits an int64.
pub record IsPriced (o : Order) : Type 0 where
  pub limit : (o.order_type == order_type_limit) ≡ true
  pub live : is_closed o ≡ false
  pub quantity : Nat64 o.remaining_quantity
  pub price : Nat64 o.price
  pub fits : pos_part o.remaining_quantity * pos_part o.price < 2 ^ 63

nothing-IsKept : (c : Core) → IsFunded c → IsKept c c
nothing-IsKept c f = record { funded = f; cash_kept = refl; shares_kept = refl }

-- A ledger that is backed as before.
refused-IsKept :
    (c : Core) (l : Ledger)
    → IsFunded c
    → IsBacked c.heap c.next_address l
    → cash l ≡ cash c.ledger
    → shares l ≡ shares c.ledger
    → IsKept c (record c { ledger = l })
refused-IsKept c l f b x y = record {
  funded = record { backed = b; markets = f.markets; known = f.known };
  cash_kept = x;
  shares_kept = y;
}

admit_order-AdmissionFunds :
    (o : Order) (c : Core) → IsFunded c → IsPriced o → AdmissionFunds c (admit_order o c)
unfolding admit_order
admit_order-AdmissionFunds o c f k =
    let funds : Funds o c.heap c.next_address c.ledger (reserve_order o c.ledger) =
      reserve_order-Funds o c.heap c.next_address c.ledger f.backed (limit-no_market o k.limit)
        k.quantity k.price k.fits in
    elim (Option-cases (lookup o.id c.orders)) [
      | inr (p, old) ↦ rw (admit_order, old) tt
      | inl fresh ↦ elim (Option-cases (lookup o.event_id c.markets)) [
        | inl no_market ↦ rw (admit_order, fresh, no_market) (nothing-IsKept c f)
        | inr (m, market) ↦ elim (Reserve-cases (reserve_order o c.ledger)) [
          | inl (message, l, r) ↦
              let b = subst (Funds o c.heap c.next_address c.ledger) r funds in
              rw (admit_order, fresh, market, r) (refused-IsKept c l f b.0 b.1 b.2)
          | inr (o', l, r) ↦
              let (b, x, y, (z, held, nz, enough)) =
                subst (Funds o c.heap c.next_address c.ledger) r funds in
              let b' =
                subst
                  (λ (a : Order). IsBacked (store c.next_address a c.heap) (suc c.next_address) l)
                  held b in
              rw (admit_order, fresh, market, r, held)
                (
                  placed-IsKept c o f fresh k.limit k.price l z nz k.live enough b' x y,
                  placed-Covered c o f fresh k.limit k.price l z nz k.live enough b' x y,
                  ap (λ (a : Order). a.order_type == order_type_limit)
                        (at_new c o f fresh k.limit k.price l z nz k.live enough b' x y)
                      ∙ k.limit,
                  ap (λ (a : Order). is_closed a)
                        (at_new c o f fresh k.limit k.price l z nz k.live enough b' x y)
                      ∙ k.live,
                  dropped-IsKept c o f fresh k.limit k.price l z nz k.live enough b' x y,
                )
        ]
      ]
    ]

abbrev KeptBy : Core → Option (Response × Engine) → Type 0
KeptBy c none = Unit
KeptBy c (some x) = IsKept c x.1.core

-- The second half, from the state `e` that the admission has made of `c`.
place_order-KeptBy :
    (w : World) (pid p : ℕ) (c : Core) (e : Engine)
    → cash c.ledger < 2 ^ 62
    → shares c.ledger < 2 ^ 62
    → IsValid e.core
    → IsKept c e.core
    → Covered e.core p
    → ((e.core.heap p).order_type == order_type_limit) ≡ true
    → is_closed (e.core.heap p) ≡ false
    → IsKept c (drop_order p e.core)
    → KeptBy c (place_order w pid p e)
unfolding place_order
place_order-KeptBy w pid p c e small few v k covered limit live dropped =
    let announced =
      emit_event w.delivery pid EventType.order_created (order_data (e.core.heap p)) false e.bus in
    elim (Bool-cases (not announced.0)) [
      | inl lost ↦ rw (place_order, lost) dropped
      | inr sent ↦ elim (Option-cases (match_order w.source p e.core)) [
        | inl stuck ↦ rw (place_order, sent, stuck) tt
        | inr (r, found) ↦
            rw (place_order, sent, found)
              (IsKept-trans c e.core r.0 k (
                match_order-IsKept w.source p e.core v.conserved k.funded
                  (omega (arith, k.cash_kept, small)) (omega (arith, k.shares_kept, few)) covered
                  limit live r found))
      ]
    ]

new_order-IsPriced :
    (w : World) (r : CreateRequest)
    → IsInt64 r.quantity
    → IsInt64 r.price
    → (r.order_type == order_type_limit) ≡ true
    → pos_part r.quantity * pos_part r.price < 2 ^ 63
    → leb_ℤ r.quantity (pos 0) ≡ false
    → validate_order (new_order w r) ≡ none
    → IsPriced (new_order w r)
unfolding new_order validate_order
new_order-IsPriced w r iq ip limit fits some_quantity good = record {
  limit = limit;
  live = refl;
  quantity = ground arith;
  price = ground arith;
  fits = fits;
}

handle_create_order-KeptBy :
    (w : World) (pid : ℕ) (r : CreateRequest) (e : Engine)
    → IsInt64 r.quantity
    → IsInt64 r.price
    → (r.order_type == order_type_limit) ≡ true
    → pos_part r.quantity * pos_part r.price < 2 ^ 63
    → IsValid e.core
    → IsFunded e.core
    → cash e.core.ledger < 2 ^ 62
    → shares e.core.ledger < 2 ^ 62
    → KeptBy e.core (handle_create_order w pid (some r) e)
unfolding handle_create_order
handle_create_order-KeptBy w pid r e iq ip limit fits v f small few =
    let o : Order = new_order w r in
    let nothing = nothing-IsKept e.core f in
    elim (Bool-cases (leb_ℤ r.quantity (pos 0))) [
      | inl no_quantity ↦ rw (handle_create_order, no_quantity) nothing
      | inr quantity ↦ elim (Option-cases (validate_order o)) [
        | inr (message, bad) ↦ rw (handle_create_order, quantity, bad) nothing
        | inl good ↦
            let valid =
              admit_order-IsValid o e.core v (new_order-IsConserved w r iq quantity)
                (validate_order-has_book o good) in
            let funds =
              admit_order-AdmissionFunds o e.core f
                (new_order-IsPriced w r iq ip limit fits quantity good) in
            elim (Admission-cases (admit_order o e.core)) [
              | inl (p, a) ↦ rw (handle_create_order, quantity, good, a) nothing
              | inr (inl (message, c, a)) ↦
                  rw (handle_create_order, quantity, good, a)
                    (subst (AdmissionFunds e.core) a funds)
              | inr (inr (p, c, a)) ↦
                  let k = subst (AdmissionFunds e.core) a funds in
                  let after = subst AdmissionIsValid a valid in
                  rw (handle_create_order, quantity, good, a)
                    (place_order-KeptBy w pid p e.core (record e { core = c }) small few after.0 k.0
                      k.1 k.2 k.3 k.4)
            ]
      ]
    ]

-- A request for a limit order, however it ends, creates and loses no cash and no share, and keeps
-- the state funded: every reserved amount is the sum of what the orders have locked of it, and the
-- orders on the books and in the order map have locked what they may still have to give. The state
-- is valid and funded before, all cash and all shares are less than 2 ^ 62, the quantity and the
-- price are int64s, and their product fits one.
pub handle_create_order-IsKept :
    (w : World) (pid : ℕ) (r : CreateRequest) (e : Engine) (x : Response × Engine)
    → IsInt64 r.quantity
    → IsInt64 r.price
    → (r.order_type == order_type_limit) ≡ true
    → pos_part r.quantity * pos_part r.price < 2 ^ 63
    → IsValid e.core
    → IsFunded e.core
    → cash e.core.ledger < 2 ^ 62
    → shares e.core.ledger < 2 ^ 62
    → handle_create_order w pid (some r) e ≡ some x
    → IsKept e.core x.1.core
handle_create_order-IsKept w pid r e x iq ip limit fits v f small few done =
    subst (KeptBy e.core) done (handle_create_order-KeptBy w pid r e iq ip limit fits v f small few)
