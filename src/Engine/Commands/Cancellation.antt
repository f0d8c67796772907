-- ===== src/Engine/Commands/Cancellation.antt =====
-- What a cancellation does, and what a second one does.
use predix_go_backend.Base.{
  ℕ, ◌≡◌, refl, ap, subst, ◌∙◌, String, Bool, true, false, not, ◌&&◌, Option, none, some, arith,
  ◌==◌, string_eq, nat_eq, beq_refl, Bool-cases, Option-cases, inl, inr, pos, leb_ℤ,
}
use predix_go_backend.Dict.{Dict, lookup}
use predix_go_backend.Engine.Types.{Order, Status, status_eq, Market, OrderBook, book_of}
use predix_go_backend.Engine.Ledger.{Ledger, release_order}
use predix_go_backend.Engine.Core.{Core, release_at}
use predix_go_backend.Engine.Commands.{
  Engine, World, Response, Reply, success, failure, canceled, CancelRequest, not_cancelable,
  cancel_at, handle_cancel_order,
}

-- The order object at `p` is canceled, holds no lock, and belongs to its event; its lock is back in
-- the ledger; no other order object and no entry of the order map has changed.
abbrev pub IsCanceledAt : ℕ → Core → Core → Type 0
IsCanceledAt p c c' =
    ((c'.heap p).status ≡ Status.canceled)
    × (leb_ℤ (c'.heap p).locked_funds (pos 0) ≡ true)
    × ((c'.heap p).event_id ≡ (c.heap p).event_id)
    × (c'.ledger ≡ (release_order (c.heap p) c.ledger).1)
    × (c'.orders ≡ c.orders)
    × ((q : ℕ) → (q == p) ≡ false → c'.heap q ≡ c.heap q)

release_order-canceled :
    (o : Order) (l : Ledger)
    → let o' : Order = record o { status = Status.canceled } in
      ((release_order o' l).0.status ≡ Status.canceled)
      × (leb_ℤ (release_order o' l).0.locked_funds (pos 0) ≡ true)
      × ((release_order o' l).0.event_id ≡ o.event_id)
      × ((release_order o' l).1 ≡ (release_order o l).1)
unfolding release_order
release_order-canceled o l = elim (Bool-cases (leb_ℤ o.locked_funds (pos 0))) [
  | inl free ↦ rw free (refl, free, refl, refl)
  | inr locked ↦ rw locked (refl, refl, refl, refl)
]

cancel_at_lem :
    (p : ℕ) (m : Market) (book : OrderBook) (c : Core) → IsCanceledAt p c (cancel_at p m book c)
unfolding cancel_at release_at
cancel_at_lem p m book c =
    let (closed, unlocked, event, back) = release_order-canceled (c.heap p) c.ledger in
    rw (beq_refl p) (closed, unlocked, event, back, refl, λ q other. rw other refl)

abbrev pub of_other_event : CancelRequest → Order → Bool
of_other_event q o = not (q.event_id == "") && not (o.event_id == q.event_id)

-- What a successful cancellation answers and does.
abbrev pub IsCancellation : CancelRequest → Engine → Option (Response × Engine) → Type 0
IsCancellation q e none = Unit
IsCancellation q e (some (failure message, e')) = e' ≡ e
IsCancellation q e (some (success reply, e')) =
    (p : ℕ) × (lookup q.order_id e.core.orders ≡ some p)
    × (reply ≡ canceled (e.core.heap p).id)
    × ((q.order_id == "") ≡ false)
    × (of_other_event q (e.core.heap p) ≡ false)
    × (not_cancelable (e.core.heap p).status ≡ false)
    × IsCanceledAt p e.core e'.core

-- A cancellation that fails changes nothing. One that succeeds is of an order in the order map
-- that was open and is of the event asked for, if one is: the order is canceled, its lock is back
-- in the ledger, and no other order object and no entry of the order map has changed.
pub handle_cancel_order-IsCancellation :
    (w : World) (pid : ℕ) (q : CancelRequest) (e : Engine)
    → IsCancellation q e (handle_cancel_order w pid (some q) e)
unfolding handle_cancel_order
handle_cancel_order-IsCancellation w pid q e = elim (Bool-cases (q.order_id == "")) [
  | inl no_id ↦ rw no_id refl
  | inr id ↦ elim (Option-cases (lookup q.order_id e.core.orders)) [
    | inl missing ↦ rw (id, missing) refl
    | inr (p, found) ↦
        let o : Order = e.core.heap p in
        elim (Bool-cases (not (q.event_id == "") && not (o.event_id == q.event_id))) [
          | inl other ↦ rw (id, found, other) refl
          | inr own ↦ elim (Bool-cases (not_cancelable o.status)) [
            | inl closed ↦ rw (id, found, own, closed) refl
            | inr live ↦ elim (Option-cases (lookup o.event_id e.core.markets)) [
              | inl no_market ↦ rw (id, found, own, live, no_market) refl
              | inr (m, market) ↦ elim (Option-cases (book_of m o.outcome)) [
                | inl no_book ↦ rw (id, found, own, live, market, no_book) tt
                | inr (book, has) ↦
                    rw (id, found, own, live, market, has)
                      (p, found, refl, id, own, live, cancel_at_lem p m book e.core)
              ]
            ]
          ]
        ]
  ]
]

canceled_lem : not_cancelable Status.canceled ≡ true
unfolding not_cancelable
canceled_lem = ground (arith, beq_refl Status.canceled)

-- Canceling an order again after a cancellation that succeeded fails and changes nothing.
pub handle_cancel_order_again :
    (w w' : World) (pid pid' : ℕ) (q : CancelRequest) (e e' : Engine) (reply : Reply)
    → handle_cancel_order w pid (some q) e ≡ some (success reply, e')
    → handle_cancel_order w' pid' (some q) e' ≡ some (failure "order cannot be canceled", e')
unfolding handle_cancel_order not_cancelable
handle_cancel_order_again w w' pid pid' q e e' reply done =
    let (p, found, answer, id, own, live, effect) =
      subst (IsCancellation q e) done (handle_cancel_order-IsCancellation w pid q e) in
    let (closed, unlocked, event, back, orders, others) = effect in
    let found' : lookup q.order_id e'.core.orders ≡ some p =
      ap (λ (d : Dict ℕ). lookup q.order_id d) orders ∙ found in
    let own' : of_other_event q (e'.core.heap p) ≡ false =
      ap (λ (s : String). not (q.event_id == "") && not (s == q.event_id)) event ∙ own in
    let full : not_cancelable (e'.core.heap p).status ≡ true =
      ap not_cancelable closed ∙ canceled_lem in
    rw (id, found', own', full) refl
