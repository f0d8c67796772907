-- ===== src/Engine/Backing/Close.antt =====
-- What follows the matching loop in `matchOrder`, for a limit order: nothing is created or lost.
use predix_go_backend.Base.{
  ℕ, ◌≡◌, refl, ap, ◌∙◌, sym, subst, String, Bool, true, false, not, ◌||◌, List, [], ◌∷◌, foldl,
  arith, ◌==◌, string_eq, nat_eq, int_eq, pos, Bool-cases, inl, inr, All, leb_ℤ,
}
use predix_go_backend.Sort.{All-map}
use predix_go_backend.Dict.{Dict}
use predix_go_backend.Engine.Types.{
  Order, OrderBook, Trade, Heap, Status, status_eq, store, side_buy, order_type_limit,
  order_type_market,
}
use predix_go_backend.Engine.Book.{opposite}
use predix_go_backend.Engine.Ledger.{Ledger, release_order}
use predix_go_backend.Engine.Matching.Presence.{own_side}
use predix_go_backend.Engine.Matching.Terms.{store-SameTerms}
use predix_go_backend.Engine.Core.{Core, settle_trade_locked, release_at}
use predix_go_backend.Engine.Core.Gentle.{terms-release_order}
use predix_go_backend.Engine.Backing.{is_buy, due, gross, owed, due-closed, IsCovered}
use predix_go_backend.Engine.Backing.Funded.{Covered, Stands, BookStands, IsFunded, markets-moved}
use predix_go_backend.Engine.Backing.Release.{release_order-IsReleased}
use predix_go_backend.Engine.Backing.Rest.{IsKept}

pub settled-frame :
    (ts : List Trade) (c : Core)
    → let c' = foldl settle_trade_locked c ts in
      c' ≡ record c { heap = c'.heap; ledger = c'.ledger }
unfolding settle_trade_locked
settled-frame [] c = refl
settled-frame (t ∷ ts) c = settled-frame ts (settle_trade_locked c t)

due-unlocked : (o : Order) → due (record o { locked_funds = pos 0 }) ≡ due o
unfolding due gross
due-unlocked o = refl

pub owed-nil : (orders : Dict ℕ) (buy : Bool) (p : ℕ) → owed orders buy p [] ≡ 0
unfolding owed
owed-nil orders buy p = refl

-- An order that has nothing left to give is covered whatever it has locked.
released-IsCovered :
    (orders : Dict ℕ) (n p : ℕ) (o : Order) (l : Ledger)
    → due o ≡ 0
    → IsCovered orders n [] p o
    → IsCovered orders n [] p (release_order o l).0
unfolding release_order
released-IsCovered orders n p o l done k = elim (Bool-cases (leb_ℤ o.locked_funds (pos 0))) [
  | inl none_left ↦ rw none_left k
  | inr some_left ↦ rw some_left (record {
    allocated = k.allocated;
    registered = k.registered;
    price = k.price;
    lock = (refl, omega arith);
    covered = omega (arith, due-unlocked o, done, owed-nil orders (is_buy o) p);
  })
]

pub release_at-IsKept :
    (p : ℕ) (c : Core) → IsFunded c → Covered c p → due (c.heap p) ≡ 0 → IsKept c (release_at p c)
unfolding release_at
release_at-IsKept p c f k done =
    let o : Order = c.heap p in
    let h' : Heap = store p (release_order o c.ledger).0 c.heap in
    let r = release_order-IsReleased c.heap c.next_address c.ledger p k.allocated k.lock f.backed in
    let keeps : (q : ℕ) → Covered c q → IsCovered c.orders c.next_address [] q (h' q) = λ q e.
      elim (Bool-cases (q == p)) [
        | inr miss ↦ rw miss e
        | inl hit ↦
            let same : q ≡ p = (nat_eq.beq_iff q p).0 hit in
            rw hit (
              released-IsCovered c.orders c.next_address q o c.ledger done
                (subst (λ (x : ℕ). IsCovered c.orders c.next_address [] q (c.heap x)) same e))
      ] in
    record {
      funded = record {
        backed = r.backed;
        markets =
            markets-moved (Covered c) (λ q. IsCovered c.orders c.next_address [] q (h' q)) c.heap h'
              (store-SameTerms p (release_order o c.ledger).0 c.heap
                (terms-release_order o c.ledger))
              keeps c.markets f.markets;
        known = All-map _ _ c.orders (λ e. keeps e.1) f.known;
      };
      cash_kept = r.cash_kept;
      shares_kept = r.shares_kept;
    }

pub limit-no_market :
    (o : Order)
    → (o.order_type == order_type_limit) ≡ true
    → (o.order_type == order_type_market) ≡ false
limit-no_market o limit =
    let same : o.order_type ≡ order_type_limit =
      (string_eq.beq_iff o.order_type order_type_limit).0 limit in
    ap (λ (x : String). x == order_type_market) same ∙ refl

-- An order that is filled or canceled has nothing more to give.
pub settled-due :
    (a : Order) → ((a.status == Status.filled) || (a.status == Status.canceled)) ≡ true → due a ≡ 0
settled-due a closed = due-closed a (ground arith)

-- The book that the loop leaves.
pub left-Stands :
    (E : ℕ → Type 0) (h : Heap) (o : Order) (book book' : OrderBook)
    → BookStands E h o.event_id book
    → own_side o.side book' ≡ own_side o.side book
    → All
        (λ q. E q × ((is_buy (h q) ≡ not (is_buy o)) × ((h q).event_id ≡ o.event_id)))
        (opposite o.side book')
    → BookStands E h o.event_id book'
unfolding opposite
left-Stands E h o book book' stands own against = elim (Bool-cases (o.side == side_buy)) [
  | inl buy ↦ (
    subst (λ (ps : List ℕ). All (Stands E h o.event_id true) ps) (sym (rw buy at own)) stands.0,
    All-map _ _ book'.asks (λ q x. (x.0, x.1.0, x.1.1)) (rw buy at against),
  )
  | inr sell ↦ (
    All-map _ _ book'.bids (λ q x. (x.0, x.1.0, x.1.1)) (rw sell at against),
    subst (λ (ps : List ℕ). All (Stands E h o.event_id false) ps) (sym (rw sell at own)) stands.1,
  )
]
