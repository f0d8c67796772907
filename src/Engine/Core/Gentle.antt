-- ===== src/Engine/Core/Gentle.antt =====
-- Writes to the heap that no invariant of the engine's state minds: statuses, locks, settlement.
use predix_go_backend.Base.{
  ℕ, ◌≡◌, refl, ◌∙◌, String, List, [], ◌∷◌, arith, foldl, string_eq, nat_eq, Option-cases, inl, inr,
}
use predix_go_backend.Dict.{Dict, lookup}
use predix_go_backend.Engine.Types.{Order, Heap, Status, Trade, status_eq, store}
use predix_go_backend.Engine.Ledger.{Ledger, unlock, unlock_order, settle_orders, release_order}
use predix_go_backend.Engine.Matching.Quantities.{IsConserved, HeapIsConserved, store-IsConserved}
use predix_go_backend.Engine.Matching.Terms.{terms, SameTerms, store-SameTerms}
use predix_go_backend.Engine.Core.{Core, settle_trade_locked, release_at, set_status}
use predix_go_backend.Engine.Core.Invariant.{IsValid, IsValid-same}

-- A heap write that keeps the terms and the balance of the quantities.
abbrev pub Gentle : Heap → Heap → Type 0
Gentle h h' = SameTerms h h' × (HeapIsConserved h → HeapIsConserved h')

pub Gentle-trans : (h h' h'' : Heap) → Gentle h h' → Gentle h' h'' → Gentle h h''
Gentle-trans h h' h'' g g' = (λ p. g'.0 p ∙ g.0 p, λ k. g'.1 (g.1 k))

pub store-Gentle :
    (p : ℕ) (o : Order) (h : Heap)
    → terms o ≡ terms (h p)
    → (IsConserved (h p) → IsConserved o)
    → Gentle h (store p o h)
store-Gentle p o h e f = (store-SameTerms p o h e, λ k. store-IsConserved p o h (f (k p)) k)

terms-unlock : (t : Trade) (o : Order) → terms (unlock t o) ≡ terms o
unfolding unlock terms
terms-unlock t o = refl

unlock-IsConserved : (t : Trade) (o : Order) → IsConserved o → IsConserved (unlock t o)
unfolding unlock
unlock-IsConserved t o w = record {
  whole = w.whole;
  filled = w.filled;
  remaining = w.remaining;
  total = w.total;
}

unlock_order-Gentle :
    (orders : Dict ℕ) (t : Trade) (id : String) (h : Heap) → Gentle h (unlock_order orders t id h)
unfolding unlock_order
unlock_order-Gentle orders t id h = elim (Option-cases (lookup id orders)) [
  | inl missing ↦ rw (missing, unlock_order) (λ p. refl, λ k. k)
  | inr (p, found) ↦
      rw (found, unlock_order)
        (store-Gentle p (unlock t (h p)) h (terms-unlock t (h p)) (unlock-IsConserved t (h p)))
]

pub settle_orders-Gentle :
    (orders : Dict ℕ) (t : Trade) (h : Heap) → Gentle h (settle_orders orders t h)
unfolding settle_orders
settle_orders-Gentle orders t h =
    Gentle-trans h (unlock_order orders t t.order_id h) _
      (unlock_order-Gentle orders t t.order_id h) (unlock_order-Gentle orders t t.match_order_id _)

pub terms-status : (o : Order) (s : Status) → terms (record o { status = s }) ≡ terms o
unfolding terms
terms-status o s = refl

pub status-IsConserved :
    (o : Order) (s : Status) → IsConserved o → IsConserved (record o { status = s })
status-IsConserved o s w = record {
  whole = w.whole;
  filled = w.filled;
  remaining = w.remaining;
  total = w.total;
}

pub set_status-Gentle :
    (p : ℕ) (s : Status) (h : Heap) → Gentle h (store p (record (h p) { status = s }) h)
set_status-Gentle p s h = store-Gentle p _ h (terms-status (h p) s) (status-IsConserved (h p) s)

pub terms-release_order : (o : Order) (l : Ledger) → terms (release_order o l).0 ≡ terms o
unfolding terms release_order
terms-release_order o l = ground arith

release_order-IsConserved :
    (o : Order) (l : Ledger) → IsConserved o → IsConserved (release_order o l).0
unfolding release_order
release_order-IsConserved o l w = ground arith

-- Of a state: the markets and the orders may not move, the heap may move gently.
pub IsValid-Gentle :
    (c c' : Core)
    → c'.markets ≡ c.markets
    → c'.orders ≡ c.orders
    → c'.next_address ≡ c.next_address
    → Gentle c.heap c'.heap
    → IsValid c
    → IsValid c'
IsValid-Gentle c c' m o n g v =
    let moved =
      IsValid-same c c'.heap c.next_address (omega arith) (λ p lt. g.0 p) (g.1 v.conserved) v in
    record {
      conserved = moved.conserved;
      markets = rw (m, n) moved.markets;
      orders = rw (o, n) moved.orders;
    }

pub release_at-IsValid : (p : ℕ) (c : Core) → IsValid c → IsValid (release_at p c)
unfolding release_at
release_at-IsValid p c v =
    IsValid-Gentle c _ refl refl refl
      (store-Gentle p _ c.heap (terms-release_order (c.heap p) c.ledger)
        (release_order-IsConserved (c.heap p) c.ledger))
      v

pub set_status-IsValid : (p : ℕ) (s : Status) (c : Core) → IsValid c → IsValid (set_status p s c)
set_status-IsValid p s c v = IsValid-Gentle c _ refl refl refl (set_status-Gentle p s c.heap) v

pub settle_trade_locked-IsValid :
    (c : Core) (t : Trade) → IsValid c → IsValid (settle_trade_locked c t)
unfolding settle_trade_locked
settle_trade_locked-IsValid c t v =
    IsValid-Gentle c _ refl refl refl (settle_orders-Gentle c.orders t c.heap) v

pub settle_all-IsValid :
    (ts : List Trade) (c : Core) → IsValid c → IsValid (foldl settle_trade_locked c ts)
settle_all-IsValid [] c v = v
settle_all-IsValid (t ∷ ts) c v =
    settle_all-IsValid ts (settle_trade_locked c t) (settle_trade_locked-IsValid c t v)
