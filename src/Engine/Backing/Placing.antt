-- ===== src/Engine/Backing/Placing.antt =====
-- `handleCreateOrderCore` for a limit order: whatever comes of it, no cash and no share is created
-- or lost, and everything that is locked stays backed.
use predix_go_backend.Base.{
  subst, ◌∷◌, ℕ, suc, ◌≤◌, ◌<◌, ◌≡◌, refl, ap, ◌∙◌, sym, String, true, false, none, some, [], arith,
  ◌==◌, string_eq, nat_eq, ℤ, pos_part, Nat64, Bool-cases, inl, inr, beq_refl, All,
}
use predix_go_backend.Dict.{Dict, lookup, insert, erase, lookup-insert, lookup-erase}
use predix_go_backend.Engine.Types.{status_eq, Order, Heap, Status, store, order_type_limit}
use predix_go_backend.Engine.Ledger.{Ledger}
use predix_go_backend.Engine.Ledger.Totals.{cash, shares}
use predix_go_backend.Engine.Matching.Terms.{terms}
use predix_go_backend.Sort.{All-map}
use predix_go_backend.Engine.Core.{Core}
use predix_go_backend.Engine.Core.Invariant.{All-insert, All-erase}
use predix_go_backend.Engine.Commands.{Admission, known, turned_away, admitted, drop_order}
use predix_go_backend.Engine.Backing.{due, gross, is_closed, owed, IsCovered, IsBacked}
use predix_go_backend.Engine.Backing.Funded.{
  Covered, MarketStands, IsFunded, markets-carried, IsBacked-same,
}
use predix_go_backend.Engine.Backing.Rest.{IsKept, marked, marked-terms, marked-locks}
use predix_go_backend.Engine.Backing.Freezing.{holding}

-- A state in which the orders that there were are where they were.
module _ (c : Core) (orders : Dict ℕ) (h : Heap)
    (same : (q : ℕ) → q < c.next_address → h q ≡ c.heap q)
    (found : (j : String) (q : ℕ) → lookup j c.orders ≡ some q → lookup j orders ≡ some q) where
  still_covered : (q : ℕ) → Covered c q → IsCovered orders (suc c.next_address) [] q (h q)
  unfolding owed
  still_covered q k = rw (same q k.allocated) (record {
    allocated = omega (arith, k.allocated);
    registered = found (c.heap q).id q k.registered;
    price = k.price;
    lock = k.lock;
    covered = k.covered;
  })

  still_stands :
      All (MarketStands (Covered c) c.heap) c.markets
      → All (MarketStands (λ q. IsCovered orders (suc c.next_address) [] q (h q)) h) c.markets
  still_stands a =
      markets-carried (Covered c) (λ q. IsCovered orders (suc c.next_address) [] q (h q)) c.heap h
        (λ q k. ap terms (same q k.allocated)) still_covered c.markets a

-- Erasing what has just been put.
module _ {ℓ κ} {V : Type ℓ} (P : V → Type κ) where
  All-erase-insert :
      (k : String) (v : V) (d : Dict V)
      → All (λ (e : String × V). P e.1) d
      → All (λ (e : String × V). P e.1) (erase k (insert k v d))
  unfolding insert erase
  All-erase-insert k v [] a = rw (beq_refl k) tt
  All-erase-insert k v ((j, w) ∷ d) a = elim (Bool-cases (j == k)) [
    | inl hit ↦ rw hit (rw hit (All-erase P k d a.1))
    | inr miss ↦ rw miss (rw miss (a.0, All-erase-insert k v d a.1))
  ]

-- What an admission must have done, and what dropping its order again then does.
abbrev pub AdmissionFunds : Core → Admission → Type 0
AdmissionFunds c (known p) = Unit
AdmissionFunds c (turned_away message c') = IsKept c c'
AdmissionFunds c (admitted p c') =
    IsKept c c'
    × Covered c' p
    × (((c'.heap p).order_type == order_type_limit) ≡ true)
    × (is_closed (c'.heap p) ≡ false)
    × IsKept c (drop_order p c')

module _ (c : Core) (o : Order) (f : IsFunded c) (fresh : lookup o.id c.orders ≡ none)
    (limit : (o.order_type == order_type_limit) ≡ true) (price : Nat64 o.price) (l : Ledger) (z : ℤ)
    (nz : Nat64 z) (live : is_closed o ≡ false) (enough : due o ≤ pos_part z)
    (backed : IsBacked (store c.next_address (holding z o) c.heap) (suc c.next_address) l)
    (cash_kept : cash l ≡ cash c.ledger) (shares_kept : shares l ≡ shares c.ledger) where
  abbrev pub n : ℕ
  n = c.next_address

  abbrev pub heap : Heap
  heap = store n (holding z o) c.heap

  abbrev pub placed_core : Core
  placed_core = record c {
    ledger = l;
    heap = heap;
    orders = insert o.id n c.orders;
    next_address = suc n;
  }

  old : (q : ℕ) → q < n → heap q ≡ c.heap q
  old q lt = let other : (q == n) ≡ false = ground arith in rw other refl

  -- No order that was known has the new id.
  other_id : (j : String) (q : ℕ) → lookup j c.orders ≡ some q → (o.id == j) ≡ false
  other_id j q e = elim (Bool-cases (o.id == j)) [
    | inr miss ↦ miss
    | inl hit ↦
        let same : o.id ≡ j = (string_eq.beq_iff o.id j).0 hit in
        let gone : lookup j c.orders ≡ none =
          ap (λ (x : String). lookup x c.orders) (sym same) ∙ fresh in
        absurd (ground arith)
  ]

  pub at_new : heap n ≡ holding z o
  at_new = rw (beq_refl n) refl

  pub placed-Covered : Covered placed_core n
  unfolding owed due gross
  placed-Covered = rw at_new (record {
    allocated = omega arith;
    registered = lookup-insert o.id o.id n c.orders ∙ rw (beq_refl o.id) refl;
    price = price;
    lock = nz;
    covered = omega (arith, enough);
  })

  pub placed-IsKept : IsKept c placed_core
  placed-IsKept = record {
    funded = record {
      backed = backed;
      markets =
          still_stands c (insert o.id n c.orders) heap old
            (λ j q e. lookup-insert o.id j n c.orders ∙ rw (other_id j q e) e) f.markets;
      known = All-insert (Covered placed_core) o.id n c.orders placed-Covered (
          All-map _ _ c.orders
            (λ e.
              still_covered c (insert o.id n c.orders) heap old
                (λ j q x. lookup-insert o.id j n c.orders ∙ rw (other_id j q x) x) e.1)
            f.known);
    };
    cash_kept = cash_kept;
    shares_kept = shares_kept;
  }

  pub dropped-IsKept : IsKept c (drop_order n placed_core)
  unfolding drop_order
  dropped-IsKept =
      let h : Heap = marked n Status.rejected heap in
      let id : (heap n).id ≡ o.id = ap (λ (x : Order). x.id) at_new in
      record {
        funded = record {
          backed =
              IsBacked-same heap h (suc n) l (marked-terms n Status.rejected heap)
                (marked-locks n Status.rejected heap) backed;
          markets =
              still_stands c (erase (heap n).id (insert o.id n c.orders)) h
                (λ q lt. let other : (q == n) ≡ false = ground arith in rw other refl)
                (λ j q e. rw id (
                  lookup-erase o.id j (insert o.id n c.orders)
                  ∙ rw (other_id j q e) (lookup-insert o.id j n c.orders ∙ rw (other_id j q e) e)))
                f.markets;
          known =
              subst
                (λ (x : String).
                  All
                    (λ (e : String × ℕ).
                      IsCovered (erase x (insert o.id n c.orders)) (suc n) [] e.1 (h e.1))
                    (erase x (insert o.id n c.orders)))
                (sym id)
                (All-erase-insert
                  (λ q. IsCovered (erase o.id (insert o.id n c.orders)) (suc n) [] q (h q)) o.id n
                  c.orders
                  (All-map _ _ c.orders
                    (λ e.
                      still_covered c (erase o.id (insert o.id n c.orders)) h
                        (λ q lt. let other : (q == n) ≡ false = ground arith in rw other refl)
                        (λ j q x.
                          lookup-erase o.id j (insert o.id n c.orders)
                          ∙ rw (other_id j q x)
                              (lookup-insert o.id j n c.orders ∙ rw (other_id j q x) x))
                        e.1)
                    f.known));
        };
        cash_kept = cash_kept;
        shares_kept = shares_kept;
      }
