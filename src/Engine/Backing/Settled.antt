-- ===== src/Engine/Backing/Settled.antt =====
-- All the trades of a match, settled one after the other.
use predix_go_backend.Base.{
  ℕ, ◌^◌, ◌<◌, ◌≡◌, refl, ◌∙◌, sym, subst, List, [], ◌∷◌, foldl, arith, All, nat_eq,
}
use predix_go_backend.Sort.{All-map}
use predix_go_backend.Engine.Types.{Trade, Heap}
use predix_go_backend.Engine.Ledger.{Ledger, settle_holdings, settle_orders}
use predix_go_backend.Engine.Ledger.Totals.{cash, shares}
use predix_go_backend.Engine.Matching.Terms.{SameTerms}
use predix_go_backend.Engine.Core.{Core, settle_trade_locked}
use predix_go_backend.Engine.Backing.{IsCovered, IsBacked, IsGenuine}
use predix_go_backend.Engine.Backing.Unlocking.{unlock_pair-SameTerms, settle_orders-named}
use predix_go_backend.Engine.Backing.Charging.{IsGenuine-terms}
use predix_go_backend.Engine.Backing.Settling.{covers, settled_one}

-- What the state is after a settlement: reserved amounts are what is locked, the totals are those
-- of `c`, and the orders cover the trades that are left.
pub record IsSettled (E : ℕ → Type 0) (c : Core) (ts : List Trade) (h : Heap) (l : Ledger)
    : Type 0 where
  pub backed : IsBacked h c.next_address l
  pub cash_kept : cash l ≡ cash c.ledger
  pub shares_kept : shares l ≡ shares c.ledger
  pub same : SameTerms c.heap h
  pub covered : (p : ℕ) → E p → IsCovered c.orders c.next_address ts p (h p)

one-IsSettled :
    (E : ℕ → Type 0) (c : Core) (t : Trade) (ts : List Trade)
    → cash c.ledger < 2 ^ 62
    → shares c.ledger < 2 ^ 62
    → IsBacked c.heap c.next_address c.ledger
    → ((p : ℕ) → E p → IsCovered c.orders c.next_address (t ∷ ts) p (c.heap p))
    → IsGenuine c.orders c.heap E t
    → IsSettled E c ts (settle_orders c.orders t c.heap) (settle_holdings t c.ledger)
one-IsSettled E c t ts small few b k g =
    let one = settled_one c.orders c.heap c.next_address c.ledger E t ts g k b small few in
    subst (λ (h : Heap). IsSettled E c ts h (settle_holdings t c.ledger))
      (sym (
        settle_orders-named c.orders t c.heap g.taker g.maker g.taker_named g.maker_named
          g.distinct))
      (record {
        backed = one.0;
        cash_kept = one.1;
        shares_kept = one.2;
        same = unlock_pair-SameTerms g.taker g.maker t c.heap g.distinct;
        covered = covers c.orders c.heap c.next_address c.ledger E t ts g k b;
      })

pub settle_all-IsSettled :
    (E : ℕ → Type 0) (ts : List Trade) (c : Core)
    → cash c.ledger < 2 ^ 62
    → shares c.ledger < 2 ^ 62
    → IsBacked c.heap c.next_address c.ledger
    → ((p : ℕ) → E p → IsCovered c.orders c.next_address ts p (c.heap p))
    → All (IsGenuine c.orders c.heap E) ts
    → let c' = foldl settle_trade_locked c ts in IsSettled E c [] c'.heap c'.ledger
unfolding settle_trade_locked
settle_all-IsSettled E [] c small few b k gs = record {
  backed = b;
  cash_kept = refl;
  shares_kept = refl;
  same = λ p. refl;
  covered = k;
}
settle_all-IsSettled E (t ∷ ts) c small few b k (g, gs) =
    let c' : Core = settle_trade_locked c t in
    let one = one-IsSettled E c t ts small few b k g in
    let rest =
      settle_all-IsSettled E ts c' (omega (arith, one.cash_kept, small))
        (omega (arith, one.shares_kept, few)) one.backed one.covered
        (All-map (IsGenuine c.orders c.heap E) (IsGenuine c.orders c'.heap E) ts
          (λ u. IsGenuine-terms c.orders c.heap c'.heap E u one.same) gs) in
    record {
      backed = rest.backed;
      cash_kept = rest.cash_kept ∙ one.cash_kept;
      shares_kept = rest.shares_kept ∙ one.shares_kept;
      same = λ p. rest.same p ∙ one.same p;
      covered = rest.covered;
    }
