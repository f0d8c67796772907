-- ===== src/Engine/Matching/Trades.antt =====
-- Every trade of a run is one that its incoming order allows.
use predix_go_backend.Base.{
  ℕ, ◌≡◌, ◌≢◌, refl, ap, ◌∙◌, true, false, List, [], ◌∷◌, arith, ◌==◌, string_eq, ℤ, pos, ◌≤ℤ◌, ◌⊎◌,
  inl, inr, All, All-append, leb_ℤ, Bool-cases, length,
}
use predix_go_backend.Engine.Types.{Order, Trade, side_buy, side_sell, order_type_market}
use predix_go_backend.Engine.Book.{can_match, is_tradable}
use predix_go_backend.Engine.Book.Scan.{tradable_user, tradable_match}
use predix_go_backend.Engine.Matching.{
  Source, MatchState, finished, cut_front, execute_pair, match_loop, min64, build_trade,
}
use predix_go_backend.Engine.Matching.Rounds.{match_loop_rule, scanned, heap-cut_front}
use predix_go_backend.Engine.Matching.Terms.{
  terms, SameTerms, execute_pair-SameTerms, cut_front-SameTerms,
}

-- A trade that the incoming order `o` may take part in as the taker.
pub record IsLegal (o : Order) (t : Trade) : Type 0 where
  pub taker : t.order_id ≡ o.id
  pub event : t.event_id ≡ o.event_id
  pub outcome : t.outcome ≡ o.outcome
  pub two_users : t.buyer_id ≢ t.seller_id
  pub takes_part :
      ((o.side ≡ side_buy) × (t.buyer_id ≡ o.user_id))
      ⊎ ((o.side ≢ side_buy) × (t.seller_id ≡ o.user_id))
  pub amount : leb_ℤ t.quantity (pos 0) ≡ false
  -- A market order takes any price; a limit is never crossed.
  pub price :
      (o.order_type ≡ order_type_market)
      ⊎ (((o.side ≡ side_buy) × (t.price ≤ℤ o.price))
          ⊎ ((o.side ≡ side_sell) × (o.price ≤ℤ t.price)))

can_match-price :
    (o r : Order)
    → can_match o r ≡ true
    → (o.order_type ≡ order_type_market)
      ⊎ (((o.side ≡ side_buy) × (r.price ≤ℤ o.price))
          ⊎ ((o.side ≡ side_sell) × (o.price ≤ℤ r.price)))
unfolding can_match
can_match-price o r e = ground (
  arith,
  string_eq.beq_iff o.order_type order_type_market,
  string_eq.beq_iff o.side side_buy,
  string_eq.beq_iff o.side side_sell,
)

pub build_trade-IsLegal :
    (src : Source) (k : ℕ) (o r : Order) (q : ℤ)
    → (r.user_id == o.user_id) ≡ false
    → can_match o r ≡ true
    → leb_ℤ q (pos 0) ≡ false
    → IsLegal o (build_trade src k o r q)
unfolding build_trade
build_trade-IsLegal src k o r q other matches amount = record {
  taker = refl;
  event = refl;
  outcome = refl;
  two_users = ground (arith, string_eq.beq_iff r.user_id o.user_id);
  takes_part = ground (arith, string_eq.beq_iff o.side side_buy);
  amount = amount;
  price = can_match-price o r matches;
}

-- Legality reads the terms of the order only.
terms-IsLegal : (o o' : Order) (t : Trade) → terms o ≡ terms o' → IsLegal o t → IsLegal o' t
unfolding terms
terms-IsLegal o o' t e l =
    let id : o.id ≡ o'.id = ap (λ (x : Order). x.id) e in
    let ev : o.event_id ≡ o'.event_id = ap (λ (x : Order). x.event_id) e in
    let ou : o.outcome ≡ o'.outcome = ap (λ (x : Order). x.outcome) e in
    let si : o.side ≡ o'.side = ap (λ (x : Order). x.side) e in
    let us : o.user_id ≡ o'.user_id = ap (λ (x : Order). x.user_id) e in
    let ty : o.order_type ≡ o'.order_type = ap (λ (x : Order). x.order_type) e in
    let pr : o.price ≡ o'.price = ap (λ (x : Order). x.price) e in
    record {
      taker = l.taker ∙ id;
      event = l.event ∙ ev;
      outcome = l.outcome ∙ ou;
      two_users = l.two_users;
      takes_part = rw (← si, ← us) l.takes_part;
      amount = l.amount;
      price = rw (← si, ← ty, ← pr) l.price;
    }

trades-cut_front : (incoming : ℕ) (s : MatchState) → (cut_front incoming s).trades ≡ s.trades
unfolding cut_front
trades-cut_front incoming s = refl

-- Executing a tradable pair adds at most one trade, which is legal.
execute_pair-IsLegal :
    (src : Source) (incoming p i : ℕ) (ps : List ℕ) (s : MatchState) (o : Order)
    → is_tradable (s.heap incoming) (s.heap p) ≡ true
    → terms (s.heap incoming) ≡ terms o
    → All (IsLegal o) s.trades
    → All (IsLegal o) (execute_pair src incoming p ps i s).trades
unfolding execute_pair
execute_pair-IsLegal src incoming p i ps s o good same h =
    let a : Order = s.heap incoming in
    let b : Order = s.heap p in
    let q : ℤ = min64 a.remaining_quantity b.remaining_quantity in
    elim (Bool-cases (leb_ℤ q (pos 0))) [
      | inl e ↦ rw e h
      | inr e ↦ rw e (
          All-append (IsLegal o) s.trades (build_trade src (length s.trades) a b q ∷ []) h (
            terms-IsLegal a o _ same (
                build_trade-IsLegal src (length s.trades) a b q (tradable_user a b good)
                  (tradable_match a b good) e),
            tt,
          ))
    ]

-- Every trade that the loop adds is legal for the incoming order: it names that order, its event
-- and its outcome, is between two users of whom the order's is on the order's side, moves a
-- positive quantity, and never crosses the limit.
pub match_loop-IsLegal :
    (src : Source) (incoming fuel : ℕ) (s s' : MatchState)
    → All (IsLegal (s.heap incoming)) s.trades
    → match_loop src incoming fuel s ≡ finished s'
    → All (IsLegal (s.heap incoming)) s'.trades
match_loop-IsLegal src incoming fuel s s' h e =
    (match_loop_rule src incoming
      (λ t. SameTerms s.heap t.heap × All (IsLegal (s.heap incoming)) t.trades)
      (λ t t' a more f. rw f.result (
        λ r.
            execute_pair-SameTerms src incoming f.resting f.index (scanned incoming t)
              (cut_front incoming t) r
            ∙ cut_front-SameTerms s.heap incoming t a.0 r,
        execute_pair-IsLegal src incoming f.resting f.index (scanned incoming t)
            (cut_front incoming t) (s.heap incoming) (rw (heap-cut_front src incoming t) f.tradable)
            (cut_front-SameTerms s.heap incoming t a.0 incoming)
            (rw (trades-cut_front incoming t) a.1),
      ))
      (λ t a. (cut_front-SameTerms s.heap incoming t a.0, rw (trades-cut_front incoming t) a.1))
      fuel s s' (λ p. refl, h) e).1
