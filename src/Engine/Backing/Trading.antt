-- ===== src/Engine/Backing/Trading.antt =====
-- One trade of `executePair`: it is between two orders of the book's event, and the locks cover it.
use predix_go_backend.Base.{
  ℕ, ◌≤◌, ◌≡◌, ◌≢◌, refl, ◌∙◌, sym, subst, Bool, true, false, not, ◌||◌, List, [], ◌∷◌, ◌++◌, arith,
  ◌==◌, if◌then◌else◌, string_eq, nat_eq, ℤ, pos_part, Nat64, Bool-cases, inl, inr, length,
  beq_refl,
}
use predix_go_backend.Dict.{Dict}
use predix_go_backend.Engine.Types.{status_eq, Order, Trade, Heap, order_type_market}
use predix_go_backend.Engine.Book.{can_match, is_dead, is_tradable}
use predix_go_backend.Engine.Book.Scan.{tradable_ne, tradable_match}
use predix_go_backend.Engine.Matching.{Source, min64, build_trade, fill_pair, take_fill, close_fill}
use predix_go_backend.Engine.Matching.Quantities.{
  HeapIsConserved, min64_nat, fill_pair-incoming, fill_pair-resting,
}
use predix_go_backend.Engine.Matching.Presence.{fill_pair-other}
use predix_go_backend.Engine.Backing.{is_buy, is_closed, amount, charge, IsCovered, IsGenuine}
use predix_go_backend.Engine.Backing.Charging.{charge-at}
use predix_go_backend.Engine.Backing.Filling.{
  IsCovered-filled, IsCovered-kept, take_fill_lem, close_take_fill_lem,
}

-- A maker that stands against the taker: the other side of the same event.
abbrev pub Opposes : Order → Order → Type 0
Opposes taker maker = (is_buy maker ≡ not (is_buy taker)) × (maker.event_id ≡ taker.event_id)

can_match-outcome : (a b : Order) → can_match a b ≡ true → b.outcome ≡ a.outcome
unfolding can_match
can_match-outcome a b e = ground (arith, string_eq.beq_iff a.outcome b.outcome)

tradable-open : (a b : Order) → is_tradable a b ≡ true → is_closed b ≡ false
unfolding is_tradable is_dead
tradable-open a b e = ground arith

-- The price of a match is no worse than a limit.
can_match-better :
    (a b : Order)
    → can_match a b ≡ true
    → (a.order_type == order_type_market) ≡ false
    → Nat64 a.price
    → Nat64 b.price
    → is_buy a ≡ true
    → pos_part b.price ≤ pos_part a.price
unfolding can_match
can_match-better a b e limit pa pb buy = ground arith

module _ (src : Source) (orders : Dict ℕ) (h : Heap) (n : ℕ) (E : ℕ → Type 0) (ts : List Trade)
    (a b : ℕ) (k : HeapIsConserved h) (good : is_tradable (h a) (h b) ≡ true)
    (limit : ((h a).order_type == order_type_market) ≡ false) (live : is_closed (h a) ≡ false)
    (against : Opposes (h a) (h b)) (cover : (p : ℕ) → E p → IsCovered orders n ts p (h p))
    (in_a : E a) (in_b : E b) where
  abbrev moved : ℤ
  moved = min64 (h a).remaining_quantity (h b).remaining_quantity

  abbrev trade : Trade
  trade = build_trade src (length ts) (h a) (h b) moved

  two : a ≢ b
  two = tradable_ne h a b good

  apart : (b == a) ≡ false
  apart = let ne = two in ground arith

  amounts :
      Nat64 moved
      × (pos_part moved ≤ pos_part (h a).remaining_quantity)
      × (pos_part moved ≤ pos_part (h b).remaining_quantity)
  amounts = min64_nat _ _ (k a).remaining (k b).remaining

  pub trade-IsGenuine : IsGenuine orders h E trade
  unfolding build_trade
  trade-IsGenuine =
      let same : (h b).outcome ≡ (h a).outcome =
        can_match-outcome (h a) (h b) (tradable_match (h a) (h b) good) in
      record {
        taker = a;
        maker = b;
        taker_named = (cover a in_a).registered;
        maker_named = (cover b in_b).registered;
        distinct = apart;
        engaged = (in_a, in_b);
        quantity = amounts.0;
        price = (cover b in_b).price;
        sides = against.0;
        buyer = refl;
        seller = elim (Bool-cases (is_buy (h a))) [
          | inl buy ↦ rw (buy, same, against.1) refl
          | inr sell ↦ rw sell refl
        ];
      }

  charged :
      (buy : Bool) (p : ℕ)
      → charge orders buy p trade ≡ (if (a == p) || (b == p) then amount buy trade else 0)
  unfolding build_trade
  charged buy p =
      charge-at orders trade a b (cover a in_a).registered (cover b in_b).registered apart buy p

  taker_covers : IsCovered orders n (ts ++ trade ∷ []) a (fill_pair a b moved h a)
  unfolding build_trade
  taker_covers =
      let x = take_fill_lem moved (h a) (k a).remaining amounts.0 amounts.1 in
      rw (fill_pair-incoming h a b moved two) (
        IsCovered-filled orders n ts trade a (h a) (take_fill moved (h a)) x.0 x.1 x.2 amounts.1
          (can_match-better (h a) (h b) (tradable_match (h a) (h b) good) limit (cover a in_a).price
            (cover b in_b).price)
          live (charged (is_buy (h a)) a ∙ rw (beq_refl a) refl) (cover a in_a))

  maker_covers : IsCovered orders n (ts ++ trade ∷ []) b (fill_pair a b moved h b)
  unfolding build_trade
  maker_covers =
      let x = close_take_fill_lem moved (h b) (k b).remaining amounts.0 amounts.2 in
      rw (fill_pair-resting h a b moved two) (
        IsCovered-filled orders n ts trade b (h b) (close_fill (take_fill moved (h b))) x.0 x.1 x.2
          amounts.2 (λ buy. omega arith) (tradable-open (h a) (h b) good)
          (charged (is_buy (h b)) b ∙ rw (beq_refl b) (ground arith)) (cover b in_b))

  -- After the fill the locks cover the new trade, too.
  pub fill-IsCovered :
      (p : ℕ) → E p → IsCovered orders n (ts ++ trade ∷ []) p (fill_pair a b moved h p)
  fill-IsCovered p e = elim (Bool-cases (p == a)) [
    | inl hit ↦
        let same : p ≡ a = (nat_eq.beq_iff p a).0 hit in
        subst (λ (x : ℕ). IsCovered orders n (ts ++ trade ∷ []) x (fill_pair a b moved h x))
          (sym same) taker_covers
    | inr not_taker ↦ elim (Bool-cases (p == b)) [
      | inl hit ↦
          let same : p ≡ b = (nat_eq.beq_iff p b).0 hit in
          subst (λ (x : ℕ). IsCovered orders n (ts ++ trade ∷ []) x (fill_pair a b moved h x))
            (sym same) maker_covers
      | inr not_maker ↦ rw (fill_pair-other a b p moved h not_taker not_maker) (
          IsCovered-kept orders n ts trade p (h p) (h p) (charged (is_buy (h p)) p ∙ ground arith)
            (cover p e))
    ]
  ]
