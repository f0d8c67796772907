-- ===== src/Engine/Backing/Loop.antt =====
-- The loop of `matchAgainstBook`: its trades are between orders of the book, whose locks cover them.
use predix_go_backend.Base.{
  ℕ, ◌≡◌, ◌≢◌, ◌||◌, refl, ap, ◌∙◌, sym, subst, String, true, Bool, false, not, some, List, arith,
  ◌==◌, string_eq, nat_eq, ℤ, pos, leb_ℤ, Bool-cases, inl, inr, All, All-append, get_elem?,
}
use predix_go_backend.Dict.{Dict}
use predix_go_backend.Engine.Types.{Status, status_eq, Order, Heap, order_type_market}
use predix_go_backend.Engine.Book.{
  opposite, opposite-set_opposite, remove_invalid, remove_order_index, is_tradable,
}
use predix_go_backend.Engine.Book.Scan.{get_elem?-All, tradable_ne}
use predix_go_backend.Engine.Matching.{
  Source, MatchState, finished, cut_front, execute_pair, match_loop, min64, fill_pair, take_fill,
  close_fill,
}
use predix_go_backend.Engine.Matching.Rounds.{IsFill, match_loop_rule, scanned, heap-cut_front}
use predix_go_backend.Engine.Matching.Addresses.{All-remove_order_index, All-remove_invalid}
use predix_go_backend.Engine.Matching.Quantities.{
  HeapIsConserved, IsFill-IsConserved, fill_pair-incoming,
}
use predix_go_backend.Engine.Matching.Terms.{terms, SameTerms, execute_pair-SameTerms}
use predix_go_backend.Engine.Backing.{is_buy, is_closed, IsCovered, IsGenuine}
use predix_go_backend.Engine.Backing.Charging.{IsGenuine-terms}
use predix_go_backend.Engine.Backing.Trading.{Opposes, trade-IsGenuine, fill-IsCovered}

Opposes-terms :
    (a a' b b' : Order) → terms a' ≡ terms a → terms b' ≡ terms b → Opposes a b → Opposes a' b'
unfolding terms
Opposes-terms a a' b b' ea eb o = (
  ap (λ (x : Order). is_buy x) eb ∙ o.0 ∙ ap (λ (x : Order). not (is_buy x)) (sym ea),
  ap (λ (x : Order). x.event_id) eb ∙ o.1 ∙ ap (λ (x : Order). x.event_id) (sym ea),
)

side-type-terms :
    (a b : Order) → terms a ≡ terms b → (a.side ≡ b.side) × (a.order_type ≡ b.order_type)
unfolding terms
side-type-terms a b e = (ap (λ (o : Order). o.side) e, ap (λ (o : Order). o.order_type) e)

fill_pair-locks :
    (incoming resting : ℕ) (n : ℤ) (h : Heap) (p : ℕ)
    → (fill_pair incoming resting n h p).locked_funds ≡ (h p).locked_funds
unfolding fill_pair take_fill close_fill
fill_pair-locks incoming resting n h p =
    ground (arith, nat_eq.beq_iff p resting, nat_eq.beq_iff p incoming)

-- The incoming order's status is written only after the loop.
execute_pair-live :
    (src : Source) (incoming b i : ℕ) (ps : List ℕ) (s : MatchState)
    → incoming ≢ b
    → ((execute_pair src incoming b ps i s).heap incoming).status ≡ (s.heap incoming).status
unfolding execute_pair take_fill
execute_pair-live src incoming b i ps s ne =
    let n' : ℤ = min64 (s.heap incoming).remaining_quantity (s.heap b).remaining_quantity in
    elim (Bool-cases (leb_ℤ n' (pos 0))) [
      | inl nothing ↦ rw nothing refl
      | inr something ↦
          rw something (ap (λ (o : Order). o.status) (fill_pair-incoming s.heap incoming b n' ne))
    ]

execute_pair-locks :
    (src : Source) (incoming b i : ℕ) (ps : List ℕ) (s : MatchState) (p : ℕ)
    → ((execute_pair src incoming b ps i s).heap p).locked_funds ≡ (s.heap p).locked_funds
unfolding execute_pair
execute_pair-locks src incoming b i ps s p =
    let n' : ℤ = min64 (s.heap incoming).remaining_quantity (s.heap b).remaining_quantity in
    elim (Bool-cases (leb_ℤ n' (pos 0))) [
      | inl nothing ↦ rw nothing refl
      | inr something ↦ rw something (fill_pair-locks incoming b n' s.heap p)
    ]

abbrev closes : Status → Bool
closes st = (st == Status.filled) || ((st == Status.canceled) || (st == Status.rejected))

module _ (src : Source) (orders : Dict ℕ) (n : ℕ) (h : Heap) (E : ℕ → Type 0) (incoming : ℕ)
    (in_play : E incoming) (limit : ((h incoming).order_type == order_type_market) ≡ false) where
  -- An order that may be a maker.
  abbrev pub Rests : ℕ → Type 0
  Rests q = E q × Opposes (h incoming) (h q)

  pub record IsTrading (s : MatchState) : Type 0 where
    pub same : SameTerms h s.heap
    pub locks : (p : ℕ) → (s.heap p).locked_funds ≡ (h p).locked_funds
    pub live : is_closed (s.heap incoming) ≡ false
    pub conserved : HeapIsConserved s.heap
    pub against : All Rests (opposite (h incoming).side s.book)
    pub covered : (p : ℕ) → E p → IsCovered orders n s.trades p (s.heap p)
    pub genuine : All (IsGenuine orders h E) s.trades

  same_side : (s : MatchState) → IsTrading s → (s.heap incoming).side ≡ (h incoming).side
  same_side s t = (side-type-terms (s.heap incoming) (h incoming) (t.same incoming)).0

  cut_front-IsTrading : (s : MatchState) → IsTrading s → IsTrading (cut_front incoming s)
  unfolding cut_front
  cut_front-IsTrading s t =
      let side : String = (h incoming).side in
      let ps : List ℕ = remove_invalid s.heap (opposite side s.book) in
      record {
        same = t.same;
        locks = t.locks;
        live = t.live;
        conserved = t.conserved;
        against =
            rw (same_side s t, opposite-set_opposite side ps s.book)
              (All-remove_invalid Rests s.heap (opposite side s.book) t.against);
        covered = t.covered;
        genuine = t.genuine;
      }

  -- The slice after a fill.
  execute_pair-against :
      (s : MatchState) (b i : ℕ)
      → IsTrading s
      → All Rests (
          opposite
            (h incoming).side
            (execute_pair src incoming b (opposite (s.heap incoming).side s.book) i s).book)
  unfolding execute_pair
  execute_pair-against s b i t =
      let side : String = (h incoming).side in
      let n' : ℤ = min64 (s.heap incoming).remaining_quantity (s.heap b).remaining_quantity in
      let h' : Heap = fill_pair incoming b n' s.heap in
      rw (same_side s t) (elim (Bool-cases (leb_ℤ n' (pos 0))) [
        | inl nothing ↦ rw nothing t.against
        | inr something ↦ elim (Bool-cases (leb_ℤ (h' b).remaining_quantity (pos 0))) [
          | inr left ↦ rw (something, left) t.against
          | inl gone ↦
              rw
                (
                  something,
                  gone,
                  opposite-set_opposite side (remove_order_index (opposite side s.book) i) s.book,
                )
                (All-remove_order_index Rests (opposite side s.book) i t.against)
        ]
      ])

  execute_pair-traded :
      (s : MatchState) (b i : ℕ) (ps : List ℕ)
      → IsTrading s
      → Rests b
      → is_tradable (s.heap incoming) (s.heap b) ≡ true
      → let s' = execute_pair src incoming b ps i s in
        ((p : ℕ) → E p → IsCovered orders n s'.trades p (s'.heap p))
        × All (IsGenuine orders h E) s'.trades
  unfolding execute_pair
  execute_pair-traded s b i ps t rests good =
      let n' : ℤ = min64 (s.heap incoming).remaining_quantity (s.heap b).remaining_quantity in
      let limit' : ((s.heap incoming).order_type == order_type_market) ≡ false =
        rw (side-type-terms (s.heap incoming) (h incoming) (t.same incoming)).1 limit in
      let against =
        Opposes-terms (h incoming) (s.heap incoming) (h b) (s.heap b) (t.same incoming) (t.same b)
          rests.1 in
      elim (Bool-cases (leb_ℤ n' (pos 0))) [
        | inl nothing ↦ rw nothing (t.covered, t.genuine)
        | inr something ↦ rw something (
          fill-IsCovered src orders s.heap n E s.trades incoming b t.conserved good limit' t.live
              against t.covered in_play rests.0,
          All-append (IsGenuine orders h E) s.trades _ t.genuine (
            IsGenuine-terms orders s.heap h E _ (λ p. sym (t.same p))
                (trade-IsGenuine src orders s.heap n E s.trades incoming b t.conserved good limit'
                  t.live against t.covered in_play rests.0),
            tt,
          ),
        )
      ]

  fill-IsTrading : (s s' : MatchState) → IsTrading s → IsFill src incoming s s' → IsTrading s'
  fill-IsTrading s s' t f =
      let cut = cut_front incoming s in
      let tc = cut_front-IsTrading s t in
      let same_heap = heap-cut_front src incoming s in
      let at : get_elem? (opposite (h incoming).side cut.book) f.index ≡ some f.resting =
        rw (sym (same_side s t)) f.found in
      let rests =
        get_elem?-All Rests (opposite (h incoming).side cut.book) f.index f.resting tc.against at in
      let traded =
        execute_pair-traded cut f.resting f.index (scanned incoming s) tc rests
          (rw same_heap f.tradable) in
      record {
        same = rw f.result (λ r.
            execute_pair-SameTerms src incoming f.resting f.index (scanned incoming s) cut r
            ∙ tc.same r);
        locks = rw f.result (λ r.
            execute_pair-locks src incoming f.resting f.index (scanned incoming s) cut r
            ∙ tc.locks r);
        live = rw f.result (
            ap closes (
              execute_pair-live src incoming f.resting f.index (scanned incoming s) cut
                (tradable_ne s.heap incoming f.resting f.tradable))
            ∙ tc.live);
        conserved = IsFill-IsConserved src incoming s s' t.conserved f;
        against = rw f.result (
            subst
              (λ (x : Heap). All Rests (
                opposite (h incoming).side
                  (execute_pair src incoming f.resting (opposite (x incoming).side cut.book) f.index
                    cut).book))
              same_heap (execute_pair-against cut f.resting f.index tc));
        covered = rw f.result traded.0;
        genuine = rw f.result traded.1;
      }

  pub match_loop-IsTrading :
      (fuel : ℕ) (s s' : MatchState)
      → IsTrading s
      → match_loop src incoming fuel s ≡ finished s'
      → IsTrading s'
  match_loop-IsTrading fuel s s' t e =
      match_loop_rule src incoming IsTrading (λ u u' a more f. fill-IsTrading u u' a f)
        cut_front-IsTrading fuel s s' t e
