-- ===== src/Engine/Matching/Presence.antt =====
-- Matching takes no live order off the book, and nothing off the side of the incoming order.
use predix_go_backend.Base.{
  ℕ, zero, suc, ◌≡◌, refl, sym, ap, ◌∙◌, subst, String, Bool, true, false, ◌||◌, some, List, [],
  ◌∷◌, arith, ◌==◌, string_eq, nat_eq, ℤ, pos, leb_ℤ, if◌then◌else◌, Bool-cases, inl, inr,
  get_elem?,
}
use predix_go_backend.Engine.Types.{Order, Heap, OrderBook, status_eq, side_buy}
use predix_go_backend.Engine.Book.{
  is_dead, is_tradable, remove_invalid, remove_order_index, opposite, set_opposite,
  opposite-set_opposite,
}
use predix_go_backend.Engine.Matching.{
  Source, MatchState, finished, cut_front, execute_pair, match_loop, min64, fill_pair,
}
use predix_go_backend.Engine.Matching.Rounds.{match_loop_rule, scanned}
use predix_go_backend.Engine.Matching.Terms.{
  terms, SameTerms, execute_pair-SameTerms, cut_front-SameTerms,
}

-- The address stands in the slice.
abbrev pub has : ℕ → List ℕ → Bool
has q [] = false
has q (p ∷ ps) = (p == q) || has q ps

-- The side of the book that the order would rest on.
abbrev pub own_side : String → OrderBook → List ℕ
own_side side book = if side == side_buy then book.bids else book.asks

has-remove_invalid :
    (h : Heap) (q : ℕ) (ps : List ℕ)
    → has q ps ≡ true
    → is_dead (h q) ≡ false
    → has q (remove_invalid h ps) ≡ true
unfolding remove_invalid is_dead
has-remove_invalid h q [] there live = there
has-remove_invalid h q (p ∷ ps) there live = elim (Bool-cases (p == q)) [
  | inl hit ↦
      let same : p ≡ q = (nat_eq.beq_iff p q).0 hit in
      let alive : is_dead (h p) ≡ false = ap (λ (x : ℕ). is_dead (h x)) same ∙ live in
      ground (arith, hit, alive)
  | inr miss ↦ ground (arith, has-remove_invalid h q ps, there, miss)
]

has-remove_order_index :
    (q r i : ℕ) (ps : List ℕ)
    → get_elem? ps i ≡ some r
    → (r == q) ≡ false
    → has q ps ≡ true
    → has q (remove_order_index ps i) ≡ true
unfolding remove_order_index
has-remove_order_index q r i [] at other there = there
has-remove_order_index q r zero (p ∷ ps) at other there = ground arith
has-remove_order_index q r (suc i) (p ∷ ps) at other there =
    ground (arith, has-remove_order_index q r i ps at other)

fill_pair-dead :
    (incoming resting : ℕ) (n : ℤ) (h : Heap)
    → leb_ℤ (fill_pair incoming resting n h resting).remaining_quantity (pos 0) ≡ true
    → is_dead (fill_pair incoming resting n h resting) ≡ true
unfolding fill_pair is_dead
fill_pair-dead incoming resting n h gone = ground arith

pub fill_pair-other :
    (incoming resting q : ℕ) (n : ℤ) (h : Heap)
    → (q == incoming) ≡ false
    → (q == resting) ≡ false
    → fill_pair incoming resting n h q ≡ h q
unfolding fill_pair
fill_pair-other incoming resting q n h a b = rw (a, b) refl

tradable-live : (o r : Order) → is_tradable o r ≡ true → is_dead r ≡ false
unfolding is_tradable
tradable-live o r e = ground arith

-- Every order of a slice that is still live, other than the incoming one, stands in the other, and
-- the incoming order's own side has not changed.
abbrev pub Keeps : ℕ → String → OrderBook → MatchState → Type 0
Keeps incoming side book s =
    ((q : ℕ)
      → (q == incoming) ≡ false
      → has q (opposite side book) ≡ true
      → is_dead (s.heap q) ≡ false
      → has q (opposite side s.book) ≡ true)
    × (own_side side s.book ≡ own_side side book)

own_side-set_opposite :
    (side : String) (ps : List ℕ) (book : OrderBook)
    → own_side side (set_opposite side ps book) ≡ own_side side book
unfolding set_opposite
own_side-set_opposite side ps book = elim (Bool-cases (side == side_buy)) [
  | inl buy ↦ rw buy refl
  | inr sell ↦ rw sell refl
]

cut_front-Keeps :
    (incoming : ℕ) (book : OrderBook) (s : MatchState)
    → Keeps incoming (s.heap incoming).side book s
    → Keeps incoming (s.heap incoming).side book (cut_front incoming s)
unfolding cut_front
cut_front-Keeps incoming book s (kept, own) =
    let side : String = (s.heap incoming).side in
    let ps : List ℕ = remove_invalid s.heap (opposite side s.book) in
    (
      λ q other there live.
          rw (opposite-set_opposite side ps s.book)
            (has-remove_invalid s.heap q (opposite side s.book) (kept q other there live) live),
      own_side-set_opposite side ps s.book ∙ own,
    )

execute_pair-Keeps :
    (src : Source) (incoming p i : ℕ) (book : OrderBook) (s : MatchState)
    → let side : String = (s.heap incoming).side in
      get_elem? (opposite side s.book) i ≡ some p
      → is_tradable (s.heap incoming) (s.heap p) ≡ true
      → Keeps incoming side book s
      → Keeps incoming side book (execute_pair src incoming p (opposite side s.book) i s)
unfolding execute_pair
execute_pair-Keeps src incoming p i book s at good (kept, own) =
    let side : String = (s.heap incoming).side in
    let ps : List ℕ = opposite side s.book in
    let n : ℤ = min64 (s.heap incoming).remaining_quantity (s.heap p).remaining_quantity in
    let h' : Heap = fill_pair incoming p n s.heap in
    let before : (q : ℕ)
        → (q == incoming) ≡ false
        → is_dead (h' q) ≡ false
        → is_dead (s.heap q) ≡ false =
      λ q other live. elim (Bool-cases (q == p)) [
        | inl hit ↦
            ap (λ (x : ℕ). is_dead (s.heap x)) ((nat_eq.beq_iff q p).0 hit)
            ∙ tradable-live (s.heap incoming) (s.heap p) good
        | inr miss ↦ ap is_dead (sym (fill_pair-other incoming p q n s.heap other miss)) ∙ live
      ] in
    elim (Bool-cases (leb_ℤ n (pos 0))) [
      | inl nothing ↦ rw nothing (kept, own)
      | inr something ↦ elim (Bool-cases (leb_ℤ (h' p).remaining_quantity (pos 0))) [
        | inr left ↦
            rw (something, left)
              (λ q other there live. kept q other there (before q other live), own)
        | inl gone ↦
            rw (something, gone)
              (
                λ q other there live.
                    rw (opposite-set_opposite side (remove_order_index ps i) s.book)
                      (elim (Bool-cases (p == q)) [
                        | inr miss ↦
                            has-remove_order_index q p i ps at miss
                              (kept q other there (before q other live))
                        | inl hit ↦
                            let same : p ≡ q = (nat_eq.beq_iff p q).0 hit in
                            let dead =
                              ap (λ (x : ℕ). is_dead (h' x)) (sym same)
                              ∙ fill_pair-dead incoming p n s.heap gone in
                            absurd (ground (arith, dead, live))
                      ]),
                own_side-set_opposite side (remove_order_index ps i) s.book ∙ own,
              )
      ]
    ]

side-terms : (a b : Order) → terms a ≡ terms b → a.side ≡ b.side
unfolding terms
side-terms a b e = ap (λ (o : Order). o.side) e

-- The loop takes no live order off the side that it matches against, the incoming order aside, and
-- does not touch the incoming order's own side.
pub match_loop-Keeps :
    (src : Source) (incoming fuel : ℕ) (s s' : MatchState)
    → match_loop src incoming fuel s ≡ finished s'
    → Keeps incoming (s.heap incoming).side s.book s'
unfolding cut_front
match_loop-Keeps src incoming fuel s s' e =
    let side : String = (s.heap incoming).side in
    let move : (t : MatchState) (h : Heap) → SameTerms s.heap h → (h incoming).side ≡ side =
      λ t h same. side-terms (h incoming) (s.heap incoming) (same incoming) in
    (match_loop_rule src incoming (λ t. SameTerms s.heap t.heap × Keeps incoming side s.book t)
      (λ t t' (same, kept) more f.
        let sides = move t t.heap same in
        let cut =
          cut_front-Keeps incoming s.book t
            (subst (λ (x : String). Keeps incoming x s.book t) (sym sides) kept) in
        let done =
          execute_pair-Keeps src incoming f.resting f.index s.book (cut_front incoming t) f.found
            f.tradable cut in
        rw f.result (
          λ r.
              execute_pair-SameTerms src incoming f.resting f.index (scanned incoming t)
                (cut_front incoming t) r
              ∙ cut_front-SameTerms s.heap incoming t same r,
          subst
              (λ (x : String). Keeps incoming x s.book (
                execute_pair src incoming f.resting (scanned incoming t) f.index
                  (cut_front incoming t)))
              sides done,
        ))
      (λ t (same, kept).
        let sides = move t t.heap same in
        (
          cut_front-SameTerms s.heap incoming t same,
          subst (λ (x : String). Keeps incoming x s.book (cut_front incoming t)) sides
              (cut_front-Keeps incoming s.book t
                (subst (λ (x : String). Keeps incoming x s.book t) (sym sides) kept)),
        ))
      fuel s s' (λ p. refl, (λ q other there live. there, refl)) e).1
