-- ===== src/Engine/Backing/Funded.antt =====
-- The engine's state with everything that is locked backed, and every order on a book covered.
use predix_go_backend.Base.{
  ℕ, ◌≡◌, ap, ◌∙◌, sym, subst, String, Bool, true, false, some, [], ◌∷◌, arith, ◌==◌, string_eq,
  nat_eq, pos_part, Bool-cases, inl, inr, All,
}
use predix_go_backend.Sort.{All-map}
use predix_go_backend.Dict.{Dict, lookup, insert}
use predix_go_backend.Engine.Types.{Order, OrderBook, Market, Heap}
use predix_go_backend.Engine.Ledger.{Ledger, order_key}
use predix_go_backend.Engine.Matching.Terms.{terms, SameTerms}
use predix_go_backend.Engine.Core.{Core}
use predix_go_backend.Engine.Backing.{is_buy, cash_lock, share_lock, IsCovered, IsBacked}
use predix_go_backend.Engine.Backing.Tallies.{tally-same}

-- The order at the address is covered, with no trade unsettled.
abbrev pub Covered : Core → ℕ → Type 0
Covered c p = IsCovered c.orders c.next_address [] p (c.heap p)

-- What stands on one side of a book of the event.
abbrev pub Stands : (ℕ → Type 0) → Heap → String → Bool → ℕ → Type 0
Stands E h event buy p = E p × (is_buy (h p) ≡ buy) × ((h p).event_id ≡ event)

abbrev pub BookStands : (ℕ → Type 0) → Heap → String → OrderBook → Type 0
BookStands E h event book =
    All (Stands E h event true) book.bids × All (Stands E h event false) book.asks

abbrev pub MarketStands : (ℕ → Type 0) → Heap → (String × Market) → Type 0
MarketStands E h e = BookStands E h e.0 e.1.yes_book × BookStands E h e.0 e.1.no_book

-- Every reserved amount is the sum of the locks behind it, the orders of a book are of its event and
-- side, and these and the orders of the order map have locked what they may still have to give.
pub record IsFunded (c : Core) : Type 0 where
  pub backed : IsBacked c.heap c.next_address c.ledger
  pub markets : All (MarketStands (Covered c) c.heap) c.markets
  pub known : All (λ (e : String × ℕ). Covered c e.1) c.orders

module _ {ℓ κ} {V : Type ℓ} (P : String × V → Type κ) where
  pub All-found : (k : String) (v : V) (d : Dict V) → All P d → lookup k d ≡ some v → P (k, v)
  unfolding lookup
  All-found k v [] a e = ground arith
  All-found k v ((j, w) ∷ d) a e = elim (Bool-cases (j == k)) [
    | inl hit ↦
        let key : j ≡ k = (string_eq.beq_iff j k).0 hit in
        let same : w ≡ v = ground arith in
        subst (λ (x : String × V). P x) (λ i. (key i, same i)) a.0
    | inr miss ↦ All-found k v d a.1 (rw miss at e)
  ]

  pub All-put : (k : String) (v : V) (d : Dict V) → P (k, v) → All P d → All P (insert k v d)
  unfolding insert
  All-put k v [] p a = (p, tt)
  All-put k v ((j, w) ∷ d) p a = elim (Bool-cases (j == k)) [
    | inl hit ↦
        let key : j ≡ k = (string_eq.beq_iff j k).0 hit in
        rw hit (subst (λ (x : String). P (x, v)) (sym key) p, a.1)
    | inr miss ↦ rw miss (a.0, All-put k v d p a.1)
  ]

stand-terms : (a b : Order) → terms a ≡ terms b → (is_buy a ≡ is_buy b) × (a.event_id ≡ b.event_id)
unfolding terms
stand-terms a b e = (ap (λ (o : Order). is_buy o) e, ap (λ (o : Order). o.event_id) e)

-- What stands on a book stands there still, if it is covered still and its terms are the same.
module _ (E E' : ℕ → Type 0) (h h' : Heap) (same : (p : ℕ) → E p → terms (h' p) ≡ terms (h p))
    (keeps : (p : ℕ) → E p → E' p) where
  Stands-carried :
      (event : String) (buy : Bool) (p : ℕ) → Stands E h event buy p → Stands E' h' event buy p
  Stands-carried event buy p s =
      let x = stand-terms (h' p) (h p) (same p s.0) in (keeps p s.0, x.0 ∙ s.1, x.1 ∙ s.2)

  BookStands-carried :
      (event : String) (book : OrderBook) → BookStands E h event book → BookStands E' h' event book
  BookStands-carried event book b = (
    All-map (Stands E h event true) (Stands E' h' event true) book.bids (Stands-carried event true)
        b.0,
    All-map (Stands E h event false) (Stands E' h' event false) book.asks
        (Stands-carried event false) b.1,
  )

  pub markets-carried : (d : Dict Market) → All (MarketStands E h) d → All (MarketStands E' h') d
  markets-carried d a =
      All-map (MarketStands E h) (MarketStands E' h') d
        (λ e m. (BookStands-carried e.0 e.1.yes_book m.0, BookStands-carried e.0 e.1.no_book m.1)) a

-- The same, where no order's terms have changed.
module _ (E E' : ℕ → Type 0) (h h' : Heap) (same : SameTerms h h')
    (keeps : (p : ℕ) → E p → E' p) where
  pub BookStands-moved :
      (event : String) (book : OrderBook) → BookStands E h event book → BookStands E' h' event book
  BookStands-moved = BookStands-carried E E' h h' (λ p e. same p) keeps

  pub markets-moved : (d : Dict Market) → All (MarketStands E h) d → All (MarketStands E' h') d
  markets-moved = markets-carried E E' h h' (λ p e. same p) keeps

-- The locks read these fields only.
lock-terms :
    (a b : Order)
    → terms a ≡ terms b
    → a.locked_funds ≡ b.locked_funds
    → ((user : String) → cash_lock user a ≡ cash_lock user b)
      × ((key : String) → share_lock key a ≡ share_lock key b)
unfolding terms cash_lock share_lock
lock-terms a b e l =
    let side = ap (λ (o : Order). is_buy o) e in
    let user = ap (λ (o : Order). o.user_id) e in
    let key = ap (λ (o : Order). order_key o) e in let lock = ap pos_part l in (λ u. cc, λ k. cc)

-- A heap that agrees in terms and locks backs the same ledger.
pub IsBacked-same :
    (h h' : Heap) (n : ℕ) (l : Ledger)
    → SameTerms h h'
    → ((p : ℕ) → (h' p).locked_funds ≡ (h p).locked_funds)
    → IsBacked h n l
    → IsBacked h' n l
IsBacked-same h h' n l same locks b = record {
  sound = b.sound;
  balances = λ user.
      tally-same (λ p. cash_lock user (h p)) (λ p. cash_lock user (h' p)) n
        (λ p. (lock-terms (h' p) (h p) (same p) (locks p)).0 user)
      ∙ b.balances user;
  positions = λ key.
      tally-same (λ p. share_lock key (h p)) (λ p. share_lock key (h' p)) n
        (λ p. (lock-terms (h' p) (h p) (same p) (locks p)).1 key)
      ∙ b.positions key;
}
