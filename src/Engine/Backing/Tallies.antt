-- ===== src/Engine/Backing/Tallies.antt =====
-- Sums over addresses, and how a write to one address changes them.
use predix_go_backend.Base.{
  ℕ, zero, suc, ◌+◌, ◌≤◌, ◌<◌, ◌≡◌, refl, true, false, arith, ◌==◌, if◌then◌else◌, nat_eq,
  Bool-cases, inl, inr, ap, ◌≢◌, String, string_eq, pos_part,
}
use predix_go_backend.Engine.Types.{Order, Heap, store}
use predix_go_backend.Engine.Ledger.{order_key}
use predix_go_backend.Engine.Backing.{tally, is_buy, cash_lock, share_lock}

module _ (g : Order → ℕ) (p : ℕ) (o : Order) (h : Heap) where
  pub tally-store_above :
      (n : ℕ) → n ≤ p → tally (λ q. g (store p o h q)) n ≡ tally (λ q. g (h q)) n
  unfolding tally
  tally-store_above zero le = refl
  tally-store_above (suc n) le =
      let other : (n == p) ≡ false = ground arith in
      rw other (ap (λ (x : ℕ). g (h n) + x) (tally-store_above n (omega arith)))

  -- A write below the bound changes the sum by what it changes at its address.
  pub tally-store :
      (n : ℕ) → p < n → tally (λ q. g (store p o h q)) n + g (h p) ≡ tally (λ q. g (h q)) n + g o
  unfolding tally
  tally-store zero lt = absurd (omega arith)
  tally-store (suc n) lt = elim (Bool-cases (n == p)) [
    | inl hit ↦
        let same : n ≡ p = (nat_eq.beq_iff n p).0 hit in
        let below = tally-store_above n (omega arith) in
        let here : g (h n) ≡ g (h p) = ap (λ (x : ℕ). g (h x)) same in
        rw hit (omega (arith, below, here))
    | inr miss ↦
        let ne : n ≢ p = ground arith in
        let below = tally-store n (omega arith) in rw miss (omega (arith, below))
  ]

pub le-tally : (f : ℕ → ℕ) (n p : ℕ) → p < n → f p ≤ tally f n
unfolding tally
le-tally f zero p lt = absurd (omega arith)
le-tally f (suc n) p lt = elim (Bool-cases (n == p)) [
  | inl hit ↦ let same : f n ≡ f p = ap f ((nat_eq.beq_iff n p).0 hit) in omega (arith, same)
  | inr miss ↦ let ne : n ≢ p = ground arith in omega (arith, le-tally f n p (omega arith))
]

pub tally-same : (f f' : ℕ → ℕ) (n : ℕ) → ((p : ℕ) → f' p ≡ f p) → tally f' n ≡ tally f n
unfolding tally
tally-same f f' zero e = refl
tally-same f f' (suc n) e = omega (arith, e n, tally-same f f' n e)

-- What an order of either side has locked.
module _ (o : Order) where
  pub cash_lock-buy :
      (user : String)
      → is_buy o ≡ true
      → cash_lock user o ≡ (if o.user_id == user then pos_part o.locked_funds else 0)
  unfolding cash_lock
  cash_lock-buy user buy = rw buy refl

  pub cash_lock-sell : (user : String) → is_buy o ≡ false → cash_lock user o ≡ 0
  unfolding cash_lock
  cash_lock-sell user sell = rw sell refl

  pub share_lock-buy : (key : String) → is_buy o ≡ true → share_lock key o ≡ 0
  unfolding share_lock
  share_lock-buy key buy = rw buy refl

  pub share_lock-sell :
      (key : String)
      → is_buy o ≡ false
      → share_lock key o ≡ (if order_key o == key then pos_part o.locked_funds else 0)
  unfolding share_lock
  share_lock-sell key sell = rw sell refl
