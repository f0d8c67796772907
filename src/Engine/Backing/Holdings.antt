-- ===== src/Engine/Backing/Holdings.antt =====
-- How the reserved amounts read after the writes of internal/engine/ledger.go.
use predix_go_backend.Base.{
  ℕ, ◌-◌, ◌*◌, ◌^◌, ◌<◌, ◌≡◌, refl, ap, ◌∙◌, String, arith, ◌==◌, if◌then◌else◌, string_eq, ℤ,
  pos_part, Nat64, mul64, mul64_nat, Bool-cases, inl, inr,
}
use predix_go_backend.Engine.Types.{Balance, Position, Trade}
use predix_go_backend.Engine.Ledger.{
  Ledger, balance_of, modify_balance, position_of, modify_position, position_key, pay_cash,
  get_cash, get_shares, give_shares, settle_holdings,
}
use predix_go_backend.Engine.Ledger.Totals.{
  IsSound, balance_of-modify_balance, balance_of-modify_position, position_of-modify_balance,
  position_of-modify_position,
}
use predix_go_backend.Engine.Ledger.Settlement.{clamp_sub, reserved-get_shares}

abbrev pub reserved_cash : String → Ledger → ℕ
reserved_cash user l = pos_part (balance_of user l).reserved

abbrev pub reserved_shares : String → Ledger → ℕ
reserved_shares key l = pos_part (position_of key l).reserved

-- A write to one entry, as the reserved amounts of all entries see it.
module _ (l : Ledger) where
  pub reserved_cash-modify :
      (user other : String) (f : Balance → Balance)
      → reserved_cash other (modify_balance user f l) ≡ (
          if user == other
          then pos_part (f (balance_of user l)).reserved
          else reserved_cash other l)
  reserved_cash-modify user other f = elim (Bool-cases (user == other)) [
    | inl hit ↦ rw (balance_of-modify_balance l user other f, hit) refl
    | inr miss ↦ rw (balance_of-modify_balance l user other f, miss) refl
  ]

  pub reserved_shares-modify :
      (key other : String) (f : Position → Position)
      → reserved_shares other (modify_position key f l) ≡ (
          if key == other
          then pos_part (f (position_of key l)).reserved
          else reserved_shares other l)
  reserved_shares-modify key other f = elim (Bool-cases (key == other)) [
    | inl hit ↦ rw (position_of-modify_position l key other f, hit) refl
    | inr miss ↦ rw (position_of-modify_position l key other f, miss) refl
  ]

  -- Cash that arrives is available.
  reserved_cash-get_cash :
      (user other : String) (c : ℤ)
      → reserved_cash other (modify_balance user (get_cash c) l) ≡ reserved_cash other l
  unfolding get_cash
  reserved_cash-get_cash user other c =
      reserved_cash-modify user other (get_cash c) ∙ elim (Bool-cases (user == other)) [
        | inl hit ↦
            rw hit (ap (λ (u : String). reserved_cash u l) ((string_eq.beq_iff user other).0 hit))
        | inr miss ↦ rw miss refl
      ]

paid :
    (user other : String) (c : ℤ) (l : Ledger)
    → IsSound l
    → Nat64 c
    → reserved_cash other (modify_balance user (pay_cash c) l)
      ≡ reserved_cash other l - (if user == other then pos_part c else 0)
unfolding pay_cash
paid user other c l s n =
    reserved_cash-modify l user other (pay_cash c) ∙ elim (Bool-cases (user == other)) [
      | inl hit ↦ rw hit (
          (clamp_sub (balance_of user l).reserved c (s.balances user).1 n).1
          ∙ ap (λ (u : String). reserved_cash u l - pos_part c)
              ((string_eq.beq_iff user other).0 hit))
      | inr miss ↦ rw miss (omega arith)
    ]

given :
    (key other : String) (n : ℤ) (l : Ledger)
    → Nat64 (position_of key l).reserved
    → Nat64 n
    → reserved_shares other (modify_position key (give_shares n) l)
      ≡ reserved_shares other l - (if key == other then pos_part n else 0)
unfolding give_shares
given key other n l held q =
    reserved_shares-modify l key other (give_shares n) ∙ elim (Bool-cases (key == other)) [
      | inl hit ↦ rw hit (
          (clamp_sub (position_of key l).reserved n held q).1
          ∙ ap (λ (k : String). reserved_shares k l - pos_part n)
              ((string_eq.beq_iff key other).0 hit))
      | inr miss ↦ rw miss (omega arith)
    ]

-- A settled trade takes its cost off the buyer's reserved cash, and its quantity off the seller's
-- reserved shares, and off nobody else's.
pub settle_holdings-reserved :
    (t : Trade) (l : Ledger)
    → IsSound l
    → Nat64 t.quantity
    → Nat64 t.price
    → pos_part t.quantity * pos_part t.price < 2 ^ 63
    → let l' = settle_holdings t l in
      ((user : String)
        → reserved_cash user l'
          ≡ reserved_cash user l
            - (if t.buyer_id == user then pos_part t.quantity * pos_part t.price else 0))
      × ((key : String)
          → reserved_shares key l'
            ≡ reserved_shares key l
              - (if position_key t.seller_id t.event_id t.outcome == key
                  then pos_part t.quantity
                  else 0))
unfolding settle_holdings
settle_holdings-reserved t l s q p fits =
    let c : ℤ = mul64 t.quantity t.price in
    let m = mul64_nat t.quantity t.price q p fits in
    let n : Nat64 c = (m.0, omega (arith, m.1)) in
    let l₁ : Ledger = modify_balance t.buyer_id (pay_cash c) l in
    let k : String = position_key t.buyer_id t.event_id t.outcome in
    let k' : String = position_key t.seller_id t.event_id t.outcome in
    let l₂ : Ledger = modify_position k (get_shares t.quantity) l₁ in
    let l₃ : Ledger = modify_balance t.seller_id (get_cash c) l₂ in
    let same : (key : String) → (position_of key l₃).reserved ≡ (position_of key l).reserved =
      λ key.
        ap (λ (p : Position). p.reserved)
          (position_of-modify_balance l₂ key t.seller_id (get_cash c))
        ∙ reserved-get_shares k key t.quantity l₁
        ∙ ap (λ (p : Position). p.reserved)
            (position_of-modify_balance l key t.buyer_id (pay_cash c)) in
    (
      λ user.
          ap (λ (b : Balance). pos_part b.reserved)
            (balance_of-modify_position l₃ user k' (give_shares t.quantity))
          ∙ reserved_cash-get_cash l₂ t.seller_id user c
          ∙ ap (λ (b : Balance). pos_part b.reserved)
              (balance_of-modify_position l₁ user k (get_shares t.quantity))
          ∙ paid t.buyer_id user c l s n
          ∙ ap (λ (x : ℕ). reserved_cash user l - (if t.buyer_id == user then x else 0)) m.1,
      λ key.
          given k' key t.quantity l₃ (rw (same k') (s.positions k').1) q
          ∙ ap (λ (r : ℤ). pos_part r - (if k' == key then pos_part t.quantity else 0)) (same key),
    )
