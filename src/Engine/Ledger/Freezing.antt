-- ===== src/Engine/Ledger/Freezing.antt =====
-- Freezing an amount of one holding and thawing it again.
use predix_go_backend.Base.{
  ◌^◌, ◌≤◌, ◌<◌, ◌≡◌, ap, ◌∙◌, String, arith, ◌==◌, string_eq, ℤ, pos, negsuc, pos_part, neg_part,
  Nat64, sub64, add64, sub64_nat, add64_nat, Bool-cases, inl, inr, beq_refl,
}
use predix_go_backend.Engine.Types.{Balance, Position}
use predix_go_backend.Engine.Ledger.{
  Ledger, balance_of, modify_balance, position_of, modify_position, freeze_cash, freeze_shares,
  thaw_cash, thaw_shares, clamp,
}
use predix_go_backend.Engine.Ledger.Totals.{
  held_cash, held_shares, BalanceIsSound, PositionIsSound, balance_of-modify_balance,
  balance_of-modify_position, position_of-modify_balance, position_of-modify_position,
}
use predix_go_backend.Engine.Ledger.Settlement.{clamp_sub}

pub nat_ext : (a b : ℤ) → neg_part a ≡ 0 → neg_part b ≡ 0 → pos_part a ≡ pos_part b → a ≡ b
nat_ext (pos a) (pos b) p q e = ap pos e
nat_ext (negsuc a) b p q e = absurd (omega arith)
nat_ext (pos a) (negsuc b) p q e = absurd (omega arith)

-- Every user's cash and every position read as before.
abbrev pub Unchanged : Ledger → Ledger → Type 0
Unchanged l l' =
    ((user : String) → balance_of user l' ≡ balance_of user l)
    × ((key : String) → position_of key l' ≡ position_of key l)

module _ (c : ℤ) (n : Nat64 c) where
  pub freeze_cash_lem :
      (b : Balance)
      → BalanceIsSound b
      → held_cash b < 2 ^ 63
      → pos_part c ≤ pos_part b.available
      → BalanceIsSound (freeze_cash c b)
        × (held_cash (freeze_cash c b) ≡ held_cash b)
        × (thaw_cash c (freeze_cash c b) ≡ b)
  unfolding freeze_cash thaw_cash
  freeze_cash_lem b s fits le =
      let a = sub64_nat b.available c s.0 n le in
      let r = add64_nat b.reserved c s.1 n (omega arith) in
      let a' = add64_nat (sub64 b.available c) c (a.0, omega arith) n (omega arith) in
      let r' = clamp_sub (add64 b.reserved c) c (r.0, omega arith) n in
      let ea = nat_ext (add64 (sub64 b.available c) c) b.available a'.0 s.0.0 (omega arith) in
      let er = nat_ext (clamp (sub64 (add64 b.reserved c) c)) b.reserved r'.0 s.1.0 (omega arith) in
      (
        ((a.0, omega arith), (r.0, omega arith)),
        omega arith,
        λ i. record { available = ea i; reserved = er i },
      )

  pub freeze_shares_lem :
      (p : Position)
      → PositionIsSound p
      → held_shares p < 2 ^ 63
      → pos_part c ≤ pos_part p.available
      → PositionIsSound (freeze_shares c p)
        × (held_shares (freeze_shares c p) ≡ held_shares p)
        × (thaw_shares c (freeze_shares c p) ≡ p)
  unfolding freeze_shares thaw_shares
  freeze_shares_lem p s fits le =
      let a = sub64_nat p.available c s.0 n le in
      let r = add64_nat p.reserved c s.1 n (omega arith) in
      let a' = add64_nat (sub64 p.available c) c (a.0, omega arith) n (omega arith) in
      let r' = clamp_sub (add64 p.reserved c) c (r.0, omega arith) n in
      let ea = nat_ext (add64 (sub64 p.available c) c) p.available a'.0 s.0.0 (omega arith) in
      let er = nat_ext (clamp (sub64 (add64 p.reserved c) c)) p.reserved r'.0 s.1.0 (omega arith) in
      (
        ((a.0, omega arith), (r.0, omega arith)),
        omega arith,
        λ i. record { available = ea i; reserved = er i },
      )

-- Writes that take one another back change nothing.
pub modify_balance_back :
    (user : String) (f g : Balance → Balance) (l : Ledger)
    → g (f (balance_of user l)) ≡ balance_of user l
    → Unchanged l (modify_balance user g (modify_balance user f l))
modify_balance_back user f g l e = (
  λ other. elim (Bool-cases (user == other)) [
    | inl hit ↦
        rw (balance_of-modify_balance (modify_balance user f l) user other g, hit)
          (ap g (rw (balance_of-modify_balance l user user f, beq_refl user))
            ∙ e
            ∙ ap (λ (u : String). balance_of u l) ((string_eq.beq_iff user other).0 hit))
    | inr miss ↦
        rw (balance_of-modify_balance (modify_balance user f l) user other g, miss)
          (rw (balance_of-modify_balance l user other f, miss))
  ],
  λ key.
      position_of-modify_balance (modify_balance user f l) key user g
      ∙ position_of-modify_balance l key user f,
)

pub modify_position_back :
    (key : String) (f g : Position → Position) (l : Ledger)
    → g (f (position_of key l)) ≡ position_of key l
    → Unchanged l (modify_position key g (modify_position key f l))
modify_position_back key f g l e = (
  λ user.
      balance_of-modify_position (modify_position key f l) user key g
      ∙ balance_of-modify_position l user key f,
  λ other. elim (Bool-cases (key == other)) [
    | inl hit ↦
        rw (position_of-modify_position (modify_position key f l) key other g, hit)
          (ap g (rw (position_of-modify_position l key key f, beq_refl key))
            ∙ e
            ∙ ap (λ (k : String). position_of k l) ((string_eq.beq_iff key other).0 hit))
    | inr miss ↦
        rw (position_of-modify_position (modify_position key f l) key other g, miss)
          (rw (position_of-modify_position l key other f, miss))
  ],
)

-- A write of what an entry reads as already.
pub modify_balance_same :
    (user : String) (f : Balance → Balance) (l : Ledger)
    → f (balance_of user l) ≡ balance_of user l
    → Unchanged l (modify_balance user f l)
modify_balance_same user f l e = (
  λ other. elim (Bool-cases (user == other)) [
    | inl hit ↦
        rw (balance_of-modify_balance l user other f, hit)
          (e ∙ ap (λ (u : String). balance_of u l) ((string_eq.beq_iff user other).0 hit))
    | inr miss ↦ rw (balance_of-modify_balance l user other f, miss)
  ],
  λ key. position_of-modify_balance l key user f,
)

pub modify_position_same :
    (key : String) (f : Position → Position) (l : Ledger)
    → f (position_of key l) ≡ position_of key l
    → Unchanged l (modify_position key f l)
modify_position_same key f l e = (
  λ user. balance_of-modify_position l user key f,
  λ other. elim (Bool-cases (key == other)) [
    | inl hit ↦
        rw (position_of-modify_position l key other f, hit)
          (e ∙ ap (λ (k : String). position_of k l) ((string_eq.beq_iff key other).0 hit))
    | inr miss ↦ rw (position_of-modify_position l key other f, miss)
  ],
)
