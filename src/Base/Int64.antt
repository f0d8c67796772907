-- ===== src/Base/Int64.antt =====
-- Go's int64. `ℤ` is the integers over the native numbers; `add64`, `sub64` and `mul64` wrap
-- modulo 2 ^ 64 as Go's operators do. `Nat64 x` says that x is a non-negative int64, the only
-- values that a valid engine state holds, and the laws below read the operations at such values.
use Prim.Native.Nat.{ℕ, suc, ◌+◌, ◌-◌, ◌*◌, ◌%◌, ◌^◌, ◌≤◌, ◌<◌}
use mathlib.Core.Path.{◌≡◌}
use mathlib.Core.Bool.{Bool, true, false}
use native.Mathlib.Omega.{arith}
use predix_go_backend.Base.Tests.{ltb, leb, if◌then◌else◌, nat_beq, Comparable}
use mathlib.Core.Logic.{◌↔◌}

-- `negsuc n` is -(n + 1).
pub data ℤ : Type 0 where
  pos : ℕ → ℤ
  negsuc : ℕ → ℤ

abbrev pub pos_part : ℤ → ℕ
pos_part (pos n) = n
pos_part (negsuc n) = 0

abbrev pub neg_part : ℤ → ℕ
neg_part (pos n) = 0
neg_part (negsuc n) = suc n

-- a - b, as an integer.
abbrev pub sub_ℕ : ℕ → ℕ → ℤ
sub_ℕ a b = if leb b a then pos (a - b) else negsuc (b - a - 1)

-- The int64 that an integer wraps to.
unfoldable pub wrap64 : ℤ → ℤ
wrap64 (pos n) =
    if ltb (n % 2 ^ 64) (2 ^ 63) then pos (n % 2 ^ 64) else negsuc (2 ^ 64 - 1 - n % 2 ^ 64)
wrap64 (negsuc n) =
    if ltb (n % 2 ^ 64) (2 ^ 63) then negsuc (n % 2 ^ 64) else pos (2 ^ 64 - 1 - n % 2 ^ 64)

unfoldable pub add64 : ℤ → ℤ → ℤ
unfolding wrap64
add64 a b = wrap64 (sub_ℕ (pos_part a + pos_part b) (neg_part a + neg_part b))

unfoldable pub sub64 : ℤ → ℤ → ℤ
unfolding wrap64
sub64 a b = wrap64 (sub_ℕ (pos_part a + neg_part b) (neg_part a + pos_part b))

unfoldable pub mul64 : ℤ → ℤ → ℤ
unfolding wrap64
mul64 a b = wrap64 (
    sub_ℕ (pos_part a * pos_part b + neg_part a * neg_part b)
      (pos_part a * neg_part b + neg_part a * pos_part b))

abbrev pub ltb_ℤ : ℤ → ℤ → Bool
ltb_ℤ a b = ltb (pos_part a + neg_part b) (pos_part b + neg_part a)

abbrev pub leb_ℤ : ℤ → ℤ → Bool
leb_ℤ a b = leb (pos_part a + neg_part b) (pos_part b + neg_part a)

infix 50 ◌≤ℤ◌
abbrev pub ◌≤ℤ◌ : ℤ → ℤ → Type 0
a ≤ℤ b = pos_part a + neg_part b ≤ pos_part b + neg_part a

abbrev pub int_beq : ℤ → ℤ → Bool
int_beq (pos a) (pos b) = nat_beq a b
int_beq (negsuc a) (negsuc b) = nat_beq a b
int_beq _ _ = false

pub int_beq_iff : (a b : ℤ) → (int_beq a b ≡ true) ↔ (a ≡ b)
int_beq_iff a b = ground arith

instance abbrev pub int_eq : Comparable ℤ
int_eq = record { beq = int_beq; beq_iff = int_beq_iff }

-- A non-negative int64.
abbrev pub Nat64 : ℤ → Type 0
Nat64 x = (neg_part x ≡ 0) × (pos_part x < 2 ^ 63)

pub sub64_nat :
    (a b : ℤ)
    → Nat64 a
    → Nat64 b
    → pos_part b ≤ pos_part a
    → (neg_part (sub64 a b) ≡ 0) × (pos_part (sub64 a b) ≡ pos_part a - pos_part b)
unfolding sub64
sub64_nat (pos a) (pos b) p q h = ground arith
sub64_nat (negsuc a) b p q h = absurd (omega arith)
sub64_nat (pos a) (negsuc b) p q h = absurd (omega arith)

pub add64_nat :
    (a b : ℤ)
    → Nat64 a
    → Nat64 b
    → pos_part a + pos_part b < 2 ^ 63
    → (neg_part (add64 a b) ≡ 0) × (pos_part (add64 a b) ≡ pos_part a + pos_part b)
unfolding add64
add64_nat (pos a) (pos b) p q h = ground arith
add64_nat (negsuc a) b p q h = absurd (omega arith)
add64_nat (pos a) (negsuc b) p q h = absurd (omega arith)

pub mul64_nat :
    (a b : ℤ)
    → Nat64 a
    → Nat64 b
    → pos_part a * pos_part b < 2 ^ 63
    → (neg_part (mul64 a b) ≡ 0) × (pos_part (mul64 a b) ≡ pos_part a * pos_part b)
unfolding mul64
mul64_nat (pos a) (pos b) p q h = ground arith
mul64_nat (negsuc a) b p q h = absurd (omega arith)
mul64_nat (pos a) (negsuc b) p q h = absurd (omega arith)

-- A value that an int64 can hold.
abbrev pub IsInt64 : ℤ → Type 0
IsInt64 x = (pos_part x < 2 ^ 63) × (neg_part x ≤ 2 ^ 63)
