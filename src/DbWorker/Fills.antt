-- ===== src/DbWorker/Fills.antt =====
-- The order rows of the database follow the engine's order objects.
use predix_go_backend.Base.{
  ◌+◌, ◌≤◌, ◌<◌, ◌^◌, ◌≡◌, refl, sym, ap, ◌∙◌, String, true, false, arith, ℤ, pos, pos_part,
  neg_part, Nat64, add64, sub64, sub64_nat, add64_nat, leb_ℤ, ltb_ℤ, Bool-cases, inl, inr,
}
use predix_go_backend.Engine.Types.{Order, Status}
use predix_go_backend.Engine.Ledger.Freezing.{nat_ext}
use predix_go_backend.Engine.Matching.{take_fill, close_fill}
use predix_go_backend.Engine.Matching.Quantities.{IsConserved}
use predix_go_backend.DbWorker.Database.{fill_row, plus, minus}
use predix_go_backend.DbWorker.{order_row}

plus-add64 : (a b : ℤ) → Nat64 a → Nat64 b → pos_part a + pos_part b < 2 ^ 63 → plus a b ≡ add64 a b
unfolding plus
plus-add64 a b p q h =
    let s = add64_nat a b p q h in
    let whole : neg_part (plus a b) ≡ 0 = ground (arith, p, q) in
    let sum : pos_part (plus a b) ≡ pos_part a + pos_part b = ground (arith, p, q) in
    nat_ext (plus a b) (add64 a b) whole s.0 (sum ∙ sym s.1)

minus-sub64 :
    (a b c : ℤ)
    → Nat64 a
    → Nat64 b
    → neg_part c ≡ 0
    → pos_part b + pos_part c ≡ pos_part a
    → minus a b ≡ c
unfolding minus
minus-sub64 a b c p q r e = nat_ext (minus a b) c (ground (arith, p, q)) r (ground (arith, p, q))

-- The row of a resting order, filled by the worker, is the row of the order that the engine filled:
-- where the order's quantities add up and the fill is no more than what is left.
pub fill_row-order_row :
    (event user : String) (n : ℤ) (o : Order)
    → IsConserved o
    → Nat64 n
    → pos_part n ≤ pos_part o.remaining_quantity
    → fill_row n (order_row event user o) ≡ order_row event user (close_fill (take_fill n o))
unfolding fill_row take_fill close_fill
fill_row-order_row event user n o k m le =
    let left : ℤ = sub64 o.remaining_quantity n in
    let s = sub64_nat o.remaining_quantity n k.remaining m le in
    let a = add64_nat o.filled_quantity n k.filled m (omega (arith, k.total, k.whole)) in
    let filled = plus-add64 o.filled_quantity n k.filled m (omega (arith, k.total, k.whole)) in
    let rest : minus o.quantity (add64 o.filled_quantity n) ≡ left =
      minus-sub64 o.quantity (add64 o.filled_quantity n) left k.whole
        (a.0, omega (arith, a.1, k.total, k.whole)) s.0 (omega (arith, a.1, s.1, k.total)) in
    let whole : ltb_ℤ left (pos 0) ≡ false = ground (arith, s.0) in
    elim (Bool-cases (leb_ℤ left (pos 0))) [
      | inl gone ↦
          let zero : left ≡ pos 0 = nat_ext left (pos 0) s.0 refl (ground (arith, gone)) in
          let all : leb_ℤ o.quantity (add64 o.filled_quantity n) ≡ true =
            ground (arith, a, s, gone, k.total, k.whole) in
          rw (filled, rest, gone, all, whole)
            (ap
              (λ (r : ℤ). record (order_row event user o) {
                status = Status.filled;
                filled_quantity = add64 o.filled_quantity n;
                remaining_quantity = r;
              })
              zero)
      | inr more ↦
          let short : leb_ℤ o.quantity (add64 o.filled_quantity n) ≡ false =
            ground (arith, a, s, more, k.total, k.whole) in
          rw (filled, rest, more, short, whole) refl
    ]
