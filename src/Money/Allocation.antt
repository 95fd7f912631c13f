-- ===== src/Money/Allocation.antt =====
-- Sums of money strings, and `Money.sum`.
use distribuitor_app.Prelude.{◌≡◌, pos, ◌+ℤ◌, List, [], ◌∷◌, ◌++◌, +ℤ_assoc, +ℤ_zero, zero_+ℤ}
use distribuitor_app.Decimal.{Decimal}
use distribuitor_app.Decimal.Laws.{plus_amounts}
use distribuitor_app.Money.{Amount, money, sum, sum_from}

-- The sum as a plain recursion on integers.
abbrev pub total : List Amount → Amount
total [] = pos 0
total (a ∷ rest) = a +ℤ total rest

pub total-append : (xs ys : List Amount) → total (xs ++ ys) ≡ total xs +ℤ total ys
total-append [] ys = rw zero_+ℤ
total-append (x ∷ xs) ys = simp (total-append xs ys, +ℤ_assoc)

module _ ⦃dec : Decimal⦄ where
  sum_from-total :
      (acc : Amount) (xs : List Amount) → sum_from (money acc) xs ≡ money (acc +ℤ total xs)
  unfolding sum_from
  sum_from-total acc [] = rw +ℤ_zero
  sum_from-total acc (x ∷ xs) = rw (plus_amounts, sum_from-total (acc +ℤ x) xs, +ℤ_assoc)

  pub sum-total : (xs : List Amount) → sum xs ≡ money (total xs)
  unfolding sum
  sum-total xs = simp (sum_from-total, zero_+ℤ)
