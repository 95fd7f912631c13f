-- ===== src/Decimal/Laws.antt =====
-- What the laws come to for amounts of four decimal places, the scale of storage and of the wire.
use distribuitor_app.Prelude.{
  ℕ, ◌*◌, ◌≤◌, ◌≡◌, ℤ, pos, negsuc, neg, ◌+ℤ◌, ◌-ℤ◌, *ℤ_one, zero_*ℤ, ltb_ℤ, leb_ℤ, eqb_ℤ, arith,
}
use distribuitor_app.Decimal.Interface.{Decimal, Rounding, half_up, down, rounded, rounded_ℕ, abs_ℤ}

pub rounded_one : (mode : Rounding) (a : ℤ) → rounded mode a 1 ≡ a
unfolding neg
rounded_one half_up (pos n) = ground arith
rounded_one half_up (negsuc n) = ground arith
rounded_one down (pos n) = ground arith
rounded_one down (negsuc n) = ground arith

-- Rounding keeps the order.
pub le-rounded : (l n m : ℕ) → 1 ≤ m → l * m ≤ n → l ≤ rounded_ℕ half_up n m
le-rounded l n m p h = grind arith

pub rounded-le : (h n m : ℕ) → 1 ≤ m → n ≤ h * m → rounded_ℕ half_up n m ≤ h
rounded-le h n m p k = grind arith

module _ ⦃dec : Decimal⦄ where
  open dec use {
    D, of, plus, minus, negated, abs, equals, greater_than, greater_than_or_equal_to, less_than,
    less_than_or_equal_to, is_zero, to_fixed,
  }

  pub plus_amounts : (a b : ℤ) → plus (of a 4) (of b 4) ≡ of (a +ℤ b) 4
  plus_amounts a b = simp (dec.plus_of, *ℤ_one)

  pub minus_amounts : (a b : ℤ) → minus (of a 4) (of b 4) ≡ of (a -ℤ b) 4
  minus_amounts a b = simp (dec.minus_of, *ℤ_one)

  pub negated_amount : (a : ℤ) → negated (of a 4) ≡ of (neg a) 4
  negated_amount a = dec.negated_of a 4

  pub abs_amount : (a : ℤ) → abs (of a 4) ≡ of (abs_ℤ a) 4
  abs_amount a = dec.abs_of a 4

  pub greater_than_amounts : (a b : ℤ) → greater_than (of a 4) (of b 4) ≡ ltb_ℤ b a
  greater_than_amounts a b = simp (dec.greater_than_of, *ℤ_one)

  pub greater_than_or_equal_amounts :
      (a b : ℤ) → greater_than_or_equal_to (of a 4) (of b 4) ≡ leb_ℤ b a
  greater_than_or_equal_amounts a b = simp (dec.greater_than_or_equal_to_of, *ℤ_one)

  pub less_than_amounts : (a b : ℤ) → less_than (of a 4) (of b 4) ≡ ltb_ℤ a b
  less_than_amounts a b = simp (dec.less_than_of, *ℤ_one)

  pub less_than_or_equal_amounts : (a b : ℤ) → less_than_or_equal_to (of a 4) (of b 4) ≡ leb_ℤ a b
  less_than_or_equal_amounts a b = simp (dec.less_than_or_equal_to_of, *ℤ_one)

  pub greater_than_zero : (a : ℤ) → greater_than (of a 4) (of (pos 0) 0) ≡ ltb_ℤ (pos 0) a
  greater_than_zero a = simp (dec.greater_than_of, *ℤ_one, zero_*ℤ)

  pub less_than_zero : (a : ℤ) → less_than (of a 4) (of (pos 0) 0) ≡ ltb_ℤ a (pos 0)
  less_than_zero a = simp (dec.less_than_of, *ℤ_one, zero_*ℤ)

  pub is_zero_amount : (a : ℤ) → is_zero (of a 4) ≡ eqb_ℤ a (pos 0)
  is_zero_amount a = dec.is_zero_of a 4

  pub to_fixed_amount : (a : ℤ) → to_fixed 4 (of a 4) ≡ a
  to_fixed_amount a = simp (dec.to_fixed_of, rounded_one, *ℤ_one)

pub ruleset amounts = (
  plus_amounts, minus_amounts, negated_amount, abs_amount, greater_than_amounts,
  greater_than_or_equal_amounts, less_than_amounts, less_than_or_equal_amounts, greater_than_zero,
  less_than_zero, is_zero_amount, to_fixed_amount,
)
