-- ===== src/Decimal/Interface.antt =====
-- The operations of decimal.js that `Money` calls, and what their documentation says of them. The laws
-- leave the 34 significant digits aside: a column of the database holds 18.
use Prim.Native.Nat.{min}
use distribuitor_app.Prelude.{
  ℕ, suc, ◌+◌, ◌-◌, ◌*◌, ◌/◌, ◌^◌, ◌≤◌, max, ◌≡◌, Bool, ℤ, pos, negsuc, neg, ◌+ℤ◌, ◌-ℤ◌, ◌*ℤ◌,
  ltb_ℤ, leb_ℤ, eqb_ℤ, if◌then◌else◌,
}

-- `ROUND_HALF_UP` (a half goes away from zero) and `ROUND_DOWN` (towards zero).
pub data Rounding : Type 0 where
  half_up down : Rounding

-- n / m, rounded.
abbrev pub rounded_ℕ : Rounding → ℕ → ℕ → ℕ
rounded_ℕ half_up n m = (2 * n + m) / (2 * m)
rounded_ℕ down n m = n / m

abbrev pub rounded : Rounding → ℤ → ℕ → ℤ
rounded mode (pos n) m = pos (rounded_ℕ mode n m)
rounded mode (negsuc n) m = neg (pos (rounded_ℕ mode (suc n) m))

-- The coefficient `a` of a decimal with `s` places, for at least `t` places.
abbrev pub aligned : ℤ → ℕ → ℕ → ℤ
aligned a s t = a *ℤ pos (10 ^ (t - s))

abbrev pub abs_ℤ : ℤ → ℤ
abs_ℤ a = if ltb_ℤ a (pos 0) then neg a else a

pub record Decimal : Type 1 where
  pub D : Type 0
  -- `of c s` is the decimal c · 10^(-s).
  pub of : ℤ → ℕ → D
  pub plus : D → D → D
  pub minus : D → D → D
  pub times : D → D → D
  pub divided_by : D → D → D
  pub negated : D → D
  pub abs : D → D
  pub equals : D → D → Bool
  pub greater_than : D → D → Bool
  pub greater_than_or_equal_to : D → D → Bool
  pub less_than : D → D → Bool
  pub less_than_or_equal_to : D → D → Bool
  pub is_zero : D → Bool
  pub to_decimal_places : ℕ → Rounding → D → D
  -- `toFixed(k)`, read as the number of units of 10^(-k).
  pub to_fixed : ℕ → D → ℤ
  -- Sums, differences, products and comparisons are those of the numbers.
  pub plus_of :
      (a b : ℤ) (s t : ℕ) → plus (of a s) (of b t) ≡ of (aligned a s t +ℤ aligned b t s) (max s t)
  pub minus_of :
      (a b : ℤ) (s t : ℕ) → minus (of a s) (of b t) ≡ of (aligned a s t -ℤ aligned b t s) (max s t)
  pub times_of : (a b : ℤ) (s t : ℕ) → times (of a s) (of b t) ≡ of (a *ℤ b) (s + t)
  pub negated_of : (a : ℤ) (s : ℕ) → negated (of a s) ≡ of (neg a) s
  pub abs_of : (a : ℤ) (s : ℕ) → abs (of a s) ≡ of (abs_ℤ a) s
  pub equals_of :
      (a b : ℤ) (s t : ℕ) → equals (of a s) (of b t) ≡ eqb_ℤ (aligned a s t) (aligned b t s)
  pub greater_than_of :
      (a b : ℤ) (s t : ℕ) → greater_than (of a s) (of b t) ≡ ltb_ℤ (aligned b t s) (aligned a s t)
  pub greater_than_or_equal_to_of :
      (a b : ℤ) (s t : ℕ)
      → greater_than_or_equal_to (of a s) (of b t) ≡ leb_ℤ (aligned b t s) (aligned a s t)
  pub less_than_of :
      (a b : ℤ) (s t : ℕ) → less_than (of a s) (of b t) ≡ ltb_ℤ (aligned a s t) (aligned b t s)
  pub less_than_or_equal_to_of :
      (a b : ℤ) (s t : ℕ)
      → less_than_or_equal_to (of a s) (of b t) ≡ leb_ℤ (aligned a s t) (aligned b t s)
  pub is_zero_of : (a : ℤ) (s : ℕ) → is_zero (of a s) ≡ eqb_ℤ a (pos 0)
  -- A quotient that ends is exact; these are the two constant divisors of the code.
  pub hundredth_of : (a : ℤ) (s : ℕ) → divided_by (of a s) (of (pos 100) 0) ≡ of a (s + 2)
  pub half_of : (a : ℤ) (s : ℕ) → divided_by (of a s) (of (pos 20_000) 4) ≡ of (a *ℤ pos 5) (s + 1)
  -- A quotient that is rounded to the places that the dividend has over the divisor is the quotient of
  -- the coefficients, rounded.
  pub quotient_rounded :
      (k t : ℕ) (mode : Rounding) (a : ℤ) (b : ℕ)
      → 1 ≤ b
      → to_decimal_places k mode (divided_by (of a (k + t)) (of (pos b) t))
        ≡ of (rounded mode a b) k
  -- Rounding to `k` places leaves a decimal with fewer places alone.
  pub to_decimal_places_of :
      (k : ℕ) (mode : Rounding) (a : ℤ) (s : ℕ)
      → to_decimal_places k mode (of a s) ≡ of (rounded mode a (10 ^ (s - k))) (min s k)
  -- `toFixed` rounds by the mode of the configuration, `ROUND_HALF_UP`, and pads with zeros.
  pub to_fixed_of :
      (k : ℕ) (a : ℤ) (s : ℕ)
      → to_fixed k (of a s) ≡ rounded half_up a (10 ^ (s - k)) *ℤ pos (10 ^ (k - s))
