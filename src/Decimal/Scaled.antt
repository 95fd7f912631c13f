-- ===== src/Decimal/Scaled.antt =====
-- The interface can be met: a coefficient and a number of places, or a quotient until it is rounded.
use Prim.Native.Nat.{min}
use distribuitor_app.Prelude.{
  ℕ, ◌+◌, ◌-◌, ◌*◌, ◌^◌, ◌≤◌, max, ◌≡◌, refl, inl, inr, Bool, ◌&&◌, ℤ, pos, negsuc, neg, pos_part,
  ◌+ℤ◌, ◌-ℤ◌, ◌*ℤ◌, ltb_ℤ, leb_ℤ, eqb_ℤ, ◌==◌, if◌then◌else◌, arith, Bool-cases,
}
use distribuitor_app.Decimal.Interface.{Decimal, Rounding, half_up, down, rounded, abs_ℤ, aligned}

-- c · 10^(-s), or a quotient that has not been rounded, a / m · 10^(-s).
pub data Scaled : Type 0 where
  exact : ℤ → ℕ → Scaled
  ratio : ℤ → ℕ → ℕ → Scaled

abbrev pub coefficient : Scaled → ℤ
coefficient (exact a s) = a
coefficient (ratio a m s) = rounded half_up a m

abbrev pub places : Scaled → ℕ
places (exact a s) = s
places (ratio a m s) = s

-- `y` is the number 100, or the amount 2.
abbrev pub is_hundred : Scaled → Bool
is_hundred y = places y == 0 && pos_part (coefficient y) == 100

abbrev pub is_two : Scaled → Bool
is_two y = places y == 4 && pos_part (coefficient y) == 20_000

abbrev pub quotient : Scaled → Scaled → Scaled
quotient x y =
    if is_hundred y
    then exact (coefficient x) (places x + 2)
    else if is_two y
    then exact (coefficient x *ℤ pos 5) (places x + 1)
    else ratio (coefficient x) (pos_part (coefficient y)) (places x - places y)

abbrev pub fixed : ℕ → Scaled → ℤ
fixed k x = rounded half_up (coefficient x) (10 ^ (places x - k)) *ℤ pos (10 ^ (k - places x))

abbrev pub to_places : ℕ → Rounding → Scaled → Scaled
to_places k mode (exact c s) = exact (rounded mode c (10 ^ (s - k))) (min s k)
to_places k mode (ratio a m s) = exact (rounded mode a (m * 10 ^ (s - k))) (min s k)

rounded_five : (mode : Rounding) (a : ℤ) → rounded mode (a *ℤ pos 5) 100_000 ≡ rounded mode a 20_000
unfolding ◌*ℤ◌ neg
rounded_five half_up (pos n) = ground arith
rounded_five half_up (negsuc n) = ground arith
rounded_five down (pos n) = ground arith
rounded_five down (negsuc n) = ground arith

pub quotient-rounded :
    (k t : ℕ) (mode : Rounding) (a : ℤ) (b : ℕ)
    → 1 ≤ b
    → to_places k mode (quotient (exact a (k + t)) (exact (pos b) t)) ≡ exact (rounded mode a b) k
quotient-rounded k t mode a b h = elim (Bool-cases (t == 0 && b == 100)) [
  | inl e ↦
      let whole : t ≡ 0 = ground arith in
      let is_100 : b ≡ 100 = ground arith in
      let over : (k + t + 2) - k ≡ 2 = omega arith in
      let kept : min (k + t + 2) k ≡ k = omega arith in rw (e, over, kept, is_100) refl
  | inr e ↦ elim (Bool-cases (t == 4 && b == 20_000)) [
    | inl f ↦
        let four : t ≡ 4 = ground arith in
        let two : b ≡ 20_000 = ground arith in
        let over : (k + t + 1) - k ≡ 5 = omega arith in
        let kept : min (k + t + 1) k ≡ k = omega arith in
        rw (e, f, over, kept, rounded_five mode a, two) refl
    | inr f ↦
        let left : (k + t) - t ≡ k = omega arith in
        let none_over : k - k ≡ 0 = omega arith in
        let kept : min k k ≡ k = omega arith in
        let once : b * 1 ≡ b = omega arith in rw (e, f, left, none_over, kept, once) refl
  ]
]

instance abbrev pub scaled_decimal : Decimal
scaled_decimal = record {
  D = Scaled;
  of = exact;
  plus = λ x y.
      exact
        (aligned (coefficient x) (places x) (places y)
          +ℤ aligned (coefficient y) (places y) (places x))
        (max (places x) (places y));
  minus = λ x y.
      exact
        (aligned (coefficient x) (places x) (places y)
          -ℤ aligned (coefficient y) (places y) (places x))
        (max (places x) (places y));
  times = λ x y. exact (coefficient x *ℤ coefficient y) (places x + places y);
  divided_by = quotient;
  negated = λ x. exact (neg (coefficient x)) (places x);
  abs = λ x. exact (abs_ℤ (coefficient x)) (places x);
  equals = λ x y.
      eqb_ℤ (aligned (coefficient x) (places x) (places y))
        (aligned (coefficient y) (places y) (places x));
  greater_than = λ x y.
      ltb_ℤ (aligned (coefficient y) (places y) (places x))
        (aligned (coefficient x) (places x) (places y));
  greater_than_or_equal_to = λ x y.
      leb_ℤ (aligned (coefficient y) (places y) (places x))
        (aligned (coefficient x) (places x) (places y));
  less_than = λ x y.
      ltb_ℤ (aligned (coefficient x) (places x) (places y))
        (aligned (coefficient y) (places y) (places x));
  less_than_or_equal_to = λ x y.
      leb_ℤ (aligned (coefficient x) (places x) (places y))
        (aligned (coefficient y) (places y) (places x));
  is_zero = λ x. eqb_ℤ (coefficient x) (pos 0);
  to_decimal_places = to_places;
  to_fixed = fixed;
  plus_of = λ _ _ _ _. refl;
  minus_of = λ _ _ _ _. refl;
  times_of = λ _ _ _ _. refl;
  negated_of = λ _ _. refl;
  abs_of = λ _ _. refl;
  equals_of = λ _ _ _ _. refl;
  greater_than_of = λ _ _ _ _. refl;
  greater_than_or_equal_to_of = λ _ _ _ _. refl;
  less_than_of = λ _ _ _ _. refl;
  less_than_or_equal_to_of = λ _ _ _ _. refl;
  is_zero_of = λ _ _. refl;
  hundredth_of = λ _ _. refl;
  half_of = λ _ _. refl;
  quotient_rounded = quotient-rounded;
  to_decimal_places_of = λ _ _ _ _. refl;
  to_fixed_of = λ _ _ _. refl;
}
