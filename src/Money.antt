-- ===== src/Money.antt =====
-- `class Money` of packages/contracts/src/primitives/money.ts, over the decimals of `Decimal`.
-- A money string on the wire or in a column has four places, so it is read as a number of
-- ten-thousandths (`Amount`); a number literal `n` of the source is `whole n`.
pub mod Allocation
pub mod Shares
mod Tests
use distribuitor_app.Prelude.{ℕ, ◌+◌, ◌*◌, Bool, ℤ, pos, List, [], ◌∷◌, if◌then◌else◌}
use distribuitor_app.Prelude.Results.{Result, ok, err, range, ◌>>=◌, ◌>>◌, throw_if}
use distribuitor_app.Decimal.{Decimal, half_up}

-- A money string: `pos 12_500` is "1.2500".
abbrev pub Amount : Type 0
Amount = ℤ

-- `MONEY_SCALE` and `MONEY_DISPLAY_SCALE`.
abbrev pub money_scale : ℕ
money_scale = 4

abbrev pub money_display_scale : ℕ
money_display_scale = 2

-- The money string of a whole number.
abbrev pub whole : ℕ → Amount
whole n = pos (n * 10_000)

module _ ⦃dec : Decimal⦄ where
  open dec use {D, of}

  abbrev pub Money : Type 0
  Money = D

  -- `Money.of` of a money string; a `Money` is returned as it is.
  abbrev pub money : Amount → Money
  money a = of a 4

  abbrev pub zero_money : Money
  zero_money = money (pos 0)

  abbrev pub add : Money → Money → Money
  add x y = dec.plus x y

  abbrev pub subtract : Money → Money → Money
  subtract x y = dec.minus x y

  abbrev pub multiply : Money → Amount → Money
  multiply x factor = dec.times x (money factor)

  abbrev pub divide : Money → Amount → Result Money
  divide x divisor = do
    throw_if (dec.is_zero (money divisor)) range
    ok (dec.divided_by x (money divisor))

  abbrev pub percentage : Money → Amount → Money
  percentage x percent = dec.divided_by (dec.times x (money percent)) (of (pos 100) 0)

  abbrev pub negate : Money → Money
  negate x = dec.negated x

  abbrev pub abs : Money → Money
  abs x = dec.abs x

  abbrev pub round : ℕ → Money → Money
  round scale x = dec.to_decimal_places scale half_up x

  -- The whole rupees, and the adjustment.
  abbrev pub round_to_whole : Money → Money × Money
  round_to_whole x =
      let rounded = dec.to_decimal_places 0 half_up x in (rounded, subtract rounded x)

  abbrev pub equals : Money → Money → Bool
  equals x y = dec.equals x y

  abbrev pub gt : Money → Money → Bool
  gt x y = dec.greater_than x y

  abbrev pub gte : Money → Money → Bool
  gte x y = dec.greater_than_or_equal_to x y

  abbrev pub lt : Money → Money → Bool
  lt x y = dec.less_than x y

  abbrev pub lte : Money → Money → Bool
  lte x y = dec.less_than_or_equal_to x y

  abbrev pub is_zero : Money → Bool
  is_zero x = dec.is_zero x

  abbrev pub is_positive : Money → Bool
  is_positive x = dec.greater_than x (of (pos 0) 0)

  abbrev pub is_negative : Money → Bool
  is_negative x = dec.less_than x (of (pos 0) 0)

  -- The canonical string: four places.
  abbrev pub to_string : Money → Amount
  to_string x = dec.to_fixed money_scale x

  abbrev pub min : Money → Money → Money
  min x y = if lte x y then x else y

  abbrev pub max : Money → Money → Money
  max x y = if gte x y then x else y

  sum_from : Money → List Amount → Money
  sum_from acc [] = acc
  sum_from acc (item ∷ items) = sum_from (add acc (money item)) items

  -- `Money.sum` of money strings: `reduce`.
  unfoldable pub sum : List Amount → Money
  unfolding sum_from
  sum items = sum_from zero_money items
