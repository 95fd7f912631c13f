-- ===== src/Discount/Eligible.antt =====
-- When a rule meets its minimum quantity and its minimum amount, on a line of `quantity` pieces at the
-- list price `price`.
use distribuitor_app.Prelude.{
  ◌≡◌, refl, true, ℤ, pos, ◌*ℤ◌, ◌≤ℤ◌, ltb_ℤ, Option, none, some, if◌then◌else◌, arith, *ℤ_one,
  Bool-cases, inl, inr,
}
use distribuitor_app.Decimal.{Decimal}
use distribuitor_app.Decimal.Laws.{less_than_amounts}
use distribuitor_app.Money.{Amount, money, multiply}
use distribuitor_app.Discount.{
  DiscountRule, Reason, below_quantity, below_amount, rejection, amount_rejection, is_eligible,
  is_accepted,
}

-- An amount of four places is at most another of eight.
abbrev pub IsMet : Option Amount → ℤ → ℤ → Type 0
IsMet none scale value = Unit
IsMet (some least) scale value = least *ℤ scale ≤ℤ value

-- The quantity is no less than the minimum, nor is the price times the quantity, which has eight places.
pub record Qualifies (quantity price : Amount) (r : DiscountRule) : Type 0 where
  pub enough : IsMet r.min_qty (pos 1) quantity
  pub worth : IsMet r.min_amount (pos 10_000) (price *ℤ quantity)

-- What a rule falls short of: first its minimum quantity, then its minimum amount.
abbrev pub short_of : Option Amount → ℤ → ℤ → (Amount → Reason) → Option Reason
short_of none scale value reason = none
short_of (some least) scale value reason =
    if ltb_ℤ value (least *ℤ scale) then some (reason least) else none

abbrev pub first_of : Option Reason → Option Reason → Option Reason
first_of none other = other
first_of (some reason) other = some reason

abbrev pub shortfall : Amount → Amount → DiscountRule → Option Reason
shortfall quantity price r =
    first_of (short_of r.min_qty (pos 1) quantity below_quantity)
      (short_of r.min_amount (pos 10_000) (price *ℤ quantity) below_amount)

module _ ⦃dec : Decimal⦄ where
  line_below :
      (price quantity least : Amount)
      → dec.less_than (multiply (money price) quantity) (money least)
        ≡ ltb_ℤ (price *ℤ quantity) (least *ℤ pos 10_000)
  line_below price quantity least = simp (dec.times_of, dec.less_than_of, *ℤ_one)

  amount_short :
      (price quantity : Amount) (o : Option Amount)
      → amount_rejection (multiply (money price) quantity) o
        ≡ short_of o (pos 10_000) (price *ℤ quantity) below_amount
  amount_short price quantity none = refl
  amount_short price quantity (some least) = rw (line_below price quantity least) refl

  pub rejection-shortfall :
      (quantity price : Amount) (r : DiscountRule)
      → rejection quantity (multiply (money price) quantity) r ≡ shortfall quantity price r
  unfolding rejection
  rejection-shortfall quantity price r = go r.min_qty
    where
      go :
          (o : Option Amount)
          → (elim o as (λ _. Option Reason) [
            | none ↦ amount_rejection (multiply (money price) quantity) r.min_amount
            | some m ↦
                if dec.less_than (money quantity) (money m)
                then some (below_quantity m)
                else amount_rejection (multiply (money price) quantity) r.min_amount
          ])
            ≡ first_of
                (short_of o (pos 1) quantity below_quantity)
                (short_of r.min_amount (pos 10_000) (price *ℤ quantity) below_amount)
      go none = amount_short price quantity r.min_amount
      go (some m) =
          rw (less_than_amounts quantity m, *ℤ_one m)
            (elim (Bool-cases (ltb_ℤ quantity m)) [
              | inl e ↦ rw e refl
              | inr e ↦ rw e (amount_short price quantity r.min_amount)
            ])

accepted_none : (o : Option Reason) → is_accepted o ≡ true → o ≡ none
accepted_none none e = refl
accepted_none (some reason) e = absurd cc

module _ (scale value : ℤ) (reason : Amount → Reason) where
  short_of-IsMet : (o : Option Amount) → short_of o scale value reason ≡ none → IsMet o scale value
  short_of-IsMet none e = tt
  short_of-IsMet (some least) e = ground arith

  IsMet-short_of : (o : Option Amount) → IsMet o scale value → short_of o scale value reason ≡ none
  IsMet-short_of none met = refl
  IsMet-short_of (some least) met = ground arith

neither : (a b : Option Reason) → first_of a b ≡ none → (a ≡ none) × (b ≡ none)
neither none b e = (refl, e)
neither (some reason) b e = absurd cc

module _ ⦃dec : Decimal⦄ (quantity price : Amount) (r : DiscountRule) where
  -- The rules that the loop keeps are those that qualify.
  pub eligible-Qualifies :
      is_eligible quantity (multiply (money price) quantity) r ≡ true → Qualifies quantity price r
  eligible-Qualifies e =
      let g : is_accepted (shortfall quantity price r) ≡ true =
        rw (rejection-shortfall quantity price r) at e in
      let (enough, worth) = neither _ _ (accepted_none (shortfall quantity price r) g) in
      record {
        enough = short_of-IsMet (pos 1) quantity below_quantity r.min_qty enough;
        worth = short_of-IsMet (pos 10_000) (price *ℤ quantity) below_amount r.min_amount worth;
      }

  pub Qualifies-eligible :
      Qualifies quantity price r → is_eligible quantity (multiply (money price) quantity) r ≡ true
  Qualifies-eligible q =
      rw
        (
          rejection-shortfall quantity price r,
          IsMet-short_of (pos 1) quantity below_quantity r.min_qty q.enough,
          IsMet-short_of (pos 10_000) (price *ℤ quantity) below_amount r.min_amount q.worth,
        )
        refl
