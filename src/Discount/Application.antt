-- ===== src/Discount/Application.antt =====
-- What `applyDiscount` leaves of a unit price.
use distribuitor_app.Prelude.{
  ℕ, ◌≡◌, ap, ◌∙◌, ◌*◌, ◌+◌, ℤ, pos, ◌-ℤ◌, ◌*ℤ◌, leb_ℤ, none, arith, if◌then◌else◌, int_laws,
  -ℤ_parts, *ℤ_one, zero_*ℤ, pos-*ℤ-pos,
}
use distribuitor_app.Prelude.Results.{ok}
use distribuitor_app.Decimal.{Decimal}
use distribuitor_app.Decimal.Laws.{minus_amounts, less_than_zero}
use distribuitor_app.Money.{Amount, Money, money, subtract}
use distribuitor_app.Gst.Line.{percentage_amount}
use distribuitor_app.Discount.{DiscountRule, percent, flat, apply_discount, reduced, not_below_zero}

rest_of : (p v w : ℕ) → v + w ≡ 1_000_000 → pos (p * 1_000_000) -ℤ pos (p * v) ≡ pos (p * w)
rest_of p v w h = let sum : p * 1_000_000 ≡ p * v + p * w = rw (← h) (grind arith) in omega int_laws

module _ ⦃dec : Decimal⦄ where
  -- A decimal with ten places, which a percentage of an amount has.
  abbrev pub ten_places : ℤ → Money
  ten_places c = dec.of c 10

  reduced_percent :
      (rule : DiscountRule) (p v w : ℕ)
      → rule.type ≡ percent
      → rule.value ≡ pos v
      → v + w ≡ 1_000_000
      → reduced rule (money (pos p)) ≡ ten_places (pos (p * w))
  reduced_percent rule p v w t e h =
      rw (t, e)
        (ap (λ (x : Money). subtract (money (pos p)) x) (percentage_amount (pos p) (pos v))
          ∙ dec.minus_of (pos p) (pos p *ℤ pos v) 4 10
          ∙ ap ten_places (simp (*ℤ_one, pos-*ℤ-pos) (rest_of p v w h)))

  ten_places_kept : (c : ℕ) → not_below_zero (ten_places (pos c)) ≡ ten_places (pos c)
  ten_places_kept c = simp (dec.less_than_of, zero_*ℤ, *ℤ_one) (ground arith)

  -- A percentage `v` between 0 and 100, without a cap, leaves exactly the other `w` = 100 - `v` percent
  -- of the price.
  pub apply_discount_percent :
      (rule : DiscountRule) (p v w : ℕ) (quantity : Amount)
      → rule.type ≡ percent
      → rule.value ≡ pos v
      → v + w ≡ 1_000_000
      → rule.max_discount_amount ≡ none
      → apply_discount rule (money (pos p)) quantity ≡ ok (ten_places (pos (p * w)))
  unfolding apply_discount
  apply_discount_percent rule p v w quantity t e h uncapped =
      rw uncapped (rw (reduced_percent rule p v w t e h) (rw (ten_places_kept (p * w))))

  -- A flat discount without a cap takes its value off each unit, and never leaves less than nothing.
  pub apply_discount_flat :
      (rule : DiscountRule) (price value quantity : Amount)
      → rule.type ≡ flat
      → rule.value ≡ value
      → rule.max_discount_amount ≡ none
      → apply_discount rule (money price) quantity
        ≡ ok (money (if leb_ℤ value price then price -ℤ value else pos 0))
  unfolding apply_discount
  apply_discount_flat rule price value quantity t e uncapped =
      rw (uncapped, t, e)
        (simp (minus_amounts, less_than_zero) (ground (arith, -ℤ_parts price value)))
