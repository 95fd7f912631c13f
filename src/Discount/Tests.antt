-- ===== src/Discount/Tests.antt =====
-- Two rules, and what the theorems say of their ranking and application.
use distribuitor_app.Prelude.{
  ◌≡◌, ◌≢◌, ◌*◌, ◌↔◌, refl, sym, ap, ◌∙◌, inl, inr, true, pos, ◌-ℤ◌, ◌*ℤ◌, none, some, List, [],
  ◌∷◌, select, leb_ℤ, arith, map,
}
use distribuitor_app.Prelude.Results.{ok}
use distribuitor_app.Decimal.Scaled.{scaled_decimal}
use distribuitor_app.Money.{Money, money, multiply, whole}
use distribuitor_app.Discount.{
  DiscountRule, product, global, percent, flat, select_discount, apply_discount, is_eligible,
  rejection, compare_rules,
}
use distribuitor_app.Discount.Ranking.{IsBefore, compare_rules_iff}
use distribuitor_app.Discount.Selection.{IsOneOf, select_discount_order}
use distribuitor_app.Discount.Eligible.{Qualifies}
use distribuitor_app.Discount.Winner.{described, select_discount_wins, select_discount-described}
use distribuitor_app.Discount.Application.{ten_places, apply_discount_percent, apply_discount_flat}

-- 10 % on a product.
abbrev on_product : DiscountRule
on_product = record {
  id = 1;
  code = 5;
  scope = product;
  type = percent;
  value = whole 10;
  min_qty = none;
  min_amount = none;
  max_discount_amount = none;
  priority = 100;
}

-- 3.00 off everything, from five pieces on.
abbrev on_all : DiscountRule
on_all = record {
  id = 2;
  code = 4;
  scope = global;
  type = flat;
  value = whole 3;
  min_qty = some (whole 5);
  min_amount = none;
  max_discount_amount = none;
  priority = 100;
}

abbrev both : List DiscountRule
both = on_product ∷ on_all ∷ []

abbrev reversed : List DiscountRule
reversed = on_all ∷ on_product ∷ []

abbrev gross : Money
gross = money (whole 600)

product_wins : (select_discount both (whole 6) gross).winner ≡ some on_product
unfolding select_discount rejection compare_rules ◌-ℤ◌ ◌*ℤ◌
product_wins = refl

product_wins_reversed : (select_discount reversed (whole 6) gross).winner ≡ some on_product
unfolding select_discount rejection compare_rules ◌-ℤ◌ ◌*ℤ◌
product_wins_reversed = refl

-- Four pieces are too few for the second rule.
too_few : (select_discount (on_all ∷ []) (whole 4) gross).winner ≡ none
unfolding select_discount rejection compare_rules ◌-ℤ◌ ◌*ℤ◌
too_few = refl

compare_rules_iff_example :
    (leb_ℤ (compare_rules on_product on_all) (pos 0) ≡ true) ↔ IsBefore on_product on_all
compare_rules_iff_example = compare_rules_iff on_product on_all

-- Six pieces at 100.00.
product_wins_line :
    (select_discount both (whole 6) (multiply (money (whole 100)) (whole 6))).winner
    ≡ some on_product
unfolding select_discount rejection compare_rules ◌-ℤ◌ ◌*ℤ◌
product_wins_line = refl

six_qualify : Qualifies (whole 6) (whole 100) on_all
unfolding ◌*ℤ◌
six_qualify = record { enough = omega arith; worth = tt }

select_discount_wins_example :
    (w : DiscountRule) × ((select_discount both
        (whole 6)
        (multiply (money (whole 100)) (whole 6))).winner
      ≡ some w)
    × IsOneOf w both
    × Qualifies (whole 6) (whole 100) w
    × IsBefore w on_all
select_discount_wins_example =
    select_discount_wins both (whole 6) (whole 100) on_all (inr (inl refl)) six_qualify

select_discount-described_example :
    (select_discount both (whole 6) (multiply (money (whole 100)) (whole 6))).candidates
    ≡ map (described (whole 6) (whole 100) on_product) both
select_discount-described_example =
    select_discount-described both (whole 6) (whole 100) on_product product_wins_line

swap : {r a b : DiscountRule} → IsOneOf r (a ∷ b ∷ []) → IsOneOf r (b ∷ a ∷ [])
swap (inl e) = inr (inl e)
swap (inr (inl e)) = inl e
swap (inr (inr h)) = absurd h

codes_apart : on_product.code ≢ on_all.code
codes_apart e = omega arith

codes_differ : (r s : DiscountRule) → IsOneOf r both → IsOneOf s both → r.code ≡ s.code → r ≡ s
codes_differ r s (inl e) (inl f) c = e ∙ sym f
codes_differ r s (inl e) (inr (inl f)) c = absurd (
    codes_apart
      (sym (ap (λ (x : DiscountRule). x.code) e) ∙ c ∙ ap (λ (x : DiscountRule). x.code) f))
codes_differ r s (inr (inl e)) (inl f) c = absurd (
    codes_apart
      (sym (sym (ap (λ (x : DiscountRule). x.code) e) ∙ c ∙ ap (λ (x : DiscountRule). x.code) f)))
codes_differ r s (inr (inl e)) (inr (inl f)) c = e ∙ sym f
codes_differ r s (inr (inr h)) g c = absurd h
codes_differ r s (inl e) (inr (inr h)) c = absurd h
codes_differ r s (inr (inl e)) (inr (inr h)) c = absurd h

both_eligible : select (is_eligible (whole 6) gross) both ≡ both
unfolding rejection ◌*ℤ◌
both_eligible = refl

select_discount_order_example : on_product ≡ on_product
unfolding rejection ◌*ℤ◌
select_discount_order_example =
    select_discount_order both reversed (whole 6) gross on_product on_product (λ r. (swap, swap))
      codes_differ product_wins product_wins_reversed

-- 250.00 less 10 % is 225.00.
apply_discount_percent_example :
    apply_discount on_product (money (whole 250)) (whole 1)
    ≡ ok (ten_places (pos (2_500_000 * 900_000)))
apply_discount_percent_example =
    apply_discount_percent on_product 2_500_000 100_000 900_000 (whole 1) refl refl refl refl

-- 3.00 off 2.00 leaves nothing.
apply_discount_flat_example : apply_discount on_all (money (whole 2)) (whole 1) ≡ ok (money (pos 0))
apply_discount_flat_example =
    apply_discount_flat on_all (whole 2) (whole 3) (whole 1) refl refl refl
