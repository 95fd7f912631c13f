-- ===== src/Discount/Ranking.antt =====
-- The comparator of the ranking is a total order, and sorting by it puts a least rule first.
use distribuitor_app.Prelude.{ℕ, ◌≡◌, refl, ◌<◌, ◌≤◌, ◌↔◌, ◌⊎◌, true, pos, ◌-ℤ◌, leb_ℤ, arith}
use distribuitor_app.Discount.{
  DiscountRule, DiscountScope, product, category, distributor, price_list, global,
  discount_scope_specificity, compare_rules,
}

-- The most specific scope comes first: a product, its category, the distributor, the price list, and
-- last what holds for all.
abbrev pub place : DiscountScope → ℕ
place product = 0
place category = 1
place distributor = 2
place price_list = 3
place global = 4

abbrev pub rank : DiscountRule → ℕ
rank r = place r.scope

specificity-place : (s : DiscountScope) → discount_scope_specificity s ≡ place s
unfolding discount_scope_specificity
specificity-place product = refl
specificity-place category = refl
specificity-place distributor = refl
specificity-place price_list = refl
specificity-place global = refl

-- The order by priority, then by scope, then by code.
abbrev pub IsBefore : DiscountRule → DiscountRule → Type 0
IsBefore a b =
    (a.priority < b.priority)
    ⊎ (a.priority ≡ b.priority) × ((rank a < rank b) ⊎ (rank a ≡ rank b) × (a.code ≤ b.code))

-- The comparator puts a rule before another by priority, then by scope from the most specific to the
-- least, then by code.
pub compare_rules_iff :
    (a b : DiscountRule) → (leb_ℤ (compare_rules a b) (pos 0) ≡ true) ↔ IsBefore a b
unfolding compare_rules ◌-ℤ◌
compare_rules_iff a b =
    rw (compare_rules, specificity-place a.scope, specificity-place b.scope)
      (ground arith, ground arith)

pub IsBefore-total : (a b : DiscountRule) → IsBefore a b ⊎ IsBefore b a
IsBefore-total a b = ground arith

pub IsBefore-trans : (a b c : DiscountRule) → IsBefore a b → IsBefore b c → IsBefore a c
IsBefore-trans a b c e f = ground arith

pub IsBefore-antisym : (a b : DiscountRule) → IsBefore a b → IsBefore b a → a.code ≡ b.code
IsBefore-antisym a b e f = ground arith
