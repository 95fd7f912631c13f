-- ===== src/Discount.antt =====
-- apps/api/src/modules/pricing/discount-resolver.ts: which discount rule wins, and what it takes off.
-- A code is read as its place in the order of `localeCompare`; the text of a reason is left out, its
-- kind and what it names are kept.
pub mod Ranking
pub mod Eligible
pub mod Selection
pub mod Winner
pub mod Application
mod Tests
use distribuitor_app.Prelude.{
  ℕ, zero, suc, Bool, true, false, not, ◌&&◌, ℤ, pos, ◌-ℤ◌, eqb_ℤ, leb_ℤ, Option, none, some, List,
  [], ◌∷◌, ◌==◌, if◌then◌else◌, select, map,
}
use distribuitor_app.Prelude.Results.{Result, ok, err, ◌>>=◌}
use distribuitor_app.Decimal.{Decimal}
use distribuitor_app.Money.{
  Amount, Money, money, zero_money, subtract, percentage, multiply, divide, lt, gt, is_negative,
}

-- From packages/contracts/src/enums.ts.
pub data DiscountScope : Type 0 where
  product category distributor price_list global : DiscountScope

unfoldable pub discount_scope_specificity : DiscountScope → ℕ
discount_scope_specificity product = 0
discount_scope_specificity category = 1
discount_scope_specificity distributor = 2
discount_scope_specificity price_list = 3
discount_scope_specificity global = 4

pub data DiscountType : Type 0 where
  percent flat : DiscountType

pub record DiscountRule : Type 0 where
  pub id : ℕ
  pub code : ℕ
  pub scope : DiscountScope
  pub type : DiscountType
  pub value : Amount
  pub min_qty : Option Amount
  pub min_amount : Option Amount
  pub max_discount_amount : Option Amount
  pub priority : ℕ

pub data Reason : Type 0 where
  below_quantity : Amount → Reason
  below_amount : Amount → Reason
  outranked : ℕ → ℕ → DiscountScope → Reason

-- A candidate keeps the rule that it describes.
pub record DiscountCandidate : Type 0 where
  pub rule : DiscountRule
  pub applied : Bool
  pub rejected_because : Option Reason

pub record DiscountSelection : Type 0 where
  pub winner : Option DiscountRule
  pub candidates : List DiscountCandidate

-- The comparator of the ranking: `a || b` is `b` when `a` is 0.
abbrev or_else : ℤ → ℤ → ℤ
or_else a b = if eqb_ℤ a (pos 0) then b else a

unfoldable pub compare_rules : DiscountRule → DiscountRule → ℤ
unfolding discount_scope_specificity
compare_rules a b = or_else (pos a.priority -ℤ pos b.priority) (
    or_else (pos (discount_scope_specificity a.scope) -ℤ pos (discount_scope_specificity b.scope))
      (pos a.code -ℤ pos b.code))

-- `sort`, which is stable: an element goes before those that do not compare below it.
insert_rule : DiscountRule → List DiscountRule → List DiscountRule
insert_rule a [] = a ∷ []
insert_rule a (b ∷ rest) =
    if leb_ℤ (compare_rules a b) (pos 0) then a ∷ b ∷ rest else b ∷ insert_rule a rest

sort_rules : List DiscountRule → List DiscountRule
sort_rules [] = []
sort_rules (a ∷ rest) = insert_rule a (sort_rules rest)

abbrev first_rule : List DiscountRule → Option DiscountRule
first_rule [] = none
first_rule (a ∷ rest) = some a

abbrev pub is_accepted : Option Reason → Bool
is_accepted none = true
is_accepted (some reason) = false

-- The last loop: the winner is marked, and every other rule that was eligible is told by whom it lost.
abbrev marked : DiscountRule → Option Reason → DiscountCandidate → DiscountCandidate
marked winner (some reason) candidate = candidate
marked winner none candidate =
    if candidate.rule.id == winner.id
    then record candidate { applied = true }
    else record candidate {
      rejected_because = some (outranked winner.code winner.priority winner.scope);
    }

abbrev mark : DiscountRule → DiscountCandidate → DiscountCandidate
mark winner candidate = marked winner candidate.rejected_because candidate

abbrev concluded : List DiscountCandidate → Option DiscountRule → DiscountSelection
concluded candidates none = record { winner = none; candidates = candidates }
concluded candidates (some winner) = record {
  winner = some winner;
  candidates = map (mark winner) candidates;
}

module _ ⦃dec : Decimal⦄ where
  -- Why the loop rejects a rule, if it does: the minimum quantity first, then the minimum amount.
  abbrev pub amount_rejection : Money → Option Amount → Option Reason
  amount_rejection line_gross none = none
  amount_rejection line_gross (some m) =
      if lt line_gross (money m) then some (below_amount m) else none

  unfoldable pub rejection : Amount → Money → DiscountRule → Option Reason
  rejection quantity line_gross rule = elim rule.min_qty [
    | none ↦ amount_rejection line_gross rule.min_amount
    | some m ↦
        if lt (money quantity) (money m)
        then some (below_quantity m)
        else amount_rejection line_gross rule.min_amount
  ]

  abbrev pub is_eligible : Amount → Money → DiscountRule → Bool
  is_eligible quantity line_gross rule = is_accepted (rejection quantity line_gross rule)

  abbrev candidate_of : Amount → Money → DiscountRule → DiscountCandidate
  candidate_of quantity line_gross rule = record {
    rule = rule;
    applied = false;
    rejected_because = rejection quantity line_gross rule;
  }

  unfoldable pub select_discount : List DiscountRule → Amount → Money → DiscountSelection
  unfolding insert_rule sort_rules
  select_discount rules quantity line_gross =
      let candidates = map (candidate_of quantity line_gross) rules in
      let eligible = select (is_eligible quantity line_gross) rules in
      concluded candidates (first_rule (sort_rules eligible))

  abbrev reduced : DiscountRule → Money → Money
  reduced rule list_unit_price = elim rule.type [
    | percent ↦ subtract list_unit_price (percentage list_unit_price rule.value)
    | flat ↦ subtract list_unit_price (money rule.value)
  ]

  abbrev not_below_zero : Money → Money
  not_below_zero discounted = if is_negative discounted then zero_money else discounted

  abbrev capped : Amount → Money → Money → Amount → Result Money
  capped cap list_unit_price discounted quantity =
      if gt (multiply (subtract list_unit_price discounted) quantity) (money cap)
      then (do off ← divide (money cap) quantity; ok (subtract list_unit_price off))
      else ok discounted

  unfoldable pub apply_discount : DiscountRule → Money → Amount → Result Money
  apply_discount rule list_unit_price quantity =
      let discounted = not_below_zero (reduced rule list_unit_price) in
      elim rule.max_discount_amount [
        | none ↦ ok discounted
        | some cap ↦ capped cap list_unit_price discounted quantity
      ]
