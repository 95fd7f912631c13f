-- ===== src/Inventory/Costing.antt =====
-- apps/api/src/modules/inventory/costing.ts: moving weighted-average costing.
pub mod Bounds
use distribuitor_app.Prelude.{Bool, true, false, not, ◌||◌, Option, none, some, if◌then◌else◌}
use distribuitor_app.Prelude.Results.{Result, ok, err, ◌>>=◌}
use distribuitor_app.Decimal.{Decimal}
use distribuitor_app.Money.{
  Amount, Money, money, zero_money, add, multiply, divide, round, lte, is_zero, is_positive,
  to_string,
}

module _ ⦃dec : Decimal⦄ where
  pub record AverageCostInput : Type 0 where
    pub on_hand_before : Money
    pub current_average : Money
    pub movement_quantity : Money
    pub movement_unit_cost : Option Amount

  -- The average after a receipt at a stated cost.
  averaged : AverageCostInput → Amount → Result Money
  averaged input unit_cost =
      let incoming_cost = money unit_cost in
      let total_qty = add input.on_hand_before input.movement_quantity in
      if lte input.on_hand_before zero_money || is_zero total_qty then ok incoming_cost else do
        let existing_value = multiply input.on_hand_before (to_string input.current_average)
        let incoming_value = multiply input.movement_quantity (to_string incoming_cost)
        quotient ← divide (add existing_value incoming_value) (to_string total_qty)
        ok (round 4 quotient)

  unfoldable pub next_average_cost : AverageCostInput → Result Money
  unfolding averaged
  next_average_cost input =
      if not (is_positive input.movement_quantity)
      then ok input.current_average
      else elim input.movement_unit_cost [
        | none ↦ ok input.current_average
        | some unit_cost ↦ averaged input unit_cost
      ]

  -- The cost that a movement is recorded at.
  unfoldable pub ledger_unit_cost : Bool → Money → Option Amount → Money
  ledger_unit_cost inbound current_average none = current_average
  ledger_unit_cost inbound current_average (some unit_cost) =
      if inbound then money unit_cost else current_average

  unfoldable pub stock_value : Money → Money → Money
  stock_value quantity_on_hand average_cost =
      round 4 (multiply quantity_on_hand (to_string average_cost))
