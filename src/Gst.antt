-- ===== src/Gst.antt =====
-- `GstCalculator` of apps/api/src/modules/pricing/gst-calculator.ts. Rates are percentages written as
-- money strings; state codes are read after `trim` and only compared.
pub mod Line
pub mod Document
mod Tests
use distribuitor_app.Prelude.{
  ℕ, Bool, not, ℤ, pos, Option, none, some, List, map, ◌==◌, if◌then◌else◌, arith,
}
use distribuitor_app.Prelude.Results.{Result, ok, err, ◌>>=◌}
use distribuitor_app.Decimal.{Decimal}
use distribuitor_app.Money.{
  Amount, Money, money, zero_money, whole, add, subtract, divide, multiply, percentage, round,
  round_to_whole, to_string, sum,
}

abbrev pub line_scale : ℕ
line_scale = 2

pub record TaxLineInput ⦃dec : Decimal⦄ : Type 0 where
  pub taxable_value : Money
  pub gst_rate : Amount
  pub cess_rate : Option Amount

pub record TaxLineResult : Type 0 where
  pub taxable_value : Amount
  pub gst_rate : Amount
  pub cgst : Amount
  pub sgst : Amount
  pub igst : Amount
  pub cess : Amount
  pub total_tax : Amount
  pub line_total : Amount

pub record TaxDocumentResult : Type 0 where
  pub taxable_value : Amount
  pub total_cgst : Amount
  pub total_sgst : Amount
  pub total_igst : Amount
  pub total_cess : Amount
  pub total_tax : Amount
  pub net_total : Amount
  pub round_off : Amount
  pub grand_total : Amount

-- `isInterState`, on trimmed codes.
unfoldable pub is_inter_state : ℕ → ℕ → Bool
is_inter_state supplier_state place_of_supply = not (supplier_state == place_of_supply)

-- `rate ?? '0'`.
abbrev pub or_zero : Option Amount → Amount
or_zero none = pos 0
or_zero (some rate) = rate

module _ ⦃dec : Decimal⦄ where
  -- The heads of tax of a line: CGST, SGST and IGST.
  heads : Money → Amount → Bool → Result (Money × Money × Money)
  heads taxable gst_rate inter_state =
      if inter_state
      then ok (zero_money, zero_money, round line_scale (percentage taxable gst_rate))
      else do
        quotient ← divide (money gst_rate) (whole 2)
        let half = to_string quotient
        ok (
          round line_scale (percentage taxable half),
          round line_scale (percentage taxable half),
          zero_money,
        )

  unfoldable pub compute_line : TaxLineInput → Bool → Result TaxLineResult
  unfolding heads
  compute_line input inter_state = do
    let taxable = input.taxable_value
    let gst_rate = input.gst_rate
    let cess_rate = or_zero input.cess_rate
    taxes ← heads taxable gst_rate inter_state
    let cgst = taxes.0
    let sgst = taxes.1
    let igst = taxes.2
    let cess = round line_scale (percentage taxable cess_rate)
    let total_tax = add (add (add cgst sgst) igst) cess
    ok (record {
      taxable_value = to_string (round line_scale taxable);
      gst_rate = gst_rate;
      cgst = to_string cgst;
      sgst = to_string sgst;
      igst = to_string igst;
      cess = to_string cess;
      total_tax = to_string total_tax;
      line_total = to_string (add (round line_scale taxable) total_tax);
    })

  unfoldable pub compute_document : List TaxLineResult → TaxDocumentResult
  compute_document lines =
      let taxable_value = sum (map (λ (line : TaxLineResult). line.taxable_value) lines) in
      let total_cgst = sum (map (λ (line : TaxLineResult). line.cgst) lines) in
      let total_sgst = sum (map (λ (line : TaxLineResult). line.sgst) lines) in
      let total_igst = sum (map (λ (line : TaxLineResult). line.igst) lines) in
      let total_cess = sum (map (λ (line : TaxLineResult). line.cess) lines) in
      let total_tax = add (add (add total_cgst total_sgst) total_igst) total_cess in
      let net_total = add taxable_value total_tax in
      let (grand_total, round_off) = round_to_whole net_total in
      record {
        taxable_value = to_string taxable_value;
        total_cgst = to_string total_cgst;
        total_sgst = to_string total_sgst;
        total_igst = to_string total_igst;
        total_cess = to_string total_cess;
        total_tax = to_string total_tax;
        net_total = to_string net_total;
        round_off = to_string round_off;
        grand_total = to_string grand_total;
      }

  unfoldable pub taxable_from_inclusive : Money → Amount → Result Money
  taxable_from_inclusive inclusive_amount gst_rate =
      let divisor = to_string (add (money (whole 100)) (money gst_rate)) in
      divide (multiply inclusive_amount (whole 100)) divisor
