-- ===== src/Gst/Line.antt =====
-- Lines: `GstCalculator.computeLine`.
use distribuitor_app.Prelude.{
  ℕ, ◌*◌, ◌+◌, ◌≤◌, ◌≡◌, refl, sym, ap, ◌∙◌, add-*ℤ, pos-*ℤ-pos, Bool, true, false, pos, ◌+ℤ◌, ◌*ℤ◌,
  ◌≤ℤ◌, Option, if◌then◌else◌, arith, *ℤ_one, int_laws, zero_+ℤ, +ℤ_zero,
}
use distribuitor_app.Prelude.Results.{ok}
use distribuitor_app.Decimal.{Decimal, rounded, rounded_ℕ, half_up}
use distribuitor_app.Decimal.Laws.{rounded_one}
use distribuitor_app.Money.{Amount, money, percentage, round}
use distribuitor_app.Gst.{TaxLineInput, TaxLineResult, compute_line, or_zero}

-- Tax at a percentage on a value, rounded half up to two places.
abbrev pub tax_on : Amount → Amount → Amount
tax_on value rate = rounded half_up (value *ℤ rate) 100_000_000 *ℤ pos 100

-- Half of a rate, to four places.
abbrev pub half_rate : Amount → Amount
half_rate rate = rounded half_up (rate *ℤ pos 5) 10

abbrev pub two_places : Amount → Amount
two_places value = rounded half_up value 100 *ℤ pos 100

abbrev pub tax_line : Amount → Amount → Option Amount → Bool → TaxLineResult
tax_line value rate cess_rate inter_state =
    let cgst = if inter_state then pos 0 else tax_on value (half_rate rate) in
    let igst = if inter_state then tax_on value rate else pos 0 in
    let cess = tax_on value (or_zero cess_rate) in
    let total_tax = cgst +ℤ cgst +ℤ igst +ℤ cess in
    record {
      taxable_value = two_places value;
      gst_rate = rate;
      cgst = cgst;
      sgst = cgst;
      igst = igst;
      cess = cess;
      total_tax = total_tax;
      line_total = two_places value +ℤ total_tax;
    }

module _ ⦃dec : Decimal⦄ where
  pub percentage_amount :
      (value rate : Amount) → percentage (money value) rate ≡ dec.of (value *ℤ rate) 10
  percentage_amount value rate =
      ap (λ x. dec.divided_by x (dec.of (pos 100) 0)) (dec.times_of value rate 4 4)
      ∙ dec.hundredth_of (value *ℤ rate) 8

  rounded-percentage :
      (value rate : Amount)
      → round 2 (percentage (money value) rate)
        ≡ dec.of (rounded half_up (value *ℤ rate) 100_000_000) 2
  rounded-percentage value rate = rw (percentage_amount, dec.to_decimal_places_of)

  -- The input of a line whose taxable value is a money string.
  abbrev pub line_input : Amount → Amount → Option Amount → TaxLineInput
  line_input value rate cess_rate = record {
    taxable_value = money value;
    gst_rate = rate;
    cess_rate = cess_rate;
  }

  compute_line-tax_line :
      (value rate : Amount) (cess_rate : Option Amount) (inter_state : Bool)
      → compute_line (line_input value rate cess_rate) inter_state
        ≡ ok (tax_line value rate cess_rate inter_state)
  unfolding compute_line
  compute_line-tax_line value rate cess_rate true = simp (
    rounded-percentage, dec.to_decimal_places_of, dec.to_fixed_of, dec.plus_of, rounded_one, *ℤ_one,
    zero_+ℤ,
  )
  compute_line-tax_line value rate cess_rate false = simp (
    dec.is_zero_of, dec.half_of, rounded-percentage, dec.to_decimal_places_of, dec.to_fixed_of,
    dec.plus_of, rounded_one, *ℤ_one, +ℤ_zero, add-*ℤ,
  )

near_double :
    (x : ℕ)
    → (rounded_ℕ half_up (2 * x) 100_000_000 ≤ 2 * rounded_ℕ half_up x 100_000_000 + 1)
      × (2 * rounded_ℕ half_up x 100_000_000 ≤ rounded_ℕ half_up (2 * x) 100_000_000 + 1)
near_double x = omega arith

half_rate_even : (h : ℕ) → half_rate (pos (2 * h)) ≡ pos h
unfolding ◌*ℤ◌
half_rate_even h = ground arith

tax_on_pos : (v r : ℕ) → tax_on (pos v) (pos r) ≡ pos (rounded_ℕ half_up (v * r) 100_000_000 * 100)
tax_on_pos v r = simp pos-*ℤ-pos

-- The two halves of the tax, together, are the whole tax up to one paisa.
heads_near :
    (v h : ℕ)
    → let half = tax_on (pos v) (half_rate (pos (2 * h))) in
      let full = tax_on (pos v) (pos (2 * h)) in
      (full ≤ℤ half +ℤ half +ℤ pos 100) × (half +ℤ half ≤ℤ full +ℤ pos 100)
heads_near v h =
    rw (half_rate_even, tax_on_pos v h, tax_on_pos v (2 * h)) (omega int_laws, omega int_laws)

ok-injective : {x y : TaxLineResult} → ok x ≡ ok y → x ≡ y
ok-injective e = cc

module _ ⦃dec : Decimal⦄ where
  -- A line whose taxable value is a money string is always taxed. Its total tax is the sum of its four
  -- heads, and its line total is its taxable value plus that tax. CGST and SGST are equal: nothing on an
  -- inter-state line, and otherwise the tax at half the rate. IGST is the tax at the whole rate on an
  -- inter-state line, and otherwise nothing. Cess is the tax at the cess rate, or at 0 without one.
  pub compute_line_heads :
      (value rate : Amount) (cess_rate : Option Amount) (inter_state : Bool)
      → let input = line_input value rate cess_rate in
        (line : TaxLineResult) × (compute_line input inter_state ≡ ok line)
        × (line.total_tax ≡ line.cgst +ℤ line.sgst +ℤ line.igst +ℤ line.cess)
        × (line.line_total ≡ line.taxable_value +ℤ line.total_tax)
        × (line.cgst ≡ line.sgst)
        × (line.cgst ≡ (if inter_state then pos 0 else tax_on value (half_rate rate)))
        × (line.igst ≡ (if inter_state then tax_on value rate else pos 0))
        × (line.cess ≡ tax_on value (or_zero cess_rate))
  compute_line_heads value rate cess_rate inter_state = (
    tax_line value rate cess_rate inter_state,
    compute_line-tax_line value rate cess_rate inter_state,
    refl,
    refl,
    refl,
    refl,
    refl,
    refl,
  )

  -- At a rate whose half has four places, and a value that is not negative, the CGST and SGST of a
  -- line taken as intra-state come to its IGST taken as inter-state, up to one paisa.
  pub compute_line_split :
      (v h : ℕ) (cess_rate : Option Amount) (intra inter : TaxLineResult)
      → let input = line_input (pos v) (pos (2 * h)) cess_rate in
        compute_line input false ≡ ok intra
        → compute_line input true ≡ ok inter
        → (inter.igst ≤ℤ intra.cgst +ℤ intra.sgst +ℤ pos 100)
          × (intra.cgst +ℤ intra.sgst ≤ℤ inter.igst +ℤ pos 100)
  compute_line_split v h cess_rate intra inter e f =
      let here =
        ok-injective (sym (compute_line-tax_line (pos v) (pos (2 * h)) cess_rate false) ∙ e) in
      let there =
        ok-injective (sym (compute_line-tax_line (pos v) (pos (2 * h)) cess_rate true) ∙ f) in
      rw (← here, ← there) (heads_near v h)
