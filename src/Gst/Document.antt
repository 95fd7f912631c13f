-- ===== src/Gst/Document.antt =====
-- Documents: `GstCalculator.computeDocument`.
use distribuitor_app.Prelude.{
  ◌≡◌, refl, pos, negsuc, neg, ◌+ℤ◌, ◌-ℤ◌, ◌*ℤ◌, ◌≤ℤ◌, List, [], ◌∷◌, map, *ℤ_one, scale_laws,
  int_laws, All,
}
use distribuitor_app.Decimal.{Decimal, rounded, half_up}
use distribuitor_app.Decimal.Laws.{rounded_one, plus_amounts, to_fixed_amount}
use distribuitor_app.Money.{Amount}
use distribuitor_app.Money.Allocation.{total, sum-total}
use distribuitor_app.Gst.{TaxLineResult, compute_document}

-- The whole rupees nearest to an amount.
abbrev pub whole_rupees : Amount → Amount
whole_rupees a = rounded half_up a 10_000 *ℤ pos 10_000

-- The tax of a line is the sum of its heads.
abbrev pub IsTaxed : TaxLineResult → Type 0
IsTaxed line = line.total_tax ≡ line.cgst +ℤ line.sgst +ℤ line.igst +ℤ line.cess

heads-total :
    (lines : List TaxLineResult)
    → All IsTaxed lines
    → total (map (λ (line : TaxLineResult). line.cgst) lines)
        +ℤ total (map (λ (line : TaxLineResult). line.sgst) lines)
        +ℤ total (map (λ (line : TaxLineResult). line.igst) lines)
        +ℤ total (map (λ (line : TaxLineResult). line.cess) lines)
      ≡ total (map (λ (line : TaxLineResult). line.total_tax) lines)
heads-total [] h = omega int_laws
heads-total (line ∷ lines) h = rw (h.0, ← heads-total lines h.1) (omega int_laws)

near_whole : (a : Amount) → (a ≤ℤ whole_rupees a +ℤ pos 5000) × (whole_rupees a ≤ℤ a +ℤ pos 5000)
unfolding neg
near_whole (pos n) = (omega scale_laws, omega scale_laws)
near_whole (negsuc n) = (omega scale_laws, omega scale_laws)

abbrev IsRoundOff : Amount → Type 0
IsRoundOff a =
    let round_off = whole_rupees a -ℤ a in
    (whole_rupees a ≡ a +ℤ round_off) × (round_off ≤ℤ pos 5000) × (pos 0 ≤ℤ round_off +ℤ pos 5000)

IsRoundOff-bounds : (a : Amount) → IsRoundOff a
IsRoundOff-bounds a = let near = near_whole a in (omega int_laws, omega int_laws, omega int_laws)

module _ ⦃dec : Decimal⦄ where
  -- Of a document over lines whose tax is the sum of their heads: the total tax is the sum of the
  -- lines' taxes, the net total is the taxable values plus it, the grand total is the whole rupees
  -- nearest to that, and the round-off is the difference, at most half a rupee either way.
  pub compute_document_totals :
      (lines : List TaxLineResult)
      → All IsTaxed lines
      → let doc = compute_document lines in
        (doc.total_tax ≡ total (map (λ (line : TaxLineResult). line.total_tax) lines))
        × (doc.taxable_value ≡ total (map (λ (line : TaxLineResult). line.taxable_value) lines))
        × (doc.net_total ≡ doc.taxable_value +ℤ doc.total_tax)
        × (doc.grand_total ≡ whole_rupees doc.net_total)
        × (doc.grand_total ≡ doc.net_total +ℤ doc.round_off)
        × (doc.round_off ≤ℤ pos 5000)
        × (pos 0 ≤ℤ doc.round_off +ℤ pos 5000)
  unfolding compute_document
  compute_document_totals lines h =
      simp
        (
          sum-total,
          plus_amounts,
          to_fixed_amount,
          heads-total lines h,
          dec.to_decimal_places_of,
          dec.minus_of,
          dec.to_fixed_of,
          rounded_one,
          *ℤ_one,
        )
        (refl, refl, refl, refl, bounds.0, bounds.1, bounds.2)
    where
      net : Amount
      net =
          total (map (λ (line : TaxLineResult). line.taxable_value) lines)
          +ℤ total (map (λ (line : TaxLineResult). line.total_tax) lines)

      bounds : IsRoundOff net
      bounds = IsRoundOff-bounds net
