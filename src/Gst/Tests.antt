-- ===== src/Gst/Tests.antt =====
-- Tax on small documents, and what the theorems say of it.
use distribuitor_app.Prelude.{
  ◌≡◌, refl, true, false, pos, ◌+ℤ◌, ◌-ℤ◌, ◌*ℤ◌, ◌≤ℤ◌, none, some, [], ◌∷◌,
}
use distribuitor_app.Prelude.Results.{ok}
use distribuitor_app.Decimal.Scaled.{scaled_decimal}
use distribuitor_app.Money.{whole, sum}
use distribuitor_app.Gst.{TaxLineResult, compute_line, compute_document}
use distribuitor_app.Gst.Line.{
  line_input, tax_on, half_rate, compute_line_heads, compute_line_split,
}
use distribuitor_app.Gst.Document.{whole_rupees, compute_document_totals}

-- 999.99 at 18 %, within the state and between states: 90.00 and 90.00, or 180.00.
abbrev intra_line : TaxLineResult
intra_line = record {
  taxable_value = pos 9_999_900;
  gst_rate = whole 18;
  cgst = whole 90;
  sgst = whole 90;
  igst = pos 0;
  cess = pos 0;
  total_tax = whole 180;
  line_total = pos 11_799_900;
}

abbrev inter_line : TaxLineResult
inter_line = record intra_line { cgst = pos 0; sgst = pos 0; igst = whole 180 }

intra_run : compute_line (line_input (pos 9_999_900) (whole 18) none) false ≡ ok intra_line
unfolding compute_line ◌*ℤ◌ ◌+ℤ◌
intra_run = refl

inter_run : compute_line (line_input (pos 9_999_900) (whole 18) none) true ≡ ok inter_line
unfolding compute_line ◌*ℤ◌ ◌+ℤ◌
inter_run = refl

-- 1179.99 rounds up to 1180.00.
document_run : (compute_document (intra_line ∷ [])).round_off ≡ pos 100
unfolding compute_document sum ◌*ℤ◌ ◌+ℤ◌ ◌-ℤ◌
document_run = refl

intra_taxed :
    intra_line.total_tax ≡ intra_line.cgst +ℤ intra_line.sgst +ℤ intra_line.igst +ℤ intra_line.cess
unfolding ◌+ℤ◌
intra_taxed = refl

compute_line_heads_example :
    (line : TaxLineResult) × (compute_line
        (line_input (pos 9_999_900) (whole 18) (some (whole 1)))
        false
      ≡ ok line)
    × (line.total_tax ≡ line.cgst +ℤ line.sgst +ℤ line.igst +ℤ line.cess)
    × (line.line_total ≡ line.taxable_value +ℤ line.total_tax)
    × (line.cgst ≡ line.sgst)
    × (line.cgst ≡ tax_on (pos 9_999_900) (half_rate (whole 18)))
    × (line.igst ≡ pos 0)
    × (line.cess ≡ tax_on (pos 9_999_900) (whole 1))
compute_line_heads_example = compute_line_heads (pos 9_999_900) (whole 18) (some (whole 1)) false

compute_line_split_example :
    (inter_line.igst ≤ℤ intra_line.cgst +ℤ intra_line.sgst +ℤ pos 100)
    × (intra_line.cgst +ℤ intra_line.sgst ≤ℤ inter_line.igst +ℤ pos 100)
compute_line_split_example =
    compute_line_split 9_999_900 90_000 none intra_line inter_line intra_run inter_run

compute_document_totals_example :
    let doc = compute_document (intra_line ∷ intra_line ∷ []) in
    (doc.total_tax ≡ whole 180 +ℤ (whole 180 +ℤ pos 0))
    × (doc.taxable_value ≡ pos 9_999_900 +ℤ (pos 9_999_900 +ℤ pos 0))
    × (doc.net_total ≡ doc.taxable_value +ℤ doc.total_tax)
    × (doc.grand_total ≡ whole_rupees doc.net_total)
    × (doc.grand_total ≡ doc.net_total +ℤ doc.round_off)
    × (doc.round_off ≤ℤ pos 5000)
    × (pos 0 ≤ℤ doc.round_off +ℤ pos 5000)
compute_document_totals_example =
    compute_document_totals (intra_line ∷ intra_line ∷ []) (intra_taxed, (intra_taxed, tt))
