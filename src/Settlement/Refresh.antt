-- ===== src/Settlement/Refresh.antt =====
-- What `refreshSettlement` writes, over the sums of the rows that settle an invoice.
use distribuitor_app.Prelude.{
  ℕ, ◌≡◌, refl, ap, ◌∙◌, inl, inr, Bool, false, ◌&&◌, not, pos, ◌+ℤ◌, ◌-ℤ◌, some, List, [], ◌∷◌,
  map, select, sum_by, ◌==◌, if◌then◌else◌, arith, int_laws, +ℤ_assoc, zero_+ℤ, Bool-cases,
}
use distribuitor_app.Prelude.Results.{ok, database}
use distribuitor_app.Decimal.{Decimal}
use distribuitor_app.Decimal.Laws.{plus_amounts, minus_amounts, to_fixed_amount}
use distribuitor_app.Money.{Amount, Money, money}
use distribuitor_app.Money.Allocation.{total}
use distribuitor_app.Statuses.Invoices.{InvoiceStatus, invoice_is}
use distribuitor_app.Prelude.Results.Inversion.{throw_if-ok, option-ok, pair-ok}
use distribuitor_app.Settlement.{
  PaymentAllocation, Invoice, signed_note, TaxNote, TaxNoteType, Accounts, find_invoice,
  update_invoice_row, refuses_invoice, settled_as, is_issued_note, credited_from, settled_status,
  refreshed, refresh_settlement,
}

-- What a row adds to the payments of an invoice.
abbrev pub to_invoice : ℕ → PaymentAllocation → Amount
to_invoice id a = if a.invoice_id == id then a.amount else pos 0

-- What a note adds to the credits of an invoice.
abbrev pub note_amount : TaxNote → Amount
note_amount n = elim n.type [
  | TaxNoteType.credit ↦ n.grand_total
  | TaxNoteType.debit ↦ pos 0 -ℤ n.grand_total
]

abbrev pub note_credit : ℕ → TaxNote → Amount
note_credit id n = if is_issued_note id n then note_amount n else pos 0

total-to_invoice :
    (id : ℕ) (rows : List PaymentAllocation)
    → total (
        map
          (λ (a : PaymentAllocation). a.amount)
          (select (λ (a : PaymentAllocation). a.invoice_id == id) rows))
      ≡ sum_by (to_invoice id) rows
total-to_invoice id [] = refl
total-to_invoice id (a ∷ rest) = elim (Bool-cases (a.invoice_id == id)) [
  | inl mine ↦ rw (mine, total-to_invoice id rest) refl
  | inr other ↦ rw (other, zero_+ℤ) (total-to_invoice id rest)
]

-- An invoice that is neither a draft nor cancelled.
abbrev pub is_open : InvoiceStatus → Bool
is_open s = not (invoice_is s InvoiceStatus.draft) && not (invoice_is s InvoiceStatus.cancelled)

-- What a successful refresh has found and done.
pub record IsRefreshed ⦃dec : Decimal⦄ (id : ℕ) (accounts new : Accounts) : Type 0 where
  pub invoice : Invoice
  pub found : find_invoice id accounts.invoices ≡ some invoice
  pub fits : refuses_invoice (refreshed invoice accounts) ≡ false
  pub stored : new ≡ record accounts {
    invoices = update_invoice_row id (settled_as (refreshed invoice accounts)) accounts.invoices;
  }

module _ ⦃dec : Decimal⦄ where
  signed_note_lem :
      (sum : Amount) (n : TaxNote) → signed_note n (money sum) ≡ money (sum +ℤ note_amount n)
  signed_note_lem sum n = go n.type
    where
      go :
          (type : TaxNoteType)
          → signed_note (record n { type = type }) (money sum)
            ≡ money (sum +ℤ note_amount (record n { type = type }))
      go TaxNoteType.credit = plus_amounts sum n.grand_total
      go TaxNoteType.debit = minus_amounts sum n.grand_total ∙ ap money (omega int_laws)

  settled_status-is_open :
      (s : InvoiceStatus) (x y : Money) → is_open (settled_status s x y) ≡ is_open s
  settled_status-is_open InvoiceStatus.draft x y = refl
  settled_status-is_open InvoiceStatus.cancelled x y = refl
  settled_status-is_open InvoiceStatus.issued x y = ground arith
  settled_status-is_open InvoiceStatus.partially_paid x y = ground arith
  settled_status-is_open InvoiceStatus.paid x y = ground arith

  credited_from-note_credit :
      (id : ℕ) (sum : Amount) (notes : List TaxNote)
      → credited_from (money sum) (select (is_issued_note id) notes)
        ≡ money (sum +ℤ sum_by (note_credit id) notes)
  credited_from-note_credit id sum [] = ap money (omega int_laws)
  credited_from-note_credit id sum (n ∷ rest) = elim (Bool-cases (is_issued_note id n)) [
    | inl mine ↦ rw mine (
        ap (λ (x : Money). credited_from x (select (is_issued_note id) rest))
          (signed_note_lem sum n)
        ∙ credited_from-note_credit id (sum +ℤ note_amount n) rest
        ∙ ap money (+ℤ_assoc sum (note_amount n) _))
    | inr other ↦ rw (other, zero_+ℤ) (credited_from-note_credit id sum rest)
  ]

  pub refreshed-paid :
      (v : Invoice) (accounts : Accounts)
      → (refreshed v accounts).amount_paid ≡ sum_by (to_invoice v.id) accounts.allocations
  refreshed-paid v accounts = rw (to_fixed_amount, total-to_invoice v.id accounts.allocations) refl

  pub refreshed-credited :
      (v : Invoice) (accounts : Accounts)
      → (refreshed v accounts).amount_credited ≡ sum_by (note_credit v.id) accounts.tax_notes
  refreshed-credited v accounts =
      rw (credited_from-note_credit v.id (pos 0) accounts.tax_notes, to_fixed_amount, zero_+ℤ) refl

  pub refreshed-is_open :
      (v : Invoice) (accounts : Accounts) → is_open (refreshed v accounts).status ≡ is_open v.status
  refreshed-is_open v accounts = settled_status-is_open v.status _ _

  pub refresh_settlement-IsRefreshed :
      (id : ℕ) (accounts new : Accounts) (status : InvoiceStatus)
      → refresh_settlement id accounts ≡ ok (status, new)
      → IsRefreshed id accounts new
  unfolding refresh_settlement
  refresh_settlement-IsRefreshed id accounts new status e =
      let (v, found, g) = option-ok (find_invoice id accounts.invoices) database _ e in
      let (fits, done) = throw_if-ok (refuses_invoice (refreshed v accounts)) database _ g in
      record { invoice = v; found = found; fits = fits; stored = (pair-ok done).1 }
