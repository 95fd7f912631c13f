-- ===== src/Settlement.antt =====
-- Receipts, their allocations and the invoices that they settle: the tables of
-- apps/api/prisma/schema.prisma, what migration 0010_finance makes the database check and derive on
-- them, and `refreshSettlement` of apps/api/src/modules/finance/invoices.service.ts.
pub mod Refresh
pub mod Invariant
use distribuitor_app.Prelude.{
  ℕ, Bool, true, false, ◌&&◌, ◌||◌, ℤ, pos, ◌+ℤ◌, ◌-ℤ◌, ltb_ℤ, leb_ℤ, Option, none, some, List, [],
  ◌∷◌, map, find_first, select, update_first, ◌==◌, if◌then◌else◌,
}
use distribuitor_app.Prelude.Results.{Result, ok, err, ◌>>=◌, ◌>>◌, throw_if, database}
use distribuitor_app.Decimal.{Decimal}
use distribuitor_app.Money.{
  Amount, Money, money, zero_money, add, subtract, gte, is_positive, to_string,
}
use distribuitor_app.Money.Allocation.{total}
use distribuitor_app.Statuses.Invoices.{
  InvoiceStatus, partially_paid, paid, invoice_is, PaymentStatus,
}
use distribuitor_app.Finance.{Books}

-- `PAYMENT_METHODS`.
pub data PaymentMethod : Type 0 where
  cash cheque neft rtgs imps upi demand_draft card book_adjustment : PaymentMethod

-- `TAX_NOTE_TYPES`.
pub data TaxNoteType : Type 0 where
  credit debit : TaxNoteType

-- `TAX_NOTE_STATUSES`.
pub data TaxNoteStatus : Type 0 where
  draft issued cancelled : TaxNoteStatus

-- `Payment`, less its texts: the reference, the bank, the cheque and the notes.
pub record Payment : Type 0 where
  pub id : ℕ
  pub number : ℕ
  pub status : PaymentStatus
  pub distributor_id : Option ℕ
  pub customer_id : Option ℕ
  pub method : PaymentMethod
  pub amount : Amount
  pub tds_amount : Amount
  pub unallocated_amount : Amount
  pub payment_date : ℕ
  pub recorded_by_id : ℕ
  pub verified_by_id : Option ℕ
  pub verified_at : Option ℕ
  pub bounced_at : Option ℕ

pub record PaymentAllocation : Type 0 where
  pub id : ℕ
  pub payment_id : ℕ
  pub invoice_id : ℕ
  pub amount : Amount
  pub tds_portion : Amount
  pub created_by_id : ℕ

-- The columns of `Invoice` that settlement reads or writes.
pub record Invoice : Type 0 where
  pub id : ℕ
  pub status : InvoiceStatus
  pub distributor_id : Option ℕ
  pub customer_id : Option ℕ
  pub grand_total : Amount
  pub amount_paid : Amount
  pub amount_credited : Amount
  pub amount_outstanding : Amount

-- The columns of `TaxNote` that settlement reads.
pub record TaxNote : Type 0 where
  pub original_invoice_id : ℕ
  pub type : TaxNoteType
  pub status : TaxNoteStatus
  pub grand_total : Amount

pub data PaymentAct : Type 0 where
  recorded updated verified allocated allocation_removed bounced : PaymentAct

pub record Accounts : Type 0 where
  pub books : Books
  -- The newest first.
  pub payments : List Payment
  pub allocations : List PaymentAllocation
  pub invoices : List Invoice
  pub tax_notes : List TaxNote
  pub audits : List (PaymentAct × ℕ)
  pub next_id : ℕ

abbrev pub find_payment : ℕ → List Payment → Option Payment
find_payment id = find_first (λ p. p.id == id)

abbrev pub find_invoice : ℕ → List Invoice → Option Invoice
find_invoice id = find_first (λ i. i.id == id)

abbrev pub update_payment_row : ℕ → (Payment → Payment) → List Payment → List Payment
update_payment_row id f = update_first (λ p. p.id == id) f

abbrev pub update_invoice_row : ℕ → (Invoice → Invoice) → List Invoice → List Invoice
update_invoice_row id f = update_first (λ i. i.id == id) f

-- `CHECK`s on an invoice.
abbrev pub refuses_invoice : Invoice → Bool
refuses_invoice i =
    ltb_ℤ i.grand_total (i.amount_paid +ℤ i.amount_credited)
    || (ltb_ℤ i.amount_paid (pos 0) || ltb_ℤ i.grand_total (pos 0))

-- `invoice_outstanding_update`.
abbrev pub with_outstanding : Invoice → Invoice
with_outstanding i = record i {
  amount_outstanding = i.grand_total -ℤ i.amount_paid -ℤ i.amount_credited;
}

-- The settlement columns of a row are overwritten.
abbrev pub settled_as : Invoice → Invoice → Invoice
settled_as after i = record i {
  status = after.status;
  amount_paid = after.amount_paid;
  amount_credited = after.amount_credited;
  amount_outstanding = after.amount_outstanding;
}

abbrev pub is_issued_note : ℕ → TaxNote → Bool
is_issued_note id n =
    n.original_invoice_id == id && elim n.status [ TaxNoteStatus.issued ↦ true | _ ↦ false ]

module _ ⦃dec : Decimal⦄ where
  abbrev pub signed_note : TaxNote → Money → Money
  signed_note n sum = elim n.type [
    | TaxNoteType.credit ↦ add sum (money n.grand_total)
    | TaxNoteType.debit ↦ subtract sum (money n.grand_total)
  ]

  -- `credited.reduce`.
  abbrev pub credited_from : Money → List TaxNote → Money
  credited_from sum [] = sum
  credited_from sum (n ∷ rest) = credited_from (signed_note n sum) rest

  abbrev pub settled_status : InvoiceStatus → Money → Money → InvoiceStatus
  settled_status status settled grand_total =
      if invoice_is status InvoiceStatus.cancelled || invoice_is status InvoiceStatus.draft
      then status
      else if gte settled grand_total
      then paid
      else if is_positive settled
      then partially_paid
      else InvoiceStatus.issued

  abbrev pub refreshed : Invoice → Accounts → Invoice
  refreshed invoice accounts =
      let rows =
        select (λ (a : PaymentAllocation). a.invoice_id == invoice.id) accounts.allocations in
      let amount_paid = money (total (map (λ (a : PaymentAllocation). a.amount) rows)) in
      let amount_credited =
        credited_from zero_money (select (is_issued_note invoice.id) accounts.tax_notes) in
      with_outstanding (record invoice {
        amount_paid = to_string amount_paid;
        amount_credited = to_string amount_credited;
        status =
            settled_status invoice.status (add amount_paid amount_credited)
              (money invoice.grand_total);
      })

  unfoldable pub refresh_settlement : ℕ → Accounts → Result (InvoiceStatus × Accounts)
  refresh_settlement invoice_id accounts = elim (find_invoice invoice_id accounts.invoices) [
    | none ↦ err database
    | some invoice ↦ do
      let after = refreshed invoice accounts
      throw_if (refuses_invoice after) database
      ok (
        after.status,
        record accounts {
          invoices = update_invoice_row invoice_id (settled_as after) accounts.invoices;
        },
      )
  ]
