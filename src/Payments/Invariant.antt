-- ===== src/Payments/Invariant.antt =====
-- What holds between payments, allocations, invoices and the ledger.
use distribuitor_app.Prelude.{
  ℕ, ◌<◌, ◌≡◌, refl, ap, sym, ◌∙◌, Bool, true, false, ◌&&◌, pos, ◌+ℤ◌, ◌-ℤ◌, ltb_ℤ, some, List, All,
  sum_by, ◌==◌, if◌then◌else◌, arith,
}
use distribuitor_app.Prelude.Results.{ok, not_found}
use distribuitor_app.Prelude.Results.Inversion.{option-ok, ok-injective}
use distribuitor_app.Money.{Amount}
use distribuitor_app.Statuses.Invoices.{
  PartyType, distributor, customer, PaymentStatus, recorded, verified,
}
use distribuitor_app.Finance.{LedgerEntry, party_where, holds}
use distribuitor_app.Finance.Postings.{signed_total}
use distribuitor_app.Settlement.{
  Payment, PaymentAllocation, Invoice, Accounts, find_payment, find_invoice,
}
use distribuitor_app.Settlement.Refresh.{is_open}
use distribuitor_app.Settlement.Invariant.{AreSettled, due}
use distribuitor_app.Payments.{load, payment_is}

-- The row that `load` returns.
pub load-found :
    (id : ℕ) (accounts : Accounts) (p : Payment)
    → load id accounts ≡ ok p
    → find_payment id accounts.payments ≡ some p
load-found id accounts p e =
    let (q, found, same) = option-ok (find_payment id accounts.payments) not_found ok e in
    found ∙ sym (ap (λ x. some x) (ok-injective same))

-- What a row takes from a payment.
abbrev pub from_payment : ℕ → PaymentAllocation → Amount
from_payment id a = if a.payment_id == id then a.amount else pos 0

-- What a payment has to give: nothing once it has bounced or is cancelled.
abbrev pub worth : Payment → Amount
worth p = elim p.status [
  | recorded ↦ p.amount +ℤ p.tds_amount
  | verified ↦ p.amount +ℤ p.tds_amount
  | PaymentStatus.bounced ↦ pos 0
  | PaymentStatus.cancelled ↦ pos 0
]

abbrev pub AreAccounted : List Payment → List PaymentAllocation → Type 0
AreAccounted payments allocations =
    (id : ℕ) (p : Payment)
    → find_payment id payments ≡ some p
    → p.unallocated_amount +ℤ sum_by (from_payment id) allocations ≡ worth p

-- An allocation is of a verified payment.
abbrev pub IsOwned : List Payment → PaymentAllocation → Type 0
IsOwned payments a =
    (p : Payment) × (find_payment a.payment_id payments ≡ some p) × (p.status ≡ verified)

-- The invoice of an allocation is neither a draft nor cancelled, and names the party of its payment.
abbrev pub IsBilled : List Payment → List Invoice → PaymentAllocation → Type 0
IsBilled payments invoices a =
    (p : Payment) (v : Invoice)
    → find_payment a.payment_id payments ≡ some p
    → find_invoice a.invoice_id invoices ≡ some v
    → (is_open v.status ≡ true)
      × (v.distributor_id ≡ p.distributor_id)
      × (v.customer_id ≡ p.customer_id)

-- What holds while allocations are being changed and the payment itself is not yet written.
pub record IsReady (accounts : Accounts) : Type 0 where
  pub settled : AreSettled accounts.invoices accounts.allocations accounts.tax_notes
  pub owned : All (IsOwned accounts.payments) accounts.allocations
  pub billed : All (IsBilled accounts.payments accounts.invoices) accounts.allocations
  pub fresh : All (λ (p : Payment). p.id < accounts.next_id) accounts.payments

pub record IsSound (accounts : Accounts) : Type 0 where
  pub ready : IsReady accounts
  pub open ready use *
  pub accounted : AreAccounted accounts.payments accounts.allocations

abbrev pub payment_where : PartyType → ℕ → Payment → Bool
payment_where distributor id p = holds p.distributor_id id
payment_where customer id p = holds p.customer_id id

-- What an amount of a payment is for a party.
abbrev pub payment_share : PartyType → ℕ → Payment → Amount → Amount
payment_share type id p amount = if payment_where type id p then amount else pos 0

-- The row of a credit counts for the party of its payment.
pub payment_where-row :
    (t : PartyType) (party : ℕ) (p : Payment) (e : LedgerEntry)
    → e.distributor_id ≡ p.distributor_id
    → e.customer_id ≡ p.customer_id
    → party_where t party e ≡ payment_where t party p
unfolding party_where
payment_where-row distributor party p e d c = rw d refl
payment_where-row customer party p e d c = rw c refl

pub zero_lem : (a : Amount) → ltb_ℤ a (pos 0) ≡ false → ltb_ℤ (pos 0) a ≡ false → a ≡ pos 0
zero_lem a h k = ground arith

-- What a verified payment holds for its party.
abbrev pub held : PartyType → ℕ → Payment → Amount
held type id p =
    if payment_is p.status verified && payment_where type id p then p.unallocated_amount else pos 0

-- What the open invoices and the receipts say that a party owes.
abbrev pub open_total : PartyType → ℕ → Accounts → Amount
open_total type id accounts =
    sum_by (due type id) accounts.invoices -ℤ sum_by (held type id) accounts.payments

-- The balance of the ledger less what the documents say.
abbrev pub gap : PartyType → ℕ → Accounts → Amount
gap type id accounts = signed_total type id accounts.books.entries -ℤ open_total type id accounts
