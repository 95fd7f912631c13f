-- ===== src/Payments/Allocate.antt =====
-- Allocations of a verified payment to invoices: `allocate` and `removeAllocation`.
use distribuitor_app.Prelude.{
  ℕ, suc, Bool, true, false, not, ◌&&◌, ◌||◌, pos, ltb_ℤ, leb_ℤ, Option, none, some, List, [], ◌∷◌,
  map, find_first, update_first, delete_first, ◌==◌, if◌then◌else◌,
}
use distribuitor_app.Prelude.Results.{
  Result, ok, err, ◌>>=◌, ◌>>◌, throw_if, not_found, validation, conflict, database,
}
use distribuitor_app.Decimal.{Decimal}
use distribuitor_app.Money.{
  Amount, Money, money, zero_money, add, subtract, multiply, divide, round, gt, is_zero, sum,
  to_string,
}
use distribuitor_app.Statuses.Invoices.{verified, InvoiceStatus, invoice_is}
use distribuitor_app.Settlement.{
  Payment, PaymentAllocation, PaymentAct, Accounts, find_payment, find_invoice, refresh_settlement,
}
use distribuitor_app.Payments.{load, payment_is, save_payment, audited_payment, verify}

pub record AllocationRequest : Type 0 where
  pub invoice_id : ℕ
  pub amount : Amount

-- `===` of two nullable ids.
abbrev pub same_id : Option ℕ → Option ℕ → Bool
same_id none none = true
same_id (some a) (some b) = a == b
same_id _ _ = false

-- The `CHECK` on an allocation.
abbrev pub refuses_allocation : PaymentAllocation → Bool
refuses_allocation a =
    leb_ℤ a.amount (pos 0) || (ltb_ℤ a.tds_portion (pos 0) || ltb_ℤ a.amount a.tds_portion)

-- `SELECT unallocated_amount … FOR UPDATE`.
abbrev pub unallocated_of : ℕ → Accounts → Amount
unallocated_of id accounts = elim (find_payment id accounts.payments) [
  | none ↦ pos 0
  | some p ↦ p.unallocated_amount
]

abbrev pub is_pair : ℕ → ℕ → PaymentAllocation → Bool
is_pair payment_id invoice_id a = a.payment_id == payment_id && a.invoice_id == invoice_id

abbrev pub is_row : ℕ → ℕ → PaymentAllocation → Bool
is_row id payment_id a = a.id == id && a.payment_id == payment_id

module _ ⦃dec : Decimal⦄ where
  -- The share of the tax deducted at source, in proportion to the amount.
  abbrev pub tds_portion_of : Payment → Money → Result Money
  tds_portion_of p amount =
      let total_value = add (money p.amount) (money p.tds_amount) in
      if is_zero total_value then ok zero_money else (do
        share ← divide (multiply (money p.tds_amount) (to_string amount)) (to_string total_value)
        ok (round 4 share))

  abbrev pub grown : Money → Money → PaymentAllocation → PaymentAllocation
  grown amount portion a = record a {
    amount = to_string (add (money a.amount) amount);
    tds_portion = to_string (add (money a.tds_portion) portion);
  }

  abbrev pub new_allocation : ℕ → ℕ → ℕ → Money → Money → ℕ → PaymentAllocation
  new_allocation id payment_id invoice_id amount portion actor = record {
    id = id;
    payment_id = payment_id;
    invoice_id = invoice_id;
    amount = to_string amount;
    tds_portion = to_string portion;
    created_by_id = actor;
  }

  -- One row for a payment and an invoice: a second allocation adds to it.
  abbrev pub put_allocation : ℕ → ℕ → Money → Money → ℕ → Accounts → Result Accounts
  put_allocation payment_id invoice_id amount portion actor accounts =
      elim (find_first (is_pair payment_id invoice_id) accounts.allocations) [
        | some existing ↦ do
          throw_if (refuses_allocation (grown amount portion existing)) database
          ok (record accounts {
            allocations =
                update_first (is_pair payment_id invoice_id) (grown amount portion)
                  accounts.allocations;
          })
        | none ↦ do
          let row = new_allocation accounts.next_id payment_id invoice_id amount portion actor
          throw_if (refuses_allocation row) database
          ok (record accounts {
            allocations = row ∷ accounts.allocations;
            next_id = suc accounts.next_id;
          })
      ]

  unfoldable pub allocate_one : Payment → ℕ → AllocationRequest → Accounts → Result Accounts
  allocate_one p actor request accounts = elim (find_invoice request.invoice_id accounts.invoices) [
    | none ↦ err not_found
    | some invoice ↦ do
      throw_if (invoice_is invoice.status InvoiceStatus.draft) conflict
      throw_if (invoice_is invoice.status InvoiceStatus.cancelled) conflict
      throw_if
          (not (
            same_id invoice.distributor_id p.distributor_id
            && same_id invoice.customer_id p.customer_id))
          validation
      let amount = money request.amount
      throw_if (gt amount (money invoice.amount_outstanding)) validation
      portion ← tds_portion_of p amount
      put ← put_allocation p.id request.invoice_id amount portion actor accounts
      settled ← refresh_settlement request.invoice_id put
      ok settled.1
  ]

  unfoldable pub allocate_each : Payment → ℕ → List AllocationRequest → Accounts → Result Accounts
  allocate_each p actor [] accounts = ok accounts
  allocate_each p actor (request ∷ rest) accounts = do
    after ← allocate_one p actor request accounts
    allocate_each p actor rest after

  -- The transaction of `allocate`.
  unfoldable pub allocate_loaded :
      Payment → List AllocationRequest → ℕ → Accounts → Result (Payment × Accounts)
  allocate_loaded p requests actor accounts = do
    let requested = sum (map (λ (r : AllocationRequest). r.amount) requests)
    let available = money (unallocated_of p.id accounts)
    throw_if (gt requested available) validation
    applied ← allocate_each p actor requests accounts
    let left = to_string (subtract available requested)
    saved ← save_payment p.id (λ row. record row { unallocated_amount = left }) applied
    ok (saved.0, audited_payment PaymentAct.allocated p.id saved.1)

  unfoldable pub allocate : ℕ → List AllocationRequest → ℕ → Accounts → Result (Payment × Accounts)
  allocate id requests actor accounts = do
    loaded ← load id accounts
    throw_if (not (payment_is loaded.status verified)) conflict
    allocate_loaded loaded requests actor accounts

  unfoldable pub remove_allocation : ℕ → ℕ → Accounts → Result (Payment × Accounts)
  remove_allocation payment_id allocation_id accounts = do
    loaded ← load payment_id accounts
    let available = money (unallocated_of payment_id accounts)
    elim (find_first (is_row allocation_id payment_id) accounts.allocations) [
      | none ↦ err not_found
      | some allocation ↦ do
        let rows = delete_first (is_row allocation_id payment_id) accounts.allocations
        settled ← refresh_settlement allocation.invoice_id (record accounts { allocations = rows })
        let left = to_string (add available (money allocation.amount))
        saved ← save_payment payment_id (λ row. record row { unallocated_amount = left }) settled.1
        ok (saved.0, audited_payment PaymentAct.allocation_removed payment_id saved.1)
    ]

  -- `verify` with the allocations of the request, which are a second transaction: when it fails, the
  -- verification stands. The accounts that are left, and what the caller is told.
  unfoldable pub verify_and_allocate :
      ℕ → ℕ → List AllocationRequest → ℕ → Accounts → Accounts × Result Payment
  verify_and_allocate now id requests actor accounts = elim (verify now id actor accounts) [
    | err e ↦ (accounts, err e)
    | ok done ↦ elim requests [
      | [] ↦ (done.1, ok done.0)
      | first ∷ rest ↦ elim (allocate id (first ∷ rest) actor done.1) [
        | err e ↦ (done.1, err e)
        | ok more ↦ (more.1, ok more.0)
      ]
    ]
  ]
