-- ===== src/Payments/Bounce.antt =====
-- `bounce`: the ledger entries are mirrored and the allocations deleted.
use distribuitor_app.Prelude.{
  ℕ, Bool, not, ◌&&◌, pos, some, List, [], ◌∷◌, select, delete_first, ◌==◌,
}
use distribuitor_app.Prelude.Results.{Result, ok, ◌>>=◌, ◌>>◌, throw_if, conflict}
use distribuitor_app.Decimal.{Decimal}
use distribuitor_app.Statuses.Invoices.{verified, PaymentStatus}
use distribuitor_app.Finance.{LedgerEntry, Books, contra, holds, is_set}
use distribuitor_app.Settlement.{
  Payment, PaymentAllocation, PaymentAct, Accounts, refresh_settlement,
}
use distribuitor_app.Payments.{load, payment_is, payment_ref, save_payment, audited_payment}
use distribuitor_app.Payments.Allocate.{is_row}

-- `refType: 'Payment', refId: id, reversesId: null`.
abbrev pub is_original_of : ℕ → LedgerEntry → Bool
is_original_of id e =
    holds e.ref_type payment_ref && (holds e.ref_id id && not (is_set e.reverses_id))

module _ ⦃dec : Decimal⦄ where
  unfoldable pub contra_each : ℕ → List LedgerEntry → ℕ → Books → Result Books
  contra_each now [] actor books = ok books
  contra_each now (e ∷ rest) actor books = do
    posted ← contra now e.id (some actor) books
    contra_each now rest actor posted.1

  unfoldable pub release_each : List PaymentAllocation → Accounts → Result Accounts
  release_each [] accounts = ok accounts
  release_each (a ∷ rest) accounts = do
    let rows = delete_first (is_row a.id a.payment_id) accounts.allocations
    settled ← refresh_settlement a.invoice_id (record accounts { allocations = rows })
    release_each rest settled.1

  abbrev pub marked_bounced : ℕ → Payment → Payment
  marked_bounced now row = record row {
    status = PaymentStatus.bounced;
    bounced_at = some now;
    unallocated_amount = pos 0;
  }

  -- The transaction of `bounce`.
  unfoldable pub bounce_loaded : ℕ → ℕ → ℕ → Accounts → Result (Payment × Accounts)
  bounce_loaded now id actor accounts = do
    books ← contra_each now (select (is_original_of id) accounts.books.entries) actor accounts.books
    let contraed = record accounts { books = books }
    released ←
        release_each (select (λ (a : PaymentAllocation). a.payment_id == id) contraed.allocations)
          contraed
    saved ← save_payment id (marked_bounced now) released
    ok (saved.0, audited_payment PaymentAct.bounced id saved.1)

  unfoldable pub bounce : ℕ → ℕ → ℕ → Accounts → Result (Payment × Accounts)
  bounce now id actor accounts = do
    loaded ← load id accounts
    throw_if (not (payment_is loaded.status verified)) conflict
    bounce_loaded now id actor accounts
