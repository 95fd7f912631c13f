-- ===== src/Statuses/Invoices/Aging.antt =====
-- Overdue invoices, and the aging buckets.
use distribuitor_app.Prelude.{ℕ, ◌<◌, ◌≡◌, ◌↔◌, true, ℤ, pos, ◌≤ℤ◌, some, arith}
use distribuitor_app.Statuses.Invoices.{
  InvoiceStatus, is_overdue, outstanding_invoice_statuses, invoice_includes, AgingBucket, current,
  d0_30, d31_60, d61_90, d90_plus, aging_bucket_for,
}

-- An invoice is overdue exactly when its status still represents money owed, something is
-- outstanding, and its due day has passed.
pub is_overdue_iff :
    (due as_of : ℕ) (outstanding : ℤ) (status : InvoiceStatus)
    → (is_overdue (some due) outstanding status as_of ≡ true) ↔ (
        (invoice_includes outstanding_invoice_statuses status ≡ true)
        × (pos 1 ≤ℤ outstanding)
        × (due < as_of))
unfolding is_overdue outstanding_invoice_statuses
is_overdue_iff due as_of outstanding status = (ground arith, ground arith)

-- The least and the greatest number of days of a bucket, from the first day past due on.
abbrev InBucket : AgingBucket → ℤ → Type 0
InBucket current d = d ≤ℤ pos 0
InBucket d0_30 d = (pos 1 ≤ℤ d) × (d ≤ℤ pos 30)
InBucket d31_60 d = (pos 31 ≤ℤ d) × (d ≤ℤ pos 60)
InBucket d61_90 d = (pos 61 ≤ℤ d) × (d ≤ℤ pos 90)
InBucket d90_plus d = pos 91 ≤ℤ d

-- The buckets partition the days: a day is in the bucket that is chosen, and in no other.
pub aging_bucket_for_iff : (d : ℤ) (b : AgingBucket) → (aging_bucket_for d ≡ b) ↔ InBucket b d
unfolding aging_bucket_for
aging_bucket_for_iff d current = (ground arith, ground arith)
aging_bucket_for_iff d d0_30 = (ground arith, ground arith)
aging_bucket_for_iff d d31_60 = (ground arith, ground arith)
aging_bucket_for_iff d d61_90 = (ground arith, ground arith)
aging_bucket_for_iff d d90_plus = (ground arith, ground arith)
