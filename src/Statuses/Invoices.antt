-- ===== src/Statuses/Invoices.antt =====
-- packages/contracts/src/enums.ts: invoices, payments, the party ledger's sides and aging.
pub mod Aging
use distribuitor_app.Prelude.{
  ℕ, Bool, true, false, ℤ, pos, ltb, leb_ℤ, Option, none, some, List, [], ◌∷◌, any, ◌==◌, ◌||◌,
  if◌then◌else◌,
}

pub data InvoiceStatus : Type 0 where
  draft issued partially_paid paid cancelled : InvoiceStatus

abbrev pub invoice_number : InvoiceStatus → ℕ
invoice_number draft = 0
invoice_number issued = 1
invoice_number partially_paid = 2
invoice_number paid = 3
invoice_number cancelled = 4

abbrev pub invoice_includes : List InvoiceStatus → InvoiceStatus → Bool
invoice_includes list s = any (λ t. invoice_number t == invoice_number s) list

abbrev pub invoice_is : InvoiceStatus → InvoiceStatus → Bool
invoice_is s t = invoice_number s == invoice_number t

-- `isOverdue`. Days are numbers in the order of their ISO strings, and `as_of` is the day meant by
-- "today"; the outstanding amount is a money string.
unfoldable pub is_overdue : Option ℕ → ℤ → InvoiceStatus → ℕ → Bool
is_overdue none outstanding status as_of = false
is_overdue (some due_date) outstanding status as_of =
    if invoice_is status draft || invoice_is status cancelled || invoice_is status paid
    then false
    else if leb_ℤ outstanding (pos 0)
    then false
    else ltb due_date as_of

unfoldable pub immutable_invoice_statuses : List InvoiceStatus
immutable_invoice_statuses = issued ∷ partially_paid ∷ paid ∷ cancelled ∷ []

unfoldable pub outstanding_invoice_statuses : List InvoiceStatus
outstanding_invoice_statuses = issued ∷ partially_paid ∷ []

unfoldable pub invoice_transitions : InvoiceStatus → List InvoiceStatus
invoice_transitions draft = issued ∷ []
invoice_transitions issued = partially_paid ∷ paid ∷ cancelled ∷ []
invoice_transitions partially_paid = paid ∷ issued ∷ []
invoice_transitions paid = partially_paid ∷ issued ∷ []
invoice_transitions cancelled = []

unfoldable pub can_transition_invoice : InvoiceStatus → InvoiceStatus → Bool
unfolding invoice_transitions
can_transition_invoice from to = invoice_includes (invoice_transitions from) to

pub data PaymentStatus : Type 0 where
  recorded verified bounced cancelled : PaymentStatus

pub data PartyType : Type 0 where
  distributor customer : PartyType

pub data EntryType : Type 0 where
  opening_balance invoice credit_note debit_note payment tds write_off adjustment : EntryType

pub data Side : Type 0 where
  debit credit either : Side

-- `LEDGER_ENTRY_SIDES`.
unfoldable pub ledger_entry_sides : EntryType → Side
ledger_entry_sides opening_balance = either
ledger_entry_sides invoice = debit
ledger_entry_sides credit_note = credit
ledger_entry_sides debit_note = debit
ledger_entry_sides payment = credit
ledger_entry_sides tds = credit
ledger_entry_sides write_off = credit
ledger_entry_sides adjustment = either

pub data AgingBucket : Type 0 where
  current d0_30 d31_60 d61_90 d90_plus : AgingBucket

-- `agingBucketFor`: days past the due date may be negative.
unfoldable pub aging_bucket_for : ℤ → AgingBucket
aging_bucket_for days =
    if leb_ℤ days (pos 0)
    then current
    else if leb_ℤ days (pos 30)
    then d0_30
    else if leb_ℤ days (pos 60)
    then d31_60
    else if leb_ℤ days (pos 90)
    then d61_90
    else d90_plus
