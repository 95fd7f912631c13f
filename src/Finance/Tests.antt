-- ===== src/Finance/Tests.antt =====
-- A small ledger, and what the theorems say of it.
use distribuitor_app.Prelude.{
  ℕ, true, inr, arith, ◌≡◌, refl, pos, ◌+ℤ◌, ◌-ℤ◌, ◌*ℤ◌, ◌≤ℤ◌, none, some, [], ◌∷◌, select, ltb,
  ◌&&◌,
}
use distribuitor_app.Prelude.Results.{Result, ok}
use distribuitor_app.Decimal.Scaled.{scaled_decimal}
use distribuitor_app.Money.{whole}
use distribuitor_app.Statuses.Invoices.{distributor, invoice, payment, ledger_entry_sides}
use distribuitor_app.Finance.{
  LedgerEntry, LedgerPost, Books, post, contra, mirror_of, balance_for, written_off, row_of,
  party_where, assert_write_off_approved,
}
use distribuitor_app.Finance.Reversal.{contra_cancels}
use distribuitor_app.Finance.Acts.{WriteOff, write_off_balance, write_off_post, audited}
use distribuitor_app.Finance.Postings.{signed_total, IsPosted, post-IsPosted}
use distribuitor_app.Finance.Approval.{IsApproved, write_off_balance_owed}
use distribuitor_app.Finance.Statements.{StatementQuery, Statement, statement}
use distribuitor_app.Finance.Statements.Running.{net, statement_closing}

abbrev empty_books : Books
empty_books = record {
  distributors = (record { id = 1; credit_limit = whole 1000 }) ∷ [];
  customers = [];
  entries = [];
  audits = [];
  authorisers = 8 ∷ [];
  write_off_threshold = some (whole 50);
  next_id = 0;
}

-- An invoice of 300 on the day 10, and 200 received on the day 20.
abbrev invoice_post : LedgerPost
invoice_post = record {
  party_type = distributor;
  party_id = some 1;
  entry_type = invoice;
  debit = some (whole 300);
  credit = none;
  ref_type = none;
  ref_id = none;
  ref_number = none;
  reverses_id = none;
  entry_date = some 10;
  actor = none;
}

abbrev payment_post : LedgerPost
payment_post = record invoice_post {
  entry_type = payment;
  debit = none;
  credit = some (whole 200);
  entry_date = some 20;
}

abbrev invoiced_books : Books
invoiced_books = record empty_books {
  entries = row_of 30 invoice_post 0 (whole 300) (pos 0) 1 ∷ [];
  next_id = 1;
}

abbrev paid_books : Books
paid_books = record empty_books {
  entries = row_of 30 payment_post 1 (pos 0) (whole 200) 1 ∷ invoiced_books.entries;
  next_id = 2;
}

invoice_run : post 30 invoice_post empty_books ≡ ok (0, invoiced_books)
unfolding post ledger_entry_sides ◌*ℤ◌
invoice_run = refl

payment_run : post 30 payment_post invoiced_books ≡ ok (1, paid_books)
unfolding post ledger_entry_sides ◌*ℤ◌
payment_run = refl

post-IsPosted_example : IsPosted 30 payment_post invoiced_books 1 paid_books
post-IsPosted_example = post-IsPosted 30 payment_post invoiced_books paid_books 1 payment_run

-- 60 of the 100 that are left are written off, with the approval of the user 8.
abbrev sixty : WriteOff
sixty = record {
  party_type = distributor;
  party_id = 1;
  amount = whole 60;
  entry_date = none;
  actor = 9;
  approved_by = some 8;
}

abbrev forgiven_books : Books
forgiven_books = audited written_off 2 (record paid_books {
  entries = row_of 30 (write_off_post 30 sixty) 2 (pos 0) (whole 60) 1 ∷ paid_books.entries;
  next_id = 3;
})

write_off_run : write_off_balance 30 sixty paid_books ≡ ok ((2, whole 40), forgiven_books)
unfolding write_off_balance assert_write_off_approved balance_for party_where post
    ledger_entry_sides ◌*ℤ◌ ◌+ℤ◌ ◌-ℤ◌
write_off_run = refl

write_off_balance_owed_example :
    (pos 1 ≤ℤ whole 60)
    × (whole 40 ≡ signed_total distributor 1 paid_books.entries -ℤ whole 60)
    × (pos 0 ≤ℤ whole 40)
    × (signed_total distributor 1 forgiven_books.entries ≡ whole 40)
    × IsApproved sixty paid_books
write_off_balance_owed_example =
    write_off_balance_owed 30 sixty paid_books forgiven_books 2 (whole 40) write_off_run

-- From the day 15 on.
abbrev from_fifteen : StatementQuery
from_fifteen = record { from = some 15; to = none; entry_type = none }

abbrev value_of : Result Statement → Statement
value_of (ok s) = s
value_of _ = record {
  opening_balance = pos 0;
  total_debits = pos 0;
  total_credits = pos 0;
  closing_balance = pos 0;
  available_credit = none;
  entry_count = 0;
  rows = [];
}

statement_run :
    statement distributor 1 from_fifteen paid_books
    ≡ ok (value_of (statement distributor 1 from_fifteen paid_books))
unfolding statement
statement_run = refl

statement_closing_example :
    let s = value_of (statement distributor 1 from_fifteen paid_books) in
    (s.closing_balance ≡ signed_total distributor 1 paid_books.entries)
    × (s.opening_balance
        ≡ net (select (λ e. party_where distributor 1 e && ltb e.entry_date 15) paid_books.entries))
    × (s.closing_balance ≡ s.opening_balance +ℤ (s.total_debits -ℤ s.total_credits))
statement_closing_example =
    statement_closing distributor 1 15 paid_books
      (value_of (statement distributor 1 from_fifteen paid_books)) statement_run

-- The payment, which bounced, is taken back: 300 are owed again.
abbrev payment_row : LedgerEntry
payment_row = row_of 30 payment_post 1 (pos 0) (whole 200) 1

abbrev bounced_books : Books
bounced_books = record paid_books {
  entries =
      row_of 31 (mirror_of 31 payment_row (some 9)) 2 (whole 200) (pos 0) 1 ∷ paid_books.entries;
  next_id = 3;
}

contra_run : contra 31 1 (some 9) paid_books ≡ ok (2, bounced_books)
unfolding contra post ledger_entry_sides ◌*ℤ◌
contra_run = refl

contra_cancels_example :
    (party : ℕ) × (party_where distributor party payment_row ≡ true)
    × (signed_total distributor party bounced_books.entries
        ≡ signed_total distributor party paid_books.entries -ℤ (pos 0 -ℤ whole 200))
contra_cancels_example =
    contra_cancels 31 1 (some 9) paid_books bounced_books 2 payment_row refl
      (inr (refl, omega arith)) contra_run
