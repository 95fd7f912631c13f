-- ===== src/Payments/Tests.antt =====
-- A receipt of 98 with 2 of tax deducted: recorded, verified, allocated to an invoice of 60, bounced.
use distribuitor_app.Prelude.{
  ℕ, false, ◌≡◌, ◌≢◌, refl, subst, inl, inr, pos, ◌+ℤ◌, ◌-ℤ◌, ◌*ℤ◌, ◌≤ℤ◌, none, some, List, [], ◌∷◌,
  sum_by, ◌==◌, arith, int_laws, Bool-cases,
}
use mathlib.Core.Option.{some-injective}
use distribuitor_app.Prelude.Results.{Result, ok, err, validation}
use distribuitor_app.Decimal.Scaled.{scaled_decimal}
use distribuitor_app.Money.{whole, sum}
use distribuitor_app.Statuses.Invoices.{
  PartyType, distributor, InvoiceStatus, recorded, verified, ledger_entry_sides,
}
use distribuitor_app.Finance.{post, contra}
use distribuitor_app.Finance.Postings.{signed_total}
use distribuitor_app.Finance.Rows.{HasOneParty}
use distribuitor_app.Settlement.{
  Payment, PaymentMethod, Invoice, Accounts, find_payment, refresh_settlement,
}
use distribuitor_app.Settlement.Invariant.{IsSettledBy, due}
use distribuitor_app.Payments.{
  CreatePayment, create, verify, verify_loaded, marked_verified, refuses_payment,
}
use distribuitor_app.Payments.Allocate.{
  AllocationRequest, allocate, allocate_loaded, allocate_each, allocate_one,
}
use distribuitor_app.Payments.Bounce.{bounce, bounce_loaded, contra_each, release_each}
use distribuitor_app.Payments.Invariant.{gap, payment_share}
use distribuitor_app.Payments.Repeats.{HasParty, verify_loaded_succeeds}
use distribuitor_app.Payments.Applied.{requested_total}
use distribuitor_app.Payments.Restored.{IsRestored}
use distribuitor_app.Payments.Reachable.{Operation, IsConsistent, run, run_keeps}
use distribuitor_app.Payments.Effects.{
  verify_credits, allocate_takes, bounce_gives_back, bounce-verify,
}

abbrev bill : Invoice
bill = record {
  id = 10;
  status = InvoiceStatus.issued;
  distributor_id = some 1;
  customer_id = none;
  grand_total = whole 60;
  amount_paid = pos 0;
  amount_credited = pos 0;
  amount_outstanding = whole 60;
}

abbrev start : Accounts
start = record {
  books = record {
    distributors = (record { id = 1; credit_limit = whole 1000 }) ∷ [];
    customers = [];
    entries = [];
    audits = [];
    authorisers = [];
    write_off_threshold = none;
    next_id = 0;
  };
  payments = [];
  allocations = [];
  invoices = bill ∷ [];
  tax_notes = [];
  audits = [];
  next_id = 20;
}

bill-IsSettledBy : (id : ℕ) → IsSettledBy [] [] id bill
bill-IsSettledBy id = record {
  paid = refl;
  credited = refl;
  outstanding = omega int_laws;
  not_over_settled = omega arith;
}

start-IsConsistent : IsConsistent start
start-IsConsistent = record {
  sound = record {
    ready = record {
      settled = λ id v e. elim (Bool-cases (10 == id)) [
        | inl this ↦
            subst (λ (x : Invoice). IsSettledBy [] [] id x) (some-injective bill v (rw this at e))
              (bill-IsSettledBy id)
        | inr other ↦ absurd (let h = rw other at e in cc)
      ];
      owned = tt;
      billed = tt;
      fresh = tt;
    };
    accounted = λ id p e. absurd cc;
  };
  booked = record { entries = tt; dated = tt; credited = λ id p e. absurd cc };
}

abbrev receipt : CreatePayment
receipt = record {
  distributor_id = some 1;
  customer_id = none;
  method = PaymentMethod.neft;
  amount = whole 98;
  tds_amount = some (whole 2);
  payment_date = none;
}

abbrev sixty : AllocationRequest
sixty = record { invoice_id = 10; amount = whole 60 }

abbrev seventy : AllocationRequest
seventy = record { invoice_id = 10; amount = whole 70 }

abbrev everything : List (ℕ × Operation)
everything =
    (30, Operation.create 1 receipt 5)
    ∷ (31, Operation.verify 20 6)
    ∷ (32, Operation.allocate 20 (sixty ∷ []) 6)
    ∷ (33, Operation.bounce 20 6)
    ∷ []

run_keeps_example :
    IsConsistent (run everything start)
    × ((type : PartyType) (party : ℕ)
        → gap type party (run everything start) ≡ gap type party start)
run_keeps_example = run_keeps everything start start-IsConsistent

-- The result of a call that succeeds.
abbrev done : Result (Payment × Accounts) → Accounts
done (ok r) = r.1
done (err e) = start

abbrev row_of : Result (Payment × Accounts) → Payment
row_of (ok r) = r.0
row_of (err e) = record {
  id = 0;
  number = 0;
  status = recorded;
  distributor_id = none;
  customer_id = none;
  method = PaymentMethod.cash;
  amount = pos 0;
  tds_amount = pos 0;
  unallocated_amount = pos 0;
  payment_date = 0;
  recorded_by_id = 0;
  verified_by_id = none;
  verified_at = none;
  bounced_at = none;
}

abbrev created : Accounts
created = run ((30, Operation.create 1 receipt 5) ∷ []) start

created-IsConsistent : IsConsistent created
created-IsConsistent =
    (run_keeps ((30, Operation.create 1 receipt 5) ∷ []) start start-IsConsistent).0

abbrev checked : Accounts
checked = run ((30, Operation.create 1 receipt 5) ∷ (31, Operation.verify 20 6) ∷ []) start

checked-IsConsistent : IsConsistent checked
checked-IsConsistent =
    (run_keeps ((30, Operation.create 1 receipt 5) ∷ (31, Operation.verify 20 6) ∷ []) start
      start-IsConsistent).0

abbrev applied : Accounts
applied = run ((32, Operation.allocate 20 (sixty ∷ []) 6) ∷ []) checked

abbrev returned : Accounts
returned = run ((33, Operation.bounce 20 6) ∷ []) checked

abbrev verified_row : Payment
verified_row = row_of (verify 31 20 6 created)

abbrev applied_row : Payment
applied_row = row_of (allocate 20 (sixty ∷ []) 6 checked)

abbrev returned_row : Payment
returned_row = row_of (bounce 33 20 6 checked)

verify_run : verify 31 20 6 created ≡ ok (verified_row, checked)
unfolding create verify verify_loaded post ledger_entry_sides ◌*ℤ◌ ◌+ℤ◌ ◌-ℤ◌
verify_run = refl

verify_credits_example :
    (p : Payment) × (find_payment 20 created.payments ≡ some p)
    × (p.status ≡ recorded)
    × (p.recorded_by_id ≢ 6)
    × (verified_row.status ≡ verified)
    × ((type : PartyType) (party : ℕ)
        → signed_total type party checked.books.entries
          ≡ signed_total type party created.books.entries
            -ℤ payment_share type party p (p.amount +ℤ p.tds_amount))
verify_credits_example = verify_credits 31 20 6 created checked verified_row verify_run

allocate_run : allocate 20 (sixty ∷ []) 6 checked ≡ ok (applied_row, applied)
unfolding create verify verify_loaded post ledger_entry_sides ◌*ℤ◌ ◌+ℤ◌ ◌-ℤ◌ allocate
    allocate_loaded allocate_each allocate_one refresh_settlement sum
allocate_run = refl

allocate_takes_example :
    (p : Payment) × (find_payment 20 checked.payments ≡ some p)
    × (p.status ≡ verified)
    × (applied_row.unallocated_amount ≡ p.unallocated_amount -ℤ requested_total (sixty ∷ []))
    × (pos 0 ≤ℤ applied_row.unallocated_amount)
    × ((type : PartyType) (party : ℕ)
        → sum_by (due type party) applied.invoices
          ≡ sum_by (due type party) checked.invoices
            -ℤ payment_share type party p (requested_total (sixty ∷ [])))
allocate_takes_example =
    allocate_takes 20 (sixty ∷ []) 6 checked applied applied_row checked-IsConsistent.sound
      allocate_run

bounce_run : bounce 33 20 6 checked ≡ ok (returned_row, returned)
unfolding create verify verify_loaded post ledger_entry_sides ◌*ℤ◌ ◌+ℤ◌ ◌-ℤ◌ bounce bounce_loaded
    contra_each contra release_each
bounce_run = refl

bounce_gives_back_example : (p : Payment) × IsRestored 20 p checked returned_row returned
bounce_gives_back_example =
    bounce_gives_back 33 20 6 checked returned returned_row checked-IsConsistent bounce_run

bounce-verify_example :
    signed_total distributor 1 returned.books.entries
    ≡ signed_total distributor 1 created.books.entries
bounce-verify_example =
    bounce-verify 31 33 20 6 6 created checked returned verified_row returned_row
      created-IsConsistent verify_run bounce_run distributor 1

-- 70 is more than the invoice of 60 has outstanding.
refused_run : allocate 20 (seventy ∷ []) 6 checked ≡ err validation
unfolding create verify verify_loaded post ledger_entry_sides ◌*ℤ◌ ◌+ℤ◌ ◌-ℤ◌ allocate
    allocate_loaded allocate_each allocate_one sum
refused_run = refl

-- A second caller loaded the row before it was verified, and its transaction comes after: it succeeds.
abbrev loaded_early : Payment
loaded_early = row_of (create 30 1 receipt 5 start)

early_one_party : HasOneParty loaded_early.distributor_id loaded_early.customer_id
unfolding create ◌*ℤ◌ ◌+ℤ◌
early_one_party = refl

early_tds : pos 0 ≤ℤ loaded_early.tds_amount
unfolding create ◌*ℤ◌ ◌+ℤ◌
early_tds = omega arith

early_amount : pos 1 ≤ℤ loaded_early.amount
unfolding create ◌*ℤ◌ ◌+ℤ◌
early_amount = omega arith

early_party : HasParty loaded_early 1 checked.books
unfolding create ◌*ℤ◌ ◌+ℤ◌ verify verify_loaded post ledger_entry_sides
early_party = (refl, refl)

early_found : find_payment loaded_early.id checked.payments ≡ some verified_row
unfolding create ◌*ℤ◌ ◌+ℤ◌ verify verify_loaded post ledger_entry_sides
early_found = refl

taken_again : refuses_payment (marked_verified 32 7 verified_row) ≡ false
unfolding create verify verify_loaded post ledger_entry_sides ◌*ℤ◌ ◌+ℤ◌ ◌-ℤ◌
taken_again = refl

verify_loaded_succeeds_example :
    (row : Payment) × (new : Accounts) × (verify_loaded 32 loaded_early 7 checked ≡ ok (row, new))
    × (row.status ≡ verified)
    × ((t : PartyType) (other : ℕ)
        → signed_total t other new.books.entries
          ≡ signed_total t other checked.books.entries
            -ℤ payment_share t other loaded_early (loaded_early.amount +ℤ loaded_early.tds_amount))
verify_loaded_succeeds_example =
    verify_loaded_succeeds 32 loaded_early 7 1 checked verified_row early_found taken_again
      early_one_party early_party early_amount early_tds
