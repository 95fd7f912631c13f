-- ===== src/Payments/Repeats.antt =====
-- The transaction of `verify` on a payment that was loaded before it.
use distribuitor_app.Prelude.{
  ℕ, suc, List, ◌∷◌, ◌≡◌, refl, ap, ◌∙◌, Bool, if◌then◌else◌, inl, inr, true, false, pos, ◌+ℤ◌,
  ◌-ℤ◌, ◌≤ℤ◌, ltb_ℤ, eqb_ℤ, some, arith, Bool-cases,
}
use distribuitor_app.Prelude.Results.{ok}
use distribuitor_app.Decimal.{Decimal}
use distribuitor_app.Decimal.Laws.{
  is_zero_amount, less_than_zero, greater_than_zero, to_fixed_amount,
}
use distribuitor_app.Money.{Amount, money, to_string, is_positive}
use distribuitor_app.Statuses.Invoices.{
  PartyType, distributor, customer, EntryType, payment, tds, verified, ledger_entry_sides,
}
use distribuitor_app.Finance.{
  Books, LedgerEntry, row_of, post, named_type, named_id, party_exists, is_allowed_side,
}
use distribuitor_app.Finance.Rows.{HasOneParty}
use distribuitor_app.Finance.Postings.{signed_total}
use distribuitor_app.Settlement.{Payment, PaymentAct, Accounts, find_payment, update_payment_row}
use distribuitor_app.Payments.{
  audited_payment, credit_post, post_credits, post_tds, marked_verified, refuses_payment,
  save_payment, verify_loaded,
}
use distribuitor_app.Payments.Invariant.{payment_share}
use distribuitor_app.Payments.Verification.{verify_loaded_credits}

-- The party that a payment names exists.
abbrev pub HasParty : Payment → ℕ → Books → Type 0
HasParty p party books =
    (named_id p.distributor_id p.customer_id ≡ some party)
    × (party_exists (named_type p.distributor_id) party books ≡ true)

abbrev with_entries : Books → ℕ → List LedgerEntry → Books
with_entries books next entries = record books { next_id = next; entries = entries }

party_kept :
    (kind : PartyType) (party : ℕ) (books : Books) (next : ℕ) (entries : List LedgerEntry)
    → party_exists kind party books ≡ true
    → party_exists kind party (with_entries books next entries) ≡ true
party_kept distributor party books next entries e = e
party_kept customer party books next entries e = e

abbrev credited_books : ℕ → Payment → EntryType → Amount → ℕ → ℕ → Books → Books
credited_books now p type amount actor party books = with_entries books (suc books.next_id) (
    row_of now (credit_post p type amount actor) books.next_id (pos 0) amount party ∷ books.entries)

save_succeeds :
    (id : ℕ) (f : Payment → Payment) (accounts : Accounts) (p : Payment)
    → find_payment id accounts.payments ≡ some p
    → refuses_payment (f p) ≡ false
    → save_payment id f accounts
      ≡ ok (f p, record accounts { payments = update_payment_row id f accounts.payments })
save_succeeds id f accounts p found fine = rw (save_payment, found) (rw fine refl)

module _ ⦃dec : Decimal⦄ where
  abbrev verified_accounts : ℕ → Payment → ℕ → Accounts → Books → Accounts
  verified_accounts now loaded actor accounts books =
      audited_payment PaymentAct.verified loaded.id (record accounts {
        payments = update_payment_row loaded.id (marked_verified now actor) accounts.payments;
        books = books;
      })

  credit_succeeds :
      (now : ℕ) (p : Payment) (type : EntryType) (amount : Amount) (actor party : ℕ) (books : Books)
      → is_allowed_side type false ≡ true
      → pos 1 ≤ℤ amount
      → HasParty p party books
      → (id : ℕ) × (new : Books) × (post now (credit_post p type amount actor) books ≡ ok (id, new))
        × HasParty p party new
  unfolding post
  credit_succeeds now p type amount actor party books side positive (named, there) =
      let nonzero : eqb_ℤ amount (pos 0) ≡ false = ground arith in
      let nonneg : ltb_ℤ amount (pos 0) ≡ false = ground arith in
      (
        books.next_id,
        credited_books now p type amount actor party books,
        simp (
          is_zero_amount, less_than_zero, greater_than_zero, to_fixed_amount, nonzero, nonneg, side,
          named, there,
        ),
        (named, party_kept (named_type p.distributor_id) party books _ _ there),
      )

  tds_posted :
      (now : ℕ) (p : Payment) (actor id : ℕ) (cash both : Books) (positive : Bool)
      → is_positive (money p.tds_amount) ≡ positive
      → (if positive
          then (post now (credit_post p tds (to_string (money p.tds_amount)) actor) cash
              ≡ ok (id, both))
          else (cash ≡ both))
      → post_tds now p actor cash ≡ ok both
  tds_posted now p actor id cash both true e posted = rw (post_tds, e) (rw posted refl)
  tds_posted now p actor id cash both false e posted = rw (post_tds, e) (ap (λ b. ok b) posted)

  tds_succeeds :
      (now : ℕ) (p : Payment) (actor party : ℕ) (cash : Books)
      → pos 0 ≤ℤ p.tds_amount
      → HasParty p party cash
      → (both : Books) × (post_tds now p actor cash ≡ ok both)
  unfolding ledger_entry_sides
  tds_succeeds now p actor party cash nonnegative has =
      elim (Bool-cases (ltb_ℤ (pos 0) p.tds_amount)) [
        | inl deducted ↦
            let (id, both, credited, _) =
              credit_succeeds now p tds p.tds_amount actor party cash refl (ground arith) has in
            (
              both,
              tds_posted now p actor id cash both true (greater_than_zero p.tds_amount ∙ deducted)
                  (rw (to_fixed_amount p.tds_amount) credited),
            )
        | inr nothing ↦ (
          cash,
          tds_posted now p actor 0 cash cash false (greater_than_zero p.tds_amount ∙ nothing) refl,
        )
      ]

  credits_succeed :
      (now : ℕ) (p : Payment) (actor party : ℕ) (books : Books)
      → pos 1 ≤ℤ p.amount
      → pos 0 ≤ℤ p.tds_amount
      → HasParty p party books
      → (new : Books) × (post_credits now p actor books ≡ ok new)
  unfolding ledger_entry_sides
  credits_succeed now p actor party books positive nonnegative has =
      let (id, cash, paid, has_still) =
        credit_succeeds now p payment p.amount actor party books refl positive has in
      let (both, rest) = tds_succeeds now p actor party cash nonnegative has_still in
      (both, rw (to_fixed_amount p.amount, paid) rest)

  -- Whatever has become of the row of a payment since it was loaded, the transaction of a verification
  -- succeeds, marks it verified, and takes the amount and the tax deducted that were loaded off the
  -- balance of the party that was loaded, and of no other: when the payment is there, the database takes
  -- its row as verified, the amount is positive and the tax deducted not negative, and the one party
  -- exists.
  pub verify_loaded_succeeds :
      (now : ℕ) (loaded : Payment) (actor party : ℕ) (accounts : Accounts) (p : Payment)
      → find_payment loaded.id accounts.payments ≡ some p
      → refuses_payment (marked_verified now actor p) ≡ false
      → HasOneParty loaded.distributor_id loaded.customer_id
      → HasParty loaded party accounts.books
      → pos 1 ≤ℤ loaded.amount
      → pos 0 ≤ℤ loaded.tds_amount
      → (row : Payment) × (new : Accounts) × (verify_loaded now loaded actor accounts
          ≡ ok (row, new))
        × (row.status ≡ verified)
        × ((t : PartyType) (other : ℕ)
            → signed_total t other new.books.entries
              ≡ signed_total t other accounts.books.entries
                -ℤ payment_share t other loaded (loaded.amount +ℤ loaded.tds_amount))
  unfolding verify_loaded
  verify_loaded_succeeds now loaded actor party accounts p found fine one has positive nonnegative =
      let (books, posted) =
        credits_succeed now loaded actor party accounts.books positive nonnegative has in
      let new = verified_accounts now loaded actor accounts books in
      let saved = save_succeeds loaded.id (marked_verified now actor) accounts p found fine in
      let done : verify_loaded now loaded actor accounts ≡ ok (marked_verified now actor p, new) =
        rw (verify_loaded, saved) (rw posted refl) in
      let (status_is, moved) =
        verify_loaded_credits now loaded actor accounts new (marked_verified now actor p) one
          nonnegative done in
      (marked_verified now actor p, new, done, status_is, moved)
