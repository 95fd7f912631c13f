-- ===== src/Payments.antt =====
-- apps/api/src/modules/finance/payments.service.ts: `PaymentsService`, over the tables of `Settlement`.
-- A payment is loaded before the transaction of its operation, so each operation has a part that is
-- given the loaded row, and two callers can be interleaved. The number that the sequence draws is an
-- argument. The caller is taken to see the payment.
pub mod Allocate
pub mod Bounce
pub mod Invariant
pub mod Saved
pub mod Recorded
pub mod Receipts
pub mod Parts
pub mod Verification
pub mod Repeats
pub mod Moves
pub mod Allocations
pub mod Applied
pub mod Settling
pub mod Booked
pub mod Credited
pub mod Contraed
pub mod Restored
pub mod Bounced
pub mod Released
pub mod Reachable
pub mod Effects
mod Tests
use distribuitor_app.Prelude.{
  ℕ, suc, Bool, true, false, not, ◌&&◌, ◌||◌, ℤ, pos, ◌+ℤ◌, ltb_ℤ, Option, none, some, List, [],
  ◌∷◌, any, ◌==◌, if◌then◌else◌,
}
use distribuitor_app.Prelude.Results.{
  Result, ok, err, ◌>>=◌, ◌>>◌, throw_if, not_found, validation, conflict, immutable_record,
  self_approval, database,
}
use distribuitor_app.Decimal.{Decimal}
use distribuitor_app.Money.{Amount, Money, money, add, is_positive, to_string}
use distribuitor_app.Statuses.Invoices.{
  PartyType, distributor, customer, EntryType, payment, tds, PaymentStatus, recorded, verified,
}
use distribuitor_app.Finance.{
  Books, LedgerPost, post, or_else_amount, or_else_ℕ, party_exists, holds, named_type, named_id,
  is_set,
}
use distribuitor_app.Settlement.{
  Payment, PaymentMethod, PaymentAct, Accounts, find_payment, update_payment_row,
}

pub record CreatePayment : Type 0 where
  pub distributor_id : Option ℕ
  pub customer_id : Option ℕ
  pub method : PaymentMethod
  pub amount : Amount
  pub tds_amount : Option Amount
  pub payment_date : Option ℕ

pub record UpdatePayment : Type 0 where
  pub method : Option PaymentMethod
  pub amount : Option Amount
  pub tds_amount : Option Amount
  pub payment_date : Option ℕ

abbrev pub payment_number : PaymentStatus → ℕ
payment_number recorded = 0
payment_number verified = 1
payment_number PaymentStatus.bounced = 2
payment_number PaymentStatus.cancelled = 3

abbrev pub payment_is : PaymentStatus → PaymentStatus → Bool
payment_is s t = payment_number s == payment_number t

-- `refType: 'Payment'`.
abbrev pub payment_ref : ℕ
payment_ref = 1

-- `CHECK`s on a payment.
abbrev pub refuses_payment : Payment → Bool
refuses_payment p =
    ltb_ℤ p.amount (pos 0)
    || (ltb_ℤ p.tds_amount (pos 0)
        || (ltb_ℤ p.unallocated_amount (pos 0)
            || (ltb_ℤ (p.amount +ℤ p.tds_amount) p.unallocated_amount
                || ((if is_set p.distributor_id
                      then is_set p.customer_id
                      else not (is_set p.customer_id))
                    || holds p.verified_by_id p.recorded_by_id))))

-- `tx.payment.update`.
abbrev pub save_payment : ℕ → (Payment → Payment) → Accounts → Result (Payment × Accounts)
save_payment id f accounts = elim (find_payment id accounts.payments) [
  | none ↦ err database
  | some p ↦ do
    throw_if (refuses_payment (f p)) database
    ok (f p, record accounts { payments = update_payment_row id f accounts.payments })
]

abbrev pub audited_payment : PaymentAct → ℕ → Accounts → Accounts
audited_payment act id accounts = record accounts { audits = (act, id) ∷ accounts.audits }

-- `load`.
abbrev pub load : ℕ → Accounts → Result Payment
load id accounts = elim (find_payment id accounts.payments) [ none ↦ err not_found | some p ↦ ok p ]

-- `assertPartyVisible`.
abbrev pub assert_party_visible : Option ℕ → Option ℕ → Books → Result (Unit {0})
assert_party_visible (some d) _ books = throw_if (not (party_exists distributor d books)) not_found
assert_party_visible none (some c) books = throw_if (not (party_exists customer c books)) not_found
assert_party_visible none none books = err validation

abbrev pub credit_post : Payment → EntryType → Amount → ℕ → LedgerPost
credit_post p type credit actor = record {
  party_type = named_type p.distributor_id;
  party_id = named_id p.distributor_id p.customer_id;
  entry_type = type;
  debit = none;
  credit = some credit;
  ref_type = some payment_ref;
  ref_id = some p.id;
  ref_number = some p.number;
  reverses_id = none;
  entry_date = some p.payment_date;
  actor = some actor;
}

module _ ⦃dec : Decimal⦄ where
  abbrev pub new_payment : ℕ → ℕ → CreatePayment → ℕ → ℕ → Payment
  new_payment now number input actor id =
      let amount = money input.amount in
      let tds_amount = money (or_else_amount input.tds_amount (pos 0)) in
      record {
        id = id;
        number = number;
        status = recorded;
        distributor_id = input.distributor_id;
        customer_id = input.customer_id;
        method = input.method;
        amount = to_string amount;
        tds_amount = to_string tds_amount;
        unallocated_amount = to_string (add amount tds_amount);
        payment_date = or_else_ℕ input.payment_date now;
        recorded_by_id = actor;
        verified_by_id = none;
        verified_at = none;
        bounced_at = none;
      }

  unfoldable pub create : ℕ → ℕ → CreatePayment → ℕ → Accounts → Result (Payment × Accounts)
  create now number input actor accounts = do
    assert_party_visible input.distributor_id input.customer_id accounts.books
    let row = new_payment now number input actor accounts.next_id
    throw_if (refuses_payment row) database
    ok (
      row,
      audited_payment PaymentAct.recorded row.id
          (record accounts { payments = row ∷ accounts.payments; next_id = suc accounts.next_id }),
    )

  -- The columns that an update writes, given the row that was loaded.
  abbrev pub edited : UpdatePayment → Payment → Payment → Payment
  edited input loaded row =
      let amount = money (or_else_amount input.amount loaded.amount) in
      let tds_amount = money (or_else_amount input.tds_amount loaded.tds_amount) in
      record row {
        method = elim input.method [ none ↦ row.method | some m ↦ m ];
        amount = elim input.amount [ none ↦ row.amount | some _ ↦ to_string amount ];
        tds_amount = elim input.tds_amount [
          | none ↦ row.tds_amount
          | some _ ↦ to_string tds_amount
        ];
        unallocated_amount = to_string (add amount tds_amount);
        payment_date = or_else_ℕ input.payment_date row.payment_date;
      }

  unfoldable pub update_loaded : UpdatePayment → Payment → Accounts → Result (Payment × Accounts)
  update_loaded input loaded accounts = do
    saved ← save_payment loaded.id (edited input loaded) accounts
    ok (saved.0, audited_payment PaymentAct.updated loaded.id saved.1)

  unfoldable pub update : ℕ → UpdatePayment → Accounts → Result (Payment × Accounts)
  update id input accounts = do
    loaded ← load id accounts
    throw_if (not (payment_is loaded.status recorded)) immutable_record
    update_loaded input loaded accounts

  abbrev pub post_tds : ℕ → Payment → ℕ → Books → Result Books
  post_tds now p actor books = elim (is_positive (money p.tds_amount)) [
    | false ↦ ok books
    | true ↦ do
      deducted ← post now (credit_post p tds (to_string (money p.tds_amount)) actor) books
      ok deducted.1
  ]

  -- Cash and tax deducted at source are separate credits.
  abbrev pub post_credits : ℕ → Payment → ℕ → Books → Result Books
  post_credits now p actor books = do
    cash ← post now (credit_post p payment (to_string (money p.amount)) actor) books
    post_tds now p actor cash.1

  abbrev pub marked_verified : ℕ → ℕ → Payment → Payment
  marked_verified now actor row = record row {
    status = verified;
    verified_by_id = some actor;
    verified_at = some now;
  }

  -- The transaction of `verify`.
  unfoldable pub verify_loaded : ℕ → Payment → ℕ → Accounts → Result (Payment × Accounts)
  verify_loaded now loaded actor accounts = do
    saved ← save_payment loaded.id (marked_verified now actor) accounts
    books ← post_credits now loaded actor saved.1.books
    ok (saved.0, audited_payment PaymentAct.verified loaded.id (record saved.1 { books = books }))

  -- `verify` up to the allocations that the request may carry.
  unfoldable pub verify : ℕ → ℕ → ℕ → Accounts → Result (Payment × Accounts)
  verify now id actor accounts = do
    loaded ← load id accounts
    throw_if (not (payment_is loaded.status recorded)) conflict
    throw_if (loaded.recorded_by_id == actor) self_approval
    verify_loaded now loaded actor accounts
