-- ===== src/Finance/Statements.antt =====
-- `statement`: an account of a party between two dates with a running balance.
pub mod Running
use distribuitor_app.Prelude.{
  ℕ, suc, ◌+◌, ◌≡◌, refl, sym, ap, ◌∙◌, inl, inr, Bool, true, false, not, ◌&&◌, ◌||◌, ℤ, pos, ◌+ℤ◌,
  ◌-ℤ◌, Option, none, some, List, [], ◌∷◌, length, find_first, select, map, ◌==◌, ltb, leb,
  if◌then◌else◌, arith, int_laws, Bool-cases,
}
use distribuitor_app.Prelude.Results.{Result, ok, err, ◌>>=◌, ◌>>◌, throw_if, not_found}
use distribuitor_app.Decimal.{Decimal}
use distribuitor_app.Decimal.Laws.{plus_amounts, minus_amounts, to_fixed_amount}
use distribuitor_app.Money.{Amount, Money, money, zero_money, add, subtract, sum, to_string}
use distribuitor_app.Money.Allocation.{total, sum-total}
use distribuitor_app.Statuses.Invoices.{PartyType, distributor, customer, EntryType}
use distribuitor_app.Finance.{
  LedgerEntry, Books, balance_of, party_where, party_exists, entry_number, Distributor,
}
use distribuitor_app.Finance.Postings.{signed_total}

pub record StatementQuery : Type 0 where
  pub from : Option ℕ
  pub to : Option ℕ
  pub entry_type : Option EntryType

pub record StatementRow : Type 0 where
  pub entry : LedgerEntry
  pub running_balance : Amount

pub record Statement : Type 0 where
  pub opening_balance : Amount
  pub total_debits : Amount
  pub total_credits : Amount
  pub closing_balance : Amount
  pub available_credit : Option Amount
  pub entry_count : ℕ
  pub rows : List StatementRow

abbrev pub from_passes : Option ℕ → LedgerEntry → Bool
from_passes none e = true
from_passes (some from) e = leb from e.entry_date

abbrev pub to_passes : Option ℕ → LedgerEntry → Bool
to_passes none e = true
to_passes (some to) e = leb e.entry_date to

abbrev pub type_passes : Option EntryType → LedgerEntry → Bool
type_passes none e = true
type_passes (some type) e = entry_number e.entry_type == entry_number type

abbrev pub is_listed : PartyType → ℕ → StatementQuery → LedgerEntry → Bool
is_listed type id query e =
    party_where type id e
    && (from_passes query.from e && (to_passes query.to e && type_passes query.entry_type e))

-- `orderBy: [{ entryDate: 'asc' }, { id: 'asc' }]`.
abbrev is_earlier : LedgerEntry → LedgerEntry → Bool
is_earlier a b = ltb a.entry_date b.entry_date || a.entry_date == b.entry_date && leb a.id b.id

insert_entry : LedgerEntry → List LedgerEntry → List LedgerEntry
insert_entry a [] = a ∷ []
insert_entry a (b ∷ rest) = if is_earlier a b then a ∷ b ∷ rest else b ∷ insert_entry a rest

sort_entries : List LedgerEntry → List LedgerEntry
sort_entries [] = []
sort_entries (a ∷ rest) = insert_entry a (sort_entries rest)

-- A customer has no credit limit of its own.
abbrev credit_limit : PartyType → ℕ → Books → Option Amount
credit_limit distributor id books = elim (find_first (λ d. d.id == id) books.distributors) [
  | none ↦ none
  | some d ↦ some d.credit_limit
]
credit_limit customer id books = none

module _ ⦃dec : Decimal⦄ where
  unfoldable pub balance_before : PartyType → ℕ → ℕ → Books → Money
  balance_before type id before books =
      balance_of (select (λ e. party_where type id e && ltb e.entry_date before) books.entries)

  abbrev opening_of : PartyType → ℕ → Option ℕ → Books → Money
  opening_of type id none books = zero_money
  opening_of type id (some from) books = balance_before type id from books

  abbrev next_balance : Money → LedgerEntry → Money
  next_balance running e = subtract (add running (money e.debit)) (money e.credit)

  statement_rows : Money → List LedgerEntry → List StatementRow
  statement_rows running [] = []
  statement_rows running (e ∷ rest) =
      record { entry = e; running_balance = to_string (next_balance running e) }
      ∷ statement_rows (next_balance running e) rest

  closing : Money → List LedgerEntry → Money
  closing running [] = running
  closing running (e ∷ rest) = closing (next_balance running e) rest

  abbrev available : Option Amount → Money → Option Amount
  available none balance = none
  available (some limit) balance = some (to_string (subtract (money limit) balance))

  unfoldable pub statement : PartyType → ℕ → StatementQuery → Books → Result Statement
  unfolding sort_entries insert_entry statement_rows closing
  statement type id query books = do
    throw_if (not (party_exists type id books)) not_found
    let opening = opening_of type id query.from books
    let entries = sort_entries (select (is_listed type id query) books.entries)
    let balance = closing opening entries
    ok (record {
      opening_balance = to_string opening;
      total_debits = to_string (sum (map (λ (e : LedgerEntry). e.debit) entries));
      total_credits = to_string (sum (map (λ (e : LedgerEntry). e.credit) entries));
      closing_balance = to_string balance;
      available_credit = available (credit_limit type id books) balance;
      entry_count = length entries;
      rows = statement_rows opening entries;
    })
