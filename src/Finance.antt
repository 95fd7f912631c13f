-- ===== src/Finance.antt =====
-- apps/api/src/modules/finance/ledger.service.ts: `LedgerService`, the party ledger. Dates are numbers
-- of days; names and the texts of reasons are left out. The caller is taken to see the party: the scope
-- that the Prisma client adds to reads hides all of a party's rows or none.
pub mod Acts
pub mod Postings
pub mod Approval
pub mod Reversal
pub mod Rows
pub mod Statements
mod Tests
use distribuitor_app.Prelude.{
  ℕ, zero, suc, Bool, true, false, not, ◌&&◌, ◌||◌, ℤ, pos, Option, none, some, List, [], ◌∷◌, any,
  find_first, select, map, ◌==◌, ltb, leb, if◌then◌else◌,
}
use distribuitor_app.Prelude.Results.{
  Result, ok, err, ◌>>=◌, ◌>>◌, throw_if, internal, not_found, validation, self_approval,
  permission_denied, database,
}
use distribuitor_app.Decimal.{Decimal}
use distribuitor_app.Money.{
  Amount, Money, money, zero_money, whole, add, subtract, abs, is_zero, is_negative, is_positive,
  gt, lte, to_string,
}
use distribuitor_app.Money.Allocation.{total}
use distribuitor_app.Statuses.Invoices.{
  PartyType, distributor, customer, EntryType, opening_balance, adjustment, write_off, Side, either,
  ledger_entry_sides,
}

-- `LedgerEntry`: exactly one of the two parties is set.
pub record LedgerEntry : Type 0 where
  pub id : ℕ
  pub distributor_id : Option ℕ
  pub customer_id : Option ℕ
  pub entry_type : EntryType
  pub debit : Amount
  pub credit : Amount
  pub ref_type : Option ℕ
  pub ref_id : Option ℕ
  pub ref_number : Option ℕ
  pub reverses_id : Option ℕ
  pub entry_date : ℕ
  pub created_by : Option ℕ

pub record LedgerPost : Type 0 where
  pub party_type : PartyType
  -- Nothing stands for the empty id.
  pub party_id : Option ℕ
  pub entry_type : EntryType
  pub debit : Option Amount
  pub credit : Option Amount
  pub ref_type : Option ℕ
  pub ref_id : Option ℕ
  pub ref_number : Option ℕ
  pub reverses_id : Option ℕ
  pub entry_date : Option ℕ
  pub actor : Option ℕ

pub record Distributor : Type 0 where
  pub id : ℕ
  pub credit_limit : Amount

pub data LedgerAct : Type 0 where
  written_off opening_posted adjusted : LedgerAct

pub record Books : Type 0 where
  pub distributors : List Distributor
  pub customers : List ℕ
  -- The newest first.
  pub entries : List LedgerEntry
  pub audits : List (LedgerAct × ℕ)
  -- The users whose roles hold `PAYMENT_DELETE`.
  pub authorisers : List ℕ
  -- The setting `writeOffApprovalThreshold`.
  pub write_off_threshold : Option Amount
  pub next_id : ℕ

abbrev side_number : Side → ℕ
side_number Side.debit = 0
side_number Side.credit = 1
side_number either = 2

abbrev pub entry_number : EntryType → ℕ
entry_number opening_balance = 0
entry_number EntryType.invoice = 1
entry_number EntryType.credit_note = 2
entry_number EntryType.debit_note = 3
entry_number EntryType.payment = 4
entry_number EntryType.tds = 5
entry_number write_off = 6
entry_number adjustment = 7

-- `value ?? fallback`.
abbrev pub or_else_amount : Option Amount → Amount → Amount
or_else_amount none fallback = fallback
or_else_amount (some a) fallback = a

abbrev pub or_else_ℕ : Option ℕ → ℕ → ℕ
or_else_ℕ none fallback = fallback
or_else_ℕ (some a) fallback = a

abbrev pub holds : Option ℕ → ℕ → Bool
holds none id = false
holds (some a) id = a == id

abbrev pub is_set : Option ℕ → Bool
is_set none = false
is_set (some id) = true

-- `partyWhere`.
unfoldable pub party_where : PartyType → ℕ → LedgerEntry → Bool
party_where distributor id e = holds e.distributor_id id
party_where customer id e = holds e.customer_id id

-- The party that a document names: `distributorId ? 'DISTRIBUTOR' : 'CUSTOMER'`, and its id.
abbrev pub named_type : Option ℕ → PartyType
named_type none = customer
named_type (some _) = distributor

abbrev pub named_id : Option ℕ → Option ℕ → Option ℕ
named_id none customer_id = customer_id
named_id (some d) customer_id = some d

abbrev pub distributor_column : PartyType → ℕ → Option ℕ
distributor_column distributor id = some id
distributor_column customer id = none

abbrev pub customer_column : PartyType → ℕ → Option ℕ
customer_column distributor id = none
customer_column customer id = some id

abbrev pub party_exists : PartyType → ℕ → Books → Bool
party_exists distributor id books = any (λ d. d.id == id) books.distributors
party_exists customer id books = any (λ c. c == id) books.customers

abbrev pub is_allowed_side : EntryType → Bool → Bool
is_allowed_side type is_debit =
    let expected = side_number (ledger_entry_sides type) in
    expected == side_number either
    || expected == side_number (if is_debit then Side.debit else Side.credit)

abbrev same_bool : Bool → Bool → Bool
same_bool a b = if a then b else not b

-- The row that `post` creates.
abbrev pub row_of : ℕ → LedgerPost → ℕ → Amount → Amount → ℕ → LedgerEntry
row_of now entry id debit credit party = record {
  id = id;
  distributor_id = distributor_column entry.party_type party;
  customer_id = customer_column entry.party_type party;
  entry_type = entry.entry_type;
  debit = debit;
  credit = credit;
  ref_type = entry.ref_type;
  ref_id = entry.ref_id;
  ref_number = entry.ref_number;
  reverses_id = entry.reverses_id;
  entry_date = or_else_ℕ entry.entry_date now;
  created_by = entry.actor;
}

-- The party must be named, and the database refuses a key that names no row.
create_entry : ℕ → LedgerPost → Amount → Amount → Books → Result (ℕ × Books)
create_entry now entry debit credit books = elim entry.party_id [
  | none ↦ err internal
  | some party ↦
      if party_exists entry.party_type party books
      then ok (
        books.next_id,
        record books {
          next_id = suc books.next_id;
          entries = row_of now entry books.next_id debit credit party ∷ books.entries;
        },
      )
      else err database
]

module _ ⦃dec : Decimal⦄ where
  unfoldable pub post : ℕ → LedgerPost → Books → Result (ℕ × Books)
  unfolding create_entry
  post now entry books = do
    let debit = money (or_else_amount entry.debit (pos 0))
    let credit = money (or_else_amount entry.credit (pos 0))
    throw_if (same_bool (is_zero debit) (is_zero credit)) internal
    throw_if (is_negative debit || is_negative credit) internal
    throw_if (not (is_allowed_side entry.entry_type (is_positive debit))) internal
    create_entry now entry (to_string debit) (to_string credit) books

  -- The mirror of a row, as `contra` posts it.
  abbrev pub mirror_of : ℕ → LedgerEntry → Option ℕ → LedgerPost
  mirror_of now original actor =
      let is_debit = is_positive (money original.debit) in
      record {
        party_type = named_type original.distributor_id;
        party_id = named_id original.distributor_id original.customer_id;
        entry_type = adjustment;
        debit = if is_debit then none else some (to_string (money original.credit));
        credit = if is_debit then some (to_string (money original.debit)) else none;
        ref_type = original.ref_type;
        ref_id = original.ref_id;
        ref_number = original.ref_number;
        reverses_id = some original.id;
        entry_date = some now;
        actor = actor;
      }

  unfoldable pub contra : ℕ → ℕ → Option ℕ → Books → Result (ℕ × Books)
  contra now entry_id actor books = elim (find_first (λ e. e.id == entry_id) books.entries) [
    | none ↦ err not_found
    | some original ↦ post now (mirror_of now original actor) books
  ]

  -- `SUM(debit) − SUM(credit)` of some rows; a sum of no rows is 0.
  abbrev pub balance_of : List LedgerEntry → Money
  balance_of rows =
      subtract (money (total (map (λ e. e.debit) rows))) (money (total (map (λ e. e.credit) rows)))

  unfoldable pub balance_for : PartyType → ℕ → Books → Money
  balance_for type id books = balance_of (select (party_where type id) books.entries)

  -- `finance.writeOffApprovalThreshold`, 10,000 without the setting.
  abbrev pub write_off_threshold : Books → Money
  write_off_threshold books = money (or_else_amount books.write_off_threshold (whole 10_000))

  unfoldable pub assert_write_off_approved : Money → ℕ → Option ℕ → Books → Result (Unit {0})
  assert_write_off_approved amount actor approved_by books =
      if lte amount (write_off_threshold books) then ok tt else elim approved_by [
        | none ↦ err validation
        | some approver ↦ do
          throw_if (approver == actor) self_approval
          throw_if (not (any (λ u. u == approver) books.authorisers)) permission_denied
      ]
