-- ===== src/Finance/Acts.antt =====
-- Acts on the ledger with no document of their own: `writeOff` and `adjust`. What precedes the
-- transaction is read from the same books.
use distribuitor_app.Prelude.{ℕ, Bool, not, ◌&&◌, Option, none, some, ◌∷◌, any, ◌==◌, if◌then◌else◌}
use distribuitor_app.Prelude.Results.{Result, ok, ◌>>=◌, ◌>>◌, throw_if, not_found, validation}
use distribuitor_app.Decimal.{Decimal}
use distribuitor_app.Money.{Amount, money, abs, gt, is_positive, to_string}
use distribuitor_app.Statuses.Invoices.{PartyType, opening_balance, adjustment, write_off}
use distribuitor_app.Finance.{
  LedgerEntry, LedgerPost, Books, LedgerAct, written_off, opening_posted, adjusted, post,
  balance_for, assert_write_off_approved, party_exists, party_where, entry_number, or_else_ℕ,
}

pub record WriteOff : Type 0 where
  pub party_type : PartyType
  pub party_id : ℕ
  pub amount : Amount
  pub entry_date : Option ℕ
  pub actor : ℕ
  pub approved_by : Option ℕ

pub record Adjustment : Type 0 where
  pub party_type : PartyType
  pub party_id : ℕ
  pub amount : Amount
  pub entry_date : Option ℕ
  pub is_opening_balance : Bool
  pub actor : ℕ

abbrev pub audited : LedgerAct → ℕ → Books → Books
audited act id books = record books { audits = (act, id) ∷ books.audits }

abbrev pub is_opening_of : PartyType → ℕ → LedgerEntry → Bool
is_opening_of type id e =
    party_where type id e && entry_number e.entry_type == entry_number opening_balance

module _ ⦃dec : Decimal⦄ where
  abbrev pub write_off_post : ℕ → WriteOff → LedgerPost
  write_off_post now input = record {
    party_type = input.party_type;
    party_id = some input.party_id;
    entry_type = write_off;
    debit = none;
    credit = some (to_string (money input.amount));
    ref_type = none;
    ref_id = none;
    ref_number = none;
    reverses_id = none;
    entry_date = some (or_else_ℕ input.entry_date now);
    actor = some input.actor;
  }

  -- The id of the row and the balance that is left, with the new books.
  unfoldable pub write_off_balance : ℕ → WriteOff → Books → Result ((ℕ × Amount) × Books)
  write_off_balance now input books = do
    let amount = money input.amount
    throw_if (gt amount (balance_for input.party_type input.party_id books)) validation
    assert_write_off_approved amount input.actor input.approved_by books
    posted ← post now (write_off_post now input) books
    let after = audited written_off posted.0 posted.1
    ok ((posted.0, to_string (balance_for input.party_type input.party_id after)), after)

  abbrev pub adjust_post : ℕ → Adjustment → LedgerPost
  adjust_post now input =
      let amount = money input.amount in
      record {
        party_type = input.party_type;
        party_id = some input.party_id;
        entry_type = if input.is_opening_balance then opening_balance else adjustment;
        debit = if is_positive amount then some (to_string amount) else none;
        credit = if is_positive amount then none else some (to_string (abs amount));
        ref_type = none;
        ref_id = none;
        ref_number = none;
        reverses_id = none;
        entry_date = some (or_else_ℕ input.entry_date now);
        actor = some input.actor;
      }

  unfoldable pub adjust : ℕ → Adjustment → Books → Result ((ℕ × Amount) × Books)
  adjust now input books = do
    throw_if (not (party_exists input.party_type input.party_id books)) not_found
    throw_if
        (input.is_opening_balance
          && any (is_opening_of input.party_type input.party_id) books.entries)
        validation
    posted ← post now (adjust_post now input) books
    let act = if input.is_opening_balance then opening_posted else adjusted
    let after = audited act posted.0 posted.1
    ok ((posted.0, to_string (balance_for input.party_type input.party_id after)), after)
