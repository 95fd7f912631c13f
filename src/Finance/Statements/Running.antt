-- ===== src/Finance/Statements/Running.antt =====
-- The running balance of a statement.
use distribuitor_app.Prelude.{
  ℕ, ◌≡◌, refl, sym, ap, ◌∙◌, inl, inr, true, false, not, ◌&&◌, pos, ◌+ℤ◌, ◌-ℤ◌, none, some, List,
  [], ◌∷◌, select, map, ltb, leb, arith, int_laws, Bool-cases,
}
use distribuitor_app.Prelude.Results.{ok, not_found}
use distribuitor_app.Prelude.Results.Inversion.{throw_if-ok}
use distribuitor_app.Decimal.{Decimal}
use distribuitor_app.Decimal.Laws.{plus_amounts, minus_amounts, to_fixed_amount}
use distribuitor_app.Money.{Amount, Money, money, to_string}
use distribuitor_app.Money.Allocation.{total, sum-total}
use distribuitor_app.Statuses.Invoices.{PartyType}
use distribuitor_app.Finance.{LedgerEntry, Books, party_where, party_exists}
use distribuitor_app.Finance.Postings.{signed_total}
use distribuitor_app.Finance.Statements.{
  StatementQuery, Statement, statement, is_listed, sort_entries, insert_entry, is_earlier, closing,
  balance_before,
}

-- What rows add to a balance.
abbrev pub net : List LedgerEntry → Amount
net [] = pos 0
net (e ∷ rest) = e.debit -ℤ e.credit +ℤ net rest

net-insert_entry :
    (a : LedgerEntry) (rows : List LedgerEntry) → net (insert_entry a rows) ≡ net (a ∷ rows)
unfolding insert_entry
net-insert_entry a [] = refl
net-insert_entry a (b ∷ rest) = elim (Bool-cases (is_earlier a b)) [
  | inl e ↦ rw e
  | inr e ↦ rw (e, net-insert_entry a rest) (omega int_laws)
]

net-sort_entries : (rows : List LedgerEntry) → net (sort_entries rows) ≡ net rows
unfolding sort_entries
net-sort_entries [] = refl
net-sort_entries (a ∷ rest) = rw (net-insert_entry a (sort_entries rest), net-sort_entries rest)

net-total :
    (rows : List LedgerEntry)
    → net rows
      ≡ total (map (λ (e : LedgerEntry). e.debit) rows)
        -ℤ total (map (λ (e : LedgerEntry). e.credit) rows)
net-total [] = omega int_laws
net-total (e ∷ rest) = rw (net-total rest) (omega int_laws)

-- The rows before a date and those from it on are all the rows of a party.
net-split :
    (type : PartyType) (id from : ℕ) (rows : List LedgerEntry)
    → net (select (λ e. party_where type id e && ltb e.entry_date from) rows)
        +ℤ net (
            select
              (is_listed type id (record { from = some from; to = none; entry_type = none }))
              rows)
      ≡ signed_total type id rows
net-split type id from [] = omega int_laws
net-split type id from (e ∷ rest) = elim (Bool-cases (party_where type id e)) [
  | inr other ↦ rw other (net-split type id from rest)
  | inl mine ↦ elim (Bool-cases (ltb e.entry_date from)) [
    | inl before ↦
        let left_out : leb from e.entry_date ≡ false = ground arith in
        rw (mine, before, left_out, ← net-split type id from rest) (omega int_laws)
    | inr later ↦
        let listed : leb from e.entry_date ≡ true = ground arith in
        rw (mine, later, listed, ← net-split type id from rest) (omega int_laws)
  ]
]

ok-injective : {x y : Statement} → ok x ≡ ok y → x ≡ y
ok-injective e = cc

module _ ⦃dec : Decimal⦄ where
  closing-net :
      (opening : Amount) (rows : List LedgerEntry)
      → closing (money opening) rows ≡ money (opening +ℤ net rows)
  unfolding closing
  closing-net opening [] = ap money (omega int_laws)
  closing-net opening (e ∷ rest) =
      rw (plus_amounts, minus_amounts)
        (closing-net (opening +ℤ e.debit -ℤ e.credit) rest ∙ ap money (omega int_laws))

  opening_before :
      (type : PartyType) (id from : ℕ) (books : Books)
      → balance_before type id from books
        ≡ money (net (select (λ e. party_where type id e && ltb e.entry_date from) books.entries))
  unfolding balance_before
  opening_before type id from books =
      minus_amounts _ _
      ∙ ap money (
          sym (
            net-total (select (λ e. party_where type id e && ltb e.entry_date from) books.entries)))

  -- A statement from a date on, of all types of entries and without an end, closes at the balance of
  -- the party, whatever its page leaves out before: it opens at the balance before that date, and its
  -- debits less its credits lead from the one to the other.
  pub statement_closing :
      (type : PartyType) (id from : ℕ) (books : Books) (s : Statement)
      → statement type id (record { from = some from; to = none; entry_type = none }) books ≡ ok s
      → (s.closing_balance ≡ signed_total type id books.entries)
        × (s.opening_balance
            ≡ net (select (λ e. party_where type id e && ltb e.entry_date from) books.entries))
        × (s.closing_balance ≡ s.opening_balance +ℤ (s.total_debits -ℤ s.total_credits))
  unfolding statement
  statement_closing type id from books s e =
      let query : StatementQuery = record { from = some from; to = none; entry_type = none } in
      let rows = sort_entries (select (is_listed type id query) books.entries) in
      let before =
        net (select (λ e. party_where type id e && ltb e.entry_date from) books.entries) in
      let (there, made) = throw_if-ok (not (party_exists type id books)) not_found _ e in
      let opens = opening_before type id from books in
      let closes = ap (λ (x : Money). closing x rows) opens ∙ closing-net before rows in
      let same = ok-injective made in
      let opening_is : s.opening_balance ≡ before =
        sym (ap (λ (t : Statement). t.opening_balance) same)
        ∙ ap (λ (x : Money). to_string x) opens
        ∙ to_fixed_amount before in
      let closing_is : s.closing_balance ≡ before +ℤ net rows =
        sym (ap (λ (t : Statement). t.closing_balance) same)
        ∙ ap (λ (x : Money). to_string x) closes
        ∙ to_fixed_amount _ in
      let debits_is : s.total_debits ≡ total (map (λ (r : LedgerEntry). r.debit) rows) =
        sym (ap (λ (t : Statement). t.total_debits) same)
        ∙ ap (λ (x : Money). to_string x) (sum-total _)
        ∙ to_fixed_amount _ in
      let credits_is : s.total_credits ≡ total (map (λ (r : LedgerEntry). r.credit) rows) =
        sym (ap (λ (t : Statement). t.total_credits) same)
        ∙ ap (λ (x : Money). to_string x) (sum-total _)
        ∙ to_fixed_amount _ in
      (
        closing_is
            ∙ ap (λ (a : Amount). before +ℤ a)
                (net-sort_entries (select (is_listed type id query) books.entries))
            ∙ net-split type id from books.entries,
        opening_is,
        closing_is ∙ rw (opening_is, debits_is, credits_is, net-total rows),
      )
