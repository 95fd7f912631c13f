-- ===== src/Finance/Postings.antt =====
-- What `post` appends, and what that does to the balances.
use distribuitor_app.Prelude.{
  ℕ, suc, ◌≡◌, refl, ap, ◌∙◌, ◌==◌, ◌⊎◌, inl, inr, Bool, true, false, not, ◌||◌, ℤ, pos, ◌+ℤ◌, ◌-ℤ◌,
  ◌≤ℤ◌, ltb_ℤ, eqb_ℤ, some, List, [], ◌∷◌, select, map, arith, if◌then◌else◌, int_laws, Bool-cases,
  Option-cases,
}
use distribuitor_app.Prelude.Results.Inversion.{throw_if-ok}
use distribuitor_app.Prelude.Results.{ok, internal}
use distribuitor_app.Decimal.{Decimal}
use distribuitor_app.Decimal.Laws.{
  is_zero_amount, less_than_zero, greater_than_zero, to_fixed_amount, minus_amounts,
}
use distribuitor_app.Money.{Amount, money}
use distribuitor_app.Money.Allocation.{total}
use distribuitor_app.Statuses.Invoices.{PartyType, distributor, customer}
use distribuitor_app.Finance.{
  same_bool, LedgerEntry, LedgerPost, Books, post, create_entry, row_of, party_where, balance_for,
  or_else_amount, or_else_ℕ, is_allowed_side, party_exists,
}

-- The rows of a party, each as what it adds to the balance.
abbrev pub signed_total : PartyType → ℕ → List LedgerEntry → Amount
signed_total type id [] = pos 0
signed_total type id (e ∷ rest) =
    if party_where type id e
    then e.debit -ℤ e.credit +ℤ signed_total type id rest
    else signed_total type id rest

signed_total-select :
    (type : PartyType) (id : ℕ) (rows : List LedgerEntry)
    → total (map (λ (e : LedgerEntry). e.debit) (select (party_where type id) rows))
        -ℤ total (map (λ (e : LedgerEntry). e.credit) (select (party_where type id) rows))
      ≡ signed_total type id rows
signed_total-select type id [] = omega int_laws
signed_total-select type id (e ∷ rest) = elim (Bool-cases (party_where type id e)) [
  | inl mine ↦ rw (mine, ← signed_total-select type id rest) (omega int_laws)
  | inr other ↦ rw other (signed_total-select type id rest)
]

-- Two parties are one: of the same kind, with the same id.
abbrev pub is_party : PartyType → ℕ → PartyType → ℕ → Bool
is_party distributor a distributor b = a == b
is_party customer a customer b = a == b
is_party _ a _ b = false

-- A row carries exactly one positive side.
abbrev pub IsOneSided : Amount → Amount → Type 0
IsOneSided debit credit = (pos 1 ≤ℤ debit) × (credit ≡ pos 0) ⊎ (debit ≡ pos 0) × (pos 1 ≤ℤ credit)

-- The ledger row of a posting: the amounts on the sides that were asked for, for the one party, and the
-- document that it refers to.
pub record IsRowOf (now : ℕ) (entry : LedgerPost) (party id : ℕ) (row : LedgerEntry) : Type 0 where
  pub id_is : row.id ≡ id
  pub debit_is : row.debit ≡ or_else_amount entry.debit (pos 0)
  pub credit_is : row.credit ≡ or_else_amount entry.credit (pos 0)
  pub of_party :
      (type : PartyType) (other : ℕ)
      → party_where type other row ≡ is_party entry.party_type party type other
  pub type_is : row.entry_type ≡ entry.entry_type
  pub reference_is :
      (row.ref_type ≡ entry.ref_type)
      × (row.ref_id ≡ entry.ref_id)
      × (row.ref_number ≡ entry.ref_number)
  pub reversed : row.reverses_id ≡ entry.reverses_id
  pub dated : row.entry_date ≡ or_else_ℕ entry.entry_date now
  pub creator_is : row.created_by ≡ entry.actor

-- What a posting has done.
pub record IsPosted (now : ℕ) (entry : LedgerPost) (books : Books) (id : ℕ) (new : Books)
    : Type 0 where
  pub party : ℕ
  pub party_named : entry.party_id ≡ some party
  pub party_there : party_exists entry.party_type party books ≡ true
  pub one_sided :
      IsOneSided (or_else_amount entry.debit (pos 0)) (or_else_amount entry.credit (pos 0))
  pub side_allowed :
      is_allowed_side entry.entry_type (ltb_ℤ (pos 0) (or_else_amount entry.debit (pos 0))) ≡ true
  pub result : id ≡ books.next_id
  pub row : LedgerEntry
  pub row_is : IsRowOf now entry party books.next_id row
  pub entries_are : new.entries ≡ row ∷ books.entries
  pub moved :
      (type : PartyType) (other : ℕ)
      → signed_total type other new.entries
        ≡ (if is_party entry.party_type party type other
            then or_else_amount entry.debit (pos 0) -ℤ or_else_amount entry.credit (pos 0)
            else pos 0)
          +ℤ signed_total type other books.entries
  pub appended : new ≡ record books {
    next_id = suc books.next_id;
    entries =
        row_of now entry books.next_id
          (or_else_amount entry.debit (pos 0))
          (or_else_amount entry.credit (pos 0))
          party
        ∷ books.entries;
  }

one_sided_lem :
    (d c : ℤ)
    → same_bool (eqb_ℤ d (pos 0)) (eqb_ℤ c (pos 0)) ≡ false
    → ltb_ℤ d (pos 0) || ltb_ℤ c (pos 0) ≡ false
    → IsOneSided d c
one_sided_lem d c apart positive = ground arith

row_of_party :
    (now id : ℕ) (entry : LedgerPost) (debit credit : Amount) (party : ℕ) (kind type : PartyType)
    (other : ℕ)
    → entry.party_type ≡ kind
    → party_where type other (row_of now entry id debit credit party)
      ≡ is_party kind party type other
unfolding party_where
row_of_party now id entry debit credit party distributor distributor other e = rw e refl
row_of_party now id entry debit credit party distributor customer other e = rw e refl
row_of_party now id entry debit credit party customer distributor other e = rw e refl
row_of_party now id entry debit credit party customer customer other e = rw e refl

row_of-IsRowOf :
    (now : ℕ) (entry : LedgerPost) (party id : ℕ)
    → IsRowOf now entry party id (
        row_of now entry id
          (or_else_amount entry.debit (pos 0))
          (or_else_amount entry.credit (pos 0))
          party)
row_of-IsRowOf now entry party id = record {
  id_is = refl;
  debit_is = refl;
  credit_is = refl;
  of_party = λ type other. row_of_party now id entry _ _ party entry.party_type type other refl;
  type_is = refl;
  reference_is = (refl, refl, refl);
  reversed = refl;
  dated = refl;
  creator_is = refl;
}

-- What a row that is put before others adds to the balance of a party.
row_moves :
    (now : ℕ) (entry : LedgerPost) (party id : ℕ) (row : LedgerEntry) (rows : List LedgerEntry)
    → IsRowOf now entry party id row
    → (type : PartyType) (other : ℕ)
    → signed_total type other (row ∷ rows)
      ≡ (if is_party entry.party_type party type other
          then or_else_amount entry.debit (pos 0) -ℤ or_else_amount entry.credit (pos 0)
          else pos 0)
        +ℤ signed_total type other rows
row_moves now entry party id row rows h type other =
    elim (Bool-cases (is_party entry.party_type party type other)) [
      | inl mine ↦ rw (h.of_party type other, mine, h.debit_is, h.credit_is) refl
      | inr theirs ↦ rw (h.of_party type other, theirs) (omega int_laws)
    ]

unnegated : (b : Bool) → not b ≡ false → b ≡ true
unnegated b e = ground arith

created :
    (now : ℕ) (entry : LedgerPost) (debit credit : Amount) (books new : Books) (id : ℕ)
    → create_entry now entry debit credit books ≡ ok (id, new)
    → (party : ℕ) × (entry.party_id ≡ some party)
      × (party_exists entry.party_type party books ≡ true)
      × (id ≡ books.next_id)
      × (new ≡ record books {
        next_id = suc books.next_id;
        entries = row_of now entry books.next_id debit credit party ∷ books.entries;
      })
unfolding create_entry
created now entry debit credit books new id e = elim (Option-cases entry.party_id) [
  | inl missing ↦ absurd (ground arith)
  | inr (party, named) ↦ elim (Bool-cases (party_exists entry.party_type party books)) [
    | inl there ↦ (party, named, there, ground arith, ground arith)
    | inr gone ↦ absurd (ground arith)
  ]
]

module _ ⦃dec : Decimal⦄ where
  pub balance_for-signed_total :
      (type : PartyType) (id : ℕ) (books : Books)
      → balance_for type id books ≡ money (signed_total type id books.entries)
  unfolding balance_for
  balance_for-signed_total type id books =
      rw (minus_amounts, signed_total-select type id books.entries)

  -- A posting that succeeds names a party that exists, carries exactly one positive side, the one that
  -- its type allows, and puts one row before the others, with its amounts on its sides, for that party.
  -- The balance of that party grows by the debit or falls by the credit, and no other balance changes.
  pub post-IsPosted :
      (now : ℕ) (entry : LedgerPost) (books new : Books) (id : ℕ)
      → post now entry books ≡ ok (id, new)
      → IsPosted now entry books id new
  unfolding post
  post-IsPosted now entry books new id e =
      let debit = or_else_amount entry.debit (pos 0) in
      let credit = or_else_amount entry.credit (pos 0) in
      let g = simp (is_zero_amount, less_than_zero, greater_than_zero, to_fixed_amount) at e in
      let (apart, g2) =
        throw_if-ok (same_bool (eqb_ℤ debit (pos 0)) (eqb_ℤ credit (pos 0))) internal _ g in
      let (positive, g3) =
        throw_if-ok (ltb_ℤ debit (pos 0) || ltb_ℤ credit (pos 0)) internal _ g2 in
      let (allowed, g4) =
        throw_if-ok (not (is_allowed_side entry.entry_type (ltb_ℤ (pos 0) debit))) internal _ g3 in
      let (party, named, there, same, made) = created now entry debit credit books new id g4 in
      record {
        party = party;
        party_named = named;
        party_there = there;
        one_sided = one_sided_lem debit credit apart positive;
        side_allowed = unnegated (is_allowed_side entry.entry_type (ltb_ℤ (pos 0) debit)) allowed;
        result = same;
        row = row_of now entry books.next_id debit credit party;
        row_is = row_of-IsRowOf now entry party books.next_id;
        entries_are = ap (λ (b : Books). b.entries) made;
        moved = λ type other.
            ap (λ (b : Books). signed_total type other b.entries) made
            ∙ row_moves now entry party books.next_id _ books.entries
                (row_of-IsRowOf now entry party books.next_id) type other;
        appended = made;
      }
