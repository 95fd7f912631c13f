-- ===== src/Finance/Rows.antt =====
-- The rows of the ledger: each is found by its id, carries one positive side and names one party. What
-- a posting and a contra do to sums over rows.
use distribuitor_app.Prelude.{
  ℕ, suc, ◌<◌, ◌≡◌, refl, ap, sym, subst, inl, inr, Bool, true, false, not, pos, ◌+ℤ◌, ◌-ℤ◌, some,
  none, Option, List, [], ◌∷◌, All, All-map, sum_by, find_first, ◌==◌, ==_iff, if◌then◌else◌, arith,
  int_laws, parts_of_eq, zero_+ℤ, Bool-cases,
}
use distribuitor_app.Prelude.Results.{ok}
use distribuitor_app.Decimal.{Decimal}
use distribuitor_app.Money.{Amount}
use distribuitor_app.Statuses.Invoices.{PartyType, distributor, customer}
use distribuitor_app.Finance.{
  LedgerEntry, LedgerPost, Books, post, contra, mirror_of, row_of, party_where, named_type,
  named_id, is_set, distributor_column, customer_column, or_else_amount,
}
use distribuitor_app.Finance.Postings.{signed_total, IsOneSided, IsPosted, post-IsPosted}
use distribuitor_app.Finance.Reversal.{mirror_amounts}

-- One party and no other.
abbrev pub HasOneParty : Option ℕ → Option ℕ → Type 0
HasOneParty d c = (if is_set d then is_set c else not (is_set c)) ≡ false

-- What a row adds to the balance of a party.
abbrev pub entry_share : PartyType → ℕ → LedgerEntry → Amount
entry_share type id e = if party_where type id e then e.debit -ℤ e.credit else pos 0

abbrev find_entry : ℕ → List LedgerEntry → Option LedgerEntry
find_entry id = find_first (λ x. x.id == id)

pub record IsEntry (entries : List LedgerEntry) (next : ℕ) (e : LedgerEntry) : Type 0 where
  pub found : find_entry e.id entries ≡ some e
  pub below : e.id < next
  pub one_sided : IsOneSided e.debit e.credit
  pub one_party : HasOneParty e.distributor_id e.customer_id

abbrev pub AreEntries : Books → Type 0
AreEntries books = All (IsEntry books.entries books.next_id) books.entries

pub signed_total-share :
    (type : PartyType) (id : ℕ) (rows : List LedgerEntry)
    → signed_total type id rows ≡ sum_by (entry_share type id) rows
signed_total-share type id [] = refl
signed_total-share type id (e ∷ rest) = elim (Bool-cases (party_where type id e)) [
  | inl mine ↦ rw (mine, signed_total-share type id rest) refl
  | inr other ↦ rw (other, zero_+ℤ) (signed_total-share type id rest)
]

columns_one :
    (type : PartyType) (party : ℕ)
    → HasOneParty (distributor_column type party) (customer_column type party)
columns_one distributor party = refl
columns_one customer party = refl

-- A row that comes in at the front with a new id.
older :
    (row : LedgerEntry) (entries : List LedgerEntry) (next : ℕ)
    → row.id ≡ next
    → (e : LedgerEntry) → IsEntry entries next e
    → IsEntry (row ∷ entries) (suc next) e
older row entries next id_is e h =
    let below = h.below in
    let other : (row.id == e.id) ≡ false = ground arith in
    record {
      found = rw other h.found;
      below = omega arith;
      one_sided = h.one_sided;
      one_party = h.one_party;
    }

module _ {now : ℕ} {entry : LedgerPost} {books : Books} {id : ℕ} {new : Books}
    (p : IsPosted now entry books id new) where
  abbrev pub posted_row : LedgerEntry
  posted_row =
      row_of now entry books.next_id (or_else_amount entry.debit (pos 0))
        (or_else_amount entry.credit (pos 0)) p.party

  -- A posting keeps the rows in order, for any rows that were.
  pub posted-entries :
      (rows : List LedgerEntry)
      → All (IsEntry books.entries books.next_id) rows
      → All (IsEntry new.entries new.next_id) rows
  posted-entries rows all =
      subst (λ (b : Books). All (IsEntry b.entries b.next_id) rows) (sym p.appended)
        (All-map (IsEntry books.entries books.next_id)
          (IsEntry (posted_row ∷ books.entries) (suc books.next_id))
          (older posted_row books.entries books.next_id refl) rows all)

  pub posted-AreEntries : AreEntries books → AreEntries new
  posted-AreEntries all = subst AreEntries (sym p.appended) (
    record {
      found = rw ((==_iff books.next_id books.next_id).1 refl) refl;
      below = omega arith;
      one_sided = p.one_sided;
      one_party = columns_one entry.party_type p.party;
    },
    All-map (IsEntry books.entries books.next_id)
        (IsEntry (posted_row ∷ books.entries) (suc books.next_id))
        (older posted_row books.entries books.next_id refl) books.entries all,
  )

  pub posted-sum :
      (w : LedgerEntry → Amount) → sum_by w new.entries ≡ w posted_row +ℤ sum_by w books.entries
  posted-sum w = ap (λ (b : Books). sum_by w b.entries) p.appended

-- The columns of a row that is posted for a document are those of the document.
pub posted_columns :
    (d c : Option ℕ) (party : ℕ)
    → HasOneParty d c
    → named_id d c ≡ some party
    → (distributor_column (named_type d) party ≡ d) × (customer_column (named_type d) party ≡ c)
posted_columns none none party one e = absurd cc
posted_columns none (some c) party one e = (refl, sym e)
posted_columns (some d) none party one e = (sym e, refl)
posted_columns (some d) (some c) party one e = absurd cc

-- Rows of the same columns count for the same parties.
pub party_where-columns :
    (t : PartyType) (party : ℕ) (e f : LedgerEntry)
    → e.distributor_id ≡ f.distributor_id
    → e.customer_id ≡ f.customer_id
    → party_where t party e ≡ party_where t party f
unfolding party_where
party_where-columns distributor party e f d c = rw d refl
party_where-columns customer party e f d c = rw c refl

mirror_shift :
    (b b' : Bool) (x y d c : Amount)
    → b ≡ b'
    → x -ℤ y ≡ c -ℤ d
    → (if b then x -ℤ y else pos 0) ≡ pos 0 -ℤ (if b' then d -ℤ c else pos 0)
mirror_shift true true x y d c e h = omega (int_laws, parts_of_eq h)
mirror_shift false false x y d c e h = omega int_laws
mirror_shift true false x y d c e h = absurd cc
mirror_shift false true x y d c e h = absurd cc

-- What a contra of the row `original` has done.
pub record IsContra (original : LedgerEntry) (books new : Books) : Type 0 where
  pub row : LedgerEntry
  pub reverses : row.reverses_id ≡ some original.id
  pub sums : (w : LedgerEntry → Amount) → sum_by w new.entries ≡ w row +ℤ sum_by w books.entries
  pub entries_kept :
      (rows : List LedgerEntry)
      → All (IsEntry books.entries books.next_id) rows
      → All (IsEntry new.entries new.next_id) rows
  pub all_entries : AreEntries books → AreEntries new
  pub added : new.entries ≡ row ∷ books.entries
  pub share :
      (t : PartyType) (party : ℕ) → entry_share t party row ≡ pos 0 -ℤ entry_share t party original

module _ ⦃dec : Decimal⦄ where
  -- A contra adds a row that takes back the share of the original for every party.
  pub contra-IsContra :
      (now : ℕ) (actor : Option ℕ) (original : LedgerEntry) (books new : Books) (id : ℕ)
      → IsEntry books.entries books.next_id original
      → contra now original.id actor books ≡ ok (id, new)
      → IsContra original books new
  unfolding contra
  contra-IsContra now actor original books new id entry e =
      let m = mirror_of now original actor in
      let posted : post now m books ≡ ok (id, new) = rw (contra, entry.found) at e in
      let p = post-IsPosted now m books new id posted in
      let (d_is, c_is) =
        posted_columns original.distributor_id original.customer_id p.party entry.one_party
          p.party_named in
      record {
        row = posted_row p;
        reverses = refl;
        sums = posted-sum p;
        entries_kept = posted-entries p;
        all_entries = posted-AreEntries p;
        added = ap (λ (b : Books). b.entries) p.appended;
        share = λ t party.
            mirror_shift (party_where t party (posted_row p)) (party_where t party original) _ _
              original.debit original.credit
              (party_where-columns t party (posted_row p) original d_is c_is)
              (mirror_amounts now original actor entry.one_sided);
      }
