-- ===== src/Payments/Booked.antt =====
-- The ledger's rows of each payment, and what changes of the payments do to them.
use distribuitor_app.Prelude.{
  ℕ, suc, ◌≤◌, ◌<◌, ◌≡◌, refl, ap, sym, subst, ◌∙◌, inl, inr, Bool, true, false, ◌&&◌, pos, ◌+ℤ◌,
  ◌-ℤ◌, some, List, [], ◌∷◌, All, All-map, sum_by, find_first-update_self, find_first-update_ne,
  ◌==◌, ==_iff, if◌then◌else◌, arith, int_laws, zero_+ℤ, Bool-cases,
}
use mathlib.Core.Option.{some-injective}
use distribuitor_app.Money.{Amount}
use distribuitor_app.Statuses.Invoices.{PartyType, PaymentStatus, recorded, verified}
use distribuitor_app.Finance.{LedgerEntry, Books}
use distribuitor_app.Finance.Rows.{entry_share, AreEntries}
use distribuitor_app.Settlement.{Payment, find_payment, update_payment_row}
use distribuitor_app.Payments.{payment_is}
use distribuitor_app.Payments.Bounce.{is_original_of}
use distribuitor_app.Payments.Invariant.{payment_where}

-- What the original rows of a payment come to for a party.
abbrev pub original_share : ℕ → PartyType → ℕ → LedgerEntry → Amount
original_share id type party e = if is_original_of id e then entry_share type party e else pos 0

abbrev pub original_total : ℕ → PartyType → ℕ → Books → Amount
original_total id type party books = sum_by (original_share id type party) books.entries

-- Neither bounced nor cancelled.
abbrev pub is_live : PaymentStatus → Bool
is_live recorded = true
is_live verified = true
is_live PaymentStatus.bounced = false
is_live PaymentStatus.cancelled = false

-- What a payment has taken off the balance of a party.
abbrev pub taken : PartyType → ℕ → Payment → Amount
taken type party p =
    if payment_is p.status verified && payment_where type party p
    then p.amount +ℤ p.tds_amount
    else pos 0

abbrev pub IsDated : ℕ → LedgerEntry → Type 0
IsDated next e = (id : ℕ) → is_original_of id e ≡ true → id < next

pub record IsBooked (payments : List Payment) (next : ℕ) (books : Books) : Type 0 where
  pub entries : AreEntries books
  pub dated : All (IsDated next) books.entries
  pub credited :
      (id : ℕ) (p : Payment)
      → find_payment id payments ≡ some p
      → is_live p.status ≡ true
      → (type : PartyType) (party : ℕ)
      → original_total id type party books ≡ pos 0 -ℤ taken type party p

pub undated_total :
    (next : ℕ) (type : PartyType) (party : ℕ) (rows : List LedgerEntry)
    → All (IsDated next) rows
    → sum_by (original_share next type party) rows ≡ pos 0
undated_total next type party [] all = refl
undated_total next type party (e ∷ rest) (dated, all) = elim (Bool-cases (is_original_of next e)) [
  | inl mine ↦ absurd (let h = dated next mine in omega arith)
  | inr other ↦ rw (other, zero_+ℤ) (undated_total next type party rest all)
]

IsDated-later : (n m : ℕ) → n ≤ m → (e : LedgerEntry) → IsDated n e → IsDated m e
IsDated-later n m le e dated id mine = let h = dated id mine in omega arith

-- Nothing is posted, and the payments are as they were.
pub later-IsBooked :
    (payments : List Payment) (next next' : ℕ) (books : Books)
    → next ≤ next'
    → IsBooked payments next books
    → IsBooked payments next' books
later-IsBooked payments next next' books le b = record {
  entries = b.entries;
  dated =
      All-map (IsDated next) (IsDated next') (IsDated-later next next' le) books.entries b.dated;
  credited = b.credited;
}

-- A recorded payment with a new id.
pub recorded-IsBooked :
    (row : Payment) (payments : List Payment) (next : ℕ) (books : Books)
    → row.id ≡ next
    → row.status ≡ recorded
    → IsBooked payments next books
    → IsBooked (row ∷ payments) (suc next) books
recorded-IsBooked row payments next books id_is status_is b = record {
  entries = b.entries;
  dated =
      All-map (IsDated next) (IsDated (suc next)) (IsDated-later next (suc next) (omega arith))
        books.entries b.dated;
  credited = λ id p found live type party. elim (Bool-cases (row.id == id)) [
    | inl this ↦
        let row_is = some-injective row p (rw this at found) in
        let id_next : next ≡ id = sym id_is ∙ (==_iff row.id id).0 this in
        subst (λ (x : Payment). original_total id type party books ≡ pos 0 -ℤ taken type party x)
          row_is
          (subst (λ i. original_total i type party books ≡ pos 0 -ℤ taken type party row) id_next
            (undated_total next type party books.entries b.dated ∙ rw status_is (omega int_laws)))
    | inr other ↦ b.credited id p (rw other at found) live type party
  ];
}

-- An update of one payment that changes nothing that it has taken.
pub updated-IsBooked :
    (k : ℕ) (f : Payment → Payment) (p : Payment) (payments : List Payment) (next : ℕ)
    (books : Books)
    → find_payment k payments ≡ some p
    → ((y : Payment) → (f y).id ≡ y.id)
    → (is_live (f p).status ≡ true
        → (is_live p.status ≡ true)
          × ((type : PartyType) (party : ℕ) → taken type party (f p) ≡ taken type party p))
    → IsBooked payments next books
    → IsBooked (update_payment_row k f payments) next books
updated-IsBooked k f p payments next books found keep same b = record {
  entries = b.entries;
  dated = b.dated;
  credited = λ id q e live type party. elim (Bool-cases (k == id)) [
    | inl this ↦
        let id_is = (==_iff k id).0 this in
        let now = find_first-update_self (λ (x : Payment). x.id) k f p payments keep found in
        let q_is = some-injective (f p) q (
          sym now
          ∙ subst (λ i. find_payment i (update_payment_row k f payments) ≡ some q) (sym id_is) e) in
        let (was_live, unchanged) =
          same (subst (λ (x : Payment). is_live x.status ≡ true) (sym q_is) live) in
        subst (λ i. original_total i type party books ≡ pos 0 -ℤ taken type party q) id_is
          (b.credited k p found was_live type party
            ∙ ap (λ x. pos 0 -ℤ x)
                (sym (unchanged type party) ∙ ap (λ (x : Payment). taken type party x) q_is))
    | inr other ↦
        b.credited id q
          (sym (find_first-update_ne (λ (x : Payment). x.id) id k f keep other payments) ∙ e) live
          type party
  ];
}
