-- ===== src/Finance/Approval.antt =====
-- What a write-off needs, and what it leaves.
use mathlib.Core.Option.{some-injective}
use distribuitor_app.Prelude.{
  ℕ, ◌≡◌, ◌≢◌, refl, sym, subst, ap, ◌∙◌, ◌⊎◌, inl, inr, Bool, true, false, not, ℤ, pos, ◌+ℤ◌, ◌-ℤ◌,
  ◌≤ℤ◌, ltb_ℤ, leb_ℤ, some, any, arith, int_laws, Bool-cases, Option-cases, ◌==◌, ==_iff,
}
use distribuitor_app.Prelude.Results.{
  Result, Error, ok, err, validation, self_approval, permission_denied, throw_if,
}
use distribuitor_app.Prelude.Results.Inversion.{throw_if-ok, bind-ok}
use distribuitor_app.Decimal.{Decimal}
use distribuitor_app.Decimal.Laws.{
  greater_than_amounts, less_than_or_equal_amounts, to_fixed_amount,
}
use distribuitor_app.Money.{Amount, Money, money, gt, to_string}
use distribuitor_app.Statuses.Invoices.{PartyType, distributor, customer}
use distribuitor_app.Finance.{
  LedgerPost, Books, post, row_of, party_where, or_else_amount, assert_write_off_approved,
  balance_for,
}
use distribuitor_app.Finance.Acts.{WriteOff, write_off_balance, write_off_post}
use distribuitor_app.Finance.Postings.{
  signed_total, balance_for-signed_total, IsOneSided, IsPosted, post-IsPosted,
}

-- Within what one person may forgive, or approved by another person who holds the authority.
abbrev pub IsApproved : WriteOff → Books → Type 0
IsApproved input books =
    (input.amount ≤ℤ or_else_amount books.write_off_threshold (pos 100_000_000))
    ⊎ ((approver : ℕ) × (input.approved_by ≡ some approver)
        × (approver ≢ input.actor)
        × (any (λ u. u == approver) books.authorisers ≡ true))

-- The row of a party counts for that party.
party_where-row_of :
    (now : ℕ) (entry : LedgerPost) (id party : ℕ) (debit credit : Amount)
    → party_where entry.party_type party (row_of now entry id debit credit party) ≡ true
unfolding party_where
party_where-row_of now entry id party debit credit = go entry.party_type
  where
    go :
        (type : PartyType)
        → party_where type party
            (row_of now (record entry { party_type = type }) id debit credit party)
          ≡ true
    go distributor = (==_iff party party).1 refl
    go customer = (==_iff party party).1 refl

-- A posting adds its debit less its credit to what its party owes.
pub posted-signed_total :
    {now : ℕ} {entry : LedgerPost} {books : Books} {id : ℕ} {new : Books}
    → (p : IsPosted now entry books id new)
    → signed_total entry.party_type p.party new.entries
      ≡ or_else_amount entry.debit (pos 0)
        -ℤ or_else_amount entry.credit (pos 0)
        +ℤ signed_total entry.party_type p.party books.entries
posted-signed_total {now} {entry} {books} p =
    ap (λ (b : Books). signed_total entry.party_type p.party b.entries) p.appended
    ∙ rw (party_where-row_of now entry books.next_id p.party _ _)

outcome_parts :
    {A B C : Type 0} {i j : A} {x y : B} {m n : C}
    → ◌≡◌ {A = Result ((A × B) × C)} (ok ((i, x), m)) (ok ((j, y), n))
    → (x ≡ y) × (m ≡ n)
outcome_parts e = (cc, cc)

refused_alone : {b : Unit {0}} → err validation ≡ ok b → ⊥
refused_alone e = cc

granted : (c : Bool) (x : Error) → throw_if c x ≡ ok tt → c ≡ false
granted true x e = absurd cc
granted false x e = refl

enough_lem : (o a : ℤ) → ltb_ℤ o a ≡ false → pos 0 ≤ℤ o -ℤ a
enough_lem o a e = let le : a ≤ℤ o = ground arith in omega int_laws

module _ ⦃dec : Decimal⦄ where
  approved :
      (input : WriteOff) (books : Books)
      → assert_write_off_approved (money input.amount) input.actor input.approved_by books ≡ ok tt
      → IsApproved input books
  unfolding assert_write_off_approved
  approved input books e =
      let threshold = or_else_amount books.write_off_threshold (pos 100_000_000) in
      elim (Bool-cases (leb_ℤ input.amount threshold)) [
        | inl small ↦ inl (ground arith)
        | inr large ↦ elim (Option-cases input.approved_by) [
          | inl alone ↦
              absurd (refused_alone (simp (less_than_or_equal_amounts, large, alone) at e))
          | inr (approver, by) ↦
              let g = simp (less_than_or_equal_amounts, large, by) at e in
              let (other, h) = throw_if-ok (approver == input.actor) self_approval _ g in
              let held =
                granted (not (any (λ u. u == approver) books.authorisers)) permission_denied h in
              inr (approver, by, ground arith, ground arith)
        ]
      ]

  positive_credit : (a : Amount) → IsOneSided (pos 0) (to_string (money a)) → pos 1 ≤ℤ a
  positive_credit a h = let g = simp to_fixed_amount at h in ground arith

  written_off_owed :
      (now : ℕ) (input : WriteOff) (books new : Books) (id : ℕ)
      → post now (write_off_post now input) books ≡ ok (id, new)
      → (pos 1 ≤ℤ input.amount)
        × (signed_total input.party_type input.party_id new.entries
            ≡ signed_total input.party_type input.party_id books.entries -ℤ input.amount)
  written_off_owed now input books new id e =
      let p = post-IsPosted now (write_off_post now input) books new id e in
      let same : p.party ≡ input.party_id =
        sym (some-injective input.party_id p.party p.party_named) in
      (
        positive_credit input.amount p.one_sided,
        subst
              (λ x.
                signed_total input.party_type x new.entries
                ≡ pos 0
                  -ℤ to_string (money input.amount)
                  +ℤ signed_total input.party_type x books.entries)
              same (posted-signed_total p)
            ∙ rw to_fixed_amount (omega int_laws),
      )

  -- A write-off that succeeds is of a positive amount that the party owes, within what one person may
  -- forgive or approved by another person who holds the authority. It leaves what was owed less the
  -- amount, which is not negative and is the balance of the party in the new books.
  pub write_off_balance_owed :
      (now : ℕ) (input : WriteOff) (books new : Books) (id : ℕ) (left : Amount)
      → write_off_balance now input books ≡ ok ((id, left), new)
      → let owed = signed_total input.party_type input.party_id books.entries in
        (pos 1 ≤ℤ input.amount)
        × (left ≡ owed -ℤ input.amount)
        × (pos 0 ≤ℤ left)
        × (signed_total input.party_type input.party_id new.entries ≡ left)
        × IsApproved input books
  unfolding write_off_balance
  write_off_balance_owed now input books new id left e =
      let owed = signed_total input.party_type input.party_id books.entries in
      let (covered, e1) =
        throw_if-ok (gt (money input.amount) (balance_for input.party_type input.party_id books))
          validation _ e in
      let (_, ok_approved, e2) =
        bind-ok (assert_write_off_approved (money input.amount) input.actor input.approved_by books)
          _ e1 in
      let (posted, done, e3) = bind-ok (post now (write_off_post now input) books) _ e2 in
      let (left_is, new_is) = outcome_parts e3 in
      let (positive, now_owed) = written_off_owed now input books posted.1 posted.0 done in
      let left_owed : left ≡ owed -ℤ input.amount =
        sym left_is
        ∙ ap (λ (x : Money). to_string x)
            (balance_for-signed_total input.party_type input.party_id _)
        ∙ to_fixed_amount _
        ∙ now_owed in
      let enough = rw (balance_for-signed_total, greater_than_amounts) at covered in
      (
        positive,
        left_owed,
        rw left_owed (enough_lem owed input.amount enough),
        ap (λ (b : Books). signed_total input.party_type input.party_id b.entries) (sym new_is)
            ∙ now_owed
            ∙ sym left_owed,
        approved input books ok_approved,
      )
