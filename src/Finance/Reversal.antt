-- ===== src/Finance/Reversal.antt =====
-- `contra`: the mirror of a row takes back what the row added.
use distribuitor_app.Prelude.{
  ℕ, ◌≡◌, refl, ◌∙◌, inl, inr, true, pos, ◌-ℤ◌, ltb_ℤ, Option, some, find_first, arith, int_laws,
  Option-cases, ◌==◌, ==_iff,
}
use mathlib.Core.Option.{some-injective}
use distribuitor_app.Prelude.Results.{ok}
use distribuitor_app.Decimal.{Decimal}
use distribuitor_app.Decimal.Laws.{greater_than_zero, to_fixed_amount}
use distribuitor_app.Finance.{
  LedgerEntry, Books, post, contra, mirror_of, party_where, or_else_amount,
}
use distribuitor_app.Finance.Postings.{signed_total, IsOneSided, post-IsPosted}
use distribuitor_app.Finance.Approval.{posted-signed_total}

module _ ⦃dec : Decimal⦄ where
  pub mirror_amounts :
      (now : ℕ) (original : LedgerEntry) (actor : Option ℕ)
      → IsOneSided original.debit original.credit
      → let m = mirror_of now original actor in
        or_else_amount m.debit (pos 0) -ℤ or_else_amount m.credit (pos 0)
        ≡ original.credit -ℤ original.debit
  mirror_amounts now original actor (inl (positive, zero)) =
      let is_debit : ltb_ℤ (pos 0) original.debit ≡ true = ground arith in
      simp (greater_than_zero, is_debit, to_fixed_amount, zero)
  mirror_amounts now original actor (inr (zero, positive)) =
      simp (greater_than_zero, to_fixed_amount, zero)

  mirror_party :
      (now : ℕ) (original : LedgerEntry) (actor : Option ℕ) (party : ℕ)
      → let m = mirror_of now original actor in
        m.party_id ≡ some party → party_where m.party_type party original ≡ true
  unfolding party_where
  mirror_party now original actor party e = elim (Option-cases original.distributor_id) [
    | inl missing ↦
        let customer_is : original.customer_id ≡ some party = rw missing at e in
        rw (missing, customer_is) ((==_iff party party).1 refl)
    | inr (d, found) ↦
        let same : some d ≡ some party = rw found at e in
        rw (found, some-injective d party same) ((==_iff party party).1 refl)
  ]

  -- A contra of a row with exactly one positive side that succeeds takes back what the row added to
  -- the balance of its party.
  pub contra_cancels :
      (now entry_id : ℕ) (actor : Option ℕ) (books new : Books) (id : ℕ) (original : LedgerEntry)
      → find_first (λ e. e.id == entry_id) books.entries ≡ some original
      → IsOneSided original.debit original.credit
      → contra now entry_id actor books ≡ ok (id, new)
      → let type = (mirror_of now original actor).party_type in
        (party : ℕ) × (party_where type party original ≡ true)
        × (signed_total type party new.entries
            ≡ signed_total type party books.entries -ℤ (original.debit -ℤ original.credit))
  unfolding contra
  contra_cancels now entry_id actor books new id original found one e =
      let posted : post now (mirror_of now original actor) books ≡ ok (id, new) =
        rw (contra, found) at e in
      let p = post-IsPosted now (mirror_of now original actor) books new id posted in
      (
        p.party,
        mirror_party now original actor p.party p.party_named,
        posted-signed_total p ∙ rw (mirror_amounts now original actor one) (omega int_laws),
      )
