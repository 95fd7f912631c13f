-- ===== src/Payments/Contraed.antt =====
-- Contras of the original rows of a payment, one after another.
use distribuitor_app.Prelude.{
  ℕ, ◌≡◌, refl, ap, sym, subst, ◌∙◌, inl, inr, Bool, true, false, ◌&&◌, pos, ◌+ℤ◌, ◌-ℤ◌, some, List,
  [], ◌∷◌, All, sum_by, select, if◌then◌else◌, arith, int_laws, zero_+ℤ, Bool-cases,
}
use distribuitor_app.Prelude.Results.{ok}
use distribuitor_app.Prelude.Results.Inversion.{bind-ok, ok-injective}
use distribuitor_app.Decimal.{Decimal}
use distribuitor_app.Money.{Amount}
use distribuitor_app.Statuses.Invoices.{PartyType}
use distribuitor_app.Finance.{LedgerEntry, Books, contra, holds}
use distribuitor_app.Payments.{payment_ref}
use distribuitor_app.Finance.Rows.{entry_share, IsEntry, AreEntries, contra-IsContra}
use distribuitor_app.Payments.Bounce.{is_original_of, contra_each}
use distribuitor_app.Payments.Booked.{original_share, original_total, IsDated}

pub select-All :
    (P : LedgerEntry → Type 0) (test : LedgerEntry → Bool) (rows : List LedgerEntry)
    → All P rows
    → All P (select test rows)
select-All P test [] all = tt
select-All P test (e ∷ rest) (h, all) = elim (Bool-cases (test e)) [
  | inl hit ↦ rw hit (h, select-All P test rest all)
  | inr miss ↦ rw miss (select-All P test rest all)
]

pub select-share :
    (id : ℕ) (type : PartyType) (party : ℕ) (rows : List LedgerEntry)
    → sum_by (entry_share type party) (select (is_original_of id) rows)
      ≡ sum_by (original_share id type party) rows
select-share id type party [] = refl
select-share id type party (e ∷ rest) = elim (Bool-cases (is_original_of id e)) [
  | inl mine ↦ rw (mine, select-share id type party rest) refl
  | inr other ↦ rw (other, zero_+ℤ) (select-share id type party rest)
]

ends_false : (a b : Bool) → a && (b && false) ≡ false
ends_false a b = ground arith

share_shift : (x s r : Amount) → pos 0 -ℤ x +ℤ s -ℤ r ≡ s -ℤ (x +ℤ r)
share_shift x s r = omega int_laws

less_none : (s : Amount) → s ≡ s -ℤ pos 0
less_none s = omega int_laws

-- A row that reverses another is no original.
contra_original :
    (id : ℕ) (row : LedgerEntry) (of : ℕ)
    → row.reverses_id ≡ some of
    → is_original_of id row ≡ false
contra_original id row of e =
    rw e (ends_false (holds row.ref_type payment_ref) (holds row.ref_id id))

no_original :
    (id : ℕ) (row : LedgerEntry) (of : ℕ)
    → row.reverses_id ≡ some of
    → is_original_of id row ≡ true
    → ⊥
no_original id row of e mine = let f = contra_original id row of e in cc

-- What contras of some rows have done.
pub record AreContraed (rows : List LedgerEntry) (books new : Books) : Type 0 where
  pub entries : AreEntries books → AreEntries new
  pub dated : (next : ℕ) → All (IsDated next) books.entries → All (IsDated next) new.entries
  pub originals :
      (id : ℕ) (type : PartyType) (party : ℕ)
      → original_total id type party new ≡ original_total id type party books
  pub shares :
      (type : PartyType) (party : ℕ)
      → sum_by (entry_share type party) new.entries
        ≡ sum_by (entry_share type party) books.entries -ℤ sum_by (entry_share type party) rows

module _ ⦃dec : Decimal⦄ where
  pub contra_each-AreContraed :
      (now : ℕ) (rows : List LedgerEntry) (actor : ℕ) (books new : Books)
      → All (IsEntry books.entries books.next_id) rows
      → contra_each now rows actor books ≡ ok new
      → AreContraed rows books new
  unfolding contra_each
  contra_each-AreContraed now [] actor books new all e =
      subst (λ (b : Books). AreContraed [] books b) (sym (ok-injective e))
        (record {
          entries = λ h. h;
          dated = λ next h. h;
          originals = λ id type party. refl;
          shares = λ type party. less_none _;
        })
  contra_each-AreContraed now (e ∷ rest) actor books new (h, all) done =
      let (posted, did, done1) = bind-ok (contra now e.id (some actor) books) _ done in
      let c = contra-IsContra now (some actor) e books posted.1 posted.0 h did in
      let r = contra_each-AreContraed now rest actor posted.1 new (c.entries_kept rest all) done1 in
      record {
        entries = λ all. r.entries (c.all_entries all);
        dated = λ next all. r.dated next (
            subst (λ rows. All (IsDated next) rows) (sym c.added)
              (λ id mine. absurd (no_original id c.row e.id c.reverses mine), all));
        originals = λ id type party.
            r.originals id type party
            ∙ c.sums (original_share id type party)
            ∙ ap
                (λ b.
                  (if b then entry_share type party c.row else pos 0)
                  +ℤ original_total id type party books)
                (contra_original id c.row e.id c.reverses)
            ∙ zero_+ℤ _;
        shares = λ type party.
            r.shares type party
            ∙ ap (λ x. x -ℤ sum_by (entry_share type party) rest) (c.sums (entry_share type party))
            ∙ ap
                (λ x.
                  x
                  +ℤ sum_by (entry_share type party) books.entries
                  -ℤ sum_by (entry_share type party) rest)
                (c.share type party)
            ∙ share_shift (entry_share type party e) _ _;
      }
