-- ===== src/Inventory/Ledger/Invariant.antt =====
-- The invariant of the stock tables, and `move`.
use mathlib.Core.Option.{some-injective}
use distribuitor_app.Prelude.{
  subst, ℕ, ◌≡◌, refl, ◌∙◌, inl, inr, ◌+ℤ◌, ◌≤ℤ◌, some, List, [], ◌∷◌, All, Bool-cases,
  if◌then◌else◌, int_laws,
}
use distribuitor_app.Prelude.Results.{ok}
use distribuitor_app.Decimal.{Decimal}
use distribuitor_app.Money.{Amount, to_string}
use distribuitor_app.Inventory.Tables.{BalanceKey, Balance, Db, find_balance, same_key}
use distribuitor_app.Inventory.Tables.Rows.{
  on_hand_of, ledger_total, on_hand_of-update, All-update, IsSoundRow, same_key_eq,
}
use distribuitor_app.Inventory.Tables.Steps.{Ensures-ok}
use distribuitor_app.Inventory.Ledger.{Movement, Moved, move}
use distribuitor_app.Inventory.Ledger.Locks.{IsLocked, lock-IsLocked}
use distribuitor_app.Inventory.Ledger.Moves.{move-Ensures, moved_db}

pub record IsSound (db : Db) : Type 0 where
  -- The ledger is the truth: its rows add up to the stock at hand, key by key.
  pub agrees : (k : BalanceKey) → on_hand_of k db.balances ≡ ledger_total k db.entries
  -- In each row, what is reserved is not negative and at hand.
  pub covered : All IsSoundRow db.balances

-- A lock keeps the agreement, and its row holds the stock of its key.
pub locked-agrees :
    {k : BalanceKey} {db : Db} {b : Balance} {locked : Db}
    → IsSound db
    → IsLocked k db b locked
    → (j : BalanceKey) → on_hand_of j locked.balances ≡ ledger_total j locked.entries
locked-agrees sound lock j = rw (lock.on_hand_kept j, lock.entries_kept) (sound.agrees j)

pub locked_row :
    {k : BalanceKey} {db : Db} {b : Balance} {locked : Db}
    → IsLocked k db b locked
    → on_hand_of k locked.balances ≡ b.on_hand
locked_row lock = rw lock.found

pub row-IsSound :
    (k : BalanceKey) (bs : List Balance) (b : Balance)
    → All IsSoundRow bs
    → find_balance k bs ≡ some b
    → IsSoundRow b
row-IsSound k [] b all e = cc
row-IsSound k (c ∷ rest) b all e = elim (Bool-cases (same_key c.key k)) [
  | inl same ↦
      let first : some c ≡ some b = rw (same, if◌then◌else◌) at e in
      subst IsSoundRow (some-injective c b first) all.0
  | inr other ↦ row-IsSound k rest b all.1 (rw (other, if◌then◌else◌) at e)
]

module _ ⦃dec : Decimal⦄ where
  moved-agrees :
      (now : ℕ) (input : Movement) (db : Db) (s average : Amount) (b : Balance) (locked : Db)
      → IsSound db
      → IsLocked input.key db b locked
      → (j : BalanceKey)
      → let new = moved_db now input s b average locked in
        on_hand_of j new.balances ≡ ledger_total j new.entries
  moved-agrees now input db s average b locked sound lock j =
      on_hand_of-update input.key _ (λ _. refl) j locked.balances b lock.found
      ∙ elim (Bool-cases (same_key input.key j)) [
        | inl same ↦
            rw (same, ← locked-agrees sound lock j, ← same_key_eq input.key j same, locked_row lock)
              (omega int_laws)
        | inr other ↦ rw other (locked-agrees sound lock j)
      ]

  moved-IsSound :
      (now : ℕ) (input : Movement) (db : Db) (s average : Amount) (b : Balance) (locked : Db)
      → IsSound db
      → IsLocked input.key db b locked
      → b.reserved ≤ℤ b.on_hand +ℤ s
      → IsSound (moved_db now input s b average locked)
  moved-IsSound now input db s average b locked sound lock high =
      let rows = lock.rows_kept sound.covered in
      let row = row-IsSound input.key locked.balances b rows lock.found in
      record {
        agrees = moved-agrees now input db s average b locked sound lock;
        covered =
            All-update input.key _ (λ _. refl) IsSoundRow locked.balances b rows lock.found
              (row.0, high);
      }

  -- On sound tables, a movement that succeeds leaves sound tables: the ledger rows add up to the
  -- stock at hand, for every key, and what a row reserves is not negative and at hand.
  pub move-IsSound :
      (now : ℕ) (input : Movement) (db new : Db) (r : Moved)
      → IsSound db
      → move now input db ≡ ok (r, new)
      → IsSound new
  move-IsSound now input db new r sound e =
      Ensures-ok (λ _ new. IsSound new) (move now input db)
        (move-Ensures (λ _ new. IsSound new) now input db
          λ b locked average taken nz lock nn high _.
            moved-IsSound now input db _ (to_string average) b locked sound
              (lock-IsLocked input.key db b locked lock) high)
        e
