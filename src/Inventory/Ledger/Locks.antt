-- ===== src/Inventory/Ledger/Locks.antt =====
-- `lockBalance`: it returns the row of the key and changes no figure.
use distribuitor_app.Prelude.{
  ◌≡◌, refl, sym, subst, ◌⊎◌, inl, inr, none, some, List, ◌∷◌, All, Bool-cases, Option-cases, arith,
}
use distribuitor_app.Prelude.Results.{ok}
use distribuitor_app.Inventory.Tables.{BalanceKey, Balance, Db, find_balance, same_key}
use distribuitor_app.Inventory.Tables.Rows.{
  on_hand_of, reserved_of, average_of, same_key_refl, same_key_eq, IsSoundRow,
}
use distribuitor_app.Inventory.Ledger.{lock_balance, new_balance, known}

-- The row was there, or it is new and empty.
abbrev LockCases : BalanceKey → Db → Balance → Db → Type 0
LockCases k db b new =
    (new ≡ db) × (find_balance k db.balances ≡ some b)
    ⊎ (new ≡ record db { balances = new_balance k ∷ db.balances })
      × (b ≡ new_balance k)
      × (find_balance k db.balances ≡ none)

lock-LockCases :
    (k : BalanceKey) (db : Db) (b : Balance) (new : Db)
    → lock_balance k db ≡ ok (b, new)
    → LockCases k db b new
unfolding lock_balance
lock-LockCases k db b new h = elim (Bool-cases (known k.warehouse db.warehouses)) [
  | inl there ↦ elim (Option-cases (find_balance k db.balances)) [
    | inl e ↦ ground (arith, same_key_refl k)
    | inr (c, e) ↦ ground arith
  ]
  | inr gone ↦ ground arith
]

-- What a lock leaves as it was.
pub record IsLocked (k : BalanceKey) (db : Db) (b : Balance) (new : Db) : Type 0 where
  pub found : find_balance k new.balances ≡ some b
  pub on_hand_kept : (j : BalanceKey) → on_hand_of j new.balances ≡ on_hand_of j db.balances
  pub reserved_kept : (j : BalanceKey) → reserved_of j new.balances ≡ reserved_of j db.balances
  pub average_kept : (j : BalanceKey) → average_of j new.balances ≡ average_of j db.balances
  pub entries_kept : new.entries ≡ db.entries
  pub reservations_kept : new.reservations ≡ db.reservations
  pub next_id_kept : new.next_id ≡ db.next_id
  pub rows_kept : All IsSoundRow db.balances → All IsSoundRow new.balances

on_hand_new :
    (k j : BalanceKey) (bs : List Balance)
    → find_balance k bs ≡ none
    → on_hand_of j (new_balance k ∷ bs) ≡ on_hand_of j bs
on_hand_new k j bs e = elim (Bool-cases (same_key k j)) [
  | inl same ↦ rw (same, ← same_key_eq k j same, e)
  | inr other ↦ rw other
]

reserved_new :
    (k j : BalanceKey) (bs : List Balance)
    → find_balance k bs ≡ none
    → reserved_of j (new_balance k ∷ bs) ≡ reserved_of j bs
reserved_new k j bs e = elim (Bool-cases (same_key k j)) [
  | inl same ↦ rw (same, ← same_key_eq k j same, e)
  | inr other ↦ rw other
]

average_new :
    (k j : BalanceKey) (bs : List Balance)
    → find_balance k bs ≡ none
    → average_of j (new_balance k ∷ bs) ≡ average_of j bs
average_new k j bs e = elim (Bool-cases (same_key k j)) [
  | inl same ↦ rw (same, ← same_key_eq k j same, e)
  | inr other ↦ rw other
]

old-IsLocked :
    (k : BalanceKey) (db : Db) (b : Balance)
    → find_balance k db.balances ≡ some b
    → IsLocked k db b db
old-IsLocked k db b e = record {
  found = e;
  on_hand_kept = λ j. refl;
  reserved_kept = λ j. refl;
  average_kept = λ j. refl;
  entries_kept = refl;
  reservations_kept = refl;
  next_id_kept = refl;
  rows_kept = λ all. all;
}

new-IsLocked :
    (k : BalanceKey) (db : Db)
    → find_balance k db.balances ≡ none
    → IsLocked k db (new_balance k) (record db { balances = new_balance k ∷ db.balances })
new-IsLocked k db e = record {
  found = rw (same_key_refl k);
  on_hand_kept = λ j. on_hand_new k j db.balances e;
  reserved_kept = λ j. reserved_new k j db.balances e;
  average_kept = λ j. average_new k j db.balances e;
  entries_kept = refl;
  reservations_kept = refl;
  next_id_kept = refl;
  rows_kept = λ all. ((omega arith, omega arith), all);
}

pub lock-IsLocked :
    (k : BalanceKey) (db : Db) (b : Balance) (new : Db)
    → lock_balance k db ≡ ok (b, new)
    → IsLocked k db b new
lock-IsLocked k db b new h = elim (lock-LockCases k db b new h) [
  | inl (same, found) ↦ subst (IsLocked k db b) (sym same) (old-IsLocked k db b found)
  | inr (grown, fresh, missing) ↦ rw (grown, fresh) (new-IsLocked k db missing)
]
