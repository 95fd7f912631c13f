-- ===== src/Inventory/Tables/Rows.antt =====
-- Laws of the balance rows.
use distribuitor_app.Prelude.{
  ℕ, ◌≡◌, ◌↔◌, refl, sym, subst, true, false, pos, ◌+ℤ◌, ◌≤ℤ◌, Option, none, some, List, [], ◌∷◌,
  if◌then◌else◌, arith, All, Bool-cases, inl, inr,
}
use mathlib.Core.Option.{some-injective}
use distribuitor_app.Money.{Amount}
use distribuitor_app.Inventory.Tables.{
  BalanceKey, Balance, StockEntry, same_option, same_key, find_balance, update_balance,
}

pub same_option_iff : (a b : Option ℕ) → (same_option a b ≡ true) ↔ (a ≡ b)
same_option_iff none none = (λ _. refl, λ _. refl)
same_option_iff none (some b) = (λ e. cc, λ e. cc)
same_option_iff (some a) none = (λ e. cc, λ e. cc)
same_option_iff (some a) (some b) = (ground arith, ground arith)

pub same_key_refl : (k : BalanceKey) → same_key k k ≡ true
same_key_refl k =
    ground (
      arith,
      (same_option_iff k.variant k.variant).1 refl,
      (same_option_iff k.batch k.batch).1 refl,
    )

-- Keys that test as the same have the same fields.
abbrev pub SameFields : BalanceKey → BalanceKey → Type 0
SameFields a b =
    (a.warehouse ≡ b.warehouse)
    × (a.product ≡ b.product)
    × (a.variant ≡ b.variant)
    × (a.batch ≡ b.batch)

same_key-SameFields : (a b : BalanceKey) → same_key a b ≡ true → SameFields a b
same_key-SameFields a b e =
    ground (arith, (same_option_iff a.variant b.variant).0, (same_option_iff a.batch b.batch).0)

key_eq : (a b : BalanceKey) → SameFields a b → a ≡ b
key_eq a b h = cc

pub same_key_eq : (a b : BalanceKey) → same_key a b ≡ true → a ≡ b
same_key_eq a b e = key_eq a b (same_key-SameFields a b e)

abbrev pub on_hand_in : Option Balance → Amount
on_hand_in none = pos 0
on_hand_in (some b) = b.on_hand

abbrev pub reserved_in : Option Balance → Amount
reserved_in none = pos 0
reserved_in (some b) = b.reserved

abbrev pub average_in : Option Balance → Amount
average_in none = pos 0
average_in (some b) = b.average_cost

-- The stock at hand, the reserved stock and the average cost of a key; nothing without a row.
abbrev pub on_hand_of : BalanceKey → List Balance → Amount
on_hand_of k bs = on_hand_in (find_balance k bs)

abbrev pub reserved_of : BalanceKey → List Balance → Amount
reserved_of k bs = reserved_in (find_balance k bs)

abbrev pub average_of : BalanceKey → List Balance → Amount
average_of k bs = average_in (find_balance k bs)

-- The sum of the ledger rows of a key.
abbrev pub ledger_total : BalanceKey → List StockEntry → Amount
ledger_total k [] = pos 0
ledger_total k (e ∷ rest) =
    if same_key e.key k then e.quantity +ℤ ledger_total k rest else ledger_total k rest

abbrev map_option : (Balance → Balance) → Option Balance → Option Balance
map_option f none = none
map_option f (some b) = some (f b)

module _ (k : BalanceKey) (f : Balance → Balance) (keeps : (b : Balance) → (f b).key ≡ b.key) where
  pub find_balance-update_self :
      (bs : List Balance)
      → find_balance k (update_balance k f bs) ≡ map_option f (find_balance k bs)
  find_balance-update_self [] = refl
  find_balance-update_self (b ∷ rest) = elim (Bool-cases (same_key b.key k)) [
    | inl e ↦ rw (e, if◌then◌else◌) (rw (keeps b, e))
    | inr e ↦ rw (e, if◌then◌else◌) (rw e (find_balance-update_self rest))
  ]

  pub find_balance-update_ne :
      (j : BalanceKey) (bs : List Balance)
      → same_key k j ≡ false
      → find_balance j (update_balance k f bs) ≡ find_balance j bs
  find_balance-update_ne j [] ne = refl
  find_balance-update_ne j (b ∷ rest) ne = elim (Bool-cases (same_key b.key k)) [
    | inl e ↦
        let other : same_key b.key j ≡ false = rw (same_key_eq b.key k e) ne in
        rw (e, if◌then◌else◌) (rw (keeps b, other))
    | inr e ↦
        rw (e, if◌then◌else◌)
          (elim (Bool-cases (same_key b.key j)) [
            | inl same ↦ rw same
            | inr other ↦ rw other (find_balance-update_ne j rest ne)
          ])
  ]

  -- The figure of each key after an update of the row `b` of `k`.
  pub on_hand_of-update :
      (j : BalanceKey) (bs : List Balance) (b : Balance)
      → find_balance k bs ≡ some b
      → on_hand_of j (update_balance k f bs)
        ≡ (if same_key k j then (f b).on_hand else on_hand_of j bs)
  on_hand_of-update j bs b found = elim (Bool-cases (same_key k j)) [
    | inl e ↦ rw (e, ← same_key_eq k j e, find_balance-update_self bs, found)
    | inr e ↦ rw (e, find_balance-update_ne j bs e)
  ]

  pub reserved_of-update :
      (j : BalanceKey) (bs : List Balance) (b : Balance)
      → find_balance k bs ≡ some b
      → reserved_of j (update_balance k f bs)
        ≡ (if same_key k j then (f b).reserved else reserved_of j bs)
  reserved_of-update j bs b found = elim (Bool-cases (same_key k j)) [
    | inl e ↦ rw (e, ← same_key_eq k j e, find_balance-update_self bs, found)
    | inr e ↦ rw (e, find_balance-update_ne j bs e)
  ]

  pub average_of-update :
      (j : BalanceKey) (bs : List Balance) (b : Balance)
      → find_balance k bs ≡ some b
      → average_of j (update_balance k f bs)
        ≡ (if same_key k j then (f b).average_cost else average_of j bs)
  average_of-update j bs b found = elim (Bool-cases (same_key k j)) [
    | inl e ↦ rw (e, ← same_key_eq k j e, find_balance-update_self bs, found)
    | inr e ↦ rw (e, find_balance-update_ne j bs e)
  ]

  pub All-update {κ} :
      (P : Balance → Type κ) (bs : List Balance) (b : Balance)
      → All P bs
      → find_balance k bs ≡ some b
      → P (f b)
      → All P (update_balance k f bs)
  All-update P [] b all found p = tt
  All-update P (c ∷ rest) b all found p = elim (Bool-cases (same_key c.key k)) [
    | inl e ↦
        let same : some c ≡ some b = rw (e, if◌then◌else◌) at found in
        rw (e, if◌then◌else◌) (subst (λ x. P (f x)) (sym (some-injective c b same)) p, all.1)
    | inr e ↦
        let later : find_balance k rest ≡ some b = rw (e, if◌then◌else◌) at found in
        rw (e, if◌then◌else◌) (all.0, All-update P rest b all.1 later p)
  ]

-- Reserved stock is stock at hand.
abbrev pub IsSoundRow : Balance → Type 0
IsSoundRow b = (pos 0 ≤ℤ b.reserved) × (b.reserved ≤ℤ b.on_hand)
