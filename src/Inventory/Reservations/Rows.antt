-- ===== src/Inventory/Reservations/Rows.antt =====
-- The stock that the active reservations hold, key by key.
use distribuitor_app.Prelude.{
  ℕ, ◌≡◌, ap, Bool, true, false, ◌&&◌, pos, ◌+ℤ◌, ◌-ℤ◌, ◌==◌, some, List, [], ◌∷◌, arith,
  if◌then◌else◌, int_laws, All, find_first, Bool-cases, inl, inr,
}
use mathlib.Core.Option.{some-injective}
use distribuitor_app.Money.{Amount}
use distribuitor_app.Inventory.Tables.{BalanceKey, Reservation, same_key}
use distribuitor_app.Inventory.Reservations.{
  is_active, key_of, find_reservation, update_reservation,
}

-- What a reservation holds at a key: nothing unless it is active and of that key.
abbrev pub share : BalanceKey → Reservation → Amount
share k r = if is_active r.status && same_key (key_of r) k then r.quantity else pos 0

abbrev pub held_total : BalanceKey → List Reservation → Amount
held_total k [] = pos 0
held_total k (r ∷ rest) = share k r +ℤ held_total k rest

pub held_total-update :
    (k : BalanceKey) (id : ℕ) (f : Reservation → Reservation) (rs : List Reservation)
    (r : Reservation)
    → find_reservation id rs ≡ some r
    → held_total k (update_reservation id f rs) ≡ held_total k rs -ℤ share k r +ℤ share k (f r)
held_total-update k id f [] r e = cc
held_total-update k id f (c ∷ rest) r e = elim (Bool-cases (c.id == id)) [
  | inl same ↦
      let first : some c ≡ some r = rw (same, if◌then◌else◌) at e in
      rw (same, if◌then◌else◌, some-injective c r first) (omega int_laws)
  | inr other ↦
      let later : find_reservation id rest ≡ some r = rw (other, if◌then◌else◌) at e in
      rw (other, if◌then◌else◌, held_total-update k id f rest r later) (omega int_laws)
]

-- No two rows have the same id.
abbrev pub Distinct : List Reservation → Type 0
Distinct [] = Unit
Distinct (r ∷ rest) = All (λ (c : Reservation). (c.id == r.id) ≡ false) rest × Distinct rest

found_ne :
    (p : Reservation → Bool) (id : ℕ) (rs : List Reservation) (r : Reservation)
    → All (λ (c : Reservation). (c.id == id) ≡ false) rs
    → find_first p rs ≡ some r
    → (r.id == id) ≡ false
found_ne p id [] r all e = cc
found_ne p id (c ∷ rest) r all e = elim (Bool-cases (p c)) [
  | inl same ↦
      let first : some c ≡ some r = rw (same, if◌then◌else◌) at e in
      rw (← some-injective c r first) all.0
  | inr other ↦ found_ne p id rest r all.1 (rw (other, if◌then◌else◌) at e)
]

pub found_passes :
    (p : Reservation → Bool) (rs : List Reservation) (r : Reservation)
    → find_first p rs ≡ some r
    → p r ≡ true
found_passes p [] r e = cc
found_passes p (c ∷ rest) r e = elim (Bool-cases (p c)) [
  | inl same ↦
      let first : some c ≡ some r = rw (same, if◌then◌else◌) at e in
      rw (← some-injective c r first) same
  | inr other ↦ found_passes p rest r (rw (other, if◌then◌else◌) at e)
]

-- With distinct ids, a row that a test finds is the row of its id.
pub find_reservation-found :
    (p : Reservation → Bool) (rs : List Reservation) (r : Reservation)
    → Distinct rs
    → find_first p rs ≡ some r
    → find_reservation r.id rs ≡ some r
find_reservation-found p [] r d e = cc
find_reservation-found p (c ∷ rest) r d e = elim (Bool-cases (p c)) [
  | inl same ↦
      let first : some c ≡ some r = rw (same, if◌then◌else◌) at e in
      rw (← some-injective c r first) (ground arith)
  | inr other ↦
      let later : find_first p rest ≡ some r = rw (other, if◌then◌else◌) at e in
      let ne = found_ne p c.id rest r d.0 later in
      let ne' : (c.id == r.id) ≡ false = ground arith in
      rw (ne', if◌then◌else◌) (find_reservation-found p rest r d.1 later)
]

module _ (id : ℕ) (f : Reservation → Reservation)
    (keeps : (r : Reservation) → (f r).id ≡ r.id) where
  pub All-update_reservation {κ} :
      (P : ℕ → Type κ) (rs : List Reservation)
      → All (λ (r : Reservation). P r.id) rs
      → All (λ (r : Reservation). P r.id) (update_reservation id f rs)
  All-update_reservation P [] all = tt
  All-update_reservation P (r ∷ rest) all = elim (Bool-cases (r.id == id)) [
    | inl same ↦ rw (same, if◌then◌else◌) (rw (keeps r) all.0, all.1)
    | inr other ↦ rw (other, if◌then◌else◌) (all.0, All-update_reservation P rest all.1)
  ]

  pub find_reservation-update :
      (rs : List Reservation) (r : Reservation)
      → find_reservation id rs ≡ some r
      → find_reservation id (update_reservation id f rs) ≡ some (f r)
  find_reservation-update [] r e = cc
  find_reservation-update (c ∷ rest) r e = elim (Bool-cases (c.id == id)) [
    | inl same ↦
        let first : some c ≡ some r = rw (same, if◌then◌else◌) at e in
        let hit : ((f c).id == id) ≡ true = rw (keeps c) same in
        rw (same, if◌then◌else◌)
          (rw (hit, if◌then◌else◌)
            (ap (λ (x : Reservation). some (f x)) (some-injective c r first)))
    | inr other ↦
        let later : find_reservation id rest ≡ some r = rw (other, if◌then◌else◌) at e in
        rw (other, if◌then◌else◌) (rw (other, if◌then◌else◌) (find_reservation-update rest r later))
  ]

  pub Distinct-update :
      (rs : List Reservation) → Distinct rs → Distinct (update_reservation id f rs)
  Distinct-update [] d = tt
  Distinct-update (r ∷ rest) d = elim (Bool-cases (r.id == id)) [
    | inl same ↦ rw (same, if◌then◌else◌) (rw (keeps r) d.0, d.1)
    | inr other ↦
        rw (other, if◌then◌else◌)
          (All-update_reservation (λ i. (i == r.id) ≡ false) rest d.0, Distinct-update rest d.1)
  ]
