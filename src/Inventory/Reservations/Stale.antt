-- ===== src/Inventory/Reservations/Stale.antt =====
-- Which reservations the sweep closes.
use distribuitor_app.Prelude.{
  ℕ, zero, suc, ◌≡◌, ◌≢◌, ◌≤◌, ◌⊎◌, inl, inr, refl, sym, ap, subst, ◌∙◌, Bool, true, false, not,
  ◌&&◌, some, List, [], ◌∷◌, ◌==◌, select, All, All-map, arith, Bool-cases, if◌then◌else◌,
  Option-cases,
}
use mathlib.Core.Option.{some-injective}
use distribuitor_app.Prelude.Results.{Result, ok, err}
use distribuitor_app.Decimal.{Decimal}
use distribuitor_app.Statuses.Stock.{ReservationStatus, active, expired, can_transition_reservation}
use distribuitor_app.Inventory.Tables.{Reservation, Db}
use distribuitor_app.Inventory.Tables.Steps.{Ensures-ok, continue-Ensures, throw_if-Ensures}
use distribuitor_app.Inventory.Ledger.Effects.{adjust_reserved-IsAdjusted}
use distribuitor_app.Inventory.Reservations.{
  find_reservation, update_reservation, close, load, expire_each, expire_stale, is_stale, take_ids,
}
use distribuitor_app.Inventory.Reservations.Rows.{Distinct, find_reservation-update}
use distribuitor_app.Inventory.Reservations.Steps.{close_loaded-Ensures, load_found}
use distribuitor_app.Inventory.Reservations.Invariant.{IsConsistent}
use distribuitor_app.Inventory.Reservations.Sweep.{expire_stale-IsConsistent}

-- The row of a reservation after it is expired.
abbrev pub expired_row : ℕ → Reservation → Reservation
expired_row now r = record r { status = expired; released_at = some now }

-- An active reservation whose date has come.
pub record IsStale (now : ℕ) (r : Reservation) : Type 0 where
  pub was_active : r.status ≡ active
  pub date : ℕ
  pub dated : r.expires_at ≡ some date
  pub past : date ≤ now

-- The rows of an id before and after: nothing has changed, or it was stale and is expired.
abbrev pub Swept : (ℕ → Bool) → ℕ → ℕ → List Reservation → List Reservation → Type 0
Swept visible now id before after =
    (find_reservation id after ≡ find_reservation id before)
    ⊎ (r : Reservation) × (find_reservation id before ≡ some r)
      × (visible r.warehouse ≡ true)
      × IsStale now r
      × (find_reservation id after ≡ some (expired_row now r))

find_reservation-update_ne :
    (id j : ℕ) (f : Reservation → Reservation) (rs : List Reservation)
    → ((r : Reservation) → (f r).id ≡ r.id)
    → (id == j) ≡ false
    → find_reservation j (update_reservation id f rs) ≡ find_reservation j rs
find_reservation-update_ne id j f [] keeps other = refl
find_reservation-update_ne id j f (c ∷ rest) keeps other = elim (Bool-cases (c.id == id)) [
  | inl same ↦
      let miss : (c.id == j) ≡ false = ground arith in
      let miss' : ((f c).id == j) ≡ false = rw (keeps c) miss in
      rw (same, if◌then◌else◌) (rw (miss, miss', if◌then◌else◌) refl)
  | inr ne ↦
      rw (ne, if◌then◌else◌)
        (elim (Bool-cases (c.id == j)) [
          | inl hit ↦ rw hit refl
          | inr miss ↦ rw miss (find_reservation-update_ne id j f rest keeps other)
        ])
]

All-select :
    (P : Reservation → Type 0) (p : Reservation → Bool) (rs : List Reservation)
    → All P rs
    → All (λ (r : Reservation). P r × (p r ≡ true)) (select p rs)
All-select P p [] all = tt
All-select P p (r ∷ rest) all = elim (Bool-cases (p r)) [
  | inl passes ↦ rw (passes, if◌then◌else◌) ((all.0, passes), All-select P p rest all.1)
  | inr fails ↦ rw (fails, if◌then◌else◌) (All-select P p rest all.1)
]

All-take_ids :
    (Q : ℕ → Type 0) (n : ℕ) (rs : List Reservation)
    → All (λ (r : Reservation). Q r.id) rs
    → All Q (take_ids n rs)
All-take_ids Q zero rs all = tt
All-take_ids Q (suc n) [] all = tt
All-take_ids Q (suc n) (r ∷ rest) all = (all.0, All-take_ids Q n rest all.1)

found_below :
    (x : Reservation) (rest zs : List Reservation)
    → All (λ (c : Reservation). (c.id == x.id) ≡ false) zs
    → All (λ (c : Reservation). find_reservation c.id rest ≡ some c) zs
    → All (λ (c : Reservation). find_reservation c.id (x ∷ rest) ≡ some c) zs
found_below x rest [] apart all = tt
found_below x rest (c ∷ zs) apart all =
    let ne : (x.id == c.id) ≡ false = ground (arith, apart.0) in
    (rw (ne, if◌then◌else◌) all.0, found_below x rest zs apart.1 all.1)

-- With distinct ids, each row is the one that its id finds.
found-All :
    (rs : List Reservation)
    → Distinct rs
    → All (λ (r : Reservation). find_reservation r.id rs ≡ some r) rs
found-All [] d = tt
found-All (r ∷ rest) d =
    let here : (r.id == r.id) ≡ true = ground arith in
    (rw (here, if◌then◌else◌) refl, found_below r rest rest d.0 (found-All rest d.1))

stale_lem : (now : ℕ) (r : Reservation) → is_stale now r ≡ true → IsStale now r
stale_lem now r e = elim (Option-cases r.expires_at) [
  | inl never ↦ absurd (ground arith)
  | inr (date, dated) ↦ record {
    was_active = ground arith;
    date = date;
    dated = dated;
    past = ground arith;
  }
]

allowed : (s t : ReservationStatus) → can_transition_reservation s t ≡ true → s ≡ active
unfolding can_transition_reservation
allowed s t e = ground arith

not_expired : expired ≢ active
not_expired e = cc

module _ ⦃dec : Decimal⦄ (visible : ℕ → Bool) (now : ℕ) where
  -- What an expiry that succeeds does to the rows.
  Expires : ℕ → Db → Db → Type 0
  Expires id db new =
      (r : Reservation) × (find_reservation id db.reservations ≡ some r)
      × (r.status ≡ active)
      × (new.reservations ≡ update_reservation id (expired_row now) db.reservations)

  close-Expires :
      (id : ℕ) (db new : Db) → close visible now id expired db ≡ ok (tt, new) → Expires id db new
  unfolding close Expires
  close-Expires id db new e =
      Ensures-ok (λ (_ : Unit {0}) new. Expires id db new) (close visible now id expired db)
        (continue-Ensures (λ (_ : Unit {0}) new. Expires id db new) (load visible id db) _
          λ r mid l.
            let (same, found, seen) = load_found visible db id r mid l in
            rw same (
              throw_if-Ensures (λ (_ : Unit {0}) new. Expires id db new)
                (not (can_transition_reservation r.status expired)) _ _ db
                λ step.
                  close_loaded-Ensures (λ _ new. Expires id db new) now id db r expired
                    λ held last f. (
                      r,
                      found,
                      allowed r.status expired (ground arith),
                      ap (update_reservation id (expired_row now))
                          (adjust_reserved-IsAdjusted r.warehouse r.product r.variant _ db last held
                            f).reservations_kept,
                    )))
        e

  -- A row before and after a sweep of ids of which `Q` holds.
  Changed : (ℕ → Type 0) → ℕ → List Reservation → List Reservation → Type 0
  Changed Q id before after =
      (find_reservation id after ≡ find_reservation id before)
      ⊎ (r : Reservation) × (find_reservation id before ≡ some r)
        × (r.status ≡ active)
        × Q id
        × (find_reservation id after ≡ some (expired_row now r))

  after_close :
      (Q : ℕ → Type 0) (id j : ℕ) (db new : Db) (after : List Reservation)
      → Q id
      → Expires id db new
      → Changed Q j new.reservations after
      → Changed Q j db.reservations after
  unfolding Expires Changed
  after_close Q id j db new after q (r, found, a, made) c = elim (Bool-cases (id == j)) [
    | inl same ↦
        let same_id : id ≡ j = ground arith in
        let was : find_reservation j db.reservations ≡ some r = rw same_id at found in
        let became : find_reservation j new.reservations ≡ some (expired_row now r) =
          rw (made, same_id)
            (find_reservation-update j (expired_row now) (λ _. refl) db.reservations r was) in
        elim c [
          | inl kept ↦ inr (r, was, a, subst Q same_id q, kept ∙ became)
          | inr (s, found_s, active_s, _, _) ↦
              let is_expired = some-injective _ s (sym became ∙ found_s) in
              absurd (not_expired (ap (λ (x : Reservation). x.status) is_expired ∙ active_s))
        ]
    | inr other ↦
        let kept : find_reservation j new.reservations ≡ find_reservation j db.reservations =
          rw made
            (find_reservation-update_ne id j (expired_row now) db.reservations (λ _. refl) other) in
        rw kept at c
  ]

  expire_each-Changed :
      (Q : ℕ → Type 0) (ids : List ℕ) (db : Db) (j : ℕ)
      → All Q ids
      → Changed Q j db.reservations (expire_each visible now ids db).1.reservations
  unfolding expire_each Changed
  expire_each-Changed Q [] db j all = inl refl
  expire_each-Changed Q (id ∷ ids) db j all =
      go (λ db'. expire_each-Changed Q ids db' j all.1) (close visible now id expired db) refl
    where
      go :
          ((db' : Db)
            → Changed Q j db'.reservations (expire_each visible now ids db').1.reservations)
          → (x : Result (Unit {0} × Db)) → close visible now id expired db ≡ x
          → Changed Q j db.reservations
              (elim x as (λ _. ℕ × Db) [
                | ok (_, new) ↦ let (n, last) = expire_each visible now ids new in (suc n, last)
                | err e ↦ expire_each visible now ids db
              ]).1.reservations
      go rest (ok (u, new)) e =
          after_close Q id j db new _ all.0 (close-Expires id db new e) (rest new)
      go rest (err x) e = rest db

  -- On consistent tables, the sweep leaves consistent tables, and changes a reservation only if it was
  -- in scope, active and past its date, in which case it is EXPIRED and released now.
  pub expire_stale_sweeps :
      (db : Db) (id : ℕ)
      → IsConsistent db
      → IsConsistent (expire_stale visible now db).1
        × Swept visible now id db.reservations (expire_stale visible now db).1.reservations
  unfolding expire_stale Changed
  expire_stale_sweeps db id c =
      let Q : ℕ → Type 0 = λ id.
        (r : Reservation) × (find_reservation id db.reservations ≡ some r)
        × (is_stale now r && visible r.warehouse ≡ true) in
      let picked =
        All-select (λ (r : Reservation). find_reservation r.id db.reservations ≡ some r)
          (λ r. is_stale now r && visible r.warehouse) db.reservations
          (found-All db.reservations c.distinct) in
      let ids =
        All-take_ids Q 500 (select (λ r. is_stale now r && visible r.warehouse) db.reservations)
          (All-map _ _ (λ r h. (r, h.0, h.1)) _ picked) in
      (
        expire_stale-IsConsistent visible now db c,
        elim (expire_each-Changed Q _ db id ids) [
          | inl kept ↦ inl kept
          | inr (r, found, a, (s, found_s, stale), after) ↦
              let same : s ≡ r = some-injective s r (sym found_s ∙ found) in
              let stale_r : is_stale now r && visible r.warehouse ≡ true = rw same at stale in
              inr (r, found, ground arith, stale_lem now r (ground arith), after)
        ],
      )
