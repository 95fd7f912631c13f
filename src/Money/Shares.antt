-- ===== src/Money/Shares.antt =====
-- `Money.allocate` of packages/contracts/src/primitives/money.ts: an amount in equal parts, with the
-- units that are left over on the first of them.
use distribuitor_app.Prelude.{
  ℕ, zero, suc, ◌+◌, ◌-◌, ◌*◌, ◌/◌, ◌%◌, ◌≤◌, ◌<◌, ltb, ◌≡◌, refl, sym, ◌∙◌, ap, pos, ◌+ℤ◌, ◌*ℤ◌,
  ltb_ℤ, *ℤ_one, List, [], ◌∷◌, ◌++◌, map, length, replicate, length-append, All, Option, none,
  some, if◌then◌else◌, arith, true, false,
}
use distribuitor_app.Prelude.Results.{Result, ok, range, ◌>>◌, throw_if}
use distribuitor_app.Decimal.{Decimal, half_up, down, rounded_ℕ}
use distribuitor_app.Money.{Money, money, money_display_scale}

-- `result[index] = …`, for an index of the list.
abbrev pub modify_at {ℓ} : {A : Type ℓ} → ℕ → (A → A) → List A → List A
modify_at index f [] = []
modify_at zero f (x ∷ xs) = f x ∷ xs
modify_at (suc index) f (x ∷ xs) = x ∷ modify_at index f xs

ltb-pos : (a b : ℕ) → ltb_ℤ (pos a) (pos b) ≡ ltb a b
ltb-pos a b = ground arith

+ℤ-pos : (a b : ℕ) → pos a +ℤ pos b ≡ pos (a + b)
unfolding ◌+ℤ◌
+ℤ-pos a b = ground arith

*ℤ-pos : (a b : ℕ) → pos a *ℤ pos b ≡ pos (a * b)
unfolding ◌*ℤ◌
*ℤ-pos a b = ground arith

-- The whole of a list of shares, in paise.
pub total_paise : List ℕ → ℕ
total_paise [] = 0
total_paise (n ∷ rest) = n + total_paise rest

total_paise-shares :
    (k m base : ℕ) → total_paise (replicate k (base + 1) ++ replicate m base) ≡ base * (k + m) + k
unfolding total_paise
total_paise-shares zero zero base = omega arith
total_paise-shares zero (suc m) base = grind (arith, total_paise-shares zero m base)
total_paise-shares (suc k) m base = grind (arith, total_paise-shares k m base)

length-replicate : (k a : ℕ) → length (replicate k a) ≡ k
length-replicate zero a = refl
length-replicate (suc k) a = ap suc (length-replicate k a)

shares-All :
    (k m base : ℕ)
    → All (λ (n : ℕ). (base ≤ n) × (n ≤ base + 1)) (replicate k (base + 1) ++ replicate m base)
shares-All zero zero base = tt
shares-All zero (suc m) base = ((omega arith, omega arith), shares-All zero m base)
shares-All (suc k) m base = ((omega arith, omega arith), shares-All k m base)

module _ ⦃dec : Decimal⦄ where
  -- The loop: `none` when it still runs after so many rounds.
  unfoldable pub hand_out : ℕ → Money → Money → ℕ → ℕ → Money → List Money → Option (List Money)
  hand_out zero total one parts index distributed shares = none
  hand_out (suc rounds) total one parts index distributed shares =
      let rest =
        hand_out rounds total one parts ((index + 1) % parts) (dec.plus distributed one)
          (modify_at index (λ (share : Money). dec.plus share one) shares) in
      if dec.less_than distributed total then rest else some shares

  -- The parts of an amount, if the loop ends within `rounds` rounds.
  unfoldable pub allocate : ℕ → ℕ → ℕ → Money → Result (Option (List Money))
  allocate rounds parts scale amount = do
    throw_if (ltb parts 1) range
    let one = dec.of (pos 1) scale
    let total = dec.to_decimal_places scale half_up amount
    let base = dec.to_decimal_places scale down (dec.divided_by total (dec.of (pos parts) 0))
    ok (
        hand_out rounds total one parts 0 (dec.times base (dec.of (pos parts) 0))
          (replicate parts base))

  -- So many paise.
  abbrev pub paise : ℕ → Money
  paise n = dec.of (pos n) 2

  less_than_paise : (a b : ℕ) → dec.less_than (paise a) (paise b) ≡ ltb a b
  less_than_paise a b = simp (dec.less_than_of, *ℤ_one, ltb-pos a b)

  plus_paise : (a b : ℕ) → dec.plus (paise a) (paise b) ≡ paise (a + b)
  plus_paise a b = simp (dec.plus_of, *ℤ_one, +ℤ-pos a b)

  times_paise : (a n : ℕ) → dec.times (paise a) (dec.of (pos n) 0) ≡ paise (a * n)
  times_paise a n = simp (dec.times_of, *ℤ-pos a n)

  -- The next part gets its unit.
  modify_at_next :
      (k r base : ℕ)
      → modify_at k
          (λ (share : Money). dec.plus share (paise 1))
          (map paise (replicate k (base + 1) ++ replicate (suc r) base))
        ≡ map paise (replicate (suc k) (base + 1) ++ replicate r base)
  modify_at_next zero r base = rw (plus_paise base 1) refl
  modify_at_next (suc k) r base = ap (λ xs. paise (base + 1) ∷ xs) (modify_at_next k r base)

  -- The loop ends after the `r` units that are left, and never starts over with the first part.
  hand_out_ends :
      (r k left base n rounds d t : ℕ)
      → 0 < left
      → r < rounds
      → n ≡ k + r + left
      → t ≡ d + r
      → hand_out rounds
          (paise t)
          (paise 1)
          n
          k
          (paise d)
          (map paise (replicate k (base + 1) ++ replicate (r + left) base))
        ≡ some (map paise (replicate (k + r) (base + 1) ++ replicate (left) base))
  unfolding hand_out
  hand_out_ends r k left base n zero d t l h e f = absurd (omega arith)
  hand_out_ends zero k left base n (suc rounds) d t l h e f =
      let ended : ltb d t ≡ false = ground arith in
      let same : k + 0 ≡ k = omega arith in
      let alone : 0 + left ≡ left = omega arith in rw (less_than_paise d t, ended, same, alone) refl
  hand_out_ends (suc r) k left base n (suc rounds) d t l h e f =
      let runs : ltb d t ≡ true = ground arith in
      let next : (k + 1) % n ≡ suc k = grind arith in
      let grows : suc r + left ≡ suc (r + left) = omega arith in
      let there : k + suc r ≡ suc k + r = omega arith in
      rw
        (
          less_than_paise d t,
          runs,
          next,
          grows,
          modify_at_next k (r + left) base,
          plus_paise d 1,
          there,
        )
        (hand_out_ends r (suc k) left base n rounds (d + 1) t l (omega arith) (omega arith)
          (omega arith))

  map-replicate : (k a : ℕ) → map paise (replicate k a) ≡ replicate k (paise a)
  map-replicate zero a = refl
  map-replicate (suc k) a = ap (λ xs. paise a ∷ xs) (map-replicate k a)

  hand_out_all :
      (n r base rounds t : ℕ)
      → r < n
      → n ≤ rounds
      → t ≡ base * n + r
      → hand_out rounds (paise t) (paise 1) n 0 (paise (base * n)) (replicate n (paise base))
        ≡ some (map paise (replicate r (base + 1) ++ replicate (n - r) base))
  hand_out_all n r base rounds t small enough e =
      let whole : r + (n - r) ≡ n = omega arith in
      let start : 0 + r ≡ r = omega arith in
      let ends =
        hand_out_ends r 0 (n - r) base n rounds (base * n) t (omega arith) (omega arith)
          (omega arith) e in
      rw (sym (map-replicate n base)) (rw (whole, start) at ends)

  -- An amount that is not negative is split into parts that add up to it, rounded to paise, and that
  -- differ by a paisa at most; as many rounds of the loop as there are parts are enough.
  pub allocate_even :
      (n rounds a : ℕ)
      → 1 ≤ n
      → n ≤ rounds
      → (shares : List ℕ) × (allocate rounds n money_display_scale (money (pos a))
          ≡ ok (some (map paise shares)))
        × (total_paise shares ≡ rounded_ℕ half_up a 100)
        × (length shares ≡ n)
        × ((base : ℕ) × All (λ (share : ℕ). (base ≤ share) × (share ≤ base + 1)) shares)
  unfolding allocate
  allocate_even n rounds a positive enough =
      let t = rounded_ℕ half_up a 100 in
      let small : t % n < n = grind arith in
      let parted : t ≡ t / n * n + t % n = grind arith in
      let rounded_is : dec.to_decimal_places 2 half_up (money (pos a)) ≡ paise t =
        dec.to_decimal_places_of 2 half_up (pos a) 4 in
      let some_parts : ltb n 1 ≡ false = ground arith in
      (
        replicate (t % n) (t / n + 1) ++ replicate (n - t % n) (t / n),
        rw
            (
              some_parts,
              rounded_is,
              dec.quotient_rounded 2 0 down (pos t) n positive,
              times_paise (t / n) n,
            )
            (ap (λ x. ok x) (hand_out_all n (t % n) (t / n) rounds t small enough parted)),
        total_paise-shares (t % n) (n - t % n) (t / n) ∙ grind arith,
        length-append (replicate (t % n) (t / n + 1)) (replicate (n - t % n) (t / n))
            ∙ rw (length-replicate (t % n) (t / n + 1), length-replicate (n - t % n) (t / n))
                (omega arith),
        (t / n, shares-All (t % n) (n - t % n) (t / n)),
      )
