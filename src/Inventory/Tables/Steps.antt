-- ===== src/Inventory/Tables/Steps.antt =====
-- What a transaction ensures of its value and of the new state, where it succeeds.
use distribuitor_app.Prelude.{◌≡◌, refl, subst, Bool, true, false}
use distribuitor_app.Prelude.Results.{Result, ok, err, Error}
use distribuitor_app.Inventory.Tables.{Db, Tx, ◌>>=◌, ◌>>◌, throw_if, lift, continue}

abbrev pub Ensures {ℓ κ} : {A : Type ℓ} → (A → Db → Type κ) → Result (A × Db) → Type κ
Ensures P (ok (a, db)) = P a db
Ensures P (err e) = Unit

pub continue-Ensures {ℓ κ ℓ'} :
    {A : Type ℓ} {B : Type κ} (P : B → Db → Type ℓ') (x : Result (A × Db)) (f : A → Tx B)
    → ((a : A) (db' : Db) → x ≡ ok (a, db') → Ensures P (f a db'))
    → Ensures P (continue x f)
continue-Ensures P (ok (a, db)) f h = h a db refl
continue-Ensures P (err e) f h = tt

pub lift-Ensures {ℓ κ ℓ'} :
    {A : Type ℓ} {B : Type κ} (P : B → Db → Type ℓ') (x : Result A) (f : A → Tx B) (db : Db)
    → ((a : A) → x ≡ ok a → Ensures P (f a db))
    → Ensures P ((lift x >>= f) db)
lift-Ensures P (ok a) f db h = h a refl
lift-Ensures P (err e) f db h = tt

pub throw_if-Ensures {ℓ κ} :
    {B : Type ℓ} (P : B → Db → Type κ) (c : Bool) (e : Error) (k : Tx B) (db : Db)
    → (c ≡ false → Ensures P (k db))
    → Ensures P ((throw_if c e >> k) db)
throw_if-Ensures P true e k db h = tt
throw_if-Ensures P false e k db h = h refl

-- A property that is ensured holds of a result that is known.
pub Ensures-ok {ℓ κ} :
    {A : Type ℓ} (P : A → Db → Type κ) (x : Result (A × Db)) {a : A} {db : Db}
    → Ensures P x
    → x ≡ ok (a, db)
    → P a db
Ensures-ok P (ok (b, db')) {a} {db} h e = subst (λ r. Ensures P r) e h
Ensures-ok P (err e') h e = subst (λ r. Ensures P r) e h
