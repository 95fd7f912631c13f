-- ===== src/Prelude/Results/Inversion.antt =====
-- What a successful result says of the steps that led to it.
use mathlib.Core.Path.{◌≡◌, refl}
use mathlib.Core.Bool.{Bool, true, false}
use mathlib.Core.Option.{Option, none, some}
use distribuitor_app.Prelude.Results.{Result, Error, ok, err, throw_if, ◌>>◌, ◌>>=◌}

pub throw_if-ok {ℓ} :
    {A : Type ℓ} {v : A} (c : Bool) (e : Error) (k : Result A)
    → (throw_if c e >> k) ≡ ok v
    → (c ≡ false) × (k ≡ ok v)
throw_if-ok true e k h = absurd cc
throw_if-ok false e k h = (refl, h)

pub bind-ok {ℓ κ} :
    {A : Type ℓ} {B : Type κ} {v : B} (x : Result A) (f : A → Result B)
    → (x >>= f) ≡ ok v
    → (a : A) × (x ≡ ok a) × (f a ≡ ok v)
bind-ok (ok a) f h = (a, refl, h)
bind-ok (err e) f h = absurd cc

pub option-ok {ℓ κ} :
    {A : Type ℓ} {B : Type κ} {v : B} (o : Option A) (e : Error) (f : A → Result B)
    → ◌≡◌ {A = Result B} (elim o [ none ↦ err e | some a ↦ f a ]) (ok v)
    → (a : A) × (o ≡ some a) × (f a ≡ ok v)
option-ok none e f h = absurd cc
option-ok (some a) e f h = (a, refl, h)

-- Equal pairs of a success have equal parts.
pub pair-ok {ℓ κ} :
    {A : Type ℓ} {B : Type κ} {a c : A} {b d : B}
    → ◌≡◌ {A = Result (A × B)} (ok (a, b)) (ok (c, d))
    → (c ≡ a) × (d ≡ b)
pair-ok e = (cc, cc)

pub ok-injective {ℓ} : {A : Type ℓ} {a b : A} → ok a ≡ ok b → b ≡ a
ok-injective e = cc
