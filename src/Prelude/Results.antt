-- ===== src/Prelude/Results.antt =====
-- Fallible operations over a stored state. An exception that leaves a request rolls the session
-- back, so an error carries no state.
use mathlib.Core.Path.{◌≡◌, refl}
use mathlib.Core.Logic.{◌⊎◌, inl, inr}
use mathlib.Core.Bool.{Bool, true, false}
use mathlib.Core.Option.{Option, none, some}

pub data Result {ℓ κ} (E : Type ℓ) (A : Type κ) : Type (ℓ ⊔ κ) where
  ok : A → Result E A
  err : E → Result E A

infixl 5 ◌>>=◌ ◌>>◌
abbrev pub ◌>>=◌ {ℓ κ ι} :
    {E : Type ℓ} {A : Type κ} {B : Type ι} → Result E A → (A → Result E B) → Result E B
ok a >>= f = f a
err e >>= f = err e

abbrev pub ◌>>◌ {ℓ ι} : {E : Type ℓ} {B : Type ι} → Result E (Unit {0}) → Result E B → Result E B
m >> k = m >>= λ _. k

-- `if c: raise e`
abbrev pub raise_if {ℓ} : {E : Type ℓ} → Bool → E → Result E (Unit {0})
raise_if true e = err e
raise_if false e = ok tt

-- `if not x: raise e`, for an optional `x` that is used after the test.
abbrev pub or_raise {ℓ κ} : {E : Type ℓ} {A : Type κ} → Option A → E → Result E A
or_raise none e = err e
or_raise (some a) e = ok a

pub result-cases {ℓ κ} :
    {E : Type ℓ} {A : Type κ} (r : Result E A) → ((e : E) × (r ≡ err e)) ⊎ ((a : A) × (r ≡ ok a))
result-cases (err e) = inl (e, refl)
result-cases (ok a) = inr (a, refl)

-- What a chain that succeeds says of its steps.
pub bind-ok {ℓ κ ι} :
    {E : Type ℓ} {A : Type κ} {B : Type ι} (m : Result E A) (f : A → Result E B) (b : B)
    → (m >>= f) ≡ ok b
    → (a : A) × (m ≡ ok a) × (f a ≡ ok b)
bind-ok (ok a) f b e = (a, refl, e)
bind-ok (err x) f b e = cc

pub raise_if-ok {ℓ} :
    {E : Type ℓ} (c : Bool) (x : E) (u : Unit {0}) → raise_if c x ≡ ok u → c ≡ false
raise_if-ok true x u e = cc
raise_if-ok false x u e = refl

pub or_raise-ok {ℓ κ} :
    {E : Type ℓ} {A : Type κ} (o : Option A) (x : E) (a : A) → or_raise o x ≡ ok a → o ≡ some a
or_raise-ok none x a e = cc
or_raise-ok (some b) x a e = cc

pub bind-err {ℓ κ ι} :
    {E : Type ℓ} {A : Type κ} {B : Type ι} (m : Result E A) (f : A → Result E B)
    → (x : E) × (m ≡ err x)
    → (x : E) × ((m >>= f) ≡ err x)
bind-err m f (x, e) = (x, rw e refl)

pub ok_injective {ℓ κ} :
    {E : Type ℓ} {A : Type κ} {a b : A} → ◌≡◌ {A = Result E A} (ok a) (ok b) → a ≡ b
ok_injective e = cc
