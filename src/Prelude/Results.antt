-- ===== src/Prelude/Results.antt =====
-- Code that may raise: a value, or the exception that leaves it.
use mathlib.Core.Path.{◌≡◌, refl, subst}
use mathlib.Core.Logic.{◌⊎◌, inl, inr}
use native.Mathlib.Omega.{arith}
use mathlib.Core.Bool.{Bool, true, false}

pub data Result {ℓ κ} (E : Type κ) (A : Type ℓ) : Type (ℓ ⊔ κ) where
  ok : A → Result E A
  err : E → Result E A

infixl 5 ◌>>=◌ ◌>>◌
abbrev pub ◌>>=◌ {ℓ κ ι} :
    {E : Type ι} {A : Type ℓ} {B : Type κ} → Result E A → (A → Result E B) → Result E B
ok a >>= f = f a
err e >>= f = err e

abbrev pub ◌>>◌ {ℓ ι} : {E : Type ι} {B : Type ℓ} → Result E (Unit {0}) → Result E B → Result E B
m >> k = m >>= λ _. k

-- `if test: raise e`
abbrev pub raise_if {ι} : {E : Type ι} → Bool → E → Result E (Unit {0})
raise_if true e = err e
raise_if false e = ok tt

-- The call returned.
abbrev pub is_ok {ℓ ι} : {E : Type ι} {A : Type ℓ} → Result E A → Bool
is_ok (ok _) = true
is_ok (err _) = false

pub Result-cases {ℓ κ} :
    {E : Type κ} {A : Type ℓ} (r : Result E A) → ((e : E) × (r ≡ err e)) ⊎ ((a : A) × (r ≡ ok a))
Result-cases (ok a) = inr (a, refl)
Result-cases (err e) = inl (e, refl)

-- What the call returns, if it returns, satisfies a predicate.
abbrev pub Returns {ℓ κ} : {E : Type κ} {A : Type ℓ} → (A → Type 0) → Result E A → Type 0
Returns P (ok a) = P a
Returns P (err _) = Unit

-- A predicate of the result of a chain, from what it is for each value of the first call.
pub Returns-bind {ℓ κ ι} :
    {E : Type ι} {A : Type ℓ} {B : Type κ} (P : B → Type 0) (m : Result E A) (f : A → Result E B)
    → ((a : A) → m ≡ ok a → Returns P (f a))
    → Returns P (m >>= f)
Returns-bind P (ok a) f h = h a refl
Returns-bind P (err e) f h = tt

pub Returns-ok {ℓ κ} :
    {E : Type κ} {A : Type ℓ} (P : A → Type 0) (m : Result E A) (a : A)
    → m ≡ ok a
    → Returns P m
    → P a
Returns-ok P m a e h = subst (Returns P) e h

-- The call returns, with a value of the predicate.
abbrev pub Succeeds {ℓ κ} : {E : Type κ} {A : Type ℓ} → (A → Type 0) → Result E A → Type 0
Succeeds P (ok a) = P a
Succeeds P (err _) = ⊥

pub Succeeds-bind {ℓ κ ι} :
    {E : Type ι} {A : Type ℓ} {B : Type κ} (Q : A → Type 0) (P : B → Type 0) (m : Result E A)
    (f : A → Result E B)
    → Succeeds Q m
    → ((a : A) → Q a → Succeeds P (f a))
    → Succeeds P (m >>= f)
Succeeds-bind Q P (ok a) f q h = h a q
Succeeds-bind Q P (err e) f q h = q

pub is_ok-Succeeds {ℓ κ} :
    {E : Type κ} {A : Type ℓ} (m : Result E A) → is_ok m ≡ true → Succeeds (λ _. Unit) m
is_ok-Succeeds (ok a) h = tt
is_ok-Succeeds (err e) h = ground arith

pub Succeeds-is_ok {ℓ κ} :
    {E : Type κ} {A : Type ℓ} (P : A → Type 0) (m : Result E A) → Succeeds P m → is_ok m ≡ true
Succeeds-is_ok P (ok a) h = refl
Succeeds-is_ok P (err e) h = absurd h

pub Succeeds-ok {ℓ κ} :
    {E : Type κ} {A : Type ℓ} (P : A → Type 0) (m : Result E A)
    → Succeeds P m
    → (a : A) × (m ≡ ok a) × P a
Succeeds-ok P (ok a) h = (a, refl, h)
Succeeds-ok P (err e) h = absurd h
