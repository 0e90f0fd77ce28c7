-- ===== src/Prelude/Result.antt =====
-- Fallible code: a value or the error that it throws.

pub data Result {ℓ κ} (E : Type κ) (A : Type ℓ) : Type (ℓ ⊔ κ) where
  ok : A → Result E A
  err : E → Result E A

infixl 5 ◌>>=◌ ◌>>◌
abbrev pub ◌>>=◌ {ℓ κ μ} :
    {E : Type κ} {A : Type ℓ} {B : Type μ} → Result E A → (A → Result E B) → Result E B
ok a >>= f = f a
err e >>= f = err e

abbrev pub ◌>>◌ {κ μ} : {E : Type κ} {B : Type μ} → Result E (Unit {0}) → Result E B → Result E B
m >> k = m >>= λ _. k

-- A result whose error meets `P` or whose value meets `Q`.
abbrev pub Each {ℓ κ} :
    {E : Type κ} {A : Type ℓ} → (E → Type 0) → (A → Type 0) → Result E A → Type 0
Each P Q (ok a) = Q a
Each P Q (err e) = P e

pub Each-bind {ℓ κ μ} :
    {E : Type κ} {A : Type ℓ} {B : Type μ} (P : E → Type 0) (Q : A → Type 0) (R : B → Type 0)
    (m : Result E A) (f : A → Result E B)
    → Each P Q m
    → ((a : A) → Q a → Each P R (f a))
    → Each P R (m >>= f)
Each-bind P Q R (ok a) f h step = step a h
Each-bind P Q R (err e) f h step = h

pub Each-imp {ℓ κ} :
    {E : Type κ} {A : Type ℓ} (P : E → Type 0) (Q R : A → Type 0) (m : Result E A)
    → Each P Q m
    → ((a : A) → Q a → R a)
    → Each P R m
Each-imp P Q R (ok a) h imp = imp a h
Each-imp P Q R (err e) h imp = h
