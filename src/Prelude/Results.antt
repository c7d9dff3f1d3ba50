-- ===== src/Prelude/Results.antt =====
-- Exceptions as values.
use mathlib.Core.Path.{◌≡◌, refl}

pub data Error : Type 0 where
  key_error value_error runtime_error attribute_error : Error

pub data Result {ℓ} (A : Type ℓ) : Type ℓ where
  ok : A → Result A
  err : Error → Result A

-- `try: ... except: log`, which goes on from the value that stood before.
abbrev pub or_unchanged {ℓ} : {A : Type ℓ} → A → Result A → A
or_unchanged a (ok b) = b
or_unchanged a (err e) = a

infixl 1 ◌>>=◌
abbrev pub ◌>>=◌ {ℓ} : {A B : Type ℓ} → Result A → (A → Result B) → Result B
ok a >>= f = f a
err e >>= f = err e

-- What holds of the value that is returned.
abbrev pub Ensures {ℓ} : {A : Type ℓ} → (A → Type 0) → Result A → Type 0
Ensures P (ok a) = P a
Ensures P (err e) = Unit

pub and_then {ℓ} :
    {A B : Type ℓ} (P : A → Type 0) (Q : B → Type 0) (m : Result A) (k : A → Result B)
    → Ensures P m
    → ((a : A) → P a → Ensures Q (k a))
    → Ensures Q (m >>= k)
and_then P Q (ok a) k h f = f a h
and_then P Q (err e) k h f = h

pub whatever {ℓ} :
    {A B : Type ℓ} (P : B → Type 0) (m : Result A) (k : A → Result B)
    → ((a : A) → Ensures P (k a))
    → Ensures P (m >>= k)
whatever P (ok a) k h = h a
whatever P (err e) k h = tt

pub weaken {ℓ} :
    {A : Type ℓ} (P Q : A → Type 0) (m : Result A)
    → Ensures P m
    → ((a : A) → P a → Q a)
    → Ensures Q m
weaken P Q (ok a) h f = f a h
weaken P Q (err e) h f = tt

-- A value is returned, and this holds of it.
abbrev pub Gives {ℓ} : {A : Type ℓ} → (A → Type 0) → Result A → Type 0
Gives P (ok a) = P a
Gives P (err e) = ⊥

pub gives_then {ℓ} :
    {A B : Type ℓ} (P : A → Type 0) (Q : B → Type 0) (m : Result A) (k : A → Result B)
    → Gives P m
    → ((a : A) → P a → Gives Q (k a))
    → Gives Q (m >>= k)
gives_then P Q (ok a) k h f = f a h
gives_then P Q (err e) k h f = absurd h

pub gives_any {ℓ} : {A : Type ℓ} (P : A → Type 0) (m : Result A) → Gives P m → Gives (λ a. Unit) m
gives_any P (ok a) h = tt
gives_any P (err e) h = h

pub own_value : {A : Type 0} (m : Result A) → Ensures (λ a. m ≡ ok a) m
own_value (ok a) = refl
own_value (err e) = tt
