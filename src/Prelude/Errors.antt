-- ===== src/Prelude/Errors.antt =====
-- Exceptions as values. `out_of_bounds` is no exception of the source: it marks an unchecked access
-- outside a vector, which is undefined behaviour there.
use mathlib.Core.Path.{◌≡◌, refl, subst}
use mathlib.Core.Logic.{◌⊎◌, inl, inr}
use mathlib.Core.Bool.{Bool, true, false}
use mathlib.Core.Option.{Option, none, some}

pub data Error : Type 0 where
  invalid_argument out_of_range logic_error runtime_error length_error out_of_bounds : Error

pub data Result {ℓ} (A : Type ℓ) : Type ℓ where
  err : Error → Result A
  ok : A → Result A

-- `if (bad) throw e;`
abbrev pub throw_if : Bool → Error → Result (Unit {0})
throw_if false e = ok tt
throw_if true e = err e

infixl 5 ◌>>=◌
abbrev pub ◌>>=◌ {ℓ κ} : {A : Type ℓ} {B : Type κ} → Result A → (A → Result B) → Result B
err thrown >>= next = err thrown
ok value >>= next = next value

infixl 5 ◌>>◌
abbrev pub ◌>>◌ {ℓ} : {A : Type ℓ} → Result (Unit {0}) → Result A → Result A
checked >> rest = checked >>= λ done. rest

abbrev pub or_throw {ℓ} : {A : Type ℓ} → Option A → Error → Result A
or_throw none e = err e
or_throw (some a) e = ok a

pub Result-cases {ℓ} :
    {A : Type ℓ} (r : Result A) → ((a : A) × (r ≡ ok a)) ⊎ ((e : Error) × (r ≡ err e))
Result-cases (ok a) = inl (a, refl)
Result-cases (err e) = inr (e, refl)

pub ok-injective {ℓ} : {A : Type ℓ} (a b : A) → ok a ≡ ok b → a ≡ b
ok-injective a b h = cc

-- What ran before the end of a computation that succeeds.
pub bind_ok {ℓ κ} :
    {A : Type ℓ} {B : Type κ} (r : Result A) (next : A → Result B) {end : B}
    → (r >>= next) ≡ ok end
    → (mid : A) × (r ≡ ok mid) × (next mid ≡ ok end)
bind_ok (err thrown) next same = cc
bind_ok (ok mid) next same = (mid, refl, same)

-- `r` does not run into undefined behaviour, and where it returns, `P` holds of what it returns.
-- An exception of the source may still be thrown.
abbrev pub is_fault : Error → Bool
is_fault Error.out_of_bounds = true
is_fault _ = false

abbrev pub Safe {ℓ} : {A : Type ℓ} → Result A → (A → Type 0) → Type 0
Safe (ok a) P = P a
Safe (err e) P = is_fault e ≡ false

pub Safe-bind {ℓ κ} :
    {A : Type ℓ} {B : Type κ} (P : A → Type 0) (Q : B → Type 0) (r : Result A) (f : A → Result B)
    → Safe r P
    → ((a : A) → P a → Safe (f a) Q)
    → Safe (r >>= f) Q
Safe-bind P Q (ok a) f h g = g a h
Safe-bind P Q (err e) f h g = h

pub Safe-map {ℓ} :
    {A : Type ℓ} (P Q : A → Type 0) (r : Result A) → ((a : A) → P a → Q a) → Safe r P → Safe r Q
Safe-map P Q (ok a) g h = g a h
Safe-map P Q (err e) g h = h

pub Safe_of_ok {ℓ} :
    {A : Type ℓ} (P : A → Type 0) (r : Result A) {a : A} → Safe r P → r ≡ ok a → P a
Safe_of_ok P (ok b) h e = subst P (ok-injective _ _ e) h
Safe_of_ok P (err x) h e = cc

pub throw_if-Safe :
    (b : Bool) (e : Error) → is_fault e ≡ false → Safe (throw_if b e) (λ _. Unit {0})
throw_if-Safe true e h = h
throw_if-Safe false e h = tt

-- Where `r` returns, `P` holds of what it returns.
abbrev pub Returns {ℓ} : {A : Type ℓ} → Result A → (A → Type 0) → Type 0
Returns (ok a) P = P a
Returns (err e) P = Unit {0}

pub Returns-bind {ℓ κ} :
    {A : Type ℓ} {B : Type κ} (P : A → Type 0) (Q : B → Type 0) (r : Result A) (f : A → Result B)
    → Returns r P
    → ((a : A) → P a → Returns (f a) Q)
    → Returns (r >>= f) Q
Returns-bind P Q (ok a) f h g = g a h
Returns-bind P Q (err e) f h g = tt

-- The same, where nothing is known of the first result.
pub Returns-then {ℓ κ} :
    {A : Type ℓ} {B : Type κ} (Q : B → Type 0) (r : Result A) (f : A → Result B)
    → ((a : A) → Returns (f a) Q)
    → Returns (r >>= f) Q
Returns-then Q (ok a) f g = g a
Returns-then Q (err e) f g = tt

pub Returns-map {ℓ} :
    {A : Type ℓ} (P Q : A → Type 0) (r : Result A)
    → ((a : A) → P a → Q a)
    → Returns r P
    → Returns r Q
Returns-map P Q (ok a) g h = g a h
Returns-map P Q (err e) g h = tt

pub Returns_of_ok {ℓ} :
    {A : Type ℓ} (P : A → Type 0) (r : Result A) {a : A} → Returns r P → r ≡ ok a → P a
Returns_of_ok P (ok b) h e = subst P (ok-injective _ _ e) h
Returns_of_ok P (err x) h e = cc

abbrev pub is_ok {ℓ} : {A : Type ℓ} → Result A → Bool
is_ok (ok a) = true
is_ok (err e) = false

-- What a computation that succeeds returns.
pub returned {ℓ} : {A : Type ℓ} (r : Result A) → is_ok r ≡ true → (a : A) × (r ≡ ok a)
returned (ok a) h = (a, refl)
returned (err e) h = cc
