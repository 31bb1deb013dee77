-- ===== src/Prelude/Indexing.antt =====
-- `get_elem?` under `++`.
use Prim.Native.Nat.{ℕ, zero, suc, ◌<◌}
use mathlib.Core.Path.{◌≡◌, refl, ap}
use mathlib.Core.Logic.{◌⊎◌, inl, inr}
use mathlib.Core.List.{List, [], ◌∷◌, ◌++◌}
use mathlib.Core.Option.{some, some-injective}
use native.Mathlib.Omega.{arith}
use volforge.Prelude.Lists.{length, get_elem?}

module _ {ℓ} {A : Type ℓ} where
  pub get_elem?-lt : (xs : List A) (i : ℕ) {v : A} → get_elem? xs i ≡ some v → i < length xs
  get_elem?-lt [] i h = cc
  get_elem?-lt (x ∷ xs) zero h = omega arith
  get_elem?-lt (x ∷ xs) (suc i) h = omega (arith, get_elem?-lt xs i h)

  pub get_elem?-append_left :
      (xs ys : List A) (i : ℕ) {v : A} → get_elem? xs i ≡ some v → get_elem? (xs ++ ys) i ≡ some v
  get_elem?-append_left [] ys i h = cc
  get_elem?-append_left (x ∷ xs) ys zero h = h
  get_elem?-append_left (x ∷ xs) ys (suc i) h = get_elem?-append_left xs ys i h

  pub get_elem?-snoc : (xs : List A) (v : A) → get_elem? (xs ++ (v ∷ [])) (length xs) ≡ some v
  get_elem?-snoc [] v = refl
  get_elem?-snoc (x ∷ xs) v = get_elem?-snoc xs v

  pub get_elem?-snoc_cases :
      (xs : List A) (v : A) (i : ℕ) {w : A}
      → get_elem? (xs ++ (v ∷ [])) i ≡ some w
      → (get_elem? xs i ≡ some w) ⊎ ((i ≡ length xs) × (v ≡ w))
  get_elem?-snoc_cases [] v zero h = inr (refl, some-injective _ _ h)
  get_elem?-snoc_cases [] v (suc i) h = cc
  get_elem?-snoc_cases (x ∷ xs) v zero h = inl h
  get_elem?-snoc_cases (x ∷ xs) v (suc i) h = elim (get_elem?-snoc_cases xs v i h) [
    | inl e ↦ inl e
    | inr (e, f) ↦ inr (ap suc e, f)
  ]

pub get_elem?-some {ℓ} :
    {A : Type ℓ} (xs : List A) (i : ℕ) → i < length xs → (x : A) × (get_elem? xs i ≡ some x)
get_elem?-some [] i h = absurd (omega arith)
get_elem?-some (x ∷ xs) zero h = (x, refl)
get_elem?-some (x ∷ xs) (suc i) h = get_elem?-some xs i (omega arith)
