-- ===== src/Codec/Outcome.antt =====
-- What a read gives, as a predicate on it.
use volforge.Prelude.{◌≡◌, refl, sym, ap, subst, Bool, true, false, if◌then◌else◌}
use volforge.Codec.{Decoded, malformed, overrun, done, ◌>>>=◌}

-- `r` gives a value, and `P` holds of it.
abbrev pub Yields {ℓ} : {A : Type ℓ} → Decoded A → (A → Type 0) → Type 0
Yields malformed P = ⊥
Yields overrun P = ⊥
Yields (done a) P = P a

-- `r` does not read past the end, and where it gives a value, `P` holds of it.
abbrev pub Within {ℓ} : {A : Type ℓ} → Decoded A → (A → Type 0) → Type 0
Within malformed P = Unit {0}
Within overrun P = ⊥
Within (done a) P = P a

module _ {ℓ κ} {A : Type ℓ} {B : Type κ} (P : A → Type 0) (Q : B → Type 0) where
  pub Yields-bind :
      (r : Decoded A) (f : A → Decoded B)
      → Yields r P
      → ((a : A) → P a → Yields (f a) Q)
      → Yields (r >>>= f) Q
  Yields-bind malformed f h k = h
  Yields-bind overrun f h k = h
  Yields-bind (done a) f h k = k a h

  pub Within-bind :
      (r : Decoded A) (f : A → Decoded B)
      → Within r P
      → ((a : A) → P a → Within (f a) Q)
      → Within (r >>>= f) Q
  Within-bind malformed f h k = tt
  Within-bind overrun f h k = h
  Within-bind (done a) f h k = k a h

module _ {ℓ} {A : Type ℓ} (P Q : A → Type 0) (k : (a : A) → P a → Q a) where
  pub Yields-map : (r : Decoded A) → Yields r P → Yields r Q
  Yields-map malformed h = h
  Yields-map overrun h = h
  Yields-map (done a) h = k a h

  pub Within-map : (r : Decoded A) → Within r P → Within r Q
  Within-map malformed h = tt
  Within-map overrun h = h
  Within-map (done a) h = k a h

module _ {A : Type 0} where
  pub Yields_done : (r : Decoded A) (a : A) → Yields r (λ x. x ≡ a) → r ≡ done a
  Yields_done malformed a h = absurd h
  Yields_done overrun a h = absurd h
  Yields_done (done x) a h = ap done h

  pub done-Yields : (r : Decoded A) (a : A) (P : A → Type 0) → r ≡ done a → P a → Yields r P
  done-Yields r a P e h = subst (λ x. Yields x P) (sym e) h

  pub Within_of_Yields : (P : A → Type 0) (r : Decoded A) → Yields r P → Within r P
  Within_of_Yields P malformed h = absurd h
  Within_of_Yields P overrun h = absurd h
  Within_of_Yields P (done a) h = h

module _ {ℓ} {A : Type ℓ} (P : A → Type 0) (x y : Decoded A) where
  -- A branch, as to what each side gives.
  pub Within_if :
      (c : Bool)
      → (c ≡ true → Within x P)
      → (c ≡ false → Within y P)
      → Within (if c then x else y) P
  Within_if true h k = h refl
  Within_if false h k = k refl
