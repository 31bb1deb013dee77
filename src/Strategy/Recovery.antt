-- ===== src/Strategy/Recovery.antt =====
-- What a forward is: one of the strikes, and the parity that is quoted there.
use volforge.Prelude.{
  ℕ, suc, ◌/◌, ◌<◌, ◌≡◌, refl, inl, inr, true, not, Option, none, some, List, [], ◌∷◌, arith,
  Bool-cases, length, get_elem?, pos, Result, ok, Safe, Safe-bind, get_elem?-some, if_both,
}
use volforge.Types.{Date, Price, UnderlyingId}
use volforge.Market.{MarketView}
use volforge.Double.{Double, to_double}
use volforge.Strategy.Chain.{strikes_in}
use volforge.Strategy.Forward.{
  Pricing, parity_at, usable_from, search, forward_from, forward_in, forward, finite_forward,
}
use volforge.Strategy.Search.{Within, Placed, search-Safe, usable_from-Safe}

-- The parity at an index of the strikes reads a strike that is there.
parity_at-Safe :
    (F : Type 0) ⦃d : Double F⦄ (m : MarketView) (u : UnderlyingId) (expiry : Date)
    (ks : List Price) (i : ℕ)
    → i < length ks
    → Safe (parity_at {F = F} m u expiry ks i) (λ diff. parity_at {F = F} m u expiry ks i ≡ ok diff)
unfolding parity_at
parity_at-Safe F m u expiry ks i h = let (k, e) = get_elem?-some ks i h in rw e refl

-- What a forward is: a strike of the list and the parity there, grown to the expiry.
pub record IsForward {F : Type 0} ⦃d : Double F⦄ (parity : ℕ → Result (Option F)) (growth : F)
    (ks : List Price) (fwd : F) : Type 0 where
  pub index : ℕ
  pub strike : Price
  pub diff : F
  pub listed : get_elem? ks index ≡ some strike
  pub quoted : parity index ≡ ok (some diff)
  pub sum : d.add (to_double strike) (d.mul growth diff) ≡ fwd
  pub positive : d.lt (d.of_int (pos 0)) fwd ≡ true

abbrev pub Recovered :
    {F : Type 0} ⦃d : Double F⦄ → (ℕ → Result (Option F)) → F → List Price → Option F → Type 0
Recovered parity growth ks none = Unit {0}
Recovered parity growth ks (some fwd) = IsForward parity growth ks fwd

module _ {F : Type 0} ⦃d : Double F⦄ ⦃x : Pricing F⦄ (parity : ℕ → Result (Option F))
    (growth : F) where
  finite_forward-Recovered :
      (ks : List Price) (i : ℕ) (k : Price) (diff : F)
      → get_elem? ks i ≡ some k
      → parity i ≡ ok (some diff)
      → Recovered parity growth ks (finite_forward (d.add (to_double k) (d.mul growth diff)))
  finite_forward-Recovered ks i k diff listed quoted =
      let fwd = d.add (to_double k) (d.mul growth diff) in
      elim (Bool-cases (d.lt (d.of_int (pos 0)) fwd)) [
        | inl e ↦ rw e (
            if_both (Recovered parity growth ks) (not (x.is_finite fwd)) tt (record {
              index = i;
              strike = k;
              diff = diff;
              listed = listed;
              quoted = quoted;
              sum = refl;
              positive = e;
            }))
        | inr e ↦ rw e tt
      ]

  forward_from-Safe :
      (ks : List Price) (anchor : Option (ℕ × F))
      → (reads : (i : ℕ) → i < length ks → Safe (parity i) (λ diff. parity i ≡ ok diff))
      → Placed parity (length ks) reads anchor
      → Safe (forward_from parity growth ks anchor) (Recovered parity growth ks)
  forward_from-Safe ks none reads a = tt
  forward_from-Safe ks (some (i, y)) reads (a, k) =
      Safe-bind (Within parity (length ks)) (Recovered parity growth ks)
        (search parity (length ks) (i, y)) _ (search-Safe parity (length ks) reads i y a k)
        λ s w.
          let (k, e) = get_elem?-some ks s.best w.best_in in
          rw e (finite_forward-Recovered ks s.best k s.best_diff e w.known)

  forward_in-Safe :
      (ks : List Price)
      → (reads : (i : ℕ) → i < length ks → Safe (parity i) (λ diff. parity i ≡ ok diff))
      → Safe (forward_in parity growth ks) (Recovered parity growth ks)
  forward_in-Safe [] reads = tt
  forward_in-Safe (k ∷ ks) reads =
      Safe-bind (Placed parity (length (k ∷ ks)) reads) (Recovered parity growth (k ∷ ks))
        (usable_from parity (length (k ∷ ks)) (length (k ∷ ks) / 2) 0 (length (k ∷ ks))) _
        (usable_from-Safe parity (length (k ∷ ks)) reads (length (k ∷ ks) / 2) 0 (length (k ∷ ks))
          (half (length ks)))
        λ anchor a. forward_from-Safe (k ∷ ks) anchor reads a
    where
      half : (n : ℕ) → suc n / 2 < suc n
      half n = omega arith

-- The search for a forward reads no strike that is not there, and ends within its turns, whatever the
-- quotes are and however doubles compare; and a forward that it finds is positive, and is a strike of
-- the chain plus the grown difference of the call and the put that are quoted there.
pub forward-Recovered :
    (F : Type 0) ⦃d : Double F⦄ ⦃x : Pricing F⦄ (m : MarketView) (u : UnderlyingId) (expiry : Date)
    (years rate : F)
    → (let ks = strikes_in m u expiry m.registry.specs in
        Safe
          (forward m u expiry years rate)
          (Recovered (parity_at m u expiry ks) (x.exp (d.mul rate years)) ks))
unfolding forward
forward-Recovered F ⦃d⦄ ⦃x⦄ m u expiry years rate =
    let ks = strikes_in m u expiry m.registry.specs in
    let fits = Recovered (parity_at m u expiry ks) (x.exp (d.mul rate years)) ks in
    if_both (λ (r : Result (Option F)). Safe r fits) (not (d.lt (d.of_int (pos 0)) years)) tt
      (forward_in-Safe (parity_at m u expiry ks) (x.exp (d.mul rate years)) ks
        (parity_at-Safe F m u expiry ks))
