-- ===== src/Strategy/Selection.antt =====
-- What a chain selects: the strike nearest to the money.
use volforge.Prelude.{
  ℕ, ◌≤◌, ◌≡◌, refl, sym, ap, ◌∙◌, subst, inl, inr, Bool, true, false, ◌||◌, Option, none, some,
  List, [], ◌∷◌, map, arith, ltb, if◌then◌else◌, ltb→lt, Bool-cases, Option-cases, get_elem?,
  filter_by, All, All-map, ℤ, pos, ◌+ℤ◌, ◌-ℤ◌, ◌≤ℤ◌, ◌<ℤ◌, ltb_ℤ, leb_ℤ, eqb_ℤ, eqb_ℤ_iff,
  eqb_ℤ_refl, int_laws,
}
use volforge.Types.{Price}
use volforge.Instrument.{sort_dates, unique_dates}
use volforge.Instrument.Expiries.{
  contains, IsAscending, unique_dates-IsAscending, sort_dates-IsSorted,
}
use mathlib.Core.Option.{some-injective}
use volforge.Double.{Double}
use volforge.Strategy.Chain.{
  ChainView, lists, strike_of, strikes_in, gap, nearest, lower_bound_of, strikes, reference_price,
  nearest_of, atm_strike, strike_at,
}

-- No strike of a list is nearer.
abbrev pub IsNearest : Price → Price → List Price → Type 0
IsNearest reference best = All (λ k. gap reference best ≤ gap reference k)

closer :
    (reference best k : Price)
    → (let next = if ltb (gap reference k) (gap reference best) then k else best in
        (gap reference next ≤ gap reference best) × (gap reference next ≤ gap reference k))
closer reference best k =
    elim (ltb (gap reference k) (gap reference best))
        as (λ b.
          ltb (gap reference k) (gap reference best) ≡ b
          → (gap reference (if b then k else best) ≤ gap reference best)
            × (gap reference (if b then k else best) ≤ gap reference k)) [
              | true ↦
                  λ e. (omega (arith, ltb→lt (gap reference k) (gap reference best) e), omega arith)
              | false ↦ λ e. (omega arith, not_nearer (gap reference k) (gap reference best) e)
            ]
      refl
  where
    not_nearer : (a b : ℕ) → ltb a b ≡ false → b ≤ a
    not_nearer a b h = ground arith

nearest-le :
    (reference best : Price) (ks : List Price)
    → gap reference (nearest reference best ks) ≤ gap reference best
unfolding nearest
nearest-le reference best [] = omega arith
nearest-le reference best (k ∷ ks) =
    let next = if ltb (gap reference k) (gap reference best) then k else best in
    omega (arith, nearest-le reference next ks, (closer reference best k).0)

nearest-IsNearest :
    (reference best : Price) (ks : List Price) → IsNearest reference (nearest reference best ks) ks
unfolding nearest
nearest-IsNearest reference best [] = tt
nearest-IsNearest reference best (k ∷ ks) =
    let next = if ltb (gap reference k) (gap reference best) then k else best in
    (
      omega (arith, nearest-le reference next ks, (closer reference best k).1),
      nearest-IsNearest reference next ks,
    )

or_later : (a b : Bool) → b ≡ true → (a || b) ≡ true
or_later true b h = refl
or_later false b h = h

or_skip : (a b c : Bool) → (a || c) ≡ true → (a || (b || c)) ≡ true
or_skip true b c h = refl
or_skip false true c h = refl
or_skip false false c h = h

-- The nearest strike is one of the list, or the one that it started with.
nearest_from :
    (reference best : Price) (ks : List Price)
    → (eqb_ℤ (nearest reference best ks) best || contains (nearest reference best ks) ks) ≡ true
unfolding nearest
nearest_from reference best [] = rw (eqb_ℤ_refl best) refl
nearest_from reference best (k ∷ ks) =
    elim (ltb (gap reference k) (gap reference best))
      as (λ b.
        let x = nearest reference (if b then k else best) ks in
        (eqb_ℤ x best || (eqb_ℤ x k || contains x ks)) ≡ true) [
          | true ↦
              or_later (eqb_ℤ (nearest reference k ks) best)
                (eqb_ℤ (nearest reference k ks) k || contains (nearest reference k ks) ks)
                (nearest_from reference k ks)
          | false ↦
              or_skip (eqb_ℤ (nearest reference best ks) best) (eqb_ℤ (nearest reference best ks) k)
                (contains (nearest reference best ks) ks) (nearest_from reference best ks)
        ]

same_or :
    (x k : Price) (ks : List Price)
    → (eqb_ℤ x k || (eqb_ℤ x k || contains x ks)) ≡ true
    → (eqb_ℤ x k || contains x ks) ≡ true
same_or x k ks h = go (eqb_ℤ x k) (contains x ks) h
  where
    go : (a b : Bool) → (a || (a || b)) ≡ true → (a || b) ≡ true
    go true b h = refl
    go false b h = h

-- What the strike at the money is: one of the chain's, and no other is nearer to the reference.
pub record IsAtTheMoney (reference : Price) (ks : List Price) (atm : Price) : Type 0 where
  pub listed : contains atm ks ≡ true
  pub nearer : IsNearest reference atm ks

nearest_of-IsAtTheMoney :
    {F : Type 0} ⦃d : Double F⦄ (chain : ChainView F) (ks : List Price) (reference : Option Price)
    {atm : Price}
    → nearest_of chain ks reference ≡ some atm
    → (r : Price) × (reference ≡ some r) × IsAtTheMoney r ks atm
nearest_of-IsAtTheMoney chain [] reference h = cc
nearest_of-IsAtTheMoney chain (k ∷ ks) none h = cc
nearest_of-IsAtTheMoney chain (k ∷ ks) (some r) {atm} h = (
  r,
  refl,
  subst (IsAtTheMoney r (k ∷ ks)) (some-injective _ _ h) (record {
    listed = same_or (nearest r k (k ∷ ks)) k ks (nearest_from r k (k ∷ ks));
    nearer = nearest-IsNearest r k (k ∷ ks);
  }),
)

-- Lists that rise.
place_of :
    (low t : Price) (ks : List Price)
    → IsAscending low ks
    → contains t ks ≡ true
    → (low <ℤ t) × (get_elem? ks (lower_bound_of t ks) ≡ some t)
unfolding lower_bound_of
place_of low t [] a h = cc
place_of low t (k ∷ ks) (a, as') h = elim (Bool-cases (eqb_ℤ t k)) [
  | inl e ↦
      let same = (eqb_ℤ_iff t k).0 e in
      let apart : ltb_ℤ k t ≡ false = subst (λ x. ltb_ℤ k x ≡ false) (sym same) (not_below k) in
      (subst (λ x. low <ℤ x) (sym same) a, rw apart (ap some (sym same)))
  | inr e ↦
      let later : contains t ks ≡ true = sym (rw e refl) ∙ h in
      let (above, found) = place_of k t ks as' later in
      let below : ltb_ℤ k t ≡ true = ground arith in (omega (arith, a, above), rw below found)
]
  where
    not_below : (x : Price) → ltb_ℤ x x ≡ false
    not_below x = ground arith

-- A bound below all of a list.
bound_below : (ks : List Price) → (low : Price) × All (λ k. low +ℤ pos 1 ≤ℤ k) ks
bound_below [] = (pos 0, tt)
bound_below (k ∷ ks) =
    let (low, a) = bound_below ks in
    elim (Bool-cases (leb_ℤ (low +ℤ pos 1) k)) [
      | inl e ↦ (low, (within (low +ℤ pos 1) k e, a))
      | inr e ↦ (
        k -ℤ pos 1,
        (
          omega int_laws,
          All-map (λ x. low +ℤ pos 1 ≤ℤ x) (λ x. k -ℤ pos 1 +ℤ pos 1 ≤ℤ x)
              (λ x h. omega (int_laws, h, over (low +ℤ pos 1) k e)) ks a,
        ),
      )
    ]
  where
    within : (a b : ℤ) → leb_ℤ a b ≡ true → a ≤ℤ b
    within a b h = ground arith

    over : (a b : ℤ) → leb_ℤ a b ≡ false → b ≤ℤ a
    over a b h = ground arith

strikes_rise : (ks : List Price) → (low : Price) × IsAscending low (unique_dates (sort_dates ks))
strikes_rise ks =
    let (low, a) = bound_below ks in
    (low, unique_dates-IsAscending low (sort_dates ks) (sort_dates-IsSorted (low +ℤ pos 1) ks a))

module _ {F : Type 0} ⦃d : Double F⦄ (chain : ChainView F) where
  -- The strike at the money, if there is one, is listed by the chain, and no strike of the chain is
  -- nearer to the reference, that is the last price of the spot or the forward.
  pub atm_strike-IsAtTheMoney :
      (atm : Price)
      → atm_strike chain ≡ some atm
      → (r : Price) × (reference_price chain ≡ some r) × IsAtTheMoney r (strikes chain) atm
  unfolding atm_strike
  atm_strike-IsAtTheMoney atm h =
      nearest_of-IsAtTheMoney chain (strikes chain) (reference_price chain) h

  -- Where the strike at the money stands among the strikes.
  pub atm_place :
      (atm : Price)
      → atm_strike chain ≡ some atm
      → get_elem? (strikes chain) (lower_bound_of atm (strikes chain)) ≡ some atm
  unfolding strikes_in
  atm_place atm h =
      let (r, _, money) = atm_strike-IsAtTheMoney atm h in
      let (low, rising) = strikes_rise (
        map strike_of (
          filter_by (lists chain.market chain.underlying chain.expiry)
            chain.market.registry.specs)) in
      (place_of low atm (strikes chain) rising money.listed).1

  -- The strike at an offset of 0 is the one at the money.
  pub strike_at-zero : strike_at chain (pos 0) ≡ atm_strike chain
  unfolding strike_at
  strike_at-zero = elim (Option-cases (atm_strike chain)) [
    | inl e ↦ rw e refl
    | inr (atm, e) ↦ rw (e, offset_none (lower_bound_of atm (strikes chain))) (atm_place atm e)
  ]
    where
      offset_none : (i : ℕ) → pos i +ℤ pos 0 ≡ pos i
      offset_none i = omega int_laws
