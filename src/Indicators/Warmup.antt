-- ===== src/Indicators/Warmup.antt =====
-- When an indicator has a value: the moving average once its window is full, the deviation of more than
-- one close never.
use volforge.Double.{to_double}
use volforge.Prelude.{
  ℕ, zero, suc, ◌+◌, ◌-◌, ◌≤◌, ◌<◌, ◌≡◌, refl, sym, ap, ◌∙◌, subst, inl, inr, Bool, true, false,
  not, ◌&&◌, Option, none, List, [], ◌∷◌, map, arith, leb, ◌==◌, if◌then◌else◌, ==_iff, Bool-cases,
  Option-cases, length, get_elem?, All, get_elem?-All, ℤ, pos, negsuc, ltb_ℤ, eqb_ℤ, Error, Result,
  ok, ◌>>=◌, throw_if, or_throw, Safe, Safe-bind, throw_if-Safe, get_elem?-some, Returns,
  Returns-bind, Returns-then, if_both,
}
use volforge.Types.{Timestamp}
use volforge.Bars.{Bar, BarSeries, known_count, closed_by}
use volforge.Double.{Double}
use volforge.Indicators.{
  Numerics, Indicator, new_indicator, warm, value_back, value_at, closes_of, count_double, leaving,
  sma_from, sma, stdev_from, stdev,
}

closed_by-le : (now : Timestamp) (bs : List Bar) → closed_by now bs ≤ length bs
unfolding closed_by
closed_by-le now [] = omega arith
closed_by-le now (b ∷ bs) = ground (arith, closed_by-le now bs)

module _ {F : Type 0} ⦃d : Double F⦄ ⦃n : Numerics F⦄ where
  -- Each value is NaN.
  AllNan : List F → Type 0
  AllNan = All (λ v. n.is_nan v ≡ true)

  all_nan : n.is_nan n.nan ≡ true → (cs : List F) → AllNan (map (λ _. n.nan) cs)
  unfolding AllNan
  all_nan h [] = tt
  all_nan h (c ∷ cs) = (h, all_nan h cs)

  stdev_from-AllNan :
      n.is_nan n.nan ≡ true
      → (closes : List F) (period : ℕ) (cs : List F) → 1 < period
      → AllNan (stdev_from closes period 0 cs)
  unfolding stdev_from AllNan
  stdev_from-AllNan h closes period [] k = tt
  stdev_from-AllNan h closes period (c ∷ cs) k =
      let early : leb period 1 ≡ false = ground arith in rw early (h, all_nan h cs)

  value_back-none :
      (values : List F) (k steps : ℕ)
      → AllNan values
      → Returns (value_back values k steps) (λ v. v ≡ none)
  unfolding AllNan
  value_back-none values k steps a =
      if_both (λ (r : Result (Option F)). Returns r (λ v. v ≡ none)) (k == 0) refl
        (if_both (λ (r : Result (Option F)). Returns r (λ v. v ≡ none)) (leb k steps) refl looked)
    where
      looked :
          Returns
            (or_throw (get_elem? values (k - 1 - steps)) Error.out_of_bounds >>= λ v. ok (warm v))
            (λ v. v ≡ none)
      looked = elim (Option-cases (get_elem? values (k - 1 - steps))) [
        | inl e ↦ rw e tt
        | inr (v, e) ↦
            let silent = get_elem?-All (λ v. n.is_nan v ≡ true) values (k - 1 - steps) a e in
            rw (e, silent) refl
      ]

  leaving-ok :
      (closes : List F) (period i : ℕ) (running : F)
      → 0 < period
      → i < length closes
      → (x : F) × (leaving closes period i running ≡ ok x)
  leaving-ok closes period i running p h = elim (Bool-cases (leb period i)) [
    | inl e ↦
        let (c, found) = get_elem?-some closes (i - period) (omega (arith, h)) in
        (d.sub running c, rw (e, found) refl)
    | inr e ↦ (running, rw e refl)
  ]

  sma_from-length :
      (closes : List F) (period i : ℕ) (running : F) (cs : List F)
      → 0 < period
      → i + length cs ≡ length closes
      → (vs : List F) × (sma_from closes period i running cs ≡ ok vs) × (length vs ≡ length cs)
  unfolding sma_from
  sma_from-length closes period i running [] p h = ([], refl, refl)
  sma_from-length closes period i running (c ∷ cs) p h =
      let (x, left) = leaving-ok closes period i (d.add running c) p (omega (arith, h)) in
      let (vs, done, long) = sma_from-length closes period (i + 1) x cs p (omega (arith, h)) in
      (
        (if leb period (i + 1) then d.div x (count_double period) else n.nan) ∷ vs,
        rw (left, done) refl,
        ap suc long,
      )

  value_back-Safe :
      (values : List F) (k steps : ℕ)
      → k ≤ length values
      → Safe (value_back values k steps) (λ _. Unit {0})
  value_back-Safe values k steps h = elim (Bool-cases (k == 0)) [
    | inl e ↦ rw e tt
    | inr e ↦ elim (Bool-cases (leb k steps)) [
      | inl e' ↦ rw (e, e') tt
      | inr e' ↦
          let (v, found) = get_elem?-some values (k - 1 - steps) (ground (arith, h)) in
          rw (e, e', found) tt
    ]
  ]

-- A deviation over two closes or more never has a value: whatever the bars, the time and the offset,
-- where it returns it returns none. NaN is what its test says it is.
pub stdev-no_value :
    (F : Type 0) ⦃d : Double F⦄ ⦃n : Numerics F⦄ (bars : BarSeries) (period : ℕ) (now : Timestamp)
    (back : ℤ)
    → n.is_nan n.nan ≡ true
    → 1 < period
    → Returns (stdev bars (pos period) >>= λ (i : Indicator F). value_at i now back) (λ v. v ≡ none)
unfolding stdev new_indicator value_at
stdev-no_value F ⦃d⦄ ⦃n⦄ bars zero now back h k = tt
stdev-no_value F ⦃d⦄ ⦃n⦄ bars (suc p) now back h k =
    let values : List F = stdev_from (closes_of bars) (suc p) 0 (closes_of bars) in
    let silent = stdev_from-AllNan h (closes_of bars) (suc p) (closes_of bars) k in
    Returns-bind (λ (i : Indicator F). AllNan i.values) _
      (throw_if (not (length values == length bars.bars)) Error.invalid_argument >>= λ _.
        ok (record { bars = bars; values = values }))
      _
      (Returns-then _ (throw_if (not (length values == length bars.bars)) Error.invalid_argument) _
        λ _. silent)
      λ i a. answered i back a
  where
    answered :
        (i : Indicator F) (back : ℤ)
        → AllNan i.values
        → Returns (value_at i now back) (λ v. v ≡ none)
    answered i (negsuc b) a = tt
    answered i (pos steps) a =
        Returns-then _ (known_count i.bars now) _ λ k. value_back-none i.values k steps a

length-closes :
    (F : Type 0) ⦃d : Double F⦄ (bs : List Bar)
    → length (map (λ (b : Bar). to_double {F = F} b.close) bs) ≡ length bs
length-closes F [] = refl
length-closes F (b ∷ bs) = ap suc (length-closes F bs)

value_at-Safe :
    (F : Type 0) ⦃d : Double F⦄ ⦃n : Numerics F⦄ (i : Indicator F) (now : Timestamp) (back : ℤ)
    → length i.values ≡ length i.bars.bars
    → Safe (value_at i now back) (λ _. Unit {0})
unfolding value_at known_count
value_at-Safe F ⦃d⦄ ⦃n⦄ i now (negsuc b) same = refl
value_at-Safe F ⦃d⦄ ⦃n⦄ i now (pos steps) same =
    Safe-bind (λ k. k ≤ length i.values) _ (known_count i.bars now) _ counted
      λ k within. value_back-Safe i.values k steps within
  where
    stale : Bool
    stale = not (eqb_ℤ i.bars.valid_until (pos 0)) && ltb_ℤ i.bars.valid_until now

    counted : Safe (known_count i.bars now) (λ k. k ≤ length i.values)
    counted =
        Safe-bind (λ _. Unit {0}) _ (throw_if stale Error.logic_error) _
          (throw_if-Safe stale Error.logic_error refl)
          λ _ _.
            subst (λ m. closed_by now i.bars.bars ≤ m) (sym same) (closed_by-le now i.bars.bars)

-- A moving average of a positive period is made of any bars, with one value for each of them; and at
-- any time and offset, its lookup reads no value that is not there.
pub sma-Safe :
    (F : Type 0) ⦃d : Double F⦄ ⦃n : Numerics F⦄ (bars : BarSeries) (period : ℕ) (now : Timestamp)
    (back : ℤ)
    → 0 < period
    → (i : Indicator F) × (sma bars (pos period) ≡ ok i)
      × (length i.values ≡ length bars.bars)
      × Safe (value_at i now back) (λ _. Unit {0})
unfolding sma new_indicator
sma-Safe F ⦃d⦄ ⦃n⦄ bars zero now back h = absurd (omega arith)
sma-Safe F ⦃d⦄ ⦃n⦄ bars (suc p) now back h =
    let closes : List F = closes_of bars in
    let (vs, done, long) =
      sma_from-length closes (suc p) 0 (count_double 0) closes h (omega arith) in
    let same : length vs ≡ length bars.bars = long ∙ length-closes F bars.bars in
    let one : length vs == length bars.bars ≡ true =
      (==_iff (length vs) (length bars.bars)).1 same in
    (
      record { bars = bars; values = vs },
      rw (done, one) refl,
      same,
      value_at-Safe F (record { bars = bars; values = vs }) now back same,
    )
