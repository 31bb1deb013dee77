-- ===== src/Indicators.antt =====
-- Indicators over bars: cpp/core/include/volforge/indicators.hpp and cpp/core/src/indicators.cpp. Besides
-- the arithmetic on doubles, NaN, its test and the square root are parameters.
pub mod Warmup
use volforge.Prelude.{
  ℕ, zero, suc, ◌+◌, ◌-◌, ◌*◌, ◌/◌, ◌%◌, ◌^◌, ◌≤◌, ◌<◌, ◌≡◌, refl, sym, ap, ◌∙◌, subst, ◌≢◌, ◌↔◌,
  ◌⊎◌, inl, inr, Bool, true, false, not, ◌&&◌, ◌||◌, Option, none, some, List, [], ◌∷◌, ◌++◌, map,
  arith, ltb, leb, ◌==◌, if◌then◌else◌, ltb→lt, leb→le, ==_iff, Bool-cases, Option-cases, length,
  get_elem?, set, take, drop, replicate, filter_by, All, length-append, All-append, All-left,
  All-right, All-map, length-set, get_elem?-set_self, get_elem?-set_ne, get_elem?-All, ℤ, pos,
  negsuc, pos_part, neg_part, sub_ℕ, ◌+ℤ◌, ◌-ℤ◌, ◌*ℤ◌, neg, abs, ◌≤ℤ◌, ◌<ℤ◌, ltb_ℤ, leb_ℤ, eqb_ℤ,
  max_ℤ, min_ℤ, div_ℤ, +ℤ_parts, -ℤ_parts, neg_parts, eq_of_parts, eqb_ℤ_iff, eqb_ℤ_refl, int_laws,
  parts_of_eq, Error, Result, ok, err, ◌>>=◌, ◌>>◌, throw_if, or_throw, Result-cases, ok-injective,
  bind_ok, Safe, Safe-bind, Safe-map, Safe_of_ok, throw_if-Safe, is_fault, get_elem?-lt,
  get_elem?-append_left, get_elem?-snoc, get_elem?-snoc_cases, Returns, Returns-bind, Returns-then,
  Returns-map, Returns_of_ok, is_ok, returned, if_both,
}
use volforge.Types.{Timestamp}
use volforge.Bars.{Bar, BarSeries, known_count}
use volforge.Double.{Double, to_double}

pub record Numerics (F : Type 0) : Type 0 where
  pub nan : F
  pub is_nan : F → Bool
  pub sqrt : F → F

-- `BarIndicator`.
pub record Indicator (F : Type 0) : Type 0 where
  pub bars : BarSeries
  pub values : List F

pub record BollingerBands (F : Type 0) : Type 0 where
  pub middle : Indicator F
  pub upper : Indicator F
  pub lower : Indicator F

unfoldable pub new_indicator : {F : Type 0} → BarSeries → List F → Result (Indicator F)
new_indicator bars values = do
  throw_if (not (length values == length bars.bars)) Error.invalid_argument
  ok (record { bars = bars; values = values })

module _ {F : Type 0} ⦃d : Double F⦄ ⦃n : Numerics F⦄ where
  abbrev pub warm : F → Option F
  warm v = if n.is_nan v then none else some v

  abbrev pub value_back : List F → ℕ → ℕ → Result (Option F)
  value_back values k steps =
      if k == 0
      then ok none
      else if leb k steps
      then ok none
      else or_throw (get_elem? values (k - 1 - steps)) Error.out_of_bounds >>= λ v. ok (warm v)

  -- `BarIndicator::at`.
  unfoldable pub value_at : Indicator F → Timestamp → ℤ → Result (Option F)
  value_at i now (negsuc _) = err Error.invalid_argument
  value_at i now (pos steps) = known_count i.bars now >>= λ k. value_back i.values k steps

  abbrev pub closes_of : BarSeries → List F
  closes_of s = map (λ b. to_double b.close) s.bars

  abbrev pub count_double : ℕ → F
  count_double k = d.of_int (pos k)

  -- The close that leaves the window of the running sum.
  abbrev pub leaving : List F → ℕ → ℕ → F → Result F
  leaving closes period i running =
      if leb period i
      then (or_throw (get_elem? closes (i - period)) Error.out_of_bounds >>= λ c.
          ok (d.sub running c))
      else ok running

  -- The loop of `sma`, from index `i` on.
  unfoldable pub sma_from : List F → ℕ → ℕ → F → List F → Result (List F)
  sma_from closes period i running [] = ok []
  sma_from closes period i running (c ∷ cs) = do
    running' ← leaving closes period i (d.add running c)
    rest ← sma_from closes period (i + 1) running' cs
    ok ((if leb period (i + 1) then d.div running' (count_double period) else n.nan) ∷ rest)

  unfoldable pub sma : BarSeries → ℤ → Result (Indicator F)
  sma bars (negsuc _) = err Error.invalid_argument
  sma bars (pos zero) = err Error.invalid_argument
  sma bars (pos (suc k)) = do
    values ← sma_from (closes_of bars) (suc k) 0 (count_double 0) (closes_of bars)
    new_indicator bars values

  abbrev pub window : List F → ℕ → ℕ → List F
  window closes period i = take period (drop (i + 1 - period) closes)

  unfoldable pub sum_from : F → List F → F
  sum_from total [] = total
  sum_from total (c ∷ cs) = sum_from (d.add total c) cs

  unfoldable pub squares_from : F → F → List F → F
  squares_from mean total [] = total
  squares_from mean total (c ∷ cs) =
      let x = d.sub c mean in squares_from mean (d.add total (d.mul x x)) cs

  -- The mean and the deviation of the window that ends at index `i`.
  abbrev pub mean_at : List F → ℕ → ℕ → F
  mean_at closes period i =
      d.div (sum_from (count_double 0) (window closes period i)) (count_double period)

  abbrev pub deviation_at : List F → ℕ → ℕ → F
  deviation_at closes period i =
      let mean = mean_at closes period i in
      n.sqrt
        (d.div (squares_from mean (count_double 0) (window closes period i)) (count_double period))

  -- The loop of `stdev`, from index `i` on: it ends at the first index before the window is full, and
  -- the values that it has not reached stay NaN.
  unfoldable pub stdev_from : List F → ℕ → ℕ → List F → List F
  stdev_from closes period i [] = []
  stdev_from closes period i (c ∷ cs) =
      let rest = stdev_from closes period (i + 1) cs in
      if leb period (i + 1) then deviation_at closes period i ∷ rest else map (λ _. n.nan) (c ∷ cs)

  unfoldable pub stdev : BarSeries → ℤ → Result (Indicator F)
  stdev bars (negsuc _) = err Error.invalid_argument
  stdev bars (pos zero) = err Error.invalid_argument
  stdev bars (pos (suc k)) =
      new_indicator bars (stdev_from (closes_of bars) (suc k) 0 (closes_of bars))

  -- The loop of `bollinger`, for one of its three bands; `band` is what it makes of the mean and of the
  -- deviation.
  unfoldable pub band_from : (F → F → F) → List F → ℕ → ℕ → List F → List F
  band_from band closes period i [] = []
  band_from band closes period i (c ∷ cs) =
      (if ltb (i + 1) period
        then n.nan
        else band (mean_at closes period i) (deviation_at closes period i))
      ∷ band_from band closes period (i + 1) cs

  abbrev pub band_of : BarSeries → ℕ → (F → F → F) → Result (Indicator F)
  band_of bars period band =
      new_indicator bars (band_from band (closes_of bars) period 0 (closes_of bars))

  unfoldable pub bollinger : BarSeries → ℤ → F → Result (BollingerBands F)
  bollinger bars (negsuc _) k = err Error.invalid_argument
  bollinger bars (pos zero) k = err Error.invalid_argument
  bollinger bars (pos (suc p)) k = do
    mid ← band_of bars (suc p) (λ mean sd. mean)
    up ← band_of bars (suc p) (λ mean sd. d.add mean (d.mul k sd))
    lo ← band_of bars (suc p) (λ mean sd. d.sub mean (d.mul k sd))
    ok (record { middle = mid; upper = up; lower = lo })
