-- ===== src/Strategy/Chain.antt =====
-- The option chain: `ChainView` of cpp/core/include/volforge/strategy.hpp and
-- cpp/core/src/strategy.cpp. What it reads of its context is the view, the underlying, the spot and
-- the forward, which is a parameter.
use volforge.Prelude.{
  ℕ, suc, Bool, not, ◌&&◌, Option, none, some, List, [], ◌∷◌, map, ltb, if◌then◌else◌, get_elem?,
  filter_by, ℤ, pos, negsuc, ◌+ℤ◌, ◌-ℤ◌, neg, abs, ltb_ℤ, eqb_ℤ,
}
use volforge.Types.{Date, Price, InstrumentId, UnderlyingId, Right, call, put}
use volforge.Instrument.{InstrumentSpec, is_option, find_option, sort_dates, unique_dates}
use volforge.Market.{MarketView, quote}
use volforge.Double.{Double, from_double}

pub record ChainView (F : Type 0) : Type 0 where
  pub market : MarketView
  pub underlying : UnderlyingId
  pub spot : InstrumentId
  pub forward : Option F
  pub expiry : Date

abbrev pub lists : MarketView → UnderlyingId → Date → InstrumentSpec → Bool
lists m u expiry s =
    is_option s && (eqb_ℤ s.underlying u && (eqb_ℤ s.expiry expiry && m.has_quote s.id))

abbrev pub strike_of : InstrumentSpec → Price
strike_of s = s.strike

-- The strikes: those whose options have quoted by now, sorted and without repetition. A price and a
-- date are one integer, and so sort alike.
unfoldable pub strikes_in : MarketView → UnderlyingId → Date → List InstrumentSpec → List Price
strikes_in m u expiry specs =
    unique_dates (sort_dates (map strike_of (filter_by (lists m u expiry) specs)))

abbrev pub gap : Price → Price → ℕ
gap reference strike = abs (strike -ℤ reference)

unfoldable pub nearest : Price → Price → List Price → Price
nearest reference best [] = best
nearest reference best (k ∷ ks) =
    nearest reference (if ltb (gap reference k) (gap reference best) then k else best) ks

-- `std::lower_bound`.
unfoldable pub lower_bound_of : Price → List Price → ℕ
lower_bound_of t [] = 0
lower_bound_of t (k ∷ ks) = let rest = lower_bound_of t ks in if ltb_ℤ k t then suc rest else 0

abbrev pub strike_index : List Price → ℤ → Option Price
strike_index ks (negsuc _) = none
strike_index ks (pos i) = get_elem? ks i

module _ {F : Type 0} ⦃d : Double F⦄ (chain : ChainView F) where
  abbrev pub strikes : List Price
  strikes = strikes_in chain.market chain.underlying chain.expiry chain.market.registry.specs

  -- The spot's last price, or the forward.
  abbrev pub reference_price : Option Price
  reference_price = elim (quote chain.market chain.spot) [
    | none ↦ elim chain.forward [ none ↦ none | some f ↦ some (from_double f) ]
    | some q ↦ some q.last
  ]

  abbrev pub nearest_of : List Price → Option Price → Option Price
  nearest_of [] reference = none
  nearest_of (k ∷ ks) none = none
  nearest_of (k ∷ ks) (some reference) = some (nearest reference k (k ∷ ks))

  unfoldable pub atm_strike : Option Price
  atm_strike = nearest_of strikes reference_price

  abbrev pub strike_from : Option Price → ℤ → Option Price
  strike_from none offset = none
  strike_from (some atm) offset = strike_index strikes (pos (lower_bound_of atm strikes) +ℤ offset)

  unfoldable pub strike_at : ℤ → Option Price
  strike_at offset = strike_from atm_strike offset

  abbrev pub tradeable_now : Option InstrumentId → Option InstrumentId
  tradeable_now none = none
  tradeable_now (some id) = if not (chain.market.has_quote id) then none else some id

  -- `ChainView::option`.
  unfoldable pub option_at : Price → Right → Option InstrumentId
  option_at strike right =
      tradeable_now (find_option chain.market.registry chain.underlying chain.expiry strike right)

  abbrev pub pair_of : Option InstrumentId → Option InstrumentId → List InstrumentId
  pair_of none b = []
  pair_of (some a) none = []
  pair_of (some a) (some b) = a ∷ b ∷ []

  abbrev pub pair_at : Option Price → Option Price → List InstrumentId
  pair_at none kp = []
  pair_at (some kc) none = []
  pair_at (some kc) (some kp) = pair_of (option_at kc call) (option_at kp put)

  unfoldable pub straddle : ℤ → List InstrumentId
  straddle offset = pair_at (strike_at offset) (strike_at offset)

  unfoldable pub strangle : ℤ → List InstrumentId
  strangle width = pair_at (strike_at width) (strike_at (neg width))

  -- The loop of `by_delta`: the option whose delta is nearest so far, and its gap. The deltas are those
  -- of `Ctx::greeks`, and `magnitude` is the absolute value of a double.
  module _ (delta : InstrumentId → Option F) (magnitude : F → F) (want : F) where
    abbrev pub delta_gap : F → F
    delta_gap g = magnitude (d.sub (magnitude g) want)

    abbrev pub closer_delta :
        InstrumentId → F → Option (InstrumentId × F) → Option (InstrumentId × F)
    closer_delta id x none = some (id, x)
    closer_delta id x (some (best, best_gap)) =
        if d.lt x best_gap then some (id, x) else some (best, best_gap)

    abbrev pub weighed :
        InstrumentId → Option F → Option (InstrumentId × F) → Option (InstrumentId × F)
    weighed id none best = best
    weighed id (some g) best = closer_delta id (delta_gap g) best

    abbrev pub considered :
        Option InstrumentId → Option (InstrumentId × F) → Option (InstrumentId × F)
    considered none best = best
    considered (some id) best = weighed id (delta id) best

    unfoldable pub by_delta_from :
        Right → Option (InstrumentId × F) → List Price → Option (InstrumentId × F)
    by_delta_from right best [] = best
    by_delta_from right best (k ∷ ks) = by_delta_from right (considered (option_at k right) best) ks

  abbrev pub chosen : Option (InstrumentId × F) → Option InstrumentId
  chosen none = none
  chosen (some (id, x)) = some id

  unfoldable pub by_delta : (InstrumentId → Option F) → (F → F) → F → Right → Option InstrumentId
  by_delta delta magnitude target right =
      chosen (by_delta_from delta magnitude (magnitude target) right none strikes)

  unfoldable pub strangle_by_delta : (InstrumentId → Option F) → (F → F) → F → List InstrumentId
  strangle_by_delta delta magnitude target =
      pair_of (by_delta delta magnitude target call) (by_delta delta magnitude target put)
