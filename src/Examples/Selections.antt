-- ===== src/Examples/Selections.antt =====
-- A chain of a call and a put at one strike, with what strategy code asks of it.
use volforge.Prelude.{
  ◌+◌, ◌*◌, ◌≡◌, refl, sym, ◌∙◌, subst, inl, inr, true, false, none, some, [], ◌∷◌, arith,
  get_elem?, ℤ, pos, negsuc, ◌+ℤ◌, ◌-ℤ◌, ◌*ℤ◌, abs, ◌<ℤ◌, eqb_ℤ, div_ℤ, ok, ◌>>=◌, ok-injective,
  Safe, Returns,
}
use volforge.Types.{from_seconds, Price, put}
use volforge.Instrument.{
  InstrumentSpec, InstrumentRegistry, add, key_of, find_key, intern_underlying, find_name,
  sort_dates, unique_dates,
}
use volforge.Market.{MarketView, view_of}
use volforge.Bars.{Bar, BarSeries, last_price}
use volforge.Double.{hundredths}
use volforge.Types.Calendar.{timestamp_of, days_of, days_from_civil}
use volforge.Condition.{EvalCtx, eval, parse_time_of_day}
use volforge.Condition.TimeOfDay.{written, parse_time_of_day-written}
use volforge.Indicators.{Numerics, Indicator, stdev, value_at}
use volforge.Indicators.Warmup.{stdev-no_value}
use volforge.Strategy.Chain.{ChainView, strikes_in, nearest, strikes, reference_price, atm_strike}
use volforge.Strategy.Selection.{IsAtTheMoney, atm_strike-IsAtTheMoney}
use volforge.Strategy.Forward.{Pricing, parity_at, forward}
use volforge.Strategy.Recovery.{Recovered, forward-Recovered}
use volforge.Strategy.Context.{Ctx, at_time}
use volforge.Strategy.Schedule.{Coming, at_time-waits}
use volforge.Examples.{day, session, registry, nifty_call}
use volforge.Examples.Portfolios.{nothing_held}

abbrev nifty_put : InstrumentSpec
nifty_put = record nifty_call { right = put }

abbrev pair_registry : InstrumentRegistry
pair_registry = (add registry nifty_put).0

abbrev pair_view : MarketView
pair_view = record (view_of session (pos 25)) {
  registry = pair_registry;
  has_quote = λ id. true;
  read = λ id k. get_elem? day k;
}

abbrev chain : ChainView ℤ
chain = record {
  market = pair_view;
  underlying = pos 0;
  spot = pos 0;
  forward = none;
  expiry = pos 20240125;
}

chain-atm : atm_strike chain ≡ some (pos 2150000)
unfolding atm_strike strikes_in add find_key key_of intern_underlying find_name sort_dates
    unique_dates nearest ◌-ℤ◌
chain-atm = refl

atm_strike-IsAtTheMoney_example :
    (r : Price) × (reference_price chain ≡ some r) × IsAtTheMoney r (strikes chain) (pos 2150000)
atm_strike-IsAtTheMoney_example = atm_strike-IsAtTheMoney chain (pos 2150000) chain-atm

instance abbrev linear : Pricing ℤ
linear = record { exp = λ z. z +ℤ pos 100; fabs = λ z. pos (abs z); is_finite = λ z. true }

forward-Recovered_example :
    Safe (forward {F = ℤ} pair_view (pos 0) (pos 20240125) (pos 2) (pos 3)) (
      Recovered
        (parity_at pair_view
          (pos 0)
          (pos 20240125)
          (strikes_in pair_view (pos 0) (pos 20240125) pair_registry.specs))
        (linear.exp (hundredths.mul (pos 3) (pos 2)))
        (strikes_in pair_view (pos 0) (pos 20240125) pair_registry.specs))
forward-Recovered_example = forward-Recovered ℤ pair_view (pos 0) (pos 20240125) (pos 2) (pos 3)

parse_time_of_day-written_example :
    parse_time_of_day (written 9 15 30) ≡ ok (pos (9 * 3600 + 15 * 60 + 30))
parse_time_of_day-written_example =
    parse_time_of_day-written 9 15 30 (omega arith) (omega arith) (omega arith)

-- A value that is not a number, among the hundredths.
instance abbrev nan_marked : Numerics ℤ
nan_marked = record { nan = negsuc 0; is_nan = λ z. eqb_ℤ z (negsuc 0); sqrt = λ z. z }

abbrev hour : Bar
hour = record {
  open_time = pos 0;
  close_time = pos 10;
  open_px = pos 100;
  high = pos 130;
  low = pos 90;
  close = pos 120;
  volume = pos 50;
  observations = 3;
}

abbrev two_bars : BarSeries
two_bars = record {
  bars = hour ∷ record hour { open_time = pos 10; close_time = pos 20; close = pos 125 } ∷ [];
  cols = [];
  interval = pos 10;
  anchor = pos 0;
  source = last_price;
  valid_until = pos 0;
}

stdev-no_value_example :
    Returns
      (stdev two_bars (pos 2) >>= λ (i : Indicator ℤ). value_at i (pos 20) (pos 0))
      (λ v. v ≡ none)
stdev-no_value_example = stdev-no_value ℤ two_bars 2 (pos 20) (pos 0) refl (omega arith)

-- A quarter past nine has passed on the day, and the next session is the day after.
abbrev late : Ctx
late = record {
  market = record pair_view { now = pos 1706155000000000000 };
  underlying = pos 0;
  spot = pos 0;
  date = pos 20240125;
  utc_offset = pos 19800;
  calendar = some (pos 20240125 ∷ pos 20240126 ∷ []);
}

abbrev late_eval : EvalCtx ℤ
late_eval = record { market = late.market; portfolio = nothing_held; now = late.market.now }

tomorrow : timestamp_of (pos 20240126) (pos 33300) (pos 19800) ≡ pos 1706240700000000000
unfolding timestamp_of days_of days_from_civil from_seconds ◌*ℤ◌ ◌+ℤ◌ ◌-ℤ◌ div_ℤ
tomorrow = refl

later : late.market.now <ℤ timestamp_of (pos 20240126) (pos 33300) (pos 19800)
later = rw tomorrow (omega arith)

late-Coming :
    (sod : ℤ)
    → parse_time_of_day (written 9 15 0) ≡ ok sod
    → Coming late sod (pos 20240125 ∷ pos 20240126 ∷ [])
late-Coming sod h =
    let second : sod ≡ pos 33300 =
      ok-injective _ _
        (sym h ∙ parse_time_of_day-written 9 15 0 (omega arith) (omega arith) (omega arith)) in
    subst (λ t. Coming late t (pos 20240125 ∷ pos 20240126 ∷ [])) (sym second)
      (inl refl, (inr later, tt))

at_time-waits_example :
    Returns (at_time {F = ℤ} late (written 9 15 0)) (λ cond. eval cond late_eval ≡ ok false)
at_time-waits_example =
    at_time-waits late (written 9 15 0) (pos 20240125 ∷ pos 20240126 ∷ []) late_eval refl refl
      late-Coming
