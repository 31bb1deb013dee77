-- ===== src/Strategy/Context.antt =====
-- The conditions and the schedule of a context: `Ctx` of cpp/core/src/strategy.cpp. An indicator is one
-- of Indicators.
use volforge.Instrument.{spec}
use volforge.Types.{Qty}
use volforge.Prelude.{
  ℕ, ◌*◌, Bool, true, false, not, ◌&&◌, Option, none, some, List, [], ◌∷◌, if◌then◌else◌, ℤ, pos,
  ◌+ℤ◌, ◌*ℤ◌, ltb_ℤ, leb_ℤ, Error, Result, ok, err, ◌>>=◌, ◌>>◌, throw_if, or_throw,
}
use volforge.Strategy.{Command}
use volforge.Prelude.{
  ℕ, or_throw, ◌*◌, Bool, true, false, not, ◌&&◌, Option, none, some, List, [], ◌∷◌, if◌then◌else◌,
  ℤ, pos, ◌+ℤ◌, ◌*ℤ◌, ltb_ℤ, leb_ℤ, Error, Result, ok, err, ◌>>=◌, ◌>>◌, throw_if,
}
use volforge.Types.{Date, Timestamp, Qty, InstrumentId, UnderlyingId, seconds_nanos}
use volforge.Types.Calendar.{timestamp_of, add_days, ist_offset_seconds}
use volforge.Instrument.{expiries, spec}
use volforge.Market.{SessionData, MarketView, Quote, quote_at}
use volforge.Bars.{Bar, BarSeries, BarPrice, build, completed}
use volforge.Double.{Double, to_double}
use volforge.Indicators.{Numerics, Indicator, value_at}
use volforge.Portfolio.{at}
use volforge.Portfolio.Positions.{established, is_closed, pnl_pct}
use volforge.Condition.{Cond, EvalCtx, at_or_after, parse_time_of_day}

pub record Ctx : Type 0 where
  pub market : MarketView
  pub underlying : UnderlyingId
  pub spot : InstrumentId
  pub date : Date
  pub utc_offset : ℤ
  pub calendar : Option (List Date)

-- The first session after a date.
unfoldable pub next_session : Date → List Date → Option Date
next_session date [] = none
next_session date (d ∷ ds) =
    let rest = next_session date ds in if ltb_ℤ date d then some d else rest

module _ {F : Type 0} where
  -- A condition that never holds.
  abbrev pub never : Cond F
  never = some (λ c. ok false)

  abbrev pub resolved : Ctx → ℤ → Option Date → Cond F
  resolved ctx sod none = never
  resolved ctx sod (some d) = at_or_after (timestamp_of d sod ctx.utc_offset)

  abbrev pub rescheduled : Ctx → ℤ → Option (List Date) → Cond F
  rescheduled ctx sod none = at_or_after (timestamp_of ctx.date sod ctx.utc_offset)
  rescheduled ctx sod (some dates) = resolved ctx sod (next_session ctx.date dates)

  abbrev pub scheduled : Ctx → ℤ → Cond F
  scheduled ctx sod =
      if ltb_ℤ ctx.market.now (timestamp_of ctx.date sod ctx.utc_offset)
      then at_or_after (timestamp_of ctx.date sod ctx.utc_offset)
      else rescheduled ctx sod ctx.calendar

  -- `Ctx::at` and `Ctx::at_on`.
  unfoldable pub at_time : Ctx → List ℕ → Result (Cond F)
  at_time ctx hhmm = do sod ← parse_time_of_day hhmm; ok (scheduled ctx sod)

  unfoldable pub at_on : Ctx → Date → List ℕ → Result (Cond F)
  at_on ctx date hhmm = do
    sod ← parse_time_of_day hhmm
    ok (at_or_after (timestamp_of date sod ctx.utc_offset))

  unfoldable pub after_seconds : Ctx → ℤ → Cond F
  after_seconds ctx seconds = at_or_after (ctx.market.now +ℤ seconds *ℤ seconds_nanos)

  unfoldable pub position_closed : ℤ → Cond F
  position_closed id = some (λ c. at c.portfolio id >>= λ p. ok (is_closed p))

-- `next_expiry`.
unfoldable pub first_from : Date → List Date → Option Date
first_from earliest [] = none
first_from earliest (d ∷ ds) =
    let rest = first_from earliest ds in if leb_ℤ earliest d then some d else rest

unfoldable pub next_expiry : Ctx → ℤ → Option Date
unfolding first_from
next_expiry ctx min_days_ahead =
    first_from (add_days ctx.date min_days_ahead) (expiries ctx.market.registry ctx.underlying)

pub data Confirm : Type 0 where
  instant bar_close : Confirm

module _ {F : Type 0} ⦃d : Double F⦄ ⦃n : Numerics F⦄ where
  abbrev pub tests_pnl : (F → Bool) → ℤ → Cond F
  tests_pnl test id = some (λ c. at c.portfolio id >>= λ p.
      ok (if not (established p) then false else test (pnl_pct p c.market)))

  unfoldable pub pnl_pct_at_most : ℤ → F → Cond F
  pnl_pct_at_most id pct = tests_pnl (λ x. d.le x pct) id

  unfoldable pub pnl_pct_at_least : ℤ → F → Cond F
  pnl_pct_at_least id pct = tests_pnl (λ x. d.le pct x) id

  -- Whether a price has passed a level: the earlier pair, then the later one.
  abbrev pub passes : Bool → F → F → F → F → Bool
  passes true p_prev lvl_prev p_now lvl_now = d.le p_prev lvl_prev && d.lt lvl_now p_now
  passes false p_prev lvl_prev p_now lvl_now = d.le lvl_prev p_prev && d.lt p_now lvl_now

  abbrev pub passes_levels : Bool → F → Option F → F → Option F → Bool
  passes_levels above p_prev none p_now lvl_now = false
  passes_levels above p_prev (some lvl_prev) p_now none = false
  passes_levels above p_prev (some lvl_prev) p_now (some lvl_now) =
      passes above p_prev lvl_prev p_now lvl_now

  abbrev pub instant_of : Indicator F → Bool → EvalCtx F → Option Quote → Option Quote → Result Bool
  instant_of level above c none prev_q = ok false
  instant_of level above c (some now_q) none = ok false
  instant_of level above c (some now_q) (some prev_q) = do
    lvl_now ← value_at level c.now (pos 0)
    lvl_prev ← value_at level prev_q.ts (pos 0)
    ok (passes_levels above (to_double prev_q.last) lvl_prev (to_double now_q.last) lvl_now)

  unfoldable pub instant_cross : InstrumentId → Indicator F → Bool → Cond F
  instant_cross inst level above = some (λ c. quote_at c.market inst (pos 0) >>= λ now_q.
      quote_at c.market inst (pos 1) >>= λ prev_q. instant_of level above c now_q prev_q)

  abbrev pub bar_close_of : Indicator F → Bool → EvalCtx F → Option Bar → Option Bar → Result Bool
  bar_close_of level above c none b1 = ok false
  bar_close_of level above c (some b0) none = ok false
  bar_close_of level above c (some b0) (some b1) = do
    l0 ← value_at level c.now (pos 0)
    l1 ← value_at level c.now (pos 1)
    ok (passes_levels above (to_double b1.close) l1 (to_double b0.close) l0)

  unfoldable pub bar_close_cross : Indicator F → Bool → Cond F
  bar_close_cross level above = some (λ c. completed level.bars c.now (pos 0) >>= λ b0.
      completed level.bars c.now (pos 1) >>= λ b1. bar_close_of level above c b0 b1)

  -- `cross_above` and `cross_below`. A null indicator is `none`.
  unfoldable pub cross : Ctx → Option (Indicator F) → Confirm → Bool → Result (Cond F)
  cross ctx none confirm above = err Error.invalid_argument
  cross ctx (some level) instant above = ok (instant_cross ctx.spot level above)
  cross ctx (some level) bar_close above = ok (bar_close_cross level above)

unfoldable pub fold_last : Date → List Date → Date
fold_last d [] = d
fold_last d (e ∷ es) = fold_last e es

-- The expiry of `Ctx::chain`: the first that has not passed, or else the last.
abbrev pub last_expiry : List Date → Option Date
last_expiry [] = none
last_expiry (d ∷ ds) = some (fold_last d ds)

unfoldable pub chain_expiry : Ctx → List Date → Result Date
unfolding first_from
chain_expiry ctx dates = elim (first_from ctx.date dates) [
  | some d ↦ ok d
  | none ↦ or_throw (last_expiry dates) Error.runtime_error
]

unfoldable pub lot_size : Ctx → InstrumentId → Result Qty
lot_size ctx id = do s ← spec ctx.market.registry id; ok s.lot_size

-- `PositionRef::exit_at_on`, whose offset is not the context's but a constant, and `exit_at`.
unfoldable pub exit_at_on : {F : Type 0} → ℕ → Date → List ℕ → Result (Command F)
exit_at_on id date hhmm = do
  sod ← parse_time_of_day hhmm
  ok (Command.exit_at id none (timestamp_of date sod ist_offset_seconds))

unfoldable pub exit_today : {F : Type 0} → Ctx → ℕ → List ℕ → Result (Command F)
unfolding exit_at_on
exit_today ctx id hhmm = exit_at_on id ctx.date hhmm

-- `Ctx::bars`, without its cache: a series is valid for a day from the session's anchor.
unfoldable pub session_bars :
    SessionData → Timestamp → InstrumentId → ℤ → BarPrice → Result BarSeries
session_bars s anchor id interval_seconds source = do
  throw_if (leb_ℤ interval_seconds (pos 0)) Error.invalid_argument
  build (s.quotes id) (interval_seconds *ℤ seconds_nanos) anchor source
      (anchor +ℤ pos (24 * 3600) *ℤ seconds_nanos)
