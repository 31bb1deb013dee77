-- ===== src/Backtest.antt =====
-- The backtest over several sessions: cpp/core/include/volforge/backtest.hpp and
-- cpp/core/src/backtest.cpp, and the interface of a data source. The portfolio, the clock and the
-- coroutine outlive a session. The coroutine reads the sessions of the source besides the view, each
-- by its date, so that it is a family over dates here. The parity forward is a parameter, as the
-- margin is.
pub mod Ledger
pub mod Report
pub mod Held
pub mod Due
pub mod Clear
use volforge.Prelude.{
  ℕ, ◌+◌, ◌-◌, Bool, true, false, not, ◌&&◌, ◌||◌, Option, none, some, List, [], ◌∷◌, ◌++◌,
  if◌then◌else◌, length, ℤ, pos, ◌+ℤ◌, ◌-ℤ◌, ltb_ℤ, leb_ℤ, eqb_ℤ, max_ℤ, Error, Result, ok, ◌>>=◌,
  ◌>>◌, throw_if, or_throw,
}
use volforge.Types.{Date, Timestamp, Money, InstrumentId, UnderlyingId, invalid_id, date_valid}
use volforge.Types.Calendar.{timestamp_of, ist_offset_seconds}
use volforge.Instrument.{InstrumentRegistry, InstrumentSpec, spec, is_option, expiries}
use volforge.Market.{SessionData, MarketView, view_of, quote, advance_to}
use volforge.Market.Cursor.{steps_of, observations_of, least_timestamp}
use volforge.Double.{Double, to_double}
use volforge.Portfolio.{Portfolio, Position, Leg, TradeRecord, new_portfolio, live}
use volforge.Portfolio.Positions.{unrealized}
use volforge.Portfolio.Pending.{process_pending}
use volforge.Portfolio.Marks.{refresh_marks}
use volforge.Portfolio.Expiry.{settle_expiry}
use volforge.Portfolio.Submit.{cancel_working_orders}
use volforge.Portfolio.Rules.{process_risk_rules}
use volforge.Strategy.{Strategy}
use volforge.Engine.{
  RunConfig, Running, count_open, greater, resume, wake_all, sample_margin, started,
}

-- The interface `DataSource`. A null session is `none`.
pub record DataSource : Type 0 where
  pub sessions : List Date
  pub load : Date → Option SessionData

pub data ExpiryHandling : Type 0 where
  settle forbid : ExpiryHandling

pub record BacktestConfig (F : Type 0) : Type 0 where
  pub run : RunConfig F
  pub expiry : ExpiryHandling
  pub settlement_second_of_day : ℤ
  pub underlying : UnderlyingId
  pub spot : InstrumentId
  pub forward : MarketView → Date → Option F

pub record SessionSummary : Type 0 where
  pub date : Date
  pub realized_to_date : Money
  pub costs_to_date : Money
  pub equity : Money
  pub peak_margin : Money
  pub trades : ℕ
  pub settled_legs : ℕ
  pub open_positions : ℕ

pub record BacktestResult : Type 0 where
  pub sessions : List Date
  pub realized : Money
  pub costs : Money
  pub net_realized : Money
  pub unrealized : Money
  pub final_equity : Money
  pub peak_margin : Money
  pub observations : ℕ
  pub steps : ℕ
  pub resumes : ℕ
  pub trades : ℕ
  pub settled_legs : ℕ
  pub illiquid_fills : ℕ
  pub oversized_fills : ℕ
  pub cancelled_orders : ℕ
  pub open_positions : ℕ
  pub strategy_finished : Bool
  pub trade_log : List TradeRecord
  pub daily : List SessionSummary

-- What the loop over the sessions carries on. The margin in `running` is that of one session.
pub record Carried (F S : Type 0) : Type 0 where
  pub running : Running F S
  pub observations : ℕ
  pub peak_margin : Money
  pub trades_seen : ℕ
  pub daily : List SessionSummary
  pub sessions : List Date

-- `std::set::insert`.
unfoldable pub insert_due : Date → List Date → List Date
insert_due d [] = d ∷ []
insert_due d (e ∷ es) =
    let rest = insert_due d es in
    if ltb_ℤ d e then d ∷ e ∷ es else if eqb_ℤ d e then e ∷ es else e ∷ rest

abbrev pub comes_due : Date → InstrumentSpec → Bool
comes_due today s =
    if not (is_option s) || not (date_valid s.expiry) then false else leb_ℤ s.expiry today

unfoldable pub due_leg : InstrumentRegistry → Date → Leg → List Date → Result (List Date)
unfolding insert_due
due_leg r today l due =
    if not (live l)
    then ok due
    else spec r l.instrument >>= λ s.
        ok (if comes_due today s then insert_due s.expiry due else due)

unfoldable pub due_legs : InstrumentRegistry → Date → List Leg → List Date → Result (List Date)
due_legs r today [] due = ok due
due_legs r today (l ∷ ls) due = due_leg r today l due >>= due_legs r today ls

unfoldable pub due_from : InstrumentRegistry → Date → List Position → List Date → Result (List Date)
due_from r today [] due = ok due
due_from r today (p ∷ ps) due = due_legs r today p.legs due >>= due_from r today ps

-- `due_expiries`.
unfoldable pub due_expiries : InstrumentRegistry → Date → List Position → Result (List Date)
unfolding due_from
due_expiries r today ps = due_from r today ps []

abbrev pub is_sorted : List Date → Bool
is_sorted [] = true
is_sorted (d ∷ []) = true
is_sorted (d ∷ e ∷ es) = not (ltb_ℤ e d) && is_sorted (e ∷ es)

abbrev pub forbids : ExpiryHandling → Bool
forbids settle = false
forbids forbid = true

abbrev pub last_equity : List SessionSummary → Option Money
last_equity [] = none
last_equity (s ∷ []) = some s.equity
last_equity (s ∷ t ∷ ss) = last_equity (t ∷ ss)

abbrev pub unrealized_of : Option Money → Money → Money
unrealized_of none net = pos 0
unrealized_of (some equity) net = equity -ℤ net

abbrev pub no_result : BacktestResult
no_result = record {
  sessions = [];
  realized = pos 0;
  costs = pos 0;
  net_realized = pos 0;
  unrealized = pos 0;
  final_equity = pos 0;
  peak_margin = pos 0;
  observations = 0;
  steps = 0;
  resumes = 0;
  trades = 0;
  settled_legs = 0;
  illiquid_fills = 0;
  oversized_fills = 0;
  cancelled_orders = 0;
  open_positions = 0;
  strategy_finished = false;
  trade_log = [];
  daily = [];
}

abbrev pub dates_or : List Date → List Date → List Date
dates_or known [] = known
dates_or known (d ∷ ds) = d ∷ ds

module _ {F : Type 0} ⦃d : Double F⦄ (config : BacktestConfig F) where
  -- The forward of the first later expiry that has one.
  unfoldable pub later_forward : MarketView → Date → List Date → Option F
  later_forward m expiry [] = none
  later_forward m expiry (e ∷ es) =
      let rest = later_forward m expiry es in
      if leb_ℤ e expiry then rest else elim (config.forward m e) [ none ↦ rest | some f ↦ some f ]

  abbrev pub parity_level : MarketView → Date → Option F
  parity_level m expiry = elim (config.forward m expiry) [
    | none ↦ later_forward m expiry (expiries m.registry config.underlying)
    | some f ↦ some f
  ]

  abbrev pub spot_level : MarketView → Option F
  spot_level m = if eqb_ℤ config.spot invalid_id then none else elim (quote m config.spot) [
    | none ↦ none
    | some q ↦ if ltb_ℤ (pos 0) q.last then some (to_double q.last) else none
  ]

  unfoldable pub settlement_level : MarketView → Date → Option F
  settlement_level m expiry = elim (spot_level m) [
    | none ↦ parity_level m expiry
    | some level ↦ some level
  ]

  -- The loop over the expiries that are due.
  unfoldable pub settle_due :
      MarketView → Timestamp → List Date → Portfolio F → Result (Portfolio F × ℕ)
  settle_due m now [] p = ok (p, 0)
  settle_due m now (e ∷ es) p = do
    throw_if (forbids config.expiry) Error.runtime_error
    level ← or_throw (settlement_level m e) Error.runtime_error
    (p', n) ← settle_expiry m p e level now
    (p'', rest) ← settle_due m now es p'
    ok (p'', n + rest)

  abbrev pub settle_at : Date → Timestamp
  settle_at date = timestamp_of date config.settlement_second_of_day ist_offset_seconds

  -- The end of a session, with the clock at `m.now`: settlement, and the day orders.
  unfoldable pub close_session : MarketView → Date → Portfolio F → Result (Portfolio F × ℕ)
  close_session m date p = do
    due ← due_expiries m.registry date p.positions
    (p', settled) ← settle_due m m.now due p
    (p'', cancelled) ← cancel_working_orders p'
    ok (p'', settled)

  module _ {S : Type 0} (strategy : Date → Strategy F S) where
    unfoldable pub day_step_on : Date → MarketView → Running F S → Result (Running F S)
    day_step_on date m r = do
      p ← process_pending m r.portfolio
      p' ← process_risk_rules m (refresh_marks m p)
      wake_all config.run (strategy date) config.run.max_resumes_per_step m (
          sample_margin config.run (strategy date) m
            (record r { portfolio = p'; steps = r.steps + 1 }))

    unfoldable pub day_step : Date → SessionData → Running F S → Timestamp → Result (Running F S)
    day_step date s r t = do
      now ← advance_to r.clock t
      day_step_on date (view_of s now) (record r { clock = now })

    unfoldable pub day_steps :
        Date → SessionData → Running F S → List Timestamp → Result (Running F S)
    day_steps date s r [] = ok r
    day_steps date s r (t ∷ ts) = day_step date s r t >>= λ r'. day_steps date s r' ts

    abbrev pub new_day : Running F S → Running F S
    new_day r = record r { peak_margin = pos 0; next_margin = least_timestamp }

    abbrev pub summary : Date → SessionData → Carried F S → Running F S → ℕ → SessionSummary
    summary date s c r settled =
        let p = r.portfolio in
        record {
          date = date;
          realized_to_date = p.realized;
          costs_to_date = p.total_costs;
          equity = p.realized -ℤ p.total_costs +ℤ unrealized p.positions (view_of s r.clock);
          peak_margin = r.peak_margin;
          trades = length p.trades - c.trades_seen;
          settled_legs = settled;
          open_positions = count_open p.positions;
        }

    abbrev pub after_session : Date → SessionData → Carried F S → Running F S → ℕ → Carried F S
    after_session date s c r settled = record {
      running = r;
      observations = c.observations + observations_of s;
      peak_margin = greater c.peak_margin r.peak_margin;
      trades_seen = length r.portfolio.trades;
      daily = c.daily ++ (summary date s c r settled ∷ []);
      sessions = c.sessions ++ (date ∷ []);
    }

    -- One turn of the loop over the sessions, for a session that loads.
    unfoldable pub trade_session : Date → SessionData → Carried F S → Result (Carried F S)
    trade_session date s c = do
      r ← day_steps date s (new_day c.running) (steps_of s)
      let now = max_ℤ r.clock (settle_at date)
      (p, settled) ← close_session (view_of s now) date r.portfolio
      ok (after_session date s c (record r { clock = now; portfolio = p }) settled)

    -- A date without data is skipped.
    unfoldable pub trade_date : DataSource → Date → Carried F S → Result (Carried F S)
    trade_date source date c = elim (source.load date) [
      | none ↦ ok c
      | some s ↦ trade_session date s c
    ]

    unfoldable pub trade_dates : DataSource → List Date → Carried F S → Result (Carried F S)
    trade_dates source [] c = ok c
    trade_dates source (date ∷ dates) c = trade_date source date c >>= trade_dates source dates

    abbrev pub carried : Running F S → Carried F S
    carried r = record {
      running = r;
      observations = 0;
      peak_margin = pos 0;
      trades_seen = 0;
      daily = [];
      sessions = [];
    }

    -- The run up to the report, for dates that begin with `first`.
    unfoldable pub trade_from : DataSource → Date → List Date → Portfolio F → Result (Carried F S)
    trade_from source first dates p = do
      s ← or_throw (source.load first) Error.runtime_error
      r ←
          resume config.run (strategy first) (view_of s (pos 0))
            (started config.run (strategy first) p)
      trade_dates source (first ∷ dates) (carried r)

    -- The same, from the portfolio that the run makes.
    unfoldable pub traded : DataSource → Date → List Date → Result (Carried F S)
    traded source first dates =
        new_portfolio config.run.fills config.run.execution_delay_nanos config.run.costs
        >>= trade_from source first dates

    unfoldable pub report : Strategy F S → Carried F S → BacktestResult
    report task c =
        let p = c.running.portfolio in
        let net = p.realized -ℤ p.total_costs in
        let left = unrealized_of (last_equity c.daily) net in
        record {
          sessions = c.sessions;
          realized = p.realized;
          costs = p.total_costs;
          net_realized = net;
          unrealized = left;
          final_equity = net +ℤ left;
          peak_margin = c.peak_margin;
          observations = c.observations;
          steps = c.running.steps;
          resumes = c.running.resumes;
          trades = length p.trades;
          settled_legs = p.settled_legs;
          illiquid_fills = p.illiquid_fills;
          oversized_fills = p.oversized_fills;
          cancelled_orders = p.cancelled_orders;
          open_positions = count_open p.positions;
          strategy_finished = task.done c.running.task;
          trade_log = p.trades;
          daily = c.daily;
        }

    -- The run over some dates. Without one the portfolio is made all the same.
    abbrev pub reported : DataSource → List Date → Result BacktestResult
    reported source [] =
        new_portfolio config.run.fills config.run.execution_delay_nanos config.run.costs >>= λ p.
        ok no_result
    reported source (first ∷ dates) =
        traded source first dates >>= λ c. ok (report (strategy first) c)

    unfoldable pub run_backtest : DataSource → List Date → Result BacktestResult
    run_backtest source asked = do
      let dates = dates_or source.sessions asked
      throw_if (not (is_sorted dates)) Error.invalid_argument
      reported source dates
