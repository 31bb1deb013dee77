-- ===== src/Engine.antt =====
-- The event loop: cpp/core/include/volforge/event_loop.hpp and cpp/core/src/event_loop.cpp. Margin is
-- a parameter: it is sampled for the report and changes no order.
pub mod Causality
pub mod Soundness
pub mod Session
pub mod Ledger
use volforge.Prelude.{
  ℕ, zero, suc, ◌+◌, Bool, true, false, not, ◌&&◌, List, [], ◌∷◌, if◌then◌else◌, length, ℤ, pos,
  ◌+ℤ◌, ◌-ℤ◌, ◌*ℤ◌, ltb_ℤ, max_ℤ, Error, Result, ok, err, ◌>>=◌,
}
use volforge.Types.{Timestamp, Money, seconds_nanos}
use volforge.Market.{SessionData, MarketView, advance_to, view_of}
use volforge.Market.Cursor.{steps_of, observations_of, least_timestamp}
use volforge.Costs.{CostPolicy}
use volforge.Double.{Double}
use volforge.Portfolio.{Portfolio, FillModel, Position, TradeRecord, new_portfolio}
use volforge.Portfolio.Positions.{is_open, unrealized}
use volforge.Portfolio.Pending.{process_pending}
use volforge.Portfolio.Rules.{process_risk_rules}
use volforge.Strategy.{Strategy, run_script}

pub record RunConfig (F : Type 0) : Type 0 where
  pub execution_delay_nanos : ℤ
  pub fills : FillModel F
  pub max_resumes_per_step : ℕ
  pub costs : CostPolicy
  pub margin_sample_seconds : ℤ
  pub margin : MarketView → Portfolio F → Money

-- The variables of `run_session` while it steps.
pub record Running (F S : Type 0) : Type 0 where
  pub clock : Timestamp
  pub portfolio : Portfolio F
  pub task : S
  pub steps : ℕ
  pub condition_evals : ℕ
  pub resumes : ℕ
  pub peak_margin : Money
  pub next_margin : Timestamp

pub record RunResult (S : Type 0) : Type 0 where
  pub realized : Money
  pub costs : Money
  pub net_realized : Money
  pub unrealized : Money
  pub final_equity : Money
  pub observations : ℕ
  pub steps : ℕ
  pub condition_evals : ℕ
  pub resumes : ℕ
  pub trades : ℕ
  pub illiquid_fills : ℕ
  pub oversized_fills : ℕ
  pub cancelled_orders : ℕ
  pub peak_margin : Money
  pub final_margin : Money
  pub rules_fired : ℕ
  pub unfilled_orders : ℕ
  pub open_positions : ℕ
  pub strategy_finished : Bool
  pub trade_log : List TradeRecord

unfoldable pub count_open : List Position → ℕ
count_open [] = 0
count_open (p ∷ ps) = (if is_open p then 1 else 0) + count_open ps

abbrev pub greater : Money → Money → Money
greater peak m = if ltb_ℤ peak m then m else peak

module _ {F S : Type 0} ⦃d : Double F⦄ (config : RunConfig F) (strategy : Strategy F S) where
  unfoldable pub resume : MarketView → Running F S → Result (Running F S)
  resume m r = do
    (p, s) ← run_script m r.portfolio (strategy.resume r.task m r.portfolio)
    ok (record r { portfolio = p; task = s })

  abbrev pub awaiting : S → Bool
  awaiting s = not (strategy.done s) && strategy.waits s

  -- One round of the `while` loop, once its condition is evaluated; `again` is the rest of it.
  abbrev pub evaluated :
      (Running F S → Result (Running F S)) → MarketView → Running F S → Bool → Result (Running F S)
  evaluated again m r false = ok (record r { condition_evals = r.condition_evals + 1 })
  evaluated again m r true =
      resume m (record r { condition_evals = r.condition_evals + 1 }) >>= λ r'.
      again (record r' { resumes = r'.resumes + 1 })

  unfoldable pub wake :
      (Running F S → Result (Running F S)) → MarketView → Running F S → Result (Running F S)
  wake again m r =
      if not (awaiting r.task)
      then ok r
      else strategy.holds r.task m r.portfolio >>= evaluated again m r

  -- The loop, with the resumes that the guard still allows. One more is an error.
  unfoldable pub wake_all : ℕ → MarketView → Running F S → Result (Running F S)
  wake_all zero m r = wake (λ _. err Error.runtime_error) m r
  wake_all (suc n) m r = wake (wake_all n m) m r

  abbrev pub margin_interval : ℤ
  margin_interval = max_ℤ (pos 1) config.margin_sample_seconds *ℤ seconds_nanos

  abbrev pub sample_margin : MarketView → Running F S → Running F S
  sample_margin m r = if ltb_ℤ m.now r.next_margin then r else record r {
    peak_margin = greater r.peak_margin (config.margin m r.portfolio);
    next_margin = m.now +ℤ margin_interval;
  }

  -- One timestamp, once the clock stands at it: fills, then rules, then the strategy.
  unfoldable pub step_on : MarketView → Running F S → Result (Running F S)
  step_on m r = do
    p ← process_pending m r.portfolio
    p' ← process_risk_rules m p
    wake_all config.max_resumes_per_step m
        (sample_margin m (record r { portfolio = p'; steps = r.steps + 1 }))

  unfoldable pub step : SessionData → Running F S → Timestamp → Result (Running F S)
  step s r t = do now ← advance_to r.clock t; step_on (view_of s now) (record r { clock = now })

  unfoldable pub run_steps : SessionData → Running F S → List Timestamp → Result (Running F S)
  run_steps s r [] = ok r
  run_steps s r (t ∷ ts) = step s r t >>= λ r'. run_steps s r' ts

  abbrev pub started : Portfolio F → Running F S
  started p = record {
    clock = pos 0;
    portfolio = p;
    task = strategy.start;
    steps = 0;
    condition_evals = 0;
    resumes = 0;
    peak_margin = pos 0;
    next_margin = least_timestamp;
  }

  unfoldable pub finish : SessionData → Running F S → RunResult S
  finish s r = record {
    realized = p.realized;
    costs = p.total_costs;
    net_realized = p.realized -ℤ p.total_costs;
    unrealized = unrealized p.positions m;
    final_equity = p.realized -ℤ p.total_costs +ℤ unrealized p.positions m;
    observations = observations_of s;
    steps = r.steps;
    condition_evals = r.condition_evals;
    resumes = r.resumes;
    trades = length p.trades;
    illiquid_fills = p.illiquid_fills;
    oversized_fills = p.oversized_fills;
    cancelled_orders = p.cancelled_orders;
    peak_margin = greater r.peak_margin (config.margin m p);
    final_margin = config.margin m p;
    rules_fired = p.rules_fired;
    unfilled_orders = length p.pending;
    open_positions = count_open p.positions;
    strategy_finished = strategy.done r.task;
    trade_log = p.trades;
  }
    where
      p : Portfolio F
      p = r.portfolio

      m : MarketView
      m = view_of s r.clock

  -- `run_session` up to the loop: the strategy runs to its first suspension.
  unfoldable pub enter : SessionData → Result (Running F S)
  enter s = do
    p ← new_portfolio config.fills config.execution_delay_nanos config.costs
    resume (view_of s (pos 0)) (started p)

  -- `run_session` up to the report, and with it.
  unfoldable pub run_session : SessionData → Result (Running F S)
  run_session s = do r ← enter s; run_steps s r (steps_of s)

  unfoldable pub run_report : SessionData → Result (RunResult S)
  run_report s = do r ← run_session s; ok (finish s r)
