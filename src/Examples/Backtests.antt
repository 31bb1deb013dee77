-- ===== src/Examples/Backtests.antt =====
-- A backtest of two days: a lot is sold on the first, and settled on the second, its expiry.
use volforge.Prelude.{
  ℕ, ◌≡◌, true, false, some, [], ◌∷◌, arith, ◌==◌, if◌then◌else◌, ℤ, pos, negsuc, ok, Safe, Returns,
  if_both,
}
use volforge.Types.{Date}
use volforge.Market.{QuoteColumns}
use volforge.Double.{hundredths}
use volforge.Costs.{sell}
use volforge.Portfolio.{Portfolio, Position, open_leg}
use volforge.Strategy.{Strategy, suspends, acts, order}
use volforge.Engine.{started}
use volforge.Engine.Ledger.{Throws}
use volforge.Memory.{MemorySession, session_data}
use volforge.Portfolio.Accounting.{Balanced}
use volforge.Strategy.Ledger.{OnlyThrows}
use volforge.Memory.Source.{MemorySource, sessions}
use volforge.Memory.Backtest.{data_source, run_backtest-all_sessions}
use volforge.Backtest.{
  BacktestConfig, settle, forbid, Carried, carried, trade_session, traded, run_backtest, is_sorted,
}
use volforge.Backtest.Ledger.{traded-Balanced}
use volforge.Backtest.Report.{Reports, run_backtest-Reports}
use volforge.Backtest.Clear.{IsClear, trade_session-IsClear}
use volforge.Examples.{quoted, registry, config, quotes_of}

-- Ten and eleven in the morning of the second day.
abbrev later_day : QuoteColumns
later_day =
    quoted (pos 1_706_157_000_000_000_000) (pos 9000) (pos 8990) (pos 9010)
    ∷ quoted (pos 1_706_160_600_000_000_000) (pos 8000) (pos 7990) (pos 8010)
    ∷ []

abbrev expiry_day : MemorySession
expiry_day = record {
  date = pos 20240125;
  registry = registry;
  series = (pos 0, later_day) ∷ [];
  instruments = pos 0 ∷ [];
  order = [];
  timeline = [];
  total = 2;
}

abbrev first_day : MemorySession
first_day = record {
  date = pos 20240124;
  registry = registry;
  series = (pos 0, quotes_of (pos 0)) ∷ [];
  instruments = pos 0 ∷ [];
  order = [];
  timeline = [];
  total = 5;
}

abbrev source : MemorySource
source = record {
  registry = registry;
  by_date = (pos 20240124, first_day) ∷ (pos 20240125, expiry_day) ∷ [];
}

abbrev backtest : BacktestConfig ℤ
backtest = record {
  run = config;
  expiry = settle;
  settlement_second_of_day = pos 55_800;
  underlying = pos 0;
  spot = negsuc 0;
  forward = λ m e. some (pos 2_150_700);
}

abbrev careful : BacktestConfig ℤ
careful = record backtest { expiry = forbid }

-- Sells a lot at the first timestamp, and holds it.
abbrev holder : Date → Strategy ℤ ℕ
holder date = record {
  start = 0;
  done = λ x. x == 2;
  waits = λ x. true;
  holds = λ x m p. ok true;
  resume = λ x m p.
      if x == 0
      then suspends 1
      else acts (order sell (pos 0 ∷ []) (pos 1) "call") (λ _. suspends 2);
}

holder-Throws : (date : Date) → Throws (holder date)
holder-Throws date = record {
  conditions = λ x m p. tt;
  bodies = λ x m p. if_both OnlyThrows (x == 0) tt (λ p. tt);
}

traded-Balanced_example :
    Safe
      (traded backtest holder (data_source source) (pos 20240124) (pos 20240125 ∷ []))
      (λ c. Balanced c.running.portfolio)
traded-Balanced_example =
    traded-Balanced backtest holder holder-Throws (data_source source) (pos 20240124)
      (pos 20240125 ∷ [])

run_backtest-Reports_example :
    Returns
      (run_backtest backtest holder
        (data_source source)
        (pos 20240124 ∷ pos 20240125 ∷ pos 20240126 ∷ []))
      (Reports backtest holder
        (data_source source)
        (pos 20240124 ∷ pos 20240125 ∷ pos 20240126 ∷ []))
run_backtest-Reports_example =
    run_backtest-Reports backtest holder (data_source source)
      (pos 20240124 ∷ pos 20240125 ∷ pos 20240126 ∷ [])

-- A portfolio with one position, that is short an option.
abbrev held : Portfolio ℤ
held = record {
  fills = config.fills;
  delay = pos 5;
  positions = short ∷ [];
  pending = [];
  rules = [];
  trades = [];
  realized = pos 0;
  costs = config.costs;
  total_costs = pos 0;
  illiquid_fills = 0;
  oversized_fills = 0;
  cancelled_orders = 0;
  settled_legs = 0;
  rules_fired = 0;
  closing_from_rule = false;
}
  where
    short : Position
    short = record {
      id = 0;
      label = "call";
      legs =
          record {
            instrument = pos 0;
            qty = negsuc 49;
            state = open_leg;
            entry = pos 9990;
            entry_ts = pos 10;
            exit = pos 0;
            exit_ts = pos 0;
            last_mark = pos 0;
            last_mark_ts = pos 0;
            settled = false;
          }
          ∷ [];
    }

abbrev waiting : Carried ℤ ℕ
waiting = carried backtest holder (started config (holder (pos 20240125)) held)

trade_session-IsClear_example :
    Returns
      (trade_session backtest holder (pos 20240125) (session_data expiry_day) waiting)
      (λ c. IsClear (session_data expiry_day).registry (pos 20240125) c.running.portfolio)
trade_session-IsClear_example =
    trade_session-IsClear backtest holder (pos 20240125) (session_data expiry_day) waiting

run_backtest-all_sessions_example :
    (is_sorted (sessions source) ≡ true)
    × Returns
        (run_backtest backtest holder (data_source source) [])
        (λ r. r.sessions ≡ sessions source)
unfolding sessions
run_backtest-all_sessions_example =
    run_backtest-all_sessions backtest holder source (((omega arith, tt), (tt, tt)))
