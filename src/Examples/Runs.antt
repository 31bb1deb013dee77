-- ===== src/Examples/Runs.antt =====
-- Runs over the example's day.
use volforge.Market.Cursor.{events_of}
use volforge.Prelude.{
  ℕ, ◌≡◌, refl, ap, ◌↔◌, true, Option, none, some, [], ◌∷◌, arith, ◌==◌, if◌then◌else◌, length, All,
  ℤ, pos, ◌+ℤ◌, ◌-ℤ◌, ◌*ℤ◌, neg, leb_ℤ, div_ℤ, Result, ok, ◌>>=◌, Safe, Returns, is_ok, returned,
  if_both,
}
use volforge.Market.Merge.{Rising}
use volforge.Costs.{default_rates, indian_fno_cost_of}
use volforge.Engine.{enter, resume, run_session, run_steps, step, step_on, wake, wake_all}
use volforge.Instrument.{add, find_key, find_name, intern_underlying, key_of, spec}
use volforge.Market.{
  advance_to, index_at_or_before, mid, printed_by, quote_back, spread, upper_bound, view_of,
}
use volforge.Market.Cursor.{
  advance, distinct_times, events_of, first_runs, merge_of, merged, next, pop_min, run_rows,
  steps_of,
}
use volforge.Portfolio.{at, cross_spread_fill, get_leg, new_portfolio, set_leg}
use volforge.Portfolio.Pending.{execute, is_illiquid, process_orders, process_pending}
use volforge.Portfolio.Positions.{
  entry_notional, established, is_open, mark_for, pnl, pnl_leg, pnl_pct, pnl_pct_of,
}
use volforge.Portfolio.Rules.{
  attach_exit_at, attach_stop_loss, attach_take_profit, fire, gate, process_risk_rules,
  process_rule, process_rules,
}
use volforge.Portfolio.Submit.{
  cancel_openings, close_legs, is_empty, open_orders, submit_close, submit_close_leg, submit_open,
}
use volforge.Strategy.{apply, contracts_for, place, run_script, same_lots}
use volforge.Types.{notional}
use volforge.Lookahead.Replay.{after_times}
use volforge.Engine.Ledger.{Throws, run_session-Balanced}
use volforge.Portfolio.Accounting.{Balanced}
use volforge.Strategy.Ledger.{OnlyThrows}
use volforge.Double.{hundredths}
use volforge.Engine.{Running}
use volforge.Engine.Session.{run_session-Sound}
use volforge.Engine.Soundness.{Sourced}
use volforge.Portfolio.Fills.{sum_costs}
use volforge.Lookahead.{truncated, clip, kept_rows, clipped_quotes, find_count}
use volforge.Lookahead.Timeline.{IsIndexed}
use volforge.Lookahead.Exact.{Agrees, tested, check_lookahead-Agrees}
use volforge.Lookahead.SessionBars.{session_bars-truncated}
use volforge.Strategy.Context.{session_bars}
use volforge.Bars.{
  Bar, last_price, completed, build, known_count, stepped_back, closed_by, build_from, price_of,
  bucket_of, opens_at,
}
use volforge.Types.{Timestamp}
use volforge.Lookahead.Replay.{
  IsCausal, run_session-truncated, until_trades-truncated, until_trades,
}
use volforge.Lookahead.Detector.{check_lookahead, LookaheadReport}
use volforge.Lookahead.Clean.{check_lookahead-IsClean}
use volforge.Examples.{session, session-IsValid, config, seller, bar_seller, peeker, run_of_day}

pub session-IsIndexed : IsIndexed session
unfolding events_of steps_of
session-IsIndexed = (refl, refl)

pub session-Rising : Rising (pos 0) (steps_of session)
unfolding distinct_times events_of steps_of merge_of merged run_rows first_runs next pop_min advance
session-Rising = (omega arith, (omega arith, (omega arith, (omega arith, tt))))

bars-return : is_ok (run_of_day bar_seller) ≡ true
unfolding add advance advance_to apply at attach_exit_at attach_stop_loss attach_take_profit
    cancel_openings close_legs contracts_for cross_spread_fill default_rates distinct_times div_ℤ
    enter entry_notional established events_of execute find_key find_name fire first_runs gate
    get_leg index_at_or_before indian_fno_cost_of intern_underlying is_empty is_illiquid is_open
    key_of mark_for merge_of merged mid neg new_portfolio next notional open_orders place pnl
    pnl_leg pnl_pct pnl_pct_of pop_min printed_by process_orders process_pending process_risk_rules
    process_rule process_rules quote_back resume run_rows run_script run_session run_steps same_lots
    set_leg spec spread step step_on steps_of submit_close submit_close_leg submit_open upper_bound
    view_of wake wake_all ◌*ℤ◌ ◌+ℤ◌ ◌-ℤ◌ session_bars build completed known_count stepped_back
    closed_by build_from price_of bucket_of opens_at
bars-return = refl

peek-returns : is_ok (run_of_day peeker) ≡ true
unfolding add advance advance_to apply at attach_exit_at attach_stop_loss attach_take_profit
    cancel_openings close_legs contracts_for cross_spread_fill default_rates distinct_times div_ℤ
    enter entry_notional established events_of execute find_key find_name fire first_runs gate
    get_leg index_at_or_before indian_fno_cost_of intern_underlying is_empty is_illiquid is_open
    key_of mark_for merge_of merged mid neg new_portfolio next notional open_orders place pnl
    pnl_leg pnl_pct pnl_pct_of pop_min printed_by process_orders process_pending process_risk_rules
    process_rule process_rules quote_back resume run_rows run_script run_session run_steps same_lots
    set_leg spec spread step step_on steps_of submit_close submit_close_leg submit_open upper_bound
    view_of wake wake_all ◌*ℤ◌ ◌+ℤ◌ ◌-ℤ◌
peek-returns = refl

bar_seller-IsCausal : (cutoff : Timestamp) → IsCausal bar_seller session cutoff
unfolding view_of
bar_seller-IsCausal cutoff = record {
  start = refl;
  agrees = λ now h. record {
    done = λ x. refl;
    waits = λ x. refl;
    resume = λ x p. refl;
    holds = λ x p.
        ap
          (λ (r : Result (Option Bar)).
            if x == 1
            then ok true
            else r >>= λ bar. ok (elim bar [ none ↦ leb_ℤ (pos 30) now | some _ ↦ true ]))
          (session_bars-truncated session cutoff (pos 5) (pos 0) (pos 1) last_price now (pos 0)
            session-IsValid h);
  };
}

check_lookahead-IsClean_example :
    (report : LookaheadReport) × (check_lookahead config bar_seller session 3 (0 ∷ 2 ∷ [])
      ≡ ok report)
    × ((report.clean ≡ true) × (report.violations ≡ []))
check_lookahead-IsClean_example =
    check_lookahead-IsClean config bar_seller session session-IsValid session-IsIndexed
      session-Rising (returned (run_of_day bar_seller) bars-return).0
      (returned (run_of_day bar_seller) bars-return).1 (λ c _. bar_seller-IsCausal c) 3 (0 ∷ 2 ∷ [])

check_lookahead-Agrees_example :
    Returns (check_lookahead config peeker session 3 (0 ∷ 2 ∷ [])) (λ report.
      (report.clean ≡ true)
      ↔ All
          (Agrees config peeker session
            (returned (run_of_day peeker) peek-returns).0.portfolio.trades)
          (tested session 3
            (0 ∷ 2 ∷ [])
            (returned (run_of_day peeker) peek-returns).0.portfolio.trades))
check_lookahead-Agrees_example =
    check_lookahead-Agrees config peeker session (returned (run_of_day peeker) peek-returns).0 3
      (0 ∷ 2 ∷ []) (returned (run_of_day peeker) peek-returns).1

-- The program that peeks trades twice over the whole day and not at all over the day as truncated.
peeker_trades : (run_of_day peeker >>= λ r. ok (length r.portfolio.trades)) ≡ ok 2
unfolding add advance advance_to apply at attach_exit_at attach_stop_loss attach_take_profit
    cancel_openings close_legs contracts_for cross_spread_fill default_rates distinct_times div_ℤ
    enter entry_notional established events_of execute find_key find_name fire first_runs gate
    get_leg index_at_or_before indian_fno_cost_of intern_underlying is_empty is_illiquid is_open
    key_of mark_for merge_of merged mid neg new_portfolio next notional open_orders place pnl
    pnl_leg pnl_pct pnl_pct_of pop_min printed_by process_orders process_pending process_risk_rules
    process_rule process_rules quote_back resume run_rows run_script run_session run_steps same_lots
    set_leg spec spread step step_on steps_of submit_close submit_close_leg submit_open upper_bound
    view_of wake wake_all ◌*ℤ◌ ◌+ℤ◌ ◌-ℤ◌
peeker_trades = refl

peeker_silent :
    (run_session config (peeker (truncated session (pos 20))) (truncated session (pos 20)) >>= λ r.
    ok (length r.portfolio.trades))
    ≡ ok 0
unfolding add advance advance_to apply at attach_exit_at attach_stop_loss attach_take_profit
    cancel_openings close_legs contracts_for cross_spread_fill default_rates distinct_times div_ℤ
    enter entry_notional established events_of execute find_key find_name fire first_runs gate
    get_leg index_at_or_before indian_fno_cost_of intern_underlying is_empty is_illiquid is_open
    key_of mark_for merge_of merged mid neg new_portfolio next notional open_orders place pnl
    pnl_leg pnl_pct pnl_pct_of pop_min printed_by process_orders process_pending process_risk_rules
    process_rule process_rules quote_back resume run_rows run_script run_session run_steps same_lots
    set_leg spec spread step step_on steps_of submit_close submit_close_leg submit_open upper_bound
    view_of wake wake_all ◌*ℤ◌ ◌+ℤ◌ ◌-ℤ◌ truncated clip kept_rows clipped_quotes find_count
peeker_silent = refl

session_bars-truncated_example :
    (session_bars (truncated session (pos 25)) (pos 5) (pos 0) (pos 1) last_price >>= λ b.
    completed b (pos 22) (pos 0))
    ≡ (session_bars session (pos 5) (pos 0) (pos 1) last_price >>= λ b.
        completed b (pos 22) (pos 0))
session_bars-truncated_example =
    session_bars-truncated session (pos 25) (pos 5) (pos 0) (pos 1) last_price (pos 22) (pos 0)
      session-IsValid (omega arith)

run_session-truncated_example : run_session config (bar_seller session) session ≡ (
    run_session config (bar_seller (truncated session (pos 20))) (truncated session (pos 20))
    >>= λ r.
        run_steps config (bar_seller session) session r (after_times (pos 20) (steps_of session)))
run_session-truncated_example =
    run_session-truncated config bar_seller session (pos 20) session-IsValid session-IsIndexed
      session-Rising (omega arith) (bar_seller-IsCausal (pos 20))

until_trades-truncated_example :
    (r' : Running ℤ ℕ) × (run_session config
        (bar_seller (truncated session (pos 20)))
        (truncated session (pos 20))
      ≡ ok r')
    × (until_trades (pos 20) (returned (run_of_day bar_seller) bars-return).0.portfolio.trades
        ≡ r'.portfolio.trades)
until_trades-truncated_example =
    until_trades-truncated config bar_seller session (pos 20) session-IsValid session-IsIndexed
      session-Rising (omega arith) (bar_seller-IsCausal (pos 20))
      (returned (run_of_day bar_seller) bars-return).0
      (returned (run_of_day bar_seller) bars-return).1

run_session-Sound_example : Returns (run_session config seller session) (λ r.
    All (Sourced session config.fills (pos 5)) r.portfolio.trades
    × (r.portfolio.total_costs ≡ sum_costs r.portfolio.trades))
run_session-Sound_example = run_session-Sound config seller session session-Rising

seller-Throws : Throws seller
seller-Throws = record {
  conditions = λ x m p. tt;
  bodies =
      λ x m p. if_both OnlyThrows (x == 0) tt (if_both OnlyThrows (x == 1) (λ p. tt) (λ p. tt));
}

run_session-Balanced_example : Safe (run_session config seller session) (λ r. Balanced r.portfolio)
run_session-Balanced_example = run_session-Balanced config seller seller-Throws session
