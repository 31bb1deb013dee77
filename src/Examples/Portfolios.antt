-- ===== src/Examples/Portfolios.antt =====
-- Portfolios that hold and order the example's option.
use volforge.Prelude.{
  ℕ, ◌≡◌, refl, false, none, [], ◌∷◌, arith, filter_by, All, ℤ, pos, ◌+ℤ◌, ◌≤ℤ◌, parts_of_eq, Safe,
  Returns,
}
use volforge.Market.{MarketView, view_of}
use volforge.Costs.{sell}
use volforge.Double.{hundredths}
use volforge.Portfolio.{Portfolio, new_portfolio}
use volforge.Portfolio.Submit.{submit_open, submit_close, submit_close_leg, is_empty, open_orders}
use volforge.Portfolio.Expiry.{settle_expiry}
use volforge.Portfolio.Settlement.{settle_expiry-Balanced}
use volforge.Portfolio.Pending.{process_pending}
use volforge.Portfolio.Rules.{process_risk_rules}
use volforge.Portfolio.Accounting.{Balanced, process_pending-Balanced}
use volforge.Portfolio.Fills.{Waiting, Filled, stays, process_pending-Filled}
use volforge.Portfolio.Closing.{submit_close-Balanced}
use volforge.Portfolio.Opening.{submit_open-Balanced, new_portfolio-Balanced}
use volforge.Portfolio.Operations.{process_risk_rules-Balanced}
use volforge.Portfolio.Frame.{Kept}
use volforge.Portfolio.Submit.{opened}
use volforge.Portfolio.Rules.{new_rule}
use volforge.Portfolio.{stop_loss_pct}
use volforge.Strategy.{Script, run_script, acts, close_position, order, suspends}
use volforge.Strategy.Ledger.{run_script-Balanced}
use volforge.Strategy.Frame.{run_script-Kept}
use volforge.Examples.{session, config}

abbrev pub at_20 : MarketView
at_20 = view_of session (pos 20)

abbrev pub nothing_held : Portfolio ℤ
nothing_held = record {
  fills = config.fills;
  delay = pos 5;
  positions = [];
  pending = [];
  rules = [];
  trades = [];
  realized = pos 0;
  costs = config.costs;
  total_costs = pos 0;
  illiquid_fills = 0;
  oversized_fills = 0;
  cancelled_orders = 0;
  settled_legs = 0;
  rules_fired = 0;
  closing_from_rule = false;
}

nothing_held-Balanced : Balanced nothing_held
unfolding new_portfolio
nothing_held-Balanced = new_portfolio-Balanced config.fills (pos 5) config.costs

-- A lot sold at 10, and waiting to fill, under a stop loss.
abbrev pub ordered : Portfolio ℤ
ordered = record (opened nothing_held "call" (pos 0 ∷ []) sell (pos 50) (pos 10)) {
  rules = new_rule stop_loss_pct 0 none (pos 50) (pos 0) ∷ [];
}

ordered-Balanced : Balanced ordered
unfolding submit_open is_empty
ordered-Balanced =
    (submit_open-Balanced nothing_held "call" (pos 0 ∷ []) sell (pos 50) (pos 10)
      nothing_held-Balanced).0

process_pending-Balanced_example : Safe (process_pending at_20 ordered) Balanced
process_pending-Balanced_example = process_pending-Balanced at_20 ordered ordered-Balanced

ordered-Waiting : All (Waiting (pos 10) (pos 5)) ordered.pending
unfolding open_orders ◌+ℤ◌
ordered-Waiting = ((omega arith, refl), tt)

process_pending-Filled_example : Returns (process_pending at_20 ordered) (λ p'.
    Filled at_20 (pos 10) ordered p'
    × All (Waiting (pos 10) (pos 5)) p'.pending
    × (p'.pending ≡ filter_by (stays at_20 ordered.fills) ordered.pending))
process_pending-Filled_example = process_pending-Filled at_20 (pos 10) ordered ordered-Waiting

submit_close-Balanced_example :
    Safe (submit_close_leg ordered 0 0 (pos 20)) Balanced
    × Safe (submit_close ordered 0 (pos 20)) Balanced
submit_close-Balanced_example = submit_close-Balanced ordered 0 0 (pos 20) ordered-Balanced

process_risk_rules-Balanced_example : Safe (process_risk_rules at_20 ordered) Balanced
process_risk_rules-Balanced_example = process_risk_rules-Balanced at_20 ordered ordered-Balanced

-- Closes the position and sells another lot.
abbrev roll : Script ℤ ℕ
roll =
    acts (close_position 0) (λ p. acts (order sell (pos 0 ∷ []) (pos 1) "next") (λ p'. suspends 7))

run_script-Balanced_example : Safe (run_script at_20 ordered roll) (λ r. Balanced r.0)
run_script-Balanced_example = run_script-Balanced at_20 ordered roll (λ p p'. tt) ordered-Balanced

run_script-Kept_example :
    Returns
      (run_script at_20 ordered roll)
      (λ r. Kept (pos 20) (λ o. o.submitted_at ≤ℤ pos 20) ordered r.0)
unfolding view_of
run_script-Kept_example =
    run_script-Kept at_20 (λ o. o.submitted_at ≤ℤ pos 20) ordered roll
      λ o (e, _). omega (arith, parts_of_eq e)

settle_expiry-Balanced_example :
    Safe (settle_expiry at_20 ordered (pos 20240125) (pos 2200000) (pos 30)) (λ s. Balanced s.0)
settle_expiry-Balanced_example =
    settle_expiry-Balanced at_20 ordered (pos 20240125) (pos 2200000) (pos 30) ordered-Balanced
