-- ===== src/Engine/Ledger.antt =====
-- A run keeps the ledger from its start to its end.
use volforge.Prelude.{
  ℕ, zero, suc, ◌+◌, refl, sym, subst, Bool, true, false, not, List, [], ◌∷◌, if◌then◌else◌, pos,
  ltb_ℤ, Error, Result, ok, ◌>>=◌, throw_if, Safe, Safe-bind, throw_if-Safe,
}
use volforge.Types.{Timestamp}
use volforge.Market.{SessionData, MarketView, advance_to, view_of}
use volforge.Market.Cursor.{steps_of}
use volforge.Double.{Double}
use volforge.Portfolio.{Portfolio, new_portfolio}
use volforge.Portfolio.Pending.{process_pending}
use volforge.Portfolio.Accounting.{Balanced, process_pending-Balanced}
use volforge.Portfolio.Operations.{process_risk_rules-Balanced}
use volforge.Portfolio.Opening.{new_portfolio-Balanced}
use volforge.Portfolio.Rules.{process_risk_rules}
use volforge.Strategy.{Strategy, run_script}
use volforge.Strategy.Ledger.{OnlyThrows, run_script-Balanced}
use volforge.Engine.{
  RunConfig, Running, awaiting, evaluated, wake, wake_all, resume, sample_margin, step_on, step,
  run_steps, started, enter, run_session,
}
use volforge.Engine.Soundness.{sample_margin_lem}

-- A coroutine that throws only exceptions, from its conditions and from its body.
pub record Throws {F S : Type 0} (strategy : Strategy F S) : Type 0 where
  pub conditions :
      (x : S) (m : MarketView) (p : Portfolio F) → Safe (strategy.holds x m p) (λ _. Unit {0})
  pub bodies : (x : S) (m : MarketView) (p : Portfolio F) → OnlyThrows (strategy.resume x m p)

module _ {F S : Type 0} ⦃d : Double F⦄ (config : RunConfig F) (strategy : Strategy F S)
    (throwing : Throws strategy) where
  pub resume-Balanced :
      (m : MarketView) (r : Running F S)
      → Balanced r.portfolio
      → Safe (resume config strategy m r) (λ r'. Balanced r'.portfolio)
  unfolding resume
  resume-Balanced m r g =
      let x = strategy.resume r.task m r.portfolio in
      Safe-bind _ _ (run_script m r.portfolio x) _
        (run_script-Balanced m r.portfolio x (throwing.bodies r.task m r.portfolio) g) λ s h. h

  evaluated-Balanced :
      (m : MarketView) (again : Running F S → Result (Running F S)) (r : Running F S) (now : Bool)
      → ((r : Running F S) → Balanced r.portfolio → Safe (again r) (λ r'. Balanced r'.portfolio))
      → Balanced r.portfolio
      → Safe (evaluated config strategy again m r now) (λ r'. Balanced r'.portfolio)
  evaluated-Balanced m again r false ih g = g
  evaluated-Balanced m again r true ih g =
      let r0 : Running F S = record r { condition_evals = r.condition_evals + 1 } in
      Safe-bind _ _ (resume config strategy m r0) _ (resume-Balanced m r0 g)
        λ r' h. ih (record r' { resumes = r'.resumes + 1 }) h

  wake-Balanced :
      (m : MarketView) (again : Running F S → Result (Running F S)) (r : Running F S)
      → ((r : Running F S) → Balanced r.portfolio → Safe (again r) (λ r'. Balanced r'.portfolio))
      → Balanced r.portfolio
      → Safe (wake config strategy again m r) (λ r'. Balanced r'.portfolio)
  unfolding wake
  wake-Balanced m again r ih g =
      elim (not (awaiting config strategy r.task))
        as (λ b.
          Safe
            (if b
              then ok r
              else (strategy.holds r.task m r.portfolio >>= evaluated config strategy again m r))
            (λ r'. Balanced r'.portfolio)) [
              | true ↦ g
              | false ↦
                  Safe-bind _ _ (strategy.holds r.task m r.portfolio) _
                    (throwing.conditions r.task m r.portfolio)
                    λ now _. evaluated-Balanced m again r now ih g
            ]

  pub wake_all-Balanced :
      (m : MarketView) (n : ℕ) (r : Running F S)
      → Balanced r.portfolio
      → Safe (wake_all config strategy n m r) (λ r'. Balanced r'.portfolio)
  unfolding wake_all
  wake_all-Balanced m zero r g = wake-Balanced m _ r (λ _ _. refl) g
  wake_all-Balanced m (suc n) r g = wake-Balanced m _ r (wake_all-Balanced m n) g

  step_on-Balanced :
      (m : MarketView) (r : Running F S)
      → Balanced r.portfolio
      → Safe (step_on config strategy m r) (λ r'. Balanced r'.portfolio)
  unfolding step_on
  step_on-Balanced m r g =
      Safe-bind _ _ (process_pending m r.portfolio) _ (process_pending-Balanced m r.portfolio g)
        λ p h. Safe-bind _ _ (process_risk_rules m p) _ (process_risk_rules-Balanced m p h) λ p' h'.
          let r1 : Running F S = record r { portfolio = p'; steps = r.steps + 1 } in
          wake_all-Balanced m config.max_resumes_per_step (sample_margin config strategy m r1)
            (subst Balanced (sym (sample_margin_lem config strategy m r1).0) h')

  run_steps-Balanced :
      (s : SessionData) (r : Running F S) (ts : List Timestamp)
      → Balanced r.portfolio
      → Safe (run_steps config strategy s r ts) (λ r'. Balanced r'.portfolio)
  unfolding run_steps step advance_to
  run_steps-Balanced s r [] g = g
  run_steps-Balanced s r (t ∷ ts) g =
      Safe-bind _ _ (step config strategy s r t) _
        (Safe-bind (λ _. Unit {0}) _ (advance_to r.clock t) _
          (Safe-bind _ _ (throw_if (ltb_ℤ t r.clock) Error.logic_error) _ (throw_if-Safe _ _ refl)
            λ _ _. tt)
          λ now _. step_on-Balanced (view_of s now) (record r { clock = now }) g)
        λ r' h. run_steps-Balanced s r' ts h

  -- Whatever the strategy does and whatever the market shows, a run never touches a leg that is not
  -- there, and if it returns, its realised profit is what its closed legs earned, and each order that
  -- still rests has a leg of its own that waits for it. The strategy throws only exceptions.
  pub run_session-Balanced :
      (s : SessionData) → Safe (run_session config strategy s) (λ r. Balanced r.portfolio)
  unfolding run_session enter
  run_session-Balanced s =
      Safe-bind _ _ (enter config strategy s) _
        (Safe-bind _ _ (new_portfolio config.fills config.execution_delay_nanos config.costs) _
          (new_portfolio-Balanced config.fills config.execution_delay_nanos config.costs)
          λ p g. resume-Balanced (view_of s (pos 0)) (started config strategy p) g)
        λ r g. run_steps-Balanced s r (steps_of s) g
