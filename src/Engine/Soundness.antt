-- ===== src/Engine/Soundness.antt =====
-- What holds of a run at every step: the trades are supported by what the market showed, and their
-- costs are paid.

use volforge.Prelude.{
  ℕ, zero, suc, ◌+◌, ◌≡◌, refl, sym, ap, ◌∙◌, subst, Bool, true, false, not, some, List, ◌++◌,
  arith, if◌then◌else◌, All, All-append, All-map, ℤ, ◌+ℤ◌, ◌≤ℤ◌, ◌<ℤ◌, ltb_ℤ, int_laws, parts_of_eq,
  Result, ok, ◌>>=◌, Returns, Returns-bind, Returns-then, Returns-map,
}
use volforge.Types.{Timestamp}
use volforge.Market.{SessionData, MarketView, advance_to, view_of, Quote, quote}
use volforge.Double.{Double}
use volforge.Portfolio.{Portfolio, FillModel, PendingOrder, TradeRecord}
use volforge.Portfolio.Pending.{process_pending}
use volforge.Portfolio.Fills.{
  Waiting, Supported, Filled, sum_costs, sum_costs-append, process_pending-Filled,
}
use volforge.Portfolio.Frame.{Kept, IsFresh, Kept-IsFresh, Kept-refl, Kept-trans}
use volforge.Portfolio.Rules.{process_risk_rules}
use volforge.Portfolio.RuleFrame.{process_risk_rules-Kept}
use volforge.Strategy.{Strategy, run_script}
use volforge.Strategy.Frame.{run_script-Kept}
use volforge.Engine.{
  RunConfig, Running, step, step_on, resume, evaluated, wake, wake_all, sample_margin,
  margin_interval, greater, awaiting,
}

-- `r'` goes on from `r` and has traded nothing: only orders and rules may differ.
abbrev pub Goes :
    {F S : Type 0} → Timestamp → (PendingOrder → Type 0) → Running F S → Running F S → Type 0
Goes now Q r r' = Kept now Q r.portfolio r'.portfolio × (r'.clock ≡ r.clock)

-- A trade that a session accounts for: it was signalled before it filled, no less than the delay
-- before, and its price is what the fill model makes of the quote of its instrument that a view of
-- the session shows at the time of the fill.
pub record Sourced {F : Type 0} (s : SessionData) (fills : FillModel F) (delay : ℤ)
    (t : TradeRecord) : Type 0 where
  pub later : t.signal_ts <ℤ t.fill_ts
  pub delayed : t.signal_ts +ℤ delay ≤ℤ t.fill_ts
  pub market : Quote
  pub printed : quote (view_of s t.fill_ts) t.instrument ≡ some market
  pub priced : fills.fill market t.side t.qty ≡ some t.price

pub record Sound {F S : Type 0} (config : RunConfig F) (s : SessionData) (r : Running F S)
    : Type 0 where
  pub delay : r.portfolio.delay ≡ config.execution_delay_nanos
  pub fills : r.portfolio.fills ≡ config.fills
  pub waiting : All (Waiting r.clock config.execution_delay_nanos) r.portfolio.pending
  pub sourced : All (Sourced s config.fills config.execution_delay_nanos) r.portfolio.trades
  pub total_costs : r.portfolio.total_costs ≡ sum_costs r.portfolio.trades

-- A run that has gone on to `t`, where the trades that it added have filled.
pub record Stepped {F S : Type 0} (t : Timestamp) (r r' : Running F S) : Type 0 where
  pub clock : r'.clock ≡ t
  pub fresh : List TradeRecord
  pub trades : r'.portfolio.trades ≡ r.portfolio.trades ++ fresh
  pub filled : All (λ x. x.fill_ts ≡ t) fresh

Supported-Sourced :
    {F : Type 0} (s : SessionData) (fills : FillModel F) (delay : ℤ) (now seen : Timestamp)
    (t : TradeRecord)
    → seen <ℤ now
    → Supported (view_of s now) fills delay seen t
    → Sourced s fills delay t
unfolding view_of
Supported-Sourced s fills delay now seen t h k = record {
  later = let e = parts_of_eq k.at_now in let x = k.signalled in omega arith;
  delayed = k.delayed;
  market = k.market;
  printed = subst (λ u. quote (view_of s u) t.instrument ≡ some k.market) (sym k.at_now) k.printed;
  priced = k.priced;
}

module _ {F S : Type 0} ⦃d : Double F⦄ (config : RunConfig F) (strategy : Strategy F S) where
  module _ (m : MarketView) (Q : PendingOrder → Type 0) where
    pub resume-Goes :
        (r : Running F S)
        → IsFresh m.now Q r.portfolio
        → Returns (resume config strategy m r) (Goes m.now Q r)
    unfolding resume
    resume-Goes r fresh =
        let x = strategy.resume r.task m r.portfolio in
        Returns-bind _ _ (run_script m r.portfolio x) _ (run_script-Kept m Q r.portfolio x fresh)
          λ s k. (k, refl)

    evaluated-Goes :
        (again : Running F S → Result (Running F S)) (r : Running F S) (now : Bool)
        → ((r : Running F S) → IsFresh m.now Q r.portfolio → Returns (again r) (Goes m.now Q r))
        → IsFresh m.now Q r.portfolio
        → Returns (evaluated config strategy again m r now) (Goes m.now Q r)
    evaluated-Goes again r false ih fresh = (Kept-refl m.now Q r.portfolio, refl)
    evaluated-Goes again r true ih fresh =
        let r0 : Running F S = record r { condition_evals = r.condition_evals + 1 } in
        Returns-bind _ _ (resume config strategy m r0) _ (resume-Goes r0 fresh) λ r' (k, e).
          let r1 : Running F S = record r' { resumes = r'.resumes + 1 } in
          Returns-map _ _ (again r1)
            (λ r'' (k', e').
              (Kept-trans m.now Q r.portfolio r'.portfolio r''.portfolio k k', e' ∙ e))
            (ih r1 (Kept-IsFresh m.now Q r.portfolio r'.portfolio k fresh))

    wake-Goes :
        (again : Running F S → Result (Running F S)) (r : Running F S)
        → ((r : Running F S) → IsFresh m.now Q r.portfolio → Returns (again r) (Goes m.now Q r))
        → IsFresh m.now Q r.portfolio
        → Returns (wake config strategy again m r) (Goes m.now Q r)
    unfolding wake
    wake-Goes again r ih fresh =
        elim (not (awaiting config strategy r.task))
          as (λ b.
            Returns
              (if b
                then ok r
                else (strategy.holds r.task m r.portfolio >>= evaluated config strategy again m r))
              (Goes m.now Q r)) [
                | true ↦ (Kept-refl m.now Q r.portfolio, refl)
                | false ↦
                    Returns-then _ (strategy.holds r.task m r.portfolio) _
                      λ now. evaluated-Goes again r now ih fresh
              ]

    -- Within one timestamp the strategy may be resumed any number of times.
    pub wake_all-Goes :
        (n : ℕ) (r : Running F S)
        → IsFresh m.now Q r.portfolio
        → Returns (wake_all config strategy n m r) (Goes m.now Q r)
    unfolding wake_all
    wake_all-Goes zero r fresh = wake-Goes _ r (λ _ _. tt) fresh
    wake_all-Goes (suc n) r fresh = wake-Goes _ r (wake_all-Goes n) fresh

  Waiting-later :
      (a b : Timestamp) (delay : ℤ) (os : List PendingOrder)
      → a ≤ℤ b
      → All (Waiting a delay) os
      → All (Waiting b delay) os
  Waiting-later a b delay os h = All-map _ _ (λ o (x, e). (omega arith, e)) os

  pub Fresh-Waiting :
      (p : Portfolio F) (now : Timestamp)
      → p.delay ≡ config.execution_delay_nanos
      → IsFresh now (Waiting now config.execution_delay_nanos) p
  Fresh-Waiting p now e = λ o (at_now, due). (
    omega (arith, parts_of_eq at_now),
    due ∙ (ap (λ x. now +ℤ x) e ∙ ap (λ x. x +ℤ config.execution_delay_nanos) (sym at_now)),
  )

  pub sample_margin_lem :
      (m : MarketView) (r : Running F S)
      → ((sample_margin config strategy m r).portfolio ≡ r.portfolio)
        × ((sample_margin config strategy m r).clock ≡ r.clock)
  sample_margin_lem m r =
      let r' : Running F S = record r {
        peak_margin = greater r.peak_margin (config.margin m r.portfolio);
        next_margin = m.now +ℤ margin_interval config strategy;
      } in
      elim (ltb_ℤ m.now r.next_margin)
        as (λ b.
          ((if b then r else r').portfolio ≡ r.portfolio)
          × ((if b then r else r').clock ≡ r.clock)) [ true ↦ (refl, refl) | false ↦ (refl, refl) ]

  -- The end of a step, where the fills made `p` and what came after made `r'`.
  Filled-Sound :
      (s : SessionData) (r : Running F S) (t : Timestamp) (p : Portfolio F) (r' : Running F S)
      → Sound config s r
      → r.clock <ℤ t
      → Filled (view_of s t) r.clock r.portfolio p
      → All (Waiting r.clock r.portfolio.delay) p.pending
      → Kept t (Waiting t config.execution_delay_nanos) p r'.portfolio
      → r'.clock ≡ t
      → Sound config s r' × Stepped t r r'
  unfolding view_of
  Filled-Sound s r t p r' g h f w k e =
      let delay = config.execution_delay_nanos in
      let trades = k.trades ∙ f.trades in
      let fresh =
        subst (λ x. All (Supported (view_of s t) x delay r.clock) f.fresh) g.fills
          (subst (λ x. All (Supported (view_of s t) r.portfolio.fills x r.clock) f.fresh) g.delay
            f.supported) in
      let now_waiting = k.pending (
        Waiting-later r.clock t delay p.pending (omega arith)
          (subst (λ x. All (Waiting r.clock x) p.pending) g.delay w)) in
      (
        record {
          delay = k.delay ∙ (f.delay ∙ g.delay);
          fills = k.fills ∙ (f.fills ∙ g.fills);
          waiting = subst (λ x. All (Waiting x delay) r'.portfolio.pending) (sym e) now_waiting;
          sourced = subst (All (Sourced s config.fills delay)) (sym trades) (
              All-append _ r.portfolio.trades f.fresh g.sourced (
                All-map _ _ (λ x. Supported-Sourced s config.fills delay t r.clock x h) f.fresh
                  fresh));
          total_costs = omega (
            int_laws,
            parts_of_eq k.total_costs,
            parts_of_eq f.total_costs,
            parts_of_eq g.total_costs,
            parts_of_eq (ap sum_costs trades),
            parts_of_eq (sum_costs-append r.portfolio.trades f.fresh),
          );
        },
        record {
          clock = e;
          fresh = f.fresh;
          trades = trades;
          filled = All-map _ _ (λ x (y : Supported _ _ _ _ x). y.at_now) f.fresh fresh;
        },
      )

  step_on-Sound :
      (s : SessionData) (r : Running F S) (t : Timestamp)
      → Sound config s r
      → r.clock <ℤ t
      → Returns
          (step_on config strategy (view_of s t) (record r { clock = t }))
          (λ r'. Sound config s r' × Stepped t r r')
  unfolding step_on view_of
  step_on-Sound s r t g h =
      let m = view_of s t in
      let delay = config.execution_delay_nanos in
      let Q = Waiting t delay in
      Returns-bind _ _ (process_pending m r.portfolio) _
        (process_pending-Filled m r.clock r.portfolio
          (subst (λ x. All (Waiting r.clock x) r.portfolio.pending) (sym g.delay) g.waiting))
        λ p (f, w, _).
          let delayed : p.delay ≡ delay = f.delay ∙ g.delay in
          Returns-bind _ _ (process_risk_rules m p) _
            (process_risk_rules-Kept Q m p (Fresh-Waiting p t delayed))
            λ p' k.
              let r1 : Running F S = record r { clock = t; portfolio = p'; steps = r.steps + 1 } in
              let r2 = sample_margin config strategy m r1 in
              let (same, at_t) = sample_margin_lem m r1 in
              Returns-map _ _ (wake_all config strategy config.max_resumes_per_step m r2)
                (λ r' (k', e).
                  Filled-Sound s r t p r' g h f w
                    (Kept-trans t Q p p' r'.portfolio k
                      (subst (λ x. Kept t Q x r'.portfolio) same k'))
                    (e ∙ at_t))
                (wake_all-Goes m Q config.max_resumes_per_step r2 (
                  subst (IsFresh t Q) (sym same)
                    (Kept-IsFresh t Q p p' k (Fresh-Waiting p t delayed))))

  -- A step to a later time.
  pub step-Sound :
      (s : SessionData) (r : Running F S) (t : Timestamp)
      → Sound config s r
      → r.clock <ℤ t
      → Returns (step config strategy s r t) (λ r'. Sound config s r' × Stepped t r r')
  unfolding step advance_to
  step-Sound s r t g h =
      let e : ltb_ℤ t r.clock ≡ false = ground arith in rw e (step_on-Sound s r t g h)
