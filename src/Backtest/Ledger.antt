-- ===== src/Backtest/Ledger.antt =====
-- A backtest keeps the ledger over all of its sessions.
use volforge.Backtest.{new_portfolio}
use volforge.Prelude.{
  ◌+◌, ◌≡◌, refl, sym, subst, true, false, not, Option, none, some, List, [], ◌∷◌, if◌then◌else◌,
  pos, ltb_ℤ, max_ℤ, Error, ok, ◌>>=◌, throw_if, or_throw, Safe, Safe-bind, throw_if-Safe, is_fault,
}
use volforge.Types.{Date, Timestamp}
use volforge.Instrument.{InstrumentRegistry, spec}
use volforge.Market.{SessionData, MarketView, view_of, advance_to}
use volforge.Market.Cursor.{steps_of}
use volforge.Double.{Double}
use volforge.Portfolio.{Portfolio, Position, Leg, live}
use volforge.Portfolio.Pending.{process_pending}
use volforge.Portfolio.Marks.{refresh_marks}
use volforge.Portfolio.Expiry.{settle_expiry}
use volforge.Portfolio.Submit.{cancel_working_orders}
use volforge.Portfolio.Rules.{process_risk_rules}
use volforge.Portfolio.Accounting.{Balanced, process_pending-Balanced, spec-Safe}
use volforge.Portfolio.Operations.{
  process_risk_rules-Balanced, refresh_marks-Balanced, cancel_working_orders-Balanced,
}
use volforge.Portfolio.Settlement.{settle_expiry-Balanced}
use volforge.Portfolio.Opening.{new_portfolio-Balanced}
use volforge.Strategy.{Strategy}
use volforge.Engine.{Running, resume, started, sample_margin}
use volforge.Engine.Ledger.{Throws, resume-Balanced, wake_all-Balanced}
use volforge.Engine.Soundness.{sample_margin_lem}
use volforge.Backtest.{
  DataSource, BacktestConfig, Carried, insert_due, comes_due, due_leg, due_legs, due_from,
  due_expiries, forbids, settlement_level, settle_due, settle_at, close_session, day_step_on,
  day_step, day_steps, new_day, trade_session, trade_date, trade_dates, carried, trade_from, traded,
}

due_leg-Safe :
    (r : InstrumentRegistry) (today : Date) (l : Leg) (due : List Date)
    → Safe (due_leg r today l due) (λ _. Unit {0})
unfolding due_leg
due_leg-Safe r today l due =
    elim (not (live l))
      as (λ b.
        Safe
          (if b
            then ok due
            else (spec r l.instrument >>= λ s.
                ok (if comes_due today s then insert_due s.expiry due else due)))
          (λ _. Unit {0})) [
            | true ↦ tt
            | false ↦ Safe-bind _ _ (spec r l.instrument) _ (spec-Safe r l.instrument) λ s _. tt
          ]

due_legs-Safe :
    (r : InstrumentRegistry) (today : Date) (ls : List Leg) (due : List Date)
    → Safe (due_legs r today ls due) (λ _. Unit {0})
unfolding due_legs
due_legs-Safe r today [] due = tt
due_legs-Safe r today (l ∷ ls) due =
    Safe-bind _ _ (due_leg r today l due) _ (due_leg-Safe r today l due)
      λ due' _. due_legs-Safe r today ls due'

due_from-Safe :
    (r : InstrumentRegistry) (today : Date) (ps : List Position) (due : List Date)
    → Safe (due_from r today ps due) (λ _. Unit {0})
unfolding due_from
due_from-Safe r today [] due = tt
due_from-Safe r today (p ∷ ps) due =
    Safe-bind _ _ (due_legs r today p.legs due) _ (due_legs-Safe r today p.legs due)
      λ due' _. due_from-Safe r today ps due'

or_throw-Safe :
    {A : Type 0} (o : Option A) (e : Error)
    → is_fault e ≡ false
    → Safe (or_throw o e) (λ _. Unit {0})
or_throw-Safe none e h = h
or_throw-Safe (some a) e h = tt

module _ {F : Type 0} ⦃d : Double F⦄ (config : BacktestConfig F) where
  settle_due-Balanced :
      (m : MarketView) (now : Timestamp) (es : List Date) (p : Portfolio F)
      → Balanced p
      → Safe (settle_due config m now es p) (λ s. Balanced s.0)
  unfolding settle_due
  settle_due-Balanced m now [] p g = g
  settle_due-Balanced m now (e ∷ es) p g =
      Safe-bind _ _ (throw_if (forbids config.expiry) Error.runtime_error) _
        (throw_if-Safe _ _ refl)
        λ _ _.
          Safe-bind _ _ (or_throw (settlement_level config m e) Error.runtime_error) _
            (or_throw-Safe _ _ refl)
            λ level _.
              Safe-bind _ _ (settle_expiry m p e level now) _
                (settle_expiry-Balanced m p e level now g)
                λ s h.
                  Safe-bind _ _ (settle_due config m now es s.0) _
                    (settle_due-Balanced m now es s.0 h) λ t k. k

  close_session-Balanced :
      (m : MarketView) (date : Date) (p : Portfolio F)
      → Balanced p
      → Safe (close_session config m date p) (λ s. Balanced s.0)
  unfolding close_session due_expiries
  close_session-Balanced m date p g =
      Safe-bind _ _ (due_expiries m.registry date p.positions) _
        (due_from-Safe m.registry date p.positions [])
        λ due _.
          Safe-bind _ _ (settle_due config m m.now due p) _ (settle_due-Balanced m m.now due p g)
            λ s h.
              Safe-bind _ _ (cancel_working_orders s.0) _ (cancel_working_orders-Balanced s.0 h)
                λ t k. k.0

  module _ {S : Type 0} (strategy : Date → Strategy F S)
      (throwing : (date : Date) → Throws (strategy date)) where
    day_step_on-Balanced :
        (date : Date) (m : MarketView) (r : Running F S)
        → Balanced r.portfolio
        → Safe (day_step_on config strategy date m r) (λ r'. Balanced r'.portfolio)
    unfolding day_step_on
    day_step_on-Balanced date m r g =
        Safe-bind _ _ (process_pending m r.portfolio) _ (process_pending-Balanced m r.portfolio g)
          λ p h.
            Safe-bind _ _ (process_risk_rules m (refresh_marks m p)) _
              (process_risk_rules-Balanced m (refresh_marks m p) (refresh_marks-Balanced m p h))
              λ p' h'.
                let r1 : Running F S = record r { portfolio = p'; steps = r.steps + 1 } in
                wake_all-Balanced config.run (strategy date) (throwing date) m
                  config.run.max_resumes_per_step (sample_margin config.run (strategy date) m r1)
                  (subst Balanced (sym (sample_margin_lem config.run (strategy date) m r1).0) h')

    day_steps-Balanced :
        (date : Date) (s : SessionData) (r : Running F S) (ts : List Timestamp)
        → Balanced r.portfolio
        → Safe (day_steps config strategy date s r ts) (λ r'. Balanced r'.portfolio)
    unfolding day_steps day_step advance_to
    day_steps-Balanced date s r [] g = g
    day_steps-Balanced date s r (t ∷ ts) g =
        Safe-bind _ _ (day_step config strategy date s r t) _
          (Safe-bind (λ _. Unit {0}) _ (advance_to r.clock t) _
            (Safe-bind _ _ (throw_if (ltb_ℤ t r.clock) Error.logic_error) _ (throw_if-Safe _ _ refl)
              λ _ _. tt)
            λ now _. day_step_on-Balanced date (view_of s now) (record r { clock = now }) g)
          λ r' h. day_steps-Balanced date s r' ts h

    abbrev Kept : Carried F S → Type 0
    Kept c = Balanced c.running.portfolio

    trade_session-Balanced :
        (date : Date) (s : SessionData) (c : Carried F S)
        → Kept c
        → Safe (trade_session config strategy date s c) Kept
    unfolding trade_session
    trade_session-Balanced date s c g =
        Safe-bind _ _
          (day_steps config strategy date s (new_day config strategy c.running) (steps_of s)) _
          (day_steps-Balanced date s (new_day config strategy c.running) (steps_of s) g)
          λ r h.
            Safe-bind _ _
              (close_session config (view_of s (max_ℤ r.clock (settle_at config date))) date
                r.portfolio)
              _
              (close_session-Balanced (view_of s (max_ℤ r.clock (settle_at config date))) date
                r.portfolio h)
              λ t k. k

    trade_date-Balanced :
        (source : DataSource) (date : Date) (c : Carried F S)
        → Kept c
        → Safe (trade_date config strategy source date c) Kept
    unfolding trade_date
    trade_date-Balanced source date c g =
        elim (source.load date)
          as (λ o.
            Safe (elim o [ none ↦ ok c | some s ↦ trade_session config strategy date s c ]) Kept) [
              | none ↦ g
              | some s ↦ trade_session-Balanced date s c g
            ]

    trade_dates-Balanced :
        (source : DataSource) (dates : List Date) (c : Carried F S)
        → Kept c
        → Safe (trade_dates config strategy source dates c) Kept
    unfolding trade_dates
    trade_dates-Balanced source [] c g = g
    trade_dates-Balanced source (date ∷ dates) c g =
        Safe-bind _ _ (trade_date config strategy source date c) _
          (trade_date-Balanced source date c g) λ c' h. trade_dates-Balanced source dates c' h

    trade_from-Balanced :
        (source : DataSource) (first : Date) (dates : List Date) (p : Portfolio F)
        → Balanced p
        → Safe (trade_from config strategy source first dates p) Kept
    unfolding trade_from
    trade_from-Balanced source first dates p g =
        Safe-bind _ _ (or_throw (source.load first) Error.runtime_error) _ (or_throw-Safe _ _ refl)
          λ s _.
            Safe-bind _ _
              (resume config.run (strategy first) (view_of s (pos 0))
                (started config.run (strategy first) p))
              _
              (resume-Balanced config.run (strategy first) (throwing first) (view_of s (pos 0))
                (started config.run (strategy first) p) g)
              λ r h. trade_dates-Balanced source (first ∷ dates) (carried config strategy r) h

    -- A backtest, up to its report, never touches a leg that is not there, whatever the strategy does,
    -- and if it returns, its portfolio is balanced: over all the sessions, the realised profit is what
    -- the closed and the settled legs earned. The strategy throws only exceptions.
    pub traded-Balanced :
        (source : DataSource) (first : Date) (dates : List Date)
        → Safe (traded config strategy source first dates) Kept
    unfolding traded
    traded-Balanced source first dates =
        Safe-bind _ _
          (new_portfolio config.run.fills config.run.execution_delay_nanos config.run.costs) _
          (new_portfolio-Balanced config.run.fills config.run.execution_delay_nanos
            config.run.costs)
          (trade_from-Balanced source first dates)
