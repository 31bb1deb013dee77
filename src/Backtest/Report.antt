-- ===== src/Backtest/Report.antt =====
-- What the result of a backtest says of its sessions.
use volforge.Prelude.{
  ◌≡◌, refl, sym, ap, ◌∙◌, Bool, true, false, not, Option, none, some, List, [], ◌∷◌, ◌++◌, map,
  if◌then◌else◌, length, filter_by, pos, ◌+ℤ◌, ◌-ℤ◌, max_ℤ, int_laws, Error, ok, ◌>>=◌, throw_if,
  or_throw, Returns, Returns-bind, Returns-then, Returns-map,
}
use volforge.Types.{Date, Money}
use volforge.Market.{SessionData, view_of}
use volforge.Market.Cursor.{steps_of}
use volforge.Double.{Double}
use volforge.Portfolio.{new_portfolio}
use volforge.Strategy.{Strategy}
use volforge.Engine.{resume, started}
use volforge.Backtest.{
  DataSource, BacktestConfig, BacktestResult, SessionSummary, Carried, close_session, settle_at,
  day_steps, new_day, trade_session, trade_date, trade_dates, trade_from, traded, carried,
  last_equity, unrealized_of, report, reported, dates_or, run_backtest, is_sorted,
}
use mathlib.Core.List.{append_assoc, append-nil}

abbrev pub loads : DataSource → Date → Bool
loads source d = elim (source.load d) [ none ↦ false | some _ ↦ true ]

abbrev pub equity_or_zero : Option Money → Money
equity_or_zero none = pos 0
equity_or_zero (some e) = e

abbrev summary_dates : List SessionSummary → List Date
summary_dates = map (λ s. s.date)

map-append :
    (ss : List SessionSummary) (s : SessionSummary)
    → summary_dates (ss ++ (s ∷ [])) ≡ summary_dates ss ++ (s.date ∷ [])
map-append [] s = refl
map-append (x ∷ xs) s = ap (λ (ds : List Date). x.date ∷ ds) (map-append xs s)

module _ {F : Type 0} ⦃d : Double F⦄ (config : BacktestConfig F) {S : Type 0}
    (strategy : Date → Strategy F S) where
  -- The dates that have been traded since `c`.
  record Adds (c : Carried F S) (dates : List Date) (c' : Carried F S) : Type 0 where
    sessions : c'.sessions ≡ c.sessions ++ dates
    daily : summary_dates c'.daily ≡ summary_dates c.daily ++ dates

  Adds-none : (c : Carried F S) → Adds c [] c
  Adds-none c = record {
    sessions = sym (append-nil c.sessions);
    daily = sym (append-nil (summary_dates c.daily));
  }

  Adds-trans :
      (a b c : Carried F S) (xs ys : List Date) → Adds a xs b → Adds b ys c → Adds a (xs ++ ys) c
  Adds-trans a b c xs ys f g = record {
    sessions =
        g.sessions ∙ (ap (λ (ds : List Date). ds ++ ys) f.sessions ∙ append_assoc a.sessions xs ys);
    daily =
        g.daily
        ∙ (ap (λ (ds : List Date). ds ++ ys) f.daily ∙ append_assoc (summary_dates a.daily) xs ys);
  }

  trade_session-Adds :
      (date : Date) (s : SessionData) (c : Carried F S)
      → Returns (trade_session config strategy date s c) (Adds c (date ∷ []))
  unfolding trade_session
  trade_session-Adds date s c =
      Returns-then _
        (day_steps config strategy date s (new_day config strategy c.running) (steps_of s)) _
        λ r.
          Returns-then _
            (close_session config (view_of s (max_ℤ r.clock (settle_at config date))) date
              r.portfolio)
            _ λ t. record { sessions = refl; daily = map-append c.daily _ }

  trade_dates-Adds :
      (source : DataSource) (dates : List Date) (c : Carried F S)
      → Returns
          (trade_dates config strategy source dates c)
          (Adds c (filter_by (loads source) dates))
  unfolding trade_dates trade_date
  trade_dates-Adds source [] c = Adds-none c
  trade_dates-Adds source (date ∷ dates) c =
      elim (source.load date)
        as (λ o.
          Returns
            (elim o [ none ↦ ok c | some s ↦ trade_session config strategy date s c ]
              >>= trade_dates config strategy source dates)
            (Adds c (
              if elim o [ none ↦ false | some _ ↦ true ]
              then date ∷ filter_by (loads source) dates
              else filter_by (loads source) dates))) [
                | none ↦ trade_dates-Adds source dates c
                | some s ↦
                    Returns-bind (Adds c (date ∷ [])) _ (trade_session config strategy date s c) _
                      (trade_session-Adds date s c)
                      λ c' h.
                        Returns-map _ _ (trade_dates config strategy source dates c')
                          (λ e k.
                            Adds-trans c c' e (date ∷ []) (filter_by (loads source) dates) h k)
                          (trade_dates-Adds source dates c')
              ]

  -- What a result says: a summary for each session, the sessions those dates that load, in order, and
  -- the final equity that of the last session, or 0 without one.
  pub record Reports (source : DataSource) (dates : List Date) (r : BacktestResult) : Type 0 where
    pub daily : summary_dates r.daily ≡ r.sessions
    pub sessions : r.sessions ≡ filter_by (loads source) dates
    pub net : r.net_realized ≡ r.realized -ℤ r.costs
    pub equity : r.final_equity ≡ equity_or_zero (last_equity r.daily)
    pub trades : r.trades ≡ length r.trade_log

  traded-Adds :
      (source : DataSource) (first : Date) (dates : List Date)
      → Returns (traded config strategy source first dates) (λ c.
        (c.sessions ≡ filter_by (loads source) (first ∷ dates))
        × (summary_dates c.daily ≡ filter_by (loads source) (first ∷ dates))
        × (loads source first ≡ true))
  unfolding traded trade_from
  traded-Adds source first dates =
      let loading = filter_by (loads source) (first ∷ dates) in
      Returns-then _
        (new_portfolio config.run.fills config.run.execution_delay_nanos config.run.costs) _
        λ p.
          elim (source.load first)
            as (λ o.
              Returns
                (or_throw o Error.runtime_error >>= λ s.
                  resume config.run (strategy first) (view_of s (pos 0))
                    (started config.run (strategy first) p)
                  >>= λ r.
                      trade_dates config strategy source (first ∷ dates)
                        (carried config strategy r))
                (λ c.
                  (c.sessions ≡ loading)
                  × (summary_dates c.daily ≡ loading)
                  × (elim o [ none ↦ false | some _ ↦ true ] ≡ true))) [
                    | none ↦ tt
                    | some s ↦
                        Returns-then _
                          (resume config.run (strategy first) (view_of s (pos 0))
                            (started config.run (strategy first) p))
                          _
                          λ r.
                            Returns-map _ _
                              (trade_dates config strategy source (first ∷ dates)
                                (carried config strategy r))
                              (λ c h. (h.sessions, h.daily, refl))
                              (trade_dates-Adds source (first ∷ dates) (carried config strategy r))
                  ]

  -- The equity that is left over is what the last summary has beyond the net profit.
  final_equity_lem :
      (net : Money) (ds : List Date) (first : Date) (daily : List SessionSummary)
      → summary_dates daily ≡ first ∷ ds
      → net +ℤ unrealized_of (last_equity daily) net ≡ equity_or_zero (last_equity daily)
  final_equity_lem net ds first [] h = cc
  final_equity_lem net ds first (s ∷ []) h = omega int_laws
  final_equity_lem net ds first (s ∷ t ∷ []) h = omega int_laws
  final_equity_lem net ds first (s ∷ t ∷ u ∷ ss) h =
      final_equity_lem net (summary_dates (u ∷ ss)) t.date (t ∷ u ∷ ss) refl

  reported-Reports :
      (source : DataSource) (dates : List Date)
      → Returns (reported config strategy source dates) (Reports source dates)
  unfolding report ◌-ℤ◌
  reported-Reports source [] =
      Returns-then _
        (new_portfolio config.run.fills config.run.execution_delay_nanos config.run.costs) _
        λ p. record { daily = refl; sessions = refl; net = refl; equity = refl; trades = refl }
  reported-Reports source (first ∷ dates) =
      Returns-bind _ _ (traded config strategy source first dates) _
        (traded-Adds source first dates)
        λ c (sessions, daily, loaded). record {
          daily = daily ∙ sym sessions;
          sessions = sessions;
          net = refl;
          equity =
              final_equity_lem _ (filter_by (loads source) dates) first c.daily
                (daily ∙ rw loaded refl);
          trades = refl;
        }

  -- If a backtest returns, it has a summary for each of its sessions, these are the dates that load
  -- among those that were asked for, or among all of the source where none was, in order, and the
  -- final equity is that of the last session.
  pub run_backtest-Reports :
      (source : DataSource) (asked : List Date)
      → Returns
          (run_backtest config strategy source asked)
          (Reports source (dates_or source.sessions asked))
  unfolding run_backtest report
  run_backtest-Reports source asked =
      Returns-then _
        (throw_if (not (is_sorted (dates_or source.sessions asked))) Error.invalid_argument) _
        λ _. reported-Reports source (dates_or source.sessions asked)
