-- ===== src/Engine/Session.antt =====
-- A whole run: what `run_session` guarantees of the trades that it reports.
use mathlib.Core.List.{append_assoc, append-nil}
use volforge.Prelude.{
  ◌≡◌, refl, sym, ap, ◌∙◌, subst, List, [], ◌∷◌, ◌++◌, All, All-append, All-map, pos, ltb_ℤ, Error,
  throw_if, Returns, Returns-bind, Returns-then, Returns-map,
}
use volforge.Types.{Timestamp}
use volforge.Market.{SessionData, view_of}
use volforge.Market.Cursor.{steps_of}
use volforge.Market.Merge.{Rising}
use volforge.Double.{Double}
use volforge.Portfolio.{TradeRecord, new_portfolio}
use volforge.Portfolio.Fills.{Waiting, sum_costs}
use volforge.Strategy.{Strategy}
use volforge.Engine.{RunConfig, Running, step, run_steps, resume, started, enter, run_session}
use volforge.Engine.Soundness.{Sound, Sourced, step-Sound, resume-Goes, Fresh-Waiting}

-- A run that has added trades whose times have the property `P`.
pub record Grown {F S : Type 0} (P : Timestamp → Type 0) (r r' : Running F S) : Type 0 where
  pub fresh : List TradeRecord
  pub trades : r'.portfolio.trades ≡ r.portfolio.trades ++ fresh
  pub filled : All (λ x. P x.fill_ts) fresh

all_trivial : (ts : List Timestamp) → All (λ _. Unit {0}) ts
all_trivial [] = tt
all_trivial (t ∷ ts) = (tt, all_trivial ts)

module _ {F S : Type 0} ⦃d : Double F⦄ (config : RunConfig F) (strategy : Strategy F S) where
  -- Through rising times after its clock a sound run stays sound, and each trade that it adds
  -- fills at one of the times; the times that follow are still to come.
  pub run_steps-Sound :
      (P : Timestamp → Type 0) (s : SessionData) (r : Running F S) (ts us : List Timestamp)
      → Sound config s r
      → Rising r.clock (ts ++ us)
      → All P ts
      → Returns
          (run_steps config strategy s r ts)
          (λ r'. Sound config s r' × Grown P r r' × Rising r'.clock us)
  unfolding run_steps
  run_steps-Sound P s r [] us g h k =
      (g, record { fresh = []; trades = sym (append-nil r.portfolio.trades); filled = tt }, h)
  run_steps-Sound P s r (t ∷ ts) us g (h, hs) (k, ks) =
      Returns-bind _ _ (step config strategy s r t) _ (step-Sound config strategy s r t g h)
        λ r1 (g1, a).
          Returns-map _ _ (run_steps config strategy s r1 ts)
            (λ r2 (g2, b, rest). (
              g2,
              record {
                fresh = a.fresh ++ b.fresh;
                trades =
                    b.trades
                    ∙ (ap (λ x. x ++ b.fresh) a.trades
                        ∙ append_assoc r.portfolio.trades a.fresh b.fresh);
                filled =
                    All-append _ a.fresh b.fresh
                      (All-map _ _ (λ x e. subst P (sym e) k) a.fresh a.filled) b.filled;
              },
              rest,
            ))
            (run_steps-Sound P s r1 ts us g1 (subst (λ x. Rising x (ts ++ us)) (sym a.clock) hs) ks)

  -- The strategy's first run, up to its first suspension, trades nothing.
  pub entered-Sound :
      (s : SessionData)
      → Returns
          (enter config strategy s)
          (λ r. Sound config s r × (r.clock ≡ pos 0) × (r.portfolio.trades ≡ []))
  unfolding enter new_portfolio sum_costs view_of
  entered-Sound s =
      Returns-bind
        (λ p.
          (p.delay ≡ config.execution_delay_nanos)
          × (p.fills ≡ config.fills)
          × (p.trades ≡ [])
          × (p.pending ≡ [])
          × (p.total_costs ≡ pos 0))
        _ (new_portfolio config.fills config.execution_delay_nanos config.costs) _
        (Returns-then _
          (throw_if (ltb_ℤ config.execution_delay_nanos (pos 0)) Error.invalid_argument) _
          λ _. (refl, refl, refl, refl, refl))
        λ p (delay, fills, trades, pending, costs).
          Returns-map _ _ (resume config strategy (view_of s (pos 0)) (started config strategy p))
            (λ r (k, at_start). (
              record {
                delay = k.delay ∙ delay;
                fills = k.fills ∙ fills;
                waiting =
                    subst (λ x. All (Waiting x config.execution_delay_nanos) r.portfolio.pending)
                      (sym at_start) (k.pending (subst (All _) (sym pending) tt));
                sourced = subst (All _) (sym (k.trades ∙ trades)) tt;
                total_costs = k.total_costs ∙ (costs ∙ ap sum_costs (sym (k.trades ∙ trades)));
              },
              at_start,
              k.trades ∙ trades,
            ))
            (resume-Goes config strategy (view_of s (pos 0))
              (Waiting (pos 0) config.execution_delay_nanos) (started config strategy p)
              (Fresh-Waiting config strategy p (pos 0) delay))

  -- Every trade that a run reports was signalled before it filled, and no less than the delay
  -- before; its price is what the fill model makes of the quote of its instrument that a view shows
  -- at the time of the fill; and the costs that the run reports are the sum of the trades' costs.
  -- The session's times are rising, and after the clock's start.
  pub run_session-Sound :
      (s : SessionData)
      → Rising (pos 0) (steps_of s)
      → Returns (run_session config strategy s) (λ r.
        All (Sourced s config.fills config.execution_delay_nanos) r.portfolio.trades
        × (r.portfolio.total_costs ≡ sum_costs r.portfolio.trades))
  unfolding run_session
  run_session-Sound s rising =
      Returns-bind _ _ (enter config strategy s) _ (entered-Sound s) λ r (g, at_start, _).
        Returns-map _ _ (run_steps config strategy s r (steps_of s))
          (λ r' (g', _, _). (g'.sourced, g'.total_costs))
          (run_steps-Sound (λ _. Unit {0}) s r (steps_of s) [] g
            (subst (Rising r.clock) (sym (append-nil (steps_of s)))
              (subst (λ x. Rising x (steps_of s)) (sym at_start) rising))
            (all_trivial (steps_of s)))
