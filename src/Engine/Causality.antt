-- ===== src/Engine/Causality.antt =====
-- A run over a truncated session and a run over the whole one agree up to the cutoff.
use volforge.Prelude.{
  ℕ, zero, suc, ◌+◌, ◌∙◌, Bool, not, ◌&&◌, Result, if◌then◌else◌, ◌≡◌, refl, ap, true, false, List,
  [], ◌∷◌, ◌++◌, All, ◌≤ℤ◌, ltb_ℤ, Error, ok, err, ◌>>=◌, ◌>>◌, throw_if,
}
use volforge.Types.{Timestamp}
use volforge.Market.{SessionData, MarketView, advance_to, view_of}
use volforge.Double.{Double}
use volforge.Portfolio.{Portfolio}
use volforge.Portfolio.Pending.{process_pending}
use volforge.Portfolio.Rules.{process_risk_rules}
use volforge.Strategy.{Strategy, Script, run_script}
use volforge.Engine.{
  RunConfig, Running, resume, evaluated, wake, wake_all, sample_margin, step, step_on, run_steps,
}
use volforge.Lookahead.{truncated}
use volforge.Lookahead.Views.{IsValid, view_of-truncated}

-- Two strategies that a view cannot tell apart: what they are asked with it has the same answers.
pub record Agree {F S : Type 0} (a b : Strategy F S) (m : MarketView) : Type 0 where
  pub done : (x : S) → a.done x ≡ b.done x
  pub waits : (x : S) → a.waits x ≡ b.waits x
  pub holds : (x : S) (p : Portfolio F) → a.holds x m p ≡ b.holds x m p
  pub resume : (x : S) (p : Portfolio F) → a.resume x m p ≡ b.resume x m p

module _ {F S : Type 0} ⦃d : Double F⦄ (config : RunConfig F) (a b : Strategy F S) where
  module _ (m : MarketView) (agree : Agree a b m) where
    pub resume-agrees : (r : Running F S) → resume config a m r ≡ resume config b m r
    unfolding resume
    resume-agrees r =
        ap
          (λ (x : Script F S). run_script m r.portfolio x >>= λ (z : Portfolio F × S).
            ok (record r { portfolio = z.0; task = z.1 }))
          (agree.resume r.task r.portfolio)

    evaluated-agrees :
        (again again' : Running F S → Result (Running F S))
        → ((r : Running F S) → again r ≡ again' r)
        → (r : Running F S) (now : Bool)
        → evaluated config a again m r now ≡ evaluated config b again' m r now
    evaluated-agrees again again' same r false = refl
    evaluated-agrees again again' same r true =
        let r0 : Running F S = record r { condition_evals = r.condition_evals + 1 } in
        λ i. resume-agrees r0 i >>= λ r'. same (record r' { resumes = r'.resumes + 1 }) i

    wake-agrees :
        (again again' : Running F S → Result (Running F S))
        → ((r : Running F S) → again r ≡ again' r)
        → (r : Running F S) → wake config a again m r ≡ wake config b again' m r
    unfolding wake
    wake-agrees again again' same r = λ i.
        if not (not (agree.done r.task i) && agree.waits r.task i)
        then ok r
        else (agree.holds r.task r.portfolio i >>= λ now.
            evaluated-agrees again again' same r now i)

    wake_all-agrees : (n : ℕ) (r : Running F S) → wake_all config a n m r ≡ wake_all config b n m r
    unfolding wake_all
    wake_all-agrees zero r = wake-agrees _ _ (λ _. refl) r
    wake_all-agrees (suc n) r = wake-agrees _ _ (wake_all-agrees n) r

    step_on-agrees : (r : Running F S) → step_on config a m r ≡ step_on config b m r
    unfolding step_on
    step_on-agrees r = λ i. process_pending m r.portfolio >>= λ p. process_risk_rules m p >>= λ p'.
        wake_all-agrees config.max_resumes_per_step
          (sample_margin config a m (record r { portfolio = p'; steps = r.steps + 1 })) i

  module _ (s : SessionData) (cutoff : Timestamp) (v : IsValid s)
      (agree : (now : Timestamp) → now ≤ℤ cutoff → Agree a b (view_of s now)) where
    step-truncated :
        (r : Running F S) (t : Timestamp)
        → t ≤ℤ cutoff
        → step config a (truncated s cutoff) r t ≡ step config b s r t
    unfolding step advance_to
    step-truncated r t h =
        elim (ltb_ℤ t r.clock)
          as (λ x.
            ((throw_if x Error.logic_error >> ok t) >>= λ now.
            step_on config a (view_of (truncated s cutoff) now) (record r { clock = now }))
            ≡ ((throw_if x Error.logic_error >> ok t) >>= λ now.
                step_on config b (view_of s now) (record r { clock = now }))) [
                  | true ↦ refl
                  | false ↦
                      ap (λ (m : MarketView). step_on config a m (record r { clock = t }))
                        (view_of-truncated s cutoff t v h)
                      ∙ step_on-agrees (view_of s t) (agree t h) (record r { clock = t })
                ]

    -- Through any list of times up to the cutoff, a run over the truncated session goes as a run
    -- over the whole session does, errors included: the same orders, fills, trades and conditions.
    -- The series of the session are sorted, those that it does not list are empty, and the two
    -- strategies answer alike up to the cutoff.
    pub run_steps-truncated :
        (r : Running F S) (ts : List Timestamp)
        → All (λ t. t ≤ℤ cutoff) ts
        → run_steps config a (truncated s cutoff) r ts ≡ run_steps config b s r ts
    unfolding run_steps
    run_steps-truncated r [] h = refl
    run_steps-truncated r (t ∷ ts) (here, rest) =
        rw (step-truncated r t here)
          (elim (step config b s r t)
            as (λ x.
              (x >>= λ r'. run_steps config a (truncated s cutoff) r' ts)
              ≡ (x >>= λ r'. run_steps config b s r' ts)) [
                | ok r' ↦ run_steps-truncated r' ts rest
                | err e ↦ refl
              ])

module _ {F S : Type 0} ⦃d : Double F⦄ (config : RunConfig F) (strategy : Strategy F S) where
  pub run_steps-append :
      (s : SessionData) (r : Running F S) (ts us : List Timestamp)
      → run_steps config strategy s r (ts ++ us)
        ≡ (run_steps config strategy s r ts >>= λ r'. run_steps config strategy s r' us)
  unfolding run_steps
  run_steps-append s r [] us = refl
  run_steps-append s r (t ∷ ts) us =
      elim (step config strategy s r t)
        as (λ x. (x >>= λ r'. run_steps config strategy s r' (ts ++ us)) ≡ (
          (x >>= λ r'. run_steps config strategy s r' ts) >>= λ r'.
          run_steps config strategy s r' us)) [ ok r' ↦ run_steps-append s r' ts us | err e ↦ refl ]
