-- ===== src/Lookahead/Replay.antt =====
-- A replay of a truncated session trades what the full run had traded by the cutoff.

use volforge.Market.{view_of}
use volforge.Engine.{Running}
use mathlib.Core.Path.{ap₂}
use mathlib.Core.List.{append-nil}
use volforge.Prelude.{
  ◌≡◌, refl, sym, ap, ◌∙◌, subst, inl, inr, List, [], ◌∷◌, ◌++◌, arith, filter_by, All, pos, ◌≤ℤ◌,
  ◌<ℤ◌, ltb_ℤ, leb_ℤ, ok, err, ◌>>=◌, bind_ok, Returns_of_ok,
}
use volforge.Types.{Timestamp}
use volforge.Market.{SessionData, MarketView}
use volforge.Market.Cursor.{steps_of}
use volforge.Market.Merge.{Rising}
use volforge.Double.{Double}
use volforge.Engine.Session.{run_steps-Sound, entered-Sound}
use volforge.Portfolio.{TradeRecord, new_portfolio}
use volforge.Strategy.{Strategy}
use volforge.Engine.{RunConfig, run_steps, resume, started, enter, run_session}
use volforge.Engine.Causality.{Agree, resume-agrees, run_steps-truncated, run_steps-append}
use volforge.Lookahead.{truncated}
use volforge.Lookahead.Views.{IsValid, view_of-truncated}
use volforge.Lookahead.Runs.{until_times, le_or_lt}
use volforge.Lookahead.Timeline.{IsIndexed, steps_of-truncated}

abbrev pub after_times : Timestamp → List Timestamp → List Timestamp
after_times c = filter_by (λ t. ltb_ℤ c t)

abbrev pub until_trades : Timestamp → List TradeRecord → List TradeRecord
until_trades c = filter_by (λ t. leb_ℤ t.fill_ts c)

after_times_late :
    (c low : Timestamp) (ts : List Timestamp)
    → c <ℤ low
    → Rising low ts
    → (until_times c ts ≡ []) × (after_times c ts ≡ ts)
after_times_late c low [] h k = (refl, refl)
after_times_late c low (t ∷ ts) h (k, ks) =
    let late : c <ℤ t = omega arith in
    let (before, after) = after_times_late c t ts late ks in (ground arith, ground arith)

-- Rising times are those up to a cutoff, and then those after it.
split_times :
    (c low : Timestamp) (ts : List Timestamp)
    → Rising low ts
    → ts ≡ until_times c ts ++ after_times c ts
split_times c low [] h = refl
split_times c low (t ∷ ts) (h, hs) = elim (le_or_lt t c) [
  | inl kept ↦ let rest = split_times c t ts hs in ground arith
  | inr late ↦ let (before, after) = after_times_late c t ts late hs in ground arith
]

until-All : (c : Timestamp) (ts : List Timestamp) → All (λ t. t ≤ℤ c) (until_times c ts)
until-All c [] = tt
until-All c (t ∷ ts) = ground (arith, until-All c ts)

after-All : (c : Timestamp) (ts : List Timestamp) → All (λ t. c <ℤ t) (after_times c ts)
after-All c [] = tt
after-All c (t ∷ ts) = ground (arith, after-All c ts)

Rising-append : (low : Timestamp) (ts us : List Timestamp) → Rising low (ts ++ us) → Rising low ts
Rising-append low [] us h = tt
Rising-append low (t ∷ ts) us (h, hs) = (h, Rising-append t ts us hs)

until_trades-append :
    (c : Timestamp) (xs ys : List TradeRecord)
    → until_trades c (xs ++ ys) ≡ until_trades c xs ++ until_trades c ys
until_trades-append c [] ys = refl
until_trades-append c (x ∷ xs) ys = ground (arith, until_trades-append c xs ys)

until_trades_all :
    (c : Timestamp) (xs : List TradeRecord) → All (λ x. x.fill_ts ≤ℤ c) xs → until_trades c xs ≡ xs
until_trades_all c [] h = refl
until_trades_all c (x ∷ xs) (h, hs) = ground (arith, until_trades_all c xs hs)

until_trades_none :
    (c : Timestamp) (xs : List TradeRecord) → All (λ x. c <ℤ x.fill_ts) xs → until_trades c xs ≡ []
until_trades_none c [] h = refl
until_trades_none c (x ∷ xs) (h, hs) = ground (arith, until_trades_none c xs hs)

-- A program is the coroutine bound to a session: besides the view it may read series of the whole
-- session, as `Ctx::bars` hands them out. It is causal up to a cutoff if it starts alike on the
-- session as truncated there, and answers every view up to the cutoff alike.
pub record IsCausal {F S : Type 0} (program : SessionData → Strategy F S) (s : SessionData)
    (cutoff : Timestamp) : Type 0 where
  pub start : (program (truncated s cutoff)).start ≡ (program s).start
  pub agrees :
      (now : Timestamp)
      → now ≤ℤ cutoff
      → Agree (program (truncated s cutoff)) (program s) (view_of s now)

module _ {F S : Type 0} ⦃d : Double F⦄ (config : RunConfig F) (program : SessionData → Strategy F S)
    (s : SessionData) (cutoff : Timestamp) (v : IsValid s) (indexed : IsIndexed s)
    (rising : Rising (pos 0) (steps_of s)) (started_by : pos 0 ≤ℤ cutoff)
    (causal : IsCausal program s cutoff) where
  abbrev partly : Strategy F S
  partly = program (truncated s cutoff)

  abbrev wholly : Strategy F S
  wholly = program s

  enter-truncated : enter config partly (truncated s cutoff) ≡ enter config wholly s
  unfolding enter
  enter-truncated =
      ap
        (λ (m : MarketView).
          new_portfolio config.fills config.execution_delay_nanos config.costs >>= λ p.
          resume config partly m (started config partly p))
        (view_of-truncated s cutoff (pos 0) v started_by)
      ∙ λ i. new_portfolio config.fills config.execution_delay_nanos config.costs >>= λ p.
          (resume-agrees config partly wholly (view_of s (pos 0)) (causal.agrees (pos 0) started_by)
                (started config partly p)
              ∙ ap
                  (λ (x : S).
                    resume config wholly (view_of s (pos 0))
                      (record (started config partly p) { task = x }))
                  causal.start)
            i

  -- A run of a causal program over a session is its run over the session as truncated, errors
  -- included, followed by the steps that are left. The cutoff is at 0, where the clock starts, or
  -- after it; the times of the session are rising from after 0; its series are sorted, and those that
  -- it does not list are empty; a prepared order or timeline is the one that a merge gives.
  pub run_session-truncated : run_session config (program s) s ≡ (
      run_session config (program (truncated s cutoff)) (truncated s cutoff) >>= λ r.
      run_steps config (program s) s r (after_times cutoff (steps_of s)))
  unfolding run_session
  run_session-truncated =
      let now = until_times cutoff (steps_of s) in
      let late = after_times cutoff (steps_of s) in
      rw (enter-truncated, steps_of-truncated s cutoff v indexed)
        (elim (enter config wholly s)
          as (λ x. (x >>= λ r. run_steps config wholly s r (steps_of s)) ≡ (
            (x >>= λ r. run_steps config partly (truncated s cutoff) r now) >>= λ r.
            run_steps config wholly s r late)) [
              | ok r ↦
                  ap (run_steps config wholly s r) (split_times cutoff (pos 0) (steps_of s) rising)
                  ∙ (run_steps-append config wholly s r now late
                      ∙ ap (λ x. x >>= λ r'. run_steps config wholly s r' late)
                          (sym (
                            run_steps-truncated config partly wholly s cutoff v causal.agrees r now
                              (until-All cutoff (steps_of s)))))
              | err e ↦ refl
            ])

  -- If the run of a causal program over the whole session returns, so does its run over the truncated
  -- one, and its trades are those that the whole run had filled by the cutoff. The conditions on the
  -- session and on the cutoff are those of `run_session-truncated`.
  pub until_trades-truncated :
      (r : Running F S)
      → run_session config (program s) s ≡ ok r
      → (r' : Running F S) × (run_session config (program (truncated s cutoff)) (truncated s cutoff)
          ≡ ok r')
        × (until_trades cutoff r.portfolio.trades ≡ r'.portfolio.trades)
  unfolding run_session
  until_trades-truncated r h =
      let now = until_times cutoff (steps_of s) in
      let late = after_times cutoff (steps_of s) in
      let split = split_times cutoff (pos 0) (steps_of s) rising in
      let (r', partial, rest) = bind_ok _ _ (sym run_session-truncated ∙ h) in
      let (r0, entered, walked) = bind_ok (enter config partly (truncated s cutoff)) _ partial in
      let (g0, at_start, none_yet) =
        Returns_of_ok _ (enter config wholly s) (entered-Sound config wholly s)
          (sym enter-truncated ∙ entered) in
      let walked_whole : run_steps config wholly s r0 now ≡ ok r' =
        sym (
          run_steps-truncated config partly wholly s cutoff v causal.agrees r0 now
            (until-All cutoff (steps_of s)))
        ∙ (ap (run_steps config partly (truncated s cutoff) r0)
              (sym (steps_of-truncated s cutoff v indexed))
            ∙ walked) in
      let (g1, grown, to_come) =
        Returns_of_ok _ (run_steps config wholly s r0 now)
          (run_steps-Sound config wholly (λ t. t ≤ℤ cutoff) s r0 now late g0
            (subst (λ x. Rising x (now ++ late)) (sym at_start)
              (subst (Rising (pos 0)) split rising))
            (until-All cutoff (steps_of s)))
          walked_whole in
      let (g2, later, _) =
        Returns_of_ok _ (run_steps config wholly s r' late)
          (run_steps-Sound config wholly (λ t. cutoff <ℤ t) s r' late [] g1
            (subst (Rising r'.clock) (sym (append-nil late)) to_come)
            (after-All cutoff (steps_of s)))
          rest in
      let so_far : r'.portfolio.trades ≡ grown.fresh =
        grown.trades ∙ ap (λ x. x ++ grown.fresh) none_yet in
      (
        r',
        partial,
        ap (until_trades cutoff) later.trades
            ∙ (until_trades-append cutoff r'.portfolio.trades later.fresh
                ∙ (ap₂ ◌++◌
                      (until_trades_all cutoff r'.portfolio.trades
                        (subst (All (λ x. x.fill_ts ≤ℤ cutoff)) (sym so_far) grown.filled))
                      (until_trades_none cutoff later.fresh later.filled)
                    ∙ append-nil r'.portfolio.trades)),
      )
