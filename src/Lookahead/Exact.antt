-- ===== src/Lookahead/Exact.antt =====
-- The detector is exact: it reports a violation just where a truncated run trades otherwise.
use volforge.Prelude.{
  ℕ, ◌+◌, ◌≡◌, refl, sym, ◌∙◌, subst, ◌↔◌, ◌⊎◌, inl, inr, true, false, Option, none, some, List, [],
  ◌∷◌, ltb, if◌then◌else◌, length, All, ok, err, ◌>>=◌, ok-injective, Returns, Returns-bind,
  Returns-map,
}
use volforge.Types.{Timestamp, InstrumentId}
use volforge.Market.{SessionData}
use volforge.Market.Cursor.{events_of, distinct_times, least_timestamp}
use volforge.Double.{Double}
use volforge.Portfolio.{TradeRecord}
use volforge.Strategy.{Strategy}
use volforge.Engine.{RunConfig, Running, run_session, run_report, finish}
use volforge.Lookahead.{truncated}
use volforge.Lookahead.Replay.{until_trades}
use volforge.Lookahead.Clean.{expected-eq}
use volforge.Lookahead.Logs.{Alike, compare_logs_iff}
use volforge.Lookahead.Detector.{
  Detail, around_fills, sampled, LookaheadReport, first_report, expected, violated, compare_logs,
  check_cutoff, check_cutoffs, check_lookahead,
}

-- The cutoffs that a check of a full log tests.
abbrev pub tested : SessionData → ℕ → List ℕ → List TradeRecord → List Timestamp
tested s cutoffs draws log =
    let times = distinct_times least_timestamp (events_of s) in
    if ltb (length times) 2 then [] else sampled cutoffs times draws (around_fills times log [])

violated_iff :
    (cutoff : Timestamp) (r : LookaheadReport) (found : Option Detail)
    → ((violated cutoff r found).clean ≡ true) ↔ ((r.clean ≡ true) × (found ≡ none))
violated_iff cutoff r none = (λ h. (h, refl), λ h. h.0)
violated_iff cutoff r (some x) = (λ h. cc, λ h. let e = h.1 in cc)

module _ {F S : Type 0} ⦃d : Double F⦄ (config : RunConfig F) (program : SessionData → Strategy F S)
    (s : SessionData) (log : List TradeRecord) where
  -- At a cutoff nothing is left of the session, or the truncated run has the trades of the full log
  -- that had filled by then, and no others.
  abbrev pub Agrees : Timestamp → Type 0
  Agrees cutoff =
      ((truncated s cutoff).instruments ≡ [])
      ⊎ ((r : Running F S) × (run_session config (program (truncated s cutoff)) (truncated s cutoff)
            ≡ ok r)
          × Alike (until_trades cutoff log) r.portfolio.trades)

  check_cutoff_iff :
      (report : LookaheadReport) (cutoff : Timestamp) (i : InstrumentId) (is : List InstrumentId)
      → (truncated s cutoff).instruments ≡ i ∷ is
      → Returns
          (check_cutoff config program s log report cutoff)
          (λ x. (x.clean ≡ true) ↔ ((report.clean ≡ true) × Agrees cutoff))
  unfolding check_cutoff run_report finish
  check_cutoff_iff report cutoff i is some_left =
      let run = run_session config (program (truncated s cutoff)) (truncated s cutoff) in
      let counted : LookaheadReport = record report {
        trades_compared = report.trades_compared + length (expected cutoff log);
      } in
      elim run
          as (λ x.
            run ≡ x
            → Returns
                ((x >>= λ r.
                    ok (finish config (program (truncated s cutoff)) (truncated s cutoff) r))
                  >>= λ partial. ok (
                      violated cutoff counted
                        (compare_logs (expected cutoff log) partial.trade_log)))
                (λ y. (y.clean ≡ true) ↔ ((report.clean ≡ true) × Agrees cutoff))) [
                  | err y ↦ λ e. tt
                  | ok r ↦ λ e.
                      let found = compare_logs (expected cutoff log) r.portfolio.trades in
                      let (forth, back) = violated_iff cutoff counted found in
                      let (alike, same) =
                        compare_logs_iff (expected cutoff log) r.portfolio.trades in
                      (
                        λ h.
                            let (clean, none_found) = forth h in
                            (
                              clean,
                              inr (
                                r,
                                e,
                                subst (λ x. Alike x r.portfolio.trades) (expected-eq cutoff log)
                                    (alike none_found),
                              ),
                            ),
                        λ h. back (h.0, same (trades_of r e h.1)),
                      )
                ]
        refl
    where
      trades_of :
          (r : Running F S)
          → run_session config (program (truncated s cutoff)) (truncated s cutoff) ≡ ok r
          → Agrees cutoff
          → Alike (expected cutoff log) r.portfolio.trades
      trades_of r e (inl gone) = cc
      trades_of r e (inr (r', e', h)) =
          subst (λ x. Alike x r.portfolio.trades) (sym (expected-eq cutoff log))
            (subst (λ (x : Running F S). Alike (until_trades cutoff log) x.portfolio.trades)
              (ok-injective r' r (sym e' ∙ e)) h)

  check_cutoffs_iff :
      (report : LookaheadReport) (cs : List Timestamp)
      → Returns
          (check_cutoffs config program s log report cs)
          (λ x. (x.clean ≡ true) ↔ ((report.clean ≡ true) × All Agrees cs))
  unfolding check_cutoffs
  check_cutoffs_iff report [] = (λ h. (h, tt), λ h. h.0)
  check_cutoffs_iff report (c ∷ cs) =
      let counted : LookaheadReport = record report {
        cutoffs_tested = report.cutoffs_tested + 1;
      } in
      elim (truncated s c).instruments
          as (λ is.
            (truncated s c).instruments ≡ is
            → Returns
                (elim is [
                  | [] ↦ check_cutoffs config program s log counted cs
                  | _ ∷ _ ↦ check_cutoff config program s log counted c >>= λ x.
                      check_cutoffs config program s log x cs
                ])
                (λ x. (x.clean ≡ true) ↔ ((report.clean ≡ true) × (Agrees c × All Agrees cs)))) [
                  | [] ↦ λ e.
                      Returns-map _ _ (check_cutoffs config program s log counted cs)
                        (λ x k. (
                          λ h. let (clean, rest) = k.0 h in (clean, (inl e, rest)),
                          λ h. k.1 (h.0, h.1.1),
                        ))
                        (check_cutoffs_iff counted cs)
                  | i ∷ is ↦ λ e.
                      Returns-bind _ _ (check_cutoff config program s log counted c) _
                        (check_cutoff_iff counted c i is e)
                        λ x k.
                          Returns-map _ _ (check_cutoffs config program s log x cs)
                            (λ y l. (
                              λ h.
                                  let (clean, rest) = l.0 h in
                                  let (before, here) = k.0 clean in (before, (here, rest)),
                              λ h. l.1 (k.1 (h.0, h.1.0), h.1.1),
                            ))
                            (check_cutoffs_iff x cs)
                ]
        refl

-- Where the run of a program over the whole session and `check_lookahead` return, the report is clean
-- just if, at every cutoff that is tested, nothing is left of the session or the truncated run has the
-- trades that the whole run had filled by then, and no others. So a program that trades otherwise on
-- a truncated session is reported.
pub check_lookahead-Agrees :
    {F S : Type 0} ⦃d : Double F⦄ (config : RunConfig F) (program : SessionData → Strategy F S)
    (s : SessionData) (r : Running F S) (cutoffs : ℕ) (draws : List ℕ)
    → run_session config (program s) s ≡ ok r
    → Returns (check_lookahead config program s cutoffs draws) (λ report.
      (report.clean ≡ true)
      ↔ All
          (Agrees config program s r.portfolio.trades)
          (tested s cutoffs draws r.portfolio.trades))
unfolding check_lookahead run_report finish
check_lookahead-Agrees config program s r cutoffs draws returns =
    let times = distinct_times least_timestamp (events_of s) in
    let log = r.portfolio.trades in
    let chosen = sampled cutoffs times draws (around_fills times log []) in
    rw returns
      (elim (ltb (length times) 2)
        as (λ b.
          Returns
            (if b then ok first_report else check_cutoffs config program s log first_report chosen)
            (λ report.
              (report.clean ≡ true)
              ↔ All (Agrees config program s log) (if b then [] else chosen))) [
                | true ↦ (λ h. tt, λ h. refl)
                | false ↦
                    Returns-map _ _ (check_cutoffs config program s log first_report chosen)
                      (λ x k. (λ h. (k.0 h).1, λ h. k.1 (refl, h)))
                      (check_cutoffs_iff config program s log first_report chosen)
              ])
