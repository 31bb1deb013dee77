-- ===== src/Lookahead/Clean.antt =====
-- The detector finds nothing in a causal program.
use volforge.Prelude.{
  ℕ, zero, suc, ◌+◌, ◌≡◌, refl, sym, ap, ◌∙◌, subst, inl, inr, true, not, none, List, [], ◌∷◌,
  arith, ltb, leb, Option-cases, length, get_elem?, All, All-map, get_elem?-All, pos, ◌≤ℤ◌,
  eqb_ℤ_refl, Result, ok, ◌>>=◌, if_both,
}
use volforge.Types.{Timestamp}
use volforge.Market.{SessionData}
use volforge.Market.Cursor.{events_of, steps_of, distinct_times, least_timestamp}
use volforge.Market.Merge.{Rising}
use volforge.Costs.{Side, buy, sell}
use volforge.Double.{Double}
use volforge.Portfolio.{TradeRecord}
use volforge.Strategy.{Strategy}
use volforge.Engine.{RunConfig, Running, run_session, run_report, finish}
use volforge.Lookahead.{truncated}
use volforge.Lookahead.Views.{IsValid}
use volforge.Lookahead.Timeline.{IsIndexed}
use volforge.Lookahead.Replay.{IsCausal, until_trades, until_trades-truncated}
use volforge.Lookahead.Detector.{
  same_side, same_trade, insert_time, insert_at, lower_bound, previous, around_fills, sampled,
  LookaheadReport, first_report, expected, first_difference, compare_logs, check_cutoff,
  check_cutoffs, check_lookahead,
}

same_side_refl : (x : Side) → same_side x x ≡ true
same_side_refl buy = refl
same_side_refl sell = refl

same_trade_refl : (t : TradeRecord) → same_trade t t ≡ true
unfolding same_trade
same_trade_refl t =
    rw
      (
        eqb_ℤ_refl t.signal_ts,
        eqb_ℤ_refl t.fill_ts,
        eqb_ℤ_refl t.instrument,
        same_side_refl t.side,
        eqb_ℤ_refl t.qty,
        eqb_ℤ_refl t.price,
      )
      refl

first_difference_refl : (ts : List TradeRecord) → first_difference ts ts ≡ none
unfolding first_difference
first_difference_refl [] = refl
first_difference_refl (t ∷ ts) = rw (same_trade_refl t) (first_difference_refl ts)

compare_logs_refl : (ts : List TradeRecord) → compare_logs ts ts ≡ none
unfolding compare_logs
compare_logs_refl ts = ground (arith, first_difference_refl ts)

pub expected-eq : (c : Timestamp) (ts : List TradeRecord) → expected c ts ≡ until_trades c ts
unfolding expected
expected-eq c [] = refl
expected-eq c (t ∷ ts) = ground (arith, expected-eq c ts)

module _ (P : Timestamp → Type 0) where
  insert_time-All :
      (t : Timestamp) (us : List Timestamp) → P t → All P us → All P (insert_time t us)
  unfolding insert_time
  insert_time-All t [] h k = (h, tt)
  insert_time-All t (u ∷ us) h (k, ks) = ground (arith, insert_time-All t us h ks)

  insert_at-All :
      (times chosen : List Timestamp) (i : ℕ)
      → All P times
      → All P chosen
      → All P (insert_at chosen (get_elem? times i))
  insert_at-All times chosen i h k = elim (Option-cases (get_elem? times i)) [
    | inl e ↦ rw e k
    | inr (t, e) ↦ rw e (insert_time-All t chosen (get_elem?-All P times i h e) k)
  ]

  previous-All :
      (times chosen : List Timestamp) (i : ℕ)
      → All P times
      → All P chosen
      → All P (insert_at chosen (previous times i))
  previous-All times chosen zero h k = k
  previous-All times chosen (suc i) h k = insert_at-All times chosen i h k

  around_fills-All :
      (times : List Timestamp) (log : List TradeRecord) (chosen : List Timestamp)
      → All P times
      → All P chosen
      → All P (around_fills times log chosen)
  unfolding around_fills
  around_fills-All times [] chosen h k = k
  around_fills-All times (t ∷ ts) chosen h k =
      let i = lower_bound t.fill_ts times in
      around_fills-All times ts
        (insert_at (insert_at chosen (get_elem? times i)) (previous times i)) h
        (previous-All times (insert_at chosen (get_elem? times i)) i h
          (insert_at-All times chosen i h k))

  sampled-All :
      (cutoffs : ℕ) (times : List Timestamp) (draws : List ℕ) (chosen : List Timestamp)
      → All P times
      → All P chosen
      → All P (sampled cutoffs times draws chosen)
  unfolding sampled
  sampled-All cutoffs times [] chosen h k = k
  sampled-All cutoffs times (i ∷ draws) chosen h k =
      let next = insert_at-All times chosen i h k in
      let rest = sampled-All cutoffs times draws (insert_at chosen (get_elem? times i)) h next in
      if_both (All P) (not (ltb (length chosen) cutoffs)) k (
        if_both (All P) (leb (length times) (length (insert_at chosen (get_elem? times i)))) next
          rest)

Rising-All : (low : Timestamp) (ts : List Timestamp) → Rising low ts → All (λ t. low ≤ℤ t) ts
Rising-All low [] h = tt
Rising-All low (t ∷ ts) (h, hs) =
    (omega arith, All-map _ _ (λ u k. omega arith) ts (Rising-All t ts hs))

-- `r` returns, and `P` holds of what it returns.
abbrev Gives : {A : Type 0} → Result A → (A → Type 0) → Type 0
Gives {A} r P = (a : A) × (r ≡ ok a) × P a

abbrev IsClean : LookaheadReport → Type 0
IsClean r = (r.clean ≡ true) × (r.violations ≡ [])

module _ {F S : Type 0} ⦃d : Double F⦄ (config : RunConfig F) (program : SessionData → Strategy F S)
    (s : SessionData) (v : IsValid s) (indexed : IsIndexed s) (rising : Rising (pos 0) (steps_of s))
    (r : Running F S) (returns : run_session config (program s) s ≡ ok r)
    (causal : (cutoff : Timestamp) → pos 0 ≤ℤ cutoff → IsCausal program s cutoff) where
  check_cutoff-IsClean :
      (report : LookaheadReport) (cutoff : Timestamp)
      → pos 0 ≤ℤ cutoff
      → IsClean report
      → Gives (check_cutoff config program s r.portfolio.trades report cutoff) IsClean
  unfolding check_cutoff run_report finish
  check_cutoff-IsClean report cutoff h clean =
      let (r', partial, same) =
        until_trades-truncated config program s cutoff v indexed rising h (causal cutoff h) r
          returns in
      let log = r.portfolio.trades in
      let none_differs : compare_logs (expected cutoff log) r'.portfolio.trades ≡ none =
        ap (λ x. compare_logs x r'.portfolio.trades) (expected-eq cutoff log ∙ same)
        ∙ compare_logs_refl r'.portfolio.trades in
      (
        record report { trades_compared = report.trades_compared + length (expected cutoff log) },
        rw (partial, none_differs) refl,
        clean,
      )

  check_cutoffs-IsClean :
      (report : LookaheadReport) (cs : List Timestamp)
      → All (λ c. pos 0 ≤ℤ c) cs
      → IsClean report
      → Gives (check_cutoffs config program s r.portfolio.trades report cs) IsClean
  unfolding check_cutoffs
  check_cutoffs-IsClean report [] h clean = (report, refl, clean)
  check_cutoffs-IsClean report (c ∷ cs) (h, hs) clean =
      let counted : LookaheadReport = record report {
        cutoffs_tested = report.cutoffs_tested + 1;
      } in
      let log = r.portfolio.trades in
      elim (truncated s c).instruments
        as (λ is.
          Gives
            (elim is [
              | [] ↦ check_cutoffs config program s log counted cs
              | _ ∷ _ ↦ check_cutoff config program s log counted c >>= λ x.
                  check_cutoffs config program s log x cs
            ])
            IsClean) [
              | [] ↦ check_cutoffs-IsClean counted cs hs clean
              | _ ∷ _ ↦
                  let (x, first, clean') = check_cutoff-IsClean counted c h clean in
                  let (y, rest, clean'') = check_cutoffs-IsClean x cs hs clean' in
                  (y, rw first rest, clean'')
            ]

  -- If the run of a program that is causal up to each cutoff from 0 on returns over the whole session,
  -- `check_lookahead` returns too, and reports no violation, at whatever cutoffs it draws. The
  -- session's times are rising from after 0, its series are sorted, those that it does not list are
  -- empty, and a prepared order or timeline is the one that a merge gives.
  pub check_lookahead-IsClean :
      (cutoffs : ℕ) (draws : List ℕ)
      → Gives (check_lookahead config program s cutoffs draws) IsClean
  unfolding check_lookahead run_report finish
  check_lookahead-IsClean cutoffs draws =
      let times = distinct_times least_timestamp (events_of s) in
      let log = r.portfolio.trades in
      let chosen = sampled cutoffs times draws (around_fills times log []) in
      let same : steps_of s ≡ times =
        indexed.1 ∙ ap (distinct_times least_timestamp) (sym indexed.0) in
      let started = subst (All (λ t. pos 0 ≤ℤ t)) same (Rising-All (pos 0) (steps_of s) rising) in
      let all_started =
        sampled-All _ cutoffs times draws (around_fills times log []) started
          (around_fills-All _ times log [] started tt) in
      rw returns (
        if_both (λ x. Gives x IsClean) (ltb (length times) 2) (first_report, refl, (refl, refl))
          (check_cutoffs-IsClean first_report chosen all_started (refl, refl)))
