-- ===== src/Memory/Backtest.antt =====
-- A backtest over a source in memory: `MemoryDataSource` as a `DataSource`.
use volforge.Prelude.{
  ◌≡◌, refl, ap, ◌∙◌, inl, inr, Bool, true, false, Option, none, some, List, [], ◌∷◌, map, arith,
  Bool-cases, filter_by, All, All-map, ltb_ℤ, eqb_ℤ, eqb_ℤ_refl, Returns, Returns-map,
}
use volforge.Types.{Date}
use volforge.Market.{SessionData}
use volforge.Double.{Double}
use volforge.Strategy.{Strategy}
use volforge.Backtest.{DataSource, BacktestConfig, dates_or, is_sorted, run_backtest}
use volforge.Backtest.Report.{loads, run_backtest-Reports}
use volforge.Memory.{MemorySession, session_data}
use volforge.Memory.Source.{MemorySource, sessions, load, find_session, IsRising}

abbrev pub data_source : MemorySource → DataSource
data_source source = record {
  sessions = sessions source;
  load = λ date. elim (load source date) [ none ↦ none | some s ↦ some (session_data s) ];
}

abbrev pub found : List (Date × MemorySession) → Date → Bool
found m date = elim (find_session date m) [ none ↦ false | some _ ↦ true ]

filter_by-all : (p : Date → Bool) (ds : List Date) → All (λ d. p d ≡ true) ds → filter_by p ds ≡ ds
filter_by-all p [] a = refl
filter_by-all p (d ∷ ds) (a, as') = rw a (ap (λ (xs : List Date). d ∷ xs) (filter_by-all p ds as'))

found-later :
    (e : Date) (t : MemorySession) (m : List (Date × MemorySession)) (d : Date)
    → found m d ≡ true
    → found ((e, t) ∷ m) d ≡ true
unfolding find_session
found-later e t m d h = elim (Bool-cases (eqb_ℤ e d)) [
  | inl x ↦ rw (found, x) refl
  | inr x ↦ rw (found, x) h
]

-- Each date of the map is found in it.
all_found : (m : List (Date × MemorySession)) → All (λ d. found m d ≡ true) (map (λ e. e.0) m)
unfolding find_session
all_found [] = tt
all_found ((e, t) ∷ m) = (
  rw (found, eqb_ℤ_refl e) refl,
  All-map _ _ (found-later e t m) (map (λ x. x.0) m) (all_found m),
)

found-loads :
    (source : MemorySource) (d : Date)
    → found source.by_date d ≡ true
    → loads (data_source source) d ≡ true
unfolding load
found-loads source d h = go (find_session d source.by_date) h
  where
    go :
        (o : Option MemorySession)
        → elim o [ none ↦ false | some _ ↦ true ] ≡ true
        → elim (elim o as (λ _. Option SessionData) [
          | none ↦ none
          | some s ↦ some (session_data s)
        ]) [ none ↦ false | some _ ↦ true ]
          ≡ true
    go none h = h
    go (some s) h = refl

rising-is_sorted : (ds : List Date) → IsRising ds → is_sorted ds ≡ true
rising-is_sorted [] h = refl
rising-is_sorted (d ∷ []) h = refl
rising-is_sorted (d ∷ e ∷ es) ((h, _), hs) =
    let apart : ltb_ℤ e d ≡ false = ground arith in rw apart (rising-is_sorted (e ∷ es) hs)

-- A source in memory whose dates ascend is one that a backtest accepts, and a backtest that is asked
-- for no dates and returns has traded every session of the source, in their order.
pub run_backtest-all_sessions :
    {F : Type 0} ⦃d : Double F⦄ {S : Type 0} (config : BacktestConfig F)
    → (strategy : Date → Strategy F S) (source : MemorySource) → IsRising (sessions source)
    → (is_sorted (sessions source) ≡ true)
      × Returns
          (run_backtest config strategy (data_source source) [])
          (λ r. r.sessions ≡ sessions source)
unfolding sessions
run_backtest-all_sessions config strategy source h =
    let dates = map (λ e. e.0) source.by_date in
    let all : All (λ d. loads (data_source source) d ≡ true) dates =
      All-map _ _ (found-loads source) dates (all_found source.by_date) in
    (
      rising-is_sorted dates h,
      Returns-map _ _ (run_backtest config strategy (data_source source) [])
          (λ r reports. reports.sessions ∙ sorted_dates dates all)
          (run_backtest-Reports config strategy (data_source source) []),
    )
  where
    sorted_dates :
        (ds : List Date)
        → All (λ d. loads (data_source source) d ≡ true) ds
        → filter_by (loads (data_source source)) (dates_or ds []) ≡ ds
    sorted_dates ds a = filter_by-all (loads (data_source source)) ds a
