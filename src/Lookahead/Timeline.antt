-- ===== src/Lookahead/Timeline.antt =====
-- The times that a run over a truncated session steps through are those of the whole session, up to
-- the cutoff.
use volforge.Lookahead.Runs.{until_events_keep}
use volforge.Lookahead.Views.{kept_rows-until}
use mathlib.Core.Path.{ap₂}
use volforge.Prelude.{
  ◌≡◌, refl, sym, ap, ◌∙◌, subst, inl, inr, true, false, none, some, List, [], ◌∷◌, map, arith,
  if◌then◌else◌, Option-cases, All, eqb_ℤ,
}
use volforge.Types.{Timestamp, InstrumentId}
use volforge.Market.{SessionData, Event, QuoteColumns}
use volforge.Market.Causality.{IsSorted, until, until_late}
use volforge.Market.Cursor.{
  Run, first_runs, merged, merge_of, run_rows, events_of, distinct_times, least_timestamp, steps_of,
}
use volforge.Market.Merge.{distinct-Ascending, Ascending, RunFrom, InOrder, merged-InOrder}
use volforge.Lookahead.{kept_rows, clip, truncated}
use volforge.Lookahead.Views.{take_of_rows, kept_rows-until, IsValid, truncated-quotes}
use volforge.Lookahead.Runs.{
  clip_runs, until_times, until_events, until_times_keep, until_times_late, until_events_late,
  merged-until, le_or_lt, clip_keep, clip_drop,
}

abbrev times_of : QuoteColumns → List Timestamp
times_of = map (λ q. q.ts)

times_of-until :
    (c : Timestamp) (qs : QuoteColumns) → times_of (until c qs) ≡ until_times c (times_of qs)
times_of-until c [] = refl
times_of-until c (q ∷ qs) = ground (arith, times_of-until c qs)

times_of-Ascending :
    (low : Timestamp) (qs : QuoteColumns) → IsSorted low qs → Ascending low (times_of qs)
times_of-Ascending low [] h = tt
times_of-Ascending low (q ∷ qs) (h, hs) = (h, times_of-Ascending q.ts qs hs)

-- The run of one instrument put before the others.
abbrev pub with_run : InstrumentId → QuoteColumns → List Run → List Run
with_run id [] runs = runs
with_run id (q ∷ qs) runs =
    record { instrument = id; row = 0; ts = q.ts; rest = times_of qs } ∷ runs

pub first_runs-cons :
    (s : SessionData) (id : InstrumentId) (ids : List InstrumentId)
    → first_runs s (id ∷ ids) ≡ with_run id (s.quotes id) (first_runs s ids)
unfolding first_runs
first_runs-cons s id ids =
    elim (s.quotes id)
      as (λ qs.
        elim qs [
          | [] ↦ first_runs s ids
          | q ∷ qs ↦
              record { instrument = id; row = 0; ts = q.ts; rest = times_of qs } ∷ first_runs s ids
        ]
        ≡ with_run id qs (first_runs s ids)) [ [] ↦ refl | q ∷ qs ↦ refl ]

with_run-clip :
    (c low : Timestamp) (id : InstrumentId) (qs : QuoteColumns) (runs : List Run)
    → IsSorted low qs
    → with_run id (until c qs) (clip_runs c runs) ≡ clip_runs c (with_run id qs runs)
with_run-clip c low id [] runs h = refl
with_run-clip c low id (q ∷ qs) runs (h, hs) = elim (le_or_lt q.ts c) [
  | inl kept ↦
      let e : until c (q ∷ qs) ≡ q ∷ until c qs = ground arith in
      ap (λ (x : QuoteColumns). with_run id x (clip_runs c runs)) e
      ∙ (ap
            (λ (x : List Timestamp).
              record { instrument = id; row = 0; ts = q.ts; rest = x } ∷ clip_runs c runs)
            (times_of-until c qs)
          ∙ sym (
              clip_keep c (record { instrument = id; row = 0; ts = q.ts; rest = times_of qs }) runs
                kept))
  | inr late ↦
      ap (λ (x : QuoteColumns). with_run id x (clip_runs c runs))
        (until_late c q.ts (q ∷ qs) (omega arith, hs) late)
      ∙ sym (
          clip_drop c (record { instrument = id; row = 0; ts = q.ts; rest = times_of qs }) runs
            late)
]

module _ (s : SessionData) (c : Timestamp) (v : IsValid s) where
  clip-cons :
      (id : InstrumentId) (ids : List InstrumentId)
      → (clip s c (id ∷ ids)).0
        ≡ elim (kept_rows s c id) [ none ↦ (clip s c ids).0 | some n ↦ id ∷ (clip s c ids).0 ]
  unfolding clip
  clip-cons id ids = ground arith

  first_runs-truncated :
      (ids : List InstrumentId)
      → first_runs (truncated s c) (clip s c ids).0 ≡ clip_runs c (first_runs s ids)
  unfolding first_runs clip clip_runs take_of_rows
  first_runs-truncated [] = refl
  first_runs-truncated (id ∷ ids) =
      let rows = kept_rows-until s c v.low id (v.sorted id) in
      let ih = first_runs-truncated ids in
      let full =
        with_run-clip c v.low id (s.quotes id) (first_runs s ids) (v.sorted id)
        ∙ ap (clip_runs c) (sym (first_runs-cons s id ids)) in
      elim (Option-cases (kept_rows s c id)) [
        | inl e ↦
            let gone : until c (s.quotes id) ≡ [] = sym rows ∙ ap (take_of_rows (s.quotes id)) e in
            let whole : (clip s c (id ∷ ids)).0 ≡ (clip s c ids).0 = clip-cons id ids ∙ rw e refl in
            rw whole
              (ih ∙ (ap (λ x. with_run id x (clip_runs c (first_runs s ids))) (sym gone) ∙ full))
        | inr (n, e) ↦
            let whole : (clip s c (id ∷ ids)).0 ≡ id ∷ (clip s c ids).0 =
              clip-cons id ids ∙ rw e refl in
            ap (first_runs (truncated s c)) whole
            ∙ (first_runs-cons (truncated s c) id (clip s c ids).0
                ∙ (ap₂ (with_run id) (truncated-quotes s c id v) ih ∙ full))
      ]

  with_run-RunFrom :
      (id : InstrumentId) (qs : QuoteColumns) (runs : List Run)
      → IsSorted v.low qs
      → All (RunFrom v.low) runs
      → All (RunFrom v.low) (with_run id qs runs)
  with_run-RunFrom id [] runs h k = k
  with_run-RunFrom id (q ∷ qs) runs (h, hs) k = ((h, times_of-Ascending q.ts qs hs), k)

  pub first_runs-RunFrom : (ids : List InstrumentId) → All (RunFrom v.low) (first_runs s ids)
  unfolding first_runs
  first_runs-RunFrom [] = tt
  first_runs-RunFrom (id ∷ ids) =
      subst (All (RunFrom v.low)) (sym (first_runs-cons s id ids)) (
        with_run-RunFrom id (s.quotes id) (first_runs s ids) (v.sorted id) (first_runs-RunFrom ids))

  merge_of-truncated : merge_of (truncated s c) ≡ until_events c (merge_of s)
  unfolding merge_of truncated
  merge_of-truncated =
      let runs = first_runs s s.instruments in
      let clipped = first_runs-truncated s.instruments in
      ap (λ x. merged (run_rows x) x) clipped
      ∙ merged-until c v.low (run_rows runs) (run_rows (clip_runs c runs)) runs
          (first_runs-RunFrom s.instruments) (omega arith) (omega arith)

  pub merge_of-InOrder : InOrder v.low (merge_of s)
  unfolding merge_of
  merge_of-InOrder =
      let runs = first_runs s s.instruments in
      merged-InOrder (run_rows runs) v.low runs (first_runs-RunFrom s.instruments)

  events_of-truncated : events_of (truncated s c) ≡ until_events c (merge_of s)
  unfolding events_of truncated
  events_of-truncated = merge_of-truncated

distinct-until :
    (c low seen : Timestamp) (es : List Event)
    → InOrder low es
    → distinct_times seen (until_events c es) ≡ until_times c (distinct_times seen es)
unfolding distinct_times
distinct-until c low seen [] h = refl
distinct-until c low seen (e ∷ es) (h, hs) = elim (le_or_lt e.ts c) [
  | inl kept ↦
      let ih = distinct-until c e.ts e.ts es hs in
      ap (distinct_times seen) (until_events_keep c e es kept)
      ∙ (elim (eqb_ℤ e.ts seen)
          as (λ b.
            (if b
              then distinct_times e.ts (until_events c es)
              else e.ts ∷ distinct_times e.ts (until_events c es))
            ≡ until_times c (if b then distinct_times e.ts es else e.ts ∷ distinct_times e.ts es)) [
              | true ↦ ih
              | false ↦
                  ap (λ (x : List Timestamp). e.ts ∷ x) ih
                  ∙ sym (until_times_keep c e.ts (distinct_times e.ts es) kept)
            ])
  | inr late ↦
      let all : InOrder e.ts (e ∷ es) = (omega arith, hs) in
      ap (distinct_times seen) (until_events_late c e.ts (e ∷ es) all late)
      ∙ sym (
          until_times_late c e.ts (distinct_times seen (e ∷ es))
            (distinct-Ascending e.ts seen (e ∷ es) all) late)
]

-- A session whose prepared order and timeline, if it has them, are those that a merge gives.
abbrev pub IsIndexed : SessionData → Type 0
IsIndexed s =
    (events_of s ≡ merge_of s) × (steps_of s ≡ distinct_times least_timestamp (merge_of s))

-- The times that a run over a truncated session steps through are those of the whole session up to
-- the cutoff. Its series are sorted, those that it does not list are empty, and a prepared order or
-- timeline, where the session has one, is the one that a merge gives.
pub steps_of-truncated :
    (s : SessionData) (cutoff : Timestamp)
    → IsValid s
    → IsIndexed s
    → steps_of (truncated s cutoff) ≡ until_times cutoff (steps_of s)
unfolding steps_of truncated
steps_of-truncated s cutoff v indexed =
    ap (distinct_times least_timestamp) (events_of-truncated s cutoff v)
    ∙ (distinct-until cutoff v.low least_timestamp (merge_of s) (merge_of-InOrder s cutoff v)
        ∙ sym (ap (until_times cutoff) indexed.1))
