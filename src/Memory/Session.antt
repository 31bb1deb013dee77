-- ===== src/Memory/Session.antt =====
-- A consistent session in memory is one that a run, and the detector, can be given.
use volforge.Prelude.{
  ◌≡◌, refl, sym, ap, ◌∙◌, subst, ◌≢◌, ◌⊎◌, inl, inr, false, none, some, List, [], ◌∷◌, map, arith,
  Bool-cases, All, pos, ◌≤ℤ◌, ◌<ℤ◌, eqb_ℤ, eqb_ℤ_iff,
}
use volforge.Types.{Timestamp, InstrumentId}
use volforge.Market.{Quote, QuoteColumns, SessionData, Event}
use volforge.Market.Cursor.{
  Run, first_runs, merge_of, run_rows, events_of, distinct_times, least_timestamp, steps_of,
}
use volforge.Market.Merge.{InOrder}
use volforge.Lookahead.{find_count}
use volforge.Lookahead.Views.{IsValid}
use volforge.Lookahead.Timeline.{
  IsIndexed, first_runs-RunFrom, first_runs-cons, with_run, merge_of-InOrder,
}
use volforge.Memory.{
  MemorySession, SeriesMap, series_of, insert_all, all_rows, row_events, collapse,
  build_event_order, session_data,
}
use volforge.Memory.Order.{insert_all-append}
use volforge.Memory.Index.{Separate, sorted_runs, merged-sorted}
use volforge.Memory.Series.{key, Distinct, IsConsistent, series_same, series_other, series_of-All}

unlisted :
    (id : InstrumentId) (m : SeriesMap)
    → find_count id (map (λ i. (i, 0)) (map key m)) ≡ none
    → series_of id m ≡ []
unfolding find_count series_of
unlisted id [] h = refl
unlisted id ((j, qs) ∷ m) h = elim (Bool-cases (eqb_ℤ j id)) [
  | inl e ↦ cc
  | inr e ↦ rw e (unlisted id m (rw e at h))
]

-- The bound on the times is one for the session that a run reads.
pub session_data-IsValid :
    (low : Timestamp) (s : MemorySession)
    → IsConsistent low s
    → (w : IsValid (session_data s)) × (w.low ≡ low)
unfolding session_data
session_data-IsValid low s v = (
  record {
    low = low;
    sorted = λ id. series_of-All low id s.series v.sorted;
    listed = λ id h.
        unlisted id s.series
          (subst (λ ids. find_count id (map (λ i. (i, 0)) ids) ≡ none) v.listed h);
  },
  refl,
)

-- Each series is found under its own instrument.
found_later :
    (j : InstrumentId) (qs : QuoteColumns) (m n : SeriesMap)
    → All (λ e. series_of (key e) n ≡ e.1) m
    → All (λ i. i ≢ j) (map key m)
    → All (λ e. series_of (key e) ((j, qs) ∷ n) ≡ e.1) m
found_later j qs [] n h k = tt
found_later j qs (e ∷ m) n (h, hs) (k, ks) =
    (series_other (key e) j qs n (λ same. k (sym same)) ∙ h, found_later j qs m n hs ks)

found : (m : SeriesMap) → Distinct (map key m) → All (λ e. series_of (key e) m ≡ e.1) m
found [] d = tt
found ((j, qs) ∷ m) (d, ds) = (series_same j qs m, found_later j qs m m (found m ds) d)

abbrev ApartFrom : InstrumentId → List Run → Type 0
ApartFrom y = All (λ x. x.instrument ≢ y)

with_run-Apart :
    (y : InstrumentId) (id : InstrumentId) (qs : QuoteColumns) (runs : List Run)
    → id ≢ y
    → ApartFrom y runs
    → ApartFrom y (with_run id qs runs)
with_run-Apart y id [] runs h k = k
with_run-Apart y id (q ∷ qs) runs h k = (h, k)

first_runs-Apart :
    (s : SessionData) (y : InstrumentId) (ids : List InstrumentId)
    → All (λ j. j ≢ y) ids
    → ApartFrom y (first_runs s ids)
unfolding first_runs
first_runs-Apart s y [] h = tt
first_runs-Apart s y (id ∷ ids) (h, hs) =
    subst (ApartFrom y) (sym (first_runs-cons s id ids))
      (with_run-Apart y id (s.quotes id) (first_runs s ids) h (first_runs-Apart s y ids hs))

first_runs-Separate :
    (s : SessionData) (ids : List InstrumentId) → Distinct ids → Separate (first_runs s ids)
unfolding first_runs
first_runs-Separate s [] d = tt
first_runs-Separate s (id ∷ ids) (d, ds) =
    subst Separate (sym (first_runs-cons s id ids))
      (elim (s.quotes id) as (λ qs. Separate (with_run id qs (first_runs s ids))) [
        | [] ↦ first_runs-Separate s ids ds
        | q ∷ qs ↦ (first_runs-Apart s id ids d, first_runs-Separate s ids ds)
      ])

with_run-rows :
    (id : InstrumentId) (qs : QuoteColumns) (runs : List Run)
    → sorted_runs (with_run id qs runs)
      ≡ insert_all (row_events id 0 (map (λ (q : Quote). q.ts) qs)) (sorted_runs runs)
unfolding sorted_runs row_events insert_all
with_run-rows id [] runs = refl
with_run-rows id (q ∷ qs) runs = refl

-- The runs of a session hold the rows of its series.
first_runs-rows :
    (s : SessionData) (m : SeriesMap)
    → All (λ e. s.quotes (key e) ≡ e.1) m
    → sorted_runs (first_runs s (map key m)) ≡ insert_all (all_rows m) []
unfolding first_runs sorted_runs insert_all all_rows
first_runs-rows s [] h = refl
first_runs-rows s ((id, qs) ∷ m) (h, hs) =
    let times = map (λ (q : Quote). q.ts) qs in
    ap sorted_runs (first_runs-cons s id (map key m))
    ∙ (ap (λ x. sorted_runs (with_run id x (first_runs s (map key m)))) h
        ∙ (with_run-rows id qs (first_runs s (map key m))
            ∙ (ap (insert_all (row_events id 0 times)) (first_runs-rows s m hs)
                ∙ sym (insert_all-append (row_events id 0 times) (all_rows m) []))))

pub merge_of-rows :
    (low : Timestamp) (s : MemorySession)
    → IsConsistent low s
    → merge_of (session_data s) ≡ insert_all (all_rows s.series) []
unfolding merge_of session_data
merge_of-rows low s v =
    let sd = session_data s in
    let runs = first_runs sd s.instruments in
    let (valid, bound) = session_data-IsValid low s v in
    let listed = v.listed in
    merged-sorted (run_rows runs) valid.low runs (first_runs-RunFrom sd low valid s.instruments)
      (first_runs-Separate sd s.instruments (subst Distinct (sym listed) v.distinct)) (omega arith)
    ∙ (ap (λ ids. sorted_runs (first_runs sd ids)) listed
        ∙ first_runs-rows sd s.series (found s.series v.distinct))

collapse-distinct :
    (seen : Timestamp) (es : List Event) → collapse (some seen) es ≡ distinct_times seen es
unfolding collapse distinct_times
collapse-distinct seen [] = refl
collapse-distinct seen (e ∷ es) =
    ground (arith, collapse-distinct e.ts es, eqb_ℤ_iff seen e.ts, eqb_ℤ_iff e.ts seen)

later-differs : (a low t : Timestamp) → a <ℤ low → low ≤ℤ t → eqb_ℤ t a ≡ false
later-differs a low t h k = ground arith

collapse-first :
    (low : Timestamp) (es : List Event)
    → least_timestamp <ℤ low
    → InOrder low es
    → collapse none es ≡ distinct_times least_timestamp es
unfolding collapse distinct_times
collapse-first low [] h k = refl
collapse-first low (e ∷ es) h (k, _) =
    let new : eqb_ℤ e.ts least_timestamp ≡ false = later-differs least_timestamp low e.ts h k in
    rw new (ap (λ (ts : List Timestamp). e.ts ∷ ts) (collapse-distinct e.ts es))

-- What a cursor reads: the prepared list, if it is not empty, and what it derives otherwise.
prepared :
    {A : Type 0} (xs ys : List A)
    → (xs ≡ []) ⊎ (xs ≡ ys)
    → elim xs [ [] ↦ ys | x ∷ xs' ↦ x ∷ xs' ] ≡ ys
prepared [] ys h = refl
prepared (x ∷ xs) ys (inl h) = cc
prepared (x ∷ xs) ys (inr h) = h

module _ (low : Timestamp) (s : MemorySession) (h : least_timestamp <ℤ low) where
  events_of-merge : IsConsistent low s → events_of (session_data s) ≡ merge_of (session_data s)
  unfolding events_of session_data
  events_of-merge v =
      prepared s.order (merge_of (session_data s))
        (elim v.current [ inl (e, _) ↦ inl e | inr (e, _) ↦ inr (e ∙ sym (merge_of-rows low s v)) ])

  steps_of-merge :
      IsConsistent low s
      → steps_of (session_data s) ≡ distinct_times least_timestamp (merge_of (session_data s))
  unfolding steps_of session_data
  steps_of-merge v =
      let sd = session_data s in
      let (valid, bound) = session_data-IsValid low s v in
      let events = events_of-merge v in
      let times = distinct_times least_timestamp (events_of sd) in
      prepared s.timeline times (elim v.current [
        | inl (_, e) ↦ inl e
        | inr (o, e) ↦
            let order = o ∙ sym (merge_of-rows low s v) in
            let rising = merge_of-InOrder sd (pos 0) valid in
            inr (
              e
              ∙ (ap (collapse none) order
                  ∙ (collapse-first valid.low (merge_of sd)
                        (subst (λ x. least_timestamp <ℤ x) (sym bound) h) rising
                      ∙ ap (distinct_times least_timestamp) (sym events))))
      ])
      ∙ ap (distinct_times least_timestamp) events

  -- A consistent session, whether its index has been built or not, is one whose prepared order and
  -- timeline are those that a merge gives, if its times are after the least.
  pub session_data-IsIndexed : IsConsistent low s → IsIndexed (session_data s)
  session_data-IsIndexed v = (events_of-merge v, steps_of-merge v)

pub build_event_order-IsConsistent :
    (low : Timestamp) (s : MemorySession)
    → IsConsistent low s
    → IsConsistent low (build_event_order s)
unfolding build_event_order
build_event_order-IsConsistent low s v = record {
  sorted = v.sorted;
  distinct = v.distinct;
  listed = v.listed;
  current = inr (refl, refl);
  counted = v.counted;
}

-- Building the index of a consistent session changes neither the events that a cursor emits nor the
-- times that a run steps through, if the times are after the least.
pub build_event_order-same :
    (low : Timestamp) (s : MemorySession)
    → least_timestamp <ℤ low
    → IsConsistent low s
    → (events_of (session_data (build_event_order s)) ≡ events_of (session_data s))
      × (steps_of (session_data (build_event_order s)) ≡ steps_of (session_data s))
unfolding build_event_order
build_event_order-same low s h v =
    let kept = build_event_order-IsConsistent low s v in
    let built = session_data-IsIndexed low (build_event_order s) h kept in
    let plain = session_data-IsIndexed low s h v in
    let e = merge_of-rows low (build_event_order s) kept ∙ sym (merge_of-rows low s v) in
    (built.0 ∙ (e ∙ sym plain.0), built.1 ∙ (ap (distinct_times least_timestamp) e ∙ sym plain.1))
