-- ===== src/Examples/Sessions.antt =====
-- Sessions in memory: two interleaved series.
use volforge.Prelude.{◌≡◌, refl, inl, some, List, [], ◌∷◌, arith, if◌then◌else◌, pos, eqb_ℤ, Safe}
use volforge.Market.Cursor.{Run, merged, run_rows, events_of, steps_of}
use volforge.Lookahead.Timeline.{IsIndexed}
use volforge.Memory.{MemorySession, append, build_event_order, session_data}
use volforge.Memory.Index.{sorted_runs, merged-sorted}
use volforge.Memory.Series.{IsConsistent, Appends, append-Appends, rows_in}
use volforge.Memory.Session.{session_data-IsIndexed, build_event_order-same}
use volforge.Memory.Source.{MemorySource, add_session, sessions, load, IsRising, add_session_lem}
use volforge.Examples.{day, quoted, registry}

abbrev interleaved : MemorySession
interleaved = record {
  date = pos 20240102;
  registry = registry;
  series =
      (pos 1, day)
      ∷ (
        pos 0,
        quoted (pos 15) (pos 100) (pos 90) (pos 110)
            ∷ quoted (pos 20) (pos 100) (pos 90) (pos 110)
            ∷ [],
      )
      ∷ [];
  instruments = pos 1 ∷ pos 0 ∷ [];
  order = [];
  timeline = [];
  total = 7;
}

interleaved-IsConsistent : IsConsistent (pos 1) interleaved
unfolding rows_in
interleaved-IsConsistent = record {
  sorted = (
    (omega arith, (omega arith, (omega arith, (omega arith, (omega arith, tt))))),
    ((omega arith, (omega arith, tt)), tt),
  );
  distinct = (((λ e. cc), tt), (tt, tt));
  listed = refl;
  current = inl (refl, refl);
  counted = refl;
}

append-Appends_example :
    Appends
      (pos 1)
      interleaved
      (pos 0)
      (quoted (pos 25) (pos 100) (pos 90) (pos 110))
      (pos 1)
      (append interleaved (pos 0) (quoted (pos 25) (pos 100) (pos 90) (pos 110)))
append-Appends_example =
    append-Appends (pos 1) interleaved (pos 0) (quoted (pos 25) (pos 100) (pos 90) (pos 110))
      (pos 1) interleaved-IsConsistent (omega arith)

session_data-IsIndexed_example : IsIndexed (session_data interleaved)
session_data-IsIndexed_example =
    session_data-IsIndexed (pos 1) interleaved (omega arith) interleaved-IsConsistent

build_event_order-same_example :
    (events_of (session_data (build_event_order interleaved))
      ≡ events_of (session_data interleaved))
    × (steps_of (session_data (build_event_order interleaved))
        ≡ steps_of (session_data interleaved))
build_event_order-same_example =
    build_event_order-same (pos 1) interleaved (omega arith) interleaved-IsConsistent

abbrev two_runs : List Run
two_runs =
    record { instrument = pos 1; row = 0; ts = pos 10; rest = pos 20 ∷ pos 20 ∷ [] }
    ∷ record { instrument = pos 0; row = 0; ts = pos 20; rest = pos 30 ∷ [] }
    ∷ []

merged-sorted_example : merged 5 two_runs ≡ sorted_runs two_runs
unfolding run_rows
merged-sorted_example =
    merged-sorted 5 (pos 10) two_runs
      ((omega arith, (omega arith, (omega arith, tt))), ((omega arith, (omega arith, tt)), tt))
      (((λ e. cc), tt), (tt, tt)) (omega arith)

abbrev one_day : MemorySource
one_day = record { registry = registry; by_date = (pos 20240103, interleaved) ∷ [] }

add_session_lem_example : Safe (add_session one_day (some interleaved)) λ source.
    IsRising (sessions source)
    × (load source (pos 20240102) ≡ (
        if eqb_ℤ interleaved.date (pos 20240102)
        then some interleaved
        else load one_day (pos 20240102)))
unfolding sessions
add_session_lem_example = add_session_lem one_day interleaved (pos 20240102) (tt, tt)
