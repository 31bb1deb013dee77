-- ===== src/Market/Cursor.antt =====
-- The merged time order: `EventCursor` of cpp/core/src/data_source.cpp, and the loops of
-- cpp/core/src/event_loop.cpp that derive the distinct times from it.
use volforge.Prelude.{
  ℕ, zero, suc, ◌+◌, ◌-◌, ◌^◌, Bool, not, Option, none, some, List, [], ◌∷◌, map, if◌then◌else◌,
  length, negsuc, ltb_ℤ, eqb_ℤ,
}
use volforge.Types.{Timestamp, InstrumentId}
use volforge.Market.{SessionData, Event}

-- A run of the merge: its head, and the rows that are left of its instrument, the head among them.
pub record Run : Type 0 where
  pub instrument : InstrumentId
  pub row : ℕ
  pub ts : Timestamp
  pub rest : List Timestamp

-- `RunGreater` turned round: earlier, or as early and of the lower instrument.
abbrev pub before : Run → Run → Bool
before a b = if not (eqb_ℤ a.ts b.ts) then ltb_ℤ a.ts b.ts else ltb_ℤ a.instrument b.instrument

-- The runs of the instruments that have printed.
unfoldable pub first_runs : SessionData → List InstrumentId → List Run
first_runs s [] = []
first_runs s (id ∷ ids) =
    let runs = first_runs s ids in
    elim (s.quotes id) [
      | [] ↦ runs
      | q ∷ qs ↦ record { instrument = id; row = 0; ts = q.ts; rest = map (λ x. x.ts) qs } ∷ runs
    ]

-- `std::pop_heap`: the least run, and the others.
unfoldable pub pop_min : Run → List Run → Run × List Run
pop_min r [] = (r, [])
pop_min r (x ∷ xs) =
    let (least, others) = pop_min x xs in
    if before least r then (least, r ∷ others) else (r, x ∷ xs)

unfoldable pub advance : Run → List Timestamp → List Run → List Run
advance r [] others = others
advance r (t ∷ ts) others = record r { row = r.row + 1; ts = t; rest = ts } ∷ others

abbrev pub head_event : Run → Event
head_event r = record { ts = r.ts; instrument = r.instrument; row = r.row }

-- One call of `next` on the merge path.
unfoldable pub next : List Run → Option (Event × List Run)
next [] = none
next (r ∷ rs) =
    let (least, others) = pop_min r rs in some (head_event least, advance least least.rest others)

-- The events of a merge, for as many calls of `next` as there is fuel.
unfoldable pub merged : ℕ → List Run → List Event
merged zero runs = []
merged (suc n) runs = elim (next runs) [ none ↦ [] | some (e, runs') ↦ e ∷ merged n runs' ]

unfoldable pub run_rows : List Run → ℕ
run_rows [] = 0
run_rows (r ∷ rs) = suc (length r.rest) + run_rows rs

-- The merge of a session's series. Each call of `next` takes one row, so the rows are fuel enough.
unfoldable pub merge_of : SessionData → List Event
merge_of s = let runs = first_runs s s.instruments in merged (run_rows runs) runs

-- All that a cursor emits.
unfoldable pub events_of : SessionData → List Event
events_of s = elim s.event_order [ [] ↦ merge_of s | e ∷ es ↦ e ∷ es ]

-- Skipping what repeats the time before it; `seen` starts at the least timestamp.
unfoldable pub distinct_times : Timestamp → List Event → List Timestamp
distinct_times seen [] = []
distinct_times seen (e ∷ es) =
    let rest = distinct_times e.ts es in if eqb_ℤ e.ts seen then rest else e.ts ∷ rest

abbrev pub least_timestamp : Timestamp
least_timestamp = negsuc (2 ^ 63 - 1)

-- The times that a run steps through, and the rows that it counts.
unfoldable pub steps_of : SessionData → List Timestamp
steps_of s = elim s.timeline [ [] ↦ distinct_times least_timestamp (events_of s) | t ∷ ts ↦ t ∷ ts ]

unfoldable pub observations_of : SessionData → ℕ
observations_of s = elim s.timeline [ [] ↦ length (events_of s) | _ ∷ _ ↦ s.total_observations ]
