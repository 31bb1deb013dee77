-- ===== src/Memory.antt =====
-- A session kept in memory: cpp/core/include/volforge/memory_source.hpp and
-- cpp/core/src/memory_source.cpp. The columns of a series are one list of quotes. The map of the
-- series is a list in the order of insertion: what its order shows in is only `build_event_order`,
-- which sorts.
pub mod Order
pub mod Index
pub mod Series
pub mod Session
pub mod Source
pub mod Backtest
use volforge.Prelude.{
  ℕ, zero, suc, ◌+◌, ◌-◌, ◌*◌, ◌/◌, ◌%◌, ◌^◌, ◌≤◌, ◌<◌, ◌≡◌, refl, sym, ap, ◌∙◌, subst, ◌≢◌, ◌↔◌,
  ◌⊎◌, inl, inr, Bool, true, false, not, ◌&&◌, ◌||◌, Option, none, some, List, [], ◌∷◌, ◌++◌, map,
  arith, ltb, leb, ◌==◌, if◌then◌else◌, ltb→lt, leb→le, ==_iff, Bool-cases, Option-cases, length,
  get_elem?, set, take, filter_by, All, length-append, All-append, All-left, All-right, All-map,
  length-set, get_elem?-set_self, get_elem?-set_ne, get_elem?-All, ℤ, pos, negsuc, pos_part,
  neg_part, sub_ℕ, ◌+ℤ◌, ◌-ℤ◌, ◌*ℤ◌, neg, abs, ◌≤ℤ◌, ◌<ℤ◌, ltb_ℤ, leb_ℤ, eqb_ℤ, max_ℤ, min_ℤ, div_ℤ,
  +ℤ_parts, -ℤ_parts, neg_parts, eq_of_parts, eqb_ℤ_iff, eqb_ℤ_refl, int_laws, parts_of_eq, Error,
  Result, ok, err, ◌>>=◌, ◌>>◌, throw_if, or_throw, Result-cases, ok-injective, bind_ok, Safe,
  Safe-bind, Safe-map, Safe_of_ok, throw_if-Safe, is_fault, get_elem?-lt, get_elem?-append_left,
  get_elem?-snoc, get_elem?-snoc_cases, Returns, Returns-bind, Returns-then, Returns-map,
  Returns_of_ok, is_ok, returned, if_both,
}
use volforge.Types.{Date, Timestamp, InstrumentId}
use volforge.Instrument.{InstrumentRegistry}
use volforge.Market.{Quote, QuoteColumns, SessionData, Event}

abbrev pub SeriesMap : Type 0
SeriesMap = List (InstrumentId × QuoteColumns)

pub record MemorySession : Type 0 where
  pub date : Date
  pub registry : InstrumentRegistry
  pub series : SeriesMap
  pub instruments : List InstrumentId
  pub order : List Event
  pub timeline : List Timestamp
  pub total : ℕ

abbrev pub new_session : Date → InstrumentRegistry → MemorySession
new_session date registry = record {
  date = date;
  registry = registry;
  series = [];
  instruments = [];
  order = [];
  timeline = [];
  total = 0;
}

-- Whether an observation at `t` goes back behind the last one.
unfoldable pub goes_back_in : Timestamp → QuoteColumns → Bool
goes_back_in t [] = false
goes_back_in t (q ∷ qs) = elim qs [ [] ↦ ltb_ℤ t q.ts | _ ∷ _ ↦ goes_back_in t qs ]

unfoldable pub has_series : InstrumentId → SeriesMap → Bool
has_series id [] = false
has_series id ((j, qs) ∷ m) = eqb_ℤ j id || has_series id m

-- `quotes`.
unfoldable pub series_of : InstrumentId → SeriesMap → QuoteColumns
series_of id [] = []
series_of id ((j, qs) ∷ m) = let rest = series_of id m in if eqb_ℤ j id then qs else rest

-- The map with an observation more, in the series of `id`, which is new where there is none.
unfoldable pub pushed : InstrumentId → Quote → SeriesMap → SeriesMap
pushed id q [] = (id, q ∷ []) ∷ []
pushed id q ((j, qs) ∷ m) =
    let rest = pushed id q m in if eqb_ℤ j id then (j, qs ++ (q ∷ [])) ∷ m else (j, qs) ∷ rest

-- `append`, with `series_for`. No series is new if it throws, so that it changes nothing then.
unfoldable pub append : MemorySession → InstrumentId → Quote → Result MemorySession
append s id q = do
  throw_if (goes_back_in q.ts (series_of id s.series)) Error.invalid_argument
  ok (record s {
    series = pushed id q s.series;
    instruments = if has_series id s.series then s.instruments else s.instruments ++ (id ∷ []);
    order = [];
    timeline = [];
    total = s.total + 1;
  })

-- The order of `build_event_order`.
unfoldable pub earlier : Event → Event → Bool
earlier a b =
    if not (eqb_ℤ a.ts b.ts)
    then ltb_ℤ a.ts b.ts
    else if not (eqb_ℤ a.instrument b.instrument)
    then ltb_ℤ a.instrument b.instrument
    else ltb a.row b.row

unfoldable pub insert_event : Event → List Event → List Event
insert_event e [] = e ∷ []
insert_event e (x ∷ xs) =
    let rest = insert_event e xs in if earlier x e then x ∷ rest else e ∷ x ∷ xs

-- `std::sort`: by insertion, since the result of sorting by a total order is determined.
unfoldable pub insert_all : List Event → List Event → List Event
insert_all [] sorted = sorted
insert_all (e ∷ es) sorted = insert_event e (insert_all es sorted)

-- The rows of one series, from row `k` on.
unfoldable pub row_events : InstrumentId → ℕ → List Timestamp → List Event
row_events id k [] = []
row_events id k (t ∷ ts) = record { ts = t; instrument = id; row = k } ∷ row_events id (k + 1) ts

unfoldable pub all_rows : SeriesMap → List Event
all_rows [] = []
all_rows ((id, qs) ∷ m) = row_events id 0 (map (λ (q : Quote). q.ts) qs) ++ all_rows m

-- The times of a sorted list of events, each once; `last` is `timeline_.back()`.
unfoldable pub collapse : Option Timestamp → List Event → List Timestamp
collapse last [] = []
collapse last (e ∷ es) =
    let rest = collapse (some e.ts) es in
    let repeats : Bool = elim last [ none ↦ false | some t ↦ eqb_ℤ t e.ts ] in
    if repeats then rest else e.ts ∷ rest

-- `build_event_order`.
unfoldable pub build_event_order : MemorySession → MemorySession
build_event_order s =
    let order = insert_all (all_rows s.series) [] in
    record s { order = order; timeline = collapse none order }

-- The interface `SessionData`, as the class implements it.
unfoldable pub session_data : MemorySession → SessionData
session_data s = record {
  date = s.date;
  registry = s.registry;
  instruments = s.instruments;
  quotes = λ id. series_of id s.series;
  total_observations = s.total;
  event_order = s.order;
  timeline = s.timeline;
}
