-- ===== src/Lookahead.antt =====
-- A session clipped at a cutoff: `TruncatedSession` of cpp/core/include/volforge/lookahead.hpp and
-- cpp/core/src/lookahead.cpp.
pub mod Views
pub mod Runs
pub mod Timeline
pub mod Replay
pub mod Detector
pub mod Clean
pub mod Logs
pub mod Exact
pub mod SessionBars
use volforge.Prelude.{
  ℕ, zero, suc, ◌+◌, ◌-◌, ◌*◌, ◌/◌, ◌%◌, ◌^◌, ◌≤◌, ◌<◌, ◌≡◌, refl, sym, ap, ◌∙◌, subst, ◌≢◌, ◌↔◌,
  ◌⊎◌, inl, inr, Bool, true, false, not, ◌&&◌, ◌||◌, Option, none, some, List, [], ◌∷◌, ◌++◌, map,
  arith, ltb, leb, ◌==◌, if◌then◌else◌, ltb→lt, leb→le, ==_iff, Bool-cases, Option-cases, length,
  get_elem?, set, take, filter_by, All, length-append, All-append, All-left, All-right, All-map,
  length-set, get_elem?-set_self, get_elem?-set_ne, get_elem?-All, ℤ, pos, negsuc, pos_part,
  neg_part, sub_ℕ, ◌+ℤ◌, ◌-ℤ◌, ◌*ℤ◌, neg, abs, ◌≤ℤ◌, ◌<ℤ◌, ltb_ℤ, leb_ℤ, eqb_ℤ, max_ℤ, min_ℤ, div_ℤ,
  +ℤ_parts, -ℤ_parts, neg_parts, eq_of_parts, eqb_ℤ_iff, eqb_ℤ_refl, int_laws, parts_of_eq, Error,
  Result, ok, err, ◌>>=◌, ◌>>◌, throw_if, or_throw, Result-cases, ok-injective, bind_ok, Safe,
  Safe-bind, Safe-map, Safe_of_ok, throw_if-Safe, is_fault, get_elem?-lt, get_elem?-append_left,
  get_elem?-snoc, get_elem?-snoc_cases,
}
use volforge.Types.{Timestamp, InstrumentId}
use volforge.Market.{SessionData, QuoteColumns, index_at_or_before}

-- The number of rows that the constructor keeps of an instrument; `none` if it keeps no entry.
unfoldable pub kept_rows : SessionData → Timestamp → InstrumentId → Option ℕ
kept_rows inner cutoff id = elim (index_at_or_before (inner.quotes id) cutoff) [
  | none ↦ none
  | some idx ↦ some (idx + 1)
]

-- The constructor's loop: `kept_`, `counts_` and `total_`.
unfoldable pub clip :
    SessionData → Timestamp → List InstrumentId → List InstrumentId × List (InstrumentId × ℕ) × ℕ
clip inner cutoff [] = ([], [], 0)
clip inner cutoff (id ∷ ids) =
    let (kept, counts, total) = clip inner cutoff ids in
    elim (kept_rows inner cutoff id) [
      | none ↦ (kept, counts, total)
      | some n ↦ (id ∷ kept, (id, n) ∷ counts, n + total)
    ]

unfoldable pub find_count : InstrumentId → List (InstrumentId × ℕ) → Option ℕ
find_count id [] = none
find_count id ((j, n) ∷ m) = if eqb_ℤ j id then some n else find_count id m

-- `TruncatedSession::quotes`: each column's first `n` rows.
unfoldable pub clipped_quotes : SessionData → List (InstrumentId × ℕ) → InstrumentId → QuoteColumns
clipped_quotes inner counts id = elim (find_count id counts) [
  | none ↦ []
  | some n ↦ take n (inner.quotes id)
]

unfoldable pub truncated : SessionData → Timestamp → SessionData
truncated inner cutoff =
    let (kept, counts, total) = clip inner cutoff inner.instruments in
    record {
      date = inner.date;
      registry = inner.registry;
      instruments = kept;
      quotes = clipped_quotes inner counts;
      total_observations = total;
      event_order = [];
      timeline = [];
    }
