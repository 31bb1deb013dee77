-- ===== src/Market.antt =====
-- The market as a strategy and the engine see it: cpp/core/include/volforge/quotes.hpp,
-- cpp/core/src/quotes.cpp, and the clock, the session and the view of
-- cpp/core/include/volforge/data_source.hpp and cpp/core/src/data_source.cpp.
-- The eight columns of `QuoteColumns` have one length, and are one list of quotes here.
pub mod Causality
pub mod Cursor
pub mod Merge
use volforge.Prelude.{
  ℕ, zero, suc, ◌+◌, ◌-◌, ◌*◌, ◌/◌, ◌%◌, ◌^◌, ◌≤◌, ◌<◌, ◌≡◌, refl, sym, ap, ◌∙◌, subst, ◌≢◌, ◌↔◌,
  ◌⊎◌, inl, inr, Bool, true, false, not, ◌&&◌, ◌||◌, Option, none, some, List, [], ◌∷◌, ◌++◌, map,
  arith, ltb, leb, ◌==◌, if◌then◌else◌, ltb→lt, leb→le, ==_iff, Bool-cases, Option-cases, length,
  get_elem?, set, take, filter_by, All, length-append, All-append, All-left, All-right, All-map,
  length-set, get_elem?-set_self, get_elem?-set_ne, get_elem?-All, ℤ, pos, negsuc, pos_part,
  neg_part, sub_ℕ, ◌+ℤ◌, ◌-ℤ◌, ◌*ℤ◌, neg, abs, ◌≤ℤ◌, ◌<ℤ◌, ltb_ℤ, leb_ℤ, eqb_ℤ, max_ℤ, min_ℤ, div_ℤ,
  +ℤ_parts, -ℤ_parts, neg_parts, eq_of_parts, eqb_ℤ_iff, eqb_ℤ_refl, int_laws, parts_of_eq, Error,
  Result, ok, err, ◌>>=◌, ◌>>◌, throw_if, or_throw, Result-cases, ok-injective, bind_ok, Safe,
  Safe-bind, Safe-map, Safe_of_ok, throw_if-Safe, is_fault, get_elem?-lt, get_elem?-append_left,
  get_elem?-snoc, get_elem?-snoc_cases,
}
use volforge.Types.{Timestamp, Date, Price, Qty, InstrumentId}
use volforge.Instrument.{InstrumentRegistry}

pub record Quote : Type 0 where
  pub ts : Timestamp
  pub last : Price
  pub bid : Price
  pub ask : Price
  pub bid_qty : Qty
  pub ask_qty : Qty
  pub last_qty : Qty
  pub open_interest : ℤ

-- `Quote::two_sided`.
abbrev pub two_sided : Quote → Bool
two_sided q = ltb_ℤ (pos 0) q.bid && ltb_ℤ (pos 0) q.ask

unfoldable pub spread : Quote → Price
spread q = q.ask -ℤ q.bid

-- Rounded towards zero.
unfoldable pub mid : Quote → Price
mid q = div_ℤ (q.bid +ℤ q.ask) 2

abbrev pub QuoteColumns : Type 0
QuoteColumns = List Quote

-- `std::upper_bound`: the first observation strictly after `t`, in a sorted range.
unfoldable pub upper_bound : Timestamp → QuoteColumns → ℕ
upper_bound t [] = 0
upper_bound t (q ∷ qs) = if ltb_ℤ t q.ts then 0 else suc (upper_bound t qs)

-- `npos` is `none`.
unfoldable pub index_at_or_before : QuoteColumns → Timestamp → Option ℕ
index_at_or_before cols t = elim (upper_bound t cols) [ zero ↦ none | suc i ↦ some i ]

pub record Event : Type 0 where
  pub ts : Timestamp
  pub instrument : InstrumentId
  pub row : ℕ

-- The interface `SessionData`.
pub record SessionData : Type 0 where
  pub date : Date
  pub registry : InstrumentRegistry
  pub instruments : List InstrumentId
  pub quotes : InstrumentId → QuoteColumns
  pub total_observations : ℕ
  pub event_order : List Event
  pub timeline : List Timestamp

-- `ReplayClock::advance_to`: the clock's new time.
unfoldable pub advance_to : Timestamp → Timestamp → Result Timestamp
advance_to now t = do throw_if (ltb_ℤ t now) Error.logic_error; ok t

-- The body of `MarketView::quote` for an offset of `steps`, with the clock at `now`.
unfoldable pub quote_back : SessionData → Timestamp → InstrumentId → ℕ → Option Quote
unfolding index_at_or_before
quote_back s now id steps = elim (index_at_or_before (s.quotes id) now) [
  | none ↦ none
  | some idx ↦ if ltb idx steps then none else get_elem? (s.quotes id) (idx - steps)
]

-- `SessionData::printed_by`, as the interface defines it.
unfoldable pub printed_by : SessionData → InstrumentId → Timestamp → Bool
printed_by s id t = elim (index_at_or_before (s.quotes id) t) [ none ↦ false | some _ ↦ true ]

-- `MarketView`, as what it answers: its session is private, and all that is read through it is the
-- time, the registry, a quote at an offset into the past, and whether an instrument has printed.
pub record MarketView : Type 0 where
  pub now : Timestamp
  pub registry : InstrumentRegistry
  pub read : InstrumentId → ℕ → Option Quote
  pub has_quote : InstrumentId → Bool

-- The view of a session, with the clock at `now`.
unfoldable pub view_of : SessionData → Timestamp → MarketView
view_of s now = record {
  now = now;
  registry = s.registry;
  read = quote_back s now;
  has_quote = λ id. printed_by s id now;
}

-- `MarketView::quote`. An offset below zero asks for the future.
unfoldable pub quote_at : MarketView → InstrumentId → ℤ → Result (Option Quote)
quote_at m id (negsuc _) = err Error.invalid_argument
quote_at m id (pos steps) = ok (m.read id steps)

-- `quote(id)`, with the offset left at its default.
abbrev pub quote : MarketView → InstrumentId → Option Quote
quote m id = m.read id 0
