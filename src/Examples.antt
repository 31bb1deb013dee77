-- ===== src/Examples.antt =====
-- A day of one option, and a run over it that the examples use.
pub mod Runs
pub mod Markets
pub mod Portfolios
pub mod Sessions
pub mod Codecs
pub mod Backtests
pub mod Selections
use volforge.Prelude.{
  ℕ, zero, suc, ◌+◌, ◌-◌, ◌*◌, ◌/◌, ◌%◌, ◌^◌, ◌≤◌, ◌<◌, ◌≡◌, refl, sym, ap, ◌∙◌, subst, ◌≢◌, ◌↔◌,
  ◌⊎◌, inl, inr, Bool, true, false, not, ◌&&◌, ◌||◌, Option, none, some, List, [], ◌∷◌, ◌++◌, map,
  arith, ltb, leb, ◌==◌, if◌then◌else◌, ltb→lt, leb→le, ==_iff, Bool-cases, Option-cases, length,
  get_elem?, set, take, drop, replicate, filter_by, All, length-append, All-append, All-left,
  All-right, All-map, length-set, get_elem?-set_self, get_elem?-set_ne, get_elem?-All, ℤ, pos,
  negsuc, pos_part, neg_part, sub_ℕ, ◌+ℤ◌, ◌-ℤ◌, ◌*ℤ◌, neg, abs, ◌≤ℤ◌, ◌<ℤ◌, ltb_ℤ, leb_ℤ, eqb_ℤ,
  max_ℤ, min_ℤ, div_ℤ, +ℤ_parts, -ℤ_parts, neg_parts, eq_of_parts, eqb_ℤ_iff, eqb_ℤ_refl, int_laws,
  parts_of_eq, Error, Result, ok, err, ◌>>=◌, ◌>>◌, throw_if, or_throw, Result-cases, ok-injective,
  bind_ok, Safe, Safe-bind, Safe-map, Safe_of_ok, throw_if-Safe, is_fault, get_elem?-lt,
  get_elem?-append_left, get_elem?-snoc, get_elem?-snoc_cases, get_elem?-some, Returns,
  Returns-bind, Returns-then, Returns-map, Returns_of_ok, is_ok, returned, if_both,
}
use volforge.Prelude.{
  ℕ, zero, suc, Bool, true, false, ◌||◌, none, some, ltb_ℤ, ◌>>=◌, [], ◌∷◌, ◌==◌, if◌then◌else◌, ℤ,
  pos, negsuc, leb_ℤ, Result, ok,
}
use volforge.Types.{Timestamp, Price, InstrumentId, call, option}
use volforge.Instrument.{InstrumentSpec, InstrumentRegistry, add, intern_underlying}
use volforge.Market.{Quote, QuoteColumns, SessionData}
use volforge.Double.{hundredths}
use volforge.Costs.{sell, indian_fno_cost_of, default_rates}
use volforge.Portfolio.{cross_spread_fill}
use volforge.Bars.{last_price, completed}
use volforge.Strategy.Context.{session_bars}
use volforge.Strategy.{Strategy, suspends, acts, order, close_position}
use volforge.Lookahead.{find_count}
use volforge.Lookahead.Views.{IsValid}
use volforge.Market.Causality.{IsSorted}
use volforge.Engine.{RunConfig, Running, run_session}

abbrev pub quoted : Timestamp → Price → Price → Price → Quote
quoted ts last bid ask = record {
  ts = ts;
  last = last;
  bid = bid;
  ask = ask;
  bid_qty = pos 150;
  ask_qty = pos 50;
  last_qty = pos 50;
  open_interest = pos 0;
}

abbrev pub day : QuoteColumns
day =
    quoted (pos 10) (pos 10000) (pos 9990) (pos 10010)
    ∷ quoted (pos 20) (pos 10100) (pos 10090) (pos 10110)
    ∷ quoted (pos 20) (pos 9800) (pos 9790) (pos 9810)
    ∷ quoted (pos 30) (pos 9000) (pos 8990) (pos 9010)
    ∷ quoted (pos 40) (pos 8000) (pos 7990) (pos 8010)
    ∷ []

abbrev pub nifty_call : InstrumentSpec
nifty_call = record {
  id = negsuc 0;
  underlying = pos 0;
  kind = option;
  expiry = pos 20240125;
  strike = pos 2150000;
  right = call;
  lot_size = pos 50;
  tick_size = pos 5;
}

abbrev pub no_instruments : InstrumentRegistry
no_instruments = record { specs = []; by_key = []; underlyings = []; underlying_ids = [] }

abbrev pub registry : InstrumentRegistry
registry = (add (intern_underlying no_instruments "NIFTY").0 nifty_call).0

abbrev pub quotes_of : InstrumentId → QuoteColumns
quotes_of (pos zero) = day
quotes_of (pos (suc n)) = []
quotes_of (negsuc n) = []

quotes_of-IsSorted : (id : InstrumentId) → IsSorted (pos 10) (quotes_of id)
quotes_of-IsSorted (pos zero) =
    (omega arith, (omega arith, (omega arith, (omega arith, (omega arith, tt)))))
quotes_of-IsSorted (pos (suc n)) = tt
quotes_of-IsSorted (negsuc n) = tt

quotes_of-listed : (id : InstrumentId) → find_count id ((pos 0, 0) ∷ []) ≡ none → quotes_of id ≡ []
unfolding find_count
quotes_of-listed (pos zero) h = cc
quotes_of-listed (pos (suc n)) h = refl
quotes_of-listed (negsuc n) h = refl

abbrev pub session : SessionData
session = record {
  date = pos 20240125;
  registry = registry;
  instruments = pos 0 ∷ [];
  quotes = quotes_of;
  total_observations = 5;
  event_order = [];
  timeline = [];
}

-- Sells a lot at the first timestamp, and buys it back from 30 on.
abbrev pub seller : Strategy ℤ ℕ
seller = record {
  start = 0;
  done = λ x. x == 3;
  waits = λ x. true;
  holds = λ x m p. ok (if x == 1 then true else leb_ℤ (pos 30) m.now);
  resume = λ x m p.
      if x == 0
      then suspends 1
      else if x == 1
      then acts (order sell (pos 0 ∷ []) (pos 1) "call") (λ _. suspends 2)
      else acts (close_position 0) (λ _. suspends 3);
}

abbrev pub config : RunConfig ℤ
config = record {
  execution_delay_nanos = pos 5;
  fills = record { fill = cross_spread_fill; illiquid_spread_ratio = pos 5 };
  max_resumes_per_step = 10;
  costs = indian_fno_cost_of {F = ℤ} default_rates;
  margin_sample_seconds = pos 60;
  margin = λ m p. pos 0;
}

-- The seller, as a program that buys back once a bar of a second has completed, or from 30 on.
abbrev pub bar_seller : SessionData → Strategy ℤ ℕ
bar_seller s = record seller {
  holds = λ x m p.
      if x == 1
      then ok true
      else (session_bars s (pos 5) (pos 0) (pos 1) last_price >>= λ b. completed b m.now (pos 0))
        >>= λ bar. ok (elim bar [ none ↦ leb_ℤ (pos 30) m.now | some _ ↦ true ]);
}

abbrev pub falls : QuoteColumns → Bool
falls [] = false
falls (q ∷ qs) = ltb_ℤ q.last (pos 9000) || falls qs

-- The seller, as a program that sells only if the price will fall below 90 before the day is over.
abbrev pub peeker : SessionData → Strategy ℤ ℕ
peeker s = record seller {
  holds = λ x m p. ok (if x == 1 then falls (s.quotes (pos 0)) else leb_ℤ (pos 30) m.now);
}

abbrev pub run_of_day : (SessionData → Strategy ℤ ℕ) → Result (Running ℤ ℕ)
run_of_day program = run_session config (program session) session

pub session-IsValid : IsValid session
unfolding find_count
session-IsValid = record { low = pos 10; sorted = quotes_of-IsSorted; listed = quotes_of-listed }
