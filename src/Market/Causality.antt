-- ===== src/Market/Causality.antt =====
-- What a `MarketView` can read: the observations up to its clock, and no others.
use volforge.Market.{index_at_or_before}
use volforge.Market.{SessionData}
use volforge.Market.{printed_by}
use volforge.Market.{view_of}
use volforge.Prelude.{
  ℕ, zero, suc, ◌-◌, ◌<◌, ◌≡◌, refl, sym, ap, ◌∙◌, inl, inr, Option, none, [], ◌∷◌, arith, ltb, leb,
  if◌then◌else◌, Bool-cases, length, get_elem?, take, filter_by, ℤ, pos, negsuc, pos_part, ◌≤ℤ◌,
  ◌<ℤ◌, ltb_ℤ, leb_ℤ, Error, ok, err,
}
use volforge.Types.{Timestamp, InstrumentId}
use volforge.Market.{Quote, QuoteColumns, upper_bound, quote_back, quote_at}

-- Observations do not go back in time, from `low` on.
abbrev pub IsSorted : Timestamp → QuoteColumns → Type 0
IsSorted low [] = Unit {0}
IsSorted low (q ∷ qs) = (low ≤ℤ q.ts) × IsSorted q.ts qs

-- The observations up to `t`, however the series continues.
abbrev pub until : Timestamp → QuoteColumns → QuoteColumns
until t = filter_by (λ q. leb_ℤ q.ts t)

pub until_late :
    (t low : Timestamp) (qs : QuoteColumns) → IsSorted low qs → t <ℤ low → until t qs ≡ []
until_late t low [] s h = refl
until_late t low (q ∷ qs) s h = ground (arith, until_late t q.ts qs s.1)

pub until-take :
    (t low : Timestamp) (qs : QuoteColumns)
    → IsSorted low qs
    → until t qs ≡ take (upper_bound t qs) qs
unfolding upper_bound
until-take t low [] s = refl
until-take t low (q ∷ qs) s = elim (Bool-cases (ltb_ℤ t q.ts)) [
  | inl late ↦ ground (arith, until_late t q.ts qs s.1)
  | inr early ↦ ground (arith, until-take t q.ts qs s.1)
]

length-until :
    (t low : Timestamp) (qs : QuoteColumns)
    → IsSorted low qs
    → length (until t qs) ≡ upper_bound t qs
unfolding upper_bound
length-until t low [] s = refl
length-until t low (q ∷ qs) s = elim (Bool-cases (ltb_ℤ t q.ts)) [
  | inl late ↦ ground (arith, until_late t q.ts qs s.1)
  | inr early ↦ ground (arith, length-until t q.ts qs s.1)
]

-- The observation `steps` places before the end of a list.
abbrev pub from_end : QuoteColumns → ℕ → Option Quote
from_end qs steps = if leb (length qs) steps then none else get_elem? qs (length qs - 1 - steps)

get_elem?-take : (n i : ℕ) (qs : QuoteColumns) → i < n → get_elem? (take n qs) i ≡ get_elem? qs i
get_elem?-take zero i qs h = absurd (omega arith)
get_elem?-take (suc n) i [] h = refl
get_elem?-take (suc n) zero (q ∷ qs) h = refl
get_elem?-take (suc n) (suc i) (q ∷ qs) h = get_elem?-take n i qs (omega arith)

read_back : QuoteColumns → ℕ → ℕ → Option Quote
read_back qs zero steps = none
read_back qs (suc idx) steps = if ltb idx steps then none else get_elem? qs (idx - steps)

quote_back-read_back :
    (s : SessionData) (now : Timestamp) (id : InstrumentId) (steps : ℕ)
    → quote_back s now id steps ≡ read_back (s.quotes id) (upper_bound now (s.quotes id)) steps
unfolding quote_back read_back
quote_back-read_back s now id steps = ground arith

read_back-from_end :
    (qs : QuoteColumns) (n steps : ℕ)
    → length (take n qs) ≡ n
    → read_back qs n steps ≡ from_end (take n qs) steps
unfolding read_back
read_back-from_end qs zero steps h = ground arith
read_back-from_end qs (suc n) steps h = rw h (ground (arith, get_elem?-take (suc n) (n - steps) qs))

pub quote_back-until :
    (s : SessionData) (now : Timestamp) (id : InstrumentId) (steps : ℕ) (low : Timestamp)
    → IsSorted low (s.quotes id)
    → quote_back s now id steps ≡ from_end (until now (s.quotes id)) steps
quote_back-until s now id steps low sorted =
    let qs = s.quotes id in
    let n = upper_bound now qs in
    let cut = until-take now low qs sorted in
    quote_back-read_back s now id steps
    ∙ (read_back-from_end qs n steps (rw (← cut) (length-until now low qs sorted))
        ∙ ap (λ (x : QuoteColumns). from_end x steps) (sym cut))

-- What a view of a sorted series answers is the observation `back` places before the last one at or
-- before the clock, counted in the list of the observations up to the clock, and `none` if that list
-- is too short; an offset below zero is refused.
pub quote_at-until :
    (s : SessionData) (now : Timestamp) (id : InstrumentId) (back : ℤ) (low : Timestamp)
    → IsSorted low (s.quotes id)
    → quote_at (view_of s now) id back ≡ (
        if ltb_ℤ back (pos 0)
        then err Error.invalid_argument
        else ok (from_end (until now (s.quotes id)) (pos_part back)))
unfolding quote_at view_of
quote_at-until s now id (negsuc n) low sorted = ground arith
quote_at-until s now id (pos n) low sorted =
    rw (quote_back-until s now id n low sorted) (ground arith)

-- Whether an instrument has printed is whether any observation lies at or before the clock.
pub printed_by-until :
    (s : SessionData) (now : Timestamp) (id : InstrumentId) (low : Timestamp)
    → IsSorted low (s.quotes id)
    → printed_by s id now ≡ leb 1 (length (until now (s.quotes id)))
unfolding printed_by index_at_or_before
printed_by-until s now id low sorted = rw (length-until now low (s.quotes id) sorted) (ground arith)
