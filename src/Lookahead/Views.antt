-- ===== src/Lookahead/Views.antt =====
-- Up to its cutoff, a truncated session looks like the session that it was cut from.
use volforge.Market.Causality.{until_late}
use volforge.Prelude.{
  ℕ, ◌≡◌, refl, sym, ap, ◌∙◌, subst, inl, inr, Option, none, some, List, [], ◌∷◌, map, arith, leb,
  Bool-cases, Option-cases, length, take, ◌≤ℤ◌, leb_ℤ, eqb_ℤ, eqb_ℤ_iff,
}
use volforge.Types.{Timestamp, InstrumentId}
use volforge.Market.{SessionData, QuoteColumns, index_at_or_before, quote_back, printed_by, view_of}
use volforge.Market.Causality.{
  IsSorted, until, until-take, from_end, quote_back-until, printed_by-until,
}
use volforge.Lookahead.{kept_rows, clip, find_count, clipped_quotes, truncated}

-- The series of a session are sorted, and an instrument that it does not list has none.
pub record IsValid (s : SessionData) : Type 0 where
  pub low : Timestamp
  pub sorted : (id : InstrumentId) → IsSorted low (s.quotes id)
  pub listed :
      (id : InstrumentId)
      → find_count id (map (λ i. (i, 0)) s.instruments) ≡ none
      → s.quotes id ≡ []

pub until-until :
    (now cutoff : Timestamp) (qs : QuoteColumns)
    → now ≤ℤ cutoff
    → until now (until cutoff qs) ≡ until now qs
until-until now cutoff [] h = refl
until-until now cutoff (q ∷ qs) h = ground (arith, until-until now cutoff qs h)

pub until-IsSorted :
    (cutoff low : Timestamp) (qs : QuoteColumns) → IsSorted low qs → IsSorted low (until cutoff qs)
until-IsSorted cutoff low [] s = tt
until-IsSorted cutoff low (q ∷ qs) s = elim (Bool-cases (leb_ℤ q.ts cutoff)) [
  | inl kept ↦ rw kept (s.0, until-IsSorted cutoff q.ts qs s.1)
  | inr late ↦ rw (late, until_late cutoff q.ts qs s.1 (ground arith)) tt
]

unfoldable pub take_of_rows : QuoteColumns → Option ℕ → QuoteColumns
take_of_rows qs none = []
take_of_rows qs (some n) = take n qs

pub kept_rows-until :
    (s : SessionData) (cutoff low : Timestamp) (id : InstrumentId)
    → IsSorted low (s.quotes id)
    → take_of_rows (s.quotes id) (kept_rows s cutoff id) ≡ until cutoff (s.quotes id)
unfolding take_of_rows kept_rows index_at_or_before
kept_rows-until s cutoff low id sorted =
    rw (until-take cutoff low (s.quotes id) sorted) (ground arith)

find_count-clip :
    (s : SessionData) (cutoff : Timestamp) (id : InstrumentId) (ids : List InstrumentId)
    → find_count id (clip s cutoff ids).1 ≡ elim (find_count id (map (λ i. (i, 0)) ids)) [
      | none ↦ none
      | some _ ↦ kept_rows s cutoff id
    ]
unfolding find_count clip
find_count-clip s cutoff id [] = refl
find_count-clip s cutoff id (i ∷ ids) = elim (Bool-cases (eqb_ℤ i id)) [
  | inl e ↦
      ground
        (arith, e, ap (kept_rows s cutoff) ((eqb_ℤ_iff i id).0 e), find_count-clip s cutoff id ids)
  | inr e ↦ ground (arith, e, find_count-clip s cutoff id ids)
]

clipped_quotes-take :
    (s : SessionData) (counts : List (InstrumentId × ℕ)) (id : InstrumentId)
    → clipped_quotes s counts id ≡ take_of_rows (s.quotes id) (find_count id counts)
unfolding clipped_quotes take_of_rows
clipped_quotes-take s counts id = ground arith

-- What a truncated session holds of an instrument is what had been observed by the cutoff.
pub truncated-quotes :
    (s : SessionData) (cutoff : Timestamp) (id : InstrumentId)
    → IsValid s
    → (truncated s cutoff).quotes id ≡ until cutoff (s.quotes id)
unfolding truncated take_of_rows
truncated-quotes s cutoff id v =
    let counts = (clip s cutoff s.instruments).1 in
    let rows = find_count-clip s cutoff id s.instruments in
    clipped_quotes-take s counts id
    ∙ (elim (Option-cases (find_count id (map (λ i. (i, 0)) s.instruments))) [
      | inl absent ↦
          let gone : find_count id counts ≡ none = rw absent at rows in
          rw (gone, v.listed id absent)
      | inr (n, present) ↦
          let found : find_count id counts ≡ kept_rows s cutoff id = rw present at rows in
          rw found (kept_rows-until s cutoff v.low id (v.sorted id))
    ])

module _ (s : SessionData) (cutoff now : Timestamp) (v : IsValid s) (h : now ≤ℤ cutoff) where
  until-truncated :
      (id : InstrumentId) → until now ((truncated s cutoff).quotes id) ≡ until now (s.quotes id)
  until-truncated id =
      ap (until now) (truncated-quotes s cutoff id v) ∙ until-until now cutoff (s.quotes id) h

  truncated-IsSorted : (id : InstrumentId) → IsSorted v.low ((truncated s cutoff).quotes id)
  truncated-IsSorted id =
      subst (IsSorted v.low) (sym (truncated-quotes s cutoff id v))
        (until-IsSorted cutoff v.low (s.quotes id) (v.sorted id))

  quote_back-truncated :
      (id : InstrumentId) (steps : ℕ)
      → quote_back (truncated s cutoff) now id steps ≡ quote_back s now id steps
  quote_back-truncated id steps =
      quote_back-until (truncated s cutoff) now id steps v.low (truncated-IsSorted id)
      ∙ (ap (λ (x : QuoteColumns). from_end x steps) (until-truncated id)
          ∙ sym (quote_back-until s now id steps v.low (v.sorted id)))

  printed_by-truncated :
      (id : InstrumentId) → printed_by (truncated s cutoff) id now ≡ printed_by s id now
  printed_by-truncated id =
      printed_by-until (truncated s cutoff) now id v.low (truncated-IsSorted id)
      ∙ (ap (λ (x : QuoteColumns). leb 1 (length x)) (until-truncated id)
          ∙ sym (printed_by-until s now id v.low (v.sorted id)))

  -- A view with its clock at or before the cutoff cannot tell a truncated session from the session
  -- that it was cut from: the time, the registry, every quote at every offset and every `has_quote`
  -- are the same. The series of the session are sorted, and those that it does not list are empty.
  pub view_of-truncated : view_of (truncated s cutoff) now ≡ view_of s now
  unfolding view_of truncated
  view_of-truncated = λ i. record {
    now = now;
    registry = s.registry;
    read = λ id steps. quote_back-truncated id steps i;
    has_quote = λ id. printed_by-truncated id i;
  }
