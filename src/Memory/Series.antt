-- ===== src/Memory/Series.antt =====
-- A consistent session: sorted series of different instruments, counted, with an index that is empty
-- or up to date.
use volforge.Memory.{new_session}
use volforge.Memory.{InstrumentRegistry}
use volforge.Memory.{Date}
use volforge.Prelude.{
  ℕ, ◌+◌, ◌≡◌, refl, sym, ap, ◌∙◌, subst, ◌≢◌, ◌⊎◌, inl, inr, Bool, true, false, ◌||◌, none, List,
  [], ◌∷◌, ◌++◌, map, arith, if◌then◌else◌, Bool-cases, length, All, length-append, All-append, ℤ,
  ◌≤ℤ◌, eqb_ℤ, eqb_ℤ_iff, eqb_ℤ_refl, Error, Result, ok, err,
}
use volforge.Types.{Timestamp, InstrumentId}
use volforge.Market.{Quote, QuoteColumns}
use volforge.Market.Causality.{IsSorted}
use volforge.Memory.{
  MemorySession, SeriesMap, goes_back_in, has_series, series_of, pushed, append, insert_all,
  all_rows, collapse,
}

abbrev pub key : InstrumentId × QuoteColumns → InstrumentId
key e = e.0

abbrev pub Distinct : List InstrumentId → Type 0
Distinct [] = Unit {0}
Distinct (id ∷ ids) = All (λ j. j ≢ id) ids × Distinct ids

unfoldable pub rows_in : SeriesMap → ℕ
rows_in [] = 0
rows_in ((id, qs) ∷ m) = length qs + rows_in m

-- An index that is not there, or the one that `build_event_order` makes of the series.
abbrev pub IsCurrent : MemorySession → Type 0
IsCurrent s =
    ((s.order ≡ []) × (s.timeline ≡ []))
    ⊎ ((s.order ≡ insert_all (all_rows s.series) []) × (s.timeline ≡ collapse none s.order))

pub record IsConsistent (low : Timestamp) (s : MemorySession) : Type 0 where
  pub sorted : All (λ e. IsSorted low e.1) s.series
  pub distinct : Distinct (map key s.series)
  pub listed : s.instruments ≡ map key s.series
  pub current : IsCurrent s
  pub counted : s.total ≡ rows_in s.series

new_session-IsConsistent :
    (low : Timestamp) (date : Date) (registry : InstrumentRegistry)
    → IsConsistent low (new_session date registry)
unfolding rows_in
new_session-IsConsistent low date registry = record {
  sorted = tt;
  distinct = tt;
  listed = refl;
  current = inl (refl, refl);
  counted = refl;
}

eqb_ℤ-differ : (a b : ℤ) → eqb_ℤ a b ≡ false → a ≢ b
eqb_ℤ-differ a b h same = let t = (eqb_ℤ_iff a b).1 same in cc

pub series_same :
    (id : InstrumentId) (qs : QuoteColumns) (m : SeriesMap) → series_of id ((id, qs) ∷ m) ≡ qs
unfolding series_of
series_same id qs m = rw (eqb_ℤ_refl id) refl

pub series_other :
    (id j : InstrumentId) (qs : QuoteColumns) (m : SeriesMap)
    → j ≢ id
    → series_of id ((j, qs) ∷ m) ≡ series_of id m
unfolding series_of
series_other id j qs m h = elim (Bool-cases (eqb_ℤ j id)) [
  | inl e ↦ absurd (h ((eqb_ℤ_iff j id).0 e))
  | inr e ↦ rw e refl
]

pub series_of-All :
    (low : Timestamp) (id : InstrumentId) (m : SeriesMap)
    → All (λ e. IsSorted low e.1) m
    → IsSorted low (series_of id m)
unfolding series_of
series_of-All low id [] h = tt
series_of-All low id ((j, qs) ∷ m) (h, hs) =
    elim (eqb_ℤ j id) as (λ b. IsSorted low (if b then qs else series_of id m)) [
      | true ↦ h
      | false ↦ series_of-All low id m hs
    ]

-- What does not go back behind the last observation does not behind the bound on the first.
goes_back_in-le :
    (low t : Timestamp) (x : Quote) (qs : QuoteColumns)
    → IsSorted low (x ∷ qs)
    → goes_back_in t (x ∷ qs) ≡ false
    → low ≤ℤ t
unfolding goes_back_in
goes_back_in-le low t x [] (h, _) g = ground arith
goes_back_in-le low t x (y ∷ qs) (h, hs) g =
    let after = goes_back_in-le x.ts t y qs hs g in omega arith

push-IsSorted :
    (low : Timestamp) (q : Quote) (qs : QuoteColumns)
    → IsSorted low qs
    → low ≤ℤ q.ts
    → goes_back_in q.ts qs ≡ false
    → IsSorted low (qs ++ (q ∷ []))
unfolding goes_back_in
push-IsSorted low q [] h k g = (k, tt)
push-IsSorted low q (x ∷ []) (h, _) k g = (h, (ground arith, tt))
push-IsSorted low q (x ∷ y ∷ qs) (h, hs) k g =
    (h, push-IsSorted x.ts q (y ∷ qs) hs (goes_back_in-le x.ts q.ts y qs hs g) g)

pushed-IsSorted :
    (low : Timestamp) (id : InstrumentId) (q : Quote) (m : SeriesMap)
    → All (λ e. IsSorted low e.1) m
    → low ≤ℤ q.ts
    → goes_back_in q.ts (series_of id m) ≡ false
    → All (λ e. IsSorted low e.1) (pushed id q m)
unfolding series_of pushed
pushed-IsSorted low id q [] h k g = ((k, tt), tt)
pushed-IsSorted low id q ((j, qs) ∷ m) (h, hs) k g =
    elim (eqb_ℤ j id)
        as (λ b.
          goes_back_in q.ts (if b then qs else series_of id m) ≡ false
          → All (λ e. IsSorted low e.1)
              (if b then (j, qs ++ (q ∷ [])) ∷ m else (j, qs) ∷ pushed id q m)) [
                | true ↦ λ e. (push-IsSorted low q qs h k e, hs)
                | false ↦ λ e. (h, pushed-IsSorted low id q m hs k e)
              ]
      g

pushed-rows :
    (id : InstrumentId) (q : Quote) (m : SeriesMap) → rows_in (pushed id q m) ≡ rows_in m + 1
unfolding pushed rows_in
pushed-rows id q [] = refl
pushed-rows id q ((j, qs) ∷ m) =
    elim (eqb_ℤ j id)
      as (λ b.
        rows_in (if b then (j, qs ++ (q ∷ [])) ∷ m else (j, qs) ∷ pushed id q m)
        ≡ length qs + rows_in m + 1) [
          | true ↦ omega (arith, length-append qs (q ∷ []))
          | false ↦ omega (arith, pushed-rows id q m)
        ]

abbrev listing : Bool → InstrumentId → List InstrumentId → List InstrumentId
listing b id ids = if b then ids else ids ++ (id ∷ [])

cons-listing :
    (b : Bool) (j id : InstrumentId) (ids : List InstrumentId)
    → j ∷ listing b id ids ≡ listing b id (j ∷ ids)
cons-listing true j id ids = refl
cons-listing false j id ids = refl

pushed-keys :
    (id : InstrumentId) (q : Quote) (m : SeriesMap)
    → map key (pushed id q m) ≡ listing (has_series id m) id (map key m)
unfolding pushed has_series
pushed-keys id q [] = refl
pushed-keys id q ((j, qs) ∷ m) =
    elim (eqb_ℤ j id)
      as (λ b.
        map key (if b then (j, qs ++ (q ∷ [])) ∷ m else (j, qs) ∷ pushed id q m)
        ≡ listing (b || has_series id m) id (j ∷ map key m)) [
          | true ↦ refl
          | false ↦
              ap (λ (ids : List InstrumentId). j ∷ ids) (pushed-keys id q m)
              ∙ cons-listing (has_series id m) j id (map key m)
        ]

has_series-Apart :
    (id : InstrumentId) (m : SeriesMap) → has_series id m ≡ false → All (λ j. j ≢ id) (map key m)
unfolding has_series
has_series-Apart id [] h = tt
has_series-Apart id ((j, qs) ∷ m) h = elim (Bool-cases (eqb_ℤ j id)) [
  | inl e ↦ cc
  | inr e ↦ (eqb_ℤ-differ j id e, has_series-Apart id m (rw e at h))
]

snoc-Distinct :
    (id : InstrumentId) (ids : List InstrumentId)
    → Distinct ids
    → All (λ j. j ≢ id) ids
    → Distinct (ids ++ (id ∷ []))
snoc-Distinct id [] d h = (tt, tt)
snoc-Distinct id (j ∷ ids) (d, ds) (h, hs) =
    (All-append _ ids (id ∷ []) d ((λ e. h (sym e)), tt), snoc-Distinct id ids ds hs)

listing-Distinct :
    (b : Bool) (id : InstrumentId) (m : SeriesMap)
    → has_series id m ≡ b
    → Distinct (map key m)
    → Distinct (listing b id (map key m))
listing-Distinct true id m e d = d
listing-Distinct false id m e d = snoc-Distinct id (map key m) d (has_series-Apart id m e)

pushed-same :
    (id : InstrumentId) (q : Quote) (m : SeriesMap)
    → series_of id (pushed id q m) ≡ series_of id m ++ (q ∷ [])
unfolding pushed series_of
pushed-same id q [] = rw (eqb_ℤ_refl id) refl
pushed-same id q ((j, qs) ∷ m) = elim (Bool-cases (eqb_ℤ j id)) [
  | inl e ↦ rw (e, e) refl
  | inr e ↦ rw (e, e) (pushed-same id q m)
]

series_cons :
    (j k : InstrumentId) (qs : QuoteColumns) (m n : SeriesMap)
    → series_of j m ≡ series_of j n
    → series_of j ((k, qs) ∷ m) ≡ series_of j ((k, qs) ∷ n)
unfolding series_of
series_cons j k qs m n h = ap (λ (x : QuoteColumns). if eqb_ℤ k j then qs else x) h

pushed-other :
    (id j : InstrumentId) (q : Quote) (m : SeriesMap)
    → id ≢ j
    → series_of j (pushed id q m) ≡ series_of j m
unfolding pushed
pushed-other id j q [] h = series_other j id (q ∷ []) [] h
pushed-other id j q ((k, qs) ∷ m) h = elim (Bool-cases (eqb_ℤ k id)) [
  | inl e ↦
      let apart : k ≢ j = λ same. h (sym ((eqb_ℤ_iff k id).0 e) ∙ same) in
      rw e (series_other j k (qs ++ (q ∷ [])) m apart ∙ sym (series_other j k qs m apart))
  | inr e ↦ rw e (series_cons j k qs (pushed id q m) m (pushed-other id j q m h))
]

pushed-series :
    (id j : InstrumentId) (q : Quote) (m : SeriesMap)
    → series_of j (pushed id q m)
      ≡ (if eqb_ℤ id j then series_of j m ++ (q ∷ []) else series_of j m)
pushed-series id j q m = elim (Bool-cases (eqb_ℤ id j)) [
  | inl e ↦
      let same = (eqb_ℤ_iff id j).0 e in
      rw e (
        subst (λ x. series_of x (pushed id q m) ≡ series_of x m ++ (q ∷ [])) same
          (pushed-same id q m))
  | inr e ↦ rw e (pushed-other id j q m (eqb_ℤ-differ id j e))
]

-- What `append` makes of a session, as seen at the instrument `j`.
abbrev pub Appends :
    Timestamp → MemorySession → InstrumentId → Quote → InstrumentId → Result MemorySession → Type 0
Appends low s id q j (ok s') =
    (goes_back_in q.ts (series_of id s.series) ≡ false)
    × IsConsistent low s'
    × (series_of j s'.series
        ≡ (if eqb_ℤ id j then series_of j s.series ++ (q ∷ []) else series_of j s.series))
Appends low s id q j (err e) =
    (goes_back_in q.ts (series_of id s.series) ≡ true) × (e ≡ Error.invalid_argument)

-- An observation that goes back behind the last of its series is refused. Any other comes last in
-- its series, changes no other series, and leaves a consistent session consistent.
pub append-Appends :
    (low : Timestamp) (s : MemorySession) (id : InstrumentId) (q : Quote) (j : InstrumentId)
    → IsConsistent low s
    → low ≤ℤ q.ts
    → Appends low s id q j (append s id q)
unfolding append
append-Appends low s id q j v h = elim (Bool-cases (goes_back_in q.ts (series_of id s.series))) [
  | inl g ↦ rw g (g, refl)
  | inr g ↦
      let keys = pushed-keys id q s.series in
      let b = has_series id s.series in
      rw g (
        g,
        record {
          sorted = pushed-IsSorted low id q s.series v.sorted h g;
          distinct = subst Distinct (sym keys) (listing-Distinct b id s.series refl v.distinct);
          listed = ap (listing b id) v.listed ∙ sym keys;
          current = inl (refl, refl);
          counted = ap (λ n. n + 1) v.counted ∙ sym (pushed-rows id q s.series);
        },
        pushed-series id j q s.series,
      )
]
