-- ===== src/Instrument/Expiries.antt =====
-- `InstrumentRegistry::expiries`: sorted, without repetition, and nothing lost.
use volforge.Prelude.{
  ◌≡◌, refl, ◌∙◌, inl, inr, Bool, false, not, ◌&&◌, ◌||◌, List, [], ◌∷◌, arith, Bool-cases, All,
  pos, ◌+ℤ◌, ◌≤ℤ◌, ◌<ℤ◌, eqb_ℤ, eqb_ℤ_iff,
}
use volforge.Types.{Date, UnderlyingId, date_valid}
use volforge.Instrument.{
  InstrumentRegistry, InstrumentSpec, insert_date, sort_dates, unique_dates, listed_expiries,
  expiries, is_spot,
}

abbrev pub contains : Date → List Date → Bool
contains d [] = false
contains d (e ∷ es) = eqb_ℤ d e || contains d es

-- From `low` on, dates do not fall.
abbrev pub IsSorted : Date → List Date → Type 0
IsSorted low [] = Unit {0}
IsSorted low (d ∷ ds) = (low ≤ℤ d) × IsSorted d ds

abbrev pub IsAscending : Date → List Date → Type 0
IsAscending low [] = Unit {0}
IsAscending low (d ∷ ds) = (low <ℤ d) × IsAscending d ds

insert_date-IsSorted :
    (low d : Date) (ds : List Date) → low ≤ℤ d → IsSorted low ds → IsSorted low (insert_date d ds)
unfolding insert_date
insert_date-IsSorted low d [] h s = (h, tt)
insert_date-IsSorted low d (e ∷ es) h s = ground (arith, insert_date-IsSorted e d es)

contains-insert_date :
    (x d : Date) (ds : List Date) → contains x (insert_date d ds) ≡ (eqb_ℤ x d || contains x ds)
unfolding insert_date
contains-insert_date x d [] = refl
contains-insert_date x d (e ∷ es) = ground (arith, contains-insert_date x d es)

pub contains-sort_dates : (x : Date) (ds : List Date) → contains x (sort_dates ds) ≡ contains x ds
unfolding sort_dates
contains-sort_dates x [] = refl
contains-sort_dates x (d ∷ ds) = rw (contains-insert_date x d) (rw (contains-sort_dates x ds))

pub unique_dates-IsAscending :
    (low : Date) (ds : List Date) → IsSorted (low +ℤ pos 1) ds → IsAscending low (unique_dates ds)
unfolding unique_dates ◌+ℤ◌
unique_dates-IsAscending low [] s = tt
unique_dates-IsAscending low (d ∷ []) s = ground arith
unique_dates-IsAscending low (d ∷ e ∷ es) s = elim (Bool-cases (eqb_ℤ d e)) [
  | inl same ↦
      rw same (unique_dates-IsAscending low (e ∷ es) (ground (arith, (eqb_ℤ_iff d e).0 same)))
  | inr differs ↦ rw differs (ground arith, unique_dates-IsAscending d (e ∷ es) (ground arith))
]

pub contains-unique_dates :
    (x : Date) (ds : List Date) → contains x (unique_dates ds) ≡ contains x ds
unfolding unique_dates
contains-unique_dates x [] = refl
contains-unique_dates x (d ∷ []) = refl
contains-unique_dates x (d ∷ e ∷ es) = elim (Bool-cases (eqb_ℤ d e)) [
  | inl same ↦ rw same (ground (arith, contains-unique_dates x (e ∷ es), (eqb_ℤ_iff d e).0 same))
  | inr differs ↦ rw differs (ground (arith, contains-unique_dates x (e ∷ es)))
]

pub sort_dates-IsSorted :
    (low : Date) (ds : List Date) → All (λ d. low ≤ℤ d) ds → IsSorted low (sort_dates ds)
unfolding sort_dates
sort_dates-IsSorted low [] h = tt
sort_dates-IsSorted low (d ∷ ds) h =
    insert_date-IsSorted low d (sort_dates ds) h.0 (sort_dates-IsSorted low ds h.1)

listed_expiries-valid :
    (u : UnderlyingId) (ss : List InstrumentSpec) → All (λ d. pos 1 ≤ℤ d) (listed_expiries u ss)
unfolding listed_expiries
listed_expiries-valid u [] = tt
listed_expiries-valid u (s ∷ ss) = ground (arith, listed_expiries-valid u ss)

-- An instrument that `expiries` counts: of the underlying, with a valid expiry, and no spot.
abbrev pub is_listed : UnderlyingId → Date → InstrumentSpec → Bool
is_listed u d s =
    eqb_ℤ s.underlying u && (not (is_spot s.kind) && (date_valid s.expiry && eqb_ℤ d s.expiry))

abbrev pub any : (InstrumentSpec → Bool) → List InstrumentSpec → Bool
any p [] = false
any p (s ∷ ss) = p s || any p ss

contains-listed_expiries :
    (u : UnderlyingId) (x : Date) (ss : List InstrumentSpec)
    → contains x (listed_expiries u ss) ≡ any (is_listed u x) ss
unfolding listed_expiries
contains-listed_expiries u x [] = refl
contains-listed_expiries u x (s ∷ ss) = ground (arith, contains-listed_expiries u x ss)

-- `expiries` answers positive dates in strictly ascending order, and a date is among them exactly
-- if the registry holds an instrument of the underlying, not a spot, with that valid expiry.
pub expiries_lem :
    (r : InstrumentRegistry) (u : UnderlyingId)
    → IsAscending (pos 0) (expiries r u)
      × ((x : Date) → contains x (expiries r u) ≡ any (is_listed u x) r.specs)
unfolding expiries ◌+ℤ◌
expiries_lem r u = (
  unique_dates-IsAscending (pos 0) (sort_dates (listed_expiries u r.specs))
      (sort_dates-IsSorted (pos 1) _ (listed_expiries-valid u r.specs)),
  λ x.
      contains-unique_dates x (sort_dates (listed_expiries u r.specs))
      ∙ (contains-sort_dates x (listed_expiries u r.specs) ∙ contains-listed_expiries u x r.specs),
)
