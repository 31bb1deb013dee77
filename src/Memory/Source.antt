-- ===== src/Memory/Source.antt =====
-- The sessions of a source: `MemoryDataSource` of cpp/core/src/memory_source.cpp.
use volforge.Prelude.{
  ◌≡◌, refl, sym, ap, ◌∙◌, inl, inr, true, false, Option, none, some, List, [], ◌∷◌, map, arith,
  if◌then◌else◌, Bool-cases, All, All-map, ◌<ℤ◌, ltb_ℤ, eqb_ℤ, eqb_ℤ_iff, Error, Result, ok, ◌>>=◌,
  or_throw, Safe,
}
use volforge.Types.{Date}
use volforge.Instrument.{InstrumentRegistry}
use volforge.Memory.{MemorySession}

pub record MemorySource : Type 0 where
  pub registry : InstrumentRegistry
  pub by_date : List (Date × MemorySession)

-- The ordered map, with `sessions_[date] = session`.
unfoldable pub put_session :
    Date → MemorySession → List (Date × MemorySession) → List (Date × MemorySession)
put_session d s [] = (d, s) ∷ []
put_session d s ((e, t) ∷ m) =
    let rest = put_session d s m in
    if ltb_ℤ d e then (d, s) ∷ (e, t) ∷ m else if eqb_ℤ d e then (e, s) ∷ m else (e, t) ∷ rest

-- `add_session`; a null pointer is `none`.
unfoldable pub add_session : MemorySource → Option MemorySession → Result MemorySource
add_session source session = do
  s ← or_throw session Error.invalid_argument
  ok (record source { by_date = put_session s.date s source.by_date })

unfoldable pub sessions : MemorySource → List Date
sessions source = map (λ e. e.0) source.by_date

unfoldable pub find_session : Date → List (Date × MemorySession) → Option MemorySession
find_session d [] = none
find_session d ((e, t) ∷ m) = let rest = find_session d m in if eqb_ℤ e d then some t else rest

unfoldable pub load : MemorySource → Date → Option MemorySession
load source d = find_session d source.by_date

abbrev pub IsRising : List Date → Type 0
IsRising [] = Unit {0}
IsRising (d ∷ ds) = All (λ e. d <ℤ e) ds × IsRising ds

abbrev dates : List (Date × MemorySession) → List Date
dates = map (λ e. e.0)

rising_from : (d e : Date) (ds : List Date) → d <ℤ e → All (λ x. e <ℤ x) ds → All (λ x. d <ℤ x) ds
rising_from d e ds h = All-map _ _ (λ x k. omega arith) ds

put_session-All :
    (low d : Date) (s : MemorySession) (m : List (Date × MemorySession))
    → low <ℤ d
    → All (λ x. low <ℤ x) (dates m)
    → All (λ x. low <ℤ x) (dates (put_session d s m))
unfolding put_session
put_session-All low d s [] h k = (h, tt)
put_session-All low d s ((e, t) ∷ m) h (k, ks) = elim (Bool-cases (ltb_ℤ d e)) [
  | inl x ↦ rw x (h, (k, ks))
  | inr x ↦ elim (Bool-cases (eqb_ℤ d e)) [
    | inl y ↦ rw (x, y) (k, ks)
    | inr y ↦ rw (x, y) (k, put_session-All low d s m h ks)
  ]
]

put_session-IsRising :
    (d : Date) (s : MemorySession) (m : List (Date × MemorySession))
    → IsRising (dates m)
    → IsRising (dates (put_session d s m))
unfolding put_session
put_session-IsRising d s [] h = (tt, tt)
put_session-IsRising d s ((e, t) ∷ m) (h, hs) = elim (Bool-cases (ltb_ℤ d e)) [
  | inl x ↦
      let before : d <ℤ e = ground arith in
      rw x ((before, rising_from d e (dates m) before h), (h, hs))
  | inr x ↦ elim (Bool-cases (eqb_ℤ d e)) [
    | inl y ↦ rw (x, y) (h, hs)
    | inr y ↦
        let after : e <ℤ d = ground arith in
        rw (x, y) (put_session-All e d s m after h, put_session-IsRising d s m hs)
  ]
]

find_session-put :
    (d x : Date) (s : MemorySession) (m : List (Date × MemorySession))
    → find_session x (put_session d s m) ≡ (if eqb_ℤ d x then some s else find_session x m)
unfolding put_session find_session
find_session-put d x s [] = refl
find_session-put d x s ((e, t) ∷ m) = elim (Bool-cases (ltb_ℤ d e)) [
  | inl h ↦ rw h refl
  | inr h ↦ elim (Bool-cases (eqb_ℤ d e)) [
    | inl k ↦
        let same : eqb_ℤ d x ≡ eqb_ℤ e x = ap (λ y. eqb_ℤ y x) ((eqb_ℤ_iff d e).0 k) in
        let rest = find_session x m in
        rw (h, k, same)
          (elim (eqb_ℤ e x)
            as (λ b.
              (if b then some s else rest) ≡ (if b then some s else if b then some t else rest)) [
                | true ↦ refl
                | false ↦ refl
              ])
    | inr k ↦
        let ih = find_session-put d x s m in
        elim (Bool-cases (eqb_ℤ e x)) [
          | inl y ↦
              let apart : eqb_ℤ d x ≡ false = sym (ap (eqb_ℤ d) ((eqb_ℤ_iff e x).0 y)) ∙ k in
              rw (h, k, y, apart) refl
          | inr y ↦ rw (h, k, y) ih
        ]
  ]
]

-- A session that is added is the one loaded for its date, in place of any that was; every other date
-- loads what it did, and the dates stay ascending.
pub add_session_lem :
    (source : MemorySource) (s : MemorySession) (d : Date)
    → IsRising (sessions source)
    → Safe (add_session source (some s)) λ source'.
      IsRising (sessions source')
      × (load source' d ≡ (if eqb_ℤ s.date d then some s else load source d))
unfolding add_session sessions load
add_session_lem source s d h =
    (put_session-IsRising s.date s source.by_date h, find_session-put s.date d s source.by_date)
