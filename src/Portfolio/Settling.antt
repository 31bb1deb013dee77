-- ===== src/Portfolio/Settling.antt =====
-- The ledger while `settle_expiry` settles legs: an order may rest whose leg has just been closed.
use volforge.Prelude.{
  ℕ, suc, ◌+◌, ◌<◌, ◌≡◌, sym, ap, ◌∙◌, subst, ◌≢◌, ◌⊎◌, inl, inr, true, some, List, [], ◌∷◌, arith,
  get_elem?, All, All-map, pos, ◌+ℤ◌, int_laws, parts_of_eq, ok,
}
use native.Mathlib.Decide.{ℕ_discrete}
use mathlib.Core.Option.{some-injective}
use volforge.Types.{Date, Money, InstrumentId}
use volforge.Instrument.{InstrumentRegistry, InstrumentSpec, spec}
use volforge.Portfolio.{Leg, Position, PendingOrder, get_leg, set_leg, closed_leg, live}
use volforge.Portfolio.Expiry.{expires}
use volforge.Portfolio.Legs.{
  booked, booked_total, booked_total-set_leg, get_leg-set_leg_self, get_leg-set_leg_ne,
}
use volforge.Portfolio.Matching.{Matches, Distinct}

abbrev pub Expired : InstrumentRegistry → Date → InstrumentId → Type 0
Expired r expiry id = (s : InstrumentSpec) × (spec r id ≡ ok s) × (expires s expiry ≡ true)

-- An order whose leg has been settled.
pub record Stale (r : InstrumentRegistry) (expiry : Date) (ps : List Position) (o : PendingOrder)
    : Type 0 where
  pub leg : Leg
  pub found : get_leg ps o.position o.leg_index ≡ some leg
  pub closed : leg.state ≡ closed_leg
  pub expired : Expired r expiry o.instrument

abbrev pub Works : InstrumentRegistry → Date → List Position → PendingOrder → Type 0
Works r expiry ps o = Matches ps o ⊎ Stale r expiry ps o

-- The ledger while legs are settled.
pub record Settling (r : InstrumentRegistry) (expiry : Date) (realized : Money) (ps : List Position)
    (os : List PendingOrder) : Type 0 where
  pub booked_all : realized ≡ booked_total ps
  pub working : All (Works r expiry ps) os
  pub distinct : Distinct os

place-cases : (i j i' j' : ℕ) → ((i ≡ i') × (j ≡ j')) ⊎ ((i ≢ i') ⊎ (j ≢ j'))
place-cases i j i' j' = elim (ℕ_discrete i i') [
  | yes e ↦ elim (ℕ_discrete j j') [ yes f ↦ inl (e, f) | no f ↦ inr (inr f) ]
  | no e ↦ inr (inl e)
]

live-not_closed : (l : Leg) → live l ≡ true → l.state ≢ closed_leg
live-not_closed l h k = cc

live-booked : (l : Leg) → live l ≡ true → booked l ≡ pos 0
live-booked l h = ground arith

module _ (r : InstrumentRegistry) (expiry : Date) where
  pub apart-Works :
      (ps : List Position) (i j : ℕ) (v : Leg) (o : PendingOrder)
      → (i ≢ o.position) ⊎ (j ≢ o.leg_index)
      → Works r expiry ps o
      → Works r expiry (set_leg ps i j v) o
  apart-Works ps i j v o apart (inl m) =
      let kept = get_leg-set_leg_ne ps i j o.position o.leg_index v apart in
      inl (record { leg = m.leg; found = kept ∙ m.found; waits = m.waits; same = m.same })
  apart-Works ps i j v o apart (inr st) =
      let kept = get_leg-set_leg_ne ps i j o.position o.leg_index v apart in
      inr
        (record { leg = st.leg; found = kept ∙ st.found; closed = st.closed; expired = st.expired })

  -- Settling a leg leaves an order at work, or makes it stale.
  settled-Works :
      (ps : List Position) (i j : ℕ) (l v : Leg) (o : PendingOrder)
      → get_leg ps i j ≡ some l
      → live l ≡ true
      → v.state ≡ closed_leg
      → Expired r expiry l.instrument
      → Works r expiry ps o
      → Works r expiry (set_leg ps i j v) o
  settled-Works ps i j l v o found h closed x w = elim (place-cases i j o.position o.leg_index) [
    | inl (e, f) ↦
        let there : get_leg (set_leg ps i j v) o.position o.leg_index ≡ some v =
          rw (← e, ← f) (get_leg-set_leg_self ps i j v found) in
        let here : get_leg ps o.position o.leg_index ≡ some l = rw (← e, ← f) found in
        elim w [
          | inl m ↦
              let one : l ≡ m.leg = some-injective _ _ (sym here ∙ m.found) in
              let id = ap (λ (y : Leg). y.instrument) one ∙ m.same in
              inr (record {
                leg = v;
                found = there;
                closed = closed;
                expired = subst (Expired r expiry) id x;
              })
          | inr st ↦
              let one : l ≡ st.leg = some-injective _ _ (sym here ∙ st.found) in
              absurd (live-not_closed l h (ap (λ (y : Leg). y.state) one ∙ st.closed))
        ]
    | inr apart ↦ apart-Works ps i j v o apart w
  ]

  settled-All-Works :
      (ps : List Position) (i j : ℕ) (l v : Leg) (os : List PendingOrder)
      → get_leg ps i j ≡ some l
      → live l ≡ true
      → v.state ≡ closed_leg
      → Expired r expiry l.instrument
      → All (Works r expiry ps) os
      → All (Works r expiry (set_leg ps i j v)) os
  settled-All-Works ps i j l v os found h closed x =
      All-map _ _ (λ o w. settled-Works ps i j l v o found h closed x w) os

  -- One leg settles.
  pub Settling-step :
      (realized earned : Money) (ps : List Position) (i j : ℕ) (l v : Leg) (os : List PendingOrder)
      → get_leg ps i j ≡ some l
      → live l ≡ true
      → v.state ≡ closed_leg
      → Expired r expiry l.instrument
      → earned ≡ booked v
      → Settling r expiry realized ps os
      → Settling r expiry (realized +ℤ earned) (set_leg ps i j v) os
  Settling-step realized earned ps i j l v os found h closed x e g = record {
    booked_all = omega (
      int_laws,
      parts_of_eq g.booked_all,
      parts_of_eq e,
      parts_of_eq (live-booked l h),
      parts_of_eq (booked_total-set_leg ps i j v found),
    );
    working = settled-All-Works ps i j l v os found h closed x g.working;
    distinct = g.distinct;
  }

-- The legs that a loop has still to visit are as they were before it.
abbrev pub LegsAt : List Position → ℕ → ℕ → List Leg → Type 0
LegsAt ps i j [] = Unit {0}
LegsAt ps i j (l ∷ ls) = (get_leg ps i j ≡ some l) × LegsAt ps i (suc j) ls

abbrev pub AllAt : List Position → ℕ → List Position → Type 0
AllAt ps i [] = Unit {0}
AllAt ps i (q ∷ qs) = LegsAt ps i 0 q.legs × AllAt ps (suc i) qs

before-Apart : (i j i' j' : ℕ) → (i < i') ⊎ (j < j') → (i ≢ i') ⊎ (j ≢ j')
before-Apart i j i' j' (inl h) = inl (λ e. omega (arith, e))
before-Apart i j i' j' (inr h) = inr (λ e. omega (arith, e))

before_next : (i j i' j' : ℕ) → (i < i') ⊎ (j < j') → (i < i') ⊎ (j < suc j')
before_next i j i' j' (inl h) = inl h
before_next i j i' j' (inr h) = inr (omega arith)

pub LegsAt-set_leg :
    (ps : List Position) (i j i' j' : ℕ) (v : Leg) (ls : List Leg)
    → (i < i') ⊎ (j < j')
    → LegsAt ps i' j' ls
    → LegsAt (set_leg ps i j v) i' j' ls
LegsAt-set_leg ps i j i' j' v [] h k = tt
LegsAt-set_leg ps i j i' j' v (l ∷ ls) h (k, ks) = (
  get_leg-set_leg_ne ps i j i' j' v (before-Apart i j i' j' h) ∙ k,
  LegsAt-set_leg ps i j i' (suc j') v ls (before_next i j i' j' h) ks,
)

pub AllAt-set_leg :
    (ps : List Position) (i j i' : ℕ) (v : Leg) (qs : List Position)
    → i < i'
    → AllAt ps i' qs
    → AllAt (set_leg ps i j v) i' qs
AllAt-set_leg ps i j i' v [] h k = tt
AllAt-set_leg ps i j i' v (q ∷ qs) h (k, ks) = (
  LegsAt-set_leg ps i j i' 0 v q.legs (inl h) k,
  AllAt-set_leg ps i j (suc i') v qs (omega arith) ks,
)

LegsAt-all :
    (ps : List Position) (i j : ℕ) (ls : List Leg)
    → ((k : ℕ) → get_leg ps i (j + k) ≡ get_elem? ls k)
    → LegsAt ps i j ls
LegsAt-all ps i j [] h = tt
LegsAt-all ps i j (l ∷ ls) h = (
  subst (λ x. get_leg ps i x ≡ some l) (omega arith) (h 0),
  LegsAt-all ps i (suc j) ls
      λ k. subst (λ x. get_leg ps i x ≡ get_elem? ls k) (omega arith) (h (suc k)),
)

pub AllAt-all :
    (ps : List Position) (i : ℕ) (qs : List Position)
    → ((k : ℕ) → get_elem? ps (i + k) ≡ get_elem? qs k)
    → AllAt ps i qs
unfolding get_leg
AllAt-all ps i [] h = tt
AllAt-all ps i (q ∷ qs) h =
    let here : get_elem? ps i ≡ some q = subst (λ x. get_elem? ps x ≡ some q) (omega arith) (h 0) in
    (
      LegsAt-all ps i 0 q.legs λ k. rw (here, get_leg) (ap (get_elem? q.legs) (omega arith)),
      AllAt-all ps (suc i) qs
          λ k. subst (λ x. get_elem? ps x ≡ get_elem? qs k) (omega arith) (h (suc k)),
    )
