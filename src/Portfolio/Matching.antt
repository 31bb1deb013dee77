-- ===== src/Portfolio/Matching.antt =====
-- Every working order has its leg: an opening order a leg that waits to open, a closing order one
-- that waits to close, and no leg has two orders. `Ledger` says so together with the profit.
use volforge.Prelude.{
  ◌≡◌, sym, ap, ◌∙◌, subst, ◌≢◌, ◌⊎◌, inl, inr, true, some, List, [], ◌∷◌, ◌++◌, arith,
  if◌then◌else◌, All, All-append, pos, ◌+ℤ◌, int_laws, parts_of_eq,
}
use native.Mathlib.Decide.{ℕ_discrete}
use mathlib.Core.List.{append_assoc}
use mathlib.Core.Option.{some-injective}
use volforge.Types.{Money}
use volforge.Portfolio.{
  Leg, LegState, Position, PendingOrder, pending_open, open_leg, pending_close, get_leg, set_leg,
}
use volforge.Portfolio.Legs.{
  booked, booked_total, booked_total-set_leg, get_leg-set_leg_self, get_leg-set_leg_ne,
}

abbrev pub awaited : PendingOrder → LegState
awaited o = if o.closing then pending_close else pending_open

pub record Matches (ps : List Position) (o : PendingOrder) : Type 0 where
  pub leg : Leg
  pub found : get_leg ps o.position o.leg_index ≡ some leg
  pub waits : leg.state ≡ awaited o
  pub same : leg.instrument ≡ o.instrument

abbrev pub Apart : PendingOrder → PendingOrder → Type 0
Apart o o' = (o.position ≢ o'.position) ⊎ (o.leg_index ≢ o'.leg_index)

abbrev pub Distinct : List PendingOrder → Type 0
Distinct [] = Unit {0}
Distinct (o ∷ os) = All (Apart o) os × Distinct os

-- The profit that is booked is that of the closed legs, and the orders match their legs.
pub record Ledger (realized : Money) (ps : List Position) (os : List PendingOrder) : Type 0 where
  pub booked_all : realized ≡ booked_total ps
  pub matched : All (Matches ps) os
  pub distinct : Distinct os

pub Apart-symm : (o o' : PendingOrder) → Apart o o' → Apart o' o
Apart-symm o o' (inl h) = inl (λ e. h (sym e))
Apart-symm o o' (inr h) = inr (λ e. h (sym e))

pub set_leg-Matches :
    (ps : List Position) (o o' : PendingOrder) (v : Leg)
    → Apart o o'
    → Matches ps o'
    → Matches (set_leg ps o.position o.leg_index v) o'
set_leg-Matches ps o o' v apart m = record {
  leg = m.leg;
  found = get_leg-set_leg_ne ps o.position o.leg_index o'.position o'.leg_index v apart ∙ m.found;
  waits = m.waits;
  same = m.same;
}

set_leg-All-Matches :
    (ps : List Position) (o : PendingOrder) (v : Leg) (os : List PendingOrder)
    → All (Apart o) os
    → All (Matches ps) os
    → All (Matches (set_leg ps o.position o.leg_index v)) os
set_leg-All-Matches ps o v [] a m = tt
set_leg-All-Matches ps o v (x ∷ xs) (a, as') (m, ms) =
    (set_leg-Matches ps o x v a m, set_leg-All-Matches ps o v xs as' ms)

pub All-middle {κ} :
    {A : Type 0} (P : A → Type κ) (x : A) (xs ys : List A)
    → All P (xs ++ (x ∷ ys))
    → P x × All P (xs ++ ys)
All-middle P x [] ys h = h
All-middle P x (y ∷ xs) ys (p, ps) = let (here, rest) = All-middle P x xs ys ps in (here, (p, rest))

pub Distinct-middle :
    (o : PendingOrder) (xs ys : List PendingOrder)
    → Distinct (xs ++ (o ∷ ys))
    → All (Apart o) (xs ++ ys) × Distinct (xs ++ ys)
Distinct-middle o [] ys h = h
Distinct-middle o (x ∷ xs) ys (a, d) =
    let (apart, rest) = All-middle (Apart x) o xs ys a in
    let (all, distinct) = Distinct-middle o xs ys d in
    ((Apart-symm x o apart, all), (rest, distinct))

awaited-booked : (o : PendingOrder) (l : Leg) → l.state ≡ awaited o → booked l ≡ pos 0
awaited-booked o l h = ground arith

-- The leg of an order in the middle of the list.
pub middle_leg :
    (r : Money) (ps : List Position) (o : PendingOrder) (xs ys : List PendingOrder)
    → Ledger r ps (xs ++ (o ∷ ys))
    → Matches ps o
middle_leg r ps o xs ys g = (All-middle (Matches ps) o xs ys g.matched).0

-- An order leaves the list, its leg is rewritten, and what the leg earned is booked.
pub Ledger-step :
    (r r' : Money) (ps : List Position) (o : PendingOrder) (xs ys : List PendingOrder) (l v : Leg)
    → Ledger r ps (xs ++ (o ∷ ys))
    → get_leg ps o.position o.leg_index ≡ some l
    → r' ≡ r +ℤ booked v
    → Ledger r' (set_leg ps o.position o.leg_index v) (xs ++ ys)
Ledger-step r r' ps o xs ys l v g found sum =
    let m = middle_leg r ps o xs ys g in
    let (apart, distinct) = Distinct-middle o xs ys g.distinct in
    let state : l.state ≡ awaited o =
      ap (λ (x : Leg). x.state) (some-injective _ _ (sym found ∙ m.found)) ∙ m.waits in
    let none_before : booked l ≡ pos 0 = awaited-booked o l state in
    record {
      booked_all = omega (
        int_laws,
        parts_of_eq sum,
        parts_of_eq g.booked_all,
        parts_of_eq none_before,
        parts_of_eq (booked_total-set_leg ps o.position o.leg_index v found),
      );
      matched =
          set_leg-All-Matches ps o v (xs ++ ys) apart (All-middle (Matches ps) o xs ys g.matched).1;
      distinct = distinct;
    }

open-ne-awaited : (o : PendingOrder) → open_leg ≢ awaited o
open-ne-awaited o = ground arith

-- An order for an open leg is apart from every order that is working.
open-Apart :
    (ps : List Position) (o o' : PendingOrder) (l : Leg)
    → get_leg ps o.position o.leg_index ≡ some l
    → l.state ≡ open_leg
    → Matches ps o'
    → Apart o o'
open-Apart ps o o' l found state m = elim (ℕ_discrete o.position o'.position) [
  | yes e ↦ elim (ℕ_discrete o.leg_index o'.leg_index) [
    | yes f ↦
        let here : get_leg ps o'.position o'.leg_index ≡ some l = rw (← e, ← f) found in
        let one : l ≡ m.leg = some-injective _ _ (sym here ∙ m.found) in
        absurd (open-ne-awaited o' (sym state ∙ (ap (λ (x : Leg). x.state) one ∙ m.waits)))
    | no differ ↦ inr differ
  ]
  | no differ ↦ inl differ
]

open-All-Apart :
    (ps : List Position) (o : PendingOrder) (l : Leg) (os : List PendingOrder)
    → get_leg ps o.position o.leg_index ≡ some l
    → l.state ≡ open_leg
    → All (Matches ps) os
    → All (Apart o) os
open-All-Apart ps o l [] found state m = tt
open-All-Apart ps o l (x ∷ xs) found state (m, ms) =
    (open-Apart ps o x l found state m, open-All-Apart ps o l xs found state ms)

pub Distinct-snoc :
    (o : PendingOrder) (os : List PendingOrder)
    → Distinct os
    → All (Apart o) os
    → Distinct (os ++ (o ∷ []))
Distinct-snoc o [] d a = (tt, tt)
Distinct-snoc o (x ∷ xs) (ax, d) (a, as') =
    (All-append (Apart x) xs (o ∷ []) ax (Apart-symm o x a, tt), Distinct-snoc o xs d as')

-- A new order for an open leg, which then waits to close.
pub Ledger-close :
    (r : Money) (ps : List Position) (o : PendingOrder) (os : List PendingOrder) (l : Leg)
    → Ledger r ps os
    → get_leg ps o.position o.leg_index ≡ some l
    → l.state ≡ open_leg
    → o.closing ≡ true
    → l.instrument ≡ o.instrument
    → Ledger r
        (set_leg ps o.position o.leg_index (record l { state = pending_close }))
        (os ++ (o ∷ []))
Ledger-close r ps o os l g found state closing same =
    let v : Leg = record l { state = pending_close } in
    let apart = open-All-Apart ps o l os found state g.matched in
    let none_before : booked l ≡ pos 0 = ground arith in
    record {
      booked_all = omega (
        int_laws,
        parts_of_eq g.booked_all,
        parts_of_eq none_before,
        parts_of_eq (booked_total-set_leg ps o.position o.leg_index v found),
      );
      matched = All-append (Matches _) os (o ∷ []) (set_leg-All-Matches ps o v os apart g.matched) (
        record {
          leg = v;
          found = get_leg-set_leg_self ps o.position o.leg_index v found;
          waits = rw closing;
          same = same;
        },
        tt,
      );
      distinct = Distinct-snoc o os g.distinct apart;
    }

-- Reading the list of orders one further.
pub Ledger-shift :
    (r : Money) (ps : List Position) (o : PendingOrder) (xs ys : List PendingOrder)
    → Ledger r ps (xs ++ (o ∷ ys))
    → Ledger r ps ((xs ++ (o ∷ [])) ++ ys)
Ledger-shift r ps o xs ys g = subst (Ledger r ps) (sym (append_assoc xs (o ∷ []) ys)) g

pub Ledger-unshift :
    (r : Money) (ps : List Position) (o : PendingOrder) (xs ys : List PendingOrder)
    → Ledger r ps ((xs ++ (o ∷ [])) ++ ys)
    → Ledger r ps (xs ++ (o ∷ ys))
Ledger-unshift r ps o xs ys g = subst (Ledger r ps) (append_assoc xs (o ∷ []) ys) g
