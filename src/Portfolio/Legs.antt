-- ===== src/Portfolio/Legs.antt =====
-- One leg read and written, and what the closed legs have earned.
use mathlib.Core.Option.{some-injective}
use volforge.Prelude.{
  ℕ, zero, suc, ◌<◌, ◌≡◌, refl, ap, ◌≢◌, ◌⊎◌, inl, inr, some, List, [], ◌∷◌, ◌++◌, arith,
  if◌then◌else◌, length, get_elem?, set, length-set, get_elem?-set_self, get_elem?-set_ne, pos,
  ◌+ℤ◌, ◌-ℤ◌, int_laws, parts_of_eq,
}
use volforge.Types.{Money, notional}
use volforge.Portfolio.{Leg, Position, get_leg, set_leg}
use volforge.Portfolio.Positions.{is_closed_state}

pub get_leg-set_leg_self :
    (ps : List Position) (i j : ℕ) (v : Leg) {l : Leg}
    → get_leg ps i j ≡ some l
    → get_leg (set_leg ps i j v) i j ≡ some v
unfolding get_leg set_leg
get_leg-set_leg_self [] i j v h = cc
get_leg-set_leg_self (p ∷ ps) zero j v h = get_elem?-set_self p.legs j v h
get_leg-set_leg_self (p ∷ ps) (suc i) j v h = get_leg-set_leg_self ps i j v h

pub get_leg-set_leg_ne :
    (ps : List Position) (i j i' j' : ℕ) (v : Leg)
    → (i ≢ i') ⊎ (j ≢ j')
    → get_leg (set_leg ps i j v) i' j' ≡ get_leg ps i' j'
unfolding get_leg set_leg
get_leg-set_leg_ne [] i j i' j' v h = refl
get_leg-set_leg_ne (p ∷ ps) zero j zero j' v (inl h) = absurd (h refl)
get_leg-set_leg_ne (p ∷ ps) zero j zero j' v (inr h) = get_elem?-set_ne p.legs j j' v h
get_leg-set_leg_ne (p ∷ ps) zero j (suc i') j' v h = refl
get_leg-set_leg_ne (p ∷ ps) (suc i) j zero j' v h = refl
get_leg-set_leg_ne (p ∷ ps) (suc i) j (suc i') j' v (inl h) =
    get_leg-set_leg_ne ps i j i' j' v (inl (λ e. h (ap suc e)))
get_leg-set_leg_ne (p ∷ ps) (suc i) j (suc i') j' v (inr h) =
    get_leg-set_leg_ne ps i j i' j' v (inr h)

-- The profit of a leg that is closed, and 0 for any other.
abbrev pub booked : Leg → Money
booked l =
    if is_closed_state l.state then notional l.exit l.qty -ℤ notional l.entry l.qty else pos 0

unfoldable pub sum_booked : List Leg → Money
sum_booked [] = pos 0
sum_booked (l ∷ ls) = booked l +ℤ sum_booked ls

-- The profit of all closed legs, computed from the legs alone.
unfoldable pub booked_total : List Position → Money
booked_total [] = pos 0
booked_total (p ∷ ps) = sum_booked p.legs +ℤ booked_total ps

sum_booked-set :
    (ls : List Leg) (j : ℕ) (v : Leg) {l : Leg}
    → get_elem? ls j ≡ some l
    → sum_booked (set ls j v) +ℤ booked l ≡ sum_booked ls +ℤ booked v
unfolding sum_booked
sum_booked-set [] j v h = cc
sum_booked-set (x ∷ xs) zero v h = rw (← some-injective _ _ h) (omega int_laws)
sum_booked-set (x ∷ xs) (suc j) v h = omega (int_laws, parts_of_eq (sum_booked-set xs j v h))

pub booked_total-set_leg :
    (ps : List Position) (i j : ℕ) (v : Leg) {l : Leg}
    → get_leg ps i j ≡ some l
    → booked_total (set_leg ps i j v) +ℤ booked l ≡ booked_total ps +ℤ booked v
unfolding booked_total get_leg set_leg
booked_total-set_leg [] i j v h = cc
booked_total-set_leg (p ∷ ps) zero j v h =
    omega (int_laws, parts_of_eq (sum_booked-set p.legs j v h))
booked_total-set_leg (p ∷ ps) (suc i) j v h =
    omega (int_laws, parts_of_eq (booked_total-set_leg ps i j v h))

pub booked_total-append :
    (ps qs : List Position) → booked_total (ps ++ qs) ≡ booked_total ps +ℤ booked_total qs
unfolding booked_total
booked_total-append [] qs = omega int_laws
booked_total-append (p ∷ ps) qs = omega (int_laws, parts_of_eq (booked_total-append ps qs))

-- The number of legs of a position, 0 for one that is not there.
unfoldable pub leg_count : List Position → ℕ → ℕ
leg_count [] i = 0
leg_count (p ∷ ps) zero = length p.legs
leg_count (p ∷ ps) (suc i) = leg_count ps i

pub leg_count-set_leg :
    (ps : List Position) (i j : ℕ) (v : Leg) (k : ℕ)
    → leg_count (set_leg ps i j v) k ≡ leg_count ps k
unfolding leg_count set_leg
leg_count-set_leg [] i j v k = refl
leg_count-set_leg (p ∷ ps) zero j v zero = length-set p.legs j v
leg_count-set_leg (p ∷ ps) zero j v (suc k) = refl
leg_count-set_leg (p ∷ ps) (suc i) j v zero = refl
leg_count-set_leg (p ∷ ps) (suc i) j v (suc k) = leg_count-set_leg ps i j v k

get_elem?_total : (ls : List Leg) (j : ℕ) → j < length ls → (l : Leg) × (get_elem? ls j ≡ some l)
get_elem?_total [] j h = absurd (omega arith)
get_elem?_total (l ∷ ls) zero h = (l, refl)
get_elem?_total (l ∷ ls) (suc j) h = get_elem?_total ls j (omega arith)

pub get_leg_total :
    (ps : List Position) (i j : ℕ) → j < leg_count ps i → (l : Leg) × (get_leg ps i j ≡ some l)
unfolding leg_count get_leg
get_leg_total [] i j h = absurd (omega arith)
get_leg_total (p ∷ ps) zero j h = get_elem?_total p.legs j h
get_leg_total (p ∷ ps) (suc i) j h = get_leg_total ps i j h

pub leg_count_of :
    (ps : List Position) (i : ℕ) (p : Position)
    → get_elem? ps i ≡ some p
    → leg_count ps i ≡ length p.legs
unfolding leg_count
leg_count_of [] i p h = cc
leg_count_of (q ∷ ps) zero p h = ap (λ (x : Position). length x.legs) (some-injective _ _ h)
leg_count_of (q ∷ ps) (suc i) p h = leg_count_of ps i p h
